-- ===== src/Quality.antt =====
-- infra/ci/quality-gates/retrieval_quality.py: the gate on the quality of retrieval.
pub mod Witnesses
pub mod Metrics
pub mod Gate
