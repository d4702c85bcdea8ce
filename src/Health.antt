-- ===== src/Health.antt =====
-- The readiness checks of the composition roots of auth-service, catalog-service and query-service.
pub mod Verdict
use cbir_engine.Base.{Bool, List, Option, String, [], all, if◌then◌else◌, none, some, ℕ, ◌∷◌}

-- The name of a dependency and whether it can be reached.
abbrev pub Dependencies : Type 0
Dependencies = List (String × Bool)

pub record Readiness : Type 0 where
  pub status_code : ℕ
  pub status : String
  pub dependencies : Dependencies

abbrev pub all_reachable : Dependencies → Bool
all_reachable = all (λ (d : String × Bool). d.1)

abbrev pub readiness : Dependencies → Readiness
readiness results = record {
  status_code = if all_reachable results then 200 else 503;
  status = if all_reachable results then "ok" else "degraded";
  dependencies = results;
}

-- A dependency that the application was built with.
abbrev pub if_wired : String → Option Bool → Dependencies → Dependencies
if_wired name none rest = rest
if_wired name (some reachable) rest = (name, reachable) ∷ rest

-- auth-service: `SELECT 1` and `PING`, where an exception is a `false`
unfoldable pub auth_readyz : Bool → Bool → Readiness
auth_readyz postgres redis = readiness (("postgres", postgres) ∷ ("redis", redis) ∷ [])

-- catalog-service; an absent adapter is `none`
unfoldable pub catalog_readyz : Bool → Option Bool → Option Bool → Option Bool → Readiness
catalog_readyz postgres storage queue auth = readiness (
    ("postgres", postgres)
    ∷ if_wired "object_storage" storage
        (if_wired "ingestion_queue" queue (if_wired "auth_service" auth [])))

-- query-service
unfoldable pub query_readyz : Option Bool → Option Bool → Option Bool → Option Bool → Readiness
query_readyz embedder index cache auth = readiness (
    if_wired "ai_service" embedder
      (if_wired "vector_db" index (if_wired "cache" cache (if_wired "auth_service" auth []))))
