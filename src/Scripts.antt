-- ===== src/Scripts.antt =====
-- scripts: the command-line tools around the public API.
pub mod Witnesses
pub mod Upload
