-- ===== src/Worker/Runner/Intake.antt =====
-- The producer of catalog-service and the parser of IngestionRunner.
use cbir_engine.Base.{pos, refl, some, ◌≡◌}
use cbir_engine.Catalog.Ports.{IngestionJob}
use cbir_engine.Catalog.Storage.{job_payload}
use cbir_engine.Kernel.Json.{str}
use cbir_engine.Vectors.Port.{VectorStore}
use cbir_engine.Worker.Ports.{Outside, Settings}
use cbir_engine.Worker.Runner.{Job, attempts_of, parse_job}

module _ {V : Type 0} (s : VectorStore V) (o : Outside V) (settings : Settings) where
  -- Every job that the catalog writes is parsed, as a job of its item that was not attempted yet.
  pub parse_job-job_payload :
      (job : IngestionJob)
      → (j : Job) × (parse_job (job_payload job) ≡ some j)
        × (j.item_id ≡ str job.item_id)
        × (attempts_of s o settings j ≡ some (pos 0))
  unfolding parse_job job_payload attempts_of
  parse_job-job_payload job = (_, refl, refl, refl)
