-- ===== src/Worker/Processor/Queues.antt =====
-- The steps of IngestionProcessor and the two queues, which belong to the runner.
use cbir_engine.Base.{Text, refl, ◌∙◌, ◌≡◌}
use cbir_engine.Vectors.Port.{VectorStore}
use cbir_engine.Worker.Ports.{Outside, Settings, World}
use cbir_engine.Worker.Processor.{process}
use cbir_engine.Worker.Processor.Steps.{IsKept, mark_failed-Keeps, process-Keeps}
use cbir_engine.Worker.Store.{Action, mark_failed}

module _ {V : Type 0} (s : VectorStore V) (o : Outside V) where
  -- The two queues are the same in both worlds.
  abbrev pub SameQueues : World s o → World s o → Type 0
  SameQueues w v = (v.queue ≡ w.queue) × (v.dead_letters ≡ w.dead_letters)

  SameQueues-IsKept : IsKept s o SameQueues
  SameQueues-IsKept = record {
    same = λ w. (refl, refl);
    next = λ w v u h k. (k.0 ∙ h.0, k.1 ∙ h.1);
    tables = λ w items refs fresh. (refl, refl);
    versions = λ w vs. (refl, refl);
  }

  abbrev pub KeepsQueues : {A : Type 0} → Action s o A → Type 0
  KeepsQueues m = (w : World s o) → SameQueues w (m w).1

  pub mark_failed-KeepsQueues : (raw reason : Text) → KeepsQueues (mark_failed s o raw reason)
  mark_failed-KeepsQueues = mark_failed-Keeps s o SameQueues SameQueues-IsKept

  pub process-KeepsQueues :
      (settings : Settings) (raw : Text) → KeepsQueues (process s o settings raw)
  process-KeepsQueues settings raw w =
      process-Keeps s o SameQueues SameQueues-IsKept settings raw w
        (λ i found. (λ dim v. (refl, refl), λ r v. (refl, refl)))
