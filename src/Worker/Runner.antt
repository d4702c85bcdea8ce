-- ===== src/Worker/Runner.antt =====
-- ingestion_worker/runner.py and main.py: the disposition of a job, and the loop over the queue.
pub mod Draining
pub mod Intake
pub mod Attempts
pub mod Conservation
use mathlib.Core.List.{reverse}
use cbir_engine.Base.{
  Option, Result, Text, [], codes, err, false, if◌then◌else◌, leb_ℤ, negsuc, none, ok, pos, some,
  suc, suc_ℤ, true, zero, ℕ, ℤ, ◌++◌, ◌+◌, ◌∷◌,
}
use cbir_engine.Base.Strings.{show_nat}
use cbir_engine.Kernel.Json.{
  Fields, Json, JsonText, boolean, dumps, field_of, float, int, obj, set_field, str,
}
use cbir_engine.Vectors.Port.{VectorStore}
use cbir_engine.Worker.Ports.{
  Outside, Settings, WorkerError, World, message, other_error, permanent, transient,
}
use cbir_engine.Worker.Processor.{Outcome, fail, process}
use cbir_engine.Worker.Store.{Action}

pub data Disposition : Type 0 where
  done : Disposition
  retry : JsonText → Disposition
  dead_letter : JsonText → Disposition

-- What `job["item_id"]` and `int(job.get("attempts", 0))` read.
pub record Job : Type 0 where
  pub item_id : Json
  pub fields : Fields

abbrev pub job_of : Fields → Option Json → Option Job
job_of fs none = none
job_of fs (some i) = some (record { item_id = i; fields = fs })

-- `none` stands for JSONDecodeError, KeyError and TypeError.
unfoldable pub parse_job : JsonText → Option Job
parse_job (dumps (obj fs)) = job_of fs (field_of "item_id" fs)
parse_job _ = none

-- uuid.UUID(item_id) of a value that is no text raises, like a text that is no UUID.
abbrev pub item_text : Json → Text
item_text (str t) = t
item_text _ = codes "not a text"

module _ {V : Type 0} (s : VectorStore V) (o : Outside V) (settings : Settings) where
  abbrev attempts_value : Option Json → Option ℤ
  attempts_value none = some (pos 0)
  attempts_value (some (int n)) = some n
  attempts_value (some (boolean true)) = some (pos 1)
  attempts_value (some (boolean false)) = some (pos 0)
  attempts_value (some (str t)) = o.int_of_text t
  attempts_value (some (float t)) = o.int_of_float t
  attempts_value (some _) = none

  -- int(job.get("attempts", 0)); `none` stands for the ValueError or TypeError of `int`
  unfoldable pub attempts_of : Job → Option ℤ
  attempts_of j = attempts_value (field_of "attempts" j.fields)

  abbrev pub rolled_back : World s o → World s o → World s o
  rolled_back before w = record w { items = before.items; embedding_refs = before.embedding_refs }

  abbrev pub finish :
      {A : Type 0} → World s o → Result WorkerError A × World s o → Result WorkerError A × World s o
  finish before (ok a, w) = (ok a, w)
  finish before (err e, w) = (err e, rolled_back before w)

  -- processor_factory: commit after the block, or roll back
  abbrev pub unit_of_work : {A : Type 0} → Action s o A → Action s o A
  unit_of_work m w = finish w (m w)

  -- _run_once
  unfoldable pub run_once : Text → Action s o Outcome
  run_once raw = unit_of_work (process s o settings raw)

  -- _fail: an exception is only logged
  unfoldable pub mark_as_failed : Text → Text → World s o → World s o
  mark_as_failed raw reason w = (unit_of_work (fail s o settings raw reason) w).1

  abbrev pub to_dead_letters : JsonText → World s o → Disposition × World s o
  to_dead_letters payload w =
      (dead_letter payload, record w { dead_letters = payload ∷ w.dead_letters })

  unfoldable pub show_int : ℤ → Text
  show_int (pos n) = show_nat n
  show_int (negsuc n) = 45 ∷ show_nat (n + 1)

  -- json.dumps(job) with the new count of attempts
  unfoldable pub requeued : Job → ℤ → JsonText
  requeued j attempts = dumps (obj (set_field "attempts" (int attempts) j.fields))

  -- After a failure that may pass: the job goes back with one more attempt, or is given up.
  unfoldable pub retry_or_give_up :
      JsonText → Job → ℤ → WorkerError → World s o → Disposition × World s o
  retry_or_give_up payload j attempts e w =
      if leb_ℤ settings.max_attempts attempts
      then to_dead_letters payload (
          mark_as_failed (item_text j.item_id)
            (codes "failed after " ++ (show_int attempts ++ (codes " attempts: " ++ message e))) w)
      else (
        retry (requeued j attempts),
        record w { slept = attempts ∷ w.slept; queue = requeued j attempts ∷ w.queue },
      )

  abbrev pub settle :
      JsonText → Job → ℤ → Result WorkerError Outcome × World s o → Disposition × World s o
  settle payload j attempts (ok r, w) = (done, w)
  settle payload j attempts (err (permanent m), w) =
      to_dead_letters payload (mark_as_failed (item_text j.item_id) (codes "permanent: " ++ m) w)
  settle payload j attempts (err (transient m), w) =
      retry_or_give_up payload j (suc_ℤ attempts) (transient m) w
  settle payload j attempts (err (other_error m), w) =
      retry_or_give_up payload j (suc_ℤ attempts) (other_error m) w

  abbrev pub handle_attempts :
      JsonText → Job → Option ℤ → World s o → Option Disposition × World s o
  handle_attempts payload j none w = (none, w)
  handle_attempts payload j (some n) w =
      let (d, w') = settle payload j n (run_once (item_text j.item_id) w) in (some d, w')

  abbrev pub handle_job : JsonText → Option Job → World s o → Option Disposition × World s o
  handle_job payload none w = let (d, w') = to_dead_letters payload w in (some d, w')
  handle_job payload (some j) w = handle_attempts payload j (attempts_of j) w

  -- IngestionRunner.handle; `none` is an exception that leaves it
  unfoldable pub handle : JsonText → World s o → Option Disposition × World s o
  handle payload w = handle_job payload (parse_job payload) w

  -- One turn of run_forever: BRPOP takes the oldest payload off the queue, and the loop drops an
  -- exception of `handle`. `none` when the queue is empty.
  unfoldable pub turn : World s o → Option (World s o)
  turn w = elim (reverse w.queue) [
    | [] ↦ none
    | payload ∷ rest ↦ some (handle payload (record w { queue = reverse rest })).1
  ]

  -- run_forever while nothing else is pushed: so many turns, or fewer if the queue runs empty.
  unfoldable pub turns : ℕ → World s o → World s o
  turns zero w = w
  turns (suc k) w = elim (turn w) [ none ↦ w | some v ↦ turns k v ]
