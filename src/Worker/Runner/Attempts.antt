-- ===== src/Worker/Runner/Attempts.antt =====
-- IngestionRunner: the count of attempts, which travels in the job itself.
use mathlib.Core.Path.{subst}
use cbir_engine.Base.{
  Bool-cases, Option, Option-cases, Result, String, ap, arith, eq_iff, eq_refl, err, false, inl,
  inr, is_some, leb_ℤ, none, ok, or_else, refl, some, str_eq, suc_ℤ, sym, ℤ, ◌∙◌, ◌≡◌,
}
use cbir_engine.Kernel.Json.{
  Fields, Json, JsonText, append_field, arr, boolean, dumps, end, field, field_of, float, int,
  not_json, null, obj, replace_field, set_field, str,
}
use cbir_engine.Vectors.Memory.{count}
use cbir_engine.Vectors.Port.{VectorStore}
use cbir_engine.Worker.Ports.{
  Outside, Settings, WorkerError, World, other_error, permanent, transient,
}
use cbir_engine.Worker.Processor.{Outcome}
use cbir_engine.Worker.Runner.{
  Disposition, Job, attempts_of, dead_letter, done, handle, handle_attempts, handle_job, item_text,
  job_of, parse_job, requeued, retry, retry_or_give_up, run_once, settle,
}

field_of-append_field :
    (k : String) (v : Json) (fs : Fields)
    → is_some (field_of k fs) ≡ false
    → field_of k (append_field k v fs) ≡ some v
field_of-append_field k v end h = rw (eq_refl k) refl
field_of-append_field k v (field j w fs) h = elim (Option-cases (field_of k fs)) [
  | inl e ↦ rw (field_of-append_field k v fs (rw e refl)) refl
  | inr (x, e) ↦ ground arith
]

-- The value where there was one.
abbrev in_place : Json → Option Json → Option Json
in_place v none = none
in_place v (some w) = some v

field_of-replace_field :
    (k : String) (v : Json) (fs : Fields)
    → field_of k (replace_field k v fs) ≡ in_place v (field_of k fs)
field_of-replace_field k v end = refl
field_of-replace_field k v (field j w fs) = elim (Bool-cases (str_eq j k)) [
  | inl e ↦
      rw (field_of-replace_field k v fs)
        (rw e (elim (Option-cases (field_of k fs)) [ inl n ↦ rw n refl | inr (x, n) ↦ rw n refl ]))
  | inr e ↦
      rw (field_of-replace_field k v fs)
        (rw e (elim (Option-cases (field_of k fs)) [ inl n ↦ rw n refl | inr (x, n) ↦ rw n refl ]))
]

field_of-append_other :
    (i k : String) (v : Json) (fs : Fields)
    → str_eq k i ≡ false
    → field_of i (append_field k v fs) ≡ field_of i fs
field_of-append_other i k v end h = rw h refl
field_of-append_other i k v (field j w fs) h = rw (field_of-append_other i k v fs h) refl

field_of-replace_other :
    (i k : String) (v : Json) (fs : Fields)
    → str_eq k i ≡ false
    → field_of i (replace_field k v fs) ≡ field_of i fs
field_of-replace_other i k v end h = refl
field_of-replace_other i k v (field j w fs) h = elim (Bool-cases (str_eq j i)) [
  | inr e ↦ rw e (rw (field_of-replace_other i k v fs h) refl)
  | inl e ↦ elim (Bool-cases (str_eq j k)) [
    | inl f ↦ let same = (eq_iff j k).0 f in cc
    | inr f ↦ rw e (rw f (rw (field_of-replace_other i k v fs h) refl))
  ]
]

-- What the job says after `d[k] = v`.
field_of-set_field : (k : String) (v : Json) (fs : Fields) → field_of k (set_field k v fs) ≡ some v
field_of-set_field k v fs = elim (Option-cases (field_of k fs)) [
  | inl n ↦ rw n (field_of-append_field k v fs (rw n refl))
  | inr (x, n) ↦ rw n (field_of-replace_field k v fs ∙ rw n refl)
]

field_of-set_other :
    (i k : String) (v : Json) (fs : Fields)
    → str_eq k i ≡ false
    → field_of i (set_field k v fs) ≡ field_of i fs
field_of-set_other i k v fs h = elim (Option-cases (field_of k fs)) [
  | inl n ↦ rw n (field_of-append_other i k v fs h)
  | inr (x, n) ↦ rw n (field_of-replace_other i k v fs h)
]

parse_job-fields :
    (fs : Fields) (i : Json)
    → field_of "item_id" fs ≡ some i
    → parse_job (dumps (obj fs)) ≡ some (record { item_id = i; fields = fs })
unfolding parse_job
parse_job-fields fs i h = ap (job_of fs) h

job_of-Field :
    (fs : Fields) (i : Option Json) (j : Job)
    → field_of "item_id" fs ≡ i
    → job_of fs i ≡ some j
    → field_of "item_id" j.fields ≡ some j.item_id
job_of-Field fs none j e h = cc
job_of-Field fs (some i) j e h =
    subst (λ (k : Job). field_of "item_id" k.fields ≡ some k.item_id) (ap (λ x. or_else x j) h) e

parse_job-Field :
    (payload : JsonText) (j : Job)
    → parse_job payload ≡ some j
    → field_of "item_id" j.fields ≡ some j.item_id
unfolding parse_job
parse_job-Field (dumps (obj fs)) j h = job_of-Field fs (field_of "item_id" fs) j refl h
parse_job-Field (dumps null) j h = cc
parse_job-Field (dumps (boolean b)) j h = cc
parse_job-Field (dumps (int n)) j h = cc
parse_job-Field (dumps (float t)) j h = cc
parse_job-Field (dumps (str t)) j h = cc
parse_job-Field (dumps (arr xs)) j h = cc
parse_job-Field (not_json t) j h = cc

module _ {V : Type 0} (s : VectorStore V) (o : Outside V) (settings : Settings) where
  -- A job that is sent back is read, when it comes off the queue again, as a job of the same item
  -- whose count of attempts is the one that was written.
  parse_job-requeued :
      (i : Json) (fs : Fields) (n : ℤ)
      → field_of "item_id" fs ≡ some i
      → (j : Job) × (parse_job (requeued s o settings (record { item_id = i; fields = fs }) n)
          ≡ some j)
        × (j.item_id ≡ i)
        × (attempts_of s o settings j ≡ some n)
  unfolding requeued attempts_of
  parse_job-requeued i fs n h = (
    record { item_id = i; fields = set_field "attempts" (int n) fs },
    parse_job-fields (set_field "attempts" (int n) fs) i
        (field_of-set_other "item_id" "attempts" (int n) fs refl ∙ h),
    refl,
    rw (field_of-set_field "attempts" (int n) fs) refl,
  )

  -- A retry of a job that was attempted n times.
  abbrev pub Advances : Job → ℤ → Option Disposition → Type 0
  Advances j n none = Unit
  Advances j n (some done) = Unit
  Advances j n (some (dead_letter p)) = Unit
  Advances j n (some (retry p)) =
      (j' : Job) × (parse_job p ≡ some j')
      × (j'.item_id ≡ j.item_id)
      × (attempts_of s o settings j' ≡ some (suc_ℤ n))
      × (leb_ℤ settings.max_attempts (suc_ℤ n) ≡ false)

  retry_or_give_up-Advances :
      (payload : JsonText) (j : Job) (n : ℤ) (e : WorkerError) (w : World s o)
      → field_of "item_id" j.fields ≡ some j.item_id
      → Advances j n (some (retry_or_give_up s o settings payload j (suc_ℤ n) e w).0)
  unfolding retry_or_give_up
  retry_or_give_up-Advances payload j n e w h =
      elim (Bool-cases (leb_ℤ settings.max_attempts (suc_ℤ n))) [
        | inl full ↦ rw full tt
        | inr room ↦
            let (j', parsed, same, count) = parse_job-requeued j.item_id j.fields (suc_ℤ n) h in
            rw room (j', parsed, same, count, room)
      ]

  settle-Advances :
      (payload : JsonText) (j : Job) (n : ℤ) (p : Result WorkerError Outcome × World s o)
      → field_of "item_id" j.fields ≡ some j.item_id
      → Advances j n (some (settle s o settings payload j n p).0)
  settle-Advances payload j n (ok r, w) h = tt
  settle-Advances payload j n (err (permanent m), w) h = tt
  settle-Advances payload j n (err (transient m), w) h =
      retry_or_give_up-Advances payload j n (transient m) w h
  settle-Advances payload j n (err (other_error m), w) h =
      retry_or_give_up-Advances payload j n (other_error m) w h

  -- When a job that was attempted n times goes back to the queue, what goes back is a job of the
  -- same item that was attempted n + 1 times, and n + 1 is below the limit: so the retries of a job
  -- come to an end.
  pub handle-Advances :
      (payload : JsonText) (j : Job) (n : ℤ) (w : World s o)
      → parse_job payload ≡ some j
      → attempts_of s o settings j ≡ some n
      → Advances j n (handle s o settings payload w).0
  unfolding handle
  handle-Advances payload j n w parsed counted =
      subst (λ c. Advances j n (handle_job s o settings payload c w).0) (sym parsed)
        (subst (λ c. Advances j n (handle_attempts s o settings payload j c w).0) (sym counted)
          (settle-Advances payload j n (run_once s o settings (item_text j.item_id) w)
            (parse_job-Field payload j parsed)))
