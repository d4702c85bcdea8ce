-- ===== src/Worker/Runner/Conservation.antt =====
-- IngestionRunner.handle: what becomes of the job that was taken off the queue.
use cbir_engine.Base.{
  Bool-cases, Option, Result, Text, ap, err, inl, inr, leb_ℤ, none, ok, refl, some, suc_ℤ, ℤ, ◌∙◌,
  ◌∷◌, ◌≡◌,
}
use cbir_engine.Kernel.Json.{JsonText}
use cbir_engine.Vectors.Port.{VectorStore}
use cbir_engine.Worker.Ports.{
  Outside, Settings, WorkerError, World, other_error, permanent, transient,
}
use cbir_engine.Worker.Processor.{Outcome, fail, process}
use cbir_engine.Worker.Processor.Queues.{SameQueues, mark_failed-KeepsQueues, process-KeepsQueues}
use cbir_engine.Worker.Runner.{
  Disposition, Job, attempts_of, dead_letter, done, finish, handle, handle_attempts, handle_job,
  item_text, mark_as_failed, parse_job, requeued, retry, retry_or_give_up, run_once, settle,
  to_dead_letters,
}
use cbir_engine.Worker.Store.{mark_failed}

module _ {V : Type 0} (s : VectorStore V) (o : Outside V) (settings : Settings) where
  finish-SameQueues :
      {A : Type 0} (before : World s o) (p : Result WorkerError A × World s o)
      → SameQueues s o before p.1
      → SameQueues s o before (finish s o settings before p).1
  finish-SameQueues before (ok a, v) h = h
  finish-SameQueues before (err e, v) h = h

  mark_as_failed-SameQueues :
      (raw reason : Text) (w : World s o)
      → SameQueues s o w (mark_as_failed s o settings raw reason w)
  unfolding mark_as_failed fail
  mark_as_failed-SameQueues raw reason w =
      finish-SameQueues w (mark_failed s o raw reason w) (mark_failed-KeepsQueues s o raw reason w)

  run_once-SameQueues :
      (raw : Text) (w : World s o) → SameQueues s o w (run_once s o settings raw w).1
  unfolding run_once
  run_once-SameQueues raw w =
      finish-SameQueues w (process s o settings raw w) (process-KeepsQueues s o settings raw w)

  -- Where the job of `payload` is after `handle`, by what `handle` returned.
  abbrev pub AccountsFor : JsonText → World s o → Option Disposition → World s o → Type 0
  AccountsFor payload w none v = SameQueues s o w v
  AccountsFor payload w (some done) v = SameQueues s o w v
  AccountsFor payload w (some (retry p)) v =
      (v.queue ≡ p ∷ w.queue) × (v.dead_letters ≡ w.dead_letters)
  AccountsFor payload w (some (dead_letter p)) v =
      (p ≡ payload) × (v.queue ≡ w.queue) × (v.dead_letters ≡ payload ∷ w.dead_letters)

  to_dead_letters-AccountsFor :
      (payload : JsonText) (w v : World s o)
      → SameQueues s o w v
      → let (d, v') = to_dead_letters s o settings payload v in AccountsFor payload w (some d) v'
  to_dead_letters-AccountsFor payload w v h = (refl, h.0, ap (λ q. payload ∷ q) h.1)

  give_up-AccountsFor :
      (payload : JsonText) (raw reason : Text) (w v : World s o)
      → SameQueues s o w v
      → let (d, v') =
          to_dead_letters s o settings payload (mark_as_failed s o settings raw reason v) in
        AccountsFor payload w (some d) v'
  give_up-AccountsFor payload raw reason w v h =
      let k = mark_as_failed-SameQueues raw reason v in
      to_dead_letters-AccountsFor payload w (mark_as_failed s o settings raw reason v)
        (k.0 ∙ h.0, k.1 ∙ h.1)

  retry_or_give_up-AccountsFor :
      (payload : JsonText) (j : Job) (n : ℤ) (e : WorkerError) (w v : World s o)
      → SameQueues s o w v
      → let (d, v') = retry_or_give_up s o settings payload j n e v in
        AccountsFor payload w (some d) v'
  unfolding retry_or_give_up
  retry_or_give_up-AccountsFor payload j n e w v h =
      elim (Bool-cases (leb_ℤ settings.max_attempts n)) [
        | inl full ↦ rw full (give_up-AccountsFor payload (item_text j.item_id) _ w v h)
        | inr room ↦ rw room (ap (λ q. requeued s o settings j n ∷ q) h.0, h.1)
      ]

  settle-AccountsFor :
      (payload : JsonText) (j : Job) (n : ℤ) (w : World s o)
      (p : Result WorkerError Outcome × World s o)
      → SameQueues s o w p.1
      → let (d, v) = settle s o settings payload j n p in AccountsFor payload w (some d) v
  settle-AccountsFor payload j n w (ok r, v) h = h
  settle-AccountsFor payload j n w (err (permanent m), v) h =
      give_up-AccountsFor payload (item_text j.item_id) _ w v h
  settle-AccountsFor payload j n w (err (transient m), v) h =
      retry_or_give_up-AccountsFor payload j (suc_ℤ n) (transient m) w v h
  settle-AccountsFor payload j n w (err (other_error m), v) h =
      retry_or_give_up-AccountsFor payload j (suc_ℤ n) (other_error m) w v h

  handle_attempts-AccountsFor :
      (payload : JsonText) (j : Job) (n : Option ℤ) (w : World s o)
      → let (d, v) = handle_attempts s o settings payload j n w in AccountsFor payload w d v
  handle_attempts-AccountsFor payload j none w = (refl, refl)
  handle_attempts-AccountsFor payload j (some n) w =
      settle-AccountsFor payload j n w (run_once s o settings (item_text j.item_id) w)
        (run_once-SameQueues (item_text j.item_id) w)

  handle_job-AccountsFor :
      (payload : JsonText) (j : Option Job) (w : World s o)
      → let (d, v) = handle_job s o settings payload j w in AccountsFor payload w d v
  handle_job-AccountsFor payload none w = to_dead_letters-AccountsFor payload w w (refl, refl)
  handle_job-AccountsFor payload (some j) w =
      handle_attempts-AccountsFor payload j (attempts_of s o settings j) w

  pub handle-AccountsFor :
      (payload : JsonText) (w : World s o)
      → AccountsFor payload w (handle s o settings payload w).0 (handle s o settings payload w).1
  unfolding handle
  handle-AccountsFor payload w = handle_job-AccountsFor payload (parse_job payload) w
