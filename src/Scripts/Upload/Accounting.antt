-- ===== src/Scripts/Upload/Accounting.antt =====
-- scripts/upload_caltech101.py: the polling ends, and every image is counted once.
use cbir_engine.Base.{
  Bool-cases, List, Option, Result, Text, [], ap, arith, codes, err, false, inl, inr, length, ltb,
  none, ok, pure, refl, some, suc, text_eq, true, zero, ℕ, ◌*◌, ◌+◌, ◌<◌, ◌==◌, ◌∙◌, ◌∷◌, ◌≡◌, ◌≤◌,
}
use cbir_engine.Base.Effects.{followed}
use cbir_engine.Kernel.Json.{Json, arr, boolean, float, int, null, obj, str}
use cbir_engine.Scripts.Upload.{
  Clocked, Counts, Entry, Run, Upload, UploadArgs, ask, call_with_backoff, count_failure, ended,
  find_images, finished, followed_up, is_rate_limit, is_terminal, limited, main, no_counts, noted,
  poll, polled, retry, run_sdk, sleep, tally, upload_all, upload_one, wait_until_indexed,
}
use cbir_engine.Sdk.Client.{Calls, CbirClient, Surroundings, formatted, get_item, new_client}
use cbir_engine.Sdk.Models.{CatalogItem, SdkError}

-- The number of images that were counted.
abbrev pub total : Counts → ℕ
total c = c.uploaded + c.duplicates + c.failed

total-tally : (status : Json) (c : Counts) → total (tally status c) ≡ suc (total c)
total-tally (str t) c = elim (Bool-cases (text_eq t (codes "indexed"))) [
  | inl e ↦ rw e (omega arith)
  | inr e ↦ elim (Bool-cases (text_eq t (codes "duplicate"))) [
    | inl k ↦ rw e (rw k (omega arith))
    | inr k ↦ rw e (rw k (omega arith))
  ]
]
total-tally null c = omega arith
total-tally (boolean b) c = omega arith
total-tally (int n) c = omega arith
total-tally (float t) c = omega arith
total-tally (arr vs) c = omega arith
total-tally (obj fs) c = omega arith

-- The action does not turn the clock back.
abbrev Advances : {A : Type 0} → Run A → Type 0
Advances m = (w : Clocked) → w.time ≤ (m w).1.time

retry-Advances :
    {A : Type 0} (action : Run A) (left attempt : ℕ) (p : Result SdkError A × Clocked)
    → Advances action
    → p.1.time ≤ (retry action left attempt p).1.time
retry-Advances action left attempt (ok a, w) h = omega arith
retry-Advances action zero attempt (err e, w) h = omega arith
retry-Advances action (suc left) attempt (err e, w) h =
    let slept = sleep (2000 * suc attempt) w in
    let again = retry-Advances action left (suc attempt) (action slept) h in
    elim (Bool-cases (is_rate_limit e)) [
      | inl k ↦ rw k (omega (arith, again, h slept))
      | inr k ↦ rw k (omega arith)
    ]

call_with_backoff-Advances :
    {A : Type 0} (action : Run A) → Advances action → Advances (call_with_backoff action)
unfolding call_with_backoff
call_with_backoff-Advances action h w = omega (arith, h w, retry-Advances action 4 0 (action w) h)

module _ (s : Surroundings) (took : Calls → ℕ) (client : CbirClient) (args : UploadArgs) where
  followed-time :
      {A B : Type 0} (f : A → B) (p : Result SdkError A × Clocked)
      → (followed (λ a. pure (f a)) p).1.time ≡ p.1.time
  followed-time f (ok a, w) = refl
  followed-time f (err e, w) = refl

  ask-Advances : (item_id : Json) → Advances (ask s took client args item_id)
  ask-Advances item_id w =
      let request = run_sdk s took (get_item s client (formatted s client item_id)) in
      rw (followed-time (λ (i : CatalogItem). i.status) (call_with_backoff request w))
        (call_with_backoff-Advances request (λ v. omega arith) w)

  abbrev Settles : {A : Type 0} → Option A × Clocked → Type 0
  Settles {A} p = (a : A) × (p.0 ≡ some a)

  polled-Settles :
      (p : Result SdkError Json × Clocked)
      (again : Clocked → Option (Result SdkError Json) × Clocked)
      → Settles (again (sleep args.poll_interval p.1))
      → Settles (polled s took client args p again)
  polled-Settles (err e, w) again h = (err e, refl)
  polled-Settles (ok status, w) again h =
      elim (is_terminal status)
        as (λ t. Settles {A = Result SdkError Json} (elim t [
          | err e ↦ (some (err e), w)
          | ok true ↦ (some (ok status), w)
          | ok false ↦ again (sleep args.poll_interval w)
        ])) [ err e ↦ (err e, refl) | ok true ↦ (ok status, refl) | ok false ↦ h ]

  -- One round for each millisecond that is left is enough.
  poll-Settles :
      (fuel deadline : ℕ) (item_id : Json) (w : Clocked)
      → 1 ≤ args.poll_interval
      → 1 ≤ fuel
      → deadline < w.time + fuel
      → Settles (poll s took client args fuel deadline item_id w)
  poll-Settles zero deadline item_id w h m k = let never : ⊥ = omega (arith, m) in elim never [ ]
  poll-Settles (suc fuel) deadline item_id w h m k = elim (Bool-cases (ltb w.time deadline)) [
    | inl e ↦
        let asked = ask s took client args item_id w in
        let later = ask-Advances item_id w in
        let before : w.time < deadline = ground arith in
        rw e (
          polled-Settles asked (poll s took client args fuel deadline item_id) (
            poll-Settles fuel deadline item_id (sleep args.poll_interval asked.1) h
              (omega (arith, before, k)) (omega (arith, later, h, k))))
    | inr e ↦ rw e (ok (str (codes "timeout")), refl)
  ]

  wait_until_indexed-Settles :
      (item_id : Json) (w : Clocked)
      → 1 ≤ args.poll_interval
      → Settles (wait_until_indexed s took client args item_id w)
  unfolding wait_until_indexed
  wait_until_indexed-Settles item_id w h =
      poll-Settles (suc args.poll_timeout) (w.time + args.poll_timeout) item_id w h (omega arith)
        (omega arith)

  -- The counts go up by so many images.
  abbrev CountsUp : ℕ → Counts → Option Counts × Clocked → Type 0
  CountsUp n c p = (c' : Counts) × (w' : Clocked) × (p ≡ (some c', w')) × (total c' ≡ total c + n)

  noted-CountsUp :
      (c : Counts) (p : Option (Result SdkError Json) × Clocked)
      → Settles p
      → CountsUp 1 c (noted s took client args c p)
  noted-CountsUp c (none, w) h = let (a, e) = h in let never : ⊥ = cc in elim never [ ]
  noted-CountsUp c (some (ok status), w) h =
      (tally status c, w, refl, omega (arith, total-tally status c))
  noted-CountsUp c (some (err e), w) h = (count_failure c, w, refl, omega arith)

  followed_up-CountsUp :
      (c : Counts) (p : Result SdkError CatalogItem × Clocked)
      → 1 ≤ args.poll_interval
      → CountsUp 1 c (followed_up s took client args c p)
  followed_up-CountsUp c (ok item, w) h =
      noted-CountsUp c (wait_until_indexed s took client args item.id w)
        (wait_until_indexed-Settles item.id w h)
  followed_up-CountsUp c (err e, w) h = (count_failure c, w, refl, omega arith)

  upload_one-CountsUp :
      (image : Text × Text) (c : Counts) (w : Clocked)
      → 1 ≤ args.poll_interval
      → CountsUp 1 c (upload_one s took client args image c w)
  unfolding upload_one
  upload_one-CountsUp image c w = followed_up-CountsUp c _

  upload_all-CountsUp :
      (images : List (Text × Text)) (c : Counts) (w : Clocked)
      → 1 ≤ args.poll_interval
      → CountsUp (length images) c (upload_all s took client args images (some c, w))
  upload_all-CountsUp [] c w h = (c, w, refl, omega arith)
  upload_all-CountsUp (i ∷ is) c w h =
      let (c', w', e, k) = upload_one-CountsUp i c w h in
      let (d, v, e', k') = upload_all-CountsUp is c' w' h in
      (d, v, ap (upload_all s took client args is) e ∙ e', omega (arith, k, k'))

module _ (s : Surroundings) (took : Calls → ℕ) where
  -- What an upload of so many images comes to: every image is counted as indexed, as a duplicate or as
  -- failed.
  abbrev pub CountsAll : ℕ → Option Upload × Clocked → Type 0
  CountsAll n p = (c : Counts) × (w : Clocked) × (p ≡ (some (finished c), w)) × (total c ≡ n)

  -- With a key, a poll interval of at least a millisecond and an image to upload, the run ends, and it
  -- counts every image of the folder up to the limit exactly once, whatever the services answer.
  pub main-CountsAll :
      (args : UploadArgs) (entries : List Entry) (c : ℕ) (key : Text) (w : Clocked)
      → args.api_key ≡ some (c ∷ key)
      → args.dry_run ≡ false
      → 1 ≤ args.poll_interval
      → 1 ≤ length (limited args.limit (find_images entries))
      → CountsAll
          (length (limited args.limit (find_images entries)))
          (main s took args (some entries) w)
  unfolding main upload_one wait_until_indexed
  main-CountsAll args entries c key w keyed wet h some_images =
      let images = limited args.limit (find_images entries) in
      let client = new_client (c ∷ key) args.catalog_url args.query_url in
      let (counts, w', e, k) = upload_all-CountsUp s took client args images no_counts w h in
      let nonempty : (length images == 0) ≡ false = ground arith in
      rw nonempty (rw wet (rw keyed (counts, w', ap ended e, omega (arith, k))))
