-- ===== src/Scripts/Upload.antt =====
-- scripts/upload_caltech101.py: the upload of a labelled set of images through the SDK. Times are
-- milliseconds; how long a call takes is a parameter.
pub mod Accounting
use cbir_engine.Base.{
  Bool, Exec, List, Option, Result, Text, [], any, codes, err, false, if◌then◌else◌, length, ltb,
  map, none, not, ok, pure, select, slice_to, some, suc, text_eq, true, zero, ℕ, ℤ, ◌&&◌, ◌*◌, ◌+◌,
  ◌==◌, ◌>>=◌, ◌>>◌, ◌||◌, ◌∷◌,
}
use cbir_engine.Base.Strings.{lower}
use cbir_engine.Kernel.Json.{Json, arr, obj, str}
use cbir_engine.Sdk.Client.{
  Calls, CbirClient, Surroundings, failed, formatted, get_item, ingest_image, new_client,
}
use cbir_engine.Sdk.Models.{CatalogItem, SdkError, api_error, type_error}

-- What `rglob` finds, in the order of the paths.
pub record Entry : Type 0 where
  pub path : Text
  pub is_file : Bool
  pub suffix : Text
  pub parent_name : Text

abbrev image_extensions : List Text
image_extensions = codes ".jpg" ∷ codes ".jpeg" ∷ codes ".png" ∷ codes ".webp" ∷ []

abbrev is_image_file : Entry → Bool
is_image_file e =
    e.is_file
    && any (text_eq (lower e.suffix)) image_extensions
    && not (text_eq e.parent_name (codes "BACKGROUND_Google"))

-- find_images: the paths and their categories
unfoldable pub find_images : List Entry → List (Text × Text)
find_images entries = map (λ (e : Entry). (e.path, e.parent_name)) (select is_image_file entries)

pub record Clocked : Type 0 where
  pub calls : Calls
  pub time : ℕ

abbrev pub Run : Type 0 → Type 0
Run A = Exec Clocked SdkError A

-- time.sleep
abbrev pub sleep : ℕ → Clocked → Clocked
sleep ms w = record w { time = w.time + ms }

abbrev pub is_rate_limit : SdkError → Bool
is_rate_limit (api_error code d) = code == 429
is_rate_limit _ = false

-- call_with_backoff, from an attempt on with so many attempts left after it
abbrev pub retry :
    {A : Type 0} → Run A → ℕ → ℕ → Result SdkError A × Clocked → Result SdkError A × Clocked
retry action left attempt (ok a, w) = (ok a, w)
retry action zero attempt (err e, w) = (err e, w)
retry action (suc left) attempt (err e, w) =
    let again = retry action left (suc attempt) (action (sleep (2000 * suc attempt) w)) in
    if is_rate_limit e then again else (err e, w)

unfoldable pub call_with_backoff : {A : Type 0} → Run A → Run A
call_with_backoff action w = retry action 4 0 (action w)

-- status in TERMINAL_STATUSES; a list and a dict cannot be hashed
unfoldable pub is_terminal : Json → Result SdkError Bool
is_terminal (str t) =
    ok (text_eq t (codes "indexed") || text_eq t (codes "duplicate") || text_eq t (codes "failed"))
is_terminal (arr vs) = err type_error
is_terminal (obj fs) = err type_error
is_terminal _ = ok false

pub record Counts : Type 0 where
  pub uploaded : ℕ
  pub duplicates : ℕ
  pub failed : ℕ

abbrev pub count_failure : Counts → Counts
count_failure c = record c { failed = c.failed + 1 }

abbrev pub tally : Json → Counts → Counts
tally (str t) c =
    if text_eq t (codes "indexed")
    then record c { uploaded = c.uploaded + 1 }
    else if text_eq t (codes "duplicate")
    then record c { duplicates = c.duplicates + 1 }
    else count_failure c
tally _ c = count_failure c

pub record UploadArgs : Type 0 where
  pub limit : Option ℤ
  pub poll_interval : ℕ
  pub poll_timeout : ℕ
  pub dry_run : Bool
  pub api_key : Option Text
  pub catalog_url : Text
  pub query_url : Text

pub data Upload : Type 0 where
  -- sys.exit with a message
  exited : Upload
  -- the number of images of the plan
  planned : ℕ → Upload
  finished : Counts → Upload

abbrev pub limited : {A : Type 0} → Option ℤ → List A → List A
limited none xs = xs
limited (some n) xs = slice_to n xs

abbrev pub no_counts : Counts
no_counts = record { uploaded = 0; duplicates = 0; failed = 0 }

abbrev pub ended : Option Counts × Clocked → Option Upload × Clocked
ended (none, w) = (none, w)
ended (some c, w) = (some (finished c), w)

module _ (s : Surroundings) (took : Calls → ℕ) where
  abbrev pub run_sdk : {A : Type 0} → Exec Calls SdkError A → Run A
  run_sdk m w =
      let (r, calls') = m w.calls in (r, record { calls = calls'; time = w.time + took calls' })

  module _ (client : CbirClient) (args : UploadArgs) where
    -- One request for the status of an item.
    abbrev pub ask : Json → Run Json
    ask item_id = do
      item ← call_with_backoff (run_sdk (get_item s client (formatted s client item_id)))
      pure item.status

    -- What a poll comes to: an exception, a final status, or one more round.
    abbrev pub polled :
        Result SdkError Json × Clocked
        → (Clocked → Option (Result SdkError Json) × Clocked)
        → Option (Result SdkError Json) × Clocked
    polled (err e, w) again = (some (err e), w)
    polled (ok status, w) again = elim (is_terminal status) [
      | err e ↦ (some (err e), w)
      | ok true ↦ (some (ok status), w)
      | ok false ↦ again (sleep args.poll_interval w)
    ]

    -- The loop of `wait_until_indexed`, by so many rounds at most; `none` when they do not suffice.
    abbrev pub poll : ℕ → ℕ → Json → Clocked → Option (Result SdkError Json) × Clocked
    poll zero deadline item_id w = (none, w)
    poll (suc fuel) deadline item_id w =
        let round = polled (ask item_id w) (poll fuel deadline item_id) in
        if ltb w.time deadline then round else (some (ok (str (codes "timeout"))), w)

    unfoldable pub wait_until_indexed : Json → Clocked → Option (Result SdkError Json) × Clocked
    wait_until_indexed item_id w =
        poll (suc args.poll_timeout) (w.time + args.poll_timeout) item_id w

    abbrev pub noted : Counts → Option (Result SdkError Json) × Clocked → Option Counts × Clocked
    noted c (none, w) = (none, w)
    noted c (some (ok status), w) = (some (tally status c), w)
    noted c (some (err e), w) = (some (count_failure c), w)

    abbrev pub followed_up :
        Counts → Result SdkError CatalogItem × Clocked → Option Counts × Clocked
    followed_up c (ok item, w) = noted c (wait_until_indexed item.id w)
    followed_up c (err e, w) = (some (count_failure c), w)

    -- One round of the loop of `main`.
    unfoldable pub upload_one : Text × Text → Counts → Clocked → Option Counts × Clocked
    upload_one image c w = followed_up c (
        call_with_backoff
          (run_sdk (ingest_image s client image.0 (some (("category", str image.1) ∷ [])) none)) w)

    abbrev pub upload_all : List (Text × Text) → Option Counts × Clocked → Option Counts × Clocked
    upload_all images (none, w) = (none, w)
    upload_all [] (some c, w) = (some c, w)
    upload_all (i ∷ is) (some c, w) = upload_all is (upload_one i c w)

  abbrev upload_with :
      UploadArgs → List (Text × Text) → Option Text → Clocked → Option Upload × Clocked
  upload_with args images none w = (some exited, w)
  upload_with args images (some []) w = (some exited, w)
  upload_with args images (some (c ∷ key)) w = ended (
      upload_all (new_client (c ∷ key) args.catalog_url args.query_url) args images
        (some no_counts, w))

  -- main, on the entries of the dataset's folder, `none` when it is no folder
  unfoldable pub main : UploadArgs → Option (List Entry) → Clocked → Option Upload × Clocked
  main args none w = (some exited, w)
  main args (some entries) w =
      let images = limited args.limit (find_images entries) in
      let uploading = upload_with args images args.api_key w in
      if length images == 0
      then (some exited, w)
      else if args.dry_run
      then (some (planned (length images)), w)
      else uploading
