-- ===== src/Worker/Dedup/Closest.antt =====
-- find_duplicate (ingestion_worker/dedup.py) against a description of the closest entry.
use cbir_engine.Base.{
  All, Bool-cases, List, Option, Text, [], ap, arith, false, if◌then◌else◌, inl, inr, is_blank, leb,
  ltb, min, none, refl, some, suc, true, ℕ, ◌&&◌, ◌+◌, ◌<◌, ◌==◌, ◌∷◌, ◌≡◌, ◌≤◌, ◌⊎◌,
}
use cbir_engine.Worker.Dedup.{closest, find_duplicate, hamming_distance}

-- The distance of an entry that takes part: one without a hash is passed over.
abbrev pub distance_to : Text → Text × Text → Option ℕ
distance_to phash (id, other) = if is_blank other then none else hamming_distance phash other

abbrev pub IsAtLeast : ℕ → Option ℕ → Type 0
IsAtLeast d none = Unit
IsAtLeast d (some n) = d ≤ n

-- No entry that takes part is closer than d.
abbrev pub NoneCloser : Text → ℕ → List (Text × Text) → Type 0
NoneCloser phash d = All (λ e. IsAtLeast d (distance_to phash e))

-- Some entry has that id and that distance.
abbrev pub HasEntry : Text → Text → ℕ → List (Text × Text) → Type 0
HasEntry phash id n [] = ⊥
HasEntry phash id n (e ∷ es) =
    ((e.0 ≡ id) × (distance_to phash e ≡ some n)) ⊎ HasEntry phash id n es

-- Both hashes of every comparison are hexadecimal numbers.
abbrev pub AllReadable : Text → List (Text × Text) → Type 0
AllReadable phash = All (λ e.
    (is_blank e.1 ≡ true)
    ⊎ ((is_blank e.1 ≡ false) × ((n : ℕ) × (hamming_distance phash e.1 ≡ some n))))

-- What a search below `best` comes to, from the id that held `best` before.
abbrev Reaches : Text → ℕ → List (Text × Text) → Option Text → ℕ → Option Text → Type 0
Reaches phash threshold es best_id best r =
    ((r ≡ best_id) × NoneCloser phash (min best (suc threshold)) es)
    ⊎ ((id : Text) × (n : ℕ) × (r ≡ some id)
        × HasEntry phash id n es
        × (n ≤ threshold)
        × (n < best)
        × NoneCloser phash n es)

IsAtLeast-zero : (o : Option ℕ) → IsAtLeast 0 o
IsAtLeast-zero none = tt
IsAtLeast-zero (some n) = omega arith

NoneCloser-zero : (phash : Text) (es : List (Text × Text)) → NoneCloser phash 0 es
NoneCloser-zero phash [] = tt
NoneCloser-zero phash (e ∷ es) = (IsAtLeast-zero (distance_to phash e), NoneCloser-zero phash es)

IsAtLeast-le : (a b : ℕ) (o : Option ℕ) → a ≤ b → IsAtLeast b o → IsAtLeast a o
IsAtLeast-le a b none h k = tt
IsAtLeast-le a b (some n) h k = omega arith

NoneCloser-le :
    (phash : Text) (a b : ℕ) (es : List (Text × Text))
    → a ≤ b
    → NoneCloser phash b es
    → NoneCloser phash a es
NoneCloser-le phash a b [] h k = tt
NoneCloser-le phash a b (e ∷ es) h k =
    (IsAtLeast-le a b (distance_to phash e) h k.0, NoneCloser-le phash a b es h k.1)

-- An entry that does not improve on the best is passed over.
skip_entry :
    (phash : Text) (threshold : ℕ) (e : Text × Text) (es : List (Text × Text)) (b : Option Text)
    (best : ℕ) (r : Option Text)
    → IsAtLeast (min best (suc threshold)) (distance_to phash e)
    → Reaches phash threshold es b best r
    → Reaches phash threshold (e ∷ es) b best r
skip_entry phash threshold e es b best r h (inl (same, far)) = inl (same, (h, far))
skip_entry phash threshold e es b best r h (inr (id, n, eq, has, le, lt, far)) = inr (
  id,
  n,
  eq,
  inr has,
  le,
  lt,
  (IsAtLeast-le n (min best (suc threshold)) (distance_to phash e) (omega arith) h, far),
)

-- An entry that improves on the best becomes the best.
take_entry :
    (phash : Text) (threshold : ℕ) (e : Text × Text) (es : List (Text × Text)) (b : Option Text)
    (best d : ℕ) (r : Option Text)
    → distance_to phash e ≡ some d
    → d ≤ threshold
    → d < best
    → Reaches phash threshold es (some e.0) d r
    → Reaches phash threshold (e ∷ es) b best r
take_entry phash threshold e es b best d r h le lt (inl (same, far)) = inr (
  e.0,
  d,
  same,
  inl (refl, h),
  le,
  lt,
  (rw h (omega arith), NoneCloser-le phash d (min d (suc threshold)) es (omega arith) far),
)
take_entry phash threshold e es b best d r h le lt (inr (id, n, eq, has, le', lt', far)) =
    inr (id, n, eq, inr has, le', omega arith, (rw h (omega arith), far))

closest-Reaches :
    (phash : Text) (threshold : ℕ) (es : List (Text × Text)) (b : Option Text) (best : ℕ)
    → AllReadable phash es
    → (r : Option Text) × (closest phash threshold es b best ≡ some r)
      × Reaches phash threshold es b best r
unfolding closest
closest-Reaches phash threshold [] b best h = (b, refl, inl (refl, tt))
closest-Reaches phash threshold (e ∷ es) b best (inl blank, h) =
    let (r, eq, reach) = closest-Reaches phash threshold es b best h in
    (r, rw blank eq, skip_entry phash threshold e es b best r (rw blank tt) reach)
closest-Reaches phash threshold (e ∷ es) b best (inr (full, (d, dist)), h) =
    elim (Bool-cases (leb d threshold && ltb d best)) [
      | inr worse ↦
          let (r, eq, reach) = closest-Reaches phash threshold es b best h in
          (
            r,
            rw full (rw dist (rw worse eq)),
            skip_entry phash threshold e es b best r (rw full (rw dist (ground arith))) reach,
          )
      | inl closer ↦ elim (Bool-cases (d == 0)) [
        | inl zero_d ↦ (
          some e.0,
          rw full (rw dist (rw closer (rw zero_d refl))),
          inr (
            e.0,
            0,
            refl,
            inl (refl, rw full (rw dist (ap some (ground arith)))),
            omega arith,
            ground arith,
            (IsAtLeast-zero _, NoneCloser-zero phash es),
          ),
        )
        | inr pos_d ↦
            let (r, eq, reach) = closest-Reaches phash threshold es (some e.0) d h in
            (
              r,
              rw full (rw dist (rw closer (rw pos_d eq))),
              take_entry phash threshold e es b best d r (rw full dist) (ground arith)
                  (ground arith) reach,
            )
      ]
    ]

-- The item that find_duplicate names, and what that says of all the entries.
abbrev pub IsClosest : Text → ℕ → List (Text × Text) → Option Text → Type 0
IsClosest phash threshold es none = NoneCloser phash (suc threshold) es
IsClosest phash threshold es (some id) =
    (n : ℕ) × HasEntry phash id n es × (n ≤ threshold) × NoneCloser phash n es

reached :
    (phash : Text) (threshold : ℕ) (es : List (Text × Text)) (r : Option Text)
    → Reaches phash threshold es none (threshold + 1) r
    → IsClosest phash threshold es r
reached phash threshold es r (inl (same, far)) =
    rw same (
      NoneCloser-le phash (suc threshold) (min (threshold + 1) (suc threshold)) es (omega arith)
        far)
reached phash threshold es r (inr (id, n, eq, has, le, lt, far)) = rw eq (n, has, le, far)

-- On hashes that are all hexadecimal, find_duplicate returns: either no id, and then every entry
-- with a hash is further than the threshold, or the id of an entry within the threshold that no
-- other entry with a hash is closer than.
pub find_duplicate-IsClosest :
    (phash : Text) (existing : List (Text × Text)) (threshold : ℕ)
    → AllReadable phash existing
    → (r : Option Text) × (find_duplicate phash existing threshold ≡ some r)
      × IsClosest phash threshold existing r
unfolding find_duplicate
find_duplicate-IsClosest phash existing threshold h =
    let (r, eq, reach) = closest-Reaches phash threshold existing none (threshold + 1) h in
    (r, eq, reached phash threshold existing r reach)
