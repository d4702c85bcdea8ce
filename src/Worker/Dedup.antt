-- ===== src/Worker/Dedup.antt =====
-- ingestion_worker/dedup.py: the Hamming distance of two perceptual hashes, and the closest item.
pub mod Closest
use Prim.Native.Nat.{bit_xor}
use cbir_engine.Base.{
  List, Option, Text, [], if◌then◌else◌, is_blank, leb, ltb, none, some, suc, zero, ℕ, ◌%◌, ◌&&◌,
  ◌+◌, ◌/◌, ◌==◌, ◌∷◌,
}
use cbir_engine.Kernel.Uuid.{int_16}

abbrev ones_below : ℕ → ℕ → ℕ
ones_below zero n = 0
ones_below (suc fuel) n = let rest = ones_below fuel (n / 2) in if n == 0 then 0 else n % 2 + rest

-- bin(n).count("1")
unfoldable pub ones : ℕ → ℕ
ones n = ones_below n n

abbrev distance_of : Option ℕ → Option ℕ → Option ℕ
distance_of (some a) (some b) = some (ones (bit_xor a b))
distance_of _ _ = none

-- `none` stands for the ValueError of `int(s, 16)`.
unfoldable pub hamming_distance : Text → Text → Option ℕ
hamming_distance a b = distance_of (int_16 a) (int_16 b)

-- The loop of find_duplicate over (item_id, phash), with the best so far.
unfoldable pub closest : Text → ℕ → List (Text × Text) → Option Text → ℕ → Option (Option Text)
closest phash threshold [] best_id best = some best_id
closest phash threshold ((id, other) ∷ rest) best_id best =
    let skipped = closest phash threshold rest best_id best in
    let after_hit = λ (d : ℕ). closest phash threshold rest (some id) d in
    if is_blank other then skipped else elim (hamming_distance phash other) [
      | none ↦ none
      | some d ↦
          if leb d threshold && ltb d best
          then (if d == 0 then some (some id) else after_hit d)
          else skipped
    ]

-- The outer `none` stands for a ValueError.
unfoldable pub find_duplicate : Text → List (Text × Text) → ℕ → Option (Option Text)
unfolding closest
find_duplicate phash existing threshold = closest phash threshold existing none (threshold + 1)
