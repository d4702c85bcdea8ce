-- ===== src/Ai/Embeddings/Positions.antt =====
-- GenerateEmbeddings.execute: the positions of the images and the texts of a batch.
use cbir_engine.Ai.Embeddings.{EmbedInput, bytes_at, is_image, positions, text_at}
use cbir_engine.Base.{
  Bool, Bool-cases, List, [], ap, false, inl, inr, map, refl, suc, true, ℕ, ◌∷◌, ◌≡◌,
}

-- The indices of the tail of a list.
pub positions-suc :
    (wanted : Bool) (i : ℕ) (xs : List EmbedInput)
    → positions wanted (suc i) xs ≡ map suc (positions wanted i xs)
positions-suc wanted i [] = refl
positions-suc true i (x ∷ xs) = elim (Bool-cases (is_image x.modality)) [
  | inl e ↦ rw e (ap (◌∷◌ (suc i)) (positions-suc true (suc i) xs))
  | inr e ↦ rw e (positions-suc true (suc i) xs)
]
positions-suc false i (x ∷ xs) = elim (Bool-cases (is_image x.modality)) [
  | inl e ↦ rw e (positions-suc false (suc i) xs)
  | inr e ↦ rw e (ap (◌∷◌ (suc i)) (positions-suc false (suc i) xs))
]

pub map-bytes_at :
    (x : EmbedInput) (xs : List EmbedInput) (is : List ℕ)
    → map (bytes_at (x ∷ xs)) (map suc is) ≡ map (bytes_at xs) is
map-bytes_at x xs [] = refl
map-bytes_at x xs (i ∷ is) = ap (◌∷◌ (bytes_at xs i)) (map-bytes_at x xs is)

pub map-text_at :
    (x : EmbedInput) (xs : List EmbedInput) (is : List ℕ)
    → map (text_at (x ∷ xs)) (map suc is) ≡ map (text_at xs) is
map-text_at x xs [] = refl
map-text_at x xs (i ∷ is) = ap (◌∷◌ (text_at xs i)) (map-text_at x xs is)
