-- ===== src/Kernel/Floats/Sorting.antt =====
-- The order, the elements and the length of what `sort_desc` returns.
use mathlib.Core.List.{Permᴰ}
use mathlib.Core.List.Permᴰ
use cbir_engine.Base.{
  All, All-drop, All-take, Bool-cases, List, [], ap, arith, drop, false, inl, inr, length, refl,
  suc, take, true, zero, ℕ, ◌∙◌, ◌∷◌, ◌≡◌,
}
use cbir_engine.Kernel.Floats.{Floats, Ordered, place, sort_desc}

module _ (fl : Floats) {A : Type 0} (score : A → fl.F) where
  -- No element of the list scores more than the bound.
  abbrev pub Below : A → List A → Type 0
  Below a = All (λ b. fl.le (score b) (score a) ≡ true)

  abbrev pub IsFalling : List A → Type 0
  IsFalling [] = Unit
  IsFalling (x ∷ xs) = Below x xs × IsFalling xs

  place-Below :
      (a x : A) (ys : List A)
      → fl.le (score x) (score a) ≡ true
      → Below a ys
      → Below a (place fl score x ys)
  place-Below a x [] h k = (h, tt)
  place-Below a x (y ∷ ys) h k = elim (Bool-cases (fl.le (score y) (score x))) [
    | inl e ↦ rw e (h, k)
    | inr e ↦ rw e (k.0, place-Below a x ys h k.1)
  ]

  Below-trans :
      (ordered : Ordered fl) (a b : A) (ys : List A)
      → fl.le (score b) (score a) ≡ true
      → Below b ys
      → Below a ys
  Below-trans ordered a b [] h k = tt
  Below-trans ordered a b (y ∷ ys) h k =
      (ordered.le_trans (score y) (score b) (score a) k.0 h, Below-trans ordered a b ys h k.1)

  above_of :
      (ordered : Ordered fl) (a b : A)
      → fl.le (score a) (score b) ≡ false
      → fl.le (score b) (score a) ≡ true
  above_of ordered a b h = elim (ordered.le_total (score b) (score a)) [ inl e ↦ e | inr e ↦ cc ]

  place-IsFalling :
      (ordered : Ordered fl) (x : A) (ys : List A) → IsFalling ys → IsFalling (place fl score x ys)
  place-IsFalling ordered x [] h = (tt, tt)
  place-IsFalling ordered x (y ∷ ys) h = elim (Bool-cases (fl.le (score y) (score x))) [
    | inl e ↦ rw e ((e, Below-trans ordered x y ys e h.0), h)
    | inr e ↦
        rw e (place-Below y x ys (above_of ordered y x e) h.0, place-IsFalling ordered x ys h.1)
  ]

  pub sort_desc-IsFalling : (ordered : Ordered fl) (xs : List A) → IsFalling (sort_desc fl score xs)
  unfolding sort_desc
  sort_desc-IsFalling ordered [] = tt
  sort_desc-IsFalling ordered (x ∷ xs) =
      place-IsFalling ordered x (sort_desc fl score xs) (sort_desc-IsFalling ordered xs)

  pub take-IsFalling : (n : ℕ) (xs : List A) → IsFalling xs → IsFalling (take n xs)
  take-IsFalling zero xs h = tt
  take-IsFalling (suc n) [] h = tt
  take-IsFalling (suc n) (x ∷ xs) h =
      (All-take (λ b. fl.le (score b) (score x) ≡ true) n xs h.0, take-IsFalling n xs h.1)

  place-All : (P : A → Type 0) (x : A) (ys : List A) → P x → All P ys → All P (place fl score x ys)
  place-All P x [] h k = (h, tt)
  place-All P x (y ∷ ys) h k = elim (Bool-cases (fl.le (score y) (score x))) [
    | inl e ↦ rw e (h, k)
    | inr e ↦ rw e (k.0, place-All P x ys h k.1)
  ]

  pub sort_desc-All : (P : A → Type 0) (xs : List A) → All P xs → All P (sort_desc fl score xs)
  unfolding sort_desc
  sort_desc-All P [] h = tt
  sort_desc-All P (x ∷ xs) h = place-All P x (sort_desc fl score xs) h.0 (sort_desc-All P xs h.1)

  length-place : (x : A) (ys : List A) → length (place fl score x ys) ≡ suc (length ys)
  length-place x [] = refl
  length-place x (y ∷ ys) = elim (Bool-cases (fl.le (score y) (score x))) [
    | inl e ↦ rw e refl
    | inr e ↦ rw e (omega (arith, length-place x ys))
  ]

  pub length-sort_desc : (xs : List A) → length (sort_desc fl score xs) ≡ length xs
  unfolding sort_desc
  length-sort_desc [] = refl
  length-sort_desc (x ∷ xs) = length-place x (sort_desc fl score xs) ∙ ap suc (length-sort_desc xs)

  place-Perm : (x : A) (ys : List A) → Permᴰ (place fl score x ys) (x ∷ ys)
  place-Perm x [] = Permᴰ.refl (x ∷ [])
  place-Perm x (y ∷ ys) = elim (Bool-cases (fl.le (score y) (score x))) [
    | inl e ↦ rw e (Permᴰ.refl (x ∷ y ∷ ys))
    | inr e ↦ rw e (Permᴰ.trans (Permᴰ.cons refl (place-Perm x ys)) (Permᴰ.swap refl refl))
  ]

  -- Sorting only reorders.
  pub sort_desc-Perm : (xs : List A) → Permᴰ (sort_desc fl score xs) xs
  unfolding sort_desc
  sort_desc-Perm [] = Permᴰ.nil
  sort_desc-Perm (x ∷ xs) =
      Permᴰ.trans (place-Perm x (sort_desc fl score xs)) (Permᴰ.cons refl (sort_desc-Perm xs))

  -- No element of the second list scores more than one of the first.
  abbrev pub Above : List A → List A → Type 0
  Above xs ys = All (λ x. Below x ys) xs

  Below-drop : (a : A) (n : ℕ) (xs : List A) → Below a xs → Below a (drop n xs)
  Below-drop a n xs h = All-drop (λ b. fl.le (score b) (score a) ≡ true) n xs h

  pub take-Above-drop : (n : ℕ) (xs : List A) → IsFalling xs → Above (take n xs) (drop n xs)
  take-Above-drop zero xs h = tt
  take-Above-drop (suc n) [] h = tt
  take-Above-drop (suc n) (x ∷ xs) h = (Below-drop x n xs h.0, take-Above-drop n xs h.1)
