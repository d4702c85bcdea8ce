-- ===== src/Quality/Metrics/Bounds.antt =====
-- infra/ci/quality-gates/retrieval_quality.py: the number of hits, and the range of the metrics.
use cbir_engine.Base.{
  All, Bool, Bool-cases, List, Text, [], arith, false, if◌then◌else◌, inl, inr, length,
  length-select-le, length-take, or_false, pos, refl, select, slice_to, suc, take, text_eq,
  text_eq_iff, text_eq_refl, true, ℕ, ℤ, ◌∷◌, ◌≡◌, ◌≤◌,
}
use cbir_engine.Quality.Metrics.{QueryEval, contains, hits, set_of}

-- The elements of a list, each once.
abbrev pub IsDistinct : List Text → Type 0
IsDistinct [] = Unit
IsDistinct (x ∷ xs) = (contains xs x ≡ false) × IsDistinct xs

set_of-IsDistinct : (xs : List Text) → IsDistinct (set_of xs)
set_of-IsDistinct [] = tt
set_of-IsDistinct (x ∷ xs) = elim (Bool-cases (contains (set_of xs) x)) [
  | inl e ↦ rw e (set_of-IsDistinct xs)
  | inr e ↦ rw e (e, set_of-IsDistinct xs)
]

length-set_of-le : (xs : List Text) → length (set_of xs) ≤ length xs
length-set_of-le [] = omega arith
length-set_of-le (x ∷ xs) = ground (arith, length-set_of-le xs)

contains-select :
    (p : Text → Bool) (xs : List Text) (x : Text)
    → contains xs x ≡ false
    → contains (select p xs) x ≡ false
contains-select p [] x h = refl
contains-select p (y ∷ ys) x h = ground (arith, contains-select p ys x)

select-IsDistinct : (p : Text → Bool) (xs : List Text) → IsDistinct xs → IsDistinct (select p xs)
select-IsDistinct p [] h = tt
select-IsDistinct p (x ∷ xs) h = elim (Bool-cases (p x)) [
  | inl e ↦ rw e (contains-select p xs x h.0, select-IsDistinct p xs h.1)
  | inr e ↦ rw e (select-IsDistinct p xs h.1)
]

-- ys without the first x
abbrev remove : Text → List Text → List Text
remove x [] = []
remove x (y ∷ ys) = let rest = remove x ys in if text_eq y x then ys else y ∷ rest

length-remove :
    (x : Text) (ys : List Text) → contains ys x ≡ true → length ys ≡ suc (length (remove x ys))
length-remove x [] h = cc
length-remove x (y ∷ ys) h = ground (arith, length-remove x ys)

-- An element other than the one removed is still there.
contains-remove :
    (x z : Text) (ys : List Text)
    → text_eq x z ≡ false
    → contains ys z ≡ true
    → contains (remove x ys) z ≡ true
contains-remove x z [] apart h = cc
contains-remove x z (y ∷ ys) apart h = elim (Bool-cases (text_eq y x)) [
  | inl e ↦
      let missed : text_eq y z ≡ false = rw ((text_eq_iff y x).0 e) apart in rw e (ground arith)
  | inr e ↦ rw e (ground (arith, contains-remove x z ys))
]

text_eq-apart : (x z : Text) → text_eq z x ≡ false → text_eq x z ≡ false
text_eq-apart x z h = elim (Bool-cases (text_eq x z)) [
  | inl e ↦ let same : text_eq z x ≡ true = rw ((text_eq_iff x z).0 e) (text_eq_refl z) in cc
  | inr e ↦ e
]

-- Every element of the first list is in the second.
abbrev AllIn : List Text → List Text → Type 0
AllIn xs ys = All (λ z. contains ys z ≡ true) xs

remove-AllIn :
    (x : Text) (xs ys : List Text) → contains xs x ≡ false → AllIn xs ys → AllIn xs (remove x ys)
remove-AllIn x [] ys apart h = tt
remove-AllIn x (z ∷ zs) ys apart h =
    let both = or_false (text_eq z x) (contains zs x) apart in
    (contains-remove x z ys (text_eq-apart x z both.0) h.0, remove-AllIn x zs ys both.1 h.1)

-- Distinct elements of a list are no more than the list has.
length-AllIn-le : (xs ys : List Text) → IsDistinct xs → AllIn xs ys → length xs ≤ length ys
length-AllIn-le [] ys d h = omega arith
length-AllIn-le (x ∷ xs) ys d h = omega (
  arith,
  length-remove x ys h.0,
  length-AllIn-le xs (remove x ys) d.1 (remove-AllIn x xs ys d.0 h.1),
)

select-AllIn : (ys xs : List Text) → AllIn (select (contains ys) xs) ys
select-AllIn ys [] = tt
select-AllIn ys (x ∷ xs) = elim (Bool-cases (contains ys x)) [
  | inl e ↦ rw e (e, select-AllIn ys xs)
  | inr e ↦ rw e (select-AllIn ys xs)
]

pub hits-le-relevant : (e : QueryEval) (k : ℤ) → hits e k ≤ length e.relevant_ids
hits-le-relevant e k =
    let found = set_of (slice_to k e.ranked_ids) in
    length-AllIn-le (select (contains e.relevant_ids) found) e.relevant_ids
      (select-IsDistinct (contains e.relevant_ids) found
        (set_of-IsDistinct (slice_to k e.ranked_ids)))
      (select-AllIn e.relevant_ids found)

pub hits-le-pos : (e : QueryEval) (k : ℕ) → hits e (pos k) ≤ k
hits-le-pos e k =
    let found = take k e.ranked_ids in
    omega (
      arith,
      length-select-le (contains e.relevant_ids) (set_of found),
      length-set_of-le found,
      length-take k e.ranked_ids,
    )
