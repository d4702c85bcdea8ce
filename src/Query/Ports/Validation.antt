-- ===== src/Query/Ports/Validation.antt =====
-- SearchParameters (query_service/domain/value_objects) and its `__post_init__`.
use cbir_engine.Base.{
  Bool, Bool-cases, Result, arith, err, false, inl, inr, leb, leb_ℤ, ltb, negsuc, ok, pos, refl,
  true, ℕ, ℤ, ◌&&◌, ◌≡◌, ◌≤◌,
}
use cbir_engine.Kernel.Floats.{Floats}
use cbir_engine.Kernel.Json.{Dict}
use cbir_engine.Query.Ports.{QueryError, SearchParameters, search_parameters, value_error}

module _ (fl : Floats) where
  -- The ranges of the three numbers, in one test.
  abbrev pub is_in_range : ℤ → ℤ → fl.F → Bool
  is_in_range top_k offset min_score =
      (leb_ℤ (pos 1) top_k && leb_ℤ top_k (pos 100))
      && (leb_ℤ (pos 0) offset && (fl.le fl.zero min_score && fl.le min_score fl.one))

  abbrev pub IsValidated : ℤ → ℤ → fl.F → Dict → Result QueryError (SearchParameters fl.F) → Type 0
  IsValidated top_k offset min_score filters (ok p) =
      (top_k ≡ pos p.top_k)
      × (1 ≤ p.top_k)
      × (p.top_k ≤ 100)
      × (offset ≡ pos p.offset)
      × (p.min_score ≡ min_score)
      × (p.filters ≡ filters)
      × (fl.le fl.zero min_score ≡ true)
      × (fl.le min_score fl.one ≡ true)
  IsValidated top_k offset min_score filters (err e) =
      (e ≡ value_error) × (is_in_range top_k offset min_score ≡ false)

  and_parts : (a b : Bool) → (a && b) ≡ true → (a ≡ true) × (b ≡ true)
  and_parts a b h = ground arith

  and_false_left : (a b : Bool) → a ≡ false → (a && b) ≡ false
  and_false_left a b h = ground arith

  and_false_last : (a b c : Bool) → c ≡ false → (a && (b && c)) ≡ false
  and_false_last a b c h = ground arith

  in_bounds : (k : ℕ) → (leb 1 k && leb k 100) ≡ true → (1 ≤ k) × (k ≤ 100)
  in_bounds k h = ground arith

  not_negative : (o : ℕ) → ltb o 0 ≡ false
  not_negative o = ground arith

  -- The parameters that are accepted are those that were asked for, filters included, with
  -- 1 <= top_k <= 100, an offset that is not negative and a minimum score between zero and one; any
  -- others are refused with a ValueError.
  pub search_parameters-IsValidated :
      (top_k offset : ℤ) (min_score : fl.F) (filters : Dict)
      → IsValidated top_k offset min_score filters
          (search_parameters fl top_k offset min_score filters)
  unfolding search_parameters
  search_parameters-IsValidated (negsuc k) o m f = (refl, refl)
  search_parameters-IsValidated (pos k) (negsuc o) m f = elim (Bool-cases (leb 1 k && leb k 100)) [
    | inl e ↦ rw e (refl, and_false_last (leb 1 k && leb k 100) true false refl)
    | inr e ↦ rw e (refl, and_false_last (leb 1 k && leb k 100) true false refl)
  ]
  search_parameters-IsValidated (pos k) (pos o) m f = elim (Bool-cases (leb 1 k && leb k 100)) [
    | inr e ↦ rw e (refl, and_false_left (leb 1 k && leb k 100) _ e)
    | inl e ↦ elim (Bool-cases (fl.le fl.zero m && fl.le m fl.one)) [
      | inr r ↦
          rw e
            (rw (not_negative o) (rw r (refl, and_false_last (leb 1 k && leb k 100) (leb 0 o) _ r)))
      | inl r ↦
          let (low, high) = and_parts (fl.le fl.zero m) (fl.le m fl.one) r in
          let (least, most) = in_bounds k e in
          rw e (rw (not_negative o) (rw r (refl, least, most, refl, refl, refl, low, high)))
    ]
  ]
