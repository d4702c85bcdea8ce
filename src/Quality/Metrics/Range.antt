-- ===== src/Quality/Metrics/Range.antt =====
-- infra/ci/quality-gates/retrieval_quality.py: the metrics are shares.
use mathlib.Core.List.{foldl}
use cbir_engine.Base.{
  Bool-cases, List, Text, [], arith, false, inl, inr, length, map, pos, suc, sym, true, ℕ, ℤ, ◌+◌,
  ◌<◌, ◌==◌, ◌^◌, ◌∷◌, ◌≡◌, ◌≤◌,
}
use cbir_engine.Kernel.Floats.{Floats}
use cbir_engine.Quality.Metrics.{
  IntMath, QueryEval, TextSet, contains, evaluate, hits, mean, precision_at_k, rank_from,
  recall_at_k, reciprocal_rank,
}
use cbir_engine.Quality.Metrics.Bounds.{hits-le-pos, hits-le-relevant}

abbrev pub exact_limit : ℕ
exact_limit = 2 ^ 53

module _ (fl : Floats) (m : IntMath fl) where
  abbrev pub InUnit : fl.F → Type 0
  InUnit x = (fl.le fl.zero x ≡ true) × (fl.le x fl.one ≡ true)

  -- Correctly rounded arithmetic: it keeps every bound that is itself a float, and the integers below
  -- 2 ^ 53 are floats.
  pub record Rounding : Type 0 where
    pub unit : InUnit fl.zero × InUnit fl.one
    pub le_trans : (a b c : fl.F) → fl.le a b ≡ true → fl.le b c ≡ true → fl.le a c ≡ true
    pub of_int_zero : fl.le fl.zero (m.of_int (pos 0)) ≡ true
    pub of_int_pos : (n : ℕ) → 1 ≤ n → fl.le fl.one (m.of_int (pos n)) ≡ true
    pub quotient_unit : (a b : ℕ) → a ≤ b → 1 ≤ b → InUnit (m.quotient (pos a) (pos b))
    pub div_unit :
        (a : fl.F) (n : ℕ)
        → 1 ≤ n
        → fl.le fl.zero a ≡ true
        → fl.le a (m.of_int (pos n)) ≡ true
        → InUnit (fl.div a (m.of_int (pos n)))
    pub add_unit :
        (a b : fl.F) (n : ℕ)
        → n < exact_limit
        → fl.le fl.zero a ≡ true
        → fl.le a (m.of_int (pos n)) ≡ true
        → InUnit b
        → (fl.le fl.zero (fl.add a b) ≡ true) × (fl.le (fl.add a b) (m.of_int (pos (suc n))) ≡ true)

  module _ (laws : Rounding) where
    recall_at_k-InUnit : (e : QueryEval) (k : ℤ) → InUnit (recall_at_k fl m e k)
    unfolding recall_at_k
    recall_at_k-InUnit e k = elim (Bool-cases (length e.relevant_ids == 0)) [
      | inl h ↦ rw h laws.unit.1
      | inr h ↦ rw h (
          laws.quotient_unit (hits e k) (length e.relevant_ids) (hits-le-relevant e k)
            (ground arith))
    ]

    precision_at_k-InUnit : (e : QueryEval) (k : ℕ) → InUnit (precision_at_k fl m e (pos k))
    unfolding precision_at_k
    precision_at_k-InUnit e k = elim (Bool-cases (k == 0)) [
      | inl h ↦ rw h laws.unit.0
      | inr h ↦ rw h (laws.quotient_unit (hits e (pos k)) k (hits-le-pos e k) (ground arith))
    ]

    rank_from-InUnit :
        (relevant : TextSet) (i : ℕ) (xs : List Text)
        → 1 ≤ i
        → InUnit (rank_from fl m relevant i xs)
    rank_from-InUnit relevant i [] h = laws.unit.0
    rank_from-InUnit relevant i (x ∷ xs) h = elim (Bool-cases (contains relevant x)) [
      | inl e ↦ rw e (laws.div_unit fl.one i h laws.unit.1.0 (laws.of_int_pos i h))
      | inr e ↦ rw e (rank_from-InUnit relevant (suc i) xs (omega arith))
    ]

    reciprocal_rank-InUnit : (e : QueryEval) → InUnit (reciprocal_rank fl m e)
    unfolding reciprocal_rank
    reciprocal_rank-InUnit e = rank_from-InUnit e.relevant_ids 1 e.ranked_ids (omega arith)

    module _ (f : QueryEval → fl.F) (in_unit : (e : QueryEval) → InUnit (f e)) where
      -- The sum of n shares is at most n.
      foldl-le :
          (es : List QueryEval) (acc : fl.F) (i : ℕ)
          → i + length es ≤ exact_limit
          → fl.le fl.zero acc ≡ true
          → fl.le acc (m.of_int (pos i)) ≡ true
          → let s = foldl fl.add acc (map f es) in
            (fl.le fl.zero s ≡ true) × (fl.le s (m.of_int (pos (i + length es))) ≡ true)
      foldl-le [] acc i h low high = let same : i + 0 ≡ i = omega arith in (low, rw same high)
      foldl-le (e ∷ es) acc i h low high =
          let step = laws.add_unit acc (f e) i (omega (arith, h)) low high (in_unit e) in
          let same : i + suc (length es) ≡ suc i + length es = omega arith in
          rw same (foldl-le es (fl.add acc (f e)) (suc i) (omega (arith, h)) step.0 step.1)

      mean-InUnit : (es : List QueryEval) → length es ≤ exact_limit → InUnit (mean fl m f es)
      mean-InUnit [] h = laws.div_unit fl.zero 1 (omega arith) laws.unit.0.0 (
          laws.le_trans fl.zero fl.one (m.of_int (pos 1)) laws.unit.1.0
            (laws.of_int_pos 1 (omega arith)))
      mean-InUnit (e ∷ es) h =
          let total =
            foldl-le (e ∷ es) fl.zero 0 (omega (arith, h)) laws.unit.0.0 laws.of_int_zero in
          let same : 0 + length (e ∷ es) ≡ suc (length es) = omega arith in
          let counted : (suc (length es) == 0) ≡ false = ground arith in
          rw (counted, mean)
            (laws.div_unit (foldl fl.add fl.zero (map f (e ∷ es))) (suc (length es)) (omega arith)
              total.0 (rw (sym same) total.1))

    -- When arithmetic is correctly rounded and there are at most 2 ^ 53 queries, mean recall, mean
    -- precision and the mean reciprocal rank are between 0 and 1 for every k that is not negative.
    pub evaluate-InUnit :
        (evals : List QueryEval) (k : ℕ)
        → length evals ≤ exact_limit
        → let metrics = evaluate fl m evals (pos k) in
          InUnit metrics.recall × InUnit metrics.precision × InUnit metrics.mrr
    unfolding evaluate
    evaluate-InUnit evals k h = (
      mean-InUnit (λ e. recall_at_k fl m e (pos k)) (λ e. recall_at_k-InUnit e (pos k)) evals h,
      mean-InUnit (λ e. precision_at_k fl m e (pos k)) (λ e. precision_at_k-InUnit e k) evals h,
      mean-InUnit (reciprocal_rank fl m) reciprocal_rank-InUnit evals h,
    )
