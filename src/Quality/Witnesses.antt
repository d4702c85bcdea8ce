-- ===== src/Quality/Witnesses.antt =====
-- A concrete evaluation set, with arithmetic on whole numbers.
use native.Mathlib.Nat.{div-le_of_le-mul}
use cbir_engine.Base.{List, [], arith, codes, pos, pos_part, refl, ℕ, ◌/◌, ◌∷◌, ◌≤◌}
use cbir_engine.Kernel.Witnesses.{counting}
use cbir_engine.Quality.Metrics.{IntMath, QueryEval, evaluate}
use cbir_engine.Quality.Metrics.Range.{InUnit, Rounding, evaluate-InUnit}

abbrev whole : IntMath counting
whole = record { of_int = pos_part; quotient = λ a b. pos_part a / pos_part b; log2 = pos_part }

share-InUnit : (a n : ℕ) → a ≤ n → InUnit counting whole (a / n)
share-InUnit a n h =
    let below : a / n ≤ 1 = div-le_of_le-mul n (omega (arith, h)) in
    (ground arith, ground (arith, below))

whole-Rounding : Rounding counting whole
whole-Rounding = record {
  unit = ((refl, refl), (refl, refl));
  le_trans = λ a b c h k. ground (arith, h, k);
  of_int_zero = refl;
  of_int_pos = λ n h. ground (arith, h);
  quotient_unit = λ a b h k. share-InUnit a b h;
  div_unit = λ a n h low high. share-InUnit a n (ground (arith, high));
  add_unit = λ a b n h low high in_unit. (ground arith, ground (arith, high, in_unit.1));
}

abbrev evals : List QueryEval
evals =
    record {
      query = codes "q";
      ranked_ids = codes "a" ∷ codes "b" ∷ codes "a" ∷ [];
      relevant_ids = codes "a" ∷ codes "c" ∷ [];
    }
    ∷ []

evaluate-InUnit_example :
    let metrics = evaluate counting whole evals (pos 2) in
    InUnit counting whole metrics.recall
    × InUnit counting whole metrics.precision
    × InUnit counting whole metrics.mrr
evaluate-InUnit_example = evaluate-InUnit counting whole whole-Rounding evals 2 (omega arith)
