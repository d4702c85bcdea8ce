-- ===== src/Quality/Metrics.antt =====
-- infra/ci/quality-gates/retrieval_quality.py: the metrics of a labelled evaluation set.
pub mod Range
pub mod Bounds
use mathlib.Core.List.{foldl}
use cbir_engine.Base.{
  Bool, List, Text, [], any, false, if◌then◌else◌, length, ltb_ℤ, map, negsuc, pos, pos_part,
  select, slice_to, suc, text_eq, zero, ℕ, ℤ, ◌==◌, ◌∷◌,
}
use cbir_engine.Kernel.Floats.{Floats}

-- A Python set of texts is the list of its elements, each once.
abbrev pub TextSet : Type 0
TextSet = List Text

abbrev pub contains : List Text → Text → Bool
contains xs i = any (λ j. text_eq j i) xs

-- set(xs)
abbrev pub set_of : List Text → TextSet
set_of [] = []
set_of (x ∷ xs) = let rest = set_of xs in if contains rest x then rest else x ∷ rest

pub record QueryEval : Type 0 where
  pub query : Text
  pub ranked_ids : List Text
  pub relevant_ids : TextSet

-- Division and logarithm of integers, and an integer as an operand of a float.
pub record IntMath (fl : Floats) : Type 0 where
  pub of_int : ℤ → fl.F
  pub quotient : ℤ → ℤ → fl.F
  pub log2 : ℤ → fl.F

-- len(set(e.ranked_ids[:k]) & e.relevant_ids)
abbrev pub hits : QueryEval → ℤ → ℕ
hits e k = length (select (contains e.relevant_ids) (set_of (slice_to k e.ranked_ids)))

abbrev pub min_ℤ : ℤ → ℤ → ℤ
min_ℤ a b = if ltb_ℤ b a then b else a

pub record Metrics (V : Type 0) : Type 0 where
  pub recall : V
  pub precision : V
  pub mrr : V
  pub ndcg : V

module _ (fl : Floats) (m : IntMath fl) where
  unfoldable pub recall_at_k : QueryEval → ℤ → fl.F
  recall_at_k e k =
      if length e.relevant_ids == 0
      then fl.one
      else m.quotient (pos (hits e k)) (pos (length e.relevant_ids))

  abbrev is_zero : ℤ → Bool
  is_zero (pos n) = n == 0
  is_zero (negsuc n) = false

  unfoldable pub precision_at_k : QueryEval → ℤ → fl.F
  precision_at_k e k = if is_zero k then fl.zero else m.quotient (pos (hits e k)) k

  -- The loop of `reciprocal_rank`, from rank i on.
  abbrev pub rank_from : TextSet → ℕ → List Text → fl.F
  rank_from relevant i [] = fl.zero
  rank_from relevant i (x ∷ xs) =
      let rest = rank_from relevant (suc i) xs in
      if contains relevant x then fl.div fl.one (m.of_int (pos i)) else rest

  unfoldable pub reciprocal_rank : QueryEval → fl.F
  reciprocal_rank e = rank_from e.relevant_ids 1 e.ranked_ids

  abbrev discount : ℕ → fl.F
  discount i = fl.div fl.one (m.log2 (pos (suc i)))

  abbrev dcg_from : TextSet → ℕ → List Text → fl.F → fl.F
  dcg_from relevant i [] dcg = dcg
  dcg_from relevant i (x ∷ xs) dcg =
      dcg_from relevant (suc i) xs (if contains relevant x then fl.add dcg (discount i) else dcg)

  -- The sum of the discounts of n ranks, from rank i on.
  abbrev ideal_from : ℕ → ℕ → fl.F → fl.F
  ideal_from i zero acc = acc
  ideal_from i (suc n) acc = ideal_from (suc i) n (fl.add acc (discount i))

  unfoldable pub ndcg_at_k : QueryEval → ℤ → fl.F
  ndcg_at_k e k =
      let dcg = dcg_from e.relevant_ids 1 (slice_to k e.ranked_ids) fl.zero in
      let ideal_hits = min_ℤ (pos (length e.relevant_ids)) k in
      let idcg = ideal_from 1 (pos_part ideal_hits) fl.zero in
      if fl.le idcg fl.zero then fl.zero else fl.div dcg idcg

  -- sum(f(e) for e in evals) / n
  abbrev pub mean : (QueryEval → fl.F) → List QueryEval → fl.F
  mean f evals =
      fl.div (foldl fl.add fl.zero (map f evals))
        (m.of_int (pos (if length evals == 0 then 1 else length evals)))

  unfoldable pub evaluate : List QueryEval → ℤ → Metrics fl.F
  evaluate evals k = record {
    recall = mean (λ e. recall_at_k e k) evals;
    precision = mean (λ e. precision_at_k e k) evals;
    mrr = mean reciprocal_rank evals;
    ndcg = mean (λ e. ndcg_at_k e k) evals;
  }
