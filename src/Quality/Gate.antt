-- ===== src/Quality/Gate.antt =====
-- infra/ci/quality-gates/retrieval_quality.py: the evaluation file and the verdict on it.
use cbir_engine.Base.{List, Option, String, Text, [], if◌then◌else◌, none, some, ℕ, ℤ, ◌++◌, ◌∷◌}
use cbir_engine.Kernel.Floats.{Floats}
use cbir_engine.Kernel.Json.{Items, Json, arr, cons, field_of, nil, obj, str}
use cbir_engine.Quality.Metrics.{IntMath, Metrics, QueryEval, evaluate, set_of}

-- What the evaluation file must hold; anything else has no list of queries.
abbrev also : {A : Type 0} → Option A → Option (List A) → Option (List A)
also (some a) (some xs) = some (a ∷ xs)
also _ _ = none

abbrev text_at : Option Json → Option Text
text_at (some (str s)) = some s
text_at _ = none

abbrev texts : Items → Option (List Text)
texts nil = some []
texts (cons v vs) = also (text_at (some v)) (texts vs)

abbrev text_list : Option Json → Option (List Text)
text_list (some (arr vs)) = texts vs
text_list _ = none

abbrev query_of : Option Text → Option (List Text) → Option (List Text) → Option QueryEval
query_of (some query) (some ranked) (some relevant) =
    some (record { query = query; ranked_ids = ranked; relevant_ids = set_of relevant })
query_of _ _ _ = none

abbrev pub load_query : Json → Option QueryEval
load_query (obj fs) =
    query_of (text_at (field_of "query" fs)) (text_list (field_of "ranked_ids" fs))
      (text_list (field_of "relevant_ids" fs))
load_query _ = none

abbrev pub load_queries : Items → Option (List QueryEval)
load_queries nil = some []
load_queries (cons v vs) = also (load_query v) (load_queries vs)

abbrev queries_at : Option Json → Option (List QueryEval)
queries_at (some (arr vs)) = load_queries vs
queries_at _ = none

-- load_offline; `none` for a file that is not of the documented shape
unfoldable pub load_offline : Option Json → Option (List QueryEval)
load_offline (some (obj fs)) = queries_at (field_of "queries" fs)
load_offline _ = none

pub record GateArgs (V : Type 0) : Type 0 where
  pub k : ℤ
  pub min_recall : V
  pub min_ndcg : V
  pub min_mrr : V

module _ (fl : Floats) (m : IntMath fl) where
  abbrev failure_of : String → fl.F → fl.F → List String
  failure_of name value least = if fl.le least value then [] else name ∷ []

  -- The metrics below their thresholds.
  unfoldable pub failures : GateArgs fl.F → Metrics fl.F → List String
  failures args metrics =
      failure_of "recall" metrics.recall args.min_recall
      ++ (failure_of "ndcg" metrics.ndcg args.min_ndcg ++ failure_of "mrr" metrics.mrr args.min_mrr)

  abbrev exit_code : List String → ℕ
  exit_code [] = 0
  exit_code (f ∷ fs) = 1

  abbrev verdict : GateArgs fl.F → Option (List QueryEval) → ℕ
  verdict args none = 1
  verdict args (some evals) = exit_code (failures args (evaluate fl m evals args.k))

  -- main, for the JSON of the evaluation file: the exit code
  unfoldable pub main : GateArgs fl.F → Option Json → ℕ
  main args file = verdict args (load_offline file)
