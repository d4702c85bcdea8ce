-- ===== src/Ai/Rerank.antt =====
-- ai_service/application/use_cases/reranking.py and infrastructure/reranking: the shortlist is
-- scored by a blend of cosines and sorted.
pub mod Shortlist
use cbir_engine.Ai.Embeddings.{AiError, empty_batch}
use cbir_engine.Base.{
  List, Option, Result, String, Text, [], err, if◌then◌else◌, map, none, ok, some, take, ℕ, ◌∷◌,
}
use cbir_engine.Kernel.Floats.{Floats, dot, feq, fmax, fmin, norm, sort_desc}

pub record RerankCandidate (V : Type 0) : Type 0 where
  pub id : Text
  pub vector : List V

pub record RerankInput (V : Type 0) : Type 0 where
  pub query_vector : List V
  pub candidates : List (RerankCandidate V)
  pub modifier_vector : Option (List V)
  pub modifier_weight : V
  pub top_k : Option ℕ

pub record RerankedItem (V : Type 0) : Type 0 where
  pub id : Text
  pub score : V

pub record RerankOutput (V : Type 0) : Type 0 where
  pub model_version : String
  pub items : List (RerankedItem V)

module _ (fl : Floats) where
  -- _unit
  unfoldable pub unit : List fl.F → List fl.F
  unit v = let n = norm fl v in if feq fl n fl.zero then v else map (λ x. fl.div x n) v

  abbrev pub clamp : fl.F → fl.F
  clamp w = fmin fl (fmax fl w fl.zero) fl.one

  abbrev pub blend : List fl.F → Option (List fl.F) → fl.F → List fl.F → fl.F
  blend query none weight cand = dot fl query cand
  blend query (some m) weight cand =
      fl.add (fl.mul (fl.sub fl.one (clamp weight)) (dot fl query cand))
        (fl.mul (clamp weight) (dot fl m cand))

  abbrev unit_opt : Option (List fl.F) → Option (List fl.F)
  unit_opt none = none
  unit_opt (some v) = some (unit v)

  -- CosineBlendReranker.score of one candidate
  unfoldable pub score_of : List fl.F → Option (List fl.F) → fl.F → List fl.F → fl.F
  score_of query modifier weight vec = blend (unit query) (unit_opt modifier) weight (unit vec)

  abbrev pub scored : RerankInput fl.F → List (RerankCandidate fl.F) → List (RerankedItem fl.F)
  scored d = map (λ (c : RerankCandidate fl.F). record {
    id = c.id;
    score = score_of d.query_vector d.modifier_vector d.modifier_weight c.vector;
  })

  abbrev pub cut : {A : Type 0} → Option ℕ → List A → List A
  cut none xs = xs
  cut (some k) xs = take k xs

  -- RerankShortlist.execute with the CosineBlendReranker
  unfoldable pub rerank_shortlist : RerankInput fl.F → Result AiError (RerankOutput fl.F)
  rerank_shortlist d = elim d.candidates [
    | [] ↦ err empty_batch
    | c ∷ cs ↦ ok (record {
      model_version = "local-cosine-rerank-v1";
      items = cut d.top_k (sort_desc fl (λ (r : RerankedItem fl.F). r.score) (scored d (c ∷ cs)));
    })
  ]
