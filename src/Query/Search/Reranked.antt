-- ===== src/Query/Search/Reranked.antt =====
-- SearchService._apply_rerank (query_service/application/use_cases/search.py), and the page that is
-- cut from its hits.
use mathlib.Core.Path.{subst}
use cbir_engine.Base.{
  All, All-map_of, Bool-cases, List, Option, Option-cases, Result, Text, [], ap, arith, err, inl,
  inr, length, none, ok, or_else, refl, some, text_eq, ◌∷◌, ◌≡◌, ◌≤◌, ◌⊎◌,
}
use cbir_engine.Kernel.Floats.{Floats}
use cbir_engine.Kernel.Json.{Dict}
use cbir_engine.Query.Ports.{
  Engines, IndexHit, QueryCache, QueryError, RankedResult, SearchParameters,
}
use cbir_engine.Query.Search.{Digests, apply_rerank, by_id, candidates, page_of, reorder}
use cbir_engine.Query.Search.Pages.{IsResultOf, page_of-IsPage}

module _ (fl : Floats) (hash : Digests) (engines : Engines fl.F) (cache : QueryCache fl.F) where
  -- One of the hits has the id and the payload.
  abbrev pub IsFrom : List (IndexHit fl.F) → Text → Dict → Type 0
  IsFrom [] id payload = ⊥
  IsFrom (h ∷ hs) id payload = ((id ≡ h.item_id) × (payload ≡ h.payload)) ⊎ IsFrom hs id payload

  abbrev AllFrom : List (IndexHit fl.F) → List (IndexHit fl.F) → Type 0
  AllFrom hits = All (λ (h : IndexHit fl.F). IsFrom hits h.item_id h.payload)

  by_id-IsFrom :
      (id : Text) (hits : List (IndexHit fl.F)) (h : IndexHit fl.F)
      → by_id fl hash engines cache id hits ≡ some h
      → IsFrom hits h.item_id h.payload
  by_id-IsFrom id [] h e = absurd cc
  by_id-IsFrom id (x ∷ xs) h e = elim (Option-cases (by_id fl hash engines cache id xs)) [
    | inr (y, f) ↦ inr (by_id-IsFrom id xs h (ground arith))
    | inl f ↦ elim (Bool-cases (text_eq x.item_id id)) [
      | inl g ↦
          let same : some h ≡ some x = ground arith in
          inl (ap (λ o. (or_else o x).item_id) same, ap (λ o. (or_else o x).payload) same)
      | inr g ↦ absurd (ground arith)
    ]
  ]

  reorder-AllFrom :
      (hits : List (IndexHit fl.F)) (order : List (Text × fl.F))
      → AllFrom hits (reorder fl hash engines cache hits order)
  reorder-AllFrom hits [] = tt
  reorder-AllFrom hits ((id, score) ∷ order) =
      elim (Option-cases (by_id fl hash engines cache id hits)) [
        | inl e ↦ rw (e, All) (reorder-AllFrom hits order)
        | inr (h, e) ↦ rw (e, All) (by_id-IsFrom id hits h e, reorder-AllFrom hits order)
      ]

  self-AllFrom : (hits : List (IndexHit fl.F)) → AllFrom hits hits
  self-AllFrom [] = tt
  self-AllFrom (h ∷ hs) = (
    inl (refl, refl),
    All-map_of (λ (x : IndexHit fl.F). IsFrom hs x.item_id x.payload)
        (λ (x : IndexHit fl.F). IsFrom (h ∷ hs) x.item_id x.payload) hs (λ x k. inr k)
        (self-AllFrom hs),
  )

  -- A success of an action that only succeeds with such hits.
  abbrev Succeeds : List (IndexHit fl.F) → Result QueryError (List (IndexHit fl.F)) → Type 0
  Succeeds hits (ok hits') = AllFrom hits hits'
  Succeeds hits (err e) = Unit

  apply_rerank-Succeeds :
      (query : List fl.F) (modifier : Option (List fl.F)) (hits : List (IndexHit fl.F))
      → Succeeds hits (apply_rerank fl hash engines cache query modifier hits)
  unfolding apply_rerank
  apply_rerank-Succeeds query modifier [] = tt
  apply_rerank-Succeeds query modifier (h ∷ hs) = by_reranker engines.rerank refl
    where
      by_order :
          (r : Result QueryError (List (Text × fl.F)))
          → Succeeds (h ∷ hs) (elim r [
            | ok order ↦ ok (reorder fl hash engines cache (h ∷ hs) order)
            | err e ↦ err e
          ])
      by_order (ok order) = reorder-AllFrom (h ∷ hs) order
      by_order (err e) = tt

      by_reranker :
          (c : _)
          → engines.rerank ≡ c
          → Succeeds (h ∷ hs) (apply_rerank fl hash engines cache query modifier (h ∷ hs))
      by_reranker none e = rw (e, apply_rerank) (self-AllFrom (h ∷ hs))
      by_reranker (some rerank) e =
          rw (e, apply_rerank)
            (by_order
              (rerank query (candidates fl hash engines cache (h ∷ hs)) modifier (length (h ∷ hs))))

  result-IsFrom :
      (least : fl.F) (hits hits' : List (IndexHit fl.F)) (r : RankedResult fl.F)
      → AllFrom hits hits'
      → IsResultOf fl hash engines cache least hits' r
      → IsFrom hits r.item_id r.payload
  result-IsFrom least hits [] r h k = absurd k
  result-IsFrom least hits (x ∷ xs) r h (inl (reaches, e)) = rw e h.0
  result-IsFrom least hits (x ∷ xs) r h (inr k) = result-IsFrom least hits xs r h.1 k

  -- Whatever order and scores the reranker returns, ids included that it was not asked about, a page
  -- of reranked hits holds at most `top_k` results, and each has the id and the payload of one of the
  -- hits of the index.
  pub page_of-apply_rerank :
      (p : SearchParameters fl.F) (query : List fl.F) (modifier : Option (List fl.F))
      (hits hits' : List (IndexHit fl.F))
      → apply_rerank fl hash engines cache query modifier hits ≡ ok hits'
      → (length (page_of fl hash engines cache p hits') ≤ p.top_k)
        × All
            (λ (r : RankedResult fl.F). IsFrom hits r.item_id r.payload)
            (page_of fl hash engines cache p hits')
  page_of-apply_rerank p query modifier hits hits' e =
      let from : AllFrom hits hits' =
        subst (Succeeds hits) e (apply_rerank-Succeeds query modifier hits) in
      let (short, results) = page_of-IsPage fl hash engines cache p hits' in
      (
        short,
        All-map_of (IsResultOf fl hash engines cache p.min_score hits')
            (λ (r : RankedResult fl.F). IsFrom hits r.item_id r.payload)
            (page_of fl hash engines cache p hits')
            (λ r k. result-IsFrom p.min_score hits hits' r from k) results,
      )
