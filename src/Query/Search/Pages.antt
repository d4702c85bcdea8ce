-- ===== src/Query/Search/Pages.antt =====
-- The page that SearchService._run (query_service/application/use_cases/search.py) cuts.
use cbir_engine.Base.{
  All, All-drop, All-map_of, All-take, Bool-cases, List, [], arith, drop, inl, inr, length,
  length-take, refl, true, ◌∷◌, ◌≡◌, ◌≤◌, ◌⊎◌,
}
use cbir_engine.Kernel.Floats.{Floats}
use cbir_engine.Query.Ports.{Engines, IndexHit, QueryCache, RankedResult, SearchParameters}
use cbir_engine.Query.Search.{Digests, page_of, ranked}

module _ (fl : Floats) (hash : Digests) (engines : Engines fl.F) (cache : QueryCache fl.F) where
  length-page_of :
      (p : SearchParameters fl.F) (hits : List (IndexHit fl.F))
      → length (page_of fl hash engines cache p hits) ≤ p.top_k
  unfolding page_of
  length-page_of p hits =
      omega (arith, length-take p.top_k (drop p.offset (ranked fl hash engines cache p hits)))

  -- A result is a hit of the index whose score is at least the minimum, with its score rounded.
  abbrev pub IsResultOf : fl.F → List (IndexHit fl.F) → RankedResult fl.F → Type 0
  IsResultOf least [] r = ⊥
  IsResultOf least (h ∷ hs) r =
      ((fl.le least h.score ≡ true)
        × (r ≡ record { item_id = h.item_id; score = fl.round_6 h.score; payload = h.payload }))
      ⊎ IsResultOf least hs r

  ranked-IsResultOf :
      (p : SearchParameters fl.F) (hits : List (IndexHit fl.F))
      → All (IsResultOf p.min_score hits) (ranked fl hash engines cache p hits)
  ranked-IsResultOf p [] = tt
  ranked-IsResultOf p (h ∷ hs) =
      let rest =
        All-map_of (IsResultOf p.min_score hs) (IsResultOf p.min_score (h ∷ hs))
          (ranked fl hash engines cache p hs) (λ a k. inr k) (ranked-IsResultOf p hs) in
      elim (Bool-cases (fl.le p.min_score h.score)) [
        | inl e ↦ rw e (inl (e, refl), rest)
        | inr e ↦ rw e rest
      ]

  -- A page holds at most `top_k` results, and each is a hit of the index whose score reaches the
  -- minimum.
  pub page_of-IsPage :
      (p : SearchParameters fl.F) (hits : List (IndexHit fl.F))
      → (length (page_of fl hash engines cache p hits) ≤ p.top_k)
        × All (IsResultOf p.min_score hits) (page_of fl hash engines cache p hits)
  unfolding page_of
  page_of-IsPage p hits = (
    length-page_of p hits,
    All-take (IsResultOf p.min_score hits) p.top_k _
        (All-drop (IsResultOf p.min_score hits) p.offset _ (ranked-IsResultOf p hits)),
  )
