-- ===== src/Vectors/Memory/Search.antt =====
-- InMemoryVectorStore.search (cbir_common/vectordb): the hits, their order and their number.
use cbir_engine.Base.{
  All, All-map_of, All-take, Bool, Bool-cases, List, Text, [], arith, inl, inr, length, length-take,
  or_else, refl, true, ℕ, ◌∷◌, ◌≡◌, ◌≤◌, ◌⊎◌,
}
use cbir_engine.Kernel.Floats.{Floats, Ordered, sort_desc}
use cbir_engine.Kernel.Floats.Sorting.{
  IsFalling, sort_desc-All, sort_desc-IsFalling, take-IsFalling,
}
use cbir_engine.Kernel.Json.{Dict, Json}
use cbir_engine.Vectors.Memory.{Records, Store, collection, cosine, hits_of, matches, search}
use cbir_engine.Vectors.Port.{SearchHit, VectorRecord, collection_name}

module _ (fl : Floats) (json_eq : Json → Json → Bool) where
  -- A hit reports a record of the collection: its id, its payload and its score.
  abbrev pub Reports : List fl.F → Dict → Records fl json_eq → SearchHit fl.F → Type 0
  Reports vector filters [] h = ⊥
  Reports vector filters (r ∷ rs) h =
      ((matches fl json_eq r.payload filters ≡ true)
        × (h.id ≡ r.id)
        × (h.payload ≡ r.payload)
        × (h.score ≡ cosine fl json_eq vector r.vector))
      ⊎ Reports vector filters rs h

  Reports-tail :
      (vector : List fl.F) (filters : Dict) (r : VectorRecord fl.F) (rs : Records fl json_eq)
      (hs : List (SearchHit fl.F))
      → All (Reports vector filters rs) hs
      → All (Reports vector filters (r ∷ rs)) hs
  Reports-tail vector filters r rs hs h =
      All-map_of (Reports vector filters rs) (Reports vector filters (r ∷ rs)) hs (λ a k. inr k) h

  hits_of-Reports :
      (vector : List fl.F) (filters : Dict) (with_vectors : Bool) (rs : Records fl json_eq)
      → All (Reports vector filters rs) (hits_of fl json_eq vector filters with_vectors rs)
  hits_of-Reports vector filters with_vectors [] = tt
  hits_of-Reports vector filters with_vectors (r ∷ rs) =
      let rest =
        Reports-tail vector filters r rs (hits_of fl json_eq vector filters with_vectors rs)
          (hits_of-Reports vector filters with_vectors rs) in
      elim (Bool-cases (matches fl json_eq r.payload filters)) [
        | inl e ↦ rw e (inl (e, refl, refl, refl), rest)
        | inr e ↦ rw e rest
      ]

  abbrev pub tenant_records : Text → Store fl json_eq → Records fl json_eq
  tenant_records tenant s = or_else (collection fl json_eq (collection_name tenant) s) []

  -- When `<=` orders the scores, a search returns at most `limit` hits in falling order of their
  -- scores, and each reports a record of the tenant's own collection that matches the filters, with
  -- the cosine of the query and the record's vector.
  pub search-IsRanked :
      (ordered : Ordered fl) (tenant : Text) (vector : List fl.F) (limit : ℕ) (filters : Dict)
      (with_vectors : Bool) (s : Store fl json_eq)
      → let hits = search fl json_eq tenant vector limit filters with_vectors s in
        (length hits ≤ limit)
        × IsFalling fl (λ (h : SearchHit fl.F). h.score) hits
        × All (Reports vector filters (tenant_records tenant s)) hits
  unfolding search
  search-IsRanked ordered tenant vector limit filters with_vectors s =
      let score = λ (h : SearchHit fl.F). h.score in
      let found = hits_of fl json_eq vector filters with_vectors (tenant_records tenant s) in
      (
        omega (arith, length-take limit (sort_desc fl score found)),
        take-IsFalling fl score limit (sort_desc fl score found)
            (sort_desc-IsFalling fl score ordered found),
        All-take (Reports vector filters (tenant_records tenant s)) limit (sort_desc fl score found)
            (sort_desc-All fl score (Reports vector filters (tenant_records tenant s)) found
              (hits_of-Reports vector filters with_vectors (tenant_records tenant s))),
      )
