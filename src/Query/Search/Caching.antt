-- ===== src/Query/Search/Caching.antt =====
-- SearchService._run (query_service/application/use_cases/search.py), run twice over a cache.
use mathlib.Core.Path.{subst}
use cbir_engine.Base.{
  Bool, List, Option, Result, Text, ap, codes, err, false, if◌then◌else◌, lift, modify, none, ok,
  pure, refl, some, sym, true, ℕ, ◌++◌, ◌>>=◌, ◌>>◌, ◌∙◌, ◌≡◌,
}
use cbir_engine.Base.Effects.{followed}
use cbir_engine.Base.Strings.{starts_with}
use cbir_engine.Kernel.Floats.{Floats}
use cbir_engine.Query.Ports.{
  Engines, IndexHit, QueryCache, QueryError, RankedResult, SearchParameters, SearchResultsOutput,
}
use cbir_engine.Query.Search.{
  Action, Digests, apply_rerank, by_text, cached_text_embed, embed_cache_ttl, embed_from,
  fetch_size, opt_filters, page_of, reranks, result_cache_ttl, result_key, run, run_from,
  run_uncached,
}

-- The keys of stored results and of stored embeddings.
abbrev pub IsResultKey : Text → Type 0
IsResultKey key = starts_with key (codes "qs:results:") ≡ true

abbrev pub IsEmbeddingKey : Text → Type 0
IsEmbeddingKey key = starts_with key (codes "emb:") ≡ true

module _ (fl : Floats) (hash : Digests) (engines : Engines fl.F) (cache : QueryCache fl.F) where
  -- What a cache that works does: it returns the results that were stored under a key, and neither
  -- write, under a key of its kind, changes a tenant's index version.
  pub record IsStore : Type 0 where
    pub get_set :
        (key : Text) (rs : List (RankedResult fl.F)) (ttl : ℕ) (s : cache.State)
        → cache.get_results key (cache.set_results key rs ttl s) ≡ some rs
    pub results_version :
        (tenant key : Text) (rs : List (RankedResult fl.F)) (ttl : ℕ) (s : cache.State)
        → IsResultKey key
        → cache.index_version tenant (cache.set_results key rs ttl s) ≡ cache.index_version tenant s
    pub embedding_version :
        (tenant key : Text) (v : List fl.F) (ttl : ℕ) (s : cache.State)
        → IsEmbeddingKey key
        → cache.index_version tenant (cache.set_embedding key v ttl s)
          ≡ cache.index_version tenant s

  -- An action that leaves the tenant's index version as it is.
  abbrev pub KeepsVersion : {A : Type 0} → Text → Action fl hash engines cache A → Type 0
  KeepsVersion tenant m =
      (s : cache.State) → cache.index_version tenant (m s).1 ≡ cache.index_version tenant s

  -- A success is stored under the key, and the version is the one of before.
  abbrev IsStored :
      Text → Text → Text → Result QueryError (SearchResultsOutput fl.F) × cache.State → Type 0
  IsStored tenant version key (ok out, v) =
      (cache.get_results key v ≡ some out.results) × (cache.index_version tenant v ≡ version)
  IsStored tenant version key (err e, v) = Unit

  finish-IsStored :
      (store : IsStore) (tenant version key : Text) (k : IsResultKey key)
      (p : SearchParameters fl.F) (b : Bool) (hits : Result QueryError (List (IndexHit fl.F)))
      (s : cache.State)
      → cache.index_version tenant s ≡ version
      → IsStored tenant version key (
          followed
            (λ hits'. do
              modify (λ s.
                  cache.set_results key (page_of fl hash engines cache p hits') result_cache_ttl s)
              pure (record {
                results = page_of fl hash engines cache p hits';
                cached = false;
                reranked = b;
              }))
            (hits, s))
  finish-IsStored store tenant version key k p b (ok hits) s h = (
    store.get_set key _ result_cache_ttl s,
    store.results_version tenant key _ result_cache_ttl s k ∙ h,
  )
  finish-IsStored store tenant version key k p b (err e) s h = tt

  abbrev after_search :
      Text
      → List fl.F
      → SearchParameters fl.F
      → Bool
      → Option (List fl.F)
      → List (IndexHit fl.F)
      → Action fl hash engines cache (SearchResultsOutput fl.F)
  after_search key query p b modifier hits = do
    hits' ← lift (if b then apply_rerank fl hash engines cache query modifier hits else ok hits)
    modify (λ s. cache.set_results key (page_of fl hash engines cache p hits') result_cache_ttl s)
    pure (record { results = page_of fl hash engines cache p hits'; cached = false; reranked = b })

  search-IsStored :
      (store : IsStore) (tenant version key : Text) (k : IsResultKey key) (query : List fl.F)
      (p : SearchParameters fl.F) (b : Bool) (modifier : Option (List fl.F))
      (hits : Result QueryError (List (IndexHit fl.F))) (s : cache.State)
      → cache.index_version tenant s ≡ version
      → IsStored tenant version key (followed (after_search key query p b modifier) (hits, s))
  search-IsStored store tenant version key k query p b modifier (ok hits) s h =
      finish-IsStored store tenant version key k p b
        (if b then apply_rerank fl hash engines cache query modifier hits else ok hits) s h
  search-IsStored store tenant version key k query p b modifier (err e) s h = tt

  abbrev after_embed :
      Text
      → Text
      → SearchParameters fl.F
      → Bool
      → Option (List fl.F)
      → List fl.F
      → Action fl hash engines cache (SearchResultsOutput fl.F)
  after_embed tenant key p b modifier query =
      lift (
        engines.search tenant query (fetch_size fl hash engines cache p b)
          (opt_filters fl hash engines cache p.filters) b)
      >>= after_search key query p b modifier

  embed-IsStored :
      (store : IsStore) (tenant version key : Text) (k : IsResultKey key)
      (p : SearchParameters fl.F) (b : Bool) (modifier : Option (List fl.F))
      (r : Result QueryError (List fl.F) × cache.State)
      → cache.index_version tenant r.1 ≡ version
      → IsStored tenant version key (followed (after_embed tenant key p b modifier) r)
  embed-IsStored store tenant version key k p b modifier (ok query, s) h =
      search-IsStored store tenant version key k query p b modifier
        (engines.search tenant query (fetch_size fl hash engines cache p b)
          (opt_filters fl hash engines cache p.filters) b)
        s h
  embed-IsStored store tenant version key k p b modifier (err e, s) h = tt

  run_uncached-IsStored :
      (store : IsStore) (tenant key : Text) (k : IsResultKey key)
      (embed : Action fl hash engines cache (List fl.F)) (p : SearchParameters fl.F) (b : Bool)
      (modifier : Option (List fl.F)) (s : cache.State)
      → KeepsVersion tenant embed
      → IsStored tenant
          (cache.index_version tenant s)
          key
          (run_uncached fl hash engines cache tenant key embed p b modifier s)
  unfolding run_uncached
  run_uncached-IsStored store tenant key k embed p b modifier s keeps =
      embed-IsStored store tenant (cache.index_version tenant s) key k p b modifier (embed s)
        (keeps s)

  -- A run that misses the cache and succeeds is followed, in the state that it leaves, by a run
  -- that returns the same results from the cache and changes nothing: over a cache that works, for
  -- an embedding step that leaves the tenant's index version as it is.
  run-Cached :
      (store : IsStore) (tenant seed : Text) (embed : Action fl hash engines cache (List fl.F))
      (p : SearchParameters fl.F) (rerank : Bool) (modifier : Option (List fl.F))
      (s v : cache.State) (out : SearchResultsOutput fl.F)
      → KeepsVersion tenant embed
      → cache.get_results
          (result_key fl hash engines cache tenant seed p
            (reranks fl hash engines cache rerank modifier)
            s)
          s
        ≡ none
      → run fl hash engines cache tenant seed embed p rerank modifier s ≡ (ok out, v)
      → run fl hash engines cache tenant seed embed p rerank modifier v ≡ (
        ok (record {
          results = out.results;
          cached = true;
          reranked = reranks fl hash engines cache rerank modifier;
        }),
        v,
      )
  unfolding run result_key codes starts_with
  run-Cached store tenant seed embed p rerank modifier s v out keeps miss ran =
      let b = reranks fl hash engines cache rerank modifier in
      let key = result_key fl hash engines cache tenant seed p b s in
      let missed : run_uncached fl hash engines cache tenant key embed p b modifier s
          ≡ (ok out, v) =
        sym (
          ap
            (λ c.
              run_from fl hash engines cache b c
                (run_uncached fl hash engines cache tenant key embed p b modifier) s)
            miss)
        ∙ ran in
      let kept : IsStored tenant (cache.index_version tenant s) key (ok out, v) =
        subst (IsStored tenant (cache.index_version tenant s) key) missed
          (run_uncached-IsStored store tenant key refl embed p b modifier s keeps) in
      let found : cache.get_results (result_key fl hash engines cache tenant seed p b v) v
          ≡ some out.results =
        rw kept.1 kept.0 in
      ap
        (λ c.
          run_from fl hash engines cache b c
            (run_uncached fl hash engines cache tenant
              (result_key fl hash engines cache tenant seed p b v) embed p b modifier)
            v)
        found

  embed_from-KeepsVersion :
      (store : IsStore) (tenant key : Text) (k : IsEmbeddingKey key) (c : Option (List fl.F))
      (embed : Result QueryError (List fl.F))
      → KeepsVersion tenant (embed_from fl hash engines cache key c embed)
  embed_from-KeepsVersion store tenant key k (some v) embed s = refl
  embed_from-KeepsVersion store tenant key k none (ok v) s =
      store.embedding_version tenant key v embed_cache_ttl s k
  embed_from-KeepsVersion store tenant key k none (err e) s = refl

  -- A text search that misses the cache and succeeds is followed, in the state that it leaves, by a
  -- search with the same text and parameters that returns the same results from the cache and
  -- changes nothing, over a cache that works.
  pub by_text-Cached :
      (store : IsStore) (tenant text : Text) (p : SearchParameters fl.F) (rerank : Bool)
      (s v : cache.State) (out : SearchResultsOutput fl.F)
      → cache.get_results
          (result_key fl hash engines cache tenant
            (codes "txt:" ++ hash.sha256_text text)
            p
            (reranks fl hash engines cache rerank none)
            s)
          s
        ≡ none
      → by_text fl hash engines cache tenant text p rerank s ≡ (ok out, v)
      → by_text fl hash engines cache tenant text p rerank v ≡ (
        ok (record {
          results = out.results;
          cached = true;
          reranked = reranks fl hash engines cache rerank none;
        }),
        v,
      )
  unfolding by_text cached_text_embed codes starts_with
  by_text-Cached store tenant text p rerank s v out miss ran =
      run-Cached store tenant (codes "txt:" ++ hash.sha256_text text)
        (cached_text_embed fl hash engines cache text) p rerank none s v out
        (λ s'.
          embed_from-KeepsVersion store tenant (codes "emb:txt:" ++ hash.sha256_text text) refl
            (cache.get_embedding (codes "emb:txt:" ++ hash.sha256_text text) s')
            (engines.embed_text text) s')
        miss ran
