-- ===== src/Query/Witnesses.antt =====
-- A concrete search over two hits, and a cache that holds its entries in lists.
use cbir_engine.Base.{
  All, Bool, List, Option, Result, Text, [], codes, false, length, none, ok, pos, refl, some,
  text_eq, true, ℕ, ◌∷◌, ◌≡◌, ◌≤◌,
}
use cbir_engine.Kernel.Json.{Dict, str}
use cbir_engine.Kernel.Witnesses.{counting}
use cbir_engine.Query.Ports.{
  Engines, IndexHit, QueryCache, QueryError, RankedResult, SearchParameters, search_parameters,
}
use cbir_engine.Query.Ports.Validation.{IsValidated, search_parameters-IsValidated}
use cbir_engine.Query.Search.{
  Digests, apply_rerank, by_text, cached_text_embed, page_of, run, run_uncached,
}
use cbir_engine.Query.Search.Caching.{IsStore, by_text-Cached}
use cbir_engine.Query.Search.Pages.{IsResultOf, page_of-IsPage}
use cbir_engine.Query.Search.Reranked.{IsFrom, page_of-apply_rerank}

abbrev one_hit : Text → List ℕ → ℕ → Option Dict → Bool → Result QueryError (List (IndexHit ℕ))
one_hit tenant query size filters with_vectors =
    ok (record { item_id = codes "a"; score = 1; payload = []; vector = none } ∷ [])

abbrev engines : Engines ℕ
engines = record {
  embed_image = λ image. ok (1 ∷ []);
  embed_text = λ text. ok (2 ∷ []);
  search = one_hit;
  rerank = none;
}

abbrev digests : Digests
digests = record { sha256 = λ b. b; sha256_text = λ t. t; sha256_json = λ j. codes "key" }

-- One entry for results, which every write replaces.
abbrev one_entry : QueryCache ℕ
one_entry = record {
  State = Option (List (RankedResult ℕ));
  index_version = λ t s. codes "0";
  get_results = λ k s. s;
  set_results = λ k rs ttl s. some rs;
  get_embedding = λ k s. none;
  set_embedding = λ k v ttl s. s;
}

one_entry-IsStore : IsStore counting digests engines one_entry
one_entry-IsStore = record {
  get_set = λ k rs ttl s. refl;
  results_version = λ t k rs ttl s named. refl;
  embedding_version = λ t k v ttl s named. refl;
}

abbrev parameters : SearchParameters ℕ
parameters = record { top_k = 5; offset = 0; min_score = 0; filters = [] }

abbrev outcome : List (RankedResult ℕ)
outcome = record { item_id = codes "a"; score = 1; payload = [] } ∷ []

by_text-Cached_example :
    by_text counting digests engines one_entry
      (codes "t")
      (codes "shoe")
      parameters
      false
      (some outcome)
    ≡ (ok (record { results = outcome; cached = true; reranked = false }), some outcome)
unfolding by_text run run_uncached cached_text_embed page_of
by_text-Cached_example =
    by_text-Cached counting digests engines one_entry one_entry-IsStore (codes "t") (codes "shoe")
      parameters false none (some outcome)
      (record { results = outcome; cached = false; reranked = false }) refl refl

page_of-IsPage_example :
    (length (
        page_of counting digests engines one_entry parameters
          (record { item_id = codes "a"; score = 1; payload = []; vector = none } ∷ []))
      ≤ 5)
    × All
        (IsResultOf counting digests engines one_entry 0
          (record { item_id = codes "a"; score = 1; payload = []; vector = none } ∷ []))
        (page_of counting digests engines one_entry parameters
          (record { item_id = codes "a"; score = 1; payload = []; vector = none } ∷ []))
page_of-IsPage_example =
    page_of-IsPage counting digests engines one_entry parameters
      (record { item_id = codes "a"; score = 1; payload = []; vector = none } ∷ [])

search_parameters-IsValidated_example :
    IsValidated counting
      (pos 10)
      (pos 0)
      0
      (("color", str (codes "red")) ∷ [])
      (search_parameters counting (pos 10) (pos 0) 0 (("color", str (codes "red")) ∷ []))
search_parameters-IsValidated_example =
    search_parameters-IsValidated counting (pos 10) (pos 0) 0 (("color", str (codes "red")) ∷ [])

-- A reranker that also returns an id that it made up.
abbrev inventive : Engines ℕ
inventive = record engines {
  rerank = some (λ query cs modifier k. ok ((codes "ghost", 9) ∷ (codes "a", 7) ∷ []));
}

abbrev found : List (IndexHit ℕ)
found = record { item_id = codes "a"; score = 1; payload = []; vector = none } ∷ []

abbrev reranked_hits : List (IndexHit ℕ)
reranked_hits = record { item_id = codes "a"; score = 7; payload = []; vector = none } ∷ []

page_of-apply_rerank_example :
    (length (page_of counting digests inventive one_entry parameters reranked_hits) ≤ 5)
    × All
        (λ (r : RankedResult ℕ).
          IsFrom counting digests inventive one_entry found r.item_id r.payload)
        (page_of counting digests inventive one_entry parameters reranked_hits)
unfolding apply_rerank codes text_eq
page_of-apply_rerank_example =
    page_of-apply_rerank counting digests inventive one_entry parameters [] none found reranked_hits
      refl
