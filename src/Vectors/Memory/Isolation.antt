-- ===== src/Vectors/Memory/Isolation.antt =====
-- InMemoryVectorStore (cbir_common/vectordb): writes of one tenant and searches of another.
use cbir_engine.Base.{
  Bool, Bool-cases, List, Text, [], ap, false, inl, inr, refl, some, text_apart, text_eq,
  text_eq_iff, true, ℕ, ◌<◌, ◌∷◌, ◌≡◌, ◌≢◌,
}
use cbir_engine.Kernel.Floats.{Floats}
use cbir_engine.Kernel.Json.{Dict, Json}
use cbir_engine.Kernel.Uuid.{Uuid, uuid_limit, uuid_str}
use cbir_engine.Vectors.Memory.{
  Records, Store, change, collection, ensure_collection, put_records, search, upsert,
}
use cbir_engine.Vectors.Port.{VectorRecord, VectorStore, collection_name}
use cbir_engine.Vectors.Port.Collections.{collection_name-Separates}
use cbir_engine.Vectors.Port.Contract.{IsIsolated}

module _ (fl : Floats) (json_eq : Json → Json → Bool) where
  collection-change :
      (c d : Text) (f : Records fl json_eq → Records fl json_eq) (s : Store fl json_eq)
      → text_eq c d ≡ false
      → collection fl json_eq d (change fl json_eq c f s) ≡ collection fl json_eq d s
  collection-change c d f [] h = rw h refl
  collection-change c d f ((b, col) ∷ s) h = elim (Bool-cases (text_eq b c)) [
    | inl e ↦
        let same = (text_eq_iff b c).0 e in
        let apart : text_eq b d ≡ false = rw same h in rw e (rw apart refl)
    | inr e ↦ rw e (rw (collection-change c d f s h) refl)
  ]

  -- An upsert of one tenant changes no search of another tenant.
  pub search-upsert :
      (u v : Uuid) (rs : List (VectorRecord fl.F)) (vector : List fl.F) (limit : ℕ) (filters : Dict)
      (with_vectors : Bool) (s : Store fl json_eq)
      → u < uuid_limit
      → v < uuid_limit
      → u ≢ v
      → search fl json_eq
          (uuid_str v)
          vector
          limit
          filters
          with_vectors
          (upsert fl json_eq (uuid_str u) rs s)
        ≡ search fl json_eq (uuid_str v) vector limit filters with_vectors s
  unfolding search upsert
  search-upsert u v rs vector limit filters with_vectors s h k apart =
      rw
        (collection-change (collection_name (uuid_str u)) (collection_name (uuid_str v))
          (put_records fl json_eq rs) s
          (text_apart (collection_name (uuid_str u)) (collection_name (uuid_str v))
            (collection_name-Separates u v h k apart)))
        refl

  -- InMemoryVectorStore as the port, whose operations never raise.
  abbrev pub memory_store : VectorStore fl.F
  memory_store = record {
    State = Store fl json_eq;
    ensure_collection = λ tenant dim s. (true, ensure_collection fl json_eq tenant dim s);
    upsert = λ tenant rs s. (true, upsert fl json_eq tenant rs s);
    search = λ tenant vector limit filters full s.
        some (search fl json_eq tenant vector limit filters full s);
  }

  search-ensure_collection :
      (u v : Uuid) (dim : ℕ) (vector : List fl.F) (limit : ℕ) (filters : Dict) (full : Bool)
      (s : Store fl json_eq)
      → u < uuid_limit
      → v < uuid_limit
      → u ≢ v
      → search fl json_eq
          (uuid_str v)
          vector
          limit
          filters
          full
          (ensure_collection fl json_eq (uuid_str u) dim s)
        ≡ search fl json_eq (uuid_str v) vector limit filters full s
  unfolding search ensure_collection
  search-ensure_collection u v dim vector limit filters full s h k apart =
      rw
        (collection-change (collection_name (uuid_str u)) (collection_name (uuid_str v))
          (λ col. col) s
          (text_apart (collection_name (uuid_str u)) (collection_name (uuid_str v))
            (collection_name-Separates u v h k apart)))
        refl

  -- What is written for one tenant changes no search of another.
  pub memory_store-IsIsolated : IsIsolated memory_store
  memory_store-IsIsolated = record {
    ensure_collection-Isolated = λ u v dim s h k apart vector limit filters full.
        ap some (search-ensure_collection u v dim vector limit filters full s h k apart);
    upsert-Isolated = λ u v rs s h k apart vector limit filters full.
        ap some (search-upsert u v rs vector limit filters full s h k apart);
  }
