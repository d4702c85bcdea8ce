-- ===== src/Vectors/Port/Contract.antt =====
-- VectorStore (cbir_common/vectordb): what its clients rely on between tenants.
use cbir_engine.Base.{Bool, List, Text, ℕ, ◌<◌, ◌≡◌, ◌≢◌}
use cbir_engine.Kernel.Json.{Dict}
use cbir_engine.Kernel.Uuid.{Uuid, uuid_limit, uuid_str}
use cbir_engine.Vectors.Port.{VectorRecord, VectorStore}

module _ {V : Type 0} (s : VectorStore V) where
  -- Every search of a tenant comes to the same in both states.
  abbrev pub SameSearches : Text → s.State → s.State → Type 0
  SameSearches tenant before after =
      (vector : List V) (limit : ℕ) (filters : Dict) (with_vectors : Bool)
      → s.search tenant vector limit filters with_vectors after
        ≡ s.search tenant vector limit filters with_vectors before

  -- What is written for one tenant changes no search of another.
  pub record IsIsolated : Type 0 where
    pub ensure_collection-Isolated :
        (u v : Uuid) (dim : ℕ) (before : s.State)
        → u < uuid_limit
        → v < uuid_limit
        → u ≢ v
        → SameSearches (uuid_str v) before (s.ensure_collection (uuid_str u) dim before).1
    pub upsert-Isolated :
        (u v : Uuid) (rs : List (VectorRecord V)) (before : s.State)
        → u < uuid_limit
        → v < uuid_limit
        → u ≢ v
        → SameSearches (uuid_str v) before (s.upsert (uuid_str u) rs before).1
