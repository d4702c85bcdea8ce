-- ===== src/Vectors/Port.antt =====
-- The vector store as its clients see it. Each operation may raise.
pub mod Contract
pub mod Collections
use cbir_engine.Base.{Bool, List, Option, Text, codes, ℕ, ◌++◌}
use cbir_engine.Base.Strings.{without}
use cbir_engine.Kernel.Json.{Dict}

-- collection_name
unfoldable pub collection_name : Text → Text
collection_name tenant_id = codes "tenant_" ++ without 45 tenant_id

pub record VectorRecord (V : Type 0) : Type 0 where
  pub id : Text
  pub vector : List V
  pub payload : Dict

pub record SearchHit (V : Type 0) : Type 0 where
  pub id : Text
  pub score : V
  pub payload : Dict
  pub vector : Option (List V)

-- VectorStore: `false` and `none` stand for an exception.
pub record VectorStore (V : Type 0) : Type 1 where
  pub State : Type 0
  pub ensure_collection : Text → ℕ → State → Bool × State
  pub upsert : Text → List (VectorRecord V) → State → Bool × State
  pub search : Text → List V → ℕ → Dict → Bool → State → Option (List (SearchHit V))
