-- ===== src/Vectors/Qdrant.antt =====
-- QdrantVectorStore (cbir_common/vectordb) over the client of Qdrant, which is a parameter. `false`
-- and `none` stand for an exception.
pub mod Witnesses
pub mod Isolation
use cbir_engine.Base.{
  Bool, List, Option, String, Text, [], any, false, if◌then◌else◌, map, none, or_else, some,
  text_eq, true, ℕ, ◌∷◌,
}
use cbir_engine.Kernel.Json.{Dict, Json}
use cbir_engine.Vectors.Port.{SearchHit, VectorRecord, VectorStore, collection_name}

-- A condition of a filter, a key and the value to match; and a filter, whose conditions must all
-- hold.
pub data FieldCondition : Type 0 where
  match_value : String → Json → FieldCondition

pub data Filter : Type 0 where
  must : List FieldCondition → Filter

pub record PointStruct (V : Type 0) : Type 0 where
  pub id : Text
  pub vector : List V
  pub payload : Dict

pub record ScoredPoint (V : Type 0) : Type 0 where
  pub id : Text
  pub score : V
  pub payload : Option Dict
  pub vector : Option (List V)

pub record QdrantClient (V : Type 0) : Type 1 where
  pub Server : Type 0
  pub collection_exists : Text → Server → Option Bool
  -- a collection of vectors of that size, compared by their cosine
  pub create_collection : Text → ℕ → Server → Bool × Server
  pub upsert : Text → List (PointStruct V) → Server → Bool × Server
  pub query_points :
      Text → List V → ℕ → Option Filter → Bool → Server → Option (List (ScoredPoint V))
  pub delete : Text → List Text → Server → Bool × Server
  pub count : Text → Server → Option ℕ
  pub get_collections : Server → Bool

abbrev condition_of : String × Json → FieldCondition
condition_of f = match_value f.0 f.1

-- _build_qdrant_filter
unfoldable pub build_qdrant_filter : Dict → Option Filter
build_qdrant_filter [] = none
build_qdrant_filter (f ∷ fs) = some (must (map condition_of (f ∷ fs)))

abbrev pub point_of : {V : Type 0} → VectorRecord V → PointStruct V
point_of r = record { id = r.id; vector = r.vector; payload = r.payload }

abbrev pub hit_of_point : {V : Type 0} → Bool → ScoredPoint V → SearchHit V
hit_of_point with_vectors p = record {
  id = p.id;
  score = p.score;
  payload = or_else p.payload [];
  vector = if with_vectors then p.vector else none;
}

module _ {V : Type 0} (client : QdrantClient V) where
  -- The server, and the names in `_ensured`.
  abbrev pub QdrantState : Type 0
  QdrantState = client.Server × List Text

  abbrev pub is_ensured : Text → QdrantState → Bool
  is_ensured name s = any (λ n. text_eq n name) s.1

  abbrev pub remember : Text → List Text → Bool × client.Server → Bool × QdrantState
  remember name ensured (true, server) = (true, (server, name ∷ ensured))
  remember name ensured (false, server) = (false, (server, ensured))

  abbrev pub ensure_missing : Text → ℕ → Option Bool → QdrantState → Bool × QdrantState
  ensure_missing name dim none s = (false, s)
  ensure_missing name dim (some true) s = (true, (s.0, name ∷ s.1))
  ensure_missing name dim (some false) s = remember name s.1 (client.create_collection name dim s.0)

  unfoldable pub ensure_collection : Text → ℕ → QdrantState → Bool × QdrantState
  ensure_collection tenant dim s =
      let name = collection_name tenant in
      let looked_up = ensure_missing name dim (client.collection_exists name s.0) s in
      if is_ensured name s then (true, s) else looked_up

  unfoldable pub upsert : Text → List (VectorRecord V) → QdrantState → Bool × QdrantState
  upsert tenant rs s =
      let (done, server) = client.upsert (collection_name tenant) (map point_of rs) s.0 in
      (done, (server, s.1))

  unfoldable pub search :
      Text → List V → ℕ → Dict → Bool → QdrantState → Option (List (SearchHit V))
  search tenant vector limit filters with_vectors s =
      elim (client.query_points (collection_name tenant) vector limit (build_qdrant_filter filters)
        with_vectors s.0) [
          | none ↦ none
          | some points ↦ some (map (hit_of_point with_vectors) points)
        ]

  unfoldable pub delete : Text → List Text → QdrantState → Bool × QdrantState
  delete tenant ids s =
      let (done, server) = client.delete (collection_name tenant) ids s.0 in (done, (server, s.1))

  unfoldable pub count : Text → QdrantState → Option ℕ
  count tenant s = elim (client.collection_exists (collection_name tenant) s.0) [
    | none ↦ none
    | some false ↦ some 0
    | some true ↦ client.count (collection_name tenant) s.0
  ]

  -- `except Exception` makes every failure a `False`.
  unfoldable pub reachable : QdrantState → Bool
  reachable s = client.get_collections s.0

  abbrev pub qdrant_store : VectorStore V
  qdrant_store = record {
    State = QdrantState;
    ensure_collection = ensure_collection;
    upsert = upsert;
    search = search;
  }
