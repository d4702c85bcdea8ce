-- ===== src/Vectors/Qdrant/Witnesses.antt =====
-- A server that keeps the points of each collection and answers a query with all of them.
use cbir_engine.Base.{
  List, Text, [], ap, false, if◌then◌else◌, length, map, none, refl, some, text_apart, text_eq,
  true, ℕ, ◌++◌, ◌≡◌, ◌≢◌,
}
use cbir_engine.Vectors.Port.Contract.{IsIsolated}
use cbir_engine.Vectors.Qdrant.{PointStruct, QdrantClient, ScoredPoint, qdrant_store}
use cbir_engine.Vectors.Qdrant.Isolation.{Collections, qdrant_store-IsIsolated}

abbrev Points : Type 0
Points = List (PointStruct ℕ)

abbrev changed : Text → (Points → Points) → (Text → Points) → Text → Points
changed c f server d = if text_eq c d then f (server d) else server d

abbrev scored : PointStruct ℕ → ScoredPoint ℕ
scored p = record { id = p.id; score = 1; payload = some p.payload; vector = none }

abbrev table_server : QdrantClient ℕ
table_server = record {
  Server = Text → Points;
  collection_exists = λ c server. some false;
  create_collection = λ c dim server. (true, changed c (λ ps. []) server);
  upsert = λ c points server. (true, changed c (λ ps. points ++ ps) server);
  query_points = λ c vector limit filter full server. some (map scored (server c));
  delete = λ c ids server. (true, server);
  count = λ c server. some (length (server c));
  get_collections = λ server. true;
}

changed-apart :
    (c d : Text) (f : Points → Points) (server : Text → Points)
    → c ≢ d
    → changed c f server d ≡ server d
changed-apart c d f server apart = rw (text_apart c d apart) refl

table_server-Collections : Collections table_server
table_server-Collections = record {
  create-apart = λ c d dim limit vector filter full server apart.
      ap (λ ps. some (map scored ps)) (changed-apart c d (λ ps. []) server apart);
  upsert-apart = λ c d points limit vector filter full server apart.
      ap (λ ps. some (map scored ps)) (changed-apart c d (λ ps. points ++ ps) server apart);
}

qdrant_store-IsIsolated_example : IsIsolated (qdrant_store table_server)
qdrant_store-IsIsolated_example = qdrant_store-IsIsolated table_server table_server-Collections
