-- ===== src/Vectors/Qdrant/Isolation.antt =====
-- QdrantVectorStore (cbir_common/vectordb): collections are ensured once, and tenants are apart.
use cbir_engine.Base.{
  Bool, Bool-cases, List, Option, Text, ap, false, if◌then◌else◌, inl, inr, map, none, refl, some,
  sym, text_eq_refl, true, ℕ, ◌∙◌, ◌≡◌, ◌≢◌,
}
use cbir_engine.Kernel.Uuid.{uuid_str}
use cbir_engine.Vectors.Port.{SearchHit, collection_name}
use cbir_engine.Vectors.Port.Collections.{collection_name-Separates}
use cbir_engine.Vectors.Port.Contract.{IsIsolated}
use cbir_engine.Vectors.Qdrant.{
  Filter, PointStruct, QdrantClient, QdrantState, ScoredPoint, build_qdrant_filter,
  ensure_collection, ensure_missing, hit_of_point, is_ensured, point_of, qdrant_store, remember,
  search, upsert,
}

module _ {V : Type 0} (client : QdrantClient V) where
  -- A request on one collection leaves the points of every other collection as they were.
  pub record Collections : Type 0 where
    pub create-apart :
        (c d : Text) (dim limit : ℕ) (vector : List V) (filter : Option Filter) (full : Bool)
        (server : client.Server)
        → c ≢ d
        → client.query_points d vector limit filter full (client.create_collection c dim server).1
          ≡ client.query_points d vector limit filter full server
    pub upsert-apart :
        (c d : Text) (points : List (PointStruct V)) (limit : ℕ) (vector : List V)
        (filter : Option Filter) (full : Bool) (server : client.Server)
        → c ≢ d
        → client.query_points d vector limit filter full (client.upsert c points server).1
          ≡ client.query_points d vector limit filter full server

  remember-IsKnown :
      (name : Text) (ensured : List Text) (p : Bool × client.Server)
      → (remember client name ensured p).0 ≡ true
      → is_ensured client name (remember client name ensured p).1 ≡ true
  remember-IsKnown name ensured (true, server) h = rw (text_eq_refl name) refl
  remember-IsKnown name ensured (false, server) h = cc

  ensure_missing-IsKnown :
      (name : Text) (dim : ℕ) (found : Option Bool) (s : QdrantState client)
      → (ensure_missing client name dim found s).0 ≡ true
      → is_ensured client name (ensure_missing client name dim found s).1 ≡ true
  ensure_missing-IsKnown name dim none s h = cc
  ensure_missing-IsKnown name dim (some true) s h = rw (text_eq_refl name) refl
  ensure_missing-IsKnown name dim (some false) s h =
      remember-IsKnown name s.1 (client.create_collection name dim s.0) h

  ensure_collection-IsKnown :
      (tenant : Text) (dim : ℕ) (s : QdrantState client)
      → (ensure_collection client tenant dim s).0 ≡ true
      → is_ensured client (collection_name tenant) (ensure_collection client tenant dim s).1 ≡ true
  unfolding ensure_collection
  ensure_collection-IsKnown tenant dim s =
      let name = collection_name tenant in
      elim (Bool-cases (is_ensured client name s)) [
        | inl e ↦ rw e (λ h. e)
        | inr e ↦ rw e (ensure_missing-IsKnown name dim (client.collection_exists name s.0) s)
      ]

  -- Once a tenant's collection is ensured, ensuring it again is a success that asks the server nothing
  -- and changes nothing.
  ensure_collection-Once :
      (tenant : Text) (dim dim' : ℕ) (s s' : QdrantState client)
      → ensure_collection client tenant dim s ≡ (true, s')
      → ensure_collection client tenant dim' s' ≡ (true, s')
  unfolding ensure_collection
  ensure_collection-Once tenant dim dim' s s' h =
      let known : is_ensured client (collection_name tenant) s' ≡ true =
        rw (sym (ap (λ p. p.1) h)) (ensure_collection-IsKnown tenant dim s (ap (λ p. p.0) h)) in
      rw known refl

  -- The server is asked about the other collection only.
  abbrev Apart : Text → Text → QdrantState client → QdrantState client → Type 0
  Apart c d before after =
      (limit : ℕ) (vector : List V) (filter : Option Filter) (full : Bool)
      → client.query_points d vector limit filter full after.0
        ≡ client.query_points d vector limit filter full before.0

  module _ (laws : Collections) (c d : Text) (apart : c ≢ d) where
    remember-state :
        (ensured : List Text) (p : Bool × client.Server) → (remember client c ensured p).1.0 ≡ p.1
    remember-state ensured (true, server) = refl
    remember-state ensured (false, server) = refl

    ensure_missing-Apart :
        (dim : ℕ) (found : Option Bool) (s : QdrantState client)
        → Apart c d s (ensure_missing client c dim found s).1
    ensure_missing-Apart dim none s limit vector filter full = refl
    ensure_missing-Apart dim (some true) s limit vector filter full = refl
    ensure_missing-Apart dim (some false) s limit vector filter full =
        ap (client.query_points d vector limit filter full)
          (remember-state s.1 (client.create_collection c dim s.0))
        ∙ laws.create-apart c d dim limit vector filter full s.0 apart

    ensured-Apart :
        (dim : ℕ) (known : Bool) (s : QdrantState client)
        → Apart c d s
            (if known
              then (true, s)
              else ensure_missing client c dim (client.collection_exists c s.0) s).1
    ensured-Apart dim true s limit vector filter full = refl
    ensured-Apart dim false s limit vector filter full =
        ensure_missing-Apart dim (client.collection_exists c s.0) s limit vector filter full

  abbrev hits_of_reply : Bool → Option (List (ScoredPoint V)) → Option (List (SearchHit V))
  hits_of_reply full r = elim r [
    | none ↦ none
    | some points ↦ some (map (hit_of_point full) points)
  ]

  -- Over a server that keeps collections apart, what is written for one tenant changes no search of
  -- another.
  pub qdrant_store-IsIsolated : Collections → IsIsolated (qdrant_store client)
  unfolding ensure_collection upsert search
  qdrant_store-IsIsolated laws = record {
    ensure_collection-Isolated = λ u v dim before h k apart vector limit filters full.
        let c = collection_name (uuid_str u) in
        let d = collection_name (uuid_str v) in
        ap (hits_of_reply full) (
          ensured-Apart laws c d (collection_name-Separates u v h k apart) dim
            (is_ensured client c before) before limit vector (build_qdrant_filter filters) full);
    upsert-Isolated = λ u v rs before h k apart vector limit filters full.
        let c = collection_name (uuid_str u) in
        let d = collection_name (uuid_str v) in
        ap (hits_of_reply full) (
          laws.upsert-apart c d (map point_of rs) limit vector (build_qdrant_filter filters) full
            before.0 (collection_name-Separates u v h k apart));
  }
