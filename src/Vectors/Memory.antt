-- ===== src/Vectors/Memory.antt =====
-- InMemoryVectorStore: a dict of collections, each a dict of records by id; cosine scores.
pub mod Refinement
pub mod Tables
pub mod Isolation
pub mod Search
use cbir_engine.Base.{
  Bool, List, Option, String, Text, [], all, any, if◌then◌else◌, length, map, none, not, or_else,
  select, some, str_eq, take, text_eq, ℕ, ◌||◌, ◌∷◌,
}
use cbir_engine.Kernel.Floats.{Floats, dot, feq, norm, sort_desc}
use cbir_engine.Kernel.Json.{Dict, Json, null}
use cbir_engine.Vectors.Port.{SearchHit, VectorRecord, collection_name}

module _ (fl : Floats) (json_eq : Json → Json → Bool) where
  abbrev pub Records : Type 0
  Records = List (VectorRecord fl.F)

  abbrev pub Store : Type 0
  Store = List (Text × Records)

  -- col[record.id] = record
  abbrev pub put_record : VectorRecord fl.F → Records → Records
  put_record r [] = r ∷ []
  put_record r (x ∷ xs) =
      let rest = put_record r xs in if text_eq x.id r.id then r ∷ xs else x ∷ rest

  abbrev pub put_records : List (VectorRecord fl.F) → Records → Records
  put_records [] col = col
  put_records (r ∷ rs) col = put_records rs (put_record r col)

  abbrev pub collection : Text → Store → Option Records
  collection c [] = none
  collection c ((d, col) ∷ s) = let rest = collection c s in if text_eq d c then some col else rest

  -- self._collections[c] = f(self._collections.setdefault(c, {}))
  abbrev pub change : Text → (Records → Records) → Store → Store
  change c f [] = (c, f []) ∷ []
  change c f ((d, col) ∷ s) =
      let rest = change c f s in if text_eq d c then (d, f col) ∷ s else (d, col) ∷ rest

  unfoldable pub ensure_collection : Text → ℕ → Store → Store
  ensure_collection tenant dim = change (collection_name tenant) (λ col. col)

  unfoldable pub upsert : Text → List (VectorRecord fl.F) → Store → Store
  upsert tenant rs = change (collection_name tenant) (put_records rs)

  abbrev get_value : String → Dict → Json
  get_value k [] = null
  get_value k ((j, v) ∷ d) = let rest = get_value k d in if str_eq j k then v else rest

  -- _matches: every filter is the payload's value; a key that is absent reads as None
  unfoldable pub matches : Dict → Dict → Bool
  matches payload filters = all (λ (f : String × Json). json_eq (get_value f.0 payload) f.1) filters

  unfoldable pub cosine : List fl.F → List fl.F → fl.F
  unfolding dot norm
  cosine a b =
      let na = norm fl a in
      let nb = norm fl b in
      if feq fl na fl.zero || feq fl nb fl.zero then fl.zero else fl.div (dot fl a b) (fl.mul na nb)

  abbrev pub hit_of : List fl.F → Bool → VectorRecord fl.F → SearchHit fl.F
  hit_of vector with_vectors r = record {
    id = r.id;
    score = cosine vector r.vector;
    payload = r.payload;
    vector = if with_vectors then some r.vector else none;
  }

  abbrev pub hits_of : List fl.F → Dict → Bool → Records → List (SearchHit fl.F)
  hits_of vector filters with_vectors col =
      map (hit_of vector with_vectors)
        (select (λ (r : VectorRecord fl.F). matches r.payload filters) col)

  unfoldable pub search : Text → List fl.F → ℕ → Dict → Bool → Store → List (SearchHit fl.F)
  search tenant vector limit filters with_vectors s = take limit (
      sort_desc fl (λ (h : SearchHit fl.F). h.score)
        (hits_of vector filters with_vectors (or_else (collection (collection_name tenant) s) [])))

  abbrev pub drop_ids : List Text → Records → Records
  drop_ids ids = select (λ (r : VectorRecord fl.F). not (any (λ i. text_eq i r.id) ids))

  abbrev pub change_found : Text → (Records → Records) → Store → Store
  change_found c f [] = []
  change_found c f ((d, col) ∷ s) =
      let rest = change_found c f s in if text_eq d c then (d, f col) ∷ s else (d, col) ∷ rest

  unfoldable pub delete : Text → List Text → Store → Store
  delete tenant ids = change_found (collection_name tenant) (drop_ids ids)

  unfoldable pub count : Text → Store → ℕ
  count tenant s = length (or_else (collection (collection_name tenant) s) [])
