-- ===== src/Worker/Store.antt =====
-- ingestion_worker/adapters.py, SqlAlchemyItemStore: what the worker reads and writes of the tables
-- that catalog-service owns.
use mathlib.Core.List.{reverse}
use cbir_engine.Base.{
  Bool, Exec, List, Option, Result, String, Text, [], codes, err, find_first, gets, if◌then◌else◌,
  is_some, lift, map, modify, none, ok, or_else, pure, select, some, sort_on, str_eq, take, ◌&&◌,
  ◌++◌, ◌+◌, ◌==◌, ◌>>=◌, ◌>>◌, ◌∷◌,
}
use cbir_engine.Catalog.Items.{CatalogItemRow}
use cbir_engine.Kernel.Uuid.{Uuid, uuid_parse, uuid_str}
use cbir_engine.Vectors.Memory.{collection}
use cbir_engine.Vectors.Port.{VectorStore}
use cbir_engine.Worker.Ports.{ItemView, Outside, WorkerError, World, other_error}

abbrev pub item_row : Uuid → List CatalogItemRow → Option CatalogItemRow
item_row u = find_first (λ (r : CatalogItemRow). r.id == u)

-- setattr on the row with the id; an absent row changes nothing
abbrev pub change_row :
    Uuid → (CatalogItemRow → CatalogItemRow) → List CatalogItemRow → List CatalogItemRow
change_row u f [] = []
change_row u f (r ∷ rs) = let rest = change_row u f rs in if r.id == u then f r ∷ rs else r ∷ rest

abbrev pub to_uuid : Text → Result WorkerError Uuid
to_uuid raw = elim (uuid_parse raw) [
  | some u ↦ ok u
  | none ↦ err (other_error (codes "badly formed hexadecimal UUID string"))
]

abbrev pub view_of : CatalogItemRow → ItemView
view_of r = record {
  id = uuid_str r.id;
  tenant_id = uuid_str r.tenant_id;
  object_key = r.object_key;
  content_type = r.content_type;
  metadata = r.metadata;
  external_id = r.external_id;
  status = r.status;
}

abbrev pub has_phash : CatalogItemRow → Bool
has_phash r = is_some r.phash

abbrev pub indexed_of : Uuid → CatalogItemRow → Bool
indexed_of tenant r = r.tenant_id == tenant && str_eq r.status "indexed" && has_phash r

-- order_by(indexed_at.desc()): NULL, which no indexed row has, would stand first
abbrev pub recent_first : List CatalogItemRow → List CatalogItemRow
recent_first rows = reverse (sort_on (λ (r : CatalogItemRow). or_else r.indexed_at 0) rows)

module _ {V : Type 0} (s : VectorStore V) (o : Outside V) where
  abbrev pub Action : Type 0 → Type 0
  Action A = Exec (World s o) WorkerError A

  -- ItemStore.get
  unfoldable pub get_item : Text → Action (Option ItemView)
  get_item raw = do
    u ← lift (to_uuid raw)
    rows ← gets (λ w. w.items)
    pure (elim (item_row u rows) [ none ↦ none | some r ↦ some (view_of r) ])

  -- _update, with `updated_at` set last
  unfoldable pub update : Text → (CatalogItemRow → CatalogItemRow) → Action (Unit {0})
  update raw f = do
    u ← lift (to_uuid raw)
    modify (λ w. record w {
      items = change_row u (λ (r : CatalogItemRow). record (f r) { updated_at = w.now }) w.items;
    })

  unfoldable pub mark_processing : Text → Action (Unit {0})
  mark_processing raw = update raw (λ (r : CatalogItemRow). record r { status = "processing" })

  unfoldable pub mark_indexed : Text → Text → Text → Text → String → Action (Unit {0})
  mark_indexed raw phash collection vector_id model_version = do
    now ← gets (λ w. w.now)
    update raw (λ (r : CatalogItemRow). record r {
      status = "indexed";
      phash = some phash;
      indexed_at = some now;
      failure_reason = none;
    })
    u ← lift (to_uuid raw)
    modify (λ w. record w {
      embedding_refs =
          w.embedding_refs
          ++ (record {
            id = w.fresh;
            item_id = u;
            vector_db_collection = collection;
            vector_id = vector_id;
            model_version = model_version;
            created_at = now;
          }
              ∷ []);
      fresh = w.fresh + 1;
    })

  unfoldable pub mark_duplicate : Text → Text → Text → Action (Unit {0})
  mark_duplicate raw phash duplicate_of = do
    d ← lift (to_uuid duplicate_of)
    update raw (λ (r : CatalogItemRow). record r {
      status = "duplicate";
      phash = some phash;
      duplicate_of_id = some d;
    })

  unfoldable pub mark_failed : Text → Text → Action (Unit {0})
  mark_failed raw reason = update raw (λ (r : CatalogItemRow). record r {
    status = "failed";
    failure_reason = some (take 1000 reason);
  })

  -- (item_id, phash) of the tenant's indexed items, the most recently indexed first
  unfoldable pub list_indexed_phashes : Text → Action (List (Text × Text))
  list_indexed_phashes tenant_id = do
    t ← lift (to_uuid tenant_id)
    rows ← gets (λ w. w.items)
    pure (
        map (λ (r : CatalogItemRow). (uuid_str r.id, or_else r.phash []))
          (recent_first (select (indexed_of t) rows)))
