-- ===== src/Worker/Processor/Steps.antt =====
-- The steps of IngestionProcessor and a relation between the world before and after them. The steps
-- change tables, the vector store and the index versions only.
use cbir_engine.Base.{
  Bool, Bool-cases, List, Option, Result, String, Text, ap, err, false, inl, inr, lift, none, ok,
  refl, require, some, true, ℕ, ◌>>=◌, ◌≡◌,
}
use cbir_engine.Base.Effects.{followed}
use cbir_engine.Catalog.Items.{CatalogItemRow, EmbeddingRefRow}
use cbir_engine.Kernel.Uuid.{Uuid}
use cbir_engine.Vectors.Memory.{collection}
use cbir_engine.Vectors.Port.{VectorRecord, VectorStore}
use cbir_engine.Worker.Adapters.{Embedded, bump, download, embed_image}
use cbir_engine.Worker.Ports.{ItemView, Outside, Settings, WorkerError, World}
use cbir_engine.Worker.Processor.{
  conclude, has_vector, index_item, ingest, is_indexed, process, process_found, vectors_ensure,
  vectors_upsert,
}
use cbir_engine.Worker.Store.{
  Action, get_item, list_indexed_phashes, mark_duplicate, mark_failed, mark_indexed,
  mark_processing, to_uuid, update,
}

module _ {V : Type 0} (s : VectorStore V) (o : Outside V) where
  pub record IsKept (R : World s o → World s o → Type 0) : Type 0 where
    pub same : (w : World s o) → R w w
    pub next : (w v u : World s o) → R w v → R v u → R w u
    pub tables :
        (w : World s o) (items : List CatalogItemRow) (refs : List EmbeddingRefRow) (fresh : Uuid)
        → R w (record w { items = items; embedding_refs = refs; fresh = fresh })
    pub versions : (w : World s o) (vs : o.Versions) → R w (record w { versions = vs })

  module _ (R : World s o → World s o → Type 0) (kept : IsKept R) where
    abbrev pub Keeps : {A : Type 0} → Action s o A → Type 0
    Keeps m = (w : World s o) → R w (m w).1

    followed-Keeps :
        {A B : Type 0} (f : A → Action s o B) (p : Result WorkerError A × World s o) (w : World s o)
        → R w p.1
        → ((a : A) → Keeps (f a))
        → R w (followed f p).1
    followed-Keeps f (ok a, v) w h k = kept.next w v (f a v).1 h (k a v)
    followed-Keeps f (err e, v) w h k = h

    pub bind-Keeps :
        {A B : Type 0} (m : Action s o A) (f : A → Action s o B)
        → Keeps m
        → ((a : A) → Keeps (f a))
        → Keeps (m >>= f)
    bind-Keeps m f h k w = followed-Keeps f (m w) w (h w) k

    update-Keeps : (raw : Text) (f : CatalogItemRow → CatalogItemRow) → Keeps (update s o raw f)
    unfolding update
    update-Keeps raw f =
        bind-Keeps (lift (to_uuid raw)) _ kept.same
          (λ u w. kept.tables w _ w.embedding_refs w.fresh)

    mark_processing-Keeps : (raw : Text) → Keeps (mark_processing s o raw)
    unfolding mark_processing
    mark_processing-Keeps raw = update-Keeps raw _

    mark_indexed-Keeps :
        (raw phash collection vector_id : Text) (model : String)
        → Keeps (mark_indexed s o raw phash collection vector_id model)
    unfolding mark_indexed
    mark_indexed-Keeps raw phash collection vector_id model w =
        bind-Keeps (update s o raw _) _ (update-Keeps raw _)
          (λ done.
            bind-Keeps {B = Unit {0}} (lift (to_uuid raw)) _ kept.same
              (λ u v. kept.tables v v.items _ _))
          w

    mark_duplicate-Keeps : (raw phash d : Text) → Keeps (mark_duplicate s o raw phash d)
    unfolding mark_duplicate
    mark_duplicate-Keeps raw phash d =
        bind-Keeps (lift (to_uuid d)) _ kept.same (λ u. update-Keeps raw _)

    pub mark_failed-Keeps : (raw reason : Text) → Keeps (mark_failed s o raw reason)
    unfolding mark_failed
    mark_failed-Keeps raw reason = update-Keeps raw _

    get_item-Keeps : (raw : Text) → Keeps (get_item s o raw)
    unfolding get_item
    get_item-Keeps raw = bind-Keeps (lift (to_uuid raw)) _ kept.same (λ u. kept.same)

    list_indexed_phashes-Keeps : (tenant : Text) → Keeps (list_indexed_phashes s o tenant)
    unfolding list_indexed_phashes
    list_indexed_phashes-Keeps tenant =
        bind-Keeps (lift (to_uuid tenant)) _ kept.same (λ u. kept.same)

    require-Keeps : (b : Bool) (e : WorkerError) → Keeps (require b e)
    require-Keeps true e = kept.same
    require-Keeps false e = kept.same

    module _ (settings : Settings) where
      -- The writes to a tenant's collection keep the relation.
      abbrev pub KeepsWrites : Text → Type 0
      KeepsWrites tenant =
          ((dim : ℕ) → Keeps (vectors_ensure s o settings tenant dim))
          × ((r : VectorRecord V) → Keeps (vectors_upsert s o settings tenant r))

      index_item-Keeps :
          (raw : Text) (i : ItemView) (e : Embedded V)
          → KeepsWrites i.tenant_id
          → Keeps (index_item s o settings raw i e)
      unfolding index_item bump
      index_item-Keeps raw i e writes =
          bind-Keeps (vectors_ensure s o settings i.tenant_id _) _ (writes.0 _) (λ a.
            bind-Keeps (vectors_upsert s o settings i.tenant_id _) _ (writes.1 _) (λ b.
              bind-Keeps (mark_indexed s o raw e.phash _ raw e.model_version) _
                (mark_indexed-Keeps raw e.phash _ raw e.model_version) (λ c w. kept.versions w _)))

      conclude-Keeps :
          (raw : Text) (i : ItemView) (e : Embedded V) (d : Option Text)
          → KeepsWrites i.tenant_id
          → Keeps (conclude s o settings raw i e d)
      conclude-Keeps raw i e none writes = index_item-Keeps raw i e writes
      conclude-Keeps raw i e (some d) writes =
          bind-Keeps (mark_duplicate s o raw e.phash d) _ (mark_duplicate-Keeps raw e.phash d)
            (λ a. kept.same)

      ingest-Keeps :
          (raw : Text) (i : ItemView) → KeepsWrites i.tenant_id → Keeps (ingest s o settings raw i)
      unfolding ingest download embed_image
      ingest-Keeps raw i writes =
          bind-Keeps (mark_processing s o raw) _ (mark_processing-Keeps raw) (λ a.
            bind-Keeps (download s o i.object_key) _ kept.same (λ bytes.
              bind-Keeps (embed_image s o bytes) _ kept.same (λ e.
                bind-Keeps (require (has_vector e.vector) _) _
                  (require-Keeps (has_vector e.vector) _)
                  (λ b.
                    bind-Keeps (list_indexed_phashes s o i.tenant_id) _
                      (list_indexed_phashes-Keeps i.tenant_id)
                      (λ existing.
                        bind-Keeps (lift _) _ kept.same
                          (λ found. conclude-Keeps raw i e found writes))))))

      process_found-Keeps :
          (raw : Text) (i : Option ItemView)
          → ((v : ItemView) → i ≡ some v → KeepsWrites v.tenant_id)
          → Keeps (process_found s o settings raw i)
      process_found-Keeps raw none writes w = kept.same w
      process_found-Keeps raw (some i) writes w = elim (Bool-cases (is_indexed i)) [
        | inl e ↦ rw e (kept.same w)
        | inr e ↦ rw e (ingest-Keeps raw i (writes i refl) w)
      ]

      found-Keeps :
          (raw : Text) (w : World s o) (p : Result WorkerError (Option ItemView) × World s o)
          → R w p.1
          → ((v : ItemView) → p.0 ≡ ok (some v) → KeepsWrites v.tenant_id)
          → R w (followed (process_found s o settings raw) p).1
      found-Keeps raw w (ok i, v) h k =
          let step = process_found-Keeps raw i (λ x e. k x (ap ok e)) v in
          kept.next w v (process_found s o settings raw i v).1 h step
      found-Keeps raw w (err e, v) h k = h

      -- A job keeps the relation when the writes for the item that it finds do.
      pub process-Keeps :
          (raw : Text) (w : World s o)
          → ((v : ItemView) → (get_item s o raw w).0 ≡ ok (some v) → KeepsWrites v.tenant_id)
          → R w (process s o settings raw w).1
      unfolding process
      process-Keeps raw w writes =
          found-Keeps raw w (get_item s o raw w) (get_item-Keeps raw w) writes
