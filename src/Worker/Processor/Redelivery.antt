-- ===== src/Worker/Processor/Redelivery.antt =====
-- IngestionProcessor.process on a job that is delivered again, or whose item is gone.
use mathlib.Core.Path.{subst}
use cbir_engine.Base.{
  Bool-cases, List, Option, Option-cases, Result, String, Text, [], bind_ok, err, inl, inr, length,
  none, ok, refl, some, str_eq, true, ◌==◌, ◌∙◌, ◌∷◌, ◌≡◌, ◌⊎◌,
}
use cbir_engine.Base.Effects.{followed, followed-cases, lift-cases, require-cases}
use cbir_engine.Catalog.Items.{CatalogItemRow}
use cbir_engine.Kernel.Uuid.{Uuid, uuid_parse}
use cbir_engine.Vectors.Memory.{collection}
use cbir_engine.Vectors.Port.{VectorStore, collection_name}
use cbir_engine.Worker.Adapters.{Embedded, bump, download, embed_image}
use cbir_engine.Worker.Dedup.{find_duplicate}
use cbir_engine.Worker.Ports.{ItemView, Outside, Settings, WorkerError, World}
use cbir_engine.Worker.Processor.{
  Outcome, bad_hash, conclude, has_vector, index_item, ingest, process, process_found,
  vectors_ensure, vectors_upsert, was_duplicate, was_indexed, was_skipped,
}
use cbir_engine.Worker.Store.{
  change_row, get_item, item_row, list_indexed_phashes, mark_duplicate, mark_indexed,
  mark_processing, update, view_of,
}

module _ {V : Type 0} (s : VectorStore V) (o : Outside V) (settings : Settings) where
  abbrev pub seen_as : Option CatalogItemRow → Option ItemView
  seen_as none = none
  seen_as (some r) = some (view_of r)

  pub get_item-row :
      (raw : Text) (u : Uuid) (w : World s o) (found : Option CatalogItemRow)
      → uuid_parse raw ≡ some u
      → item_row u w.items ≡ found
      → get_item s o raw w ≡ (ok (seen_as found), w)
  unfolding get_item
  get_item-row raw u w none h e = rw (h, followed) (rw (e, followed) refl)
  get_item-row raw u w (some r) h e = rw (h, followed) (rw (e, followed) refl)

  -- A job of an item that is gone or already indexed is skipped and changes nothing: not the item,
  -- the vectors, the index version, nor the queues.
  process-Redelivered :
      (raw : Text) (u : Uuid) (w : World s o)
      → uuid_parse raw ≡ some u
      → (item_row u w.items ≡ none)
        ⊎ ((r : CatalogItemRow) × (item_row u w.items ≡ some r)
            × (str_eq r.status "indexed" ≡ true))
      → process s o settings raw w ≡ (ok was_skipped, w)
  unfolding process
  process-Redelivered raw u w h (inl gone) =
      bind_ok (get_item s o raw) (process_found s o settings raw) w w none
        (get_item-row raw u w none h gone)
  process-Redelivered raw u w h (inr (r, here, ready)) =
      bind_ok (get_item s o raw) (process_found s o settings raw) w w (some (view_of r))
        (get_item-row raw u w (some r) h here)
      ∙ rw ready refl

  -- The item is gone, or its row says that it is indexed.
  abbrev pub IsSettled : Uuid → World s o → Type 0
  IsSettled u v =
      (item_row u v.items ≡ none)
      ⊎ ((r : CatalogItemRow) × (item_row u v.items ≡ some r) × (str_eq r.status "indexed" ≡ true))

  -- A job that was indexed or skipped leaves its item settled.
  abbrev Settles : Uuid → Result WorkerError Outcome × World s o → Type 0
  Settles u (ok was_indexed, v) = IsSettled u v
  Settles u (ok was_skipped, v) = IsSettled u v
  Settles u (ok (was_duplicate d), v) = Unit
  Settles u (err e, v) = Unit

  item_row-change_row :
      (u : Uuid) (f : CatalogItemRow → CatalogItemRow) (rows : List CatalogItemRow)
      → ((r : CatalogItemRow) → (f r).id ≡ r.id)
      → ((r : CatalogItemRow) → str_eq (f r).status "indexed" ≡ true)
      → (item_row u (change_row u f rows) ≡ none)
        ⊎ ((r : CatalogItemRow) × (item_row u (change_row u f rows) ≡ some r)
            × (str_eq r.status "indexed" ≡ true))
  item_row-change_row u f [] same marked = inl refl
  item_row-change_row u f (r ∷ rows) same marked = elim (Bool-cases (r.id == u)) [
    | inl e ↦ inr (f r, rw e (rw (same r) (rw e refl)), marked r)
    | inr e ↦ rw e (rw e (item_row-change_row u f rows same marked))
  ]

  mark_indexed-Settled :
      (raw phash collection vector_id : Text) (model : String) (u : Uuid) (v : World s o)
      → uuid_parse raw ≡ some u
      → IsSettled u (mark_indexed s o raw phash collection vector_id model v).1
  unfolding mark_indexed update
  mark_indexed-Settled raw phash collection vector_id model u v h =
      rw (h, followed)
        (rw (h, followed)
          (item_row-change_row u
            (λ (r : CatalogItemRow). record r {
              status = "indexed";
              phash = some phash;
              indexed_at = some v.now;
              failure_reason = none;
              updated_at = v.now;
            })
            v.items (λ r. refl) (λ r. refl)))

  bump-Settled :
      (tenant : Text) (u : Uuid) (v : World s o) → IsSettled u v → IsSettled u (bump s o tenant v).1
  unfolding bump
  bump-Settled tenant u v h = h

  index_item-Settles :
      (raw : Text) (u : Uuid) (item : ItemView) (e : Embedded V) (w : World s o)
      → uuid_parse raw ≡ some u
      → Settles u (index_item s o settings raw item e w)
  unfolding index_item
  index_item-Settles raw u item e w h =
      let P = Settles u in
      followed-cases P _ (vectors_ensure s o settings item.tenant_id (length e.vector) w)
        (λ a v1 k1.
          followed-cases P _ (vectors_upsert s o settings item.tenant_id _ v1)
            (λ b v2 k2.
              followed-cases P _
                (mark_indexed s o raw e.phash (collection_name item.tenant_id) raw e.model_version
                  v2)
                (λ c v3 k3. bump-Settled item.tenant_id u v3 (
                  subst (λ (p : Result WorkerError (Unit {0}) × World s o). IsSettled u p.1) k3
                    (mark_indexed-Settled raw e.phash (collection_name item.tenant_id) raw
                      e.model_version u v2 h)))
                (λ x v bad. tt))
            (λ x v bad. tt))
        (λ x v bad. tt)

  conclude-Settles :
      (raw : Text) (u : Uuid) (item : ItemView) (e : Embedded V) (found : Option Text)
      (w : World s o)
      → uuid_parse raw ≡ some u
      → Settles u (conclude s o settings raw item e found w)
  conclude-Settles raw u item e none w h = index_item-Settles raw u item e w h
  conclude-Settles raw u item e (some d) w h =
      followed-cases (Settles u) _ (mark_duplicate s o raw e.phash d w) (λ a v k. tt)
        (λ x v bad. tt)

  ingest-Settles :
      (raw : Text) (u : Uuid) (item : ItemView) (w : World s o)
      → uuid_parse raw ≡ some u
      → Settles u (ingest s o settings raw item w)
  unfolding ingest
  ingest-Settles raw u item w h =
      let P = Settles u in
      followed-cases P _ (mark_processing s o raw w)
        (λ a v1 k1.
          followed-cases P _ (download s o item.object_key v1)
            (λ bytes v2 k2.
              followed-cases P _ (embed_image s o bytes v2)
                (λ e v3 k3.
                  require-cases P _ (has_vector e.vector) _ v3
                    (λ full.
                      followed-cases P _ (list_indexed_phashes s o item.tenant_id v3)
                        (λ existing v4 k4.
                          lift-cases P (λ found. conclude s o settings raw item e found)
                            (elim (find_duplicate e.phash existing settings.dedup_hamming_threshold)
                              as (λ x. Result WorkerError (Option Text)) [
                                | none ↦ err bad_hash
                                | some d ↦ ok d
                              ])
                            v4 (λ found k5. conclude-Settles raw u item e found v4 h) (λ x bad. tt))
                        (λ x v bad. tt))
                    (λ empty. tt))
                (λ x v bad. tt))
            (λ x v bad. tt))
        (λ x v bad. tt)

  process-Settles :
      (raw : Text) (u : Uuid) (w : World s o)
      → uuid_parse raw ≡ some u
      → Settles u (process s o settings raw w)
  unfolding process
  process-Settles raw u w h = elim (Option-cases (item_row u w.items)) [
    | inl gone ↦
        rw
          (bind_ok (get_item s o raw) (process_found s o settings raw) w w none
            (get_item-row raw u w none h gone))
          (inl gone)
    | inr (r, here) ↦
        rw
          (bind_ok (get_item s o raw) (process_found s o settings raw) w w (some (view_of r))
            (get_item-row raw u w (some r) h here))
          (elim (Bool-cases (str_eq r.status "indexed")) [
            | inl ready ↦ rw ready (inr (r, here, ready))
            | inr waiting ↦ rw waiting (ingest-Settles raw u (view_of r) w h)
          ])
  ]

  -- What a second delivery of a job comes to, by what the first one came to.
  abbrev pub IsIdempotent : Text → Result WorkerError Outcome × World s o → Type 0
  IsIdempotent raw (ok was_indexed, v) = process s o settings raw v ≡ (ok was_skipped, v)
  IsIdempotent raw (ok was_skipped, v) = process s o settings raw v ≡ (ok was_skipped, v)
  IsIdempotent raw (ok (was_duplicate d), v) = Unit
  IsIdempotent raw (err e, v) = Unit

  settled-Idempotent :
      (raw : Text) (u : Uuid) (p : Result WorkerError Outcome × World s o)
      → uuid_parse raw ≡ some u
      → Settles u p
      → IsIdempotent raw p
  settled-Idempotent raw u (ok was_indexed, v) h k = process-Redelivered raw u v h k
  settled-Idempotent raw u (ok was_skipped, v) h k = process-Redelivered raw u v h k
  settled-Idempotent raw u (ok (was_duplicate d), v) h k = tt
  settled-Idempotent raw u (err e, v) h k = tt

  -- A job that was indexed or skipped can be delivered again: the second delivery is skipped, and it
  -- changes neither the item, the vectors, the index version, nor the queues.
  pub process-IsIdempotent :
      (raw : Text) (u : Uuid) (w : World s o)
      → uuid_parse raw ≡ some u
      → IsIdempotent raw (process s o settings raw w)
  process-IsIdempotent raw u w h =
      settled-Idempotent raw u (process s o settings raw w) h (process-Settles raw u w h)
