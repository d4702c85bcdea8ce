-- ===== src/Catalog/UseCases/Deletion.antt =====
-- DeleteCatalogItem: what is left of an item, and what its tenant reads then.
use cbir_engine.Base.{
  Bool, Bool-cases, List, Text, [], any, arith, err, false, find_first, inl, inr, none, not, ok,
  refl, select, some, true, ◌==◌, ◌∷◌, ◌≡◌,
}
use cbir_engine.Base.Effects.{followed}
use cbir_engine.Catalog.Gateways.{items_delete, items_get, owned_by}
use cbir_engine.Catalog.Items.{
  CatalogItem, EmbeddingRefRow, FeedbackRow, item_not_found, item_to_row,
}
use cbir_engine.Catalog.Ports.{Outside, World, served}
use cbir_engine.Catalog.Storage.{delete_stored}
use cbir_engine.Catalog.UseCases.{delete_item, get_item_or_raise}
use cbir_engine.Catalog.UseCases.Confirmation.{get_item_or_raise-row}
use cbir_engine.Kernel.TenantId.{TenantId, parse_tenant}
use cbir_engine.Kernel.Uuid.{Uuid, uuid_parse}

module _ (o : Outside) where
  find_first-select-not :
      {A : Type 0} (p : A → Bool) (xs : List A) → find_first p (select (λ x. not (p x)) xs) ≡ none
  find_first-select-not p [] = refl
  find_first-select-not p (x ∷ xs) = elim (Bool-cases (p x)) [
    | inl e ↦ rw e (find_first-select-not p xs)
    | inr e ↦ rw e (rw e (find_first-select-not p xs))
  ]

  any-find_first :
      {A : Type 0} (p : A → Bool) (xs : List A) (a : A) → find_first p xs ≡ some a → any p xs ≡ true
  any-find_first p [] a h = cc
  any-find_first p (x ∷ xs) a h = ground (arith, any-find_first p xs a)

  any-select-not :
      {A : Type 0} (p : A → Bool) (xs : List A) → any p (select (λ x. not (p x)) xs) ≡ false
  any-select-not p [] = refl
  any-select-not p (x ∷ xs) = elim (Bool-cases (p x)) [
    | inl e ↦ rw e (any-select-not p xs)
    | inr e ↦ rw e (rw e (any-select-not p xs))
  ]

  get_item_or_raise-Gone :
      (t : TenantId) (tenant_id raw : Text) (u : Uuid) (w : World o)
      → uuid_parse raw ≡ some u
      → parse_tenant tenant_id ≡ some t
      → find_first (owned_by t u) w.items ≡ none
      → get_item_or_raise o tenant_id raw w ≡ (err (item_not_found raw), w)
  unfolding get_item_or_raise items_get
  get_item_or_raise-Gone t tenant_id raw u w named known row =
      rw (named, followed) (rw (known, followed) (rw (row, followed) refl))

  abbrev pub with_deleted : TenantId → CatalogItem → World o → World o
  with_deleted t i w = record w {
    items = select (λ r. not (owned_by t i.id r)) w.items;
    embedding_refs = select (λ (r : EmbeddingRefRow). not (r.item_id == i.id)) w.embedding_refs;
    feedback = select (λ (r : FeedbackRow). not (r.item_id == i.id)) w.feedback;
    store = (o.delete_object i.object_key w.store).1;
  }

  delete_item-Stores :
      (t : TenantId) (tenant_id raw : Text) (i : CatalogItem) (w : World o)
      → uuid_parse raw ≡ some i.id
      → parse_tenant tenant_id ≡ some t
      → find_first (owned_by t i.id) w.items ≡ some (item_to_row i)
      → (o.delete_object i.object_key w.store).0 ≡ served tt
      → delete_item o tenant_id raw w ≡ (ok tt, with_deleted t i w)
  unfolding delete_item delete_stored items_delete
  delete_item-Stores t tenant_id raw i w named known row removed =
      rw (get_item_or_raise-row o t tenant_id raw i w named known row, followed)
        (rw (removed, followed)
          (rw (known, followed)
            (rw (any-find_first (owned_by t i.id) w.items (item_to_row i) row, followed) refl)))

  -- A delete that object storage takes returns; the tenant then reads the item as not found, and no
  -- reference to an embedding and no feedback of it is left.
  pub delete_item-Removes :
      (t : TenantId) (tenant_id raw : Text) (i : CatalogItem) (w : World o)
      → uuid_parse raw ≡ some i.id
      → parse_tenant tenant_id ≡ some t
      → find_first (owned_by t i.id) w.items ≡ some (item_to_row i)
      → (o.delete_object i.object_key w.store).0 ≡ served tt
      → (v : World o) × (delete_item o tenant_id raw w ≡ (ok tt, v))
        × (get_item_or_raise o tenant_id raw v ≡ (err (item_not_found raw), v))
        × (any (λ (r : EmbeddingRefRow). r.item_id == i.id) v.embedding_refs ≡ false)
        × (any (λ (r : FeedbackRow). r.item_id == i.id) v.feedback ≡ false)
  delete_item-Removes t tenant_id raw i w named known row removed = (
    with_deleted t i w,
    delete_item-Stores t tenant_id raw i w named known row removed,
    get_item_or_raise-Gone t tenant_id raw i.id (with_deleted t i w) named known
        (find_first-select-not (owned_by t i.id) w.items),
    any-select-not (λ (r : EmbeddingRefRow). r.item_id == i.id) w.embedding_refs,
    any-select-not (λ (r : FeedbackRow). r.item_id == i.id) w.feedback,
  )
