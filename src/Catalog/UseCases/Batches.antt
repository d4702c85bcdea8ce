-- ===== src/Catalog/UseCases/Batches.antt =====
-- BatchRegisterCatalogItems: the outputs of a batch and its external ids.
use mathlib.Core.Path.{subst}
use cbir_engine.Base.{
  Bool-cases, Exec, List, Option, Result, Text, [], any, err, false, inl, inr, is_some, none, not,
  ok, refl, require, some, str_eq, ◌∷◌, ◌≡◌,
}
use cbir_engine.Base.Effects.{followed}
use cbir_engine.Catalog.Gateways.{items_add, items_get_by_external_id}
use cbir_engine.Catalog.Items.{CatalogError, duplicate_external_id, unsupported_content_type}
use cbir_engine.Catalog.Ports.{
  CatalogSettings, Outside, RegisterItemInput, RegisteredItemOutput, World,
}
use cbir_engine.Catalog.UseCases.{
  batch_register, claim_external_id, register_one, seen_member, tenant_id_of,
}
use cbir_engine.Kernel.TenantId.{TenantId}
use cbir_engine.Kernel.Uuid.{Uuid, uuid_str}

module _ (o : Outside) where
  -- What every success of an action has.
  abbrev pub Succeeds : {A : Type 0} → (A → Type 0) → Result CatalogError A × World o → Type 0
  Succeeds P (ok a, v) = P a
  Succeeds P (err e, v) = Unit

  followed-Succeeds :
      {A B : Type 0} (P : A → Type 0) (Q : B → Type 0) (f : A → Exec (World o) CatalogError B)
      (p : Result CatalogError A × World o)
      → Succeeds P p
      → ((a : A) (v : World o) → P a → Succeeds Q (f a v))
      → Succeeds Q (followed f p)
  followed-Succeeds P Q f (ok a, v) h k = k a v h
  followed-Succeeds P Q f (err e, v) h k = tt

  anything : {A : Type 0} (p : Result CatalogError A × World o) → Succeeds (λ (a : A). Unit {0}) p
  anything (ok a, v) = tt
  anything (err e, v) = tt

  -- The external ids seen after an item, and what the item's own may not be.
  abbrev pub with_seen : Option Text → List Text → List Text
  with_seen none seen = seen
  with_seen (some e) seen = e ∷ seen

  abbrev pub IsUnseen : Option Text → List Text → Type 0
  IsUnseen none seen = Unit
  IsUnseen (some e) seen = seen_member e seen ≡ false

  claim_external_id-IsUnseen :
      (t : TenantId) (ext : Option Text) (seen : List Text) (w : World o)
      → Succeeds
          (λ seen'. (seen' ≡ with_seen ext seen) × IsUnseen ext seen)
          (claim_external_id o t ext seen w)
  claim_external_id-IsUnseen t none seen w = (refl, tt)
  claim_external_id-IsUnseen t (some e) seen w = elim (Bool-cases (seen_member e seen)) [
    | inl dup ↦ rw (dup, followed) tt
    | inr new ↦
        rw (new, followed)
          (followed-Succeeds (λ other. Unit {0}) _ _ (items_get_by_external_id o t e w) (anything _)
            (λ other v h.
              followed-Succeeds (λ (u : Unit {0}). Unit {0}) _ _
                (require (not (is_some other)) (duplicate_external_id e) v) (anything _)
                (λ u v' k. (refl, refl))))
  ]

  -- The output of one item: it carries the id that was drawn and what the caller described.
  abbrev pub IsOutputFor : Uuid × RegisterItemInput → RegisteredItemOutput → Type 0
  IsOutputFor d out =
      (out.item.id ≡ uuid_str d.0)
      × (out.item.external_id ≡ d.1.external_id)
      × (out.item.content_type ≡ d.1.content_type)
      × (out.item.metadata ≡ d.1.metadata)
      × (out.item.status ≡ "pending_upload")

  register_one-Succeeds :
      (settings : CatalogSettings) (fresh : Uuid) (d : RegisterItemInput) (seen : List Text)
      (w : World o)
      → Succeeds
          (λ (r : RegisteredItemOutput × List Text).
            IsOutputFor (fresh, d) r.0
            × (r.1 ≡ with_seen d.external_id seen)
            × IsUnseen d.external_id seen)
          (register_one o settings fresh d seen w)
  unfolding register_one
  register_one-Succeeds settings fresh d seen w =
      followed-Succeeds (λ (u : Unit {0}). Unit {0}) _ _
        (require (any (λ c. str_eq c d.content_type) settings.allowed_content_types)
          (unsupported_content_type d.content_type) w)
        (anything _)
        (λ u v h.
          followed-Succeeds (λ (t : TenantId). Unit {0}) _ _ (tenant_id_of d.tenant_id, v)
            (anything _)
            (λ t v' h'.
              followed-Succeeds
                (λ seen'. (seen' ≡ with_seen d.external_id seen) × IsUnseen d.external_id seen) _ _
                (claim_external_id o t d.external_id seen v')
                (claim_external_id-IsUnseen t d.external_id seen v')
                (λ seen' x claimed.
                  followed-Succeeds (λ (u : Unit {0}). Unit {0}) _ _ (items_add o _ x) (anything _)
                    (λ u' y k. ((refl, refl, refl, refl, refl), claimed.0, claimed.1)))))

  -- One output per item, in the order of the items, and no external id twice.
  abbrev pub IsBatch :
      List (Uuid × RegisterItemInput) → List Text → List RegisteredItemOutput → Type 0
  IsBatch [] seen [] = Unit
  IsBatch [] seen (out ∷ outs) = ⊥
  IsBatch (d ∷ ds) seen [] = ⊥
  IsBatch (d ∷ ds) seen (out ∷ outs) =
      IsOutputFor d out
      × IsUnseen d.1.external_id seen
      × IsBatch ds (with_seen d.1.external_id seen) outs

  -- A batch that succeeds returns one output per item, in the order of the items, each with the id,
  -- the external id, the content type and the metadata of its item and awaiting its upload; and no
  -- external id stands in two items of the batch.
  pub batch_register-IsBatch :
      (settings : CatalogSettings) (ds : List (Uuid × RegisterItemInput)) (seen : List Text)
      (w : World o)
      → Succeeds (IsBatch ds seen) (batch_register o settings ds seen w)
  unfolding batch_register
  batch_register-IsBatch settings [] seen w = tt
  batch_register-IsBatch settings ((fresh, d) ∷ ds) seen w =
      followed-Succeeds
        (λ (r : RegisteredItemOutput × List Text).
          IsOutputFor (fresh, d) r.0
          × (r.1 ≡ with_seen d.external_id seen)
          × IsUnseen d.external_id seen)
        (IsBatch ((fresh, d) ∷ ds) seen) _ (register_one o settings fresh d seen w)
        (register_one-Succeeds settings fresh d seen w)
        (λ r v h.
          followed-Succeeds (IsBatch ds r.1) (IsBatch ((fresh, d) ∷ ds) seen) _
            (batch_register o settings ds r.1 v) (batch_register-IsBatch settings ds r.1 v)
            (λ outs x k. (h.0, h.2, subst (λ z. IsBatch ds z outs) h.1 k)))
