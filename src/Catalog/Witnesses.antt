-- ===== src/Catalog/Witnesses.antt =====
-- Concrete runs of catalog-service: an object store that has everything, and one item.
use cbir_engine.Base.{
  List, [], any, arith, codes, err, false, none, ok, refl, some, text_eq, ◌==◌, ◌∷◌, ◌≡◌,
}
use cbir_engine.Catalog.Fixtures.{bucket, owner, photo, shelf, shop}
use cbir_engine.Catalog.Gateways.{items_get_by_external_id}
use cbir_engine.Catalog.Items.{
  CatalogItem, EmbeddingRefRow, FeedbackRow, is_queueable, item_not_found, pending_upload, queued,
}
use cbir_engine.Catalog.Ports.{ItemOutput, RegisterItemInput, RegisteredItemOutput, World}
use cbir_engine.Catalog.Storage.{job_payload}
use cbir_engine.Catalog.UseCases.{
  batch_register, confirm_upload, delete_item, get_item_or_raise, object_key_for, present,
  register_item,
}
use cbir_engine.Catalog.UseCases.Batches.{IsBatch, Succeeds, batch_register-IsBatch}
use cbir_engine.Catalog.UseCases.Confirmation.{confirm_upload-Queues, job_of_item}
use cbir_engine.Catalog.UseCases.Deletion.{delete_item-Removes}
use cbir_engine.Catalog.UseCases.Registration.{register_item-Readable}
use cbir_engine.Kernel.TenantId.{parse_tenant-tenant_str, tenant_str}
use cbir_engine.Kernel.Uuid.{Uuid, uuid_hex, uuid_str}
use cbir_engine.Kernel.Uuid.RoundTrip.{uuid_parse-uuid_str}

confirm_upload-Queues_example :
    (out : ItemOutput) × (v : World bucket) × (i' : CatalogItem) × (confirm_upload bucket
        (tenant_str owner)
        (uuid_str 9)
        shelf
      ≡ (ok out, v))
    × (out ≡ present i')
    × (i'.status ≡ queued)
    × (i'.size_bytes ≡ some 42)
    × (v.queue ≡ job_payload (job_of_item bucket photo) ∷ [])
    × (get_item_or_raise bucket (tenant_str owner) (uuid_str 9) v ≡ (ok i', v))
unfolding is_queueable
confirm_upload-Queues_example =
    confirm_upload-Queues bucket owner (tenant_str owner) (uuid_str 9) photo 42 shelf refl
      (uuid_parse-uuid_str 9 (omega arith)) (parse_tenant-tenant_str owner (omega arith)) refl refl
      refl refl

delete_item-Removes_example :
    (v : World bucket) × (delete_item bucket (tenant_str owner) (uuid_str 9) shelf ≡ (ok tt, v))
    × (get_item_or_raise bucket (tenant_str owner) (uuid_str 9) v
        ≡ (err (item_not_found (uuid_str 9)), v))
    × (any (λ (r : EmbeddingRefRow). r.item_id == 9) v.embedding_refs ≡ false)
    × (any (λ (r : FeedbackRow). r.item_id == 9) v.feedback ≡ false)
delete_item-Removes_example =
    delete_item-Removes bucket owner (tenant_str owner) (uuid_str 9) photo shelf
      (uuid_parse-uuid_str 9 (omega arith)) (parse_tenant-tenant_str owner (omega arith)) refl refl

abbrev twice : List (Uuid × RegisterItemInput)
twice =
    (
      20,
      record {
        tenant_id = codes "x";
        content_type = "image/png";
        metadata = [];
        external_id = none;
      },
    )
    ∷ []

abbrev new_photo : RegisterItemInput
new_photo = record {
  tenant_id = tenant_str owner;
  content_type = "image/png";
  metadata = [];
  external_id = some (codes "sku-2");
}

register_item-Readable_example :
    (out : RegisteredItemOutput) × (v : World bucket) × (i : CatalogItem) × (register_item bucket
        shop 20 new_photo shelf
      ≡ (ok out, v))
    × (out.item ≡ present i)
    × (i.status ≡ pending_upload)
    × (get_item_or_raise bucket new_photo.tenant_id out.item.id v ≡ (ok i, v))
unfolding items_get_by_external_id text_eq codes object_key_for uuid_str uuid_hex
register_item-Readable_example =
    register_item-Readable bucket shop 20 new_photo owner (codes "sku-2" ∷ []) shelf (omega arith)
      refl (parse_tenant-tenant_str owner (omega arith)) refl refl

abbrev pair : List (Uuid × RegisterItemInput)
pair = (20, new_photo) ∷ (21, record new_photo { external_id = none }) ∷ []

batch_register-IsBatch_example :
    Succeeds bucket (IsBatch bucket pair []) (batch_register bucket shop pair [] shelf)
batch_register-IsBatch_example = batch_register-IsBatch bucket shop pair [] shelf
