-- ===== src/Catalog/Http.antt =====
-- catalog_service/interface_adapters/controllers and the unit of work of the composition root.
pub mod Routes
use cbir_engine.Base.{
  Bool, Exec, List, Result, Text, [], all, err, if◌then◌else◌, leb, length, ok, or_else, ℕ, ◌&&◌,
}
use cbir_engine.Catalog.Items.{
  CatalogError, database_error, duplicate_external_id, integrity_error, item_not_found,
  object_storage_error, queue_error, unsupported_content_type, upload_not_confirmable, value_error,
}
use cbir_engine.Catalog.Ports.{
  CatalogSettings, ItemOutput, Outside, RegisterItemInput, RegisteredItemOutput, World,
}
use cbir_engine.Catalog.UseCases.{
  batch_register, confirm_upload, delete_item, register_item, submit_feedback,
}
use cbir_engine.Kernel.Uuid.{Uuid}

pub data Response (A : Type 0) : Type 0 where
  success : ℕ → A → Response A
  failure : ℕ → Response A

-- register_error_handlers; an exception with no handler is a 500
unfoldable pub status_for : CatalogError → ℕ
status_for (item_not_found raw) = 404
status_for (duplicate_external_id e) = 409
status_for upload_not_confirmable = 409
status_for (unsupported_content_type c) = 422
status_for value_error = 422
status_for object_storage_error = 502
status_for integrity_error = 500
status_for queue_error = 500
status_for database_error = 500

abbrev pub respond : {A : Type 0} → ℕ → Result CatalogError A → Response A
respond s (ok a) = success s a
respond s (err e) = failure (status_for e)

module _ (o : Outside) where
  -- The tables of `before`, with the object store and the queue as they are now.
  abbrev pub rolled_back : World o → World o → World o
  rolled_back before w = record w {
    items = before.items;
    embedding_refs = before.embedding_refs;
    feedback = before.feedback;
  }

  abbrev pub finish :
      {A : Type 0} → World o → Result CatalogError A × World o → Result CatalogError A × World o
  finish before (ok a, w) = (ok a, w)
  finish before (err e, w) = (err e, rolled_back before w)

  -- The session is committed after the block, or rolled back.
  unfoldable pub unit_of_work :
      {A : Type 0} → Exec (World o) CatalogError A → Exec (World o) CatalogError A
  unit_of_work m w = finish w (m w)

  abbrev pub handle :
      {A : Type 0} → ℕ → Exec (World o) CatalogError A → World o → Response A × World o
  handle s m w = let (r, w') = unit_of_work m w in (respond s r, w')

  abbrev pub valid_external_id : RegisterItemInput → Bool
  valid_external_id d = leb (length (or_else d.external_id [])) 500

  -- POST /v1/items/batch, whose items are those of the caller's tenant
  unfoldable pub post_batch :
      CatalogSettings
      → List (Uuid × RegisterItemInput)
      → World o
      → Response (List RegisteredItemOutput) × World o
  post_batch settings ds w =
      if leb 1 (length ds)
        && leb (length ds) 1000
        && all (λ (d : Uuid × RegisterItemInput). valid_external_id d.1) ds
      then handle 201 (batch_register o settings ds []) w
      else (failure 422, w)

  -- POST /v1/items
  unfoldable pub post_item :
      CatalogSettings → Uuid → RegisterItemInput → World o → Response RegisteredItemOutput × World o
  post_item settings fresh d w =
      if valid_external_id d
      then handle 201 (register_item o settings fresh d) w
      else (failure 422, w)

  -- POST /v1/items/{item_id}/confirm
  unfoldable pub post_confirm : Text → Text → World o → Response ItemOutput × World o
  post_confirm tenant_id raw = handle 200 (confirm_upload o tenant_id raw)

  -- DELETE /v1/items/{item_id}
  unfoldable pub delete_request : Text → Text → World o → Response (Unit {0}) × World o
  delete_request tenant_id raw = handle 204 (delete_item o tenant_id raw)

  -- POST /v1/feedback
  unfoldable pub post_feedback :
      Uuid → Text → Text → Text → Bool → World o → Response Text × World o
  post_feedback fresh tenant_id raw query_ref relevant w =
      if leb 1 (length query_ref) && leb (length query_ref) 500
      then handle 201 (submit_feedback o fresh tenant_id raw query_ref relevant) w
      else (failure 422, w)
