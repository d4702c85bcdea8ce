-- ===== src/Catalog/Http/Routes.antt =====
-- catalog_service/interface_adapters/controllers: the handlers with the responses that they present.
use cbir_engine.Base.{List, Option, String, Text, map, ℤ}
use cbir_engine.Catalog.Http.{
  Response, failure, handle, post_batch, post_confirm, post_item, success,
}
use cbir_engine.Catalog.Ports.{CatalogSettings, Outside, RegisterItemInput, World}
use cbir_engine.Catalog.Presenters.{
  BatchRegisteredResponse, ItemResponse, ItemWithDownloadResponse, RegisteredItemResponse,
  present_batch, present_item, present_item_with_download, present_registered,
}
use cbir_engine.Catalog.UseCases.{get_item, list_items}
use cbir_engine.Kernel.Uuid.{Uuid}

abbrev pub rendered : {A B S : Type 0} → (A → B) → Response A × S → Response B × S
rendered f (success s a, w) = (success s (f a), w)
rendered f (failure s, w) = (failure s, w)

module _ (o : Outside) (settings : CatalogSettings) where
  -- GET /v1/items
  unfoldable pub list_route :
      Text → ℤ → ℤ → Option String → World o → Response (List ItemResponse) × World o
  list_route tenant_id limit offset status w =
      rendered (map present_item) (handle o 200 (list_items o tenant_id limit offset status) w)

  -- GET /v1/items/{item_id}
  unfoldable pub get_route : Text → Text → World o → Response ItemWithDownloadResponse × World o
  get_route tenant_id raw w =
      rendered present_item_with_download (handle o 200 (get_item o settings tenant_id raw) w)

  -- POST /v1/items
  unfoldable pub register_route :
      Uuid → RegisterItemInput → World o → Response RegisteredItemResponse × World o
  register_route fresh d w = rendered present_registered (post_item o settings fresh d w)

  -- POST /v1/items/batch
  unfoldable pub batch_route :
      List (Uuid × RegisterItemInput) → World o → Response BatchRegisteredResponse × World o
  batch_route ds w = rendered present_batch (post_batch o settings ds w)

  -- POST /v1/items/{item_id}/confirm
  unfoldable pub confirm_route : Text → Text → World o → Response ItemResponse × World o
  confirm_route tenant_id raw w = rendered present_item (post_confirm o tenant_id raw w)
