-- ===== src/Catalog/Fixtures.antt =====
-- An item, a world that holds it and an object store that answers every request.
use cbir_engine.Base.{List, [], codes, none, some, true, ◌∷◌}
use cbir_engine.Catalog.Items.{CatalogItem, item_to_row, pending_upload}
use cbir_engine.Catalog.Ports.{CatalogSettings, Outside, World, served}
use cbir_engine.Kernel.Json.{JsonText}
use cbir_engine.Kernel.TenantId.{TenantId}

abbrev pub bucket : Outside
bucket = record {
  Store = Unit {0};
  Queue = List JsonText;
  head_object = λ key s. served 42;
  delete_object = λ key s. (served tt, s);
  presign = λ action key content_type ttl. key;
  lpush = λ payload q. (true, payload ∷ q);
}

abbrev pub owner : TenantId
owner = record { value = 5 }

abbrev pub photo : CatalogItem
photo = record {
  id = 9;
  tenant_id = record { value = 5 };
  object_key = codes "photo";
  content_type = "image/png";
  status = pending_upload;
  metadata = [];
  external_id = some (codes "sku-1");
  size_bytes = none;
  phash = none;
  duplicate_of_id = none;
  failure_reason = none;
  indexed_at = none;
  created_at = 1;
  updated_at = 1;
}

abbrev pub shelf : World bucket
shelf = record {
  items = item_to_row photo ∷ [];
  embedding_refs =
      record {
        id = 1;
        item_id = 9;
        vector_db_collection = [];
        vector_id = [];
        model_version = "m";
        created_at = 1;
      }
      ∷ [];
  feedback = [];
  store = tt;
  queue = [];
  now = 7;
}

abbrev pub shop : CatalogSettings
shop = record {
  allowed_content_types = "image/png" ∷ [];
  upload_url_ttl_seconds = 900;
  download_url_ttl_seconds = 900;
}
