-- ===== src/Auth/Http/Routes.antt =====
-- auth_service/interface_adapters/controllers: the routes with the responses that they present, and
-- the handlers that only read.
use cbir_engine.Auth.ApiKeys.{list_api_keys}
use cbir_engine.Auth.Credentials.{AuthSettings}
use cbir_engine.Auth.Gateways.{World}
use cbir_engine.Auth.Http.{Response, failure, guarded, handle, issue_token, success, validate}
use cbir_engine.Auth.Ports.{Outside}
use cbir_engine.Auth.Presenters.{
  AccessTokenResponse, ApiKeyMetadataResponse, TenantResponse, ValidatedContextResponse,
  access_token_response, auth_context_response, key_metadata_response, tenant_response,
}
use cbir_engine.Auth.Tenants.{get_tenant, list_tenants}
use cbir_engine.Base.{List, Option, Text, map, ℤ}

abbrev pub rendered : {A B S : Type 0} → (A → B) → Response A × S → Response B × S
rendered f (success s a, w) = (success s (f a), w)
rendered f (failure e, w) = (failure e, w)

module _ (o : Outside) (settings : AuthSettings) where
  -- GET /admin/tenants
  unfoldable pub get_tenants :
      Text → ℤ → ℤ → World o.Redis → Response (List TenantResponse) × World o.Redis
  get_tenants token limit offset w =
      rendered (map tenant_response)
        (guarded settings token (handle 200 (list_tenants limit offset)) w)

  -- GET /admin/tenants/{tenant_id}
  unfoldable pub get_one_tenant :
      Text → Text → World o.Redis → Response TenantResponse × World o.Redis
  get_one_tenant token raw w =
      rendered tenant_response (guarded settings token (handle 200 (get_tenant raw)) w)

  -- GET /admin/tenants/{tenant_id}/api-keys
  unfoldable pub get_api_keys :
      Text → Text → World o.Redis → Response (List ApiKeyMetadataResponse) × World o.Redis
  get_api_keys token raw w =
      rendered (map key_metadata_response)
        (guarded settings token (handle 200 (list_api_keys o raw)) w)

  -- POST /internal/validate
  unfoldable pub validate_route :
      Option Text → Text → World o.Redis → Response ValidatedContextResponse × World o.Redis
  validate_route api_key authorization w =
      rendered auth_context_response (validate o settings api_key authorization w)

  -- POST /v1/auth/token
  unfoldable pub token_route : Text → World o.Redis → Response AccessTokenResponse × World o.Redis
  token_route api_key w = rendered access_token_response (issue_token o settings api_key w)
