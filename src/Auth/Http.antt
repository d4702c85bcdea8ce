-- ===== src/Auth/Http.antt =====
-- auth_service/interface_adapters/controllers and the unit of work of the composition root: what a
-- request does, and the response that an exception becomes.
pub mod Routes
use cbir_engine.Auth.ApiKeys.{issue_api_key, revoke_api_key, rotate_api_key}
use cbir_engine.Auth.Credentials.{
  AuthSettings, issue_access_token, validate_access_token, validate_api_key,
}
use cbir_engine.Auth.Gateways.{World}
use cbir_engine.Auth.Ports.{
  AccessTokenOutput, ApiKeyMetadataOutput, AuthContextOutput, CreateTenantInput, IssueApiKeyInput,
  IssuedApiKeyOutput, Outside, TenantOutput,
}
use cbir_engine.Auth.Tenants.{create_tenant}
use cbir_engine.Auth.ValueObjects.{
  AuthError, api_key_not_found, authentication_error, database_error, integrity_error,
  overflow_error, rate_limit_exceeded, redis_error, tenant_name_conflict, tenant_not_found,
  unknown_scope, value_error,
}
use cbir_engine.Base.{
  Bool, Exec, Option, Result, Text, [], codes, drop, err, false, if◌then◌else◌, is_blank, leb,
  leb_ℤ, length, none, not, ok, or_else, pos, raise, some, text_eq, true, ℕ, ℤ, ◌&&◌,
}
use cbir_engine.Base.Strings.{lower, starts_with, strip}
use cbir_engine.Kernel.Uuid.{Uuid}

-- The part of an error response that clients act on.
pub record Failure : Type 0 where
  pub status : ℕ
  pub www_authenticate : Bool
  pub retry_after : Option ℕ

pub data Response (A : Type 0) : Type 0 where
  success : ℕ → A → Response A
  failure : Failure → Response A

abbrev pub plain : ℕ → Failure
plain status = record { status = status; www_authenticate = false; retry_after = none }

-- register_error_handlers; an exception with no handler is a 500
unfoldable pub failure_of : AuthError → Failure
failure_of (authentication_error reason) = record {
  status = 401;
  www_authenticate = true;
  retry_after = none;
}
failure_of (rate_limit_exceeded limit wait) = record {
  status = 429;
  www_authenticate = false;
  retry_after = some wait;
}
failure_of (tenant_not_found raw) = plain 404
failure_of (api_key_not_found raw) = plain 404
failure_of (tenant_name_conflict name) = plain 409
failure_of unknown_scope = plain 422
failure_of value_error = plain 422
failure_of overflow_error = plain 500
failure_of integrity_error = plain 500
failure_of redis_error = plain 500
failure_of database_error = plain 500

abbrev pub status_of : {A : Type 0} → Response A → ℕ
status_of (success s a) = s
status_of (failure f) = f.status

abbrev pub respond : {A : Type 0} → ℕ → Result AuthError A → Response A
respond s (ok a) = success s a
respond s (err e) = failure (failure_of e)

module _ {R A : Type 0} where
  abbrev pub finish : World R → Result AuthError A × World R → Result AuthError A × World R
  finish before (ok a, w) = (ok a, w)
  finish before (err e, w) = (err e, record w { tenants = before.tenants; keys = before.keys })

  -- The session is committed after the block, or rolled back; Redis keeps what was written.
  unfoldable pub unit_of_work : Exec (World R) AuthError A → Exec (World R) AuthError A
  unit_of_work m w = finish w (m w)

  abbrev pub handle : ℕ → Exec (World R) AuthError A → World R → Response A × World R
  handle s m w = let (r, w') = unit_of_work m w in (respond s r, w')

-- build_admin_guard
unfoldable pub admin_guard : AuthSettings → Text → Bool
admin_guard settings presented = not (is_blank presented) && text_eq presented settings.admin_token

abbrev pub guarded :
    {R A : Type 0}
    → AuthSettings
    → Text
    → (World R → Response A × World R)
    → World R
    → Response A × World R
guarded settings presented h w =
    if admin_guard settings presented then h w else (failure (plain 401), w)

-- The field constraints of CreateTenantRequest and IssueApiKeyRequest.
abbrev pub valid_tenant_request : CreateTenantInput → Bool
valid_tenant_request d = leb 1 (length d.name) && leb (length d.name) 200

abbrev pub at_least_one : Option ℤ → Bool
at_least_one none = true
at_least_one (some n) = leb_ℤ (pos 1) n

abbrev pub valid_key_request : IssueApiKeyInput → Bool
valid_key_request d =
    leb (length d.name) 200
    && at_least_one d.rate_limit_per_minute
    && at_least_one d.expires_in_days

module _ (o : Outside) (settings : AuthSettings) where
  unfoldable pub post_tenant :
      Text → Uuid → CreateTenantInput → World o.Redis → Response TenantOutput × World o.Redis
  post_tenant token fresh d = guarded settings token (λ w.
      if valid_tenant_request d
      then handle 201 (create_tenant fresh d) w
      else (failure (plain 422), w))

  unfoldable pub post_api_key :
      Text
      → Uuid
      → Text
      → IssueApiKeyInput
      → World o.Redis
      → Response IssuedApiKeyOutput × World o.Redis
  post_api_key token fresh secret d = guarded settings token (λ w.
      if valid_key_request d
      then handle 201 (issue_api_key o fresh secret d) w
      else (failure (plain 422), w))

  unfoldable pub post_rotate :
      Text → Uuid → Text → Text → World o.Redis → Response IssuedApiKeyOutput × World o.Redis
  post_rotate token fresh secret raw =
      guarded settings token (handle 201 (rotate_api_key o settings fresh secret raw))

  unfoldable pub post_revoke :
      Text → Text → World o.Redis → Response ApiKeyMetadataOutput × World o.Redis
  post_revoke token raw = guarded settings token (handle 200 (revoke_api_key o settings raw))

  abbrev pub bearer : Text
  bearer = codes "bearer "

  -- The branch of `validate` on the two headers; an absent Authorization is the empty text.
  abbrev pub validate_headers :
      Option Text → Text → Exec (World o.Redis) AuthError AuthContextOutput
  validate_headers api_key authorization =
      if not (is_blank (or_else api_key []))
      then validate_api_key o (or_else api_key [])
      else if starts_with (lower authorization) bearer
      then validate_access_token o settings (strip (drop 7 authorization))
      else raise
          (authentication_error "missing credentials: provide X-API-Key or Authorization: Bearer")

  -- POST /internal/validate
  unfoldable pub validate :
      Option Text → Text → World o.Redis → Response AuthContextOutput × World o.Redis
  validate api_key authorization = handle 200 (validate_headers api_key authorization)

  -- POST /v1/auth/token
  unfoldable pub issue_token : Text → World o.Redis → Response AccessTokenOutput × World o.Redis
  issue_token api_key = handle 200 (issue_access_token o settings api_key)
