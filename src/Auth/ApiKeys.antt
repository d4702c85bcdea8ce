-- ===== src/Auth/ApiKeys.antt =====
-- auth_service/application/use_cases/api_keys.py: issue, rotate, revoke, list.
pub mod Revocation
pub mod Rotation
pub mod Issuing
use cbir_engine.Auth.Credentials.{AuthSettings}
use cbir_engine.Auth.Entities.{ApiKey, Time, after, after_days, second}
use cbir_engine.Auth.Gateways.{
  World, clock_now, keys_add, keys_get, keys_list_for_tenant, keys_update, tenants_get,
}
use cbir_engine.Auth.Ports.{ApiKeyMetadataOutput, IssueApiKeyInput, IssuedApiKeyOutput, Outside}
use cbir_engine.Auth.RateLimit.{revoke}
use cbir_engine.Auth.Secrets.{issue_secret}
use cbir_engine.Auth.Tenants.{found_tenant, known_tenant_id}
use cbir_engine.Auth.ValueObjects.{
  ApiKeyStatus, AuthError, api_key_not_found, api_key_status_value, default_rate_limit,
  default_scopes, grace, make_rate_limit_policy, revoked, validate_scopes,
}
use cbir_engine.Base.{
  Bool, Exec, List, Option, Result, String, Text, [], codes, err, false, if◌then◌else◌, is_blank,
  lift, map, none, ok, or_else, pure, require, some, true, ℤ, ◌*◌, ◌>>=◌, ◌>>◌, ◌∷◌,
}
use cbir_engine.Base.Strings.{strip}
use cbir_engine.Kernel.TenantId.{tenant_str}
use cbir_engine.Kernel.Uuid.{Uuid, uuid_parse, uuid_str}

abbrev pub present_key_metadata : ApiKey → ApiKeyMetadataOutput
present_key_metadata k = record {
  id = uuid_str k.id;
  tenant_id = tenant_str k.tenant_id;
  name = k.name;
  scopes = k.scopes;
  status = api_key_status_value k.status;
  rate_limit_per_minute = k.rate_limit.requests_per_minute;
  created_at = k.created_at;
  expires_at = k.expires_at;
  grace_expires_at = k.grace_expires_at;
  revoked_at = k.revoked_at;
  rotated_from_id = elim k.rotated_from_id [ none ↦ none | some u ↦ some (uuid_str u) ];
}

-- `tuple(data.scopes) if data.scopes else DEFAULT_SCOPES`
abbrev pub requested_scopes : Option (List String) → List String
requested_scopes none = default_scopes
requested_scopes (some []) = default_scopes
requested_scopes (some (s ∷ ss)) = s ∷ ss

-- `data.name.strip() or "default"`
abbrev pub key_name : Text → Text
key_name raw = let name = strip raw in if is_blank name then codes "default" else name

abbrev pub expiry : Time → Option ℤ → Result AuthError (Option Time)
expiry now none = ok none
expiry now (some d) = elim (after_days now d) [ ok t ↦ ok (some t) | err e ↦ err e ]

abbrev pub found_key : Text → Option ApiKey → Result AuthError ApiKey
found_key raw none = err (api_key_not_found raw)
found_key raw (some k) = ok k

abbrev pub key_uuid : Text → Result AuthError Uuid
key_uuid raw = elim (uuid_parse raw) [ some u ↦ ok u | none ↦ err (api_key_not_found raw) ]

abbrev pub is_active_status : ApiKeyStatus → Bool
is_active_status ApiKeyStatus.active = true
is_active_status _ = false

module _ (o : Outside) where
  unfoldable pub get_key_or_raise : Text → Exec (World o.Redis) AuthError ApiKey
  get_key_or_raise raw = do u ← lift (key_uuid raw); found ← keys_get u; lift (found_key raw found)

  -- IssueApiKey.execute; `fresh` and `secret` are the values of uuid4 and token_hex
  unfoldable pub issue_api_key :
      Uuid → Text → IssueApiKeyInput → Exec (World o.Redis) AuthError IssuedApiKeyOutput
  issue_api_key fresh secret d = do
    tenant_id ← lift (known_tenant_id d.tenant_id)
    found ← tenants_get tenant_id
    tenant ← lift (found_tenant d.tenant_id found)
    scopes ← lift (validate_scopes (requested_scopes d.scopes))
    rate_limit ←
        lift (
          make_rate_limit_policy (or_else d.rate_limit_per_minute (default_rate_limit tenant.tier)))
    now ← clock_now
    let issued = issue_secret o.sha256 fresh secret
    expires_at ← lift (expiry now d.expires_in_days)
    let key : ApiKey = record {
      id = issued.key_id;
      tenant_id = tenant_id;
      name = key_name d.name;
      secret_hash = issued.secret_hash;
      scopes = scopes;
      status = ApiKeyStatus.active;
      rate_limit = rate_limit;
      created_at = now;
      expires_at = expires_at;
      grace_expires_at = none;
      revoked_at = none;
      rotated_from_id = none;
    }
    keys_add key
    pure (record { api_key = issued.full_key; metadata = present_key_metadata key })

  -- RotateApiKey.execute
  unfoldable pub rotate_api_key :
      AuthSettings → Uuid → Text → Text → Exec (World o.Redis) AuthError IssuedApiKeyOutput
  rotate_api_key settings fresh secret raw = do
    old ← get_key_or_raise raw
    require (is_active_status old.status) (api_key_not_found raw)
    now ← clock_now
    grace_end ← lift (after now (settings.api_key_grace_seconds * second))
    keys_update (record old { status = grace; grace_expires_at = some grace_end })
    let issued = issue_secret o.sha256 fresh secret
    let replacement : ApiKey = record {
      id = issued.key_id;
      tenant_id = old.tenant_id;
      name = old.name;
      secret_hash = issued.secret_hash;
      scopes = old.scopes;
      status = ApiKeyStatus.active;
      rate_limit = old.rate_limit;
      created_at = now;
      expires_at = old.expires_at;
      grace_expires_at = none;
      revoked_at = none;
      rotated_from_id = some old.id;
    }
    keys_add replacement
    pure (record { api_key = issued.full_key; metadata = present_key_metadata replacement })

  -- RevokeApiKey.execute
  unfoldable pub revoke_api_key :
      AuthSettings → Text → Exec (World o.Redis) AuthError ApiKeyMetadataOutput
  revoke_api_key settings raw = do
    old ← get_key_or_raise raw
    now ← clock_now
    let key : ApiKey = record old { status = revoked; revoked_at = some now }
    keys_update key
    revoke o settings.access_token_ttl_seconds (uuid_str key.id)
    pure (present_key_metadata key)

  -- ListApiKeys.execute
  unfoldable pub list_api_keys : Text → Exec (World o.Redis) AuthError (List ApiKeyMetadataOutput)
  list_api_keys raw = do
    tenant_id ← lift (known_tenant_id raw)
    keys ← keys_list_for_tenant tenant_id
    pure (map present_key_metadata keys)
