-- ===== src/Auth/ApiKeys/Revocation.antt =====
-- RevokeApiKey, followed by the two ways of presenting a credential.
use cbir_engine.Auth.ApiKeys.{get_key_or_raise, present_key_metadata, revoke_api_key}
use cbir_engine.Auth.Credentials.{AuthSettings, validate_access_token, validate_api_key}
use cbir_engine.Auth.Credentials.Acceptance.{refusal, validate_api_key-Revoked}
use cbir_engine.Auth.Entities.{ApiKey, Time, second}
use cbir_engine.Auth.Gateways.{World, key_row, keys_update, merge_key}
use cbir_engine.Auth.Gateways.Lookup.{key_row-merge_key, keys_get-row}
use cbir_engine.Auth.Ports.{ApiKeyMetadataOutput, Outside, Payload}
use cbir_engine.Auth.RateLimit.{is_revoked, revoke, revoked_key, unix_time}
use cbir_engine.Auth.Rows.{api_key_to_row}
use cbir_engine.Auth.Secrets.{parse_full_key}
use cbir_engine.Auth.Tokens.{claims_of, jwt_audience, jwt_issuer, verify}
use cbir_engine.Auth.ValueObjects.{authentication_error, revoked}
use cbir_engine.Base.{Bool, String, Text, err, ok, refl, some, true, ℕ, ◌+◌, ◌/◌, ◌<◌, ◌≡◌, ◌≤◌}
use cbir_engine.Base.Effects.{followed}
use cbir_engine.Kernel.Uuid.{uuid_parse, uuid_str}

module _ (o : Outside) where
  abbrev pub revoked_form : ApiKey → Time → ApiKey
  revoked_form k now = record k { status = revoked; revoked_at = some now }

  -- What Redis answers when the revocation of a key is written.
  abbrev pub revocation : AuthSettings → ApiKey → World o.Redis → Bool × o.Redis
  revocation settings k w =
      o.setex (revoked_key o (uuid_str k.id)) (settings.access_token_ttl_seconds + 60)
        (unix_time o w) w.redis

  abbrev pub with_revoked : AuthSettings → ApiKey → World o.Redis → World o.Redis
  with_revoked settings k w = record w {
    keys = merge_key (api_key_to_row (revoked_form k w.now)) w.keys;
    redis = (revocation settings k w).1;
  }

  revoke_api_key-Stores :
      (settings : AuthSettings) (raw : Text) (k : ApiKey) (w : World o.Redis)
      → uuid_parse raw ≡ some k.id
      → key_row k.id w.keys ≡ some (api_key_to_row k)
      → 1 ≤ k.rate_limit.requests_per_minute
      → (revocation settings k w).0 ≡ true
      → revoke_api_key o settings raw w
        ≡ (ok (present_key_metadata (revoked_form k w.now)), with_revoked settings k w)
  unfolding revoke_api_key get_key_or_raise keys_update revoke
  revoke_api_key-Stores settings raw k w named row rate written =
      rw (named, followed)
        (rw (keys_get-row k.id k w row rate, followed) (rw (written, followed) refl))

  pub validate_api_key-revoke_api_key :
      (settings : AuthSettings) (raw presented secret : Text) (k : ApiKey) (w : World o.Redis)
      → uuid_parse raw ≡ some k.id
      → key_row k.id w.keys ≡ some (api_key_to_row k)
      → 1 ≤ k.rate_limit.requests_per_minute
      → (revocation settings k w).0 ≡ true
      → parse_full_key presented ≡ some (k.id, secret)
      → (m : ApiKeyMetadataOutput) × (v : World o.Redis) × (reason : String) × (revoke_api_key o
            settings raw w
          ≡ (ok m, v))
        × (validate_api_key o presented v ≡ (err (refusal o secret reason), v))
  validate_api_key-revoke_api_key settings raw presented secret k w named row rate written parsed =
      let (reason, refused) =
        validate_api_key-Revoked o presented secret (revoked_form k w.now)
          (with_revoked settings k w) parsed
          (key_row-merge_key (api_key_to_row (revoked_form k w.now)) w.keys) rate refl in
      (_, _, reason, revoke_api_key-Stores settings raw k w named row rate written, refused)

  -- SETEX keeps a key until its time to live has passed.
  abbrev pub KeepsUntil : Type 0
  KeepsUntil =
      (key : Text) (ttl now later : ℕ) (r : o.Redis)
      → later < now + ttl
      → o.exists_key key later (o.setex key ttl now r).1 ≡ some true

  -- Over a Redis that keeps its entries, a revocation that Redis takes returns, and an access token
  -- of the key, even one with a good signature, is refused with an authentication error at every
  -- time within the lifetime of a token and 60 seconds after the revocation.
  pub validate_access_token-revoke_api_key :
      (law : KeepsUntil) (settings : AuthSettings) (raw token : Text) (p : Payload) (k : ApiKey)
      (later_on : Time) (w : World o.Redis)
      → uuid_parse raw ≡ some k.id
      → key_row k.id w.keys ≡ some (api_key_to_row k)
      → 1 ≤ k.rate_limit.requests_per_minute
      → (revocation settings k w).0 ≡ true
      → o.jwt_decode token settings.jwt_secret jwt_issuer jwt_audience (later_on / second) ≡ some p
      → p.key_id ≡ some (uuid_str k.id)
      → later_on / second < w.now / second + (settings.access_token_ttl_seconds + 60)
      → (m : ApiKeyMetadataOutput) × (v : World o.Redis) × (revoke_api_key o settings raw w
          ≡ (ok m, v))
        × (validate_access_token o settings token (record v { now = later_on }) ≡ (
          err (authentication_error "access token's API key has been revoked"),
          record v { now = later_on },
        ))
  unfolding validate_access_token verify claims_of is_revoked
  validate_access_token-revoke_api_key law settings raw token p k later_on w named row rate written
        decoded owned soon =
      let found =
        law (revoked_key o (uuid_str k.id)) (settings.access_token_ttl_seconds + 60) (unix_time o w)
          (later_on / second) w.redis soon in
      (
        _,
        with_revoked settings k w,
        revoke_api_key-Stores settings raw k w named row rate written,
        rw (decoded, followed) (rw (owned, followed) (rw (found, followed) refl)),
      )
