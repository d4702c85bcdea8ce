-- ===== src/Auth/ApiKeys/Issuing.antt =====
-- IssueApiKey, followed by ValidateApiKeyCredential.
use cbir_engine.Auth.ApiKeys.{
  expiry, issue_api_key, key_name, present_key_metadata, requested_scopes,
}
use cbir_engine.Auth.Credentials.{validate_api_key}
use cbir_engine.Auth.Credentials.Acceptance.{next_hit, validate_api_key-Accepts}
use cbir_engine.Auth.Entities.{ApiKey, Tenant, Time, is_active}
use cbir_engine.Auth.Entities.Usability.{IsAhead, usability_at-IsUsable}
use cbir_engine.Auth.Gateways.{World, key_row, keys_add, tenant_row}
use cbir_engine.Auth.Gateways.Lookup.{key_row-append, tenants_get-row}
use cbir_engine.Auth.Ports.{AuthContextOutput, IssueApiKeyInput, IssuedApiKeyOutput, Outside}
use cbir_engine.Auth.Rows.{api_key_to_row, tenant_to_row}
use cbir_engine.Auth.Secrets.{issue_secret}
use cbir_engine.Auth.Secrets.RoundTrip.{parse_full_key-issue_secret, verify_secret-issue_secret}
use cbir_engine.Auth.ValueObjects.{
  ApiKeyStatus, RateLimitPolicy, default_rate_limit, make_rate_limit_policy, validate_scopes,
}
use cbir_engine.Auth.ValueObjects.Policy.{make_rate_limit_policy-Positive}
use cbir_engine.Base.{
  List, Option, String, Text, [], false, is_ascii, is_blank, is_some, ltb, none, ok, or_else, refl,
  some, true, ℕ, ◌++◌, ◌<◌, ◌∷◌, ◌≡◌,
}
use cbir_engine.Base.Effects.{followed}
use cbir_engine.Base.Strings.{Lacks}
use cbir_engine.Kernel.TenantId.{TenantId, parse_tenant, tenant_str}
use cbir_engine.Kernel.Uuid.{Uuid, uuid_limit}

module _ (o : Outside) where
  -- The key that IssueApiKey stores.
  abbrev pub issued_key :
      Uuid
      → Text
      → IssueApiKeyInput
      → TenantId
      → List String
      → RateLimitPolicy
      → Time
      → Option Time
      → ApiKey
  issued_key fresh secret d tenant_id scopes policy now expires_at = record {
    id = fresh;
    tenant_id = tenant_id;
    name = key_name d.name;
    secret_hash = o.sha256 secret;
    scopes = scopes;
    status = ApiKeyStatus.active;
    rate_limit = policy;
    created_at = now;
    expires_at = expires_at;
    grace_expires_at = none;
    revoked_at = none;
    rotated_from_id = none;
  }

  pub keys_add-Fresh :
      (k : ApiKey) (t : Tenant) (w : World o.Redis)
      → is_some (key_row k.id w.keys) ≡ false
      → tenant_row k.tenant_id.value w.tenants ≡ some (tenant_to_row t)
      → keys_add k w ≡ (ok tt, record w { keys = w.keys ++ (api_key_to_row k ∷ []) })
  unfolding keys_add
  keys_add-Fresh k t w absent tenant = rw (absent, followed) (rw (tenant, followed) refl)

  -- The world after a key was stored.
  abbrev pub with_key : ApiKey → World o.Redis → World o.Redis
  with_key k w = record w { keys = w.keys ++ (api_key_to_row k ∷ []) }

  -- IssueApiKey returns the full key and stores its record, for a known tenant, scopes that are
  -- known, a limit that the policy allows, an expiry in range and an id that is new.
  pub issue_api_key-Stores :
      (fresh : Uuid) (secret : Text) (d : IssueApiKeyInput) (t : Tenant) (scopes : List String)
      (policy : RateLimitPolicy) (e : Option Time) (w : World o.Redis)
      → parse_tenant d.tenant_id ≡ some t.id
      → tenant_row t.id.value w.tenants ≡ some (tenant_to_row t)
      → validate_scopes (requested_scopes d.scopes) ≡ ok scopes
      → make_rate_limit_policy (or_else d.rate_limit_per_minute (default_rate_limit t.tier))
        ≡ ok policy
      → expiry w.now d.expires_in_days ≡ ok e
      → is_some (key_row fresh w.keys) ≡ false
      → let k = issued_key fresh secret d t.id scopes policy w.now e in
        issue_api_key o fresh secret d w ≡ (
          ok (record {
            api_key = (issue_secret o.sha256 fresh secret).full_key;
            metadata = present_key_metadata k;
          }),
          with_key k w,
        )
  unfolding issue_api_key issue_secret
  issue_api_key-Stores fresh secret d t scopes policy e w known tenant scoped limited dated absent =
      rw (known, followed)
        (rw (tenants_get-row t t.id w tenant, followed)
          (rw (scoped, followed)
            (rw (limited, followed)
              (rw (dated, followed)
                (rw
                  (
                    keys_add-Fresh (issued_key fresh secret d t.id scopes policy w.now e) t w absent
                        tenant,
                    followed,
                  )
                  refl)))))

  -- A key that was just issued is the text of its id and its secret, and it is accepted at once,
  -- with the tenant, the scopes and the limit that it was issued with: for an active tenant, an ASCII
  -- secret that is not empty and holds no underscore, an expiry that is absent or ahead, and a count
  -- in the limiter's window within the limit.
  pub validate_api_key-issue_api_key :
      (fresh : Uuid) (secret : Text) (d : IssueApiKeyInput) (t : Tenant) (scopes : List String)
      (policy : RateLimitPolicy) (e : Option Time) (count : ℕ) (w : World o.Redis)
      → fresh < uuid_limit
      → Lacks 95 secret
      → is_blank secret ≡ false
      → is_ascii secret ≡ true
      → parse_tenant d.tenant_id ≡ some t.id
      → tenant_row t.id.value w.tenants ≡ some (tenant_to_row t)
      → is_active t ≡ true
      → validate_scopes (requested_scopes d.scopes) ≡ ok scopes
      → make_rate_limit_policy (or_else d.rate_limit_per_minute (default_rate_limit t.tier))
        ≡ ok policy
      → expiry w.now d.expires_in_days ≡ ok e
      → IsAhead e w.now
      → is_some (key_row fresh w.keys) ≡ false
      → (next_hit o (issued_key fresh secret d t.id scopes policy w.now e) w).0 ≡ some count
      → ltb policy.requests_per_minute count ≡ false
      → (out : IssuedApiKeyOutput) × (v : World o.Redis) × (v' : World o.Redis)
        × (c : AuthContextOutput) × (issue_api_key o fresh secret d w ≡ (ok out, v))
        × (validate_api_key o out.api_key v ≡ (ok c, v'))
        × (c.tenant_id ≡ tenant_str t.id)
        × (c.scopes ≡ scopes)
        × (c.rate_limit.limit_per_minute ≡ policy.requests_per_minute)
        × (out.api_key ≡ (issue_secret o.sha256 fresh secret).full_key)
  unfolding issue_secret
  validate_api_key-issue_api_key fresh secret d t scopes policy e count w small clean full ascii
        known tenant enabled scoped limited dated ahead absent reply within =
      let k = issued_key fresh secret d t.id scopes policy w.now e in
      (
        _,
        _,
        _,
        _,
        issue_api_key-Stores fresh secret d t scopes policy e w known tenant scoped limited dated
            absent,
        validate_api_key-Accepts o (issue_secret o.sha256 fresh secret).full_key secret k t count
            (with_key k w) (parse_full_key-issue_secret o.sha256 fresh secret small clean full)
            (key_row-append fresh w.keys (api_key_to_row k) absent refl)
            (make_rate_limit_policy-Positive _ policy limited)
            (verify_secret-issue_secret o.sha256 fresh secret ascii)
            ((usability_at-IsUsable k w.now).1 (tt, ahead)) tenant enabled reply within,
        refl,
        refl,
        refl,
        refl,
      )
