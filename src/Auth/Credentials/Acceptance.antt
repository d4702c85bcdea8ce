-- ===== src/Auth/Credentials/Acceptance.antt =====
-- ValidateApiKeyCredential: when a key is accepted, and with what context.
use cbir_engine.Auth.Credentials.{enforce_rate_limit, key_bucket, validate_api_key}
use cbir_engine.Auth.Entities.{ApiKey, Tenant, is_active, usability_at}
use cbir_engine.Auth.Gateways.{World, key_row, tenant_row}
use cbir_engine.Auth.Gateways.Lookup.{keys_get-row, tenants_get-row}
use cbir_engine.Auth.Ports.{AuthContextOutput, Outside, RateLimitStateOutput}
use cbir_engine.Auth.RateLimit.{decide, hit, unix_time, window_key}
use cbir_engine.Auth.Rows.{api_key_to_row, tenant_to_row}
use cbir_engine.Auth.Secrets.{hash_secret, parse_full_key, verify_secret}
use cbir_engine.Auth.ValueObjects.{
  AuthError, authentication_error, plan_tier_value, revoked, value_error,
}
use cbir_engine.Base.{
  Bool-cases, Option, String, Text, err, false, if◌then◌else◌, inl, inr, is_ascii, ltb, ok, refl,
  some, text_eq, true, ℕ, ◌-◌, ◌≡◌, ◌≤◌,
}
use cbir_engine.Base.Effects.{followed}
use cbir_engine.Kernel.TenantId.{tenant_str}
use cbir_engine.Kernel.Uuid.{uuid_str}

module _ (o : Outside) where
  -- The limiter's answer to the next request of a key: the reply of the pipeline and the store.
  abbrev pub next_hit : ApiKey → World o.Redis → Option ℕ × o.Redis
  next_hit k w =
      o.incr_expire (window_key o (key_bucket (uuid_str k.id)) (unix_time o w)) 120 (unix_time o w)
        w.redis

  abbrev pub context_of : ApiKey → Tenant → RateLimitStateOutput → AuthContextOutput
  context_of k t decision = record {
    tenant_id = tenant_str k.tenant_id;
    api_key_id = uuid_str k.id;
    scopes = k.scopes;
    plan_tier = plan_tier_value t.tier;
    rate_limit = decision;
  }

  enforce_rate_limit-Within :
      (k : ApiKey) (limit count : ℕ) (w : World o.Redis)
      → (next_hit k w).0 ≡ some count
      → ltb limit count ≡ false
      → enforce_rate_limit o (uuid_str k.id) limit w ≡ (
        ok (record { limit_per_minute = limit; remaining = limit - count }),
        record w { redis = (next_hit k w).1 },
      )
  unfolding enforce_rate_limit hit decide
  enforce_rate_limit-Within k limit count w h e = rw (h, followed) (rw (e, followed) refl)

  -- A presented key is accepted, and the context is that of the stored key and its tenant, when the
  -- text names a stored key, its secret has the stored hash, the key is usable now, its tenant is
  -- active, and the count of this window is at most the key's limit; what remains is the rest of
  -- the limit, and nothing but the limiter's store changes.
  pub validate_api_key-Accepts :
      (presented secret : Text) (k : ApiKey) (t : Tenant) (count : ℕ) (w : World o.Redis)
      → parse_full_key presented ≡ some (k.id, secret)
      → key_row k.id w.keys ≡ some (api_key_to_row k)
      → 1 ≤ k.rate_limit.requests_per_minute
      → verify_secret o.sha256 secret k.secret_hash ≡ some true
      → (usability_at k w.now).0 ≡ true
      → tenant_row k.tenant_id.value w.tenants ≡ some (tenant_to_row t)
      → is_active t ≡ true
      → (next_hit k w).0 ≡ some count
      → ltb k.rate_limit.requests_per_minute count ≡ false
      → validate_api_key o presented w ≡ (
        ok (
            context_of k t (record {
              limit_per_minute = k.rate_limit.requests_per_minute;
              remaining = k.rate_limit.requests_per_minute - count;
            })),
        record w { redis = (next_hit k w).1 },
      )
  unfolding validate_api_key
  validate_api_key-Accepts presented secret k t count w parsed row rate hash usable tenant enabled
        reply within =
      rw (parsed, followed)
        (rw (keys_get-row k.id k w row rate, followed)
          (rw (hash, followed)
            (rw (usable, followed)
              (rw (tenants_get-row t k.tenant_id w tenant, followed)
                (rw (enabled, followed)
                  (rw
                    (
                      enforce_rate_limit-Within k k.rate_limit.requests_per_minute count w reply
                          within,
                      followed,
                    )
                    refl))))))

  -- The error that refuses a key: an authentication error, except that a secret that is not ASCII
  -- raises a ValueError before it is compared.
  abbrev pub refusal : Text → String → AuthError
  refusal secret reason = if is_ascii secret then authentication_error reason else value_error

  -- A revoked key is refused, whatever its secret, its tenant and the limiter say, and a refusal
  -- changes nothing.
  pub validate_api_key-Revoked :
      (presented secret : Text) (k : ApiKey) (w : World o.Redis)
      → parse_full_key presented ≡ some (k.id, secret)
      → key_row k.id w.keys ≡ some (api_key_to_row k)
      → 1 ≤ k.rate_limit.requests_per_minute
      → k.status ≡ revoked
      → (reason : String) × (validate_api_key o presented w ≡ (err (refusal secret reason), w))
  unfolding validate_api_key usability_at verify_secret hash_secret
  validate_api_key-Revoked presented secret k w parsed row rate gone =
      elim (Bool-cases (is_ascii secret)) [
        | inr odd ↦ (
          "not ASCII",
          rw (parsed, followed)
              (rw (keys_get-row k.id k w row rate, followed) (rw (odd, followed) refl)),
        )
        | inl ascii ↦ elim (Bool-cases (text_eq (o.sha256 secret) k.secret_hash)) [
          | inl hash ↦ (
            "API key has been revoked",
            rw (parsed, followed)
                (rw (keys_get-row k.id k w row rate, followed)
                  (rw (ascii, followed) (rw (hash, followed) (rw (gone, followed) refl)))),
          )
          | inr hash ↦ (
            "invalid API key",
            rw (parsed, followed)
                (rw (keys_get-row k.id k w row rate, followed)
                  (rw (ascii, followed) (rw (hash, followed) refl))),
          )
        ]
      ]
