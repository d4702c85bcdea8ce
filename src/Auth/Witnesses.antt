-- ===== src/Auth/Witnesses.antt =====
-- Concrete runs of auth-service: a store that counts, one tenant and its keys.
use cbir_engine.Auth.ApiKeys.{issue_api_key, present_key_metadata, revoke_api_key, rotate_api_key}
use cbir_engine.Auth.ApiKeys.Issuing.{validate_api_key-issue_api_key}
use cbir_engine.Auth.ApiKeys.Revocation.{validate_access_token-revoke_api_key}
use cbir_engine.Auth.ApiKeys.Rotation.{rotate_api_key-Overlaps}
use cbir_engine.Auth.Credentials.{validate_access_token, validate_api_key}
use cbir_engine.Auth.Credentials.Soundness.{IsSound, validate_api_key-IsSound}
use cbir_engine.Auth.Entities.{ApiKey, after, after_days, day, is_active, usability_at}
use cbir_engine.Auth.Entities.Usability.{IsAhead, IsUsable, usability_at-IsUsable}
use cbir_engine.Auth.Fixtures.{
  acme, memory, policy, request, secret_Lacks, settings, start_world, stored,
}
use cbir_engine.Auth.Gateways.{World, merge_key}
use cbir_engine.Auth.Ports.{
  ApiKeyMetadataOutput, AuthContextOutput, CreateTenantInput, IssuedApiKeyOutput, Outside, Payload,
  RateLimitDecision,
}
use cbir_engine.Auth.RateLimit.{hit}
use cbir_engine.Auth.RateLimit.Counting.{Counts, Hit, after_hits, hit-AdmitsLimit}
use cbir_engine.Auth.Rows.{api_key_to_row}
use cbir_engine.Auth.Secrets.{issue_secret}
use cbir_engine.Auth.Tokens.{jwt_audience, jwt_issuer}
use cbir_engine.Auth.ValueObjects.{
  authentication_error, default_rate_limit, default_scopes, from_keys, make_rate_limit_policy,
  validate_scopes,
}
use cbir_engine.Auth.ValueObjects.Scopes.{IsScopeSet, validate_scopes-IsScopeSet}
use cbir_engine.Base.{
  List, Text, [], arith, codes, err, false, if◌then◌else◌, is_ascii, none, ok, refl, some, suc,
  text_apart, text_eq, text_eq_refl, true, ℕ, ◌*◌, ◌++◌, ◌+◌, ◌<◌, ◌↔◌, ◌∷◌, ◌≡◌, ◌≤◌, ◌⊎◌,
}
use cbir_engine.Kernel.TenantId.{parse_tenant-tenant_str, tenant_str}
use cbir_engine.Kernel.Uuid.{uuid_str}
use cbir_engine.Kernel.Uuid.RoundTrip.{uuid_parse-uuid_str}

usability_at-IsUsable_example : ((usability_at stored 20).0 ≡ true) ↔ IsUsable stored 20
usability_at-IsUsable_example = usability_at-IsUsable stored 20

-- A store with one count for each key.
abbrev keyed : Outside
keyed = record {
  Redis = Text → ℕ;
  sha256 = λ s. 1 ∷ s;
  incr_expire =
      λ key ttl now r. (some (suc (r key)), λ k. if text_eq key k then suc (r k) else r k);
  setex = λ key ttl now r. (true, r);
  exists_key = λ key now r. some false;
  jwt_encode = λ p secret. secret;
  jwt_decode = λ token secret iss aud now. none;
}

keyed-Counts : Counts keyed (λ key now r. r key)
keyed-Counts = record {
  reply = λ key ttl now r. refl;
  counted = λ key ttl now later r h. rw (text_eq_refl key) refl;
  others = λ key other ttl now later r h. rw (text_apart key other h) refl;
}

abbrev unused_world : World (Text → ℕ)
unused_world = record { tenants = []; keys = []; redis = λ k. 0; now = 0 }

-- In this minute one request of the bucket and one of another; before it, one of the bucket.
abbrev earlier : List Hit
earlier =
    record { bucket = codes "b"; at = 121000000 }
    ∷ record { bucket = codes "c"; at = 120500000 }
    ∷ record { bucket = codes "b"; at = 119000000 }
    ∷ []

hit-AdmitsLimit_example :
    (d : RateLimitDecision) × ((hit keyed
        (codes "b")
        3
        (record (after_hits keyed (λ key now r. r key) 3 earlier unused_world) {
          now = 122000000;
        })).0
      ≡ ok d)
    × (((1 < 3) × (d.allowed ≡ true) × (d.remaining + 1 + 1 ≡ 3))
        ⊎ ((3 ≤ 1)
            × (d.allowed ≡ false)
            × (1 ≤ d.retry_after_seconds)
            × (d.retry_after_seconds ≤ 60)))
unfolding codes text_eq
hit-AdmitsLimit_example =
    hit-AdmitsLimit keyed (λ key now r. r key) keyed-Counts (codes "b") 3 122000000 earlier
      unused_world (λ t e. refl)

validate_scopes-IsScopeSet_example :
    IsScopeSet
      ("search:query" ∷ "search:query" ∷ [])
      (validate_scopes ("search:query" ∷ "search:query" ∷ []))
validate_scopes-IsScopeSet_example =
    validate_scopes-IsScopeSet ("search:query" ∷ "search:query" ∷ [])

validate_api_key-issue_api_key_example :
    (out : IssuedApiKeyOutput) × (v : World ℕ) × (v' : World ℕ) × (c : AuthContextOutput)
    × (issue_api_key memory 11 (codes "s3cret") request start_world ≡ (ok out, v))
    × (validate_api_key memory out.api_key v ≡ (ok c, v'))
    × (c.tenant_id ≡ tenant_str acme.id)
    × (c.scopes ≡ default_scopes)
    × (c.rate_limit.limit_per_minute ≡ 600)
    × (out.api_key ≡ (issue_secret memory.sha256 11 (codes "s3cret")).full_key)
unfolding validate_scopes from_keys make_rate_limit_policy default_rate_limit is_active after_days
    after codes is_ascii
validate_api_key-issue_api_key_example =
    validate_api_key-issue_api_key memory 11 (codes "s3cret") request acme default_scopes policy
      (some (120000000 + 2 * day)) 1 start_world (omega arith) secret_Lacks refl refl
      (parse_tenant-tenant_str acme.id (omega arith)) refl refl refl refl refl (omega arith) refl
      refl refl

rotate_api_key-Overlaps_example :
    (v : World ℕ) × (old' : ApiKey) × (new : ApiKey) × (rotate_api_key memory settings 11
        (codes "n3w")
        (uuid_str 9)
        start_world
      ≡ (
        ok (record {
          api_key = (issue_secret memory.sha256 11 (codes "n3w")).full_key;
          metadata = present_key_metadata new;
        }),
        v,
      ))
    × (v.keys ≡ merge_key (api_key_to_row old') start_world.keys ++ (api_key_to_row new ∷ []))
    × (new.id ≡ 11)
    × (new.rotated_from_id ≡ some 9)
    × (new.tenant_id ≡ stored.tenant_id)
    × (new.scopes ≡ stored.scopes)
    × (new.rate_limit ≡ stored.rate_limit)
    × (new.expires_at ≡ stored.expires_at)
    × (old'.id ≡ 9)
    × (((usability_at old' 3000000000).0 ≡ true)
        ↔ ((3000000000 < 3720000000) × IsAhead stored.expires_at 3000000000))
unfolding after
rotate_api_key-Overlaps_example =
    rotate_api_key-Overlaps memory settings 11 (codes "n3w") (uuid_str 9) stored acme 3720000000
      3000000000 start_world (uuid_parse-uuid_str 9 (omega arith)) refl (omega arith) refl refl refl
      refl

abbrev token_payload : Payload
token_payload = record {
  iss = jwt_issuer;
  aud = jwt_audience;
  sub = tenant_str acme.id;
  iat = 100;
  exp = 1000;
  key_id = some (uuid_str 9);
  scopes = none;
  plan_tier = none;
  rate_limit_per_minute = none;
}

-- A store that keeps every entry, and tokens that all carry the payload above.
abbrev keeping : Outside
keeping = record memory {
  exists_key = λ key now r. some true;
  jwt_decode = λ token secret iss aud now. some token_payload;
}

validate_access_token-revoke_api_key_example :
    (m : ApiKeyMetadataOutput) × (v : World ℕ) × (revoke_api_key keeping settings
        (uuid_str 9)
        start_world
      ≡ (ok m, v))
    × (validate_access_token keeping settings (codes "token") (record v { now = 200000000 }) ≡ (
      err (authentication_error "access token's API key has been revoked"),
      record v { now = 200000000 },
    ))
validate_access_token-revoke_api_key_example =
    validate_access_token-revoke_api_key keeping (λ key ttl now later r h. refl) settings
      (uuid_str 9) (codes "token") token_payload stored 200000000 start_world
      (uuid_parse-uuid_str 9 (omega arith)) refl (omega arith) refl refl refl (omega arith)

abbrev rival : CreateTenantInput
rival = record { name = codes " acme "; plan_tier = "free"; settings = [] }

validate_api_key-IsSound_example :
    IsSound memory
      (issue_secret memory.sha256 9 (codes "s3cret")).full_key
      start_world
      (validate_api_key memory (issue_secret memory.sha256 9 (codes "s3cret")).full_key start_world)
validate_api_key-IsSound_example =
    validate_api_key-IsSound memory (issue_secret memory.sha256 9 (codes "s3cret")).full_key
      start_world
