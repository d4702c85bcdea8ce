-- ===== src/Auth/Credentials/Soundness.antt =====
-- ValidateApiKeyCredential: what an accepted key has passed.
use mathlib.Core.Path.{subst}
use cbir_engine.Auth.Credentials.{
  active_tenant, enforce_rate_limit, judged, parsed_key, present_decision, validate_api_key,
  verified,
}
use cbir_engine.Auth.Credentials.Acceptance.{context_of, next_hit}
use cbir_engine.Auth.Entities.{ApiKey, Tenant, is_active, usability_at}
use cbir_engine.Auth.Entities.Usability.{IsUsable, usability_at-IsUsable}
use cbir_engine.Auth.Gateways.{
  World, api_key_of, key_row, keys_get, tenant_of, tenant_row, tenants_get,
}
use cbir_engine.Auth.Ports.{AuthContextOutput, Outside, RateLimitStateOutput}
use cbir_engine.Auth.RateLimit.{decide, hit, unix_time}
use cbir_engine.Auth.Secrets.{hash_secret, parse_full_key, verify_secret}
use cbir_engine.Auth.ValueObjects.{
  AuthError, TenantStatus, authentication_error, plan_tier_value, suspended,
}
use cbir_engine.Base.{
  Bool, Bool-cases, Option, Option-cases, Result, Text, ap, arith, err, false, inl, inr, is_ascii,
  ltb, none, ok, refl, some, sym, text_eq, true, ℕ, ◌∙◌, ◌≡◌, ◌≤◌, ◌⊎◌,
}
use cbir_engine.Base.Effects.{lift-cases, require-cases}
use cbir_engine.Kernel.TenantId.{tenant_str}
use cbir_engine.Kernel.Uuid.{Uuid, uuid_str}

abbrev got_or : {A : Type 0} → A → Result AuthError A → A
got_or d (ok a) = a
got_or d (err e) = d

status_cases : (s : TenantStatus) → (s ≡ TenantStatus.active) ⊎ (s ≡ suspended)
status_cases TenantStatus.active = inl refl
status_cases suspended = inr refl

module _ (o : Outside) where
  -- The limiter's reply is no count, since it fails open, or a count within the limit.
  abbrev pub IsWithin : ℕ → Option ℕ → Type 0
  IsWithin limit none = Unit
  IsWithin limit (some count) = count ≤ limit

  -- The checks behind a context: the text names a stored key, its secret has the stored hash, the key
  -- is usable now, its tenant is active, and the limiter's count is within the limit; the context is
  -- that of the key and the tenant.
  pub record IsVouched (presented : Text) (w : World o.Redis) (c : AuthContextOutput) : Type 0 where
    pub key_id : Uuid
    pub secret : Text
    pub key : ApiKey
    pub tenant : Tenant
    pub parsed : parse_full_key presented ≡ some (key_id, secret)
    pub stored : keys_get key_id w ≡ (ok (some key), w)
    pub ascii : is_ascii secret ≡ true
    pub hashed : text_eq (o.sha256 secret) key.secret_hash ≡ true
    pub usable : IsUsable key w.now
    pub owned : tenants_get key.tenant_id w ≡ (ok (some tenant), w)
    pub enabled : tenant.status ≡ TenantStatus.active
    pub within : IsWithin key.rate_limit.requests_per_minute (next_hit o key w).0
    pub same_tenant : c.tenant_id ≡ tenant_str key.tenant_id
    pub same_key : c.api_key_id ≡ uuid_str key.id
    pub same_scopes : c.scopes ≡ key.scopes
    pub same_tier : c.plan_tier ≡ plan_tier_value tenant.tier

  abbrev pub IsSound :
      Text → World o.Redis → Result AuthError AuthContextOutput × World o.Redis → Type 0
  IsSound presented w (ok c, v) = IsVouched presented w c
  IsSound presented w (err e, v) = Unit

  parsed_key-Some :
      (presented : Text) (p : Uuid × Text)
      → parsed_key presented ≡ ok p
      → parse_full_key presented ≡ some p
  parsed_key-Some presented p h = elim (Option-cases (parse_full_key presented)) [
    | inl e ↦ absurd (ground arith)
    | inr (q, e) ↦ ground arith
  ]

  judged-Some :
      (k key : ApiKey) (b : Option Bool) → judged k b ≡ ok key → (b ≡ some true) × (k ≡ key)
  judged-Some k key none h = absurd cc
  judged-Some k key (some true) h = (refl, ap (got_or k) h)
  judged-Some k key (some false) h = absurd cc

  verified-Some :
      (secret : Text) (found : Option ApiKey) (key : ApiKey)
      → verified o.sha256 secret found ≡ ok key
      → (found ≡ some key) × (verify_secret o.sha256 secret key.secret_hash ≡ some true)
  verified-Some secret none key h = absurd cc
  verified-Some secret (some k) key h =
      let (checked, same) = judged-Some k key (verify_secret o.sha256 secret k.secret_hash) h in
      (
        ap some same,
        subst (λ (x : ApiKey). verify_secret o.sha256 secret x.secret_hash ≡ some true) same
            checked,
      )

  is_active-Status : (t : Tenant) → is_active t ≡ true → t.status ≡ TenantStatus.active
  unfolding is_active
  is_active-Status t h = elim (status_cases t.status) [ inl e ↦ e | inr e ↦ absurd (ground arith) ]

  active_step : (s : Tenant) → is_active s ≡ true → active_tenant (some s) ≡ ok s
  active_step s e = rw e refl

  active_tenant-Some :
      (found : Option Tenant) (t : Tenant)
      → active_tenant found ≡ ok t
      → (found ≡ some t) × (t.status ≡ TenantStatus.active)
  active_tenant-Some none t h = absurd cc
  active_tenant-Some (some s) t h = elim (Bool-cases (is_active s)) [
    | inl e ↦
        let same : s ≡ t = ap (got_or s) (sym (active_step s e) ∙ h) in
        (
          ap some same,
          subst (λ (x : Tenant). x.status ≡ TenantStatus.active) same (is_active-Status s e),
        )
    | inr e ↦ absurd (ground arith)
  ]

  verify_secret-True :
      (secret stored : Text)
      → verify_secret o.sha256 secret stored ≡ some true
      → (is_ascii secret ≡ true) × (text_eq (o.sha256 secret) stored ≡ true)
  unfolding verify_secret hash_secret
  verify_secret-True secret stored h = elim (Bool-cases (is_ascii secret)) [
    | inl e ↦ elim (Bool-cases (text_eq (o.sha256 secret) stored)) [
      | inl k ↦ (e, k)
      | inr k ↦ absurd (ground arith)
    ]
    | inr e ↦ absurd (ground arith)
  ]

  decide-IsWithin :
      (limit now : ℕ) (reply : Option ℕ) (state : RateLimitStateOutput)
      → present_decision (decide o limit now reply) ≡ ok state
      → IsWithin limit reply
  unfolding decide
  decide-IsWithin limit now none state h = tt
  decide-IsWithin limit now (some count) state h = elim (Bool-cases (ltb limit count)) [
    | inl e ↦ absurd (ground arith)
    | inr e ↦ ground arith
  ]

  vouched :
      (presented : Text) (p : Uuid × Text) (found : Option ApiKey) (key : ApiKey)
      (other : Option Tenant) (t : Tenant) (state : RateLimitStateOutput) (w : World o.Redis)
      → parsed_key presented ≡ ok p
      → api_key_of (key_row p.0 w.keys) ≡ ok found
      → verified o.sha256 p.1 found ≡ ok key
      → (usability_at key w.now).0 ≡ true
      → tenant_of (tenant_row key.tenant_id.value w.tenants) ≡ ok other
      → active_tenant other ≡ ok t
      → present_decision
          (decide o key.rate_limit.requests_per_minute (unix_time o w) (next_hit o key w).0)
        ≡ ok state
      → IsVouched presented w (context_of o key t state)
  unfolding keys_get tenants_get
  vouched presented p found key other t state w named read right valid got enabled allowed =
      let (held, checked) = verified-Some p.1 found key right in
      let (kept, live) = active_tenant-Some other t enabled in
      let (plain_secret, hashed) = verify_secret-True p.1 key.secret_hash checked in
      record {
        key_id = p.0;
        secret = p.1;
        key = key;
        tenant = t;
        parsed = parsed_key-Some presented p named;
        stored = ap (λ r. (r, w)) (read ∙ ap ok held);
        ascii = plain_secret;
        hashed = hashed;
        usable = (usability_at-IsUsable key w.now).0 valid;
        owned = ap (λ r. (r, w)) (got ∙ ap ok kept);
        enabled = live;
        within =
            decide-IsWithin key.rate_limit.requests_per_minute (unix_time o w) (next_hit o key w).0
              state allowed;
        same_tenant = refl;
        same_key = refl;
        same_scopes = refl;
        same_tier = refl;
      }

  -- A presented key that is accepted has passed every check, and its context is that of the stored
  -- key and its tenant.
  pub validate_api_key-IsSound :
      (presented : Text) (w : World o.Redis) → IsSound presented w (validate_api_key o presented w)
  unfolding validate_api_key keys_get tenants_get enforce_rate_limit hit
  validate_api_key-IsSound presented w =
      let P = IsSound presented w in
      lift-cases P _ (parsed_key presented) w
        (λ p named.
          lift-cases P _ (api_key_of (key_row p.0 w.keys)) w
            (λ found read.
              lift-cases P _ (verified o.sha256 p.1 found) w
                (λ key right.
                  require-cases P _ (usability_at key w.now).0
                    (authentication_error (usability_at key w.now).1) w
                    (λ valid.
                      lift-cases P _ (tenant_of (tenant_row key.tenant_id.value w.tenants)) w
                        (λ other got.
                          lift-cases P _ (active_tenant other) w
                            (λ t enabled.
                              lift-cases P _
                                (present_decision (
                                  decide o key.rate_limit.requests_per_minute (unix_time o w)
                                    (next_hit o key w).0))
                                _
                                (λ state allowed.
                                  vouched presented p found key other t state w named read right
                                    valid got enabled allowed)
                                (λ e bad. tt))
                            (λ e bad. tt))
                        (λ e bad. tt))
                    (λ bad. tt))
                (λ e bad. tt))
            (λ e bad. tt))
        (λ e bad. tt)
