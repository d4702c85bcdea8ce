-- ===== src/Gateway/EndToEnd.antt =====
-- A resource service that checks its requests with auth-service itself: cbir_common/auth over the
-- validate endpoint of auth_service/interface_adapters/controllers.
use cbir_engine.Auth.ApiKeys.{expiry, issue_api_key, requested_scopes, revoke_api_key}
use cbir_engine.Auth.ApiKeys.Issuing.{issued_key, validate_api_key-issue_api_key}
use cbir_engine.Auth.ApiKeys.Revocation.{revocation, validate_api_key-revoke_api_key}
use cbir_engine.Auth.Credentials.{AuthSettings, validate_api_key}
use cbir_engine.Auth.Credentials.Acceptance.{next_hit}
use cbir_engine.Auth.Entities.{ApiKey, Tenant, Time, is_active}
use cbir_engine.Auth.Entities.Usability.{IsAhead}
use cbir_engine.Auth.Gateways.{World, key_row, tenant_row}
use cbir_engine.Auth.Http.{Failure, Response, failure, failure_of, success, unit_of_work, validate}
use cbir_engine.Auth.Http.Routes.{validate_route}
use cbir_engine.Auth.Ports.{
  ApiKeyMetadataOutput, AuthContextOutput, IssueApiKeyInput, IssuedApiKeyOutput, Outside,
}
use cbir_engine.Auth.Presenters.{ValidatedContextResponse, auth_context_response}
use cbir_engine.Auth.Rows.{api_key_to_row, tenant_to_row}
use cbir_engine.Auth.Secrets.{issue_secret, parse_full_key}
use cbir_engine.Auth.Secrets.RoundTrip.{parse_full_key-Ascii}
use cbir_engine.Auth.ValueObjects.{
  AuthError, RateLimitPolicy, authentication_error, default_rate_limit, make_rate_limit_policy,
  validate_scopes,
}
use cbir_engine.Base.{
  Bool, Bool-cases, List, Option, Result, String, Text, [], any, ap, arith, codes, err, false,
  if◌then◌else◌, inl, inr, is_ascii, is_blank, is_some, ltb, none, ok, or_else, refl, some, str_eq,
  true, ℕ, ◌&&◌, ◌<◌, ◌∙◌, ◌∷◌, ◌≡◌, ◌≤◌,
}
use cbir_engine.Base.Strings.{Lacks, is_ascii-append, show_nat, split}
use cbir_engine.Gateway.{
  Refusal, TenantContext, ValidateReply, context, forwarded, has_scope, http, not_encodable, object,
  rejected, scope_dependency, translate, unhandled, validate_request_credentials,
}
use cbir_engine.Kernel.Json.{Json}
use cbir_engine.Kernel.TenantId.{parse_tenant, tenant_str}
use cbir_engine.Kernel.Uuid.{Uuid, uuid_hex, uuid_limit, uuid_parse}
use cbir_engine.Kernel.Uuid.RoundTrip.{uuid_hex-Ascii}

-- TenantContext(**response.json()); the rate limit is no field of the context.
abbrev pub context_of : ValidatedContextResponse → TenantContext
context_of r = record {
  tenant_id = r.tenant_id;
  api_key_id = r.api_key_id;
  scopes = r.scopes;
  plan_tier = r.plan_tier;
}

abbrev shown_wait : Option ℕ → Option Text
shown_wait none = none
shown_wait (some n) = some (show_nat n)

-- The detail of an error response, whose body is an object, is its exception's text.
module _ (o : Outside) (settings : AuthSettings) (detail : Failure → Option Json) where
  abbrev pub reply_of : Response ValidatedContextResponse → ValidateReply
  reply_of (success s r) = context (context_of r)
  reply_of (failure f) = rejected f.status (object (detail f)) (shown_wait f.retry_after)

  -- httpx encodes the headers of a request as ASCII.
  abbrev pub are_encodable : Option Text → Option Text → Bool
  are_encodable api_key authorization =
      is_ascii (or_else api_key []) && is_ascii (or_else authorization [])

  -- The validate endpoint at one time of auth-service.
  abbrev pub auth_service : World o.Redis → Option Text → Option Text → ValidateReply
  auth_service w api_key authorization =
      if are_encodable api_key authorization
      then reply_of (validate_route o settings api_key (or_else authorization []) w).0
      else not_encodable

  abbrev pub IsUnauthorized : Result Refusal TenantContext → Type 0
  IsUnauthorized (ok c) = ⊥
  IsUnauthorized (err (http e)) = (e.status ≡ 401) × (e.www_authenticate ≡ true)
  IsUnauthorized (err unhandled) = ⊥

  nonblank-parse_full_key :
      (presented_key : Text) (p : Uuid × Text)
      → parse_full_key presented_key ≡ some p
      → is_blank presented_key ≡ false
  unfolding parse_full_key split
  nonblank-parse_full_key [] p h = cc
  nonblank-parse_full_key (c ∷ s) p h = refl

  are_encodable-forwarded :
      (key authorization : Option Text)
      → are_encodable key (forwarded authorization) ≡ are_encodable key authorization
  unfolding is_ascii
  are_encodable-forwarded key none = refl
  are_encodable-forwarded key (some []) = refl
  are_encodable-forwarded key (some (c ∷ s)) = refl

  -- The refusal of a request: a 401, or an exception when a header cannot be encoded.
  abbrev pub IsTurnedAway : Bool → Result Refusal TenantContext → Type 0
  IsTurnedAway true r = IsUnauthorized r
  IsTurnedAway false r = r ≡ err unhandled

  refused-Unauthorized :
      (scope : String) (presented_key : Text) (authorization : Option Text) (reason : String)
      (v v' : World o.Redis)
      → is_blank presented_key ≡ false
      → are_encodable (some presented_key) authorization ≡ true
      → validate_api_key o presented_key v ≡ (err (authentication_error reason), v')
      → IsUnauthorized (scope_dependency (auth_service v) scope (some presented_key) authorization)
  unfolding scope_dependency validate_request_credentials translate validate_route validate
      unit_of_work failure_of
  refused-Unauthorized scope presented_key authorization reason v v' full ascii refused = rw full (
      rw full (
        rw (are_encodable-forwarded (some presented_key) authorization)
          (rw ascii (rw refused (refl, refl)))))

  refused-Unhandled :
      (scope : String) (presented_key : Text) (authorization : Option Text) (v : World o.Redis)
      → is_blank presented_key ≡ false
      → are_encodable (some presented_key) authorization ≡ false
      → scope_dependency (auth_service v) scope (some presented_key) authorization ≡ err unhandled
  unfolding scope_dependency validate_request_credentials translate is_ascii validate_route validate
  refused-Unhandled scope presented_key authorization v full odd =
      rw full
        (rw full (rw (are_encodable-forwarded (some presented_key) authorization) (rw odd refl)))

  encodable-Ascii :
      (key : Text) (authorization : Option Text)
      → are_encodable (some key) authorization ≡ true
      → is_ascii key ≡ true
  encodable-Ascii key authorization h = ground arith

  -- Once a revocation that Redis takes has returned, every resource service refuses the key,
  -- whatever scope it asks for, whatever secret is presented, and whatever token comes along: with a
  -- 401 when the headers are ASCII, and else with the exception that their encoding raises.
  pub scope_dependency-revoke_api_key :
      (raw presented_key secret : Text) (k : ApiKey) (scope : String) (authorization : Option Text)
      (w : World o.Redis)
      → uuid_parse raw ≡ some k.id
      → key_row k.id w.keys ≡ some (api_key_to_row k)
      → 1 ≤ k.rate_limit.requests_per_minute
      → (revocation o settings k w).0 ≡ true
      → parse_full_key presented_key ≡ some (k.id, secret)
      → (m : ApiKeyMetadataOutput) × (v : World o.Redis) × (revoke_api_key o settings raw w
          ≡ (ok m, v))
        × IsTurnedAway
            (are_encodable (some presented_key) authorization)
            (scope_dependency (auth_service v) scope (some presented_key) authorization)
  scope_dependency-revoke_api_key raw presented_key secret k scope authorization w named row rate
        written parsed =
      let (m, v, reason, done, refused) =
        validate_api_key-revoke_api_key o settings raw presented_key secret k w named row rate
          written parsed in
      let full = nonblank-parse_full_key presented_key (k.id, secret) parsed in
      (
        m,
        v,
        done,
        elim (Bool-cases (are_encodable (some presented_key) authorization)) [
          | inr odd ↦ rw odd (refused-Unhandled scope presented_key authorization v full odd)
          | inl ascii ↦
              let clear =
                parse_full_key-Ascii presented_key k.id secret
                  (encodable-Ascii presented_key authorization ascii) parsed in
              rw ascii (
                refused-Unauthorized scope presented_key authorization reason v v full ascii
                  (refused ∙ rw clear refl))
        ],
      )

  abbrev fails : Result AuthError AuthContextOutput × World o.Redis → Bool
  fails (ok c, v) = false
  fails (err e, v) = true

  nonblank-validate_api_key :
      (key : Text) (c : AuthContextOutput) (v v' : World o.Redis)
      → validate_api_key o key v ≡ (ok c, v')
      → is_blank key ≡ false
  unfolding validate_api_key parse_full_key split
  nonblank-validate_api_key [] c v v' h = ap fails h
  nonblank-validate_api_key (x ∷ s) c v v' h = refl

  accepted-Passes :
      (scope : String) (key : Text) (authorization : Option Text) (c : AuthContextOutput)
      (v v' : World o.Redis)
      → is_blank key ≡ false
      → are_encodable (some key) authorization ≡ true
      → validate_api_key o key v ≡ (ok c, v')
      → has_scope (context_of (auth_context_response c)) scope ≡ true
      → scope_dependency (auth_service v) scope (some key) authorization
        ≡ ok (context_of (auth_context_response c))
  unfolding scope_dependency validate_request_credentials translate validate_route validate
      unit_of_work auth_context_response has_scope
  accepted-Passes scope key authorization c v v' full ascii accepted granted = rw full (
      rw full (
        rw (are_encodable-forwarded (some key) authorization)
          (rw ascii (rw accepted (rw granted refl)))))

  issued-Encodable :
      (fresh : Uuid) (secret : Text) (authorization : Option Text)
      → is_ascii secret ≡ true
      → is_ascii (or_else authorization []) ≡ true
      → are_encodable (some (issue_secret o.sha256 fresh secret).full_key) authorization ≡ true
  unfolding issue_secret codes is_ascii
  issued-Encodable fresh secret authorization h k =
      rw (is_ascii-append (uuid_hex fresh) (95 ∷ secret) (uuid_hex-Ascii fresh) h) k

  -- A key that was just issued opens every resource service for each of its scopes, as its tenant:
  -- for an active tenant, an ASCII secret that is not empty and holds no underscore, an ASCII
  -- Authorization header if there is one, an expiry that is absent or ahead, and a count in the
  -- limiter's window within the limit.
  pub scope_dependency-issue_api_key :
      (fresh : Uuid) (secret : Text) (d : IssueApiKeyInput) (t : Tenant) (scopes : List String)
      (policy : RateLimitPolicy) (e : Option Time) (count : ℕ) (scope : String)
      (authorization : Option Text) (w : World o.Redis)
      → fresh < uuid_limit
      → Lacks 95 secret
      → is_blank secret ≡ false
      → is_ascii secret ≡ true
      → is_ascii (or_else authorization []) ≡ true
      → parse_tenant d.tenant_id ≡ some t.id
      → tenant_row t.id.value w.tenants ≡ some (tenant_to_row t)
      → is_active t ≡ true
      → validate_scopes (requested_scopes d.scopes) ≡ ok scopes
      → make_rate_limit_policy (or_else d.rate_limit_per_minute (default_rate_limit t.tier))
        ≡ ok policy
      → expiry w.now d.expires_in_days ≡ ok e
      → IsAhead e w.now
      → is_some (key_row fresh w.keys) ≡ false
      → (next_hit o (issued_key o fresh secret d t.id scopes policy w.now e) w).0 ≡ some count
      → ltb policy.requests_per_minute count ≡ false
      → any (λ s. str_eq s scope) scopes ≡ true
      → (out : IssuedApiKeyOutput) × (v : World o.Redis) × (c : TenantContext) × (issue_api_key o
            fresh secret d w
          ≡ (ok out, v))
        × (scope_dependency (auth_service v) scope (some out.api_key) authorization ≡ ok c)
        × (c.tenant_id ≡ tenant_str t.id)
        × (c.scopes ≡ scopes)
  unfolding auth_context_response has_scope
  scope_dependency-issue_api_key fresh secret d t scopes policy e count scope authorization w small
        clean full ascii header known tenant enabled scoped limited dated ahead absent reply within
        granted =
      let (out, v, v', c, issued, accepted, same, held, limit, printed) =
        validate_api_key-issue_api_key o fresh secret d t scopes policy e count w small clean full
          ascii known tenant enabled scoped limited dated ahead absent reply within in
      (
        out,
        v,
        context_of (auth_context_response c),
        issued,
        accepted-Passes scope out.api_key authorization c v v'
            (nonblank-validate_api_key out.api_key c v v' accepted)
            (rw printed (issued-Encodable fresh secret authorization ascii header)) accepted
            (rw held granted),
        same,
        held,
      )
