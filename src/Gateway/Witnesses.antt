-- ===== src/Gateway/Witnesses.antt =====
-- A concrete request to a resource service.
use cbir_engine.Auth.ApiKeys.{issue_api_key, revoke_api_key}
use cbir_engine.Auth.Entities.{after, after_days, day, is_active}
use cbir_engine.Auth.Fixtures.{
  acme, memory, policy, request, secret_Lacks, settings, start_world, stored,
}
use cbir_engine.Auth.Gateways.{World}
use cbir_engine.Auth.Http.{Failure}
use cbir_engine.Auth.Ports.{ApiKeyMetadataOutput, IssuedApiKeyOutput}
use cbir_engine.Auth.Secrets.{issue_secret}
use cbir_engine.Auth.Secrets.RoundTrip.{parse_full_key-issue_secret}
use cbir_engine.Auth.ValueObjects.{
  default_rate_limit, default_scopes, from_keys, make_rate_limit_policy, validate_scopes,
}
use cbir_engine.Base.{
  Option, Text, [], arith, codes, is_ascii, none, ok, refl, some, ℕ, ◌*◌, ◌+◌, ◌∷◌, ◌≡◌,
}
use cbir_engine.Gateway.{TenantContext, ValidateReply, context, scope_dependency}
use cbir_engine.Gateway.EndToEnd.{
  IsTurnedAway, are_encodable, auth_service, scope_dependency-issue_api_key,
  scope_dependency-revoke_api_key,
}
use cbir_engine.Gateway.Scope.{IsGuarded, scope_dependency-IsGuarded}
use cbir_engine.Kernel.Json.{Json}
use cbir_engine.Kernel.TenantId.{parse_tenant-tenant_str, tenant_str}
use cbir_engine.Kernel.Uuid.{uuid_str}
use cbir_engine.Kernel.Uuid.RoundTrip.{uuid_parse-uuid_str}

abbrev granted : TenantContext
granted = record {
  tenant_id = codes "t";
  api_key_id = codes "k";
  scopes = "catalog:read" ∷ [];
  plan_tier = "free";
}

abbrev answer : Option Text → Option Text → ValidateReply
answer api_key authorization = context granted

scope_dependency-IsGuarded_example :
    IsGuarded answer "catalog:write"
      (some (codes "key"))
      none
      (scope_dependency answer "catalog:write" (some (codes "key")) none)
scope_dependency-IsGuarded_example =
    scope_dependency-IsGuarded answer "catalog:write" (some (codes "key")) none

abbrev no_detail : Failure → Option Json
no_detail f = none

scope_dependency-revoke_api_key_example :
    (m : ApiKeyMetadataOutput) × (v : World ℕ) × (revoke_api_key memory settings
        (uuid_str 9)
        start_world
      ≡ (ok m, v))
    × IsTurnedAway memory settings no_detail
        (are_encodable memory settings no_detail
          (some (issue_secret memory.sha256 9 (codes "s3cret")).full_key)
          none)
        (scope_dependency
          (auth_service memory settings no_detail v)
          "search:query"
          (some (issue_secret memory.sha256 9 (codes "s3cret")).full_key)
          none)
unfolding codes
scope_dependency-revoke_api_key_example =
    scope_dependency-revoke_api_key memory settings no_detail (uuid_str 9)
      (issue_secret memory.sha256 9 (codes "s3cret")).full_key (codes "s3cret") stored
      "search:query" none start_world (uuid_parse-uuid_str 9 (omega arith)) refl (omega arith) refl
      (parse_full_key-issue_secret memory.sha256 9 (codes "s3cret") (omega arith) secret_Lacks refl)

scope_dependency-issue_api_key_example :
    (out : IssuedApiKeyOutput) × (v : World ℕ) × (c : TenantContext) × (issue_api_key memory 11
        (codes "s3cret")
        request
        start_world
      ≡ (ok out, v))
    × (scope_dependency
          (auth_service memory settings no_detail v)
          "catalog:read"
          (some out.api_key)
          none
        ≡ ok c)
    × (c.tenant_id ≡ tenant_str acme.id)
    × (c.scopes ≡ default_scopes)
unfolding validate_scopes from_keys make_rate_limit_policy default_rate_limit is_active after_days
    after codes is_ascii
scope_dependency-issue_api_key_example =
    scope_dependency-issue_api_key memory settings no_detail 11 (codes "s3cret") request acme
      default_scopes policy (some (120000000 + 2 * day)) 1 "catalog:read" none start_world
      (omega arith) secret_Lacks refl refl refl (parse_tenant-tenant_str acme.id (omega arith)) refl
      refl refl refl refl (omega arith) refl refl refl refl
