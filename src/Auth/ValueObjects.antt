-- ===== src/Auth/ValueObjects.antt =====
-- auth_service/domain/value_objects, and the exceptions of the service.
pub mod Scopes
pub mod Policy
use cbir_engine.Base.{
  Bool, List, Result, String, Text, [], all, any, err, if◌then◌else◌, ltb_ℤ, ok, pos, pos_part,
  refl, str_eq, ℕ, ℤ, ◌++◌, ◌∷◌, ◌≡◌,
}

-- The exceptions that the use cases and the infrastructure raise.
pub data AuthError : Type 0 where
  tenant_not_found : Text → AuthError
  tenant_name_conflict : Text → AuthError
  api_key_not_found : Text → AuthError
  authentication_error : String → AuthError
  rate_limit_exceeded : ℕ → ℕ → AuthError
  unknown_scope : AuthError
  value_error : AuthError
  overflow_error : AuthError
  integrity_error : AuthError
  redis_error : AuthError
  database_error : AuthError

pub data TenantStatus : Type 0 where
  active suspended : TenantStatus

pub data PlanTier : Type 0 where
  free standard enterprise : PlanTier

pub data ApiKeyStatus : Type 0 where
  active grace revoked : ApiKeyStatus

unfoldable pub default_rate_limit : PlanTier → ℤ
default_rate_limit free = pos 60
default_rate_limit standard = pos 600
default_rate_limit enterprise = pos 3000

-- `.value` of each enum, and the enum called on a text: ValueError where no member has it.
abbrev pub tenant_status_value : TenantStatus → String
tenant_status_value TenantStatus.active = "active"
tenant_status_value suspended = "suspended"

abbrev pub plan_tier_value : PlanTier → String
plan_tier_value free = "free"
plan_tier_value standard = "standard"
plan_tier_value enterprise = "enterprise"

abbrev pub api_key_status_value : ApiKeyStatus → String
api_key_status_value ApiKeyStatus.active = "active"
api_key_status_value grace = "grace"
api_key_status_value revoked = "revoked"

unfoldable pub parse_tenant_status : String → Result AuthError TenantStatus
parse_tenant_status s =
    if str_eq s "active"
    then ok TenantStatus.active
    else if str_eq s "suspended"
    then ok suspended
    else err value_error

unfoldable pub parse_plan_tier : String → Result AuthError PlanTier
parse_plan_tier s =
    if str_eq s "free"
    then ok free
    else if str_eq s "standard"
    then ok standard
    else if str_eq s "enterprise"
    then ok enterprise
    else err value_error

unfoldable pub parse_api_key_status : String → Result AuthError ApiKeyStatus
parse_api_key_status s =
    if str_eq s "active"
    then ok ApiKeyStatus.active
    else if str_eq s "grace"
    then ok grace
    else if str_eq s "revoked"
    then ok revoked
    else err value_error

pub parse_tenant_status-value :
    (s : TenantStatus) → parse_tenant_status (tenant_status_value s) ≡ ok s
unfolding parse_tenant_status
parse_tenant_status-value TenantStatus.active = refl
parse_tenant_status-value suspended = refl

pub parse_plan_tier-value : (p : PlanTier) → parse_plan_tier (plan_tier_value p) ≡ ok p
unfolding parse_plan_tier
parse_plan_tier-value free = refl
parse_plan_tier-value standard = refl
parse_plan_tier-value enterprise = refl

pub parse_api_key_status-value :
    (s : ApiKeyStatus) → parse_api_key_status (api_key_status_value s) ≡ ok s
unfolding parse_api_key_status
parse_api_key_status-value ApiKeyStatus.active = refl
parse_api_key_status-value grace = refl
parse_api_key_status-value revoked = refl

abbrev pub known_scopes : List String
known_scopes = "catalog:read" ∷ "catalog:write" ∷ "search:query" ∷ []

abbrev pub default_scopes : List String
default_scopes = "catalog:read" ∷ "catalog:write" ∷ "search:query" ∷ []

abbrev pub has_member : String → List String → Bool
has_member s = any (λ t. str_eq t s)

-- tuple(dict.fromkeys(scopes)): the keys in the order of their first insertion
unfoldable pub from_keys : List String → List String → List String
from_keys seen [] = seen
from_keys seen (s ∷ ss) = from_keys (if has_member s seen then seen else seen ++ (s ∷ [])) ss

unfoldable pub validate_scopes : List String → Result AuthError (List String)
validate_scopes [] = err unknown_scope
validate_scopes (s ∷ ss) =
    if all (λ t. has_member t known_scopes) (s ∷ ss)
    then ok (from_keys [] (s ∷ ss))
    else err unknown_scope

pub record RateLimitPolicy : Type 0 where
  pub requests_per_minute : ℕ

-- RateLimitPolicy(n), with its `__post_init__`
unfoldable pub make_rate_limit_policy : ℤ → Result AuthError RateLimitPolicy
make_rate_limit_policy n =
    if ltb_ℤ n (pos 1) then err value_error else ok (record { requests_per_minute = pos_part n })
