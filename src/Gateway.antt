-- ===== src/Gateway.antt =====
-- shared/common-libs/cbir_common/auth: how resource services authenticate a request through
-- auth-service and enforce a scope.
pub mod EndToEnd
pub mod Witnesses
pub mod Scope
use cbir_engine.Base.{
  Bool, List, Option, Result, String, Text, any, codes, err, false, if◌then◌else◌, is_blank,
  is_some, none, ok, or_else, some, str_eq, true, ℕ, ◌==◌, ◌||◌,
}
use cbir_engine.Kernel.Json.{Json, str}

pub record TenantContext : Type 0 where
  pub tenant_id : Text
  pub api_key_id : Text
  pub scopes : List String
  pub plan_tier : String

unfoldable pub has_scope : TenantContext → String → Bool
has_scope c scope = any (λ t. str_eq t scope) c.scopes

-- The body of an error response: no JSON, JSON that is no object, or an object and its detail.
pub data ErrorBody : Type 0 where
  no_json : ErrorBody
  no_object : ErrorBody
  object : Option Json → ErrorBody

-- What the call of POST /internal/validate comes to: an httpx.HTTPError; a UnicodeEncodeError, which
-- httpx raises for a header that is not ASCII; a 200 with the fields of a context, or with any other
-- body; or another response, perhaps with a Retry-After.
pub data ValidateReply : Type 0 where
  unreachable : ValidateReply
  not_encodable : ValidateReply
  context : TenantContext → ValidateReply
  malformed : ValidateReply
  rejected : ℕ → ErrorBody → Option Text → ValidateReply

-- The HTTPException that a resource service raises.
pub record HttpException : Type 0 where
  pub status : ℕ
  pub detail : Json
  pub retry_after : Option Text
  pub www_authenticate : Bool

-- How a request is refused: by an HTTPException, or by an exception that the client does not expect
-- and that the framework answers with a 500.
pub data Refusal : Type 0 where
  http : HttpException → Refusal
  unhandled : Refusal

abbrev plain_error : ℕ → String → HttpException
plain_error status detail = record {
  status = status;
  detail = str (codes detail);
  retry_after = none;
  www_authenticate = false;
}

abbrev filled_text : Option Text → Option Text
filled_text none = none
filled_text (some t) = if is_blank t then none else some t

abbrev pub credential_error : ℕ → Json → Option Text → Refusal
credential_error status detail retry_after = http (record {
  status = status;
  detail = detail;
  retry_after = filled_text retry_after;
  www_authenticate = status == 401;
})

-- A 401 or 429: `response.json().get("detail", "unauthorized")`, where only a ValueError is caught
abbrev pub rejection : ℕ → ErrorBody → Option Text → Refusal
rejection status no_json retry_after =
    credential_error status (str (codes "unauthorized")) retry_after
rejection status no_object retry_after = unhandled
rejection status (object detail) retry_after =
    credential_error status (or_else detail (str (codes "unauthorized"))) retry_after

unfoldable pub translate : ValidateReply → Result Refusal TenantContext
translate unreachable = err (http (plain_error 503 "authentication service unavailable"))
translate not_encodable = err unhandled
translate (context c) = ok c
translate malformed = err unhandled
translate (rejected status body retry_after) =
    if status == 401 || status == 429
    then err (rejection status body retry_after)
    else err (http (plain_error 503 "authentication service returned an unexpected response"))

-- The headers that are forwarded: those that are present and not empty.
abbrev pub forwarded : Option Text → Option Text
forwarded = filled_text

-- AuthServiceClient.validate_request_credentials, over the call of auth-service
unfoldable pub validate_request_credentials :
    (Option Text → Option Text → ValidateReply)
    → Option Text
    → Option Text
    → Result Refusal TenantContext
validate_request_credentials post api_key authorization =
    if is_some (forwarded api_key) || is_some (forwarded authorization)
    then translate (post (forwarded api_key) (forwarded authorization))
    else err (
        http (record {
          status = 401;
          detail = str (codes "missing credentials: provide X-API-Key or Authorization: Bearer");
          retry_after = none;
          www_authenticate = true;
        }))

abbrev pub enforce_scope : String → Result Refusal TenantContext → Result Refusal TenantContext
enforce_scope scope (err e) = err e
enforce_scope scope (ok c) =
    if has_scope c scope
    then ok c
    else err (http (plain_error 403 "credential lacks required scope"))

-- build_scope_dependency
unfoldable pub scope_dependency :
    (Option Text → Option Text → ValidateReply)
    → String
    → Option Text
    → Option Text
    → Result Refusal TenantContext
scope_dependency post scope api_key authorization =
    enforce_scope scope (validate_request_credentials post api_key authorization)
