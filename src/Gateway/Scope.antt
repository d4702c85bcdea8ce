-- ===== src/Gateway/Scope.antt =====
-- build_scope_dependency (cbir_common/auth): contexts that are let through, and refusals.
use cbir_engine.Base.{
  Bool-cases, Option, Result, String, Text, arith, err, inl, inr, is_some, ok, refl, true, ℕ, ◌==◌,
  ◌||◌, ◌≡◌, ◌⊎◌,
}
use cbir_engine.Gateway.{
  ErrorBody, Refusal, TenantContext, ValidateReply, context, enforce_scope, forwarded, has_scope,
  http, malformed, no_json, no_object, not_encodable, object, rejected, rejection, scope_dependency,
  translate, unhandled, unreachable, validate_request_credentials,
}

abbrev pub IsAuthStatus : ℕ → Type 0
IsAuthStatus n = (n ≡ 401) ⊎ (n ≡ 403) ⊎ (n ≡ 429) ⊎ (n ≡ 503)

-- The replies that the client does not expect.
abbrev pub IsUnexpected : ValidateReply → Type 0
IsUnexpected unreachable = ⊥
IsUnexpected not_encodable = Unit
IsUnexpected (context c) = ⊥
IsUnexpected malformed = Unit
IsUnexpected (rejected status body retry_after) =
    ((status ≡ 401) ⊎ (status ≡ 429)) × (body ≡ no_object)

-- A context that is let through has the scope and is what auth-service answered to the headers that
-- were forwarded; an HTTPException has one of four statuses; any other exception comes from a reply
-- that the client does not expect.
abbrev pub IsGuarded :
    (Option Text → Option Text → ValidateReply)
    → String
    → Option Text
    → Option Text
    → Result Refusal TenantContext
    → Type 0
IsGuarded post scope api_key authorization (ok c) =
    (has_scope c scope ≡ true) × (post (forwarded api_key) (forwarded authorization) ≡ context c)
IsGuarded post scope api_key authorization (err (http e)) = IsAuthStatus e.status
IsGuarded post scope api_key authorization (err unhandled) =
    IsUnexpected (post (forwarded api_key) (forwarded authorization))

rejection-Guarded :
    (post : Option Text → Option Text → ValidateReply) (scope : String) (a b : Option Text)
    (status : ℕ) (body : ErrorBody) (retry_after : Option Text)
    → post (forwarded a) (forwarded b) ≡ rejected status body retry_after
    → (status == 401 || status == 429) ≡ true
    → IsGuarded post scope a b (err (rejection status body retry_after))
rejection-Guarded post scope a b status no_json retry_after h e = ground arith
rejection-Guarded post scope a b status no_object retry_after h e = rw h (ground arith, refl)
rejection-Guarded post scope a b status (object detail) retry_after h e = ground arith

translate-Guarded :
    (post : Option Text → Option Text → ValidateReply) (scope : String) (a b : Option Text)
    (reply : ValidateReply)
    → post (forwarded a) (forwarded b) ≡ reply
    → IsGuarded post scope a b (enforce_scope scope (translate reply))
unfolding translate
translate-Guarded post scope a b unreachable h = inr (inr (inr refl))
translate-Guarded post scope a b (context c) h = elim (Bool-cases (has_scope c scope)) [
  | inl e ↦ rw e (e, h)
  | inr e ↦ rw e (inr (inl refl))
]
translate-Guarded post scope a b not_encodable h = rw h tt
translate-Guarded post scope a b malformed h = rw h tt
translate-Guarded post scope a b (rejected status body retry_after) h =
    elim (Bool-cases (status == 401 || status == 429)) [
      | inl e ↦ rw e (rejection-Guarded post scope a b status body retry_after h e)
      | inr e ↦ rw e (inr (inr (inr refl)))
    ]

-- Whatever the call of auth-service comes to, a request passes only with a context that auth-service
-- returned for its headers and that has the scope. Any other request is refused with status 401, 403,
-- 429 or 503, or ends in an exception that is not handled; the latter only when a header cannot be
-- encoded, a 200 carries no context, or a 401 or 429 carries JSON that is no object.
pub scope_dependency-IsGuarded :
    (post : Option Text → Option Text → ValidateReply) (scope : String)
    (api_key authorization : Option Text)
    → IsGuarded post scope api_key authorization (scope_dependency post scope api_key authorization)
unfolding scope_dependency validate_request_credentials
scope_dependency-IsGuarded post scope api_key authorization =
    elim (Bool-cases (is_some (forwarded api_key) || is_some (forwarded authorization))) [
      | inl e ↦ rw e (
          translate-Guarded post scope api_key authorization
            (post (forwarded api_key) (forwarded authorization)) refl)
      | inr e ↦ rw e (inl refl)
    ]
