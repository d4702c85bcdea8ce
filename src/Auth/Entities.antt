-- ===== src/Auth/Entities.antt =====
-- auth_service/domain/entities. A time is a count of microseconds since the epoch.
pub mod Usability
use cbir_engine.Auth.ValueObjects.{
  ApiKeyStatus, AuthError, PlanTier, RateLimitPolicy, TenantStatus, grace, overflow_error, revoked,
  suspended,
}
use cbir_engine.Base.{
  Bool, List, Option, Result, String, Text, err, false, if◌then◌else◌, leb, negsuc, none, ok, pos,
  some, suc, true, ℕ, ℤ, ◌*◌, ◌+◌, ◌-◌,
}
use cbir_engine.Kernel.Json.{Dict}
use cbir_engine.Kernel.TenantId.{TenantId}
use cbir_engine.Kernel.Uuid.{Uuid}

abbrev pub Time : Type 0
Time = ℕ

-- datetime.max in UTC; adding past it is an OverflowError.
abbrev pub max_time : ℕ
max_time = 253402300799999999

abbrev pub second : ℕ
second = 1000000

abbrev pub day : ℕ
day = 86400000000

unfoldable pub after : Time → ℕ → Result AuthError Time
after now delta = if leb (now + delta) max_time then ok (now + delta) else err overflow_error

-- now + timedelta(days=n), n of either sign; a time before the year 1 is an OverflowError too,
-- and so is here one before the epoch, which no request reaches (`expires_in_days` is at least 1)
unfoldable pub after_days : Time → ℤ → Result AuthError Time
unfolding after
after_days now (pos n) = after now (n * day)
after_days now (negsuc n) =
    if leb (suc n * day) now then ok (now - suc n * day) else err overflow_error

pub record Tenant : Type 0 where
  pub id : TenantId
  pub name : Text
  pub tier : PlanTier
  pub status : TenantStatus
  pub settings : Dict
  pub created_at : Option Time
  pub updated_at : Option Time

unfoldable pub is_active : Tenant → Bool
is_active t = elim t.status [ TenantStatus.active ↦ true | suspended ↦ false ]

pub record ApiKey : Type 0 where
  pub id : Uuid
  pub tenant_id : TenantId
  pub name : Text
  pub secret_hash : Text
  pub scopes : List String
  pub status : ApiKeyStatus
  pub rate_limit : RateLimitPolicy
  pub created_at : Time
  pub expires_at : Option Time
  pub grace_expires_at : Option Time
  pub revoked_at : Option Time
  pub rotated_from_id : Option Uuid

-- A deadline that is there and has passed.
abbrev pub passed : Option Time → Time → Bool
passed none now = false
passed (some t) now = leb t now

-- A grace deadline that is absent has passed.
abbrev pub grace_over : Option Time → Time → Bool
grace_over none now = true
grace_over (some t) now = leb t now

abbrev pub unexpired_at : ApiKey → Time → Bool × String
unexpired_at k now = if passed k.expires_at now then (false, "API key has expired") else (true, "")

abbrev pub usable_in : ApiKeyStatus → ApiKey → Time → Bool × String
usable_in revoked k now = (false, "API key has been revoked")
usable_in grace k now =
    if grace_over k.grace_expires_at now
    then (false, "API key was rotated and its grace period has ended")
    else unexpired_at k now
usable_in ApiKeyStatus.active k now = unexpired_at k now

unfoldable pub usability_at : ApiKey → Time → Bool × String
usability_at k now = usable_in k.status k now
