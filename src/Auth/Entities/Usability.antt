-- ===== src/Auth/Entities/Usability.antt =====
-- ApiKey.usability_at: what makes a key usable, stated without the order of the code's tests.
use cbir_engine.Auth.Entities.{ApiKey, Time, unexpired_at, usability_at, usable_in}
use cbir_engine.Auth.ValueObjects.{ApiKeyStatus, grace, revoked}
use cbir_engine.Base.{Option, Option-cases, arith, inl, inr, none, refl, some, true, ◌<◌, ◌↔◌, ◌≡◌}

-- A deadline is absent or still ahead.
abbrev pub IsAhead : Option Time → Time → Type 0
IsAhead none now = Unit
IsAhead (some t) now = now < t

-- A deadline is there and still ahead.
abbrev pub IsWithin : Option Time → Time → Type 0
IsWithin none now = ⊥
IsWithin (some t) now = now < t

abbrev pub StatusAllows : ApiKeyStatus → ApiKey → Time → Type 0
StatusAllows ApiKeyStatus.active k now = Unit
StatusAllows grace k now = IsWithin k.grace_expires_at now
StatusAllows revoked k now = ⊥

abbrev pub IsUsable : ApiKey → Time → Type 0
IsUsable k now = StatusAllows k.status k now × IsAhead k.expires_at now

unexpired_iff :
    (k : ApiKey) (now : Time) → ((unexpired_at k now).0 ≡ true) ↔ IsAhead k.expires_at now
unexpired_iff k now = elim (Option-cases k.expires_at) [
  | inl e ↦ rw e ((λ h. tt), (λ h. refl))
  | inr (t, e) ↦ rw e (ground arith)
]

in_grace_iff :
    (k : ApiKey) (now : Time)
    → ((usable_in grace k now).0 ≡ true)
      ↔ (IsWithin k.grace_expires_at now × IsAhead k.expires_at now)
in_grace_iff k now = elim (Option-cases k.grace_expires_at) [
  | inl e ↦ rw e ((λ h. cc), (λ h. elim h.0 [ ]))
  | inr (t, e) ↦ elim (Option-cases k.expires_at) [
    | inl e' ↦ rw e (rw e' (ground arith))
    | inr (t', e') ↦ rw e (rw e' (ground arith))
  ]
]

-- A key is usable at a time exactly when its own expiry is absent or still ahead and its status is
-- active, or grace with a grace deadline that is there and still ahead; a revoked key never is.
pub usability_at-IsUsable :
    (k : ApiKey) (now : Time) → ((usability_at k now).0 ≡ true) ↔ IsUsable k now
unfolding usability_at
usability_at-IsUsable k now = by_status k.status
  where
    by_status :
        (s : ApiKeyStatus)
        → ((usable_in s k now).0 ≡ true) ↔ (StatusAllows s k now × IsAhead k.expires_at now)
    by_status ApiKeyStatus.active =
        ((λ h. (tt, (unexpired_iff k now).0 h)), (λ h. (unexpired_iff k now).1 h.1))
    by_status grace = in_grace_iff k now
    by_status revoked = ((λ h. cc), (λ h. elim h.0 [ ]))
