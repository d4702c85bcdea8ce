-- ===== src/Auth/RateLimit/Bounds.antt =====
-- RedisRateLimiter: the window, the decision on a count, and the wait that a refusal names.
use cbir_engine.Auth.Ports.{Outside, RateLimitDecision}
use cbir_engine.Auth.RateLimit.{decide, window_seconds, window_start}
use cbir_engine.Base.{
  Bool-cases, arith, false, inl, inr, ltb, refl, some, true, ℕ, ◌%◌, ◌+◌, ◌-◌, ◌<◌, ◌≡◌, ◌≤◌, ◌⊎◌,
}

-- A count within the limit: what remains is the rest of it, and there is no wait.
abbrev pub IsAdmitted : ℕ → ℕ → RateLimitDecision → Type 0
IsAdmitted limit count d =
    (count ≤ limit)
    × (d.allowed ≡ true)
    × (d.remaining + count ≡ limit)
    × (d.retry_after_seconds ≡ 0)

-- A count over the limit: the wait is 1 to 60 seconds and ends where the next window starts.
abbrev pub IsRefused : ℕ → ℕ → ℕ → RateLimitDecision → Type 0
IsRefused limit now count d =
    (limit < count)
    × (d.allowed ≡ false)
    × (d.remaining ≡ 0)
    × (1 ≤ d.retry_after_seconds)
    × (d.retry_after_seconds ≤ 60)
    × ((now + d.retry_after_seconds) % 60 ≡ 0)

module _ (o : Outside) where
  window-wait :
      (now : ℕ)
      → let wait = window_start o now + window_seconds - now in
        (1 ≤ wait) × (wait ≤ 60) × ((now + wait) % 60 ≡ 0)
  window-wait now = (omega arith, omega arith, omega arith)

  -- On every count, either the count is at most the limit, the request is allowed and what remains
  -- is the rest of the limit, or it is over the limit, the request is refused and the wait it names
  -- is of 1 to 60 seconds and ends where the next window starts.
  pub decide-IsFixedWindow :
      (limit now count : ℕ)
      → IsAdmitted limit count (decide o limit now (some count))
        ⊎ IsRefused limit now count (decide o limit now (some count))
  unfolding decide
  decide-IsFixedWindow limit now count = elim (Bool-cases (ltb limit count)) [
    | inl e ↦ inr (
        rw e
          (ground arith, refl, refl, (window-wait now).0, (window-wait now).1, (window-wait now).2))
    | inr e ↦ inl (rw e (ground arith, refl, ground arith, refl))
  ]
