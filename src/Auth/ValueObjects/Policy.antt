-- ===== src/Auth/ValueObjects/Policy.antt =====
-- RateLimitPolicy and its `__post_init__`.
use cbir_engine.Auth.ValueObjects.{AuthError, RateLimitPolicy, make_rate_limit_policy, value_error}
use cbir_engine.Base.{
  Bool, Result, ap, arith, err, false, if◌then◌else◌, ltb_ℤ, negsuc, ok, pos, pos_part, refl, true,
  ℕ, ℤ, ◌≡◌, ◌≤◌,
}

abbrev policy_size : RateLimitPolicy → Result AuthError RateLimitPolicy → ℕ
policy_size d (ok p) = p.requests_per_minute
policy_size d (err e) = d.requests_per_minute

Positive-checked :
    (n : ℤ) (b : Bool) (p : RateLimitPolicy)
    → ltb_ℤ n (pos 1) ≡ b
    → (if b then err value_error else ok (record { requests_per_minute = pos_part n })) ≡ ok p
    → 1 ≤ p.requests_per_minute
Positive-checked n true p e h = cc
Positive-checked (negsuc n) false p e h = cc
Positive-checked (pos n) false p e h =
    let same : n ≡ p.requests_per_minute = ap (policy_size p) h in
    let big : 1 ≤ n = ground arith in omega (arith, same, big)

pub make_rate_limit_policy-Positive :
    (n : ℤ) (p : RateLimitPolicy) → make_rate_limit_policy n ≡ ok p → 1 ≤ p.requests_per_minute
unfolding make_rate_limit_policy
make_rate_limit_policy-Positive n p h = Positive-checked n (ltb_ℤ n (pos 1)) p refl h
