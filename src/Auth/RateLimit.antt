-- ===== src/Auth/RateLimit.antt =====
-- auth_service/infrastructure/ratelimit: the fixed-window limiter and the revocation list, over
-- the Redis commands of `Outside`.
pub mod Counting
pub mod Bounds
use cbir_engine.Auth.Entities.{second}
use cbir_engine.Auth.Gateways.{World}
use cbir_engine.Auth.Ports.{Outside, RateLimitDecision}
use cbir_engine.Auth.ValueObjects.{AuthError, redis_error}
use cbir_engine.Base.{
  Bool, Exec, Option, Text, codes, err, false, if◌then◌else◌, ltb, none, ok, or_else, some, true, ℕ,
  ◌%◌, ◌*◌, ◌++◌, ◌+◌, ◌-◌, ◌/◌, ◌∷◌,
}
use cbir_engine.Base.Strings.{show_nat}

abbrev pub window_seconds : ℕ
window_seconds = 60

module _ (o : Outside) where
  -- int(time.time())
  abbrev pub unix_time : World o.Redis → ℕ
  unix_time w = w.now / second

  abbrev pub window_start : ℕ → ℕ
  window_start now = now - now % window_seconds

  unfoldable pub window_key : Text → ℕ → Text
  window_key bucket now = codes "rl:" ++ (bucket ++ (58 ∷ show_nat (window_start now)))

  -- The decision on the reply of the pipeline; `none` is a RedisError, which fails open.
  unfoldable pub decide : ℕ → ℕ → Option ℕ → RateLimitDecision
  decide limit now none = record {
    allowed = true;
    limit_per_minute = limit;
    remaining = limit;
    retry_after_seconds = 0;
  }
  decide limit now (some count) =
      if ltb limit count
      then record {
        allowed = false;
        limit_per_minute = limit;
        remaining = 0;
        retry_after_seconds = window_start now + window_seconds - now;
      }
      else record {
        allowed = true;
        limit_per_minute = limit;
        remaining = limit - count;
        retry_after_seconds = 0;
      }

  -- RedisRateLimiter.hit
  unfoldable pub hit : Text → ℕ → Exec (World o.Redis) AuthError RateLimitDecision
  hit bucket limit w =
      let now = unix_time w in
      let (reply, redis') =
        o.incr_expire (window_key bucket now) (window_seconds * 2) now w.redis in
      (ok (decide limit now reply), record w { redis = redis' })

  unfoldable pub revoked_key : Text → Text
  revoked_key api_key_id = codes "revoked-key:" ++ api_key_id

  -- RedisRevocationList.revoke, of a list whose tokens live for `ttl` seconds; a RedisError is
  -- raised again
  unfoldable pub revoke : ℕ → Text → Exec (World o.Redis) AuthError (Unit {0})
  revoke ttl api_key_id w =
      let (written, redis') = o.setex (revoked_key api_key_id) (ttl + 60) (unix_time w) w.redis in
      (if written then ok tt else err redis_error, record w { redis = redis' })

  -- RedisRevocationList.is_revoked; a RedisError fails open
  unfoldable pub is_revoked : Text → Exec (World o.Redis) AuthError Bool
  is_revoked api_key_id w =
      (ok (or_else (o.exists_key (revoked_key api_key_id) (unix_time w) w.redis) false), w)
