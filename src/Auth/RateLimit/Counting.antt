-- ===== src/Auth/RateLimit/Counting.antt =====
-- RedisRateLimiter.hit over a store that counts: requests of any buckets at any times.
use mathlib.Core.Path.{subst}
use cbir_engine.Auth.Entities.{Time, second}
use cbir_engine.Auth.Gateways.{World}
use cbir_engine.Auth.Ports.{Outside, RateLimitDecision}
use cbir_engine.Auth.RateLimit.{decide, hit, window_key, window_start}
use cbir_engine.Auth.RateLimit.Bounds.{decide-IsFixedWindow}
use cbir_engine.Base.{
  ==_iff, ==_refl, Bool, Bool-cases, List, Text, [], ap, arith, codes, drop, false, if◌then◌else◌,
  inl, inr, ok, refl, some, suc, sym, text_eq, text_eq_iff, text_eq_refl, true, ℕ, ◌&&◌, ◌+◌, ◌/◌,
  ◌<◌, ◌==◌, ◌∙◌, ◌∷◌, ◌≡◌, ◌≢◌, ◌≤◌, ◌⊎◌,
}
use cbir_engine.Base.Numerals.{last_part, show_nat-Lacks, show_nat-Separates}
use cbir_engine.Base.Strings.{show_nat}

-- An earlier request: its bucket and its time.
pub record Hit : Type 0 where
  pub bucket : Text
  pub at : Time

-- The requests of a bucket in one minute of the clock.
abbrev pub in_minute : Text → ℕ → Hit → Bool
in_minute bucket m h = text_eq h.bucket bucket && h.at / second / 60 == m

abbrev pub hits_of : Text → ℕ → List Hit → ℕ
hits_of bucket m [] = 0
hits_of bucket m (h ∷ hs) =
    let rest = hits_of bucket m hs in if in_minute bucket m h then suc rest else rest

both : (a b : Bool) → (a && b) ≡ true → (a ≡ true) × (b ≡ true)
both a b h = ground arith

apart :
    (bucket : Text) (m : ℕ) (h : Hit)
    → in_minute bucket m h ≡ false
    → h.bucket ≡ bucket
    → h.at / second / 60 ≡ m
    → ⊥
apart bucket m h outside same minute =
    let yes : in_minute bucket m h ≡ true =
      rw same (rw minute (rw (text_eq_refl bucket) (==_refl m))) in
    cc

module _ (o : Outside) where
  -- Keys differ between buckets and between minutes, and only there.
  window_key-Separates :
      (b c : Text) (t u : ℕ) → window_key o b t ≡ window_key o c u → (b ≡ c) × (t / 60 ≡ u / 60)
  unfolding window_key codes
  window_key-Separates b c t u e =
      let (same, shown) =
        last_part 58 b c (show_nat (window_start o t)) (show_nat (window_start o u))
          (show_nat-Lacks (window_start o t)) (show_nat-Lacks (window_start o u)) (ap (drop 3) e) in
      (same, omega (arith, show_nat-Separates (window_start o t) (window_start o u) shown))

  window_key-Minute : (b : Text) (t u : ℕ) → t / 60 ≡ u / 60 → window_key o b t ≡ window_key o b u
  unfolding window_key
  window_key-Minute b t u e =
      let start : window_start o t ≡ window_start o u = omega (arith, e) in rw start refl

  module _ (count : Text → ℕ → o.Redis → ℕ) where
    -- INCR with EXPIRE adds one to the count of its key and replies with it; the count stays until
    -- the time to live has passed, and no other key changes.
    pub record Counts : Type 0 where
      pub reply :
          (key : Text) (ttl now : ℕ) (r : o.Redis)
          → (o.incr_expire key ttl now r).0 ≡ some (suc (count key now r))
      pub counted :
          (key : Text) (ttl now later : ℕ) (r : o.Redis)
          → later < now + ttl
          → count key later (o.incr_expire key ttl now r).1 ≡ suc (count key now r)
      pub others :
          (key other : Text) (ttl now later : ℕ) (r : o.Redis)
          → key ≢ other
          → count other later (o.incr_expire key ttl now r).1 ≡ count other later r

    -- The world after the requests, the latest first.
    abbrev pub after_hits : ℕ → List Hit → World o.Redis → World o.Redis
    after_hits limit [] w = w
    after_hits limit (h ∷ hs) w =
        (hit o h.bucket limit (record (after_hits limit hs w) { now = h.at })).1

    -- No request of the bucket was counted in the minute before.
    abbrev pub IsUnused : Text → ℕ → World o.Redis → Type 0
    IsUnused bucket m w = (t : ℕ) → t / 60 ≡ m → count (window_key o bucket t) t w.redis ≡ 0

    count-after_hits :
        (law : Counts) (bucket : Text) (limit m t : ℕ) (hs : List Hit) (w : World o.Redis)
        → IsUnused bucket m w
        → t / 60 ≡ m
        → count (window_key o bucket t) t (after_hits limit hs w).redis ≡ hits_of bucket m hs
    unfolding hit
    count-after_hits law bucket limit m t [] w unused e = unused t e
    count-after_hits law bucket limit m t (h ∷ hs) w unused e =
        let u = h.at / second in
        let key = window_key o h.bucket u in
        let r = (after_hits limit hs w).redis in
        elim (Bool-cases (in_minute bucket m h)) [
          | inl inside ↦
              let (named, timed) = both (text_eq h.bucket bucket) (u / 60 == m) inside in
              let same = (text_eq_iff h.bucket bucket).0 named in
              let minute : u / 60 ≡ m = (==_iff (u / 60) m).0 timed in
              let keyed : key ≡ window_key o bucket t =
                ap (λ b. window_key o b u) same ∙ window_key-Minute bucket u t (minute ∙ sym e) in
              let soon : t < u + 120 = omega (arith, minute, e) in
              let one_more = law.counted key 120 u t r soon in
              let before : count key u r ≡ hits_of bucket m hs =
                ap (λ b. count (window_key o b u) u r) same
                ∙ count-after_hits law bucket limit m u hs w unused minute in
              rw inside (
                subst (λ k. count k t (o.incr_expire key 120 u r).1 ≡ suc (hits_of bucket m hs))
                  keyed (one_more ∙ ap suc before))
          | inr outside ↦ rw outside (
              law.others key (window_key o bucket t) 120 u t r (λ k.
                let (same, minute) = window_key-Separates h.bucket bucket u t k in
                apart bucket m h outside same (minute ∙ e))
              ∙ count-after_hits law bucket limit m t hs w unused e)
        ]

    -- Over a store that counts, and for a bucket that was not used in this minute before: whatever
    -- requests of this and other buckets came before, at whatever times, the next request of the
    -- bucket is allowed when those of the same bucket in the same minute are fewer than the limit,
    -- with the rest of the limit remaining, and refused otherwise.
    pub hit-AdmitsLimit :
        (law : Counts) (bucket : Text) (limit : ℕ) (now : Time) (hs : List Hit) (w : World o.Redis)
        → IsUnused bucket (now / second / 60) w
        → let n = hits_of bucket (now / second / 60) hs in
          (d : RateLimitDecision) × ((hit o bucket limit
              (record (after_hits limit hs w) { now = now })).0
            ≡ ok d)
          × (((n < limit) × (d.allowed ≡ true) × (d.remaining + n + 1 ≡ limit))
              ⊎ ((limit ≤ n)
                  × (d.allowed ≡ false)
                  × (1 ≤ d.retry_after_seconds)
                  × (d.retry_after_seconds ≤ 60)))
    unfolding hit
    hit-AdmitsLimit law bucket limit now hs w unused =
        let t = now / second in
        let n = hits_of bucket (t / 60) hs in
        let r = (after_hits limit hs w).redis in
        let replied =
          law.reply (window_key o bucket t) 120 t r
          ∙ ap (λ c. some (suc c))
              (count-after_hits law bucket limit (t / 60) t hs w unused refl) in
        (
          decide o limit t (some (suc n)),
          ap (λ c. ok (decide o limit t c)) replied,
          elim (decide-IsFixedWindow o limit t (suc n)) [
            | inl a ↦ inl (omega (arith, a.0), a.1, omega (arith, a.2))
            | inr a ↦ inr (omega (arith, a.0), a.1, a.3, a.4)
          ],
        )
