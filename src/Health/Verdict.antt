-- ===== src/Health/Verdict.antt =====
-- The readiness checks: when a service says that it is ready.
use cbir_engine.Base.{
  Bool, Bool-cases, Option, String, [], arith, false, inl, inr, none, refl, some, true, ◌↔◌, ◌≡◌,
}
use cbir_engine.Health.{Dependencies, all_reachable, if_wired, query_readyz, readiness}

abbrev Reachable : Option Bool → Type 0
Reachable none = Unit
Reachable (some b) = b ≡ true

all_reachable-if_wired :
    (name : String) (o : Option Bool) (rest : Dependencies)
    → (all_reachable (if_wired name o rest) ≡ true) ↔ (Reachable o × (all_reachable rest ≡ true))
all_reachable-if_wired name none rest = (λ h. (tt, h), λ h. h.1)
all_reachable-if_wired name (some true) rest = (λ h. (refl, h), λ h. h.1)
all_reachable-if_wired name (some false) rest = (λ h. cc, λ h. cc)

readiness-Ready :
    (ds : Dependencies) → ((readiness ds).status_code ≡ 200) ↔ (all_reachable ds ≡ true)
readiness-Ready ds = elim (Bool-cases (all_reachable ds)) [
  | inl e ↦ rw e (λ h. refl, λ h. refl)
  | inr e ↦ rw e (λ h. let never : ⊥ = omega (arith, h) in elim never [ ], λ h. cc)
]

-- query-service answers 200 exactly when every dependency that it was built with can be reached.
query_readyz-Reachable :
    (embedder index cache auth : Option Bool)
    → ((query_readyz embedder index cache auth).status_code ≡ 200)
      ↔ (Reachable embedder × Reachable index × Reachable cache × Reachable auth)
unfolding query_readyz
query_readyz-Reachable embedder index cache auth =
    let last = if_wired "auth_service" auth [] in
    let third = if_wired "cache" cache last in
    let second = if_wired "vector_db" index third in
    let a = all_reachable-if_wired "ai_service" embedder second in
    let b = all_reachable-if_wired "vector_db" index third in
    let c = all_reachable-if_wired "cache" cache last in
    let d = all_reachable-if_wired "auth_service" auth [] in
    let ready = readiness-Ready (if_wired "ai_service" embedder second) in
    (
      λ h.
          let (p, h1) = a.0 (ready.0 h) in
          let (q, h2) = b.0 h1 in let (r, h3) = c.0 h2 in (p, q, r, (d.0 h3).0),
      λ h. ready.1 (a.1 (h.0, b.1 (h.1, c.1 (h.2, d.1 (h.3, refl))))),
    )
