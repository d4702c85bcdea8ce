-- ===== src/Middleware/Metrics/Balance.antt =====
-- MetricsMiddleware: what the series say of the requests, under every interleaving.
use cbir_engine.Base.{
  List, Text, [], ap, arith, if◌then◌else◌, refl, suc, text_eq_refl, true, ℕ, ◌++◌, ◌<◌, ◌∙◌, ◌∷◌,
  ◌≡◌,
}
use cbir_engine.Middleware.Metrics.{
  IsPrometheus, Labels, Prometheus, begin_request, finish_request, in_progress_labels, labels_eq,
  latency_labels, request_labels,
}
use cbir_engine.Middleware.Metrics.Traffic.{
  Reach, Step, Traffic, arrive, at_rest, later, leave, rested,
}

abbrev pub tally : {A : Type 0} → (A → Labels) → Labels → List A → ℕ
tally key l [] = 0
tally key l (x ∷ xs) = let rest = tally key l xs in if labels_eq (key x) l then suc rest else rest

labels_eq_refl : (l : Labels) → labels_eq l l ≡ true
unfolding labels_eq
labels_eq_refl [] = refl
labels_eq_refl (a ∷ l) = rw (text_eq_refl a) (labels_eq_refl l)

-- An element in the middle counts as one at the head.
tally-middle :
    {A : Type 0} (key : A → Labels) (l : Labels) (xs : List A) (y : A) (ys : List A)
    → tally key l (xs ++ y ∷ ys) ≡ tally key l (y ∷ xs ++ ys)
tally-middle key l [] y ys = refl
tally-middle key l (x ∷ xs) y ys = ground (arith, tally-middle key l xs y ys)

tally-positive :
    {A : Type 0} (key : A → Labels) (y : A) (xs : List A) → 0 < tally key (key y) (y ∷ xs)
tally-positive key y xs = rw (labels_eq_refl (key y)) (omega arith)

module _ (p : Prometheus) (service : Text) where
  -- Every series of the registry is the count of the requests that its labels describe.
  pub record IsBalanced (t : Traffic p service) : Type 0 where
    pub in_progress :
        (l : Labels)
        → p.value l t.registry.in_progress ≡ tally (in_progress_labels p service) l t.in_flight
    pub requests :
        (l : Labels) → p.total l t.registry.requests ≡ tally (request_labels p service) l t.finished
    pub latency :
        (l : Labels)
        → p.observations l t.registry.latency ≡ tally (latency_labels p service) l t.finished

  module _ (lawful : IsPrometheus p) where
    at_rest-IsBalanced : IsBalanced (at_rest p service)
    at_rest-IsBalanced = record {
      in_progress = lawful.value_new;
      requests = lawful.total_new;
      latency = lawful.observations_new;
    }

    -- A departure takes one request off the gauge.
    left :
        (l : Labels) (t : Traffic p service) (xs : List Text) (m : Text) (ys : List Text)
        → t.in_flight ≡ xs ++ m ∷ ys
        → IsBalanced t
        → p.value l (p.gauge_dec (in_progress_labels p service m) t.registry.in_progress)
          ≡ tally (in_progress_labels p service) l (xs ++ ys)
    left l t xs m ys e h =
        let key = in_progress_labels p service in
        let at =
          λ (k : Labels). h.in_progress k ∙ ap (tally key k) e ∙ tally-middle key k xs m ys in
        let positive : 0 < p.value (key m) t.registry.in_progress =
          rw (at (key m)) (tally-positive key m (xs ++ ys)) in
        lawful.value_dec l (key m) t.registry.in_progress positive ∙ rw (at l) (ground arith)

    Step-IsBalanced : {s t : Traffic p service} → Step p service s t → IsBalanced s → IsBalanced t
    unfolding begin_request finish_request
    Step-IsBalanced {s} (arrive method) h = record {
      in_progress = λ l. lawful.value_inc l _ _ ∙ rw (h.in_progress l) refl;
      requests = h.requests;
      latency = h.latency;
    }
    Step-IsBalanced {s} (leave before method after route outcome start now e) h = record {
      in_progress = λ l. left l s before method after e h;
      requests = λ l. lawful.total_inc l _ _ ∙ rw (h.requests l) refl;
      latency = λ l. lawful.observations_observe l _ _ _ ∙ rw (h.latency l) refl;
    }

    -- However the requests of a service interleave, and whether they end in a response or in an
    -- exception, the gauge of each method is the number of its requests in flight, and every counter
    -- and histogram has counted each request that left exactly once, under its labels.
    pub Reach-IsBalanced : {t : Traffic p service} → Reach p service t → IsBalanced t
    Reach-IsBalanced rested = at_rest-IsBalanced
    Reach-IsBalanced (later r step) = Step-IsBalanced step (Reach-IsBalanced r)
