-- ===== src/Middleware/Metrics.antt =====
-- MetricsMiddleware (cbir_common/observability). The part of dispatch before it awaits the service
-- and the part after it are two operations, since requests interleave between them.
pub mod Traffic
pub mod Balance
use cbir_engine.Base.{
  Bool, List, Option, Text, [], codes, false, if◌then◌else◌, is_blank, some, suc, text_eq, true, ℕ,
  ◌&&◌, ◌-◌, ◌<◌, ◌∷◌, ◌≡◌,
}
use cbir_engine.Base.Strings.{show_nat}

-- The values of the labels of a time series.
abbrev pub Labels : Type 0
Labels = List Text

unfoldable pub labels_eq : Labels → Labels → Bool
labels_eq [] [] = true
labels_eq (a ∷ s) (b ∷ t) = text_eq a b && labels_eq s t
labels_eq _ _ = false

-- prometheus_client: collectors with labels, and how their series are read; and the clock.
pub record Prometheus : Type 1 where
  pub Time : Type 0
  pub elapsed : Time → Time → Time
  pub Counter : Type 0
  pub Histogram : Type 0
  pub Gauge : Type 0
  pub new_counter : Counter
  pub new_histogram : Histogram
  pub new_gauge : Gauge
  pub counter_inc : Labels → Counter → Counter
  pub observe : Labels → Time → Histogram → Histogram
  pub gauge_inc : Labels → Gauge → Gauge
  pub gauge_dec : Labels → Gauge → Gauge
  pub total : Labels → Counter → ℕ
  pub observations : Labels → Histogram → ℕ
  pub value : Labels → Gauge → ℕ

-- Each operation moves the series of its labels by one and no other.
pub record IsPrometheus (p : Prometheus) : Type 0 where
  pub total_new : (l : Labels) → p.total l p.new_counter ≡ 0
  pub observations_new : (l : Labels) → p.observations l p.new_histogram ≡ 0
  pub value_new : (l : Labels) → p.value l p.new_gauge ≡ 0
  pub total_inc :
      (l m : Labels) (c : p.Counter)
      → p.total l (p.counter_inc m c) ≡ (if labels_eq m l then suc (p.total l c) else p.total l c)
  pub observations_observe :
      (l m : Labels) (x : p.Time) (h : p.Histogram)
      → p.observations l (p.observe m x h)
        ≡ (if labels_eq m l then suc (p.observations l h) else p.observations l h)
  pub value_inc :
      (l m : Labels) (g : p.Gauge)
      → p.value l (p.gauge_inc m g) ≡ (if labels_eq m l then suc (p.value l g) else p.value l g)
  pub value_dec :
      (l m : Labels) (g : p.Gauge)
      → 0 < p.value m g
      → p.value l (p.gauge_dec m g) ≡ (if labels_eq m l then p.value l g - 1 else p.value l g)

-- What call_next comes to: a response with a status code, or an exception.
pub data Outcome : Type 0 where
  responded : ℕ → Outcome
  raised : Outcome

unfoldable pub status_of : Outcome → Text
unfolding codes show_nat
status_of (responded code) = show_nat code
status_of raised = codes "500"

-- _route_template: scope["route"] and its path, each of which can be missing
unfoldable pub route_template : Option (Option Text) → Text
unfolding codes
route_template (some (some path)) = if is_blank path then codes "unmatched" else path
route_template _ = codes "unmatched"

-- One request that was served, as its labels count it.
pub record Served : Type 0 where
  pub method : Text
  pub path : Text
  pub status : Text

module _ (p : Prometheus) where
  pub record Registry : Type 0 where
    pub requests : p.Counter
    pub latency : p.Histogram
    pub in_progress : p.Gauge

  abbrev pub new_registry : Registry
  new_registry = record {
    requests = p.new_counter;
    latency = p.new_histogram;
    in_progress = p.new_gauge;
  }

  module _ (service : Text) where
    abbrev pub in_progress_labels : Text → Labels
    in_progress_labels method = service ∷ method ∷ []

    abbrev pub latency_labels : Served → Labels
    latency_labels s = service ∷ s.method ∷ s.path ∷ []

    abbrev pub request_labels : Served → Labels
    request_labels s = service ∷ s.method ∷ s.path ∷ s.status ∷ []

    -- dispatch, up to `await call_next(request)`
    unfoldable pub begin_request : Text → Registry → Registry
    begin_request method r = record r {
      in_progress = p.gauge_inc (in_progress_labels method) r.in_progress;
    }

    abbrev pub served : Text → Option (Option Text) → Outcome → Served
    served method route outcome = record {
      method = method;
      path = route_template route;
      status = status_of outcome;
    }

    -- dispatch, from the return or the exception of call_next on
    unfoldable pub finish_request :
        Text → Option (Option Text) → Outcome → p.Time → p.Time → Registry → Registry
    finish_request method route outcome start now r =
        let s = served method route outcome in
        record {
          requests = p.counter_inc (request_labels s) r.requests;
          latency = p.observe (latency_labels s) (p.elapsed start now) r.latency;
          in_progress = p.gauge_dec (in_progress_labels method) r.in_progress;
        }
