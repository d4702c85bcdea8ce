-- ===== src/Middleware/Witnesses.antt =====
-- Two requests that overlap, and one request with a request id, over collectors and headers that are
-- functions.
use cbir_engine.Base.{Option, Text, [], codes, if◌then◌else◌, none, refl, some, suc, ℕ, ◌-◌, ◌∷◌}
use cbir_engine.Middleware.Headers.{
  Behind, HeaderMap, Message, or_default, request_id_header, same_name,
}
use cbir_engine.Middleware.Metrics.{
  IsPrometheus, Labels, Prometheus, begin_request, finish_request, labels_eq, new_registry, raised,
  served,
}
use cbir_engine.Middleware.Metrics.Balance.{IsBalanced, Reach-IsBalanced}
use cbir_engine.Middleware.Metrics.Traffic.{Reach, Traffic, arrive, later, leave, rested}

abbrev moved : (ℕ → ℕ) → Labels → (Labels → ℕ) → Labels → ℕ
moved f m series l = if labels_eq m l then f (series l) else series l

abbrev series : Prometheus
series = record {
  Time = ℕ;
  elapsed = λ start now. now - start;
  Counter = Labels → ℕ;
  Histogram = Labels → ℕ;
  Gauge = Labels → ℕ;
  new_counter = λ l. 0;
  new_histogram = λ l. 0;
  new_gauge = λ l. 0;
  counter_inc = moved suc;
  observe = λ m seconds. moved suc m;
  gauge_inc = moved suc;
  gauge_dec = moved (λ n. n - 1);
  total = λ l c. c l;
  observations = λ l h. h l;
  value = λ l g. g l;
}

series-IsPrometheus : IsPrometheus series
series-IsPrometheus = record {
  total_new = λ l. refl;
  observations_new = λ l. refl;
  value_new = λ l. refl;
  total_inc = λ l m c. refl;
  observations_observe = λ l m x h. refl;
  value_inc = λ l m g. refl;
  value_dec = λ l m g h. refl;
}

-- A GET and a POST arrive, and the GET leaves with an exception.
abbrev overlapping : Traffic series (codes "catalog")
overlapping = record {
  registry =
      finish_request series (codes "catalog") (codes "GET") (some (some (codes "/v1/items"))) raised
        5 9
        (begin_request series (codes "catalog") (codes "POST")
          (begin_request series (codes "catalog") (codes "GET") (new_registry series)));
  in_flight = codes "POST" ∷ [];
  finished =
      served series (codes "catalog") (codes "GET") (some (some (codes "/v1/items"))) raised ∷ [];
}

overlapping-Reach : Reach series (codes "catalog") overlapping
overlapping-Reach =
    later (later (later rested (arrive (codes "GET"))) (arrive (codes "POST")))
      (leave (codes "POST" ∷ []) (codes "GET") [] (some (some (codes "/v1/items"))) raised 5 9 refl)

Reach-IsBalanced_example : IsBalanced series (codes "catalog") overlapping
Reach-IsBalanced_example =
    Reach-IsBalanced series (codes "catalog") series-IsPrometheus overlapping-Reach

abbrev headers : HeaderMap
headers = record {
  Headers = Text → Option Text;
  get = λ m h. h m;
  assign = λ n v h m. if same_name n m then some v else h m;
  setdefault = λ n v h m. if same_name n m then some (or_default (h m) v) else h m;
}

abbrev traced : Message headers ℕ
traced = record {
  headers = λ m. if same_name request_id_header m then some (codes "trace-1") else none;
  body = 7;
}

-- The service caches its answer for a minute.
abbrev cached : Behind headers ℕ ℕ
cached request_id m = some (record {
  headers = λ n. if same_name (codes "cache-control") n then some (codes "max-age=60") else none;
  body = suc m.body;
})
