-- ===== src/Middleware/Metrics/Traffic.antt =====
-- The requests of one service in any order: each arrives, is in flight, and leaves with a response or
-- an exception.
use cbir_engine.Base.{List, Option, Text, [], ◌++◌, ◌∷◌, ◌≡◌}
use cbir_engine.Middleware.Metrics.{
  Outcome, Prometheus, Registry, Served, begin_request, finish_request, new_registry, served,
}

module _ (p : Prometheus) (service : Text) where
  pub record Traffic : Type 0 where
    pub registry : Registry p
    pub in_flight : List Text
    pub finished : List Served

  abbrev pub at_rest : Traffic
  at_rest = record { registry = new_registry p; in_flight = []; finished = [] }

  pub data Step (t : Traffic) : Traffic → Type 0 where
    arrive :
        (method : Text)
        → Step t (record {
          registry = begin_request p service method t.registry;
          in_flight = method ∷ t.in_flight;
          finished = t.finished;
        })
    leave :
        (before : List Text) (method : Text) (after : List Text) (route : Option (Option Text))
        (outcome : Outcome) (start now : p.Time)
        → t.in_flight ≡ before ++ method ∷ after
        → Step t (record {
          registry = finish_request p service method route outcome start now t.registry;
          in_flight = before ++ after;
          finished = served p service method route outcome ∷ t.finished;
        })

  pub data Reach : Traffic → Type 0 where
    rested : Reach at_rest
    later : {s t : Traffic} → Reach s → Step s t → Reach t
