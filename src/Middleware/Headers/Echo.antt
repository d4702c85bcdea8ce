-- ===== src/Middleware/Headers/Echo.antt =====
-- The headers that every answer of a service carries.
use cbir_engine.Base.{All, List, Option, Text, false, none, some, ◌≡◌}
use cbir_engine.Middleware.Headers.{
  HeaderMap, Message, or_default, request_id_header, same_name, security_headers,
}

module _ (hm : HeaderMap) where
  -- A header keeps the value that it has, or gets the default.
  abbrev pub Defaulted : hm.Headers → hm.Headers → Type 0
  Defaulted before after =
      All (λ (d : Text × Text). hm.get d.0 after ≡ some (or_default (hm.get d.0 before) d.1))
        security_headers

  abbrev pub NoneNamed : Text → List (Text × Text) → Type 0
  NoneNamed m = All (λ (d : Text × Text). same_name d.0 m ≡ false)

  -- The answer's body is the service's, its request id is the one that the service saw, and every
  -- security header is there, as the service set it if it did.
  pub data IsAnswer {B : Type 0} (request_id : Text)
      : Option (Message hm B) → Option (Message hm B) → Type 0 where
    passed : IsAnswer request_id none none
    answered :
        {inner outer : Message hm B}
        → outer.body ≡ inner.body
        → hm.get request_id_header outer.headers ≡ some request_id
        → Defaulted inner.headers outer.headers
        → IsAnswer request_id (some inner) (some outer)
