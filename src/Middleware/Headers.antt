-- ===== src/Middleware/Headers.antt =====
-- RequestIdMiddleware (cbir_common/observability), SecurityHeadersMiddleware and configure_cors
-- (cbir_common/http), over the headers of requests and responses.
pub mod Echo
use cbir_engine.Base.{
  Bool, List, Option, Text, [], codes, if◌then◌else◌, is_blank, map, none, not, select, some,
  text_eq, ◌∷◌, ◌≡◌,
}
use cbir_engine.Base.Strings.{lower, split, strip}

-- Header names are compared without regard to case.
abbrev pub same_name : Text → Text → Bool
same_name m n = text_eq (lower m) (lower n)

-- starlette: the headers of a request or a response
pub record HeaderMap : Type 1 where
  pub Headers : Type 0
  pub get : Text → Headers → Option Text
  pub assign : Text → Text → Headers → Headers
  pub setdefault : Text → Text → Headers → Headers

-- value if option is None else option
abbrev pub or_default : Option Text → Text → Text
or_default (some v) d = v
or_default none d = d

pub record IsHeaderMap (hm : HeaderMap) : Type 0 where
  pub get_assign :
      (m n v : Text) (h : hm.Headers)
      → hm.get m (hm.assign n v h) ≡ (if same_name n m then some v else hm.get m h)
  pub get_setdefault :
      (m n v : Text) (h : hm.Headers)
      → hm.get m (hm.setdefault n v h)
        ≡ (if same_name n m then some (or_default (hm.get m h) v) else hm.get m h)

-- REQUEST_ID_HEADER
abbrev pub request_id_header : Text
unfolding codes
request_id_header = codes "X-Request-ID"

-- _SECURITY_HEADERS
abbrev pub security_headers : List (Text × Text)
unfolding codes
security_headers =
    (codes "X-Content-Type-Options", codes "nosniff")
    ∷ (codes "X-Frame-Options", codes "DENY")
    ∷ (codes "Referrer-Policy", codes "no-referrer")
    ∷ (codes "Cache-Control", codes "no-store")
    ∷ []

-- configure_cors: the origins of the CORS middleware, and `none` where none is added
unfoldable pub cors_origins : Text → Option (List Text)
unfolding codes strip split
cors_origins allow_origins =
    if is_blank allow_origins
    then none
    else if text_eq (strip allow_origins) (codes "*")
    then some (codes "*" ∷ [])
    else some (select (λ o. not (is_blank o)) (map strip (split 44 allow_origins)))

module _ (hm : HeaderMap) where
  pub record Message (Body : Type 0) : Type 0 where
    pub headers : hm.Headers
    pub body : Body

  -- request.headers.get(REQUEST_ID_HEADER) or uuid.uuid4().hex
  unfoldable pub request_id_of : Text → Option Text → Text
  request_id_of fresh none = fresh
  request_id_of fresh (some given) = if is_blank given then fresh else given

  -- The service behind the middleware: it reads request.state.request_id, and raises or answers.
  abbrev pub Behind : Type 0 → Type 0 → Type 0
  Behind A B = Text → Message A → Option (Message B)

  -- The headers of an answer changed; an exception passes.
  abbrev pub with_headers :
      {B : Type 0} → (hm.Headers → hm.Headers) → Option (Message B) → Option (Message B)
  with_headers f none = none
  with_headers f (some r) = some (record r { headers = f r.headers })

  -- RequestIdMiddleware.dispatch
  unfoldable pub with_request_id :
      {A B : Type 0} → Text → Behind A B → Message A → Option (Message B)
  with_request_id fresh call_next request =
      let request_id = request_id_of fresh (hm.get request_id_header request.headers) in
      with_headers (hm.assign request_id_header request_id) (call_next request_id request)

  abbrev pub set_defaults : List (Text × Text) → hm.Headers → hm.Headers
  set_defaults [] h = h
  set_defaults ((name, value) ∷ rest) h = set_defaults rest (hm.setdefault name value h)

  -- SecurityHeadersMiddleware.dispatch
  unfoldable pub with_security_headers :
      {A B : Type 0} → (Message A → Option (Message B)) → Message A → Option (Message B)
  with_security_headers call_next request =
      with_headers (set_defaults security_headers) (call_next request)

  -- The middleware of a service that touches headers: instrument adds the request id, then
  -- add_security_headers goes around it.
  unfoldable pub serve : {A B : Type 0} → Text → Behind A B → Message A → Option (Message B)
  unfolding with_request_id with_security_headers
  serve fresh call_next = with_security_headers (with_request_id fresh call_next)
