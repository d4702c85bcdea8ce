-- ===== src/Query/Cache.antt =====
-- query_service/infrastructure/cache: the query cache over Redis, which fails open. A value in
-- Redis is the text that was stored; `json.dumps` of results and vectors and its inverse are the
-- codec of the section.
pub mod Store
use cbir_engine.Base.{Bool, List, Option, Text, codes, if◌then◌else◌, is_blank, none, some, ℕ, ◌++◌}
use cbir_engine.Query.Ports.{QueryCache, RankedResult}

-- The outer `none` is a RedisError, the inner one an absent key.
pub record Redis : Type 1 where
  pub State : Type 0
  pub get : Text → State → Option (Option Text)
  pub setex : Text → ℕ → Text → State → Bool × State

-- json.dumps and json.loads of one type; `decode` returns none for a ValueError.
pub record Codec (A : Type 0) : Type 0 where
  pub encode : A → Text
  pub decode : Text → Option A

abbrev pub version_of : Option (Option Text) → Text
version_of none = codes "unavailable"
version_of (some none) = codes "0"
version_of (some (some v)) = if is_blank v then codes "0" else v

module _ {V : Type 0} (r : Redis) (results : Codec (List (RankedResult V)))
    (vectors : Codec (List V)) where
  abbrev decoded : {A : Type 0} → Codec A → Option (Option Text) → Option A
  decoded c none = none
  decoded c (some none) = none
  decoded c (some (some raw)) = if is_blank raw then none else c.decode raw

  -- _get_json
  unfoldable pub get_json : {A : Type 0} → Codec A → Text → r.State → Option A
  get_json c key s = decoded c (r.get key s)

  -- _set_json
  unfoldable pub set_json : {A : Type 0} → Codec A → Text → A → ℕ → r.State → r.State
  set_json c key value ttl s = (r.setex key ttl (c.encode value) s).1

  unfoldable pub read_index_version : Text → r.State → Text
  read_index_version tenant s = version_of (r.get (codes "cbir:index-version:" ++ tenant) s)

  -- RedisQueryCache
  unfoldable pub redis_cache : QueryCache V
  redis_cache = record {
    State = r.State;
    index_version = read_index_version;
    get_results = get_json results;
    set_results = set_json results;
    get_embedding = get_json vectors;
    set_embedding = set_json vectors;
  }
