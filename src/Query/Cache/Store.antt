-- ===== src/Query/Cache/Store.antt =====
-- RedisQueryCache as the cache that the search relies on.
use mathlib.Core.Path.{subst}
use cbir_engine.Base.{List, Text, ap, codes, false, is_blank, some, true, ℕ, ◌++◌, ◌≡◌, ◌≢◌}
use cbir_engine.Base.Strings.{starts_with}
use cbir_engine.Kernel.Floats.{Floats}
use cbir_engine.Query.Cache.{
  Codec, Redis, get_json, read_index_version, redis_cache, set_json, version_of,
}
use cbir_engine.Query.Ports.{Engines, RankedResult}
use cbir_engine.Query.Search.{Digests}
use cbir_engine.Query.Search.Caching.{IsEmbeddingKey, IsResultKey, IsStore}

-- SETEX and GET of a Redis that can be reached, at one time: the text of a key is the one stored last.
pub record IsRedis (r : Redis) : Type 0 where
  pub get_setex :
      (key value : Text) (ttl : ℕ) (s : r.State)
      → r.get key (r.setex key ttl value s).1 ≡ some (some value)
  pub get_setex_other :
      (key other value : Text) (ttl : ℕ) (s : r.State)
      → key ≢ other
      → r.get other (r.setex key ttl value s).1 ≡ r.get other s

-- json.dumps writes a text that is not empty, and json.loads reads it back.
pub record IsCodec {A : Type 0} (c : Codec A) : Type 0 where
  pub encode_not_blank : (a : A) → is_blank (c.encode a) ≡ false
  pub decode_encode : (a : A) → c.decode (c.encode a) ≡ some a

-- No result and no embedding is stored under the key of an index version.
result_key_apart :
    (key tenant : Text) → IsResultKey key → key ≢ codes "cbir:index-version:" ++ tenant
unfolding codes starts_with
result_key_apart key tenant k e = let both : false ≡ true = subst IsResultKey e k in cc

embedding_key_apart :
    (key tenant : Text) → IsEmbeddingKey key → key ≢ codes "cbir:index-version:" ++ tenant
unfolding codes starts_with
embedding_key_apart key tenant k e = let both : false ≡ true = subst IsEmbeddingKey e k in cc

module _ (fl : Floats) (hash : Digests) (engines : Engines fl.F) (r : Redis)
    (results : Codec (List (RankedResult fl.F))) (vectors : Codec (List fl.F)) where
  -- The Redis cache returns the results that were stored under a key, and its writes leave the index
  -- versions alone, over a Redis that can be reached and a JSON codec that reads what it writes.
  pub redis_cache-IsStore :
      IsRedis r → IsCodec results → IsStore fl hash engines (redis_cache r results vectors)
  unfolding redis_cache get_json set_json read_index_version
  redis_cache-IsStore live codec = record {
    get_set = λ key rs ttl s.
        rw (live.get_setex key (results.encode rs) ttl s)
          (rw (codec.encode_not_blank rs) (codec.decode_encode rs));
    results_version = λ tenant key rs ttl s k. ap version_of (
        live.get_setex_other key (codes "cbir:index-version:" ++ tenant) (results.encode rs) ttl s
          (result_key_apart key tenant k));
    embedding_version = λ tenant key v ttl s k. ap version_of (
        live.get_setex_other key (codes "cbir:index-version:" ++ tenant) (vectors.encode v) ttl s
          (embedding_key_apart key tenant k));
  }
