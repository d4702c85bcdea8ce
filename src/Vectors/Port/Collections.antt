-- ===== src/Vectors/Port/Collections.antt =====
-- collection_name (cbir_common/vectordb): the names of the collections of different tenants.
use cbir_engine.Base.{ap, codes, drop, or_else, some, sym, ◌++◌, ◌<◌, ◌∙◌, ◌≡◌, ◌≢◌}
use cbir_engine.Kernel.Uuid.{Uuid, uuid_hex, uuid_limit, uuid_parse, uuid_str}
use cbir_engine.Kernel.Uuid.RoundTrip.{joined-without, uuid_hex-All, uuid_parse-uuid_hex}
use cbir_engine.Vectors.Port.{collection_name}

-- The collection of a tenant id is named by its hexadecimal digits.
pub collection_name-uuid_str :
    (u : Uuid) → collection_name (uuid_str u) ≡ codes "tenant_" ++ uuid_hex u
unfolding collection_name uuid_str
collection_name-uuid_str u =
    ap (λ t. codes "tenant_" ++ t) (joined-without (uuid_hex u) (uuid_hex-All u))

-- Two tenants whose collections have one name are the same tenant.
collection_name-IsInjective :
    (u v : Uuid)
    → u < uuid_limit
    → v < uuid_limit
    → collection_name (uuid_str u) ≡ collection_name (uuid_str v)
    → u ≡ v
unfolding codes
collection_name-IsInjective u v h k e =
    let same : uuid_hex u ≡ uuid_hex v =
      ap (λ t. drop 7 t) (sym (collection_name-uuid_str u) ∙ e ∙ collection_name-uuid_str v) in
    let both : some u ≡ some v =
      sym (uuid_parse-uuid_hex u h) ∙ ap uuid_parse same ∙ uuid_parse-uuid_hex v k in
    ap (λ o. or_else o 0) both

-- Different tenants have collections of different names.
pub collection_name-Separates :
    (u v : Uuid)
    → u < uuid_limit
    → v < uuid_limit
    → u ≢ v
    → collection_name (uuid_str u) ≢ collection_name (uuid_str v)
collection_name-Separates u v h k apart e = apart (collection_name-IsInjective u v h k e)
