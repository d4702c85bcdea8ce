-- ===== src/Vectors/Witnesses.antt =====
-- Concrete collections of the in-memory store.
use cbir_engine.Base.{All, Bool, List, [], codes, false, length, ℕ, ◌∷◌, ◌≡◌, ◌≤◌}
use cbir_engine.Kernel.Floats.Sorting.{IsFalling}
use cbir_engine.Kernel.Json.{Json}
use cbir_engine.Kernel.Witnesses.{counting, counting-Ordered}
use cbir_engine.Vectors.Memory.{Store, search}
use cbir_engine.Vectors.Memory.Refinement.{writes-promised}
use cbir_engine.Vectors.Memory.Search.{Reports, search-IsRanked, tenant_records}
use cbir_engine.Vectors.Memory.Tables.{
  Write, all_promised, deleting, ensuring, tables_of, upserting, writes,
}
use cbir_engine.Vectors.Port.{SearchHit, VectorRecord, collection_name}

abbrev never_equal : Json → Json → Bool
never_equal a b = false

abbrev first_record : VectorRecord ℕ
first_record = record { id = codes "a"; vector = 3 ∷ []; payload = [] }

abbrev second_record : VectorRecord ℕ
second_record = record { id = codes "b"; vector = 5 ∷ []; payload = [] }

abbrev store : Store counting never_equal
store = (collection_name (codes "t"), first_record ∷ second_record ∷ []) ∷ []

search-IsRanked_example :
    let hits = search counting never_equal (codes "t") (2 ∷ []) 1 [] false store in
    (length hits ≤ 1)
    × IsFalling counting (λ (h : SearchHit ℕ). h.score) hits
    × All
        (Reports counting never_equal
          (2 ∷ [])
          []
          (tenant_records counting never_equal (codes "t") store))
        hits
search-IsRanked_example =
    search-IsRanked counting never_equal counting-Ordered (codes "t") (2 ∷ []) 1 [] false store

abbrev three_writes : List (Write counting never_equal)
three_writes =
    ensuring (codes "t") 1
    ∷ upserting (codes "t") (first_record ∷ second_record ∷ [])
    ∷ deleting (codes "t") (codes "a" ∷ [])
    ∷ []

writes-promised_example :
    tables_of counting never_equal (writes counting never_equal three_writes [])
    ≡ all_promised counting never_equal three_writes (tables_of counting never_equal [])
writes-promised_example = writes-promised counting never_equal three_writes []
