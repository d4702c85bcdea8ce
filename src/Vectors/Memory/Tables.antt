-- ===== src/Vectors/Memory/Tables.antt =====
-- InMemoryVectorStore (cbir_common/vectordb) as the table that its clients think of: for each
-- collection and each id, at most one record.
use cbir_engine.Base.{
  Bool, List, Option, Text, [], any, find_first, if◌then◌else◌, none, or_else, some, text_eq, ℕ,
  ◌∷◌,
}
use cbir_engine.Kernel.Floats.{Floats}
use cbir_engine.Kernel.Json.{Json}
use cbir_engine.Vectors.Memory.{Records, Store, collection, delete, ensure_collection, upsert}
use cbir_engine.Vectors.Port.{VectorRecord, collection_name}

module _ (fl : Floats) (json_eq : Json → Json → Bool) where
  abbrev pub Table : Type 0
  Table = Text → Option (VectorRecord fl.F)

  -- A table of records for every collection name.
  abbrev pub Tables : Type 0
  Tables = Text → Table

  -- A write to the store, by its arguments.
  pub data Write : Type 0 where
    ensuring : Text → ℕ → Write
    upserting : Text → List (VectorRecord fl.F) → Write
    deleting : Text → List Text → Write

  abbrev pub write : Write → Store fl json_eq → Store fl json_eq
  write (ensuring tenant dim) s = ensure_collection fl json_eq tenant dim s
  write (upserting tenant rs) s = upsert fl json_eq tenant rs s
  write (deleting tenant ids) s = delete fl json_eq tenant ids s

  abbrev pub writes : List Write → Store fl json_eq → Store fl json_eq
  writes [] s = s
  writes (op ∷ ops) s = writes ops (write op s)

  abbrev pub table_put : VectorRecord fl.F → Table → Table
  table_put r t i = if text_eq r.id i then some r else t i

  abbrev pub table_puts : List (VectorRecord fl.F) → Table → Table
  table_puts [] t = t
  table_puts (r ∷ rs) t = table_puts rs (table_put r t)

  abbrev pub table_drop : List Text → Table → Table
  table_drop ids t i = if any (λ j. text_eq j i) ids then none else t i

  abbrev pub at_table : Text → (Table → Table) → Tables → Tables
  at_table c f ts d = if text_eq c d then f (ts d) else ts d

  -- What a write promises: one collection changes, at the ids that it names.
  abbrev pub promised : Write → Tables → Tables
  promised (ensuring tenant dim) ts = ts
  promised (upserting tenant rs) ts = at_table (collection_name tenant) (table_puts rs) ts
  promised (deleting tenant ids) ts = at_table (collection_name tenant) (table_drop ids) ts

  abbrev pub all_promised : List Write → Tables → Tables
  all_promised [] ts = ts
  all_promised (op ∷ ops) ts = all_promised ops (promised op ts)

  -- The record that a collection holds under an id.
  abbrev pub record_at : Text → Records fl json_eq → Option (VectorRecord fl.F)
  record_at i = find_first (λ (r : VectorRecord fl.F). text_eq r.id i)

  abbrev pub table_of : Records fl json_eq → Table
  table_of col i = record_at i col

  -- The tables that a store stands for.
  abbrev pub tables_of : Store fl json_eq → Tables
  tables_of s c = table_of (or_else (collection fl json_eq c s) [])
