-- ===== src/Vectors/Memory/Refinement.antt =====
-- InMemoryVectorStore (cbir_common/vectordb): its writes against the table of records by id.
use mathlib.Core.Path.{fun_ext}
use cbir_engine.Base.{
  Bool, Bool-cases, List, Text, [], any, ap, false, if◌then◌else◌, inl, inr, or_else, refl, sym,
  text_eq, text_eq_iff, true, ◌∙◌, ◌∷◌, ◌≡◌,
}
use cbir_engine.Kernel.Floats.{Floats}
use cbir_engine.Kernel.Json.{Json}
use cbir_engine.Vectors.Memory.{
  Records, Store, change, change_found, collection, delete, drop_ids, ensure_collection, put_record,
  put_records, upsert,
}
use cbir_engine.Vectors.Memory.Tables.{
  Table, Write, all_promised, at_table, deleting, ensuring, promised, table_drop, table_of,
  table_put, table_puts, tables_of, upserting, write, writes,
}
use cbir_engine.Vectors.Port.{VectorRecord, collection_name}

module _ (fl : Floats) (json_eq : Json → Json → Bool) where
  table_of-put_record :
      (r : VectorRecord fl.F) (col : Records fl json_eq) (i : Text)
      → table_of fl json_eq (put_record fl json_eq r col) i
        ≡ table_put fl json_eq r (table_of fl json_eq col) i
  table_of-put_record r [] i = refl
  table_of-put_record r (x ∷ xs) i =
      let ih = table_of-put_record r xs i in
      elim (Bool-cases (text_eq x.id r.id)) [
        | inl e ↦ elim (Bool-cases (text_eq r.id i)) [
          | inl k ↦ rw e (rw k refl)
          | inr k ↦
              let missed : text_eq x.id i ≡ false = rw ((text_eq_iff x.id r.id).0 e) k in
              rw e (rw k (rw missed refl))
        ]
        | inr e ↦ elim (Bool-cases (text_eq r.id i)) [
          | inl k ↦
              let missed : text_eq x.id i ≡ false = rw (sym ((text_eq_iff r.id i).0 k)) e in
              rw e (rw missed ih)
          | inr k ↦ rw e (rw ih (rw k refl))
        ]
      ]

  table_of-put_records :
      (rs : List (VectorRecord fl.F)) (col : Records fl json_eq)
      → table_of fl json_eq (put_records fl json_eq rs col)
        ≡ table_puts fl json_eq rs (table_of fl json_eq col)
  table_of-put_records [] col = refl
  table_of-put_records (r ∷ rs) col =
      table_of-put_records rs (put_record fl json_eq r col)
      ∙ ap (table_puts fl json_eq rs) (fun_ext (table_of-put_record r col))

  table_of-drop_ids :
      (ids : List Text) (col : Records fl json_eq) (i : Text)
      → table_of fl json_eq (drop_ids fl json_eq ids col) i
        ≡ table_drop fl json_eq ids (table_of fl json_eq col) i
  table_of-drop_ids ids [] i = elim (Bool-cases (any (λ j. text_eq j i) ids)) [
    | inl e ↦ rw e refl
    | inr e ↦ rw e refl
  ]
  table_of-drop_ids ids (x ∷ xs) i =
      let ih = table_of-drop_ids ids xs i in
      elim (Bool-cases (text_eq x.id i)) [
        | inl e ↦
            let same = (text_eq_iff x.id i).0 e in
            elim (Bool-cases (any (λ j. text_eq j x.id) ids)) [
              | inl k ↦
                  let named : any (λ j. text_eq j i) ids ≡ true = rw (sym same) k in
                  rw k (rw ih (rw named refl))
              | inr k ↦
                  let spared : any (λ j. text_eq j i) ids ≡ false = rw (sym same) k in
                  rw k (rw e (rw spared refl))
            ]
        | inr e ↦ elim (Bool-cases (any (λ j. text_eq j x.id) ids)) [
          | inl k ↦ rw k (rw ih (rw e refl))
          | inr k ↦ rw k (rw e ih)
        ]
      ]

  -- The records of a collection, none when there is no such collection.
  abbrev records_of : Text → Store fl json_eq → Records fl json_eq
  records_of c s = or_else (collection fl json_eq c s) []

  -- The first collection of that name is changed, or those behind it.
  records_of-cons :
      (c d b : Text) (f : Records fl json_eq → Records fl json_eq) (col : Records fl json_eq)
      (s t : Store fl json_eq)
      → records_of d t ≡ (if text_eq c d then f (records_of d s) else records_of d s)
      → records_of d (if text_eq b c then (b, f col) ∷ s else (b, col) ∷ t)
        ≡ (if text_eq c d then f (records_of d ((b, col) ∷ s)) else records_of d ((b, col) ∷ s))
  records_of-cons c d b f col s t ih = elim (Bool-cases (text_eq b c)) [
    | inl e ↦
        let same = (text_eq_iff b c).0 e in
        elim (Bool-cases (text_eq c d)) [
          | inl k ↦ let found : text_eq b d ≡ true = rw same k in rw e (rw k (rw found refl))
          | inr k ↦ let missed : text_eq b d ≡ false = rw same k in rw e (rw k (rw missed refl))
        ]
    | inr e ↦ elim (Bool-cases (text_eq c d)) [
      | inl k ↦
          let missed : text_eq b d ≡ false = rw (sym ((text_eq_iff c d).0 k)) e in
          rw e (rw missed ih)
      | inr k ↦ elim (Bool-cases (text_eq b d)) [
        | inl found ↦ rw e (rw found (rw k refl))
        | inr missed ↦ rw e (rw missed ih)
      ]
    ]
  ]

  records_of-change :
      (c d : Text) (f : Records fl json_eq → Records fl json_eq) (s : Store fl json_eq)
      → records_of d (change fl json_eq c f s)
        ≡ (if text_eq c d then f (records_of d s) else records_of d s)
  records_of-change c d f [] = elim (Bool-cases (text_eq c d)) [
    | inl e ↦ rw e refl
    | inr e ↦ rw e refl
  ]
  records_of-change c d f ((b, col) ∷ s) =
      records_of-cons c d b f col s (change fl json_eq c f s) (records_of-change c d f s)

  records_of-change_found :
      (c d : Text) (f : Records fl json_eq → Records fl json_eq) (s : Store fl json_eq)
      → f [] ≡ []
      → records_of d (change_found fl json_eq c f s)
        ≡ (if text_eq c d then f (records_of d s) else records_of d s)
  records_of-change_found c d f [] h = elim (Bool-cases (text_eq c d)) [
    | inl e ↦ rw e (sym h)
    | inr e ↦ rw e refl
  ]
  records_of-change_found c d f ((b, col) ∷ s) h =
      records_of-cons c d b f col s (change_found fl json_eq c f s)
        (records_of-change_found c d f s h)

  -- A change of one collection's records is a change of one table.
  at_table_lem :
      (c : Text) (f : Records fl json_eq → Records fl json_eq)
      (g : Table fl json_eq → Table fl json_eq) (s t : Store fl json_eq)
      → ((d : Text) → records_of d t ≡ (if text_eq c d then f (records_of d s) else records_of d s))
      → ((col : Records fl json_eq) → table_of fl json_eq (f col) ≡ g (table_of fl json_eq col))
      → tables_of fl json_eq t ≡ at_table fl json_eq c g (tables_of fl json_eq s)
  at_table_lem c f g s t h k = fun_ext λ d.
      let choose : Text → Bool → Records fl json_eq =
        λ d b. if b then f (records_of d s) else records_of d s in
      elim (Bool-cases (text_eq c d)) [
        | inl e ↦
            let changed : records_of d t ≡ f (records_of d s) = h d ∙ ap (choose d) e in
            ap (table_of fl json_eq) changed ∙ k (records_of d s) ∙ rw e refl
        | inr e ↦ ap (table_of fl json_eq) (h d ∙ ap (choose d) e) ∙ rw e refl
      ]

  write-promised :
      (op : Write fl json_eq) (s : Store fl json_eq)
      → tables_of fl json_eq (write fl json_eq op s)
        ≡ promised fl json_eq op (tables_of fl json_eq s)
  unfolding ensure_collection upsert delete
  write-promised (ensuring tenant dim) s =
      let name = collection_name tenant in
      fun_ext λ d. ap (table_of fl json_eq) (
        records_of-change name d (λ col. col) s
        ∙ elim (Bool-cases (text_eq name d)) [ inl e ↦ rw e refl | inr e ↦ rw e refl ])
  write-promised (upserting tenant rs) s =
      let name = collection_name tenant in
      at_table_lem name (put_records fl json_eq rs) (table_puts fl json_eq rs) s
        (upsert fl json_eq tenant rs s)
        (λ d. records_of-change name d (put_records fl json_eq rs) s) (table_of-put_records rs)
  write-promised (deleting tenant ids) s =
      let name = collection_name tenant in
      at_table_lem name (drop_ids fl json_eq ids) (table_drop fl json_eq ids) s
        (delete fl json_eq tenant ids s)
        (λ d. records_of-change_found name d (drop_ids fl json_eq ids) s refl)
        (λ col. fun_ext (table_of-drop_ids ids col))

  -- Whatever the writes, the store stands for the tables that they promise together: each collection
  -- holds under each id the record that was put there last, unless it was deleted since.
  pub writes-promised :
      (ops : List (Write fl json_eq)) (s : Store fl json_eq)
      → tables_of fl json_eq (writes fl json_eq ops s)
        ≡ all_promised fl json_eq ops (tables_of fl json_eq s)
  writes-promised [] s = refl
  writes-promised (op ∷ ops) s =
      writes-promised ops (write fl json_eq op s)
      ∙ ap (all_promised fl json_eq ops) (write-promised op s)
