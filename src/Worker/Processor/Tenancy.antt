-- ===== src/Worker/Processor/Tenancy.antt =====
-- IngestionProcessor.process: a job of one tenant, and the searches of another.
use mathlib.Core.Path.{subst}
use cbir_engine.Base.{Option, Result, Text, [], ap, ok, refl, some, sym, ◌<◌, ◌∙◌, ◌∷◌, ◌≡◌, ◌≢◌}
use cbir_engine.Catalog.Items.{CatalogItemRow}
use cbir_engine.Kernel.Uuid.{Uuid, uuid_limit, uuid_parse, uuid_str}
use cbir_engine.Vectors.Port.{VectorStore}
use cbir_engine.Vectors.Port.Contract.{IsIsolated, SameSearches}
use cbir_engine.Worker.Ports.{ItemView, Outside, Settings, WorkerError, World}
use cbir_engine.Worker.Processor.{process}
use cbir_engine.Worker.Processor.Redelivery.{get_item-row}
use cbir_engine.Worker.Processor.Steps.{IsKept, KeepsWrites, process-Keeps}
use cbir_engine.Worker.Store.{item_row, view_of}

module _ {V : Type 0} (s : VectorStore V) (o : Outside V) (v : Uuid) where
  -- The searches of the tenant come to the same in both worlds.
  abbrev pub Unseen : World s o → World s o → Type 0
  Unseen before after = SameSearches s (uuid_str v) before.vectors after.vectors

  Unseen-IsKept : IsKept s o Unseen
  Unseen-IsKept = record {
    same = λ w vector limit filters full. refl;
    next = λ w x y h k vector limit filters full.
        k vector limit filters full ∙ h vector limit filters full;
    tables = λ w items refs fresh vector limit filters full. refl;
    versions = λ w vs vector limit filters full. refl;
  }

  module _ (settings : Settings) where
    KeepsWrites-Unseen :
        (u : Uuid)
        → IsIsolated s
        → u < uuid_limit
        → v < uuid_limit
        → u ≢ v
        → KeepsWrites s o Unseen Unseen-IsKept settings (uuid_str u)
    KeepsWrites-Unseen u laws h k apart = (
      λ dim w. laws.ensure_collection-Isolated u v dim w.vectors h k apart,
      λ r w. laws.upsert-Isolated u v (r ∷ []) w.vectors h k apart,
    )

    abbrev item_in : ItemView → Result WorkerError (Option ItemView) → ItemView
    item_in d (ok (some i)) = i
    item_in d _ = d

    -- Over a vector store that keeps tenants apart, a job of one tenant's item changes no search of
    -- another tenant, whatever becomes of the job.
    pub process-Unseen :
        (raw : Text) (x : Uuid) (r : CatalogItemRow) (w : World s o)
        → IsIsolated s
        → uuid_parse raw ≡ some x
        → item_row x w.items ≡ some r
        → r.tenant_id < uuid_limit
        → v < uuid_limit
        → r.tenant_id ≢ v
        → Unseen w (process s o settings raw w).1
    process-Unseen raw x r w laws parsed here h k apart =
        process-Keeps s o Unseen Unseen-IsKept settings raw w λ i found.
          let seen = ap (λ p. p.0) (get_item-row s o settings raw x w (some r) parsed here) in
          let same : view_of r ≡ i = ap (item_in (view_of r)) (sym seen ∙ found) in
          subst (λ (j : ItemView). KeepsWrites s o Unseen Unseen-IsKept settings j.tenant_id) same
            (KeepsWrites-Unseen r.tenant_id laws h k apart)
