-- ===== src/Mutation/Reconcile/Laws.antt =====
-- The effect of `reconcile_production_run` in src/mailarchive/remote_mutation.py on the tables.
use mailarchive.Base.{ℕ, ◌≡◌, false, Option, some, String, List, [], ◌∷◌, ◌==◌}
use mailarchive.Base.Lists.{any}
use mailarchive.Host.{Host}
use mailarchive.Db.{Db, RunRow, MutationRow, production_execute, halted}
use mailarchive.Mutation.Target.{DeletionTarget}
use mailarchive.Mutation.Query.{run_by_id}
use mailarchive.Mutation.Engine.{Sys}
use mailarchive.Mutation.Serial.Crash.{calls}

-- Tables with the same rows but for those of these ids.
pub Spares : List ℕ → List MutationRow → List MutationRow → Type 0
Spares ids [] [] = Unit
Spares ids (m ∷ ms) (m' ∷ ms') =
    (m'.id ≡ m.id) × (any (λ id. m.id == id) ids ≡ false → m' ≡ m) × Spares ids ms ms'
Spares ids _ _ = ⊥

module _ {W : Type 0} (host : Host W) (observe : DeletionTarget → W → Option String × W) where
  -- Only mutations of these ids may have changed, no run has, and nothing was deleted.
  pub record Leaves (ids : List ℕ) (s s' : Sys W) : Type 0 where
    pub runs : s'.db.remote_mutation_runs ≡ s.db.remote_mutation_runs
    pub spared : Spares ids s.db.remote_mutations s'.db.remote_mutations
    pub no_calls : calls s'.trace ≡ calls s.trace

  -- The run is a production execution that was halted.
  pub IsHalted : ℕ → Db → Type 0
  IsHalted run_id db =
      (run : RunRow) × (run_by_id db run_id ≡ some run)
      × (run.mode ≡ production_execute)
      × (run.status ≡ halted)
