-- ===== src/Mutation/History/Laws.antt =====
-- The counts and the length of the history of `remote_mutation_status` in
-- src/mailarchive/remote_mutation.py.
use mailarchive.Base.{suc, ◌≡◌, ◌↔◌, Bool, true, ◌||◌, List, [], ◌∷◌}
use mailarchive.Base.Lists.{All, any}
use mailarchive.Db.{
  Db, MutationRow, Status, status_eq, production_execute, started, succeeded, failed, unknown,
}
use mailarchive.Mutation.History.{Counts, RunHistory}

abbrev pub is_open : MutationRow → Bool
is_open m = status_eq m.status started || status_eq m.status unknown

-- Each mutation adds one to the count of its own status, and to no other.
abbrev bumped : Status → Counts → Counts
bumped Status.planned c = record c { planned = suc c.planned }
bumped Status.dry_run c = record c { dry_run = suc c.dry_run }
bumped started c = record c { started = suc c.started }
bumped succeeded c = record c { succeeded = suc c.succeeded }
bumped failed c = record c { failed = suc c.failed }
bumped unknown c = record c { unknown = suc c.unknown }

abbrev pub tallied : List MutationRow → Counts
tallied [] = record {
  planned = 0;
  dry_run = 0;
  started = 0;
  succeeded = 0;
  failed = 0;
  unknown = 0;
}
tallied (m ∷ ms) = bumped m.status (tallied ms)

-- The mutations are those of the run; each is counted once, under its own status; and the run wants
-- a reconciliation exactly where it is a production execution with a mutation whose outcome is open.
pub record IsTallied (h : RunHistory) : Type 0 where
  pub own : All (λ (m : MutationRow). m.mutation_run_id ≡ h.run.id) h.mutations
  pub exact : h.counts ≡ tallied h.mutations
  pub wanted :
      (h.reconciliation_required ≡ true)
      ↔ ((h.run.mode ≡ production_execute) × (any is_open h.mutations ≡ true))
