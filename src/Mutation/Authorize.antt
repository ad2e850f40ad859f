-- ===== src/Mutation/Authorize.antt =====
-- The checks of `execute_production_plan` in src/mailarchive/remote_mutation.py, in the order of the
-- source: those of the stored plan, and those of the fresh evaluation.
pub mod Sound
use mailarchive.Base.{
  ℕ, zero, suc, ◌+◌, ◌*◌, Bool, true, false, not, ◌&&◌, ◌||◌, Option, none, some, String, List, [],
  ◌∷◌, ◌++◌, ◌==◌, ltb, str_eq, opt_eq, if◌then◌else◌,
}
use mailarchive.Base.Lists.{length, any, find}
use mailarchive.Errors.{
  Error, Outcome, ok, raised, ◌>>=◌, ◌>>◌, raise_if, not_opted_in, not_completed_dry_run,
  other_account, already_executed, bad_requested_at, plan_expired, exceeds_limit,
  bad_mutation_state, account_inactive, contains_other_account, unresolved_target,
  stale_or_ineligible, stale_identity, adapter_preflight,
}
use mailarchive.Host.{Host, Instant, Datetime, naive, aware, minute, num}
use mailarchive.Models.{AppConfig, AccountConfig}
use mailarchive.Db
use mailarchive.Db.{
  Db, AccountRow, RunRow, MutationRow, Status, next_id, insert_audit_event, mode_eq, run_status_eq,
  status_eq, production_execute, completed, started, unknown,
}
use mailarchive.Retention.Report.{Report, evaluate_all, policy_version}
use mailarchive.Mutation.Target.{DeletionTarget}
use mailarchive.Mutation.Query.{run_by_id, mutations_of, planned_target, report_for}
use mailarchive.Mutation.Engine.{Sys, Adapter, audit, commit, current_in}

-- `PLAN_TTL = timedelta(minutes=60)`
abbrev pub plan_ttl : ℕ
plan_ttl = 60 * minute

enabled_for_deletion : Option AccountConfig → Bool
enabled_for_deletion none = false
enabled_for_deletion (some a) = a.enabled && a.remote_deletion_enabled

-- The account is configured, enabled and opted in to remote deletion.
unfoldable pub opted_in : AppConfig → String → Bool
unfolding enabled_for_deletion
opted_in config name =
    enabled_for_deletion (find (λ (a : AccountConfig). str_eq a.name name) config.accounts)

unfoldable pub completed_plan : Option RunRow → Outcome RunRow
completed_plan none = raised not_completed_dry_run
completed_plan (some r) = do
  raise_if (not (mode_eq r.mode Db.dry_run && run_status_eq r.status completed))
      not_completed_dry_run
  ok r

-- `WHERE mode='production-execute' AND source_plan_run_id=?`
unfoldable pub executes : ℕ → RunRow → Bool
executes source_id r =
    mode_eq r.mode production_execute && opt_eq (◌==◌) r.source_plan_run_id (some source_id)

-- The tests of the parsed `requested_at`.
unfoldable pub check_age : Instant → Option Datetime → Outcome (Unit {0})
check_age now none = raised bad_requested_at
check_age now (some naive) = raised bad_requested_at
check_age now (some (aware requested)) = do
  raise_if (ltb now requested) bad_requested_at
  raise_if (ltb (requested + plan_ttl) now) plan_expired

-- `any(selected > limit for limit in limits) or …`
unfoldable pub over_limits : AppConfig → RunRow → Bool
over_limits config source =
    ltb source.effective_max_per_run source.selected_count
    || ltb source.effective_max_per_account source.selected_count
    || ltb config.remote_deletion.max_per_run source.selected_count
    || ltb config.remote_deletion.max_per_account source.selected_count
    || ltb config.remote_deletion.max_per_run source.effective_max_per_run
    || ltb config.remote_deletion.max_per_account source.effective_max_per_account

unfoldable pub not_dry_run : MutationRow → Bool
not_dry_run m = not (status_eq m.status Status.dry_run) || not m.is_dry_run

-- `SELECT id FROM accounts WHERE name=?`
unfoldable pub account_id_of : Option AccountRow → Outcome ℕ
account_id_of none = raised account_inactive
account_id_of (some a) = ok a.id

-- The run of a mutation is a production execution.
unfoldable pub in_production : Db → MutationRow → Bool
in_production db m =
    any (λ (r : RunRow). r.id == m.mutation_run_id && mode_eq r.mode production_execute)
      db.remote_mutation_runs

-- A mutation of a production execution whose outcome is open, for a target of these rows.
unfoldable pub is_unresolved : Db → List MutationRow → MutationRow → Bool
unfolding in_production
is_unresolved db rows m =
    in_production db m
    && any (λ (row : MutationRow). str_eq row.remote_message_id m.remote_message_id) rows
    && (status_eq m.status started || status_eq m.status unknown)

unfoldable pub eligible_in : List Report → MutationRow → Bool
eligible_in reports row = elim (report_for row.remote_message_id reports) [
  | none ↦ false
  | some r ↦ r.eligible
]

module _ {W : Type 0} (host : Host W) where
  -- The checks before the fresh evaluation; they only read the database.
  unfoldable pub authorize :
      AppConfig → ℕ → String → Instant → Db → Outcome (RunRow × List MutationRow)
  unfolding completed_plan
  authorize config source_id name now db = do
    raise_if (not (opted_in config name)) not_opted_in
    source ← completed_plan (run_by_id db source_id)
    raise_if (not (opt_eq str_eq source.account_filter (some name)) || ltb source.selected_count 1)
        other_account
    raise_if (any (executes source_id) db.remote_mutation_runs) already_executed
    check_age now (host.fromisoformat source.requested_at)
    raise_if (over_limits config source) exceeds_limit
    let rows = mutations_of db source_id
    raise_if (not (length rows == source.selected_count) || any not_dry_run rows) bad_mutation_state
    account ← account_id_of (find (λ (a : AccountRow). str_eq a.name name) db.accounts)
    raise_if (any (λ (row : MutationRow). not (row.account_id == account)) rows)
        contains_other_account
    raise_if (any (is_unresolved db rows) db.remote_mutations) unresolved_target
    ok (source, rows)

  -- The loop over the rows: the identity is still that of the plan.
  unfoldable pub check_rows : Db → List Report → List MutationRow → Outcome (Unit {0})
  check_rows db reports [] = ok tt
  check_rows db reports (row ∷ rows) = do
    target ← planned_target db row.id
    current ←
        current_in host db target row.target_fingerprint_sha256
          (report_for row.remote_message_id reports)
    raise_if (not current) stale_identity
    check_rows db reports rows

  -- The checks of the fresh reports, and the local preflight of the adapter.
  unfoldable pub prove_current :
      Option (Adapter W) → Db → List Report → List MutationRow → Outcome (Adapter W)
  unfolding check_rows
  prove_current factory db reports rows = do
    raise_if (any (λ row. not (eligible_in reports row)) rows) stale_or_ineligible
    check_rows db reports rows
    elim factory [ none ↦ raised adapter_preflight | some adapter ↦ ok adapter ]
