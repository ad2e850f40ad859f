-- ===== src/Mutation/Production.antt =====
-- `execute_production_plan` of src/mailarchive/remote_mutation.py: the checks of
-- `Mutation/Authorize.antt`, the transaction that clones the plan, and the serial loop.
pub mod Current
pub mod Laws
pub mod Radius
pub mod Again
use mailarchive.Base.{
  ℕ, zero, suc, ◌+◌, ◌*◌, Bool, true, false, not, ◌&&◌, ◌||◌, Option, none, some, String, List, [],
  ◌∷◌, ◌++◌, ◌==◌, ltb, str_eq, opt_eq, if◌then◌else◌,
}
use mailarchive.Base.Lists.{length, any, find}
use mailarchive.Errors.{
  Error, Outcome, ok, raised, ◌>>=◌, ◌>>◌, raise_if, not_opted_in, not_completed_dry_run,
  other_account, already_executed, bad_requested_at, plan_expired, exceeds_limit,
  bad_mutation_state, account_inactive, contains_other_account, unresolved_target,
  stale_or_ineligible, stale_identity, adapter_preflight,
}
use mailarchive.Host.{Host, Instant, Datetime, naive, aware, minute, num}
use mailarchive.Models.{AppConfig, AccountConfig}
use mailarchive.Db
use mailarchive.Db.{
  Db, AccountRow, RunRow, MutationRow, Status, next_id, insert_audit_event, mode_eq, run_status_eq,
  status_eq, production_execute, completed, started, unknown,
}
use mailarchive.Retention.Report.{Report, evaluate_all, policy_version}
use mailarchive.Mutation.Target.{DeletionTarget}
use mailarchive.Mutation.Query.{run_by_id, mutations_of, planned_target, report_for}
use mailarchive.Mutation.Engine.{Sys, Adapter, audit, commit, current_in}
use mailarchive.Mutation.Serial.{execute_serial}
use mailarchive.Mutation.Authorize.{authorize, prove_current}

module _ {W : Type 0} (host : Host W) where
  unfoldable pub production_run : ℕ → String → String → ℕ → RunRow → ℕ → RunRow
  production_run id now name source_id source size = record {
    id = id;
    requested_at = now;
    completed_at = none;
    mode = production_execute;
    status = Db.planned;
    account_filter = some name;
    requested_limit = none;
    effective_max_per_run = source.effective_max_per_run;
    effective_max_per_account = source.effective_max_per_account;
    eligible_count = size;
    selected_count = size;
    skipped_limit_count = 0;
    policy_version = policy_version;
    source_plan_run_id = some source_id;
    authorization_method = some "account-opt-in+explicit-plan-v1";
  }

  unfoldable pub evaluation_id : Option Report → ℕ → ℕ
  evaluation_id none old = old
  evaluation_id (some r) old = r.deletion_evaluation_id

  -- The production row of a planned row: the same target, bound to its fresh evaluation.
  unfoldable pub clone : ℕ → ℕ → String → List Report → MutationRow → MutationRow
  unfolding evaluation_id
  clone id run_id now reports row = record row {
    id = id;
    mutation_run_id = run_id;
    deletion_evaluation_id =
        evaluation_id (report_for row.remote_message_id reports) row.deletion_evaluation_id;
    is_dry_run = false;
    requested_at = now;
    started_at = none;
    completed_at = none;
    status = Status.planned;
    provider_response_summary = none;
    error_code = none;
    source_plan_mutation_id = some row.id;
    reconciled_at = none;
  }

  unfoldable pub clone_rows :
      ℕ → String → List Report → List MutationRow → List MutationRow → List MutationRow
  clone_rows run_id now reports [] table = table
  clone_rows run_id now reports (row ∷ rows) table =
      clone_rows run_id now reports rows
        (table ++ clone (next_id (λ (m : MutationRow). m.id) table) run_id now reports row ∷ [])

  -- What is committed before the first provider call.
  unfoldable pub write_production :
      ℕ → String → RunRow → List MutationRow → List Report → W → Db → Db
  unfolding production_run
  write_production source_id name source rows reports w db =
      let now = host.isoformat (host.clock w) in
      let run_id = next_id (λ (r : RunRow). r.id) db.remote_mutation_runs in
      insert_audit_event
        (audit now "remote_delete.production.started" "started" none
          (("selected", num (length rows)) ∷ ("source_plan_run_id", num source_id) ∷ []))
        (record db {
          remote_mutation_runs =
              db.remote_mutation_runs
              ++ production_run run_id now name source_id source (length rows) ∷ [];
          remote_mutations = clone_rows run_id now reports rows db.remote_mutations;
        })

  -- The id and the adapter of the run to execute, or the error, and what is committed by then.
  unfoldable pub after_proof :
      ℕ
      → String
      → RunRow
      → List MutationRow
      → List Report
      → Outcome (Adapter W)
      → Sys W
      → Outcome (ℕ × Adapter W) × Sys W
  after_proof source_id name source rows reports (raised e) s = (raised e, s)
  after_proof source_id name source rows reports (ok adapter) s = (
    ok (next_id (λ (r : RunRow). r.id) s.db.remote_mutation_runs, adapter),
    commit host (write_production source_id name source rows reports s.world s.db) s,
  )

  unfoldable pub after_evaluation :
      ℕ
      → String
      → Option (Adapter W)
      → RunRow
      → List MutationRow
      → Outcome (List Report × Db)
      → Sys W
      → Outcome (ℕ × Adapter W) × Sys W
  unfolding after_proof
  after_evaluation source_id name factory source rows (raised e) s = (raised e, s)
  after_evaluation source_id name factory source rows (ok (reports, db)) s =
      after_proof source_id name source rows reports (prove_current host factory db reports rows)
        (commit host db s)

  unfoldable pub after_authorize :
      AppConfig
      → ℕ
      → String
      → Option (Adapter W)
      → Outcome (RunRow × List MutationRow)
      → Sys W
      → Outcome (ℕ × Adapter W) × Sys W
  unfolding after_evaluation
  after_authorize config source_id name factory (raised e) s = (raised e, s)
  after_authorize config source_id name factory (ok (source, rows)) s =
      after_evaluation source_id name factory source rows
        (evaluate_all host config s.world (some name) s.db) s

  -- Everything of `execute_production_plan` before the serial loop. `factory` is what
  -- `adapter_factory(config, account_name)` returns, `none` for an exception.
  unfoldable pub prepare :
      AppConfig → ℕ → String → Option (Adapter W) → Sys W → Outcome (ℕ × Adapter W) × Sys W
  unfolding after_authorize
  prepare config source_id name factory s =
      after_authorize config source_id name factory
        (authorize host config source_id name (host.clock s.world) s.db) s

  -- `return production_run_id`
  unfoldable pub run_result : ℕ → Option (Outcome (Unit {0}) × Sys W) → Option (Outcome ℕ × Sys W)
  run_result run_id none = none
  run_result run_id (some (raised e, s)) = some (raised e, s)
  run_result run_id (some (ok _, s)) = some (ok run_id, s)

  unfoldable pub execute_prepared :
      AppConfig → ℕ → Outcome (ℕ × Adapter W) × Sys W → Option (Outcome ℕ × Sys W)
  unfolding run_result
  execute_prepared config fuel (raised e, s) = some (raised e, s)
  execute_prepared config fuel (ok (run_id, adapter), s) =
      run_result run_id (execute_serial host config adapter run_id fuel s)

  unfoldable pub execute_production_plan :
      AppConfig → ℕ → String → Option (Adapter W) → ℕ → Sys W → Option (Outcome ℕ × Sys W)
  unfolding execute_prepared
  execute_production_plan config source_id name factory fuel s =
      execute_prepared config fuel (prepare config source_id name factory s)
