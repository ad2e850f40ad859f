-- ===== src/Mutation/Plan.antt =====
-- `plan_dry_run` of src/mailarchive/remote_mutation.py. It has no provider to call: its arguments
-- are the configuration, the clock and the database.
pub mod Bounds
use mailarchive.Base.{
  ℕ, zero, suc, ◌+◌, Bool, true, false, not, ◌&&◌, ◌||◌, Option, none, some, String, List, [], ◌∷◌,
  ◌++◌, ltb, leb, ◌==◌, if◌then◌else◌, map,
}
use mailarchive.Base.Lists.{length, filter}
use mailarchive.Errors.{Outcome, ok, raised, ◌>>=◌, limit_out_of_range, report_missing}
use mailarchive.Host.{Host, num, text}
use mailarchive.Models.{AppConfig}
use mailarchive.Db.{
  Db, RunRow, MutationRow, next_id, insert_audit_event, dry_run, completed, Status,
}
use mailarchive.Db
use mailarchive.Retention.Report.{Report, evaluate_all, policy_version}
use mailarchive.Mutation.Target.{DeletionTarget, fingerprint, columns_of}
use mailarchive.Mutation.Query.{LinkedRow, rows_in, target_of_row, report_for}

-- The variables of the selection loop. `per_account` is the dictionary, 0 where it has no key.
pub record Selection : Type 0 where
  pub selected : List LinkedRow
  pub per_account : ℕ → ℕ
  pub skipped_account : ℕ
  pub skipped_global : ℕ

abbrev pub nothing_selected : Selection
nothing_selected = record {
  selected = [];
  per_account = λ a. 0;
  skipped_account = 0;
  skipped_global = 0;
}

-- `per_account[key] = per_account.get(key, 0) + 1`
abbrev pub bump : ℕ → (ℕ → ℕ) → ℕ → ℕ
bump key counts a = if a == key then counts a + 1 else counts a

-- One round of the loop.
unfoldable pub consider : ℕ → ℕ → LinkedRow → Selection → Selection
consider max_run max_account row s =
    if leb max_account (s.per_account row.remote.account_id)
    then record s { skipped_account = s.skipped_account + 1 }
    else if leb max_run (length s.selected)
    then record s { skipped_global = s.skipped_global + 1 }
    else record s {
      selected = s.selected ++ row ∷ [];
      per_account = bump row.remote.account_id s.per_account;
    }

unfoldable pub select : ℕ → ℕ → List LinkedRow → Selection → Selection
unfolding consider
select max_run max_account [] s = s
select max_run max_account (row ∷ rows) s =
    select max_run max_account rows (consider max_run max_account row s)

-- `limit is not None and not 1 <= limit <= config.remote_deletion.max_per_run`
unfoldable pub limit_refused : ℕ → Option ℕ → Bool
limit_refused max_run none = false
limit_refused max_run (some limit) = not (leb 1 limit && leb limit max_run)

unfoldable pub run_limit : ℕ → Option ℕ → ℕ
run_limit max_run none = max_run
run_limit max_run (some limit) = limit

pub record PlanSummary : Type 0 where
  pub run_id : ℕ
  pub candidate_eligible : Bool
  pub planned : Bool
  pub dry_run : Bool
  pub production_execution_authorized : Bool
  pub eligible : ℕ
  pub selected : ℕ
  pub skipped_due_to_global_limit : ℕ
  pub skipped_due_to_account_limit : ℕ

module _ {W : Type 0} (host : Host W) where
  -- The row of `remote_mutations` for a selected target.
  unfoldable pub plan_row : ℕ → ℕ → String → Report → DeletionTarget → MutationRow
  plan_row id run_id now report target = record {
    id = id;
    mutation_run_id = run_id;
    deletion_evaluation_id = report.deletion_evaluation_id;
    account_id = target.account_id;
    remote_message_id = target.remote_message_id;
    canonical_message_id = target.canonical_message_id;
    provider_kind = target.provider_kind;
    identity = columns_of target.identity;
    canonical_sha256 = target.canonical_sha256;
    target_fingerprint_sha256 = fingerprint host target;
    is_dry_run = true;
    requested_at = now;
    started_at = none;
    completed_at = none;
    status = Status.dry_run;
    provider_response_summary = none;
    error_code = none;
    source_plan_mutation_id = none;
    reconciled_at = none;
  }

  evaluation_of : Option Report → Outcome Report
  evaluation_of none = raised report_missing
  evaluation_of (some r) = ok r

  -- The loop that inserts the planned mutations.
  unfoldable pub insert_planned :
      ℕ → String → List Report → List LinkedRow → List MutationRow → Outcome (List MutationRow)
  unfolding evaluation_of
  insert_planned run_id now reports [] table = ok table
  insert_planned run_id now reports (row ∷ rows) table = do
    target ← target_of_row row
    report ← evaluation_of (report_for target.remote_message_id reports)
    insert_planned run_id now reports rows (
        table ++ plan_row (next_id (λ (m : MutationRow). m.id) table) run_id now report target ∷ [])

  unfoldable pub plan_run :
      AppConfig → Option String → Option ℕ → ℕ → String → ℕ → Selection → RunRow
  plan_run config account limit id now eligible s = record {
    id = id;
    requested_at = now;
    completed_at = some now;
    mode = dry_run;
    status = completed;
    account_filter = account;
    requested_limit = limit;
    effective_max_per_run = run_limit config.remote_deletion.max_per_run limit;
    effective_max_per_account = config.remote_deletion.max_per_account;
    eligible_count = eligible;
    selected_count = length s.selected;
    skipped_limit_count = s.skipped_account + s.skipped_global;
    policy_version = policy_version;
    source_plan_run_id = none;
    authorization_method = none;
  }

  unfoldable pub eligible_reports : List Report → List Report
  eligible_reports reports = filter (λ (r : Report). r.eligible) reports

  unfoldable pub selection_of : AppConfig → Option ℕ → List Report → Db → Selection
  selection_of config limit reports db =
      select (run_limit config.remote_deletion.max_per_run limit)
        config.remote_deletion.max_per_account
        (rows_in db (map (λ (r : Report). r.remote_message_id) (eligible_reports reports)))
        nothing_selected

  -- The second transaction: the plan of these reports.
  unfoldable pub write_plan :
      AppConfig → Option String → Option ℕ → List Report → W → Db → Outcome (PlanSummary × Db)
  unfolding plan_run
  write_plan config account limit reports w db = do
    let eligible = length (eligible_reports reports)
    let s = selection_of config limit reports db
    let now = host.isoformat (host.clock w)
    let run_id = next_id (λ (r : RunRow). r.id) db.remote_mutation_runs
    mutations ← insert_planned run_id now reports s.selected db.remote_mutations
    ok (
      record {
        run_id = run_id;
        candidate_eligible = leb 1 eligible;
        planned = true;
        dry_run = true;
        production_execution_authorized = false;
        eligible = eligible;
        selected = length s.selected;
        skipped_due_to_global_limit = s.skipped_global;
        skipped_due_to_account_limit = s.skipped_account;
      },
      insert_audit_event
          (record {
            timestamp = now;
            actor = "mailarchive.remote_mutation";
            event_type = "remote_delete.dry_run.completed";
            account_id = none;
            canonical_message_id = none;
            result = "success";
            details =
                ("eligible", num eligible)
                ∷ ("policy_version", text policy_version)
                ∷ ("selected", num (length s.selected))
                ∷ ("skipped_limit", num (s.skipped_account + s.skipped_global))
                ∷ [];
          })
          (record db {
            remote_mutation_runs =
                db.remote_mutation_runs ++ plan_run config account limit run_id now eligible s ∷ [];
            remote_mutations = mutations;
          }),
    )

  -- What an evaluation committed stays, also where the plan after it raises.
  unfoldable pub plan_result : Db → Outcome (PlanSummary × Db) → Outcome PlanSummary × Db
  plan_result evaluated (raised e) = (raised e, evaluated)
  plan_result evaluated (ok (summary, planned)) = (ok summary, planned)

  unfoldable pub plan_after :
      AppConfig
      → Option String
      → Option ℕ
      → W
      → Db
      → Outcome (List Report × Db)
      → Outcome PlanSummary × Db
  unfolding plan_result
  plan_after config account limit w db (raised e) = (raised e, db)
  plan_after config account limit w db (ok (reports, evaluated)) =
      plan_result evaluated (write_plan config account limit reports w evaluated)

  unfoldable pub plan_dry_run :
      AppConfig → Option String → Option ℕ → W → Db → Outcome PlanSummary × Db
  unfolding plan_after
  plan_dry_run config account limit w db =
      if limit_refused config.remote_deletion.max_per_run limit
      then (raised limit_out_of_range, db)
      else plan_after config account limit (host.tick w) db (evaluate_all host config w account db)
