-- ===== src/Tests/Evaluation.antt =====
-- The theorems of evaluations and of plans, at the archive of `Tests.antt`.
use mailarchive.Base.{◌≡◌, refl, true, false, none, some, List, [], ◌∷◌, ◌++◌}
use mailarchive.Host.{num, text}
use mailarchive.Errors.{ok}
use mailarchive.Db
use mailarchive.Db.{Db, EvaluationRow, next_id}
use mailarchive.Models.{Kind}
use mailarchive.Mutation.Plan.{PlanSummary, plan_dry_run}
use mailarchive.Mutation.Plan.Bounds.{IsPlan, plan_dry_run-IsPlan}
use mailarchive.Mutation.Target.{columns_of, fingerprint, target_of}
use mailarchive.Retention.Report.{Report}
use mailarchive.Retention.Report.Sound.{AllSound, SameInventory, Records, evaluate_all_sound}
use mailarchive.Tests.{host, config, database, now}
use mailarchive.Base.Sort.{order_by, insert}
use mailarchive.Models.{kind_eq, state_eq}
use mailarchive.Mutation.Plan.{
  limit_refused, write_plan, insert_planned, consider, eligible_reports, plan_after, plan_result,
  plan_row, plan_run, run_limit, select, selection_of,
}
use mailarchive.Mutation.Query.{linked_rows, report_for, rows_in, target_of_row}
use mailarchive.Mutation.Target.{identity_facts, identity_of, int_of, kind_text, payload, str_of}
use mailarchive.Retention.Inventory.{
  inventory, account_by_id, facts_of, canonical_of_links, links_of, canonical_by_id, retention_days,
  account_config, add_distinct, control_of, distinct, evidence_identity, identity_complete,
  is_verified_run, required_backups, verified_identities,
}
use mailarchive.Retention.Policy.{
  evaluate, deadline_of, parse_timestamp, digest_differs, evaluation, file_digest, not_elapsed,
  path_ok, reasons,
}
use mailarchive.Retention.Reason.{contains, when}
use mailarchive.Retention.Report.{
  evaluate_all, evaluate_row, evaluate_rows, evaluation_completed, evaluation_row, iso_of,
  record_row, report_of, row_report, start_evaluation,
}

abbrev report : Report
report = record {
  remote_message_id = "r1";
  canonical_id = some "c1";
  account = "home";
  provider_kind = some Kind.pop3;
  eligible = true;
  deletion_evaluation_id = 1;
  execution_authorized = false;
  reason_codes = [];
  archived_at = some "2026-01-01T00:00:00+00:00";
  retention_deadline = some "2026-01-01T00:00:00+00:00";
  verified_repository_count = 1;
  required_verified_backups = 1;
  keep_online = false;
  legal_hold = false;
}

abbrev evaluated : Db
evaluated = record (database [] []) {
  deletion_evaluation_runs =
      record { id = 1; evaluated_at = "2026-01-01T00:00:00+00:00"; policy_version = "retention-v1" }
      ∷ [];
  deletion_evaluations =
      record {
        id = 1;
        evaluation_run_id = 1;
        remote_message_id = "r1";
        canonical_message_id = some "c1";
        evaluated_at = "2026-01-01T00:00:00+00:00";
        eligible = true;
        reason_codes = [];
        policy_version = "retention-v1";
        remote_retention_days = some 0;
        required_verified_backups = 1;
        verified_repository_count = 1;
        retention_deadline = some "2026-01-01T00:00:00+00:00";
      }
      ∷ [];
  audit_events =
      record {
        timestamp = "2026-01-01T00:00:00+00:00";
        actor = "mailarchive.retention";
        event_type = "retention.evaluation.completed";
        account_id = none;
        canonical_message_id = none;
        result = "success";
        details =
            ("evaluated_count", num 1)
            ∷ ("eligible_count", num 1)
            ∷ ("blocked_count", num 0)
            ∷ ("policy_version", text "retention-v1")
            ∷ [];
      }
      ∷ [];
}

evaluates_all : evaluate_all host config now none (database [] []) ≡ ok (report ∷ [], evaluated)
unfolding evaluate_all inventory order_by account_by_id evaluate_row evaluate deadline_of
    parse_timestamp facts_of canonical_of_links links_of canonical_by_id retention_days
    account_config insert Db.insert_audit_event next_id kind_eq state_eq add_distinct control_of
    distinct evidence_identity identity_complete is_verified_run required_backups
    verified_identities digest_differs evaluation file_digest not_elapsed path_ok reasons contains
    when evaluate_rows evaluation_completed evaluation_row iso_of record_row report_of row_report
    start_evaluation
evaluates_all = refl

evaluate_all_sound_example :
    AllSound host config now now (inventory (database [] []) none) (report ∷ [])
    × SameInventory (database [] []) evaluated
    × ((new : List EvaluationRow) × (evaluated.deletion_evaluations
          ≡ (database [] []).deletion_evaluations ++ new)
        × Records host config now new (report ∷ []))
evaluate_all_sound_example =
    evaluate_all_sound host config now none (database [] []) (report ∷ []) evaluated evaluates_all

abbrev summary : PlanSummary
summary = record {
  run_id = 1;
  candidate_eligible = true;
  planned = true;
  dry_run = true;
  production_execution_authorized = false;
  eligible = 1;
  selected = 1;
  skipped_due_to_global_limit = 0;
  skipped_due_to_account_limit = 0;
}

abbrev planned : Db
planned = (plan_dry_run host config none none now (database [] [])).1

planning : plan_dry_run host config none none now (database [] []) ≡ (ok summary, planned)
unfolding plan_dry_run limit_refused evaluate_all inventory order_by account_by_id evaluate_row
    evaluate deadline_of parse_timestamp facts_of canonical_of_links links_of canonical_by_id
    retention_days account_config write_plan insert_planned insert Db.insert_audit_event next_id
    kind_eq state_eq consider eligible_reports plan_after plan_result plan_row plan_run run_limit
    select selection_of linked_rows report_for rows_in target_of_row columns_of fingerprint
    identity_facts identity_of int_of kind_text payload str_of target_of add_distinct control_of
    distinct evidence_identity identity_complete is_verified_run required_backups
    verified_identities digest_differs evaluation file_digest not_elapsed path_ok reasons contains
    when evaluate_rows evaluation_completed evaluation_row iso_of record_row report_of row_report
    start_evaluation
planning = refl

plan_dry_run-IsPlan_example : IsPlan config summary (database [] []) planned
plan_dry_run-IsPlan_example =
    plan_dry_run-IsPlan host config none none now (database [] []) summary planned planning
