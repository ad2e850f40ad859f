-- ===== src/Tests/Again.antt =====
-- The theorem on executing a plan twice, at the archive of `Tests.antt`.
use mailarchive.Base.{ℕ, ◌+◌, ◌≢◌, ◌<◌, arith, ◌≡◌, refl, some, [], ◌∷◌}
use mailarchive.Errors.{Outcome, ok}
use mailarchive.Db
use mailarchive.Db.{Db, EvaluationRow, next_id}
use mailarchive.Mutation.Plan.{plan_dry_run}
use mailarchive.Mutation.Target.{columns_of, fingerprint, target_of}
use mailarchive.Tests.{host, config, now}
use mailarchive.Base.Sort.{order_by, insert}
use mailarchive.Models.{kind_eq, state_eq}
use mailarchive.Mutation.Plan.{
  limit_refused, write_plan, insert_planned, consider, eligible_reports, plan_after, plan_result,
  plan_row, plan_run, run_limit, select, selection_of,
}
use mailarchive.Mutation.Query.{linked_rows, report_for, rows_in, target_of_row}
use mailarchive.Mutation.Target.{identity_facts, identity_of, int_of, kind_text, payload, str_of}
use mailarchive.Retention.Inventory.{
  inventory, account_by_id, facts_of, canonical_of_links, links_of, canonical_by_id, retention_days,
  account_config, add_distinct, control_of, distinct, evidence_identity, identity_complete,
  is_verified_run, required_backups, verified_identities,
}
use mailarchive.Retention.Policy.{
  evaluate, deadline_of, parse_timestamp, digest_differs, evaluation, file_digest, not_elapsed,
  path_ok, reasons,
}
use mailarchive.Retention.Reason.{contains, when}
use mailarchive.Retention.Report.{
  evaluate_all, evaluate_row, evaluate_rows, evaluation_completed, evaluation_row, iso_of,
  record_row, report_of, row_report, start_evaluation,
}
use mailarchive.Mutation.Engine.{Sys}
use mailarchive.Mutation.Serial.{is_planned_in}
use mailarchive.Mutation.Serial.Bounds.{waiting, execute_serial_terminates}
use mailarchive.Mutation.Authorize.{authorize}
use mailarchive.Mutation.Production.{prepare}
use mailarchive.Mutation.Production.Again.{execute_serial-refused}
use mailarchive.Tests.{adapter, plan, planned_row, planned_db}
use mailarchive.Mutation.Authorize.{
  account_id_of, check_age, check_rows, completed_plan, eligible_in, executes, in_production,
  is_unresolved, not_dry_run, opted_in, over_limits, prove_current,
}
use mailarchive.Mutation.Engine.{commit, current_in, maybe_current, row_current}
use mailarchive.Mutation.Production.{
  after_authorize, after_evaluation, after_proof, clone, clone_rows, evaluation_id, production_run,
  write_production,
}
use mailarchive.Mutation.Query.{mutation_by_id, mutations_of, planned_target, row_of, run_by_id}

abbrev ready : Sys ℕ
ready = record { db = planned_db; world = now; trace = [] }

abbrev prepared : Sys ℕ
prepared = (prepare host config 1 "home" (some adapter) ready).1

prepares : prepare host config 1 "home" (some adapter) ready ≡ (ok (2, adapter), prepared)
unfolding prepare plan_dry_run limit_refused evaluate_all inventory order_by account_by_id
    evaluate_row evaluate deadline_of parse_timestamp facts_of canonical_of_links links_of
    canonical_by_id retention_days account_config write_plan insert_planned insert
    Db.insert_audit_event next_id kind_eq state_eq consider eligible_reports plan_after plan_result
    plan_row plan_run run_limit select selection_of linked_rows report_for rows_in target_of_row
    columns_of fingerprint identity_facts identity_of int_of kind_text payload str_of target_of
    add_distinct control_of distinct evidence_identity identity_complete is_verified_run
    required_backups verified_identities digest_differs evaluation file_digest not_elapsed path_ok
    reasons contains when evaluate_rows evaluation_completed evaluation_row iso_of record_row
    report_of row_report start_evaluation authorize opted_in run_by_id executes check_age
    over_limits mutations_of not_dry_run account_id_of is_unresolved prove_current eligible_in
    planned_target mutation_by_id current_in row_of row_current check_rows completed_plan
    in_production commit maybe_current after_authorize after_evaluation after_proof clone clone_rows
    evaluation_id production_run write_production
prepares = refl

prepared_waiting : waiting 2 prepared.db < 6
unfolding is_planned_in prepare plan_dry_run limit_refused evaluate_all inventory order_by
    account_by_id evaluate_row evaluate deadline_of parse_timestamp facts_of canonical_of_links
    links_of canonical_by_id retention_days account_config write_plan insert_planned insert
    Db.insert_audit_event next_id kind_eq state_eq consider eligible_reports plan_after plan_result
    plan_row plan_run run_limit select selection_of linked_rows report_for rows_in target_of_row
    columns_of fingerprint identity_facts identity_of int_of kind_text payload str_of target_of
    add_distinct control_of distinct evidence_identity identity_complete is_verified_run
    required_backups verified_identities digest_differs evaluation file_digest not_elapsed path_ok
    reasons contains when evaluate_rows evaluation_completed evaluation_row iso_of record_row
    report_of row_report start_evaluation authorize opted_in run_by_id executes check_age
    over_limits mutations_of not_dry_run account_id_of is_unresolved prove_current eligible_in
    planned_target mutation_by_id current_in row_of row_current check_rows completed_plan
    in_production commit maybe_current after_authorize after_evaluation after_proof clone clone_rows
    evaluation_id production_run write_production
prepared_waiting = omega arith

abbrev ended : Outcome (Unit {0}) × Sys ℕ
ended = (execute_serial_terminates host config adapter 2 6 prepared prepared_waiting).0

execute_serial-refused_example :
    authorize host config 1 "home" (now + 1) ended.1.db ≢ ok (plan, planned_row ∷ [])
execute_serial-refused_example =
    execute_serial-refused host config config 1 2 6 (now + 1) "home" "home" (some adapter) adapter
      ready prepared ended (plan, planned_row ∷ []) prepares
      (execute_serial_terminates host config adapter 2 6 prepared prepared_waiting).1
