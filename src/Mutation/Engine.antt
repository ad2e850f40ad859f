-- ===== src/Mutation/Engine.antt =====
-- The state of an execution in src/mailarchive/remote_mutation.py, its writes to the database, and
-- `_still_current`, `_halt_stale` and `_record_outcome`. `trace` records, newest first, what a crash
-- cannot undo: each committed database and each call of a provider's `delete`.
use mailarchive.Base.{
  ℕ, Bool, false, ◌&&◌, Option, none, some, String, List, [], ◌∷◌, ◌==◌, str_eq, if◌then◌else◌,
}
use mailarchive.Base.Rows.{update_where}
use mailarchive.Errors.{Outcome, ok, ◌>>=◌}
use mailarchive.Host.{Host, Json, num, text}
use mailarchive.Models.{AppConfig}
use mailarchive.Db.{
  Db, RunRow, RunStatus, RemoteRow, MutationRow, AuditEvent, Status, insert_audit_event, halted,
  started, succeeded, failed, unknown, status_eq,
}
use mailarchive.Retention.Report.{Report, evaluate_all}
use mailarchive.Mutation.Target.{DeletionTarget, fingerprint, str_of, kind_text}
use mailarchive.Mutation.Result.{MutationResult, normalize_result}
use mailarchive.Mutation.Query.{LinkedRow, row_of, target_of_row, report_for}

pub data Event : Type 0 where
  committed : Db → Event
  -- the id of the mutation row, and the target that the provider was given
  called : ℕ → DeletionTarget → Event

pub record Sys (W : Type 0) : Type 0 where
  pub db : Db
  pub world : W
  pub trace : List Event

-- A `RemoteMutationAdapter`: what `delete` returns, `none` for an exception, and the world after it.
pub record Adapter (W : Type 0) : Type 0 where
  pub delete : DeletionTarget → W → Option MutationResult × W

unfoldable pub set_mutation : ℕ → (MutationRow → MutationRow) → Db → Db
set_mutation id f db = record db {
  remote_mutations = update_where (λ (m : MutationRow). m.id == id) f db.remote_mutations;
}

unfoldable pub set_run : ℕ → (RunRow → RunRow) → Db → Db
set_run id f db = record db {
  remote_mutation_runs = update_where (λ (r : RunRow). r.id == id) f db.remote_mutation_runs;
}

unfoldable pub end_run : RunStatus → String → RunRow → RunRow
end_run status now r = record r { status = status; completed_at = some now }

abbrev pub audit : String → String → String → Option ℕ → List (String × Json) → AuditEvent
audit now event result account details = record {
  timestamp = now;
  actor = "mailarchive.remote_mutation";
  event_type = event;
  account_id = account;
  canonical_message_id = none;
  result = result;
  details = details;
}

-- `str(report.get("canonical_id"))` and the other tests of `_still_current` on the fresh row.
unfoldable pub row_current :
    {W : Type 0} → Host W → DeletionTarget → String → Report → LinkedRow → Outcome Bool
row_current host target fp report row =
    if row.remote.remote_present
      && str_eq report.remote_message_id target.remote_message_id
      && str_eq (str_of report.canonical_id) target.canonical_message_id
    then (do fresh ← target_of_row row; ok (str_eq (fingerprint host fresh) fp))
    else ok false

unfoldable pub maybe_current :
    {W : Type 0} → Host W → DeletionTarget → String → Report → Option LinkedRow → Outcome Bool
maybe_current host target fp report none = ok false
maybe_current host target fp report (some row) = row_current host target fp report row

-- `_still_current` after the reports are at hand.
unfoldable pub current_in :
    {W : Type 0} → Host W → Db → DeletionTarget → String → Option Report → Outcome Bool
unfolding maybe_current
current_in host db target fp none = ok false
current_in host db target fp (some report) =
    if report.eligible
    then maybe_current host target fp report
        (row_of db target.remote_message_id target.canonical_message_id)
    else ok false

module _ {W : Type 0} (host : Host W) where
  unfoldable pub commit : Db → Sys W → Sys W
  commit db s = record s { db = db; world = host.tick s.world; trace = committed db ∷ s.trace }

  -- `_still_current` with no report given: a fresh evaluation, which it commits, of every account.
  unfoldable pub still_current :
      AppConfig → DeletionTarget → String → Sys W → Outcome (Bool × Sys W)
  still_current config target fp s = do
    fresh ← evaluate_all host config s.world none s.db
    current ← current_in host fresh.1 target fp (report_for target.remote_message_id fresh.0)
    ok (current, commit fresh.1 s)

  -- The row and the event that are committed before the call.
  unfoldable pub mark_started : ℕ → ℕ → DeletionTarget → W → Db → Db
  mark_started run_id id target w db =
      let now = host.isoformat (host.clock w) in
      insert_audit_event
        (audit now "remote_mutation.started" "started" (some target.account_id) (
          ("account_id", num target.account_id)
          ∷ ("mutation_id", num id)
          ∷ ("provider_kind", text (kind_text target.provider_kind))
          ∷ ("run_id", num run_id)
          ∷ []))
        (set_mutation id (λ (m : MutationRow). record m { status = started; started_at = some now })
          db)

  unfoldable pub halted_event : String → ℕ → ℕ → String → DeletionTarget → Db → Db
  halted_event now run_id id reason target = insert_audit_event (
      audit now "remote_delete.production.halted" "halted" (some target.account_id)
        (("mutation_id", num id) ∷ ("reason", text reason) ∷ ("run_id", num run_id) ∷ []))

  -- `_halt_stale` with `production=True`
  unfoldable pub halt_stale : ℕ → ℕ → DeletionTarget → W → Db → Db
  unfolding halted_event
  halt_stale run_id id target w db =
      let now = host.isoformat (host.clock w) in
      halted_event now run_id id "stale-plan" target (
        insert_audit_event
          (audit now "remote_mutation.stale_plan" "failed" (some target.account_id)
            (("mutation_id", num id) ∷ ("run_id", num run_id) ∷ []))
          (set_run run_id (end_run halted now) (
            set_mutation id
              (λ (m : MutationRow). record m {
                status = failed;
                completed_at = some now;
                error_code = some "STALE_PLAN";
              })
              db)))

  -- `UPDATE remote_messages SET remote_present=0 WHERE id=?`
  unfoldable pub clear_present : String → Db → Db
  clear_present id db = record db {
    remote_messages =
        update_where (λ (r : RemoteRow). str_eq r.id id)
          (λ (r : RemoteRow). record r { remote_present = false }) db.remote_messages;
  }

  unfoldable pub status_text : Status → String
  status_text Status.planned = "planned"
  status_text Status.dry_run = "dry-run"
  status_text started = "started"
  status_text succeeded = "succeeded"
  status_text failed = "failed"
  status_text unknown = "unknown"

  -- `f"remote_mutation.{status}"`
  unfoldable pub status_event : Status → String
  status_event Status.planned = "remote_mutation.planned"
  status_event Status.dry_run = "remote_mutation.dry-run"
  status_event started = "remote_mutation.started"
  status_event succeeded = "remote_mutation.succeeded"
  status_event failed = "remote_mutation.failed"
  status_event unknown = "remote_mutation.unknown"

  -- `"mutation-failed" if status == "failed" else "mutation-unknown"`
  unfoldable pub halt_reason : Status → String
  halt_reason failed = "mutation-failed"
  halt_reason _ = "mutation-unknown"

  -- The writes of `_record_outcome` with `production=True`, for a normalized result.
  unfoldable pub outcome_row : Status → String → String → String → MutationRow → MutationRow
  outcome_row status summary code now m = record m {
    status = status;
    completed_at = some now;
    provider_response_summary = some summary;
    error_code = some code;
  }

  unfoldable pub write_outcome :
      ℕ → ℕ → DeletionTarget → Bool → Status → String → String → W → Db → Db
  unfolding status_text status_event halt_reason halted_event
  write_outcome run_id id target absent status summary code w db =
      let now = host.isoformat (host.clock w) in
      let success = status_eq status succeeded in
      let recorded = set_mutation id (outcome_row status summary code now) db in
      let present =
        if success && absent then clear_present target.remote_message_id recorded else recorded in
      let noted =
        insert_audit_event (audit now (status_event status) (status_text status) none []) present in
      if success
      then noted
      else halted_event now run_id id (halt_reason status) target
          (set_run run_id (end_run halted now) noted)

  -- `adapter.delete(target)`
  unfoldable pub call_provider :
      Adapter W → ℕ → DeletionTarget → Sys W → Option MutationResult × Sys W
  call_provider adapter id target s =
      let (result, world) = adapter.delete target s.world in
      (result, record s { world = world; trace = called id target ∷ s.trace })

  -- What is recorded for an exception of the adapter.
  unfoldable pub unknown_result : MutationResult
  unknown_result = record {
    outcome = "outcome-unknown";
    confirmed_absent = false;
    error_code = none;
  }

  unfoldable pub result_of : Option MutationResult → MutationResult
  result_of none = unknown_result
  result_of (some r) = r

  unfoldable pub internal_code_of : Option MutationResult → Option String
  internal_code_of none = some "ADAPTER_EXCEPTION"
  internal_code_of (some r) = none

  -- `_record_outcome`, on the result of the call or on its exception.
  unfoldable pub record_outcome :
      ℕ → ℕ → DeletionTarget → Option MutationResult → Sys W → Outcome (Status × Sys W)
  record_outcome run_id id target result s = do
    v ← normalize_result (result_of result) (internal_code_of result)
    ok (
      v.0,
      commit
          (write_outcome run_id id target (result_of result).confirmed_absent v.0 v.1 v.2 s.world
            s.db)
          s,
    )
