-- ===== src/Retention/Report.antt =====
-- `evaluate_all` of src/mailarchive/retention.py: one evaluation row and one report for each remote
-- identity. The transaction commits as a whole, or an exception rolls it back.
pub mod Sound
use mailarchive.Base.{ℕ, Bool, true, false, not, Option, none, some, String, List, [], ◌∷◌, ◌++◌}
use mailarchive.Base.Lists.{length, filter}
use mailarchive.Errors.{Outcome, ok, raised, ◌>>=◌}
use mailarchive.Host.{Host, Instant, aware, num, text}
use mailarchive.Models.{Kind, AppConfig}
use mailarchive.Db.{Db, EvaluationRow, EvaluationRunRow, next_id, insert_audit_event}
use mailarchive.Retention.Reason.{Reason}
use mailarchive.Retention.Policy.{RetentionFacts, Evaluation, evaluate}
use mailarchive.Retention.Inventory.{
  JoinedRow, inventory, facts_of, retention_days, required_backups,
}

abbrev pub policy_version : String
policy_version = "retention-v1"

pub record Report : Type 0 where
  pub remote_message_id : String
  pub canonical_id : Option String
  pub account : String
  pub provider_kind : Option Kind
  pub eligible : Bool
  pub deletion_evaluation_id : ℕ
  pub execution_authorized : Bool
  pub reason_codes : List Reason
  pub archived_at : Option String
  pub retention_deadline : Option String
  pub verified_repository_count : ℕ
  pub required_verified_backups : ℕ
  pub keep_online : Bool
  pub legal_hold : Bool

module _ {W : Type 0} (host : Host W) where
  unfoldable pub iso_of : Option Instant → Option String
  iso_of none = none
  iso_of (some t) = some (host.isoformat t)

  -- The row of `deletion_evaluations`.
  unfoldable pub evaluation_row :
      ℕ → ℕ → Instant → RetentionFacts → Option ℕ → ℕ → Evaluation → EvaluationRow
  unfolding iso_of
  evaluation_row id run_id now facts days required e = record {
    id = id;
    evaluation_run_id = run_id;
    remote_message_id = facts.remote_message_id;
    canonical_message_id = facts.canonical_id;
    evaluated_at = host.isoformat now;
    eligible = e.eligible;
    reason_codes = e.reason_codes;
    policy_version = policy_version;
    remote_retention_days = days;
    required_verified_backups = required;
    verified_repository_count = e.verified_repository_count;
    retention_deadline = iso_of e.retention_deadline;
  }

  unfoldable pub report_of : ℕ → RetentionFacts → ℕ → Evaluation → Report
  unfolding iso_of
  report_of id facts required e = record {
    remote_message_id = facts.remote_message_id;
    canonical_id = facts.canonical_id;
    account = facts.account;
    provider_kind = facts.provider_kind;
    eligible = e.eligible;
    deletion_evaluation_id = id;
    execution_authorized = false;
    reason_codes = e.reason_codes;
    archived_at = facts.archived_at;
    retention_deadline = iso_of e.retention_deadline;
    verified_repository_count = e.verified_repository_count;
    required_verified_backups = required;
    keep_online = facts.keep_online;
    legal_hold = facts.legal_hold;
  }

  -- The evaluation of one row of the query.
  unfoldable pub evaluate_row : AppConfig → W → Instant → JoinedRow → Outcome Evaluation
  evaluate_row config w now row =
      evaluate host w (facts_of host row) (aware now) (retention_days config row.account.name)
        (required_backups config row.account.name) config.mail_root

  insert_evaluation : EvaluationRow → Db → Db
  insert_evaluation row db = record db {
    deletion_evaluations = db.deletion_evaluations ++ row ∷ [];
  }

  -- What the loop writes and reports for one row, whose evaluation gets the next `id`.
  unfoldable pub record_row : AppConfig → Instant → ℕ → JoinedRow → Evaluation → Db → Db
  unfolding insert_evaluation evaluation_row
  record_row config now run_id row e db =
      insert_evaluation
        (evaluation_row (next_id (λ (e : EvaluationRow). e.id) db.deletion_evaluations) run_id now
          (facts_of host row) (retention_days config row.account.name)
          (required_backups config row.account.name) e)
        db

  unfoldable pub row_report : AppConfig → JoinedRow → Evaluation → Db → Report
  unfolding report_of
  row_report config row e db =
      report_of (next_id (λ (e : EvaluationRow). e.id) db.deletion_evaluations) (facts_of host row)
        (required_backups config row.account.name) e

  -- The loop over the rows.
  unfoldable pub evaluate_rows :
      AppConfig → W → Instant → ℕ → List JoinedRow → Db → Outcome (List Report × Db)
  evaluate_rows config w now run_id [] db = ok ([], db)
  evaluate_rows config w now run_id (row ∷ rows) db = do
    result ← evaluate_row config w now row
    rest ← evaluate_rows config w now run_id rows (record_row config now run_id row result db)
    ok (row_report config row result db ∷ rest.0, rest.1)

  unfoldable pub start_evaluation : Instant → Db → Db
  start_evaluation now db = record db {
    deletion_evaluation_runs =
        db.deletion_evaluation_runs
        ++ record {
          id = next_id (λ (r : EvaluationRunRow). r.id) db.deletion_evaluation_runs;
          evaluated_at = host.isoformat now;
          policy_version = policy_version;
        }
          ∷ [];
  }

  unfoldable pub evaluation_completed : Instant → List Report → Db → Db
  evaluation_completed now reports = insert_audit_event (record {
    timestamp = host.isoformat now;
    actor = "mailarchive.retention";
    event_type = "retention.evaluation.completed";
    account_id = none;
    canonical_message_id = none;
    result = "success";
    details =
        ("evaluated_count", num (length reports))
        ∷ ("eligible_count", num (length (filter (λ (r : Report). r.eligible) reports)))
        ∷ ("blocked_count", num (length (filter (λ (r : Report). not r.eligible) reports)))
        ∷ ("policy_version", text policy_version)
        ∷ [];
  })

  unfoldable pub evaluate_all : AppConfig → W → Option String → Db → Outcome (List Report × Db)
  unfolding evaluate_rows start_evaluation evaluation_completed
  evaluate_all config w account db = do
    let now = host.clock w
    let run_id = next_id (λ (r : EvaluationRunRow). r.id) db.deletion_evaluation_runs
    done ← evaluate_rows config w now run_id (inventory db account) (start_evaluation now db)
    ok (done.0, evaluation_completed now done.0 done.1)
