-- ===== src/Retention/Report/Sound.antt =====
-- The reports and the history that `evaluate_all` of src/mailarchive/retention.py leaves.
use mailarchive.Base.{ℕ, ◌≡◌, ◌↔◌, refl, sym, ◌∙◌, true, false, Option, String, List, [], ◌∷◌, ◌++◌}
use mathlib.Core.Path.{subst}
use mathlib.Core.List.{append-nil, append_assoc}
use mailarchive.Errors.{ok, ◌>>=◌, >>=-eq-ok}
use mailarchive.Host.{Host, Instant}
use mailarchive.Models.{AppConfig}
use mailarchive.Db.{Db, EvaluationRow, EvaluationRunRow, next_id, insert_audit_event}
use mailarchive.Retention.Policy.{Evaluation}
use mailarchive.Retention.Policy.Eligible.{IsDeletable, evaluate-eligible_iff}
use mailarchive.Retention.Inventory.{
  JoinedRow, inventory, facts_of, retention_days, required_backups,
}
use mailarchive.Retention.Report.{
  Report, evaluate_row, evaluate_rows, evaluate_all, record_row, row_report, evaluation_row,
  start_evaluation, evaluation_completed,
}

-- The tables that no evaluation writes.
pub record SameInventory (a b : Db) : Type 0 where
  pub accounts : b.accounts ≡ a.accounts
  pub canonical_messages : b.canonical_messages ≡ a.canonical_messages
  pub remote_messages : b.remote_messages ≡ a.remote_messages
  pub remote_canonical_links : b.remote_canonical_links ≡ a.remote_canonical_links
  pub retention_controls : b.retention_controls ≡ a.retention_controls
  pub backup_repositories : b.backup_repositories ≡ a.backup_repositories
  pub backup_runs : b.backup_runs ≡ a.backup_runs
  pub message_backup_evidence : b.message_backup_evidence ≡ a.message_backup_evidence
  pub remote_mutation_runs : b.remote_mutation_runs ≡ a.remote_mutation_runs
  pub remote_mutations : b.remote_mutations ≡ a.remote_mutations

pub SameInventory-refl : (a : Db) → SameInventory a a
SameInventory-refl a = record {
  accounts = refl;
  canonical_messages = refl;
  remote_messages = refl;
  remote_canonical_links = refl;
  retention_controls = refl;
  backup_repositories = refl;
  backup_runs = refl;
  message_backup_evidence = refl;
  remote_mutation_runs = refl;
  remote_mutations = refl;
}

pub SameInventory-trans : {a b c : Db} → SameInventory a b → SameInventory b c → SameInventory a c
SameInventory-trans p q = record {
  accounts = q.accounts ∙ p.accounts;
  canonical_messages = q.canonical_messages ∙ p.canonical_messages;
  remote_messages = q.remote_messages ∙ p.remote_messages;
  remote_canonical_links = q.remote_canonical_links ∙ p.remote_canonical_links;
  retention_controls = q.retention_controls ∙ p.retention_controls;
  backup_repositories = q.backup_repositories ∙ p.backup_repositories;
  backup_runs = q.backup_runs ∙ p.backup_runs;
  message_backup_evidence = q.message_backup_evidence ∙ p.message_backup_evidence;
  remote_mutation_runs = q.remote_mutation_runs ∙ p.remote_mutation_runs;
  remote_mutations = q.remote_mutations ∙ p.remote_mutations;
}

module _ {W : Type 0} (host : Host W) (config : AppConfig) (w : W) where
  -- What a report says of its row: whose it is, and that it is eligible exactly if the policy's
  -- conditions hold.
  pub record IsSound (now : Instant) (row : JoinedRow) (report : Report) : Type 0 where
    pub same_remote : report.remote_message_id ≡ row.remote.id
    pub same_account : report.account ≡ row.account.name
    pub same_canonical : report.canonical_id ≡ (facts_of host row).canonical_id
    pub sound :
        (report.eligible ≡ true)
        ↔ IsDeletable host w
            (facts_of host row)
            now
            (retention_days config row.account.name)
            (required_backups config row.account.name)
            config.mail_root
    pub not_authorized : report.execution_authorized ≡ false

  abbrev pub AllSound : Instant → List JoinedRow → List Report → Type 0
  AllSound now [] [] = Unit
  AllSound now [] (r ∷ rs) = ⊥
  AllSound now (x ∷ xs) [] = ⊥
  AllSound now (x ∷ xs) (r ∷ rs) = IsSound now x r × AllSound now xs rs

  -- The rows that were written, in the order of the reports.
  abbrev pub Records : List EvaluationRow → List Report → Type 0
  Records [] [] = Unit
  Records [] (r ∷ rs) = ⊥
  Records (e ∷ es) [] = ⊥
  Records (e ∷ es) (r ∷ rs) =
      (e.id ≡ r.deletion_evaluation_id)
      × (e.remote_message_id ≡ r.remote_message_id)
      × (e.canonical_message_id ≡ r.canonical_id)
      × (e.eligible ≡ r.eligible)
      × (e.reason_codes ≡ r.reason_codes)
      × Records es rs

  -- A loop that returns has evaluated its first row, and the rest from what that row wrote.
  pub evaluate_rows-cons :
      (now : Instant) (run_id : ℕ) (row : JoinedRow) (rows : List JoinedRow) (db : Db)
      (out : List Report × Db)
      → evaluate_rows host config w now run_id (row ∷ rows) db ≡ ok out
      → (e : Evaluation) × (rest : List Report × Db) × (evaluate_row host config w now row ≡ ok e)
        × (evaluate_rows host config w now run_id rows (record_row host config now run_id row e db)
            ≡ ok rest)
        × (out ≡ (row_report host config row e db ∷ rest.0, rest.1))
  unfolding evaluate_rows
  evaluate_rows-cons now run_id row rows db out h =
      let (e, p, q) =
        >>=-eq-ok (evaluate_row host config w now row)
          (λ e.
            evaluate_rows host config w now run_id rows (record_row host config now run_id row e db)
            >>= λ rest. ok (row_report host config row e db ∷ rest.0, rest.1))
          h in
      let (rest, p', q') =
        >>=-eq-ok
          (evaluate_rows host config w now run_id rows (record_row host config now run_id row e db))
          (λ rest. ok (row_report host config row e db ∷ rest.0, rest.1)) q in
      (e, rest, p, p', cc)

  evaluate_row-IsSound :
      (now : Instant) (run_id : ℕ) (row : JoinedRow) (e : Evaluation) (db : Db)
      → evaluate_row host config w now row ≡ ok e
      → IsSound now row (row_report host config row e db)
  unfolding evaluate_row row_report facts_of
  evaluate_row-IsSound now run_id row e db h = record {
    same_remote = refl;
    same_account = refl;
    same_canonical = refl;
    sound = evaluate-eligible_iff host w _ now _ _ _ e h;
    not_authorized = refl;
  }

  evaluate_rows-AllSound :
      (now : Instant) (run_id : ℕ) (rows : List JoinedRow) (db : Db) (out : List Report × Db)
      → evaluate_rows host config w now run_id rows db ≡ ok out
      → AllSound now rows out.0
  unfolding evaluate_rows
  evaluate_rows-AllSound now run_id [] db out h =
      let e : ◌≡◌ {A = List Report × Db} ([], db) out = cc in subst (λ o. AllSound now [] o.0) e tt
  evaluate_rows-AllSound now run_id (row ∷ rows) db out h =
      let (e, rest, p, q, o_lem) = evaluate_rows-cons now run_id row rows db out h in
      subst (λ o. AllSound now (row ∷ rows) o.0) (sym o_lem)
        (
          evaluate_row-IsSound now run_id row e db p,
          evaluate_rows-AllSound now run_id rows _ rest q,
        )

  -- The row that the loop appends.
  abbrev new_row : Instant → ℕ → JoinedRow → Evaluation → Db → EvaluationRow
  new_row now run_id row e db =
      evaluation_row host (next_id (λ (e : EvaluationRow). e.id) db.deletion_evaluations) run_id now
        (facts_of host row) (retention_days config row.account.name)
        (required_backups config row.account.name) e

  record_row-SameInventory :
      (now : Instant) (run_id : ℕ) (row : JoinedRow) (e : Evaluation) (db : Db)
      → SameInventory db (record_row host config now run_id row e db)
  unfolding record_row
  record_row-SameInventory now run_id row e db = record {
    accounts = refl;
    canonical_messages = refl;
    remote_messages = refl;
    remote_canonical_links = refl;
    retention_controls = refl;
    backup_repositories = refl;
    backup_runs = refl;
    message_backup_evidence = refl;
    remote_mutation_runs = refl;
    remote_mutations = refl;
  }

  -- The loop writes evaluations only, appended in the order of its reports.
  abbrev pub Appends : Db → List Report × Db → Type 0
  Appends db out =
      SameInventory db out.1
      × (out.1.audit_events ≡ db.audit_events)
      × (new : List EvaluationRow) × (out.1.deletion_evaluations ≡ db.deletion_evaluations ++ new)
      × Records new out.0

  record_row-Appends :
      (now : Instant) (run_id : ℕ) (row : JoinedRow) (e : Evaluation) (db : Db)
      (rest : List Report × Db)
      → Appends (record_row host config now run_id row e db) rest
      → Appends db (row_report host config row e db ∷ rest.0, rest.1)
  unfolding record_row row_report
  record_row-Appends now run_id row e db rest (same, audit, new, appended, records) = (
    SameInventory-trans (record_row-SameInventory now run_id row e db) same,
    audit,
    new_row now run_id row e db ∷ new,
    appended ∙ append_assoc db.deletion_evaluations (new_row now run_id row e db ∷ []) new,
    (refl, refl, refl, refl, refl, records),
  )

  evaluate_rows-Appends :
      (now : Instant) (run_id : ℕ) (rows : List JoinedRow) (db : Db) (out : List Report × Db)
      → evaluate_rows host config w now run_id rows db ≡ ok out
      → Appends db out
  unfolding evaluate_rows
  evaluate_rows-Appends now run_id [] db out h =
      let e : ◌≡◌ {A = List Report × Db} ([], db) out = cc in
      subst (Appends db) e (SameInventory-refl db, refl, [], sym (append-nil _), tt)
  evaluate_rows-Appends now run_id (row ∷ rows) db out h =
      let (e, rest, p, q, o_lem) = evaluate_rows-cons now run_id row rows db out h in
      subst (Appends db) (sym o_lem) (
        record_row-Appends now run_id row e db rest
          (evaluate_rows-Appends now run_id rows _ rest q))

completed :
    {W : Type 0} (host : Host W) (config : AppConfig) (w : W) (account : Option String) (db : Db)
    (out : List Report × Db) (now : Instant) (run_id : ℕ)
    → evaluate_rows host config w now run_id (inventory db account) (start_evaluation host now db)
      ≡ ok out
    → AllSound host config w now (inventory db account) out.0
      × SameInventory db (evaluation_completed host now out.0 out.1)
      × ((new : List EvaluationRow) × ((evaluation_completed host now out.0
              out.1).deletion_evaluations
            ≡ db.deletion_evaluations ++ new)
          × Records host config w new out.0)
unfolding start_evaluation evaluation_completed insert_audit_event
completed host config w account db out now run_id p =
    let (same, audit, new, appended, records) =
      evaluate_rows-Appends host config w now run_id (inventory db account) _ out p in
    (
      evaluate_rows-AllSound host config w now run_id (inventory db account) _ out p,
      record {
        accounts = same.accounts;
        canonical_messages = same.canonical_messages;
        remote_messages = same.remote_messages;
        remote_canonical_links = same.remote_canonical_links;
        retention_controls = same.retention_controls;
        backup_repositories = same.backup_repositories;
        backup_runs = same.backup_runs;
        message_backup_evidence = same.message_backup_evidence;
        remote_mutation_runs = same.remote_mutation_runs;
        remote_mutations = same.remote_mutations;
      },
      (new, appended, records),
    )

-- An evaluation that returns has a sound report for each row of its query, in that order. It
-- changes no inventory, hold, backup or mutation table, and appends to the history one row for each
-- report, with the report's id, verdict and codes.
pub evaluate_all_sound :
    {W : Type 0} (host : Host W) (config : AppConfig) (w : W) (account : Option String) (db : Db)
    (reports : List Report) (db' : Db)
    → evaluate_all host config w account db ≡ ok (reports, db')
    → AllSound host config w (host.clock w) (inventory db account) reports
      × SameInventory db db'
      × ((new : List EvaluationRow) × (db'.deletion_evaluations ≡ db.deletion_evaluations ++ new)
          × Records host config w new reports)
unfolding evaluate_all
evaluate_all_sound host config w account db reports db' h =
    let now = host.clock w in
    let run_id = next_id (λ (r : EvaluationRunRow). r.id) db.deletion_evaluation_runs in
    let (out, p, q) =
      >>=-eq-ok
        (evaluate_rows host config w now run_id (inventory db account)
          (start_evaluation host now db))
        (λ done. ok (done.0, evaluation_completed host now done.0 done.1)) h in
    let finished : ◌≡◌ {A = List Report × Db} (out.0, evaluation_completed host now out.0 out.1)
        (reports, db') =
      cc in
    subst
      (λ (o : List Report × Db).
        AllSound host config w now (inventory db account) o.0
        × SameInventory db o.1
        × ((new : List EvaluationRow) × (o.1.deletion_evaluations ≡ db.deletion_evaluations ++ new)
            × Records host config w new o.0))
      finished (completed host config w account db out now run_id p)
