-- ===== src/Mutation/Production/Current.antt =====
-- What the loop over the rows of a plan in `execute_production_plan` of
-- src/mailarchive/remote_mutation.py has found of every row when it ends.
use mailarchive.Base.{
  ◌≡◌, refl, ap, ◌∙◌, Bool, true, false, not, ◌&&◌, Option, none, some, String, List, [], ◌∷◌,
  arith, str_eq, eq_iff, if◌then◌else◌,
}
use mailarchive.Base.Lists.{All}
use mailarchive.Errors.{ok, ◌>>=◌, >>=-eq-ok, raise_if-eq-ok, ok-injective, stale_identity}
use mailarchive.Host.{Host}
use mailarchive.Db.{Db, MutationRow}
use mailarchive.Retention.Report.{Report}
use mailarchive.Mutation.Target.{DeletionTarget, fingerprint, str_of}
use mailarchive.Mutation.Query.{LinkedRow, row_of, target_of_row, planned_target, report_for}
use mailarchive.Mutation.Engine.{row_current, maybe_current, current_in}
use mailarchive.Mutation.Authorize.{check_rows}

module _ {W : Type 0} (host : Host W) (db : Db) where
  -- A target whose report is an eligible one for it, whose message is still present on the server
  -- and linked to the same archived message, and whose target, read again from the inventory, has
  -- this fingerprint.
  pub record IsUnchanged (target : DeletionTarget) (fp : String) (found : Option Report)
      : Type 0 where
    pub report : Report
    pub reported : found ≡ some report
    pub eligible : report.eligible ≡ true
    pub row : LinkedRow
    pub linked : row_of db target.remote_message_id target.canonical_message_id ≡ some row
    pub present : row.remote.remote_present ≡ true
    pub same_message : report.remote_message_id ≡ target.remote_message_id
    pub same_canonical : str_of report.canonical_id ≡ target.canonical_message_id
    pub fresh : DeletionTarget
    pub read_again : target_of_row row ≡ ok fresh
    pub same_fingerprint : fingerprint host fresh ≡ fp

  -- The planned target of a row is unchanged, by the fingerprint that was stored with the plan.
  pub record IsCurrent (reports : List Report) (row : MutationRow) : Type 0 where
    pub target : DeletionTarget
    pub planned : planned_target db row.id ≡ ok target
    pub unchanged :
        IsUnchanged target row.target_fingerprint_sha256 (report_for row.remote_message_id reports)

  row_current-IsUnchanged :
      (target : DeletionTarget) (fp : String) (report : Report) (row : LinkedRow)
      → report.eligible ≡ true
      → row_of db target.remote_message_id target.canonical_message_id ≡ some row
      → row_current host target fp report row ≡ ok true
      → IsUnchanged target fp (some report)
  unfolding row_current
  row_current-IsUnchanged target fp report row eligible linked h =
      tested
        (row.remote.remote_present
          && str_eq report.remote_message_id target.remote_message_id
          && str_eq (str_of report.canonical_id) target.canonical_message_id)
        refl h
    where
      tested :
          (b : Bool)
          → (row.remote.remote_present
              && str_eq report.remote_message_id target.remote_message_id
              && str_eq (str_of report.canonical_id) target.canonical_message_id)
            ≡ b
          → (if b
              then (target_of_row row >>= λ fresh. ok (str_eq (fingerprint host fresh) fp))
              else ok false)
            ≡ ok true
          → IsUnchanged target fp (some report)
      tested true e h =
          let (fresh, read, same) =
            >>=-eq-ok (target_of_row row) (λ fresh. ok (str_eq (fingerprint host fresh) fp)) h in
          record {
            report = report;
            reported = refl;
            eligible = eligible;
            row = row;
            linked = linked;
            present = ground arith;
            same_message =
                (eq_iff report.remote_message_id target.remote_message_id).0 (ground arith);
            same_canonical =
                (eq_iff (str_of report.canonical_id) target.canonical_message_id).0 (ground arith);
            fresh = fresh;
            read_again = read;
            same_fingerprint = (eq_iff (fingerprint host fresh) fp).0 (ok-injective same);
          }
      tested false e h = absurd (ground arith)

  current_in-IsUnchanged :
      (target : DeletionTarget) (fp : String) (found : Option Report)
      → current_in host db target fp found ≡ ok true
      → IsUnchanged target fp found
  unfolding current_in maybe_current
  current_in-IsUnchanged target fp none h = absurd (ground arith)
  current_in-IsUnchanged target fp (some report) h =
      by_report report.eligible refl
        (row_of db target.remote_message_id target.canonical_message_id) refl h
    where
      by_report :
          (b : Bool)
          → report.eligible ≡ b
          → (o : Option LinkedRow)
          → row_of db target.remote_message_id target.canonical_message_id ≡ o
          → (if b then maybe_current host target fp report o else ok false) ≡ ok true
          → IsUnchanged target fp (some report)
      by_report true e (some row) q h = row_current-IsUnchanged target fp report row e q h
      by_report true e none q h = absurd (ground arith)
      by_report false e o q h = absurd (ground arith)

  -- A loop over the rows that ends without an exception has found every one of them current.
  pub check_rows-IsCurrent :
      (reports : List Report) (rows : List MutationRow)
      → check_rows host db reports rows ≡ ok tt
      → All (IsCurrent reports) rows
  unfolding check_rows
  check_rows-IsCurrent reports [] h = tt
  check_rows-IsCurrent reports (row ∷ rows) h =
      let (target, planned, h) = >>=-eq-ok (planned_target db row.id) _ h in
      let (current, e, h) =
        >>=-eq-ok
          (current_in host db target row.target_fingerprint_sha256
            (report_for row.remote_message_id reports))
          _ h in
      let (fine, h) = raise_if-eq-ok (not current) stale_identity _ h in
      let yes : current ≡ true = ground arith in
      (
        record {
          target = target;
          planned = planned;
          unchanged =
              current_in-IsUnchanged target row.target_fingerprint_sha256
                (report_for row.remote_message_id reports) (e ∙ ap ok yes);
        },
        check_rows-IsCurrent reports rows h,
      )
