-- ===== src/Mutation/Plan/Bounds.antt =====
-- The limits and the rows of a plan of `plan_dry_run` in src/mailarchive/remote_mutation.py.
use mailarchive.Base.{
  ℕ, ◌+◌, ◌≤◌, ◌≡◌, refl, sym, ap, ◌∙◌, Bool, true, false, inl, inr, Option, none, some, String,
  List, [], ◌∷◌, ◌++◌, arith, ◌==◌, ==_iff, leb, Bool-cases, map,
}
use mathlib.Core.Path.{subst}
use mathlib.Core.List.{append-nil, append_assoc}
use mailarchive.Base.Lists.{length, length-append, count, All}
use mailarchive.Errors.{Outcome, ok, raised, >>=-eq-ok, ok-injective}
use mailarchive.Host.{Host}
use mailarchive.Models.{AppConfig}
use mailarchive.Db.{Db, MutationRow, next_id, insert_audit_event, Status}
use mailarchive.Retention.Report.{Report, evaluate_all}
use mailarchive.Retention.Report.Sound.{SameInventory, evaluate_all_sound}
use mailarchive.Mutation.Target.{DeletionTarget, target_of-eq-ok}
use mailarchive.Mutation.Query.{LinkedRow, rows_in, target_of_row, report_for}
use mailarchive.Mutation.Plan.{
  Selection, consider, select, nothing_selected, limit_refused, run_limit, PlanSummary, plan_row,
  evaluation_of, insert_planned, eligible_reports, selection_of, write_plan, plan_after,
  plan_result, plan_dry_run,
}

abbrev pub of_account : ℕ → LinkedRow → Bool
of_account a row = a == row.remote.account_id

pub count-append {ℓ} :
    {A : Type ℓ} (p : A → Bool) (xs ys : List A) → count p (xs ++ ys) ≡ count p xs + count p ys
count-append p [] ys = omega arith
count-append p (x ∷ xs) ys = ground (arith, count-append p xs ys)

-- The limits hold of what is selected, and `per_account` counts it.
pub record IsBounded (max_run max_account : ℕ) (seen : ℕ) (s : Selection) : Type 0 where
  pub run : length s.selected ≤ max_run
  pub account : (a : ℕ) → s.per_account a ≤ max_account
  pub counted : (a : ℕ) → s.per_account a ≡ count (of_account a) s.selected
  pub all_seen : length s.selected + s.skipped_account + s.skipped_global ≡ seen

consider-IsBounded :
    (max_run max_account seen : ℕ) (row : LinkedRow) (s : Selection)
    → IsBounded max_run max_account seen s
    → IsBounded max_run max_account (seen + 1) (consider max_run max_account row s)
unfolding consider
consider-IsBounded max_run max_account seen row s b =
    elim (Bool-cases (leb max_account (s.per_account row.remote.account_id))) [
      | inl full ↦ rw full (record {
        run = b.run;
        account = b.account;
        counted = b.counted;
        all_seen = omega (arith, b.all_seen);
      })
      | inr room ↦ elim (Bool-cases (leb max_run (length s.selected))) [
        | inl full ↦
            rw (room, full)
              (record {
                run = b.run;
                account = b.account;
                counted = b.counted;
                all_seen = omega (arith, b.all_seen);
              })
        | inr free ↦
            rw (room, free)
              (record {
                run = ground (arith, length-append s.selected (row ∷ []));
                account = λ a. ground (arith, b.account a, ==_iff a row.remote.account_id);
                counted = λ a.
                    ground (arith, b.counted a, count-append (of_account a) s.selected (row ∷ []));
                all_seen = ground (arith, b.all_seen, length-append s.selected (row ∷ []));
              })
      ]
    ]

pub select-IsBounded :
    (max_run max_account seen : ℕ) (rows : List LinkedRow) (s : Selection)
    → IsBounded max_run max_account seen s
    → IsBounded max_run max_account (length rows + seen) (select max_run max_account rows s)
unfolding select
select-IsBounded max_run max_account seen [] s b =
    subst (λ n. IsBounded max_run max_account n s) (omega arith) b
select-IsBounded max_run max_account seen (row ∷ rows) s b =
    subst (λ n. IsBounded max_run max_account n (select max_run max_account (row ∷ rows) s))
      (omega arith)
      (select-IsBounded max_run max_account (seen + 1) rows (consider max_run max_account row s)
        (consider-IsBounded max_run max_account seen row s b))

-- A row of a plan: bound to its run, for no provider to carry out.
pub record IsPlanned (run_id : ℕ) (m : MutationRow) : Type 0 where
  pub run : m.mutation_run_id ≡ run_id
  pub dry : m.is_dry_run ≡ true
  pub status : m.status ≡ Status.dry_run
  pub unstarted : m.started_at ≡ none
  pub no_source : m.source_plan_mutation_id ≡ none

abbrev pub mutation_of_account : ℕ → MutationRow → Bool
mutation_of_account a m = a == m.account_id

-- The rows that a plan adds, for the rows it selected.
pub record Plans (run_id : ℕ) (rows : List LinkedRow) (table table' : List MutationRow)
    : Type 0 where
  pub new : List MutationRow
  pub added : table' ≡ table ++ new
  pub planned : All (IsPlanned run_id) new
  pub size : length new ≡ length rows
  pub same_accounts : (a : ℕ) → count (mutation_of_account a) new ≡ count (of_account a) rows

target_of_row-account :
    (row : LinkedRow) (t : DeletionTarget)
    → target_of_row row ≡ ok t
    → t.account_id ≡ row.remote.account_id
unfolding target_of_row
target_of_row-account row t h =
    (target_of-eq-ok row.remote.id row.canonical.id row.remote.account_id row.account_name
      row.remote.provider_kind row.canonical.sha256 row.remote.identity t h).2

same_counts :
    (a : ℕ) (m : MutationRow) (row : LinkedRow) (new : List MutationRow) (rows : List LinkedRow)
    → m.account_id ≡ row.remote.account_id
    → count (mutation_of_account a) new ≡ count (of_account a) rows
    → count (mutation_of_account a) (m ∷ new) ≡ count (of_account a) (row ∷ rows)
same_counts a m row new rows same counts = ground arith

insert_planned-Plans :
    {W : Type 0} (host : Host W) (run_id : ℕ) (now : String) (reports : List Report)
    (rows : List LinkedRow) (table table' : List MutationRow)
    → insert_planned host run_id now reports rows table ≡ ok table'
    → Plans run_id rows table table'
unfolding insert_planned plan_row
insert_planned-Plans host run_id now reports [] table table' h =
    let ok-table : table' ≡ table = cc in
    record {
      new = [];
      added = ok-table ∙ sym (append-nil table);
      planned = tt;
      size = refl;
      same_accounts = λ a. refl;
    }
insert_planned-Plans host run_id now reports (row ∷ rows) table table' h =
    let (t, p, q) = >>=-eq-ok (target_of_row row) _ h in
    let (r, p', q') = >>=-eq-ok (evaluation_of host (report_for t.remote_message_id reports)) _ q in
    let id = next_id (λ (m : MutationRow). m.id) table in
    let first = plan_row host id run_id now r t in
    let rest = insert_planned-Plans host run_id now reports rows (table ++ first ∷ []) table' q' in
    let same = target_of_row-account row t p in
    record {
      new = first ∷ rest.new;
      added = rest.added ∙ append_assoc table (first ∷ []) rest.new;
      planned = (
        record { run = refl; dry = refl; status = refl; unstarted = refl; no_source = refl },
        rest.planned,
      );
      size = omega (arith, rest.size);
      same_accounts = λ a. same_counts a first row rest.new rows same (rest.same_accounts a);
    }

-- What a plan that succeeds leaves.
pub record IsPlan (config : AppConfig) (summary : PlanSummary) (db db' : Db) : Type 0 where
  pub new : List MutationRow
  pub added : db'.remote_mutations ≡ db.remote_mutations ++ new
  pub planned : All (IsPlanned summary.run_id) new
  pub size : length new ≡ summary.selected
  pub within_run : summary.selected ≤ config.remote_deletion.max_per_run
  pub within_account :
      (a : ℕ) → count (mutation_of_account a) new ≤ config.remote_deletion.max_per_account
  pub still_present : db'.remote_messages ≡ db.remote_messages

limit_within :
    (max_run : ℕ) (limit : Option ℕ) (rows : List LinkedRow)
    → limit_refused max_run limit ≡ false
    → length rows ≤ run_limit max_run limit
    → length rows ≤ max_run
unfolding limit_refused run_limit
limit_within max_run none rows fits h = h
limit_within max_run (some limit) rows fits h = ground arith

write_plan-IsPlan :
    {W : Type 0} (host : Host W) (config : AppConfig) (account : Option String) (limit : Option ℕ)
    (reports : List Report) (w : W) (db : Db) (summary : PlanSummary) (db' : Db)
    → limit_refused config.remote_deletion.max_per_run limit ≡ false
    → write_plan host config account limit reports w db ≡ ok (summary, db')
    → IsPlan config summary db db'
unfolding write_plan insert_audit_event selection_of select
write_plan-IsPlan host config account limit reports w db summary db' fits h =
    let reports_of =
      rows_in db (map (λ (r : Report). r.remote_message_id) (eligible_reports host reports)) in
    let b =
      select-IsBounded (run_limit config.remote_deletion.max_per_run limit)
        config.remote_deletion.max_per_account 0 reports_of nothing_selected
        (record {
          run = omega arith;
          account = λ a. omega arith;
          counted = λ a. refl;
          all_seen = refl;
        }) in
    let s = selection_of host config limit reports db in
    let (table, p, q) =
      >>=-eq-ok (insert_planned host _ _ reports s.selected db.remote_mutations) _ h in
    let plans = insert_planned-Plans host _ _ reports s.selected db.remote_mutations table p in
    subst (λ (o : PlanSummary × Db). IsPlan config o.0 db o.1) (ok-injective q)
      (record {
        new = plans.new;
        added = plans.added;
        planned = plans.planned;
        size = plans.size;
        within_run = limit_within config.remote_deletion.max_per_run limit s.selected fits b.run;
        within_account = λ a. omega (arith, plans.same_accounts a, b.counted a, b.account a);
        still_present = refl;
      })

plan_result-IsPlan :
    {W : Type 0} (host : Host W) (config : AppConfig) (before db : Db)
    (o : Outcome (PlanSummary × Db)) (summary : PlanSummary) (db' : Db)
    → ((made : PlanSummary) (left : Db) → o ≡ ok (made, left) → IsPlan config made before left)
    → plan_result host db o ≡ (ok summary, db')
    → IsPlan config summary before db'
unfolding plan_result
plan_result-IsPlan host config before db (raised e) summary db' k h = absurd (ground arith)
plan_result-IsPlan host config before db (ok (made, left)) summary db' k h =
    subst (λ o. IsPlan config summary before o) (ap (λ (o : Outcome PlanSummary × Db). o.1) h)
      (subst (λ o. IsPlan config o before left)
        (ok-injective (ap (λ (o : Outcome PlanSummary × Db). o.0) h)) (k made left refl))

plan_after-IsPlan :
    {W : Type 0} (host : Host W) (config : AppConfig) (account : Option String) (limit : Option ℕ)
    (w : W) (db : Db) (r : Outcome (List Report × Db)) (summary : PlanSummary) (db' : Db)
    → ((reports : List Report) (evaluated : Db)
        → r ≡ ok (reports, evaluated)
        → SameInventory db evaluated)
    → limit_refused config.remote_deletion.max_per_run limit ≡ false
    → plan_after host config account limit w db r ≡ (ok summary, db')
    → IsPlan config summary db db'
unfolding plan_after
plan_after-IsPlan host config account limit w db (raised e) summary db' k fits h =
    absurd (ground arith)
plan_after-IsPlan host config account limit w db (ok (reports, evaluated)) summary db' k fits h =
    let same = k reports evaluated refl in
    plan_result-IsPlan host config db evaluated
      (write_plan host config account limit reports w evaluated) summary db'
      (λ made left e.
        let p = write_plan-IsPlan host config account limit reports w evaluated made left fits e in
        record {
          new = p.new;
          added = p.added ∙ ap (λ ms. ms ++ p.new) same.remote_mutations;
          planned = p.planned;
          size = p.size;
          within_run = p.within_run;
          within_account = p.within_account;
          still_present = p.still_present ∙ same.remote_messages;
        })
      h

-- A plan that succeeds has at most `max_per_run` targets, at most `max_per_account` of any account,
-- and as many as it reports. It only adds rows to `remote_mutations`: each of its own run, marked
-- as a dry run, never started; and it changes no row of `remote_messages`.
pub plan_dry_run-IsPlan :
    {W : Type 0} (host : Host W) (config : AppConfig) (account : Option String) (limit : Option ℕ)
    (w : W) (db : Db) (summary : PlanSummary) (db' : Db)
    → plan_dry_run host config account limit w db ≡ (ok summary, db')
    → IsPlan config summary db db'
unfolding plan_dry_run
plan_dry_run-IsPlan host config account limit w db summary db' h =
    elim (Bool-cases (limit_refused config.remote_deletion.max_per_run limit)) [
      | inl refused ↦ absurd (ground arith)
      | inr fits ↦
          plan_after-IsPlan host config account limit (host.tick w) db
            (evaluate_all host config w account db) summary db'
            (λ reports evaluated e.
              let (sound, same, records) =
                evaluate_all_sound host config w account db reports evaluated e in
              same)
            fits (rw fits at h)
    ]
