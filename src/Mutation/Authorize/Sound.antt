-- ===== src/Mutation/Authorize/Sound.antt =====
-- The stored-plan checks of `execute_production_plan` in src/mailarchive/remote_mutation.py, as
-- conditions on the plan.
use mailarchive.Base.{
  ℕ, ◌+◌, ◌≤◌, ◌≡◌, refl, sym, ap, ◌∙◌, ◌↔◌, true, false, not, ◌&&◌, ◌||◌, Option, none, some,
  String, List, arith, ◌==◌, ltb, str_eq, opt_eq, opt_eq_iff, eq_iff,
}
use mathlib.Core.Path.{subst}
use mailarchive.Base.Lists.{length, any, find}
use mailarchive.Errors.{
  ok, raise_if, >>=-eq-ok, raise_if-eq-ok, raise_if-ok, ok-injective, not_opted_in,
  not_completed_dry_run, other_account, already_executed, bad_requested_at, plan_expired,
  exceeds_limit, bad_mutation_state, contains_other_account, unresolved_target,
}
use mailarchive.Host.{Host, Instant, Datetime, naive, aware}
use mailarchive.Models.{AppConfig}
use mailarchive.Db
use mailarchive.Db.{
  Db, AccountRow, RunRow, RunStatus, Mode, MutationRow, Status, mode_eq, mode_eq_iff, run_status_eq,
  run_status_eq_iff, status_eq, completed,
}
use mailarchive.Mutation.Query.{run_by_id, mutations_of}
use mailarchive.Mutation.Authorize.{
  plan_ttl, opted_in, completed_plan, executes, check_age, over_limits, not_dry_run, account_id_of,
  is_unresolved, authorize,
}

-- What must hold of a plan for its production execution at `now`.
pub record IsAuthorized {W : Type 0} (host : Host W) (config : AppConfig) (source_id : ℕ)
    (name : String) (now : Instant) (db : Db) (source : RunRow) (rows : List MutationRow)
    : Type 0 where
  pub opted : opted_in config name ≡ true
  pub found : run_by_id db source_id ≡ some source
  pub mode : source.mode ≡ Db.dry_run
  pub status : source.status ≡ completed
  pub filtered : source.account_filter ≡ some name
  pub nonempty : 1 ≤ source.selected_count
  pub unused : any (executes source_id) db.remote_mutation_runs ≡ false
  pub requested : Instant
  pub parsed : host.fromisoformat source.requested_at ≡ some (aware requested)
  pub past : requested ≤ now
  pub recent : now ≤ requested + plan_ttl
  pub run_limit : source.selected_count ≤ source.effective_max_per_run
  pub account_limit : source.selected_count ≤ source.effective_max_per_account
  pub run_config : source.effective_max_per_run ≤ config.remote_deletion.max_per_run
  pub account_config : source.effective_max_per_account ≤ config.remote_deletion.max_per_account
  pub planned : rows ≡ mutations_of db source_id
  pub size : length rows ≡ source.selected_count
  pub dry : any not_dry_run rows ≡ false
  pub account : AccountRow
  pub active : find (λ (a : AccountRow). str_eq a.name name) db.accounts ≡ some account
  pub same_account : any (λ (row : MutationRow). not (row.account_id == account.id)) rows ≡ false
  pub resolved : any (is_unresolved db rows) db.remote_mutations ≡ false

completed_plan-eq-ok :
    (o : Option RunRow) (r : RunRow)
    → completed_plan o ≡ ok r
    → (o ≡ some r) × (r.mode ≡ Db.dry_run) × (r.status ≡ completed)
unfolding completed_plan
completed_plan-eq-ok none r h = absurd (ground arith)
completed_plan-eq-ok (some r') r h =
    let (test, same) =
      raise_if-eq-ok (not (mode_eq r'.mode Db.dry_run && run_status_eq r'.status completed))
        not_completed_dry_run (ok r') h in
    let e = ok-injective same in
    let m : mode_eq r'.mode Db.dry_run ≡ true = ground arith in
    let c : run_status_eq r'.status completed ≡ true = ground arith in
    (
      ap some e,
      ap (λ (x : RunRow). x.mode) (sym e) ∙ (mode_eq_iff r'.mode Db.dry_run).0 m,
      ap (λ (x : RunRow). x.status) (sym e) ∙ (run_status_eq_iff r'.status completed).0 c,
    )

check_age-eq-ok :
    (now : Instant) (o : Option Datetime)
    → check_age now o ≡ ok tt
    → (t : Instant) × (o ≡ some (aware t)) × (t ≤ now) × (now ≤ t + plan_ttl)
unfolding check_age
check_age-eq-ok now none h = absurd (ground arith)
check_age-eq-ok now (some naive) h = absurd (ground arith)
check_age-eq-ok now (some (aware t)) h =
    let (past, k) =
      raise_if-eq-ok (ltb now t) bad_requested_at (raise_if (ltb (t + plan_ttl) now) plan_expired)
        h in
    let recent = raise_if-ok (ltb (t + plan_ttl) now) plan_expired k in
    (t, refl, ground arith, ground arith)

account_id_of-eq-ok :
    (o : Option AccountRow) (id : ℕ)
    → account_id_of o ≡ ok id
    → (a : AccountRow) × (o ≡ some a) × (a.id ≡ id)
unfolding account_id_of
account_id_of-eq-ok none id h = absurd (ground arith)
account_id_of-eq-ok (some a) id h = (a, refl, ok-injective h)

pub authorize-IsAuthorized :
    {W : Type 0} (host : Host W) (config : AppConfig) (source_id : ℕ) (name : String)
    (now : Instant) (db : Db) (source : RunRow) (rows : List MutationRow)
    → authorize host config source_id name now db ≡ ok (source, rows)
    → IsAuthorized host config source_id name now db source rows
unfolding authorize over_limits
authorize-IsAuthorized host config source_id name now db source rows h =
    let (opted, h) = raise_if-eq-ok (not (opted_in config name)) not_opted_in _ h in
    let (s, plan, h) = >>=-eq-ok (completed_plan (run_by_id db source_id)) _ h in
    let (filtered, h) =
      raise_if-eq-ok (not (opt_eq str_eq s.account_filter (some name)) || ltb s.selected_count 1)
        other_account _ h in
    let (unused, h) =
      raise_if-eq-ok (any (executes source_id) db.remote_mutation_runs) already_executed _ h in
    let (_, age, h) = >>=-eq-ok (check_age now (host.fromisoformat s.requested_at)) _ h in
    let (over, h) = raise_if-eq-ok (over_limits config s) exceeds_limit _ h in
    let (state, h) =
      raise_if-eq-ok
        (not (length (mutations_of db source_id) == s.selected_count)
          || any not_dry_run (mutations_of db source_id))
        bad_mutation_state _ h in
    let (id, active, h) =
      >>=-eq-ok (account_id_of (find (λ (a : AccountRow). str_eq a.name name) db.accounts)) _ h in
    let (same, h) =
      raise_if-eq-ok
        (any (λ (row : MutationRow). not (row.account_id == id)) (mutations_of db source_id))
        contains_other_account _ h in
    let (resolved, h) =
      raise_if-eq-ok (any (is_unresolved db (mutations_of db source_id)) db.remote_mutations)
        unresolved_target _ h in
    let e : ◌≡◌ {A = RunRow × List MutationRow} (s, mutations_of db source_id) (source, rows) =
      ok-injective h in
    let (found, mode, status) = completed_plan-eq-ok _ s plan in
    let (t, parsed, past, recent) = check_age-eq-ok now _ age in
    let (a, account, is) = account_id_of-eq-ok _ id active in
    subst
      (λ (o : RunRow × List MutationRow). IsAuthorized host config source_id name now db o.0 o.1) e
      (record {
        opted = ground (arith, opted);
        found = found;
        mode = mode;
        status = status;
        filtered =
            (opt_eq_iff str_eq eq_iff s.account_filter (some name)).0 (ground (arith, filtered));
        nonempty = ground (arith, filtered);
        unused = unused;
        requested = t;
        parsed = parsed;
        past = past;
        recent = recent;
        run_limit = ground (arith, over);
        account_limit = ground (arith, over);
        run_config = ground (arith, over);
        account_config = ground (arith, over);
        planned = refl;
        size = ground (arith, state);
        dry = ground (arith, state);
        account = a;
        active = account;
        same_account = rw is same;
        resolved = resolved;
      })

within_limits :
    (config : AppConfig) (source : RunRow)
    → source.selected_count ≤ source.effective_max_per_run
    → source.selected_count ≤ source.effective_max_per_account
    → source.effective_max_per_run ≤ config.remote_deletion.max_per_run
    → source.effective_max_per_account ≤ config.remote_deletion.max_per_account
    → over_limits config source ≡ false
unfolding over_limits
within_limits config source a b c d = ground arith

pub IsAuthorized-authorize :
    {W : Type 0} (host : Host W) (config : AppConfig) (source_id : ℕ) (name : String)
    (now : Instant) (db : Db) (source : RunRow) (rows : List MutationRow)
    → IsAuthorized host config source_id name now db source rows
    → authorize host config source_id name now db ≡ ok (source, rows)
unfolding authorize completed_plan check_age account_id_of
IsAuthorized-authorize host config source_id name now db source rows a =
    let filter = (opt_eq_iff str_eq eq_iff source.account_filter (some name)).1 a.filtered in
    let some_selected : ltb source.selected_count 1 ≡ false = ground (arith, a.nonempty) in
    let past : ltb now a.requested ≡ false = ground (arith, a.past) in
    let recent : ltb (a.requested + plan_ttl) now ≡ false = ground (arith, a.recent) in
    let within =
      within_limits config source a.run_limit a.account_limit a.run_config a.account_config in
    let planned = sym a.planned in
    let size : length rows == source.selected_count ≡ true = ground (arith, a.size) in
    let mode = (mode_eq_iff source.mode Db.dry_run).1 a.mode in
    let status = (run_status_eq_iff source.status completed).1 a.status in
    rw (
      a.opted, a.found, mode, status, filter, some_selected, a.unused, a.parsed, past, recent,
      within, planned, size, a.dry, a.active, a.same_account, a.resolved,
    )

-- The stored-plan checks pass exactly where the account is configured, enabled and opted in; the
-- source run is a completed dry run for this account with at least one target, at most an hour
-- old, not dated in the future, and never executed before; its size is within its own limits, and
-- those within today's configuration; its rows are as many as it claims, all dry-run rows of the
-- account's local id; and none of their targets has a production mutation whose outcome is open.
pub authorize_iff :
    {W : Type 0} (host : Host W) (config : AppConfig) (source_id : ℕ) (name : String)
    (now : Instant) (db : Db) (source : RunRow) (rows : List MutationRow)
    → (authorize host config source_id name now db ≡ ok (source, rows))
      ↔ IsAuthorized host config source_id name now db source rows
authorize_iff host config source_id name now db source rows = (
  authorize-IsAuthorized host config source_id name now db source rows,
  IsAuthorized-authorize host config source_id name now db source rows,
)
