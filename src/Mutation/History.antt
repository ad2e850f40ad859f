-- ===== src/Mutation/History.antt =====
-- `remote_mutation_status` of src/mailarchive/remote_mutation.py: the history of runs, with the
-- counts of their mutations. `exists` is whether the database file is there.
pub mod Laws
use mailarchive.Base.{
  ℕ, zero, suc, ◌+◌, Bool, true, false, not, ◌&&◌, ◌||◌, Option, none, some, String, List, [], ◌∷◌,
  ◌==◌, ltb, str_eq, opt_eq, is_none, if◌then◌else◌, map,
}
use mailarchive.Base.Lists.{any, filter, count}
use mailarchive.Base.Sort.{order_by}
use mailarchive.Errors.{
  Outcome, ok, raised, ◌>>=◌, ◌>>◌, raise_if, status_account_unknown, run_missing,
}
use mailarchive.Models.{AppConfig, AccountConfig}
use mailarchive.Db
use mailarchive.Db.{
  Db, RunRow, MutationRow, Status, mode_eq, status_eq, production_execute, started, succeeded,
  failed, unknown,
}
use mailarchive.Mutation.Query.{mutations_of}

-- `REMOTE_MUTATION_STATUS_RUN_LIMIT`
abbrev pub run_limit : ℕ
run_limit = 100

-- The variable `counts`.
pub record Counts : Type 0 where
  pub planned : ℕ
  pub dry_run : ℕ
  pub started : ℕ
  pub succeeded : ℕ
  pub failed : ℕ
  pub unknown : ℕ

pub record RunHistory : Type 0 where
  pub run : RunRow
  pub counts : Counts
  pub reconciliation_required : Bool
  pub mutations : List MutationRow

abbrev pub with_status : Status → MutationRow → Bool
with_status status m = status_eq m.status status

unfoldable pub counts_of : List MutationRow → Counts
counts_of ms = record {
  planned = count (with_status Status.planned) ms;
  dry_run = count (with_status Status.dry_run) ms;
  started = count (with_status Status.started) ms;
  succeeded = count (with_status Status.succeeded) ms;
  failed = count (with_status Status.failed) ms;
  unknown = count (with_status Status.unknown) ms;
}

unfoldable pub history_of : Db → RunRow → RunHistory
unfolding counts_of
history_of db run =
    let ms = mutations_of db run.id in
    let counts = counts_of ms in
    record {
      run = run;
      counts = counts;
      reconciliation_required =
          mode_eq run.mode production_execute && (ltb 0 counts.started || ltb 0 counts.unknown);
      mutations = ms;
    }

-- The clauses `id=?` and `account_filter=?`.
unfoldable pub asked_for : Option ℕ → Option String → RunRow → Bool
asked_for none none run = true
asked_for (some id) none run = run.id == id
asked_for none (some name) run = opt_eq str_eq run.account_filter (some name)
asked_for (some id) (some name) run = run.id == id && opt_eq str_eq run.account_filter (some name)

unfoldable pub first_runs : ℕ → List RunRow → List RunRow
first_runs zero runs = []
first_runs (suc n) [] = []
first_runs (suc n) (run ∷ runs) = run ∷ first_runs n runs

-- `ORDER BY id DESC`, and `LIMIT` where no run is asked for.
unfoldable pub runs_for : Option ℕ → Option String → Db → List RunRow
unfolding asked_for first_runs
runs_for run_id account db =
    let runs =
      order_by (λ (x y : RunRow). ltb y.id x.id)
        (filter (asked_for run_id account) db.remote_mutation_runs) in
    if is_none run_id then first_runs run_limit runs else runs

unfoldable pub is_configured : AppConfig → Option String → Bool
is_configured config none = true
is_configured config (some name) = any (λ (a : AccountConfig). str_eq a.name name) config.accounts

unfoldable pub no_runs : List RunRow → Bool
no_runs [] = true
no_runs (run ∷ runs) = false

unfoldable pub remote_mutation_status :
    AppConfig → Bool → Option ℕ → Option String → Db → Outcome (List RunHistory)
unfolding is_configured no_runs
remote_mutation_status config exists run_id account db = do
  raise_if (not (is_configured config account)) status_account_unknown
  raise_if (not exists && not (is_none run_id)) run_missing
  let runs = if exists then runs_for run_id account db else []
  raise_if (not (is_none run_id) && no_runs runs) run_missing
  ok (map (history_of db) runs)
