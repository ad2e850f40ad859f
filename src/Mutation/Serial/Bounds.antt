-- ===== src/Mutation/Serial/Bounds.antt =====
-- The rounds and the provider calls of `_execute_serial` in src/mailarchive/remote_mutation.py.
use mailarchive.Base.{
  ℕ, zero, suc, ◌+◌, ◌≤◌, ◌<◌, ◌≡◌, refl, ap, Bool, true, false, Option, none, some, String, arith,
  ==_self,
}
use mathlib.Core.Path.{subst}
use mailarchive.Base.Lists.{find, length, count}
use mailarchive.Base.Rows.{count-update_where-le, count-update_where-lt}
use mailarchive.Errors.{Outcome, ok, raised, ◌>>=◌, >>=-eq-ok}
use mailarchive.Host.{Host}
use mailarchive.Models.{AppConfig}
use mailarchive.Db.{Db, MutationRow, Status, succeeded}
use mailarchive.Retention.Report.{evaluate_all}
use mailarchive.Retention.Report.Sound.{evaluate_all_sound}
use mailarchive.Mutation.Target.{DeletionTarget}
use mailarchive.Mutation.Result.{MutationResult, normalize_result, normalize_result-IsFinished}
use mailarchive.Mutation.Query.{planned_target, report_for}
use mailarchive.Mutation.Engine.{
  Sys, Adapter, commit, still_current, mark_started, call_provider, record_outcome, result_of,
  internal_code_of, current_in, write_outcome, outcome_row,
}
use mailarchive.Mutation.Serial.{
  Round, returned, thrown, again, attempt, after_outcome, unless_stale, with_target, round_of,
  round, next_planned, execute_serial, execute_serial-keeps, state_of, after_round, is_planned_in,
}
use mailarchive.Mutation.Serial.Rows.{
  Ends, has_id, mark_started-mutations, halt_stale-mutations, outcome_row-Ends,
  write_outcome-mutations, complete_run-mutations,
}
use mailarchive.Mutation.Serial.Crash.{calls, finished_status}

-- The mutations of a run that still wait.
abbrev pub waiting : ℕ → Db → ℕ
waiting run_id db = count (is_planned_in run_id) db.remote_mutations

abbrev pub call_count : {W : Type 0} → Sys W → ℕ
call_count s = length (calls s.trace)

Ends-planned :
    (run_id : ℕ) (f : MutationRow → MutationRow)
    → Ends f
    → (m : MutationRow) → is_planned_in run_id (f m) ≡ false
unfolding is_planned_in
Ends-planned run_id f e m = ground (arith, e.ends m)

module _ {W : Type 0} (host : Host W) (config : AppConfig) (adapter : Adapter W) (run_id : ℕ) where
  -- A step makes no call and lets nothing wait again.
  record Quiet (s s' : Sys W) : Type 0 where
    same_calls : call_count s' ≡ call_count s
    no_more : waiting run_id s'.db ≤ waiting run_id s.db

  -- A round spends a waiting mutation for its call, and for the round after it.
  record Progress (s : Sys W) (r : Round W) : Type 0 where
    budget :
        call_count (state_of host config adapter run_id r)
          + waiting run_id (state_of host config adapter run_id r).db
        ≤ call_count s + waiting run_id s.db
    shrinks : (s' : Sys W) → r ≡ again s' → waiting run_id s'.db < waiting run_id s.db

  Quiet-Progress-returned : (s s' : Sys W) → Quiet s s' → Progress s (returned s')
  Quiet-Progress-returned s s' q = record { budget = omega arith; shrinks = λ t e. cc }

  record_outcome-Quiet :
      (id : ℕ) (target : DeletionTarget) (result : Option MutationResult) (s : Sys W)
      (out : Status × Sys W)
      → record_outcome host run_id id target result s ≡ ok out
      → Quiet s out.1
  unfolding record_outcome commit
  record_outcome-Quiet id target result s out h =
      let (v, p, q) =
        >>=-eq-ok (normalize_result (result_of host result) (internal_code_of host result))
          (λ v. ok (
            v.0,
            commit host
                (write_outcome host run_id id target (result_of host result).confirmed_absent v.0
                  v.1 v.2 s.world s.db)
                s,
          ))
          h in
      let db =
        write_outcome host run_id id target (result_of host result).confirmed_absent v.0 v.1 v.2
          s.world s.db in
      let e : ◌≡◌ {A = Status × Sys W} (v.0, commit host db s) out = cc in
      let status = finished_status host s.db v (normalize_result-IsFinished _ _ v p) in
      let f = outcome_row host v.0 v.1 v.2 (host.isoformat (host.clock s.world)) in
      subst (λ (o : Status × Sys W). Quiet s o.1) e
        (record {
          same_calls = refl;
          no_more = rw (write_outcome-mutations host run_id id target _ v.0 v.1 v.2 s.world s.db) (
              count-update_where-le (is_planned_in run_id) (has_id id) f s.db.remote_mutations
                (Ends-planned run_id f (outcome_row-Ends host v.0 v.1 v.2 _ status)));
        })

  after_outcome-Progress :
      (s called : Sys W) (r : Outcome (Status × Sys W))
      → call_count called ≡ call_count s + 1
      → waiting run_id called.db < waiting run_id s.db
      → ((out : Status × Sys W) → r ≡ ok out → Quiet called out.1)
      → Progress s (after_outcome host config adapter run_id called r)
  unfolding after_outcome
  after_outcome-Progress s called (raised e) p q k = record {
    budget = omega arith;
    shrinks = λ t e. cc;
  }
  after_outcome-Progress s called (ok (succeeded, s')) p q k =
      let quiet = k (succeeded, s') refl in
      record { budget = omega arith; shrinks = λ t e. ground (arith, quiet.no_more) }
  after_outcome-Progress s called (ok (status, s')) p q k =
      let quiet = k (status, s') refl in record { budget = omega arith; shrinks = λ t e. cc }

  attempt-Progress :
      (m : MutationRow) (target : DeletionTarget) (s : Sys W)
      → find (is_planned_in run_id) s.db.remote_mutations ≡ some m
      → Progress s (attempt host config adapter run_id m target s)
  unfolding attempt commit call_provider
  attempt-Progress m target s found =
      let (f, ends, starts, rows) = mark_started-mutations host run_id m.id target s.world s.db in
      let marked = commit host (mark_started host run_id m.id target s.world s.db) s in
      let out = call_provider host adapter m.id target marked in
      after_outcome-Progress s out.1 (record_outcome host run_id m.id target out.0 out.1)
        (omega arith)
        (rw rows (
          count-update_where-lt (is_planned_in run_id) (has_id m.id) f s.db.remote_mutations m
            (Ends-planned run_id f ends) found (==_self m.id)))
        (λ o e. record_outcome-Quiet m.id target out.0 out.1 o e)

  still_current-Same :
      (target : DeletionTarget) (fp : String) (s : Sys W) (out : Bool × Sys W)
      → still_current host config target fp s ≡ ok out
      → (out.1.db.remote_mutations ≡ s.db.remote_mutations) × (call_count out.1 ≡ call_count s)
  unfolding still_current commit
  still_current-Same target fp s out h =
      let (fresh, p, q) =
        >>=-eq-ok (evaluate_all host config s.world none s.db)
          (λ fresh.
            current_in host fresh.1 target fp (report_for target.remote_message_id fresh.0)
            >>= λ current. ok (current, commit host fresh.1 s))
          h in
      let (current, p', q') =
        >>=-eq-ok (current_in host fresh.1 target fp (report_for target.remote_message_id fresh.0))
          (λ current. ok (current, commit host fresh.1 s)) q in
      let (sound, same, grown) =
        evaluate_all_sound host config s.world none s.db fresh.0 fresh.1 p in
      let e : ◌≡◌ {A = Bool × Sys W} (current, commit host fresh.1 s) out = cc in
      subst
        (λ (o : Bool × Sys W).
          (o.1.db.remote_mutations ≡ s.db.remote_mutations) × (call_count o.1 ≡ call_count s))
        e (same.remote_mutations, refl)

  unless_stale-Progress :
      (m : MutationRow) (target : DeletionTarget) (s : Sys W) (r : Outcome (Bool × Sys W))
      → find (is_planned_in run_id) s.db.remote_mutations ≡ some m
      → ((out : Bool × Sys W)
          → r ≡ ok out
          → (out.1.db.remote_mutations ≡ s.db.remote_mutations) × (call_count out.1 ≡ call_count s))
      → Progress s (unless_stale host config adapter run_id m target s r)
  unfolding unless_stale commit
  unless_stale-Progress m target s (raised e) found k = record {
    budget = omega arith;
    shrinks = λ t e. cc;
  }
  unless_stale-Progress m target s (ok (true, s')) found k =
      let (rows, same) = k (true, s') refl in
      let next = attempt-Progress m target s' (rw rows found) in
      let e = ap (λ ms. count (is_planned_in run_id) ms) rows in
      record {
        budget = omega (arith, next.budget, e, same);
        shrinks = λ t h. omega (arith, next.shrinks t h, e);
      }
  unless_stale-Progress m target s (ok (false, s')) found k =
      let (rows, same) = k (false, s') refl in
      let (f, ends, new) = halt_stale-mutations host run_id m.id target s'.world s'.db in
      let e = ap (λ ms. count (is_planned_in run_id) ms) rows in
      let less =
        count-update_where-le (is_planned_in run_id) (has_id m.id) f s'.db.remote_mutations
          (Ends-planned run_id f ends) in
      Quiet-Progress-returned s _
        (record { same_calls = same; no_more = rw new (omega (arith, less, e)) })

  with_target-Progress :
      (m : MutationRow) (s : Sys W) (o : Outcome DeletionTarget)
      → find (is_planned_in run_id) s.db.remote_mutations ≡ some m
      → Progress s (with_target host config adapter run_id m s o)
  unfolding with_target
  with_target-Progress m s (raised e) found = record { budget = omega arith; shrinks = λ t e. cc }
  with_target-Progress m s (ok target) found =
      unless_stale-Progress m target s
        (still_current host config target m.target_fingerprint_sha256 s) found
        (λ out e. still_current-Same target m.target_fingerprint_sha256 s out e)

  round_of-Progress :
      (s : Sys W) (o : Option MutationRow)
      → find (is_planned_in run_id) s.db.remote_mutations ≡ o
      → Progress s (round_of host config adapter run_id s o)
  unfolding round_of commit
  round_of-Progress s none found =
      Quiet-Progress-returned s _
        (record { same_calls = refl; no_more = rw complete_run-mutations (omega arith) })
  round_of-Progress s (some m) found = with_target-Progress m s (planned_target s.db m.id) found

  round-Progress : (s : Sys W) → Progress s (round host config adapter run_id s)
  unfolding round next_planned
  round-Progress s = round_of-Progress s (next_planned run_id s.db) refl

  -- A loop of more rounds than the run has waiting mutations ends: every round but the last spends
  -- one. So the loop terminates, with the number of planned mutations plus one as its fuel.
  pub execute_serial_terminates :
      (fuel : ℕ) (s : Sys W)
      → waiting run_id s.db < fuel
      → (out : Outcome (Unit {0}) × Sys W) × (execute_serial host config adapter run_id fuel s
          ≡ some out)
  unfolding execute_serial after_round
  execute_serial_terminates zero s h = absurd (omega arith)
  execute_serial_terminates (suc fuel) s h =
      ending (round host config adapter run_id s)
        (λ s' less. execute_serial_terminates fuel s' (omega (arith, less, h))) refl
    where
      ending :
          (r : Round W)
          → ((s' : Sys W)
              → waiting run_id s'.db < waiting run_id s.db
              → (out : Outcome (Unit {0}) × Sys W) × (execute_serial host config adapter run_id fuel
                    s'
                  ≡ some out))
          → round host config adapter run_id s ≡ r
          → (out : Outcome (Unit {0}) × Sys W) × (after_round host config adapter run_id r
                (execute_serial host config adapter run_id fuel)
              ≡ some out)
      ending (returned s') k e = ((ok tt, s'), refl)
      ending (thrown error s') k e = ((raised error, s'), refl)
      ending (again s') k e = k s' ((round-Progress s).shrinks s' e)

  -- However a loop ends, and whatever was called before it, it calls the provider at most once for
  -- each of the mutations of its run that waited when it began.
  pub execute_serial_calls_le :
      (fuel : ℕ) (s : Sys W) (out : Outcome (Unit {0}) × Sys W)
      → execute_serial host config adapter run_id fuel s ≡ some out
      → call_count out.1 ≤ call_count s + waiting run_id s.db
  execute_serial_calls_le fuel s out h =
      let kept =
        execute_serial-keeps host config adapter run_id
          (λ t. call_count t + waiting run_id t.db ≤ call_count s + waiting run_id s.db)
          (λ t le. let p = round-Progress t in omega (arith, p.budget, le)) fuel s out (omega arith)
          h in
      omega (arith, kept)
