-- ===== src/Mutation/Production/Again.antt =====
-- What a production execution in src/mailarchive/remote_mutation.py leaves for a second one of the
-- same plan.
use mailarchive.Base.{
  ℕ, ◌≡◌, ◌≢◌, refl, ap, ◌∙◌, Bool, true, false, Option, none, some, String, List, [], ◌∷◌, arith,
  ◌==◌, Bool-cases, inl, inr, ==_self,
}
use mathlib.Core.Path.{subst}
use mailarchive.Base.Lists.{any, any-append, length}
use mailarchive.Base.Rows.{update_where}
use mailarchive.Errors.{Outcome, ok, raised, >>=-eq-ok, ok-injective}
use mailarchive.Host.{Host}
use mailarchive.Models.{AppConfig}
use mailarchive.Db.{
  Db, RunRow, RunStatus, MutationRow, Status, insert_audit_event, next_id, status_eq, succeeded,
  halted, completed,
}
use mailarchive.Retention.Report.{evaluate_all}
use mailarchive.Retention.Report.Sound.{evaluate_all_sound}
use mailarchive.Mutation.Target.{DeletionTarget}
use mailarchive.Mutation.Result.{MutationResult, normalize_result}
use mailarchive.Mutation.Query.{planned_target, report_for}
use mailarchive.Mutation.Engine.{
  Sys, Adapter, set_run, set_mutation, end_run, commit, still_current, mark_started, halt_stale,
  halted_event, clear_present, call_provider, record_outcome, result_of, internal_code_of,
  current_in, write_outcome,
}
use mailarchive.Mutation.Serial.{
  attempt, after_outcome, unless_stale, with_target, round_of, round, next_planned, execute_serial,
  execute_serial-keeps, complete_run, state_of,
}
use mailarchive.Mutation.Production.{production_run, write_production, prepare}
use mailarchive.Mutation.Production.Laws.{IsPrepared, Prepares, prepare-Prepares}
use mailarchive.Mutation.Authorize.{authorize, executes}
use mailarchive.Mutation.Authorize.Sound.{authorize-IsAuthorized}

-- Some production run executes this plan.
abbrev pub IsExecuted : ℕ → Db → Type 0
IsExecuted source_id db = any (executes source_id) db.remote_mutation_runs ≡ true

any-update_where :
    (source_id : ℕ) (p : RunRow → Bool) (status : RunStatus) (now : String) (runs : List RunRow)
    → any (executes source_id) (update_where p (end_run status now) runs)
      ≡ any (executes source_id) runs
unfolding executes end_run
any-update_where source_id p status now [] = refl
any-update_where source_id p status now (r ∷ runs) =
    ground (arith, any-update_where source_id p status now runs)

-- An executed plan is refused, whatever the configuration and the time.
executed-refused :
    {W : Type 0} (host : Host W) (config : AppConfig) (source_id : ℕ) (name : String) (now : ℕ)
    (db : Db) (out : RunRow × List MutationRow)
    → IsExecuted source_id db
    → authorize host config source_id name now db ≢ ok out
executed-refused host config source_id name now db (source, rows) h e =
    let a = authorize-IsAuthorized host config source_id name now db source rows e in
    ground (arith, a.unused)

executes-production_run :
    {W : Type 0} (host : Host W) (id source_id size : ℕ) (now name : String) (source : RunRow)
    → executes source_id (production_run host id now name source_id source size) ≡ true
unfolding executes production_run
executes-production_run host id source_id size now name source = ==_self source_id

prepared-IsExecuted :
    {W : Type 0} (host : Host W) (config : AppConfig) (source_id : ℕ) (name : String)
    (factory : Option (Adapter W)) (s : Sys W) (run_id : ℕ) (adapter : Adapter W) (s' : Sys W)
    → IsPrepared host config source_id name factory s run_id adapter s'
    → IsExecuted source_id s'.db
unfolding write_production insert_audit_event
prepared-IsExecuted host config source_id name factory s run_id adapter s' p =
    let id = next_id (λ (r : RunRow). r.id) p.evaluated.remote_mutation_runs in
    let now = host.isoformat (host.clock (host.tick s.world)) in
    let new = production_run host id now name source_id p.source (length p.rows) in
    let mine = executes-production_run host id source_id (length p.rows) now name p.source in
    ap (λ (d : Db). any (executes source_id) d.remote_mutation_runs) p.written
    ∙ any-append (executes source_id) p.evaluated.remote_mutation_runs (new ∷ [])
    ∙ ground (arith, mine)

module _ {W : Type 0} (host : Host W) (source_id : ℕ) where
  write_outcome-IsExecuted :
      (run_id id : ℕ) (target : DeletionTarget) (absent : Bool) (status : Status)
      (summary code : String) (w : W) (db : Db)
      → IsExecuted source_id db
      → IsExecuted source_id (write_outcome host run_id id target absent status summary code w db)
  unfolding write_outcome set_run set_mutation clear_present halted_event insert_audit_event
  write_outcome-IsExecuted run_id id target absent status summary code w db h =
      let ended =
        any-update_where source_id (λ (r : RunRow). r.id == run_id) halted
          (host.isoformat (host.clock w)) db.remote_mutation_runs
        ∙ h in
      elim (Bool-cases (status_eq status succeeded)) [
        | inl fine ↦ elim (Bool-cases absent) [
          | inl gone ↦ rw (fine, gone) h
          | inr kept ↦ rw (fine, kept) h
        ]
        | inr stop ↦ rw stop ended
      ]

  record_outcome-IsExecuted :
      (run_id id : ℕ) (target : DeletionTarget) (result : Option MutationResult) (s : Sys W)
      (out : Status × Sys W)
      → IsExecuted source_id s.db
      → record_outcome host run_id id target result s ≡ ok out
      → IsExecuted source_id out.1.db
  unfolding record_outcome commit
  record_outcome-IsExecuted run_id id target result s out h e =
      let (v, p, q) =
        >>=-eq-ok (normalize_result (result_of host result) (internal_code_of host result)) _ e in
      subst (λ (o : Status × Sys W). IsExecuted source_id o.1.db) (ok-injective q)
        (write_outcome-IsExecuted run_id id target (result_of host result).confirmed_absent v.0 v.1
          v.2 s.world s.db h)

  still_current-IsExecuted :
      (config : AppConfig) (target : DeletionTarget) (fp : String) (s : Sys W) (out : Bool × Sys W)
      → IsExecuted source_id s.db
      → still_current host config target fp s ≡ ok out
      → IsExecuted source_id out.1.db
  unfolding still_current commit
  still_current-IsExecuted config target fp s out h e =
      let (fresh, p, q) = >>=-eq-ok (evaluate_all host config s.world none s.db) _ e in
      let (current, p', q') =
        >>=-eq-ok (current_in host fresh.1 target fp (report_for target.remote_message_id fresh.0))
          _ q in
      let (sound, same, grown) =
        evaluate_all_sound host config s.world none s.db fresh.0 fresh.1 p in
      subst (λ (o : Bool × Sys W). IsExecuted source_id o.1.db) (ok-injective q')
        (ap (any (executes source_id)) same.remote_mutation_runs ∙ h)

  module _ (config : AppConfig) (adapter : Adapter W) (run_id : ℕ) where
    after_outcome-IsExecuted :
        (s : Sys W) (r : Outcome (Status × Sys W))
        → IsExecuted source_id s.db
        → ((out : Status × Sys W) → r ≡ ok out → IsExecuted source_id out.1.db)
        → IsExecuted source_id
            (state_of host config adapter run_id (after_outcome host config adapter run_id s r)).db
    unfolding after_outcome
    after_outcome-IsExecuted s (raised e) h k = h
    after_outcome-IsExecuted s (ok (succeeded, s')) h k = k (succeeded, s') refl
    after_outcome-IsExecuted s (ok (status, s')) h k = k (status, s') refl

    attempt-IsExecuted :
        (m : MutationRow) (target : DeletionTarget) (s : Sys W)
        → IsExecuted source_id s.db
        → IsExecuted source_id
            (state_of host config adapter run_id (attempt host config adapter run_id m target s)).db
    unfolding attempt commit call_provider mark_started set_mutation insert_audit_event
    attempt-IsExecuted m target s h =
        let marked = commit host (mark_started host run_id m.id target s.world s.db) s in
        let out = call_provider host adapter m.id target marked in
        after_outcome-IsExecuted out.1 (record_outcome host run_id m.id target out.0 out.1) h
          (λ o e. record_outcome-IsExecuted run_id m.id target out.0 out.1 o h e)

    unless_stale-IsExecuted :
        (m : MutationRow) (target : DeletionTarget) (s : Sys W) (r : Outcome (Bool × Sys W))
        → IsExecuted source_id s.db
        → ((out : Bool × Sys W) → r ≡ ok out → IsExecuted source_id out.1.db)
        → IsExecuted source_id
            (state_of host config adapter run_id
              (unless_stale host config adapter run_id m target s r)).db
    unfolding unless_stale commit halt_stale halted_event set_run set_mutation insert_audit_event
    unless_stale-IsExecuted m target s (raised e) h k = h
    unless_stale-IsExecuted m target s (ok (true, s')) h k =
        attempt-IsExecuted m target s' (k (true, s') refl)
    unless_stale-IsExecuted m target s (ok (false, s')) h k =
        any-update_where source_id (λ (r : RunRow). r.id == run_id) halted
          (host.isoformat (host.clock s'.world)) s'.db.remote_mutation_runs
        ∙ k (false, s') refl

    with_target-IsExecuted :
        (m : MutationRow) (s : Sys W) (o : Outcome DeletionTarget)
        → IsExecuted source_id s.db
        → IsExecuted source_id
            (state_of host config adapter run_id (with_target host config adapter run_id m s o)).db
    unfolding with_target
    with_target-IsExecuted m s (raised e) h = h
    with_target-IsExecuted m s (ok target) h =
        unless_stale-IsExecuted m target s
          (still_current host config target m.target_fingerprint_sha256 s) h
          (λ out e. still_current-IsExecuted config target m.target_fingerprint_sha256 s out h e)

    round_of-IsExecuted :
        (s : Sys W) (o : Option MutationRow)
        → IsExecuted source_id s.db
        → IsExecuted source_id
            (state_of host config adapter run_id (round_of host config adapter run_id s o)).db
    unfolding round_of commit complete_run set_run insert_audit_event
    round_of-IsExecuted s none h =
        any-update_where source_id (λ (r : RunRow). r.id == run_id) completed
          (host.isoformat (host.clock s.world)) s.db.remote_mutation_runs
        ∙ h
    round_of-IsExecuted s (some m) h = with_target-IsExecuted m s (planned_target s.db m.id) h

    round-IsExecuted :
        (s : Sys W)
        → IsExecuted source_id s.db
        → IsExecuted source_id
            (state_of host config adapter run_id (round host config adapter run_id s)).db
    unfolding round
    round-IsExecuted s h = round_of-IsExecuted s (next_planned run_id s.db) h

-- A plan is executed at most once: after an execution that took it on, however its loop ended, the
-- checks refuse the plan again, for every configuration, account name and time.
pub execute_serial-refused :
    {W : Type 0} (host : Host W) (config later : AppConfig) (source_id run_id fuel now : ℕ)
    (name again_name : String) (factory : Option (Adapter W)) (adapter : Adapter W) (s s' : Sys W)
    (out : Outcome (Unit {0}) × Sys W) (plan : RunRow × List MutationRow)
    → prepare host config source_id name factory s ≡ (ok (run_id, adapter), s')
    → execute_serial host config adapter run_id fuel s' ≡ some out
    → authorize host later source_id again_name now out.1.db ≢ ok plan
unfolding Prepares
execute_serial-refused host config later source_id run_id fuel now name again_name factory adapter s
      s' out plan p e =
    executed-refused host later source_id again_name now out.1.db plan (
      execute_serial-keeps host config adapter run_id (λ t. IsExecuted source_id t.db)
        (round-IsExecuted host source_id config adapter run_id) fuel s' out
        (prepared-IsExecuted host config source_id name factory s run_id adapter s' (
          subst (Prepares host config source_id name factory s) p
            (prepare-Prepares host config source_id name factory s)))
        e)
