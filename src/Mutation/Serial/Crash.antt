-- ===== src/Mutation/Serial/Crash.antt =====
-- The loop of `_execute_serial` in src/mailarchive/remote_mutation.py, cut off at any point: the
-- trace of its commits and calls.
use mailarchive.Base.{
  ℕ, ◌≡◌, refl, ap, ◌∙◌, Bool, true, false, Option, none, some, String, List, [], ◌∷◌, arith, ◌==◌,
  ==_iff, inl, inr, Bool-cases,
}
use mathlib.Core.Path.{subst}
use mailarchive.Base.Lists.{All, any}
use mailarchive.Base.Rows.{update_where}
use mailarchive.Errors.{Outcome, ok, raised, ◌>>=◌, >>=-eq-ok}
use mailarchive.Host.{Host}
use mailarchive.Models.{AppConfig}
use mailarchive.Db.{Db, MutationRow, Status, status_eq, started, succeeded, failed}
use mailarchive.Retention.Report.{evaluate_all}
use mailarchive.Retention.Report.Sound.{evaluate_all_sound}
use mailarchive.Mutation.Target.{DeletionTarget}
use mailarchive.Mutation.Result.{
  MutationResult, normalize_result, normalize_result-IsFinished, IsFinished, confirmed_absent,
  confirmed_no_mutation, uncertain,
}
use mailarchive.Mutation.Query.{mutation_by_id, planned_target, planned_target-remote, report_for}
use mailarchive.Mutation.Engine.{
  Sys, Adapter, Event, committed, called, commit, still_current, mark_started, halt_stale,
  call_provider, record_outcome, result_of, internal_code_of, current_in, write_outcome,
}
use mailarchive.Mutation.Serial.{
  attempt, after_outcome, unless_stale, with_target, round_of, round, next_planned, execute_serial,
  complete_run, state_of, execute_serial-keeps,
}
use mailarchive.Mutation.Serial.Rows.{
  Ends, waits, waits-update, has_id, next_planned-waits, mark_started-mutations,
  halt_stale-mutations, outcome_row-Ends, write_outcome-mutations, complete_run-mutations,
  mutation_by_id-update, waits-update_self,
}

-- The database that a restart finds: the last one committed.
abbrev pub durable : Db → List Event → Db
durable d0 [] = d0
durable d0 (committed d ∷ trace) = d
durable d0 (called id t ∷ trace) = durable d0 trace

-- The mutations whose `delete` was called, newest first.
abbrev pub calls : List Event → List ℕ
calls [] = []
calls (committed d ∷ trace) = calls trace
calls (called id t ∷ trace) = id ∷ calls trace

-- At each call, the database committed last holds the row of the call as `started`, for the same
-- remote message.
abbrev pub IsLogged : Db → List Event → Type 0
IsLogged d0 [] = Unit
IsLogged d0 (committed d ∷ trace) = IsLogged d0 trace
IsLogged d0 (called id t ∷ trace) =
    ((m : MutationRow) × (mutation_by_id (durable d0 trace) id ≡ some m)
      × (m.status ≡ started)
      × (m.remote_message_id ≡ t.remote_message_id))
    × IsLogged d0 trace

abbrev pub AreDistinct : List ℕ → Type 0
AreDistinct [] = Unit
AreDistinct (id ∷ ids) = (any (λ k. k == id) ids ≡ false) × AreDistinct ids

abbrev Spends : List MutationRow → List MutationRow → Type 0
Spends a b = (id : ℕ) → waits id a ≡ false → waits id b ≡ false

record Inv {W : Type 0} (d0 : Db) (s : Sys W) : Type 0 where
  is_durable : durable d0 s.trace ≡ s.db
  is_logged : IsLogged d0 s.trace
  spent : All (λ id. waits id s.db.remote_mutations ≡ false) (calls s.trace)
  are_distinct : AreDistinct (calls s.trace)

spend_all :
    (a b : List MutationRow) (ids : List ℕ)
    → Spends a b
    → All (λ id. waits id a ≡ false) ids
    → All (λ id. waits id b ≡ false) ids
spend_all a b [] p h = tt
spend_all a b (id ∷ ids) p h = (p id h.0, spend_all a b ids p h.1)

not_called :
    (k : ℕ) (rows : List MutationRow) (ids : List ℕ)
    → All (λ id. waits id rows ≡ false) ids
    → waits k rows ≡ true
    → any (λ id. id == k) ids ≡ false
not_called k rows [] h p = refl
not_called k rows (id ∷ ids) h p = elim (Bool-cases (id == k)) [
  | inl same ↦ let e : id ≡ k = (==_iff id k).0 same in cc (ap (λ n. waits n rows) e, h.0, p)
  | inr other ↦ ground (arith, not_called k rows ids h.1 p)
]

Spends-update :
    (k : ℕ) (f : MutationRow → MutationRow) (rows : List MutationRow)
    → Ends f
    → Spends rows (update_where (has_id k) f rows)
Spends-update k f rows e id h = ground (arith, waits-update id k f rows e)

module _ {W : Type 0} (host : Host W) (d0 : Db) where
  commit-Inv :
      (db : Db) (s : Sys W)
      → Spends s.db.remote_mutations db.remote_mutations
      → Inv d0 s
      → Inv d0 (commit host db s)
  unfolding commit
  commit-Inv db s p h = record {
    is_durable = refl;
    is_logged = h.is_logged;
    spent = spend_all s.db.remote_mutations db.remote_mutations (calls s.trace) p h.spent;
    are_distinct = h.are_distinct;
  }

  call_provider-Inv :
      (adapter : Adapter W) (id : ℕ) (target : DeletionTarget) (s : Sys W) (m : MutationRow)
      → mutation_by_id s.db id ≡ some m
      → m.status ≡ started
      → m.remote_message_id ≡ target.remote_message_id
      → waits id s.db.remote_mutations ≡ false
      → any (λ k. k == id) (calls s.trace) ≡ false
      → Inv d0 s
      → Inv d0 (call_provider host adapter id target s).1
  unfolding call_provider
  call_provider-Inv adapter id target s m found is_started same ended new h = record {
    is_durable = h.is_durable;
    is_logged = ((m, rw h.is_durable found, is_started, same), h.is_logged);
    spent = (ended, h.spent);
    are_distinct = (new, h.are_distinct);
  }

  pub finished_status :
      (v : Status × String × String) → IsFinished v → status_eq v.0 Status.planned ≡ false
  finished_status v (confirmed_absent e p q) = rw e
  finished_status v (confirmed_no_mutation e p q) = rw e
  finished_status v (uncertain e p q) = rw e

  record_outcome-Inv :
      (run_id id : ℕ) (target : DeletionTarget) (result : Option MutationResult) (s : Sys W)
      (out : Status × Sys W)
      → record_outcome host run_id id target result s ≡ ok out
      → Inv d0 s
      → Inv d0 out.1
  unfolding record_outcome
  record_outcome-Inv run_id id target result s out h inv =
      let (v, p, q) =
        >>=-eq-ok (normalize_result (result_of host result) (internal_code_of host result))
          (λ v. ok (
            v.0,
            commit host
                (write_outcome host run_id id target (result_of host result).confirmed_absent v.0
                  v.1 v.2 s.world s.db)
                s,
          ))
          h in
      let db =
        write_outcome host run_id id target (result_of host result).confirmed_absent v.0 v.1 v.2
          s.world s.db in
      let e : ◌≡◌ {A = Status × Sys W} (v.0, commit host db s) out = cc in
      let finished = normalize_result-IsFinished _ _ v p in
      subst (λ (o : Status × Sys W). Inv d0 o.1) e
        (commit-Inv db s
          (rw (write_outcome-mutations host run_id id target _ v.0 v.1 v.2 s.world s.db) (
            Spends-update id _ s.db.remote_mutations
              (outcome_row-Ends host v.0 v.1 v.2 _ (finished_status v finished))))
          inv)

  module _ (config : AppConfig) (adapter : Adapter W) (run_id : ℕ) where
    after_outcome-Inv :
        (s : Sys W) (r : Outcome (Status × Sys W))
        → Inv d0 s
        → ((out : Status × Sys W) → r ≡ ok out → Inv d0 out.1)
        → Inv d0
            (state_of host config adapter run_id (after_outcome host config adapter run_id s r))
    unfolding after_outcome
    after_outcome-Inv s (raised e) h k = h
    after_outcome-Inv s (ok (succeeded, s')) h k = k (succeeded, s') refl
    after_outcome-Inv s (ok (failed, s')) h k = k (failed, s') refl
    after_outcome-Inv s (ok (status, s')) h k = k (status, s') refl

    attempt-Inv :
        (m m' : MutationRow) (target : DeletionTarget) (s : Sys W)
        → mutation_by_id s.db m.id ≡ some m'
        → m'.remote_message_id ≡ target.remote_message_id
        → waits m.id s.db.remote_mutations ≡ true
        → Inv d0 s
        → Inv d0
            (state_of host config adapter run_id (attempt host config adapter run_id m target s))
    unfolding attempt commit
    attempt-Inv m m' target s found same waiting inv =
        let (f, ends, starts, rows) = mark_started-mutations host run_id m.id target s.world s.db in
        let db = mark_started host run_id m.id target s.world s.db in
        let marked = commit host db s in
        let out = call_provider host adapter m.id target marked in
        let marked_inv : Inv d0 marked =
          commit-Inv db s (rw rows (Spends-update m.id f s.db.remote_mutations ends)) inv in
        let called_inv : Inv d0 out.1 =
          call_provider-Inv adapter m.id target marked (f m')
            (mutation_by_id-update s.db db m.id f ends rows m' found) (starts m')
            (ends.keeps_remote m' ∙ same) (waits-update_self s.db db m.id f ends rows)
            (not_called m.id s.db.remote_mutations (calls s.trace) inv.spent waiting) marked_inv in
        after_outcome-Inv out.1 (record_outcome host run_id m.id target out.0 out.1) called_inv
          (λ o e. record_outcome-Inv run_id m.id target out.0 out.1 o e called_inv)

    unless_stale-Inv :
        (m m' : MutationRow) (target : DeletionTarget) (s : Sys W) (r : Outcome (Bool × Sys W))
        → Inv d0 s
        → ((out : Bool × Sys W)
            → r ≡ ok out
            → Inv d0 out.1 × (out.1.db.remote_mutations ≡ s.db.remote_mutations))
        → mutation_by_id s.db m.id ≡ some m'
        → m'.remote_message_id ≡ target.remote_message_id
        → waits m.id s.db.remote_mutations ≡ true
        → Inv d0 (
            state_of host config adapter run_id
              (unless_stale host config adapter run_id m target s r))
    unfolding unless_stale
    unless_stale-Inv m m' target s (raised e) inv fresh found same waiting = inv
    unless_stale-Inv m m' target s (ok (true, s')) inv fresh found same waiting =
        let (inv', rows) = fresh (true, s') refl in
        attempt-Inv m m' target s' (unfold mutation_by_id in rw rows found) same (rw rows waiting)
          inv'
    unless_stale-Inv m m' target s (ok (false, s')) inv fresh found same waiting =
        let (f, ends, rows) = halt_stale-mutations host run_id m.id target s'.world s'.db in
        commit-Inv (halt_stale host run_id m.id target s'.world s'.db) s'
          (rw rows (Spends-update m.id f s'.db.remote_mutations ends)) (fresh (false, s') refl).0

    still_current-Inv :
        (target : DeletionTarget) (fp : String) (s : Sys W) (out : Bool × Sys W)
        → still_current host config target fp s ≡ ok out
        → Inv d0 s
        → Inv d0 out.1 × (out.1.db.remote_mutations ≡ s.db.remote_mutations)
    unfolding still_current
    still_current-Inv target fp s out h inv =
        let (fresh, p, q) =
          >>=-eq-ok (evaluate_all host config s.world none s.db)
            (λ fresh.
              current_in host fresh.1 target fp (report_for target.remote_message_id fresh.0)
              >>= λ current. ok (current, commit host fresh.1 s))
            h in
        let (current, p', q') =
          >>=-eq-ok
            (current_in host fresh.1 target fp (report_for target.remote_message_id fresh.0))
            (λ current. ok (current, commit host fresh.1 s)) q in
        let (sound, same, grown) =
          evaluate_all_sound host config s.world none s.db fresh.0 fresh.1 p in
        let e : ◌≡◌ {A = Bool × Sys W} (current, commit host fresh.1 s) out = cc in
        subst (λ (o : Bool × Sys W). Inv d0 o.1 × (o.1.db.remote_mutations ≡ s.db.remote_mutations))
          e
          (
            commit-Inv fresh.1 s (λ id. rw same.remote_mutations (λ h. h)) inv,
            unfold commit in same.remote_mutations,
          )

    with_target-Inv :
        (m : MutationRow) (s : Sys W) (o : Outcome DeletionTarget)
        → planned_target s.db m.id ≡ o
        → waits m.id s.db.remote_mutations ≡ true
        → Inv d0 s
        → Inv d0
            (state_of host config adapter run_id (with_target host config adapter run_id m s o))
    unfolding with_target
    with_target-Inv m s (raised e) h waiting inv = inv
    with_target-Inv m s (ok target) h waiting inv =
        let (m', found, same) = planned_target-remote s.db m.id target h in
        unless_stale-Inv m m' target s
          (still_current host config target m.target_fingerprint_sha256 s) inv
          (λ out e. still_current-Inv target m.target_fingerprint_sha256 s out e inv) found same
          waiting

    round_of-Inv :
        (s : Sys W) (o : Option MutationRow)
        → next_planned run_id s.db ≡ o
        → Inv d0 s
        → Inv d0 (state_of host config adapter run_id (round_of host config adapter run_id s o))
    unfolding round_of
    round_of-Inv s none h inv =
        commit-Inv (complete_run host config adapter run_id s.world s.db) s
          (λ id. rw complete_run-mutations (λ h. h)) inv
    round_of-Inv s (some m) h inv =
        with_target-Inv m s (planned_target s.db m.id) refl
          (next_planned-waits run_id s.db.remote_mutations m (unfold next_planned in h)) inv

    round-Inv :
        (s : Sys W)
        → Inv d0 s
        → Inv d0 (state_of host config adapter run_id (round host config adapter run_id s))
    unfolding round
    round-Inv s inv = round_of-Inv s (next_planned run_id s.db) refl inv

-- An execution from a database `d0`, with any adapter and any course of the world. At every call of
-- the provider the database committed last holds the call's row as `started`, for the same remote
-- message; and no two calls are for one mutation. A crash at any point leaves a part of this trace.
pub execute_serial_crash_safe :
    {W : Type 0} (host : Host W) (config : AppConfig) (adapter : Adapter W) (run_id fuel : ℕ)
    (d0 : Db) (w : W) (out : Outcome (Unit {0}) × Sys W)
    → execute_serial host config adapter run_id fuel (record { db = d0; world = w; trace = [] })
      ≡ some out
    → IsLogged d0 out.1.trace
      × AreDistinct (calls out.1.trace)
      × (durable d0 out.1.trace ≡ out.1.db)
execute_serial_crash_safe host config adapter run_id fuel d0 w out h =
    let inv =
      execute_serial-keeps host config adapter run_id (Inv d0)
        (round-Inv host d0 config adapter run_id) fuel _ out
        (record { is_durable = refl; is_logged = tt; spent = tt; are_distinct = tt }) h in
    (inv.is_logged, inv.are_distinct, inv.is_durable)
