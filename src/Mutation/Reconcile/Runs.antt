-- ===== src/Mutation/Reconcile/Runs.antt =====
-- `reconcile_production_run` of src/mailarchive/remote_mutation.py observes every open mutation, in
-- order.
use mailarchive.Base.{
  ℕ, ◌+◌, ◌≡◌, refl, ap, Option, none, some, String, List, [], ◌∷◌, arith, inl, inr,
}
use mathlib.Core.Path.{subst}
use mailarchive.Base.Lists.{length, count}
use mailarchive.Errors.{Outcome, ok, raised, >>=-eq-ok, ok-injective}
use mailarchive.Host.{Host}
use mailarchive.Db.{MutationRow, Status, insert_audit_event}
use mailarchive.Mutation.Target.{DeletionTarget}
use mailarchive.Mutation.Query.{mutation_by_id, historical_target}
use mailarchive.Mutation.Engine.{Sys, commit}
use mailarchive.Mutation.Reconcile.{
  Observation, Counts, confirmed_absent, confirmed_present_match, identity_conflict, unobserved,
  observation_of, tally, resolve, started_event, resolved_event, settle, update_presence, status_of,
  reconcile_one, after_one, reconcile_rows,
}
use mailarchive.Mutation.Reconcile.Steps.{
  is_answer, Resolves, resolved_row, resolve_lem, Reads, reads_gone, reads_there, reads_neither,
  observation_of-Reads, Reads-Resolves, Resolves-beside,
}

-- Each answer was counted once, as what it says.
pub record CountsFrom (answers : List (Option String)) (before after : Counts) : Type 0 where
  pub observed : after.observed ≡ before.observed + length answers
  pub absent :
      after.resolved_absent ≡ before.resolved_absent + count (is_answer "confirmed-absent") answers
  pub present :
      after.resolved_present
      ≡ before.resolved_present + count (is_answer "confirmed-present-match") answers
  pub total :
      after.resolved_absent + after.resolved_present + after.unresolved
      ≡ before.resolved_absent + before.resolved_present + before.unresolved + length answers

tally-CountsFrom :
    (answer : Option String) (answers : List (Option String)) (state : Observation)
    (before after : Counts)
    → Reads answer state
    → CountsFrom answers (tally state before) after
    → CountsFrom (answer ∷ answers) before after
unfolding tally
tally-CountsFrom answer answers confirmed_absent before after (reads_gone e) h = rw e (record {
  observed = omega (arith, h.observed);
  absent = omega (arith, h.absent);
  present = omega (arith, h.present);
  total = omega (arith, h.total);
})
tally-CountsFrom answer answers confirmed_present_match before after (reads_there e) h =
    rw e (record {
      observed = omega (arith, h.observed);
      absent = omega (arith, h.absent);
      present = omega (arith, h.present);
      total = omega (arith, h.total);
    })
tally-CountsFrom answer answers identity_conflict before after (reads_neither e f g) h = record {
  observed = omega (arith, h.observed);
  absent = rw (count, e) h.absent;
  present = rw (count, f) h.present;
  total = omega (arith, h.total);
}
tally-CountsFrom answer answers unobserved before after (reads_neither e f g) h = record {
  observed = omega (arith, h.observed);
  absent = rw (count, e) h.absent;
  present = rw (count, f) h.present;
  total = omega (arith, h.total);
}
tally-CountsFrom answer answers confirmed_absent before after (reads_neither e f (inl g)) h = cc g
tally-CountsFrom answer answers confirmed_absent before after (reads_neither e f (inr g)) h = cc g
tally-CountsFrom answer answers confirmed_present_match before after (reads_neither e f (inl g)) h =
    cc g
tally-CountsFrom answer answers confirmed_present_match before after (reads_neither e f (inr g)) h =
    cc g

module _ {W : Type 0} (host : Host W) (observe : DeletionTarget → W → Option String × W) where
  -- One step: the target of the mutation's own row is observed once, between two commits, and the
  -- answer decides what becomes of the row.
  pub record IsReconciled (id : ℕ) (answer : Option String) (s t : Sys W) : Type 0 where
    pub target : DeletionTarget
    pub historical : historical_target s.db id ≡ ok target
    pub before : MutationRow
    pub found : mutation_by_id s.db id ≡ some before
    pub answered : answer ≡ (observe target (host.tick s.world)).0
    pub once : t.world ≡ host.tick (observe target (host.tick s.world)).1
    pub after : MutationRow
    pub updated : mutation_by_id t.db id ≡ some after
    pub resolved : Resolves target answer s.db t.db before after

  -- A step for each of these mutations, in order, with these answers.
  pub data Runs : List ℕ → List (Option String) → Sys W → Sys W → Type 0 where
    ended : {s : Sys W} → Runs [] [] s s
    stepped :
        {id : ℕ} {ids : List ℕ} {answer : Option String} {answers : List (Option String)}
        {s t u : Sys W}
        → IsReconciled id answer s t
        → Runs ids answers t u
        → Runs (id ∷ ids) (answer ∷ answers) s u

  status_of_lem :
      (o : Option MutationRow) (status : Status)
      → status_of host observe o ≡ ok status
      → (before : MutationRow) × (o ≡ some before) × (before.status ≡ status)
  unfolding status_of
  status_of_lem none status h = absurd (ground arith)
  status_of_lem (some before) status h = (before, refl, ok-injective h)

  settle-IsReconciled :
      (run_id id : ℕ) (target : DeletionTarget) (before : MutationRow) (s : Sys W)
      → historical_target s.db id ≡ ok target
      → mutation_by_id s.db id ≡ some before
      → let answer = observe target (host.tick s.world) in
        IsReconciled id answer.0 s (
          settle host observe run_id id target before.status
            (observation_of answer.0)
            (record (commit host (started_event host observe run_id id target s.world s.db) s) {
              world = answer.1;
            }))
  unfolding settle commit started_event resolved_event insert_audit_event mutation_by_id
      update_presence
  settle-IsReconciled run_id id target before s p found =
      let answer = observe target (host.tick s.world) in
      let db = started_event host observe run_id id target s.world s.db in
      let now = host.isoformat (host.clock answer.1) in
      let state = observation_of answer.0 in
      record {
        target = target;
        historical = p;
        before = before;
        found = found;
        answered = refl;
        once = refl;
        after = resolved_row state now before;
        updated = resolve_lem state id target now db before found;
        resolved =
            Resolves-beside target answer.0 db s.db (resolve state before.status id target now db) _
              before (resolved_row state now before) (λ p. refl) refl refl
              (Reads-Resolves target answer.0 state id now db before
                (observation_of-Reads answer.0));
      }

  reconcile_one-IsReconciled :
      (run_id id : ℕ) (s s' : Sys W) (state : Observation)
      → reconcile_one host observe run_id id s ≡ ok (state, s')
      → (answer : Option String) × IsReconciled id answer s s' × Reads answer state
  unfolding reconcile_one commit
  reconcile_one-IsReconciled run_id id s s' state e =
      let (target, p, e) = >>=-eq-ok (historical_target s.db id) _ e in
      let (status, q, e) = >>=-eq-ok (status_of host observe (mutation_by_id s.db id)) _ e in
      let (before, found, same) = status_of_lem (mutation_by_id s.db id) status q in
      let answer = (observe target (host.tick s.world)).0 in
      let ends = ok-injective e in
      (
        answer,
        subst (IsReconciled id answer s) (ap (λ (o : Observation × Sys W). o.1) ends) (
            subst
              (λ status. IsReconciled id answer s (
                settle host observe run_id id target status (observation_of answer)
                  (record (commit host (started_event host observe run_id id target s.world s.db)
                    s) { world = (observe target (host.tick s.world)).1 })))
              same (settle-IsReconciled run_id id target before s p found)),
        subst (Reads answer) (ap (λ (o : Observation × Sys W). o.0) ends)
            (observation_of-Reads answer),
      )

  -- Where the loop returns, it took a step for each mutation, and counted each answer.
  pub HasRun : List ℕ → Counts → Sys W → Outcome Counts × Sys W → Type 0
  HasRun ids counts s (raised e, t) = Unit
  HasRun ids counts s (ok c, t) =
      (answers : List (Option String)) × Runs ids answers s t × CountsFrom answers counts c

  after_one-HasRun :
      (run_id id : ℕ) (ids : List ℕ) (counts : Counts) (s : Sys W)
      (o : Outcome (Observation × Sys W))
      → reconcile_one host observe run_id id s ≡ o
      → ((c : Counts) (t : Sys W) → HasRun ids c t (reconcile_rows host observe run_id ids c t))
      → HasRun
          (id ∷ ids)
          counts
          s
          (after_one host observe o s counts (reconcile_rows host observe run_id ids))
  unfolding after_one HasRun
  after_one-HasRun run_id id ids counts s (raised e) h next = tt
  after_one-HasRun run_id id ids counts s (ok (state, t)) h next =
      let (answer, one, reads) = reconcile_one-IsReconciled run_id id s t state h in
      extend (reconcile_rows host observe run_id ids (tally state counts) t) answer one reads
        (next (tally state counts) t)
    where
      extend :
          (out : Outcome Counts × Sys W) (answer : Option String)
          → IsReconciled id answer s t
          → Reads answer state
          → HasRun ids (tally state counts) t out
          → HasRun (id ∷ ids) counts s out
      extend (raised e, u) answer one reads k = tt
      extend (ok c, u) answer one reads (answers, runs, counted) = (
        answer ∷ answers,
        stepped one runs,
        tally-CountsFrom answer answers state counts c reads counted,
      )

  pub reconcile_rows-HasRun :
      (run_id : ℕ) (ids : List ℕ) (counts : Counts) (s : Sys W)
      → HasRun ids counts s (reconcile_rows host observe run_id ids counts s)
  unfolding reconcile_rows HasRun
  reconcile_rows-HasRun run_id [] counts s = (
    [],
    ended,
    record {
      observed = omega arith;
      absent = omega arith;
      present = omega arith;
      total = omega arith;
    },
  )
  reconcile_rows-HasRun run_id (id ∷ ids) counts s =
      after_one-HasRun run_id id ids counts s (reconcile_one host observe run_id id s) refl
        (λ c t. reconcile_rows-HasRun run_id ids c t)
