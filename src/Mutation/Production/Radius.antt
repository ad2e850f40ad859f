-- ===== src/Mutation/Production/Radius.antt =====
-- The provider calls and the end of `execute_production_plan` in
-- src/mailarchive/remote_mutation.py.
use mailarchive.Base.{
  ℕ, ◌+◌, ◌≤◌, ◌<◌, ◌≡◌, refl, sym, ap, ◌∙◌, Bool, false, Option, none, some, String, List, [], ◌∷◌,
  ◌++◌, arith,
}
use mathlib.Core.List.{append-nil, append_assoc}
use mailarchive.Base.Lists.{length, count, All}
use mailarchive.Errors.{Outcome, ok, raised}
use mailarchive.Host.{Host}
use mailarchive.Models.{AppConfig}
use mailarchive.Db.{Db, RunRow, MutationRow, Status, next_id, insert_audit_event}
use mailarchive.Retention.Report.{Report}
use mailarchive.Mutation.Engine.{Sys, Adapter}
use mailarchive.Mutation.Serial.{execute_serial}
use mailarchive.Mutation.Production.{
  clone, clone_rows, write_production, execute_prepared, run_result, execute_production_plan,
  prepare,
}
use mailarchive.Mutation.Production.Laws.{IsPrepared, Prepares, prepare-Prepares}
use mailarchive.Mutation.Serial.{is_planned_in}
use mailarchive.Mutation.Serial.Bounds.{
  waiting, call_count, execute_serial_terminates, execute_serial_calls_le,
}
use mailarchive.Mutation.Plan.Bounds.{count-append}

-- Every mutation belongs to a run that exists: the foreign key of `mutation_run_id`.
abbrev pub IsReferential : Db → Type 0
IsReferential db =
    All
      (λ (m : MutationRow).
        m.mutation_run_id < next_id (λ (r : RunRow). r.id) db.remote_mutation_runs)
      db.remote_mutations

some-injective {ℓ} : {A : Type ℓ} {a b : A} → some a ≡ some b → a ≡ b
some-injective h = cc

module _ {W : Type 0} (host : Host W) where
  -- The rows that are cloned: one for each planned row, for the same target, waiting in the run.
  record IsClone (run_id : ℕ) (row m : MutationRow) : Type 0 where
    pub in_run : m.mutation_run_id ≡ run_id
    pub waits : m.status ≡ Status.planned
    pub wet : m.is_dry_run ≡ false
    pub source : m.source_plan_mutation_id ≡ some row.id
    pub target :
        (m.remote_message_id ≡ row.remote_message_id)
        × (m.canonical_message_id ≡ row.canonical_message_id)
        × (m.account_id ≡ row.account_id)
        × (m.identity ≡ row.identity)
        × (m.target_fingerprint_sha256 ≡ row.target_fingerprint_sha256)

  pub Clones : ℕ → List MutationRow → List MutationRow → Type 0
  Clones run_id [] [] = Unit
  Clones run_id (row ∷ rows) (m ∷ ms) = IsClone run_id row m × Clones run_id rows ms
  Clones run_id _ _ = ⊥

  clone_rows-Clones :
      (run_id : ℕ) (now : String) (reports : List Report) (rows table : List MutationRow)
      → (new : List MutationRow) × (clone_rows host run_id now reports rows table ≡ table ++ new)
        × Clones run_id rows new
  unfolding clone_rows clone Clones
  clone_rows-Clones run_id now reports [] table = ([], sym (append-nil table), tt)
  clone_rows-Clones run_id now reports (row ∷ rows) table =
      let first = clone host (next_id (λ (m : MutationRow). m.id) table) run_id now reports row in
      let (new, e, c) = clone_rows-Clones run_id now reports rows (table ++ first ∷ []) in
      (
        first ∷ new,
        e ∙ append_assoc table (first ∷ []) new,
        (
          record {
            in_run = refl;
            waits = refl;
            wet = refl;
            source = refl;
            target = (refl, refl, refl, refl, refl);
          },
          c,
        ),
      )

  Clones-length :
      (run_id : ℕ) (rows new : List MutationRow) → Clones run_id rows new → length new ≡ length rows
  unfolding Clones
  Clones-length run_id [] [] c = refl
  Clones-length run_id (row ∷ rows) (m ∷ ms) c = omega (arith, Clones-length run_id rows ms c.1)
  Clones-length run_id [] (m ∷ ms) c = absurd c
  Clones-length run_id (row ∷ rows) [] c = absurd c

  none_planned :
      (run_id : ℕ) (table : List MutationRow)
      → All (λ (m : MutationRow). m.mutation_run_id < run_id) table
      → count (is_planned_in run_id) table ≡ 0
  unfolding is_planned_in
  none_planned run_id [] h = refl
  none_planned run_id (m ∷ ms) h = ground (arith, h.0, none_planned run_id ms h.1)

  count-length-le : (p : MutationRow → Bool) (xs : List MutationRow) → count p xs ≤ length xs
  count-length-le p [] = omega arith
  count-length-le p (x ∷ xs) = ground (arith, count-length-le p xs)

  written_mutations :
      (source_id : ℕ) (name : String) (source : RunRow) (rows : List MutationRow)
      (reports : List Report) (w : W) (db : Db)
      → (write_production host source_id name source rows reports w db).remote_mutations
        ≡ clone_rows host
            (next_id (λ (r : RunRow). r.id) db.remote_mutation_runs)
            (host.isoformat (host.clock w))
            reports
            rows
            db.remote_mutations
  unfolding write_production insert_audit_event
  written_mutations source_id name source rows reports w db = refl

  -- The run that is prepared waits for at most its planned rows.
  pub prepared-waiting :
      (config : AppConfig) (source_id : ℕ) (name : String) (factory : Option (Adapter W))
      (s : Sys W) (run_id : ℕ) (adapter : Adapter W) (s' : Sys W)
      (p : IsPrepared host config source_id name factory s run_id adapter s')
      → IsReferential s.db
      → waiting run_id s'.db ≤ p.source.selected_count
  prepared-waiting config source_id name factory s run_id adapter s' p h =
      let now = host.isoformat (host.clock (host.tick s.world)) in
      let (new, e, c) =
        clone_rows-Clones (next_id (λ (r : RunRow). r.id) p.evaluated.remote_mutation_runs) now
          p.reports p.rows p.evaluated.remote_mutations in
      let table : s'.db.remote_mutations ≡ s.db.remote_mutations ++ new =
        ap (λ (d : Db). d.remote_mutations) p.written
        ∙ written_mutations source_id name p.source p.rows p.reports (host.tick s.world) p.evaluated
        ∙ e
        ∙ ap (λ ms. ms ++ new) p.same.remote_mutations in
      let old = none_planned run_id s.db.remote_mutations (rw p.id h) in
      let split = count-append (is_planned_in run_id) s.db.remote_mutations new in
      let less = count-length-le (is_planned_in run_id) new in
      let size = Clones-length _ p.rows new c in
      rw table (omega (arith, old, split, less, size, p.authorized.size))

  run_result-is :
      (run_id : ℕ) (o : Option (Outcome (Unit {0}) × Sys W)) (out : Outcome ℕ × Sys W)
      → run_result host run_id o ≡ some out
      → (x : Outcome (Unit {0}) × Sys W) × (o ≡ some x) × (x.1 ≡ out.1)
  unfolding run_result
  run_result-is run_id none out h = absurd (ground arith)
  run_result-is run_id (some (raised e, s)) out h =
      ((raised e, s), refl, ap (λ (x : Outcome ℕ × Sys W). x.1) (some-injective h))
  run_result-is run_id (some (ok u, s)) out h =
      ((ok u, s), refl, ap (λ (x : Outcome ℕ × Sys W). x.1) (some-injective h))

  run_result-some :
      (run_id : ℕ) (o : Option (Outcome (Unit {0}) × Sys W)) (x : Outcome (Unit {0}) × Sys W)
      → o ≡ some x
      → (out : Outcome ℕ × Sys W) × (run_result host run_id o ≡ some out)
  unfolding run_result
  run_result-some run_id none x h = absurd (ground arith)
  run_result-some run_id (some (raised e, s)) x h = ((raised e, s), refl)
  run_result-some run_id (some (ok u, s)) x h = ((ok run_id, s), refl)

  execute_prepared-calls :
      (config : AppConfig) (source_id : ℕ) (name : String) (factory : Option (Adapter W)) (fuel : ℕ)
      (s : Sys W) (o : Outcome (ℕ × Adapter W) × Sys W) (out : Outcome ℕ × Sys W)
      → Prepares host config source_id name factory s o
      → IsReferential s.db
      → execute_prepared host config fuel o ≡ some out
      → (call_count out.1 ≤ call_count s + config.remote_deletion.max_per_run)
        × (call_count out.1 ≤ call_count s + config.remote_deletion.max_per_account)
  unfolding Prepares execute_prepared
  execute_prepared-calls config source_id name factory fuel s (raised e, s') out p h r =
      let same = ap length p.no_calls in
      let left = ap (λ (x : Outcome ℕ × Sys W). call_count x.1) (some-injective r) in
      (omega arith, omega arith)
  execute_prepared-calls config source_id name factory fuel s (ok (run_id, adapter), s') out p h r =
      let (x, e, same) =
        run_result-is run_id (execute_serial host config adapter run_id fuel s') out r in
      let le = execute_serial_calls_le host config adapter run_id fuel s' x e in
      let waits = prepared-waiting config source_id name factory s run_id adapter s' p h in
      let before = ap length p.no_calls in
      let after = ap call_count same in
      let a = p.authorized in
      (omega (arith, a.run_limit, a.run_config), omega (arith, a.account_limit, a.account_config))

  -- The blast radius of a production execution: however it ends, it called the provider at most
  -- `max_per_run` times and at most `max_per_account` times, in a database whose mutations belong
  -- to existing runs.
  pub execute_production_plan_calls_le :
      (config : AppConfig) (source_id : ℕ) (name : String) (factory : Option (Adapter W)) (fuel : ℕ)
      (s : Sys W) (out : Outcome ℕ × Sys W)
      → IsReferential s.db
      → execute_production_plan host config source_id name factory fuel s ≡ some out
      → (call_count out.1 ≤ call_count s + config.remote_deletion.max_per_run)
        × (call_count out.1 ≤ call_count s + config.remote_deletion.max_per_account)
  unfolding execute_production_plan
  execute_production_plan_calls_le config source_id name factory fuel s out h r =
      execute_prepared-calls config source_id name factory fuel s
        (prepare host config source_id name factory s) out
        (prepare-Prepares host config source_id name factory s) h r

  execute_prepared-ends :
      (config : AppConfig) (source_id : ℕ) (name : String) (factory : Option (Adapter W)) (fuel : ℕ)
      (s : Sys W) (o : Outcome (ℕ × Adapter W) × Sys W)
      → Prepares host config source_id name factory s o
      → IsReferential s.db
      → config.remote_deletion.max_per_run < fuel
      → (out : Outcome ℕ × Sys W) × (execute_prepared host config fuel o ≡ some out)
  unfolding Prepares execute_prepared
  execute_prepared-ends config source_id name factory fuel s (raised e, s') p h f =
      ((raised e, s'), refl)
  execute_prepared-ends config source_id name factory fuel s (ok (run_id, adapter), s') p h f =
      let waits = prepared-waiting config source_id name factory s run_id adapter s' p h in
      let a = p.authorized in
      let (x, e) =
        execute_serial_terminates host config adapter run_id fuel s'
          (omega (arith, a.run_limit, a.run_config)) in
      run_result-some run_id (execute_serial host config adapter run_id fuel s') x e

  -- A production execution ends within `max_per_run + 1` rounds of its loop, in a database whose
  -- mutations belong to existing runs.
  pub execute_production_plan_terminates :
      (config : AppConfig) (source_id : ℕ) (name : String) (factory : Option (Adapter W)) (fuel : ℕ)
      (s : Sys W)
      → IsReferential s.db
      → config.remote_deletion.max_per_run < fuel
      → (out : Outcome ℕ × Sys W) × (execute_production_plan host config source_id name factory fuel
            s
          ≡ some out)
  unfolding execute_production_plan
  execute_production_plan_terminates config source_id name factory fuel s h f =
      execute_prepared-ends config source_id name factory fuel s
        (prepare host config source_id name factory s)
        (prepare-Prepares host config source_id name factory s) h f
