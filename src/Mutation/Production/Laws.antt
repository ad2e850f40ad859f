-- ===== src/Mutation/Production/Laws.antt =====
-- What `execute_production_plan` in src/mailarchive/remote_mutation.py does before its serial loop.
use mailarchive.Base.{ℕ, ◌≡◌, refl, ap, false, not, Option, none, some, String, List, arith}
use mailarchive.Base.Lists.{any, All}
use mailarchive.Errors.{
  Outcome, ok, raised, >>=-eq-ok, raise_if-eq-ok, ok-injective, stale_or_ineligible,
  adapter_preflight,
}
use mailarchive.Host.{Host}
use mailarchive.Models.{AppConfig}
use mailarchive.Db.{Db, RunRow, MutationRow, next_id}
use mailarchive.Retention.Report.{Report, evaluate_all}
use mailarchive.Retention.Report.Sound.{evaluate_all_sound, SameInventory}
use mailarchive.Mutation.Engine.{Sys, Adapter, commit}
use mailarchive.Mutation.Serial.Crash.{calls}
use mailarchive.Mutation.Authorize.{authorize, check_rows, prove_current, eligible_in}
use mailarchive.Mutation.Production.Current.{IsCurrent, check_rows-IsCurrent}
use mailarchive.Mutation.Authorize.Sound.{IsAuthorized, authorize-IsAuthorized}
use mailarchive.Mutation.Production.{
  write_production, after_proof, after_evaluation, after_authorize, prepare,
}

module _ {W : Type 0} (host : Host W) where
  -- No mutation or run is written and no provider is called.
  pub record Untouched (s s' : Sys W) : Type 0 where
    pub runs : s'.db.remote_mutation_runs ≡ s.db.remote_mutation_runs
    pub mutations : s'.db.remote_mutations ≡ s.db.remote_mutations
    pub messages : s'.db.remote_messages ≡ s.db.remote_messages
    pub no_calls : calls s'.trace ≡ calls s.trace

  -- What a plan that is taken on went through, and what it leaves for the serial loop.
  pub record IsPrepared (config : AppConfig) (source_id : ℕ) (name : String)
      (factory : Option (Adapter W)) (s : Sys W) (run_id : ℕ) (adapter : Adapter W) (s' : Sys W)
      : Type 0 where
    pub source : RunRow
    pub rows : List MutationRow
    pub authorized : IsAuthorized host config source_id name (host.clock s.world) s.db source rows
    pub reports : List Report
    pub evaluated : Db
    pub fresh : evaluate_all host config s.world (some name) s.db ≡ ok (reports, evaluated)
    pub same : SameInventory s.db evaluated
    pub eligible : any (λ row. not (eligible_in reports row)) rows ≡ false
    pub current : All (IsCurrent host evaluated reports) rows
    pub preflight : factory ≡ some adapter
    pub id : run_id ≡ next_id (λ (r : RunRow). r.id) s.db.remote_mutation_runs
    pub written :
        s'.db
        ≡ write_production host source_id name source rows reports (host.tick s.world) evaluated
    pub no_calls : calls s'.trace ≡ calls s.trace

  unfoldable pub Prepares :
      AppConfig → ℕ → String → Option (Adapter W) → Sys W → Outcome (ℕ × Adapter W) × Sys W → Type 0
  Prepares config source_id name factory s (raised e, s') = Untouched s s'
  Prepares config source_id name factory s (ok (run_id, adapter), s') =
      IsPrepared config source_id name factory s run_id adapter s'

  prove_current-eq-ok :
      (factory : Option (Adapter W)) (db : Db) (reports : List Report) (rows : List MutationRow)
      (adapter : Adapter W)
      → prove_current host factory db reports rows ≡ ok adapter
      → (any (λ row. not (eligible_in reports row)) rows ≡ false)
        × (check_rows host db reports rows ≡ ok tt)
        × (factory ≡ some adapter)
  unfolding prove_current
  prove_current-eq-ok factory db reports rows adapter h =
      let (eligible, h) =
        raise_if-eq-ok (any (λ row. not (eligible_in reports row)) rows) stale_or_ineligible _ h in
      let (_, current, h) = >>=-eq-ok (check_rows host db reports rows) _ h in
      (eligible, current, preflight factory h)
    where
      preflight :
          (f : Option (Adapter W))
          → elim f as (λ _. Outcome (Adapter W)) [ none ↦ raised adapter_preflight | some a ↦ ok a ]
            ≡ ok adapter
          → f ≡ some adapter
      preflight none h = absurd (ground arith)
      preflight (some a) h = ap some (ok-injective h)

  after_proof-Prepares :
      (config : AppConfig) (source_id : ℕ) (name : String) (factory : Option (Adapter W))
      (s : Sys W) (source : RunRow) (rows : List MutationRow) (reports : List Report) (db : Db)
      → authorize host config source_id name (host.clock s.world) s.db ≡ ok (source, rows)
      → evaluate_all host config s.world (some name) s.db ≡ ok (reports, db)
      → (o : Outcome (Adapter W)) → prove_current host factory db reports rows ≡ o
      → Prepares config source_id name factory s
          (after_proof host source_id name source rows reports o (commit host db s))
  unfolding Prepares after_proof commit
  after_proof-Prepares config source_id name factory s source rows reports db p q (raised e) r =
      let (sound, same, records) =
        evaluate_all_sound host config s.world (some name) s.db reports db q in
      record {
        runs = same.remote_mutation_runs;
        mutations = same.remote_mutations;
        messages = same.remote_messages;
        no_calls = refl;
      }
  after_proof-Prepares config source_id name factory s source rows reports db p q (ok adapter) r =
      let (sound, same, records) =
        evaluate_all_sound host config s.world (some name) s.db reports db q in
      let (eligible, current, preflight) = prove_current-eq-ok factory db reports rows adapter r in
      record {
        source = source;
        rows = rows;
        authorized =
            authorize-IsAuthorized host config source_id name (host.clock s.world) s.db source rows
              p;
        reports = reports;
        evaluated = db;
        fresh = q;
        same = same;
        eligible = eligible;
        current = check_rows-IsCurrent host db reports rows current;
        preflight = preflight;
        id = ap (next_id (λ (r : RunRow). r.id)) same.remote_mutation_runs;
        written = refl;
        no_calls = refl;
      }

  after_authorize-Prepares :
      (config : AppConfig) (source_id : ℕ) (name : String) (factory : Option (Adapter W))
      (s : Sys W) (o : Outcome (RunRow × List MutationRow))
      → authorize host config source_id name (host.clock s.world) s.db ≡ o
      → (f : Outcome (List Report × Db)) → evaluate_all host config s.world (some name) s.db ≡ f
      → Prepares config source_id name factory s
          (after_authorize host config source_id name factory o s)
  unfolding Prepares after_authorize after_evaluation after_proof commit
  after_authorize-Prepares config source_id name factory s (raised e) p f q = record {
    runs = refl;
    mutations = refl;
    messages = refl;
    no_calls = refl;
  }
  after_authorize-Prepares config source_id name factory s (ok (source, rows)) p (raised e) q =
      rw q (record { runs = refl; mutations = refl; messages = refl; no_calls = refl })
  after_authorize-Prepares config source_id name factory s (ok (source, rows)) p (ok (reports, db))
        q =
      rw q (
        after_proof-Prepares config source_id name factory s source rows reports db p q
          (prove_current host factory db reports rows) refl)

  -- A refused production execution writes no run and no mutation, leaves the remote messages as
  -- they are, and calls no provider. One that is taken on was authorized, every one of its targets
  -- was found eligible by an evaluation made after that, is still present on the server and linked
  -- to the message it was planned for, and, read again from the inventory, has the fingerprint that
  -- was stored with the plan; and still nothing was called.
  pub prepare-Prepares :
      (config : AppConfig) (source_id : ℕ) (name : String) (factory : Option (Adapter W))
      (s : Sys W)
      → Prepares config source_id name factory s (prepare host config source_id name factory s)
  unfolding prepare
  prepare-Prepares config source_id name factory s =
      after_authorize-Prepares config source_id name factory s
        (authorize host config source_id name (host.clock s.world) s.db) refl
        (evaluate_all host config s.world (some name) s.db) refl
