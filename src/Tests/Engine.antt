-- ===== src/Tests/Engine.antt =====
-- The theorems of plans, executions and reconciliations, at the archive of `Tests.antt`.
use mailarchive.Base.{
  ℕ, ◌+◌, ◌≡◌, refl, ◌↔◌, ◌≤◌, ◌<◌, arith, true, Option, none, some, String, [], ◌∷◌,
}
use mailarchive.Errors.{Outcome, ok}
use mailarchive.Db.{Db, RunRow, MutationRow, Status, succeeded, next_id}
use mailarchive.Db
use mailarchive.Mutation.Target.{
  DeletionTarget, fingerprint-injective, target_of, columns_of, target_of-columns_of,
}
use mailarchive.Mutation.Result.{
  Verdict, IsFinished, normalize_result, normalize_result-IsFinished, claims_success, succeeded_iff,
  code_of,
}
use mailarchive.Mutation.Engine.{Sys}
use mailarchive.Mutation.Serial.{execute_serial}
use mailarchive.Mutation.Serial.Crash.{
  IsLogged, AreDistinct, durable, calls, execute_serial_crash_safe,
}
use mailarchive.Mutation.Serial.Bounds.{
  waiting, call_count, execute_serial_terminates, execute_serial_calls_le,
}
use mailarchive.Mutation.Authorize.{authorize}
use mailarchive.Mutation.Authorize.Sound.{IsAuthorized, authorize_iff}
use mailarchive.Mutation.Production.{prepare, execute_production_plan}
use mailarchive.Mutation.Production.Laws.{Prepares, prepare-Prepares}
use mailarchive.Mutation.Production.Radius.{
  IsReferential, execute_production_plan_calls_le, execute_production_plan_terminates,
}
use mailarchive.Pop3.{Session, delete}
use mailarchive.Pop3.Once.{IsOnce, DeleteProof, pop3_delete-IsOnce}
use mailarchive.Tests.{
  host, account, config, target, planned_row, plan, database, planned_db, now, waiting_row,
  confirmed, adapter, wire,
}

abbrev started_db : Db
started_db =
    database (record plan { mode = Db.production_execute; status = Db.planned } ∷ [])
      (waiting_row ∷ [])

abbrev start : Sys ℕ
start = record { db = started_db; world = now; trace = [] }

started_waiting : waiting 1 start.db < 2
unfolding mailarchive.Mutation.Serial.is_planned_in
started_waiting = omega arith

execute_serial_terminates_example :
    (out : Outcome (Unit {0}) × Sys ℕ) × (execute_serial host config adapter 1 2 start ≡ some out)
execute_serial_terminates_example =
    execute_serial_terminates host config adapter 1 2 start started_waiting

abbrev ended : Outcome (Unit {0}) × Sys ℕ
ended = execute_serial_terminates_example.0

execute_serial_crash_safe_example :
    IsLogged started_db ended.1.trace
    × AreDistinct (calls ended.1.trace)
    × (durable started_db ended.1.trace ≡ ended.1.db)
execute_serial_crash_safe_example =
    execute_serial_crash_safe host config adapter 1 2 started_db now ended
      execute_serial_terminates_example.1

execute_serial_calls_le_example : call_count ended.1 ≤ call_count start + waiting 1 start.db
execute_serial_calls_le_example =
    execute_serial_calls_le host config adapter 1 2 start ended execute_serial_terminates_example.1

authorize_iff_example :
    (authorize host config 1 "home" now planned_db ≡ ok (plan, planned_row ∷ []))
    ↔ IsAuthorized host config 1 "home" now planned_db plan (planned_row ∷ [])
authorize_iff_example = authorize_iff host config 1 "home" now planned_db plan (planned_row ∷ [])

abbrev ready : Sys ℕ
ready = record { db = planned_db; world = now; trace = [] }

prepare-Prepares_example :
    Prepares host config 1 "home"
      (some adapter)
      ready
      (prepare host config 1 "home" (some adapter) ready)
prepare-Prepares_example = prepare-Prepares host config 1 "home" (some adapter) ready

planned_db-IsReferential : IsReferential planned_db
unfolding next_id
planned_db-IsReferential = (omega arith, tt)

execute_production_plan_terminates_example :
    (out : Outcome ℕ × Sys ℕ) × (execute_production_plan host config 1 "home" (some adapter) 6 ready
      ≡ some out)
execute_production_plan_terminates_example =
    execute_production_plan_terminates host config 1 "home" (some adapter) 6 ready
      planned_db-IsReferential (omega arith)

abbrev executed : Outcome ℕ × Sys ℕ
executed = execute_production_plan_terminates_example.0

execute_production_plan_calls_le_example :
    (call_count executed.1 ≤ call_count ready + config.remote_deletion.max_per_run)
    × (call_count executed.1 ≤ call_count ready + config.remote_deletion.max_per_account)
execute_production_plan_calls_le_example =
    execute_production_plan_calls_le host config 1 "home" (some adapter) 6 ready executed
      planned_db-IsReferential execute_production_plan_terminates_example.1

-- A halted run with a mutation whose outcome is open.
abbrev halted_sys : Sys ℕ
halted_sys = record {
  db =
      database (record plan { mode = Db.production_execute; status = Db.halted } ∷ [])
        (record waiting_row { status = Db.unknown } ∷ []);
  world = now;
  trace = [];
}

abbrev observer : DeletionTarget → ℕ → Option String × ℕ
observer t w = (some "confirmed-absent", w + 1)

normalizes : normalize_result confirmed none ≡ ok (succeeded, "confirmed-absent", "NONE")
unfolding normalize_result claims_success code_of
normalizes = refl

normalize_result-IsFinished_example : IsFinished (succeeded, "confirmed-absent", "NONE")
normalize_result-IsFinished_example =
    normalize_result-IsFinished confirmed none (succeeded, "confirmed-absent", "NONE") normalizes

succeeded_iff_example :
    (v : Verdict) × (normalize_result confirmed none ≡ ok v)
    × ((v.0 ≡ succeeded) ↔ (
        (confirmed.outcome ≡ "success-confirmed")
        × (confirmed.confirmed_absent ≡ true)
        × (code_of confirmed.error_code ≡ "NONE")))
succeeded_iff_example = succeeded_iff confirmed

fingerprint-injective_example : target ≡ target
fingerprint-injective_example = fingerprint-injective host target target (λ same. refl) refl refl

target_of-columns_of_example :
    target_of "r1" "c1" 1 "home" target.provider_kind "digest" (columns_of target.identity)
    ≡ ok target
target_of-columns_of_example = target_of-columns_of target tt

abbrev session : Session ℕ
session = record { world = now; sent = [] }

pop3_delete-IsOnce_example :
    IsOnce host wire account 1
      (DeleteProof host wire account 1 target)
      session
      (delete host wire account 1 target (some "secret") session).1
pop3_delete-IsOnce_example = pop3_delete-IsOnce host wire account 1 target (some "secret") session
