-- ===== src/Mutation/Serial.antt =====
-- `_execute_serial` of src/mailarchive/remote_mutation.py: one production run, one target after the
-- other, each with its own fresh evaluation, and no target after the first that does not succeed.
mod Rows
pub mod Crash
pub mod Bounds
use mailarchive.Base.{
  ℕ, zero, suc, Bool, true, false, ◌&&◌, Option, none, some, String, List, [], ◌∷◌, ◌==◌,
  if◌then◌else◌,
}
use mathlib.Core.Path.{◌≡◌, subst}
use native.Mathlib.Omega.{arith}
use mailarchive.Base.Lists.{find}
use mailarchive.Errors.{Error, Outcome, ok, raised, ◌>>=◌}
use mailarchive.Host.{Host, num}
use mailarchive.Models.{AppConfig}
use mailarchive.Db.{
  Db, RunRow, MutationRow, Status, insert_audit_event, completed, status_eq, succeeded,
}
use mailarchive.Mutation.Target.{DeletionTarget}
use mailarchive.Mutation.Query.{planned_target}
use mailarchive.Mutation.Engine.{
  Sys, Adapter, commit, still_current, mark_started, halt_stale, call_provider, record_outcome,
  set_run, end_run, audit,
}

-- `WHERE mutation_run_id=? AND status='planned' ORDER BY id LIMIT 1`
unfoldable pub is_planned_in : ℕ → MutationRow → Bool
is_planned_in run_id m = m.mutation_run_id == run_id && status_eq m.status Status.planned

unfoldable pub next_planned : ℕ → Db → Option MutationRow
unfolding is_planned_in
next_planned run_id db = find (is_planned_in run_id) db.remote_mutations

-- How a round ends: by the function's `return`, by an exception, or by another round.
pub data Round (W : Type 0) : Type 0 where
  returned : Sys W → Round W
  thrown : Error → Sys W → Round W
  again : Sys W → Round W

module _ {W : Type 0} (host : Host W) (config : AppConfig) (adapter : Adapter W) (run_id : ℕ) where
  unfoldable pub complete_run : W → Db → Db
  complete_run w db =
      let now = host.isoformat (host.clock w) in
      insert_audit_event
        (audit now "remote_delete.production.completed" "success" none
          (("run_id", num run_id) ∷ []))
        (set_run run_id (end_run completed now) db)

  -- `if status != "succeeded": return`
  unfoldable pub after_outcome : Sys W → Outcome (Status × Sys W) → Round W
  after_outcome s (raised e) = thrown e s
  after_outcome s (ok (status, s')) = if status_eq status succeeded then again s' else returned s'

  -- The provider call, behind its committed `started` row.
  unfoldable pub attempt : MutationRow → DeletionTarget → Sys W → Round W
  unfolding after_outcome
  attempt m target s =
      let marked = commit host (mark_started host run_id m.id target s.world s.db) s in
      let (result, called) = call_provider host adapter m.id target marked in
      after_outcome called (record_outcome host run_id m.id target result called)

  unfoldable pub unless_stale :
      MutationRow → DeletionTarget → Sys W → Outcome (Bool × Sys W) → Round W
  unless_stale m target s (raised e) = thrown e s
  unless_stale m target s (ok (true, s')) = attempt m target s'
  unless_stale m target s (ok (false, s')) =
      returned (commit host (halt_stale host run_id m.id target s'.world s'.db) s')

  unfoldable pub with_target : MutationRow → Sys W → Outcome DeletionTarget → Round W
  unfolding unless_stale
  with_target m s (raised e) = thrown e s
  with_target m s (ok target) =
      unless_stale m target s (still_current host config target m.target_fingerprint_sha256 s)

  unfoldable pub round_of : Sys W → Option MutationRow → Round W
  unfolding with_target
  round_of s none = returned (commit host (complete_run s.world s.db) s)
  round_of s (some m) = with_target m s (planned_target s.db m.id)

  -- The body of `while True`.
  unfoldable pub round : Sys W → Round W
  unfolding round_of
  round s = round_of s (next_planned run_id s.db)

  unfoldable pub after_round :
      Round W → (Sys W → Option (Outcome (Unit {0}) × Sys W)) → Option (Outcome (Unit {0}) × Sys W)
  after_round (returned s) continue = some (ok tt, s)
  after_round (thrown e s) continue = some (raised e, s)
  after_round (again s) continue = continue s

  -- The loop, for at most `fuel` rounds; `none` only where the fuel runs out.
  unfoldable pub execute_serial : ℕ → Sys W → Option (Outcome (Unit {0}) × Sys W)
  unfolding after_round
  execute_serial zero s = none
  execute_serial (suc fuel) s = after_round (round s) (execute_serial fuel)

  abbrev pub state_of : Round W → Sys W
  state_of (returned s) = s
  state_of (thrown e s) = s
  state_of (again s) = s

  after_round-keeps {ℓ} :
      (P : Sys W → Type ℓ) (r : Round W) (continue : Sys W → Option (Outcome (Unit {0}) × Sys W))
      (out : Outcome (Unit {0}) × Sys W)
      → ((s : Sys W) → P s → continue s ≡ some out → P out.1)
      → P (state_of r)
      → after_round r continue ≡ some out
      → P out.1
  unfolding after_round
  after_round-keeps P (returned s) continue out k p h = subst P (ground arith) p
  after_round-keeps P (thrown e s) continue out k p h = subst P (ground arith) p
  after_round-keeps P (again s) continue out k p h = k s p h

  -- What every round keeps, the loop keeps.
  pub execute_serial-keeps {ℓ} :
      (P : Sys W → Type ℓ)
      → ((s : Sys W) → P s → P (state_of (round s)))
      → (fuel : ℕ) (s : Sys W) (out : Outcome (Unit {0}) × Sys W) → P s
      → execute_serial fuel s ≡ some out
      → P out.1
  unfolding execute_serial
  execute_serial-keeps P keep zero s out p h = cc
  execute_serial-keeps P keep (suc fuel) s out p h =
      after_round-keeps P (round s) (execute_serial fuel) out
        (λ s' p' h'. execute_serial-keeps P keep fuel s' out p' h') (keep s p) h
