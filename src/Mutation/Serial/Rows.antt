-- ===== src/Mutation/Serial/Rows.antt =====
-- The mutation rows under the writes of the engine in src/mailarchive/remote_mutation.py.
use mailarchive.Base.{
  ℕ, ◌≡◌, refl, ap, Bool, true, false, ◌&&◌, some, String, List, [], ◌∷◌, arith, ◌==◌, ==_self,
  if◌then◌else◌,
}
use mailarchive.Base.Lists.{any, find}
use mailarchive.Base.Rows.{update_where, find-update_where}
use mailarchive.Host.{Host}
use mailarchive.Db.{
  Db, MutationRow, Status, status_eq, insert_audit_event, started, succeeded, failed,
}
use mailarchive.Mutation.Target.{DeletionTarget}
use mailarchive.Mutation.Query.{mutation_by_id}
use mailarchive.Mutation.Engine.{
  set_mutation, set_run, mark_started, halt_stale, write_outcome, clear_present, outcome_row,
}
use mailarchive.Mutation.Serial.{is_planned_in, complete_run}

-- Whether a row with this id still waits to be executed.
abbrev pub is_waiting : ℕ → MutationRow → Bool
is_waiting id m = m.id == id && status_eq m.status Status.planned

abbrev pub waits : ℕ → List MutationRow → Bool
waits id rows = any (is_waiting id) rows

abbrev pub has_id : ℕ → MutationRow → Bool
has_id id m = m.id == id

-- An update of the row `k` that keeps its id and run and ends its waiting.
pub record Ends (f : MutationRow → MutationRow) : Type 0 where
  pub keeps_id : (m : MutationRow) → (f m).id ≡ m.id
  pub keeps_run : (m : MutationRow) → (f m).mutation_run_id ≡ m.mutation_run_id
  pub keeps_remote : (m : MutationRow) → (f m).remote_message_id ≡ m.remote_message_id
  pub ends : (m : MutationRow) → status_eq (f m).status Status.planned ≡ false

pub waits-update :
    (id k : ℕ) (f : MutationRow → MutationRow) (rows : List MutationRow)
    → Ends f
    → waits id (update_where (has_id k) f rows) ≡ (if id == k then false else waits id rows)
waits-update id k f [] h = ground arith
waits-update id k f (m ∷ rows) h =
    ground (arith, h.keeps_id m, h.ends m, waits-update id k f rows h)

pub next_planned-waits :
    (run_id : ℕ) (rows : List MutationRow) (m : MutationRow)
    → find (is_planned_in run_id) rows ≡ some m
    → waits m.id rows ≡ true
unfolding is_planned_in
next_planned-waits run_id [] m h = cc
next_planned-waits run_id (x ∷ rows) m h =
    ground (arith, ==_self m.id, next_planned-waits run_id rows m)

pub mark_started-mutations :
    {W : Type 0} (host : Host W) (run_id id : ℕ) (target : DeletionTarget) (w : W) (db : Db)
    → (f : MutationRow → MutationRow) × Ends f
      × ((m : MutationRow) → (f m).status ≡ started)
      × ((mark_started host run_id id target w db).remote_mutations
          ≡ update_where (has_id id) f db.remote_mutations)
unfolding mark_started set_mutation insert_audit_event
mark_started-mutations host run_id id target w db = (
  λ m. record m { status = started; started_at = some (host.isoformat (host.clock w)) },
  record {
    keeps_id = λ m. refl;
    keeps_run = λ m. refl;
    keeps_remote = λ m. refl;
    ends = λ m. refl;
  },
  λ m. refl,
  refl,
)

pub halt_stale-mutations :
    {W : Type 0} (host : Host W) (run_id id : ℕ) (target : DeletionTarget) (w : W) (db : Db)
    → (f : MutationRow → MutationRow) × Ends f
      × ((halt_stale host run_id id target w db).remote_mutations
          ≡ update_where (has_id id) f db.remote_mutations)
unfolding halt_stale set_mutation set_run insert_audit_event
halt_stale-mutations host run_id id target w db = (
  λ m. record m {
    status = failed;
    completed_at = some (host.isoformat (host.clock w));
    error_code = some "STALE_PLAN";
  },
  record {
    keeps_id = λ m. refl;
    keeps_run = λ m. refl;
    keeps_remote = λ m. refl;
    ends = λ m. refl;
  },
  refl,
)

pub outcome_row-Ends :
    {W : Type 0} (host : Host W) (status : Status) (summary code now : String)
    → status_eq status Status.planned ≡ false
    → Ends (outcome_row host status summary code now)
unfolding outcome_row
outcome_row-Ends host status summary code now h = record {
  keeps_id = λ m. refl;
  keeps_run = λ m. refl;
  keeps_remote = λ m. refl;
  ends = λ m. h;
}

pub write_outcome-mutations :
    {W : Type 0} (host : Host W) (run_id id : ℕ) (target : DeletionTarget) (absent : Bool)
    (status : Status) (summary code : String) (w : W) (db : Db)
    → (write_outcome host run_id id target absent status summary code w db).remote_mutations
      ≡ update_where
          (has_id id)
          (outcome_row host status summary code (host.isoformat (host.clock w)))
          db.remote_mutations
unfolding write_outcome set_mutation set_run insert_audit_event clear_present
write_outcome-mutations host run_id id target true succeeded summary code w db = refl
write_outcome-mutations host run_id id target false succeeded summary code w db = refl
write_outcome-mutations host run_id id target absent failed summary code w db = refl
write_outcome-mutations host run_id id target absent _ summary code w db = refl

pub complete_run-mutations :
    {W : Type 0} (host : Host W) (config : _) (adapter : _) (run_id : ℕ) (w : W) (db : Db)
    → (complete_run host config adapter run_id w db).remote_mutations ≡ db.remote_mutations
unfolding complete_run set_run insert_audit_event
complete_run-mutations host config adapter run_id w db = refl

module _ (db db' : Db) (id : ℕ) (f : MutationRow → MutationRow) (e : Ends f)
    (rows : db'.remote_mutations ≡ update_where (has_id id) f db.remote_mutations) where
  pub mutation_by_id-update :
      (m : MutationRow) → mutation_by_id db id ≡ some m → mutation_by_id db' id ≡ some (f m)
  unfolding mutation_by_id
  mutation_by_id-update m found = rw rows (
      find-update_where (has_id id) f db.remote_mutations m (λ y. ap (λ n. n == id) (e.keeps_id y))
        found)

  pub waits-update_self : waits id db'.remote_mutations ≡ false
  waits-update_self =
      rw rows (ground (arith, waits-update id id f db.remote_mutations e, ==_self id))
