-- ===== src/Mutation/Reconcile.antt =====
-- `reconcile_production_run` of src/mailarchive/remote_mutation.py: what is known of a target whose
-- deletion has an open outcome is read from the provider; nothing is deleted and no run resumes.
pub mod Steps
pub mod Runs
pub mod Open
pub mod Laws
use mailarchive.Base.{
  ℕ, ◌+◌, Bool, true, false, not, ◌&&◌, ◌||◌, Option, none, some, String, List, [], ◌∷◌, ◌==◌,
  str_eq, opt_eq, if◌then◌else◌, map,
}
use mailarchive.Base.Lists.{filter}
use mailarchive.Base.Rows.{update_where}
use mailarchive.Errors.{
  Outcome, ok, raised, ◌>>=◌, ◌>>◌, raise_if, not_halted_production, historical_disappeared,
}
use mailarchive.Host.{Host, Json, num, text}
use mailarchive.Models.{kind_eq}
use mailarchive.Db.{
  Db, RunRow, RemoteRow, MutationRow, IdentityColumns, Status, insert_audit_event, mode_eq,
  run_status_eq, status_eq, production_execute, halted, started, succeeded, failed, unknown,
}
use mailarchive.Mutation.Target.{DeletionTarget, columns_of, kind_text}
use mailarchive.Mutation.Query.{run_by_id, mutation_by_id, historical_target}
use mailarchive.Mutation.Engine.{Sys, audit, commit, set_mutation}

pub data Observation : Type 0 where
  confirmed_absent confirmed_present_match identity_conflict unobserved : Observation

-- `observed.state if observed.state in _OBSERVATION_STATES else "unknown"`; `none` is an exception.
unfoldable pub observation_of : Option String → Observation
observation_of none = unobserved
observation_of (some state) =
    if str_eq state "confirmed-absent"
    then confirmed_absent
    else if str_eq state "confirmed-present-match"
    then confirmed_present_match
    else if str_eq state "identity-conflict"
    then identity_conflict
    else unobserved

unfoldable pub observation_text : Observation → String
observation_text confirmed_absent = "confirmed-absent"
observation_text confirmed_present_match = "confirmed-present-match"
observation_text identity_conflict = "identity-conflict"
observation_text unobserved = "unknown"

-- The variable `counts`.
pub record Counts : Type 0 where
  pub observed : ℕ
  pub resolved_absent : ℕ
  pub resolved_present : ℕ
  pub unresolved : ℕ

abbrev pub no_counts : Counts
no_counts = record { observed = 0; resolved_absent = 0; resolved_present = 0; unresolved = 0 }

unfoldable pub tally : Observation → Counts → Counts
tally confirmed_absent c = record c {
  observed = c.observed + 1;
  resolved_absent = c.resolved_absent + 1;
}
tally confirmed_present_match c = record c {
  observed = c.observed + 1;
  resolved_present = c.resolved_present + 1;
}
tally _ c = record c { observed = c.observed + 1; unresolved = c.unresolved + 1 }

-- `WHERE mutation_run_id=? AND status IN ('started','unknown')`
unfoldable pub is_open_in : ℕ → MutationRow → Bool
is_open_in run_id m =
    m.mutation_run_id == run_id && (status_eq m.status started || status_eq m.status unknown)

unfoldable pub open_ids : ℕ → Db → List ℕ
unfolding is_open_in
open_ids run_id db =
    map (λ (m : MutationRow). m.id) (filter (is_open_in run_id) db.remote_mutations)

-- The columns that the `WHERE` of the presence update compares are those of the target; a column
-- that its kind does not have is not compared.
unfoldable pub agrees {ℓ} : {A : Type ℓ} → (A → A → Bool) → Option A → Option A → Bool
agrees eq none column = true
agrees eq (some fact) column = opt_eq eq column (some fact)

unfoldable pub has_identity : IdentityColumns → IdentityColumns → Bool
unfolding agrees
has_identity target columns =
    agrees str_eq target.remote_folder columns.remote_folder
    && agrees (◌==◌) target.uidvalidity columns.uidvalidity
    && agrees (◌==◌) target.remote_uid columns.remote_uid
    && agrees str_eq target.provider_message_id columns.provider_message_id

unfoldable pub same_identity : DeletionTarget → RemoteRow → Bool
unfolding has_identity
same_identity target r =
    str_eq r.id target.remote_message_id
    && r.account_id == target.account_id
    && kind_eq r.provider_kind target.provider_kind
    && has_identity (columns_of target.identity) r.identity

-- `_update_current_presence_if_historical_identity_matches`
unfoldable pub update_presence : DeletionTarget → Bool → Db → Db
unfolding same_identity
update_presence target present db = record db {
  remote_messages =
      update_where (same_identity target) (λ (r : RemoteRow). record r { remote_present = present })
        db.remote_messages;
}

unfoldable pub reconciled : Status → String → String → String → MutationRow → MutationRow
reconciled status summary code now m = record m {
  status = status;
  completed_at = some now;
  reconciled_at = some now;
  provider_response_summary = some summary;
  error_code = some code;
}

-- A started mutation that stays open becomes unknown, an unknown one is left alone.
unfoldable pub still_open : Status → ℕ → String → Db → Db
still_open started id now = set_mutation id (λ (m : MutationRow). record m {
  status = unknown;
  completed_at = some now;
  provider_response_summary = some "outcome-uncertain";
  error_code = some "TRANSPORT_UNKNOWN";
})
still_open _ id now = λ db. db

-- The update of the second transaction.
unfoldable pub resolve : Observation → Status → ℕ → DeletionTarget → String → Db → Db
unfolding update_presence reconciled still_open
resolve confirmed_absent status id target now db =
    update_presence target false
      (set_mutation id (reconciled succeeded "confirmed-absent" "NONE" now) db)
resolve confirmed_present_match status id target now db =
    update_presence target true
      (set_mutation id (reconciled failed "confirmed-no-mutation" "RECONCILED_PRESENT" now) db)
resolve _ status id target now db = still_open status id now db

unfoldable pub resolution_event : Observation → String × String
resolution_event confirmed_absent = ("remote_mutation.reconcile.absent", "success")
resolution_event confirmed_present_match = ("remote_mutation.reconcile.present", "failed")
resolution_event _ = ("remote_mutation.reconcile.unknown", "unknown")

unfoldable pub reconcile_details : ℕ → ℕ → DeletionTarget → List (String × Json)
reconcile_details run_id id target =
    ("account_id", num target.account_id)
    ∷ ("mutation_id", num id)
    ∷ ("provider_kind", text (kind_text target.provider_kind))
    ∷ ("run_id", num run_id)
    ∷ []

module _ {W : Type 0} (host : Host W) (observe : DeletionTarget → W → Option String × W) where
  unfoldable pub started_event : ℕ → ℕ → DeletionTarget → W → Db → Db
  unfolding reconcile_details
  started_event run_id id target w = insert_audit_event (
      audit (host.isoformat (host.clock w)) "remote_mutation.reconcile.started" "started" none
        (reconcile_details run_id id target))

  unfoldable pub resolved_event : ℕ → ℕ → DeletionTarget → Observation → W → Db → Db
  unfolding reconcile_details resolution_event observation_text
  resolved_event run_id id target state w = insert_audit_event (
      audit (host.isoformat (host.clock w)) (resolution_event state).0 (resolution_event state).1
        none (("state", text (observation_text state)) ∷ reconcile_details run_id id target))

  -- The second transaction, after the observation.
  unfoldable pub settle : ℕ → ℕ → DeletionTarget → Status → Observation → Sys W → Sys W
  unfolding resolve resolved_event
  settle run_id id target status state s =
      commit host
        (resolved_event run_id id target state s.world
          (resolve state status id target (host.isoformat (host.clock s.world)) s.db))
        s

  status_of : Option MutationRow → Outcome Status
  status_of none = raised historical_disappeared
  status_of (some m) = ok m.status

  -- The body of the loop for a mutation; `none` of `observe` is an exception of the observer or of
  -- its factory.
  unfoldable pub reconcile_one : ℕ → ℕ → Sys W → Outcome (Observation × Sys W)
  unfolding settle started_event status_of
  reconcile_one run_id id s = do
    target ← historical_target s.db id
    status ← status_of (mutation_by_id s.db id)
    let announced = commit host (started_event run_id id target s.world s.db) s
    let answer = observe target announced.world
    let state = observation_of answer.0
    ok (state, settle run_id id target status state (record announced { world = answer.1 }))

  unfoldable pub after_one :
      Outcome (Observation × Sys W)
      → Sys W
      → Counts
      → (Counts → Sys W → Outcome Counts × Sys W)
      → Outcome Counts × Sys W
  after_one (raised e) s counts continue = (raised e, s)
  after_one (ok (state, s')) s counts continue = continue (tally state counts) s'

  unfoldable pub reconcile_rows : ℕ → List ℕ → Counts → Sys W → Outcome Counts × Sys W
  unfolding after_one
  reconcile_rows run_id [] counts s = (ok counts, s)
  reconcile_rows run_id (id ∷ ids) counts s =
      after_one (reconcile_one run_id id s) s counts (reconcile_rows run_id ids)

  unfoldable pub not_reconcilable : Option RunRow → Bool
  not_reconcilable none = true
  not_reconcilable (some r) =
      not (mode_eq r.mode production_execute && run_status_eq r.status halted)

  unfoldable pub reconcile_production_run : ℕ → Sys W → Outcome Counts × Sys W
  reconcile_production_run run_id s =
      if not_reconcilable (run_by_id s.db run_id)
      then (raised not_halted_production, s)
      else reconcile_rows run_id (open_ids run_id s.db) no_counts s
