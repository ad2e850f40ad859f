-- ===== src/Db.antt =====
-- The SQLite tables of src/mailarchive/db.py that the retention and deletion code reads and
-- writes, each a list of rows in the order of insertion. A row has the columns that this code
-- reads; a nullable column is an `Option`, a column with `CHECK … IN (0, 1)` is a `Bool`.
use Prim.Native.Nat.{max}
use mailarchive.Base.{
  ℕ, ◌+◌, ◌<◌, ◌≡◌, refl, ◌↔◌, Bool, true, Option, String, List, [], ◌∷◌, ◌++◌, arith,
}
use mailarchive.Base.Lists.{All}
use mailarchive.Host.{Json}
use mailarchive.Models.{Kind, StorageState}
use mailarchive.Retention.Reason.{Reason}

pub record AccountRow : Type 0 where
  pub id : ℕ
  pub name : String
  pub kind : Kind
  pub enabled : Bool

pub record CanonicalRow : Type 0 where
  pub id : String
  pub account_id : ℕ
  pub sha256 : String
  pub local_path : String
  pub storage_state : StorageState
  pub archived_at : Option String
  pub integrity_status : String
  pub size_bytes : ℕ
  pub message_id_header : Option String
  pub message_date : Option String
  pub downloaded_at : String
  pub quarantined_at : Option String
  pub integrity_verified_at : Option String
  pub created_at : String

-- The columns that name a remote message to its provider.
pub record IdentityColumns : Type 0 where
  pub remote_folder : Option String
  pub uidvalidity : Option ℕ
  pub remote_uid : Option ℕ
  pub provider_message_id : Option String

pub record RemoteRow : Type 0 where
  pub id : String
  pub account_id : ℕ
  pub provider_kind : Kind
  pub identity : IdentityColumns
  pub open identity use *
  pub remote_present : Bool
  pub identity_confidence : String
  pub provider_thread_id : Option String
  pub message_id_header : Option String
  pub first_seen_at : String
  pub last_seen_at : String

pub record LinkRow : Type 0 where
  pub remote_message_id : String
  pub canonical_message_id : String
  pub link_reason : String
  pub created_at : String

pub record ControlRow : Type 0 where
  pub canonical_message_id : String
  pub keep_online : Bool
  pub legal_hold : Bool
  pub reason : String
  pub updated_at : String

pub record RepositoryRow : Type 0 where
  pub id : ℕ
  pub repository_identity : Option String

pub record BackupRunRow : Type 0 where
  pub id : String
  pub repository_id : ℕ
  pub status : String
  pub verification_status : String
  pub verified_at : Option String

pub record EvidenceRow : Type 0 where
  pub canonical_message_id : String
  pub backup_run_id : String
  pub covered : Bool
  pub verified : Bool

pub record EvaluationRunRow : Type 0 where
  pub id : ℕ
  pub evaluated_at : String
  pub policy_version : String

pub record EvaluationRow : Type 0 where
  pub id : ℕ
  pub evaluation_run_id : ℕ
  pub remote_message_id : String
  pub canonical_message_id : Option String
  pub evaluated_at : String
  pub eligible : Bool
  pub reason_codes : List Reason
  pub policy_version : String
  pub remote_retention_days : Option ℕ
  pub required_verified_backups : ℕ
  pub verified_repository_count : ℕ
  pub retention_deadline : Option String

-- `remote_mutation_runs`
pub data Mode : Type 0 where
  dry_run fake_execute production_execute : Mode

pub data RunStatus : Type 0 where
  planned completed halted : RunStatus

pub record RunRow : Type 0 where
  pub id : ℕ
  pub requested_at : String
  pub completed_at : Option String
  pub mode : Mode
  pub status : RunStatus
  pub account_filter : Option String
  pub requested_limit : Option ℕ
  pub effective_max_per_run : ℕ
  pub effective_max_per_account : ℕ
  pub eligible_count : ℕ
  pub selected_count : ℕ
  pub skipped_limit_count : ℕ
  pub policy_version : String
  pub source_plan_run_id : Option ℕ
  pub authorization_method : Option String

-- `remote_mutations`
pub data Status : Type 0 where
  planned dry_run started succeeded failed unknown : Status

pub record MutationRow : Type 0 where
  pub id : ℕ
  pub mutation_run_id : ℕ
  pub deletion_evaluation_id : ℕ
  pub account_id : ℕ
  pub remote_message_id : String
  pub canonical_message_id : String
  pub provider_kind : Kind
  pub identity : IdentityColumns
  pub open identity use *
  pub canonical_sha256 : String
  pub target_fingerprint_sha256 : String
  pub is_dry_run : Bool
  pub requested_at : String
  pub started_at : Option String
  pub completed_at : Option String
  pub status : Status
  pub provider_response_summary : Option String
  pub error_code : Option String
  pub source_plan_mutation_id : Option ℕ
  pub reconciled_at : Option String

-- `details` is the JSON object of `details_json`.
pub record AuditEvent : Type 0 where
  pub timestamp : String
  pub actor : String
  pub event_type : String
  pub account_id : Option ℕ
  pub canonical_message_id : Option String
  pub result : String
  pub details : List (String × Json)

pub record Db : Type 0 where
  pub accounts : List AccountRow
  pub canonical_messages : List CanonicalRow
  pub remote_messages : List RemoteRow
  pub remote_canonical_links : List LinkRow
  pub retention_controls : List ControlRow
  pub backup_repositories : List RepositoryRow
  pub backup_runs : List BackupRunRow
  pub message_backup_evidence : List EvidenceRow
  pub deletion_evaluation_runs : List EvaluationRunRow
  pub deletion_evaluations : List EvaluationRow
  pub remote_mutation_runs : List RunRow
  pub remote_mutations : List MutationRow
  pub audit_events : List AuditEvent

-- The `INTEGER PRIMARY KEY` of the next row: one more than the largest.
unfoldable pub next_id {ℓ} : {A : Type ℓ} → (A → ℕ) → List A → ℕ
next_id id [] = 1
next_id id (row ∷ rows) = max (id row + 1) (next_id id rows)

-- `insert_audit_event`
unfoldable pub insert_audit_event : AuditEvent → Db → Db
insert_audit_event event db = record db { audit_events = db.audit_events ++ event ∷ [] }

abbrev pub mode_eq : Mode → Mode → Bool
mode_eq Mode.dry_run Mode.dry_run = Bool.true
mode_eq fake_execute fake_execute = Bool.true
mode_eq production_execute production_execute = Bool.true
mode_eq _ _ = Bool.false

abbrev pub run_status_eq : RunStatus → RunStatus → Bool
run_status_eq RunStatus.planned RunStatus.planned = Bool.true
run_status_eq completed completed = Bool.true
run_status_eq halted halted = Bool.true
run_status_eq _ _ = Bool.false

abbrev pub status_eq : Status → Status → Bool
status_eq Status.planned Status.planned = Bool.true
status_eq Status.dry_run Status.dry_run = Bool.true
status_eq started started = Bool.true
status_eq succeeded succeeded = Bool.true
status_eq failed failed = Bool.true
status_eq unknown unknown = Bool.true
status_eq _ _ = Bool.false

pub next_id_fresh {ℓ} :
    {A : Type ℓ} (id : A → ℕ) (rows : List A) → All (λ row. id row < next_id id rows) rows
unfolding next_id
next_id_fresh id [] = tt
next_id_fresh id (row ∷ rows) = (omega arith, weaken rows (next_id_fresh id rows))
  where
    weaken :
        (xs : _)
        → All (λ x. id x < next_id id rows) xs
        → All (λ x. id x < max (id row + 1) (next_id id rows)) xs
    weaken [] h = tt
    weaken (x ∷ xs) h = (omega arith, weaken xs h.1)

pub mode_eq_iff : (a b : Mode) → (mode_eq a b ≡ true) ↔ (a ≡ b)
mode_eq_iff Mode.dry_run Mode.dry_run = (λ _. refl, λ _. refl)
mode_eq_iff fake_execute fake_execute = (λ _. refl, λ _. refl)
mode_eq_iff production_execute production_execute = (λ _. refl, λ _. refl)
mode_eq_iff Mode.dry_run fake_execute = (λ h. cc, λ h. cc)
mode_eq_iff Mode.dry_run production_execute = (λ h. cc, λ h. cc)
mode_eq_iff fake_execute Mode.dry_run = (λ h. cc, λ h. cc)
mode_eq_iff fake_execute production_execute = (λ h. cc, λ h. cc)
mode_eq_iff production_execute Mode.dry_run = (λ h. cc, λ h. cc)
mode_eq_iff production_execute fake_execute = (λ h. cc, λ h. cc)

pub run_status_eq_iff : (a b : RunStatus) → (run_status_eq a b ≡ true) ↔ (a ≡ b)
run_status_eq_iff RunStatus.planned RunStatus.planned = (λ _. refl, λ _. refl)
run_status_eq_iff completed completed = (λ _. refl, λ _. refl)
run_status_eq_iff halted halted = (λ _. refl, λ _. refl)
run_status_eq_iff RunStatus.planned completed = (λ h. cc, λ h. cc)
run_status_eq_iff RunStatus.planned halted = (λ h. cc, λ h. cc)
run_status_eq_iff completed RunStatus.planned = (λ h. cc, λ h. cc)
run_status_eq_iff completed halted = (λ h. cc, λ h. cc)
run_status_eq_iff halted RunStatus.planned = (λ h. cc, λ h. cc)
run_status_eq_iff halted completed = (λ h. cc, λ h. cc)
