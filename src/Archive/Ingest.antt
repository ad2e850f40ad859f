-- ===== src/Archive/Ingest.antt =====
-- `ingest_bytes` of src/mailarchive/ingest.py, on a database whose migrations were applied; `root` is
-- `config.archive.root`.
use mailarchive.Base.{
  ℕ, Bool, true, false, Option, none, some, String, List, [], ◌∷◌, ◌++◌, str_eq, if◌then◌else◌,
}
use mailarchive.Base.Lists.{find, length}
use mailarchive.Host.{Host, Bytes, Datetime, naive, aware, null, text}
use mailarchive.Models.{AccountConfig, StorageState}
use mailarchive.Db.{Db, CanonicalRow}
use mailarchive.Links.{active_account}
use mailarchive.Archive.Accounts.{initialize}
use mailarchive.Archive.Files.{Node, file, Files, lookup}
use mailarchive.Archive.Create.{
  Disk, reading, made, mismatch, os_error, Creation, create_canonical_file,
}
use mailarchive.Archive.Register.{
  canonical_by, Registered, stored, integrity_error, Audit, register_canonical_message,
}

-- Each `raise`: `IngestError`, an `OSError`, or SQLite's `IntegrityError`.
pub data Refusal : Type 0 where
  unknown_account disabled not_active corrupt_record path_escapes bad_destination : Refusal
  io_error constraint failed_check : Refusal

pub data Ingested : Type 0 where
  ingested : CanonicalRow → Bool → Ingested
  refused : Refusal → Ingested

pub record State : Type 0 where
  pub db : Db
  pub files : Files

-- What comes from Python's library: the headers `Message-ID` and `Date` of a parsed message, or
-- `none` where the parser raises; the date of a header; paths.
pub record Mail : Type 0 where
  pub headers : Bytes → Option (Option String × Option String)
  pub parsedate_to_datetime : String → Option Datetime
  -- `path.resolve()`, `path / part`, `f"{sha256}.eml"`, and whether `relative_to` returns
  pub resolve : String → String
  pub join : String → String → String
  pub eml : String → String
  pub is_below : String → String → Bool
  -- `f"{local_account_id}:{sha256}"`
  pub identifier : ℕ → String → String

module _ {W : Type 0} (host : Host W) (mail : Mail) (disk : Disk) (root : String) where
  -- `_maildir_path`
  unfoldable pub maildir_path : String → String → Option String
  maildir_path name sha256 =
      let mail_root = mail.resolve (mail.join root "staging") in
      let destination = mail.join (mail.join (mail.join mail_root name) "cur") (mail.eml sha256) in
      if mail.is_below (mail.resolve destination) mail_root then some destination else none

  date_of : Option String → Option String
  date_of none = none
  date_of (some header) = elim (str_eq header "") [
    | true ↦ none
    | false ↦ elim (mail.parsedate_to_datetime header) [
      | none ↦ none
      | some date ↦ elim date [ naive ↦ none | aware instant ↦ some (host.isoformat instant) ]
    ]
  ]

  -- `_metadata`
  unfoldable pub metadata : Bytes → Option String × Option String
  unfolding date_of
  metadata raw = elim (mail.headers raw) [
    | none ↦ (none, none)
    | some found ↦ (found.0, date_of found.1)
  ]

  -- `verify_canonical_message`; `none` is an `OSError`.
  unfoldable pub verify_node : String → Option Node → Files → Option Bool
  verify_node sha256 (some (file bytes)) files = elim (disk.fails reading files) [
    | true ↦ none
    | false ↦ some (str_eq (host.sha256 bytes) sha256)
  ]
  verify_node sha256 _ files = some false

  unfoldable pub verify_canonical_message : CanonicalRow → Files → Option Bool
  unfolding verify_node
  verify_canonical_message message files =
      verify_node message.sha256 (lookup message.local_path files) files

  -- After a check: an `OSError`, a failure, or what follows.
  unfoldable pub checked : Option Bool → Refusal → State → Ingested × State → Ingested × State
  checked none refusal s next = (refused io_error, s)
  checked (some false) refusal s next = (refused refusal, s)
  checked (some true) refusal s next = next

  unfoldable pub with_db : Db → State → State
  with_db db s = record s { db = db }

  -- The registration of a message that was found, which is not read again.
  unfoldable pub registered : Registered → State → Ingested × State
  registered (stored row created) s = (ingested row created, s)
  registered integrity_error s = (refused constraint, s)

  unfoldable pub reuse : CanonicalRow → Audit → State → Ingested × State
  unfolding registered with_db
  reuse existing audit s = checked (verify_canonical_message existing s.files) corrupt_record s (
      let out = register_canonical_message existing audit s.db in
      registered out.0 (with_db out.1 s))

  -- The registration of a new message, whose file is read once more.
  unfoldable pub confirmed : Registered → State → Ingested × State
  unfolding checked verify_canonical_message
  confirmed (stored row created) s =
      checked (verify_canonical_message row s.files) failed_check s (ingested row created, s)
  confirmed integrity_error s = (refused constraint, s)

  unfoldable pub admit : CanonicalRow → Audit → Creation → State → Ingested × State
  unfolding confirmed with_db
  admit candidate audit creation s = elim creation.outcome [
    | mismatch ↦ (refused bad_destination, record s { files = creation.files })
    | os_error ↦ (refused io_error, record s { files = creation.files })
    | made ↦
        let out = register_canonical_message candidate audit s.db in
        confirmed out.0 (record { db = out.1; files = creation.files })
  ]

  unfoldable pub candidate_of : ℕ → String → String → Bytes → String → CanonicalRow
  unfolding metadata
  candidate_of account sha256 path raw now = record {
    id = mail.identifier account sha256;
    account_id = account;
    sha256 = sha256;
    local_path = path;
    storage_state = StorageState.pending;
    archived_at = none;
    integrity_status = "verified";
    size_bytes = length raw;
    message_id_header = (metadata raw).0;
    message_date = (metadata raw).1;
    downloaded_at = now;
    quarantined_at = none;
    integrity_verified_at = some now;
    created_at = now;
  }

  unfoldable pub with_message_id : Option String → Audit → Audit
  with_message_id id audit = record audit {
    details =
        audit.details ++ ("message_id", elim id [ none ↦ null | some header ↦ text header ]) ∷ [];
  }

  unfoldable pub admit_at :
      ℕ → String → Bytes → Audit → String → Option String → State → Ingested × State
  unfolding admit candidate_of with_message_id metadata
  admit_at account sha256 raw audit now none s = (refused path_escapes, s)
  admit_at account sha256 raw audit now (some path) s =
      admit (candidate_of account sha256 path raw now) (with_message_id (metadata raw).0 audit)
        (create_canonical_file host disk path raw sha256 s.files) s

  unfoldable pub ingest_for :
      String → ℕ → Bytes → Audit → String → Option CanonicalRow → State → Ingested × State
  unfolding reuse admit_at maildir_path
  ingest_for name account raw audit now (some existing) s = reuse existing audit s
  ingest_for name account raw audit now none s =
      admit_at account (host.sha256 raw) raw audit now (maildir_path name (host.sha256 raw)) s

  unfoldable pub audit_of : ℕ → String → String → String → Audit
  audit_of account sha256 source_kind now = record {
    account = account;
    event_type = "ingest.succeeded";
    details = ("sha256", text sha256) ∷ ("source_kind", text source_kind) ∷ [];
    timestamp = now;
  }

  unfoldable pub ingest_active :
      String → Bytes → String → String → Option ℕ → State → Ingested × State
  unfolding ingest_for audit_of
  ingest_active name raw source_kind now none s = (refused not_active, s)
  ingest_active name raw source_kind now (some account) s =
      ingest_for name account raw (audit_of account (host.sha256 raw) source_kind now) now
        (canonical_by account (host.sha256 raw) s.db.canonical_messages) s

  unfoldable pub ingest_account :
      List AccountConfig
      → Bytes
      → String
      → String
      → String
      → Option AccountConfig
      → State
      → Ingested × State
  unfolding ingest_active with_db
  ingest_account accounts raw name source_kind now none s = (refused unknown_account, s)
  ingest_account accounts raw name source_kind now (some account) s = elim account.enabled [
    | false ↦ (refused disabled, s)
    | true ↦
        let ready = with_db (initialize accounts s.db) s in
        ingest_active name raw source_kind now (active_account name ready.db.accounts) ready
  ]

  unfoldable pub ingest_bytes :
      List AccountConfig → Bytes → String → String → String → State → Ingested × State
  unfolding ingest_account
  ingest_bytes accounts raw name source_kind now s =
      ingest_account accounts raw name source_kind now
        (find (λ (a : AccountConfig). str_eq a.name name) accounts) s
