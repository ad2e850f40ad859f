-- ===== src/Archive/Laws.antt =====
-- What `ingest_bytes` of src/mailarchive/ingest.py has done when it returns.
use mailarchive.Base.{
  ℕ, ◌≡◌, refl, sym, ap, ◌∙◌, Bool, true, false, Option, none, some, String, List, arith, inl, inr,
  str_eq, eq_iff, Bool-cases,
}
use mathlib.Core.Path.{subst}
use mailarchive.Base.Lists.{find, find_sound}
use mailarchive.Host.{Host, Bytes}
use mailarchive.Models.{AccountConfig}
use mailarchive.Db.{Db, CanonicalRow}
use mailarchive.Links.{active_account}
use mailarchive.Archive.Accounts.{reconciled_accounts, initialize}
use mailarchive.Archive.Files.{Node, file, other, Files, lookup}
use mailarchive.Archive.Create.{
  Disk, reading, Made, made, mismatch, os_error, Creation, create_canonical_file,
}
use mailarchive.Archive.Register.{
  has_bytes, canonical_by, Registered, stored, integrity_error, Audit, register_canonical_message,
  Keeps, IsKept, register_canonical_message-Keeps,
}
use mailarchive.Archive.Ingest.{
  Refusal, unknown_account, not_active, path_escapes, constraint, failed_check, io_error,
  bad_destination, disabled, corrupt_record, Ingested, ingested, refused, State, Mail, verify_node,
  verify_canonical_message, checked, with_db, registered, reuse, confirmed, admit, candidate_of,
  admit_at, ingest_for, audit_of, ingest_active, ingest_account, ingest_bytes,
}

module _ {W : Type 0} (host : Host W) (mail : Mail) (disk : Disk) (root : String) where
  -- After the account rows were brought up to date: an `OSError` of the last check, or its failure,
  -- comes after the registration.
  abbrev Unchanged : Refusal → Db → Db → Type 0
  Unchanged failed_check db after = Unit
  Unchanged io_error db after = Unit
  Unchanged unknown_account db after = ⊥
  Unchanged disabled db after = ⊥
  Unchanged _ db after = after ≡ db

  -- A returned message has the digest of the bytes, it is the one that the database has for its
  -- account and digest, and at its path stands a regular file with this digest. A refusal other than
  -- those leaves the database as it was.
  abbrev IsAdmitted : Option ℕ → Bytes → State → Ingested × State → Type 0
  IsAdmitted o raw s (ingested row created, t) =
      (o ≡ some row.account_id)
      × (row.sha256 ≡ host.sha256 raw)
      × (canonical_by row.account_id row.sha256 t.db.canonical_messages ≡ some row)
      × ((bytes : Bytes) × (lookup row.local_path t.files ≡ some (file bytes))
          × (host.sha256 bytes ≡ host.sha256 raw))
  IsAdmitted o raw s (refused why, t) = Unchanged why s.db t.db

  verify_node-some :
      (sha256 : String) (node : Option Node) (files : Files)
      → verify_node host mail disk root sha256 node files ≡ some true
      → (bytes : Bytes) × (node ≡ some (file bytes)) × (host.sha256 bytes ≡ sha256)
  unfolding verify_node
  verify_node-some sha256 none files h = cc h
  verify_node-some sha256 (some other) files h = cc h
  verify_node-some sha256 (some (file bytes)) files h =
      elim (Bool-cases (disk.fails reading files)) [
        | inl e ↦ cc (e, h)
        | inr e ↦
            let same : str_eq (host.sha256 bytes) sha256 ≡ true = cc (e, h) in
            (bytes, refl, (eq_iff (host.sha256 bytes) sha256).0 same)
      ]

  checked-IsAdmitted :
      (account : Option ℕ) (raw : Bytes) (s t : State) (o : Option Bool) (why : Refusal)
      (next : Ingested × State)
      → Unchanged why s.db t.db
      → (o ≡ some true → IsAdmitted account raw s next)
      → IsAdmitted account raw s (checked host mail disk root o why t next)
  unfolding checked
  checked-IsAdmitted _ raw s t none why next h r = tt
  checked-IsAdmitted _ raw s t (some false) why next h r = h
  checked-IsAdmitted _ raw s t (some true) why next h r = r refl

  verified :
      (raw : Bytes) (row : CanonicalRow) (files : Files)
      → row.sha256 ≡ host.sha256 raw
      → verify_canonical_message host mail disk root row files ≡ some true
      → (bytes : Bytes) × (lookup row.local_path files ≡ some (file bytes))
        × (host.sha256 bytes ≡ host.sha256 raw)
  unfolding verify_canonical_message
  verified raw row files digest h =
      let (bytes, e, f) = verify_node-some row.sha256 (lookup row.local_path files) files h in
      (bytes, e, f ∙ digest)

  kept_found :
      (message : CanonicalRow) (db : Db) (row : CanonicalRow) (created : Bool) (after : Db)
      → IsKept message db row created after
      → canonical_by row.account_id row.sha256 after.canonical_messages ≡ some row
  kept_found message db row created after kept =
      ap (λ a. canonical_by a row.sha256 after.canonical_messages) kept.account
      ∙ ap (λ d. canonical_by message.account_id d after.canonical_messages) kept.digest
      ∙ kept.found

  kept_same :
      (message : CanonicalRow) (db : Db) (row : CanonicalRow) (created : Bool) (after : Db)
      → IsKept message db row created after
      → canonical_by message.account_id message.sha256 db.canonical_messages ≡ some message
      → row ≡ message
  kept_same message db row created after kept h = elim kept.first [
    | inl new ↦ cc (new.0, h)
    | inr old ↦ cc (old.0, h)
  ]

  registered-IsAdmitted :
      (raw : Bytes) (s : State) (existing : CanonicalRow) (r : Registered) (after : Db)
      → existing.sha256 ≡ host.sha256 raw
      → canonical_by existing.account_id existing.sha256 s.db.canonical_messages ≡ some existing
      → verify_canonical_message host mail disk root existing s.files ≡ some true
      → Keeps existing s.db r after
      → IsAdmitted
          (some existing.account_id)
          raw
          s
          (registered host mail disk root r (with_db host mail disk root after s))
  unfolding registered with_db
  registered-IsAdmitted raw s existing (stored row created) after digest found fine kept =
      let same = kept_same existing s.db row created after kept found in
      (
        ap some (sym kept.account),
        kept.digest ∙ digest,
        kept_found existing s.db row created after kept,
        rw same (verified raw existing s.files digest fine),
      )
  registered-IsAdmitted raw s existing integrity_error after digest found fine kept = kept

  confirmed-IsAdmitted :
      (raw : Bytes) (s : State) (candidate : CanonicalRow) (r : Registered) (after : Db)
      (files : Files)
      → candidate.sha256 ≡ host.sha256 raw
      → Keeps candidate s.db r after
      → IsAdmitted
          (some candidate.account_id)
          raw
          s
          (confirmed host mail disk root r (record { db = after; files = files }))
  unfolding confirmed
  confirmed-IsAdmitted raw s candidate (stored row created) after files digest kept =
      checked-IsAdmitted _ raw s (record { db = after; files = files })
        (verify_canonical_message host mail disk root row files) failed_check _ tt
        λ fine. (
          ap some (sym kept.account),
          kept.digest ∙ digest,
          kept_found candidate s.db row created after kept,
          verified raw row files (kept.digest ∙ digest) fine,
        )
  confirmed-IsAdmitted raw s candidate integrity_error after files digest kept = kept

  reuse-IsAdmitted :
      (raw : Bytes) (s : State) (existing : CanonicalRow) (audit : Audit)
      → existing.sha256 ≡ host.sha256 raw
      → canonical_by existing.account_id existing.sha256 s.db.canonical_messages ≡ some existing
      → IsAdmitted (some existing.account_id) raw s (reuse host mail disk root existing audit s)
  unfolding reuse
  reuse-IsAdmitted raw s existing audit digest found =
      let out = register_canonical_message existing audit s.db in
      checked-IsAdmitted _ raw s s (verify_canonical_message host mail disk root existing s.files)
        corrupt_record _ refl
        λ fine.
          registered-IsAdmitted raw s existing out.0 out.1 digest found fine
            (register_canonical_message-Keeps existing audit s.db)

  admit-IsAdmitted :
      (raw : Bytes) (s : State) (candidate : CanonicalRow) (audit : Audit) (creation : Creation)
      → candidate.sha256 ≡ host.sha256 raw
      → IsAdmitted
          (some candidate.account_id)
          raw
          s
          (admit host mail disk root candidate audit creation s)
  unfolding admit
  admit-IsAdmitted raw s candidate audit creation digest = after creation.outcome
    where
      out : Registered × Db
      out = register_canonical_message candidate audit s.db

      after :
          (outcome : Made)
          → IsAdmitted (some candidate.account_id) raw s (elim outcome [
            | mismatch ↦ (refused bad_destination, record s { files = creation.files })
            | os_error ↦ (refused io_error, record s { files = creation.files })
            | made ↦
                confirmed host mail disk root out.0 (record { db = out.1; files = creation.files })
          ])
      after mismatch = refl
      after os_error = tt
      after made =
          confirmed-IsAdmitted raw s candidate out.0 out.1 creation.files digest
            (register_canonical_message-Keeps candidate audit s.db)

  admit_at-IsAdmitted :
      (account : ℕ) (raw : Bytes) (audit : Audit) (now : String) (path : Option String) (s : State)
      → IsAdmitted
          (some account)
          raw
          s
          (admit_at host mail disk root account (host.sha256 raw) raw audit now path s)
  unfolding admit_at candidate_of
  admit_at-IsAdmitted account raw audit now none s = refl
  admit_at-IsAdmitted account raw audit now (some path) s =
      admit-IsAdmitted raw s _ _
        (create_canonical_file host disk path raw (host.sha256 raw) s.files) refl

  ingest_for-IsAdmitted :
      (name : String) (account : ℕ) (raw : Bytes) (audit : Audit) (now : String)
      (o : Option CanonicalRow) (s : State)
      → canonical_by account (host.sha256 raw) s.db.canonical_messages ≡ o
      → IsAdmitted
          (some account)
          raw
          s
          (ingest_for host mail disk root name account raw audit now o s)
  unfolding ingest_for
  ingest_for-IsAdmitted name account raw audit now none s h =
      admit_at-IsAdmitted account raw audit now _ s
  ingest_for-IsAdmitted name account raw audit now (some existing) s h =
      let fits =
        find_sound (has_bytes account (host.sha256 raw)) s.db.canonical_messages existing h in
      let mine : existing.account_id ≡ account = ground arith in
      let digest : existing.sha256 ≡ host.sha256 raw =
        ground (arith, eq_iff existing.sha256 (host.sha256 raw)) in
      subst (λ a. IsAdmitted (some a) raw s (reuse host mail disk root existing audit s)) mine
        (reuse-IsAdmitted raw s existing audit digest (
          ap (λ a. canonical_by a existing.sha256 s.db.canonical_messages) mine
          ∙ ap (λ d. canonical_by account d s.db.canonical_messages) digest
          ∙ h))

  ingest_active-IsAdmitted :
      (name : String) (raw : Bytes) (source_kind now : String) (o : Option ℕ) (s : State)
      → IsAdmitted o raw s (ingest_active host mail disk root name raw source_kind now o s)
  unfolding ingest_active
  ingest_active-IsAdmitted name raw source_kind now none s = refl
  ingest_active-IsAdmitted name raw source_kind now (some account) s =
      ingest_for-IsAdmitted name account raw
        (audit_of host mail disk root account (host.sha256 raw) source_kind now) now _ s refl

  -- What a refusal leaves of the database: all of it, where the configuration refuses the account;
  -- else all but the account rows, which are those that `initialize` makes of the configuration;
  -- and after an `OSError` or the failure of the last check, the registration may be there too.
  abbrev pub Leaves : Refusal → List AccountConfig → Db → Db → Type 0
  Leaves failed_check accounts db after = Unit
  Leaves io_error accounts db after = Unit
  Leaves unknown_account accounts db after = after ≡ db
  Leaves disabled accounts db after = after ≡ db
  Leaves _ accounts db after =
      after ≡ record db { accounts = reconciled_accounts accounts db.accounts }

  abbrev pub IsArchived : List AccountConfig → String → Bytes → State → Ingested × State → Type 0
  IsArchived accounts name raw s (ingested row created, t) =
      (active_account name (reconciled_accounts accounts s.db.accounts) ≡ some row.account_id)
      × (row.sha256 ≡ host.sha256 raw)
      × (canonical_by row.account_id row.sha256 t.db.canonical_messages ≡ some row)
      × ((bytes : Bytes) × (lookup row.local_path t.files ≡ some (file bytes))
          × (host.sha256 bytes ≡ host.sha256 raw))
  IsArchived accounts name raw s (refused why, t) = Leaves why accounts s.db t.db

  admitted-IsArchived :
      (accounts : List AccountConfig) (name : String) (raw : Bytes) (s : State)
      (out : Ingested × State)
      → IsAdmitted
          (active_account name (reconciled_accounts accounts s.db.accounts))
          raw
          (with_db host mail disk root (initialize accounts s.db) s)
          out
      → IsArchived accounts name raw s out
  unfolding with_db initialize
  admitted-IsArchived accounts name raw s (ingested row created, t) h = h
  admitted-IsArchived accounts name raw s (refused unknown_account, t) h = absurd h
  admitted-IsArchived accounts name raw s (refused disabled, t) h = absurd h
  admitted-IsArchived accounts name raw s (refused failed_check, t) h = tt
  admitted-IsArchived accounts name raw s (refused io_error, t) h = tt
  admitted-IsArchived accounts name raw s (refused not_active, t) h = h
  admitted-IsArchived accounts name raw s (refused corrupt_record, t) h = h
  admitted-IsArchived accounts name raw s (refused path_escapes, t) h = h
  admitted-IsArchived accounts name raw s (refused bad_destination, t) h = h
  admitted-IsArchived accounts name raw s (refused constraint, t) h = h

  ingest_account-IsArchived :
      (accounts : List AccountConfig) (raw : Bytes) (name source_kind now : String)
      (o : Option AccountConfig) (s : State)
      → IsArchived accounts name raw s
          (ingest_account host mail disk root accounts raw name source_kind now o s)
  unfolding ingest_account initialize with_db
  ingest_account-IsArchived accounts raw name source_kind now none s = refl
  ingest_account-IsArchived accounts raw name source_kind now (some account) s =
      enabled account.enabled
    where
      ready : State
      ready = with_db host mail disk root (initialize accounts s.db) s

      enabled :
          (b : Bool)
          → IsArchived accounts name raw s (elim b [
            | false ↦ (refused disabled, s)
            | true ↦
                ingest_active host mail disk root name raw source_kind now
                  (active_account name ready.db.accounts)
                  ready
          ])
      enabled false = refl
      enabled true = admitted-IsArchived accounts name raw s _ (
          ingest_active-IsAdmitted name raw source_kind now (active_account name ready.db.accounts)
            ready)

  -- Whatever the disk and other processes do, on a database whose migrations were applied: where
  -- `ingest_bytes` returns a message, the message has the digest of the given bytes and the id of
  -- the account that is active under the given name once the account rows follow the configuration;
  -- the database has it for its account and digest; and a regular file with this digest stands at
  -- its path. Where it refuses an account that is not configured or not enabled, the database is as
  -- it was before. Where it raises anything else but the failure of its last check or an `OSError`,
  -- it is so but for the account rows, which are those that `initialize` makes of the configuration.
  pub ingest_bytes-IsArchived :
      (accounts : List AccountConfig) (raw : Bytes) (name source_kind now : String) (s : State)
      → IsArchived accounts name raw s
          (ingest_bytes host mail disk root accounts raw name source_kind now s)
  unfolding ingest_bytes
  ingest_bytes-IsArchived accounts raw name source_kind now s =
      ingest_account-IsArchived accounts raw name source_kind now
        (find (λ (a : AccountConfig). str_eq a.name name) accounts) s
