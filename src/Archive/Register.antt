-- ===== src/Archive/Register.antt =====
-- `canonical_message_by_account_and_sha256` and `register_canonical_message` of
-- src/mailarchive/db.py.
use mailarchive.Base.{
  ℕ, ◌≡◌, refl, Bool, true, false, ◌&&◌, ◌||◌, Option, none, some, String, List, [], ◌∷◌, ◌++◌,
  arith, ◌⊎◌, inl, inr, ◌==◌, str_eq, eq_iff, str_eq_refl, if◌then◌else◌,
}
use mailarchive.Base.Lists.{any, find, find_sound}
use mailarchive.Host.{Json}
use mailarchive.Db.{Db, CanonicalRow, insert_audit_event}

abbrev pub has_bytes : ℕ → String → CanonicalRow → Bool
has_bytes account sha256 row = row.account_id == account && str_eq row.sha256 sha256

abbrev pub canonical_by : ℕ → String → List CanonicalRow → Option CanonicalRow
canonical_by account sha256 = find (has_bytes account sha256)

-- A registered message and whether it is new, or SQLite's `IntegrityError`.
pub data Registered : Type 0 where
  stored : CanonicalRow → Bool → Registered
  integrity_error : Registered

-- The audit event, for an account and with details.
pub record Audit : Type 0 where
  pub account : ℕ
  pub event_type : String
  pub details : List (String × Json)
  pub timestamp : String

ingest_event : Audit → Bool → String → Db → Db
ingest_event audit created id = insert_audit_event (record {
  timestamp = audit.timestamp;
  actor = "mailarchive.ingest";
  event_type = if created then audit.event_type else "ingest.reused";
  account_id = some audit.account;
  canonical_message_id = some id;
  result = "success";
  details = audit.details;
})

-- `id` is a primary key, and `local_path` unique.
abbrev pub clashes : CanonicalRow → CanonicalRow → Bool
clashes message row = str_eq row.id message.id || str_eq row.local_path message.local_path

unfoldable pub insert_canonical : CanonicalRow → Audit → Option CanonicalRow → Db → Registered × Db
unfolding ingest_event
insert_canonical message audit (some existing) db =
    (stored existing false, ingest_event audit false existing.id db)
insert_canonical message audit none db = elim (any (clashes message) db.canonical_messages) [
  | true ↦ (integrity_error, db)
  | false ↦ (
    stored message true,
    ingest_event audit true message.id
        (record db { canonical_messages = db.canonical_messages ++ message ∷ [] }),
  )
]

unfoldable pub register_canonical_message : CanonicalRow → Audit → Db → Registered × Db
unfolding insert_canonical
register_canonical_message message audit db =
    insert_canonical message audit
      (canonical_by message.account_id message.sha256 db.canonical_messages) db

find-append :
    (p : CanonicalRow → Bool) (rows : List CanonicalRow) (row : CanonicalRow)
    → find p rows ≡ none
    → p row ≡ true
    → find p (rows ++ row ∷ []) ≡ some row
find-append p [] row h k = ground arith
find-append p (r ∷ rows) row h k = ground (arith, find-append p rows row)

-- A registration, for a message's account and digest.
pub record IsKept (message : CanonicalRow) (db : Db) (row : CanonicalRow) (created : Bool)
    (after : Db) : Type 0 where
  pub account : row.account_id ≡ message.account_id
  pub digest : row.sha256 ≡ message.sha256
  pub found : canonical_by message.account_id message.sha256 after.canonical_messages ≡ some row
  pub first :
      ((canonical_by message.account_id message.sha256 db.canonical_messages ≡ none)
        × (row ≡ message)
        × (created ≡ true)
        × (after.canonical_messages ≡ db.canonical_messages ++ message ∷ []))
      ⊎ ((canonical_by message.account_id message.sha256 db.canonical_messages ≡ some row)
          × (created ≡ false)
          × (after.canonical_messages ≡ db.canonical_messages))
  pub links : after.remote_canonical_links ≡ db.remote_canonical_links
  pub accounts : after.accounts ≡ db.accounts

abbrev pub Keeps : CanonicalRow → Db → Registered → Db → Type 0
Keeps message db (stored row created) after = IsKept message db row created after
Keeps message db integrity_error after = after ≡ db

inserted :
    (message : CanonicalRow) (audit : Audit) (db : Db) (clash : Bool)
    → canonical_by message.account_id message.sha256 db.canonical_messages ≡ none
    → let out : Registered × Db = elim clash [
      | true ↦ (integrity_error, db)
      | false ↦ (
        stored message true,
        ingest_event audit true message.id
            (record db { canonical_messages = db.canonical_messages ++ message ∷ [] }),
      )
    ] in
      Keeps message db out.0 out.1
unfolding ingest_event insert_audit_event
inserted message audit db true h = refl
inserted message audit db false h = record {
  account = refl;
  digest = refl;
  found =
      find-append (has_bytes message.account_id message.sha256) db.canonical_messages message h
        (ground (arith, str_eq_refl message.sha256));
  first = inl (h, refl, refl, refl);
  links = refl;
  accounts = refl;
}

-- A registration returns the row of the message's account and digest, which is the one found from
-- then on: the row that was there before, reported as not new, with no row added; or, where there
-- was none, the message itself, reported as new and added as the last row. No link and no account
-- changes. Where SQLite refuses the row, nothing is changed.
pub register_canonical_message-Keeps :
    (message : CanonicalRow) (audit : Audit) (db : Db)
    → let out = register_canonical_message message audit db in Keeps message db out.0 out.1
unfolding register_canonical_message insert_canonical ingest_event insert_audit_event
register_canonical_message-Keeps message audit db =
    cases (canonical_by message.account_id message.sha256 db.canonical_messages) refl
  where
    cases :
        (o : Option CanonicalRow)
        → canonical_by message.account_id message.sha256 db.canonical_messages ≡ o
        → let out = insert_canonical message audit o db in Keeps message db out.0 out.1
    cases none h = inserted message audit db (any (clashes message) db.canonical_messages) h
    cases (some row) h =
        let fits =
          find_sound (has_bytes message.account_id message.sha256) db.canonical_messages row h in
        record {
          account = ground arith;
          digest = ground (arith, eq_iff row.sha256 message.sha256);
          found = h;
          first = inr (h, refl, refl);
          links = refl;
          accounts = refl;
        }
