-- ===== src/Links.antt =====
-- The registration of acquired messages: `register_remote_link` of src/mailarchive/imap.py and
-- `register_pop3_link` of src/mailarchive/pop3.py, and what synchronization reads and refreshes of
-- `remote_messages`.
pub mod Identity
pub mod Refines
pub mod Registers
use mailarchive.Base.{
  ℕ, Bool, true, false, not, ◌&&◌, Option, none, some, String, List, [], ◌∷◌, ◌++◌, ◌==◌, str_eq,
  if◌then◌else◌,
}
use mailarchive.Base.Lists.{any, find, filter}
use mailarchive.Base.Rows.{update_where}
use mailarchive.Host.{Json, num, text}
use mailarchive.Models.{Kind, kind_eq}
use mailarchive.Db.{
  Db, AccountRow, CanonicalRow, RemoteRow, LinkRow, IdentityColumns, AuditEvent, insert_audit_event,
}

-- `account_id` of src/mailarchive/db.py
unfoldable pub active_account : String → List AccountRow → Option ℕ
active_account name rows = elim (find (λ (a : AccountRow). str_eq a.name name && a.enabled) rows) [
  | none ↦ none
  | some a ↦ some a.id
]

-- What a registration returns: nothing; the error for another canonical message under the same
-- identity; the error for an account that is not active; SQLite's `IntegrityError`.
pub data Linked : Type 0 where
  linked conflict not_active integrity_error : Linked

-- A test of one identity, as the `WHERE` of the statements has it.
abbrev pub Key : Type 0
Key = RemoteRow → Bool

abbrev pub holds : {A : Type 0} → (A → Bool) → Option A → Bool
holds p none = false
holds p (some a) = p a

unfoldable pub pop3_key : ℕ → String → Key
pop3_key account uidl row =
    row.account_id == account
    && kind_eq row.provider_kind Kind.pop3
    && holds (str_eq uidl) row.provider_message_id

unfoldable pub imap_key : ℕ → String → ℕ → ℕ → Key
imap_key account folder uidvalidity uid row =
    row.account_id == account
    && kind_eq row.provider_kind Kind.imap
    && holds (str_eq folder) row.remote_folder
    && holds (λ n. n == uidvalidity) row.uidvalidity
    && holds (λ n. n == uid) row.remote_uid

-- `DO UPDATE SET last_seen_at=excluded.last_seen_at, remote_present=1`
abbrev pub seen : String → RemoteRow → RemoteRow
seen now row = record row { remote_present = true; last_seen_at = now }

-- `INSERT … ON CONFLICT … DO UPDATE`; `none` is a second row with the id of the first.
unfoldable pub upsert : Key → RemoteRow → List RemoteRow → Option (List RemoteRow)
upsert key fresh rows = elim (any key rows) [
  | true ↦ some (update_where key (seen fresh.last_seen_at) rows)
  | false ↦ elim (any (λ (r : RemoteRow). str_eq r.id fresh.id) rows) [
    | true ↦ none
    | false ↦ some (rows ++ fresh ∷ [])
  ]
]

unfoldable pub remote_id : Key → List RemoteRow → Option String
remote_id key rows = elim (find key rows) [ none ↦ none | some r ↦ some r.id ]

unfoldable pub canonical_of : String → List LinkRow → Option String
canonical_of id links = elim (find (λ (l : LinkRow). str_eq l.remote_message_id id) links) [
  | none ↦ none
  | some l ↦ some l.canonical_message_id
]

-- `INSERT OR IGNORE`, or the conflict, given the canonical message that is linked now.
unfoldable pub insert_link : LinkRow → Option String → List LinkRow → Option (List LinkRow)
insert_link link none links = some (links ++ link ∷ [])
insert_link link (some canonical) links =
    if str_eq canonical link.canonical_message_id then some links else none

abbrev pub link_to : String → String → String → String → LinkRow
link_to remote canonical reason now = record {
  remote_message_id = remote;
  canonical_message_id = canonical;
  link_reason = reason;
  created_at = now;
}

unfoldable pub commit_link : (Db → Db) → (Db → Db) → Option (List LinkRow) → Db → Linked × Db
commit_link written refused none db = (conflict, refused db)
commit_link written refused (some links) db =
    (linked, written (record db { remote_canonical_links = links }))

-- After the upsert: the id that the key selects, the link, and an event where one is written.
unfoldable pub link_row :
    CanonicalRow → String → String → (Db → Db) → (Db → Db) → Option String → Db → Linked × Db
unfolding insert_link commit_link
link_row canonical reason now written refused none db = (integrity_error, db)
link_row canonical reason now written refused (some id) db =
    commit_link written refused
      (insert_link (link_to id canonical.id reason now) (canonical_of id db.remote_canonical_links)
        db.remote_canonical_links)
      db

-- The transaction that both registrations share: `written` and `refused` append their events.
unfoldable pub register_link :
    Key → RemoteRow → CanonicalRow → String → (Db → Db) → (Db → Db) → Db → Linked × Db
unfolding upsert remote_id link_row
register_link key fresh canonical reason written refused db =
    elim (upsert key fresh db.remote_messages) [
      | none ↦ (integrity_error, db)
      | some rows ↦
          link_row canonical reason fresh.last_seen_at written refused (remote_id key rows)
            (record db { remote_messages = rows })
    ]

unfoldable pub fresh_row : String → ℕ → Kind → IdentityColumns → CanonicalRow → String → RemoteRow
fresh_row id account kind identity canonical now = record {
  id = id;
  account_id = account;
  provider_kind = kind;
  identity = identity;
  remote_present = true;
  identity_confidence = "proven";
  provider_thread_id = none;
  message_id_header = canonical.message_id_header;
  first_seen_at = now;
  last_seen_at = now;
}

unfoldable pub event :
    String → String → String → Option String → ℕ → String → List (String × Json) → Db → Db
event actor kind result canonical account now details = insert_audit_event (record {
  timestamp = now;
  actor = actor;
  event_type = kind;
  account_id = some account;
  canonical_message_id = canonical;
  result = result;
  details = details;
})

-- Where `account_id` is the account of the canonical message.
unfoldable pub for_account : Option ℕ → CanonicalRow → (ℕ → Linked × Db) → Db → Linked × Db
for_account none canonical register db = (not_active, db)
for_account (some account) canonical register db = elim (account == canonical.account_id) [
  | true ↦ register account
  | false ↦ (not_active, db)
]

-- `remote_id` of the code, an f-string over a SHA-256, from the account and the identity.
pub record Ids : Type 0 where
  pub pop3_id : ℕ → String → String
  pub imap_id : ℕ → String → ℕ → ℕ → String

module _ (ids : Ids) where
  unfoldable pub pop3_row : ℕ → String → CanonicalRow → String → RemoteRow
  unfolding fresh_row
  pop3_row account uidl canonical now =
      fresh_row (ids.pop3_id account uidl) account Kind.pop3
        (record {
          remote_folder = none;
          uidvalidity = none;
          remote_uid = none;
          provider_message_id = some uidl;
        })
        canonical now

  unfoldable pub register_pop3_link :
      String → String → CanonicalRow → String → String → Db → Linked × Db
  unfolding register_link pop3_key pop3_row for_account event active_account
  register_pop3_link name uidl canonical now later db =
      for_account (active_account name db.accounts) canonical
        (λ account.
          register_link (pop3_key account uidl) (pop3_row account uidl canonical now) canonical
            "pop3-uidl-retr" (λ d. d)
            (event "mailarchive.pop3" "pop3.remote_link.failed" "conflict" none account later
              (("uidl", text uidl) ∷ []))
            db)
        db

  unfoldable pub imap_row : ℕ → String → ℕ → ℕ → CanonicalRow → String → RemoteRow
  unfolding fresh_row
  imap_row account folder uidvalidity uid canonical now =
      fresh_row (ids.imap_id account folder uidvalidity uid) account Kind.imap
        (record {
          remote_folder = some folder;
          uidvalidity = some uidvalidity;
          remote_uid = some uid;
          provider_message_id = none;
        })
        canonical now

  unfoldable pub imap_details : String → ℕ → ℕ → List (String × Json)
  imap_details folder uidvalidity uid =
      ("folder", text folder) ∷ ("uid", num uid) ∷ ("uidvalidity", num uidvalidity) ∷ []

  -- `now` is `observed_at or utc_now()`, `later` the clock of the audit event.
  unfoldable pub register_remote_link :
      String → String → ℕ → ℕ → CanonicalRow → String → String → Db → Linked × Db
  unfolding register_link imap_key imap_row for_account event active_account imap_details
  register_remote_link name folder uidvalidity uid canonical now later db =
      for_account (active_account name db.accounts) canonical
        (λ account.
          register_link (imap_key account folder uidvalidity uid)
            (imap_row account folder uidvalidity uid canonical now) canonical "imap-uid-body-peek"
            (event "mailarchive.imap" "imap.remote_link.created" "success" (some canonical.id)
              account later (imap_details folder uidvalidity uid))
            (event "mailarchive.imap" "imap.remote_link.failed" "conflict" none account later
              (imap_details folder uidvalidity uid))
            db)
        db

-- `_linked_uidls`: the UIDLs of proven, linked messages.
is_linked : List LinkRow → RemoteRow → Bool
is_linked links row = any (λ (l : LinkRow). str_eq l.remote_message_id row.id) links

unfoldable pub linked_uidls : ℕ → Db → List (Option String)
unfolding is_linked
linked_uidls account db = uidls_of (
    filter
      (λ (r : RemoteRow).
        r.account_id == account
        && kind_eq r.provider_kind Kind.pop3
        && str_eq r.identity_confidence "proven"
        && is_linked db.remote_canonical_links r)
      db.remote_messages)
  where
    uidls_of : List RemoteRow → List (Option String)
    uidls_of [] = []
    uidls_of (r ∷ rows) = r.provider_message_id ∷ uidls_of rows
