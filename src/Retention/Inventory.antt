-- ===== src/Retention/Inventory.antt =====
-- The query of `evaluate_all` in src/mailarchive/retention.py, and the facts that it collects for
-- a row.
use mailarchive.Base.{
  ℕ, Bool, true, false, not, ◌&&◌, ◌||◌, Option, none, some, String, List, [], ◌∷◌, ◌++◌, ltb, ◌==◌,
  str_eq, if◌then◌else◌, is_none,
}
use mailarchive.Base.Lists.{length, filter, any, find}
use mailarchive.Base.Sort.{text_lt, order_by}
use mailarchive.Host.{Host}
use mailarchive.Models.{Kind, imap, gmail, pop3, AppConfig, AccountConfig}
use mailarchive.Db.{
  Db, AccountRow, RemoteRow, LinkRow, CanonicalRow, ControlRow, EvidenceRow, BackupRunRow,
  RepositoryRow, IdentityColumns,
}
use mailarchive.Retention.Policy.{RetentionFacts}

-- One row of the query. An account, a link, a message and a control are found by their key.
pub record JoinedRow : Type 0 where
  pub remote : RemoteRow
  pub account : AccountRow
  pub canonical : Option CanonicalRow
  pub control : Option ControlRow
  pub link_count : ℕ
  pub verified_repositories : ℕ

unfoldable pub account_by_id : Db → ℕ → Option AccountRow
account_by_id db id = find (λ (a : AccountRow). a.id == id) db.accounts

unfoldable pub links_of : Db → String → List LinkRow
links_of db remote =
    filter (λ (l : LinkRow). str_eq l.remote_message_id remote) db.remote_canonical_links

unfoldable pub canonical_by_id : Db → String → Option CanonicalRow
canonical_by_id db id = find (λ (c : CanonicalRow). str_eq c.id id) db.canonical_messages

unfoldable pub canonical_of_links : Db → List LinkRow → Option CanonicalRow
canonical_of_links db [] = none
canonical_of_links db (l ∷ ls) = canonical_by_id db l.canonical_message_id

unfoldable pub control_of : Db → Option CanonicalRow → Option ControlRow
control_of db none = none
control_of db (some c) =
    find (λ (rc : ControlRow). str_eq rc.canonical_message_id c.id) db.retention_controls

-- `b.status='succeeded' AND b.verification_status='verified' AND b.verified_at IS NOT NULL`
unfoldable pub is_verified_run : BackupRunRow → Bool
is_verified_run b =
    str_eq b.status "succeeded"
    && str_eq b.verification_status "verified"
    && not (is_none b.verified_at)

repository_identity_of : Db → ℕ → Option String
repository_identity_of db id =
    elim (find (λ (r : RepositoryRow). r.id == id) db.backup_repositories) [
      | none ↦ none
      | some r ↦ r.repository_identity
    ]

-- The repository identity that a row of evidence contributes.
unfoldable pub evidence_identity : Db → EvidenceRow → Option String
unfolding repository_identity_of
evidence_identity db e =
    if e.covered && e.verified
    then elim (find (λ (b : BackupRunRow). str_eq b.id e.backup_run_id && is_verified_run b)
        db.backup_runs) [ none ↦ none | some b ↦ repository_identity_of db b.repository_id ]
    else none

-- `COUNT(DISTINCT …)`: a value is counted at its last row.
unfoldable pub add_distinct : Option String → List String → List String
add_distinct none seen = seen
add_distinct (some x) seen = if any (λ y. str_eq x y) seen then seen else x ∷ seen

unfoldable pub distinct : List (Option String) → List String
unfolding add_distinct
distinct [] = []
distinct (x ∷ xs) = add_distinct x (distinct xs)

identities_of : Db → LinkRow → List EvidenceRow → List (Option String)
identities_of db l [] = []
identities_of db l (e ∷ es) =
    (if str_eq e.canonical_message_id l.canonical_message_id then evidence_identity db e else none)
    ∷ identities_of db l es

unfoldable pub verified_identities : Db → List LinkRow → List (Option String)
unfolding identities_of
verified_identities db [] = []
verified_identities db (l ∷ ls) =
    identities_of db l db.message_backup_evidence ++ verified_identities db ls

join_row : Db → RemoteRow → AccountRow → JoinedRow
join_row db r a =
    let links = links_of db r.id in
    let canonical = canonical_of_links db links in
    record {
      remote = r;
      account = a;
      canonical = canonical;
      control = control_of db canonical;
      link_count = length links;
      verified_repositories = length (distinct (verified_identities db links));
    }

-- `JOIN accounts`, and the optional `WHERE a.name=?`
selected : Option String → AccountRow → Bool
selected none a = true
selected (some name) a = str_eq a.name name

join_rows : Db → Option String → List RemoteRow → List JoinedRow
unfolding join_row selected
join_rows db account [] = []
join_rows db account (r ∷ rs) =
    let rest = join_rows db account rs in
    elim (account_by_id db r.account_id) [
      | none ↦ rest
      | some a ↦ if selected account a then join_row db r a ∷ rest else rest
    ]

before : JoinedRow → JoinedRow → Bool
before x y =
    text_lt x.account.name y.account.name
    || str_eq x.account.name y.account.name && text_lt x.remote.id y.remote.id

unfoldable pub inventory : Db → Option String → List JoinedRow
unfolding join_rows before
inventory db account = order_by before (join_rows db account db.remote_messages)

module _ {W : Type 0} (host : Host W) where
  -- `row[key] is not None and str(row[key]) != ""` and `int(row[key] or 0) > 0`
  positive : Option ℕ → Bool
  positive none = false
  positive (some n) = ltb 0 n

  nonempty : Option String → Bool
  nonempty none = false
  nonempty (some s) = not (str_eq s "")

  nonblank : Option String → Bool
  nonblank none = false
  nonblank (some s) = not (str_eq (host.strip s) "")

  -- `_identity_complete`
  unfoldable pub identity_complete : Kind → IdentityColumns → Bool
  unfolding positive nonempty nonblank
  identity_complete imap row =
      nonempty row.remote_folder && positive row.uidvalidity && positive row.remote_uid
  identity_complete gmail row = nonblank row.provider_message_id
  identity_complete pop3 row = nonblank row.provider_message_id

  same_account : RemoteRow → Option CanonicalRow → Bool
  same_account r none = false
  same_account r (some c) = r.account_id == c.account_id

  held : (ControlRow → Bool) → Option ControlRow → Bool
  held field none = false
  held field (some rc) = field rc

  get : {A B : Type 0} → (A → B) → Option A → Option B
  get field none = none
  get field (some a) = some (field a)

  get_archived_at : Option CanonicalRow → Option String
  get_archived_at none = none
  get_archived_at (some c) = c.archived_at

  unfoldable pub facts_of : JoinedRow → RetentionFacts
  unfolding same_account held get get_archived_at
  facts_of row = record {
    remote_message_id = row.remote.id;
    account = row.account.name;
    account_enabled = row.account.enabled;
    provider_kind = some row.remote.provider_kind;
    account_kind = some row.account.kind;
    remote_present = row.remote.remote_present;
    identity_confidence = some row.remote.identity_confidence;
    identity_complete = identity_complete row.remote.provider_kind row.remote.identity;
    canonical_id = get (λ (c : CanonicalRow). c.id) row.canonical;
    link_count = row.link_count;
    link_account_coherent = same_account row.remote row.canonical;
    canonical_exists = not (is_none row.canonical);
    storage_state = get (λ (c : CanonicalRow). c.storage_state) row.canonical;
    archived_at = get_archived_at row.canonical;
    canonical_path = get (λ (c : CanonicalRow). c.local_path) row.canonical;
    expected_sha256 = get (λ (c : CanonicalRow). c.sha256) row.canonical;
    integrity_status = get (λ (c : CanonicalRow). c.integrity_status) row.canonical;
    verified_repository_count = row.verified_repositories;
    keep_online = held (λ (rc : ControlRow). rc.keep_online) row.control;
    legal_hold = held (λ (rc : ControlRow). rc.legal_hold) row.control;
  }

-- `next((a for a in config.accounts if a.name == name), None)`
unfoldable pub account_config : AppConfig → String → Option AccountConfig
account_config config name = find (λ (a : AccountConfig). str_eq a.name name) config.accounts

-- The retention days of the row's account, or the default where it is not configured.
unfoldable pub retention_days : AppConfig → String → Option ℕ
retention_days config name = elim (account_config config name) [
  | none ↦ some config.retention.remote_retention_days_default
  | some a ↦ a.remote_retention_days
]

unfoldable pub required_backups : AppConfig → String → ℕ
required_backups config name = elim (account_config config name) [
  | none ↦ config.retention.required_verified_backups_default
  | some a ↦ a.required_verified_backups
]
