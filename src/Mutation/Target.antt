-- ===== src/Mutation/Target.antt =====
-- `DeletionTarget` and its subclasses, their fingerprint, and `_target`, of
-- src/mailarchive/remote_mutation.py.
use mailarchive.Base.{ℕ, ◌≡◌, refl, Option, none, some, String, List, [], ◌∷◌, arith, eq_iff}
use mailarchive.Errors.{Outcome, ok, raised, int_of_none, ◌>>=◌, >>=-eq-ok}
use mailarchive.Host.{Host, Json, num, text}
use mailarchive.Models.{Kind, imap, gmail, pop3}
use mailarchive.Db.{IdentityColumns}

-- The fields that `ImapDeletionTarget` and `ProviderDeletionTarget` add.
pub data Identity : Type 0 where
  imap_identity : String → ℕ → ℕ → Identity
  provider_identity : String → Identity

pub record DeletionTarget : Type 0 where
  pub remote_message_id : String
  pub canonical_message_id : String
  pub account_id : ℕ
  pub account_name : String
  pub provider_kind : Kind
  pub canonical_sha256 : String
  pub identity : Identity

unfoldable pub kind_text : Kind → String
kind_text imap = "imap"
kind_text gmail = "gmail"
kind_text pop3 = "pop3"

unfoldable pub identity_facts : Identity → List (String × Json)
identity_facts (imap_identity folder uidvalidity uid) =
    ("folder", text folder) ∷ ("uidvalidity", num uidvalidity) ∷ ("uid", num uid) ∷ []
identity_facts (provider_identity id) = ("provider_message_id", text id) ∷ []

unfoldable pub payload : DeletionTarget → List (String × Json)
unfolding identity_facts
payload t =
    ("format_version", num 1)
    ∷ ("account_id", num t.account_id)
    ∷ ("provider_kind", text (kind_text t.provider_kind))
    ∷ ("remote_message_id", text t.remote_message_id)
    ∷ ("canonical_message_id", text t.canonical_message_id)
    ∷ ("canonical_sha256", text t.canonical_sha256)
    ∷ identity_facts t.identity

unfoldable pub fingerprint : {W : Type 0} → Host W → DeletionTarget → String
fingerprint host t = host.sha256 (host.dumps (payload t))

-- `str(value)`
unfoldable pub str_of : Option String → String
str_of none = "None"
str_of (some s) = s

-- `int(value)`
unfoldable pub int_of : Option ℕ → Outcome ℕ
int_of none = raised int_of_none
int_of (some n) = ok n

unfoldable pub identity_of : Kind → IdentityColumns → Outcome Identity
unfolding str_of int_of
identity_of imap row = do
  uidvalidity ← int_of row.uidvalidity
  uid ← int_of row.remote_uid
  ok (imap_identity (str_of row.remote_folder) uidvalidity uid)
identity_of gmail row = ok (provider_identity (str_of row.provider_message_id))
identity_of pop3 row = ok (provider_identity (str_of row.provider_message_id))

-- `_target`, on the columns of the row that a query returned.
unfoldable pub target_of :
    String → String → ℕ → String → Kind → String → IdentityColumns → Outcome DeletionTarget
unfolding identity_of
target_of remote canonical account name kind sha256 columns = do
  identity ← identity_of kind columns
  ok (record {
    remote_message_id = remote;
    canonical_message_id = canonical;
    account_id = account;
    account_name = name;
    provider_kind = kind;
    canonical_sha256 = sha256;
    identity = identity;
  })

-- `getattr(target, "remote_folder", None)` and the other three
unfoldable pub columns_of : Identity → IdentityColumns
columns_of (imap_identity folder uidvalidity uid) = record {
  remote_folder = some folder;
  uidvalidity = some uidvalidity;
  remote_uid = some uid;
  provider_message_id = none;
}
columns_of (provider_identity id) = record {
  remote_folder = none;
  uidvalidity = none;
  remote_uid = none;
  provider_message_id = some id;
}

kind_text-injective : (a b : Kind) → kind_text a ≡ kind_text b → a ≡ b
unfolding kind_text
kind_text-injective imap imap h = refl
kind_text-injective imap gmail h = cc ((eq_iff "imap" "gmail").1 h)
kind_text-injective imap pop3 h = cc ((eq_iff "imap" "pop3").1 h)
kind_text-injective gmail imap h = cc ((eq_iff "gmail" "imap").1 h)
kind_text-injective gmail gmail h = refl
kind_text-injective gmail pop3 h = cc ((eq_iff "gmail" "pop3").1 h)
kind_text-injective pop3 imap h = cc ((eq_iff "pop3" "imap").1 h)
kind_text-injective pop3 gmail h = cc ((eq_iff "pop3" "gmail").1 h)
kind_text-injective pop3 pop3 h = refl

identity_facts-injective : (a b : Identity) → identity_facts a ≡ identity_facts b → a ≡ b
unfolding identity_facts
identity_facts-injective (imap_identity f v u) (imap_identity f' v' u') h = ground arith
identity_facts-injective (imap_identity f v u) (provider_identity i) h = ground arith
identity_facts-injective (provider_identity i) (imap_identity f v u) h = ground arith
identity_facts-injective (provider_identity i) (provider_identity i') h = ground arith

-- The account's name is not part of the payload; all else is.
pub payload-injective :
    (a b : DeletionTarget) → a.account_name ≡ b.account_name → payload a ≡ payload b → a ≡ b
unfolding payload
payload-injective a b n h = ground (
  arith,
  kind_text-injective a.provider_kind b.provider_kind,
  identity_facts-injective a.identity b.identity,
)

-- If SHA-256 and the JSON text tell the two payloads apart, then targets of one account with one
-- fingerprint are the same target: same provider, same remote identity, same canonical bytes.
pub fingerprint-injective :
    {W : Type 0} (host : Host W) (a b : DeletionTarget)
    → (host.sha256 (host.dumps (payload a)) ≡ host.sha256 (host.dumps (payload b))
        → payload a ≡ payload b)
    → a.account_name ≡ b.account_name
    → fingerprint host a ≡ fingerprint host b
    → a ≡ b
unfolding fingerprint
fingerprint-injective host a b collision_free n h = payload-injective a b n (collision_free h)

-- The two kinds of target that the schema's `CHECK` on `remote_mutations` admits.
abbrev pub IsCoherent : Kind → Identity → Type 0
IsCoherent imap (imap_identity f v u) = Unit
IsCoherent imap (provider_identity i) = ⊥
IsCoherent gmail (imap_identity f v u) = ⊥
IsCoherent gmail (provider_identity i) = Unit
IsCoherent pop3 (imap_identity f v u) = ⊥
IsCoherent pop3 (provider_identity i) = Unit

identity_of-columns_of :
    (kind : Kind) (i : Identity) → IsCoherent kind i → identity_of kind (columns_of i) ≡ ok i
unfolding identity_of columns_of
identity_of-columns_of imap (imap_identity f v u) h = refl
identity_of-columns_of imap (provider_identity i) h = absurd h
identity_of-columns_of gmail (imap_identity f v u) h = absurd h
identity_of-columns_of gmail (provider_identity i) h = refl
identity_of-columns_of pop3 (imap_identity f v u) h = absurd h
identity_of-columns_of pop3 (provider_identity i) h = refl

pub identity_of-IsCoherent :
    (kind : Kind) (row : IdentityColumns) (i : Identity)
    → identity_of kind row ≡ ok i
    → IsCoherent kind i
unfolding identity_of
identity_of-IsCoherent gmail row (provider_identity i) h = tt
identity_of-IsCoherent pop3 row (provider_identity i) h = tt
identity_of-IsCoherent gmail row (imap_identity f v u) h = cc
identity_of-IsCoherent pop3 row (imap_identity f v u) h = cc
identity_of-IsCoherent imap row (imap_identity f v u) h = tt
identity_of-IsCoherent imap row (provider_identity i) h = ground arith

-- A target whose identity is of the form of its kind, a folder with UIDVALIDITY and UID for IMAP
-- and a provider's id otherwise: its identity, written into the identity columns of a mutation row
-- and read back by `_target`, gives the same target.
pub target_of-columns_of :
    (t : DeletionTarget)
    → IsCoherent t.provider_kind t.identity
    → target_of t.remote_message_id t.canonical_message_id t.account_id t.account_name
        t.provider_kind t.canonical_sha256
        (columns_of t.identity)
      ≡ ok t
unfolding target_of
target_of-columns_of t h = rw (identity_of-columns_of t.provider_kind t.identity h)

-- What `_target` returns has the columns that it was given, and a coherent identity.
pub target_of-eq-ok :
    (remote canonical : String) (account : ℕ) (name : String) (kind : Kind) (sha256 : String)
    (columns : IdentityColumns) (t : DeletionTarget)
    → target_of remote canonical account name kind sha256 columns ≡ ok t
    → (t.remote_message_id ≡ remote)
      × (t.canonical_message_id ≡ canonical)
      × (t.account_id ≡ account)
      × (t.account_name ≡ name)
      × (t.provider_kind ≡ kind)
      × (t.canonical_sha256 ≡ sha256)
      × (identity_of kind columns ≡ ok t.identity)
unfolding target_of
target_of-eq-ok remote canonical account name kind sha256 columns t h =
    let (i, e, r) = >>=-eq-ok (identity_of kind columns) _ h in ground arith
