-- ===== src/Models.antt =====
-- The configuration of src/mailarchive/models.py, and the columns that the schema of
-- src/mailarchive/db.py restricts to a closed set of words (`CHECK … IN`), as data types.
use mailarchive.Base.{ℕ, ◌≡◌, refl, ◌↔◌, Bool, true, false, Option, String, List}

-- `AccountKind`, `provider_kind`
pub data Kind : Type 0 where
  imap gmail pop3 : Kind

unfoldable pub kind_eq : Kind → Kind → Bool
kind_eq imap imap = true
kind_eq gmail gmail = true
kind_eq pop3 pop3 = true
kind_eq _ _ = false

-- `storage_state`
pub data StorageState : Type 0 where
  pending archived quarantined : StorageState

unfoldable pub state_eq : StorageState → StorageState → Bool
state_eq pending pending = true
state_eq archived archived = true
state_eq quarantined quarantined = true
state_eq _ _ = false

-- The facts of `ImapConfig`, `GmailConfig` and `Pop3Config` that the deletion path reads.
pub record ImapConfig : Type 0 where
  pub host : String
  pub port : ℕ
  pub username : String
  pub folders : List String

pub record GmailConfig : Type 0 where
  pub account_email : String
  pub remote_delete_token_file : Option String

pub record Pop3Config : Type 0 where
  pub host : String
  pub port : ℕ
  pub username : String

pub record AccountConfig : Type 0 where
  pub name : String
  pub kind : Kind
  pub enabled : Bool
  pub remote_retention_days : Option ℕ
  pub remote_deletion_enabled : Bool
  pub required_verified_backups : ℕ
  pub config_ref : String
  pub imap : Option ImapConfig
  pub gmail : Option GmailConfig
  pub pop3 : Option Pop3Config

pub record RetentionConfig : Type 0 where
  pub remote_retention_days_default : ℕ
  pub required_verified_backups_default : ℕ

pub record RemoteDeletionConfig : Type 0 where
  pub max_per_run : ℕ
  pub max_per_account : ℕ

-- `mail_root` is `archive.root / "mail"`.
pub record AppConfig : Type 0 where
  pub mail_root : String
  pub accounts : List AccountConfig
  pub retention : RetentionConfig
  pub remote_deletion : RemoteDeletionConfig

pub kind_eq_iff : (a b : Kind) → (kind_eq a b ≡ true) ↔ (a ≡ b)
unfolding kind_eq
kind_eq_iff imap imap = (λ _. refl, λ _. refl)
kind_eq_iff gmail gmail = (λ _. refl, λ _. refl)
kind_eq_iff pop3 pop3 = (λ _. refl, λ _. refl)
kind_eq_iff imap gmail = (λ h. cc, λ h. cc)
kind_eq_iff imap pop3 = (λ h. cc, λ h. cc)
kind_eq_iff gmail imap = (λ h. cc, λ h. cc)
kind_eq_iff gmail pop3 = (λ h. cc, λ h. cc)
kind_eq_iff pop3 imap = (λ h. cc, λ h. cc)
kind_eq_iff pop3 gmail = (λ h. cc, λ h. cc)

pub state_eq_iff : (a b : StorageState) → (state_eq a b ≡ true) ↔ (a ≡ b)
unfolding state_eq
state_eq_iff pending pending = (λ _. refl, λ _. refl)
state_eq_iff archived archived = (λ _. refl, λ _. refl)
state_eq_iff quarantined quarantined = (λ _. refl, λ _. refl)
state_eq_iff pending archived = (λ h. cc, λ h. cc)
state_eq_iff pending quarantined = (λ h. cc, λ h. cc)
state_eq_iff archived pending = (λ h. cc, λ h. cc)
state_eq_iff archived quarantined = (λ h. cc, λ h. cc)
state_eq_iff quarantined pending = (λ h. cc, λ h. cc)
state_eq_iff quarantined archived = (λ h. cc, λ h. cc)
