-- ===== src/Retention/Policy.antt =====
-- `evaluate` of src/mailarchive/retention.py, with its facts and its result.
pub mod Codes
pub mod Eligible
pub mod Order
use Prim.Native.String
use mailarchive.Base.{
  ℕ, ◌+◌, ◌*◌, Bool, true, false, not, ◌&&◌, ◌||◌, Option, some, none, String, List, [], ◌∷◌, ◌++◌,
  ltb, ◌==◌, str_eq, if◌then◌else◌, is_none, opt_eq,
}
use mailarchive.Base.Lists.{filter}
use mailarchive.Errors.{Outcome, ok, raised, now_naive, date_overflow}
use mailarchive.Host.{Host, Datetime, naive, aware, Instant, day, datetime_end}
use mailarchive.Models.{Kind, kind_eq, StorageState, state_eq, archived, quarantined}
use mailarchive.Retention.Reason
use mailarchive.Retention.Reason.{Reason, when, contains, reason_codes}

-- `canonical_path` is a path as text.
pub record RetentionFacts : Type 0 where
  pub remote_message_id : String
  pub account : String
  pub account_enabled : Bool
  pub provider_kind : Option Kind
  pub account_kind : Option Kind
  pub remote_present : Bool
  pub identity_confidence : Option String
  pub identity_complete : Bool
  pub canonical_id : Option String
  pub link_count : ℕ
  pub link_account_coherent : Bool
  pub canonical_exists : Bool
  pub storage_state : Option StorageState
  pub archived_at : Option String
  pub canonical_path : Option String
  pub expected_sha256 : Option String
  pub integrity_status : Option String
  pub verified_repository_count : ℕ
  pub keep_online : Bool
  pub legal_hold : Bool

pub record Evaluation : Type 0 where
  pub eligible : Bool
  pub reason_codes : List Reason
  pub retention_deadline : Option Instant
  pub verified_repository_count : ℕ

module _ {W : Type 0} (host : Host W) where
  aware_instant : Option Datetime → Option Instant
  aware_instant (some (aware t)) = some t
  aware_instant _ = none

  -- `_parse_timestamp`
  unfoldable pub parse_timestamp : Option String → Option Instant
  unfolding aware_instant
  parse_timestamp none = none
  parse_timestamp (some value) = aware_instant (host.fromisoformat value)

  -- `ARCHIVED_AT_MISSING`, or else `TIMESTAMP_INVALID`
  timestamp_reasons : Option String → Option Instant → List Reason
  timestamp_reasons archived_at parsed =
      when (is_none archived_at) Reason.archived_at_missing
      ++ when (not (is_none archived_at) && is_none parsed) Reason.timestamp_invalid

  -- `deadline`, with the overflow of the addition.
  unfoldable pub deadline_of : Option Instant → Option ℕ → Outcome (Option Instant)
  deadline_of (some t) (some days) =
      if ltb (t + days * day) datetime_end then ok (some (t + days * day)) else raised date_overflow
  deadline_of _ _ = ok none

  unfoldable pub not_elapsed : Instant → Option Instant → Bool
  not_elapsed now none = false
  not_elapsed now (some deadline) = ltb now deadline

  retention_reasons : Instant → Option ℕ → Option Instant → List Reason
  retention_reasons now days deadline =
      when (is_none days) Reason.retention_never
      ++ when (not (is_none days) && not_elapsed now deadline) Reason.retention_not_elapsed

  or_false : Option Bool → Bool
  or_false none = false
  or_false (some b) = b

  -- `path_ok`
  unfoldable pub path_ok : W → String → Option String → Bool
  unfolding or_false
  path_ok w root none = false
  path_ok w root (some path) = or_false (host.is_relative_to w path root)

  -- The digest of the canonical file; `none` where it is no file or cannot be read.
  unfoldable pub file_digest : W → Option String → Option String
  file_digest w none = none
  file_digest w (some path) =
      if host.is_file w path
      then elim (host.read_bytes w path) [ none ↦ none | some raw ↦ some (host.sha256 raw) ]
      else none

  -- `actual != facts.expected_sha256`
  unfoldable pub digest_differs : Option String → Option String → Bool
  digest_differs none expected = false
  digest_differs (some actual) expected = not (opt_eq str_eq (some actual) expected)

  file_reasons : W → String → Option String → Option String → List Reason
  file_reasons w root path expected =
      let good = path_ok w root path in
      let actual = file_digest w path in
      when (not good) Reason.canonical_path_invalid
      ++ when (good && is_none actual) Reason.canonical_file_missing
      ++ when (good && digest_differs actual expected) Reason.canonical_hash_mismatch

  unfoldable pub reasons :
      W → RetentionFacts → Instant → Option ℕ → ℕ → String → Option Instant → List Reason
  unfolding timestamp_reasons retention_reasons file_reasons
  reasons w facts now days required root deadline =
      when (not facts.account_enabled) Reason.account_disabled
      ++ when (not facts.remote_present) Reason.remote_not_present
      ++ when (not (opt_eq str_eq facts.identity_confidence (some "proven")))
          Reason.remote_identity_unproven
      ++ when (not facts.identity_complete) Reason.remote_identity_incomplete
      ++ when (not (opt_eq kind_eq facts.provider_kind facts.account_kind))
          Reason.remote_identity_incoherent
      ++ when (not (facts.link_count == 1)) Reason.remote_link_missing
      ++ when (not facts.link_account_coherent) Reason.remote_link_incoherent
      ++ when (not facts.canonical_exists) Reason.canonical_missing
      ++ when (not (opt_eq state_eq facts.storage_state (some archived)))
          Reason.canonical_not_archived
      ++ when (opt_eq state_eq facts.storage_state (some quarantined)) Reason.is_quarantined
      ++ timestamp_reasons facts.archived_at (parse_timestamp facts.archived_at)
      ++ retention_reasons now days deadline
      ++ file_reasons w root facts.canonical_path facts.expected_sha256
      ++ when (not (opt_eq str_eq facts.integrity_status (some "verified")))
          Reason.integrity_not_verified
      ++ when (ltb facts.verified_repository_count required) Reason.backups_insufficient
      ++ when facts.keep_online Reason.keep_online
      ++ when facts.legal_hold Reason.legal_hold

  is_empty : List Reason → Bool
  is_empty [] = true
  is_empty (r ∷ rs) = false

  -- `ordered`, and the evaluation that reports it.
  unfoldable pub evaluation : RetentionFacts → List Reason → Option Instant → Evaluation
  unfolding is_empty
  evaluation facts found deadline =
      let ordered = filter (λ code. contains code found) reason_codes in
      record {
        eligible = is_empty ordered;
        reason_codes = ordered;
        retention_deadline = deadline;
        verified_repository_count = facts.verified_repository_count;
      }

  decide_with :
      W
      → RetentionFacts
      → Instant
      → Option ℕ
      → ℕ
      → String
      → Outcome (Option Instant)
      → Outcome Evaluation
  decide_with w facts now days required root (raised fault) = raised fault
  decide_with w facts now days required root (ok deadline) =
      ok (evaluation facts (reasons w facts now days required root deadline) deadline)

  unfoldable pub evaluate :
      W → RetentionFacts → Datetime → Option ℕ → ℕ → String → Outcome Evaluation
  unfolding decide_with
  evaluate w facts naive days required root = raised now_naive
  evaluate w facts (aware now) days required root =
      decide_with w facts now days required root
        (deadline_of (parse_timestamp facts.archived_at) days)
