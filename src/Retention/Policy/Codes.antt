-- ===== src/Retention/Policy/Codes.antt =====
-- Which reason codes `reasons` collects: for each code, the one test that adds it.
use mailarchive.Base.{
  ℕ, ◌≡◌, Bool, not, ◌&&◌, Option, some, String, ltb, ◌==◌, str_eq, is_none, opt_eq,
}
use mailarchive.Host.{Host, Instant}
use mailarchive.Models.{kind_eq, state_eq, archived, quarantined}
use mailarchive.Retention.Reason.{Reason, contains, contains_laws}
use mailarchive.Retention.Policy.{
  RetentionFacts, reasons, parse_timestamp, not_elapsed, path_ok, file_digest, digest_differs,
}

module _ {W : Type 0} (host : Host W) (w : W) (facts : RetentionFacts) (now : Instant)
    (days : Option ℕ) (required : ℕ) (root : String) (deadline : Option Instant) where
  abbrev pub blocks : Reason → Bool
  blocks Reason.account_disabled = not facts.account_enabled
  blocks Reason.remote_not_present = not facts.remote_present
  blocks Reason.remote_identity_unproven =
      not (opt_eq str_eq facts.identity_confidence (some "proven"))
  blocks Reason.remote_identity_incomplete = not facts.identity_complete
  blocks Reason.remote_identity_incoherent =
      not (opt_eq kind_eq facts.provider_kind facts.account_kind)
  blocks Reason.remote_link_missing = not (facts.link_count == 1)
  blocks Reason.remote_link_incoherent = not facts.link_account_coherent
  blocks Reason.canonical_missing = not facts.canonical_exists
  blocks Reason.canonical_not_archived = not (opt_eq state_eq facts.storage_state (some archived))
  blocks Reason.is_quarantined = opt_eq state_eq facts.storage_state (some quarantined)
  blocks Reason.archived_at_missing = is_none facts.archived_at
  blocks Reason.timestamp_invalid =
      not (is_none facts.archived_at) && is_none (parse_timestamp host facts.archived_at)
  blocks Reason.retention_never = is_none days
  blocks Reason.retention_not_elapsed = not (is_none days) && not_elapsed host now deadline
  blocks Reason.canonical_path_invalid = not (path_ok host w root facts.canonical_path)
  blocks Reason.canonical_file_missing =
      path_ok host w root facts.canonical_path && is_none (file_digest host w facts.canonical_path)
  blocks Reason.canonical_hash_mismatch =
      path_ok host w root facts.canonical_path
      && digest_differs host (file_digest host w facts.canonical_path) facts.expected_sha256
  blocks Reason.integrity_not_verified =
      not (opt_eq str_eq facts.integrity_status (some "verified"))
  blocks Reason.backups_insufficient = ltb facts.verified_repository_count required
  blocks Reason.keep_online = facts.keep_online
  blocks Reason.legal_hold = facts.legal_hold

  pub contains-reasons :
      (code : Reason)
      → contains code (reasons host w facts now days required root deadline) ≡ blocks code
  unfolding reasons
  contains-reasons Reason.account_disabled = simp contains_laws
  contains-reasons _ = simp contains_laws
