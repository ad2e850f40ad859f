-- ===== src/Retention/Reason.antt =====
-- `REASON_CODES` of src/mailarchive/retention.py, and lists of codes.
use mailarchive.Base.{
  ℕ, ◌≡◌, refl, Bool, true, false, List, [], ◌∷◌, ◌++◌, ◌||◌, ◌&&◌, arith, ◌==◌, if◌then◌else◌,
}
use mailarchive.Base.Lists.{any, any-append, All}

pub data Reason : Type 0 where
  account_disabled remote_not_present remote_identity_unproven : Reason
  remote_identity_incomplete remote_identity_incoherent remote_link_missing : Reason
  remote_link_incoherent canonical_missing canonical_not_archived is_quarantined : Reason
  archived_at_missing timestamp_invalid retention_not_elapsed retention_never : Reason
  canonical_path_invalid canonical_file_missing canonical_hash_mismatch : Reason
  integrity_not_verified backups_insufficient keep_online legal_hold : Reason

-- The tuple's order.
abbrev pub reason_codes : List Reason
reason_codes =
    account_disabled ∷ remote_not_present ∷ remote_identity_unproven ∷ remote_identity_incomplete
    ∷ remote_identity_incoherent ∷ remote_link_missing ∷ remote_link_incoherent ∷ canonical_missing
    ∷ canonical_not_archived ∷ is_quarantined ∷ archived_at_missing ∷ timestamp_invalid
    ∷ retention_not_elapsed ∷ retention_never ∷ canonical_path_invalid ∷ canonical_file_missing
    ∷ canonical_hash_mismatch ∷ integrity_not_verified ∷ backups_insufficient ∷ keep_online
    ∷ legal_hold ∷ []

-- The position of a code in the tuple; equal codes have equal positions.
abbrev pub rank : Reason → ℕ
rank account_disabled = 0
rank remote_not_present = 1
rank remote_identity_unproven = 2
rank remote_identity_incomplete = 3
rank remote_identity_incoherent = 4
rank remote_link_missing = 5
rank remote_link_incoherent = 6
rank canonical_missing = 7
rank canonical_not_archived = 8
rank is_quarantined = 9
rank archived_at_missing = 10
rank timestamp_invalid = 11
rank retention_not_elapsed = 12
rank retention_never = 13
rank canonical_path_invalid = 14
rank canonical_file_missing = 15
rank canonical_hash_mismatch = 16
rank integrity_not_verified = 17
rank backups_insufficient = 18
rank keep_online = 19
rank legal_hold = 20

-- `code in reasons`
unfoldable pub contains : Reason → List Reason → Bool
contains code reasons = any (λ r. rank code == rank r) reasons

-- `if test: reasons.append(code)`
unfoldable pub when : Bool → Reason → List Reason
when test code = if test then code ∷ [] else []

pub contains-append :
    (code : Reason) (xs ys : List Reason)
    → contains code (xs ++ ys) ≡ (contains code xs || contains code ys)
unfolding contains
contains-append code xs ys = any-append (λ r. rank code == rank r) xs ys

pub contains-when :
    (code : Reason) (b : Bool) (r : Reason)
    → contains code (when b r) ≡ ((rank code == rank r) && b)
unfolding contains when
contains-when code true r = ground arith
contains-when code false r = ground arith

pub contains-nil : (code : Reason) → contains code [] ≡ false
unfolding contains
contains-nil code = refl

pub or_false : (b : Bool) → (b || false) ≡ b
or_false true = refl
or_false false = refl

pub ruleset contains_laws = (contains-append, contains-when, contains-nil, or_false)

module _ {ℓ} (P : Reason → Type ℓ) where
  -- What holds of every code of the tuple holds of every code.
  pub All-codes : All P reason_codes → (code : Reason) → P code
  All-codes h account_disabled = h.0
  All-codes h remote_not_present = h.1.0
  All-codes h remote_identity_unproven = h.1.1.0
  All-codes h remote_identity_incomplete = h.1.1.1.0
  All-codes h remote_identity_incoherent = h.1.1.1.1.0
  All-codes h remote_link_missing = h.1.1.1.1.1.0
  All-codes h remote_link_incoherent = h.1.1.1.1.1.1.0
  All-codes h canonical_missing = h.1.1.1.1.1.1.1.0
  All-codes h canonical_not_archived = h.1.1.1.1.1.1.1.1.0
  All-codes h is_quarantined = h.1.1.1.1.1.1.1.1.1.0
  All-codes h archived_at_missing = h.1.1.1.1.1.1.1.1.1.1.0
  All-codes h timestamp_invalid = h.1.1.1.1.1.1.1.1.1.1.1.0
  All-codes h retention_not_elapsed = h.1.1.1.1.1.1.1.1.1.1.1.1.0
  All-codes h retention_never = h.1.1.1.1.1.1.1.1.1.1.1.1.1.0
  All-codes h canonical_path_invalid = h.1.1.1.1.1.1.1.1.1.1.1.1.1.1.0
  All-codes h canonical_file_missing = h.1.1.1.1.1.1.1.1.1.1.1.1.1.1.1.0
  All-codes h canonical_hash_mismatch = h.1.1.1.1.1.1.1.1.1.1.1.1.1.1.1.1.0
  All-codes h integrity_not_verified = h.1.1.1.1.1.1.1.1.1.1.1.1.1.1.1.1.1.0
  All-codes h backups_insufficient = h.1.1.1.1.1.1.1.1.1.1.1.1.1.1.1.1.1.1.0
  All-codes h keep_online = h.1.1.1.1.1.1.1.1.1.1.1.1.1.1.1.1.1.1.1.0
  All-codes h legal_hold = h.1.1.1.1.1.1.1.1.1.1.1.1.1.1.1.1.1.1.1.1.0

  pub codes-All : ((code : Reason) → P code) → All P reason_codes
  codes-All h = (
    h account_disabled,
    (
      h remote_not_present,
      (
        h remote_identity_unproven,
        (
          h remote_identity_incomplete,
          (
            h remote_identity_incoherent,
            (
              h remote_link_missing,
              (
                h remote_link_incoherent,
                (
                  h canonical_missing,
                  (
                    h canonical_not_archived,
                    (
                      h is_quarantined,
                      (
                        h archived_at_missing,
                        (
                          h timestamp_invalid,
                          (
                            h retention_not_elapsed,
                            (
                              h retention_never,
                              (
                                h canonical_path_invalid,
                                (
                                  h canonical_file_missing,
                                  (
                                    h canonical_hash_mismatch,
                                    (
                                      h integrity_not_verified,
                                      (h backups_insufficient, (h keep_online, (h legal_hold, tt))),
                                    ),
                                  ),
                                ),
                              ),
                            ),
                          ),
                        ),
                      ),
                    ),
                  ),
                ),
              ),
            ),
          ),
        ),
      ),
    ),
  )
