-- ===== src/Retention/Policy/Eligible.antt =====
-- `evaluate` of src/mailarchive/retention.py, as conditions on the facts.
use mailarchive.Base.{
  ℕ, ◌+◌, ◌*◌, ◌≤◌, ◌≡◌, refl, sym, ◌∙◌, ◌↔◌, Bool, true, false, not, ◌&&◌, Option, none, some,
  String, List, [], ◌∷◌, arith, str_eq, eq_iff, is_none, opt_eq_iff,
}
use mailarchive.Base.Lists.{filter_nil, nil_filter}
use mailarchive.Errors.{Outcome, ok, raised}
use mailarchive.Host.{Host, Instant, aware, day}
use mailarchive.Models.{kind_eq, kind_eq_iff, state_eq, state_eq_iff, archived}
use mailarchive.Retention.Reason.{Reason, contains, reason_codes, All-codes, codes-All}
use mailarchive.Retention.Policy.{
  RetentionFacts, Evaluation, evaluation, evaluate, decide_with, deadline_of, is_empty, reasons,
  parse_timestamp, not_elapsed, path_ok, file_digest, digest_differs,
}
use mailarchive.Retention.Policy.Codes.{blocks, contains-reasons}

module _ {W : Type 0} (host : Host W) where
  -- The conditions, each as a statement about the facts and the world.
  pub record IsDeletable (w : W) (facts : RetentionFacts) (now : Instant) (days : Option ℕ)
      (required : ℕ) (root : String) : Type 0 where
    pub enabled : facts.account_enabled ≡ true
    pub present : facts.remote_present ≡ true
    pub proven : facts.identity_confidence ≡ some "proven"
    pub complete : facts.identity_complete ≡ true
    pub same_provider : facts.provider_kind ≡ facts.account_kind
    pub one_link : facts.link_count ≡ 1
    pub same_account : facts.link_account_coherent ≡ true
    pub has_canonical : facts.canonical_exists ≡ true
    pub is_archived : facts.storage_state ≡ some archived
    -- archived at a known instant `t`, and `n` days have passed since
    pub elapsed :
        (t : Instant) × (n : ℕ) × (parse_timestamp host facts.archived_at ≡ some t)
        × (days ≡ some n)
        × (t + n * day ≤ now)
    pub inside : path_ok host w root facts.canonical_path ≡ true
    -- the file's digest now is the recorded one
    pub same_bytes :
        (d : String) × (file_digest host w facts.canonical_path ≡ some d)
        × (facts.expected_sha256 ≡ some d)
    pub verified : facts.integrity_status ≡ some "verified"
    pub backed_up : required ≤ facts.verified_repository_count
    pub not_kept : facts.keep_online ≡ false
    pub no_legal_hold : facts.legal_hold ≡ false

  elapsed_of :
      (now : Instant) (parsed : Option Instant) (days : Option ℕ) (deadline : Option Instant)
      → deadline_of host parsed days ≡ ok deadline
      → is_none parsed ≡ false
      → (not (is_none days) && not_elapsed host now deadline) ≡ false
      → is_none days ≡ false
      → (t : Instant) × (n : ℕ) × (parsed ≡ some t) × (days ≡ some n) × (t + n * day ≤ now)
  unfolding deadline_of not_elapsed
  elapsed_of now none days deadline e p q r = cc
  elapsed_of now (some t) none deadline e p q r = cc
  elapsed_of now (some t) (some n) none e p q r = ground arith
  elapsed_of now (some t) (some n) (some d) e p q r = (t, n, refl, refl, ground arith)

  of_elapsed :
      (now : Instant) (parsed : Option Instant) (days : Option ℕ) (deadline : Option Instant)
      (t : Instant) (n : ℕ)
      → deadline_of host parsed days ≡ ok deadline
      → parsed ≡ some t
      → days ≡ some n
      → t + n * day ≤ now
      → (not (is_none days) && not_elapsed host now deadline) ≡ false
  unfolding deadline_of not_elapsed
  of_elapsed now none days deadline t n e p q r = cc
  of_elapsed now (some s) none deadline t n e p q r = cc
  of_elapsed now (some s) (some m) none t n e p q r = ground arith
  of_elapsed now (some s) (some m) (some d) t n e p q r = ground arith

  same_bytes_of :
      (good : Bool) (actual expected : Option String)
      → good ≡ true
      → (good && is_none actual) ≡ false
      → (good && digest_differs host actual expected) ≡ false
      → (d : String) × (actual ≡ some d) × (expected ≡ some d)
  unfolding digest_differs
  same_bytes_of good none expected g p q = ground arith
  same_bytes_of good (some d) none g p q = ground arith
  same_bytes_of good (some d) (some x) g p q = (d, refl, ground (arith, eq_iff d x))

  of_same_bytes :
      (good : Bool) (actual expected : Option String) (d : String)
      → actual ≡ some d
      → expected ≡ some d
      → ((good && is_none actual) ≡ false) × ((good && digest_differs host actual expected) ≡ false)
  unfolding digest_differs
  of_same_bytes good none expected d p q = cc
  of_same_bytes good (some x) none d p q = cc
  of_same_bytes good (some x) (some y) d p q = (ground arith, ground (arith, eq_iff x y))

  parsed_of :
      (at : Option String)
      → is_none at ≡ false
      → (not (is_none at) && is_none (parse_timestamp host at)) ≡ false
      → is_none (parse_timestamp host at) ≡ false
  parsed_of none p q = cc
  parsed_of (some s) p q = q

  of_parsed :
      (at : Option String) (t : Instant)
      → parse_timestamp host at ≡ some t
      → (is_none at ≡ false) × ((not (is_none at) && is_none (parse_timestamp host at)) ≡ false)
  unfolding parse_timestamp
  of_parsed none t p = cc
  of_parsed (some s) t p = (refl, ground arith)

  module _ (w : W) (facts : RetentionFacts) (now : Instant) (days : Option ℕ) (required : ℕ)
      (root : String) (deadline : Option Instant)
      (at_deadline : deadline_of host (parse_timestamp host facts.archived_at) days
        ≡ ok deadline) where
    unblocked-IsDeletable :
        ((code : Reason) → blocks host w facts now days required root deadline code ≡ false)
        → IsDeletable w facts now days required root
    unblocked-IsDeletable h = record {
      enabled = ground (arith, h Reason.account_disabled);
      present = ground (arith, h Reason.remote_not_present);
      proven = (opt_eq_iff str_eq eq_iff _ _).0 (ground (arith, h Reason.remote_identity_unproven));
      complete = ground (arith, h Reason.remote_identity_incomplete);
      same_provider =
          (opt_eq_iff kind_eq kind_eq_iff _ _).0
            (ground (arith, h Reason.remote_identity_incoherent));
      one_link = ground (arith, h Reason.remote_link_missing);
      same_account = ground (arith, h Reason.remote_link_incoherent);
      has_canonical = ground (arith, h Reason.canonical_missing);
      is_archived =
          (opt_eq_iff state_eq state_eq_iff _ _).0
            (ground (arith, h Reason.canonical_not_archived));
      elapsed =
          elapsed_of now _ days deadline at_deadline
            (parsed_of facts.archived_at (h Reason.archived_at_missing)
              (h Reason.timestamp_invalid))
            (h Reason.retention_not_elapsed) (h Reason.retention_never);
      inside = ground (arith, h Reason.canonical_path_invalid);
      same_bytes =
          same_bytes_of _ _ _ (ground (arith, h Reason.canonical_path_invalid))
            (h Reason.canonical_file_missing) (h Reason.canonical_hash_mismatch);
      verified = (opt_eq_iff str_eq eq_iff _ _).0 (ground (arith, h Reason.integrity_not_verified));
      backed_up = ground (arith, h Reason.backups_insufficient);
      not_kept = h Reason.keep_online;
      no_legal_hold = h Reason.legal_hold;
    }

    IsDeletable-unblocked :
        IsDeletable w facts now days required root
        → (code : Reason) → blocks host w facts now days required root deadline code ≡ false
    IsDeletable-unblocked s Reason.account_disabled = rw s.enabled
    IsDeletable-unblocked s Reason.remote_not_present = rw s.present
    IsDeletable-unblocked s Reason.remote_identity_unproven =
        ground (arith, (opt_eq_iff str_eq eq_iff _ _).1 s.proven)
    IsDeletable-unblocked s Reason.remote_identity_incomplete = rw s.complete
    IsDeletable-unblocked s Reason.remote_identity_incoherent =
        ground (arith, (opt_eq_iff kind_eq kind_eq_iff _ _).1 s.same_provider)
    IsDeletable-unblocked s Reason.remote_link_missing = ground arith
    IsDeletable-unblocked s Reason.remote_link_incoherent = rw s.same_account
    IsDeletable-unblocked s Reason.canonical_missing = rw s.has_canonical
    IsDeletable-unblocked s Reason.canonical_not_archived =
        ground (arith, (opt_eq_iff state_eq state_eq_iff _ _).1 s.is_archived)
    IsDeletable-unblocked s Reason.is_quarantined = unfold state_eq in rw s.is_archived
    IsDeletable-unblocked s Reason.archived_at_missing =
        (of_parsed facts.archived_at s.elapsed.0 s.elapsed.2).0
    IsDeletable-unblocked s Reason.timestamp_invalid =
        (of_parsed facts.archived_at s.elapsed.0 s.elapsed.2).1
    IsDeletable-unblocked s Reason.retention_not_elapsed =
        of_elapsed now _ days deadline _ _ at_deadline s.elapsed.2 s.elapsed.3 s.elapsed.4
    IsDeletable-unblocked s Reason.retention_never = rw s.elapsed.3
    IsDeletable-unblocked s Reason.canonical_path_invalid = rw s.inside
    IsDeletable-unblocked s Reason.canonical_file_missing =
        (of_same_bytes _ _ facts.expected_sha256 _ s.same_bytes.1 s.same_bytes.2).0
    IsDeletable-unblocked s Reason.canonical_hash_mismatch =
        (of_same_bytes _ _ _ _ s.same_bytes.1 s.same_bytes.2).1
    IsDeletable-unblocked s Reason.integrity_not_verified =
        ground (arith, (opt_eq_iff str_eq eq_iff _ _).1 s.verified)
    IsDeletable-unblocked s Reason.backups_insufficient = ground arith
    IsDeletable-unblocked s Reason.keep_online = s.not_kept
    IsDeletable-unblocked s Reason.legal_hold = s.no_legal_hold

  is_empty-nil : (xs : List Reason) → is_empty host xs ≡ true → xs ≡ []
  unfolding is_empty
  is_empty-nil [] h = refl
  is_empty-nil (x ∷ xs) h = cc

  -- No code is reported exactly when none was collected.
  eligible-evaluation :
      (facts : RetentionFacts) (found : List Reason) (deadline : Option Instant)
      → ((evaluation host facts found deadline).eligible ≡ true)
        ↔ ((code : Reason) → contains code found ≡ false)
  unfolding evaluation
  eligible-evaluation facts found deadline = (
    λ h.
        All-codes (λ code. contains code found ≡ false)
          (filter_nil (λ code. contains code found) reason_codes (is_empty-nil _ h)),
    λ h.
        unfold is_empty in
        rw (
          nil_filter (λ code. contains code found) reason_codes
            (codes-All (λ code. contains code found ≡ false) h)),
  )

  decided :
      (w : W) (facts : RetentionFacts) (now : Instant) (days : Option ℕ) (required : ℕ)
      (root : String) (e : Evaluation) (o : Outcome (Option Instant))
      → deadline_of host (parse_timestamp host facts.archived_at) days ≡ o
      → decide_with host w facts now days required root o ≡ ok e
      → (e.eligible ≡ true) ↔ IsDeletable w facts now days required root
  unfolding decide_with
  decided w facts now days required root e (raised f) p h = cc
  decided w facts now days required root e (ok deadline) p h =
      let found = reasons host w facts now days required root deadline in
      let e_lem : evaluation host facts found deadline ≡ e = cc in
      let iff = eligible-evaluation facts found deadline in
      rw (← e_lem) (
        λ eligible. unblocked-IsDeletable w facts now days required root deadline p (λ code.
            sym (contains-reasons host w facts now days required root deadline code)
            ∙ iff.0 eligible code),
        λ s. iff.1 (λ code.
            contains-reasons host w facts now days required root deadline code
            ∙ IsDeletable-unblocked w facts now days required root deadline p s code),
      )

  -- Where the policy gives an evaluation, it is eligible exactly when every condition of
  -- `IsDeletable` holds.
  pub evaluate-eligible_iff :
      (w : W) (facts : RetentionFacts) (now : Instant) (days : Option ℕ) (required : ℕ)
      (root : String) (e : Evaluation)
      → evaluate host w facts (aware now) days required root ≡ ok e
      → (e.eligible ≡ true) ↔ IsDeletable w facts now days required root
  unfolding evaluate
  evaluate-eligible_iff w facts now days required root e h =
      decided w facts now days required root e _ refl h
