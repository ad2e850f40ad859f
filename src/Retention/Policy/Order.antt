-- ===== src/Retention/Policy/Order.antt =====
-- The report of `evaluate`: which codes it lists, in which order, and how it depends on the clock
-- and on the number of backups.
use mailarchive.Base.{
  ==_iff, sym, ◌==◌, ℕ, zero, suc, ◌+◌, ◌≤◌, ◌≡◌, refl, ap, ◌∙◌, Bool, true, Option, none, some,
  String, ◌&&◌, List, [], ◌∷◌, arith,
}
use native.Mathlib.Nat.{le_trans}
use mailarchive.Base.Lists.{filter, any-filter}
use mailarchive.Errors.{Outcome, ok, raised}
use mailarchive.Host.{Host, Instant, aware}
use mailarchive.Retention.Reason.{Reason, rank, contains, reason_codes}
use mailarchive.Retention.Policy.{
  RetentionFacts, Evaluation, evaluation, evaluate, decide_with, deadline_of, reasons,
  parse_timestamp,
}
use mailarchive.Retention.Policy.Codes.{blocks, contains-reasons}
use mailarchive.Retention.Policy.Eligible.{IsDeletable, evaluate-eligible_iff}

-- Strictly ascending in the order of `REASON_CODES`, so without repetition.
abbrev pub IsAscending : ℕ → List Reason → Type 0
IsAscending low [] = Unit
IsAscending low (r ∷ rs) = (low ≤ rank r) × IsAscending (rank r + 1) rs

IsAscending-weaken :
    (low high : ℕ) (rs : List Reason) → low ≤ high → IsAscending high rs → IsAscending low rs
IsAscending-weaken low high [] p h = tt
IsAscending-weaken low high (r ∷ rs) p h = (omega arith, h.1)

filter-IsAscending :
    (p : Reason → Bool) (low : ℕ) (rs : List Reason)
    → IsAscending low rs
    → IsAscending low (filter p rs)
filter-IsAscending p low [] h = tt
filter-IsAscending p low (r ∷ rs) h = ground (
  arith,
  filter-IsAscending p (rank r + 1) rs h.1,
  IsAscending-weaken low (rank r + 1) (filter p rs),
)

-- The code at a position of the tuple.
code_at : ℕ → List Reason → Option Reason
code_at n [] = none
code_at zero (r ∷ rs) = some r
code_at (suc n) (r ∷ rs) = code_at n rs

code_at-rank : (r : Reason) → code_at (rank r) reason_codes ≡ some r
unfolding code_at
code_at-rank Reason.account_disabled = refl
code_at-rank _ = refl

rank-injective : (a b : Reason) → rank a ≡ rank b → a ≡ b
rank-injective a b h =
    ground (arith, code_at-rank a, code_at-rank b, ap (λ n. code_at n reason_codes) h)

contains-filter :
    (p : Reason → Bool) (code : Reason) (rs : List Reason)
    → contains code (filter p rs) ≡ (contains code rs && p code)
unfolding contains
contains-filter p code rs =
    any-filter (λ r. rank code == rank r) p (p code) rs
      (λ r h. ap p (sym (rank-injective code r ((==_iff (rank code) (rank r)).0 h))))

contains-reason_codes : (code : Reason) → contains code reason_codes ≡ true
unfolding contains
contains-reason_codes Reason.account_disabled = refl
contains-reason_codes _ = refl

reason_codes-IsAscending : IsAscending 0 reason_codes
reason_codes-IsAscending = omega arith

module _ {W : Type 0} (host : Host W) where
  decided :
      (w : W) (facts : RetentionFacts) (now : Instant) (days : Option ℕ) (required : ℕ)
      (root : String) (e : Evaluation) (o : Outcome (Option Instant))
      → deadline_of host (parse_timestamp host facts.archived_at) days ≡ o
      → decide_with host w facts now days required root o ≡ ok e
      → IsAscending 0 e.reason_codes
        × ((code : Reason)
            → contains code e.reason_codes
              ≡ blocks host w facts now days required root e.retention_deadline code)
        × (deadline_of host (parse_timestamp host facts.archived_at) days ≡ ok e.retention_deadline)
  unfolding decide_with evaluation
  decided w facts now days required root e (raised f) p h = cc
  decided w facts now days required root e (ok deadline) p h =
      let found = reasons host w facts now days required root deadline in
      let e_lem : evaluation host facts found deadline ≡ e = cc in
      rw (← e_lem) (
        filter-IsAscending (λ code. contains code found) 0 reason_codes reason_codes-IsAscending,
        λ code.
            contains-filter (λ c. contains c found) code reason_codes
            ∙ rw contains-reason_codes
                (contains-reasons host w facts now days required root deadline code),
        p,
      )

  -- The reported codes stand in the order of `REASON_CODES` without repetition, a code is reported
  -- exactly when its own test fails, and the reported deadline is the computed one.
  pub evaluate_reports :
      (w : W) (facts : RetentionFacts) (now : Instant) (days : Option ℕ) (required : ℕ)
      (root : String) (e : Evaluation)
      → evaluate host w facts (aware now) days required root ≡ ok e
      → IsAscending 0 e.reason_codes
        × ((code : Reason)
            → contains code e.reason_codes
              ≡ blocks host w facts now days required root e.retention_deadline code)
        × (deadline_of host (parse_timestamp host facts.archived_at) days ≡ ok e.retention_deadline)
  unfolding evaluate
  evaluate_reports w facts now days required root e h =
      decided w facts now days required root e _ refl h

  -- Over the same facts and files, what is eligible stays so when time passes and when fewer
  -- backups are required.
  pub eligible_later :
      (w : W) (facts : RetentionFacts) (now later : Instant) (days : Option ℕ) (required fewer : ℕ)
      (root : String) (e e' : Evaluation)
      → evaluate host w facts (aware now) days required root ≡ ok e
      → evaluate host w facts (aware later) days fewer root ≡ ok e'
      → now ≤ later
      → fewer ≤ required
      → e.eligible ≡ true
      → e'.eligible ≡ true
  eligible_later w facts now later days required fewer root e e' h h' p q eligible =
      let s = (evaluate-eligible_iff host w facts now days required root e h).0 eligible in
      let still : IsDeletable host w facts later days fewer root = record {
        enabled = s.enabled;
        present = s.present;
        proven = s.proven;
        complete = s.complete;
        same_provider = s.same_provider;
        one_link = s.one_link;
        same_account = s.same_account;
        has_canonical = s.has_canonical;
        is_archived = s.is_archived;
        elapsed = (s.elapsed.0, s.elapsed.1, s.elapsed.2, s.elapsed.3, le_trans s.elapsed.4 p);
        inside = s.inside;
        same_bytes = s.same_bytes;
        verified = s.verified;
        backed_up = le_trans q s.backed_up;
        not_kept = s.not_kept;
        no_legal_hold = s.no_legal_hold;
      } in
      (evaluate-eligible_iff host w facts later days fewer root e' h').1 still
