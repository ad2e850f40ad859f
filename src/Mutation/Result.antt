-- ===== src/Mutation/Result.antt =====
-- `MutationResult` and `_normalize_result` of src/mailarchive/remote_mutation.py.
use mailarchive.Base.{
  ◌≡◌, refl, ◌↔◌, inl, inr, Bool-cases, Bool, true, false, not, ◌&&◌, Option, none, some, String,
  List, [], ◌∷◌, arith, str_eq, eq_iff, if◌then◌else◌,
}
use mathlib.Core.Path.{subst}
use mailarchive.Base.Lists.{any, filter}
use mailarchive.Errors.{Outcome, ok, raised, invalid_internal_code}
use mailarchive.Db.{Status, succeeded, failed, unknown}

pub record MutationResult : Type 0 where
  pub outcome : String
  pub confirmed_absent : Bool
  pub error_code : Option String

-- `value in set`
unfoldable pub is_in : String → List String → Bool
is_in value set = any (λ x. str_eq value x) set

-- `_FAILURE_ERROR_CODES`
abbrev pub failure_error_codes : List String
failure_error_codes =
    "TARGET_NOT_FOUND" ∷ "IDENTITY_MISMATCH" ∷ "PROVIDER_REJECTED" ∷ "SAFE_DELETE_UNSUPPORTED"
    ∷ "REMOTE_STATE_CONFLICT" ∷ "AUTHORIZATION_FAILED" ∷ []

-- `_INTERNAL_ERROR_CODES`
abbrev pub internal_error_codes : List String
internal_error_codes = "ADAPTER_EXCEPTION" ∷ "STALE_PLAN" ∷ "INVALID_ADAPTER_RESULT" ∷ []

-- The status, the summary and the error code of a row.
abbrev pub Verdict : Type 0
Verdict = Status × String × String

-- `result.error_code or "NONE"`
unfoldable pub code_of : Option String → String
code_of none = "NONE"
code_of (some code) = if str_eq code "" then "NONE" else code

-- The three tests, in the order of the source.
unfoldable pub claims_success : MutationResult → String → Bool
claims_success result code =
    str_eq result.outcome "success-confirmed" && result.confirmed_absent && str_eq code "NONE"

unfoldable pub claims_no_mutation : MutationResult → String → Bool
claims_no_mutation result code =
    str_eq result.outcome "failure-confirmed-no-mutation"
    && not result.confirmed_absent
    && is_in code failure_error_codes

unfoldable pub claims_unknown : MutationResult → String → Bool
claims_unknown result code =
    str_eq result.outcome "outcome-unknown"
    && not result.confirmed_absent
    && str_eq code "TRANSPORT_UNKNOWN"

unfoldable pub normalize_external : MutationResult → Verdict
normalize_external result =
    let code = code_of result.error_code in
    if claims_success result code
    then (succeeded, "confirmed-absent", "NONE")
    else if claims_no_mutation result code
    then (failed, "confirmed-no-mutation", code)
    else if claims_unknown result code
    then (unknown, "outcome-uncertain", code)
    else (unknown, "outcome-uncertain", "INVALID_ADAPTER_RESULT")

-- `allowed_internal`
unfoldable pub allowed_internal : List String
allowed_internal =
    filter (λ c. not (is_in c ("STALE_PLAN" ∷ "INVALID_ADAPTER_RESULT" ∷ []))) internal_error_codes

unfoldable pub normalize_result : MutationResult → Option String → Outcome Verdict
unfolding normalize_external
normalize_result result none = ok (normalize_external result)
normalize_result result (some internal) =
    if is_in internal allowed_internal
    then ok (unknown, "outcome-uncertain", internal)
    else raised invalid_internal_code

-- The codes of a row whose outcome is uncertain.
abbrev pub uncertain_error_codes : List String
uncertain_error_codes = "TRANSPORT_UNKNOWN" ∷ "INVALID_ADAPTER_RESULT" ∷ "ADAPTER_EXCEPTION" ∷ []

-- The coherence matrix: which triples a finished row may hold.
pub data IsFinished (v : Verdict) : Type 0 where
  confirmed_absent : v.0 ≡ succeeded → v.1 ≡ "confirmed-absent" → v.2 ≡ "NONE" → IsFinished v
  confirmed_no_mutation :
      v.0 ≡ failed
      → v.1 ≡ "confirmed-no-mutation"
      → is_in v.2 failure_error_codes ≡ true
      → IsFinished v
  uncertain :
      v.0 ≡ unknown
      → v.1 ≡ "outcome-uncertain"
      → is_in v.2 uncertain_error_codes ≡ true
      → IsFinished v

external_cases :
    (success no_mutation undecided : Bool) (code : String)
    → (no_mutation ≡ true → is_in code failure_error_codes ≡ true)
    → (undecided ≡ true → is_in code uncertain_error_codes ≡ true)
    → IsFinished (
        if success
        then (succeeded, "confirmed-absent", "NONE")
        else if no_mutation
        then (failed, "confirmed-no-mutation", code)
        else if undecided
        then (unknown, "outcome-uncertain", code)
        else (unknown, "outcome-uncertain", "INVALID_ADAPTER_RESULT"))
unfolding is_in
external_cases true b c code h k = confirmed_absent refl refl refl
external_cases false true c code h k = confirmed_no_mutation refl refl (h refl)
external_cases false false true code h k = uncertain refl refl (k refl)
external_cases false false false code h k = uncertain refl refl refl

no_mutation-code :
    (result : MutationResult) (code : String)
    → claims_no_mutation result code ≡ true
    → is_in code failure_error_codes ≡ true
unfolding claims_no_mutation
no_mutation-code result code h = ground arith

unknown-code :
    (result : MutationResult) (code : String)
    → claims_unknown result code ≡ true
    → is_in code uncertain_error_codes ≡ true
unfolding claims_unknown is_in
unknown-code result code h = ground arith

internal-code :
    (code : String)
    → is_in code ("ADAPTER_EXCEPTION" ∷ []) ≡ true
    → is_in code uncertain_error_codes ≡ true
unfolding is_in
internal-code code h = ground arith

-- `_INTERNAL_ERROR_CODES - {"STALE_PLAN", "INVALID_ADAPTER_RESULT"}`
allowed_internal_lem : allowed_internal ≡ "ADAPTER_EXCEPTION" ∷ []
unfolding allowed_internal is_in
allowed_internal_lem = refl

-- Whatever an adapter returns or the engine catches, the recorded triple is one of the matrix.
pub normalize_result-IsFinished :
    (result : MutationResult) (internal : Option String) (v : Verdict)
    → normalize_result result internal ≡ ok v
    → IsFinished v
unfolding normalize_result
normalize_result-IsFinished result none v h =
    let e : normalize_external result ≡ v = cc in
    let code = code_of result.error_code in
    subst IsFinished e (
      external_cases (claims_success result code) (claims_no_mutation result code)
        (claims_unknown result code) code (no_mutation-code result code) (unknown-code result code))
normalize_result-IsFinished result (some c) v h = elim (Bool-cases (is_in c allowed_internal)) [
  | inl good ↦
      let e : ◌≡◌ {A = Verdict} (unknown, "outcome-uncertain", c) v = ground arith in
      subst IsFinished e (uncertain refl refl (internal-code c (rw (← allowed_internal_lem) good)))
  | inr bad ↦ absurd (ground arith)
]

external_succeeded :
    (success no_mutation undecided : Bool) (code : String)
    → ((if success
          then (succeeded, "confirmed-absent", "NONE")
          else if no_mutation
          then (failed, "confirmed-no-mutation", code)
          else if undecided
          then (unknown, "outcome-uncertain", code)
          else let v : Verdict = (unknown, "outcome-uncertain", "INVALID_ADAPTER_RESULT") in v).0
        ≡ succeeded)
      ↔ (success ≡ true)
external_succeeded true b c code = (λ h. refl, λ h. refl)
external_succeeded false true c code = (λ h. cc, λ h. cc)
external_succeeded false false true code = (λ h. cc, λ h. cc)
external_succeeded false false false code = (λ h. cc, λ h. cc)

claims_success_iff :
    (result : MutationResult) (code : String)
    → (claims_success result code ≡ true) ↔ (
        (result.outcome ≡ "success-confirmed") × (result.confirmed_absent ≡ true) × (code ≡ "NONE"))
unfolding claims_success
claims_success_iff result code = (
  λ h. ground (arith, eq_iff result.outcome "success-confirmed", eq_iff code "NONE"),
  λ h. ground (arith, eq_iff result.outcome "success-confirmed", eq_iff code "NONE"),
)

-- Without an internal error every adapter result is recorded, and it is recorded as a success
-- exactly when the adapter claims a confirmed success, confirms absence, and gives no error code.
pub succeeded_iff :
    (result : MutationResult)
    → (v : Verdict) × (normalize_result result none ≡ ok v)
      × ((v.0 ≡ succeeded) ↔ (
          (result.outcome ≡ "success-confirmed")
          × (result.confirmed_absent ≡ true)
          × (code_of result.error_code ≡ "NONE")))
unfolding normalize_result
succeeded_iff result =
    let code = code_of result.error_code in
    let test =
      external_succeeded (claims_success result code) (claims_no_mutation result code)
        (claims_unknown result code) code in
    let claim = claims_success_iff result code in
    (normalize_external result, refl, (λ h. claim.0 (test.0 h), λ h. test.1 (claim.1 h)))
