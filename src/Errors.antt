-- ===== src/Errors.antt =====
-- The exceptions of the retention and remote-deletion code, one constructor for each `raise`, and
-- the results of code that may raise.
use mailarchive.Base.{Bool, true, false, ◌≡◌, refl, ◌⊎◌, inl, inr}

pub data Error : Type 0 where
  -- retention.py: `ValueError` for a naive `now`, and `OverflowError` of
  -- `parsed_archived + timedelta(days=…)`
  now_naive date_overflow : Error
  -- retention.py, `set_control`
  invalid_control_kind invalid_reason unknown_canonical : Error
  -- `int(None)`, a `TypeError`
  int_of_none : Error
  -- remote_mutation.py, `_normalize_result` and `plan_dry_run`
  invalid_internal_code limit_out_of_range : Error
  -- remote_mutation.py, `RuntimeError` of `_planned_target`, a missing key of the reports
  planned_disappeared report_missing : Error
  -- remote_mutation.py, `ProductionPlanError`
  not_opted_in not_completed_dry_run other_account already_executed bad_requested_at : Error
  plan_expired exceeds_limit bad_mutation_state account_inactive contains_other_account : Error
  unresolved_target stale_or_ineligible stale_identity adapter_preflight : Error
  -- remote_mutation.py, `ReconciliationError`
  not_halted_production historical_disappeared : Error
  status_account_unknown run_missing : Error

pub data Outcome (A : Type 0) : Type 0 where
  ok : A → Outcome A
  raised : Error → Outcome A

infixl 5 ◌>>=◌ ◌>>◌
abbrev pub ◌>>=◌ : {A B : Type 0} → Outcome A → (A → Outcome B) → Outcome B
ok value >>= rest = rest value
raised error >>= rest = raised error

abbrev pub ◌>>◌ : {B : Type 0} → Outcome (Unit {0}) → Outcome B → Outcome B
step >> rest = step >>= λ _. rest

-- `if test: raise error`
abbrev pub raise_if : Bool → Error → Outcome (Unit {0})
raise_if true e = raised e
raise_if false e = ok tt

-- A bind returns a value only where its first part does.
pub >>=-eq-ok :
    {A B : Type 0} (first : Outcome A) (rest : A → Outcome B) {b : B}
    → (first >>= rest) ≡ ok b
    → (a : A) × (first ≡ ok a) × (rest a ≡ ok b)
>>=-eq-ok (ok value) rest well = (value, refl, well)
>>=-eq-ok (raised error) rest well = cc

pub raise_if-eq-ok :
    {B : Type 0} (test : Bool) (e : Error) (k : Outcome B) {b : B}
    → (raise_if test e >> k) ≡ ok b
    → (test ≡ false) × (k ≡ ok b)
raise_if-eq-ok true e k h = cc
raise_if-eq-ok false e k h = (refl, h)

pub ok-injective : {A : Type 0} {a b : A} → ok a ≡ ok b → a ≡ b
ok-injective h = cc

-- To split on an outcome and keep the equation.
pub Outcome-cases :
    {A : Type 0} (o : Outcome A) → ((a : A) × (o ≡ ok a)) ⊎ ((e : Error) × (o ≡ raised e))
Outcome-cases (ok a) = inl (a, refl)
Outcome-cases (raised e) = inr (e, refl)

pub raise_if-ok : (test : Bool) (e : Error) → raise_if test e ≡ ok tt → test ≡ false
raise_if-ok true e h = cc
raise_if-ok false e h = refl
