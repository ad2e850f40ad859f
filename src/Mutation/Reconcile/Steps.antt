-- ===== src/Mutation/Reconcile/Steps.antt =====
-- The loop of `reconcile_production_run` in src/mailarchive/remote_mutation.py as a sequence of steps,
-- one for each open mutation.
use mailarchive.Base.{
  ℕ, ◌≡◌, ◌≢◌, refl, sym, ap, ◌∙◌, Bool, true, false, Option, none, some, String, ◌==◌, str_eq,
  eq_iff, if◌then◌else◌, ◌⊎◌, inl, inr,
}
use mathlib.Core.Path.{subst}
use mailarchive.Base.Rows.{find-update_where}
use mailarchive.Db.{Db, MutationRow, Status, started, succeeded, failed, unknown}
use mailarchive.Mutation.Target.{DeletionTarget}
use mailarchive.Mutation.Query.{mutation_by_id}
use mailarchive.Mutation.Engine.{set_mutation}
use mailarchive.Mutation.Reconcile.{
  Observation, confirmed_absent, confirmed_present_match, identity_conflict, unobserved,
  observation_of, update_presence, still_open, reconciled, resolve,
}

-- The observer said this word.
abbrev pub is_answer : String → Option String → Bool
is_answer word none = false
is_answer word (some said) = str_eq said word

-- What an answer of the observer does to a mutation: absent is a success, present a failure, and
-- both set the presence of the message; anything else leaves an open outcome, as unknown.
pub data Resolves (target : DeletionTarget) (answer : Option String) (db after_db : Db)
    (before after : MutationRow) : Type 0 where
  gone :
      answer ≡ some "confirmed-absent"
      → after.status ≡ succeeded
      → after.error_code ≡ some "NONE"
      → after_db.remote_messages ≡ (update_presence target false db).remote_messages
      → Resolves target answer db after_db before after
  there :
      answer ≡ some "confirmed-present-match"
      → after.status ≡ failed
      → after.error_code ≡ some "RECONCILED_PRESENT"
      → after_db.remote_messages ≡ (update_presence target true db).remote_messages
      → Resolves target answer db after_db before after
  undecided :
      is_answer "confirmed-absent" answer ≡ false
      → is_answer "confirmed-present-match" answer ≡ false
      → (before.status ≡ started → after.status ≡ unknown)
      → (before.status ≢ started → after ≡ before)
      → after_db.remote_messages ≡ db.remote_messages
      → Resolves target answer db after_db before after

-- The row of the mutation after the second transaction.
pub still_row : Status → String → MutationRow → MutationRow
still_row started now m = record m {
  status = unknown;
  completed_at = some now;
  provider_response_summary = some "outcome-uncertain";
  error_code = some "TRANSPORT_UNKNOWN";
}
still_row _ now m = m

abbrev pub resolved_row : Observation → String → MutationRow → MutationRow
resolved_row confirmed_absent now m = reconciled succeeded "confirmed-absent" "NONE" now m
resolved_row confirmed_present_match now m =
    reconciled failed "confirmed-no-mutation" "RECONCILED_PRESENT" now m
resolved_row _ now m = still_row m.status now m

set_mutation-row :
    (id : ℕ) (f : MutationRow → MutationRow) (db : Db) (before : MutationRow)
    → ((m : MutationRow) → (f m).id ≡ m.id)
    → mutation_by_id db id ≡ some before
    → mutation_by_id (set_mutation id f db) id ≡ some (f before)
unfolding mutation_by_id set_mutation
set_mutation-row id f db before keeps h =
    find-update_where (λ (m : MutationRow). m.id == id) f db.remote_mutations before
      (λ m. ap (λ n. n == id) (keeps m)) h

still_open-row :
    (status : Status) (id : ℕ) (now : String) (db : Db) (before : MutationRow)
    → mutation_by_id db id ≡ some before
    → mutation_by_id (still_open status id now db) id ≡ some (still_row status now before)
unfolding still_open still_row
still_open-row started id now db before h = set_mutation-row id _ db before (λ m. refl) h
still_open-row _ id now db before h = h

pub resolve_lem :
    (state : Observation) (id : ℕ) (target : DeletionTarget) (now : String) (db : Db)
    (before : MutationRow)
    → mutation_by_id db id ≡ some before
    → mutation_by_id (resolve state before.status id target now db) id
      ≡ some (resolved_row state now before)
unfolding resolve update_presence mutation_by_id
resolve_lem confirmed_absent id target now db before h =
    set_mutation-row id _ db before (λ m. refl) h
resolve_lem confirmed_present_match id target now db before h =
    set_mutation-row id _ db before (λ m. refl) h
resolve_lem identity_conflict id target now db before h =
    still_open-row before.status id now db before h
resolve_lem unobserved id target now db before h = still_open-row before.status id now db before h

still_open-messages :
    (status : Status) (id : ℕ) (now : String) (db : Db)
    → (still_open status id now db).remote_messages ≡ db.remote_messages
unfolding still_open set_mutation
still_open-messages started id now db = refl
still_open-messages _ id now db = refl

still_unknown :
    (status : Status) (now : String) (m : MutationRow)
    → status ≡ started
    → (still_row status now m).status ≡ unknown
unfolding still_row
still_unknown started now m h = refl
still_unknown _ now m h = cc h

still_same :
    (status : Status) (now : String) (m : MutationRow)
    → status ≢ started
    → still_row status now m ≡ m
unfolding still_row
still_same started now m h = absurd (h refl)
still_same _ now m h = refl

Resolves-undecided :
    (target : DeletionTarget) (answer : Option String) (state : Observation) (id : ℕ) (now : String)
    (db : Db) (before : MutationRow)
    → is_answer "confirmed-absent" answer ≡ false
    → is_answer "confirmed-present-match" answer ≡ false
    → (state ≡ identity_conflict) ⊎ (state ≡ unobserved)
    → Resolves target answer db
        (resolve state before.status id target now db)
        before
        (resolved_row state now before)
unfolding resolve
Resolves-undecided target answer state id now db before h k (inl e) =
    subst
      (λ o.
        Resolves target answer db (resolve o before.status id target now db) before
          (resolved_row o now before))
      (sym e)
      (undecided h k (still_unknown before.status now before) (still_same before.status now before)
        (still_open-messages before.status id now db))
Resolves-undecided target answer state id now db before h k (inr e) =
    subst
      (λ o.
        Resolves target answer db (resolve o before.status id target now db) before
          (resolved_row o now before))
      (sym e)
      (undecided h k (still_unknown before.status now before) (still_same before.status now before)
        (still_open-messages before.status id now db))

-- The three ways in which an answer is read.
pub data Reads : Option String → Observation → Type 0 where
  reads_gone :
      {answer : Option String} → answer ≡ some "confirmed-absent" → Reads answer confirmed_absent
  reads_there :
      {answer : Option String}
      → answer ≡ some "confirmed-present-match"
      → Reads answer confirmed_present_match
  reads_neither :
      {answer : Option String} {state : Observation}
      → is_answer "confirmed-absent" answer ≡ false
      → is_answer "confirmed-present-match" answer ≡ false
      → (state ≡ identity_conflict) ⊎ (state ≡ unobserved)
      → Reads answer state

pub observation_of-Reads : (answer : Option String) → Reads answer (observation_of answer)
unfolding observation_of
observation_of-Reads none = reads_neither refl refl (inr refl)
observation_of-Reads (some said) =
    by_word (str_eq said "confirmed-absent") (str_eq said "confirmed-present-match")
      (str_eq said "identity-conflict") refl refl
  where
    by_word :
        (b c d : Bool)
        → str_eq said "confirmed-absent" ≡ b
        → str_eq said "confirmed-present-match" ≡ c
        → Reads (some said) (
            if b
            then confirmed_absent
            else if c
            then confirmed_present_match
            else if d
            then identity_conflict
            else unobserved)
    by_word true c d e f = reads_gone (ap some ((eq_iff said "confirmed-absent").0 e))
    by_word false true d e f = reads_there (ap some ((eq_iff said "confirmed-present-match").0 f))
    by_word false false true e f = reads_neither e f (inl refl)
    by_word false false false e f = reads_neither e f (inr refl)

pub Reads-Resolves :
    (target : DeletionTarget) (answer : Option String) (state : Observation) (id : ℕ) (now : String)
    (db : Db) (before : MutationRow)
    → Reads answer state
    → Resolves target answer db
        (resolve state before.status id target now db)
        before
        (resolved_row state now before)
unfolding resolve reconciled update_presence set_mutation
Reads-Resolves target answer confirmed_absent id now db before (reads_gone h) =
    gone h refl refl refl
Reads-Resolves target answer confirmed_present_match id now db before (reads_there h) =
    there h refl refl refl
Reads-Resolves target answer state id now db before (reads_neither h k e) =
    Resolves-undecided target answer state id now db before h k e

-- The effect is one on the messages, whatever else of the database changes beside it.
pub Resolves-beside :
    (target : DeletionTarget) (answer : Option String) (db db' after after' : Db)
    (before row : MutationRow)
    → ((p : Bool)
        → (update_presence target p db).remote_messages
          ≡ (update_presence target p db').remote_messages)
    → db.remote_messages ≡ db'.remote_messages
    → after'.remote_messages ≡ after.remote_messages
    → Resolves target answer db after before row
    → Resolves target answer db' after' before row
Resolves-beside target answer db db' after after' before row f g h (gone a b c d) =
    gone a b c (h ∙ d ∙ f false)
Resolves-beside target answer db db' after after' before row f g h (there a b c d) =
    there a b c (h ∙ d ∙ f true)
Resolves-beside target answer db db' after after' before row f g h (undecided a b c d e) =
    undecided a b c d (h ∙ e ∙ g)
