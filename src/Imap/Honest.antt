-- ===== src/Imap/Honest.antt =====
-- When `ImapMutationAdapter.delete` of src/mailarchive/imap_mutation.py reports that the message is
-- absent.
use mailarchive.Base.{
  ℕ, ◌≡◌, refl, Bool, true, false, Option, none, some, String, ◌⊎◌, inl, inr, str_eq,
}
use mailarchive.Host.{Host}
use mailarchive.Models.{AccountConfig}
use mailarchive.Mutation.Target.{DeletionTarget}
use mailarchive.Mutation.Result.{MutationResult}
use mailarchive.Pop3.{failure, secret_of}
use mailarchive.Imap.Response.{Observed}
use mailarchive.Imap.Delete.{
  opened, asked, Clients, Session, Called, done, caught, escaped, ◌>>=◌, attempt, call, Exact,
  valid, same_namespace, fetch_observation, select, login, store,
}
use mailarchive.Imap.Absent.{
  IsAbsent, IsTrue, Honest, >>=-Honest, retry-Honest, finally-Honest, IsAbsent-when, store-Honest,
}
use mailarchive.Imap.Attempt.{
  check_observed, check_selected, check_capable, check_accepted, check, supported, delete_open,
  delete_connected, delete_locked, delete_exact, delete,
}

module _ {W : Type 0} (host : Host W) (clients : Clients W) (account : AccountConfig)
    (account_id : ℕ) where
  abbrev Target : Type 0
  Target = Exact host clients account account_id

  -- The same of what is returned before `STORE`.
  abbrev Early : Target → Called W (Option MutationResult) → Type 0
  Early exact (done none s) = Unit
  Early exact (done (some result) s) = IsTrue host clients account account_id exact result
  Early exact (caught s) = Unit
  Early exact (escaped s) = Unit

  >>=-Early :
      {A : Type 0} (exact : Target) (e : Called W A)
      (rest : A → Session W → Called W (Option MutationResult))
      → ((a : A) (s : Session W) → e ≡ done a s → Early exact (rest a s))
      → Early exact (e >>= rest)
  >>=-Early exact (done a s) rest r = r a s refl
  >>=-Early exact (caught s) rest r = tt
  >>=-Early exact (escaped s) rest r = tt

  elim-Early :
      (exact : Target) (b : Bool) (x y : Called W (Option MutationResult))
      → Early exact x
      → Early exact y
      → Early exact (elim b [ false ↦ x | true ↦ y ])
  elim-Early exact false x y h k = h
  elim-Early exact true x y h k = k

  attempt-Early :
      {A : Type 0} (exact : Target) (e : Called W A)
      (handler : Session W → Called W (Option MutationResult))
      (rest : A → Session W → Called W (Option MutationResult))
      → ((s : Session W) → Early exact (handler s))
      → ((a : A) (s : Session W) → e ≡ done a s → Early exact (rest a s))
      → Early exact (attempt e handler rest)
  attempt-Early exact (done a s) handler rest h r = r a s refl
  attempt-Early exact (caught s) handler rest h r = h s
  attempt-Early exact (escaped s) handler rest h r = tt

  check_selected-Early :
      (exact : Target) (s : Session W)
      → Early exact (check_selected host clients account account_id exact s)
  unfolding check_selected check_observed
  check_selected-Early exact s =
      >>=-Early exact (same_namespace host clients account account_id 0 exact s) _ named_then
    where
      deleted_or :
          (deleted : Bool) (u : Session W)
          → Early exact (
              done
                (elim deleted [ true ↦ some (failure "REMOTE_STATE_CONFLICT") | false ↦ none ])
                u)
      deleted_or true u = inl refl
      deleted_or false u = tt

      bytes_or :
          (same deleted : Bool) (u : Session W)
          → Early exact (
              done
                (elim same [
                  | false ↦ some (failure "IDENTITY_MISMATCH")
                  | true ↦ elim deleted [
                    | true ↦ some (failure "REMOTE_STATE_CONFLICT")
                    | false ↦ none
                  ]
                ])
                u)
      bytes_or false deleted u = inl refl
      bytes_or true deleted u = deleted_or deleted u

      found_then :
          (t u : Session W) (found : Option Observed)
          → same_namespace host clients account account_id 0 exact s ≡ done true t
          → fetch_observation host clients account account_id 0 exact t ≡ done found u
          → Early exact (done (check_observed host clients account account_id exact found) u)
      found_then t u none e f =
          inr (IsAbsent-when host clients account account_id exact 0 s t u e f)
      found_then t u (some observed) e f =
          bytes_or (str_eq (host.sha256 observed.raw) exact.sha256) observed.deleted u

      named_then :
          (same : Bool) (t : Session W)
          → same_namespace host clients account account_id 0 exact s ≡ done same t
          → Early exact (elim same [
            | false ↦ done (some (failure "IDENTITY_MISMATCH")) t
            | true ↦
                attempt
                  (fetch_observation host clients account account_id 0 exact t)
                  (done (some (failure "PROVIDER_REJECTED")))
                  (λ found u. done (check_observed host clients account account_id exact found) u)
          ])
      named_then false t e = inl refl
      named_then true t e =
          attempt-Early exact (fetch_observation host clients account account_id 0 exact t) _ _
            (λ u. inl refl) (λ found u f. found_then t u found e f)

  check_capable-Early :
      (exact : Target) (s : Session W)
      → Early exact (check_capable host clients account account_id exact s)
  unfolding check_capable
  check_capable-Early exact s =
      >>=-Early exact (select host clients account account_id 0 false exact s) _ λ writable t _.
        elim-Early exact writable (done (some (failure "PROVIDER_REJECTED")) t) _ (inl refl)
          (check_selected-Early exact t)

  check-Early :
      (password : String) (exact : Target) (s : Session W)
      → Early exact (check host clients account account_id password exact s)
  unfolding check check_accepted
  check-Early password exact s =
      >>=-Early exact (login host clients account account_id 0 password exact s) _ λ accepted t _.
        elim-Early exact accepted (done (some (failure "PROVIDER_REJECTED")) t) _ (inl refl) (
          >>=-Early exact (call asked (clients.capability 0) t) _ λ answer u _.
            >>=-Early exact (supported host clients account account_id answer u) _ λ capable v _.
              elim-Early exact capable (done (some (failure "SAFE_DELETE_UNSUPPORTED")) v) _
                (inl refl) (check_capable-Early exact v))

  delete_open-Honest :
      (password : String) (exact : Target) (s : Session W)
      → Honest host clients account account_id exact
          (delete_open host clients account account_id password exact s)
  unfolding delete_open
  delete_open-Honest password exact s =
      after (check host clients account account_id password exact s) (check-Early password exact s)
    where
      after :
          (c : Called W (Option MutationResult))
          → Early exact c
          → Honest host clients account account_id exact (
              c >>= λ early t. elim early [
                | some result ↦ done result t
                | none ↦ store host clients account account_id password exact t
              ])
      after (done (some result) t) h = h
      after (done none t) h = store-Honest host clients account account_id password exact t
      after (caught t) h = tt
      after (escaped t) h = tt

  locked-Honest :
      (password : String) (exact : Target) (s : Session W)
      → Honest host clients account account_id exact
          (delete_locked host clients account account_id password exact s)
  unfolding delete_locked delete_connected
  locked-Honest password exact s =
      retry-Honest host clients account account_id exact
        (delete_connected host clients account account_id password exact s)
        (done (failure "PROVIDER_REJECTED"))
        (>>=-Honest host clients account account_id exact (call opened (clients.connect 0) s) _
          λ _ t _.
            finally-Honest host clients account account_id exact
              (delete_open host clients account account_id password exact t) _
              (delete_open-Honest password exact t))
        (λ t. inl refl)

  -- A result that claims absence only for a valid target whose absence was observed.
  abbrev pub IsHonest : Option Target → Called W MutationResult → Type 0
  IsHonest o (done result s) =
      (result.confirmed_absent ≡ false)
      ⊎ ((exact : Target) × (o ≡ some exact) × IsAbsent host clients account account_id exact)
  IsHonest o (caught s) = Unit
  IsHonest o (escaped s) = Unit

  Honest-some :
      (exact : Target) (c : Called W MutationResult)
      → Honest host clients account account_id exact c
      → IsHonest (some exact) c
  Honest-some exact (done result s) (inl h) = inl h
  Honest-some exact (done result s) (inr absent) = inr (exact, refl, absent)
  Honest-some exact (caught s) h = tt
  Honest-some exact (escaped s) h = tt

  exact-IsHonest :
      (o : Option Target) (password : Option String) (s : Session W)
      → IsHonest o (delete_exact host clients account account_id o password s)
  unfolding delete_exact
  exact-IsHonest none password s = inl refl
  exact-IsHonest (some exact) none s = inl refl
  exact-IsHonest (some exact) (some password) s = busy_or (clients.busy exact.folder s.world)
    where
      busy_or :
          (busy : Bool)
          → IsHonest (some exact) (elim busy [
            | true ↦ done (failure "PROVIDER_REJECTED") s
            | false ↦ delete_locked host clients account account_id password exact s
          ])
      busy_or true = inl refl
      busy_or false = Honest-some exact _ (locked-Honest password exact s)

  -- A result of an attempt to delete that says the message is absent is one for a target that is
  -- valid for this account, and there was a read of its UID, right after its UIDVALIDITY was found
  -- to be the target's, in which the server had no such message.
  pub imap_delete-IsHonest :
      (target : DeletionTarget) (password : Option String) (s : Session W)
      → IsHonest
          (valid host clients account account_id target)
          (delete host clients account account_id target password s)
  unfolding delete
  imap_delete-IsHonest target password s =
      exact-IsHonest (valid host clients account account_id target) (secret_of password) s
