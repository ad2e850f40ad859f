-- ===== src/Imap/Attempt.antt =====
-- `delete` and `observe` of `ImapMutationAdapter` in src/mailarchive/imap_mutation.py.
use mailarchive.Base.{ℕ, Bool, true, false, Option, none, some, String, List, str_eq}
use mailarchive.Base.Lists.{any}
use mailarchive.Base.Text.{codes}
use mailarchive.Host.{Host}
use mailarchive.Models.{AccountConfig}
use mailarchive.Mutation.Target.{DeletionTarget}
use mailarchive.Mutation.Result.{MutationResult}
use mailarchive.Mutation.Reconcile.{
  Observation, confirmed_absent, confirmed_present_match, identity_conflict, unobserved,
}
use mailarchive.Pop3.{failure, success, secret_of}
use mailarchive.Pop3.Octets.{bytes_eq}
use mailarchive.Imap.{Item}
use mailarchive.Imap.Response.{capabilities, Observed}
use mailarchive.Imap.Delete.{
  opened, asked, unselected, Clients, Session, Called, done, ◌>>=◌, attempt, finally, log, call,
  reading, Exact, valid, same_namespace, fetch_observation, is_match, login, select, logging_out,
  store,
}

module _ {W : Type 0} (host : Host W) (clients : Clients W) (account : AccountConfig)
    (account_id : ℕ) where
  abbrev Target : Type 0
  Target = Exact host clients account account_id

  -- `status != "OK" or b"UIDPLUS" not in _capabilities(capability)`, as what is supported
  unfoldable pub supported : Bool × List Item → Session W → Called W Bool
  supported (false, items) s = done false s
  supported (true, items) s = reading (capabilities items) s >>= λ tokens s.
      done (any (bytes_eq (codes "UIDPLUS")) tokens) s

  unfoldable pub check_observed : Target → Option Observed → Option MutationResult
  check_observed exact none = some success
  check_observed exact (some observed) = elim (str_eq (host.sha256 observed.raw) exact.sha256) [
    | false ↦ some (failure "IDENTITY_MISMATCH")
    | true ↦ elim observed.deleted [ true ↦ some (failure "REMOTE_STATE_CONFLICT") | false ↦ none ]
  ]

  -- The part of `delete` before `STORE`: what it returns early, or `none` where it goes on.
  unfoldable pub check_selected : Target → Session W → Called W (Option MutationResult)
  unfolding check_observed
  check_selected exact s = same_namespace host clients account account_id 0 exact s >>= λ same s.
      elim same [
        | false ↦ done (some (failure "IDENTITY_MISMATCH")) s
        | true ↦
            attempt (fetch_observation host clients account account_id 0 exact s)
              (done (some (failure "PROVIDER_REJECTED")))
              (λ found s. done (check_observed exact found) s)
      ]

  unfoldable pub check_capable : Target → Session W → Called W (Option MutationResult)
  unfolding check_selected
  check_capable exact s = select host clients account account_id 0 false exact s >>= λ writable s.
      elim writable [
        | false ↦ done (some (failure "PROVIDER_REJECTED")) s
        | true ↦ check_selected exact s
      ]

  unfoldable pub check_accepted : Target → Session W → Called W (Option MutationResult)
  unfolding check_capable supported
  check_accepted exact s = call asked (clients.capability 0) s >>= λ answer s.
      supported answer s >>= λ capable s. elim capable [
        | false ↦ done (some (failure "SAFE_DELETE_UNSUPPORTED")) s
        | true ↦ check_capable exact s
      ]

  unfoldable pub check : String → Target → Session W → Called W (Option MutationResult)
  unfolding check_accepted
  check password exact s =
      login host clients account account_id 0 password exact s >>= λ accepted s. elim accepted [
        | false ↦ done (some (failure "PROVIDER_REJECTED")) s
        | true ↦ check_accepted exact s
      ]

  unfoldable pub delete_open : String → Target → Session W → Called W MutationResult
  unfolding check
  delete_open password exact s = check password exact s >>= λ early s. elim early [
    | some result ↦ done result s
    | none ↦ store host clients account account_id password exact s
  ]

  -- The `finally` of `delete` and of `observe`.
  unfoldable pub closing_on : Option (ℕ → W → Bool × W) → Session W → Session W
  closing_on none s = logging_out host clients account account_id 0 s
  closing_on (some unselect) s =
      let (fine, world) = unselect 0 s.world in
      elim fine [
        | true ↦ logging_out host clients account account_id 0 (log unselected world s)
        | false ↦ log unselected world s
      ]

  unfoldable pub closing : Session W → Session W
  unfolding closing_on
  closing s = closing_on clients.unselect s

  unfoldable pub delete_connected : String → Target → Session W → Called W MutationResult
  unfolding delete_open closing
  delete_connected password exact s =
      call opened (clients.connect 0) s >>= λ _ s. finally (delete_open password exact s) closing

  unfoldable pub delete_locked : String → Target → Session W → Called W MutationResult
  unfolding delete_connected
  delete_locked password exact s =
      attempt (delete_connected password exact s) (done (failure "PROVIDER_REJECTED")) done

  unfoldable pub delete_exact : Option Target → Option String → Session W → Called W MutationResult
  unfolding delete_locked
  delete_exact none password s = done (failure "IDENTITY_MISMATCH") s
  delete_exact (some exact) none s = done (failure "PROVIDER_REJECTED") s
  delete_exact (some exact) (some password) s = elim (clients.busy exact.folder s.world) [
    | true ↦ done (failure "PROVIDER_REJECTED") s
    | false ↦ delete_locked password exact s
  ]

  -- `password` is the value of the environment's variable.
  unfoldable pub delete : DeletionTarget → Option String → Session W → Called W MutationResult
  unfolding delete_exact
  delete target password s =
      delete_exact (valid host clients account account_id target) (secret_of password) s

  unfoldable pub observed_state : Target → Option Observed → Observation
  observed_state exact none = confirmed_absent
  observed_state exact (some observed) =
      elim (is_match host clients account account_id exact observed) [
        | true ↦ confirmed_present_match
        | false ↦ identity_conflict
      ]

  -- `_observe_selected`
  unfoldable pub observe_selected : Target → Session W → Called W Observation
  unfolding observed_state
  observe_selected exact s = same_namespace host clients account account_id 0 exact s >>= λ same s.
      elim same [
        | false ↦ done identity_conflict s
        | true ↦ fetch_observation host clients account account_id 0 exact s >>= λ found s.
            done (observed_state exact found) s
      ]

  unfoldable pub observe_open : String → Target → Session W → Called W Observation
  unfolding observe_selected
  observe_open password exact s =
      login host clients account account_id 0 password exact s >>= λ accepted s. elim accepted [
        | false ↦ done unobserved s
        | true ↦ select host clients account account_id 0 true exact s >>= λ readable s.
            elim readable [ false ↦ done unobserved s | true ↦ observe_selected exact s ]
      ]

  unfoldable pub observe_exact : Option Target → Option String → Session W → Called W Observation
  unfolding observe_open closing
  observe_exact none password s = done identity_conflict s
  observe_exact (some exact) none s = done unobserved s
  observe_exact (some exact) (some password) s = elim (clients.busy exact.folder s.world) [
    | true ↦ done unobserved s
    | false ↦
        attempt
          (call opened (clients.connect 0) s >>= λ _ s.
            finally (observe_open password exact s) closing)
          (done unobserved) done
  ]

  unfoldable pub observe : DeletionTarget → Option String → Session W → Called W Observation
  unfolding observe_exact
  observe target password s =
      observe_exact (valid host clients account account_id target) (secret_of password) s
