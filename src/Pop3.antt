-- ===== src/Pop3.antt =====
-- `Pop3MutationAdapter` of src/mailarchive/pop3_mutation.py over the protocol `Pop3MutationWire`:
-- one deletion attempt for one UIDL. `sent` records, newest first, what was asked of a wire.
pub mod Octets
pub mod Connection
pub mod Stream
pub mod Payload
pub mod Listing
pub mod Ends
pub mod Acquire
pub mod Commands
pub mod ReadOnly
pub mod Once
use mailarchive.Base.{
  ℕ, ◌≡◌, refl, Bool, true, false, not, ◌&&◌, ◌||◌, Option, none, some, String, List, [], ◌∷◌, ◌==◌,
  str_eq, if◌then◌else◌,
}
use mailarchive.Base.Lists.{find}
use mailarchive.Host.{Host, Bytes}
use mailarchive.Models.{AccountConfig, Kind, kind_eq, Pop3Config}
use mailarchive.Mutation.Target.{DeletionTarget, Identity, imap_identity, provider_identity}
use mailarchive.Mutation.Result.{MutationResult}
use mailarchive.Mutation.Reconcile.{
  Observation, confirmed_absent, confirmed_present_match, identity_conflict, unobserved,
}

-- What a call on a wire returns: `Pop3IdentityConflictError`, or `OSError` or another
-- `Pop3MutationError`, where it raises.
pub data Reply (A : Type 0) : Type 0 where
  received : A → Reply A
  ambiguous broken : Reply A

pub data Command : Type 0 where
  opened authenticated listed : Command
  retrieved deleted : ℕ → Command
  quit aborted : Command

-- The wire that `wire_factory` makes, the lock, and the words of Python that the adapter uses;
-- `true` where a call does not raise.
-- An exception that the adapter lets through, of `encode` or `int`, is not modelled.
pub record Wire (W : Type 0) : Type 0 where
  pub connect : W → Bool × W
  pub authenticate : String → String → W → Bool × W
  pub uidls : W → Reply (List (ℕ × String)) × W
  pub retr : ℕ → W → Reply Bytes × W
  pub dele : ℕ → W → Bool × W
  pub quit_and_commit : W → Bool × W
  pub abort_without_quit : W → W
  -- `Pop3SyncBusyError` of `pop3_lock`
  pub busy : W → Bool
  -- `any(char.isspace() for char in value)`, and `part in value`
  pub has_space : String → Bool
  pub includes : String → String → Bool

pub record Session (W : Type 0) : Type 0 where
  pub world : W
  pub sent : List Command

-- `_failure`, `_unknown`, and the confirmation of an absent message.
abbrev pub failure : String → MutationResult
failure code = record {
  outcome = "failure-confirmed-no-mutation";
  confirmed_absent = false;
  error_code = some code;
}

abbrev pub unknown_outcome : MutationResult
unknown_outcome = record {
  outcome = "outcome-unknown";
  confirmed_absent = false;
  error_code = some "TRANSPORT_UNKNOWN";
}

abbrev pub success : MutationResult
success = record { outcome = "success-confirmed"; confirmed_absent = true; error_code = none }

-- `not password`
unfoldable pub secret_of : Option String → Option String
secret_of none = none
secret_of (some password) = if str_eq password "" then none else some password

-- `inverse.get(uidl)`: of two entries with one UIDL the last counts.
unfoldable pub last_number : String → List (ℕ × String) → Option ℕ
last_number uidl [] = none
last_number uidl (entry ∷ entries) = elim (last_number uidl entries) [
  | some number ↦ some number
  | none ↦ if str_eq entry.1 uidl then some entry.0 else none
]

-- `next((item for item, uidl in uidls.items() if uidl == …), None)`
unfoldable pub first_number : String → List (ℕ × String) → Option ℕ
first_number uidl [] = none
first_number uidl (entry ∷ entries) =
    if str_eq entry.1 uidl then some entry.0 else first_number uidl entries

-- `wire.dele(number)`, recorded with the number that the server is given.
abbrev pub send_dele : {W : Type 0} → Wire W → ℕ → Session W → Bool × Session W
send_dele wire number s =
    let (done, world) = wire.dele number s.world in
    (done, record { world = world; sent = deleted number ∷ s.sent })

module _ {W : Type 0} (host : Host W) (wire : Wire W) (account : AccountConfig)
    (account_id : ℕ) where
  -- `_target`: the UIDL, where the target is one for this account.
  unfoldable pub valid_uidl : Option Pop3Config → String → Bool
  valid_uidl none uidl = false
  valid_uidl (some settings) uidl =
      account.enabled
      && not (str_eq uidl "")
      && not (wire.has_space uidl)
      && not (wire.includes "\r" uidl)
      && not (wire.includes "\n" uidl)

  unfoldable pub exact_uidl : DeletionTarget → Identity → Option String
  unfolding valid_uidl
  exact_uidl target (imap_identity folder uidvalidity uid) = none
  exact_uidl target (provider_identity uidl) =
      if kind_eq target.provider_kind Kind.pop3
        && target.account_id == account_id
        && str_eq target.account_name account.name
        && valid_uidl account.pop3 uidl
      then some uidl
      else none

  unfoldable pub log : Command → W → Session W → Session W
  log command world s = record { world = world; sent = command ∷ s.sent }

  unfoldable pub abort : Session W → Session W
  unfolding log
  abort s = log aborted (wire.abort_without_quit s.world) s

  username : Option Pop3Config → String
  username none = ""
  username (some settings) = settings.username

  -- `_session`: false where it raises.
  unfoldable pub session : String → Session W → Bool × Session W
  unfolding log username
  session password s =
      let (up, world) = wire.connect s.world in
      let opening = log opened world s in
      if up
      then (
        (wire.authenticate (username account.pop3) password world).0,
        log authenticated (wire.authenticate (username account.pop3) password world).1 opening,
      )
      else (false, opening)

  unfoldable pub list : Session W → Reply (List (ℕ × String)) × Session W
  unfolding log
  list s = let (reply, world) = wire.uidls s.world in (reply, log listed world s)

  unfoldable pub retrieve : ℕ → Session W → Reply Bytes × Session W
  unfolding log
  retrieve number s =
      let (reply, world) = wire.retr number s.world in (reply, log (retrieved number) world s)

  -- `_observe_unlocked` after `RETR`.
  unfoldable pub observed_bytes : String → Reply Bytes → Observation
  observed_bytes sha256 (received raw) =
      if str_eq (host.sha256 raw) sha256 then confirmed_present_match else identity_conflict
  observed_bytes sha256 ambiguous = identity_conflict
  observed_bytes sha256 broken = unobserved

  unfoldable pub observe_number : String → Option ℕ → Session W → Observation × Session W
  unfolding observed_bytes retrieve
  observe_number sha256 none s = (confirmed_absent, s)
  observe_number sha256 (some number) s =
      let (reply, s') = retrieve number s in (observed_bytes sha256 reply, s')

  unfoldable pub observe_listing :
      String → String → Reply (List (ℕ × String)) → Session W → Observation × Session W
  unfolding observe_number
  observe_listing uidl sha256 (received entries) s =
      observe_number sha256 (last_number uidl entries) s
  observe_listing uidl sha256 ambiguous s = (identity_conflict, s)
  observe_listing uidl sha256 broken s = (unobserved, s)

  unfoldable pub observe_session : String → String → Bool × Session W → Observation × Session W
  unfolding observe_listing list
  observe_session uidl sha256 (false, s) = (unobserved, s)
  observe_session uidl sha256 (true, s) =
      let (reply, s') = list s in
      let (state, last) = observe_listing uidl sha256 reply s' in (state, abort last)

  -- `_observe_unlocked`
  unfoldable pub observe_unlocked : String → String → String → Session W → Observation × Session W
  unfolding observe_session session
  observe_unlocked uidl sha256 password s = observe_session uidl sha256 (session password s)

  -- `_observe`
  unfoldable pub result_of_observation : Observation → MutationResult
  result_of_observation confirmed_absent = success
  result_of_observation confirmed_present_match = failure "PROVIDER_REJECTED"
  result_of_observation _ = unknown_outcome

  unfoldable pub confirm : String → String → String → Session W → MutationResult × Session W
  unfolding observe_unlocked result_of_observation
  confirm uidl sha256 password s =
      let (state, s') = observe_unlocked uidl sha256 password s in (result_of_observation state, s')

  -- `QUIT`, and the fresh observation; where `QUIT` raises, the wire is closed after it.
  unfoldable pub commit_quit : String → String → String → Session W → MutationResult × Session W
  commit_quit uidl sha256 password s =
      let (done, world) = wire.quit_and_commit s.world in
      let (result, s') = confirm uidl sha256 password (log quit world s) in
      (result, if done then s' else abort s')

  unfoldable pub delete_number :
      String → String → String → ℕ → Session W → MutationResult × Session W
  unfolding commit_quit confirm
  delete_number uidl sha256 password number s =
      let (done, sending) = send_dele wire number s in
      if done
      then commit_quit uidl sha256 password sending
      else confirm uidl sha256 password (abort sending)

  unfoldable pub delete_bytes :
      String → String → String → ℕ → Reply Bytes → Session W → MutationResult × Session W
  unfolding delete_number abort
  delete_bytes uidl sha256 password number (received raw) s =
      if str_eq (host.sha256 raw) sha256
      then delete_number uidl sha256 password number s
      else (failure "IDENTITY_MISMATCH", abort s)
  delete_bytes uidl sha256 password number _ s = (failure "PROVIDER_REJECTED", abort s)

  unfoldable pub delete_found :
      String → String → String → Option ℕ → Session W → MutationResult × Session W
  unfolding delete_bytes retrieve
  delete_found uidl sha256 password none s = (success, abort s)
  delete_found uidl sha256 password (some number) s =
      let (reply, s') = retrieve number s in delete_bytes uidl sha256 password number reply s'

  unfoldable pub delete_listing :
      String → String → String → Reply (List (ℕ × String)) → Session W → MutationResult × Session W
  unfolding delete_found
  delete_listing uidl sha256 password (received entries) s =
      delete_found uidl sha256 password (first_number uidl entries) s
  delete_listing uidl sha256 password _ s = (failure "PROVIDER_REJECTED", abort s)

  unfoldable pub delete_session :
      String → String → String → Bool × Session W → MutationResult × Session W
  unfolding delete_listing list
  delete_session uidl sha256 password (false, s) = (failure "PROVIDER_REJECTED", s)
  delete_session uidl sha256 password (true, s) =
      let (reply, s') = list s in delete_listing uidl sha256 password reply s'

  unfoldable pub delete_exact :
      String → Option String → Option String → Session W → MutationResult × Session W
  unfolding delete_session session
  delete_exact sha256 none password s = (failure "IDENTITY_MISMATCH", s)
  delete_exact sha256 (some uidl) none s = (failure "IDENTITY_MISMATCH", s)
  delete_exact sha256 (some uidl) (some password) s =
      if wire.busy s.world
      then (failure "REMOTE_STATE_CONFLICT", s)
      else delete_session uidl sha256 password (session password s)

  -- `delete`; `password` is the value of the environment's variable.
  unfoldable pub delete : DeletionTarget → Option String → Session W → MutationResult × Session W
  unfolding delete_exact exact_uidl
  delete target password s =
      delete_exact target.canonical_sha256 (exact_uidl target target.identity) (secret_of password)
        s

  unfoldable pub observe_exact :
      String → Option String → Option String → Session W → Observation × Session W
  unfolding observe_unlocked
  observe_exact sha256 none password s = (identity_conflict, s)
  observe_exact sha256 (some uidl) none s = (unobserved, s)
  observe_exact sha256 (some uidl) (some password) s =
      if wire.busy s.world then (unobserved, s) else observe_unlocked uidl sha256 password s

  -- `observe`
  unfoldable pub observe : DeletionTarget → Option String → Session W → Observation × Session W
  unfolding observe_exact exact_uidl
  observe target password s =
      observe_exact target.canonical_sha256 (exact_uidl target target.identity) (secret_of password)
        s
