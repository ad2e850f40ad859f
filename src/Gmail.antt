-- ===== src/Gmail.antt =====
-- `GmailMutationAdapter.delete` of src/mailarchive/gmail_mutation.py over the protocol
-- `MutationTransport`: one `DELETE` for one message id, and reads around it. `deleted` records the
-- ids of the `DELETE` requests, newest first.
pub mod Once
use mailarchive.Base.{
  ℕ, Bool, true, false, not, ◌&&◌, ◌||◌, Option, none, some, String, List, [], ◌∷◌, ◌==◌, str_eq,
  is_none, if◌then◌else◌,
}
use mailarchive.Host.{Host, Bytes}
use mailarchive.Models.{AccountConfig, GmailConfig, Kind, kind_eq}
use mailarchive.Mutation.Target.{DeletionTarget, Identity, imap_identity, provider_identity}
use mailarchive.Mutation.Result.{MutationResult}
use mailarchive.Pop3.{failure, unknown_outcome, success}

-- A value of a JSON response that is not null.
pub data Value : Type 0 where
  word : String → Value
  other : Value

-- The keys `id` and `raw` of a message.
pub record Item : Type 0 where
  pub id : Option Value
  pub raw : Option Value

-- What a read returns: `MutationAuthorizationError`, or another exception, where it raises.
pub data Got (A : Type 0) : Type 0 where
  got : A → Got A
  unauthorized broken : Got A

-- The transport, the credentials and the lock, and what the adapter takes from Python's text and
-- base64. `false` stands for an exception.
pub record Transport (W : Type 0) : Type 0 where
  -- the `emailAddress` of the profile
  pub profile : W → Got (Option Value) × W
  pub get_raw : String → W → Got (Option Item) × W
  pub delete_message_once : String → W → W
  pub new_transport : W → Bool × W
  pub valid : W → Bool
  -- `credentials.refresh` and the write of the token
  pub refresh : W → Bool × W
  pub lock : W → Bool
  -- `any(c.isspace() or ord(c) < 32 for c in value)`
  pub has_control : String → Bool
  -- `all(c in letters for c in value)`
  pub made_of : String → String → Bool
  pub b64decode : String → Option Bytes
  pub casefold : String → String

pub record Session (W : Type 0) : Type 0 where
  pub world : W
  pub deleted : List String

-- `state`, of which only `present` and `absent` are proven
pub data State : Type 0 where
  absent present conflict authorization unobservable : State

module _ {W : Type 0} (host : Host W) (api : Transport W) (account : AccountConfig)
    (account_id : ℕ) where
  -- `_valid_id` of src/mailarchive/gmail.py; `none` where it raises.
  unfoldable pub valid_id : Option Value → Option String
  valid_id (some (word value)) =
      if str_eq value "" || api.has_control value then none else some value
  valid_id _ = none

  -- `decode_raw` of src/mailarchive/gmail.py; `none` where it raises.
  unfoldable pub decode_raw : Option Value → Option Bytes
  decode_raw (some (word value)) =
      if str_eq value ""
        || not
            (api.made_of "ABCDEFGHIJKLMNOPQRSTUVWXYZabcdefghijklmnopqrstuvwxyz0123456789-_" value)
      then none
      else api.b64decode value
  decode_raw _ = none

  -- `_target`: the message id, where the target is one for this account.
  unfoldable pub exact_id : DeletionTarget → Identity → Option String
  unfolding valid_id
  exact_id target (imap_identity folder uidvalidity uid) = none
  exact_id target (provider_identity id) =
      if kind_eq target.provider_kind Kind.gmail
        && target.account_id == account_id
        && str_eq target.account_name account.name
      then valid_id (some (word id))
      else none

  -- `returned is not None and returned != target.provider_message_id`
  unfoldable pub other_id : String → Option Value → Bool
  other_id id none = false
  other_id id (some (word returned)) = not (str_eq returned id)
  other_id id (some other) = true

  unfoldable pub observed_raw : String → Option Bytes → State
  observed_raw sha256 none = unobservable
  observed_raw sha256 (some raw) = if str_eq (host.sha256 raw) sha256 then present else conflict

  unfoldable pub observed_item : String → String → Got (Option Item) → State
  unfolding other_id observed_raw decode_raw
  observed_item id sha256 unauthorized = authorization
  observed_item id sha256 broken = unobservable
  observed_item id sha256 (got none) = absent
  observed_item id sha256 (got (some item)) =
      if other_id id item.id then conflict else observed_raw sha256 (decode_raw item.raw)

  -- `_observe`
  unfoldable pub observe : String → String → Session W → State × Session W
  unfolding observed_item
  observe id sha256 s =
      let (item, world) = api.get_raw id s.world in
      (observed_item id sha256 item, record s { world = world })

  -- `_refresh_if_needed`
  unfoldable pub refresh_if_needed : Bool → Session W → Bool × Session W
  refresh_if_needed force s =
      if not force && api.valid s.world
      then (true, s)
      else ((api.refresh s.world).0, record s { world = (api.refresh s.world).1 })

  -- `transport_factory(credentials)`
  unfoldable pub connect : Session W → Bool × Session W
  connect s = ((api.new_transport s.world).0, record s { world = (api.new_transport s.world).1 })

  unfoldable pub confirmed : State → MutationResult
  confirmed absent = success
  confirmed present = failure "PROVIDER_REJECTED"
  confirmed _ = unknown_outcome

  unfoldable pub observe_again :
      String → String → Bool × Session W → Option MutationResult × Session W
  unfolding confirmed observe
  observe_again id sha256 (false, s) = (none, s)
  observe_again id sha256 (true, s) =
      let (state, s') = observe id sha256 s in (some (confirmed state), s')

  unfoldable pub after_refresh :
      String → String → Bool × Session W → Option MutationResult × Session W
  unfolding observe_again connect
  after_refresh id sha256 (false, s) = (some unknown_outcome, s)
  after_refresh id sha256 (true, s) = observe_again id sha256 (connect s)

  -- `_confirmation` after its first observation.
  unfoldable pub confirm_state :
      String → String → State → Session W → Option MutationResult × Session W
  unfolding after_refresh refresh_if_needed confirmed
  confirm_state id sha256 authorization s = after_refresh id sha256 (refresh_if_needed true s)
  confirm_state id sha256 state s = (some (confirmed state), s)

  unfoldable pub confirmation : String → String → Session W → Option MutationResult × Session W
  unfolding confirm_state observe
  confirmation id sha256 s =
      let (state, s') = observe id sha256 s in confirm_state id sha256 state s'

  -- `delete_message_once`, whose exception is ignored.
  unfoldable pub send_delete : String → Session W → Session W
  send_delete id s = record { world = api.delete_message_once id s.world; deleted = id ∷ s.deleted }

  unfoldable pub delete_observed :
      String → String → State → Session W → Option MutationResult × Session W
  unfolding confirmation send_delete
  delete_observed id sha256 absent s = (some success, s)
  delete_observed id sha256 present s = confirmation id sha256 (send_delete id s)
  delete_observed id sha256 conflict s = (some (failure "IDENTITY_MISMATCH"), s)
  delete_observed id sha256 _ s = (some (failure "PROVIDER_REJECTED"), s)

  -- The profile is that of the configured account.
  unfoldable pub same_profile : Option GmailConfig → Option String → Bool
  same_profile (some settings) (some email) =
      str_eq (api.casefold email) (api.casefold settings.account_email)
  same_profile _ _ = false

  unfoldable pub profile_email : Got (Option Value) → Option String
  unfolding valid_id
  profile_email (got value) = valid_id value
  profile_email _ = none

  unfoldable pub delete_authorized : String → String → Session W → Option MutationResult × Session W
  unfolding delete_observed same_profile profile_email observe
  delete_authorized id sha256 s =
      let (email, world) = api.profile s.world in
      let (state, s') = observe id sha256 (record s { world = world }) in
      if same_profile account.gmail (profile_email email)
      then delete_observed id sha256 state s'
      else (some (failure "AUTHORIZATION_FAILED"), record s { world = world })

  unfoldable pub delete_connected :
      String → String → Bool × Session W → Option MutationResult × Session W
  unfolding delete_authorized
  delete_connected id sha256 (false, s) = (none, s)
  delete_connected id sha256 (true, s) = delete_authorized id sha256 s

  unfoldable pub delete_refreshed :
      String → String → Bool × Session W → Option MutationResult × Session W
  unfolding delete_connected connect
  delete_refreshed id sha256 (false, s) = (some (failure "AUTHORIZATION_FAILED"), s)
  delete_refreshed id sha256 (true, s) = delete_connected id sha256 (connect s)

  unfoldable pub delete_exact :
      String → Option String → Session W → Option MutationResult × Session W
  unfolding delete_refreshed refresh_if_needed
  delete_exact sha256 none s = (some (failure "IDENTITY_MISMATCH"), s)
  delete_exact sha256 (some id) s =
      if not account.enabled || is_none account.gmail
      then (some (failure "IDENTITY_MISMATCH"), s)
      else if not (api.lock s.world)
      then (none, s)
      else delete_refreshed id sha256 (refresh_if_needed false s)

  -- `delete`; `none` where it raises, which the caller catches.
  unfoldable pub delete : DeletionTarget → Session W → Option MutationResult × Session W
  unfolding delete_exact exact_id
  delete target s = delete_exact target.canonical_sha256 (exact_id target target.identity) s
