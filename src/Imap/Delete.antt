-- ===== src/Imap/Delete.antt =====
-- `ImapMutationAdapter` of src/mailarchive/imap_mutation.py over the protocol `ImapClient`. `sent`
-- records, newest first, what was asked of a server.
use mailarchive.Base.{
  ℕ, Bool, true, false, not, ◌&&◌, Option, none, some, is_none, String, List, ◌∷◌, ◌==◌, str_eq,
  if◌then◌else◌,
}
use mailarchive.Base.Lists.{any}
use mailarchive.Base.Text.{codes}
use mailarchive.Host.{Host, Bytes}
use mailarchive.Models.{AccountConfig, ImapConfig, Kind, kind_eq}
use mailarchive.Mutation.Target.{DeletionTarget, Identity, imap_identity}
use mailarchive.Mutation.Result.{MutationResult}
use mailarchive.Pop3.{failure, unknown_outcome, success}
use mailarchive.Imap.{Item, Read, value, imap_error, other_error}
use mailarchive.Imap.Mailbox.{encode_mailbox_name}
use mailarchive.Imap.Response.{parse_uidvalidity, Observed, observation}

pub data Command : Type 0 where
  opened logged_in asked unselected logged_out : Command
  selected : Bool → Command
  fetched stored expunged : ℕ → Command

-- The clients that `client_factory` makes: 0 is the client of the attempt, 1 the observer of
-- `_after_expunge`. `none` is an `OSError` or an `imaplib.IMAP4.error`; a status is whether it is
-- `OK`. `unselect` is `none` where the client has no such method, and false where it raises.
pub record Clients (W : Type 0) : Type 0 where
  pub connect : ℕ → W → Option (Unit {0}) × W
  pub login : ℕ → String → String → W → Option Bool × W
  pub capability : ℕ → W → Option (Bool × List Item) × W
  pub select : ℕ → Bytes → Bool → W → Option Bool × W
  pub uidvalidity : ℕ → W → List Item × W
  pub fetch : ℕ → ℕ → W → Option (Bool × List Item) × W
  pub store : ℕ → ℕ → W → Option Bool × W
  pub expunge : ℕ → ℕ → W → Option Bool × W
  pub unselect : Option (ℕ → W → Bool × W)
  pub logout : ℕ → W → W
  -- `ImapSyncBusyError` of `folder_lock`
  pub busy : String → W → Bool

pub record Session (W : Type 0) : Type 0 where
  pub world : W
  pub sent : List Command

-- What a call gives: a value; an `OSError`, an `IMAP4.error` or an `ImapError`, which the adapter
-- catches; or another exception.
pub data Called (W A : Type 0) : Type 0 where
  done : A → Session W → Called W A
  caught escaped : Session W → Called W A

infixl 5 ◌>>=◌
abbrev pub ◌>>=◌ : {W A B : Type 0} → Called W A → (A → Session W → Called W B) → Called W B
done a s >>= rest = rest a s
caught s >>= rest = caught s
escaped s >>= rest = escaped s

-- `try: a = first` `except: return handler`, and then `rest`
abbrev pub attempt :
    {W A B : Type 0}
    → Called W A
    → (Session W → Called W B)
    → (A → Session W → Called W B)
    → Called W B
attempt (done a s) handler rest = rest a s
attempt (caught s) handler rest = handler s
attempt (escaped s) handler rest = escaped s

-- `finally`
abbrev pub finally : {W A : Type 0} → Called W A → (Session W → Session W) → Called W A
finally (done a s) last = done a (last s)
finally (caught s) last = caught (last s)
finally (escaped s) last = escaped (last s)

unfoldable pub log : {W : Type 0} → Command → W → Session W → Session W
log command world s = record { world = world; sent = command ∷ s.sent }

unfoldable pub answered : {W A : Type 0} → Option A → Session W → Called W A
answered none s = caught s
answered (some a) s = done a s

unfoldable pub call : {W A : Type 0} → Command → (W → Option A × W) → Session W → Called W A
unfolding answered log
call command run s = let (answer, world) = run s.world in answered answer (log command world s)

-- `STORE` and `EXPUNGE` on the first client, recorded with the UID that the server is given.
abbrev pub send_store : {W : Type 0} → Clients W → ℕ → Session W → Called W Bool
send_store clients uid s = call (stored uid) (clients.store 0 uid) s

abbrev pub send_expunge : {W : Type 0} → Clients W → ℕ → Session W → Called W Bool
send_expunge clients uid s = call (expunged uid) (clients.expunge 0 uid) s

unfoldable pub reading : {W A : Type 0} → Read A → Session W → Called W A
reading (value a) s = done a s
reading imap_error s = caught s
reading other_error s = escaped s

module _ {W : Type 0} (host : Host W) (clients : Clients W) (account : AccountConfig)
    (account_id : ℕ) where
  -- The settings that `_valid` found, and the target's folder, UIDVALIDITY, UID and hash.
  pub record Exact : Type 0 where
    pub settings : ImapConfig
    pub folder : String
    pub uidvalidity : ℕ
    pub uid : ℕ
    pub sha256 : String

  valid_identity : Option ImapConfig → String → Identity → Option Exact
  valid_identity (some settings) sha256 (imap_identity folder uidvalidity uid) =
      if account.enabled
        && any (str_eq folder) settings.folders
        && not (uidvalidity == 0)
        && not (uid == 0)
      then some (record {
        settings = settings;
        folder = folder;
        uidvalidity = uidvalidity;
        uid = uid;
        sha256 = sha256;
      })
      else none
  valid_identity _ sha256 identity = none

  -- `_valid`
  unfoldable pub valid : DeletionTarget → Option Exact
  unfolding valid_identity
  valid target =
      if kind_eq target.provider_kind Kind.imap
        && target.account_id == account_id
        && str_eq target.account_name account.name
      then valid_identity account.imap target.canonical_sha256 target.identity
      else none

  unfoldable pub same_namespace : ℕ → Exact → Session W → Called W Bool
  same_namespace client exact s =
      let (items, world) = clients.uidvalidity client s.world in
      reading (parse_uidvalidity items) (record s { world = world }) >>= λ current s'.
      done (current == exact.uidvalidity) s'

  unfoldable pub fetch_observation : ℕ → Exact → Session W → Called W (Option Observed)
  fetch_observation client exact s =
      call (fetched exact.uid) (clients.fetch client exact.uid) s >>= λ answer s'. elim answer.0 [
        | false ↦ caught s'
        | true ↦ reading (observation exact.uid answer.1) s'
      ]

  unfoldable pub is_match : Exact → Observed → Bool
  is_match exact observed = str_eq (host.sha256 observed.raw) exact.sha256 && not observed.deleted

  unfoldable pub observed_result : MutationResult → Exact → Option Observed → MutationResult
  unfolding is_match
  observed_result absent exact none = absent
  observed_result absent exact (some observed) =
      if is_match exact observed then failure "PROVIDER_REJECTED" else unknown_outcome

  -- The body of `_clean_or_unknown` and of the two reads of `_after_expunge`, which differ in what
  -- an absent message means.
  unfoldable pub look : ℕ → MutationResult → Exact → Session W → Called W MutationResult
  unfolding same_namespace fetch_observation observed_result
  look client absent exact s = same_namespace client exact s >>= λ same s. elim same [
    | false ↦ done unknown_outcome s
    | true ↦
        fetch_observation client exact s >>= λ found s. done (observed_result absent exact found) s
  ]

  unfoldable pub clean_or_unknown : Exact → Session W → Called W MutationResult
  unfolding look
  clean_or_unknown exact s = attempt (look 0 unknown_outcome exact s) (done unknown_outcome) done

  unfoldable pub logging_out : ℕ → Session W → Session W
  logging_out client s = log logged_out (clients.logout client s.world) s

  -- `select(encode_mailbox_name(…), readonly=…)`
  unfoldable pub select : ℕ → Bool → Exact → Session W → Called W Bool
  select client readonly exact s =
      reading (encode_mailbox_name (codes exact.folder)) s >>= λ mailbox s.
      call (selected readonly) (clients.select client mailbox readonly) s

  unfoldable pub login : ℕ → String → Exact → Session W → Called W Bool
  login client password exact s =
      call logged_in (clients.login client exact.settings.username password) s

  -- The fresh observer of `_after_expunge`.
  unfoldable pub observe_fresh : String → Exact → Session W → Called W MutationResult
  unfolding login select look
  observe_fresh password exact s = login 1 password exact s >>= λ accepted s. elim accepted [
    | false ↦ done unknown_outcome s
    | true ↦ select 1 true exact s >>= λ readable s. elim readable [
      | false ↦ done unknown_outcome s
      | true ↦ look 1 success exact s
    ]
  ]

  unfoldable pub observer : String → Exact → Session W → Called W MutationResult
  unfolding observe_fresh logging_out
  observer password exact s = call opened (clients.connect 1) s >>= λ _ s.
      finally (observe_fresh password exact s) (logging_out 1)

  unfoldable pub fresh : String → Exact → Session W → Called W MutationResult
  unfolding observer
  fresh password exact s = attempt (observer password exact s) (done unknown_outcome) done

  unfoldable pub after_expunge : String → Exact → Session W → Called W MutationResult
  unfolding look fresh
  after_expunge password exact s = attempt (look 0 success exact s) (fresh password exact) done

  -- The fresh read that follows an accepted `EXPUNGE`.
  unfoldable pub is_gone : Exact → Session W → Called W Bool
  unfolding same_namespace fetch_observation
  is_gone exact s = same_namespace 0 exact s >>= λ same s. elim same [
    | false ↦ done false s
    | true ↦ fetch_observation 0 exact s >>= λ found s. done (is_none found) s
  ]

  unfoldable pub confirm : String → Exact → Session W → Called W MutationResult
  unfolding is_gone after_expunge
  confirm password exact s =
      attempt (is_gone exact s) (after_expunge password exact)
        λ gone s. elim gone [ true ↦ done success s | false ↦ after_expunge password exact s ]

  unfoldable pub expunge : String → Exact → Session W → Called W MutationResult
  unfolding confirm after_expunge
  expunge password exact s =
      attempt (send_expunge clients exact.uid s) (after_expunge password exact) λ accepted s.
        elim accepted [ true ↦ confirm password exact s | false ↦ after_expunge password exact s ]

  unfoldable pub store : String → Exact → Session W → Called W MutationResult
  unfolding expunge clean_or_unknown
  store password exact s =
      attempt (send_store clients exact.uid s) (clean_or_unknown exact) λ accepted s.
        elim accepted [ true ↦ expunge password exact s | false ↦ clean_or_unknown exact s ]
