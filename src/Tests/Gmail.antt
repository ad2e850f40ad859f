-- ===== src/Tests/Gmail.antt =====
-- The theorem of the Gmail adapter, for an account whose server has the message.
use mailarchive.Base.{◌≡◌, ◌⊎◌, ℕ, ◌+◌, true, false, none, some, String, [], ◌∷◌}
use mailarchive.Models.{AccountConfig, Kind}
use mailarchive.Mutation.Target.{DeletionTarget}
use mailarchive.Gmail.{Transport, Session, got, word, exact_id, delete}
use mailarchive.Gmail.Once.{IsRead, gmail_delete_once}
use mailarchive.Tests.{host, account, target}

abbrev api : Transport ℕ
api = record {
  profile = λ w. (got (some (word "me@example.org")), w);
  get_raw = λ id w. (got (some (record { id = some (word "uidl-1"); raw = some (word "AQ") })), w);
  delete_message_once = λ id w. w + 1;
  new_transport = λ w. (true, w);
  valid = λ w. true;
  refresh = λ w. (true, w);
  lock = λ w. true;
  has_control = λ value. false;
  made_of = λ letters value. true;
  b64decode = λ value. some (1 ∷ []);
  casefold = λ value. value;
}

abbrev gmail_account : AccountConfig
gmail_account = record account {
  kind = Kind.gmail;
  pop3 = none;
  gmail = some (record { account_email = "me@example.org"; remote_delete_token_file = some "t" });
}

abbrev gmail_target : DeletionTarget
gmail_target = record target { provider_kind = Kind.gmail }

abbrev quiet : Session ℕ
quiet = record { world = 0; deleted = [] }

gmail_delete_once_example :
    ((delete host api gmail_account 1 gmail_target quiet).1.deleted ≡ [])
    ⊎ ((id : String) × (exact_id host api gmail_account 1 gmail_target gmail_target.identity
          ≡ some id)
        × IsRead host api gmail_account 1 id gmail_target.canonical_sha256
        × ((delete host api gmail_account 1 gmail_target quiet).1.deleted ≡ id ∷ []))
gmail_delete_once_example = gmail_delete_once host api gmail_account 1 gmail_target quiet
