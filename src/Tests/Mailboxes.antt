-- ===== src/Tests/Mailboxes.antt =====
-- The IMAP adapter on a server with UIDPLUS that has the message.
use mailarchive.Pop3.Octets.{bytes_eq, int_of, is_ascii, is_blank, lstrip}
use mailarchive.Base.{ℕ, ◌+◌, ◌≡◌, refl, ◌⊎◌, ◌↔◌, true, false, none, some, List, [], ◌∷◌, ◌++◌}
use mailarchive.Base.Text.{codes}
use mailarchive.Host.{Bytes}
use mailarchive.Models.{AccountConfig, Kind}
use mailarchive.Mutation.Target.{DeletionTarget, imap_identity}
use mailarchive.Imap.{Item, fragment, pair, octets, value, find_bodies, find_uids}
use mailarchive.Imap.Mailbox.{
  encode_mailbox_name, quoted_content, is_forbidden, quoted_content-encode_mailbox_name,
}
use mailarchive.Imap.Response.{parse_fetch_response}
use mailarchive.Imap.Literal.{IsResponse, parse_fetch_response_iff}
use mailarchive.Imap.Delete.{Clients, Session, valid, Exact}
use mailarchive.Imap.Attempt.{delete}
use mailarchive.Imap.Sends.{Sends, final}
use mailarchive.Imap.Once.{IsProven, IsUnsent, imap_delete-IsOnce}
use mailarchive.Imap.Honest.{IsHonest, imap_delete-IsHonest}
use mailarchive.Base.Lists.{any}
use mailarchive.Tests.{host, account, target}

-- One message of one byte under UID 7.
abbrev reply : List Item
reply =
    pair (octets (codes "1 (UID 7 FLAGS (\\Seen) BODY[] {1}")) (octets (1 ∷ []))
    ∷ fragment (codes ")")
    ∷ []

abbrev server : Clients ℕ
server = record {
  connect = λ client w. (some tt, w + 1);
  login = λ client name password w. (some true, w + 1);
  capability = λ client w. (some (true, fragment (codes "IMAP4rev1 UIDPLUS") ∷ []), w + 1);
  select = λ client mailbox readonly w. (some true, w + 1);
  uidvalidity = λ client w. (fragment (codes "9") ∷ [], w + 1);
  fetch = λ client uid w. (some (true, reply), w + 1);
  store = λ client uid w. (some true, w + 1);
  expunge = λ client uid w. (some true, w + 1);
  unselect = none;
  logout = λ client w. w + 1;
  busy = λ folder w. false;
}

abbrev mailbox_account : AccountConfig
mailbox_account = record account {
  kind = Kind.imap;
  pop3 = none;
  imap = some (record { host = "h"; port = 993; username = "u"; folders = "INBOX" ∷ [] });
}

abbrev mailbox_target : DeletionTarget
mailbox_target = record target { provider_kind = Kind.imap; identity = imap_identity "INBOX" 9 7 }

abbrev quiet : Session ℕ
quiet = record { world = 0; sent = [] }

imap_delete-IsOnce_example :
    IsUnsent host server mailbox_account 1 quiet
      (final (delete host server mailbox_account 1 mailbox_target (some "p") quiet))
    ⊎ ((exact : Exact host server mailbox_account 1) × (valid host server mailbox_account 1
            mailbox_target
          ≡ some exact)
        × Sends exact.uid 1 1 quiet
            (final (delete host server mailbox_account 1 mailbox_target (some "p") quiet))
        × IsProven host server mailbox_account 1 exact)
imap_delete-IsOnce_example =
    imap_delete-IsOnce host server mailbox_account 1 mailbox_target (some "p") quiet

imap_delete-IsHonest_example :
    IsHonest host server mailbox_account 1
      (valid host server mailbox_account 1 mailbox_target)
      (delete host server mailbox_account 1 mailbox_target (some "p") quiet)
imap_delete-IsHonest_example =
    imap_delete-IsHonest host server mailbox_account 1 mailbox_target (some "p") quiet

parse_fetch_response_iff_example :
    (parse_fetch_response 7 reply ≡ value (1 ∷ [])) ↔ IsResponse 7 reply ((1 ∷ []) ∷ [])
parse_fetch_response_iff_example = parse_fetch_response_iff 7 reply (1 ∷ [])

reply_parsed : parse_fetch_response 7 reply ≡ value (1 ∷ [])
unfolding parse_fetch_response find_bodies is_blank int_of find_uids bytes_eq lstrip
reply_parsed = refl

abbrev odd_name : Bytes
odd_name = codes "a\\b" ++ b'"' ∷ []

abbrev odd_quoted : Bytes
odd_quoted = b'"' ∷ codes "a\\\\b\\" ++ b'"' ∷ b'"' ∷ []

encode_odd : encode_mailbox_name odd_name ≡ value odd_quoted
unfolding encode_mailbox_name is_ascii
encode_odd = refl

quoted_content-encode_mailbox_name_example :
    (quoted_content odd_quoted ≡ some odd_name) × (any is_forbidden odd_quoted ≡ false)
quoted_content-encode_mailbox_name_example =
    quoted_content-encode_mailbox_name odd_name odd_quoted encode_odd
