-- ===== src/Tests/Admission.antt =====
-- The registration of acquired messages and the admission of their bytes, on the test database.
use mailarchive.Base.{refl, true, false, none, some, [], ◌∷◌, arith, inr, eq_iff}
use mailarchive.Db.{CanonicalRow}
use mailarchive.Models.{StorageState}
use mailarchive.Links.{Ids, pop3_key, imap_key, register_pop3_link, register_remote_link}
use mailarchive.Links.Refines.{IsRegistered}
use mailarchive.Links.Registers.{register_pop3_link-IsRegistered, register_remote_link-IsRegistered}
use mailarchive.Archive.Create.{Disk, create_canonical_file}
use mailarchive.Archive.Safe.{IsSound, create_canonical_file-IsSound}
use mailarchive.Archive.Register.{
  Audit, Keeps, register_canonical_message, register_canonical_message-Keeps,
}
use mailarchive.Archive.Ingest.{Mail, State, ingest_bytes}
use mailarchive.Archive.Laws.{IsArchived, ingest_bytes-IsArchived}
use mailarchive.Tests.{host, account, planned_db}

abbrev ids : Ids
ids = record { pop3_id = λ account uidl. uidl; imap_id = λ account folder uidvalidity uid. folder }

abbrev message : CanonicalRow
message = record {
  id = "c1";
  account_id = 1;
  sha256 = "digest";
  local_path = "/archive/mail/c1";
  storage_state = StorageState.pending;
  archived_at = none;
  integrity_status = "verified";
  size_bytes = 1;
  message_id_header = none;
  message_date = none;
  downloaded_at = "2026-01-01T00:00:00+00:00";
  quarantined_at = none;
  integrity_verified_at = none;
  created_at = "2026-01-01T00:00:00+00:00";
}

register_pop3_link-IsRegistered_example :
    let out = register_pop3_link ids "home" "uidl-2" message "t" "t" planned_db in
    IsRegistered (pop3_key 1 "uidl-2") (pop3_key 1 "uidl-1") "c1" planned_db out.1 out.0
register_pop3_link-IsRegistered_example =
    register_pop3_link-IsRegistered ids "home" "uidl-2" "uidl-1" message "t" "t" planned_db (tt, tt)
      (ground (arith, eq_iff "uidl-1" "uidl-2"))

register_remote_link-IsRegistered_example :
    let out = register_remote_link ids "home" "INBOX" 9 7 message "t" "t" planned_db in
    IsRegistered (imap_key 1 "INBOX" 9 7) (imap_key 1 "INBOX" 9 8) "c1" planned_db out.1 out.0
register_remote_link-IsRegistered_example =
    register_remote_link-IsRegistered ids "home" "INBOX" "INBOX" 9 7 9 8 message "t" "t" planned_db
      (tt, tt) (inr (inr (ground arith)))

abbrev disk : Disk
disk = record { fails = λ action files. false; temporary = "/archive/tmp/t"; arrival = none }

create_canonical_file-IsSound_example :
    IsSound host disk "/archive/cur/m"
      (1 ∷ [])
      (host.sha256 (1 ∷ []))
      []
      (create_canonical_file host disk "/archive/cur/m" (1 ∷ []) (host.sha256 (1 ∷ [])) [])
create_canonical_file-IsSound_example =
    create_canonical_file-IsSound host disk "/archive/cur/m" (1 ∷ []) (host.sha256 (1 ∷ [])) []
      (ground (arith, eq_iff "/archive/tmp/t" "/archive/cur/m")) refl

abbrev audit : Audit
audit = record { account = 1; event_type = "ingest.succeeded"; details = []; timestamp = "t" }

register_canonical_message-Keeps_example :
    let out = register_canonical_message message audit planned_db in
    Keeps message planned_db out.0 out.1
register_canonical_message-Keeps_example = register_canonical_message-Keeps message audit planned_db

abbrev mail : Mail
mail = record {
  headers = λ raw. some (some "<id@host>", none);
  parsedate_to_datetime = λ header. none;
  resolve = λ path. path;
  join = λ path part. part;
  eml = λ digest. digest;
  is_below = λ path root. true;
  identifier = λ account digest. digest;
}

abbrev start : State
start = record { db = planned_db; files = [] }

ingest_bytes-IsArchived_example :
    IsArchived host mail disk "/archive"
      (account ∷ [])
      "home"
      (2 ∷ [])
      start
      (ingest_bytes host mail disk "/archive" (account ∷ []) (2 ∷ []) "home" "bytes" "t" start)
ingest_bytes-IsArchived_example =
    ingest_bytes-IsArchived host mail disk "/archive" (account ∷ []) (2 ∷ []) "home" "bytes" "t"
      start
