-- ===== src/Tests.antt =====
-- A small archive with one account and one message, a host and a POP3 server for it, on which the
-- modules below run the theorems.
mod Replies
mod Admission
mod Mailboxes
mod Again
mod Policy
mod Engine
mod Evaluation
mod Gmail
mod History
mod Verdicts
use mailarchive.Base.{ℕ, ◌+◌, Bool, true, false, Option, none, some, String, List, [], ◌∷◌, str_eq}
use mailarchive.Host.{Host, Bytes, Datetime, naive, aware, minute}
use mailarchive.Models.{
  AppConfig, AccountConfig, RetentionConfig, RemoteDeletionConfig, Kind, Pop3Config, archived,
}
use mailarchive.Db
use mailarchive.Db.{
  Db, AccountRow, CanonicalRow, RemoteRow, LinkRow, RepositoryRow, BackupRunRow, EvidenceRow,
  MutationRow, RunRow, Status,
}
use mailarchive.Retention.Policy.{RetentionFacts}
use mailarchive.Mutation.Target.{DeletionTarget, provider_identity}
use mailarchive.Mutation.Result.{MutationResult}
use mailarchive.Mutation.Engine.{Adapter}
use mailarchive.Pop3.{Wire, received}

-- The world is the time in microseconds.
abbrev pub host : Host ℕ
host = record {
  clock = λ w. w;
  tick = λ w. w + 1;
  isoformat = λ t. "2026-01-01T00:00:00+00:00";
  fromisoformat = λ s. if_text s;
  is_relative_to = λ w path root. some true;
  is_file = λ w path. true;
  read_bytes = λ w path. some (1 ∷ []);
  strip = λ s. s;
  count = λ s. 4;
  sha256 = λ bytes. "digest";
  dumps = λ facts. [];
}
  where
    if_text : String → Option Datetime
    if_text s = elim (str_eq s "bad") [ true ↦ none | false ↦ some (aware 0) ]

abbrev pub account : AccountConfig
account = record {
  name = "home";
  kind = Kind.pop3;
  enabled = true;
  remote_retention_days = some 0;
  remote_deletion_enabled = true;
  required_verified_backups = 1;
  config_ref = "HOME";
  imap = none;
  gmail = none;
  pop3 = some (record { host = "pop.example"; port = 995; username = "me" });
}

abbrev pub config : AppConfig
config = record {
  mail_root = "/archive/mail";
  accounts = account ∷ [];
  retention = record { remote_retention_days_default = 30; required_verified_backups_default = 2 };
  remote_deletion = record { max_per_run = 5; max_per_account = 3 };
}

abbrev pub target : DeletionTarget
target = record {
  remote_message_id = "r1";
  canonical_message_id = "c1";
  account_id = 1;
  account_name = "home";
  provider_kind = Kind.pop3;
  canonical_sha256 = "digest";
  identity = provider_identity "uidl-1";
}

abbrev pub planned_row : MutationRow
planned_row = record {
  id = 1;
  mutation_run_id = 1;
  deletion_evaluation_id = 1;
  account_id = 1;
  remote_message_id = "r1";
  canonical_message_id = "c1";
  provider_kind = Kind.pop3;
  identity = record {
    remote_folder = none;
    uidvalidity = none;
    remote_uid = none;
    provider_message_id = some "uidl-1";
  };
  canonical_sha256 = "digest";
  target_fingerprint_sha256 = "digest";
  is_dry_run = true;
  requested_at = "2026-01-01T00:00:00+00:00";
  started_at = none;
  completed_at = none;
  status = Status.dry_run;
  provider_response_summary = none;
  error_code = none;
  source_plan_mutation_id = none;
  reconciled_at = none;
}

abbrev pub plan : RunRow
plan = record {
  id = 1;
  requested_at = "2026-01-01T00:00:00+00:00";
  completed_at = some "2026-01-01T00:00:00+00:00";
  mode = Db.dry_run;
  status = Db.completed;
  account_filter = some "home";
  requested_limit = none;
  effective_max_per_run = 5;
  effective_max_per_account = 3;
  eligible_count = 1;
  selected_count = 1;
  skipped_limit_count = 0;
  policy_version = "retention-v1";
  source_plan_run_id = none;
  authorization_method = none;
}

abbrev pub database : List RunRow → List MutationRow → Db
database runs mutations = record {
  accounts = record { id = 1; name = "home"; kind = Kind.pop3; enabled = true } ∷ [];
  canonical_messages =
      record {
        id = "c1";
        account_id = 1;
        sha256 = "digest";
        local_path = "/archive/mail/c1";
        storage_state = archived;
        archived_at = some "2026-01-01T00:00:00+00:00";
        integrity_status = "verified";
        size_bytes = 1;
        message_id_header = none;
        message_date = none;
        downloaded_at = "2026-01-01T00:00:00+00:00";
        quarantined_at = none;
        integrity_verified_at = none;
        created_at = "2026-01-01T00:00:00+00:00";
      }
      ∷ [];
  remote_messages =
      record {
        id = "r1";
        account_id = 1;
        provider_kind = Kind.pop3;
        identity = planned_row.identity;
        remote_present = true;
        identity_confidence = "proven";
        provider_thread_id = none;
        message_id_header = none;
        first_seen_at = "2026-01-01T00:00:00+00:00";
        last_seen_at = "2026-01-01T00:00:00+00:00";
      }
      ∷ [];
  remote_canonical_links =
      record {
        remote_message_id = "r1";
        canonical_message_id = "c1";
        link_reason = "pop3-uidl-retr";
        created_at = "2026-01-01T00:00:00+00:00";
      }
      ∷ [];
  retention_controls = [];
  backup_repositories = record { id = 1; repository_identity = some "borg-1" } ∷ [];
  backup_runs =
      record {
        id = "b1";
        repository_id = 1;
        status = "succeeded";
        verification_status = "verified";
        verified_at = some "2026-01-01T00:00:00+00:00";
      }
      ∷ [];
  message_backup_evidence =
      record { canonical_message_id = "c1"; backup_run_id = "b1"; covered = true; verified = true }
      ∷ [];
  deletion_evaluation_runs = [];
  deletion_evaluations = [];
  remote_mutation_runs = runs;
  remote_mutations = mutations;
  audit_events = [];
}

-- An archive with a completed plan, at ten minutes past its request.
abbrev pub planned_db : Db
planned_db = database (plan ∷ []) (planned_row ∷ [])

abbrev pub now : ℕ
now = 600000000

-- The same mutation, taken over by a production run.
abbrev pub waiting_row : MutationRow
waiting_row = record planned_row { is_dry_run = false; status = Status.planned }

abbrev pub confirmed : MutationResult
confirmed = record { outcome = "success-confirmed"; confirmed_absent = true; error_code = none }

abbrev pub adapter : Adapter ℕ
adapter = record { delete = λ t w. (some confirmed, w + 1) }

abbrev pub facts : RetentionFacts
facts = record {
  remote_message_id = "r1";
  account = "home";
  account_enabled = true;
  provider_kind = some Kind.pop3;
  account_kind = some Kind.pop3;
  remote_present = true;
  identity_confidence = some "proven";
  identity_complete = true;
  canonical_id = some "c1";
  link_count = 1;
  link_account_coherent = true;
  canonical_exists = true;
  storage_state = some archived;
  archived_at = some "2026-01-01T00:00:00+00:00";
  canonical_path = some "/archive/mail/c1";
  expected_sha256 = some "digest";
  integrity_status = some "verified";
  verified_repository_count = 1;
  keep_online = false;
  legal_hold = false;
}

abbrev pub wire : Wire ℕ
wire = record {
  connect = λ w. (true, w);
  authenticate = λ user password w. (true, w);
  uidls = λ w. (received ((1, "uidl-1") ∷ []), w);
  retr = λ number w. (received (1 ∷ []), w);
  dele = λ number w. (true, w);
  quit_and_commit = λ w. (true, w);
  abort_without_quit = λ w. w;
  busy = λ w. false;
  has_space = λ s. false;
  includes = λ part s. false;
}
