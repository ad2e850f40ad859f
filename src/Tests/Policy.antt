-- ===== src/Tests/Policy.antt =====
-- The theorems of the retention policy and of holds, at the archive of `Tests.antt`.
use mailarchive.Base.{
  ◌+◌, ◌≡◌, refl, ◌↔◌, arith, true, false, ◌&&◌, some, List, [], ◌∷◌, str_eq, if◌then◌else◌,
}
use mailarchive.Errors.{ok}
use mailarchive.Host.{aware}
use mailarchive.Db.{ControlRow}
use mailarchive.Retention.Reason.{Reason, contains, when}
use mailarchive.Retention.Policy.{
  Evaluation, evaluation, evaluate, reasons, parse_timestamp, deadline_of, path_ok, file_digest,
  not_elapsed, digest_differs,
}
use mailarchive.Retention.Policy.Codes.{blocks}
use mailarchive.Retention.Policy.Eligible.{IsDeletable, evaluate-eligible_iff}
use mailarchive.Retention.Policy.Order.{IsAscending, evaluate_reports, eligible_later}
use mailarchive.Models.{kind_eq, state_eq}
use mailarchive.Retention.Control.{set_rows, control_for, keep_online, legal_hold}
use mailarchive.Retention.Control.Laws.{
  hold_eq, is_held, is_held-set_rows, IsValid, set_rows-IsValid,
}
use mailarchive.Tests.{host, facts, now}

abbrev eligible : Evaluation
eligible = record {
  eligible = true;
  reason_codes = [];
  retention_deadline = some 0;
  verified_repository_count = 1;
}

evaluates : evaluate host now facts (aware now) (some 0) 1 "/archive/mail" ≡ ok eligible
unfolding evaluate deadline_of parse_timestamp evaluation contains reasons when path_ok file_digest
    not_elapsed digest_differs kind_eq state_eq
evaluates = refl

evaluate-eligible_iff_example :
    (eligible.eligible ≡ true) ↔ IsDeletable host now facts now (some 0) 1 "/archive/mail"
evaluate-eligible_iff_example =
    evaluate-eligible_iff host now facts now (some 0) 1 "/archive/mail" eligible evaluates

evaluate_reports_example :
    IsAscending 0 eligible.reason_codes
    × ((code : Reason)
        → contains code eligible.reason_codes
          ≡ blocks host now facts now (some 0) 1 "/archive/mail" eligible.retention_deadline code)
    × (deadline_of host (parse_timestamp host facts.archived_at) (some 0)
        ≡ ok eligible.retention_deadline)
evaluate_reports_example =
    evaluate_reports host now facts now (some 0) 1 "/archive/mail" eligible evaluates

evaluates_later : evaluate host now facts (aware (now + 1)) (some 0) 0 "/archive/mail" ≡ ok eligible
unfolding evaluate deadline_of parse_timestamp evaluation contains reasons when path_ok file_digest
    not_elapsed digest_differs kind_eq state_eq
evaluates_later = refl

eligible_later_example : eligible.eligible ≡ true
eligible_later_example =
    eligible_later host now facts now (now + 1) (some 0) 1 0 "/archive/mail" eligible eligible
      evaluates evaluates_later (omega arith) (omega arith) refl

abbrev holds : List ControlRow
holds =
    record {
      canonical_message_id = "c1";
      keep_online = true;
      legal_hold = true;
      reason = "case 7";
      updated_at = "2026-01-01T00:00:00+00:00";
    }
    ∷ []

is_held-set_rows_example :
    is_held legal_hold "c1" (set_rows false keep_online "c1" "done" "now" holds) ≡ (
      if str_eq "c1" "c1" && hold_eq keep_online legal_hold
      then false
      else is_held legal_hold "c1" holds)
is_held-set_rows_example =
    is_held-set_rows false keep_online legal_hold "c1" "c1" "done" "now" holds

holds-IsValid : IsValid holds
unfolding control_for
holds-IsValid = (refl, refl, tt)

set_rows-IsValid_example : IsValid (set_rows false keep_online "c1" "done" "now" holds)
set_rows-IsValid_example = set_rows-IsValid false keep_online "c1" "done" "now" holds holds-IsValid
