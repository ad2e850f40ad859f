-- ===== src/Retention/Control.antt =====
-- `set_control` of src/mailarchive/retention.py: local holds, at most one row for each message.
pub mod Laws
use mailarchive.Base.{
  ℕ, Bool, true, false, not, ◌||◌, Option, none, some, String, List, [], ◌∷◌, ltb, str_eq,
  if◌then◌else◌, is_none,
}
use mailarchive.Base.Lists.{filter, find}
use mailarchive.Base.Rows.{update_where}
use mailarchive.Errors.{
  Outcome, ok, raised, ◌>>=◌, ◌>>◌, raise_if, invalid_control_kind, invalid_reason,
  unknown_canonical,
}
use mailarchive.Host.{Host, num, text}
use mailarchive.Db.{Db, ControlRow, insert_audit_event}
use mailarchive.Retention.Inventory.{canonical_by_id}

-- `column`
pub data Hold : Type 0 where
  keep_online legal_hold : Hold

unfoldable pub hold_of : String → Outcome Hold
hold_of kind =
    if str_eq kind "keep-online"
    then ok keep_online
    else if str_eq kind "legal-hold"
    then ok legal_hold
    else raised invalid_control_kind

unfoldable pub held : Hold → ControlRow → Bool
held keep_online row = row.keep_online
held legal_hold row = row.legal_hold

-- `SET {column}=?`
unfoldable pub set_column : Hold → Bool → ControlRow → ControlRow
set_column keep_online value row = record row { keep_online = value }
set_column legal_hold value row = record row { legal_hold = value }

-- `other_column`
unfoldable pub other : Hold → Hold
other keep_online = legal_hold
other legal_hold = keep_online

-- `WHERE canonical_message_id=?`
unfoldable pub is_for : String → ControlRow → Bool
is_for id row = str_eq row.canonical_message_id id

unfoldable pub control_for : String → List ControlRow → Option ControlRow
unfolding is_for
control_for id rows = find (is_for id) rows

-- The row that `INSERT` writes where there was none.
new_control : Hold → String → String → String → ControlRow
unfolding set_column
new_control hold id reason now = set_column hold true (record {
  canonical_message_id = id;
  keep_online = false;
  legal_hold = false;
  reason = reason;
  updated_at = now;
})

-- `INSERT … ON CONFLICT(canonical_message_id) DO UPDATE`
unfoldable pub upsert : Hold → String → String → String → List ControlRow → List ControlRow
unfolding new_control is_for set_column
upsert hold id reason now [] = new_control hold id reason now ∷ []
upsert hold id reason now (row ∷ rows) =
    let rest = upsert hold id reason now rows in
    if is_for id row
    then set_column hold true (record row { reason = reason; updated_at = now }) ∷ rows
    else row ∷ rest

-- The row is kept while the other hold stands, and deleted else.
unfoldable pub release : Hold → String → String → String → List ControlRow → List ControlRow
unfolding is_for set_column held other control_for
release hold id reason now rows = elim (control_for id rows) [
  | none ↦ filter (λ row. not (is_for id row)) rows
  | some row ↦
      if held (other hold) row
      then update_where (is_for id)
          (λ (r : ControlRow).
            set_column hold false (record r { reason = reason; updated_at = now }))
          rows
      else filter (λ row. not (is_for id row)) rows
]

unfoldable pub set_rows : Bool → Hold → String → String → String → List ControlRow → List ControlRow
unfolding upsert release
set_rows true hold id reason now rows = upsert hold id reason now rows
set_rows false hold id reason now rows = release hold id reason now rows

module _ {W : Type 0} (host : Host W) where
  unfoldable pub set_control : W → String → String → String → Bool → Db → Outcome Db
  unfolding hold_of set_rows
  set_control w canonical_id kind given_reason enabled db = do
    hold ← hold_of kind
    let reason = host.strip given_reason
    raise_if (str_eq reason "" || ltb 256 (host.count reason)) invalid_reason
    raise_if (is_none (canonical_by_id db canonical_id)) unknown_canonical
    let now = host.isoformat (host.clock w)
    ok (
        insert_audit_event
          (record {
            timestamp = now;
            actor = "mailarchive.retention";
            event_type = if enabled then "retention.control.set" else "retention.control.released";
            account_id = none;
            canonical_message_id = some canonical_id;
            result = "success";
            details = ("kind", text kind) ∷ ("reason_length", num (host.count reason)) ∷ [];
          })
          (record db {
            retention_controls =
                set_rows enabled hold canonical_id reason now db.retention_controls;
          }))
