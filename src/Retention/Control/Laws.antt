-- ===== src/Retention/Control/Laws.antt =====
-- What a hold reads after `set_control`, and the schema's constraints on `retention_controls`.
use mailarchive.Base.{
  ◌≡◌, ◌⊎◌, refl, Bool, true, false, not, ◌&&◌, ◌||◌, Option, none, some, String, List, [], ◌∷◌,
  arith, str_eq, eq_iff, if◌then◌else◌, inl, inr, Bool-cases,
}
use mailarchive.Base.Lists.{filter}
use mailarchive.Base.Rows.{update_where}
use mailarchive.Db.{ControlRow}
use mailarchive.Retention.Control.{
  Hold, keep_online, legal_hold, held, set_column, other, is_for, control_for, upsert, release,
  set_rows,
}

abbrev pub hold_eq : Hold → Hold → Bool
hold_eq keep_online keep_online = true
hold_eq legal_hold legal_hold = true
hold_eq _ _ = false

-- Whether a message is held, as the policy reads it.
abbrev pub value_of : Hold → Option ControlRow → Bool
value_of hold none = false
value_of hold (some row) = held hold row

abbrev pub is_held : Hold → String → List ControlRow → Bool
is_held hold id rows = value_of hold (control_for id rows)

is_held-upsert :
    (h hold : Hold) (j id reason now : String) (rows : List ControlRow)
    → is_held h j (upsert hold id reason now rows)
      ≡ (if str_eq id j && hold_eq hold h then true else is_held h j rows)
unfolding control_for upsert held
is_held-upsert keep_online keep_online j id reason now [] = ground arith
is_held-upsert h hold j id reason now [] = ground arith
is_held-upsert keep_online keep_online j id reason now (row ∷ rows) = ground (
  arith,
  eq_iff row.canonical_message_id id,
  eq_iff row.canonical_message_id j,
  eq_iff id j,
  is_held-upsert keep_online keep_online j id reason now rows,
)
is_held-upsert h hold j id reason now (row ∷ rows) = ground (
  arith,
  eq_iff row.canonical_message_id id,
  eq_iff row.canonical_message_id j,
  eq_iff id j,
  is_held-upsert h hold j id reason now rows,
)

control_for-delete :
    (j id : String) (rows : List ControlRow)
    → control_for j (filter (λ row. not (is_for id row)) rows)
      ≡ (if str_eq id j then none else control_for j rows)
unfolding control_for
control_for-delete j id [] = ground arith
control_for-delete j id (row ∷ rows) = ground (
  arith,
  eq_iff row.canonical_message_id id,
  eq_iff row.canonical_message_id j,
  eq_iff id j,
  control_for-delete j id rows,
)

abbrev touch : Hold → String → String → ControlRow → ControlRow
touch hold reason now r = set_column hold false (record r { reason = reason; updated_at = now })

is_held-update :
    (h hold : Hold) (j id reason now : String) (rows : List ControlRow)
    → is_held h j (update_where (is_for id) (touch hold reason now) rows)
      ≡ (if str_eq id j && hold_eq hold h then false else is_held h j rows)
unfolding control_for held set_column
is_held-update keep_online keep_online j id reason now [] = ground arith
is_held-update h hold j id reason now [] = ground arith
is_held-update keep_online keep_online j id reason now (row ∷ rows) = ground (
  arith,
  eq_iff row.canonical_message_id id,
  eq_iff row.canonical_message_id j,
  eq_iff id j,
  is_held-update keep_online keep_online j id reason now rows,
)
is_held-update h hold j id reason now (row ∷ rows) = ground (
  arith,
  eq_iff row.canonical_message_id id,
  eq_iff row.canonical_message_id j,
  eq_iff id j,
  is_held-update h hold j id reason now rows,
)

-- Where no row, or no other hold, is left, deleting the rows releases just the one hold.
is_held-delete :
    (h hold : Hold) (j id : String) (rows : List ControlRow)
    → is_held (other hold) id rows ≡ false
    → is_held h j (filter (λ row. not (is_for id row)) rows)
      ≡ (if str_eq id j && hold_eq hold h then false else is_held h j rows)
unfolding other
is_held-delete keep_online keep_online j id rows p =
    ground (arith, control_for-delete j id rows, eq_iff id j)
is_held-delete h hold j id rows p = ground (arith, control_for-delete j id rows, eq_iff id j)

release_missing :
    (hold : Hold) (id reason now : String) (rows : List ControlRow)
    → is_held (other hold) id rows ≡ false
    → release hold id reason now rows ≡ filter (λ row. not (is_for id row)) rows
unfolding release
release_missing hold id reason now rows p = ground arith

release_kept :
    (hold : Hold) (id reason now : String) (rows : List ControlRow)
    → is_held (other hold) id rows ≡ true
    → release hold id reason now rows ≡ update_where (is_for id) (touch hold reason now) rows
unfolding release
release_kept hold id reason now rows p = ground arith

-- After a hold is set or released, that hold of that message reads as it was set; every other
-- hold, and every hold of another message, reads as before.
pub is_held-set_rows :
    (enabled : Bool) (hold h : Hold) (id j reason now : String) (rows : List ControlRow)
    → is_held h j (set_rows enabled hold id reason now rows)
      ≡ (if str_eq id j && hold_eq hold h then enabled else is_held h j rows)
unfolding set_rows
is_held-set_rows true hold h id j reason now rows = is_held-upsert h hold j id reason now rows
is_held-set_rows false hold h id j reason now rows =
    elim (Bool-cases (is_held (other hold) id rows)) [
      | inl kept ↦
          rw (release_kept hold id reason now rows kept)
            (is_held-update h hold j id reason now rows)
      | inr last ↦
          rw (release_missing hold id reason now rows last) (is_held-delete h hold j id rows last)
    ]

-- The schema: the message is the primary key, and a row holds something.
abbrev pub IsValid : List ControlRow → Type 0
IsValid [] = Unit
IsValid (row ∷ rows) =
    (control_for row.canonical_message_id rows ≡ none)
    × ((row.keep_online || row.legal_hold) ≡ true)
    × IsValid rows

control_for-upsert_ne :
    (j : String) (hold : Hold) (id reason now : String) (rows : List ControlRow)
    → str_eq id j ≡ false
    → control_for j rows ≡ none
    → control_for j (upsert hold id reason now rows) ≡ none
unfolding control_for upsert
control_for-upsert_ne j keep_online id reason now [] p q = ground arith
control_for-upsert_ne j legal_hold id reason now [] p q = ground arith
control_for-upsert_ne j keep_online id reason now (row ∷ rows) p q =
    ground (arith, control_for-upsert_ne j keep_online id reason now rows p)
control_for-upsert_ne j legal_hold id reason now (row ∷ rows) p q =
    ground (arith, control_for-upsert_ne j legal_hold id reason now rows p)

upsert-IsValid :
    (hold : Hold) (id reason now : String) (rows : List ControlRow)
    → IsValid rows
    → IsValid (upsert hold id reason now rows)
unfolding control_for upsert
upsert-IsValid keep_online id reason now [] v = (refl, refl, tt)
upsert-IsValid legal_hold id reason now [] v = (refl, refl, tt)
upsert-IsValid keep_online id reason now (row ∷ rows) v = ground (
  arith,
  eq_iff row.canonical_message_id id,
  eq_iff id row.canonical_message_id,
  upsert-IsValid keep_online id reason now rows v.2,
  control_for-upsert_ne row.canonical_message_id keep_online id reason now rows,
)
upsert-IsValid legal_hold id reason now (row ∷ rows) v = ground (
  arith,
  eq_iff row.canonical_message_id id,
  eq_iff id row.canonical_message_id,
  upsert-IsValid legal_hold id reason now rows v.2,
  control_for-upsert_ne row.canonical_message_id legal_hold id reason now rows,
)

delete-IsValid :
    (id : String) (rows : List ControlRow)
    → IsValid rows
    → IsValid (filter (λ row. not (is_for id row)) rows)
delete-IsValid id [] v = tt
delete-IsValid id (row ∷ rows) v = ground (
  arith,
  delete-IsValid id rows v.2,
  control_for-delete row.canonical_message_id id rows,
  eq_iff id row.canonical_message_id,
)

control_for-update :
    (j id reason now : String) (hold : Hold) (rows : List ControlRow)
    → control_for j rows ≡ none
    → control_for j (update_where (is_for id) (touch hold reason now) rows) ≡ none
unfolding control_for set_column
control_for-update j id reason now hold [] p = refl
control_for-update j id reason now keep_online (row ∷ rows) p =
    ground (arith, control_for-update j id reason now keep_online rows)
control_for-update j id reason now legal_hold (row ∷ rows) p =
    ground (arith, control_for-update j id reason now legal_hold rows)

-- No row but the found one is for the message, so each touched row keeps its other hold.
update-IsValid :
    (hold : Hold) (id reason now : String) (rows : List ControlRow)
    → IsValid rows
    → (control_for id rows ≡ none) ⊎ (is_held (other hold) id rows ≡ true)
    → IsValid (update_where (is_for id) (touch hold reason now) rows)
unfolding control_for set_column held other
update-IsValid hold id reason now [] v p = tt
update-IsValid keep_online id reason now (row ∷ rows) v p = ground (
  arith,
  eq_iff row.canonical_message_id id,
  control_for-update row.canonical_message_id id reason now keep_online rows,
  update-IsValid keep_online id reason now rows v.2,
)
update-IsValid legal_hold id reason now (row ∷ rows) v p = ground (
  arith,
  eq_iff row.canonical_message_id id,
  control_for-update row.canonical_message_id id reason now legal_hold rows,
  update-IsValid legal_hold id reason now rows v.2,
)

-- Setting and releasing holds keeps the table valid: one row for each message, and no row that
-- holds nothing.
pub set_rows-IsValid :
    (enabled : Bool) (hold : Hold) (id reason now : String) (rows : List ControlRow)
    → IsValid rows
    → IsValid (set_rows enabled hold id reason now rows)
unfolding set_rows
set_rows-IsValid true hold id reason now rows v = upsert-IsValid hold id reason now rows v
set_rows-IsValid false hold id reason now rows v =
    elim (Bool-cases (is_held (other hold) id rows)) [
      | inl kept ↦
          rw (release_kept hold id reason now rows kept)
            (update-IsValid hold id reason now rows v (inr kept))
      | inr last ↦ rw (release_missing hold id reason now rows last) (delete-IsValid id rows v)
    ]
