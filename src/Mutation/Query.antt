-- ===== src/Mutation/Query.antt =====
-- The queries of src/mailarchive/remote_mutation.py that join a remote message with its account and
-- its canonical message, and look-ups of rows and reports by their key.
use mailarchive.Base.{
  ℕ, ◌≡◌, refl, sym, arith, Bool, ◌&&◌, ◌||◌, Option, none, some, String, List, [], ◌∷◌, ◌++◌, ◌==◌,
  str_eq, if◌then◌else◌,
}
use mailarchive.Base.Lists.{find, filter, any}
use mailarchive.Base.Sort.{text_lt, order_by}
use mailarchive.Errors.{Outcome, ok, raised, planned_disappeared, historical_disappeared}
use mailarchive.Db.{Db, RemoteRow, CanonicalRow, LinkRow, AccountRow, RunRow, MutationRow}
use mailarchive.Retention.Inventory.{account_by_id, canonical_by_id, links_of}
use mailarchive.Retention.Report.{Report}
use mailarchive.Mutation.Target.{DeletionTarget, target_of, target_of-eq-ok}

-- A row of the join of remote message, account, link and canonical message.
pub record LinkedRow : Type 0 where
  pub remote : RemoteRow
  pub account_name : String
  pub canonical : CanonicalRow

link_rows : Db → RemoteRow → String → List LinkRow → List LinkedRow
link_rows db r name [] = []
link_rows db r name (l ∷ ls) =
    let rest = link_rows db r name ls in
    elim (canonical_by_id db l.canonical_message_id) [
      | none ↦ rest
      | some c ↦ record { remote = r; account_name = name; canonical = c } ∷ rest
    ]

joined : Db → RemoteRow → List LinkedRow
unfolding link_rows
joined db r = elim (account_by_id db r.account_id) [
  | none ↦ []
  | some a ↦ link_rows db r a.name (links_of db r.id)
]

-- The join for the remote messages that `keep` accepts.
unfoldable pub linked_rows : Db → (RemoteRow → Bool) → List RemoteRow → List LinkedRow
unfolding joined
linked_rows db keep [] = []
linked_rows db keep (r ∷ rs) = (if keep r then joined db r else []) ++ linked_rows db keep rs

abbrev pub before : LinkedRow → LinkedRow → Bool
before x y =
    text_lt x.account_name y.account_name
    || str_eq x.account_name y.account_name && text_lt x.remote.id y.remote.id

-- `WHERE r.id IN (…) ORDER BY a.name,r.id`
unfoldable pub rows_in : Db → List String → List LinkedRow
rows_in db ids =
    order_by before
      (linked_rows db (λ (r : RemoteRow). any (λ id. str_eq r.id id) ids) db.remote_messages)

-- `WHERE r.id=? AND c.id=?`
unfoldable pub row_of : Db → String → String → Option LinkedRow
row_of db remote canonical =
    find (λ (x : LinkedRow). str_eq x.canonical.id canonical)
      (linked_rows db (λ (r : RemoteRow). str_eq r.id remote) db.remote_messages)

-- `_target` of such a row.
unfoldable pub target_of_row : LinkedRow → Outcome DeletionTarget
target_of_row x =
    target_of x.remote.id x.canonical.id x.remote.account_id x.account_name x.remote.provider_kind
      x.canonical.sha256 x.remote.identity

-- `SELECT * FROM remote_mutation_runs WHERE id=?` and `… FROM remote_mutations WHERE id=?`
unfoldable pub run_by_id : Db → ℕ → Option RunRow
run_by_id db id = find (λ (r : RunRow). r.id == id) db.remote_mutation_runs

unfoldable pub mutation_by_id : Db → ℕ → Option MutationRow
mutation_by_id db id = find (λ (m : MutationRow). m.id == id) db.remote_mutations

-- `… WHERE mutation_run_id=? ORDER BY id`: rows are inserted in the order of their ids.
unfoldable pub mutations_of : Db → ℕ → List MutationRow
mutations_of db run_id =
    filter (λ (m : MutationRow). m.mutation_run_id == run_id) db.remote_mutations

planned_target_of : Db → MutationRow → Outcome DeletionTarget
planned_target_of db m = elim (account_by_id db m.account_id) [
  | none ↦ raised planned_disappeared
  | some a ↦ elim (canonical_by_id db m.canonical_message_id) [
    | none ↦ raised planned_disappeared
    | some c ↦
        target_of m.remote_message_id m.canonical_message_id m.account_id a.name m.provider_kind
          c.sha256 m.identity
  ]
]

-- `_planned_target`: the hash is the current one of the canonical message.
unfoldable pub planned_target : Db → ℕ → Outcome DeletionTarget
unfolding planned_target_of
planned_target db id = elim (mutation_by_id db id) [
  | none ↦ raised planned_disappeared
  | some m ↦ planned_target_of db m
]

historical_target_of : Db → MutationRow → Outcome DeletionTarget
historical_target_of db m = elim (account_by_id db m.account_id) [
  | none ↦ raised historical_disappeared
  | some a ↦
      target_of m.remote_message_id m.canonical_message_id m.account_id a.name m.provider_kind
        m.canonical_sha256 m.identity
]

-- `_historical_target`: identity and hash are those of the mutation row.
unfoldable pub historical_target : Db → ℕ → Outcome DeletionTarget
unfolding historical_target_of
historical_target db id = elim (mutation_by_id db id) [
  | none ↦ raised historical_disappeared
  | some m ↦ historical_target_of db m
]

-- `{str(r["remote_message_id"]): r for r in reports}.get(id)`: the last report of an id counts.
unfoldable pub report_for : String → List Report → Option Report
report_for id [] = none
report_for id (r ∷ rs) = elim (report_for id rs) [
  | some later ↦ some later
  | none ↦ if str_eq r.remote_message_id id then some r else none
]

planned_target_of-remote :
    (db : Db) (m : MutationRow) (t : DeletionTarget)
    → planned_target_of db m ≡ ok t
    → m.remote_message_id ≡ t.remote_message_id
unfolding planned_target_of
planned_target_of-remote db m t h =
    with_account (account_by_id db m.account_id) refl (canonical_by_id db m.canonical_message_id)
      refl
  where
    with_account :
        (a : Option AccountRow)
        → account_by_id db m.account_id ≡ a
        → (c : Option CanonicalRow) → canonical_by_id db m.canonical_message_id ≡ c
        → m.remote_message_id ≡ t.remote_message_id
    with_account none p c q = ground arith
    with_account (some a) p none q = ground arith
    with_account (some a) p (some c) q =
        sym
          (target_of-eq-ok m.remote_message_id m.canonical_message_id m.account_id a.name
            m.provider_kind c.sha256 m.identity t (ground arith)).0

-- A planned target is that of an existing row, for the same remote message.
pub planned_target-remote :
    (db : Db) (id : ℕ) (t : DeletionTarget)
    → planned_target db id ≡ ok t
    → (m : MutationRow) × (mutation_by_id db id ≡ some m)
      × (m.remote_message_id ≡ t.remote_message_id)
unfolding planned_target
planned_target-remote db id t h = with_row (mutation_by_id db id) refl
  where
    with_row :
        (o : Option MutationRow)
        → mutation_by_id db id ≡ o
        → (m : MutationRow) × (mutation_by_id db id ≡ some m)
          × (m.remote_message_id ≡ t.remote_message_id)
    with_row none p = absurd (ground arith)
    with_row (some m) p = (m, p, planned_target_of-remote db m t (ground arith))
