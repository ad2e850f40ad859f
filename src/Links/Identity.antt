-- ===== src/Links/Identity.antt =====
-- The row of `remote_messages` that an identity selects, before and after a registration by
-- src/mailarchive/imap.py and src/mailarchive/pop3.py.
use mailarchive.Base.{
  ◌≡◌, ◌≢◌, refl, sym, ◌∙◌, true, false, none, some, String, List, [], ◌∷◌, ◌++◌, arith, inl, inr,
  str_eq, eq_iff, Bool-cases,
}
use mailarchive.Base.Lists.{any, All}
use mailarchive.Base.Rows.{update_where}
use mailarchive.Db.{RemoteRow}
use mailarchive.Links.{Key, seen, upsert, remote_id}

-- A test that reads neither `remote_present` nor `last_seen_at`.
abbrev pub IsKey : Key → Type 0
IsKey key = (now : String) (r : RemoteRow) → key (seen now r) ≡ key r

-- `PRIMARY KEY` of `remote_messages`.
abbrev pub AllDistinct : List RemoteRow → Type 0
AllDistinct [] = Unit
AllDistinct (r ∷ rows) = All (λ (x : RemoteRow). x.id ≢ r.id) rows × AllDistinct rows

-- No row has both identities.
abbrev pub AreApart : Key → Key → List RemoteRow → Type 0
AreApart key other rows = All (λ r. key r ≡ true → other r ≡ false) rows

remote_id-update :
    (key other : Key) (now : String) (rows : List RemoteRow)
    → IsKey other
    → remote_id other (update_where key (seen now) rows) ≡ remote_id other rows
unfolding remote_id
remote_id-update key other now [] same = refl
remote_id-update key other now (r ∷ rows) same =
    ground (arith, same now r, remote_id-update key other now rows same)

remote_id-none :
    (key : Key) (rows : List RemoteRow) → any key rows ≡ false → remote_id key rows ≡ none
unfolding remote_id
remote_id-none key [] h = refl
remote_id-none key (r ∷ rows) h = ground (arith, remote_id-none key rows)

remote_id-append :
    (key : Key) (fresh : RemoteRow) (rows : List RemoteRow)
    → key fresh ≡ true
    → any key rows ≡ false
    → remote_id key (rows ++ fresh ∷ []) ≡ some fresh.id
unfolding remote_id
remote_id-append key fresh [] mine h = ground arith
remote_id-append key fresh (r ∷ rows) mine h = ground (arith, remote_id-append key fresh rows mine)

remote_id-append_other :
    (other : Key) (fresh : RemoteRow) (rows : List RemoteRow)
    → other fresh ≡ false
    → remote_id other (rows ++ fresh ∷ []) ≡ remote_id other rows
unfolding remote_id
remote_id-append_other other fresh [] mine = ground arith
remote_id-append_other other fresh (r ∷ rows) mine =
    ground (arith, remote_id-append_other other fresh rows mine)

pub remote_id-some :
    (key : Key) (rows : List RemoteRow)
    → any key rows ≡ true
    → (id : String) × (remote_id key rows ≡ some id)
unfolding remote_id
remote_id-some key [] h = cc h
remote_id-some key (r ∷ rows) h = elim (Bool-cases (key r)) [
  | inl e ↦ (r.id, ground arith)
  | inr e ↦ let (id, f) = remote_id-some key rows (ground arith) in (id, ground (arith, f))
]

remote_id-isnt :
    (other : Key) (rows : List RemoteRow) (id found : String)
    → remote_id other rows ≡ some found
    → All (λ (x : RemoteRow). x.id ≢ id) rows
    → found ≢ id
unfolding remote_id
remote_id-isnt other [] id found h k = cc h
remote_id-isnt other (r ∷ rows) id found h k = elim (Bool-cases (other r)) [
  | inl e ↦ λ same. k.0 (cc (e, h, same))
  | inr e ↦ remote_id-isnt other rows id found (cc (e, h)) k.1
]

pub remote_id-apart :
    (key other : Key) (rows : List RemoteRow) (id found : String)
    → AllDistinct rows
    → AreApart key other rows
    → remote_id key rows ≡ some id
    → remote_id other rows ≡ some found
    → found ≢ id
unfolding remote_id
remote_id-apart key other [] id found distinct apart h k = cc h
remote_id-apart key other (r ∷ rows) id found distinct apart h k = elim (Bool-cases (key r)) [
  | inl e ↦
      let f = apart.0 e in
      let same : r.id ≡ id = cc (e, h) in
      λ equal. remote_id-isnt other rows r.id found (cc (f, k)) distinct.0 (equal ∙ sym same)
  | inr e ↦ elim (Bool-cases (other r)) [
    | inl f ↦
        let same : r.id ≡ found = cc (f, k) in
        λ equal. remote_id-isnt key rows r.id id (cc (e, h)) distinct.0 (sym equal ∙ sym same)
    | inr f ↦ remote_id-apart key other rows id found distinct.1 apart.1 (cc (e, h)) (cc (f, k))
  ]
]

fresh-isnt :
    (id : String) (rows : List RemoteRow)
    → any (λ (r : RemoteRow). str_eq r.id id) rows ≡ false
    → All (λ (x : RemoteRow). x.id ≢ id) rows
fresh-isnt id [] h = tt
fresh-isnt id (r ∷ rows) h =
    (λ same. ground (arith, eq_iff r.id id), fresh-isnt id rows (ground arith))

-- A registration of one identity: it has an id afterwards, no other identity has this id, and the
-- other identities have the ids they had.
pub record IsUpserted (key other : Key) (rows after : List RemoteRow) : Type 0 where
  pub id : String
  pub mine : remote_id key after ≡ some id
  pub kept : remote_id other after ≡ remote_id other rows
  pub apart : (found : String) → remote_id other rows ≡ some found → found ≢ id
  pub stable : (old : String) → remote_id key rows ≡ some old → old ≡ id

pub upsert-IsUpserted :
    (key other : Key) (fresh : RemoteRow) (rows after : List RemoteRow)
    → IsKey key
    → IsKey other
    → key fresh ≡ true
    → other fresh ≡ false
    → AllDistinct rows
    → AreApart key other rows
    → upsert key fresh rows ≡ some after
    → IsUpserted key other rows after
unfolding upsert
upsert-IsUpserted key other fresh rows after is_key is_other mine not_mine distinct apart h =
    elim (Bool-cases (any key rows)) [
      | inl old ↦
          let (id, e) = remote_id-some key rows old in
          let same : update_where key (seen fresh.last_seen_at) rows ≡ after = cc (old, h) in
          rw⁻¹ same (record {
            id = id;
            mine = remote_id-update key key fresh.last_seen_at rows is_key ∙ e;
            kept = remote_id-update key other fresh.last_seen_at rows is_other;
            apart = λ found k. remote_id-apart key other rows id found distinct apart e k;
            stable = λ before k. cc (k, e);
          })
      | inr new ↦ elim (Bool-cases (any (λ (r : RemoteRow). str_eq r.id fresh.id) rows)) [
        | inl taken ↦ cc (new, taken, h)
        | inr free ↦
            let same : rows ++ fresh ∷ [] ≡ after = cc (new, free, h) in
            rw⁻¹ same (record {
              id = fresh.id;
              mine = remote_id-append key fresh rows mine new;
              kept = remote_id-append_other other fresh rows not_mine;
              apart = λ found k.
                  remote_id-isnt other rows fresh.id found k (fresh-isnt fresh.id rows free);
              stable = λ before k. cc (k, remote_id-none key rows new);
            })
      ]
    ]
