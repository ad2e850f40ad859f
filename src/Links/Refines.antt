-- ===== src/Links/Refines.antt =====
-- The links of src/mailarchive/imap.py and src/mailarchive/pop3.py as a map from remote identities
-- to canonical messages.
use mailarchive.Base.{
  ◌≡◌, ◌≢◌, refl, ap, ◌∙◌, Bool, true, false, Option, none, some, String, List, [], ◌∷◌, ◌++◌,
  arith, ◌⊎◌, inl, inr, str_eq, eq_iff, str_eq_refl, Option-cases, if◌then◌else◌,
}
use mailarchive.Db.{Db, CanonicalRow, RemoteRow, LinkRow}
use mailarchive.Links.{
  Linked, linked, conflict, not_active, integrity_error, Key, upsert, remote_id, canonical_of,
  insert_link, link_to, link_row, commit_link, register_link,
}
use mailarchive.Links.Identity.{IsKey, AllDistinct, AreApart, IsUpserted, upsert-IsUpserted}

-- The canonical message that an identity is linked to.
abbrev pub through : Option String → List LinkRow → Option String
through none links = none
through (some id) links = canonical_of id links

abbrev pub linked_to : Key → Db → Option String
linked_to key db = through (remote_id key db.remote_messages) db.remote_canonical_links

-- What a registration of `key` for a canonical message does to the map. It binds the identity, which
-- was free or bound to this message; or it is refused, the identity is bound to another message and
-- no link is touched; or nothing is changed. It never changes what another identity is bound to.
abbrev pub IsRegistered : Key → Key → String → Db → Db → Linked → Type 0
IsRegistered key other canonical db after linked =
    (linked_to key after ≡ some canonical)
    × ((linked_to key db ≡ none) ⊎ (linked_to key db ≡ some canonical))
    × (linked_to other after ≡ linked_to other db)
IsRegistered key other canonical db after conflict =
    ((bound : String) × (linked_to key after ≡ some bound) × (bound ≢ canonical))
    × (after.remote_canonical_links ≡ db.remote_canonical_links)
    × (linked_to other after ≡ linked_to other db)
IsRegistered key other canonical db after not_active = after ≡ db
IsRegistered key other canonical db after integrity_error = after ≡ db

-- Only the audit events change.
abbrev pub IsAudit : (Db → Db) → Type 0
IsAudit write =
    (d : Db)
    → ((write d).remote_messages ≡ d.remote_messages)
      × ((write d).remote_canonical_links ≡ d.remote_canonical_links)

canonical_of-append :
    (id canonical reason now : String) (links : List LinkRow)
    → canonical_of id links ≡ none
    → canonical_of id (links ++ link_to id canonical reason now ∷ []) ≡ some canonical
unfolding canonical_of
canonical_of-append id canonical reason now [] h = ground (arith, str_eq_refl id)
canonical_of-append id canonical reason now (l ∷ links) h =
    ground (arith, canonical_of-append id canonical reason now links)

canonical_of-append_other :
    (id found canonical reason now : String) (links : List LinkRow)
    → found ≢ id
    → canonical_of found (links ++ link_to id canonical reason now ∷ []) ≡ canonical_of found links
unfolding canonical_of
canonical_of-append_other id found canonical reason now [] h = ground (arith, eq_iff id found)
canonical_of-append_other id found canonical reason now (l ∷ links) h =
    ground (arith, canonical_of-append_other id found canonical reason now links h)

through-append :
    (o : Option String) (id canonical reason now : String) (links : List LinkRow)
    → ((found : String) → o ≡ some found → found ≢ id)
    → through o (links ++ link_to id canonical reason now ∷ []) ≡ through o links
through-append none id canonical reason now links apart = refl
through-append (some found) id canonical reason now links apart =
    canonical_of-append_other id found canonical reason now links (apart found refl)

module _ (key other : Key) (canonical : CanonicalRow) (reason now : String)
    (written refused : Db → Db) (keeps_written : IsAudit written) (keeps_refused : IsAudit refused)
    (db : Db) where
  stable_link :
      (rows : List RemoteRow)
      → (ups : IsUpserted key other db.remote_messages rows) → (old : String)
      → linked_to key db ≡ some old
      → canonical_of ups.id db.remote_canonical_links ≡ some old
  stable_link rows ups old h = elim (Option-cases (remote_id key db.remote_messages)) [
    | inl e ↦ cc (e, h)
    | inr (before, e) ↦ cc (e, h, ups.stable before e)
  ]

  abbrev Result : Linked × Db → Type 0
  Result out = IsRegistered key other canonical.id db out.1 out.0

  free_or_same :
      ((old : String) → linked_to key db ≡ some old → old ≡ canonical.id)
      → (linked_to key db ≡ none) ⊎ (linked_to key db ≡ some canonical.id)
  free_or_same same = elim (Option-cases (linked_to key db)) [
    | inl e ↦ inl e
    | inr (old, e) ↦ inr (e ∙ ap some (same old e))
  ]

  decided :
      (rows : List RemoteRow) (ups : IsUpserted key other db.remote_messages rows) (bound : String)
      (b : Bool)
      → str_eq bound canonical.id ≡ b
      → canonical_of ups.id db.remote_canonical_links ≡ some bound
      → Result (
          commit_link written refused
            (if b then some db.remote_canonical_links else none)
            (record db { remote_messages = rows }))
  unfolding commit_link
  decided rows ups bound true same e =
      let after = record db { remote_messages = rows } in
      let (messages, links) = keeps_written after in
      let equal = (eq_iff bound canonical.id).0 same in
      (
        rw (messages, links, ups.mine) (e ∙ ap some equal),
        free_or_same λ old h. cc (stable_link rows ups old h, e, equal),
        rw (messages, links, ups.kept) refl,
      )
  decided rows ups bound false different e =
      let after = record db { remote_messages = rows } in
      let (messages, links) = keeps_refused after in
      (
        (
          bound,
          rw (messages, links, ups.mine) e,
          λ equal. ground (arith, eq_iff bound canonical.id),
        ),
        links,
        rw (messages, links, ups.kept) refl,
      )

  committed :
      (rows : List RemoteRow) (ups : IsUpserted key other db.remote_messages rows)
      (o : Option String)
      → canonical_of ups.id db.remote_canonical_links ≡ o
      → Result (
          commit_link written refused
            (insert_link (link_to ups.id canonical.id reason now) o db.remote_canonical_links)
            (record db { remote_messages = rows }))
  unfolding insert_link commit_link
  committed rows ups (some bound) e = decided rows ups bound (str_eq bound canonical.id) refl e
  committed rows ups none e =
      let new = db.remote_canonical_links ++ link_to ups.id canonical.id reason now ∷ [] in
      let after = record db { remote_messages = rows; remote_canonical_links = new } in
      let (messages, links) = keeps_written after in
      (
        rw (messages, links, ups.mine)
            (canonical_of-append ups.id canonical.id reason now db.remote_canonical_links e),
        free_or_same λ old h. cc (stable_link rows ups old h, e),
        rw (messages, links, ups.kept)
            (through-append (remote_id other db.remote_messages) ups.id canonical.id reason now
              db.remote_canonical_links ups.apart),
      )

  upserted :
      (fresh : RemoteRow) (o : Option (List RemoteRow))
      → ((rows : List RemoteRow) → o ≡ some rows → IsUpserted key other db.remote_messages rows)
      → Result (elim o [
        | none ↦ (integrity_error, db)
        | some rows ↦
            link_row canonical reason now written refused
              (remote_id key rows)
              (record db { remote_messages = rows })
      ])
  unfolding link_row
  upserted fresh none ups = refl
  upserted fresh (some rows) ups =
      let u = ups rows refl in
      rw u.mine (committed rows u (canonical_of u.id db.remote_canonical_links) refl)

-- The step that both registrations share is a step of the map.
pub register_link-IsRegistered :
    (key other : Key) (fresh : RemoteRow) (canonical : CanonicalRow) (reason : String)
    (written refused : Db → Db) (db : Db)
    → IsKey key
    → IsKey other
    → key fresh ≡ true
    → other fresh ≡ false
    → AllDistinct db.remote_messages
    → AreApart key other db.remote_messages
    → IsAudit written
    → IsAudit refused
    → let out = register_link key fresh canonical reason written refused db in
      IsRegistered key other canonical.id db out.1 out.0
unfolding register_link
register_link-IsRegistered key other fresh canonical reason written refused db is_key is_other mine
      not_mine distinct apart w r =
    upserted key other canonical reason fresh.last_seen_at written refused w r db fresh
      (upsert key fresh db.remote_messages)
      (λ rows.
        upsert-IsUpserted key other fresh db.remote_messages rows is_key is_other mine not_mine
          distinct apart)
