-- ===== src/Links/Registers.antt =====
-- `register_pop3_link` of src/mailarchive/pop3.py and `register_remote_link` of
-- src/mailarchive/imap.py on the map from remote identities to canonical messages.
use mailarchive.Base.{
  ℕ, ◌≡◌, ◌≢◌, refl, Bool, true, false, Option, none, some, String, List, [], ◌∷◌, arith, ◌⊎◌, inl,
  inr, ◌==◌, ==_iff, str_eq, eq_iff, str_eq_refl,
}
use mailarchive.Models.{kind_eq}
use mailarchive.Host.{Json, text}
use mailarchive.Db.{insert_audit_event, Db, CanonicalRow, RemoteRow}
use mailarchive.Links.{
  Linked, not_active, Key, holds, pop3_key, imap_key, Ids, event, pop3_row, imap_row, fresh_row,
  imap_details, for_account, active_account, register_pop3_link, register_remote_link,
}
use mailarchive.Links.Identity.{IsKey, AllDistinct, AreApart}
use mailarchive.Links.Refines.{IsRegistered, IsAudit, register_link-IsRegistered}

holds-other :
    (value other : String) (o : Option String)
    → other ≢ value
    → holds (str_eq value) o ≡ true
    → holds (str_eq other) o ≡ false
holds-other value other none differ h = refl
holds-other value other (some found) differ h =
    ground (arith, eq_iff value found, eq_iff other found)

event-IsAudit :
    (actor kind result : String) (canonical : Option String) (account : ℕ) (now : String)
    (details : List (String × Json))
    → IsAudit (event actor kind result canonical account now details)
unfolding event insert_audit_event
event-IsAudit actor kind result canonical account now details d = (refl, refl)

pop3_key-IsKey : (account : ℕ) (uidl : String) → IsKey (pop3_key account uidl)
unfolding pop3_key
pop3_key-IsKey account uidl now r = refl

imap_key-IsKey :
    (account : ℕ) (folder : String) (uidvalidity uid : ℕ)
    → IsKey (imap_key account folder uidvalidity uid)
unfolding imap_key
imap_key-IsKey account folder uidvalidity uid now r = refl

pop3-AreApart :
    (account : ℕ) (uidl other : String) (rows : List RemoteRow)
    → other ≢ uidl
    → AreApart (pop3_key account uidl) (pop3_key account other) rows
unfolding pop3_key
pop3-AreApart account uidl other [] differ = tt
pop3-AreApart account uidl other (r ∷ rows) differ = (
  λ h. ground (arith, holds-other uidl other r.provider_message_id differ),
  pop3-AreApart account uidl other rows differ,
)

pop3-mine :
    (ids : Ids) (account : ℕ) (uidl now : String) (canonical : CanonicalRow)
    → pop3_key account uidl (pop3_row ids account uidl canonical now) ≡ true
unfolding pop3_key pop3_row kind_eq
pop3-mine ids account uidl now canonical = ground (arith, str_eq_refl uidl)

pop3-not_mine :
    (ids : Ids) (account : ℕ) (uidl other now : String) (canonical : CanonicalRow)
    → other ≢ uidl
    → pop3_key account other (pop3_row ids account uidl canonical now) ≡ false
unfolding pop3_key pop3_row kind_eq
pop3-not_mine ids account uidl other now canonical differ = ground (arith, eq_iff other uidl)

active-IsRegistered :
    (key other : ℕ → Key) (o : Option ℕ) (canonical : CanonicalRow) (register : ℕ → Linked × Db)
    (db : Db)
    → ((account : ℕ)
        → IsRegistered
            (key account)
            (other account)
            canonical.id
            db
            (register account).1
            (register account).0)
    → let out = for_account o canonical register db in
      IsRegistered
        (key canonical.account_id)
        (other canonical.account_id)
        canonical.id
        db
        out.1
        out.0
unfolding for_account
active-IsRegistered key other none canonical register db h = refl
active-IsRegistered key other (some account) canonical register db h =
    tested (account == canonical.account_id) refl
  where
    tested :
        (b : Bool)
        → account == canonical.account_id ≡ b
        → let out : Linked × Db = elim b [ true ↦ register account | false ↦ (not_active, db) ] in
          IsRegistered
            (key canonical.account_id)
            (other canonical.account_id)
            canonical.id
            db
            out.1
            out.0
    tested true e = rw⁻¹ ((==_iff account canonical.account_id).0 e) (h account)
    tested false e = refl

-- Where the ids of the remote messages differ: a registration of a UIDL binds it to the canonical
-- message, if it was free or bound to this message; or it fails with a conflict, the UIDL stays
-- bound to another message and no link is touched; or the account is not active, or SQLite refuses
-- the row, and nothing is changed. What another UIDL of the account is bound to never changes.
pub register_pop3_link-IsRegistered :
    (ids : Ids) (name uidl other : String) (canonical : CanonicalRow) (now later : String) (db : Db)
    → AllDistinct db.remote_messages
    → other ≢ uidl
    → let out = register_pop3_link ids name uidl canonical now later db in
      IsRegistered
        (pop3_key canonical.account_id uidl)
        (pop3_key canonical.account_id other)
        canonical.id
        db
        out.1
        out.0
unfolding register_pop3_link
register_pop3_link-IsRegistered ids name uidl other canonical now later db distinct differ =
    active-IsRegistered (λ account. pop3_key account uidl) (λ account. pop3_key account other)
      (active_account name db.accounts) canonical _ db
      λ account.
        register_link-IsRegistered (pop3_key account uidl) (pop3_key account other)
          (pop3_row ids account uidl canonical now) canonical "pop3-uidl-retr" (λ d. d)
          (event "mailarchive.pop3" "pop3.remote_link.failed" "conflict" none account later
            (("uidl", text uidl) ∷ []))
          db (pop3_key-IsKey account uidl) (pop3_key-IsKey account other)
          (pop3-mine ids account uidl now canonical)
          (pop3-not_mine ids account uidl other now canonical differ) distinct
          (pop3-AreApart account uidl other db.remote_messages differ) (λ d. (refl, refl))
          (event-IsAudit "mailarchive.pop3" "pop3.remote_link.failed" "conflict" none account later
            (("uidl", text uidl) ∷ []))

-- Two UIDs of an account, by folder, UIDVALIDITY and UID.
abbrev pub Differ : String → ℕ → ℕ → String → ℕ → ℕ → Type 0
Differ folder uidvalidity uid folder' uidvalidity' uid' =
    (folder' ≢ folder) ⊎ ((uidvalidity' ≢ uidvalidity) ⊎ (uid' ≢ uid))

holds-other_number :
    (value other : ℕ) (o : Option ℕ)
    → other ≢ value
    → holds (λ n. n == value) o ≡ true
    → holds (λ n. n == other) o ≡ false
holds-other_number value other none differ h = refl
holds-other_number value other (some number) differ h = ground arith

imap_row-apart :
    (account : ℕ) (folder folder' : String) (uidvalidity uid uidvalidity' uid' : ℕ) (r : RemoteRow)
    → Differ folder uidvalidity uid folder' uidvalidity' uid'
    → imap_key account folder uidvalidity uid r ≡ true
    → imap_key account folder' uidvalidity' uid' r ≡ false
unfolding imap_key
imap_row-apart account folder folder' uidvalidity uid uidvalidity' uid' r (inl differ) h =
    ground (arith, holds-other folder folder' r.remote_folder differ)
imap_row-apart account folder folder' uidvalidity uid uidvalidity' uid' r (inr (inl differ)) h =
    ground (arith, holds-other_number uidvalidity uidvalidity' r.uidvalidity differ)
imap_row-apart account folder folder' uidvalidity uid uidvalidity' uid' r (inr (inr differ)) h =
    ground (arith, holds-other_number uid uid' r.remote_uid differ)

imap-AreApart :
    (account : ℕ) (folder folder' : String) (uidvalidity uid uidvalidity' uid' : ℕ)
    (rows : List RemoteRow)
    → Differ folder uidvalidity uid folder' uidvalidity' uid'
    → AreApart
        (imap_key account folder uidvalidity uid)
        (imap_key account folder' uidvalidity' uid')
        rows
imap-AreApart account folder folder' uidvalidity uid uidvalidity' uid' [] differ = tt
imap-AreApart account folder folder' uidvalidity uid uidvalidity' uid' (r ∷ rows) differ = (
  imap_row-apart account folder folder' uidvalidity uid uidvalidity' uid' r differ,
  imap-AreApart account folder folder' uidvalidity uid uidvalidity' uid' rows differ,
)

imap-mine :
    (ids : Ids) (account : ℕ) (folder : String) (uidvalidity uid : ℕ) (now : String)
    (canonical : CanonicalRow)
    → imap_key account folder uidvalidity uid
        (imap_row ids account folder uidvalidity uid canonical now)
      ≡ true
unfolding imap_key imap_row fresh_row kind_eq
imap-mine ids account folder uidvalidity uid now canonical = ground (arith, str_eq_refl folder)

-- Where the ids of the remote messages differ: a registration of a UID of a folder under its
-- UIDVALIDITY binds it to the canonical message, if it was free or bound to this message; or it
-- fails with a conflict, the UID stays bound to another message and no link is touched; or the
-- account is not active, or SQLite refuses the row, and nothing is changed. What another UID of the
-- account, in this folder and UIDVALIDITY or another, is bound to never changes.
pub register_remote_link-IsRegistered :
    (ids : Ids) (name folder folder' : String) (uidvalidity uid uidvalidity' uid' : ℕ)
    (canonical : CanonicalRow) (now later : String) (db : Db)
    → AllDistinct db.remote_messages
    → Differ folder uidvalidity uid folder' uidvalidity' uid'
    → let out = register_remote_link ids name folder uidvalidity uid canonical now later db in
      IsRegistered
        (imap_key canonical.account_id folder uidvalidity uid)
        (imap_key canonical.account_id folder' uidvalidity' uid')
        canonical.id
        db
        out.1
        out.0
unfolding register_remote_link
register_remote_link-IsRegistered ids name folder folder' uidvalidity uid uidvalidity' uid'
      canonical now later db distinct differ =
    active-IsRegistered (λ account. imap_key account folder uidvalidity uid)
      (λ account. imap_key account folder' uidvalidity' uid') (active_account name db.accounts)
      canonical _ db
      λ account.
        register_link-IsRegistered (imap_key account folder uidvalidity uid)
          (imap_key account folder' uidvalidity' uid')
          (imap_row ids account folder uidvalidity uid canonical now) canonical "imap-uid-body-peek"
          (event "mailarchive.imap" "imap.remote_link.created" "success" (some canonical.id) account
            later (imap_details ids folder uidvalidity uid))
          (event "mailarchive.imap" "imap.remote_link.failed" "conflict" none account later
            (imap_details ids folder uidvalidity uid))
          db (imap_key-IsKey account folder uidvalidity uid)
          (imap_key-IsKey account folder' uidvalidity' uid')
          (imap-mine ids account folder uidvalidity uid now canonical)
          (imap_row-apart account folder folder' uidvalidity uid uidvalidity' uid'
            (imap_row ids account folder uidvalidity uid canonical now) differ
            (imap-mine ids account folder uidvalidity uid now canonical))
          distinct
          (imap-AreApart account folder folder' uidvalidity uid uidvalidity' uid' db.remote_messages
            differ)
          (event-IsAudit "mailarchive.imap" "imap.remote_link.created" "success" (some canonical.id)
            account later (imap_details ids folder uidvalidity uid))
          (event-IsAudit "mailarchive.imap" "imap.remote_link.failed" "conflict" none account later
            (imap_details ids folder uidvalidity uid))
