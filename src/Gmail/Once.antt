-- ===== src/Gmail/Once.antt =====
-- The `DELETE` requests of one attempt of `GmailMutationAdapter.delete` in
-- src/mailarchive/gmail_mutation.py.
use mailarchive.Base.{
  ℕ, ◌≡◌, refl, ap, ◌∙◌, Bool, true, false, not, ◌||◌, Option, none, some, String, List, ◌∷◌, arith,
  ◌⊎◌, inl, inr, eq_iff, is_none, Bool-cases,
}
use mailarchive.Host.{Host, Bytes}
use mailarchive.Models.{AccountConfig}
use mailarchive.Mutation.Target.{DeletionTarget}
use mailarchive.Gmail.{
  Got, got, unauthorized, broken, Item, Transport, Session, State, absent, present, conflict,
  authorization, unobservable, decode_raw, exact_id, observe, observed_item, observed_raw, other_id,
  refresh_if_needed, connect, observe_again, after_refresh, confirm_state, confirmation,
  send_delete, delete_observed, same_profile, profile_email, delete_authorized, delete_connected,
  delete_refreshed, delete_exact, delete,
}

module _ {W : Type 0} (host : Host W) (api : Transport W) (account : AccountConfig)
    (account_id : ℕ) where
  -- A read of this id returned no other id, and bytes with this hash.
  pub record IsRead (id sha256 : String) : Type 0 where
    pub before : W
    pub item : Item
    pub reply : (api.get_raw id before).0 ≡ got (some item)
    pub same_id : other_id host api account account_id id item.id ≡ false
    pub raw : Bytes
    pub decoded : decode_raw host api account account_id item.raw ≡ some raw
    pub same_hash : host.sha256 raw ≡ sha256

  raw-present :
      (sha256 : String) (o : Option Bytes)
      → observed_raw host api account account_id sha256 o ≡ present
      → (raw : Bytes) × (o ≡ some raw) × (host.sha256 raw ≡ sha256)
  unfolding observed_raw
  raw-present sha256 none h = cc
  raw-present sha256 (some raw) h = (raw, refl, ground (arith, eq_iff (host.sha256 raw) sha256))

  item-present :
      (id sha256 : String) (w : W) (r : Got (Option Item))
      → (api.get_raw id w).0 ≡ r
      → observed_item host api account account_id id sha256 r ≡ present
      → IsRead id sha256
  unfolding observed_item
  item-present id sha256 w unauthorized e h = cc
  item-present id sha256 w broken e h = cc
  item-present id sha256 w (got none) e h = cc
  item-present id sha256 w (got (some item)) e h =
      elim (Bool-cases (other_id host api account account_id id item.id)) [
        | inl differs ↦ absurd (ground (arith, differs))
        | inr same ↦
            let (raw, decoded, hash) =
              raw-present sha256 (decode_raw host api account account_id item.raw) (rw same at h) in
            record {
              before = w;
              item = item;
              reply = e;
              same_id = same;
              raw = raw;
              decoded = decoded;
              same_hash = hash;
            }
      ]

  pub OneDelete : (id : String) → Type 0 → Session W → Session W → Type 0
  OneDelete id proof s s' = (s'.deleted ≡ s.deleted) ⊎ (proof × (s'.deleted ≡ id ∷ s.deleted))

  confirm_state-reads :
      (id sha256 : String) (state : State) (s : Session W)
      → (confirm_state host api account account_id id sha256 state s).1.deleted ≡ s.deleted
  unfolding confirm_state after_refresh observe_again observe connect refresh_if_needed
  confirm_state-reads id sha256 absent s = refl
  confirm_state-reads id sha256 present s = refl
  confirm_state-reads id sha256 conflict s = refl
  confirm_state-reads id sha256 unobservable s = refl
  confirm_state-reads id sha256 authorization s = elim (Bool-cases (api.refresh s.world).0) [
    | inl fresh ↦ elim (Bool-cases (api.new_transport (api.refresh s.world).1).0) [
      | inl up ↦ rw (fresh, up) refl
      | inr down ↦ rw (fresh, down) refl
    ]
    | inr stale ↦ rw stale refl
  ]

  delete_observed-OneDelete :
      (id sha256 : String) (state : State) (w : W) (s : Session W)
      → observed_item host api account account_id id sha256 (api.get_raw id w).0 ≡ state
      → OneDelete id
          (IsRead id sha256)
          s
          (delete_observed host api account account_id id sha256 state s).1
  unfolding delete_observed confirmation send_delete observe OneDelete
  delete_observed-OneDelete id sha256 absent w s e = inl refl
  delete_observed-OneDelete id sha256 conflict w s e = inl refl
  delete_observed-OneDelete id sha256 authorization w s e = inl refl
  delete_observed-OneDelete id sha256 unobservable w s e = inl refl
  delete_observed-OneDelete id sha256 present w s e =
      let sent = send_delete host api account account_id id s in
      let seen = observe host api account account_id id sha256 sent in
      inr (
        item-present id sha256 w (api.get_raw id w).0 refl e,
        confirm_state-reads id sha256 seen.0 seen.1,
      )

  delete_connected-OneDelete :
      (id sha256 : String) (o : Bool × Session W) (s : Session W)
      → o.1.deleted ≡ s.deleted
      → OneDelete id
          (IsRead id sha256)
          s
          (delete_connected host api account account_id id sha256 o).1
  unfolding delete_connected delete_authorized observe OneDelete
  delete_connected-OneDelete id sha256 (false, s') s same = inl same
  delete_connected-OneDelete id sha256 (true, s') s same =
      let world = (api.profile s'.world).1 in
      let read = (api.get_raw id world).0 in
      elim (Bool-cases (
        same_profile host api account account_id account.gmail
          (profile_email host api account account_id (api.profile s'.world).0))) [
            | inr stranger ↦ rw stranger (inl same)
            | inl owner ↦
                let once =
                  delete_observed-OneDelete id sha256
                    (observed_item host api account account_id id sha256 read) world
                    (record s' { world = (api.get_raw id world).1 }) refl in
                rw owner (since id (IsRead id sha256) s'.deleted s.deleted _ same once)
          ]
    where
      since :
          (id : String) (proof : Type 0) (middle start end : List String)
          → middle ≡ start
          → (end ≡ middle) ⊎ (proof × (end ≡ id ∷ middle))
          → (end ≡ start) ⊎ (proof × (end ≡ id ∷ start))
      since id proof middle start end e (inl none_sent) = inl (none_sent ∙ e)
      since id proof middle start end e (inr (p, one)) = inr (p, one ∙ ap (λ ids. id ∷ ids) e)

  refresh_keeps :
      (s : Session W)
      → (refresh_if_needed host api account account_id false s).1.deleted ≡ s.deleted
  unfolding refresh_if_needed
  refresh_keeps s = elim (Bool-cases (api.valid s.world)) [
    | inl good ↦ rw good refl
    | inr old ↦ rw old refl
  ]

  delete_exact-OneDelete :
      (id sha256 : String) (s : Session W)
      → OneDelete id
          (IsRead id sha256)
          s
          (delete_exact host api account account_id sha256 (some id) s).1
  unfolding delete_exact delete_refreshed refresh_if_needed connect OneDelete
  delete_exact-OneDelete id sha256 s =
      elim (Bool-cases (not account.enabled || is_none account.gmail)) [
        | inl off ↦ rw off (inl refl)
        | inr on ↦ elim (Bool-cases (not (api.lock s.world))) [
          | inl held ↦ rw (on, held) (inl refl)
          | inr free ↦
              rw (on, free)
                (refreshed (refresh_if_needed host api account account_id false s)
                  (refresh_keeps s))
        ]
      ]
    where
      refreshed :
          (o : Bool × Session W)
          → o.1.deleted ≡ s.deleted
          → OneDelete id
              (IsRead id sha256)
              s
              (delete_refreshed host api account account_id id sha256 o).1
      refreshed (false, s') same = inl same
      refreshed (true, s') same =
          delete_connected-OneDelete id sha256 (connect host api account account_id s') s same

  delete_target-OneDelete :
      (target : DeletionTarget) (s : Session W) (o : Option String)
      → exact_id host api account account_id target target.identity ≡ o
      → ((delete_exact host api account account_id target.canonical_sha256 o s).1.deleted
          ≡ s.deleted)
        ⊎ ((id : String) × (exact_id host api account account_id target target.identity ≡ some id)
            × IsRead id target.canonical_sha256
            × ((delete_exact host api account account_id target.canonical_sha256 o s).1.deleted
                ≡ id ∷ s.deleted))
  unfolding delete_exact OneDelete
  delete_target-OneDelete target s none e = inl refl
  delete_target-OneDelete target s (some id) e =
      named (delete_exact-OneDelete id target.canonical_sha256 s)
    where
      named :
          {end : List String}
          → (end ≡ s.deleted) ⊎ (IsRead id target.canonical_sha256 × (end ≡ id ∷ s.deleted))
          → (end ≡ s.deleted)
            ⊎ ((id : String) × (exact_id host api account account_id target target.identity
                  ≡ some id)
                × IsRead id target.canonical_sha256
                × (end ≡ id ∷ s.deleted))
      named (inl none_sent) = inl none_sent
      named (inr (p, one)) = inr (id, e, p, one)

  -- An attempt to delete sends no `DELETE`, or exactly one: for the message id of the target, which
  -- is one for this account, and only where a read of that id just before it returned no other id
  -- and bytes with the SHA-256 of the archived message.
  pub gmail_delete_once :
      (target : DeletionTarget) (s : Session W)
      → ((delete host api account account_id target s).1.deleted ≡ s.deleted)
        ⊎ ((id : String) × (exact_id host api account account_id target target.identity ≡ some id)
            × IsRead id target.canonical_sha256
            × ((delete host api account account_id target s).1.deleted ≡ id ∷ s.deleted))
  unfolding delete
  gmail_delete_once target s =
      delete_target-OneDelete target s (exact_id host api account account_id target target.identity)
        refl
