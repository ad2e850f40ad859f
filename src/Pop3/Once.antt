-- ===== src/Pop3/Once.antt =====
-- The commands that one attempt of `Pop3MutationAdapter.delete` in
-- src/mailarchive/pop3_mutation.py sends.
use mailarchive.Base.{
  ℕ, ◌+◌, ◌≤◌, ◌≡◌, refl, ap, ◌∙◌, [], ◌∷◌, Bool, true, false, Option, none, some, String, List,
  arith, ◌⊎◌, inl, inr, str_eq, eq_iff, Bool-cases,
}
use mailarchive.Base.Lists.{count, length}
use mailarchive.Host.{Host, Bytes}
use mailarchive.Models.{AccountConfig}
use mailarchive.Mutation.Target.{DeletionTarget}
use mailarchive.Pop3.{
  Reply, received, ambiguous, broken, Command, retrieved, deleted, quit, Wire, Session, secret_of,
  last_number, first_number, exact_uidl, log, abort, session, list, retrieve, observe_number,
  observe_listing, observe_session, observe_unlocked, confirm, commit_quit, delete_number,
  delete_bytes, delete_found, delete_listing, delete_session, delete_exact, delete,
}

-- The numbers of the `DELE` commands, newest first.
abbrev pub deletions : List Command → List ℕ
deletions [] = []
deletions (deleted number ∷ commands) = number ∷ deletions commands
deletions (_ ∷ commands) = deletions commands

abbrev pub is_quit : Command → Bool
is_quit quit = true
is_quit _ = false

abbrev pub deles : {W : Type 0} → Session W → List ℕ
deles s = deletions s.sent

abbrev pub quits : {W : Type 0} → Session W → ℕ
quits s = count is_quit s.sent

module _ {W : Type 0} (host : Host W) (wire : Wire W) (account : AccountConfig)
    (account_id : ℕ) where
  -- A part of the attempt that neither deletes nor commits.
  record Harmless (s s' : Session W) : Type 0 where
    no_dele : deles s' ≡ deles s
    no_quit : quits s' ≡ quits s

  harmless : (s : Session W) → Harmless s s
  harmless s = record { no_dele = refl; no_quit = refl }

  session-Harmless :
      (password : String) (s : Session W)
      → Harmless s (session host wire account account_id password s).1
  unfolding session log
  session-Harmless password s = elim (Bool-cases (wire.connect s.world).0) [
    | inl up ↦ rw up (record { no_dele = refl; no_quit = refl })
    | inr down ↦ rw down (record { no_dele = refl; no_quit = refl })
  ]

  observe_number-Harmless :
      (sha256 : String) (o : Option ℕ) (s : Session W)
      → Harmless s (observe_number host wire account account_id sha256 o s).1
  unfolding observe_number retrieve log
  observe_number-Harmless sha256 none s = harmless s
  observe_number-Harmless sha256 (some number) s = record { no_dele = refl; no_quit = refl }

  observe_listing-Harmless :
      (uidl sha256 : String) (r : Reply (List (ℕ × String))) (s : Session W)
      → Harmless s (observe_listing host wire account account_id uidl sha256 r s).1
  unfolding observe_listing
  observe_listing-Harmless uidl sha256 (received entries) s =
      observe_number-Harmless sha256 (last_number uidl entries) s
  observe_listing-Harmless uidl sha256 ambiguous s = harmless s
  observe_listing-Harmless uidl sha256 broken s = harmless s

  observe_session-Harmless :
      (uidl sha256 : String) (o : Bool × Session W) (s : Session W)
      → Harmless s o.1
      → Harmless s (observe_session host wire account account_id uidl sha256 o).1
  unfolding observe_session list abort log
  observe_session-Harmless uidl sha256 (false, s') s h = h
  observe_session-Harmless uidl sha256 (true, s') s h =
      let asked = list host wire account account_id s' in
      let seen = observe_listing-Harmless uidl sha256 asked.0 asked.1 in
      record {
        no_dele = seen.no_dele ∙ h.no_dele;
        no_quit = omega (arith, seen.no_quit, h.no_quit);
      }

  confirm-Harmless :
      (uidl sha256 password : String) (s : Session W)
      → Harmless s (confirm host wire account account_id uidl sha256 password s).1
  unfolding confirm observe_unlocked
  confirm-Harmless uidl sha256 password s =
      observe_session-Harmless uidl sha256 (session host wire account account_id password s) s
        (session-Harmless password s)

  -- The wire listed this UIDL under this number, and the bytes retrieved under it have this hash.
  record IsProven (uidl sha256 : String) (number : ℕ) : Type 0 where
    pub before_list : W
    pub entries : List (ℕ × String)
    pub listing : (wire.uidls before_list).0 ≡ received entries
    pub named : first_number uidl entries ≡ some number
    pub before_retr : W
    pub raw : Bytes
    pub bytes : (wire.retr number before_retr).0 ≡ received raw
    pub same_hash : host.sha256 raw ≡ sha256

  -- At most one `DELE`, with the proof for its number, and no `QUIT` without it.
  pub record IsOnce (proof : ℕ → Type 0) (s s' : Session W) : Type 0 where
    pub dele : (deles s' ≡ deles s) ⊎ ((number : ℕ) × proof number × (deles s' ≡ number ∷ deles s))
    pub quit : quits s' + length (deles s) ≤ quits s + length (deles s')

  Harmless-IsOnce : (proof : ℕ → Type 0) (s s' : Session W) → Harmless s s' → IsOnce proof s s'
  Harmless-IsOnce proof s s' h = record {
    dele = inl h.no_dele;
    quit = omega (arith, ap length h.no_dele, h.no_quit);
  }

  weaken-IsOnce :
      (proof weaker : ℕ → Type 0) (s s' : Session W)
      → ((number : ℕ) → proof number → weaker number)
      → IsOnce proof s s'
      → IsOnce weaker s s'
  weaken-IsOnce proof weaker s s' f o = record { dele = weaken o.dele; quit = o.quit }
    where
      weaken :
          (deles s' ≡ deles s) ⊎ ((number : ℕ) × proof number × (deles s' ≡ number ∷ deles s))
          → (deles s' ≡ deles s) ⊎ ((number : ℕ) × weaker number × (deles s' ≡ number ∷ deles s))
      weaken (inl none_sent) = inl none_sent
      weaken (inr (number, p, one)) = inr (number, f number p, one)

  after_Harmless :
      (start s sent end : Session W) {proof : ℕ → Type 0}
      → Harmless start s
      → deles sent ≡ deles s
      → quits sent ≡ quits s
      → IsOnce proof sent end
      → IsOnce proof start end
  after_Harmless start s sent end {proof} h d q o = record {
    dele = since o.dele;
    quit = omega (arith, o.quit, ap length d, q, ap length h.no_dele, h.no_quit);
  }
    where
      since :
          (deles end ≡ deles sent)
            ⊎ ((number : ℕ) × proof number × (deles end ≡ number ∷ deles sent))
          → (deles end ≡ deles start)
            ⊎ ((number : ℕ) × proof number × (deles end ≡ number ∷ deles start))
      since (inl none_sent) = inl (none_sent ∙ d ∙ h.no_dele)
      since (inr (number, p, one)) =
          inr (number, p, one ∙ ap (λ numbers. number ∷ numbers) (d ∙ h.no_dele))

  commit_quit-counts :
      (uidl sha256 password : String) (s : Session W)
      → (deles (commit_quit host wire account account_id uidl sha256 password s).1 ≡ deles s)
        × (quits (commit_quit host wire account account_id uidl sha256 password s).1 ≡ quits s + 1)
  unfolding commit_quit log abort
  commit_quit-counts uidl sha256 password s =
      let sent = log host wire account account_id quit (wire.quit_and_commit s.world).1 s in
      let h = confirm-Harmless uidl sha256 password sent in
      elim (Bool-cases (wire.quit_and_commit s.world).0) [
        | inl done ↦ rw done (h.no_dele, omega (arith, h.no_quit))
        | inr failed ↦ rw failed (h.no_dele, omega (arith, h.no_quit))
      ]

  delete_number-IsOnce :
      (uidl sha256 password : String) (number : ℕ) (s : Session W)
      → (proof : ℕ → Type 0) → proof number
      → IsOnce proof s (delete_number host wire account account_id uidl sha256 password number s).1
  unfolding delete_number log abort
  delete_number-IsOnce uidl sha256 password number s proof p =
      let sending =
        log host wire account account_id (deleted number) (wire.dele number s.world).1 s in
      let quitting = commit_quit-counts uidl sha256 password sending in
      let h = confirm-Harmless uidl sha256 password (abort host wire account account_id sending) in
      elim (Bool-cases (wire.dele number s.world).0) [
        | inl done ↦ rw done (record {
          dele = inr (number, p, quitting.0);
          quit = omega (arith, ap length quitting.0, quitting.1);
        })
        | inr failed ↦ rw failed (record {
          dele = inr (number, p, h.no_dele);
          quit = omega (arith, ap length h.no_dele, h.no_quit);
        })
      ]

  delete_found-IsOnce :
      (uidl sha256 password : String) (start s : Session W) (w : W) (entries : List (ℕ × String))
      → (wire.uidls w).0 ≡ received entries
      → Harmless start s
      → (o : Option ℕ) → first_number uidl entries ≡ o
      → IsOnce
          (IsProven uidl sha256)
          start
          (delete_found host wire account account_id uidl sha256 password o s).1
  unfolding delete_found delete_bytes retrieve log abort
  delete_found-IsOnce uidl sha256 password start s w entries e h none q =
      Harmless-IsOnce (IsProven uidl sha256) start _
        (record { no_dele = h.no_dele; no_quit = h.no_quit })
  delete_found-IsOnce uidl sha256 password start s w entries e h (some number) q =
      retrieved_cases (wire.retr number s.world).0 refl
    where
      retrieved_cases :
          (reply : Reply Bytes)
          → (wire.retr number s.world).0 ≡ reply
          → IsOnce
              (IsProven uidl sha256)
              start
              (delete_bytes host wire account account_id uidl sha256 password number reply (
                log host wire account account_id
                  (retrieved number)
                  (wire.retr number s.world).1
                  s)).1
      retrieved_cases ambiguous r =
          Harmless-IsOnce (IsProven uidl sha256) start _
            (record { no_dele = h.no_dele; no_quit = h.no_quit })
      retrieved_cases broken r =
          Harmless-IsOnce (IsProven uidl sha256) start _
            (record { no_dele = h.no_dele; no_quit = h.no_quit })
      retrieved_cases (received raw) r = elim (Bool-cases (str_eq (host.sha256 raw) sha256)) [
        | inl same ↦
            let sent =
              log host wire account account_id (retrieved number) (wire.retr number s.world).1 s in
            let once =
              delete_number-IsOnce uidl sha256 password number sent (IsProven uidl sha256) (record {
                before_list = w;
                entries = entries;
                listing = e;
                named = q;
                before_retr = s.world;
                raw = raw;
                bytes = r;
                same_hash = (eq_iff (host.sha256 raw) sha256).0 same;
              }) in
            rw same (after_Harmless start s sent _ h refl refl once)
        | inr other ↦ rw other (
            Harmless-IsOnce (IsProven uidl sha256) start _
              (record { no_dele = h.no_dele; no_quit = h.no_quit }))
      ]

  delete_listing-IsOnce :
      (uidl sha256 password : String) (start s : Session W) (w : W) (r : Reply (List (ℕ × String)))
      → (wire.uidls w).0 ≡ r
      → Harmless start s
      → IsOnce
          (IsProven uidl sha256)
          start
          (delete_listing host wire account account_id uidl sha256 password r s).1
  unfolding delete_listing log abort
  delete_listing-IsOnce uidl sha256 password start s w (received entries) e h =
      delete_found-IsOnce uidl sha256 password start s w entries e h (first_number uidl entries)
        refl
  delete_listing-IsOnce uidl sha256 password start s w ambiguous e h =
      Harmless-IsOnce (IsProven uidl sha256) start _
        (record { no_dele = h.no_dele; no_quit = h.no_quit })
  delete_listing-IsOnce uidl sha256 password start s w broken e h =
      Harmless-IsOnce (IsProven uidl sha256) start _
        (record { no_dele = h.no_dele; no_quit = h.no_quit })

  delete_session-IsOnce :
      (uidl sha256 password : String) (start : Session W) (o : Bool × Session W)
      → Harmless start o.1
      → IsOnce
          (IsProven uidl sha256)
          start
          (delete_session host wire account account_id uidl sha256 password o).1
  unfolding delete_session list log
  delete_session-IsOnce uidl sha256 password start (false, s) h =
      Harmless-IsOnce (IsProven uidl sha256) start s h
  delete_session-IsOnce uidl sha256 password start (true, s) h =
      delete_listing-IsOnce uidl sha256 password start _ s.world (wire.uidls s.world).0 refl
        (record { no_dele = h.no_dele; no_quit = h.no_quit })

  delete_exact-IsOnce :
      (uidl : String) (sha256 : String) (password : Option String) (s : Session W)
      → IsOnce
          (IsProven uidl sha256)
          s
          (delete_exact host wire account account_id sha256 (some uidl) password s).1
  unfolding delete_exact
  delete_exact-IsOnce uidl sha256 none s = Harmless-IsOnce (IsProven uidl sha256) s s (harmless s)
  delete_exact-IsOnce uidl sha256 (some password) s = elim (Bool-cases (wire.busy s.world)) [
    | inl held ↦ rw held (Harmless-IsOnce (IsProven uidl sha256) s s (harmless s))
    | inr free ↦ rw free (
        delete_session-IsOnce uidl sha256 password s
          (session host wire account account_id password s) (session-Harmless password s))
  ]

  -- What the one `DELE` of an attempt rests on: the target is one for this account.
  pub DeleteProof : DeletionTarget → ℕ → Type 0
  DeleteProof target number =
      (uidl : String) × (exact_uidl host wire account account_id target target.identity ≡ some uidl)
      × IsProven uidl target.canonical_sha256 number

  delete_target-IsOnce :
      (target : DeletionTarget) (password : Option String) (s : Session W) (o : Option String)
      → exact_uidl host wire account account_id target target.identity ≡ o
      → IsOnce
          (DeleteProof target)
          s
          (delete_exact host wire account account_id target.canonical_sha256 o password s).1
  unfolding delete_exact DeleteProof
  delete_target-IsOnce target password s none e =
      Harmless-IsOnce (DeleteProof target) s s (harmless s)
  delete_target-IsOnce target password s (some uidl) e =
      weaken-IsOnce _ _ s _ (λ number p. (uidl, e, p))
        (delete_exact-IsOnce uidl target.canonical_sha256 password s)

  -- An attempt to delete sends at most one `DELE`. It sends it only for a target of this account, and
  -- with a number under which the server had just listed the UIDL of the target, and under which it
  -- then returned bytes with the SHA-256 of the archived message. It sends no more `QUIT`, which
  -- commits, than `DELE`.
  pub pop3_delete-IsOnce :
      (target : DeletionTarget) (password : Option String) (s : Session W)
      → IsOnce (DeleteProof target) s (delete host wire account account_id target password s).1
  unfolding delete
  pop3_delete-IsOnce target password s =
      delete_target-IsOnce target (secret_of password) s
        (exact_uidl host wire account account_id target target.identity) refl
