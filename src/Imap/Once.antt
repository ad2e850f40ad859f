-- ===== src/Imap/Once.antt =====
-- The commands that one attempt of `ImapMutationAdapter.delete` in
-- src/mailarchive/imap_mutation.py sends.
use mailarchive.Base.{
  ℕ, ◌≡◌, refl, ap, ◌∙◌, Bool, true, false, Option, none, some, String, List, ◌∷◌, arith, ◌⊎◌, inl,
  inr, str_eq,
}
use mailarchive.Host.{Host}
use mailarchive.Models.{AccountConfig}
use mailarchive.Mutation.Target.{DeletionTarget}
use mailarchive.Mutation.Result.{MutationResult}
use mailarchive.Pop3.{secret_of, failure}
use mailarchive.Imap.{Item}
use mailarchive.Imap.Response.{capabilities, Observed}
use mailarchive.Imap.Delete.{
  opened, asked, unselected, Clients, Session, Called, done, caught, escaped, ◌>>=◌, attempt,
  finally, log, call, reading, Exact, valid, same_namespace, fetch_observation, login, select,
  logging_out, store,
}
use mailarchive.Imap.Attempt.{
  supported, check_observed, check_selected, check_capable, check_accepted, check, delete_open,
  closing, closing_on, delete_connected, delete_locked, delete_exact, delete,
}
use mailarchive.Imap.Sends.{
  final, Sends, stores, expunges, before, after, silent, quiet, >>=-IsQuiet, attempt-IsQuiet,
  elim-Sends, call-Sends, reading-Sends,
}
use mailarchive.Imap.Parts.{
  same_namespace-Sends, fetch_observation-Sends, logging_out-Sends, login-Sends, select-Sends,
  store-Sends,
}

module _ {W : Type 0} where
  pub bound :
      {A B : Type 0} (e : Called W A) (rest : A → Session W → Called W B) {b : B} {u : Session W}
      → (e >>= rest) ≡ done b u
      → (a : A) × (t : Session W) × (e ≡ done a t) × (rest a t ≡ done b u)
  bound (done a t) rest h = (a, t, refl, h)
  bound (caught t) rest h = cc h
  bound (escaped t) rest h = cc h

  -- A test that passed, where a test that fails returns early.
  passed :
      {A : Type 0} (b : Bool) (result : A) (s : Session W) (next : Called W (Option A))
      {u : Session W}
      → ◌≡◌ {A = Called W (Option A)}
          (elim b [ false ↦ done (some result) s | true ↦ next ])
          (done none u)
      → (b ≡ true) × (next ≡ done none u)
  passed true result s next h = (refl, h)
  passed false result s next h = cc h

  attempted :
      {A B : Type 0} (e : Called W A) (result : B) (rest : A → Session W → Called W (Option B))
      {u : Session W}
      → ◌≡◌ {A = Called W (Option B)} (attempt e (done (some result)) rest) (done none u)
      → (a : A) × (t : Session W) × (e ≡ done a t) × (rest a t ≡ done none u)
  attempted (done a t) result rest h = (a, t, refl, h)
  attempted (caught t) result rest h = cc h
  attempted (escaped t) result rest h = cc h

  at_value :
      {A : Type 0} {e : Called W A} {a b : A} {s : Session W} → e ≡ done a s → a ≡ b → e ≡ done b s
  at_value {s = s} h k = h ∙ ap (λ x. done x s) k

  none_of :
      {A : Type 0} (o : Option A) (s u : Session W)
      → ◌≡◌ {A = Called W (Option A)} (done o s) (done none u)
      → o ≡ none
  none_of o s u h = cc h

module _ {W : Type 0} (host : Host W) (clients : Clients W) (account : AccountConfig)
    (account_id : ℕ) where
  abbrev Target : Type 0
  Target = Exact host clients account account_id

  -- What was read from the server just before the message is marked: a server with UIDPLUS, the
  -- UIDVALIDITY of the target, and a message under its UID that has its bytes and no `\Deleted`.
  pub record IsProven (exact : Target) : Type 0 where
    pub answer : Bool × List Item
    pub asking_at : Session W
    pub asked_at : Session W
    pub capable_at : Session W
    pub read_at : Session W
    pub named_at : Session W
    pub fetched_at : Session W
    pub observed : Observed
    pub told : call asked (clients.capability 0) asking_at ≡ done answer asked_at
    pub capable : supported host clients account account_id answer asked_at ≡ done true capable_at
    pub named : same_namespace host clients account account_id 0 exact read_at ≡ done true named_at
    pub fetched :
        fetch_observation host clients account account_id 0 exact named_at
        ≡ done (some observed) fetched_at
    pub same_bytes : str_eq (host.sha256 observed.raw) exact.sha256 ≡ true
    pub unmarked : observed.deleted ≡ false

  check_observed-none :
      (exact : Target) (found : Option Observed)
      → check_observed host clients account account_id exact found ≡ none
      → (observed : Observed) × (found ≡ some observed)
        × (str_eq (host.sha256 observed.raw) exact.sha256 ≡ true)
        × (observed.deleted ≡ false)
  unfolding check_observed
  check_observed-none exact none h = cc h
  check_observed-none exact (some observed) h = (observed, refl, ground arith, ground arith)

  check-IsProven :
      (password : String) (exact : Target) (s u : Session W)
      → check host clients account account_id password exact s ≡ done none u
      → IsProven exact
  unfolding check check_accepted check_capable check_selected
  check-IsProven password exact s u h =
      let (accepted, s1, e1, h) =
        bound (login host clients account account_id 0 password exact s) _ h in
      let (f1, h) = passed accepted _ _ _ h in
      let (answer, s2, e2, h) = bound (call asked (clients.capability 0) s1) _ h in
      let (capable, s3, e3, h) = bound (supported host clients account account_id answer s2) _ h in
      let (f3, h) = passed capable _ _ _ h in
      let (writable, s4, e4, h) =
        bound (select host clients account account_id 0 false exact s3) _ h in
      let (f4, h) = passed writable _ _ _ h in
      let (same, s5, e5, h) =
        bound (same_namespace host clients account account_id 0 exact s4) _ h in
      let (f5, h) = passed same _ _ _ h in
      let (found, s6, e6, h) =
        attempted (fetch_observation host clients account account_id 0 exact s5) _ _ h in
      let (observed, f6, bytes, clean) =
        check_observed-none exact found
          (none_of (check_observed host clients account account_id exact found) s6 u h) in
      record {
        answer = answer;
        asking_at = s1;
        asked_at = s2;
        capable_at = s3;
        read_at = s4;
        named_at = s5;
        fetched_at = s6;
        observed = observed;
        told = e2;
        capable = at_value e3 f3;
        named = at_value e5 f5;
        fetched = at_value e6 f6;
        same_bytes = bytes;
        unmarked = clean;
      }

  supported-Sends :
      {uid : ℕ} (answer : Bool × List Item) (s : Session W)
      → Sends uid 0 0 s (final (supported host clients account account_id answer s))
  unfolding supported
  supported-Sends (false, items) s = silent s
  supported-Sends (true, items) s =
      >>=-IsQuiet (reading (capabilities items) s) _ (reading-Sends (capabilities items) s)
        (λ tokens t. silent t)

  check_selected-Sends :
      (exact : Target) (s : Session W)
      → Sends exact.uid 0 0 s (final (check_selected host clients account account_id exact s))
  unfolding check_selected
  check_selected-Sends exact s =
      >>=-IsQuiet (same_namespace host clients account account_id 0 exact s) _
        (same_namespace-Sends host clients account account_id 0 exact s)
        λ same t. elim-Sends same (done (some (failure "IDENTITY_MISMATCH")) t) _ (silent t) (
          attempt-IsQuiet (fetch_observation host clients account account_id 0 exact t) _ _
            (fetch_observation-Sends host clients account account_id 0 exact t) silent
            (λ found u. silent u))

  check_capable-Sends :
      (exact : Target) (s : Session W)
      → Sends exact.uid 0 0 s (final (check_capable host clients account account_id exact s))
  unfolding check_capable
  check_capable-Sends exact s =
      >>=-IsQuiet (select host clients account account_id 0 false exact s) _
        (select-Sends host clients account account_id 0 false exact s)
        λ writable t.
          elim-Sends writable (done (some (failure "PROVIDER_REJECTED")) t) _ (silent t)
            (check_selected-Sends exact t)

  check_accepted-Sends :
      (exact : Target) (s : Session W)
      → Sends exact.uid 0 0 s (final (check_accepted host clients account account_id exact s))
  unfolding check_accepted log
  check_accepted-Sends exact s =
      >>=-IsQuiet (call asked (clients.capability 0) s) _
        (call-Sends asked (clients.capability 0) s (quiet refl refl refl))
        λ answer t.
          >>=-IsQuiet (supported host clients account account_id answer t) _
            (supported-Sends answer t)
            λ capable u.
              elim-Sends capable (done (some (failure "SAFE_DELETE_UNSUPPORTED")) u) _ (silent u)
                (check_capable-Sends exact u)

  check-Sends :
      (password : String) (exact : Target) (s : Session W)
      → Sends exact.uid 0 0 s (final (check host clients account account_id password exact s))
  unfolding check
  check-Sends password exact s =
      >>=-IsQuiet (login host clients account account_id 0 password exact s) _
        (login-Sends host clients account account_id 0 password exact s)
        λ accepted t.
          elim-Sends accepted (done (some (failure "PROVIDER_REJECTED")) t) _ (silent t)
            (check_accepted-Sends exact t)

  -- Nothing that deletes; or one `STORE` and at most one `EXPUNGE`, for a proven message.
  pub data Ends (exact : Target) (s t : Session W) : Type 0 where
    untouched : Sends exact.uid 0 0 s t → Ends exact s t
    marked : Sends exact.uid 1 1 s t → IsProven exact → Ends exact s t

  open-Ends :
      (password : String) (exact : Target) (s : Session W) (c : Called W (Option MutationResult))
      → Sends exact.uid 0 0 s (final c)
      → ((u : Session W) → c ≡ done none u → IsProven exact)
      → Ends exact s (
          final (
            c >>= λ early t. elim early [
              | some result ↦ done result t
              | none ↦ store host clients account account_id password exact t
            ]))
  open-Ends password exact s (done (some result) t) h proven = untouched h
  open-Ends password exact s (done none t) h proven =
      marked (before h (store-Sends host clients account account_id password exact t))
        (proven t refl)
  open-Ends password exact s (caught t) h proven = untouched h
  open-Ends password exact s (escaped t) h proven = untouched h

  delete_open-Ends :
      (password : String) (exact : Target) (s : Session W)
      → Ends exact s (final (delete_open host clients account account_id password exact s))
  unfolding delete_open
  delete_open-Ends password exact s =
      open-Ends password exact s (check host clients account account_id password exact s)
        (check-Sends password exact s) (check-IsProven password exact s)

  unselected-Sends :
      {uid : ℕ} (fine : Bool) (world : W) (s : Session W)
      → Sends uid 0 0 s (elim fine [
        | true ↦ logging_out host clients account account_id 0 (log unselected world s)
        | false ↦ log unselected world s
      ])
  unfolding log
  unselected-Sends true world s = before (quiet refl refl refl) (
      logging_out-Sends host clients account account_id 0
        (record { world = world; sent = unselected ∷ s.sent }))
  unselected-Sends false world s = quiet refl refl refl

  closing_on-Sends :
      {uid : ℕ} (way : Option (ℕ → W → Bool × W)) (s : Session W)
      → Sends uid 0 0 s (closing_on host clients account account_id way s)
  unfolding closing_on
  closing_on-Sends none s = logging_out-Sends host clients account account_id 0 s
  closing_on-Sends (some unselect) s =
      unselected-Sends (unselect 0 s.world).0 (unselect 0 s.world).1 s

  closing-Sends :
      {uid : ℕ} (s : Session W) → Sends uid 0 0 s (closing host clients account account_id s)
  unfolding closing
  closing-Sends s = closing_on-Sends clients.unselect s

  quietly :
      {exact : Target} {s t u v : Session W}
      → Sends exact.uid 0 0 s t
      → Ends exact t u
      → Sends exact.uid 0 0 u v
      → Ends exact s v
  quietly h (untouched k) l = untouched (before h (before k l))
  quietly h (marked k proven) l = marked (before h (after k l)) proven

  final-finally :
      {A : Type 0} (e : Called W A) (last : Session W → Session W)
      → final (finally e last) ≡ last (final e)
  final-finally (done a t) last = refl
  final-finally (caught t) last = refl
  final-finally (escaped t) last = refl

  connected-Ends :
      {A : Type 0} (exact : Target) (s : Session W) (c : Called W A)
      (rest : A → Session W → Called W MutationResult)
      → Sends exact.uid 0 0 s (final c)
      → ((a : A) (t : Session W) → Ends exact t (final (rest a t)))
      → Ends exact s
          (final (c >>= λ a t. finally (rest a t) (closing host clients account account_id)))
  connected-Ends exact s (done a t) rest h k =
      rw (final-finally (rest a t) (closing host clients account account_id))
        (quietly h (k a t) (closing-Sends (final (rest a t))))
  connected-Ends exact s (caught t) rest h k = untouched h
  connected-Ends exact s (escaped t) rest h k = untouched h

  delete_connected-Ends :
      (password : String) (exact : Target) (s : Session W)
      → Ends exact s (final (delete_connected host clients account account_id password exact s))
  unfolding delete_connected log
  delete_connected-Ends password exact s =
      connected-Ends exact s (call opened (clients.connect 0) s) _
        (call-Sends opened (clients.connect 0) s (quiet refl refl refl))
        (λ _ t. delete_open-Ends password exact t)

  final-attempt :
      (e : Called W MutationResult) (result : MutationResult)
      → final (attempt e (done result) done) ≡ final e
  final-attempt (done a t) result = refl
  final-attempt (caught t) result = refl
  final-attempt (escaped t) result = refl

  locked-Ends :
      (password : String) (exact : Target) (s : Session W)
      → Ends exact s (final (delete_locked host clients account account_id password exact s))
  unfolding delete_locked
  locked-Ends password exact s =
      rw
        (final-attempt (delete_connected host clients account account_id password exact s)
          (failure "PROVIDER_REJECTED"))
        (delete_connected-Ends password exact s)

  busy-Ends :
      (busy : Bool) (result : MutationResult) (exact : Target) (s : Session W)
      (c : Called W MutationResult)
      → Ends exact s (final c)
      → Ends exact s (final (elim busy [ true ↦ done result s | false ↦ c ]))
  busy-Ends true result exact s c h = untouched (silent s)
  busy-Ends false result exact s c h = h

  -- Neither a `STORE` nor an `EXPUNGE` was sent.
  abbrev pub IsUnsent : Session W → Session W → Type 0
  IsUnsent s t = (stores t ≡ stores s) × (expunges t ≡ expunges s)

  unsent : {uid : ℕ} {s t : Session W} → Sends uid 0 0 s t → IsUnsent s t
  unsent h = (omega (arith, h.stores_eq), omega (arith, h.expunges_ge, h.expunges_le))

  split-Ends :
      (o : Option Target) (exact : Target) (s t : Session W)
      → o ≡ some exact
      → Ends exact s t
      → IsUnsent s t ⊎ ((e : Target) × (o ≡ some e) × Sends e.uid 1 1 s t × IsProven e)
  split-Ends o exact s t h (untouched k) = inl (unsent k)
  split-Ends o exact s t h (marked k proven) = inr (exact, h, k, proven)

  exact-Ends :
      (o : Option Target) (password : Option String) (s : Session W)
      → let t = final (delete_exact host clients account account_id o password s) in
        IsUnsent s t ⊎ ((e : Target) × (o ≡ some e) × Sends e.uid 1 1 s t × IsProven e)
  unfolding delete_exact
  exact-Ends none password s = inl (refl, refl)
  exact-Ends (some exact) none s = inl (refl, refl)
  exact-Ends (some exact) (some password) s = split-Ends (some exact) exact s _ refl (
      busy-Ends (clients.busy exact.folder s.world) (failure "PROVIDER_REJECTED") exact s
        (delete_locked host clients account account_id password exact s)
        (locked-Ends password exact s))

  -- An attempt to delete sends no `STORE` and no `EXPUNGE`; or exactly one `STORE` and at most one
  -- `EXPUNGE`, both of the UID of the target, and only for a target that is valid for this account,
  -- where `IsProven` holds of what the server had answered before: that it has UIDPLUS, that the
  -- UIDVALIDITY is the target's, and that under its UID is a message with its bytes and without
  -- `\Deleted`.
  pub imap_delete-IsOnce :
      (target : DeletionTarget) (password : Option String) (s : Session W)
      → IsUnsent s (final (delete host clients account account_id target password s))
        ⊎ ((exact : Target) × (valid host clients account account_id target ≡ some exact)
            × Sends exact.uid 1 1 s
                (final (delete host clients account account_id target password s))
            × IsProven exact)
  unfolding delete
  imap_delete-IsOnce target password s =
      exact-Ends (valid host clients account account_id target) (secret_of password) s
