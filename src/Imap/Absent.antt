-- ===== src/Imap/Absent.antt =====
-- Where the parts of `ImapMutationAdapter` in src/mailarchive/imap_mutation.py from `STORE` on claim
-- that the message is absent.
use mailarchive.Base.{
  ℕ, ◌≡◌, refl, ap, ◌∙◌, Bool, true, false, Option, none, some, is_none, String, ◌⊎◌, inl, inr,
  if◌then◌else◌,
}
use mailarchive.Host.{Host}
use mailarchive.Models.{AccountConfig}
use mailarchive.Mutation.Result.{MutationResult}
use mailarchive.Pop3.{failure, unknown_outcome, success}
use mailarchive.Imap.Response.{Observed}
use mailarchive.Imap.Delete.{
  opened, stored, expunged, Clients, Session, Called, done, caught, escaped, ◌>>=◌, attempt,
  finally, call, Exact, same_namespace, fetch_observation, is_match, observed_result, look,
  clean_or_unknown, select, login, observe_fresh, observer, fresh, after_expunge, is_gone, confirm,
  expunge, store,
}
use mailarchive.Imap.Once.{bound}

module _ {W : Type 0} (host : Host W) (clients : Clients W) (account : AccountConfig)
    (account_id : ℕ) where
  abbrev Target : Type 0
  Target = Exact host clients account account_id

  -- A read of the target's UID, right after its UIDVALIDITY was confirmed, that found no message.
  pub record IsAbsent (exact : Target) : Type 0 where
    pub client : ℕ
    pub asked_at : Session W
    pub named_at : Session W
    pub read_at : Session W
    pub named :
        same_namespace host clients account account_id client exact asked_at ≡ done true named_at
    pub gone :
        fetch_observation host clients account account_id client exact named_at ≡ done none read_at

  -- A result that claims absence only where it was observed.
  abbrev pub IsTrue : Target → MutationResult → Type 0
  IsTrue exact result = (result.confirmed_absent ≡ false) ⊎ IsAbsent exact

  abbrev pub Honest : Target → Called W MutationResult → Type 0
  Honest exact (done result s) = IsTrue exact result
  Honest exact (caught s) = Unit
  Honest exact (escaped s) = Unit

  pub attempt-Honest :
      {A : Type 0} (exact : Target) (e : Called W A) (handler : Session W → Called W MutationResult)
      (rest : A → Session W → Called W MutationResult)
      → ((s : Session W) → Honest exact (handler s))
      → ((a : A) (s : Session W) → e ≡ done a s → Honest exact (rest a s))
      → Honest exact (attempt e handler rest)
  attempt-Honest exact (done a s) handler rest h r = r a s refl
  attempt-Honest exact (caught s) handler rest h r = h s
  attempt-Honest exact (escaped s) handler rest h r = tt

  pub >>=-Honest :
      {A : Type 0} (exact : Target) (e : Called W A)
      (rest : A → Session W → Called W MutationResult)
      → ((a : A) (s : Session W) → e ≡ done a s → Honest exact (rest a s))
      → Honest exact (e >>= rest)
  >>=-Honest exact (done a s) rest r = r a s refl
  >>=-Honest exact (caught s) rest r = tt
  >>=-Honest exact (escaped s) rest r = tt

  pub retry-Honest :
      (exact : Target) (e : Called W MutationResult) (handler : Session W → Called W MutationResult)
      → Honest exact e
      → ((s : Session W) → Honest exact (handler s))
      → Honest exact (attempt e handler done)
  retry-Honest exact (done result s) handler h k = h
  retry-Honest exact (caught s) handler h k = k s
  retry-Honest exact (escaped s) handler h k = tt

  pub finally-Honest :
      (exact : Target) (e : Called W MutationResult) (last : Session W → Session W)
      → Honest exact e
      → Honest exact (finally e last)
  finally-Honest exact (done result s) last h = h
  finally-Honest exact (caught s) last h = tt
  finally-Honest exact (escaped s) last h = tt

  pub elim-Honest :
      (exact : Target) (b : Bool) (x y : Called W MutationResult)
      → Honest exact x
      → Honest exact y
      → Honest exact (elim b [ false ↦ x | true ↦ y ])
  elim-Honest exact false x y h k = h
  elim-Honest exact true x y h k = k

  observed_result-IsTrue :
      (exact : Target) (absent : MutationResult) (found : Option Observed)
      → (found ≡ none → IsTrue exact absent)
      → IsTrue exact (observed_result host clients account account_id absent exact found)
  unfolding observed_result
  observed_result-IsTrue exact absent none h = h refl
  observed_result-IsTrue exact absent (some observed) h =
      inl (unconfirmed (is_match host clients account account_id exact observed))
    where
      unconfirmed :
          (b : Bool)
          → (if b then failure "PROVIDER_REJECTED" else unknown_outcome).confirmed_absent ≡ false
      unconfirmed true = refl
      unconfirmed false = refl

  look-Honest :
      (client : ℕ) (absent : MutationResult) (exact : Target) (s : Session W)
      → Honest exact (look host clients account account_id client absent exact s)
  unfolding look
  look-Honest client absent exact s =
      >>=-Honest exact (same_namespace host clients account account_id client exact s) _ named_then
    where
      named_then :
          (same : Bool) (t : Session W)
          → same_namespace host clients account account_id client exact s ≡ done same t
          → Honest exact (elim same [
            | false ↦ done unknown_outcome t
            | true ↦ fetch_observation host clients account account_id client exact t >>= λ found u.
                done (observed_result host clients account account_id absent exact found) u
          ])
      named_then false t e = inl refl
      named_then true t e =
          >>=-Honest exact (fetch_observation host clients account account_id client exact t) _
            λ found u f. observed_result-IsTrue exact absent found λ gone. inr (record {
              client = client;
              asked_at = s;
              named_at = t;
              read_at = u;
              named = e;
              gone = f ∙ ap (λ o. done o u) gone;
            })

  clean_or_unknown-Honest :
      (exact : Target) (s : Session W)
      → Honest exact (clean_or_unknown host clients account account_id exact s)
  unfolding clean_or_unknown
  clean_or_unknown-Honest exact s =
      retry-Honest exact (look host clients account account_id 0 unknown_outcome exact s)
        (done unknown_outcome) (look-Honest 0 unknown_outcome exact s) (λ t. inl refl)

  observe_fresh-Honest :
      (password : String) (exact : Target) (s : Session W)
      → Honest exact (observe_fresh host clients account account_id password exact s)
  unfolding observe_fresh
  observe_fresh-Honest password exact s =
      >>=-Honest exact (login host clients account account_id 1 password exact s) _ λ accepted t _.
        elim-Honest exact accepted (done unknown_outcome t) _ (inl refl) (
          >>=-Honest exact (select host clients account account_id 1 true exact t) _ λ readable u _.
            elim-Honest exact readable (done unknown_outcome u) _ (inl refl)
              (look-Honest 1 success exact u))

  fresh-Honest :
      (password : String) (exact : Target) (s : Session W)
      → Honest exact (fresh host clients account account_id password exact s)
  unfolding fresh observer
  fresh-Honest password exact s =
      retry-Honest exact (observer host clients account account_id password exact s)
        (done unknown_outcome)
        (>>=-Honest exact (call opened (clients.connect 1) s) _ λ _ t _.
          finally-Honest exact (observe_fresh host clients account account_id password exact t) _
            (observe_fresh-Honest password exact t))
        (λ t. inl refl)

  after_expunge-Honest :
      (password : String) (exact : Target) (s : Session W)
      → Honest exact (after_expunge host clients account account_id password exact s)
  unfolding after_expunge
  after_expunge-Honest password exact s =
      retry-Honest exact (look host clients account account_id 0 success exact s)
        (fresh host clients account account_id password exact) (look-Honest 0 success exact s)
        (fresh-Honest password exact)

  pub IsAbsent-when :
      (exact : Target) (client : ℕ) (s t u : Session W)
      → same_namespace host clients account account_id client exact s ≡ done true t
      → fetch_observation host clients account account_id client exact t ≡ done none u
      → IsAbsent exact
  IsAbsent-when exact client s t u e f = record {
    client = client;
    asked_at = s;
    named_at = t;
    read_at = u;
    named = e;
    gone = f;
  }

  is_gone-IsAbsent :
      (exact : Target) (s u : Session W)
      → is_gone host clients account account_id exact s ≡ done true u
      → IsAbsent exact
  unfolding is_gone
  is_gone-IsAbsent exact s u h =
      let (same, t, e, k) = bound (same_namespace host clients account account_id 0 exact s) _ h in
      named_then same t e k
    where
      found_then :
          (t v : Session W) (found : Option Observed)
          → same_namespace host clients account account_id 0 exact s ≡ done true t
          → fetch_observation host clients account account_id 0 exact t ≡ done found v
          → ◌≡◌ {A = Called W Bool} (done (is_none found) v) (done true u)
          → IsAbsent exact
      found_then t v none e f k = IsAbsent-when exact 0 s t v e f
      found_then t v (some observed) e f k = cc k

      named_then :
          (same : Bool) (t : Session W)
          → same_namespace host clients account account_id 0 exact s ≡ done same t
          → ◌≡◌ {A = Called W Bool}
              (elim same [
                | false ↦ done false t
                | true ↦ fetch_observation host clients account account_id 0 exact t >>= λ found v.
                    done (is_none found) v
              ])
              (done true u)
          → IsAbsent exact
      named_then false t e k = cc k
      named_then true t e k =
          let (found, v, f, l) =
            bound (fetch_observation host clients account account_id 0 exact t) _ k in
          found_then t v found e f l

  confirm-Honest :
      (password : String) (exact : Target) (s : Session W)
      → Honest exact (confirm host clients account account_id password exact s)
  unfolding confirm
  confirm-Honest password exact s =
      attempt-Honest exact (is_gone host clients account account_id exact s)
        (after_expunge host clients account account_id password exact) _
        (after_expunge-Honest password exact) gone_then
    where
      gone_then :
          (gone : Bool) (t : Session W)
          → is_gone host clients account account_id exact s ≡ done gone t
          → Honest exact (elim gone [
            | true ↦ done success t
            | false ↦ after_expunge host clients account account_id password exact t
          ])
      gone_then true t e = inr (is_gone-IsAbsent exact s t e)
      gone_then false t e = after_expunge-Honest password exact t

  expunge-Honest :
      (password : String) (exact : Target) (s : Session W)
      → Honest exact (expunge host clients account account_id password exact s)
  unfolding expunge
  expunge-Honest password exact s =
      attempt-Honest exact (call (expunged exact.uid) (clients.expunge 0 exact.uid) s)
        (after_expunge host clients account account_id password exact) _
        (after_expunge-Honest password exact)
        λ accepted t _.
          elim-Honest exact accepted
            (after_expunge host clients account account_id password exact t)
            (confirm host clients account account_id password exact t)
            (after_expunge-Honest password exact t) (confirm-Honest password exact t)

  pub store-Honest :
      (password : String) (exact : Target) (s : Session W)
      → Honest exact (store host clients account account_id password exact s)
  unfolding store
  store-Honest password exact s =
      attempt-Honest exact (call (stored exact.uid) (clients.store 0 exact.uid) s)
        (clean_or_unknown host clients account account_id exact) _ (clean_or_unknown-Honest exact)
        λ accepted t _.
          elim-Honest exact accepted (clean_or_unknown host clients account account_id exact t)
            (expunge host clients account account_id password exact t)
            (clean_or_unknown-Honest exact t) (expunge-Honest password exact t)
