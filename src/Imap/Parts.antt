-- ===== src/Imap/Parts.antt =====
-- How many `STORE` and `EXPUNGE` the parts of `ImapMutationAdapter` in src/mailarchive/imap_mutation.py send.
use mailarchive.Base.{ℕ, refl, ==_self, Bool, true, false, String, arith}
use mailarchive.Base.Text.{codes}
use mailarchive.Host.{Host}
use mailarchive.Models.{AccountConfig}
use mailarchive.Mutation.Result.{MutationResult}
use mailarchive.Pop3.{unknown_outcome, success}
use mailarchive.Imap.Mailbox.{encode_mailbox_name}
use mailarchive.Imap.Response.{parse_uidvalidity, observation}
use mailarchive.Imap.Delete.{
  opened, logged_in, selected, fetched, stored, expunged, Clients, Session, done, caught, log, call,
  reading, Exact, same_namespace, fetch_observation, look, clean_or_unknown, logging_out, select,
  login, observe_fresh, observer, fresh, after_expunge, is_gone, confirm, expunge, store,
}
use mailarchive.Imap.Sends.{
  final, Sends, silent, quiet, more, attempt-Sends, finally-Sends, >>=-IsQuiet, attempt-IsQuiet,
  elim-Sends, call-Sends, reading-Sends,
}

module _ {W : Type 0} (host : Host W) (clients : Clients W) (account : AccountConfig)
    (account_id : ℕ) where
  abbrev Target : Type 0
  Target = Exact host clients account account_id

  pub same_namespace-Sends :
      (client : ℕ) (exact : Target) (s : Session W)
      → Sends exact.uid 0 0 s
          (final (same_namespace host clients account account_id client exact s))
  unfolding same_namespace
  same_namespace-Sends client exact s =
      let items = clients.uidvalidity client s.world in
      >>=-IsQuiet (reading (parse_uidvalidity items.0) (record s { world = items.1 })) _
        (asked_too (reading-Sends (parse_uidvalidity items.0) (record s { world = items.1 })))
        λ current t. silent t
    where
      asked_too :
          {world : W} {t : Session W}
          → Sends exact.uid 0 0 (record s { world = world }) t
          → Sends exact.uid 0 0 s t
      asked_too h = record {
        stores_eq = h.stores_eq;
        expunges_ge = h.expunges_ge;
        expunges_le = h.expunges_le;
        strays_eq = h.strays_eq;
      }

  pub fetch_observation-Sends :
      (client : ℕ) (exact : Target) (s : Session W)
      → Sends exact.uid 0 0 s
          (final (fetch_observation host clients account account_id client exact s))
  unfolding fetch_observation log
  fetch_observation-Sends client exact s =
      >>=-IsQuiet (call (fetched exact.uid) (clients.fetch client exact.uid) s) _
        (call-Sends (fetched exact.uid) (clients.fetch client exact.uid) s (quiet refl refl refl))
        λ answer t.
          elim-Sends answer.0 (caught t) (reading (observation exact.uid answer.1) t) (silent t)
            (reading-Sends (observation exact.uid answer.1) t)

  pub look-Sends :
      (client : ℕ) (absent : MutationResult) (exact : Target) (s : Session W)
      → Sends exact.uid 0 0 s (final (look host clients account account_id client absent exact s))
  unfolding look
  look-Sends client absent exact s =
      >>=-IsQuiet (same_namespace host clients account account_id client exact s) _
        (same_namespace-Sends client exact s)
        λ same t. elim-Sends same (done unknown_outcome t) _ (silent t) (
          >>=-IsQuiet (fetch_observation host clients account account_id client exact t) _
            (fetch_observation-Sends client exact t) (λ found u. silent u))

  clean_or_unknown-Sends :
      (exact : Target) (s : Session W)
      → Sends exact.uid 0 0 s (final (clean_or_unknown host clients account account_id exact s))
  unfolding clean_or_unknown
  clean_or_unknown-Sends exact s =
      attempt-IsQuiet (look host clients account account_id 0 unknown_outcome exact s)
        (done unknown_outcome) done (look-Sends 0 unknown_outcome exact s) silent (λ result. silent)

  pub logging_out-Sends :
      {uid : ℕ} (client : ℕ) (s : Session W)
      → Sends uid 0 0 s (logging_out host clients account account_id client s)
  unfolding logging_out log
  logging_out-Sends client s = quiet refl refl refl

  pub login-Sends :
      (client : ℕ) (password : String) (exact : Target) (s : Session W)
      → Sends exact.uid 0 0 s
          (final (login host clients account account_id client password exact s))
  unfolding login log
  login-Sends client password exact s = call-Sends logged_in _ s (quiet refl refl refl)

  pub select-Sends :
      (client : ℕ) (readonly : Bool) (exact : Target) (s : Session W)
      → Sends exact.uid 0 0 s
          (final (select host clients account account_id client readonly exact s))
  unfolding select log
  select-Sends client readonly exact s =
      >>=-IsQuiet (reading (encode_mailbox_name (codes exact.folder)) s) _
        (reading-Sends (encode_mailbox_name (codes exact.folder)) s)
        (λ mailbox t. call-Sends (selected readonly) _ t (quiet refl refl refl))

  observe_fresh-Sends :
      (password : String) (exact : Target) (s : Session W)
      → Sends exact.uid 0 0 s
          (final (observe_fresh host clients account account_id password exact s))
  unfolding observe_fresh
  observe_fresh-Sends password exact s =
      >>=-IsQuiet (login host clients account account_id 1 password exact s) _
        (login-Sends 1 password exact s)
        λ accepted t. elim-Sends accepted (done unknown_outcome t) _ (silent t) (
          >>=-IsQuiet (select host clients account account_id 1 true exact t) _
            (select-Sends 1 true exact t)
            λ readable u.
              elim-Sends readable (done unknown_outcome u) _ (silent u)
                (look-Sends 1 success exact u))

  observer-Sends :
      (password : String) (exact : Target) (s : Session W)
      → Sends exact.uid 0 0 s (final (observer host clients account account_id password exact s))
  unfolding observer log
  observer-Sends password exact s =
      >>=-IsQuiet (call opened (clients.connect 1) s) _
        (call-Sends opened (clients.connect 1) s (quiet refl refl refl))
        λ _ t.
          finally-Sends (observe_fresh host clients account account_id password exact t) _
            (observe_fresh-Sends password exact t) (logging_out-Sends 1)

  fresh-Sends :
      (password : String) (exact : Target) (s : Session W)
      → Sends exact.uid 0 0 s (final (fresh host clients account account_id password exact s))
  unfolding fresh
  fresh-Sends password exact s =
      attempt-IsQuiet (observer host clients account account_id password exact s)
        (done unknown_outcome) done (observer-Sends password exact s) silent (λ result. silent)

  after_expunge-Sends :
      (password : String) (exact : Target) (s : Session W)
      → Sends exact.uid 0 0 s
          (final (after_expunge host clients account account_id password exact s))
  unfolding after_expunge
  after_expunge-Sends password exact s =
      attempt-IsQuiet (look host clients account account_id 0 success exact s)
        (fresh host clients account account_id password exact) done (look-Sends 0 success exact s)
        (fresh-Sends password exact) (λ result. silent)

  is_gone-Sends :
      (exact : Target) (s : Session W)
      → Sends exact.uid 0 0 s (final (is_gone host clients account account_id exact s))
  unfolding is_gone
  is_gone-Sends exact s =
      >>=-IsQuiet (same_namespace host clients account account_id 0 exact s) _
        (same_namespace-Sends 0 exact s)
        λ same t. elim-Sends same (done false t) _ (silent t) (
          >>=-IsQuiet (fetch_observation host clients account account_id 0 exact t) _
            (fetch_observation-Sends 0 exact t) (λ found u. silent u))

  confirm-Sends :
      (password : String) (exact : Target) (s : Session W)
      → Sends exact.uid 0 0 s (final (confirm host clients account account_id password exact s))
  unfolding confirm
  confirm-Sends password exact s =
      attempt-IsQuiet (is_gone host clients account account_id exact s)
        (after_expunge host clients account account_id password exact) _ (is_gone-Sends exact s)
        (after_expunge-Sends password exact)
        λ gone t.
          elim-Sends gone (after_expunge host clients account account_id password exact t)
            (done success t) (after_expunge-Sends password exact t) (silent t)

  expunge-Sends :
      (password : String) (exact : Target) (s : Session W)
      → Sends exact.uid 0 1 s (final (expunge host clients account account_id password exact s))
  unfolding expunge log
  expunge-Sends password exact s =
      attempt-Sends {m = 1} {n = 0} (call (expunged exact.uid) (clients.expunge 0 exact.uid) s)
        (after_expunge host clients account account_id password exact) _
        (call-Sends (expunged exact.uid) (clients.expunge 0 exact.uid) s one)
        (after_expunge-Sends password exact)
        λ accepted t.
          elim-Sends accepted (after_expunge host clients account account_id password exact t)
            (confirm host clients account account_id password exact t)
            (after_expunge-Sends password exact t) (confirm-Sends password exact t)
    where
      one :
          Sends exact.uid 0 1 s (log (expunged exact.uid) (clients.expunge 0 exact.uid s.world).1 s)
      one = record {
        stores_eq = omega arith;
        expunges_ge = omega arith;
        expunges_le = omega arith;
        strays_eq = ground (arith, ==_self exact.uid);
      }

  -- From `STORE` on: one `STORE`, and at most one `EXPUNGE`.
  pub store-Sends :
      (password : String) (exact : Target) (s : Session W)
      → Sends exact.uid 1 1 s (final (store host clients account account_id password exact s))
  unfolding store log
  store-Sends password exact s =
      attempt-Sends {m = 0} {n = 1} (call (stored exact.uid) (clients.store 0 exact.uid) s)
        (clean_or_unknown host clients account account_id exact) _
        (call-Sends (stored exact.uid) (clients.store 0 exact.uid) s one)
        (λ t. more 1 (clean_or_unknown-Sends exact t))
        λ accepted t.
          elim-Sends accepted (clean_or_unknown host clients account account_id exact t)
            (expunge host clients account account_id password exact t)
            (more 1 (clean_or_unknown-Sends exact t)) (expunge-Sends password exact t)
    where
      one : Sends exact.uid 1 0 s (log (stored exact.uid) (clients.store 0 exact.uid s.world).1 s)
      one = record {
        stores_eq = omega arith;
        expunges_ge = omega arith;
        expunges_le = omega arith;
        strays_eq = ground (arith, ==_self exact.uid);
      }
