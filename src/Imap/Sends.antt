-- ===== src/Imap/Sends.antt =====
-- Counting the commands that `ImapMutationAdapter` of src/mailarchive/imap_mutation.py sends.
use mailarchive.Base.{
  ℕ, ◌+◌, ◌≤◌, ◌≡◌, refl, ◌∙◌, ◌==◌, not, Bool, true, false, Option, none, some, arith,
}
use mailarchive.Base.Lists.{count}
use mailarchive.Imap.{Read, value, imap_error, other_error}
use mailarchive.Imap.Delete.{
  Command, stored, expunged, Session, Called, done, caught, escaped, ◌>>=◌, attempt, finally, log,
  answered, call, reading,
}

abbrev pub is_store : Command → Bool
is_store (stored uid) = true
is_store _ = false

abbrev pub is_expunge : Command → Bool
is_expunge (expunged uid) = true
is_expunge _ = false

abbrev pub stores : {W : Type 0} → Session W → ℕ
stores s = count is_store s.sent

abbrev pub expunges : {W : Type 0} → Session W → ℕ
expunges s = count is_expunge s.sent

-- A `STORE` or an `EXPUNGE` of another UID.
abbrev pub is_stray : ℕ → Command → Bool
is_stray uid (stored other) = not (other == uid)
is_stray uid (expunged other) = not (other == uid)
is_stray uid _ = false

abbrev pub strays : {W : Type 0} → ℕ → Session W → ℕ
strays uid s = count (is_stray uid) s.sent

abbrev pub final : {W A : Type 0} → Called W A → Session W
final (done a s) = s
final (caught s) = s
final (escaped s) = s

-- From one session to another, this many `STORE` and at most this many `EXPUNGE`, all of this UID.
pub record Sends {W : Type 0} (uid k n : ℕ) (s t : Session W) : Type 0 where
  pub stores_eq : stores t ≡ stores s + k
  pub expunges_ge : expunges s ≤ expunges t
  pub expunges_le : expunges t ≤ expunges s + n
  pub strays_eq : strays uid t ≡ strays uid s

module _ {W : Type 0} where
  pub silent : {uid : ℕ} (s : Session W) → Sends uid 0 0 s s
  silent s = record {
    stores_eq = omega arith;
    expunges_ge = omega arith;
    expunges_le = omega arith;
    strays_eq = refl;
  }

  pub later :
      {uid j m n : ℕ} {s t u : Session W}
      → Sends uid j m s t
      → Sends uid 0 n t u
      → Sends uid j (m + n) s u
  later first second = record {
    stores_eq = omega (arith, first.stores_eq, second.stores_eq);
    expunges_ge = omega (arith, first.expunges_ge, second.expunges_ge);
    expunges_le = omega (arith, first.expunges_le, second.expunges_le);
    strays_eq = second.strays_eq ∙ first.strays_eq;
  }

  pub before :
      {uid j m : ℕ} {s t u : Session W} → Sends uid 0 0 s t → Sends uid j m t u → Sends uid j m s u
  before first second = record {
    stores_eq = omega (arith, first.stores_eq, second.stores_eq);
    expunges_ge = omega (arith, first.expunges_ge, second.expunges_ge);
    expunges_le = omega (arith, first.expunges_le, second.expunges_le);
    strays_eq = second.strays_eq ∙ first.strays_eq;
  }

  pub more : {uid j m : ℕ} {s t : Session W} (n : ℕ) → Sends uid j m s t → Sends uid j (m + n) s t
  more n first = record {
    stores_eq = first.stores_eq;
    expunges_ge = first.expunges_ge;
    expunges_le = omega (arith, first.expunges_le);
    strays_eq = first.strays_eq;
  }

  pub after :
      {uid j m : ℕ} {s t u : Session W} → Sends uid j m s t → Sends uid 0 0 t u → Sends uid j m s u
  after first second = record {
    stores_eq = omega (arith, first.stores_eq, second.stores_eq);
    expunges_ge = omega (arith, first.expunges_ge, second.expunges_ge);
    expunges_le = omega (arith, first.expunges_le, second.expunges_le);
    strays_eq = second.strays_eq ∙ first.strays_eq;
  }

  pub >>=-Sends :
      {A B : Type 0} {uid j m n : ℕ} {s : Session W} (e : Called W A)
      (rest : A → Session W → Called W B)
      → Sends uid j m s (final e)
      → ((a : A) (t : Session W) → Sends uid 0 n t (final (rest a t)))
      → Sends uid j (m + n) s (final (e >>= rest))
  >>=-Sends (done a t) rest h r = later h (r a t)
  >>=-Sends {n = n} (caught t) rest h r = more n h
  >>=-Sends {n = n} (escaped t) rest h r = more n h

  pub attempt-Sends :
      {A B : Type 0} {uid j m n : ℕ} {s : Session W} (e : Called W A)
      (handler : Session W → Called W B) (rest : A → Session W → Called W B)
      → Sends uid j m s (final e)
      → ((t : Session W) → Sends uid 0 n t (final (handler t)))
      → ((a : A) (t : Session W) → Sends uid 0 n t (final (rest a t)))
      → Sends uid j (m + n) s (final (attempt e handler rest))
  attempt-Sends (done a t) handler rest h k r = later h (r a t)
  attempt-Sends (caught t) handler rest h k r = later h (k t)
  attempt-Sends {n = n} (escaped t) handler rest h k r = more n h

  pub finally-Sends :
      {A : Type 0} {uid j m : ℕ} {s : Session W} (e : Called W A) (last : Session W → Session W)
      → Sends uid j m s (final e)
      → ((t : Session W) → Sends uid 0 0 t (last t))
      → Sends uid j m s (final (finally e last))
  finally-Sends (done a t) last h r = after h (r t)
  finally-Sends (caught t) last h r = after h (r t)
  finally-Sends (escaped t) last h r = after h (r t)

  abbrev pub IsQuiet : ℕ → Session W → Session W → Type 0
  IsQuiet uid s t = Sends uid 0 0 s t

  pub >>=-IsQuiet :
      {A B : Type 0} {uid : ℕ} {s : Session W} (e : Called W A) (rest : A → Session W → Called W B)
      → IsQuiet uid s (final e)
      → ((a : A) (t : Session W) → IsQuiet uid t (final (rest a t)))
      → IsQuiet uid s (final (e >>= rest))
  >>=-IsQuiet e rest h r = >>=-Sends {m = 0} {n = 0} e rest h r

  pub attempt-IsQuiet :
      {A B : Type 0} {uid : ℕ} {s : Session W} (e : Called W A) (handler : Session W → Called W B)
      (rest : A → Session W → Called W B)
      → IsQuiet uid s (final e)
      → ((t : Session W) → IsQuiet uid t (final (handler t)))
      → ((a : A) (t : Session W) → IsQuiet uid t (final (rest a t)))
      → IsQuiet uid s (final (attempt e handler rest))
  attempt-IsQuiet e handler rest h k r = attempt-Sends {m = 0} {n = 0} e handler rest h k r

  pub elim-Sends :
      {A : Type 0} {uid j m : ℕ} {s : Session W} (b : Bool) (x y : Called W A)
      → Sends uid j m s (final x)
      → Sends uid j m s (final y)
      → Sends uid j m s (final (elim b [ false ↦ x | true ↦ y ]))
  elim-Sends false x y h k = h
  elim-Sends true x y h k = k

  answered-final : {A : Type 0} (o : Option A) (s : Session W) → final (answered o s) ≡ s
  unfolding answered
  answered-final none s = refl
  answered-final (some a) s = refl

  pub call-Sends :
      {A : Type 0} {uid j m : ℕ} (command : Command) (run : W → Option A × W) (s : Session W)
      → Sends uid j m s (log command (run s.world).1 s)
      → Sends uid j m s (final (call command run s))
  unfolding call
  call-Sends command run s h = rw (answered-final (run s.world).0 (log command (run s.world).1 s)) h

  pub reading-Sends :
      {A : Type 0} {uid : ℕ} (r : Read A) (s : Session W) → Sends uid 0 0 s (final (reading r s))
  unfolding reading
  reading-Sends (value a) s = silent s
  reading-Sends imap_error s = silent s
  reading-Sends other_error s = silent s

  -- A command that is neither `STORE` nor `EXPUNGE`.
  pub quiet :
      {uid : ℕ} {s t : Session W}
      → stores t ≡ stores s
      → expunges t ≡ expunges s
      → strays uid t ≡ strays uid s
      → Sends uid 0 0 s t
  quiet h k l = record {
    stores_eq = omega (arith, h);
    expunges_ge = omega (arith, k);
    expunges_le = omega (arith, k);
    strays_eq = l;
  }
