-- ===== src/Pop3/Commands.antt =====
-- The commands that the acquisition over POP3 in src/mailarchive/pop3.py has sent, while it reads.
use mailarchive.Base.{
  ℕ, zero, suc, ◌≡◌, Bool, true, false, Option, none, some, List, [], ◌∷◌, ◌++◌, ◌==◌, ◌||◌,
  if◌then◌else◌,
}
use mailarchive.Base.Lists.{All, any}
use mailarchive.Host.{Bytes}
use mailarchive.Pop3.Octets.{crlf, split_crlf, is_empty, bytes_eq, starts_with, first_word}
use mailarchive.Pop3.Connection.{
  Arrival, chunk, interrupted, Connection, Exchange, got, failed, ◌>>=◌, connected, receive,
  receive_on, read_until, positive_line, wire_line, unstuffed, collect, Sockets,
}
use mailarchive.Pop3.Acquire.{dele_word}

abbrev pub final : {A : Type 0} → Exchange A → Connection
final (got a c) = c
final (failed fault c) = c

module _ (net : Sockets) where
  -- What was sent is one line, closed by CR LF, whose first word, in capital letters, is not `DELE`.
  abbrev pub IsHarmless : Bytes → Type 0
  IsHarmless sent =
      (line : Bytes) × (sent ≡ line ++ crlf)
      × ((any (λ x. x == 13) line || any (λ x. x == 10) line) ≡ false)
      × (bytes_eq (net.upper (first_word line)) dele_word ≡ false)

  -- No command that was recorded is `DELE`, and nothing that was given to `sendall` is.
  abbrev pub IsReadOnly : Connection → Type 0
  IsReadOnly c = All (λ word. bytes_eq word dele_word ≡ false) c.commands × All IsHarmless c.written

  pub >>=-IsReadOnly :
      {A B : Type 0} (e : Exchange A) (rest : A → Connection → Exchange B)
      → IsReadOnly (final e)
      → ((a : A) (c : Connection) → IsReadOnly c → IsReadOnly (final (rest a c)))
      → IsReadOnly (final (e >>= rest))
  >>=-IsReadOnly (got a c) rest h r = r a c h
  >>=-IsReadOnly (failed fault c) rest h r = h

  pub elim-IsReadOnly :
      {A : Type 0} (b : Bool) (x y : Exchange A)
      → IsReadOnly (final x)
      → IsReadOnly (final y)
      → IsReadOnly (final (elim b [ true ↦ x | false ↦ y ]))
  elim-IsReadOnly true x y h k = h
  elim-IsReadOnly false x y h k = k

  pub if-IsReadOnly :
      {A : Type 0} (b : Bool) (x y : Exchange A)
      → IsReadOnly (final x)
      → IsReadOnly (final y)
      → IsReadOnly (final (if b then x else y))
  if-IsReadOnly true x y h k = h
  if-IsReadOnly false x y h k = k

  found-IsReadOnly :
      (o : Option (Bytes × Bytes)) (c : Connection) (arrivals : List Arrival) (e : Exchange Bytes)
      → IsReadOnly c
      → IsReadOnly (final e)
      → IsReadOnly
          (final (elim o [ some parts ↦ got parts.0 (connected c arrivals parts.1) | none ↦ e ]))
  found-IsReadOnly none c arrivals e h k = k
  found-IsReadOnly (some parts) c arrivals e h k = h

  receive-IsReadOnly :
      (c : Connection) (buffer : Bytes) (arrivals : List Arrival)
      → IsReadOnly c
      → IsReadOnly (final (receive c buffer arrivals))
  unfolding receive
  receive-IsReadOnly c buffer [] h = found-IsReadOnly (split_crlf buffer) c [] _ h h
  receive-IsReadOnly c buffer (interrupted ∷ more) h =
      found-IsReadOnly (split_crlf buffer) c (interrupted ∷ more) _ h h
  receive-IsReadOnly c buffer (chunk bytes ∷ more) h =
      found-IsReadOnly (split_crlf buffer) c (chunk bytes ∷ more) _ h (
        elim-IsReadOnly (is_empty bytes) _ (receive c (buffer ++ bytes) more) h
          (receive-IsReadOnly c (buffer ++ bytes) more h))

  receive_on-IsReadOnly :
      (s : Option (List Arrival)) (c : Connection)
      → IsReadOnly c
      → IsReadOnly (final (receive_on s c))
  unfolding receive_on
  receive_on-IsReadOnly none c h = h
  receive_on-IsReadOnly (some arrivals) c h = receive-IsReadOnly c c.buffer arrivals h

  read_until-IsReadOnly : (c : Connection) → IsReadOnly c → IsReadOnly (final (read_until c))
  unfolding read_until
  read_until-IsReadOnly c h = receive_on-IsReadOnly c.sock c h

  pub positive_line-IsReadOnly :
      (c : Connection) → IsReadOnly c → IsReadOnly (final (positive_line c))
  unfolding positive_line
  positive_line-IsReadOnly c h =
      >>=-IsReadOnly (read_until c) _ (read_until-IsReadOnly c h)
        (λ line d k. if-IsReadOnly (starts_with (b'+' ∷ b'O' ∷ b'K' ∷ []) line) _ _ k k)

  pub collect-IsReadOnly :
      (fuel : ℕ) (result : Bytes) (c : Connection)
      → IsReadOnly c
      → IsReadOnly (final (collect fuel result c))
  unfolding collect wire_line
  collect-IsReadOnly zero result c h = h
  collect-IsReadOnly (suc fuel) result c h =
      >>=-IsReadOnly (wire_line c) _
        (>>=-IsReadOnly (read_until c) _ (read_until-IsReadOnly c h) (λ line d k. k))
        λ line d k.
          elim-IsReadOnly (bytes_eq line (b'.' ∷ crlf)) (got result d)
            (collect fuel (result ++ unstuffed line) d) k
            (collect-IsReadOnly fuel (result ++ unstuffed line) d k)
