-- ===== src/Pop3/ReadOnly.antt =====
-- The acquisition over POP3 in src/mailarchive/pop3.py sends no `DELE`.
use mailarchive.Base.{
  ℕ, suc, ◌≡◌, refl, String, Bool, true, false, not, ◌||◌, Option, none, some, List, [], ◌∷◌, ◌++◌,
  ◌==◌, if◌then◌else◌,
}
use mailarchive.Base.Lists.{any}
use mailarchive.Base.Text.{codes}
use mailarchive.Host.{Bytes}
use mailarchive.Pop3.Octets.{crlf, bytes_eq, is_ascii, first_word, digits}
use mailarchive.Pop3.Connection.{
  Arrival, Fault, Connection, Exchange, got, failed, ◌>>=◌, positive_line, pending, Sockets, send,
  command_on, command, TlsMode, pop3s, starttls, unprotected, wrap,
}
use mailarchive.Pop3.Listing.{Entry, Parsed, parsed, refused, parse_uidls}
use mailarchive.Pop3.Acquire.{
  dele_word, read_command, read_multiline, read_retr, entries_of, read_uidls, sign_in, closed_after,
  close_on, close, retrieve_all, read_greeted, read_open_on, secured, read_open, session,
  closing_session, acquire,
}
use mailarchive.Pop3.Commands.{
  final, IsHarmless, IsReadOnly, >>=-IsReadOnly, elim-IsReadOnly, if-IsReadOnly,
  positive_line-IsReadOnly, collect-IsReadOnly,
}

module _ (net : Sockets) where
  send-IsReadOnly :
      (line : Bytes) (c : Connection)
      → IsHarmless net (line ++ crlf)
      → IsReadOnly net c
      → IsReadOnly net (final (send net line c))
  unfolding send
  send-IsReadOnly line c harmless h =
      if-IsReadOnly net (not (is_ascii line)) _ _ h
        (if-IsReadOnly net (net.sendall c.written (line ++ crlf)) _ _ (h.0, (harmless, h.1)) h)

  command_on-IsReadOnly :
      (s : Option (List Arrival)) (line : Bytes) (c : Connection)
      → (any (λ x. x == 13) line || any (λ x. x == 10) line) ≡ false
      → bytes_eq (net.upper (first_word line)) dele_word ≡ false
      → IsReadOnly net c
      → IsReadOnly net (final (command_on net s line c))
  unfolding command_on
  command_on-IsReadOnly none line c clean harmless h = h
  command_on-IsReadOnly (some arrivals) line c clean harmless h =
      let noted = record c { commands = net.upper (first_word line) ∷ c.commands } in
      >>=-IsReadOnly net (send net line noted) _
        (send-IsReadOnly line noted (line, refl, clean, harmless) ((harmless, h.0), h.1))
        (λ _ d k. positive_line-IsReadOnly net d k)

  command-IsReadOnly :
      (line : Bytes) (c : Connection)
      → bytes_eq (net.upper (first_word line)) dele_word ≡ false
      → IsReadOnly net c
      → IsReadOnly net (final (command net line c))
  unfolding command
  command-IsReadOnly line c harmless h =
      tested (any (λ x. x == 13) line || any (λ x. x == 10) line) refl
    where
      tested :
          (b : Bool)
          → (any (λ x. x == 13) line || any (λ x. x == 10) line) ≡ b
          → IsReadOnly net
              (final (if b then failed Fault.invalid_command c else command_on net c.sock line c))
      tested true e = h
      tested false e = command_on-IsReadOnly c.sock line c e harmless h

  read_command-IsReadOnly :
      (line : Bytes) (c : Connection)
      → IsReadOnly net c
      → IsReadOnly net (final (read_command net line c))
  unfolding read_command
  read_command-IsReadOnly line c h = tested (bytes_eq (net.upper (first_word line)) dele_word) refl
    where
      tested :
          (b : Bool)
          → bytes_eq (net.upper (first_word line)) dele_word ≡ b
          → IsReadOnly net
              (final (elim b [ true ↦ failed Fault.forbidden c | false ↦ command net line c ]))
      tested true e = h
      tested false e = command-IsReadOnly line c e h

  read_multiline-IsReadOnly :
      (line : Bytes) (c : Connection)
      → IsReadOnly net c
      → IsReadOnly net (final (read_multiline net line c))
  unfolding read_multiline
  read_multiline-IsReadOnly line c h =
      >>=-IsReadOnly net (read_command net line c) _ (read_command-IsReadOnly line c h)
        (λ _ d k. collect-IsReadOnly net (suc (pending d)) [] d k)

  retrieve_all-IsReadOnly :
      (numbers : List ℕ) (c : Connection)
      → IsReadOnly net c
      → IsReadOnly net (final (retrieve_all net numbers c))
  unfolding retrieve_all read_retr
  retrieve_all-IsReadOnly [] c h = h
  retrieve_all-IsReadOnly (number ∷ numbers) c h =
      >>=-IsReadOnly net (read_retr net number c) _
        (elim-IsReadOnly net (number == 0) _ _ h
          (read_multiline-IsReadOnly (codes "RETR " ++ digits number) c h))
        λ raw d k.
          >>=-IsReadOnly net (retrieve_all net numbers d) _ (retrieve_all-IsReadOnly numbers d k)
            (λ messages u l. l)

  entries_of-IsReadOnly :
      (p : Parsed) (c : Connection) → IsReadOnly net c → IsReadOnly net (final (entries_of net p c))
  unfolding entries_of
  entries_of-IsReadOnly (parsed u) c h = h
  entries_of-IsReadOnly (refused fault) c h = h

  read_uidls-IsReadOnly :
      (c : Connection) → IsReadOnly net c → IsReadOnly net (final (read_uidls net c))
  unfolding read_uidls
  read_uidls-IsReadOnly c h =
      >>=-IsReadOnly net (read_multiline net (codes "UIDL") c) _
        (read_multiline-IsReadOnly (codes "UIDL") c h)
        (λ reply d k. entries_of-IsReadOnly (parse_uidls reply) d k)

  sign_in-IsReadOnly :
      (username password : Bytes) (c : Connection)
      → IsReadOnly net c
      → IsReadOnly net (final (sign_in net username password c))
  unfolding sign_in
  sign_in-IsReadOnly username password c h =
      >>=-IsReadOnly net (read_command net (codes "USER " ++ username) c) _
        (read_command-IsReadOnly (codes "USER " ++ username) c h)
        (λ _ d k. read_command-IsReadOnly (codes "PASS " ++ password) d k)

  wrap-IsReadOnly :
      (host : String) (s : Option (List Arrival)) (c : Connection)
      → IsReadOnly net c
      → IsReadOnly net (final (wrap net host s c))
  unfolding wrap
  wrap-IsReadOnly host none c h = h
  wrap-IsReadOnly host (some arrivals) c h = secured_or (net.wrap_socket host arrivals)
    where
      secured_or :
          (o : Option (List Arrival))
          → IsReadOnly net (
              final (elim o [
                | none ↦ failed Fault.os_error c
                | some raw ↦ got tt (record c { sock = some raw })
              ]))
      secured_or none = h
      secured_or (some raw) = h

  after_greeting-IsReadOnly :
      (host : String) (mode : TlsMode) (c : Connection)
      → IsReadOnly net c
      → IsReadOnly net (
          final (elim mode [
            | starttls ↦ read_command net (codes "STLS") c >>= λ _ d. wrap net host d.sock d
            | _ ↦ got tt c
          ]))
  after_greeting-IsReadOnly host pop3s c h = h
  after_greeting-IsReadOnly host unprotected c h = h
  after_greeting-IsReadOnly host starttls c h =
      >>=-IsReadOnly net (read_command net (codes "STLS") c) _
        (read_command-IsReadOnly (codes "STLS") c h) (λ _ d k. wrap-IsReadOnly host d.sock d k)

  read_open_on-IsReadOnly :
      (host : String) (mode : TlsMode) (o : Option (List Arrival)) (c : Connection)
      → IsReadOnly net c
      → IsReadOnly net (final (read_open_on net host mode o c))
  unfolding read_open_on read_greeted
  read_open_on-IsReadOnly host mode none c h = h
  read_open_on-IsReadOnly host mode (some raw) c h =
      >>=-IsReadOnly net (positive_line (record c { sock = some raw })) _
        (positive_line-IsReadOnly net (record c { sock = some raw }) h)
        (λ _ d k. after_greeting-IsReadOnly host mode d k)

  session-IsReadOnly :
      (host : String) (port : ℕ) (mode : TlsMode) (username password : Bytes)
      (wanted : List Entry → List ℕ) (c : Connection)
      → IsReadOnly net c
      → IsReadOnly net (final (session net host port mode username password wanted c))
  unfolding session read_open
  session-IsReadOnly host port mode username password wanted c h =
      >>=-IsReadOnly net (read_open net host port mode c) _
        (read_open_on-IsReadOnly host mode (secured net host mode (net.create_connection host port))
          c h)
        λ _ c1 h1.
          >>=-IsReadOnly net (sign_in net username password c1) _
            (sign_in-IsReadOnly username password c1 h1)
            λ _ c2 h2.
              >>=-IsReadOnly net (read_uidls net c2) _ (read_uidls-IsReadOnly c2 h2)
                (λ entries c3 h3. retrieve_all-IsReadOnly (wanted entries) c3 h3)

  closed_after-IsReadOnly :
      (e : Exchange Bytes) → IsReadOnly net (final e) → IsReadOnly net (closed_after net e)
  unfolding closed_after
  closed_after-IsReadOnly (got line c) h = h
  closed_after-IsReadOnly (failed fault c) h = h

  close_on-IsReadOnly :
      (s : Option (List Arrival)) (c : Connection)
      → IsReadOnly net c
      → IsReadOnly net (close_on net s c)
  unfolding close_on
  close_on-IsReadOnly none c h = h
  close_on-IsReadOnly (some arrivals) c h =
      closed_after-IsReadOnly (read_command net (codes "QUIT") c)
        (read_command-IsReadOnly (codes "QUIT") c h)

  close-IsReadOnly : (c : Connection) → IsReadOnly net c → IsReadOnly net (close net c)
  unfolding close
  close-IsReadOnly c h = close_on-IsReadOnly c.sock c h

  closing_session-IsReadOnly :
      (e : Exchange (List Bytes))
      → IsReadOnly net (final e)
      → IsReadOnly net (final (closing_session net e))
  unfolding closing_session
  closing_session-IsReadOnly (got messages c) h = close-IsReadOnly c h
  closing_session-IsReadOnly (failed fault c) h = close-IsReadOnly c h

  -- An acquisition, whatever it is configured with, whatever the server sends and however it ends:
  -- each call of `sendall` that returned has sent one line, closed by CR LF, whose first word is not
  -- `DELE` in any letters, and no such command is recorded, where that was so before it.
  pub acquire-IsReadOnly :
      (host : String) (port : ℕ) (mode : TlsMode) (username password : Bytes)
      (wanted : List Entry → List ℕ) (c : Connection)
      → IsReadOnly net c
      → IsReadOnly net (final (acquire net host port mode username password wanted c))
  unfolding acquire
  acquire-IsReadOnly host port mode username password wanted c h =
      closing_session-IsReadOnly (session net host port mode username password wanted c)
        (session-IsReadOnly host port mode username password wanted c h)
