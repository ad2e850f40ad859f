-- ===== src/Pop3/Acquire.antt =====
-- `_Pop3Wire` of src/mailarchive/pop3.py where it differs from `_MutationWire`: `command` refuses
-- `DELE`, and `close` sends `QUIT`. Its buffer is read as in `Pop3/Connection.antt`, and a `Fault`
-- says no more than that the code raised.
use mailarchive.Base.{ℕ, suc, String, true, false, Option, none, some, List, [], ◌∷◌, ◌++◌, ◌==◌}
use mailarchive.Base.Text.{codes}
use mailarchive.Host.{Bytes}
use mailarchive.Pop3.Octets.{bytes_eq, first_word, digits}
use mailarchive.Pop3.Connection.{
  Arrival, forbidden, os_error, invalid_number, Connection, Exchange, got, failed, ◌>>=◌, Sockets,
  command, collect, pending, TlsMode, pop3s, starttls, positive_line, wrap,
}
use mailarchive.Pop3.Listing.{Entry, Parsed, parsed, refused, parse_uidls}

abbrev pub dele_word : Bytes
dele_word = codes "DELE"

module _ (net : Sockets) where
  -- `command`
  unfoldable pub read_command : Bytes → Connection → Exchange Bytes
  read_command line c = elim (bytes_eq (net.upper (first_word line)) dele_word) [
    | true ↦ failed forbidden c
    | false ↦ command net line c
  ]

  unfoldable pub read_multiline : Bytes → Connection → Exchange Bytes
  unfolding read_command
  read_multiline line c = read_command line c >>= λ _ c'. collect (suc (pending c')) [] c'

  unfoldable pub read_retr : ℕ → Connection → Exchange Bytes
  unfolding read_multiline
  read_retr number c = elim (number == 0) [
    | true ↦ failed invalid_number c
    | false ↦ read_multiline (codes "RETR " ++ digits number) c
  ]

  unfoldable pub entries_of : Parsed → Connection → Exchange (List Entry)
  entries_of (parsed u) c = got u.result c
  entries_of (refused fault) c = failed fault c

  unfoldable pub read_uidls : Connection → Exchange (List Entry)
  unfolding read_multiline entries_of
  read_uidls c = read_multiline (codes "UIDL") c >>= λ reply c'. entries_of (parse_uidls reply) c'

  unfoldable pub sign_in : Bytes → Bytes → Connection → Exchange Bytes
  unfolding read_command
  sign_in username password c = read_command (codes "USER " ++ username) c >>= λ _ c'.
      read_command (codes "PASS " ++ password) c'

  -- `close`: an `OSError` or a `Pop3Error` of `QUIT` is passed over; the socket is left only after it.
  unfoldable pub closed_after : Exchange Bytes → Connection
  closed_after (got line c) = record c { sock = none }
  closed_after (failed fault c) = record c { sock = none }

  unfoldable pub close_on : Option (List Arrival) → Connection → Connection
  unfolding closed_after read_command
  close_on none c = c
  close_on (some arrivals) c = closed_after (read_command (codes "QUIT") c)

  unfoldable pub close : Connection → Connection
  unfolding close_on
  close c = close_on c.sock c

  -- A message for each number.
  unfoldable pub retrieve_all : List ℕ → Connection → Exchange (List Bytes)
  unfolding read_retr
  retrieve_all [] c = got [] c
  retrieve_all (number ∷ numbers) c = read_retr number c >>= λ raw c'.
      retrieve_all numbers c' >>= λ messages c''. got (raw ∷ messages) c''

  -- `open`
  unfoldable pub read_greeted : String → TlsMode → Connection → Exchange (Unit {0})
  unfolding read_command wrap
  read_greeted host mode c = positive_line c >>= λ _ c'. elim mode [
    | starttls ↦ read_command (codes "STLS") c' >>= λ _ c''. wrap net host c''.sock c''
    | _ ↦ got tt c'
  ]

  unfoldable pub read_open_on :
      String → TlsMode → Option (List Arrival) → Connection → Exchange (Unit {0})
  unfolding read_greeted
  read_open_on host mode none c = failed os_error c
  read_open_on host mode (some raw) c = read_greeted host mode (record c { sock = some raw })

  -- With `POP3S`, TLS comes before the greeting.
  unfoldable pub secured : String → TlsMode → Option (List Arrival) → Option (List Arrival)
  secured host mode none = none
  secured host mode (some raw) = elim mode [ pop3s ↦ net.wrap_socket host raw | _ ↦ some raw ]

  unfoldable pub read_open : String → ℕ → TlsMode → Connection → Exchange (Unit {0})
  unfolding read_open_on secured
  read_open host port mode c =
      read_open_on host mode (secured host mode (net.create_connection host port)) c

  -- What `_sync_locked` asks of the wire: `wanted` makes the numbers to retrieve of the listing.
  unfoldable pub session :
      String
      → ℕ
      → TlsMode
      → Bytes
      → Bytes
      → (List Entry → List ℕ)
      → Connection
      → Exchange (List Bytes)
  unfolding read_open sign_in read_uidls retrieve_all
  session host port mode username password wanted c = read_open host port mode c >>= λ _ c.
      sign_in username password c >>= λ _ c.
      read_uidls c >>= λ entries c. retrieve_all (wanted entries) c

  -- `finally: client.close()`
  unfoldable pub closing_session : Exchange (List Bytes) → Exchange (List Bytes)
  unfolding close
  closing_session (got messages c) = got messages (close c)
  closing_session (failed fault c) = failed fault (close c)

  unfoldable pub acquire :
      String
      → ℕ
      → TlsMode
      → Bytes
      → Bytes
      → (List Entry → List ℕ)
      → Connection
      → Exchange (List Bytes)
  unfolding session closing_session
  acquire host port mode username password wanted c =
      closing_session (session host port mode username password wanted c)
