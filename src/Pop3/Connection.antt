-- ===== src/Pop3/Connection.antt =====
-- `_MutationWire` of src/mailarchive/pop3_mutation.py. A socket is what its `recv` will return, in
-- order; after that it returns `b""`.
use mailarchive.Base.{
  ℕ, zero, suc, ◌+◌, Bool, String, true, false, not, ◌||◌, Option, none, some, List, [], ◌∷◌, ◌++◌,
  ◌==◌, if◌then◌else◌,
}
use mailarchive.Base.Lists.{length, any}
use mailarchive.Host.{Bytes}
use mailarchive.Base.Text.{codes}
use mailarchive.Pop3.Octets.{
  crlf, split_crlf, is_empty, bytes_eq, starts_with, lstrip, is_ascii, first_word, digits,
}

-- What one `recv` returns, or `OSError`.
pub data Arrival : Type 0 where
  chunk : Bytes → Arrival
  interrupted : Arrival

-- What a call raises: an `OSError`; `Pop3MutationError` for a closed connection, a rejected or an
-- invalid command, an invalid number or a malformed reply; `Pop3IdentityConflictError`; an
-- `AssertionError` where there is no socket; `UnicodeEncodeError`; `ValueError` of `int`.
pub data Fault : Type 0 where
  os_error closed rejected invalid_command invalid_number malformed : Fault
  ambiguous no_socket not_ascii int_too_long : Fault
  -- the loop of `multiline` has no fuel left, which no code raises
  exhausted : Fault
  -- the `AssertionError` of the acquisition for `DELE`
  forbidden : Fault

-- `commands` and `written`, what `sendall` was given, are newest first.
pub record Connection : Type 0 where
  pub sock : Option (List Arrival)
  pub buffer : Bytes
  pub commands : List Bytes
  pub written : List Bytes

pub data Exchange (A : Type 0) : Type 0 where
  got : A → Connection → Exchange A
  failed : Fault → Connection → Exchange A

infixl 5 ◌>>=◌
abbrev pub ◌>>=◌ : {A B : Type 0} → Exchange A → (A → Connection → Exchange B) → Exchange B
got a c >>= rest = rest a c
failed fault c >>= rest = failed fault c

abbrev pub connected : Connection → List Arrival → Bytes → Connection
connected c arrivals buffer = record c { sock = some arrivals; buffer = buffer }

-- The loop of `_read_until(b"\r\n")`, the only marker that is read for.
unfoldable pub receive : Connection → Bytes → List Arrival → Exchange Bytes
receive c buffer [] = elim (split_crlf buffer) [
  | some parts ↦ got parts.0 (connected c [] parts.1)
  | none ↦ failed closed (connected c [] buffer)
]
receive c buffer (interrupted ∷ more) = elim (split_crlf buffer) [
  | some parts ↦ got parts.0 (connected c (interrupted ∷ more) parts.1)
  | none ↦ failed os_error (connected c more buffer)
]
receive c buffer (chunk bytes ∷ more) = elim (split_crlf buffer) [
  | some parts ↦ got parts.0 (connected c (chunk bytes ∷ more) parts.1)
  | none ↦ elim (is_empty bytes) [
    | true ↦ failed closed (connected c more buffer)
    | false ↦ receive c (buffer ++ bytes) more
  ]
]

unfoldable pub receive_on : Option (List Arrival) → Connection → Exchange Bytes
unfolding receive
receive_on none c = failed no_socket c
receive_on (some arrivals) c = receive c c.buffer arrivals

unfoldable pub read_until : Connection → Exchange Bytes
unfolding receive_on
read_until c = receive_on c.sock c

unfoldable pub positive_line : Connection → Exchange Bytes
unfolding read_until
positive_line c = read_until c >>= λ line c'.
    if starts_with (b'+' ∷ b'O' ∷ b'K' ∷ []) line
    then got (lstrip (without_ok line)) c'
    else failed rejected c'
  where
    without_ok : Bytes → Bytes
    without_ok (x ∷ y ∷ z ∷ line) = line
    without_ok line = []

unfoldable pub wire_line : Connection → Exchange Bytes
unfolding read_until
wire_line c = read_until c >>= λ line c'. got (line ++ crlf) c'

unfoldable pub unstuffed : Bytes → Bytes
unstuffed line = if starts_with (b'.' ∷ b'.' ∷ []) line then without_dot line else line
  where
    without_dot : Bytes → Bytes
    without_dot [] = []
    without_dot (c ∷ rest) = rest

-- The loop of `_multiline`, on fuel: one unit for each line of the reply.
unfoldable pub collect : ℕ → Bytes → Connection → Exchange Bytes
unfolding wire_line
collect zero result c = failed exhausted c
collect (suc fuel) result c = wire_line c >>= λ line c'. elim (bytes_eq line (b'.' ∷ crlf)) [
  | true ↦ got result c'
  | false ↦ collect fuel (result ++ unstuffed line) c'
]

unfoldable pub arriving : List Arrival → ℕ
arriving [] = 0
arriving (chunk bytes ∷ more) = length bytes + arriving more
arriving (interrupted ∷ more) = arriving more

-- The bytes that may still be read.
unfoldable pub pending : Connection → ℕ
unfolding arriving
pending c = length c.buffer + elim c.sock [ none ↦ 0 | some arrivals ↦ arriving arrivals ]

-- What the standard library does: `str.upper`; whether `sendall` returns, for the commands before
-- and the one that it is given; the socket of `create_connection`; TLS on a socket.
pub record Sockets : Type 0 where
  pub upper : Bytes → Bytes
  pub sendall : List Bytes → Bytes → Bool
  pub create_connection : String → ℕ → Option (List Arrival)
  pub wrap_socket : String → List Arrival → Option (List Arrival)

unfoldable pub abort_without_quit : Connection → Connection
abort_without_quit c = record c { sock = none }

closing : Exchange Bytes → Exchange Bytes
unfolding abort_without_quit
closing (got line c) = got line (abort_without_quit c)
closing (failed fault c) = failed fault (abort_without_quit c)

-- `tls_mode`: "POP3S", "STARTTLS", or another word.
pub data TlsMode : Type 0 where
  pop3s starttls unprotected : TlsMode

module _ (net : Sockets) where
  unfoldable pub send : Bytes → Connection → Exchange (Unit {0})
  send line c =
      if not (is_ascii line)
      then failed not_ascii c
      else if net.sendall c.written (line ++ crlf)
      then got tt (record c { written = (line ++ crlf) ∷ c.written })
      else failed os_error c

  unfoldable pub command_on : Option (List Arrival) → Bytes → Connection → Exchange Bytes
  unfolding send
  command_on none line c = failed no_socket c
  command_on (some arrivals) line c =
      let noted = record c { commands = net.upper (first_word line) ∷ c.commands } in
      send line noted >>= λ _ c'. positive_line c'

  -- `_command`, on the code points of a text
  unfoldable pub command : Bytes → Connection → Exchange Bytes
  unfolding command_on
  command line c =
      if any (λ x. x == 13) line || any (λ x. x == 10) line
      then failed invalid_command c
      else command_on c.sock line c

  -- The second `wrap_socket` of `open`: the bytes read so far stay in `buffer`.
  unfoldable pub wrap : String → Option (List Arrival) → Connection → Exchange (Unit {0})
  wrap host none c = failed no_socket c
  wrap host (some arrivals) c = elim (net.wrap_socket host arrivals) [
    | none ↦ failed os_error c
    | some secured ↦ got tt (record c { sock = some secured })
  ]

  after_greeting : String → TlsMode → Connection → Exchange (Unit {0})
  unfolding command wrap
  after_greeting host starttls c = command (codes "STLS") c >>= λ _ c'. wrap host c'.sock c'
  after_greeting host _ c = got tt c

  greeted : String → TlsMode → Connection → Exchange (Unit {0})
  unfolding after_greeting
  greeted host mode c = positive_line c >>= λ _ c'. after_greeting host mode c'

  open_on : String → TlsMode → List Arrival → Connection → Exchange (Unit {0})
  unfolding greeted
  open_on host pop3s raw c = elim (net.wrap_socket host raw) [
    | none ↦ failed os_error c
    | some secured ↦ greeted host pop3s (record c { sock = some secured })
  ]
  open_on host mode raw c = greeted host mode (record c { sock = some raw })

  -- `open`
  unfoldable pub open_wire : String → ℕ → TlsMode → Connection → Exchange (Unit {0})
  unfolding open_on
  open_wire host port mode c = elim (net.create_connection host port) [
    | none ↦ failed os_error c
    | some raw ↦ open_on host mode raw c
  ]

  unfoldable pub multiline : Bytes → Connection → Exchange Bytes
  unfolding command pending
  multiline line c = command line c >>= λ _ c'. collect (suc (pending c')) [] c'

  unfoldable pub authenticate : Bytes → Bytes → Connection → Exchange Bytes
  unfolding command
  authenticate username password c =
      command (codes "USER " ++ username) c >>= λ _ c'. command (codes "PASS " ++ password) c'

  unfoldable pub retr : ℕ → Connection → Exchange Bytes
  unfolding multiline
  retr number c =
      if number == 0 then failed invalid_number c else multiline (codes "RETR " ++ digits number) c

  unfoldable pub dele : ℕ → Connection → Exchange Bytes
  unfolding command
  dele number c =
      if number == 0 then failed invalid_number c else command (codes "DELE " ++ digits number) c

  unfoldable pub quit_and_commit : Connection → Exchange Bytes
  unfolding command closing
  quit_and_commit c = closing (command (codes "QUIT") c)
