-- ===== src/Tests/Replies.antt =====
-- The POP3 wire on replies that arrive in pieces.
use mailarchive.Base.{ℕ, ◌≡◌, refl, true, none, some, List, [], ◌∷◌, ◌++◌}
use mailarchive.Base.Text.{codes}
use mailarchive.Host.{Bytes}
use mailarchive.Pop3.Octets.{
  crlf, split_crlf, after_crlf, bytes_eq, fields, first_word, int_of, is_ascii, is_blank, is_digit,
  is_space, lstrip, split_lines, starts_with,
}
use mailarchive.Pop3.Connection.{
  Arrival, chunk, Connection, got, connected, Sockets, command, unprotected, multiline, read_until,
  collect, positive_line, unstuffed,
}
use mailarchive.Pop3.Stream.{stream, Refines, read_until-Refines, IsReadAs}
use mailarchive.Pop3.Payload.{multiline-transmit, payload}
use mailarchive.Pop3.Acquire.{acquire}
use mailarchive.Pop3.Commands.{final, IsReadOnly}
use mailarchive.Pop3.ReadOnly.{acquire-IsReadOnly}
use mailarchive.Pop3.Listing.{Entry, uidls, IsListing, uidls-IsListing}

abbrev net : Sockets
net = record {
  upper = λ word. word;
  sendall = λ before line. true;
  create_connection = λ host port. none;
  wrap_socket = λ host arrivals. some arrivals;
}

abbrev fresh : Connection
fresh = record { sock = none; buffer = []; commands = []; written = [] }

-- The reply to `RETR 1`, cut in the middle of a CR LF and of a doubled dot.
abbrev reply : List Arrival
reply =
    chunk (codes "+OK" ++ 13 ∷ [])
    ∷ chunk (10 ∷ codes "a" ++ crlf ++ codes ".")
    ∷ chunk (codes ".b" ++ crlf ++ codes "." ++ crlf ++ codes "+OK")
    ∷ []

abbrev ready : Connection
ready = connected fresh reply []

abbrev lines : List Bytes
lines = codes "a" ∷ codes ".b" ∷ []

abbrev accepted : Connection
accepted = record fresh { commands = codes "RETR" ∷ []; written = (codes "RETR 1" ++ crlf) ∷ [] }

abbrev still_arriving : List Arrival
still_arriving = chunk (codes ".b" ++ crlf ++ codes "." ++ crlf ++ codes "+OK") ∷ []

retr_accepted :
    command net (codes "RETR 1") ready
    ≡ got [] (connected accepted still_arriving (codes "a" ++ crlf ++ codes "."))
unfolding command is_ascii positive_line split_crlf after_crlf starts_with lstrip first_word
retr_accepted = refl

no_crlf_a : split_crlf (codes "a") ≡ none
unfolding split_crlf after_crlf
no_crlf_a = refl

no_crlf_b : split_crlf (codes ".b") ≡ none
unfolding split_crlf after_crlf
no_crlf_b = refl

read_until-Refines_example : Refines ready (read_until ready) (split_crlf (stream ready))
read_until-Refines_example = read_until-Refines fresh reply []

multiline-transmit_example :
    IsReadAs accepted (multiline net (codes "RETR 1") ready) (payload lines) (codes "+OK")
multiline-transmit_example =
    multiline-transmit net (codes "RETR 1") [] ready accepted still_arriving
      (codes "a" ++ crlf ++ codes ".") (codes "+OK") lines retr_accepted
      (no_crlf_a, (no_crlf_b, tt)) refl

-- An acquisition of one message.
abbrev post_office : Sockets
post_office = record net {
  create_connection = λ host port. some (
      chunk (codes "+OK" ++ crlf ++ codes "+OK" ++ crlf ++ codes "+OK" ++ crlf)
      ∷ chunk (codes "+OK" ++ crlf ++ codes "1 u1" ++ crlf ++ codes "." ++ crlf)
      ∷ reply);
}

abbrev first_numbers : List Entry → List ℕ
first_numbers [] = []
first_numbers (e ∷ entries) = e.0 ∷ first_numbers entries

acquire-IsReadOnly_example :
    IsReadOnly post_office
      (final (acquire post_office "h" 110 unprotected (codes "u") (codes "p") first_numbers fresh))
acquire-IsReadOnly_example =
    acquire-IsReadOnly post_office "h" 110 unprotected (codes "u") (codes "p") first_numbers fresh
      (tt, tt)

abbrev listing : Connection
listing =
    connected fresh
      (chunk (codes "+OK" ++ crlf ++ codes "1 u1" ++ crlf)
        ∷ chunk (codes "2 u2" ++ crlf ++ codes "." ++ crlf)
        ∷ [])
      []

abbrev listed : Connection
listed = record (connected fresh [] []) {
  commands = codes "UIDL" ∷ [];
  written = (codes "UIDL" ++ crlf) ∷ [];
}

uidls_listing : uidls net listing ≡ got ((1, codes "u1") ∷ (2, codes "u2") ∷ []) listed
unfolding uidls multiline is_ascii positive_line split_crlf after_crlf starts_with collect bytes_eq
    split_lines unstuffed fields is_blank is_digit int_of is_space first_word
uidls_listing = refl

uidls-IsListing_example : IsListing ((1, codes "u1") ∷ (2, codes "u2") ∷ [])
uidls-IsListing_example =
    uidls-IsListing net listing listed ((1, codes "u1") ∷ (2, codes "u2") ∷ []) uidls_listing
