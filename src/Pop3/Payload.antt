-- ===== src/Pop3/Payload.antt =====
-- The multi-line replies of src/mailarchive/pop3_mutation.py: `_multiline`, and `retr` on it.
use mailarchive.Base.{
  ℕ, zero, suc, ◌≤◌, ◌<◌, ◌≡◌, refl, sym, ap, true, false, none, some, List, [], ◌∷◌, ◌++◌, arith,
  inl, inr, Option-cases, if◌then◌else◌, ◌==◌,
}
use mathlib.Core.List.{append_assoc, append-nil}
use mailarchive.Base.Lists.{length, length-append, All}
use mailarchive.Host.{Bytes}
use mailarchive.Pop3.Octets.{crlf, split_crlf, after_crlf, bytes_eq, starts_with}
use mailarchive.Pop3.Connection.{
  Arrival, chunk, interrupted, Connection, got, connected, read_until, wire_line, collect,
  unstuffed, arriving, pending, Sockets, command, multiline,
}
use mailarchive.Pop3.Stream.{content, read_until-Refines, Refines-some, IsReadAs}

-- RFC 1939, section 3: how a server sends the lines of a reply.
abbrev pub stuff : Bytes → Bytes
stuff [] = []
stuff (c ∷ line) = if c == b'.' then b'.' ∷ c ∷ line else c ∷ line

abbrev pub transmit : List Bytes → Bytes → Bytes
transmit [] after = b'.' ∷ 13 ∷ 10 ∷ after
transmit (line ∷ lines) after = stuff line ++ 13 ∷ 10 ∷ transmit lines after

abbrev pub payload : List Bytes → Bytes
payload [] = []
payload (line ∷ lines) = (line ++ crlf) ++ payload lines

abbrev pub IsLine : Bytes → Type 0
IsLine line = split_crlf line ≡ none

after_crlf-line :
    (c d : ℕ) (line more : Bytes)
    → after_crlf c (d ∷ line) ≡ none
    → after_crlf c (d ∷ line ++ more) ≡ none
unfolding after_crlf
after_crlf-line c d line more h = ground arith

after_crlf-both :
    (c d : ℕ) (line : Bytes)
    → IsLine (c ∷ d ∷ line)
    → (after_crlf c (d ∷ line) ≡ none) × IsLine (d ∷ line)
unfolding split_crlf
after_crlf-both c d line h = elim (Option-cases (after_crlf c (d ∷ line))) [
  | inr (after, e) ↦ cc (e, h)
  | inl e ↦ elim (Option-cases (split_crlf (d ∷ line))) [
    | inr (parts, f) ↦ cc (e, f, h)
    | inl f ↦ (e, f)
  ]
]

split_crlf-line :
    (line more : Bytes) → IsLine line → split_crlf (line ++ 13 ∷ 10 ∷ more) ≡ some (line, more)
unfolding split_crlf after_crlf
split_crlf-line [] more h = refl
split_crlf-line (c ∷ []) more h = ground arith
split_crlf-line (c ∷ d ∷ line) more h =
    let (e, f) = after_crlf-both c d line h in
    rw (after_crlf-line c d line (13 ∷ 10 ∷ more) e, split_crlf-line (d ∷ line) more f) refl

split_crlf-stuff :
    (line more : Bytes)
    → IsLine line
    → split_crlf (stuff line ++ 13 ∷ 10 ∷ more) ≡ some (stuff line, more)
unfolding split_crlf after_crlf
split_crlf-stuff [] more h = refl
split_crlf-stuff (c ∷ line) more h = ground (arith, split_crlf-line (c ∷ line) more h)

unstuffed-stuff : (line : Bytes) → unstuffed (stuff line ++ crlf) ≡ line ++ crlf
unfolding unstuffed starts_with
unstuffed-stuff [] = refl
unstuffed-stuff (c ∷ line) = ground arith

stuff-isnt_end : (line : Bytes) → bytes_eq (stuff line ++ crlf) (b'.' ∷ crlf) ≡ false
unfolding bytes_eq
stuff-isnt_end [] = refl
stuff-isnt_end (c ∷ line) = ground arith

collect-line :
    (fuel : ℕ) (result line : Bytes) (c d : Connection)
    → read_until c ≡ got line d
    → bytes_eq (line ++ crlf) (b'.' ∷ crlf) ≡ false
    → collect (suc fuel) result c ≡ collect fuel (result ++ unstuffed (line ++ crlf)) d
unfolding collect wire_line
collect-line fuel result line c d h more = cc (h, more)

collect-end :
    (fuel : ℕ) (result line : Bytes) (c d : Connection)
    → read_until c ≡ got line d
    → bytes_eq (line ++ crlf) (b'.' ∷ crlf) ≡ true
    → collect (suc fuel) result c ≡ got result d
unfolding collect wire_line
collect-end fuel result line c d h last = cc (h, last)

split_crlf-end : (after : Bytes) → split_crlf (transmit [] after) ≡ some (b'.' ∷ [], after)
unfolding split_crlf after_crlf
split_crlf-end after = refl

end_line : bytes_eq (b'.' ∷ crlf) (b'.' ∷ crlf) ≡ true
unfolding bytes_eq
end_line = refl

reads :
    (c : Connection) (arrivals : List Arrival) (buffer line rest : Bytes)
    → split_crlf (buffer ++ content arrivals) ≡ some (line, rest)
    → IsReadAs c (read_until (connected c arrivals buffer)) line rest
reads c arrivals buffer line rest h =
    Refines-some (connected c arrivals buffer) line rest (read_until-Refines c arrivals buffer) h

pub collect-transmit :
    (c : Connection) (lines : List Bytes) (result after : Bytes) (fuel : ℕ)
    (arrivals : List Arrival) (buffer : Bytes)
    → All IsLine lines
    → length lines < fuel
    → buffer ++ content arrivals ≡ transmit lines after
    → IsReadAs c (collect fuel result (connected c arrivals buffer)) (result ++ payload lines) after
collect-transmit c lines result after zero arrivals buffer good enough sent = grind arith
collect-transmit c [] result after (suc fuel) arrivals buffer good enough sent =
    let (left, kept, e, s) =
      reads c arrivals buffer (b'.' ∷ []) after (rw sent (split_crlf-end after)) in
    (
      left,
      kept,
      rw
          (
            append-nil result,
            collect-end fuel result (b'.' ∷ []) (connected c arrivals buffer)
                (connected c left kept) e end_line,
          )
          refl,
      s,
    )
collect-transmit c (line ∷ lines) result after (suc fuel) arrivals buffer good enough sent =
    let (left, kept, e, s) =
      reads c arrivals buffer (stuff line) (transmit lines after)
        (rw sent (split_crlf-stuff line (transmit lines after) good.0)) in
    let further =
      collect-transmit c lines (result ++ (line ++ crlf)) after fuel left kept good.1
        (omega (arith, enough)) s in
    rw
      (
        collect-line fuel result (stuff line) (connected c arrivals buffer) (connected c left kept)
            e (stuff-isnt_end line),
        unstuffed-stuff line,
        sym (append_assoc result (line ++ crlf) (payload lines)),
      )
      further

length-transmit :
    (lines : List Bytes) (after : Bytes) → length lines ≤ length (transmit lines after)
length-transmit [] after = omega arith
length-transmit (line ∷ lines) after = omega (
  arith,
  length-transmit lines after,
  length-append (stuff line) (13 ∷ 10 ∷ transmit lines after),
)

length-content : (arrivals : List Arrival) → length (content arrivals) ≤ arriving arrivals
unfolding arriving
length-content [] = omega arith
length-content (interrupted ∷ more) = omega arith
length-content (chunk [] ∷ more) = omega arith
length-content (chunk (c ∷ bytes) ∷ more) =
    omega (arith, length-content more, length-append bytes (content more))

length-pending :
    (c : Connection) (arrivals : List Arrival) (buffer : Bytes)
    → length (buffer ++ content arrivals) ≤ pending (connected c arrivals buffer)
unfolding pending
length-pending c arrivals buffer =
    omega (arith, length-content arrivals, length-append buffer (content arrivals))

-- A server that has accepted the command and sends these lines by RFC 1939, each free of CR LF, in
-- whatever pieces they arrive and whatever follows them: `_multiline` returns exactly the lines,
-- each with its CR LF, and leaves what follows to be read.
pub multiline-transmit :
    (net : Sockets) (line status : Bytes) (c d : Connection) (arrivals : List Arrival)
    (buffer after : Bytes) (lines : List Bytes)
    → command net line c ≡ got status (connected d arrivals buffer)
    → All IsLine lines
    → buffer ++ content arrivals ≡ transmit lines after
    → IsReadAs d (multiline net line c) (payload lines) after
unfolding multiline
multiline-transmit net line status c d arrivals buffer after lines accepted good sent =
    rw accepted (
      collect-transmit d lines [] after (suc (pending (connected d arrivals buffer))) arrivals
        buffer good
        (omega
          (arith, length-transmit lines after, length-pending d arrivals buffer, ap length sent))
        sent)
