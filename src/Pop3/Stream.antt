-- ===== src/Pop3/Stream.antt =====
-- The wire of src/mailarchive/pop3_mutation.py against the sequence of bytes that the server sent,
-- whatever the pieces in which `recv` returns them.
use mailarchive.Base.{
  ℕ, ◌≡◌, refl, sym, Option, none, some, List, [], ◌∷◌, ◌++◌, ◌⊎◌, inl, inr, Option-cases,
}
use mathlib.Core.List.{append_assoc, append-nil}
use mailarchive.Host.{Bytes}
use mailarchive.Pop3.Octets.{split_crlf, split_crlf-append}
use mailarchive.Pop3.Connection.{
  Arrival, chunk, interrupted, Fault, closed, os_error, Connection, Exchange, got, failed,
  connected, receive, read_until,
}

-- What the server sent before the connection ended.
abbrev pub content : List Arrival → Bytes
content [] = []
content (interrupted ∷ more) = []
content (chunk [] ∷ more) = []
content (chunk (c ∷ bytes) ∷ more) = (c ∷ bytes) ++ content more

abbrev pub stream : Connection → Bytes
stream c = c.buffer ++ elim c.sock [ none ↦ [] | some arrivals ↦ content arrivals ]

-- A call on a connection does what the step on the sequence of bytes does: it returns the same
-- value and leaves the same bytes to be read, on a connection with the same commands; or neither
-- has a value.
pub data Refines (c : Connection) : Exchange Bytes → Option (Bytes × Bytes) → Type 0 where
  returns :
      (line : Bytes) (left : List Arrival) (buffer rest : Bytes)
      → stream (connected c left buffer) ≡ rest
      → Refines c (got line (connected c left buffer)) (some (line, rest))
  stops :
      (fault : Fault) (left : List Arrival) (buffer : Bytes)
      → (fault ≡ closed) ⊎ (fault ≡ os_error)
      → Refines c (failed fault (connected c left buffer)) none

pub receive_found :
    (c : Connection) (buffer : Bytes) (parts : Bytes × Bytes) (arrivals : List Arrival)
    → split_crlf buffer ≡ some parts
    → receive c buffer arrivals ≡ got parts.0 (connected c arrivals parts.1)
unfolding receive
receive_found c buffer parts [] h = cc h
receive_found c buffer parts (interrupted ∷ more) h = cc h
receive_found c buffer parts (chunk bytes ∷ more) h = cc h

found-Refines :
    (c : Connection) (buffer : Bytes) (parts : Bytes × Bytes) (arrivals : List Arrival)
    → split_crlf buffer ≡ some parts
    → Refines c (receive c buffer arrivals) (split_crlf (buffer ++ content arrivals))
found-Refines c buffer parts arrivals h =
    rw
      (
        receive_found c buffer parts arrivals h,
        split_crlf-append buffer (content arrivals) parts.0 parts.1 h,
      )
      (returns parts.0 arrivals parts.1 (parts.1 ++ content arrivals) refl)

module _ (c : Connection) (buffer : Bytes) (h : split_crlf buffer ≡ none) where
  pub receive_ended : receive c buffer [] ≡ failed closed (connected c [] buffer)
  unfolding receive
  receive_ended = cc h

  pub receive_interrupted :
      (more : List Arrival)
      → receive c buffer (interrupted ∷ more) ≡ failed os_error (connected c more buffer)
  unfolding receive
  receive_interrupted more = cc h

  pub receive_closed :
      (more : List Arrival)
      → receive c buffer (chunk [] ∷ more) ≡ failed closed (connected c more buffer)
  unfolding receive
  receive_closed more = cc h

  pub receive_more :
      (d : ℕ) (bytes : Bytes) (more : List Arrival)
      → receive c buffer (chunk (d ∷ bytes) ∷ more) ≡ receive c (buffer ++ d ∷ bytes) more
  unfolding receive
  receive_more d bytes more = cc h

receive-Refines :
    (c : Connection) (buffer : Bytes) (arrivals : List Arrival)
    → Refines c (receive c buffer arrivals) (split_crlf (buffer ++ content arrivals))
receive-Refines c buffer [] = elim (Option-cases (split_crlf buffer)) [
  | inr (parts, h) ↦ found-Refines c buffer parts [] h
  | inl h ↦ rw (receive_ended c buffer h, append-nil buffer, h) (stops closed [] buffer (inl refl))
]
receive-Refines c buffer (interrupted ∷ more) = elim (Option-cases (split_crlf buffer)) [
  | inr (parts, h) ↦ found-Refines c buffer parts (interrupted ∷ more) h
  | inl h ↦
      rw (receive_interrupted c buffer h more, append-nil buffer, h)
        (stops os_error more buffer (inr refl))
]
receive-Refines c buffer (chunk [] ∷ more) = elim (Option-cases (split_crlf buffer)) [
  | inr (parts, h) ↦ found-Refines c buffer parts (chunk [] ∷ more) h
  | inl h ↦
      rw (receive_closed c buffer h more, append-nil buffer, h)
        (stops closed more buffer (inl refl))
]
receive-Refines c buffer (chunk (d ∷ bytes) ∷ more) = elim (Option-cases (split_crlf buffer)) [
  | inr (parts, h) ↦ found-Refines c buffer parts (chunk (d ∷ bytes) ∷ more) h
  | inl h ↦
      rw
        (receive_more c buffer h d bytes more, sym (append_assoc buffer (d ∷ bytes) (content more)))
        (receive-Refines c (buffer ++ d ∷ bytes) more)
]

-- On an open connection `_read_until` splits what the server sent, in whatever pieces it arrives,
-- before the first CR LF: it returns the bytes before it and leaves those after it. It raises an
-- `OSError`, or that the connection is closed, exactly where there is no CR LF.
pub read_until-Refines :
    (c : Connection) (arrivals : List Arrival) (buffer : Bytes)
    → let c' = connected c arrivals buffer in Refines c' (read_until c') (split_crlf (stream c'))
unfolding read_until
read_until-Refines c arrivals buffer = receive-Refines (connected c arrivals buffer) buffer arrivals

-- A line that the server has sent is read.
abbrev pub IsReadAs : Connection → Exchange Bytes → Bytes → Bytes → Type 0
IsReadAs c e line rest =
    (left : List Arrival) × (buffer : Bytes) × (e ≡ got line (connected c left buffer))
    × (buffer ++ content left ≡ rest)

pub Refines-some :
    (c : Connection) {e : Exchange Bytes} {o : Option (Bytes × Bytes)} (line rest : Bytes)
    → Refines c e o
    → o ≡ some (line, rest)
    → IsReadAs c e line rest
Refines-some c line rest (returns l left buffer r s) h = (left, buffer, cc h, cc (h, s))
Refines-some c line rest (stops fault left buffer why) h = cc h
