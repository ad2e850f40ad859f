-- ===== src/Pop3/Ends.antt =====
-- The fuel for the loop of the wire of src/mailarchive/pop3_mutation.py is enough, on a socket that
-- ends.
use mailarchive.Base.{
  ℕ, zero, suc, ◌+◌, ◌≤◌, ◌<◌, ◌≡◌, ◌≢◌, ap, Bool, true, false, Option, none, some, List, [], ◌∷◌,
  ◌++◌, arith, inl, inr, Option-cases, if◌then◌else◌, ◌==◌, ◌||◌, not,
}
use mailarchive.Base.Lists.{length, length-append, any}
use mailarchive.Host.{Bytes}
use mailarchive.Pop3.Octets.{
  crlf, split_crlf, after_crlf, bytes_eq, is_ascii, starts_with, first_word,
}
use mailarchive.Pop3.Connection.{
  Arrival, chunk, interrupted, exhausted, Connection, Exchange, got, failed, receive, receive_on,
  ◌>>=◌, read_until, positive_line, wire_line, collect, unstuffed, arriving, pending, Sockets,
  command, multiline, send, command_on,
}
use mailarchive.Pop3.Stream.{
  receive_found, receive_ended, receive_interrupted, receive_closed, receive_more,
}

-- What is left after a step that read from `n` bytes, or a fault of the code.
abbrev IsShorter : {A : Type 0} → ℕ → Exchange A → Type 0
IsShorter n (got value c) = pending c < n
IsShorter n (failed fault c) = fault ≢ exhausted

abbrev IsEnded : {A : Type 0} → Exchange A → Type 0
IsEnded (got value c) = Unit
IsEnded (failed fault c) = fault ≢ exhausted

after_crlf-length :
    (c d : ℕ) (bytes after : Bytes)
    → after_crlf c (d ∷ bytes) ≡ some after
    → length after ≡ length bytes
unfolding after_crlf
after_crlf-length c d bytes after h = ground arith

IsShorter-le : {A : Type 0} {m n : ℕ} (e : Exchange A) → IsShorter m e → m ≤ n → IsShorter n e
IsShorter-le (got value c) h k = omega (arith, h, k)
IsShorter-le (failed fault c) h k = h

IsEnded-elim :
    {A : Type 0} (b : Bool) (x y : Exchange A)
    → IsEnded x
    → IsEnded y
    → IsEnded (elim b [ true ↦ x | false ↦ y ])
IsEnded-elim true x y h k = h
IsEnded-elim false x y h k = k

IsEnded-if :
    {A : Type 0} (b : Bool) (x y : Exchange A)
    → IsEnded x
    → IsEnded y
    → IsEnded (if b then x else y)
IsEnded-if true x y h k = h
IsEnded-if false x y h k = k

split_crlf-lt :
    (bytes : Bytes) (parts : Bytes × Bytes)
    → split_crlf bytes ≡ some parts
    → length parts.1 < length bytes
unfolding split_crlf after_crlf
split_crlf-lt [] parts h = cc h
split_crlf-lt (c ∷ []) parts h = cc h
split_crlf-lt (c ∷ d ∷ bytes) parts h = elim (Option-cases (after_crlf c (d ∷ bytes))) [
  | inr (after, e) ↦
      let e' : length after ≡ length bytes = after_crlf-length c d bytes after e in
      let s : after ≡ parts.1 = cc (e, h) in omega (arith, e', ap length s)
  | inl e ↦ elim (Option-cases (split_crlf (d ∷ bytes))) [
    | inr (later, f) ↦
        let s : later.1 ≡ parts.1 = cc (e, f, h) in
        omega (arith, split_crlf-lt (d ∷ bytes) later f, ap length s)
    | inl f ↦ cc (e, f, h)
  ]
]

receive-IsShorter :
    (c : Connection) (buffer : Bytes) (arrivals : List Arrival)
    → IsShorter (length buffer + arriving arrivals) (receive c buffer arrivals)
unfolding pending arriving
receive-IsShorter c buffer [] = elim (Option-cases (split_crlf buffer)) [
  | inr (parts, h) ↦
      rw (receive_found c buffer parts [] h) (omega (arith, split_crlf-lt buffer parts h))
  | inl h ↦ rw (receive_ended c buffer h) (λ e. cc e)
]
receive-IsShorter c buffer (interrupted ∷ more) = elim (Option-cases (split_crlf buffer)) [
  | inr (parts, h) ↦
      rw (receive_found c buffer parts (interrupted ∷ more) h)
        (omega (arith, split_crlf-lt buffer parts h))
  | inl h ↦ rw (receive_interrupted c buffer h more) (λ e. cc e)
]
receive-IsShorter c buffer (chunk [] ∷ more) = elim (Option-cases (split_crlf buffer)) [
  | inr (parts, h) ↦
      rw (receive_found c buffer parts (chunk [] ∷ more) h)
        (omega (arith, split_crlf-lt buffer parts h))
  | inl h ↦ rw (receive_closed c buffer h more) (λ e. cc e)
]
receive-IsShorter c buffer (chunk (d ∷ bytes) ∷ more) = elim (Option-cases (split_crlf buffer)) [
  | inr (parts, h) ↦
      rw (receive_found c buffer parts (chunk (d ∷ bytes) ∷ more) h)
        (omega (arith, split_crlf-lt buffer parts h))
  | inl h ↦ rw (receive_more c buffer h d bytes more) (
      IsShorter-le (receive c (buffer ++ d ∷ bytes) more)
        (receive-IsShorter c (buffer ++ d ∷ bytes) more)
        (omega (arith, length-append buffer (d ∷ bytes))))
]

receive_on-IsShorter :
    (s : Option (List Arrival)) (c : Connection)
    → IsShorter
        (length c.buffer + elim s [ none ↦ 0 | some arrivals ↦ arriving arrivals ])
        (receive_on s c)
unfolding receive_on
receive_on-IsShorter none c = λ e. cc e
receive_on-IsShorter (some arrivals) c = receive-IsShorter c c.buffer arrivals

>>=-IsShorter :
    {A B : Type 0} (n : ℕ) (e : Exchange A) (f : A → B)
    → IsShorter n e
    → IsShorter n (e >>= λ value c. got (f value) c)
>>=-IsShorter n (got value c) f h = h
>>=-IsShorter n (failed fault c) f h = h

wire_line-IsShorter : (c : Connection) → IsShorter (pending c) (wire_line c)
unfolding wire_line read_until pending
wire_line-IsShorter c =
    >>=-IsShorter (pending c) (receive_on c.sock c) (λ line. line ++ crlf)
      (receive_on-IsShorter c.sock c)

>>=-IsEnded :
    {A B : Type 0} (n : ℕ) (e : Exchange A) (rest : A → Connection → Exchange B)
    → IsShorter n e
    → ((value : A) (c : Connection) → pending c < n → IsEnded (rest value c))
    → IsEnded (e >>= rest)
>>=-IsEnded n (got value c) rest h k = k value c h
>>=-IsEnded n (failed fault c) rest h k = h

collect-IsEnded :
    (fuel : ℕ) (result : Bytes) (c : Connection)
    → pending c < fuel
    → IsEnded (collect fuel result c)
unfolding collect
collect-IsEnded zero result c h = grind arith
collect-IsEnded (suc fuel) result c h =
    >>=-IsEnded (pending c) (wire_line c) next (wire_line-IsShorter c) λ line c' less.
      IsEnded-elim (bytes_eq line (b'.' ∷ crlf)) (got result c')
        (collect fuel (result ++ unstuffed line) c') tt
        (collect-IsEnded fuel (result ++ unstuffed line) c' (omega (arith, less, h)))
  where
    next : Bytes → Connection → Exchange Bytes
    next line c' = elim (bytes_eq line (b'.' ∷ crlf)) [
      | true ↦ got result c'
      | false ↦ collect fuel (result ++ unstuffed line) c'
    ]

IsEnded-then :
    {A B : Type 0} (e : Exchange A) (rest : A → Connection → Exchange B)
    → IsEnded e
    → ((value : A) (c : Connection) → IsEnded (rest value c))
    → IsEnded (e >>= rest)
IsEnded-then (got value c) rest h k = k value c
IsEnded-then (failed fault c) rest h k = h

shorter-IsEnded : {A : Type 0} (n : ℕ) (e : Exchange A) → IsShorter n e → IsEnded e
shorter-IsEnded n (got value c) h = tt
shorter-IsEnded n (failed fault c) h = h

read_until-IsEnded : (c : Connection) → IsEnded (read_until c)
unfolding read_until
read_until-IsEnded c =
    shorter-IsEnded (length c.buffer + elim c.sock [ none ↦ 0 | some arrivals ↦ arriving arrivals ])
      (receive_on c.sock c) (receive_on-IsShorter c.sock c)

positive_line-IsEnded : (c : Connection) → IsEnded (positive_line c)
unfolding positive_line
positive_line-IsEnded c =
    IsEnded-then (read_until c) _ (read_until-IsEnded c)
      (λ line c'. IsEnded-if (starts_with (b'+' ∷ b'O' ∷ b'K' ∷ []) line) _ _ tt (λ e. cc e))

command_on-IsEnded :
    (net : Sockets) (s : Option (List Arrival)) (line : Bytes) (c : Connection)
    → IsEnded (command_on net s line c)
unfolding command_on send
command_on-IsEnded net none line c = λ e. cc e
command_on-IsEnded net (some arrivals) line c =
    let noted = record c { commands = net.upper (first_word line) ∷ c.commands } in
    IsEnded-then (send net line noted) _
      (IsEnded-if (not (is_ascii line)) _ _ (λ e. cc e)
        (IsEnded-if (net.sendall noted.written (line ++ crlf)) _ _ tt (λ e. cc e)))
      (λ _ c'. positive_line-IsEnded c')

command-IsEnded : (net : Sockets) (line : Bytes) (c : Connection) → IsEnded (command net line c)
unfolding command
command-IsEnded net line c =
    IsEnded-if (any (λ x. x == 13) line || any (λ x. x == 10) line) _ _ (λ e. cc e)
      (command_on-IsEnded net c.sock line c)

-- The fuel of `_multiline` is enough: of what a socket still holds, no reply, however it is cut,
-- exhausts it, with one round for each byte and one more.
multiline-IsEnded : (net : Sockets) (line : Bytes) (c : Connection) → IsEnded (multiline net line c)
unfolding multiline
multiline-IsEnded net line c =
    IsEnded-then (command net line c) (λ _ c'. collect (suc (pending c')) [] c')
      (command-IsEnded net line c) (λ _ c'. collect-IsEnded (suc (pending c')) [] c' (omega arith))
