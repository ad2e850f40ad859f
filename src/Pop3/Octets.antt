-- ===== src/Pop3/Octets.antt =====
-- The operations on `bytes` that the POP3 wires of src/mailarchive/pop3_mutation.py and
-- src/mailarchive/pop3.py use, for the line end CR LF.
use Prim.Native.Nat.{◌/◌, ◌%◌}
use mailarchive.Base.{
  ℕ, zero, suc, ◌+◌, ◌*◌, ◌-◌, ◌≡◌, Bool, true, false, not, ◌&&◌, ◌||◌, Option, none, some, List,
  [], ◌∷◌, ◌++◌, arith, ◌==◌, Option-cases, inl, inr, ltb, leb, if◌then◌else◌,
}
use mailarchive.Base.Lists.{length, all}
use mailarchive.Host.{Bytes}

abbrev pub crlf : Bytes
crlf = 13 ∷ 10 ∷ []

-- What follows CR LF, where the bytes begin so.
unfoldable pub after_crlf : ℕ → Bytes → Option Bytes
after_crlf c [] = none
after_crlf c (d ∷ rest) = if c == 13 && d == 10 then some rest else none

-- `b"\r\n" not in buffer` is `none`; otherwise `buffer.split(b"\r\n", 1)`.
abbrev pub split_here : Option Bytes → ℕ → Option (Bytes × Bytes) → Option (Bytes × Bytes)
split_here (some after) c later = some ([], after)
split_here none c none = none
split_here none c (some parts) = some (c ∷ parts.0, parts.1)

unfoldable pub split_crlf : Bytes → Option (Bytes × Bytes)
split_crlf [] = none
split_crlf (c ∷ rest) = split_here (after_crlf c rest) c (split_crlf rest)

abbrev onto_first : ℕ → List Bytes → List Bytes
onto_first c [] = (c ∷ []) ∷ []
onto_first c (line ∷ lines) = (c ∷ line) ∷ lines

abbrev without_lf : List Bytes → List Bytes
without_lf ((c ∷ line) ∷ lines) = line ∷ lines
without_lf lines = lines

-- `data.split(b"\r\n")`
unfoldable pub split_lines : Bytes → List Bytes
unfolding after_crlf
split_lines [] = [] ∷ []
split_lines (c ∷ rest) =
    let lines = split_lines rest in
    elim (after_crlf c rest) [ some _ ↦ [] ∷ without_lf lines | none ↦ onto_first c lines ]

abbrev pub is_empty : Bytes → Bool
is_empty [] = true
is_empty (c ∷ bytes) = false

unfoldable pub bytes_eq : Bytes → Bytes → Bool
bytes_eq [] [] = true
bytes_eq (c ∷ left) (d ∷ right) = c == d && bytes_eq left right
bytes_eq _ _ = false

unfoldable pub starts_with : Bytes → Bytes → Bool
starts_with [] bytes = true
starts_with (c ∷ prefix) [] = false
starts_with (c ∷ prefix) (d ∷ bytes) = c == d && starts_with prefix bytes

-- The blanks of `bytes.split()` and `bytes.lstrip()`, and the ASCII ones of `str.isspace`.
unfoldable pub is_blank : ℕ → Bool
is_blank c = c == b' ' || (leb 9 c && leb c 13)

unfoldable pub is_space : ℕ → Bool
unfolding is_blank
is_space c = is_blank c || (leb 28 c && leb c 31)

unfoldable pub lstrip : Bytes → Bytes
lstrip [] = []
lstrip (c ∷ bytes) = let rest = lstrip bytes in if is_blank c then rest else c ∷ bytes

-- `line.split()`; the flag says that a field is being read.
fields_onto : Bool → Bytes → List Bytes
fields_onto inside [] = []
fields_onto inside (c ∷ bytes) =
    let after_blank = fields_onto false bytes in
    let after_byte = fields_onto true bytes in
    if is_blank c
    then (if inside then [] ∷ after_blank else after_blank)
    else elim after_byte [ [] ↦ (c ∷ []) ∷ [] | field ∷ more ↦ (c ∷ field) ∷ more ]

unfoldable pub fields : Bytes → List Bytes
unfolding fields_onto
fields = fields_onto false

abbrev is_digit_byte : ℕ → Bool
is_digit_byte c = leb b'0' c && leb c b'9'

-- `value.isdigit()`
unfoldable pub is_digit : Bytes → Bool
is_digit bytes = not (is_empty bytes) && all is_digit_byte bytes

value_from : ℕ → Bytes → ℕ
value_from total [] = total
value_from total (c ∷ bytes) = value_from (total * 10 + (c - b'0')) bytes

-- `int(value)` on decimal digits; `none` is the `ValueError` for more than 4300 of them.
unfoldable pub int_of : Bytes → Option ℕ
unfolding value_from
int_of bytes = if ltb 4300 (length bytes) then none else some (value_from 0 bytes)

-- `value.isascii()`, and `value.encode("ascii")` where it does not raise
unfoldable pub is_ascii : Bytes → Bool
is_ascii = all (λ c. ltb c 128)

-- `command.split(" ", 1)[0]`
unfoldable pub first_word : Bytes → Bytes
first_word [] = []
first_word (c ∷ bytes) = let rest = first_word bytes in if c == b' ' then [] else c ∷ rest

-- `str(number)`: the last digit is written first, on fuel.
digits_onto : ℕ → ℕ → Bytes → Bytes
digits_onto zero number tail = tail
digits_onto (suc fuel) number tail =
    let more = digits_onto fuel (number / 10) ((b'0' + number % 10) ∷ tail) in
    if ltb number 10 then (b'0' + number) ∷ tail else more

unfoldable pub digits : ℕ → Bytes
unfolding digits_onto
digits number = digits_onto (suc number) number []

-- `line.decode("ascii", "strict")` keeps the bytes, where it does not raise.
pub after_crlf-append :
    (c : ℕ) (bytes more rest : Bytes)
    → after_crlf c bytes ≡ some rest
    → after_crlf c (bytes ++ more) ≡ some (rest ++ more)
unfolding after_crlf
after_crlf-append c [] more rest h = cc
after_crlf-append c (d ∷ bytes) more rest h = ground arith

-- One byte is too few to hold CR LF, so what was split is not empty.
after_crlf-none :
    (c : ℕ) (bytes more : Bytes) (parts : Bytes × Bytes)
    → split_crlf bytes ≡ some parts
    → after_crlf c bytes ≡ none
    → after_crlf c (bytes ++ more) ≡ none
unfolding after_crlf split_crlf
after_crlf-none c [] more parts h k = cc
after_crlf-none c (d ∷ bytes) more parts h k = ground arith

pub split_crlf-append :
    (bytes more : Bytes) (line rest : Bytes)
    → split_crlf bytes ≡ some (line, rest)
    → split_crlf (bytes ++ more) ≡ some (line, rest ++ more)
unfolding split_crlf
split_crlf-append [] more line rest h = cc
split_crlf-append (c ∷ bytes) more line rest h = elim (Option-cases (after_crlf c bytes)) [
  | inr (after, e) ↦ rw (after_crlf-append c bytes more after e) (cc (e, h))
  | inl e ↦ elim (Option-cases (split_crlf bytes)) [
    | inl f ↦ cc (e, f, h)
    | inr (parts, f) ↦
        rw (after_crlf-none c bytes more parts f e, split_crlf-append bytes more parts.0 parts.1 f)
          (cc (e, f, h))
  ]
]
