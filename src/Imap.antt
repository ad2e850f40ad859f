-- ===== src/Imap.antt =====
-- Responses of an IMAP server as src/mailarchive/imap.py and src/mailarchive/imap_mutation.py read
-- them: the pieces that `imaplib` returns, and what the regular expressions of the two files find in
-- the metadata of a FETCH response.
pub mod Mailbox
pub mod Response
pub mod Literal
pub mod Delete
pub mod Attempt
pub mod Sends
pub mod Parts
pub mod Once
pub mod Absent
pub mod Honest
use mailarchive.Base.{
  ℕ, Bool, true, false, ◌&&◌, ◌||◌, Option, none, some, List, [], ◌∷◌, ◌==◌, leb, if◌then◌else◌,
}
use mailarchive.Base.Text.{codes}
use mailarchive.Host.{Bytes}
use mailarchive.Pop3.Octets.{is_empty, is_blank}

-- An element of the data of a response: `bytes`, a pair, a tuple of another length, `None`, or
-- anything else. An element of a pair is `bytes` or is not.
pub data Field : Type 0 where
  octets : Bytes → Field
  no_octets : Field

pub data Item : Type 0 where
  fragment : Bytes → Item
  pair : Field → Field → Item
  tuple nothing other : Item

-- What reading a response gives: a value, an `ImapError`, or another exception: the `ValueError` of
-- `int` for more than 4300 digits, or a `TypeError`.
pub data Read (A : Type 0) : Type 0 where
  value : A → Read A
  imap_error other_error : Read A

infixl 5 ◌>>=◌
abbrev pub ◌>>=◌ : {A B : Type 0} → Read A → (A → Read B) → Read B
value a >>= rest = rest a
imap_error >>= rest = imap_error
other_error >>= rest = other_error

-- What follows a prefix.
unfoldable pub after : Bytes → Bytes → Option Bytes
after [] bytes = some bytes
after (c ∷ prefix) [] = none
after (c ∷ prefix) (d ∷ bytes) = let rest = after prefix bytes in if c == d then rest else none

abbrev is_digit_byte : ℕ → Bool
is_digit_byte c = leb b'0' c && leb c b'9'

-- The longest part at the front whose bytes have `p`, and what follows it.
unfoldable pub span : (ℕ → Bool) → Bytes → Bytes × Bytes
span p [] = ([], [])
span p (c ∷ bytes) =
    let rest = span p bytes in if p c then (c ∷ rest.0, rest.1) else ([], c ∷ bytes)

-- `(\d+)`, and `\s+`
digits_then : Bytes → Option (Bytes × Bytes)
unfolding span
digits_then bytes =
    let found = span is_digit_byte bytes in if is_empty found.0 then none else some found

blanks_then : Bytes → Option Bytes
unfolding span
blanks_then bytes =
    let found = span is_blank bytes in if is_empty found.0 then none else some found.1

-- `(?=\s|\))`
ends_uid : Bytes → Bool
ends_uid [] = false
ends_uid (c ∷ bytes) = is_blank c || c == b')'

abbrev bind {ℓ} : {A B : Type ℓ} → Option A → (A → Option B) → Option B
bind none rest = none
bind (some a) rest = rest a

-- `UID\s+(\d+)(?=\s|\))`
uid_here : Bytes → Option Bytes
unfolding after blanks_then digits_then ends_uid
uid_here bytes = bind (after (codes "UID") bytes) λ rest.
    bind (blanks_then rest)
      λ rest. bind (digits_then rest) λ found. if ends_uid found.1 then some found.0 else none

-- `BODY(?:\.PEEK)?\[\]\s+\{(\d+)\}`
brackets : Bytes → Option Bytes
unfolding after
brackets bytes = elim (after (codes ".PEEK[]") bytes) [
  | some rest ↦ some rest
  | none ↦ after (codes "[]") bytes
]

body_here : Bytes → Option Bytes
unfolding after brackets blanks_then digits_then
body_here bytes = bind (after (codes "BODY") bytes) λ rest. bind (brackets rest) λ rest.
    bind (blanks_then rest) λ rest.
      bind (after (codes "{") rest)
        λ rest. bind (digits_then rest) λ found. bind (after (codes "}") found.1) λ _. some found.0

-- `FLAGS \(([^()]*)\)`
flags_here : Bytes → Option Bytes
unfolding after span
flags_here bytes = bind (after (codes "FLAGS (") bytes) λ rest.
    let found = span (λ c. if c == b'(' || c == b')' then false else true) rest in
    bind (after (codes ")") found.1) λ _. some found.0

-- `findall` of a pattern that begins with `^` or a byte that `starts` accepts. Two matches never
-- overlap, since no match has such a byte with the pattern's word after it inside.
findall : (ℕ → Bool) → (Bytes → Option Bytes) → Bool → Bytes → List Bytes
findall starts here allowed [] = []
findall starts here allowed (c ∷ bytes) =
    let rest = findall starts here (starts c) bytes in
    elim (if allowed then here (c ∷ bytes) else none) [ some found ↦ found ∷ rest | none ↦ rest ]

opens : ℕ → Bool
opens c = is_blank c || c == b'('

unfoldable pub find_uids : Bytes → List Bytes
unfolding findall uid_here opens
find_uids = findall opens uid_here true

unfoldable pub find_bodies : Bytes → List Bytes
unfolding findall body_here opens
find_bodies = findall opens body_here true

unfoldable pub find_flags : Bytes → List Bytes
unfolding findall flags_here
find_flags = findall is_blank flags_here true
