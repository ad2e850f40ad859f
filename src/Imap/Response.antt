-- ===== src/Imap/Response.antt =====
-- The readers of IMAP responses: `parse_fetch_response` and `_parse_uidvalidity` of
-- src/mailarchive/imap.py, `_capabilities`, `_flags` and `_fetch_observation` of
-- src/mailarchive/imap_mutation.py.
use mailarchive.Base.{
  ℕ, ◌-◌, leb, Bool, true, false, not, ◌&&◌, Option, none, some, List, [], ◌∷◌, ◌++◌, map, ◌==◌,
  if◌then◌else◌,
}
use mailarchive.Base.Lists.{length, any}
use mailarchive.Base.Text.{codes}
use mailarchive.Host.{Bytes}
use mailarchive.Pop3.Octets.{is_empty, is_blank, bytes_eq, lstrip, is_digit, int_of, fields}
use mailarchive.Imap.{
  Field, octets, Item, fragment, pair, nothing, Read, value, imap_error, other_error, ◌>>=◌,
  find_uids, find_bodies, find_flags,
}

rstrip : Bytes → Bytes
rstrip [] = []
rstrip (c ∷ bytes) = let rest = rstrip bytes in if is_empty rest && is_blank c then [] else c ∷ rest

-- `item.strip() == b")"`
unfoldable pub is_closing : Bytes → Bool
unfolding rstrip
is_closing bytes = bytes_eq (rstrip (lstrip bytes)) (b')' ∷ [])

abbrev pub int_read : Option ℕ → Read ℕ
int_read none = other_error
int_read (some n) = value n

-- `int(found[0])` where there is exactly one.
unfoldable pub sole : List Bytes → Read ℕ
sole (found ∷ []) = int_read (int_of found)
sole _ = imap_error

unfoldable pub read_pair : ℕ → Field → Field → Read Bytes
unfolding sole
read_pair requested (octets metadata) (octets literal) =
    sole (find_bodies metadata) >>= λ announced. elim (length literal == announced) [
      | false ↦ imap_error
      | true ↦ sole (find_uids metadata) >>= λ uid. elim (uid == requested) [
        | false ↦ imap_error
        | true ↦ value literal
      ]
    ]
read_pair requested _ _ = imap_error

-- The loop: `matches`.
unfoldable pub read_items : ℕ → List Item → Read (List Bytes)
unfolding read_pair is_closing
read_items requested [] = value []
read_items requested (fragment bytes ∷ items) = elim (is_closing bytes) [
  | true ↦ read_items requested items
  | false ↦ imap_error
]
read_items requested (pair metadata literal ∷ items) =
    read_pair requested metadata literal >>= λ raw.
    read_items requested items >>= λ matches. value (raw ∷ matches)
read_items requested (_ ∷ items) = imap_error

abbrev pub only : List Bytes → Read Bytes
only (raw ∷ []) = value raw
only _ = imap_error

unfoldable pub parse_fetch_response : ℕ → List Item → Read Bytes
unfolding read_items
parse_fetch_response requested items = read_items requested items >>= only

unfoldable pub parse_uidvalidity : List Item → Read ℕ
parse_uidvalidity (fragment bytes ∷ items) =
    if not (is_digit bytes)
    then imap_error
    else int_read (int_of bytes) >>= λ n. if n == 0 then imap_error else value n
parse_uidvalidity _ = imap_error

-- `token.upper()`
unfoldable pub upper_byte : ℕ → ℕ
upper_byte c = if leb b'a' c && leb c b'z' then c - 32 else c

-- `_capabilities`
unfoldable pub capabilities : List Item → Read (List Bytes)
unfolding upper_byte
capabilities [] = value []
capabilities (fragment bytes ∷ items) =
    capabilities items >>= λ values. value (map (map upper_byte) (fields bytes) ++ values)
capabilities (_ ∷ items) = imap_error

-- `_flags`. No value that it splits has a parenthesis, so its second test never fails.
unfoldable pub flags : Bytes → Read (List Bytes)
flags metadata = elim (find_flags metadata) [
  | [] ↦ imap_error
  | found ∷ more ↦ elim more [ [] ↦ value (fields found) | _ ∷ _ ↦ imap_error ]
]

pub record Observed : Type 0 where
  pub raw : Bytes
  pub deleted : Bool

-- `cast(tuple, data[0])[0]`, and `_flags` of it: a byte of a fragment is no `bytes`.
unfoldable pub first_flags : List Item → Read (List Bytes)
unfolding flags
first_flags (pair (octets metadata) literal ∷ items) = flags metadata
first_flags _ = other_error

-- `not data or (len(data) == 1 and data[0] in (None, b""))`
unfoldable pub is_no_match : List Item → Bool
is_no_match [] = true
is_no_match (nothing ∷ []) = true
is_no_match (fragment bytes ∷ []) = is_empty bytes
is_no_match _ = false

-- `_fetch_observation` after its command; `none` is `_Observed(False)`.
unfoldable pub observation : ℕ → List Item → Read (Option Observed)
unfolding is_no_match parse_fetch_response first_flags
observation uid items =
    if is_no_match items
    then value none
    else parse_fetch_response uid items >>= λ raw. first_flags items >>= λ found.
        value (some (record { raw = raw; deleted = any (bytes_eq (codes "\\Deleted")) found }))
