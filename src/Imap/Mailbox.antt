-- ===== src/Imap/Mailbox.antt =====
-- `encode_mailbox_name` and `credential_variable` of src/mailarchive/imap.py, on code points.
use mailarchive.Base.{
  ℕ, ◌≡◌, refl, Bool, true, false, not, ◌&&◌, ◌||◌, Option, none, some, [], ◌∷◌, ◌++◌, arith, ◌==◌,
  leb, if◌then◌else◌,
}
use mailarchive.Base.Lists.{any, all}
use mailarchive.Base.Text.{codes}
use mailarchive.Host.{Bytes}
use mailarchive.Pop3.Octets.{is_empty, is_ascii}
use mailarchive.Imap.{Read, value, imap_error, after}

-- `text.replace(found, instead)` for one character
unfoldable pub replace : ℕ → Bytes → Bytes → Bytes
replace found instead [] = []
replace found instead (c ∷ text) =
    let rest = replace found instead text in if c == found then instead ++ rest else c ∷ rest

abbrev pub is_forbidden : ℕ → Bool
is_forbidden c = c == 0 || c == 13 || c == 10

unfoldable pub encode_mailbox_name : Bytes → Read Bytes
unfolding replace
encode_mailbox_name folder =
    if is_empty folder || not (is_ascii folder) || any is_forbidden folder
    then imap_error
    else value (
        b'"' ∷ replace b'"' (b'\\' ∷ b'"' ∷ []) (replace b'\\' (b'\\' ∷ b'\\' ∷ []) folder)
        ++ b'"' ∷ [])

-- `[A-Z_][A-Z0-9_]*\Z`
starts_name : ℕ → Bool
starts_name c = (leb b'A' c && leb c b'Z') || c == b'_'

continues_name : ℕ → Bool
unfolding starts_name
continues_name c = starts_name c || (leb b'0' c && leb c b'9')

is_name : Bytes → Bool
unfolding starts_name continues_name
is_name [] = false
is_name (c ∷ text) = starts_name c && all continues_name text

unfoldable pub credential_variable : Bytes → Read Bytes
unfolding is_name after
credential_variable reference = elim (after (codes "env:") reference) [
  | none ↦ imap_error
  | some name ↦ if is_name name then value name else imap_error
]

-- RFC 3501, `quoted`: what a server reads in a quoted string; `none` where it is not closed, and
-- where something follows it.
unfoldable pub read_quoted : Bool → Bytes → Option Bytes
read_quoted escaped [] = none
read_quoted true (c ∷ text) = elim (read_quoted false text) [
  | some rest ↦ some (c ∷ rest)
  | none ↦ none
]
read_quoted false (c ∷ text) =
    let plain = read_quoted false text in
    let next = read_quoted true text in
    if c == b'"'
    then (if is_empty text then some [] else none)
    else if c == b'\\'
    then next
    else elim plain [ some rest ↦ some (c ∷ rest) | none ↦ none ]

abbrev pub quoted_content : Bytes → Option Bytes
quoted_content [] = none
quoted_content (c ∷ text) = let rest = read_quoted false text in if c == b'"' then rest else none

read-replace :
    (folder : Bytes)
    → read_quoted false
        (replace b'"' (b'\\' ∷ b'"' ∷ []) (replace b'\\' (b'\\' ∷ b'\\' ∷ []) folder) ++ b'"' ∷ [])
      ≡ some folder
unfolding read_quoted replace
read-replace [] = refl
read-replace (c ∷ folder) = ground (arith, read-replace folder)

is_forbidden-replace :
    (folder : Bytes)
    → any is_forbidden folder ≡ false
    → any is_forbidden
        (replace b'"' (b'\\' ∷ b'"' ∷ []) (replace b'\\' (b'\\' ∷ b'\\' ∷ []) folder) ++ b'"' ∷ [])
      ≡ false
unfolding replace
is_forbidden-replace [] h = refl
is_forbidden-replace (c ∷ folder) h = ground (arith, is_forbidden-replace folder)

allowed :
    (a b c : Bool) (v w : Bytes)
    → (if a || b || c then imap_error else value v) ≡ value w
    → (c ≡ false) × (v ≡ w)
allowed a b c v w h = ground arith

-- A mailbox name that is encoded is read back by a server as the same name, and the quoted string
-- has no CR, LF or NUL.
pub quoted_content-encode_mailbox_name :
    (folder quoted : Bytes)
    → encode_mailbox_name folder ≡ value quoted
    → (quoted_content quoted ≡ some folder) × (any is_forbidden quoted ≡ false)
unfolding encode_mailbox_name
quoted_content-encode_mailbox_name folder quoted h =
    let (clean, e) =
      allowed (is_empty folder) (not (is_ascii folder)) (any is_forbidden folder) _ quoted h in
    rw⁻¹ e (read-replace folder, is_forbidden-replace folder clean)
