-- ===== src/Pop3/Listing.antt =====
-- `uidls` of `_MutationWire` in src/mailarchive/pop3_mutation.py: the reply to `UIDL` as a
-- dictionary, in the order in which its keys were set.
use mathlib.Core.Path.{subst}
use mailarchive.Base.{
  ℕ, ◌<◌, ◌≡◌, ◌≢◌, refl, ap, Bool, true, false, not, ◌&&◌, ◌||◌, Option, none, some, List, [], ◌∷◌,
  ◌++◌, arith, ◌==◌, if◌then◌else◌,
}
use mailarchive.Base.Lists.{All, All-append, any}
use mailarchive.Base.Text.{codes}
use mailarchive.Host.{Bytes}
use mailarchive.Pop3.Octets.{
  split_lines, is_empty, bytes_eq, is_space, fields, is_digit, int_of, is_ascii,
}
use mailarchive.Pop3.Connection.{
  Fault, malformed, ambiguous, int_too_long, Connection, Exchange, got, failed, ◌>>=◌, Sockets,
  multiline,
}

abbrev pub Entry : Type 0
Entry = ℕ × Bytes

pub record Uidls : Type 0 where
  pub result : List Entry
  pub seen : List Bytes

pub data Parsed : Type 0 where
  parsed : Uidls → Parsed
  refused : Fault → Parsed

-- `number in result`, `uidl in seen`
abbrev pub has_number : ℕ → List Entry → Bool
has_number number = any (λ e. number == e.0)

abbrev pub has_uidl : Bytes → List Bytes → Bool
has_uidl uidl = any (bytes_eq uidl)

unfoldable pub add_entry : Uidls → ℕ → Bytes → Parsed
add_entry u number uidl =
    if is_empty uidl || any is_space uidl || has_number number u.result || has_uidl uidl u.seen
    then refused ambiguous
    else parsed (record { result = u.result ++ (number, uidl) ∷ []; seen = uidl ∷ u.seen })

unfoldable pub add_number : Uidls → Option ℕ → Bytes → Parsed
unfolding add_entry
add_number u none uidl = refused int_too_long
add_number u (some number) uidl =
    if number == 0
    then refused malformed
    else if not (is_ascii uidl)
    then refused malformed
    else add_entry u number uidl

unfoldable pub add_fields : Uidls → List Bytes → Parsed
unfolding add_number
add_fields u (number ∷ uidl ∷ []) =
    if not (is_digit number) then refused malformed else add_number u (int_of number) uidl
add_fields u _ = refused malformed

unfoldable pub add_line : Uidls → Bytes → Parsed
unfolding add_fields
add_line u line = if is_empty line then parsed u else add_fields u (fields line)

unfoldable pub add_lines : Uidls → List Bytes → Parsed
unfolding add_line
add_lines u [] = parsed u
add_lines u (line ∷ lines) = elim (add_line u line) [
  | parsed u' ↦ add_lines u' lines
  | refused fault ↦ refused fault
]

abbrev no_entries : List Entry → Bool
no_entries [] = true
no_entries (e ∷ es) = false

checked : Bytes → Parsed → Parsed
checked reply (refused fault) = refused fault
checked reply (parsed u) =
    if no_entries u.result && not (is_empty reply) then refused malformed else parsed u

unfoldable pub parse_uidls : Bytes → Parsed
unfolding add_lines checked
parse_uidls reply =
    checked reply (add_lines (record { result = []; seen = [] }) (split_lines reply))

unfoldable pub uidls : Sockets → Connection → Exchange (List Entry)
unfolding parse_uidls
uidls net c = multiline net (codes "UIDL") c >>= λ reply c'. elim (parse_uidls reply) [
  | parsed u ↦ got u.result c'
  | refused fault ↦ failed fault c'
]

abbrev pub IsApart : Entry → Entry → Type 0
IsApart e f = (e.0 ≢ f.0) × (e.1 ≢ f.1)

abbrev pub AllApart : List Entry → Type 0
AllApart [] = Unit
AllApart (e ∷ es) = All (λ f. IsApart f e) es × AllApart es

-- What a name of a message and its number are.
pub record IsEntry (e : Entry) : Type 0 where
  pub positive : 0 < e.0
  pub named : is_empty e.1 ≡ false
  pub unspaced : any is_space e.1 ≡ false
  pub ascii : is_ascii e.1 ≡ true

pub record IsListing (entries : List Entry) : Type 0 where
  pub each : All IsEntry entries
  pub apart : AllApart entries

bytes_eq_self : (a : Bytes) → bytes_eq a a ≡ true
unfolding bytes_eq
bytes_eq_self [] = refl
bytes_eq_self (c ∷ a) = ground (arith, bytes_eq_self a)

AllApart-append :
    (es : List Entry) (e : Entry)
    → AllApart es
    → All (λ f. IsApart e f) es
    → AllApart (es ++ e ∷ [])
AllApart-append [] e h k = (tt, tt)
AllApart-append (f ∷ es) e h k =
    (All-append (λ g. IsApart g f) es (e ∷ []) h.0 (k.0, tt), AllApart-append es e h.1 k.1)

-- `seen` has every UIDL of `result`.
abbrev Seen : Uidls → Type 0
Seen u = All (λ e. has_uidl e.1 u.seen ≡ true) u.result

pub record IsGood (u : Uidls) : Type 0 where
  pub listing : IsListing u.result
  pub seen_all : Seen u

abbrev IsSound : Parsed → Type 0
IsSound (parsed u) = IsGood u
IsSound (refused fault) = Unit

new-IsApart :
    (number : ℕ) (uidl : Bytes) (seen : List Bytes) (es : List Entry)
    → has_number number es ≡ false
    → has_uidl uidl seen ≡ false
    → All (λ e. has_uidl e.1 seen ≡ true) es
    → All (λ f. IsApart (number, uidl) f) es
new-IsApart number uidl seen [] h k s = tt
new-IsApart number uidl seen (e ∷ es) h k s = (
  (λ same. grind (arith, same, h), λ same. cc (ap (λ x. has_uidl x seen) same, s.0, k)),
  new-IsApart number uidl seen es (ground (arith, h)) k s.1,
)

more_seen :
    (uidl : Bytes) (seen : List Bytes) (es : List Entry)
    → All (λ e. has_uidl e.1 seen ≡ true) es
    → All (λ e. has_uidl e.1 (uidl ∷ seen) ≡ true) es
more_seen uidl seen [] s = tt
more_seen uidl seen (e ∷ es) s = (grind (arith, s.0), more_seen uidl seen es s.1)

if-IsSound :
    (b : Bool) (p q : Parsed)
    → (b ≡ true → IsSound p)
    → (b ≡ false → IsSound q)
    → IsSound (if b then p else q)
if-IsSound true p q h k = h refl
if-IsSound false p q h k = k refl

none_true :
    (a b c d : Bool)
    → a || b || c || d ≡ false
    → (a ≡ false) × (b ≡ false) × (c ≡ false) × (d ≡ false)
none_true a b c d h = ground arith

add_entry-IsSound :
    (u : Uidls) (number : ℕ) (uidl : Bytes)
    → IsGood u
    → number == 0 ≡ false
    → is_ascii uidl ≡ true
    → IsSound (add_entry u number uidl)
unfolding add_entry
add_entry-IsSound u number uidl good nonzero ascii =
    if-IsSound tests (refused ambiguous) _ (λ _. tt)
      λ clear.
        let (no_name, no_space, no_number, no_uidl) =
          none_true (is_empty uidl) (any is_space uidl) (has_number number u.result)
            (has_uidl uidl u.seen) clear in
        record {
          listing = record {
            each = All-append IsEntry u.result ((number, uidl) ∷ []) good.listing.each (
              record {
                positive = grind (arith, nonzero);
                named = no_name;
                unspaced = no_space;
                ascii = ascii;
              },
              tt,
            );
            apart =
                AllApart-append u.result (number, uidl) good.listing.apart
                  (new-IsApart number uidl u.seen u.result no_number no_uidl good.seen_all);
          };
          seen_all =
              All-append (λ e. has_uidl e.1 (uidl ∷ u.seen) ≡ true) u.result ((number, uidl) ∷ [])
                (more_seen uidl u.seen u.result good.seen_all) (rw (bytes_eq_self uidl) refl, tt);
        }
  where
    tests : Bool
    tests = is_empty uidl || any is_space uidl || has_number number u.result || has_uidl uidl u.seen

add_number-IsSound :
    (u : Uidls) (number : Option ℕ) (uidl : Bytes) → IsGood u → IsSound (add_number u number uidl)
unfolding add_number
add_number-IsSound u none uidl good = tt
add_number-IsSound u (some number) uidl good =
    if-IsSound (number == 0) (refused malformed) _ (λ _. tt)
      λ nonzero.
        if-IsSound (not (is_ascii uidl)) (refused malformed) _ (λ _. tt)
          λ ascii. add_entry-IsSound u number uidl good nonzero (ground (arith, ascii))

add_fields-IsSound : (u : Uidls) (parts : List Bytes) → IsGood u → IsSound (add_fields u parts)
unfolding add_fields
add_fields-IsSound u [] good = tt
add_fields-IsSound u (number ∷ []) good = tt
add_fields-IsSound u (number ∷ uidl ∷ []) good =
    if-IsSound (not (is_digit number)) (refused malformed) _ (λ _. tt)
      λ _. add_number-IsSound u (int_of number) uidl good
add_fields-IsSound u (number ∷ uidl ∷ more ∷ parts) good = tt

add_line-IsSound : (u : Uidls) (line : Bytes) → IsGood u → IsSound (add_line u line)
unfolding add_line
add_line-IsSound u line good =
    if-IsSound (is_empty line) (parsed u) _ (λ _. good) λ _. add_fields-IsSound u (fields line) good

add_lines-IsSound : (u : Uidls) (lines : List Bytes) → IsGood u → IsSound (add_lines u lines)
unfolding add_lines
add_lines-IsSound u [] good = good
add_lines-IsSound u (line ∷ lines) good =
    further (add_line u line) (add_line-IsSound u line good)
      (λ u' sound. add_lines-IsSound u' lines sound)
  where
    further :
        (p : Parsed)
        → IsSound p
        → ((u' : Uidls) → IsGood u' → IsSound (add_lines u' lines))
        → IsSound (elim p [ parsed u' ↦ add_lines u' lines | refused fault ↦ refused fault ])
    further (parsed u') sound rest = rest u' sound
    further (refused fault) sound rest = tt

checked-IsSound : (reply : Bytes) (p : Parsed) → IsSound p → IsSound (checked reply p)
unfolding checked
checked-IsSound reply (refused fault) sound = tt
checked-IsSound reply (parsed u) sound =
    if-IsSound (no_entries u.result && not (is_empty reply)) (refused malformed) (parsed u)
      (λ _. tt) (λ _. sound)

parse_uidls-IsSound : (reply : Bytes) → IsSound (parse_uidls reply)
unfolding parse_uidls
parse_uidls-IsSound reply =
    checked-IsSound reply (add_lines blank (split_lines reply))
      (add_lines-IsSound blank (split_lines reply) start)
  where
    blank : Uidls
    blank = record { result = []; seen = [] }

    start : IsGood blank
    start = record { listing = record { each = tt; apart = tt }; seen_all = tt }

IsListed : Exchange (List Entry) → Type 0
IsListed (got entries c) = IsListing entries
IsListed (failed fault c) = Unit

parsed-IsListed :
    (p : Parsed) (c : Connection)
    → IsSound p
    → IsListed (elim p [ parsed u ↦ got u.result c | refused fault ↦ failed fault c ])
unfolding IsListed
parsed-IsListed (parsed u) c sound = sound.listing
parsed-IsListed (refused fault) c sound = tt

uidls-IsListed : (net : Sockets) (c : Connection) → IsListed (uidls net c)
unfolding uidls IsListed
uidls-IsListed net c = after (multiline net (codes "UIDL") c)
  where
    after :
        (e : Exchange Bytes)
        → IsListed (
            e >>= λ reply c'. elim (parse_uidls reply) [
              | parsed u ↦ got u.result c'
              | refused fault ↦ failed fault c'
            ])
    after (got reply d) = parsed-IsListed (parse_uidls reply) d (parse_uidls-IsSound reply)
    after (failed fault d) = tt

-- What `uidls` returns has only positive numbers, and UIDLs that are not empty and are
-- ASCII without a space; no two of its messages have one number, and no two have one UIDL.
pub uidls-IsListing :
    (net : Sockets) (c d : Connection) (entries : List Entry)
    → uidls net c ≡ got entries d
    → IsListing entries
unfolding IsListed
uidls-IsListing net c d entries h = subst IsListed h (uidls-IsListed net c)
