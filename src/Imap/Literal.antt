-- ===== src/Imap/Literal.antt =====
-- What `parse_fetch_response` of src/mailarchive/imap.py accepts.
use mathlib.Core.Path.{subst}
use mailarchive.Base.{
  ℕ, ◌≡◌, refl, ap, ◌↔◌, Bool, true, false, List, [], ◌∷◌, ◌==◌, ==_iff, ==_self,
}
use mailarchive.Base.Lists.{length}
use mailarchive.Host.{Bytes}
use mailarchive.Imap.{
  octets, no_octets, Item, fragment, pair, tuple, nothing, other, Read, value, imap_error,
  other_error, ◌>>=◌, find_uids, find_bodies,
}
use mailarchive.Imap.Response.{is_closing, sole, read_pair, read_items, only, parse_fetch_response}

-- The literals of a response for one UID: every piece is a closing parenthesis, or a literal whose
-- metadata names this UID once and announces its length once.
pub data IsResponse (uid : ℕ) : List Item → List Bytes → Type 0 where
  ended : IsResponse uid [] []
  closing :
      (bytes : Bytes) {items : List Item} {raws : List Bytes}
      → is_closing bytes ≡ true
      → IsResponse uid items raws
      → IsResponse uid (fragment bytes ∷ items) raws
  literal :
      (metadata raw : Bytes) {items : List Item} {raws : List Bytes}
      → sole (find_bodies metadata) ≡ value (length raw)
      → sole (find_uids metadata) ≡ value uid
      → IsResponse uid items raws
      → IsResponse uid (pair (octets metadata) (octets raw) ∷ items) (raw ∷ raws)

pub bound :
    {A B : Type 0} (first : Read A) (rest : A → Read B) {b : B}
    → (first >>= rest) ≡ value b
    → (a : A) × (first ≡ value a) × (rest a ≡ value b)
bound (value a) rest h = (a, refl, h)
bound imap_error rest h = cc h
bound other_error rest h = cc h

passed :
    {A : Type 0} (b : Bool) (next : Read A) {w : A}
    → ◌≡◌ {A = Read A} (elim b [ false ↦ imap_error | true ↦ next ]) (value w)
    → (b ≡ true) × (next ≡ value w)
passed true next h = (refl, h)
passed false next h = cc h

value-injective : {A : Type 0} {a b : A} → value a ≡ value b → a ≡ b
value-injective h = cc h

read_pair-literal :
    (uid : ℕ) (metadata content raw : Bytes)
    → read_pair uid (octets metadata) (octets content) ≡ value raw
    → (content ≡ raw)
      × (sole (find_bodies metadata) ≡ value (length content))
      × (sole (find_uids metadata) ≡ value uid)
unfolding read_pair
read_pair-literal uid metadata content raw h =
    let (announced, e, k) = bound (sole (find_bodies metadata)) _ h in
    let (fits, k) = passed (length content == announced) _ k in
    let (found, f, k) = bound (sole (find_uids metadata)) _ k in
    let (same, k) = passed (found == uid) _ k in
    (
      value-injective k,
      rw ((==_iff (length content) announced).0 fits) e,
      rw⁻¹ ((==_iff found uid).0 same) f,
    )

literal-read_pair :
    (uid : ℕ) (metadata raw : Bytes)
    → sole (find_bodies metadata) ≡ value (length raw)
    → sole (find_uids metadata) ≡ value uid
    → read_pair uid (octets metadata) (octets raw) ≡ value raw
unfolding read_pair
literal-read_pair uid metadata raw e f = cc (e, ==_self (length raw), f, ==_self uid)

read_items-IsResponse :
    (uid : ℕ) (items : List Item) (raws : List Bytes)
    → read_items uid items ≡ value raws
    → IsResponse uid items raws
unfolding read_items
read_items-IsResponse uid [] raws h = subst (IsResponse uid []) (value-injective h) ended
read_items-IsResponse uid (fragment bytes ∷ items) raws h =
    let (closes, k) = passed (is_closing bytes) (read_items uid items) h in
    closing bytes closes (read_items-IsResponse uid items raws k)
read_items-IsResponse uid (pair (octets metadata) (octets content) ∷ items) raws h =
    let (raw, e, k) = bound (read_pair uid (octets metadata) (octets content)) _ h in
    let (matches, f, k) = bound (read_items uid items) _ k in
    let (same, announced, named) = read_pair-literal uid metadata content raw e in
    subst (IsResponse uid (pair (octets metadata) (octets content) ∷ items))
      (cc (same, value-injective k))
      (literal metadata content announced named (read_items-IsResponse uid items matches f))
read_items-IsResponse uid (pair (octets metadata) no_octets ∷ items) raws h = cc h
read_items-IsResponse uid (pair no_octets content ∷ items) raws h = cc h
read_items-IsResponse uid (tuple ∷ items) raws h = cc h
read_items-IsResponse uid (nothing ∷ items) raws h = cc h
read_items-IsResponse uid (other ∷ items) raws h = cc h

IsResponse-read_items :
    (uid : ℕ) {items : List Item} {raws : List Bytes}
    → IsResponse uid items raws
    → read_items uid items ≡ value raws
unfolding read_items
IsResponse-read_items uid ended = refl
IsResponse-read_items uid (closing bytes closes more) = cc (closes, IsResponse-read_items uid more)
IsResponse-read_items uid (literal metadata raw announced named more) =
    rw (literal-read_pair uid metadata raw announced named, IsResponse-read_items uid more) refl

only-one : (raws : List Bytes) (raw : Bytes) → only raws ≡ value raw → raws ≡ raw ∷ []
only-one [] raw h = cc h
only-one (first ∷ []) raw h = ap (λ r. r ∷ []) (value-injective h)
only-one (first ∷ second ∷ raws) raw h = cc h

-- `parse_fetch_response` returns some bytes exactly where the response consists of closing
-- parentheses and one literal, these bytes, whose metadata names the requested UID once, and no
-- other, and announces the length of the literal once.
pub parse_fetch_response_iff :
    (uid : ℕ) (items : List Item) (raw : Bytes)
    → (parse_fetch_response uid items ≡ value raw) ↔ IsResponse uid items (raw ∷ [])
unfolding parse_fetch_response
parse_fetch_response_iff uid items raw = (
  λ h.
      let (raws, e, k) = bound (read_items uid items) only h in
      subst (IsResponse uid items) (only-one raws raw k) (read_items-IsResponse uid items raws e),
  λ h. rw (IsResponse-read_items uid h) refl,
)
