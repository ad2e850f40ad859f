-- ===== src/Archive/Files.antt =====
-- The files that src/mailarchive/ingest.py writes and reads: a path has a regular file with its
-- bytes, something else, or nothing.
use mailarchive.Base.{
  ◌≡◌, ◌≢◌, refl, not, Option, none, some, String, List, [], ◌∷◌, arith, str_eq, eq_iff,
  str_eq_refl, if◌then◌else◌,
}
use mailarchive.Base.Lists.{filter}
use mailarchive.Host.{Bytes}

pub data Node : Type 0 where
  file : Bytes → Node
  other : Node

abbrev pub Files : Type 0
Files = List (String × Node)

unfoldable pub lookup : String → Files → Option Node
lookup path [] = none
lookup path (entry ∷ files) =
    let rest = lookup path files in if str_eq entry.0 path then some entry.1 else rest

unfoldable pub put : String → Node → Files → Files
put path node files = (path, node) ∷ files

-- `unlink`
unfoldable pub remove : String → Files → Files
remove path = filter (λ entry. not (str_eq entry.0 path))

pub lookup-put_self :
    (path : String) (node : Node) (files : Files) → lookup path (put path node files) ≡ some node
unfolding lookup put
lookup-put_self path node files = ground (arith, str_eq_refl path)

pub lookup-put_other :
    (path wanted : String) (node : Node) (files : Files)
    → path ≢ wanted
    → lookup wanted (put path node files) ≡ lookup wanted files
unfolding lookup put
lookup-put_other path wanted node files differ = ground (arith, eq_iff path wanted)

pub lookup-remove_self : (path : String) (files : Files) → lookup path (remove path files) ≡ none
unfolding lookup remove
lookup-remove_self path [] = refl
lookup-remove_self path (entry ∷ files) = ground (arith, lookup-remove_self path files)

pub lookup-remove_other :
    (path wanted : String) (files : Files)
    → path ≢ wanted
    → lookup wanted (remove path files) ≡ lookup wanted files
unfolding lookup remove
lookup-remove_other path wanted [] differ = refl
lookup-remove_other path wanted (entry ∷ files) differ = ground (
  arith,
  eq_iff entry.0 path,
  eq_iff entry.0 wanted,
  lookup-remove_other path wanted files differ,
)
