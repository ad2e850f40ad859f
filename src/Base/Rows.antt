-- ===== src/Base/Rows.antt =====
-- A table as a list of rows in `id` order: `UPDATE … WHERE`, and what it leaves alone.
use Prim.Native.Nat.{suc, ◌≤◌, ◌<◌}
use mathlib.Core.Path.{◌≡◌, refl, ap}
use mathlib.Core.Bool.{Bool, true, false}
use mathlib.Core.List.{List, [], ◌∷◌}
use mathlib.Core.Option.{some}
use native.Mathlib.Omega.{arith}
use mailarchive.Base.Lists.{length, find, count}

module _ {ℓ} {A : Type ℓ} where
  -- `UPDATE rows SET f WHERE p`
  abbrev pub update_where : (A → Bool) → (A → A) → List A → List A
  update_where p f [] = []
  update_where p f (x ∷ xs) = elim (p x) [ true ↦ f x | false ↦ x ] ∷ update_where p f xs

  pub length-update_where :
      (p : A → Bool) (f : A → A) (xs : List A) → length (update_where p f xs) ≡ length xs
  length-update_where p f [] = refl
  length-update_where p f (x ∷ xs) = ap suc (length-update_where p f xs)

  -- The updated row is found where the row was, if the update keeps the key.
  pub find-update_where :
      (p : A → Bool) (f : A → A) (xs : List A) (x : A)
      → ((y : A) → p (f y) ≡ p y)
      → find p xs ≡ some x
      → find p (update_where p f xs) ≡ some (f x)
  find-update_where p f [] x keep h = cc
  find-update_where p f (y ∷ ys) x keep h = ground (arith, keep y, find-update_where p f ys x keep)

  pub count-update_where-le :
      (p q : A → Bool) (f : A → A) (xs : List A)
      → ((y : A) → p (f y) ≡ false)
      → count p (update_where q f xs) ≤ count p xs
  count-update_where-le p q f [] ends = omega arith
  count-update_where-le p q f (y ∷ ys) ends =
      ground (arith, ends y, count-update_where-le p q f ys ends)

  -- An update that ends `p` for a row that has it lowers the count.
  pub count-update_where-lt :
      (p q : A → Bool) (f : A → A) (xs : List A) (x : A)
      → ((y : A) → p (f y) ≡ false)
      → find p xs ≡ some x
      → q x ≡ true
      → count p (update_where q f xs) < count p xs
  count-update_where-lt p q f [] x ends h k = cc
  count-update_where-lt p q f (y ∷ ys) x ends h k =
      ground
        (arith, ends y, count-update_where-le p q f ys ends, count-update_where-lt p q f ys x ends)
