-- ===== src/TypeUtil.antt =====
-- include/cercall/details/typeutil.h: lists of types, by recursion as the templates recurse. Where
-- no specialization fits, the program does not compile: `none`.
use cercall.Base.{◌≡◌, refl, ap, ◌∙◌, Option, none, some, List, [], ◌∷◌, ◌++◌, append_assoc}

module _ {Ty : Type 0} where
  -- `last_type_of`
  unfoldable pub last_type_of : List Ty → Option Ty
  last_type_of [] = none
  last_type_of (tail ∷ []) = some tail
  last_type_of (head ∷ next ∷ tail) = last_type_of (next ∷ tail)

  -- `remove_last_type_priv<type_tuple<L...>, M, R...>`: `l` holds the types that stay.
  unfoldable pub remove_last_type_priv : List Ty → List Ty → Option (List Ty)
  remove_last_type_priv l [] = none
  remove_last_type_priv [] (r ∷ []) = some []
  remove_last_type_priv (a ∷ l) (m ∷ []) = none
  remove_last_type_priv l (m ∷ r ∷ []) = some (l ++ m ∷ [])
  remove_last_type_priv l (m ∷ r ∷ s ∷ rest) = remove_last_type_priv (l ++ m ∷ []) (r ∷ s ∷ rest)

  unfoldable pub remove_last_type_of : List Ty → Option (List Ty)
  unfolding remove_last_type_priv
  remove_last_type_of types = remove_last_type_priv [] types

  last_type_of-append : (xs : List Ty) (x : Ty) → last_type_of (xs ++ x ∷ []) ≡ some x
  unfolding last_type_of
  last_type_of-append [] x = refl
  last_type_of-append (y ∷ []) x = refl
  last_type_of-append (y ∷ z ∷ xs) x = last_type_of-append (z ∷ xs) x

  remove_last_type_priv-append :
      (l : List Ty) (y : Ty) (xs : List Ty) (x : Ty)
      → remove_last_type_priv l (y ∷ xs ++ x ∷ []) ≡ some (l ++ y ∷ xs)
  unfolding remove_last_type_priv
  remove_last_type_priv-append l y [] x = refl
  remove_last_type_priv-append l y (z ∷ []) x = rw (append_assoc l (y ∷ []) (z ∷ []))
  remove_last_type_priv-append l y (z ∷ v ∷ xs) x =
      remove_last_type_priv-append (l ++ y ∷ []) z (v ∷ xs) x
      ∙ ap some (append_assoc l (y ∷ []) (z ∷ v ∷ xs))

  -- Of a list of types and one more, `last_type_of` is that one, and `remove_last_type_of` the list.
  pub types-append :
      (xs : List Ty) (x : Ty)
      → (last_type_of (xs ++ x ∷ []) ≡ some x) × (remove_last_type_of (xs ++ x ∷ []) ≡ some xs)
  unfolding remove_last_type_of
  types-append [] x = (last_type_of-append [] x, refl)
  types-append (y ∷ xs) x = (last_type_of-append (y ∷ xs) x, remove_last_type_priv-append [] y xs x)
