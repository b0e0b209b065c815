-- ===== src/Base/Maps.antt =====
-- Maps as association lists: `std::map` and `std::unordered_map`. A map has one entry for a key,
-- since `insert` overwrites.
use mathlib.Core.Path.{◌≡◌, refl}
use mathlib.Core.Option.{Option, none, some}
use mathlib.Core.List.{List, [], ◌∷◌}
use native.Mathlib.Omega.{arith}
use cercall.Base.Tests.{Key, ◌==◌, if◌then◌else◌, ==_refl}

abbrev pub Map {ℓ κ} : Type ℓ → Type κ → Type (ℓ ⊔ κ)
Map K V = List (K × V)

module _ {ℓ κ} {K : Type ℓ} {V : Type κ} ⦃key : Key K⦄ where
  -- `find(k)`, `none` for `end()`.
  unfoldable pub lookup : K → Map K V → Option V
  lookup k [] = none
  lookup k ((j, v) ∷ rest) = let later = lookup k rest in if j == k then some v else later

  -- `m[k] = v`.
  unfoldable pub insert : K → V → Map K V → Map K V
  insert k v [] = (k, v) ∷ []
  insert k v ((j, w) ∷ rest) =
      let later = insert k v rest in if j == k then (j, v) ∷ rest else (j, w) ∷ later

  -- `erase(k)`: every entry for the key.
  unfoldable pub erase : K → Map K V → Map K V
  erase k [] = []
  erase k ((j, v) ∷ m) = let rest = erase k m in if j == k then rest else (j, v) ∷ rest

  pub lookup-insert :
      (k sought : K) (v : V) (entries : Map K V)
      → lookup sought (insert k v entries) ≡ (if k == sought then some v else lookup sought entries)
  unfolding lookup insert
  lookup-insert k sought v [] = refl
  lookup-insert k sought v ((i, w) ∷ rest) = ground (
    arith,
    lookup-insert k sought v rest,
    key.same_iff i k,
    key.same_iff i sought,
    key.same_iff k sought,
  )

  pub lookup-erase :
      (k j : K) (m : Map K V) → lookup j (erase k m) ≡ (if k == j then none else lookup j m)
  unfolding lookup erase
  lookup-erase k j [] = ground arith
  lookup-erase k j ((i, w) ∷ m) =
      ground (arith, lookup-erase k j m, key.same_iff i k, key.same_iff i j, key.same_iff k j)

  pub lookup-insert_self : (k : K) (v : V) (m : Map K V) → lookup k (insert k v m) ≡ some v
  lookup-insert_self k v m = simp (lookup-insert, ==_refl)

  pub lookup-erase_self : (k : K) (m : Map K V) → lookup k (erase k m) ≡ none
  lookup-erase_self k m = simp (lookup-erase, ==_refl)

-- `std::list::remove`
abbrev pub filter_ne {ℓ} : {A : Type ℓ} ⦃key : Key A⦄ → A → List A → List A
filter_ne a [] = []
filter_ne a (x ∷ xs) = if x == a then filter_ne a xs else x ∷ filter_ne a xs
