-- ===== src/Base/Maps.antt =====
-- Go maps as association lists with at most one entry that counts for each key: the first.
pub mod Totals
pub mod Each
pub mod Keys
use mathlib.Core.Path.{◌≡◌, refl}
use mathlib.Core.Bool.{Bool, true, false}
use mathlib.Core.Option.{Option, none, some}
use mathlib.Core.List.{List, [], ◌∷◌}
use native.Mathlib.Omega.{arith}
use laser_db.Base.Tests.{Eq, ◌==◌, if◌then◌else◌}

module _ {ℓ} {K : Type ℓ} ⦃e : Eq K⦄ where
  -- Whether a key is among the keys of a list.
  unfoldable pub has_key : K → List K → Bool
  has_key j [] = false
  has_key j (k ∷ ks) = if k == j then true else has_key j ks

-- The first of two values that is there.
abbrev pub or_else {κ} : {V : Type κ} → Option V → Option V → Option V
or_else none o = o
or_else (some v) o = some v

module _ {ℓ κ} {K : Type ℓ} {V : Type κ} ⦃e : Eq K⦄ where
  -- `v, ok := m[k]`
  unfoldable pub lookup : K → List (K × V) → Option V
  lookup _ [] = none
  lookup key ((other, value) ∷ rest) = if other == key then some value else lookup key rest

  -- `m[k] = v`
  unfoldable pub insert : K → V → List (K × V) → List (K × V)
  insert key value [] = (key, value) ∷ []
  insert key value ((other, old) ∷ rest) =
      if other == key then (key, value) ∷ rest else (other, old) ∷ insert key value rest

  -- `delete(m, k)`
  unfoldable pub delete : K → List (K × V) → List (K × V)
  delete _ [] = []
  delete key ((other, value) ∷ rest) =
      if other == key then delete key rest else (other, value) ∷ delete key rest

  pub lookup-insert :
      (new asked : K) (value : V) (m : List (K × V))
      → lookup asked (insert new value m) ≡ (if new == asked then some value else lookup asked m)
  unfolding lookup insert
  lookup-insert new asked value [] = refl
  lookup-insert new asked value ((first, old) ∷ rest) = ground (
    arith,
    lookup-insert new asked value rest,
    e.same_iff first asked,
    e.same_iff first new,
    e.same_iff new asked,
  )

  pub lookup-delete :
      (k j : K) (m : List (K × V)) → lookup j (delete k m) ≡ (if k == j then none else lookup j m)
  unfolding lookup delete
  lookup-delete k j [] = ground arith
  lookup-delete k j ((i, w) ∷ m) =
      ground (arith, e.same_iff k j, e.same_iff i k, e.same_iff i j, lookup-delete k j m)

  -- `v` if the key is there, `d` (mostly the zero value) if not.
  abbrev pub lookup_or : V → K → List (K × V) → V
  lookup_or d k m = elim (lookup k m) [ none ↦ d | some v ↦ v ]

  -- `for k, v := range src { dst[k] = v }`
  unfoldable pub insert_all : List (K × V) → List (K × V) → List (K × V)
  insert_all [] m = m
  insert_all ((k, v) ∷ src) m = insert_all src (insert k v m)

  -- `for _, k := range ks { delete(m, k) }`
  unfoldable pub delete_all : List K → List (K × V) → List (K × V)
  delete_all [] m = m
  delete_all (k ∷ ks) m = delete_all ks (delete k m)

  pub lookup-delete_all :
      (ks : List K) (j : K) (m : List (K × V))
      → lookup j (delete_all ks m) ≡ (if has_key j ks then none else lookup j m)
  unfolding delete_all has_key
  lookup-delete_all [] j m = refl
  lookup-delete_all (k ∷ ks) j m =
      ground (arith, lookup-delete_all ks j (delete k m), lookup-delete k j m)

  -- No key has two entries, as in every map that `insert` builds.
  abbrev pub Distinct : List (K × V) → Type κ
  Distinct [] = Unit
  Distinct ((k, v) ∷ m) = (lookup k m ≡ none) × Distinct m

  pub insert-Distinct : (k : K) (v : V) (m : List (K × V)) → Distinct m → Distinct (insert k v m)
  unfolding insert lookup
  insert-Distinct k v [] d = (refl, tt)
  insert-Distinct k v ((j, w) ∷ m) d =
      ground
        (arith, e.same_iff j k, e.same_iff k j, lookup-insert k j v m, insert-Distinct k v m d.1)

  pub lookup-insert_all :
      (src : List (K × V)) (j : K) (m : List (K × V))
      → Distinct src
      → lookup j (insert_all src m) ≡ or_else (lookup j src) (lookup j m)
  unfolding insert_all lookup
  lookup-insert_all [] j m d = refl
  lookup-insert_all ((k, v) ∷ src) j m d =
      ground
        (arith, e.same_iff k j, lookup-insert_all src j (insert k v m) d.1, lookup-insert k j v m)
