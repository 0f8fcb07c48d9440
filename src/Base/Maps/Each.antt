-- ===== src/Base/Maps/Each.antt =====
-- What holds of every value of a map.
use mathlib.Core.Logic.{inl, inr}
use mathlib.Core.List.{List, [], ◌∷◌}
use laser_db.Base.Tests.{Eq, ◌==◌, Bool-cases}
use laser_db.Base.Maps.{lookup, lookup_or, insert, delete}

module _ {ℓ κ ι} {K : Type ℓ} {V : Type κ} ⦃e : Eq K⦄ (P : V → Type ι) where
  abbrev pub Each : List (K × V) → Type ι
  Each [] = Unit
  Each ((k, v) ∷ m) = P v × Each m

  pub insert-Each : (k : K) (v : V) (m : List (K × V)) → P v → Each m → Each (insert k v m)
  unfolding insert
  insert-Each k v [] h hs = (h, tt)
  insert-Each k v ((j, w) ∷ m) h hs = elim (Bool-cases (j == k)) [
    | inl e ↦ rw e ((h, hs.1))
    | inr e ↦ rw e ((hs.0, insert-Each k v m h hs.1))
  ]

  pub delete-Each : (k : K) (m : List (K × V)) → Each m → Each (delete k m)
  unfolding delete
  delete-Each k [] hs = tt
  delete-Each k ((j, w) ∷ m) hs = elim (Bool-cases (j == k)) [
    | inl e ↦ rw e (delete-Each k m hs.1)
    | inr e ↦ rw e ((hs.0, delete-Each k m hs.1))
  ]

  pub lookup_or-Each : (k : K) (d : V) (m : List (K × V)) → P d → Each m → P (lookup_or d k m)
  unfolding lookup
  lookup_or-Each k d [] h hs = h
  lookup_or-Each k d ((j, w) ∷ m) h hs = elim (Bool-cases (j == k)) [
    | inl e ↦ rw (e, lookup_or) hs.0
    | inr e ↦ rw (e, lookup_or) (lookup_or-Each k d m h hs.1)
  ]
