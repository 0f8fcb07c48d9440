-- ===== src/Base/Maps/Totals.antt =====
-- What the entries of a map weigh together, and which keys it has.
use Prim.Native.Nat.{ℕ, ◌+◌}
use mathlib.Core.Path.{◌≡◌, refl}
use mathlib.Core.Bool.{Bool, true, false}
use mathlib.Core.Option.{Option, none, some}
use mathlib.Core.List.{List, [], ◌∷◌}
use native.Mathlib.Omega.{arith}
use laser_db.Base.Tests.{Eq}
use laser_db.Base.Maps.{
  lookup, insert, delete, insert_all, lookup-delete, Distinct, insert-Distinct,
}

abbrev pub flag : Bool → ℕ
flag true = 1
flag false = 0

-- 1 if there is a value, 0 if not.
abbrev pub counted {ℓ} : {V : Type ℓ} → Option V → ℕ
counted none = 0
counted (some v) = 1

module _ {ℓ κ} {K : Type ℓ} {V : Type κ} ⦃e : Eq K⦄ where
  pub delete-Distinct : (k : K) (m : List (K × V)) → Distinct m → Distinct (delete k m)
  unfolding delete lookup
  delete-Distinct k [] d = tt
  delete-Distinct k ((j, w) ∷ m) d =
      ground (arith, e.same_iff k j, lookup-delete k j m, delete-Distinct k m d.1)

  pub insert_all-Distinct : (src m : List (K × V)) → Distinct m → Distinct (insert_all src m)
  unfolding insert_all
  insert_all-Distinct [] m d = d
  insert_all-Distinct ((k, v) ∷ src) m d =
      insert_all-Distinct src (insert k v m) (insert-Distinct k v m d)

  module _ (weight : V → ℕ) where
    abbrev pub weight_at : K → List (K × V) → ℕ
    weight_at k m = elim (lookup k m) [ none ↦ 0 | some v ↦ weight v ]

    abbrev pub total : List (K × V) → ℕ
    total [] = 0
    total ((k, v) ∷ m) = weight v + total m

    pub total-insert :
        (k : K) (v : V) (m : List (K × V))
        → total (insert k v m) + weight_at k m ≡ total m + weight v
    unfolding insert lookup
    total-insert k v [] = omega arith
    total-insert k v ((j, w) ∷ m) = ground (arith, total-insert k v m)

    delete-none : (k : K) (m : List (K × V)) → lookup k m ≡ none → total (delete k m) ≡ total m
    unfolding delete lookup
    delete-none k [] h = refl
    delete-none k ((j, w) ∷ m) h = ground (arith, delete-none k m)

    pub total-delete :
        (k : K) (m : List (K × V)) → Distinct m → total (delete k m) + weight_at k m ≡ total m
    unfolding delete lookup
    total-delete k [] d = refl
    total-delete k ((j, w) ∷ m) d =
        ground (arith, e.same_iff j k, total-delete k m d.1, delete-none k m)

    -- The weights at the keys of a map.
    abbrev pub total_at {ι} : {U : Type ι} → List (K × U) → List (K × V) → ℕ
    total_at [] m = 0
    total_at ((k, u) ∷ ks) m = weight_at k m + total_at ks m

    total_at-delete {ι} :
        {U : Type ι} (k : K) (ks : List (K × U)) (m : List (K × V))
        → lookup k ks ≡ none
        → total_at ks (delete k m) ≡ total_at ks m
    unfolding lookup
    total_at-delete k [] m h = refl
    total_at-delete k ((j, u) ∷ ks) m h =
        ground (arith, e.same_iff j k, e.same_iff k j, lookup-delete k j m, total_at-delete k ks m)

    -- Two maps with the same keys: the second one's weights at the keys of the first.
    pub total_at-same {ι} :
        {U : Type ι} (ks : List (K × U)) (m : List (K × V))
        → Distinct ks
        → Distinct m
        → ((j : K) → counted (lookup j ks) ≡ counted (lookup j m))
        → total_at ks m ≡ total m
    unfolding lookup
    total_at-same [] [] ds d same = refl
    total_at-same [] ((k, v) ∷ m) ds d same = ground (arith, same k, e.same_iff k k)
    total_at-same ((k, u) ∷ ks) m ds d same = omega (
      arith,
      total_at-same ks (delete k m) ds.1 (delete-Distinct k m d)
          (λ j. ground (arith, e.same_iff k j, lookup-delete k j m, same j, ds.0)),
      total_at-delete k ks m ds.0,
      total-delete k m d,
    )
