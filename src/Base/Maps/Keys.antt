-- ===== src/Base/Maps/Keys.antt =====
-- The keys of a map, how often a list has one of them, and loops over keys.
use Prim.Native.Nat.{ℕ, ◌+◌}
use mathlib.Core.Path.{◌≡◌, refl, sym, ap, ◌∙◌}
use mathlib.Core.Logic.{inl, inr}
use mathlib.Core.Bool.{false}
use mathlib.Core.Option.{Option, none, some}
use mathlib.Core.List.{List, [], ◌∷◌}
use mathlib.Core.List.{Permᴰ}
use native.Mathlib.Omega.{arith}
use laser_db.Base.Tests.{Eq, ◌==◌, if◌then◌else◌, Bool-cases}
use laser_db.Base.Maps.{lookup, insert, lookup-insert, Distinct}
use laser_db.Base.Maps.Totals.{counted}

-- What a function makes of a value that is there.
abbrev pub mapped {ℓ κ} : {A : Type ℓ} {B : Type κ} → (A → B) → Option A → Option B
mapped f none = none
mapped f (some a) = some (f a)

-- The keys of a map, in its order.
abbrev pub keys {ℓ κ} : {K : Type ℓ} {V : Type κ} → List (K × V) → List K
keys [] = []
keys ((k, v) ∷ m) = k ∷ keys m

module _ {ℓ} {K : Type ℓ} ⦃e : Eq K⦄ where
  -- How often a key is in a list.
  abbrev pub times : K → List K → ℕ
  times k [] = 0
  times k (j ∷ js) = (if j == k then 1 else 0) + times k js

  pub times-Permᴰ : (k : K) (xs ys : List K) → Permᴰ xs ys → times k xs ≡ times k ys
  times-Permᴰ k _ _ Permᴰ.nil = refl
  times-Permᴰ k (a ∷ xs) (b ∷ ys) (Permᴰ.cons e p) =
      omega (arith, ap {B = ℕ} (λ j. if j == k then 1 else 0) e, times-Permᴰ k xs ys p)
  times-Permᴰ k (a ∷ b ∷ xs) (c ∷ d ∷ _) (Permᴰ.swap e g) = omega (
    arith,
    ap {B = ℕ} (λ j. if j == k then 1 else 0) e,
    ap {B = ℕ} (λ j. if j == k then 1 else 0) g,
  )
  times-Permᴰ k xs zs (Permᴰ.trans {l₂ = ys} p q) = times-Permᴰ k xs ys p ∙ times-Permᴰ k ys zs q

  pub times-keys {κ} :
      {V : Type κ} (k : K) (m : List (K × V)) → Distinct m → times k (keys m) ≡ counted (lookup k m)
  unfolding lookup
  times-keys k [] d = refl
  times-keys k ((j, v) ∷ m) d = ground (arith, times-keys k m d.1, d.0, e.same_iff j k)

  -- `for _, k := range ks`
  abbrev pub steps {κ} : {S : Type κ} → (S → K → S) → S → List K → S
  steps step s [] = s
  steps step s (k ∷ ks) = steps step (step s k) ks

  module _ {κ ι} {S : Type κ} {V : Type ι} (step : S → K → S) (observe : S → V) (change : V → V)
      (k : K) (other : (s : S) (j : K) → (j == k) ≡ false → observe (step s j) ≡ observe s)
      (own : (s : S) → observe (step s k) ≡ change (observe s)) where
    steps-none : (s : S) (ks : List K) → times k ks ≡ 0 → observe (steps step s ks) ≡ observe s
    steps-none s [] h = refl
    steps-none s (j ∷ ks) h =
        steps-none (step s j) ks (omega (arith, h)) ∙ other s j (ground (arith, h))

    -- A key that a loop meets once has its step once.
    pub steps-once :
        (s : S) (ks : List K) → times k ks ≡ 1 → observe (steps step s ks) ≡ change (observe s)
    steps-once s [] h = absurd (omega (arith, h))
    steps-once s (j ∷ ks) h = elim (Bool-cases (j == k)) [
      | inl q ↦
          steps-none (step s j) ks (ground (arith, h, q))
          ∙ ap (λ i. observe (step s i)) ((e.same_iff j k).0 q)
          ∙ own s
      | inr q ↦ steps-once (step s j) ks (ground (arith, h, q)) ∙ ap change (other s j q)
    ]

module _ {ℓ κ} {K : Type ℓ} {V : Type κ} ⦃e : Eq K⦄ where
  -- `m[k] = f(m[k])` where the key is there, given the value.
  abbrev pub change_found : K → (V → V) → Option V → List (K × V) → List (K × V)
  change_found k f none m = m
  change_found k f (some v) m = insert k (f v) m

  abbrev pub change_at : K → (V → V) → List (K × V) → List (K × V)
  change_at k f m = change_found k f (lookup k m) m

  lookup-change_found :
      (k : K) (f : V → V) (o : Option V) (m : List (K × V)) (j : K)
      → lookup k m ≡ o
      → lookup j (change_found k f o m) ≡ (if k == j then mapped f (lookup j m) else lookup j m)
  lookup-change_found k f none m j h = elim (Bool-cases (k == j)) [
    | inl q ↦ rw q (
        sym (ap (λ i. lookup i m) ((e.same_iff k j).0 q))
        ∙ h
        ∙ sym (ap (mapped f) (sym (ap (λ i. lookup i m) ((e.same_iff k j).0 q)) ∙ h)))
    | inr q ↦ rw q refl
  ]
  lookup-change_found k f (some v) m j h = elim (Bool-cases (k == j)) [
    | inl q ↦
        lookup-insert k j (f v) m
        ∙ rw q (sym (ap (mapped f) (sym (ap (λ i. lookup i m) ((e.same_iff k j).0 q)) ∙ h)))
    | inr q ↦ lookup-insert k j (f v) m ∙ rw q refl
  ]

  pub lookup-change_at :
      (k : K) (f : V → V) (m : List (K × V)) (j : K)
      → lookup j (change_at k f m) ≡ (if k == j then mapped f (lookup j m) else lookup j m)
  lookup-change_at k f m j = lookup-change_found k f (lookup k m) m j refl
