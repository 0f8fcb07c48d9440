-- ===== src/Base/Results.antt =====
-- What a Go call does: it returns, it panics, or it is still running when the fuel is spent.
use Prim.Native.Nat.{ℕ, zero, suc, ◌<◌}
use mathlib.Core.Path.{◌≡◌, refl, subst}
use mathlib.Core.List.{List, [], ◌∷◌, Memᴰ}
use native.Mathlib.Omega.{arith}
use laser_db.Base.Lists.{length}

pub data Outcome {ℓ} (A : Type ℓ) : Type ℓ where
  returned : A → Outcome A
  panicked : Outcome A
  running : Outcome A

infixl 5 ◌>>=◌
abbrev pub ◌>>=◌ {ℓ κ} : {A : Type ℓ} {B : Type κ} → Outcome A → (A → Outcome B) → Outcome B
returned a >>= f = f a
panicked >>= f = panicked
running >>= f = running

-- `xs[i]`
unfoldable pub index {ℓ} : {A : Type ℓ} → List A → ℕ → Outcome A
index [] i = panicked
index (x ∷ xs) zero = returned x
index (x ∷ xs) (suc i) = index xs i

module _ {ℓ} {A : Type ℓ} where
  pub index_head : (x : A) (xs : List A) → index (x ∷ xs) 0 ≡ returned x
  unfolding index
  index_head x xs = refl

  pub index_second : (x y : A) (xs : List A) → index (x ∷ y ∷ xs) 1 ≡ returned y
  unfolding index
  index_second x y xs = refl

  -- An index in range returns an element of the list.
  pub index-mem :
      (xs : List A) (i : ℕ) → i < length xs → (x : A) × (index xs i ≡ returned x) × Memᴰ x xs
  unfolding index
  index-mem [] i h = elim h [ ]
  index-mem (x ∷ xs) zero h = (x, refl, Memᴰ.head refl)
  index-mem (x ∷ xs) (suc i) h = let (y, e, m) = index-mem xs i (omega arith) in (y, e, Memᴰ.tail m)

module _ {ℓ κ} {A : Type ℓ} (P : A → Type κ) where
  -- What holds of the result, if there is one.
  abbrev pub Holds : Outcome A → Type κ
  Holds (returned a) = P a
  Holds panicked = Unit
  Holds running = Unit

  pub returned-Holds : (m : Outcome A) (a : A) → m ≡ returned a → Holds m → P a
  returned-Holds m a e h = subst Holds e h

pub >>=-Holds {ℓ κ ℓ' κ'} :
    {A : Type ℓ} {B : Type ℓ'} (P : A → Type κ) (Q : B → Type κ') (m : Outcome A)
    (f : A → Outcome B)
    → Holds P m
    → ((a : A) → P a → Holds Q (f a))
    → Holds Q (m >>= f)
>>=-Holds P Q (returned a) f h next = next a h
>>=-Holds P Q panicked f h next = tt
>>=-Holds P Q running f h next = tt

-- What holds after any result of the first part.
pub >>=-Holds_any {ℓ ℓ' κ'} :
    {A : Type ℓ} {B : Type ℓ'} (Q : B → Type κ') (m : Outcome A) (f : A → Outcome B)
    → ((a : A) → Holds Q (f a))
    → Holds Q (m >>= f)
>>=-Holds_any Q (returned a) f next = next a
>>=-Holds_any Q panicked f next = tt
>>=-Holds_any Q running f next = tt

pub Holds-self {ℓ} : {A : Type ℓ} (m : Outcome A) → Holds (λ a. m ≡ returned a) m
Holds-self (returned a) = refl
Holds-self panicked = tt
Holds-self running = tt

pub Holds-map {ℓ κ κ'} :
    {A : Type ℓ} (P : A → Type κ) (Q : A → Type κ') (m : Outcome A)
    → ((a : A) → P a → Q a)
    → Holds P m
    → Holds Q m
Holds-map P Q (returned a) f h = f a h
Holds-map P Q panicked f h = tt
Holds-map P Q running f h = tt

-- A bind that returns, from the parts that return.
pub >>=-returned {ℓ ℓ'} :
    {A : Type ℓ} {B : Type ℓ'} (m : Outcome A) (f : A → Outcome B) (b : B)
    → (m >>= f) ≡ returned b
    → (a : A) × (m ≡ returned a) × (f a ≡ returned b)
>>=-returned (returned a) f b e = (a, refl, e)
>>=-returned panicked f b e = cc
>>=-returned running f b e = cc

pub returned_inj {ℓ} : {A : Type ℓ} (a b : A) → returned a ≡ returned b → a ≡ b
returned_inj a b e = cc
