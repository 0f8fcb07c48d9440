-- ===== src/Control/TableShardAssigner/Totals.antt =====
-- How sums and counts over lists of shards behave, and what the sorts document.
use mathlib.Core.List.{Permᴰ}
use laser_db.Base.{
  ℕ, zero, suc, ◌+◌, ◌^◌, ◌≤◌, ◌<◌, ◌≡◌, refl, ap, subst, ◌∙◌, List, [], ◌∷◌, ◌++◌, arith, length,
  All, if◌then◌else◌, ◌==◌, nat_eq, string_eq,
}
use laser_db.Base.Int.{ℤ, int_eq}
use laser_db.Base.Words.{add64}
use laser_db.Control.TableShardAssigner.{Pair, AssignedShardList, Sorts, repeated, add_shard}

-- The sum of a number over a list.
abbrev pub total : {A : Type 0} → (A → ℕ) → List A → ℕ
total f [] = 0
total f (a ∷ rest) = f a + total f rest

-- How often a shard is in a list, and in all lists.
abbrev pub count : ℤ → List ℤ → ℕ
count x = total (λ y. if y == x then 1 else 0)

abbrev pub count_all : ℤ → List AssignedShardList → ℕ
count_all x = total (λ l. count x l.shard_list)

abbrev pub sum_all : List AssignedShardList → ℕ
sum_all = total (λ l. l.metric_sum)

abbrev pub values : List Pair → ℕ
values = total (λ p. p.1)

-- What `sort` documents: the entries are the same, and by their sums the first is least.
abbrev pub Ordered : List AssignedShardList → Type 0
Ordered [] = Unit
Ordered (l ∷ ls) = All (λ k. l.metric_sum ≤ k.metric_sum) ls × Ordered ls

pub record IsSort (sorts : Sorts) : Type 0 where
  pub by_sum_same : (ls : List AssignedShardList) → Permᴰ (sorts.by_sum ls) ls
  pub by_sum_ordered : (ls : List AssignedShardList) → Ordered (sorts.by_sum ls)
  pub down_same : (ps : List Pair) → Permᴰ (sorts.down ps) ps
  pub shards_same : (ss : List ℤ) → Permᴰ (sorts.shards ss) ss

pub total-Permᴰ : {A : Type 0} (f : A → ℕ) (xs ys : List A) → Permᴰ xs ys → total f xs ≡ total f ys
total-Permᴰ f _ _ Permᴰ.nil = refl
total-Permᴰ f (a ∷ xs) (b ∷ ys) (Permᴰ.cons e p) = omega (arith, ap f e, total-Permᴰ f xs ys p)
total-Permᴰ f (a ∷ b ∷ xs) (c ∷ d ∷ _) (Permᴰ.swap e g) = omega (arith, ap f e, ap f g)
total-Permᴰ f xs zs (Permᴰ.trans {l₂ = ys} p q) = total-Permᴰ f xs ys p ∙ total-Permᴰ f ys zs q

pub All-Permᴰ : {A : Type 0} (P : A → Type 0) (xs ys : List A) → Permᴰ xs ys → All P xs → All P ys
All-Permᴰ P _ _ Permᴰ.nil h = tt
All-Permᴰ P (a ∷ xs) (b ∷ ys) (Permᴰ.cons e p) h = (subst P e h.0, All-Permᴰ P xs ys p h.1)
All-Permᴰ P (a ∷ b ∷ xs) (c ∷ d ∷ _) (Permᴰ.swap e g) h = (subst P g h.1.0, (subst P e h.0, h.1.1))
All-Permᴰ P xs zs (Permᴰ.trans {l₂ = ys} p q) h = All-Permᴰ P ys zs q (All-Permᴰ P xs ys p h)

pub total-append :
    {A : Type 0} (f : A → ℕ) (xs ys : List A) → total f (xs ++ ys) ≡ total f xs + total f ys
total-append f [] ys = omega arith
total-append f (x ∷ xs) ys = omega (arith, total-append f xs ys)

pub total-repeated_zero :
    {A : Type 0} (f : A → ℕ) (a : A) (n : ℕ) → f a ≡ 0 → total f (repeated n a) ≡ 0
total-repeated_zero f a zero e = refl
total-repeated_zero f a (suc n) e = omega (arith, e, total-repeated_zero f a n e)

pub length-total : {A : Type 0} (xs : List A) → length xs ≡ total (λ x. 1) xs
length-total [] = refl
length-total (x ∷ xs) = omega (arith, length-total xs)

-- One list more holds the shard of a pair.
pub count-add_shard :
    (x : ℤ) (l : AssignedShardList) (p : Pair)
    → count x (add_shard l p).shard_list ≡ count x l.shard_list + (if p.0 == x then 1 else 0)
unfolding add_shard
count-add_shard x l p =
    omega (arith, total-append (λ y. if y == x then 1 else 0) l.shard_list (p.0 ∷ []))

pub sum-add_shard :
    (l : AssignedShardList) (p : Pair)
    → l.metric_sum + p.1 < 2 ^ 64
    → (add_shard l p).metric_sum ≡ l.metric_sum + p.1
unfolding add_shard add64
sum-add_shard l p h = omega arith

-- The sums of the lists lie between a bound and the bound plus m.
abbrev pub Between : ℕ → ℕ → AssignedShardList → Type 0
Between low m l = (low ≤ l.metric_sum) × (l.metric_sum ≤ low + m)

-- Every value is at most m.
abbrev pub AtMost : ℕ → List Pair → Type 0
AtMost m = All (λ p. p.1 ≤ m)
