-- ===== src/ServiceRouter/LoadBalance/StaticWeight/Interval.antt =====
-- Every number below the sum of the weights falls to one server, which gets as many as it weighs.
use native.Mathlib.Nat.{mod-lt}
use native.Mathlib.Decide.{dec_lt, ℕ_discrete}
use laser_db.Base.{
  ℕ, ◌+◌, ◌-◌, ◌%◌, ◌^◌, ◌≤◌, ◌<◌, ◌≡◌, refl, ap, ◌∙◌, false, nat_beq, [], ◌∷◌, ◌++◌, some, arith,
  returned, Memᴰ, length, ◌⊎◌, inl, inr,
}
use laser_db.Base.Words.{add32}
use laser_db.ServiceRouter.Server.{Server, ServerList}
use laser_db.ServiceRouter.LoadBalance.Simple.{Draw, IsBelow, pick-mem}
use laser_db.ServiceRouter.LoadBalance.StaticWeight.{weight_sum, walk, static_weight_select}

-- The sum of the weights, with no wrap-around.
abbrev pub total_weight : ServerList → ℕ
total_weight [] = 0
total_weight (s ∷ ss) = s.weight + total_weight ss

weight_sum-le : (acc : ℕ) (ss : ServerList) → weight_sum acc ss ≤ acc + total_weight ss
unfolding weight_sum add32
weight_sum-le acc [] = omega arith
weight_sum-le acc (s ∷ ss) = omega (arith, weight_sum-le ((acc + s.weight) % 2 ^ 32) ss)

weight_sum_exact :
    (acc : ℕ) (ss : ServerList)
    → acc + total_weight ss < 2 ^ 32
    → weight_sum acc ss ≡ acc + total_weight ss
unfolding weight_sum add32
weight_sum_exact acc [] h = omega arith
weight_sum_exact acc (s ∷ ss) h =
    omega (arith, weight_sum_exact ((acc + s.weight) % 2 ^ 32) ss (omega arith))

walk-mem :
    (idx : ℕ) (ss : ServerList)
    → idx < total_weight ss
    → (t : Server) × (walk idx ss ≡ some t) × Memᴰ t ss × (0 < t.weight)
unfolding walk
walk-mem idx [] h = absurd (omega arith)
walk-mem idx (s ∷ ss) h = elim (dec_lt idx s.weight) [
  | yes p ↦ (s, ground arith, Memᴰ.head refl, omega arith)
  | no p ↦
      let (t, e, m, w) = walk-mem (idx - s.weight) ss (omega arith) in
      (t, ground arith, Memᴰ.tail m, w)
]

walk-append :
    (idx : ℕ) (before : ServerList) (s : Server) (after : ServerList)
    → total_weight before ≤ idx
    → idx < total_weight before + s.weight
    → walk idx (before ++ s ∷ after) ≡ some s
unfolding walk
walk-append idx [] s after lo hi = ground arith
walk-append idx (b ∷ before) s after lo hi =
    ground (arith, walk-append (idx - b.weight) before s after)

-- A list with a server never fails: also where the sum of the weights wraps round 2^32, some
-- server of the list is returned, and one with a positive weight unless that sum is 0.
pub static_weight_select-mem :
    (draw : Draw) (prime : ℕ) (s : Server) (ss : ServerList)
    → IsBelow draw
    → (t : Server) × (static_weight_select draw prime (s ∷ ss) ≡ returned (some t))
      × Memᴰ t (s ∷ ss)
      × ((weight_sum 0 (s ∷ ss) ≡ 0) ⊎ (0 < t.weight))
unfolding static_weight_select
static_weight_select-mem draw prime s ss below = elim (ℕ_discrete (weight_sum 0 (s ∷ ss)) 0) [
  | yes p ↦
      let (t, e, m) = pick-mem (s ∷ ss) (draw (length (s ∷ ss))) (below _ (omega arith)) in
      (t, rw p e, m, inl p)
  | no p ↦
      let lt : prime % weight_sum 0 (s ∷ ss) < weight_sum 0 (s ∷ ss) = mod-lt prime (omega arith) in
      let (t, e, m, w) =
        walk-mem (prime % weight_sum 0 (s ∷ ss)) (s ∷ ss)
          (omega (arith, weight_sum-le 0 (s ∷ ss))) in
      (t, ground (arith, e), m, inr w)
]

total_weight-append :
    (before : ServerList) (s : Server) (after : ServerList)
    → total_weight (before ++ s ∷ after) ≡ total_weight before + s.weight + total_weight after
total_weight-append [] s after = omega arith
total_weight-append (b ∷ before) s after = omega (arith, total_weight-append before s after)

static_weight_select-walk :
    (draw : Draw) (prime : ℕ) (s : Server) (ss : ServerList)
    → total_weight (s ∷ ss) < 2 ^ 32
    → 0 < total_weight (s ∷ ss)
    → static_weight_select draw prime (s ∷ ss)
      ≡ returned (walk (prime % total_weight (s ∷ ss)) (s ∷ ss))
unfolding static_weight_select
static_weight_select-walk draw prime s ss h positive =
    let e : weight_sum 0 (s ∷ ss) ≡ total_weight (s ∷ ss) =
      omega (arith, weight_sum_exact 0 (s ∷ ss) (omega arith)) in
    rw (e, neq_zero _ positive)
  where
    neq_zero : (t : ℕ) → 0 < t → nat_beq 0 t ≡ false
    neq_zero t p = ground arith

-- Where the sum does not wrap, a server is chosen for every remainder of the prime in its
-- interval, which starts at the sum of the weights before it and is as long as its weight.
pub static_weight_select-append :
    (draw : Draw) (prime : ℕ) (before : ServerList) (s : Server) (after : ServerList)
    → total_weight (before ++ s ∷ after) < 2 ^ 32
    → total_weight before ≤ prime % total_weight (before ++ s ∷ after)
    → prime % total_weight (before ++ s ∷ after) < total_weight before + s.weight
    → static_weight_select draw prime (before ++ s ∷ after) ≡ returned (some s)
static_weight_select-append draw prime [] s after h lo hi =
    static_weight_select-walk draw prime s after h (omega arith)
    ∙ ap returned (walk-append (prime % total_weight (s ∷ after)) [] s after lo hi)
static_weight_select-append draw prime (b ∷ before) s after h lo hi =
    static_weight_select-walk draw prime b (before ++ s ∷ after) h
      (omega (arith, total_weight-append before s after))
    ∙ ap returned
        (walk-append (prime % total_weight (b ∷ before ++ s ∷ after)) (b ∷ before) s after lo hi)
