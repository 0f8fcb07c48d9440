-- ===== src/ServiceRouter/LoadBalance/StaticWeight.antt =====
-- load_balance.go, `LoadBalanceStaticWeight`.
pub mod Interval
use native.Mathlib.Nat.{mod-lt}
use laser_db.Base.{
  ℕ, zero, suc, ◌+◌, ◌-◌, ◌%◌, ◌<◌, ◌≡◌, refl, List, [], ◌∷◌, Option, none, some, arith, Outcome,
  returned, nat_beq, ltb, if◌then◌else◌,
}
use laser_db.Base.Words.{add32}
use laser_db.ServiceRouter.Server.{Server, ServerList}
use laser_db.ServiceRouter.LoadBalance.Simple.{Draw, pick}
use laser_db.Base.{length}

-- `weightSum += server.Weight`, in a uint32.
unfoldable pub weight_sum : ℕ → ServerList → ℕ
unfolding add32
weight_sum acc [] = acc
weight_sum acc (s ∷ ss) = weight_sum (add32 acc s.weight) ss

-- The loop that takes weights off `idx`. The subtraction does not wrap, as `idx` is not below.
unfoldable pub walk : ℕ → ServerList → Option Server
walk idx [] = none
walk idx (s ∷ ss) = let rest = walk (idx - s.weight) ss in if ltb idx s.weight then some s else rest

-- `prime` is what `rand.Prime(rand.Reader, 32)` returns.
unfoldable pub static_weight_select : Draw → ℕ → ServerList → Outcome (Option Server)
unfolding weight_sum walk
static_weight_select draw prime [] = returned none
static_weight_select draw prime (s ∷ ss) =
    let servers = s ∷ ss in
    let total = weight_sum 0 servers in
    if nat_beq 0 total
    then pick servers (draw (length servers))
    else returned (walk (prime % total) servers)
