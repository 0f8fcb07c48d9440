-- ===== src/ServiceRouter/LoadBalance/ConfigurableWeight.antt =====
-- load_balance.go, `LoadBalanceConfigurableWeight` with `Gcd` and `max`.
pub mod Divisor
pub mod Rounds
pub mod Progress
pub mod Select
pub mod Stalls
use mathlib.Core.Logic.{dite}
use mathlib.Core.WellFounded.{Acc}
use native.Mathlib.Decide.{dec_lt, ℕ_discrete}
use laser_db.Base.{
  ℕ, zero, suc, ◌+◌, ◌-◌, ◌%◌, ◌<◌, ◌≡◌, refl, Bool, true, false, List, [], ◌∷◌, Option, none, some,
  arith, Outcome, returned, panicked, running, ◌>>=◌, index, leb, ltb, nat_beq, if◌then◌else◌,
  length,
}
use laser_db.Base.Order.{lt_wf}
use laser_db.Base.Int.{ℤ, pos, negsuc, pos_part, neg_part, sub_ℕ, ◌+ℤ◌, ◌-ℤ◌, leb_ℤ, rem_ℤ, to_u32}
use laser_db.ServiceRouter.Server.{Server, ServerList}

-- `Gcd`: `a % b` panics for b = 0. The recursion is on the divisor, which falls.
unfoldable pub gcd_acc : (a b : ℕ) → Acc ◌<◌ b → Outcome ℕ
gcd_acc a b (Acc.intro _ smaller) =
    dite (dec_lt 0 b)
      (λ h.
        dite (ℕ_discrete (a % b) 0) (λ _. returned b)
          (λ _. gcd_acc b (a % b) (smaller (a % b) (omega arith))))
      (λ _. panicked)

unfoldable pub gcd : ℕ → ℕ → Outcome ℕ
unfolding gcd_acc lt_wf dec_lt ℕ_discrete
gcd a b = gcd_acc a b (lt_wf.apply b)

abbrev pub max : ℕ → ℕ → ℕ
max a b = if ltb b a then a else b

pub record CurrentState : Type 0 where
  pub current_index : ℤ
  pub current_weight : ℤ

abbrev pub fresh : CurrentState
fresh = record { current_index = negsuc 0; current_weight = pos 0 }

-- `if index == 0 { Gcd(weight, next) } else { Gcd(gcdWeight, weight) }`
abbrev step_gcd : ℕ → ℕ → ℕ → ℕ → Outcome ℕ
step_gcd zero g weight next = gcd weight next
step_gcd (suc i) g weight next = gcd g weight

-- The loop over all servers but the last, and the line below it that takes in the last weight.
-- The result is `maxWeight` and `gcdWeight`.
unfoldable pub scan_weights : ℕ → ℕ → ℕ → ServerList → Outcome (ℕ × ℕ)
scan_weights i mx g [] = returned (mx, g)
scan_weights i mx g (s ∷ []) = returned (max mx s.weight, g)
scan_weights i mx g (s ∷ t ∷ rest) =
    step_gcd i g s.weight t.weight >>= λ g'. scan_weights (suc i) (max mx s.weight) g' (t ∷ rest)

-- The head of the round: `currentWeight` after the steps under `currentIndex == 0`.
unfoldable pub lowered : ℕ → ℕ → ℤ → ℤ
unfolding ◌-ℤ◌
lowered mx g w = let w' = w -ℤ pos g in if leb_ℤ w' (pos 0) then pos mx else w'

unfoldable pub arrive : ℕ → ℕ → ℤ → ℤ → ℤ
unfolding lowered
arrive mx g (pos zero) w = lowered mx g w
arrive mx g _ w = w

unfoldable pub next_state : ℕ → ℕ → ℕ → CurrentState → CurrentState
unfolding ◌+ℤ◌ rem_ℤ arrive
next_state n mx g st =
    let i = rem_ℤ (st.current_index +ℤ pos 1) n in
    record { current_index = i; current_weight = arrive mx g i st.current_weight }

-- `serverList[state.currentIndex]`
unfoldable pub index_ℤ {ℓ} : {A : Type ℓ} → List A → ℤ → Outcome A
unfolding index
index_ℤ xs (pos i) = index xs i
index_ℤ xs (negsuc i) = panicked

abbrev pub gives_up_at : ℤ → ℤ → Bool
gives_up_at (pos zero) (pos zero) = true
gives_up_at _ _ = false

abbrev pub Selected : Type 0
Selected = CurrentState × Outcome (Option Server)

module _ (servers : ServerList) (mx g : ℕ) where
  -- The end of a round: a server that weighs enough is returned, else the loop goes on.
  unfoldable pub try_server : CurrentState → Outcome Server → Selected → Selected
  unfolding to_u32
  try_server st (returned s) rest =
      if leb (to_u32 st.current_weight) s.weight then (st, returned (some s)) else rest
  try_server st panicked rest = (st, panicked)
  try_server st running rest = (st, running)

  unfoldable pub loop : ℕ → CurrentState → Selected
  unfolding index_ℤ try_server
  loop zero st = (st, running)
  loop (suc fuel) st =
      let st' = next_state (length servers) mx g st in
      let rest = loop fuel st' in
      if gives_up_at st'.current_index st'.current_weight
      then (st', returned none)
      else try_server st' (index_ℤ servers st'.current_index) rest

-- `Select`, with fuel for its `for` loop.
unfoldable pub configurable_weight_select : ℕ → CurrentState → ServerList → Selected
configurable_weight_select fuel st [] = (st, returned none)
configurable_weight_select fuel st (s ∷ ss) = elim (scan_weights 0 0 0 (s ∷ ss)) [
  | returned (mx, g) ↦ loop (s ∷ ss) mx g fuel st
  | panicked ↦ (st, panicked)
  | running ↦ (st, running)
]
