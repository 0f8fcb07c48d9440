-- ===== src/ServiceRouter/LoadBalance/ConfigurableWeight/Rounds.antt =====
-- One round of the `for` loop, over natural numbers.
use laser_db.Base.{
  ℕ, zero, suc, ◌+◌, ◌-◌, ◌%◌, ◌^◌, ◌<◌, ◌≡◌, refl, ap, ◌∙◌, some, arith, returned, index, length,
  leb, if◌then◌else◌,
}
use laser_db.Base.Int.{ℤ, pos, negsuc, ◌+ℤ◌, rem_ℤ}
use laser_db.ServiceRouter.Server.{Server, ServerList}
use laser_db.ServiceRouter.LoadBalance.ConfigurableWeight.{
  CurrentState, fresh, arrive, next_state, loop,
}

abbrev pub at : ℕ → ℕ → CurrentState
at i w = record { current_index = pos i; current_weight = pos w }

-- The weight after a round that arrives at index j.
abbrev pub lower : ℕ → ℕ → ℕ → ℕ → ℕ
lower mx g zero w = if leb w g then mx else w - g
lower mx g (suc j) w = w

arrive_lem : (mx g w j : ℕ) → arrive mx g (pos j) (pos w) ≡ pos (lower mx g j w)
unfolding arrive
arrive_lem mx g w zero = ground arith
arrive_lem mx g w (suc j) = refl

next_index : (i n : ℕ) → rem_ℤ (pos i +ℤ pos 1) n ≡ pos ((i + 1) % n)
unfolding rem_ℤ ◌+ℤ◌
next_index i n = ground arith

at_index :
    (n mx g : ℕ) (st : CurrentState) (j w : ℕ)
    → rem_ℤ (st.current_index +ℤ pos 1) n ≡ pos j
    → st.current_weight ≡ pos w
    → next_state n mx g st ≡ at j (lower mx g j w)
unfolding next_state
at_index n mx g st j w e f =
    (λ i. record { current_index = e i; current_weight = arrive mx g (e i) (f i) })
    ∙ ap (λ (v : ℤ). record { current_index = pos j; current_weight = v }) (arrive_lem mx g w j)

zero_index : (n : ℕ) → rem_ℤ (negsuc 0 +ℤ pos 1) n ≡ pos 0
unfolding rem_ℤ ◌+ℤ◌
zero_index n = ground arith

pub next_state-at :
    (n mx g i w j : ℕ) → (i + 1) % n ≡ j → next_state n mx g (at i w) ≡ at j (lower mx g j w)
next_state-at n mx g i w j e = at_index n mx g (at i w) j w (next_index i n ∙ ap pos e) refl

-- The first call of a new balancer starts at index 0 with the greatest weight.
pub next_state-fresh : (n mx g : ℕ) → next_state n mx g fresh ≡ at 0 mx
next_state-fresh n mx g = at_index n mx g fresh 0 0 start refl ∙ ap (at 0) (ground arith)
  where
    start : rem_ℤ (negsuc 0 +ℤ pos 1) n ≡ pos 0
    start = zero_index n

-- A round that arrives at index j with weight w returns the server there if it weighs enough.
pub loop_round :
    (servers : ServerList) (mx g fuel : ℕ) (st : CurrentState) (j w : ℕ) (s : Server)
    → next_state (length servers) mx g st ≡ at j w
    → 0 < w
    → w < 2 ^ 32
    → index servers j ≡ returned s
    → loop servers mx g (suc fuel) st
      ≡ (if leb w s.weight then (at j w, returned (some s)) else loop servers mx g fuel (at j w))
unfolding loop
loop_round servers mx g fuel st zero (suc w) s e lo hi at_j = rw (e, at_j) (ground arith)
loop_round servers mx g fuel st (suc j) (suc w) s e lo hi at_j = rw (e, at_j) (ground arith)
loop_round servers mx g fuel st j zero s e lo hi at_j = absurd (omega arith)
