-- ===== src/ServiceRouter/LoadBalance/ConfigurableWeight/Progress.antt =====
-- The `for` loop of `Select` ends, for lists on which the weights can be reached.
use native.Mathlib.Decide.{dec_le}
use native.Mathlib.Nat.{mod-lt, mod-add-mod, mod_self}
use laser_db.Base.{
  ℕ, zero, suc, ◌+◌, ◌-◌, ◌*◌, ◌%◌, ◌^◌, ◌≤◌, ◌<◌, ◌≡◌, refl, ap, subst, ◌∙◌, Option, some, Memᴰ,
  arith, Outcome, returned, index, index-mem, length, leb, if◌then◌else◌, nat_eq, string_eq,
}
use laser_db.ServiceRouter.Server.{Server, ServerList}
use laser_db.ServiceRouter.LoadBalance.ConfigurableWeight.{CurrentState, loop, next_state}
use laser_db.ServiceRouter.LoadBalance.Simple.Rotation.{next_at}
use laser_db.ServiceRouter.LoadBalance.ConfigurableWeight.Rounds.{
  at, lower, next_state-at, loop_round,
}

-- A state at some index with a positive weight.
abbrev pub Stands : CurrentState → Type 0
Stands st = (i : ℕ) × (w : ℕ) × (st ≡ at i w) × (0 < w) × (w < 2 ^ 32)

-- The loop returned a server of the list, and leaves a state with a positive weight.
abbrev pub Picks : ServerList → CurrentState × Outcome (Option Server) → Type 0
Picks servers r = (t : Server) × (r.1 ≡ returned (some t)) × Memᴰ t servers × Stands r.0

module _ (servers : ServerList) (mx g : ℕ) (small : mx < 2 ^ 32) where
  -- One round: the loop picks a server, or goes on from the next state.
  pub round_cases :
      (fuel : ℕ) (st : CurrentState) (j w : ℕ)
      → next_state (length servers) mx g st ≡ at j w
      → 0 < w
      → w < 2 ^ 32
      → j < length servers
      → (Picks servers (loop servers mx g fuel (at j w))
          → Picks servers (loop servers mx g (suc fuel) st))
  round_cases fuel st j w e lo hi lt later =
      let (s, found, mem) = index-mem servers j lt in
      elim (dec_le w s.weight) [
        | yes p ↦ (
          s,
          ap (λ (r : CurrentState × Outcome (Option Server)). r.1)
                (loop_round servers mx g fuel st j w s e lo hi found)
              ∙ ground arith,
          mem,
          (
            j,
            w,
            ap (λ (r : CurrentState × Outcome (Option Server)). r.0)
                  (loop_round servers mx g fuel st j w s e lo hi found)
                ∙ ground arith,
            lo,
            hi,
          ),
        )
        | no p ↦ rw (loop_round servers mx g fuel st j w s e lo hi found) (ground arith)
      ]

  lower_bounds :
      (j w b : ℕ) → 0 < mx → 0 < w → w ≤ mx + b → (0 < lower mx g j w) × (lower mx g j w ≤ mx + b)
  lower_bounds zero w b p q r = ground arith
  lower_bounds (suc j) w b p q r = (q, r)

  lower_falls : (w b : ℕ) → 0 < g → w ≤ mx + suc b → lower mx g 0 w ≤ mx + b
  lower_falls w b p r = ground arith

  -- From a weight of at most `mx`, the loop picks at the latest where a server weighs `mx`.
  pub reach_max :
      (d fuel i w m : ℕ) (top : Server)
      → index servers m ≡ returned top
      → mx ≤ top.weight
      → 0 < length servers
      → 0 < mx
      → 0 < w
      → w ≤ mx
      → (i + suc d) % length servers ≡ m
      → d < fuel
      → Picks servers (loop servers mx g fuel (at i w))
  reach_max d zero i w m top at_m heavy some_server pm lo hi e enough = absurd (omega arith)
  reach_max zero (suc fuel) i w m top at_m heavy some_server pm lo hi e enough =
      let (lo', hi') = lower_bounds m w 0 pm lo (omega arith) in
      let next : next_state (length servers) mx g (at i w) ≡ at m (lower mx g m w) =
        next_state-at (length servers) mx g i w m e in
      let (s, found, mem) =
        index-mem servers m (subst (λ t. t < length servers) e (mod-lt (i + 1) some_server)) in
      let same : top ≡ s = cc in
      (
        s,
        ap (λ (r : CurrentState × Outcome (Option Server)). r.1)
              (loop_round servers mx g fuel (at i w) m (lower mx g m w) s next lo' (omega arith)
                found)
            ∙ weighs (lower mx g m w) s fuel m (omega (arith, ap (λ (t : Server). t.weight) same)),
        mem,
        (
          m,
          lower mx g m w,
          ap (λ (r : CurrentState × Outcome (Option Server)). r.0)
                (loop_round servers mx g fuel (at i w) m (lower mx g m w) s next lo' (omega arith)
                  found)
              ∙ stands (lower mx g m w) s fuel m
                  (omega (arith, ap (λ (t : Server). t.weight) same)),
          lo',
          omega arith,
        ),
      )
    where
      stands :
          (v : ℕ) (s : Server) (fuel m : ℕ)
          → v ≤ s.weight
          → (if leb v s.weight
              then (at m v, returned (some s))
              else loop servers mx g fuel (at m v)).0
            ≡ at m v
      stands v s fuel m p = ground arith

      weighs :
          (v : ℕ) (s : Server) (fuel m : ℕ)
          → v ≤ s.weight
          → (if leb v s.weight
              then (at m v, returned (some s))
              else loop servers mx g fuel (at m v)).1
            ≡ returned (some s)
      weighs v s fuel m p = ground arith
  reach_max (suc d) (suc fuel) i w m top at_m heavy some_server pm lo hi e enough =
      let j = (i + 1) % length servers in
      let (lo', hi') = lower_bounds j w 0 pm lo (omega arith) in
      round_cases fuel (at i w) j (lower mx g j w) (next_state-at (length servers) mx g i w j refl)
        lo' (omega arith) (mod-lt (i + 1) some_server)
        (reach_max d fuel j (lower mx g j w) m top at_m heavy some_server pm lo' (omega arith)
          (mod-add-mod (i + 1) (length servers) (suc d)
            ∙ ap (λ t. t % length servers) {x = i + 1 + suc d} {y = i + suc (suc d)} (omega arith)
            ∙ e)
          (omega arith))

  -- From any weight: each pass over index 0 takes at least 1 off the excess over `mx`.
  pub descend :
      (b d fuel i w m : ℕ) (top : Server)
      → index servers m ≡ returned top
      → m < length servers
      → mx ≤ top.weight
      → 0 < mx
      → 0 < g
      → 0 < w
      → w ≤ mx + b
      → mx + b < 2 ^ 32
      → (i + suc d) % length servers ≡ 0
      → d + b * length servers + length servers < fuel
      → Picks servers (loop servers mx g fuel (at i w))
  descend b d zero i w m top at_m inside heavy pm pg lo hi fits e enough = absurd (omega arith)
  descend zero d (suc fuel) i w m top at_m inside heavy pm pg lo hi fits e enough =
      let (k, lt, at_k) = next_at i (length servers) m inside in
      reach_max k (suc fuel) i w m top at_m heavy (omega arith) pm lo (omega arith) at_k
        (omega arith)
  descend (suc b) zero (suc fuel) i w m top at_m inside heavy pm pg lo hi fits e enough =
      let (lo', hi') = lower_bounds 0 w (suc b) pm lo hi in
      let falls = lower_falls w b pg hi in
      round_cases fuel (at i w) 0 (lower mx g 0 w) (next_state-at (length servers) mx g i w 0 e) lo'
        (omega arith) (omega arith)
        (descend b (length servers - 1) fuel 0 (lower mx g 0 w) m top at_m inside heavy pm pg lo'
          falls (omega arith)
          (ap (λ t. t % length servers) {x = 0 + suc (length servers - 1)} {y = length servers}
              (omega arith)
            ∙ mod_self (length servers))
          (omega arith))
  descend (suc b) (suc d) (suc fuel) i w m top at_m inside heavy pm pg lo hi fits e enough =
      let j = (i + 1) % length servers in
      let (lo', hi') = lower_bounds j w (suc b) pm lo hi in
      round_cases fuel (at i w) j (lower mx g j w) (next_state-at (length servers) mx g i w j refl)
        lo' (omega arith) (mod-lt (i + 1) (omega arith))
        (descend (suc b) d fuel j (lower mx g j w) m top at_m inside heavy pm pg lo' hi' fits
          (mod-add-mod (i + 1) (length servers) (suc d)
            ∙ ap (λ t. t % length servers) {x = i + 1 + suc d} {y = i + suc (suc d)} (omega arith)
            ∙ e)
          (omega arith))
