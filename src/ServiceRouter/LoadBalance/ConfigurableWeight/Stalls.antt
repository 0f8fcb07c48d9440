-- ===== src/ServiceRouter/LoadBalance/ConfigurableWeight/Stalls.antt =====
-- Two lists on which the loop of `Select` does not do what it is for.
use laser_db.ServiceRouter.LoadBalance.ConfigurableWeight.Rounds.{
  at, next_state-at, next_state-fresh, loop_round,
}
use mathlib.Core.Path.{ap₂}
use laser_db.ServiceRouter.LoadBalance.ConfigurableWeight.Divisor.{gcd_self}
use laser_db.Base.{
  ℕ, zero, suc, ◌^◌, ◌<◌, ◌≡◌, refl, ap, subst, ◌∙◌, ◌⊎◌, inl, inr, Option, some, [], ◌∷◌, arith,
  Outcome, returned, running, index, index_head, leb, if◌then◌else◌, nat_eq, string_eq,
}
use laser_db.ServiceRouter.Server.{Server, ServerList}
use laser_db.ServiceRouter.LoadBalance.ConfigurableWeight.{
  CurrentState, fresh, gcd, scan_weights, next_state, loop, Selected, configurable_weight_select,
}

loop-stalls :
    (fuel i w : ℕ) (s : Server)
    → s.weight < w
    → w < 2 ^ 32
    → (loop (s ∷ []) s.weight 0 fuel (at i w)).1 ≡ running
unfolding loop
loop-stalls zero i w s h lt = refl
loop-stalls (suc fuel) i w s h lt =
    ap (λ (r : Selected). r.1)
      (loop_round (s ∷ []) s.weight 0 fuel (at i w) 0 w s arrives (omega arith) lt found)
    ∙ too_heavy (loop-stalls fuel 0 w s h lt)
  where
    found : index (s ∷ []) 0 ≡ returned s
    found = index_head s []

    arrives : next_state 1 s.weight 0 (at i w) ≡ at 0 w
    arrives = next_state-at 1 s.weight 0 i w 0 (omega arith) ∙ ap (at 0) (ground arith)

    too_heavy :
        (loop (s ∷ []) s.weight 0 fuel (at 0 w)).1 ≡ running
        → (if leb w s.weight
            then (at 0 w, returned (some s))
            else loop (s ∷ []) s.weight 0 fuel (at 0 w)).1
          ≡ running
    too_heavy e = ground arith

-- A list of one server that weighs less than the current weight, which an earlier call on another
-- list left behind: the loop never ends, whatever the fuel.
pub single_stalls :
    (fuel i w : ℕ) (s : Server)
    → s.weight < w
    → w < 2 ^ 32
    → (configurable_weight_select fuel (at i w) (s ∷ [])).1 ≡ running
unfolding configurable_weight_select scan_weights
single_stalls fuel i w s h lt =
    subst (λ m. (loop (s ∷ []) m 0 fuel (at i w)).1 ≡ running) (ground arith)
      (loop-stalls fuel i w s h lt)

-- The states of a balancer that has only seen the list below.
abbrev pub Seen : ℕ → CurrentState → Type 0
Seen a st = (st ≡ fresh) ⊎ ((st ≡ at 0 a) ⊎ (st ≡ at 1 a))

module _ (a : ℕ) (s t u : Server) (es : s.weight ≡ a) (et : t.weight ≡ a) (eu : u.weight < a)
    (pa : 0 < a) (small : a < 2 ^ 32) where
  three : ServerList
  three = s ∷ t ∷ u ∷ []

  three-index :
      (index three 0 ≡ returned s) × (index three 1 ≡ returned t) × (index three 2 ≡ returned u)
  unfolding three index
  three-index = (refl, refl, refl)

  -- The scan leaves the last weight out of the divisor.
  three_scan : scan_weights 0 0 0 three ≡ returned (a, a)
  unfolding three scan_weights
  three_scan =
      rw (ap₂ gcd es et ∙ gcd_self a pa, ap (gcd a) et ∙ gcd_self a pa)
        (ap (λ (m : ℕ). returned (m, a)) (ground arith))

  -- A round that arrives at a server that weighs enough ends the loop.
  round_ends :
      (fuel : ℕ) (st : CurrentState) (j : ℕ) (v : Server)
      → next_state 3 a a st ≡ at j a
      → index three j ≡ returned v
      → v.weight ≡ a
      → loop three a a (suc fuel) st ≡ (at j a, returned (some v))
  unfolding three
  round_ends fuel st j v e found h = loop_round three a a fuel st j a v e pa small found ∙ heavy
    where
      heavy :
          (if leb a v.weight then (at j a, returned (some v)) else loop three a a fuel (at j a))
          ≡ (at j a, returned (some v))
      heavy = ground arith

  round_goes_on : (fuel : ℕ) → loop three a a (suc fuel) (at 1 a) ≡ loop three a a fuel (at 2 a)
  unfolding three
  round_goes_on fuel =
      loop_round three a a fuel (at 1 a) 2 a u (next_state-at 3 a a 1 a 2 refl) pa small
        three-index.2
      ∙ light
    where
      light :
          (if leb a u.weight then (at 2 a, returned (some u)) else loop three a a fuel (at 2 a))
          ≡ loop three a a fuel (at 2 a)
      light = ground arith

  abbrev Starves : CurrentState × Outcome (Option Server) → Type 0
  Starves r = ((r.1 ≡ returned (some s)) ⊎ (r.1 ≡ returned (some t))) × Seen a r.0

  three-loop :
      (fuel : ℕ) (st : CurrentState) → Seen a st → Starves (loop three a a (suc (suc fuel)) st)
  three-loop fuel st (inl e) =
      rw (e, round_ends (suc fuel) fresh 0 s (next_state-fresh 3 a a) three-index.0 es)
        (inl refl, inr (inl refl))
  three-loop fuel st (inr (inl e)) =
      rw (e, round_ends (suc fuel) (at 0 a) 1 t (next_state-at 3 a a 0 a 1 refl) three-index.1 et)
        (inr refl, inr (inr refl))
  three-loop fuel st (inr (inr e)) =
      rw
        (
          e,
          round_goes_on (suc fuel),
          round_ends fuel (at 2 a) 0 s (next_state-at 3 a a 2 a 0 refl ∙ ap (at 0) (ground arith))
              three-index.0 es,
        )
        (inl refl, inr (inl refl))

-- Of three servers, two of weight a and a last one that weighs less, the last is never chosen: its
-- weight is left out of the divisor, so the current weight never falls below a. From each state
-- that calls on this list lead to, a call picks one of the first two and leads to such a state.
pub last_starves :
    (fuel a : ℕ) (st : CurrentState) (s t u : Server)
    → s.weight ≡ a
    → t.weight ≡ a
    → u.weight < a
    → 0 < a
    → a < 2 ^ 32
    → Seen a st
    → 1 < fuel
    → let r = configurable_weight_select fuel st (s ∷ t ∷ u ∷ []) in
      ((r.1 ≡ returned (some s)) ⊎ (r.1 ≡ returned (some t))) × Seen a r.0
unfolding configurable_weight_select
last_starves zero a st s t u es et eu pa small seen enough = absurd (omega arith)
last_starves (suc zero) a st s t u es et eu pa small seen enough = absurd (omega arith)
last_starves (suc (suc fuel)) a st s t u es et eu pa small seen enough =
    unfold three in
    rw (three_scan a s t u es et eu pa small, configurable_weight_select)
      (three-loop a s t u es et eu pa small fuel st seen)
