-- ===== src/ServiceRouter/LoadBalance/ConfigurableWeight/Select.antt =====
-- `Select` as a whole, for two servers or more of positive weights.
use laser_db.Base.{
  ℕ, zero, suc, ◌+◌, ◌-◌, ◌*◌, ◌^◌, ◌≤◌, ◌<◌, ◌≡◌, refl, sym, subst, ◌⊎◌, inl, inr, [], ◌∷◌, arith,
  Outcome, returned, index, length, All, nat_eq, string_eq,
}
use native.Mathlib.Decide.{dec_lt, dec_le}
use laser_db.ServiceRouter.Server.{Server, ServerList}
use laser_db.ServiceRouter.LoadBalance.ConfigurableWeight.{
  CurrentState, fresh, max, scan_weights, loop, configurable_weight_select,
}
use laser_db.ServiceRouter.LoadBalance.Simple.Rotation.{next_at}
use laser_db.ServiceRouter.LoadBalance.ConfigurableWeight.Divisor.{gcd-IsGcd}
use laser_db.ServiceRouter.LoadBalance.ConfigurableWeight.Rounds.{at, next_state-fresh}
use laser_db.ServiceRouter.LoadBalance.ConfigurableWeight.Progress.{Picks, round_cases, descend}

abbrev pub IsWeighted : Server → Type 0
IsWeighted s = (0 < s.weight) × (s.weight < 2 ^ 32)

-- A server of the list has this weight.
record Reaches (servers : ServerList) (mx : ℕ) : Type 0 where
  place : ℕ
  top : Server
  at_place : index servers place ≡ returned top
  inside : place < length servers
  weighs : top.weight ≡ mx
  bounded : mx < 2 ^ 32

shift : (s : Server) {rest : ServerList} {mx : ℕ} → Reaches rest mx → Reaches (s ∷ rest) mx
unfolding index
shift s r = record {
  place = suc r.place;
  top = r.top;
  at_place = r.at_place;
  inside = omega (arith, r.inside);
  weighs = r.weighs;
  bounded = r.bounded;
}

-- The greater of `mx0` and the first weight is `mx0`, or is a weight of the list.
head_or :
    (mx0 mx : ℕ) (s : Server) (rest : ServerList)
    → s.weight < 2 ^ 32
    → mx ≡ max mx0 s.weight
    → (mx ≡ mx0) ⊎ Reaches (s ∷ rest) mx
unfolding index
head_or mx0 mx s rest small e = elim (dec_lt s.weight mx0) [
  | yes p ↦ inl (ground arith)
  | no p ↦ inr (record {
    place = 0;
    top = s;
    at_place = refl;
    inside = omega arith;
    weighs = ground arith;
    bounded = ground arith;
  })
]

abbrev Scanned : ServerList → ℕ → Outcome (ℕ × ℕ) → Type 0
Scanned servers mx0 r =
    (mx : ℕ) × (g : ℕ) × (r ≡ returned (mx, g))
    × (0 < g)
    × (mx0 ≤ mx)
    × ((mx ≡ mx0) ⊎ Reaches servers mx)

-- The scan of a longer list goes on from the scan of its tail.
extend_scan :
    (mx0 : ℕ) (s : Server) (rest : ServerList) (r : Outcome (ℕ × ℕ))
    → s.weight < 2 ^ 32
    → Scanned rest (max mx0 s.weight) r
    → Scanned (s ∷ rest) mx0 r
extend_scan mx0 s rest r small (mx, g, e, pg, le, inl same) =
    (mx, g, e, pg, ground arith, head_or mx0 mx s rest small same)
extend_scan mx0 s rest r small (mx, g, e, pg, le, inr there) =
    (mx, g, e, pg, ground arith, inr (shift s there))

scan_later :
    (i mx0 g0 : ℕ) (s : Server) (rest : ServerList)
    → 0 < g0
    → All IsWeighted (s ∷ rest)
    → Scanned (s ∷ rest) mx0 (scan_weights (suc i) mx0 g0 (s ∷ rest))
unfolding scan_weights
scan_later i mx0 g0 s [] pg all =
    (max mx0 s.weight, g0, refl, pg, ground arith, head_or mx0 _ s [] all.0.1 refl)
scan_later i mx0 g0 s (t ∷ rest) pg all =
    let (g, e, d) = gcd-IsGcd g0 s.weight all.0.0 in
    rw e (
      extend_scan mx0 s (t ∷ rest) _ all.0.1
        (scan_later (suc i) (max mx0 s.weight) g t rest d.positive all.1))

abbrev Complete : ServerList → Outcome (ℕ × ℕ) → Type 0
Complete servers r =
    (mx : ℕ) × (g : ℕ) × (r ≡ returned (mx, g)) × (0 < g) × (0 < mx) × Reaches servers mx

complete :
    (s : Server) (rest : ServerList) (r : Outcome (ℕ × ℕ))
    → IsWeighted s
    → Scanned rest (max 0 s.weight) r
    → Complete (s ∷ rest) r
complete s rest r (pos_weight, small) (mx, g, e, pg, le, inr there) =
    (mx, g, e, pg, ground arith, shift s there)
complete s rest r (pos_weight, small) (mx, g, e, pg, le, inl same) =
    (mx, g, e, pg, ground arith, nonzero (head_or 0 mx s rest small same))
  where
    nonzero : (mx ≡ 0) ⊎ Reaches (s ∷ rest) mx → Reaches (s ∷ rest) mx
    nonzero (inl z) = absurd (ground arith)
    nonzero (inr there) = there

scan_first :
    (s t : Server) (rest : ServerList)
    → All IsWeighted (s ∷ t ∷ rest)
    → Complete (s ∷ t ∷ rest) (scan_weights 0 0 0 (s ∷ t ∷ rest))
unfolding scan_weights
scan_first s t rest all =
    let (g, e, d) = gcd-IsGcd s.weight t.weight all.1.0.0 in
    rw e (complete s (t ∷ rest) _ all.0 (scan_later 0 (max 0 s.weight) g t rest d.positive all.1))

-- The states between two calls: a new balancer, and an index with a positive weight.
abbrev pub IsState : ℕ → CurrentState → Type 0
IsState w st = ((w ≡ 0) × (st ≡ fresh)) ⊎ ((0 < w) × (w < 2 ^ 32) × ((i : ℕ) × (st ≡ at i w)))

-- The head of `Select`: the scan succeeds, and the loop is entered with what it found.
select-loop :
    (fuel : ℕ) (st : CurrentState) (s : Server) (ss : ServerList) (mx g : ℕ)
    → scan_weights 0 0 0 (s ∷ ss) ≡ returned (mx, g)
    → configurable_weight_select fuel st (s ∷ ss) ≡ loop (s ∷ ss) mx g fuel st
unfolding configurable_weight_select
select-loop fuel st s ss mx g e = rw (e, configurable_weight_select)

-- From a weight that exceeds the greatest by at most b.
excess-Picks :
    (servers : ServerList) (mx g fuel i w b : ℕ)
    → 0 < g
    → 0 < mx
    → Reaches servers mx
    → 0 < w
    → w ≤ mx + b
    → mx + b < 2 ^ 32
    → (b + 2) * length servers < fuel
    → Picks servers (loop servers mx g fuel (at i w))
excess-Picks servers mx g fuel i w b pg pm r lo hi fits enough =
    let (k, lt, e) = next_at i (length servers) 0 (omega (arith, r.inside)) in
    descend servers mx g r.bounded b k fuel i w r.place r.top r.at_place r.inside
      (omega (arith, r.weighs)) pm pg lo hi fits e (omega arith)

loop-Picks :
    (servers : ServerList) (mx g fuel w : ℕ) (st : CurrentState)
    → 0 < g
    → 0 < mx
    → Reaches servers mx
    → IsState w st
    → (w + 3) * length servers < fuel
    → Picks servers (loop servers mx g fuel st)
loop-Picks servers mx g zero w st pg pm r _ enough = absurd (omega arith)
loop-Picks servers mx g (suc fuel) w st pg pm r (inl (e, new)) enough =
    subst (λ t. Picks servers (loop servers mx g (suc fuel) t)) (sym new)
      (round_cases servers mx g r.bounded fuel fresh 0 mx (next_state-fresh (length servers) mx g)
        pm r.bounded (omega (arith, r.inside))
        (excess-Picks servers mx g fuel 0 mx 0 pg pm r pm (omega arith) (omega (arith, r.bounded))
          (grind (arith, r.inside))))
loop-Picks servers mx g (suc fuel) w st pg pm r (inr (lo, hi, (i, e))) enough =
    subst (λ t. Picks servers (loop servers mx g (suc fuel) t)) (sym e)
      (elim (dec_le w mx) [
        | yes p ↦
            excess-Picks servers mx g (suc fuel) i w 0 pg pm r lo (omega arith)
              (omega (arith, r.bounded)) (grind (arith, r.inside))
        | no p ↦
            excess-Picks servers mx g (suc fuel) i w (w - mx) pg pm r lo (omega arith) (omega arith)
              (grind (arith, r.inside))
      ])

-- Two servers or more of positive weights, from the state of a new balancer (w is 0) or from any
-- index with a weight w that is positive and below 2^32: `Select` does not panic, its loop ends within
-- (w + 3) * n rounds on n servers, and it returns a server of the list and leaves a state of the
-- second kind, so that the next call, on whatever such list, starts from one again.
pub configurable_weight_select-Picks :
    (fuel w : ℕ) (st : CurrentState) (s t : Server) (rest : ServerList)
    → All IsWeighted (s ∷ t ∷ rest)
    → IsState w st
    → (w + 3) * length (s ∷ t ∷ rest) < fuel
    → Picks (s ∷ t ∷ rest) (configurable_weight_select fuel st (s ∷ t ∷ rest))
configurable_weight_select-Picks fuel w st s t rest all state enough =
    let (mx, g, e, pg, pm, there) = scan_first s t rest all in
    subst (Picks (s ∷ t ∷ rest)) (sym (select-loop fuel st s (t ∷ rest) mx g e))
      (loop-Picks (s ∷ t ∷ rest) mx g fuel w st pg pm there state enough)
