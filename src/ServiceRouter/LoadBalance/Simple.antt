-- ===== src/ServiceRouter/LoadBalance/Simple.antt =====
-- load_balance.go, `LoadBalanceRandom` and `LoadBalanceRoundrobin`. A `Select` returns its two
-- results as an option: `some server` for `(server, true)`, `none` for `(nil, false)`.
pub mod Rotation
use laser_db.Base.{
  ℕ, zero, suc, ◌+◌, ◌%◌, ◌<◌, ◌≡◌, refl, List, [], ◌∷◌, Option, none, some, arith, Outcome,
  returned, panicked, running, ◌>>=◌, index, index-mem, length, Memᴰ,
}
use laser_db.Base.Words.{add64}
use laser_db.ServiceRouter.Server.{Server, ServerList}

-- `rand.Int(rand.Reader, n)`: a number below n, for n above 0.
abbrev pub Draw : Type 0
Draw = ℕ → ℕ

abbrev pub IsBelow : Draw → Type 0
IsBelow draw = (n : ℕ) → 0 < n → draw n < n

-- `&serverList[idx]`, with `true`.
abbrev pub pick : ServerList → ℕ → Outcome (Option Server)
pick servers i = index servers i >>= λ server. returned (some server)

unfoldable pub random_select : Draw → ServerList → Outcome (Option Server)
random_select draw [] = returned none
random_select draw (s ∷ ss) = pick (s ∷ ss) (draw (length (s ∷ ss)))

pub record LoadBalanceRoundrobin : Type 0 where
  pub request : ℕ

abbrev pub new_roundrobin : LoadBalanceRoundrobin
new_roundrobin = record { request = 0 }

unfoldable pub roundrobin_select :
    LoadBalanceRoundrobin → ServerList → LoadBalanceRoundrobin × Outcome (Option Server)
unfolding add64
roundrobin_select lb [] = (lb, returned none)
roundrobin_select lb (s ∷ ss) =
    let req = add64 lb.request 1 in
    (record { request = req }, pick (s ∷ ss) (req % length (s ∷ ss)))

-- An index in range is picked, and is a server of the list.
pub pick-mem :
    (servers : ServerList) (i : ℕ)
    → i < length servers
    → (s : Server) × (pick servers i ≡ returned (some s)) × Memᴰ s servers
pick-mem servers i h = let (s, e, m) = index-mem servers i h in (s, ground arith, m)

-- A random choice from a list with a server returns a server of the list.
pub random_select-mem :
    (draw : Draw) (s : Server) (ss : ServerList)
    → IsBelow draw
    → (t : Server) × (random_select draw (s ∷ ss) ≡ returned (some t)) × Memᴰ t (s ∷ ss)
unfolding random_select
random_select-mem draw s ss below =
    pick-mem (s ∷ ss) (draw (length (s ∷ ss))) (below (length (s ∷ ss)) (omega arith))
