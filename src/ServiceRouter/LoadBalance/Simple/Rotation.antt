-- ===== src/ServiceRouter/LoadBalance/Simple/Rotation.antt =====
-- The rotation of `LoadBalanceRoundrobin`.
use native.Mathlib.Nat.{mod-lt, mod-add-mod, mod-eq_of_lt, add-mod_right}
use native.Mathlib.Decide.{dec_le}
use laser_db.Base.{
  ℕ, zero, suc, ◌+◌, ◌-◌, ◌%◌, ◌^◌, ◌<◌, ◌≡◌, refl, sym, ap, ◌∙◌, ◌∷◌, arith, length,
}
use laser_db.Base.Words.{add64}
use laser_db.ServiceRouter.Server.{Server, ServerList}
use laser_db.ServiceRouter.LoadBalance.Simple.{LoadBalanceRoundrobin, roundrobin_select, pick}

-- The state after k calls on one list.
unfoldable pub after_calls : ℕ → ServerList → LoadBalanceRoundrobin → LoadBalanceRoundrobin
after_calls zero servers lb = lb
after_calls (suc k) servers lb = (roundrobin_select (after_calls k servers lb) servers).0

request-after_calls :
    (k : ℕ) (s : Server) (ss : ServerList) (lb : LoadBalanceRoundrobin)
    → lb.request + k < 2 ^ 64
    → (after_calls k (s ∷ ss) lb).request ≡ lb.request + k
unfolding after_calls roundrobin_select
request-after_calls zero s ss lb h = omega arith
request-after_calls (suc k) s ss lb h = omega (arith, request-after_calls k s ss lb (omega arith))

-- For a position in a list of n servers, one of the next n numbers falls on it.
next_at_from :
    (r n i q : ℕ) → i < n → (r + 1) % n ≡ q → q < n → (k : ℕ) × (k < n) × ((r + suc k) % n ≡ i)
next_at_from r n i q h e lt = elim (dec_le q i) [
  | yes p ↦ (
    i - q,
    omega arith,
    ap (λ t. t % n) {x = r + suc (i - q)} {y = r + 1 + (i - q)} (omega arith)
        ∙ sym (mod-add-mod (r + 1) n (i - q))
        ∙ ap (λ t. (t + (i - q)) % n) e
        ∙ ap (λ t. t % n) {x = q + (i - q)} {y = i} (omega arith)
        ∙ mod-eq_of_lt h,
  )
  | no p ↦ (
    i + n - q,
    omega arith,
    ap (λ t. t % n) {x = r + suc (i + n - q)} {y = r + 1 + (i + n - q)} (omega arith)
        ∙ sym (mod-add-mod (r + 1) n (i + n - q))
        ∙ ap (λ t. (t + (i + n - q)) % n) e
        ∙ ap (λ t. t % n) {x = q + (i + n - q)} {y = i + n} (omega arith)
        ∙ add-mod_right i n
        ∙ mod-eq_of_lt h,
  )
]

pub next_at : (r n i : ℕ) → i < n → (k : ℕ) × (k < n) × ((r + suc k) % n ≡ i)
next_at r n i h = next_at_from r n i ((r + 1) % n) h refl (mod-lt (r + 1) (omega arith))

-- While the counter does not wrap, the next n calls on a list of n servers pick every position:
-- for each position one of them returns the server that stands there.
pub roundrobin_visits :
    (s : Server) (ss : ServerList) (lb : LoadBalanceRoundrobin) (i : ℕ)
    → i < length (s ∷ ss)
    → lb.request + length (s ∷ ss) < 2 ^ 64
    → (k : ℕ) × (k < length (s ∷ ss))
      × ((roundrobin_select (after_calls k (s ∷ ss) lb) (s ∷ ss)).1 ≡ pick (s ∷ ss) i)
unfolding roundrobin_select
roundrobin_visits s ss lb i h room =
    let (k, lt, e) = next_at lb.request (length (s ∷ ss)) i h in
    (k, lt, ap (pick (s ∷ ss)) (at_call k lt ∙ e))
  where
    at_call :
        (k : ℕ)
        → k < length (s ∷ ss)
        → add64 (after_calls k (s ∷ ss) lb).request 1 % length (s ∷ ss)
          ≡ (lb.request + suc k) % length (s ∷ ss)
    at_call k lt =
        ap (λ t. t % length (s ∷ ss)) (omega (arith, request-after_calls k s ss lb (omega arith)))
