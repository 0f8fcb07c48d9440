-- ===== src/ServiceRouter/Ticking/Life.antt =====
-- However a timer is stopped, restarted and reloaded, by one call after the other: it never ticks
-- twice.
use laser_db.Base.{
  ℕ, suc, ◌*◌, ◌^◌, ◌≤◌, ◌<◌, ◌≡◌, refl, sym, ap, subst, ◌∙◌, Bool, true, false, List, [], ◌∷◌,
  arith, All, returned, panicked, Holds, returned-Holds, nat_beq, nat_beq_iff, if◌then◌else◌,
  nat_eq,
}
use laser_db.Base.Maps.{has_key}
use laser_db.ServiceRouter.Ticking.{
  Timer, Goal, stopping, restarting, reloading, Caller, cancelling, storing, setting, making,
  entering, creating, finished, section, blank, calculate_ttl, calculate_interval, live_after,
}

-- A call begins where the one before it has returned, or goes on.
pub data Step (t : Timer) (c : Caller) : Timer → Caller → Type 0 where
  calls : (goal : Goal) → c ≡ finished → Step t c t (cancelling goal)
  runs : {u : Timer} {d : Caller} → section t c ≡ returned (u, d) → Step t c u d

pub data Reach (t : Timer) (c : Caller) : Timer → Caller → Type 0 where
  here : Reach t c t c
  next : {u v : Timer} {d e : Caller} → Reach t c u d → Step u d v e → Reach t c v e

-- One ticker, of the timer's period and context, if it is started, and none if it is not.
pub record IsSingle (t : Timer) : Type 0 where
  pub ticking : t.tickers ≡ (if t.started then (t.cancel, t.period) ∷ [] else [])
  pub positive : t.started ≡ true → 0 < t.period

running_only : Bool → ℕ → ℕ → List (ℕ × ℕ)
running_only b ctx period = if b then (ctx, period) ∷ [] else []

live_after-running_only :
    (b : Bool) (ctx period : ℕ) → live_after ctx (running_only b ctx period) ≡ []
unfolding running_only
live_after-running_only true ctx period = ground arith
live_after-running_only false ctx period = refl

cancelled-tickers : (t : Timer) → IsSingle t → live_after t.cancel t.tickers ≡ []
unfolding running_only
cancelled-tickers t h =
    ap (live_after t.cancel) h.ticking ∙ live_after-running_only t.started t.cancel t.period

-- The contexts that the timer knows were made before the next one.
abbrev Made : Timer → Type 0
Made t = All (λ k. k < t.contexts) t.cancelled × (t.cancel < t.contexts)

older : (m : ℕ) (ks : List ℕ) → All (λ k. k < m) ks → All (λ k. k < suc m) ks
older m [] h = tt
older m (k ∷ ks) h = (omega (arith, h.0), older m ks h.1)

has_key-new : (m : ℕ) (ks : List ℕ) → All (λ k. k < m) ks → has_key m ks ≡ false
unfolding has_key
has_key-new m [] h = refl
has_key-new m (k ∷ ks) h = ground (arith, h.0, has_key-new m ks h.1, nat_beq_iff k m)

-- What holds of the timer at each place of a call.
abbrev Stands : Timer → Caller → Type 0
Stands t finished = IsSingle t
Stands t (cancelling goal) = IsSingle t
Stands t (storing goal) = t.tickers ≡ []
Stands t (setting period) = (t.tickers ≡ []) × (t.started ≡ false)
Stands t making = (t.tickers ≡ []) × (t.started ≡ false)
Stands t (entering ctx) =
    (t.tickers ≡ []) × (t.started ≡ false) × (ctx ≡ t.cancel) × (has_key ctx t.cancelled ≡ false)
Stands t (creating ctx) =
    (t.tickers ≡ []) × (t.started ≡ true) × (ctx ≡ t.cancel) × (has_key ctx t.cancelled ≡ false)

abbrev Kept : Timer × Caller → Type 0
Kept r = Made r.0 × Stands r.0 r.1

after_stop-Kept :
    (t : Timer) (goal : Goal) → Made t → t.tickers ≡ [] → Holds Kept (section t (storing goal))
unfolding section
after_stop-Kept t stopping made none_left =
    (made, record { ticking = none_left; positive = λ e. ground (arith, e) })
after_stop-Kept t restarting made none_left = (made, (none_left, refl))
after_stop-Kept t (reloading period) made none_left = (made, (none_left, refl))

-- The ticker is made, or the period is not positive.
creating-Kept :
    (b : Bool) (t : Timer) (ctx : ℕ)
    → nat_beq t.period 0 ≡ b
    → Made t
    → Stands t (creating ctx)
    → Holds Kept (
        if b
        then panicked
        else returned (
          record t {
            tickers = if has_key ctx t.cancelled then t.tickers else (ctx, t.period) ∷ t.tickers;
          },
          finished,
        ))
creating-Kept true t ctx zero_period made h = tt
creating-Kept false t ctx some_period made (none_left, on, same, live) = (
  made,
  record {
    ticking =
        ap (λ b. if b then t.tickers else (ctx, t.period) ∷ t.tickers) live
        ∙ ap (λ ts. (ctx, t.period) ∷ ts) none_left
        ∙ ap (λ c. (c, t.period) ∷ []) same
        ∙ sym (ap (λ b. if b then (t.cancel, t.period) ∷ [] else []) on);
    positive = λ e. ground (arith, some_period);
  },
)

section-Kept : (t : Timer) (c : Caller) → Made t → Stands t c → Holds Kept (section t c)
unfolding section
section-Kept t (cancelling goal) made h = (((made.1, made.0), made.1), cancelled-tickers t h)
section-Kept t (storing goal) made h = after_stop-Kept t goal made h
section-Kept t (setting period) made h = (made, h)
section-Kept t making made h = (
  (older t.contexts t.cancelled made.0, omega arith),
  (h.0, h.1, refl, has_key-new t.contexts t.cancelled made.0),
)
section-Kept t (entering ctx) made (none_left, off, same, live) =
    subst
      (λ b. Holds Kept (
        if b
        then returned (t, finished)
        else returned (record t { started = true; runs = suc t.runs }, creating ctx)))
      (sym off) (made, (none_left, refl, same, live))
section-Kept t (creating ctx) made h = creating-Kept (nat_beq t.period 0) t ctx refl made h
section-Kept t finished made h = (made, h)

reach-Kept :
    (t : Timer) (c : Caller) (u : Timer) (d : Caller)
    → Made t
    → Stands t c
    → Reach t c u d
    → Kept (u, d)
reach-Kept t c u d made h here = (made, h)
reach-Kept t c u d made h (next {u = v} {d = e} r (calls goal same)) =
    let (made', h') = reach-Kept t c v e made h r in (made', subst (Stands v) same h')
reach-Kept t c u d made h (next {u = v} {d = e} r (runs q)) =
    let (made', h') = reach-Kept t c v e made h r in
    returned-Holds Kept (section v e) (u, d) q (section-Kept v e made' h')

-- A timer that is made, and then stopped, restarted and reloaded by one call after the other, each
-- called when the one before it has returned: whenever no call is under way, it has one live ticker,
-- of its current period, which is positive, if it is started, and else it has none.
pub reach-IsSingle :
    (period : ℕ) (u : Timer) → Reach (blank period) (entering 0) u finished → IsSingle u
unfolding has_key
reach-IsSingle period u r =
    (reach-Kept (blank period) (entering 0) u finished (tt, omega arith) (refl, refl, refl, refl)
      r).1

-- For a time to live of 2 milliseconds or more that does not wrap when it is doubled, and a pull
-- interval of a second or more that does not wrap when it is multiplied by 2000: the period is
-- positive and less than the time itself, so a timer starts and ticks in time.
pub period_bounds :
    (ttl interval : ℕ)
    → 2 ≤ ttl
    → ttl < 2 ^ 31
    → 1 ≤ interval
    → interval * 2000 < 2 ^ 32
    → ((0 < calculate_ttl ttl) × (calculate_ttl ttl < ttl))
      × ((0 < calculate_interval interval) × (calculate_interval interval < interval * 1000))
unfolding calculate_ttl calculate_interval
period_bounds ttl interval some_ttl small_ttl some_interval small_interval = ground arith
