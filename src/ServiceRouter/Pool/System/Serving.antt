-- ===== src/ServiceRouter/Pool/System/Serving.antt =====
-- A pool that waits, until it is closed.
use laser_db.Base.{
  ℕ, zero, suc, ◌+◌, ◌≤◌, ◌<◌, ◌≡◌, refl, sym, ap, subst, ◌∙◌, inl, inr, true, false, List, [], ◌∷◌,
  ◌++◌, arith, length, All, Option-cases, nat_eq, string_eq,
}
use laser_db.Base.Int.{pos}
use laser_db.ServiceRouter.Pool.{
  Pool, Goroutine, Answer, starting, queueing, entering, closing_stale, checking, closing_bad,
  dialing, dial_failed, failed, releasing, closing_released, released, one_less, pop_stale, signal,
  take_idle, prune, advance, close,
}
use laser_db.ServiceRouter.Pool.System.{
  ClosesOnce, owns, permits, sum_of, sum_of-append, System, Step, calls, runs, closes, Reach, here,
  next,
}
use laser_db.ServiceRouter.Pool.System.Counting.{IsCounted, Step-IsCounted}
use laser_db.ServiceRouter.Pool.System.Tokens.{GoesOn, Balanced, Waits, advance-Waits}

owns-le-permits : (g : Goroutine) → owns g ≤ permits g
owns-le-permits entering = omega arith
owns-le-permits starting = omega arith
owns-le-permits _ = omega arith

sum_of-owns-le : (gs : List Goroutine) → sum_of owns gs ≤ sum_of permits gs
sum_of-owns-le [] = omega arith
sum_of-owns-le (g ∷ gs) = omega (arith, owns-le-permits g, sum_of-owns-le gs)

take_idle-closed : (p : Pool) → (take_idle p).0.closed ≡ p.closed
unfolding take_idle
take_idle-closed p = ground arith

prune-closed : (now left : ℕ) (p : Pool) → (prune now left p).0.closed ≡ p.closed
unfolding prune
prune-closed now zero p = take_idle-closed p
prune-closed now (suc left) p = elim (Option-cases (pop_stale p now)) [
  | inl e ↦ rw (e, prune) (take_idle-closed p)
  | inr (x, e) ↦ rw (e, prune) refl
]

signal-closed : (p : Pool) (g : Goroutine) → (signal p g).0.closed ≡ p.closed
unfolding signal
signal-closed p g = ground arith

-- No section closes the pool, and none opens it again.
advance-closed : (p : Pool) (g : Goroutine) (a : Answer) → (advance p g a).0.closed ≡ p.closed
unfolding advance
advance-closed p starting a = ground arith
advance-closed p queueing a = ground arith
advance-closed p entering a =
    ground (arith, prune-closed a.now (length p.idle) p, take_idle-closed p)
advance-closed p (closing_stale left) a = prune-closed a.now left (one_less p)
advance-closed p closing_bad a = take_idle-closed (one_less p)
advance-closed p dial_failed a = signal-closed (one_less p) failed
advance-closed p (releasing c e f) a = ground arith
advance-closed p (closing_released c) a = signal-closed (one_less p) (released c)
advance-closed p (checking c) a = ground arith
advance-closed p dialing a = ground arith
advance-closed p _ a = refl

-- The limits and the balance of the tokens. No goroutine is stuck, and none was turned away.
pub record IsServing (ma mi : ℕ) (s : System) : Type 0 where
  pub counted : IsCounted s
  pub active_cap : s.pool.max_active ≡ ma
  pub idle_cap : s.pool.max_idle ≡ mi
  pub waits : s.pool.wait ≡ true
  pub not_closed : s.pool.closed ≡ false
  pub idle_bound : length s.pool.idle ≤ mi
  pub bound : length s.pool.idle + sum_of owns s.goroutines ≤ ma
  pub balanced : Balanced ma s.pool (sum_of permits s.goroutines)
  pub goes_on : All GoesOn s.goroutines

All-append :
    (before : List Goroutine) (g : Goroutine) (after : List Goroutine)
    → All GoesOn (before ++ g ∷ after)
    → (h : Goroutine) → GoesOn h
    → GoesOn g × All GoesOn (before ++ h ∷ after)
All-append [] g after all h ok = (all.0, (ok, all.1))
All-append (b ∷ before) g after all h ok =
    let (one, rest) = All-append before g after all.1 h ok in (one, (all.0, rest))

All-at :
    (before : List Goroutine) (g : Goroutine) (after : List Goroutine)
    → All GoesOn (before ++ g ∷ after)
    → GoesOn g
All-at [] g after all = all.0
All-at (b ∷ before) g after all = All-at before g after all.1

Step-IsServing :
    (ma mi : ℕ) (s t : System)
    → 0 < ma
    → (st : Step s t) → ClosesOnce st
    → t.pool.closed ≡ false
    → IsServing ma mi s
    → IsServing ma mi t
unfolding close
Step-IsServing ma mi s t some_active calls once open_still h = record {
  counted = Step-IsCounted s t calls once h.counted;
  active_cap = h.active_cap;
  idle_cap = h.idle_cap;
  waits = h.waits;
  not_closed = h.not_closed;
  idle_bound = h.idle_bound;
  bound = omega (arith, h.bound);
  balanced = ground (arith, h.balanced);
  goes_on = (((λ e. cc), (λ e. cc)), h.goes_on);
}
Step-IsServing ma mi s t some_active (runs before g after a e) once open_still h = record {
  counted = Step-IsCounted s t (runs before g after a e) once h.counted;
  active_cap = w.active_cap;
  idle_cap = w.idle_cap;
  waits = w.waits;
  not_closed = w.not_closed;
  idle_bound = w.idle_bound;
  bound = omega (arith, w.bound, sum_of-append owns before (advance s.pool g a).1 after);
  balanced = ground (arith, w.balanced, sum_of-append permits before (advance s.pool g a).1 after);
  goes_on = (All-append before g after all (advance s.pool g a).1 w.goes_on).1;
}
  where
    all : All GoesOn (before ++ g ∷ after)
    all = subst (All GoesOn) e h.goes_on

    held : sum_of owns s.goroutines ≡ owns g + (sum_of owns before + sum_of owns after)
    held = ap (sum_of owns) e ∙ sum_of-append owns before g after

    taken : sum_of permits s.goroutines ≡ permits g + (sum_of permits before + sum_of permits after)
    taken = ap (sum_of permits) e ∙ sum_of-append permits before g after

    w :
        Waits ma mi
          (sum_of owns before + sum_of owns after)
          (sum_of permits before + sum_of permits after)
          (advance s.pool g a).0
          (advance s.pool g a).1
    w =
        advance-Waits ma mi some_active _ _ s.pool g a once
          (h.counted ∙ ap pos (omega (arith, held)))
          (record {
            active_cap = h.active_cap;
            idle_cap = h.idle_cap;
            waits = h.waits;
            not_closed = h.not_closed;
            covered = omega (arith, sum_of-owns-le before, sum_of-owns-le after);
            idle_bound = h.idle_bound;
            bound = omega (arith, h.bound, held);
            balanced = subst (Balanced ma s.pool) taken h.balanced;
            goes_on = All-at before g after all;
          })
Step-IsServing ma mi s t some_active closes once open_still h = absurd (ground arith)

Step-closed : (s t : System) → Step s t → t.pool.closed ≡ false → s.pool.closed ≡ false
unfolding close
Step-closed s t calls e = e
Step-closed s t (runs before g after a _) e = sym (advance-closed s.pool g a) ∙ e
Step-closed s t closes e = ground arith

-- As long as the pool is not closed and no goroutine calls `Close` a second time on a connection
-- that it acquired, in every interleaving: a pool that waits has at most `MaxActive` connections
-- open and `MaxIdle` idle, the tokens in the channel and those taken make
-- up `MaxActive`, no goroutine blocks in a send with the mutex held, and none gets
-- `ErrPoolExhausted`.
pub reach-IsServing :
    (ma mi : ℕ) (s t : System)
    → 0 < ma
    → IsServing ma mi s
    → Reach s t
    → t.pool.closed ≡ false
    → IsServing ma mi t
reach-IsServing ma mi s t some_active h here open_still = h
reach-IsServing ma mi s t some_active h (next {t = u} r st once) open_still =
    Step-IsServing ma mi u t some_active st once open_still
      (reach-IsServing ma mi s u some_active h r (Step-closed u t st open_still))
