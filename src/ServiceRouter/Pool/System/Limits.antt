-- ===== src/ServiceRouter/Pool/System/Limits.antt =====
-- A pool that does not wait: never more than `MaxActive` connections, nor more than `MaxIdle` idle
-- ones.
use laser_db.Base.{
  ℕ, zero, suc, ◌+◌, ◌≤◌, ◌<◌, ◌≡◌, refl, ap, ◌∙◌, inl, inr, Bool, false, none, List, [], ◌∷◌, ◌++◌,
  arith, length, Option-cases, nat_eq, string_eq,
}
use laser_db.Base.Int.{pos}
use laser_db.ServiceRouter.Pool.{
  Pool, PoolConn, Goroutine, Answer, starting, queueing, entering, closing_stale, checking,
  closing_bad, dialing, dial_failed, holding, exhausted, failed, releasing, closing_released,
  released, stuck, pop_stale, signal, take_idle, prune, one_less, take_token, shrink, put_back,
  advance, close,
}
use laser_db.ServiceRouter.Pool.System.{
  IsOpen, ClosesOnce, owns, sum_of, sum_of-append, System, Step, calls, runs, closes, Reach, here,
  next,
}
use laser_db.ServiceRouter.Pool.System.Counting.{
  pop_back-cases, pop_stale-length, length-append, IsCounted, Step-IsCounted, one_less-Counts,
}

-- With n connections open elsewhere.
record Fits (ma mi n : ℕ) (p : Pool) (g : Goroutine) : Type 0 where
  active_cap : p.max_active ≡ ma
  idle_cap : p.max_idle ≡ mi
  no_wait : p.wait ≡ false
  no_queue : p.queue ≡ none
  idle_bound : length p.idle ≤ mi
  bound : length p.idle + (owns g + n) ≤ ma

module _ (ma mi : ℕ) (some_active : 0 < ma) where
  -- Once a connection is closed and counted off, its goroutine owns nothing.
  without :
      (n : ℕ) (p : Pool) (g : Goroutine) → Fits ma mi n p g → Fits ma mi n (one_less p) starting
  without n p g h = ground arith

  take_idle-Fits :
      (n : ℕ) (p : Pool) (g : Goroutine)
      → p.active ≡ pos (length p.idle + n)
      → owns g ≡ 0
      → Fits ma mi n p g
      → Fits ma mi n (take_idle p).0 (take_idle p).1
  unfolding take_idle
  take_idle-Fits n p g counted z h = ground arith

  prune-Fits :
      (n now left : ℕ) (p : Pool) (g : Goroutine)
      → p.active ≡ pos (length p.idle + n)
      → owns g ≡ 0
      → Fits ma mi n p g
      → Fits ma mi n (prune now left p).0 (prune now left p).1
  unfolding prune
  prune-Fits n now zero p g counted z h = take_idle-Fits n p g counted z h
  prune-Fits n now (suc left) p g counted z h = elim (Option-cases (pop_stale p now)) [
    | inl e ↦ rw (e, prune) (take_idle-Fits n p g counted z h)
    | inr ((b, rest), e) ↦ rw (e, prune) (ground (arith, pop_stale-length p now b rest e))
  ]

  shrink-Fits :
      (n : ℕ) (p : Pool) (c : PoolConn) (cs : List PoolConn) (g : Goroutine)
      → length cs ≡ suc (length p.idle)
      → owns g ≡ 1
      → Fits ma mi n p g
      → Fits ma mi n (shrink p c cs).0 (shrink p c cs).1
  unfolding shrink signal
  shrink-Fits n p c cs g longer one h = ground (arith, pop_back-cases cs)

  put_back-Fits :
      (n : ℕ) (p : Pool) (c : PoolConn) (now : ℕ) (e f : Bool) (g : Goroutine)
      → owns g ≡ 1
      → Fits ma mi n p g
      → Fits ma mi n (put_back p c now e f).0 (put_back p c now e f).1
  unfolding put_back
  put_back-Fits n p c now e f g one h =
      let c' : PoolConn = record c { active_time = now } in
      ground (
        arith,
        shrink-Fits n p c' (p.idle ++ c' ∷ []) g (length-append p.idle c') one h,
        shrink-Fits n p c' (c' ∷ p.idle) g refl one h,
      )

  advance-Fits :
      (n : ℕ) (p : Pool) (g : Goroutine) (a : Answer)
      → IsOpen g
      → p.active ≡ pos (length p.idle + (owns g + n))
      → Fits ma mi n p g
      → Fits ma mi n (advance p g a).0 (advance p g a).1
  unfolding advance take_token signal
  advance-Fits n p starting a open_yet counted h = ground arith
  advance-Fits n p queueing a open_yet counted h = ground arith
  advance-Fits n p entering a open_yet counted h =
      let counted' : p.active ≡ pos (length p.idle + n) = counted ∙ ap pos (omega arith) in
      ground (
        arith,
        prune-Fits n a.now (length p.idle) p entering counted' refl h,
        take_idle-Fits n p entering counted' refl h,
      )
  advance-Fits n p (closing_stale left) a open_yet counted h =
      prune-Fits n a.now left (one_less p) starting (one_less-Counts n p counted) refl
        (without n p (closing_stale left) h)
  advance-Fits n p (checking c) a open_yet counted h = ground arith
  advance-Fits n p closing_bad a open_yet counted h =
      take_idle-Fits n (one_less p) starting (one_less-Counts n p counted) refl
        (without n p closing_bad h)
  advance-Fits n p dialing a open_yet counted h = ground arith
  advance-Fits n p dial_failed a open_yet counted h = ground arith
  advance-Fits n p (holding c) a open_yet counted h = ground arith
  advance-Fits n p (releasing c e f) a open_yet counted h =
      put_back-Fits n p c a.now e f (releasing c e f) refl h
  advance-Fits n p (closing_released c) a open_yet counted h = ground arith
  advance-Fits n p exhausted a open_yet counted h = h
  advance-Fits n p failed a open_yet counted h = h
  advance-Fits n p (released c) a open_yet counted h = absurd open_yet
  advance-Fits n p stuck a open_yet counted h = h

-- The configuration is the given one, the pool does not wait, and both limits are kept.
pub record IsWithin (ma mi : ℕ) (s : System) : Type 0 where
  pub counted : IsCounted s
  pub active_cap : s.pool.max_active ≡ ma
  pub idle_cap : s.pool.max_idle ≡ mi
  pub no_wait : s.pool.wait ≡ false
  pub no_queue : s.pool.queue ≡ none
  pub idle_bound : length s.pool.idle ≤ mi
  pub bound : length s.pool.idle + sum_of owns s.goroutines ≤ ma

Step-IsWithin :
    (ma mi : ℕ) (s t : System)
    → 0 < ma
    → (st : Step s t) → ClosesOnce st
    → IsWithin ma mi s
    → IsWithin ma mi t
unfolding close
Step-IsWithin ma mi s t some_active calls once h = record {
  counted = Step-IsCounted s t calls once h.counted;
  active_cap = h.active_cap;
  idle_cap = h.idle_cap;
  no_wait = h.no_wait;
  no_queue = h.no_queue;
  idle_bound = h.idle_bound;
  bound = omega (arith, h.bound);
}
Step-IsWithin ma mi s t some_active (runs before g after a e) once h = record {
  counted = Step-IsCounted s t (runs before g after a e) once h.counted;
  active_cap = f.active_cap;
  idle_cap = f.idle_cap;
  no_wait = f.no_wait;
  no_queue = f.no_queue;
  idle_bound = f.idle_bound;
  bound = omega (arith, f.bound, sum_of-append owns before (advance s.pool g a).1 after);
}
  where
    total : sum_of owns s.goroutines ≡ owns g + (sum_of owns before + sum_of owns after)
    total = ap (sum_of owns) e ∙ sum_of-append owns before g after

    f :
        Fits ma mi
          (sum_of owns before + sum_of owns after)
          (advance s.pool g a).0
          (advance s.pool g a).1
    f =
        advance-Fits ma mi some_active _ s.pool g a once (h.counted ∙ ap pos (omega (arith, total)))
          (record {
            active_cap = h.active_cap;
            idle_cap = h.idle_cap;
            no_wait = h.no_wait;
            no_queue = h.no_queue;
            idle_bound = h.idle_bound;
            bound = omega (arith, h.bound, total);
          })
Step-IsWithin ma mi s t some_active closes once h = record {
  counted = Step-IsCounted s t closes once h.counted;
  active_cap = close_keeps.0 ∙ h.active_cap;
  idle_cap = close_keeps.1 ∙ h.idle_cap;
  no_wait = close_keeps.2 ∙ h.no_wait;
  no_queue = close_keeps.3 ∙ h.no_queue;
  idle_bound = omega (arith, close_keeps.4, h.idle_bound);
  bound = omega (arith, close_keeps.4, h.bound);
}
  where
    close_keeps :
        ((close s.pool).max_active ≡ s.pool.max_active)
        × ((close s.pool).max_idle ≡ s.pool.max_idle)
        × ((close s.pool).wait ≡ s.pool.wait)
        × ((close s.pool).queue ≡ s.pool.queue)
        × (length (close s.pool).idle ≤ length s.pool.idle)
    close_keeps = ground arith

-- However goroutines interleave, and also after the pool is closed, as long as none calls `Close` a
-- second time on a connection that it acquired: a pool that does not wait has at most `MaxActive`
-- connections open, idle ones and those in use together, and keeps at most `MaxIdle` idle ones.
pub reach-IsWithin :
    (ma mi : ℕ) (s t : System) → 0 < ma → IsWithin ma mi s → Reach s t → IsWithin ma mi t
reach-IsWithin ma mi s t some_active h here = h
reach-IsWithin ma mi s t some_active h (next {t = u} r st once) =
    Step-IsWithin ma mi u t some_active st once (reach-IsWithin ma mi s u some_active h r)
