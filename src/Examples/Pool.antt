-- ===== src/Examples/Pool.antt =====
-- pool.go at concrete inputs.
use laser_db.Base.{
  ℕ, zero, suc, ◌≤◌, ◌<◌, ◌≡◌, refl, inl, Bool, true, false, some, [], ◌∷◌, arith, nat_eq,
  string_eq,
}
use laser_db.Base.Int.{pos, ◌-ℤ◌, ◌+ℤ◌}
use laser_db.ServiceRouter.Pool.{
  Pool, Goroutine, Answer, starting, queueing, entering, dialing, holding, advance, close,
}
use laser_db.ServiceRouter.Pool.Options.{PoolOptions, new_pool_options, new_pool, new_pool_bounds}
use laser_db.ServiceRouter.Pool.System.{System, IsOpen, calls, runs, Reach, here, next}
use laser_db.ServiceRouter.Pool.System.Counting.{IsCounted, reach-IsCounted}
use laser_db.ServiceRouter.Pool.System.Limits.{IsWithin, reach-IsWithin}
use laser_db.ServiceRouter.Pool.System.Serving.{IsServing, reach-IsServing}

abbrev options : Bool → PoolOptions
options wait = record { max_idle = pos 1; max_active = pos 2; wait = wait; idle_timeout = pos 0 }

abbrev empty : Bool → System
empty wait = record { pool = new_pool 8 (options wait); goroutines = [] }

abbrev answer : Answer
answer = record { now = 5; good = true; dialed = some 7; has_err = false; force_close = false }

-- The state of a pool and of its one goroutine after some sections of an `Aquire` on a new pool.
abbrev sections : Bool → ℕ → Pool × Goroutine
sections wait zero = (new_pool 8 (options wait), starting)
sections wait (suc n) = advance (sections wait n).0 (sections wait n).1 answer

abbrev after_sections : Bool → ℕ → System
after_sections wait n = record { pool = (sections wait n).0; goroutines = (sections wait n).1 ∷ [] }

-- None of these sections closes a connection a second time.
abbrev OpenUpTo : Bool → ℕ → Type 0
OpenUpTo wait zero = Unit
OpenUpTo wait (suc n) = OpenUpTo wait n × IsOpen (sections wait n).1

abbrev reached :
    (wait : Bool) (n : ℕ) → OpenUpTo wait n → Reach (empty wait) (after_sections wait n)
reached wait zero h = next here calls tt
reached wait (suc n) h = next (reached wait n h.0) (runs [] (sections wait n).1 [] answer refl) h.1

waiting_opens : OpenUpTo true 4
unfolding new_pool advance
waiting_opens = ((((tt, tt), tt), tt), tt)

opens : OpenUpTo false 3
unfolding new_pool advance
opens = (((tt, tt), tt), tt)

holds_after : (sections true 4).1 ≡ holding (record { conn = 7; active_time = 0 })
unfolding new_pool advance
holds_after = refl

new_pool_bounds_example :
    (0 < (new_pool 8 (options true)).max_active)
    × (0 < (new_pool 8 (options true)).max_idle)
    × ((new_pool 8 (options true)).max_idle ≤ (new_pool 8 (options true)).max_active)
    × (0 < (new_pool 8 (options true)).idle_timeout)
    × ((new_pool_options 8 (options true)).max_active ≡ pos (new_pool 8 (options true)).max_active)
    × ((new_pool_options 8 (options true)).max_idle ≡ pos (new_pool 8 (options true)).max_idle)
    × ((new_pool_options 8 (options true)).idle_timeout
        ≡ pos (new_pool 8 (options true)).idle_timeout)
new_pool_bounds_example = new_pool_bounds 8 (options true) (omega arith)

reach-IsCounted_example : IsCounted (after_sections true 4)
unfolding new_pool
reach-IsCounted_example = reach-IsCounted (empty true) _ refl (reached true 4 waiting_opens)

reach-IsWithin_example : IsWithin 2 1 (after_sections false 3)
unfolding new_pool
reach-IsWithin_example =
    reach-IsWithin 2 1 (empty false) _ (omega arith)
      (record {
        counted = refl;
        active_cap = refl;
        idle_cap = refl;
        no_wait = refl;
        no_queue = refl;
        idle_bound = omega arith;
        bound = omega arith;
      })
      (reached false 3 opens)

reach-IsServing_example : IsServing 2 1 (after_sections true 4)
unfolding new_pool advance
reach-IsServing_example =
    reach-IsServing 2 1 (empty true) _ (omega arith)
      (record {
        counted = refl;
        active_cap = refl;
        idle_cap = refl;
        waits = refl;
        not_closed = refl;
        idle_bound = omega arith;
        bound = omega arith;
        balanced = inl (refl, refl, refl);
        goes_on = tt;
      })
      (reached true 4 waiting_opens) refl

-- A closed pool opens connections all the same.
closed_dials : (advance (close (new_pool 8 (options false))) entering answer).1 ≡ dialing
unfolding new_pool advance close ◌-ℤ◌
closed_dials = refl

-- A pool that is closed before its first use lets a goroutine that waits wait for ever.
closed_waits :
    (advance (advance (close (new_pool 8 (options true))) starting answer).0 queueing answer).1
    ≡ queueing
unfolding new_pool advance close
closed_waits = refl

-- A connection that is closed twice is counted off while it stays in the list.
closed_twice :
    ((sections false 8).0.active ≡ pos 0)
    × ((sections false 8).0.idle ≡ record { conn = 7; active_time = 5 } ∷ [])
unfolding new_pool advance ◌-ℤ◌ ◌+ℤ◌
closed_twice = (refl, refl)
