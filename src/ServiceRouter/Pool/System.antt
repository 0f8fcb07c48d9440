-- ===== src/ServiceRouter/Pool/System.antt =====
-- A pool with the goroutines that use it, in any interleaving of their sections.
pub mod Counting
pub mod Limits
mod Tokens
pub mod Serving
use laser_db.Base.{
  ℕ, zero, suc, ◌+◌, ◌-◌, ◌*◌, ◌/◌, ◌%◌, ◌^◌, ◌≤◌, ◌<◌, String, ◌≡◌, refl, sym, ap, subst, ◌∙◌, ◌≢◌,
  ◌↔◌, ◌⊎◌, inl, inr, Bool, true, false, not, ◌&&◌, ◌||◌, Option, none, some, List, [], ◌∷◌, ◌++◌,
  map, Memᴰ, arith, Outcome, returned, panicked, running, ◌>>=◌, index, index-mem, index_head,
  index_second, length, get_elem?, take, drop, keep_if, All, ltb, leb, nat_beq, if◌then◌else◌,
  nat_beq_iff, ltb→lt, lt→ltb, leb→le, le→leb, tests, Bool-cases, Option-cases, Eq, ◌==◌, nat_eq,
  string_eq, ==_refl,
}
use laser_db.ServiceRouter.Pool.{
  Pool, Goroutine, Answer, starting, queueing, entering, closing_stale, checking, closing_bad,
  dialing, dial_failed, holding, exhausted, failed, releasing, closing_released, released, stuck,
  advance, close,
}

-- The connections that a goroutine has open outside the list.
abbrev pub owns : Goroutine → ℕ
owns starting = 0
owns queueing = 0
owns entering = 0
owns (closing_stale left) = 1
owns (checking c) = 1
owns closing_bad = 1
owns dialing = 1
owns dial_failed = 1
owns (holding c) = 1
owns exhausted = 0
owns failed = 0
owns (releasing c e f) = 1
owns (closing_released c) = 1
owns (released c) = 0
owns stuck = 0

-- The tokens that a goroutine has taken and not put back.
abbrev pub permits : Goroutine → ℕ
permits entering = 1
permits g = owns g

abbrev pub sum_of : (Goroutine → ℕ) → List Goroutine → ℕ
sum_of f [] = 0
sum_of f (g ∷ gs) = f g + sum_of f gs

pub sum_of-append :
    (f : Goroutine → ℕ) (before : List Goroutine) (g : Goroutine) (after : List Goroutine)
    → sum_of f (before ++ g ∷ after) ≡ f g + (sum_of f before + sum_of f after)
sum_of-append f [] g after = omega arith
sum_of-append f (b ∷ before) g after = omega (arith, sum_of-append f before g after)

pub record System : Type 0 where
  pub pool : Pool
  pub goroutines : List Goroutine

-- A goroutine calls `Aquire`; one runs its next section; the pool is closed.
pub data Step (s : System) : System → Type 0 where
  calls : Step s (record s { goroutines = starting ∷ s.goroutines })
  runs :
      (before : List Goroutine) (g : Goroutine) (after : List Goroutine) (a : Answer)
      → s.goroutines ≡ before ++ g ∷ after
      → Step s (record {
        pool = (advance s.pool g a).0;
        goroutines = before ++ (advance s.pool g a).1 ∷ after;
      })
  closes : Step s (record s { pool = close s.pool })

-- `Close` was not yet called on the connection that a goroutine acquired.
abbrev pub IsOpen : Goroutine → Type 0
IsOpen (released c) = ⊥
IsOpen g = Unit

-- A step that does not call `Close` a second time on an active connection.
abbrev pub ClosesOnce : {s t : System} → Step s t → Type 0
ClosesOnce calls = Unit
ClosesOnce (runs before g after a e) = IsOpen g
ClosesOnce closes = Unit

-- Any interleaving in which no active connection is closed twice.
pub data Reach (s : System) : System → Type 0 where
  here : Reach s s
  next : {t u : System} → Reach s t → (st : Step t u) → ClosesOnce st → Reach s u
