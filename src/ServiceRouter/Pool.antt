-- ===== src/ServiceRouter/Pool.antt =====
-- pool.go, the connection pool. Its mutex is given up around every call of a connection or of the
-- factory, so a call of the pool is a chain of sections: each runs from `Lock` to `Unlock` in one
-- step, and a goroutine stands between two of them. The answers of connections, of the factory and
-- of the clock are arguments. Metrics are left out.
pub mod Options
pub mod System
use laser_db.Base.{
  ℕ, zero, suc, ◌+◌, ◌-◌, ◌<◌, Bool, true, not, ◌&&◌, ◌||◌, Option, none, some, List, ◌∷◌, ◌++◌,
  returned, length, ltb, [], false, if◌then◌else◌, leb, arith, ◌≡◌, refl,
}
use laser_db.Base.Int.{ℤ, pos, negsuc, ◌+ℤ◌, ◌-ℤ◌, leb_ℤ}

-- A connection, by the name that the factory gave it, and when it was last put back.
pub record PoolConn : Type 0 where
  pub conn : ℕ
  pub active_time : ℕ

-- `queue` is the buffered channel: `none` for nil, else the number of tokens in it.
pub record Pool : Type 0 where
  pub max_idle : ℕ
  pub max_active : ℕ
  pub idle_timeout : ℕ
  pub wait : Bool
  pub initialized : Bool
  pub closed : Bool
  pub active : ℤ
  pub queue : Option ℕ
  pub idle : List PoolConn

-- Where a goroutine stands that uses the pool, between two sections.
pub data Goroutine : Type 0 where
  -- `aquire` was called; `initQueue` has run; a token was taken (or none is wanted).
  starting queueing entering : Goroutine
  -- A stale connection is being closed, with so many rounds of the loop left.
  closing_stale : ℕ → Goroutine
  -- `Good` is called on a connection from the list; it was not good and is being closed.
  checking : PoolConn → Goroutine
  closing_bad : Goroutine
  -- The factory is called; it failed.
  dialing : Goroutine
  dial_failed : Goroutine
  -- `aquire` returned a connection, or an error.
  holding : PoolConn → Goroutine
  exhausted failed : Goroutine
  -- `Close` of the active connection was called, with its `Err() != nil` and `ForceClose()`.
  releasing : PoolConn → Bool → Bool → Goroutine
  -- `release` is closing a connection; it has returned. The active connection keeps its `poolConn`,
  -- so `Close` can be called on it again.
  closing_released released : PoolConn → Goroutine
  -- A send on a full channel, with the mutex held: nobody can go on.
  stuck : Goroutine

-- The answers of the environment that a section may ask for.
pub record Answer : Type 0 where
  pub now : ℕ
  -- `Good`
  pub good : Bool
  -- What the factory returns: a connection, or none and an error.
  pub dialed : Option ℕ
  -- `Err() != nil` and `ForceClose()` of the connection that is put back.
  pub has_err : Bool
  pub force_close : Bool

-- `p.idle.Back()` and the list without it.
unfoldable pub pop_back : List PoolConn → Option (PoolConn × List PoolConn)
pop_back [] = none
pop_back (c ∷ cs) = elim (pop_back cs) [ none ↦ some (c, []) | some (b, rest) ↦ some (b, c ∷ rest) ]

-- `idleBackTimeout`, and the removal of the back that follows where it holds.
unfoldable pub pop_stale : Pool → ℕ → Option (PoolConn × List PoolConn)
unfolding pop_back
pop_stale p now = elim (pop_back p.idle) [
  | none ↦ none
  | some (b, rest) ↦ if ltb (b.active_time + p.idle_timeout) now then some (b, rest) else none
]

-- `p.queue <- struct{}{}` under `if p.queue != nil && !p.closed`, and what follows it.
unfoldable pub signal : Pool → Goroutine → Pool × Goroutine
signal p g = elim p.queue [
  | none ↦ (p, g)
  | some tokens ↦
      if p.closed
      then (p, g)
      else if ltb tokens p.max_active
      then (record p { queue = some (suc tokens) }, g)
      else (p, stuck)
]

-- From the loop over the front of the list to the call of the factory.
unfoldable pub take_idle : Pool → Pool × Goroutine
take_idle p = elim p.idle [
  | [] ↦
      if not p.wait && ltb 0 p.max_active && leb_ℤ (pos p.max_active) p.active
      then (p, exhausted)
      else (record p { active = p.active +ℤ pos 1 }, dialing)
  | c ∷ rest ↦ (record p { idle = rest }, checking c)
]

-- The test of the loop that closes stale connections, with so many rounds left.
unfoldable pub prune : ℕ → ℕ → Pool → Pool × Goroutine
unfolding pop_stale take_idle
prune now zero p = take_idle p
prune now (suc left) p = elim (pop_stale p now) [
  | none ↦ take_idle p
  | some (b, rest) ↦ (record p { idle = rest }, closing_stale left)
]

-- `p.active--`
abbrev pub one_less : Pool → Pool
one_less p = record p { active = p.active -ℤ pos 1 }

-- `initQueue`
unfoldable pub init_queue : Pool → Pool
init_queue p =
    if p.initialized
    then p
    else if p.closed
    then record p { initialized = true }
    else record p { initialized = true; queue = some p.max_active }

-- `<-p.queue`: nil blocks for ever, a closed channel yields at once, an empty one blocks.
unfoldable pub take_token : Pool → Pool × Goroutine
take_token p = elim p.queue [
  | none ↦ (p, queueing)
  | some zero ↦ if p.closed then (p, entering) else (p, queueing)
  | some (suc n) ↦ (record p { queue = some n }, entering)
]

-- The end of the first section of `release`: the back of a list that is too long is taken off to
-- be closed.
unfoldable pub shrink : Pool → PoolConn → List PoolConn → Pool × Goroutine
unfolding signal pop_back
shrink p c idle' =
    if ltb p.max_idle (length idle')
    then elim (pop_back idle') [
      | none ↦ (record p { idle = idle' }, closing_released c)
      | some (b, rest) ↦ (record p { idle = rest }, closing_released c)
    ]
    else signal (record p { idle = idle' }) (released c)

-- The first section of `release`.
unfoldable pub put_back : Pool → PoolConn → ℕ → Bool → Bool → Pool × Goroutine
unfolding shrink
put_back p c now has_err force_close =
    let c' : PoolConn = record c { active_time = now } in
    if p.closed || force_close
    then (p, closing_released c)
    else if has_err
    then shrink p c' (p.idle ++ c' ∷ [])
    else shrink p c' (c' ∷ p.idle)

-- The next section of a goroutine.
unfoldable pub advance : Pool → Goroutine → Answer → Pool × Goroutine
unfolding init_queue take_token prune take_idle signal put_back
advance p starting a =
    if p.wait && ltb 0 p.max_active then (init_queue p, queueing) else (p, entering)
advance p queueing a = take_token p
advance p entering a = if ltb 0 p.idle_timeout then prune a.now (length p.idle) p else take_idle p
advance p (closing_stale left) a = prune a.now left (one_less p)
advance p (checking c) a = if a.good then (p, holding c) else (p, closing_bad)
advance p closing_bad a = take_idle (one_less p)
advance p dialing a = elim a.dialed [
  | none ↦ (p, dial_failed)
  | some c ↦ (p, holding (record { conn = c; active_time = 0 }))
]
advance p dial_failed a = signal (one_less p) failed
advance p (holding c) a = (p, releasing c a.has_err a.force_close)
advance p (releasing c has_err force_close) a = put_back p c a.now has_err force_close
advance p (closing_released c) a = signal (one_less p) (released c)
advance p (released c) a = (p, releasing c a.has_err a.force_close)
advance p g a = (p, g)

-- `Close`, one section.
unfoldable pub close : Pool → Pool
close p =
    if p.closed
    then p
    else record p { closed = true; active = p.active -ℤ pos (length p.idle); idle = [] }
