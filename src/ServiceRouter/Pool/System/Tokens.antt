-- ===== src/ServiceRouter/Pool/System/Tokens.antt =====
-- A pool that waits and is not closed: tokens, and what they bound.
use laser_db.Base.{
  ℕ, zero, suc, ◌+◌, ◌≤◌, ◌<◌, ◌≡◌, refl, ap, ◌∙◌, ◌≢◌, ◌⊎◌, inl, inr, Bool, true, false, none,
  some, List, [], ◌∷◌, ◌++◌, arith, length, ltb, Bool-cases, if-both, ◌||◌, Option-cases, nat_eq,
  string_eq,
}
use laser_db.Base.Int.{pos}
use laser_db.ServiceRouter.Pool.{
  Pool, PoolConn, Goroutine, Answer, starting, queueing, entering, closing_stale, checking,
  closing_bad, dialing, dial_failed, holding, exhausted, failed, releasing, closing_released,
  released, stuck, pop_stale, signal, take_idle, prune, one_less, shrink, put_back, advance,
}
use laser_db.ServiceRouter.Pool.System.{IsOpen, owns, permits}
use laser_db.ServiceRouter.Pool.System.Counting.{
  pop_back-cases, pop_stale-length, length-append, one_less-Counts,
}

-- Goroutines that wait neither for ever nor in vain.
abbrev pub GoesOn : Goroutine → Type 0
GoesOn g = (g ≢ stuck) × (g ≢ exhausted)

-- The tokens in the channel and those taken make up `MaxActive`; before `initQueue` none is taken.
abbrev pub Balanced : ℕ → Pool → ℕ → Type 0
Balanced ma p taken =
    ((p.queue ≡ none) × (p.initialized ≡ false) × (taken ≡ 0))
    ⊎ ((tokens : ℕ) × (p.queue ≡ some tokens) × (p.initialized ≡ true) × (tokens + taken ≡ ma))

-- With n connections open and k tokens taken elsewhere.
pub record Waits (ma mi n k : ℕ) (p : Pool) (g : Goroutine) : Type 0 where
  pub active_cap : p.max_active ≡ ma
  pub idle_cap : p.max_idle ≡ mi
  pub waits : p.wait ≡ true
  pub not_closed : p.closed ≡ false
  pub covered : n ≤ k
  pub idle_bound : length p.idle ≤ mi
  pub bound : length p.idle + (owns g + n) ≤ ma
  pub balanced : Balanced ma p (permits g + k)
  pub goes_on : GoesOn g

module _ (ma mi : ℕ) (some_active : 0 < ma) where
  -- The state of a goroutine inside a section: it has a token, and owns nothing any more.
  record Inside (n k : ℕ) (p : Pool) : Type 0 where
    active_cap : p.max_active ≡ ma
    idle_cap : p.max_idle ≡ mi
    waits : p.wait ≡ true
    not_closed : p.closed ≡ false
    covered : n ≤ k
    idle_bound : length p.idle ≤ mi
    bound : length p.idle + n ≤ ma
    balanced : Balanced ma p (1 + k)

  take_idle-Waits :
      (n k : ℕ) (p : Pool)
      → p.active ≡ pos (length p.idle + n)
      → Inside n k p
      → Waits ma mi n k (take_idle p).0 (take_idle p).1
  unfolding take_idle
  take_idle-Waits n k p counted h = ground arith

  prune-Waits :
      (n k now left : ℕ) (p : Pool)
      → p.active ≡ pos (length p.idle + n)
      → Inside n k p
      → Waits ma mi n k (prune now left p).0 (prune now left p).1
  unfolding prune
  prune-Waits n k now zero p counted h = take_idle-Waits n k p counted h
  prune-Waits n k now (suc left) p counted h = elim (Option-cases (pop_stale p now)) [
    | inl e ↦ rw (e, prune) (take_idle-Waits n k p counted h)
    | inr ((b, rest), e) ↦ rw (e, prune) (ground (arith, pop_stale-length p now b rest e))
  ]

  -- A send never blocks: the goroutine has taken a token out of the channel.
  signal-Waits :
      (n k : ℕ) (p : Pool) (g : Goroutine)
      → permits g ≡ 0
      → owns g ≡ 0
      → GoesOn g
      → Inside n k p
      → Waits ma mi n k (signal p g).0 (signal p g).1
  unfolding signal
  signal-Waits n k p g z y goes h = ground arith

  shrink-Waits :
      (n k : ℕ) (p : Pool) (c : PoolConn) (cs : List PoolConn)
      → length cs ≡ suc (length p.idle)
      → length p.idle + (1 + n) ≤ ma
      → Inside n k p
      → Waits ma mi n k (shrink p c cs).0 (shrink p c cs).1
  unfolding shrink signal
  shrink-Waits n k p c cs longer room h = ground (arith, pop_back-cases cs)

  abbrev At : ℕ → ℕ → Pool × Goroutine → Type 0
  At n k x = Waits ma mi n k x.0 x.1

  put_back-Waits :
      (n k : ℕ) (p : Pool) (c : PoolConn) (now : ℕ) (e f : Bool)
      → length p.idle + (1 + n) ≤ ma
      → Inside n k p
      → Waits ma mi n k (put_back p c now e f).0 (put_back p c now e f).1
  unfolding put_back
  put_back-Waits n k p c now e f room h =
      let c' : PoolConn = record c { active_time = now } in
      if-both (At n k) (p.closed || f) (ground arith) (
        if-both (At n k) e
          (shrink-Waits n k p c' (p.idle ++ c' ∷ []) (length-append p.idle c') room h)
          (shrink-Waits n k p c' (c' ∷ p.idle) refl room h))

  inside : (n k : ℕ) (p : Pool) (g : Goroutine) → permits g ≡ 1 → Waits ma mi n k p g → Inside n k p
  inside n k p g one h = ground arith

  Inside-less : (n k : ℕ) (p : Pool) → Inside n k p → Inside n k (one_less p)
  Inside-less n k p h = ground arith

  pub advance-Waits :
      (n k : ℕ) (p : Pool) (g : Goroutine) (a : Answer)
      → IsOpen g
      → p.active ≡ pos (length p.idle + (owns g + n))
      → Waits ma mi n k p g
      → Waits ma mi n k (advance p g a).0 (advance p g a).1
  unfolding advance
  advance-Waits n k p starting a open_yet counted h = ground arith
  advance-Waits n k p queueing a open_yet counted h = ground arith
  advance-Waits n k p entering a open_yet counted h =
      let counted' : p.active ≡ pos (length p.idle + n) = counted ∙ ap pos (omega arith) in
      let i = inside n k p entering refl h in
      elim (Bool-cases (ltb 0 p.idle_timeout)) [
        | inl t ↦ rw t (prune-Waits n k a.now (length p.idle) p counted' i)
        | inr t ↦ rw t (take_idle-Waits n k p counted' i)
      ]
  advance-Waits n k p (closing_stale left) a open_yet counted h =
      prune-Waits n k a.now left (one_less p) (one_less-Counts n p counted)
        (Inside-less n k p (inside n k p (closing_stale left) refl h))
  advance-Waits n k p (checking c) a open_yet counted h = ground arith
  advance-Waits n k p closing_bad a open_yet counted h =
      take_idle-Waits n k (one_less p) (one_less-Counts n p counted)
        (Inside-less n k p (inside n k p closing_bad refl h))
  advance-Waits n k p dialing a open_yet counted h = ground arith
  advance-Waits n k p dial_failed a open_yet counted h =
      signal-Waits n k (one_less p) failed refl refl (ground arith)
        (Inside-less n k p (inside n k p dial_failed refl h))
  advance-Waits n k p (holding c) a open_yet counted h = ground arith
  advance-Waits n k p (releasing c e f) a open_yet counted h =
      put_back-Waits n k p c a.now e f h.bound (inside n k p (releasing c e f) refl h)
  advance-Waits n k p (closing_released c) a open_yet counted h =
      signal-Waits n k (one_less p) (released c) refl refl (ground arith)
        (Inside-less n k p (inside n k p (closing_released c) refl h))
  advance-Waits n k p exhausted a open_yet counted h = h
  advance-Waits n k p failed a open_yet counted h = h
  advance-Waits n k p (released c) a open_yet counted h = absurd open_yet
  advance-Waits n k p stuck a open_yet counted h = h
