-- ===== src/ServiceRouter/Pool/System/Counting.antt =====
-- The field `active` counts the open connections, in every interleaving.
use laser_db.Base.{
  ℕ, zero, suc, ◌+◌, ◌<◌, ◌≡◌, refl, ap, subst, ◌∙◌, ◌⊎◌, inl, inr, Bool, Option, none, some, List,
  [], ◌∷◌, ◌++◌, arith, length, Bool-cases, Option-cases, nat_eq, string_eq,
}
use laser_db.Base.Int.{pos, ◌+ℤ◌, int_laws, +ℤ_parts, eq_of_parts}
use laser_db.ServiceRouter.Pool.{
  Pool, PoolConn, Goroutine, Answer, starting, queueing, entering, closing_stale, checking, holding,
  exhausted, failed, stuck, closing_bad, dialing, dial_failed, failed, releasing, closing_released,
  released, pop_back, pop_stale, signal, take_idle, prune, one_less, init_queue, shrink, put_back,
  advance, close,
}
use laser_db.ServiceRouter.Pool.System.{
  IsOpen, ClosesOnce, owns, sum_of, sum_of-append, System, Step, calls, runs, closes, Reach, here,
  next,
}

-- With n connections open elsewhere.
abbrev Counts : ℕ → Pool × Goroutine → Type 0
Counts n (p, g) = p.active ≡ pos (length p.idle + (owns g + n))

abbrev Popped : List PoolConn → Option (PoolConn × List PoolConn) → Type 0
Popped cs none = cs ≡ []
Popped cs (some (b, rest)) = length cs ≡ suc (length rest)

pop_back-Popped : (cs : List PoolConn) → Popped cs (pop_back cs)
unfolding pop_back
pop_back-Popped [] = refl
pop_back-Popped (c ∷ cs) = ground (arith, pop_back-Popped cs)

-- `pop_back` fails on the empty list only, and otherwise leaves one entry less.
pub pop_back-cases :
    (cs : List PoolConn)
    → ((cs ≡ []) × (pop_back cs ≡ none))
      ⊎ ((b : PoolConn) × (rest : List PoolConn) × (pop_back cs ≡ some (b, rest))
          × (length cs ≡ suc (length rest)))
pop_back-cases cs = elim (Option-cases (pop_back cs)) [
  | inl e ↦ inl (subst (Popped cs) e (pop_back-Popped cs), e)
  | inr ((b, rest), e) ↦ inr (b, rest, e, subst (Popped cs) e (pop_back-Popped cs))
]

pub pop_stale-length :
    (p : Pool) (now : ℕ) (b : PoolConn) (rest : List PoolConn)
    → pop_stale p now ≡ some (b, rest)
    → length p.idle ≡ suc (length rest)
unfolding pop_stale
pop_stale-length p now b rest h = ground (arith, pop_back-cases p.idle)

pub length-append : (cs : List PoolConn) (c : PoolConn) → length (cs ++ c ∷ []) ≡ suc (length cs)
length-append [] c = refl
length-append (d ∷ cs) c = ap suc (length-append cs c)

signal-Counts :
    (n : ℕ) (p : Pool) (g : Goroutine)
    → owns g ≡ 0
    → p.active ≡ pos (length p.idle + n)
    → Counts n (signal p g)
unfolding signal
signal-Counts n p g z h = ground arith

take_idle-Counts : (n : ℕ) (p : Pool) → p.active ≡ pos (length p.idle + n) → Counts n (take_idle p)
unfolding take_idle
take_idle-Counts n p h =
    ground (arith, +ℤ_parts p.active (pos 1), eq_of_parts (p.active +ℤ pos 1) (pos (1 + n)))

prune-Counts :
    (n now left : ℕ) (p : Pool) → p.active ≡ pos (length p.idle + n) → Counts n (prune now left p)
unfolding prune
prune-Counts n now zero p h = take_idle-Counts n p h
prune-Counts n now (suc left) p h = elim (Option-cases (pop_stale p now)) [
  | inl e ↦ rw (e, prune) (take_idle-Counts n p h)
  | inr ((b, rest), e) ↦ rw (e, prune) (h ∙ ap pos (omega (arith, pop_stale-length p now b rest e)))
]

pub one_less-Counts :
    (n : ℕ) (p : Pool)
    → p.active ≡ pos (length p.idle + (1 + n))
    → (one_less p).active ≡ pos (length p.idle + n)
one_less-Counts n p h = rw h (omega int_laws)

shrink-Counts :
    (n : ℕ) (p : Pool) (c : PoolConn) (cs : List PoolConn)
    → 0 < length cs
    → p.active ≡ pos (length cs + n)
    → Counts n (shrink p c cs)
unfolding shrink
shrink-Counts n p c cs some_conn h =
    ground (arith, pop_back-cases cs, signal-Counts n (record p { idle = cs }) (released c) refl h)

put_back-Counts :
    (n : ℕ) (p : Pool) (c : PoolConn) (now : ℕ) (e f : Bool)
    → p.active ≡ pos (length p.idle + (1 + n))
    → Counts n (put_back p c now e f)
unfolding put_back
put_back-Counts n p c now e f h =
    let c' : PoolConn = record c { active_time = now } in
    let longer : p.active ≡ pos (suc (length p.idle) + n) = h ∙ ap pos (omega arith) in
    ground (
      arith,
      shrink-Counts n p c' (p.idle ++ c' ∷ []) (omega (arith, length-append p.idle c'))
          (longer ∙ ap pos (omega (arith, length-append p.idle c'))),
      shrink-Counts n p c' (c' ∷ p.idle) (omega arith) longer,
    )

init_queue-active : (p : Pool) → ((init_queue p).active ≡ p.active) × ((init_queue p).idle ≡ p.idle)
unfolding init_queue
init_queue-active p = ground arith

pub advance-Counts :
    (n : ℕ) (p : Pool) (g : Goroutine) (a : Answer)
    → IsOpen g
    → Counts n (p, g)
    → Counts n (advance p g a)
unfolding advance
advance-Counts n p starting a open_yet h = ground (arith, init_queue-active p)
advance-Counts n p queueing a open_yet h = ground arith
advance-Counts n p entering a open_yet h =
    ground (arith, prune-Counts n a.now (length p.idle) p, take_idle-Counts n p)
advance-Counts n p (closing_stale left) a open_yet h =
    prune-Counts n a.now left (one_less p) (one_less-Counts n p h)
advance-Counts n p (checking c) a open_yet h = ground arith
advance-Counts n p closing_bad a open_yet h =
    take_idle-Counts n (one_less p) (one_less-Counts n p h)
advance-Counts n p dialing a open_yet h = ground arith
advance-Counts n p dial_failed a open_yet h =
    signal-Counts n (one_less p) failed refl (one_less-Counts n p h)
advance-Counts n p (releasing c e f) a open_yet h = put_back-Counts n p c a.now e f h
advance-Counts n p (closing_released c) a open_yet h =
    signal-Counts n (one_less p) (released c) refl (one_less-Counts n p h)
advance-Counts n p (released c) a open_yet h = absurd open_yet
advance-Counts n p (holding c) a open_yet h = h
advance-Counts n p exhausted a open_yet h = h
advance-Counts n p failed a open_yet h = h
advance-Counts n p stuck a open_yet h = h

close-Counts :
    (n : ℕ) (p : Pool)
    → p.active ≡ pos (length p.idle + n)
    → (close p).active ≡ pos (length (close p).idle + n)
unfolding close
close-Counts n p h = elim (Bool-cases p.closed) [
  | inl e ↦ rw (e, close) h
  | inr e ↦ rw (e, close) (rw h (omega int_laws))
]

abbrev pub IsCounted : System → Type 0
IsCounted s = s.pool.active ≡ pos (length s.pool.idle + sum_of owns s.goroutines)

pub Step-IsCounted : (s t : System) (st : Step s t) → ClosesOnce st → IsCounted s → IsCounted t
Step-IsCounted s t calls once h = h ∙ ap pos (omega arith)
Step-IsCounted s t (runs before g after a e) once h =
    advance-Counts (sum_of owns before + sum_of owns after) s.pool g a once
      (h ∙ ap pos (omega (arith, ap (sum_of owns) e, sum_of-append owns before g after)))
    ∙ ap pos (omega (arith, sum_of-append owns before (advance s.pool g a).1 after))
Step-IsCounted s t closes once h = close-Counts (sum_of owns s.goroutines) s.pool h

-- Whatever goroutines call the pool, put connections back and close it, in whatever order: the
-- field `active` stays the number of idle connections and of those that goroutines have open, as
-- long as no goroutine calls `Close` a second time on a connection that it acquired.
pub reach-IsCounted : (s t : System) → IsCounted s → Reach s t → IsCounted t
reach-IsCounted s t h here = h
reach-IsCounted s t h (next {t = u} r st once) =
    Step-IsCounted u t st once (reach-IsCounted s u h r)
