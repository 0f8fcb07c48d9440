-- ===== src/ServiceRouter/Ticking.antt =====
-- service_puller.go and service_pusher.go: a task that runs at once and then at every tick. Both
-- have the same life; a puller pulls the configuration or the servers of a service, a pusher
-- registers a server again. A context is a number, and `tickers` are the goroutines whose context
-- is not cancelled, each with the period of its ticker in milliseconds. No lock is held in a call, so
-- a call is a chain of sections, between any two of which other calls can run.
pub mod Life
use laser_db.Base.{
  suc, zero, ◌>>=◌, ℕ, ◌-◌, ◌*◌, ◌/◌, ◌%◌, Bool, true, false, not, List, [], ◌∷◌, Outcome, returned,
  panicked, keep_if, nat_eq, nat_beq, if◌then◌else◌,
}
use laser_db.Base.Words.{u32_mod}
use laser_db.Base.Maps.{has_key}

pub record Timer : Type 0 where
  -- `interval` of a puller, `ttl` of a pusher.
  pub period : ℕ
  pub cancel : ℕ
  pub started : Bool
  pub tickers : List (ℕ × ℕ)
  pub cancelled : List ℕ
  -- The contexts made so far, and the tasks run by `Start`.
  pub contexts : ℕ
  pub runs : ℕ

-- `2*interval*1000/3` and `2*ttl/3`, in a uint32.
unfoldable pub calculate_interval : ℕ → ℕ
calculate_interval interval = 2 * interval * 1000 % u32_mod / 3

unfoldable pub calculate_ttl : ℕ → ℕ
calculate_ttl ttl = 2 * ttl % u32_mod / 3

-- Cancelling a context ends the goroutines that wait on it.
abbrev pub live_after : ℕ → List (ℕ × ℕ) → List (ℕ × ℕ)
live_after ctx = keep_if (λ t. not (nat_beq t.0 ctx))

-- What is called: `Stop`, `Restart`, or `Reload` with a period.
pub data Goal : Type 0 where
  stopping restarting : Goal
  reloading : ℕ → Goal

-- Where a call stands: before `cancel()` and before `started.Store(false)` in `Stop`; before the new
-- period is stored; before a context is made and its `cancel` stored; in `Start` with a context,
-- before the test and before the ticker is made; or it has returned. A pusher makes its context
-- before it stores the period, which no other call can tell.
pub data Caller : Type 0 where
  cancelling storing : Goal → Caller
  setting : ℕ → Caller
  making : Caller
  entering creating : ℕ → Caller
  finished : Caller

abbrev pub after_stop : Goal → Caller
after_stop stopping = finished
after_stop restarting = making
after_stop (reloading period) = setting period

-- The next section of a call. `time.NewTicker` panics for a period that is not positive; the ticker
-- of a context that is cancelled already ends at once.
unfoldable pub section : Timer → Caller → Outcome (Timer × Caller)
unfolding has_key
section t (cancelling goal) = returned (
  record t { tickers = live_after t.cancel t.tickers; cancelled = t.cancel ∷ t.cancelled },
  storing goal,
)
section t (storing goal) = returned (record t { started = false }, after_stop goal)
section t (setting period) = returned (record t { period = period }, making)
section t making =
    returned (record t { cancel = t.contexts; contexts = suc t.contexts }, entering t.contexts)
section t (entering ctx) =
    if t.started
    then returned (t, finished)
    else returned (record t { started = true; runs = suc t.runs }, creating ctx)
section t (creating ctx) =
    if nat_beq t.period 0
    then panicked
    else returned (
      record t {
        tickers = if has_key ctx t.cancelled then t.tickers else (ctx, t.period) ∷ t.tickers;
      },
      finished,
    )
section t finished = returned (t, finished)

-- So many sections of a call that no other call interrupts.
unfoldable pub sections : ℕ → Timer → Caller → Outcome Timer
unfolding section
sections zero t c = returned t
sections (suc n) t c = section t c >>= λ r. sections n r.0 r.1

-- The whole calls, where no other call interrupts them.
unfoldable pub start : Timer → ℕ → Outcome Timer
unfolding sections
start t ctx = sections 2 t (entering ctx)

unfoldable pub stop : Timer → Outcome Timer
unfolding sections
stop t = sections 2 t (cancelling stopping)

unfoldable pub restart : Timer → Outcome Timer
unfolding sections
restart t = sections 5 t (cancelling restarting)

unfoldable pub reload : Timer → ℕ → Outcome Timer
unfolding sections
reload t period = sections 6 t (cancelling (reloading period))

-- `NewServicePuller` and `NewServicePusher`
abbrev pub blank : ℕ → Timer
blank period = record {
  period = period;
  cancel = 0;
  started = false;
  tickers = [];
  cancelled = [];
  contexts = 1;
  runs = 0;
}

unfoldable pub new_timer : ℕ → Outcome Timer
unfolding start
new_timer period = start (blank period) 0
