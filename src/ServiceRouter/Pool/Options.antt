-- ===== src/ServiceRouter/Pool/Options.antt =====
-- pool.go, `newPoolOptions` and `NewPool`.
use laser_db.Base.{
  ℕ, ◌≤◌, ◌<◌, ◌≡◌, Bool, false, not, ◌||◌, none, [], arith, if◌then◌else◌, nat_eq, string_eq,
}
use laser_db.Base.Int.{ℤ, pos, pos_part, leb_ℤ}
use laser_db.ServiceRouter.Pool.{Pool}

-- The fields that the options set: Go's ints, and a duration in nanoseconds.
pub record PoolOptions : Type 0 where
  pub max_idle : ℤ
  pub max_active : ℤ
  pub wait : Bool
  pub idle_timeout : ℤ

abbrev default_max_idle_time : ℤ
default_max_idle_time = pos 30000000000

-- The defaults, in the order of the code; `num_cpu` is `runtime.NumCPU()`.
default_active : ℕ → ℤ → ℤ
default_active num_cpu n = if leb_ℤ n (pos 0) then pos num_cpu else n

default_idle : ℤ → ℤ → ℤ
default_idle n max_active = if leb_ℤ n (pos 0) || not (leb_ℤ n max_active) then max_active else n

unfoldable pub new_pool_options : ℕ → PoolOptions → PoolOptions
unfolding default_active default_idle
new_pool_options num_cpu o =
    let max_active = default_active num_cpu o.max_active in
    record {
      max_active = max_active;
      max_idle = default_idle o.max_idle max_active;
      wait = o.wait;
      idle_timeout = if leb_ℤ o.idle_timeout (pos 0) then default_max_idle_time else o.idle_timeout;
    }

-- The defaults leave no number negative, so the pool keeps them as natural numbers.
unfoldable pub new_pool : ℕ → PoolOptions → Pool
unfolding new_pool_options
new_pool num_cpu o =
    let opts = new_pool_options num_cpu o in
    record {
      max_idle = pos_part opts.max_idle;
      max_active = pos_part opts.max_active;
      idle_timeout = pos_part opts.idle_timeout;
      wait = opts.wait;
      initialized = false;
      closed = false;
      active = pos 0;
      queue = none;
      idle = [];
    }

-- Whatever the options, on a machine with a processor: a new pool may open a connection, keeps
-- at most as many idle ones as it may open, prunes stale ones, and the numbers that it keeps are
-- the normalised options.
pub new_pool_bounds :
    (num_cpu : ℕ) (o : PoolOptions)
    → 0 < num_cpu
    → let p = new_pool num_cpu o in
      (0 < p.max_active)
      × (0 < p.max_idle)
      × (p.max_idle ≤ p.max_active)
      × (0 < p.idle_timeout)
      × ((new_pool_options num_cpu o).max_active ≡ pos p.max_active)
      × ((new_pool_options num_cpu o).max_idle ≡ pos p.max_idle)
      × ((new_pool_options num_cpu o).idle_timeout ≡ pos p.idle_timeout)
unfolding new_pool
new_pool_bounds num_cpu o h = ground arith
