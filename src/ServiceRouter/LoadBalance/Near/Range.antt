-- ===== src/ServiceRouter/LoadBalance/Near/Range.antt =====
-- The two range tests compared.
use laser_db.Base.{ℕ, ◌+◌, ◌-◌, ◌^◌, ◌<◌, ◌≡◌, arith, leb, if◌then◌else◌, ◌&&◌}
use laser_db.Base.Int.{pos}
use laser_db.ServiceRouter.LoadBalance.Near.{LocalBalancer, in_signed_range, in_unsigned_range}

-- The distance of two addresses.
abbrev pub distance : ℕ → ℕ → ℕ
distance a b = if leb a b then b - a else a - b

-- For addresses less than 2^31 apart the signed test is the distance test, in both directions.
pub in_signed_range-distance :
    (lb : LocalBalancer) (ip range : ℕ)
    → ip < 2 ^ 32
    → lb.local_ip < 2 ^ 32
    → distance ip lb.local_ip < 2 ^ 31
    → lb.config.diff_range ≡ pos range
    → in_signed_range lb ip ≡ leb (distance ip lb.local_ip) range
unfolding in_signed_range
in_signed_range-distance lb ip range hi hl hd e = rw e (ground arith)

-- The unsigned test refuses every address below this host's, however near, unless the range
-- reaches round 2^32; from this host's address upward it is the distance test.
pub in_unsigned_range_lem :
    (lb : LocalBalancer) (ip range : ℕ)
    → ip < 2 ^ 32
    → lb.local_ip < 2 ^ 32
    → range + lb.local_ip < 2 ^ 32
    → lb.config.diff_range ≡ pos range
    → in_unsigned_range lb ip ≡ (leb lb.local_ip ip && leb (distance ip lb.local_ip) range)
unfolding in_unsigned_range
in_unsigned_range_lem lb ip range hi hl hr e = rw e (ground arith)
