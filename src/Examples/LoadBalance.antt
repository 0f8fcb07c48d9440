-- ===== src/Examples/LoadBalance.antt =====
-- load_balance.go at concrete inputs.
use laser_db.Base.{
  ℕ, ◌+◌, ◌*◌, ◌^◌, ◌<◌, String, ◌≡◌, refl, ◌⊎◌, inl, inr, false, some, [], ◌∷◌, Memᴰ, arith,
  returned, running, leb, nat_eq, string_eq, ◌&&◌,
}
use laser_db.Base.Int.{pos, negsuc}
use laser_db.Base.Words.{add32, sub32}
use laser_db.ServiceRouter.Server.{Server}
use laser_db.ServiceRouter.LoadBalance.Ip.{
  FloatTerm, int64_max, IsExact, nonneg, unsigned, digits_value, split, push_head, sum_parts, atoi,
  codes, codes_to_int, ip_to_int,
}
use laser_db.ServiceRouter.LoadBalance.Ip.Parts.{dotted, codes_to_int-dotted}
use laser_db.ServiceRouter.LoadBalance.Simple.{
  Draw, IsBelow, new_roundrobin, roundrobin_select, pick,
}
use laser_db.ServiceRouter.LoadBalance.Simple.Rotation.{after_calls, roundrobin_visits}
use laser_db.ServiceRouter.LoadBalance.Near.{
  scan_local, after_scan, LocalBalancer, local_first_select, ip_range_first_select, in_signed_range,
  in_unsigned_range,
}
use laser_db.ServiceRouter.LoadBalance.Near.Choice.{
  first_local, drawn_of, some_or, near_by, local_or, local_first_select_lem,
  ip_range_first_select_lem,
}
use laser_db.ServiceRouter.LoadBalance.Near.Range.{
  distance, in_signed_range-distance, in_unsigned_range_lem,
}
use laser_db.ServiceRouter.LoadBalance.StaticWeight.{weight_sum, static_weight_select}
use laser_db.ServiceRouter.LoadBalance.StaticWeight.Interval.{
  static_weight_select-mem, static_weight_select-append,
}
use laser_db.ServiceRouter.LoadBalance.ConfigurableWeight.{gcd, fresh, configurable_weight_select}
use laser_db.ServiceRouter.LoadBalance.ConfigurableWeight.Divisor.{IsGcd, gcd-IsGcd}
use laser_db.ServiceRouter.LoadBalance.ConfigurableWeight.Rounds.{at}
use laser_db.ServiceRouter.LoadBalance.ConfigurableWeight.Progress.{Picks}
use laser_db.ServiceRouter.LoadBalance.ConfigurableWeight.Select.{configurable_weight_select-Picks}
use laser_db.ServiceRouter.LoadBalance.ConfigurableWeight.Stalls.{single_stalls, Seen, last_starves}

abbrev server : String → ℕ → Server
server host weight = record {
  host = host;
  port = 9090;
  service_name = "laser";
  protocol = "thrift";
  status = "available";
  update_time = 1000;
  weight = weight;
  shard_list = [];
  available_shard_list = [];
  follower_shard_list = [];
  follower_available_shard_list = [];
  other_settings = [];
  partition_list = [];
  is_edge_node = false;
  idc = "";
  dc = "";
}

abbrev first : Server
first = server "10.0.0.1" 6

abbrev second : Server
second = server "10.0.0.2" 6

abbrev third : Server
third = server "10.0.1.9" 4

-- Exact products, and 0 for what does not fit an int32.
abbrev product : FloatTerm
product (pos t) i = t * 256 ^ i
product (negsuc t) i = 0

product-IsExact : IsExact product
product-IsExact t i h = refl

abbrev zeroth : Draw
zeroth n = 0

zeroth-IsBelow : IsBelow zeroth
zeroth-IsBelow n h = h

abbrev here : LocalBalancer
here = record {
  local_ip = 10 * 2 ^ 24 + 2;
  config = record { local_ip = "10.0.0.2"; diff_range = pos 256 };
}

codes_to_int-dotted_example :
    codes_to_int product (dotted (codes "10") (codes "0") (codes "1") (codes "9"))
    ≡ 10 * 2 ^ 24 + 0 * 2 ^ 16 + 1 * 2 ^ 8 + 9
unfolding atoi nonneg unsigned digits_value
codes_to_int-dotted_example =
    codes_to_int-dotted product (codes "10") (codes "0") (codes "1") (codes "9") 10 0 1 9
      product-IsExact (omega arith) (omega arith) (omega arith) (omega arith) refl refl refl refl
      (omega arith) (omega arith) (omega arith) (omega arith)

roundrobin_visits_example :
    (k : ℕ) × (k < 3)
    × ((roundrobin_select
          (after_calls k (first ∷ second ∷ third ∷ []) new_roundrobin)
          (first ∷ second ∷ third ∷ [])).1
        ≡ pick (first ∷ second ∷ third ∷ []) 2)
roundrobin_visits_example =
    roundrobin_visits first (second ∷ third ∷ []) new_roundrobin 2 (omega arith) (omega arith)

local_first_select_lem_example :
    local_first_select product zeroth here (first ∷ second ∷ [])
    ≡ local_or
        (drawn_of zeroth (
          some_or
            (near_by product here in_signed_range (first ∷ second ∷ []))
            (first ∷ second ∷ [])))
        (first_local product here (first ∷ second ∷ []))
local_first_select_lem_example = local_first_select_lem product here zeroth first (second ∷ [])

local_first_picks_local :
    local_first_select product zeroth here (first ∷ second ∷ []) ≡ returned (some second)
unfolding local_first_select scan_local after_scan ip_to_int codes_to_int split push_head sum_parts
    atoi nonneg unsigned digits_value add32 in_signed_range
local_first_picks_local = refl

ip_range_first_select_lem_example :
    ip_range_first_select product zeroth here (first ∷ third ∷ [])
    ≡ drawn_of zeroth
        (some_or (near_by product here in_unsigned_range (first ∷ third ∷ [])) (first ∷ third ∷ []))
ip_range_first_select_lem_example = ip_range_first_select_lem product here zeroth first (third ∷ [])

in_signed_range-distance_example :
    in_signed_range here (10 * 2 ^ 24 + 1) ≡ leb (distance (10 * 2 ^ 24 + 1) here.local_ip) 256
in_signed_range-distance_example =
    in_signed_range-distance here (10 * 2 ^ 24 + 1) 256 (omega arith) (omega arith) (omega arith)
      refl

in_unsigned_range_lem_example :
    in_unsigned_range here (10 * 2 ^ 24 + 1)
    ≡ (leb here.local_ip (10 * 2 ^ 24 + 1) && leb (distance (10 * 2 ^ 24 + 1) here.local_ip) 256)
in_unsigned_range_lem_example =
    in_unsigned_range_lem here (10 * 2 ^ 24 + 1) 256 (omega arith) (omega arith) (omega arith) refl

-- The address just below this host's is refused.
refuses_neighbour : in_unsigned_range here (10 * 2 ^ 24 + 1) ≡ false
unfolding in_unsigned_range sub32
refuses_neighbour = refl

static_weight_select-mem_example :
    (t : Server) × (static_weight_select zeroth 4294967291 (first ∷ third ∷ []) ≡ returned (some t))
    × Memᴰ t (first ∷ third ∷ [])
    × ((weight_sum 0 (first ∷ third ∷ []) ≡ 0) ⊎ (0 < t.weight))
static_weight_select-mem_example =
    static_weight_select-mem zeroth 4294967291 first (third ∷ []) zeroth-IsBelow

static_weight_select-append_example :
    static_weight_select zeroth 4294967297 (first ∷ third ∷ []) ≡ returned (some third)
static_weight_select-append_example =
    static_weight_select-append zeroth 4294967297 (first ∷ []) third [] (omega arith) (omega arith)
      (omega arith)

gcd-IsGcd_example : (d : ℕ) × (gcd 12 18 ≡ returned d) × IsGcd 12 18 d
gcd-IsGcd_example = gcd-IsGcd 12 18 (omega arith)

configurable_weight_select-Picks_example :
    Picks
      (first ∷ second ∷ third ∷ [])
      (configurable_weight_select 20 fresh (first ∷ second ∷ third ∷ []))
configurable_weight_select-Picks_example =
    configurable_weight_select-Picks 20 0 fresh first second (third ∷ []) (omega arith)
      (inl (refl, refl)) (omega arith)

single_stalls_example : (configurable_weight_select 1000 (at 0 6) (third ∷ [])).1 ≡ running
single_stalls_example = single_stalls 1000 0 6 third (omega arith) (omega arith)

last_starves_example :
    let r = configurable_weight_select 5 (at 1 6) (first ∷ second ∷ third ∷ []) in
    ((r.1 ≡ returned (some first)) ⊎ (r.1 ≡ returned (some second))) × Seen 6 r.0
last_starves_example =
    last_starves 5 6 (at 1 6) first second third refl refl (omega arith) (omega arith) (omega arith)
      (inr (inr refl)) (omega arith)

-- A number that leaves a uint64 ends `Atoi` before the bad byte; one that fits does not.
atoi_range : atoi (codes "99999999999999999999x") ≡ pos int64_max
unfolding atoi nonneg unsigned digits_value
atoi_range = refl

atoi_syntax : atoi (codes "9x") ≡ pos 0
unfolding atoi nonneg unsigned digits_value
atoi_syntax = refl
