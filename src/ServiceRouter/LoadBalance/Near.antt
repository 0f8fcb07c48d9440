-- ===== src/ServiceRouter/LoadBalance/Near.antt =====
-- load_balance.go, `LoadBalanceLocalFirst` and `LoadBalanceIpRangeFirst`. The float arithmetic of
-- `IpToInt` and the random draw are parameters.
pub mod Choice
pub mod Range
use laser_db.Base.{
  ℕ, zero, suc, ◌+◌, ◌-◌, ◌^◌, ◌<◌, ◌≡◌, refl, Bool, true, false, not, ◌&&◌, List, [], ◌∷◌, ◌++◌,
  Option, none, some, arith, Outcome, returned, nat_beq, if◌then◌else◌, length, keep_if,
}
use laser_db.Base.Int.{ℤ, pos, leb_ℤ}
use laser_db.Base.Words.{sub32, is_neg32, u32_mod}
use laser_db.ServiceRouter.Server.{Server, ServerList, BalanceLocalFirstConfig}
use laser_db.ServiceRouter.LoadBalance.Ip.{FloatTerm, ip_to_int}
use laser_db.ServiceRouter.LoadBalance.Simple.{Draw, pick}

-- A balancer of either kind: the address of this host, read once, and the configuration.
pub record LocalBalancer : Type 0 where
  pub local_ip : ℕ
  pub config : BalanceLocalFirstConfig

unfoldable pub new_local_balancer : FloatTerm → BalanceLocalFirstConfig → LocalBalancer
new_local_balancer term config = record {
  local_ip = ip_to_int term config.local_ip;
  config = config;
}

-- `diff := int32(ip - localIp); math.Abs(float64(diff)) <= diffrange`
unfoldable pub in_signed_range : LocalBalancer → ℕ → Bool
unfolding sub32
in_signed_range lb ip =
    let diff = sub32 ip lb.local_ip in
    leb_ℤ (pos (if is_neg32 diff then u32_mod - diff else diff)) lb.config.diff_range

-- `diff := ip - localIp; math.Abs(float64(diff)) <= diffrange`: diff is a uint32 here.
unfoldable pub in_unsigned_range : LocalBalancer → ℕ → Bool
unfolding sub32
in_unsigned_range lb ip = leb_ℤ (pos (sub32 ip lb.local_ip)) lb.config.diff_range

-- How the loop of `LocalFirst` ends: at a server on this host, or with the servers in range.
pub data Scan : Type 0 where
  found : Server → Scan
  refers : ServerList → Scan

-- `length := len(refers)` and the draw, from the whole list if no server is in range.
unfoldable pub draw_near : Draw → ServerList → ServerList → Outcome (Option Server)
draw_near draw servers [] = pick servers (draw (length servers))
draw_near draw servers (r ∷ rs) = pick (r ∷ rs) (draw (length (r ∷ rs)))

module _ (term : FloatTerm) (draw : Draw) (lb : LocalBalancer) where
  unfoldable pub scan_local : ServerList → ServerList → Scan
  scan_local [] near = refers near
  scan_local (server ∷ rest) near =
      let ip = ip_to_int term server.host in
      let skip = scan_local rest near in
      let keep = scan_local rest (near ++ server ∷ []) in
      if nat_beq ip 0
      then skip
      else if nat_beq ip lb.local_ip
      then found server
      else if in_signed_range lb ip
      then keep
      else skip

  unfoldable pub after_scan : ServerList → Scan → Outcome (Option Server)
  after_scan servers (found server) = returned (some server)
  after_scan servers (refers near) = draw_near draw servers near

  unfoldable pub local_first_select : ServerList → Outcome (Option Server)
  unfolding after_scan
  local_first_select [] = returned none
  local_first_select (s ∷ ss) = after_scan (s ∷ ss) (scan_local (s ∷ ss) [])

  unfoldable pub scan_range : ServerList → ServerList → ServerList
  scan_range [] near = near
  scan_range (server ∷ rest) near =
      let ip = ip_to_int term server.host in
      let skip = scan_range rest near in
      let keep = scan_range rest (near ++ server ∷ []) in
      if nat_beq ip 0 then skip else if in_unsigned_range lb ip then keep else skip

  unfoldable pub ip_range_first_select : ServerList → Outcome (Option Server)
  ip_range_first_select [] = returned none
  ip_range_first_select (s ∷ ss) = draw_near draw (s ∷ ss) (scan_range (s ∷ ss) [])
