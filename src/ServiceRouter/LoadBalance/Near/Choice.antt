-- ===== src/ServiceRouter/LoadBalance/Near/Choice.antt =====
-- What `LocalFirst` and `IpRangeFirst` choose, without their loops.
use mathlib.Core.List.{append_assoc, append-nil}
use laser_db.Base.{
  ℕ, ◌≡◌, refl, sym, ap, ◌∙◌, Bool, not, ◌&&◌, [], ◌∷◌, ◌++◌, Option, none, some, arith, Outcome,
  returned, nat_beq, if◌then◌else◌, keep_if, index, ◌>>=◌, length, ltb, lt→ltb,
}
use laser_db.ServiceRouter.Server.{Server, ServerList}
use laser_db.ServiceRouter.LoadBalance.Ip.{FloatTerm, ip_to_int}
use laser_db.ServiceRouter.LoadBalance.Simple.{Draw}
use laser_db.ServiceRouter.LoadBalance.Near.{
  LocalBalancer, Scan, found, refers, in_signed_range, in_unsigned_range, draw_near, scan_local,
  after_scan, local_first_select, scan_range, ip_range_first_select,
}

abbrev pub local_or : Outcome (Option Server) → Option Server → Outcome (Option Server)
local_or other none = other
local_or other (some s) = returned (some s)

-- One list, or another where the first is empty.
abbrev pub some_or : ServerList → ServerList → ServerList
some_or near all = if ltb 0 (length near) then near else all

-- The server at the number that was drawn for as many as there are.
abbrev pub drawn_of : Draw → ServerList → Outcome (Option Server)
drawn_of draw servers = index servers (draw (length servers)) >>= λ server. returned (some server)

draw_near-drawn_of :
    (draw : Draw) (servers near : ServerList)
    → draw_near draw servers near ≡ drawn_of draw (some_or near servers)
unfolding draw_near
draw_near-drawn_of draw servers [] = refl
draw_near-drawn_of draw servers (r ∷ rs) = rw (lt→ltb 0 (length (r ∷ rs)) (omega arith)) refl

module _ (term : FloatTerm) (lb : LocalBalancer) where
  -- The first server with a readable address that is this host's.
  abbrev pub first_local : ServerList → Option Server
  first_local [] = none
  first_local (s ∷ ss) =
      if not (nat_beq (ip_to_int term s.host) 0) && nat_beq (ip_to_int term s.host) lb.local_ip
      then some s
      else first_local ss

  -- The servers with a readable address that a range test accepts.
  abbrev pub near_by : (LocalBalancer → ℕ → Bool) → ServerList → ServerList
  near_by in_range =
      keep_if λ s. not (nat_beq (ip_to_int term s.host) 0) && in_range lb (ip_to_int term s.host)

  abbrev scan_result : ServerList → Option Server → Scan
  scan_result near none = refers near
  scan_result near (some s) = found s

  scan_local_lem :
      (draw : Draw) (ss near : ServerList)
      → scan_local term draw lb ss near
        ≡ scan_result (near ++ near_by in_signed_range ss) (first_local ss)
  unfolding scan_local
  scan_local_lem draw [] near = ap refers (sym (append-nil near))
  scan_local_lem draw (s ∷ ss) near = ground (
    arith,
    scan_local_lem draw ss near,
    scan_local_lem draw ss (near ++ s ∷ []),
    append_assoc near (s ∷ []) (near_by in_signed_range ss),
  )

  scan_range_lem :
      (draw : Draw) (ss near : ServerList)
      → scan_range term draw lb ss near ≡ near ++ near_by in_unsigned_range ss
  unfolding scan_range
  scan_range_lem draw [] near = sym (append-nil near)
  scan_range_lem draw (s ∷ ss) near = ground (
    arith,
    scan_range_lem draw ss near,
    scan_range_lem draw ss (near ++ s ∷ []),
    append_assoc near (s ∷ []) (near_by in_unsigned_range ss),
  )

  -- On a list that is not empty, with the servers whose address `IpToInt` reads as 0 left aside:
  -- `LocalFirst` returns the first server on this host. If there is none, it draws among the servers
  -- whose signed address difference is in range, and if there is none either, among the whole list,
  -- with those that were left aside.
  pub local_first_select_lem :
      (draw : Draw) (s : Server) (ss : ServerList)
      → local_first_select term draw lb (s ∷ ss)
        ≡ local_or
            (drawn_of draw (some_or (near_by in_signed_range (s ∷ ss)) (s ∷ ss)))
            (first_local (s ∷ ss))
  unfolding local_first_select
  local_first_select_lem draw s ss =
      ap (after_scan term draw lb (s ∷ ss)) (scan_local_lem draw (s ∷ ss) [])
      ∙ split_result (first_local (s ∷ ss))
    where
      split_result :
          (o : Option Server)
          → after_scan term draw lb (s ∷ ss) (scan_result (near_by in_signed_range (s ∷ ss)) o)
            ≡ local_or (drawn_of draw (some_or (near_by in_signed_range (s ∷ ss)) (s ∷ ss))) o
      split_result none = draw_near-drawn_of draw (s ∷ ss) (near_by in_signed_range (s ∷ ss))
      split_result (some t) = refl

  -- On a list that is not empty, `IpRangeFirst` draws among the servers whose unsigned difference is
  -- in range, those left aside whose address `IpToInt` reads as 0; if there is none, it draws among
  -- the whole list, with those that were left aside.
  pub ip_range_first_select_lem :
      (draw : Draw) (s : Server) (ss : ServerList)
      → ip_range_first_select term draw lb (s ∷ ss)
        ≡ drawn_of draw (some_or (near_by in_unsigned_range (s ∷ ss)) (s ∷ ss))
  unfolding ip_range_first_select
  ip_range_first_select_lem draw s ss =
      ap (draw_near draw (s ∷ ss)) (scan_range_lem draw (s ∷ ss) [])
      ∙ draw_near-drawn_of draw (s ∷ ss) (near_by in_unsigned_range (s ∷ ss))
