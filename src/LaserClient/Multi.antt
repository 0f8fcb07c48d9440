-- ===== src/LaserClient/Multi.antt =====
-- laser_client.go, the commands of many keys: the goroutines that call the servers of the groups, and
-- the goroutine that puts their answers in place. Each goroutine writes the address of its group
-- into the options that all of them share, then copies the options: the order of these steps is an
-- argument, `moves`. The calls run, and their answers arrive, in the order of the groups.
pub mod Commands
pub mod Placed
pub mod Answers
pub mod Reads
pub mod Refined
use laser_db.Base.{
  ℕ, zero, suc, String, Bool, false, Option, none, some, List, [], ◌∷◌, map, length, get_elem?,
  Outcome, returned, panicked, running, ◌>>=◌, index, if◌then◌else◌, ◌==◌, nat_eq, string_eq,
}
use laser_db.Base.Int.{ℤ, pos, negsuc, beq_ℤ}
use laser_db.Base.Maps.{lookup, insert}
use laser_db.ServiceRouter.Server.{default_dc}
use laser_db.ServiceRouter.RouterDb.{CityHash}
use laser_db.ServiceRouter.Router.{Selecting}
use laser_db.LaserClient.Thrift.{
  Status, status_ok, rs_not_found, rs_error, rs_key_expire, rs_part_failed,
  client_thrift_call_error, LaserKey, EntryValue, LaserValue, zero_laser_value, LaserKv,
  LaserSetOption, LaserResponse, empty_response, Request, mget, mget_detail, mset, mset_detail,
}
use laser_db.LaserClient.Options.{ServerAddress, ClientOption}
use laser_db.LaserClient.Calls.{
  LaserClient, CallResp, failed, Network, Session, common_call_with_route_id,
}
use laser_db.LaserClient.Routing.{leader}
use laser_db.LaserClient.Grouping.{KeyToIndex, AddressKeyMap, nil_address, group}

-- `result[i] = a`
unfoldable pub set_index {ℓ} : {A : Type ℓ} → List A → ℕ → A → Outcome (List A)
set_index [] i a = panicked
set_index (x ∷ xs) zero a = returned (a ∷ xs)
set_index (x ∷ xs) (suc i) a = set_index xs i a >>= λ ys. returned (x ∷ ys)

unfoldable pub replicate {ℓ} : {A : Type ℓ} → ℕ → A → List A
replicate zero a = []
replicate (suc n) a = a ∷ replicate n a

abbrev pub Groups : Type 0
Groups = List (String × AddressKeyMap)

-- A goroutine, by the place of its group, sets the shared address or copies it.
pub data Move : Type 0 where
  sets copies : ℕ → Move

pub record Shared : Type 0 where
  pub target : ServerAddress
  pub copied : List (ℕ × ServerAddress)

unfoldable pub set_target : Option (String × AddressKeyMap) → Shared → Shared
set_target none sh = sh
set_target (some (key, group)) sh = elim group.address [
  | none ↦ sh
  | some address ↦ record sh { target = address }
]

unfoldable pub move : Groups → Shared → Move → Shared
unfolding set_target insert
move groups sh (sets i) = set_target (get_elem? groups i) sh
move groups sh (copies i) = record sh { copied = insert i sh.target sh.copied }

unfoldable pub run_moves : Groups → Shared → List Move → Shared
run_moves groups sh [] = sh
run_moves groups sh (m ∷ moves) = run_moves groups (move groups sh m) moves

-- `callResp` of a group.
pub record GroupResp : Type 0 where
  pub idxes : List ℕ
  pub call : CallResp

abbrev pub indexes : List KeyToIndex → List ℕ
indexes list = map (λ k. k.idx) list

module _ (city : CityHash) (s : Selecting) (n : Network) (client : LaserClient) where
  -- One goroutine: `nil_resp` and `request` are those of the command.
  unfoldable pub send_group :
      (ℕ → CallResp)
      → (List KeyToIndex → Request)
      → ClientOption
      → Option ServerAddress
      → String × AddressKeyMap
      → Session s.State n.World
      → Outcome (Session s.State n.World × GroupResp)
  send_group nil_resp request o target (key, group) c =
      let idxes = indexes group.key_to_index_list in
      if key == nil_address
      then returned (c, record { idxes = idxes; call = nil_resp (length group.key_to_index_list) })
      else elim target [
        | none ↦ running
        | some address ↦
            common_call_with_route_id city s n client 0 0 false default_dc
              (record o { target_server_address = address }) (request group.key_to_index_list) c
            >>= λ r. returned (r.0, record { idxes = idxes; call = r.1 })
      ]

  unfoldable pub send_all :
      (ℕ → CallResp)
      → (List KeyToIndex → Request)
      → ClientOption
      → List (ℕ × ServerAddress)
      → ℕ
      → Groups
      → Session s.State n.World
      → Outcome (Session s.State n.World × List GroupResp)
  unfolding lookup
  send_all nil_resp request o copied i [] c = returned (c, [])
  send_all nil_resp request o copied i (group ∷ groups) c =
      send_group nil_resp request o (lookup i copied) group c >>= λ r.
      send_all nil_resp request o copied (suc i) groups r.0 >>= λ q. returned (q.0, r.1 ∷ q.1)

  -- `mset` and `mget` up to the answers.
  unfoldable pub call_groups :
      (ℕ → CallResp)
      → (List KeyToIndex → Request)
      → List Move
      → ClientOption
      → List LaserKv
      → Session s.State n.World
      → Outcome (Session s.State n.World × List GroupResp)
  unfolding run_moves
  call_groups nil_resp request moves o kvs c = group city s n client o kvs c >>= λ r.
      let shared = run_moves r.1 (record { target = o.target_server_address; copied = [] }) moves in
      send_all nil_resp request o shared.copied 0 r.1 r.0

-- The loop of a process function over the indexes of an answer: what stands at a place of the answer
-- goes to its index, and is counted if it failed.
module _ {A : Type 0} (at : CallResp → ℕ → Outcome (A × Bool)) where
  unfoldable pub put : ℕ → A × Bool → ℕ × List A → Outcome (ℕ × List A)
  unfolding set_index
  put index (a, fails) (nfailed, result) = set_index result index a >>= λ result'.
      returned (if fails then suc nfailed else nfailed, result')

  unfoldable pub fill : CallResp → ℕ → List ℕ → ℕ × List A → Outcome (ℕ × List A)
  fill r i [] st = returned st
  fill r i (index ∷ idxes) st = at r i >>= λ v. put index v st >>= λ st'. fill r (suc i) idxes st'

  -- The goroutine that receives the answers.
  unfoldable pub fill_all : List GroupResp → ℕ × List A → Outcome (ℕ × List A)
  fill_all [] st = returned st
  fill_all (g ∷ gs) st = fill g.call 0 g.idxes st >>= λ st'. fill_all gs st'
