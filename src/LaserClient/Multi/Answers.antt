-- ===== src/LaserClient/Multi/Answers.antt =====
-- The answers of `mset` and `mget`, and what `MsetSync` and `MgetDetailSync` return.
use laser_db.Base.{
  ℕ, suc, ◌≡◌, ◌≢◌, refl, ap, ◌∙◌, String, false, Option, none, some, List, [], ◌∷◌, Memᴰ, length,
  returned, Holds, >>=-Holds, >>=-Holds_any, returned-Holds, >>=-returned, arith, if◌then◌else◌,
  if-both, ltb, ◌==◌, string_eq, nat_eq,
}
use laser_db.Base.Maps.{lookup}
use laser_db.ServiceRouter.RouterDb.{CityHash}
use laser_db.ServiceRouter.Router.{Selecting}
use laser_db.LaserClient.ConfigManager.{TableSchema, get_table_schema}
use laser_db.LaserClient.Thrift.{LaserKv, Request}
use laser_db.LaserClient.Options.{ServerAddress, ClientOption}
use laser_db.LaserClient.Calls.{LaserClient, CallResp, Network, Session, common_call_with_route_id}
use laser_db.LaserClient.Routing.{locate}
use laser_db.LaserClient.Grouping.{KeyToIndex, AddressKeyMap, group as grouped, nil_address}
use laser_db.LaserClient.Grouping.Moved.{count}
use laser_db.LaserClient.Grouping.Collected.{found_in}
use laser_db.LaserClient.Grouping.Once.{group-found_in}
use laser_db.LaserClient.Multi.{Groups, Move, GroupResp, indexes, send_group, send_all, call_groups}
use laser_db.LaserClient.Multi.Placed.{occurrences, answered_for}

occurrences-indexes : (i : ℕ) (list : List KeyToIndex) → occurrences i (indexes list) ≡ count i list
occurrences-indexes i [] = refl
occurrences-indexes i (k ∷ list) = omega (arith, occurrences-indexes i list)

module _ (city : CityHash) (s : Selecting) (n : Network) (client : LaserClient) where
  abbrev Answers : List KeyToIndex → Session s.State n.World × GroupResp → Type 0
  Answers list r = r.1.idxes ≡ indexes list

  send_group-Answers :
      (nil_resp : ℕ → CallResp) (request : List KeyToIndex → Request) (o : ClientOption)
      (target : Option ServerAddress) (key : String) (group : AddressKeyMap)
      (c : Session s.State n.World)
      → Holds
          (Answers group.key_to_index_list)
          (send_group city s n client nil_resp request o target (key, group) c)
  unfolding send_group
  send_group-Answers nil_resp request o none key group c =
      if-both (Holds (Answers group.key_to_index_list)) (key == nil_address) refl tt
  send_group-Answers nil_resp request o (some address) key group c =
      if-both (Holds (Answers group.key_to_index_list)) (key == nil_address) refl (
        >>=-Holds_any (Answers group.key_to_index_list)
          (common_call_with_route_id city s n client 0 0 false _ _ _ c) _ (λ r. refl))

  -- The answers are for the indexes of the groups.
  send_all-answered_for :
      (nil_resp : ℕ → CallResp) (request : List KeyToIndex → Request) (o : ClientOption)
      (copied : List (ℕ × ServerAddress)) (i : ℕ) (groups : Groups) (c : Session s.State n.World)
      (j : ℕ)
      → Holds
          (λ r. answered_for j r.1 ≡ found_in j groups)
          (send_all city s n client nil_resp request o copied i groups c)
  unfolding send_all
  send_all-answered_for nil_resp request o copied i [] c j = refl
  send_all-answered_for nil_resp request o copied i ((key, group) ∷ groups) c j =
      >>=-Holds (Answers group.key_to_index_list) _ _ _
        (send_group-Answers nil_resp request o (lookup i copied) key group c)
        (λ r same.
          >>=-Holds (λ q. answered_for j q.1 ≡ found_in j groups) _ _ _
            (send_all-answered_for nil_resp request o copied (suc i) groups r.0 j)
            (λ q rest. omega (
              arith,
              ap (occurrences j) same,
              occurrences-indexes j group.key_to_index_list,
              rest,
            )))

  module _ (moves : List Move) (kvs : List LaserKv)
      (apart : (kv : LaserKv) (schema : TableSchema) (t : ℕ × ℕ × ℕ)
        → Memᴰ kv kvs
        → get_table_schema city client.config_manager kv.key.database_name kv.key.table_name
          ≡ some schema
        → locate city client kv.key schema ≡ returned t
        → t.0 ≢ t.2) where
    -- Every index of a batch is answered for exactly once, by the servers, or, for a key without a
    -- server, by the client itself. It is so if no key of the batch has a shard with the number that
    -- is also the hash of its partition.
    pub call_groups-answered_for :
        (nil_resp : ℕ → CallResp) (request : List KeyToIndex → Request) (o : ClientOption)
        (c c' : Session s.State n.World) (answers : List GroupResp) (j : ℕ)
        → call_groups city s n client nil_resp request moves o kvs c ≡ returned (c', answers)
        → answered_for j answers ≡ (if ltb j (length kvs) then 1 else 0)
    unfolding call_groups
    call_groups-answered_for nil_resp request o c c' answers j e =
        let (r, e1, e2) = >>=-returned (grouped city s n client o kvs c) _ (c', answers) e in
        returned-Holds (λ q. answered_for j q.1 ≡ found_in j r.1) _ (c', answers) e2
          (send_all-answered_for nil_resp request o _ 0 r.1 r.0 j)
        ∙ group-found_in city s n client o kvs c r.0 r.1 j apart e1
