-- ===== src/LaserClient/Grouping/Once.antt =====
-- The loop over the keys of a batch files each of them once, and so does the whole of `group`.
use laser_db.Base.{
  ℕ, suc, ◌+◌, ◌≡◌, ◌≢◌, refl, String, true, false, Option, none, some, List, [], ◌∷◌, Memᴰ, length,
  returned, Holds, Holds-map, Holds-self, >>=-Holds, returned-Holds, arith, if◌then◌else◌, leb, ltb,
  nat_eq, string_eq,
}
use laser_db.Base.Maps.Totals.{total}
use laser_db.ServiceRouter.RouterDb.{CityHash}
use laser_db.ServiceRouter.Router.{Selecting}
use laser_db.LaserClient.ConfigManager.{TableSchema, get_table_schema}
use laser_db.LaserClient.Thrift.{LaserKey, LaserKv}
use laser_db.LaserClient.Options.{ReadMode, ClientOption}
use laser_db.LaserClient.Calls.{LaserClient, Network, Session}
use laser_db.LaserClient.Routing.{locate, route_of, route_for, get_route_info}
use laser_db.LaserClient.Grouping.{
  KeyToIndex, AddressKeyMap, DcGroupInfos, add_to_dc, group_kvs, group,
}
use laser_db.LaserClient.Grouping.Moved.{placed}
use laser_db.LaserClient.Grouping.Collected.{found_in, AllGrouped, group_dcs-found_in}
use laser_db.LaserClient.Grouping.Grouped.{IsApart, add_to_dc-AllGrouped, add_to_dc-placed}

module _ (city : CityHash) (s : Selecting) (n : Network) (client : LaserClient) where
  route_for-IsApart :
      (key : LaserKey) (mode : ReadMode) (c : Session s.State n.World) (found : Option TableSchema)
      → ((schema : TableSchema) (t : ℕ × ℕ × ℕ)
          → found ≡ some schema
          → locate city client key schema ≡ returned t
          → t.0 ≢ t.2)
      → Holds (λ r. IsApart r.1) (route_for city s n client key mode c found)
  unfolding route_for route_of
  route_for-IsApart key mode c none apart = λ e. absurd (false≢true e)
    where
      false≢true : false ≢ true
      false≢true e = cc
  route_for-IsApart key mode c (some schema) apart =
      >>=-Holds (λ t. locate city client key schema ≡ returned t) (λ r. IsApart r.1)
        (locate city client key schema) _ (Holds-self (locate city client key schema))
        (λ t e edge. apart schema t refl e)

  -- The keys from an index on have been added, each once.
  abbrev Filed : ℕ → ℕ → DcGroupInfos → DcGroupInfos → Type 0
  Filed idx len before after =
      AllGrouped after
      × ((i : ℕ)
          → total (placed i) after
            ≡ total (placed i) before
              + (if leb idx i then (if ltb i (idx + len) then 1 else 0) else 0))

  group_kvs-Filed :
      (o : ClientOption) (kvs : List LaserKv) (idx : ℕ) (infos : DcGroupInfos)
      (c : Session s.State n.World)
      → ((kv : LaserKv) (schema : TableSchema) (t : ℕ × ℕ × ℕ)
          → Memᴰ kv kvs
          → get_table_schema city client.config_manager kv.key.database_name kv.key.table_name
            ≡ some schema
          → locate city client kv.key schema ≡ returned t
          → t.0 ≢ t.2)
      → AllGrouped infos
      → Holds (λ r. Filed idx (length kvs) infos r.1) (group_kvs city s n client o kvs idx infos c)
  unfolding group_kvs get_route_info
  group_kvs-Filed o [] idx infos c apart hs = (hs, λ i. ground arith)
  group_kvs-Filed o (kv ∷ kvs) idx infos c apart hs =
      >>=-Holds (λ r. IsApart r.1) (λ r. Filed idx (length (kv ∷ kvs)) infos r.1)
        (get_route_info city s n client kv.key o.read_mode c) _
        (route_for-IsApart kv.key o.read_mode c _ (λ schema t. apart kv schema t (Memᴰ.head refl)))
        (λ r fits.
          let k : KeyToIndex = record { kv = kv; idx = idx } in
          let infos' = add_to_dc r.1 k infos in
          Holds-map (λ q. Filed (suc idx) (length kvs) infos' q.1)
            (λ q. Filed idx (length (kv ∷ kvs)) infos q.1)
            (group_kvs city s n client o kvs (suc idx) infos' r.0)
            (λ q h. (h.0, λ i. ground (arith, h.1 i, add_to_dc-placed i r.1 k infos)))
            (group_kvs-Filed o kvs (suc idx) infos' r.0
              (λ kv' schema t m. apart kv' schema t (Memᴰ.tail m))
              (add_to_dc-AllGrouped r.1 k infos fits hs)))

  -- If `group` returns, every index of the batch stands exactly once in the lists of its result, and
  -- no other index does: no key of the batch is lost on the way from the edge nodes to the shards, or
  -- sent twice. It is so if no key of the batch has a shard with the number that is also the hash of
  -- its partition.
  pub group-found_in :
      (o : ClientOption) (kvs : List LaserKv) (c c' : Session s.State n.World)
      (result : List (String × AddressKeyMap)) (i : ℕ)
      → ((kv : LaserKv) (schema : TableSchema) (t : ℕ × ℕ × ℕ)
          → Memᴰ kv kvs
          → get_table_schema city client.config_manager kv.key.database_name kv.key.table_name
            ≡ some schema
          → locate city client kv.key schema ≡ returned t
          → t.0 ≢ t.2)
      → group city s n client o kvs c ≡ returned (c', result)
      → found_in i result ≡ (if ltb i (length kvs) then 1 else 0)
  unfolding group
  group-found_in o kvs c c' result i apart e =
      returned-Holds (λ r. found_in i r.1 ≡ (if ltb i (length kvs) then 1 else 0)) _ (c', result) e
        (>>=-Holds (λ r. Filed 0 (length kvs) [] r.1) _ (group_kvs city s n client o kvs 0 [] c) _
          (group_kvs-Filed o kvs 0 [] c apart tt)
          (λ r h. ground (arith, h.1 i, group_dcs-found_in city s n client i o r.1 [] r.0 h.0)))
