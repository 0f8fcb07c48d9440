-- ===== src/Examples/Batches.antt =====
-- laser_client.go, the commands of many keys, at the cluster of Cluster.
use laser_db.Base.{
  ◌≢◌, ℕ, zero, suc, ◌≡◌, ◌≢◌, refl, ap, sym, subst, some_inj, ltb, ◌∙◌, String, Option, none, some,
  List, [], ◌∷◌, Memᴰ, returned, returned_inj, arith, length, get_elem?, if◌then◌else◌, nat_eq,
  string_eq, index,
}
use laser_db.Base.Int.{ℤ, pos, to_u32, rem_ℤ}
use laser_db.Base.Maps.{lookup, insert, insert_all, delete}
use laser_db.ServiceRouter.RouterDb.{batch_select_servers, get_service_key}
use laser_db.ServiceRouter.Router.{
  batch_discover, batch_all, batch_one, batch_for, choose, get_or_create_balancer, balance_id,
  make_balancer, chosen_method, option_dc, get_server_list_hash, local_first_balancer,
}
use laser_db.LaserClient.ConfigManager.{TableSchema, get_table_schema, get_shard_number}
use laser_db.LaserClient.Thrift.{
  status_ok, LaserKey, LaserKv, EntryValue, LaserResponse, mget_detail,
}
use laser_db.LaserClient.Options.{
  ServerAddress, new_client_option_factory, check_target_server_address, shard_type_of,
}
use laser_db.LaserClient.Calls.{
  timed_out, raised, answered, Session, common_call_with_route_id, retry, attempt, after_attempt,
  call_found, call_server, handle_reply, choose_server, with_timeout, call_server_times,
  call_timeout, get_client_option, get_conn,
}
use laser_db.LaserClient.Routing.{
  locate, get_route_info, route_for, route_of, draw_edge, is_leader_read,
}
use laser_db.LaserClient.Grouping.{
  AddressKeyMap, group, group_kvs, group_dcs, group_dc, discover_batch, reassign, collect,
  add_to_address, map_key, add_to_dc, add_key, add_to_list, add_unique, new_dc_group_info,
}
use laser_db.LaserClient.Multi.{
  Move, sets, copies, call_groups, run_moves, move, set_target, send_all, send_group, fill_all,
  fill, put, set_index, replicate,
}
use laser_db.LaserClient.Multi.Commands.{
  as_kvs, mget_detail_sync, detail_at, data_at, entry_of, detail_status,
}
use laser_db.LaserClient.Multi.Reads.{stored_values, IsRead}
use laser_db.LaserClient.Multi.Refined.{mget_detail_sync-IsRead}
use laser_db.LaserClient.Grouping.Once.{group-found_in}
use laser_db.LaserClient.Grouping.Collected.{found_in}
use laser_db.LaserClient.Partition.{
  get_partition_id, get_partition_hash, get_shard_id, table_hash, get_key_hash, key_hash, abs,
  rem_int,
}
use laser_db.ServiceRouter.Node.{decimal}
use laser_db.Examples.Cluster.{
  toy_hash, table, tables, client, key, store, network, first_server, start, option, keys,
}

-- After the run: the call timed out once, and was made twice.
abbrev finish : Session Unit ℕ
finish = record {
  world = 2;
  balancers =
      (498, local_first_balancer (record { local_ip = "10.0.0.9"; diff_range = pos 65536 })) ∷ [];
  selecting = tt;
  marks = call_server_times ∷ call_timeout ∷ call_server_times ∷ [];
}

abbrev entries : List (Option EntryValue)
entries =
    some (record { status = 0; string_value = "a" })
    ∷ some (record { status = 0; string_value = "bc" })
    ∷ some (record { status = 200; string_value = "" })
    ∷ some (record { status = 200; string_value = "" })
    ∷ []

abbrev moves : List Move
moves = sets 0 ∷ copies 0 ∷ sets 1 ∷ copies 1 ∷ []

partly_read :
    mget_detail_sync toy_hash first_server network client moves option keys start
    ≡ returned (finish, 20, entries)
unfolding mget_detail_sync detail_at data_at entry_of detail_status call_groups run_moves move
    set_target send_all send_group fill_all fill put set_index replicate group group_kvs group_dcs
    group_dc discover_batch reassign collect add_to_address map_key add_to_dc add_key add_to_list
    add_unique new_dc_group_info get_route_info route_for route_of draw_edge locate is_leader_read
    common_call_with_route_id retry attempt after_attempt call_found call_server handle_reply
    choose_server check_target_server_address with_timeout get_client_option shard_type_of get_conn
    new_client_option_factory get_table_schema get_shard_number get_partition_id get_partition_hash
    get_shard_id table_hash get_key_hash key_hash abs rem_int batch_discover batch_all batch_one
    batch_for choose get_or_create_balancer balance_id make_balancer chosen_method option_dc
    get_server_list_hash batch_select_servers get_service_key decimal lookup insert insert_all
    delete index to_u32 rem_ℤ
partly_read = refl

answers_stored :
    (address : ServerAddress) (asked : List LaserKey) (ms : ℤ) (w : ℕ) (resp : LaserResponse)
    → (network.await address (mget_detail asked) ms w).1 ≡ answered resp
    → resp.list_value_data ≡ stored_values store asked
answers_stored address asked ms zero resp e = cc
answers_stored address asked ms (suc w) resp e =
    sym (ap (λ r. elim r [ answered x ↦ x.list_value_data | timed_out ↦ [] | raised y ↦ [] ]) e)

-- What a key is located at.
abbrev Located : LaserKv → Type 0
Located kv =
    (get_table_schema toy_hash tables kv.key.database_name kv.key.table_name ≡ some table)
    × (t : ℕ × ℕ × ℕ) × (locate toy_hash client kv.key table ≡ returned t)
    × (t.0 ≢ t.2)

located : (kv : LaserKv) → Memᴰ kv (as_kvs keys) → Located kv
unfolding get_table_schema lookup locate get_partition_id get_partition_hash get_shard_id
    get_shard_number table_hash get_key_hash key_hash abs rem_int to_u32 rem_ℤ
located kv (Memᴰ.head e) =
    subst Located (sym e) ((refl, (2, 5, 182), refl, λ bad. omega (arith, bad)))
located kv (Memᴰ.tail (Memᴰ.head e)) =
    subst Located (sym e) ((refl, (2, 2, 107), refl, λ bad. omega (arith, bad)))
located kv (Memᴰ.tail (Memᴰ.tail (Memᴰ.head e))) =
    subst Located (sym e) ((refl, (0, 6, 207), refl, λ bad. omega (arith, bad)))
located kv (Memᴰ.tail (Memᴰ.tail (Memᴰ.tail (Memᴰ.head e)))) =
    subst Located (sym e) ((refl, (0, 3, 132), refl, λ bad. omega (arith, bad)))
located kv (Memᴰ.tail (Memᴰ.tail (Memᴰ.tail (Memᴰ.tail m)))) = elim m [ ]

keys_apart :
    (kv : LaserKv) (schema : TableSchema) (t : ℕ × ℕ × ℕ)
    → Memᴰ kv (as_kvs keys)
    → get_table_schema toy_hash tables kv.key.database_name kv.key.table_name ≡ some schema
    → locate toy_hash client kv.key schema ≡ returned t
    → t.0 ≢ t.2
keys_apart kv schema t m known at_t =
    let (known', t', at_t', apart) = located kv m in
    let same = some_inj table schema (sym known' ∙ known) in
    subst (λ q. q.0 ≢ q.2)
      (returned_inj t' t
        (sym at_t' ∙ subst (λ x. locate toy_hash client kv.key x ≡ returned t) (sym same) at_t))
      apart

mget_detail_sync-IsRead_example :
    (entry : EntryValue) × (get_elem? entries 1 ≡ some (some entry))
    × IsRead store (20 ≢ status_ok) (key "bc") entry
mget_detail_sync-IsRead_example =
    mget_detail_sync-IsRead store toy_hash first_server network client moves keys answers_stored
      keys_apart option start finish 20 entries 1 (key "bc") partly_read refl

-- The groups of the four keys.
abbrev grouped : List (String × AddressKeyMap)
grouped =
    (
      "10.0.0.1:9090",
      record {
        address = some (record { host = "10.0.0.1"; port = 9090 });
        key_to_index_list =
            record { kv = record { key = key "a"; value = none }; idx = 0 }
            ∷ record { kv = record { key = key "bc"; value = none }; idx = 1 }
            ∷ [];
      },
    )
    ∷ (
      "nil_address",
      record {
        address = none;
        key_to_index_list =
            record { kv = record { key = key "def"; value = none }; idx = 2 }
            ∷ record { kv = record { key = key "ghij"; value = none }; idx = 3 }
            ∷ [];
      },
    )
    ∷ []

group-found_in_example : found_in 3 grouped ≡ (if ltb 3 (length (as_kvs keys)) then 1 else 0)
unfolding group group_kvs group_dcs group_dc discover_batch reassign collect add_to_address map_key
    add_to_dc add_key add_to_list add_unique new_dc_group_info get_route_info route_for route_of
    draw_edge locate is_leader_read get_client_option shard_type_of new_client_option_factory
    get_table_schema get_shard_number get_partition_id get_partition_hash get_shard_id table_hash
    get_key_hash key_hash abs rem_int batch_discover batch_all batch_one batch_for choose
    get_or_create_balancer balance_id make_balancer chosen_method option_dc get_server_list_hash
    batch_select_servers get_service_key decimal lookup insert insert_all delete to_u32 rem_ℤ
group-found_in_example =
    group-found_in toy_hash first_server network client option (as_kvs keys) start
      (record finish { world = 0; marks = [] }) grouped 3 keys_apart refl
