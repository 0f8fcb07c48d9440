-- ===== src/LaserClient/Multi/Refined.antt =====
-- `MgetDetailSync` reads from the servers' store key by key, however the keys are grouped.
use laser_db.Base.{
  true, ℕ, zero, suc, ◌≤◌, ◌<◌, ◌≡◌, ◌≢◌, refl, sym, ap, subst, ◌∙◌, Option, none, some, List, [],
  ◌∷◌, Memᴰ, All, length, get_elem?, returned, returned-Holds, >>=-returned, returned_inj, arith,
  nat_beq, nat_beq_iff, some_inj, inl, inr, Bool-cases, string_eq,
}
use laser_db.Base.Int.{ℤ}
use laser_db.Base.Maps.Each.{Each}
use laser_db.ServiceRouter.RouterDb.{CityHash}
use laser_db.ServiceRouter.Router.{Selecting}
use laser_db.LaserClient.ConfigManager.{TableSchema, get_table_schema}
use laser_db.LaserClient.Thrift.{
  Status, status_ok, LaserKey, LaserKv, LaserResponse, EntryValue, mget_detail,
}
use laser_db.LaserClient.Options.{ServerAddress, ClientOption}
use laser_db.LaserClient.Calls.{LaserClient, answered, Network, Session}
use laser_db.LaserClient.Routing.{locate}
use laser_db.LaserClient.Grouping.{KeyToIndex, group as grouped}
use laser_db.LaserClient.Grouping.Carried.{Carrying, group-Carrying}
use laser_db.LaserClient.Multi.{Groups, Move, GroupResp, indexes, call_groups, fill_all}
use laser_db.LaserClient.Multi.Commands.{
  mget_nil, keys_of, as_kvs, detail_at, detail_status, mget_detail_fails, mget_detail_sync,
}
use laser_db.LaserClient.Multi.Placed.{occurrences, answered_for, fill_all-at}
use laser_db.LaserClient.Multi.Answers.{call_groups-answered_for}
use laser_db.LaserClient.Multi.Reads.{
  stored_values, Fits, IsRead, IsRead-map, detail_at-IsRead, From, send_all-From,
}

-- An index that occurs is at a place, of a list and of an answer.
place_of : (j : ℕ) (js : List ℕ) → 1 ≤ occurrences j js → (p : ℕ) × (get_elem? js p ≡ some j)
place_of j [] h = absurd (omega arith)
place_of j (k ∷ js) h = elim (Bool-cases (nat_beq k j)) [
  | inl e ↦ (0, ap some ((nat_beq_iff k j).0 e))
  | inr e ↦ let (p, at_p) = place_of j js (ground (arith, e)) in (suc p, at_p)
]

abbrev Placed : ℕ → List GroupResp → Type 0
Placed j answers = (a : GroupResp) × Memᴰ a answers × (p : ℕ) × (get_elem? a.idxes p ≡ some j)

answer_of : (j : ℕ) (answers : List GroupResp) → 1 ≤ answered_for j answers → Placed j answers
answer_of j [] h = absurd (omega arith)
answer_of j (a ∷ answers) h = elim (Bool-cases (nat_beq (occurrences j a.idxes) 0)) [
  | inl e ↦
      let (b, m, p, at_p) = answer_of j answers (ground (arith, e)) in (b, Memᴰ.tail m, p, at_p)
  | inr e ↦ let (p, at_p) = place_of j a.idxes (ground (arith, e)) in (a, Memᴰ.head refl, p, at_p)
]

key_at :
    (P : KeyToIndex → Type 0) (list : List KeyToIndex) (p j : ℕ)
    → get_elem? (indexes list) p ≡ some j
    → All P list
    → (k : KeyToIndex) × (get_elem? (keys_of list) p ≡ some k.kv.key) × (k.idx ≡ j) × P k
key_at P [] p j e hs = cc
key_at P (k ∷ list) zero j e hs = (k, refl, some_inj _ _ e, hs.0)
key_at P (k ∷ list) (suc p) j e hs = key_at P list p j e hs.1

-- The place of a key in the batch of `mget`.
kv_at :
    (keys : List LaserKey) (j : ℕ) (key : LaserKey)
    → get_elem? keys j ≡ some key
    → (get_elem? (as_kvs keys) j ≡ some (record { key = key; value = none }))
      × (j < length (as_kvs keys))
kv_at [] j key e = cc
kv_at (k ∷ keys) zero key e =
    (ap (λ q. some (record { key = q; value = none })) (some_inj k key e), omega arith)
kv_at (k ∷ keys) (suc j) key e = let (h, lt) = kv_at keys j key e in (h, omega (arith, lt))

module _ (store : LaserKey → EntryValue) where
  list_of :
      (P : KeyToIndex → Type 0) (groups : Groups) (answers : List GroupResp) (a : GroupResp)
      → From store groups answers
      → Each (Carrying P) groups
      → Memᴰ a answers
      → (list : List KeyToIndex) × ((a.idxes ≡ indexes list) × Fits store (keys_of list) a.call)
        × All P list
  list_of P groups [] a from hs m = elim m [ ]
  list_of P [] (b ∷ answers) a from hs m = elim from [ ]
  list_of P ((key, g) ∷ groups) (b ∷ answers) a from hs (Memᴰ.head same) = (
    g.key_to_index_list,
    subst
        (λ x.
          (x.idxes ≡ indexes g.key_to_index_list) × Fits store (keys_of g.key_to_index_list) x.call)
        (sym same) from.0,
    hs.0,
  )
  list_of P ((key, g) ∷ groups) (b ∷ answers) a from hs (Memᴰ.tail m) =
      list_of P groups answers a from.1 hs.1 m

  module _ (city : CityHash) (s : Selecting) (n : Network) (client : LaserClient)
      (moves : List Move) (keys : List LaserKey)
      (stored : (address : ServerAddress) (keys : List LaserKey) (ms : ℤ) (w : n.World)
          (resp : LaserResponse)
        → (n.await address (mget_detail keys) ms w).1 ≡ answered resp
        → resp.list_value_data ≡ stored_values store keys)
      (apart : (kv : LaserKv) (schema : TableSchema) (t : ℕ × ℕ × ℕ)
        → Memᴰ kv (as_kvs keys)
        → get_table_schema city client.config_manager kv.key.database_name kv.key.table_name
          ≡ some schema
        → locate city client kv.key schema ≡ returned t
        → t.0 ≢ t.2) where
    abbrev IsOf : KeyToIndex → Type 0
    IsOf k = get_elem? (as_kvs keys) k.idx ≡ some k.kv

    -- One entry of the answers is the store's, from the parts that the command consists of.
    entry_at :
        (groups : Groups) (answers : List GroupResp) (st st' : ℕ × List (Option EntryValue)) (j : ℕ)
        (key : LaserKey)
        → From store groups answers
        → Each (Carrying IsOf) groups
        → answered_for j answers ≡ 1
        → fill_all (detail_at mget_detail_fails) answers st ≡ returned st'
        → get_elem? keys j ≡ some key
        → (entry : EntryValue) × (get_elem? st'.1 j ≡ some (some entry))
          × IsRead store (1 ≤ st'.0) key entry
    entry_at groups answers st st' j key from hs once filled here =
        let (a, m, p, at_p) = answer_of j answers (omega (arith, once)) in
        let (list, sent, all) = list_of IsOf groups answers a from hs m in
        let (k, at_p', same, of) =
          key_at IsOf list p j (ap (λ l. get_elem? l p) (sym sent.0) ∙ at_p) all in
        let key_same =
          ap (λ kv. kv.key)
            (some_inj k.kv (record { key = key; value = none })
              (sym of ∙ ap (get_elem? (as_kvs keys)) same ∙ (kv_at keys j key here).0)) in
        let (v, e, there, counted) =
          fill_all-at (detail_at mget_detail_fails) answers st st' a p j filled m at_p
            (omega (arith, once)) in
        let (entry, e', read) =
          detail_at-IsRead store mget_detail_fails a.call (keys_of list) p key v sent.1
            (at_p' ∙ ap some key_same) e in
        (
          entry,
          there ∙ ap some e',
          IsRead-map store (v.1 ≡ true) (1 ≤ st'.0) key entry counted read,
        )

    groups-IsOf :
        (o : ClientOption) (c : Session s.State n.World)
        (r : Session s.State n.World × List GroupResp)
        → call_groups city s n client mget_nil
            (λ list. mget_detail (keys_of list))
            moves
            o
            (as_kvs keys)
            c
          ≡ returned r
        → (groups : Groups) × From store groups r.1 × Each (Carrying IsOf) groups
    unfolding call_groups
    groups-IsOf o c r e =
        let (q, e1, e2) = >>=-returned (grouped city s n client o (as_kvs keys) c) _ r e in
        (
          q.1,
          returned-Holds (λ x. From store q.1 x.1) _ r e2
              (send_all-From store city s n client stored o _ 0 q.1 q.0),
          group-Carrying IsOf city s n client o (as_kvs keys) c q (λ p kv at_p. at_p) e1,
        )

    detail_status-failed : (nfailed len : ℕ) → 1 ≤ nfailed → detail_status nfailed len ≢ status_ok
    unfolding detail_status
    detail_status-failed nfailed len some_failed e = ground (arith, e, some_failed)

    -- If every server answers the keys of a request with what one store has for them, in the order of
    -- the request, then `MgetDetailSync` refines a read of that store: if it returns, there is an entry
    -- at the place of each key, and it is the one that the store has for this key; or it has no value
    -- and a status that is not OK, and then the command does not return OK either. This is so however
    -- the keys are grouped, moved from edge nodes to shards, called or timed out, and at whichever
    -- server a group is called, if no key of the batch has a shard with the number that is also the
    -- hash of its partition.
    pub mget_detail_sync-IsRead :
        (o : ClientOption) (c c' : Session s.State n.World) (status : Status)
        (entries : List (Option EntryValue)) (j : ℕ) (key : LaserKey)
        → mget_detail_sync city s n client moves o keys c ≡ returned (c', status, entries)
        → get_elem? keys j ≡ some key
        → (entry : EntryValue) × (get_elem? entries j ≡ some (some entry))
          × IsRead store (status ≢ status_ok) key entry
    unfolding mget_detail_sync
    mget_detail_sync-IsRead o c c' status entries j key e here =
        let (r, e1, e2) =
          >>=-returned (call_groups city s n client mget_nil _ moves o (as_kvs keys) c) _
            (c', status, entries) e in
        let (st, e3, e4) = >>=-returned (fill_all (detail_at mget_detail_fails) r.1 _) _ _ e2 in
        let (groups, from, hs) = groups-IsOf o c r e1 in
        let once =
          call_groups-answered_for city s n client moves (as_kvs keys) apart mget_nil _ o c r.0 r.1
            j e1 in
        let (entry, there, read) =
          entry_at groups r.1 _ st j key from hs (ground (arith, once, (kv_at keys j key here).1))
            e3 here in
        let same = returned_inj _ _ e4 in
        (
          entry,
          ap (λ q. get_elem? q.2 j) (sym same) ∙ there,
          IsRead-map store (1 ≤ st.0) (status ≢ status_ok) key entry
              (λ failed bad.
                detail_status-failed st.0 (length keys) failed (ap (λ q. q.1) same ∙ bad))
              read,
        )
