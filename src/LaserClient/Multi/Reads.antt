-- ===== src/LaserClient/Multi/Reads.antt =====
-- What the answers to `mget` carry when the servers answer from one store.
use laser_db.Base.{
  ℕ, zero, suc, ◌≡◌, ◌≢◌, ◌⊎◌, refl, sym, ap, ◌∙◌, String, Bool, true, false, Option, none, some,
  List, [], ◌∷◌, map, get_elem?, Outcome, returned, ◌>>=◌, index, Holds, >>=-Holds, returned_inj,
  arith, if◌then◌else◌, if-both, nat_beq, ◌==◌, string_eq, nat_eq, inl, inr, some_inj,
}
use laser_db.Base.Int.{ℤ}
use laser_db.Base.Maps.{lookup}
use laser_db.ServiceRouter.RouterDb.{CityHash}
use laser_db.ServiceRouter.Router.{Selecting}
use laser_db.LaserClient.Thrift.{
  Status, status_ok, LaserKey, LaserValue, zero_laser_value, LaserResponse, EntryValue, mget_detail,
}
use laser_db.LaserClient.Options.{ServerAddress, ClientOption}
use laser_db.LaserClient.Calls.{LaserClient, CallResp, answered, Network, Session}
use laser_db.LaserClient.Calls.Outcomes.{common_call_with_route_id-Holds}
use laser_db.LaserClient.Grouping.{KeyToIndex, AddressKeyMap, nil_address}
use laser_db.LaserClient.Multi.{Groups, GroupResp, indexes, send_group, send_all}
use laser_db.LaserClient.Multi.Commands.{mget_nil, keys_of, entry_of, data_at, detail_at}

-- The answer of a server to one key.
abbrev as_value : EntryValue → LaserValue
as_value entry = record zero_laser_value { entry_value = some entry }

abbrev pub stored_values : (LaserKey → EntryValue) → List LaserKey → List LaserValue
stored_values store keys = map (λ key. as_value (store key)) keys

module _ (store : LaserKey → EntryValue) where
  -- A call for the keys of a list: no data, or what the store has.
  abbrev pub Fits : List LaserKey → CallResp → Type 0
  Fits keys r = (r.resp.list_value_data ≡ []) ⊎ (r.resp.list_value_data ≡ stored_values store keys)

  -- An entry is what the store has for a key, or it has no value and a status that is not OK, and
  -- something is said of the command.
  abbrev pub IsRead : Type 0 → LaserKey → EntryValue → Type 0
  IsRead Failed key entry =
      (entry ≡ store key) ⊎ ((entry.string_value ≡ "") × (entry.status ≢ status_ok) × Failed)

  pub IsRead-map :
      (F G : Type 0) (key : LaserKey) (entry : EntryValue)
      → (F → G)
      → IsRead F key entry
      → IsRead G key entry
  IsRead-map F G key entry f (inl read) = inl read
  IsRead-map F G key entry f (inr (no_value, bad, failed)) = inr (no_value, bad, f failed)

  stored_at :
      (fails : Status → Bool) (keys : List LaserKey) (p : ℕ) (key : LaserKey)
      → get_elem? keys p ≡ some key
      → (index (stored_values store keys) p >>= entry_of fails)
        ≡ returned (some (store key), fails (store key).status)
  unfolding index entry_of
  stored_at fails [] p key e = cc
  stored_at fails (k ∷ keys) zero key e =
      ap (λ q. returned (some (store q), fails (store q).status)) (some_inj k key e)
  stored_at fails (k ∷ keys) (suc p) key e = stored_at fails keys p key e

  data_at-IsRead :
      (fails : Status → Bool) (list : List LaserValue) (keys : List LaserKey) (p : ℕ)
      (key : LaserKey) (v : Option EntryValue × Bool)
      → (list ≡ []) ⊎ (list ≡ stored_values store keys)
      → get_elem? keys p ≡ some key
      → data_at fails list p ≡ returned v
      → (entry : EntryValue) × (v.0 ≡ some entry) × IsRead (v.1 ≡ true) key entry
  unfolding data_at
  data_at-IsRead fails [] keys p key v fits at_p e = (
    _,
    ap (λ q. q.0) (sym (returned_inj _ _ e)),
    inr (refl, (λ bad. omega (arith, bad)), ap (λ q. q.1) (sym (returned_inj _ _ e))),
  )
  data_at-IsRead fails (x ∷ xs) keys p key v (inl bad) at_p e = cc
  data_at-IsRead fails (x ∷ xs) keys p key v (inr same) at_p e = (
    store key,
    ap (λ q. q.0)
        (returned_inj _ _
          (sym e ∙ ap (λ l. index l p >>= entry_of fails) same ∙ stored_at fails keys p key at_p)),
    inl refl,
  )

  if-IsRead :
      (b : Bool) (status : Status) (keys : List LaserKey) (key : LaserKey)
      (m : Outcome (Option EntryValue × Bool)) (v : Option EntryValue × Bool)
      → nat_beq status status_ok ≡ b
      → (m ≡ returned v → (entry : EntryValue) × (v.0 ≡ some entry) × IsRead (v.1 ≡ true) key entry)
      → (if b then m else returned (some (record { status = status; string_value = "" }), true))
        ≡ returned v
      → (entry : EntryValue) × (v.0 ≡ some entry) × IsRead (v.1 ≡ true) key entry
  if-IsRead true status keys key m v same h e = h e
  if-IsRead false status keys key m v same h e = (
    _,
    ap (λ q. q.0) (sym (returned_inj _ _ e)),
    inr (refl, (λ ok. ground (arith, same, ok)), ap (λ q. q.1) (sym (returned_inj _ _ e))),
  )

  pub detail_at-IsRead :
      (fails : Status → Bool) (r : CallResp) (keys : List LaserKey) (p : ℕ) (key : LaserKey)
      (v : Option EntryValue × Bool)
      → Fits keys r
      → get_elem? keys p ≡ some key
      → detail_at fails r p ≡ returned v
      → (entry : EntryValue) × (v.0 ≡ some entry) × IsRead (v.1 ≡ true) key entry
  unfolding detail_at
  detail_at-IsRead fails r keys p key v fits at_p e =
      if-IsRead (nat_beq r.status status_ok) r.status keys key _ v refl
        (data_at-IsRead fails r.resp.list_value_data keys p key v fits at_p) e

  -- The answers to the groups, one by one.
  abbrev pub From : Groups → List GroupResp → Type 0
  From [] [] = Unit
  From [] (a ∷ answers) = ⊥
  From (g ∷ gs) [] = ⊥
  From ((_, g) ∷ gs) (a ∷ answers) =
      ((a.idxes ≡ indexes g.key_to_index_list) × Fits (keys_of g.key_to_index_list) a.call)
      × From gs answers

  module _ (city : CityHash) (s : Selecting) (n : Network) (client : LaserClient)
      (stored : (address : ServerAddress) (keys : List LaserKey) (ms : ℤ) (w : n.World)
          (resp : LaserResponse)
        → (n.await address (mget_detail keys) ms w).1 ≡ answered resp
        → resp.list_value_data ≡ stored_values store keys) where
    abbrev Sent : List KeyToIndex → Session s.State n.World × GroupResp → Type 0
    Sent list r = (r.1.idxes ≡ indexes list) × Fits (keys_of list) r.1.call

    send_group-Sent :
        (o : ClientOption) (target : Option ServerAddress) (key : String) (g : AddressKeyMap)
        (c : Session s.State n.World)
        → Holds (Sent g.key_to_index_list) (
            send_group city s n client mget_nil
              (λ list. mget_detail (keys_of list))
              o
              target
              (key, g)
              c)
    unfolding send_group
    send_group-Sent o none key g c =
        if-both (Holds (Sent g.key_to_index_list)) (key == nil_address) ((refl, inl refl)) tt
    send_group-Sent o (some address) key g c =
        let keys = keys_of g.key_to_index_list in
        if-both (Holds (Sent g.key_to_index_list)) (key == nil_address) ((refl, inl refl)) (
          >>=-Holds (λ r. Fits keys r.1) (Sent g.key_to_index_list) _ _
            (common_call_with_route_id-Holds city s n (mget_detail keys) (Fits keys)
              (λ status. inl refl) (λ a ms w resp e. inr (stored a keys ms w resp e)) client 0 0
              false _ _ c)
            (λ r fits. (refl, fits)))

    pub send_all-From :
        (o : ClientOption) (copied : List (ℕ × ServerAddress)) (i : ℕ) (groups : Groups)
        (c : Session s.State n.World)
        → Holds
            (λ r. From groups r.1)
            (send_all city s n client mget_nil
              (λ list. mget_detail (keys_of list))
              o
              copied
              i
              groups
              c)
    unfolding send_all
    send_all-From o copied i [] c = tt
    send_all-From o copied i ((key, g) ∷ groups) c =
        >>=-Holds (Sent g.key_to_index_list) _ _ _ (send_group-Sent o (lookup i copied) key g c)
          (λ r sent.
            >>=-Holds (λ q. From groups q.1) _ _ _ (send_all-From o copied (suc i) groups r.0)
              (λ q from. (sent, from)))
