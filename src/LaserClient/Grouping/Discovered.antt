-- ===== src/LaserClient/Grouping/Discovered.antt =====
-- A batch discovery has one entry for each id that was asked for, and no other.
use laser_db.Base.{
  ℕ, ◌≡◌, refl, sym, subst, ◌∙◌, Bool, true, false, Option, none, some, List, [], ◌∷◌, arith,
  if◌then◌else◌, nat_eq, nat_beq,
}
use laser_db.Base.Maps.{has_key, lookup, insert, lookup-insert, Distinct, insert-Distinct}
use laser_db.Base.Maps.Totals.{flag, counted}
use laser_db.ServiceRouter.Server.{Server, ServerList}
use laser_db.ServiceRouter.RouterDb.{CityHash}
use laser_db.ServiceRouter.Router.{
  ClientOption as RouterOption, Balancer, Selecting, Batch, choose, batch_for, batch_one, batch_all,
  batch_discover,
}
use laser_db.LaserClient.Calls.{LaserClient, Network, Session}
use laser_db.LaserClient.Grouping.{discover_batch}

module _ (city : CityHash) (s : Selecting) (balancer : Balancer) where
  -- The result has one more entry.
  abbrev Adds : ℕ → Batch s.State → Batch s.State → Type 0
  Adds id b b' = (v : Option Server) × (b'.result ≡ insert id v b.result)

  choose-Adds :
      (b : Batch s.State) (id : ℕ) (servers : ServerList) (o : Option (Option Server))
      → Adds id b (choose city s balancer b id servers o)
  unfolding choose
  choose-Adds b id servers none = (_, refl)
  choose-Adds b id servers (some choice) = (choice, refl)

  batch_for-Adds :
      (b : Batch s.State) (id : ℕ) (o : Option ServerList)
      → Adds id b (batch_for city s balancer b id o)
  unfolding batch_for
  batch_for-Adds b id none = (none, refl)
  batch_for-Adds b id (some servers) = choose-Adds b id servers _

  batch_one-keys :
      (lists : List (ℕ × ServerList)) (b : Batch s.State) (id j : ℕ)
      → counted (lookup j (batch_one city s balancer lists b id).result)
        ≡ (if nat_beq id j then 1 else counted (lookup j b.result))
  unfolding batch_one
  batch_one-keys lists b id j =
      let (v, e) = batch_for-Adds b id (lookup id lists) in
      rw e (ground (arith, lookup-insert id j v b.result))

  batch_all-keys :
      (lists : List (ℕ × ServerList)) (b : Batch s.State) (ids : List ℕ) (j : ℕ)
      → counted (lookup j (batch_all city s balancer lists b ids).result)
        ≡ (if has_key j ids then 1 else counted (lookup j b.result))
  unfolding batch_all has_key
  batch_all-keys lists b [] j = refl
  batch_all-keys lists b (id ∷ ids) j = ground (
    arith,
    batch_all-keys lists (batch_one city s balancer lists b id) ids j,
    batch_one-keys lists b id j,
  )

  batch_all-Distinct :
      (lists : List (ℕ × ServerList)) (b : Batch s.State) (ids : List ℕ)
      → Distinct b.result
      → Distinct (batch_all city s balancer lists b ids).result
  unfolding batch_all batch_one
  batch_all-Distinct lists b [] d = d
  batch_all-Distinct lists b (id ∷ ids) d =
      let (v, e) = batch_for-Adds b id (lookup id lists) in
      batch_all-Distinct lists (batch_one city s balancer lists b id) ids
        (subst Distinct (sym e) (insert-Distinct id v b.result d))

flag-if : (b : Bool) → (if b then 1 else 0) ≡ flag b
flag-if true = refl
flag-if false = refl

module _ (city : CityHash) (s : Selecting) (n : Network) where
  pub discover_batch-keys :
      (client : LaserClient) (ro : RouterOption) (ids : List ℕ) (c : Session s.State n.World)
      (j : ℕ)
      → counted (lookup j (discover_batch city s n client ro ids c).1) ≡ flag (has_key j ids)
  unfolding discover_batch batch_discover lookup
  discover_batch-keys client ro ids c j =
      batch_all-keys city s _ _ _ ids j ∙ flag-if (has_key j ids)

  pub discover_batch-Distinct :
      (client : LaserClient) (ro : RouterOption) (ids : List ℕ) (c : Session s.State n.World)
      → Distinct (discover_batch city s n client ro ids c).1
  unfolding discover_batch batch_discover
  discover_batch-Distinct client ro ids c = batch_all-Distinct city s _ _ _ ids tt
