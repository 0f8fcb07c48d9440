-- ===== src/ServiceRouter/Router/Choices.antt =====
-- Which servers calls get: one balancer for each option, and one choice for each list in a batch.
use laser_db.Base.{
  ℕ, ◌≡◌, refl, sym, ap, subst, ◌∙◌, ◌≢◌, Option, none, some, List, [], ◌∷◌, Memᴰ, arith,
  nat_beq_iff, nat_eq, string_eq,
}
use native.Mathlib.Decide.{ℕ_discrete}
use laser_db.Base.Maps.{lookup, lookup-insert}
use laser_db.ServiceRouter.Server.{Server, ServerList}
use laser_db.ServiceRouter.RouterDb.{CityHash}
use laser_db.ServiceRouter.Router.{
  ClientOption, Balancer, Selecting, Batch, balance_id, chosen_method, make_balancer,
  get_or_create_balancer, batch_one, choose, batch_for, batch_all, get_server_list_hash,
}

-- A second call with the same options gets the balancer of the first, and adds none.
pub get_or_create_balancer_again :
    (city : CityHash) (balancers : List (ℕ × Balancer)) (o : ClientOption)
    → get_or_create_balancer city (get_or_create_balancer city balancers o).0 o
      ≡ get_or_create_balancer city balancers o
unfolding get_or_create_balancer
get_or_create_balancer_again city balancers o = ground (
  arith,
  nat_beq_iff (balance_id city o) (balance_id city o),
  lookup-insert (balance_id city o) (balance_id city o) (make_balancer o (chosen_method o))
      balancers,
)

module _ (city : CityHash) (s : Selecting) (balancer : Balancer) where
  abbrev hash_of : ServerList → ℕ
  hash_of servers = get_server_list_hash city 0 servers

  -- An id that has been handled: nil if it has no servers, else the choice for its servers' hash.
  abbrev pub Settled : Batch s.State → ℕ → Option ServerList → Type 0
  Settled b id none = lookup id b.result ≡ some none
  Settled b id (some servers) =
      (choice : Option Server) × (lookup (hash_of servers) b.selected ≡ some choice)
      × (lookup id b.result ≡ some choice)

  choose_self :
      (b : Batch s.State) (id : ℕ) (servers : ServerList) (o : Option (Option Server))
      → lookup (hash_of servers) b.selected ≡ o
      → Settled (choose city s balancer b id servers o) id (some servers)
  unfolding choose
  choose_self b id servers none e =
      let choice = (s.select balancer b.state servers).1 in
      (
        choice,
        ground (
          arith,
          lookup-insert (hash_of servers) (hash_of servers) choice b.selected,
          nat_beq_iff (hash_of servers) (hash_of servers),
        ),
        ground (arith, lookup-insert id id choice b.result, nat_beq_iff id id),
      )
  choose_self b id servers (some choice) e =
      (choice, e, ground (arith, lookup-insert id id choice b.result, nat_beq_iff id id))

  choose_keeps :
      (b : Batch s.State) (id : ℕ) (servers : ServerList) (o : Option (Option Server)) (hash : ℕ)
      (choice : Option Server)
      → lookup (hash_of servers) b.selected ≡ o
      → lookup hash b.selected ≡ some choice
      → lookup hash (choose city s balancer b id servers o).selected ≡ some choice
  unfolding choose
  choose_keeps b id servers none hash choice e h = ground (
    arith,
    e,
    h,
    nat_beq_iff (hash_of servers) hash,
    lookup-insert (hash_of servers) hash (s.select balancer b.state servers).1 b.selected,
  )
  choose_keeps b id servers (some old) hash choice e h = h

  choose_other :
      (b : Batch s.State) (id : ℕ) (servers : ServerList) (o : Option (Option Server)) (other : ℕ)
      → id ≢ other
      → lookup other (choose city s balancer b id servers o).result ≡ lookup other b.result
  unfolding choose
  choose_other b id servers none other ne = ground (
    arith,
    nat_beq_iff id other,
    lookup-insert id other (s.select balancer b.state servers).1 b.result,
  )
  choose_other b id servers (some old) other ne =
      ground (arith, nat_beq_iff id other, lookup-insert id other old b.result)

  batch_for_self :
      (b : Batch s.State) (id : ℕ) (o : Option ServerList)
      → Settled (batch_for city s balancer b id o) id o
  unfolding batch_for
  batch_for_self b id none = ground (arith, lookup-insert id id none b.result, nat_beq_iff id id)
  batch_for_self b id (some servers) = choose_self b id servers _ refl

  batch_for_other :
      (b : Batch s.State) (id other : ℕ) (o p : Option ServerList)
      → id ≢ other
      → Settled b other p
      → Settled (batch_for city s balancer b id o) other p
  unfolding batch_for
  batch_for_other b id other none none ne h =
      ground (arith, h, nat_beq_iff id other, lookup-insert id other none b.result)
  batch_for_other b id other none (some servers) ne (choice, e, f) =
      (choice, e, ground (arith, f, nat_beq_iff id other, lookup-insert id other none b.result))
  batch_for_other b id other (some servers) none ne h = choose_other b id servers _ other ne ∙ h
  batch_for_other b id other (some servers) (some others) ne (choice, e, f) = (
    choice,
    choose_keeps b id servers _ (hash_of others) choice refl e,
    choose_other b id servers _ other ne ∙ f,
  )

  module _ (lists : List (ℕ × ServerList)) where
    batch_one_keeps :
        (b : Batch s.State) (id other : ℕ)
        → Settled b other (lookup other lists)
        → Settled (batch_one city s balancer lists b id) other (lookup other lists)
    unfolding batch_one
    batch_one_keeps b id other h = elim (ℕ_discrete id other) [
      | yes e ↦
          subst (λ k. Settled (batch_for city s balancer b id (lookup id lists)) k (lookup k lists))
            e (batch_for_self b id (lookup id lists))
      | no ne ↦ batch_for_other b id other (lookup id lists) (lookup other lists) ne h
    ]

    batch_all_keeps :
        (b : Batch s.State) (ids : List ℕ) (other : ℕ)
        → Settled b other (lookup other lists)
        → Settled (batch_all city s balancer lists b ids) other (lookup other lists)
    unfolding batch_all
    batch_all_keeps b [] other h = h
    batch_all_keeps b (id ∷ ids) other h =
        batch_all_keeps (batch_one city s balancer lists b id) ids other
          (batch_one_keeps b id other h)

    batch_all-Settled :
        (b : Batch s.State) (ids : List ℕ) (id : ℕ)
        → Memᴰ id ids
        → Settled (batch_all city s balancer lists b ids) id (lookup id lists)
    unfolding batch_all batch_one
    batch_all-Settled b [] id m = elim m [ ]
    batch_all-Settled b (k ∷ ids) id (Memᴰ.head e) =
        batch_all_keeps (batch_one city s balancer lists b k) ids id (
          subst (λ j. Settled (batch_one city s balancer lists b k) j (lookup j lists)) (sym e)
            (batch_for_self b k (lookup k lists)))
    batch_all-Settled b (k ∷ ids) id (Memᴰ.tail m) =
        batch_all-Settled (batch_one city s balancer lists b k) ids id m

    same_choice :
        (b : Batch s.State) (i j : ℕ) (servers others : ServerList)
        → hash_of servers ≡ hash_of others
        → Settled b i (some servers)
        → Settled b j (some others)
        → lookup i b.result ≡ lookup j b.result
    same_choice b i j servers others same (c, e, f) (d, g, h) =
        f ∙ sym e ∙ ap (λ k. lookup k b.selected) same ∙ g ∙ sym h

    -- In a batch, two router ids whose lists of servers have the same hash get the same server,
    -- however many ids there are and however the balancer's state changes.
    pub batch_all_same :
        (b : Batch s.State) (ids : List ℕ) (i j : ℕ) (servers others : ServerList)
        → Memᴰ i ids
        → Memᴰ j ids
        → lookup i lists ≡ some servers
        → lookup j lists ≡ some others
        → get_server_list_hash city 0 servers ≡ get_server_list_hash city 0 others
        → lookup i (batch_all city s balancer lists b ids).result
          ≡ lookup j (batch_all city s balancer lists b ids).result
    batch_all_same b ids i j servers others mi mj si sj same =
        same_choice (batch_all city s balancer lists b ids) i j servers others same
          (subst (Settled (batch_all city s balancer lists b ids) i) si
            (batch_all-Settled b ids i mi))
          (subst (Settled (batch_all city s balancer lists b ids) j) sj
            (batch_all-Settled b ids j mj))
