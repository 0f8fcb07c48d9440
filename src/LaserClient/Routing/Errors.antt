-- ===== src/LaserClient/Routing/Errors.antt =====
-- What a command of one key returns when its call failed.
use laser_db.Base.{
  ◌≡◌, ◌≢◌, ◌⊎◌, ap, inl, inr, returned, Holds, returned-Holds, >>=-Holds, >>=-Holds_any, refl,
}
use laser_db.ServiceRouter.RouterDb.{CityHash}
use laser_db.ServiceRouter.Router.{Selecting}
use laser_db.LaserClient.Thrift.{
  Status, status_ok, LaserKey, LaserResponse, empty_response, Request,
}
use laser_db.LaserClient.Options.{ClientOption}
use laser_db.LaserClient.Calls.{LaserClient, CallResp, Network, Session}
use laser_db.LaserClient.Calls.Outcomes.{common_call_with_route_id-Holds}
use laser_db.LaserClient.Routing.{get_route_info, common_call, read_from}

-- The status is OK, or the response has no data.
abbrev IsClean : CallResp → Type 0
IsClean r = (r.status ≡ status_ok) ⊎ (r.resp ≡ empty_response)

module _ (city : CityHash) (s : Selecting) (n : Network) (client : LaserClient) where
  abbrev CleanCall : Session s.State n.World × CallResp → Type 0
  CleanCall r = IsClean r.1

  common_call-IsClean :
      (key : LaserKey) (o : ClientOption) (req : Request) (c : Session s.State n.World)
      → Holds CleanCall (common_call city s n client key o req c)
  unfolding common_call
  common_call-IsClean key o req c =
      >>=-Holds_any CleanCall (get_route_info city s n client key o.read_mode c) _ (λ r.
        common_call_with_route_id-Holds city s n req IsClean (λ status. inr refl)
          (λ address ms w resp e. inl refl) client r.1.shard_id r.1.partition_hash
          r.1.route_to_edge_node r.1.dc o r.0)

  abbrev CleanData :
      {A : Type 0} → (LaserResponse → A) → Session s.State n.World × Status × A → Type 0
  CleanData get_data r = (r.1 ≡ status_ok) ⊎ (r.2 ≡ get_data empty_response)

  IsClean-data :
      {A : Type 0} (get_data : LaserResponse → A) (r : CallResp)
      → IsClean r
      → (r.status ≡ status_ok) ⊎ (get_data r.resp ≡ get_data empty_response)
  IsClean-data get_data r (inl e) = inl e
  IsClean-data get_data r (inr e) = inr (ap get_data e)

  not_ok :
      {A : Type 0} (status : Status) (a b : A)
      → (status ≡ status_ok) ⊎ (a ≡ b)
      → status ≢ status_ok
      → a ≡ b
  not_ok status a b (inl e) failed = absurd (failed e)
  not_ok status a b (inr e) failed = e

  -- Every command that reads a field of the response (the commands are `read_from` at their field,
  -- key, options and request) and returns a status other than OK, whether no server was found, no
  -- connection was made, the call timed out or the server raised an exception, returns what it
  -- reads in an empty response.
  pub read_from-failed :
      {A : Type 0} (get_data : LaserResponse → A) (key : LaserKey) (o : ClientOption)
      (req : Request) (c c' : Session s.State n.World) (status : Status) (a : A)
      → read_from city s n client get_data key o req c ≡ returned (c', status, a)
      → status ≢ status_ok
      → a ≡ get_data empty_response
  unfolding read_from
  read_from-failed get_data key o req c c' status a e failed =
      not_ok status a (get_data empty_response)
        (returned-Holds (CleanData get_data) (read_from city s n client get_data key o req c) _ e (
          >>=-Holds CleanCall (CleanData get_data) (common_call city s n client key o req c) _
            (common_call-IsClean key o req c) (λ r. IsClean-data get_data r.1)))
        failed
