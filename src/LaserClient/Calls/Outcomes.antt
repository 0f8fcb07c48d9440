-- ===== src/LaserClient/Calls/Outcomes.antt =====
-- What holds of an answer of the network and of a failed call holds of what a call returns.
use laser_db.Base.{
  ℕ, zero, suc, String, ◌≡◌, refl, Bool, Option, none, some, Outcome, Holds, >>=-Holds,
  >>=-Holds_any, if-both,
}
use laser_db.Base.Int.{ℤ, pos, pos_part, leb_ℤ}
use laser_db.ServiceRouter.RouterDb.{CityHash}
use laser_db.ServiceRouter.Router.{ClientOption as RouterOption, Selecting}
use laser_db.LaserClient.Thrift.{
  Status, status_ok, client_thrift_call_error, client_thrift_call_timeout, LaserResponse, Request,
  laser_exception, wrapped_exception, other_error,
}
use laser_db.LaserClient.Options.{ServerAddress, ClientOption}
use laser_db.LaserClient.Calls.{
  LaserClient, CallResp, failed, Reply, timed_out, raised, answered, Network, Session,
  parse_exception, Attempt, lost, done, choose_server, handle_reply, call_server, call_found,
  attempt, after_attempt, retry, common_call_with_route_id, with_timeout, get_client_option,
}

module _ (city : CityHash) (s : Selecting) (n : Network) (req : Request) (P : CallResp → Type 0)
    (of_failed : (status : Status) → P (failed status))
    (of_answered : (address : ServerAddress) (ms : ℤ) (w : n.World) (resp : LaserResponse)
      → (n.await address req ms w).1 ≡ answered resp
      → P (record { status = status_ok; resp = resp })) where
  abbrev AttemptHas : Attempt → Type 0
  AttemptHas lost = Unit
  AttemptHas (done r) = P r

  abbrev RunHas : Session s.State n.World × Attempt → Type 0
  RunHas r = AttemptHas r.1

  abbrev pub CallHas : Session s.State n.World × CallResp → Type 0
  CallHas r = P r.1

  handle_reply-Holds :
      (reply : Reply) (c : Session s.State n.World)
      → ((resp : LaserResponse)
          → reply ≡ answered resp
          → P (record { status = status_ok; resp = resp }))
      → Holds RunHas (handle_reply city s n reply c)
  unfolding handle_reply parse_exception
  handle_reply-Holds timed_out c h = tt
  handle_reply-Holds (raised (laser_exception status)) c h = of_failed status
  handle_reply-Holds (raised (wrapped_exception status)) c h = tt
  handle_reply-Holds (raised other_error) c h = of_failed client_thrift_call_error
  handle_reply-Holds (answered resp) c h = h resp refl

  call_found-Holds :
      (o : ClientOption) (r : Session s.State n.World × Option ServerAddress)
      → Holds RunHas (call_found city s n o req r)
  unfolding call_found call_server
  call_found-Holds o (c, none) = of_failed client_thrift_call_error
  call_found-Holds o (c, some address) =
      let (world', connected) = n.get_connection address o c.world in
      if-both (Holds RunHas) connected
        (handle_reply-Holds (n.await address req o.receive_timeout_ms world').1 _
          (of_answered address o.receive_timeout_ms world'))
        (of_failed client_thrift_call_error)

  attempt-Holds :
      (o : ClientOption) (ro : RouterOption) (c : Session s.State n.World)
      → Holds RunHas (attempt city s n o ro req c)
  unfolding attempt
  attempt-Holds o ro c =
      >>=-Holds_any RunHas (choose_server city s n o ro c) (call_found city s n o req)
        (call_found-Holds o)

  after_attempt-Holds :
      (o : ClientOption) (times : ℕ) (again : Outcome (Session s.State n.World × CallResp))
      (r : Session s.State n.World × Attempt)
      → Holds CallHas again
      → RunHas r
      → Holds CallHas (after_attempt city s n o times again r)
  unfolding after_attempt
  after_attempt-Holds o times again (c, done resp) rest h = h
  after_attempt-Holds o times again (c, lost) rest h =
      if-both (Holds CallHas) (leb_ℤ (pos times) o.timeout_retry) rest
        (of_failed client_thrift_call_timeout)

  retry-Holds :
      (o : ClientOption) (ro : RouterOption) (fuel times : ℕ) (c : Session s.State n.World)
      → Holds CallHas (retry city s n fuel o ro req times c)
  unfolding retry
  retry-Holds o ro zero times c = tt
  retry-Holds o ro (suc fuel) times c =
      >>=-Holds RunHas CallHas (attempt city s n o ro req c) _ (attempt-Holds o ro c)
        (λ r. after_attempt-Holds o (suc times) _ r (retry-Holds o ro fuel (suc times) r.0))

  pub common_call_with_route_id-Holds :
      (client : LaserClient) (shard_id partition_hash : ℕ) (edge : Bool) (dc : String)
      (o : ClientOption) (c : Session s.State n.World)
      → Holds CallHas
          (common_call_with_route_id city s n client shard_id partition_hash edge dc o req c)
  unfolding common_call_with_route_id
  common_call_with_route_id-Holds client shard_id partition_hash edge dc o c =
      retry-Holds (with_timeout o) (get_client_option client o shard_id partition_hash edge dc)
        (suc (pos_part o.timeout_retry)) 0 c
