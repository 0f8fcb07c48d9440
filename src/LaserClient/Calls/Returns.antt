-- ===== src/LaserClient/Calls/Returns.antt =====
-- How long a call of a server can go on.
use laser_db.Base.{
  ℕ, zero, suc, String, ◌+◌, ◌≤◌, ◌<◌, ◌≡◌, refl, Bool, Option, none, some, List, [], ◌∷◌, Outcome,
  returned, panicked, running, ◌>>=◌, arith,
}
use laser_db.Base.Int.{ℤ, pos_part}
use laser_db.ServiceRouter.RouterDb.{CityHash}
use laser_db.ServiceRouter.Router.{ClientOption as RouterOption, Selecting}
use laser_db.LaserClient.Thrift.{Request, laser_exception, wrapped_exception, other_error}
use laser_db.LaserClient.Options.{ServerAddress, ClientOption}
use laser_db.LaserClient.Calls.{
  LaserClient, Meter, call_server_times, rs_not_found_meter, rs_key_expire_meter, call_timeout,
  call_error, get_status_error, get_connection_error, Reply, timed_out, raised, answered, Network,
  Session, mark_status, parse_exception, discover_once, get_conn, choose_server, handle_reply,
  call_server, call_found, attempt, after_attempt, retry, common_call_with_route_id, with_timeout,
  get_client_option,
}

-- The calls of servers among the marks.
abbrev pub calls_made : List Meter → ℕ
calls_made [] = 0
calls_made (call_server_times ∷ ms) = suc (calls_made ms)
calls_made (rs_not_found_meter ∷ ms) = calls_made ms
calls_made (rs_key_expire_meter ∷ ms) = calls_made ms
calls_made (call_timeout ∷ ms) = calls_made ms
calls_made (call_error ∷ ms) = calls_made ms
calls_made (get_status_error ∷ ms) = calls_made ms
calls_made (get_connection_error ∷ ms) = calls_made ms

module _ (city : CityHash) (s : Selecting) (n : Network) where
  -- It returns, after at most k calls.
  abbrev pub Returns :
      {A : Type 0} → Outcome (Session s.State n.World × A) → ℕ → Session s.State n.World → Type 0
  Returns (returned r) k c = calls_made r.0.marks ≤ k + calls_made c.marks
  Returns panicked k c = ⊥
  Returns running k c = ⊥

  discover_once-marks :
      (ro : RouterOption) (c : Session s.State n.World)
      → (discover_once city s n ro c).0.marks ≡ c.marks
  unfolding discover_once
  discover_once-marks ro c = refl

  get_conn-Returns :
      (o : ClientOption) (ro : RouterOption) (fuel times : ℕ) (c : Session s.State n.World)
      → times ≤ pos_part o.connection_retry
      → pos_part o.connection_retry < fuel + times
      → Returns (get_conn city s n fuel o ro times c) 0 c
  unfolding get_conn
  get_conn-Returns o ro zero times c h h' = ground arith
  get_conn-Returns o ro (suc fuel) times c h h' =
      let (c', server) = discover_once city s n ro c in
      ground (
        arith,
        discover_once-marks ro c,
        get_conn-Returns o ro fuel (suc times) (record c' { world = n.later c'.world }),
      )

  choose_server-Returns :
      (o : ClientOption) (ro : RouterOption) (c : Session s.State n.World)
      → Returns (choose_server city s n o ro c) 0 c
  unfolding choose_server
  choose_server-Returns o ro c = ground (
    arith,
    get_conn-Returns o ro (suc (pos_part o.connection_retry)) 0 c (omega arith) (omega arith),
  )

  -- The reply is no error that wraps a LaserException.
  abbrev pub IsUnwrapped : Reply → Type 0
  IsUnwrapped timed_out = Unit
  IsUnwrapped (raised (laser_exception status)) = Unit
  IsUnwrapped (raised (wrapped_exception status)) = ⊥
  IsUnwrapped (raised other_error) = Unit
  IsUnwrapped (answered resp) = Unit

  handle_reply-Returns :
      (reply : Reply) (c : Session s.State n.World)
      → IsUnwrapped reply
      → Returns (handle_reply city s n reply c) 0 c
  unfolding handle_reply parse_exception mark_status
  handle_reply-Returns timed_out c h = omega arith
  handle_reply-Returns (raised (laser_exception status)) c h = ground arith
  handle_reply-Returns (raised (wrapped_exception status)) c h = elim h [ ]
  handle_reply-Returns (raised other_error) c h = ground arith
  handle_reply-Returns (answered resp) c h = omega arith

  Returns-trans :
      {B : Type 0} (m : Outcome (Session s.State n.World × B)) (k l t : ℕ)
      (c' c : Session s.State n.World)
      → k + l ≤ t
      → calls_made c'.marks ≤ k + calls_made c.marks
      → Returns m l c'
      → Returns m t c
  Returns-trans (returned r) k l t c' c le h h' = omega arith
  Returns-trans panicked k l t c' c le h h' = elim h' [ ]
  Returns-trans running k l t c' c le h h' = elim h' [ ]

  >>=-Returns :
      {A B : Type 0} (m : Outcome (Session s.State n.World × A))
      (f : Session s.State n.World × A → Outcome (Session s.State n.World × B)) (k l t : ℕ)
      (c : Session s.State n.World)
      → k + l ≤ t
      → Returns m k c
      → ((r : Session s.State n.World × A) → Returns (f r) l r.0)
      → Returns (m >>= f) t c
  >>=-Returns (returned r) f k l t c le h h' = Returns-trans (f r) k l t r.0 c le h (h' r)
  >>=-Returns panicked f k l t c le h h' = elim h [ ]
  >>=-Returns running f k l t c le h h' = elim h [ ]

  module _
      (unwrapped : (address : ServerAddress) (req : Request) (ms : ℤ) (w : n.World)
        → IsUnwrapped (n.await address req ms w).1) where
    call_server-Returns :
        (o : ClientOption) (req : Request) (address : ServerAddress) (c : Session s.State n.World)
        → Returns (call_server city s n o req address c) 1 c
    unfolding call_server
    call_server-Returns o req address c =
        let (world', connected) = n.get_connection address o c.world in
        let (world'', reply) = n.await address req o.receive_timeout_ms world' in
        ground (
          arith,
          handle_reply-Returns reply
              (record c { world = world''; marks = call_server_times ∷ c.marks })
              (unwrapped address req o.receive_timeout_ms world'),
        )

    call_found-Returns :
        (o : ClientOption) (req : Request) (r : Session s.State n.World × Option ServerAddress)
        → Returns (call_found city s n o req r) 1 r.0
    unfolding call_found
    call_found-Returns o req (c, none) = omega arith
    call_found-Returns o req (c, some address) = call_server-Returns o req address c

    attempt-Returns :
        (o : ClientOption) (ro : RouterOption) (req : Request) (c : Session s.State n.World)
        → Returns (attempt city s n o ro req c) 1 c
    unfolding attempt
    attempt-Returns o ro req c =
        >>=-Returns (choose_server city s n o ro c) (call_found city s n o req) 0 1 1 c
          (omega arith) (choose_server-Returns o ro c) (call_found-Returns o req)

    retry-Returns :
        (o : ClientOption) (ro : RouterOption) (req : Request) (fuel times : ℕ)
        (c : Session s.State n.World)
        → times ≤ pos_part o.timeout_retry
        → pos_part o.timeout_retry < fuel + times
        → Returns (retry city s n fuel o ro req times c) fuel c
    unfolding retry after_attempt
    retry-Returns o ro req zero times c h h' = ground arith
    retry-Returns o ro req (suc fuel) times c h h' =
        >>=-Returns (attempt city s n o ro req c) _ 1 fuel (suc fuel) c (omega arith)
          (attempt-Returns o ro req c)
          (λ r. ground (arith, retry-Returns o ro req fuel (suc times) r.0))

    -- Where no answer of the network wraps a LaserException in another error, a call of a server
    -- returns, whatever is found and however often it times out, and it has then called a server
    -- at most TimeoutRetry + 1 times, once where TimeoutRetry is negative.
    pub common_call_with_route_id-Returns :
        (client : LaserClient) (shard_id partition_hash : ℕ) (edge : Bool) (dc : String)
        (o : ClientOption) (req : Request) (c : Session s.State n.World)
        → Returns
            (common_call_with_route_id city s n client shard_id partition_hash edge dc o req c)
            (suc (pos_part o.timeout_retry))
            c
    unfolding common_call_with_route_id with_timeout
    common_call_with_route_id-Returns client shard_id partition_hash edge dc o req c =
        retry-Returns (with_timeout o) (get_client_option client o shard_id partition_hash edge dc)
          req (suc (pos_part o.timeout_retry)) 0 c (omega arith) (ground arith)
