-- ===== src/LaserClient/Commands.antt =====
-- laser_client.go, the commands of one key: the options that a command sets, its request, and what
-- it returns. The timers of the commands are left out.
use laser_db.Base.{ℕ, String, Bool, List, map, Outcome}
use laser_db.Base.Int.{ℤ}
use laser_db.ServiceRouter.RouterDb.{CityHash}
use laser_db.ServiceRouter.Router.{Selecting}
use laser_db.LaserClient.Thrift.{
  Status, LaserKey, LaserValue, LaserKv, LaserSetOption, get_int_data, get_string_data,
  get_bool_data, get, ttl, exist, llen, lpop, rpop, hgetall, hkeys, hlen, smembers, delkey, decr,
  incr, append, lpush, rpush, hget, hexists, hdel, sadd, sismember, sremove, expire, expire_at,
  decr_by, incr_by, sset, setx, hset, hmset, hmget, lrange, lindex, zadd, zrange_by_score,
}
use laser_db.LaserClient.Options.{ClientOption}
use laser_db.LaserClient.Calls.{LaserClient, Network, Session}
use laser_db.LaserClient.Routing.{read_from, status_from, leader}

-- A score as a client sees it, a float64 as its bit pattern.
pub record LaserFloatScoreMember : Type 0 where
  pub score : ℕ
  pub member : String

module _ (city : CityHash) (s : Selecting) (n : Network) (client : LaserClient) where
  -- A command that reads a field of the response, and one that returns its status only.
  abbrev Reading : Type 0 → Type 0
  Reading A = Session s.State n.World → Outcome (Session s.State n.World × Status × A)

  abbrev Statusing : Type 0
  Statusing = Session s.State n.World → Outcome (Session s.State n.World × Status)

  unfoldable pub get_sync : ClientOption → LaserKey → Reading String
  unfolding read_from
  get_sync o key = read_from city s n client get_string_data key o (get key)

  unfoldable pub set_sync : ClientOption → LaserKv → Statusing
  unfolding status_from
  set_sync o kv = status_from city s n client kv.key (leader o) (sset kv)

  unfoldable pub append_sync : ClientOption → LaserKey → String → Reading ℤ
  unfolding read_from
  append_sync o key val = read_from city s n client get_int_data key (leader o) (append key val)

  unfoldable pub setx_sync : ClientOption → LaserKv → LaserSetOption → Statusing
  unfolding status_from
  setx_sync o kv set_option = status_from city s n client kv.key (leader o) (setx kv set_option)

  unfoldable pub expire_sync : ClientOption → LaserKey → ℤ → Statusing
  unfolding status_from
  expire_sync o key time = status_from city s n client key (leader o) (expire key time)

  unfoldable pub expire_at_sync : ClientOption → LaserKey → ℤ → Statusing
  unfolding status_from
  expire_at_sync o key time = status_from city s n client key (leader o) (expire_at key time)

  unfoldable pub del_sync : ClientOption → LaserKey → Statusing
  unfolding status_from
  del_sync o key = status_from city s n client key (leader o) (delkey key)

  unfoldable pub hset_sync : ClientOption → LaserKey → String → String → Statusing
  unfolding status_from
  hset_sync o key field value = status_from city s n client key (leader o) (hset key field value)

  unfoldable pub hget_sync : ClientOption → LaserKey → String → Reading String
  unfolding read_from
  hget_sync o key field = read_from city s n client get_string_data key o (hget key field)

  unfoldable pub hget_all_sync : ClientOption → LaserKey → Reading (List (String × String))
  unfolding read_from
  hget_all_sync o key = read_from city s n client (λ p. p.map_string_data) key o (hgetall key)

  unfoldable pub hexists_sync : ClientOption → LaserKey → String → Reading Bool
  unfolding read_from
  hexists_sync o key field = read_from city s n client get_bool_data key o (hexists key field)

  unfoldable pub hkeys_sync : ClientOption → LaserKey → Reading (List String)
  unfolding read_from
  hkeys_sync o key = read_from city s n client (λ p. p.list_string_data) key o (hkeys key)

  unfoldable pub hlen_sync : ClientOption → LaserKey → Reading ℤ
  unfolding read_from
  hlen_sync o key = read_from city s n client get_int_data key o (hlen key)

  unfoldable pub hdel_sync : ClientOption → LaserKey → String → Statusing
  unfolding status_from
  hdel_sync o key field = status_from city s n client key (leader o) (hdel key field)

  unfoldable pub hmset_sync : ClientOption → LaserKey → LaserValue → Statusing
  unfolding status_from
  hmset_sync o key val = status_from city s n client key (leader o) (hmset key val)

  unfoldable pub hmget_sync :
      ClientOption → LaserKey → List String → Reading (List (String × String))
  unfolding read_from
  hmget_sync o key fields =
      read_from city s n client (λ p. p.map_string_data) key o (hmget key fields)

  unfoldable pub ttl_sync : ClientOption → LaserKey → Reading ℤ
  unfolding read_from
  ttl_sync o key = read_from city s n client get_int_data key o (ttl key)

  unfoldable pub lpush_sync : ClientOption → LaserKey → String → Statusing
  unfolding status_from
  lpush_sync o key val = status_from city s n client key (leader o) (lpush key val)

  unfoldable pub lpop_sync : ClientOption → LaserKey → Reading String
  unfolding read_from
  lpop_sync o key = read_from city s n client get_string_data key (leader o) (lpop key)

  unfoldable pub rpush_sync : ClientOption → LaserKey → String → Statusing
  unfolding status_from
  rpush_sync o key val = status_from city s n client key (leader o) (rpush key val)

  unfoldable pub rpop_sync : ClientOption → LaserKey → Reading String
  unfolding read_from
  rpop_sync o key = read_from city s n client get_string_data key (leader o) (rpop key)

  unfoldable pub lrange_sync : ClientOption → LaserKey → ℤ → ℤ → Reading (List String)
  unfolding read_from
  lrange_sync o key start end =
      read_from city s n client (λ p. p.list_string_data) key o (lrange key start end)

  unfoldable pub lindex_sync : ClientOption → LaserKey → ℤ → Reading String
  unfolding read_from
  lindex_sync o key index = read_from city s n client get_string_data key o (lindex key index)

  unfoldable pub llen_sync : ClientOption → LaserKey → Reading ℤ
  unfolding read_from
  llen_sync o key = read_from city s n client get_int_data key o (llen key)

  unfoldable pub decr_sync : ClientOption → LaserKey → Reading ℤ
  unfolding read_from
  decr_sync o key = read_from city s n client get_int_data key (leader o) (decr key)

  unfoldable pub incr_sync : ClientOption → LaserKey → Reading ℤ
  unfolding read_from
  incr_sync o key = read_from city s n client get_int_data key (leader o) (incr key)

  unfoldable pub decrby_sync : ClientOption → LaserKey → ℤ → Reading ℤ
  unfolding read_from
  decrby_sync o key step = read_from city s n client get_int_data key (leader o) (decr_by key step)

  unfoldable pub incrby_sync : ClientOption → LaserKey → ℤ → Reading ℤ
  unfolding read_from
  incrby_sync o key step = read_from city s n client get_int_data key (leader o) (incr_by key step)

  unfoldable pub exist_sync : ClientOption → LaserKey → Reading Bool
  unfolding read_from
  exist_sync o key = read_from city s n client get_bool_data key o (exist key)

  unfoldable pub zadd_sync : ClientOption → LaserKey → List (String × ℕ) → Reading ℤ
  unfolding read_from
  zadd_sync o key member_scores =
      read_from city s n client get_int_data key (leader o) (zadd key member_scores)

  unfoldable pub sadd_sync : ClientOption → LaserKey → String → Statusing
  unfolding status_from
  sadd_sync o key member = status_from city s n client key (leader o) (sadd key member)

  unfoldable pub sismember_sync : ClientOption → LaserKey → String → Statusing
  unfolding status_from
  sismember_sync o key member = status_from city s n client key o (sismember key member)

  unfoldable pub sremove_sync : ClientOption → LaserKey → String → Statusing
  unfolding status_from
  sremove_sync o key member = status_from city s n client key (leader o) (sremove key member)

  unfoldable pub smembers_sync : ClientOption → LaserKey → Reading (List String)
  unfolding read_from
  smembers_sync o key = read_from city s n client (λ p. p.list_string_data) key o (smembers key)

  -- `scaled` is float64(score) / 10000. The read is asked of a leader.
  unfoldable pub zrange_byscore_sync :
      (ℤ → ℕ) → ClientOption → LaserKey → ℕ → ℕ → Reading (List LaserFloatScoreMember)
  unfolding read_from
  zrange_byscore_sync scaled o key min max =
      read_from city s n client
        (λ p.
          map (λ m. record { score = scaled m.score; member = m.member }) p.list_score_member_data)
        key (leader o) (zrange_by_score key min max)
