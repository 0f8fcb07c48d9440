-- ===== src/LaserClient/Thrift.antt =====
-- The generated types of if/laser/ttypes.go that laser_client.go reads, and the requests of the
-- thrift service, one constructor for each method of it that the client calls. A Status is an
-- int64, an enumeration only by its constants.
use laser_db.Base.{ℕ, String, Bool, false, Option, none, some, List, []}
use laser_db.Base.Int.{ℤ, pos}

abbrev pub Status : Type 0
Status = ℕ

abbrev pub status_ok : Status
status_ok = 0

abbrev pub rs_not_found : Status
rs_not_found = 1

abbrev pub rs_error : Status
rs_error = 15

abbrev pub rs_key_expire : Status
rs_key_expire = 18

abbrev pub rs_part_failed : Status
rs_part_failed = 20

abbrev pub client_thrift_call_error : Status
client_thrift_call_error = 200

abbrev pub client_thrift_call_timeout : Status
client_thrift_call_timeout = 203

pub record LaserKey : Type 0 where
  pub database_name : String
  pub table_name : String
  pub primary_keys : List String
  pub column_keys : List String

pub record EntryValue : Type 0 where
  pub status : Status
  pub string_value : String

-- `none` for a field that is not set.
pub record LaserValue : Type 0 where
  pub string_value : Option String
  pub map_value : Option (List (String × String))
  pub null_value : Option Bool
  pub member_score_value : Option (List (String × ℤ))
  pub entry_value : Option EntryValue

abbrev pub zero_laser_value : LaserValue
zero_laser_value = record {
  string_value = none;
  map_value = none;
  null_value = none;
  member_score_value = none;
  entry_value = none;
}

pub record LaserKv : Type 0 where
  pub key : LaserKey
  pub value : Option LaserValue

pub record LaserSetOption : Type 0 where
  pub not_exists : Bool
  pub ttl : ℤ

pub record LaserScoreMember : Type 0 where
  pub score : ℤ
  pub member : String

-- A list or a map that is not set is empty.
pub record LaserResponse : Type 0 where
  pub int_data : Option ℤ
  pub string_data : Option String
  pub list_int_data : List ℤ
  pub list_string_data : List String
  pub list_value_data : List LaserValue
  pub map_string_data : List (String × String)
  pub bool_data : Option Bool
  pub list_score_member_data : List LaserScoreMember

-- `&laser.LaserResponse{}`
abbrev pub empty_response : LaserResponse
empty_response = record {
  int_data = none;
  string_data = none;
  list_int_data = [];
  list_string_data = [];
  list_value_data = [];
  map_string_data = [];
  bool_data = none;
  list_score_member_data = [];
}

abbrev pub get_int_data : LaserResponse → ℤ
get_int_data p = elim p.int_data [ none ↦ pos 0 | some i ↦ i ]

abbrev pub get_string_data : LaserResponse → String
get_string_data p = elim p.string_data [ none ↦ "" | some text ↦ text ]

abbrev pub get_bool_data : LaserResponse → Bool
get_bool_data p = elim p.bool_data [ none ↦ false | some b ↦ b ]

-- A float64 is its bit pattern.
pub data Request : Type 0 where
  get ttl exist llen lpop rpop hgetall hkeys hlen smembers delkey decr incr : LaserKey → Request
  append lpush rpush hget hexists hdel sadd sismember sremove : LaserKey → String → Request
  expire expire_at decr_by incr_by : LaserKey → ℤ → Request
  sset : LaserKv → Request
  setx : LaserKv → LaserSetOption → Request
  hset : LaserKey → String → String → Request
  hmset : LaserKey → LaserValue → Request
  hmget : LaserKey → List String → Request
  lrange : LaserKey → ℤ → ℤ → Request
  lindex : LaserKey → ℤ → Request
  zadd : LaserKey → List (String × ℕ) → Request
  zrange_by_score : LaserKey → ℕ → ℕ → Request
  mget mget_detail : List LaserKey → Request
  mset : List LaserKv → Request
  mset_detail : List LaserKv → LaserSetOption → Request

-- The error of a thrift call: a LaserException itself, an error that wraps one, or another one.
pub data CallError : Type 0 where
  laser_exception wrapped_exception : Status → CallError
  other_error : CallError
