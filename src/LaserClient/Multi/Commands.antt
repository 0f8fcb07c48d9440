-- ===== src/LaserClient/Multi/Commands.antt =====
-- laser_client.go, the four commands of many keys: `MsetSync`, `MsetDetailSync`, `MgetDetailSync` and
-- `MgetSync`, with their process functions.
use laser_db.Base.{
  ℕ, Bool, true, false, not, ◌&&◌, Option, none, some, List, [], ◌∷◌, map, length, Outcome,
  returned, panicked, ◌>>=◌, index, if◌then◌else◌, nat_beq,
}
use laser_db.Base.Int.{negsuc, beq_ℤ}
use laser_db.ServiceRouter.RouterDb.{CityHash}
use laser_db.ServiceRouter.Router.{Selecting}
use laser_db.LaserClient.Thrift.{
  Status, status_ok, rs_not_found, rs_error, rs_key_expire, rs_part_failed,
  client_thrift_call_error, LaserKey, EntryValue, LaserValue, zero_laser_value, LaserKv,
  LaserSetOption, empty_response, mget, mget_detail, mset, mset_detail,
}
use laser_db.LaserClient.Options.{ClientOption}
use laser_db.LaserClient.Calls.{LaserClient, CallResp, failed, Network, Session}
use laser_db.LaserClient.Routing.{leader}
use laser_db.LaserClient.Grouping.{KeyToIndex}
use laser_db.LaserClient.Multi.{replicate, Move, GroupResp, call_groups, fill, fill_all}

-- What `mset` answers for keys without a server: the status is the zero value, which is OK.
unfoldable pub mset_nil : ℕ → CallResp
unfolding replicate
mset_nil length = record {
  status = status_ok;
  resp = record empty_response { list_int_data = replicate length (negsuc 0) };
}

abbrev pub mget_nil : ℕ → CallResp
mget_nil length = failed client_thrift_call_error

-- `*keys[idx]` of the request of a group.
abbrev pub keys_of : List KeyToIndex → List LaserKey
keys_of list = map (λ k. k.kv.key) list

abbrev pub values_of : List KeyToIndex → List LaserKv
values_of list = map (λ k. k.kv) list

-- The process function of `MsetSync`, at one place of an answer.
unfoldable pub mset_at : CallResp → ℕ → Outcome (Status × Bool)
unfolding index
mset_at r i =
    if nat_beq r.status status_ok
    then (index r.resp.list_int_data i >>= λ res.
        returned (if beq_ℤ res (negsuc 0) then client_thrift_call_error else status_ok, false))
    else returned (r.status, false)

-- Those of the two commands with details, with the test for a status that counts as failed: an
-- answer without an entry is a nil pointer.
unfoldable pub entry_of : (Status → Bool) → LaserValue → Outcome (Option EntryValue × Bool)
entry_of fails v = elim v.entry_value [
  | none ↦ panicked
  | some entry ↦ returned (some entry, fails entry.status)
]

unfoldable pub data_at : (Status → Bool) → List LaserValue → ℕ → Outcome (Option EntryValue × Bool)
unfolding index entry_of
data_at fails [] i = returned (some (record { status = rs_error; string_value = "" }), true)
data_at fails (v ∷ vs) i = index (v ∷ vs) i >>= entry_of fails

unfoldable pub detail_at : (Status → Bool) → CallResp → ℕ → Outcome (Option EntryValue × Bool)
detail_at fails r i =
    if nat_beq r.status status_ok
    then data_at fails r.resp.list_value_data i
    else returned (some (record { status = r.status; string_value = "" }), true)

abbrev pub mset_detail_fails : Status → Bool
mset_detail_fails status = not (nat_beq status status_ok) && not (nat_beq status rs_key_expire)

abbrev pub mget_detail_fails : Status → Bool
mget_detail_fails status =
    not (nat_beq status status_ok)
    && (not (nat_beq status rs_not_found) && not (nat_beq status rs_key_expire))

-- The status of a command with details, from the number of keys that failed.
unfoldable pub detail_status : ℕ → ℕ → Status
detail_status nfailed len =
    if nat_beq nfailed len
    then rs_error
    else if nat_beq nfailed 0
    then status_ok
    else rs_part_failed

-- The process function of `MgetSync`: an answer that failed leaves its keys at their zero values.
unfoldable pub mget_at : CallResp → ℕ → Outcome (LaserValue × Bool)
unfolding index
mget_at r i = index r.resp.list_value_data i >>= λ v. returned (v, false)

unfoldable pub mget_fill :
    List GroupResp → Status × List LaserValue → Outcome (Status × List LaserValue)
unfolding mget_at fill
mget_fill [] st = returned st
mget_fill (g ∷ gs) (status, result) =
    if nat_beq g.call.status status_ok
    then (fill mget_at g.call 0 g.idxes (0, result) >>= λ st'. mget_fill gs (status, st'.1))
    else mget_fill gs (g.call.status, result)

-- The keys as `mget` passes them to `group`.
abbrev pub as_kvs : List LaserKey → List LaserKv
as_kvs keys = map (λ key. record { key = key; value = none }) keys

module _ (city : CityHash) (s : Selecting) (n : Network) (client : LaserClient)
    (moves : List Move) where
  unfoldable pub mset_sync :
      ClientOption
      → List LaserKv
      → Session s.State n.World
      → Outcome (Session s.State n.World × List Status)
  mset_sync o [] c = returned (c, [])
  mset_sync o (kv ∷ kvs) c =
      call_groups city s n client mset_nil (λ list. mset (values_of list)) moves (leader o)
        (kv ∷ kvs) c
      >>= λ r. fill_all mset_at r.1 (0, replicate (length (kv ∷ kvs)) status_ok) >>= λ st.
          returned (r.0, st.1)

  unfoldable pub mset_detail_sync :
      ClientOption
      → LaserSetOption
      → List LaserKv
      → Session s.State n.World
      → Outcome (Session s.State n.World × Status × List (Option EntryValue))
  unfolding detail_status
  mset_detail_sync o set_option [] c = returned (c, rs_error, [])
  mset_detail_sync o set_option (kv ∷ kvs) c =
      call_groups city s n client mset_nil (λ list. mset_detail (values_of list) set_option) moves
        (leader o) (kv ∷ kvs) c
      >>= λ r.
          fill_all (detail_at mset_detail_fails) r.1 (0, replicate (length (kv ∷ kvs)) none)
          >>= λ st. returned (r.0, detail_status st.0 (length (kv ∷ kvs)), st.1)

  unfoldable pub mget_detail_sync :
      ClientOption
      → List LaserKey
      → Session s.State n.World
      → Outcome (Session s.State n.World × Status × List (Option EntryValue))
  unfolding detail_status
  mget_detail_sync o keys c =
      call_groups city s n client mget_nil (λ list. mget_detail (keys_of list)) moves o
        (as_kvs keys) c
      >>= λ r.
          fill_all (detail_at mget_detail_fails) r.1 (0, replicate (length keys) none) >>= λ st.
          returned (r.0, detail_status st.0 (length keys), st.1)

  unfoldable pub mget_sync :
      ClientOption
      → List LaserKey
      → Session s.State n.World
      → Outcome (Session s.State n.World × Status × List LaserValue)
  mget_sync o keys c =
      call_groups city s n client mget_nil (λ list. mget (keys_of list)) moves o (as_kvs keys) c
      >>= λ r. mget_fill r.1 (status_ok, replicate (length keys) zero_laser_value) >>= λ st.
          returned (r.0, st.0, st.1)
