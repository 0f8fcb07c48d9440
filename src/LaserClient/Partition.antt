-- ===== src/LaserClient/Partition.antt =====
-- partition.go and format.go: which partition a key falls in, and which shard a partition.
pub mod Ranges
use laser_db.Base.{
  ℕ, zero, suc, ◌-◌, ◌*◌, ◌%◌, String, List, ◌∷◌, Outcome, returned, panicked, ◌>>=◌, nat_beq, Bool,
  [], if◌then◌else◌, arith, leb, ◌≡◌,
}
use laser_db.Base.Int.{ℤ, pos, negsuc, rem_ℤ, to_u32}
use laser_db.Base.Words.{is_neg64, neg64, u64_mod}
use laser_db.ServiceRouter.RouterDb.{CityHash}
use laser_db.ServiceRouter.Server.{uint32_max}

-- `abs` on the bit pattern of an int64: -1 * v wraps for the least one.
unfoldable pub abs : ℕ → ℕ
unfolding neg64
abs v = if is_neg64 v then neg64 v else v

-- The int64 that a bit pattern stands for.
abbrev pub to_i64 : ℕ → ℤ
to_i64 v = if is_neg64 v then negsuc (u64_mod - 1 - v) else pos v

-- `GetKeyHash`: each key is hashed with the hash before it as the seed.
unfoldable pub key_hash : CityHash → ℕ → List String → ℕ
key_hash city res [] = res
key_hash city res (key ∷ keys) = key_hash city (city key res) keys

unfoldable pub get_key_hash : CityHash → List String → ℕ
unfolding key_hash
get_key_hash city primary_keys = key_hash city 0 primary_keys

-- The hash that `GetPartitionId` takes the remainder of, and `GetPartitionHash`.
unfoldable pub table_hash : CityHash → String → String → ℕ → ℕ
table_hash city db_name table_name seed = city table_name (city db_name seed)

-- `partitionNumber` is an int: a % 0 panics, and a % -n is a % n.
unfoldable pub rem_int : ℤ → ℤ → Outcome ℤ
unfolding rem_ℤ
rem_int a (pos zero) = panicked
rem_int a (pos (suc n)) = returned (rem_ℤ a (suc n))
rem_int a (negsuc n) = returned (rem_ℤ a (suc n))

unfoldable pub get_partition_id : CityHash → String → String → List String → ℤ → Outcome ℕ
unfolding table_hash get_key_hash abs rem_int to_u32
get_partition_id city db_name table_name primary_keys partition_number =
    rem_int (to_i64 (abs (table_hash city db_name table_name (get_key_hash city primary_keys))))
      partition_number
    >>= λ r. returned (to_u32 r)

-- `getShardId`
unfoldable pub get_shard_id : ℕ → ℕ → ℤ
unfolding abs rem_ℤ
get_shard_id partition_hash shard_number =
    if nat_beq shard_number 0
    then pos uint32_max
    else rem_ℤ (to_i64 (abs partition_hash)) shard_number

-- `dbRole` is always the leader, and `shardId` 0.
pub record Partition : Type 0 where
  pub database_name : String
  pub table_name : String
  pub partition_id : ℕ

unfoldable pub get_partition_hash : CityHash → Partition → ℕ
unfolding table_hash
get_partition_hash city p = table_hash city p.database_name p.table_name p.partition_id
