-- ===== src/LaserClient/Partition/Ranges.antt =====
-- The numbers of partitions and shards: where they lie, and the one hash for which they do not.
use laser_db.Base.{
  ℕ, zero, suc, ◌-◌, ◌%◌, ◌^◌, ◌≤◌, ◌<◌, String, ◌≡◌, ap, ◌∙◌, ◌≢◌, List, arith, returned, ◌>>=◌,
  leb, nat_beq, if◌then◌else◌, nat_eq, string_eq,
}
use laser_db.Base.Int.{pos, negsuc, rem_ℤ, to_u32}
use laser_db.Base.Words.{neg64}
use native.Mathlib.Nat.{mod-lt}
use laser_db.ServiceRouter.RouterDb.{CityHash}
use laser_db.ServiceRouter.Server.{uint32_max}
use laser_db.LaserClient.Partition.{
  abs, to_i64, get_shard_id, get_partition_id, table_hash, get_key_hash, rem_int,
}

-- The absolute value of an int64 as a number.
abbrev pub magnitude : ℕ → ℕ
magnitude v = if leb (2 ^ 63) v then 2 ^ 64 - v else v

-- The shard of a partition, branch by branch.
pub get_shard_id_cases :
    (hash shard_number : ℕ)
    → hash < 2 ^ 64
    → get_shard_id hash shard_number ≡ (
        if nat_beq shard_number 0
        then pos uint32_max
        else if nat_beq hash (2 ^ 63)
        then rem_ℤ (negsuc (2 ^ 63 - 1)) shard_number
        else pos (magnitude hash % shard_number))
unfolding get_shard_id abs neg64 rem_ℤ
get_shard_id_cases hash shard_number h = ground arith

-- For every hash but the least int64, the shard is below the number of shards if there are any.
pub get_shard_id_bounds :
    (hash shard_number : ℕ)
    → hash < 2 ^ 64
    → hash ≢ 2 ^ 63
    → 0 < shard_number
    → (r : ℕ) × (get_shard_id hash shard_number ≡ pos r) × (r < shard_number)
get_shard_id_bounds hash shard_number h least some_shard = (
  magnitude hash % shard_number,
  ground (arith, get_shard_id_cases hash shard_number h),
  mod-lt (magnitude hash) some_shard,
)

to_i64-abs : (k : ℕ) → k < 2 ^ 64 → k ≢ 2 ^ 63 → to_i64 (abs k) ≡ pos (magnitude k)
unfolding abs neg64
to_i64-abs k h least = ground arith

rem_int_small :
    (m n : ℕ)
    → 0 < n
    → n ≤ 2 ^ 32
    → (rem_int (pos m) (pos n) >>= λ r. returned (to_u32 r)) ≡ returned (m % n)
unfolding rem_int rem_ℤ to_u32
rem_int_small m zero p fits = elim p [ ]
rem_int_small m (suc n) p fits =
    let below : m % suc n < suc n = mod-lt m p in ap returned (omega arith)

-- With a positive number of partitions that fits a uint32, unless the hash of the key is the least
-- int64: `GetPartitionId` does not panic, and its result is below that number.
pub get_partition_id_bounds :
    (city : CityHash) (db_name table_name : String) (keys : List String) (n : ℕ)
    → table_hash city db_name table_name (get_key_hash city keys) < 2 ^ 64
    → table_hash city db_name table_name (get_key_hash city keys) ≢ 2 ^ 63
    → 0 < n
    → n ≤ 2 ^ 32
    → (r : ℕ) × (get_partition_id city db_name table_name keys (pos n) ≡ returned r) × (r < n)
unfolding get_partition_id
get_partition_id_bounds city db_name table_name keys n h least some_part fits = (
  magnitude hash % n,
  ap (λ a. rem_int a (pos n) >>= λ r. returned (to_u32 r)) (to_i64-abs hash h least)
      ∙ rem_int_small (magnitude hash) n some_part fits,
  mod-lt (magnitude hash) some_part,
)
  where
    hash : ℕ
    hash = table_hash city db_name table_name (get_key_hash city keys)
