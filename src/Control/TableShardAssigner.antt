-- ===== src/Control/TableShardAssigner.antt =====
-- table_shard_assigner.go: the shards of a table are dealt out to a number of lists, by their
-- size, by their traffic or by their number. The sorts are
-- parameters. The metrics of the shards are arguments: a map that lacks a shard counts 0 for it.
pub mod Totals
pub mod Dealt
use laser_db.Base.{
  ℕ, zero, suc, ◌+◌, ◌-◌, ◌%◌, not, Option, none, some, List, [], ◌∷◌, ◌++◌, map, Outcome, returned,
  panicked, ◌>>=◌, length, ltb, nat_beq, if◌then◌else◌, Eq, nat_eq, string_eq,
}
use laser_db.Base.Int.{ℤ, int_eq}
use laser_db.Base.Maps.{lookup, lookup_or}
use laser_db.Base.Words.{add64}

-- A shard with the value of a metric.
abbrev pub Pair : Type 0
Pair = ℤ × ℕ

pub record AssignedShardList : Type 0 where
  pub metric_sum : ℕ
  pub shard_list : List ℤ

pub record AssignedResultEntry : Type 0 where
  pub size_sum : ℕ
  pub kps_sum : ℕ
  pub shard_list : List ℤ

pub record AssignedTableShardResult : Type 0 where
  pub total_shard_list_info : AssignedResultEntry
  pub assigned_shard_list_infos : List AssignedResultEntry

-- `sort.Sort` on the lists, by their sums; `sort.Sort(sort.Reverse(...))` on the pairs; and
-- `sort.Slice` on shards, upwards.
pub record Sorts : Type 0 where
  pub by_sum : List AssignedShardList → List AssignedShardList
  pub down : List Pair → List Pair
  pub shards : List ℤ → List ℤ

abbrev pub repeated {ℓ} : {A : Type ℓ} → ℕ → A → List A
repeated zero a = []
repeated (suc n) a = a ∷ repeated n a

abbrev pub no_shards : AssignedShardList
no_shards = record { metric_sum = 0; shard_list = [] }

abbrev pub no_entry : AssignedResultEntry
no_entry = record { size_sum = 0; kps_sum = 0; shard_list = [] }

unfoldable pub add_shard : AssignedShardList → Pair → AssignedShardList
unfolding add64
add_shard l (key, value) = record {
  metric_sum = add64 l.metric_sum value;
  shard_list = l.shard_list ++ key ∷ [];
}

-- `shardLists[0]` panics where there is no list.
unfoldable pub add_to_first : List AssignedShardList → Pair → Outcome (List AssignedShardList)
unfolding add_shard
add_to_first [] p = panicked
add_to_first (l ∷ ls) p = returned (add_shard l p ∷ ls)

module _ (sorts : Sorts) where
  -- The loop that takes the pairs from the front.
  unfoldable pub deal : List AssignedShardList → List Pair → Outcome (List AssignedShardList)
  unfolding add_to_first
  deal lists [] = returned lists
  deal lists (p ∷ pairs) = add_to_first (sorts.by_sum lists) p >>= λ ls. deal ls pairs

  abbrev pub sort_list : AssignedShardList → AssignedShardList
  sort_list l = record l { shard_list = sorts.shards l.shard_list }

  unfoldable pub assign_shard_list_by_metric : ℕ → List Pair → Outcome (List AssignedShardList)
  unfolding deal
  assign_shard_list_by_metric list_num metric =
      deal (repeated list_num no_shards) (sorts.down metric) >>= λ lists.
      returned (map sort_list lists)

-- The other metric of a list, summed shard by shard.
unfoldable pub sum_metric : List Pair → ℕ → List ℤ → ℕ
unfolding add64 lookup
sum_metric metric acc [] = acc
sum_metric metric acc (shard ∷ shards) =
    sum_metric metric (add64 acc (lookup_or 0 shard metric)) shards

abbrev pub size_entry : List Pair → AssignedShardList → AssignedResultEntry
size_entry kps l = record {
  size_sum = l.metric_sum;
  kps_sum = sum_metric kps 0 l.shard_list;
  shard_list = l.shard_list;
}

abbrev pub kps_entry : List Pair → AssignedShardList → AssignedResultEntry
kps_entry size l = record {
  size_sum = sum_metric size 0 l.shard_list;
  kps_sum = l.metric_sum;
  shard_list = l.shard_list;
}

-- The sums and the shards of all entries.
unfoldable pub add_totals : AssignedResultEntry → List AssignedResultEntry → AssignedResultEntry
unfolding add64
add_totals total [] = total
add_totals total (e ∷ es) =
    add_totals
      (record {
        size_sum = add64 total.size_sum e.size_sum;
        kps_sum = add64 total.kps_sum e.kps_sum;
        shard_list = total.shard_list ++ e.shard_list;
      })
      es

unfoldable pub with_totals : Sorts → List AssignedResultEntry → AssignedTableShardResult
unfolding add_totals
with_totals sorts entries =
    let total = add_totals no_entry entries in
    record {
      total_shard_list_info = record total { shard_list = sorts.shards total.shard_list };
      assigned_shard_list_infos = entries;
    }

unfoldable pub assign_shard_list_by_size :
    Sorts → ℕ → List Pair → List Pair → Outcome AssignedTableShardResult
unfolding assign_shard_list_by_metric with_totals sum_metric
assign_shard_list_by_size sorts list_num size kps =
    assign_shard_list_by_metric sorts list_num size >>= λ lists.
    returned (with_totals sorts (map (size_entry kps) lists))

unfoldable pub assign_shard_list_by_kps :
    Sorts → ℕ → List Pair → List Pair → Outcome AssignedTableShardResult
unfolding assign_shard_list_by_metric with_totals sum_metric
assign_shard_list_by_kps sorts list_num size kps =
    assign_shard_list_by_metric sorts list_num kps >>= λ lists.
    returned (with_totals sorts (map (kps_entry size) lists))

abbrev pub add_to_entry : List Pair → List Pair → ℤ → AssignedResultEntry → AssignedResultEntry
add_to_entry size kps shard e = record {
  size_sum = add64 e.size_sum (lookup_or 0 shard size);
  kps_sum = add64 e.kps_sum (lookup_or 0 shard kps);
  shard_list = e.shard_list ++ shard ∷ [];
}

unfoldable pub update_at {ℓ} : {A : Type ℓ} → (A → A) → ℕ → List A → List A
update_at f i [] = []
update_at f zero (a ∷ rest) = f a ∷ rest
update_at f (suc i) (a ∷ rest) = a ∷ update_at f i rest

-- The loop over the shards: `count % listNum` picks the entry, and panics for 0.
unfoldable pub deal_round :
    List Pair
    → List Pair
    → ℕ
    → List ℤ
    → List AssignedResultEntry
    → Outcome (List AssignedResultEntry)
unfolding update_at add64 lookup
deal_round size kps count [] entries = returned entries
deal_round size kps count (shard ∷ shards) entries =
    let rest =
      deal_round size kps (suc count) shards
        (update_at (add_to_entry size kps shard) (count % length entries) entries) in
    if nat_beq (length entries) 0 then panicked else rest

unfoldable pub assign_shard_list_by_num :
    Sorts → ℕ → List ℤ → List Pair → List Pair → Outcome AssignedTableShardResult
unfolding deal_round sum_metric
assign_shard_list_by_num sorts list_num shards size kps =
    deal_round size kps 0 (sorts.shards shards) (repeated list_num no_entry) >>= λ entries.
    returned (record {
      total_shard_list_info = record {
        size_sum = sum_metric size 0 (sorts.shards shards);
        kps_sum = sum_metric kps 0 (sorts.shards shards);
        shard_list = sorts.shards shards;
      };
      assigned_shard_list_infos = entries;
    })

pub data AssignType : Type 0 where
  by_shard_size : AssignType
  by_shard_kps : AssignType
  by_shard_num : AssignType
  other_type : AssignType

-- The zero value, which a type that the switch does not name leaves.
abbrev empty_result : AssignedTableShardResult
empty_result = record { total_shard_list_info = no_entry; assigned_shard_list_infos = [] }

-- `none` is the status that there are too few shards for so many lists.
unfoldable pub assign_table_shard_list :
    Sorts
    → AssignType
    → ℕ
    → List ℤ
    → List Pair
    → List Pair
    → Option (Outcome AssignedTableShardResult)
unfolding assign_shard_list_by_size assign_shard_list_by_kps assign_shard_list_by_num
assign_table_shard_list sorts type list_num shards size kps =
    if ltb (length shards) list_num then none else elim type [
      | by_shard_size ↦ some (assign_shard_list_by_size sorts list_num size kps)
      | by_shard_kps ↦ some (assign_shard_list_by_kps sorts list_num size kps)
      | by_shard_num ↦ some (assign_shard_list_by_num sorts list_num shards size kps)
      | other_type ↦ some (returned empty_result)
    ]
