-- ===== src/Control/TableShardAssigner/Dealt.antt =====
-- What dealing by a metric leaves: every shard is in one list, and the lists are balanced.
use mathlib.Core.List.Permᴰ
use mathlib.Core.List.{Permᴰ}
use laser_db.Base.{
  ℕ, zero, suc, ◌+◌, ◌^◌, ◌≤◌, ◌<◌, ◌≡◌, refl, ap, ◌∙◌, List, [], ◌∷◌, map, arith, Outcome,
  returned, ◌>>=◌, length, All, if◌then◌else◌, ◌==◌, nat_eq, string_eq,
}
use laser_db.Base.Int.{ℤ, int_eq}
use laser_db.Control.TableShardAssigner.{
  Pair, AssignedShardList, Sorts, repeated, no_shards, add_shard, add_to_first, deal, sort_list,
  assign_shard_list_by_metric,
}
use laser_db.Control.TableShardAssigner.Totals.{
  total, count, count_all, sum_all, values, Ordered, IsSort, total-Permᴰ, All-Permᴰ,
  total-repeated_zero, length-total, count-add_shard, sum-add_shard, Between, AtMost,
}

above_first :
    (low m first : ℕ) (ls : List AssignedShardList)
    → low ≤ first
    → All (λ k. first ≤ k.metric_sum) ls
    → All (Between low m) ls
    → All (Between first m) ls
above_first low m first [] le above h = tt
above_first low m first (l ∷ ls) le above h =
    ((above.0, omega (arith, h.0.1)), above_first low m first ls le above.1 h.1)

module _ (sorts : Sorts) (x : ℤ) (m : ℕ) (sorted : IsSort sorts) where
  -- What the result of dealing the pairs to the lists is.
  abbrev Deals :
      Outcome (List AssignedShardList)
      → List AssignedShardList
      → List Pair
      → List AssignedShardList
      → Type 0
  Deals o lists pairs r =
      (o ≡ returned r)
      × (length r ≡ length lists)
      × (count_all x r ≡ count_all x lists + total (λ p. if p.0 == x then 1 else 0) pairs)
      × (sum_all r ≡ sum_all lists + values pairs)
      × ((low : ℕ) × All (Between low m) r)

  -- One round, with what the rest of the loop does for all lists that it may start from.
  deal_step :
      (low n : ℕ) (lists : List AssignedShardList) (p : Pair) (pairs : List Pair)
      → length lists ≡ suc n
      → sum_all lists + values (p ∷ pairs) < 2 ^ 64
      → All (Between low m) lists
      → p.1 ≤ m
      → ((low' : ℕ) (ks : List AssignedShardList)
          → length ks ≡ suc n
          → sum_all ks + values pairs < 2 ^ 64
          → All (Between low' m) ks
          → (r : List AssignedShardList) × Deals (deal sorts ks pairs) ks pairs r)
      → (ls : List AssignedShardList) → Permᴰ ls lists
      → Ordered ls
      → (r : List AssignedShardList) × Deals
          (add_to_first ls p >>= λ ks. deal sorts ks pairs)
          lists
          (p ∷ pairs)
          r
  unfolding add_to_first
  deal_step low n lists p pairs size room between small rest [] same ordered =
      absurd (omega (arith, size, length-total lists, total-Permᴰ (λ l. 1) [] lists same))
  deal_step low n lists p pairs size room between small rest (l ∷ ls) same ordered =
      let sums : sum_all (l ∷ ls) ≡ sum_all lists = total-Permᴰ _ (l ∷ ls) lists same in
      let counts : count_all x (l ∷ ls) ≡ count_all x lists = total-Permᴰ _ (l ∷ ls) lists same in
      let lengths : total (λ k. 1) (l ∷ ls) ≡ total (λ k. 1) lists =
        total-Permᴰ (λ k. 1) (l ∷ ls) lists same in
      let inside : All (Between low m) (l ∷ ls) =
        All-Permᴰ (Between low m) lists (l ∷ ls) (Permᴰ.symm same) between in
      let added : (add_shard l p).metric_sum ≡ l.metric_sum + p.1 =
        sum-add_shard l p (omega (arith, sums, room)) in
      let (r, (e, len, cnt, sum, bounds)) =
        rest l.metric_sum (add_shard l p ∷ ls)
          (omega (arith, lengths, length-total ls, length-total lists, size))
          (omega (arith, sums, added, room))
          (
            (omega (arith, added), omega (arith, added, small)),
            above_first low m l.metric_sum ls inside.0.0 ordered.0 inside.1,
          ) in
      (
        r,
        (
          e,
          omega (arith, len, lengths, length-total ls, length-total lists),
          omega (arith, cnt, counts, count-add_shard x l p),
          omega (arith, sum, sums, added),
          bounds,
        ),
      )

  deal-Deals :
      (low n : ℕ) (lists : List AssignedShardList) (pairs : List Pair)
      → length lists ≡ suc n
      → sum_all lists + values pairs < 2 ^ 64
      → All (Between low m) lists
      → AtMost m pairs
      → (r : List AssignedShardList) × Deals (deal sorts lists pairs) lists pairs r
  unfolding deal
  deal-Deals low n lists [] size room between at_most =
      (lists, (refl, refl, omega arith, omega arith, (low, between)))
  deal-Deals low n lists (p ∷ pairs) size room between at_most =
      deal_step low n lists p pairs size room between at_most.0
        (λ low' ks s h b. deal-Deals low' n ks pairs s h b at_most.1) (sorts.by_sum lists)
        (sorted.by_sum_same lists) (sorted.by_sum_ordered lists)

  count_all-sort_list :
      (ls : List AssignedShardList) → count_all x (map (sort_list sorts) ls) ≡ count_all x ls
  count_all-sort_list [] = refl
  count_all-sort_list (l ∷ ls) = omega (
    arith,
    count_all-sort_list ls,
    total-Permᴰ (λ y. if y == x then 1 else 0) (sorts.shards l.shard_list) l.shard_list
        (sorted.shards_same l.shard_list),
  )

  sum_all-sort_list :
      (ls : List AssignedShardList) → sum_all (map (sort_list sorts) ls) ≡ sum_all ls
  sum_all-sort_list [] = refl
  sum_all-sort_list (l ∷ ls) = omega (arith, sum_all-sort_list ls)

  length-sort_list : (ls : List AssignedShardList) → length (map (sort_list sorts) ls) ≡ length ls
  length-sort_list [] = refl
  length-sort_list (l ∷ ls) = ap suc (length-sort_list ls)

  Between-sort_list :
      (low : ℕ) (ls : List AssignedShardList)
      → All (Between low m) ls
      → All (Between low m) (map (sort_list sorts) ls)
  Between-sort_list low [] h = tt
  Between-sort_list low (l ∷ ls) h = (h.0, Between-sort_list low ls h.1)

Between-repeated : (m n : ℕ) → All (Between 0 m) (repeated n no_shards)
Between-repeated m zero = tt
Between-repeated m (suc n) = ((omega arith, omega arith), Between-repeated m n)

length-repeated : (n : ℕ) → length (repeated n no_shards) ≡ n
length-repeated zero = refl
length-repeated (suc n) = ap suc (length-repeated n)

-- Dealing a metric to one list or more, for sorts that only reorder and of which the one by sums
-- orders the lists by them, where the sum of all values fits a uint64 and none is above m: it does
-- not panic, as many lists come back as were asked for, each shard is as often in the lists as in
-- the metric, the sums of the lists add up to the sum of the values, and any two of them differ by
-- m at most, as all lie between a bound and the bound plus m.
pub assign_shard_list_by_metric_lem :
    (sorts : Sorts) (x : ℤ) (m list_num : ℕ) (metric : List Pair)
    → IsSort sorts
    → 0 < list_num
    → values metric < 2 ^ 64
    → AtMost m metric
    → (r : List AssignedShardList) × (assign_shard_list_by_metric sorts list_num metric
        ≡ returned r)
      × (length r ≡ list_num)
      × (count_all x r ≡ total (λ p. if p.0 == x then 1 else 0) metric)
      × (sum_all r ≡ values metric)
      × ((low : ℕ) × All (Between low m) r)
unfolding assign_shard_list_by_metric
assign_shard_list_by_metric_lem sorts x m zero metric sorted some_list room at_most =
    elim some_list [ ]
assign_shard_list_by_metric_lem sorts x m (suc n) metric sorted some_list room at_most =
    let same : Permᴰ (sorts.down metric) metric = sorted.down_same metric in
    let zeros : (f : AssignedShardList → ℕ)
        → f no_shards ≡ 0
        → total f (repeated (suc n) no_shards) ≡ 0 =
      λ f e. total-repeated_zero f no_shards (suc n) e in
    let (r, (e, len, cnt, sum, (low, bounds))) =
      deal-Deals sorts x m sorted 0 n (repeated (suc n) no_shards) (sorts.down metric)
        (length-repeated (suc n))
        (omega (
          arith,
          total-Permᴰ (λ p. p.1) (sorts.down metric) metric same,
          zeros (λ l. l.metric_sum) refl,
          room,
        ))
        (Between-repeated m (suc n))
        (All-Permᴰ (λ p. p.1 ≤ m) metric (sorts.down metric) (Permᴰ.symm same) at_most) in
    (
      map (sort_list sorts) r,
      ap (λ o. o >>= λ lists. returned (map (sort_list sorts) lists)) e,
      length-sort_list sorts x m sorted r ∙ len ∙ length-repeated (suc n),
      omega (
        arith,
        count_all-sort_list sorts x m sorted r,
        cnt,
        zeros (λ l. count x l.shard_list) refl,
        total-Permᴰ (λ p. if p.0 == x then 1 else 0) (sorts.down metric) metric same,
      ),
      omega (
        arith,
        sum_all-sort_list sorts x m sorted r,
        sum,
        zeros (λ l. l.metric_sum) refl,
        total-Permᴰ (λ p. p.1) (sorts.down metric) metric same,
      ),
      (low, Between-sort_list sorts x m sorted low r bounds),
    )
