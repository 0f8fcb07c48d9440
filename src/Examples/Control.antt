-- ===== src/Examples/Control.antt =====
-- table_shard_assigner.go at concrete inputs, with an insertion sort.
use mathlib.Core.List.Permᴰ
use mathlib.Core.List.{Permᴰ}
use laser_db.Base.{
  ℕ, ◌≤◌, ◌≡◌, refl, inl, inr, List, [], ◌∷◌, arith, returned, length, All, leb, if◌then◌else◌,
  Bool-cases, ◌==◌, nat_eq, string_eq,
}
use laser_db.Base.Int.{pos, int_eq}
use laser_db.Base.Words.{add64}
use laser_db.Control.TableShardAssigner.{
  Pair, AssignedShardList, Sorts, add_shard, add_to_first, deal, assign_shard_list_by_metric,
}
use laser_db.Control.TableShardAssigner.Totals.{
  total, count_all, sum_all, values, Ordered, IsSort, Between,
}
use laser_db.Control.TableShardAssigner.Dealt.{assign_shard_list_by_metric_lem}

abbrev insert_list : AssignedShardList → List AssignedShardList → List AssignedShardList
insert_list l [] = l ∷ []
insert_list l (k ∷ ks) =
    let later = insert_list l ks in if leb l.metric_sum k.metric_sum then l ∷ k ∷ ks else k ∷ later

abbrev sort_lists : List AssignedShardList → List AssignedShardList
sort_lists [] = []
sort_lists (l ∷ ls) = insert_list l (sort_lists ls)

insert_list-Permᴰ :
    (l : AssignedShardList) (ks : List AssignedShardList) → Permᴰ (insert_list l ks) (l ∷ ks)
insert_list-Permᴰ l [] = Permᴰ.refl (l ∷ [])
insert_list-Permᴰ l (k ∷ ks) = elim (Bool-cases (leb l.metric_sum k.metric_sum)) [
  | inl e ↦ rw e (Permᴰ.refl (l ∷ k ∷ ks))
  | inr e ↦ rw e (Permᴰ.trans (Permᴰ.cons refl (insert_list-Permᴰ l ks)) (Permᴰ.swap refl refl))
]

sort_lists-Permᴰ : (ls : List AssignedShardList) → Permᴰ (sort_lists ls) ls
sort_lists-Permᴰ [] = Permᴰ.nil
sort_lists-Permᴰ (l ∷ ls) =
    Permᴰ.trans (insert_list-Permᴰ l (sort_lists ls)) (Permᴰ.cons refl (sort_lists-Permᴰ ls))

Above : ℕ → List AssignedShardList → Type 0
Above n = All (λ k. n ≤ k.metric_sum)

Above-insert_list :
    (n : ℕ) (l : AssignedShardList) (ks : List AssignedShardList)
    → n ≤ l.metric_sum
    → Above n ks
    → Above n (insert_list l ks)
unfolding Above
Above-insert_list n l [] h a = (h, tt)
Above-insert_list n l (k ∷ ks) h a = elim (Bool-cases (leb l.metric_sum k.metric_sum)) [
  | inl e ↦ rw e (h, a)
  | inr e ↦ rw e (a.0, Above-insert_list n l ks h a.1)
]

Above-less : (n m : ℕ) (ks : List AssignedShardList) → n ≤ m → Above m ks → Above n ks
unfolding Above
Above-less n m [] h a = tt
Above-less n m (k ∷ ks) h a = (omega (arith, h, a.0), Above-less n m ks h a.1)

insert_list-Ordered :
    (l : AssignedShardList) (ks : List AssignedShardList) → Ordered ks → Ordered (insert_list l ks)
unfolding Above
insert_list-Ordered l [] o = (tt, tt)
insert_list-Ordered l (k ∷ ks) o = elim (Bool-cases (leb l.metric_sum k.metric_sum)) [
  | inl e ↦
      let le : l.metric_sum ≤ k.metric_sum = ground arith in
      rw e ((le, Above-less l.metric_sum k.metric_sum ks le o.0), o)
  | inr e ↦
      rw e (Above-insert_list k.metric_sum l ks (ground arith) o.0, insert_list-Ordered l ks o.1)
]

sort_lists-Ordered : (ls : List AssignedShardList) → Ordered (sort_lists ls)
sort_lists-Ordered [] = tt
sort_lists-Ordered (l ∷ ls) = insert_list-Ordered l (sort_lists ls) (sort_lists-Ordered ls)

abbrev sorts : Sorts
sorts = record { by_sum = sort_lists; down = λ ps. ps; shards = λ ss. ss }

sorts-IsSort : IsSort sorts
sorts-IsSort = record {
  by_sum_same = sort_lists-Permᴰ;
  by_sum_ordered = sort_lists-Ordered;
  down_same = Permᴰ.refl;
  shards_same = Permᴰ.refl;
}

abbrev sizes : List Pair
sizes = (pos 3, 90) ∷ (pos 1, 50) ∷ (pos 2, 40) ∷ (pos 7, 10) ∷ []

assign_shard_list_by_metric_lem_example :
    (r : List AssignedShardList) × (assign_shard_list_by_metric sorts 2 sizes ≡ returned r)
    × (length r ≡ 2)
    × (count_all (pos 2) r ≡ total (λ p. if p.0 == pos 2 then 1 else 0) sizes)
    × (sum_all r ≡ values sizes)
    × ((low : ℕ) × All (Between low 90) r)
assign_shard_list_by_metric_lem_example =
    assign_shard_list_by_metric_lem sorts (pos 2) 90 2 sizes sorts-IsSort (omega arith)
      (omega arith) (omega arith, (omega arith, (omega arith, (omega arith, tt))))

deals_two :
    assign_shard_list_by_metric sorts 2 sizes
    ≡ returned (
        record { metric_sum = 100; shard_list = pos 1 ∷ pos 2 ∷ pos 7 ∷ [] }
        ∷ record { metric_sum = 90; shard_list = pos 3 ∷ [] }
        ∷ [])
unfolding assign_shard_list_by_metric deal add_to_first add_shard add64
deals_two = refl
