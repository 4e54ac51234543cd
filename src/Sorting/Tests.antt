-- ===== src/Sorting/Tests.antt =====
-- Runs of the sorts, and the theorems on a concrete array.
use codelab.Base.{
  out_of_bounds, ℕ, ◌≤◌, ◌<◌, ◌≡◌, ◌≢◌, refl, Option, none, some, ◌==◌, if◌then◌else◌, arith,
}
use codelab.Base.Int.{ℤ, pos, negsuc}
use codelab.Sorting.{Array, read, swap, scan_up, scan_down, split_loop, split, IsSortedIn}
use codelab.Sorting.Totals.{SameItems}
use codelab.Sorting.Moves.{Moves}
use codelab.Sorting.Quick.{qsort, qsort-IsSortedIn}
use codelab.Sorting.Select.{qselect, IsRanked, qselect-IsRanked}
use codelab.Sorting.Partition.{
  partition, Partitions, partition-IsPartitioned, partition_out_of_bounds,
}
use codelab.Sorting.Merge.{merge_sort, merge_impl, merge, merge_loop, copy_loop, copy_back, put}
use codelab.Sorting.Merge.Sort.{merge_sort-IsSortedIn}
use codelab.Sorting.Agreement.{qsort-eq-merge_sort}

-- 4, -2, 9, 0.
abbrev four : Array
four = record {
  size = 4;
  at = λ k. if k == 0 then pos 4 else if k == 1 then negsuc 1 else if k == 2 then pos 9 else pos 0;
}

-- What `malloc` may give.
abbrev sevens : ℕ → ℤ
sevens k = pos 7

entries : Option Array → ℕ → Option ℤ
entries none k = none
entries (some a) k = some (a.at k)

sorted_third : entries (qsort 4 four 0 4) 2 ≡ some (pos 4)
unfolding entries qsort split split_loop scan_up scan_down read swap
sorted_third = refl

merged_third : entries (merge_sort (some sevens) four 4) 2 ≡ some (pos 4)
unfolding entries merge_sort merge_impl merge merge_loop copy_loop copy_back put read
merged_third = refl

qsort-IsSortedIn_example :
    (b : Array) × (qsort 4 four 0 4 ≡ some b) × Moves four b 0 4 × IsSortedIn b 0 4
qsort-IsSortedIn_example = qsort-IsSortedIn 4 four 0 4 (omega arith) (omega arith)

qselect-IsRanked_example :
    (4 ≤ 1 → qselect four 4 1 ≡ some (four, none))
    × (1 < 4
        → (b : Array) × (qselect four 4 1 ≡ some (b, some 1)) × Moves four b 0 4 × IsRanked b 4 1)
qselect-IsRanked_example = qselect-IsRanked four 4 1 (omega arith)

partition-IsPartitioned_example : Partitions four 3 (partition four 3)
partition-IsPartitioned_example = partition-IsPartitioned four 3 (omega arith) (omega arith)

partition_out_of_bounds_example : partition four 4 ≡ out_of_bounds
partition_out_of_bounds_example = partition_out_of_bounds four (omega arith)

merge_sort-IsSortedIn_example :
    (b : Array) × (merge_sort (some sevens) four 4 ≡ some b)
    × SameItems four b 0 4
    × (some sevens ≡ none → b ≡ four)
    × (some sevens ≢ none → IsSortedIn b 0 4)
merge_sort-IsSortedIn_example = merge_sort-IsSortedIn (some sevens) four 4 (omega arith)

qsort-eq-merge_sort_example :
    (b : Array) × (c : Array) × (qsort 4 four 0 4 ≡ some b)
    × (merge_sort (some sevens) four 4 ≡ some c)
    × ((k : ℕ) → b.at k ≡ c.at k)
qsort-eq-merge_sort_example = qsort-eq-merge_sort four 4 sevens (omega arith)
