-- ===== src/Tree/Tests.antt =====
-- tree.c on concrete trees: the witnesses of the theorems, and runs.
use smchr.Prelude.{ℕ, ◌+◌, ◌≡◌, refl, false, some, arith}
use smchr.Tree.{Tree, nil, tree2, tree3, tree4, tree_search, tree_search_min}
use smchr.Tree.Entries.{entries, Balanced, Sorted, insert_entry, remove_entry, find}
use smchr.Tree.Insert.{tree_insert}
use smchr.Tree.Delete.{tree_delete, tree_delete_min_2, tree_delete_max_2}
use smchr.Tree.Neighbour.{tree_search_lt, tree_search_gt, tree_search_max}
use smchr.Tree.Map.{
  tree_map, tree_destructive_map, map_entries, tree_map-entries, destructive_map-tree_map,
}
use smchr.Tree.Search.{tree_search-entries, tree_search_min-entries, first}
use smchr.Tree.Neighbour.Correct.{
  tree_search_lt-entries, tree_search_gt-entries, last_below, first_above,
}
use smchr.Tree.Neighbour.Last.{tree_search_max-entries, last}
use smchr.Tree.Insert.Rebuild.{Inserted}
use smchr.Tree.Insert.Correct.{tree_insert-Inserted}
use smchr.Tree.Delete.Min.{
  Removed, in_front, at_end, tree_delete_min_2-Removed, tree_delete_max_2-Removed,
}
use smchr.Tree.Delete.Steps.{Deleted}
use smchr.Tree.Delete.Correct.{tree_delete-Deleted}
use smchr.Tree.Laws.{WellFormed, AfterInsert, AfterDelete, tree_insert_lem, tree_delete_lem}

-- Keys in their own order.
abbrev by_value : ℕ → ℕ
by_value k = k

abbrev leaf : ℕ → Tree
leaf k = tree2 nil k (k + 100) nil

-- A full root over leaves of all three kinds.
abbrev sample : Tree
sample =
    tree4 (leaf 1) 2 102 (tree3 nil 3 103 nil 4 104 nil) 5 105
      (tree4 nil 6 106 nil 7 107 nil 8 108 nil) 9 109 (leaf 10)

sample-Balanced : Balanced 2 sample
sample-Balanced = ((tt, tt), (tt, tt, tt), (tt, tt, tt, tt), (tt, tt))

sample-Sorted : Sorted by_value 0 11 (entries sample)
sample-Sorted = ground arith

sample-WellFormed : WellFormed by_value sample
sample-WellFormed = record {
  height = 2;
  balanced = sample-Balanced;
  above = 11;
  sorted = sample-Sorted;
}

tree_insert_lem_example : AfterInsert by_value sample 7 0 (tree_insert by_value sample 7 0)
tree_insert_lem_example = tree_insert_lem by_value sample 7 0 sample-WellFormed

tree_delete_lem_example : AfterDelete by_value sample 1 (tree_delete by_value sample 1)
tree_delete_lem_example = tree_delete_lem by_value sample 1 sample-WellFormed

tree_insert-Inserted_example :
    Inserted 3 (insert_entry by_value 11 0 (entries sample)) (tree_insert by_value sample 11 0)
tree_insert-Inserted_example =
    tree_insert-Inserted by_value 11 0 2 0 11 sample sample-Balanced sample-Sorted

tree_delete-Deleted_example :
    Deleted 2
      (remove_entry by_value 5 (entries sample))
      (find by_value 5 (entries sample))
      (tree_delete by_value sample 5)
tree_delete-Deleted_example =
    tree_delete-Deleted by_value 5 2 0 11 sample sample-Balanced sample-Sorted

tree_delete_min_2-Removed_example :
    Removed 2 in_front (entries sample) (tree_delete_min_2 sample false)
tree_delete_min_2-Removed_example = tree_delete_min_2-Removed 1 sample sample-Balanced

tree_delete_max_2-Removed_example :
    Removed 2 at_end (entries sample) (tree_delete_max_2 sample false)
tree_delete_max_2-Removed_example = tree_delete_max_2-Removed 1 sample sample-Balanced

tree_search-entries_example : tree_search by_value sample 8 ≡ find by_value 8 (entries sample)
tree_search-entries_example = tree_search-entries by_value 0 11 sample 8 sample-Sorted

tree_search_lt-entries_example :
    tree_search_lt by_value sample 5 ≡ last_below by_value 5 (entries sample)
tree_search_lt-entries_example = tree_search_lt-entries by_value 5 0 11 sample sample-Sorted

tree_search_gt-entries_example :
    tree_search_gt by_value sample 5 ≡ first_above by_value 5 (entries sample)
tree_search_gt-entries_example = tree_search_gt-entries by_value 5 0 11 sample sample-Sorted

tree_search_max-entries_example : tree_search_max sample ≡ last (entries sample)
tree_search_max-entries_example = tree_search_max-entries 2 sample sample-Balanced

abbrev shallow : Tree
shallow = tree4 nil 6 106 nil 7 107 nil 8 108 nil

destructive_map-tree_map_example :
    tree_destructive_map (λ k v. k + v) shallow ≡ tree_map (λ k v. k + v) shallow
destructive_map-tree_map_example =
    destructive_map-tree_map (λ k v. k + v) shallow (tt, tt, tt, refl)

-- Runs.
run_neighbours :
    (tree_search_lt by_value sample 5 ≡ some (4, 104))
    × (tree_search_gt by_value sample 5 ≡ some (6, 106))
unfolding tree_search_lt tree_search_gt
run_neighbours = (refl, refl)

-- The value under key 10, in the last subtree of the root, is not mapped.
run_destructive_map : tree_search by_value (tree_destructive_map (λ k v. 0) sample) 10 ≡ some 110
unfolding tree_destructive_map tree_search
run_destructive_map = refl

tree_search_min-entries_example : tree_search_min sample ≡ first (entries sample)
tree_search_min-entries_example = tree_search_min-entries sample

tree_map-entries_example :
    entries (tree_map (λ k v. v + 1) sample) ≡ map_entries (λ k v. v + 1) (entries sample)
tree_map-entries_example = tree_map-entries (λ k v. v + 1) sample
