-- ===== src/Tree/InPlace/Tests.antt =====
-- tree.c: insertion and deletion in place on a concrete tree, the witnesses of the theorems.
use smchr.Prelude.{ℕ, ◌≡◌}
use smchr.Tree.{Tree, nil, tree2, tree4}
use smchr.Tree.Insert.{tree_insert}
use smchr.Tree.Delete.{tree_delete}
use smchr.Tree.InPlace.Insert.{tree_destructive_insert, destructive_insert-tree_insert}
use smchr.Tree.InPlace.Delete.{tree_destructive_delete}
use smchr.Tree.InPlace.DeleteSame.{destructive_delete-tree_delete}

-- Keys in their own order.
abbrev by_value : ℕ → ℕ
by_value k = k

abbrev sample : Tree
sample = tree2 (tree2 nil 1 11 nil) 3 13 (tree4 nil 4 14 nil 5 15 nil 6 16 nil)

destructive_insert-tree_insert_example :
    tree_destructive_insert by_value sample 7 0 ≡ tree_insert by_value sample 7 0
destructive_insert-tree_insert_example =
    destructive_insert-tree_insert by_value 7 0 (λ j h. h) sample

destructive_delete-tree_delete_example :
    tree_destructive_delete by_value sample 3 ≡ tree_delete by_value sample 3
destructive_delete-tree_delete_example = destructive_delete-tree_delete by_value sample 3
