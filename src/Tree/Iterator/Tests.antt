-- ===== src/Tree/Iterator/Tests.antt =====
-- tree.c: iterators over a concrete tree, the witnesses of the theorems, and runs.
use smchr.Prelude.{ℕ, ◌≡◌, refl, some, [], ◌∷◌, arith}
use smchr.Tree.{Tree, nil, tree2, tree3, tree4}
use smchr.Tree.Entries.{entries, Balanced, Sorted}
use smchr.Tree.Iterator.{
  tree_itrinit, tree_itrinit_geq, tree_get, tree_next, walk, push_geq, push_leftmost,
}
use smchr.Tree.Iterator.Geq.{at_least}
use smchr.Tree.Iterator.Walk.{
  InRoom, next_times, next_times-InRoom, tree_itrinit-walk, tree_itrinit_geq-walk,
}

-- Keys in their own order.
abbrev by_value : ℕ → ℕ
by_value k = k

abbrev sample : Tree
sample =
    tree3 (tree2 nil 1 11 nil) 2 12 (tree4 nil 4 14 nil 5 15 nil 6 16 nil) 8 18
      (tree3 nil 9 19 nil 10 20 nil)

sample-Sorted : Sorted by_value 0 11 (entries sample)
sample-Sorted = ground arith

sample-Balanced : Balanced 2 sample
sample-Balanced = ((tt, tt), (tt, tt, tt, tt), (tt, tt, tt))

from_five :
    walk 9 (tree_itrinit_geq by_value sample 5)
    ≡ some ((5, 15) ∷ (6, 16) ∷ (8, 18) ∷ (9, 19) ∷ (10, 20) ∷ [])
unfolding walk tree_get tree_next push_geq push_leftmost
from_five = refl

tree_itrinit_geq-walk_example :
    walk 9 (tree_itrinit_geq by_value sample 5) ≡ some (at_least by_value 5 (entries sample))
tree_itrinit_geq-walk_example =
    tree_itrinit_geq-walk by_value 0 11 sample 5 9 sample-Sorted (ground arith)

next_times-InRoom_example : InRoom 8 8 sample (next_times 3 (tree_itrinit sample))
next_times-InRoom_example = next_times-InRoom 8 8 2 3 sample sample-Balanced

tree_itrinit-walk_example : walk 9 (tree_itrinit sample) ≡ some (entries sample)
tree_itrinit-walk_example = tree_itrinit-walk sample 9 (ground arith)
