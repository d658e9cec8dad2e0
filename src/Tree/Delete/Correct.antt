-- ===== src/Tree/Delete/Correct.antt =====
-- tree.c: deletion from balanced sorted trees, and their lists of entries.
use smchr.Prelude.{ℕ, zero, suc, refl}
use smchr.Tree.{Tree, nil, tree2, tree3, tree4}
use smchr.Tree.Entries.{entries, Sorted, Balanced, find, remove_entry}
use smchr.Tree.Delete.Nodes.{Inductive, node2-Deleted, node3-Deleted}
use smchr.Tree.Delete.Node4.{node4-Deleted}
use smchr.Tree.Delete.{tree_delete, tree_delete_2}
use smchr.Tree.Delete.Steps.{Deleted, leaf2-Deleted, leaf3-Deleted, leaf4-Deleted}

module _ (rank : ℕ → ℕ) (k : ℕ) where
  delete-Inductive : (n : ℕ) (t : Tree) → Balanced n t → Inductive rank k n t
  unfolding tree_delete_2
  delete-Inductive zero nil b lo hi s = (tt, refl, refl)
  delete-Inductive zero (tree2 t0 k0 v0 t1) b lo hi s = elim b [ ]
  delete-Inductive zero (tree3 t0 k0 v0 t1 k1 v1 t2) b lo hi s = elim b [ ]
  delete-Inductive zero (tree4 t0 k0 v0 t1 k1 v1 t2 k2 v2 t3) b lo hi s = elim b [ ]
  delete-Inductive (suc n) nil b lo hi s = elim b [ ]
  delete-Inductive (suc zero) (tree2 t0 k0 v0 t1) b lo hi s =
      leaf2-Deleted rank k lo hi t0 k0 v0 t1 b s
  delete-Inductive (suc zero) (tree3 t0 k0 v0 t1 k1 v1 t2) b lo hi s =
      leaf3-Deleted rank k lo hi t0 k0 v0 t1 k1 v1 t2 b s
  delete-Inductive (suc zero) (tree4 t0 k0 v0 t1 k1 v1 t2 k2 v2 t3) b lo hi s =
      leaf4-Deleted rank k lo hi t0 k0 v0 t1 k1 v1 t2 k2 v2 t3 b s
  delete-Inductive (suc (suc m)) (tree2 t0 k0 v0 t1) (b0, b1) lo hi s =
      node2-Deleted rank k m lo hi t0 k0 v0 t1 (delete-Inductive (suc m) t0 b0)
        (delete-Inductive (suc m) t1 b1) (b0, b1) s
  delete-Inductive (suc (suc m)) (tree3 t0 k0 v0 t1 k1 v1 t2) (b0, b1, b2) lo hi s =
      node3-Deleted rank k m lo hi t0 k0 v0 t1 k1 v1 t2 (delete-Inductive (suc m) t0 b0)
        (delete-Inductive (suc m) t1 b1) (delete-Inductive (suc m) t2 b2) (b0, b1, b2) s
  delete-Inductive (suc (suc m)) (tree4 t0 k0 v0 t1 k1 v1 t2 k2 v2 t3) (b0, b1, b2, b3) lo hi s =
      node4-Deleted rank k m lo hi t0 k0 v0 t1 k1 v1 t2 k2 v2 t3 (delete-Inductive (suc m) t0 b0)
        (delete-Inductive (suc m) t1 b1) (delete-Inductive (suc m) t2 b2)
        (delete-Inductive (suc m) t3 b3) (b0, b1, b2, b3) s

-- `tree_delete` from a balanced tree with sorted entries meets no `abort()`; it writes the value that
-- a search for the key finds, and the entries left, in a balanced tree of the same height or of one
-- level less, are those whose key has another rank.
pub tree_delete-Deleted :
    (rank : ℕ → ℕ) (k n lo hi : ℕ) (t : Tree)
    → Balanced n t
    → Sorted rank lo hi (entries t)
    → Deleted n (remove_entry rank k (entries t)) (find rank k (entries t)) (tree_delete rank t k)
tree_delete-Deleted rank k n lo hi t b s = delete-Inductive rank k n t b lo hi s
