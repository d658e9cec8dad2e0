-- ===== src/Tree/Delete/Nodes.antt =====
-- tree.c, deletion at an inner node: a tree2 and a tree3.
use smchr.Prelude.{ℕ, suc, inl, inr, false, ◌∷◌, ◌++◌, compare-cases}
use smchr.Tree.{Tree, tree2, tree3}
use smchr.Tree.Entries.{
  entries, Sorted, Balanced, Balanced-tree_isempty, Sorted-split, find-before, find-behind, find-at,
  remove-before, remove-behind, remove-at, find, remove_entry,
}
use smchr.Tree.Fix.{tree2_fix_t0, tree2_fix_t1, tree3_fix_t0, tree3_fix_t1, tree3_fix_t2}
use smchr.Tree.Fix.Correct.{
  tree2_fix_t0-Fixed, tree2_fix_t1-Fixed, tree3_fix_t0-Fixed, tree3_fix_t1-Fixed,
  tree3_fix_t2-Fixed,
}
use smchr.Tree.Delete.{tree_delete_2, tree_delete_min_2}
use smchr.Tree.Delete.Min.{tree_delete_min_2-Removed}
use smchr.Tree.Delete.Steps.{Deletes, refix-Deleted, with_min-Deleted}

module _ (rank : ℕ → ℕ) (k : ℕ) where
  -- What the recursive call on a subtree is assumed to do.
  abbrev pub Inductive : ℕ → Tree → Type 0
  Inductive n t = (lo hi : ℕ) → Sorted rank lo hi (entries t) → Deletes rank k n t

  pub node2-Deleted :
      (m lo hi : ℕ) (t0 : Tree) (k0 v0 : ℕ) (t1 : Tree)
      → Inductive (suc m) t0
      → Inductive (suc m) t1
      → Balanced (suc (suc m)) (tree2 t0 k0 v0 t1)
      → Sorted rank lo hi (entries (tree2 t0 k0 v0 t1))
      → Deletes rank k (suc (suc m)) (tree2 t0 k0 v0 t1)
  unfolding tree_delete_2
  node2-Deleted m lo hi t0 k0 v0 t1 i0 i1 (b0, b1) s =
      let e0 = entries t0 in
      let e1 = entries t1 in
      let (s0, s1) = Sorted-split rank lo hi k0 v0 e0 e1 s in
      elim (compare-cases (rank k) (rank k0)) [
        | inl (h, c) ↦
            rw
              (
                remove-before rank k k0 v0 hi e0 e1 s1 h,
                find-before rank k k0 v0 hi e0 e1 s1 h,
                tree_delete_2,
                c,
              )
              (refix-Deleted (suc m) (λ es. es ++ (k0, v0) ∷ e1) (remove_entry rank k e0)
                (find rank k e0) (tree_delete_2 rank t0 k false)
                (λ nt r. tree2_fix_t0 nt k0 v0 t1 r) (i0 lo (rank k0) s0)
                (λ nt r b. tree2_fix_t0-Fixed (suc m) nt k0 v0 t1 r b b1))
        | inr (inl (h, c)) ↦
            rw
              (
                remove-at rank k lo hi k0 v0 e0 e1 s0 s1 h,
                find-at rank k lo k0 v0 e0 e1 s0 h,
                tree_delete_2,
                c,
                Balanced-tree_isempty m t1 b1,
              )
              (with_min-Deleted (suc m) (λ es. e0 ++ es) e1 v0 (tree_delete_min_2 t1 false)
                (λ ks vs nt r. tree2_fix_t1 t0 ks vs nt r) (tree_delete_min_2-Removed m t1 b1)
                (λ ks vs nt r b. tree2_fix_t1-Fixed (suc m) t0 ks vs nt r b0 b))
        | inr (inr (h, c)) ↦
            rw
              (
                remove-behind rank k lo k0 v0 e0 e1 s0 h,
                find-behind rank k lo k0 v0 e0 e1 s0 h,
                tree_delete_2,
                c,
              )
              (refix-Deleted (suc m) (λ es. e0 ++ (k0, v0) ∷ es) (remove_entry rank k e1)
                (find rank k e1) (tree_delete_2 rank t1 k false)
                (λ nt r. tree2_fix_t1 t0 k0 v0 nt r) (i1 (suc (rank k0)) hi s1)
                (λ nt r b. tree2_fix_t1-Fixed (suc m) t0 k0 v0 nt r b0 b))
      ]

  pub node3-Deleted :
      (m lo hi : ℕ) (t0 : Tree) (k0 v0 : ℕ) (t1 : Tree) (k1 v1 : ℕ) (t2 : Tree)
      → Inductive (suc m) t0
      → Inductive (suc m) t1
      → Inductive (suc m) t2
      → Balanced (suc (suc m)) (tree3 t0 k0 v0 t1 k1 v1 t2)
      → Sorted rank lo hi (entries (tree3 t0 k0 v0 t1 k1 v1 t2))
      → Deletes rank k (suc (suc m)) (tree3 t0 k0 v0 t1 k1 v1 t2)
  unfolding tree_delete_2
  node3-Deleted m lo hi t0 k0 v0 t1 k1 v1 t2 i0 i1 i2 (b0, b1, b2) s =
      let e0 = entries t0 in
      let e1 = entries t1 in
      let e2 = entries t2 in
      let f0 = e1 ++ (k1, v1) ∷ e2 in
      let (s0, r0) = Sorted-split rank lo hi k0 v0 e0 f0 s in
      let (s1, s2) = Sorted-split rank (suc (rank k0)) hi k1 v1 e1 e2 r0 in
      elim (compare-cases (rank k) (rank k0)) [
        | inl (h, c) ↦
            rw
              (
                remove-before rank k k0 v0 hi e0 f0 r0 h,
                find-before rank k k0 v0 hi e0 f0 r0 h,
                tree_delete_2,
                c,
              )
              (refix-Deleted (suc m) (λ es. es ++ (k0, v0) ∷ f0) (remove_entry rank k e0)
                (find rank k e0) (tree_delete_2 rank t0 k false)
                (λ nt r. tree3_fix_t0 nt k0 v0 t1 k1 v1 t2 r) (i0 lo (rank k0) s0)
                (λ nt r b. tree3_fix_t0-Fixed (suc m) nt k0 v0 t1 k1 v1 t2 r b b1 b2))
        | inr (inl (h, c)) ↦
            rw
              (
                remove-at rank k lo hi k0 v0 e0 f0 s0 r0 h,
                find-at rank k lo k0 v0 e0 f0 s0 h,
                tree_delete_2,
                c,
                Balanced-tree_isempty m t1 b1,
              )
              (with_min-Deleted (suc m) (λ es. e0 ++ (es ++ (k1, v1) ∷ e2)) e1 v0
                (tree_delete_min_2 t1 false) (λ ks vs nt r. tree3_fix_t1 t0 ks vs nt k1 v1 t2 r)
                (tree_delete_min_2-Removed m t1 b1)
                (λ ks vs nt r b. tree3_fix_t1-Fixed (suc m) t0 ks vs nt k1 v1 t2 r b0 b b2))
        | inr (inr (h, c)) ↦ elim (compare-cases (rank k) (rank k1)) [
          | inl (g, d) ↦
              rw
                (
                  remove-behind rank k lo k0 v0 e0 f0 s0 h,
                  find-behind rank k lo k0 v0 e0 f0 s0 h,
                  remove-before rank k k1 v1 hi e1 e2 s2 g,
                  find-before rank k k1 v1 hi e1 e2 s2 g,
                  tree_delete_2,
                  c,
                  d,
                )
                (refix-Deleted (suc m) (λ es. e0 ++ (k0, v0) ∷ (es ++ (k1, v1) ∷ e2))
                  (remove_entry rank k e1) (find rank k e1) (tree_delete_2 rank t1 k false)
                  (λ nt r. tree3_fix_t1 t0 k0 v0 nt k1 v1 t2 r) (i1 (suc (rank k0)) (rank k1) s1)
                  (λ nt r b. tree3_fix_t1-Fixed (suc m) t0 k0 v0 nt k1 v1 t2 r b0 b b2))
          | inr (inl (g, d)) ↦
              rw
                (
                  remove-behind rank k lo k0 v0 e0 f0 s0 h,
                  find-behind rank k lo k0 v0 e0 f0 s0 h,
                  remove-at rank k (suc (rank k0)) hi k1 v1 e1 e2 s1 s2 g,
                  find-at rank k (suc (rank k0)) k1 v1 e1 e2 s1 g,
                  tree_delete_2,
                  c,
                  d,
                  Balanced-tree_isempty m t2 b2,
                )
                (with_min-Deleted (suc m) (λ es. e0 ++ (k0, v0) ∷ (e1 ++ es)) e2 v1
                  (tree_delete_min_2 t2 false) (λ ks vs nt r. tree3_fix_t2 t0 k0 v0 t1 ks vs nt r)
                  (tree_delete_min_2-Removed m t2 b2)
                  (λ ks vs nt r b. tree3_fix_t2-Fixed (suc m) t0 k0 v0 t1 ks vs nt r b0 b1 b))
          | inr (inr (g, d)) ↦
              rw
                (
                  remove-behind rank k lo k0 v0 e0 f0 s0 h,
                  find-behind rank k lo k0 v0 e0 f0 s0 h,
                  remove-behind rank k (suc (rank k0)) k1 v1 e1 e2 s1 g,
                  find-behind rank k (suc (rank k0)) k1 v1 e1 e2 s1 g,
                  tree_delete_2,
                  c,
                  d,
                )
                (refix-Deleted (suc m) (λ es. e0 ++ (k0, v0) ∷ (e1 ++ (k1, v1) ∷ es))
                  (remove_entry rank k e2) (find rank k e2) (tree_delete_2 rank t2 k false)
                  (λ nt r. tree3_fix_t2 t0 k0 v0 t1 k1 v1 nt r) (i2 (suc (rank k1)) hi s2)
                  (λ nt r b. tree3_fix_t2-Fixed (suc m) t0 k0 v0 t1 k1 v1 nt r b0 b1 b))
        ]
      ]
