-- ===== src/Tree/Delete/Node4.antt =====
-- tree.c, deletion at an inner node: a tree4.
use smchr.Prelude.{ℕ, suc, inl, inr, false, ◌∷◌, ◌++◌, arith, compare-cases}
use smchr.Tree.{Tree, tree4}
use smchr.Tree.Entries.{
  entries, Sorted, Balanced, Balanced-tree_isempty, Sorted-split, Sorted-bounds, find-before,
  find-behind, find-at, remove-before, remove-behind, remove-at, find, remove_entry,
}
use smchr.Tree.Fix.{tree4_fix_t0, tree4_fix_t1, tree4_fix_t2, tree4_fix_t3}
use smchr.Tree.Fix.Correct.{
  tree4_fix_t0-Fixed, tree4_fix_t1-Fixed, tree4_fix_t2-Fixed, tree4_fix_t3-Fixed,
}
use smchr.Tree.Delete.Nodes.{Inductive}
use smchr.Tree.Delete.{tree_delete_2, tree_delete_min_2}
use smchr.Tree.Delete.Min.{tree_delete_min_2-Removed}
use smchr.Tree.Delete.Steps.{Deletes, refix-Deleted, with_min-Deleted}

module _ (rank : ℕ → ℕ) (k : ℕ) where
  pub node4-Deleted :
      (m lo hi : ℕ) (t0 : Tree) (k0 v0 : ℕ) (t1 : Tree) (k1 v1 : ℕ) (t2 : Tree) (k2 v2 : ℕ)
      (t3 : Tree)
      → Inductive rank k (suc m) t0
      → Inductive rank k (suc m) t1
      → Inductive rank k (suc m) t2
      → Inductive rank k (suc m) t3
      → Balanced (suc (suc m)) (tree4 t0 k0 v0 t1 k1 v1 t2 k2 v2 t3)
      → Sorted rank lo hi (entries (tree4 t0 k0 v0 t1 k1 v1 t2 k2 v2 t3))
      → Deletes rank k (suc (suc m)) (tree4 t0 k0 v0 t1 k1 v1 t2 k2 v2 t3)
  unfolding tree_delete_2
  node4-Deleted m lo hi t0 k0 v0 t1 k1 v1 t2 k2 v2 t3 i0 i1 i2 i3 (b0, b1, b2, b3) s =
      let e0 = entries t0 in
      let e1 = entries t1 in
      let e2 = entries t2 in
      let e3 = entries t3 in
      let f1 = e2 ++ (k2, v2) ∷ e3 in
      let f0 = e1 ++ (k1, v1) ∷ f1 in
      let (s0, r0) = Sorted-split rank lo hi k0 v0 e0 f0 s in
      let (s1, r1) = Sorted-split rank (suc (rank k0)) hi k1 v1 e1 f1 r0 in
      let (s2, s3) = Sorted-split rank (suc (rank k1)) hi k2 v2 e2 e3 r1 in
      let g1 = Sorted-bounds rank (suc (rank k0)) (rank k1) e1 s1 in
      let g2 = Sorted-bounds rank (suc (rank k1)) (rank k2) e2 s2 in
      elim (compare-cases (rank k) (rank k1)) [
        | inl (h, c) ↦ elim (compare-cases (rank k) (rank k0)) [
          | inl (g, d) ↦
              rw
                (
                  remove-before rank k k0 v0 hi e0 f0 r0 g,
                  find-before rank k k0 v0 hi e0 f0 r0 g,
                  tree_delete_2,
                  c,
                  d,
                )
                (refix-Deleted (suc m) (λ es. es ++ (k0, v0) ∷ f0) (remove_entry rank k e0)
                  (find rank k e0) (tree_delete_2 rank t0 k false)
                  (λ nt r. tree4_fix_t0 nt k0 v0 t1 k1 v1 t2 k2 v2 t3 r) (i0 lo (rank k0) s0)
                  (λ nt r b. tree4_fix_t0-Fixed (suc m) nt k0 v0 t1 k1 v1 t2 k2 v2 t3 r b b1 b2 b3))
          | inr (inl (g, d)) ↦
              rw
                (
                  remove-at rank k lo hi k0 v0 e0 f0 s0 r0 g,
                  find-at rank k lo k0 v0 e0 f0 s0 g,
                  tree_delete_2,
                  c,
                  d,
                  Balanced-tree_isempty m t1 b1,
                )
                (with_min-Deleted (suc m) (λ es. e0 ++ (es ++ (k1, v1) ∷ f1)) e1 v0
                  (tree_delete_min_2 t1 false)
                  (λ ks vs nt r. tree4_fix_t1 t0 ks vs nt k1 v1 t2 k2 v2 t3 r)
                  (tree_delete_min_2-Removed m t1 b1)
                  (λ ks vs nt r b.
                    tree4_fix_t1-Fixed (suc m) t0 ks vs nt k1 v1 t2 k2 v2 t3 r b0 b b2 b3))
          | inr (inr (g, d)) ↦
              rw
                (
                  remove-behind rank k lo k0 v0 e0 f0 s0 g,
                  find-behind rank k lo k0 v0 e0 f0 s0 g,
                  remove-before rank k k1 v1 hi e1 f1 r1 h,
                  find-before rank k k1 v1 hi e1 f1 r1 h,
                  tree_delete_2,
                  c,
                  d,
                )
                (refix-Deleted (suc m) (λ es. e0 ++ (k0, v0) ∷ (es ++ (k1, v1) ∷ f1))
                  (remove_entry rank k e1) (find rank k e1) (tree_delete_2 rank t1 k false)
                  (λ nt r. tree4_fix_t1 t0 k0 v0 nt k1 v1 t2 k2 v2 t3 r)
                  (i1 (suc (rank k0)) (rank k1) s1)
                  (λ nt r b. tree4_fix_t1-Fixed (suc m) t0 k0 v0 nt k1 v1 t2 k2 v2 t3 r b0 b b2 b3))
        ]
        | inr (inl (h, c)) ↦
            rw
              (
                remove-behind rank k lo k0 v0 e0 f0 s0 (omega (arith, g1)),
                find-behind rank k lo k0 v0 e0 f0 s0 (omega (arith, g1)),
                remove-at rank k (suc (rank k0)) hi k1 v1 e1 f1 s1 r1 h,
                find-at rank k (suc (rank k0)) k1 v1 e1 f1 s1 h,
                tree_delete_2,
                c,
                Balanced-tree_isempty m t2 b2,
              )
              (with_min-Deleted (suc m) (λ es. e0 ++ (k0, v0) ∷ (e1 ++ (es ++ (k2, v2) ∷ e3))) e2 v1
                (tree_delete_min_2 t2 false)
                (λ ks vs nt r. tree4_fix_t2 t0 k0 v0 t1 ks vs nt k2 v2 t3 r)
                (tree_delete_min_2-Removed m t2 b2)
                (λ ks vs nt r b.
                  tree4_fix_t2-Fixed (suc m) t0 k0 v0 t1 ks vs nt k2 v2 t3 r b0 b1 b b3))
        | inr (inr (h, c)) ↦ elim (compare-cases (rank k) (rank k2)) [
          | inl (g, d) ↦
              rw
                (
                  remove-behind rank k lo k0 v0 e0 f0 s0 (omega (arith, g1)),
                  find-behind rank k lo k0 v0 e0 f0 s0 (omega (arith, g1)),
                  remove-behind rank k (suc (rank k0)) k1 v1 e1 f1 s1 h,
                  find-behind rank k (suc (rank k0)) k1 v1 e1 f1 s1 h,
                  remove-before rank k k2 v2 hi e2 e3 s3 g,
                  find-before rank k k2 v2 hi e2 e3 s3 g,
                  tree_delete_2,
                  c,
                  d,
                )
                (refix-Deleted (suc m)
                  (λ es. e0 ++ (k0, v0) ∷ (e1 ++ (k1, v1) ∷ (es ++ (k2, v2) ∷ e3)))
                  (remove_entry rank k e2) (find rank k e2) (tree_delete_2 rank t2 k false)
                  (λ nt r. tree4_fix_t2 t0 k0 v0 t1 k1 v1 nt k2 v2 t3 r)
                  (i2 (suc (rank k1)) (rank k2) s2)
                  (λ nt r b. tree4_fix_t2-Fixed (suc m) t0 k0 v0 t1 k1 v1 nt k2 v2 t3 r b0 b1 b b3))
          | inr (inl (g, d)) ↦
              rw
                (
                  remove-behind rank k lo k0 v0 e0 f0 s0 (omega (arith, g1)),
                  find-behind rank k lo k0 v0 e0 f0 s0 (omega (arith, g1)),
                  remove-behind rank k (suc (rank k0)) k1 v1 e1 f1 s1 h,
                  find-behind rank k (suc (rank k0)) k1 v1 e1 f1 s1 h,
                  remove-at rank k (suc (rank k1)) hi k2 v2 e2 e3 s2 s3 g,
                  find-at rank k (suc (rank k1)) k2 v2 e2 e3 s2 g,
                  tree_delete_2,
                  c,
                  d,
                  Balanced-tree_isempty m t3 b3,
                )
                (with_min-Deleted (suc m) (λ es. e0 ++ (k0, v0) ∷ (e1 ++ (k1, v1) ∷ (e2 ++ es))) e3
                  v2 (tree_delete_min_2 t3 false)
                  (λ ks vs nt r. tree4_fix_t3 t0 k0 v0 t1 k1 v1 t2 ks vs nt r)
                  (tree_delete_min_2-Removed m t3 b3)
                  (λ ks vs nt r b.
                    tree4_fix_t3-Fixed (suc m) t0 k0 v0 t1 k1 v1 t2 ks vs nt r b0 b1 b2 b))
          | inr (inr (g, d)) ↦
              rw
                (
                  remove-behind rank k lo k0 v0 e0 f0 s0 (omega (arith, g1)),
                  find-behind rank k lo k0 v0 e0 f0 s0 (omega (arith, g1)),
                  remove-behind rank k (suc (rank k0)) k1 v1 e1 f1 s1 h,
                  find-behind rank k (suc (rank k0)) k1 v1 e1 f1 s1 h,
                  remove-behind rank k (suc (rank k1)) k2 v2 e2 e3 s2 g,
                  find-behind rank k (suc (rank k1)) k2 v2 e2 e3 s2 g,
                  tree_delete_2,
                  c,
                  d,
                )
                (refix-Deleted (suc m)
                  (λ es. e0 ++ (k0, v0) ∷ (e1 ++ (k1, v1) ∷ (e2 ++ (k2, v2) ∷ es)))
                  (remove_entry rank k e3) (find rank k e3) (tree_delete_2 rank t3 k false)
                  (λ nt r. tree4_fix_t3 t0 k0 v0 t1 k1 v1 t2 k2 v2 nt r) (i3 (suc (rank k2)) hi s3)
                  (λ nt r b. tree4_fix_t3-Fixed (suc m) t0 k0 v0 t1 k1 v1 t2 k2 v2 nt r b0 b1 b2 b))
        ]
      ]
