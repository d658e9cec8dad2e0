-- ===== src/Tree/Insert/Correct.antt =====
-- tree.c: insertion into balanced sorted trees, and their lists of entries.
use smchr.Prelude.{ℕ, zero, suc, ◌≡◌, refl, sym, inl, inr, Option, ◌∷◌, ◌++◌, arith, compare-cases}
use mathlib.Core.List.{append_assoc}
use smchr.Tree.{Tree, nil, tree2, tree3, tree4, tree_depth}
use smchr.Tree.Entries.{
  entries, Sorted, Balanced, Balanced-nil, Balanced-tree_isempty, insert_entry, Sorted-split,
  insert-before, insert-behind, insert-at,
}
use smchr.Tree.Insert.{insert_child, insert_node, tree2_insert, tree3_insert, tree_insert}
use smchr.Tree.Insert.Rebuild.{
  Inserted, InsertedChild, TwoOrThree, same_child_of-Inserted, left_of-Inserted, right_of-Inserted,
  put2_t0-Inserted, put2_t1-Inserted, put3_t0-Inserted, put3_t1-Inserted, put3_t2-Inserted,
}

module _ (rank : ℕ → ℕ) (k v : ℕ) where
  -- What the recursive calls are assumed to do.
  abbrev Inserts : ℕ → (Tree → Option Tree) → Type 0
  Inserts n insert =
      (lo hi : ℕ) (t : Tree)
      → Balanced n t
      → TwoOrThree t
      → Sorted rank lo hi (entries t)
      → Inserted n (insert_entry rank k v (entries t)) (insert t)

  child-Inserted :
      (n : ℕ) (insert : Tree → Option Tree) (lo hi : ℕ) (t : Tree)
      → Inserts (suc n) insert
      → Balanced (suc n) t
      → Sorted rank lo hi (entries t)
      → InsertedChild (suc n) (insert_entry rank k v (entries t)) (insert_child rank insert t k v)
  unfolding insert_child
  child-Inserted n insert lo hi nil ih b s = elim b [ ]
  child-Inserted n insert lo hi (tree2 t0 k0 v0 t1) ih b s =
      let t = tree2 t0 k0 v0 t1 in
      same_child_of-Inserted (suc n) (insert_entry rank k v (entries t)) (insert t)
        (ih lo hi t b tt s)
  child-Inserted n insert lo hi (tree3 t0 k0 v0 t1 k1 v1 t2) ih b s =
      let t = tree3 t0 k0 v0 t1 k1 v1 t2 in
      same_child_of-Inserted (suc n) (insert_entry rank k v (entries t)) (insert t)
        (ih lo hi t b tt s)
  child-Inserted n insert lo hi (tree4 t0 k0 v0 t1 k1 v1 t2 k2 v2 t3) ih (b0, b1, b2, b3) s =
      let lt = tree2 t0 k0 v0 t1 in
      let rt = tree2 t2 k2 v2 t3 in
      let el = entries lt in
      let er = entries rt in
      let e : entries (tree4 t0 k0 v0 t1 k1 v1 t2 k2 v2 t3) ≡ el ++ (k1, v1) ∷ er =
        simp append_assoc in
      let (sl, sr) = Sorted-split rank lo hi k1 v1 el er (rw (sym e) s) in
      elim (compare-cases (rank k) (rank k1)) [
        | inl (h, c) ↦
            rw (e, insert-before rank k v k1 v1 el er h, insert_child, c)
              (left_of-Inserted (suc n) (insert_entry rank k v el)
                (insert_entry rank k v el ++ (k1, v1) ∷ er) (insert lt) k1 v1 rt
                (ih lo (rank k1) lt (b0, b1) tt sl) (b2, b3) refl)
        | inr (inl (h, c)) ↦
            rw (e, insert-at rank k v lo k1 v1 el er sl h, insert_child, c)
              ((b0, b1), (b2, b3), refl)
        | inr (inr (h, c)) ↦
            rw (e, insert-behind rank k v lo k1 v1 el er sl h, insert_child, c)
              (right_of-Inserted (suc n) (insert_entry rank k v er)
                (el ++ (k1, v1) ∷ insert_entry rank k v er) lt k1 v1 (insert rt) (b0, b1)
                (ih (suc (rank k1)) hi rt (b2, b3) tt sr) refl)
      ]

  -- tree2_insert, at a leaf and at an inner node whose subtrees have height n + 1.
  node2-Inserted :
      (n lo hi : ℕ) (t0 : Tree) (k0 v0 : ℕ) (t1 : Tree)
      → ((m : ℕ) → n ≡ suc m → Inserts n (insert_node rank n k v))
      → Balanced (suc n) (tree2 t0 k0 v0 t1)
      → Sorted rank lo hi (entries (tree2 t0 k0 v0 t1))
      → Inserted
          (suc n)
          (insert_entry rank k v (entries (tree2 t0 k0 v0 t1)))
          (insert_node rank (suc n) k v (tree2 t0 k0 v0 t1))
  unfolding insert_node
  node2-Inserted zero lo hi t0 k0 v0 t1 ih (b0, b1) s =
      rw (Balanced-nil t0 b0, Balanced-nil t1 b1) (ground arith)
  node2-Inserted (suc m) lo hi t0 k0 v0 t1 ih (b0, b1) s =
      let insert = insert_node rank (suc m) k v in
      let e0 = entries t0 in
      let e1 = entries t1 in
      let (s0, s1) = Sorted-split rank lo hi k0 v0 e0 e1 s in
      let c0 = insert_child rank insert t0 k v in
      let c1 = insert_child rank insert t1 k v in
      let ne = Balanced-tree_isempty m t0 b0 in
      elim (compare-cases (rank k) (rank k0)) [
        | inl (h, c) ↦
            rw (insert-before rank k v k0 v0 e0 e1 h, insert_node, tree2_insert, ne, c)
              (put2_t0-Inserted (suc m) (insert_entry rank k v e0)
                (insert_entry rank k v e0 ++ (k0, v0) ∷ e1) c0 k0 v0 t1
                (child-Inserted m insert lo (rank k0) t0 (ih m refl) b0 s0) b1 refl)
        | inr (inl (h, c)) ↦
            rw (insert-at rank k v lo k0 v0 e0 e1 s0 h, insert_node, tree2_insert, ne, c)
              ((b0, b1), refl)
        | inr (inr (h, c)) ↦
            rw (insert-behind rank k v lo k0 v0 e0 e1 s0 h, insert_node, tree2_insert, ne, c)
              (put2_t1-Inserted (suc m) (insert_entry rank k v e1)
                (e0 ++ (k0, v0) ∷ insert_entry rank k v e1) t0 k0 v0 c1 b0
                (child-Inserted m insert (suc (rank k0)) hi t1 (ih m refl) b1 s1) refl)
      ]

  -- tree3_insert.
  node3-Inserted :
      (n lo hi : ℕ) (t0 : Tree) (k0 v0 : ℕ) (t1 : Tree) (k1 v1 : ℕ) (t2 : Tree)
      → ((m : ℕ) → n ≡ suc m → Inserts n (insert_node rank n k v))
      → Balanced (suc n) (tree3 t0 k0 v0 t1 k1 v1 t2)
      → Sorted rank lo hi (entries (tree3 t0 k0 v0 t1 k1 v1 t2))
      → Inserted
          (suc n)
          (insert_entry rank k v (entries (tree3 t0 k0 v0 t1 k1 v1 t2)))
          (insert_node rank (suc n) k v (tree3 t0 k0 v0 t1 k1 v1 t2))
  unfolding insert_node
  node3-Inserted zero lo hi t0 k0 v0 t1 k1 v1 t2 ih (b0, b1, b2) s =
      rw (Balanced-nil t0 b0, Balanced-nil t1 b1, Balanced-nil t2 b2) (ground arith)
  node3-Inserted (suc m) lo hi t0 k0 v0 t1 k1 v1 t2 ih (b0, b1, b2) s =
      let insert = insert_node rank (suc m) k v in
      let e0 = entries t0 in
      let e1 = entries t1 in
      let e2 = entries t2 in
      let r0 = e1 ++ (k1, v1) ∷ e2 in
      let (s0, r) = Sorted-split rank lo hi k0 v0 e0 r0 s in
      let (s1, s2) = Sorted-split rank (suc (rank k0)) hi k1 v1 e1 e2 r in
      let c0 = insert_child rank insert t0 k v in
      let c1 = insert_child rank insert t1 k v in
      let c2 = insert_child rank insert t2 k v in
      let ne = Balanced-tree_isempty m t0 b0 in
      elim (compare-cases (rank k) (rank k0)) [
        | inl (h, c) ↦
            rw (insert-before rank k v k0 v0 e0 r0 h, insert_node, tree3_insert, ne, c)
              (put3_t0-Inserted (suc m) (insert_entry rank k v e0)
                (insert_entry rank k v e0 ++ (k0, v0) ∷ r0) c0 k0 v0 t1 k1 v1 t2
                (child-Inserted m insert lo (rank k0) t0 (ih m refl) b0 s0) b1 b2 refl)
        | inr (inl (h, c)) ↦
            rw (insert-at rank k v lo k0 v0 e0 r0 s0 h, insert_node, tree3_insert, ne, c)
              ((b0, b1, b2), refl)
        | inr (inr (h, c)) ↦ elim (compare-cases (rank k) (rank k1)) [
          | inl (h1, d) ↦
              rw
                (
                  insert-behind rank k v lo k0 v0 e0 r0 s0 h,
                  insert-before rank k v k1 v1 e1 e2 h1,
                  insert_node,
                  tree3_insert,
                  ne,
                  c,
                  d,
                )
                (put3_t1-Inserted (suc m) (insert_entry rank k v e1)
                  (e0 ++ (k0, v0) ∷ (insert_entry rank k v e1 ++ (k1, v1) ∷ e2)) t0 k0 v0 c1 k1 v1
                  t2 b0 (child-Inserted m insert (suc (rank k0)) (rank k1) t1 (ih m refl) b1 s1) b2
                  refl)
          | inr (inl (h1, d)) ↦
              rw
                (
                  insert-behind rank k v lo k0 v0 e0 r0 s0 h,
                  insert-at rank k v (suc (rank k0)) k1 v1 e1 e2 s1 h1,
                  insert_node,
                  tree3_insert,
                  ne,
                  c,
                  d,
                )
                ((b0, b1, b2), refl)
          | inr (inr (h1, d)) ↦
              rw
                (
                  insert-behind rank k v lo k0 v0 e0 r0 s0 h,
                  insert-behind rank k v (suc (rank k0)) k1 v1 e1 e2 s1 h1,
                  insert_node,
                  tree3_insert,
                  ne,
                  c,
                  d,
                )
                (put3_t2-Inserted (suc m) (insert_entry rank k v e2)
                  (e0 ++ (k0, v0) ∷ (e1 ++ (k1, v1) ∷ insert_entry rank k v e2)) t0 k0 v0 t1 k1 v1
                  c2 b0 b1 (child-Inserted m insert (suc (rank k1)) hi t2 (ih m refl) b2 s2) refl)
        ]
      ]

  node-Inserted : (n : ℕ) → Inserts n (insert_node rank n k v)
  node-Inserted zero lo hi nil b w s = elim w [ ]
  node-Inserted zero lo hi (tree2 t0 k0 v0 t1) b w s = elim b [ ]
  node-Inserted zero lo hi (tree3 t0 k0 v0 t1 k1 v1 t2) b w s = elim b [ ]
  node-Inserted zero lo hi (tree4 t0 k0 v0 t1 k1 v1 t2 k2 v2 t3) b w s = elim b [ ]
  node-Inserted (suc n) lo hi nil b w s = elim w [ ]
  node-Inserted (suc n) lo hi (tree2 t0 k0 v0 t1) b w s =
      node2-Inserted n lo hi t0 k0 v0 t1 (λ _ _. node-Inserted n) b s
  node-Inserted (suc n) lo hi (tree3 t0 k0 v0 t1 k1 v1 t2) b w s =
      node3-Inserted n lo hi t0 k0 v0 t1 k1 v1 t2 (λ _ _. node-Inserted n) b s
  node-Inserted (suc n) lo hi (tree4 t0 k0 v0 t1 k1 v1 t2 k2 v2 t3) b w s = elim w [ ]

Balanced-tree_depth : (n : ℕ) (t : Tree) → Balanced n t → tree_depth t ≡ n
unfolding tree_depth
Balanced-tree_depth zero nil b = refl
Balanced-tree_depth zero (tree2 t0 k0 v0 t1) b = elim b [ ]
Balanced-tree_depth zero (tree3 t0 k0 v0 t1 k1 v1 t2) b = elim b [ ]
Balanced-tree_depth zero (tree4 t0 k0 v0 t1 k1 v1 t2 k2 v2 t3) b = elim b [ ]
Balanced-tree_depth (suc n) nil b = elim b [ ]
Balanced-tree_depth (suc n) (tree2 t0 k0 v0 t1) (b, _) = omega (arith, Balanced-tree_depth n t0 b)
Balanced-tree_depth (suc n) (tree3 t0 k0 v0 t1 k1 v1 t2) (b, _, _) =
    omega (arith, Balanced-tree_depth n t0 b)
Balanced-tree_depth (suc n) (tree4 t0 k0 v0 t1 k1 v1 t2 k2 v2 t3) (b, _, _, _) =
    omega (arith, Balanced-tree_depth n t0 b)

-- The height of the tree after an insertion: it grows when the root is a tree4 or empty.
abbrev pub grown : ℕ → Tree → ℕ
grown n nil = suc n
grown n (tree4 t0 k0 v0 t1 k1 v1 t2 k2 v2 t3) = suc n
grown n _ = n

-- `tree_insert` into a balanced tree with sorted entries meets no `abort()`; the result is balanced,
-- one level higher only if the root was empty or full, and its entries are those before with the
-- new one at its place, or in place of the one with a key of the same rank.
pub tree_insert-Inserted :
    (rank : ℕ → ℕ) (k v n lo hi : ℕ) (t : Tree)
    → Balanced n t
    → Sorted rank lo hi (entries t)
    → Inserted (grown n t) (insert_entry rank k v (entries t)) (tree_insert rank t k v)
unfolding tree_insert
tree_insert-Inserted rank k v zero lo hi nil b s = ((tt, tt), refl)
tree_insert-Inserted rank k v (suc n) lo hi nil b s = elim b [ ]
tree_insert-Inserted rank k v n lo hi (tree2 t0 k0 v0 t1) b s =
    rw (Balanced-tree_depth n (tree2 t0 k0 v0 t1) b)
      (node-Inserted rank k v n lo hi (tree2 t0 k0 v0 t1) b tt s)
tree_insert-Inserted rank k v n lo hi (tree3 t0 k0 v0 t1 k1 v1 t2) b s =
    rw (Balanced-tree_depth n (tree3 t0 k0 v0 t1 k1 v1 t2) b)
      (node-Inserted rank k v n lo hi (tree3 t0 k0 v0 t1 k1 v1 t2) b tt s)
tree_insert-Inserted rank k v zero lo hi (tree4 t0 k0 v0 t1 k1 v1 t2 k2 v2 t3) b s = elim b [ ]
tree_insert-Inserted rank k v (suc n) lo hi (tree4 t0 k0 v0 t1 k1 v1 t2 k2 v2 t3) (b0, b1, b2, b3)
      s =
    let nt = tree2 (tree2 t0 k0 v0 t1) k1 v1 (tree2 t2 k2 v2 t3) in
    let b : Balanced (suc (suc n)) nt = ((b0, b1), (b2, b3)) in
    let e : entries (tree4 t0 k0 v0 t1 k1 v1 t2 k2 v2 t3) ≡ entries nt = simp append_assoc in
    rw (Balanced-tree_depth (suc (suc n)) nt b, e)
      (node-Inserted rank k v (suc (suc n)) lo hi nt b tt (rw (sym e) s))
