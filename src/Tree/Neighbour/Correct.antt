-- ===== src/Tree/Neighbour/Correct.antt =====
-- tree.c: `tree_search_lt` and `tree_search_gt` against the entries of the tree.
use smchr.Prelude.{
  ℕ, suc, ◌≤◌, ◌<◌, ◌≡◌, refl, inl, inr, Option, none, some, List, [], ◌∷◌, ◌++◌, arith,
  compare-cases, ltb, if◌then◌else◌,
}
use smchr.Tree.{Tree, nil, tree2, tree3, tree4}
use smchr.Tree.Entries.{entries, Sorted, Sorted-split, Sorted-bounds}
use smchr.Tree.Neighbour.{or_else, tree_search_lt, tree_search_gt}

module _ (rank : ℕ → ℕ) where
  -- The last entry before the first whose rank is not below that of `k`.
  abbrev pub last_below : ℕ → List (ℕ × ℕ) → Option (ℕ × ℕ)
  last_below k [] = none
  last_below k ((a, w) ∷ es) =
      let rest = last_below k es in if ltb (rank a) (rank k) then or_else rest (a, w) else none

  -- The first entry whose rank is above that of `k`.
  abbrev pub first_above : ℕ → List (ℕ × ℕ) → Option (ℕ × ℕ)
  first_above k [] = none
  first_above k ((a, w) ∷ es) =
      let rest = first_above k es in if ltb (rank k) (rank a) then some (a, w) else rest

  below-behind :
      (k lo k0 v0 : ℕ) (xs ys : List (ℕ × ℕ))
      → Sorted rank lo (rank k0) xs
      → rank k0 < rank k
      → last_below k (xs ++ (k0, v0) ∷ ys) ≡ or_else (last_below k ys) (k0, v0)
  below-behind k lo k0 v0 [] ys s h = ground arith
  below-behind k lo k0 v0 ((a, w) ∷ xs) ys (g, s) h = ground (
    arith,
    Sorted-bounds rank (suc (rank a)) (rank k0) xs s,
    below-behind k (suc (rank a)) k0 v0 xs ys s h,
  )

  below-before :
      (k k0 v0 : ℕ) (xs ys : List (ℕ × ℕ))
      → rank k ≤ rank k0
      → last_below k (xs ++ (k0, v0) ∷ ys) ≡ last_below k xs
  below-before k k0 v0 [] ys h = ground arith
  below-before k k0 v0 ((a, w) ∷ xs) ys h = ground (arith, below-before k k0 v0 xs ys h)

  above-before :
      (k k0 v0 : ℕ) (xs ys : List (ℕ × ℕ))
      → rank k < rank k0
      → first_above k (xs ++ (k0, v0) ∷ ys) ≡ or_else (first_above k xs) (k0, v0)
  above-before k k0 v0 [] ys h = ground arith
  above-before k k0 v0 ((a, w) ∷ xs) ys h = ground (arith, above-before k k0 v0 xs ys h)

  above-behind :
      (k lo k0 v0 : ℕ) (xs ys : List (ℕ × ℕ))
      → Sorted rank lo (rank k0) xs
      → rank k0 ≤ rank k
      → first_above k (xs ++ (k0, v0) ∷ ys) ≡ first_above k ys
  above-behind k lo k0 v0 [] ys s h = ground arith
  above-behind k lo k0 v0 ((a, w) ∷ xs) ys (g, s) h = ground (
    arith,
    Sorted-bounds rank (suc (rank a)) (rank k0) xs s,
    above-behind k (suc (rank a)) k0 v0 xs ys s h,
  )

  tree_search_lt-tree4 :
      (k lo hi : ℕ) (t0 : Tree) (k0 v0 : ℕ) (t1 : Tree) (k1 v1 : ℕ) (t2 : Tree) (k2 v2 : ℕ)
      (t3 : Tree)
      → Sorted rank lo hi (entries (tree4 t0 k0 v0 t1 k1 v1 t2 k2 v2 t3))
      → tree_search_lt rank t0 k ≡ last_below k (entries t0)
      → tree_search_lt rank t1 k ≡ last_below k (entries t1)
      → tree_search_lt rank t2 k ≡ last_below k (entries t2)
      → tree_search_lt rank t3 k ≡ last_below k (entries t3)
      → tree_search_lt rank (tree4 t0 k0 v0 t1 k1 v1 t2 k2 v2 t3) k
        ≡ last_below k (entries (tree4 t0 k0 v0 t1 k1 v1 t2 k2 v2 t3))
  unfolding tree_search_lt
  tree_search_lt-tree4 k lo hi t0 k0 v0 t1 k1 v1 t2 k2 v2 t3 s h0 h1 h2 h3 =
      let e0 = entries t0 in
      let e1 = entries t1 in
      let e2 = entries t2 in
      let e3 = entries t3 in
      let f1 = e2 ++ (k2, v2) ∷ e3 in
      let f0 = e1 ++ (k1, v1) ∷ f1 in
      let (s0, r0) = Sorted-split rank lo hi k0 v0 e0 f0 s in
      let (s1, r1) = Sorted-split rank (suc (rank k0)) hi k1 v1 e1 f1 r0 in
      let (s2, s3) = Sorted-split rank (suc (rank k1)) hi k2 v2 e2 e3 r1 in
      let g = Sorted-bounds rank (suc (rank k0)) (rank k1) e1 s1 in
      let g' = Sorted-bounds rank (suc (rank k1)) (rank k2) e2 s2 in
      elim (compare-cases (rank k) (rank k1)) [
        | inl (h, c) ↦
            rw (tree_search_lt, c)
              (ground (
                arith,
                below-behind k lo k0 v0 e0 f0 s0,
                below-before k k0 v0 e0 f0,
                below-before k k1 v1 e1 f1,
              ))
        | inr (inl (h, c)) ↦
            rw (tree_search_lt, c)
              (ground (arith, g, below-behind k lo k0 v0 e0 f0 s0, below-before k k1 v1 e1 f1))
        | inr (inr (h, c)) ↦
            rw (tree_search_lt, c)
              (ground (
                arith,
                g,
                g',
                below-behind k lo k0 v0 e0 f0 s0,
                below-behind k (suc (rank k0)) k1 v1 e1 f1 s1,
                below-behind k (suc (rank k1)) k2 v2 e2 e3 s2,
                below-before k k2 v2 e2 e3,
              ))
      ]

  -- `tree_search_lt` in a sorted tree finds the last entry of a smaller rank, if there is one.
  pub tree_search_lt-entries :
      (k lo hi : ℕ) (t : Tree)
      → Sorted rank lo hi (entries t)
      → tree_search_lt rank t k ≡ last_below k (entries t)
  unfolding tree_search_lt
  tree_search_lt-entries k lo hi nil s = refl
  tree_search_lt-entries k lo hi (tree2 t0 k0 v0 t1) s =
      let e0 = entries t0 in
      let e1 = entries t1 in
      let (s0, s1) = Sorted-split rank lo hi k0 v0 e0 e1 s in
      ground (
        arith,
        tree_search_lt-entries k lo (rank k0) t0 s0,
        tree_search_lt-entries k (suc (rank k0)) hi t1 s1,
        below-behind k lo k0 v0 e0 e1 s0,
        below-before k k0 v0 e0 e1,
      )
  tree_search_lt-entries k lo hi (tree3 t0 k0 v0 t1 k1 v1 t2) s =
      let e0 = entries t0 in
      let e1 = entries t1 in
      let e2 = entries t2 in
      let f0 = e1 ++ (k1, v1) ∷ e2 in
      let (s0, r0) = Sorted-split rank lo hi k0 v0 e0 f0 s in
      let (s1, s2) = Sorted-split rank (suc (rank k0)) hi k1 v1 e1 e2 r0 in
      ground (
        arith,
        Sorted-bounds rank (suc (rank k0)) (rank k1) e1 s1,
        tree_search_lt-entries k lo (rank k0) t0 s0,
        tree_search_lt-entries k (suc (rank k0)) (rank k1) t1 s1,
        tree_search_lt-entries k (suc (rank k1)) hi t2 s2,
        below-behind k lo k0 v0 e0 f0 s0,
        below-behind k (suc (rank k0)) k1 v1 e1 e2 s1,
        below-before k k0 v0 e0 f0,
        below-before k k1 v1 e1 e2,
      )
  tree_search_lt-entries k lo hi (tree4 t0 k0 v0 t1 k1 v1 t2 k2 v2 t3) s =
      let e0 = entries t0 in
      let e1 = entries t1 in
      let e2 = entries t2 in
      let e3 = entries t3 in
      let f1 = e2 ++ (k2, v2) ∷ e3 in
      let f0 = e1 ++ (k1, v1) ∷ f1 in
      let (s0, r0) = Sorted-split rank lo hi k0 v0 e0 f0 s in
      let (s1, r1) = Sorted-split rank (suc (rank k0)) hi k1 v1 e1 f1 r0 in
      let (s2, s3) = Sorted-split rank (suc (rank k1)) hi k2 v2 e2 e3 r1 in
      tree_search_lt-tree4 k lo hi t0 k0 v0 t1 k1 v1 t2 k2 v2 t3 s
        (tree_search_lt-entries k lo (rank k0) t0 s0)
        (tree_search_lt-entries k (suc (rank k0)) (rank k1) t1 s1)
        (tree_search_lt-entries k (suc (rank k1)) (rank k2) t2 s2)
        (tree_search_lt-entries k (suc (rank k2)) hi t3 s3)

  tree_search_gt-tree4 :
      (k lo hi : ℕ) (t0 : Tree) (k0 v0 : ℕ) (t1 : Tree) (k1 v1 : ℕ) (t2 : Tree) (k2 v2 : ℕ)
      (t3 : Tree)
      → Sorted rank lo hi (entries (tree4 t0 k0 v0 t1 k1 v1 t2 k2 v2 t3))
      → tree_search_gt rank t0 k ≡ first_above k (entries t0)
      → tree_search_gt rank t1 k ≡ first_above k (entries t1)
      → tree_search_gt rank t2 k ≡ first_above k (entries t2)
      → tree_search_gt rank t3 k ≡ first_above k (entries t3)
      → tree_search_gt rank (tree4 t0 k0 v0 t1 k1 v1 t2 k2 v2 t3) k
        ≡ first_above k (entries (tree4 t0 k0 v0 t1 k1 v1 t2 k2 v2 t3))
  unfolding tree_search_gt
  tree_search_gt-tree4 k lo hi t0 k0 v0 t1 k1 v1 t2 k2 v2 t3 s h0 h1 h2 h3 =
      let e0 = entries t0 in
      let e1 = entries t1 in
      let e2 = entries t2 in
      let e3 = entries t3 in
      let f1 = e2 ++ (k2, v2) ∷ e3 in
      let f0 = e1 ++ (k1, v1) ∷ f1 in
      let (s0, r0) = Sorted-split rank lo hi k0 v0 e0 f0 s in
      let (s1, r1) = Sorted-split rank (suc (rank k0)) hi k1 v1 e1 f1 r0 in
      let (s2, s3) = Sorted-split rank (suc (rank k1)) hi k2 v2 e2 e3 r1 in
      let g = Sorted-bounds rank (suc (rank k0)) (rank k1) e1 s1 in
      let g' = Sorted-bounds rank (suc (rank k1)) (rank k2) e2 s2 in
      elim (compare-cases (rank k) (rank k1)) [
        | inl (h, c) ↦
            rw (tree_search_gt, c)
              (ground (
                arith,
                g,
                above-behind k lo k0 v0 e0 f0 s0,
                above-before k k0 v0 e0 f0,
                above-before k k1 v1 e1 f1,
              ))
        | inr (inl (h, c)) ↦
            rw (tree_search_gt, c)
              (ground (
                arith,
                g,
                g',
                above-behind k lo k0 v0 e0 f0 s0,
                above-behind k (suc (rank k0)) k1 v1 e1 f1 s1,
                above-behind k (suc (rank k1)) k2 v2 e2 e3 s2,
                above-before k k2 v2 e2 e3,
              ))
        | inr (inr (h, c)) ↦
            rw (tree_search_gt, c)
              (ground (
                arith,
                g,
                g',
                above-behind k lo k0 v0 e0 f0 s0,
                above-behind k (suc (rank k0)) k1 v1 e1 f1 s1,
                above-behind k (suc (rank k1)) k2 v2 e2 e3 s2,
                above-before k k2 v2 e2 e3,
              ))
      ]

  -- `tree_search_gt` in a sorted tree finds the first entry of a greater rank, if there is one.
  pub tree_search_gt-entries :
      (k lo hi : ℕ) (t : Tree)
      → Sorted rank lo hi (entries t)
      → tree_search_gt rank t k ≡ first_above k (entries t)
  unfolding tree_search_gt
  tree_search_gt-entries k lo hi nil s = refl
  tree_search_gt-entries k lo hi (tree2 t0 k0 v0 t1) s =
      let e0 = entries t0 in
      let e1 = entries t1 in
      let (s0, s1) = Sorted-split rank lo hi k0 v0 e0 e1 s in
      ground (
        arith,
        tree_search_gt-entries k lo (rank k0) t0 s0,
        tree_search_gt-entries k (suc (rank k0)) hi t1 s1,
        above-behind k lo k0 v0 e0 e1 s0,
        above-before k k0 v0 e0 e1,
      )
  tree_search_gt-entries k lo hi (tree3 t0 k0 v0 t1 k1 v1 t2) s =
      let e0 = entries t0 in
      let e1 = entries t1 in
      let e2 = entries t2 in
      let f0 = e1 ++ (k1, v1) ∷ e2 in
      let (s0, r0) = Sorted-split rank lo hi k0 v0 e0 f0 s in
      let (s1, s2) = Sorted-split rank (suc (rank k0)) hi k1 v1 e1 e2 r0 in
      ground (
        arith,
        Sorted-bounds rank (suc (rank k0)) (rank k1) e1 s1,
        tree_search_gt-entries k lo (rank k0) t0 s0,
        tree_search_gt-entries k (suc (rank k0)) (rank k1) t1 s1,
        tree_search_gt-entries k (suc (rank k1)) hi t2 s2,
        above-behind k lo k0 v0 e0 f0 s0,
        above-behind k (suc (rank k0)) k1 v1 e1 e2 s1,
        above-before k k0 v0 e0 f0,
        above-before k k1 v1 e1 e2,
      )
  tree_search_gt-entries k lo hi (tree4 t0 k0 v0 t1 k1 v1 t2 k2 v2 t3) s =
      let e0 = entries t0 in
      let e1 = entries t1 in
      let e2 = entries t2 in
      let e3 = entries t3 in
      let f1 = e2 ++ (k2, v2) ∷ e3 in
      let f0 = e1 ++ (k1, v1) ∷ f1 in
      let (s0, r0) = Sorted-split rank lo hi k0 v0 e0 f0 s in
      let (s1, r1) = Sorted-split rank (suc (rank k0)) hi k1 v1 e1 f1 r0 in
      let (s2, s3) = Sorted-split rank (suc (rank k1)) hi k2 v2 e2 e3 r1 in
      tree_search_gt-tree4 k lo hi t0 k0 v0 t1 k1 v1 t2 k2 v2 t3 s
        (tree_search_gt-entries k lo (rank k0) t0 s0)
        (tree_search_gt-entries k (suc (rank k0)) (rank k1) t1 s1)
        (tree_search_gt-entries k (suc (rank k1)) (rank k2) t2 s2)
        (tree_search_gt-entries k (suc (rank k2)) hi t3 s3)
