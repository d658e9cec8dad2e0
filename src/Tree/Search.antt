-- ===== src/Tree/Search.antt =====
-- tree.c: `tree_search`, `tree_search_min` and `tree_size` against the entries of the tree.
use smchr.Prelude.{
  ℕ, suc, ◌≡◌, refl, sym, ◌∙◌, Option, none, some, List, [], ◌∷◌, ◌++◌, arith, length,
  length-append, true, false,
}
use smchr.Tree.{
  Tree, nil, tree2, tree3, tree4, tree_search, tree_search_min, tree_size, tree_isempty,
}
use smchr.Tree.Entries.{entries, Sorted, find, Sorted-split, find-before, find-after, Sorted-bounds}

module _ (rank : ℕ → ℕ) where
  -- `tree_search` in a sorted tree finds the value of the entry with a key of the same rank, and
  -- fails when there is none.
  pub tree_search-entries :
      (lo hi : ℕ) (t : Tree) (k : ℕ)
      → Sorted rank lo hi (entries t)
      → tree_search rank t k ≡ find rank k (entries t)
  unfolding tree_search
  tree_search-entries lo hi nil k s = refl
  tree_search-entries lo hi (tree2 t0 k0 v0 t1) k s =
      let (s0, s1) = Sorted-split rank lo hi k0 v0 (entries t0) (entries t1) s in
      let e1 = (k0, v0) ∷ entries t1 in
      ground (
        arith,
        tree_search-entries lo (rank k0) t0 k s0,
        tree_search-entries (suc (rank k0)) hi t1 k s1,
        find-before rank k k0 v0 hi (entries t0) (entries t1) s1,
        find-after rank k lo (rank k0) (entries t0) e1 s0,
      )
  tree_search-entries lo hi (tree3 t0 k0 v0 t1 k1 v1 t2) k s =
      let e2 = (k1, v1) ∷ entries t2 in
      let e1 = (k0, v0) ∷ (entries t1 ++ e2) in
      let (s0, r) = Sorted-split rank lo hi k0 v0 (entries t0) (entries t1 ++ e2) s in
      let (s1, s2) = Sorted-split rank (suc (rank k0)) hi k1 v1 (entries t1) (entries t2) r in
      ground (
        arith,
        tree_search-entries lo (rank k0) t0 k s0,
        tree_search-entries (suc (rank k0)) (rank k1) t1 k s1,
        tree_search-entries (suc (rank k1)) hi t2 k s2,
        Sorted-bounds rank (suc (rank k0)) (rank k1) (entries t1) s1,
        find-before rank k k0 v0 hi (entries t0) (entries t1 ++ e2) r,
        find-before rank k k1 v1 hi (entries t1) (entries t2) s2,
        find-after rank k lo (rank k0) (entries t0) e1 s0,
        find-after rank k (suc (rank k0)) (rank k1) (entries t1) e2 s1,
      )
  tree_search-entries lo hi (tree4 t0 k0 v0 t1 k1 v1 t2 k2 v2 t3) k s =
      let e3 = (k2, v2) ∷ entries t3 in
      let e2 = (k1, v1) ∷ (entries t2 ++ e3) in
      let e1 = (k0, v0) ∷ (entries t1 ++ e2) in
      let (s0, r) = Sorted-split rank lo hi k0 v0 (entries t0) (entries t1 ++ e2) s in
      let (s1, q) = Sorted-split rank (suc (rank k0)) hi k1 v1 (entries t1) (entries t2 ++ e3) r in
      let (s2, s3) = Sorted-split rank (suc (rank k1)) hi k2 v2 (entries t2) (entries t3) q in
      ground (
        arith,
        tree_search-entries lo (rank k0) t0 k s0,
        tree_search-entries (suc (rank k0)) (rank k1) t1 k s1,
        tree_search-entries (suc (rank k1)) (rank k2) t2 k s2,
        tree_search-entries (suc (rank k2)) hi t3 k s3,
        Sorted-bounds rank (suc (rank k0)) (rank k1) (entries t1) s1,
        Sorted-bounds rank (suc (rank k1)) (rank k2) (entries t2) s2,
        find-before rank k k0 v0 hi (entries t0) (entries t1 ++ e2) r,
        find-before rank k k1 v1 hi (entries t1) (entries t2 ++ e3) q,
        find-before rank k k2 v2 hi (entries t2) (entries t3) s3,
        find-after rank k lo (rank k0) (entries t0) e1 s0,
        find-after rank k (suc (rank k0)) (rank k1) (entries t1) e2 s1,
        find-after rank k (suc (rank k1)) (rank k2) (entries t2) e3 s2,
      )

abbrev pub first : List (ℕ × ℕ) → Option (ℕ × ℕ)
first [] = none
first (e ∷ es) = some e

first-node :
    (xs : List (ℕ × ℕ)) (e : ℕ × ℕ) (zs ys : List (ℕ × ℕ))
    → first ((xs ++ e ∷ zs) ++ ys) ≡ first (xs ++ e ∷ zs)
first-node [] e zs ys = refl
first-node (x ∷ xs) e zs ys = refl

first-append :
    (t : Tree) (ys : List (ℕ × ℕ))
    → tree_isempty t ≡ false
    → first (entries t ++ ys) ≡ first (entries t)
first-append nil ys h = ground arith
first-append (tree2 t0 k0 v0 t1) ys h = first-node (entries t0) (k0, v0) (entries t1) ys
first-append (tree3 t0 k0 v0 t1 k1 v1 t2) ys h =
    first-node (entries t0) (k0, v0) (entries t1 ++ (k1, v1) ∷ entries t2) ys
first-append (tree4 t0 k0 v0 t1 k1 v1 t2 k2 v2 t3) ys h =
    first-node (entries t0) (k0, v0)
      (entries t1 ++ (k1, v1) ∷ (entries t2 ++ (k2, v2) ∷ entries t3)) ys

-- The leftmost descent of all three nodes: the key of the node if the subtree is empty.
descend :
    (t : Tree) (e : ℕ × ℕ) (ys : List (ℕ × ℕ))
    → tree_search_min t ≡ first (entries t)
    → elim (tree_isempty t) [ true ↦ some e | false ↦ tree_search_min t ]
      ≡ first (entries t ++ e ∷ ys)
descend nil e ys h = refl
descend (tree2 t0 k0 v0 t1) e ys h = h ∙ sym (first-append (tree2 t0 k0 v0 t1) (e ∷ ys) refl)
descend (tree3 t0 k0 v0 t1 k1 v1 t2) e ys h =
    h ∙ sym (first-append (tree3 t0 k0 v0 t1 k1 v1 t2) (e ∷ ys) refl)
descend (tree4 t0 k0 v0 t1 k1 v1 t2 k2 v2 t3) e ys h =
    h ∙ sym (first-append (tree4 t0 k0 v0 t1 k1 v1 t2 k2 v2 t3) (e ∷ ys) refl)

-- `tree_search_min` finds the first entry, and fails on the empty tree only.
pub tree_search_min-entries : (t : Tree) → tree_search_min t ≡ first (entries t)
unfolding tree_search_min
tree_search_min-entries nil = refl
tree_search_min-entries (tree2 t0 k0 v0 t1) =
    descend t0 (k0, v0) (entries t1) (tree_search_min-entries t0)
tree_search_min-entries (tree3 t0 k0 v0 t1 k1 v1 t2) =
    descend t0 (k0, v0) (entries t1 ++ (k1, v1) ∷ entries t2) (tree_search_min-entries t0)
tree_search_min-entries (tree4 t0 k0 v0 t1 k1 v1 t2 k2 v2 t3) =
    descend t0 (k0, v0) (entries t1 ++ (k1, v1) ∷ (entries t2 ++ (k2, v2) ∷ entries t3))
      (tree_search_min-entries t0)

-- `tree_size` counts the entries.
tree_size-entries : (t : Tree) → tree_size t ≡ length (entries t)
unfolding tree_size
tree_size-entries nil = refl
tree_size-entries (tree2 t0 k0 v0 t1) = omega (
  arith,
  tree_size-entries t0,
  tree_size-entries t1,
  length-append (entries t0) ((k0, v0) ∷ entries t1),
)
tree_size-entries (tree3 t0 k0 v0 t1 k1 v1 t2) =
    let e2 = (k1, v1) ∷ entries t2 in
    omega (
      arith,
      tree_size-entries t0,
      tree_size-entries t1,
      tree_size-entries t2,
      length-append (entries t0) ((k0, v0) ∷ (entries t1 ++ e2)),
      length-append (entries t1) e2,
    )
tree_size-entries (tree4 t0 k0 v0 t1 k1 v1 t2 k2 v2 t3) =
    let e3 = (k2, v2) ∷ entries t3 in
    let e2 = (k1, v1) ∷ (entries t2 ++ e3) in
    omega (
      arith,
      tree_size-entries t0,
      tree_size-entries t1,
      tree_size-entries t2,
      tree_size-entries t3,
      length-append (entries t0) ((k0, v0) ∷ (entries t1 ++ e2)),
      length-append (entries t1) e2,
      length-append (entries t2) e3,
    )
