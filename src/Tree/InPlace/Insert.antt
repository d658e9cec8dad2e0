-- ===== src/Tree/InPlace/Insert.antt =====
-- tree.c: `tree_destructive_insert`, `tree2_destructive_insert` and `tree3_destructive_insert`: the tree
-- that the call returns. A node whose member is assigned is that node from then on, and the nodes of a
-- tree are not shared within it. The `switch` before a descent and the node built around two new
-- subtrees are those of the persistent functions.
use smchr.Prelude.{
  ℕ, zero, suc, ◌≡◌, refl, ◌∙◌, ap, Option, none, some, true, false, inl, inr, Bool-cases,
  compare-cases,
}
use smchr.Tree.{Tree, nil, tree2, tree3, tree4, tree_isempty, tree_depth}
use smchr.Tree.Insert.{
  insert_child, put2_t0, put2_t1, put3_t0, put3_t1, put3_t2, insert_node, tree2_insert,
  tree3_insert, tree_insert,
}
use Prim.Native.Nat.{compare, Ordering}

-- At a key of the same rank an inner node keeps its key and gets the value; a leaf is made anew.
abbrev pub tree2_destructive_insert :
    (ℕ → ℕ) → (Tree → Option Tree) → ℕ → ℕ → Tree → ℕ → ℕ → Tree → Option Tree
tree2_destructive_insert rank insert k v t0 k0 v0 t1 =
    let leaf : Option Tree = elim (compare (rank k) (rank k0)) [
      | Ordering.lt ↦ some (tree3 nil k v nil k0 v0 nil)
      | Ordering.gt ↦ some (tree3 nil k0 v0 nil k v nil)
      | Ordering.eq ↦ some (tree2 nil k v nil)
    ] in
    let inner : Option Tree = elim (compare (rank k) (rank k0)) [
      | Ordering.lt ↦ put2_t0 (insert_child rank insert t0 k v) k0 v0 t1
      | Ordering.gt ↦ put2_t1 t0 k0 v0 (insert_child rank insert t1 k v)
      | Ordering.eq ↦ some (tree2 t0 k0 v t1)
    ] in
    elim (tree_isempty t0) [ true ↦ leaf | false ↦ inner ]

abbrev pub tree3_destructive_insert :
    (ℕ → ℕ) → (Tree → Option Tree) → ℕ → ℕ → Tree → ℕ → ℕ → Tree → ℕ → ℕ → Tree → Option Tree
tree3_destructive_insert rank insert k v t0 k0 v0 t1 k1 v1 t2 =
    let leaf : Option Tree = elim (compare (rank k) (rank k0)) [
      | Ordering.lt ↦ some (tree4 nil k v nil k0 v0 nil k1 v1 nil)
      | Ordering.gt ↦ elim (compare (rank k) (rank k1)) [
        | Ordering.lt ↦ some (tree4 nil k0 v0 nil k v nil k1 v1 nil)
        | Ordering.gt ↦ some (tree4 nil k0 v0 nil k1 v1 nil k v nil)
        | Ordering.eq ↦ some (tree3 nil k0 v0 nil k v nil)
      ]
      | Ordering.eq ↦ some (tree3 nil k v nil k1 v1 nil)
    ] in
    let inner : Option Tree = elim (compare (rank k) (rank k0)) [
      | Ordering.lt ↦ put3_t0 (insert_child rank insert t0 k v) k0 v0 t1 k1 v1 t2
      | Ordering.gt ↦ elim (compare (rank k) (rank k1)) [
        | Ordering.lt ↦ put3_t1 t0 k0 v0 (insert_child rank insert t1 k v) k1 v1 t2
        | Ordering.gt ↦ put3_t2 t0 k0 v0 t1 k1 v1 (insert_child rank insert t2 k v)
        | Ordering.eq ↦ some (tree3 t0 k0 v0 t1 k1 v t2)
      ]
      | Ordering.eq ↦ some (tree3 t0 k0 v t1 k1 v1 t2)
    ] in
    elim (tree_isempty t0) [ true ↦ leaf | false ↦ inner ]

-- tree2_destructive_insert on a tree2 and tree3_destructive_insert on a tree3, which call each other; the first number counts
-- the levels left.
unfoldable pub destructive_insert_node : (ℕ → ℕ) → ℕ → ℕ → ℕ → Tree → Option Tree
destructive_insert_node rank (suc n) k v (tree2 t0 k0 v0 t1) =
    tree2_destructive_insert rank (destructive_insert_node rank n k v) k v t0 k0 v0 t1
destructive_insert_node rank (suc n) k v (tree3 t0 k0 v0 t1 k1 v1 t2) =
    tree3_destructive_insert rank (destructive_insert_node rank n k v) k v t0 k0 v0 t1 k1 v1 t2
destructive_insert_node rank _ k v _ = none

-- A tree4 at the root is split, so the tree grows at its root.
unfoldable pub tree_destructive_insert : (ℕ → ℕ) → Tree → ℕ → ℕ → Option Tree
tree_destructive_insert rank nil k v = some (tree2 nil k v nil)
tree_destructive_insert rank (tree4 t0 k0 v0 t1 k1 v1 t2 k2 v2 t3) k v =
    let nt = tree2 (tree2 t0 k0 v0 t1) k1 v1 (tree2 t2 k2 v2 t3) in
    destructive_insert_node rank (tree_depth nt) k v nt
tree_destructive_insert rank t k v = destructive_insert_node rank (tree_depth t) k v t

module _ (rank : ℕ → ℕ) (k v : ℕ) (only_key : (j : ℕ) → rank k ≡ rank j → k ≡ j) where
  -- The persistent functions put the new key where the in-place ones leave one of the same rank.
  same2 :
      (insert : Tree → Option Tree) (t0 : Tree) (k0 v0 : ℕ) (t1 : Tree)
      → tree2_destructive_insert rank insert k v t0 k0 v0 t1
        ≡ tree2_insert rank insert k v t0 k0 v0 t1
  same2 insert t0 k0 v0 t1 = elim (Bool-cases (tree_isempty t0)) [
    | inl z ↦ rw (tree2_destructive_insert, tree2_insert, z) refl
    | inr z ↦ elim (compare-cases (rank k) (rank k0)) [
      | inl (h, e) ↦ rw (tree2_destructive_insert, tree2_insert, z, e) refl
      | inr (inl (h, e)) ↦ rw (tree2_destructive_insert, tree2_insert, z, e, only_key k0 h) refl
      | inr (inr (h, e)) ↦ rw (tree2_destructive_insert, tree2_insert, z, e) refl
    ]
  ]

  same3 :
      (insert : Tree → Option Tree) (t0 : Tree) (k0 v0 : ℕ) (t1 : Tree) (k1 v1 : ℕ) (t2 : Tree)
      → tree3_destructive_insert rank insert k v t0 k0 v0 t1 k1 v1 t2
        ≡ tree3_insert rank insert k v t0 k0 v0 t1 k1 v1 t2
  same3 insert t0 k0 v0 t1 k1 v1 t2 = elim (Bool-cases (tree_isempty t0)) [
    | inl z ↦ rw (tree3_destructive_insert, tree3_insert, z) refl
    | inr z ↦ elim (compare-cases (rank k) (rank k0)) [
      | inl (h, e) ↦ rw (tree3_destructive_insert, tree3_insert, z, e) refl
      | inr (inl (h, e)) ↦ rw (tree3_destructive_insert, tree3_insert, z, e, only_key k0 h) refl
      | inr (inr (h, e)) ↦ elim (compare-cases (rank k) (rank k1)) [
        | inl (g, f) ↦ rw (tree3_destructive_insert, tree3_insert, z, e, f) refl
        | inr (inl (g, f)) ↦
            rw (tree3_destructive_insert, tree3_insert, z, e, f, only_key k1 g) refl
        | inr (inr (g, f)) ↦ rw (tree3_destructive_insert, tree3_insert, z, e, f) refl
      ]
    ]
  ]

  same_node : (n : ℕ) (t : Tree) → destructive_insert_node rank n k v t ≡ insert_node rank n k v t
  unfolding destructive_insert_node insert_node
  same_node zero t = refl
  same_node (suc n) nil = refl
  same_node (suc n) (tree4 t0 k0 v0 t1 k1 v1 t2 k2 v2 t3) = refl
  same_node (suc n) (tree2 t0 k0 v0 t1) =
      ap (λ insert. tree2_destructive_insert rank insert k v t0 k0 v0 t1) (λ i t. same_node n t i)
      ∙ same2 (insert_node rank n k v) t0 k0 v0 t1
  same_node (suc n) (tree3 t0 k0 v0 t1 k1 v1 t2) =
      ap (λ insert. tree3_destructive_insert rank insert k v t0 k0 v0 t1 k1 v1 t2)
        (λ i t. same_node n t i)
      ∙ same3 (insert_node rank n k v) t0 k0 v0 t1 k1 v1 t2

  -- `tree_destructive_insert` returns the tree that `tree_insert` returns, if no other key has the rank
  -- of the key.
  pub destructive_insert-tree_insert :
      (t : Tree) → tree_destructive_insert rank t k v ≡ tree_insert rank t k v
  unfolding tree_destructive_insert tree_insert
  destructive_insert-tree_insert nil = refl
  destructive_insert-tree_insert (tree2 t0 k0 v0 t1) =
      same_node (tree_depth (tree2 t0 k0 v0 t1)) (tree2 t0 k0 v0 t1)
  destructive_insert-tree_insert (tree3 t0 k0 v0 t1 k1 v1 t2) =
      let t = tree3 t0 k0 v0 t1 k1 v1 t2 in same_node (tree_depth t) t
  destructive_insert-tree_insert (tree4 t0 k0 v0 t1 k1 v1 t2 k2 v2 t3) =
      let t = tree2 (tree2 t0 k0 v0 t1) k1 v1 (tree2 t2 k2 v2 t3) in same_node (tree_depth t) t
