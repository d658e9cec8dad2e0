-- ===== src/Tree/Insert.antt =====
-- tree.c: `tree_insert`, `tree2_insert` and `tree3_insert`.
pub mod Rebuild
pub mod Correct
use smchr.Prelude.{ℕ, zero, suc, Option, none, some, true, false}
use smchr.Tree.{Tree, nil, tree2, tree3, tree4, tree_isempty, tree_depth}
use Prim.Native.Nat.{compare, Ordering}

-- What the subtree that the key belongs to becomes: a tree in its place, or, when it was a tree4,
-- two trees and the key and value between them.
pub data Child : Type 0 where
  same_child : Tree → Child
  split_child : Tree → ℕ → ℕ → Tree → Child

abbrev same_child_of : Option Tree → Option Child
same_child_of none = none
same_child_of (some t) = some (same_child t)

abbrev left_of : Option Tree → ℕ → ℕ → Tree → Option Child
left_of none km vm rt = none
left_of (some nt) km vm rt = some (split_child nt km vm rt)

abbrev right_of : Tree → ℕ → ℕ → Option Tree → Option Child
right_of lt km vm none = none
right_of lt km vm (some nt) = some (split_child lt km vm nt)

-- The `switch (treetype(t->t[i]))` that stands in each branch of both functions, with `insert` the
-- two functions themselves: a tree4 is split before the descent.
unfoldable pub insert_child : (ℕ → ℕ) → (Tree → Option Tree) → Tree → ℕ → ℕ → Option Child
insert_child rank insert nil k v = none
insert_child rank insert (tree2 t0 k0 v0 t1) k v = same_child_of (insert (tree2 t0 k0 v0 t1))
insert_child rank insert (tree3 t0 k0 v0 t1 k1 v1 t2) k v =
    same_child_of (insert (tree3 t0 k0 v0 t1 k1 v1 t2))
insert_child rank insert (tree4 t0 k0 v0 t1 k1 v1 t2 k2 v2 t3) k v =
    let lt = tree2 t0 k0 v0 t1 in
    let rt = tree2 t2 k2 v2 t3 in
    elim (compare (rank k) (rank k1)) [
      | Ordering.lt ↦ left_of (insert lt) k1 v1 rt
      | Ordering.gt ↦ right_of lt k1 v1 (insert rt)
      | Ordering.eq ↦ some (split_child lt k v rt)
    ]

-- The node rebuilt around the new subtree.
abbrev pub put2_t0 : Option Child → ℕ → ℕ → Tree → Option Tree
put2_t0 none k0 v0 t1 = none
put2_t0 (some (same_child nt)) k0 v0 t1 = some (tree2 nt k0 v0 t1)
put2_t0 (some (split_child lt km vm rt)) k0 v0 t1 = some (tree3 lt km vm rt k0 v0 t1)

abbrev pub put2_t1 : Tree → ℕ → ℕ → Option Child → Option Tree
put2_t1 t0 k0 v0 none = none
put2_t1 t0 k0 v0 (some (same_child nt)) = some (tree2 t0 k0 v0 nt)
put2_t1 t0 k0 v0 (some (split_child lt km vm rt)) = some (tree3 t0 k0 v0 lt km vm rt)

abbrev pub put3_t0 : Option Child → ℕ → ℕ → Tree → ℕ → ℕ → Tree → Option Tree
put3_t0 none k0 v0 t1 k1 v1 t2 = none
put3_t0 (some (same_child nt)) k0 v0 t1 k1 v1 t2 = some (tree3 nt k0 v0 t1 k1 v1 t2)
put3_t0 (some (split_child lt km vm rt)) k0 v0 t1 k1 v1 t2 =
    some (tree4 lt km vm rt k0 v0 t1 k1 v1 t2)

abbrev pub put3_t1 : Tree → ℕ → ℕ → Option Child → ℕ → ℕ → Tree → Option Tree
put3_t1 t0 k0 v0 none k1 v1 t2 = none
put3_t1 t0 k0 v0 (some (same_child nt)) k1 v1 t2 = some (tree3 t0 k0 v0 nt k1 v1 t2)
put3_t1 t0 k0 v0 (some (split_child lt km vm rt)) k1 v1 t2 =
    some (tree4 t0 k0 v0 lt km vm rt k1 v1 t2)

abbrev pub put3_t2 : Tree → ℕ → ℕ → Tree → ℕ → ℕ → Option Child → Option Tree
put3_t2 t0 k0 v0 t1 k1 v1 none = none
put3_t2 t0 k0 v0 t1 k1 v1 (some (same_child nt)) = some (tree3 t0 k0 v0 t1 k1 v1 nt)
put3_t2 t0 k0 v0 t1 k1 v1 (some (split_child lt km vm rt)) =
    some (tree4 t0 k0 v0 t1 k1 v1 lt km vm rt)

-- The functions on the members of the node, with `insert` for the calls one level down.
abbrev pub tree2_insert : (ℕ → ℕ) → (Tree → Option Tree) → ℕ → ℕ → Tree → ℕ → ℕ → Tree → Option Tree
tree2_insert rank insert k v t0 k0 v0 t1 =
    let leaf : Option Tree = elim (compare (rank k) (rank k0)) [
      | Ordering.lt ↦ some (tree3 nil k v nil k0 v0 nil)
      | Ordering.gt ↦ some (tree3 nil k0 v0 nil k v nil)
      | Ordering.eq ↦ some (tree2 nil k v nil)
    ] in
    let inner : Option Tree = elim (compare (rank k) (rank k0)) [
      | Ordering.lt ↦ put2_t0 (insert_child rank insert t0 k v) k0 v0 t1
      | Ordering.gt ↦ put2_t1 t0 k0 v0 (insert_child rank insert t1 k v)
      | Ordering.eq ↦ some (tree2 t0 k v t1)
    ] in
    elim (tree_isempty t0) [ true ↦ leaf | false ↦ inner ]

abbrev pub tree3_insert :
    (ℕ → ℕ) → (Tree → Option Tree) → ℕ → ℕ → Tree → ℕ → ℕ → Tree → ℕ → ℕ → Tree → Option Tree
tree3_insert rank insert k v t0 k0 v0 t1 k1 v1 t2 =
    let leaf : Option Tree = elim (compare (rank k) (rank k0)) [
      | Ordering.lt ↦ some (tree4 nil k v nil k0 v0 nil k1 v1 nil)
      | Ordering.gt ↦ elim (compare (rank k) (rank k1)) [
        | Ordering.lt ↦ some (tree4 nil k0 v0 nil k v nil k1 v1 nil)
        | Ordering.gt ↦ some (tree4 nil k0 v0 nil k1 v1 nil k v nil)
        | Ordering.eq ↦ some (tree3 nil k0 v0 nil k v nil)
      ]
      | Ordering.eq ↦ some (tree3 nil k v nil k1 v1 nil)
    ] in
    let inner : Option Tree = elim (compare (rank k) (rank k0)) [
      | Ordering.lt ↦ put3_t0 (insert_child rank insert t0 k v) k0 v0 t1 k1 v1 t2
      | Ordering.gt ↦ elim (compare (rank k) (rank k1)) [
        | Ordering.lt ↦ put3_t1 t0 k0 v0 (insert_child rank insert t1 k v) k1 v1 t2
        | Ordering.gt ↦ put3_t2 t0 k0 v0 t1 k1 v1 (insert_child rank insert t2 k v)
        | Ordering.eq ↦ some (tree3 t0 k0 v0 t1 k v t2)
      ]
      | Ordering.eq ↦ some (tree3 t0 k v t1 k1 v1 t2)
    ] in
    elim (tree_isempty t0) [ true ↦ leaf | false ↦ inner ]

-- tree2_insert on a tree2 and tree3_insert on a tree3, which call each other; the first number counts
-- the levels left.
unfoldable pub insert_node : (ℕ → ℕ) → ℕ → ℕ → ℕ → Tree → Option Tree
insert_node rank (suc n) k v (tree2 t0 k0 v0 t1) =
    tree2_insert rank (insert_node rank n k v) k v t0 k0 v0 t1
insert_node rank (suc n) k v (tree3 t0 k0 v0 t1 k1 v1 t2) =
    tree3_insert rank (insert_node rank n k v) k v t0 k0 v0 t1 k1 v1 t2
insert_node rank _ k v _ = none

-- A tree4 at the root is split, so the tree grows at its root.
unfoldable pub tree_insert : (ℕ → ℕ) → Tree → ℕ → ℕ → Option Tree
tree_insert rank nil k v = some (tree2 nil k v nil)
tree_insert rank (tree4 t0 k0 v0 t1 k1 v1 t2 k2 v2 t3) k v =
    let nt = tree2 (tree2 t0 k0 v0 t1) k1 v1 (tree2 t2 k2 v2 t3) in
    insert_node rank (tree_depth nt) k v nt
tree_insert rank t k v = insert_node rank (tree_depth t) k v t
