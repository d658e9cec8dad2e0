-- ===== src/Tree/Iterator.antt =====
-- tree.c: iterators, `tree_itrsize`, `tree_itrinit`, `tree_itrinit_geq`, `tree_get` and `tree_next`.
-- The array `stack` below and at `stackptr` is a list, its top first. An element is a node and the
-- tag that gc_settag puts on the pointer, the offset of the node's current key.

pub mod Order
pub mod Geq
pub mod Walk
mod Tests
use smchr.Prelude.{ℕ, zero, suc, ◌+◌, ◌*◌, Option, none, some, List, [], ◌∷◌}
use smchr.Tree.{Tree, nil, tree2, tree3, tree4}
use Prim.Native.Nat.{compare, Ordering}

abbrev pub Itr : Type 0
Itr = List (ℕ × Tree)

-- The loop of `tree_itrinit`, with which `tree_next` also ends: nodes are pushed down the leftmost
-- path.
unfoldable pub push_leftmost : Itr → Tree → Itr
push_leftmost i nil = i
push_leftmost i (tree2 t0 k0 v0 t1) = push_leftmost ((0, tree2 t0 k0 v0 t1) ∷ i) t0
push_leftmost i (tree3 t0 k0 v0 t1 k1 v1 t2) =
    push_leftmost ((0, tree3 t0 k0 v0 t1 k1 v1 t2) ∷ i) t0
push_leftmost i (tree4 t0 k0 v0 t1 k1 v1 t2 k2 v2 t3) =
    push_leftmost ((0, tree4 t0 k0 v0 t1 k1 v1 t2 k2 v2 t3) ∷ i) t0

abbrev pub tree_itrinit : Tree → Itr
tree_itrinit t = push_leftmost [] t

-- `size` counts bytes: `pointer` for sizeof(tree_t), `header` for sizeof(struct treeitr_s), which ends
-- with the array.
unfoldable pub tree_itrsize : ℕ → ℕ → Tree → ℕ
tree_itrsize pointer header nil = header
tree_itrsize pointer header (tree2 t0 k0 v0 t1) = pointer + tree_itrsize pointer header t0
tree_itrsize pointer header (tree3 t0 k0 v0 t1 k1 v1 t2) = pointer + tree_itrsize pointer header t0
tree_itrsize pointer header (tree4 t0 k0 v0 t1 k1 v1 t2 k2 v2 t3) =
    pointer + tree_itrsize pointer header t0

-- The loop of `tree_itrinit_geq`. It pushes a node only when it goes on below one of its keys.
unfoldable pub push_geq : (ℕ → ℕ) → Itr → Tree → ℕ → Itr
push_geq rank i nil k = i
push_geq rank i (tree2 t0 k0 v0 t1) k = elim (compare (rank k) (rank k0)) [
  | Ordering.lt ↦ push_geq rank ((0, tree2 t0 k0 v0 t1) ∷ i) t0 k
  | Ordering.eq ↦ (0, tree2 t0 k0 v0 t1) ∷ i
  | Ordering.gt ↦ push_geq rank i t1 k
]
push_geq rank i (tree3 t0 k0 v0 t1 k1 v1 t2) k = elim (compare (rank k) (rank k0)) [
  | Ordering.lt ↦ push_geq rank ((0, tree3 t0 k0 v0 t1 k1 v1 t2) ∷ i) t0 k
  | Ordering.eq ↦ (0, tree3 t0 k0 v0 t1 k1 v1 t2) ∷ i
  | Ordering.gt ↦ elim (compare (rank k) (rank k1)) [
    | Ordering.lt ↦ push_geq rank ((1, tree3 t0 k0 v0 t1 k1 v1 t2) ∷ i) t1 k
    | Ordering.eq ↦ (1, tree3 t0 k0 v0 t1 k1 v1 t2) ∷ i
    | Ordering.gt ↦ push_geq rank i t2 k
  ]
]
push_geq rank i (tree4 t0 k0 v0 t1 k1 v1 t2 k2 v2 t3) k = elim (compare (rank k) (rank k1)) [
  | Ordering.lt ↦ elim (compare (rank k) (rank k0)) [
    | Ordering.lt ↦ push_geq rank ((0, tree4 t0 k0 v0 t1 k1 v1 t2 k2 v2 t3) ∷ i) t0 k
    | Ordering.eq ↦ (0, tree4 t0 k0 v0 t1 k1 v1 t2 k2 v2 t3) ∷ i
    | Ordering.gt ↦ push_geq rank ((1, tree4 t0 k0 v0 t1 k1 v1 t2 k2 v2 t3) ∷ i) t1 k
  ]
  | Ordering.eq ↦ (1, tree4 t0 k0 v0 t1 k1 v1 t2 k2 v2 t3) ∷ i
  | Ordering.gt ↦ elim (compare (rank k) (rank k2)) [
    | Ordering.lt ↦ push_geq rank ((2, tree4 t0 k0 v0 t1 k1 v1 t2 k2 v2 t3) ∷ i) t2 k
    | Ordering.eq ↦ (2, tree4 t0 k0 v0 t1 k1 v1 t2 k2 v2 t3) ∷ i
    | Ordering.gt ↦ push_geq rank i t3 k
  ]
]

abbrev pub tree_itrinit_geq : (ℕ → ℕ) → Tree → ℕ → Itr
tree_itrinit_geq rank t k = push_geq rank [] t k

-- What `tree_get` does: it returns true and the key and value, it returns false, or it calls abort()
-- or reads an array of the node out of bounds.
pub data Get : Type 0 where
  got : ℕ → ℕ → Get
  no_more : Get
  broken : Get

abbrev get_node : ℕ → Tree → Get
get_node zero (tree2 t0 k0 v0 t1) = got k0 v0
get_node zero (tree3 t0 k0 v0 t1 k1 v1 t2) = got k0 v0
get_node (suc zero) (tree3 t0 k0 v0 t1 k1 v1 t2) = got k1 v1
get_node zero (tree4 t0 k0 v0 t1 k1 v1 t2 k2 v2 t3) = got k0 v0
get_node (suc zero) (tree4 t0 k0 v0 t1 k1 v1 t2 k2 v2 t3) = got k1 v1
get_node (suc (suc zero)) (tree4 t0 k0 v0 t1 k1 v1 t2 k2 v2 t3) = got k2 v2
get_node _ _ = broken

unfoldable pub tree_get : Itr → Get
tree_get [] = no_more
tree_get ((offset, t) ∷ i) = get_node offset t

-- `tree_next` goes on behind the current key: the node leaves the stack with its last key, else its
-- tag grows.
abbrev next_node : ℕ → Tree → Itr → Option Itr
next_node zero (tree2 t0 k0 v0 t1) i = some (push_leftmost i t1)
next_node zero (tree3 t0 k0 v0 t1 k1 v1 t2) i =
    some (push_leftmost ((1, tree3 t0 k0 v0 t1 k1 v1 t2) ∷ i) t1)
next_node (suc offset) (tree3 t0 k0 v0 t1 k1 v1 t2) i = some (push_leftmost i t2)
next_node zero (tree4 t0 k0 v0 t1 k1 v1 t2 k2 v2 t3) i =
    some (push_leftmost ((1, tree4 t0 k0 v0 t1 k1 v1 t2 k2 v2 t3) ∷ i) t1)
next_node (suc zero) (tree4 t0 k0 v0 t1 k1 v1 t2 k2 v2 t3) i =
    some (push_leftmost ((2, tree4 t0 k0 v0 t1 k1 v1 t2 k2 v2 t3) ∷ i) t2)
next_node (suc (suc zero)) (tree4 t0 k0 v0 t1 k1 v1 t2 k2 v2 t3) i = some (push_leftmost i t3)
next_node _ _ i = none

unfoldable pub tree_next : Itr → Option Itr
tree_next [] = some []
tree_next ((offset, t) ∷ i) = next_node offset t i

-- The loop that the callers write: `for (...; tree_get(i, &k, &v); tree_next(i))`, run to its end within
-- a number of rounds.
unfoldable pub walk : ℕ → Itr → Option (List (ℕ × ℕ))
walk zero i = none
walk (suc n) i =
    let rest : Option (List (ℕ × ℕ)) = elim (tree_next i) [ none ↦ none | some i' ↦ walk n i' ] in
    elim (tree_get i) [
      | got k v ↦ elim rest [ none ↦ none | some es ↦ some ((k, v) ∷ es) ]
      | no_more ↦ some []
      | broken ↦ none
    ]
