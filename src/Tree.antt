-- ===== src/Tree.antt =====
-- tree.c: 2-3-4 trees, the persistent maps under map.h and set.h. Keys and values are word_t. The
-- function pointer `compare` stands for any total order of the keys, given as a rank:
-- `compare(a, b)` has the sign of `rank a - rank b`. `none` stands for `abort()`.
pub mod Entries
pub mod Search
pub mod Insert
pub mod Fix
pub mod Delete
pub mod Neighbour
pub mod Iterator
pub mod InPlace
pub mod Map
pub mod Laws
mod Tests
use smchr.Prelude.{ℕ, zero, suc, ◌+◌, Bool, true, false, Option, none, some}
use Prim.Native.Nat.{compare, Ordering}

-- TREE_EMPTY, struct tree2_s, struct tree3_s and struct tree4_s.
pub data Tree : Type 0 where
  nil : Tree
  tree2 : Tree → ℕ → ℕ → Tree → Tree
  tree3 : Tree → ℕ → ℕ → Tree → ℕ → ℕ → Tree → Tree
  tree4 : Tree → ℕ → ℕ → Tree → ℕ → ℕ → Tree → ℕ → ℕ → Tree → Tree

abbrev pub tree_isempty : Tree → Bool
tree_isempty nil = true
tree_isempty _ = false

unfoldable pub tree_issingleton : Tree → Bool
tree_issingleton (tree2 t0 k0 v0 t1) = tree_isempty t0
tree_issingleton _ = false

unfoldable pub tree_search : (ℕ → ℕ) → Tree → ℕ → Option ℕ
tree_search rank nil k = none
tree_search rank (tree2 t0 k0 v0 t1) k = elim (compare (rank k) (rank k0)) [
  | Ordering.lt ↦ tree_search rank t0 k
  | Ordering.gt ↦ tree_search rank t1 k
  | Ordering.eq ↦ some v0
]
tree_search rank (tree3 t0 k0 v0 t1 k1 v1 t2) k = elim (compare (rank k) (rank k0)) [
  | Ordering.lt ↦ tree_search rank t0 k
  | Ordering.gt ↦ elim (compare (rank k) (rank k1)) [
    | Ordering.lt ↦ tree_search rank t1 k
    | Ordering.gt ↦ tree_search rank t2 k
    | Ordering.eq ↦ some v1
  ]
  | Ordering.eq ↦ some v0
]
tree_search rank (tree4 t0 k0 v0 t1 k1 v1 t2 k2 v2 t3) k = elim (compare (rank k) (rank k1)) [
  | Ordering.lt ↦ elim (compare (rank k) (rank k0)) [
    | Ordering.lt ↦ tree_search rank t0 k
    | Ordering.gt ↦ tree_search rank t1 k
    | Ordering.eq ↦ some v0
  ]
  | Ordering.gt ↦ elim (compare (rank k) (rank k2)) [
    | Ordering.lt ↦ tree_search rank t2 k
    | Ordering.gt ↦ tree_search rank t3 k
    | Ordering.eq ↦ some v2
  ]
  | Ordering.eq ↦ some v1
]

-- The pair that tree_search_any finds: a key and value of the root.
unfoldable pub tree_search_any : Tree → Option (ℕ × ℕ)
tree_search_any nil = none
tree_search_any (tree2 t0 k0 v0 t1) = some (k0, v0)
tree_search_any (tree3 t0 k0 v0 t1 k1 v1 t2) = some (k0, v0)
tree_search_any (tree4 t0 k0 v0 t1 k1 v1 t2 k2 v2 t3) = some (k1, v1)

unfoldable pub tree_search_min : Tree → Option (ℕ × ℕ)
tree_search_min nil = none
tree_search_min (tree2 t0 k0 v0 t1) = elim (tree_isempty t0) [
  | true ↦ some (k0, v0)
  | false ↦ tree_search_min t0
]
tree_search_min (tree3 t0 k0 v0 t1 k1 v1 t2) = elim (tree_isempty t0) [
  | true ↦ some (k0, v0)
  | false ↦ tree_search_min t0
]
tree_search_min (tree4 t0 k0 v0 t1 k1 v1 t2 k2 v2 t3) = elim (tree_isempty t0) [
  | true ↦ some (k0, v0)
  | false ↦ tree_search_min t0
]

unfoldable pub tree_size : Tree → ℕ
tree_size nil = 0
tree_size (tree2 t0 k0 v0 t1) = 1 + tree_size t0 + tree_size t1
tree_size (tree3 t0 k0 v0 t1 k1 v1 t2) = 2 + tree_size t0 + tree_size t1 + tree_size t2
tree_size (tree4 t0 k0 v0 t1 k1 v1 t2 k2 v2 t3) =
    3 + tree_size t0 + tree_size t1 + tree_size t2 + tree_size t3

-- The depth along the leftmost path.
unfoldable pub tree_depth : Tree → ℕ
tree_depth nil = 0
tree_depth (tree2 t0 k0 v0 t1) = suc (tree_depth t0)
tree_depth (tree3 t0 k0 v0 t1 k1 v1 t2) = suc (tree_depth t0)
tree_depth (tree4 t0 k0 v0 t1 k1 v1 t2 k2 v2 t3) = suc (tree_depth t0)
