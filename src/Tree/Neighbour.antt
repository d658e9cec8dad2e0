-- ===== src/Tree/Neighbour.antt =====
-- tree.c: `tree_search_lt`, `tree_search_gt` and `tree_search_max`.
pub mod Correct
pub mod Last
use smchr.Prelude.{ℕ, Bool, true, false, Option, none, some}
use smchr.Tree.{Tree, nil, tree2, tree3, tree4, tree_isempty}
use Prim.Native.Nat.{compare, Ordering}

-- `if (!tree_search_...(...)) { *k = ...; *v = ...; }`: the pair of the node if the call finds none.
abbrev pub or_else : Option (ℕ × ℕ) → ℕ × ℕ → Option (ℕ × ℕ)
or_else none e = some e
or_else (some f) e = some f

unfoldable pub tree_search_lt : (ℕ → ℕ) → Tree → ℕ → Option (ℕ × ℕ)
tree_search_lt rank nil k = none
tree_search_lt rank (tree2 t0 k0 v0 t1) k = elim (compare (rank k) (rank k0)) [
  | Ordering.gt ↦ or_else (tree_search_lt rank t1 k) (k0, v0)
  | _ ↦ tree_search_lt rank t0 k
]
tree_search_lt rank (tree3 t0 k0 v0 t1 k1 v1 t2) k = elim (compare (rank k) (rank k1)) [
  | Ordering.gt ↦ or_else (tree_search_lt rank t2 k) (k1, v1)
  | _ ↦ elim (compare (rank k) (rank k0)) [
    | Ordering.gt ↦ or_else (tree_search_lt rank t1 k) (k0, v0)
    | _ ↦ tree_search_lt rank t0 k
  ]
]
tree_search_lt rank (tree4 t0 k0 v0 t1 k1 v1 t2 k2 v2 t3) k = elim (compare (rank k) (rank k1)) [
  | Ordering.gt ↦ elim (compare (rank k) (rank k2)) [
    | Ordering.gt ↦ or_else (tree_search_lt rank t3 k) (k2, v2)
    | _ ↦ or_else (tree_search_lt rank t2 k) (k1, v1)
  ]
  | _ ↦ elim (compare (rank k) (rank k0)) [
    | Ordering.gt ↦ or_else (tree_search_lt rank t1 k) (k0, v0)
    | _ ↦ tree_search_lt rank t0 k
  ]
]

unfoldable pub tree_search_gt : (ℕ → ℕ) → Tree → ℕ → Option (ℕ × ℕ)
tree_search_gt rank nil k = none
tree_search_gt rank (tree2 t0 k0 v0 t1) k = elim (compare (rank k) (rank k0)) [
  | Ordering.lt ↦ or_else (tree_search_gt rank t0 k) (k0, v0)
  | _ ↦ tree_search_gt rank t1 k
]
tree_search_gt rank (tree3 t0 k0 v0 t1 k1 v1 t2) k = elim (compare (rank k) (rank k0)) [
  | Ordering.lt ↦ or_else (tree_search_gt rank t0 k) (k0, v0)
  | _ ↦ elim (compare (rank k) (rank k1)) [
    | Ordering.lt ↦ or_else (tree_search_gt rank t1 k) (k1, v1)
    | _ ↦ tree_search_gt rank t2 k
  ]
]
tree_search_gt rank (tree4 t0 k0 v0 t1 k1 v1 t2 k2 v2 t3) k = elim (compare (rank k) (rank k1)) [
  | Ordering.lt ↦ elim (compare (rank k) (rank k0)) [
    | Ordering.lt ↦ or_else (tree_search_gt rank t0 k) (k0, v0)
    | _ ↦ or_else (tree_search_gt rank t1 k) (k1, v1)
  ]
  | _ ↦ elim (compare (rank k) (rank k2)) [
    | Ordering.lt ↦ or_else (tree_search_gt rank t2 k) (k2, v2)
    | _ ↦ tree_search_gt rank t3 k
  ]
]

-- The emptiness of the first subtree, the second and the third is tested, of the last it is meant.
unfoldable pub tree_search_max : Tree → Option (ℕ × ℕ)
tree_search_max nil = none
tree_search_max (tree2 t0 k0 v0 t1) = elim (tree_isempty t0) [
  | true ↦ some (k0, v0)
  | false ↦ tree_search_max t1
]
tree_search_max (tree3 t0 k0 v0 t1 k1 v1 t2) = elim (tree_isempty t1) [
  | true ↦ some (k1, v1)
  | false ↦ tree_search_max t2
]
tree_search_max (tree4 t0 k0 v0 t1 k1 v1 t2 k2 v2 t3) = elim (tree_isempty t2) [
  | true ↦ some (k2, v2)
  | false ↦ tree_search_max t3
]
