-- ===== src/Tree/Delete.antt =====
-- tree.c: `tree_delete_2`, `tree_delete_min_2`, `tree_delete_max_2` and the functions that call them.
-- A result holds the tree, what is written through the pointers `k` and `v` (`none` when nothing is),
-- and `*reduced`, which is also an argument.
pub mod Min
pub mod Steps
pub mod Nodes
pub mod Node4
pub mod Correct
use smchr.Prelude.{ℕ, Bool, true, false, Option, none, some}
use smchr.Tree.{Tree, nil, tree2, tree3, tree4, tree_isempty}
use smchr.Tree.Fix.{
  tree2_fix_t0, tree2_fix_t1, tree3_fix_t0, tree3_fix_t1, tree3_fix_t2, tree4_fix_t0, tree4_fix_t1,
  tree4_fix_t2, tree4_fix_t3,
}
use Prim.Native.Nat.{compare, Ordering}

module _ {A : Type 0} where
  -- `return` of a rebuilt node, with what has been written through the pointers.
  abbrev pub written : A → Option (Tree × Bool) → Option (Tree × A × Bool)
  written x none = none
  written x (some (t, reduced)) = some (t, x, reduced)

  -- A recursive call, and the node rebuilt around its result.
  abbrev pub refix :
      Option (Tree × A × Bool) → (Tree → Bool → Option (Tree × Bool)) → Option (Tree × A × Bool)
  refix none fix = none
  refix (some (nt, x, reduced)) fix = written x (fix nt reduced)

unfoldable pub tree_delete_min_2 : Tree → Bool → Option (Tree × Option (ℕ × ℕ) × Bool)
tree_delete_min_2 nil reduced = some (nil, none, false)
tree_delete_min_2 (tree2 t0 k0 v0 t1) reduced = elim (tree_isempty t0) [
  | true ↦ some (nil, some (k0, v0), true)
  | false ↦ refix (tree_delete_min_2 t0 reduced) (λ nt r. tree2_fix_t0 nt k0 v0 t1 r)
]
tree_delete_min_2 (tree3 t0 k0 v0 t1 k1 v1 t2) reduced = elim (tree_isempty t0) [
  | true ↦ some (tree2 nil k1 v1 nil, some (k0, v0), reduced)
  | false ↦ refix (tree_delete_min_2 t0 reduced) (λ nt r. tree3_fix_t0 nt k0 v0 t1 k1 v1 t2 r)
]
tree_delete_min_2 (tree4 t0 k0 v0 t1 k1 v1 t2 k2 v2 t3) reduced = elim (tree_isempty t0) [
  | true ↦ some (tree3 nil k1 v1 nil k2 v2 nil, some (k0, v0), reduced)
  | false ↦
      refix (tree_delete_min_2 t0 reduced) (λ nt r. tree4_fix_t0 nt k0 v0 t1 k1 v1 t2 k2 v2 t3 r)
]

unfoldable pub tree_delete_max_2 : Tree → Bool → Option (Tree × Option (ℕ × ℕ) × Bool)
tree_delete_max_2 nil reduced = some (nil, none, false)
tree_delete_max_2 (tree2 t0 k0 v0 t1) reduced = elim (tree_isempty t1) [
  | true ↦ some (nil, some (k0, v0), true)
  | false ↦ refix (tree_delete_max_2 t1 reduced) (λ nt r. tree2_fix_t1 t0 k0 v0 nt r)
]
tree_delete_max_2 (tree3 t0 k0 v0 t1 k1 v1 t2) reduced = elim (tree_isempty t2) [
  | true ↦ some (tree2 nil k0 v0 nil, some (k1, v1), reduced)
  | false ↦ refix (tree_delete_max_2 t2 reduced) (λ nt r. tree3_fix_t2 t0 k0 v0 t1 k1 v1 nt r)
]
tree_delete_max_2 (tree4 t0 k0 v0 t1 k1 v1 t2 k2 v2 t3) reduced = elim (tree_isempty t3) [
  | true ↦ some (tree3 nil k0 v0 nil k1 v1 nil, some (k2, v2), reduced)
  | false ↦
      refix (tree_delete_max_2 t3 reduced) (λ nt r. tree4_fix_t3 t0 k0 v0 t1 k1 v1 t2 k2 v2 nt r)
]

-- The deleted key's place is taken by the least entry `ks`, `vs` of the subtree behind it. (They
-- would be read uninitialised if the call wrote none.)
abbrev pub with_min :
    ℕ
    → Option (Tree × Option (ℕ × ℕ) × Bool)
    → (ℕ → ℕ → Tree → Bool → Option (Tree × Bool))
    → Option (Tree × Option ℕ × Bool)
with_min v none fix = none
with_min v (some (nt, none, reduced)) fix = none
with_min v (some (nt, some (ks, vs), reduced)) fix = written (some v) (fix ks vs nt reduced)

unfoldable pub tree_delete_2 : (ℕ → ℕ) → Tree → ℕ → Bool → Option (Tree × Option ℕ × Bool)
tree_delete_2 rank nil k reduced = some (nil, none, false)
tree_delete_2 rank (tree2 t0 k0 v0 t1) k reduced = elim (compare (rank k) (rank k0)) [
  | Ordering.lt ↦ refix (tree_delete_2 rank t0 k reduced) (λ nt r. tree2_fix_t0 nt k0 v0 t1 r)
  | Ordering.gt ↦ refix (tree_delete_2 rank t1 k reduced) (λ nt r. tree2_fix_t1 t0 k0 v0 nt r)
  | Ordering.eq ↦ elim (tree_isempty t1) [
    | true ↦ some (nil, some v0, true)
    | false ↦ with_min v0 (tree_delete_min_2 t1 reduced) (λ ks vs nt r. tree2_fix_t1 t0 ks vs nt r)
  ]
]
tree_delete_2 rank (tree3 t0 k0 v0 t1 k1 v1 t2) k reduced = elim (compare (rank k) (rank k0)) [
  | Ordering.lt ↦
      refix (tree_delete_2 rank t0 k reduced) (λ nt r. tree3_fix_t0 nt k0 v0 t1 k1 v1 t2 r)
  | Ordering.gt ↦ elim (compare (rank k) (rank k1)) [
    | Ordering.lt ↦
        refix (tree_delete_2 rank t1 k reduced) (λ nt r. tree3_fix_t1 t0 k0 v0 nt k1 v1 t2 r)
    | Ordering.gt ↦
        refix (tree_delete_2 rank t2 k reduced) (λ nt r. tree3_fix_t2 t0 k0 v0 t1 k1 v1 nt r)
    | Ordering.eq ↦ elim (tree_isempty t2) [
      | true ↦ some (tree2 nil k0 v0 nil, some v1, reduced)
      | false ↦
          with_min v1 (tree_delete_min_2 t2 reduced)
            (λ ks vs nt r. tree3_fix_t2 t0 k0 v0 t1 ks vs nt r)
    ]
  ]
  | Ordering.eq ↦ elim (tree_isempty t1) [
    | true ↦ some (tree2 nil k1 v1 nil, some v0, reduced)
    | false ↦
        with_min v0 (tree_delete_min_2 t1 reduced)
          (λ ks vs nt r. tree3_fix_t1 t0 ks vs nt k1 v1 t2 r)
  ]
]
tree_delete_2 rank (tree4 t0 k0 v0 t1 k1 v1 t2 k2 v2 t3) k reduced =
    elim (compare (rank k) (rank k1)) [
      | Ordering.lt ↦ elim (compare (rank k) (rank k0)) [
        | Ordering.lt ↦
            refix (tree_delete_2 rank t0 k reduced)
              (λ nt r. tree4_fix_t0 nt k0 v0 t1 k1 v1 t2 k2 v2 t3 r)
        | Ordering.gt ↦
            refix (tree_delete_2 rank t1 k reduced)
              (λ nt r. tree4_fix_t1 t0 k0 v0 nt k1 v1 t2 k2 v2 t3 r)
        | Ordering.eq ↦ elim (tree_isempty t1) [
          | true ↦ some (tree3 nil k1 v1 nil k2 v2 nil, some v0, reduced)
          | false ↦
              with_min v0 (tree_delete_min_2 t1 reduced)
                (λ ks vs nt r. tree4_fix_t1 t0 ks vs nt k1 v1 t2 k2 v2 t3 r)
        ]
      ]
      | Ordering.gt ↦ elim (compare (rank k) (rank k2)) [
        | Ordering.lt ↦
            refix (tree_delete_2 rank t2 k reduced)
              (λ nt r. tree4_fix_t2 t0 k0 v0 t1 k1 v1 nt k2 v2 t3 r)
        | Ordering.gt ↦
            refix (tree_delete_2 rank t3 k reduced)
              (λ nt r. tree4_fix_t3 t0 k0 v0 t1 k1 v1 t2 k2 v2 nt r)
        | Ordering.eq ↦ elim (tree_isempty t3) [
          | true ↦ some (tree3 nil k0 v0 nil k1 v1 nil, some v2, reduced)
          | false ↦
              with_min v2 (tree_delete_min_2 t3 reduced)
                (λ ks vs nt r. tree4_fix_t3 t0 k0 v0 t1 k1 v1 t2 ks vs nt r)
        ]
      ]
      | Ordering.eq ↦ elim (tree_isempty t2) [
        | true ↦ some (tree3 nil k0 v0 nil k2 v2 nil, some v1, reduced)
        | false ↦
            with_min v1 (tree_delete_min_2 t2 reduced)
              (λ ks vs nt r. tree4_fix_t2 t0 k0 v0 t1 ks vs nt k2 v2 t3 r)
      ]
    ]

abbrev pub tree_delete_min : Tree → Option (Tree × Option (ℕ × ℕ) × Bool)
tree_delete_min t = tree_delete_min_2 t false

abbrev pub tree_delete_max : Tree → Option (Tree × Option (ℕ × ℕ) × Bool)
tree_delete_max t = tree_delete_max_2 t false

abbrev pub tree_delete : (ℕ → ℕ) → Tree → ℕ → Option (Tree × Option ℕ × Bool)
tree_delete rank t k = tree_delete_2 rank t k false
