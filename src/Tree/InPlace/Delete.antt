-- ===== src/Tree/InPlace/Delete.antt =====
-- tree.c: `tree_destructive_delete`, `tree_destructive_delete_min` and the functions under them: the tree
-- that a call returns, what it writes through the pointers, and `*reduced`.
use smchr.Prelude.{ℕ, Bool, true, false, Option, none, some}
use smchr.Tree.{Tree, nil, tree2, tree3, tree4, tree_isempty}
use smchr.Tree.Delete.{written, refix}
use smchr.Tree.InPlace.Fix.{
  tree2_destructive_fix_t0, tree2_destructive_fix_t1, tree3_destructive_fix_t0,
  tree3_destructive_fix_t1, tree3_destructive_fix_t2, tree4_destructive_fix_t0,
  tree4_destructive_fix_t1, tree4_destructive_fix_t2, tree4_destructive_fix_t3,
}
use Prim.Native.Nat.{compare, Ordering}

unfoldable pub tree_destructive_delete_min_2 : Tree → Bool → Option (Tree × Option (ℕ × ℕ) × Bool)
tree_destructive_delete_min_2 nil reduced = some (nil, none, false)
tree_destructive_delete_min_2 (tree2 t0 k0 v0 t1) reduced = elim (tree_isempty t0) [
  | true ↦ some (nil, some (k0, v0), true)
  | false ↦
      refix (tree_destructive_delete_min_2 t0 reduced)
        (λ nt r. tree2_destructive_fix_t0 nt k0 v0 t1 r)
]
tree_destructive_delete_min_2 (tree3 t0 k0 v0 t1 k1 v1 t2) reduced = elim (tree_isempty t0) [
  | true ↦ some (tree2 nil k1 v1 nil, some (k0, v0), reduced)
  | false ↦
      refix (tree_destructive_delete_min_2 t0 reduced)
        (λ nt r. tree3_destructive_fix_t0 nt k0 v0 t1 k1 v1 t2 r)
]
tree_destructive_delete_min_2 (tree4 t0 k0 v0 t1 k1 v1 t2 k2 v2 t3) reduced =
    elim (tree_isempty t0) [
      | true ↦ some (tree3 nil k1 v1 nil k2 v2 nil, some (k0, v0), reduced)
      | false ↦
          refix (tree_destructive_delete_min_2 t0 reduced)
            (λ nt r. tree4_destructive_fix_t0 nt k0 v0 t1 k1 v1 t2 k2 v2 t3 r)
    ]

-- The call writes the least entry of the subtree behind the deleted key over that key `k0` and its
-- value `v0`, which stay if it writes none.
abbrev pub over_min :
    ℕ
    → ℕ
    → Option (Tree × Option (ℕ × ℕ) × Bool)
    → (ℕ → ℕ → Tree → Bool → Option (Tree × Bool))
    → Option (Tree × Option ℕ × Bool)
over_min k0 v0 none fix = none
over_min k0 v0 (some (nt, none, reduced)) fix = written (some v0) (fix k0 v0 nt reduced)
over_min k0 v0 (some (nt, some (ks, vs), reduced)) fix = written (some v0) (fix ks vs nt reduced)

unfoldable pub tree_destructive_delete_2 :
    (ℕ → ℕ) → Tree → ℕ → Bool → Option (Tree × Option ℕ × Bool)
tree_destructive_delete_2 rank nil k reduced = some (nil, none, false)
tree_destructive_delete_2 rank (tree2 t0 k0 v0 t1) k reduced = elim (compare (rank k) (rank k0)) [
  | Ordering.lt ↦
      refix (tree_destructive_delete_2 rank t0 k reduced)
        (λ nt r. tree2_destructive_fix_t0 nt k0 v0 t1 r)
  | Ordering.gt ↦
      refix (tree_destructive_delete_2 rank t1 k reduced)
        (λ nt r. tree2_destructive_fix_t1 t0 k0 v0 nt r)
  | Ordering.eq ↦ elim (tree_isempty t1) [
    | true ↦ some (nil, some v0, true)
    | false ↦
        over_min k0 v0 (tree_destructive_delete_min_2 t1 reduced)
          (λ ks vs nt r. tree2_destructive_fix_t1 t0 ks vs nt r)
  ]
]
tree_destructive_delete_2 rank (tree3 t0 k0 v0 t1 k1 v1 t2) k reduced =
    elim (compare (rank k) (rank k0)) [
      | Ordering.lt ↦
          refix (tree_destructive_delete_2 rank t0 k reduced)
            (λ nt r. tree3_destructive_fix_t0 nt k0 v0 t1 k1 v1 t2 r)
      | Ordering.gt ↦ elim (compare (rank k) (rank k1)) [
        | Ordering.lt ↦
            refix (tree_destructive_delete_2 rank t1 k reduced)
              (λ nt r. tree3_destructive_fix_t1 t0 k0 v0 nt k1 v1 t2 r)
        | Ordering.gt ↦
            refix (tree_destructive_delete_2 rank t2 k reduced)
              (λ nt r. tree3_destructive_fix_t2 t0 k0 v0 t1 k1 v1 nt r)
        | Ordering.eq ↦ elim (tree_isempty t2) [
          | true ↦ some (tree2 nil k0 v0 nil, some v1, reduced)
          | false ↦
              over_min k1 v1 (tree_destructive_delete_min_2 t2 reduced)
                (λ ks vs nt r. tree3_destructive_fix_t2 t0 k0 v0 t1 ks vs nt r)
        ]
      ]
      | Ordering.eq ↦ elim (tree_isempty t1) [
        | true ↦ some (tree2 nil k1 v1 nil, some v0, reduced)
        | false ↦
            over_min k0 v0 (tree_destructive_delete_min_2 t1 reduced)
              (λ ks vs nt r. tree3_destructive_fix_t1 t0 ks vs nt k1 v1 t2 r)
      ]
    ]
tree_destructive_delete_2 rank (tree4 t0 k0 v0 t1 k1 v1 t2 k2 v2 t3) k reduced =
    elim (compare (rank k) (rank k1)) [
      | Ordering.lt ↦ elim (compare (rank k) (rank k0)) [
        | Ordering.lt ↦
            refix (tree_destructive_delete_2 rank t0 k reduced)
              (λ nt r. tree4_destructive_fix_t0 nt k0 v0 t1 k1 v1 t2 k2 v2 t3 r)
        | Ordering.gt ↦
            refix (tree_destructive_delete_2 rank t1 k reduced)
              (λ nt r. tree4_destructive_fix_t1 t0 k0 v0 nt k1 v1 t2 k2 v2 t3 r)
        | Ordering.eq ↦ elim (tree_isempty t1) [
          | true ↦ some (tree3 nil k1 v1 nil k2 v2 nil, some v0, reduced)
          | false ↦
              over_min k0 v0 (tree_destructive_delete_min_2 t1 reduced)
                (λ ks vs nt r. tree4_destructive_fix_t1 t0 ks vs nt k1 v1 t2 k2 v2 t3 r)
        ]
      ]
      | Ordering.gt ↦ elim (compare (rank k) (rank k2)) [
        | Ordering.lt ↦
            refix (tree_destructive_delete_2 rank t2 k reduced)
              (λ nt r. tree4_destructive_fix_t2 t0 k0 v0 t1 k1 v1 nt k2 v2 t3 r)
        | Ordering.gt ↦
            refix (tree_destructive_delete_2 rank t3 k reduced)
              (λ nt r. tree4_destructive_fix_t3 t0 k0 v0 t1 k1 v1 t2 k2 v2 nt r)
        | Ordering.eq ↦ elim (tree_isempty t3) [
          | true ↦ some (tree3 nil k0 v0 nil k1 v1 nil, some v2, reduced)
          | false ↦
              over_min k2 v2 (tree_destructive_delete_min_2 t3 reduced)
                (λ ks vs nt r. tree4_destructive_fix_t3 t0 k0 v0 t1 k1 v1 t2 ks vs nt r)
        ]
      ]
      | Ordering.eq ↦ elim (tree_isempty t2) [
        | true ↦ some (tree3 nil k0 v0 nil k2 v2 nil, some v1, reduced)
        | false ↦
            over_min k1 v1 (tree_destructive_delete_min_2 t2 reduced)
              (λ ks vs nt r. tree4_destructive_fix_t2 t0 k0 v0 t1 ks vs nt k2 v2 t3 r)
      ]
    ]

abbrev pub tree_destructive_delete_min : Tree → Option (Tree × Option (ℕ × ℕ) × Bool)
tree_destructive_delete_min t = tree_destructive_delete_min_2 t false

abbrev pub tree_destructive_delete : (ℕ → ℕ) → Tree → ℕ → Option (Tree × Option ℕ × Bool)
tree_destructive_delete rank t k = tree_destructive_delete_2 rank t k false
