-- ===== src/Tree/InPlace/DeleteSame.antt =====
-- tree.c: deletion in place returns what the persistent deletion returns.
use smchr.Prelude.{
  ℕ, Bool, false, ◌≡◌, refl, ◌∙◌, ap, Option, none, some, inl, inr, arith, Bool-cases,
  compare-cases,
}
use smchr.Tree.{Tree, nil, tree2, tree3, tree4, tree_isempty}
use smchr.Tree.Delete.{written, refix, with_min, tree_delete_min_2, tree_delete_2, tree_delete}
use smchr.Tree.Fix.{tree2_fix_t0, tree3_fix_t0, tree4_fix_t0}
use smchr.Tree.InPlace.Delete.{
  tree_destructive_delete_min_2, over_min, tree_destructive_delete_2, tree_destructive_delete,
}
use smchr.Tree.InPlace.FixSame.{
  same_tree2_t0, same_tree2_t1, same_tree3_t0, same_tree3_t1, same_tree3_t2, same_tree4_t0,
  same_tree4_t1, same_tree4_t2, same_tree4_t3,
}

abbrev Fix : Type 0
Fix = Tree → Bool → Option (Tree × Bool)

branch :
    {A : Type 0} {o p : Option (Tree × A × Bool)} {f g : Fix}
    → o ≡ p
    → ((nt : Tree) (r : Bool) → f nt r ≡ g nt r)
    → refix o f ≡ refix p g
branch {p = p} {f = f} {g = g} e h = ap (λ x. refix x f) e ∙ ap (refix p) (λ i nt r. h nt r i)

-- A deletion of the least entry that does not abort has written one.
abbrev Writes : Option (Tree × Option (ℕ × ℕ) × Bool) → Type 0
Writes none = Unit
Writes (some (t, none, r)) = ⊥
Writes (some (t, some e, r)) = Unit

written-Writes : (e : ℕ × ℕ) (o : Option (Tree × Bool)) → Writes (written (some e) o)
written-Writes e none = tt
written-Writes e (some (t, r)) = tt

refix-Writes : (o : Option (Tree × Option (ℕ × ℕ) × Bool)) (f : Fix) → Writes o → Writes (refix o f)
refix-Writes none f w = tt
refix-Writes (some (t, none, r)) f w = elim w [ ]
refix-Writes (some (t, some e, r)) f w = written-Writes e (f t r)

min-Writes : (t : Tree) (r : Bool) → tree_isempty t ≡ false → Writes (tree_delete_min_2 t r)
unfolding tree_delete_min_2
min-Writes nil r e = let bad : ⊥ = ground (arith, e) in elim bad [ ]
min-Writes (tree2 t0 k0 v0 t1) r e = elim (Bool-cases (tree_isempty t0)) [
  | inl z ↦ rw (tree_delete_min_2, z) tt
  | inr z ↦
      rw (tree_delete_min_2, z)
        (refix-Writes (tree_delete_min_2 t0 r) (λ nt r. tree2_fix_t0 nt k0 v0 t1 r)
          (min-Writes t0 r z))
]
min-Writes (tree3 t0 k0 v0 t1 k1 v1 t2) r e = elim (Bool-cases (tree_isempty t0)) [
  | inl z ↦ rw (tree_delete_min_2, z) tt
  | inr z ↦
      rw (tree_delete_min_2, z)
        (refix-Writes (tree_delete_min_2 t0 r) (λ nt r. tree3_fix_t0 nt k0 v0 t1 k1 v1 t2 r)
          (min-Writes t0 r z))
]
min-Writes (tree4 t0 k0 v0 t1 k1 v1 t2 k2 v2 t3) r e = elim (Bool-cases (tree_isempty t0)) [
  | inl z ↦ rw (tree_delete_min_2, z) tt
  | inr z ↦
      rw (tree_delete_min_2, z)
        (refix-Writes (tree_delete_min_2 t0 r)
          (λ nt r. tree4_fix_t0 nt k0 v0 t1 k1 v1 t2 k2 v2 t3 r) (min-Writes t0 r z))
]

min_branch :
    (k v : ℕ) {o p : Option (Tree × Option (ℕ × ℕ) × Bool)} {f g : ℕ → ℕ → Fix}
    → o ≡ p
    → Writes p
    → ((ks vs : ℕ) (nt : Tree) (r : Bool) → f ks vs nt r ≡ g ks vs nt r)
    → over_min k v o f ≡ with_min v p g
min_branch k v {p = none} {f = f} e w h = ap (λ x. over_min k v x f) e
min_branch k v {p = some (t, none, r)} e w h = elim w [ ]
min_branch k v {p = some (t, some (ks, vs), r)} {f = f} e w h =
    ap (λ x. over_min k v x f) e ∙ ap (written (some v)) (h ks vs t r)

-- `tree_destructive_delete_min` returns and writes what `tree_delete_min` returns and writes.
pub same_min : (t : Tree) (r : Bool) → tree_destructive_delete_min_2 t r ≡ tree_delete_min_2 t r
unfolding tree_destructive_delete_min_2 tree_delete_min_2
same_min nil r = refl
same_min (tree2 t0 k0 v0 t1) r = elim (Bool-cases (tree_isempty t0)) [
  | inl z ↦ rw (tree_destructive_delete_min_2, tree_delete_min_2, z) refl
  | inr z ↦
      rw (tree_destructive_delete_min_2, tree_delete_min_2, z)
        (branch (same_min t0 r) (λ nt r. same_tree2_t0 nt k0 v0 t1 r))
]
same_min (tree3 t0 k0 v0 t1 k1 v1 t2) r = elim (Bool-cases (tree_isempty t0)) [
  | inl z ↦ rw (tree_destructive_delete_min_2, tree_delete_min_2, z) refl
  | inr z ↦
      rw (tree_destructive_delete_min_2, tree_delete_min_2, z)
        (branch (same_min t0 r) (λ nt r. same_tree3_t0 nt k0 v0 t1 k1 v1 t2 r))
]
same_min (tree4 t0 k0 v0 t1 k1 v1 t2 k2 v2 t3) r = elim (Bool-cases (tree_isempty t0)) [
  | inl z ↦ rw (tree_destructive_delete_min_2, tree_delete_min_2, z) refl
  | inr z ↦
      rw (tree_destructive_delete_min_2, tree_delete_min_2, z)
        (branch (same_min t0 r) (λ nt r. same_tree4_t0 nt k0 v0 t1 k1 v1 t2 k2 v2 t3 r))
]

module _ (rank : ℕ → ℕ) where
  same_delete :
      (t : Tree) (k : ℕ) (r : Bool)
      → tree_destructive_delete_2 rank t k r ≡ tree_delete_2 rank t k r
  unfolding tree_destructive_delete_2 tree_delete_2
  same_delete nil k r = refl
  same_delete (tree2 t0 k0 v0 t1) k r =
      let i0 = same_delete t0 k r in
      let i1 = same_delete t1 k r in
      elim (compare-cases (rank k) (rank k0)) [
        | inl (h, e) ↦
            rw (tree_destructive_delete_2, tree_delete_2, e)
              (branch i0 (λ nt r. same_tree2_t0 nt k0 v0 t1 r))
        | inr (inl (h, e)) ↦ elim (Bool-cases (tree_isempty t1)) [
          | inl z ↦ rw (tree_destructive_delete_2, tree_delete_2, e, z) refl
          | inr z ↦
              rw (tree_destructive_delete_2, tree_delete_2, e, z)
                (min_branch k0 v0 (same_min t1 r) (min-Writes t1 r z)
                  (λ ks vs nt r. same_tree2_t1 t0 ks vs nt r))
        ]
        | inr (inr (h, e)) ↦
            rw (tree_destructive_delete_2, tree_delete_2, e)
              (branch i1 (λ nt r. same_tree2_t1 t0 k0 v0 nt r))
      ]
  same_delete (tree3 t0 k0 v0 t1 k1 v1 t2) k r =
      let i0 = same_delete t0 k r in
      let i1 = same_delete t1 k r in
      let i2 = same_delete t2 k r in
      elim (compare-cases (rank k) (rank k0)) [
        | inl (h, e) ↦
            rw (tree_destructive_delete_2, tree_delete_2, e)
              (branch i0 (λ nt r. same_tree3_t0 nt k0 v0 t1 k1 v1 t2 r))
        | inr (inl (h, e)) ↦ elim (Bool-cases (tree_isempty t1)) [
          | inl z ↦ rw (tree_destructive_delete_2, tree_delete_2, e, z) refl
          | inr z ↦
              rw (tree_destructive_delete_2, tree_delete_2, e, z)
                (min_branch k0 v0 (same_min t1 r) (min-Writes t1 r z)
                  (λ ks vs nt r. same_tree3_t1 t0 ks vs nt k1 v1 t2 r))
        ]
        | inr (inr (h, e)) ↦ elim (compare-cases (rank k) (rank k1)) [
          | inl (g, f) ↦
              rw (tree_destructive_delete_2, tree_delete_2, e, f)
                (branch i1 (λ nt r. same_tree3_t1 t0 k0 v0 nt k1 v1 t2 r))
          | inr (inl (g, f)) ↦ elim (Bool-cases (tree_isempty t2)) [
            | inl z ↦ rw (tree_destructive_delete_2, tree_delete_2, e, f, z) refl
            | inr z ↦
                rw (tree_destructive_delete_2, tree_delete_2, e, f, z)
                  (min_branch k1 v1 (same_min t2 r) (min-Writes t2 r z)
                    (λ ks vs nt r. same_tree3_t2 t0 k0 v0 t1 ks vs nt r))
          ]
          | inr (inr (g, f)) ↦
              rw (tree_destructive_delete_2, tree_delete_2, e, f)
                (branch i2 (λ nt r. same_tree3_t2 t0 k0 v0 t1 k1 v1 nt r))
        ]
      ]
  same_delete (tree4 t0 k0 v0 t1 k1 v1 t2 k2 v2 t3) k r =
      let i0 = same_delete t0 k r in
      let i1 = same_delete t1 k r in
      let i2 = same_delete t2 k r in
      let i3 = same_delete t3 k r in
      elim (compare-cases (rank k) (rank k1)) [
        | inl (h, e) ↦ elim (compare-cases (rank k) (rank k0)) [
          | inl (g, f) ↦
              rw (tree_destructive_delete_2, tree_delete_2, e, f)
                (branch i0 (λ nt r. same_tree4_t0 nt k0 v0 t1 k1 v1 t2 k2 v2 t3 r))
          | inr (inl (g, f)) ↦ elim (Bool-cases (tree_isempty t1)) [
            | inl z ↦ rw (tree_destructive_delete_2, tree_delete_2, e, f, z) refl
            | inr z ↦
                rw (tree_destructive_delete_2, tree_delete_2, e, f, z)
                  (min_branch k0 v0 (same_min t1 r) (min-Writes t1 r z)
                    (λ ks vs nt r. same_tree4_t1 t0 ks vs nt k1 v1 t2 k2 v2 t3 r))
          ]
          | inr (inr (g, f)) ↦
              rw (tree_destructive_delete_2, tree_delete_2, e, f)
                (branch i1 (λ nt r. same_tree4_t1 t0 k0 v0 nt k1 v1 t2 k2 v2 t3 r))
        ]
        | inr (inl (h, e)) ↦ elim (Bool-cases (tree_isempty t2)) [
          | inl z ↦ rw (tree_destructive_delete_2, tree_delete_2, e, z) refl
          | inr z ↦
              rw (tree_destructive_delete_2, tree_delete_2, e, z)
                (min_branch k1 v1 (same_min t2 r) (min-Writes t2 r z)
                  (λ ks vs nt r. same_tree4_t2 t0 k0 v0 t1 ks vs nt k2 v2 t3 r))
        ]
        | inr (inr (h, e)) ↦ elim (compare-cases (rank k) (rank k2)) [
          | inl (g, f) ↦
              rw (tree_destructive_delete_2, tree_delete_2, e, f)
                (branch i2 (λ nt r. same_tree4_t2 t0 k0 v0 t1 k1 v1 nt k2 v2 t3 r))
          | inr (inl (g, f)) ↦ elim (Bool-cases (tree_isempty t3)) [
            | inl z ↦ rw (tree_destructive_delete_2, tree_delete_2, e, f, z) refl
            | inr z ↦
                rw (tree_destructive_delete_2, tree_delete_2, e, f, z)
                  (min_branch k2 v2 (same_min t3 r) (min-Writes t3 r z)
                    (λ ks vs nt r. same_tree4_t3 t0 k0 v0 t1 k1 v1 t2 ks vs nt r))
          ]
          | inr (inr (g, f)) ↦
              rw (tree_destructive_delete_2, tree_delete_2, e, f)
                (branch i3 (λ nt r. same_tree4_t3 t0 k0 v0 t1 k1 v1 t2 k2 v2 nt r))
        ]
      ]

  -- `tree_destructive_delete` returns the tree that `tree_delete` returns, and writes what it writes.
  pub destructive_delete-tree_delete :
      (t : Tree) (k : ℕ) → tree_destructive_delete rank t k ≡ tree_delete rank t k
  destructive_delete-tree_delete t k = same_delete t k false
