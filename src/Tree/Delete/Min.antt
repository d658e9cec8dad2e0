-- ===== src/Tree/Delete/Min.antt =====
-- tree.c: `tree_delete_min` and `tree_delete_max` of a balanced tree.
use smchr.Prelude.{
  ℕ, zero, suc, ◌≡◌, refl, ◌∙◌, ap, Bool, false, Option, none, some, List, [], ◌∷◌, ◌++◌,
}
use mathlib.Core.List.{append_assoc}
use smchr.Tree.{Tree, nil, tree2, tree3, tree4}
use smchr.Tree.Entries.{entries, Balanced, Balanced-nil, Balanced-tree_isempty}
use smchr.Tree.Fix.{
  tree2_fix_t0, tree2_fix_t1, tree3_fix_t0, tree3_fix_t2, tree4_fix_t0, tree4_fix_t3,
}
use smchr.Tree.Fix.Correct.{
  Reduced, Fixed, tree2_fix_t0-Fixed, tree2_fix_t1-Fixed, tree3_fix_t0-Fixed, tree3_fix_t2-Fixed,
  tree4_fix_t0-Fixed, tree4_fix_t3-Fixed,
}
use smchr.Tree.Delete.{written, refix, tree_delete_min_2, tree_delete_max_2}

-- An entry was written that `build` makes `es` with out of the entries left; the tree has height
-- `n`, or one level less.
abbrev pub Removed :
    ℕ
    → (ℕ × ℕ → List (ℕ × ℕ) → List (ℕ × ℕ))
    → List (ℕ × ℕ)
    → Option (Tree × Option (ℕ × ℕ) × Bool)
    → Type 0
Removed n build es none = ⊥
Removed n build es (some (t, none, reduced)) = ⊥
Removed n build es (some (t, some e, reduced)) = Reduced reduced n t × build e (entries t) ≡ es

-- The removed entry was the first, or the last.
abbrev pub in_front : ℕ × ℕ → List (ℕ × ℕ) → List (ℕ × ℕ)
in_front e rest = e ∷ rest

abbrev pub at_end : ℕ × ℕ → List (ℕ × ℕ) → List (ℕ × ℕ)
at_end e rest = rest ++ e ∷ []

module _ (build : ℕ × ℕ → List (ℕ × ℕ) → List (ℕ × ℕ)) (place : List (ℕ × ℕ) → List (ℕ × ℕ))
    (commutes : (e : ℕ × ℕ) (rest : List (ℕ × ℕ))
      → build e (place rest) ≡ place (build e rest)) where
  written-Removed :
      (n : ℕ) (e : ℕ × ℕ) (es fs : List (ℕ × ℕ)) (o : Option (Tree × Bool))
      → Fixed n es o
      → build e es ≡ fs
      → Removed n build fs (written (some e) o)
  written-Removed n e es fs none f h = f
  written-Removed n e es fs (some (t, r)) (b, q) h = (b, rw q h)

  refix-Removed :
      (n : ℕ) (es fs : List (ℕ × ℕ)) (o : Option (Tree × Option (ℕ × ℕ) × Bool))
      (fix : Tree → Bool → Option (Tree × Bool))
      → Removed n build es o
      → ((t : Tree) (r : Bool) → Reduced r n t → Fixed (suc n) (place (entries t)) (fix t r))
      → place es ≡ fs
      → Removed (suc n) build fs (refix o fix)
  refix-Removed n es fs none fix h f q = h
  refix-Removed n es fs (some (t, none, r)) fix h f q = elim h [ ]
  refix-Removed n es fs (some (t, some e, r)) fix (b, p) f q =
      written-Removed (suc n) e (place (entries t)) fs (fix t r) (f t r b)
        (commutes e (entries t) ∙ ap place p ∙ q)

-- `tree_delete_min` of a balanced tree that is not empty meets no `abort()` and writes its first
-- entry; the other entries are left, in a balanced tree of the same height or of one level less.
pub tree_delete_min_2-Removed :
    (n : ℕ) (t : Tree)
    → Balanced (suc n) t
    → Removed (suc n) in_front (entries t) (tree_delete_min_2 t false)
unfolding tree_delete_min_2
tree_delete_min_2-Removed n nil b = elim b [ ]
tree_delete_min_2-Removed zero (tree2 t0 k0 v0 t1) (b0, b1) =
    rw (Balanced-nil t0 b0, Balanced-nil t1 b1) (tt, refl)
tree_delete_min_2-Removed zero (tree3 t0 k0 v0 t1 k1 v1 t2) (b0, b1, b2) =
    rw (Balanced-nil t0 b0, Balanced-nil t1 b1, Balanced-nil t2 b2) ((tt, tt), refl)
tree_delete_min_2-Removed zero (tree4 t0 k0 v0 t1 k1 v1 t2 k2 v2 t3) (b0, b1, b2, b3) =
    rw (Balanced-nil t0 b0, Balanced-nil t1 b1, Balanced-nil t2 b2, Balanced-nil t3 b3)
      ((tt, tt, tt), refl)
tree_delete_min_2-Removed (suc m) (tree2 t0 k0 v0 t1) (b0, b1) =
    let ys = (k0, v0) ∷ entries t1 in
    rw (tree_delete_min_2, Balanced-tree_isempty m t0 b0)
      (refix-Removed in_front (λ es. es ++ ys) (λ e rest. refl) (suc m) (entries t0)
        (entries t0 ++ ys) (tree_delete_min_2 t0 false) (λ nt r. tree2_fix_t0 nt k0 v0 t1 r)
        (tree_delete_min_2-Removed m t0 b0)
        (λ nt r h. tree2_fix_t0-Fixed (suc m) nt k0 v0 t1 r h b1) refl)
tree_delete_min_2-Removed (suc m) (tree3 t0 k0 v0 t1 k1 v1 t2) (b0, b1, b2) =
    let ys = (k0, v0) ∷ (entries t1 ++ (k1, v1) ∷ entries t2) in
    rw (tree_delete_min_2, Balanced-tree_isempty m t0 b0)
      (refix-Removed in_front (λ es. es ++ ys) (λ e rest. refl) (suc m) (entries t0)
        (entries t0 ++ ys) (tree_delete_min_2 t0 false)
        (λ nt r. tree3_fix_t0 nt k0 v0 t1 k1 v1 t2 r) (tree_delete_min_2-Removed m t0 b0)
        (λ nt r h. tree3_fix_t0-Fixed (suc m) nt k0 v0 t1 k1 v1 t2 r h b1 b2) refl)
tree_delete_min_2-Removed (suc m) (tree4 t0 k0 v0 t1 k1 v1 t2 k2 v2 t3) (b0, b1, b2, b3) =
    let ys = (k0, v0) ∷ (entries t1 ++ (k1, v1) ∷ (entries t2 ++ (k2, v2) ∷ entries t3)) in
    rw (tree_delete_min_2, Balanced-tree_isempty m t0 b0)
      (refix-Removed in_front (λ es. es ++ ys) (λ e rest. refl) (suc m) (entries t0)
        (entries t0 ++ ys) (tree_delete_min_2 t0 false)
        (λ nt r. tree4_fix_t0 nt k0 v0 t1 k1 v1 t2 k2 v2 t3 r) (tree_delete_min_2-Removed m t0 b0)
        (λ nt r h. tree4_fix_t0-Fixed (suc m) nt k0 v0 t1 k1 v1 t2 k2 v2 t3 r h b1 b2 b3) refl)

-- `tree_delete_max` likewise: it writes the last entry.
pub tree_delete_max_2-Removed :
    (n : ℕ) (t : Tree)
    → Balanced (suc n) t
    → Removed (suc n) at_end (entries t) (tree_delete_max_2 t false)
unfolding tree_delete_max_2
tree_delete_max_2-Removed n nil b = elim b [ ]
tree_delete_max_2-Removed zero (tree2 t0 k0 v0 t1) (b0, b1) =
    rw (Balanced-nil t0 b0, Balanced-nil t1 b1) (tt, refl)
tree_delete_max_2-Removed zero (tree3 t0 k0 v0 t1 k1 v1 t2) (b0, b1, b2) =
    rw (Balanced-nil t0 b0, Balanced-nil t1 b1, Balanced-nil t2 b2) ((tt, tt), refl)
tree_delete_max_2-Removed zero (tree4 t0 k0 v0 t1 k1 v1 t2 k2 v2 t3) (b0, b1, b2, b3) =
    rw (Balanced-nil t0 b0, Balanced-nil t1 b1, Balanced-nil t2 b2, Balanced-nil t3 b3)
      ((tt, tt, tt), refl)
tree_delete_max_2-Removed (suc m) (tree2 t0 k0 v0 t1) (b0, b1) =
    let around : List (ℕ × ℕ) → List (ℕ × ℕ) = λ es. entries t0 ++ (k0, v0) ∷ es in
    rw (tree_delete_max_2, Balanced-tree_isempty m t1 b1)
      (refix-Removed at_end around (λ e rest. simp append_assoc) (suc m) (entries t1)
        (around (entries t1)) (tree_delete_max_2 t1 false) (λ nt r. tree2_fix_t1 t0 k0 v0 nt r)
        (tree_delete_max_2-Removed m t1 b1)
        (λ nt r h. tree2_fix_t1-Fixed (suc m) t0 k0 v0 nt r b0 h) refl)
tree_delete_max_2-Removed (suc m) (tree3 t0 k0 v0 t1 k1 v1 t2) (b0, b1, b2) =
    let around : List (ℕ × ℕ) → List (ℕ × ℕ) =
      λ es. entries t0 ++ (k0, v0) ∷ (entries t1 ++ (k1, v1) ∷ es) in
    rw (tree_delete_max_2, Balanced-tree_isempty m t2 b2)
      (refix-Removed at_end around (λ e rest. simp append_assoc) (suc m) (entries t2)
        (around (entries t2)) (tree_delete_max_2 t2 false)
        (λ nt r. tree3_fix_t2 t0 k0 v0 t1 k1 v1 nt r) (tree_delete_max_2-Removed m t2 b2)
        (λ nt r h. tree3_fix_t2-Fixed (suc m) t0 k0 v0 t1 k1 v1 nt r b0 b1 h) refl)
tree_delete_max_2-Removed (suc m) (tree4 t0 k0 v0 t1 k1 v1 t2 k2 v2 t3) (b0, b1, b2, b3) =
    let around : List (ℕ × ℕ) → List (ℕ × ℕ) =
      λ es. entries t0 ++ (k0, v0) ∷ (entries t1 ++ (k1, v1) ∷ (entries t2 ++ (k2, v2) ∷ es)) in
    rw (tree_delete_max_2, Balanced-tree_isempty m t3 b3)
      (refix-Removed at_end around (λ e rest. simp append_assoc) (suc m) (entries t3)
        (around (entries t3)) (tree_delete_max_2 t3 false)
        (λ nt r. tree4_fix_t3 t0 k0 v0 t1 k1 v1 t2 k2 v2 nt r) (tree_delete_max_2-Removed m t3 b3)
        (λ nt r h. tree4_fix_t3-Fixed (suc m) t0 k0 v0 t1 k1 v1 t2 k2 v2 nt r b0 b1 b2 h) refl)
