-- ===== src/Tree/Delete/Steps.antt =====
-- tree.c, deletion: what the two shapes of a recursive case do, and the leaves.
use smchr.Prelude.{
  ℕ, suc, ◌≡◌, refl, ◌∙◌, ap, Bool, false, Option, none, some, List, [], ◌∷◌, arith,
}
use smchr.Tree.{Tree, nil, tree2, tree3, tree4}
use smchr.Tree.Entries.{entries, Sorted, Balanced, Balanced-nil, find, remove_entry}
use smchr.Tree.Fix.{
  tree2_fix_t0, tree2_fix_t1, tree3_fix_t0, tree3_fix_t1, tree3_fix_t2, tree4_fix_t0, tree4_fix_t1,
  tree4_fix_t2, tree4_fix_t3,
}
use smchr.Tree.Fix.Correct.{Reduced, Fixed}
use smchr.Tree.Delete.{written, refix, with_min, tree_delete_2}
use smchr.Tree.Delete.Min.{Removed, in_front}

-- `x` was written, and the entries `es` are left in a tree of height `n`, or of one level less.
abbrev pub Deleted : ℕ → List (ℕ × ℕ) → Option ℕ → Option (Tree × Option ℕ × Bool) → Type 0
Deleted n es x none = ⊥
Deleted n es x (some (t, y, reduced)) = Reduced reduced n t × entries t ≡ es × y ≡ x

written-Deleted :
    (n : ℕ) (es fs : List (ℕ × ℕ)) (x y : Option ℕ) (o : Option (Tree × Bool))
    → Fixed n es o
    → es ≡ fs
    → y ≡ x
    → Deleted n fs x (written y o)
written-Deleted n es fs x y none f p q = f
written-Deleted n es fs x y (some (t, r)) (b, e) p q = (b, e ∙ p, q)

-- The key belongs to a subtree.
pub refix-Deleted :
    (n : ℕ) (place : List (ℕ × ℕ) → List (ℕ × ℕ)) (es : List (ℕ × ℕ)) (x : Option ℕ)
    (o : Option (Tree × Option ℕ × Bool)) (fix : Tree → Bool → Option (Tree × Bool))
    → Deleted n es x o
    → ((t : Tree) (r : Bool) → Reduced r n t → Fixed (suc n) (place (entries t)) (fix t r))
    → Deleted (suc n) (place es) x (refix o fix)
refix-Deleted n place es x none fix h f = h
refix-Deleted n place es x (some (t, y, r)) fix (b, p, q) f =
    written-Deleted (suc n) (place (entries t)) (place es) x y (fix t r) (f t r b) (ap place p) q

-- The key is in the node: the first entry of the subtree behind it takes its place.
pub with_min-Deleted :
    (n : ℕ) (place : List (ℕ × ℕ) → List (ℕ × ℕ)) (es : List (ℕ × ℕ)) (v : ℕ)
    (o : Option (Tree × Option (ℕ × ℕ) × Bool)) (fix : ℕ → ℕ → Tree → Bool → Option (Tree × Bool))
    → Removed n in_front es o
    → ((ks vs : ℕ) (t : Tree) (r : Bool)
        → Reduced r n t
        → Fixed (suc n) (place ((ks, vs) ∷ entries t)) (fix ks vs t r))
    → Deleted (suc n) (place es) (some v) (with_min v o fix)
with_min-Deleted n place es v none fix h f = h
with_min-Deleted n place es v (some (t, none, r)) fix h f = elim h [ ]
with_min-Deleted n place es v (some (t, some (ks, vs), r)) fix (b, p) f =
    written-Deleted (suc n) (place ((ks, vs) ∷ entries t)) (place es) (some v) (some v)
      (fix ks vs t r) (f ks vs t r b) (ap place p) refl

module _ (rank : ℕ → ℕ) (k : ℕ) where
  -- What the deletion from `t` is to do.
  abbrev pub Deletes : ℕ → Tree → Type 0
  Deletes n t =
      Deleted n (remove_entry rank k (entries t)) (find rank k (entries t))
        (tree_delete_2 rank t k false)

  leaf2 : (k0 v0 : ℕ) → Deletes 1 (tree2 nil k0 v0 nil)
  unfolding tree_delete_2 tree2_fix_t0 tree2_fix_t1
  leaf2 k0 v0 = ground arith

  leaf3 :
      (lo hi k0 v0 k1 v1 : ℕ)
      → Sorted rank lo hi ((k0, v0) ∷ (k1, v1) ∷ [])
      → Deletes 1 (tree3 nil k0 v0 nil k1 v1 nil)
  unfolding tree_delete_2 tree3_fix_t0 tree3_fix_t1 tree3_fix_t2
  leaf3 lo hi k0 v0 k1 v1 s = ground arith

  leaf4 :
      (lo hi k0 v0 k1 v1 k2 v2 : ℕ)
      → Sorted rank lo hi ((k0, v0) ∷ (k1, v1) ∷ (k2, v2) ∷ [])
      → Deletes 1 (tree4 nil k0 v0 nil k1 v1 nil k2 v2 nil)
  unfolding tree_delete_2 tree4_fix_t0 tree4_fix_t1 tree4_fix_t2 tree4_fix_t3
  leaf4 lo hi k0 v0 k1 v1 k2 v2 s = ground arith

  -- A node without subtrees, of each kind.
  pub leaf2-Deleted :
      (lo hi : ℕ) (t0 : Tree) (k0 v0 : ℕ) (t1 : Tree)
      → Balanced 1 (tree2 t0 k0 v0 t1)
      → Sorted rank lo hi (entries (tree2 t0 k0 v0 t1))
      → Deletes 1 (tree2 t0 k0 v0 t1)
  leaf2-Deleted lo hi t0 k0 v0 t1 (b0, b1) s =
      rw (Balanced-nil t0 b0, Balanced-nil t1 b1) (leaf2 k0 v0)

  pub leaf3-Deleted :
      (lo hi : ℕ) (t0 : Tree) (k0 v0 : ℕ) (t1 : Tree) (k1 v1 : ℕ) (t2 : Tree)
      → Balanced 1 (tree3 t0 k0 v0 t1 k1 v1 t2)
      → Sorted rank lo hi (entries (tree3 t0 k0 v0 t1 k1 v1 t2))
      → Deletes 1 (tree3 t0 k0 v0 t1 k1 v1 t2)
  leaf3-Deleted lo hi t0 k0 v0 t1 k1 v1 t2 (b0, b1, b2) =
      rw (Balanced-nil t0 b0, Balanced-nil t1 b1, Balanced-nil t2 b2) (leaf3 lo hi k0 v0 k1 v1)

  pub leaf4-Deleted :
      (lo hi : ℕ) (t0 : Tree) (k0 v0 : ℕ) (t1 : Tree) (k1 v1 : ℕ) (t2 : Tree) (k2 v2 : ℕ)
      (t3 : Tree)
      → Balanced 1 (tree4 t0 k0 v0 t1 k1 v1 t2 k2 v2 t3)
      → Sorted rank lo hi (entries (tree4 t0 k0 v0 t1 k1 v1 t2 k2 v2 t3))
      → Deletes 1 (tree4 t0 k0 v0 t1 k1 v1 t2 k2 v2 t3)
  leaf4-Deleted lo hi t0 k0 v0 t1 k1 v1 t2 k2 v2 t3 (b0, b1, b2, b3) =
      rw (Balanced-nil t0 b0, Balanced-nil t1 b1, Balanced-nil t2 b2, Balanced-nil t3 b3)
        (leaf4 lo hi k0 v0 k1 v1 k2 v2)
