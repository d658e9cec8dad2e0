-- ===== src/Tree/Neighbour/Last.antt =====
-- tree.c: `tree_search_max` and the last entry of a tree.
use smchr.Prelude.{
  ℕ, zero, suc, ◌≡◌, refl, sym, ap, ◌∙◌, inl, inr, Option, none, some, List, [], ◌∷◌, ◌++◌,
  Option-cases,
}
use mathlib.Core.List.{append_assoc}
use smchr.Tree.{Tree, nil, tree2, tree3, tree4}
use smchr.Tree.Entries.{entries, Balanced, Balanced-nil, Balanced-tree_isempty}
use smchr.Tree.Neighbour.{or_else, tree_search_max}

abbrev pub last : List (ℕ × ℕ) → Option (ℕ × ℕ)
last [] = none
last (e ∷ es) = or_else (last es) e

last-append :
    (xs : List (ℕ × ℕ)) (e : ℕ × ℕ) (ys : List (ℕ × ℕ)) → last (xs ++ e ∷ ys) ≡ or_else (last ys) e
last-append [] e ys = refl
last-append (x ∷ xs) e ys = elim (Option-cases (last ys)) [
  | inl h ↦ rw (last-append xs e ys, h) refl
  | inr (f, h) ↦ rw (last-append xs e ys, h) refl
]

or_else-twice : (o : Option (ℕ × ℕ)) (e f : ℕ × ℕ) → or_else (or_else o e) f ≡ or_else o e
or_else-twice none e f = refl
or_else-twice (some g) e f = refl

last-nonempty :
    (n : ℕ) (t : Tree) (e : ℕ × ℕ)
    → Balanced (suc n) t
    → or_else (last (entries t)) e ≡ last (entries t)
last-nonempty n nil e b = elim b [ ]
last-nonempty n (tree2 t0 k0 v0 t1) e b =
    rw (last-append (entries t0) (k0, v0) (entries t1))
      (or_else-twice (last (entries t1)) (k0, v0) e)
last-nonempty n (tree3 t0 k0 v0 t1 k1 v1 t2) e b =
    let f0 = entries t1 ++ (k1, v1) ∷ entries t2 in
    rw (last-append (entries t0) (k0, v0) f0) (or_else-twice (last f0) (k0, v0) e)
last-nonempty n (tree4 t0 k0 v0 t1 k1 v1 t2 k2 v2 t3) e b =
    let f0 = entries t1 ++ (k1, v1) ∷ (entries t2 ++ (k2, v2) ∷ entries t3) in
    rw (last-append (entries t0) (k0, v0) f0) (or_else-twice (last f0) (k0, v0) e)

-- What follows the last key decides, if it is not empty.
last-behind :
    (n : ℕ) (xs : List (ℕ × ℕ)) (e : ℕ × ℕ) (t : Tree)
    → Balanced (suc n) t
    → last (xs ++ e ∷ entries t) ≡ last (entries t)
last-behind n xs e t b = last-append xs e (entries t) ∙ last-nonempty n t e b

-- `tree_search_max` in a balanced tree finds the last entry, and fails on the empty tree only.
pub tree_search_max-entries :
    (n : ℕ) (t : Tree) → Balanced n t → tree_search_max t ≡ last (entries t)
unfolding tree_search_max
tree_search_max-entries zero t b = rw (Balanced-nil t b) refl
tree_search_max-entries (suc n) nil b = refl
tree_search_max-entries (suc zero) (tree2 t0 k0 v0 t1) (b0, b1) =
    rw (Balanced-nil t0 b0, Balanced-nil t1 b1) refl
tree_search_max-entries (suc zero) (tree3 t0 k0 v0 t1 k1 v1 t2) (b0, b1, b2) =
    rw (Balanced-nil t0 b0, Balanced-nil t1 b1, Balanced-nil t2 b2) refl
tree_search_max-entries (suc zero) (tree4 t0 k0 v0 t1 k1 v1 t2 k2 v2 t3) (b0, b1, b2, b3) =
    rw (Balanced-nil t0 b0, Balanced-nil t1 b1, Balanced-nil t2 b2, Balanced-nil t3 b3) refl
tree_search_max-entries (suc (suc m)) (tree2 t0 k0 v0 t1) (b0, b1) =
    rw (tree_search_max, Balanced-tree_isempty m t0 b0)
      (tree_search_max-entries (suc m) t1 b1 ∙ sym (last-behind m (entries t0) (k0, v0) t1 b1))
tree_search_max-entries (suc (suc m)) (tree3 t0 k0 v0 t1 k1 v1 t2) (b0, b1, b2) =
    let xs = entries t0 ++ (k0, v0) ∷ entries t1 in
    let e : xs ++ (k1, v1) ∷ entries t2 ≡ entries (tree3 t0 k0 v0 t1 k1 v1 t2) =
      simp append_assoc in
    rw (tree_search_max, Balanced-tree_isempty m t1 b1)
      (tree_search_max-entries (suc m) t2 b2 ∙ sym (last-behind m xs (k1, v1) t2 b2) ∙ ap last e)
tree_search_max-entries (suc (suc m)) (tree4 t0 k0 v0 t1 k1 v1 t2 k2 v2 t3) (b0, b1, b2, b3) =
    let xs = entries t0 ++ (k0, v0) ∷ (entries t1 ++ (k1, v1) ∷ entries t2) in
    let e : xs ++ (k2, v2) ∷ entries t3 ≡ entries (tree4 t0 k0 v0 t1 k1 v1 t2 k2 v2 t3) =
      simp append_assoc in
    rw (tree_search_max, Balanced-tree_isempty m t2 b2)
      (tree_search_max-entries (suc m) t3 b3 ∙ sym (last-behind m xs (k2, v2) t3 b3) ∙ ap last e)
