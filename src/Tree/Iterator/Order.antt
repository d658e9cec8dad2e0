-- ===== src/Tree/Iterator/Order.antt =====
-- tree.c: the entries that an iterator still has ahead, and the operations on them.
use smchr.Prelude.{
  ℕ, zero, suc, ◌<◌, ◌≡◌, refl, sym, ◌∙◌, Option, none, some, List, [], ◌∷◌, ◌++◌, arith,
}
use mathlib.Core.List.{append_assoc}
use smchr.Tree.{Tree, nil, tree2, tree3, tree4}
use smchr.Tree.Entries.{entries}
use smchr.Tree.Iterator.{Itr, push_leftmost, Get, got, no_more, tree_get, tree_next}

-- The entries of a node from its current key on.
abbrev pub from_offset : ℕ → Tree → List (ℕ × ℕ)
from_offset zero (tree2 t0 k0 v0 t1) = (k0, v0) ∷ entries t1
from_offset zero (tree3 t0 k0 v0 t1 k1 v1 t2) = (k0, v0) ∷ (entries t1 ++ (k1, v1) ∷ entries t2)
from_offset (suc zero) (tree3 t0 k0 v0 t1 k1 v1 t2) = (k1, v1) ∷ entries t2
from_offset zero (tree4 t0 k0 v0 t1 k1 v1 t2 k2 v2 t3) =
    (k0, v0) ∷ (entries t1 ++ (k1, v1) ∷ (entries t2 ++ (k2, v2) ∷ entries t3))
from_offset (suc zero) (tree4 t0 k0 v0 t1 k1 v1 t2 k2 v2 t3) =
    (k1, v1) ∷ (entries t2 ++ (k2, v2) ∷ entries t3)
from_offset (suc (suc zero)) (tree4 t0 k0 v0 t1 k1 v1 t2 k2 v2 t3) = (k2, v2) ∷ entries t3
from_offset _ _ = []

abbrev pub remaining : Itr → List (ℕ × ℕ)
remaining [] = []
remaining ((offset, t) ∷ i) = from_offset offset t ++ remaining i

-- Every node on the stack has the key that its tag names.
abbrev pub HasKey : ℕ → Tree → Type 0
HasKey zero (tree2 t0 k0 v0 t1) = Unit
HasKey offset (tree3 t0 k0 v0 t1 k1 v1 t2) = offset < 2
HasKey offset (tree4 t0 k0 v0 t1 k1 v1 t2 k2 v2 t3) = offset < 3
HasKey _ _ = ⊥

abbrev pub WellTagged : Itr → Type 0
WellTagged [] = Unit
WellTagged ((offset, t) ∷ i) = HasKey offset t × WellTagged i

pub push_leftmost-remaining :
    (i : Itr) (t : Tree) → remaining (push_leftmost i t) ≡ entries t ++ remaining i
unfolding push_leftmost
push_leftmost-remaining i nil = refl
push_leftmost-remaining i (tree2 t0 k0 v0 t1) =
    push_leftmost-remaining ((0, tree2 t0 k0 v0 t1) ∷ i) t0
    ∙ sym (append_assoc (entries t0) ((k0, v0) ∷ entries t1) (remaining i))
push_leftmost-remaining i (tree3 t0 k0 v0 t1 k1 v1 t2) =
    push_leftmost-remaining ((0, tree3 t0 k0 v0 t1 k1 v1 t2) ∷ i) t0
    ∙ sym
        (append_assoc (entries t0) ((k0, v0) ∷ (entries t1 ++ (k1, v1) ∷ entries t2)) (remaining i))
push_leftmost-remaining i (tree4 t0 k0 v0 t1 k1 v1 t2 k2 v2 t3) =
    push_leftmost-remaining ((0, tree4 t0 k0 v0 t1 k1 v1 t2 k2 v2 t3) ∷ i) t0
    ∙ sym (
        append_assoc (entries t0)
          ((k0, v0) ∷ (entries t1 ++ (k1, v1) ∷ (entries t2 ++ (k2, v2) ∷ entries t3)))
          (remaining i))

pub push_leftmost-WellTagged : (i : Itr) (t : Tree) → WellTagged i → WellTagged (push_leftmost i t)
unfolding push_leftmost
push_leftmost-WellTagged i nil w = w
push_leftmost-WellTagged i (tree2 t0 k0 v0 t1) w =
    push_leftmost-WellTagged ((0, tree2 t0 k0 v0 t1) ∷ i) t0 (tt, w)
push_leftmost-WellTagged i (tree3 t0 k0 v0 t1 k1 v1 t2) w =
    push_leftmost-WellTagged ((0, tree3 t0 k0 v0 t1 k1 v1 t2) ∷ i) t0 (omega arith, w)
push_leftmost-WellTagged i (tree4 t0 k0 v0 t1 k1 v1 t2 k2 v2 t3) w =
    push_leftmost-WellTagged ((0, tree4 t0 k0 v0 t1 k1 v1 t2 k2 v2 t3) ∷ i) t0 (omega arith, w)

-- What `tree_get` says and where `tree_next` goes, for the entries ahead.
abbrev pub Steps : List (ℕ × ℕ) → Get → Option Itr → Type 0
Steps es g none = ⊥
Steps [] g (some i) = (g ≡ no_more) × (i ≡ [])
Steps ((k, v) ∷ es) g (some i) = (g ≡ got k v) × WellTagged i × (remaining i ≡ es)

-- A well-tagged iterator neither aborts nor reads out of bounds: `tree_get` gives the first entry
-- ahead, or says that there is none, and `tree_next` leaves a well-tagged iterator with the others ahead.
pub tree_next-Steps : (i : Itr) → WellTagged i → Steps (remaining i) (tree_get i) (tree_next i)
unfolding tree_get tree_next
tree_next-Steps [] w = (refl, refl)
tree_next-Steps ((zero, tree2 t0 k0 v0 t1) ∷ i) (h, w) =
    (refl, push_leftmost-WellTagged i t1 w, push_leftmost-remaining i t1)
tree_next-Steps ((zero, tree3 t0 k0 v0 t1 k1 v1 t2) ∷ i) (h, w) =
    let next = (1, tree3 t0 k0 v0 t1 k1 v1 t2) ∷ i in
    (
      refl,
      push_leftmost-WellTagged next t1 (omega arith, w),
      push_leftmost-remaining next t1
          ∙ sym (append_assoc (entries t1) ((k1, v1) ∷ entries t2) (remaining i)),
    )
tree_next-Steps ((suc zero, tree3 t0 k0 v0 t1 k1 v1 t2) ∷ i) (h, w) =
    (refl, push_leftmost-WellTagged i t2 w, push_leftmost-remaining i t2)
tree_next-Steps ((zero, tree4 t0 k0 v0 t1 k1 v1 t2 k2 v2 t3) ∷ i) (h, w) =
    let next = (1, tree4 t0 k0 v0 t1 k1 v1 t2 k2 v2 t3) ∷ i in
    (
      refl,
      push_leftmost-WellTagged next t1 (omega arith, w),
      push_leftmost-remaining next t1
          ∙ sym (
              append_assoc (entries t1) ((k1, v1) ∷ (entries t2 ++ (k2, v2) ∷ entries t3))
                (remaining i)),
    )
tree_next-Steps ((suc zero, tree4 t0 k0 v0 t1 k1 v1 t2 k2 v2 t3) ∷ i) (h, w) =
    let next = (2, tree4 t0 k0 v0 t1 k1 v1 t2 k2 v2 t3) ∷ i in
    (
      refl,
      push_leftmost-WellTagged next t2 (omega arith, w),
      push_leftmost-remaining next t2
          ∙ sym (append_assoc (entries t2) ((k2, v2) ∷ entries t3) (remaining i)),
    )
tree_next-Steps ((suc (suc zero), tree4 t0 k0 v0 t1 k1 v1 t2 k2 v2 t3) ∷ i) (h, w) =
    (refl, push_leftmost-WellTagged i t3 w, push_leftmost-remaining i t3)
tree_next-Steps ((suc (suc n), tree3 t0 k0 v0 t1 k1 v1 t2) ∷ i) (h, w) =
    let bad : ⊥ = omega arith in elim bad [ ]
tree_next-Steps ((zero, nil) ∷ i) (h, w) = elim h [ ]
tree_next-Steps ((suc n, nil) ∷ i) (h, w) = elim h [ ]
tree_next-Steps ((suc n, tree2 t0 k0 v0 t1) ∷ i) (h, w) = elim h [ ]
tree_next-Steps ((suc (suc (suc n)), tree4 t0 k0 v0 t1 k1 v1 t2 k2 v2 t3) ∷ i) (h, w) =
    let bad : ⊥ = omega arith in elim bad [ ]
