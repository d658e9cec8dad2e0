-- ===== src/Tree/Iterator/Walk.antt =====
-- tree.c: a loop over an iterator, from its start to its end, and the room that its stack takes.
use smchr.Prelude.{
  ℕ, zero, suc, ◌+◌, ◌*◌, ◌≤◌, ◌<◌, ◌≡◌, refl, ◌∙◌, subst, inl, inr, Option, none, some, List, [],
  ◌∷◌, length, arith, Option-cases,
}
use mathlib.Core.List.{append-nil}
use smchr.Tree.{Tree, nil, tree2, tree3, tree4}
use smchr.Tree.Entries.{entries, Balanced, Sorted}
use smchr.Tree.Iterator.{
  Itr, push_leftmost, tree_itrinit, tree_itrinit_geq, tree_itrsize, Get, tree_get, tree_next, walk,
}
use smchr.Tree.Iterator.Geq.{at_least, tree_itrinit_geq-remaining}
use smchr.Tree.Iterator.Order.{
  remaining, WellTagged, Steps, tree_next-Steps, push_leftmost-remaining, push_leftmost-WellTagged,
}

-- The loop over a well-tagged iterator ends, at the latest one round after the last entry ahead, and
-- has met the entries ahead in their order.
pub walk-remaining :
    (es : List (ℕ × ℕ)) (n : ℕ) (i : Itr)
    → WellTagged i
    → remaining i ≡ es
    → length es < n
    → walk n i ≡ some es
unfolding walk
walk-remaining es zero i w e h = let bad : ⊥ = omega arith in elim bad [ ]
walk-remaining [] (suc n) i w e h =
    let s = subst (λ es. Steps es (tree_get i) (tree_next i)) e (tree_next-Steps i w) in
    elim (Option-cases (tree_next i)) [
      | inl f ↦ elim (subst (Steps [] (tree_get i)) f s) [ ]
      | inr (i', f) ↦ let (g, z) = subst (Steps [] (tree_get i)) f s in rw (walk, g) refl
    ]
walk-remaining ((k, v) ∷ es) (suc n) i w e h =
    let s = subst (λ es. Steps es (tree_get i) (tree_next i)) e (tree_next-Steps i w) in
    elim (Option-cases (tree_next i)) [
      | inl f ↦ elim (subst (Steps ((k, v) ∷ es) (tree_get i)) f s) [ ]
      | inr (i', f) ↦
          let (g, w', r) = subst (Steps ((k, v) ∷ es) (tree_get i)) f s in
          rw (walk, g, f, walk-remaining es n i' w' r (omega arith)) refl
    ]

-- Every node on the stack has, with the nodes above it, room below `slots`: the stack below it and
-- its own height fit.
abbrev pub Fits : ℕ → Itr → Type 0
Fits slots [] = Unit
Fits slots ((offset, t) ∷ i) =
    ((n : ℕ) × Balanced (suc n) t × (length i + suc n ≤ slots)) × Fits slots i

pub Fits-length : (slots : ℕ) (i : Itr) → Fits slots i → length i ≤ slots
Fits-length slots [] f = omega arith
Fits-length slots ((offset, t) ∷ i) ((n, b, l), f) = omega arith

pub push_leftmost-Fits :
    (slots n : ℕ) (i : Itr) (t : Tree)
    → Balanced n t
    → length i + n ≤ slots
    → Fits slots i
    → Fits slots (push_leftmost i t)
unfolding push_leftmost
push_leftmost-Fits slots n i nil b l f = f
push_leftmost-Fits slots zero i (tree2 t0 k0 v0 t1) b l f = elim b [ ]
push_leftmost-Fits slots zero i (tree3 t0 k0 v0 t1 k1 v1 t2) b l f = elim b [ ]
push_leftmost-Fits slots zero i (tree4 t0 k0 v0 t1 k1 v1 t2 k2 v2 t3) b l f = elim b [ ]
push_leftmost-Fits slots (suc n) i (tree2 t0 k0 v0 t1) (b0, b) l f =
    push_leftmost-Fits slots n ((0, tree2 t0 k0 v0 t1) ∷ i) t0 b0 (omega arith) ((n, (b0, b), l), f)
push_leftmost-Fits slots (suc n) i (tree3 t0 k0 v0 t1 k1 v1 t2) (b0, b1, b2) l f =
    push_leftmost-Fits slots n ((0, tree3 t0 k0 v0 t1 k1 v1 t2) ∷ i) t0 b0 (omega arith)
      ((n, (b0, b1, b2), l), f)
push_leftmost-Fits slots (suc n) i (tree4 t0 k0 v0 t1 k1 v1 t2 k2 v2 t3) (b0, b1, b2, b3) l f =
    push_leftmost-Fits slots n ((0, tree4 t0 k0 v0 t1 k1 v1 t2 k2 v2 t3) ∷ i) t0 b0 (omega arith)
      ((n, (b0, b1, b2, b3), l), f)

abbrev pub NextFits : ℕ → Option Itr → Type 0
NextFits slots none = Unit
NextFits slots (some i) = Fits slots i

pub tree_next-Fits : (slots : ℕ) (i : Itr) → Fits slots i → NextFits slots (tree_next i)
unfolding tree_next
tree_next-Fits slots [] f = tt
tree_next-Fits slots ((zero, nil) ∷ i) f = tt
tree_next-Fits slots ((suc offset, nil) ∷ i) f = tt
tree_next-Fits slots ((zero, tree2 t0 k0 v0 t1) ∷ i) ((n, (b0, b1), l), f) =
    push_leftmost-Fits slots n i t1 b1 (omega arith) f
tree_next-Fits slots ((suc offset, tree2 t0 k0 v0 t1) ∷ i) f = tt
tree_next-Fits slots ((zero, tree3 t0 k0 v0 t1 k1 v1 t2) ∷ i) ((n, (b0, b1, b2), l), f) =
    push_leftmost-Fits slots n ((1, tree3 t0 k0 v0 t1 k1 v1 t2) ∷ i) t1 b1 (omega arith)
      ((n, (b0, b1, b2), l), f)
tree_next-Fits slots ((suc offset, tree3 t0 k0 v0 t1 k1 v1 t2) ∷ i) ((n, (b0, b1, b2), l), f) =
    push_leftmost-Fits slots n i t2 b2 (omega arith) f
tree_next-Fits slots ((zero, tree4 t0 k0 v0 t1 k1 v1 t2 k2 v2 t3) ∷ i)
      ((n, (b0, b1, b2, b3), l), f) =
    push_leftmost-Fits slots n ((1, tree4 t0 k0 v0 t1 k1 v1 t2 k2 v2 t3) ∷ i) t1 b1 (omega arith)
      ((n, (b0, b1, b2, b3), l), f)
tree_next-Fits slots ((suc zero, tree4 t0 k0 v0 t1 k1 v1 t2 k2 v2 t3) ∷ i)
      ((n, (b0, b1, b2, b3), l), f) =
    push_leftmost-Fits slots n ((2, tree4 t0 k0 v0 t1 k1 v1 t2 k2 v2 t3) ∷ i) t2 b2 (omega arith)
      ((n, (b0, b1, b2, b3), l), f)
tree_next-Fits slots ((suc (suc zero), tree4 t0 k0 v0 t1 k1 v1 t2 k2 v2 t3) ∷ i)
      ((n, (b0, b1, b2, b3), l), f) =
    push_leftmost-Fits slots n i t3 b3 (omega arith) f
tree_next-Fits slots ((suc (suc (suc offset)), tree4 t0 k0 v0 t1 k1 v1 t2 k2 v2 t3) ∷ i) f = tt

-- The slots that `tree_itrsize` asks for are the height of a balanced tree.
tree_itrsize-height :
    (pointer header n : ℕ) (t : Tree)
    → Balanced n t
    → tree_itrsize pointer header t ≡ n * pointer + header
unfolding tree_itrsize
tree_itrsize-height pointer header zero nil b = omega arith
tree_itrsize-height pointer header (suc n) nil b = elim b [ ]
tree_itrsize-height pointer header zero (tree2 t0 k0 v0 t1) b = elim b [ ]
tree_itrsize-height pointer header zero (tree3 t0 k0 v0 t1 k1 v1 t2) b = elim b [ ]
tree_itrsize-height pointer header zero (tree4 t0 k0 v0 t1 k1 v1 t2 k2 v2 t3) b = elim b [ ]
tree_itrsize-height pointer header (suc n) (tree2 t0 k0 v0 t1) (b0, b) =
    ground (arith, tree_itrsize-height pointer header n t0 b0)
tree_itrsize-height pointer header (suc n) (tree3 t0 k0 v0 t1 k1 v1 t2) (b0, b1, b2) =
    ground (arith, tree_itrsize-height pointer header n t0 b0)
tree_itrsize-height pointer header (suc n) (tree4 t0 k0 v0 t1 k1 v1 t2 k2 v2 t3) (b0, b1, b2, b3) =
    ground (arith, tree_itrsize-height pointer header n t0 b0)

-- The stack after some number of calls of `tree_next`.
unfoldable pub next_times : ℕ → Itr → Option Itr
next_times zero i = some i
next_times (suc n) i = elim (next_times n i) [ none ↦ none | some i' ↦ tree_next i' ]

abbrev pub InRoom : ℕ → ℕ → Tree → Option Itr → Type 0
InRoom pointer header t none = ⊥
InRoom pointer header t (some i) = length i * pointer + header ≤ tree_itrsize pointer header t

rows_mono : (p a b : ℕ) → a ≤ b → a * p ≤ b * p
rows_mono p zero b h = omega arith
rows_mono p (suc a) zero h = let bad : ⊥ = omega arith in elim bad [ ]
rows_mono p (suc a) (suc b) h = ground (arith, rows_mono p a b (omega arith))

-- A well-tagged stack within the room, and no abort.
abbrev Kept : ℕ → Option Itr → Type 0
Kept slots none = ⊥
Kept slots (some i) = Fits slots i × WellTagged i

Steps-Kept :
    (slots : ℕ) (es : List (ℕ × ℕ)) (g : Get) (o : Option Itr)
    → Steps es g o
    → NextFits slots o
    → Kept slots o
Steps-Kept slots es g none s f = elim s [ ]
Steps-Kept slots [] g (some i) (e, z) f = (f, rw z tt)
Steps-Kept slots ((k, v) ∷ es) g (some i) (e, w, r) f = (f, w)

next_times-Kept :
    (slots n : ℕ) (i : Itr) → Fits slots i → WellTagged i → Kept slots (next_times n i)
unfolding next_times
next_times-Kept slots zero i f w = (f, w)
next_times-Kept slots (suc n) i f w =
    let g = next_times-Kept slots n i f w in
    elim (Option-cases (next_times n i)) [
      | inl e ↦ elim (subst (Kept slots) e g) [ ]
      | inr (i', e) ↦
          let (f', w') = subst (Kept slots) e g in
          rw (next_times, e)
            (Steps-Kept slots (remaining i') (tree_get i') (tree_next i') (tree_next-Steps i' w')
              (tree_next-Fits slots i' f'))
    ]

-- In a balanced tree no number of calls of `tree_next` after `tree_itrinit` aborts or reads out of
-- bounds, and the stack stays within the room that `tree_itrsize` asks for.
pub next_times-InRoom :
    (pointer header height n : ℕ) (t : Tree)
    → Balanced height t
    → InRoom pointer header t (next_times n (tree_itrinit t))
next_times-InRoom pointer header height n t b =
    let g =
      next_times-Kept height n (tree_itrinit t)
        (push_leftmost-Fits height height [] t b (omega arith) tt)
        (push_leftmost-WellTagged [] t tt) in
    elim (Option-cases (next_times n (tree_itrinit t))) [
      | inl e ↦ elim (subst (Kept height) e g) [ ]
      | inr (i, e) ↦
          let (f, w) = subst (Kept height) e g in
          let m = rows_mono pointer (length i) height (Fits-length height i f) in
          rw (e, tree_itrsize-height pointer header height t b) (omega (arith, m))
    ]

-- A loop from `tree_itrinit` ends, at the latest one round after the last entry, and has met the
-- entries of the tree in their order.
pub tree_itrinit-walk :
    (t : Tree) (n : ℕ) → length (entries t) < n → walk n (tree_itrinit t) ≡ some (entries t)
tree_itrinit-walk t n h =
    walk-remaining (entries t) n (tree_itrinit t) (push_leftmost-WellTagged [] t tt)
      (push_leftmost-remaining [] t ∙ append-nil (entries t)) h

-- A loop from `tree_itrinit_geq` over a sorted tree ends, at the latest one round after the last entry,
-- and has met the entries of at least the rank of `k`, in their order.
pub tree_itrinit_geq-walk :
    (rank : ℕ → ℕ) (lo hi : ℕ) (t : Tree) (k n : ℕ)
    → Sorted rank lo hi (entries t)
    → length (at_least rank k (entries t)) < n
    → walk n (tree_itrinit_geq rank t k) ≡ some (at_least rank k (entries t))
tree_itrinit_geq-walk rank lo hi t k n s h =
    let (w, e) = tree_itrinit_geq-remaining rank lo hi t k s in
    walk-remaining (at_least rank k (entries t)) n (tree_itrinit_geq rank t k) w e h
