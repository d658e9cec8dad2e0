-- ===== src/Tree/Insert/Rebuild.antt =====
-- tree.c, insertion: the nodes that `tree2_insert` and `tree3_insert` rebuild around a new subtree.
use smchr.Prelude.{ℕ, suc, ◌≡◌, sym, Option, none, some, List, ◌∷◌, ◌++◌}
use mathlib.Core.List.{append_assoc}
use smchr.Tree.{Tree, tree2, tree3}
use smchr.Tree.Entries.{entries, Balanced}
use smchr.Tree.Insert.{
  Child, same_child, split_child, same_child_of, left_of, right_of, put2_t0, put2_t1, put3_t0,
  put3_t1, put3_t2,
}

-- The result is a balanced tree of height `n` with the entries `es`.
abbrev pub Inserted : ℕ → List (ℕ × ℕ) → Option Tree → Type 0
Inserted n es none = ⊥
Inserted n es (some t) = Balanced n t × entries t ≡ es

abbrev pub InsertedChild : ℕ → List (ℕ × ℕ) → Option Child → Type 0
InsertedChild n es none = ⊥
InsertedChild n es (some (same_child t)) = Balanced n t × entries t ≡ es
InsertedChild n es (some (split_child lt km vm rt)) =
    Balanced n lt × Balanced n rt × entries lt ++ (km, vm) ∷ entries rt ≡ es

abbrev pub TwoOrThree : Tree → Type 0
TwoOrThree (tree2 t0 k0 v0 t1) = Unit
TwoOrThree (tree3 t0 k0 v0 t1 k1 v1 t2) = Unit
TwoOrThree _ = ⊥

pub same_child_of-Inserted :
    (n : ℕ) (es : List (ℕ × ℕ)) (o : Option Tree)
    → Inserted n es o
    → InsertedChild n es (same_child_of o)
same_child_of-Inserted n es none h = h
same_child_of-Inserted n es (some t) h = h

pub left_of-Inserted :
    (n : ℕ) (es fs : List (ℕ × ℕ)) (o : Option Tree) (km vm : ℕ) (rt : Tree)
    → Inserted n es o
    → Balanced n rt
    → es ++ (km, vm) ∷ entries rt ≡ fs
    → InsertedChild n fs (left_of o km vm rt)
left_of-Inserted n es fs none km vm rt h b e = h
left_of-Inserted n es fs (some t) km vm rt (bt, q) b e = (bt, b, rw q e)

pub right_of-Inserted :
    (n : ℕ) (es fs : List (ℕ × ℕ)) (lt : Tree) (km vm : ℕ) (o : Option Tree)
    → Balanced n lt
    → Inserted n es o
    → entries lt ++ (km, vm) ∷ es ≡ fs
    → InsertedChild n fs (right_of lt km vm o)
right_of-Inserted n es fs lt km vm none b h e = h
right_of-Inserted n es fs lt km vm (some t) b (bt, q) e = (b, bt, rw q e)

pub put2_t0-Inserted :
    (n : ℕ) (es fs : List (ℕ × ℕ)) (o : Option Child) (k0 v0 : ℕ) (t1 : Tree)
    → InsertedChild n es o
    → Balanced n t1
    → es ++ (k0, v0) ∷ entries t1 ≡ fs
    → Inserted (suc n) fs (put2_t0 o k0 v0 t1)
put2_t0-Inserted n es fs none k0 v0 t1 h b e = h
put2_t0-Inserted n es fs (some (same_child nt)) k0 v0 t1 (bt, q) b e = ((bt, b), rw q e)
put2_t0-Inserted n es fs (some (split_child lt km vm rt)) k0 v0 t1 (bl, br, q) b e =
    ((bl, br, b), simp (append_assoc, sym q, sym e))

pub put2_t1-Inserted :
    (n : ℕ) (es fs : List (ℕ × ℕ)) (t0 : Tree) (k0 v0 : ℕ) (o : Option Child)
    → Balanced n t0
    → InsertedChild n es o
    → entries t0 ++ (k0, v0) ∷ es ≡ fs
    → Inserted (suc n) fs (put2_t1 t0 k0 v0 o)
put2_t1-Inserted n es fs t0 k0 v0 none b h e = h
put2_t1-Inserted n es fs t0 k0 v0 (some (same_child nt)) b (bt, q) e = ((b, bt), rw q e)
put2_t1-Inserted n es fs t0 k0 v0 (some (split_child lt km vm rt)) b (bl, br, q) e =
    ((b, bl, br), simp (sym q, sym e))

pub put3_t0-Inserted :
    (n : ℕ) (es fs : List (ℕ × ℕ)) (o : Option Child) (k0 v0 : ℕ) (t1 : Tree) (k1 v1 : ℕ)
    (t2 : Tree)
    → InsertedChild n es o
    → Balanced n t1
    → Balanced n t2
    → es ++ (k0, v0) ∷ (entries t1 ++ (k1, v1) ∷ entries t2) ≡ fs
    → Inserted (suc n) fs (put3_t0 o k0 v0 t1 k1 v1 t2)
put3_t0-Inserted n es fs none k0 v0 t1 k1 v1 t2 h b c e = h
put3_t0-Inserted n es fs (some (same_child nt)) k0 v0 t1 k1 v1 t2 (bt, q) b c e =
    ((bt, b, c), rw q e)
put3_t0-Inserted n es fs (some (split_child lt km vm rt)) k0 v0 t1 k1 v1 t2 (bl, br, q) b c e =
    ((bl, br, b, c), simp (append_assoc, sym q, sym e))

pub put3_t1-Inserted :
    (n : ℕ) (es fs : List (ℕ × ℕ)) (t0 : Tree) (k0 v0 : ℕ) (o : Option Child) (k1 v1 : ℕ)
    (t2 : Tree)
    → Balanced n t0
    → InsertedChild n es o
    → Balanced n t2
    → entries t0 ++ (k0, v0) ∷ (es ++ (k1, v1) ∷ entries t2) ≡ fs
    → Inserted (suc n) fs (put3_t1 t0 k0 v0 o k1 v1 t2)
put3_t1-Inserted n es fs t0 k0 v0 none k1 v1 t2 b h c e = h
put3_t1-Inserted n es fs t0 k0 v0 (some (same_child nt)) k1 v1 t2 b (bt, q) c e =
    ((b, bt, c), rw q e)
put3_t1-Inserted n es fs t0 k0 v0 (some (split_child lt km vm rt)) k1 v1 t2 b (bl, br, q) c e =
    ((b, bl, br, c), simp (append_assoc, sym q, sym e))

pub put3_t2-Inserted :
    (n : ℕ) (es fs : List (ℕ × ℕ)) (t0 : Tree) (k0 v0 : ℕ) (t1 : Tree) (k1 v1 : ℕ)
    (o : Option Child)
    → Balanced n t0
    → Balanced n t1
    → InsertedChild n es o
    → entries t0 ++ (k0, v0) ∷ (entries t1 ++ (k1, v1) ∷ es) ≡ fs
    → Inserted (suc n) fs (put3_t2 t0 k0 v0 t1 k1 v1 o)
put3_t2-Inserted n es fs t0 k0 v0 t1 k1 v1 none b c h e = h
put3_t2-Inserted n es fs t0 k0 v0 t1 k1 v1 (some (same_child nt)) b c (bt, q) e =
    ((b, c, bt), rw q e)
put3_t2-Inserted n es fs t0 k0 v0 t1 k1 v1 (some (split_child lt km vm rt)) b c (bl, br, q) e =
    ((b, c, bl, br), simp (sym q, sym e))
