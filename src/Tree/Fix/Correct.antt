-- ===== src/Tree/Fix/Correct.antt =====
-- tree.c: the entries and the height of what each `treeN_fix_ti` builds.
use smchr.Prelude.{ℕ, zero, suc, ◌≡◌, refl, Bool, true, false, Option, none, some, List}
use mathlib.Core.List.{append_assoc}
use smchr.Tree.{Tree, nil, tree2, tree3, tree4}
use smchr.Tree.Entries.{entries, Balanced}
use smchr.Tree.Fix.{
  tree2_fix_t0, tree2_fix_t1, tree3_fix_t0, tree3_fix_t1, tree3_fix_t2, tree4_fix_t0, tree4_fix_t1,
  tree4_fix_t2, tree4_fix_t3,
}

-- A tree of height `n`, or one level less when the flag `reduced` says so.
abbrev pub Reduced : Bool → ℕ → Tree → Type 0
Reduced false n t = Balanced n t
Reduced true zero t = ⊥
Reduced true (suc n) t = Balanced n t

-- The result has the entries `es` and height `n`, or one level less.
abbrev pub Fixed : ℕ → List (ℕ × ℕ) → Option (Tree × Bool) → Type 0
Fixed n es none = ⊥
Fixed n es (some (t, reduced)) = Reduced reduced n t × entries t ≡ es

pub tree2_fix_t0-Fixed :
    (n : ℕ) (t0 : Tree) (k0 v0 : ℕ) (t1 : Tree) (reduced : Bool)
    → Reduced reduced n t0
    → Balanced n t1
    → Fixed (suc n) (entries (tree2 t0 k0 v0 t1)) (tree2_fix_t0 t0 k0 v0 t1 reduced)
unfolding tree2_fix_t0
tree2_fix_t0-Fixed n t0 k0 v0 t1 false h0 h1 = ((h0, h1), refl)
tree2_fix_t0-Fixed zero t0 k0 v0 t1 true h0 h1 = elim h0 [ ]
tree2_fix_t0-Fixed (suc n) t0 k0 v0 nil true h0 h1 = elim h1 [ ]
tree2_fix_t0-Fixed (suc n) t0 k0 v0 (tree2 l kl vl r) true h0 (a, b) = ((h0, a, b), refl)
tree2_fix_t0-Fixed (suc n) t0 k0 v0 (tree3 l kl vl m km vm r) true h0 (a, b, c) =
    (((h0, a), (b, c)), simp append_assoc)
tree2_fix_t0-Fixed (suc n) t0 k0 v0 (tree4 l kl vl m km vm p kp vp r) true h0 (a, b, c, d) =
    (((h0, a), (b, c, d)), simp append_assoc)

pub tree2_fix_t1-Fixed :
    (n : ℕ) (t0 : Tree) (k0 v0 : ℕ) (t1 : Tree) (reduced : Bool)
    → Balanced n t0
    → Reduced reduced n t1
    → Fixed (suc n) (entries (tree2 t0 k0 v0 t1)) (tree2_fix_t1 t0 k0 v0 t1 reduced)
unfolding tree2_fix_t1
tree2_fix_t1-Fixed n t0 k0 v0 t1 false h0 h1 = ((h0, h1), refl)
tree2_fix_t1-Fixed zero t0 k0 v0 t1 true h0 h1 = elim h1 [ ]
tree2_fix_t1-Fixed (suc n) nil k0 v0 t1 true h0 h1 = elim h0 [ ]
tree2_fix_t1-Fixed (suc n) (tree2 l kl vl r) k0 v0 t1 true (a, b) h1 =
    ((a, b, h1), simp append_assoc)
tree2_fix_t1-Fixed (suc n) (tree3 l kl vl m km vm r) k0 v0 t1 true (a, b, c) h1 =
    (((a, b), (c, h1)), simp append_assoc)
tree2_fix_t1-Fixed (suc n) (tree4 l kl vl m km vm p kp vp r) k0 v0 t1 true (a, b, c, d) h1 =
    (((a, b, c), (d, h1)), simp append_assoc)

pub tree3_fix_t0-Fixed :
    (n : ℕ) (t0 : Tree) (k0 v0 : ℕ) (t1 : Tree) (k1 v1 : ℕ) (t2 : Tree) (reduced : Bool)
    → Reduced reduced n t0
    → Balanced n t1
    → Balanced n t2
    → Fixed
        (suc n)
        (entries (tree3 t0 k0 v0 t1 k1 v1 t2))
        (tree3_fix_t0 t0 k0 v0 t1 k1 v1 t2 reduced)
unfolding tree3_fix_t0
tree3_fix_t0-Fixed n t0 k0 v0 t1 k1 v1 t2 false h0 h1 h2 = ((h0, h1, h2), refl)
tree3_fix_t0-Fixed zero t0 k0 v0 t1 k1 v1 t2 true h0 h1 h2 = elim h0 [ ]
tree3_fix_t0-Fixed (suc n) t0 k0 v0 nil k1 v1 t2 true h0 h1 h2 = elim h1 [ ]
tree3_fix_t0-Fixed (suc n) t0 k0 v0 (tree2 l kl vl r) k1 v1 t2 true h0 (a, b) h2 =
    (((h0, a, b), h2), simp append_assoc)
tree3_fix_t0-Fixed (suc n) t0 k0 v0 (tree3 l kl vl m km vm r) k1 v1 t2 true h0 (a, b, c) h2 =
    (((h0, a), (b, c), h2), simp append_assoc)
tree3_fix_t0-Fixed (suc n) t0 k0 v0 (tree4 l kl vl m km vm p kp vp r) k1 v1 t2 true h0 (a, b, c, d)
      h2 =
    (((h0, a), (b, c, d), h2), simp append_assoc)

pub tree3_fix_t1-Fixed :
    (n : ℕ) (t0 : Tree) (k0 v0 : ℕ) (t1 : Tree) (k1 v1 : ℕ) (t2 : Tree) (reduced : Bool)
    → Balanced n t0
    → Reduced reduced n t1
    → Balanced n t2
    → Fixed
        (suc n)
        (entries (tree3 t0 k0 v0 t1 k1 v1 t2))
        (tree3_fix_t1 t0 k0 v0 t1 k1 v1 t2 reduced)
unfolding tree3_fix_t1
tree3_fix_t1-Fixed n t0 k0 v0 t1 k1 v1 t2 false h0 h1 h2 = ((h0, h1, h2), refl)
tree3_fix_t1-Fixed zero t0 k0 v0 t1 k1 v1 t2 true h0 h1 h2 = elim h1 [ ]
tree3_fix_t1-Fixed (suc n) nil k0 v0 t1 k1 v1 t2 true h0 h1 h2 = elim h0 [ ]
tree3_fix_t1-Fixed (suc n) (tree2 l kl vl r) k0 v0 t1 k1 v1 t2 true (a, b) h1 h2 =
    (((a, b, h1), h2), simp append_assoc)
tree3_fix_t1-Fixed (suc n) (tree3 l kl vl m km vm r) k0 v0 t1 k1 v1 t2 true (a, b, c) h1 h2 =
    (((a, b), (c, h1), h2), simp append_assoc)
tree3_fix_t1-Fixed (suc n) (tree4 l kl vl m km vm p kp vp r) k0 v0 t1 k1 v1 t2 true (a, b, c, d) h1
      h2 =
    (((a, b, c), (d, h1), h2), simp append_assoc)

pub tree3_fix_t2-Fixed :
    (n : ℕ) (t0 : Tree) (k0 v0 : ℕ) (t1 : Tree) (k1 v1 : ℕ) (t2 : Tree) (reduced : Bool)
    → Balanced n t0
    → Balanced n t1
    → Reduced reduced n t2
    → Fixed
        (suc n)
        (entries (tree3 t0 k0 v0 t1 k1 v1 t2))
        (tree3_fix_t2 t0 k0 v0 t1 k1 v1 t2 reduced)
unfolding tree3_fix_t2
tree3_fix_t2-Fixed n t0 k0 v0 t1 k1 v1 t2 false h0 h1 h2 = ((h0, h1, h2), refl)
tree3_fix_t2-Fixed zero t0 k0 v0 t1 k1 v1 t2 true h0 h1 h2 = elim h2 [ ]
tree3_fix_t2-Fixed (suc n) t0 k0 v0 nil k1 v1 t2 true h0 h1 h2 = elim h1 [ ]
tree3_fix_t2-Fixed (suc n) t0 k0 v0 (tree2 l kl vl r) k1 v1 t2 true h0 (a, b) h2 =
    ((h0, (a, b, h2)), simp append_assoc)
tree3_fix_t2-Fixed (suc n) t0 k0 v0 (tree3 l kl vl m km vm r) k1 v1 t2 true h0 (a, b, c) h2 =
    ((h0, (a, b), (c, h2)), simp append_assoc)
tree3_fix_t2-Fixed (suc n) t0 k0 v0 (tree4 l kl vl m km vm p kp vp r) k1 v1 t2 true h0 (a, b, c, d)
      h2 =
    ((h0, (a, b, c), (d, h2)), simp append_assoc)

pub tree4_fix_t0-Fixed :
    (n : ℕ) (t0 : Tree) (k0 v0 : ℕ) (t1 : Tree) (k1 v1 : ℕ) (t2 : Tree) (k2 v2 : ℕ) (t3 : Tree)
    (reduced : Bool)
    → Reduced reduced n t0
    → Balanced n t1
    → Balanced n t2
    → Balanced n t3
    → Fixed
        (suc n)
        (entries (tree4 t0 k0 v0 t1 k1 v1 t2 k2 v2 t3))
        (tree4_fix_t0 t0 k0 v0 t1 k1 v1 t2 k2 v2 t3 reduced)
unfolding tree4_fix_t0
tree4_fix_t0-Fixed n t0 k0 v0 t1 k1 v1 t2 k2 v2 t3 false h0 h1 h2 h3 = ((h0, h1, h2, h3), refl)
tree4_fix_t0-Fixed zero t0 k0 v0 t1 k1 v1 t2 k2 v2 t3 true h0 h1 h2 h3 = elim h0 [ ]
tree4_fix_t0-Fixed (suc n) t0 k0 v0 nil k1 v1 t2 k2 v2 t3 true h0 h1 h2 h3 = elim h1 [ ]
tree4_fix_t0-Fixed (suc n) t0 k0 v0 (tree2 l kl vl r) k1 v1 t2 k2 v2 t3 true h0 (a, b) h2 h3 =
    (((h0, a, b), h2, h3), simp append_assoc)
tree4_fix_t0-Fixed (suc n) t0 k0 v0 (tree3 l kl vl m km vm r) k1 v1 t2 k2 v2 t3 true h0 (a, b, c) h2
      h3 =
    (((h0, a), (b, c), h2, h3), simp append_assoc)
tree4_fix_t0-Fixed (suc n) t0 k0 v0 (tree4 l kl vl m km vm p kp vp r) k1 v1 t2 k2 v2 t3 true h0
      (a, b, c, d) h2 h3 =
    (((h0, a), (b, c, d), h2, h3), simp append_assoc)

pub tree4_fix_t1-Fixed :
    (n : ℕ) (t0 : Tree) (k0 v0 : ℕ) (t1 : Tree) (k1 v1 : ℕ) (t2 : Tree) (k2 v2 : ℕ) (t3 : Tree)
    (reduced : Bool)
    → Balanced n t0
    → Reduced reduced n t1
    → Balanced n t2
    → Balanced n t3
    → Fixed
        (suc n)
        (entries (tree4 t0 k0 v0 t1 k1 v1 t2 k2 v2 t3))
        (tree4_fix_t1 t0 k0 v0 t1 k1 v1 t2 k2 v2 t3 reduced)
unfolding tree4_fix_t1
tree4_fix_t1-Fixed n t0 k0 v0 t1 k1 v1 t2 k2 v2 t3 false h0 h1 h2 h3 = ((h0, h1, h2, h3), refl)
tree4_fix_t1-Fixed zero t0 k0 v0 t1 k1 v1 t2 k2 v2 t3 true h0 h1 h2 h3 = elim h1 [ ]
tree4_fix_t1-Fixed (suc n) t0 k0 v0 t1 k1 v1 nil k2 v2 t3 true h0 h1 h2 h3 = elim h2 [ ]
tree4_fix_t1-Fixed (suc n) t0 k0 v0 t1 k1 v1 (tree2 l kl vl r) k2 v2 t3 true h0 h1 (a, b) h3 =
    ((h0, (h1, a, b), h3), simp append_assoc)
tree4_fix_t1-Fixed (suc n) t0 k0 v0 t1 k1 v1 (tree3 l kl vl m km vm r) k2 v2 t3 true h0 h1 (a, b, c)
      h3 =
    ((h0, (h1, a), (b, c), h3), simp append_assoc)
tree4_fix_t1-Fixed (suc n) t0 k0 v0 t1 k1 v1 (tree4 l kl vl m km vm p kp vp r) k2 v2 t3 true h0 h1
      (a, b, c, d) h3 =
    ((h0, (h1, a), (b, c, d), h3), simp append_assoc)

pub tree4_fix_t2-Fixed :
    (n : ℕ) (t0 : Tree) (k0 v0 : ℕ) (t1 : Tree) (k1 v1 : ℕ) (t2 : Tree) (k2 v2 : ℕ) (t3 : Tree)
    (reduced : Bool)
    → Balanced n t0
    → Balanced n t1
    → Reduced reduced n t2
    → Balanced n t3
    → Fixed
        (suc n)
        (entries (tree4 t0 k0 v0 t1 k1 v1 t2 k2 v2 t3))
        (tree4_fix_t2 t0 k0 v0 t1 k1 v1 t2 k2 v2 t3 reduced)
unfolding tree4_fix_t2
tree4_fix_t2-Fixed n t0 k0 v0 t1 k1 v1 t2 k2 v2 t3 false h0 h1 h2 h3 = ((h0, h1, h2, h3), refl)
tree4_fix_t2-Fixed zero t0 k0 v0 t1 k1 v1 t2 k2 v2 t3 true h0 h1 h2 h3 = elim h2 [ ]
tree4_fix_t2-Fixed (suc n) t0 k0 v0 t1 k1 v1 t2 k2 v2 nil true h0 h1 h2 h3 = elim h3 [ ]
tree4_fix_t2-Fixed (suc n) t0 k0 v0 t1 k1 v1 t2 k2 v2 (tree2 l kl vl r) true h0 h1 h2 (a, b) =
    ((h0, h1, (h2, a, b)), refl)
tree4_fix_t2-Fixed (suc n) t0 k0 v0 t1 k1 v1 t2 k2 v2 (tree3 l kl vl m km vm r) true h0 h1 h2
      (a, b, c) =
    ((h0, h1, (h2, a), (b, c)), simp append_assoc)
tree4_fix_t2-Fixed (suc n) t0 k0 v0 t1 k1 v1 t2 k2 v2 (tree4 l kl vl m km vm p kp vp r) true h0 h1
      h2 (a, b, c, d) =
    ((h0, h1, (h2, a), (b, c, d)), simp append_assoc)

pub tree4_fix_t3-Fixed :
    (n : ℕ) (t0 : Tree) (k0 v0 : ℕ) (t1 : Tree) (k1 v1 : ℕ) (t2 : Tree) (k2 v2 : ℕ) (t3 : Tree)
    (reduced : Bool)
    → Balanced n t0
    → Balanced n t1
    → Balanced n t2
    → Reduced reduced n t3
    → Fixed
        (suc n)
        (entries (tree4 t0 k0 v0 t1 k1 v1 t2 k2 v2 t3))
        (tree4_fix_t3 t0 k0 v0 t1 k1 v1 t2 k2 v2 t3 reduced)
unfolding tree4_fix_t3
tree4_fix_t3-Fixed n t0 k0 v0 t1 k1 v1 t2 k2 v2 t3 false h0 h1 h2 h3 = ((h0, h1, h2, h3), refl)
tree4_fix_t3-Fixed zero t0 k0 v0 t1 k1 v1 t2 k2 v2 t3 true h0 h1 h2 h3 = elim h3 [ ]
tree4_fix_t3-Fixed (suc n) t0 k0 v0 t1 k1 v1 nil k2 v2 t3 true h0 h1 h2 h3 = elim h2 [ ]
tree4_fix_t3-Fixed (suc n) t0 k0 v0 t1 k1 v1 (tree2 l kl vl r) k2 v2 t3 true h0 h1 (a, b) h3 =
    ((h0, h1, (a, b, h3)), simp append_assoc)
tree4_fix_t3-Fixed (suc n) t0 k0 v0 t1 k1 v1 (tree3 l kl vl m km vm r) k2 v2 t3 true h0 h1 (a, b, c)
      h3 =
    ((h0, h1, (a, b), (c, h3)), simp append_assoc)
tree4_fix_t3-Fixed (suc n) t0 k0 v0 t1 k1 v1 (tree4 l kl vl m km vm p kp vp r) k2 v2 t3 true h0 h1
      (a, b, c, d) h3 =
    ((h0, h1, (a, b, c), (d, h3)), simp append_assoc)
