-- ===== src/Tree/InPlace/FixSame.antt =====
-- tree.c: the functions that rebuild a node in place return the nodes that the persistent ones return.
use smchr.Prelude.{ℕ, Bool, true, false, ◌≡◌, refl}
use smchr.Tree.{Tree, nil, tree2, tree3, tree4}
use smchr.Tree.Fix.{
  tree2_fix_t0, tree2_fix_t1, tree3_fix_t0, tree3_fix_t1, tree3_fix_t2, tree4_fix_t0, tree4_fix_t1,
  tree4_fix_t2, tree4_fix_t3,
}
use smchr.Tree.InPlace.Fix.{
  tree2_destructive_fix_t0, tree2_destructive_fix_t1, tree3_destructive_fix_t0,
  tree3_destructive_fix_t1, tree3_destructive_fix_t2, tree4_destructive_fix_t0,
  tree4_destructive_fix_t1, tree4_destructive_fix_t2, tree4_destructive_fix_t3,
}

pub same_tree2_t0 :
    (t0 : Tree) (k0 v0 : ℕ) (t1 : Tree) (r : Bool)
    → tree2_destructive_fix_t0 t0 k0 v0 t1 r ≡ tree2_fix_t0 t0 k0 v0 t1 r
unfolding tree2_destructive_fix_t0 tree2_fix_t0
same_tree2_t0 t0 k0 v0 t1 false = refl
same_tree2_t0 t0 k0 v0 nil true = refl
same_tree2_t0 t0 k0 v0 (tree2 a ka va b) true = refl
same_tree2_t0 t0 k0 v0 (tree3 a ka va b kb vb c) true = refl
same_tree2_t0 t0 k0 v0 (tree4 a ka va b kb vb c kc vc d) true = refl

pub same_tree2_t1 :
    (t0 : Tree) (k0 v0 : ℕ) (t1 : Tree) (r : Bool)
    → tree2_destructive_fix_t1 t0 k0 v0 t1 r ≡ tree2_fix_t1 t0 k0 v0 t1 r
unfolding tree2_destructive_fix_t1 tree2_fix_t1
same_tree2_t1 t0 k0 v0 t1 false = refl
same_tree2_t1 nil k0 v0 t1 true = refl
same_tree2_t1 (tree2 a ka va b) k0 v0 t1 true = refl
same_tree2_t1 (tree3 a ka va b kb vb c) k0 v0 t1 true = refl
same_tree2_t1 (tree4 a ka va b kb vb c kc vc d) k0 v0 t1 true = refl

pub same_tree3_t0 :
    (t0 : Tree) (k0 v0 : ℕ) (t1 : Tree) (k1 v1 : ℕ) (t2 : Tree) (r : Bool)
    → tree3_destructive_fix_t0 t0 k0 v0 t1 k1 v1 t2 r ≡ tree3_fix_t0 t0 k0 v0 t1 k1 v1 t2 r
unfolding tree3_destructive_fix_t0 tree3_fix_t0
same_tree3_t0 t0 k0 v0 t1 k1 v1 t2 false = refl
same_tree3_t0 t0 k0 v0 nil k1 v1 t2 true = refl
same_tree3_t0 t0 k0 v0 (tree2 a ka va b) k1 v1 t2 true = refl
same_tree3_t0 t0 k0 v0 (tree3 a ka va b kb vb c) k1 v1 t2 true = refl
same_tree3_t0 t0 k0 v0 (tree4 a ka va b kb vb c kc vc d) k1 v1 t2 true = refl

pub same_tree3_t1 :
    (t0 : Tree) (k0 v0 : ℕ) (t1 : Tree) (k1 v1 : ℕ) (t2 : Tree) (r : Bool)
    → tree3_destructive_fix_t1 t0 k0 v0 t1 k1 v1 t2 r ≡ tree3_fix_t1 t0 k0 v0 t1 k1 v1 t2 r
unfolding tree3_destructive_fix_t1 tree3_fix_t1
same_tree3_t1 t0 k0 v0 t1 k1 v1 t2 false = refl
same_tree3_t1 nil k0 v0 t1 k1 v1 t2 true = refl
same_tree3_t1 (tree2 a ka va b) k0 v0 t1 k1 v1 t2 true = refl
same_tree3_t1 (tree3 a ka va b kb vb c) k0 v0 t1 k1 v1 t2 true = refl
same_tree3_t1 (tree4 a ka va b kb vb c kc vc d) k0 v0 t1 k1 v1 t2 true = refl

pub same_tree3_t2 :
    (t0 : Tree) (k0 v0 : ℕ) (t1 : Tree) (k1 v1 : ℕ) (t2 : Tree) (r : Bool)
    → tree3_destructive_fix_t2 t0 k0 v0 t1 k1 v1 t2 r ≡ tree3_fix_t2 t0 k0 v0 t1 k1 v1 t2 r
unfolding tree3_destructive_fix_t2 tree3_fix_t2
same_tree3_t2 t0 k0 v0 t1 k1 v1 t2 false = refl
same_tree3_t2 t0 k0 v0 nil k1 v1 t2 true = refl
same_tree3_t2 t0 k0 v0 (tree2 a ka va b) k1 v1 t2 true = refl
same_tree3_t2 t0 k0 v0 (tree3 a ka va b kb vb c) k1 v1 t2 true = refl
same_tree3_t2 t0 k0 v0 (tree4 a ka va b kb vb c kc vc d) k1 v1 t2 true = refl

pub same_tree4_t0 :
    (t0 : Tree) (k0 v0 : ℕ) (t1 : Tree) (k1 v1 : ℕ) (t2 : Tree) (k2 v2 : ℕ) (t3 : Tree) (r : Bool)
    → tree4_destructive_fix_t0 t0 k0 v0 t1 k1 v1 t2 k2 v2 t3 r
      ≡ tree4_fix_t0 t0 k0 v0 t1 k1 v1 t2 k2 v2 t3 r
unfolding tree4_destructive_fix_t0 tree4_fix_t0
same_tree4_t0 t0 k0 v0 t1 k1 v1 t2 k2 v2 t3 false = refl
same_tree4_t0 t0 k0 v0 nil k1 v1 t2 k2 v2 t3 true = refl
same_tree4_t0 t0 k0 v0 (tree2 a ka va b) k1 v1 t2 k2 v2 t3 true = refl
same_tree4_t0 t0 k0 v0 (tree3 a ka va b kb vb c) k1 v1 t2 k2 v2 t3 true = refl
same_tree4_t0 t0 k0 v0 (tree4 a ka va b kb vb c kc vc d) k1 v1 t2 k2 v2 t3 true = refl

pub same_tree4_t1 :
    (t0 : Tree) (k0 v0 : ℕ) (t1 : Tree) (k1 v1 : ℕ) (t2 : Tree) (k2 v2 : ℕ) (t3 : Tree) (r : Bool)
    → tree4_destructive_fix_t1 t0 k0 v0 t1 k1 v1 t2 k2 v2 t3 r
      ≡ tree4_fix_t1 t0 k0 v0 t1 k1 v1 t2 k2 v2 t3 r
unfolding tree4_destructive_fix_t1 tree4_fix_t1
same_tree4_t1 t0 k0 v0 t1 k1 v1 t2 k2 v2 t3 false = refl
same_tree4_t1 t0 k0 v0 t1 k1 v1 nil k2 v2 t3 true = refl
same_tree4_t1 t0 k0 v0 t1 k1 v1 (tree2 a ka va b) k2 v2 t3 true = refl
same_tree4_t1 t0 k0 v0 t1 k1 v1 (tree3 a ka va b kb vb c) k2 v2 t3 true = refl
same_tree4_t1 t0 k0 v0 t1 k1 v1 (tree4 a ka va b kb vb c kc vc d) k2 v2 t3 true = refl

pub same_tree4_t2 :
    (t0 : Tree) (k0 v0 : ℕ) (t1 : Tree) (k1 v1 : ℕ) (t2 : Tree) (k2 v2 : ℕ) (t3 : Tree) (r : Bool)
    → tree4_destructive_fix_t2 t0 k0 v0 t1 k1 v1 t2 k2 v2 t3 r
      ≡ tree4_fix_t2 t0 k0 v0 t1 k1 v1 t2 k2 v2 t3 r
unfolding tree4_destructive_fix_t2 tree4_fix_t2
same_tree4_t2 t0 k0 v0 t1 k1 v1 t2 k2 v2 t3 false = refl
same_tree4_t2 t0 k0 v0 t1 k1 v1 t2 k2 v2 nil true = refl
same_tree4_t2 t0 k0 v0 t1 k1 v1 t2 k2 v2 (tree2 a ka va b) true = refl
same_tree4_t2 t0 k0 v0 t1 k1 v1 t2 k2 v2 (tree3 a ka va b kb vb c) true = refl
same_tree4_t2 t0 k0 v0 t1 k1 v1 t2 k2 v2 (tree4 a ka va b kb vb c kc vc d) true = refl

pub same_tree4_t3 :
    (t0 : Tree) (k0 v0 : ℕ) (t1 : Tree) (k1 v1 : ℕ) (t2 : Tree) (k2 v2 : ℕ) (t3 : Tree) (r : Bool)
    → tree4_destructive_fix_t3 t0 k0 v0 t1 k1 v1 t2 k2 v2 t3 r
      ≡ tree4_fix_t3 t0 k0 v0 t1 k1 v1 t2 k2 v2 t3 r
unfolding tree4_destructive_fix_t3 tree4_fix_t3
same_tree4_t3 t0 k0 v0 t1 k1 v1 t2 k2 v2 t3 false = refl
same_tree4_t3 t0 k0 v0 t1 k1 v1 nil k2 v2 t3 true = refl
same_tree4_t3 t0 k0 v0 t1 k1 v1 (tree2 a ka va b) k2 v2 t3 true = refl
same_tree4_t3 t0 k0 v0 t1 k1 v1 (tree3 a ka va b kb vb c) k2 v2 t3 true = refl
same_tree4_t3 t0 k0 v0 t1 k1 v1 (tree4 a ka va b kb vb c kc vc d) k2 v2 t3 true = refl
