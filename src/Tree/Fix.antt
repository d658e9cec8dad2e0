-- ===== src/Tree/Fix.antt =====
-- tree.c: the nine functions `treeN_fix_ti`, which rebuild a node whose subtree `ti` may have lost a
-- level. The flag `*reduced` comes in and goes out beside the tree.
pub mod Correct
use smchr.Prelude.{ℕ, Bool, true, false, Option, none, some}
use smchr.Tree.{Tree, nil, tree2, tree3, tree4}

unfoldable pub tree2_fix_t0 : Tree → ℕ → ℕ → Tree → Bool → Option (Tree × Bool)
tree2_fix_t0 t0 k0 v0 t1 false = some (tree2 t0 k0 v0 t1, false)
tree2_fix_t0 t0 k0 v0 nil true = none
tree2_fix_t0 t0 k0 v0 (tree2 a ka va b) true = some (tree3 t0 k0 v0 a ka va b, true)
tree2_fix_t0 t0 k0 v0 (tree3 a ka va b kb vb c) true =
    some (tree2 (tree2 t0 k0 v0 a) ka va (tree2 b kb vb c), false)
tree2_fix_t0 t0 k0 v0 (tree4 a ka va b kb vb c kc vc d) true =
    some (tree2 (tree2 t0 k0 v0 a) ka va (tree3 b kb vb c kc vc d), false)

unfoldable pub tree2_fix_t1 : Tree → ℕ → ℕ → Tree → Bool → Option (Tree × Bool)
tree2_fix_t1 t0 k0 v0 t1 false = some (tree2 t0 k0 v0 t1, false)
tree2_fix_t1 nil k0 v0 t1 true = none
tree2_fix_t1 (tree2 a ka va b) k0 v0 t1 true = some (tree3 a ka va b k0 v0 t1, true)
tree2_fix_t1 (tree3 a ka va b kb vb c) k0 v0 t1 true =
    some (tree2 (tree2 a ka va b) kb vb (tree2 c k0 v0 t1), false)
tree2_fix_t1 (tree4 a ka va b kb vb c kc vc d) k0 v0 t1 true =
    some (tree2 (tree3 a ka va b kb vb c) kc vc (tree2 d k0 v0 t1), false)

unfoldable pub tree3_fix_t0 : Tree → ℕ → ℕ → Tree → ℕ → ℕ → Tree → Bool → Option (Tree × Bool)
tree3_fix_t0 t0 k0 v0 t1 k1 v1 t2 false = some (tree3 t0 k0 v0 t1 k1 v1 t2, false)
tree3_fix_t0 t0 k0 v0 nil k1 v1 t2 true = none
tree3_fix_t0 t0 k0 v0 (tree2 a ka va b) k1 v1 t2 true =
    some (tree2 (tree3 t0 k0 v0 a ka va b) k1 v1 t2, false)
tree3_fix_t0 t0 k0 v0 (tree3 a ka va b kb vb c) k1 v1 t2 true =
    some (tree3 (tree2 t0 k0 v0 a) ka va (tree2 b kb vb c) k1 v1 t2, false)
tree3_fix_t0 t0 k0 v0 (tree4 a ka va b kb vb c kc vc d) k1 v1 t2 true =
    some (tree3 (tree2 t0 k0 v0 a) ka va (tree3 b kb vb c kc vc d) k1 v1 t2, false)

unfoldable pub tree3_fix_t1 : Tree → ℕ → ℕ → Tree → ℕ → ℕ → Tree → Bool → Option (Tree × Bool)
tree3_fix_t1 t0 k0 v0 t1 k1 v1 t2 false = some (tree3 t0 k0 v0 t1 k1 v1 t2, false)
tree3_fix_t1 nil k0 v0 t1 k1 v1 t2 true = none
tree3_fix_t1 (tree2 a ka va b) k0 v0 t1 k1 v1 t2 true =
    some (tree2 (tree3 a ka va b k0 v0 t1) k1 v1 t2, false)
tree3_fix_t1 (tree3 a ka va b kb vb c) k0 v0 t1 k1 v1 t2 true =
    some (tree3 (tree2 a ka va b) kb vb (tree2 c k0 v0 t1) k1 v1 t2, false)
tree3_fix_t1 (tree4 a ka va b kb vb c kc vc d) k0 v0 t1 k1 v1 t2 true =
    some (tree3 (tree3 a ka va b kb vb c) kc vc (tree2 d k0 v0 t1) k1 v1 t2, false)

unfoldable pub tree3_fix_t2 : Tree → ℕ → ℕ → Tree → ℕ → ℕ → Tree → Bool → Option (Tree × Bool)
tree3_fix_t2 t0 k0 v0 t1 k1 v1 t2 false = some (tree3 t0 k0 v0 t1 k1 v1 t2, false)
tree3_fix_t2 t0 k0 v0 nil k1 v1 t2 true = none
tree3_fix_t2 t0 k0 v0 (tree2 a ka va b) k1 v1 t2 true =
    some (tree2 t0 k0 v0 (tree3 a ka va b k1 v1 t2), false)
tree3_fix_t2 t0 k0 v0 (tree3 a ka va b kb vb c) k1 v1 t2 true =
    some (tree3 t0 k0 v0 (tree2 a ka va b) kb vb (tree2 c k1 v1 t2), false)
tree3_fix_t2 t0 k0 v0 (tree4 a ka va b kb vb c kc vc d) k1 v1 t2 true =
    some (tree3 t0 k0 v0 (tree3 a ka va b kb vb c) kc vc (tree2 d k1 v1 t2), false)

unfoldable pub tree4_fix_t0 :
    Tree → ℕ → ℕ → Tree → ℕ → ℕ → Tree → ℕ → ℕ → Tree → Bool → Option (Tree × Bool)
tree4_fix_t0 t0 k0 v0 t1 k1 v1 t2 k2 v2 t3 false = some (tree4 t0 k0 v0 t1 k1 v1 t2 k2 v2 t3, false)
tree4_fix_t0 t0 k0 v0 nil k1 v1 t2 k2 v2 t3 true = none
tree4_fix_t0 t0 k0 v0 (tree2 a ka va b) k1 v1 t2 k2 v2 t3 true =
    some (tree3 (tree3 t0 k0 v0 a ka va b) k1 v1 t2 k2 v2 t3, false)
tree4_fix_t0 t0 k0 v0 (tree3 a ka va b kb vb c) k1 v1 t2 k2 v2 t3 true =
    some (tree4 (tree2 t0 k0 v0 a) ka va (tree2 b kb vb c) k1 v1 t2 k2 v2 t3, false)
tree4_fix_t0 t0 k0 v0 (tree4 a ka va b kb vb c kc vc d) k1 v1 t2 k2 v2 t3 true =
    some (tree4 (tree2 t0 k0 v0 a) ka va (tree3 b kb vb c kc vc d) k1 v1 t2 k2 v2 t3, false)

unfoldable pub tree4_fix_t1 :
    Tree → ℕ → ℕ → Tree → ℕ → ℕ → Tree → ℕ → ℕ → Tree → Bool → Option (Tree × Bool)
tree4_fix_t1 t0 k0 v0 t1 k1 v1 t2 k2 v2 t3 false = some (tree4 t0 k0 v0 t1 k1 v1 t2 k2 v2 t3, false)
tree4_fix_t1 t0 k0 v0 t1 k1 v1 nil k2 v2 t3 true = none
tree4_fix_t1 t0 k0 v0 t1 k1 v1 (tree2 a ka va b) k2 v2 t3 true =
    some (tree3 t0 k0 v0 (tree3 t1 k1 v1 a ka va b) k2 v2 t3, false)
tree4_fix_t1 t0 k0 v0 t1 k1 v1 (tree3 a ka va b kb vb c) k2 v2 t3 true =
    some (tree4 t0 k0 v0 (tree2 t1 k1 v1 a) ka va (tree2 b kb vb c) k2 v2 t3, false)
tree4_fix_t1 t0 k0 v0 t1 k1 v1 (tree4 a ka va b kb vb c kc vc d) k2 v2 t3 true =
    some (tree4 t0 k0 v0 (tree2 t1 k1 v1 a) ka va (tree3 b kb vb c kc vc d) k2 v2 t3, false)

unfoldable pub tree4_fix_t2 :
    Tree → ℕ → ℕ → Tree → ℕ → ℕ → Tree → ℕ → ℕ → Tree → Bool → Option (Tree × Bool)
tree4_fix_t2 t0 k0 v0 t1 k1 v1 t2 k2 v2 t3 false = some (tree4 t0 k0 v0 t1 k1 v1 t2 k2 v2 t3, false)
tree4_fix_t2 t0 k0 v0 t1 k1 v1 t2 k2 v2 nil true = none
tree4_fix_t2 t0 k0 v0 t1 k1 v1 t2 k2 v2 (tree2 a ka va b) true =
    some (tree3 t0 k0 v0 t1 k1 v1 (tree3 t2 k2 v2 a ka va b), false)
tree4_fix_t2 t0 k0 v0 t1 k1 v1 t2 k2 v2 (tree3 a ka va b kb vb c) true =
    some (tree4 t0 k0 v0 t1 k1 v1 (tree2 t2 k2 v2 a) ka va (tree2 b kb vb c), false)
tree4_fix_t2 t0 k0 v0 t1 k1 v1 t2 k2 v2 (tree4 a ka va b kb vb c kc vc d) true =
    some (tree4 t0 k0 v0 t1 k1 v1 (tree2 t2 k2 v2 a) ka va (tree3 b kb vb c kc vc d), false)

unfoldable pub tree4_fix_t3 :
    Tree → ℕ → ℕ → Tree → ℕ → ℕ → Tree → ℕ → ℕ → Tree → Bool → Option (Tree × Bool)
tree4_fix_t3 t0 k0 v0 t1 k1 v1 t2 k2 v2 t3 false = some (tree4 t0 k0 v0 t1 k1 v1 t2 k2 v2 t3, false)
tree4_fix_t3 t0 k0 v0 t1 k1 v1 nil k2 v2 t3 true = none
tree4_fix_t3 t0 k0 v0 t1 k1 v1 (tree2 a ka va b) k2 v2 t3 true =
    some (tree3 t0 k0 v0 t1 k1 v1 (tree3 a ka va b k2 v2 t3), false)
tree4_fix_t3 t0 k0 v0 t1 k1 v1 (tree3 a ka va b kb vb c) k2 v2 t3 true =
    some (tree4 t0 k0 v0 t1 k1 v1 (tree2 a ka va b) kb vb (tree2 c k2 v2 t3), false)
tree4_fix_t3 t0 k0 v0 t1 k1 v1 (tree4 a ka va b kb vb c kc vc d) k2 v2 t3 true =
    some (tree4 t0 k0 v0 t1 k1 v1 (tree3 a ka va b kb vb c) kc vc (tree2 d k2 v2 t3), false)
