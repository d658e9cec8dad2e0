-- ===== src/Cnf/ExtendArg.antt =====
-- pass_cnf.c: any valuation can be changed at the variables made by `cnf_arg` and its loops.
use smchr.Prelude.{ℕ, suc, ◌≡◌, refl, Bool, true, false, not, ◌||◌, arith}
use Prim.Native.Nat.{Ordering}
use smchr.Expr.{
  Expr, boolean, leaf, op, iff, conj, disj, Pairs, empty, pair, xor, expr_or, expr_not,
}
use smchr.Expr.Meaning.{eval}
use smchr.Expr.Canonical.{Canonical, Entries}
use smchr.Cnf.{
  Context, context_insertclause, context_insertiff, signed, cnf_arg, cnf_and_args, cnf_or_args,
}
use smchr.Cnf.Steps.{Simple, Simple-Canonical, WellFormed, insertclause-Holds}
use smchr.Cnf.Sound.{
  cnf_arg-Encodes, or_both, later_and, later_or, cnf_and_args-Collects, cnf_or_args-Collects,
}
use smchr.Cnf.Fresh.{
  Fresh, FreshPairs, Fresh-Dep, Dep, Dep-more, Dep-new_var, Dep-or, Dep-not, Indep,
  insertclause-Indep,
}
use smchr.Expr.Adds.{Means}
use smchr.Cnf.Extend.{Extends, ExtendsAll, Indep-next, Extends-next, insertiff-Extends}
use smchr.Cnf.Rounds.{
  split_and, split_or, same_meets, end_and, end_or, all_false, and_meets, and_adds, or_meets,
  or_adds, signed-Dep, negation, signs, node-Extends, step-ExtendsAll,
}

module _ (op_value : ℕ → Bool) (compare : Expr → Expr → Ordering)
    (compare-means : (value : ℕ → Bool) (a b : Expr)
      → compare a b ≡ Ordering.eq
      → eval value op_value a ≡ eval value op_value b)
    (shallower : Pairs → Pairs → Bool) (cnf_var : ℕ → ℕ)
    (injective : (m n : ℕ) → cnf_var m ≡ cnf_var n → m ≡ n) where
  mutual
    unfolding cnf_arg cnf_and_args cnf_or_args

    pub cnf_arg-Extends :
        (e : Expr) (c : Context)
        → WellFormed c
        → Indep cnf_var op_value c
        → Canonical e
        → Fresh cnf_var e
        → Extends op_value compare compare-means shallower cnf_var injective e c
            (cnf_arg compare shallower cnf_var e c)
    cnf_arg-Extends (boolean b) c w i k f =
        (omega arith, i, λ x y a. refl, λ x h. (x, λ j g. refl, h, refl))
    cnf_arg-Extends (leaf n) c w i k f = (
      omega arith,
      i,
      Fresh-Dep cnf_var op_value c.varid (leaf n) f,
      λ x h. (x, λ j g. refl, h, refl),
    )
    cnf_arg-Extends (op n) c w i k f =
        let c1 = record c { varid = suc c.varid } in
        Extends-next op_value compare compare-means shallower cnf_var injective (op n) c
          (context_insertiff compare shallower cnf_var c1 (op n))
          (insertiff-Extends op_value compare compare-means shallower cnf_var injective (op n) c1 w
            (Indep-next op_value compare compare-means shallower cnf_var injective c i) k tt f)
    cnf_arg-Extends (iff d e) c w i k f =
        let c1 = record c { varid = suc c.varid } in
        Extends-next op_value compare compare-means shallower cnf_var injective (iff d e) c
          (context_insertiff compare shallower cnf_var c1 (iff d e))
          (insertiff-Extends op_value compare compare-means shallower cnf_var injective (iff d e) c1
            w (Indep-next op_value compare compare-means shallower cnf_var injective c i) k tt f)
    cnf_arg-Extends (conj es) c w i (k, s) f =
        let n = c.varid in
        let b = leaf (cnf_var n) in
        let c1 = record c { varid = suc n } in
        let db = Dep-new_var cnf_var op_value injective n in
        let (r, c2) = cnf_and_args compare shallower cnf_var es b (boolean false) c1 in
        let all =
          cnf_and_args-Extends es b (boolean false) c1 w
            (Indep-next op_value compare compare-means shallower cnf_var injective c i) k f tt db tt
            (λ x y a. refl) in
        let (w2, cr, h2) =
          cnf_and_args-Collects all_false op_value compare (compare-means all_false) shallower
            cnf_var es b (boolean false) c1 w k tt tt in
        let db2 = Dep-more cnf_var op_value (suc n) c2.varid b all.0 db in
        node-Extends op_value compare compare-means shallower cnf_var injective true and_meets
          and_adds (λ q g. q || g) es c c2 r (expr_or compare shallower b r) (conj es) f i
          (λ x. refl) same_meets end_and all w2
          (Dep-or cnf_var op_value compare compare-means shallower c2.varid b r tt cr db2 all.2)
          (λ y.
            or_both y op_value compare (compare-means y) shallower cnf_var b r (eval y op_value b)
              (eval y op_value r) (tt, refl) (cr, refl))
    cnf_arg-Extends (disj es) c w i (k, s) f =
        let n = c.varid in
        let b = leaf (cnf_var n) in
        let c1 = record c { varid = suc n } in
        let db = Dep-new_var cnf_var op_value injective n in
        let (r, c2) = cnf_or_args compare shallower cnf_var es b (boolean false) c1 in
        let all =
          cnf_or_args-Extends es b (boolean false) c1 w
            (Indep-next op_value compare compare-means shallower cnf_var injective c i) k f tt db tt
            (λ x y a. refl) in
        let (w2, cr, h2) =
          cnf_or_args-Collects all_false op_value compare (compare-means all_false) shallower
            cnf_var es b (boolean false) c1 w k tt tt in
        let db2 = Dep-more cnf_var op_value (suc n) c2.varid b all.0 db in
        node-Extends op_value compare compare-means shallower cnf_var injective false or_meets
          or_adds (λ q g. not q || g) es c c2 r (expr_or compare shallower (expr_not compare b) r)
          (disj es) f i (λ x. refl) same_meets end_or all w2
          (Dep-or cnf_var op_value compare compare-means shallower c2.varid (expr_not compare b) r
            (negation op_value compare compare-means shallower cnf_var injective all_false b tt).0
            cr (Dep-not cnf_var op_value compare compare-means shallower c2.varid b tt db2) all.2)
          (λ y.
            or_both y op_value compare (compare-means y) shallower cnf_var (expr_not compare b) r
              (not (eval y op_value b)) (eval y op_value r)
              (negation op_value compare compare-means shallower cnf_var injective y b tt)
              (cr, refl))

    cnf_and_args-Extends :
        (es : Pairs) (b clause : Expr) (c : Context)
        → WellFormed c
        → Indep cnf_var op_value c
        → Entries es
        → FreshPairs cnf_var es
        → Simple b
        → Dep cnf_var op_value c.varid b
        → Canonical clause
        → Dep cnf_var op_value c.varid clause
        → ExtendsAll op_value compare compare-means shallower cnf_var injective and_meets and_adds
            true es b clause c
            (cnf_and_args compare shallower cnf_var es b clause c)
    cnf_and_args-Extends empty b clause c w i k f sb db cc dc =
        (omega arith, i, dc, λ x h m. (x, λ j g. refl, h, refl))
    cnf_and_args-Extends (pair e v es) b clause c w i (ke, sv, k') (fe, f) sb db cc dc =
        let (a, c1) = cnf_arg compare shallower cnf_var e c in
        let n1 = c1.varid in
        let first = cnf_arg-Extends e c w i ke fe in
        let (w1, s1, h1) =
          cnf_arg-Encodes all_false op_value compare (compare-means all_false) shallower cnf_var e c
            w ke in
        let (k, nk) = signed compare shallower cnf_var v a in
        let (dk, dnk) =
          signed-Dep op_value compare compare-means shallower cnf_var injective n1 v a s1 first.2 in
        let db1 = Dep-more cnf_var op_value c.varid n1 b first.0 db in
        let dc1 = Dep-more cnf_var op_value c.varid n1 clause first.0 dc in
        let added : Expr = expr_or compare shallower k (expr_not compare b) in
        let clause' : Expr = expr_or compare shallower nk clause in
        let ma : (y : ℕ → Bool)
            → Means y op_value added (xor v (eval y op_value a) || not (eval y op_value b)) =
          (λ y.
            or_both y op_value compare (compare-means y) shallower cnf_var k (expr_not compare b)
              (xor v (eval y op_value a)) (not (eval y op_value b))
              (signs op_value compare compare-means shallower cnf_var injective y a v s1).0
              (negation op_value compare compare-means shallower cnf_var injective y b sb)) in
        let mc : (y : ℕ → Bool)
            → Means y op_value clause' (not (xor v (eval y op_value a)) || eval y op_value clause) =
          (λ y.
            or_both y op_value compare (compare-means y) shallower cnf_var nk clause
              (not (xor v (eval y op_value a))) (eval y op_value clause)
              (signs op_value compare compare-means shallower cnf_var injective y a v s1).1
              (cc, refl)) in
        let c2 = context_insertclause compare shallower cnf_var c1 added in
        let (w2, back, there) =
          insertclause-Holds all_false op_value compare (compare-means all_false) shallower cnf_var
            c1 added (eval all_false op_value added) w1 ((ma all_false).0, refl) in
        let i2 =
          insertclause-Indep cnf_var op_value compare compare-means shallower c1 added w1 first.1
            (ma all_false).0
            (Dep-or cnf_var op_value compare compare-means shallower n1 k (expr_not compare b)
              (signs op_value compare compare-means shallower cnf_var injective all_false a v
                s1).0.0
              (negation op_value compare compare-means shallower cnf_var injective all_false b sb).0
              dk (Dep-not cnf_var op_value compare compare-means shallower n1 b sb db1)) in
        step-ExtendsAll op_value compare compare-means shallower cnf_var injective true and_meets
          and_adds (λ k q. k || not q) (λ k h. not k || h) e v es b clause a added clause' c c1
          (cnf_and_args compare shallower cnf_var es b clause' c2) split_and later_and fe f db first
          w1 ma mc
          (cnf_and_args-Extends es b clause' c2 w2 i2 k' f sb db1 (mc all_false).0 (
            Dep-or cnf_var op_value compare compare-means shallower n1 nk clause
              (signs op_value compare compare-means shallower cnf_var injective all_false a v
                s1).1.0
              cc dnk dc1))

    cnf_or_args-Extends :
        (es : Pairs) (b clause : Expr) (c : Context)
        → WellFormed c
        → Indep cnf_var op_value c
        → Entries es
        → FreshPairs cnf_var es
        → Simple b
        → Dep cnf_var op_value c.varid b
        → Canonical clause
        → Dep cnf_var op_value c.varid clause
        → ExtendsAll op_value compare compare-means shallower cnf_var injective or_meets or_adds
            false es b clause c
            (cnf_or_args compare shallower cnf_var es b clause c)
    cnf_or_args-Extends empty b clause c w i k f sb db cc dc =
        (omega arith, i, dc, λ x h m. (x, λ j g. refl, h, refl))
    cnf_or_args-Extends (pair e v es) b clause c w i (ke, sv, k') (fe, f) sb db cc dc =
        let (a, c1) = cnf_arg compare shallower cnf_var e c in
        let n1 = c1.varid in
        let first = cnf_arg-Extends e c w i ke fe in
        let (w1, s1, h1) =
          cnf_arg-Encodes all_false op_value compare (compare-means all_false) shallower cnf_var e c
            w ke in
        let (k, nk) = signed compare shallower cnf_var v a in
        let (dk, dnk) =
          signed-Dep op_value compare compare-means shallower cnf_var injective n1 v a s1 first.2 in
        let db1 = Dep-more cnf_var op_value c.varid n1 b first.0 db in
        let dc1 = Dep-more cnf_var op_value c.varid n1 clause first.0 dc in
        let added : Expr = expr_or compare shallower nk b in
        let clause' : Expr = expr_or compare shallower k clause in
        let ma : (y : ℕ → Bool)
            → Means y op_value added (not (xor v (eval y op_value a)) || eval y op_value b) =
          (λ y.
            or_both y op_value compare (compare-means y) shallower cnf_var nk b
              (not (xor v (eval y op_value a))) (eval y op_value b)
              (signs op_value compare compare-means shallower cnf_var injective y a v s1).1
              (Simple-Canonical b sb, refl)) in
        let mc : (y : ℕ → Bool)
            → Means y op_value clause' (xor v (eval y op_value a) || eval y op_value clause) =
          (λ y.
            or_both y op_value compare (compare-means y) shallower cnf_var k clause
              (xor v (eval y op_value a)) (eval y op_value clause)
              (signs op_value compare compare-means shallower cnf_var injective y a v s1).0
              (cc, refl)) in
        let c2 = context_insertclause compare shallower cnf_var c1 added in
        let (w2, back, there) =
          insertclause-Holds all_false op_value compare (compare-means all_false) shallower cnf_var
            c1 added (eval all_false op_value added) w1 ((ma all_false).0, refl) in
        let i2 =
          insertclause-Indep cnf_var op_value compare compare-means shallower c1 added w1 first.1
            (ma all_false).0
            (Dep-or cnf_var op_value compare compare-means shallower n1 nk b
              (signs op_value compare compare-means shallower cnf_var injective all_false a v
                s1).1.0
              (Simple-Canonical b sb) dnk db1) in
        step-ExtendsAll op_value compare compare-means shallower cnf_var injective false or_meets
          or_adds (λ k q. not k || q) (λ k h. k || h) e v es b clause a added clause' c c1
          (cnf_or_args compare shallower cnf_var es b clause' c2) split_or later_or fe f db first w1
          ma mc
          (cnf_or_args-Extends es b clause' c2 w2 i2 k' f sb db1 (mc all_false).0 (
            Dep-or cnf_var op_value compare compare-means shallower n1 k clause
              (signs op_value compare compare-means shallower cnf_var injective all_false a v
                s1).0.0
              cc dk dc1))
