-- ===== src/Cnf/ExtendTop.antt =====
-- pass_cnf.c: any valuation can be changed at the variables made by `cnf_expr_nextlevel`.
use smchr.Prelude.{ℕ, ◌≤◌, ◌≡◌, refl, sym, ◌∙◌, ap, Bool, true, false, not, ◌||◌, arith}
use Prim.Native.Nat.{Ordering}
use smchr.Expr.{Expr, boolean, leaf, op, iff, conj, disj, Pairs, empty, pair, xor, expr_or}
use smchr.Expr.Meaning.{comb_unit, eval, fold}
use smchr.Expr.Canonical.{Canonical, Entries, Literal}
use smchr.Cnf.{Context, with_sign, cnf_arg, nextlevel_args, cnf_expr_nextlevel}
use smchr.Cnf.Steps.{Simple, WellFormed, Holds, with_sign-Means}
use smchr.Cnf.Sound.{cnf_arg-Encodes, or_both, later_or}
use smchr.Cnf.Fresh.{Agree, Fresh, FreshPairs, Fresh-Dep, Dep, Dep-more, Dep-or, Dep-not, Indep}
use smchr.Cnf.Extend.{Extends, Agree-after}
use smchr.Cnf.Rounds.{all_false}
use smchr.Cnf.ExtendArg.{cnf_arg-Extends}

module _ (op_value : ℕ → Bool) (compare : Expr → Expr → Ordering)
    (compare-means : (value : ℕ → Bool) (a b : Expr)
      → compare a b ≡ Ordering.eq
      → eval value op_value a ≡ eval value op_value b)
    (shallower : Pairs → Pairs → Bool) (cnf_var : ℕ → ℕ) where
  with_sign-Dep :
      (n : ℕ) (v : Bool) (a : Expr)
      → Simple a
      → Dep cnf_var op_value n a
      → Dep cnf_var op_value n (with_sign compare shallower cnf_var v a)
  with_sign-Dep n true a s d = Dep-not cnf_var op_value compare compare-means shallower n a s d
  with_sign-Dep n false a s d = d

  module _ (injective : (m n : ℕ) → cnf_var m ≡ cnf_var n → m ≡ n) where
    -- As for an argument, with the value that the result has.
    abbrev pub ExtendsTo : ((ℕ → Bool) → Bool) → Context → Expr × Context → Type 0
    ExtendsTo value_in c (r, c') =
        (c.varid ≤ c'.varid)
        × Indep cnf_var op_value c'
        × Dep cnf_var op_value c'.varid r
        × ((x : ℕ → Bool)
            → Holds x op_value c
            → (y : ℕ → Bool) × Agree cnf_var c.varid x y
              × Holds y op_value c'
              × (eval y op_value r ≡ value_in y))

    abbrev ExtendsSigned : Bool → Expr → Context → Expr × Context → Type 0
    ExtendsSigned v e c (r, c') =
        ExtendsTo (λ y. xor v (eval y op_value e)) c (with_sign compare shallower cnf_var v r, c')

    nextlevel_args-ExtendsTo :
        (es : Pairs) (acc : Expr) (c : Context)
        → WellFormed c
        → Indep cnf_var op_value c
        → Entries es
        → FreshPairs cnf_var es
        → Canonical acc
        → Dep cnf_var op_value c.varid acc
        → ExtendsTo
            (λ y. fold y op_value false es || eval y op_value acc)
            c
            (nextlevel_args compare shallower cnf_var es acc c)
    unfolding nextlevel_args
    nextlevel_args-ExtendsTo empty acc c w i k f ca da =
        (omega arith, i, da, λ x h. (x, λ j g. refl, h, refl))
    nextlevel_args-ExtendsTo (pair e v es) acc c w i (ke, sv, k) (fe, f) ca da =
        let (a, c1) = cnf_arg compare shallower cnf_var e c in
        let next = with_sign compare shallower cnf_var v a in
        let (l1, i1, d1', ext1') =
          cnf_arg-Extends op_value compare compare-means shallower cnf_var injective e c w i ke
            fe in
        let (w1, s1, h1) =
          cnf_arg-Encodes all_false op_value compare (compare-means all_false) shallower cnf_var e c
            w ke in
        let (k1, e1) =
          with_sign-Means all_false op_value compare (compare-means all_false) shallower cnf_var v a
            s1 in
        let d1 = with_sign-Dep c1.varid v a s1 d1' in
        let ext1 : (x : ℕ → Bool)
            → Holds x op_value c
            → (y : ℕ → Bool) × Agree cnf_var c.varid x y
              × Holds y op_value c1
              × (eval y op_value next ≡ xor v (eval y op_value e)) =
          λ x h.
            let (y, ag, hy, ey) = ext1' x h in
            let (ky, qy) =
              with_sign-Means y op_value compare (compare-means y) shallower cnf_var v a s1 in
            (y, ag, hy, qy ∙ ap (xor v) ey) in
        let n1 = c1.varid in
        let da1 = Dep-more cnf_var op_value c.varid n1 acc l1 da in
        let (cn, en) =
          or_both all_false op_value compare (compare-means all_false) shallower cnf_var next acc
            (eval all_false op_value next) (eval all_false op_value acc) (k1, refl) (ca, refl) in
        let acc' : Expr = expr_or compare shallower next acc in
        let (l2, i2, d2, ext2) =
          nextlevel_args-ExtendsTo es acc' c1 w1 i1 k f cn
            (Dep-or cnf_var op_value compare compare-means shallower n1 next acc k1 ca d1 da1) in
        (
          omega (arith, l1, l2),
          i2,
          d2,
          λ x h.
              let (y, ag, hy, ey) = ext1 x h in
              let (z, ag2, hz, ez) = ext2 y hy in
              let (cz, qz) =
                or_both z op_value compare (compare-means z) shallower cnf_var next acc
                  (eval z op_value next) (eval z op_value acc) (k1, refl) (ca, refl) in
              let f' = fold z op_value false es in
              let same : eval z op_value next ≡ xor v (eval z op_value e) =
                sym (d1 y z ag2) ∙ (ey ∙ ap (xor v) (Fresh-Dep cnf_var op_value n1 e fe y z ag2)) in
              (
                z,
                Agree-after op_value compare compare-means shallower cnf_var injective c.varid n1 x
                    y z l1 ag ag2,
                hz,
                ez
                    ∙ (ap (λ q. f' || q) qz
                        ∙ (later_or (eval z op_value next) f' (eval z op_value acc)
                            ∙ ap (λ q. q || f' || eval z op_value acc) same)),
              ),
        )

    pub nextlevel-ExtendsTo :
        (e : Expr) (c : Context)
        → WellFormed c
        → Indep cnf_var op_value c
        → Canonical e
        → Fresh cnf_var e
        → ExtendsTo (λ y. eval y op_value e) c (cnf_expr_nextlevel compare shallower cnf_var e c)
    unfolding cnf_expr_nextlevel
    nextlevel-ExtendsTo (boolean b) c w i k f =
        (omega arith, i, λ x y a. refl, λ x h. (x, λ j g. refl, h, refl))
    nextlevel-ExtendsTo (leaf n) c w i k f = (
      omega arith,
      i,
      Fresh-Dep cnf_var op_value c.varid (leaf n) f,
      λ x h. (x, λ j g. refl, h, refl),
    )
    nextlevel-ExtendsTo (op n) c w i k f =
        cnf_arg-Extends op_value compare compare-means shallower cnf_var injective (op n) c w i k f
    nextlevel-ExtendsTo (iff d e) c w i k f =
        cnf_arg-Extends op_value compare compare-means shallower cnf_var injective (iff d e) c w i k
          f
    nextlevel-ExtendsTo (disj es) c w i (k, s) f =
        let (l, j, d, ext) =
          nextlevel_args-ExtendsTo es (boolean false) c w i k f tt (λ x y a. refl) in
        (
          l,
          j,
          d,
          λ x h.
              let (y, ag, hy, ey) = ext x h in
              (y, ag, hy, ey ∙ comb_unit false (fold y op_value false es)),
        )
    nextlevel-ExtendsTo (conj empty) c w i (k, s) f = elim s [ ]
    nextlevel-ExtendsTo (conj (pair a v empty)) c w i (k, s) f =
        let (l, j, d, ext) =
          nextlevel_args-ExtendsTo (pair a v empty) (boolean false) c w i k f tt (λ x y a. refl) in
        (
          l,
          j,
          d,
          λ x h.
              let (y, ag, hy, ey) = ext x h in
              let lit = xor v (eval y op_value a) in
              (
                y,
                ag,
                hy,
                ey
                    ∙ (comb_unit false (lit || false)
                        ∙ (comb_unit false lit ∙ sym (comb_unit true lit))),
              ),
        )
    nextlevel-ExtendsTo (conj (pair a v (pair b x es))) c w i k f =
        cnf_arg-Extends op_value compare compare-means shallower cnf_var injective
          (conj (pair a v (pair b x es))) c w i k f

    negated_Extends :
        (e : Expr) (c : Context) (p : Expr × Context)
        → (let (r, c') = p in Simple r)
        → Extends op_value compare compare-means shallower cnf_var injective e c p
        → ExtendsSigned true e c p
    negated_Extends e c (r, c') s (l, i, d, ext) = (
      l,
      i,
      Dep-not cnf_var op_value compare compare-means shallower c'.varid r s d,
      λ x h.
          let (y, ag, hy, ey) = ext x h in
          let (ky, qy) =
            with_sign-Means y op_value compare (compare-means y) shallower cnf_var true r s in
          (y, ag, hy, qy ∙ ap not ey),
    )

    pub nextlevel-ExtendsSigned :
        (e : Expr) (v : Bool) (c : Context)
        → WellFormed c
        → Indep cnf_var op_value c
        → Canonical e
        → Fresh cnf_var e
        → (v ≡ true → Literal e)
        → ExtendsSigned v e c (cnf_expr_nextlevel compare shallower cnf_var e c)
    unfolding cnf_expr_nextlevel
    nextlevel-ExtendsSigned e false c w i k f l = nextlevel-ExtendsTo e c w i k f
    nextlevel-ExtendsSigned (boolean b) true c w i k f l = elim (l refl) [ ]
    nextlevel-ExtendsSigned (leaf n) true c w i k f l =
        negated_Extends (leaf n) c (leaf n, c) tt (nextlevel-ExtendsTo (leaf n) c w i k f)
    nextlevel-ExtendsSigned (op n) true c w i k f l =
        let (w1, s, h) =
          cnf_arg-Encodes all_false op_value compare (compare-means all_false) shallower cnf_var
            (op n) c w k in
        negated_Extends (op n) c (cnf_arg compare shallower cnf_var (op n) c) s (
          cnf_arg-Extends op_value compare compare-means shallower cnf_var injective (op n) c w i k
            f)
    nextlevel-ExtendsSigned (iff d e) true c w i k f l =
        let (w1, s, h) =
          cnf_arg-Encodes all_false op_value compare (compare-means all_false) shallower cnf_var
            (iff d e) c w k in
        negated_Extends (iff d e) c (cnf_arg compare shallower cnf_var (iff d e) c) s (
          cnf_arg-Extends op_value compare compare-means shallower cnf_var injective (iff d e) c w i
            k f)
    nextlevel-ExtendsSigned (disj es) true c w i k f l = elim (l refl) [ ]
    nextlevel-ExtendsSigned (conj es) true c w i k f l = elim (l refl) [ ]
