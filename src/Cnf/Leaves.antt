-- ===== src/Cnf/Leaves.antt =====
-- pass_cnf.c: the loops at the top of an expression, from their clauses back to the expression.
use smchr.Prelude.{ℕ, ◌≡◌, refl, sym, ◌∙◌, ap, Bool, true, false, not, ◌&&◌, ◌||◌}
use Prim.Native.Nat.{Ordering}
use smchr.Expr.{
  Expr, boolean, leaf, op, iff, conj, disj, Pairs, empty, pair, xor, expr_and, expr_or,
}
use smchr.Expr.Meaning.{comb_unit, eval, fold}
use smchr.Expr.Canonical.{Canonical, Entries, Literal}
use smchr.Expr.Connectives.{expr_and-Means}
use smchr.Cnf.{Context, with_sign, cnf_arg, nextlevel_args, cnf_expr_nextlevel, top_args}
use smchr.Cnf.Steps.{Simple-Canonical, WellFormed, Holds, with_sign-Means}
use smchr.Cnf.Sound.{Encodes, cnf_arg-Encodes, or_both, later_or}

pub later_all : (x f c : Bool) → (f && (x && c)) ≡ (x && f && c)
later_all true true c = refl
later_all true false c = refl
later_all false true c = refl
later_all false false c = refl

module _ (value : ℕ → Bool) (op_value : ℕ → Bool) (compare : Expr → Expr → Ordering)
    (compare-means : (a b : Expr)
      → compare a b ≡ Ordering.eq
      → eval value op_value a ≡ eval value op_value b)
    (shallower : Pairs → Pairs → Bool) (cnf_var : ℕ → ℕ) where
  -- What a call leaves: an expression that has this value where the context holds, which holds only
  -- where the one before does.
  abbrev pub Leaves : Bool → Context → Expr × Context → Type 0
  Leaves b c (r, c') =
      WellFormed c'
      × Canonical r
      × (Holds value op_value c' → Holds value op_value c × (eval value op_value r ≡ b))

  Encodes-Leaves :
      (e : Expr) (c : Context) (p : Expr × Context)
      → Encodes value op_value compare compare-means shallower cnf_var e c p
      → Leaves (eval value op_value e) c p
  Encodes-Leaves e c (r, c') (w, s, h) = (w, Simple-Canonical r s, h)

  pub nextlevel_args-Leaves :
      (es : Pairs) (acc : Expr) (c : Context)
      → WellFormed c
      → Entries es
      → Canonical acc
      → Leaves
          (fold value op_value false es || eval value op_value acc)
          c
          (nextlevel_args compare shallower cnf_var es acc c)
  unfolding nextlevel_args
  nextlevel_args-Leaves empty acc c w k ca = (w, ca, λ h. (h, refl))
  nextlevel_args-Leaves (pair e v es) acc c w (ke, sv, k) ca =
      let (a, c1) = cnf_arg compare shallower cnf_var e c in
      let (w1, s1, h1) =
        cnf_arg-Encodes value op_value compare compare-means shallower cnf_var e c w ke in
      let m = with_sign-Means value op_value compare compare-means shallower cnf_var v a s1 in
      let next = with_sign compare shallower cnf_var v a in
      let (cn, en) =
        or_both value op_value compare compare-means shallower cnf_var next acc
          (xor v (eval value op_value a)) (eval value op_value acc) m (ca, refl) in
      let (w2, k2, h2) = nextlevel_args-Leaves es (expr_or compare shallower next acc) c1 w1 k cn in
      let f = fold value op_value false es in
      (
        w2,
        k2,
        λ top.
            let (hc1, q) = h2 top in
            let (h0, same) = h1 hc1 in
            (
              h0,
              q
                  ∙ (ap (λ x. f || x) en
                      ∙ (later_or (xor v (eval value op_value a)) f (eval value op_value acc)
                          ∙ ap (λ x. xor v x || f || eval value op_value acc) same)),
            ),
      )

  pub nextlevel-Leaves :
      (e : Expr) (c : Context)
      → WellFormed c
      → Canonical e
      → Leaves (eval value op_value e) c (cnf_expr_nextlevel compare shallower cnf_var e c)
  unfolding cnf_expr_nextlevel
  nextlevel-Leaves (boolean x) c w k = (w, k, λ h. (h, refl))
  nextlevel-Leaves (leaf n) c w k = (w, k, λ h. (h, refl))
  nextlevel-Leaves (op n) c w k =
      Encodes-Leaves (op n) c (cnf_arg compare shallower cnf_var (op n) c)
        (cnf_arg-Encodes value op_value compare compare-means shallower cnf_var (op n) c w k)
  nextlevel-Leaves (iff x y) c w k =
      Encodes-Leaves (iff x y) c (cnf_arg compare shallower cnf_var (iff x y) c)
        (cnf_arg-Encodes value op_value compare compare-means shallower cnf_var (iff x y) c w k)
  nextlevel-Leaves (disj es) c w (k, s) =
      let (w', k', h) = nextlevel_args-Leaves es (boolean false) c w k tt in
      (
        w',
        k',
        λ top. let (h0, q) = h top in (h0, q ∙ comb_unit false (fold value op_value false es)),
      )
  nextlevel-Leaves (conj empty) c w (k, s) = elim s [ ]
  nextlevel-Leaves (conj (pair a v empty)) c w (k, s) =
      let (w', k', h) = nextlevel_args-Leaves (pair a v empty) (boolean false) c w k tt in
      let lit = xor v (eval value op_value a) in
      (
        w',
        k',
        λ top.
            let (h0, q) = h top in
            (
              h0,
              q
                  ∙ (comb_unit false (lit || false)
                      ∙ (comb_unit false lit ∙ sym (comb_unit true lit))),
            ),
      )
  nextlevel-Leaves (conj (pair a v (pair b x es))) c w k =
      let e = conj (pair a v (pair b x es)) in
      Encodes-Leaves e c (cnf_arg compare shallower cnf_var e c)
        (cnf_arg-Encodes value op_value compare compare-means shallower cnf_var e c w k)

  -- An argument under its sign.
  abbrev pub LeavesSigned : Bool → Bool → Context → Expr × Context → Type 0
  LeavesSigned v b c (r, c') =
      WellFormed c'
      × Canonical (with_sign compare shallower cnf_var v r)
      × (Holds value op_value c'
          → Holds value op_value c
            × (eval value op_value (with_sign compare shallower cnf_var v r) ≡ xor v b))

  negated :
      (e : Expr) (c : Context) (p : Expr × Context)
      → Encodes value op_value compare compare-means shallower cnf_var e c p
      → LeavesSigned true (eval value op_value e) c p
  negated e c (r, c') (w, s, h) =
      let (k, q) =
        with_sign-Means value op_value compare compare-means shallower cnf_var true r s in
      (w, k, λ top. let (h0, same) = h top in (h0, q ∙ ap not same))

  pub nextlevel-LeavesSigned :
      (e : Expr) (v : Bool) (c : Context)
      → WellFormed c
      → Canonical e
      → (v ≡ true → Literal e)
      → LeavesSigned v (eval value op_value e) c (cnf_expr_nextlevel compare shallower cnf_var e c)
  unfolding cnf_expr_nextlevel
  nextlevel-LeavesSigned e false c w k l = nextlevel-Leaves e c w k
  nextlevel-LeavesSigned (boolean x) true c w k l = elim (l refl) [ ]
  nextlevel-LeavesSigned (leaf n) true c w k l =
      negated (leaf n) c (leaf n, c) (w, tt, λ h. (h, refl))
  nextlevel-LeavesSigned (op n) true c w k l =
      negated (op n) c (cnf_arg compare shallower cnf_var (op n) c)
        (cnf_arg-Encodes value op_value compare compare-means shallower cnf_var (op n) c w k)
  nextlevel-LeavesSigned (iff x y) true c w k l =
      negated (iff x y) c (cnf_arg compare shallower cnf_var (iff x y) c)
        (cnf_arg-Encodes value op_value compare compare-means shallower cnf_var (iff x y) c w k)
  nextlevel-LeavesSigned (disj es) true c w k l = elim (l refl) [ ]
  nextlevel-LeavesSigned (conj es) true c w k l = elim (l refl) [ ]

  pub top_args-Leaves :
      (es : Pairs) (acc : Expr) (c : Context)
      → WellFormed c
      → Entries es
      → Canonical acc
      → Leaves
          (fold value op_value true es && eval value op_value acc)
          c
          (top_args compare shallower cnf_var es acc c)
  unfolding top_args
  top_args-Leaves empty acc c w k ca = (w, ca, λ h. (h, refl))
  top_args-Leaves (pair e v es) acc c w (ke, (l, n), k) ca =
      let (a, c1) = cnf_expr_nextlevel compare shallower cnf_var e c in
      let next = with_sign compare shallower cnf_var v a in
      let (w1, k1, h1) = nextlevel-LeavesSigned e v c w ke l in
      let (cn, en) = expr_and-Means value op_value compare compare-means shallower next acc k1 ca in
      let (w2, k2, h2) = top_args-Leaves es (expr_and compare shallower next acc) c1 w1 k cn in
      let f = fold value op_value true es in
      (
        w2,
        k2,
        λ top.
            let (hc1, q) = h2 top in
            let (h0, same) = h1 hc1 in
            (
              h0,
              q
                  ∙ (ap (λ x. f && x) en
                      ∙ (later_all (eval value op_value next) f (eval value op_value acc)
                          ∙ ap (λ x. x && f && eval value op_value acc) same)),
            ),
      )
