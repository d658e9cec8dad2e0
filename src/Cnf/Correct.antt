-- ===== src/Cnf/Correct.antt =====
-- pass_cnf.c: `pass_cnf_expr`, and the definitions at its end.
use smchr.Prelude.{
  ℕ, ◌≡◌, refl, sym, ◌∙◌, ap, inl, inr, Bool, true, false, not, ◌&&◌, List, [], ◌∷◌,
}
use Prim.Native.Nat.{Ordering}
use smchr.Expr.{Expr, boolean, leaf, op, iff, conj, disj, Pairs, xor, expr_and, expr_iff}
use smchr.Expr.Meaning.{comb_unit, eval, fold, Ordering-cases}
use smchr.Expr.Canonical.{Canonical, Literal}
use smchr.Expr.Adds.{Means}
use smchr.Expr.Connectives.{expr_and-Means}
use smchr.Cnf.{Context, cnf_expr_nextlevel, top_args, iffs_from, no_context, pass_cnf_expr, finish}
use smchr.Cnf.Steps.{IsLeaf, Defines, WellFormed, IffsHold, and_both}
use smchr.Cnf.Leaves.{Leaves, nextlevel-Leaves, top_args-Leaves}

same_or : (a b : Bool) → not (xor a b) ≡ true → a ≡ b
same_or true true e = refl
same_or true false e = sym e
same_or false true e = e
same_or false false e = refl

xor_self : (a : Bool) → true ≡ not (xor a a)
xor_self true = refl
xor_self false = refl

xor_comm : (a b : Bool) → not (xor a b) ≡ not (xor b a)
xor_comm true true = refl
xor_comm true false = refl
xor_comm false true = refl
xor_comm false false = refl

module _ (value : ℕ → Bool) (op_value : ℕ → Bool) where
  -- Where both results are true, so is the expression.
  abbrev pub Implies : Expr × Expr → Expr → Type 0
  Implies (b, d) e =
      eval value op_value b ≡ true → eval value op_value d ≡ true → eval value op_value e ≡ true

module _ (value : ℕ → Bool) (op_value : ℕ → Bool) (compare : Expr → Expr → Ordering)
    (compare-means : (a b : Expr)
      → compare a b ≡ Ordering.eq
      → eval value op_value a ≡ eval value op_value b)
    (shallower : Pairs → Pairs → Bool) (cnf_var : ℕ → ℕ) where
  iff-cases :
      (a b : Expr)
      → Canonical a
      → Canonical b
      → Means value op_value
          (elim (compare a b) [
            | Ordering.lt ↦ iff a b
            | Ordering.gt ↦ iff b a
            | Ordering.eq ↦ boolean true
          ])
          (not (xor (eval value op_value a) (eval value op_value b)))
  iff-cases a b ca cb =
      let va = eval value op_value a in
      let vb = eval value op_value b in
      elim (Ordering-cases (compare a b)) [
        | inl e ↦ rw e ((ca, cb), refl)
        | inr (inl e) ↦ rw e (tt, xor_self va ∙ ap (λ x. not (xor va x)) (compare-means a b e))
        | inr (inr e) ↦ rw e ((cb, ca), xor_comm vb va)
      ]

  -- A definition is an equivalence.
  pub iff-Means :
      (v k : Expr)
      → IsLeaf v
      → Canonical k
      → Literal k
      → Means value op_value
          (expr_iff compare v k)
          (not (xor (eval value op_value v) (eval value op_value k)))
  unfolding expr_iff
  iff-Means (leaf n) (leaf m) s c l = iff-cases (leaf n) (leaf m) tt tt
  iff-Means (leaf n) (op m) s c l = iff-cases (leaf n) (op m) tt tt
  iff-Means (leaf n) (iff x y) s c l = iff-cases (leaf n) (iff x y) tt c
  iff-Means (leaf n) (boolean b) s c l = elim l [ ]
  iff-Means (leaf n) (conj es) s c l = elim l [ ]
  iff-Means (leaf n) (disj es) s c l = elim l [ ]
  iff-Means (boolean b) k s c l = elim s [ ]
  iff-Means (op n) k s c l = elim s [ ]
  iff-Means (iff x y) k s c l = elim s [ ]
  iff-Means (conj es) k s c l = elim s [ ]
  iff-Means (disj es) k s c l = elim s [ ]

  iffs_from-IffsHold :
      (is : List (Expr × Expr)) (acc : Expr)
      → Defines is
      → Canonical acc
      → let r = iffs_from compare shallower cnf_var is acc in
        Canonical r
        × (eval value op_value r ≡ true
            → IffsHold value op_value is × (eval value op_value acc ≡ true))
  unfolding iffs_from
  iffs_from-IffsHold [] acc d ca = (ca, λ e. (tt, e))
  iffs_from-IffsHold ((k, v) ∷ is) acc (ck, lk, sv, d) ca =
      let (ci, ei) = iff-Means v k sv ck lk in
      let i = expr_iff compare v k in
      let (cn, en) = expr_and-Means value op_value compare compare-means shallower i acc ci ca in
      let (cr, h) = iffs_from-IffsHold is (expr_and compare shallower i acc) d cn in
      (
        cr,
        λ e.
            let (hs, t) = h e in
            let (x, y) = and_both (eval value op_value i) (eval value op_value acc) (sym en ∙ t) in
            ((same_or (eval value op_value v) (eval value op_value k) (sym ei ∙ x), hs), y),
      )

  finish-Implies :
      (e : Expr) (x : Bool) (p : Expr × Context)
      → Leaves value op_value compare compare-means shallower cnf_var x no_context p
      → x ≡ eval value op_value e
      → Implies value op_value (finish compare shallower cnf_var p) e
  finish-Implies e x (r, c) ((kc, d), k, h) z = λ tb td.
      let (cn, en) =
        expr_and-Means value op_value compare compare-means shallower r c.clauses k kc in
      let (tr, tc) =
        and_both (eval value op_value r) (eval value op_value c.clauses) (sym en ∙ tb) in
      let (ci, hi) = iffs_from-IffsHold c.iffinfo (boolean true) d tt in
      let (is, t) = hi td in let (h0, q) = h (tc, is) in sym z ∙ (sym q ∙ tr)

  pub start : WellFormed no_context
  start = (tt, tt)

  -- A valuation in which both expressions that `pass_cnf_expr` makes of a canonical expression are true
  -- makes the expression true, where all expressions that `compare` takes for equal have the same truth
  -- value in the valuation.
  pub pass_cnf_expr-Implies :
      (e : Expr)
      → Canonical e
      → Implies value op_value (pass_cnf_expr compare shallower cnf_var e) e
  unfolding pass_cnf_expr
  pass_cnf_expr-Implies (boolean b) k = λ tb td. tb
  pass_cnf_expr-Implies (leaf n) k = λ tb td. tb
  pass_cnf_expr-Implies (conj es) (k, s) =
      finish-Implies (conj es) (fold value op_value true es && true)
        (top_args compare shallower cnf_var es (boolean true) no_context)
        (top_args-Leaves value op_value compare compare-means shallower cnf_var es (boolean true)
          no_context start k tt)
        (comb_unit true (fold value op_value true es))
  pass_cnf_expr-Implies (disj es) k =
      finish-Implies (disj es) (eval value op_value (disj es))
        (cnf_expr_nextlevel compare shallower cnf_var (disj es) no_context)
        (nextlevel-Leaves value op_value compare compare-means shallower cnf_var (disj es)
          no_context start k)
        refl
  pass_cnf_expr-Implies (op n) k =
      finish-Implies (op n) (op_value n)
        (cnf_expr_nextlevel compare shallower cnf_var (op n) no_context)
        (nextlevel-Leaves value op_value compare compare-means shallower cnf_var (op n) no_context
          start k)
        refl
  pass_cnf_expr-Implies (iff x y) k =
      finish-Implies (iff x y) (eval value op_value (iff x y))
        (cnf_expr_nextlevel compare shallower cnf_var (iff x y) no_context)
        (nextlevel-Leaves value op_value compare compare-means shallower cnf_var (iff x y)
          no_context start k)
        refl
