-- ===== src/Cnf/Rounds.antt =====
-- pass_cnf.c: how a valuation is changed at the variable of an argument, and in one round of a loop over
-- arguments.
use smchr.Prelude.{
  ℕ, suc, ◌≡◌, refl, sym, ◌∙◌, ap, subst, Bool, true, false, not, ◌&&◌, ◌||◌, arith, update,
  update-same,
}
use Prim.Native.Nat.{Ordering}
use smchr.Expr.{Expr, boolean, leaf, Pairs, pair, xor, expr_not}
use smchr.Expr.Meaning.{comb, eval, fold}
use smchr.Cnf.{Context, context_insertclause, signed}
use smchr.Cnf.Steps.{Simple, WellFormed, not-Means, signed-Means, insertclause-Holds}
use smchr.Cnf.Fresh.{
  Agree-update, Fresh, FreshPairs, FreshPairs-fold, Fresh-Dep, Dep, Dep-more, Dep-new_var, Dep-not,
  Indep, Indep-Agree, insertclause-Indep,
}
use smchr.Expr.Adds.{Means}
use smchr.Cnf.Extend.{Extends, ExtendsAll, Agree-after}

-- The clauses of a conjunction, or of a disjunction, from what they say together.
pub split_and :
    (b k f : Bool) → (not b || (k && f)) ≡ true → ((k || not b) ≡ true) × ((not b || f) ≡ true)
split_and true true f e = (refl, e)
split_and true false f e = let bad : ⊥ = ground (arith, e) in elim bad [ ]
split_and false true f e = (refl, refl)
split_and false false f e = (refl, refl)

pub split_or :
    (b k f : Bool) → (not (k || f) || b) ≡ true → ((not k || b) ≡ true) × ((not f || b) ≡ true)
split_or b true true e = (e, e)
split_or b true false e = (e, refl)
split_or b false f e = (refl, e)

pub same_meets : (f : Bool) → (not f || f) ≡ true
same_meets true = refl
same_meets false = refl

pub end_and : (f : Bool) → (f || (not f || false)) ≡ true
end_and true = refl
end_and false = refl

pub end_or : (f : Bool) → (not f || (f || false)) ≡ true
end_or true = refl
end_or false = refl

abbrev pub all_false : ℕ → Bool
all_false i = false

abbrev pub and_meets : Bool → Bool → Bool
and_meets b f = not b || f

abbrev pub and_adds : Bool → Bool → Bool
and_adds f c = not f || c

abbrev pub or_meets : Bool → Bool → Bool
or_meets b f = not f || b

abbrev pub or_adds : Bool → Bool → Bool
or_adds f c = f || c

module _ (op_value : ℕ → Bool) (compare : Expr → Expr → Ordering)
    (compare-means : (value : ℕ → Bool) (a b : Expr)
      → compare a b ≡ Ordering.eq
      → eval value op_value a ≡ eval value op_value b)
    (shallower : Pairs → Pairs → Bool) (cnf_var : ℕ → ℕ)
    (injective : (m n : ℕ) → cnf_var m ≡ cnf_var n → m ≡ n) where
  pub signed-Dep :
      (n : ℕ) (v : Bool) (a : Expr)
      → Simple a
      → Dep cnf_var op_value n a
      → let (k, nk) = signed compare shallower cnf_var v a in
        Dep cnf_var op_value n k × Dep cnf_var op_value n nk
  signed-Dep n true a s d = (Dep-not cnf_var op_value compare compare-means shallower n a s d, d)
  signed-Dep n false a s d = (d, Dep-not cnf_var op_value compare compare-means shallower n a s d)

  pub negation :
      (y : ℕ → Bool) (b : Expr)
      → Simple b
      → Means y op_value (expr_not compare b) (not (eval y op_value b))
  negation y = not-Means y op_value compare (compare-means y) shallower cnf_var

  pub signs :
      (y : ℕ → Bool) (a : Expr) (v : Bool)
      → Simple a
      → let (k, nk) = signed compare shallower cnf_var v a in
        Means y op_value k (xor v (eval y op_value a))
        × Means y op_value nk (not (xor v (eval y op_value a)))
  signs y a v = signed-Means y op_value compare (compare-means y) shallower cnf_var v a

  -- The variable made for an argument takes the value of its arguments' fold.
  pub node-Extends :
      (u : Bool) (meets adds ends : Bool → Bool → Bool) (es : Pairs) (c c2 : Context)
      (r last e : Expr)
      → FreshPairs cnf_var es
      → Indep cnf_var op_value c
      → ((x : ℕ → Bool) → eval x op_value e ≡ fold x op_value u es)
      → ((g : Bool) → meets g g ≡ true)
      → ((g : Bool) → ends g (adds g false) ≡ true)
      → ExtendsAll op_value compare compare-means shallower cnf_var injective meets adds u es
          (leaf (cnf_var c.varid))
          (boolean false)
          (record c { varid = suc c.varid })
          (r, c2)
      → WellFormed c2
      → Dep cnf_var op_value c2.varid last
      → ((y : ℕ → Bool) → Means y op_value last (ends (y (cnf_var c.varid)) (eval y op_value r)))
      → Extends op_value compare compare-means shallower cnf_var injective e c
          (leaf (cnf_var c.varid), context_insertclause compare shallower cnf_var c2 last)
  node-Extends u meets adds ends es c c2 r last e f i value same_lem end_lem (l2, i2, d2, ext) w2 dl
        ml =
      let n = c.varid in
      let b = leaf (cnf_var n) in
      let db = Dep-new_var cnf_var op_value injective n in
      (
        omega (arith, l2),
        insertclause-Indep cnf_var op_value compare compare-means shallower c2 last w2 i2
            (ml all_false).0 dl,
        Dep-more cnf_var op_value (suc n) c2.varid b l2 db,
        λ x h.
            let g = fold x op_value u es in
            let x1 = update x (cnf_var n) g in
            let ag = Agree-update cnf_var op_value injective n x g in
            let bx : x1 (cnf_var n) ≡ fold x1 op_value u es =
              update-same x (cnf_var n) g ∙ FreshPairs-fold cnf_var op_value n u es x x1 f ag in
            let m =
              subst (λ q. meets q (fold x1 op_value u es) ≡ true) (sym bx)
                (same_lem (fold x1 op_value u es)) in
            let (y, ag2, hy, ey) = ext x1 (Indep-Agree cnf_var op_value c x x1 i ag h) m in
            let fy = fold y op_value u es in
            let by : y (cnf_var n) ≡ fy =
              sym (db x1 y ag2) ∙ (bx ∙ FreshPairs-fold cnf_var op_value (suc n) u es x1 y f ag2) in
            let (wy, back, there) =
              insertclause-Holds y op_value compare (compare-means y) shallower cnf_var c2 last
                (ends (y (cnf_var n)) (eval y op_value r)) w2 (ml y) in
            (
              y,
              Agree-after op_value compare compare-means shallower cnf_var injective n (suc n) x x1
                  y (omega arith) ag ag2,
              there hy (ap (λ q. ends q (eval y op_value r)) by ∙ (ap (ends fy) ey ∙ end_lem fy)),
              by ∙ sym (value y),
            ),
      )

  -- One round of a loop over arguments.
  pub step-ExtendsAll :
      (u : Bool) (meets adds adds_clause becomes : Bool → Bool → Bool) (e : Expr) (v : Bool)
      (es : Pairs) (b clause a added clause' : Expr) (c c1 : Context) (p : Expr × Context)
      → ((q k g : Bool)
          → meets q (comb u k g) ≡ true
          → (adds_clause k q ≡ true) × (meets q g ≡ true))
      → ((k g h : Bool) → adds g (becomes k h) ≡ adds (comb u k g) h)
      → Fresh cnf_var e
      → FreshPairs cnf_var es
      → Dep cnf_var op_value c.varid b
      → Extends op_value compare compare-means shallower cnf_var injective e c (a, c1)
      → WellFormed c1
      → ((y : ℕ → Bool)
          → Means y op_value added (adds_clause (xor v (eval y op_value a)) (eval y op_value b)))
      → ((y : ℕ → Bool)
          → Means y op_value clause' (becomes (xor v (eval y op_value a)) (eval y op_value clause)))
      → ExtendsAll op_value compare compare-means shallower cnf_var injective meets adds u es b
          clause'
          (context_insertclause compare shallower cnf_var c1 added)
          p
      → ExtendsAll op_value compare compare-means shallower cnf_var injective meets adds u
          (pair e v es)
          b
          clause
          c
          p
  step-ExtendsAll u meets adds adds_clause becomes e v es b clause a added clause' c c1 p split
        later fe f db (l1, i1, d1, ext1) w1 ma mc (l3, i3, d3, ext3) =
      (
        omega (arith, l1, l3),
        i3,
        d3,
        λ x h m.
            let (y, ag, hy, ey) = ext1 x h in
            let ff = FreshPairs-fold cnf_var op_value c.varid u es x y f ag in
            let fev = Fresh-Dep cnf_var op_value c.varid e fe x y ag ∙ sym ey in
            let at_y : eval y op_value b ≡ eval x op_value b = sym (db x y ag) in
            let m' =
              ap (λ q. meets q (comb u (xor v (eval y op_value a)) (fold y op_value u es))) at_y
              ∙ (ap (λ q. meets (eval x op_value b) (comb u (xor v q) (fold y op_value u es)))
                    (sym fev)
                  ∙ (ap (λ q. meets (eval x op_value b) (comb u (xor v (eval x op_value e)) q))
                        (sym ff)
                      ∙ m)) in
            let (t, rest) =
              split (eval y op_value b) (xor v (eval y op_value a)) (fold y op_value u es) m' in
            let (wy, by, ty) =
              insertclause-Holds y op_value compare (compare-means y) shallower cnf_var c1 added
                (adds_clause (xor v (eval y op_value a)) (eval y op_value b)) w1 (ma y) in
            let (z, ag2, hz, ez) = ext3 y (ty hy t) rest in
            let az : eval z op_value a ≡ eval z op_value e =
              sym (d1 y z ag2) ∙ (ey ∙ Fresh-Dep cnf_var op_value c1.varid e fe y z ag2) in
            (
              z,
              Agree-after op_value compare compare-means shallower cnf_var injective c.varid
                  c1.varid x y z l1 ag ag2,
              hz,
              ez
                  ∙ (ap (adds (fold z op_value u es)) (mc z).1
                      ∙ (later (xor v (eval z op_value a)) (fold z op_value u es)
                            (eval z op_value clause)
                          ∙ ap
                              (λ q.
                                adds (comb u (xor v q) (fold z op_value u es))
                                  (eval z op_value clause))
                              az)),
            ),
      )
