-- ===== src/Cnf/Sound.antt =====
-- pass_cnf.c: a valuation in which the clauses and the definitions are true gives every argument and
-- what stands for it the same value.
use smchr.Prelude.{
  ℕ, suc, ◌≡◌, refl, sym, ◌∙◌, ap, subst, inl, inr, Bool, true, false, not, ◌&&◌, ◌||◌,
  Option-cases,
}
use Prim.Native.Nat.{Ordering}
use smchr.Expr.{
  Expr, boolean, leaf, op, iff, conj, disj, Pairs, empty, pair, xor, expr_or, expr_not,
}
use smchr.Expr.Meaning.{comb, eval, fold}
use smchr.Expr.Canonical.{Canonical, Entries, Literal}
use smchr.Expr.Adds.{Means}
use smchr.Expr.Connectives.{expr_or-Means}
use smchr.Cnf.{
  Context, context_insertclause, context_insertiff, signed, cnf_arg, cnf_and_args, cnf_or_args,
  iffinfo_search,
}
use smchr.Cnf.Steps.{
  Simple, Simple-Canonical, WellFormed, Holds, not-Means, signed-Means, insertclause-Holds,
  search-IffsHold, insert-IffsHold,
}

-- The clauses of a conjunction, or of a disjunction, that stands for `b`: one for each argument `k` with
-- the others `f`, and the last one.
one_and : (b k f : Bool) → (k || not b) ≡ true → (not b || f) ≡ true → (not b || (k && f)) ≡ true
one_and true true f p q = q
one_and true false f p q = p
one_and false k f p q = refl

one_or : (b k f : Bool) → (not k || b) ≡ true → (not f || b) ≡ true → (not (k || f) || b) ≡ true
one_or b true f p q = p
one_or b false f p q = q

last_and : (b f : Bool) → (not b || f) ≡ true → (b || (not f || false)) ≡ true → b ≡ f
last_and true true p q = refl
last_and true false p q = sym p
last_and false true p q = q
last_and false false p q = refl

last_or : (b f : Bool) → (not f || b) ≡ true → (not b || (f || false)) ≡ true → b ≡ f
last_or true true p q = refl
last_or true false p q = sym q
last_or false true p q = p
last_or false false p q = refl

left_or : (b : Bool) → (not b || true) ≡ true
left_or true = refl
left_or false = refl

pub later_and : (x f c : Bool) → (not f || (not x || c)) ≡ (not (x && f) || c)
later_and true f c = refl
later_and false true c = refl
later_and false false c = refl

pub later_or : (x f c : Bool) → (f || (x || c)) ≡ (x || f || c)
later_or true true c = refl
later_or true false c = refl
later_or false f c = refl

module _ (value : ℕ → Bool) (op_value : ℕ → Bool) (compare : Expr → Expr → Ordering)
    (compare-means : (a b : Expr)
      → compare a b ≡ Ordering.eq
      → eval value op_value a ≡ eval value op_value b)
    (shallower : Pairs → Pairs → Bool) (cnf_var : ℕ → ℕ) where
  -- What a call leaves for its argument: a simple expression of the same value where the context holds,
  -- which holds only where the one before does.
  abbrev pub Encodes : Expr → Context → Expr × Context → Type 0
  Encodes e c (r, c') =
      WellFormed c'
      × Simple r
      × (Holds value op_value c'
          → Holds value op_value c × (eval value op_value r ≡ eval value op_value e))

  -- What a loop leaves for the arguments: `meets` holds of the value of `b` and theirs, and the last
  -- clause has their value and that of the clause before.
  abbrev pub Collects :
      (Bool → Bool → Bool)
      → (Bool → Bool → Bool)
      → Bool
      → Pairs
      → Expr
      → Expr
      → Context
      → Expr × Context
      → Type 0
  Collects meets adds u es b clause c (r, c') =
      WellFormed c'
      × Canonical r
      × (Holds value op_value c'
          → Holds value op_value c
            × (meets (eval value op_value b) (fold value op_value u es) ≡ true)
            × (eval value op_value r
                ≡ adds (fold value op_value u es) (eval value op_value clause)))

  insertiff-Encodes :
      (e : Expr) (c : Context)
      → WellFormed c
      → Canonical e
      → Literal e
      → Encodes e c (context_insertiff compare shallower cnf_var c e)
  insertiff-Encodes e c (k, d) ce le =
      elim (Option-cases (iffinfo_search compare shallower cnf_var c.iffinfo e)) [
        | inl f ↦
            let (a, b, x) =
              insert-IffsHold value op_value compare compare-means shallower cnf_var c.iffinfo e
                (leaf (cnf_var c.varid)) d ce le tt f in
            rw (context_insertiff, f) ((k, a), tt, λ (h, i). let (y, z) = b i in ((h, y), z))
        | inr (v, f) ↦
            let (s, h) =
              search-IffsHold value op_value compare compare-means shallower cnf_var c.iffinfo e v d
                f in
            rw (context_insertiff, f) ((k, d), s, λ (g, i). ((g, i), h i))
      ]

  abbrev and_meets : Bool → Bool → Bool
  and_meets b f = not b || f

  abbrev and_adds : Bool → Bool → Bool
  and_adds f c = not f || c

  abbrev or_meets : Bool → Bool → Bool
  or_meets b f = not f || b

  abbrev or_adds : Bool → Bool → Bool
  or_adds f c = f || c

  pub or_both :
      (p q : Expr) (x y : Bool)
      → Means value op_value p x
      → Means value op_value q y
      → Means value op_value (expr_or compare shallower p q) (x || y)
  or_both p q x y (cp, ep) (cq, eq) =
      let (c, e) = expr_or-Means value op_value compare compare-means shallower p q cp cq in
      (c, e ∙ (ap (λ z. z || eval value op_value q) ep ∙ ap (λ z. x || z) eq))

  -- A round of a loop, in front of the others.
  and_step :
      (e : Expr) (v : Bool) (es : Pairs) (b clause a : Expr) (c c1 c2 : Context) (clause' : Expr)
      (p : Expr × Context)
      → Collects and_meets and_adds true es b clause' c2 p
      → (Holds value op_value c1
          → Holds value op_value c × (eval value op_value a ≡ eval value op_value e))
      → (Holds value op_value c2
          → Holds value op_value c1
            × ((xor v (eval value op_value a) || not (eval value op_value b)) ≡ true))
      → eval value op_value clause'
        ≡ (not (xor v (eval value op_value a)) || eval value op_value clause)
      → Collects and_meets and_adds true (pair e v es) b clause c p
  and_step e v es b clause a c c1 c2 clause' (r, c') (w, k, h) h1 back ea = (
    w,
    k,
    λ top.
        let (h2, m, q) = h top in
        let (h1', cl) = back h2 in
        let (h0, same) = h1 h1' in
        let f = fold value op_value true es in
        let vb = eval value op_value b in
        let lit = xor v (eval value op_value a) in
        let e' = ap (xor v) same in
        (
          h0,
          subst (λ x. and_meets vb (comb true x f) ≡ true) e' (one_and vb lit f cl m),
          q
              ∙ (ap (and_adds f) ea
                  ∙ (later_and lit f (eval value op_value clause)
                      ∙ ap (λ x. and_adds (comb true x f) (eval value op_value clause)) e')),
        ),
  )

  -- A round of a loop, in front of the others.
  or_step :
      (e : Expr) (v : Bool) (es : Pairs) (b clause a : Expr) (c c1 c2 : Context) (clause' : Expr)
      (p : Expr × Context)
      → Collects or_meets or_adds false es b clause' c2 p
      → (Holds value op_value c1
          → Holds value op_value c × (eval value op_value a ≡ eval value op_value e))
      → (Holds value op_value c2
          → Holds value op_value c1
            × ((not (xor v (eval value op_value a)) || eval value op_value b) ≡ true))
      → eval value op_value clause' ≡ (xor v (eval value op_value a) || eval value op_value clause)
      → Collects or_meets or_adds false (pair e v es) b clause c p
  or_step e v es b clause a c c1 c2 clause' (r, c') (w, k, h) h1 back ea = (
    w,
    k,
    λ top.
        let (h2, m, q) = h top in
        let (h1', cl) = back h2 in
        let (h0, same) = h1 h1' in
        let f = fold value op_value false es in
        let vb = eval value op_value b in
        let lit = xor v (eval value op_value a) in
        let e' = ap (xor v) same in
        (
          h0,
          subst (λ x. or_meets vb (comb false x f) ≡ true) e' (one_or vb lit f cl m),
          q
              ∙ (ap (or_adds f) ea
                  ∙ (later_or lit f (eval value op_value clause)
                      ∙ ap (λ x. or_adds (comb false x f) (eval value op_value clause)) e')),
        ),
  )

  mutual
    unfolding cnf_arg cnf_and_args cnf_or_args

    pub cnf_arg-Encodes :
        (e : Expr) (c : Context)
        → WellFormed c
        → Canonical e
        → Encodes e c (cnf_arg compare shallower cnf_var e c)
    cnf_arg-Encodes (boolean x) c w k = (w, tt, λ h. (h, refl))
    cnf_arg-Encodes (leaf n) c w k = (w, tt, λ h. (h, refl))
    cnf_arg-Encodes (op n) c w k =
        insertiff-Encodes (op n) (record c { varid = suc c.varid }) w k tt
    cnf_arg-Encodes (iff x y) c w k =
        insertiff-Encodes (iff x y) (record c { varid = suc c.varid }) w k tt
    cnf_arg-Encodes (conj es) c w (k, s) =
        let b = leaf (cnf_var c.varid) in
        let c1 = record c { varid = suc c.varid } in
        let vb = eval value op_value b in
        let (r, c2) = cnf_and_args compare shallower cnf_var es b (boolean false) c1 in
        let (w2, cr, h) = cnf_and_args-Collects es b (boolean false) c1 w k tt tt in
        let (w3, back, there) =
          insertclause-Holds value op_value compare compare-means shallower cnf_var c2
            (expr_or compare shallower b r) (vb || eval value op_value r) w2
            (or_both b r vb (eval value op_value r) (tt, refl) (cr, refl)) in
        (
          w3,
          tt,
          λ top.
              let (h2, q) = back top in
              let (h0, m, e) = h h2 in
              (h0, last_and vb (fold value op_value true es) m (sym (ap (λ x. vb || x) e) ∙ q)),
        )
    cnf_arg-Encodes (disj es) c w (k, s) =
        let b = leaf (cnf_var c.varid) in
        let c1 = record c { varid = suc c.varid } in
        let vb = eval value op_value b in
        let (r, c2) = cnf_or_args compare shallower cnf_var es b (boolean false) c1 in
        let (w2, cr, h) = cnf_or_args-Collects es b (boolean false) c1 w k tt tt in
        let (w3, back, there) =
          insertclause-Holds value op_value compare compare-means shallower cnf_var c2
            (expr_or compare shallower (expr_not compare b) r) (not vb || eval value op_value r) w2
            (or_both (expr_not compare b) r (not vb) (eval value op_value r)
              (not-Means value op_value compare compare-means shallower cnf_var b tt) (cr, refl)) in
        (
          w3,
          tt,
          λ top.
              let (h2, q) = back top in
              let (h0, m, e) = h h2 in
              (h0, last_or vb (fold value op_value false es) m (sym (ap (λ x. not vb || x) e) ∙ q)),
        )

    pub cnf_and_args-Collects :
        (es : Pairs) (b clause : Expr) (c : Context)
        → WellFormed c
        → Entries es
        → Simple b
        → Canonical clause
        → Collects and_meets and_adds true es b clause c
            (cnf_and_args compare shallower cnf_var es b clause c)
    cnf_and_args-Collects empty b clause c w k sb cc =
        (w, cc, λ h. (h, left_or (eval value op_value b), refl))
    cnf_and_args-Collects (pair e v es) b clause c w (ke, sv, k') sb cc =
        let (a, c1) = cnf_arg compare shallower cnf_var e c in
        let (w1, s1, h1) = cnf_arg-Encodes e c w ke in
        let (k, nk) = signed compare shallower cnf_var v a in
        let lit = xor v (eval value op_value a) in
        let (mk, mnk) =
          signed-Means value op_value compare compare-means shallower cnf_var v a s1 in
        let (w2, back, there) =
          insertclause-Holds value op_value compare compare-means shallower cnf_var c1
            (expr_or compare shallower k (expr_not compare b)) (lit || not (eval value op_value b))
            w1
            (or_both k (expr_not compare b) lit (not (eval value op_value b)) mk
              (not-Means value op_value compare compare-means shallower cnf_var b sb)) in
        let (ca, ea) = or_both nk clause (not lit) (eval value op_value clause) mnk (cc, refl) in
        let c2 =
          context_insertclause compare shallower cnf_var c1
            (expr_or compare shallower k (expr_not compare b)) in
        let clause' = expr_or compare shallower nk clause in
        and_step e v es b clause a c c1 c2 clause'
          (cnf_and_args compare shallower cnf_var es b clause' c2)
          (cnf_and_args-Collects es b clause' c2 w2 k' sb ca) h1 back ea

    pub cnf_or_args-Collects :
        (es : Pairs) (b clause : Expr) (c : Context)
        → WellFormed c
        → Entries es
        → Simple b
        → Canonical clause
        → Collects or_meets or_adds false es b clause c
            (cnf_or_args compare shallower cnf_var es b clause c)
    cnf_or_args-Collects empty b clause c w k sb cc = (w, cc, λ h. (h, refl, refl))
    cnf_or_args-Collects (pair e v es) b clause c w (ke, sv, k') sb cc =
        let (a, c1) = cnf_arg compare shallower cnf_var e c in
        let (w1, s1, h1) = cnf_arg-Encodes e c w ke in
        let (k, nk) = signed compare shallower cnf_var v a in
        let lit = xor v (eval value op_value a) in
        let (mk, mnk) =
          signed-Means value op_value compare compare-means shallower cnf_var v a s1 in
        let (w2, back, there) =
          insertclause-Holds value op_value compare compare-means shallower cnf_var c1
            (expr_or compare shallower nk b) (not lit || eval value op_value b) w1
            (or_both nk b (not lit) (eval value op_value b) mnk (Simple-Canonical b sb, refl)) in
        let (ca, ea) = or_both k clause lit (eval value op_value clause) mk (cc, refl) in
        let c2 =
          context_insertclause compare shallower cnf_var c1 (expr_or compare shallower nk b) in
        let clause' = expr_or compare shallower k clause in
        or_step e v es b clause a c c1 c2 clause'
          (cnf_or_args compare shallower cnf_var es b clause' c2)
          (cnf_or_args-Collects es b clause' c2 w2 k' sb ca) h1 back ea
