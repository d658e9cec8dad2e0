-- ===== src/Cnf/Extend.antt =====
-- pass_cnf.c: any valuation can be changed at the new variables so that the clauses and definitions
-- made for an argument are true.
use smchr.Prelude.{
  ℕ, suc, ◌≤◌, ◌≡◌, refl, ◌∙◌, inl, inr, Bool, true, arith, Option-cases, update, update-same,
}
use Prim.Native.Nat.{Ordering}
use smchr.Expr.{Expr, leaf, Pairs}
use smchr.Expr.Meaning.{eval, fold}
use smchr.Expr.Canonical.{Canonical, Literal}
use smchr.Cnf.{Context, context_insertiff, iffinfo_search}
use smchr.Cnf.Steps.{WellFormed, Holds, search-IffsHold, insert-IffsHold}
use smchr.Cnf.Fresh.{
  Agree, Agree-less, Agree-update, Fresh, Fresh-Dep, Dep, Dep-more, DepIffs-more, Dep-new_var,
  Indep, Indep-Agree, search-Dep, insert-DepIffs,
}

module _ (op_value : ℕ → Bool) (compare : Expr → Expr → Ordering)
    (compare-means : (value : ℕ → Bool) (a b : Expr)
      → compare a b ≡ Ordering.eq
      → eval value op_value a ≡ eval value op_value b)
    (shallower : Pairs → Pairs → Bool) (cnf_var : ℕ → ℕ)
    (injective : (m n : ℕ) → cnf_var m ≡ cnf_var n → m ≡ n) where
  -- What the calls leave depends on no variable to come, and a valuation in which the context before
  -- holds can be changed at the variables from then on so that the one after holds, and the result has
  -- the value of the argument.
  abbrev pub Extends : Expr → Context → Expr × Context → Type 0
  Extends e c (r, c') =
      (c.varid ≤ c'.varid)
      × Indep cnf_var op_value c'
      × Dep cnf_var op_value c'.varid r
      × ((x : ℕ → Bool)
          → Holds x op_value c
          → (y : ℕ → Bool) × Agree cnf_var c.varid x y
            × Holds y op_value c'
            × (eval y op_value r ≡ eval y op_value e))

  abbrev pub ExtendsAll :
      (Bool → Bool → Bool)
      → (Bool → Bool → Bool)
      → Bool
      → Pairs
      → Expr
      → Expr
      → Context
      → Expr × Context
      → Type 0
  ExtendsAll meets adds u es b clause c (r, c') =
      (c.varid ≤ c'.varid)
      × Indep cnf_var op_value c'
      × Dep cnf_var op_value c'.varid r
      × ((x : ℕ → Bool)
          → Holds x op_value c
          → meets (eval x op_value b) (fold x op_value u es) ≡ true
          → (y : ℕ → Bool) × Agree cnf_var c.varid x y
            × Holds y op_value c'
            × (eval y op_value r ≡ adds (fold y op_value u es) (eval y op_value clause)))

  pub Agree-after :
      (n m : ℕ) (x y z : ℕ → Bool)
      → n ≤ m
      → Agree cnf_var n x y
      → Agree cnf_var m y z
      → Agree cnf_var n x z
  Agree-after n m x y z l a b i f = a i f ∙ Agree-less cnf_var n m y z l b i f

  -- The number of a variable is passed over.
  pub Indep-next :
      (c : Context)
      → Indep cnf_var op_value c
      → Indep cnf_var op_value (record c { varid = suc c.varid })
  Indep-next c (d, ds) = (
    Dep-more cnf_var op_value c.varid (suc c.varid) c.clauses (omega arith) d,
    DepIffs-more cnf_var op_value c.varid (suc c.varid) c.iffinfo (omega arith) ds,
  )

  pub Extends-next :
      (e : Expr) (c : Context) (p : Expr × Context)
      → Extends e (record c { varid = suc c.varid }) p
      → Extends e c p
  Extends-next e c (r, c') (l, i, d, h) = (
    omega arith,
    i,
    d,
    λ x k.
        let (y, a, hy, q) = h x k in
        (y, Agree-less cnf_var c.varid (suc c.varid) x y (omega arith) a, hy, q),
  )

  pub insertiff-Extends :
      (e : Expr) (c : Context)
      → WellFormed c
      → Indep cnf_var op_value c
      → Canonical e
      → Literal e
      → Fresh cnf_var e
      → Extends e c (context_insertiff compare shallower cnf_var c e)
  insertiff-Extends e c (k, w) (d, ds) ce le fe =
      elim (Option-cases (iffinfo_search compare shallower cnf_var c.iffinfo e)) [
        | inl f ↦
            let n = c.varid in
            let v = leaf (cnf_var n) in
            let dn = Dep-new_var cnf_var op_value injective n in
            let de = Fresh-Dep cnf_var op_value (suc n) e fe in
            let (d', ds') = Indep-next c (d, ds) in
            rw (context_insertiff, f)
              (
                omega arith,
                (
                  d',
                  insert-DepIffs cnf_var op_value compare compare-means shallower (suc n) c.iffinfo
                      e v ds' de dn,
                ),
                dn,
                λ x h.
                    let y = update x (cnf_var n) (eval x op_value e) in
                    let a = Agree-update cnf_var op_value injective n x (eval x op_value e) in
                    let (hc, hs) = Indep-Agree cnf_var op_value c x y (d, ds) a h in
                    let q : eval y op_value v ≡ eval y op_value e =
                      update-same x (cnf_var n) (eval x op_value e)
                      ∙ Fresh-Dep cnf_var op_value n e fe x y a in
                    let (s, back, there) =
                      insert-IffsHold y op_value compare (compare-means y) shallower cnf_var
                        c.iffinfo e v w ce le tt f in
                    (y, a, (hc, there hs q), q),
              )
        | inr (v, f) ↦
            rw (context_insertiff, f)
              (
                omega arith,
                (d, ds),
                search-Dep cnf_var op_value compare compare-means shallower c.varid c.iffinfo e v ds
                    f,
                λ x h.
                    let (hc, hs) = h in
                    let (s, q) =
                      search-IffsHold x op_value compare (compare-means x) shallower cnf_var
                        c.iffinfo e v w f in
                    (x, λ i g. refl, h, q hs),
              )
      ]
