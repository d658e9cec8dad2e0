-- ===== src/Cnf/Fresh.antt =====
-- pass_cnf.c: valuations that differ at the variables made by `cnf_new_var` only, and what does not
-- depend on those to come.
use smchr.Prelude.{
  ℕ, suc, ◌≤◌, ◌≡◌, refl, sym, ◌∙◌, ap, subst, ◌≢◌, inl, inr, Bool, true, false, not, ◌&&◌, ◌||◌,
  some, List, [], ◌∷◌, arith, update, update-other,
}
use Prim.Native.Nat.{Ordering}
use mathlib.Core.Option.{some-injective}
use smchr.Expr.{
  Expr, boolean, leaf, op, iff, conj, disj, Pairs, empty, pair, xor, expr_and, expr_or, expr_not,
}
use smchr.Expr.Meaning.{comb, eval, fold, Ordering-cases}
use smchr.Expr.Canonical.{Canonical}
use smchr.Expr.Connectives.{expr_and-Means, expr_or-Means}
use smchr.Cnf.{Context, context_insertclause, iffinfo_search, iffinfo_insert}
use smchr.Cnf.Steps.{Simple, WellFormed, Holds, IffsHold, not-Means}

module _ (cnf_var : ℕ → ℕ) where
  -- The valuations agree but for the variables from number `n` on.
  abbrev pub Agree : ℕ → (ℕ → Bool) → (ℕ → Bool) → Type 0
  Agree n x y = (i : ℕ) → ((m : ℕ) → n ≤ m → i ≢ cnf_var m) → x i ≡ y i

  -- No variable made by `cnf_new_var` occurs in the expression.
  abbrev mutual
    pub Fresh : Expr → Type 0
    Fresh (boolean c) = Unit
    Fresh (leaf i) = (m : ℕ) → i ≢ cnf_var m
    Fresh (op n) = Unit
    Fresh (iff x y) = Fresh x × Fresh y
    Fresh (conj es) = FreshPairs es
    Fresh (disj es) = FreshPairs es

    pub FreshPairs : Pairs → Type 0
    FreshPairs empty = Unit
    FreshPairs (pair k v es) = Fresh k × FreshPairs es

  pub Agree-less : (n m : ℕ) (x y : ℕ → Bool) → n ≤ m → Agree m x y → Agree n x y
  Agree-less n m x y l a i f = a i (λ k h. f k (omega arith))

  module _ (op_value : ℕ → Bool) where
    mutual
      Fresh-eval :
          (e : Expr) (x y : ℕ → Bool)
          → Fresh e
          → Agree 0 x y
          → eval x op_value e ≡ eval y op_value e
      Fresh-eval (boolean c) x y f a = refl
      Fresh-eval (leaf i) x y f a = a i (λ m h. f m)
      Fresh-eval (op n) x y f a = refl
      Fresh-eval (iff d e) x y (f, g) a =
          ap (λ b. not (xor b (eval x op_value e))) (Fresh-eval d x y f a)
          ∙ ap (λ b. not (xor (eval y op_value d) b)) (Fresh-eval e x y g a)
      Fresh-eval (conj es) x y f a = Fresh-fold true es x y f a
      Fresh-eval (disj es) x y f a = Fresh-fold false es x y f a

      Fresh-fold :
          (u : Bool) (es : Pairs) (x y : ℕ → Bool)
          → FreshPairs es
          → Agree 0 x y
          → fold x op_value u es ≡ fold y op_value u es
      Fresh-fold u empty x y f a = refl
      Fresh-fold u (pair k v es) x y (f, g) a =
          ap (λ b. comb u (xor v b) (fold x op_value u es)) (Fresh-eval k x y f a)
          ∙ ap (comb u (xor v (eval y op_value k))) (Fresh-fold u es x y g a)

    -- The value depends on no variable from number `n` on.
    abbrev pub Dep : ℕ → Expr → Type 0
    Dep n e = (x y : ℕ → Bool) → Agree n x y → eval x op_value e ≡ eval y op_value e

    abbrev pub DepIffs : ℕ → List (Expr × Expr) → Type 0
    DepIffs n [] = Unit
    DepIffs n ((k, v) ∷ is) = Dep n k × Dep n v × DepIffs n is

    -- Nor does what the context says.
    abbrev pub Indep : Context → Type 0
    Indep c = Dep c.varid c.clauses × DepIffs c.varid c.iffinfo

    pub Fresh-Dep : (n : ℕ) (e : Expr) → Fresh e → Dep n e
    Fresh-Dep n e f x y a = Fresh-eval e x y f (Agree-less 0 n x y (omega arith) a)

    pub FreshPairs-fold :
        (n : ℕ) (u : Bool) (es : Pairs) (x y : ℕ → Bool)
        → FreshPairs es
        → Agree n x y
        → fold x op_value u es ≡ fold y op_value u es
    FreshPairs-fold n u es x y f a = Fresh-fold u es x y f (Agree-less 0 n x y (omega arith) a)

    pub Dep-more : (n m : ℕ) (e : Expr) → n ≤ m → Dep n e → Dep m e
    Dep-more n m e l d x y a = d x y (Agree-less n m x y l a)

    pub DepIffs-more : (n m : ℕ) (is : List (Expr × Expr)) → n ≤ m → DepIffs n is → DepIffs m is
    DepIffs-more n m [] l d = tt
    DepIffs-more n m ((k, v) ∷ is) l (dk, dv, d) =
        (Dep-more n m k l dk, Dep-more n m v l dv, DepIffs-more n m is l d)

    pub DepIffs-Agree :
        (n : ℕ) (is : List (Expr × Expr)) (x y : ℕ → Bool)
        → DepIffs n is
        → Agree n x y
        → IffsHold x op_value is
        → IffsHold y op_value is
    DepIffs-Agree n [] x y d a h = tt
    DepIffs-Agree n ((k, v) ∷ is) x y (dk, dv, d) a (h, hs) =
        (sym (dv x y a) ∙ (h ∙ dk x y a), DepIffs-Agree n is x y d a hs)

    -- A context goes on to hold in a valuation that agrees.
    pub Indep-Agree :
        (c : Context) (x y : ℕ → Bool)
        → Indep c
        → Agree c.varid x y
        → Holds x op_value c
        → Holds y op_value c
    Indep-Agree c x y (d, ds) a (h, hs) =
        (sym (d x y a) ∙ h, DepIffs-Agree c.varid c.iffinfo x y ds a hs)

    module _ (injective : (m n : ℕ) → cnf_var m ≡ cnf_var n → m ≡ n) where
      pub Dep-new_var : (n : ℕ) → Dep (suc n) (leaf (cnf_var n))
      Dep-new_var n x y a = a (cnf_var n) (λ m h z. omega (arith, injective n m z))

      -- A new variable can be given any value.
      pub Agree-update : (n : ℕ) (x : ℕ → Bool) (b : Bool) → Agree n x (update x (cnf_var n) b)
      Agree-update n x b i f = sym (update-other x (cnf_var n) b i (f n (omega arith)))

    module _ (compare : Expr → Expr → Ordering)
        (compare-means : (value : ℕ → Bool) (a b : Expr)
          → compare a b ≡ Ordering.eq
          → eval value op_value a ≡ eval value op_value b)
        (shallower : Pairs → Pairs → Bool) where
      pub Dep-or :
          (n : ℕ) (a b : Expr)
          → Canonical a
          → Canonical b
          → Dep n a
          → Dep n b
          → Dep n (expr_or compare shallower a b)
      Dep-or n a b ca cb da db x y h =
          let (c, e) = expr_or-Means x op_value compare (compare-means x) shallower a b ca cb in
          let (d, f) = expr_or-Means y op_value compare (compare-means y) shallower a b ca cb in
          e
          ∙ (ap (λ z. z || eval x op_value b) (da x y h)
              ∙ (ap (λ z. eval y op_value a || z) (db x y h) ∙ sym f))

      pub Dep-and :
          (n : ℕ) (a b : Expr)
          → Canonical a
          → Canonical b
          → Dep n a
          → Dep n b
          → Dep n (expr_and compare shallower a b)
      Dep-and n a b ca cb da db x y h =
          let (c, e) = expr_and-Means x op_value compare (compare-means x) shallower a b ca cb in
          let (d, f) = expr_and-Means y op_value compare (compare-means y) shallower a b ca cb in
          e
          ∙ (ap (λ z. z && eval x op_value b) (da x y h)
              ∙ (ap (λ z. eval y op_value a && z) (db x y h) ∙ sym f))

      pub Dep-not : (n : ℕ) (a : Expr) → Simple a → Dep n a → Dep n (expr_not compare a)
      Dep-not n a s d x y h =
          let (c, e) = not-Means x op_value compare (compare-means x) shallower cnf_var a s in
          let (k, f) = not-Means y op_value compare (compare-means y) shallower cnf_var a s in
          e ∙ (ap not (d x y h) ∙ sym f)

      pub insertclause-Indep :
          (c : Context) (clause : Expr)
          → WellFormed c
          → Indep c
          → Canonical clause
          → Dep c.varid clause
          → Indep (context_insertclause compare shallower cnf_var c clause)
      insertclause-Indep c clause (k, w) (d, ds) kc dc =
          (Dep-and c.varid c.clauses clause k kc d dc, ds)

      pub search-Dep :
          (n : ℕ) (is : List (Expr × Expr)) (e v : Expr)
          → DepIffs n is
          → iffinfo_search compare shallower cnf_var is e ≡ some v
          → Dep n v
      unfolding iffinfo_search
      search-Dep n [] e v d f = let bad : ⊥ = ground (arith, f) in elim bad [ ]
      search-Dep n ((k, w) ∷ is) e v (dk, dw, d) f = elim (Ordering-cases (compare e k)) [
        | inl o ↦ search-Dep n is e v d (rw (iffinfo_search, o) at f)
        | inr (inl o) ↦ subst (Dep n) (some-injective w v (rw (iffinfo_search, o) at f)) dw
        | inr (inr o) ↦ search-Dep n is e v d (rw (iffinfo_search, o) at f)
      ]

      pub insert-DepIffs :
          (n : ℕ) (is : List (Expr × Expr)) (e v : Expr)
          → DepIffs n is
          → Dep n e
          → Dep n v
          → DepIffs n (iffinfo_insert compare shallower cnf_var is e v)
      unfolding iffinfo_insert
      insert-DepIffs n [] e v d de dv = (de, dv, tt)
      insert-DepIffs n ((k, w) ∷ is) e v (dk, dw, d) de dv =
          let rest = insert-DepIffs n is e v d de dv in
          elim (Ordering-cases (compare e k)) [
            | inl o ↦ rw (iffinfo_insert, o) (de, dv, (dk, dw, d))
            | inr (inl o) ↦ rw (iffinfo_insert, o) (de, dv, d)
            | inr (inr o) ↦ rw (iffinfo_insert, o) (dk, dw, rest)
          ]
