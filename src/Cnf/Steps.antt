-- ===== src/Cnf/Steps.antt =====
-- pass_cnf.c: what the context of the transformation stands for, and how its parts are added.
use smchr.Prelude.{
  ℕ, ◌≡◌, refl, sym, ◌∙◌, ap, subst, inl, inr, Bool, true, false, not, ◌&&◌, none, some, List, [],
  ◌∷◌, arith,
}
use Prim.Native.Nat.{Ordering}
use mathlib.Core.Option.{some-injective}
use smchr.Expr.{Expr, boolean, leaf, op, iff, conj, disj, Pairs, xor, expr_not, expr_not_propagate}
use smchr.Expr.Meaning.{comb_unit, eval, Ordering-cases}
use smchr.Expr.Canonical.{Canonical, Literal}
use smchr.Expr.Adds.{Means}
use smchr.Expr.Connectives.{expr_and-Means}
use smchr.Cnf.{Context, iffinfo_search, iffinfo_insert, context_insertclause, signed, with_sign}

-- What an argument is replaced by: a truth value or a leaf.
abbrev pub Simple : Expr → Type 0
Simple (boolean c) = Unit
Simple (leaf n) = Unit
Simple _ = ⊥

pub Simple-Canonical : (a : Expr) → Simple a → Canonical a
Simple-Canonical (boolean c) s = tt
Simple-Canonical (leaf n) s = tt
Simple-Canonical (op n) s = elim s [ ]
Simple-Canonical (iff x y) s = elim s [ ]
Simple-Canonical (conj es) s = elim s [ ]
Simple-Canonical (disj es) s = elim s [ ]

abbrev pub IsLeaf : Expr → Type 0
IsLeaf (leaf n) = Unit
IsLeaf _ = ⊥

IsLeaf-Simple : (a : Expr) → IsLeaf a → Simple a
IsLeaf-Simple (boolean c) s = elim s [ ]
IsLeaf-Simple (leaf n) s = tt
IsLeaf-Simple (op n) s = elim s [ ]
IsLeaf-Simple (iff x y) s = elim s [ ]
IsLeaf-Simple (conj es) s = elim s [ ]
IsLeaf-Simple (disj es) s = elim s [ ]

abbrev pub Defines : List (Expr × Expr) → Type 0
Defines [] = Unit
Defines ((k, v) ∷ is) = Canonical k × Literal k × IsLeaf v × Defines is

abbrev pub WellFormed : Context → Type 0
WellFormed c = Canonical c.clauses × Defines c.iffinfo

pub and_both : (a b : Bool) → (a && b) ≡ true → (a ≡ true) × (b ≡ true)
and_both true b e = (refl, e)
and_both false b e = let bad : ⊥ = ground (arith, e) in elim bad [ ]

not_twice : (a : Bool) → not (not a) ≡ a
not_twice true = refl
not_twice false = refl

module _ (value : ℕ → Bool) (op_value : ℕ → Bool) where
  -- A context holds when its clauses are true and its definitions are true equivalences.
  abbrev pub IffsHold : List (Expr × Expr) → Type 0
  IffsHold [] = Unit
  IffsHold ((k, v) ∷ is) = (eval value op_value v ≡ eval value op_value k) × IffsHold is

  abbrev pub Holds : Context → Type 0
  Holds c = (eval value op_value c.clauses ≡ true) × IffsHold c.iffinfo

  module _ (compare : Expr → Expr → Ordering)
      (compare-means : (a b : Expr)
        → compare a b ≡ Ordering.eq
        → eval value op_value a ≡ eval value op_value b)
      (shallower : Pairs → Pairs → Bool) (cnf_var : ℕ → ℕ) where
    pub not-Means :
        (a : Expr)
        → Simple a
        → Means value op_value (expr_not compare a) (not (eval value op_value a))
    unfolding expr_not expr_not_propagate
    not-Means (boolean c) s = (tt, refl)
    not-Means (leaf n) s = (((tt, (λ e. tt, tt), tt), refl), comb_unit true (not (value n)))
    not-Means (op n) s = elim s [ ]
    not-Means (iff x y) s = elim s [ ]
    not-Means (conj es) s = elim s [ ]
    not-Means (disj es) s = elim s [ ]

    -- The pair of a loop: an argument under its sign, and its negation.
    pub signed-Means :
        (v : Bool) (a : Expr)
        → Simple a
        → let (k, nk) = signed compare shallower cnf_var v a in
          Means value op_value k (xor v (eval value op_value a))
          × Means value op_value nk (not (xor v (eval value op_value a)))
    signed-Means true a s =
        (not-Means a s, (Simple-Canonical a s, sym (not_twice (eval value op_value a))))
    signed-Means false a s = ((Simple-Canonical a s, refl), not-Means a s)

    pub with_sign-Means :
        (v : Bool) (a : Expr)
        → Simple a
        → Means value op_value
            (with_sign compare shallower cnf_var v a)
            (xor v (eval value op_value a))
    with_sign-Means true a s = not-Means a s
    with_sign-Means false a s = (Simple-Canonical a s, refl)

    -- A clause more: what held before holds, and so does the clause.
    pub insertclause-Holds :
        (c : Context) (clause : Expr) (b : Bool)
        → WellFormed c
        → Means value op_value clause b
        → let c' = context_insertclause compare shallower cnf_var c clause in
          WellFormed c' × (Holds c' → Holds c × (b ≡ true)) × (Holds c → b ≡ true → Holds c')
    insertclause-Holds c clause b (k, d) (kc, e) =
        let (m, w) =
          expr_and-Means value op_value compare compare-means shallower c.clauses clause k kc in
        (
          (m, d),
          λ (h, i).
              let (x, y) =
                and_both (eval value op_value c.clauses) (eval value op_value clause) (sym w ∙ h) in
              ((x, i), sym e ∙ y),
          λ (h, i) t. (w ∙ (ap (λ x. x && eval value op_value clause) h ∙ (e ∙ t)), i),
        )

    pub search-IffsHold :
        (is : List (Expr × Expr)) (e v : Expr)
        → Defines is
        → iffinfo_search compare shallower cnf_var is e ≡ some v
        → Simple v × (IffsHold is → eval value op_value v ≡ eval value op_value e)
    unfolding iffinfo_search
    search-IffsHold [] e v d f = let bad : ⊥ = ground (arith, f) in elim bad [ ]
    search-IffsHold ((k, w) ∷ is) e v (ck, lk, s, d) f = elim (Ordering-cases (compare e k)) [
      | inl o ↦
          let (a, b) = search-IffsHold is e v d (rw (iffinfo_search, o) at f) in
          (a, λ (h, hs). b hs)
      | inr (inl o) ↦
          let z = some-injective w v (rw (iffinfo_search, o) at f) in
          (
            IsLeaf-Simple v (subst IsLeaf z s),
            λ (h, hs). ap (eval value op_value) (sym z) ∙ (h ∙ sym (compare-means e k o)),
          )
      | inr (inr o) ↦
          let (a, b) = search-IffsHold is e v d (rw (iffinfo_search, o) at f) in
          (a, λ (h, hs). b hs)
    ]

    pub insert-IffsHold :
        (is : List (Expr × Expr)) (e v : Expr)
        → Defines is
        → Canonical e
        → Literal e
        → IsLeaf v
        → iffinfo_search compare shallower cnf_var is e ≡ none
        → let is' = iffinfo_insert compare shallower cnf_var is e v in
          Defines is'
          × (IffsHold is' → IffsHold is × (eval value op_value v ≡ eval value op_value e))
          × (IffsHold is → eval value op_value v ≡ eval value op_value e → IffsHold is')
    unfolding iffinfo_insert iffinfo_search
    insert-IffsHold [] e v d ce le s f = ((ce, le, s, tt), (λ (h, hs). (tt, h)), (λ hs h. (h, tt)))
    insert-IffsHold ((k, w) ∷ is) e v (ck, lk, sw, d) ce le s f =
        elim (Ordering-cases (compare e k)) [
          | inl o ↦
              rw (iffinfo_insert, o)
                ((ce, le, s, (ck, lk, sw, d)), (λ (h, hs). (hs, h)), (λ hs h. (h, hs)))
          | inr (inl o) ↦
              let bad : ⊥ = (let g = rw (iffinfo_search, o) at f in ground (arith, g)) in
              elim bad [ ]
          | inr (inr o) ↦
              let (a, b, c) = insert-IffsHold is e v d ce le s (rw (iffinfo_search, o) at f) in
              rw (iffinfo_insert, o)
                (
                  (ck, lk, sw, a),
                  (λ (h, hs). let (x, y) = b hs in ((h, x), y)),
                  (λ (h, hs) y. (h, c hs y)),
                )
        ]
