-- ===== src/Expr/Meaning.antt =====
-- expr.c: the truth value of a Boolean expression, where the values of the leaves and of the other
-- operators are given, and what the maps and_t and or_t contribute to it.
use smchr.Prelude.{
  ℕ, ◌≡◌, refl, sym, ◌∙◌, ap, subst, ◌⊎◌, inl, inr, Bool, true, false, not, ◌&&◌, ◌||◌, Option,
  none, some, Option-cases, Bool-cases, arith,
}
use Prim.Native.Nat.{Ordering}
use mathlib.Core.Option.{some-injective}
use smchr.Expr.{
  Expr, boolean, leaf, op, iff, conj, disj, Pairs, empty, pair, xor, and_to_expr, or_to_expr,
  search_pair, insert_pair, update_pair,
}

-- Conjunction for the sign true, disjunction for false: the sign is the value of no entries.
abbrev pub comb : Bool → Bool → Bool → Bool
comb true a b = a && b
comb false a b = a || b

pub comb_swap : (u a b c : Bool) → comb u a (comb u b c) ≡ comb u b (comb u a c)
comb_swap true true b c = refl
comb_swap true false true c = refl
comb_swap true false false c = refl
comb_swap false true true c = refl
comb_swap false true false c = refl
comb_swap false false b c = refl

pub comb_twice : (u a b : Bool) → comb u a (comb u a b) ≡ comb u a b
comb_twice true true b = refl
comb_twice true false b = refl
comb_twice false true b = refl
comb_twice false false b = refl

pub comb_unit : (u a : Bool) → comb u a u ≡ a
comb_unit true true = refl
comb_unit true false = refl
comb_unit false true = refl
comb_unit false false = refl

pub comb_lost : (u a : Bool) → comb u a (not u) ≡ not u
comb_lost true true = refl
comb_lost true false = refl
comb_lost false true = refl
comb_lost false false = refl

-- Two signs of the same expression that differ.
comb_clash : (u s v a b : Bool) → xor s v ≡ true → comb u (xor v a) (comb u (xor s a) b) ≡ not u
comb_clash true true false true b e = refl
comb_clash true true false false b e = refl
comb_clash true false true true b e = refl
comb_clash true false true false b e = refl
comb_clash false true false true b e = refl
comb_clash false true false false b e = refl
comb_clash false false true true b e = refl
comb_clash false false true false b e = refl
comb_clash u true true a b e = let bad : ⊥ = ground (arith, e) in elim bad [ ]
comb_clash u false false a b e = let bad : ⊥ = ground (arith, e) in elim bad [ ]

pub xor_same : (s v : Bool) → xor s v ≡ false → s ≡ v
xor_same true true e = refl
xor_same true false e = e
xor_same false true e = sym e
xor_same false false e = refl

pub Ordering-cases : (o : Ordering) → (o ≡ Ordering.lt) ⊎ (o ≡ Ordering.eq) ⊎ (o ≡ Ordering.gt)
Ordering-cases Ordering.lt = inl refl
Ordering-cases Ordering.eq = inr (inl refl)
Ordering-cases Ordering.gt = inr (inr refl)

module _ (value : ℕ → Bool) (op_value : ℕ → Bool) where
  abbrev mutual
    pub eval : Expr → Bool
    eval (boolean c) = c
    eval (leaf n) = value n
    eval (op n) = op_value n
    eval (iff x y) = not (xor (eval x) (eval y))
    eval (conj es) = fold true es
    eval (disj es) = fold false es

    pub fold : Bool → Pairs → Bool
    fold u empty = u
    fold u (pair k v es) = comb u (xor v (eval k)) (fold u es)

  -- A map, or NULL, for the entries that contradict each other.
  abbrev pub fold? : Bool → Option Pairs → Bool
  fold? u none = not u
  fold? u (some es) = fold u es

  pub and_to_expr-fold : (es : Option Pairs) → eval (and_to_expr es) ≡ fold? true es
  and_to_expr-fold none = refl
  and_to_expr-fold (some empty) = refl
  and_to_expr-fold (some (pair k true empty)) = refl
  and_to_expr-fold (some (pair k false empty)) = sym (comb_unit true (eval k))
  and_to_expr-fold (some (pair k v (pair a w es))) = refl

  pub or_to_expr-fold : (es : Option Pairs) → eval (or_to_expr es) ≡ fold? false es
  or_to_expr-fold none = refl
  or_to_expr-fold (some empty) = refl
  or_to_expr-fold (some (pair k true empty)) =
      comb_unit true (not (eval k)) ∙ sym (comb_unit false (not (eval k)))
  or_to_expr-fold (some (pair k false empty)) = sym (comb_unit false (eval k))
  or_to_expr-fold (some (pair k v (pair a w es))) = refl

  -- Expressions that compare equal have the same value.
  module _ (compare : Expr → Expr → Ordering)
      (compare-means : (a b : Expr) → compare a b ≡ Ordering.eq → eval a ≡ eval b) where
    insert_pair-fold :
        (u : Bool) (k : Expr) (v : Bool) (es : Pairs)
        → search_pair compare k es ≡ none
        → fold u (insert_pair compare k v es) ≡ comb u (xor v (eval k)) (fold u es)
    unfolding insert_pair search_pair
    insert_pair-fold u k v empty g = refl
    insert_pair-fold u k v (pair a w es) g = elim (Ordering-cases (compare k a)) [
      | inl e ↦ rw (insert_pair, e) refl
      | inr (inl e) ↦
          let found = rw (search_pair, e) at g in
          let bad : ⊥ = ground (arith, found) in elim bad [ ]
      | inr (inr e) ↦
          let rest = insert_pair-fold u k v es (rw (search_pair, e) at g) in
          rw (insert_pair, e, rest) (comb_swap u (xor w (eval a)) (xor v (eval k)) (fold u es))
    ]

    search_pair-fold :
        (u : Bool) (k : Expr) (s : Bool) (es : Pairs)
        → search_pair compare k es ≡ some s
        → fold u es ≡ comb u (xor s (eval k)) (fold u es)
    unfolding search_pair
    search_pair-fold u k s empty e = let bad : ⊥ = ground (arith, e) in elim bad [ ]
    search_pair-fold u k s (pair a w es) e =
        let later : search_pair compare k es ≡ some s
            → comb u (xor w (eval a)) (fold u es)
              ≡ comb u (xor s (eval k)) (comb u (xor w (eval a)) (fold u es)) =
          λ f.
            ap (comb u (xor w (eval a))) (search_pair-fold u k s es f)
            ∙ comb_swap u (xor w (eval a)) (xor s (eval k)) (fold u es) in
        elim (Ordering-cases (compare k a)) [
          | inl f ↦ later (rw (search_pair, f) at e)
          | inr (inl f) ↦
              let found = rw (search_pair, f) at e in
              let z = compare-means k a f in
              let same : w ≡ s = some-injective w s found in
              rw (z, same) (sym (comb_twice u (xor s (eval a)) (fold u es)))
          | inr (inr f) ↦ later (rw (search_pair, f) at e)
        ]

    -- A map that is updated with an entry stands for the entry as well.
    pub update_pair-fold :
        (u : Bool) (es : Option Pairs) (k : Expr) (v : Bool)
        → fold? u (update_pair compare es k v) ≡ comb u (xor v (eval k)) (fold? u es)
    update_pair-fold u none k v = sym (comb_lost u (xor v (eval k)))
    update_pair-fold u (some es) k v = elim (Option-cases (search_pair compare k es)) [
      | inl e ↦ rw (fold?, update_pair, e) (insert_pair-fold u k v es e)
      | inr (s, e) ↦
          let f = search_pair-fold u k s es e in
          elim (Bool-cases (xor s v)) [
            | inl x ↦
                rw (fold?, update_pair, e, x)
                  (sym (ap (comb u (xor v (eval k))) f ∙ comb_clash u s v (eval k) (fold u es) x))
            | inr x ↦
                rw (fold?, update_pair, e, x)
                  (subst (λ w. fold u es ≡ comb u (xor w (eval k)) (fold u es)) (xor_same s v x) f)
          ]
    ]
