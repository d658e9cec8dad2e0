-- ===== src/Expr/Canonical.antt =====
-- expr.c: the shape that the operations give the expressions they build, and how insertion into a map
-- keeps it.
use smchr.Prelude.{
  ◌≡◌, refl, inl, inr, Bool, true, false, Option, none, some, Option-cases, Bool-cases,
}
use Prim.Native.Nat.{Ordering}
use smchr.Expr.{
  Expr, boolean, leaf, op, iff, conj, disj, Pairs, empty, pair, xor, and_to_expr, or_to_expr,
  insert_pair, update_pair, search_pair,
}
use smchr.Expr.Meaning.{Ordering-cases}

abbrev pub TwoPairs : Pairs → Type 0
TwoPairs (pair k v (pair a w es)) = Unit
TwoPairs _ = ⊥

-- An expression that no operation takes apart.
abbrev pub Literal : Expr → Type 0
Literal (leaf n) = Unit
Literal (op n) = Unit
Literal (iff x y) = Unit
Literal _ = ⊥

-- What stands under a sign: only such expressions are negated, and no truth value or negation.
abbrev pub Nested : Expr → Type 0
Nested (boolean c) = ⊥
Nested (conj es) = TwoPairs es
Nested _ = Unit

abbrev pub Signed : Expr → Bool → Type 0
Signed k v = (v ≡ true → Literal k) × Nested k

-- A /\ of one entry is a negation.
abbrev pub AndSized : Pairs → Type 0
AndSized empty = ⊥
AndSized (pair k v empty) = v ≡ true
AndSized (pair k v (pair a w es)) = Unit

abbrev mutual
  pub Canonical : Expr → Type 0
  Canonical (boolean c) = Unit
  Canonical (leaf n) = Unit
  Canonical (op n) = Unit
  Canonical (iff x y) = Canonical x × Canonical y
  Canonical (conj es) = Entries es × AndSized es
  Canonical (disj es) = Entries es × TwoPairs es

  pub Entries : Pairs → Type 0
  Entries empty = Unit
  Entries (pair k v es) = Canonical k × Signed k v × Entries es

-- What a map holds, and NULL.
abbrev pub Map : Option Pairs → Type 0
Map none = Unit
Map (some es) = Entries es

pub and_to_expr-Canonical : (es : Option Pairs) → Map es → Canonical (and_to_expr es)
and_to_expr-Canonical none m = tt
and_to_expr-Canonical (some empty) m = tt
and_to_expr-Canonical (some (pair k true empty)) e = (e, refl)
and_to_expr-Canonical (some (pair k false empty)) (c, n, e) = c
and_to_expr-Canonical (some (pair k v (pair a w es))) m = (m, tt)

pub or_to_expr-Canonical : (es : Option Pairs) → Map es → Canonical (or_to_expr es)
or_to_expr-Canonical none m = tt
or_to_expr-Canonical (some empty) m = tt
or_to_expr-Canonical (some (pair k true empty)) e = (e, refl)
or_to_expr-Canonical (some (pair k false empty)) (c, n, e) = c
or_to_expr-Canonical (some (pair k v (pair a w es))) m = (m, tt)

module _ (compare : Expr → Expr → Ordering) where
  insert_pair-Entries :
      (k : Expr) (v : Bool) (es : Pairs)
      → Canonical k
      → Signed k v
      → Entries es
      → Entries (insert_pair compare k v es)
  unfolding insert_pair
  insert_pair-Entries k v empty c s e = (c, s, tt)
  insert_pair-Entries k v (pair a w es) c s (ca, sa, e) =
      let rest = insert_pair-Entries k v es c s e in
      elim (Ordering-cases (compare k a)) [
        | inl f ↦ rw (insert_pair, f) (c, s, (ca, sa, e))
        | inr (inl f) ↦ rw (insert_pair, f) (c, s, e)
        | inr (inr f) ↦ rw (insert_pair, f) (ca, sa, rest)
      ]

  -- The map after and_update or or_update.
  pub update_pair-Map :
      (es : Option Pairs) (k : Expr) (v : Bool)
      → Map es
      → Canonical k
      → Signed k v
      → Map (update_pair compare es k v)
  update_pair-Map none k v m c s = tt
  update_pair-Map (some es) k v e c s = elim (Option-cases (search_pair compare k es)) [
    | inl f ↦ rw (update_pair, f) (insert_pair-Entries k v es c s e)
    | inr (x, f) ↦ elim (Bool-cases (xor x v)) [
      | inl y ↦ rw (update_pair, f, y) tt
      | inr y ↦ rw (update_pair, f, y) e
    ]
  ]
