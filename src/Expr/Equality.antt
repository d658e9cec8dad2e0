-- ===== src/Expr/Equality.antt =====
-- expr.c: a comparison for concrete runs, which tells all expressions apart.
use smchr.Prelude.{ℕ, ◌≡◌, ap, Bool, arith}
use Prim.Native.Nat.{Ordering}
use native.Mathlib.Decide.{ℕ_discrete}
use mathlib.Core.HLevel.{Discrete}
use smchr.Expr.{Expr}
use smchr.Expr.Meaning.{eval}

pub Expr-discrete : Discrete Expr
Expr-discrete = hlevel ℕ_discrete

abbrev order_of : {a b : Expr} → Dec (a ≡ b) → Ordering
order_of (yes e) = Ordering.eq
order_of (no n) = Ordering.lt

unfoldable pub by_equality : Expr → Expr → Ordering
by_equality a b = order_of (Expr-discrete a b)

same_order : (a b : Expr) (d : Dec (a ≡ b)) → order_of d ≡ Ordering.eq → a ≡ b
same_order a b (yes e) h = e
same_order a b (no n) h = let bad : ⊥ = ground (arith, h) in elim bad [ ]

by_equality-same : (a b : Expr) → by_equality a b ≡ Ordering.eq → a ≡ b
unfolding by_equality
by_equality-same a b h = same_order a b (Expr-discrete a b) h

pub by_equality-means :
    (value op_value : ℕ → Bool) (a b : Expr)
    → by_equality a b ≡ Ordering.eq
    → eval value op_value a ≡ eval value op_value b
by_equality-means value op_value a b h = ap (eval value op_value) (by_equality-same a b h)
