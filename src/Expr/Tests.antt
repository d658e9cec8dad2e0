-- ===== src/Expr/Tests.antt =====
-- expr.c on concrete expressions: the witnesses of the theorems.
use smchr.Prelude.{ℕ, refl, Bool, true, false, ◌&&◌, ◌||◌, ◌==◌}
use smchr.Expr.{Expr, leaf, conj, disj, Pairs, empty, pair, expr_and, expr_or}
use smchr.Expr.Meaning.{eval}
use smchr.Expr.Canonical.{Canonical}
use smchr.Expr.Adds.{Means}
use smchr.Expr.Connectives.{expr_and-Means, expr_or-Means}
use smchr.Expr.Equality.{by_equality, by_equality-means}

-- Leaf 2 is true.
abbrev two_true : ℕ → Bool
two_true n = n == 2

abbrev no_op : ℕ → Bool
no_op n = false

abbrev never : Pairs → Pairs → Bool
never es fs = false

-- 2 \/ 3, and the negation of 2.
abbrev either : Expr
either = disj (pair (leaf 2) false (pair (leaf 3) false empty))

abbrev not_two : Expr
not_two = conj (pair (leaf 2) true empty)

either-Canonical : Canonical either
either-Canonical = ((tt, ((λ e. tt), tt), (tt, ((λ e. tt), tt), tt)), tt)

not_two-Canonical : Canonical not_two
not_two-Canonical = ((tt, ((λ e. tt), tt), tt), refl)

expr_and-Means_example :
    Means two_true no_op
      (expr_and by_equality never either not_two)
      (eval two_true no_op either && eval two_true no_op not_two)
expr_and-Means_example =
    expr_and-Means two_true no_op by_equality (by_equality-means two_true no_op) never either
      not_two either-Canonical not_two-Canonical

expr_or-Means_example :
    Means two_true no_op
      (expr_or by_equality never either not_two)
      (eval two_true no_op either || eval two_true no_op not_two)
expr_or-Means_example =
    expr_or-Means two_true no_op by_equality (by_equality-means two_true no_op) never either not_two
      either-Canonical not_two-Canonical
