-- ===== src/Cnf/Tests.antt =====
-- pass_cnf.c on a concrete expression: the witnesses of the theorems.
use smchr.Prelude.{ℕ, ◌+◌, Bool, true, false, arith, ◌==◌}
use smchr.Expr.{Expr, leaf, conj, disj, Pairs, empty, pair}
use smchr.Expr.Canonical.{Canonical}
use smchr.Expr.Equality.{by_equality, by_equality-means}
use smchr.Cnf.{pass_cnf_expr}
use smchr.Cnf.Correct.{Implies, pass_cnf_expr-Implies}
use smchr.Cnf.Fresh.{Fresh}

abbrev two_true : ℕ → Bool
two_true n = n == 2

abbrev no_op : ℕ → Bool
no_op n = false

abbrev never : Pairs → Pairs → Bool
never es fs = false

-- The new variables are the leaves from 100 on.
abbrev new_var : ℕ → ℕ
new_var n = n + 100

-- 1 \/ 2 /\ ~3.
abbrev both : Pairs
both = pair (leaf 2) false (pair (leaf 3) true empty)

abbrev goal : Expr
goal = disj (pair (leaf 1) false (pair (conj both) false empty))

both-Canonical : Canonical (conj both)
both-Canonical = ((tt, ((λ e. tt), tt), (tt, ((λ e. tt), tt), tt)), tt)

goal-Canonical : Canonical goal
goal-Canonical =
    let (k, t) = both-Canonical in
    (
      (
        tt,
        ((λ e. tt), tt),
        ((k, t), ((λ e. let bad : ⊥ = ground (arith, e) in elim bad [ ]), t), tt),
      ),
      tt,
    )

pass_cnf_expr-Implies_example :
    Implies two_true no_op (pass_cnf_expr by_equality never new_var goal) goal
pass_cnf_expr-Implies_example =
    pass_cnf_expr-Implies two_true no_op by_equality (by_equality-means two_true no_op) never
      new_var goal goal-Canonical
