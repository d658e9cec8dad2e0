-- ===== src/Cnf/Complete.antt =====
-- pass_cnf.c: `pass_cnf_expr` loses no solution.
use smchr.Prelude.{ℕ, ◌≡◌, Bool, true}
use smchr.Expr.{Expr}
use smchr.Expr.Meaning.{eval}
use smchr.Expr.Canonical.{Canonical}
use smchr.Cnf.Leaves.{Leaves}
use smchr.Cnf.Fresh.{Agree, Fresh}

module _ (op_value : ℕ → Bool) (cnf_var : ℕ → ℕ) where
  -- A valuation that differs at new variables only gives the first result the value of the expression,
  -- and makes the second true.
  abbrev pub Solved : Expr → (ℕ → Bool) → Expr × Expr → Type 0
  Solved e x (b, d) =
      (y : ℕ → Bool) × Agree cnf_var 0 x y
      × (eval y op_value b ≡ eval x op_value e)
      × (eval y op_value d ≡ true)
