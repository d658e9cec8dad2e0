-- ===== src/Cnf.antt =====
-- pass_cnf.c: `pass_cnf_expr` and the functions under it. The static context is a record that the
-- functions pass on. The variable that `cnf_new_var` makes from a fresh name is a leaf, `cnf_var` of the
-- number of those made before; the map `iffinfo` is the list of its entries in the order of
-- `expr_compare`, which is a parameter as in Expr.
pub mod Steps
pub mod Sound
pub mod Leaves
pub mod Correct
pub mod Fresh
pub mod Extend
pub mod Rounds
pub mod ExtendArg
pub mod ExtendTop
pub mod Complete
mod Tests
use smchr.Prelude.{ℕ, zero, suc, Bool, true, false, Option, none, some, List, [], ◌∷◌}
use Prim.Native.Nat.{Ordering}
use smchr.Expr.{
  Expr, boolean, leaf, op, iff, conj, disj, Pairs, empty, pair, expr_and, expr_or, expr_not,
  expr_iff,
}

pub record Context : Type 0 where
  pub iffinfo : List (Expr × Expr)
  pub clauses : Expr
  pub varid : ℕ

abbrev pub no_context : Context
no_context = record { iffinfo = []; clauses = boolean true; varid = 0 }

module _ (compare : Expr → Expr → Ordering) (shallower : Pairs → Pairs → Bool)
    (cnf_var : ℕ → ℕ) where
  abbrev pub cnf_new_var : Context → Expr × Context
  cnf_new_var context = (leaf (cnf_var context.varid), record context { varid = suc context.varid })

  unfoldable pub iffinfo_search : List (Expr × Expr) → Expr → Option Expr
  iffinfo_search [] e = none
  iffinfo_search ((k, v) ∷ is) e = elim (compare e k) [
    | Ordering.eq ↦ some v
    | Ordering.lt ↦ iffinfo_search is e
    | Ordering.gt ↦ iffinfo_search is e
  ]

  unfoldable pub iffinfo_insert : List (Expr × Expr) → Expr → Expr → List (Expr × Expr)
  iffinfo_insert [] e v = (e, v) ∷ []
  iffinfo_insert ((k, w) ∷ is) e v = elim (compare e k) [
    | Ordering.lt ↦ (e, v) ∷ (k, w) ∷ is
    | Ordering.eq ↦ (e, v) ∷ is
    | Ordering.gt ↦ (k, w) ∷ iffinfo_insert is e v
  ]

  -- With `v0` NULL, as in its call, on an expression that is an operator.
  abbrev pub context_insertiff : Context → Expr → Expr × Context
  context_insertiff context e = elim (iffinfo_search context.iffinfo e) [
    | some v ↦ (v, context)
    | none ↦
        let (v, context') = cnf_new_var context in
        (v, record context' { iffinfo = iffinfo_insert context'.iffinfo e v })
  ]

  abbrev pub context_insertclause : Context → Expr → Context
  context_insertclause context clause = record context {
    clauses = expr_and compare shallower context.clauses clause;
  }

  -- The pair `k`, `nk` of a loop: an argument and its negation, exchanged if its sign is true.
  abbrev pub signed : Bool → Expr → Expr × Expr
  signed true k = (expr_not compare k, k)
  signed false k = (k, expr_not compare k)

  -- `cnf_arg` and its two loops over the arguments of `e`, which stands for `b`.
  unfoldable mutual
    pub cnf_arg : Expr → Context → Expr × Context
    cnf_arg (boolean c) context = (boolean c, context)
    cnf_arg (leaf n) context = (leaf n, context)
    cnf_arg (op n) context =
        let (b, context1) = cnf_new_var context in context_insertiff context1 (op n)
    cnf_arg (iff x y) context =
        let (b, context1) = cnf_new_var context in context_insertiff context1 (iff x y)
    cnf_arg (conj es) context =
        let (b, context1) = cnf_new_var context in
        let (clause, context2) = cnf_and_args es b (boolean false) context1 in
        (b, context_insertclause context2 (expr_or compare shallower b clause))
    cnf_arg (disj es) context =
        let (b, context1) = cnf_new_var context in
        let (clause, context2) = cnf_or_args es b (boolean false) context1 in
        (b, context_insertclause context2 (expr_or compare shallower (expr_not compare b) clause))

    pub cnf_and_args : Pairs → Expr → Expr → Context → Expr × Context
    cnf_and_args empty b clause context = (clause, context)
    cnf_and_args (pair e v es) b clause context =
        let (a, context1) = cnf_arg e context in
        let (k, nk) = signed v a in
        cnf_and_args es b (expr_or compare shallower nk clause)
          (context_insertclause context1 (expr_or compare shallower k (expr_not compare b)))

    pub cnf_or_args : Pairs → Expr → Expr → Context → Expr × Context
    cnf_or_args empty b clause context = (clause, context)
    cnf_or_args (pair e v es) b clause context =
        let (a, context1) = cnf_arg e context in
        let (k, nk) = signed v a in
        cnf_or_args es b (expr_or compare shallower k clause)
          (context_insertclause context1 (expr_or compare shallower nk b))

  -- An argument with its sign, as the loops without a variable use it.
  abbrev pub with_sign : Bool → Expr → Expr
  with_sign true k = expr_not compare k
  with_sign false k = k

  -- The loop of `cnf_expr_nextlevel`.
  unfoldable pub nextlevel_args : Pairs → Expr → Context → Expr × Context
  nextlevel_args empty acc context = (acc, context)
  nextlevel_args (pair e v es) acc context =
      let (k, context1) = cnf_arg e context in
      nextlevel_args es (expr_or compare shallower (with_sign v k) acc) context1

  -- A /\ of one entry is the operator NOT.
  unfoldable pub cnf_expr_nextlevel : Expr → Context → Expr × Context
  cnf_expr_nextlevel (boolean c) context = (boolean c, context)
  cnf_expr_nextlevel (leaf n) context = (leaf n, context)
  cnf_expr_nextlevel (disj es) context = nextlevel_args es (boolean false) context
  cnf_expr_nextlevel (conj (pair k v empty)) context =
      nextlevel_args (pair k v empty) (boolean false) context
  cnf_expr_nextlevel e context = cnf_arg e context

  -- The loop of `pass_cnf_expr`.
  unfoldable pub top_args : Pairs → Expr → Context → Expr × Context
  top_args empty acc context = (acc, context)
  top_args (pair e v es) acc context =
      let (k, context1) = cnf_expr_nextlevel e context in
      top_args es (expr_and compare shallower (with_sign v k) acc) context1

  unfoldable pub iffs_from : List (Expr × Expr) → Expr → Expr
  iffs_from [] acc = acc
  iffs_from ((k, v) ∷ is) acc = iffs_from is (expr_and compare shallower (expr_iff compare v k) acc)

  abbrev pub context_to_iffs : Context → Expr
  context_to_iffs context = iffs_from context.iffinfo (boolean true)

  abbrev pub finish : Expr × Context → Expr × Expr
  finish (e, context) = (expr_and compare shallower e context.clauses, context_to_iffs context)

  -- The pair of `*b` and `*d`.
  unfoldable pub pass_cnf_expr : Expr → Expr × Expr
  pass_cnf_expr (boolean c) = (boolean c, boolean true)
  pass_cnf_expr (leaf n) = (leaf n, boolean true)
  pass_cnf_expr (conj es) = finish (top_args es (boolean true) no_context)
  pass_cnf_expr e = finish (cnf_expr_nextlevel e no_context)
