-- ===== src/Sat/Clause.antt =====
-- sat.c: the reset state, new variables, and the clauses of set-up and of learning
-- (`sat_reset`, `sat_make_var`, `sat_init_clause`, `sat_new_clause`).
pub mod Meaning
pub mod Watching
use smchr.Prelude.{
  ℕ, ◌+◌, Bool, true, false, not, ◌&&◌, Option, none, some, List, [], ◌∷◌, same, if◌then◌else◌,
  update,
}
use smchr.Sat.Literal.{Literal, literal_negate, positive, literal_true}
use smchr.Sat.State.{
  Variable, Sat, literal_getvar, literal_isunit, literal_setunit, literal_addwatch, put_var,
  sat_watch_new,
}

-- The variable record that `sat_make_var` writes into slot `idx`.
abbrev pub new_variable : Bool → ℕ → Option ℕ → Variable
new_variable solving idx cons = record {
  set = false;
  sign = false;
  mark = false;
  unit = false;
  unit_sign = false;
  lazy = solving;
  dlevel = 0;
  reason = none;
  watches = λ _. sat_watch_new;
  activity = 0;
  order = idx;
  cons = cons;
}

unfoldable pub sat_make_var : Sat → Option ℕ → Literal × Sat
sat_make_var s cons =
    let idx = s.vars_length in
    (
      positive idx,
      record (put_var s idx (new_variable s.solving idx cons)) {
        vars_length = idx + 1;
        order = update s.order idx idx;
      },
    )

-- `sat_new_clause`: a clause of two literals at least, watched by its first two. (`sat_init_clause`
-- calls it for no shorter one.)
unfoldable pub sat_new_clause : Sat → List Literal → Option ℕ × Sat
sat_new_clause s (a ∷ b ∷ rest) =
    let c = s.heap_length in
    let s1 = record s { heap = update s.heap c (a ∷ b ∷ rest); heap_length = c + 1 } in
    (some c, literal_addwatch (literal_addwatch s1 a c) b c)
sat_new_clause s lits = (none, s)

-- `sat_init_clause`: the empty clause, a unit clause, or a clause in the heap.
unfoldable pub sat_init_clause : Sat → List Literal → Option ℕ × Sat
sat_init_clause s [] = (none, record s { empty = true })
sat_init_clause s (l ∷ []) =
    if literal_isunit s l
    then (none, s)
    else if literal_isunit s (literal_negate l)
    then (none, record s { empty = true })
    else (none, literal_setunit s l)
sat_init_clause s (a ∷ b ∷ rest) = sat_new_clause s (a ∷ b ∷ rest)

-- `sat_reset`: the buffers of variables, trail, order and clauses keep what they hold.
unfoldable pub sat_reset : Sat → Sat
unfolding sat_make_var sat_init_clause
sat_reset s =
    let s1 = record s {
      vars_length = 0;
      solving = false;
      empty = false;
      tlevel = 0;
      dlevel = 0;
      clauses = [];
      next_clause = none;
      next_var = 0;
      last_var = none;
    } in
    let (b0, s2) = sat_make_var s1 none in (sat_init_clause s2 (b0 ∷ [])).1
