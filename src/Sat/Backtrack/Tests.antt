-- ===== src/Sat/Backtrack/Tests.antt =====
-- Conflict analysis at a concrete conflict.
use smchr.Prelude.{
  ℕ, zero, suc, ◌<◌, ◌≡◌, refl, true, false, Option, none, some, [], ◌∷◌, arith, ◌==◌,
  if◌then◌else◌, ltb,
}
use smchr.Sat.Literal.{Literal, positive, negative}
use smchr.Sat.State.{
  Sat, Variable, literal_setmark, literal_setunit, literal_unset, literal_addwatch,
  literal_setwatch, push_watch,
}
use smchr.Sat.Model.{Model}
use smchr.Sat.Order.{sat_bump_clause, sat_bump_literal, bump_swap, bump_search}
use smchr.Sat.Clause.{new_variable, sat_init_clause, sat_new_clause}
use smchr.Sat.Clause.Meaning.{Accepts}
use smchr.Sat.Backtrack.{
  Backtracked, learnt, failed, panicked, sat_backtrack, mark_conflict, mark_reason, note_literal,
  find_uip, learn, nogood, simplify, unwind, clear_marks, all_marked,
}
use smchr.Sat.Backtrack.Facts.{Justified, Forced}
use smchr.Sat.Backtrack.Learnt.{Keeps, backtrack_sound}

-- At level 1 variable 0 was chosen true, 1 followed by the clause at address 0, and the clause at
-- address 1 is false.
abbrev assigned_variable : ℕ → Variable
assigned_variable v = record (new_variable false v none) {
  set = ltb v 2;
  dlevel = 1;
  reason = if v == 1 then some 0 else none;
}

abbrev at_conflict : Sat
at_conflict = record {
  vars = assigned_variable;
  vars_length = 2;
  solving = true;
  empty = false;
  tlevel = 2;
  dlevel = 1;
  trail = λ k. positive k;
  heap = λ c.
      if c == 0
      then positive 1 ∷ negative 0 ∷ []
      else if c == 1
      then negative 1 ∷ negative 0 ∷ []
      else [];
  heap_length = 2;
  clauses = [];
  next_clause = none;
  order = λ k. k;
  next_var = 2;
  last_var = none;
  decided = [];
}

abbrev answer : Backtracked → Option Literal
answer (learnt l c t) = l
answer (failed t) = none
answer panicked = none

-- The learnt clause is the unit clause ¬0.
backtrack_run : answer (sat_backtrack at_conflict 1) ≡ some (negative 0)
unfolding sat_backtrack sat_bump_clause sat_bump_literal bump_swap bump_search mark_conflict
    mark_reason note_literal find_uip learn nogood simplify unwind clear_marks all_marked
    literal_setmark literal_setunit literal_unset sat_init_clause sat_new_clause literal_addwatch
    literal_setwatch push_watch
backtrack_run = refl

abbrev all_false : Model
all_false v = false

at_conflict_reasons :
    (k c : ℕ)
    → k < 2
    → (if k == 1 then some 0 else none) ≡ some c
    → Forced at_conflict k (at_conflict.heap c)
at_conflict_reasons zero c p e = cc
at_conflict_reasons (suc zero) c p e =
    let first : 0 ≡ c = ground arith in rw (← first) (refl, ((0, omega arith, refl), tt))
at_conflict_reasons (suc (suc k)) c p e = absurd (omega arith)

at_conflict-Justified : Justified at_conflict
at_conflict-Justified = record {
  signs = λ k p. refl;
  ranged = λ k p. p;
  bounded = λ k p. omega arith;
  sorted = λ j k p q. omega arith;
  reasons = at_conflict_reasons;
}

all_false-Accepts : Accepts all_false at_conflict
all_false-Accepts = record { not_empty = refl; units = λ v e. cc; models = λ c. ground arith }

backtrack_sound_example : Keeps all_false (sat_backtrack at_conflict 1)
backtrack_sound_example =
    backtrack_sound all_false at_conflict 1 at_conflict-Justified all_false-Accepts
      (λ c p. ground arith) (λ k p e. absurd (omega arith))
      ((1, omega arith, refl), ((0, omega arith, refl), tt)) (λ e. cc) (λ v. refl)
