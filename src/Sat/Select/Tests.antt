-- ===== src/Sat/Select/Tests.antt =====
-- Runs of the choice of a decision, and its theorems at concrete inputs.
use smchr.Prelude.{ℕ, ◌≡◌, refl, true, Option, none, some, List, [], ◌∷◌, arith}
use smchr.Sat.Literal.{Literal, positive, negative}
use smchr.Sat.State.{
  Sat, literal_set, literal_setwatch, literal_addwatch, push_watch, literal_setunit,
}
use smchr.Sat.Model.{satisfied, Agrees}
use smchr.Sat.Clause.{sat_reset, sat_make_var, sat_new_clause, sat_init_clause}
use smchr.Sat.Propagate.{
  assign_and_propagate, propagate_loop, scan, wake_lits, search_watch, swap_nonfalse, move_watch,
  fixpoint, conflict_at, out_of_fuel, Propagated,
}
use smchr.Sat.Propagate.Ends.{Ready, PropagateEnds}
use smchr.Sat.Propagate.Correct.{Fixpoint, AllFalse, propagate_ends}
use smchr.Sat.Tests.{sample, sample-Ready, sample-Quiet, trail_length, propagate_run, all_true}
use smchr.Sat.Select.{
  Random, sat_rand, any_true, score, sat_should_select_literal, vsids, first_related, found_literal,
  sat_select_literal,
}
use smchr.Sat.Select.Solved.{Placed, Passed, Settled, Selected, select-Selected, select-Satisfied}

-- sat_z and sat_w as sat_init leaves them.
abbrev seed : Random
seed = record { z = 3735928559; w = 305419896 }

seed_next : (sat_rand seed).0 ≡ 3061049268
seed_next = refl

abbrev no_related : ℕ → List (Option Literal)
no_related c = []

sample-Passed : Passed sample
unfolding sat_reset sat_make_var sat_init_clause sat_new_clause literal_addwatch literal_setwatch
    literal_setunit
sample-Passed k p = elim p [ ]

select-Selected_example : Selected sample (sat_select_literal no_related sample seed)
select-Selected_example = select-Selected no_related (λ c. tt) sample seed sample-Passed

-- The first decision is variable 1, which watches one clause, in the negation.
first_selected : (sat_select_literal no_related sample seed).0 ≡ some (negative 1)
unfolding sat_select_literal vsids sat_should_select_literal score any_true found_literal
    first_related sat_reset sat_make_var sat_init_clause sat_new_clause literal_addwatch
    literal_setwatch literal_setunit push_watch
first_selected = refl

abbrev state_of : Propagated → Sat
state_of (fixpoint t k) = t
state_of (conflict_at t c) = t
state_of out_of_fuel = sample

ended-Ready :
    (r : Propagated)
    → PropagateEnds (Fixpoint sample) (λ t c. AllFalse t (t.heap c)) r
    → trail_length r ≡ some 3
    → Ready (state_of r)
ended-Ready (fixpoint t k) p e = p.ready
ended-Ready (conflict_at t c) p e = let bad : ⊥ = ground (arith, e) in elim bad [ ]
ended-Ready out_of_fuel p e = let bad : ⊥ = ground (arith, e) in elim bad [ ]

solved_ends :
    PropagateEnds
      (Fixpoint sample)
      (λ t c. AllFalse t (t.heap c))
      (assign_and_propagate 4 sample (positive 1) none)
unfolding sat_reset sat_make_var sat_init_clause sat_new_clause literal_addwatch literal_setwatch
    literal_setunit
solved_ends =
    propagate_ends sample (positive 1) none 4 sample-Ready.0 refl (omega arith) (omega arith)
      sample-Quiet

-- After variable 1 has been set, everything but `__TRUE__` is.
abbrev solved : Sat
solved = state_of (assign_and_propagate 4 sample (positive 1) none)

solved-Ready : Ready solved
solved-Ready =
    ended-Ready (assign_and_propagate 4 sample (positive 1) none) solved_ends propagate_run

solved-Placed : Placed solved
unfolding assign_and_propagate propagate_loop scan wake_lits search_watch swap_nonfalse move_watch
    literal_set sat_reset sat_make_var sat_init_clause sat_new_clause literal_addwatch
    literal_setwatch literal_setunit push_watch
solved-Placed v p = ground (arith, p)

solved-Passed : Passed solved
unfolding assign_and_propagate propagate_loop scan wake_lits search_watch swap_nonfalse move_watch
    literal_set sat_reset sat_make_var sat_init_clause sat_new_clause literal_addwatch
    literal_setwatch literal_setunit push_watch
solved-Passed k p = elim p [ ]

solved-Settled : Settled solved
unfolding assign_and_propagate propagate_loop scan wake_lits search_watch swap_nonfalse move_watch
    literal_set sat_reset sat_make_var sat_init_clause sat_new_clause literal_addwatch
    literal_setwatch literal_setunit push_watch any_true
solved-Settled c a b rest e f = ground (arith, e, f)

solved_nil : (sat_select_literal no_related solved seed).0 ≡ none
unfolding assign_and_propagate propagate_loop scan wake_lits search_watch swap_nonfalse move_watch
    literal_set sat_reset sat_make_var sat_init_clause sat_new_clause literal_addwatch
    literal_setwatch literal_setunit push_watch sat_select_literal vsids sat_should_select_literal
    score any_true found_literal first_related
solved_nil = refl

solved-Agrees : Agrees all_true solved
unfolding assign_and_propagate propagate_loop scan wake_lits search_watch swap_nonfalse move_watch
    literal_set sat_reset sat_make_var sat_init_clause sat_new_clause literal_addwatch
    literal_setwatch literal_setunit push_watch
solved-Agrees v h = ground (arith, h)

clause_a_stands : solved.heap 0 ≡ positive 2 ∷ negative 1 ∷ []
unfolding assign_and_propagate propagate_loop scan wake_lits search_watch swap_nonfalse move_watch
    literal_set sat_reset sat_make_var sat_init_clause sat_new_clause literal_addwatch
    literal_setwatch literal_setunit push_watch
clause_a_stands = refl

select-Satisfied_example : satisfied all_true (solved.heap 0) ≡ true
select-Satisfied_example =
    select-Satisfied no_related solved seed solved-Ready solved-Placed solved-Passed solved-Settled
      solved_nil all_true solved-Agrees 0 (positive 2) (negative 1) [] clause_a_stands
