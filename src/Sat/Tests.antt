-- ===== src/Sat/Tests.antt =====
-- Runs of the SAT solver's parts, and the theorems at concrete inputs.
use smchr.Prelude.{ℕ, ◌≡◌, ◌↔◌, refl, true, Option, none, some, List, [], ◌∷◌, arith}
use smchr.Sat.Literal.{Literal, positive, negative}
use smchr.Sat.State.{
  Sat, literal_set, literal_setwatch, literal_addwatch, push_watch, literal_setunit,
}
use smchr.Sat.Model.{Model, satisfied, ModelOf, Agrees}
use smchr.Sat.Clause.{sat_reset, sat_make_var, sat_new_clause, sat_init_clause}
use smchr.Sat.Clause.Meaning.{Accepts, Fresh, init-clause_meaning}
use smchr.Sat.Clause.Watching.{init-clause_Ready, make-var_Ready, reset_Ready, unused_buffers}
use smchr.Sat.Lazy.{sat_clause_insert_literal}
use smchr.Sat.Lazy.Subsumed.{
  free_member, subsumes, any_subsumes, istrue_from, sat_clause_istrue, clause_istrue-satisfied,
}
use smchr.Sat.Lazy.Sorted.{WatchOrder, insert_literal-WatchOrder}
use smchr.Sat.Propagate.{
  assign_and_propagate, propagate_loop, scan, wake_lits, search_watch, swap_nonfalse, move_watch,
  fixpoint, conflict_at, out_of_fuel, Propagated,
}
use smchr.Sat.Propagate.Quiet.{QuietWith}
use smchr.Sat.Propagate.Ends.{Ready, PropagateEnds}
use smchr.Sat.Propagate.Sound.{Consistent}
use smchr.Sat.Propagate.Correct.{Fixpoint, AllFalse, propagate_ends, propagate_sound}

abbrev reset : Sat
reset = sat_reset unused_buffers

-- `__TRUE__` and three variables, with the clauses ¬1 ∨ 2 and ¬2 ∨ 3 ∨ ¬1.
abbrev with_vars : Sat
with_vars = (sat_make_var (sat_make_var (sat_make_var reset none).1 none).1 none).1

abbrev clause_a : List Literal
clause_a = negative 1 ∷ positive 2 ∷ []

abbrev clause_b : List Literal
clause_b = negative 2 ∷ positive 3 ∷ negative 1 ∷ []

abbrev pub sample : Sat
sample = (sat_init_clause (sat_init_clause with_vars clause_a).1 clause_b).1

with_vars-Ready : Ready with_vars × Fresh with_vars
with_vars-Ready =
    let r0 = reset_Ready in
    let r1 = make-var_Ready reset none r0.0 r0.1 in
    let r2 = make-var_Ready (sat_make_var reset none).1 none r1.0 r1.1 in
    make-var_Ready (sat_make_var (sat_make_var reset none).1 none).1 none r2.0 r2.1

clause_a-Ready :
    Ready (sat_init_clause with_vars clause_a).1 × Fresh (sat_init_clause with_vars clause_a).1
unfolding sat_reset sat_make_var sat_init_clause literal_setunit
clause_a-Ready =
    init-clause_Ready with_vars clause_a with_vars-Ready.0 with_vars-Ready.1 (omega arith)

pub sample-Ready : Ready sample × Fresh sample
unfolding sat_reset sat_make_var sat_init_clause sat_new_clause literal_addwatch literal_setwatch
    literal_setunit
sample-Ready =
    init-clause_Ready (sat_init_clause with_vars clause_a).1 clause_b clause_a-Ready.0
      clause_a-Ready.1 (omega arith)

abbrev pub trail_length : Propagated → Option ℕ
trail_length (fixpoint t k) = some k
trail_length (conflict_at t c) = none
trail_length out_of_fuel = none

-- Setting variable 1 implies 2 and then 3.
pub propagate_run : trail_length (assign_and_propagate 4 sample (positive 1) none) ≡ some 3
unfolding assign_and_propagate propagate_loop scan wake_lits search_watch swap_nonfalse move_watch
    literal_set sat_reset sat_make_var sat_init_clause sat_new_clause literal_addwatch
    literal_setwatch literal_setunit push_watch
propagate_run = refl

abbrev pub all_true : Model
all_true v = true

sample-Agrees : Agrees all_true sample
unfolding sat_reset sat_make_var sat_init_clause sat_new_clause literal_addwatch literal_setwatch
    literal_setunit
sample-Agrees v h = ground arith

sample_models : ModelOf all_true sample
unfolding sat_reset sat_make_var sat_init_clause sat_new_clause literal_addwatch literal_setwatch
    literal_setunit
sample_models c = ground arith

pub sample-Quiet : QuietWith sample (positive 1)
unfolding sat_reset sat_make_var sat_init_clause sat_new_clause literal_addwatch literal_setwatch
    literal_setunit
sample-Quiet c a b rest e = ground arith

propagate_ends_example :
    PropagateEnds
      (Fixpoint sample)
      (λ t c. AllFalse t (t.heap c))
      (assign_and_propagate 4 sample (positive 1) none)
unfolding sat_reset sat_make_var sat_init_clause sat_new_clause literal_addwatch literal_setwatch
    literal_setunit
propagate_ends_example =
    propagate_ends sample (positive 1) none 4 sample-Ready.0 refl (omega arith) (omega arith)
      sample-Quiet

propagate_sound_example :
    PropagateEnds
      (λ t _. Consistent all_true t)
      (λ _ _. ⊥)
      (assign_and_propagate 4 sample (positive 1) none)
unfolding sat_reset sat_make_var sat_init_clause sat_new_clause literal_addwatch literal_setwatch
    literal_setunit
propagate_sound_example =
    propagate_sound sample (positive 1) none 4 sample-Ready.0 refl (omega arith) (omega arith)
      all_true sample-Agrees sample_models refl

init-clause_meaning_example :
    Accepts all_true (sat_init_clause with_vars clause_a).1
    ↔ (Accepts all_true with_vars × (satisfied all_true clause_a ≡ true))
init-clause_meaning_example = init-clause_meaning all_true with_vars with_vars-Ready.1 clause_a

init-clause_Ready_example :
    Ready (sat_init_clause with_vars clause_b).1 × Fresh (sat_init_clause with_vars clause_b).1
unfolding sat_reset sat_make_var sat_init_clause literal_setunit
init-clause_Ready_example =
    init-clause_Ready with_vars clause_b with_vars-Ready.0 with_vars-Ready.1 (omega arith)

make-var_Ready_example :
    Ready (sat_make_var sample (some 7)).1 × Fresh (sat_make_var sample (some 7)).1
make-var_Ready_example = make-var_Ready sample (some 7) sample-Ready.0 sample-Ready.1

-- Variable 1 is true at level 0; variables 2 and 3 are unassigned.
abbrev assigned : Sat
assigned = literal_set sample (positive 1) none

sorted_pair : WatchOrder assigned (positive 2 ∷ negative 1 ∷ [])
unfolding literal_set sat_reset sat_make_var sat_init_clause sat_new_clause literal_addwatch
    literal_setwatch push_watch literal_setunit
sorted_pair = (refl, refl, refl)

insert_literal-WatchOrder_example :
    WatchOrder assigned
      (sat_clause_insert_literal assigned (positive 2 ∷ negative 1 ∷ []) (positive 3))
insert_literal-WatchOrder_example =
    insert_literal-WatchOrder assigned (positive 2 ∷ negative 1 ∷ []) (positive 3) sorted_pair

-- A new clause with the literals of the second clause in another order.
abbrev repeated : List Literal
repeated = positive 3 ∷ negative 2 ∷ negative 1 ∷ []

repeated_found : sat_clause_istrue sample repeated ≡ true
unfolding sat_clause_istrue istrue_from any_subsumes subsumes free_member sat_reset sat_make_var
    sat_init_clause sat_new_clause literal_addwatch literal_setwatch literal_setunit push_watch
repeated_found = refl

clause_istrue-satisfied_example : satisfied all_true repeated ≡ true
clause_istrue-satisfied_example =
    clause_istrue-satisfied all_true sample repeated sample-Ready.0.watched sample_models
      sample-Agrees repeated_found
