-- ===== src/Sat/Propagate.antt =====
-- sat.c: Boolean constraint propagation, the loops of `sat_propagate` between the assignment of a
-- literal and the call of the theory solvers, and `sat_watch_delete`.
-- The rounds of each loop are counted down from a bound.
pub mod Watches
pub mod Sound
pub mod Loop
pub mod Ends
pub mod Quiet
pub mod QuietRound
pub mod Settles
pub mod Correct
use smchr.Prelude.{
  ℕ, zero, suc, ◌+◌, Bool, true, false, not, ◌&&◌, Option, none, some, List, [], ◌∷◌, set, init,
  last_or, get_elem?, ltb, if◌then◌else◌, update, length,
}
use smchr.Sat.Literal.{Literal, literal_eq, literal_negate}
use smchr.Sat.State.{
  Watch, Sat, literal_getvar, literal_istrue, literal_isfalse, literal_isfree, literal_getwatch,
  literal_setwatch, literal_set, literal_addwatch,
}

-- `sat_watch_delete`: the last entry takes the place of the deleted one.
abbrev pub sat_watch_delete : Watch → ℕ → Watch
sat_watch_delete w i = record w { clauses = init (set w.clauses i (last_or 0 w.clauses)) }

-- `for (j = 2; …; j++)` and `lits[j] = lit`: the first literal that is not false, and the literals
-- behind the watched ones with `lit` in its place.
unfoldable pub swap_nonfalse : Sat → Literal → List Literal → Option (Literal × List Literal)
swap_nonfalse s lit [] = none
swap_nonfalse s lit (l ∷ ls) =
    if literal_isfalse s l
    then elim (swap_nonfalse s lit ls) [ none ↦ none | some (new, r) ↦ some (new, l ∷ r) ]
    else some (l, lit ∷ ls)

-- How one round over a watch list ends: `continue` with the clause true, `continue` after an
-- implied assignment, a conflict, or the clause moved to another watch list.
pub data Woken : Type 0 where
  skipped : Woken
  implied : Sat → Woken
  conflict : Woken
  moved : Sat → Woken

-- "Update to watch the new literal."
unfoldable pub move_watch : Sat → Literal → ℕ → ℕ → List Literal → Literal → Sat
move_watch s lit i c lits new =
    let s1 = literal_addwatch (record s { heap = update s.heap c lits }) new c in
    let order = (literal_getvar s1 new).order in
    let s2 = literal_setwatch s1 lit (sat_watch_delete (literal_getwatch s1 lit) i) in
    record s2 { next_var = if ltb order s2.next_var then order else s2.next_var }

-- The round once the other watched literal `watch_lit` is known: the tests of the loop body in their
-- order, with the states that an implied assignment and a new watch lead to.
unfoldable pub search_watch :
    Sat → Literal → Literal → List Literal → Sat → (Literal → List Literal → Sat) → Woken
search_watch s lit watch_lit rest set_state move_to =
    let unit = if literal_isfree s watch_lit then implied set_state else conflict in
    let search : Woken = elim (swap_nonfalse s lit rest) [
      | none ↦ unit
      | some (new, r) ↦ moved (move_to new r)
    ] in
    if literal_istrue s watch_lit then skipped else search

-- One round over the watch list of the false literal `lit`, at entry `i`, the clause at `c`: the
-- other watched literal is lits[1] if lits[0] is `lit`, and lits[0] if not. The implied literal is
-- brought to the front. (Clauses have two literals at least.)
unfoldable pub wake_lits : Sat → Literal → ℕ → ℕ → List Literal → Woken
wake_lits s lit i c (l0 ∷ l1 ∷ rest) =
    if literal_eq l0 lit
    then search_watch s lit l1 rest
        (literal_set (record s { heap = update s.heap c (l1 ∷ lit ∷ rest) }) l1 (some c))
        (λ new r. move_watch s lit i c (new ∷ l1 ∷ r) new)
    else search_watch s lit l0 rest (literal_set s l0 (some c))
        (λ new r. move_watch s lit i c (l0 ∷ new ∷ r) new)
wake_lits s lit i c _ = skipped

abbrev pub wake : Sat → Literal → ℕ → ℕ → Woken
wake s lit i c = wake_lits s lit i c (s.heap c)

pub data Scanned : Type 0 where
  scanned : Sat → ℕ → Scanned
  conflicted : Sat → ℕ → Scanned

-- `for (int i = 0; i < watch->length; i++)`, with `next` the end of the trail to be propagated.
unfoldable pub scan : ℕ → Sat → Literal → ℕ → ℕ → Scanned
scan zero s lit i next = scanned s next
scan (suc n) s lit i next = elim (get_elem? (literal_getwatch s lit).clauses i) [
  | none ↦ scanned s next
  | some c ↦ elim (wake s lit i c) [
    | skipped ↦ scan n s lit (i + 1) next
    | implied s' ↦ scan n s' lit (i + 1) (next + 1)
    | conflict ↦ conflicted s c
    | moved s' ↦ scan n s' lit i next
  ]
]

pub data Propagated : Type 0 where
  fixpoint : Sat → ℕ → Propagated
  conflict_at : Sat → ℕ → Propagated
  out_of_fuel : Propagated

-- `while (curr < next)`
unfoldable pub propagate_loop : ℕ → Sat → ℕ → ℕ → Propagated
propagate_loop zero s curr next = if ltb curr next then out_of_fuel else fixpoint s curr
propagate_loop (suc fuel) s curr next = elim (ltb curr next) [
  | false ↦ fixpoint s curr
  | true ↦
      let lit = literal_negate (s.trail curr) in
      elim (scan (length (literal_getwatch s lit).clauses) s lit 0 next) [
        | scanned s' next' ↦ propagate_loop fuel s' (curr + 1) next'
        | conflicted s' c ↦ conflict_at s' c
      ]
]

-- `sat_propagate` from the label `sat_propagate_restart` to the end of that loop.
unfoldable pub assign_and_propagate : ℕ → Sat → Literal → Option ℕ → Propagated
assign_and_propagate fuel s lit reason =
    propagate_loop fuel (literal_set s lit reason) s.tlevel (s.tlevel + 1)
