-- ===== src/Sat/Backtrack.antt =====
-- sat.c: `sat_backtrack`, conflict analysis and backjumping.
-- `none` stands for LITERAL_NIL, the answer that the clauses have no solution. The trail is walked
-- downwards, so each loop is a recursion on the number of trail entries below it.
pub mod Facts
pub mod Marks
pub mod Uip
pub mod Learnt
mod Tests
use smchr.Prelude.{
  ℕ, zero, suc, ◌+◌, ◌-◌, ◌%◌, ◌^◌, Bool, true, false, not, ◌&&◌, Option, none, some, List, [], ◌∷◌,
  ◌++◌, ltb, leb, ◌==◌, if◌then◌else◌, length,
}
use smchr.Sat.Literal.{Literal, literal_negate}
use smchr.Sat.State.{
  Sat, literal_getvar, literal_getdlevel, literal_getmark, literal_setmark, literal_unset,
}
use smchr.Sat.Order.{sat_bump_clause}
use smchr.Sat.Clause.{sat_init_clause}

-- The local variables of the analysis: the state, `conflicts` in order, and `count`.
pub record Analysis : Type 0 where
  pub state : Sat
  pub conflicts : List Literal
  pub count : ℕ

-- One literal of a clause that takes part in the conflict: at level 0 it is ignored, at a lower
-- level it is a conflict, at the decision level it is counted.
unfoldable pub note_literal : Analysis → Literal → Analysis
note_literal a l =
    let s = a.state in
    let marked = literal_setmark s l true in
    if literal_getdlevel s l == 0
    then a
    else if ltb (literal_getdlevel s l) s.dlevel
    then record { state = marked; conflicts = a.conflicts ++ l ∷ []; count = a.count }
    else record { state = marked; conflicts = a.conflicts; count = a.count + 1 }

-- "Mark literals in 'reason'", for the conflict clause.
unfoldable pub mark_conflict : Analysis → List Literal → Analysis
mark_conflict a [] = a
mark_conflict a (l ∷ ls) = mark_conflict (note_literal a l) ls

-- The literals 1, 2, … of the reason of a marked literal: those marked already are passed over.
unfoldable pub mark_reason : Analysis → List Literal → Analysis
mark_reason a [] = a
mark_reason a (l ∷ ls) = mark_reason (if literal_getmark a.state l then a else note_literal a l) ls

abbrev pub tail_lits : List Literal → List Literal
tail_lits [] = []
tail_lits (l ∷ ls) = ls

-- How the search ends: at the unique implication point `lit`, with the entries left below it; with
-- the trail used up (LITERAL_NIL); or at the failed `check(reason != NULL)`.
pub data Search : Type 0 where
  found : Analysis → Literal → ℕ → Search
  exhausted : Analysis → Search
  check_failed : Search

-- "Find the UIP and collect the conflicts", with `k` entries of the trail left. (`count` is unsigned,
-- and its decrement wraps round.)
unfoldable pub find_uip : ℕ → Analysis → Search
find_uip zero a = exhausted a
find_uip (suc k) a =
    let lit = a.state.trail k in
    let s = literal_unset a.state lit in
    let unmarked = find_uip k (record a { state = s }) in
    let s1 = literal_setmark s lit false in
    let count = if a.count == 0 then 2 ^ 32 - 1 else a.count - 1 in
    let at_marked : Search = elim (literal_getvar s1 lit).reason [
      | none ↦ check_failed
      | some c ↦ find_uip k (
          mark_reason
            (record {
              state = sat_bump_clause s1 (s1.heap c);
              conflicts = a.conflicts;
              count = count;
            })
            (tail_lits (s1.heap c)))
    ] in
    let stop = found (record { state = s1; conflicts = a.conflicts; count = count }) lit k in
    let at_marked' = if leb count 0 then stop else at_marked in
    if literal_getmark s lit then at_marked' else unmarked

-- "Simplify the conflicts": a literal with a reason all of whose other literals are marked is left out.
unfoldable pub all_marked : Sat → List Literal → Bool
all_marked s [] = true
all_marked s (l ∷ ls) = literal_getmark s l && all_marked s ls

abbrev pub is_redundant : Sat → Literal → Bool
is_redundant s l = elim (literal_getvar s l).reason [
  | none ↦ false
  | some c ↦ all_marked s (tail_lits (s.heap c))
]

-- A literal of a higher level than all before goes to nogood[1], and the one there to the end.
abbrev pub to_front : List Literal → Literal → List Literal
to_front [] l = l ∷ []
to_front (x ∷ xs) l = l ∷ (xs ++ x ∷ [])

-- nogood[1], nogood[2], … and `blevel`.
unfoldable pub simplify : Sat → List Literal → List Literal → ℕ → List Literal × ℕ
simplify s [] nogood blevel = (nogood, blevel)
simplify s (l ∷ ls) nogood blevel =
    let dlevel = literal_getdlevel s l in
    let kept =
      simplify s ls (if ltb blevel dlevel then to_front nogood l else nogood ++ l ∷ [])
        (if ltb blevel dlevel then dlevel else blevel) in
    let rest = simplify s ls nogood blevel in if is_redundant s l then rest else kept

-- "Unwind the trail": unset the literals above `blevel`, and give the entries left.
unfoldable pub unwind : ℕ → Sat → ℕ → Sat × ℕ
unwind zero s blevel = (s, 0)
unwind (suc k) s blevel =
    let lit = s.trail k in
    let below = unwind k (literal_unset s lit) blevel in
    if leb (literal_getdlevel s lit) blevel then (s, suc k) else below

unfoldable pub clear_marks : Sat → List Literal → Sat
clear_marks s [] = s
clear_marks s (l ∷ ls) = clear_marks (literal_setmark s l false) ls

-- The learnt clause goes to the end of `sat_clauses`.
abbrev pub store_learnt : Option ℕ → Sat → Sat
store_learnt none s = s
store_learnt (some c) s = record s {
  next_clause = some (length s.clauses);
  clauses = s.clauses ++ c ∷ [];
}

-- nogood[0], nogood[1], … for the literal `lit` at which the search stopped.
unfoldable pub nogood : Analysis → Literal → List Literal
nogood a lit = literal_negate lit ∷ (simplify a.state a.conflicts [] 0).0

-- What follows the search: build the clause, unwind, clear the marks, store the clause.
-- The answer is nogood[0], the address of the clause, and the state.
unfoldable pub learn : Analysis → Literal → ℕ → Option Literal × Option ℕ × Sat
unfolding nogood
learn a lit k =
    let blevel = (simplify a.state a.conflicts [] 0).1 in
    let (s1, tlevel) = unwind k a.state blevel in
    let s2 = clear_marks (record s1 { tlevel = tlevel }) a.conflicts in
    let (clause, s3) = sat_init_clause s2 (nogood a lit) in
    let s4 = record (store_learnt clause s3) { dlevel = blevel } in
    (if s4.empty then none else some (literal_negate lit), clause, s4)

pub data Backtracked : Type 0 where
  learnt : Option Literal → Option ℕ → Sat → Backtracked
  failed : Sat → Backtracked
  panicked : Backtracked

-- The search for a conflict clause, at its address.
unfoldable pub analyse : Sat → ℕ → Search
analyse s reason =
    let lits = s.heap reason in
    let s1 = sat_bump_clause s lits in
    find_uip s.tlevel (mark_conflict (record { state = s1; conflicts = []; count = 0 }) lits)

unfoldable pub sat_backtrack : Sat → ℕ → Backtracked
unfolding analyse
sat_backtrack s reason =
    let searched : Backtracked = elim (analyse s reason) [
      | found a lit k ↦ (let (l, c, t) = learn a lit k in learnt l c t)
      | exhausted a ↦ failed a.state
      | check_failed ↦ panicked
    ] in
    if s.dlevel == 0 then failed (sat_bump_clause s (s.heap reason)) else searched
