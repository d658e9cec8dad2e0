-- ===== src/Sat/Select.antt =====
-- sat.c: the choice of a decision, `sat_select_literal`, `sat_should_select_literal` and `sat_rand`. The
-- loops over the constraint of the last decision and the constraints of its variables are a parameter,
-- which gives the literals `d->b` of those that are not purged in the order of the loops. Statistics are
-- left out; a watch list is shorter than 2 ^ 31.
pub mod Scan
pub mod Solved
mod Tests
use smchr.Prelude.{
  ℕ, zero, suc, ◌+◌, ◌-◌, ◌*◌, ◌/◌, ◌%◌, ◌^◌, Bool, true, false, ◌&&◌, Option, none, some, List, [],
  ◌∷◌, ltb, ◌==◌, if◌then◌else◌,
}
use smchr.Sat.Literal.{Literal, positive, literal_negate}
use smchr.Sat.State.{Sat, literal_getvar, literal_istrue}

-- `sat_z` and `sat_w`, each a uint32_t.
pub record Random : Type 0 where
  pub z : ℕ
  pub w : ℕ

abbrev pub sat_rand : Random → ℕ × Random
sat_rand r =
    let z = (36969 * (r.z % 2 ^ 16) + r.z / 2 ^ 16) % 2 ^ 32 in
    let w = (18000 * (r.w % 2 ^ 16) + r.w / 2 ^ 16) % 2 ^ 32 in
    ((z * 2 ^ 16 + w) % 2 ^ 32, record { z = z; w = w })

-- `found`: some literal of the clause is true.
unfoldable pub any_true : Sat → List Literal → Bool
any_true s [] = false
any_true s (l ∷ ls) = let rest = any_true s ls in if literal_istrue s l then true else rest

-- The number of clauses of a watch list without a true literal.
unfoldable pub score : Sat → List ℕ → ℕ
score s [] = 0
score s (c ∷ cs) = let rest = score s cs in if any_true s (s.heap c) then rest else rest + 1

unfoldable pub sat_should_select_literal : Sat → Random → Option Literal → Option Literal × Random
sat_should_select_literal s r none = (none, r)
sat_should_select_literal s r (some lit) =
    let var = literal_getvar s lit in
    let score0 = score s (var.watches false).clauses in
    let score1 = score s (var.watches true).clauses in
    let tie = score1 == score0 in
    let toss = (sat_rand r).0 % 2 == 0 in
    let r' = if tie then (sat_rand r).1 else r in
    let best_sign = if ltb score0 score1 then true else tie && toss in
    let best_score = if best_sign then score1 else score0 in
    let best = if best_sign then literal_negate lit else lit in
    let answer = if best_score == 0 then (none, r') else (some best, r') in
    if var.set then (none, r) else answer

-- The loop over the places from `i`, with the number of those left.
unfoldable pub vsids : ℕ → Sat → Random → ℕ → Option Literal × Sat × Random
vsids zero s r i = (none, s, r)
vsids (suc n) s r i =
    let (lit, r') = sat_should_select_literal s r (some (positive (s.order i))) in
    elim lit [ none ↦ vsids n s r' (suc i) | some l ↦ (some l, record s { next_var = suc i }, r') ]

-- The fall-back: the first literal of the list that should be selected.
unfoldable pub first_related : Sat → Random → List (Option Literal) → Option Literal × Random
first_related s r [] = (none, r)
first_related s r (d ∷ ds) =
    let (lit, r') = sat_should_select_literal s r d in
    elim lit [ none ↦ first_related s r' ds | some l ↦ (some l, r') ]

module _ (related : ℕ → List (Option Literal)) where
  abbrev related_cons : Option ℕ → List (Option Literal)
  related_cons none = []
  related_cons (some c) = related c

  -- What the fall-back goes through: nothing without a last decision or without its constraint.
  abbrev pub related_last : Sat → List (Option Literal)
  related_last s = elim s.last_var [ none ↦ [] | some v ↦ related_cons (s.vars v).cons ]

  -- The fall-back after `lit`, and the label `found_literal`.
  unfoldable pub found_literal : Sat → Random → Literal → Literal × Sat × Random
  found_literal s r lit =
      let candidates = if (s.vars lit.index).activity == 0 then related_last s else [] in
      let (other, r') = first_related s r candidates in
      elim other [
        | none ↦ (lit, record s { last_var = some lit.index }, r')
        | some l ↦ (l, record s { last_var = some l.index; next_var = s.next_var - 1 }, r')
      ]

  unfoldable pub sat_select_literal : Sat → Random → Option Literal × Sat × Random
  sat_select_literal s r =
      let (lit, s', r') = vsids (s.vars_length - s.next_var) s r s.next_var in
      elim lit [
        | none ↦ (none, s', r')
        | some l ↦ let (l', s2, r2) = found_literal s' r' l in (some l', s2, r2)
      ]
