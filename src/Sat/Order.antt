-- ===== src/Sat/Order.antt =====
-- sat.c, "ORDER": the activity order of the variables (`sat_bump_literal`, `sat_bump_clause`,
-- `sat_decay`). Activities are uint32_t.
pub mod Frame
use smchr.Prelude.{
  ℕ, zero, suc, ◌+◌, ◌-◌, ◌/◌, ◌%◌, ◌^◌, Bool, true, false, List, [], ◌∷◌, ltb, leb, ◌==◌,
  if◌then◌else◌, update,
}
use smchr.Sat.Literal.{Literal}
use smchr.Sat.State.{Sat, literal_getvar, put_var}

-- The activity of the variable at a place of the order.
abbrev pub activity_at : Sat → ℕ → ℕ
activity_at s k = (s.vars (s.order k)).activity

-- The binary search for the first place whose activity is below `act`; each round at least
-- halves `hi - lo`, so `hi - lo` rounds are enough.
unfoldable pub bump_search : ℕ → Sat → ℕ → ℕ → ℕ → ℕ
bump_search zero s act lo hi = hi
bump_search (suc n) s act lo hi =
    let mid = (lo + hi) / 2 in
    let lower = bump_search n s act lo mid in
    let upper = bump_search n s act mid hi in
    let halve = if ltb (activity_at s mid) act then lower else upper in
    if ltb 1 (hi - lo) then halve else hi

-- From the label `sat_bump_literal_swap`: exchange the variable with the one at place `hi`.
unfoldable pub bump_swap : Sat → ℕ → ℕ → ℕ → Sat
bump_swap s idx order hi =
    let other = s.order hi in
    let s1 = record s { order = update (update s.order hi (s.order order)) order other } in
    let s2 = put_var s1 other (record (s1.vars other) { order = order }) in
    let s3 = put_var s2 idx (record (s2.vars idx) { order = hi }) in
    record s3 { next_var = if ltb hi s3.next_var then hi else s3.next_var }

unfoldable pub sat_bump_literal : Sat → Literal → Sat
sat_bump_literal s lit =
    let idx = lit.index in
    let act = ((s.vars idx).activity + 1) % 2 ^ 32 in
    let s1 = put_var s idx (record (s.vars idx) { activity = act }) in
    let order = (s.vars idx).order in
    let hi =
      if (activity_at s1 0 + 1) % 2 ^ 32 == act
      then 0
      else bump_search (order - 1) s1 act 0 (order - 1) in
    if order == 0
    then s1
    else if leb act (activity_at s1 (order - 1))
    then s1
    else bump_swap s1 idx order hi

unfoldable pub sat_bump_clause : Sat → List Literal → Sat
sat_bump_clause s [] = s
sat_bump_clause s (l ∷ ls) = sat_bump_clause (sat_bump_literal s l) ls

-- `sat_decay`
unfoldable pub sat_decay : Sat → Sat
sat_decay s = record s {
  vars = λ i.
      if ltb i s.vars_length
      then record (s.vars i) { activity = (s.vars i).activity / 2 }
      else s.vars i;
}
