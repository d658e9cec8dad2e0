-- ===== src/Sat/Order/Frame.antt =====
-- sat.c, "ORDER": the fields of the state that reordering leaves alone.
use smchr.Prelude.{
  ℕ, ◌+◌, ◌-◌, ◌%◌, ◌^◌, ◌≡◌, ◌∙◌, refl, List, [], ◌∷◌, arith, leb, ◌==◌, if◌then◌else◌, Bool-cases,
  inl, inr,
}
use smchr.Sat.Literal.{Literal}
use smchr.Sat.State.{Sat, put_var}
use smchr.Sat.Order.{sat_bump_literal, sat_bump_clause, bump_swap, bump_search, activity_at}

-- `t` is `s` but for marks, set flags, activities and places: what conflict analysis reads of the
-- trail is the same.
pub record SameFacts (s t : Sat) : Type 0 where
  pub sign : (v : ℕ) → (t.vars v).sign ≡ (s.vars v).sign
  pub dlevel : (v : ℕ) → (t.vars v).dlevel ≡ (s.vars v).dlevel
  pub reason : (v : ℕ) → (t.vars v).reason ≡ (s.vars v).reason
  pub heap : t.heap ≡ s.heap
  pub trail : t.trail ≡ s.trail
  pub level : t.dlevel ≡ s.dlevel
  pub unit : (v : ℕ) → (t.vars v).unit ≡ (s.vars v).unit
  pub unit_sign : (v : ℕ) → (t.vars v).unit_sign ≡ (s.vars v).unit_sign
  pub empty : t.empty ≡ s.empty
  pub heap_length : t.heap_length ≡ s.heap_length

abbrev pub SameMarks : Sat → Sat → Type 0
SameMarks s t = (v : ℕ) → (t.vars v).mark ≡ (s.vars v).mark

pub SameFacts-refl : (s : Sat) → SameFacts s s
SameFacts-refl s = record {
  sign = λ v. refl;
  dlevel = λ v. refl;
  reason = λ v. refl;
  heap = refl;
  trail = refl;
  level = refl;
  unit = λ v. refl;
  unit_sign = λ v. refl;
  empty = refl;
  heap_length = refl;
}

pub SameFacts-trans : {s t u : Sat} → SameFacts s t → SameFacts t u → SameFacts s u
SameFacts-trans p q = record {
  sign = λ v. q.sign v ∙ p.sign v;
  dlevel = λ v. q.dlevel v ∙ p.dlevel v;
  reason = λ v. q.reason v ∙ p.reason v;
  heap = q.heap ∙ p.heap;
  trail = q.trail ∙ p.trail;
  level = q.level ∙ p.level;
  unit = λ v. q.unit v ∙ p.unit v;
  unit_sign = λ v. q.unit_sign v ∙ p.unit_sign v;
  empty = q.empty ∙ p.empty;
  heap_length = q.heap_length ∙ p.heap_length;
}

swap-frame :
    (s : Sat) (idx order hi : ℕ)
    → SameFacts s (bump_swap s idx order hi) × SameMarks s (bump_swap s idx order hi)
unfolding bump_swap
swap-frame s idx order hi = (
  record {
    sign = λ v. ground arith;
    dlevel = λ v. ground arith;
    reason = λ v. ground arith;
    heap = refl;
    trail = refl;
    level = refl;
    unit = λ v. ground arith;
    unit_sign = λ v. ground arith;
    empty = refl;
    heap_length = refl;
  },
  λ v. ground arith,
)

activity-frame :
    (s : Sat) (v act : ℕ)
    → SameFacts s (put_var s v (record (s.vars v) { activity = act }))
      × SameMarks s (put_var s v (record (s.vars v) { activity = act }))
activity-frame s v act = (
  record {
    sign = λ w. ground arith;
    dlevel = λ w. ground arith;
    reason = λ w. ground arith;
    heap = refl;
    trail = refl;
    level = refl;
    unit = λ v. ground arith;
    unit_sign = λ v. ground arith;
    empty = refl;
    heap_length = refl;
  },
  λ w. ground arith,
)

pub bump-literal_frame :
    (s : Sat) (l : Literal)
    → SameFacts s (sat_bump_literal s l) × SameMarks s (sat_bump_literal s l)
unfolding sat_bump_literal
bump-literal_frame s l =
    let act = ((s.vars l.index).activity + 1) % 2 ^ 32 in
    let s1 = put_var s l.index (record (s.vars l.index) { activity = act }) in
    let order = (s.vars l.index).order in
    let first = activity-frame s l.index act in
    elim (Bool-cases (order == 0)) [
      | inl e ↦ rw e first
      | inr e ↦ elim (Bool-cases (leb act (activity_at s1 (order - 1)))) [
        | inl f ↦ rw (e, f) first
        | inr f ↦
            rw (e, f)
              (let second = swap-frame s1 l.index order (
                  if (activity_at s1 0 + 1) % 2 ^ 32 == act
                  then 0
                  else bump_search (order - 1) s1 act 0 (order - 1)) in
                (SameFacts-trans first.0 second.0, λ v. second.1 v ∙ first.1 v))
      ]
    ]

pub bump-clause_frame :
    (s : Sat) (ls : List Literal)
    → SameFacts s (sat_bump_clause s ls) × SameMarks s (sat_bump_clause s ls)
unfolding sat_bump_clause
bump-clause_frame s [] = (SameFacts-refl s, λ v. refl)
bump-clause_frame s (l ∷ ls) =
    let first = bump-literal_frame s l in
    let rest = bump-clause_frame (sat_bump_literal s l) ls in
    (SameFacts-trans first.0 rest.0, λ v. rest.1 v ∙ first.1 v)
