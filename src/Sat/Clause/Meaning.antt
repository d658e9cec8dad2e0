-- ===== src/Sat/Clause/Meaning.antt =====
-- What `sat_init_clause` does to the meaning of the clauses and to the watch lists.
use smchr.Prelude.{
  ℕ, ◌+◌, ◌≤◌, ◌≡◌, ◌∙◌, ◌↔◌, refl, sym, true, false, List, [], ◌∷◌, arith, ◌==◌, if◌then◌else◌,
  Bool-cases, inl, inr, update,
}
use smchr.Sat.Literal.{Literal, literal_negate}
use smchr.Sat.State.{
  Sat, literal_getvar, literal_getwatch, literal_isunit, literal_setunit, literal_addwatch,
}
use smchr.Sat.Model.{Model, value, satisfied, ModelOf}
use smchr.Sat.Clause.{sat_new_clause, sat_init_clause}

-- `m` satisfies everything that the solver was given: the empty clause was not asserted, the unit
-- literals are true, and the clauses of the heap hold.
pub record Accepts (m : Model) (s : Sat) : Type 0 where
  pub not_empty : s.empty ≡ false
  pub units :
      (v : ℕ)
      → (s.vars v).unit ≡ true
      → value m (record { index = v; neg = (s.vars v).unit_sign }) ≡ true
  pub models : ModelOf m s

-- The addresses from `heap_length` on are free.
abbrev pub Fresh : Sat → Type 0
Fresh s = (c : ℕ) → s.heap_length ≤ c → s.heap c ≡ []

unit-addwatch :
    (s : Sat) (l : Literal) (c v : ℕ)
    → (((literal_addwatch s l c).vars v).unit ≡ (s.vars v).unit)
      × (((literal_addwatch s l c).vars v).unit_sign ≡ (s.vars v).unit_sign)
unfolding literal_addwatch smchr.Sat.State.literal_setwatch
unit-addwatch s l c v = ground arith

empty-addwatch : (s : Sat) (l : Literal) (c : ℕ) → (literal_addwatch s l c).empty ≡ s.empty
unfolding literal_addwatch smchr.Sat.State.literal_setwatch
empty-addwatch s l c = refl

module _ (m : Model) (s : Sat) (fresh : Fresh s) where
  heap-new :
      (a b : Literal) (rest : List Literal) (d : ℕ)
      → (sat_new_clause s (a ∷ b ∷ rest)).1.heap d
        ≡ (if s.heap_length == d then a ∷ b ∷ rest else s.heap d)
  unfolding sat_new_clause literal_addwatch smchr.Sat.State.literal_setwatch
  heap-new a b rest d = refl

  unit-new :
      (a b : Literal) (rest : List Literal) (v : ℕ)
      → (((sat_new_clause s (a ∷ b ∷ rest)).1.vars v).unit ≡ (s.vars v).unit)
        × (((sat_new_clause s (a ∷ b ∷ rest)).1.vars v).unit_sign ≡ (s.vars v).unit_sign)
  unfolding sat_new_clause
  unit-new a b rest v =
      let c = s.heap_length in
      let s1 = record s { heap = update s.heap c (a ∷ b ∷ rest); heap_length = c + 1 } in
      let p = unit-addwatch s1 a c v in
      let q = unit-addwatch (literal_addwatch s1 a c) b c v in (q.0 ∙ p.0, q.1 ∙ p.1)

  empty-new :
      (a b : Literal) (rest : List Literal) → (sat_new_clause s (a ∷ b ∷ rest)).1.empty ≡ s.empty
  unfolding sat_new_clause literal_addwatch smchr.Sat.State.literal_setwatch
  empty-new a b rest = refl

  Accepts-new :
      (a b : Literal) (rest : List Literal)
      → Accepts m (sat_new_clause s (a ∷ b ∷ rest)).1
        ↔ (Accepts m s × (satisfied m (a ∷ b ∷ rest) ≡ true))
  Accepts-new a b rest = (
    λ h. (
      record {
        not_empty = sym (empty-new a b rest) ∙ h.not_empty;
        units = λ v. ground (arith, h.units v, unit-new a b rest v);
        models = λ d. ground (arith, h.models d, heap-new a b rest d, fresh d);
      },
      ground (arith, h.models s.heap_length, heap-new a b rest s.heap_length),
    ),
    λ h. record {
      not_empty = empty-new a b rest ∙ h.0.not_empty;
      units = λ v. ground (arith, h.0.units v, unit-new a b rest v);
      models = λ d. rw (heap-new a b rest d) (ground (arith, h.0.models d, h.1));
    },
  )

  Accepts-unit :
      (l : Literal)
      → Accepts m (sat_init_clause s (l ∷ [])).1 ↔ (Accepts m s × (satisfied m (l ∷ []) ≡ true))
  unfolding sat_init_clause literal_setunit
  Accepts-unit l = elim (Bool-cases (literal_isunit s l)) [
    | inl e ↦ rw e (λ h. (h, ground (arith, h.units l.index)), λ h. h.0)
    | inr e ↦ elim (Bool-cases (literal_isunit s (literal_negate l))) [
      | inl f ↦
          rw (e, f) (λ h. cc (h.not_empty), λ h. absurd (ground (arith, h.0.units l.index, h.1)))
      | inr f ↦
          rw (e, f)
            (
              λ h. (
                record {
                  not_empty = h.not_empty;
                  units = λ v. ground (arith, h.units v);
                  models = h.models;
                },
                ground (arith, h.units l.index),
              ),
              λ h. record {
                not_empty = h.0.not_empty;
                units = λ v. ground (arith, h.0.units v, h.1);
                models = h.0.models;
              },
            )
    ]
  ]

  Accepts-empty : Accepts m (sat_init_clause s []).1 ↔ (Accepts m s × (satisfied m [] ≡ true))
  unfolding sat_init_clause
  Accepts-empty = (λ h. cc h.not_empty, λ h. cc h.1)

  -- Adding a clause is conjunction, on every branch: whatever its length, `m` satisfies all that
  -- the solver was given afterwards if and only if it did before and satisfies the clause.
  pub init-clause_meaning :
      (lits : List Literal)
      → Accepts m (sat_init_clause s lits).1 ↔ (Accepts m s × (satisfied m lits ≡ true))
  init-clause_meaning [] = Accepts-empty
  init-clause_meaning (l ∷ []) = Accepts-unit l
  init-clause_meaning (a ∷ b ∷ rest) = unfold sat_init_clause in Accepts-new a b rest
