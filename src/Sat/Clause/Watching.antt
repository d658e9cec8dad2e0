-- ===== src/Sat/Clause/Watching.antt =====
-- sat.c: `sat_init_clause` and `sat_make_var`, and the watch invariant that propagation needs.
use smchr.Prelude.{
  ℕ, ◌+◌, ◌≡◌, ◌∙◌, refl, Option, none, false, List, [], ◌∷◌, arith, ◌==◌, Bool-cases, inl, inr,
  update,
}
use smchr.Sat.Literal.{Literal, literal_negate, literal_true}
use smchr.Sat.State.{
  Sat, literal_getvar, literal_getwatch, literal_isunit, literal_setunit, literal_addwatch,
}
use smchr.Sat.Clause.{sat_new_clause, sat_init_clause, sat_make_var, sat_reset, new_variable}
use smchr.Sat.Clause.Meaning.{Fresh}
use smchr.Sat.Propagate.Watches.{Watched, watched_by, occurrences-addwatch, heap-addwatch}
use smchr.Sat.Propagate.Loop.{AllBelow, OnTrail}
use smchr.Sat.Propagate.Ends.{Ready}

module _ (s : Sat) (a b : Literal) (rest : List Literal) (fresh : Fresh s) where
  abbrev stored : Sat
  stored = record s {
    heap = update s.heap s.heap_length (a ∷ b ∷ rest);
    heap_length = s.heap_length + 1;
  }

  Watched-new : Watched s → Watched (sat_new_clause s (a ∷ b ∷ rest)).1
  unfolding sat_new_clause
  Watched-new h k d =
      let c = s.heap_length in
      let at_end = heap-addwatch (literal_addwatch stored a c) b c ∙ heap-addwatch stored a c in
      let one = occurrences-addwatch stored a k c d in
      let two = occurrences-addwatch (literal_addwatch stored a c) b k c d in
      rw at_end (ground (arith, one, two, h k d, fresh d))

  Fresh-new : Fresh (sat_new_clause s (a ∷ b ∷ rest)).1
  unfolding sat_new_clause literal_addwatch smchr.Sat.State.literal_setwatch
  Fresh-new d p = ground (arith, fresh d)

  OnTrail-new : OnTrail s → OnTrail (sat_new_clause s (a ∷ b ∷ rest)).1
  unfolding sat_new_clause literal_addwatch smchr.Sat.State.literal_setwatch
  OnTrail-new h k p = ground (arith, h k)

  ranged-new :
      ((c : ℕ) → AllBelow s.vars_length (s.heap c))
      → AllBelow s.vars_length (a ∷ b ∷ rest)
      → (c : ℕ) → AllBelow s.vars_length ((sat_new_clause s (a ∷ b ∷ rest)).1.heap c)
  unfolding sat_new_clause literal_addwatch smchr.Sat.State.literal_setwatch
  ranged-new h below d = elim (Bool-cases (s.heap_length == d)) [
    | inl e ↦ rw e below
    | inr e ↦ rw e (h d)
  ]

  vars-length-new : (sat_new_clause s (a ∷ b ∷ rest)).1.vars_length ≡ s.vars_length
  unfolding sat_new_clause literal_addwatch smchr.Sat.State.literal_setwatch
  vars-length-new = refl

  Ready-new :
      Ready s → AllBelow s.vars_length (a ∷ b ∷ rest) → Ready (sat_new_clause s (a ∷ b ∷ rest)).1
  Ready-new h below = record {
    watched = Watched-new h.watched;
    on_trail = OnTrail-new h.on_trail;
    ranged = rw vars-length-new (ranged-new h.ranged below);
  }

Ready-setunit : (s : Sat) (l : Literal) → Ready s → Ready (literal_setunit s l)
unfolding literal_setunit
Ready-setunit s l h = record {
  watched = λ k c. ground (arith, h.watched k c);
  on_trail = λ k p. ground (arith, h.on_trail k);
  ranged = h.ranged;
}

Fresh-setunit : (s : Sat) (l : Literal) → Fresh s → Fresh (literal_setunit s l)
unfolding literal_setunit
Fresh-setunit s l h = h

-- A clause over variables that exist leaves every clause watched by its first two literals and
-- every trail literal true, on every branch of `sat_init_clause`, with the free addresses free.
pub init-clause_Ready :
    (s : Sat) (lits : List Literal)
    → Ready s
    → Fresh s
    → AllBelow s.vars_length lits
    → Ready (sat_init_clause s lits).1 × Fresh (sat_init_clause s lits).1
unfolding sat_init_clause
init-clause_Ready s [] h f below =
    (record { watched = h.watched; on_trail = h.on_trail; ranged = h.ranged }, f)
init-clause_Ready s (a ∷ b ∷ rest) h f below =
    (Ready-new s a b rest f h below, Fresh-new s a b rest f)
init-clause_Ready s (l ∷ []) h f below = elim (Bool-cases (literal_isunit s l)) [
  | inl e ↦ rw e (h, f)
  | inr e ↦ elim (Bool-cases (literal_isunit s (literal_negate l))) [
    | inl g ↦
        rw (e, g) (record { watched = h.watched; on_trail = h.on_trail; ranged = h.ranged }, f)
    | inr g ↦ rw (e, g) (Ready-setunit s l h, Fresh-setunit s l f)
  ]
]

AllBelow-suc : (n : ℕ) (ls : List Literal) → AllBelow n ls → AllBelow (n + 1) ls
AllBelow-suc n [] h = tt
AllBelow-suc n (l ∷ ls) h = (omega (arith, h.0), AllBelow-suc n ls h.1)

watched_by-above :
    (n : ℕ) (l : Literal) (ls : List Literal) → AllBelow n ls → n ≡ l.index → watched_by l ls ≡ 0
watched_by-above n l [] h e = refl
watched_by-above n l (a ∷ []) h e = refl
watched_by-above n l (a ∷ b ∷ ls) h e = ground (arith, h.0, h.1.0)

-- A new variable keeps the watch invariant and the trail invariant (it is watched by no clause and on
-- no trail), and the heap blank above the addresses in use.
pub make-var_Ready :
    (s : Sat) (cons : Option ℕ)
    → Ready s
    → Fresh s
    → Ready (sat_make_var s cons).1 × Fresh (sat_make_var s cons).1
unfolding sat_make_var
make-var_Ready s cons h f = (
  record {
    watched = λ l c.
        ground (arith, h.watched l c, watched_by-above s.vars_length l (s.heap c) (h.ranged c));
    on_trail = λ k p. ground (arith, h.on_trail k);
    ranged = λ c. AllBelow-suc s.vars_length (s.heap c) (h.ranged c);
  },
  f,
)

-- Buffers that nothing was written to.
abbrev pub unused_buffers : Sat
unused_buffers = record {
  vars = λ _. new_variable false 0 none;
  vars_length = 0;
  solving = false;
  empty = false;
  tlevel = 0;
  dlevel = 0;
  trail = λ _. literal_true;
  heap = λ _. [];
  heap_length = 0;
  clauses = [];
  next_clause = none;
  order = λ _. 0;
  next_var = 0;
  last_var = none;
  decided = [];
}

-- The first call of `sat_reset`.
pub reset_Ready : Ready (sat_reset unused_buffers) × Fresh (sat_reset unused_buffers)
unfolding sat_reset sat_make_var sat_init_clause literal_setunit
reset_Ready = (
  record {
    watched = λ l c. ground arith;
    on_trail = λ k p. absurd (omega arith);
    ranged = λ c. tt;
  },
  λ c p. refl,
)
