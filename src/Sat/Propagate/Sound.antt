-- ===== src/Sat/Propagate/Sound.antt =====
-- sat.c, `sat_propagate`: what a truth assignment of the clauses says of the literals assigned.
use smchr.Prelude.{
  ℕ, ◌<◌, ◌≡◌, ◌∙◌, refl, sym, true, false, ◌||◌, Option, none, some, List, [], ◌∷◌, arith,
  Bool-cases, Option-cases, inl, inr, update, get_elem?,
}
use smchr.Sat.Literal.{Literal, literal_eq, literal_eq_iff}
use smchr.Sat.State.{Sat, literal_isfalse, literal_getwatch, literal_set}
use smchr.Sat.Model.{Model, value, satisfied, ModelOf, Agrees, value_of_isfalse}
use smchr.Sat.Assignment.{set-vars, move-SameAssignment}
use smchr.Sat.Propagate.{
  Woken, skipped, implied, conflict, moved, swap_nonfalse, move_watch, wake_lits, wake,
}
use smchr.Sat.Propagate.Watches.{
  Watched, watched_by, Watched-clause, search-watch_rule, heap-move, heap-set, Watched-pos,
}

-- What is known of a state when all its clauses hold in `m`, which has the values assigned so far.
pub record Consistent (m : Model) (s : Sat) : Type 0 where
  pub agrees : Agrees m s
  pub models : ModelOf m s

pub swap-nonfalse_none :
    (m : Model) (s : Sat) (lit : Literal) (ls : List Literal)
    → Agrees m s
    → swap_nonfalse s lit ls ≡ none
    → satisfied m ls ≡ false
unfolding swap_nonfalse
swap-nonfalse_none m s lit [] h e = refl
swap-nonfalse_none m s lit (l ∷ ls) h e = ground (arith, h l.index, swap-nonfalse_none m s lit ls h)

pub swap-nonfalse_exchange :
    (m : Model) (s : Sat) (lit : Literal) (ls r : List Literal) (new : Literal)
    → swap_nonfalse s lit ls ≡ some (new, r)
    → (value m new || satisfied m r) ≡ (value m lit || satisfied m ls)
unfolding swap_nonfalse
swap-nonfalse_exchange m s lit [] r new e = cc
swap-nonfalse_exchange m s lit (l ∷ ls) r new e = elim (Bool-cases (literal_isfalse s l)) [
  | inl f ↦ elim (Option-cases (swap_nonfalse s lit ls)) [
    | inl n ↦ cc (rw (f, n) at e)
    | inr ((new', r'), n) ↦
        let kept : some (new', l ∷ r') ≡ some (new, r) = rw (f, n) at e in
        ground (arith, kept, swap-nonfalse_exchange m s lit ls r' new' n)
  ]
  | inr f ↦ let found : some (l, lit ∷ ls) ≡ some (new, r) = rw f at e in ground (arith, found)
]

pub Agrees-set :
    (m : Model) (s : Sat) (l : Literal) (r : Option ℕ)
    → Agrees m s
    → value m l ≡ true
    → Agrees m (literal_set s l r)
Agrees-set m s l r h e v = ground (arith, set-vars s l r v, h v)

-- What a round leaves: consistent states, and no conflict.
abbrev pub Sound : Model → Woken → Type 0
Sound m skipped = Unit
Sound m (implied s) = Consistent m s
Sound m conflict = ⊥
Sound m (moved s) = Consistent m s

pub Consistent-set :
    (m : Model) (s : Sat) (l : Literal) (r : Option ℕ)
    → Consistent m s
    → value m l ≡ true
    → Consistent m (literal_set s l r)
Consistent-set m s l r h e = record {
  agrees = Agrees-set m s l r h.agrees e;
  models = λ c. rw (heap-set s l r) (h.models c);
}

Consistent-write :
    (m : Model) (s : Sat) (c : ℕ) (a b : Literal) (ls : List Literal)
    → Consistent m s
    → satisfied m (a ∷ b ∷ ls) ≡ true
    → Consistent m (record s { heap = update s.heap c (a ∷ b ∷ ls) })
Consistent-write m s c a b ls h e = record {
  agrees = h.agrees;
  models = λ d. ground (arith, h.models d);
}

Consistent-move :
    (m : Model) (s : Sat) (lit : Literal) (i c : ℕ) (a b new : Literal) (ls : List Literal)
    → Consistent m s
    → satisfied m (a ∷ b ∷ ls) ≡ true
    → Consistent m (move_watch s lit i c (a ∷ b ∷ ls) new)
Consistent-move m s lit i c a b new ls h e = record {
  agrees = λ v p.
      let q = move-SameAssignment s lit i c (a ∷ b ∷ ls) new v in q.1 ∙ h.agrees v (sym q.0 ∙ p);
  models = λ d. rw (heap-move s lit i c (a ∷ b ∷ ls) new d) (ground (arith, h.models d));
}

-- Where all but one watched literal of a clause are false, that one is true.
module _ (m : Model) (s : Sat) (lit : Literal) (h : Consistent m s)
    (false_lit : literal_isfalse s lit ≡ true) (w : Literal) (rest : List Literal)
    (holds : (value m lit || (value m w || satisfied m rest)) ≡ true) where
  lit_false : value m lit ≡ false
  lit_false = value_of_isfalse m s lit h.agrees false_lit

  unit_true : swap_nonfalse s lit rest ≡ none → value m w ≡ true
  unit_true n = ground (arith, lit_false, swap-nonfalse_none m s lit rest h.agrees n)

  conflict_absurd : swap_nonfalse s lit rest ≡ none → literal_isfalse s w ≡ true → ⊥
  conflict_absurd n f = cc (sym (unit_true n) ∙ value_of_isfalse m s w h.agrees f)

  moved_true :
      (new : Literal) (r : List Literal)
      → swap_nonfalse s lit rest ≡ some (new, r)
      → (value m new || (value m w || satisfied m r)) ≡ true
  moved_true new r n = ground (arith, lit_false, swap-nonfalse_exchange m s lit rest r new n)

module _ (m : Model) (s : Sat) (lit : Literal) (i c : ℕ) (h : Consistent m s)
    (false_lit : literal_isfalse s lit ≡ true) (a b : Literal) (rest : List Literal)
    (at_heap : s.heap c ≡ a ∷ b ∷ rest) where
  clause_true : satisfied m (a ∷ b ∷ rest) ≡ true
  clause_true = rw at_heap at (h.models c)

  pub wake-lits_Sound :
      0 < watched_by lit (a ∷ b ∷ rest) → Sound m (wake_lits s lit i c (a ∷ b ∷ rest))
  unfolding wake_lits
  wake-lits_Sound is_watch = elim (Bool-cases (literal_eq a lit)) [
    | inl first ↦
        let a_lit : a ≡ lit = (literal_eq_iff a lit).0 first in
        let holds : (value m lit || (value m b || satisfied m rest)) ≡ true =
          rw a_lit at clause_true in
        rw first (
          search-watch_rule (Sound m) s lit b rest _ _ (λ _. tt)
            (λ n _.
              Consistent-set m _ b (some c)
                (Consistent-write m s c b lit rest h (ground (arith, holds)))
                (unit_true m s lit h false_lit b rest holds n))
            (conflict_absurd m s lit h false_lit b rest holds)
            λ new r n.
              Consistent-move m s lit i c new b new r h
                (moved_true m s lit h false_lit b rest holds new r n))
    | inr second ↦
        let b_lit : b ≡ lit = (literal_eq_iff b lit).0 (ground arith) in
        let holds : (value m lit || (value m a || satisfied m rest)) ≡ true =
          rw (← b_lit) (ground (arith, clause_true)) in
        rw second (
          search-watch_rule (Sound m) s lit a rest _ _ (λ _. tt)
            (λ n _. Consistent-set m s a (some c) h (unit_true m s lit h false_lit a rest holds n))
            (conflict_absurd m s lit h false_lit a rest holds)
            λ new r n.
              Consistent-move m s lit i c a new new r h
                (ground (arith, moved_true m s lit h false_lit a rest holds new r n)))
  ]

pub wake-Sound :
    (m : Model) (s : Sat) (lit : Literal) (i c : ℕ)
    → get_elem? (literal_getwatch s lit).clauses i ≡ some c
    → literal_isfalse s lit ≡ true
    → Watched s
    → Consistent m s
    → Sound m (wake s lit i c)
wake-Sound m s lit i c at_entry false_lit w h =
    let (a, b, rest, e) = Watched-clause s lit i c at_entry w in
    rw e (
      wake-lits_Sound m s lit i c h false_lit a b rest e
        (rw e at (Watched-pos s lit i c at_entry w)))
