-- ===== src/Sat/Propagate/Correct.antt =====
-- What propagation of one literal guarantees.
use smchr.Prelude.{
  ℕ, ◌+◌, ◌<◌, ◌≤◌, ◌≡◌, true, Option, none, some, List, [], ◌∷◌, arith, ◌⊎◌, Bool-cases,
  Option-cases, inl, inr, get_elem?,
}
use smchr.Sat.Literal.{Literal, literal_eq, literal_eq_iff}
use smchr.Sat.State.{Sat, literal_isfalse, literal_isfree, literal_getwatch}
use smchr.Sat.Model.{Model, value, Agrees, ModelOf}
use smchr.Sat.Propagate.{
  Woken, skipped, implied, conflict, moved, swap_nonfalse, wake_lits, wake, Propagated, fixpoint,
  conflict_at, out_of_fuel, assign_and_propagate,
}
use smchr.Sat.Propagate.Watches.{Watched, Watched-clause, Watched-pos, search-watch_rule}
use smchr.Sat.Propagate.Sound.{Consistent, Sound, wake-Sound, Consistent-set}
use smchr.Sat.Propagate.Loop.{unset}
use smchr.Sat.Propagate.Quiet.{Quiet, QuietWith}
use smchr.Sat.Propagate.Settles.{assign-Quiet, with_fixpoint}
use smchr.Sat.Propagate.Ends.{Ready, Round, PropagateEnds, KeptByRounds, propagates}

-- Every literal of the list is false.
abbrev pub AllFalse : Sat → List Literal → Type 0
AllFalse s [] = Unit
AllFalse s (l ∷ ls) = (literal_isfalse s l ≡ true) × AllFalse s ls

swap-nonfalse_AllFalse :
    (s : Sat) (lit : Literal) (ls : List Literal) → swap_nonfalse s lit ls ≡ none → AllFalse s ls
unfolding swap_nonfalse
swap-nonfalse_AllFalse s lit [] e = tt
swap-nonfalse_AllFalse s lit (l ∷ ls) e = elim (Bool-cases (literal_isfalse s l)) [
  | inl f ↦ elim (Option-cases (swap_nonfalse s lit ls)) [
    | inl q ↦ (f, swap-nonfalse_AllFalse s lit ls q)
    | inr (found, q) ↦ cc (rw (f, q) at e)
  ]
  | inr f ↦ cc (rw f at e)
]

-- A conflict is a clause all of whose literals are false.
abbrev ConflictIsFalse : Sat → ℕ → Woken → Type 0
ConflictIsFalse s c skipped = Unit
ConflictIsFalse s c (implied t) = Unit
ConflictIsFalse s c conflict = AllFalse s (s.heap c)
ConflictIsFalse s c (moved t) = Unit

module _ (s : Sat) (lit : Literal) (i c : ℕ) (false_lit : literal_isfalse s lit ≡ true) where
  conflict-AllFalse :
      (a b : Literal) (rest : List Literal)
      → s.heap c ≡ a ∷ b ∷ rest
      → (literal_eq a lit ≡ true) ⊎ (literal_eq b lit ≡ true)
      → ConflictIsFalse s c (wake_lits s lit i c (a ∷ b ∷ rest))
  unfolding wake_lits
  conflict-AllFalse a b rest e which = elim (Bool-cases (literal_eq a lit)) [
    | inl first ↦ rw first (
        search-watch_rule (ConflictIsFalse s c) s lit b rest _ _ (λ _. tt) (λ _ _. tt)
          (λ n f.
            rw e (ground (arith, literal_eq_iff a lit), (f, swap-nonfalse_AllFalse s lit rest n)))
          (λ _ _ _. tt))
    | inr second ↦ rw second (
        search-watch_rule (ConflictIsFalse s c) s lit a rest _ _ (λ _. tt) (λ _ _. tt)
          (λ n f.
            rw e (f, (ground (arith, literal_eq_iff b lit), swap-nonfalse_AllFalse s lit rest n)))
          (λ _ _ _. tt))
  ]

wake-ConflictIsFalse :
    (s : Sat) (lit : Literal) (i c : ℕ)
    → get_elem? (literal_getwatch s lit).clauses i ≡ some c
    → literal_isfalse s lit ≡ true
    → Watched s
    → ConflictIsFalse s c (wake s lit i c)
wake-ConflictIsFalse s lit i c at_entry f w =
    let (a, b, rest, e) = Watched-clause s lit i c at_entry w in
    let is_watch = rw e at (Watched-pos s lit i c at_entry w) in
    rw e (
      conflict-AllFalse s lit i c f a b rest e
        (elim (Bool-cases (literal_eq a lit)) [ inl p ↦ inl p | inr p ↦ inr (ground arith) ]))

conflicts_are_false : KeptByRounds (λ _. Unit) (λ t c. AllFalse t (t.heap c))
conflicts_are_false s lit i c at_entry f w _ =
    go (wake s lit i c) (wake-ConflictIsFalse s lit i c at_entry f w)
  where
    go :
        (r : Woken)
        → ConflictIsFalse s c r
        → Round (λ _ _. Unit) (λ t d. AllFalse t (t.heap d)) s c 0 r
    go skipped h = tt
    go (implied t) h = tt
    go conflict h = h
    go (moved t) h = tt

Consistent-rounds : (m : Model) → KeptByRounds (Consistent m) (λ _ _. ⊥)
Consistent-rounds m s lit i c at_entry f w h =
    go (wake s lit i c) (wake-Sound m s lit i c at_entry f w h)
  where
    go : (r : Woken) → Sound m r → Round (λ t _. Consistent m t) (λ _ _. ⊥) s c 0 r
    go skipped e = tt
    go (implied t) e = e
    go conflict e = e
    go (moved t) e = e

-- How propagation ends: at a fixpoint whose whole trail was propagated, where no clause of two literals
-- and more is false or unit, and whose trail fits the variables, or at a clause whose literals are all
-- false. It does not run out of fuel.
pub record Fixpoint (s t : Sat) (curr : ℕ) : Type 0 where
  pub ready : Ready t
  pub all_propagated : curr ≡ t.tlevel
  pub same_vars : t.vars_length ≡ s.vars_length
  pub quiet : Quiet t
  pub trail_fits : t.tlevel ≤ s.tlevel + unset s.vars_length s.vars

pub PropagateEnds-map :
    (P P' : Sat → ℕ → Type 0) (Q : Sat → ℕ → Type 0)
    → ((t : Sat) (k : ℕ) → P t k → P' t k)
    → (r : Propagated) → PropagateEnds P Q r
    → PropagateEnds P' Q r
PropagateEnds-map P P' Q f (fixpoint t k) p = f t k p
PropagateEnds-map P P' Q f (conflict_at t c) q = q
PropagateEnds-map P P' Q f out_of_fuel e = e

module _ (s : Sat) (lit : Literal) (reason : Option ℕ) (fuel : ℕ) (ready : Ready s)
    (free : literal_isfree s lit ≡ true) (below : lit.index < s.vars_length)
    (enough : unset s.vars_length s.vars ≤ fuel) where
  -- From a state that is ready, where each false watched literal stands beside a true one or beside the
  -- literal, with a free literal and as much fuel as there are free variables, propagation ends. At a
  -- fixpoint the state is ready again, each false watched literal stands beside a true one, so that
  -- no clause of two literals and more is false or unit, the whole trail has been propagated (the
  -- source's `check(curr == sat_tlevel)`), and the trail holds no more literals than before and free
  -- variables together; otherwise every literal of the conflict clause is false.
  pub propagate_ends :
      QuietWith s lit
      → PropagateEnds
          (Fixpoint s)
          (λ t c. AllFalse t (t.heap c))
          (assign_and_propagate fuel s lit reason)
  propagate_ends quiet =
      let run = assign_and_propagate fuel s lit reason in
      PropagateEnds-map _ (Fixpoint s) _
        (λ t k (p, q). record {
          ready = p.0;
          all_propagated = p.1;
          same_vars = p.2;
          quiet = q;
          trail_fits = omega (arith, p.1, p.3);
        })
        run
        (with_fixpoint _ Quiet _ run
          (propagates (λ _. Unit) _ conflicts_are_false s lit reason fuel ready free below enough
            tt)
          (assign-Quiet fuel s lit reason ready free below quiet))

  -- Let `m` satisfy every clause, have the values assigned so far and make the literal true. Then
  -- propagation of the literal reports no conflict, and at the fixpoint `m` satisfies every clause
  -- and has all the values assigned: what propagation assigns are consequences.
  pub propagate_sound :
      (m : Model)
      → Agrees m s
      → ModelOf m s
      → value m lit ≡ true
      → PropagateEnds (λ t _. Consistent m t) (λ _ _. ⊥) (assign_and_propagate fuel s lit reason)
  propagate_sound m agrees models v =
      PropagateEnds-map _ (λ t _. Consistent m t) _ (λ t k p. p.4)
        (assign_and_propagate fuel s lit reason)
        (propagates (Consistent m) _ (Consistent-rounds m) s lit reason fuel ready free below enough
          (Consistent-set m s lit reason (record { agrees = agrees; models = models }) v))
