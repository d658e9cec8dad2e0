-- ===== src/Sat/Lazy/Subsumed.antt =====
-- sat.c: `sat_clause_istrue`, the test whether a clause of the store subsumes a new one.
use smchr.Prelude.{
  ℕ, ◌≡◌, ◌<◌, Bool, true, false, ◌&&◌, ◌||◌, List, [], ◌∷◌, arith, if◌then◌else◌, Bool-cases, inl,
  inr, occurrences,
}
use smchr.Sat.Literal.{Literal, literal_eq}
use smchr.Sat.State.{Sat, literal_istrue, literal_isfalse, literal_isfree, literal_getwatch}
use smchr.Sat.Model.{Model, value, satisfied, clause_holds, ModelOf, Agrees, value_of_isfalse}
use smchr.Sat.Propagate.Watches.{Watched, watched_by}

-- `found`: the literal is among the unassigned ones that the clause begins with.
unfoldable pub free_member : Sat → Literal → List Literal → Bool
free_member s lit [] = false
free_member s lit (l ∷ ls) =
    let rest = free_member s lit ls in literal_isfree s l && (literal_eq lit l || rest)

-- The loop over the literals of a clause of the store, which ends at its end (`k >= clause->length`).
unfoldable pub subsumes : Sat → Literal → List Literal → List Literal → Bool
subsumes s lit_i lits [] = true
subsumes s lit_i lits (lit ∷ ls) =
    let rest = subsumes s lit_i lits ls in
    let covered = if free_member s lit lits then rest else false in
    if literal_eq lit lit_i
    then rest
    else if literal_isfalse s lit
    then rest
    else if literal_istrue s lit
    then false
    else covered

-- The loop over a watch list.
unfoldable pub any_subsumes : Sat → Literal → List Literal → List ℕ → Bool
any_subsumes s lit_i lits [] = false
any_subsumes s lit_i lits (c ∷ cs) =
    let rest = any_subsumes s lit_i lits cs in
    if subsumes s lit_i lits (s.heap c) then true else rest

-- The loop over the unassigned literals that the clause begins with.
unfoldable pub istrue_from : Sat → List Literal → List Literal → Bool
istrue_from s lits [] = false
istrue_from s lits (l ∷ ls) =
    let rest = istrue_from s lits ls in
    let here = any_subsumes s l lits (literal_getwatch s l).clauses in
    if literal_isfree s l then (if here then true else rest) else false

unfoldable pub sat_clause_istrue : Sat → List Literal → Bool
sat_clause_istrue s lits = istrue_from s lits lits

module _ (m : Model) (s : Sat) (agrees : Agrees m s) where
  value-literal_eq : (a b : Literal) → literal_eq a b ≡ true → value m a ≡ value m b
  value-literal_eq a b h = ground arith

  free_member-satisfied :
      (lit : Literal) (lits : List Literal)
      → free_member s lit lits ≡ true
      → value m lit ≡ true
      → satisfied m lits ≡ true
  unfolding free_member
  free_member-satisfied lit [] h v = ground arith
  free_member-satisfied lit (l ∷ ls) h v =
      ground (arith, value-literal_eq lit l, free_member-satisfied lit ls)

  -- A clause that holds and subsumes makes the new clause hold.
  subsumes-satisfied :
      (lit_i : Literal) (lits clause : List Literal)
      → (value m lit_i ≡ true → satisfied m lits ≡ true)
      → subsumes s lit_i lits clause ≡ true
      → satisfied m clause ≡ true
      → satisfied m lits ≡ true
  unfolding subsumes
  subsumes-satisfied lit_i lits [] f h v = ground arith
  subsumes-satisfied lit_i lits (l ∷ ls) f h v = ground (
    arith,
    f,
    value-literal_eq l lit_i,
    value_of_isfalse m s l agrees,
    free_member-satisfied l lits,
    subsumes-satisfied lit_i lits ls f,
  )

  any_subsumes-satisfied :
      (lit_i : Literal) (lits : List Literal) (cs : List ℕ)
      → (value m lit_i ≡ true → satisfied m lits ≡ true)
      → ((c : ℕ) → 0 < occurrences c cs → satisfied m (s.heap c) ≡ true)
      → any_subsumes s lit_i lits cs ≡ true
      → satisfied m lits ≡ true
  unfolding any_subsumes
  any_subsumes-satisfied lit_i lits [] f g h = ground arith
  any_subsumes-satisfied lit_i lits (c ∷ cs) f g h =
      elim (Bool-cases (subsumes s lit_i lits (s.heap c))) [
        | inl e ↦ subsumes-satisfied lit_i lits (s.heap c) f e (g c (ground arith))
        | inr e ↦
            any_subsumes-satisfied lit_i lits cs f (λ d o. g d (omega arith)) (ground (arith, e))
      ]

  watched_by-satisfied :
      (l : Literal) (lits : List Literal)
      → 0 < watched_by l lits
      → clause_holds m lits ≡ true
      → satisfied m lits ≡ true
  watched_by-satisfied l [] h c = ground arith
  watched_by-satisfied l (a ∷ lits) h c = c

  istrue_from-satisfied :
      (lits ls : List Literal)
      → Watched s
      → ModelOf m s
      → (satisfied m ls ≡ true → satisfied m lits ≡ true)
      → istrue_from s lits ls ≡ true
      → satisfied m lits ≡ true
  unfolding istrue_from
  istrue_from-satisfied lits [] w o f h = ground arith
  istrue_from-satisfied lits (l ∷ ls) w o f h =
      elim (Bool-cases (any_subsumes s l lits (literal_getwatch s l).clauses)) [
        | inl e ↦
            any_subsumes-satisfied l lits (literal_getwatch s l).clauses
              (λ v. f (ground (arith, v)))
              (λ c g. watched_by-satisfied l (s.heap c) (omega (arith, w l c)) (o c)) e
        | inr e ↦ istrue_from-satisfied lits ls w o (λ v. f (ground (arith, v))) (ground (arith, e))
      ]

-- When `sat_clause_istrue` calls a clause redundant, under the watch invariant, every truth assignment
-- that satisfies the clauses and agrees with what is assigned satisfies the clause.
pub clause_istrue-satisfied :
    (m : Model) (s : Sat) (lits : List Literal)
    → Watched s
    → ModelOf m s
    → Agrees m s
    → sat_clause_istrue s lits ≡ true
    → satisfied m lits ≡ true
unfolding sat_clause_istrue
clause_istrue-satisfied m s lits w o a h = istrue_from-satisfied m s a lits lits w o (λ v. v) h
