-- ===== src/Sat/Model.antt =====
-- What the clauses mean: truth assignments of the variables, and the clauses that they satisfy.
use smchr.Prelude.{ℕ, ◌≡◌, Bool, true, false, not, ◌||◌, List, [], ◌∷◌, arith, if◌then◌else◌}
use smchr.Sat.Literal.{Literal, literal_negate}
use smchr.Sat.State.{Sat, literal_istrue, literal_isfalse}

-- The truth value that each variable has.
abbrev pub Model : Type 0
Model = ℕ → Bool

abbrev pub value : Model → Literal → Bool
value m l = if l.neg then not (m l.index) else m l.index

abbrev pub satisfied : Model → List Literal → Bool
satisfied m [] = false
satisfied m (l ∷ ls) = value m l || satisfied m ls

-- An address that is not in use holds the empty list, which stands for no clause.
abbrev pub clause_holds : Model → List Literal → Bool
clause_holds m [] = true
clause_holds m (l ∷ ls) = satisfied m (l ∷ ls)

-- `m` satisfies the clauses of `s`.
abbrev pub ModelOf : Model → Sat → Type 0
ModelOf m s = (c : ℕ) → clause_holds m (s.heap c) ≡ true

-- `m` has the values that `s` has assigned.
abbrev pub Agrees : Model → Sat → Type 0
Agrees m s = (v : ℕ) → (s.vars v).set ≡ true → (s.vars v).sign ≡ not (m v)

pub value-negate : (m : Model) (l : Literal) → value m (literal_negate l) ≡ not (value m l)
value-negate m l = ground arith

pub value_of_isfalse :
    (m : Model) (s : Sat) (l : Literal)
    → Agrees m s
    → literal_isfalse s l ≡ true
    → value m l ≡ false
value_of_isfalse m s l h e = ground (arith, h l.index)

pub value_of_istrue :
    (m : Model) (s : Sat) (l : Literal) → Agrees m s → literal_istrue s l ≡ true → value m l ≡ true
value_of_istrue m s l h e = ground (arith, h l.index)
