-- ===== src/Sat/Lazy.antt =====
-- sat.c: `sat_clause_insert_literal`, which `sat_lazy_clause` builds a clause with while the solver
-- runs. The array is the list of its first `idx` literals.
pub mod Sorted
pub mod Subsumed
use smchr.Prelude.{ℕ, Bool, true, false, not, ◌&&◌, ◌||◌, List, [], ◌∷◌, ◌++◌, ltb, if◌then◌else◌}
use smchr.Sat.Literal.{Literal}
use smchr.Sat.State.{Sat, literal_istrue, literal_isfalse, literal_isfree, literal_getdlevel}

-- Case 1: the literal becomes lits[0], or lits[1].
unfoldable pub insert_second : Sat → Literal → Literal → List Literal
insert_second s l0 lit =
    if literal_istrue s lit
    then (if literal_istrue s l0 && ltb (literal_getdlevel s l0) (literal_getdlevel s lit)
        then l0 ∷ lit ∷ []
        else lit ∷ l0 ∷ [])
    else if literal_isfree s lit
    then (if literal_istrue s l0 then l0 ∷ lit ∷ [] else lit ∷ l0 ∷ [])
    else if literal_isfalse s l0 && ltb (literal_getdlevel s l0) (literal_getdlevel s lit)
    then lit ∷ l0 ∷ []
    else l0 ∷ lit ∷ []

-- The default case, with the literals behind lits[1].
unfoldable pub insert_later : Sat → Literal → Literal → List Literal → Literal → List Literal
insert_later s l0 l1 rest lit =
    let in_front = lit ∷ l0 ∷ (rest ++ l1 ∷ []) in
    let second = l0 ∷ lit ∷ (rest ++ l1 ∷ []) in
    let behind = l0 ∷ l1 ∷ (rest ++ lit ∷ []) in
    let above0 = ltb (literal_getdlevel s l0) (literal_getdlevel s lit) in
    let above1 = literal_isfalse s l1 && ltb (literal_getdlevel s l1) (literal_getdlevel s lit) in
    if literal_istrue s lit
    then (if not (literal_istrue s l0) || ltb (literal_getdlevel s lit) (literal_getdlevel s l0)
        then in_front
        else second)
    else if literal_isfree s lit
    then (if not (literal_istrue s l0) then in_front else second)
    else if literal_isfalse s l0
    then (if above0 then in_front else if above1 then second else behind)
    else if above1
    then second
    else behind

unfoldable pub sat_clause_insert_literal : Sat → List Literal → Literal → List Literal
sat_clause_insert_literal s [] lit = lit ∷ []
sat_clause_insert_literal s (l0 ∷ []) lit = insert_second s l0 lit
sat_clause_insert_literal s (l0 ∷ l1 ∷ rest) lit = insert_later s l0 l1 rest lit
