-- ===== src/Sat/State.antt =====
-- sat.h and sat.c: the state of the solver, and the reads and writes of a literal's variable.
-- `sat_vars`, `sat_trail`, `sat_choices` and `sat_order` are buffers of fixed size that are filled
-- from the front, so each is a function of the index beside its length. A clause is an object that
-- watch lists and reasons share and that propagation reorders in place, so clauses stand in a heap
-- under their addresses. `name` and `var`, which only printing reads, are left out.
use smchr.Prelude.{
  ℕ, ◌+◌, Bool, true, false, not, ◌&&◌, Option, none, some, List, [], ◌∷◌, ◌++◌, same, ltb,
  if◌then◌else◌, update, length, ◌*◌, ◌%◌, ◌^◌, leb,
}
use smchr.Sat.Literal.{Literal}

-- struct watch_s: the capacity of `clauses`, and its first `length` entries, addresses of clauses.
pub record Watch : Type 0 where
  pub size : ℕ
  pub clauses : List ℕ

-- struct variable_s
pub record Variable : Type 0 where
  pub set : Bool
  pub sign : Bool
  pub mark : Bool
  pub unit : Bool
  pub unit_sign : Bool
  pub lazy : Bool
  pub dlevel : ℕ
  pub reason : Option ℕ
  pub watches : Bool → Watch
  pub activity : ℕ
  pub order : ℕ
  pub cons : Option ℕ

-- The file's static variables. `decided` lists, last first, the constraints for which `literal_set`
-- called `solver_event_decision` and `solver_store_insert`. `heap_length` addresses are in use.
pub record Sat : Type 0 where
  pub vars : ℕ → Variable
  pub vars_length : ℕ
  pub solving : Bool
  pub empty : Bool
  pub tlevel : ℕ
  pub dlevel : ℕ
  pub trail : ℕ → Literal
  pub heap : ℕ → List Literal
  pub heap_length : ℕ
  pub clauses : List ℕ
  pub next_clause : Option ℕ
  pub order : ℕ → ℕ
  pub next_var : ℕ
  pub last_var : Option ℕ
  pub decided : List ℕ

-- `literal_getvar`
abbrev pub literal_getvar : Sat → Literal → Variable
literal_getvar s l = s.vars l.index

abbrev pub put_var : Sat → ℕ → Variable → Sat
put_var s i v = record s { vars = update s.vars i v }

abbrev pub literal_istrue : Sat → Literal → Bool
literal_istrue s l = (literal_getvar s l).set && same (literal_getvar s l).sign l.neg

abbrev pub literal_isfalse : Sat → Literal → Bool
literal_isfalse s l = (literal_getvar s l).set && same (literal_getvar s l).sign (not l.neg)

abbrev pub literal_isfree : Sat → Literal → Bool
literal_isfree s l = not (literal_getvar s l).set

abbrev pub literal_getdlevel : Sat → Literal → ℕ
literal_getdlevel s l = (literal_getvar s l).dlevel

abbrev pub literal_getmark : Sat → Literal → Bool
literal_getmark s l = (literal_getvar s l).mark

unfoldable pub literal_setmark : Sat → Literal → Bool → Sat
literal_setmark s l mark = put_var s l.index (record (literal_getvar s l) { mark = mark })

unfoldable pub literal_setunit : Sat → Literal → Sat
literal_setunit s l =
    put_var s l.index (record (literal_getvar s l) { unit = true; unit_sign = l.neg })

abbrev pub literal_isunit : Sat → Literal → Bool
literal_isunit s l = (literal_getvar s l).unit && same (literal_getvar s l).unit_sign l.neg

abbrev pub literal_getwatch : Sat → Literal → Watch
literal_getwatch s l = (literal_getvar s l).watches l.neg

unfoldable pub literal_setwatch : Sat → Literal → Watch → Sat
literal_setwatch s l w = put_var s l.index (record (literal_getvar s l) {
  watches = λ neg. if same l.neg neg then w else (literal_getvar s l).watches neg;
})

abbrev note_decided : Option ℕ → List ℕ → List ℕ
note_decided none cs = cs
note_decided (some c) cs = c ∷ cs

-- `literal_set`: assign the literal, push it on the trail, and tell the theory side.
unfoldable pub literal_set : Sat → Literal → Option ℕ → Sat
literal_set s l reason =
    let var = literal_getvar s l in
    record (put_var s l.index
      (record var { sign = l.neg; set = true; dlevel = s.dlevel; reason = reason })) {
        trail = update s.trail s.tlevel l;
        tlevel = s.tlevel + 1;
        decided = note_decided var.cons s.decided;
      }

-- `literal_unset`: the sign, the level and the reason stay in the record.
unfoldable pub literal_unset : Sat → Literal → Sat
literal_unset s l =
    let var = literal_getvar s l in
    record (put_var s l.index (record var { set = false })) {
      next_var = if ltb var.order s.next_var then var.order else s.next_var;
    }

-- `sat_watch_new`
abbrev pub sat_watch_new : Watch
sat_watch_new = record { size = 4; clauses = [] }

-- The list that `literal_addwatch` leaves: it doubles the capacity (a uint32_t) when the next entry
-- would be the last that fits.
unfoldable pub push_watch : Watch → ℕ → Watch
push_watch w c =
    let size = if leb w.size (length w.clauses + 1) then w.size * 2 % 2 ^ 32 else w.size in
    record { size = size; clauses = w.clauses ++ c ∷ [] }

-- `literal_addwatch`
unfoldable pub literal_addwatch : Sat → Literal → ℕ → Sat
literal_addwatch s l c = literal_setwatch s l (push_watch (literal_getwatch s l) c)
