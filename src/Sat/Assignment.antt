-- ===== src/Sat/Assignment.antt =====
-- What the operations of `Sat.State` and the moves of a watch do to the assignment.
use smchr.Prelude.{
  ℕ, ◌+◌, ◌≡◌, ◌∙◌, refl, Bool, true, Option, List, arith, ◌==◌, if◌then◌else◌, update,
}
use smchr.Sat.Literal.{Literal}
use smchr.Sat.State.{
  Watch, Sat, literal_isfalse, literal_isfree, literal_setwatch, literal_set, literal_addwatch,
  literal_setmark,
}
use smchr.Sat.Propagate.{move_watch}

-- The variable is set in `s`, with the sign `neg`.
abbrev pub Assigned : Sat → ℕ → Bool → Type 0
Assigned s v neg = ((s.vars v).set ≡ true) × ((s.vars v).sign ≡ neg)

-- No assignment of `s` is changed in `t`.
abbrev pub Keeps : Sat → Sat → Type 0
Keeps s t = (v : ℕ) (neg : Bool) → Assigned s v neg → Assigned t v neg

-- `s` and `t` assign the same.
abbrev pub SameAssignment : Sat → Sat → Type 0
SameAssignment s t =
    (v : ℕ) → ((t.vars v).set ≡ (s.vars v).set) × ((t.vars v).sign ≡ (s.vars v).sign)

pub setwatch-SameAssignment :
    (s : Sat) (l : Literal) (w : Watch) → SameAssignment s (literal_setwatch s l w)
unfolding literal_setwatch
setwatch-SameAssignment s l w v = ground arith

pub addwatch-SameAssignment :
    (s : Sat) (l : Literal) (c : ℕ) → SameAssignment s (literal_addwatch s l c)
unfolding literal_addwatch
addwatch-SameAssignment s l c = setwatch-SameAssignment s l _

pub setmark-SameAssignment :
    (s : Sat) (l : Literal) (b : Bool) → SameAssignment s (literal_setmark s l b)
unfolding literal_setmark
setmark-SameAssignment s l b v = ground arith

pub move-SameAssignment :
    (s : Sat) (lit : Literal) (i c : ℕ) (lits : List Literal) (new : Literal)
    → SameAssignment s (move_watch s lit i c lits new)
unfolding move_watch
move-SameAssignment s lit i c lits new v =
    let s0 = record s { heap = update s.heap c lits } in
    let s1 = literal_addwatch s0 new c in
    let p = addwatch-SameAssignment s0 new c v in
    let q = setwatch-SameAssignment s1 lit _ v in (q.0 ∙ p.0, q.1 ∙ p.1)

pub set-Keeps :
    (s : Sat) (l : Literal) (r : Option ℕ) → literal_isfree s l ≡ true → Keeps s (literal_set s l r)
unfolding literal_set
set-Keeps s l r free v neg a = ground arith

-- After `literal_set` the literal is true, its negation false, and the others are as before.
pub set-vars :
    (s : Sat) (l : Literal) (r : Option ℕ) (v : ℕ)
    → (((literal_set s l r).vars v).set ≡ (if l.index == v then true else (s.vars v).set))
      × (((literal_set s l r).vars v).sign ≡ (if l.index == v then l.neg else (s.vars v).sign))
unfolding literal_set
set-vars s l r v = ground arith

pub tlevel-set : (s : Sat) (l : Literal) (r : Option ℕ) → (literal_set s l r).tlevel ≡ s.tlevel + 1
unfolding literal_set
tlevel-set s l r = refl

pub vars-length-set :
    (s : Sat) (l : Literal) (r : Option ℕ) → (literal_set s l r).vars_length ≡ s.vars_length
unfolding literal_set
vars-length-set s l r = refl

-- A false literal stays false when a free one is set.
pub isfalse-set :
    (s : Sat) (l lit : Literal) (r : Option ℕ)
    → literal_isfree s l ≡ true
    → literal_isfalse s lit ≡ true
    → literal_isfalse (literal_set s l r) lit ≡ true
isfalse-set s l lit r free f = ground (arith, set-vars s l r lit.index)

pub isfalse_of_same :
    (s t : Sat) (lit : Literal)
    → SameAssignment s t
    → literal_isfalse s lit ≡ true
    → literal_isfalse t lit ≡ true
isfalse_of_same s t lit h f = ground (arith, h lit.index)

pub trail-set :
    (s : Sat) (l : Literal) (r : Option ℕ) (k : ℕ)
    → (literal_set s l r).trail k ≡ (if s.tlevel == k then l else s.trail k)
unfolding literal_set
trail-set s l r k = refl

module _ (s : Sat) (lit : Literal) (i c : ℕ) (lits : List Literal) (new : Literal) where
  pub tlevel-move : (move_watch s lit i c lits new).tlevel ≡ s.tlevel
  unfolding move_watch literal_addwatch literal_setwatch
  tlevel-move = refl

  pub vars-length-move : (move_watch s lit i c lits new).vars_length ≡ s.vars_length
  unfolding move_watch literal_addwatch literal_setwatch
  vars-length-move = refl

  pub trail-move : (move_watch s lit i c lits new).trail ≡ s.trail
  unfolding move_watch literal_addwatch literal_setwatch
  trail-move = refl
