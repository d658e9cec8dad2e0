-- ===== src/Sat/Literal.antt =====
-- sat.h, literals. A `literal_t` is a 32-bit signed integer: `v + 1` for the variable in slot `v`
-- of `sat_vars`, `-(v + 1)` for its negation, and 0 (LITERAL_NIL) for no literal. A literal that is
-- not nil is the record `Literal` of its slot and sign; a literal that may be nil is an `Option`.
use smchr.Prelude.{ℕ, ◌+◌, ◌≡◌, ◌↔◌, Bool, true, false, not, ◌&&◌, arith, same, ◌==◌, bit}

pub record Literal : Type 0 where
  pub index : ℕ
  pub neg : Bool

abbrev pub positive : ℕ → Literal
positive v = record { index = v; neg = false }

abbrev pub negative : ℕ → Literal
negative v = record { index = v; neg = true }

-- LITERAL_TRUE (1) and LITERAL_FALSE (-1): variable 0 and its negation.
abbrev pub literal_true : Literal
literal_true = positive 0

abbrev pub literal_false : Literal
literal_false = negative 0

-- `-lit`
abbrev pub literal_negate : Literal → Literal
literal_negate l = record l { neg = not l.neg }

-- `a == b` on the integers
abbrev pub literal_eq : Literal → Literal → Bool
literal_eq a b = (a.index == b.index) && same a.neg b.neg

pub literal_eq_iff : (a b : Literal) → (literal_eq a b ≡ true) ↔ (a ≡ b)
literal_eq_iff a b = ground arith

pub literal_eq_self : (a : Literal) → literal_eq a a ≡ true
literal_eq_self a = ground arith

pub literal_eq_negate : (a : Literal) → literal_eq (literal_negate a) a ≡ false
literal_eq_negate a = ground arith

-- How often a literal stands in the first two places of a clause.
abbrev pub heads : Literal → Literal → Literal → ℕ
heads l a b = bit (literal_eq a l) + bit (literal_eq b l)
