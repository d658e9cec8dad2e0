-- ===== src/Sat/Select/Scan.antt =====
-- sat.c: which variables `sat_select_literal` passes over, and what it finds.
use smchr.Prelude.{
  ℕ, zero, suc, ◌+◌, ◌<◌, ◌≤◌, ◌≡◌, ◌∙◌, refl, ◌⊎◌, inl, inr, true, false, Option, none, some, List,
  [], ◌∷◌, arith, ◌==◌, occurrences, Option-cases, Bool-cases,
}
use smchr.Sat.Literal.{Literal, positive, literal_negate}
use smchr.Sat.State.{Sat, literal_isfree, literal_getwatch}
use smchr.Sat.Select.{Random, any_true, score, sat_should_select_literal, vsids, first_related}

-- A variable that needs no decision: it is set, or each clause that it watches has a true literal.
abbrev pub Done : Sat → ℕ → Type 0
Done s v =
    ((s.vars v).set ≡ true)
    ⊎ ((score s ((s.vars v).watches false).clauses ≡ 0)
        × (score s ((s.vars v).watches true).clauses ≡ 0))

-- A literal worth a decision: it is free, it watches a clause without a true literal, and as many of them
-- as its negation or more.
abbrev pub Worth : Sat → Literal → Type 0
Worth s l =
    (literal_isfree s l ≡ true)
    × (0 < score s (literal_getwatch s l).clauses)
    × (score s (literal_getwatch s (literal_negate l)).clauses
        ≤ score s (literal_getwatch s l).clauses)

pub score-zero :
    (s : Sat) (cs : List ℕ) (c : ℕ)
    → score s cs ≡ 0
    → 0 < occurrences c cs
    → any_true s (s.heap c) ≡ true
unfolding score
score-zero s [] c e p = ground arith
score-zero s (d ∷ cs) c e p = ground (arith, score-zero s cs c)

should-none :
    (s : Sat) (r : Random) (lit : Literal)
    → (sat_should_select_literal s r (some lit)).0 ≡ none
    → Done s lit.index
unfolding sat_should_select_literal
should-none s r lit e = ground arith

-- The literals of a list, LITERAL_NIL left out, are not negated.
abbrev pub AllPositive : List (Option Literal) → Type 0
AllPositive [] = Unit
AllPositive (none ∷ ds) = AllPositive ds
AllPositive (some d ∷ ds) = (d.neg ≡ false) × AllPositive ds

should-Worth :
    (s : Sat) (r : Random) (lit l : Literal)
    → lit.neg ≡ false
    → (sat_should_select_literal s r (some lit)).0 ≡ some l
    → Worth s l
unfolding sat_should_select_literal
should-Worth s r lit l p e = ground arith

should-index :
    (s : Sat) (r : Random) (lit l : Literal)
    → (sat_should_select_literal s r (some lit)).0 ≡ some l
    → l.index ≡ lit.index
unfolding sat_should_select_literal
should-index s r lit l e = ground arith

-- What the loop over the places from `i` says of `n` places: all are done, or the one before the new
-- `next_var` holds the variable of a literal worth a decision and those before it are done.
abbrev pub ScanFinds : Sat → ℕ → ℕ → Option Literal × Sat × Random → Type 0
ScanFinds s n i (none, s', r) = (s' ≡ s) × ((k : ℕ) → i ≤ k → k < i + n → Done s (s.order k))
ScanFinds s n i (some l, s', r) =
    (k : ℕ) × (i ≤ k)
    × (k < i + n)
    × (s' ≡ record s { next_var = suc k })
    × (l.index ≡ s.order k)
    × Worth s l
    × ((j : ℕ) → i ≤ j → j < k → Done s (s.order j))

Done-first :
    (s : Sat) (i : ℕ) (P : ℕ → Type 0)
    → Done s (s.order i)
    → ((k : ℕ) → suc i ≤ k → P k → Done s (s.order k))
    → (k : ℕ) → i ≤ k
    → P k
    → Done s (s.order k)
Done-first s i P d h k l p = elim (Bool-cases (i == k)) [
  | inl e ↦ let z : i ≡ k = ground arith in rw (← z) d
  | inr e ↦ h k (ground arith) p
]

ScanFinds-suc :
    (s : Sat) (n i : ℕ) (p : Option Literal × Sat × Random)
    → Done s (s.order i)
    → ScanFinds s n (suc i) p
    → ScanFinds s (suc n) i p
ScanFinds-suc s n i (none, s', r) d (e, h) =
    (e, Done-first s i (λ k. k < i + suc n) d (λ k l q. h k l (omega arith)))
ScanFinds-suc s n i (some l, s', r) d (k, le, lt, e, x, w, h) =
    (k, omega arith, omega arith, e, x, w, Done-first s i (λ j. j < k) d h)

pub vsids-ScanFinds : (n : ℕ) (s : Sat) (r : Random) (i : ℕ) → ScanFinds s n i (vsids n s r i)
unfolding vsids
vsids-ScanFinds zero s r i = (refl, λ k l q. let bad : ⊥ = omega arith in elim bad [ ])
vsids-ScanFinds (suc n) s r i =
    let lit = positive (s.order i) in
    let (d, r') = sat_should_select_literal s r (some lit) in
    let rest = vsids-ScanFinds n s r' (suc i) in
    elim (Option-cases d) [
      | inl e ↦
          rw (vsids, e) (ScanFinds-suc s n i (vsids n s r' (suc i)) (should-none s r lit e) rest)
      | inr (l, e) ↦
          rw (vsids, e)
            (
              i,
              omega arith,
              omega arith,
              refl,
              should-index s r lit l e,
              should-Worth s r lit l refl e,
              λ j le lt. let bad : ⊥ = omega arith in elim bad [ ],
            )
    ]

pub first_related-Worth :
    (s : Sat) (r : Random) (ds : List (Option Literal)) (l : Literal)
    → AllPositive ds
    → (first_related s r ds).0 ≡ some l
    → Worth s l
unfolding first_related sat_should_select_literal
first_related-Worth s r [] l p e = ground (arith, e)
first_related-Worth s r (none ∷ ds) l p e = first_related-Worth s r ds l p e
first_related-Worth s r (some d ∷ ds) l (q, p) e =
    let (x, r') = sat_should_select_literal s r (some d) in
    elim (Option-cases x) [
      | inl f ↦ first_related-Worth s r' ds l p (rw (first_related, f) at e)
      | inr (y, f) ↦
          let found : some y ≡ some l = rw (first_related, f) at e in
          should-Worth s r d l q (f ∙ found)
    ]
