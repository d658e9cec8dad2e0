-- ===== src/Sat/Select/Solved.antt =====
-- sat.c: what `sat_select_literal` answers: LITERAL_NIL when nothing is left to decide, or a literal; and what
-- its decision does to the places before `sat_next_var`.
use smchr.Prelude.{
  ℕ, suc, ◌-◌, ◌<◌, ◌≤◌, ◌≡◌, refl, sym, subst, ◌⊎◌, inl, inr, true, false, Option, none, some,
  List, [], ◌∷◌, arith, ltb, ◌==◌, if◌then◌else◌, occurrences, Option-cases, Bool-cases,
}
use smchr.Sat.Literal.{Literal, positive, negative, literal_eq_self}
use smchr.Sat.State.{Sat, literal_isfalse, literal_isfree, literal_getwatch, literal_set}
use smchr.Sat.Model.{Model, satisfied, Agrees, value_of_istrue}
use smchr.Sat.Assignment.{set-vars}
use smchr.Sat.Propagate.Watches.{watched_by, getwatch-set, heap-set}
use smchr.Sat.Propagate.Loop.{AllBelow}
use smchr.Sat.Propagate.Ends.{Ready}
use smchr.Sat.Select.{
  Random, any_true, score, vsids, first_related, related_last, found_literal, sat_select_literal,
}
use smchr.Sat.Select.Scan.{
  Done, Worth, AllPositive, score-zero, vsids-ScanFinds, first_related-Worth,
}

-- Every variable stands at its place of the order.
abbrev pub Placed : Sat → Type 0
Placed s =
    (v : ℕ)
    → v < s.vars_length
    → ((s.vars v).order < s.vars_length) × (s.order (s.vars v).order ≡ v)

-- The variables at the places before `sat_next_var` need no decision.
abbrev pub Passed : Sat → Type 0
Passed s = (k : ℕ) → k < s.next_var → Done s (s.order k)

-- A clause whose first watched literal is false has a true literal.
abbrev pub Settled : Sat → Type 0
Settled s =
    (c : ℕ) (a b : Literal) (rest : List Literal)
    → s.heap c ≡ a ∷ b ∷ rest
    → literal_isfalse s a ≡ true
    → any_true s (s.heap c) ≡ true

Done-watch :
    (s : Sat) (l : Literal) (c : ℕ)
    → Done s l.index
    → literal_isfree s l ≡ true
    → 0 < occurrences c (literal_getwatch s l).clauses
    → any_true s (s.heap c) ≡ true
Done-watch s l c d f p = ground (arith, score-zero s (literal_getwatch s l).clauses c)

any_true-satisfied :
    (m : Model) (s : Sat) (ls : List Literal)
    → Agrees m s
    → any_true s ls ≡ true
    → satisfied m ls ≡ true
unfolding any_true
any_true-satisfied m s [] h e = ground (arith, e)
any_true-satisfied m s (l ∷ ls) h e =
    ground (arith, value_of_istrue m s l h, any_true-satisfied m s ls h)

-- The state after the choice: a variable is noted as the last, and `sat_next_var` has changed.
abbrev pub Noted : Sat → ℕ → Literal → Sat
Noted s n l = record s { next_var = n; last_var = some l.index }

-- LITERAL_NIL leaves the state as it is; a literal is worth a decision, and after the decision the places
-- before the new `sat_next_var` need none.
abbrev pub Selected : Sat → Option Literal × Sat × Random → Type 0
Selected s (none, s', r) = s' ≡ s
Selected s (some l, s', r) =
    Worth s l × (s' ≡ Noted s s'.next_var l) × Passed (literal_set s' l none)

module _ (s : Sat) (n : ℕ) (l : Literal) (free : literal_isfree s l ≡ true) where
  abbrev after : Sat
  after = literal_set (Noted s n l) l none

  any_true-after : (ls : List Literal) → any_true s ls ≡ true → any_true after ls ≡ true
  unfolding any_true
  any_true-after [] e = e
  any_true-after (k ∷ ls) e =
      ground (arith, any_true-after ls, set-vars (Noted s n l) l none k.index)

  score-after : (cs : List ℕ) → score s cs ≡ 0 → score after cs ≡ 0
  unfolding score
  score-after [] e = refl
  score-after (c ∷ cs) e =
      let same = sym (heap-set (Noted s n l) l none) in
      let kept : any_true s (s.heap c) ≡ true → any_true after (after.heap c) ≡ true = λ t.
        subst (λ (h : ℕ → List Literal). any_true after (h c) ≡ true) same
          (any_true-after (s.heap c) t) in
      ground (arith, score-after cs, kept)

  Done-after : (v : ℕ) → Done s v → Done after v
  unfolding literal_set
  Done-after v (inl e) = inl (ground (arith, e))
  Done-after v (inr (e, f)) = inr (
    rw (getwatch-set (Noted s n l) l (positive v) none)
        (score-after ((s.vars v).watches false).clauses e),
    rw (getwatch-set (Noted s n l) l (negative v) none)
        (score-after ((s.vars v).watches true).clauses f),
  )

  -- The variable of the literal may stand behind the places that are done.
  Passed-after : ((k : ℕ) → k < n → Done s (s.order k) ⊎ (l.index ≡ s.order k)) → Passed after
  unfolding literal_set
  Passed-after h k p = elim (h k p) [
    | inl d ↦ Done-after (s.order k) d
    | inr e ↦ inl (ground (arith, e))
  ]

module _ (related : ℕ → List (Option Literal))
    (positive_related : (c : ℕ) → AllPositive (related c)) (s : Sat) (r : Random) where
  related_last-AllPositive : (t : Sat) → AllPositive (related_last related t)
  related_last-AllPositive t = elim (Option-cases t.last_var) [
    | inl e ↦ rw (related_last, e) tt
    | inr (v, e) ↦ elim (Option-cases (t.vars v).cons) [
      | inl f ↦ rw (related_last, e, f) tt
      | inr (c, f) ↦ rw (related_last, e, f) (positive_related c)
    ]
  ]

  candidates-AllPositive :
      (t : Sat) (v : ℕ)
      → AllPositive (if (t.vars v).activity == 0 then related_last related t else [])
  candidates-AllPositive t v = elim (Bool-cases ((t.vars v).activity == 0)) [
    | inl e ↦ rw e (related_last-AllPositive t)
    | inr e ↦ rw e tt
  ]

  -- Where the loop over the places stopped at `lit` in the place `k`.
  found_literal-Selected :
      (k : ℕ) (lit : Literal)
      → lit.index ≡ s.order k
      → Worth s lit
      → ((j : ℕ) → j < k → Done s (s.order j))
      → (r' : Random)
      → let (l, s', r2) = found_literal related (record s { next_var = suc k }) r' lit in
        Selected s (some l, s', r2)
  unfolding found_literal score any_true
  found_literal-Selected k lit at w done r' =
      let s1 = record s { next_var = suc k } in
      let ds = if (s.vars lit.index).activity == 0 then related_last related s1 else [] in
      elim (Option-cases (first_related s1 r' ds).0) [
        | inl e ↦
            rw (found_literal, e)
              (
                w,
                refl,
                Passed-after s (suc k) lit w.0 (λ j p. elim (Bool-cases (j == k)) [
                  | inl z ↦ let same : j ≡ k = ground arith in inr (rw same at)
                  | inr z ↦ inl (done j (ground arith))
                ]),
              )
        | inr (l, e) ↦
            let v = first_related-Worth s1 r' ds l (candidates-AllPositive s1 lit.index) e in
            rw (found_literal, e)
              (v, refl, Passed-after s (suc k - 1) l v.0 (λ j p. inl (done j (omega (arith, p)))))
      ]

  Done-before :
      (k : ℕ)
      → Passed s
      → ((j : ℕ) → s.next_var ≤ j → j < k → Done s (s.order j))
      → (j : ℕ) → j < k
      → Done s (s.order j)
  Done-before k passed done j p = elim (Bool-cases (ltb j s.next_var)) [
    | inl e ↦ passed j (ground arith)
    | inr e ↦ done j (ground arith) p
  ]

  -- A choice of `sat_select_literal`: LITERAL_NIL with the state as it was, or a literal that is free and
  -- watches a clause without a true literal, and as many as its negation or more. If the variables
  -- before `sat_next_var` need no decision, the same holds after the literal has been set. The literals
  -- of the constraints are not negated.
  pub select-Selected : Passed s → Selected s (sat_select_literal related s r)
  unfolding sat_select_literal
  select-Selected passed =
      let n = s.vars_length - s.next_var in
      let (d, s1, r1) = vsids n s r s.next_var in
      let scan = vsids-ScanFinds n s r s.next_var in
      elim (Option-cases d) [
        | inl e ↦ rw (sat_select_literal, e) (rw e at scan).0
        | inr (l, e) ↦
            let (k, le, lt, same, at, w, done) = rw e at scan in
            rw (sat_select_literal, e, same)
              (found_literal-Selected k l at w (Done-before k passed done) r1)
      ]

module _ (related : ℕ → List (Option Literal)) (s : Sat) (r : Random) (ready : Ready s)
    (placed : Placed s) (passed : Passed s) (settled : Settled s)
    (nil : (sat_select_literal related s r).0 ≡ none) where
  all_Done : (v : ℕ) → v < s.vars_length → Done s v
  unfolding sat_select_literal
  all_Done v p =
      let n = s.vars_length - s.next_var in
      let scan = vsids-ScanFinds n s r s.next_var in
      let (q, at) = placed v p in
      elim (Option-cases (vsids n s r s.next_var).0) [
        | inl e ↦
            let rest = rw e at scan in
            elim (Bool-cases (ltb (s.vars v).order s.next_var)) [
              | inl f ↦ rw at at (passed (s.vars v).order (ground arith))
              | inr f ↦ rw at at (rest.1 (s.vars v).order (ground arith) (ground (arith, f, q)))
            ]
        | inr (l, e) ↦
            let bad : ⊥ = ground (arith, rw (sat_select_literal, e) at nil) in elim bad [ ]
      ]

  first_true :
      (a : Literal) (ls : List Literal)
      → literal_isfree s a ≡ false
      → literal_isfalse s a ≡ false
      → any_true s (a ∷ ls) ≡ true
  unfolding any_true
  first_true a ls f g = ground (arith, f, g)

  watched-true :
      (c : ℕ) (a b : Literal) (rest : List Literal)
      → s.heap c ≡ a ∷ b ∷ rest
      → any_true s (s.heap c) ≡ true
  watched-true c a b rest e =
      let below : AllBelow s.vars_length (a ∷ b ∷ rest) = rw e at (ready.ranged c) in
      let count : occurrences c (literal_getwatch s a).clauses ≡ watched_by a (a ∷ b ∷ rest) =
        rw e at (ready.watched a c) in
      let in_list : 0 < occurrences c (literal_getwatch s a).clauses =
        ground (arith, count, literal_eq_self a) in
      elim (Bool-cases (literal_isfree s a)) [
        | inl f ↦ Done-watch s a c (all_Done a.index below.0) f in_list
        | inr f ↦ elim (Bool-cases (literal_isfalse s a)) [
          | inl g ↦ settled c a b rest e g
          | inr g ↦ rw e (first_true a (b ∷ rest) f g)
        ]
      ]

  -- When `sat_select_literal` answers LITERAL_NIL, every truth assignment that agrees with what is assigned
  -- satisfies each clause of two literals and more, also if some variables are free. The state is ready,
  -- every variable stands at its place of the order, the variables before `sat_next_var` need no
  -- decision, and a clause whose first watched literal is false has a true literal.
  pub select-Satisfied :
      (m : Model)
      → Agrees m s
      → (c : ℕ) (a b : Literal) (rest : List Literal) → s.heap c ≡ a ∷ b ∷ rest
      → satisfied m (s.heap c) ≡ true
  select-Satisfied m agrees c a b rest e =
      any_true-satisfied m s (s.heap c) agrees (watched-true c a b rest e)
