-- ===== src/Sat/Lazy/Sorted.antt =====
-- sat.c, "The order is: TRUE < UNKNOWN < FALSE": what `sat_clause_insert_literal` keeps of the order of
-- the first two literals, the ones that are watched.
use smchr.Prelude.{
  ℕ, ◌||◌, ◌+◌, ◌≡◌, refl, Bool, true, false, not, ◌&&◌, List, [], ◌∷◌, ◌++◌, arith, ltb, leb,
  if◌then◌else◌, Bool-cases, inl, inr, bit,
}
use smchr.Sat.Literal.{Literal, literal_eq}
use smchr.Sat.State.{Sat, literal_istrue, literal_isfalse, literal_isfree, literal_getdlevel}
use smchr.Sat.Lazy.{insert_second, insert_later, sat_clause_insert_literal}

module _ (s : Sat) where
  -- `a` may stand before `b` at the front: true literals first, those of a lower level before; then
  -- the unassigned; then the false, those of a higher level before.
  abbrev pub precedes : Literal → Literal → Bool
  precedes a b =
      if literal_istrue s a
      then (if literal_istrue s b
          then leb (literal_getdlevel s a) (literal_getdlevel s b)
          else true)
      else if literal_isfree s a
      then not (literal_istrue s b)
      else literal_isfalse s b && leb (literal_getdlevel s b) (literal_getdlevel s a)

  -- `a` may be watched rather than `b`: if `a` is false, `b` is, of no higher level.
  abbrev pub backs : Literal → Literal → Bool
  backs a b =
      if literal_isfalse s a
      then literal_isfalse s b && leb (literal_getdlevel s b) (literal_getdlevel s a)
      else true

  abbrev pub all_of : (Literal → Bool) → List Literal → Bool
  all_of p [] = true
  all_of p (l ∷ ls) = p l && all_of p ls

  -- lits[0] may stand before all others, and lits[1] may be watched rather than the others.
  abbrev pub WatchOrder : List Literal → Type 0
  WatchOrder [] = Unit
  WatchOrder (l0 ∷ []) = Unit
  WatchOrder (l0 ∷ l1 ∷ rest) =
      (precedes l0 l1 ≡ true) × (all_of (precedes l0) rest ≡ true) × (all_of (backs l1) rest ≡ true)

  precedes_trans :
      (a b c : Literal) → precedes a b ≡ true → precedes b c ≡ true → precedes a c ≡ true
  precedes_trans a b c h g = ground arith

  backs_trans : (a b c : Literal) → backs a b ≡ true → backs b c ≡ true → backs a c ≡ true
  backs_trans a b c h g = ground arith

  precedes→backs : (a b : Literal) → precedes a b ≡ true → backs a b ≡ true
  precedes→backs a b h = ground arith

  all-append :
      (p : Literal → Bool) (xs : List Literal) (x : Literal)
      → all_of p xs ≡ true
      → p x ≡ true
      → all_of p (xs ++ x ∷ []) ≡ true
  all-append p [] x h g = ground arith
  all-append p (y ∷ xs) x h g = ground (arith, all-append p xs x)

  all-map :
      (p q : Literal → Bool) (xs : List Literal)
      → ((x : Literal) → p x ≡ true → q x ≡ true)
      → all_of p xs ≡ true
      → all_of q xs ≡ true
  all-map p q [] f h = refl
  all-map p q (x ∷ xs) f h = ground (arith, f x, all-map p q xs f)

  -- The three places the new literal can take.
  order-in_front :
      (l0 l1 : Literal) (rest : List Literal) (lit : Literal)
      → WatchOrder (l0 ∷ l1 ∷ rest)
      → precedes lit l0 ≡ true
      → WatchOrder (lit ∷ l0 ∷ (rest ++ l1 ∷ []))
  order-in_front l0 l1 rest lit (h, a, b) p = (
    p,
    all-append (precedes lit) rest l1
        (all-map (precedes l0) (precedes lit) rest (λ x. precedes_trans lit l0 x p) a)
        (precedes_trans lit l0 l1 p h),
    all-append (backs l0) rest l1 (all-map (precedes l0) (backs l0) rest (precedes→backs l0) a)
        (precedes→backs l0 l1 h),
  )

  order-second :
      (l0 l1 : Literal) (rest : List Literal) (lit : Literal)
      → WatchOrder (l0 ∷ l1 ∷ rest)
      → precedes l0 lit ≡ true
      → backs lit l1 ≡ true
      → WatchOrder (l0 ∷ lit ∷ (rest ++ l1 ∷ []))
  order-second l0 l1 rest lit (h, a, b) p q = (
    p,
    all-append (precedes l0) rest l1 a h,
    all-append (backs lit) rest l1
        (all-map (backs l1) (backs lit) rest (λ x. backs_trans lit l1 x q) b) q,
  )

  order-behind :
      (l0 l1 : Literal) (rest : List Literal) (lit : Literal)
      → WatchOrder (l0 ∷ l1 ∷ rest)
      → precedes l0 lit ≡ true
      → backs l1 lit ≡ true
      → WatchOrder (l0 ∷ l1 ∷ (rest ++ lit ∷ []))
  order-behind l0 l1 rest lit (h, a, b) p q =
      (h, all-append (precedes l0) rest lit a p, all-append (backs l1) rest lit b q)

  -- A literal that is neither true nor unassigned is false.
  false_of_others :
      (l : Literal)
      → literal_istrue s l ≡ false
      → literal_isfree s l ≡ false
      → literal_isfalse s l ≡ true
  false_of_others l h g = ground arith

  second-WatchOrder : (l0 lit : Literal) → WatchOrder (insert_second s l0 lit)
  unfolding insert_second
  second-WatchOrder l0 lit = ground arith

  later-WatchOrder :
      (l0 l1 : Literal) (rest : List Literal) (lit : Literal)
      → WatchOrder (l0 ∷ l1 ∷ rest)
      → WatchOrder (insert_later s l0 l1 rest lit)
  unfolding insert_later
  later-WatchOrder l0 l1 rest lit w =
      let front = order-in_front l0 l1 rest lit w in
      let second = order-second l0 l1 rest lit w in
      let behind = order-behind l0 l1 rest lit w in
      let lower = ltb (literal_getdlevel s lit) (literal_getdlevel s l0) in
      let above0 = ltb (literal_getdlevel s l0) (literal_getdlevel s lit) in
      let above1 = literal_isfalse s l1 && ltb (literal_getdlevel s l1) (literal_getdlevel s lit) in
      elim (Bool-cases (literal_istrue s lit)) [
        | inl t ↦ elim (Bool-cases (not (literal_istrue s l0) || lower)) [
          | inl h ↦ rw (insert_later, t, h) (front (ground arith))
          | inr h ↦ rw (insert_later, t, h) (second (ground arith) (ground arith))
        ]
        | inr t ↦ elim (Bool-cases (literal_isfree s lit)) [
          | inl f ↦ elim (Bool-cases (not (literal_istrue s l0))) [
            | inl h ↦ rw (insert_later, t, f, h) (front (ground arith))
            | inr h ↦ rw (insert_later, t, f, h) (second (ground arith) (ground arith))
          ]
          | inr f ↦ elim (Bool-cases (literal_isfalse s l0)) [
            | inl g ↦ elim (Bool-cases above0) [
              | inl h ↦ rw (insert_later, t, f, g, h) (front (ground arith))
              | inr h ↦ elim (Bool-cases above1) [
                | inl k ↦ rw (insert_later, t, f, g, h, k) (second (ground arith) (ground arith))
                | inr k ↦ rw (insert_later, t, f, g, h, k) (behind (ground arith) (ground arith))
              ]
            ]
            | inr g ↦ elim (Bool-cases above1) [
              | inl k ↦ rw (insert_later, t, f, g, k) (second (ground arith) (ground arith))
              | inr k ↦ rw (insert_later, t, f, g, k) (behind (ground arith) (ground arith))
            ]
          ]
        ]
      ]

  -- `sat_clause_insert_literal` keeps the order of the watched literals: lits[0] is true at the lowest
  -- level, or no literal is true and it is unassigned, or all are false and it is of the highest
  -- level; and lits[1] is not false, or all behind it are false and of no higher level.
  pub insert_literal-WatchOrder :
      (lits : List Literal) (lit : Literal)
      → WatchOrder lits
      → WatchOrder (sat_clause_insert_literal s lits lit)
  unfolding sat_clause_insert_literal
  insert_literal-WatchOrder [] lit w = tt
  insert_literal-WatchOrder (l0 ∷ []) lit w = second-WatchOrder l0 lit
  insert_literal-WatchOrder (l0 ∷ l1 ∷ rest) lit w = later-WatchOrder l0 l1 rest lit w

  -- How often a literal stands in a clause.
  abbrev copies : Literal → List Literal → ℕ
  copies l [] = 0
  copies l (x ∷ xs) = bit (literal_eq x l) + copies l xs

  copies-append :
      (l : Literal) (xs ys : List Literal) → copies l (xs ++ ys) ≡ copies l xs + copies l ys
  copies-append l [] ys = omega arith
  copies-append l (x ∷ xs) ys = omega (arith, copies-append l xs ys)

  -- `sat_clause_insert_literal` adds the literal once and keeps the others.
  copies-insert_literal :
      (l : Literal) (lits : List Literal) (lit : Literal)
      → copies l (sat_clause_insert_literal s lits lit) ≡ copies l (lit ∷ lits)
  unfolding sat_clause_insert_literal insert_second insert_later
  copies-insert_literal l [] lit = refl
  copies-insert_literal l (l0 ∷ []) lit = ground arith
  copies-insert_literal l (l0 ∷ l1 ∷ rest) lit =
      ground (arith, copies-append l rest (l1 ∷ []), copies-append l rest (lit ∷ []))
