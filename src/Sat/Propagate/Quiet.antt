-- ===== src/Sat/Propagate/Quiet.antt =====
-- sat.c: the clauses with a false watched literal in the loops of `sat_propagate`.
use smchr.Prelude.{
  ℕ, zero, suc, ◌+◌, ◌<◌, ◌≤◌, ◌≡◌, ◌∙◌, refl, ap, sym, true, false, Option, none, some, List, [],
  ◌∷◌, arith, ◌==◌, if◌then◌else◌, Bool-cases, ◌⊎◌, inl, inr, length, get_elem?, set, init,
  occurrences, length-set, ==_iff,
}
use smchr.Sat.Literal.{Literal, literal_negate}
use smchr.Sat.State.{
  Watch, Sat, literal_istrue, literal_isfalse, literal_isfree, literal_getwatch, literal_set,
}
use smchr.Sat.Assignment.{SameAssignment, set-vars, trail-set}

-- A false watched literal stands beside a true one. So no clause of two literals and more is false or
-- unit: it has a true literal, or none of its two watched literals is false.
abbrev pub Quiet : Sat → Type 0
Quiet s =
    (c : ℕ) (a b : Literal) (rest : List Literal)
    → s.heap c ≡ a ∷ b ∷ rest
    → (literal_isfalse s a ≡ true → literal_istrue s b ≡ true)
      × (literal_isfalse s b ≡ true → literal_istrue s a ≡ true)

-- The same once the literal is true: a learnt clause waits for it.
abbrev pub QuietWith : Sat → Literal → Type 0
QuietWith s l =
    (c : ℕ) (a b : Literal) (rest : List Literal)
    → s.heap c ≡ a ∷ b ∷ rest
    → (literal_isfalse s a ≡ true → (literal_istrue s b ≡ true) ⊎ (b ≡ l))
      × (literal_isfalse s b ≡ true → (literal_istrue s a ≡ true) ⊎ (a ≡ l))

-- The first `i` entries of a watch list are not the clause.
abbrev pub Unseen : List ℕ → ℕ → ℕ → Type 0
Unseen xs i c = (j : ℕ) → j < i → get_elem? xs j ≡ some c → ⊥

pub get_elem-none : (xs : List ℕ) (i : ℕ) → length xs ≤ i → get_elem? xs i ≡ none
get_elem-none [] i h = refl
get_elem-none (x ∷ xs) zero h = let bad : ⊥ = omega arith in elim bad [ ]
get_elem-none (x ∷ xs) (suc i) h = get_elem-none xs i (omega arith)

pub Unseen-all :
    (xs : List ℕ) (i c : ℕ) → get_elem? xs i ≡ none → Unseen xs i c → occurrences c xs ≡ 0
Unseen-all [] i c e h = refl
Unseen-all (x ∷ xs) zero c e h = let bad : ⊥ = ground (arith, e) in elim bad [ ]
Unseen-all (x ∷ xs) (suc i) c e h = elim (Bool-cases (x == c)) [
  | inl p ↦ let z : x ≡ c = (==_iff x c).0 p in elim (h 0 (omega arith) (ap some z)) [ ]
  | inr p ↦
      let rest = Unseen-all xs i c e (λ j l. h (suc j) (omega (arith, l))) in
      ground (arith, p, rest)
]

pub get_elem-delete :
    (xs : List ℕ) (i v j c : ℕ)
    → j < i
    → get_elem? (init (set xs i v)) j ≡ some c
    → get_elem? xs j ≡ some c
get_elem-delete [] i v j c l e = e
get_elem-delete (x ∷ xs) zero v j c l e = let bad : ⊥ = omega arith in elim bad [ ]
get_elem-delete (x ∷ []) (suc i) v j c l e = let bad : ⊥ = ground (arith, e) in elim bad [ ]
get_elem-delete (x ∷ y ∷ ys) (suc zero) v zero c l e = e
get_elem-delete (x ∷ y ∷ ys) (suc zero) v (suc j) c l e = let bad : ⊥ = omega arith in elim bad [ ]
get_elem-delete (x ∷ y ∷ ys) (suc (suc i)) v zero c l e = e
get_elem-delete (x ∷ y ∷ ys) (suc (suc i)) v (suc j) c l e =
    get_elem-delete (y ∷ ys) (suc i) v j c (omega arith) e

length-init : (xs : List ℕ) → 0 < length xs → length (init xs) + 1 ≡ length xs
length-init [] h = let bad : ⊥ = omega arith in elim bad [ ]
length-init (x ∷ []) h = refl
length-init (x ∷ y ∷ ys) h = omega (arith, length-init (y ∷ ys) (omega arith))

get_elem-length : (xs : List ℕ) (i : ℕ) {c : ℕ} → get_elem? xs i ≡ some c → 0 < length xs
get_elem-length [] i h = ground arith
get_elem-length (x ∷ xs) i h = omega arith

pub length-delete :
    (xs : List ℕ) (i v c : ℕ) → get_elem? xs i ≡ some c → length (init (set xs i v)) + 1 ≡ length xs
length-delete xs i v c h =
    let p = get_elem-length xs i h in
    length-init (set xs i v) (omega (arith, length-set xs i v, p)) ∙ length-set xs i v

-- The literal became false by an assignment that is still to be propagated.
abbrev pub Pending : Sat → ℕ → ℕ → Literal → Type 0
Pending s curr next x = (k : ℕ) × (curr ≤ k) × (k < next) × (literal_negate (s.trail k) ≡ x)

-- A watched literal `x` of the clause `c` beside `y`, with exceptions `E`.
abbrev pub Fine : (ℕ → Literal → Type 0) → Sat → ℕ → ℕ → ℕ → Literal → Literal → Type 0
Fine E s curr next c x y =
    literal_isfalse s x ≡ true → (literal_istrue s y ≡ true) ⊎ Pending s curr next x ⊎ E c x

abbrev pub AllFine : (ℕ → Literal → Type 0) → Sat → ℕ → ℕ → Type 0
AllFine E s curr next =
    (c : ℕ) (a b : Literal) (rest : List Literal)
    → s.heap c ≡ a ∷ b ∷ rest
    → Fine E s curr next c a b × Fine E s curr next c b a

-- No exceptions, and those within the loop over the watch list of `lit` before entry `i`.
abbrev pub Never : ℕ → Literal → Type 0
Never c x = ⊥

abbrev pub Ahead : Sat → Literal → ℕ → ℕ → Literal → Type 0
Ahead s lit i c x = (x ≡ lit) × Unseen (literal_getwatch s lit).clauses i c

Fine-set :
    (E : ℕ → Literal → Type 0) (s : Sat) (curr next c : ℕ) (x y l : Literal) (r : Option ℕ)
    → curr ≤ next
    → next ≡ s.tlevel
    → literal_isfree s l ≡ true
    → Fine E s curr next c x y
    → Fine E (literal_set s l r) curr (next + 1) c x y
Fine-set E s curr next c x y l r le e free h f = elim (Bool-cases (literal_isfalse s x)) [
  | inl before ↦ elim (h before) [
    | inl t ↦ inl (ground (arith, t, free, set-vars s l r y.index))
    | inr (inl (k, a, b, z)) ↦ inr (
        inl (
          k,
          a,
          omega (arith, b),
          ap literal_negate (trail-set s l r k ∙ ground (arith, b, e)) ∙ z,
        ))
    | inr (inr q) ↦ inr (inr q)
  ]
  | inr before ↦
      let at_end : (literal_set s l r).trail next ≡ l = trail-set s l r next ∙ ground (arith, e) in
      let same : literal_negate l ≡ x = ground (arith, f, before, free, set-vars s l r x.index) in
      inr (inl (next, le, omega arith, ap literal_negate at_end ∙ same))
]

pub AllFine-set :
    (E : ℕ → Literal → Type 0) (s : Sat) (curr next : ℕ) (l : Literal) (r : Option ℕ)
    → curr ≤ next
    → next ≡ s.tlevel
    → literal_isfree s l ≡ true
    → AllFine E s curr next
    → AllFine E (literal_set s l r) curr (next + 1)
unfolding literal_set
AllFine-set E s curr next l r le e free h c a b rest z =
    let (p, q) = h c a b rest z in
    (Fine-set E s curr next c a b l r le e free p, Fine-set E s curr next c b a l r le e free q)

first-Fine :
    (s : Sat) (c : ℕ) (x y l : Literal) (r : Option ℕ)
    → literal_isfree s l ≡ true
    → (literal_isfalse s x ≡ true → (literal_istrue s y ≡ true) ⊎ (y ≡ l))
    → Fine Never (literal_set s l r) s.tlevel (s.tlevel + 1) c x y
first-Fine s c x y l r free h f = elim (Bool-cases (literal_isfalse s x)) [
  | inl before ↦ elim (h before) [
    | inl t ↦ inl (ground (arith, t, free, set-vars s l r y.index))
    | inr z ↦ inl (rw z (ground (arith, set-vars s l r l.index)))
  ]
  | inr before ↦
      Fine-set Never s s.tlevel s.tlevel c x y l r (omega arith) refl free
        (λ g. let bad : ⊥ = ground (arith, g, before) in elim bad [ ]) f
]

pub start-AllFine :
    (s : Sat) (l : Literal) (r : Option ℕ)
    → literal_isfree s l ≡ true
    → QuietWith s l
    → AllFine Never (literal_set s l r) s.tlevel (s.tlevel + 1)
unfolding literal_set
start-AllFine s l r free quiet c a b rest e =
    let (p, q) = quiet c a b rest e in
    (first-Fine s c a b l r free p, first-Fine s c b a l r free q)

-- The literals of one clause are written anew, the rest stays, and the exceptions of other clauses stay
-- exceptions.
pub AllFine-replace :
    (E E' : ℕ → Literal → Type 0) (s t : Sat) (curr next c : ℕ) (x y : Literal) (r : List Literal)
    → SameAssignment s t
    → t.trail ≡ s.trail
    → ((d : ℕ) → t.heap d ≡ (if c == d then x ∷ y ∷ r else s.heap d))
    → ((d : ℕ) (z : Literal) → (c == d) ≡ false → E d z → E' d z)
    → Fine E' t curr next c x y
    → Fine E' t curr next c y x
    → AllFine E s curr next
    → AllFine E' t curr next
AllFine-replace E E' s t curr next c x y r same trail heap stay p q h d a b rest z =
    elim (Bool-cases (c == d)) [
      | inl e ↦
          let here : c ≡ d = (==_iff c d).0 e in
          let lits : x ∷ y ∷ r ≡ a ∷ b ∷ rest = sym (heap d ∙ ground (arith, e)) ∙ z in
          let xa : x ≡ a = cc lits in let yb : y ≡ b = cc lits in rw (← here, ← xa, ← yb) (p, q)
      | inr e ↦
          let before : s.heap d ≡ a ∷ b ∷ rest = sym (heap d ∙ ground (arith, e)) ∙ z in
          let (f, g) = h d a b rest before in (keeps d a b e f, keeps d b a e g)
    ]
  where
    keeps :
        (d : ℕ) (u v : Literal)
        → (c == d) ≡ false
        → Fine E s curr next d u v
        → Fine E' t curr next d u v
    keeps d u v e f g = elim (f (ground (arith, g, same u.index))) [
      | inl w ↦ inl (ground (arith, w, same v.index))
      | inr (inl (k, l, m, w)) ↦
          inr (inl (k, l, m, ap (λ (f : ℕ → Literal). literal_negate (f k)) trail ∙ w))
      | inr (inr w) ↦ inr (inr (stay d u e w))
    ]

pub Ahead-suc :
    (s t : Sat) (lit : Literal) (i c : ℕ)
    → get_elem? (literal_getwatch s lit).clauses i ≡ some c
    → literal_getwatch t lit ≡ literal_getwatch s lit
    → (d : ℕ) (z : Literal) → (c == d) ≡ false
    → Ahead s lit i d z
    → Ahead t lit (i + 1) d z
Ahead-suc s t lit i c at_entry same d z ne (e, h) = (
  e,
  λ j l f.
      let before : get_elem? (literal_getwatch s lit).clauses j ≡ some d =
        ap (λ (w : Watch). get_elem? w.clauses j) (sym same) ∙ f in
      elim (Bool-cases (i == j)) [
        | inl q ↦
            let here : i ≡ j = (==_iff i j).0 q in
            let entry : some c ≡ some d =
              sym at_entry ∙ ap (get_elem? (literal_getwatch s lit).clauses) here ∙ before in
            ground (arith, entry, ne)
        | inr q ↦ h j (ground (arith, q, l)) before
      ],
)
