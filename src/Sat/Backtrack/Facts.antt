-- ===== src/Sat/Backtrack/Facts.antt =====
-- What conflict analysis takes for granted of the trail, and the bookkeeping of its marks.
use smchr.Prelude.{
  ℕ, zero, suc, ◌+◌, ◌<◌, ◌≤◌, ◌≡◌, refl, Bool, true, false, not, ◌&&◌, some, List, [], ◌∷◌, ◌++◌,
  arith, ◌==◌, bit, if◌then◌else◌, Bool-cases, ◌⊎◌, inl, inr, ltb,
}
use smchr.Sat.Literal.{Literal, literal_negate}
use smchr.Sat.State.{Sat, literal_getdlevel, literal_setmark, literal_unset}
use smchr.Sat.Order.Frame.{SameFacts, SameMarks}

-- The literal is false because its negation stands on the trail, below place `k`.
abbrev pub FalseBefore : Sat → ℕ → Literal → Type 0
FalseBefore s k l = (j : ℕ) × (j < k) × (s.trail j ≡ literal_negate l)

abbrev pub AllBefore : Sat → ℕ → List Literal → Type 0
AllBefore s k [] = Unit
AllBefore s k (l ∷ ls) = FalseBefore s k l × AllBefore s k ls

-- A reason begins with the literal that it implied, and its others were false before.
abbrev pub Forced : Sat → ℕ → List Literal → Type 0
Forced s k [] = ⊥
Forced s k (l ∷ ls) = (l ≡ s.trail k) × AllBefore s k ls

-- The trail: its literals are of existing variables and agree with the signs, their levels do not
-- fall from the bottom up or pass the decision level, and the reasons are in order.
pub record Justified (s : Sat) : Type 0 where
  pub signs : (k : ℕ) → k < s.tlevel → (s.vars (s.trail k).index).sign ≡ (s.trail k).neg
  pub ranged : (k : ℕ) → k < s.tlevel → (s.trail k).index < s.vars_length
  pub bounded : (k : ℕ) → k < s.tlevel → literal_getdlevel s (s.trail k) ≤ s.dlevel
  pub sorted :
      (j k : ℕ)
      → j ≤ k
      → k < s.tlevel
      → literal_getdlevel s (s.trail j) ≤ literal_getdlevel s (s.trail k)
  pub reasons :
      (k c : ℕ) → k < s.tlevel → (s.vars (s.trail k).index).reason ≡ some c → Forced s k (s.heap c)

abbrev pub marked : Sat → ℕ → Bool
marked t v = (t.vars v).mark

-- How many marked variables below `n` are of the level `level` or above.
abbrev pub pending : ℕ → ℕ → Sat → ℕ
pending zero level t = 0
pending (suc n) level t = pending n level t + bit (marked t n && not (ltb (t.vars n).dlevel level))

-- One of the literals is of the variable.
abbrev pub MemVar : ℕ → List Literal → Type 0
MemVar v [] = ⊥
MemVar v (l ∷ ls) = (l.index ≡ v) ⊎ MemVar v ls

pub MemVar-append_left : (v : ℕ) (xs ys : List Literal) → MemVar v xs → MemVar v (xs ++ ys)
MemVar-append_left v (x ∷ xs) ys (inl e) = inl e
MemVar-append_left v (x ∷ xs) ys (inr m) = inr (MemVar-append_left v xs ys m)
MemVar-append_left v [] ys m = absurd m

pub MemVar-append_right : (v : ℕ) (xs ys : List Literal) → MemVar v ys → MemVar v (xs ++ ys)
MemVar-append_right v [] ys m = m
MemVar-append_right v (x ∷ xs) ys m = inr (MemVar-append_right v xs ys m)

pub AllBefore-append :
    (s : Sat) (k : ℕ) (xs ys : List Literal)
    → AllBefore s k xs
    → AllBefore s k ys
    → AllBefore s k (xs ++ ys)
AllBefore-append s k [] ys h g = g
AllBefore-append s k (x ∷ xs) ys h g = (h.0, AllBefore-append s k xs ys h.1 g)

pub setmark-frame : (s : Sat) (l : Literal) (b : Bool) → SameFacts s (literal_setmark s l b)
unfolding literal_setmark
setmark-frame s l b = record {
  sign = λ v. ground arith;
  dlevel = λ v. ground arith;
  reason = λ v. ground arith;
  heap = refl;
  trail = refl;
  level = refl;
  unit = λ v. ground arith;
  unit_sign = λ v. ground arith;
  empty = refl;
  heap_length = refl;
}

pub marked-setmark :
    (s : Sat) (l : Literal) (b : Bool) (v : ℕ)
    → marked (literal_setmark s l b) v ≡ (if l.index == v then b else marked s v)
unfolding literal_setmark
marked-setmark s l b v = ground arith

pub unset-frame :
    (s : Sat) (l : Literal) → SameFacts s (literal_unset s l) × SameMarks s (literal_unset s l)
unfolding literal_unset
unset-frame s l = (
  record {
    sign = λ v. ground arith;
    dlevel = λ v. ground arith;
    reason = λ v. ground arith;
    heap = refl;
    trail = refl;
    level = refl;
    unit = λ v. ground arith;
    unit_sign = λ v. ground arith;
    empty = refl;
    heap_length = refl;
  },
  λ v. ground arith,
)

-- `pending` goes by the marks and levels.
pub pending-same :
    (n level : ℕ) (s t : Sat)
    → ((v : ℕ) → marked t v ≡ marked s v)
    → ((v : ℕ) → (t.vars v).dlevel ≡ (s.vars v).dlevel)
    → pending n level t ≡ pending n level s
pending-same zero level s t m d = refl
pending-same (suc n) level s t m d = ground (arith, pending-same n level s t m d, m n, d n)

-- Whether a variable below `n` counts.
abbrev is_high : ℕ → Sat → ℕ → Bool
is_high level s i = not (ltb (s.vars i).dlevel level)

pending-update :
    (n level : ℕ) (s t : Sat) (i : ℕ) (b : Bool)
    → ((v : ℕ) → marked t v ≡ (if i == v then b else marked s v))
    → ((v : ℕ) → (t.vars v).dlevel ≡ (s.vars v).dlevel)
    → pending n level t + bit (ltb i n && (marked s i && is_high level s i))
      ≡ pending n level s + bit (ltb i n && (b && is_high level s i))
pending-update zero level s t i b m d = ground arith
pending-update (suc n) level s t i b m d =
    ground (arith, pending-update n level s t i b m d, m n, d n)

-- Marking adds one at most, and nothing for a lower level.
pub pending-mark :
    (n level : ℕ) (s t : Sat) (i : ℕ)
    → ((v : ℕ) → marked t v ≡ (if i == v then true else marked s v))
    → ((v : ℕ) → (t.vars v).dlevel ≡ (s.vars v).dlevel)
    → pending n level t ≤ pending n level s + bit (not (ltb (s.vars i).dlevel level))
pending-mark n level s t i m d = ground (arith, pending-update n level s t i true m d)

-- Unmarking a marked variable of a high level takes one away.
pub pending-unmark :
    (n level : ℕ) (s t : Sat) (i : ℕ)
    → ((v : ℕ) → marked t v ≡ (if i == v then false else marked s v))
    → ((v : ℕ) → (t.vars v).dlevel ≡ (s.vars v).dlevel)
    → i < n
    → marked s i ≡ true
    → ltb (s.vars i).dlevel level ≡ false
    → pending n level t + 1 ≡ pending n level s
pending-unmark n level s t i m d below is_marked high =
    ground (arith, pending-update n level s t i false m d)

-- With no marked variable of a high level, nothing is pending.
pub pending-none :
    (n level : ℕ) (s : Sat)
    → ((v : ℕ) → marked s v ≡ true → ltb (s.vars v).dlevel level ≡ true)
    → pending n level s ≡ 0
pending-none zero level s h = refl
pending-none (suc n) level s h = ground (arith, pending-none n level s h, h n)

-- With nothing pending, a marked variable below `n` is of a lower level.
pub low_of_pending :
    (n level : ℕ) (s : Sat) (v : ℕ)
    → pending n level s ≡ 0
    → v < n
    → marked s v ≡ true
    → ltb (s.vars v).dlevel level ≡ true
low_of_pending zero level s v e p m = absurd (omega arith)
low_of_pending (suc n) level s v e p m = elim (Bool-cases (v == n)) [
  | inl q ↦ ground arith
  | inr q ↦ low_of_pending n level s v (omega arith) (ground arith) m
]
