-- ===== src/Prelude/Lists.antt =====
-- Lists and arrays under native indices. A C array whose slots are written at random is a function
-- from the index; a list that grows and shrinks at its end is a `List`.
use Prim.Native.Nat.{ℕ, zero, suc, ◌+◌, ◌<◌}
use mathlib.Core.Path.{◌≡◌, refl, ap}
use mathlib.Core.Logic.{◌≢◌, ◌⊎◌, inl, inr}
use mathlib.Core.List.{List, [], ◌∷◌, ◌++◌}
use mathlib.Core.Option.{Option, none, some}
use native.Mathlib.Omega.{arith}
use smchr.Prelude.Tests.{◌==◌, if◌then◌else◌, bit}

module _ {ℓ} {A : Type ℓ} where
  abbrev pub length : List A → ℕ
  length [] = 0
  length (x ∷ xs) = suc (length xs)

  abbrev pub get_elem? : List A → ℕ → Option A
  get_elem? [] i = none
  get_elem? (x ∷ xs) zero = some x
  get_elem? (x ∷ xs) (suc i) = get_elem? xs i

  -- A write out of bounds changes nothing.
  abbrev pub set : List A → ℕ → A → List A
  set [] i v = []
  set (x ∷ xs) zero v = v ∷ xs
  set (x ∷ xs) (suc i) v = x ∷ set xs i v

  -- `a[i] = v` for an array that is a function of its index.
  abbrev pub update : (ℕ → A) → ℕ → A → ℕ → A
  update f i v j = if i == j then v else f j

  pub length-append : (xs ys : List A) → length (xs ++ ys) ≡ length xs + length ys
  length-append [] ys = omega arith
  length-append (x ∷ xs) ys = omega (arith, length-append xs ys)

  pub length-set : (xs : List A) (i : ℕ) (v : A) → length (set xs i v) ≡ length xs
  length-set [] i v = refl
  length-set (x ∷ xs) zero v = refl
  length-set (x ∷ xs) (suc i) v = ap suc (length-set xs i v)

  -- The elements but the last.
  abbrev pub init : List A → List A
  init [] = []
  init (x ∷ []) = []
  init (x ∷ y ∷ ys) = x ∷ init (y ∷ ys)

  abbrev pub last_or : A → List A → A
  last_or d [] = d
  last_or d (x ∷ xs) = last_or x xs

  pub List-cases : (xs : List A) → (xs ≡ []) ⊎ ((x : A) × (rest : List A) × (xs ≡ x ∷ rest))
  List-cases [] = inl refl
  List-cases (x ∷ xs) = inr (x, xs, refl)

-- How often a number stands in a list.
abbrev pub occurrences : ℕ → List ℕ → ℕ
occurrences a [] = 0
occurrences a (x ∷ xs) = bit (x == a) + occurrences a xs

pub occurrences-append :
    (xs ys : List ℕ) (a : ℕ) → occurrences a (xs ++ ys) ≡ occurrences a xs + occurrences a ys
occurrences-append [] ys a = omega arith
occurrences-append (x ∷ xs) ys a = omega (arith, occurrences-append xs ys a)

pub occurrences-get_elem? :
    (a : ℕ) (xs : List ℕ) (i : ℕ) → get_elem? xs i ≡ some a → 0 < occurrences a xs
occurrences-get_elem? a [] i h = ground arith
occurrences-get_elem? a (x ∷ xs) zero h = ground arith
occurrences-get_elem? a (x ∷ xs) (suc i) h = omega (arith, occurrences-get_elem? a xs i h)

pub occurrences-set :
    (a : ℕ) (xs : List ℕ) (i v : ℕ) {w : ℕ}
    → get_elem? xs i ≡ some w
    → occurrences a (set xs i v) + bit (w == a) ≡ occurrences a xs + bit (v == a)
occurrences-set a [] i v h = ground arith
occurrences-set a (x ∷ xs) zero v h = ground arith
occurrences-set a (x ∷ xs) (suc i) v h = omega (arith, occurrences-set a xs i v h)

pub occurrences-init :
    (a d : ℕ) (xs : List ℕ)
    → 0 < length xs
    → occurrences a (init xs) + bit (last_or d xs == a) ≡ occurrences a xs
occurrences-init a d [] h = elim h [ ]
occurrences-init a d (x ∷ []) h = omega arith
occurrences-init a d (x ∷ y ∷ ys) h = omega (arith, occurrences-init a x (y ∷ ys) (omega arith))

module _ {ℓ} {A : Type ℓ} where
  pub update-same : (f : ℕ → A) (i : ℕ) (v : A) → update f i v i ≡ v
  update-same f i v = ground arith

  pub update-other : (f : ℕ → A) (i : ℕ) (v : A) (j : ℕ) → j ≢ i → update f i v j ≡ f j
  update-other f i v j h = ground (arith, h)
