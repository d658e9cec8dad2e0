-- ===== src/Sat/Luby.antt =====
-- sat.c: `sat_luby`, the lengths of the runs between restarts.
mod Tests
use smchr.Prelude.{
  ℕ, zero, suc, ◌+◌, ◌-◌, ◌*◌, ◌/◌, ◌%◌, ◌^◌, ◌<◌, ◌≤◌, ◌≡◌, refl, sym, ◌∙◌, ap, inl, inr, Bool,
  true, false, Option, none, some, arith, leb, ltb, subst, ◌==◌, if◌then◌else◌, Bool-cases,
}

-- The loop that takes the factors two out of `j`, and counts them.
unfoldable pub trailing : ℕ → ℕ → ℕ → ℕ × ℕ
trailing zero j k = (j, k)
trailing (suc n) j k = let rest = trailing n (j / 2) (suc k) in if j % 2 == 0 then rest else (j, k)

-- The loop that halves `j` until it is 1.
unfoldable pub halvings : ℕ → ℕ → ℕ → ℕ
halvings zero j k = k
halvings (suc n) j k = let rest = halvings n (j / 2) (suc k) in if j == 1 then k else rest

-- `1 << k`, which is an `int` and has no value from `k` 31 on.
abbrev pub shift_one : ℕ → Option ℕ
shift_one k = elim (ltb k 31) [ true ↦ some (2 ^ k) | false ↦ none ]

-- With a number of calls; a loop on `j` gets `j` rounds. `i` is a size_t.
unfoldable pub sat_luby : ℕ → ℕ → Option ℕ
sat_luby zero i = none
sat_luby (suc n) i =
    let j0 = (i + 1) % 2 ^ 64 in
    let (j, k) = trailing j0 j0 0 in
    let rest : Option ℕ = elim (shift_one (halvings j j k)) [
      | none ↦ none
      | some p ↦ sat_luby n ((i + 2 ^ 64 - p + 1) % 2 ^ 64)
    ] in
    if leb i 1 then some 1 else if j == 1 then shift_one (k - 1) else rest

-- The sequence 1, 1, 2, 1, 1, 2, 4, …: 2 ^ k ends each block of 2 ^ (k + 1) - 1 terms, and the terms
-- from 2 ^ k on repeat those before.
pub data Luby : ℕ → ℕ → Type 0 where
  end_of_block : {i v : ℕ} (k : ℕ) → i + 1 ≡ 2 ^ suc k → v ≡ 2 ^ k → Luby i v
  repeated : {i v : ℕ} (k : ℕ) → 2 ^ k ≤ i → i + 1 < 2 ^ suc k → Luby (i - 2 ^ k + 1) v → Luby i v

two_pow : (k : ℕ) → 2 ^ suc k ≡ 2 * 2 ^ k
two_pow k = omega arith

pow_pos : (k : ℕ) → 0 < 2 ^ k
pow_pos zero = omega arith
pow_pos (suc k) = omega (arith, pow_pos k)

factor_two : (h p : ℕ) → h * (2 * p) ≡ 2 * h * p
factor_two h p = grind arith

double : (h k : ℕ) → h * 2 ^ suc k ≡ 2 * h * 2 ^ k
double h k = ap (λ x. h * x) (two_pow k) ∙ factor_two h (2 ^ k)

scale_le : (a b p : ℕ) → a ≤ b → a * p ≤ b * p
scale_le a b p l = grind (arith, l)

trailing_lem :
    (n j k : ℕ)
    → 0 < j
    → j ≤ n
    → let (j', k') = trailing n j k in (j' * 2 ^ k' ≡ j * 2 ^ k) × (j' % 2 ≡ 1)
unfolding trailing
trailing_lem zero j k p l = let bad : ⊥ = omega arith in elim bad [ ]
trailing_lem (suc n) j k p l = elim (Bool-cases (j % 2 == 0)) [
  | inl e ↦
      let (q, o) = trailing_lem n (j / 2) (suc k) (ground arith) (omega arith) in
      let even : 2 * (j / 2) ≡ j = ground arith in
      rw (trailing, e) (q ∙ double (j / 2) k ∙ ap (λ x. x * 2 ^ k) even, o)
  | inr e ↦ rw (trailing, e) (refl, ground arith)
]

halvings_lem :
    (u t n j k : ℕ)
    → 0 < j
    → j ≤ n
    → j * 2 ^ k ≤ u
    → t < (j + 1) * 2 ^ k
    → let k' = halvings n j k in (2 ^ k' ≤ u) × (t < 2 ^ suc k')
unfolding halvings
halvings_lem u t zero j k p l a b = let bad : ⊥ = omega arith in elim bad [ ]
halvings_lem u t (suc n) j k p l a b = elim (Bool-cases (j == 1)) [
  | inl e ↦
      let one : j ≡ 1 = ground arith in
      rw (halvings, e) (omega (arith, rw one at a), omega (arith, rw one at b, two_pow k))
  | inr e ↦
      rw (halvings, e)
        (halvings_lem u t n (j / 2) (suc k) (ground arith) (omega arith)
          (omega (arith, double (j / 2) k, scale_le (2 * (j / 2)) j (2 ^ k) (omega arith), a))
          (omega (
            arith,
            double (j / 2 + 1) k,
            scale_le (j + 1) (2 * (j / 2 + 1)) (2 ^ k) (omega arith),
            b,
          )))
]

-- A number that is not a power of two, `j` its odd factor, is strictly between two of them.
halvings_odd :
    (i n j k : ℕ)
    → (j == 1) ≡ false
    → j % 2 ≡ 1
    → j ≤ n
    → j * 2 ^ k ≡ i + 1
    → let k' = halvings n j k in (2 ^ k' ≤ i) × (i + 1 < 2 ^ suc k')
unfolding halvings
halvings_odd i zero j k e o l x = let bad : ⊥ = omega arith in elim bad [ ]
halvings_odd i (suc n) j k e o l x =
    let split : 2 * (j / 2) + 1 ≡ j = omega arith in
    let below : 2 * (j / 2) * 2 ^ k + 2 ^ k ≡ i + 1 = grind (arith, ap (λ y. y * 2 ^ k) split, x) in
    let above : (j + 1) * 2 ^ k ≡ i + 1 + 2 ^ k = grind (arith, x) in
    let next : 2 * (j / 2 + 1) * 2 ^ k ≡ (j + 1) * 2 ^ k =
      ap (λ y. y * 2 ^ k) (omega (arith, split)) in
    rw (halvings, e)
      (halvings_lem i (i + 1) n (j / 2) (suc k) (ground arith) (omega arith)
        (omega (arith, double (j / 2) k, below, pow_pos k))
        (omega (arith, double (j / 2 + 1) k, next, above, pow_pos k)))

block : (k i : ℕ) → 2 ≤ i → 2 ^ k ≡ i + 1 → Luby i (2 ^ (k - 1))
block zero i p e = let bad : ⊥ = omega arith in elim bad [ ]
block (suc k) i p e = end_of_block k (sym e) (ap (λ x. 2 ^ x) (omega arith))

pow_grows : (m k : ℕ) → 2 ^ k ≤ 2 ^ (m + k)
pow_grows zero k =
    let same : 2 ^ (0 + k) ≡ 2 ^ k = ap (λ x. 2 ^ x) (omega arith) in omega (arith, same)
pow_grows (suc m) k =
    let same : 2 ^ (suc m + k) ≡ 2 ^ suc (m + k) = ap (λ x. 2 ^ x) (omega arith) in
    omega (arith, pow_grows m k, two_pow (m + k), same)

shifted : (k : ℕ) → 2 ^ k < 2 ^ 31 → shift_one k ≡ some (2 ^ k)
shifted k l = elim (Bool-cases (ltb k 31)) [
  | inl e ↦ rw (shift_one, e) refl
  | inr e ↦
      let long : 31 ≤ k = ground (arith, e) in
      let split : k - 31 + 31 ≡ k = omega (arith, long) in
      let big : 2 ^ 31 ≤ 2 ^ k = subst (λ m. 2 ^ 31 ≤ 2 ^ m) split (pow_grows (k - 31) 31) in
      let bad : ⊥ = omega (arith, big, l) in elim bad [ ]
]

block_end : (k i : ℕ) → 2 ≤ i → 2 ^ k ≡ i + 1 → 2 ^ (k - 1) < i + 1
block_end zero i p e = let bad : ⊥ = omega arith in elim bad [ ]
block_end (suc k) i p e =
    let same : 2 ^ (suc k - 1) ≡ 2 ^ k = ap (λ x. 2 ^ x) (omega arith) in
    omega (arith, same, two_pow k, e, pow_pos k)

-- A call on a place from 1 on and below 2 ^ 31 - 1, with as many calls as the place, ends with the term of
-- the sequence at the place; no shift is out of the range of an `int` on the way.
pub sat_luby-Luby :
    (n i : ℕ) → 1 ≤ i → i + 1 < 2 ^ 31 → i ≤ n → (v : ℕ) × (sat_luby n i ≡ some v) × Luby i v
unfolding sat_luby
sat_luby-Luby zero i p b l = let bad : ⊥ = omega arith in elim bad [ ]
sat_luby-Luby (suc n) i p b l =
    let j0 = (i + 1) % 2 ^ 64 in
    let whole : j0 ≡ i + 1 = omega (arith, b) in
    let (j, k) = trailing j0 j0 0 in
    let (exact, odd) = trailing_lem j0 j0 0 (omega (arith, whole)) (omega arith) in
    let product : j * 2 ^ k ≡ i + 1 = omega (arith, exact, whole) in
    let k' = halvings j j k in
    elim (Bool-cases (leb i 1)) [
      | inl e ↦ rw (sat_luby, e) (1, refl, end_of_block 0 (ground arith) refl)
      | inr e ↦ elim (Bool-cases (j == 1)) [
        | inl f ↦
            let one : j ≡ 1 = ground arith in
            let many : 2 ≤ i = ground (arith, e) in
            let power : 2 ^ k ≡ i + 1 = omega (arith, sym (ap (λ x. x * 2 ^ k) one), product) in
            let small = shifted (k - 1) (omega (arith, block_end k i many power, b)) in
            rw (sat_luby, e, f) (2 ^ (k - 1), small, block k i many power)
        | inr f ↦
            let between = halvings_odd i j j k f odd (omega arith) product in
            let low : 2 ^ k' ≤ i = between.0 in
            let high : i + 1 < 2 ^ suc k' = between.1 in
            let many : 2 ≤ i = ground (arith, e) in
            let small = shifted k' (omega (arith, low, b)) in
            let next : (i + 2 ^ 64 - 2 ^ k' + 1) % 2 ^ 64 ≡ i - 2 ^ k' + 1 =
              omega (arith, low, b) in
            let (v, g, h) =
              sat_luby-Luby n (i - 2 ^ k' + 1) (omega arith) (omega (arith, low, b, pow_pos k'))
                (omega (arith, two_pow k', low, high, many, l)) in
            rw (sat_luby, e, f, small, next) (v, g, repeated k' low high h)
      ]
    ]
