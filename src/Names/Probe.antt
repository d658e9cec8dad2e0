-- ===== src/Names/Probe.antt =====
-- names.c: probing the table, for a key and for an empty slot.
use smchr.Prelude.{
  ℕ, zero, suc, ◌+◌, ◌≤◌, ◌<◌, ◌≡◌, refl, sym, ap, subst, ◌≢◌, ◌⊎◌, inl, inr, true, false, Option,
  some, arith, ◌==◌, update, Bool-cases,
}
use smchr.Names.{vintage_amd64, lookup_from, insert_from, table_index}

-- The key stands in some slot.
abbrev pub Present : ℕ → (ℕ → ℕ) → Type 0
Present key table = (p : ℕ) × (table p ≡ key)

-- Every key can be found by a probe from its index, and the slots from `top` on are empty.
pub record Hashed (shift top : ℕ) (table : ℕ → ℕ) : Type 0 where
  pub behind : (p : ℕ) → table p ≢ 0 → table_index shift (table p) ≤ p
  pub reached : (p q : ℕ) → table p ≢ 0 → table_index shift (table p) ≤ q → q ≤ p → table q ≢ 0
  pub empty : (p : ℕ) → top ≤ p → table p ≡ 0

pub lookup_from-hit :
    (n p idx key : ℕ) (table : ℕ → ℕ)
    → table p ≡ key
    → idx ≤ p
    → p < idx + n
    → ((q : ℕ) → idx ≤ q → q ≤ p → table q ≢ 0)
    → lookup_from vintage_amd64 n table idx key ≡ some true
unfolding lookup_from
lookup_from-hit zero p idx key table e l h f = let bad : ⊥ = omega arith in elim bad [ ]
lookup_from-hit (suc n) p idx key table e l h f = elim (Bool-cases (table idx == key)) [
  | inl a ↦ rw (lookup_from, a) refl
  | inr a ↦
      let ne : idx ≢ p = λ z. ground (arith, a, e, ap table z) in
      let full = f idx (omega arith) l in
      let b : (table idx == 0) ≡ false = ground (arith, full) in
      let rest =
        lookup_from-hit n p (suc idx) key table e (ground (arith, ne)) (omega arith)
          (λ q g. f q (omega arith)) in
      rw (lookup_from, a, b) rest
]

-- A probe ends at a slot that holds the key, or at an empty one.
pub lookup_from-cases :
    (n e idx key : ℕ) (table : ℕ → ℕ)
    → table e ≡ 0
    → idx ≤ e
    → e < idx + n
    → ((lookup_from vintage_amd64 n table idx key ≡ some true) × Present key table)
      ⊎ (lookup_from vintage_amd64 n table idx key ≡ some false)
unfolding lookup_from
lookup_from-cases zero e idx key table z l h = let bad : ⊥ = omega arith in elim bad [ ]
lookup_from-cases (suc n) e idx key table z l h = elim (Bool-cases (table idx == key)) [
  | inl a ↦ inl (rw (lookup_from, a) refl, (idx, ground (arith, a)))
  | inr a ↦ elim (Bool-cases (table idx == 0)) [
    | inl b ↦ inr (rw (lookup_from, a, b) refl)
    | inr b ↦
        let ne : idx ≢ e = λ y. ground (arith, b, z, ap table y) in
        let rest = lookup_from-cases n e (suc idx) key table z (ground (arith, ne)) (omega arith) in
        rw (lookup_from, a, b) rest
  ]
]

-- Where an insertion puts the key: the first empty slot from its index, no later than a known one.
pub record Placed (table : ℕ → ℕ) (key idx e : ℕ) (o : Option (ℕ → ℕ)) : Type 0 where
  pub slot : ℕ
  pub was_empty : table slot ≡ 0
  pub from_index : idx ≤ slot
  pub no_later : slot ≤ e
  pub full : (q : ℕ) → idx ≤ q → q < slot → table q ≢ 0
  pub result : o ≡ some (update table slot key)

pub insert_from-Placed :
    (n e idx key : ℕ) (table : ℕ → ℕ)
    → table e ≡ 0
    → idx ≤ e
    → e < idx + n
    → Placed table key idx e (insert_from vintage_amd64 n table key idx)
unfolding insert_from
insert_from-Placed zero e idx key table z l h = let bad : ⊥ = omega arith in elim bad [ ]
insert_from-Placed (suc n) e idx key table z l h = elim (Bool-cases (table idx == 0)) [
  | inl b ↦ record {
    slot = idx;
    was_empty = ground arith;
    from_index = omega arith;
    no_later = l;
    full = λ q g g'. let bad : ⊥ = omega arith in elim bad [ ];
    result = rw (insert_from, b) refl;
  }
  | inr b ↦
      let ne : idx ≢ e = λ y. ground (arith, b, z, ap table y) in
      let r = insert_from-Placed n e (suc idx) key table z (ground (arith, ne)) (omega arith) in
      record {
        slot = r.slot;
        was_empty = r.was_empty;
        from_index = omega (arith, r.from_index);
        no_later = r.no_later;
        full = λ q g g'.
            let f = r.full q in
            elim (Bool-cases (q == idx)) [
              | inl y ↦
                  let y' : q ≡ idx = ground arith in
                  subst (λ x. table x ≢ 0) (sym y') (λ w. ground (arith, w, b))
              | inr y ↦ f (ground arith) g'
            ];
        result = rw (insert_from, b) r.result;
      }
]
