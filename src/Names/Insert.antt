-- ===== src/Names/Insert.antt =====
-- names.c: `table_do_insert` into a table whose keys can all be found.
use smchr.Prelude.{
  ℕ, suc, ◌≤◌, ◌<◌, ◌≡◌, sym, ◌∙◌, ap, subst, ◌≢◌, ◌⊎◌, inl, inr, Option, arith, ◌==◌, update,
  update-same, update-other, Bool-cases,
}
use smchr.Names.{table_index}
use smchr.Names.Probe.{Present, Hashed, Placed}

pub same-or_other : (p q : ℕ) → (p ≡ q) ⊎ (p ≢ q)
same-or_other p q = elim (Bool-cases (p == q)) [
  | inl e ↦ inl (ground arith)
  | inr e ↦ inr (λ z. ground arith)
]

-- What stands in a slot after a key has been put into an empty one.
module _ (table : ℕ → ℕ) (slot key : ℕ) (was_empty : table slot ≡ 0) where
  pub update-kept : (p : ℕ) → table p ≢ 0 → update table slot key p ≡ table p
  update-kept p h = update-other table slot key p (λ z. h (ap table z ∙ was_empty))

  pub update-full : (p : ℕ) → table p ≢ 0 → update table slot key p ≢ 0
  update-full p h = λ z. h (sym (update-kept p h) ∙ z)

  pub update-Present : (k : ℕ) → k ≢ 0 → Present k table → Present k (update table slot key)
  update-Present k h (p, e) = (p, update-kept p (λ z. h (sym e ∙ z)) ∙ e)

  pub update-only : (k : ℕ) → Present k (update table slot key) → (k ≡ key) ⊎ Present k table
  update-only k (p, e) = elim (same-or_other p slot) [
    | inl z ↦ inl (sym e ∙ (ap (update table slot key) z ∙ update-same table slot key))
    | inr n ↦ inr (p, sym (update-other table slot key p n) ∙ e)
  ]

-- A key put into the first empty slot from its index can be found, and so can the others.
pub Placed-Hashed :
    (shift top e key : ℕ) (table : ℕ → ℕ) {o : Option (ℕ → ℕ)}
    → Hashed shift top table
    → key ≢ 0
    → top ≤ e
    → (r : Placed table key (table_index shift key) e o)
    → Hashed shift (suc e) (update table r.slot key)
Placed-Hashed shift top e key table h nz l r =
    let w = update table r.slot key in
    let z = r.was_empty in
    let at_slot = update-same table r.slot key in
    record {
      behind = λ p f. elim (same-or_other p r.slot) [
        | inl g ↦ rw (g, at_slot) r.from_index
        | inr n ↦
            let old = update-other table r.slot key p n in rw old (h.behind p (λ y. f (old ∙ y)))
      ];
      reached = λ p q f lo hi. elim (same-or_other q r.slot) [
        | inl g ↦ rw (g, at_slot) nz
        | inr m ↦ elim (same-or_other p r.slot) [
          | inl g ↦
              let lo' : table_index shift key ≤ q =
                subst (λ x. table_index shift x ≤ q) (ap w g ∙ at_slot) lo in
              let below : q < r.slot = ground (arith, m) in
              update-full table r.slot key z q (r.full q lo' below)
          | inr n ↦
              let old = update-other table r.slot key p n in
              update-full table r.slot key z q
                (h.reached p q (λ y. f (old ∙ y)) (subst (λ x. table_index shift x ≤ q) old lo) hi)
        ]
      ];
      empty = λ p g.
          update-other table r.slot key p (λ y. omega (arith, r.no_later, y))
          ∙ h.empty p (omega arith);
    }
