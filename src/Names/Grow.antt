-- ===== src/Names/Grow.antt =====
-- names.c: `table_grow`, the loop that moves every key of the old table to its new index.
use smchr.Prelude.{
  ℕ, suc, ◌+◌, ◌-◌, ◌*◌, ◌^◌, ◌≤◌, ◌<◌, ◌≡◌, refl, sym, ◌∙◌, ap, subst, ◌≢◌, ◌⊎◌, inl, inr, Option,
  some, arith, ltb, ◌==◌, update, update-same, update-other, Bool-cases,
}
use native.Mathlib.Nat.{pow-suc}
use smchr.Names.{vintage_amd64, table_index, table_end, rehash}
use smchr.Names.Index.{index-bound, index-grows}
use smchr.Names.Probe.{Present, Placed, insert_from-Placed}
use smchr.Names.Insert.{same-or_other, update-full, update-Present, update-only}

-- Between two rounds: `i` slots of the old table, of length 2 ^ s, have been visited. What stands there
-- or in the new half can be found from its new index; what waits stands no earlier than its index.
pub record Growing (s i : ℕ) (table : ℕ → ℕ) : Type 0 where
  pub settled :
      (p : ℕ)
      → table p ≢ 0
      → (p < i) ⊎ (2 ^ s ≤ p)
      → (table_index (suc s) (table p) ≤ p)
        × ((q : ℕ) → table_index (suc s) (table p) ≤ q → q ≤ p → table q ≢ 0)
  pub upper : (p : ℕ) → table p ≢ 0 → 2 ^ s ≤ p → 2 ^ s ≤ table_index (suc s) (table p)
  pub waiting : (p : ℕ) → table p ≢ 0 → i ≤ p → p < 2 ^ s → table_index s (table p) ≤ p
  pub empty : (p : ℕ) → 2 ^ s + 2 ^ s + i ≤ p → table p ≡ 0

-- The same keys stand in both tables.
abbrev pub SameKeys : (ℕ → ℕ) → (ℕ → ℕ) → Type 0
SameKeys t w = (k : ℕ) → k ≢ 0 → (Present k t → Present k w) × (Present k w → Present k t)

-- A slot that is empty, or holds a key at its new index, counts as visited as it is.
stays :
    (s i : ℕ) (t : ℕ → ℕ)
    → Growing s i t
    → (t i ≢ 0 → table_index (suc s) (t i) ≡ i)
    → Growing s (suc i) t
stays s i t g h = record {
  settled = λ p f o. elim (same-or_other p i) [
    | inl e ↦
        let home : table_index (suc s) (t p) ≡ p =
          subst (λ x. t x ≢ 0 → table_index (suc s) (t x) ≡ x) (sym e) h f in
        (
          omega (arith, home),
          λ q lo hi. let qp : q ≡ p = omega (arith, home) in subst (λ x. t x ≢ 0) (sym qp) f,
        )
    | inr n ↦ g.settled p f (ground (arith, n))
  ];
  upper = g.upper;
  waiting = λ p f l m. g.waiting p f (omega arith) m;
  empty = λ p l. g.empty p (omega arith);
}

module _ (s i : ℕ) (t : ℕ → ℕ) (i-below : i < 2 ^ s) (g : Growing s i t) (nz : t i ≢ 0) where
  -- Where the key of slot `i` may go: to the new half, or before `i`.
  home_place : (2 ^ s ≤ table_index (suc s) (t i)) ⊎ (table_index (suc s) (t i) ≤ i)
  home_place =
      let w = g.waiting i nz (omega arith) i-below in
      let e = index-grows s (t i) in ground (arith, w, e)

  cleared-kept : (p : ℕ) → p ≢ i → update t i 0 p ≡ t p
  cleared-kept p n = update-other t i 0 p n

  cleared-full : (p : ℕ) → update t i 0 p ≢ 0 → (p ≢ i) × (t p ≢ 0)
  cleared-full p f =
      let n : p ≢ i = λ z. f (ap (update t i 0) z ∙ update-same t i 0) in
      (n, λ y. f (cleared-kept p n ∙ y))

  module _ {o : Option (ℕ → ℕ)}
      (r : Placed (update t i 0) (t i) (table_index (suc s) (t i)) (2 ^ s + 2 ^ s + i) o) where
    -- The key comes into the new half from an index there, or no later than slot `i`.
    new_place : ((2 ^ s ≤ r.slot) × (2 ^ s ≤ table_index (suc s) (t i))) ⊎ (r.slot ≤ i)
    new_place = elim home_place [
      | inl l ↦ inl (omega (arith, r.from_index), l)
      | inr l ↦
          let full : r.slot ≤ i = elim (Bool-cases (ltb i r.slot)) [
            | inl b ↦ elim (r.full i l (ground arith) (update-same t i 0)) [ ]
            | inr b ↦ ground arith
          ] in
          inr full
    ]

    abbrev moved : ℕ → ℕ
    moved = update (update t i 0) r.slot (t i)

    moved-old : (p : ℕ) → moved p ≢ 0 → p ≢ r.slot → (moved p ≡ t p) × (p ≢ i) × (t p ≢ 0)
    moved-old p f n =
        let a = update-other (update t i 0) r.slot (t i) p n in
        let (m, h) = cleared-full p (λ y. f (a ∙ y)) in (a ∙ cleared-kept p m, m, h)

    moved-at : (p : ℕ) → p ≡ r.slot → moved p ≡ t i
    moved-at p e = ap moved e ∙ update-same (update t i 0) r.slot (t i)

    -- The slots from the index of a key to its place stay full.
    still_full : (q : ℕ) → q ≢ i → t q ≢ 0 → moved q ≢ 0
    still_full q n f =
        update-full (update t i 0) r.slot (t i) r.was_empty q (λ y. f (sym (cleared-kept q n) ∙ y))

    settled-at :
        (p : ℕ)
        → p ≡ r.slot
        → (table_index (suc s) (t i) ≤ p)
          × ((q : ℕ) → table_index (suc s) (t i) ≤ q → q ≤ p → moved q ≢ 0)
    settled-at p e = (
      omega (arith, r.from_index),
      λ q lo hi. elim (same-or_other q r.slot) [
        | inl z ↦ λ y. nz (sym (moved-at q z) ∙ y)
        | inr n ↦
            update-full (update t i 0) r.slot (t i) r.was_empty q (r.full q lo (ground (arith, n)))
      ],
    )

    settled-old :
        (p : ℕ)
        → p ≢ i
        → t p ≢ 0
        → (p < suc i) ⊎ (2 ^ s ≤ p)
        → (table_index (suc s) (t p) ≤ p)
          × ((q : ℕ) → table_index (suc s) (t p) ≤ q → q ≤ p → moved q ≢ 0)
    settled-old p m f o =
        let (b, c) = g.settled p f (ground (arith, m)) in
        (
          b,
          λ q lo hi.
              let n : q ≢ i = λ z. ground (arith, m, z, g.upper p f) in still_full q n (c q lo hi),
        )

    moves : Growing s (suc i) moved
    moves = record {
      settled = λ p f o. elim (same-or_other p r.slot) [
        | inl e ↦ rw (moved-at p e) (settled-at p e)
        | inr n ↦ let (a, m, h) = moved-old p f n in rw a (settled-old p m h o)
      ];
      upper = λ p f l. elim (same-or_other p r.slot) [
        | inl e ↦ rw (moved-at p e) (ground (arith, e, new_place))
        | inr n ↦ let (a, m, h) = moved-old p f n in rw a (g.upper p h l)
      ];
      waiting = λ p f l m.
          let n : p ≢ r.slot = λ z. ground (arith, z, new_place) in
          let (a, m', h) = moved-old p f n in rw a (g.waiting p h (omega arith) m);
      empty = λ p l.
          update-other (update t i 0) r.slot (t i) p (λ z. omega (arith, z, r.no_later))
          ∙ (cleared-kept p (λ z. omega (arith, z)) ∙ g.empty p (omega arith));
    }

    moves-SameKeys : SameKeys t moved
    moves-SameKeys k h = (
      λ (p, e). elim (same-or_other p i) [
        | inl z ↦ (r.slot, update-same (update t i 0) r.slot (t i) ∙ (ap t (sym z) ∙ e))
        | inr n ↦
            update-Present (update t i 0) r.slot (t i) r.was_empty k h (p, cleared-kept p n ∙ e)
      ],
      λ pr. elim (update-only (update t i 0) r.slot (t i) r.was_empty k pr) [
        | inl e ↦ (i, sym e)
        | inr (p, e) ↦
            let (n, f) = cleared-full p (λ y. h (sym e ∙ y)) in (p, sym (cleared-kept p n) ∙ e)
      ],
    )

-- One round, and all that are left.
pub record Rehashed (s i : ℕ) (t : ℕ → ℕ) (o : Option (ℕ → ℕ)) : Type 0 where
  pub after : ℕ → ℕ
  pub result : o ≡ some after
  pub growing : Growing s i after
  pub same : SameKeys t after

pub rehash-Rehashed :
    (s i : ℕ) (t : ℕ → ℕ)
    → i < 2 ^ s
    → 2 ^ s * 3 ≤ table_end
    → Growing s i t
    → Rehashed s (suc i) t (rehash vintage_amd64 (suc s) t i)
unfolding rehash
rehash-Rehashed s i t l room g =
    let here : SameKeys t t = λ k h. (λ pr. pr, λ pr. pr) in
    elim (Bool-cases (t i == 0)) [
      | inl z ↦ record {
        after = t;
        result = rw (rehash, z) refl;
        growing = stays s i t g (λ f. elim (f (ground (arith, z))) [ ]);
        same = here;
      }
      | inr z ↦
          let nz : t i ≢ 0 = λ y. ground (arith, z, y) in
          elim (Bool-cases (table_index (suc s) (t i) == i)) [
            | inl e ↦ record {
              after = t;
              result = rw (rehash, z, e) refl;
              growing = stays s i t g (λ f. ground (arith, e));
              same = here;
            }
            | inr e ↦
                let idx = table_index (suc s) (t i) in
                let b : idx < 2 ^ s * 2 =
                  subst (λ x. idx < x) (pow-suc 2 s) (index-bound (suc s) (t i)) in
                let top = 2 ^ s + 2 ^ s + i in
                let z0 : update t i 0 top ≡ 0 =
                  cleared-kept s i t l g nz top (λ y. omega (arith, y))
                  ∙ g.empty top (omega arith) in
                let r =
                  insert_from-Placed (table_end - idx) top idx (t i) (update t i 0) z0 (omega arith)
                    (omega arith) in
                record {
                  after = update (update t i 0) r.slot (t i);
                  result = rw (rehash, z, e) r.result;
                  growing = moves s i t l g nz r;
                  same = moves-SameKeys s i t l g nz r;
                }
          ]
    ]
