-- ===== src/Names/Table.antt =====
-- names.c: the table as a set of keys, for `table_lookup`, `table_grow` and `table_insert`.
use smchr.Prelude.{
  ℕ, zero, suc, ◌+◌, ◌-◌, ◌*◌, ◌^◌, ◌≤◌, ◌<◌, ◌≡◌, refl, sym, ◌∙◌, ap, subst, ◌≢◌, ◌⊎◌, inl, inr,
  true, false, Option, some, arith, ltb, Bool-cases, update, update-same,
}
use native.Mathlib.Nat.{pow-suc}
use smchr.Names.{
  vintage_amd64, Names, table_index, table_end, rehash_all, table_do_insert, table_lookup,
  table_grow, table_insert,
}
use smchr.Names.Index.{index-bound}
use smchr.Names.Probe.{Present, Hashed, insert_from-Placed, lookup_from-hit, lookup_from-cases}
use smchr.Names.Insert.{Placed-Hashed, update-Present, update-only}
use smchr.Names.Grow.{Growing, SameKeys, Rehashed, rehash-Rehashed}

rehash_all-Rehashed :
    (n s i : ℕ) (t : ℕ → ℕ)
    → i + n ≡ 2 ^ s
    → 2 ^ s * 3 ≤ table_end
    → Growing s i t
    → Rehashed s (2 ^ s) t (rehash_all vintage_amd64 n (suc s) i t)
unfolding rehash_all
rehash_all-Rehashed zero s i t e room g = record {
  after = t;
  result = refl;
  growing = subst (λ x. Growing s x t) (omega arith) g;
  same = λ k h. (λ pr. pr, λ pr. pr);
}
rehash_all-Rehashed (suc n) s i t e room g =
    let r = rehash-Rehashed s i t (omega arith) room g in
    let rest = rehash_all-Rehashed n s (suc i) r.after (omega arith) room r.growing in
    record {
      after = rest.after;
      result = rw (rehash_all, r.result) rest.result;
      growing = rest.growing;
      same = λ k h.
          let (a, b) = r.same k h in let (c, d) = rest.same k h in (λ x. c (a x), λ x. b (d x));
    }

Growing-start :
    (s top : ℕ) (t : ℕ → ℕ) → Hashed s top t → ((p : ℕ) → 2 ^ s ≤ p → t p ≡ 0) → Growing s 0 t
Growing-start s top t h z = record {
  settled = λ p f o. elim o [
    | inl l ↦ let bad : ⊥ = omega arith in elim bad [ ]
    | inr l ↦ elim (f (z p l)) [ ]
  ];
  upper = λ p f l. elim (f (z p l)) [ ];
  waiting = λ p f l m. h.behind p f;
  empty = λ p l. z p (omega arith);
}

Growing-end : (s : ℕ) (t : ℕ → ℕ) → Growing s (2 ^ s) t → Hashed (suc s) (2 ^ s * 3) t
Growing-end s t g =
    let both : (p : ℕ) → (p < 2 ^ s) ⊎ (2 ^ s ≤ p) = λ p. elim (Bool-cases (ltb p (2 ^ s))) [
      | inl a ↦ inl (ground arith)
      | inr a ↦ inr (ground arith)
    ] in
    record {
      behind = λ p f. let (a, b) = g.settled p f (both p) in a;
      reached = λ p q f l m. let (a, b) = g.settled p f (both p) in b q l m;
      empty = λ p l. g.empty p (omega arith);
    }

-- A table whose keys can be found, of 2 ^ table_shift slots before those that probes run on to.
pub record Usable (top : ℕ) (s : Names) : Type 0 where
  pub len : s.table_len ≡ 2 ^ s.table_shift
  pub hashed : Hashed s.table_shift top s.table

-- The greater one of two bounds.
abbrev pub upto : ℕ → ℕ → ℕ
upto a b = a + (b - a)

-- In a usable table `table_lookup` ends, and says whether the key is in the table.
pub table_lookup-Present :
    (top key : ℕ) (s : Names)
    → Usable top s
    → upto top s.table_len < table_end
    → ((table_lookup vintage_amd64 s key ≡ some true) × Present key s.table)
      ⊎ ((table_lookup vintage_amd64 s key ≡ some false) × (key ≢ 0 → Present key s.table → ⊥))
table_lookup-Present top key s u room =
    let e = upto top s.table_len in
    let idx = table_index s.table_shift key in
    let b = index-bound s.table_shift key in
    let z = u.hashed.empty e (omega arith) in
    let lo : idx ≤ e = omega (arith, u.len, b) in
    elim (lookup_from-cases (table_end - idx) e idx key s.table z lo (omega arith)) [
      | inl (f, p) ↦ inl (f, p)
      | inr f ↦ inr (
        f,
        λ nz (p, w).
            let full : s.table p ≢ 0 = λ y. nz (sym w ∙ y) in
            let home : table_index s.table_shift (s.table p) ≡ idx =
              ap (table_index s.table_shift) w in
            let below : p < e = elim (Bool-cases (ltb p e)) [
              | inl a ↦ ground (arith, a)
              | inr a ↦ elim (full (u.hashed.empty p (ground (arith, a)))) [ ]
            ] in
            let hit =
              lookup_from-hit (table_end - idx) p idx key s.table w
                (subst (λ x. x ≤ p) home (u.hashed.behind p full)) (omega arith)
                (λ q l m. u.hashed.reached p q full (subst (λ x. x ≤ q) (sym home) l) m) in
            let clash = sym hit ∙ f in ground (arith, clash),
      )
    ]

-- A set of keys has grown by one key.
pub record OneMore (key : ℕ) (t w : ℕ → ℕ) : Type 0 where
  pub present : Present key w
  pub kept : (k : ℕ) → k ≢ 0 → Present k t → Present k w
  pub only : (k : ℕ) → k ≢ 0 → Present k w → (k ≡ key) ⊎ Present k t

pub record Inserted (key top : ℕ) (s : Names) (o : Option Names) : Type 0 where
  pub after : Names
  pub result : o ≡ some after
  pub top_after : ℕ
  pub no_further : top_after ≤ suc (upto top (s.table_len * 3))
  pub no_longer : after.table_len ≤ s.table_len * 2
  pub usable : Usable top_after after
  pub set : OneMore key s.table after.table

at_home :
    (key top : ℕ) (s : Names)
    → key ≢ 0
    → Usable top s
    → upto top s.table_len < table_end
    → (r : ℕ → ℕ) × (table_do_insert vintage_amd64 s.table key (table_index s.table_shift key)
        ≡ some r)
      × Hashed s.table_shift (suc (upto top s.table_len)) r
      × OneMore key s.table r
at_home key top s nz u room =
    let e = upto top s.table_len in
    let idx = table_index s.table_shift key in
    let b = index-bound s.table_shift key in
    let z = u.hashed.empty e (omega arith) in
    let r =
      insert_from-Placed (table_end - idx) e idx key s.table z (omega (arith, u.len, b))
        (omega arith) in
    (
      update s.table r.slot key,
      r.result,
      Placed-Hashed s.table_shift top e key s.table u.hashed nz (omega arith) r,
      record {
        present = (r.slot, update-same s.table r.slot key);
        kept = λ k h p. update-Present s.table r.slot key r.was_empty k h p;
        only = λ k h p. update-only s.table r.slot key r.was_empty k p;
      },
    )

SameKeys-OneMore : (key : ℕ) (t g w : ℕ → ℕ) → SameKeys t g → OneMore key g w → OneMore key t w
SameKeys-OneMore key t g w same one = record {
  present = one.present;
  kept = λ k h p. let (a, b) = same k h in one.kept k h (a p);
  only =
      λ k h p. elim (one.only k h p) [ inl e ↦ inl e | inr q ↦ let (a, b) = same k h in inr (b q) ];
}

pub record Grown (s : Names) (o : Option Names) : Type 0 where
  pub after : Names
  pub result : o ≡ some after
  pub doubled : after.table_len ≡ s.table_len * 2
  pub usable : Usable (s.table_len * 3) after
  pub same : SameKeys s.table after.table

-- `table_grow` of a usable table with no key past its end leaves a usable table, twice as long, with
-- the same keys.
pub table_grow-Grown :
    (top : ℕ) (s : Names)
    → Usable top s
    → s.table_len * 3 ≤ table_end
    → ((p : ℕ) → s.table_len ≤ p → s.table p ≡ 0)
    → Grown s (table_grow vintage_amd64 s)
unfolding table_grow
table_grow-Grown top s u room inside =
    let z : (p : ℕ) → 2 ^ s.table_shift ≤ p → s.table p ≡ 0 =
      λ p l. inside p (omega (arith, u.len)) in
    let g =
      rehash_all-Rehashed s.table_len s.table_shift 0 s.table (omega (arith, u.len))
        (omega (arith, u.len)) (Growing-start s.table_shift top s.table u.hashed z) in
    record {
      after = record s {
        table = g.after;
        table_len = s.table_len * 2;
        table_shift = suc s.table_shift;
      };
      result = rw g.result refl;
      doubled = refl;
      usable = record {
        len = ap (λ x. x * 2) u.len ∙ sym (pow-suc 2 s.table_shift);
        hashed =
            subst (λ x. Hashed (suc s.table_shift) (x * 3) g.after) (sym u.len)
              (Growing-end s.table_shift g.after g.growing);
      };
      same = g.same;
    }

-- `table_insert` in a usable table ends within the buffer and leaves a usable table with one key more,
-- if, when the table is half full, no key stands past its end.
pub table_insert-Inserted :
    (key top : ℕ) (s : Names)
    → key ≢ 0
    → Usable top s
    → upto top (s.table_len * 3) < table_end
    → (s.table_len < suc s.table_usage * 2 → (p : ℕ) → s.table_len ≤ p → s.table p ≡ 0)
    → Inserted key top s (table_insert vintage_amd64 s key)
unfolding table_insert
table_insert-Inserted key top s nz u room inside =
    elim (Bool-cases (ltb s.table_len (suc s.table_usage * 2))) [
      | inl a ↦
          let used = record s { table_usage = suc s.table_usage } in
          let v : Usable top used = record { len = u.len; hashed = u.hashed } in
          let g = table_grow-Grown top used v (omega arith) (inside (ground arith)) in
          let n = g.after in
          let (w, f, h, one) =
            at_home key (s.table_len * 3) n nz g.usable (omega (arith, g.doubled)) in
          record {
            after = record n { table = w };
            result = rw (table_insert, a, g.result, f) refl;
            top_after = suc (upto (s.table_len * 3) n.table_len);
            no_further = omega (arith, g.doubled);
            no_longer = omega (arith, g.doubled);
            usable = record { len = g.usable.len; hashed = h };
            set = SameKeys-OneMore key s.table n.table w g.same one;
          }
      | inr a ↦
          let used = record s { table_usage = suc s.table_usage } in
          let v : Usable top used = record { len = u.len; hashed = u.hashed } in
          let (w, f, h, one) = at_home key top used nz v (omega arith) in
          record {
            after = record used { table = w };
            result = rw (table_insert, a, f) refl;
            top_after = suc (upto top s.table_len);
            no_further = omega arith;
            no_longer = omega arith;
            usable = record { len = u.len; hashed = h };
            set = one;
          }
    ]
