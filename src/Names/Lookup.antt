-- ===== src/Names/Lookup.antt =====
-- names.c: `table_lookup` after `table_insert`.
use smchr.Prelude.{
  ℕ, suc, ◌*◌, ◌≤◌, ◌<◌, ◌≡◌, sym, ◌∙◌, subst, ◌≢◌, ◌⊎◌, inl, inr, true, false, Option, none, some,
  arith, ◌==◌, if◌then◌else◌, Bool-cases,
}
use smchr.Names.{vintage_amd64, Names, table_end, table_lookup, table_insert}
use smchr.Names.Probe.{Present}
use smchr.Names.Table.{Usable, upto, table_lookup-Present, table_insert-Inserted, OneMore}

-- What a lookup says, by which keys are in the table.
abbrev Says : ℕ → Names → Type 0
Says k s =
    ((table_lookup vintage_amd64 s k ≡ some true) × Present k s.table)
    ⊎ ((table_lookup vintage_amd64 s k ≡ some false) × (k ≢ 0 → Present k s.table → ⊥))

Says-true :
    (k : ℕ) (s : Names)
    → k ≢ 0
    → Says k s
    → Present k s.table
    → table_lookup vintage_amd64 s k ≡ some true
Says-true k s nz (inl (e, p)) q = e
Says-true k s nz (inr (e, absent)) q = elim (absent nz q) [ ]

Says-same :
    (k : ℕ) (s s' : Names)
    → k ≢ 0
    → Says k s
    → Says k s'
    → (Present k s.table → Present k s'.table)
    → (Present k s'.table → Present k s.table)
    → table_lookup vintage_amd64 s' k ≡ table_lookup vintage_amd64 s k
Says-same k s s' nz (inl (e, p)) there f g = Says-true k s' nz there (f p) ∙ sym e
Says-same k s s' nz (inr (e, absent)) (inl (e', p)) f g = elim (absent nz (g p)) [ ]
Says-same k s s' nz (inr (e, absent)) (inr (e', absent_later)) f g = e' ∙ sym e

abbrev pub LooksUp : ℕ → Names → Option Names → Type 0
LooksUp key s none = ⊥
LooksUp key s (some s') =
    (k : ℕ)
    → k ≢ 0
    → table_lookup vintage_amd64 s' k
      ≡ (if k == key then some true else table_lookup vintage_amd64 s k)

looks-up :
    (key top top' : ℕ) (s s' : Names) (k : ℕ)
    → k ≢ 0
    → Usable top s
    → Usable top' s'
    → upto top s.table_len < table_end
    → upto top' s'.table_len < table_end
    → OneMore key s.table s'.table
    → table_lookup vintage_amd64 s' k
      ≡ (if k == key then some true else table_lookup vintage_amd64 s k)
looks-up key top top' s s' k nz u u' r r' one =
    let before = table_lookup-Present top k s u r in
    let after = table_lookup-Present top' k s' u' r' in
    elim (Bool-cases (k == key)) [
      | inl e ↦
          let z : k ≡ key = ground (arith, e) in
          rw e (Says-true k s' nz after (subst (λ x. Present x s'.table) (sym z) one.present))
      | inr e ↦ rw e (
          Says-same k s s' nz before after (one.kept k nz) (λ p. elim (one.only k nz p) [
            | inl z ↦ let bad : ⊥ = ground (arith, e, z) in elim bad [ ]
            | inr q ↦ q
          ]))
    ]

-- In the build VINTAGE_AMD64, after a key that is not 0 has been inserted into a usable table with room, which has no key past its end if it is
-- half full, a lookup finds the key, and says of every other key what it said before.
pub table_lookup-insert :
    (key top : ℕ) (s : Names)
    → key ≢ 0
    → Usable top s
    → suc (upto top (s.table_len * 3)) < table_end
    → (s.table_len < suc s.table_usage * 2 → (p : ℕ) → s.table_len ≤ p → s.table p ≡ 0)
    → LooksUp key s (table_insert vintage_amd64 s key)
table_lookup-insert key top s nz u room inside =
    let i = table_insert-Inserted key top s nz u (omega arith) inside in
    rw i.result (λ k h.
      looks-up key top i.top_after s i.after k h u i.usable (omega arith)
        (omega (arith, i.no_further, i.no_longer)) i.set)
