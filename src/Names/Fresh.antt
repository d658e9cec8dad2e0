-- ===== src/Names/Fresh.antt =====
-- names.c: `unique_name` makes a name that is not registered, and registers it.
use smchr.Prelude.{
  ℕ, zero, suc, ◌*◌, ◌%◌, ◌^◌, ◌≤◌, ◌<◌, ◌≡◌, refl, ◌≢◌, inl, inr, true, false, Option, none, some,
  arith,
}
use smchr.Names.{
  vintage_amd64, Names, table_end, table_lookup, table_insert, next_id, named, unique_name,
}
use smchr.Names.Probe.{Present}
use smchr.Names.Table.{Usable, upto, table_lookup-Present, table_insert-Inserted}

-- The number that the round after `m` others takes.
abbrev pub id_after : ℕ → Names → Option ℕ → ℕ
id_after zero s c = let (id, s', c') = next_id s c in id
id_after (suc m) s none = let (id, s', c') = next_id s none in id_after m s' none
id_after (suc m) s (some d) = let (id, s', c') = next_id s (some d) in id_after m s' c'

-- There is room for one key more, and if the table is half full, no key stands past its end.
pub record Room (top : ℕ) (s : Names) : Type 0 where
  pub fits : upto top (s.table_len * 3) < table_end
  pub inside : s.table_len < suc s.table_usage * 2 → (p : ℕ) → s.table_len ≤ p → s.table p ≡ 0

Usable-counted :
    (top : ℕ) (s : Names) (c : ℕ) → Usable top s → Usable top (record s { counter = c })
Usable-counted top s c u = record { len = u.len; hashed = u.hashed }

Room-counted : (top : ℕ) (s : Names) (c : ℕ) → Room top s → Room top (record s { counter = c })
Room-counted top s c r = record { fits = r.fits; inside = r.inside }

module _ {Name : Type 0} (hash_cstring : Name → ℕ) where
  -- The name made was not in the table and is; the others are where they were.
  pub record Fresh (before : ℕ → ℕ) (o : Option (Name × Names × Option ℕ)) : Type 0 where
    pub name : Name
    pub after : Names
    pub counter_left : Option ℕ
    pub result : o ≡ some (name, after, counter_left)
    pub absent : Present (hash_cstring name) before → ⊥
    pub present : Present (hash_cstring name) after.table
    pub kept : (k : ℕ) → k ≢ 0 → Present k before → Present k after.table
    pub top_after : ℕ
    pub usable : Usable top_after after

module _ {Name : Type 0} (format : Name → ℕ → Name) (hash_cstring : Name → ℕ) where
  -- A round: the name is taken, or the next number is tried.
  round :
      (top : ℕ) (s : Names) (name : Name) (c : Option ℕ) (again : Option (Name × Names × Option ℕ))
      → hash_cstring name ≢ 0
      → Usable top s
      → Room top s
      → (Present (hash_cstring name) s.table → Fresh hash_cstring s.table again)
      → Fresh hash_cstring s.table (elim (table_lookup vintage_amd64 s (hash_cstring name)) [
        | none ↦ none
        | some true ↦ again
        | some false ↦ named name c (table_insert vintage_amd64 s (hash_cstring name))
      ])
  round top s name c again nz u r next =
      let key = hash_cstring name in
      let fits = r.fits in
      elim (table_lookup-Present top key s u (omega arith)) [
        | inl (e, p) ↦ rw e (next p)
        | inr (e, absent) ↦
            let i = table_insert-Inserted key top s nz u r.fits r.inside in
            record {
              name = name;
              after = i.after;
              counter_left = c;
              result = rw (e, i.result) refl;
              absent = absent nz;
              present = i.set.present;
              kept = i.set.kept;
              top_after = i.top_after;
              usable = i.usable;
            }
      ]

  -- In the build VINTAGE_AMD64, `unique_name` ends within the rounds up to a number whose name is not
  -- registered. Its name was not in the table before and is in it after, with all keys there before.
  -- The table is usable and has room, and no name that can be made hashes to 0, which marks an empty
  -- slot.
  pub unique_name-Fresh :
      (m n top : ℕ) (s : Names) (base : Name) (c : Option ℕ)
      → ((id : ℕ) → hash_cstring (format base id) ≢ 0)
      → Usable top s
      → Room top s
      → (Present (hash_cstring (format base (id_after m s c))) s.table → ⊥)
      → m < n
      → Fresh hash_cstring s.table (unique_name vintage_amd64 format hash_cstring n s base c)
  unfolding unique_name
  unique_name-Fresh m zero top s base c nz u r ab l = let bad : ⊥ = omega arith in elim bad [ ]
  unique_name-Fresh zero (suc n) top s base none nz u r ab l =
      let s' = record s { counter = suc s.counter % 2 ^ 64 } in
      round top s' (format base s.counter) none
        (unique_name vintage_amd64 format hash_cstring n s' base none) (nz s.counter)
        (Usable-counted top s (suc s.counter % 2 ^ 64) u)
        (Room-counted top s (suc s.counter % 2 ^ 64) r) (λ p. elim (ab p) [ ])
  unique_name-Fresh zero (suc n) top s base (some d) nz u r ab l =
      round top s (format base d) (some (suc d % 2 ^ 64))
        (unique_name vintage_amd64 format hash_cstring n s base (some (suc d % 2 ^ 64))) (nz d) u r
        (λ p. elim (ab p) [ ])
  unique_name-Fresh (suc m) (suc n) top s base none nz u r ab l =
      let s' = record s { counter = suc s.counter % 2 ^ 64 } in
      let u' = Usable-counted top s (suc s.counter % 2 ^ 64) u in
      let r' = Room-counted top s (suc s.counter % 2 ^ 64) r in
      round top s' (format base s.counter) none
        (unique_name vintage_amd64 format hash_cstring n s' base none) (nz s.counter) u' r'
        (λ p. unique_name-Fresh m n top s' base none nz u' r' ab (omega arith))
  unique_name-Fresh (suc m) (suc n) top s base (some d) nz u r ab l =
      round top s (format base d) (some (suc d % 2 ^ 64))
        (unique_name vintage_amd64 format hash_cstring n s base (some (suc d % 2 ^ 64))) (nz d) u r
        (λ p. unique_name-Fresh m n top s base (some (suc d % 2 ^ 64)) nz u r ab (omega arith))
