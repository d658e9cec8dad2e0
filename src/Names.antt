-- ===== src/Names.antt =====
-- names.c: the hash table of the names that may clash, and the generator of fresh names. A hash_t is a
-- number whose low word is `key[0]`, HASH(0, 0) is 0 and marks an empty slot. The table is a function
-- of the index; the buffer of 1 GB has room for `table_end` slots, and `none` stands for a probe
-- past its end. What `hash_iseq` tests depends on the build.
pub mod Probe
pub mod Index
pub mod Insert
pub mod Grow
pub mod Table
pub mod Lookup
pub mod Fresh
pub mod Modern
mod Tests
use smchr.Prelude.{
  ℕ, zero, suc, ◌+◌, ◌-◌, ◌*◌, ◌/◌, ◌%◌, ◌^◌, Bool, true, false, Option, none, some, ◌==◌, ltb,
  update, if◌then◌else◌,
}

abbrev pub table_end : ℕ
table_end = 67108864

pub record Names : Type 0 where
  pub table : ℕ → ℕ
  pub table_len : ℕ
  pub table_shift : ℕ
  pub table_usage : ℕ
  pub counter : ℕ

abbrev pub names_init : Names
names_init = record {
  table = λ i. 0;
  table_len = 256;
  table_shift = 8;
  table_usage = 0;
  counter = 0;
}

-- `buffer_free` clears the first `table_len` slots.
abbrev pub names_reset : Names → Names
names_reset s = record {
  table = λ i. if ltb i s.table_len then 0 else s.table i;
  table_len = 256;
  table_shift = 8;
  table_usage = 0;
  counter = 0;
}

-- VINTAGE_AMD64 or MODERN_AMD64, which the Makefile takes if no other is named.
pub data Build : Type 0 where
  vintage_amd64 : Build
  modern_amd64 : Build

-- The instruction ptest: no bit of `y`, of those counted, is missing in `x`.
unfoldable pub ptestc : ℕ → ℕ → ℕ → Bool
ptestc zero x y = true
ptestc (suc n) x y =
    let rest = ptestc n (x / 2) (y / 2) in
    if y % 2 == 0 then rest else if x % 2 == 0 then false else rest

abbrev pub hash_iseq : Build → ℕ → ℕ → Bool
hash_iseq vintage_amd64 x y = x == y
hash_iseq modern_amd64 x y = ptestc 128 x y

-- The mask keeps the low `shift` bits.
abbrev pub table_index : ℕ → ℕ → ℕ
table_index shift key = key % 2 ^ 64 % 2 ^ shift

-- The loop of table_lookup, from slot `idx`, with a number of slots left.
unfoldable pub lookup_from : Build → ℕ → (ℕ → ℕ) → ℕ → ℕ → Option Bool
lookup_from build zero table idx key = none
lookup_from build (suc n) table idx key = elim (hash_iseq build (table idx) key) [
  | true ↦ some true
  | false ↦ elim (hash_iseq build (table idx) 0) [
    | true ↦ some false
    | false ↦ lookup_from build n table (suc idx) key
  ]
]

abbrev pub table_lookup : Build → Names → ℕ → Option Bool
table_lookup build s key =
    let idx = table_index s.table_shift key in lookup_from build (table_end - idx) s.table idx key

-- The loop of table_do_insert.
unfoldable pub insert_from : Build → ℕ → (ℕ → ℕ) → ℕ → ℕ → Option (ℕ → ℕ)
insert_from build zero table key idx = none
insert_from build (suc n) table key idx = elim (hash_iseq build (table idx) 0) [
  | true ↦ some (update table idx key)
  | false ↦ insert_from build n table key (suc idx)
]

abbrev pub table_do_insert : Build → (ℕ → ℕ) → ℕ → ℕ → Option (ℕ → ℕ)
table_do_insert build table key idx = insert_from build (table_end - idx) table key idx

-- A round of the loop of table_grow, under the new shift.
unfoldable pub rehash : Build → ℕ → (ℕ → ℕ) → ℕ → Option (ℕ → ℕ)
rehash build shift table i =
    let key = table i in
    let idx = table_index shift key in
    elim (hash_iseq build key 0) [
      | true ↦ some table
      | false ↦ elim (idx == i) [
        | true ↦ some table
        | false ↦ table_do_insert build (update table i 0) key idx
      ]
    ]

unfoldable pub rehash_all : Build → ℕ → ℕ → ℕ → (ℕ → ℕ) → Option (ℕ → ℕ)
rehash_all build zero shift i table = some table
rehash_all build (suc n) shift i table = elim (rehash build shift table i) [
  | none ↦ none
  | some table' ↦ rehash_all build n shift (suc i) table'
]

abbrev with_table : Names → Option (ℕ → ℕ) → Option Names
with_table s none = none
with_table s (some t) = some (record s { table = t })

unfoldable pub table_grow : Build → Names → Option Names
table_grow build s =
    with_table (record s { table_len = s.table_len * 2; table_shift = suc s.table_shift })
      (rehash_all build s.table_len (suc s.table_shift) 0 s.table)

abbrev insert_at_home : Build → ℕ → Option Names → Option Names
insert_at_home build key none = none
insert_at_home build key (some s) =
    with_table s (table_do_insert build s.table key (table_index s.table_shift key))

unfoldable pub table_insert : Build → Names → ℕ → Option Names
table_insert build s key =
    let used = record s { table_usage = suc s.table_usage } in
    elim (ltb used.table_len (used.table_usage * 2)) [
      | true ↦ insert_at_home build key (table_grow build used)
      | false ↦ insert_at_home build key (some used)
    ]

-- The number taken from `*counter_ptr`, or from `counter` if the pointer is null, and the number left
-- in its place.
abbrev pub next_id : Names → Option ℕ → ℕ × Names × Option ℕ
next_id s none = (s.counter, record s { counter = suc s.counter % 2 ^ 64 }, none)
next_id s (some c) = (c, s, some (suc c % 2 ^ 64))

-- The calls of snprintf, as `format` of `base` and the number, and of hash_cstring are parameters,
-- as is the type of the strings. (snprintf prints within the size computed for it, and the panic
-- behind it is left out.)
module _ {Name : Type 0} where
  abbrev pub named : Name → Option ℕ → Option Names → Option (Name × Names × Option ℕ)
  named name c none = none
  named name c (some s) = some (name, s, c)

module _ (build : Build) {Name : Type 0} (format : Name → ℕ → Name) (hash_cstring : Name → ℕ) where
  -- The loop of unique_name, within a number of rounds. The result holds the name, the state and what
  -- is left in `*counter_ptr`.
  unfoldable pub unique_name : ℕ → Names → Name → Option ℕ → Option (Name × Names × Option ℕ)
  unique_name zero s base c = none
  unique_name (suc n) s base c =
      let (id, s', c') = next_id s c in
      let name = format base id in
      let key = hash_cstring name in
      let again = unique_name n s' base c' in
      elim (table_lookup build s' key) [
        | none ↦ none
        | some true ↦ again
        | some false ↦ named name c' (table_insert build s' key)
      ]

module _ (build : Build) {Name : Type 0} (hash_cstring : Name → ℕ) where
  -- `underscored` tests that the name starts with '_'.
  unfoldable pub register_name : (Name → Bool) → Names → Name → Option Names
  register_name underscored s name = elim (underscored name) [
    | true ↦ table_insert build s (hash_cstring name)
    | false ↦ some s
  ]
