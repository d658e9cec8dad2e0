-- ===== src/Names/Tests.antt =====
-- names.c on concrete tables: the witnesses of the theorems, and runs.
use smchr.Prelude.{ℕ, suc, ◌+◌, ◌≡◌, refl, Option, none, some, true, false, Bool, arith, update}
use smchr.Names.{
  vintage_amd64, modern_amd64, ptestc, Names, names_init, table_lookup, table_insert, unique_name,
  table_grow, rehash_all, rehash, insert_from, lookup_from,
}
use smchr.Names.Table.{Usable}
use smchr.Names.Lookup.{LooksUp, table_lookup-insert}
use smchr.Names.Modern.{overwritten, modern_lookup-insert}
use smchr.Names.Fresh.{Fresh, unique_name-Fresh}

names_init-Usable : Usable 0 names_init
names_init-Usable = record {
  len = refl;
  hashed = record {
    behind = λ p f. elim (f refl) [ ];
    reached = λ p q f l h. elim (f refl) [ ];
    empty = λ p h. refl;
  };
}

table_lookup-insert_example : LooksUp 300 names_init (table_insert vintage_amd64 names_init 300)
table_lookup-insert_example =
    table_lookup-insert 300 0 names_init (λ e. ground arith) names_init-Usable (ground arith)
      (λ h p l. refl)

-- Names are numbers, hashed by themselves and one.
abbrev plus : ℕ → ℕ → ℕ
plus base id = base + id

abbrev hash : ℕ → ℕ
hash name = suc name

unique_name-Fresh_example :
    Fresh hash names_init.table (unique_name vintage_amd64 plus hash 1 names_init 7 none)
unique_name-Fresh_example =
    unique_name-Fresh plus hash 0 1 0 names_init 7 none (λ id e. ground arith) names_init-Usable
      (record { fits = ground arith; inside = λ h p l. refl }) (λ (p, e). ground arith)
      (ground arith)

-- A table of four slots. The keys 3 and 7 have the same index, so 7 stands past the end.
abbrev displaced : Names
displaced = record names_init {
  table = update (update (λ i. 0) 3 3) 4 7;
  table_len = 4;
  table_shift = 2;
  table_usage = 2;
}

abbrev lookup_after : Option Names → ℕ → Option Bool
lookup_after none key = none
lookup_after (some s) key = table_lookup vintage_amd64 s key

displaced_before : table_lookup vintage_amd64 displaced 7 ≡ some true
unfolding lookup_from
displaced_before = refl

-- The next insertion doubles the table, and 7 is not found any more.
displaced_after : lookup_after (table_insert vintage_amd64 displaced 1) 7 ≡ some false
unfolding table_insert table_grow rehash_all rehash insert_from lookup_from
displaced_after = refl

-- In the build MODERN_AMD64 the key 257 takes the slot of the key 513, which is not found any more.
abbrev first_key : Names
first_key = overwritten names_init 513

modern_lookup-insert_example :
    (table_insert modern_amd64 first_key 257 ≡ some (overwritten first_key 257))
    × (table_lookup modern_amd64 (overwritten first_key 257) 513 ≡ some (ptestc 128 257 513))
modern_lookup-insert_example = modern_lookup-insert first_key 257 513 (ground arith) (ground arith)

key_lost : table_lookup modern_amd64 (overwritten first_key 257) 513 ≡ some false
unfolding lookup_from ptestc
key_lost = refl
