-- ===== src/Names/Modern.antt =====
-- names.c in the build MODERN_AMD64, where `hash_iseq` is the instruction ptest: every slot passes for
-- an empty one.
use smchr.Prelude.{
  ℕ, zero, suc, ◌-◌, ◌*◌, ◌/◌, ◌<◌, ◌≡◌, refl, ◌∙◌, ap, true, some, arith, ltb, ◌==◌, if◌then◌else◌,
  update, Bool-cases, inl, inr,
}
use smchr.Names.{
  Names, modern_amd64, ptestc, table_end, table_index, lookup_from, table_lookup, insert_from,
  table_do_insert, rehash, rehash_all, table_grow, table_insert, insert_at_home, with_table,
}

ptestc_zero : (n x : ℕ) → ptestc n x 0 ≡ true
unfolding ptestc
ptestc_zero zero x = refl
ptestc_zero (suc n) x = ptestc_zero n (x / 2)

left_over : (idx : ℕ) → idx < table_end → (m : ℕ) × (table_end - idx ≡ suc m)
left_over idx l = (table_end - idx - 1, omega (arith, l))

rehash_all-same :
    (n shift i : ℕ) (table : ℕ → ℕ) → rehash_all modern_amd64 n shift i table ≡ some table
unfolding rehash_all rehash
rehash_all-same zero shift i table = refl
rehash_all-same (suc n) shift i table =
    rw (rehash_all, rehash, ptestc_zero 128 (table i)) (rehash_all-same n shift (suc i) table)

insert_home :
    (m : ℕ) (table : ℕ → ℕ) (key idx : ℕ)
    → insert_from modern_amd64 (suc m) table key idx ≡ some (update table idx key)
unfolding insert_from
insert_home m table key idx = rw (insert_from, ptestc_zero 128 (table idx)) refl

do_insert_home :
    (table : ℕ → ℕ) (key idx : ℕ)
    → idx < table_end
    → table_do_insert modern_amd64 table key idx ≡ some (update table idx key)
do_insert_home table key idx l =
    let (m, e) = left_over idx l in
    ap (λ n. insert_from modern_amd64 n table key idx) e ∙ insert_home m table key idx

lookup_home :
    (m : ℕ) (table : ℕ → ℕ) (idx k : ℕ)
    → lookup_from modern_amd64 (suc m) table idx k ≡ some (ptestc 128 (table idx) k)
unfolding lookup_from
lookup_home m table idx k = elim (Bool-cases (ptestc 128 (table idx) k)) [
  | inl e ↦ rw (lookup_from, e) refl
  | inr e ↦ rw (lookup_from, e, ptestc_zero 128 (table idx)) refl
]

-- The state with one use more, and with the length and the shift of a table that has grown if it is
-- half full, its slots as they were.
abbrev pub counted : Names → Names
counted s =
    let used = record s { table_usage = suc s.table_usage } in
    if ltb s.table_len (suc s.table_usage * 2)
    then record used { table_len = s.table_len * 2; table_shift = suc s.table_shift }
    else used

abbrev pub home : Names → ℕ → ℕ
home s k = table_index s.table_shift k

abbrev pub overwritten : Names → ℕ → Names
overwritten s key = record (counted s) { table = update s.table (home (counted s) key) key }

table_grow-same :
    (s : Names)
    → table_grow modern_amd64 s
      ≡ some (record s { table_len = s.table_len * 2; table_shift = suc s.table_shift })
unfolding table_grow
table_grow-same s =
    ap (with_table (record s { table_len = s.table_len * 2; table_shift = suc s.table_shift }))
      (rehash_all-same s.table_len (suc s.table_shift) 0 s.table)

at_home :
    (s : Names) (key : ℕ)
    → home s key < table_end
    → insert_at_home modern_amd64 key (some s)
      ≡ some (record s { table = update s.table (home s key) key })
at_home s key l = ap (with_table s) (do_insert_home s.table key (home s key) l)

insert-overwritten :
    (s : Names) (key : ℕ)
    → home (counted s) key < table_end
    → table_insert modern_amd64 s key ≡ some (overwritten s key)
unfolding table_insert
insert-overwritten s key l =
    let used = record s { table_usage = suc s.table_usage } in
    elim (Bool-cases (ltb s.table_len (suc s.table_usage * 2))) [
      | inl e ↦
          let grown = record used {
            table_len = s.table_len * 2;
            table_shift = suc s.table_shift;
          } in
          rw (table_insert, e)
            (ap (insert_at_home modern_amd64 key) (table_grow-same used)
              ∙ at_home grown key (rw e at l))
      | inr e ↦ rw (table_insert, e) (at_home used key (rw e at l))
    ]

-- In the build MODERN_AMD64, an insertion replaces what stands in the slot of the key's index, and a table
-- that grows moves no key. So a lookup of `k` after it tests only the bits of the slot of its index
-- under the shift then: of the new key if that is the slot, and of what stood there if not. The two
-- indices are within the buffer.
pub modern_lookup-insert :
    (s : Names) (key k : ℕ)
    → home (counted s) key < table_end
    → home (counted s) k < table_end
    → (table_insert modern_amd64 s key ≡ some (overwritten s key))
      × (table_lookup modern_amd64 (overwritten s key) k
          ≡ some (
              ptestc 128
                (if home (counted s) key == home (counted s) k
                  then key
                  else s.table (home (counted s) k))
                k))
modern_lookup-insert s key k l l' =
    let idx = home (counted s) k in
    let table = (overwritten s key).table in
    let (m, e) = left_over idx l' in
    (
      insert-overwritten s key l,
      ap (λ n. lookup_from modern_amd64 n table idx k) e ∙ lookup_home m table idx k,
    )
