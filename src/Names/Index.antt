-- ===== src/Names/Index.antt =====
-- names.c: the indices of a key before and after the table has grown.
use smchr.Prelude.{ℕ, zero, suc, ◌%◌, ◌^◌, ◌<◌, ◌≡◌, sym, ◌∙◌, subst, arith}
use native.Mathlib.Nat.{mod-lt, mod-mod_of_dvd, mod-eq_of_lt, dvd-mul_right, pow-suc}
use Prim.Native.Nat.{◌∣◌}
use smchr.Names.{table_index}

pow-positive : (s : ℕ) → 0 < 2 ^ s
pow-positive zero = omega arith
pow-positive (suc s) = omega (arith, pow-positive s)

pub index-bound : (s key : ℕ) → table_index s key < 2 ^ s
index-bound s key = mod-lt (key % 2 ^ 64) (pow-positive s)

-- A key whose index after the growth is in the old half keeps its index.
pub index-grows :
    (s key : ℕ) → table_index (suc s) key < 2 ^ s → table_index (suc s) key ≡ table_index s key
index-grows s key h =
    let x = key % 2 ^ 64 in
    sym (mod-eq_of_lt h)
    ∙ mod-mod_of_dvd (2 ^ s) x
        (subst (λ y. 2 ^ s ∣ y) (sym (pow-suc 2 s)) (dvd-mul_right (2 ^ s) 2))
