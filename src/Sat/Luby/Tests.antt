-- ===== src/Sat/Luby/Tests.antt =====
-- Terms of the sequence, and the theorem on it at a concrete input.
use smchr.Prelude.{ℕ, ◌≡◌, refl, some, arith}
use smchr.Sat.Luby.{trailing, halvings, sat_luby, Luby, sat_luby-Luby}

tenth : sat_luby 10 10 ≡ some 2
unfolding sat_luby trailing halvings
tenth = refl

fifteenth : sat_luby 15 15 ≡ some 8
unfolding sat_luby trailing halvings
fifteenth = refl

sat_luby-Luby_example : (v : ℕ) × (sat_luby 10 10 ≡ some v) × Luby 10 v
sat_luby-Luby_example = sat_luby-Luby 10 10 (omega arith) (omega arith) (omega arith)
