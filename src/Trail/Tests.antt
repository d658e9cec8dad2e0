-- ===== src/Trail/Tests.antt =====
-- trail.c on a concrete machine: the witness of the theorem on backtracking, and a run.
use smchr.Prelude.{ℕ, ◌≡◌, refl, update, arith}
use smchr.Trail.{
  Machine, choicepoint, solver_trail, solver_trail_func, solver_backtrack, undo_entries,
}
use smchr.Trail.Restore.{
  write, change, Changes, none_yet, followed_by, Ranged, update_back, backtrack-restores,
}

-- Every function puts its argument back at address 5.
abbrev put_back : ℕ → ℕ → (ℕ → ℕ) → ℕ → ℕ
put_back f arg memory = update memory 5 arg

-- After one trailed word, with no function seen yet.
abbrev before : Machine
before = record {
  memory = λ a. 0;
  trail = λ i. record { ptr = 7; val = 3 };
  trail_len = 1;
  func_min = 18446744073709551615;
  func_max = 0;
}

abbrev written : Machine
written = record (solver_trail before 7) { memory = update before.memory 7 4 }

abbrev changed : Machine
changed = record (solver_trail_func written 1500 0) { memory = update written.memory 5 9 }

changes : Changes 1000 1999 put_back before changed
changes =
    followed_by before written changed
      (followed_by before before written (none_yet before) (write before 7 4 refl))
      (change written 1500 0 (update written.memory 5 9) refl
        (update_back 1000 1999 put_back written.memory 5 9))

before-Ranged : Ranged 1000 1999 put_back before
before-Ranged = record { from_lo = omega arith; to_hi = omega arith; seen = λ i p c. ground arith }

backtrack-restores_example :
    ((solver_backtrack put_back changed (choicepoint before)).memory ≡ before.memory)
    × ((solver_backtrack put_back changed (choicepoint before)).trail_len ≡ before.trail_len)
    × Ranged 1000 1999 put_back (solver_backtrack put_back changed (choicepoint before))
backtrack-restores_example =
    backtrack-restores 1000 1999 put_back before changed before-Ranged changes

run_backtrack : (solver_backtrack put_back changed 1).memory 7 ≡ 0
unfolding solver_backtrack undo_entries
run_backtrack = refl
