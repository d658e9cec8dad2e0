-- ===== src/Trail.antt =====
-- trail.c and solver.h: the trail, from which `solver_backtrack` restores what was saved since a
-- choice point. Addresses and words are numbers, and the memory is a function of the address. An
-- entry is an address with the value to write back, or a function with its argument; which of the
-- two is told from the range of all function addresses seen.
pub mod Restore
mod Tests
use smchr.Prelude.{
  ℕ, zero, suc, ◌+◌, ◌-◌, ◌^◌, Bool, true, false, ◌&&◌, ltb, leb, if◌then◌else◌, update,
}

-- struct trailentry_s
pub record TrailEntry : Type 0 where
  pub ptr : ℕ
  pub val : ℕ

-- The memory, the trail with `__solver_trail_len`, `func_min` and `func_max`.
pub record Machine : Type 0 where
  pub memory : ℕ → ℕ
  pub trail : ℕ → TrailEntry
  pub trail_len : ℕ
  pub func_min : ℕ
  pub func_max : ℕ

-- `solver_get_choicepoint`
abbrev pub choicepoint : Machine → ℕ
choicepoint s = s.trail_len

-- `solver_reset_trail`
abbrev pub solver_reset_trail : Machine → Machine
solver_reset_trail s = record s { trail_len = 0 }

abbrev pub push_entry : Machine → TrailEntry → Machine
push_entry s e = record s { trail = update s.trail s.trail_len e; trail_len = s.trail_len + 1 }

abbrev pub solver_trail : Machine → ℕ → Machine
solver_trail s ptr = push_entry s (record { ptr = ptr; val = s.memory ptr })

abbrev pub solver_trail_func : Machine → ℕ → ℕ → Machine
solver_trail_func s f arg =
    push_entry
      (record s {
        func_min = if ltb f s.func_min then f else s.func_min;
        func_max = if ltb s.func_max f then f else s.func_max;
      })
      (record { ptr = f; val = arg })

abbrev pub trail_is_func : Machine → ℕ → Bool
trail_is_func s ptr = leb ptr s.func_max && leb s.func_min ptr

-- `call f arg` is what the function at address `f` does to the memory.
module _ (call : ℕ → ℕ → (ℕ → ℕ) → ℕ → ℕ) where
  -- One round of the loop of `solver_backtrack`.
  abbrev pub undo_entry : Machine → TrailEntry → (ℕ → ℕ) → ℕ → ℕ
  undo_entry s e memory =
      if trail_is_func s e.ptr then call e.ptr e.val memory else update memory e.ptr e.val

  -- `for (i = __solver_trail_len - 1; i >= cp; i--)`, with `n` entries from `cp` on.
  unfoldable pub undo_entries : Machine → ℕ → ℕ → (ℕ → ℕ) → ℕ → ℕ
  undo_entries s cp zero memory = memory
  undo_entries s cp (suc n) memory = undo_entries s cp n (undo_entry s (s.trail (cp + n)) memory)

  unfoldable pub solver_backtrack : Machine → ℕ → Machine
  solver_backtrack s cp = record s {
    memory = undo_entries s cp (s.trail_len - cp) s.memory;
    trail_len = cp;
  }
