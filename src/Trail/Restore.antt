-- ===== src/Trail/Restore.antt =====
-- trail.c: the memory before and after backtracking, and the steps of the solver in between.
use smchr.Prelude.{
  ℕ, zero, suc, ◌+◌, ◌-◌, ◌≤◌, ◌<◌, ◌≡◌, refl, ap, ◌∙◌, Bool, true, false, ◌&&◌, leb, if◌then◌else◌,
  update, arith,
}
use smchr.Trail.{
  TrailEntry, Machine, choicepoint, solver_trail, solver_trail_func, trail_is_func, undo_entry,
  undo_entries, solver_backtrack,
}

-- Functions lie in the code segment, from `code_lo` to `code_hi`, and data outside it.
module _ (code_lo code_hi : ℕ) (call : ℕ → ℕ → (ℕ → ℕ) → ℕ → ℕ) where
  abbrev in_code : ℕ → Bool
  in_code a = leb code_lo a && leb a code_hi

  -- What the solver does between a choice point and its backtracking: a word is trailed and then
  -- written, or a function is trailed and the memory then changed in a way that the function undoes.
  pub data Change : Machine → Machine → Type 0 where
    write :
        (s : Machine) (ptr v : ℕ)
        → in_code ptr ≡ false
        → Change s (record (solver_trail s ptr) { memory = update s.memory ptr v })
    change :
        (s : Machine) (f arg : ℕ) (memory : ℕ → ℕ)
        → in_code f ≡ true
        → call f arg memory ≡ s.memory
        → Change s (record (solver_trail_func s f arg) { memory = memory })

  pub data Changes : Machine → Machine → Type 0 where
    none_yet : (s : Machine) → Changes s s
    followed_by : (s t u : Machine) → Changes s t → Change t u → Changes s u

  -- The range of the functions seen is in the code segment, and holds the functions on the trail.
  pub record Ranged (s : Machine) : Type 0 where
    pub from_lo : code_lo ≤ s.func_min
    pub to_hi : s.func_max ≤ code_hi
    pub seen :
        (i : ℕ)
        → i < s.trail_len
        → in_code (s.trail i).ptr ≡ true
        → trail_is_func s (s.trail i).ptr ≡ true

  step-Ranged : (s t : Machine) → Change s t → Ranged s → Ranged t
  step-Ranged _ _ (write s ptr v h) r = record {
    from_lo = r.from_lo;
    to_hi = r.to_hi;
    seen = λ i p c. ground (arith, r.seen i);
  }
  step-Ranged _ _ (change s f arg memory h e) r = record {
    from_lo = ground (arith, r.from_lo);
    to_hi = ground (arith, r.to_hi);
    seen = λ i p c. ground (arith, r.seen i);
  }

  -- What an entry restores, told by the code segment.
  abbrev effect : TrailEntry → (ℕ → ℕ) → ℕ → ℕ
  effect e memory = if in_code e.ptr then call e.ptr e.val memory else update memory e.ptr e.val

  abbrev effects : (ℕ → TrailEntry) → ℕ → ℕ → (ℕ → ℕ) → ℕ → ℕ
  effects trail cp zero memory = memory
  effects trail cp (suc n) memory = effects trail cp n (effect (trail (cp + n)) memory)

  -- An entry of the trail is taken for a function just when it is one.
  undo_entry-effect :
      (s : Machine) (i : ℕ) (memory : ℕ → ℕ)
      → Ranged s
      → i < s.trail_len
      → undo_entry call s (s.trail i) memory ≡ effect (s.trail i) memory
  undo_entry-effect s i memory r h =
      let told : trail_is_func s (s.trail i).ptr ≡ in_code (s.trail i).ptr =
        ground (arith, r.from_lo, r.to_hi, r.seen i) in
      rw told refl

  undo-effects :
      (s : Machine) (cp n : ℕ) (memory : ℕ → ℕ)
      → Ranged s
      → cp + n ≤ s.trail_len
      → undo_entries call s cp n memory ≡ effects s.trail cp n memory
  unfolding undo_entries
  undo-effects s cp zero memory r h = refl
  undo-effects s cp (suc n) memory r h =
      ap (undo_entries call s cp n) (undo_entry-effect s (cp + n) memory r (omega arith))
      ∙ undo-effects s cp n (effect (s.trail (cp + n)) memory) r (omega arith)

  effects-below :
      (a b : ℕ → TrailEntry) (cp n : ℕ) (memory : ℕ → ℕ)
      → ((i : ℕ) → i < cp + n → a i ≡ b i)
      → effects a cp n memory ≡ effects b cp n memory
  effects-below a b cp zero memory h = refl
  effects-below a b cp (suc n) memory h =
      effects-below a b cp n (effect (a (cp + n)) memory) (λ i p. h i (omega arith))
      ∙ ap (λ e. effects b cp n (effect e memory)) (h (cp + n) (omega arith))

  push-effects :
      (s : Machine) (e : TrailEntry) (memory : ℕ → ℕ) (cp n : ℕ)
      → cp + n ≡ s.trail_len
      → effect e memory ≡ s.memory
      → effects (update s.trail s.trail_len e) cp (suc n) memory ≡ effects s.trail cp n s.memory
  push-effects s e memory cp n q h =
      let pushed = update s.trail s.trail_len e in
      let top : pushed (cp + n) ≡ e = ground arith in
      ap (λ x. effects pushed cp n (effect x memory)) top
      ∙ ap (effects pushed cp n) h
      ∙ effects-below pushed s.trail cp n s.memory (λ i p. ground arith)

  pub update_back : (m : ℕ → ℕ) (p v : ℕ) → update (update m p v) p (m p) ≡ m
  update_back m p v = λ i a. back a i
    where
      back : (a : ℕ) → update (update m p v) p (m p) a ≡ m a
      back a = ground arith

  -- The new entry takes the change back, and the others are as before.
  step-effects :
      (s t : Machine) (cp n : ℕ)
      → Change s t
      → cp + n ≡ s.trail_len
      → (t.trail_len ≡ s.trail_len + 1)
        × (effects t.trail cp (suc n) t.memory ≡ effects s.trail cp n s.memory)
  step-effects _ _ cp n (write s ptr v h) q =
      let entry : TrailEntry = record { ptr = ptr; val = s.memory ptr } in
      (
        refl,
        push-effects s entry (update s.memory ptr v) cp n q (rw h (update_back s.memory ptr v)),
      )
  step-effects _ _ cp n (change s f arg memory h e) q =
      let entry : TrailEntry = record { ptr = f; val = arg } in
      (refl, push-effects s entry memory cp n q (rw h e))

  Changes-effects :
      (s t : Machine)
      → Changes s t
      → Ranged s
      → Ranged t
        × s.trail_len ≤ t.trail_len
        × (effects t.trail s.trail_len (t.trail_len - s.trail_len) t.memory ≡ s.memory)
  Changes-effects _ _ (none_yet s) r =
      let z : s.trail_len - s.trail_len ≡ 0 = omega arith in (r, omega arith, rw z refl)
  Changes-effects _ _ (followed_by s t u h c) r =
      let (rt, l, e) = Changes-effects s t h r in
      let n = t.trail_len - s.trail_len in
      let (len, d) = step-effects t u s.trail_len n c (omega arith) in
      let m : u.trail_len - s.trail_len ≡ suc n = omega (arith, len, l) in
      (step-Ranged t u c rt, omega (arith, len, l), rw m (d ∙ e))

  -- After any changes since a choice point, each trailed first, backtracking to it restores the memory
  -- and the length of the trail, if functions lie in the code segment and data outside it.
  pub backtrack-restores :
      (s t : Machine)
      → Ranged s
      → Changes s t
      → ((solver_backtrack call t (choicepoint s)).memory ≡ s.memory)
        × ((solver_backtrack call t (choicepoint s)).trail_len ≡ s.trail_len)
        × Ranged (solver_backtrack call t (choicepoint s))
  unfolding solver_backtrack
  backtrack-restores s t r h =
      let (rt, l, e) = Changes-effects s t h r in
      let n = t.trail_len - s.trail_len in
      (
        undo-effects t s.trail_len n t.memory rt (omega arith) ∙ e,
        refl,
        record {
          from_lo = rt.from_lo;
          to_hi = rt.to_hi;
          seen = λ i p c. rt.seen i (omega arith) c;
        },
      )
