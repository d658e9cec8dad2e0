-- ===== src/Sat/Propagate/Loop.antt =====
-- sat.c: the loops of `sat_propagate`, what every round keeps, and the rounds they need.
use smchr.Prelude.{
  ℕ, zero, suc, ◌+◌, ◌<◌, ◌≡◌, ◌∙◌, refl, ap, sym, true, false, not, Option, some, List, [], ◌∷◌,
  arith, ◌==◌, bit, if◌then◌else◌, Bool-cases, Option-cases, inl, inr, update, ltb,
}
use smchr.Sat.Literal.{Literal, literal_eq}
use smchr.Sat.State.{Variable, Sat, literal_istrue, literal_isfalse, literal_isfree, literal_set}
use smchr.Sat.Assignment.{
  set-vars, move-SameAssignment, tlevel-set, trail-set, tlevel-move, trail-move, vars-length-set,
  vars-length-move, isfalse-set, isfalse_of_same,
}
use smchr.Sat.Propagate.{
  Woken, skipped, implied, conflict, moved, swap_nonfalse, move_watch, wake_lits, wake,
}
use smchr.Sat.Propagate.Watches.{search-watch_rule, heap-move, heap-set}

-- The literals of a clause are of the variables below `n`.
abbrev pub AllBelow : ℕ → List Literal → Type 0
AllBelow n [] = Unit
AllBelow n (l ∷ ls) = (l.index < n) × AllBelow n ls

-- How many of the variables below `n` are not set.
abbrev pub unset : ℕ → (ℕ → Variable) → ℕ
unset zero vars = 0
unset (suc n) vars = unset n vars + bit (not (vars n).set)

-- Every literal on the trail is true, and of a variable that exists.
abbrev pub OnTrail : Sat → Type 0
OnTrail s =
    (k : ℕ)
    → k < s.tlevel
    → (literal_istrue s (s.trail k) ≡ true) × ((s.trail k).index < s.vars_length)

unset-same :
    (n : ℕ) (f g : ℕ → Variable) → ((v : ℕ) → (g v).set ≡ (f v).set) → unset n g ≡ unset n f
unset-same zero f g h = refl
unset-same (suc n) f g h = ground (arith, unset-same n f g h, h n)

unset-set :
    (n : ℕ) (f g : ℕ → Variable) (i : ℕ)
    → ((v : ℕ) → (g v).set ≡ (if i == v then true else (f v).set))
    → (f i).set ≡ false
    → unset n g + bit (ltb i n) ≡ unset n f
unset-set zero f g i h e = ground arith
unset-set (suc n) f g i h e = ground (arith, unset-set n f g i h e, h n)

pub record Live (n total : ℕ) (s : Sat) (next : ℕ) : Type 0 where
  pub on_trail : OnTrail s
  pub ends : next ≡ s.tlevel
  pub size : s.vars_length ≡ n
  pub ranged : (c : ℕ) → AllBelow n (s.heap c)
  pub budget : unset n s.vars + next ≡ total

swap-nonfalse_AllBelow :
    (n : ℕ) (s : Sat) (lit : Literal) (ls r : List Literal) (new : Literal)
    → swap_nonfalse s lit ls ≡ some (new, r)
    → lit.index < n
    → AllBelow n ls
    → AllBelow n (new ∷ r)
unfolding swap_nonfalse
swap-nonfalse_AllBelow n s lit [] r new e p h = cc
swap-nonfalse_AllBelow n s lit (l ∷ ls) r new e p h = elim (Bool-cases (literal_isfalse s l)) [
  | inl f ↦ elim (Option-cases (swap_nonfalse s lit ls)) [
    | inl q ↦ cc (rw (f, q) at e)
    | inr ((new', r'), q) ↦
        let kept : some (new', l ∷ r') ≡ some (new, r) = rw (f, q) at e in
        let ih = swap-nonfalse_AllBelow n s lit ls r' new' q p h.1 in
        let en : new' ≡ new = cc kept in
        let er : l ∷ r' ≡ r = cc kept in rw (← en, ← er) (ih.0, (h.0, ih.1))
  ]
  | inr f ↦
      let found : some (l, lit ∷ ls) ≡ some (new, r) = rw f at e in
      let en : l ≡ new = cc found in
      let er : lit ∷ ls ≡ r = cc found in rw (← en, ← er) (h.0, (p, h.1))
]

-- The parts of `Live` but for the watch lists, over an assignment and a write to the heap.
module _ (n total : ℕ) (s : Sat) (next : ℕ) (h : Live n total s next) where
  OnTrail-set :
      (l : Literal) (r : Option ℕ)
      → literal_isfree s l ≡ true
      → l.index < n
      → OnTrail (literal_set s l r)
  OnTrail-set l r free below k p = ground (
    arith,
    tlevel-set s l r,
    trail-set s l r k,
    h.on_trail k,
    h.size,
    vars-length-set s l r,
    set-vars s l r (s.trail k).index,
    set-vars s l r l.index,
  )

  budget-set :
      (l : Literal) (r : Option ℕ)
      → literal_isfree s l ≡ true
      → l.index < n
      → unset n (literal_set s l r).vars + (next + 1) ≡ total
  budget-set l r free below = ground (
    arith,
    h.budget,
    unset-set n s.vars (literal_set s l r).vars l.index (λ v. (set-vars s l r v).0),
  )

module _ (n total : ℕ) (s : Sat) (next : ℕ) (h : Live n total s next) where
  Live-write :
      (c : ℕ) (lits : List Literal)
      → AllBelow n lits
      → Live n total (record s { heap = update s.heap c lits }) next
  Live-write c lits below = record {
    on_trail = h.on_trail;
    ends = h.ends;
    size = h.size;
    ranged = λ d. elim (Bool-cases (c == d)) [ inl e ↦ rw e below | inr e ↦ rw e (h.ranged d) ];
    budget = h.budget;
  }

  pub Live-set :
      (l : Literal) (r : Option ℕ)
      → literal_isfree s l ≡ true
      → l.index < n
      → Live n total (literal_set s l r) (next + 1)
  Live-set l r free below = record {
    on_trail = OnTrail-set n total s next h l r free below;
    ends = rw (tlevel-set s l r) (ap (λ k. k + 1) h.ends);
    size = vars-length-set s l r ∙ h.size;
    ranged = λ c. rw (heap-set s l r) (h.ranged c);
    budget = budget-set n total s next h l r free below;
  }

  Live-move :
      (lit new : Literal) (i c : ℕ) (lits : List Literal)
      → AllBelow n lits
      → Live n total (move_watch s lit i c lits new) next
  Live-move lit new i c lits below =
      let kept = move-SameAssignment s lit i c lits new in
      record {
        on_trail = λ k p. rw (trail-move s lit i c lits new) (
            let q = kept (s.trail k).index in
            ground (
              arith,
              q.0,
              q.1,
              h.on_trail k,
              tlevel-move s lit i c lits new,
              vars-length-move s lit i c lits new,
            ));
        ends = h.ends ∙ sym (tlevel-move s lit i c lits new);
        size = vars-length-move s lit i c lits new ∙ h.size;
        ranged = λ d.
            rw (heap-move s lit i c lits new d)
              (elim (Bool-cases (c == d)) [ inl e ↦ rw e below | inr e ↦ rw e (h.ranged d) ]);
        budget =
            rw (unset-same n s.vars (move_watch s lit i c lits new).vars (λ v. (kept v).0))
              h.budget;
      }

-- What a round leaves of `Live`, with `lit` false still.
abbrev pub LiveRound : ℕ → ℕ → ℕ → Literal → Woken → Type 0
LiveRound n total next lit skipped = Unit
LiveRound n total next lit (implied t) = Live n total t (next + 1) × (literal_isfalse t lit ≡ true)
LiveRound n total next lit conflict = Unit
LiveRound n total next lit (moved t) = Live n total t next × (literal_isfalse t lit ≡ true)

module _ (n total : ℕ) (s : Sat) (next : ℕ) (h : Live n total s next) (lit : Literal)
    (false_lit : literal_isfalse s lit ≡ true) where
  imply-LiveRound :
      (l : Literal) (c : ℕ)
      → literal_isfree s l ≡ true
      → l.index < n
      → LiveRound n total next lit (implied (literal_set s l (some c)))
  imply-LiveRound l c free below =
      (Live-set n total s next h l (some c) free below, isfalse-set s l lit (some c) free false_lit)

  move-LiveRound :
      (new : Literal) (i c : ℕ) (lits : List Literal)
      → AllBelow n lits
      → LiveRound n total next lit (moved (move_watch s lit i c lits new))
  move-LiveRound new i c lits below = (
    Live-move n total s next h lit new i c lits below,
    isfalse_of_same s (move_watch s lit i c lits new) lit (move-SameAssignment s lit i c lits new)
        false_lit,
  )

  wake-lits_Live :
      (i c : ℕ) (ls : List Literal)
      → lit.index < n
      → s.heap c ≡ ls
      → LiveRound n total next lit (wake_lits s lit i c ls)
  unfolding wake_lits
  wake-lits_Live i c [] p e = tt
  wake-lits_Live i c (a ∷ []) p e = tt
  wake-lits_Live i c (a ∷ b ∷ rest) p e =
      let below : AllBelow n (a ∷ b ∷ rest) = rw e at (h.ranged c) in
      let moved_below =
        λ (new : Literal) (r : List Literal). swap-nonfalse_AllBelow n s lit rest r new in
      elim (Bool-cases (literal_eq a lit)) [
        | inl first ↦ rw first (
            search-watch_rule (LiveRound n total next lit) s lit b rest _ _ (λ _. tt)
              (λ _ free. (
                Live-set n total _ next
                    (Live-write n total s next h c (b ∷ lit ∷ rest) (below.1.0, (p, below.1.1))) b
                    (some c) free below.1.0,
                isfalse-set (record s { heap = update s.heap c (b ∷ lit ∷ rest) }) b lit (some c)
                    free false_lit,
              ))
              (λ _ _. tt)
              λ new r q.
                let (x, y) = moved_below new r q p below.1.1 in
                move-LiveRound new i c (new ∷ b ∷ r) (x, (below.1.0, y)))
        | inr second ↦ rw second (
            search-watch_rule (LiveRound n total next lit) s lit a rest _ _ (λ _. tt)
              (λ _ free. imply-LiveRound a c free below.0) (λ _ _. tt)
              λ new r q.
                move-LiveRound new i c (a ∷ new ∷ r) (below.0, moved_below new r q p below.1.1))
      ]

  pub wake-Live : (i c : ℕ) → lit.index < n → LiveRound n total next lit (wake s lit i c)
  wake-Live i c p = wake-lits_Live i c (s.heap c) p refl
