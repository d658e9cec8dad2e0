-- ===== src/Sat/Propagate/Watches.antt =====
-- sat.c: the watch invariant ("The two watch literals are always lits[0] and lits[1]"), counted, and
-- the moves of a watch.
use smchr.Prelude.{
  ℕ, zero, suc, ◌+◌, ◌<◌, ◌≡◌, ◌∙◌, refl, ap, sym, ==_iff, true, false, Option, none, some, List,
  [], ◌∷◌, set, last_or, get_elem?, if◌then◌else◌, update, length, arith, bit, ◌==◌, occurrences,
  occurrences-append, occurrences-set, occurrences-init, occurrences-get_elem?, length-set,
  Bool-cases, Option-cases, inl, inr,
}
use smchr.Sat.Literal.{Literal, literal_eq, literal_eq_iff, heads}
use smchr.Sat.State.{
  Watch, Sat, literal_istrue, literal_isfalse, literal_isfree, literal_getwatch, literal_setwatch,
  literal_set, literal_addwatch, push_watch,
}
use smchr.Sat.Propagate.{
  Woken, sat_watch_delete, swap_nonfalse, move_watch, wake_lits, wake, skipped, implied, conflict,
  moved, search_watch,
}

-- How often `l` is one of the two watched literals of a clause.
abbrev pub watched_by : Literal → List Literal → ℕ
watched_by l (a ∷ b ∷ _) = heads l a b
watched_by l _ = 0

-- Every clause stands in the watch list of a literal as often as the literal is one of its first two.
abbrev pub Watched : Sat → Type 0
Watched s =
    (l : Literal) (c : ℕ) → occurrences c (literal_getwatch s l).clauses ≡ watched_by l (s.heap c)

last_or-get_elem? : (d : ℕ) (xs : List ℕ) (i : ℕ) {w : ℕ} → get_elem? xs i ≡ some w → 0 < length xs
last_or-get_elem? d [] i h = ground arith
last_or-get_elem? d (x ∷ xs) i h = omega arith

last_or-set : (d e : ℕ) (xs : List ℕ) (i v : ℕ) → last_or d xs ≡ v → last_or d (set xs i v) ≡ v
last_or-set d e [] i v h = h
last_or-set d e (x ∷ []) zero v h = refl
last_or-set d e (x ∷ []) (suc i) v h = h
last_or-set d e (x ∷ y ∷ ys) zero v h = h
last_or-set d e (x ∷ y ∷ ys) (suc i) v h = last_or-set x e (y ∷ ys) i v h

pub occurrences-delete :
    (a : ℕ) (w : Watch) (i c : ℕ)
    → get_elem? w.clauses i ≡ some c
    → occurrences a (sat_watch_delete w i).clauses + bit (c == a) ≡ occurrences a w.clauses
occurrences-delete a w i c h =
    let xs = w.clauses in
    let v = last_or 0 xs in
    let p : 0 < length xs = last_or-get_elem? 0 xs i h in
    let q : 0 < length (set xs i v) = omega (arith, length-set xs i v) in
    ground (
      arith,
      occurrences-init a 0 (set xs i v) q,
      last_or-set 0 0 xs i v refl,
      occurrences-set a xs i v h,
    )

pub getwatch-setwatch :
    (s : Sat) (l k : Literal) (w : Watch)
    → literal_getwatch (literal_setwatch s l w) k
      ≡ (if literal_eq l k then w else literal_getwatch s k)
unfolding literal_setwatch
getwatch-setwatch s l k w = ground arith

pub getwatch-addwatch :
    (s : Sat) (l k : Literal) (c : ℕ)
    → literal_getwatch (literal_addwatch s l c) k
      ≡ (if literal_eq l k then push_watch (literal_getwatch s l) c else literal_getwatch s k)
unfolding literal_addwatch
getwatch-addwatch s l k c = getwatch-setwatch s l k (push_watch (literal_getwatch s l) c)

pub occurrences-addwatch :
    (s : Sat) (l k : Literal) (c a : ℕ)
    → occurrences a (literal_getwatch (literal_addwatch s l c) k).clauses
      ≡ occurrences a (literal_getwatch s k).clauses + (if literal_eq l k then bit (c == a) else 0)
unfolding literal_addwatch push_watch
occurrences-addwatch s l k c a = ground (
  arith,
  getwatch-setwatch s l k (push_watch (literal_getwatch s l) c),
  literal_eq_iff l k,
  occurrences-append (literal_getwatch s l).clauses (c ∷ []) a,
)

pub getwatch-set :
    (s : Sat) (l k : Literal) (r : Option ℕ)
    → literal_getwatch (literal_set s l r) k ≡ literal_getwatch s k
unfolding literal_set
getwatch-set s l k r = ground arith

pub heap-set : (s : Sat) (l : Literal) (r : Option ℕ) → (literal_set s l r).heap ≡ s.heap
unfolding literal_set
heap-set s l r = refl

pub heap-addwatch : (s : Sat) (l : Literal) (c : ℕ) → (literal_addwatch s l c).heap ≡ s.heap
unfolding literal_addwatch literal_setwatch
heap-addwatch s l c = refl

pub heap-setwatch : (s : Sat) (l : Literal) (w : Watch) → (literal_setwatch s l w).heap ≡ s.heap
unfolding literal_setwatch
heap-setwatch s l w = refl

pub Watched-set : (s : Sat) (l : Literal) (r : Option ℕ) → Watched s → Watched (literal_set s l r)
Watched-set s l r h k c = rw (getwatch-set s l k r, heap-set s l r) (h k c)

-- Exchanging the watched literals of a clause keeps the invariant.
Watched-swap :
    (s : Sat) (c : ℕ) (a b : Literal) (rest : List Literal)
    → s.heap c ≡ a ∷ b ∷ rest
    → Watched s
    → Watched (record s { heap = update s.heap c (b ∷ a ∷ rest) })
Watched-swap s c a b rest e h k d = ground (arith, h k d)

pub occurrences-delete-watch :
    (s : Sat) (lit k : Literal) (i c d : ℕ)
    → get_elem? (literal_getwatch s lit).clauses i ≡ some c
    → occurrences d
          (literal_getwatch
            (literal_setwatch s lit (sat_watch_delete (literal_getwatch s lit) i))
            k).clauses
        + (if literal_eq lit k then bit (c == d) else 0)
      ≡ occurrences d (literal_getwatch s k).clauses
occurrences-delete-watch s lit k i c d h =
    let w = sat_watch_delete (literal_getwatch s lit) i in
    let deleted = occurrences-delete d (literal_getwatch s lit) i c h in
    elim (Bool-cases (literal_eq lit k)) [
      | inl e ↦
          let same_list : lit ≡ k = (literal_eq_iff lit k).0 e in
          rw (getwatch-setwatch s lit k w, e, ← same_list) deleted
      | inr e ↦ rw (getwatch-setwatch s lit k w, e) (omega arith)
    ]

-- What moving an entry does to the watch lists.
module _ (s : Sat) (lit : Literal) (i c : ℕ) (lits : List Literal) (new : Literal) where
  occurrences-move :
      (k : Literal) (d : ℕ)
      → get_elem? (literal_getwatch s lit).clauses i ≡ some c
      → literal_eq new lit ≡ false
      → occurrences d (literal_getwatch (move_watch s lit i c lits new) k).clauses
          + (if literal_eq lit k then bit (c == d) else 0)
        ≡ occurrences d (literal_getwatch s k).clauses
          + (if literal_eq new k then bit (c == d) else 0)
  unfolding move_watch
  occurrences-move k d at_entry ne =
      let s0 = record s { heap = update s.heap c lits } in
      let s1 = literal_addwatch s0 new c in
      let entry : get_elem? (literal_getwatch s1 lit).clauses i ≡ some c =
        rw (getwatch-addwatch s0 new lit c, ne) at_entry in
      occurrences-delete-watch s1 lit k i c d entry ∙ occurrences-addwatch s0 new k c d

  pub heap-move :
      (d : ℕ) → (move_watch s lit i c lits new).heap d ≡ (if c == d then lits else s.heap d)
  unfolding move_watch literal_addwatch literal_setwatch
  heap-move d = refl

  -- `lit` was a watched literal of the clause, `lits` has `new` in its place.
  Watched-move :
      (a b : Literal) (rest : List Literal)
      → get_elem? (literal_getwatch s lit).clauses i ≡ some c
      → s.heap c ≡ a ∷ b ∷ rest
      → literal_eq new lit ≡ false
      → ((k : Literal)
          → watched_by k lits + bit (literal_eq lit k) ≡ heads k a b + bit (literal_eq new k))
      → Watched s
      → Watched (move_watch s lit i c lits new)
  Watched-move a b rest at_entry e ne writes h k d = rw (heap-move d) (elim (Bool-cases (c == d)) [
    | inl p ↦
        let here : c ≡ d = (==_iff c d).0 p in
        let before : occurrences d (literal_getwatch s k).clauses ≡ heads k a b =
          h k d ∙ ap (watched_by k) (ap s.heap (sym here) ∙ e) in
        rw p (ground (arith, occurrences-move k d at_entry ne, writes k))
    | inr p ↦ rw p (ground (arith, occurrences-move k d at_entry ne, h k d))
  ])

-- `P` holds of the state that a round leaves, if it goes on with a new one.
abbrev pub Leaves {ℓ} : (Sat → Type ℓ) → Woken → Type ℓ
Leaves P skipped = Unit
Leaves P (implied s) = P s
Leaves P conflict = Unit
Leaves P (moved s) = P s

pub swap-nonfalse_new :
    (s : Sat) (lit : Literal) (ls r : List Literal) (new : Literal)
    → swap_nonfalse s lit ls ≡ some (new, r)
    → literal_isfalse s new ≡ false
unfolding swap_nonfalse
swap-nonfalse_new s lit [] r new h = cc
swap-nonfalse_new s lit (l ∷ ls) r new h = elim (Bool-cases (literal_isfalse s l)) [
  | inl e ↦ elim (Option-cases (swap_nonfalse s lit ls)) [
    | inl n ↦ cc (rw (e, n) at h)
    | inr ((new', r'), n) ↦
        let kept : some (new', l ∷ r') ≡ some (new, r) = rw (e, n) at h in
        let same_new : new' ≡ new = cc kept in
        rw (← same_new) (swap-nonfalse_new s lit ls r' new' n)
  ]
  | inr e ↦
      let found : some (l, lit ∷ ls) ≡ some (new, r) = rw e at h in
      let same_new : l ≡ new = cc found in rw (← same_new) e
]

pub new-ne-lit :
    (s : Sat) (lit new : Literal)
    → literal_isfalse s lit ≡ true
    → literal_isfalse s new ≡ false
    → literal_eq new lit ≡ false
new-ne-lit s lit new p q = ground (arith, literal_eq_iff new lit)

-- A property of the round's outcome is proved branch by branch.
pub search-watch_rule {ℓ} :
    (P : Woken → Type ℓ) (s : Sat) (lit w : Literal) (rest : List Literal) (t : Sat)
    (f : Literal → List Literal → Sat)
    → (literal_istrue s w ≡ true → P skipped)
    → (swap_nonfalse s lit rest ≡ none → literal_isfree s w ≡ true → P (implied t))
    → (swap_nonfalse s lit rest ≡ none → literal_isfalse s w ≡ true → P conflict)
    → ((new : Literal) (r : List Literal)
        → swap_nonfalse s lit rest ≡ some (new, r)
        → P (moved (f new r)))
    → P (search_watch s lit w rest t f)
unfolding search_watch
search-watch_rule P s lit w rest t f is_true is_unit is_conflict is_moved =
    elim (Bool-cases (literal_istrue s w)) [
      | inl e ↦ rw e (is_true e)
      | inr e ↦ elim (Option-cases (swap_nonfalse s lit rest)) [
        | inr ((new, r), n) ↦ rw (e, n) (is_moved new r n)
        | inl n ↦ elim (Bool-cases (literal_isfree s w)) [
          | inl u ↦ rw (e, n, u) (is_unit n u)
          | inr u ↦ rw (e, n, u) (is_conflict n (ground arith))
        ]
      ]
    ]

pub Watched-pos :
    (s : Sat) (lit : Literal) (i c : ℕ)
    → get_elem? (literal_getwatch s lit).clauses i ≡ some c
    → Watched s
    → 0 < watched_by lit (s.heap c)
Watched-pos s lit i c at_entry h =
    rw (h lit c) at (occurrences-get_elem? c (literal_getwatch s lit).clauses i at_entry)

module _ (s : Sat) (lit : Literal) (i c : ℕ) (a b : Literal) (rest : List Literal) where
  wake-lits_Watched :
      get_elem? (literal_getwatch s lit).clauses i ≡ some c
      → s.heap c ≡ a ∷ b ∷ rest
      → literal_isfalse s lit ≡ true
      → Watched s
      → Leaves Watched (wake_lits s lit i c (a ∷ b ∷ rest))
  unfolding wake_lits
  wake-lits_Watched at_entry e false_lit h =
      let is_watch : 0 < heads lit a b = rw e at (Watched-pos s lit i c at_entry h) in
      elim (Bool-cases (literal_eq a lit)) [
        | inl first ↦
            let a_lit : a ≡ lit = (literal_eq_iff a lit).0 first in
            rw first (
              search-watch_rule (Leaves Watched) s lit b rest _ _ (λ _. tt)
                (λ _ _.
                  Watched-set _ b (some c)
                    (Watched-swap s c lit b rest (e ∙ ap (λ x. x ∷ b ∷ rest) a_lit) h))
                (λ _ _. tt)
                λ new r n.
                  Watched-move s lit i c (new ∷ b ∷ r) new a b rest at_entry e
                    (new-ne-lit s lit new false_lit (swap-nonfalse_new s lit rest r new n))
                    (λ k. rw a_lit (omega arith)) h)
        | inr second ↦
            let b_lit : b ≡ lit = (literal_eq_iff b lit).0 (ground arith) in
            rw second (
              search-watch_rule (Leaves Watched) s lit a rest _ _ (λ _. tt)
                (λ _ _. Watched-set s a (some c) h) (λ _ _. tt)
                λ new r n.
                  Watched-move s lit i c (a ∷ new ∷ r) new a b rest at_entry e
                    (new-ne-lit s lit new false_lit (swap-nonfalse_new s lit rest r new n))
                    (λ k. rw b_lit (omega arith)) h)
      ]

-- An entry of a watch list is the address of a clause with two literals.
pub Watched-clause :
    (s : Sat) (lit : Literal) (i c : ℕ)
    → get_elem? (literal_getwatch s lit).clauses i ≡ some c
    → Watched s
    → (a : Literal) × (b : Literal) × (rest : List Literal) × (s.heap c ≡ a ∷ b ∷ rest)
Watched-clause s lit i c at_entry h = two (s.heap c) (Watched-pos s lit i c at_entry h)
  where
    two :
        (ls : List Literal)
        → 0 < watched_by lit ls
        → (a : Literal) × (b : Literal) × (rest : List Literal) × (ls ≡ a ∷ b ∷ rest)
    two [] p = absurd (omega arith)
    two (a ∷ []) p = absurd (omega arith)
    two (a ∷ b ∷ rest) p = (a, b, rest, refl)

pub wake-Watched :
    (s : Sat) (lit : Literal) (i c : ℕ)
    → get_elem? (literal_getwatch s lit).clauses i ≡ some c
    → literal_isfalse s lit ≡ true
    → Watched s
    → Leaves Watched (wake s lit i c)
wake-Watched s lit i c at_entry false_lit h =
    let (a, b, rest, e) = Watched-clause s lit i c at_entry h in
    rw e (wake-lits_Watched s lit i c a b rest at_entry e false_lit h)
