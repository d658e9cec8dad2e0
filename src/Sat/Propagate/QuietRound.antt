-- ===== src/Sat/Propagate/QuietRound.antt =====
-- sat.c: a round of the loop of `sat_propagate` over a watch list and the clauses with a false watched
-- literal.
use smchr.Prelude.{
  ℕ, ◌+◌, ◌≤◌, ◌≡◌, ◌∙◌, refl, ap, sym, subst, true, false, some, List, ◌∷◌, arith, ◌==◌,
  if◌then◌else◌, Bool-cases, ◌⊎◌, inl, inr, update, length, get_elem?, last_or, ==_iff,
}
use smchr.Sat.Literal.{Literal, literal_eq, literal_eq_iff, literal_eq_self, literal_negate}
use smchr.Sat.State.{
  Watch, Sat, literal_istrue, literal_isfalse, literal_isfree, literal_getwatch, literal_set,
  literal_addwatch,
}
use smchr.Sat.Assignment.{set-vars, move-SameAssignment, trail-move}
use smchr.Sat.Propagate.{
  Woken, skipped, implied, conflict, moved, move_watch, wake_lits, wake, sat_watch_delete,
}
use smchr.Sat.Propagate.Watches.{
  Watched, Watched-clause, Watched-pos, search-watch_rule, swap-nonfalse_new, new-ne-lit, heap-move,
  getwatch-set, getwatch-setwatch, getwatch-addwatch,
}
use smchr.Sat.Propagate.Quiet.{
  get_elem-delete, length-delete, Fine, AllFine, Ahead, AllFine-set, AllFine-replace, Ahead-suc,
}

getwatch-move :
    (s : Sat) (lit : Literal) (i c : ℕ) (lits : List Literal) (new : Literal)
    → literal_eq new lit ≡ false
    → literal_getwatch (move_watch s lit i c lits new) lit
      ≡ sat_watch_delete (literal_getwatch s lit) i
unfolding move_watch
getwatch-move s lit i c lits new ne =
    let s0 = record s { heap = update s.heap c lits } in
    let s1 = literal_addwatch s0 new c in
    let same : literal_getwatch s1 lit ≡ literal_getwatch s lit =
      getwatch-addwatch s0 new lit c ∙ ground (arith, ne) in
    getwatch-setwatch s1 lit lit (sat_watch_delete (literal_getwatch s1 lit) i)
    ∙ (ground (arith, literal_eq_self lit) ∙ ap (λ w. sat_watch_delete w i) same)

-- What a round at entry `i` leaves.
abbrev pub RoundFine : Sat → Literal → ℕ → ℕ → ℕ → Woken → Type 0
RoundFine s lit i curr next skipped = AllFine (Ahead s lit (i + 1)) s curr next
RoundFine s lit i curr next (implied t) =
    AllFine (Ahead t lit (i + 1)) t curr (next + 1)
    × (literal_getwatch t lit ≡ literal_getwatch s lit)
RoundFine s lit i curr next conflict = Unit
RoundFine s lit i curr next (moved t) =
    AllFine (Ahead t lit i) t curr next
    × (length (literal_getwatch t lit).clauses + 1 ≡ length (literal_getwatch s lit).clauses)

heap_as :
    (s : Sat) (c : ℕ) (lits : List Literal)
    → s.heap c ≡ lits
    → (d : ℕ) → s.heap d ≡ (if c == d then lits else s.heap d)
heap_as s c lits e d = elim (Bool-cases (c == d)) [
  | inl p ↦ let here : c ≡ d = (==_iff c d).0 p in rw p (ap s.heap (sym here) ∙ e)
  | inr p ↦ rw p refl
]

module _ (s : Sat) (lit : Literal) (i c curr next : ℕ)
    (at_entry : get_elem? (literal_getwatch s lit).clauses i ≡ some c)
    (false_lit : literal_isfalse s lit ≡ true) (le : curr ≤ next) (ends : next ≡ s.tlevel)
    (fine : AllFine (Ahead s lit i) s curr next) where
  -- One of the watched literals is true.
  skip-Fine :
      (a b : Literal) (rest : List Literal)
      → s.heap c ≡ a ∷ b ∷ rest
      → (literal_isfalse s a ≡ true → literal_istrue s b ≡ true)
      → (literal_isfalse s b ≡ true → literal_istrue s a ≡ true)
      → AllFine (Ahead s lit (i + 1)) s curr next
  skip-Fine a b rest e p q =
      AllFine-replace (Ahead s lit i) (Ahead s lit (i + 1)) s s curr next c a b rest
        (λ v. (refl, refl)) refl (heap_as s c (a ∷ b ∷ rest) e)
        (Ahead-suc s s lit i c at_entry refl) (λ f. inl (p f)) (λ f. inl (q f)) fine

  -- The other watched literal `w` is assigned; the clause may have been reordered.
  set-Fine :
      (w x y : Literal) (r : List Literal) (heap : ℕ → List Literal)
      → literal_isfree s w ≡ true
      → ((d : ℕ) → heap d ≡ (if c == d then x ∷ y ∷ r else s.heap d))
      → (x ≡ w) × (y ≡ lit) ⊎ (x ≡ lit) × (y ≡ w)
      → let t = literal_set (record s { heap = heap }) w (some c) in
        AllFine (Ahead t lit (i + 1)) t curr (next + 1)
        × (literal_getwatch t lit ≡ literal_getwatch s lit)
  unfolding literal_set
  set-Fine w x y r heap free h which =
      let t = literal_set (record s { heap = heap }) w (some c) in
      let t_true : literal_istrue t w ≡ true =
        ground (arith, set-vars (record s { heap = heap }) w (some c) w.index) in
      let t_false : literal_isfalse t w ≡ true → ⊥ = λ f. ground (arith, t_true, f) in
      let step : Fine (Ahead t lit (i + 1)) t curr (next + 1) c x y
          × Fine (Ahead t lit (i + 1)) t curr (next + 1) c y x =
        elim which [
          | inl (xw, yl) ↦ rw (xw, yl) (λ f. elim (t_false f) [ ], λ f. inl t_true)
          | inr (xl, yw) ↦ rw (xl, yw) (λ f. inl t_true, λ f. elim (t_false f) [ ])
        ] in
      let list = getwatch-set (record s { heap = heap }) w lit (some c) in
      (
        AllFine-replace (Ahead s lit i) (Ahead t lit (i + 1)) (literal_set s w (some c)) t curr
            (next + 1) c x y r (λ v. (refl, refl)) refl h (Ahead-suc s t lit i c at_entry list)
            step.0 step.1 (AllFine-set (Ahead s lit i) s curr next w (some c) le ends free fine),
        list,
      )

  -- The clause is watched by `new` in the place of `lit`, beside `w`.
  move-Fine :
      (w new x y : Literal) (r : List Literal)
      → literal_isfalse s new ≡ false
      → Fine (Ahead s lit i) s curr next c w lit
      → (x ≡ new) × (y ≡ w) ⊎ (x ≡ w) × (y ≡ new)
      → let t = move_watch s lit i c (x ∷ y ∷ r) new in
        AllFine (Ahead t lit i) t curr next
        × (length (literal_getwatch t lit).clauses + 1 ≡ length (literal_getwatch s lit).clauses)
  move-Fine w new x y r nonfalse old which =
      let t = move_watch s lit i c (x ∷ y ∷ r) new in
      let same = move-SameAssignment s lit i c (x ∷ y ∷ r) new in
      let trail = trail-move s lit i c (x ∷ y ∷ r) new in
      let list =
        getwatch-move s lit i c (x ∷ y ∷ r) new (new-ne-lit s lit new false_lit nonfalse) in
      let stay : (d : ℕ) (z : Literal) → Ahead s lit i d z → Ahead t lit i d z = λ d z (e, h). (
        e,
        λ j l f. h j l (
            get_elem-delete (literal_getwatch s lit).clauses i
              (last_or 0 (literal_getwatch s lit).clauses) j d l
              (ap (λ (v : Watch). get_elem? v.clauses j) (sym list) ∙ f)),
      ) in
      let t_new : Fine (Ahead t lit i) t curr next c new w =
        λ f. let bad : ⊥ = ground (arith, f, nonfalse, same new.index) in elim bad [ ] in
      let t_old : Fine (Ahead t lit i) t curr next c w new = λ f.
        elim (old (ground (arith, f, same w.index))) [
          | inl b ↦ let bad : ⊥ = ground (arith, b, false_lit) in elim bad [ ]
          | inr (inl (k, l, m, z)) ↦
              inr (inl (k, l, m, ap (λ (f : ℕ → Literal). literal_negate (f k)) trail ∙ z))
          | inr (inr q) ↦ inr (inr (stay c w q))
        ] in
      let both : Literal → Literal → Type 0 =
        λ u v. Fine (Ahead t lit i) t curr next c u v × Fine (Ahead t lit i) t curr next c v u in
      let step : both x y = elim which [
        | inl (xn, yw) ↦
            subst (λ u. both u y) (sym xn) (subst (λ v. both new v) (sym yw) (t_new, t_old))
        | inr (xw, yn) ↦
            subst (λ u. both u y) (sym xw) (subst (λ v. both w v) (sym yn) (t_old, t_new))
      ] in
      (
        AllFine-replace (Ahead s lit i) (Ahead t lit i) s t curr next c x y r same trail
            (heap-move s lit i c (x ∷ y ∷ r) new) (λ d z ne. stay d z) step.0 step.1 fine,
        ap (λ (v : Watch). length v.clauses + 1) list
            ∙ length-delete (literal_getwatch s lit).clauses i
                (last_or 0 (literal_getwatch s lit).clauses) c at_entry,
      )

  pub wake-Fine : Watched s → RoundFine s lit i curr next (wake s lit i c)
  unfolding wake_lits
  wake-Fine watched =
      let (a, b, rest, e) = Watched-clause s lit i c at_entry watched in
      let is_watch = rw e at (Watched-pos s lit i c at_entry watched) in
      let (fa, fb) = fine c a b rest e in
      rw e (elim (Bool-cases (literal_eq a lit)) [
        | inl first ↦
            let al : a ≡ lit = (literal_eq_iff a lit).0 first in
            rw first (
              search-watch_rule (RoundFine s lit i curr next) s lit b rest _ _
                (λ t.
                  skip-Fine a b rest e (λ f. t)
                    (λ f. let bad : ⊥ = ground (arith, t, f) in elim bad [ ]))
                (λ n u.
                  set-Fine b b lit rest (update s.heap c (b ∷ lit ∷ rest)) u (λ d. refl)
                    (inl (refl, refl)))
                (λ n u. tt)
                λ new r n.
                  move-Fine b new new b r (swap-nonfalse_new s lit rest r new n)
                    (subst (λ u. Fine (Ahead s lit i) s curr next c b u) al fb) (inl (refl, refl)))
        | inr second ↦
            let bl : b ≡ lit = (literal_eq_iff b lit).0 (ground arith) in
            rw second (
              search-watch_rule (RoundFine s lit i curr next) s lit a rest _ _
                (λ t.
                  skip-Fine a b rest e (λ f. let bad : ⊥ = ground (arith, t, f) in elim bad [ ])
                    (λ f. t))
                (λ n u.
                  set-Fine a a b rest s.heap u (heap_as s c (a ∷ b ∷ rest) e) (inl (refl, bl)))
                (λ n u. tt)
                λ new r n.
                  move-Fine a new a new r (swap-nonfalse_new s lit rest r new n)
                    (subst (λ u. Fine (Ahead s lit i) s curr next c a u) bl fa) (inr (refl, refl)))
      ])
