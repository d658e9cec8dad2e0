-- ===== src/Sat/Propagate/Settles.antt =====
-- sat.c: the loops of `sat_propagate` end with no false or unit clause left.
use smchr.Prelude.{
  ℕ, zero, suc, ◌+◌, ◌<◌, ◌≤◌, ◌≡◌, ◌∙◌, ap, sym, true, Option, none, ◌∷◌, arith, Bool-cases,
  Option-cases, ◌⊎◌, inl, inr, ltb, ◌==◌, length, get_elem?, occurrences,
}
use smchr.Sat.Literal.{Literal, literal_eq_self, literal_negate}
use smchr.Sat.State.{Sat, literal_istrue, literal_isfree, literal_getwatch, literal_set}
use smchr.Sat.Propagate.{
  Woken, skipped, implied, conflict, moved, wake, Scanned, scanned, conflicted, scan, Propagated,
  fixpoint, conflict_at, out_of_fuel, propagate_loop, assign_and_propagate,
}
use smchr.Sat.Propagate.Watches.{Watched, watched_by}
use smchr.Sat.Propagate.Loop.{unset}
use smchr.Sat.Propagate.Ends.{
  Round, ScanEnds, Running, Scanning, Round-keeps, scan_keeps, scan_grows, KeptByRounds, Ready,
  PropagateEnds, Running-start,
}
use smchr.Sat.Propagate.QuietRound.{RoundFine, wake-Fine}
use smchr.Sat.Propagate.Quiet.{
  Quiet, Unseen, Unseen-all, get_elem-none, AllFine, Fine, Pending, Never, Ahead, start-AllFine,
  QuietWith,
}

abbrev Any : Sat → Type 0
Any s = Unit

abbrev NoFact : Sat → ℕ → Type 0
NoFact s c = Unit

no_facts : KeptByRounds Any NoFact
no_facts s lit i c at_entry f w j = go (wake s lit i c)
  where
    go : (r : Woken) → Round (λ _ _. Unit) NoFact s c 0 r
    go skipped = tt
    go (implied t) = tt
    go conflict = tt
    go (moved t) = tt

-- At the end of the list, no clause that the literal watches is ahead.
all_seen :
    (s : Sat) (lit : Literal) (i curr next : ℕ)
    → Watched s
    → get_elem? (literal_getwatch s lit).clauses i ≡ none
    → AllFine (Ahead s lit i) s curr next
    → AllFine Never s curr next
all_seen s lit i curr next watched at_end fine c a b rest e =
    let (fa, fb) = fine c a b rest e in
    (
      λ f. elim (fa f) [
        | inl t ↦ inl t
        | inr (inl p) ↦ inr (inl p)
        | inr (inr (z, h)) ↦ elim (none_left h (rw z (ground (arith, literal_eq_self lit)))) [ ]
      ],
      λ f. elim (fb f) [
        | inl t ↦ inl t
        | inr (inl p) ↦ inr (inl p)
        | inr (inr (z, h)) ↦ elim (none_left h (rw z (ground (arith, literal_eq_self lit)))) [ ]
      ],
    )
  where
    none_left : Unseen (literal_getwatch s lit).clauses i c → 0 < watched_by lit (a ∷ b ∷ rest) → ⊥
    none_left h pos =
        let count : occurrences c (literal_getwatch s lit).clauses ≡ watched_by lit (a ∷ b ∷ rest) =
          watched lit c ∙ ap (watched_by lit) e in
        omega (arith, Unseen-all (literal_getwatch s lit).clauses i c at_end h, count, pos)

module _ (n total curr : ℕ) where
  abbrev Settles : Scanned → Type 0
  Settles r = ScanEnds (λ t k. AllFine Never t curr k) NoFact r

  scan-Fine :
      (lit : Literal)
      → lit.index < n
      → (m : ℕ) (s : Sat) (i next : ℕ) → Scanning Any NoFact no_facts n total lit s next
      → curr ≤ next
      → length (literal_getwatch s lit).clauses ≤ m + i
      → AllFine (Ahead s lit i) s curr next
      → Settles (scan m s lit i next)
  unfolding scan
  scan-Fine lit below zero s i next p le len fine =
      all_seen s lit i curr next p.0.watched
        (get_elem-none (literal_getwatch s lit).clauses i (omega (arith, len))) fine
  scan-Fine lit below (suc m) s i next p le len fine =
      elim (Option-cases (get_elem? (literal_getwatch s lit).clauses i)) [
        | inl at_end ↦ rw (at_end, scan) (all_seen s lit i curr next p.0.watched at_end fine)
        | inr (c, at_entry) ↦
            rw (at_entry, scan)
              (go c (λ t j k q l e f. scan-Fine lit below m t j k q l e f) (wake s lit i c)
                (Round-keeps Any NoFact no_facts n total lit below s next i c at_entry p)
                (wake-Fine s lit i c curr next at_entry p.1 le p.0.live.ends fine p.0.watched))
      ]
    where
      go :
          (c : ℕ)
          → ((t : Sat) (j k : ℕ)
              → Scanning Any NoFact no_facts n total lit t k
              → curr ≤ k
              → length (literal_getwatch t lit).clauses ≤ m + j
              → AllFine (Ahead t lit j) t curr k
              → Settles (scan m t lit j k))
          → (w : Woken) → Round (Scanning Any NoFact no_facts n total lit) NoFact s c next w
          → RoundFine s lit i curr next w
          → Settles (elim w [
            | skipped ↦ scan m s lit (i + 1) next
            | implied s' ↦ scan m s' lit (i + 1) (next + 1)
            | conflict ↦ conflicted s c
            | moved s' ↦ scan m s' lit i next
          ])
      go c rec skipped r f = rec s (i + 1) next p le (omega (arith, len)) f
      go c rec (implied t) r (f, l) =
          rec t (i + 1) (next + 1) r (omega (arith, le)) (rw l (omega (arith, len))) f
      go c rec conflict r f = tt
      go c rec (moved t) r (f, l) = rec t i next r le (omega (arith, l, len)) f

-- The literal that is propagated next waits no more once its watch list is looked at.
start-Fine :
    (s : Sat) (curr next : ℕ)
    → AllFine Never s curr next
    → AllFine (Ahead s (literal_negate (s.trail curr)) 0) s (curr + 1) next
start-Fine s curr next fine c a b rest e =
    let (fa, fb) = fine c a b rest e in (later a b fa, later b a fb)
  where
    later :
        (x y : Literal)
        → Fine Never s curr next c x y
        → Fine (Ahead s (literal_negate (s.trail curr)) 0) s (curr + 1) next c x y
    later x y h f = elim (h f) [
      | inl t ↦ inl t
      | inr (inr q) ↦ elim q [ ]
      | inr (inl (k, l, m, z)) ↦ elim (Bool-cases (curr == k)) [
        | inl q ↦
            let here : curr ≡ k = ground (arith, q) in
            inr (inr (sym (ap (λ j. literal_negate (s.trail j)) here ∙ z), λ j l. elim l [ ]))
        | inr q ↦ inr (inl (k, ground (arith, q, l), m, z))
      ]
    ]

-- What holds at a fixpoint, if the loop ends at one.
abbrev pub AtFixpoint : (Sat → Type 0) → Propagated → Type 0
AtFixpoint P (fixpoint t k) = P t
AtFixpoint P (conflict_at t c) = Unit
AtFixpoint P out_of_fuel = Unit

Quiet-at_end : (s : Sat) (curr next : ℕ) → next ≤ curr → AllFine Never s curr next → Quiet s
Quiet-at_end s curr next le fine c a b rest e =
    let (fa, fb) = fine c a b rest e in (λ f. settled a b (fa f), λ f. settled b a (fb f))
  where
    settled :
        (x y : Literal)
        → (literal_istrue s y ≡ true) ⊎ Pending s curr next x ⊎ ⊥
        → literal_istrue s y ≡ true
    settled x y (inl t) = t
    settled x y (inr (inl (k, l, m, z))) = let bad : ⊥ = omega arith in elim bad [ ]
    settled x y (inr (inr q)) = elim q [ ]

module _ (n total : ℕ) where
  loop-Quiet :
      (fuel : ℕ) (s : Sat) (curr next : ℕ)
      → Running Any n total s next
      → curr ≤ next
      → AllFine Never s curr next
      → AtFixpoint Quiet (propagate_loop fuel s curr next)
  unfolding propagate_loop
  loop-Quiet zero s curr next p le fine = elim (Bool-cases (ltb curr next)) [
    | inl more ↦ rw (more, propagate_loop) tt
    | inr done ↦ rw (done, propagate_loop) (Quiet-at_end s curr next (ground (arith, done)) fine)
  ]
  loop-Quiet (suc fuel) s curr next p le fine = elim (Bool-cases (ltb curr next)) [
    | inr done ↦ rw (done, propagate_loop) (Quiet-at_end s curr next (ground (arith, done)) fine)
    | inl more ↦
        let lt : curr < next = ground (arith, more) in
        let lit = literal_negate (s.trail curr) in
        let m = length (literal_getwatch s lit).clauses in
        let on = p.live.on_trail curr (omega (arith, p.live.ends)) in
        rw (more, propagate_loop)
          (go lt (loop-Quiet fuel) (scan m s lit 0 next)
            (scan_keeps Any NoFact no_facts n total s curr next lt p) (scan_grows m s lit 0 next)
            (scan-Fine n total (curr + 1) lit (omega (arith, on.1, p.live.size)) m s 0 next
              (p, ground (arith, on.0)) (omega arith) (omega arith) (start-Fine s curr next fine)))
  ]
    where
      go :
          curr < next
          → ((t : Sat) (c k : ℕ)
              → Running Any n total t k
              → c ≤ k
              → AllFine Never t c k
              → AtFixpoint Quiet (propagate_loop fuel t c k))
          → (r : Scanned) → ScanEnds (Running Any n total) NoFact r
          → ScanEnds (λ _ k. next ≤ k) (λ _ _. Unit) r
          → Settles n total (curr + 1) r
          → AtFixpoint Quiet (elim r [
            | scanned s' next' ↦ propagate_loop fuel s' (curr + 1) next'
            | conflicted s' c ↦ conflict_at s' c
          ])
      go lt rec (scanned t k) q grows f = rec t (curr + 1) k q (omega (arith, lt, grows)) f
      go lt rec (conflicted t c) q grows f = tt

pub assign-Quiet :
    (fuel : ℕ) (s : Sat) (lit : Literal) (reason : Option ℕ)
    → Ready s
    → literal_isfree s lit ≡ true
    → lit.index < s.vars_length
    → QuietWith s lit
    → AtFixpoint Quiet (assign_and_propagate fuel s lit reason)
unfolding assign_and_propagate
assign-Quiet fuel s lit reason ready free below quiet =
    loop-Quiet s.vars_length (s.tlevel + unset s.vars_length s.vars) fuel (literal_set s lit reason)
      s.tlevel (s.tlevel + 1) (Running-start Any s lit reason ready free below tt) (omega arith)
      (start-AllFine s lit reason free quiet)

pub with_fixpoint :
    (P : Sat → ℕ → Type 0) (R : Sat → Type 0) (Q : Sat → ℕ → Type 0) (r : Propagated)
    → PropagateEnds P Q r
    → AtFixpoint R r
    → PropagateEnds (λ t k. P t k × R t) Q r
with_fixpoint P R Q (fixpoint t k) p q = (p, q)
with_fixpoint P R Q (conflict_at t c) p q = p
with_fixpoint P R Q out_of_fuel p q = p
