-- ===== src/Sat/Propagate/Ends.antt =====
-- The rules for the loops of `sat_propagate`, and what propagation establishes when it ends.
use smchr.Prelude.{
  ℕ, zero, suc, ◌+◌, ◌<◌, ◌≤◌, ◌≡◌, refl, true, false, Option, some, arith, Bool-cases,
  Option-cases, inl, inr, ltb, get_elem?, length,
}
use smchr.Sat.Literal.{Literal, literal_negate}
use smchr.Sat.State.{Sat, literal_isfalse, literal_isfree, literal_getwatch, literal_set}
use smchr.Sat.Propagate.{
  Woken, skipped, implied, conflict, moved, wake, Scanned, scanned, conflicted, scan, Propagated,
  fixpoint, conflict_at, out_of_fuel, propagate_loop, assign_and_propagate,
}
use smchr.Sat.Propagate.Watches.{Watched, Leaves, wake-Watched, Watched-set}
use smchr.Sat.Propagate.Loop.{AllBelow, unset, OnTrail, Live, Live-set, LiveRound, wake-Live}

-- A round that keeps `P`, and whose conflicts satisfy `Q`.
abbrev pub Round : (Sat → ℕ → Type 0) → (Sat → ℕ → Type 0) → Sat → ℕ → ℕ → Woken → Type 0
Round P Q s c next skipped = Unit
Round P Q s c next (implied t) = P t (next + 1)
Round P Q s c next conflict = Q s c
Round P Q s c next (moved t) = P t next

abbrev pub ScanEnds : (Sat → ℕ → Type 0) → (Sat → ℕ → Type 0) → Scanned → Type 0
ScanEnds P Q (scanned t next) = P t next
ScanEnds P Q (conflicted t c) = Q t c

-- The loop over a watch list keeps what its rounds keep.
pub scan_rule :
    (P Q : Sat → ℕ → Type 0) (lit : Literal)
    → ((s : Sat) (next i c : ℕ)
        → get_elem? (literal_getwatch s lit).clauses i ≡ some c
        → P s next
        → Round P Q s c next (wake s lit i c))
    → (n : ℕ) (s : Sat) (i next : ℕ) → P s next
    → ScanEnds P Q (scan n s lit i next)
unfolding scan
scan_rule P Q lit round zero s i next p = p
scan_rule P Q lit round (suc n) s i next p =
    elim (Option-cases (get_elem? (literal_getwatch s lit).clauses i)) [
      | inl none_left ↦ rw (none_left, scan) p
      | inr (c, at_entry) ↦
          rw (at_entry, scan)
            (go c (scan_rule P Q lit round n) (wake s lit i c) (round s next i c at_entry p))
    ]
  where
    go :
        (c : ℕ)
        → ((t : Sat) (j k : ℕ) → P t k → ScanEnds P Q (scan n t lit j k))
        → (w : Woken) → Round P Q s c next w
        → ScanEnds P Q (elim w [
          | skipped ↦ scan n s lit (i + 1) next
          | implied s' ↦ scan n s' lit (i + 1) (next + 1)
          | conflict ↦ conflicted s c
          | moved s' ↦ scan n s' lit i next
        ])
    go c rec skipped r = rec s (i + 1) next p
    go c rec (implied t) r = rec t (i + 1) (next + 1) r
    go c rec conflict r = r
    go c rec (moved t) r = rec t i next r

-- The end of the trail moves forward only.
pub scan_grows :
    (n : ℕ) (s : Sat) (lit : Literal) (i next : ℕ)
    → ScanEnds (λ _ k. next ≤ k) (λ _ _. Unit) (scan n s lit i next)
scan_grows n s lit i next =
    scan_rule (λ _ k. next ≤ k) (λ _ _. Unit) lit
      (λ t k j c _ h. any_round t c k (wake t lit j c) h) n s i next (omega arith)
  where
    any_round :
        (t : Sat) (c k : ℕ) (w : Woken) → next ≤ k → Round (λ _ l. next ≤ l) (λ _ _. Unit) t c k w
    any_round t c k skipped h = tt
    any_round t c k (implied u) h = omega arith
    any_round t c k conflict h = tt
    any_round t c k (moved u) h = h

-- The outer loop ends within its fuel if the trail cannot grow beyond `total`.
abbrev pub PropagateEnds : (Sat → ℕ → Type 0) → (Sat → ℕ → Type 0) → Propagated → Type 0
PropagateEnds P Q (fixpoint t curr) = P t curr
PropagateEnds P Q (conflict_at t c) = Q t c
PropagateEnds P Q out_of_fuel = ⊥

pub propagate_rule :
    (P Q : Sat → ℕ → Type 0) (total : ℕ)
    → ((s : Sat) (curr next : ℕ)
        → curr < next
        → P s next
        → ScanEnds P Q (
            scan
              (length (literal_getwatch s (literal_negate (s.trail curr))).clauses)
              s
              (literal_negate (s.trail curr))
              0
              next))
    → ((s : Sat) (next : ℕ) → P s next → next ≤ total)
    → (fuel : ℕ) (s : Sat) (curr next : ℕ) → total ≤ fuel + curr
    → curr ≤ next
    → P s next
    → PropagateEnds P Q (propagate_loop fuel s curr next)
unfolding propagate_loop
propagate_rule P Q total step bound zero s curr next enough le p =
    let at_end : curr ≡ next = omega (arith, bound s next p) in
    let b : ltb curr next ≡ false = ground arith in rw b (rw at_end p)
propagate_rule P Q total step bound (suc fuel) s curr next enough le p =
    elim (Bool-cases (ltb curr next)) [
      | inr done ↦
          let at_end : curr ≡ next = ground arith in rw (done, propagate_loop) (rw at_end p)
      | inl more ↦
          let lt : curr < next = ground arith in
          let lit = literal_negate (s.trail curr) in
          let rounds = length (literal_getwatch s lit).clauses in
          rw (more, propagate_loop)
            (go (propagate_rule P Q total step bound fuel) (scan rounds s lit 0 next)
              (step s curr next lt p) (scan_grows rounds s lit 0 next) lt)
    ]
  where
    go :
        ((t : Sat) (c k : ℕ)
          → total ≤ fuel + c
          → c ≤ k
          → P t k
          → PropagateEnds P Q (propagate_loop fuel t c k))
        → (r : Scanned) → ScanEnds P Q r
        → ScanEnds (λ _ k. next ≤ k) (λ _ _. Unit) r
        → curr < next
        → PropagateEnds P Q (elim r [
          | scanned s' next' ↦ propagate_loop fuel s' (curr + 1) next'
          | conflicted s' c ↦ conflict_at s' c
        ])
    go rec (scanned t k) r grows lt = rec t (curr + 1) k (omega arith) (omega arith) r
    go rec (conflicted t c) r grows lt = r

-- What `sat_propagate` needs of the state, and leaves.
pub record Ready (s : Sat) : Type 0 where
  pub watched : Watched s
  pub on_trail : OnTrail s
  pub ranged : (c : ℕ) → AllBelow s.vars_length (s.heap c)

-- Within the loops, with the facts `J` of a state that every round keeps.
pub record Running (J : Sat → Type 0) (n total : ℕ) (s : Sat) (next : ℕ) : Type 0 where
  pub live : Live n total s next
  pub watched : Watched s
  pub kept : J s

-- `J` is kept by rounds, and its conflicts satisfy `Q`.
abbrev pub KeptByRounds : (Sat → Type 0) → (Sat → ℕ → Type 0) → Type 0
KeptByRounds J Q =
    (s : Sat) (lit : Literal) (i c : ℕ)
    → get_elem? (literal_getwatch s lit).clauses i ≡ some c
    → literal_isfalse s lit ≡ true
    → Watched s
    → J s
    → Round (λ t _. J t) Q s c 0 (wake s lit i c)

module _ (J : Sat → Type 0) (Q : Sat → ℕ → Type 0) (rounds : KeptByRounds J Q) (n total : ℕ) where
  abbrev pub Scanning : Literal → Sat → ℕ → Type 0
  Scanning lit s next = Running J n total s next × (literal_isfalse s lit ≡ true)

  pub Round-keeps :
      (lit : Literal)
      → lit.index < n
      → (s : Sat) (next i c : ℕ) → get_elem? (literal_getwatch s lit).clauses i ≡ some c
      → Scanning lit s next
      → Round (Scanning lit) Q s c next (wake s lit i c)
  Round-keeps lit below s next i c at_entry p =
      go (wake s lit i c) (wake-Live n total s next p.0.live lit p.1 i c below)
        (wake-Watched s lit i c at_entry p.1 p.0.watched)
        (rounds s lit i c at_entry p.1 p.0.watched p.0.kept)
    where
      go :
          (w : Woken)
          → LiveRound n total next lit w
          → Leaves Watched w
          → Round (λ t _. J t) Q s c 0 w
          → Round (Scanning lit) Q s c next w
      go skipped a b d = tt
      go (implied t) a b d = (record { live = a.0; watched = b; kept = d }, a.1)
      go conflict a b d = d
      go (moved t) a b d = (record { live = a.0; watched = b; kept = d }, a.1)

  pub scan_keeps :
      (s : Sat) (curr next : ℕ)
      → curr < next
      → Running J n total s next
      → ScanEnds (Running J n total) Q (
          scan
            (length (literal_getwatch s (literal_negate (s.trail curr))).clauses)
            s
            (literal_negate (s.trail curr))
            0
            next)
  scan_keeps s curr next lt p =
      let lit = literal_negate (s.trail curr) in
      let on = p.live.on_trail curr (omega (arith, p.live.ends)) in
      let r =
        scan_rule (Scanning lit) Q lit (Round-keeps lit (omega (arith, on.1, p.live.size)))
          (length (literal_getwatch s lit).clauses) s 0 next (p, ground (arith, on.0)) in
      go lit (scan (length (literal_getwatch s lit).clauses) s lit 0 next) r
    where
      go :
          (lit : Literal) (r : Scanned)
          → ScanEnds (Scanning lit) Q r
          → ScanEnds (Running J n total) Q r
      go lit (scanned t k) p = p.0
      go lit (conflicted t c) q = q

-- The state in which the loops start.
pub Running-start :
    (J : Sat → Type 0) (s : Sat) (lit : Literal) (reason : Option ℕ)
    → Ready s
    → literal_isfree s lit ≡ true
    → lit.index < s.vars_length
    → J (literal_set s lit reason)
    → Running J s.vars_length
        (s.tlevel + unset s.vars_length s.vars)
        (literal_set s lit reason)
        (s.tlevel + 1)
Running-start J s lit reason ready free below start =
    let n = s.vars_length in
    let total = s.tlevel + unset n s.vars in
    let live : Live n total s s.tlevel = record {
      on_trail = ready.on_trail;
      ends = refl;
      size = refl;
      ranged = ready.ranged;
      budget = omega arith;
    } in
    record {
      live = Live-set n total s s.tlevel live lit reason free below;
      watched = Watched-set s lit reason ready.watched;
      kept = start;
    }

-- Propagation of a free literal ends, within as many rounds as there are free variables, at a
-- state with the facts that every round keeps.
pub propagates :
    (J : Sat → Type 0) (Q : Sat → ℕ → Type 0)
    → KeptByRounds J Q
    → (s : Sat) (lit : Literal) (reason : Option ℕ) (fuel : ℕ) → Ready s
    → literal_isfree s lit ≡ true
    → lit.index < s.vars_length
    → unset s.vars_length s.vars ≤ fuel
    → J (literal_set s lit reason)
    → PropagateEnds
        (λ t curr.
          Ready t
          × (curr ≡ t.tlevel)
          × (t.vars_length ≡ s.vars_length)
          × (curr ≤ s.tlevel + unset s.vars_length s.vars)
          × J t)
        Q
        (assign_and_propagate fuel s lit reason)
unfolding assign_and_propagate
propagates J Q rounds s lit reason fuel ready free below enough start =
    let n = s.vars_length in
    let total = s.tlevel + unset n s.vars in
    let running = Running-start J s lit reason ready free below start in
    go (assign_and_propagate fuel s lit reason) (
      propagate_rule (Running J n total) Q total (scan_keeps J Q rounds n total)
        (λ t k p. omega (arith, p.live.budget)) fuel (literal_set s lit reason) s.tlevel
        (s.tlevel + 1) (omega arith) (omega arith) running)
  where
    go :
        (r : Propagated)
        → PropagateEnds (Running J s.vars_length (s.tlevel + unset s.vars_length s.vars)) Q r
        → PropagateEnds
            (λ t curr.
              Ready t
              × (curr ≡ t.tlevel)
              × (t.vars_length ≡ s.vars_length)
              × (curr ≤ s.tlevel + unset s.vars_length s.vars)
              × J t)
            Q
            r
    go (fixpoint t curr) p = (
      record {
        watched = p.watched;
        on_trail = p.live.on_trail;
        ranged = rw p.live.size p.live.ranged;
      },
      p.live.ends,
      p.live.size,
      omega (arith, p.live.budget),
      p.kept,
    )
    go (conflict_at t c) q = q
    go out_of_fuel e = e
