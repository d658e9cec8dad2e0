-- ===== src/Queue/Flush.antt =====
-- prop.c: `solver_flush_queue`, which takes all propagators off the queue when the solver fails.
use smchr.Prelude.{
  ℕ, zero, suc, ◌+◌, ◌≤◌, ◌<◌, ◌≡◌, refl, subst, ◌∙◌, true, false, Option, none, some, List, [],
  ◌∷◌, update, occurrences, arith, if◌then◌else◌, ◌==◌, Bool-cases, Option-cases, List-cases, inl,
  inr, length, ltb, leb,
}
use smchr.Queue.{Queue, max_priority, points_to}
use smchr.Queue.Chains.{Chain, Chain-frame}
use smchr.Queue.Fifo.{first, Represents}

-- `while (prop->next != prop) ...; prop->next = NULL;` for a list of at most `n` entries.
unfoldable pub flush_list : ℕ → (ℕ → Option ℕ) → ℕ → ℕ → Option ℕ
flush_list zero next p = next
flush_list (suc n) next p =
    let more : ℕ → Option ℕ = elim (next p) [
      | none ↦ next
      | some q ↦ flush_list n (update next p none) q
    ] in
    if points_to (next p) p then update next p none else more

abbrev flush_head : ℕ → Queue → Option ℕ → Queue
flush_head bound s none = s
flush_head bound s (some p) = record s {
  next = flush_list bound s.next p;
  head = update s.head s.priority none;
  tail = update s.tail s.priority none;
}

-- `while (priority < MAX_PRIORITY)`, in `m` rounds.
unfoldable pub flush_lists : ℕ → ℕ → Queue → Queue
flush_lists bound zero s = s
flush_lists bound (suc m) s =
    let s1 = flush_head bound s (s.head s.priority) in
    let rest = flush_lists bound m (record s1 { priority = s.priority + 1 }) in
    if leb max_priority s.priority then s else rest

abbrev flush_current : Queue → Option ℕ → Queue
flush_current s none = s
flush_current s (some p) = record s { next = update s.next p none; current = none }

unfoldable pub solver_flush_queue : ℕ → Queue → Queue
solver_flush_queue bound s =
    let s1 = flush_lists bound max_priority s in flush_current s1 s1.current

pub flush_list-next :
    (n : ℕ) (next : ℕ → Option ℕ) (p : ℕ) (xs : List ℕ)
    → length (p ∷ xs) ≤ n
    → Chain next (p ∷ xs)
    → ((q : ℕ) → occurrences q (p ∷ xs) ≤ 1)
    → (q : ℕ) → flush_list n next p q ≡ (if ltb 0 (occurrences q (p ∷ xs)) then none else next q)
unfolding flush_list
flush_list-next zero next p xs h c o q = ground arith
flush_list-next (suc n) next p [] h c o q =
    let self : (p == p) ≡ true = ground arith in rw (flush_list, c, self) (ground arith)
flush_list-next (suc n) next p (y ∷ ys) h (e, c) o q =
    let other : (y == p) ≡ false = ground (arith, o p) in
    let gone : occurrences p (y ∷ ys) ≡ 0 = ground (arith, o p) in
    let rest =
      flush_list-next n (update next p none) y ys (omega arith)
        (Chain-frame next p none (y ∷ ys) gone c) (λ r. omega (arith, o r)) q in
    rw (flush_list, e, other) (rest ∙ ground arith)

-- What is off the queue stays off it.
flush_list-none :
    (n : ℕ) (next : ℕ → Option ℕ) (p q : ℕ) → next q ≡ none → flush_list n next p q ≡ none
unfolding flush_list
flush_list-none zero next p q h = h
flush_list-none (suc n) next p q h = elim (Bool-cases (points_to (next p) p)) [
  | inl e ↦ rw (flush_list, e) (ground arith)
  | inr e ↦ elim (Option-cases (next p)) [
    | inl g ↦ rw (flush_list, g) h
    | inr (r, g) ↦ rw (flush_list, e, g) (flush_list-none n (update next p none) r q (ground arith))
  ]
]

flush_head-none :
    (bound : ℕ) (s : Queue) (o : Option ℕ) (q : ℕ)
    → s.next q ≡ none
    → (flush_head bound s o).next q ≡ none
flush_head-none bound s none q h = h
flush_head-none bound s (some p) q h = flush_list-none bound s.next p q h

flush_lists-none :
    (bound m : ℕ) (s : Queue) (q : ℕ) → s.next q ≡ none → (flush_lists bound m s).next q ≡ none
unfolding flush_lists
flush_lists-none bound zero s q h = h
flush_lists-none bound (suc m) s q h = elim (Bool-cases (leb max_priority s.priority)) [
  | inl e ↦ rw (flush_lists, e) h
  | inr e ↦
      rw (flush_lists, e)
        (flush_lists-none bound m
          (record (flush_head bound s (s.head s.priority)) { priority = s.priority + 1 }) q
          (flush_head-none bound s (s.head s.priority) q h))
]

Chain-agree :
    (next next' : ℕ → Option ℕ) (xs : List ℕ)
    → ((q : ℕ) → 0 < occurrences q xs → next' q ≡ next q)
    → Chain next xs
    → Chain next' xs
Chain-agree next next' [] h c = tt
Chain-agree next next' (x ∷ []) h c = h x (ground arith) ∙ c
Chain-agree next next' (x ∷ y ∷ xs) h (e, c) =
    (h x (ground arith) ∙ e, Chain-agree next next' (y ∷ xs) (λ q g. h q (omega arith)) c)

flush_head-head :
    (bound : ℕ) (s : Queue) (o : Option ℕ) (k : ℕ)
    → s.priority < k
    → (flush_head bound s o).head k ≡ s.head k
flush_head-head bound s none k h = refl
flush_head-head bound s (some p) k h = ground arith

-- The lists from `priority` on.
record Rest (s : Queue) (lists : ℕ → List ℕ) : Type 0 where
  heads : (k : ℕ) → s.priority ≤ k → s.head k ≡ first (lists k)
  chains : (k : ℕ) → s.priority ≤ k → Chain s.next (lists k)

module _ (bound : ℕ) (lists : ℕ → List ℕ) (once : (k p : ℕ) → occurrences p (lists k) ≤ 1)
    (one_list : (j k p : ℕ) → 0 < occurrences p (lists j) → 0 < occurrences p (lists k) → j ≡ k)
    (enough : (k : ℕ) → length (lists k) ≤ bound) where
  head-next :
      (s : Queue) (q : ℕ)
      → Rest s lists
      → (flush_head bound s (s.head s.priority)).next q
        ≡ (if ltb 0 (occurrences q (lists s.priority)) then none else s.next q)
  head-next s q r = elim (List-cases (lists s.priority)) [
    | inl e ↦ rw (r.heads s.priority (omega arith), e) refl
    | inr (x, xs, e) ↦
        rw (r.heads s.priority (omega arith), e)
          (flush_list-next bound s.next x xs (subst (λ l. length l ≤ bound) e (enough s.priority))
            (subst (Chain s.next) e (r.chains s.priority (omega arith)))
            (λ p. subst (λ l. occurrences p l ≤ 1) e (once s.priority p)) q)
  ]

  head-Rest :
      (s : Queue)
      → Rest s lists
      → Rest (record (flush_head bound s (s.head s.priority)) { priority = s.priority + 1 }) lists
  head-Rest s r = record {
    heads = λ k h.
        flush_head-head bound s (s.head s.priority) k (omega arith) ∙ r.heads k (omega arith);
    chains = λ k h.
        Chain-agree s.next (flush_head bound s (s.head s.priority)).next (lists k)
          (λ q g. head-next s q r ∙ ground (arith, one_list k s.priority q g))
          (r.chains k (omega arith));
  }

  lists-next :
      (m : ℕ) (s : Queue) (k q : ℕ)
      → Rest s lists
      → k < m + s.priority
      → s.priority ≤ k
      → k < max_priority
      → 0 < occurrences q (lists k)
      → (flush_lists bound m s).next q ≡ none
  unfolding flush_lists
  lists-next zero s k q r a b c o = ground arith
  lists-next (suc m) s k q r a b c o =
      let next = record (flush_head bound s (s.head s.priority)) { priority = s.priority + 1 } in
      let going : leb max_priority s.priority ≡ false = ground arith in
      elim (Bool-cases (k == s.priority)) [
        | inl e ↦
            (let z : k ≡ s.priority = ground arith in
              let here : 0 < occurrences q (lists s.priority) =
                subst (λ i. 0 < occurrences q (lists i)) z o in
              rw (flush_lists, going)
                (flush_lists-none bound m next q (head-next s q r ∙ ground arith)))
        | inr e ↦
            rw (flush_lists, going)
              (lists-next m next k q (head-Rest s r) (omega arith) (ground (arith, e)) c o)
      ]

flush_current-none :
    (s : Queue) (o : Option ℕ) (q : ℕ) → s.next q ≡ none → (flush_current s o).next q ≡ none
flush_current-none s none q h = h
flush_current-none s (some p) q h = ground arith

-- After `solver_flush_queue`, with a bound that no list is longer than, no propagator that stood in a
-- list is scheduled.
pub flush-unschedules :
    (bound : ℕ) (s : Queue) (lists : ℕ → List ℕ) (k q : ℕ)
    → Represents s lists
    → ((j : ℕ) → length (lists j) ≤ bound)
    → k < max_priority
    → 0 < occurrences q (lists k)
    → (solver_flush_queue bound s).next q ≡ none
unfolding solver_flush_queue
flush-unschedules bound s lists k q r enough b o =
    let rest : Rest s lists = record { heads = λ j h. r.heads j; chains = λ j h. r.chains j } in
    let s1 = flush_lists bound max_priority s in
    let from : s.priority ≤ k = ground (arith, r.least k, o) in
    flush_current-none s1 s1.current q (
      lists-next bound lists r.once r.one_list enough max_priority s k q rest (omega arith) from b
        o)
