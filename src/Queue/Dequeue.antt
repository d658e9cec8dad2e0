-- ===== src/Queue/Dequeue.antt =====
-- prop.c: the head of the first queue that is not empty leaves it.
use smchr.Prelude.{
  ℕ, zero, suc, ◌+◌, ◌≤◌, ◌<◌, ◌≡◌, refl, sym, ap, subst, ◌∙◌, ◌≢◌, true, false, not, ◌||◌, Option,
  none, some, List, [], ◌∷◌, update, occurrences, arith, if◌then◌else◌, ◌==◌, Bool-cases,
  List-cases, inl, inr, leb,
}
use smchr.Queue.{Queue, max_priority, is_null, advance, dequeue}
use smchr.Queue.Chains.{Chain}
use smchr.Queue.Fifo.{first, last, Represents}

none_of_null : (o : Option ℕ) → is_null o ≡ true → o ≡ none
none_of_null none h = refl
none_of_null (some p) h = ground arith

-- Where `advance` stops: at the least queue from `priority` on that is not empty, or at the end.
advance-stops :
    (n : ℕ) (s : Queue)
    → s.priority ≤ max_priority
    → max_priority ≤ n + s.priority
    → ((k : ℕ) → k < s.priority → s.head k ≡ none)
    → (m : ℕ) × (advance n s ≡ record s { priority = m })
      × ((k : ℕ) → k < m → s.head k ≡ none)
      × (m < max_priority → is_null (s.head m) ≡ false)
unfolding advance
advance-stops zero s h g l = (s.priority, refl, l, λ p. ground (arith, h, g))
advance-stops (suc n) s h g l =
    elim (Bool-cases (leb max_priority s.priority || not (is_null (s.head s.priority)))) [
      | inl e ↦ (s.priority, rw e refl, l, λ p. ground (arith, e))
      | inr e ↦
          (let next = record s { priority = s.priority + 1 } in
            let (m, a, b, c) =
              advance-stops n next (ground (arith, e)) (omega arith)
                (λ k q. ground (arith, l k, e, none_of_null (s.head s.priority))) in
            (m, rw e a, b, c))
    ]

first-empty : (xs : List ℕ) → first xs ≡ none → xs ≡ []
first-empty [] h = refl
first-empty (x ∷ xs) h = ground arith

abbrev pub drop_at : (ℕ → List ℕ) → ℕ → List ℕ → ℕ → List ℕ
drop_at lists k rest j = if j == k then rest else lists j

module _ (s : Queue) (lists : ℕ → List ℕ) (p : ℕ) (rest : List ℕ) (r : Represents s lists)
    (below : s.priority < max_priority) (shape : lists s.priority ≡ p ∷ rest) where
  -- An entry of the shorter list is one of the list.
  still : (j q : ℕ) → occurrences q (drop_at lists s.priority rest j) ≤ occurrences q (lists j)
  still j q =
      let e : (j : ℕ) → (j == s.priority) ≡ true → lists j ≡ p ∷ rest =
        λ i h. (let z : s.priority ≡ i = ground arith in subst (λ x. lists x ≡ p ∷ rest) z shape) in
      elim (Bool-cases (j == s.priority)) [
        | inl h ↦ rw (h, e j h) (omega arith)
        | inr h ↦ rw h (omega arith)
      ]

  dropped-least : (k : ℕ) → k < s.priority → drop_at lists s.priority rest k ≡ []
  dropped-least k h = ground (arith, r.least k)

  drop_each :
      (P : ℕ → List ℕ → Type 0)
      → P s.priority rest
      → ((j : ℕ) → j ≢ s.priority → P j (lists j))
      → (j : ℕ) → P j (drop_at lists s.priority rest j)
  drop_each P h g j = elim (Bool-cases (j == s.priority)) [
    | inl e ↦ rw e (let z : s.priority ≡ j = ground arith in subst (λ i. P i rest) z h)
    | inr e ↦ rw e (g j (ground arith))
  ]

  dropped-once : (j q : ℕ) → occurrences q (drop_at lists s.priority rest j) ≤ 1
  dropped-once j q = omega (arith, still j q, r.once j q)

  dropped-one_list :
      (i j q : ℕ)
      → 0 < occurrences q (drop_at lists s.priority rest i)
      → 0 < occurrences q (drop_at lists s.priority rest j)
      → i ≡ j
  dropped-one_list i j q h g =
      r.one_list i j q (omega (arith, still i q)) (omega (arith, still j q))

  dropped-unscheduled :
      (j q : ℕ) → s.next q ≡ none → occurrences q (drop_at lists s.priority rest j) ≡ 0
  dropped-unscheduled j q h = omega (arith, still j q, r.unscheduled j q h)

  -- More entries behind the head.
  behind-Represents :
      (y : ℕ) (ys : List ℕ)
      → rest ≡ y ∷ ys
      → Represents
          (record s { head = update s.head s.priority (some y) })
          (drop_at lists s.priority rest)
  behind-Represents y ys e =
      let whole : lists s.priority ≡ p ∷ y ∷ ys = rw shape (ap (λ l. p ∷ l) e) in
      record {
        heads =
            drop_each (λ j l. update s.head s.priority (some y) j ≡ first l) (rw e (ground arith))
              (λ j h. ground (arith, r.heads j));
        tails =
            drop_each (λ j l. s.tail j ≡ last l) (rw e (r.tails s.priority ∙ ap last whole))
              (λ j h. r.tails j);
        chains =
            drop_each (λ j l. Chain s.next l)
              (subst (Chain s.next) (sym e) (subst (Chain s.next) whole (r.chains s.priority)).1)
              (λ j h. r.chains j);
        once = dropped-once;
        one_list = dropped-one_list;
        unscheduled = dropped-unscheduled;
        least = dropped-least;
        ready = λ h. let q : (s.priority == s.priority) ≡ true = ground arith in rw (q, e) refl;
      }

  -- The head was alone.
  alone-Represents :
      (m : ℕ)
      → rest ≡ []
      → ((k : ℕ) → k < m → update s.head s.priority none k ≡ none)
      → (m < max_priority → is_null (update s.head s.priority none m) ≡ false)
      → Represents
          (record s {
            head = update s.head s.priority none;
            tail = update s.tail s.priority none;
            priority = m;
          })
          (drop_at lists s.priority rest)
  alone-Represents m e l h =
      let heads : (j : ℕ)
          → update s.head s.priority none j ≡ first (drop_at lists s.priority rest j) =
        drop_each (λ j l. update s.head s.priority none j ≡ first l) (rw e (ground arith))
          (λ j h. ground (arith, r.heads j)) in
      record {
        heads = heads;
        tails =
            drop_each (λ j l. update s.tail s.priority none j ≡ last l) (rw e (ground arith))
              (λ j h. ground (arith, r.tails j));
        chains = drop_each (λ j l. Chain s.next l) (rw e tt) (λ j h. r.chains j);
        once = dropped-once;
        one_list = dropped-one_list;
        unscheduled = dropped-unscheduled;
        least = λ k q. first-empty (drop_at lists s.priority rest k) (sym (heads k) ∙ l k q);
        ready = λ q. ap is_null (sym (heads m)) ∙ h q;
      }

  -- The step of `solver_wake_prop` that takes an entry: the first propagator of the least list that is
  -- not empty leaves it, the other lists stay, and `priority` is then again the least with a list that
  -- is not empty.
  pub dequeue-Represents : Represents (dequeue s p) (drop_at lists s.priority rest)
  unfolding dequeue
  dequeue-Represents = elim (List-cases rest) [
    | inl e ↦
        (let whole : lists s.priority ≡ p ∷ [] = rw shape (ap (λ l. p ∷ l) e) in
          let own : s.next p ≡ some p = subst (Chain s.next) whole (r.chains s.priority) in
          let self : (p == p) ≡ true = ground arith in
          let (m, a, b, c) =
            advance-stops max_priority
              (record s {
                head = update s.head s.priority none;
                tail = update s.tail s.priority none;
              })
              (omega arith) (omega arith) (λ k h. ground (arith, r.heads k, r.least k h)) in
          rw (dequeue, own, self, a) (alone-Represents m e b c))
    | inr (y, ys, e) ↦
        (let whole : lists s.priority ≡ p ∷ y ∷ ys = rw shape (ap (λ l. p ∷ l) e) in
          let to : s.next p ≡ some y = (subst (Chain s.next) whole (r.chains s.priority)).0 in
          let other : (y == p) ≡ false =
            ground (arith, subst (λ l. occurrences p l ≤ 1) whole (r.once s.priority p)) in
          rw (dequeue, to, other) (behind-Represents y ys e))
  ]
