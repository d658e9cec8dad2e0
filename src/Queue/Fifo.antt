-- ===== src/Queue/Fifo.antt =====
-- prop.c: the threaded lists as first-in-first-out queues, one list for each priority.
use smchr.Prelude.{
  ℕ, ◌≤◌, ◌<◌, ◌≡◌, refl, ap, subst, true, false, Option, none, some, List, [], ◌∷◌, ◌++◌, update,
  last_or, occurrences, occurrences-append, arith, ◌≢◌, leb, List-cases, if◌then◌else◌, ◌==◌,
  Bool-cases, inl, inr,
}
use smchr.Queue.{Queue, max_priority, is_null, enqueue, solver_schedule_prop}
use smchr.Queue.Chains.{Chain, Chain-frame, Chain-append, occurrences-last_or}

abbrev pub first : List ℕ → Option ℕ
first [] = none
first (x ∷ xs) = some x

abbrev pub last : List ℕ → Option ℕ
last [] = none
last (x ∷ xs) = some (last_or x xs)

-- The queues hold the lists `lists`: no propagator stands twice or in two lists, only scheduled ones
-- stand in one, and `priority` is the least with a list that is not empty.
pub record Represents (s : Queue) (lists : ℕ → List ℕ) : Type 0 where
  pub heads : (k : ℕ) → s.head k ≡ first (lists k)
  pub tails : (k : ℕ) → s.tail k ≡ last (lists k)
  pub chains : (k : ℕ) → Chain s.next (lists k)
  pub once : (k p : ℕ) → occurrences p (lists k) ≤ 1
  pub one_list : (j k p : ℕ) → 0 < occurrences p (lists j) → 0 < occurrences p (lists k) → j ≡ k
  pub unscheduled : (k p : ℕ) → s.next p ≡ none → occurrences p (lists k) ≡ 0
  pub least : (k : ℕ) → k < s.priority → lists k ≡ []
  pub ready : s.priority < max_priority → is_null (first (lists s.priority)) ≡ false

abbrev pub append_at : (ℕ → List ℕ) → ℕ → ℕ → ℕ → List ℕ
append_at lists k p j = if j == k then lists j ++ p ∷ [] else lists j

last_or-snoc : (d p : ℕ) (xs : List ℕ) → last_or d (xs ++ p ∷ []) ≡ p
last_or-snoc d p [] = refl
last_or-snoc d p (x ∷ xs) = last_or-snoc x p xs

last-snoc : (p : ℕ) (xs : List ℕ) → last (xs ++ p ∷ []) ≡ some p
last-snoc p [] = refl
last-snoc p (x ∷ xs) = ap some (last_or-snoc x p xs)

snoc-nonempty : (p : ℕ) (xs : List ℕ) → is_null (first (xs ++ p ∷ [])) ≡ false
snoc-nonempty p [] = refl
snoc-nonempty p (x ∷ xs) = refl

-- What holds of the list that grew and of the others holds of all.
at_each :
    (P : ℕ → List ℕ → Type 0) (lists : ℕ → List ℕ) (k p : ℕ)
    → P k (lists k ++ p ∷ [])
    → ((j : ℕ) → j ≢ k → P j (lists j))
    → (j : ℕ) → P j (append_at lists k p j)
at_each P lists k p h g j = elim (Bool-cases (j == k)) [
  | inl e ↦ (let q : k ≡ j = ground arith in subst (λ i. P i (append_at lists k p i)) q grown)
  | inr e ↦ rw e (g j (ground arith))
]
  where
    grown : P k (append_at lists k p k)
    grown = let e : (k == k) ≡ true = ground arith in rw e h

module _ (s : Queue) (lists : ℕ → List ℕ) (k p : ℕ) (r : Represents s lists)
    (free : s.next p ≡ none) (k_bound : k < max_priority) where
  fresh : (j : ℕ) → occurrences p (lists j) ≡ 0
  fresh j = r.unscheduled j p free

  append-once : (j q : ℕ) → occurrences q (append_at lists k p j) ≤ 1
  append-once j q = ground (arith, occurrences-append (lists j) (p ∷ []) q, r.once j q, fresh j)

  append-one_list :
      (i j q : ℕ)
      → 0 < occurrences q (append_at lists k p i)
      → 0 < occurrences q (append_at lists k p j)
      → i ≡ j
  append-one_list i j q h g = ground (
    arith,
    occurrences-append (lists i) (p ∷ []) q,
    occurrences-append (lists j) (p ∷ []) q,
    r.one_list i j q,
    fresh i,
    fresh j,
  )

  append-least :
      (j : ℕ) → j < (if leb s.priority k then s.priority else k) → append_at lists k p j ≡ []
  append-least j h = ground (arith, r.least j)

  append-ready :
      is_null (first (append_at lists k p (if leb s.priority k then s.priority else k))) ≡ false
  append-ready =
      let m = if leb s.priority k then s.priority else k in
      at_each (λ j l. j ≡ m → is_null (first l) ≡ false) lists k p (λ _. snoc-nonempty p (lists k))
        (λ j h e. ground (arith, r.ready, k_bound)) m refl

  Chain-other :
      (x j : ℕ) (xs : List ℕ)
      → lists k ≡ x ∷ xs
      → j ≢ k
      → Chain (update (update s.next p (some p)) (last_or x xs) (some p)) (lists j)
  Chain-other x j xs e h =
      let t = last_or x xs in
      let there : 0 < occurrences t (lists k) = rw e (occurrences-last_or x xs) in
      Chain-frame (update s.next p (some p)) t (some p) (lists j)
        (ground (arith, r.one_list j k t, there))
        (Chain-frame s.next p (some p) (lists j) (fresh j) (r.chains j))

  opened-Represents :
      lists k ≡ []
      → Represents
          (record s {
            next = update s.next p (some p);
            head = update s.head k (some p);
            tail = update s.tail k (some p);
            priority = if leb s.priority k then s.priority else k;
          })
          (append_at lists k p)
  opened-Represents e = record {
    heads = λ j. ground (arith, r.heads j);
    tails = λ j. ground (arith, r.tails j);
    chains =
        at_each (λ j l. Chain (update s.next p (some p)) l) lists k p (rw e (ground arith))
          (λ j h. Chain-frame s.next p (some p) (lists j) (fresh j) (r.chains j));
    once = append-once;
    one_list = append-one_list;
    unscheduled =
        λ j q h. ground (arith, r.unscheduled j q, occurrences-append (lists j) (p ∷ []) q);
    least = append-least;
    ready = λ h. append-ready;
  }

  appended-Represents :
      (x : ℕ) (xs : List ℕ)
      → lists k ≡ x ∷ xs
      → Represents
          (record s {
            next = update (update s.next p (some p)) (last_or x xs) (some p);
            tail = update s.tail k (some p);
            priority = if leb s.priority k then s.priority else k;
          })
          (append_at lists k p)
  appended-Represents x xs e = record {
    heads =
        at_each (λ j l. s.head j ≡ first l) lists k p (rw (r.heads k, e) refl) (λ j h. r.heads j);
    tails =
        at_each (λ j l. update s.tail k (some p) j ≡ last l) lists k p
          (ground (arith, last-snoc p (lists k))) (λ j h. ground (arith, r.tails j));
    chains =
        at_each (λ j l. Chain (update (update s.next p (some p)) (last_or x xs) (some p)) l) lists k
          p
          (rw e (
            Chain-append s.next p x xs (subst (λ l. occurrences p l ≡ 0) e (fresh k))
              (λ q. subst (λ l. occurrences q l ≤ 1) e (r.once k q))
              (subst (Chain s.next) e (r.chains k))))
          (λ j h. Chain-other x j xs e h);
    once = append-once;
    one_list = append-one_list;
    unscheduled =
        λ j q h. ground (arith, r.unscheduled j q, occurrences-append (lists j) (p ∷ []) q);
    least = append-least;
    ready = λ h. append-ready;
  }

  enqueue-Represents : Represents (enqueue s k p) (append_at lists k p)
  unfolding enqueue
  enqueue-Represents = elim (List-cases (lists k)) [
    | inl e ↦ rw (enqueue, r.heads k, e) (opened-Represents e)
    | inr (x, xs, e) ↦ rw (enqueue, r.heads k, e, r.tails k, e) (appended-Represents x xs e)
  ]

-- `solver_schedule_prop` puts a propagator that is not scheduled, and whose constraint is not purged, at
-- the end of the list of its priority and leaves the other lists; `priority` is then again the least
-- with a list that is not empty.
pub schedule-Represents :
    (priority_of : ℕ → ℕ) (s : Queue) (lists : ℕ → List ℕ) (p : ℕ)
    → Represents s lists
    → s.next p ≡ none
    → s.purged p ≡ false
    → priority_of p < max_priority
    → Represents (solver_schedule_prop priority_of s p) (append_at lists (priority_of p) p)
unfolding solver_schedule_prop
schedule-Represents priority_of s lists p r free live h =
    rw (solver_schedule_prop, free, live) (enqueue-Represents s lists (priority_of p) p r free h)
