-- ===== src/Sat/Backtrack/Marks.antt =====
-- The invariant of the search for the implication point, and the loops that set marks.
use smchr.Prelude.{
  ℕ, ◌+◌, ◌<◌, ◌≤◌, ◌≡◌, ◌∙◌, ap, true, false, not, List, [], ◌∷◌, ◌++◌, arith, ◌==◌, bit,
  Bool-cases, ◌⊎◌, inl, inr, ltb,
}
use smchr.Sat.Literal.{Literal}
use smchr.Sat.State.{Sat, literal_getmark, literal_setmark}
use smchr.Sat.Order.Frame.{SameFacts, SameFacts-trans}
use smchr.Sat.Backtrack.{Analysis, note_literal, mark_conflict, mark_reason}
use smchr.Sat.Backtrack.Facts.{
  FalseBefore, AllBefore, AllBefore-append, marked, pending, MemVar, MemVar-append_left,
  MemVar-append_right, setmark-frame, marked-setmark, pending-mark,
}

-- With `k` entries of the trail of `s` left: every marked variable stands on the trail below `k`
-- and is of the decision level or in `conflicts`; `count` is not below the number of the former; the
-- conflicts are false.
pub record Marking (s : Sat) (k : ℕ) (a : Analysis) : Type 0 where
  pub facts : SameFacts s a.state
  pub placed : (v : ℕ) → marked a.state v ≡ true → (j : ℕ) × (j < k) × ((s.trail j).index ≡ v)
  pub split :
      (v : ℕ)
      → marked a.state v ≡ true
      → (ltb (s.vars v).dlevel s.dlevel ≡ false) ⊎ MemVar v a.conflicts
  pub counted : pending s.vars_length s.dlevel a.state ≤ a.count
  pub conflicts_false : AllBefore s s.tlevel a.conflicts

FalseBefore-le : (s : Sat) (j k : ℕ) (l : Literal) → j ≤ k → FalseBefore s j l → FalseBefore s k l
FalseBefore-le s j k l h f = (f.0, omega (arith, f.1), f.2)

module _ (s : Sat) (k : ℕ) (le : k ≤ s.tlevel) (a : Analysis) (h : Marking s k a) (l : Literal)
    (f : FalseBefore s k l) where
  abbrev marked_state : Sat
  marked_state = literal_setmark a.state l true

  mark_placed : (v : ℕ) → marked marked_state v ≡ true → (j : ℕ) × (j < k) × ((s.trail j).index ≡ v)
  mark_placed v m = elim (Bool-cases (l.index == v)) [
    | inl e ↦ (f.0, f.1, ap (λ (x : Literal). x.index) f.2 ∙ ground arith)
    | inr e ↦ h.placed v (ground (arith, marked-setmark a.state l true v))
  ]

  mark_pending :
      pending s.vars_length s.dlevel marked_state
      ≤ pending s.vars_length s.dlevel a.state + bit (not (ltb (s.vars l.index).dlevel s.dlevel))
  mark_pending = ground (
    arith,
    pending-mark s.vars_length s.dlevel a.state marked_state l.index (marked-setmark a.state l true)
        (setmark-frame a.state l true).dlevel,
    h.facts.dlevel l.index,
  )

  mark_low :
      ltb (s.vars l.index).dlevel s.dlevel ≡ true
      → Marking s k
          (record { state = marked_state; conflicts = a.conflicts ++ l ∷ []; count = a.count })
  mark_low low = record {
    facts = SameFacts-trans h.facts (setmark-frame a.state l true);
    placed = mark_placed;
    split = λ v m. elim (Bool-cases (l.index == v)) [
      | inl e ↦ inr (MemVar-append_right v a.conflicts (l ∷ []) (inl (ground arith)))
      | inr e ↦ elim (h.split v (ground (arith, marked-setmark a.state l true v))) [
        | inl high ↦ inl high
        | inr member ↦ inr (MemVar-append_left v a.conflicts (l ∷ []) member)
      ]
    ];
    counted = ground (arith, mark_pending, h.counted);
    conflicts_false =
        AllBefore-append s s.tlevel a.conflicts (l ∷ []) h.conflicts_false
          (FalseBefore-le s k s.tlevel l le f, tt);
  }

  mark_high :
      ltb (s.vars l.index).dlevel s.dlevel ≡ false
      → Marking s k (record { state = marked_state; conflicts = a.conflicts; count = a.count + 1 })
  mark_high high = record {
    facts = SameFacts-trans h.facts (setmark-frame a.state l true);
    placed = mark_placed;
    split = λ v m. elim (Bool-cases (l.index == v)) [
      | inl e ↦ let i : l.index ≡ v = ground arith in inl (rw (← i) high)
      | inr e ↦ h.split v (ground (arith, marked-setmark a.state l true v))
    ];
    counted = ground (arith, mark_pending, h.counted);
    conflicts_false = h.conflicts_false;
  }

-- The literal is marked, or of level 0.
abbrev pub Seen : Sat → Sat → Literal → Type 0
Seen s t l = (marked t l.index ≡ true) ⊎ ((s.vars l.index).dlevel ≡ 0)

abbrev pub AllSeen : Sat → Sat → List Literal → Type 0
AllSeen s t [] = Unit
AllSeen s t (l ∷ ls) = Seen s t l × AllSeen s t ls

abbrev pub Grows : Sat → Sat → Type 0
Grows t u = (v : ℕ) → marked t v ≡ true → marked u v ≡ true

-- What marking the literals of a clause achieves.
pub record Noted (s : Sat) (k : ℕ) (ls : List Literal) (a b : Analysis) : Type 0 where
  pub inv : Marking s k b
  pub grows : Grows a.state b.state
  pub seen : AllSeen s b.state ls

Grows-setmark : (t : Sat) (l : Literal) → Grows t (literal_setmark t l true)
Grows-setmark t l v m = ground (arith, marked-setmark t l true v)

module _ (s : Sat) (k : ℕ) (le : k ≤ s.tlevel) where
  note-literal_Noted :
      (a : Analysis) (l : Literal)
      → Marking s k a
      → FalseBefore s k l
      → Noted s k (l ∷ []) a (note_literal a l)
  unfolding note_literal
  note-literal_Noted a l h f =
      let level = h.facts.dlevel l.index in
      let now_marked : marked (literal_setmark a.state l true) l.index ≡ true =
        ground (arith, marked-setmark a.state l true l.index) in
      elim (Bool-cases ((a.state.vars l.index).dlevel == 0)) [
        | inl zero_level ↦
            rw zero_level (record { inv = h; grows = λ v m. m; seen = (inr (ground arith), tt) })
        | inr other ↦ elim (Bool-cases (ltb (a.state.vars l.index).dlevel a.state.dlevel)) [
          | inl low ↦
              rw (other, low)
                (record {
                  inv = mark_low s k le a h l f (ground (arith, h.facts.level));
                  grows = Grows-setmark a.state l;
                  seen = (inl now_marked, tt);
                })
          | inr high ↦
              rw (other, high)
                (record {
                  inv = mark_high s k le a h l f (ground (arith, h.facts.level));
                  grows = Grows-setmark a.state l;
                  seen = (inl now_marked, tt);
                })
        ]
      ]

  Noted-cons :
      (a b c : Analysis) (l : Literal) (ls : List Literal)
      → Noted s k (l ∷ []) a b
      → Noted s k ls b c
      → Noted s k (l ∷ ls) a c
  Noted-cons a b c l ls p q = record {
    inv = q.inv;
    grows = λ v m. q.grows v (p.grows v m);
    seen = (elim p.seen.0 [ inl m ↦ inl (q.grows l.index m) | inr z ↦ inr z ], q.seen);
  }

  pub mark-conflict_Noted :
      (a : Analysis) (ls : List Literal)
      → Marking s k a
      → AllBefore s k ls
      → Noted s k ls a (mark_conflict a ls)
  unfolding mark_conflict
  mark-conflict_Noted a [] h f = record { inv = h; grows = λ v m. m; seen = tt }
  mark-conflict_Noted a (l ∷ ls) h f =
      let first = note-literal_Noted a l h f.0 in
      Noted-cons a (note_literal a l) _ l ls first
        (mark-conflict_Noted (note_literal a l) ls first.inv f.1)

  pub mark-reason_Noted :
      (a : Analysis) (ls : List Literal)
      → Marking s k a
      → AllBefore s k ls
      → Noted s k ls a (mark_reason a ls)
  unfolding mark_reason
  mark-reason_Noted a [] h f = record { inv = h; grows = λ v m. m; seen = tt }
  mark-reason_Noted a (l ∷ ls) h f = elim (Bool-cases (literal_getmark a.state l)) [
    | inl m ↦ rw m (
        Noted-cons a a _ l ls (record { inv = h; grows = λ v n. n; seen = (inl m, tt) })
          (mark-reason_Noted a ls h f.1))
    | inr m ↦
        let first = note-literal_Noted a l h f.0 in
        rw m (
          Noted-cons a (note_literal a l) _ l ls first
            (mark-reason_Noted (note_literal a l) ls first.inv f.1))
  ]
