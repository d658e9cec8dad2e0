-- ===== src/Sat/Backtrack/Learnt.antt =====
-- sat.c, `sat_backtrack`: the learnt clause, the answer LITERAL_NIL, and the clauses given.
use smchr.Prelude.{
  ℕ, zero, suc, ◌<◌, ◌≡◌, ◌≢◌, ◌∙◌, refl, ap, sym, true, false, ◌||◌, Option, none, some, List, [],
  ◌∷◌, ◌++◌, arith, ◌==◌, Bool-cases, Option-cases, ◌⊎◌, inl, inr, leb,
}
use smchr.Sat.Literal.{Literal, literal_negate}
use smchr.Sat.State.{Sat, literal_getvar, literal_getdlevel, literal_setmark, literal_unset}
use smchr.Sat.Model.{Model, value, satisfied, clause_holds, value-negate}
use smchr.Sat.Order.Frame.{SameFacts, SameFacts-refl, SameFacts-trans, bump-clause_frame}
use smchr.Sat.Order.{sat_bump_clause}
use smchr.Sat.Clause.{sat_init_clause}
use smchr.Sat.Clause.Meaning.{Accepts, Fresh, init-clause_meaning}
use smchr.Sat.Backtrack.{
  Analysis, Search, found, exhausted, check_failed, mark_conflict, tail_lits, all_marked,
  is_redundant, to_front, simplify, unwind, clear_marks, store_learnt, nogood, learn, analyse,
  sat_backtrack, Backtracked, learnt, failed, panicked,
}
use smchr.Sat.Backtrack.Facts.{
  FalseBefore, AllBefore, Forced, Justified, marked, MemVar, setmark-frame, unset-frame,
  low_of_pending, pending-none,
}
use smchr.Sat.Backtrack.Marks.{Marking, AllSeen, mark-conflict_Noted}
use smchr.Sat.Backtrack.Uip.{
  Solution, Falsified, Falsified-of_clause, Stopped, SearchOk, find-uip_SearchOk,
}

satisfied-append :
    (m : Model) (xs ys : List Literal) → satisfied m (xs ++ ys) ≡ (satisfied m xs || satisfied m ys)
satisfied-append m [] ys = refl
satisfied-append m (x ∷ xs) ys = ground (arith, satisfied-append m xs ys)

satisfied-to_front :
    (m : Model) (xs : List Literal) (l : Literal)
    → satisfied m (to_front xs l) ≡ (value m l || satisfied m xs)
satisfied-to_front m [] l = refl
satisfied-to_front m (x ∷ xs) l = ground (arith, satisfied-append m xs (x ∷ []))

-- What is in the clause stays in it.
simplify_keeps :
    (m : Model) (t : Sat) (ls acc : List Literal) (b : ℕ)
    → satisfied m acc ≡ true
    → satisfied m (simplify t ls acc b).0 ≡ true
unfolding simplify
simplify_keeps m t [] acc b e = e
simplify_keeps m t (l ∷ ls) acc b e = elim (Bool-cases (is_redundant t l)) [
  | inl r ↦ rw r (simplify_keeps m t ls acc b e)
  | inr r ↦ rw r (
      simplify_keeps m t ls _ _
        (ground (arith, satisfied-append m acc (l ∷ []), satisfied-to_front m acc l)))
]

all-marked_AllSeen : (s t : Sat) (ls : List Literal) → all_marked t ls ≡ true → AllSeen s t ls
unfolding all_marked
all-marked_AllSeen s t [] e = tt
all-marked_AllSeen s t (l ∷ ls) e = (inl (ground arith), all-marked_AllSeen s t ls (ground arith))

module _ (m : Model) (s : Sat) (solution : Solution m s) (just : Justified s) where
  -- A conflict whose variable is that of a falsified trail literal is true.
  true_of_falsified :
      (j : ℕ) (l : Literal)
      → j < s.tlevel
      → value m (s.trail j) ≡ false
      → l.index ≡ (s.trail j).index
      → FalseBefore s s.tlevel l
      → value m l ≡ true
  true_of_falsified j l lt wrong e (i, p, q) =
      let at_i : (s.trail i).index ≡ (s.trail j).index = ap (λ (x : Literal). x.index) q ∙ e in
      let n : (s.trail i).neg ≡ (s.trail j).neg =
        sym (just.signs i p) ∙ ap (λ x. (s.vars x).sign) at_i ∙ just.signs j lt in
      let same_lit : s.trail i ≡ s.trail j = ground arith in
      let refuted : value m (literal_negate l) ≡ false = ap (value m) (sym q ∙ same_lit) ∙ wrong in
      ground (arith, value-negate m l, refuted)

  -- Simplification keeps such a literal, or finds it redundant.
  simplify_picks :
      (t : Sat) (j : ℕ) (ls acc : List Literal) (b : ℕ)
      → j < s.tlevel
      → value m (s.trail j) ≡ false
      → MemVar (s.trail j).index ls
      → AllBefore s s.tlevel ls
      → (satisfied m (simplify t ls acc b).0 ≡ true)
        ⊎ ((l : Literal) × (l.index ≡ (s.trail j).index) × (is_redundant t l ≡ true))
  unfolding simplify
  simplify_picks t j [] acc b lt wrong member f = absurd member
  simplify_picks t j (l ∷ ls) acc b lt wrong (inr member) f = elim (Bool-cases (is_redundant t l)) [
    | inl r ↦ rw r (simplify_picks t j ls acc b lt wrong member f.1)
    | inr r ↦ rw r (simplify_picks t j ls _ _ lt wrong member f.1)
  ]
  simplify_picks t j (l ∷ ls) acc b lt wrong (inl e) f = elim (Bool-cases (is_redundant t l)) [
    | inl r ↦ inr (l, e, r)
    | inr r ↦
        let is_true = true_of_falsified j l lt wrong e f.0 in
        inl (
          rw r (
            simplify_keeps m t ls _ _ (
              ground
                (arith, is_true, satisfied-append m acc (l ∷ []), satisfied-to_front m acc l))))
  ]

  module _ (a : Analysis) (lit : Literal) (k : ℕ) (stop : Stopped m s solution a lit k) where
    Falsified-below-Forced :
        (j : ℕ) (ls : List Literal)
        → j < s.tlevel
        → value m (s.trail j) ≡ false
        → Forced s j ls
        → clause_holds m ls ≡ true
        → all_marked a.state (tail_lits ls) ≡ true
        → Falsified m s a.state j
    Falsified-below-Forced j [] lt wrong forced e marks = absurd forced
    Falsified-below-Forced j (l ∷ ls) lt wrong forced e marks =
        let n : value m l ≡ false = rw forced.0 wrong in
        Falsified-of_clause m s solution a.state j ls (omega arith) (ground (arith, e)) forced.1
          (all-marked_AllSeen s a.state ls marks)

    Falsified-below :
        (j c : ℕ)
        → j < s.tlevel
        → value m (s.trail j) ≡ false
        → (a.state.vars (s.trail j).index).reason ≡ some c
        → all_marked a.state (tail_lits (a.state.heap c)) ≡ true
        → Falsified m s a.state j
    Falsified-below j c lt wrong reason marks =
        Falsified-below-Forced j (s.heap c) lt wrong
          (just.reasons j c lt (sym (stop.inv.facts.reason (s.trail j).index) ∙ reason))
          (solution.models c) (rw (ap (λ (f : ℕ → List Literal). f c) stop.inv.facts.heap) at marks)

    -- Induction on the place: a redundant literal's reason has another falsified one below it.
    kept_holds :
        (n j : ℕ)
        → j < n
        → j < s.tlevel
        → marked a.state (s.trail j).index ≡ true
        → value m (s.trail j) ≡ false
        → satisfied m (simplify a.state a.conflicts [] 0).0 ≡ true
    kept_holds zero j p lt on wrong = absurd (omega arith)
    kept_holds (suc n) j p lt on wrong =
        let low =
          low_of_pending s.vars_length s.dlevel a.state (s.trail j).index stop.none_pending
            (just.ranged j lt) on in
        let same_level = stop.inv.facts.dlevel (s.trail j).index in
        elim (stop.inv.split (s.trail j).index on) [
          | inl high ↦ absurd (ground (arith, low, high, same_level))
          | inr member ↦
              elim (simplify_picks a.state j a.conflicts [] 0 lt wrong member
                stop.inv.conflicts_false) [
                  | inl done ↦ done
                  | inr (l, e, r) ↦ elim (Option-cases (literal_getvar a.state l).reason) [
                    | inl no_reason ↦ cc (rw (no_reason, is_redundant) at r)
                    | inr (c, has_reason) ↦
                        let (i, below, on', wrong') =
                          Falsified-below j c lt wrong (rw e at has_reason)
                            (rw (has_reason, is_redundant) at r) in
                        kept_holds n i (omega arith) (omega arith) on' wrong'
                  ]
                ]
        ]

    nogood_holds : satisfied m (nogood a lit) ≡ true
    unfolding nogood
    nogood_holds = elim stop.wrong [
      | inl no_value ↦ ground (arith, value-negate m lit)
      | inr (j, p, on, wrong) ↦
          ground (arith, kept_holds k j p (omega (arith, stop.below)) on wrong)
    ]

-- The loops behind the search leave clauses and units alone.
unwind-frame : (k : ℕ) (t : Sat) (b : ℕ) → SameFacts t (unwind k t b).0
unfolding unwind
unwind-frame zero t b = SameFacts-refl t
unwind-frame (suc k) t b = elim (Bool-cases (leb (literal_getdlevel t (t.trail k)) b)) [
  | inl e ↦ rw e (SameFacts-refl t)
  | inr e ↦ rw e (
      SameFacts-trans (unset-frame t (t.trail k)).0
        (unwind-frame k (literal_unset t (t.trail k)) b))
]

clear-marks_frame : (t : Sat) (ls : List Literal) → SameFacts t (clear_marks t ls)
unfolding clear_marks
clear-marks_frame t [] = SameFacts-refl t
clear-marks_frame t (l ∷ ls) =
    SameFacts-trans (setmark-frame t l false) (clear-marks_frame (literal_setmark t l false) ls)

Accepts-same : (m : Model) (s t : Sat) → SameFacts s t → Accepts m s → Accepts m t
Accepts-same m s t f h = record {
  not_empty = f.empty ∙ h.not_empty;
  units = λ v. ground (arith, f.unit v, f.unit_sign v, h.units v);
  models = λ c. rw f.heap (h.models c);
}

Fresh-same : (s t : Sat) → SameFacts s t → Fresh s → Fresh t
Fresh-same s t f h c p = rw f.heap (h c (rw f.heap_length at p))

Accepts-store :
    (m : Model) (c : Option ℕ) (s : Sat) (b : ℕ)
    → Accepts m s
    → Accepts m (record (store_learnt c s) { dlevel = b })
Accepts-store m none s b h = record { not_empty = h.not_empty; units = h.units; models = h.models }
Accepts-store m (some c) s b h = record {
  not_empty = h.not_empty;
  units = h.units;
  models = h.models;
}

-- The answer is LITERAL_NIL, or not, by the empty clause.
learn-Accepts :
    (m : Model) (a : Analysis) (lit : Literal) (k : ℕ)
    → Accepts m a.state
    → Fresh a.state
    → satisfied m (nogood a lit) ≡ true
    → Accepts m (learn a lit k).2 × ((learn a lit k).0 ≡ some (literal_negate lit))
unfolding learn
learn-Accepts m a lit k h fresh e =
    let blevel = (simplify a.state a.conflicts [] 0).1 in
    let u = unwind k a.state blevel in
    let s1 = record (u.0) { tlevel = u.1 } in
    let s2 = clear_marks s1 a.conflicts in
    let at_unwind = unwind-frame k a.state blevel in
    let at_clear = clear-marks_frame s1 a.conflicts in
    let h1 = Accepts-same m a.state u.0 at_unwind h in
    let h2 : Accepts m s2 =
      Accepts-same m s1 s2 at_clear
        (record { not_empty = h1.not_empty; units = h1.units; models = h1.models }) in
    let fresh2 : Fresh s2 =
      Fresh-same s1 s2 at_clear (λ c p. Fresh-same a.state u.0 at_unwind fresh c p) in
    let added = sat_init_clause s2 (nogood a lit) in
    let h3 = (init-clause_meaning m s2 fresh2 (nogood a lit)).1 (h2, e) in
    let h4 = Accepts-store m added.0 added.1 blevel h3 in (h4, rw h4.not_empty)

-- What `sat_backtrack` guarantees of a solution `m` of what the solver was given: it is a solution
-- with the learnt clause too, and the answer is not LITERAL_NIL.
abbrev pub Keeps : Model → Backtracked → Type 0
Keeps m (learnt l c t) = Accepts m t × (l ≢ none)
Keeps m (failed t) = ⊥
Keeps m panicked = Unit

module _ (m : Model) (s : Sat) (c : ℕ) (just : Justified s) (accepts : Accepts m s)
    (fresh : Fresh s)
    (level_zero : (k : ℕ)
      → k < s.tlevel
      → (s.vars (s.trail k).index).dlevel ≡ 0
      → value m (s.trail k) ≡ true)
    (conflict : AllBefore s s.tlevel (s.heap c)) (is_clause : s.heap c ≢ [])
    (unmarked : (v : ℕ) → marked s v ≡ false) where
  solution : Solution m s
  solution = record { models = accepts.models; level_zero = level_zero }

  start_state : Sat
  start_state = sat_bump_clause s (s.heap c)

  start : Analysis
  start = record { state = start_state; conflicts = []; count = 0 }

  start-Marking : Marking s s.tlevel start
  unfolding start start_state
  start-Marking =
      let frame = bump-clause_frame s (s.heap c) in
      let off : (v : ℕ) → marked (sat_bump_clause s (s.heap c)) v ≡ false =
        λ v. frame.1 v ∙ unmarked v in
      record {
        facts = frame.0;
        placed = λ v on. cc (sym (off v) ∙ on);
        split = λ v on. cc (sym (off v) ∙ on);
        counted =
            rw
              (pending-none s.vars_length s.dlevel (sat_bump_clause s (s.heap c))
                (λ v on. cc (sym (off v) ∙ on)))
              (omega arith);
        conflicts_false = tt;
      }

  conflict_holds : satisfied m (s.heap c) ≡ true
  conflict_holds = go (s.heap c) is_clause (accepts.models c)
    where
      go : (ls : List Literal) → ls ≢ [] → clause_holds m ls ≡ true → satisfied m ls ≡ true
      go [] n e = absurd (n refl)
      go (l ∷ ls) n e = e

  analyse-SearchOk : SearchOk m s solution (analyse s c)
  unfolding analyse start start_state
  analyse-SearchOk =
      let noted =
        mark-conflict_Noted s s.tlevel (omega arith) start (s.heap c) start-Marking conflict in
      find-uip_SearchOk m s solution just s.tlevel (mark_conflict start (s.heap c)) (omega arith)
        noted.inv
        (Falsified-of_clause m s solution (mark_conflict start (s.heap c)).state s.tlevel (s.heap c)
          (omega arith) conflict_holds conflict noted.seen)

  -- At level 0 every literal of the conflict would be false in the solution.
  not_level_zero : s.dlevel ≡ 0 → ⊥
  not_level_zero zero_level =
      let (j, lt, on, wrong) =
        Falsified-of_clause m s solution s s.tlevel (s.heap c) (omega arith) conflict_holds conflict
          (all_zero (s.heap c) conflict) in
      cc (sym (unmarked (s.trail j).index) ∙ on)
    where
      all_zero : (ls : List Literal) → AllBefore s s.tlevel ls → AllSeen s s ls
      all_zero [] f = tt
      all_zero (l ∷ ls) ((j, p, q), f) =
          let i : (s.trail j).index ≡ l.index = ap (λ (x : Literal). x.index) q in
          (inr (let b = rw i at (just.bounded j p) in omega arith), all_zero ls f)

  -- Let the trail be justified, no variable be marked, and every literal of the conflict clause be
  -- false. Then a truth assignment that satisfies everything that the solver was given, with the
  -- literals of level 0, satisfies everything it holds after `sat_backtrack`, so the learnt clause
  -- too; and the answer is then a literal, not LITERAL_NIL. (Unless the search panics, at a marked
  -- literal with no reason.)
  pub backtrack_sound : Keeps m (sat_backtrack s c)
  unfolding sat_backtrack
  backtrack_sound = elim (Bool-cases (s.dlevel == 0)) [
    | inl zero_level ↦ absurd (not_level_zero (ground arith))
    | inr above ↦ rw above (go (analyse s c) analyse-SearchOk)
  ]
    where
      go :
          (r : Search)
          → SearchOk m s solution r
          → Keeps m (elim r [
            | found a lit k ↦ (let (l, d, t) = learn a lit k in learnt l d t)
            | exhausted a ↦ failed a.state
            | check_failed ↦ panicked
          ])
      go (exhausted a) e = e
      go check_failed e = tt
      go (found a lit k) stop =
          let f = stop.inv.facts in
          let (h, e) =
            learn-Accepts m a lit k (Accepts-same m s a.state f accepts)
              (Fresh-same s a.state f fresh) (nogood_holds m s solution just a lit k stop) in
          (h, λ n. cc (sym e ∙ n))
