-- ===== src/Sat/Backtrack/Uip.antt =====
-- sat.c, `sat_backtrack`: the search for the implication point as resolution on the marked literals.
use smchr.Prelude.{
  ℕ, zero, suc, ◌-◌, ◌^◌, ◌<◌, ◌≤◌, ◌≡◌, ◌∙◌, refl, ap, sym, true, false, some, List, [], ◌∷◌,
  arith, ◌==◌, if◌then◌else◌, Bool-cases, Option-cases, ◌⊎◌, inl, inr, ltb, leb,
}
use smchr.Sat.Literal.{Literal}
use smchr.Sat.State.{Sat, literal_getvar, literal_getmark, literal_setmark, literal_unset}
use smchr.Sat.Model.{Model, value, satisfied, clause_holds, ModelOf, value-negate}
use smchr.Sat.Order.{sat_bump_clause}
use smchr.Sat.Order.Frame.{SameFacts, SameFacts-trans, bump-clause_frame}
use smchr.Sat.Backtrack.{
  Analysis, Search, found, exhausted, check_failed, mark_reason, tail_lits, find_uip,
}
use smchr.Sat.Backtrack.Facts.{
  AllBefore, Forced, Justified, marked, pending, setmark-frame, marked-setmark, unset-frame,
  pending-same, pending-unmark, pending-none,
}
use smchr.Sat.Backtrack.Marks.{Marking, AllSeen, mark-reason_Noted}

-- `m` satisfies the clauses, and the literals assigned at level 0.
pub record Solution (m : Model) (s : Sat) : Type 0 where
  pub models : ModelOf m s
  pub level_zero :
      (k : ℕ) → k < s.tlevel → (s.vars (s.trail k).index).dlevel ≡ 0 → value m (s.trail k) ≡ true

-- A marked variable below place `k` of the trail whose trail literal `m` falsifies.
abbrev pub Falsified : Model → Sat → Sat → ℕ → Type 0
Falsified m s t k =
    (j : ℕ) × (j < k) × (marked t (s.trail j).index ≡ true) × (value m (s.trail j) ≡ false)

-- A marked place is not the place of an unmarked variable.
below_of_marked :
    (s t : Sat) (j k : ℕ)
    → j < suc k
    → marked t (s.trail j).index ≡ true
    → marked t (s.trail k).index ≡ false
    → j < k
below_of_marked s t j k p on off = elim (Bool-cases (j == k)) [
  | inl e ↦
      let same_place : j ≡ k = ground arith in
      absurd (cc (sym (ap (λ i. marked t (s.trail i).index) same_place ∙ off) ∙ on))
  | inr e ↦ ground arith
]

module _ (m : Model) (s : Sat) (solution : Solution m s) where
  -- A clause of false literals that holds in `m` has a falsified one.
  pub Falsified-of_clause :
      (t : Sat) (k : ℕ) (ls : List Literal)
      → k ≤ s.tlevel
      → satisfied m ls ≡ true
      → AllBefore s k ls
      → AllSeen s t ls
      → Falsified m s t k
  Falsified-of_clause t k [] le e f h = cc
  Falsified-of_clause t k (l ∷ ls) le e f h = elim (Bool-cases (value m l)) [
    | inr no_value ↦ Falsified-of_clause t k ls le (ground arith) f.1 h.1
    | inl is_value ↦
        let (j, lt, at_trail) = f.0 in
        let wrong : value m (s.trail j) ≡ false = rw at_trail (ground (arith, value-negate m l)) in
        let i : (s.trail j).index ≡ l.index = ap (λ (x : Literal). x.index) at_trail in
        elim h.0 [
          | inl is_marked ↦ (j, lt, rw i is_marked, wrong)
          | inr zero_level ↦
              absurd (cc (sym (solution.level_zero j (omega arith) (rw i zero_level)) ∙ wrong))
        ]
  ]

  -- What is known where the search stops.
  pub record Stopped (a : Analysis) (lit : Literal) (k : ℕ) : Type 0 where
    pub place : lit ≡ s.trail k
    pub below : k < s.tlevel
    pub inv : Marking s k a
    pub none_pending : pending s.vars_length s.dlevel a.state ≡ 0
    pub wrong : (value m lit ≡ false) ⊎ Falsified m s a.state k

  abbrev pub SearchOk : Search → Type 0
  SearchOk (found a lit k) = Stopped a lit k
  SearchOk (exhausted a) = ⊥
  SearchOk check_failed = Unit

  module _ (just : Justified s) (k : ℕ) (lt : k < s.tlevel) where
    -- Passing over an unmarked literal.
    pass_over :
        (a : Analysis) (t : Sat)
        → Marking s (suc k) a
        → SameFacts a.state t
        → ((v : ℕ) → marked t v ≡ marked a.state v)
        → marked t (s.trail k).index ≡ false
        → Falsified m s a.state (suc k)
        → Marking s k (record a { state = t }) × Falsified m s t k
    pass_over a t h same_facts same_marks off (j, p, q, r) = (
      record {
        facts = SameFacts-trans h.facts same_facts;
        placed = λ v n.
            let (i, pi, qi) = h.placed v (sym (same_marks v) ∙ n) in
            (i, below_of_marked s t i k pi (rw qi n) off, qi);
        split = λ v n. h.split v (sym (same_marks v) ∙ n);
        counted =
            rw (pending-same s.vars_length s.dlevel a.state t same_marks same_facts.dlevel)
              h.counted;
        conflicts_false = h.conflicts_false;
      },
      (
        j,
        below_of_marked s t j k p (same_marks (s.trail j).index ∙ q) off,
        same_marks (s.trail j).index ∙ q,
        r,
      ),
    )

    -- Taking the mark off the literal at place `k`.
    take_mark :
        (a : Analysis) (t : Sat) (count : ℕ)
        → Marking s (suc k) a
        → SameFacts a.state t
        → ((v : ℕ) → marked t v ≡ (if (s.trail k).index == v then false else marked a.state v))
        → marked a.state (s.trail k).index ≡ true
        → count ≡ (if a.count == 0 then 2 ^ 32 - 1 else a.count - 1)
        → Marking s k (record { state = t; conflicts = a.conflicts; count = count })
    take_mark a t count h same_facts marks on c = record {
      facts = SameFacts-trans h.facts same_facts;
      placed = placed;
      split = λ v n. h.split v (was v n);
      counted = elim (Bool-cases (ltb (s.vars (s.trail k).index).dlevel s.dlevel)) [
        | inl low ↦ rw (pending-none s.vars_length s.dlevel t (all_low low)) (omega arith)
        | inr high ↦ ground (
          arith,
          c,
          h.counted,
          pending-unmark s.vars_length s.dlevel a.state t (s.trail k).index marks same_facts.dlevel
              (just.ranged k lt) on,
          h.facts.dlevel (s.trail k).index,
        )
      ];
      conflicts_false = h.conflicts_false;
    }
      where
        was : (v : ℕ) → marked t v ≡ true → marked a.state v ≡ true
        was v n = ground (arith, marks v)

        off : marked t (s.trail k).index ≡ false
        off = ground (arith, marks (s.trail k).index)

        placed : (v : ℕ) → marked t v ≡ true → (j : ℕ) × (j < k) × ((s.trail j).index ≡ v)
        placed v n =
            let (i, pi, qi) = h.placed v (was v n) in
            (i, below_of_marked s t i k pi (rw qi n) off, qi)

        all_low :
            ltb (s.vars (s.trail k).index).dlevel s.dlevel ≡ true
            → (v : ℕ) → marked t v ≡ true
            → ltb (t.vars v).dlevel s.dlevel ≡ true
        all_low low v n =
            let (i, pi, qi) = placed v n in
            let le = just.sorted i k (omega arith) lt in
            let le' : (s.vars v).dlevel ≤ (s.vars (s.trail k).index).dlevel = rw (← qi) le in
            ground (arith, le', low, same_facts.dlevel v, h.facts.dlevel v)

    -- The falsified literal is the one at place `k`, or stays marked below it.
    Falsified-at :
        (a : Analysis) (t : Sat)
        → ((v : ℕ) → marked t v ≡ (if (s.trail k).index == v then false else marked a.state v))
        → Falsified m s a.state (suc k)
        → (value m (s.trail k) ≡ false) ⊎ Falsified m s t k
    Falsified-at a t marks (j, p, q, r) =
        elim (Bool-cases ((s.trail k).index == (s.trail j).index)) [
          | inl e ↦
              let i : (s.trail k).index ≡ (s.trail j).index = ground arith in
              let n : (s.trail k).neg ≡ (s.trail j).neg =
                sym (just.signs k lt) ∙ ap (λ x. (s.vars x).sign) i ∙ just.signs j (omega arith) in
              let same_lit : s.trail k ≡ s.trail j = ground arith in inl (rw same_lit r)
          | inr e ↦
              let on : marked t (s.trail j).index ≡ true =
                ground (arith, marks (s.trail j).index) in
              let off : marked t (s.trail k).index ≡ false =
                ground (arith, marks (s.trail k).index) in
              inr (j, below_of_marked s t j k p on off, on, r)
        ]

    -- Resolving with the reason of the literal at place `k`.
    resolve_with :
        (b : Analysis) (ls : List Literal)
        → Marking s k b
        → Forced s k ls
        → clause_holds m ls ≡ true
        → (value m (s.trail k) ≡ false) ⊎ Falsified m s b.state k
        → Marking s k (mark_reason b (tail_lits ls))
          × Falsified m s (mark_reason b (tail_lits ls)).state k
    resolve_with b [] h forced e wrong = absurd forced
    resolve_with b (l ∷ ls) h forced e wrong =
        let noted = mark-reason_Noted s k (omega arith) b ls h forced.1 in
        (
          noted.inv,
          elim wrong [
            | inl no_value ↦
                Falsified-of_clause (mark_reason b ls).state k ls (omega arith)
                  (let n : value m l ≡ false = rw forced.0 no_value in ground (arith, e)) forced.1
                  noted.seen
            | inr (j, p, q, r) ↦ (j, p, noted.grows (s.trail j).index q, r)
          ],
        )

    resolve_reason :
        (b : Analysis) (c : ℕ)
        → Marking s k b
        → (b.state.vars (s.trail k).index).reason ≡ some c
        → (value m (s.trail k) ≡ false) ⊎ Falsified m s b.state k
        → let ls = b.state.heap c in
          let b' = record b { state = sat_bump_clause b.state ls } in
          Marking s k (mark_reason b' (tail_lits ls))
          × Falsified m s (mark_reason b' (tail_lits ls)).state k
    resolve_reason b c h reason wrong =
        let ls = b.state.heap c in
        let frame = bump-clause_frame b.state ls in
        let t = sat_bump_clause b.state ls in
        let at_heap : ls ≡ s.heap c = ap (λ (f : ℕ → List Literal). f c) h.facts.heap in
        let forced : Forced s k ls =
          rw at_heap (just.reasons k c lt (sym (h.facts.reason (s.trail k).index) ∙ reason)) in
        let inv : Marking s k (record b { state = t }) = record {
          facts = SameFacts-trans h.facts frame.0;
          placed = λ v n. h.placed v (sym (frame.1 v) ∙ n);
          split = λ v n. h.split v (sym (frame.1 v) ∙ n);
          counted =
              rw (pending-same s.vars_length s.dlevel b.state t frame.1 frame.0.dlevel) h.counted;
          conflicts_false = h.conflicts_false;
        } in
        resolve_with (record b { state = t }) ls inv forced (rw at_heap (solution.models c))
          (elim wrong [
            | inl w ↦ inl w
            | inr (j, p, q, r) ↦ inr (j, p, frame.1 (s.trail j).index ∙ q, r)
          ])

  -- A solution is never lost: the search does not use up the trail, and where it stops the solution
  -- falsifies the literal found or one whose variable is marked.
  pub find-uip_SearchOk :
      Justified s
      → (k : ℕ) (a : Analysis) → k ≤ s.tlevel
      → Marking s k a
      → Falsified m s a.state k
      → SearchOk (find_uip k a)
  unfolding find_uip
  find-uip_SearchOk just zero a le h f = absurd (omega (arith, f.1))
  find-uip_SearchOk just (suc k) a le h f =
      let lit = a.state.trail k in
      let here : lit ≡ s.trail k = ap (λ (t : ℕ → Literal). t k) h.facts.trail in
      let s0 = literal_unset a.state lit in
      let u = unset-frame a.state lit in
      let s1 = literal_setmark s0 lit false in
      let count = if a.count == 0 then 2 ^ 32 - 1 else a.count - 1 in
      elim (Bool-cases (literal_getmark s0 lit)) [
        | inr off ↦ rw off (
            let (inv, wrong) = pass_over just k le a s0 h u.0 u.1 (rw (← here) off) f in
            find-uip_SearchOk just k (record a { state = s0 }) (omega arith) inv wrong)
        | inl on ↦
            let marks : (v : ℕ)
                → marked s1 v ≡ (if (s.trail k).index == v then false else marked a.state v) =
              λ v. ground (arith, marked-setmark s0 lit false v, u.1 v, here) in
            let same_facts = SameFacts-trans u.0 (setmark-frame s0 lit false) in
            let b : Analysis = record { state = s1; conflicts = a.conflicts; count = count } in
            let was_on : marked a.state (s.trail k).index ≡ true =
              rw (← here) (sym (u.1 lit.index) ∙ on) in
            let inv = take_mark just k le a s1 count h same_facts marks was_on refl in
            let wrong = Falsified-at just k le a s1 marks f in
            rw on (elim (Bool-cases (leb count 0)) [
              | inl last ↦ rw last (record {
                place = here;
                below = le;
                inv = inv;
                none_pending = ground (arith, inv.counted);
                wrong = elim wrong [ inl w ↦ inl (ap (value m) here ∙ w) | inr g ↦ inr g ];
              })
              | inr more ↦ elim (Option-cases (literal_getvar s1 lit).reason) [
                | inl no_reason ↦ rw (more, no_reason) tt
                | inr (c, has_reason) ↦
                    let (inv', wrong') =
                      resolve_reason just k le b c inv (rw (← here) has_reason) wrong in
                    rw (more, has_reason) (find-uip_SearchOk just k _ (omega arith) inv' wrong')
              ]
            ])
      ]
