-- ===== src/Tree/Iterator/Geq.antt =====
-- tree.c: `tree_itrinit_geq`, which starts in the middle of a sorted tree.
use smchr.Prelude.{
  ℕ, suc, ◌≤◌, ◌<◌, ◌≡◌, refl, sym, ◌∙◌, inl, inr, List, [], ◌∷◌, ◌++◌, arith, leb, if◌then◌else◌,
  compare-cases,
}
use mathlib.Core.List.{append_assoc, append-nil}
use smchr.Tree.{Tree, nil, tree2, tree3, tree4}
use smchr.Tree.Entries.{entries, Sorted, Sorted-split, Sorted-bounds}
use smchr.Tree.Iterator.{Itr, push_geq, tree_itrinit_geq}
use smchr.Tree.Iterator.Order.{remaining, WellTagged}

module _ (rank : ℕ → ℕ) where
  -- The entries whose keys have at least the rank of `k`.
  abbrev pub at_least : ℕ → List (ℕ × ℕ) → List (ℕ × ℕ)
  at_least k [] = []
  at_least k ((a, v) ∷ es) = if leb (rank k) (rank a) then (a, v) ∷ at_least k es else at_least k es

  at_least-append :
      (k : ℕ) (xs ys : List (ℕ × ℕ)) → at_least k (xs ++ ys) ≡ at_least k xs ++ at_least k ys
  at_least-append k [] ys = refl
  at_least-append k ((a, v) ∷ xs) ys = ground (arith, at_least-append k xs ys)

  at_least-all :
      (k lo hi : ℕ) (es : List (ℕ × ℕ)) → Sorted rank lo hi es → rank k ≤ lo → at_least k es ≡ es
  at_least-all k lo hi [] s h = refl
  at_least-all k lo hi ((a, v) ∷ es) (g, s) h =
      ground (arith, at_least-all k (suc (rank a)) hi es s (omega arith))

  at_least-none :
      (k lo hi : ℕ) (es : List (ℕ × ℕ)) → Sorted rank lo hi es → hi ≤ rank k → at_least k es ≡ []
  at_least-none k lo hi [] s h = refl
  at_least-none k lo hi ((a, v) ∷ es) (g, s) h =
      ground
        (arith, Sorted-bounds rank (suc (rank a)) hi es s, at_least-none k (suc (rank a)) hi es s h)

  at_least-before :
      (k k0 v0 hi : ℕ) (xs ys : List (ℕ × ℕ))
      → Sorted rank (suc (rank k0)) hi ys
      → rank k < rank k0
      → at_least k (xs ++ (k0, v0) ∷ ys) ≡ at_least k xs ++ (k0, v0) ∷ ys
  at_least-before k k0 v0 hi xs ys s h = ground (
    arith,
    at_least-append k xs ((k0, v0) ∷ ys),
    at_least-all k (suc (rank k0)) hi ys s (omega arith),
  )

  at_least-at :
      (k lo hi k0 v0 : ℕ) (xs ys : List (ℕ × ℕ))
      → Sorted rank lo (rank k0) xs
      → Sorted rank (suc (rank k0)) hi ys
      → rank k ≡ rank k0
      → at_least k (xs ++ (k0, v0) ∷ ys) ≡ (k0, v0) ∷ ys
  at_least-at k lo hi k0 v0 xs ys s r h = ground (
    arith,
    at_least-append k xs ((k0, v0) ∷ ys),
    at_least-none k lo (rank k0) xs s (omega arith),
    at_least-all k (suc (rank k0)) hi ys r (omega arith),
  )

  at_least-behind :
      (k lo k0 v0 : ℕ) (xs ys : List (ℕ × ℕ))
      → Sorted rank lo (rank k0) xs
      → rank k0 < rank k
      → at_least k (xs ++ (k0, v0) ∷ ys) ≡ at_least k ys
  at_least-behind k lo k0 v0 xs ys s h =
      ground (
        arith,
        at_least-append k xs ((k0, v0) ∷ ys),
        at_least-none k lo (rank k0) xs s (omega arith),
      )

  -- A node pushed at its key `k0`, with `rest` the entries ahead in the subtree before it.
  pushed-at :
      (k k0 v0 hi : ℕ) (xs ys es : List (ℕ × ℕ))
      → Sorted rank (suc (rank k0)) hi ys
      → rank k < rank k0
      → at_least k xs ++ ((k0, v0) ∷ ys ++ es) ≡ at_least k (xs ++ (k0, v0) ∷ ys) ++ es
  pushed-at k k0 v0 hi xs ys es s h =
      rw (at_least-before k k0 v0 hi xs ys s h)
        (sym (append_assoc (at_least k xs) ((k0, v0) ∷ ys) es))

  push_geq-remaining :
      (lo hi : ℕ) (i : Itr) (t : Tree) (k : ℕ)
      → Sorted rank lo hi (entries t)
      → remaining (push_geq rank i t k) ≡ at_least k (entries t) ++ remaining i
  unfolding push_geq
  push_geq-remaining lo hi i nil k s = refl
  push_geq-remaining lo hi i (tree2 t0 k0 v0 t1) k s =
      let (s0, s1) = Sorted-split rank lo hi k0 v0 (entries t0) (entries t1) s in
      let r0 = push_geq-remaining lo (rank k0) ((0, tree2 t0 k0 v0 t1) ∷ i) t0 k s0 in
      let r1 = push_geq-remaining (suc (rank k0)) hi i t1 k s1 in
      elim (compare-cases (rank k) (rank k0)) [
        | inl (h, e) ↦
            rw (push_geq, e)
              (r0 ∙ pushed-at k k0 v0 hi (entries t0) (entries t1) (remaining i) s1 h)
        | inr (inl (h, e)) ↦
            rw (push_geq, e, at_least-at k lo hi k0 v0 (entries t0) (entries t1) s0 s1 h) refl
        | inr (inr (h, e)) ↦
            rw (push_geq, e, at_least-behind k lo k0 v0 (entries t0) (entries t1) s0 h) r1
      ]
  push_geq-remaining lo hi i (tree3 t0 k0 v0 t1 k1 v1 t2) k s =
      let e2 = entries t2 in
      let e1 = entries t1 ++ (k1, v1) ∷ e2 in
      let (s0, s12) = Sorted-split rank lo hi k0 v0 (entries t0) e1 s in
      let (s1, s2) = Sorted-split rank (suc (rank k0)) hi k1 v1 (entries t1) e2 s12 in
      let node = tree3 t0 k0 v0 t1 k1 v1 t2 in
      let r0 = push_geq-remaining lo (rank k0) ((0, node) ∷ i) t0 k s0 in
      let r1 = push_geq-remaining (suc (rank k0)) (rank k1) ((1, node) ∷ i) t1 k s1 in
      let r2 = push_geq-remaining (suc (rank k1)) hi i t2 k s2 in
      elim (compare-cases (rank k) (rank k0)) [
        | inl (h, e) ↦
            rw (push_geq, e) (r0 ∙ pushed-at k k0 v0 hi (entries t0) e1 (remaining i) s12 h)
        | inr (inl (h, e)) ↦
            rw (push_geq, e, at_least-at k lo hi k0 v0 (entries t0) e1 s0 s12 h) refl
        | inr (inr (h, e)) ↦
            rw (at_least-behind k lo k0 v0 (entries t0) e1 s0 h)
              (elim (compare-cases (rank k) (rank k1)) [
                | inl (h1, f) ↦
                    rw (push_geq, e, f)
                      (r1 ∙ pushed-at k k1 v1 hi (entries t1) e2 (remaining i) s2 h1)
                | inr (inl (h1, f)) ↦
                    rw
                      (
                        push_geq,
                        e,
                        f,
                        at_least-at k (suc (rank k0)) hi k1 v1 (entries t1) e2 s1 s2 h1,
                      )
                      refl
                | inr (inr (h1, f)) ↦
                    rw
                      (
                        push_geq,
                        e,
                        f,
                        at_least-behind k (suc (rank k0)) k1 v1 (entries t1) e2 s1 h1,
                      )
                      r2
              ])
      ]
  push_geq-remaining lo hi i (tree4 t0 k0 v0 t1 k1 v1 t2 k2 v2 t3) k s =
      let e3 = entries t3 in
      let e2 = entries t2 ++ (k2, v2) ∷ e3 in
      let e1 = entries t1 ++ (k1, v1) ∷ e2 in
      let (s0, s13) = Sorted-split rank lo hi k0 v0 (entries t0) e1 s in
      let (s1, s23) = Sorted-split rank (suc (rank k0)) hi k1 v1 (entries t1) e2 s13 in
      let (s2, s3) = Sorted-split rank (suc (rank k1)) hi k2 v2 (entries t2) e3 s23 in
      let node = tree4 t0 k0 v0 t1 k1 v1 t2 k2 v2 t3 in
      let r0 = push_geq-remaining lo (rank k0) ((0, node) ∷ i) t0 k s0 in
      let r1 = push_geq-remaining (suc (rank k0)) (rank k1) ((1, node) ∷ i) t1 k s1 in
      let r2 = push_geq-remaining (suc (rank k1)) (rank k2) ((2, node) ∷ i) t2 k s2 in
      let r3 = push_geq-remaining (suc (rank k2)) hi i t3 k s3 in
      let k0<k1 = Sorted-bounds rank (suc (rank k0)) (rank k1) (entries t1) s1 in
      let k1<k2 = Sorted-bounds rank (suc (rank k1)) (rank k2) (entries t2) s2 in
      let behind0 : rank k0 < rank k → at_least k (entries node) ≡ at_least k e1 =
        λ h. at_least-behind k lo k0 v0 (entries t0) e1 s0 h in
      let behind1 : rank k1 < rank k → at_least k e1 ≡ at_least k e2 =
        λ h. at_least-behind k (suc (rank k0)) k1 v1 (entries t1) e2 s1 h in
      elim (compare-cases (rank k) (rank k1)) [
        | inl (h1, f) ↦ elim (compare-cases (rank k) (rank k0)) [
          | inl (h, e) ↦
              rw (push_geq, f, e) (r0 ∙ pushed-at k k0 v0 hi (entries t0) e1 (remaining i) s13 h)
          | inr (inl (h, e)) ↦
              rw (push_geq, f, e, at_least-at k lo hi k0 v0 (entries t0) e1 s0 s13 h) refl
          | inr (inr (h, e)) ↦
              rw (push_geq, f, e, behind0 h)
                (r1 ∙ pushed-at k k1 v1 hi (entries t1) e2 (remaining i) s23 h1)
        ]
        | inr (inl (h1, f)) ↦
            rw
              (
                push_geq,
                f,
                behind0 (omega arith),
                at_least-at k (suc (rank k0)) hi k1 v1 (entries t1) e2 s1 s23 h1,
              )
              refl
        | inr (inr (h1, f)) ↦
            rw (behind0 (omega arith), behind1 h1)
              (elim (compare-cases (rank k) (rank k2)) [
                | inl (h2, e) ↦
                    rw (push_geq, f, e)
                      (r2 ∙ pushed-at k k2 v2 hi (entries t2) e3 (remaining i) s3 h2)
                | inr (inl (h2, e)) ↦
                    rw
                      (
                        push_geq,
                        f,
                        e,
                        at_least-at k (suc (rank k1)) hi k2 v2 (entries t2) e3 s2 s3 h2,
                      )
                      refl
                | inr (inr (h2, e)) ↦
                    rw
                      (
                        push_geq,
                        f,
                        e,
                        at_least-behind k (suc (rank k1)) k2 v2 (entries t2) e3 s2 h2,
                      )
                      r3
              ])
      ]

  push_geq-WellTagged :
      (i : Itr) (t : Tree) (k : ℕ) → WellTagged i → WellTagged (push_geq rank i t k)
  unfolding push_geq
  push_geq-WellTagged i nil k w = w
  push_geq-WellTagged i (tree2 t0 k0 v0 t1) k w =
      let r0 = push_geq-WellTagged ((0, tree2 t0 k0 v0 t1) ∷ i) t0 k (tt, w) in
      let r1 = push_geq-WellTagged i t1 k w in
      elim (compare-cases (rank k) (rank k0)) [
        | inl (h, e) ↦ rw (push_geq, e) r0
        | inr (inl (h, e)) ↦ rw (push_geq, e) (tt, w)
        | inr (inr (h, e)) ↦ rw (push_geq, e) r1
      ]
  push_geq-WellTagged i (tree3 t0 k0 v0 t1 k1 v1 t2) k w =
      let node = tree3 t0 k0 v0 t1 k1 v1 t2 in
      let r0 = push_geq-WellTagged ((0, node) ∷ i) t0 k (omega arith, w) in
      let r1 = push_geq-WellTagged ((1, node) ∷ i) t1 k (omega arith, w) in
      let r2 = push_geq-WellTagged i t2 k w in
      elim (compare-cases (rank k) (rank k0)) [
        | inl (h, e) ↦ rw (push_geq, e) r0
        | inr (inl (h, e)) ↦ rw (push_geq, e) (omega arith, w)
        | inr (inr (h, e)) ↦ elim (compare-cases (rank k) (rank k1)) [
          | inl (g, f) ↦ rw (push_geq, e, f) r1
          | inr (inl (g, f)) ↦ rw (push_geq, e, f) (omega arith, w)
          | inr (inr (g, f)) ↦ rw (push_geq, e, f) r2
        ]
      ]
  push_geq-WellTagged i (tree4 t0 k0 v0 t1 k1 v1 t2 k2 v2 t3) k w =
      let node = tree4 t0 k0 v0 t1 k1 v1 t2 k2 v2 t3 in
      let r0 = push_geq-WellTagged ((0, node) ∷ i) t0 k (omega arith, w) in
      let r1 = push_geq-WellTagged ((1, node) ∷ i) t1 k (omega arith, w) in
      let r2 = push_geq-WellTagged ((2, node) ∷ i) t2 k (omega arith, w) in
      let r3 = push_geq-WellTagged i t3 k w in
      elim (compare-cases (rank k) (rank k1)) [
        | inl (h, e) ↦ elim (compare-cases (rank k) (rank k0)) [
          | inl (g, f) ↦ rw (push_geq, e, f) r0
          | inr (inl (g, f)) ↦ rw (push_geq, e, f) (omega arith, w)
          | inr (inr (g, f)) ↦ rw (push_geq, e, f) r1
        ]
        | inr (inl (h, e)) ↦ rw (push_geq, e) (omega arith, w)
        | inr (inr (h, e)) ↦ elim (compare-cases (rank k) (rank k2)) [
          | inl (g, f) ↦ rw (push_geq, e, f) r2
          | inr (inl (g, f)) ↦ rw (push_geq, e, f) (omega arith, w)
          | inr (inr (g, f)) ↦ rw (push_geq, e, f) r3
        ]
      ]

  -- In a sorted tree, `tree_itrinit_geq` leaves the entries of at least the rank of `k` ahead, in order,
  -- on a well-tagged stack.
  pub tree_itrinit_geq-remaining :
      (lo hi : ℕ) (t : Tree) (k : ℕ)
      → Sorted rank lo hi (entries t)
      → WellTagged (tree_itrinit_geq rank t k)
        × (remaining (tree_itrinit_geq rank t k) ≡ at_least k (entries t))
  tree_itrinit_geq-remaining lo hi t k s = (
    push_geq-WellTagged [] t k tt,
    push_geq-remaining lo hi [] t k s ∙ append-nil (at_least k (entries t)),
  )
