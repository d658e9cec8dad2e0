-- ===== src/Tree/Entries.antt =====
-- The abstract view of a tree of tree.c: its entries in order, an association list sorted by rank,
-- and what lookup, insertion and removal mean on such a list; and the balance of a tree.
use smchr.Prelude.{
  ℕ, zero, suc, ◌≤◌, ◌<◌, ◌≡◌, refl, ◌⊎◌, inl, inr, Option, none, some, List, [], ◌∷◌, ◌++◌, false,
  arith, ◌==◌, if◌then◌else◌,
}
use smchr.Tree.{Tree, nil, tree2, tree3, tree4, tree_isempty}
use Prim.Native.Nat.{compare, Ordering}

abbrev pub entries : Tree → List (ℕ × ℕ)
entries nil = []
entries (tree2 t0 k0 v0 t1) = entries t0 ++ (k0, v0) ∷ entries t1
entries (tree3 t0 k0 v0 t1 k1 v1 t2) =
    entries t0 ++ (k0, v0) ∷ (entries t1 ++ (k1, v1) ∷ entries t2)
entries (tree4 t0 k0 v0 t1 k1 v1 t2 k2 v2 t3) =
    entries t0 ++ (k0, v0) ∷ (entries t1 ++ (k1, v1) ∷ (entries t2 ++ (k2, v2) ∷ entries t3))

-- All leaves stand at depth n.
abbrev pub Balanced : ℕ → Tree → Type 0
Balanced zero nil = Unit
Balanced (suc n) (tree2 t0 k0 v0 t1) = Balanced n t0 × Balanced n t1
Balanced (suc n) (tree3 t0 k0 v0 t1 k1 v1 t2) = Balanced n t0 × Balanced n t1 × Balanced n t2
Balanced (suc n) (tree4 t0 k0 v0 t1 k1 v1 t2 k2 v2 t3) =
    Balanced n t0 × Balanced n t1 × Balanced n t2 × Balanced n t3
Balanced _ _ = ⊥

pub Balanced-nil : (t : Tree) → Balanced 0 t → t ≡ nil
Balanced-nil nil b = refl
Balanced-nil (tree2 t0 k0 v0 t1) b = elim b [ ]
Balanced-nil (tree3 t0 k0 v0 t1 k1 v1 t2) b = elim b [ ]
Balanced-nil (tree4 t0 k0 v0 t1 k1 v1 t2 k2 v2 t3) b = elim b [ ]

pub Balanced-tree_isempty : (n : ℕ) (t : Tree) → Balanced (suc n) t → tree_isempty t ≡ false
Balanced-tree_isempty n nil b = elim b [ ]
Balanced-tree_isempty n (tree2 t0 k0 v0 t1) b = refl
Balanced-tree_isempty n (tree3 t0 k0 v0 t1 k1 v1 t2) b = refl
Balanced-tree_isempty n (tree4 t0 k0 v0 t1 k1 v1 t2 k2 v2 t3) b = refl

module _ (rank : ℕ → ℕ) where
  -- The ranks of the keys increase, from `lo` and below `hi`.
  abbrev pub Sorted : ℕ → ℕ → List (ℕ × ℕ) → Type 0
  Sorted lo hi [] = lo ≤ hi
  Sorted lo hi ((k, v) ∷ es) = lo ≤ rank k × Sorted (suc (rank k)) hi es

  abbrev pub find : ℕ → List (ℕ × ℕ) → Option ℕ
  find k [] = none
  find k ((a, v) ∷ es) = elim (compare (rank k) (rank a)) [ Ordering.eq ↦ some v | _ ↦ find k es ]

  abbrev pub insert_entry : ℕ → ℕ → List (ℕ × ℕ) → List (ℕ × ℕ)
  insert_entry k v [] = (k, v) ∷ []
  insert_entry k v ((a, w) ∷ es) = elim (compare (rank k) (rank a)) [
    | Ordering.lt ↦ (k, v) ∷ (a, w) ∷ es
    | Ordering.eq ↦ (k, v) ∷ es
    | Ordering.gt ↦ (a, w) ∷ insert_entry k v es
  ]

  abbrev pub remove_entry : ℕ → List (ℕ × ℕ) → List (ℕ × ℕ)
  remove_entry k [] = []
  remove_entry k ((a, w) ∷ es) = elim (compare (rank k) (rank a)) [
    | Ordering.eq ↦ remove_entry k es
    | _ ↦ (a, w) ∷ remove_entry k es
  ]

  pub Sorted-bounds : (lo hi : ℕ) (es : List (ℕ × ℕ)) → Sorted lo hi es → lo ≤ hi
  Sorted-bounds lo hi [] s = s
  Sorted-bounds lo hi ((k, v) ∷ es) (h, s) = omega (arith, Sorted-bounds (suc (rank k)) hi es s)

  pub Sorted-split :
      (lo hi k v : ℕ) (xs ys : List (ℕ × ℕ))
      → Sorted lo hi (xs ++ (k, v) ∷ ys)
      → Sorted lo (rank k) xs × Sorted (suc (rank k)) hi ys
  Sorted-split lo hi k v [] ys (h, s) = (h, s)
  Sorted-split lo hi k v ((a, w) ∷ xs) ys (h, s) =
      let (l, r) = Sorted-split (suc (rank a)) hi k v xs ys s in ((h, l), r)

  pub find-outside :
      (lo hi k : ℕ) (es : List (ℕ × ℕ))
      → Sorted lo hi es
      → (rank k < lo) ⊎ (hi ≤ rank k)
      → find k es ≡ none
  find-outside lo hi k [] s o = ground arith
  find-outside lo hi k ((a, w) ∷ es) (h, s) o =
      ground (arith, Sorted-bounds (suc (rank a)) hi es s, find-outside (suc (rank a)) hi k es s)

  pub find-append :
      (k : ℕ) (xs ys : List (ℕ × ℕ)) → find k xs ≡ none → find k (xs ++ ys) ≡ find k ys
  find-append k [] ys h = refl
  find-append k ((a, w) ∷ xs) ys h = ground (arith, find-append k xs ys)

  -- Lookup beside a key that is greater, or that is reached.
  pub find-before :
      (k k0 v0 hi : ℕ) (xs ys : List (ℕ × ℕ))
      → Sorted (suc (rank k0)) hi ys
      → rank k < rank k0
      → find k (xs ++ (k0, v0) ∷ ys) ≡ find k xs
  find-before k k0 v0 hi [] ys s h =
      ground (arith, find-outside (suc (rank k0)) hi k ys s (inl (omega arith)))
  find-before k k0 v0 hi ((a, w) ∷ xs) ys s h = ground (arith, find-before k k0 v0 hi xs ys s h)

  pub find-after :
      (k lo hi : ℕ) (xs ys : List (ℕ × ℕ))
      → Sorted lo hi xs
      → hi ≤ rank k
      → find k (xs ++ ys) ≡ find k ys
  find-after k lo hi xs ys s h = find-append k xs ys (find-outside lo hi k xs s (inr h))

  pub insert-before :
      (k v k0 v0 : ℕ) (xs ys : List (ℕ × ℕ))
      → rank k < rank k0
      → insert_entry k v (xs ++ (k0, v0) ∷ ys) ≡ insert_entry k v xs ++ (k0, v0) ∷ ys
  insert-before k v k0 v0 [] ys h = ground arith
  insert-before k v k0 v0 ((a, w) ∷ xs) ys h = ground (arith, insert-before k v k0 v0 xs ys h)

  pub insert-after :
      (k v lo hi : ℕ) (xs ys : List (ℕ × ℕ))
      → Sorted lo hi xs
      → hi ≤ rank k
      → insert_entry k v (xs ++ ys) ≡ xs ++ insert_entry k v ys
  insert-after k v lo hi [] ys s h = refl
  insert-after k v lo hi ((a, w) ∷ xs) ys (g, s) h =
      ground
        (arith, Sorted-bounds (suc (rank a)) hi xs s, insert-after k v (suc (rank a)) hi xs ys s h)

  -- At a key of the list: the entry goes behind it, or takes its place.
  pub insert-behind :
      (k v lo k0 v0 : ℕ) (xs ys : List (ℕ × ℕ))
      → Sorted lo (rank k0) xs
      → rank k0 < rank k
      → insert_entry k v (xs ++ (k0, v0) ∷ ys) ≡ xs ++ (k0, v0) ∷ insert_entry k v ys
  insert-behind k v lo k0 v0 xs ys s h =
      ground (arith, insert-after k v lo (rank k0) xs ((k0, v0) ∷ ys) s)

  pub insert-at :
      (k v lo k0 v0 : ℕ) (xs ys : List (ℕ × ℕ))
      → Sorted lo (rank k0) xs
      → rank k ≡ rank k0
      → insert_entry k v (xs ++ (k0, v0) ∷ ys) ≡ xs ++ (k, v) ∷ ys
  insert-at k v lo k0 v0 xs ys s h =
      ground (arith, insert-after k v lo (rank k0) xs ((k0, v0) ∷ ys) s)

  pub remove-append :
      (k : ℕ) (xs ys : List (ℕ × ℕ))
      → remove_entry k (xs ++ ys) ≡ remove_entry k xs ++ remove_entry k ys
  remove-append k [] ys = refl
  remove-append k ((a, w) ∷ xs) ys = ground (arith, remove-append k xs ys)

  pub remove-outside :
      (lo hi k : ℕ) (es : List (ℕ × ℕ))
      → Sorted lo hi es
      → (rank k < lo) ⊎ (hi ≤ rank k)
      → remove_entry k es ≡ es
  remove-outside lo hi k [] s o = refl
  remove-outside lo hi k ((a, w) ∷ es) (h, s) o =
      ground (arith, Sorted-bounds (suc (rank a)) hi es s, remove-outside (suc (rank a)) hi k es s)

  -- Insertion and removal keep the order, and lookup after them.
  pub insert-Sorted :
      (k v lo hi : ℕ) (es : List (ℕ × ℕ))
      → Sorted lo hi es
      → lo ≤ rank k
      → rank k < hi
      → Sorted lo hi (insert_entry k v es)
  insert-Sorted k v lo hi [] s l h = (l, h)
  insert-Sorted k v lo hi ((a, w) ∷ es) (g, s) l h =
      let rest = insert-Sorted k v (suc (rank a)) hi es s in
      ground (arith, rest, Sorted-bounds (suc (rank a)) hi es s)

  pub Sorted-weaken :
      (lo lo' hi : ℕ) (es : List (ℕ × ℕ)) → lo ≤ lo' → Sorted lo' hi es → Sorted lo hi es
  Sorted-weaken lo lo' hi [] l s = omega arith
  Sorted-weaken lo lo' hi ((a, w) ∷ es) l (g, s) = (omega arith, s)

  pub remove-Sorted :
      (k lo hi : ℕ) (es : List (ℕ × ℕ)) → Sorted lo hi es → Sorted lo hi (remove_entry k es)
  remove-Sorted k lo hi [] s = s
  remove-Sorted k lo hi ((a, w) ∷ es) (g, s) =
      let rest = remove-Sorted k (suc (rank a)) hi es s in
      ground (arith, rest, Sorted-weaken lo (suc (rank a)) hi (remove_entry k es))

  pub find-insert_entry :
      (k v j lo hi : ℕ) (es : List (ℕ × ℕ))
      → Sorted lo hi es
      → find j (insert_entry k v es) ≡ (if rank j == rank k then some v else find j es)
  find-insert_entry k v j lo hi [] s = ground arith
  find-insert_entry k v j lo hi ((a, w) ∷ es) (g, s) =
      ground (
        arith,
        find-insert_entry k v j (suc (rank a)) hi es s,
        find-outside (suc (rank a)) hi j es s,
      )

  pub find-remove_entry :
      (k j : ℕ) (es : List (ℕ × ℕ))
      → find j (remove_entry k es) ≡ (if rank j == rank k then none else find j es)
  find-remove_entry k j [] = ground arith
  find-remove_entry k j ((a, w) ∷ es) = ground (arith, find-remove_entry k j es)

  -- Lookup and removal at a key of the list, and beside it.
  pub find-behind :
      (k lo k0 v0 : ℕ) (xs ys : List (ℕ × ℕ))
      → Sorted lo (rank k0) xs
      → rank k0 < rank k
      → find k (xs ++ (k0, v0) ∷ ys) ≡ find k ys
  find-behind k lo k0 v0 xs ys s h = ground (arith, find-after k lo (rank k0) xs ((k0, v0) ∷ ys) s)

  pub find-at :
      (k lo k0 v0 : ℕ) (xs ys : List (ℕ × ℕ))
      → Sorted lo (rank k0) xs
      → rank k ≡ rank k0
      → find k (xs ++ (k0, v0) ∷ ys) ≡ some v0
  find-at k lo k0 v0 xs ys s h = ground (arith, find-after k lo (rank k0) xs ((k0, v0) ∷ ys) s)

  pub remove-before :
      (k k0 v0 hi : ℕ) (xs ys : List (ℕ × ℕ))
      → Sorted (suc (rank k0)) hi ys
      → rank k < rank k0
      → remove_entry k (xs ++ (k0, v0) ∷ ys) ≡ remove_entry k xs ++ (k0, v0) ∷ ys
  remove-before k k0 v0 hi xs ys s h = ground (
    arith,
    remove-append k xs ((k0, v0) ∷ ys),
    remove-outside (suc (rank k0)) hi k ys s (inl (omega arith)),
  )

  pub remove-behind :
      (k lo k0 v0 : ℕ) (xs ys : List (ℕ × ℕ))
      → Sorted lo (rank k0) xs
      → rank k0 < rank k
      → remove_entry k (xs ++ (k0, v0) ∷ ys) ≡ xs ++ (k0, v0) ∷ remove_entry k ys
  remove-behind k lo k0 v0 xs ys s h = ground (
    arith,
    remove-append k xs ((k0, v0) ∷ ys),
    remove-outside lo (rank k0) k xs s (inr (omega arith)),
  )

  pub remove-at :
      (k lo hi k0 v0 : ℕ) (xs ys : List (ℕ × ℕ))
      → Sorted lo (rank k0) xs
      → Sorted (suc (rank k0)) hi ys
      → rank k ≡ rank k0
      → remove_entry k (xs ++ (k0, v0) ∷ ys) ≡ xs ++ ys
  remove-at k lo hi k0 v0 xs ys s r h = ground (
    arith,
    remove-append k xs ((k0, v0) ∷ ys),
    remove-outside lo (rank k0) k xs s (inr (omega arith)),
    remove-outside (suc (rank k0)) hi k ys r (inl (omega arith)),
  )
