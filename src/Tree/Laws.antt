-- ===== src/Tree/Laws.antt =====
-- tree.c as a map, the view that map.h and set.h have of it: searches after an insertion and after a
-- deletion.
use smchr.Prelude.{
  ℕ, zero, suc, ◌+◌, ◌≤◌, ◌≡◌, Bool, true, false, Option, none, some, List, [], ◌∷◌, arith, ◌==◌,
  if◌then◌else◌,
}
use smchr.Tree.{Tree, tree_search}
use smchr.Tree.Entries.{
  entries, Sorted, Balanced, find, insert_entry, remove_entry, insert-Sorted, remove-Sorted,
  find-insert_entry, find-remove_entry,
}
use smchr.Tree.Search.{tree_search-entries}
use smchr.Tree.Insert.{tree_insert}
use smchr.Tree.Insert.Rebuild.{Inserted}
use smchr.Tree.Insert.Correct.{grown, tree_insert-Inserted}
use smchr.Tree.Fix.Correct.{Reduced}
use smchr.Tree.Delete.{tree_delete}
use smchr.Tree.Delete.Steps.{Deleted}
use smchr.Tree.Delete.Correct.{tree_delete-Deleted}

module _ (rank : ℕ → ℕ) where
  -- A tree that the operations can have built: balanced, and its entries sorted.
  pub record WellFormed (t : Tree) : Type 0 where
    pub height : ℕ
    pub balanced : Balanced height t
    pub above : ℕ
    pub sorted : Sorted rank 0 above (entries t)

  Sorted-widen :
      (lo hi hi' : ℕ) (es : List (ℕ × ℕ)) → hi ≤ hi' → Sorted rank lo hi es → Sorted rank lo hi' es
  Sorted-widen lo hi hi' [] l s = omega arith
  Sorted-widen lo hi hi' ((k, v) ∷ es) l (h, s) = (h, Sorted-widen (suc (rank k)) hi hi' es l s)

  abbrev pub AfterInsert : Tree → ℕ → ℕ → Option Tree → Type 0
  AfterInsert t k v none = ⊥
  AfterInsert t k v (some t') =
      WellFormed t'
      × ((j : ℕ)
          → tree_search rank t' j ≡ (if rank j == rank k then some v else tree_search rank t j))

  abbrev pub AfterDelete : Tree → ℕ → Option (Tree × Option ℕ × Bool) → Type 0
  AfterDelete t k none = ⊥
  AfterDelete t k (some (t', written, reduced)) =
      WellFormed t'
      × (written ≡ tree_search rank t k)
      × ((j : ℕ)
          → tree_search rank t' j ≡ (if rank j == rank k then none else tree_search rank t j))

  insert-laws :
      (t : Tree) (k v n hi : ℕ) (o : Option Tree)
      → Sorted rank 0 hi (entries t)
      → Inserted n (insert_entry rank k v (entries t)) o
      → AfterInsert t k v o
  insert-laws t k v n hi none s h = h
  insert-laws t k v n hi (some t') s (b, e) =
      let top = hi + suc (rank k) in
      let w = Sorted-widen 0 hi top (entries t) (omega arith) s in
      let s' : Sorted rank 0 top (entries t') =
        rw e (insert-Sorted rank k v 0 top (entries t) w (omega arith) (omega arith)) in
      (
        record { height = n; balanced = b; above = top; sorted = s' },
        λ j.
            rw (tree_search-entries rank 0 top t' j s', tree_search-entries rank 0 hi t j s, e)
              (find-insert_entry rank k v j 0 hi (entries t) s),
      )

  -- `tree_insert` on a well-formed tree meets no `abort()` and leaves a well-formed tree, where a search
  -- finds the new value under keys of the same rank and what it found before under all others.
  pub tree_insert_lem :
      (t : Tree) (k v : ℕ) → WellFormed t → AfterInsert t k v (tree_insert rank t k v)
  tree_insert_lem t k v w =
      insert-laws t k v (grown w.height t) w.above (tree_insert rank t k v) w.sorted
        (tree_insert-Inserted rank k v w.height 0 w.above t w.balanced w.sorted)

  Reduced-height : (r : Bool) (n : ℕ) (t : Tree) → Reduced r n t → (m : ℕ) × Balanced m t
  Reduced-height false n t b = (n, b)
  Reduced-height true zero t b = elim b [ ]
  Reduced-height true (suc n) t b = (n, b)

  delete-laws :
      (t : Tree) (k n hi : ℕ) (o : Option (Tree × Option ℕ × Bool))
      → Sorted rank 0 hi (entries t)
      → Deleted n (remove_entry rank k (entries t)) (find rank k (entries t)) o
      → AfterDelete t k o
  delete-laws t k n hi none s h = h
  delete-laws t k n hi (some (t', y, r)) s (b, e, q) =
      let s' : Sorted rank 0 hi (entries t') = rw e (remove-Sorted rank k 0 hi (entries t) s) in
      let (m, bal) = Reduced-height r n t' b in
      (
        record { height = m; balanced = bal; above = hi; sorted = s' },
        rw (tree_search-entries rank 0 hi t k s) q,
        λ j.
            rw (tree_search-entries rank 0 hi t' j s', tree_search-entries rank 0 hi t j s, e)
              (find-remove_entry rank k j (entries t)),
      )

  -- `tree_delete` on a well-formed tree meets no `abort()`, writes what a search for the key finds, and
  -- leaves a well-formed tree, where a search finds nothing under keys of the same rank and what it
  -- found before under all others.
  pub tree_delete_lem : (t : Tree) (k : ℕ) → WellFormed t → AfterDelete t k (tree_delete rank t k)
  tree_delete_lem t k w =
      delete-laws t k w.height w.above (tree_delete rank t k) w.sorted
        (tree_delete-Deleted rank k w.height 0 w.above t w.balanced w.sorted)
