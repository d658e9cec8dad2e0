-- ===== src/Tree/Map.antt =====
-- tree.c: `tree_map` and `tree_destructive_map`, with `map` applied to its argument `arg`.
use smchr.Prelude.{ℕ, ◌≡◌, refl, List, [], ◌∷◌, ◌++◌}
use smchr.Tree.{Tree, nil, tree2, tree3, tree4}
use smchr.Tree.Entries.{entries}

unfoldable pub tree_map : (ℕ → ℕ → ℕ) → Tree → Tree
tree_map f nil = nil
tree_map f (tree2 t0 k0 v0 t1) = tree2 (tree_map f t0) k0 (f k0 v0) (tree_map f t1)
tree_map f (tree3 t0 k0 v0 t1 k1 v1 t2) =
    tree3 (tree_map f t0) k0 (f k0 v0) (tree_map f t1) k1 (f k1 v1) (tree_map f t2)
tree_map f (tree4 t0 k0 v0 t1 k1 v1 t2 k2 v2 t3) =
    tree4 (tree_map f t0) k0 (f k0 v0) (tree_map f t1) k1 (f k1 v1) (tree_map f t2) k2 (f k2 v2)
      (tree_map f t3)

-- The tree that `t` points to after the call. The nodes of a tree are not shared within it. The last
-- subtree of a tree4 is not visited.
unfoldable pub tree_destructive_map : (ℕ → ℕ → ℕ) → Tree → Tree
tree_destructive_map f nil = nil
tree_destructive_map f (tree2 t0 k0 v0 t1) =
    tree2 (tree_destructive_map f t0) k0 (f k0 v0) (tree_destructive_map f t1)
tree_destructive_map f (tree3 t0 k0 v0 t1 k1 v1 t2) =
    tree3 (tree_destructive_map f t0) k0 (f k0 v0) (tree_destructive_map f t1) k1 (f k1 v1)
      (tree_destructive_map f t2)
tree_destructive_map f (tree4 t0 k0 v0 t1 k1 v1 t2 k2 v2 t3) =
    tree4 (tree_destructive_map f t0) k0 (f k0 v0) (tree_destructive_map f t1) k1 (f k1 v1)
      (tree_destructive_map f t2) k2 (f k2 v2) t3

abbrev pub map_entries : (ℕ → ℕ → ℕ) → List (ℕ × ℕ) → List (ℕ × ℕ)
map_entries f [] = []
map_entries f ((k, v) ∷ es) = (k, f k v) ∷ map_entries f es

map_entries-append :
    (f : ℕ → ℕ → ℕ) (xs ys : List (ℕ × ℕ))
    → map_entries f (xs ++ ys) ≡ map_entries f xs ++ map_entries f ys
map_entries-append f [] ys = refl
map_entries-append f ((k, v) ∷ xs) ys = rw (map_entries-append f xs ys) refl

-- `tree_map` maps the values of the entries, the keys and their order kept.
pub tree_map-entries :
    (f : ℕ → ℕ → ℕ) (t : Tree) → entries (tree_map f t) ≡ map_entries f (entries t)
unfolding tree_map
tree_map-entries f nil = refl
tree_map-entries f (tree2 t0 k0 v0 t1) = simp (
  tree_map-entries f t0,
  tree_map-entries f t1,
  map_entries-append f (entries t0) ((k0, v0) ∷ entries t1),
)
tree_map-entries f (tree3 t0 k0 v0 t1 k1 v1 t2) =
    let e2 = (k1, v1) ∷ entries t2 in
    simp (
      tree_map-entries f t0,
      tree_map-entries f t1,
      tree_map-entries f t2,
      map_entries-append f (entries t0) ((k0, v0) ∷ (entries t1 ++ e2)),
      map_entries-append f (entries t1) e2,
    )
tree_map-entries f (tree4 t0 k0 v0 t1 k1 v1 t2 k2 v2 t3) =
    let e3 = (k2, v2) ∷ entries t3 in
    let e2 = (k1, v1) ∷ (entries t2 ++ e3) in
    simp (
      tree_map-entries f t0,
      tree_map-entries f t1,
      tree_map-entries f t2,
      tree_map-entries f t3,
      map_entries-append f (entries t0) ((k0, v0) ∷ (entries t1 ++ e2)),
      map_entries-append f (entries t1) e2,
      map_entries-append f (entries t2) e3,
    )

-- No tree4 has a last subtree.
abbrev pub LastEmpty : Tree → Type 0
LastEmpty nil = Unit
LastEmpty (tree2 t0 k0 v0 t1) = LastEmpty t0 × LastEmpty t1
LastEmpty (tree3 t0 k0 v0 t1 k1 v1 t2) = LastEmpty t0 × LastEmpty t1 × LastEmpty t2
LastEmpty (tree4 t0 k0 v0 t1 k1 v1 t2 k2 v2 t3) =
    LastEmpty t0 × LastEmpty t1 × LastEmpty t2 × (t3 ≡ nil)

-- `tree_destructive_map` leaves the tree that `tree_map` builds, when no tree4 has a last subtree.
pub destructive_map-tree_map :
    (f : ℕ → ℕ → ℕ) (t : Tree) → LastEmpty t → tree_destructive_map f t ≡ tree_map f t
unfolding tree_map tree_destructive_map
destructive_map-tree_map f nil h = refl
destructive_map-tree_map f (tree2 t0 k0 v0 t1) (h0, h1) =
    rw (destructive_map-tree_map f t0 h0, destructive_map-tree_map f t1 h1) refl
destructive_map-tree_map f (tree3 t0 k0 v0 t1 k1 v1 t2) (h0, h1, h2) =
    rw
      (
        destructive_map-tree_map f t0 h0,
        destructive_map-tree_map f t1 h1,
        destructive_map-tree_map f t2 h2,
      )
      refl
destructive_map-tree_map f (tree4 t0 k0 v0 t1 k1 v1 t2 k2 v2 t3) (h0, h1, h2, h3) =
    rw
      (
        destructive_map-tree_map f t0 h0,
        destructive_map-tree_map f t1 h1,
        destructive_map-tree_map f t2 h2,
        h3,
      )
      refl
