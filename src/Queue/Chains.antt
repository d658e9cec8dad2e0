-- ===== src/Queue/Chains.antt =====
-- prop.c: lists threaded through `prop->next`, and what writes to `next` do to them.
use smchr.Prelude.{
  ℕ, ◌≤◌, ◌<◌, ◌≡◌, Option, some, List, [], ◌∷◌, ◌++◌, update, last_or, occurrences, arith,
}

-- Each entry points to the one behind it, and the last to itself.
abbrev pub Chain : (ℕ → Option ℕ) → List ℕ → Type 0
Chain next [] = Unit
Chain next (x ∷ []) = next x ≡ some x
Chain next (x ∷ y ∷ xs) = (next x ≡ some y) × Chain next (y ∷ xs)

pub Chain-frame :
    (next : ℕ → Option ℕ) (q : ℕ) (v : Option ℕ) (xs : List ℕ)
    → occurrences q xs ≡ 0
    → Chain next xs
    → Chain (update next q v) xs
Chain-frame next q v [] h c = tt
Chain-frame next q v (x ∷ []) h c = ground arith
Chain-frame next q v (x ∷ y ∷ xs) h (e, c) =
    (ground arith, Chain-frame next q v (y ∷ xs) (omega arith) c)

pub occurrences-last_or : (x : ℕ) (xs : List ℕ) → 0 < occurrences (last_or x xs) (x ∷ xs)
occurrences-last_or x [] = ground arith
occurrences-last_or x (y ∷ xs) = ground (arith, occurrences-last_or y xs)

-- The end points to a new entry, which points to itself.
pub Chain-append :
    (next : ℕ → Option ℕ) (p x : ℕ) (xs : List ℕ)
    → occurrences p (x ∷ xs) ≡ 0
    → ((q : ℕ) → occurrences q (x ∷ xs) ≤ 1)
    → Chain next (x ∷ xs)
    → Chain (update (update next p (some p)) (last_or x xs) (some p)) (x ∷ (xs ++ p ∷ []))
Chain-append next p x [] h n c = (ground arith, ground arith)
Chain-append next p x (y ∷ xs) h n (e, c) = (
  ground (arith, n x, occurrences-last_or y xs),
  Chain-append next p y xs (omega arith) (λ q. ground (arith, n q)) c,
)
