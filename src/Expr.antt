-- ===== src/Expr.antt =====
-- expr.c: Boolean expressions, `expr_and`, `expr_or`, `expr_not`, `expr_iff`, `expr_implies`, `expr_xor` and
-- the functions under them. The maps and_t and or_t, 2-3-4 trees from an expression to a sign, are
-- the sorted lists of their entries; NULL is `none`. `expr_compare` is a parameter, since it
-- compares the depths of trees as well, and so is the test that one tree is shallower than another:
-- the entries do not determine them. Nothing is assumed of the order; the theorems say what they
-- assume of expressions that compare equal, which need not be the same (two atoms are not told
-- apart).
pub mod Meaning
pub mod Canonical
pub mod Adds
pub mod Connectives
pub mod Equality
mod Tests
use smchr.Prelude.{ℕ, zero, suc, Bool, true, false, not, Option, none, some}
use Prim.Native.Nat.{Ordering}

-- `leaf` is an expression of a type other than Boolean and operator (a variable, an atom, a number), `op`
-- an operator or function other than <->, /\, \/ and negation. A negation is a /\ of one entry with
-- the sign true.
mutual
  pub data Expr : Type 0 where
    boolean : Bool → Expr
    leaf : ℕ → Expr
    op : ℕ → Expr
    iff : Expr → Expr → Expr
    conj : Pairs → Expr
    disj : Pairs → Expr

  pub data Pairs : Type 0 where
    empty : Pairs
    pair : Expr → Bool → Pairs → Pairs

abbrev pub xor : Bool → Bool → Bool
xor true b = not b
xor false b = b

-- and_depth and and_size, or or_depth and or_size, say that the map is empty, or that it has one entry.
pub data Size : Type 0 where
  no_pair : Size
  one_pair : Expr → Bool → Size
  more_pairs : Size

abbrev pub pairs_size : Pairs → Size
pairs_size empty = no_pair
pairs_size (pair k v empty) = one_pair k v
pairs_size (pair k v (pair a w es)) = more_pairs

abbrev pub and_to_expr : Option Pairs → Expr
and_to_expr none = boolean false
and_to_expr (some es) = elim (pairs_size es) [
  | no_pair ↦ boolean true
  | one_pair k v ↦ elim v [ true ↦ conj es | false ↦ k ]
  | more_pairs ↦ conj es
]

abbrev pub or_to_expr : Option Pairs → Expr
or_to_expr none = boolean true
or_to_expr (some es) = elim (pairs_size es) [
  | no_pair ↦ boolean false
  | one_pair k v ↦ elim v [ true ↦ conj es | false ↦ k ]
  | more_pairs ↦ disj es
]

-- What the `switch` of expr_and, or of expr_or, tells apart.
pub data Tag : Type 0 where
  same_tag : Pairs → Tag
  bool_tag : Bool → Tag
  other_tag : Tag

abbrev pub and_tag : Expr → Tag
and_tag (conj es) = same_tag es
and_tag (boolean c) = bool_tag c
and_tag _ = other_tag

abbrev pub or_tag : Expr → Tag
or_tag (disj es) = same_tag es
or_tag (boolean c) = bool_tag c
or_tag _ = other_tag

-- The result holds the expression without the sign, and the sign.
abbrev pub expr_getnotfactor : Expr → Expr × Bool
expr_getnotfactor (conj es) = elim (pairs_size es) [
  | no_pair ↦ (and_to_expr (some es), false)
  | one_pair k v ↦ (and_to_expr (some (pair k false empty)), true)
  | more_pairs ↦ (and_to_expr (some es), false)
]
expr_getnotfactor a = (a, false)

-- The loops of and_andexpr_andexpr and or_orexpr_orexpr.
unfoldable pub update_all :
    (Option Pairs → Expr → Bool → Option Pairs) → Pairs → Option Pairs → Option Pairs
update_all update empty es = es
update_all update (pair k v fs) es = update_all update fs (update es k v)

module _ (compare : Expr → Expr → Ordering) where
  -- and_search and or_search, and_insert and or_insert.
  unfoldable pub search_pair : Expr → Pairs → Option Bool
  search_pair k empty = none
  search_pair k (pair a v es) = elim (compare k a) [
    | Ordering.eq ↦ some v
    | Ordering.lt ↦ search_pair k es
    | Ordering.gt ↦ search_pair k es
  ]

  unfoldable pub insert_pair : Expr → Bool → Pairs → Pairs
  insert_pair k v empty = pair k v empty
  insert_pair k v (pair a w es) = elim (compare k a) [
    | Ordering.lt ↦ pair k v (pair a w es)
    | Ordering.eq ↦ pair k v es
    | Ordering.gt ↦ pair a w (insert_pair k v es)
  ]

  -- and_update, and or_update behind its first lines.
  abbrev pub update_pair : Option Pairs → Expr → Bool → Option Pairs
  update_pair none k v = none
  update_pair (some es) k v = elim (search_pair k es) [
    | none ↦ some (insert_pair k v es)
    | some s ↦ elim (xor s v) [ true ↦ none | false ↦ some es ]
  ]

  abbrev pub and_update : Option Pairs → Expr → Bool → Option Pairs
  and_update = update_pair

  abbrev pub or_update : Option Pairs → Expr → Bool → Option Pairs
  or_update es a v = let (k, s) = expr_getnotfactor a in update_pair es k (xor s v)

  -- expr_not_propagate, with the sign that it leaves, and the loops of not_andexpr and not_orexpr, which
  -- call it.
  unfoldable mutual
    pub expr_not_propagate : Expr → Expr × Bool
    expr_not_propagate (boolean c) = (boolean (not c), false)
    expr_not_propagate (conj es) = (or_to_expr (some (not_andexpr es empty)), false)
    expr_not_propagate (disj es) = (and_to_expr (some (not_orexpr es empty)), false)
    expr_not_propagate (leaf n) = (leaf n, true)
    expr_not_propagate (op n) = (op n, true)
    expr_not_propagate (iff x y) = (iff x y, true)

    pub not_andexpr : Pairs → Pairs → Pairs
    not_andexpr empty fs = fs
    not_andexpr (pair k true es) fs = not_andexpr es (insert_pair k false fs)
    not_andexpr (pair k false es) fs =
        let (k', s) = expr_not_propagate k in not_andexpr es (insert_pair k' s fs)

    pub not_orexpr : Pairs → Pairs → Pairs
    not_orexpr empty fs = fs
    not_orexpr (pair k true es) fs = not_orexpr es (insert_pair k false fs)
    not_orexpr (pair (conj ks) false es) fs =
        let (k', s) = expr_not_propagate (conj ks) in not_orexpr es (insert_pair k' s fs)
    not_orexpr (pair k false es) fs = not_orexpr es (insert_pair k true fs)

  unfoldable pub expr_not : Expr → Expr
  expr_not a =
      let (a', s) = expr_not_propagate a in
      elim s [ true ↦ and_to_expr (some (pair a' true empty)) | false ↦ a' ]

  unfoldable pub expr_iff : Expr → Expr → Expr
  expr_iff (boolean true) b = b
  expr_iff (boolean false) b = expr_not b
  expr_iff a (boolean true) = a
  expr_iff a (boolean false) = expr_not a
  expr_iff a b = elim (compare a b) [
    | Ordering.lt ↦ iff a b
    | Ordering.gt ↦ iff b a
    | Ordering.eq ↦ boolean true
  ]

  abbrev pub expr_xor : Expr → Expr → Expr
  expr_xor a b = expr_not (expr_iff a b)

module _ (compare : Expr → Expr → Ordering) (shallower : Pairs → Pairs → Bool) where
  abbrev pub and_andexpr_andexpr : Pairs → Pairs → Option Pairs
  and_andexpr_andexpr es fs = elim (shallower fs es) [
    | true ↦ update_all (and_update compare) fs (some es)
    | false ↦ update_all (and_update compare) es (some fs)
  ]

  abbrev pub or_orexpr_orexpr : Pairs → Pairs → Option Pairs
  or_orexpr_orexpr es fs = elim (shallower fs es) [
    | true ↦ update_all (or_update compare) fs (some es)
    | false ↦ update_all (or_update compare) es (some fs)
  ]

  unfoldable pub expr_and : Expr → Expr → Expr
  expr_and a b = elim (and_tag a) [
    | same_tag es ↦ elim (and_tag b) [
      | same_tag fs ↦ and_to_expr (and_andexpr_andexpr es fs)
      | bool_tag c ↦ elim c [ true ↦ a | false ↦ b ]
      | other_tag ↦ and_to_expr (and_update compare (some es) b false)
    ]
    | bool_tag c ↦ elim c [ true ↦ b | false ↦ a ]
    | other_tag ↦ elim (and_tag b) [
      | same_tag fs ↦ and_to_expr (and_update compare (some fs) a false)
      | bool_tag c ↦ elim c [ true ↦ a | false ↦ b ]
      | other_tag ↦
          and_to_expr (and_update compare (some (insert_pair compare a false empty)) b false)
    ]
  ]

  unfoldable pub expr_or : Expr → Expr → Expr
  expr_or a b = elim (or_tag a) [
    | same_tag es ↦ elim (or_tag b) [
      | same_tag fs ↦ or_to_expr (or_orexpr_orexpr es fs)
      | bool_tag c ↦ elim c [ true ↦ b | false ↦ a ]
      | other_tag ↦ or_to_expr (or_update compare (some es) b false)
    ]
    | bool_tag c ↦ elim c [ true ↦ a | false ↦ b ]
    | other_tag ↦ elim (or_tag b) [
      | same_tag fs ↦ or_to_expr (or_update compare (some fs) a false)
      | bool_tag c ↦ elim c [ true ↦ b | false ↦ a ]
      | other_tag ↦ or_to_expr (or_update compare (or_update compare (some empty) a false) b false)
    ]
  ]

  abbrev pub expr_implies : Expr → Expr → Expr
  expr_implies a b = expr_or (expr_not compare a) b
