-- ===== src/Expr/Adds.antt =====
-- expr.c: what an update adds to a map and_t or or_t, and what the tags of `expr_and` and `expr_or` say.
use smchr.Prelude.{
  ℕ, ◌≡◌, refl, sym, ◌∙◌, ap, ◌⊎◌, inl, inr, Bool, true, false, not, ◌&&◌, ◌||◌, Option, arith,
}
use Prim.Native.Nat.{Ordering}
use smchr.Expr.{
  Expr, boolean, leaf, op, iff, conj, disj, Pairs, empty, pair, xor, and_to_expr, or_to_expr, Tag,
  same_tag, bool_tag, other_tag, and_tag, or_tag, expr_getnotfactor, update_pair, or_update,
  update_all,
}
use smchr.Expr.Meaning.{
  comb, comb_unit, comb_lost, comb_swap, eval, fold, fold?, and_to_expr-fold, or_to_expr-fold,
  update_pair-fold,
}
use smchr.Expr.Canonical.{
  Canonical, Entries, Signed, Map, and_to_expr-Canonical, or_to_expr-Canonical, update_pair-Map,
}

pub Tag-cases :
    (t : Tag)
    → ((es : Pairs) × (t ≡ same_tag es)) ⊎ ((c : Bool) × (t ≡ bool_tag c)) ⊎ (t ≡ other_tag)
Tag-cases (same_tag es) = inl (es, refl)
Tag-cases (bool_tag c) = inr (inl (c, refl))
Tag-cases other_tag = inr (inr refl)

pub comb_comm : (u a b : Bool) → comb u a b ≡ comb u b a
comb_comm true true true = refl
comb_comm true true false = refl
comb_comm true false true = refl
comb_comm true false false = refl
comb_comm false true true = refl
comb_comm false true false = refl
comb_comm false false true = refl
comb_comm false false false = refl

comb_assoc : (u a b c : Bool) → comb u (comb u a b) c ≡ comb u a (comb u b c)
comb_assoc true true b c = refl
comb_assoc true false b c = refl
comb_assoc false true b c = refl
comb_assoc false false b c = refl

pub xor-false : (n : Bool) → xor n false ≡ n
xor-false true = refl
xor-false false = refl

module _ (value : ℕ → Bool) (op_value : ℕ → Bool) where
  -- An expression that has a truth value, and the shape.
  abbrev pub Means : Expr → Bool → Type 0
  Means e b = Canonical e × (eval value op_value e ≡ b)

  -- What the tag of an operand says of it.
  abbrev pub AndParts : Tag → Expr → Type 0
  AndParts (same_tag es) a = Entries es × (eval value op_value a ≡ fold value op_value true es)
  AndParts (bool_tag c) a = eval value op_value a ≡ c
  AndParts other_tag a = Signed a false

  pub and_tag-AndParts : (a : Expr) → Canonical a → AndParts (and_tag a) a
  and_tag-AndParts (boolean c) k = refl
  and_tag-AndParts (leaf n) k = (λ e. tt, tt)
  and_tag-AndParts (op n) k = (λ e. tt, tt)
  and_tag-AndParts (iff x y) k = (λ e. tt, tt)
  and_tag-AndParts (conj es) (e, s) = (e, refl)
  and_tag-AndParts (disj es) k = (λ e. let bad : ⊥ = ground (arith, e) in elim bad [ ], tt)

  abbrev pub OrParts : Tag → Expr → Type 0
  OrParts (same_tag es) a = Entries es × (eval value op_value a ≡ fold value op_value false es)
  OrParts (bool_tag c) a = eval value op_value a ≡ c
  OrParts other_tag a =
      let (k, s) = expr_getnotfactor a in
      Canonical k × Signed k s × (xor s (eval value op_value k) ≡ eval value op_value a)

  pub or_tag-OrParts : (a : Expr) → Canonical a → OrParts (or_tag a) a
  or_tag-OrParts (boolean c) k = refl
  or_tag-OrParts (leaf n) k = (tt, (λ e. tt, tt), refl)
  or_tag-OrParts (op n) k = (tt, (λ e. tt, tt), refl)
  or_tag-OrParts (iff x y) k = (k, (λ e. tt, tt), refl)
  or_tag-OrParts (conj empty) (e, s) = elim s [ ]
  or_tag-OrParts (conj (pair k v empty)) ((c, (l, n), e), s) =
      (c, (λ z. l s, n), rw s (sym (comb_unit true (not (eval value op_value k)))))
  or_tag-OrParts (conj (pair k v (pair a w es))) (e, s) =
      ((e, s), (λ z. let bad : ⊥ = ground (arith, z) in elim bad [ ], s), refl)
  or_tag-OrParts (disj es) (e, s) = (e, refl)

  module _ (compare : Expr → Expr → Ordering)
      (compare-means : (a b : Expr)
        → compare a b ≡ Ordering.eq
        → eval value op_value a ≡ eval value op_value b) where
    -- The map `fs` is `es` with an entry of this value more.
    abbrev pub Adds : Bool → Option Pairs → Option Pairs → Bool → Type 0
    Adds u es fs b = Map fs × (fold? value op_value u fs ≡ comb u b (fold? value op_value u es))

    pub update_pair-Adds :
        (u : Bool) (es : Option Pairs) (k : Expr) (v : Bool)
        → Map es
        → Canonical k
        → Signed k v
        → Adds u es (update_pair compare es k v) (xor v (eval value op_value k))
    update_pair-Adds u es k v m c s = (
      update_pair-Map compare es k v m c s,
      update_pair-fold value op_value compare compare-means u es k v,
    )

    pub or_update-Adds :
        (es : Option Pairs) (k : Expr) (v : Bool)
        → Map es
        → Canonical k
        → Signed k v
        → Adds false es (or_update compare es k v) (xor v (eval value op_value k))
    or_update-Adds es (boolean c) v m k (l, n) = elim n [ ]
    or_update-Adds es (leaf n) v m k s = update_pair-Adds false es (leaf n) v m k s
    or_update-Adds es (op n) v m k s = update_pair-Adds false es (op n) v m k s
    or_update-Adds es (iff x y) v m k s = update_pair-Adds false es (iff x y) v m k s
    or_update-Adds es (disj fs) v m k s = update_pair-Adds false es (disj fs) v m k s
    or_update-Adds es (conj empty) v m (e, z) s = elim z [ ]
    or_update-Adds es (conj (pair a w empty)) v m k (l, t) = elim t [ ]
    or_update-Adds es (conj (pair a w (pair b x fs))) v m k s =
        update_pair-Adds false es (conj (pair a w (pair b x fs))) v m k s

    pub update_all-Adds :
        (u : Bool) (update : Option Pairs → Expr → Bool → Option Pairs)
        → ((es : Option Pairs) (k : Expr) (v : Bool)
            → Map es
            → Canonical k
            → Signed k v
            → Adds u es (update es k v) (xor v (eval value op_value k)))
        → (fs : Pairs) (es : Option Pairs) → Entries fs
        → Map es
        → Adds u es (update_all update fs es) (fold value op_value u fs)
    unfolding update_all
    update_all-Adds u update step empty es f m = (
      m,
      sym (comb_comm u u (fold? value op_value u es) ∙ comb_unit u (fold? value op_value u es)),
    )
    update_all-Adds u update step (pair k v fs) es (c, s, f) m =
        let (m1, e1) = step es k v m c s in
        let (m2, e2) = update_all-Adds u update step fs (update es k v) f m1 in
        let lit = xor v (eval value op_value k) in
        let now = fold? value op_value u es in
        (
          m2,
          e2
              ∙ (ap (comb u (fold value op_value u fs)) e1
                  ∙ (comb_swap u (fold value op_value u fs) lit now
                      ∙ sym (comb_assoc u lit (fold value op_value u fs) now))),
        )

    pub and_result :
        (es : Option Pairs) (b : Bool)
        → Map es
        → fold? value op_value true es ≡ b
        → Means (and_to_expr es) b
    and_result es b m e = (and_to_expr-Canonical es m, and_to_expr-fold value op_value es ∙ e)

    pub or_result :
        (es : Option Pairs) (b : Bool)
        → Map es
        → fold? value op_value false es ≡ b
        → Means (or_to_expr es) b
    or_result es b m e = (or_to_expr-Canonical es m, or_to_expr-fold value op_value es ∙ e)

    pub and_bool :
        (a b : Expr) (c : Bool)
        → Canonical a
        → Canonical b
        → eval value op_value b ≡ c
        → Means (elim c [ true ↦ a | false ↦ b ]) (eval value op_value a && eval value op_value b)
    and_bool a b true ca cb e =
        let va = eval value op_value a in (ca, sym (ap (comb true va) e ∙ comb_unit true va))
    and_bool a b false ca cb e =
        let va = eval value op_value a in (cb, e ∙ sym (ap (comb true va) e ∙ comb_lost true va))

    pub or_bool :
        (a b : Expr) (c : Bool)
        → Canonical a
        → Canonical b
        → eval value op_value b ≡ c
        → Means (elim c [ true ↦ b | false ↦ a ]) (eval value op_value a || eval value op_value b)
    or_bool a b true ca cb e =
        let va = eval value op_value a in (cb, e ∙ sym (ap (comb false va) e ∙ comb_lost false va))
    or_bool a b false ca cb e =
        let va = eval value op_value a in (ca, sym (ap (comb false va) e ∙ comb_unit false va))

    pub Means-comb_comm :
        (u : Bool) (e : Expr) (a b : Bool) → Means e (comb u a b) → Means e (comb u b a)
    Means-comb_comm u e a b (c, q) = (c, q ∙ comb_comm u a b)
