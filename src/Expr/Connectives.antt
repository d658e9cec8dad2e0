-- ===== src/Expr/Connectives.antt =====
-- expr.c: `expr_and` and `expr_or` of canonical expressions.
use smchr.Prelude.{
  ℕ, ◌≡◌, refl, sym, ◌∙◌, ap, subst, inl, inr, Bool, true, false, ◌&&◌, ◌||◌, Option, some,
  Bool-cases,
}
use Prim.Native.Nat.{Ordering}
use smchr.Expr.{
  Expr, Pairs, empty, xor, and_to_expr, or_to_expr, other_tag, and_tag, or_tag, expr_getnotfactor,
  and_update, or_update, insert_pair, expr_and, expr_or, and_andexpr_andexpr, or_orexpr_orexpr,
}
use smchr.Expr.Meaning.{comb, comb_unit, eval, fold, fold?}
use smchr.Expr.Canonical.{Canonical, Entries, Signed, Map}
use smchr.Expr.Adds.{
  Tag-cases, Means, AndParts, and_tag-AndParts, OrParts, or_tag-OrParts, Adds, update_pair-Adds,
  or_update-Adds, update_all-Adds, and_result, or_result, and_bool, or_bool, Means-comb_comm,
  comb_comm, xor-false,
}

module _ (value : ℕ → Bool) (op_value : ℕ → Bool) where
  module _ (compare : Expr → Expr → Ordering)
      (compare-means : (a b : Expr)
        → compare a b ≡ Ordering.eq
        → eval value op_value a ≡ eval value op_value b) where
    module _ (shallower : Pairs → Pairs → Bool) where
      and_maps-Adds :
          (es fs : Pairs)
          → Entries es
          → Entries fs
          → Adds value op_value compare compare-means true
              (some fs)
              (and_andexpr_andexpr compare shallower es fs)
              (fold value op_value true es)
      and_maps-Adds es fs e f =
          let there =
            update_all-Adds value op_value compare compare-means true (and_update compare)
              (update_pair-Adds value op_value compare compare-means true) in
          elim (Bool-cases (shallower fs es)) [
            | inl x ↦
                let (m, q) = there fs (some es) f e in
                rw (and_andexpr_andexpr, x)
                  (
                    m,
                    q ∙ comb_comm true (fold value op_value true fs) (fold value op_value true es),
                  )
            | inr x ↦ rw (and_andexpr_andexpr, x) (there es (some fs) e f)
          ]

      or_maps-Adds :
          (es fs : Pairs)
          → Entries es
          → Entries fs
          → Adds value op_value compare compare-means false
              (some fs)
              (or_orexpr_orexpr compare shallower es fs)
              (fold value op_value false es)
      or_maps-Adds es fs e f =
          let there =
            update_all-Adds value op_value compare compare-means false (or_update compare)
              (or_update-Adds value op_value compare compare-means) in
          elim (Bool-cases (shallower fs es)) [
            | inl x ↦
                let (m, q) = there fs (some es) f e in
                rw (or_orexpr_orexpr, x)
                  (
                    m,
                    q
                        ∙ comb_comm false (fold value op_value false fs)
                            (fold value op_value false es),
                  )
            | inr x ↦ rw (or_orexpr_orexpr, x) (there es (some fs) e f)
          ]

      and_other :
          (es : Option Pairs) (a : Expr)
          → Map es
          → Canonical a
          → Signed a false
          → Adds value op_value compare compare-means true es
              (and_update compare es a false)
              (eval value op_value a)
      and_other es a m c s =
          update_pair-Adds value op_value compare compare-means true es a false m c s

      -- `and_insert` into the empty map.
      and_first :
          (a : Expr)
          → Canonical a
          → Signed a false
          → Adds value op_value compare compare-means true
              (some empty)
              (some (insert_pair compare a false empty))
              (eval value op_value a)
      unfolding insert_pair
      and_first a c s = ((c, s, tt), refl)

      or_other :
          (es : Option Pairs) (a : Expr)
          → Map es
          → Canonical a
          → OrParts value op_value other_tag a
          → Adds value op_value compare compare-means false es
              (or_update compare es a false)
              (eval value op_value a)
      or_other es a m ca (c, s, e) =
          let (k, n) = expr_getnotfactor a in
          let (m', w) =
            update_pair-Adds value op_value compare compare-means false es k (xor n false) m c
              (subst (Signed k) (sym (xor-false n)) s) in
          (
            m',
            w
                ∙ ap (λ x. comb false x (fold? value op_value false es))
                    (ap (λ x. xor x (eval value op_value k)) (xor-false n) ∙ e),
          )

      -- `expr_and` of canonical expressions is canonical, and true where both are, in a valuation that
      -- gives all expressions that `compare` takes for equal the same truth value.
      pub expr_and-Means :
          (a b : Expr)
          → Canonical a
          → Canonical b
          → Means value op_value
              (expr_and compare shallower a b)
              (eval value op_value a && eval value op_value b)
      unfolding expr_and
      expr_and-Means a b ca cb =
          let pa = and_tag-AndParts value op_value a ca in
          let pb = and_tag-AndParts value op_value b cb in
          let va = eval value op_value a in
          let vb = eval value op_value b in
          elim (Tag-cases (and_tag a)) [
            | inl (es, ea) ↦
                let (e, q) = subst (λ t. AndParts value op_value t a) ea pa in
                elim (Tag-cases (and_tag b)) [
                  | inl (fs, eb) ↦
                      let (f, r) = subst (λ t. AndParts value op_value t b) eb pb in
                      let (m, w) = and_maps-Adds es fs e f in
                      rw (expr_and, ea, eb)
                        (and_result value op_value compare compare-means
                          (and_andexpr_andexpr compare shallower es fs) (va && vb) m (rw (q, r) w))
                  | inr (inl (c, eb)) ↦
                      rw (expr_and, ea, eb)
                        (and_bool value op_value compare compare-means a b c ca cb
                          (subst (λ t. AndParts value op_value t b) eb pb))
                  | inr (inr eb) ↦
                      let (m, w) =
                        and_other (some es) b e cb
                          (subst (λ t. AndParts value op_value t b) eb pb) in
                      rw (expr_and, ea, eb)
                        (Means-comb_comm value op_value compare compare-means true
                          (and_to_expr (and_update compare (some es) b false)) vb va
                          (and_result value op_value compare compare-means
                            (and_update compare (some es) b false) (vb && va) m
                            (w ∙ ap (comb true vb) (sym q))))
                ]
            | inr (inl (c, ea)) ↦
                rw (expr_and, ea)
                  (Means-comb_comm value op_value compare compare-means true
                    (elim c [ true ↦ b | false ↦ a ]) vb va
                    (and_bool value op_value compare compare-means b a c cb ca
                      (subst (λ t. AndParts value op_value t a) ea pa)))
            | inr (inr ea) ↦
                let s = subst (λ t. AndParts value op_value t a) ea pa in
                elim (Tag-cases (and_tag b)) [
                  | inl (fs, eb) ↦
                      let (f, r) = subst (λ t. AndParts value op_value t b) eb pb in
                      let (m, w) = and_other (some fs) a f ca s in
                      rw (expr_and, ea, eb)
                        (and_result value op_value compare compare-means
                          (and_update compare (some fs) a false) (va && vb) m
                          (w ∙ ap (comb true va) (sym r)))
                  | inr (inl (c, eb)) ↦
                      rw (expr_and, ea, eb)
                        (and_bool value op_value compare compare-means a b c ca cb
                          (subst (λ t. AndParts value op_value t b) eb pb))
                  | inr (inr eb) ↦
                      let (m1, w1) = and_first a ca s in
                      let first = some (insert_pair compare a false empty) in
                      let (m, w) =
                        and_other (some (insert_pair compare a false empty)) b m1 cb
                          (subst (λ t. AndParts value op_value t b) eb pb) in
                      rw (expr_and, ea, eb)
                        (Means-comb_comm value op_value compare compare-means true
                          (and_to_expr (and_update compare first b false)) vb va
                          (and_result value op_value compare compare-means
                            (and_update compare first b false) (vb && va) m
                            (w ∙ ap (comb true vb) (w1 ∙ comb_unit true va))))
                ]
          ]

      -- `expr_or` of canonical expressions is canonical, and true where one of them is, in a valuation that
      -- gives all expressions that `compare` takes for equal the same truth value.
      pub expr_or-Means :
          (a b : Expr)
          → Canonical a
          → Canonical b
          → Means value op_value
              (expr_or compare shallower a b)
              (eval value op_value a || eval value op_value b)
      unfolding expr_or
      expr_or-Means a b ca cb =
          let pa = or_tag-OrParts value op_value a ca in
          let pb = or_tag-OrParts value op_value b cb in
          let va = eval value op_value a in
          let vb = eval value op_value b in
          elim (Tag-cases (or_tag a)) [
            | inl (es, ea) ↦
                let (e, q) = subst (λ t. OrParts value op_value t a) ea pa in
                elim (Tag-cases (or_tag b)) [
                  | inl (fs, eb) ↦
                      let (f, r) = subst (λ t. OrParts value op_value t b) eb pb in
                      let (m, w) = or_maps-Adds es fs e f in
                      rw (expr_or, ea, eb)
                        (or_result value op_value compare compare-means
                          (or_orexpr_orexpr compare shallower es fs) (va || vb) m (rw (q, r) w))
                  | inr (inl (c, eb)) ↦
                      rw (expr_or, ea, eb)
                        (or_bool value op_value compare compare-means a b c ca cb
                          (subst (λ t. OrParts value op_value t b) eb pb))
                  | inr (inr eb) ↦
                      let (m, w) =
                        or_other (some es) b e cb (subst (λ t. OrParts value op_value t b) eb pb) in
                      rw (expr_or, ea, eb)
                        (Means-comb_comm value op_value compare compare-means false
                          (or_to_expr (or_update compare (some es) b false)) vb va
                          (or_result value op_value compare compare-means
                            (or_update compare (some es) b false) (vb || va) m
                            (w ∙ ap (comb false vb) (sym q))))
                ]
            | inr (inl (c, ea)) ↦
                rw (expr_or, ea)
                  (Means-comb_comm value op_value compare compare-means false
                    (elim c [ true ↦ a | false ↦ b ]) vb va
                    (or_bool value op_value compare compare-means b a c cb ca
                      (subst (λ t. OrParts value op_value t a) ea pa)))
            | inr (inr ea) ↦
                let s = subst (λ t. OrParts value op_value t a) ea pa in
                elim (Tag-cases (or_tag b)) [
                  | inl (fs, eb) ↦
                      let (f, r) = subst (λ t. OrParts value op_value t b) eb pb in
                      let (m, w) = or_other (some fs) a f ca s in
                      rw (expr_or, ea, eb)
                        (or_result value op_value compare compare-means
                          (or_update compare (some fs) a false) (va || vb) m
                          (w ∙ ap (comb false va) (sym r)))
                  | inr (inl (c, eb)) ↦
                      rw (expr_or, ea, eb)
                        (or_bool value op_value compare compare-means a b c ca cb
                          (subst (λ t. OrParts value op_value t b) eb pb))
                  | inr (inr eb) ↦
                      let (m1, w1) = or_other (some empty) a tt ca s in
                      let first = or_update compare (some empty) a false in
                      let (m, w) =
                        or_other (or_update compare (some empty) a false) b m1 cb
                          (subst (λ t. OrParts value op_value t b) eb pb) in
                      rw (expr_or, ea, eb)
                        (Means-comb_comm value op_value compare compare-means false
                          (or_to_expr (or_update compare first b false)) vb va
                          (or_result value op_value compare compare-means
                            (or_update compare first b false) (vb || va) m
                            (w ∙ ap (comb false vb) (w1 ∙ comb_unit false va))))
                ]
          ]
