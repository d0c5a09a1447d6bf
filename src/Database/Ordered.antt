-- ===== src/Database/Ordered.antt =====
-- Rows in a strict order: the set of the rows fixes their list, and a row parts it in two.
use back_end.Prelude.{
  Bool, true, false, List, [], ◌∷◌, ◌++◌, ◌≡◌, ◌↔◌, inl, inr, arith, refl, sym, ◌∙◌, subst,
}
use back_end.Database.Rows.{Contains, IsOrdered}
use back_end.Database.Lists.{append-Contains}

module _ {Row : Type 0} (before : Row → Row → Bool) (irreflexive : (a : Row) → before a a ≡ false)
    (transitive : (a b c : Row) → before a b ≡ true → before b c ≡ true → before a c ≡ true) where
  not_both : (a b : Row) → before a b ≡ true → before b a ≡ true → ⊥
  not_both a b h k = ground (arith, transitive a b a h k, irreflexive a)

  not_itself : (a r : Row) → r ≡ a → before a r ≡ true → ⊥
  not_itself a r e h = ground (arith, subst (λ z. before a z ≡ true) e h, irreflexive a)

  -- Two ordered lists of the same rows are one list.
  pub ordered_unique :
      (s t : List Row)
      → IsOrdered before s
      → IsOrdered before t
      → ((r : Row) → Contains r s ↔ Contains r t)
      → s ≡ t
  ordered_unique [] [] o q h = refl
  ordered_unique [] (b ∷ t) o q h = absurd ((h b).1 (inl refl))
  ordered_unique (a ∷ s) [] o q h = absurd ((h a).0 (inl refl))
  ordered_unique (a ∷ s) (b ∷ t) (f, o) (g, q) h =
      let e : a ≡ b = elim ((h a).0 (inl refl)) [
        | inl e ↦ e
        | inr c ↦ elim ((h b).1 (inl refl)) [
          | inl e ↦ sym e
          | inr d ↦ absurd (not_both a b (f b d) (g a c))
        ]
      ] in
      cc (
        e,
        ordered_unique s t o q (λ r. (
          λ c. elim ((h r).0 (inr c)) [
            | inl i ↦ absurd (not_itself a r (i ∙ sym e) (f r c))
            | inr d ↦ d
          ],
          λ c. elim ((h r).1 (inr c)) [
            | inl i ↦ absurd (not_itself b r (i ∙ e) (g r c))
            | inr d ↦ d
          ],
        )),
      )

  -- What stands after a row is what it stands before.
  pub rest_is_after :
      (xs : List Row) (r : Row) (ys : List Row) (x : Row)
      → IsOrdered before (xs ++ r ∷ ys)
      → Contains x ys ↔ (Contains x (xs ++ r ∷ ys) × (before r x ≡ true))
  rest_is_after [] r ys x (f, o) = (
    λ c. (inr c, f x c),
    λ (c, h). elim c [ inl e ↦ absurd (ground (arith, e, h, irreflexive r)) | inr d ↦ d ],
  )
  rest_is_after (y ∷ xs) r ys x (f, o) = (
    λ c. let (d, h) = (rest_is_after xs r ys x o).0 c in (inr d, h),
    λ (c, h). elim c [
      | inl e ↦ absurd (
          not_both y r (f r ((append-Contains xs (r ∷ ys) r).1 (inr (inl refl))))
            (subst (λ z. before r z ≡ true) e h))
      | inr d ↦ (rest_is_after xs r ys x o).1 (d, h)
    ],
  )

  pub rest-IsOrdered :
      (xs : List Row) (r : Row) (ys : List Row)
      → IsOrdered before (xs ++ r ∷ ys)
      → IsOrdered before ys
  rest-IsOrdered [] r ys (f, o) = o
  rest-IsOrdered (y ∷ xs) r ys (f, o) = rest-IsOrdered xs r ys o
