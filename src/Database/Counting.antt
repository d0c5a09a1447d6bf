-- ===== src/Database/Counting.antt =====
-- Counting rows: how `count({ where })` moves when one row is saved.
use back_end.Prelude.{
  ◌+◌, ◌≤◌, Bool, true, false, not, ◌&&◌, List, [], ◌∷◌, ◌≡◌, inl, inr, ◌==◌, arith, refl,
}
use back_end.Database.Rows.{Entity, Contains, count_if, HasUniqueKeys}
use back_end.Database.Orm.{Orm}

module _ {Row : Type 0} where
  pub count_pos :
      (p : Row → Bool) (r : Row) (t : List Row) → Contains r t → p r ≡ true → 1 ≤ count_if p t
  count_pos p r [] c h = elim c [ ]
  count_pos p r (x ∷ t) (inl e) h = ground arith
  count_pos p r (x ∷ t) (inr c) h = ground (arith, count_pos p r t c h)

  pub count_split :
      (p q : Row → Bool) (t : List Row)
      → count_if p t ≡ count_if (λ s. p s && q s) t + count_if (λ s. p s && not (q s)) t
  count_split p q [] = omega arith
  count_split p q (x ∷ t) = ground (arith, count_split p q t)

  pub count_and_le : (p q : Row → Bool) (t : List Row) → count_if (λ s. p s && q s) t ≤ count_if q t
  count_and_le p q [] = omega arith
  count_and_le p q (x ∷ t) = ground (arith, count_and_le p q t)

  pub count_and_comm :
      (p q : Row → Bool) (t : List Row)
      → count_if (λ s. p s && q s) t ≡ count_if (λ s. q s && p s) t
  count_and_comm p q [] = refl
  count_and_comm p q (x ∷ t) = ground (arith, count_and_comm p q t)

  pub count_and_not_le :
      (p q : Row → Bool) (r : Row) (t : List Row)
      → count_if q t ≤ 1
      → Contains r t
      → q r ≡ true
      → p r ≡ false
      → count_if (λ s. p s && q s) t ≡ 0
  count_and_not_le p q r t u c hq hp = omega (
    arith,
    count_split q p t,
    count_and_comm p q t,
    count_pos (λ s. q s && not (p s)) r t c (ground arith),
  )

  -- Saving a row loses at most one from a count, and none if the row that it replaces was not
  -- counted or the new one is.
  module _ ⦃e : Entity Row⦄ (orm : Orm) (p : Row → Bool) (r : Row) (t : List Row)
      (u : HasUniqueKeys t) where
    pub count_save_ge : count_if p t ≤ count_if p (orm.save r t) + 1
    count_save_ge = omega (
      arith,
      orm.save_count p r t,
      count_split p (λ s. e.key s == e.key r) t,
      count_and_le p (λ s. e.key s == e.key r) t,
      u (e.key r),
    )

    pub count_save_counted : p r ≡ true → count_if p t ≤ count_if p (orm.save r t)
    count_save_counted h = ground (
      arith,
      orm.save_count p r t,
      count_split p (λ s. e.key s == e.key r) t,
      count_and_le p (λ s. e.key s == e.key r) t,
      u (e.key r),
    )

    pub count_save_uncounted :
        (old : Row)
        → Contains old t
        → e.key old ≡ e.key r
        → p old ≡ false
        → count_if p t ≤ count_if p (orm.save r t)
    count_save_uncounted old c k h = omega (
      arith,
      orm.save_count p r t,
      count_split p (λ s. e.key s == e.key r) t,
      count_and_not_le p (λ s. e.key s == e.key r) old t (u (e.key r)) c (ground arith) h,
    )

module _ {Row : Type 0} ⦃e : Entity Row⦄ where
  -- Rows with one key are one row.
  pub row_is_unique :
      (t : List Row) (a b : Row)
      → HasUniqueKeys t
      → Contains a t
      → Contains b t
      → e.key a ≡ e.key b
      → a ≡ b
  row_is_unique [] a b u c d k = elim c [ ]
  row_is_unique (x ∷ t) a b u (inl c) (inl d) k = cc
  row_is_unique (x ∷ t) a b u (inl c) (inr d) k =
      ground (arith, u (e.key x), count_pos (λ s. e.key s == e.key x) b t d (ground arith))
  row_is_unique (x ∷ t) a b u (inr c) (inl d) k =
      ground (arith, u (e.key x), count_pos (λ s. e.key s == e.key x) a t c (ground arith))
  row_is_unique (x ∷ t) a b u (inr c) (inr d) k =
      row_is_unique t a b (λ i. ground (arith, u i)) c d k
