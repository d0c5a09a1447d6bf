-- ===== src/Database/Sorting.antt =====
-- A table in order, as the mapper over lists finds it: each row that passes is put in its place.
use back_end.Prelude.{
  Bool, true, List, [], ◌∷◌, ◌≡◌, ◌≢◌, ◌⊎◌, inl, inr, ◌==◌, if◌then◌else◌, arith, refl, Bool-cases,
}
use back_end.Database.Rows.{Entity, Contains, Every, HasUniqueKeys, IsOrder, IsOrdered}
use back_end.Database.Counting.{count_pos}

module _ {Row : Type 0} where
  abbrev rows_put : (Row → Row → Bool) → Row → List Row → List Row
  rows_put before r [] = r ∷ []
  rows_put before r (s ∷ t) =
      let rest = rows_put before r t in if before s r then s ∷ rest else r ∷ s ∷ t

  abbrev pub rows_find_ordered : (Row → Row → Bool) → (Row → Bool) → List Row → List Row
  rows_find_ordered before p [] = []
  rows_find_ordered before p (r ∷ t) =
      let rest = rows_find_ordered before p t in if p r then rows_put before r rest else rest

  put_iff_to :
      (before : Row → Row → Bool) (r : Row) (t : List Row) (s : Row)
      → Contains s (rows_put before r t)
      → (s ≡ r) ⊎ Contains s t
  put_iff_to before r [] s h = ground arith
  put_iff_to before r (x ∷ t) s h = ground (arith, put_iff_to before r t s)

  put_iff_from :
      (before : Row → Row → Bool) (r : Row) (t : List Row) (s : Row)
      → (s ≡ r) ⊎ Contains s t
      → Contains s (rows_put before r t)
  put_iff_from before r [] s h = ground arith
  put_iff_from before r (x ∷ t) s h = ground (arith, put_iff_from before r t s)

  pub find_ordered_iff_to :
      (before : Row → Row → Bool) (p : Row → Bool) (t : List Row) (r : Row)
      → Contains r (rows_find_ordered before p t)
      → Contains r t × (p r ≡ true)
  find_ordered_iff_to before p [] r h = absurd h
  find_ordered_iff_to before p (s ∷ t) r h = ground (
    arith,
    find_ordered_iff_to before p t r,
    put_iff_to before s (rows_find_ordered before p t) r,
  )

  pub find_ordered_iff_from :
      (before : Row → Row → Bool) (p : Row → Bool) (t : List Row) (r : Row)
      → Contains r t
      → p r ≡ true
      → Contains r (rows_find_ordered before p t)
  find_ordered_iff_from before p [] r c q = elim c [ ]
  find_ordered_iff_from before p (s ∷ t) r (inl e) q =
      ground (arith, put_iff_from before s (rows_find_ordered before p t) r)
  find_ordered_iff_from before p (s ∷ t) r (inr c) q = ground (
    arith,
    find_ordered_iff_from before p t r c q,
    put_iff_from before s (rows_find_ordered before p t) r,
  )

  -- The first row's key is no other row's.
  head_is_unique :
      ⦃e : Entity Row⦄ (r : Row) (t : List Row)
      → HasUniqueKeys (r ∷ t)
      → HasUniqueKeys t × Every (λ s. e.key s ≢ e.key r) t
  head_is_unique ⦃e⦄ r t u = (
    λ k. ground (arith, u k),
    λ s c q. ground (arith, u (e.key r), count_pos (λ s. e.key s == e.key r) s t c (ground arith)),
  )

  put-IsOrdered :
      ⦃e : Entity Row⦄ (before : Row → Row → Bool) (r : Row) (t : List Row)
      → IsOrder before
      → Every (λ s. e.key s ≢ e.key r) t
      → IsOrdered before t
      → IsOrdered before (rows_put before r t)
  put-IsOrdered before r [] o n h = ((λ s c. absurd c), tt)
  put-IsOrdered before r (x ∷ t) o n (a, h) = elim (Bool-cases (before x r)) [
    | inl q ↦
        let rest = put-IsOrdered before r t o (λ s c. n s (inr c)) h in
        rw (q)
          ((λ s c. elim (put_iff_to before r t s c) [ inl i ↦ rw (i) q | inr d ↦ a s d ]), rest)
    | inr q ↦
        let first : before r x ≡ true = elim (o.1 x r (n x (inl refl))) [
          | inl y ↦ ground arith
          | inr y ↦ y
        ] in
        rw (q) ((λ s c. elim c [ inl i ↦ rw (i) first | inr d ↦ o.0 r x s first (a s d) ]), (a, h))
  ]

  pub rows_in_order :
      ⦃e : Entity Row⦄ (before : Row → Row → Bool) (p : Row → Bool) (t : List Row)
      → IsOrder before
      → HasUniqueKeys t
      → IsOrdered before (rows_find_ordered before p t)
  rows_in_order before p [] o u = tt
  rows_in_order before p (r ∷ t) o u =
      let (v, n) = head_is_unique r t u in
      let rest = rows_in_order before p t o v in
      elim (Bool-cases (p r)) [
        | inl q ↦
            rw (q)
              (put-IsOrdered before r _ o (λ s c. n s (find_ordered_iff_to before p t s c).0) rest)
        | inr q ↦ rw (q) rest
      ]
