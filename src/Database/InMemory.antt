-- ===== src/Database/InMemory.antt =====
-- A mapper over lists that has every law of `Orm`: the laws can be met, and tests run on it.
use back_end.Prelude.{
  ℕ, ◌+◌, ◌≤◌, Bool, true, false, not, ◌&&◌, List, [], ◌∷◌, Option, none, some, ◌≡◌, ◌≢◌, ◌⊎◌, inl,
  inr, ◌==◌, leb, if◌then◌else◌, arith, refl, Option-cases,
}
use back_end.Database.Rows.{Entity, Contains, count_if, sum_if, max_if}
use back_end.Database.Orm.{Orm}
use back_end.Database.Sorting.{
  rows_find_ordered, find_ordered_iff_to, find_ordered_iff_from, rows_in_order,
}

module _ {Row : Type 0} where
  abbrev pub rows_find_one : (Row → Bool) → List Row → Option Row
  rows_find_one p [] = none
  rows_find_one p (r ∷ t) = if p r then some r else rows_find_one p t

  -- the later of a row and the best one of the rest
  abbrev better : (Row → ℕ) → Row → Option Row → Option Row
  better by r none = some r
  better by r (some s) = if leb (by s) (by r) then some r else some s

  abbrev pub rows_find_latest : (Row → ℕ) → (Row → Bool) → List Row → Option Row
  rows_find_latest by p [] = none
  rows_find_latest by p (r ∷ t) =
      let rest = rows_find_latest by p t in if p r then better by r rest else rest

  abbrev pub rows_find : (Row → Bool) → List Row → List Row
  rows_find p [] = []
  rows_find p (r ∷ t) = let rest = rows_find p t in if p r then r ∷ rest else rest

  abbrev pub rows_add : Row → List Row → List Row
  rows_add r [] = r ∷ []
  rows_add r (s ∷ t) = s ∷ rows_add r t

  abbrev pub rows_save : ⦃e : Entity Row⦄ → Row → List Row → List Row
  rows_save ⦃e⦄ r t = rows_add r (rows_find (λ s. not (e.key s == e.key r)) t)

  abbrev pub rows_update : (Row → Bool) → (Row → Row) → List Row → List Row
  rows_update p f [] = []
  rows_update p f (r ∷ t) = (if p r then f r else r) ∷ rows_update p f t

  pub find_one_sound :
      (p : Row → Bool) (t : List Row) (r : Row)
      → rows_find_one p t ≡ some r
      → (p r ≡ true) × Contains r t
  find_one_sound p [] r h = ground arith
  find_one_sound p (s ∷ t) r h = ground (arith, find_one_sound p t r)

  pub find_one_complete :
      (p : Row → Bool) (t : List Row) (r : Row)
      → rows_find_one p t ≡ none
      → Contains r t
      → p r ≡ false
  find_one_complete p [] r h c = elim c [ ]
  find_one_complete p (s ∷ t) r h (inl e) = ground arith
  find_one_complete p (s ∷ t) r h (inr c) = ground (arith, find_one_complete p t r)

  pub find_latest_complete :
      (by : Row → ℕ) (p : Row → Bool) (t : List Row) (r : Row)
      → rows_find_latest by p t ≡ none
      → Contains r t
      → p r ≡ false
  find_latest_complete by p [] r h c = elim c [ ]
  find_latest_complete by p (s ∷ t) r h (inl e) = ground arith
  find_latest_complete by p (s ∷ t) r h (inr c) = ground (arith, find_latest_complete by p t r)

  pub find_latest_sound :
      (by : Row → ℕ) (p : Row → Bool) (t : List Row) (r : Row)
      → rows_find_latest by p t ≡ some r
      → (p r ≡ true) × Contains r t
  find_latest_sound by p [] r h = ground arith
  find_latest_sound by p (s ∷ t) r h = ground (arith, find_latest_sound by p t r)

  pub find_latest_max :
      (by : Row → ℕ) (p : Row → Bool) (t : List Row) (r s : Row)
      → rows_find_latest by p t ≡ some r
      → Contains s t
      → p s ≡ true
      → by s ≤ by r
  find_latest_max by p [] r s h c q = elim c [ ]
  find_latest_max by p (x ∷ t) r s h (inl e) q = ground arith
  find_latest_max by p (x ∷ t) r s h (inr c) q = elim (Option-cases (rows_find_latest by p t)) [
    | inl e ↦ ground (arith, find_latest_complete by p t s e c)
    | inr (b, e) ↦ ground (arith, find_latest_max by p t b s e c q)
  ]

  pub find_iff_to :
      (p : Row → Bool) (t : List Row) (r : Row)
      → Contains r (rows_find p t)
      → Contains r t × (p r ≡ true)
  find_iff_to p [] r h = absurd h
  find_iff_to p (s ∷ t) r h = ground (arith, find_iff_to p t r)

  pub find_iff_from :
      (p : Row → Bool) (t : List Row) (r : Row)
      → Contains r t
      → p r ≡ true
      → Contains r (rows_find p t)
  find_iff_from p [] r c q = elim c [ ]
  find_iff_from p (s ∷ t) r (inl e) q = ground arith
  find_iff_from p (s ∷ t) r (inr c) q = ground (arith, find_iff_from p t r c)

  pub add_iff_to :
      (r : Row) (t : List Row) (s : Row) → Contains s (rows_add r t) → (s ≡ r) ⊎ Contains s t
  add_iff_to r [] s h = ground arith
  add_iff_to r (x ∷ t) s h = ground (arith, add_iff_to r t s)

  pub add_iff_from :
      (r : Row) (t : List Row) (s : Row) → (s ≡ r) ⊎ Contains s t → Contains s (rows_add r t)
  add_iff_from r [] s h = ground arith
  add_iff_from r (x ∷ t) s h = ground (arith, add_iff_from r t s)

  count-add :
      (p : Row → Bool) (r : Row) (t : List Row)
      → count_if p (rows_add r t) ≡ count_if p t + (if p r then 1 else 0)
  count-add p r [] = ground arith
  count-add p r (x ∷ t) = ground (arith, count-add p r t)

  count-find :
      (p q : Row → Bool) (t : List Row) → count_if p (rows_find q t) ≡ count_if (λ s. p s && q s) t
  count-find p q [] = refl
  count-find p q (x ∷ t) = ground (arith, count-find p q t)

  sum-add :
      (by : Row → ℕ) (p : Row → Bool) (r : Row) (t : List Row)
      → sum_if by p (rows_add r t) ≡ sum_if by p t + (if p r then by r else 0)
  sum-add by p r [] = ground arith
  sum-add by p r (x ∷ t) = ground (arith, sum-add by p r t)

  sum-find :
      (by : Row → ℕ) (p q : Row → Bool) (t : List Row)
      → sum_if by p (rows_find q t) ≡ sum_if by (λ s. p s && q s) t
  sum-find by p q [] = refl
  sum-find by p q (x ∷ t) = ground (arith, sum-find by p q t)

  pub update_sound :
      (p : Row → Bool) (f : Row → Row) (t : List Row) (s : Row)
      → Contains s (rows_update p f t)
      → (r : Row) × Contains r t × (s ≡ (if p r then f r else r))
  update_sound p f [] s c = elim c [ ]
  update_sound p f (x ∷ t) s (inl e) = (x, inl refl, e)
  update_sound p f (x ∷ t) s (inr c) = let (r, m, e) = update_sound p f t s c in (r, inr m, e)

  pub update_complete :
      (p : Row → Bool) (f : Row → Row) (t : List Row) (r : Row)
      → Contains r t
      → Contains (if p r then f r else r) (rows_update p f t)
  update_complete p f [] r c = elim c [ ]
  update_complete p f (x ∷ t) r (inl e) = ground arith
  update_complete p f (x ∷ t) r (inr c) = inr (update_complete p f t r c)

  module _ ⦃e : Entity Row⦄ where
    pub save_other :
        (r : Row) (t : List Row) (s : Row) → Contains s (rows_save r t) → (s ≡ r) ⊎ Contains s t
    save_other r t s h = elim (add_iff_to r _ s h) [
      | inl same ↦ inl same
      | inr c ↦ inr (find_iff_to _ t s c).0
    ]

    pub save_only :
        (r : Row) (t : List Row) (s : Row) → Contains s (rows_save r t) → e.key s ≡ e.key r → s ≡ r
    save_only r t s h k = elim (add_iff_to r _ s h) [
      | inl same ↦ same
      | inr c ↦ let (_, q) = find_iff_to (λ x. not (e.key x == e.key r)) t s c in ground arith
    ]

    pub save_keeps :
        (r : Row) (t : List Row) (s : Row)
        → e.key s ≢ e.key r
        → Contains s t
        → Contains s (rows_save r t)
    save_keeps r t s ne c =
        add_iff_from r _ s
          (inr (find_iff_from (λ x. not (e.key x == e.key r)) t s c (ground arith)))

    pub save_count :
        (p : Row → Bool) (r : Row) (t : List Row)
        → count_if p (rows_save r t)
          ≡ count_if (λ s. p s && not (e.key s == e.key r)) t + (if p r then 1 else 0)
    save_count p r t = rw (count-add p r, count-find p) refl

    pub save_sum :
        (by : Row → ℕ) (p : Row → Bool) (r : Row) (t : List Row)
        → sum_if by p (rows_save r t)
          ≡ sum_if by (λ s. p s && not (e.key s == e.key r)) t + (if p r then by r else 0)
    save_sum by p r t = rw (sum-add by p r, sum-find by p) refl

-- The mapper that the tests run on.
abbrev pub in_memory : Orm
in_memory = record {
  find_one = rows_find_one;
  find_latest = rows_find_latest;
  find = rows_find;
  find_ordered = rows_find_ordered;
  count = count_if;
  sum = sum_if;
  max = max_if;
  save = rows_save;
  insert = rows_add;
  update = rows_update;
  find_one_sound = find_one_sound;
  find_one_complete = find_one_complete;
  find_latest_sound = find_latest_sound;
  find_latest_max = find_latest_max;
  find_latest_complete = find_latest_complete;
  find_iff = λ p t r. (find_iff_to p t r, λ h. find_iff_from p t r h.0 h.1);
  find_ordered_iff =
      λ b p t r. (find_ordered_iff_to b p t r, λ h. find_ordered_iff_from b p t r h.0 h.1);
  rows_in_order = rows_in_order;
  count_lem = λ p t. refl;
  sum_lem = λ by p t. refl;
  max_lem = λ by p t. refl;
  save_sum = save_sum;
  save_self = λ r t. add_iff_from r _ r (inl refl);
  save_other = save_other;
  save_only = save_only;
  save_keeps = save_keeps;
  save_count = save_count;
  insert_iff = λ r t s. (add_iff_to r t s, add_iff_from r t s);
  update_sound = update_sound;
  update_complete = update_complete;
}
