-- ===== src/Database/Rows.antt =====
-- The rows of a table as the laws of the mapper speak of them: a list whose order means nothing.
-- src/database, and every `Repository<...>` that the services inject.
use back_end.Prelude.{
  ℕ, suc, ◌≤◌, Bool, true, List, [], ◌∷◌, ◌≡◌, ◌≢◌, ◌⊎◌, ◌==◌, ◌+◌, ◌&&◌, leb, if◌then◌else◌,
}

-- Every row type has a primary key.
pub record Entity (Row : Type 0) : Type 0 where
  pub key : Row → ℕ

-- The row stands in the table.
abbrev pub Contains : {Row : Type 0} → Row → List Row → Type 0
Contains r [] = ⊥
Contains r (s ∷ t) = (r ≡ s) ⊎ Contains r t

-- The property holds of every row of the table.
abbrev pub Every : {Row : Type 0} → (Row → Type 0) → List Row → Type 0
Every {Row} P t = (r : Row) → Contains r t → P r

-- The number of rows that pass the test.
abbrev pub count_if : {Row : Type 0} → (Row → Bool) → List Row → ℕ
count_if p [] = 0
count_if p (r ∷ t) = let rest = count_if p t in if p r then suc rest else rest

-- `SUM` and `MAX` over the rows that pass the test, 0 where there are none.
abbrev pub sum_if : {Row : Type 0} → (Row → ℕ) → (Row → Bool) → List Row → ℕ
sum_if by p [] = 0
sum_if by p (r ∷ t) = let rest = sum_if by p t in if p r then by r + rest else rest

abbrev pub max_if : {Row : Type 0} → (Row → ℕ) → (Row → Bool) → List Row → ℕ
max_if by p [] = 0
max_if by p (r ∷ t) = let rest = max_if by p t in if p r && leb rest (by r) then by r else rest

module _ {Row : Type 0} where
  -- No two rows share a primary key.
  abbrev pub HasUniqueKeys : ⦃e : Entity Row⦄ → List Row → Type 0
  HasUniqueKeys ⦃e⦄ t = (k : ℕ) → count_if (λ s. e.key s == k) t ≤ 1

  -- A strict order on rows that tells any two of them apart.
  abbrev pub IsOrder : ⦃e : Entity Row⦄ → (Row → Row → Bool) → Type 0
  IsOrder ⦃e⦄ before =
      ((a b c : Row) → before a b ≡ true → before b c ≡ true → before a c ≡ true)
      × ((a b : Row) → e.key a ≢ e.key b → (before a b ≡ true) ⊎ (before b a ≡ true))

  -- Every row stands before all that follow it.
  abbrev pub IsOrdered : (Row → Row → Bool) → List Row → Type 0
  IsOrdered before [] = Unit
  IsOrdered before (r ∷ t) = Every (λ s. before r s ≡ true) t × IsOrdered before t
