-- ===== src/Database/Orm.antt =====
-- The object-relational mapper (the npm package typeorm over PostgreSQL) as the services use it:
-- `findOne`, `find`, `count`, `save`, `insert` and `update` of a `Repository`. It is not code of
-- this repository, so it is a parameter; its laws are what the mapper documents. The database is there and
-- takes every query and write: what a service leaves behind when one fails is not modelled.
use back_end.Prelude.{
  ℕ, ◌+◌, ◌≤◌, Bool, true, false, not, ◌&&◌, List, Option, none, some, ◌≡◌, ◌≢◌, ◌⊎◌, ◌↔◌, ◌==◌,
  if◌then◌else◌,
}
use back_end.Database.Rows.{
  Entity, Contains, count_if, sum_if, max_if, HasUniqueKeys, IsOrder, IsOrdered,
}

pub record Orm : Type 1 where
  -- `findOne({ where })`
  pub find_one : {Row : Type 0} → (Row → Bool) → List Row → Option Row
  -- `findOne({ where, order: { column: 'DESC' } })`
  pub find_latest : {Row : Type 0} → (Row → ℕ) → (Row → Bool) → List Row → Option Row
  -- `find({ where })`
  pub find : {Row : Type 0} → (Row → Bool) → List Row → List Row
  -- `find({ where, order })`: a row stands before another where the first test says so
  pub find_ordered : {Row : Type 0} → (Row → Row → Bool) → (Row → Bool) → List Row → List Row
  -- `count({ where })`
  pub count : {Row : Type 0} → (Row → Bool) → List Row → ℕ
  -- `COALESCE(SUM(column), 0)` and `COALESCE(MAX(column), 0)`
  pub sum : {Row : Type 0} → (Row → ℕ) → (Row → Bool) → List Row → ℕ
  pub max : {Row : Type 0} → (Row → ℕ) → (Row → Bool) → List Row → ℕ
  -- `save(row)`: the row with this primary key is replaced, or the row is added
  pub save : {Row : Type 0} ⦃e : Entity Row⦄ → Row → List Row → List Row
  -- `insert(row)`
  pub insert : {Row : Type 0} → Row → List Row → List Row
  -- `update(where, partial)`
  pub update : {Row : Type 0} → (Row → Bool) → (Row → Row) → List Row → List Row
  pub find_one_sound :
      {Row : Type 0} (p : Row → Bool) (t : List Row) (r : Row)
      → find_one p t ≡ some r
      → (p r ≡ true) × Contains r t
  pub find_one_complete :
      {Row : Type 0} (p : Row → Bool) (t : List Row) (r : Row)
      → find_one p t ≡ none
      → Contains r t
      → p r ≡ false
  pub find_latest_sound :
      {Row : Type 0} (by : Row → ℕ) (p : Row → Bool) (t : List Row) (r : Row)
      → find_latest by p t ≡ some r
      → (p r ≡ true) × Contains r t
  pub find_latest_max :
      {Row : Type 0} (by : Row → ℕ) (p : Row → Bool) (t : List Row) (r s : Row)
      → find_latest by p t ≡ some r
      → Contains s t
      → p s ≡ true
      → by s ≤ by r
  pub find_latest_complete :
      {Row : Type 0} (by : Row → ℕ) (p : Row → Bool) (t : List Row) (r : Row)
      → find_latest by p t ≡ none
      → Contains r t
      → p r ≡ false
  pub find_iff :
      {Row : Type 0} (p : Row → Bool) (t : List Row) (r : Row)
      → Contains r (find p t) ↔ (Contains r t × (p r ≡ true))
  pub find_ordered_iff :
      {Row : Type 0} (before : Row → Row → Bool) (p : Row → Bool) (t : List Row) (r : Row)
      → Contains r (find_ordered before p t) ↔ (Contains r t × (p r ≡ true))
  pub rows_in_order :
      {Row : Type 0} ⦃e : Entity Row⦄ (before : Row → Row → Bool) (p : Row → Bool) (t : List Row)
      → IsOrder before
      → HasUniqueKeys t
      → IsOrdered before (find_ordered before p t)
  pub count_lem : {Row : Type 0} (p : Row → Bool) (t : List Row) → count p t ≡ count_if p t
  pub sum_lem :
      {Row : Type 0} (by : Row → ℕ) (p : Row → Bool) (t : List Row) → sum by p t ≡ sum_if by p t
  pub max_lem :
      {Row : Type 0} (by : Row → ℕ) (p : Row → Bool) (t : List Row) → max by p t ≡ max_if by p t
  pub save_sum :
      {Row : Type 0} ⦃e : Entity Row⦄ (by : Row → ℕ) (p : Row → Bool) (r : Row) (t : List Row)
      → sum_if by p (save r t)
        ≡ sum_if by (λ s. p s && not (e.key s == e.key r)) t + (if p r then by r else 0)
  pub save_self : {Row : Type 0} ⦃e : Entity Row⦄ (r : Row) (t : List Row) → Contains r (save r t)
  pub save_other :
      {Row : Type 0} ⦃e : Entity Row⦄ (r : Row) (t : List Row) (s : Row)
      → Contains s (save r t)
      → (s ≡ r) ⊎ Contains s t
  pub save_only :
      {Row : Type 0} ⦃e : Entity Row⦄ (r : Row) (t : List Row) (s : Row)
      → Contains s (save r t)
      → e.key s ≡ e.key r
      → s ≡ r
  pub save_keeps :
      {Row : Type 0} ⦃e : Entity Row⦄ (r : Row) (t : List Row) (s : Row)
      → e.key s ≢ e.key r
      → Contains s t
      → Contains s (save r t)
  pub save_count :
      {Row : Type 0} ⦃e : Entity Row⦄ (p : Row → Bool) (r : Row) (t : List Row)
      → count_if p (save r t)
        ≡ count_if (λ s. p s && not (e.key s == e.key r)) t + (if p r then 1 else 0)
  pub insert_iff :
      {Row : Type 0} (r : Row) (t : List Row) (s : Row)
      → Contains s (insert r t) ↔ ((s ≡ r) ⊎ Contains s t)
  pub update_sound :
      {Row : Type 0} (p : Row → Bool) (f : Row → Row) (t : List Row) (s : Row)
      → Contains s (update p f t)
      → (r : Row) × Contains r t × (s ≡ (if p r then f r else r))
  pub update_complete :
      {Row : Type 0} (p : Row → Bool) (f : Row → Row) (t : List Row) (r : Row)
      → Contains r t
      → Contains (if p r then f r else r) (update p f t)
