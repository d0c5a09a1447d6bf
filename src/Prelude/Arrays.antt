-- ===== src/Prelude/Arrays.antt =====
-- The array methods of the language that the program calls, and their laws.
use Prim.Native.Nat.{ℕ, zero, suc}
use mathlib.Core.Bool.{Bool, true, false}
use mathlib.Core.Option.{Option, none, some}
use mathlib.Core.List.{List, [], ◌∷◌}
use back_end.Prelude.Tests.{if◌then◌else◌}

module _ {ℓ} {A : Type ℓ} where
  -- `find`
  abbrev pub array_find : (A → Bool) → List A → Option A
  array_find p [] = none
  array_find p (x ∷ xs) = if p x then some x else array_find p xs

  -- `some`
  abbrev pub array_some : (A → Bool) → List A → Bool
  array_some p [] = false
  array_some p (x ∷ xs) = if p x then true else array_some p xs

  -- `every`
  abbrev pub array_every : (A → Bool) → List A → Bool
  array_every p [] = true
  array_every p (x ∷ xs) = if p x then array_every p xs else false

  -- `length`
  abbrev pub length : List A → ℕ
  length [] = 0
  length (x ∷ xs) = suc (length xs)

  -- `filter`
  abbrev pub array_filter : (A → Bool) → List A → List A
  array_filter p [] = []
  array_filter p (x ∷ xs) = let rest = array_filter p xs in if p x then x ∷ rest else rest

  -- `sort`, which is stable; the first test says that a value stands before another.
  abbrev pub sort_in : (A → A → Bool) → A → List A → List A
  sort_in before x [] = x ∷ []
  sort_in before x (y ∷ ys) =
      let rest = sort_in before x ys in if before y x then y ∷ rest else x ∷ y ∷ ys

  abbrev pub array_sort : (A → A → Bool) → List A → List A
  array_sort before [] = []
  array_sort before (x ∷ xs) = sort_in before x (array_sort before xs)

  -- `slice(0, n)`, and the limit of a query
  abbrev pub take : ℕ → List A → List A
  take zero xs = []
  take (suc n) [] = []
  take (suc n) (x ∷ xs) = x ∷ take n xs

  -- `at(-1)`
  abbrev pub last : List A → Option A
  last [] = none
  last (x ∷ []) = some x
  last (x ∷ y ∷ ys) = last (y ∷ ys)

-- `value ?? other`
abbrev pub option_get {ℓ} : {A : Type ℓ} → Option A → A → A
option_get none other = other
option_get (some a) other = a

-- `value?.field ?? null`
abbrev pub option_map {ℓ κ} : {A : Type ℓ} {B : Type κ} → (A → B) → Option A → Option B
option_map f none = none
option_map f (some a) = some (f a)

abbrev pub is_some {ℓ} : {A : Type ℓ} → Option A → Bool
is_some none = false
is_some (some a) = true
