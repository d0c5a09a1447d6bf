-- ===== src/Database/Lists.antt =====
-- The array methods on lists of rows: what `filter`, `some` and `find` tell of membership.
use back_end.Prelude.{
  Bool, true, false, ◌≡◌, ◌↔◌, ◌⊎◌, inl, inr, refl, List, [], ◌∷◌, ◌++◌, none, some, array_filter,
  array_some, array_find, arith, Bool-cases,
}
use back_end.Database.Rows.{Contains}

pub filter-Contains :
    {A : Type 0} (p : A → Bool) (xs : List A) (x : A)
    → Contains x (array_filter p xs) ↔ (Contains x xs × (p x ≡ true))
filter-Contains p [] x = (λ c. absurd c, λ c. absurd c.0)
filter-Contains p (y ∷ xs) x = ground (arith, filter-Contains p xs x)

pub some-find :
    {A : Type 0} (p : A → Bool) (xs : List A)
    → array_some p xs ≡ true
    → (x : A) × (array_find p xs ≡ some x)
some-find p [] h = ground (arith, h)
some-find p (x ∷ xs) h = elim (Bool-cases (p x)) [
  | inl e ↦ (x, rw e refl)
  | inr e ↦ let (y, k) = some-find p xs (ground arith) in (y, ground arith)
]

pub find-some :
    {A : Type 0} (p : A → Bool) (xs : List A) (x : A)
    → array_find p xs ≡ some x
    → array_some p xs ≡ true
find-some p [] x h = ground (arith, h)
find-some p (y ∷ xs) x h = elim (Bool-cases (p y)) [
  | inl e ↦ rw e refl
  | inr e ↦ ground (arith, find-some p xs x (ground arith))
]

pub find-none :
    {A : Type 0} (p : A → Bool) (xs : List A) (x : A)
    → array_find p xs ≡ none
    → Contains x xs
    → p x ≡ false
find-none p [] x h c = elim c [ ]
find-none p (y ∷ xs) x h (inl e) = ground arith
find-none p (y ∷ xs) x h (inr c) = ground (arith, find-none p xs x)

pub find-Contains :
    {A : Type 0} (p : A → Bool) (xs : List A) (x : A)
    → array_find p xs ≡ some x
    → Contains x xs × (p x ≡ true)
find-Contains p [] x h = ground arith
find-Contains p (y ∷ xs) x h = ground (arith, find-Contains p xs x)

pub some_iff :
    {A : Type 0} (p : A → Bool) (xs : List A)
    → (array_some p xs ≡ true) ↔ ((x : A) × Contains x xs × (p x ≡ true))
some_iff p xs = (some_to p xs, λ (x, c, h). some_from p xs x c h)
  where
    some_to :
        {A : Type 0} (p : A → Bool) (xs : List A)
        → array_some p xs ≡ true
        → (x : A) × Contains x xs × (p x ≡ true)
    some_to p [] h = ground arith
    some_to p (y ∷ xs) h = elim (Bool-cases (p y)) [
      | inl e ↦ (y, inl refl, e)
      | inr e ↦ let (x, c, k) = some_to p xs (ground arith) in (x, inr c, k)
    ]

    some_from :
        {A : Type 0} (p : A → Bool) (xs : List A) (x : A)
        → Contains x xs
        → p x ≡ true
        → array_some p xs ≡ true
    some_from p [] x c h = elim c [ ]
    some_from p (y ∷ xs) x (inl e) h = ground arith
    some_from p (y ∷ xs) x (inr c) h = ground (arith, some_from p xs x c h)

pub append-Contains :
    {A : Type 0} (xs ys : List A) (x : A) → Contains x (xs ++ ys) ↔ (Contains x xs ⊎ Contains x ys)
append-Contains [] ys x = (inr, λ h. elim h [ inl e ↦ absurd e | inr c ↦ c ])
append-Contains (y ∷ xs) ys x = ground (arith, append-Contains xs ys x)
