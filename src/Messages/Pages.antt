-- ===== src/Messages/Pages.antt =====
-- What one page holds: all rows that are left, or the first ones and the cursor of the last of them.
use back_end.Prelude.{
  ℕ, suc, zero, ◌+◌, ◌≤◌, true, false, ◌≡◌, ◌⊎◌, ◌∙◌, inl, inr, refl, ap, List, [], ◌∷◌, ◌++◌,
  Option, none, some, ltb, length, take, last, option_map, arith,
}
use back_end.Database.Entities.{Message}
use back_end.Messages.Runtime.{Runtime}
use back_end.Messages.Pagination.{cursor_of, encode_message_cursor, get_message_page_window}

module _ {A : Type 0} where
  -- A list fits on a page, or it has a last row of the page and one more.
  pub fits_or_splits :
      (k : ℕ) (ys : List A)
      → (length ys ≤ suc k)
        ⊎ ((a : List A) × (q : A) × (z : A) × (b : List A) × (ys ≡ a ++ q ∷ z ∷ b) × (length a ≡ k))
  fits_or_splits k [] = inl (omega arith)
  fits_or_splits zero (x ∷ []) = inl (omega arith)
  fits_or_splits zero (x ∷ y ∷ ys) = inr ([], x, y, ys, refl, refl)
  fits_or_splits (suc k) (x ∷ ys) = elim (fits_or_splits k ys) [
    | inl h ↦ inl (omega (arith, h))
    | inr (a, q, z, b, e, l) ↦ inr (x ∷ a, q, z, b, ap (λ t. x ∷ t) e, ap suc l)
  ]

  take_all : (n : ℕ) (ys : List A) → length ys ≤ n → take n ys ≡ ys
  take_all zero [] h = refl
  take_all zero (x ∷ ys) h = absurd (omega (arith, h))
  take_all (suc n) [] h = refl
  take_all (suc n) (x ∷ ys) h = ap (λ t. x ∷ t) (take_all n ys (omega (arith, h)))

  take_to_next :
      (a : List A) (q z : A) (b : List A)
      → take (suc (suc (length a))) (a ++ q ∷ z ∷ b) ≡ a ++ q ∷ z ∷ []
  take_to_next [] q z b = refl
  take_to_next (x ∷ a) q z b = ap (λ t. x ∷ t) (take_to_next a q z b)

  take_to : (a : List A) (q : A) (b : List A) → take (suc (length a)) (a ++ q ∷ b) ≡ a ++ q ∷ []
  take_to [] q b = refl
  take_to (x ∷ a) q b = ap (λ t. x ∷ t) (take_to a q b)

  pub length-append : (a b : List A) → length (a ++ b) ≡ length a + length b
  length-append [] b = omega arith
  length-append (x ∷ a) b = omega (arith, length-append a b)

  last-append : (a : List A) (q : A) → last (a ++ q ∷ []) ≡ some q
  last-append [] q = refl
  last-append (x ∷ []) q = refl
  last-append (x ∷ y ∷ a) q = last-append (y ∷ a) q

module _ (rt : Runtime) where
  whole_window :
      (n : ℕ) (rows : List Message)
      → ltb n (length rows) ≡ false
      → get_message_page_window rt rows n ≡ record { items = rows; next_cursor = none }
  unfolding get_message_page_window
  whole_window n [] h = refl
  whole_window n (r ∷ rs) h = rw (h) refl

  cut_window :
      (n : ℕ) (rows : List Message)
      → ltb n (length rows) ≡ true
      → get_message_page_window rt rows n ≡ record {
        items = take n rows;
        next_cursor = option_map (λ m. encode_message_cursor rt (cursor_of m)) (last (take n rows));
      }
  unfolding get_message_page_window
  cut_window n [] h = absurd (ground (arith, h))
  cut_window n (r ∷ rs) h = rw (h) refl

  -- The page of a list that fits.
  pub last_page :
      (k : ℕ) (ys : List Message)
      → length ys ≤ suc k
      → get_message_page_window rt (take (suc (suc k)) ys) (suc k)
        ≡ record { items = ys; next_cursor = none }
  last_page k ys h =
      ap (λ t. get_message_page_window rt t (suc k)) (take_all (suc (suc k)) ys (omega (arith, h)))
      ∙ whole_window (suc k) ys (ground (arith, h))

  -- The page of a longer list.
  pub full_page :
      (a : List Message) (q z : Message) (b : List Message)
      → get_message_page_window rt (take (suc (suc (length a))) (a ++ q ∷ z ∷ b)) (suc (length a))
        ≡ record {
          items = a ++ q ∷ [];
          next_cursor = some (encode_message_cursor rt (cursor_of q));
        }
  full_page a q z b =
      ap (λ t. get_message_page_window rt t (suc (length a))) (take_to_next a q z b)
      ∙ cut_window (suc (length a)) (a ++ q ∷ z ∷ []) (ground (arith, length-append a (q ∷ z ∷ [])))
      ∙ ap
          (λ (t : List Message). record {
            items = t;
            next_cursor = option_map (λ m. encode_message_cursor rt (cursor_of m)) (last t);
          })
          (take_to a q (z ∷ []))
      ∙ ap
          (λ (o : Option Message). record {
            items = a ++ q ∷ [];
            next_cursor = option_map (λ m. encode_message_cursor rt (cursor_of m)) o;
          })
          (last-append a q)
