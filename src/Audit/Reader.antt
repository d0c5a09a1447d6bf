-- ===== src/Audit/Reader.antt =====
-- A reader of CSV, independent of the program: fields stand in quotes, a quote in a field is doubled.
use Prim.Native.Char.{Char, code}
use back_end.Prelude.{
  ℕ, zero, suc, String, Bool, true, false, Option, none, some, List, [], ◌∷◌, ◌==◌, if◌then◌else◌,
  option_map,
}
use back_end.Audit.Csv.{is_quote, join, csv_header}

-- The rest of a quoted field, after its first quote: its value, and what follows its last one. The
-- flag says that the character before was a quote that may end the field.
unfoldable pub scan : Bool → String → Option (String × String)
scan false String.[] = none
scan true String.[] = some ("", "")
scan false (String.◌∷◌ c s) =
    let inside = scan false s in
    let after_quote = scan true s in
    if is_quote c then after_quote else option_map (λ p. (String.◌∷◌ c p.0, p.1)) inside
scan true (String.◌∷◌ c s) =
    let inside = scan false s in
    if is_quote c
    then option_map (λ p. (String.◌∷◌ c p.0, p.1)) inside
    else some ("", String.◌∷◌ c s)

-- The characters of the file.
abbrev pub quote : Char
quote = "\""

abbrev pub comma : Char
comma = ","

abbrev pub newline : Char
newline = "\n"

unfoldable pub read_field : String → Option (String × String)
unfolding scan
read_field String.[] = none
read_field (String.◌∷◌ c s) = if is_quote c then scan false s else none

unfoldable pub skip : Char → String → Option String
skip c String.[] = none
skip c (String.◌∷◌ x s) = if code x == code c then some s else none

infixl 5 ◌>>>◌
abbrev pub ◌>>>◌ : {A B : Type 0} → Option A → (A → Option B) → Option B
none >>> f = none
(some a) >>> f = f a

-- A line of some more fields than one.
unfoldable pub read_row : ℕ → String → Option (List String × String)
unfolding read_field skip
read_row zero s = read_field s >>> λ p. some (p.0 ∷ [], p.1)
read_row (suc n) s =
    read_field s >>> λ p. skip comma p.1 >>> λ t. option_map (λ q. (p.0 ∷ q.0, q.1)) (read_row n t)

-- Lines of nine fields, to the end of the file.
unfoldable pub read_rows : ℕ → String → Option (List (List String))
unfolding skip read_row
read_rows zero String.[] = some []
read_rows zero (String.◌∷◌ _ _) = none
read_rows (suc k) s =
    skip newline s >>> λ t. read_row 8 t >>> λ p. option_map (λ rows. p.0 ∷ rows) (read_rows k p.1)

unfoldable pub skip_text : String → String → Option String
unfolding skip
skip_text String.[] s = some s
skip_text (String.◌∷◌ h hs) s = skip h s >>> skip_text hs

-- A file with a number of lines after its header.
unfoldable pub read_csv : ℕ → String → Option (List (List String))
unfolding skip_text read_rows
read_csv k s = skip_text (join "," csv_header) s >>> read_rows k
