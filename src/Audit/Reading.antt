-- ===== src/Audit/Reading.antt =====
-- The reader of CSV reads back what src/modules/audit/audit.service.ts writes.
use Prim.Native.Char.{Char, code}
use Prim.Native.String.{◌++◌ as ◌+++◌}
use text.Mathlib.TextLemmas.{nil-append, append-nil, cons-append, append_assoc}
use back_end.Prelude.{
  suc, String, true, false, some, List, [], ◌∷◌, map, ◌==◌, ◌≡◌, refl, sym, ap, ◌∙◌, if◌then◌else◌,
  option_map, Bool-cases, inl, inr, arith, length,
}
use back_end.Database.Json.{Json}
use back_end.Database.Entities.{Uuid, Instant}
use back_end.Audit.Reader.{
  scan, quote, comma, newline, read_field, skip, read_row, read_rows, skip_text, read_csv, ◌>>>◌,
}
use back_end.Audit.Csv.{
  StoredLog, is_quote, double_quotes, escape_csv, join, csv_header, csv_values, other_values,
  csv_line, render_csv,
}

-- What may follow a field.
abbrev IsBreak : String → Type 0
unfolding scan
IsBreak rest = scan true rest ≡ some ("", rest)

one : (c : Char) (rest : String) → String.◌∷◌ c "" +++ rest ≡ String.◌∷◌ c rest
one c rest = cons-append c "" rest ∙ ap (String.◌∷◌ c) (nil-append rest)

quote_first : (rest : String) → "\"" +++ rest ≡ String.◌∷◌ quote rest
quote_first rest = one quote rest

-- The characters of a value, read one by one.
scan_escaped :
    (v rest : String)
    → IsBreak rest
    → scan false (double_quotes v +++ String.◌∷◌ quote rest) ≡ some (v, rest)
unfolding scan double_quotes
scan_escaped String.[] rest b = ap (scan false) (nil-append (String.◌∷◌ quote rest)) ∙ b
scan_escaped (String.◌∷◌ c s) rest b =
    let tail = String.◌∷◌ quote rest in
    let more = double_quotes s in
    elim (Bool-cases (is_quote c)) [
      | inl q ↦
          ap
            (λ d.
              scan false
                ((if d then String.◌∷◌ c (String.◌∷◌ c more) else String.◌∷◌ c more) +++ tail))
            q
          ∙ ap (scan false)
              (cons-append c (String.◌∷◌ c more) tail ∙ ap (String.◌∷◌ c) (cons-append c more tail))
          ∙ twice c s (more +++ tail) rest q (scan_escaped s rest b)
      | inr n ↦
          ap
            (λ d.
              scan false
                ((if d then String.◌∷◌ c (String.◌∷◌ c more) else String.◌∷◌ c more) +++ tail))
            n
          ∙ ap (scan false) (cons-append c more tail)
          ∙ once c s (more +++ tail) rest n (scan_escaped s rest b)
    ]
  where
    twice :
        (c : Char) (s t rest : String)
        → is_quote c ≡ true
        → scan false t ≡ some (s, rest)
        → scan false (String.◌∷◌ c (String.◌∷◌ c t)) ≡ some (String.◌∷◌ c s, rest)
    twice c s t rest q h = rw (q, h) refl

    once :
        (c : Char) (s t rest : String)
        → is_quote c ≡ false
        → scan false t ≡ some (s, rest)
        → scan false (String.◌∷◌ c t) ≡ some (String.◌∷◌ c s, rest)
    once c s t rest q h = rw (q, h) refl

escape_csv_lem :
    (v rest : String)
    → escape_csv v +++ rest ≡ String.◌∷◌ quote (double_quotes v +++ String.◌∷◌ quote rest)
unfolding double_quotes
escape_csv_lem v rest =
    append_assoc "\"" (double_quotes v +++ "\"") rest
    ∙ quote_first ((double_quotes v +++ "\"") +++ rest)
    ∙ ap (String.◌∷◌ quote) (
        append_assoc (double_quotes v) "\"" rest
        ∙ ap (λ t. double_quotes v +++ t) (quote_first rest))

read_field-escape_csv :
    (v rest : String) → IsBreak rest → read_field (escape_csv v +++ rest) ≡ some (v, rest)
unfolding read_field
read_field-escape_csv v rest b = ap read_field (escape_csv_lem v rest) ∙ scan_escaped v rest b

read_row-csv_line :
    (v : String) (vs : List String) (rest : String)
    → IsBreak rest
    → read_row (length vs) (csv_line (v ∷ vs) +++ rest) ≡ some (v ∷ vs, rest)
unfolding read_row IsBreak skip
read_row-csv_line v [] rest b =
    ap (λ o. o >>> λ (p : String × String). some (p.0 ∷ [], p.1)) (read_field-escape_csv v rest b)
read_row-csv_line v (u ∷ us) rest b =
    let line = csv_line (u ∷ us) in
    let next = λ (p : String × String).
      skip comma p.1 >>> λ t. option_map (λ q. (p.0 ∷ q.0, q.1)) (read_row (length us) t) in
    ap (read_row (suc (length us))) (
      append_assoc (escape_csv v) ("," +++ line) rest
      ∙ ap (λ t. escape_csv v +++ t) (append_assoc "," line rest ∙ one comma (line +++ rest)))
    ∙ ap (λ o. o >>> next) (read_field-escape_csv v (String.◌∷◌ comma (line +++ rest)) refl)
    ∙ ap (option_map (λ q. (v ∷ q.0, q.1))) (read_row-csv_line u us rest b)

-- The lines after the header, each after its newline.
tails : List String → String
tails [] = ""
tails (x ∷ xs) = String.◌∷◌ newline (x +++ tails xs)

tails-IsBreak : (xs : List String) → IsBreak (tails xs)
unfolding tails scan
tails-IsBreak [] = refl
tails-IsBreak (x ∷ xs) = refl

join-tails : (x : String) (xs : List String) → join "\n" (x ∷ xs) ≡ x +++ tails xs
unfolding tails
join-tails x [] = sym (append-nil x)
join-tails x (y ∷ ys) =
    ap (λ t. x +++ t) (ap (λ t. "\n" +++ t) (join-tails y ys) ∙ one newline (y +++ tails ys))

skip_self : (c : Char) (s : String) → skip c (String.◌∷◌ c s) ≡ some s
unfolding skip
skip_self c s = let same : (code c == code c) ≡ true = ground arith in rw same refl

skip_text-append : (h s : String) → skip_text h (h +++ s) ≡ some s
unfolding skip_text
skip_text-append String.[] s = ap some (nil-append s)
skip_text-append (String.◌∷◌ c h) s =
    ap (λ t. skip c t >>> skip_text h) (cons-append c h s)
    ∙ ap (λ o. o >>> skip_text h) (skip_self c (h +++ s))
    ∙ skip_text-append h s

module _ (uuid_text : Uuid → String) (iso_text : Instant → String) (stringify : Json → String) where
  abbrev pub values : StoredLog → List String
  values entry = csv_values uuid_text iso_text stringify entry

  abbrev lines : List StoredLog → List String
  lines entries = map (λ entry. csv_line (values entry)) entries

  read_rows-lines :
      (entries : List StoredLog)
      → read_rows (length entries) (tails (lines entries)) ≡ some (map values entries)
  unfolding read_rows tails
  read_rows-lines [] = refl
  read_rows-lines (entry ∷ entries) =
      let more = tails (lines entries) in
      let rest = λ (p : List String × String).
        option_map (λ rows. p.0 ∷ rows) (read_rows (length entries) p.1) in
      ap (λ o. o >>> λ t. read_row 8 t >>> rest)
        (skip_self newline (csv_line (values entry) +++ more))
      ∙ ap (λ o. o >>> rest)
          (read_row-csv_line (uuid_text entry.id) (other_values uuid_text iso_text stringify entry)
            more (tails-IsBreak (lines entries)))
      ∙ ap (option_map (λ rows. values entry ∷ rows)) (read_rows-lines entries)

  -- A reader of CSV reads back from the export the nine values of every row of the audit log, in their
  -- order, whatever quotes, commas and newlines they hold.
  pub read_csv-render_csv :
      (entries : List StoredLog)
      → read_csv (length entries) (render_csv uuid_text iso_text stringify entries)
        ≡ some (map values entries)
  unfolding read_csv render_csv
  read_csv-render_csv entries =
      ap (read_csv (length entries)) (join-tails (join "," csv_header) (lines entries))
      ∙ ap (λ o. o >>> read_rows (length entries))
          (skip_text-append (join "," csv_header) (tails (lines entries)))
      ∙ read_rows-lines entries
