-- ===== src/Export/Fields/Csv.antt =====
-- A reader of CSV by the rules of RFC 4180, and the fields of src/export.rs read back by it.
use dbotter.Prelude.{
  ℕ, ◌≡◌, Bool, true, false, inl, inr, List, [], ◌∷◌, ◌++◌, arith, any, is_empty, ◌==◌, ◌&&◌, ◌||◌,
  not, Option, none, some, if◌then◌else◌, Bool-cases,
}
use mathlib.Core.List.{append_assoc, append-nil}
use dbotter.Text.{Text}
use dbotter.Export.Fields.{needs_quotes, double_quotes, csv_field}

pub data Mode : Type 0 where
  -- Outside quotes, within them, behind a quote within them, behind a carriage return outside them.
  plain quoted seen ended : Mode

pub record Reader : Type 0 where
  pub mode : Mode
  pub field : Text
  pub row : List Text

abbrev pub reader : Mode → Text → List Text → Reader
reader m f r = record { mode = m; field = f; row = r }

abbrev pub end_or : Reader → ℕ → Reader → Reader
end_or s c other =
    if c == b','
    then reader plain [] (s.row ++ s.field ∷ [])
    else if c == 13
    then reader ended s.field s.row
    else other

-- One character, outside the end of a line.
abbrev pub read_character : Mode → Text → List Text → ℕ → Reader
read_character plain f r c =
    end_or (reader plain f r) c
      (if c == b'"' then reader quoted [] r else reader plain (f ++ c ∷ []) r)
read_character quoted f r c = if c == b'"' then reader seen f r else reader quoted (f ++ c ∷ []) r
read_character seen f r c = end_or (reader seen f r) c (reader quoted (f ++ c ∷ []) r)
read_character ended f r c = reader plain [] []

-- What a document may not have: outside quotes a line feed, and a quote behind the beginning of a
-- field; text behind a closing quote; a carriage return outside quotes with no line feed behind it.
abbrev pub refused : Mode → Text → ℕ → Bool
refused plain f c = c == 10 || (c == b'"' && not (is_empty f))
refused quoted f c = false
refused seen f c = not (c == b'"' || (c == b',' || c == 13))
refused ended f c = not (c == 10)

-- A document may end in front of a row, or behind its last field.
abbrev pub at_end : Mode → Text → List Text → Option (List (List Text))
at_end plain [] [] = some []
at_end plain f r = some ((r ++ f ∷ []) ∷ [])
at_end seen f r = some ((r ++ f ∷ []) ∷ [])
at_end quoted f r = none
at_end ended f r = none

abbrev pub row_before : List Text → Option (List (List Text)) → Option (List (List Text))
row_before row none = none
row_before row (some rows) = some (row ∷ rows)

-- The row that a character completes.
abbrev pub completed : Mode → ℕ → Bool
completed ended c = c == 10
completed _ c = false

-- The rows of a document, if it is one.
unfoldable pub read_csv : Reader → Text → Option (List (List Text))
read_csv s [] = at_end s.mode s.field s.row
read_csv s (c ∷ cs) =
    let rest = read_csv (read_character s.mode s.field s.row c) cs in
    if refused s.mode s.field c
    then none
    else if completed s.mode c
    then row_before (s.row ++ s.field ∷ []) rest
    else rest

module _ (r : List Text) where
  -- A run without separators or quotes goes into the field.
  read-plain :
      (f s t : Text)
      → any needs_quotes s ≡ false
      → read_csv (reader plain f r) (s ++ t) ≡ read_csv (reader plain (f ++ s) r) t
  unfolding read_csv
  read-plain f [] t h = rw append-nil
  read-plain f (c ∷ s) t h = ground (arith, read-plain (f ++ c ∷ []) s t, append_assoc f (c ∷ []) s)

  -- Doubled quotes are read back up to the closing one.
  read-quoted :
      (f s t : Text)
      → read_csv (reader quoted f r) (double_quotes s ++ (b'"' ∷ t))
        ≡ read_csv (reader seen (f ++ s) r) t
  unfolding read_csv double_quotes
  read-quoted f [] t = rw append-nil
  read-quoted f (c ∷ s) t = ground (arith, read-quoted (f ++ c ∷ []) s t, append_assoc f (c ∷ []) s)

  quoted_field :
      (s : Text)
      → any needs_quotes s ≡ true
      → (t : Text) → read_csv (reader plain [] r) (csv_field s ++ t) ≡ read_csv (reader seen s r) t
  unfolding csv_field read_csv
  quoted_field s h t = rw (h, append_assoc) (read-quoted [] s t)

  plain_field :
      (s : Text)
      → any needs_quotes s ≡ false
      → (t : Text) → read_csv (reader plain [] r) (csv_field s ++ t) ≡ read_csv (reader plain s r) t
  unfolding csv_field
  plain_field s h t = rw h (read-plain [] s t h)

  -- A field and a comma: the field joins the row.
  pub read-field_comma :
      (s t : Text)
      → read_csv (reader plain [] r) (csv_field s ++ (b',' ∷ t))
        ≡ read_csv (reader plain [] (r ++ s ∷ [])) t
  unfolding read_csv
  read-field_comma s t = elim (Bool-cases (any needs_quotes s)) [
    | inl q ↦ quoted_field s q (b',' ∷ t)
    | inr p ↦ plain_field s p (b',' ∷ t)
  ]

  -- A field and a line end: the row is complete.
  pub read-field_line :
      (s t : Text)
      → read_csv (reader plain [] r) (csv_field s ++ (13 ∷ 10 ∷ t))
        ≡ row_before (r ++ s ∷ []) (read_csv (reader plain [] []) t)
  unfolding read_csv
  read-field_line s t = elim (Bool-cases (any needs_quotes s)) [
    | inl q ↦ quoted_field s q (13 ∷ 10 ∷ t)
    | inr p ↦ plain_field s p (13 ∷ 10 ∷ t)
  ]
