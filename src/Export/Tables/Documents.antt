-- ===== src/Export/Tables/Documents.antt =====
-- The CSV document of src/export.rs as a whole.
use dbotter.Prelude.{
  ◌≡◌, refl, ap, ◌∙◌, false, inl, inr, List, [], ◌∷◌, ◌++◌, map, length, arith, any, is_empty, ◌==◌,
  ok, err, Result, Bool-cases, ==_iff, All, ◌↔◌, some,
}
use mathlib.Core.List.{append_assoc, append-nil}
use dbotter.Text.{Text, codes}
use dbotter.Model.{Cell, Column, ResultSnapshot}
use dbotter.Export.Scalars.{Formats, clipboard_scalar}
use dbotter.Export.Fields.{needs_quotes, double_quotes, csv_field}
use dbotter.Export.Fields.Csv.{
  plain, reader, row_before, read_csv, read-field_comma, read-field_line,
}
use dbotter.Export.Traces.{Done, ExportEncodeError, concat, concat-append, follow, write_all, ◌>>◌}
use dbotter.Export.Tables.{
  quoted_pieces, write_csv_field, require_tabular, require_row_width, write_rest, write_fields,
  write_rows, write_table, write_csv,
}

err-ne-ok :
    {e : ExportEncodeError} → ◌≡◌ {A = Result ExportEncodeError (Unit {0})} (err e) (ok tt) → ⊥
err-ne-ok h = cc

-- An encoder that does not fail and makes up a text.
pub record Writes (t : Done) (s : Text) : Type 0 where
  pub succeeds : t.outcome ≡ ok tt
  pub makes : concat t.pieces ≡ s

pub follow-Writes :
    (t u : Done) (s r : Text)
    → Writes t s
    → Writes u r
    → Writes (follow t.pieces t.outcome (λ _. u)) (s ++ r)
follow-Writes t u s r w v = record {
  succeeds = rw w.succeeds v.succeeds;
  makes = rw w.succeeds (rw (concat-append, w.makes, v.makes));
}

quoted_pieces-concat : (run s : Text) → concat (quoted_pieces run s) ≡ run ++ double_quotes s
unfolding quoted_pieces double_quotes
quoted_pieces-concat run [] = refl
quoted_pieces-concat run (c ∷ cs) = elim (Bool-cases (c == b'"')) [
  | inl q ↦ rw (q, quoted_pieces-concat [] cs) refl
  | inr n ↦ rw (n, quoted_pieces-concat (run ++ c ∷ []) cs, append_assoc)
]

write_csv_field-Writes : (f : Text) → Writes (write_csv_field f) (csv_field f)
unfolding write_csv_field csv_field
write_csv_field-Writes f = elim (Bool-cases (any needs_quotes f)) [
  | inl q ↦ rw q (record {
    succeeds = refl;
    makes = ap (◌∷◌ b'"') (
        concat-append (quoted_pieces [] f) ((b'"' ∷ []) ∷ [])
        ∙ ap (λ t. t ++ (b'"' ∷ [])) (quoted_pieces-concat [] f));
  })
  | inr n ↦ rw n (record { succeeds = refl; makes = append-nil f })
]

-- The text of a row behind its first field, and of a row.
abbrev pub csv_rest : List Text → Text
csv_rest [] = []
csv_rest (f ∷ fs) = b',' ∷ (csv_field f ++ csv_rest fs)

abbrev pub csv_row : List Text → Text
csv_row [] = []
csv_row (f ∷ fs) = csv_field f ++ csv_rest fs

write_rest-Writes :
    (fs : List Text) → Writes (write_rest (codes ",") write_csv_field fs) (csv_rest fs)
unfolding write_rest
write_rest-Writes [] = record { succeeds = refl; makes = refl }
write_rest-Writes (f ∷ fs) =
    follow-Writes (write_all (codes ","))
      (write_csv_field f >> write_rest (codes ",") write_csv_field fs) (b',' ∷ [])
      (csv_field f ++ csv_rest fs) (record { succeeds = refl; makes = refl })
      (follow-Writes (write_csv_field f) (write_rest (codes ",") write_csv_field fs) (csv_field f)
        (csv_rest fs) (write_csv_field-Writes f) (write_rest-Writes fs))

write_fields-Writes :
    (fs : List Text) → Writes (write_fields (codes ",") write_csv_field fs) (csv_row fs)
unfolding write_fields
write_fields-Writes [] = record { succeeds = refl; makes = refl }
write_fields-Writes (f ∷ fs) =
    follow-Writes (write_csv_field f) (write_rest (codes ",") write_csv_field fs) (csv_field f)
      (csv_rest fs) (write_csv_field-Writes f) (write_rest-Writes fs)

-- A row and its line end are read back as that row, and the reader starts afresh.
read-rest :
    (r : List Text) (f : Text) (fs : List Text) (t : Text)
    → read_csv (reader plain [] r) (csv_field f ++ (csv_rest fs ++ (13 ∷ 10 ∷ t)))
      ≡ row_before (r ++ f ∷ fs) (read_csv (reader plain [] []) t)
read-rest r f [] t = read-field_line r f t
read-rest r f (g ∷ fs) t = rw append_assoc (
    read-field_comma r f (csv_field g ++ (csv_rest fs ++ (13 ∷ 10 ∷ t)))
    ∙ rw (read-rest (r ++ f ∷ []) g fs t, append_assoc))

read-row :
    (f : Text) (fs : List Text) (t : Text)
    → read_csv (reader plain [] []) (csv_row (f ∷ fs) ++ (13 ∷ 10 ∷ t))
      ≡ row_before (f ∷ fs) (read_csv (reader plain [] []) t)
read-row f fs t = rw append_assoc (read-rest [] f fs t)

abbrev csv_lines : List (List Text) → Text
csv_lines [] = []
csv_lines (row ∷ rows) = csv_row row ++ (13 ∷ 10 ∷ csv_lines rows)

read-lines :
    (rows : List (List Text))
    → All (λ r. is_empty r ≡ false) rows
    → read_csv (reader plain [] []) (csv_lines rows) ≡ some rows
read-lines [] h = unfold read_csv in refl
read-lines ([] ∷ rows) h = absurd (ground arith)
read-lines ((f ∷ fs) ∷ rows) h =
    read-row f fs (csv_lines rows) ∙ ap (row_before (f ∷ fs)) (read-lines rows h.1)

nonempty_of_length :
    (f : Cell → Text) (row : List Cell) (columns : List Column)
    → is_empty columns ≡ false
    → length row ≡ length columns
    → is_empty (map f row) ≡ false
nonempty_of_length f [] [] h e = cc
nonempty_of_length f [] (c ∷ cs) h e = absurd (omega arith)
nonempty_of_length f (x ∷ row) columns h e = refl

nonempty_names :
    (columns : List Column)
    → is_empty columns ≡ false
    → is_empty (map (λ c. c.name) columns) ≡ false
nonempty_names [] h = cc
nonempty_names (c ∷ cs) h = refl

module _ (formats : Formats) (snapshot : ResultSnapshot) where
  -- Every row has a cell for each column.
  abbrev pub IsRectangular : List (List Cell) → Type 0
  IsRectangular [] = Unit
  IsRectangular (row ∷ rows) = (length row ≡ length snapshot.columns) × IsRectangular rows

  -- The column names, and the scalars of each row.
  abbrev pub csv_table : List (List Text)
  csv_table =
      map (λ c. c.name) snapshot.columns ∷ map (map (clipboard_scalar formats)) snapshot.rows

  rows-Writes :
      (rows : List (List Cell))
      → IsRectangular rows
      → Writes
          (write_rows formats (codes ",") (codes "\r\n") write_csv_field snapshot rows)
          (csv_lines (map (map (clipboard_scalar formats)) rows))
  unfolding write_rows require_row_width
  rows-Writes [] h = record { succeeds = refl; makes = refl }
  rows-Writes (row ∷ rows) h =
      let fields = map (clipboard_scalar formats) row in
      let later = write_rows formats (codes ",") (codes "\r\n") write_csv_field snapshot rows in
      rw ((==_iff (length row) (length snapshot.columns)).1 h.0) (
        follow-Writes (write_fields (codes ",") write_csv_field fields)
          (write_all (codes "\r\n") >> later) (csv_row fields) _ (write_fields-Writes fields)
          (follow-Writes (write_all (codes "\r\n")) later (13 ∷ 10 ∷ []) _
            (record { succeeds = refl; makes = refl }) (rows-Writes rows h.1)))

  rows_ok-IsRectangular :
      (rows : List (List Cell))
      → (write_rows formats (codes ",") (codes "\r\n") write_csv_field snapshot rows).outcome
        ≡ ok tt
      → IsRectangular rows
  unfolding write_rows require_row_width
  rows_ok-IsRectangular [] h = tt
  rows_ok-IsRectangular (row ∷ rows) h = elim (Bool-cases (length row == length snapshot.columns)) [
    | inl same ↦
        let fields = map (clipboard_scalar formats) row in
        (
          (==_iff _ _).0 same,
          rows_ok-IsRectangular rows (rw ((write_fields-Writes fields).succeeds) at (rw same at h)),
        )
    | inr other ↦ absurd (err-ne-ok (rw other at h))
  ]

  write_csv-Writes :
      is_empty snapshot.columns ≡ false
      → IsRectangular snapshot.rows
      → Writes (write_csv formats snapshot) (csv_lines csv_table)
  unfolding write_csv write_table require_tabular
  write_csv-Writes named even =
      let names = map (λ (c : Column). c.name) snapshot.columns in
      let later =
        write_rows formats (codes ",") (codes "\r\n") write_csv_field snapshot snapshot.rows in
      rw named (
        follow-Writes (write_fields (codes ",") write_csv_field names)
          (write_all (codes "\r\n") >> later) (csv_row names) _ (write_fields-Writes names)
          (follow-Writes (write_all (codes "\r\n")) later (13 ∷ 10 ∷ []) _
            (record { succeeds = refl; makes = refl }) (rows-Writes snapshot.rows even)))

  write_csv_ok-shape :
      (write_csv formats snapshot).outcome ≡ ok tt
      → (is_empty snapshot.columns ≡ false) × IsRectangular snapshot.rows
  unfolding write_csv write_table require_tabular
  write_csv_ok-shape h = elim (Bool-cases (is_empty snapshot.columns)) [
    | inl none' ↦ absurd (err-ne-ok (rw none' at h))
    | inr named ↦
        let names = map (λ (c : Column). c.name) snapshot.columns in
        (
          named,
          rows_ok-IsRectangular snapshot.rows
              (rw ((write_fields-Writes names).succeeds) at (rw named at h)),
        )
  ]

  -- CSV succeeds exactly on a result with columns whose rows all have a cell for each, when nothing
  -- fails in the writer.
  pub write_csv_ok_iff :
      ((write_csv formats snapshot).outcome ≡ ok tt)
      ↔ ((is_empty snapshot.columns ≡ false) × IsRectangular snapshot.rows)
  write_csv_ok_iff = (write_csv_ok-shape, λ shape. (write_csv-Writes shape.0 shape.1).succeeds)

  nonempty_rows :
      (rows : List (List Cell))
      → is_empty snapshot.columns ≡ false
      → IsRectangular rows
      → All (λ r. is_empty r ≡ false) (map (map (clipboard_scalar formats)) rows)
  nonempty_rows [] named h = tt
  nonempty_rows (row ∷ rows) named h = (
    nonempty_of_length (clipboard_scalar formats) row snapshot.columns named h.0,
    nonempty_rows rows named h.1,
  )

  -- A CSV document that is complete reads back, by a reader that takes only what RFC 4180 allows in
  -- and between fields, as the column names and the scalars of every row.
  pub read-write_csv :
      (write_csv formats snapshot).outcome ≡ ok tt
      → read_csv (reader plain [] []) (concat (write_csv formats snapshot).pieces) ≡ some csv_table
  read-write_csv h =
      let (named, even) = write_csv_ok-shape h in
      rw ((write_csv-Writes named even).makes) (
        read-lines csv_table
          (nonempty_names snapshot.columns named, nonempty_rows snapshot.rows named even))
