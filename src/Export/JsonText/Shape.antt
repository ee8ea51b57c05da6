-- ===== src/Export/JsonText/Shape.antt =====
-- When `write_json` of src/export.rs succeeds.
use dbotter.Prelude.{
  ℕ, ◌+◌, ◌≡◌, ◌≢◌, ◌↔◌, refl, sym, ◌∙◌, true, false, inl, inr, List, [], ◌∷◌, Option, none, some,
  length, Result, ok, err, ◌==◌, ==_iff, arith, Bool-cases, Option-cases,
}
use dbotter.Text.{Text, codes}
use dbotter.Model.{Cell, Column, ResultSnapshot}
use dbotter.Export.Scalars.{Formats}
use dbotter.Export.Traces.{ExportEncodeError, Done, write_all, follow, ◌>>◌}
use dbotter.Export.Tables.{require_row_width}
use dbotter.Export.Tables.Documents.{IsRectangular}
use dbotter.Export.JsonText.{
  write_json_cell, write_comma, write_json_columns, write_json_cells, write_json_rows,
  write_provenance, write_tail, write_json,
}

-- A first part that succeeds leaves the outcome to the second.
after-ok : (t u : Done) → t.outcome ≡ ok tt → (t >> u).outcome ≡ u.outcome
after-ok t u h = rw h refl

-- The first part of what succeeds has succeeded.
first-ok :
    (ps : List Text) (r : Result ExportEncodeError (Unit {0})) (u : Done)
    → (follow ps r (λ _. u)).outcome ≡ ok tt
    → r ≡ ok tt
first-ok ps (ok w) u h = refl
first-ok ps (err e) u h = cc

err-ne-ok : (e : ExportEncodeError) → ◌≢◌ {A = Result ExportEncodeError (Unit {0})} (err e) (ok tt)
err-ne-ok e h = cc

module _ (formats : Formats) where
  comma-ok : (index : ℕ) → (write_comma formats index).outcome ≡ ok tt
  comma-ok index = elim (Bool-cases (index == 0)) [ inl z ↦ rw z refl | inr n ↦ rw n refl ]

  cell-ok : (c : Cell) → (write_json_cell formats c).outcome ≡ ok tt
  unfolding write_json_cell
  cell-ok Cell.null = refl
  cell-ok (Cell.boolean b) = refl
  cell-ok (Cell.int i) = refl
  cell-ok (Cell.uint n) = refl
  cell-ok (Cell.float bits) = refl
  cell-ok (Cell.decimal t) = refl
  cell-ok (Cell.text t) = refl
  cell-ok (Cell.text_preview p n) = refl
  cell-ok (Cell.bytes bs n) = refl
  cell-ok (Cell.json v) = refl
  cell-ok (Cell.json_preview p n) = refl
  cell-ok (Cell.date_time t) = refl

  columns-ok :
      (index : ℕ) (columns : List Column)
      → (write_json_columns formats index columns).outcome ≡ ok tt
  unfolding write_json_columns
  columns-ok index [] = refl
  columns-ok index (column ∷ columns) =
      after-ok (write_comma formats index) _ (comma-ok index) ∙ columns-ok (index + 1) columns

  cells-ok :
      (index : ℕ) (cells : List Cell) → (write_json_cells formats index cells).outcome ≡ ok tt
  unfolding write_json_cells
  cells-ok index [] = refl
  cells-ok index (cell ∷ cells) =
      after-ok (write_comma formats index) _ (comma-ok index)
      ∙ (after-ok (write_json_cell formats cell) _ (cell-ok cell) ∙ cells-ok (index + 1) cells)

  module _ (snapshot : ResultSnapshot) where
    even_row :
        (index : ℕ) (row : List Cell) (rows : List (List Cell))
        → (length row == length snapshot.columns) ≡ true
        → (write_json_rows formats snapshot index (row ∷ rows)).outcome
          ≡ (write_json_rows formats snapshot (index + 1) rows).outcome
    unfolding write_json_rows require_row_width
    even_row index row rows same = rw same (
        after-ok (write_comma formats index) _ (comma-ok index)
        ∙ after-ok (write_json_cells formats 0 row) _ (cells-ok 0 row))

    odd_row :
        (index : ℕ) (row : List Cell) (rows : List (List Cell))
        → (length row == length snapshot.columns) ≡ false
        → (write_json_rows formats snapshot index (row ∷ rows)).outcome ≢ ok tt
    unfolding write_json_rows require_row_width
    odd_row index row rows other h = absurd (ground arith)

    rows_ok-IsRectangular :
        (index : ℕ) (rows : List (List Cell))
        → (write_json_rows formats snapshot index rows).outcome ≡ ok tt
        → IsRectangular formats snapshot rows
    rows_ok-IsRectangular index [] h = tt
    rows_ok-IsRectangular index (row ∷ rows) h =
        elim (Bool-cases (length row == length snapshot.columns)) [
          | inl same ↦ (
            (==_iff _ _).0 same,
            rows_ok-IsRectangular (index + 1) rows (sym (even_row index row rows same) ∙ h),
          )
          | inr other ↦ absurd (odd_row index row rows other h)
        ]

    IsRectangular-rows_ok :
        (index : ℕ) (rows : List (List Cell))
        → IsRectangular formats snapshot rows
        → (write_json_rows formats snapshot index rows).outcome ≡ ok tt
    unfolding write_json_rows
    IsRectangular-rows_ok index [] even = refl
    IsRectangular-rows_ok index (row ∷ rows) (same, even) =
        even_row index row rows ((==_iff _ _).1 same) ∙ IsRectangular-rows_ok (index + 1) rows even

    json_at : Text → Done
    json_at t =
        write_provenance formats snapshot t
        >> (write_json_columns formats 0 snapshot.columns
            >> (write_all (codes "],\"rows\":[")
                >> (write_json_rows formats snapshot 0 snapshot.rows
                    >> write_tail formats snapshot)))

    json_at-outcome :
        (t : Text)
        → (json_at t).outcome
          ≡ (write_json_rows formats snapshot 0 snapshot.rows
              >> write_tail formats snapshot).outcome
    unfolding json_at write_provenance
    json_at-outcome t =
        after-ok (write_json_columns formats 0 snapshot.columns) _ (columns-ok 0 snapshot.columns)

    abbrev written_time : Option Text
    written_time = formats.format_timestamp_millis snapshot.provenance.completed_at_unix_ms

    json_some :
        (t : Text)
        → written_time ≡ some t
        → (write_json formats snapshot).outcome ≡ (json_at t).outcome
    unfolding write_json json_at
    json_some t e = rw e refl

    json_none : written_time ≡ none → (write_json formats snapshot).outcome ≢ ok tt
    unfolding write_json
    json_none e h = absurd (err-ne-ok _ (rw e at h))

    tail-ok : (write_tail formats snapshot).outcome ≡ ok tt
    unfolding write_tail
    tail-ok = elim (Option-cases snapshot.last_insert_id) [
      | inl n ↦ rw n refl
      | inr (i, e) ↦ rw e refl
    ]

    json_ok-shape :
        (write_json formats snapshot).outcome ≡ ok tt
        → (t : Text) × (written_time ≡ some t) × IsRectangular formats snapshot snapshot.rows
    json_ok-shape h = elim (Option-cases written_time) [
      | inl missing ↦ absurd (json_none missing h)
      | inr (t, e) ↦
          let rows_then : (write_json_rows formats snapshot 0 snapshot.rows
                >> write_tail formats snapshot).outcome
              ≡ ok tt =
            sym (json_at-outcome t) ∙ (sym (json_some t e) ∙ h) in
          (t, e, rows_ok-IsRectangular 0 snapshot.rows (first-ok _ _ _ rows_then))
    ]

    -- JSON succeeds exactly when the time of completion can be written and every row has a cell for
    -- each column, when nothing fails in the writer. No columns are needed.
    pub write_json_ok_iff : ((write_json formats snapshot).outcome ≡ ok tt) ↔ (
        (t : Text) × (formats.format_timestamp_millis snapshot.provenance.completed_at_unix_ms
          ≡ some t)
        × IsRectangular formats snapshot snapshot.rows)
    write_json_ok_iff = (
      json_ok-shape,
      λ (t, e, even).
          json_some t e
          ∙ (json_at-outcome t
              ∙ after-ok (write_json_rows formats snapshot 0 snapshot.rows)
                  (write_tail formats snapshot) (IsRectangular-rows_ok 0 snapshot.rows even)
              ∙ tail-ok),
    )
