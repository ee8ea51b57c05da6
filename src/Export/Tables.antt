-- ===== src/Export/Tables.antt =====
-- `write_csv` and `write_tsv` of src/export.rs.
use dbotter.Prelude.{
  ℕ, Bool, true, false, List, [], ◌∷◌, ◌++◌, Result, ok, err, map, length, any, is_empty, ◌==◌,
  if◌then◌else◌,
}
use dbotter.Text.{Text, codes}
use dbotter.Model.{Cell, Column, ResultSnapshot}
use dbotter.Export.Scalars.{Formats, clipboard_scalar}
use dbotter.Export.Fields.{needs_quotes, tsv_field}
use dbotter.Export.Traces.{
  ExportEncodeError, tabular_result_required, invalid_row_width, Trace, Done, write_all,
  write_pieces, fail, give, follow, ◌>>=◌, ◌>>◌,
}
pub mod Documents
pub mod Examples

-- The pieces of a quoted field: up to each quote, and the quote twice.
unfoldable pub quoted_pieces : Text → Text → List Text
quoted_pieces run [] = run ∷ []
quoted_pieces run (c ∷ cs) =
    let broken = quoted_pieces [] cs in
    let longer = quoted_pieces (run ++ c ∷ []) cs in
    if c == b'"' then run ∷ codes "\"\"" ∷ broken else longer

unfoldable pub write_quoted : Text → Done
unfolding quoted_pieces
write_quoted field = do
  write_all (codes "\"")
  write_pieces (quoted_pieces [] field)
  write_all (codes "\"")

unfoldable pub write_csv_field : Text → Done
unfolding write_quoted
write_csv_field field = if any needs_quotes field then write_quoted field else write_all field

unfoldable pub require_tabular : ResultSnapshot → Done
require_tabular snapshot =
    if is_empty snapshot.columns then fail tabular_result_required else give tt

unfoldable pub require_row_width : ResultSnapshot → List Cell → Done
require_row_width snapshot row =
    if length row == length snapshot.columns then give tt else fail invalid_row_width

-- `if index != 0 { separator }` before each field.
unfoldable pub write_rest : Text → (Text → Done) → List Text → Done
write_rest separator write_field [] = give tt
write_rest separator write_field (f ∷ fs) = do
  write_all separator
  write_field f
  write_rest separator write_field fs

unfoldable pub write_fields : Text → (Text → Done) → List Text → Done
unfolding write_rest
write_fields separator write_field [] = give tt
write_fields separator write_field (f ∷ fs) = do write_field f; write_rest separator write_field fs

module _ (formats : Formats) (separator line_end : Text) (write_field : Text → Done) where
  unfoldable pub write_rows : ResultSnapshot → List (List Cell) → Done
  unfolding write_fields require_row_width
  write_rows snapshot [] = give tt
  write_rows snapshot (row ∷ rows) = do
    require_row_width snapshot row
    write_fields separator write_field (map (clipboard_scalar formats) row)
    write_all line_end
    write_rows snapshot rows

  -- What the two formats share, from the check of the columns to the last row.
  unfoldable pub write_table : ResultSnapshot → Done
  unfolding write_rows require_tabular
  write_table snapshot = do
    require_tabular snapshot
    write_fields separator write_field (map (λ c. c.name) snapshot.columns)
    write_all line_end
    write_rows snapshot snapshot.rows

unfoldable pub write_csv : Formats → ResultSnapshot → Done
unfolding write_table write_csv_field
write_csv formats = write_table formats (codes ",") (codes "\r\n") write_csv_field

unfoldable pub write_tsv : Formats → ResultSnapshot → Done
unfolding write_table tsv_field
write_tsv formats = write_table formats (codes "\t") (codes "\n") (λ f. write_all (tsv_field f))
