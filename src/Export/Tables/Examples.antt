-- ===== src/Export/Tables/Examples.antt =====
-- The theorems on src/export.rs at a small result, with an encoder that prints floats, base64 and
-- decimals as nothing.
use dbotter.Prelude.{◌≡◌, ◌↔◌, refl, false, [], ◌∷◌, ◌++◌, none, some, ok, All, is_empty}
use dbotter.Text.{Text, codes}
use dbotter.Export.Traces.{concat}
use dbotter.Model.{my_sql, mysql_current_row_or_cell, pos, Cell, ResultSnapshot}
use dbotter.Export.Scalars.{Formats}
use dbotter.Export.Fields.{tsv_field, push_json_string}
use dbotter.Export.Fields.Tsv.{tsv_unescape, IsInline, tsv_unescape-tsv_field, tsv_field-IsInline}
use dbotter.Export.Fields.JsonStrings.{read_json_string, read_json_string-push}
use dbotter.Export.Fields.Csv.{plain, reader, read_csv}
use dbotter.Export.Tables.{write_csv}
use dbotter.Export.JsonText.{write_json}
use dbotter.Export.JsonText.Shape.{write_json_ok_iff}
use dbotter.Export.Tables.Documents.{IsRectangular, csv_table, write_csv_ok_iff, read-write_csv}

abbrev pub no_formats : Formats
no_formats = record {
  display_f64 = λ b. [];
  base64 = λ b. [];
  parse_decimal = λ t. none;
  parse_rfc3339 = λ t. none;
  parse_naive_datetime = λ t f. none;
  parse_naive_date = λ t. none;
  parse_naive_time = λ t. none;
  format_timestamp_millis = λ t. some (codes "2026-01-01T00:00:00.000Z");
}

abbrev pub two_rows : ResultSnapshot
two_rows = record {
  provenance = record {
    result_id = 1;
    profile_id = codes "p";
    profile_generation = 1;
    operation_id = 1;
    driver = my_sql;
    completed_at_unix_ms = pos 0;
    duration_ms = 3;
  };
  columns =
      record { name = codes "id"; type_name = codes "INT" }
      ∷ record { name = codes "say \"hi\""; type_name = codes "TEXT" }
      ∷ [];
  rows =
      (Cell.int (pos 7) ∷ Cell.text (codes "a,\n\"b\"") ∷ [])
      ∷ (Cell.null ∷ Cell.text [] ∷ [])
      ∷ [];
  affected_rows = 0;
  last_insert_id = none;
  truncated = false;
  notices = [];
  retained_bytes = 20;
  transient_allocation = mysql_current_row_or_cell;
  cell_truncations = [];
}

two_rows-even :
    (is_empty two_rows.columns ≡ false) × IsRectangular no_formats two_rows two_rows.rows
two_rows-even = (refl, (refl, (refl, tt)))

write_csv_ok_iff_example :
    ((write_csv no_formats two_rows).outcome ≡ ok tt)
    ↔ ((is_empty two_rows.columns ≡ false) × IsRectangular no_formats two_rows two_rows.rows)
write_csv_ok_iff_example = write_csv_ok_iff no_formats two_rows

read-write_csv_example :
    read_csv (reader plain [] []) (concat (write_csv no_formats two_rows).pieces)
    ≡ some (csv_table no_formats two_rows)
read-write_csv_example =
    read-write_csv no_formats two_rows ((write_csv_ok_iff no_formats two_rows).1 two_rows-even)

tsv_unescape-tsv_field_example : tsv_unescape (tsv_field (codes "a\tb\\c")) ≡ codes "a\tb\\c"
tsv_unescape-tsv_field_example = tsv_unescape-tsv_field (codes "a\tb\\c")

tsv_field-IsInline_example : All IsInline (tsv_field (codes "a\tb\nc"))
tsv_field-IsInline_example = tsv_field-IsInline (codes "a\tb\nc")

write_json_ok_iff_example : ((write_json no_formats two_rows).outcome ≡ ok tt) ↔ (
    (t : Text) × (no_formats.format_timestamp_millis two_rows.provenance.completed_at_unix_ms
      ≡ some t)
    × IsRectangular no_formats two_rows two_rows.rows)
write_json_ok_iff_example = write_json_ok_iff no_formats two_rows

read_json_string-push_example :
    read_json_string (push_json_string (codes "a\n\"é\\") ++ codes ",1")
    ≡ some (codes "a\n\"é\\", codes ",1")
read_json_string-push_example = read_json_string-push (codes "a\n\"é\\") (codes ",1")
