-- ===== src/Export/JsonText.antt =====
-- `write_json` of src/export.rs and what it calls.
use dbotter.Prelude.{
  ℕ, suc, ◌+◌, ◌==◌, Bool, true, false, List, [], ◌∷◌, Option, none, some, length, ltb,
  if◌then◌else◌,
}
use dbotter.Text.{Text, codes}
use dbotter.Model.{DriverKind, my_sql, redis, mongo_db, Cell, Column, ResultSnapshot}
use dbotter.Export.Fields.{push_json_string}
use dbotter.Export.Scalars.{
  Formats, display_uint, display_int, display_bool, canonical_float, canonical_decimal,
  normalize_datetime, canonical_json,
}
use dbotter.Export.Traces.{
  invalid_completed_at, Trace, Done, write_all, fail, give, follow, ◌>>=◌, ◌>>◌,
}
use dbotter.Export.Tables.{require_row_width}
pub mod Shape

abbrev pub write_display : ℕ → Done
write_display n = write_all (display_uint n)

abbrev pub write_json_string : Text → Done
write_json_string value = write_all (push_json_string value)

abbrev pub driver_name : DriverKind → Text
driver_name my_sql = codes "mysql"
driver_name redis = codes "redis"
driver_name mongo_db = codes "mongodb"

pub write_string_cell : Text → Text → Done
write_string_cell cell_type value = do
  write_all (codes "{\"type\":")
  write_json_string cell_type
  write_all (codes ",\"value\":")
  write_json_string value
  write_all (codes "}")

-- The two previews differ in their opening only.
pub write_preview : Text → Text → ℕ → Done
write_preview opening preview original_len = do
  write_all opening
  write_json_string preview
  write_all (codes ",\"original_len\":")
  write_display original_len
  write_all (codes ",\"truncated\":true}")

pub write_bytes_cell : Formats → List ℕ → ℕ → Done
write_bytes_cell formats retained original_len = do
  write_all (codes "{\"type\":\"bytes\",\"value\":{\"base64\":")
  write_json_string (formats.base64 retained)
  write_all (codes ",\"original_len\":")
  write_display original_len
  write_all (codes ",\"truncated\":")
  write_all (display_bool (ltb (length retained) original_len))
  write_all (codes "}}")

module _ (formats : Formats) where
  pub write_json_cell : Cell → Done
  unfolding write_string_cell write_preview write_bytes_cell
  write_json_cell Cell.null = write_all (codes "{\"type\":\"null\"}")
  write_json_cell (Cell.boolean b) = do
    write_all (codes "{\"type\":\"bool\",\"value\":")
    write_all (display_bool b)
    write_all (codes "}")
  write_json_cell (Cell.int i) = write_string_cell (codes "int") (display_int i)
  write_json_cell (Cell.uint n) = write_string_cell (codes "uint") (display_uint n)
  write_json_cell (Cell.float bits) =
      write_string_cell (codes "float") (canonical_float formats bits)
  write_json_cell (Cell.decimal t) =
      write_string_cell (codes "decimal") (canonical_decimal formats t)
  write_json_cell (Cell.text t) = write_string_cell (codes "text") t
  write_json_cell (Cell.text_preview preview original_len) =
      write_preview (codes "{\"type\":\"text\",\"value\":") preview original_len
  write_json_cell (Cell.bytes retained original_len) =
      write_bytes_cell formats retained original_len
  write_json_cell (Cell.json value) = do
    write_all (codes "{\"type\":\"json\",\"value\":")
    write_all (canonical_json value)
    write_all (codes "}")
  write_json_cell (Cell.json_preview preview original_len) =
      write_preview (codes "{\"type\":\"json_preview\",\"value\":") preview original_len
  write_json_cell (Cell.date_time t) =
      write_string_cell (codes "datetime") (normalize_datetime formats t)

  -- `if index != 0 { write_all(b",") }`.
  abbrev pub write_comma : ℕ → Done
  write_comma index = if index == 0 then give tt else write_all (codes ",")

  pub write_json_columns : ℕ → List Column → Done
  write_json_columns index [] = give tt
  write_json_columns index (column ∷ columns) = do
    write_comma index
    write_all (codes "{\"index\":")
    write_display index
    write_all (codes ",\"name\":")
    write_json_string column.name
    write_all (codes ",\"type_name\":")
    write_json_string column.type_name
    write_all (codes "}")
    write_json_columns (index + 1) columns

  pub write_json_cells : ℕ → List Cell → Done
  unfolding write_json_cell
  write_json_cells index [] = give tt
  write_json_cells index (cell ∷ cells) = do
    write_comma index
    write_json_cell cell
    write_json_cells (index + 1) cells

  pub write_json_rows : ResultSnapshot → ℕ → List (List Cell) → Done
  unfolding write_json_cells require_row_width
  write_json_rows snapshot index [] = give tt
  write_json_rows snapshot index (row ∷ rows) = do
    require_row_width snapshot row
    write_comma index
    write_all (codes "[")
    write_json_cells 0 row
    write_all (codes "]")
    write_json_rows snapshot (index + 1) rows

  abbrev pub completed_time : Option Text → Trace Text
  completed_time none = fail invalid_completed_at
  completed_time (some t) = give t

  abbrev pub write_last_insert_id : Option ℕ → Done
  write_last_insert_id none = write_all (codes "null")
  write_last_insert_id (some n) = write_display n

  -- From the opening to the columns.
  pub write_provenance : ResultSnapshot → Text → Done
  write_provenance snapshot completed_at = do
    write_all (codes "{\"schema\":\"dbotter.result.v1\",\"provenance\":{\"operation_id\":")
    write_display snapshot.provenance.operation_id
    write_all (codes ",\"profile_id\":")
    write_json_string snapshot.provenance.profile_id
    write_all (codes ",\"profile_generation\":")
    write_display snapshot.provenance.profile_generation
    write_all (codes ",\"driver\":")
    write_json_string (driver_name snapshot.provenance.driver)
    write_all (codes ",\"completed_at\":")
    write_json_string completed_at
    write_all (codes ",\"elapsed_ms\":")
    write_display snapshot.provenance.duration_ms
    write_all (codes "},\"columns\":[")

  -- What follows the rows.
  pub write_tail : ResultSnapshot → Done
  write_tail snapshot = do
    write_all (codes "],\"affected_rows\":")
    write_display snapshot.affected_rows
    write_all (codes ",\"last_insert_id\":")
    write_last_insert_id snapshot.last_insert_id
    write_all (codes ",\"truncated\":")
    write_all (display_bool snapshot.truncated)
    write_all (codes "}")

  pub write_json : ResultSnapshot → Done
  unfolding write_provenance write_json_columns write_json_rows write_tail
  write_json snapshot = do
    completed_at ←
        completed_time (formats.format_timestamp_millis snapshot.provenance.completed_at_unix_ms)
    write_provenance snapshot completed_at
    write_json_columns 0 snapshot.columns
    write_all (codes "],\"rows\":[")
    write_json_rows snapshot 0 snapshot.rows
    write_tail snapshot
