-- ===== src/Model/Retention.antt =====
-- `ResultSnapshot::retain` of src/model.rs: what of a driver's result is kept. A cell's JSON text is
-- that of `serde_json`, which with the printing of floats is a parameter of the model.
use dbotter.Prelude.{
  ℕ, zero, suc, ◌+◌, ◌-◌, ◌*◌, ◌^◌, ◌≤◌, Bool, true, false, ◌&&◌, ◌||◌, not, List, [], ◌∷◌, ◌++◌,
  Option, none, some, length, take, is_empty, min, max, ltb, leb, ◌==◌, if◌then◌else◌,
}
use mathlib.Core.Bool.{decide}
use dbotter.Text.{Text, str_len, len_utf8}
use dbotter.Model.{
  ℤ, Json, JsonItems, JsonFields, Cell, Column, QueryResult, ResultProvenance, ResultNotice,
  ResultNotice-discrete, driver_reported_truncation, column_limit_reached, row_limit_reached,
  snapshot_byte_limit_reached, cell_preview_truncated, redis_cell_limit_reached,
  redis_depth_limit_reached, backend_notices_discarded, mysql_transient_row_allocation,
  redis_transient_frame_allocation, TransientAllocation, mysql_current_row_or_cell,
  redis_whole_resp_frame, CellTruncationKind, CellTruncation, ResultSnapshot,
}
use dbotter.Export.Scalars.{display_uint, display_int}
pub mod Rows

abbrev pub max_result_rows : ℕ
max_result_rows = 10000

abbrev pub max_result_columns : ℕ
max_result_columns = 1024

abbrev pub max_result_bytes : ℕ
max_result_bytes = 8 * 1024 * 1024

abbrev pub max_result_cell_bytes : ℕ
max_result_cell_bytes = 1024 * 1024

abbrev pub max_result_notices : ℕ
max_result_notices = 32

abbrev pub max_redis_cells : ℕ
max_redis_cells = 10000

abbrev pub max_redis_cell_bytes : ℕ
max_redis_cell_bytes = 64 * 1024

abbrev pub max_redis_depth : ℕ
max_redis_depth = 8

abbrev pub usize_max : ℕ
usize_max = 2 ^ 64 - 1

pub data RetentionPolicy : Type 0 where
  my_sql redis : ℕ → RetentionPolicy

abbrev pub row_limit : RetentionPolicy → ℕ
row_limit (my_sql requested) = if ltb requested max_result_rows then requested else max_result_rows
row_limit (redis requested) = max_result_rows

abbrev pub cell_limit : RetentionPolicy → ℕ
cell_limit (my_sql requested) = usize_max
cell_limit (redis requested) = if ltb requested max_redis_cells then requested else max_redis_cells

abbrev pub cell_bytes : RetentionPolicy → ℕ
cell_bytes (my_sql requested) = max_result_cell_bytes
cell_bytes (redis requested) = max_redis_cell_bytes

abbrev pub max_depth : RetentionPolicy → Option ℕ
max_depth (my_sql requested) = none
max_depth (redis requested) = some max_redis_depth

abbrev pub transient_allocation : RetentionPolicy → TransientAllocation
transient_allocation (my_sql requested) = mysql_current_row_or_cell
transient_allocation (redis requested) = redis_whole_resp_frame

abbrev pub transient_notice : TransientAllocation → ResultNotice
transient_notice mysql_current_row_or_cell = mysql_transient_row_allocation
transient_notice redis_whole_resp_frame = redis_transient_frame_allocation

abbrev pub has_notice : ResultNotice → List ResultNotice → Bool
has_notice n [] = false
has_notice n (m ∷ ms) = decide (ResultNotice-discrete m n) || has_notice n ms

pub push_result_notice : List ResultNotice → ResultNotice → List ResultNotice
push_result_notice notices n =
    if ltb (length notices) max_result_notices && not (has_notice n notices)
    then notices ++ n ∷ []
    else notices

-- The longest prefix of whole characters within `cap` bytes: where `truncate_utf8` steps back to.
pub truncate_utf8 : Text → ℕ → Text
truncate_utf8 [] cap = []
truncate_utf8 (c ∷ cs) cap =
    let rest = truncate_utf8 cs (cap - len_utf8 c) in if leb (len_utf8 c) cap then c ∷ rest else []

-- What `serde_json` writes for a value, and how a float prints.
pub record Printing : Type 0 where
  pub json_text : Json → Text
  pub display_f64 : ℕ → Text

-- `truncate_json_depth`: the value, and whether anything was cleared.
unfoldable mutual
  pub truncate_json : ℕ → ℕ → Json → Json × Bool
  truncate_json depth max' (Json.array items) =
      if leb max' depth
      then elim items [
        | JsonItems.nil ↦ (Json.array JsonItems.nil, false)
        | JsonItems.cons v vs ↦ (Json.array JsonItems.nil, true)
      ]
      else (
        Json.array (truncate_items (depth + 1) max' items).0,
        (truncate_items (depth + 1) max' items).1,
      )
  truncate_json depth max' (Json.object fields) =
      if leb max' depth
      then elim fields [
        | JsonFields.end ↦ (Json.object JsonFields.end, false)
        | JsonFields.field k v fs ↦ (Json.object JsonFields.end, true)
      ]
      else (
        Json.object (truncate_fields (depth + 1) max' fields).0,
        (truncate_fields (depth + 1) max' fields).1,
      )
  truncate_json depth max' Json.null = (Json.null, false)
  truncate_json depth max' (Json.boolean b) = (Json.boolean b, false)
  truncate_json depth max' (Json.number t) = (Json.number t, false)
  truncate_json depth max' (Json.string t) = (Json.string t, false)

  pub truncate_items : ℕ → ℕ → JsonItems → JsonItems × Bool
  truncate_items depth max' JsonItems.nil = (JsonItems.nil, false)
  truncate_items depth max' (JsonItems.cons v vs) = (
    JsonItems.cons (truncate_json depth max' v).0 (truncate_items depth max' vs).0,
    (truncate_json depth max' v).1 || (truncate_items depth max' vs).1,
  )

  pub truncate_fields : ℕ → ℕ → JsonFields → JsonFields × Bool
  truncate_fields depth max' JsonFields.end = (JsonFields.end, false)
  truncate_fields depth max' (JsonFields.field k v fs) = (
    JsonFields.field k (truncate_json depth max' v).0 (truncate_fields depth max' fs).0,
    (truncate_json depth max' v).1 || (truncate_fields depth max' fs).1,
  )

pub record RetainedCell : Type 0 where
  pub cell : Cell
  pub retained_bytes : ℕ
  pub truncation : Option CellTruncation
  pub depth_truncated : Bool

-- `truncated.then_some(CellTruncation { … })`.
abbrev pub truncation_if : Bool → ℕ → ℕ → CellTruncationKind → ℕ → ℕ → Option CellTruncation
truncation_if true row column kind retained original = some (record {
  row_index = row;
  column_index = column;
  kind = kind;
  retained_bytes = retained;
  original_len = some original;
  truncated = true;
})
truncation_if false row column kind retained original = none

abbrev pub plain_cell : Cell → ℕ → RetainedCell
plain_cell cell n = record {
  cell = cell;
  retained_bytes = n;
  truncation = none;
  depth_truncated = false;
}

abbrev pub is_some : Option ℕ → Bool
is_some none = false
is_some (some n) = true

abbrev pub or_else : Option ℕ → ℕ → ℕ
or_else none d = d
or_else (some n) d = n

pub retain_text_cell : Text → Option ℕ → ℕ → ℕ → ℕ → RetainedCell
unfolding truncate_utf8
retain_text_cell preview declared cap row column =
    let original_len = max (or_else declared (str_len preview)) (str_len preview) in
    let kept = truncate_utf8 preview cap in
    let truncated = is_some declared || ltb (str_len kept) original_len in
    record {
      cell = if truncated then Cell.text_preview kept original_len else Cell.text kept;
      retained_bytes = str_len kept;
      truncation =
          truncation_if truncated row column CellTruncationKind.text (str_len kept) original_len;
      depth_truncated = false;
    }

pub retain_complete_string_cell : Text → ℕ → (Text → Cell) → Option RetainedCell
retain_complete_string_cell value cap wrap =
    if ltb cap (str_len value) then none else some (plain_cell (wrap value) (str_len value))

pub retain_bytes_cell : List ℕ → ℕ → ℕ → ℕ → ℕ → RetainedCell
retain_bytes_cell retained declared cap row column =
    let original_len = max declared (length retained) in
    let kept = take cap retained in
    record {
      cell = Cell.bytes kept original_len;
      retained_bytes = length kept;
      truncation =
          truncation_if (ltb (length kept) original_len) row column CellTruncationKind.bytes
            (length kept) original_len;
      depth_truncated = false;
    }

pub truncate_to : Option ℕ → Json → Json × Bool
unfolding truncate_json
truncate_to none value = (value, false)
truncate_to (some depth) value = truncate_json 1 depth value

module _ (printing : Printing) where
  pub retain_json_cell : Json → ℕ → Option ℕ → ℕ → ℕ → RetainedCell
  unfolding truncate_utf8 truncate_to
  retain_json_cell value cap depth row column =
      let original_len = str_len (printing.json_text value) in
      let (shallow, depth_truncated) = truncate_to depth value in
      let encoded = printing.json_text shallow in
      let kept = truncate_utf8 encoded cap in
      let truncated = depth_truncated || ltb (str_len kept) (str_len encoded) in
      record {
        cell = if truncated then Cell.json_preview kept original_len else Cell.json shallow;
        retained_bytes = str_len kept;
        truncation =
            truncation_if truncated row column CellTruncationKind.json (str_len kept) original_len;
        depth_truncated = depth_truncated;
      }

  -- `None` drops the row.
  pub retain_cell : Cell → ℕ → Option ℕ → ℕ → ℕ → Option RetainedCell
  unfolding retain_text_cell retain_complete_string_cell retain_bytes_cell retain_json_cell
  retain_cell (Cell.text value) cap depth row column =
      some (retain_text_cell value none cap row column)
  retain_cell (Cell.text_preview preview original_len) cap depth row column =
      some (retain_text_cell preview (some original_len) cap row column)
  retain_cell (Cell.decimal value) cap depth row column =
      retain_complete_string_cell value cap Cell.decimal
  retain_cell (Cell.date_time value) cap depth row column =
      retain_complete_string_cell value cap Cell.date_time
  retain_cell (Cell.bytes retained original_len) cap depth row column =
      some (retain_bytes_cell retained original_len cap row column)
  retain_cell (Cell.json value) cap depth row column =
      some (retain_json_cell value cap depth row column)
  retain_cell (Cell.json_preview preview declared) cap depth row column =
      let original_len = max declared (str_len preview) in
      let kept = truncate_utf8 preview cap in
      some (record {
        cell = Cell.json_preview kept original_len;
        retained_bytes = str_len kept;
        truncation =
            truncation_if true row column CellTruncationKind.json (str_len kept) original_len;
        depth_truncated = false;
      })
  retain_cell Cell.null cap depth row column = some (plain_cell Cell.null 4)
  retain_cell (Cell.boolean b) cap depth row column = some (plain_cell (Cell.boolean b) 5)
  retain_cell (Cell.int i) cap depth row column =
      some (plain_cell (Cell.int i) (str_len (display_int i)))
  retain_cell (Cell.uint n) cap depth row column =
      some (plain_cell (Cell.uint n) (str_len (display_uint n)))
  retain_cell (Cell.float bits) cap depth row column =
      some (plain_cell (Cell.float bits) (str_len (printing.display_f64 bits)))
