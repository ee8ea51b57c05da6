-- ===== src/Model/Retention/Rows.antt =====
-- The loops of `ResultSnapshot::retain` in src/model.rs: columns, cells of a row, rows.
use dbotter.Prelude.{
  ℕ, zero, suc, ◌+◌, ◌-◌, ◌*◌, Bool, true, false, ◌&&◌, ◌||◌, not, List, [], ◌∷◌, ◌++◌, Option,
  none, some, length, take, is_empty, min, ltb, leb, ◌==◌, if◌then◌else◌,
}
use dbotter.Text.{str_len}
use dbotter.Model.{
  Cell, Column, QueryResult, ResultProvenance, ResultNotice, driver_reported_truncation,
  column_limit_reached, row_limit_reached, snapshot_byte_limit_reached, cell_preview_truncated,
  redis_cell_limit_reached, redis_depth_limit_reached, backend_notices_discarded, CellTruncation,
  ResultSnapshot,
}
use dbotter.Model.Retention.{
  max_result_columns, max_result_bytes, max_result_cell_bytes, max_result_notices, RetentionPolicy,
  row_limit, cell_limit, cell_bytes, max_depth, transient_allocation, transient_notice,
  push_result_notice, Printing, RetainedCell, retain_cell,
}
pub mod Bounds
pub mod Sizes
pub mod Examples

-- `if test { push_result_notice(…) }`.
abbrev pub push_if : Bool → List ResultNotice → ResultNotice → List ResultNotice
push_if test notices n = if test then push_result_notice notices n else notices

pub record ColumnState : Type 0 where
  pub columns : List Column
  pub bytes : ℕ
  pub notices : List ResultNotice

-- The loop over the columns, which are already cut to the column limit. A column that is too
-- large, or does not fit, ends it.
pub retain_columns : ColumnState → List Column → ColumnState
retain_columns s [] = s
retain_columns s (c ∷ cs) =
    let size = str_len c.name + str_len c.type_name in
    let next : ColumnState = record {
      columns = s.columns ++ c ∷ [];
      bytes = s.bytes + size;
      notices = s.notices;
    } in
    let rest = retain_columns next cs in
    if ltb max_result_cell_bytes size || ltb max_result_bytes (s.bytes + size)
    then record s { notices = push_result_notice s.notices snapshot_byte_limit_reached }
    else rest

pub record RowState : Type 0 where
  pub bytes : ℕ
  pub cells : ℕ
  pub row : List Cell
  pub truncations : List CellTruncation
  pub notices : List ResultNotice
  pub truncated : Bool

-- How the loop over a row's cells ended: all taken, left early, or left to drop the row.
pub data RowEnd : Type 0 where
  complete incomplete dropped : RowEnd

abbrev pub add_truncation : List CellTruncation → Option CellTruncation → List CellTruncation
add_truncation ts none = ts
add_truncation ts (some t) = ts ++ t ∷ []

abbrev pub is_cut : Option CellTruncation → Bool
is_cut none = false
is_cut (some t) = true

pub keep_cell : RowState → RetainedCell → RowState
keep_cell s r = record {
  bytes = s.bytes + r.retained_bytes;
  cells = s.cells + 1;
  row = s.row ++ r.cell ∷ [];
  truncations = add_truncation s.truncations r.truncation;
  notices =
      push_if (is_cut r.truncation) (push_if r.depth_truncated s.notices redis_depth_limit_reached)
        cell_preview_truncated;
  truncated = is_cut r.truncation || s.truncated;
}

pub record Kept : Type 0 where
  pub bytes : ℕ
  pub cells : ℕ
  pub rows : List (List Cell)
  pub truncations : List CellTruncation
  pub notices : List ResultNotice
  pub truncated : Bool

module _ (printing : Printing) (policy : RetentionPolicy) where
  pub retain_cells : ℕ → ℕ → RowState → List Cell → RowState × RowEnd
  unfolding keep_cell
  retain_cells row_index column_index s [] = (s, complete)
  retain_cells row_index column_index s (cell ∷ cells) =
      let remaining = max_result_bytes - s.bytes in
      elim (remaining == 0) [
        | true ↦ (s, incomplete)
        | false ↦
            elim (retain_cell printing cell (min (cell_bytes policy) remaining) (max_depth policy)
              row_index column_index) [
                | none ↦ (s, dropped)
                | some retained ↦ elim (ltb remaining retained.retained_bytes) [
                  | true ↦ (s, incomplete)
                  | false ↦ retain_cells row_index (column_index + 1) (keep_cell s retained) cells
                ]
              ]
      ]

  abbrev pub start_row : Kept → RowState
  start_row k = record {
    bytes = k.bytes;
    cells = k.cells;
    row = [];
    truncations = k.truncations;
    notices = k.notices;
    truncated = k.truncated;
  }

  abbrev pub is_complete : RowEnd → Bool
  is_complete complete = true
  is_complete _ = false

  abbrev pub is_dropped : RowEnd → Bool
  is_dropped dropped = true
  is_dropped _ = false

  -- Behind the cells of a row. A row that is dropped, or short of the columns, gives back its bytes
  -- and cells, its truncations and its notices, and ends the loop: the flag says whether to go on.
  pub finish_row : ℕ → ℕ → ℕ → Kept → RowState × RowEnd → Kept × Bool
  finish_row columns source_cells allowed k (s, end) =
      let row_complete = is_complete end && not (ltb allowed source_cells || ltb allowed columns) in
      let truncated = s.truncated || not row_complete in
      if is_dropped end || (not (length s.row == columns) && not (columns == 0))
      then (
        record {
          bytes = k.bytes;
          cells = s.cells - length s.row;
          rows = k.rows;
          truncations = k.truncations;
          notices =
              push_result_notice (take (length k.notices) s.notices) snapshot_byte_limit_reached;
          truncated = truncated;
        },
        false,
      )
      else (
        record {
          bytes = s.bytes;
          cells = s.cells;
          rows = k.rows ++ s.row ∷ [];
          truncations = s.truncations;
          notices = s.notices;
          truncated = truncated;
        },
        true,
      )

  -- The cells of one source row that may be kept.
  abbrev pub allowed_cells : ℕ → Kept → List Cell → ℕ
  allowed_cells columns k source = min (min columns (length source)) (cell_limit policy - k.cells)

  pub retain_row : ℕ → Kept → List Cell → Kept × Bool
  unfolding retain_cells finish_row
  retain_row columns k source =
      let allowed = allowed_cells columns k source in
      finish_row columns (length source) allowed k
        (retain_cells (length k.rows) 0 (start_row k) (take allowed source))

  -- No room is left before a row.
  pub stop_rows : Kept → Kept
  stop_rows k = record k {
    truncated = true;
    notices =
        push_if (leb (cell_limit policy) k.cells)
          (push_if (leb max_result_bytes k.bytes) k.notices snapshot_byte_limit_reached)
          redis_cell_limit_reached;
  }

  -- The loop over the rows, which are already cut to the row limit.
  pub retain_rows : ℕ → Kept → List (List Cell) → Kept
  unfolding retain_row stop_rows
  retain_rows columns k [] = k
  retain_rows columns k (source ∷ sources) =
      elim (leb max_result_bytes k.bytes || leb (cell_limit policy) k.cells) [
        | true ↦ stop_rows k
        | false ↦
            let next = retain_row columns k source in
            elim next.1 [ true ↦ retain_rows columns next.0 sources | false ↦ next.0 ]
      ]

  -- The notices that stand before the columns.
  pub first_notices : QueryResult → List ResultNotice
  first_notices result =
      push_if result.backend_notices_present
        (push_if result.truncated
          (push_result_notice [] (transient_notice (transient_allocation policy)))
          driver_reported_truncation)
        backend_notices_discarded

  pub retained_columns : QueryResult → ColumnState
  unfolding retain_columns
  retained_columns result =
      retain_columns (record { columns = []; bytes = 0; notices = first_notices result })
        (take max_result_columns result.columns)

  abbrev pub columns_cut : QueryResult → ColumnState → Bool
  columns_cut result c = ltb (length c.columns) (length result.columns)

  -- What the loop over the rows begins with.
  abbrev pub first_kept : QueryResult → ColumnState → Kept
  first_kept result c = record {
    bytes = c.bytes;
    cells = 0;
    rows = [];
    truncations = [];
    notices = push_if (columns_cut result c) c.notices column_limit_reached;
    truncated = result.truncated || columns_cut result c;
  }

  pub retained_rows : QueryResult → ColumnState → Kept
  unfolding retain_rows
  retained_rows result c =
      retain_rows (length c.columns) (first_kept result c) (take (row_limit policy) result.rows)

  abbrev pub rows_cut : QueryResult → Kept → Bool
  rows_cut result k = ltb (length k.rows) (length result.rows)

  pub last_notices : QueryResult → Kept → List ResultNotice
  last_notices result k =
      push_if (leb (cell_limit policy) k.cells && rows_cut result k)
        (push_if (rows_cut result k) k.notices row_limit_reached) redis_cell_limit_reached

  pub retain : QueryResult → ResultProvenance → ResultSnapshot
  unfolding retained_columns retained_rows last_notices
  retain result provenance =
      let c = retained_columns result in
      let k = retained_rows result c in
      record {
        provenance = provenance;
        columns = c.columns;
        rows = k.rows;
        affected_rows = result.affected_rows;
        last_insert_id = result.last_insert_id;
        truncated = k.truncated || rows_cut result k;
        notices = take max_result_notices (last_notices result k);
        retained_bytes = k.bytes;
        transient_allocation = transient_allocation policy;
        cell_truncations = k.truncations;
      }
