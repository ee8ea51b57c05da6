-- ===== src/Model/Retention/Rows/Examples.antt =====
-- The theorems on the retention of src/model.rs at a small result.
use dbotter.Prelude.{◌+◌, ◌≤◌, ◌≡◌, ◌⊎◌, true, [], ◌∷◌, none, All, length}
use dbotter.Text.{codes}
use dbotter.Model.{DriverKind, pos, Cell, QueryResult, ResultProvenance}
use dbotter.Model.Retention.{
  max_result_bytes, max_result_columns, max_result_notices, Printing, RetentionPolicy, row_limit,
  cell_limit,
}
use dbotter.Model.Retention.Rows.{retain}
use dbotter.Model.Retention.Rows.Sizes.{columns_bytes, rows_bytes}
use dbotter.Model.Retention.Rows.Bounds.{total_cells, retain-bounds}

abbrev no_printing : Printing
no_printing = record { json_text = λ j. []; display_f64 = λ b. [] }

abbrev provenance : ResultProvenance
provenance = record {
  result_id = 1;
  profile_id = codes "p";
  profile_generation = 1;
  operation_id = 1;
  driver = DriverKind.redis;
  completed_at_unix_ms = pos 0;
  duration_ms = 3;
}

abbrev reply : QueryResult
reply = record {
  columns = record { name = codes "value"; type_name = codes "bulk" } ∷ [];
  rows = (Cell.text (codes "a") ∷ []) ∷ (Cell.null ∷ Cell.null ∷ []) ∷ [];
  affected_rows = 0;
  last_insert_id = none;
  elapsed_ms = 3;
  truncated = true;
  backend_notices_present = true;
}

retain-bounds_example :
    let s = retain no_printing (RetentionPolicy.redis 1) reply provenance in
    (s.retained_bytes ≡ columns_bytes s.columns + rows_bytes no_printing s.rows)
    × (s.retained_bytes ≤ max_result_bytes)
    × (length s.columns ≤ max_result_columns)
    × (length s.notices ≤ max_result_notices)
    × (length s.rows ≤ row_limit (RetentionPolicy.redis 1))
    × (total_cells s.rows ≤ cell_limit (RetentionPolicy.redis 1))
    × All (λ row. (length row ≡ length s.columns) ⊎ (length s.columns ≡ 0)) s.rows
retain-bounds_example = retain-bounds no_printing (RetentionPolicy.redis 1) reply provenance
