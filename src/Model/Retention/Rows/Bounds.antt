-- ===== src/Model/Retention/Rows/Bounds.antt =====
-- What a retained result of src/model.rs never exceeds.
use mathlib.Core.Bool.{false≢true}
use dbotter.Prelude.{
  sym, ℕ, ◌+◌, ◌-◌, ◌≤◌, ◌≡◌, refl, Bool, true, false, ◌||◌, inl, inr, not, ◌&&◌, ==_iff, List, [],
  ◌∷◌, ◌++◌, arith, length, take, length-append, length-take, All, All-append, Bool-cases,
  Option-cases, ◌⊎◌, ltb, leb, ◌==◌, min,
}
use dbotter.Text.{str_len}
use dbotter.Model.{Cell, Column, QueryResult, ResultProvenance}
use dbotter.Model.Retention.{
  max_result_columns, max_result_bytes, max_result_notices, RetentionPolicy, row_limit, cell_limit,
  Printing, retain_cell, RetainedCell, cell_bytes, max_depth,
}
use dbotter.Model.Retention.Rows.Sizes.{
  columns_bytes, columns_bytes-nil, columns_bytes-append, cell_size, retain_cell-size, row_size,
  row_size-nil, row_size-append, rows_bytes, rows_bytes-nil, rows_bytes-append,
}
use dbotter.Model.Retention.Rows.{
  ColumnState, retain_columns, RowState, RowEnd, keep_cell, Kept, retain_cells, start_row,
  finish_row, retain_row, stop_rows, retain_rows, retained_columns, retained_rows, retain,
  first_notices, allowed_cells, is_dropped, last_notices, first_kept,
}

retain_columns-bounds :
    (s : ColumnState) (cs : List Column)
    → s.bytes ≤ max_result_bytes
    → s.bytes ≡ columns_bytes s.columns
    → ((retain_columns s cs).bytes ≤ max_result_bytes)
      × ((retain_columns s cs).bytes ≡ columns_bytes (retain_columns s cs).columns)
      × (length (retain_columns s cs).columns ≤ length s.columns + length cs)
unfolding retain_columns
retain_columns-bounds s [] h z = (h, z, omega arith)
retain_columns-bounds s (c ∷ cs) h z = ground (
  arith,
  retain_columns-bounds
      (record {
        columns = s.columns ++ c ∷ [];
        bytes = s.bytes + (str_len c.name + str_len c.type_name);
        notices = s.notices;
      })
      cs,
  length-append s.columns (c ∷ []),
  columns_bytes-append s.columns c,
)

kept_bytes :
    (s : RowState) (r : RetainedCell)
    → s.bytes ≤ max_result_bytes
    → ltb (max_result_bytes - s.bytes) r.retained_bytes ≡ false
    → (keep_cell s r).bytes ≤ max_result_bytes
unfolding keep_cell
kept_bytes s r h fits = ground arith

kept_size :
    (printing : Printing) (s : RowState) (r : RetainedCell)
    → r.retained_bytes ≡ cell_size printing r.cell
    → (keep_cell s r).bytes + row_size printing s.row
      ≡ s.bytes + row_size printing (keep_cell s r).row
unfolding keep_cell
kept_size printing s r size = omega (arith, size, row_size-append printing s.row r.cell)

kept_row :
    (s : RowState) (r : RetainedCell)
    → (length (keep_cell s r).row ≡ length s.row + 1) × ((keep_cell s r).cells ≡ s.cells + 1)
unfolding keep_cell
kept_row s r = (omega (arith, length-append s.row (r.cell ∷ [])), refl)

row_room :
    (columns source limit used cut row : ℕ)
    → cut ≡ min (min (min columns source) (limit - used)) source
    → row ≤ cut
    → used ≤ limit
    → used + row ≤ limit
row_room columns source limit used cut row e w l = omega arith

-- What the test of a finished row leaves.
row_width : (m c : ℕ) (d : Bool) → d || (not (m == c) && not (c == 0)) ≡ false → (m ≡ c) ⊎ (c ≡ 0)
row_width m c true h = absurd (ground arith)
row_width m c false h = elim (Bool-cases (m == c)) [
  | inl e ↦ inl ((==_iff m c).0 e)
  | inr n ↦ elim (Bool-cases (c == 0)) [
    | inl z ↦ inr ((==_iff c 0).0 z)
    | inr o ↦ absurd (false≢true (sym (rw (n, o) at h)))
  ]
]

-- The cells of a list of rows.
pub total_cells : List (List Cell) → ℕ
total_cells [] = 0
total_cells (row ∷ rows) = length row + total_cells rows

no_cells : total_cells [] ≡ 0
unfolding total_cells
no_cells = refl

total_cells-append :
    (rows : List (List Cell)) (row : List Cell)
    → total_cells (rows ++ row ∷ []) ≡ total_cells rows + length row
unfolding total_cells
total_cells-append [] row = omega arith
total_cells-append (first ∷ rows) row = omega (arith, total_cells-append rows row)

module _ (printing : Printing) (policy : RetentionPolicy) where
  -- The bytes stay within the limit, and the cells that a row adds are counted, with their bytes.
  retain_cells-bounds :
      (i j : ℕ) (s : RowState) (cells : List Cell)
      → s.bytes ≤ max_result_bytes
      → let r = (retain_cells printing policy i j s cells).0 in
        (r.bytes ≤ max_result_bytes)
        × (r.cells + length s.row ≡ s.cells + length r.row)
        × (length r.row ≤ length s.row + length cells)
        × (r.bytes + row_size printing s.row ≡ s.bytes + row_size printing r.row)
  unfolding retain_cells
  retain_cells-bounds i j s [] h = (h, refl, omega arith, refl)
  retain_cells-bounds i j s (cell ∷ cells) h =
      let remaining = max_result_bytes - s.bytes in
      elim (Bool-cases (remaining == 0)) [
        | inl full ↦ rw (full, retain_cells) (h, refl, omega arith, refl)
        | inr room ↦
            elim (Option-cases (
              retain_cell printing cell (min (cell_bytes policy) remaining) (max_depth policy) i
                j)) [
                  | inl gone ↦ rw (room, gone, retain_cells) (h, refl, omega arith, refl)
                  | inr (r, e) ↦ elim (Bool-cases (ltb remaining r.retained_bytes)) [
                    | inl large ↦ rw (room, e, large, retain_cells) (h, refl, omega arith, refl)
                    | inr fits ↦
                        let (b, n, l, z) =
                          retain_cells-bounds i (j + 1) (keep_cell s r) cells
                            (kept_bytes s r h fits) in
                        let one = kept_row s r in
                        let size =
                          kept_size printing s r (retain_cell-size printing cell _ _ i j r e) in
                        rw (room, e, fits, retain_cells)
                          (b, omega (arith, n, one), omega (arith, l, one), omega (arith, z, size))
                  ]
                ]
      ]

  -- What holds between two rows, for a number of columns and their bytes.
  pub record Inv (base columns : ℕ) (k : Kept) : Type 0 where
    pub bytes_counted : k.bytes ≡ base + rows_bytes printing k.rows
    pub bytes_le : k.bytes ≤ max_result_bytes
    pub cells_le : k.cells ≤ cell_limit policy
    pub cells_counted : total_cells k.rows ≡ k.cells
    pub widths : All (λ row. (length row ≡ columns) ⊎ (columns ≡ 0)) k.rows

  finish_row-Inv :
      (base columns source_cells allowed : ℕ) (k : Kept) (s : RowState) (end : RowEnd)
      → Inv base columns k
      → s.bytes ≤ max_result_bytes
      → s.cells ≡ k.cells + length s.row
      → k.cells + length s.row ≤ cell_limit policy
      → s.bytes ≡ k.bytes + row_size printing s.row
      → Inv base columns (finish_row printing policy columns source_cells allowed k (s, end)).0
  unfolding finish_row
  finish_row-Inv base columns source_cells allowed k s end v b n l z =
      elim (Bool-cases
        (is_dropped printing policy end || (not (length s.row == columns) && not (columns == 0)))) [
          | inl gone ↦ rw gone (record {
            bytes_counted = v.bytes_counted;
            bytes_le = v.bytes_le;
            cells_le = omega (arith, n, l);
            cells_counted = omega (arith, n, v.cells_counted);
            widths = v.widths;
          })
          | inr kept ↦ rw kept (record {
            bytes_counted =
                omega (arith, z, v.bytes_counted, rows_bytes-append printing k.rows s.row);
            bytes_le = b;
            cells_le = omega (arith, n, l);
            cells_counted = omega (arith, n, v.cells_counted, total_cells-append k.rows s.row);
            widths =
                All-append (λ row. (length row ≡ columns) ⊎ (columns ≡ 0)) k.rows (s.row ∷ [])
                  v.widths (row_width (length s.row) columns _ kept, tt);
          })
        ]

  retain_row-Inv :
      (base columns : ℕ) (k : Kept) (source : List Cell)
      → Inv base columns k
      → Inv base columns (retain_row printing policy columns k source).0
  unfolding retain_row
  retain_row-Inv base columns k source v =
      let allowed = allowed_cells printing policy columns k source in
      let cut = take allowed source in
      let (b, n, l, z) =
        retain_cells-bounds (length k.rows) 0 (start_row printing policy k) cut v.bytes_le in
      let fits : length cut
          ≡ min (min (min columns (length source)) (cell_limit policy - k.cells)) (length source) =
        length-take allowed source in
      let wide : length
            (retain_cells printing policy (length k.rows) 0 (start_row printing policy k) cut).0.row
          ≤ length cut =
        omega (arith, l) in
      let run = retain_cells printing policy (length k.rows) 0 (start_row printing policy k) cut in
      let counted : run.0.cells ≡ k.cells + length run.0.row = omega (arith, n) in
      let weighed : run.0.bytes ≡ k.bytes + row_size printing run.0.row =
        omega (arith, z, row_size-nil printing) in
      finish_row-Inv base columns (length source) allowed k run.0 run.1 v b counted
        (row_room _ _ _ _ _ _ fits wide v.cells_le) weighed

  stop_rows-Inv :
      (base columns : ℕ) (k : Kept)
      → Inv base columns k
      → Inv base columns (stop_rows printing policy k)
  unfolding stop_rows
  stop_rows-Inv base columns k v = record {
    bytes_counted = v.bytes_counted;
    bytes_le = v.bytes_le;
    cells_le = v.cells_le;
    cells_counted = v.cells_counted;
    widths = v.widths;
  }

  retain_rows-Inv :
      (base columns : ℕ) (sources : List (List Cell)) (k : Kept)
      → Inv base columns k
      → Inv base columns (retain_rows printing policy columns k sources)
  unfolding retain_rows
  retain_rows-Inv base columns [] k v = v
  retain_rows-Inv base columns (source ∷ sources) k v =
      let next = retain_row-Inv base columns k source v in
      elim (Bool-cases (leb max_result_bytes k.bytes || leb (cell_limit policy) k.cells)) [
        | inl full ↦ rw (full, retain_rows) (stop_rows-Inv base columns k v)
        | inr room ↦ elim (Bool-cases (retain_row printing policy columns k source).1) [
          | inl on ↦
              rw (room, retain_rows, on)
                (retain_rows-Inv base columns sources
                  (retain_row printing policy columns k source).0 next)
          | inr off ↦ rw (room, retain_rows, off) next
        ]
      ]

  finish_row-count :
      (columns source_cells allowed : ℕ) (k : Kept) (s : RowState) (end : RowEnd)
      → length (finish_row printing policy columns source_cells allowed k (s, end)).0.rows
        ≤ length k.rows + 1
  unfolding finish_row
  finish_row-count columns source_cells allowed k s end =
      elim (Bool-cases
        (is_dropped printing policy end || (not (length s.row == columns) && not (columns == 0)))) [
          | inl gone ↦ rw gone (omega arith)
          | inr kept ↦ rw (kept, length-append k.rows (s.row ∷ [])) (omega arith)
        ]

  retain_row-count :
      (columns : ℕ) (k : Kept) (source : List Cell)
      → length (retain_row printing policy columns k source).0.rows ≤ length k.rows + 1
  unfolding retain_row
  retain_row-count columns k source =
      let run =
        retain_cells printing policy (length k.rows) 0 (start_row printing policy k)
          (take (allowed_cells printing policy columns k source) source) in
      finish_row-count columns (length source) (allowed_cells printing policy columns k source) k
        run.0 run.1

  stop_rows-count : (k : Kept) → length (stop_rows printing policy k).rows ≡ length k.rows
  unfolding stop_rows
  stop_rows-count k = refl

  retain_rows-count :
      (columns : ℕ) (sources : List (List Cell)) (k : Kept)
      → length (retain_rows printing policy columns k sources).rows ≤ length k.rows + length sources
  unfolding retain_rows
  retain_rows-count columns [] k = omega arith
  retain_rows-count columns (source ∷ sources) k =
      let next = retain_row-count columns k source in
      let rest =
        retain_rows-count columns sources (retain_row printing policy columns k source).0 in
      elim (Bool-cases (leb max_result_bytes k.bytes || leb (cell_limit policy) k.cells)) [
        | inl full ↦ rw (full, retain_rows, stop_rows-count k) (omega arith)
        | inr room ↦ elim (Bool-cases (retain_row printing policy columns k source).1) [
          | inl on ↦ rw (room, retain_rows, on) (omega (arith, rest, next))
          | inr off ↦ rw (room, retain_rows, off) (omega (arith, next))
        ]
      ]

  -- The byte count of what the host keeps of a driver's result is that of the names and types of the
  -- columns and of the cells that are kept. It is no more than the limit on a result, and so are the
  -- numbers of columns and notices; the rows and cells are no more than the policy's limits, and no row
  -- differs in width from the columns, unless there are no columns.
  pub retain-bounds :
      (result : QueryResult) (provenance : ResultProvenance)
      → let s = retain printing policy result provenance in
        (s.retained_bytes ≡ columns_bytes s.columns + rows_bytes printing s.rows)
        × (s.retained_bytes ≤ max_result_bytes)
        × (length s.columns ≤ max_result_columns)
        × (length s.notices ≤ max_result_notices)
        × (length s.rows ≤ row_limit policy)
        × (total_cells s.rows ≤ cell_limit policy)
        × All (λ row. (length row ≡ length s.columns) ⊎ (length s.columns ≡ 0)) s.rows
  unfolding retain retained_columns retained_rows
  retain-bounds result provenance =
      let first : ColumnState = record {
        columns = [];
        bytes = 0;
        notices = first_notices printing policy result;
      } in
      let (b, z, c) =
        retain_columns-bounds first (take max_result_columns result.columns) (omega arith)
          (sym columns_bytes-nil) in
      let few = length-take max_result_columns result.columns in
      let kept =
        retain_rows-Inv
          (columns_bytes (retain_columns first (take max_result_columns result.columns)).columns)
          (length (retain_columns first (take max_result_columns result.columns)).columns)
          (take (row_limit policy) result.rows) _
          (record {
            bytes_counted = omega (arith, z, rows_bytes-nil printing);
            bytes_le = b;
            cells_le = omega arith;
            cells_counted = no_cells;
            widths = tt;
          }) in
      (
        kept.bytes_counted,
        kept.bytes_le,
        omega (arith, c, few),
        omega (
          arith,
          length-take max_result_notices (
              last_notices printing policy result
                (retained_rows printing policy result (retained_columns printing policy result))),
        ),
        omega (
          arith,
          length-take (row_limit policy) result.rows,
          retain_rows-count
              (length (retain_columns first (take max_result_columns result.columns)).columns)
              (take (row_limit policy) result.rows)
              (first_kept printing policy result
                (retain_columns first (take max_result_columns result.columns))),
        ),
        omega (arith, kept.cells_counted, kept.cells_le),
        kept.widths,
      )
