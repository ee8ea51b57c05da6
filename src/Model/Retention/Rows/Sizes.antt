-- ===== src/Model/Retention/Rows/Sizes.antt =====
-- The bytes of what `ResultSnapshot::retain` of src/model.rs keeps, measured on the data.
use dbotter.Prelude.{
  ℕ, ◌+◌, ◌-◌, ◌≤◌, ◌≡◌, refl, sym, ap, ◌||◌, inl, inr, List, [], ◌∷◌, ◌++◌, Option, none, some,
  arith, length, ltb, Bool-cases, subst,
}
use dbotter.Text.{Text, str_len, len_utf8}
use dbotter.Model.{Json, Cell, Column}
use dbotter.Export.Scalars.{display_uint, display_int}
use dbotter.Model.Retention.{
  Printing, RetainedCell, retain_cell, truncate_utf8, truncate_to, retain_text_cell,
  retain_complete_string_cell, retain_bytes_cell, retain_json_cell, plain_cell,
}

-- Of the columns, their names and their types.
pub columns_bytes : List Column → ℕ
columns_bytes [] = 0
columns_bytes (c ∷ cs) = str_len c.name + str_len c.type_name + columns_bytes cs

pub columns_bytes-nil : columns_bytes [] ≡ 0
unfolding columns_bytes
columns_bytes-nil = refl

pub columns_bytes-append :
    (cs : List Column) (c : Column)
    → columns_bytes (cs ++ c ∷ []) ≡ columns_bytes cs + (str_len c.name + str_len c.type_name)
unfolding columns_bytes
columns_bytes-append [] c = omega arith
columns_bytes-append (d ∷ cs) c = omega (arith, columns_bytes-append cs c)

truncate_utf8-le : (s : Text) (limit : ℕ) → str_len (truncate_utf8 s limit) ≤ str_len s
unfolding truncate_utf8
truncate_utf8-le [] limit = omega arith
truncate_utf8-le (c ∷ s) limit = ground (arith, truncate_utf8-le s (limit - len_utf8 c))

module _ (printing : Printing) where
  -- A text has its length, a preview that of its text; what is no text has the length of what is
  -- shown for it, and nothing has the four of `NULL` and a truth value the five of `false`.
  pub cell_size : Cell → ℕ
  cell_size Cell.null = 4
  cell_size (Cell.boolean b) = 5
  cell_size (Cell.int i) = str_len (display_int i)
  cell_size (Cell.uint n) = str_len (display_uint n)
  cell_size (Cell.float bits) = str_len (printing.display_f64 bits)
  cell_size (Cell.decimal t) = str_len t
  cell_size (Cell.date_time t) = str_len t
  cell_size (Cell.text t) = str_len t
  cell_size (Cell.text_preview t n) = str_len t
  cell_size (Cell.bytes b n) = length b
  cell_size (Cell.json v) = str_len (printing.json_text v)
  cell_size (Cell.json_preview t n) = str_len t

  of_some :
      (kept r : RetainedCell)
      → ◌≡◌ {A = Option RetainedCell} (some kept) (some r)
      → kept.retained_bytes ≡ cell_size kept.cell
      → r.retained_bytes ≡ cell_size r.cell
  of_some kept r e size =
      let same : kept ≡ r = ap (λ o. elim o [ none ↦ kept | some x ↦ x ]) e in
      subst (λ x. x.retained_bytes ≡ cell_size x.cell) same size

  bytes-size :
      (b : List ℕ) (n limit i j : ℕ)
      → let r = retain_bytes_cell b n limit i j in r.retained_bytes ≡ cell_size r.cell
  unfolding retain_bytes_cell cell_size
  bytes-size b n limit i j = refl

  text-size :
      (preview : Text) (declared : Option ℕ) (limit i j : ℕ)
      → let r = retain_text_cell preview declared limit i j in r.retained_bytes ≡ cell_size r.cell
  unfolding retain_text_cell cell_size
  text-size preview declared limit i j = ground arith

  string-size :
      (t : Text) (limit : ℕ) (wrap : Text → Cell) (r : RetainedCell)
      → cell_size (wrap t) ≡ str_len t
      → retain_complete_string_cell t limit wrap ≡ some r
      → r.retained_bytes ≡ cell_size r.cell
  unfolding retain_complete_string_cell
  string-size t limit wrap r size e = elim (Bool-cases (ltb limit (str_len t))) [
    | inl large ↦ absurd (ground arith)
    | inr fits ↦ of_some (plain_cell (wrap t) (str_len t)) r (rw fits at e) (sym size)
  ]

  json-size :
      (v : Json) (limit : ℕ) (depth : Option ℕ) (i j : ℕ)
      → let r = retain_json_cell printing v limit depth i j in r.retained_bytes ≡ cell_size r.cell
  unfolding retain_json_cell cell_size
  json-size v limit depth i j =
      let shallow = truncate_to depth v in
      let encoded = printing.json_text shallow.0 in
      let kept = truncate_utf8 encoded limit in
      elim (Bool-cases (shallow.1 || ltb (str_len kept) (str_len encoded))) [
        | inl cut ↦ rw cut refl
        | inr whole ↦ rw whole (ground (arith, truncate_utf8-le encoded limit))
      ]

  -- The bytes that are counted for a cell are those of the cell that is kept for it.
  pub retain_cell-size :
      (cell : Cell) (limit : ℕ) (depth : Option ℕ) (i j : ℕ) (r : RetainedCell)
      → retain_cell printing cell limit depth i j ≡ some r
      → r.retained_bytes ≡ cell_size r.cell
  unfolding retain_cell cell_size
  retain_cell-size (Cell.text t) limit depth i j r e = of_some _ r e (text-size t none limit i j)
  retain_cell-size (Cell.text_preview t n) limit depth i j r e =
      of_some _ r e (text-size t (some n) limit i j)
  retain_cell-size (Cell.decimal t) limit depth i j r e = string-size t limit Cell.decimal r refl e
  retain_cell-size (Cell.date_time t) limit depth i j r e =
      string-size t limit Cell.date_time r refl e
  retain_cell-size (Cell.bytes b n) limit depth i j r e = of_some _ r e (bytes-size b n limit i j)
  retain_cell-size (Cell.json v) limit depth i j r e = of_some _ r e (json-size v limit depth i j)
  retain_cell-size (Cell.json_preview t n) limit depth i j r e = of_some _ r e refl
  retain_cell-size Cell.null limit depth i j r e = of_some _ r e refl
  retain_cell-size (Cell.boolean b) limit depth i j r e = of_some _ r e refl
  retain_cell-size (Cell.int n) limit depth i j r e = of_some _ r e refl
  retain_cell-size (Cell.uint n) limit depth i j r e = of_some _ r e refl
  retain_cell-size (Cell.float bits) limit depth i j r e = of_some _ r e refl

  pub row_size : List Cell → ℕ
  unfolding cell_size
  row_size [] = 0
  row_size (cell ∷ row) = cell_size cell + row_size row

  pub row_size-nil : row_size [] ≡ 0
  unfolding row_size
  row_size-nil = refl

  pub row_size-append :
      (row : List Cell) (cell : Cell) → row_size (row ++ cell ∷ []) ≡ row_size row + cell_size cell
  unfolding row_size
  row_size-append [] cell = omega arith
  row_size-append (first ∷ row) cell = omega (arith, row_size-append row cell)

  pub rows_bytes : List (List Cell) → ℕ
  unfolding row_size
  rows_bytes [] = 0
  rows_bytes (row ∷ rows) = row_size row + rows_bytes rows

  pub rows_bytes-nil : rows_bytes [] ≡ 0
  unfolding rows_bytes
  rows_bytes-nil = refl

  pub rows_bytes-append :
      (rows : List (List Cell)) (row : List Cell)
      → rows_bytes (rows ++ row ∷ []) ≡ rows_bytes rows + row_size row
  unfolding rows_bytes
  rows_bytes-append [] row = omega arith
  rows_bytes-append (first ∷ rows) row = omega (arith, rows_bytes-append rows row)
