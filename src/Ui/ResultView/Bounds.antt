-- ===== src/Ui/ResultView/Bounds.antt =====
-- What `ResultViewState` of src/ui/result_view.rs selects, and which export it ends.
use dbotter.Prelude.{
  ℕ, ◌≡◌, ◌<◌, inl, inr, true, false, not, ◌&&◌, Option, none, some, List, [], ◌∷◌, length, arith,
  All, is_empty, ◌==◌, if◌then◌else◌, Bool-cases,
}
use dbotter.Model.{ResultSnapshot}
use dbotter.Ui.ResultView.{
  ResultViewState, is_some_eq, reset_for, keep_rows, keep_cell, insert_row, select_first,
  retain_within, synchronize, begin_export, finish_export,
}

-- The selected rows and the selected cell are of the result.
pub record IsWithin (result : ResultSnapshot) (view : ResultViewState) : Type 0 where
  pub rows : All (λ row. row < length result.rows) view.selected_rows
  pub cell :
      (r c : ℕ)
      → view.selected_cell ≡ some (r, c)
      → (r < length result.rows) × (c < length result.columns)

keep_rows-All : (limit : ℕ) (rows : List ℕ) → All (λ row. row < limit) (keep_rows limit rows)
unfolding keep_rows
keep_rows-All limit [] = tt
keep_rows-All limit (row ∷ rows) = ground (arith, keep_rows-All limit rows)

insert_row-All :
    (limit n : ℕ) (rows : List ℕ)
    → n < limit
    → All (λ row. row < limit) rows
    → All (λ row. row < limit) (insert_row n rows)
insert_row-All limit n [] lt h = (lt, tt)
insert_row-All limit n (m ∷ ms) lt (h, hs) = elim (Bool-cases (m == n)) [
  | inl same ↦ rw same (h, hs)
  | inr other ↦ rw other (h, insert_row-All limit n ms lt hs)
]

keep_cell-within :
    (rows columns r c : ℕ) (cell : Option (ℕ × ℕ))
    → keep_cell rows columns cell ≡ some (r, c)
    → (r < rows) × (c < columns)
keep_cell-within rows columns r c none h = cc
keep_cell-within rows columns r c (some (a, b)) h = ground arith

not_empty {ℓ} : {A : Type ℓ} (xs : List A) → not (is_empty xs) ≡ true → 0 < length xs
not_empty [] h = cc
not_empty (x ∷ xs) h = ground arith

select_first-IsWithin :
    (result : ResultSnapshot) (view : ResultViewState)
    → IsWithin result view
    → IsWithin result (select_first result view)
select_first-IsWithin result view h = elim (Bool-cases view.needs_initial_selection) [
  | inr kept ↦ rw kept (record { rows = h.rows; cell = h.cell })
  | inl first ↦ elim (Bool-cases (not (is_empty result.rows) && not (is_empty result.columns))) [
    | inr void ↦ rw first (rw void (record { rows = h.rows; cell = h.cell }))
    | inl filled ↦
        let row : 0 < length result.rows = not_empty result.rows (ground arith) in
        let column : 0 < length result.columns = not_empty result.columns (ground arith) in
        rw first (
          rw filled (record {
            rows = insert_row-All (length result.rows) 0 view.selected_rows row h.rows;
            cell = λ r c e. ground arith;
          }))
  ]
]

retain-IsWithin :
    (result : ResultSnapshot) (view : ResultViewState) → IsWithin result (retain_within result view)
retain-IsWithin result view = record {
  rows = keep_rows-All (length result.rows) view.selected_rows;
  cell =
      λ r c. keep_cell-within (length result.rows) (length result.columns) r c view.selected_cell;
}

-- After `synchronize` with a result, whatever was selected before, every selected row and the
-- selected cell lie within it.
pub synchronize-IsWithin :
    (view : ResultViewState) (result : ResultSnapshot) → IsWithin result (synchronize view result)
unfolding synchronize
synchronize-IsWithin view result =
    let current =
      if is_some_eq view.result_id result.provenance.result_id
      then view
      else reset_for view result.provenance.result_id in
    select_first-IsWithin result (retain_within result current) (retain-IsWithin result current)

-- An export is begun only for the shown result and while none is pending, and only the pending
-- export of the view changes. Until it is finished no other one is begun. The end of the same
-- operation on the same result finishes it, which leaves the view as it was before; every other
-- beginning and end is refused and changes nothing.
pub finish_export-begin_export :
    (view : ResultViewState) (result operation other_result other : ℕ)
    → (begin_export view result operation).1 ≡ true
    → let begun = (begin_export view result operation).0 in
      (view.result_id ≡ some result)
      × (view.pending_export ≡ none)
      × (begun ≡ record view { pending_export = some operation })
      × (begin_export begun other_result other ≡ (begun, false))
      × (finish_export begun result operation ≡ (view, true))
      × ((other_result == result && other == operation) ≡ false
          → finish_export begun other_result other ≡ (begun, false))
unfolding begin_export finish_export
finish_export-begin_export view result operation other_result other h = (
  ground arith,
  ground arith,
  ground arith,
  ground arith,
  ground arith,
  λ other_end. ground arith,
)
