-- ===== src/Ui/ResultView.antt =====
-- `ResultViewState` of src/ui/result_view.rs: what of a result is selected, and its pending export.
use dbotter.Prelude.{
  ℕ, Bool, true, false, ◌&&◌, ◌||◌, not, Option, none, some, List, [], ◌∷◌, length, ltb, leb, ◌==◌,
  is_empty, if◌then◌else◌,
}
use dbotter.Model.{ResultSnapshot}
pub mod Bounds
pub mod Copy
pub mod Examples

-- The selected rows are a set, in any order.
pub record ResultViewState : Type 0 where
  pub result_id : Option ℕ
  pub selected_rows : List ℕ
  pub selected_cell : Option (ℕ × ℕ)
  pub needs_initial_selection : Bool
  pub pending_export : Option ℕ

abbrev pub default_view : ResultViewState
default_view = record {
  result_id = none;
  selected_rows = [];
  selected_cell = none;
  needs_initial_selection = false;
  pending_export = none;
}

-- `option == Some(n)`.
abbrev pub is_some_eq : Option ℕ → ℕ → Bool
is_some_eq none n = false
is_some_eq (some m) n = m == n

abbrev pub is_some : Option ℕ → Bool
is_some none = false
is_some (some m) = true

unfoldable pub reset_for : ResultViewState → ℕ → ResultViewState
reset_for view result = record {
  result_id = some result;
  selected_rows = [];
  selected_cell = none;
  needs_initial_selection = true;
  pending_export = none;
}

pub keep_rows : ℕ → List ℕ → List ℕ
keep_rows limit [] = []
keep_rows limit (row ∷ rows) =
    if ltb row limit then row ∷ keep_rows limit rows else keep_rows limit rows

abbrev pub keep_cell : ℕ → ℕ → Option (ℕ × ℕ) → Option (ℕ × ℕ)
keep_cell rows columns none = none
keep_cell rows columns (some (r, c)) = if leb rows r || leb columns c then none else some (r, c)

-- `BTreeSet::insert`.
abbrev pub insert_row : ℕ → List ℕ → List ℕ
insert_row n [] = n ∷ []
insert_row n (m ∷ ms) = if m == n then m ∷ ms else m ∷ insert_row n ms

abbrev pub select_first : ResultSnapshot → ResultViewState → ResultViewState
select_first result view =
    if view.needs_initial_selection
    then (if not (is_empty result.rows) && not (is_empty result.columns)
        then record view {
          selected_rows = insert_row 0 view.selected_rows;
          selected_cell = some (0, 0);
          needs_initial_selection = false;
        }
        else record view { needs_initial_selection = false })
    else view

abbrev pub retain_within : ResultSnapshot → ResultViewState → ResultViewState
retain_within result view = record view {
  selected_rows = keep_rows (length result.rows) view.selected_rows;
  selected_cell = keep_cell (length result.rows) (length result.columns) view.selected_cell;
}

pub synchronize : ResultViewState → ResultSnapshot → ResultViewState
unfolding reset_for keep_rows
synchronize view result =
    let current =
      if is_some_eq view.result_id result.provenance.result_id
      then view
      else reset_for view result.provenance.result_id in
    select_first result (retain_within result current)

pub begin_export : ResultViewState → ℕ → ℕ → ResultViewState × Bool
begin_export view result operation =
    if not (is_some_eq view.result_id result) || is_some view.pending_export
    then (view, false)
    else (record view { pending_export = some operation }, true)

pub finish_export : ResultViewState → ℕ → ℕ → ResultViewState × Bool
finish_export view result operation =
    if not (is_some_eq view.result_id result) || not (is_some_eq view.pending_export operation)
    then (view, false)
    else (record view { pending_export = none }, true)
