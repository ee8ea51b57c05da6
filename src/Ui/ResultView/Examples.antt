-- ===== src/Ui/ResultView/Examples.antt =====
-- The theorems on src/ui/result_view.rs at a result of two rows.
use dbotter.Prelude.{◌≡◌, refl, true, false, none, some, [], ◌∷◌, ◌==◌, ◌&&◌}
use dbotter.Export.Tables.Examples.{two_rows}
use dbotter.Ui.ResultView.{ResultViewState, default_view, synchronize, begin_export, finish_export}
use dbotter.Export.Tables.Examples.{no_formats}
use dbotter.Export.Tables.{write_tsv}
use dbotter.Ui.ResultView.Copy.{copy_all_rows, document, copy_all_rows-write_tsv}
use dbotter.Ui.ResultView.Bounds.{IsWithin, synchronize-IsWithin, finish_export-begin_export}

abbrev wide_view : ResultViewState
wide_view = record default_view {
  result_id = some 1;
  selected_rows = 0 ∷ 1 ∷ 2 ∷ [];
  selected_cell = some (1, 2);
}

-- Of the three rows two are left, and the cell that is too far right is not.
wide_view-synchronized :
    synchronize wide_view two_rows
    ≡ record wide_view { selected_rows = 0 ∷ 1 ∷ []; selected_cell = none }
unfolding synchronize
wide_view-synchronized = refl

synchronize-IsWithin_example : IsWithin two_rows (synchronize wide_view two_rows)
synchronize-IsWithin_example = synchronize-IsWithin wide_view two_rows

begun_at_once : (begin_export wide_view 1 5).1 ≡ true
unfolding begin_export
begun_at_once = refl

finish_export-begin_export_example :
    let begun = (begin_export wide_view 1 5).0 in
    (wide_view.result_id ≡ some 1)
    × (wide_view.pending_export ≡ none)
    × (begun ≡ record wide_view { pending_export = some 5 })
    × (begin_export begun 1 6 ≡ (begun, false))
    × (finish_export begun 1 5 ≡ (wide_view, true))
    × ((1 == 1 && 6 == 5) ≡ false → finish_export begun 1 6 ≡ (begun, false))
finish_export-begin_export_example = finish_export-begin_export wide_view 1 5 1 6 begun_at_once

copy_all_rows-write_tsv_example :
    copy_all_rows no_formats two_rows ≡ document (write_tsv no_formats two_rows)
copy_all_rows-write_tsv_example = copy_all_rows-write_tsv no_formats two_rows
