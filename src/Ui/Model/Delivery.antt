-- ===== src/Ui/Model/Delivery.antt =====
-- How `UiModel::fold` of src/ui/model.rs delivers the result of a query.
use dbotter.Prelude.{
  ℕ, ◌≡◌, refl, ap, ◌∙◌, inl, inr, true, none, some, [], arith, if◌then◌else◌, Bool-cases, ◌==◌,
}
use dbotter.Text.{Text}
use dbotter.Text.Equality.{text_eq_self}
use dbotter.Model.{ResultSnapshot}
use dbotter.Ui.ResultView.{is_some_eq, reset_for}
use dbotter.Ui.Model.{UiModel, workspace_at, event_is_current, query_finished}
use dbotter.Ui.Model.Sessions.{fold_finished, with_result}
use dbotter.Ui.Model.Fold.{fold}

eq_self : (n : ℕ) → (n == n) ≡ true
eq_self n = ground arith

-- The workspace of a profile at a generation after an answer to it, that it waits for or not.
finished-workspace :
    (m : UiModel) (o : ℕ) (p : Text) (g session : ℕ) (r : ResultSnapshot)
    → event_is_current m p g ≡ true
    → workspace_at (fold_finished m o p g session r) p g ≡ (
        if is_some_eq (workspace_at m p g).pending_execute o
        then with_result r (workspace_at m p g)
        else workspace_at m p g)
unfolding fold_finished
finished-workspace m o p g session r current =
    elim (Bool-cases (is_some_eq (workspace_at m p g).pending_execute o)) [
      | inl awaited ↦ rw current (rw awaited (rw (text_eq_self p) (rw (eq_self g) refl)))
      | inr other ↦ rw current (rw other (rw (text_eq_self p) (rw (eq_self g) refl)))
    ]

finished-current :
    (m : UiModel) (o : ℕ) (p : Text) (g session : ℕ) (r : ResultSnapshot)
    → event_is_current m p g ≡ true
    → event_is_current (fold_finished m o p g session r) p g ≡ true
unfolding fold_finished event_is_current
finished-current m o p g session r current =
    elim (Bool-cases (is_some_eq (workspace_at m p g).pending_execute o)) [
      | inl awaited ↦ rw current (rw awaited current)
      | inr other ↦ rw current (rw other current)
    ]

-- The first answer to the query that a workspace waits for is stored there, the view is that of the
-- result with nothing selected yet and no export, no error and no query is left, and all else in the
-- workspace is kept; no later answer, to that query or to another one, changes this.
pub finished-first :
    (m : UiModel) (p : Text) (g o later session other : ℕ) (first second : ResultSnapshot)
    → event_is_current m p g ≡ true
    → is_some_eq (workspace_at m p g).pending_execute o ≡ true
    → workspace_at
        (fold (fold m (query_finished o p g session first)) (query_finished later p g other second))
        p
        g
      ≡ record (workspace_at m p g) {
        result = some first;
        pending_execute = none;
        error = none;
        result_view = record {
          result_id = some first.provenance.result_id;
          selected_rows = [];
          selected_cell = none;
          needs_initial_selection = true;
          pending_export = none;
        };
      }
unfolding fold reset_for
finished-first m p g o later session other first second current awaited =
    let one = finished-workspace m o p g session first current in
    let next = fold_finished m o p g session first in
    let two =
      finished-workspace next later p g other second
        (finished-current m o p g session first current) in
    let shown : workspace_at next p g ≡ with_result first (workspace_at m p g) =
      one ∙ rw awaited refl in
    two ∙ ap (λ w. if is_some_eq w.pending_execute later then with_result second w else w) shown
