-- ===== src/Ui/Model/Examples.antt =====
-- The theorems on src/ui/model.rs at a model with one profile, deleted once and active again.
use dbotter.Prelude.{◌≡◌, ◌<◌, refl, true, false, none, some, [], ◌∷◌, arith, if◌then◌else◌}
use dbotter.Text.{Text, codes}
use dbotter.Model.{my_sql}
use dbotter.Model.Profiles.{TlsMode, CredentialMode, ConnectionProfile}
use dbotter.Export.Tables.Examples.{two_rows}
use dbotter.Ui.Model.{
  UiModel, UiEvent, ProfileSnapshot, DriverAvailability, pending, put, key_eq, new_model,
  new_workspace, workspace_at, event_is_current, connection_ready, query_finished, profile_saved,
  profile_deleted,
}
use dbotter.Ui.Model.Profiles.{
  deletes, fold_saved, save_is_current, fold_deleted, delete_profile, fold_profiles,
}
use dbotter.Ui.Model.Fold.{fold}
use dbotter.Ui.Model.Frame.{Touches}
use dbotter.Ui.Model.Bystanders.{fold-Touches}
use dbotter.Ui.Model.Invariant.{IsConsistent, new_model-IsConsistent}
use dbotter.Ui.Model.Deleted.{
  here, after, folded, reachable-IsConsistent, deleted-later, deleted-silent,
}
use dbotter.Ui.Model.Delivery.{finished-first}
use dbotter.Ui.Model.Selection.{SelectsListed, profiles-SelectsListed}

abbrev p : Text
p = codes "p"

abbrev local : ConnectionProfile
local = record {
  id = p;
  name = codes "local";
  driver = my_sql;
  host = codes "127.0.0.1";
  port = 3306;
  database = none;
  username = none;
  tls = TlsMode.disabled;
  credential_mode = CredentialMode.no_credential;
  secret_env = none;
  redis_tls = record { ca_file = none };
}

abbrev pub local_snapshot : ProfileSnapshot
local_snapshot = record {
  id = p;
  generation = 4;
  name = codes "local";
  driver = my_sql;
  endpoint = codes "127.0.0.1:3306";
  database = none;
  availability = DriverAvailability.ready;
  planned_reason = none;
  has_current_session_secret = false;
  environment_availability = none;
  persisted = local;
}

-- The profile was deleted at generation 3 and is active at 4; operation 9 connects it, and its
-- workspace waits for operation 11.
abbrev live : UiModel
live = record new_model {
  profiles = local_snapshot ∷ [];
  selected_profile = some p;
  active_generations = put (λ k. none) p 4;
  tombstones = put (λ k. none) p 3;
  connection_states = put (λ k. none) p (pending 9);
  workspaces = λ k.
      if key_eq (record { profile_id = p; profile_generation = 4 }) k
      then some (record new_workspace { pending_execute = some 11 })
      else none;
}

fold-Touches_example : Touches p live (fold live (connection_ready 9 p 4 7 12))
fold-Touches_example = fold-Touches live (connection_ready 9 p 4 7 12) p 4 refl

abbrev deletion : UiEvent
deletion = profile_deleted 2 p 4 false

abbrev saved_again : UiEvent
saved_again = profile_saved 3 p none 5 false none

abbrev deleted_and_saved : UiModel
deleted_and_saved = fold (fold new_model deletion) saved_again

reachable-IsConsistent_example : IsConsistent deleted_and_saved
reachable-IsConsistent_example =
    reachable-IsConsistent deleted_and_saved
      (after (after here (folded deletion)) (folded saved_again))

saved_again-active : deleted_and_saved.active_generations p ≡ some 5
unfolding fold new_model fold_saved save_is_current fold_deleted delete_profile
saved_again-active = refl

new_model-deletes : deletes (new_model.active_generations p) 4 ≡ true
unfolding new_model
new_model-deletes = refl

deleted-later_example : 4 < 5
deleted-later_example =
    deleted-later new_model deleted_and_saved p 4 2 5 false new_model-IsConsistent new_model-deletes
      (after here (folded saved_again)) saved_again-active

deleted-silent_example :
    fold deleted_and_saved (query_finished 11 p 4 7 two_rows) ≡ deleted_and_saved
deleted-silent_example =
    deleted-silent new_model deleted_and_saved p 4 2 4 false (query_finished 11 p 4 7 two_rows)
      new_model-deletes (after here (folded saved_again)) refl (omega arith)

live-current : event_is_current live p 4 ≡ true
unfolding event_is_current new_model
live-current = refl

finished-first_example :
    workspace_at
      (fold (fold live (query_finished 11 p 4 7 two_rows)) (query_finished 11 p 4 8 two_rows))
      p
      4
    ≡ record (workspace_at live p 4) {
      result = some two_rows;
      pending_execute = none;
      error = none;
      result_view = record {
        result_id = some two_rows.provenance.result_id;
        selected_rows = [];
        selected_cell = none;
        needs_initial_selection = true;
        pending_export = none;
      };
    }
finished-first_example = finished-first live p 4 11 11 7 8 two_rows two_rows live-current refl

profiles-SelectsListed_example :
    SelectsListed (fold_profiles live (local_snapshot ∷ []))
    × ((fold_profiles live (local_snapshot ∷ [])).selected_profile ≡ none
        → (fold_profiles live (local_snapshot ∷ [])).profiles ≡ [])
profiles-SelectsListed_example = profiles-SelectsListed live (local_snapshot ∷ [])
