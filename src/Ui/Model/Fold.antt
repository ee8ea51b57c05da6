-- ===== src/Ui/Model/Fold.antt =====
-- `UiModel::fold` of src/ui/model.rs.
use dbotter.Prelude.{ℕ, Bool, false, not, Option, none, some, ◌++◌, ◌==◌, if◌then◌else◌}
use dbotter.Text.{Text, codes}
use dbotter.Model.Operations.{
  OperationKind, connect_profile, disconnect_profile, reconnect_profile, execute_read,
  execute_mutation, PublicSummary, message,
}
use dbotter.PublicErrors.{PublicOperationError}
use dbotter.Export.Scalars.{display_uint}
use dbotter.Ui.ResultView.{is_some_eq}
use dbotter.Ui.Model.{
  ProfileWorkspace, ConnectionFailureOutcome, ConnectionState, pending, failed, UiEvent, UiModel,
  with_workspace, workspace_at, profiles_loaded, profiles_failed, profile_saved,
  profile_create_failed, profile_update_failed, credentials_stored, credentials_store_failed,
  connection_ready, connection_closed, draft_connection_ready, draft_operation_failed,
  query_finished, result_exported, result_export_failed, catalog_page_loaded, catalog_page_failed,
  redis_keys_loaded, redis_keys_failed, redis_key_inspected, redis_key_inspect_failed,
  operation_failed, execute_unavailable, profile_deleted, config_uncertain, runtime_shutdown,
}
use dbotter.Ui.Model.Profiles.{
  with_status, accept_profiles_operation, fold_saved, fold_deleted, fold_profiles_loaded,
  fold_uncertain, fold_shutdown,
}
use dbotter.Ui.Model.Sessions.{
  if_current, with_state, is_pending_by, apply_outcome, fold_credentials_stored, fold_ready,
  fold_closed, fold_unavailable, fold_finished, fold_catalog_loaded, fold_catalog_failed,
  fold_keys_loaded, fold_keys_failed, fold_inspected, fold_inspect_failed,
}

-- A pending operation of the profile other than the failed one.
abbrev pub is_uncorrelated : Option ConnectionState → ℕ → Bool
is_uncorrelated (some (pending o)) operation = not (o == operation)
is_uncorrelated _ operation = false

abbrev failed_state : PublicSummary → ConnectionFailureOutcome → ConnectionState
failed_state PublicSummary.credential_required ConnectionFailureOutcome.needs_credential =
    ConnectionState.needs_credential
failed_state summary outcome = failed summary

abbrev pub fail_pending : UiModel → ℕ → Text → PublicSummary → ConnectionState → UiModel
fail_pending m operation profile summary state =
    if is_pending_by (m.connection_states profile) operation
    then with_status (with_state m profile state) (message summary)
    else m

abbrev pub with_error : PublicOperationError → ProfileWorkspace → ProfileWorkspace
with_error error w = record w { pending_execute = none; error = some error }

abbrev pub fail_execute : UiModel → ℕ → Text → ℕ → PublicOperationError → UiModel
fail_execute m operation profile generation error =
    if is_some_eq (workspace_at m profile generation).pending_execute operation
    then with_status (with_workspace m profile generation (with_error error))
        (message error.summary)
    else with_workspace m profile generation (λ w. w)

abbrev pub outcome_if : Bool → UiModel → Text → ConnectionFailureOutcome → UiModel
outcome_if test m profile outcome = if test then apply_outcome m profile outcome else m

unfoldable pub fail_operation :
    UiModel
    → ℕ
    → Text
    → ℕ
    → OperationKind
    → PublicOperationError
    → ConnectionFailureOutcome
    → UiModel
fail_operation m operation profile generation connect_profile error outcome =
    fail_pending m operation profile error.summary (failed_state error.summary outcome)
fail_operation m operation profile generation reconnect_profile error outcome =
    fail_pending m operation profile error.summary (failed_state error.summary outcome)
fail_operation m operation profile generation disconnect_profile error outcome =
    outcome_if (not (is_uncorrelated (m.connection_states profile) operation))
      (fail_pending m operation profile error.summary (failed error.summary)) profile outcome
fail_operation m operation profile generation execute_read error outcome =
    outcome_if (not (is_uncorrelated (m.connection_states profile) operation))
      (fail_execute m operation profile generation error) profile outcome
fail_operation m operation profile generation execute_mutation error outcome =
    outcome_if (not (is_uncorrelated (m.connection_states profile) operation))
      (fail_execute m operation profile generation error) profile outcome
fail_operation m operation profile generation kind error outcome =
    outcome_if (not (is_uncorrelated (m.connection_states profile) operation))
      (with_status m (message error.summary)) profile outcome

unfoldable pub fold_failed :
    UiModel
    → ℕ
    → Text
    → ℕ
    → OperationKind
    → PublicOperationError
    → ConnectionFailureOutcome
    → UiModel
unfolding fail_operation
fold_failed m operation profile generation kind error outcome =
    if_current m profile generation
      (fail_operation m operation profile generation kind error outcome)

unfoldable pub fold : UiModel → UiEvent → UiModel
fold m (profiles_loaded operation profiles config) =
    fold_profiles_loaded m operation profiles config
fold m (profiles_failed operation summary error) =
    accept_profiles_operation m operation
      (record m { last_profiles_operation = some operation; status = message error.summary })
fold m (profile_saved operation profile previous generation retained warning) =
    fold_saved m profile previous generation retained warning
fold m (profile_create_failed operation draft summary error) = with_status m (message error.summary)
fold m (profile_update_failed operation profile generation summary error) =
    with_status m (message error.summary)
fold m (credentials_stored operation profile generation) =
    fold_credentials_stored m profile generation
fold m (credentials_store_failed operation profile generation summary error) =
    if_current m profile generation (with_status m (message error.summary))
fold m (connection_ready operation profile generation session elapsed) =
    fold_ready m operation profile generation session elapsed
fold m (connection_closed operation profile generation post_close) =
    fold_closed m operation profile generation post_close
fold m (draft_connection_ready operation draft elapsed) =
    with_status m (codes "Draft connection ready in " ++ (display_uint elapsed ++ codes " ms"))
fold m (draft_operation_failed operation draft summary error) =
    with_status m (message error.summary)
fold m (query_finished operation profile generation session result) =
    fold_finished m operation profile generation session result
fold m (result_exported operation result format replace row_count bytes_written) = with_status m (
    codes "Exported "
    ++ (display_uint row_count
        ++ (codes " rows (" ++ (display_uint bytes_written ++ codes " bytes)."))))
fold m (result_export_failed operation result format replace summary error committed) =
    with_status m (message error.summary)
fold m (catalog_page_loaded page session disposition) =
    fold_catalog_loaded m page session disposition
fold m (catalog_page_failed request summary error session disposition) =
    fold_catalog_failed m request error session disposition
fold m (redis_keys_loaded page session disposition) = fold_keys_loaded m page session disposition
fold m (redis_keys_failed request error session disposition outcome) =
    fold_keys_failed m request error session disposition outcome
fold m (redis_key_inspected preview session disposition) =
    fold_inspected m preview session disposition
fold m (redis_key_inspect_failed request error session disposition outcome) =
    fold_inspect_failed m request error session disposition outcome
fold m
      (operation_failed operation profile generation session kind summary error disposition
        outcome) =
    fold_failed m operation profile generation kind error outcome
fold m (execute_unavailable operation profile generation summary) =
    fold_unavailable m operation profile generation summary
fold m (profile_deleted operation profile generation unknown) =
    fold_deleted m profile generation unknown
fold m (config_uncertain operation) = fold_uncertain m operation
fold m (runtime_shutdown operation) = fold_shutdown m
