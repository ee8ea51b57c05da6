-- ===== src/PublicErrors/Inputs.antt =====
-- The rows of src/public_error.rs for inputs, credentials and permissions.
use mathlib.Core.Option
use dbotter.Prelude.{ℕ, Option, none, some}
use dbotter.Text.{Text}
use dbotter.Model.Operations.{
  OperationKind, load_configuration, migrate_configuration, create_profile, update_profile,
  delete_profile, test_draft_connection, connect_profile, execute_read, execute_mutation,
  browse_mysql, browse_redis, inspect_redis, export_result, ProfileFieldId, PublicCode,
}
use dbotter.PublicErrors.{
  RecoveryAction, open_credential_prompt, edit_draft, edit_profile, focus_editor,
  focus_execute_limits, clear_catalog, restart_redis_scan, choose_export_destination, dismiss_error,
  new, push, one, SafeContext, global, draft, profile, export, draft_field, profile_field,
  credential_field, permission_field, is_credential_operation, is_idempotent,
}
use dbotter.PublicErrors.Offers.{Offer, when, push_retry, edit_draft_field, edit_profile_field}

invalid_update : Text → PublicCode → Offer
unfolding profile_field
invalid_update p PublicCode.profile_stale = one RecoveryAction.reload_configuration
invalid_update p PublicCode.config_external_change = one RecoveryAction.reload_configuration
invalid_update p code = edit_profile_field p (profile_field code)

invalid_delete : ℕ → PublicCode → Offer
invalid_delete o PublicCode.profile_stale = one RecoveryAction.reload_configuration
invalid_delete o PublicCode.config_external_change = one RecoveryAction.reload_configuration
invalid_delete o PublicCode.no_code = one (dismiss_error o)
invalid_delete o _ = none

invalid_execute : Text → PublicCode → Offer
invalid_execute p PublicCode.row_limit = one (focus_execute_limits p)
invalid_execute p PublicCode.timeout_input = one (focus_execute_limits p)
invalid_execute p PublicCode.statement_target = one (focus_editor p)
invalid_execute p PublicCode.ambiguous_sql_mode = one (focus_editor p)
invalid_execute p PublicCode.unterminated_sql_token = one (focus_editor p)
invalid_execute p PublicCode.no_code = one (focus_editor p)
invalid_execute p _ = none

invalid_catalog : Text → ℕ → PublicCode → Offer
invalid_catalog p o PublicCode.catalog = one (clear_catalog p)
invalid_catalog p o PublicCode.no_code = one (dismiss_error o)
invalid_catalog p o _ = none

invalid_scan : Text → ℕ → PublicCode → Offer
invalid_scan p o PublicCode.redis_scan = one (restart_redis_scan p)
invalid_scan p o PublicCode.no_code = one (dismiss_error o)
invalid_scan p o _ = none

unfoldable pub invalid_input : OperationKind → PublicCode → SafeContext → Offer
unfolding draft_field profile_field invalid_update invalid_delete invalid_execute invalid_catalog
    invalid_scan
invalid_input load_configuration code (global o) = one RecoveryAction.reload_configuration
invalid_input OperationKind.reload_configuration code (global o) =
    one RecoveryAction.reload_configuration
invalid_input migrate_configuration code (global o) = one RecoveryAction.reload_configuration
invalid_input create_profile code (draft d o) = edit_draft_field d (draft_field code)
invalid_input test_draft_connection code (draft d o) = edit_draft_field d (draft_field code)
invalid_input update_profile code (profile p o active recipe) = invalid_update p code
invalid_input delete_profile code (profile p o active recipe) = invalid_delete o code
invalid_input connect_profile code (profile p o active recipe) =
    edit_profile_field p (profile_field code)
invalid_input OperationKind.reconnect_profile code (profile p o active recipe) =
    edit_profile_field p (profile_field code)
invalid_input execute_read code (profile p o active recipe) = invalid_execute p code
invalid_input execute_mutation code (profile p o active recipe) = invalid_execute p code
invalid_input browse_mysql code (profile p o active recipe) = invalid_catalog p o code
invalid_input browse_redis code (profile p o active recipe) = invalid_scan p o code
invalid_input inspect_redis code (profile p o active recipe) = one (dismiss_error o)
invalid_input export_result code (export r o committed) = one (choose_export_destination r)
invalid_input _ code _ = none

unfoldable pub credential_required : OperationKind → PublicCode → SafeContext → Offer
unfolding credential_field is_credential_operation
credential_required test_draft_connection code (draft d o) =
    edit_draft_field d (credential_field code)
credential_required kind code (profile p o active recipe) = when (is_credential_operation kind) (
    some (push (new (open_credential_prompt p)) (edit_profile p ProfileFieldId.session_credential)))
credential_required _ code _ = none

authentication_first : Text → PublicCode → Option RecoveryAction
authentication_first p PublicCode.session_credential = some (open_credential_prompt p)
authentication_first p PublicCode.credential_environment_name =
    some (edit_profile p ProfileFieldId.credential_environment_name)
authentication_first p PublicCode.username = some (edit_profile p ProfileFieldId.username)
authentication_first p _ = none

unfoldable pub authentication_failed : OperationKind → PublicCode → SafeContext → Offer
unfolding credential_field is_credential_operation is_idempotent authentication_first
authentication_failed test_draft_connection code (draft d o) =
    edit_draft_field d (credential_field code)
authentication_failed kind code (profile p o active recipe) = when (is_credential_operation kind) (
    Option.map (λ first. push_retry (is_idempotent kind) recipe (new first))
      (authentication_first p code))
authentication_failed _ code _ = none

permission_on : OperationKind → ProfileFieldId → SafeContext → Offer
permission_on test_draft_connection f (draft d o) =
    some (push (new (edit_draft d f)) (dismiss_error o))
permission_on connect_profile f (profile p o active recipe) =
    some (push (new (edit_profile p f)) (dismiss_error o))
permission_on OperationKind.reconnect_profile f (profile p o active recipe) =
    some (push (new (edit_profile p f)) (dismiss_error o))
permission_on browse_mysql f (profile p o active recipe) =
    some (push (new (edit_profile p f)) (dismiss_error o))
permission_on browse_redis f (profile p o active recipe) =
    some (push (new (edit_profile p f)) (dismiss_error o))
permission_on inspect_redis f (profile p o active recipe) =
    some (push (new (edit_profile p f)) (dismiss_error o))
permission_on execute_read f (profile p o active recipe) =
    some (push (new (focus_editor p)) (dismiss_error o))
permission_on execute_mutation f (profile p o active recipe) =
    some (push (new (focus_editor p)) (dismiss_error o))
permission_on _ f _ = none

unfoldable pub permission_denied : OperationKind → PublicCode → SafeContext → Offer
unfolding permission_field permission_on
permission_denied operation code context = elim (permission_field code) [
  | none ↦ none
  | some f ↦ permission_on operation f context
]
