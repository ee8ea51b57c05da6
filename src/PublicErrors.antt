-- ===== src/PublicErrors.antt =====
-- src/public_error.rs: the errors that are shown, each with the actions that help against it. This
-- file has the data and the classes of operations and codes; its children have the rows of the matrix
-- and the matrix.
use dbotter.Prelude.{ℕ, Bool, true, false, Option, none, some, List, [], ◌∷◌, ◌++◌, Result, ok, err}
use dbotter.Text.{Text}
use dbotter.Model.Operations.{
  OperationKind, load_configuration, migrate_configuration, create_profile, update_profile,
  delete_profile, test_draft_connection, connect_profile, disconnect_profile, execute_read,
  execute_mutation, browse_mysql, browse_redis, inspect_redis, export_result, shutdown_runtime,
  PublicSummary, ProfileFieldId, PublicCode,
}
pub mod Offers
pub mod Inputs
pub mod Network
pub mod Conflicts
pub mod Matrix
pub mod Scope
pub mod Examples

pub data ErrorCategory : Type 0 where
  validation authentication permission network tls timeout syntax constraint unsupported cancelled
        busy stale io internal :
      ErrorCategory

unfoldable pub category_of : PublicSummary → ErrorCategory
category_of PublicSummary.invalid_input = validation
category_of PublicSummary.credential_required = validation
category_of PublicSummary.authentication_failed = authentication
category_of PublicSummary.permission_denied = permission
category_of PublicSummary.network_unavailable = network
category_of PublicSummary.tls_verification_failed = tls
category_of PublicSummary.operation_timed_out = timeout
category_of PublicSummary.syntax_rejected = syntax
category_of PublicSummary.constraint_rejected = constraint
category_of PublicSummary.unsupported_feature = unsupported
category_of PublicSummary.operation_cancelled = cancelled
category_of PublicSummary.resource_busy = busy
category_of PublicSummary.resource_stale = stale
category_of PublicSummary.config_write_not_committed = io
category_of PublicSummary.committed_durability_unknown = io
category_of PublicSummary.export_failed = io
category_of PublicSummary.internal_failure = internal

-- Drafts, operations, results and recipes are numbered; a profile has a text for its name.
pub data RecoveryAction : Type 0 where
  open_credential_prompt : Text → RecoveryAction
  edit_draft : ℕ → ProfileFieldId → RecoveryAction
  edit_profile : Text → ProfileFieldId → RecoveryAction
  retry : ℕ → RecoveryAction
  focus_editor focus_execute_limits : Text → RecoveryAction
  reload_configuration : RecoveryAction
  reconnect : Text → RecoveryAction
  cancel_operation : ℕ → RecoveryAction
  clear_catalog restart_redis_scan : Text → RecoveryAction
  choose_export_destination reveal_export_destination : ℕ → RecoveryAction
  reveal_migration_backup restart_application : RecoveryAction
  dismiss_error : ℕ → RecoveryAction

pub data RecoveryCommand : Type 0 where
  open_credential_editor : Text → RecoveryCommand
  focus_draft_field : ℕ → ProfileFieldId → RecoveryCommand
  focus_profile_field : Text → ProfileFieldId → RecoveryCommand
  retry_recipe : ℕ → RecoveryCommand
  focus_statement_editor focus_execution_limits : Text → RecoveryCommand
  reload_configured_path : RecoveryCommand
  reconnect_profile : Text → RecoveryCommand
  cancel_running_operation : ℕ → RecoveryCommand
  clear_profile_catalog restart_profile_redis_scan : Text → RecoveryCommand
  choose_result_export_destination reveal_result_export_destination : ℕ → RecoveryCommand
  reveal_configured_migration_backup restart_application : RecoveryCommand
  dismiss_operation_error : ℕ → RecoveryCommand

-- The command that `dispatch_recovery` hands to its dispatcher.
pub command_of : RecoveryAction → RecoveryCommand
command_of (open_credential_prompt p) = open_credential_editor p
command_of (edit_draft d f) = focus_draft_field d f
command_of (edit_profile p f) = focus_profile_field p f
command_of (retry r) = retry_recipe r
command_of (focus_editor p) = focus_statement_editor p
command_of (focus_execute_limits p) = focus_execution_limits p
command_of RecoveryAction.reload_configuration = reload_configured_path
command_of (reconnect p) = RecoveryCommand.reconnect_profile p
command_of (cancel_operation o) = cancel_running_operation o
command_of (clear_catalog p) = clear_profile_catalog p
command_of (restart_redis_scan p) = restart_profile_redis_scan p
command_of (choose_export_destination r) = choose_result_export_destination r
command_of (reveal_export_destination r) = reveal_result_export_destination r
command_of reveal_migration_backup = reveal_configured_migration_backup
command_of RecoveryAction.restart_application = RecoveryCommand.restart_application
command_of (dismiss_error o) = dismiss_operation_error o

-- `NonEmpty` is a list that is only made from a first item and added to.
pub record NonEmpty {ℓ} (A : Type ℓ) : Type ℓ where
  pub items : List A

module _ {ℓ} {A : Type ℓ} where
  abbrev pub new : A → NonEmpty A
  new head = record { items = head ∷ [] }

  abbrev pub push : NonEmpty A → A → NonEmpty A
  push actions value = record { items = actions.items ++ value ∷ [] }

  abbrev pub one : A → Option (NonEmpty A)
  one action = some (new action)

-- A profile's context has the operation, the operation that keeps it busy, and a recipe to retry.
pub data SafeContext : Type 0 where
  global : ℕ → SafeContext
  draft : ℕ → ℕ → SafeContext
  profile : Text → ℕ → Option ℕ → Option ℕ → SafeContext
  export : ℕ → ℕ → Bool → SafeContext

unfoldable pub operation_id : SafeContext → ℕ
operation_id (global o) = o
operation_id (draft d o) = o
operation_id (profile p o active recipe) = o
operation_id (export r o committed) = o

pub data BusyFact : Type 0 where
  known_active : ℕ → BusyFact
  unknown_active : BusyFact

pub data RecoveryFact : Type 0 where
  no_fact : RecoveryFact
  busy_fact : BusyFact → RecoveryFact

pub record UnreachableRecovery : Type 0 where
  pub operation : OperationKind
  pub summary : PublicSummary
  pub code : PublicCode

pub record PublicOperationError : Type 0 where
  pub operation : OperationKind
  pub category : ErrorCategory
  pub code : PublicCode
  pub summary : PublicSummary
  pub recovery : NonEmpty RecoveryAction

abbrev is_profile : SafeContext → Bool
is_profile (profile p o active recipe) = true
is_profile _ = false

abbrev is_draft : SafeContext → Bool
is_draft (draft d o) = true
is_draft _ = false

abbrev is_global : SafeContext → Bool
is_global (global o) = true
is_global _ = false

abbrev is_export : SafeContext → Bool
is_export (export r o committed) = true
is_export _ = false

unfoldable pub context_matches : OperationKind → SafeContext → Bool
context_matches load_configuration = is_global
context_matches OperationKind.reload_configuration = is_global
context_matches migrate_configuration = is_global
context_matches shutdown_runtime = is_global
context_matches create_profile = is_draft
context_matches test_draft_connection = is_draft
context_matches export_result = is_export
context_matches _ = is_profile

pub draft_field : PublicCode → Option ProfileFieldId
draft_field PublicCode.profile_id_conflict = some ProfileFieldId.connection_id
draft_field (PublicCode.field f) = some f
draft_field PublicCode.session_credential = some ProfileFieldId.session_credential
draft_field PublicCode.credential_environment_name = some ProfileFieldId.credential_environment_name
draft_field PublicCode.username = some ProfileFieldId.username
draft_field PublicCode.database = some ProfileFieldId.database
draft_field PublicCode.redis_tls_preferred_legacy = some ProfileFieldId.redis_tls_mode
draft_field PublicCode.redis_tls_ca_invalid_pem = some ProfileFieldId.redis_ca_file
draft_field PublicCode.redis_tls_ca_untrusted_issuer = some ProfileFieldId.redis_ca_file
draft_field PublicCode.tls_hostname_mismatch = some ProfileFieldId.host
draft_field _ = none

pub profile_field : PublicCode → Option ProfileFieldId
profile_field (PublicCode.field f) = some f
profile_field PublicCode.session_credential = some ProfileFieldId.session_credential
profile_field PublicCode.credential_environment_name =
    some ProfileFieldId.credential_environment_name
profile_field PublicCode.username = some ProfileFieldId.username
profile_field PublicCode.database = some ProfileFieldId.database
profile_field PublicCode.redis_tls_preferred_legacy = some ProfileFieldId.redis_tls_mode
profile_field PublicCode.redis_tls_ca_invalid_pem = some ProfileFieldId.redis_ca_file
profile_field PublicCode.redis_tls_ca_untrusted_issuer = some ProfileFieldId.redis_ca_file
profile_field PublicCode.tls_hostname_mismatch = some ProfileFieldId.host
profile_field _ = none

pub credential_field : PublicCode → Option ProfileFieldId
credential_field PublicCode.session_credential = some ProfileFieldId.session_credential
credential_field PublicCode.credential_environment_name =
    some ProfileFieldId.credential_environment_name
credential_field PublicCode.username = some ProfileFieldId.username
credential_field _ = none

pub permission_field : PublicCode → Option ProfileFieldId
permission_field PublicCode.username = some ProfileFieldId.username
permission_field PublicCode.database = some ProfileFieldId.database
permission_field _ = none

pub is_saved_network : OperationKind → Bool
is_saved_network connect_profile = true
is_saved_network disconnect_profile = true
is_saved_network OperationKind.reconnect_profile = true
is_saved_network execute_read = true
is_saved_network execute_mutation = true
is_saved_network browse_mysql = true
is_saved_network browse_redis = true
is_saved_network inspect_redis = true
is_saved_network _ = false

pub is_credential_operation : OperationKind → Bool
is_credential_operation connect_profile = true
is_credential_operation OperationKind.reconnect_profile = true
is_credential_operation execute_read = true
is_credential_operation execute_mutation = true
is_credential_operation browse_mysql = true
is_credential_operation browse_redis = true
is_credential_operation inspect_redis = true
is_credential_operation _ = false

unfoldable pub is_idempotent : OperationKind → Bool
is_idempotent connect_profile = true
is_idempotent OperationKind.reconnect_profile = true
is_idempotent browse_mysql = true
is_idempotent browse_redis = true
is_idempotent inspect_redis = true
is_idempotent _ = false
