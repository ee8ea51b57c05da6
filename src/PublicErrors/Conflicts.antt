-- ===== src/PublicErrors/Conflicts.antt =====
-- The rows of src/public_error.rs for busy and stale state, writes and internal failures.
use dbotter.Prelude.{ℕ, Bool, true, false, Option, none, some}
use dbotter.Model.Operations.{
  OperationKind, load_configuration, migrate_configuration, create_profile, update_profile,
  delete_profile, connect_profile, execute_read, execute_mutation, browse_mysql, browse_redis,
  inspect_redis, export_result, shutdown_runtime, PublicCode,
}
use dbotter.PublicErrors.{
  RecoveryAction, retry, focus_editor, cancel_operation, choose_export_destination,
  reveal_export_destination, reveal_migration_backup, dismiss_error, NonEmpty, new, push, one,
  SafeContext, profile, export, operation_id, known_active, unknown_active, RecoveryFact, no_fact,
  busy_fact,
}
use dbotter.PublicErrors.Offers.{Offer, push_if}

abbrev pub context_active : SafeContext → Option ℕ
context_active (profile p o active recipe) = active
context_active _ = none

abbrev pub active_of : SafeContext → RecoveryFact → Option ℕ
active_of context no_fact = context_active context
active_of context (busy_fact (known_active o)) = some o
active_of context (busy_fact unknown_active) = none

abbrev busy_actions : Option ℕ → ℕ → NonEmpty RecoveryAction
busy_actions none rejected = new (dismiss_error rejected)
busy_actions (some active) rejected = push (new (cancel_operation active)) (dismiss_error rejected)

unfoldable pub busy : OperationKind → SafeContext → RecoveryFact → Offer
unfolding operation_id
busy load_configuration context fact = none
busy shutdown_runtime context fact = none
busy _ context fact = some (busy_actions (active_of context fact) (operation_id context))

abbrev stale_retry : SafeContext → Offer
stale_retry (profile p o active (some recipe)) = one (retry recipe)
stale_retry _ = none

abbrev stale_execute : SafeContext → Offer
stale_execute (profile p o active recipe) =
    some (push (new RecoveryAction.reload_configuration) (focus_editor p))
stale_execute _ = none

unfoldable pub stale : OperationKind → SafeContext → Offer
stale OperationKind.reload_configuration context = one RecoveryAction.reload_configuration
stale create_profile context = one RecoveryAction.reload_configuration
stale update_profile context = one RecoveryAction.reload_configuration
stale delete_profile context = one RecoveryAction.reload_configuration
stale connect_profile context = stale_retry context
stale OperationKind.reconnect_profile context = stale_retry context
stale browse_mysql context = stale_retry context
stale browse_redis context = stale_retry context
stale inspect_redis context = stale_retry context
stale execute_read context = stale_execute context
stale execute_mutation context = stale_execute context
stale _ context = none

abbrev has_backup : PublicCode → Bool
has_backup PublicCode.migration_backup_available = true
has_backup _ = false

-- The rows that the two outcomes of a configuration write share.
pub config_write : OperationKind → PublicCode → Offer
config_write migrate_configuration code =
    some
      (push_if (has_backup code) (new RecoveryAction.reload_configuration) reveal_migration_backup)
config_write create_profile code = one RecoveryAction.reload_configuration
config_write update_profile code = one RecoveryAction.reload_configuration
config_write delete_profile code = one RecoveryAction.reload_configuration
config_write _ code = none

unfoldable pub config_not_committed : OperationKind → PublicCode → SafeContext → Offer
unfolding config_write
config_not_committed operation code context = config_write operation code

abbrev durability_export : OperationKind → SafeContext → Offer
durability_export export_result (export r o committed) = one (reveal_export_destination r)
durability_export _ _ = none

unfoldable pub durability_unknown : OperationKind → PublicCode → SafeContext → Offer
unfolding config_write
durability_unknown operation code context = elim (config_write operation code) [
  | some actions ↦ some actions
  | none ↦ durability_export operation context
]

unfoldable pub export_failed : OperationKind → SafeContext → Offer
export_failed export_result (export r o committed) =
    some (push_if committed (new (choose_export_destination r)) (reveal_export_destination r))
export_failed _ _ = none

abbrev is_config_write : OperationKind → Bool
is_config_write load_configuration = true
is_config_write OperationKind.reload_configuration = true
is_config_write migrate_configuration = true
is_config_write create_profile = true
is_config_write update_profile = true
is_config_write delete_profile = true
is_config_write _ = false

abbrev pub restart_actions : ℕ → NonEmpty RecoveryAction
restart_actions o = push (new RecoveryAction.restart_application) (dismiss_error o)

unfoldable pub internal_failure : OperationKind → SafeContext → Offer
unfolding operation_id
internal_failure operation context = some (
    push_if (is_config_write operation) (restart_actions (operation_id context))
      RecoveryAction.reload_configuration)
