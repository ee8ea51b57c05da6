-- ===== src/PublicErrors/Network.antt =====
-- The rows of src/public_error.rs for the network, execution and cancellation.
use dbotter.Prelude.{ℕ, Bool, true, false, ◌&&◌, not, Option, none, some, if◌then◌else◌}
use dbotter.Text.{Text}
use dbotter.Model.Operations.{
  OperationKind, test_draft_connection, connect_profile, disconnect_profile, execute_read,
  execute_mutation, browse_mysql, browse_redis, inspect_redis, export_result, ProfileFieldId,
  PublicCode,
}
use dbotter.PublicErrors.{
  RecoveryAction, edit_draft, edit_profile, retry, focus_editor, focus_execute_limits, reconnect,
  choose_export_destination, reveal_export_destination, dismiss_error, new, push, one, SafeContext,
  draft, profile, export, is_saved_network, is_credential_operation, is_idempotent,
}
use dbotter.PublicErrors.Offers.{
  Offer, when, push_retry, push_if, edit_draft_field, edit_profile_field,
}

-- Whether a saved profile's network can be tried again: not in order to disconnect.
abbrev is_retried_network : OperationKind → Bool
is_retried_network disconnect_profile = false
is_retried_network kind = is_saved_network kind

abbrev is_mutation : OperationKind → Bool
is_mutation execute_mutation = true
is_mutation _ = false

unfoldable pub network_unavailable : OperationKind → SafeContext → Offer
unfolding is_saved_network is_idempotent
network_unavailable test_draft_connection (draft d o) =
    some (push (new (edit_draft d ProfileFieldId.host)) (dismiss_error o))
network_unavailable kind (profile p o active recipe) = when (is_retried_network kind) (
    some (
      push_retry (not (is_mutation kind) && is_idempotent kind) recipe
        (push (new (edit_profile p ProfileFieldId.host)) (reconnect p))))
network_unavailable _ _ = none

tls_field : PublicCode → Option ProfileFieldId
tls_field PublicCode.redis_tls_ca_invalid_pem = some ProfileFieldId.redis_ca_file
tls_field PublicCode.redis_tls_ca_untrusted_issuer = some ProfileFieldId.redis_ca_file
tls_field PublicCode.tls_hostname_mismatch = some ProfileFieldId.host
tls_field _ = none

unfoldable pub tls_failed : OperationKind → PublicCode → SafeContext → Offer
unfolding tls_field is_credential_operation
tls_failed test_draft_connection code (draft d o) = edit_draft_field d (tls_field code)
tls_failed kind code (profile p o active recipe) =
    when (is_credential_operation kind) (edit_profile_field p (tls_field code))
tls_failed _ code _ = none

abbrev browse_first : Text → Option ℕ → RecoveryAction
browse_first p none = reconnect p
browse_first p (some recipe) = retry recipe

abbrev connect_timed_out : Text → ℕ → Offer
connect_timed_out p o =
    some (push (push (new (edit_profile p ProfileFieldId.host)) (reconnect p)) (dismiss_error o))

unfoldable pub timed_out : OperationKind → SafeContext → Offer
timed_out test_draft_connection (draft d o) =
    some (push (new (edit_draft d ProfileFieldId.host)) (dismiss_error o))
timed_out connect_profile (profile p o active recipe) = connect_timed_out p o
timed_out OperationKind.reconnect_profile (profile p o active recipe) = connect_timed_out p o
timed_out execute_read (profile p o active recipe) =
    some (push (new (focus_execute_limits p)) (reconnect p))
timed_out execute_mutation (profile p o active recipe) =
    some (push (new (focus_execute_limits p)) (reconnect p))
timed_out browse_mysql (profile p o active recipe) =
    some (push (new (browse_first p recipe)) (dismiss_error o))
timed_out browse_redis (profile p o active recipe) =
    some (push (new (browse_first p recipe)) (dismiss_error o))
timed_out inspect_redis (profile p o active recipe) =
    some (push (new (browse_first p recipe)) (dismiss_error o))
timed_out _ _ = none

unfoldable pub execute_only : OperationKind → SafeContext → Bool → Offer
execute_only execute_read (profile p o active recipe) dismiss =
    some (push_if dismiss (new (focus_editor p)) (dismiss_error o))
execute_only execute_mutation (profile p o active recipe) dismiss =
    some (push_if dismiss (new (focus_editor p)) (dismiss_error o))
execute_only _ _ dismiss = none

abbrev is_preferred_legacy : PublicCode → Bool
is_preferred_legacy PublicCode.redis_tls_preferred_legacy = true
is_preferred_legacy _ = false

abbrev is_prepared_unsupported : PublicCode → Bool
is_prepared_unsupported PublicCode.prepared_statement_unsupported = true
is_prepared_unsupported _ = false

abbrev unsupported_execute : Text → ℕ → PublicCode → Offer
unsupported_execute p o code =
    if is_prepared_unsupported code
    then some (push (new (focus_editor p)) (dismiss_error o))
    else one (dismiss_error o)

unfoldable pub unsupported : OperationKind → PublicCode → SafeContext → Offer
unsupported test_draft_connection code (draft d o) =
    when (is_preferred_legacy code) (one (edit_draft d ProfileFieldId.redis_tls_mode))
unsupported connect_profile code (profile p o active recipe) =
    when (is_preferred_legacy code) (one (edit_profile p ProfileFieldId.redis_tls_mode))
unsupported execute_read code (profile p o active recipe) = unsupported_execute p o code
unsupported execute_mutation code (profile p o active recipe) = unsupported_execute p o code
unsupported browse_mysql code (profile p o active recipe) = one (dismiss_error o)
unsupported browse_redis code (profile p o active recipe) = one (dismiss_error o)
unsupported inspect_redis code (profile p o active recipe) = one (dismiss_error o)
unsupported _ code _ = none

unfoldable pub cancelled : OperationKind → SafeContext → Offer
unfolding is_saved_network
cancelled test_draft_connection (draft d o) = one (dismiss_error o)
cancelled export_result (export r o committed) = some (
    push (new (if committed then reveal_export_destination r else choose_export_destination r))
      (dismiss_error o))
cancelled kind (profile p o active recipe) =
    when (is_retried_network kind) (some (push (new (reconnect p)) (dismiss_error o)))
cancelled _ _ = none
