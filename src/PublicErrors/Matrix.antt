-- ===== src/PublicErrors/Matrix.antt =====
-- `recovery_for_with_fact` of src/public_error.rs and the errors made with it.
use dbotter.Prelude.{Bool, true, false, ◌&&◌, not, Result, ok, err, ok_or, if◌then◌else◌}
use dbotter.Model.Operations.{OperationKind, PublicSummary, PublicCode}
use dbotter.PublicErrors.{
  category_of, internal, RecoveryAction, NonEmpty, SafeContext, operation_id, RecoveryFact, no_fact,
  busy_fact, UnreachableRecovery, PublicOperationError, context_matches,
}
use dbotter.PublicErrors.Offers.{Offer}
use dbotter.PublicErrors.Inputs.{
  invalid_input, credential_required, authentication_failed, permission_denied,
}
use dbotter.PublicErrors.Network.{
  network_unavailable, tls_failed, timed_out, execute_only, unsupported, cancelled,
}
use dbotter.PublicErrors.Conflicts.{
  busy, stale, config_not_committed, durability_unknown, export_failed, internal_failure,
  restart_actions,
}

-- The `match summary` of `recovery_for_with_fact`.
unfoldable pub offer :
    OperationKind → PublicSummary → PublicCode → SafeContext → RecoveryFact → Offer
offer op PublicSummary.invalid_input code context fact = invalid_input op code context
offer op PublicSummary.credential_required code context fact = credential_required op code context
offer op PublicSummary.authentication_failed code context fact =
    authentication_failed op code context
offer op PublicSummary.permission_denied code context fact = permission_denied op code context
offer op PublicSummary.network_unavailable code context fact = network_unavailable op context
offer op PublicSummary.tls_verification_failed code context fact = tls_failed op code context
offer op PublicSummary.operation_timed_out code context fact = timed_out op context
offer op PublicSummary.syntax_rejected code context fact = execute_only op context false
offer op PublicSummary.constraint_rejected code context fact = execute_only op context true
offer op PublicSummary.unsupported_feature code context fact = unsupported op code context
offer op PublicSummary.operation_cancelled code context fact = cancelled op context
offer op PublicSummary.resource_busy code context fact = busy op context fact
offer op PublicSummary.resource_stale code context fact = stale op context
offer op PublicSummary.config_write_not_committed code context fact =
    config_not_committed op code context
offer op PublicSummary.committed_durability_unknown code context fact =
    durability_unknown op code context
offer op PublicSummary.export_failed code context fact = export_failed op context
offer op PublicSummary.internal_failure code context fact = internal_failure op context

abbrev is_busy : PublicSummary → Bool
is_busy PublicSummary.resource_busy = true
is_busy _ = false

abbrev has_fact : RecoveryFact → Bool
has_fact no_fact = false
has_fact (busy_fact b) = true

unfoldable pub recovery_for_with_fact :
    OperationKind
    → PublicSummary
    → PublicCode
    → SafeContext
    → RecoveryFact
    → Result UnreachableRecovery (NonEmpty RecoveryAction)
unfolding context_matches
recovery_for_with_fact operation summary code context fact =
    let missing : UnreachableRecovery = record {
      operation = operation;
      summary = summary;
      code = code;
    } in
    if not (context_matches operation context)
    then err missing
    else if has_fact fact && not (is_busy summary)
    then err missing
    else ok_or (offer operation summary code context fact) missing

unfoldable pub recovery_for :
    OperationKind
    → PublicSummary
    → PublicCode
    → SafeContext
    → Result UnreachableRecovery (NonEmpty RecoveryAction)
unfolding recovery_for_with_fact
recovery_for operation summary code context =
    recovery_for_with_fact operation summary code context no_fact

-- The error with the recovery that was found.
abbrev pub error_with :
    OperationKind
    → PublicSummary
    → PublicCode
    → Result UnreachableRecovery (NonEmpty RecoveryAction)
    → Result UnreachableRecovery PublicOperationError
error_with operation summary code (err e) = err e
error_with operation summary code (ok recovery) = ok (record {
  operation = operation;
  category = category_of summary;
  code = code;
  summary = summary;
  recovery = recovery;
})

-- `PublicOperationError::new`.
unfoldable pub new_error :
    OperationKind
    → PublicSummary
    → PublicCode
    → SafeContext
    → Result UnreachableRecovery PublicOperationError
unfolding recovery_for
new_error operation summary code context =
    error_with operation summary code (recovery_for operation summary code context)

abbrev pub or_internal :
    OperationKind
    → SafeContext
    → Result UnreachableRecovery PublicOperationError
    → PublicOperationError
or_internal operation context (ok error) = error
or_internal operation context (err e) = record {
  operation = operation;
  category = internal;
  code = PublicCode.no_code;
  summary = PublicSummary.internal_failure;
  recovery = restart_actions (operation_id context);
}

unfoldable pub new_or_internal :
    OperationKind → PublicSummary → PublicCode → SafeContext → PublicOperationError
unfolding new_error operation_id
new_or_internal operation summary code context =
    or_internal operation context (new_error operation summary code context)
