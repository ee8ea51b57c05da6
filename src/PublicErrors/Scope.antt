-- ===== src/PublicErrors/Scope.antt =====
-- What the recovery actions of src/public_error.rs refer to.
use dbotter.Prelude.{
  ℕ, ◌≡◌, ◌≤◌, refl, Bool, true, false, Option, none, some, arith, All, Result, ok, err, length,
  subst,
}
use dbotter.Text.{Text}
use dbotter.Model.Operations.{
  OperationKind, connect_profile, browse_mysql, browse_redis, inspect_redis, migrate_configuration,
  PublicSummary, PublicCode,
}
use dbotter.PublicErrors.{
  RecoveryAction, open_credential_prompt, edit_draft, edit_profile, retry, focus_editor,
  focus_execute_limits, reconnect, cancel_operation, clear_catalog, restart_redis_scan,
  choose_export_destination, reveal_export_destination, reveal_migration_backup, dismiss_error,
  NonEmpty, SafeContext, draft, profile, export, operation_id, RecoveryFact, no_fact, busy_fact,
  known_active, unknown_active, category_of, UnreachableRecovery, PublicOperationError,
  is_idempotent,
}
use dbotter.PublicErrors.Offers.{Offer}
use dbotter.PublicErrors.Inputs.{
  invalid_input, credential_required, authentication_failed, permission_denied,
}
use dbotter.PublicErrors.Network.{
  network_unavailable, tls_failed, timed_out, execute_only, unsupported, cancelled,
}
use dbotter.PublicErrors.Conflicts.{
  busy, stale, config_not_committed, durability_unknown, export_failed, internal_failure,
}
use dbotter.PublicErrors.Matrix.{
  offer, recovery_for_with_fact, recovery_for, new_error, error_with, or_internal, new_or_internal,
}

abbrev pub profile_of : SafeContext → Option Text
profile_of (profile p o active recipe) = some p
profile_of _ = none

abbrev pub draft_of : SafeContext → Option ℕ
draft_of (draft d o) = some d
draft_of _ = none

abbrev pub result_of : SafeContext → Option ℕ
result_of (export r o committed) = some r
result_of _ = none

abbrev pub recipe_of : SafeContext → Option ℕ
recipe_of (profile p o active recipe) = recipe
recipe_of _ = none

-- The operations that may be repeated: connecting, reconnecting, browsing and inspecting.
abbrev pub can_repeat : OperationKind → Bool
can_repeat connect_profile = true
can_repeat OperationKind.reconnect_profile = true
can_repeat browse_mysql = true
can_repeat browse_redis = true
can_repeat inspect_redis = true
can_repeat _ = false

is_idempotent-repeat : (op : OperationKind) → is_idempotent op ≡ true → can_repeat op ≡ true
unfolding is_idempotent
is_idempotent-repeat op h = ground arith

-- The active operation that is known: of a busy fact its own, and without one that of the context.
abbrev pub known_operation : SafeContext → RecoveryFact → Option ℕ
known_operation context (busy_fact (known_active o)) = some o
known_operation context (busy_fact unknown_active) = none
known_operation (profile p o active recipe) no_fact = active
known_operation context no_fact = none

-- An action names what the context or the fact names, and only an operation that can be repeated
-- is retried.
abbrev pub Fits : OperationKind → SafeContext → RecoveryFact → RecoveryAction → Type 0
Fits op context fact (open_credential_prompt p) = profile_of context ≡ some p
Fits op context fact (edit_draft d f) = draft_of context ≡ some d
Fits op context fact (edit_profile p f) = profile_of context ≡ some p
Fits op context fact (retry r) = (recipe_of context ≡ some r) × (can_repeat op ≡ true)
Fits op context fact (focus_editor p) = profile_of context ≡ some p
Fits op context fact (focus_execute_limits p) = profile_of context ≡ some p
Fits op context fact RecoveryAction.reload_configuration = Unit
Fits op context fact (reconnect p) = profile_of context ≡ some p
Fits op context fact (cancel_operation o) = known_operation context fact ≡ some o
Fits op context fact (clear_catalog p) = profile_of context ≡ some p
Fits op context fact (restart_redis_scan p) = profile_of context ≡ some p
Fits op context fact (choose_export_destination r) = result_of context ≡ some r
Fits op context fact (reveal_export_destination r) = result_of context ≡ some r
Fits op context fact reveal_migration_backup = op ≡ migrate_configuration
Fits op context fact RecoveryAction.restart_application = Unit
Fits op context fact (dismiss_error o) = o ≡ operation_id context

abbrev Offers : OperationKind → SafeContext → RecoveryFact → Offer → Type 0
Offers op context fact none = Unit
Offers op context fact (some actions) =
    All (Fits op context fact) actions.items
    × (1 ≤ length actions.items)
    × (length actions.items ≤ 3)

ok_offer :
    (op : OperationKind) (context : SafeContext) (fact : RecoveryFact) (o : Offer)
    (actions : NonEmpty RecoveryAction)
    → Offers op context fact o
    → o ≡ some actions
    → All (Fits op context fact) actions.items
      × (1 ≤ length actions.items)
      × (length actions.items ≤ 3)
ok_offer op context fact none actions h e = cc
ok_offer op context fact (some offered) actions h e =
    let same : offered ≡ actions = cc in subst (λ a. Offers op context fact (some a)) same h

module _ (op : OperationKind) (context : SafeContext) (fact : RecoveryFact) where
  invalid_input-Fits : (code : PublicCode) → Offers op context fact (invalid_input op code context)
  unfolding invalid_input is_idempotent operation_id
  invalid_input-Fits code = ground arith

  credential_required-Fits :
      (code : PublicCode) → Offers op context fact (credential_required op code context)
  unfolding credential_required is_idempotent operation_id
  credential_required-Fits code = ground arith

  authentication_failed-Fits :
      (code : PublicCode) → Offers op context fact (authentication_failed op code context)
  unfolding authentication_failed is_idempotent operation_id
  authentication_failed-Fits code = ground arith

  permission_denied-Fits :
      (code : PublicCode) → Offers op context fact (permission_denied op code context)
  unfolding permission_denied is_idempotent operation_id
  permission_denied-Fits code = ground arith

  network_unavailable-Fits : Offers op context fact (network_unavailable op context)
  unfolding network_unavailable is_idempotent operation_id
  network_unavailable-Fits = ground arith

  tls_failed-Fits : (code : PublicCode) → Offers op context fact (tls_failed op code context)
  unfolding tls_failed is_idempotent operation_id
  tls_failed-Fits code = ground arith

  timed_out-Fits : Offers op context fact (timed_out op context)
  unfolding timed_out is_idempotent operation_id
  timed_out-Fits = ground arith

  execute_only-Fits : (dismiss : Bool) → Offers op context fact (execute_only op context dismiss)
  unfolding execute_only is_idempotent operation_id
  execute_only-Fits dismiss = ground arith

  unsupported-Fits : (code : PublicCode) → Offers op context fact (unsupported op code context)
  unfolding unsupported is_idempotent operation_id
  unsupported-Fits code = ground arith

  cancelled-Fits : Offers op context fact (cancelled op context)
  unfolding cancelled is_idempotent operation_id
  cancelled-Fits = ground arith

  busy-Fits : Offers op context fact (busy op context fact)
  unfolding busy is_idempotent operation_id
  busy-Fits = ground arith

  stale-Fits : Offers op context fact (stale op context)
  unfolding stale is_idempotent operation_id
  stale-Fits = ground arith

  config_not_committed-Fits :
      (code : PublicCode) → Offers op context fact (config_not_committed op code context)
  unfolding config_not_committed is_idempotent operation_id
  config_not_committed-Fits code = ground arith

  durability_unknown-Fits :
      (code : PublicCode) → Offers op context fact (durability_unknown op code context)
  unfolding durability_unknown is_idempotent operation_id
  durability_unknown-Fits code = ground arith

  export_failed-Fits : Offers op context fact (export_failed op context)
  unfolding export_failed is_idempotent operation_id
  export_failed-Fits = ground arith

  internal_failure-Fits : Offers op context fact (internal_failure op context)
  unfolding internal_failure is_idempotent operation_id
  internal_failure-Fits = ground arith

  offer-Fits :
      (summary : PublicSummary) (code : PublicCode)
      → Offers op context fact (offer op summary code context fact)
  unfolding offer
  offer-Fits PublicSummary.invalid_input code = invalid_input-Fits code
  offer-Fits PublicSummary.credential_required code = credential_required-Fits code
  offer-Fits PublicSummary.authentication_failed code = authentication_failed-Fits code
  offer-Fits PublicSummary.permission_denied code = permission_denied-Fits code
  offer-Fits PublicSummary.network_unavailable code = network_unavailable-Fits
  offer-Fits PublicSummary.tls_verification_failed code = tls_failed-Fits code
  offer-Fits PublicSummary.operation_timed_out code = timed_out-Fits
  offer-Fits PublicSummary.syntax_rejected code = execute_only-Fits false
  offer-Fits PublicSummary.constraint_rejected code = execute_only-Fits true
  offer-Fits PublicSummary.unsupported_feature code = unsupported-Fits code
  offer-Fits PublicSummary.operation_cancelled code = cancelled-Fits
  offer-Fits PublicSummary.resource_busy code = busy-Fits
  offer-Fits PublicSummary.resource_stale code = stale-Fits
  offer-Fits PublicSummary.config_write_not_committed code = config_not_committed-Fits code
  offer-Fits PublicSummary.committed_durability_unknown code = durability_unknown-Fits code
  offer-Fits PublicSummary.export_failed code = export_failed-Fits
  offer-Fits PublicSummary.internal_failure code = internal_failure-Fits

-- The actions that are offered against an error are one to three. Each names the profile, the draft,
-- the result, the recipe or the operation of the error's own context, or, to cancel it, the active
-- operation that a busy fact or else the context knows; a retry is offered only for connecting,
-- reconnecting, browsing and inspecting.
pub recovery_for_with_fact-Fits :
    (op : OperationKind) (summary : PublicSummary) (code : PublicCode) (context : SafeContext)
    (fact : RecoveryFact) (actions : NonEmpty RecoveryAction)
    → recovery_for_with_fact op summary code context fact ≡ ok actions
    → All (Fits op context fact) actions.items
      × (1 ≤ length actions.items)
      × (length actions.items ≤ 3)
unfolding recovery_for_with_fact
recovery_for_with_fact-Fits op summary code context fact actions h =
    ok_offer op context fact (offer op summary code context fact) actions
      (offer-Fits op context fact summary code) (ground arith)

abbrev IsFitting : OperationKind → SafeContext → PublicOperationError → Type 0
IsFitting op context e =
    (e.operation ≡ op)
    × (e.category ≡ category_of e.summary)
    × All (Fits op context no_fact) e.recovery.items

or_internal-IsFitting :
    (op : OperationKind) (summary : PublicSummary) (code : PublicCode) (context : SafeContext)
    (r : Result UnreachableRecovery (NonEmpty RecoveryAction))
    → ((actions : NonEmpty RecoveryAction)
        → r ≡ ok actions
        → All (Fits op context no_fact) actions.items)
    → IsFitting op context (or_internal op context (error_with op summary code r))
unfolding category_of
or_internal-IsFitting op summary code context (err e) h = (refl, refl, (tt, (refl, tt)))
or_internal-IsFitting op summary code context (ok actions) h = (refl, refl, h actions refl)

-- Whatever is asked for, the error that is shown keeps its operation, has the category of its
-- summary, and its actions fit the context, with no fact about another operation.
new_or_internal-Fits :
    (op : OperationKind) (summary : PublicSummary) (code : PublicCode) (context : SafeContext)
    → let e = new_or_internal op summary code context in
      (e.operation ≡ op)
      × (e.category ≡ category_of e.summary)
      × All (Fits op context no_fact) e.recovery.items
unfolding new_or_internal new_error recovery_for
new_or_internal-Fits op summary code context =
    or_internal-IsFitting op summary code context _
      (λ actions h. (recovery_for_with_fact-Fits op summary code context no_fact actions h).0)
