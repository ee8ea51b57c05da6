-- ===== src/Ui/Model/Sessions.antt =====
-- What `UiModel::fold` of src/ui/model.rs does on events about connections, queries and explorers.
use dbotter.Prelude.{
  ℕ, Bool, true, false, not, Option, none, some, List, [], ◌∷◌, ◌++◌, ◌==◌, if◌then◌else◌,
}
use dbotter.Text.{Text, codes, text_eq}
use dbotter.Model.{ResultSnapshot}
use dbotter.Model.Operations.{PublicSummary, message}
use dbotter.Model.Pages.{CatalogPage, RedisKeyPage, RedisValuePreview}
use dbotter.Model.Requests.{CatalogRequest, RedisScanRequest, RedisKeyInspectRequest}
use dbotter.PublicErrors.{PublicOperationError}
use dbotter.Export.Scalars.{display_uint}
use dbotter.Ui.ResultView.{is_some_eq, reset_for}
use dbotter.Ui.Model.{
  put, ProfileWorkspace, PostCloseState, ConnectionFailureOutcome, preserve, unknown,
  SessionDisposition, keep, evict, ProfileSnapshot, ConnectionState, pending, connected, closing,
  UiModel, with_workspace, workspace_at, event_is_current, redis_event_is_current,
}
use dbotter.Ui.Model.Profiles.{with_status}

-- The guard of an event about a profile at a generation.
abbrev pub if_current : UiModel → Text → ℕ → UiModel → UiModel
if_current m profile generation next = if event_is_current m profile generation then next else m

abbrev pub with_state : UiModel → Text → ConnectionState → UiModel
with_state m profile state = record m { connection_states = put m.connection_states profile state }

-- `connection_states.get(…) == Some(&Pending(operation))`.
abbrev pub is_pending_by : Option ConnectionState → ℕ → Bool
is_pending_by (some (pending o)) operation = o == operation
is_pending_by _ operation = false

abbrev pub stored_secret : Text → List ProfileSnapshot → List ProfileSnapshot
stored_secret id [] = []
stored_secret id (p ∷ ps) =
    if text_eq p.id id
    then record p { has_current_session_secret = true } ∷ ps
    else p ∷ stored_secret id ps

abbrev pub supplied : UiModel → Text → Option ConnectionState → UiModel
supplied m profile (some ConnectionState.needs_credential) =
    with_state m profile ConnectionState.disconnected
supplied m profile _ = m

unfoldable pub fold_credentials_stored : UiModel → Text → ℕ → UiModel
fold_credentials_stored m profile generation = if_current m profile generation (
    with_status
      (supplied (record m { profiles = stored_secret profile m.profiles }) profile
        (m.connection_states profile))
      (codes "Session credential stored."))

unfoldable pub fold_ready : UiModel → ℕ → Text → ℕ → ℕ → ℕ → UiModel
fold_ready m operation profile generation session elapsed = if_current m profile generation (
    if is_pending_by (m.connection_states profile) operation
    then with_status (with_state m profile (connected session elapsed))
        (codes "Connection ready in " ++ (display_uint elapsed ++ codes " ms"))
    else m)

abbrev pub closed_state : PostCloseState → ConnectionState
closed_state PostCloseState.disconnected = ConnectionState.disconnected
closed_state PostCloseState.needs_credential = ConnectionState.needs_credential

unfoldable pub fold_closed : UiModel → ℕ → Text → ℕ → PostCloseState → UiModel
fold_closed m operation profile generation post_close = if_current m profile generation (
    if is_pending_by (m.connection_states profile) operation
    then with_status (with_state m profile (closed_state post_close)) (codes "Disconnected")
    else m)

abbrev pub finish_execute : ℕ → ProfileWorkspace → ProfileWorkspace
finish_execute operation w =
    if is_some_eq w.pending_execute operation then record w { pending_execute = none } else w

unfoldable pub fold_unavailable : UiModel → ℕ → Text → ℕ → PublicSummary → UiModel
fold_unavailable m operation profile generation summary =
    if_current m profile generation (
      with_status (with_workspace m profile generation (finish_execute operation))
        (message summary))

abbrev pub with_result : ResultSnapshot → ProfileWorkspace → ProfileWorkspace
with_result result w = record w {
  pending_execute = none;
  error = none;
  result_view = reset_for w.result_view result.provenance.result_id;
  result = some result;
}

-- A result that is not waited for leaves the workspace, which the search for it has made.
unfoldable pub fold_finished : UiModel → ℕ → Text → ℕ → ℕ → ResultSnapshot → UiModel
fold_finished m operation profile generation session result = if_current m profile generation (
    if is_some_eq (workspace_at m profile generation).pending_execute operation
    then with_state
        (with_status (with_workspace m profile generation (with_result result)) (
          codes "Query finished in "
          ++ (display_uint result.provenance.duration_ms ++ codes " ms")))
        profile (connected session 0)
    else with_workspace m profile generation (λ w. w))

-- A state that a catalog event of another session does not change.
abbrev pub is_protected : Option ConnectionState → ℕ → Bool
is_protected (some (pending o)) session = true
is_protected (some closing) session = true
is_protected (some (connected visible elapsed)) session = not (visible == session)
is_protected _ session = false

abbrev disposed : SessionDisposition → ℕ → ConnectionState
disposed keep session = connected session 0
disposed evict session = ConnectionState.disconnected

abbrev pub fold_catalog_session : UiModel → Text → Option ℕ → Option SessionDisposition → UiModel
fold_catalog_session m profile (some session) (some disposition) =
    if is_protected (m.connection_states profile) session
    then m
    else with_state m profile (disposed disposition session)
fold_catalog_session m profile _ _ = m

abbrev pub with_catalog : CatalogPage → ProfileWorkspace → ProfileWorkspace
with_catalog page w = record w {
  catalog_retry = none;
  catalog_error = none;
  catalog_page = some page;
}

unfoldable pub fold_catalog_loaded : UiModel → CatalogPage → ℕ → SessionDisposition → UiModel
fold_catalog_loaded m page session disposition =
    let profile = page.identity.profile_id in
    let generation = page.identity.profile_generation in
    if_current m profile generation (
      with_status
        (with_workspace (fold_catalog_session m profile (some session) (some disposition)) profile
          generation (with_catalog page))
        (codes "Catalog page loaded"))

abbrev stale_catalog : Option CatalogPage → Option CatalogPage
stale_catalog none = none
stale_catalog (some page) = some (record page { stale = true })

abbrev pub with_catalog_error :
    CatalogRequest → PublicOperationError → ProfileWorkspace → ProfileWorkspace
with_catalog_error request error w = record w {
  catalog_page = stale_catalog w.catalog_page;
  catalog_retry = some request;
  catalog_error = some error;
}

unfoldable pub fold_catalog_failed :
    UiModel → CatalogRequest → PublicOperationError → Option ℕ → Option SessionDisposition → UiModel
fold_catalog_failed m request error session disposition =
    let profile = request.identity.profile_id in
    let generation = request.identity.profile_generation in
    if_current m profile generation (
      with_status
        (with_workspace (fold_catalog_session m profile session disposition) profile generation
          (with_catalog_error request error))
        (message error.summary))

abbrev pub apply_outcome : UiModel → Text → ConnectionFailureOutcome → UiModel
apply_outcome m profile preserve = m
apply_outcome m profile ConnectionFailureOutcome.disconnected =
    with_state m profile ConnectionState.disconnected
apply_outcome m profile unknown = with_state m profile ConnectionState.disconnected
apply_outcome m profile ConnectionFailureOutcome.needs_credential =
    with_state m profile ConnectionState.needs_credential

abbrev pub apply_redis_session_truth :
    UiModel → Text → Option ℕ → Option SessionDisposition → ConnectionFailureOutcome → UiModel
apply_redis_session_truth m profile (some session) (some keep) outcome =
    with_state m profile (connected session 0)
apply_redis_session_truth m profile session (some evict) outcome =
    with_state m profile ConnectionState.disconnected
apply_redis_session_truth m profile session disposition outcome = apply_outcome m profile outcome

abbrev pub if_redis_current : UiModel → Text → ℕ → Option ℕ → UiModel → UiModel
if_redis_current m profile generation session next =
    if redis_event_is_current m profile generation session then next else m

abbrev pub with_keys : RedisKeyPage → ProfileWorkspace → ProfileWorkspace
with_keys page w = record w {
  redis_scan_retry = none;
  redis_scan_error = none;
  redis_key_page = some page;
}

unfoldable pub fold_keys_loaded : UiModel → RedisKeyPage → ℕ → SessionDisposition → UiModel
fold_keys_loaded m page session disposition =
    let profile = page.identity.profile_id in
    let generation = page.identity.profile_generation in
    if_redis_current m profile generation (some session) (
      with_status
        (apply_redis_session_truth (with_workspace m profile generation (with_keys page)) profile
          (some session) (some disposition) preserve)
        (codes "Redis keys loaded"))

abbrev stale_keys : Option RedisKeyPage → Option RedisKeyPage
stale_keys none = none
stale_keys (some page) = some (record page { stale = true })

abbrev pub with_scan_error :
    RedisScanRequest → PublicOperationError → ProfileWorkspace → ProfileWorkspace
with_scan_error request error w = record w {
  redis_key_page = stale_keys w.redis_key_page;
  redis_scan_retry = some request;
  redis_scan_error = some error;
}

unfoldable pub fold_keys_failed :
    UiModel
    → RedisScanRequest
    → PublicOperationError
    → Option ℕ
    → Option SessionDisposition
    → ConnectionFailureOutcome
    → UiModel
fold_keys_failed m request error session disposition outcome =
    let profile = request.identity.profile_id in
    let generation = request.identity.profile_generation in
    if_redis_current m profile generation session (
      apply_redis_session_truth
        (with_status (with_workspace m profile generation (with_scan_error request error))
          (message error.summary))
        profile session disposition outcome)

abbrev pub with_preview : RedisValuePreview → ProfileWorkspace → ProfileWorkspace
with_preview preview w = record w {
  redis_inspect_retry = none;
  redis_inspect_error = none;
  redis_value_preview = some preview;
}

unfoldable pub fold_inspected : UiModel → RedisValuePreview → ℕ → SessionDisposition → UiModel
fold_inspected m preview session disposition =
    let profile = preview.identity.profile_id in
    let generation = preview.identity.profile_generation in
    if_redis_current m profile generation (some session) (
      with_status
        (apply_redis_session_truth (with_workspace m profile generation (with_preview preview))
          profile (some session) (some disposition) preserve)
        (codes "Redis key inspected"))

abbrev stale_preview : Option RedisValuePreview → Option RedisValuePreview
stale_preview none = none
stale_preview (some preview) = some (record preview { stale = true })

abbrev pub with_inspect_error :
    RedisKeyInspectRequest → PublicOperationError → ProfileWorkspace → ProfileWorkspace
with_inspect_error request error w = record w {
  redis_value_preview = stale_preview w.redis_value_preview;
  redis_inspect_retry = some request;
  redis_inspect_error = some error;
}

unfoldable pub fold_inspect_failed :
    UiModel
    → RedisKeyInspectRequest
    → PublicOperationError
    → Option ℕ
    → Option SessionDisposition
    → ConnectionFailureOutcome
    → UiModel
fold_inspect_failed m request error session disposition outcome =
    let profile = request.identity.profile_id in
    let generation = request.identity.profile_generation in
    if_redis_current m profile generation session (
      apply_redis_session_truth
        (with_status (with_workspace m profile generation (with_inspect_error request error))
          (message error.summary))
        profile session disposition outcome)
