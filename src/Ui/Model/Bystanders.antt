-- ===== src/Ui/Model/Bystanders.antt =====
-- What `UiModel::fold` of src/ui/model.rs leaves alone on an event about one profile.
use dbotter.Prelude.{ℕ, ◌≡◌, Option, none, some, if◌then◌else◌, ap, subst}
use dbotter.Text.{Text}
use dbotter.Ui.ResultView.{is_some_eq}
use dbotter.Ui.Model.{
  UiModel, UiEvent, ConnectionState, workspace_at, event_is_current, redis_event_is_current,
  preserve, connected, profiles_loaded, profiles_failed, profile_saved, profile_create_failed,
  profile_update_failed, credentials_stored, credentials_store_failed, connection_ready,
  connection_closed, draft_connection_ready, draft_operation_failed, query_finished,
  result_exported, result_export_failed, catalog_page_loaded, catalog_page_failed,
  redis_keys_loaded, redis_keys_failed, redis_key_inspected, redis_key_inspect_failed,
  operation_failed, execute_unavailable, profile_deleted, config_uncertain, runtime_shutdown,
}
use dbotter.Ui.Model.Sessions.{
  if_current, if_redis_current, with_state, is_pending_by, closed_state, finish_execute,
  with_result, with_catalog, with_catalog_error, with_keys, with_scan_error, with_preview,
  with_inspect_error, fold_credentials_stored, fold_ready, fold_closed, fold_unavailable,
  fold_finished, fold_catalog_loaded, fold_catalog_failed, fold_keys_loaded, fold_keys_failed,
  fold_inspected, fold_inspect_failed,
}
use dbotter.Ui.Model.Profiles.{with_status}
use dbotter.Ui.Model.Fold.{fold, fold_failed}
use dbotter.Ui.Model.Frame.{
  Touches, touch_none, touch-stored_secret, touch-with_status, touch_if, touch-with_state,
  touch-with_workspace, touch-apply_redis_session_truth, touch-fold_catalog_session, touch-supplied,
  touch-fail_operation,
}

-- The profile, at its generation, of an event that is about a connection of it.
abbrev pub subject_of : UiEvent → Option (Text × ℕ)
subject_of (credentials_stored o p g) = some (p, g)
subject_of (credentials_store_failed o p g summary error) = some (p, g)
subject_of (connection_ready o p g session elapsed) = some (p, g)
subject_of (connection_closed o p g post_close) = some (p, g)
subject_of (query_finished o p g session result) = some (p, g)
subject_of (operation_failed o p g session kind summary error disposition outcome) = some (p, g)
subject_of (execute_unavailable o p g summary) = some (p, g)
subject_of (catalog_page_loaded page session disposition) =
    some (page.identity.profile_id, page.identity.profile_generation)
subject_of (catalog_page_failed request summary error session disposition) =
    some (request.identity.profile_id, request.identity.profile_generation)
subject_of (redis_keys_loaded page session disposition) =
    some (page.identity.profile_id, page.identity.profile_generation)
subject_of (redis_keys_failed request error session disposition outcome) =
    some (request.identity.profile_id, request.identity.profile_generation)
subject_of (redis_key_inspected preview session disposition) =
    some (preview.identity.profile_id, preview.identity.profile_generation)
subject_of (redis_key_inspect_failed request error session disposition outcome) =
    some (request.identity.profile_id, request.identity.profile_generation)
subject_of _ = none

touch_current :
    (m : UiModel) (p : Text) (g : ℕ) (next : UiModel)
    → Touches p m next
    → Touches p m (if_current m p g next)
touch_current m p g next h = touch_if p m (event_is_current m p g) next m h (touch_none p m)

touch_redis_current :
    (m : UiModel) (p : Text) (g : ℕ) (session : Option ℕ) (next : UiModel)
    → Touches p m next
    → Touches p m (if_redis_current m p g session next)
touch_redis_current m p g session next h =
    touch_if p m (redis_event_is_current m p g session) next m h (touch_none p m)

touch_of :
    (p q : Text) (g h : ℕ) (m n : UiModel)
    → Touches p m n
    → ◌≡◌ {A = Option (Text × ℕ)} (some (p, g)) (some (q, h))
    → Touches q m n
touch_of p q g h m n t e =
    let same : p ≡ q = ap (λ o. elim o [ none ↦ p | some about ↦ about.0 ]) e in
    subst (λ r. Touches r m n) same t

-- The state of a connection that is pending for the operation.
touch_pending :
    (m : UiModel) (o : ℕ) (p : Text) (state : ConnectionState) (status : Text)
    → Touches p m (
        if is_pending_by (m.connection_states p) o
        then with_status (with_state m p state) status
        else m)
touch_pending m o p state status =
    touch_if p m (is_pending_by (m.connection_states p) o) _ m
      (touch-with_status p m _ status (touch-with_state p m m state (touch_none p m)))
      (touch_none p m)

-- An event about a connection of one profile leaves all generations, tombstones and pending changes
-- of generation, the selection and the order of the profiles as they are, and the snapshot, the
-- connection state and the workspaces of every other profile, whatever the state of the model and
-- whether the event is current or not. Of the profile's own snapshot it only ever notes that there
-- is a session credential.
pub fold-Touches :
    (m : UiModel) (e : UiEvent) (q : Text) (h : ℕ)
    → subject_of e ≡ some (q, h)
    → Touches q m (fold m e)
unfolding fold fold_credentials_stored fold_ready fold_closed fold_unavailable fold_finished
    fold_catalog_loaded fold_catalog_failed fold_keys_loaded fold_keys_failed fold_inspected
    fold_inspect_failed fold_failed
fold-Touches m (credentials_stored o p g) q h n =
    touch_of p q g h m _
      (touch_current m p g _ (
        touch-with_status p m _ _
          (touch-supplied p m _ (m.connection_states p) (touch-stored_secret p m))))
      n
fold-Touches m (credentials_store_failed o p g summary error) q h n =
    touch_of p q g h m _ (touch_current m p g _ (touch-with_status p m m _ (touch_none p m))) n
fold-Touches m (connection_ready o p g session elapsed) q h n =
    touch_of p q g h m _ (touch_current m p g _ (touch_pending m o p (connected session elapsed) _))
      n
fold-Touches m (connection_closed o p g post_close) q h n =
    touch_of p q g h m _ (touch_current m p g _ (touch_pending m o p (closed_state post_close) _)) n
fold-Touches m (query_finished o p g session result) q h n =
    touch_of p q g h m _
      (touch_current m p g _ (
        touch_if p m (is_some_eq (workspace_at m p g).pending_execute o) _ _
          (touch-with_state p m _ (connected session 0) (
            touch-with_status p m _ _
              (touch-with_workspace p m m g (with_result result) (touch_none p m))))
          (touch-with_workspace p m m g (λ w. w) (touch_none p m))))
      n
fold-Touches m (operation_failed o p g session kind summary error disposition outcome) q h n =
    touch_of p q g h m _ (touch_current m p g _ (touch-fail_operation p m o g kind error outcome)) n
fold-Touches m (execute_unavailable o p g summary) q h n =
    touch_of p q g h m _
      (touch_current m p g _ (
        touch-with_status p m _ _
          (touch-with_workspace p m m g (finish_execute o) (touch_none p m))))
      n
fold-Touches m (catalog_page_loaded page session disposition) q h n =
    let p = page.identity.profile_id in
    let g = page.identity.profile_generation in
    touch_of p q g h m _
      (touch_current m p g _ (
        touch-with_status p m _ _ (
          touch-with_workspace p m _ g (with_catalog page)
            (touch-fold_catalog_session p m (some session) (some disposition)))))
      n
fold-Touches m (catalog_page_failed request summary error session disposition) q h n =
    let p = request.identity.profile_id in
    let g = request.identity.profile_generation in
    touch_of p q g h m _
      (touch_current m p g _ (
        touch-with_status p m _ _ (
          touch-with_workspace p m _ g (with_catalog_error request error)
            (touch-fold_catalog_session p m session disposition))))
      n
fold-Touches m (redis_keys_loaded page session disposition) q h n =
    let p = page.identity.profile_id in
    let g = page.identity.profile_generation in
    touch_of p q g h m _
      (touch_redis_current m p g (some session) _ (
        touch-with_status p m _ _ (
          touch-apply_redis_session_truth p m _ (some session) (some disposition) preserve
            (touch-with_workspace p m m g (with_keys page) (touch_none p m)))))
      n
fold-Touches m (redis_keys_failed request error session disposition outcome) q h n =
    let p = request.identity.profile_id in
    let g = request.identity.profile_generation in
    touch_of p q g h m _
      (touch_redis_current m p g session _ (
        touch-apply_redis_session_truth p m _ session disposition outcome (
          touch-with_status p m _ _
            (touch-with_workspace p m m g (with_scan_error request error) (touch_none p m)))))
      n
fold-Touches m (redis_key_inspected preview session disposition) q h n =
    let p = preview.identity.profile_id in
    let g = preview.identity.profile_generation in
    touch_of p q g h m _
      (touch_redis_current m p g (some session) _ (
        touch-with_status p m _ _ (
          touch-apply_redis_session_truth p m _ (some session) (some disposition) preserve
            (touch-with_workspace p m m g (with_preview preview) (touch_none p m)))))
      n
fold-Touches m (redis_key_inspect_failed request error session disposition outcome) q h n =
    let p = request.identity.profile_id in
    let g = request.identity.profile_generation in
    touch_of p q g h m _
      (touch_redis_current m p g session _ (
        touch-apply_redis_session_truth p m _ session disposition outcome (
          touch-with_status p m _ _
            (touch-with_workspace p m m g (with_inspect_error request error) (touch_none p m)))))
      n
fold-Touches m (profiles_loaded a b c) q h n = cc
fold-Touches m (profiles_failed a b c) q h n = cc
fold-Touches m (profile_saved a b c d i j) q h n = cc
fold-Touches m (profile_create_failed a b c d) q h n = cc
fold-Touches m (profile_update_failed a b c d i) q h n = cc
fold-Touches m (draft_connection_ready a b c) q h n = cc
fold-Touches m (draft_operation_failed a b c d) q h n = cc
fold-Touches m (result_exported a b c d i j) q h n = cc
fold-Touches m (result_export_failed a b c d i j k) q h n = cc
fold-Touches m (profile_deleted a b c d) q h n = cc
fold-Touches m (config_uncertain a) q h n = cc
fold-Touches m (runtime_shutdown a) q h n = cc
