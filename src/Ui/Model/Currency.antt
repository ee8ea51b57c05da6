-- ===== src/Ui/Model/Currency.antt =====
-- Which events `UiModel::fold` of src/ui/model.rs ignores.
use dbotter.Prelude.{
  ℕ, ◌≤◌, ◌≡◌, ◌≢◌, refl, ◌⊎◌, inl, inr, true, false, Option, none, some, arith, ◌==◌, Bool-cases,
}
use dbotter.Text.{Text}
use dbotter.Ui.ResultView.{is_some_eq}
use dbotter.Ui.Model.{
  ConnectionState, connected, UiEvent, UiModel, event_is_current, redis_event_is_current,
  accepts_redis_event_session, profiles_operation_is_newer, profiles_loaded, profiles_failed,
  profile_saved, credentials_stored, credentials_store_failed, connection_ready, connection_closed,
  query_finished, catalog_page_loaded, catalog_page_failed, redis_keys_loaded, redis_keys_failed,
  redis_key_inspected, redis_key_inspect_failed, operation_failed, execute_unavailable,
  profile_deleted, config_uncertain, profile_create_failed, profile_update_failed,
  draft_connection_ready, draft_operation_failed, result_exported, result_export_failed,
  runtime_shutdown,
}
use dbotter.Ui.Model.Profiles.{
  deletes, save_is_current, fold_saved, fold_deleted, fold_profiles_loaded, fold_uncertain,
  accept_profiles_operation,
}
use dbotter.Ui.Model.Sessions.{
  if_current, if_redis_current, fold_credentials_stored, fold_ready, fold_closed, fold_unavailable,
  fold_finished, fold_catalog_loaded, fold_catalog_failed, fold_keys_loaded, fold_keys_failed,
  fold_inspected, fold_inspect_failed,
}
use dbotter.Ui.Model.Fold.{fold, fold_failed}

-- The configuration is uncertain, the profile is not active at the generation, or it was deleted at
-- that generation or a later one.
abbrev pub IsOutdated : UiModel → Text → ℕ → Type 0
IsOutdated m profile generation =
    (m.uncertain ≡ true)
    ⊎ ((m.active_generations profile ≢ some generation)
        ⊎ ((t : ℕ) × (m.tombstones profile ≡ some t) × (generation ≤ t)))

-- The profile is connected, by a session that the event is not from.
abbrev pub IsOtherSession : UiModel → Text → Option ℕ → Type 0
IsOtherSession m profile session =
    (current : ℕ) × (elapsed : ℕ) × (m.connection_states profile ≡ some (connected current elapsed))
    × (session ≢ some current)

-- A list of profiles, or its failure, that was asked for no later than the last one.
abbrev pub IsOverdue : UiModel → ℕ → Type 0
IsOverdue m operation = (last : ℕ) × (m.last_profiles_operation ≡ some last) × (operation ≤ last)

abbrev pub IsStale : UiModel → UiEvent → Type 0
IsStale m (profiles_loaded o profiles config) = IsOverdue m o
IsStale m (profiles_failed o summary error) = IsOverdue m o
IsStale m (config_uncertain o) = IsOverdue m o
IsStale m (profile_saved o p previous g retained warning) =
    (t : ℕ) × (m.tombstones p ≡ some t) × (g ≤ t)
IsStale m (profile_deleted o p g unknown) = (a : ℕ) × (m.active_generations p ≡ some a) × (g ≤ a)
IsStale m (credentials_stored o p g) = IsOutdated m p g
IsStale m (credentials_store_failed o p g summary error) = IsOutdated m p g
IsStale m (connection_ready o p g session elapsed) = IsOutdated m p g
IsStale m (connection_closed o p g post_close) = IsOutdated m p g
IsStale m (query_finished o p g session result) = IsOutdated m p g
IsStale m (operation_failed o p g session kind summary error disposition outcome) = IsOutdated m p g
IsStale m (execute_unavailable o p g summary) = IsOutdated m p g
IsStale m (catalog_page_loaded page session disposition) =
    IsOutdated m page.identity.profile_id page.identity.profile_generation
IsStale m (catalog_page_failed request summary error session disposition) =
    IsOutdated m request.identity.profile_id request.identity.profile_generation
IsStale m (redis_keys_loaded page session disposition) =
    IsOutdated m page.identity.profile_id page.identity.profile_generation
    ⊎ IsOtherSession m page.identity.profile_id (some session)
IsStale m (redis_keys_failed request error session disposition outcome) =
    IsOutdated m request.identity.profile_id request.identity.profile_generation
    ⊎ IsOtherSession m request.identity.profile_id session
IsStale m (redis_key_inspected preview session disposition) =
    IsOutdated m preview.identity.profile_id preview.identity.profile_generation
    ⊎ IsOtherSession m preview.identity.profile_id (some session)
IsStale m (redis_key_inspect_failed request error session disposition outcome) =
    IsOutdated m request.identity.profile_id request.identity.profile_generation
    ⊎ IsOtherSession m request.identity.profile_id session
IsStale m _ = ⊥

is_some_eq_ne : (o : Option ℕ) (n : ℕ) → o ≢ some n → is_some_eq o n ≡ false
is_some_eq_ne none n h = refl
is_some_eq_ne (some k) n h = elim (Bool-cases (k == n)) [
  | inl same ↦ absurd (h (ground arith))
  | inr differ ↦ differ
]

outdated-not-current :
    (m : UiModel) (p : Text) (g : ℕ) → IsOutdated m p g → event_is_current m p g ≡ false
unfolding event_is_current
outdated-not-current m p g (inl uncertain) = rw uncertain refl
outdated-not-current m p g (inr (inl other)) =
    ground (arith, is_some_eq_ne (m.active_generations p) g other)
outdated-not-current m p g (inr (inr (t, dead, le))) = ground arith

overdue-not-newer : (m : UiModel) (o : ℕ) → IsOverdue m o → profiles_operation_is_newer m o ≡ false
unfolding profiles_operation_is_newer
overdue-not-newer m o (last, e, le) = ground arith

if_current-stale :
    (m : UiModel) (p : Text) (g : ℕ) (next : UiModel) → IsOutdated m p g → if_current m p g next ≡ m
if_current-stale m p g next h = rw (outdated-not-current m p g h)

accept-stale :
    (m : UiModel) (o : ℕ) (next : UiModel) → IsOverdue m o → accept_profiles_operation m o next ≡ m
accept-stale m o next h = rw (overdue-not-newer m o h)

other_session :
    (state : Option ConnectionState) (current elapsed : ℕ) (session : Option ℕ)
    → state ≡ some (connected current elapsed)
    → session ≢ some current
    → accepts_redis_event_session state session ≡ false
other_session state current elapsed none e h = rw e
other_session state current elapsed (some s) e h = elim (Bool-cases (current == s)) [
  | inl same ↦ absurd (h (ground arith))
  | inr differ ↦ rw e differ
]

if_redis_current-stale :
    (m : UiModel) (p : Text) (g : ℕ) (session : Option ℕ) (next : UiModel)
    → IsOutdated m p g ⊎ IsOtherSession m p session
    → if_redis_current m p g session next ≡ m
unfolding redis_event_is_current
if_redis_current-stale m p g session next (inl h) = rw (outdated-not-current m p g h)
if_redis_current-stale m p g session next (inr (current, elapsed, e, h)) =
    ground (arith, other_session (m.connection_states p) current elapsed session e h)

save-not-current :
    (m : UiModel) (p : Text) (previous : Option ℕ) (g t : ℕ)
    → m.tombstones p ≡ some t
    → g ≤ t
    → save_is_current m p previous g ≡ false
unfolding save_is_current
save-not-current m p previous g t e le = ground arith

deletes-not : (active : Option ℕ) (g a : ℕ) → active ≡ some a → g ≤ a → deletes active g ≡ false
deletes-not active g a e le = ground arith

pub fold_stale : (m : UiModel) (e : UiEvent) → IsStale m e → fold m e ≡ m
unfolding fold fold_credentials_stored fold_ready fold_closed fold_unavailable fold_finished
    fold_catalog_loaded fold_catalog_failed fold_keys_loaded fold_keys_failed fold_inspected
    fold_inspect_failed fold_failed fold_saved fold_deleted fold_profiles_loaded fold_uncertain
fold_stale m (profiles_loaded o profiles config) h = accept-stale m o _ h
fold_stale m (profiles_failed o summary error) h = accept-stale m o _ h
fold_stale m (config_uncertain o) h = accept-stale m o _ h
fold_stale m (profile_saved o p previous g retained warning) (t, e, le) =
    rw (save-not-current m p previous g t e le)
fold_stale m (profile_deleted o p g unknown) (a, e, le) =
    rw (deletes-not (m.active_generations p) g a e le)
fold_stale m (credentials_stored o p g) h = if_current-stale m p g _ h
fold_stale m (credentials_store_failed o p g summary error) h = if_current-stale m p g _ h
fold_stale m (connection_ready o p g session elapsed) h = if_current-stale m p g _ h
fold_stale m (connection_closed o p g post_close) h = if_current-stale m p g _ h
fold_stale m (query_finished o p g session result) h = if_current-stale m p g _ h
fold_stale m (operation_failed o p g session kind summary error disposition outcome) h =
    if_current-stale m p g _ h
fold_stale m (execute_unavailable o p g summary) h = if_current-stale m p g _ h
fold_stale m (catalog_page_loaded page session disposition) h = if_current-stale m _ _ _ h
fold_stale m (catalog_page_failed request summary error session disposition) h =
    if_current-stale m _ _ _ h
fold_stale m (redis_keys_loaded page session disposition) h = if_redis_current-stale m _ _ _ _ h
fold_stale m (redis_keys_failed request error session disposition outcome) h =
    if_redis_current-stale m _ _ _ _ h
fold_stale m (redis_key_inspected preview session disposition) h =
    if_redis_current-stale m _ _ _ _ h
fold_stale m (redis_key_inspect_failed request error session disposition outcome) h =
    if_redis_current-stale m _ _ _ _ h
fold_stale m (profile_create_failed a b c d) h = elim h [ ]
fold_stale m (profile_update_failed a b c d e) h = elim h [ ]
fold_stale m (draft_connection_ready a b c) h = elim h [ ]
fold_stale m (draft_operation_failed a b c d) h = elim h [ ]
fold_stale m (result_exported a b c d e f) h = elim h [ ]
fold_stale m (result_export_failed a b c d e f g) h = elim h [ ]
fold_stale m (runtime_shutdown a) h = elim h [ ]
