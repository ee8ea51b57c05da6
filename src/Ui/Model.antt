-- ===== src/Ui/Model.antt =====
-- `UiModel` of src/ui/model.rs: the state that the user interface shows, and the events that change
-- it. A hash map is a function from its keys; profiles are named by texts and the generations of
-- profiles and sessions are numbers. The children fold the events and prove what the fold keeps.
use dbotter.Prelude.{
  ℕ, ◌+◌, Bool, true, false, ◌&&◌, ◌||◌, not, Option, none, some, List, [], ◌∷◌, length, ltb, leb,
  ◌==◌, if◌then◌else◌, min, ◌-◌, ◌^◌,
}
use dbotter.Text.{Text, codes, text_eq}
use dbotter.Model.{DriverKind, ResultSnapshot, ExportFormat}
use dbotter.Model.Operations.{OperationKind, PublicSummary}
use dbotter.Model.Profiles.{ConnectionProfile, CredentialMode, environment}
use dbotter.Model.Pages.{CatalogPage, RedisKeyPage, RedisValuePreview}
use dbotter.Model.Requests.{CatalogRequest, RedisScanRequest, RedisKeyInspectRequest}
use dbotter.PublicErrors.{PublicOperationError}
use dbotter.Secrets.{EnvironmentAvailability, available}
use dbotter.Ui.ResultView.{ResultViewState, default_view, is_some_eq}
pub use dbotter.Text.Maps.{Map, put, erase}
pub mod Profiles
pub mod Sessions
pub mod Fold
pub mod Currency
pub mod Frame
pub mod Bystanders
pub mod Invariant
pub mod Consistency
pub mod Deleted
pub mod Delivery
pub mod Selection
pub mod Examples

pub data ConfigSourceVersion : Type 0 where
  missing v1 v2 : ConfigSourceVersion

pub record ConfigPresentation : Type 0 where
  pub source_version : ConfigSourceVersion
  pub migration_backup : Option Text

pub record WorkspaceKey : Type 0 where
  pub profile_id : Text
  pub profile_generation : ℕ

abbrev pub key_eq : WorkspaceKey → WorkspaceKey → Bool
key_eq a b = text_eq a.profile_id b.profile_id && a.profile_generation == b.profile_generation

pub record ProfileWorkspace : Type 0 where
  pub editor_text : Text
  pub caret_character_index : ℕ
  pub selection_character_range : Option (ℕ × ℕ)
  pub row_limit : Text
  pub timeout_seconds : Text
  pub pending_execute : Option ℕ
  pub result : Option ResultSnapshot
  pub result_view : ResultViewState
  pub error : Option PublicOperationError
  pub catalog_page : Option CatalogPage
  pub catalog_retry : Option CatalogRequest
  pub catalog_error : Option PublicOperationError
  pub redis_key_page : Option RedisKeyPage
  pub redis_scan_retry : Option RedisScanRequest
  pub redis_scan_error : Option PublicOperationError
  pub redis_value_preview : Option RedisValuePreview
  pub redis_inspect_retry : Option RedisKeyInspectRequest
  pub redis_inspect_error : Option PublicOperationError

-- What `workspace_mut` inserts.
abbrev pub new_workspace : ProfileWorkspace
new_workspace = record {
  editor_text = [];
  caret_character_index = 0;
  selection_character_range = none;
  row_limit = codes "500";
  timeout_seconds = codes "30";
  pending_execute = none;
  result = none;
  result_view = default_view;
  error = none;
  catalog_page = none;
  catalog_retry = none;
  catalog_error = none;
  redis_key_page = none;
  redis_scan_retry = none;
  redis_scan_error = none;
  redis_value_preview = none;
  redis_inspect_retry = none;
  redis_inspect_error = none;
}

pub data PostCloseState : Type 0 where
  disconnected needs_credential : PostCloseState

pub data ConnectionFailureOutcome : Type 0 where
  preserve disconnected unknown needs_credential : ConnectionFailureOutcome

pub data DriverAvailability : Type 0 where
  ready planned : DriverAvailability

pub data SessionDisposition : Type 0 where
  keep evict : SessionDisposition

pub record ProfileSnapshot : Type 0 where
  pub id : Text
  pub generation : ℕ
  pub name : Text
  pub driver : DriverKind
  pub endpoint : Text
  pub database : Option Text
  pub availability : DriverAvailability
  pub planned_reason : Option Text
  pub has_current_session_secret : Bool
  pub environment_availability : Option EnvironmentAvailability
  pub persisted : ConnectionProfile

abbrev pub is_ready : ProfileSnapshot → Bool
is_ready p = elim p.availability [ ready ↦ true | planned ↦ false ]

abbrev is_environment : CredentialMode → Bool
is_environment environment = true
is_environment _ = false

abbrev is_available : Option EnvironmentAvailability → Bool
is_available (some available) = true
is_available _ = false

pub can_connect : ProfileSnapshot → Bool
can_connect p =
    is_ready p
    && (not (is_environment p.persisted.credential_mode) || is_available p.environment_availability)

pub data ConnectionState : Type 0 where
  disconnected : ConnectionState
  pending : ℕ → ConnectionState
  connected : ℕ → ℕ → ConnectionState
  needs_credential : ConnectionState
  failed : PublicSummary → ConnectionState
  closing : ConnectionState

-- The arguments stand in the order of the fields in the source; those that the fold does not read
-- are kept.
pub data UiEvent : Type 0 where
  profiles_loaded : ℕ → List ProfileSnapshot → ConfigPresentation → UiEvent
  profiles_failed : ℕ → PublicSummary → PublicOperationError → UiEvent
  profile_saved :
      (operation : ℕ) (profile : Text) (previous : Option ℕ) (generation : ℕ) (retained : Bool)
      (warning : Option PublicSummary)
      → UiEvent
  profile_create_failed : ℕ → ℕ → PublicSummary → PublicOperationError → UiEvent
  profile_update_failed : ℕ → Text → ℕ → PublicSummary → PublicOperationError → UiEvent
  credentials_stored : (operation : ℕ) (profile : Text) (generation : ℕ) → UiEvent
  credentials_store_failed : ℕ → Text → ℕ → PublicSummary → PublicOperationError → UiEvent
  connection_ready : (operation : ℕ) (profile : Text) (generation session elapsed_ms : ℕ) → UiEvent
  connection_closed : ℕ → Text → ℕ → PostCloseState → UiEvent
  draft_connection_ready : ℕ → ℕ → (elapsed_ms : ℕ) → UiEvent
  draft_operation_failed : ℕ → ℕ → PublicSummary → PublicOperationError → UiEvent
  query_finished :
      (operation : ℕ) (profile : Text) (generation session : ℕ) → ResultSnapshot → UiEvent
  result_exported :
      (operation result : ℕ)
      → ExportFormat
      → (replace : Bool) (row_count bytes_written : ℕ) → UiEvent
  result_export_failed :
      (operation result : ℕ)
      → ExportFormat
      → (replace : Bool) → PublicSummary
      → PublicOperationError
      → (committed : Bool) → UiEvent
  catalog_page_loaded : CatalogPage → (session : ℕ) → SessionDisposition → UiEvent
  catalog_page_failed :
      CatalogRequest
      → PublicSummary
      → PublicOperationError
      → (session : Option ℕ) → Option SessionDisposition
      → UiEvent
  redis_keys_loaded : RedisKeyPage → (session : ℕ) → SessionDisposition → UiEvent
  redis_keys_failed :
      RedisScanRequest
      → PublicOperationError
      → (session : Option ℕ) → Option SessionDisposition
      → ConnectionFailureOutcome
      → UiEvent
  redis_key_inspected : RedisValuePreview → (session : ℕ) → SessionDisposition → UiEvent
  redis_key_inspect_failed :
      RedisKeyInspectRequest
      → PublicOperationError
      → (session : Option ℕ) → Option SessionDisposition
      → ConnectionFailureOutcome
      → UiEvent
  operation_failed :
      (operation : ℕ) (profile : Text) (generation : ℕ) (session : Option ℕ)
      → OperationKind
      → PublicSummary
      → PublicOperationError
      → Option SessionDisposition
      → ConnectionFailureOutcome
      → UiEvent
  execute_unavailable : ℕ → Text → ℕ → PublicSummary → UiEvent
  profile_deleted : (operation : ℕ) (profile : Text) (generation : ℕ) (unknown : Bool) → UiEvent
  config_uncertain : (operation : ℕ) → UiEvent
  runtime_shutdown : (operation : ℕ) → UiEvent

pub record UiModel : Type 0 where
  pub profiles : List ProfileSnapshot
  pub selected_profile : Option Text
  pub active_generations : Map ℕ
  pub tombstones : Map ℕ
  pub connection_states : Map ConnectionState
  pub workspaces : WorkspaceKey → Option ProfileWorkspace
  pub status : Text
  pub config : ConfigPresentation
  pub uncertain : Bool
  pub profile_load_succeeded : Bool
  pub last_profiles_operation : Option ℕ
  pub pending_retags : Map (ℕ × ℕ)
  pub next_operation_id : ℕ

-- `UiModel::default`.
pub new_model : UiModel
new_model = record {
  profiles = [];
  selected_profile = none;
  active_generations = λ k. none;
  tombstones = λ k. none;
  connection_states = λ k. none;
  workspaces = λ k. none;
  status = codes "Loading profiles…";
  config = record { source_version = missing; migration_backup = none };
  uncertain = false;
  profile_load_succeeded = false;
  last_profiles_operation = none;
  pending_retags = λ k. none;
  next_operation_id = 1;
}

abbrev pub workspace_or_new : Option ProfileWorkspace → ProfileWorkspace
workspace_or_new none = new_workspace
workspace_or_new (some w) = w

-- `exact_workspace_mut`: the workspace of a profile, made where it is missing, and changed.
abbrev pub with_workspace : UiModel → Text → ℕ → (ProfileWorkspace → ProfileWorkspace) → UiModel
with_workspace m profile generation change =
    let key : WorkspaceKey = record { profile_id = profile; profile_generation = generation } in
    record m {
      workspaces = λ k.
          if key_eq key k
          then some (change (workspace_or_new (m.workspaces key)))
          else m.workspaces k;
    }

abbrev pub workspace_at : UiModel → Text → ℕ → ProfileWorkspace
workspace_at m profile generation =
    workspace_or_new
      (m.workspaces (record { profile_id = profile; profile_generation = generation }))

-- `next_operation`, with the saturation of a `u64`.
pub next_operation : UiModel → ℕ × UiModel
next_operation m = (
  m.next_operation_id,
  record m { next_operation_id = min (m.next_operation_id + 1) (2 ^ 64 - 1) },
)

abbrev pub find_profile : List ProfileSnapshot → Text → Option ProfileSnapshot
find_profile [] id = none
find_profile (p ∷ ps) id = if text_eq p.id id then some p else find_profile ps id

pub selected_profile_snapshot : UiModel → Option ProfileSnapshot
selected_profile_snapshot m = elim m.selected_profile [
  | none ↦ none
  | some id ↦ find_profile m.profiles id
]

pub selected_workspace_key : UiModel → Option WorkspaceKey
unfolding selected_profile_snapshot
selected_workspace_key m = elim (selected_profile_snapshot m) [
  | none ↦ none
  | some p ↦ some (record { profile_id = p.id; profile_generation = p.generation })
]

-- What is done through `selected_workspace_mut`.
pub with_selected_workspace : UiModel → (ProfileWorkspace → ProfileWorkspace) → UiModel
unfolding selected_workspace_key
with_selected_workspace m change = elim (selected_workspace_key m) [
  | none ↦ m
  | some key ↦ with_workspace m key.profile_id key.profile_generation change
]

-- `is_none_or(|tombstone| generation > tombstone)`.
abbrev pub is_newer : Option ℕ → ℕ → Bool
is_newer none generation = true
is_newer (some tombstone) generation = ltb tombstone generation

pub profiles_operation_is_newer : UiModel → ℕ → Bool
profiles_operation_is_newer m operation = is_newer m.last_profiles_operation operation

pub event_is_current : UiModel → Text → ℕ → Bool
event_is_current m profile generation =
    not m.uncertain
    && (is_some_eq (m.active_generations profile) generation
        && is_newer (m.tombstones profile) generation)

-- `accepts_redis_event_session`, of a state that is `Disconnected` where there is none.
abbrev pub accepts_redis_event_session : Option ConnectionState → Option ℕ → Bool
accepts_redis_event_session (some (connected current elapsed)) (some event) = current == event
accepts_redis_event_session (some (connected current elapsed)) none = false
accepts_redis_event_session _ (some event) = false
accepts_redis_event_session _ none = true

pub redis_event_is_current : UiModel → Text → ℕ → Option ℕ → Bool
unfolding event_is_current
redis_event_is_current m profile generation session =
    event_is_current m profile generation
    && accepts_redis_event_session (m.connection_states profile) session
