-- ===== src/Ui/Model/Profiles.antt =====
-- What `UiModel::fold` of src/ui/model.rs does on events about profiles and the configuration.
use mathlib.Core.Bool.{decide}
use dbotter.Prelude.{
  ℕ, Bool, true, false, ◌&&◌, ◌||◌, not, Option, none, some, List, [], ◌∷◌, ◌++◌, length, ltb, leb,
  ◌==◌, any, if◌then◌else◌,
}
use dbotter.Text.{Text, codes, text_eq}
use dbotter.Model.Operations.{PublicSummary, message}
use dbotter.Model.Profiles.{ConnectionProfile-discrete, CredentialMode, session}
use dbotter.Export.Scalars.{display_uint}
use dbotter.Ui.ResultView.{is_some_eq}
use dbotter.Ui.Model.{
  Map, put, erase, ConfigPresentation, ProfileWorkspace, ProfileSnapshot, ConnectionState, closing,
  needs_credential, UiModel, find_profile, is_newer, profiles_operation_is_newer,
}

abbrev pub with_status : UiModel → Text → UiModel
with_status m status = record m { status = status }

-- `accept_profiles_operation`: an event that is not newer than the last one changes nothing.
abbrev pub accept_profiles_operation : UiModel → ℕ → UiModel → UiModel
accept_profiles_operation m operation next =
    if profiles_operation_is_newer m operation then next else m

abbrev saves_over : Option ℕ → Option ℕ → ℕ → Bool
saves_over (some previous) active generation =
    is_some_eq active previous || is_some_eq active generation
saves_over none none generation = true
saves_over none (some active) generation = leb active generation

unfoldable pub save_is_current : UiModel → Text → Option ℕ → ℕ → Bool
save_is_current m profile previous generation =
    is_newer (m.tombstones profile) generation
    && saves_over previous (m.active_generations profile) generation

abbrev pub warned : Text → Option PublicSummary → Text
warned status none = status
warned status (some summary) = message summary

-- The retag that a save that keeps its session leaves for the next list of profiles.
abbrev pub retag : Option ℕ → Bool → ℕ → Option (ℕ × ℕ)
retag (some previous) true generation = some (previous, generation)
retag _ _ generation = none

abbrev pub with_retag : UiModel → Text → Option (ℕ × ℕ) → UiModel
with_retag m profile (some tags) = record m { pending_retags = put m.pending_retags profile tags }
with_retag m profile none = record m {
  pending_retags = erase m.pending_retags profile;
  connection_states = erase m.connection_states profile;
}

unfoldable pub fold_saved : UiModel → Text → Option ℕ → ℕ → Bool → Option PublicSummary → UiModel
unfolding save_is_current
fold_saved m profile previous generation retained warning =
    let tagged = with_retag m profile (retag previous retained generation) in
    if save_is_current m profile previous generation
    then record tagged {
      active_generations = put m.active_generations profile generation;
      status = warned m.status warning;
    }
    else m

-- A tombstone never goes back.
abbrev pub raised : Option ℕ → ℕ → ℕ
raised none generation = generation
raised (some current) generation = if ltb current generation then generation else current

abbrev pub keep_profiles : (ProfileSnapshot → Bool) → List ProfileSnapshot → List ProfileSnapshot
keep_profiles test [] = []
keep_profiles test (p ∷ ps) = if test p then p ∷ keep_profiles test ps else keep_profiles test ps

abbrev pub first_id : List ProfileSnapshot → Option Text
first_id [] = none
first_id (p ∷ ps) = some p.id

abbrev pub deletes : Option ℕ → ℕ → Bool
deletes none generation = true
deletes (some active) generation = ltb active generation

abbrev pub selects : Option Text → Text → Bool
selects none id = false
selects (some selected) id = text_eq selected id

unfoldable pub delete_profile : UiModel → Text → ℕ → Bool → UiModel
delete_profile m profile generation unknown =
    let left = keep_profiles (λ p. not (text_eq p.id profile)) m.profiles in
    record m {
      tombstones = put m.tombstones profile (raised (m.tombstones profile) generation);
      active_generations = erase m.active_generations profile;
      profiles = left;
      connection_states = erase m.connection_states profile;
      workspaces = λ k. if text_eq k.profile_id profile then none else m.workspaces k;
      selected_profile =
          if selects m.selected_profile profile then first_id left else m.selected_profile;
      status =
          if unknown
          then codes "Profile deleted; server state is unknown."
          else codes "Profile deleted";
    }

unfoldable pub fold_deleted : UiModel → Text → ℕ → Bool → UiModel
unfolding delete_profile
fold_deleted m profile generation unknown =
    if deletes (m.active_generations profile) generation
    then delete_profile m profile generation unknown
    else m

-- The first loop of `fold_profiles`: what is active and no longer listed is dead.
abbrev pub buried : Option ℕ → Option ℕ → Bool → Option ℕ
buried tombstone none listed = tombstone
buried tombstone (some active) listed = if listed then tombstone else some (raised tombstone active)

abbrev pub is_listed : List ProfileSnapshot → Text → Bool
is_listed profiles id = any (λ p. text_eq p.id id) profiles

unfoldable pub buried_tombstones : UiModel → List ProfileSnapshot → Map ℕ
buried_tombstones m profiles id =
    buried (m.tombstones id) (m.active_generations id) (is_listed profiles id)

-- `collect` into a map: the last entry of a name stays.
unfoldable pub collect_generations : List ProfileSnapshot → Map ℕ
collect_generations [] id = none
collect_generations (p ∷ ps) id = elim (collect_generations ps id) [
  | some generation ↦ some generation
  | none ↦ if text_eq p.id id then some p.generation else none
]

abbrev is_retag : Option (ℕ × ℕ) → ℕ → ℕ → Bool
is_retag none previous refreshed = false
is_retag (some (from, to)) previous refreshed = from == previous && to == refreshed

-- Whether a connection outlives a new list of profiles.
abbrev pub survives : Option ProfileSnapshot → Option ProfileSnapshot → Option (ℕ × ℕ) → Bool
survives (some previous) (some refreshed) tags =
    (previous.generation == refreshed.generation
      && decide (ConnectionProfile-discrete previous.persisted refreshed.persisted))
    || is_retag tags previous.generation refreshed.generation
survives _ _ tags = false

abbrev is_session : CredentialMode → Bool
is_session session = true
is_session _ = false

-- A session credential that is not there.
abbrev pub lacks_secret : ProfileSnapshot → Bool
lacks_secret p = is_session p.persisted.credential_mode && not p.has_current_session_secret

unfoldable pub refreshed_states : UiModel → List ProfileSnapshot → Map ConnectionState
refreshed_states m kept id =
    if any (λ p. text_eq p.id id && lacks_secret p) kept
    then some needs_credential
    else if survives (find_profile m.profiles id) (find_profile kept id) (m.pending_retags id)
    then m.connection_states id
    else none

abbrev pub reselected : Option Text → List ProfileSnapshot → Option Text
reselected none kept = first_id kept
reselected (some selected) kept = if is_listed kept selected then some selected else first_id kept

-- `fold_profiles` behind its first loop, given the tombstones.
unfoldable pub list_profiles : UiModel → Map ℕ → List ProfileSnapshot → UiModel
unfolding collect_generations refreshed_states
list_profiles m tombstones profiles =
    let is_alive : ProfileSnapshot → Bool = λ p. is_newer (tombstones p.id) p.generation in
    let kept = keep_profiles is_alive profiles in
    let active = collect_generations (keep_profiles is_alive kept) in
    record m {
      tombstones = tombstones;
      profiles = kept;
      active_generations = active;
      connection_states = refreshed_states m kept;
      workspaces = λ k.
          if is_some_eq (active k.profile_id) k.profile_generation then m.workspaces k else none;
      selected_profile = reselected m.selected_profile kept;
      pending_retags = λ k. none;
      uncertain = false;
      status = display_uint (length kept) ++ codes " profiles loaded";
    }

unfoldable pub fold_profiles : UiModel → List ProfileSnapshot → UiModel
unfolding list_profiles buried_tombstones
fold_profiles m profiles = list_profiles m (buried_tombstones m profiles) profiles

unfoldable pub fold_profiles_loaded :
    UiModel → ℕ → List ProfileSnapshot → ConfigPresentation → UiModel
unfolding fold_profiles
fold_profiles_loaded m operation profiles config = accept_profiles_operation m operation (
    fold_profiles
      (record m {
        last_profiles_operation = some operation;
        profile_load_succeeded = true;
        config = config;
      })
      profiles)

abbrev cleared_execute : Option ProfileWorkspace → Option ProfileWorkspace
cleared_execute none = none
cleared_execute (some w) = some (record w { pending_execute = none })

unfoldable pub fold_uncertain : UiModel → ℕ → UiModel
fold_uncertain m operation = accept_profiles_operation m operation (record m {
  last_profiles_operation = some operation;
  uncertain = true;
  pending_retags = λ k. none;
  connection_states = λ k. none;
  workspaces = λ k. cleared_execute (m.workspaces k);
  status = codes "Configuration state is uncertain.";
})

abbrev pub closed_if : Option ℕ → Option ConnectionState → Option ConnectionState
closed_if none state = state
closed_if (some active) state = some closing

unfoldable pub fold_shutdown : UiModel → UiModel
fold_shutdown m = record m {
  connection_states = λ k. closed_if (m.active_generations k) (m.connection_states k);
  workspaces = λ k. cleared_execute (m.workspaces k);
  status = codes "Runtime shut down";
}
