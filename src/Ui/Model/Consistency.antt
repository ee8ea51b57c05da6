-- ===== src/Ui/Model/Consistency.antt =====
-- The events of src/ui/model.rs keep the model consistent.
use dbotter.Prelude.{
  ℕ, ◌≡◌, ◌⊎◌, refl, sym, ap, ◌∙◌, inl, inr, true, Option, none, some, List, arith, Bool-cases,
  subst,
}
use dbotter.Text.{Text, text_eq}
use dbotter.Text.Equality.{text_eq→≡}
use dbotter.Ui.ResultView.{is_some_eq}
use dbotter.Ui.Model.{
  UiModel, UiEvent, ProfileSnapshot, profiles_operation_is_newer, profiles_loaded, profiles_failed,
  profile_saved, credentials_stored, credentials_store_failed, connection_ready, connection_closed,
  query_finished, catalog_page_loaded, catalog_page_failed, redis_keys_loaded, redis_keys_failed,
  redis_key_inspected, redis_key_inspect_failed, operation_failed, execute_unavailable,
  profile_deleted, config_uncertain, profile_create_failed, profile_update_failed,
  draft_connection_ready, draft_operation_failed, result_exported, result_export_failed,
  runtime_shutdown,
}
use dbotter.Ui.Model.Profiles.{
  accept_profiles_operation, fold_profiles, buried_tombstones, fold_profiles_loaded, fold_uncertain,
  fold_shutdown,
}
use dbotter.Ui.Model.Fold.{fold}
use dbotter.Ui.Model.Frame.{Touches}
use dbotter.Ui.Model.Currency.{IsOutdated, IsStale, fold_stale}
use dbotter.Ui.Model.Bystanders.{subject_of, fold-Touches}
use dbotter.Ui.Model.Invariant.{
  IsConsistent, saved-IsConsistent, deleted-IsConsistent, listed-IsConsistent,
}

IsOutdated-about :
    (m : UiModel) (p q : Text) (g h : ℕ)
    → ◌≡◌ {A = Option (Text × ℕ)} (some (p, g)) (some (q, h))
    → IsOutdated m q h
    → IsOutdated m p g
IsOutdated-about m p q g h e late =
    let profile : q ≡ p = sym (ap (λ o. elim o [ none ↦ p | some about ↦ about.0 ]) e) in
    let generation : h ≡ g = sym (ap (λ o. elim o [ none ↦ g | some about ↦ about.1 ]) e) in
    subst (λ r. IsOutdated m r g) profile (subst (λ n. IsOutdated m q n) generation late)

pub subject-IsStale :
    (m : UiModel) (e : UiEvent) (q : Text) (h : ℕ)
    → subject_of e ≡ some (q, h)
    → IsOutdated m q h
    → IsStale m e
subject-IsStale m (credentials_stored a b c) q h n late = IsOutdated-about m _ q _ h n late
subject-IsStale m (credentials_store_failed a b c d i) q h n late =
    IsOutdated-about m _ q _ h n late
subject-IsStale m (connection_ready a b c d i) q h n late = IsOutdated-about m _ q _ h n late
subject-IsStale m (connection_closed a b c d) q h n late = IsOutdated-about m _ q _ h n late
subject-IsStale m (query_finished a b c d i) q h n late = IsOutdated-about m _ q _ h n late
subject-IsStale m (operation_failed a b c d i j k u v) q h n late =
    IsOutdated-about m _ q _ h n late
subject-IsStale m (execute_unavailable a b c d) q h n late = IsOutdated-about m _ q _ h n late
subject-IsStale m (catalog_page_loaded a b c) q h n late = IsOutdated-about m _ q _ h n late
subject-IsStale m (catalog_page_failed a b c d i) q h n late = IsOutdated-about m _ q _ h n late
subject-IsStale m (redis_keys_loaded a b c) q h n late = inl (IsOutdated-about m _ q _ h n late)
subject-IsStale m (redis_keys_failed a b c d i) q h n late = inl (IsOutdated-about m _ q _ h n late)
subject-IsStale m (redis_key_inspected a b c) q h n late = inl (IsOutdated-about m _ q _ h n late)
subject-IsStale m (redis_key_inspect_failed a b c d i) q h n late =
    inl (IsOutdated-about m _ q _ h n late)
subject-IsStale m (profiles_loaded a b c) q h n late = cc
subject-IsStale m (profiles_failed a b c) q h n late = cc
subject-IsStale m (profile_saved a b c d i j) q h n late = cc
subject-IsStale m (profile_create_failed a b c d) q h n late = cc
subject-IsStale m (profile_update_failed a b c d i) q h n late = cc
subject-IsStale m (draft_connection_ready a b c) q h n late = cc
subject-IsStale m (draft_operation_failed a b c d) q h n late = cc
subject-IsStale m (result_exported a b c d i j) q h n late = cc
subject-IsStale m (result_export_failed a b c d i j k) q h n late = cc
subject-IsStale m (profile_deleted a b c d) q h n late = cc
subject-IsStale m (config_uncertain a) q h n late = cc
subject-IsStale m (runtime_shutdown a) q h n late = cc

-- What is about a connection of a profile is about an active one, or changes nothing.
subject-active-or-stale :
    (m : UiModel) (e : UiEvent) (p : Text) (g : ℕ)
    → subject_of e ≡ some (p, g)
    → (m.active_generations p ≡ some g) ⊎ (fold m e ≡ m)
subject-active-or-stale m e p g about = elim (Bool-cases (is_some_eq (m.active_generations p) g)) [
  | inl same ↦ inl (ground arith)
  | inr other ↦
      inr (fold_stale m e (subject-IsStale m e p g about (inr (inl (λ active. ground arith)))))
]

-- A change that touches an active profile only.
pub Touches-IsConsistent :
    (m n : UiModel) (p : Text) (g : ℕ)
    → IsConsistent m
    → m.active_generations p ≡ some g
    → Touches p m n
    → IsConsistent n
Touches-IsConsistent m n p g h active touches = record {
  alive = λ k a t current dead.
      h.alive k a t (sym (ap (λ f. f k) touches.active) ∙ current)
        (sym (ap (λ f. f k) touches.dead) ∙ dead);
  shown = λ k inactive.
      let before : m.active_generations k ≡ none = sym (ap (λ f. f k) touches.active) ∙ inactive in
      elim (Bool-cases (text_eq p k)) [
        | inl same ↦ let e : p ≡ k = text_eq→≡ p k same in cc
        | inr other ↦ touches.shown k other ∙ h.shown k before
      ];
}

subject-IsConsistent :
    (m : UiModel) (e : UiEvent) (p : Text) (g : ℕ)
    → IsConsistent m
    → subject_of e ≡ some (p, g)
    → IsConsistent (fold m e)
subject-IsConsistent m e p g h about = elim (subject-active-or-stale m e p g about) [
  | inl active ↦ Touches-IsConsistent m (fold m e) p g h active (fold-Touches m e p g about)
  | inr same ↦ subst IsConsistent (sym same) h
]

accepted-IsConsistent :
    (m next : UiModel) (o : ℕ)
    → IsConsistent m
    → IsConsistent next
    → IsConsistent (accept_profiles_operation m o next)
accepted-IsConsistent m next o h i = elim (Bool-cases (profiles_operation_is_newer m o)) [
  | inl newer ↦ rw newer i
  | inr older ↦ rw older h
]

-- Nothing that the invariant speaks of has changed.
same-IsConsistent :
    (m n : UiModel)
    → n.active_generations ≡ m.active_generations
    → n.tombstones ≡ m.tombstones
    → n.connection_states ≡ m.connection_states
    → IsConsistent m
    → IsConsistent n
same-IsConsistent m n a t c h = record {
  alive = λ k g d current dead.
      h.alive k g d (sym (ap (λ f. f k) a) ∙ current) (sym (ap (λ f. f k) t) ∙ dead);
  shown = λ k inactive. ap (λ f. f k) c ∙ h.shown k (sym (ap (λ f. f k) a) ∙ inactive);
}

uncertain-IsConsistent : (m : UiModel) (o : ℕ) → IsConsistent m → IsConsistent (fold_uncertain m o)
unfolding fold_uncertain
uncertain-IsConsistent m o h =
    accepted-IsConsistent m _ o h (record { alive = h.alive; shown = λ k inactive. refl })

shutdown-IsConsistent : (m : UiModel) → IsConsistent m → IsConsistent (fold_shutdown m)
unfolding fold_shutdown
shutdown-IsConsistent m h = record {
  alive = h.alive;
  shown = λ k inactive. rw inactive (h.shown k inactive);
}

profiles-IsConsistent :
    (m : UiModel) (profiles : List ProfileSnapshot) → IsConsistent (fold_profiles m profiles)
unfolding fold_profiles
profiles-IsConsistent m profiles = listed-IsConsistent m profiles (buried_tombstones m profiles)

-- Every event keeps the model consistent.
pub fold-IsConsistent : (m : UiModel) (e : UiEvent) → IsConsistent m → IsConsistent (fold m e)
unfolding fold fold_profiles_loaded
fold-IsConsistent m (profiles_loaded o profiles config) h = accepted-IsConsistent m _ o h (
    profiles-IsConsistent
      (record m {
        last_profiles_operation = some o;
        profile_load_succeeded = true;
        config = config;
      })
      profiles)
fold-IsConsistent m (profiles_failed o summary error) h =
    accepted-IsConsistent m _ o h (same-IsConsistent m _ refl refl refl h)
fold-IsConsistent m (profile_saved o p previous g retained warning) h =
    saved-IsConsistent m p previous g retained warning h
fold-IsConsistent m (profile_deleted o p g unknown) h = deleted-IsConsistent m p g unknown h
fold-IsConsistent m (config_uncertain o) h = uncertain-IsConsistent m o h
fold-IsConsistent m (runtime_shutdown o) h = shutdown-IsConsistent m h
fold-IsConsistent m (credentials_stored a b c) h =
    subject-IsConsistent m (credentials_stored a b c) _ _ h refl
fold-IsConsistent m (credentials_store_failed a b c d i) h =
    subject-IsConsistent m (credentials_store_failed a b c d i) _ _ h refl
fold-IsConsistent m (connection_ready a b c d i) h =
    subject-IsConsistent m (connection_ready a b c d i) _ _ h refl
fold-IsConsistent m (connection_closed a b c d) h =
    subject-IsConsistent m (connection_closed a b c d) _ _ h refl
fold-IsConsistent m (query_finished a b c d i) h =
    subject-IsConsistent m (query_finished a b c d i) _ _ h refl
fold-IsConsistent m (operation_failed a b c d i j k u v) h =
    subject-IsConsistent m (operation_failed a b c d i j k u v) _ _ h refl
fold-IsConsistent m (execute_unavailable a b c d) h =
    subject-IsConsistent m (execute_unavailable a b c d) _ _ h refl
fold-IsConsistent m (catalog_page_loaded a b c) h =
    subject-IsConsistent m (catalog_page_loaded a b c) _ _ h refl
fold-IsConsistent m (catalog_page_failed a b c d i) h =
    subject-IsConsistent m (catalog_page_failed a b c d i) _ _ h refl
fold-IsConsistent m (redis_keys_loaded a b c) h =
    subject-IsConsistent m (redis_keys_loaded a b c) _ _ h refl
fold-IsConsistent m (redis_keys_failed a b c d i) h =
    subject-IsConsistent m (redis_keys_failed a b c d i) _ _ h refl
fold-IsConsistent m (redis_key_inspected a b c) h =
    subject-IsConsistent m (redis_key_inspected a b c) _ _ h refl
fold-IsConsistent m (redis_key_inspect_failed a b c d i) h =
    subject-IsConsistent m (redis_key_inspect_failed a b c d i) _ _ h refl
fold-IsConsistent m (profile_create_failed a b c d) h = same-IsConsistent m _ refl refl refl h
fold-IsConsistent m (profile_update_failed a b c d i) h = same-IsConsistent m _ refl refl refl h
fold-IsConsistent m (draft_connection_ready a b c) h = same-IsConsistent m _ refl refl refl h
fold-IsConsistent m (draft_operation_failed a b c d) h = same-IsConsistent m _ refl refl refl h
fold-IsConsistent m (result_exported a b c d i j) h = same-IsConsistent m _ refl refl refl h
fold-IsConsistent m (result_export_failed a b c d i j k) h = same-IsConsistent m _ refl refl refl h
