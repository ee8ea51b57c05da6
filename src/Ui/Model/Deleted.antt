-- ===== src/Ui/Model/Deleted.antt =====
-- What a deletion means for everything that comes after it in the model of src/ui/model.rs: the
-- steps of the model, its events and what src/ui/app.rs submits, in any order.
use dbotter.Prelude.{
  ℕ, ◌≤◌, ◌<◌, ◌≡◌, refl, ap, ◌∙◌, inl, inr, Bool, true, false, Option, none, some, List, arith,
  Bool-cases,
}
use dbotter.Text.{Text, text_eq}
use dbotter.Text.Equality.{text_eq→≡, text_eq_self}
use dbotter.Model.Operations.{PublicSummary}
use dbotter.Ui.Model.{
  Map, UiModel, UiEvent, ProfileSnapshot, new_model, pending, closing, profiles_operation_is_newer,
  profiles_loaded, profiles_failed, profile_saved, credentials_stored, credentials_store_failed,
  connection_ready, connection_closed, query_finished, catalog_page_loaded, catalog_page_failed,
  redis_keys_loaded, redis_keys_failed, redis_key_inspected, redis_key_inspect_failed,
  operation_failed, execute_unavailable, profile_deleted, config_uncertain, profile_create_failed,
  profile_update_failed, draft_connection_ready, draft_operation_failed, result_exported,
  result_export_failed, runtime_shutdown,
}
use dbotter.Ui.Model.Profiles.{
  accept_profiles_operation, deletes, fold_saved, fold_deleted, delete_profile, raised, buried,
  buried_tombstones, is_listed, list_profiles, fold_profiles, fold_profiles_loaded, fold_uncertain,
  fold_shutdown,
}
use dbotter.Ui.Model.Sessions.{with_state}
use dbotter.Ui.Model.Fold.{fold}
use dbotter.Ui.Model.Bystanders.{subject_of, fold-Touches}
use dbotter.Ui.Model.Invariant.{IsConsistent, new_model-IsConsistent}
use dbotter.Ui.Model.Frame.{touch_none, touch-with_state}
use dbotter.Ui.Model.Consistency.{fold-IsConsistent, Touches-IsConsistent, subject-IsStale}
use dbotter.Ui.Model.Currency.{fold_stale}

-- A tombstone stays, or is raised.
abbrev pub Grows : Map ℕ → Map ℕ → Type 0
Grows before after = (k : Text) (t : ℕ) → before k ≡ some t → (s : ℕ) × (after k ≡ some s) × (t ≤ s)

Grows-same : (before after : Map ℕ) → after ≡ before → Grows before after
Grows-same before after e k t dead = (t, ap (λ f. f k) e ∙ dead, ground arith)

Grows-accepted :
    (m next : UiModel) (o : ℕ)
    → Grows m.tombstones next.tombstones
    → Grows m.tombstones (accept_profiles_operation m o next).tombstones
Grows-accepted m next o h = elim (Bool-cases (profiles_operation_is_newer m o)) [
  | inl newer ↦ rw newer h
  | inr older ↦ rw older (Grows-same m.tombstones m.tombstones refl)
]

Grows-saved :
    (m : UiModel) (p : Text) (previous : Option ℕ) (g : ℕ) (retained : Bool)
    (w : Option PublicSummary)
    → Grows m.tombstones (fold_saved m p previous g retained w).tombstones
unfolding fold_saved
Grows-saved m p previous g retained w k t dead = (t, ground arith, ground arith)

raised-le : (o : Option ℕ) (t g : ℕ) → o ≡ some t → t ≤ raised o g
raised-le o t g e = ground arith

Grows-deleted :
    (m : UiModel) (p : Text) (g : ℕ) (unknown : Bool)
    → Grows m.tombstones (fold_deleted m p g unknown).tombstones
unfolding fold_deleted delete_profile
Grows-deleted m p g unknown k t dead = elim (Bool-cases (deletes (m.active_generations p) g)) [
  | inr kept ↦ rw kept (t, dead, ground arith)
  | inl current ↦ elim (Bool-cases (text_eq p k)) [
    | inr other ↦ rw current (rw other (t, dead, ground arith))
    | inl same ↦
        let e : p ≡ k = text_eq→≡ p k same in
        rw current (
          rw same (
            raised (m.tombstones p) g,
            refl,
            raised-le (m.tombstones p) t g (ap m.tombstones e ∙ dead),
          ))
  ]
]

buried-le :
    (o active : Option ℕ) (listed : Bool) (t : ℕ)
    → o ≡ some t
    → (s : ℕ) × (buried o active listed ≡ some s) × (t ≤ s)
buried-le o none listed t e = (t, e, ground arith)
buried-le o (some a) true t e = (t, e, ground arith)
buried-le o (some a) false t e = (raised o a, refl, raised-le o t a e)

Grows-profiles :
    (m : UiModel) (profiles : List ProfileSnapshot)
    → Grows m.tombstones (fold_profiles m profiles).tombstones
unfolding fold_profiles list_profiles buried_tombstones
Grows-profiles m profiles k t dead =
    buried-le (m.tombstones k) (m.active_generations k) (is_listed profiles k) t dead

Grows-subject :
    (m : UiModel) (e : UiEvent) (p : Text) (g : ℕ)
    → subject_of e ≡ some (p, g)
    → Grows m.tombstones (fold m e).tombstones
Grows-subject m e p g about = Grows-same m.tombstones _ (fold-Touches m e p g about).dead

-- No event takes a tombstone back or lowers it.
fold-Grows : (m : UiModel) (e : UiEvent) → Grows m.tombstones (fold m e).tombstones
unfolding fold fold_profiles_loaded fold_uncertain fold_shutdown
fold-Grows m (profiles_loaded o profiles config) = Grows-accepted m _ o (
    Grows-profiles
      (record m {
        last_profiles_operation = some o;
        profile_load_succeeded = true;
        config = config;
      })
      profiles)
fold-Grows m (profiles_failed o summary error) =
    Grows-accepted m _ o (Grows-same m.tombstones _ refl)
fold-Grows m (profile_saved o p previous g retained warning) =
    Grows-saved m p previous g retained warning
fold-Grows m (profile_deleted o p g unknown) = Grows-deleted m p g unknown
fold-Grows m (config_uncertain o) = Grows-accepted m _ o (Grows-same m.tombstones _ refl)
fold-Grows m (runtime_shutdown o) = Grows-same m.tombstones _ refl
fold-Grows m (credentials_stored a b c) = Grows-subject m (credentials_stored a b c) _ _ refl
fold-Grows m (credentials_store_failed a b c d i) =
    Grows-subject m (credentials_store_failed a b c d i) _ _ refl
fold-Grows m (connection_ready a b c d i) = Grows-subject m (connection_ready a b c d i) _ _ refl
fold-Grows m (connection_closed a b c d) = Grows-subject m (connection_closed a b c d) _ _ refl
fold-Grows m (query_finished a b c d i) = Grows-subject m (query_finished a b c d i) _ _ refl
fold-Grows m (operation_failed a b c d i j k u v) =
    Grows-subject m (operation_failed a b c d i j k u v) _ _ refl
fold-Grows m (execute_unavailable a b c d) = Grows-subject m (execute_unavailable a b c d) _ _ refl
fold-Grows m (catalog_page_loaded a b c) = Grows-subject m (catalog_page_loaded a b c) _ _ refl
fold-Grows m (catalog_page_failed a b c d i) =
    Grows-subject m (catalog_page_failed a b c d i) _ _ refl
fold-Grows m (redis_keys_loaded a b c) = Grows-subject m (redis_keys_loaded a b c) _ _ refl
fold-Grows m (redis_keys_failed a b c d i) = Grows-subject m (redis_keys_failed a b c d i) _ _ refl
fold-Grows m (redis_key_inspected a b c) = Grows-subject m (redis_key_inspected a b c) _ _ refl
fold-Grows m (redis_key_inspect_failed a b c d i) =
    Grows-subject m (redis_key_inspect_failed a b c d i) _ _ refl
fold-Grows m (profile_create_failed a b c d) = Grows-same m.tombstones _ refl
fold-Grows m (profile_update_failed a b c d i) = Grows-same m.tombstones _ refl
fold-Grows m (draft_connection_ready a b c) = Grows-same m.tombstones _ refl
fold-Grows m (draft_operation_failed a b c d) = Grows-same m.tombstones _ refl
fold-Grows m (result_exported a b c d i j) = Grows-same m.tombstones _ refl
fold-Grows m (result_export_failed a b c d i j k) = Grows-same m.tombstones _ refl

-- An event, or an operation that is submitted for a profile that is active: its connection is shown
-- as pending, or as closing when it is deleted.
pub data Step (m : UiModel) : UiModel → Type 0 where
  folded : (e : UiEvent) → Step m (fold m e)
  submitted :
      (p : Text) (g operation : ℕ)
      → m.active_generations p ≡ some g
      → Step m (with_state m p (pending operation))
  deleting : (p : Text) (g : ℕ) → m.active_generations p ≡ some g → Step m (with_state m p closing)

pub data Steps (m : UiModel) : UiModel → Type 0 where
  here : Steps m m
  after : {n o : UiModel} → Steps m n → Step n o → Steps m o

Step-IsConsistent : (m n : UiModel) → IsConsistent m → Step m n → IsConsistent n
Step-IsConsistent m n h (folded e) = fold-IsConsistent m e h
Step-IsConsistent m n h (submitted p g operation active) =
    Touches-IsConsistent m _ p g h active (touch-with_state p m m _ (touch_none p m))
Step-IsConsistent m n h (deleting p g active) =
    Touches-IsConsistent m _ p g h active (touch-with_state p m m _ (touch_none p m))

Steps-IsConsistent : (m n : UiModel) → IsConsistent m → Steps m n → IsConsistent n
Steps-IsConsistent m n h here = h
Steps-IsConsistent m n h (after {n = o} steps step) =
    Step-IsConsistent o n (Steps-IsConsistent m o h steps) step

Step-Grows : (m n : UiModel) → Step m n → Grows m.tombstones n.tombstones
Step-Grows m n (folded e) = fold-Grows m e
Step-Grows m n (submitted p g operation active) = Grows-same m.tombstones m.tombstones refl
Step-Grows m n (deleting p g active) = Grows-same m.tombstones m.tombstones refl

Steps-Grows : (m n : UiModel) → Steps m n → Grows m.tombstones n.tombstones
Steps-Grows m n here k t dead = (t, dead, ground arith)
Steps-Grows m n (after {n = o} steps step) k t dead =
    let (s, buried, le) = Steps-Grows m o steps k t dead in
    let (r, later, above) = Step-Grows o n step k s buried in (r, later, ground arith)

-- From its start on, the model is consistent, whatever it folds and whatever is submitted, in any
-- order: no profile is active at a generation at or below its tombstone, and none that is not
-- active has a connection state.
pub reachable-IsConsistent : (n : UiModel) → Steps new_model n → IsConsistent n
reachable-IsConsistent n = Steps-IsConsistent new_model n new_model-IsConsistent

deleted-buried :
    (m : UiModel) (p : Text) (g : ℕ) (unknown : Bool)
    → deletes (m.active_generations p) g ≡ true
    → (fold_deleted m p g unknown).tombstones p ≡ some (raised (m.tombstones p) g)
unfolding fold_deleted delete_profile
deleted-buried m p g unknown h = rw h (rw (text_eq_self p) refl)

raised-above : (o : Option ℕ) (g : ℕ) → g ≤ raised o g
raised-above o g = ground arith

-- The tombstone that an accepted deletion leaves is there after all that follows.
still_buried :
    (m n : UiModel) (p : Text) (g operation : ℕ) (unknown : Bool)
    → deletes (m.active_generations p) g ≡ true
    → Steps (fold m (profile_deleted operation p g unknown)) n
    → (t : ℕ) × (n.tombstones p ≡ some t) × (g ≤ t)
unfolding fold
still_buried m n p g operation unknown h steps =
    let (t, dead, le) =
      Steps-Grows (fold_deleted m p g unknown) n steps p _ (deleted-buried m p g unknown h) in
    let above = raised-above (m.tombstones p) g in (t, dead, ground arith)

-- Once the deletion of a profile at a generation is accepted, by a model that is consistent, the
-- profile is only ever active at later generations, after any steps in any order.
pub deleted-later :
    (m n : UiModel) (p : Text) (g operation a : ℕ) (unknown : Bool)
    → IsConsistent m
    → deletes (m.active_generations p) g ≡ true
    → Steps (fold m (profile_deleted operation p g unknown)) n
    → n.active_generations p ≡ some a
    → g < a
deleted-later m n p g operation a unknown h accepted steps active =
    let (t, dead, le) = still_buried m n p g operation unknown accepted steps in
    let alive = (Steps-IsConsistent _ n (fold-IsConsistent m _ h) steps).alive p a t active dead in
    ground arith

-- Once the deletion of a profile at a generation is accepted, an event about a connection of the
-- profile at that generation or an earlier one changes nothing, after any steps in any order.
pub deleted-silent :
    (m n : UiModel) (p : Text) (g operation a : ℕ) (unknown : Bool) (e : UiEvent)
    → deletes (m.active_generations p) g ≡ true
    → Steps (fold m (profile_deleted operation p g unknown)) n
    → subject_of e ≡ some (p, a)
    → a ≤ g
    → fold n e ≡ n
deleted-silent m n p g operation a unknown e accepted steps about le =
    let (t, dead, above) = still_buried m n p g operation unknown accepted steps in
    fold_stale n e (subject-IsStale n e p a about (inr (inr (t, dead, ground arith))))
