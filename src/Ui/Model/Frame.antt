-- ===== src/Ui/Model/Frame.antt =====
-- What an event about one profile leaves alone in the model of src/ui/model.rs.
use dbotter.Prelude.{
  ℕ, ◌≡◌, ◌⊎◌, inl, inr, refl, sym, ap, ◌∙◌, Bool, true, false, List, [], ◌∷◌, Option, none, some,
  if◌then◌else◌, Bool-cases, subst,
}
use dbotter.Text.{Text, text_eq}
use dbotter.Model.Operations.{
  OperationKind, connect_profile, disconnect_profile, reconnect_profile, execute_read,
  execute_mutation, PublicSummary,
}
use dbotter.PublicErrors.{PublicOperationError}
use dbotter.Ui.ResultView.{is_some_eq}
use dbotter.Ui.Model.{
  ProfileSnapshot, ProfileWorkspace, ConnectionFailureOutcome, preserve, unknown,
  SessionDisposition, keep, evict, ConnectionState, pending, connected, UiModel, with_workspace,
  workspace_at,
}
use dbotter.Ui.Model.Profiles.{with_status}
use dbotter.Ui.Model.Sessions.{
  with_state, stored_secret, is_pending_by, is_protected, supplied, fold_catalog_session,
  apply_outcome, apply_redis_session_truth,
}
use dbotter.Ui.Model.Fold.{fail_pending, with_error, fail_execute, outcome_if, fail_operation}

-- The same snapshots in the same order, but that the one of the profile may have become one with a
-- session credential.
pub IsListedAs : Text → List ProfileSnapshot → List ProfileSnapshot → Type 0
IsListedAs p [] [] = Unit
IsListedAs p [] (y ∷ ys) = ⊥
IsListedAs p (x ∷ xs) [] = ⊥
IsListedAs p (x ∷ xs) (y ∷ ys) =
    ((y ≡ x) ⊎ ((text_eq x.id p ≡ true) × (y ≡ record x { has_current_session_secret = true })))
    × IsListedAs p xs ys

IsListedAs-same : (p : Text) (xs : List ProfileSnapshot) → IsListedAs p xs xs
unfolding IsListedAs
IsListedAs-same p [] = tt
IsListedAs-same p (x ∷ xs) = (inl refl, IsListedAs-same p xs)

stored_secret-IsListedAs :
    (p : Text) (xs : List ProfileSnapshot) → IsListedAs p xs (stored_secret p xs)
unfolding IsListedAs
stored_secret-IsListedAs p [] = tt
stored_secret-IsListedAs p (x ∷ xs) = elim (Bool-cases (text_eq x.id p)) [
  | inl own ↦ rw own (inr (own, refl), IsListedAs-same p xs)
  | inr other ↦ rw other (inl refl, stored_secret-IsListedAs p xs)
]

-- Of all profiles, the generations, the tombstones, the pending changes of generation and the
-- selection are the same, and of every profile but one the snapshot, the connection state and the
-- workspaces.
pub record Touches (p : Text) (m n : UiModel) : Type 0 where
  pub active : n.active_generations ≡ m.active_generations
  pub dead : n.tombstones ≡ m.tombstones
  pub retags : n.pending_retags ≡ m.pending_retags
  pub selected : n.selected_profile ≡ m.selected_profile
  pub listed : IsListedAs p m.profiles n.profiles
  pub shown : (k : Text) → text_eq p k ≡ false → n.connection_states k ≡ m.connection_states k
  pub edited :
      (profile : Text) (generation : ℕ)
      → text_eq p profile ≡ false
      → n.workspaces (record { profile_id = profile; profile_generation = generation })
        ≡ m.workspaces (record { profile_id = profile; profile_generation = generation })

module _ (p : Text) (m : UiModel) where
  pub touch_none : Touches p m m
  touch_none = record {
    active = refl;
    dead = refl;
    retags = refl;
    selected = refl;
    listed = IsListedAs-same p m.profiles;
    shown = λ k ne. refl;
    edited = λ profile generation ne. refl;
  }

  -- What is neither of a generation, nor a connection state, nor a workspace is free to change.
  pub touch_same :
      (n o : UiModel)
      → n.active_generations ≡ o.active_generations
      → n.tombstones ≡ o.tombstones
      → n.connection_states ≡ o.connection_states
      → n.workspaces ≡ o.workspaces
      → n.pending_retags ≡ o.pending_retags
      → n.selected_profile ≡ o.selected_profile
      → n.profiles ≡ o.profiles
      → Touches p m n
      → Touches p m o
  touch_same n o a t c w r s l h = record {
    active = sym a ∙ h.active;
    dead = sym t ∙ h.dead;
    retags = sym r ∙ h.retags;
    selected = sym s ∙ h.selected;
    listed = subst (IsListedAs p m.profiles) l h.listed;
    shown = λ k ne. sym (ap (λ f. f k) c) ∙ h.shown k ne;
    edited = λ profile generation ne.
        sym (ap (λ f. f (record { profile_id = profile; profile_generation = generation })) w)
        ∙ h.edited profile generation ne;
  }

  -- The profile has a session credential now.
  pub touch-stored_secret : Touches p m (record m { profiles = stored_secret p m.profiles })
  touch-stored_secret = record {
    active = refl;
    dead = refl;
    retags = refl;
    selected = refl;
    listed = stored_secret-IsListedAs p m.profiles;
    shown = λ k ne. refl;
    edited = λ profile generation ne. refl;
  }

  pub touch-with_status :
      (n : UiModel) (status : Text) → Touches p m n → Touches p m (with_status n status)
  touch-with_status n status = touch_same n _ refl refl refl refl refl refl refl

  pub touch_if :
      (b : Bool) (n o : UiModel) → Touches p m n → Touches p m o → Touches p m (if b then n else o)
  touch_if true n o h i = h
  touch_if false n o h i = i

  pub touch-with_state :
      (n : UiModel) (state : ConnectionState) → Touches p m n → Touches p m (with_state n p state)
  touch-with_state n state h = record {
    active = h.active;
    dead = h.dead;
    retags = h.retags;
    selected = h.selected;
    listed = h.listed;
    shown = λ k ne. rw ne (h.shown k ne);
    edited = h.edited;
  }

  pub touch-with_workspace :
      (n : UiModel) (g : ℕ) (change : ProfileWorkspace → ProfileWorkspace)
      → Touches p m n
      → Touches p m (with_workspace n p g change)
  touch-with_workspace n g change h = record {
    active = h.active;
    dead = h.dead;
    retags = h.retags;
    selected = h.selected;
    listed = h.listed;
    shown = h.shown;
    edited = λ profile generation ne. rw ne (h.edited profile generation ne);
  }

  pub touch-apply_outcome :
      (n : UiModel) (outcome : ConnectionFailureOutcome)
      → Touches p m n
      → Touches p m (apply_outcome n p outcome)
  touch-apply_outcome n preserve h = h
  touch-apply_outcome n ConnectionFailureOutcome.disconnected h = touch-with_state n _ h
  touch-apply_outcome n unknown h = touch-with_state n _ h
  touch-apply_outcome n ConnectionFailureOutcome.needs_credential h = touch-with_state n _ h

  pub touch-apply_redis_session_truth :
      (n : UiModel) (session : Option ℕ) (disposition : Option SessionDisposition)
      (outcome : ConnectionFailureOutcome)
      → Touches p m n
      → Touches p m (apply_redis_session_truth n p session disposition outcome)
  touch-apply_redis_session_truth n (some s) (some keep) outcome h = touch-with_state n _ h
  touch-apply_redis_session_truth n (some s) (some evict) outcome h = touch-with_state n _ h
  touch-apply_redis_session_truth n none (some evict) outcome h = touch-with_state n _ h
  touch-apply_redis_session_truth n none (some keep) outcome h = touch-apply_outcome n outcome h
  touch-apply_redis_session_truth n (some s) none outcome h = touch-apply_outcome n outcome h
  touch-apply_redis_session_truth n none none outcome h = touch-apply_outcome n outcome h

  pub touch-fold_catalog_session :
      (session : Option ℕ) (disposition : Option SessionDisposition)
      → Touches p m (fold_catalog_session m p session disposition)
  touch-fold_catalog_session (some s) (some disposition) =
      touch_if (is_protected (m.connection_states p) s) m _ touch_none
        (touch-with_state m _ touch_none)
  touch-fold_catalog_session (some s) none = touch_none
  touch-fold_catalog_session none disposition = touch_none

  pub touch-supplied :
      (n : UiModel) (state : Option ConnectionState)
      → Touches p m n
      → Touches p m (supplied n p state)
  touch-supplied n (some ConnectionState.needs_credential) h = touch-with_state n _ h
  touch-supplied n (some ConnectionState.disconnected) h = h
  touch-supplied n (some (pending o)) h = h
  touch-supplied n (some (connected s e)) h = h
  touch-supplied n (some (ConnectionState.failed s)) h = h
  touch-supplied n (some ConnectionState.closing) h = h
  touch-supplied n none h = h

  touch-fail_pending :
      (o : ℕ) (summary : PublicSummary) (state : ConnectionState)
      → Touches p m (fail_pending m o p summary state)
  touch-fail_pending o summary state =
      touch_if (is_pending_by (m.connection_states p) o) _ m
        (touch-with_status _ _ (touch-with_state m state touch_none)) touch_none

  touch-fail_execute :
      (o g : ℕ) (error : PublicOperationError) → Touches p m (fail_execute m o p g error)
  touch-fail_execute o g error =
      touch_if (is_some_eq (workspace_at m p g).pending_execute o) _ _
        (touch-with_status _ _ (touch-with_workspace m g (with_error error) touch_none))
        (touch-with_workspace m g (λ w. w) touch_none)

  touch-outcome_if :
      (b : Bool) (n : UiModel) (outcome : ConnectionFailureOutcome)
      → Touches p m n
      → Touches p m (outcome_if b n p outcome)
  touch-outcome_if b n outcome h = touch_if b _ n (touch-apply_outcome n outcome h) h

  pub touch-fail_operation :
      (o g : ℕ) (kind : OperationKind) (error : PublicOperationError)
      (outcome : ConnectionFailureOutcome)
      → Touches p m (fail_operation m o p g kind error outcome)
  unfolding fail_operation
  touch-fail_operation o g connect_profile error outcome = touch-fail_pending o _ _
  touch-fail_operation o g reconnect_profile error outcome = touch-fail_pending o _ _
  touch-fail_operation o g disconnect_profile error outcome =
      touch-outcome_if _ _ outcome (touch-fail_pending o _ _)
  touch-fail_operation o g execute_read error outcome =
      touch-outcome_if _ _ outcome (touch-fail_execute o g error)
  touch-fail_operation o g execute_mutation error outcome =
      touch-outcome_if _ _ outcome (touch-fail_execute o g error)
  touch-fail_operation o g kind error outcome =
      touch-outcome_if _ _ outcome (touch-with_status m _ touch_none)
