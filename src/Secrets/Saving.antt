-- ===== src/Secrets/Saving.antt =====
-- What saving a profile does to the session credentials of src/secrets.rs.
use dbotter.Prelude.{◌≡◌, ◌∙◌, Bool, true, false, Option, some, arith, ok}
use dbotter.Text.{Text, text_eq}
use dbotter.Text.Equality.{text_eq_self}
use dbotter.Model.Profiles.{CredentialMode}
use dbotter.Secrets.{
  SessionSecretUpdate, keep, clear, SessionSecretStore, SessionCredentialIntent, forget,
  CredentialEditContext, create, edit, session_intent_policy, session_update_for_save, apply,
  is_set, has_current,
}

-- Whether a profile has a session credential after an update, given whether it had one.
abbrev leaves : SessionSecretUpdate → Bool → Bool
leaves keep before = before
leaves (SessionSecretUpdate.replace secret) before = true
leaves clear before = false

-- Whether a profile is to have a session credential: its mode asks for one, and it is not forgotten.
abbrev pub wants_session : CredentialMode → Option SessionCredentialIntent → Bool
wants_session CredentialMode.session (some forget) = false
wants_session CredentialMode.session _ = true
wants_session _ _ = false

-- The context says of an existing profile whether it has a session credential.
abbrev pub IsContextOf : CredentialEditContext → Bool → Type 0
IsContextOf create has = Unit
IsContextOf (edit has_current) has = has_current ≡ has

apply-leaves :
    (store after : SessionSecretStore) (p : Text) (update : SessionSecretUpdate)
    → apply store p update ≡ ok after
    → is_set (after.values p) ≡ leaves update (is_set (store.values p))
unfolding apply
apply-leaves store after p update h = ground (arith, text_eq_self p)

apply-others :
    (store after : SessionSecretStore) (p k : Text) (update : SessionSecretUpdate)
    → apply store p update ≡ ok after
    → text_eq p k ≡ false
    → after.values k ≡ store.values k
unfolding apply
apply-others store after p k update h ne = ground arith

update-leaves :
    (mode : CredentialMode) (context : CredentialEditContext)
    (intent : Option SessionCredentialIntent) (replacement : Option Text)
    (update : SessionSecretUpdate) (has : Bool)
    → IsContextOf context has
    → session_update_for_save mode context intent replacement ≡ ok update
    → leaves update has ≡ wants_session mode intent
unfolding session_update_for_save session_intent_policy
update-leaves mode context intent replacement update has known h = ground arith

-- When the credential of a profile is saved, in a context that says truly whether the profile has
-- one, the profile has one afterwards exactly if its mode asks for session credentials and it was
-- not to be forgotten. No other profile's credential is changed.
pub apply-session_update_for_save :
    (store after : SessionSecretStore) (p : Text) (mode : CredentialMode)
    (context : CredentialEditContext) (intent : Option SessionCredentialIntent)
    (replacement : Option Text) (update : SessionSecretUpdate)
    → IsContextOf context (is_set (store.values p))
    → session_update_for_save mode context intent replacement ≡ ok update
    → apply store p update ≡ ok after
    → (is_set (after.values p) ≡ wants_session mode intent)
      × ((k : Text) → text_eq p k ≡ false → after.values k ≡ store.values k)
apply-session_update_for_save store after p mode context intent replacement update known saved
      applied =
    (
      apply-leaves store after p update applied
          ∙ update-leaves mode context intent replacement update (is_set (store.values p)) known
              saved,
      λ k. apply-others store after p k update applied,
    )
