-- ===== src/Secrets/Examples.antt =====
-- The theorems on src/secrets.rs at a store with one credential.
use dbotter.Prelude.{◌≡◌, refl, true, false, none, some, ok}
use dbotter.Text.{Text, codes, text_eq}
use dbotter.Text.Maps.{put}
use dbotter.Model.Profiles.{CredentialMode}
use dbotter.Secrets.{
  SessionSecretUpdate, SessionSecretStore, SessionCredentialIntent, edit, session_intent_policy,
  session_update_for_save, apply, is_set,
}
use dbotter.Secrets.Saving.{wants_session, apply-session_update_for_save}

abbrev one_secret : SessionSecretStore
one_secret = record { values = put (λ k. none) (codes "p") (codes "old"); is_poisoned = false }

abbrev renewed : SessionSecretStore
renewed = record one_secret { values = put one_secret.values (codes "p") (codes "new") }

renewal :
    session_update_for_save CredentialMode.session
      (edit true)
      (some SessionCredentialIntent.replace)
      (some (codes "new"))
    ≡ ok (SessionSecretUpdate.replace (codes "new"))
unfolding session_update_for_save session_intent_policy
renewal = refl

renewal-applied :
    apply one_secret (codes "p") (SessionSecretUpdate.replace (codes "new")) ≡ ok renewed
unfolding apply
renewal-applied = refl

apply-session_update_for_save_example :
    (is_set (renewed.values (codes "p"))
      ≡ wants_session CredentialMode.session (some SessionCredentialIntent.replace))
    × ((k : Text) → text_eq (codes "p") k ≡ false → renewed.values k ≡ one_secret.values k)
apply-session_update_for_save_example =
    apply-session_update_for_save one_secret renewed (codes "p") CredentialMode.session (edit true)
      (some SessionCredentialIntent.replace) (some (codes "new"))
      (SessionSecretUpdate.replace (codes "new")) refl renewal renewal-applied
