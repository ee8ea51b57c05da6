-- ===== src/Secrets.antt =====
-- The session credentials of src/secrets.rs: the store, what saving a profile does to it, and the
-- credentials of the environment. A secret is its text; that it is wiped from memory is not seen.
use dbotter.Prelude.{
  ℕ, Bool, true, false, Option, none, some, List, [], ◌∷◌, any, is_empty, if◌then◌else◌, Result, ok,
  err, ok_or, ensure, ◌>>=◌, ◌>>◌,
}
use dbotter.Text.{Text, text_eq}
use dbotter.Model.Profiles.{CredentialMode}
use dbotter.Text.Maps.{Map, put, erase}
pub mod Saving
pub mod Examples

pub data EnvironmentAvailability : Type 0 where
  available missing empty : EnvironmentAvailability

pub data SecretError : Type 0 where
  missing_env empty_env : Text → SecretError
  invalid_session_intent replacement_required session_credential_required store_unavailable :
      SecretError

-- `ReplacementSecretBuffer::take_for_save`: the secret, and the buffer that is left.
pub take_for_save : Text → Result SecretError Text × Text
take_for_save buffer =
    if is_empty buffer then (err replacement_required, buffer) else (ok buffer, [])

-- `copy_for_test`.
pub copy_for_test : Text → Result SecretError Text
copy_for_test buffer = if is_empty buffer then err replacement_required else ok buffer

pub data SessionSecretUpdate : Type 0 where
  keep : SessionSecretUpdate
  replace : Text → SessionSecretUpdate
  clear : SessionSecretUpdate

-- The lock is poisoned when a thread has panicked while it held it.
pub record SessionSecretStore : Type 0 where
  pub values : Map Text
  pub is_poisoned : Bool

abbrev lock : SessionSecretStore → Result SecretError (Map Text)
lock store = if store.is_poisoned then err store_unavailable else ok store.values

pub clone_for_profile : SessionSecretStore → Text → Result SecretError (Option Text)
clone_for_profile store profile = do values ← lock store; ok (values profile)

pub apply : SessionSecretStore → Text → SessionSecretUpdate → Result SecretError SessionSecretStore
apply store profile keep = ok store
apply store profile (replace secret) = do
  values ← lock store
  ok (record store { values = put values profile secret })
apply store profile clear = do
  values ← lock store
  ok (record store { values = erase values profile })

abbrev pub is_set {ℓ} : {A : Type ℓ} → Option A → Bool
is_set none = false
is_set (some a) = true

pub has_current : SessionSecretStore → Text → Result SecretError Bool
has_current store profile = do values ← lock store; ok (is_set (values profile))

pub clear_all : SessionSecretStore → Result SecretError SessionSecretStore
clear_all store = do values ← lock store; ok (record store { values = λ k. none })

-- The profiles to keep, a hash set, are a list of names.
pub retain_profiles : SessionSecretStore → List Text → Result SecretError SessionSecretStore
retain_profiles store profiles = do
  values ← lock store
  ok (record store { values = λ k. if any (λ p. text_eq p k) profiles then values k else none })

pub data SessionCredentialIntent : Type 0 where
  keep_current replace forget : SessionCredentialIntent

pub data CredentialEditContext : Type 0 where
  create : CredentialEditContext
  edit : (has_current : Bool) → CredentialEditContext

pub record SessionIntentPolicy : Type 0 where
  pub allowed : List SessionCredentialIntent
  pub default : SessionCredentialIntent

abbrev first_policy : SessionIntentPolicy
first_policy = record {
  allowed = SessionCredentialIntent.replace ∷ forget ∷ [];
  default = SessionCredentialIntent.replace;
}

pub session_intent_policy : CredentialMode → CredentialEditContext → Option SessionIntentPolicy
session_intent_policy CredentialMode.session (edit true) = some (record {
  allowed = keep_current ∷ SessionCredentialIntent.replace ∷ forget ∷ [];
  default = keep_current;
})
session_intent_policy CredentialMode.session create = some first_policy
session_intent_policy CredentialMode.session (edit false) = some first_policy
session_intent_policy CredentialMode.no_credential context = none
session_intent_policy CredentialMode.environment context = none

abbrev intent_eq : SessionCredentialIntent → SessionCredentialIntent → Bool
intent_eq keep_current keep_current = true
intent_eq SessionCredentialIntent.replace SessionCredentialIntent.replace = true
intent_eq forget forget = true
intent_eq _ _ = false

-- What an intent asks for, given the replacement that was typed.
abbrev update_of : SessionCredentialIntent → Option Text → Result SecretError SessionSecretUpdate
update_of keep_current none = ok keep
update_of keep_current (some secret) = err invalid_session_intent
update_of SessionCredentialIntent.replace (some secret) = ok (SessionSecretUpdate.replace secret)
update_of SessionCredentialIntent.replace none = err replacement_required
update_of forget none = ok clear
update_of forget (some secret) = err invalid_session_intent

abbrev without_policy :
    Option SessionCredentialIntent → Option Text → Result SecretError SessionSecretUpdate
without_policy none none = ok clear
without_policy _ _ = err invalid_session_intent

abbrev with_policy :
    Option SessionIntentPolicy
    → Option SessionCredentialIntent
    → Option Text
    → Result SecretError SessionSecretUpdate
with_policy none intent replacement = without_policy intent replacement
with_policy (some policy) intent replacement = do
  i ← ok_or intent invalid_session_intent
  ensure (any (intent_eq i) policy.allowed) invalid_session_intent
  update_of i replacement

pub session_update_for_save :
    CredentialMode
    → CredentialEditContext
    → Option SessionCredentialIntent
    → Option Text
    → Result SecretError SessionSecretUpdate
unfolding session_intent_policy
session_update_for_save mode context intent replacement =
    with_policy (session_intent_policy mode context) intent replacement

-- What `std::env::var` says of a variable: its text, or nothing where it is not set or not Unicode.
abbrev pub Variable : Type 0
Variable = Option Text

pub resolve_environment : Text → Variable → Result SecretError Text
resolve_environment name none = err (missing_env name)
resolve_environment name (some value) = if is_empty value then err (empty_env name) else ok value

pub classify_environment_value : Variable → EnvironmentAvailability
classify_environment_value none = missing
classify_environment_value (some value) = if is_empty value then empty else available
