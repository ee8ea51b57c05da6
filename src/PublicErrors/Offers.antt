-- ===== src/PublicErrors/Offers.antt =====
-- What the recovery rows of src/public_error.rs are made of.
use dbotter.Prelude.{ℕ, Bool, Option, none, some, if◌then◌else◌}
use dbotter.Text.{Text}
use dbotter.Model.Operations.{ProfileFieldId}
use dbotter.PublicErrors.{RecoveryAction, edit_draft, edit_profile, retry, NonEmpty, push, one}

abbrev pub Offer : Type 0
Offer = Option (NonEmpty RecoveryAction)

abbrev pub when : Bool → Offer → Offer
when test offer = if test then offer else none

-- `recipe_id.filter(…)` and the push of its retry.
abbrev pub push_retry : Bool → Option ℕ → NonEmpty RecoveryAction → NonEmpty RecoveryAction
push_retry test none actions = actions
push_retry test (some recipe) actions = if test then push actions (retry recipe) else actions

abbrev pub push_if : Bool → NonEmpty RecoveryAction → RecoveryAction → NonEmpty RecoveryAction
push_if test actions action = if test then push actions action else actions

abbrev pub edit_draft_field : ℕ → Option ProfileFieldId → Offer
edit_draft_field d none = none
edit_draft_field d (some f) = one (edit_draft d f)

abbrev pub edit_profile_field : Text → Option ProfileFieldId → Offer
edit_profile_field p none = none
edit_profile_field p (some f) = one (edit_profile p f)
