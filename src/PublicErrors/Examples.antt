-- ===== src/PublicErrors/Examples.antt =====
-- The theorems on src/public_error.rs at concrete inputs.
use dbotter.Prelude.{◌≡◌, ◌≤◌, refl, none, some, [], ◌∷◌, All, ok, length}
use dbotter.Text.{codes}
use dbotter.Model.Operations.{browse_mysql, PublicSummary, PublicCode}
use dbotter.PublicErrors.{RecoveryAction, retry, dismiss_error, NonEmpty, profile, no_fact}
use dbotter.PublicErrors.Matrix.{offer, recovery_for_with_fact}
use dbotter.PublicErrors.Network.{timed_out}
use dbotter.PublicErrors.Scope.{Fits, recovery_for_with_fact-Fits}

abbrev two_actions : NonEmpty RecoveryAction
two_actions = record { items = retry 5 ∷ dismiss_error 3 ∷ [] }

browse_timed_out :
    recovery_for_with_fact browse_mysql PublicSummary.operation_timed_out PublicCode.no_code
      (profile (codes "p") 3 none (some 5))
      no_fact
    ≡ ok two_actions
unfolding recovery_for_with_fact offer timed_out
browse_timed_out = refl

recovery_for_with_fact-Fits_example :
    All (Fits browse_mysql (profile (codes "p") 3 none (some 5)) no_fact) two_actions.items
    × (1 ≤ length two_actions.items)
    × (length two_actions.items ≤ 3)
recovery_for_with_fact-Fits_example =
    recovery_for_with_fact-Fits browse_mysql PublicSummary.operation_timed_out PublicCode.no_code
      (profile (codes "p") 3 none (some 5)) no_fact two_actions browse_timed_out
