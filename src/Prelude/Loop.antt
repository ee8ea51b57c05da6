-- ===== src/Prelude/Loop.antt =====
-- A `while` loop as a step function run on fuel, with its rule of total correctness.
use Prim.Native.Nat.{ℕ, zero, suc, ◌<◌}
use mathlib.Core.Path.{◌≡◌, refl}
use mathlib.Core.Option.{Option, none, some}
use native.Mathlib.Omega.{arith}

-- One round of a loop: it goes on with a new state, or it leaves with a result.
pub data Round {ℓ κ} (S : Type ℓ) (R : Type κ) : Type (ℓ ⊔ κ) where
  again : S → Round S R
  leave : R → Round S R

-- `none` means that the fuel ran out.
unfoldable pub iterate {ℓ κ} : {S : Type ℓ} {R : Type κ} → ℕ → (S → Round S R) → S → Option R
iterate zero body s = none
iterate (suc f) body s = elim (body s) [ again s' ↦ iterate f body s' | leave r ↦ some r ]

-- What one round owes: the invariant and a smaller measure, or the result's property.
abbrev pub Owes {ℓ κ μ} :
    {S : Type ℓ} {R : Type κ} → (S → Type μ) → (R → Type μ) → (S → ℕ) → ℕ → Round S R → Type μ
Owes P Q measure m (again s) = P s × (measure s < m)
Owes P Q measure m (leave r) = Q r

module _ {ℓ κ μ} {S : Type ℓ} {R : Type κ} (P : S → Type μ) (Q : R → Type μ) (measure : S → ℕ)
    (body : S → Round S R) (keep : (s : S) → P s → Owes P Q measure (measure s) (body s)) where
  -- With a measure below the fuel the loop leaves, and its result has the property.
  pub iterate_total :
      (fuel : ℕ) (s : S) → measure s < fuel → P s → (r : R) × (iterate fuel body s ≡ some r) × Q r
  unfolding iterate
  iterate_total zero s m h = absurd (omega arith)
  iterate_total (suc fuel) s m h = by_round (body s) refl (keep s h) (iterate_total fuel)
    where
      by_round :
          (round : Round S R)
          → body s ≡ round
          → Owes P Q measure (measure s) round
          → ((s' : S) → measure s' < fuel → P s' → (r : R) × (iterate fuel body s' ≡ some r) × Q r)
          → (r : R) × (iterate (suc fuel) body s ≡ some r) × Q r
      by_round (again s') e (p, lt) next =
          let (r, eq, q) = next s' (omega arith) p in (r, rw (e, iterate) eq, q)
      by_round (leave r) e q next = (r, rw (e, iterate), q)
