-- ===== src/Text/Equality.antt =====
-- The Boolean equality of texts decides their equality.
use dbotter.Prelude.{◌≡◌, ◌≢◌, refl, true, false, [], ◌∷◌, arith, inl, inr, Bool-cases}
use dbotter.Text.{Text, text_eq}

pub text_eq→≡ : (s t : Text) → text_eq s t ≡ true → s ≡ t
text_eq→≡ [] [] h = refl
text_eq→≡ [] (b ∷ t) h = cc
text_eq→≡ (a ∷ s) [] h = cc
text_eq→≡ (a ∷ s) (b ∷ t) h = ground (arith, text_eq→≡ s t)

pub text_eq_self : (s : Text) → text_eq s s ≡ true
text_eq_self [] = refl
text_eq_self (a ∷ s) = ground (arith, text_eq_self s)

pub text_eq_ne : (s t : Text) → s ≢ t → text_eq s t ≡ false
text_eq_ne s t h = elim (Bool-cases (text_eq s t)) [
  | inl same ↦ absurd (h (text_eq→≡ s t same))
  | inr differ ↦ differ
]

pub text_eq_sym : (s t : Text) → text_eq s t ≡ text_eq t s
text_eq_sym [] [] = refl
text_eq_sym [] (b ∷ t) = refl
text_eq_sym (a ∷ s) [] = refl
text_eq_sym (a ∷ s) (b ∷ t) = ground (arith, text_eq_sym s t)

-- Equal texts are equal to the same texts.
pub text_eq-swap : (s t u : Text) → text_eq s t ≡ true → text_eq s u ≡ text_eq t u
text_eq-swap s t u h = rw (text_eq→≡ s t h) refl
