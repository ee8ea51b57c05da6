-- ===== src/Prelude/Alls.antt =====
-- Predicates that hold of all elements of a list, looked up and joined.
use mathlib.Core.List.{Memᴰ}
use dbotter.Prelude.{List, [], ◌∷◌, All}

module _ {ℓ κ} {A : Type ℓ} (P : A → Type κ) where
  pub All-lookup : (xs : List A) (x : A) → All P xs → Memᴰ x xs → P x
  All-lookup [] x h mem = elim mem [ ]
  All-lookup (y ∷ ys) x (h, hs) (Memᴰ.head e) = rw e h
  All-lookup (y ∷ ys) x (h, hs) (Memᴰ.tail mem) = All-lookup ys x hs mem

  pub All-both {μ} : (Q : A → Type μ) (xs : List A) → All P xs → All Q xs → All (λ x. P x × Q x) xs
  All-both Q [] h k = tt
  All-both Q (x ∷ xs) (h, hs) (k, ks) = ((h, k), All-both Q xs hs ks)
