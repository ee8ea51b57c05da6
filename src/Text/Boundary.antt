-- ===== src/Text/Boundary.antt =====
-- Character boundaries of a text, and slices between them.
use dbotter.Prelude.{
  ℕ, zero, suc, ◌+◌, ◌-◌, ◌≤◌, ◌<◌, ◌≡◌, refl, ap, [], ◌∷◌, ◌++◌, some, arith, le→leb,
}
use dbotter.Text.{Text, len_utf8, str_len, split_at, get_range}

-- A byte offset that stands before a character or at the end.
abbrev pub IsBoundary : Text → ℕ → Type 0
IsBoundary s i = (p : Text) × (q : Text) × (p ++ q ≡ s) × (str_len p ≡ i)

pub len_utf8_pos : (c : ℕ) → 0 < len_utf8 c
len_utf8_pos c = ground arith

pub str_len-append : (s t : Text) → str_len (s ++ t) ≡ str_len s + str_len t
str_len-append [] t = omega arith
str_len-append (c ∷ s) t = omega (arith, str_len-append s t)

split_at-cons :
    (k n c : ℕ) (cs p q : Text)
    → suc k ≡ len_utf8 c + n
    → split_at n cs ≡ some (p, q)
    → split_at (suc k) (c ∷ cs) ≡ some (c ∷ p, q)
unfolding split_at
split_at-cons k n c cs p q e h =
    let fits : len_utf8 c ≤ suc k = omega arith in
    let left : suc k - len_utf8 c ≡ n = omega arith in
    rw (le→leb (len_utf8 c) (suc k) fits, left, h)

split_at_of_eq :
    (m n c : ℕ) (cs p q : Text)
    → m ≡ len_utf8 c + n
    → split_at n cs ≡ some (p, q)
    → split_at m (c ∷ cs) ≡ some (c ∷ p, q)
split_at_of_eq zero n c cs p q e h = absurd (omega (arith, len_utf8_pos c))
split_at_of_eq (suc k) n c cs p q e h = split_at-cons k n c cs p q e h

pub split_at-append : (p q : Text) → split_at (str_len p) (p ++ q) ≡ some (p, q)
unfolding split_at
split_at-append [] q = refl
split_at-append (c ∷ p) q =
    split_at_of_eq (str_len (c ∷ p)) (str_len p) c (p ++ q) p q refl (split_at-append p q)

-- Two prefixes of one text: the longer goes on from the shorter.
pub prefix_extends :
    (p q p' q' : Text)
    → p ++ q ≡ p' ++ q'
    → str_len p ≤ str_len p'
    → (m : Text) × (p' ≡ p ++ m) × (q ≡ m ++ q')
prefix_extends [] q p' q' e h = (p', refl, e)
prefix_extends (c ∷ p) q [] q' e h = absurd (omega (arith, len_utf8_pos c))
prefix_extends (c ∷ p) q (c' ∷ p') q' e h =
    let same : c ≡ c' = cc in
    let (m, e₁, e₂) =
      prefix_extends p q p' q' (cc) (omega (arith, ap (λ (d : ℕ). len_utf8 d) same)) in
    (m, cc, e₂)

-- A slice between two boundaries exists, and lies between what stands before and after it.
pub get_range-boundaries :
    (s p q p' q' : Text)
    → p ++ q ≡ s
    → p' ++ q' ≡ s
    → str_len p ≤ str_len p'
    → (m : Text) × (get_range s (str_len p) (str_len p') ≡ some m) × (p ++ (m ++ q') ≡ s)
unfolding get_range
get_range-boundaries s p q p' q' e e' h =
    let (m, e₁, e₂) = prefix_extends p q p' q' (cc) h in
    let width : str_len p' - str_len p ≡ str_len m =
      omega (arith, ap str_len e₁, str_len-append p m) in
    let first : split_at (str_len p) s ≡ some (p, q) = rw (← e) (split_at-append p q) in
    let second : split_at (str_len m) q ≡ some (m, q') = rw e₂ (split_at-append m q') in
    (m, rw (le→leb _ _ h, first, width, second), rw (← e₂) e)
