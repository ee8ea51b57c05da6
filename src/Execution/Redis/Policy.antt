-- ===== src/Execution/Redis/Policy.antt =====
-- What the Redis deny list of src/execution.rs decides.
use Prim.Native.String.{String}
use mathlib.Core.Bool.{false≢true}
use dbotter.Prelude.{
  ℕ, ◌≡◌, ◌↔◌, ◌⊎◌, refl, Bool, true, false, ◌||◌, List, [], ◌∷◌, map, arith, any, ◌==◌, Bool-cases,
  ==_iff, ◌&&◌, inl, inr,
}
use dbotter.Text.{Text, codes, to_ascii_uppercase, str_upper, text_eq, eq_ignore_ascii_case}
use dbotter.Execution.Redis.{
  exact_deny, is_exactly_denied, is_stream_read, block_in, has_bl_prefix, redis_bytes_are_denied,
}

upper_idem : (c : ℕ) → to_ascii_uppercase (to_ascii_uppercase c) ≡ to_ascii_uppercase c
upper_idem c = ground arith

pub str_upper_idem : (s : Text) → str_upper (str_upper s) ≡ str_upper s
str_upper_idem [] = refl
str_upper_idem (c ∷ s) = cc (upper_idem c, str_upper_idem s)

eq_ignore-upper : (s t : Text) → eq_ignore_ascii_case (str_upper s) t ≡ eq_ignore_ascii_case s t
eq_ignore-upper s t = rw (str_upper_idem s)

any-upper :
    (s : Text) (words : List Text)
    → any (λ w. eq_ignore_ascii_case (str_upper s) w) words
      ≡ any (λ w. eq_ignore_ascii_case s w) words
any-upper s [] = refl
any-upper s (w ∷ ws) = rw (eq_ignore-upper s w, any-upper s ws)

block_in-upper : (arguments : List Text) → block_in (map str_upper arguments) ≡ block_in arguments
unfolding block_in
block_in-upper [] = refl
block_in-upper (a ∷ rest) =
    rw (eq_ignore-upper a (codes "STREAMS"), eq_ignore-upper a (codes "BLOCK"), block_in-upper rest)

pub has_bl_prefix-upper : (c : Text) → has_bl_prefix (str_upper c) ≡ has_bl_prefix c
has_bl_prefix-upper [] = refl
has_bl_prefix-upper (a ∷ []) = refl
has_bl_prefix-upper (a ∷ b ∷ rest) = rw (upper_idem a, upper_idem b)

pub is_exactly_denied-upper : (c : Text) → is_exactly_denied (str_upper c) ≡ is_exactly_denied c
unfolding is_exactly_denied
is_exactly_denied-upper c = any-upper c exact_deny

pub is_stream_read-upper : (c : Text) → is_stream_read (str_upper c) ≡ is_stream_read c
unfolding is_stream_read
is_stream_read-upper c =
    rw (eq_ignore-upper c (codes "XREAD"), eq_ignore-upper c (codes "XREADGROUP"))

-- Letter case plays no part in the policy, in the command nor in its arguments.
pub redis_bytes_are_denied-upper :
    (argv : List Text) → redis_bytes_are_denied (map str_upper argv) ≡ redis_bytes_are_denied argv
unfolding redis_bytes_are_denied
redis_bytes_are_denied-upper [] = refl
redis_bytes_are_denied-upper (c ∷ arguments) = rw (
  has_bl_prefix-upper c,
  is_stream_read-upper c,
  is_exactly_denied-upper c,
  block_in-upper arguments,
)

abbrev pub IsWord : String → Text → Type 0
IsWord word t = eq_ignore_ascii_case t (codes word) ≡ true

abbrev pub IsNotWord : String → Text → Type 0
IsNotWord word t = eq_ignore_ascii_case t (codes word) ≡ false

-- A BLOCK stands among the arguments, with no STREAMS before it.
pub data Blocks : List Text → Type 0 where
  here :
      {a : Text} {rest : List Text} → IsNotWord "STREAMS" a → IsWord "BLOCK" a → Blocks (a ∷ rest)
  later : {a : Text} {rest : List Text} → IsNotWord "STREAMS" a → Blocks rest → Blocks (a ∷ rest)

block_in→Blocks : (arguments : List Text) → block_in arguments ≡ true → Blocks arguments
unfolding block_in
block_in→Blocks [] h = absurd (ground arith)
block_in→Blocks (a ∷ rest) h = elim (Bool-cases (eq_ignore_ascii_case a (codes "STREAMS"))) [
  | inl streams ↦ absurd (ground arith)
  | inr other ↦ elim (Bool-cases (eq_ignore_ascii_case a (codes "BLOCK"))) [
    | inl block ↦ here other block
    | inr neither ↦ later other (block_in→Blocks rest (rw (other, neither) at h))
  ]
]

Blocks→block_in : (arguments : List Text) → Blocks arguments → block_in arguments ≡ true
unfolding block_in
Blocks→block_in [] b = elim b [ ]
Blocks→block_in (a ∷ rest) (here other block) = rw (other, block)
Blocks→block_in (a ∷ rest) (later other b) =
    elim (Bool-cases (eq_ignore_ascii_case a (codes "BLOCK"))) [
      | inl block ↦ rw (other, block)
      | inr neither ↦ rw (other, neither) (Blocks→block_in rest b)
    ]

same_first :
    (u x : ℕ) (us xs ys : Text)
    → text_eq (u ∷ us) (x ∷ xs) || text_eq (u ∷ us) (x ∷ ys) ≡ true
    → u ≡ x
same_first u x us xs ys h = elim (Bool-cases (u == x)) [
  | inl e ↦ (==_iff u x).0 e
  | inr n ↦ absurd (false≢true (rw n at h))
]

other_first : (u : ℕ) (r : Bool) → u ≡ 88 → ((u == 66) && r) ≡ false
other_first u r e = rw e

stream_read-not-bl :
    (command : Text) → is_stream_read command ≡ true → has_bl_prefix command ≡ false
unfolding is_stream_read
stream_read-not-bl [] h = refl
stream_read-not-bl (a ∷ []) h = refl
stream_read-not-bl (a ∷ b ∷ rest) h = other_first (to_ascii_uppercase a) _ (
    same_first (to_ascii_uppercase a) 88 (str_upper (b ∷ rest)) (str_upper (codes "READ"))
      (str_upper (codes "READGROUP")) h)

-- The two commands that read from streams, in any case.
abbrev pub IsStreamRead : Text → Type 0
IsStreamRead command =
    (str_upper command ≡ codes "XREAD") ⊎ (str_upper command ≡ codes "XREADGROUP")

IsStreamRead-read : (command : Text) → IsStreamRead command → is_stream_read command ≡ true
unfolding is_stream_read
IsStreamRead-read command (inl xread) = rw xread refl
IsStreamRead-read command (inr xreadgroup) = rw xreadgroup refl

-- XREAD and XREADGROUP, in any case, are denied exactly when a BLOCK stands among their arguments
-- with no STREAMS before it.
pub denied-iff-Blocks :
    (command : Text) (arguments : List Text)
    → IsStreamRead command
    → (redis_bytes_are_denied (command ∷ arguments) ≡ true) ↔ Blocks arguments
unfolding redis_bytes_are_denied
denied-iff-Blocks command arguments named =
    let h = IsStreamRead-read command named in
    let open_prefix = stream_read-not-bl command h in
    (
      λ d. block_in→Blocks arguments (rw (open_prefix, h) at d),
      λ b. rw (open_prefix, h) (Blocks→block_in arguments b),
    )
