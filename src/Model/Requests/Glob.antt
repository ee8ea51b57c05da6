-- ===== src/Model/Requests/Glob.antt =====
-- What the pattern of `RedisKeyFilter::match_pattern` in src/model.rs stands for.
use dbotter.Prelude.{
  ℕ, ◌≡◌, refl, ap, ◌∙◌, Bool, ◌||◌, false, inl, inr, List, [], ◌∷◌, ◌++◌, map, arith, ◌==◌,
  if◌then◌else◌, Bool-cases, ok,
}
use dbotter.Text.{Text}
use dbotter.Model.Requests.{
  literal_prefix, is_glob_special, escape_glob, validate_filter, match_pattern,
}

-- The parts of a pattern: a character that stands for itself, or a special one.
pub data GlobPart : Type 0 where
  itself special : ℕ → GlobPart

-- What Redis gives a meaning to: any run, any one character, and the brackets of a class.
abbrev is_wild : ℕ → Bool
is_wild c = c == 42 || (c == 63 || (c == 91 || c == 93))

-- A backslash takes the next character literally, and one at the end stands for itself.
pub glob_parts : Text → List GlobPart
glob_parts [] = []
glob_parts (c ∷ []) = (if is_wild c then special c else itself c) ∷ []
glob_parts (c ∷ d ∷ cs) =
    let escaped = glob_parts cs in
    let plain = glob_parts (d ∷ cs) in
    if c == b'\\' then itself d ∷ escaped else (if is_wild c then special c else itself c) ∷ plain

plain-part :
    (c : ℕ) (cs : Text) → is_glob_special c ≡ false → glob_parts (c ∷ cs) ≡ itself c ∷ glob_parts cs
unfolding glob_parts
plain-part c [] h = ground arith
plain-part c (d ∷ cs) h = elim (Bool-cases (c == b'\\')) [
  | inl slash ↦ absurd (ground arith)
  | inr other ↦ ground arith
]

escaped-part : (c : ℕ) (cs : Text) → glob_parts (b'\\' ∷ c ∷ cs) ≡ itself c ∷ glob_parts cs
unfolding glob_parts
escaped-part c cs = refl

escape_glob-parts :
    (s : Text) → glob_parts (escape_glob s ++ b'*' ∷ []) ≡ map itself s ++ special b'*' ∷ []
unfolding escape_glob
escape_glob-parts [] = unfold glob_parts in refl
escape_glob-parts (c ∷ s) = elim (Bool-cases (is_glob_special c)) [
  | inl odd ↦
      rw odd
        (escaped-part c (escape_glob s ++ b'*' ∷ []) ∙ ap (◌∷◌ (itself c)) (escape_glob-parts s))
  | inr plain ↦
      rw plain (
        plain-part c (escape_glob s ++ b'*' ∷ []) plain ∙ ap (◌∷◌ (itself c)) (escape_glob-parts s))
]

-- The pattern for a literal prefix within the size limit consists of the prefix, each of its
-- characters standing for itself, and one final star that is special.
pub match_pattern-literal_prefix :
    (prefix : Text)
    → validate_filter (literal_prefix prefix) ≡ ok tt
    → (pattern' : Text) × (match_pattern (literal_prefix prefix) ≡ ok pattern')
      × (glob_parts pattern' ≡ map itself prefix ++ special b'*' ∷ [])
unfolding match_pattern
match_pattern-literal_prefix prefix h =
    (escape_glob prefix ++ b'*' ∷ [], rw h refl, escape_glob-parts prefix)
