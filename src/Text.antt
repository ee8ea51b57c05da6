-- ===== src/Text.antt =====
-- Rust's `str` as the source uses it: a list of Unicode scalar values, with offsets counted in the
-- bytes of its UTF-8 form. The operations are those of the standard library.
use Prim.Native.Char.{code}
use Prim.Native.String.{String}
use dbotter.Prelude.{
  ℕ, zero, suc, ◌+◌, ◌-◌, ◌≡◌, Bool, true, false, ◌&&◌, ◌||◌, List, [], ◌∷◌, ◌++◌, map, reverse,
  Option, none, some, ltb, leb, ◌==◌, if◌then◌else◌, length, is_empty,
}
pub mod Boundary
pub mod Equality
pub mod Maps

abbrev pub Text : Type 0
Text = List ℕ

-- The characters of a literal.
abbrev pub codes : String → Text
codes String.[] = []
codes (String.◌∷◌ c s) = code c ∷ codes s

-- `char::len_utf8`.
abbrev pub len_utf8 : ℕ → ℕ
len_utf8 c = if ltb c 0x80 then 1 else if ltb c 0x800 then 2 else if ltb c 0x10000 then 3 else 4

-- `str::len`.
abbrev pub str_len : Text → ℕ
str_len [] = 0
str_len (c ∷ cs) = len_utf8 c + str_len cs

abbrev pub text_eq : Text → Text → Bool
text_eq [] [] = true
text_eq (a ∷ s) (b ∷ t) = a == b && text_eq s t
text_eq _ _ = false

-- `char::is_whitespace`: the characters with the Unicode property White_Space.
abbrev pub is_whitespace : ℕ → Bool
is_whitespace c =
    (leb 9 c && leb c 13)
    || c == 0x20
    || c == 0x85
    || c == 0xA0
    || c == 0x1680
    || (leb 0x2000 c && leb c 0x200A)
    || c == 0x2028
    || c == 0x2029
    || c == 0x202F
    || c == 0x205F
    || c == 0x3000

-- `u8::is_ascii_whitespace` and `u8::is_ascii_control`.
abbrev pub is_ascii_whitespace : ℕ → Bool
is_ascii_whitespace c = c == 9 || c == 10 || c == 12 || c == 13 || c == 32

abbrev pub is_ascii_control : ℕ → Bool
is_ascii_control c = ltb c 32 || c == 127

abbrev pub is_ascii_alphabetic : ℕ → Bool
is_ascii_alphabetic c = (leb b'A' c && leb c b'Z') || (leb b'a' c && leb c b'z')

abbrev pub to_ascii_uppercase : ℕ → ℕ
to_ascii_uppercase c = if leb b'a' c && leb c b'z' then c - 32 else c

-- `str::to_ascii_uppercase`.
abbrev pub str_upper : Text → Text
str_upper = map to_ascii_uppercase

-- `eq_ignore_ascii_case`.
abbrev pub eq_ignore_ascii_case : Text → Text → Bool
eq_ignore_ascii_case s t = text_eq (str_upper s) (str_upper t)

-- `str::trim_start`, `str::trim_end` and `str::trim`.
abbrev pub skip_while : (ℕ → Bool) → Text → Text
skip_while p [] = []
skip_while p (c ∷ cs) = let rest = skip_while p cs in if p c then rest else c ∷ cs

abbrev pub trim_end_by : (ℕ → Bool) → Text → Text
trim_end_by p [] = []
trim_end_by p (c ∷ cs) =
    let rest = trim_end_by p cs in if p c && is_empty rest then [] else c ∷ rest

abbrev pub trim_start : Text → Text
trim_start = skip_while is_whitespace

abbrev pub trim : Text → Text
trim s = trim_end_by is_whitespace (trim_start s)

-- `chars().take_while(…)`.
abbrev pub take_while : (ℕ → Bool) → Text → Text
take_while p [] = []
take_while p (c ∷ cs) = let rest = take_while p cs in if p c then c ∷ rest else []

abbrev pub starts_with : Text → Text → Bool
starts_with s [] = true
starts_with [] (p ∷ ps) = false
starts_with (c ∷ cs) (p ∷ ps) = c == p && starts_with cs ps

-- `str::contains`.
abbrev pub contains : Text → Text → Bool
contains [] p = starts_with [] p
contains (c ∷ cs) p = starts_with (c ∷ cs) p || contains cs p

-- `str::split('\n')`: one piece more than there are separators.
abbrev pub cons_first : ℕ → List Text → List Text
cons_first c [] = (c ∷ []) ∷ []
cons_first c (l ∷ ls) = (c ∷ l) ∷ ls

abbrev pub split_on : ℕ → Text → List Text
split_on sep [] = [] ∷ []
split_on sep (c ∷ cs) =
    let rest = split_on sep cs in if c == sep then [] ∷ rest else cons_first c rest

-- The text before and from a byte offset; none where the offset splits a character or lies past
-- the end. `str::get(start..end)` takes such offsets.
pub split_at : ℕ → Text → Option (Text × Text)
split_at zero s = some ([], s)
split_at (suc n) [] = none
split_at (suc n) (c ∷ cs) =
    let rest = split_at (suc n - len_utf8 c) cs in
    if leb (len_utf8 c) (suc n)
    then elim rest [ none ↦ none | some (p, q) ↦ some (c ∷ p, q) ]
    else none

unfoldable pub get_range : Text → ℕ → ℕ → Option Text
unfolding split_at
get_range s start stop =
    if leb start stop
    then elim (split_at start s) [
      | none ↦ none
      | some (p, q) ↦ elim (split_at (stop - start) q) [ none ↦ none | some (m, r) ↦ some m ]
    ]
    else none
