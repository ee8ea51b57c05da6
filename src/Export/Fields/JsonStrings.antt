-- ===== src/Export/Fields/JsonStrings.antt =====
-- A reader of the strings of JSON (RFC 8259), for what `push_json_string` of src/export.rs writes.
use dbotter.Prelude.{
  ℕ, ◌+◌, ◌-◌, ◌*◌, ◌/◌, ◌%◌, ◌<◌, ◌≤◌, ◌≡◌, refl, ◌∙◌, Bool, true, false, not, ◌&&◌, ◌||◌, [], ◌∷◌,
  ◌++◌, Option, none, some, arith, leb, ltb, ◌==◌, if◌then◌else◌, leb→le,
}
use mathlib.Core.List.{append-nil, append_assoc}
use dbotter.Text.{Text, codes}
use dbotter.Export.Fields.{hex_digit, json_character, json_characters, push_json_string}

-- Outside an escape, behind its backslash, or with hexadecimal digits left and a value so far.
pub data JsonMode : Type 0 where
  outside behind_backslash : JsonMode
  in_hex : ℕ → ℕ → JsonMode

abbrev pub digit_value : ℕ → ℕ
digit_value c = if ltb c 58 then c - 48 else if ltb c 71 then c - 55 else c - 87

abbrev is_hex : ℕ → Bool
is_hex c = (leb b'0' c && leb c b'9') || ((leb b'a' c && leb c b'f') || (leb b'A' c && leb c b'F'))

-- The characters that may stand behind a backslash.
abbrev is_escape : ℕ → Bool
is_escape c =
    c == b'"'
    || (c == b'\\'
        || (c == b'/'
            || (c == b'b'
                || (c == b'f' || (c == b'n' || (c == b'r' || (c == b't' || c == b'u')))))))

-- What ends the reading without a string: a control character, an escape that JSON does not have,
-- a digit that is none.
abbrev pub refuses : JsonMode → ℕ → Bool
refuses outside c = ltb c 32
refuses behind_backslash c = not (is_escape c)
refuses (in_hex left v) c = not (is_hex c)

abbrev pub escape_meaning : ℕ → ℕ
escape_meaning c =
    if c == b'b'
    then 8
    else if c == b'f'
    then 12
    else if c == b'n'
    then 10
    else if c == b'r'
    then 13
    else if c == b't'
    then 9
    else c

-- The mode and the text behind one character.
pub json_step : JsonMode → Text → ℕ → JsonMode × Text
json_step outside acc c = if c == b'\\' then (behind_backslash, acc) else (outside, acc ++ c ∷ [])
json_step behind_backslash acc c =
    if c == b'u' then (in_hex 4 0, acc) else (outside, acc ++ escape_meaning c ∷ [])
json_step (in_hex left v) acc c =
    if left == 1
    then (outside, acc ++ (v * 16 + digit_value c) ∷ [])
    else (in_hex (left - 1) (v * 16 + digit_value c), acc)

abbrev pub closes : JsonMode → ℕ → Bool
closes outside c = c == b'"'
closes _ c = false

-- The string up to its closing quote, and what follows.
pub json_body : JsonMode → Text → Text → Option (Text × Text)
unfolding json_step
json_body mode acc [] = none
json_body mode acc (c ∷ cs) =
    let next = json_step mode acc c in
    let rest = json_body next.0 next.1 cs in
    if closes mode c then some (acc, cs) else if refuses mode c then none else rest

pub read_json_string : Text → Option (Text × Text)
unfolding json_body
read_json_string [] = none
read_json_string (c ∷ cs) = if c == b'"' then json_body outside [] cs else none

hex-digit : (n : ℕ) → n < 16 → is_hex (hex_digit n) ≡ true
hex-digit n h = ground arith

hex-value : (n : ℕ) → n < 16 → digit_value (hex_digit n) ≡ n
hex-value n h = ground arith

control_value :
    (c : ℕ)
    → leb c 31 ≡ true
    → ((0 * 16 + 0) * 16 + digit_value (hex_digit (c / 16))) * 16 + digit_value (hex_digit (c % 16))
      ≡ c
control_value c h =
    let small : c ≤ 31 = leb→le c 31 h in
    rw (hex-value (c / 16) (omega arith), hex-value (c % 16) (omega arith)) (omega arith)

read-control :
    (c : ℕ) (acc t : Text)
    → leb c 31 ≡ true
    → json_body outside acc (codes "\\u00" ++ (hex_digit (c / 16) ∷ hex_digit (c % 16) ∷ t))
      ≡ json_body outside (acc ++ c ∷ []) t
unfolding json_body json_step
read-control c acc t h =
    let small : c ≤ 31 = leb→le c 31 h in
    rw (control_value c h, hex-digit (c / 16) (omega arith), hex-digit (c % 16) (omega arith)) refl

read-character :
    (c : ℕ) (acc t : Text)
    → json_body outside acc (json_character c ++ t) ≡ json_body outside (acc ++ c ∷ []) t
unfolding json_character json_body json_step
read-character c acc t = ground (arith, read-control c acc t)

read-characters :
    (s acc t : Text) → json_body outside acc (json_characters s ++ (b'"' ∷ t)) ≡ some (acc ++ s, t)
unfolding json_characters
read-characters [] acc t = unfold json_body in rw append-nil refl
read-characters (c ∷ s) acc t = rw append_assoc (
    read-character c acc (json_characters s ++ (b'"' ∷ t))
    ∙ (rw (read-characters s (acc ++ c ∷ []) t) (rw append_assoc refl)))

-- A JSON string is read back, by a reader that takes no control character and no escape that JSON
-- does not have, as the text that it was made from, whatever follows it.
pub read_json_string-push : (s t : Text) → read_json_string (push_json_string s ++ t) ≡ some (s, t)
unfolding push_json_string read_json_string
read_json_string-push s t = rw append_assoc (read-characters s [] t)
