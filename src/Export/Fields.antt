-- ===== src/Export/Fields.antt =====
-- One field of the TSV, CSV and JSON of src/export.rs.
use dbotter.Prelude.{
  ℕ, zero, suc, ◌+◌, ◌-◌, ◌/◌, ◌%◌, Bool, true, false, ◌||◌, List, [], ◌∷◌, ◌++◌, any, leb, ltb,
  ◌==◌, if◌then◌else◌,
}
use dbotter.Text.{Text, codes}
pub mod Tsv
pub mod Csv
pub mod JsonStrings

abbrev pub tsv_character : ℕ → Text
tsv_character c =
    if c == b'\\'
    then codes "\\\\"
    else if c == 9
    then codes "\\t"
    else if c == 13
    then codes "\\r"
    else if c == 10
    then codes "\\n"
    else c ∷ []

unfoldable pub tsv_field : Text → Text
tsv_field [] = []
tsv_field (c ∷ cs) = tsv_character c ++ tsv_field cs

abbrev pub needs_quotes : ℕ → Bool
needs_quotes c = c == b',' || (c == b'"' || (c == 13 || c == 10))

-- The loop of `write_csv_field`: the text with each quote twice.
unfoldable pub double_quotes : Text → Text
double_quotes [] = []
double_quotes (c ∷ cs) =
    let rest = double_quotes cs in if c == b'"' then b'"' ∷ b'"' ∷ rest else c ∷ rest

unfoldable pub csv_field : Text → Text
unfolding double_quotes
csv_field field =
    if any needs_quotes field then b'"' ∷ (double_quotes field ++ (b'"' ∷ [])) else field

-- A digit of `{:04x}`.
abbrev pub hex_digit : ℕ → ℕ
hex_digit n = if ltb n 10 then 48 + n else 87 + n

unfoldable pub json_character : ℕ → Text
json_character c =
    if c == b'"'
    then codes "\\\""
    else if c == b'\\'
    then codes "\\\\"
    else if c == 8
    then codes "\\b"
    else if c == 12
    then codes "\\f"
    else if c == 10
    then codes "\\n"
    else if c == 13
    then codes "\\r"
    else if c == 9
    then codes "\\t"
    else if leb c 0x1f
    then codes "\\u00" ++ (hex_digit (c / 16) ∷ hex_digit (c % 16) ∷ [])
    else c ∷ []

unfoldable pub json_characters : Text → Text
unfolding json_character
json_characters [] = []
json_characters (c ∷ cs) = json_character c ++ json_characters cs

unfoldable pub push_json_string : Text → Text
unfolding json_characters
push_json_string value = b'"' ∷ (json_characters value ++ (b'"' ∷ []))
