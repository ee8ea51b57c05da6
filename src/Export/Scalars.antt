-- ===== src/Export/Scalars.antt =====
-- The scalar of a cell in src/export.rs, which the clipboard, CSV and TSV share.
use dbotter.Prelude.{
  ℕ, zero, suc, ◌+◌, ◌/◌, ◌%◌, Bool, true, false, ◌&&◌, ◌||◌, List, [], ◌∷◌, ◌++◌, Option, none,
  some, length, ltb, ◌==◌, if◌then◌else◌,
}
use dbotter.Text.{Text, codes}
use dbotter.Model.{ℤ, pos, negsuc, Json, JsonItems, JsonFields, Cell}
use dbotter.Export.Fields.{push_json_string}

-- What the encoders take from the standard library's float printing, from base64, from
-- rust_decimal and from chrono.
pub record Formats : Type 0 where
  pub display_f64 : ℕ → Text
  pub base64 : List ℕ → Text
  -- The normalised text of what parses as a decimal.
  pub parse_decimal : Text → Option Text
  -- The text in UTC of what parses as RFC 3339, and the standard text of what parses by a format.
  pub parse_rfc3339 : Text → Option Text
  pub parse_naive_datetime : Text → Text → Option Text
  pub parse_naive_date : Text → Option Text
  pub parse_naive_time : Text → Option Text
  -- The UTC text of a time in milliseconds, where it is in chrono's range.
  pub format_timestamp_millis : ℤ → Option Text

-- Decimal digits. Thirty-nine are enough for a `u128`.
unfoldable pub digits_onto : ℕ → ℕ → Text → Text
digits_onto zero n acc = acc
digits_onto (suc fuel) n acc =
    let more = digits_onto fuel (n / 10) ((48 + n % 10) ∷ acc) in
    if ltb n 10 then (48 + n) ∷ acc else more

unfoldable pub display_uint : ℕ → Text
unfolding digits_onto
display_uint n = digits_onto 39 n []

unfoldable pub display_int : ℤ → Text
unfolding display_uint
display_int (pos n) = display_uint n
display_int (negsuc n) = b'-' ∷ display_uint (suc n)

abbrev pub display_bool : Bool → Text
display_bool b = if b then codes "true" else codes "false"

-- The infinities of an `f64`, and the test for the values beyond them, which are no numbers.
abbrev pub infinity : ℕ
infinity = 0x7FF0_0000_0000_0000

abbrev pub sign_bit : ℕ
sign_bit = 0x8000_0000_0000_0000

abbrev pub is_nan : ℕ → Bool
is_nan bits = (ltb infinity bits && ltb bits sign_bit) || ltb (sign_bit + infinity) bits

module _ (formats : Formats) where
  unfoldable pub canonical_float : ℕ → Text
  canonical_float bits =
      if is_nan bits
      then codes "nan"
      else if bits == infinity
      then codes "inf"
      else if bits == sign_bit + infinity
      then codes "-inf"
      else formats.display_f64 bits

  unfoldable pub canonical_decimal : Text → Text
  canonical_decimal value = elim (formats.parse_decimal value) [ none ↦ value | some t ↦ t ]

  abbrev or_try : Option Text → Text → Text
  or_try none t = t
  or_try (some s) t = s

  unfoldable pub normalize_datetime : Text → Text
  normalize_datetime value = or_try (formats.parse_rfc3339 value) (
      or_try (formats.parse_naive_datetime value (codes "%Y-%m-%d %H:%M:%S%.f")) (
        or_try (formats.parse_naive_datetime value (codes "%Y-%m-%dT%H:%M:%S%.f")) (
          or_try (formats.parse_naive_date value) (or_try (formats.parse_naive_time value) value))))

-- `fields.sort_unstable_by_key`: the keys of a map differ, so any sort gives the same order. The
-- order of `str` is that of the scalar values.
abbrev pub text_le : Text → Text → Bool
text_le [] t = true
text_le (a ∷ s) [] = false
text_le (a ∷ s) (b ∷ t) = ltb a b || (a == b && text_le s t)

abbrev pub insert_field : Text → Text → List (Text × Text) → List (Text × Text)
insert_field k v [] = (k, v) ∷ []
insert_field k v ((j, w) ∷ fs) =
    let rest = insert_field k v fs in if text_le k j then (k, v) ∷ (j, w) ∷ fs else (j, w) ∷ rest

abbrev pub join_fields : List (Text × Text) → Text
join_fields [] = []
join_fields ((k, v) ∷ []) = push_json_string k ++ (b':' ∷ v)
join_fields ((k, v) ∷ f ∷ fs) = push_json_string k ++ (b':' ∷ (v ++ (b',' ∷ join_fields (f ∷ fs))))

abbrev pub join_items : List Text → Text
join_items [] = []
join_items (v ∷ []) = v
join_items (v ∷ w ∷ ws) = v ++ (b',' ∷ join_items (w ∷ ws))

-- `push_canonical_json`: what it appends.
unfoldable mutual
  pub canonical_json : Json → Text
  canonical_json Json.null = codes "null"
  canonical_json (Json.boolean b) = display_bool b
  canonical_json (Json.number t) = t
  canonical_json (Json.string t) = push_json_string t
  canonical_json (Json.array items) = b'[' ∷ (join_items (canonical_items items) ++ (b']' ∷ []))
  canonical_json (Json.object fields) =
      b'{' ∷ (join_fields (canonical_fields fields) ++ (b'}' ∷ []))

  pub canonical_items : JsonItems → List Text
  canonical_items JsonItems.nil = []
  canonical_items (JsonItems.cons v vs) = canonical_json v ∷ canonical_items vs

  -- The fields sorted by their keys, each with its value's text.
  pub canonical_fields : JsonFields → List (Text × Text)
  canonical_fields JsonFields.end = []
  canonical_fields (JsonFields.field k v fs) =
      insert_field k (canonical_json v) (canonical_fields fs)

unfoldable pub clipboard_scalar : Formats → Cell → Text
unfolding display_uint display_int canonical_float canonical_decimal normalize_datetime
    canonical_json
clipboard_scalar formats Cell.null = []
clipboard_scalar formats (Cell.boolean b) = display_bool b
clipboard_scalar formats (Cell.int i) = display_int i
clipboard_scalar formats (Cell.uint n) = display_uint n
clipboard_scalar formats (Cell.float bits) = canonical_float formats bits
clipboard_scalar formats (Cell.decimal t) = canonical_decimal formats t
clipboard_scalar formats (Cell.text t) = t
clipboard_scalar formats (Cell.text_preview preview original_len) =
    preview
    ++ (codes "…[dbotter-truncated;original_len=" ++ (display_uint original_len ++ codes "]"))
clipboard_scalar formats (Cell.bytes retained original_len) =
    codes "base64:"
    ++ (formats.base64 retained
        ++ (if ltb (length retained) original_len
            then codes ";truncated=true;original_len=" ++ display_uint original_len
            else []))
clipboard_scalar formats (Cell.json value) = canonical_json value
clipboard_scalar formats (Cell.json_preview preview original_len) =
    codes "json-preview:"
    ++ (preview ++ (codes ";truncated=true;original_len=" ++ display_uint original_len))
clipboard_scalar formats (Cell.date_time t) = normalize_datetime formats t
