-- ===== src/Export/Fields/Tsv.antt =====
-- The TSV escape of src/export.rs can be undone, and leaves no separator in a field.
use dbotter.Prelude.{
  ℕ, ◌≡◌, ◌≢◌, refl, ap, ◌∙◌, false, [], ◌∷◌, ◌++◌, arith, All, All-append, ◌==◌, if◌then◌else◌,
}
use dbotter.Text.{Text}
use dbotter.Export.Fields.{tsv_character, tsv_field}

-- Reads a field back: what follows a backslash says which character it was.
abbrev pub unescaped : ℕ → ℕ
unescaped c = if c == b't' then 9 else if c == b'r' then 13 else if c == b'n' then 10 else c

pub tsv_unescape : Text → Text
tsv_unescape [] = []
tsv_unescape (c ∷ []) = c ∷ []
tsv_unescape (c ∷ d ∷ cs) =
    let pair = tsv_unescape cs in
    let plain = tsv_unescape (d ∷ cs) in if c == b'\\' then unescaped d ∷ pair else c ∷ plain

tsv_unescape-plain :
    (c : ℕ) (cs : Text) → (c == b'\\') ≡ false → tsv_unescape (c ∷ cs) ≡ c ∷ tsv_unescape cs
unfolding tsv_unescape
tsv_unescape-plain c [] h = refl
tsv_unescape-plain c (d ∷ cs) h = rw h

tsv_unescape-character :
    (c : ℕ) (cs : Text) → tsv_unescape (tsv_character c ++ cs) ≡ c ∷ tsv_unescape cs
unfolding tsv_unescape
tsv_unescape-character c cs = ground (arith, tsv_unescape-plain c cs)

-- Reading an escaped field gives the field back.
pub tsv_unescape-tsv_field : (s : Text) → tsv_unescape (tsv_field s) ≡ s
unfolding tsv_field
tsv_unescape-tsv_field [] = unfold tsv_unescape in refl
tsv_unescape-tsv_field (c ∷ s) =
    tsv_unescape-character c (tsv_field s) ∙ ap (◌∷◌ c) (tsv_unescape-tsv_field s)

-- No tab, carriage return or line feed.
abbrev pub IsInline : ℕ → Type 0
IsInline c = (c ≢ 9) × (c ≢ 10) × (c ≢ 13)

tsv_character-IsInline : (c : ℕ) → All IsInline (tsv_character c)
tsv_character-IsInline c = ground arith

-- An escaped field has no tab, carriage return or line feed.
pub tsv_field-IsInline : (s : Text) → All IsInline (tsv_field s)
unfolding tsv_field
tsv_field-IsInline [] = tt
tsv_field-IsInline (c ∷ s) =
    All-append IsInline (tsv_character c) (tsv_field s) (tsv_character-IsInline c)
      (tsv_field-IsInline s)
