-- ===== src/Drivers/Catalog/Columns.antt =====
-- The columns counted for each relation in src/drivers/mysql_catalog.rs: a map, as a list.
use dbotter.Prelude.{
  suc, ◌-◌, ◌≤◌, ◌≡◌, refl, ◌∙◌, inl, inr, true, false, ◌&&◌, List, [], ◌∷◌, arith, ◌==◌,
  if◌then◌else◌, Bool-cases, All,
}
use dbotter.Text.{Text, text_eq}
use dbotter.Text.Equality.{text_eq→≡, text_eq-swap, text_eq_sym}
use dbotter.Drivers.Catalog.{RelationColumns, is_of, columns_of, add_column, drop_column}

-- No relation has two entries.
abbrev pub IsSeparate : List RelationColumns → Type 0
IsSeparate [] = Unit
IsSeparate (c ∷ cs) = All (λ d. is_of c.schema c.relation d ≡ false) cs × IsSeparate cs

is_of-swap :
    (s r s' r' : Text) (c : RelationColumns)
    → is_of s r c ≡ true
    → is_of s' r' c ≡ (text_eq s s' && text_eq r r')
is_of-swap s r s' r' c h = ground (arith, text_eq-swap c.schema s s', text_eq-swap c.relation r r')

-- A column that is added is one more of its relation.
pub columns_of-add_column :
    (cs : List RelationColumns) (s r s' r' : Text)
    → All (λ c. c.count ≤ 512) cs
    → columns_of (add_column cs s r) s' r'
      ≡ (if text_eq s s' && text_eq r r' then suc (columns_of cs s' r') else columns_of cs s' r')
columns_of-add_column [] s r s' r' h = ground arith
columns_of-add_column (c ∷ cs) s r s' r' (h, hs) = elim (Bool-cases (is_of s r c)) [
  | inl own ↦ ground (arith, is_of-swap s r s' r' c own)
  | inr other ↦
      let rest = columns_of-add_column cs s r s' r' hs in
      elim (Bool-cases (is_of s' r' c)) [
        | inl asked ↦
            ground (arith, is_of-swap s' r' s r c asked, text_eq_sym s s', text_eq_sym r r')
        | inr neither ↦ rw (other, neither) rest
      ]
]

no_entry :
    (s r : Text) (cs : List RelationColumns)
    → All (λ d. is_of s r d ≡ false) cs
    → columns_of cs s r ≡ 0
no_entry s r [] h = refl
no_entry s r (c ∷ cs) (h, hs) = rw h (no_entry s r cs hs)

-- The entries of a relation that is another one are looked for in vain under its own names.
entries_move :
    (s r s' r' : Text) (cs : List RelationColumns)
    → text_eq s s' && text_eq r r' ≡ true
    → All (λ d. is_of s r d ≡ false) cs
    → All (λ d. is_of s' r' d ≡ false) cs
entries_move s r s' r' cs same h =
    let first : s ≡ s' = text_eq→≡ s s' (ground arith) in
    let second : r ≡ r' = text_eq→≡ r r' (ground arith) in rw (← first, ← second) h

-- A column that is taken away is one less of its relation.
pub columns_of-drop_column :
    (cs : List RelationColumns) (s r s' r' : Text)
    → IsSeparate cs
    → columns_of (drop_column cs s r) s' r'
      ≡ (if text_eq s s' && text_eq r r' then columns_of cs s' r' - 1 else columns_of cs s' r')
columns_of-drop_column [] s r s' r' h = ground arith
columns_of-drop_column (c ∷ cs) s r s' r' (h, hs) = elim (Bool-cases (is_of s r c)) [
  | inl own ↦
      let asked = is_of-swap s r s' r' c own in
      elim (Bool-cases (text_eq s s' && text_eq r r')) [
        | inl same ↦
            let gone : columns_of cs s' r' ≡ 0 =
              no_entry s' r' cs (entries_move c.schema c.relation s' r' cs (asked ∙ same) h) in
            elim (Bool-cases (c.count - 1 == 0)) [
              | inl last ↦ rw (own, same, last, asked ∙ same, gone) (ground arith)
              | inr more ↦ rw (own, same, more, asked ∙ same) refl
            ]
        | inr apart ↦ elim (Bool-cases (c.count - 1 == 0)) [
          | inl last ↦ rw (own, apart, last, asked ∙ apart) refl
          | inr more ↦ rw (own, apart, more, asked ∙ apart) refl
        ]
      ]
  | inr other ↦
      let rest = columns_of-drop_column cs s r s' r' hs in
      elim (Bool-cases (is_of s' r' c)) [
        | inl asked ↦
            ground (arith, is_of-swap s' r' s r c asked, text_eq_sym s s', text_eq_sym r r')
        | inr neither ↦ rw (other, neither) rest
      ]
]

add_column-All :
    (s r s' r' : Text) (cs : List RelationColumns)
    → text_eq s s' && text_eq r r' ≡ false
    → All (λ d. is_of s r d ≡ false) cs
    → All (λ d. is_of s r d ≡ false) (add_column cs s' r')
add_column-All s r s' r' [] differ h = (ground (arith, text_eq_sym s s', text_eq_sym r r'), tt)
add_column-All s r s' r' (c ∷ cs) differ (h, hs) =
    ground (arith, add_column-All s r s' r' cs differ hs)

pub add_column-IsSeparate :
    (cs : List RelationColumns) (s r : Text) → IsSeparate cs → IsSeparate (add_column cs s r)
add_column-IsSeparate [] s r h = (tt, tt)
add_column-IsSeparate (c ∷ cs) s r (h, hs) = elim (Bool-cases (is_of s r c)) [
  | inl own ↦ rw own (h, hs)
  | inr other ↦
      rw other (add_column-All c.schema c.relation s r cs other h, add_column-IsSeparate cs s r hs)
]

drop_column-All :
    (s r s' r' : Text) (cs : List RelationColumns)
    → All (λ d. is_of s r d ≡ false) cs
    → All (λ d. is_of s r d ≡ false) (drop_column cs s' r')
drop_column-All s r s' r' [] h = tt
drop_column-All s r s' r' (c ∷ cs) (h, hs) = ground (arith, drop_column-All s r s' r' cs hs)

pub drop_column-IsSeparate :
    (cs : List RelationColumns) (s r : Text) → IsSeparate cs → IsSeparate (drop_column cs s r)
drop_column-IsSeparate [] s r h = tt
drop_column-IsSeparate (c ∷ cs) s r (h, hs) =
    ground (arith, drop_column-All c.schema c.relation s r cs h, drop_column-IsSeparate cs s r hs)
