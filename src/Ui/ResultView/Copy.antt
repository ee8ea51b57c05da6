-- ===== src/Ui/ResultView/Copy.antt =====
-- Copying from the table of a result (src/ui/result_view.rs), and what it has to do with the TSV
-- export of src/export.rs.
use mathlib.Core.List.{append_assoc, append-nil}
use dbotter.Prelude.{
  ℕ, zero, suc, ◌+◌, ◌≡◌, refl, ap, sym, ◌∙◌, inl, inr, Bool-cases, Option, none, some, List, [],
  ◌∷◌, ◌++◌, map, length, is_empty, subst, arith, Result, ok, err, ◌==◌, if◌then◌else◌,
}
use dbotter.Text.{Text, codes}
use dbotter.Model.{Cell, Column, ResultSnapshot}
use dbotter.Export.Scalars.{Formats, clipboard_scalar}
use dbotter.Export.Fields.{tsv_field}
use dbotter.Export.Traces.{Done, ExportEncodeError, concat, concat-append, follow, write_all, ◌>>◌}
use dbotter.Export.Tables.{
  write_rest, write_fields, write_rows, write_table, write_tsv, require_tabular, require_row_width,
}
use dbotter.Export.Tables.Documents.{Writes, follow-Writes}

infixl 5 ◌>>=◌
abbrev ◌>>=◌ {ℓ κ} : {A : Type ℓ} {B : Type κ} → Option A → (A → Option B) → Option B
none >>= f = none
some a >>= f = f a

-- `Vec::get`.
abbrev get {ℓ} : {A : Type ℓ} → List A → ℕ → Option A
get [] i = none
get (x ∷ xs) zero = some x
get (x ∷ xs) (suc i) = get xs i

-- The fields of a line, with a tab in front of each but the first.
abbrev pub copy_rest : List Text → Text
copy_rest [] = []
copy_rest (f ∷ fs) = codes "\t" ++ (tsv_field f ++ copy_rest fs)

abbrev pub copy_fields : List Text → Text
copy_fields [] = []
copy_fields (f ∷ fs) = tsv_field f ++ copy_rest fs

module _ (formats : Formats) (result : ResultSnapshot) where
  pub copy_cell : ℕ → ℕ → Option Text
  unfolding clipboard_scalar
  copy_cell row column = do
    cells ← get result.rows row
    cell ← get cells column
    some (clipboard_scalar formats cell)

  abbrev copied_row : List Cell → Option Text
  copied_row row =
      if length row == length result.columns
      then some (copy_fields (map (clipboard_scalar formats) row) ++ codes "\n")
      else none

  -- The loop over the rows, by what it pushes onto the output.
  unfoldable pub copy_lines : List ℕ → Option Text
  unfolding tsv_field clipboard_scalar
  copy_lines [] = some []
  copy_lines (i ∷ is) = do
    row ← get result.rows i
    line ← copied_row row
    rest ← copy_lines is
    some (line ++ rest)

  unfoldable pub copy_rows : List ℕ → Option Text
  unfolding copy_lines tsv_field
  copy_rows rows = if is_empty result.columns then none else (do
    lines ← copy_lines rows
    some ((copy_fields (map (λ c. c.name) result.columns) ++ codes "\n") ++ lines))

  abbrev pub indices_from : ℕ → ℕ → List ℕ
  indices_from start zero = []
  indices_from start (suc n) = start ∷ indices_from (start + 1) n

  pub copy_selected_rows : List ℕ → Option Text
  unfolding copy_rows
  copy_selected_rows selected = if is_empty selected then none else copy_rows selected

  pub copy_all_rows : Option Text
  unfolding copy_rows
  copy_all_rows = copy_rows (indices_from 0 (length result.rows))

-- The document of an encoder that does not fail.
abbrev document_of : List Text → Result ExportEncodeError (Unit {0}) → Option Text
document_of pieces (ok u) = some (concat pieces)
document_of pieces (err e) = none

abbrev pub document : Done → Option Text
document t = document_of t.pieces t.outcome

document_of-append :
    (ps qs : List Text) (s : Text) (o : Result ExportEncodeError (Unit {0}))
    → concat ps ≡ s
    → document_of (ps ++ qs) o ≡ (document_of qs o >>= λ r. some (s ++ r))
document_of-append ps qs s (ok u) e = rw (concat-append ps qs) (rw e refl)
document_of-append ps qs s (err x) e = refl

document-follow :
    (t u : Done) (s : Text)
    → Writes t s
    → document (follow t.pieces t.outcome (λ _. u)) ≡ (document u >>= λ r. some (s ++ r))
document-follow t u s w = rw w.succeeds (document_of-append t.pieces u.pieces s u.outcome w.makes)

prefixed_twice :
    (o : Option Text) (s t : Text)
    → (o >>= λ r. some ((s ++ t) ++ r)) ≡ ((o >>= λ r. some (t ++ r)) >>= λ r. some (s ++ r))
prefixed_twice none s t = refl
prefixed_twice (some r) s t = ap some (append_assoc s t r)

field-Writes : (f : Text) → Writes (write_all (tsv_field f)) (tsv_field f)
field-Writes f = record { succeeds = refl; makes = append-nil (tsv_field f) }

write_rest-Writes :
    (fs : List Text)
    → Writes (write_rest (codes "\t") (λ f. write_all (tsv_field f)) fs) (copy_rest fs)
unfolding write_rest
write_rest-Writes [] = record { succeeds = refl; makes = refl }
write_rest-Writes (f ∷ fs) =
    let rest = write_rest (codes "\t") (λ f. write_all (tsv_field f)) fs in
    follow-Writes (write_all (codes "\t")) (write_all (tsv_field f) >> rest) (codes "\t") _
      (record { succeeds = refl; makes = refl })
      (follow-Writes (write_all (tsv_field f)) rest (tsv_field f) (copy_rest fs) (field-Writes f)
        (write_rest-Writes fs))

write_fields-Writes :
    (fs : List Text)
    → Writes (write_fields (codes "\t") (λ f. write_all (tsv_field f)) fs) (copy_fields fs)
unfolding write_fields
write_fields-Writes [] = record { succeeds = refl; makes = refl }
write_fields-Writes (f ∷ fs) =
    follow-Writes (write_all (tsv_field f)) _ (tsv_field f) (copy_rest fs) (field-Writes f)
      (write_rest-Writes fs)

get-append {ℓ} :
    {A : Type ℓ} (before : List A) (x : A) (after : List A)
    → get (before ++ x ∷ after) (length before) ≡ some x
get-append [] x after = refl
get-append (y ∷ before) x after = get-append before x after

length-snoc {ℓ} : {A : Type ℓ} (xs : List A) (x : A) → length (xs ++ x ∷ []) ≡ length xs + 1
length-snoc [] x = refl
length-snoc (y ∷ xs) x = ground (arith, length-snoc xs x)

-- A line of the export, given what it writes behind it.
document-line :
    (fields : List Text) (later : Done) (lines : Option Text)
    → lines ≡ document later
    → document (
        write_fields (codes "\t") (λ f. write_all (tsv_field f)) fields
        >> (write_all (codes "\n") >> later))
      ≡ (lines >>= λ r. some ((copy_fields fields ++ codes "\n") ++ r))
document-line fields later lines e =
    document-follow (write_fields (codes "\t") (λ f. write_all (tsv_field f)) fields)
      (write_all (codes "\n") >> later) (copy_fields fields) (write_fields-Writes fields)
    ∙ ap (λ o. o >>= λ r. some (copy_fields fields ++ r))
        (document-follow (write_all (codes "\n")) later (codes "\n")
          (record { succeeds = refl; makes = refl }))
    ∙ sym (prefixed_twice (document later) (copy_fields fields) (codes "\n"))
    ∙ ap (λ o. o >>= λ r. some ((copy_fields fields ++ codes "\n") ++ r)) (sym e)

module _ (formats : Formats) (result : ResultSnapshot) where
  copy_lines-write_rows :
      (before after : List (List Cell))
      → result.rows ≡ before ++ after
      → copy_lines formats result (indices_from formats result (length before) (length after))
        ≡ document (
            write_rows formats
              (codes "\t")
              (codes "\n")
              (λ f. write_all (tsv_field f))
              result
              after)
  unfolding copy_lines write_rows require_row_width
  copy_lines-write_rows before [] e = refl
  copy_lines-write_rows before (row ∷ after) e =
      let found : get result.rows (length before) ≡ some row =
        ap (λ l. get l (length before)) e ∙ get-append before row after in
      let rest =
        subst
          (λ n.
            copy_lines formats result (indices_from formats result n (length after))
            ≡ document (
                write_rows formats (codes "\t") (codes "\n") (λ f. write_all (tsv_field f)) result
                  after))
          (length-snoc before row)
          (copy_lines-write_rows (before ++ row ∷ []) after
            (e ∙ sym (append_assoc before (row ∷ []) after))) in
      elim (Bool-cases (length row == length result.columns)) [
        | inr short ↦ rw found (rw short refl)
        | inl even ↦
            rw found (rw even (sym (document-line (map (clipboard_scalar formats) row) _ _ rest)))
      ]

  -- Copying all rows puts onto the clipboard exactly the document that the TSV export writes, and
  -- nothing exactly where that export refuses the result.
  pub copy_all_rows-write_tsv : copy_all_rows formats result ≡ document (write_tsv formats result)
  unfolding copy_all_rows copy_rows write_tsv write_table require_tabular
  copy_all_rows-write_tsv = elim (Bool-cases (is_empty result.columns)) [
    | inl none' ↦ rw none' refl
    | inr named ↦ rw named (
        sym (
          document-line (map (λ (c : Column). c.name) result.columns) _ _
            (copy_lines-write_rows [] result.rows refl)))
  ]
