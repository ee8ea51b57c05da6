-- ===== src/Drivers/Catalog/Quoting.antt =====
-- The identifiers that src/drivers/mysql_catalog.rs quotes, read by the rules of MySQL.
use dbotter.Prelude.{
  ℕ, ◌≡◌, refl, ap, ◌∙◌, inl, inr, false, Option, none, some, [], ◌∷◌, ◌++◌, arith, ◌==◌,
  if◌then◌else◌, Bool-cases,
}
use mathlib.Core.List.{append_assoc}
use dbotter.Text.{Text, codes}
use dbotter.Drivers.Catalog.{double_backticks, quote_mysql_identifier, bounded_select_template}

-- The rest of a quoted identifier behind its opening backtick: two backticks are one of the name,
-- and a single one ends it.
abbrev pub prepend : ℕ → Option (Text × Text) → Option (Text × Text)
prepend c none = none
prepend c (some (name, rest)) = some (c ∷ name, rest)

abbrev pub read_rest : Text → Option (Text × Text)
read_rest [] = none
read_rest (c ∷ []) = if c == 96 then some ([], []) else none
read_rest (c ∷ d ∷ cs) =
    let doubled = read_rest cs in
    let later = read_rest (d ∷ cs) in
    if c == 96 then (if d == 96 then prepend 96 doubled else some ([], d ∷ cs)) else prepend c later

abbrev pub read_identifier : Text → Option (Text × Text)
read_identifier [] = none
read_identifier (c ∷ cs) = if c == 96 then read_rest cs else none

read_rest-plain :
    (c : ℕ) (s : Text) → (c == 96) ≡ false → read_rest (c ∷ s) ≡ prepend c (read_rest s)
read_rest-plain c [] h = rw h refl
read_rest-plain c (d ∷ s) h = rw h refl

read_rest-double :
    (name : Text) (d : ℕ) (rest : Text)
    → (d == 96) ≡ false
    → read_rest (double_backticks name ++ 96 ∷ d ∷ rest) ≡ some (name, d ∷ rest)
read_rest-double [] d rest h = rw h refl
read_rest-double (c ∷ cs) d rest h = elim (Bool-cases (c == 96)) [
  | inl quote ↦
      let e : 96 ≡ c = ground arith in
      rw quote (rw quote (rw (read_rest-double cs d rest h) (ap (λ x. some (x ∷ cs, d ∷ rest)) e)))
  | inr other ↦ rw other (read_rest-plain c _ other ∙ ap (prepend c) (read_rest-double cs d rest h))
]

-- A quoted identifier is read back as it was, whatever is in it, when no backtick follows.
read_identifier-quote :
    (name : Text) (d : ℕ) (rest : Text)
    → (d == 96) ≡ false
    → read_identifier (quote_mysql_identifier name ++ d ∷ rest) ≡ some (name, d ∷ rest)
unfolding quote_mysql_identifier
read_identifier-quote name d rest h =
    ap read_rest (append_assoc (double_backticks name) (96 ∷ []) (d ∷ rest))
    ∙ read_rest-double name d rest h

-- `SELECT * FROM`, two identifiers with a dot between them, and what stands behind them.
abbrev skip : Text → Text → Option Text
skip [] s = some s
skip (c ∷ cs) [] = none
skip (c ∷ cs) (d ∷ s) = let rest = skip cs s in if c == d then rest else none

abbrev with_second : Text → Option (Text × Text) → Option (Text × Text × Text)
with_second first none = none
with_second first (some (second, rest)) = some (first, second, rest)

abbrev after_dot : Text → Option Text → Option (Text × Text × Text)
after_dot first none = none
after_dot first (some s) = with_second first (read_identifier s)

abbrev after_first : Option (Text × Text) → Option (Text × Text × Text)
after_first none = none
after_first (some (first, rest)) = after_dot first (skip (codes ".") rest)

abbrev after_from : Option Text → Option (Text × Text × Text)
after_from none = none
after_from (some s) = after_first (read_identifier s)

abbrev pub read_template : Text → Option (Text × Text × Text)
read_template s = after_from (skip (codes "SELECT * FROM ") s)

-- The statement that is put into the editor for a relation reads, by the rules of MySQL, as the
-- selection from exactly that schema and relation, whatever characters their names have, and ends in
-- its limit.
pub read_template-bounded_select_template :
    (schema relation : Text)
    → read_template (bounded_select_template schema relation)
      ≡ some (schema, relation, codes " LIMIT 500")
unfolding bounded_select_template
read_template-bounded_select_template schema relation =
    ap after_first (read_identifier-quote schema 46 _ refl)
    ∙ ap (with_second schema) (read_identifier-quote relation 32 _ refl)
