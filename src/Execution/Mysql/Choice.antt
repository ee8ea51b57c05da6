-- ===== src/Execution/Mysql/Choice.antt =====
-- What `infer_mysql_target` of src/execution.rs sends: the one statement at the caret.
use mathlib.Core.List.{Memᴰ}
use dbotter.Prelude.{
  ℕ, ◌≤◌, ◌<◌, ◌≡◌, ◌≢◌, ◌⊎◌, ◌&&◌, leb, ltb, refl, sym, ◌∙◌, inl, inr, Bool, true, false, ◌++◌,
  List, [], ◌∷◌, Option, none, some, arith, find, Bool-cases, Option-cases, ok, err,
}
use dbotter.Text.{Text, str_len, get_range}
use dbotter.Text.Boundary.{get_range-boundaries}
use dbotter.Execution.{invalid_caret_position}
use dbotter.Execution.Scanner.{MysqlStatement, MysqlLexIssue, scan_mysql}
use dbotter.Execution.Scanner.Cursors.{unread}
use dbotter.Execution.Scanner.Chain.{IsCut, Chain, Chain-mem}
use dbotter.Execution.Scanner.Rounds.{whole-len}
use dbotter.Execution.Scanner.Bounds.{scan_mysql-Chain}
use dbotter.Execution.Mysql.{
  mysql_statement_contains, statement_text, no_statement_at, infer_from_scan, infer_mysql_target,
}

-- A cursor's text as what stands before it, in order, and what follows.
unread-append : (b s r : Text) → unread b s ++ r ≡ unread b (s ++ r)
unread-append [] s r = refl
unread-append (c ∷ b) s r = unread-append b (c ∷ s) r

IsCut-split :
    (text : Text) (i : ℕ)
    → IsCut text i
    → (p : Text) × (q : Text) × (p ++ q ≡ text) × (str_len p ≡ i)
IsCut-split text i cut =
    let b = cut.cursor.before in
    let r = cut.cursor.rest in
    (unread b [], r, unread-append b [] r ∙ cut.in_text, omega (arith, whole-len b [], cut.offset))

-- Between two cuts of a text there is a slice.
pub get_range-cuts :
    (text : Text) (i j : ℕ)
    → IsCut text i
    → IsCut text j
    → i ≤ j
    → (m : Text) × (get_range text i j ≡ some m)
get_range-cuts text i j ci cj h =
    let (p, q, e, l) = IsCut-split text i ci in
    let (p', q', e', l') = IsCut-split text j cj in
    let (m, g, _) = get_range-boundaries text p q p' q' e e' (omega arith) in (m, rw (← l, ← l') g)

-- The first hit of a search is listed and passes the test.
find-some {ℓ} :
    {A : Type ℓ} (test : A → Bool) (xs : List A) (x : A)
    → find test xs ≡ some x
    → Memᴰ x xs × (test x ≡ true)
find-some test [] x e = cc
find-some test (y ∷ ys) x e = elim (Bool-cases (test y)) [
  | inl hit ↦ let same : x ≡ y = ground arith in (Memᴰ.head same, rw same hit)
  | inr miss ↦ let (m, t) = find-some test ys x (ground arith) in (Memᴰ.tail m, t)
]

abbrev Holds : Text → ℕ → MysqlStatement → Type 0
Holds text caret statement = mysql_statement_contains statement caret (str_len text) ≡ true

-- The caret stands in front of a character of the statement, or behind the last one of a statement
-- that ends the text.
abbrev pub IsAt : Text → ℕ → MysqlStatement → Type 0
IsAt text caret s =
    ((s.start ≤ caret) × (caret < s.stop))
    ⊎ ((s.start ≤ caret) × (caret ≡ str_len text) × (s.stop ≡ str_len text))

Holds→IsAt : (text : Text) (caret : ℕ) (s : MysqlStatement) → Holds text caret s → IsAt text caret s
Holds→IsAt text caret s h = elim (Bool-cases (leb s.start caret && ltb caret s.stop)) [
  | inl inside ↦ inl (ground arith)
  | inr behind ↦ inr (ground arith)
]

-- What a successful inference has chosen.
pub record Chosen (text : Text) (caret : ℕ) (target : Text) : Type 0 where
  pub statement : MysqlStatement
  pub listed : Memᴰ statement (scan_mysql text).statements
  pub holds : IsAt text caret statement
  pub unambiguous : statement.is_ambiguous ≡ false
  pub slice : get_range text statement.start statement.stop ≡ some target

statement_text-ok :
    (text : Text) (caret : ℕ) (statement : MysqlStatement) (target : Text)
    → Memᴰ statement (scan_mysql text).statements
    → Holds text caret statement
    → statement_text text statement ≡ ok target
    → Chosen text caret target
unfolding statement_text
statement_text-ok text caret statement target m h e = elim (Bool-cases statement.is_ambiguous) [
  | inl yes' ↦ absurd (ground arith)
  | inr clear ↦ record {
    statement = statement;
    listed = m;
    holds = Holds→IsAt text caret statement h;
    unambiguous = clear;
    slice = ground arith;
  }
]

no_statement_at-fails :
    (caret : ℕ) (o : Option MysqlLexIssue) (target : Text) → no_statement_at caret o ≢ ok target
unfolding no_statement_at
no_statement_at-fails caret o target = ground arith

abbrev at_caret : Text → ℕ → Option MysqlStatement
at_caret text caret =
    find (λ s. mysql_statement_contains s caret (str_len text)) (scan_mysql text).statements

-- The two ways of an inference.
infer-found :
    (text : Text) (caret : ℕ) (s : MysqlStatement)
    → at_caret text caret ≡ some s
    → infer_mysql_target text caret ≡ statement_text text s
unfolding infer_mysql_target infer_from_scan
infer-found text caret s hit = rw (hit, infer_from_scan)

infer-missing :
    (text : Text) (caret : ℕ)
    → at_caret text caret ≡ none
    → infer_mysql_target text caret ≡ no_statement_at caret (scan_mysql text).issue
unfolding infer_mysql_target infer_from_scan
infer-missing text caret missing = rw (missing, infer_from_scan)

-- A target that is sent for the caret is the text of a statement of the scan that holds the caret
-- and whose boundary does not depend on the SQL mode. A statement holds the places in front of its
-- characters, and the one behind them at the end of the text.
pub infer_mysql_target-Chosen :
    (text : Text) (caret : ℕ) (target : Text)
    → infer_mysql_target text caret ≡ ok target
    → Chosen text caret target
infer_mysql_target-Chosen text caret target e = elim (Option-cases (at_caret text caret)) [
  | inl missing ↦ absurd (
      no_statement_at-fails caret (scan_mysql text).issue target
        (sym (infer-missing text caret missing) ∙ e))
  | inr (s, hit) ↦
      let (m, h) = find-some _ (scan_mysql text).statements s hit in
      statement_text-ok text caret s target m h (sym (infer-found text caret s hit) ∙ e)
]

-- A statement behind another does not hold a caret that the other holds.
apart :
    (text : Text) (caret : ℕ) (x y : MysqlStatement) (len : ℕ)
    → x.start < x.stop
    → mysql_statement_contains x caret len ≡ true
    → mysql_statement_contains y caret len ≡ true
    → (x.stop ≤ y.start)
      × (y.start < y.stop)
      × (y.stop ≤ len)
      × IsCut text y.start
      × IsCut text y.stop
    → ⊥
apart text caret x y len b hx hy (lo, ne, hi, _, _) = ground arith

Chain-unique :
    (text : Text) (caret lo : ℕ) (xs : List MysqlStatement) (x y : MysqlStatement)
    → Chain text lo xs (str_len text)
    → Memᴰ x xs
    → Memᴰ y xs
    → Holds text caret x
    → Holds text caret y
    → x ≡ y
Chain-unique text caret lo [] x y c mx my hx hy = elim mx [ ]
Chain-unique text caret lo (z ∷ zs) x y c (Memᴰ.head e) (Memᴰ.head e') hx hy = cc
Chain-unique text caret lo (z ∷ zs) x y (a, b, p, q, c) (Memᴰ.head e) (Memᴰ.tail m) hx hy = absurd (
    apart text caret z y (str_len text) b (rw e at hx) hy
      (Chain-mem text z.stop (str_len text) zs y c m))
Chain-unique text caret lo (z ∷ zs) x y (a, b, p, q, c) (Memᴰ.tail m) (Memᴰ.head e) hx hy = absurd (
    apart text caret z x (str_len text) b (rw e at hy) hx
      (Chain-mem text z.stop (str_len text) zs x c m))
Chain-unique text caret lo (z ∷ zs) x y (a, b, p, q, c) (Memᴰ.tail mx) (Memᴰ.tail my) hx hy =
    Chain-unique text caret z.stop zs x y c mx my hx hy

-- No two statements of a scan hold the same caret, so the choice is the only one.
pub Holds-unique :
    (text : Text) (caret : ℕ) (x y : MysqlStatement)
    → Memᴰ x (scan_mysql text).statements
    → Memᴰ y (scan_mysql text).statements
    → Holds text caret x
    → Holds text caret y
    → x ≡ y
Holds-unique text caret x y mx my hx hy =
    Chain-unique text caret 0 (scan_mysql text).statements x y (scan_mysql-Chain text) mx my hx hy

other_errors :
    (caret : ℕ) (o : Option MysqlLexIssue) → no_statement_at caret o ≢ err invalid_caret_position
unfolding no_statement_at
other_errors caret o = ground arith

sliced :
    (text : Text) (s : MysqlStatement) (slice : Text)
    → get_range text s.start s.stop ≡ some slice
    → statement_text text s ≢ err invalid_caret_position
unfolding statement_text
sliced text s slice found = ground arith

-- The scan cuts between characters, so the slice of a chosen statement always exists: the caret
-- error of that slice is never returned.
pub infer_mysql_target-ne-invalid_caret :
    (text : Text) (caret : ℕ) → infer_mysql_target text caret ≢ err invalid_caret_position
infer_mysql_target-ne-invalid_caret text caret e = elim (Option-cases (at_caret text caret)) [
  | inl missing ↦
      other_errors caret (scan_mysql text).issue (sym (infer-missing text caret missing) ∙ e)
  | inr (s, hit) ↦
      let (m, h) = find-some _ (scan_mysql text).statements s hit in
      let (lo, ne, hi, p, q) = Chain-mem text 0 (str_len text) _ s (scan_mysql-Chain text) m in
      let (slice, found) = get_range-cuts text s.start s.stop p q (omega arith) in
      sliced text s slice found (sym (infer-found text caret s hit) ∙ e)
]
