-- ===== src/Execution/Scanner/Cursors.antt =====
-- The cursors that the scanner of src/execution.rs moves: every move stays on the text and goes
-- forward.
use dbotter.Prelude.{
  ℕ, suc, ◌≤◌, ◌<◌, ◌≡◌, refl, inl, inr, Bool, true, false, [], ◌∷◌, Option, none, some, arith,
  length, ◌==◌, Bool-cases,
}
use dbotter.Prelude.Loop.{Owes, iterate_total}
use dbotter.Text.{Text}
use dbotter.Text.Boundary.{len_utf8_pos}
use dbotter.Execution.Scanner.{
  Cursor, index, step_over, next_char_boundary, line_comment_end, block_comment_end,
  skip_backslashes, QuotedSpan, quote_escape, quote_round, quoted_span_loop, quoted_span, join,
}

-- The text that a cursor stands in.
abbrev pub unread : Text → Text → Text
unread [] r = r
unread (c ∷ b) r = unread b (c ∷ r)

abbrev pub whole : Cursor → Text
whole c = unread c.before c.rest

-- `d` stands in the same text as `c`, not before it.
pub record Follows (c d : Cursor) : Type 0 where
  pub same_text : whole d ≡ whole c
  pub index_le : index c ≤ index d
  pub rest_le : length d.rest ≤ length c.rest

-- Behind it by a character or more.
pub record Beyond (c d : Cursor) : Type 0 where
  pub same_text : whole d ≡ whole c
  pub index_lt : index c < index d
  pub rest_lt : length d.rest < length c.rest

abbrev at : Text → Text → Cursor
at b r = record { before = b; rest = r }

pub step_over-Beyond :
    (b : Text) (c : ℕ) (cs : Text) → Beyond (at b (c ∷ cs)) (step_over b (c ∷ cs))
step_over-Beyond b c cs = record {
  same_text = refl;
  index_lt = omega (arith, len_utf8_pos c);
  rest_lt = omega arith;
}

pub step_over-Follows : (b r : Text) → Follows (at b r) (step_over b r)
step_over-Follows b [] = record { same_text = refl; index_le = omega arith; rest_le = omega arith }
step_over-Follows b (c ∷ cs) = record {
  same_text = refl;
  index_le = omega arith;
  rest_le = omega arith;
}

pub line_comment_end-Follows : (b r : Text) → Follows (at b r) (line_comment_end b r)
unfolding line_comment_end
line_comment_end-Follows b [] = record {
  same_text = refl;
  index_le = omega arith;
  rest_le = omega arith;
}
line_comment_end-Follows b (c ∷ cs) = ground (arith, line_comment_end-Follows (c ∷ b) cs)

-- A comment mark is no line end, so the comment takes at least its first character.
pub line_comment_end-Beyond :
    (b : Text) (c : ℕ) (cs : Text)
    → (c == 10) ≡ false
    → Beyond (at b (c ∷ cs)) (line_comment_end b (c ∷ cs))
unfolding line_comment_end
line_comment_end-Beyond b c cs h =
    ground (arith, line_comment_end-Follows (c ∷ b) cs, len_utf8_pos c)

pub block_comment_end-Follows :
    (b r : Text) (d : Cursor) → block_comment_end b r ≡ some d → Follows (at b r) d
unfolding block_comment_end
block_comment_end-Follows b [] d h = cc
block_comment_end-Follows b (c ∷ []) d h = cc
block_comment_end-Follows b (c ∷ c' ∷ cs) d h =
    ground (arith, block_comment_end-Follows (c ∷ b) (c' ∷ cs) d)

pub skip_backslashes-Follows :
    (b r : Text) (run : ℕ) → Follows (at b r) (skip_backslashes b r run).0
unfolding skip_backslashes
skip_backslashes-Follows b [] run = record {
  same_text = refl;
  index_le = omega arith;
  rest_le = omega arith;
}
skip_backslashes-Follows b (c ∷ cs) run =
    ground (arith, skip_backslashes-Follows (c ∷ b) cs (suc run))

skip_backslashes-Beyond :
    (b : Text) (c : ℕ) (cs : Text)
    → (c == b'\\') ≡ true
    → Beyond (at b (c ∷ cs)) (skip_backslashes b (c ∷ cs) 0).0
unfolding skip_backslashes
skip_backslashes-Beyond b c cs h =
    ground (arith, skip_backslashes-Follows (c ∷ b) cs 1, len_utf8_pos c)

-- A quoted token that closes does so beyond its opening mark.
abbrev SpanBeyond : Cursor → Option QuotedSpan → Type 0
SpanBeyond start none = Unit
SpanBeyond start (some span) = Beyond start span.stop

module _ (start : Cursor) (delimiter : ℕ) where
  quote_escape-Owes :
      (m : ℕ) (d : Cursor) (run : ℕ) (ambiguous : Bool)
      → Beyond start d
      → length d.rest < m
      → Owes
          (λ q. Beyond start q.at)
          (SpanBeyond start)
          (λ q. length q.at.rest)
          m
          (quote_escape delimiter ambiguous (d, run))
  unfolding quote_escape
  quote_escape-Owes m d run ambiguous h lt = ground (arith, step_over-Follows d.before d.rest)

  quote_round-Owes :
      (b r : Text) (ambiguous : Bool)
      → Beyond start (at b r)
      → Owes
          (λ q. Beyond start q.at)
          (SpanBeyond start)
          (λ q. length q.at.rest)
          (length r)
          (quote_round delimiter (record { at = at b r; is_ambiguous = ambiguous }))
  unfolding quote_round
  quote_round-Owes b [] ambiguous h = tt
  quote_round-Owes b (c ∷ cs) ambiguous h = elim (Bool-cases (c == b'\\')) [
    | inl slash ↦
        let skipped = skip_backslashes b (c ∷ cs) 0 in
        let moved = skip_backslashes-Beyond b c cs slash in
        rw slash (
          quote_escape-Owes (suc (length cs)) skipped.0 skipped.1 ambiguous (ground (arith, moved))
            moved.rest_lt)
    | inr other ↦ rw other (ground (arith, step_over-Beyond b c cs, step_over-Follows (c ∷ b) cs))
  ]

quoted_span_loop-Beyond :
    (b : Text) (c : ℕ) (cs : Text) (delimiter : ℕ)
    → (r : Option QuotedSpan) × (quoted_span_loop (at b (c ∷ cs)) delimiter ≡ some r)
      × SpanBeyond (at b (c ∷ cs)) r
unfolding quoted_span_loop
quoted_span_loop-Beyond b c cs delimiter =
    let start = at b (c ∷ cs) in
    let inside = next_char_boundary start in
    iterate_total (λ k. Beyond start k.at) (SpanBeyond start) (λ k. length k.at.rest)
      (quote_round delimiter)
      (λ k h. quote_round-Owes start delimiter k.at.before k.at.rest k.is_ambiguous h)
      (suc (length inside.rest)) (record { at = inside; is_ambiguous = false }) (omega arith)
      (step_over-Beyond b c cs)

pub quoted_span-Beyond :
    (b : Text) (c : ℕ) (cs : Text) (delimiter : ℕ)
    → SpanBeyond (at b (c ∷ cs)) (quoted_span (at b (c ∷ cs)) delimiter)
unfolding quoted_span
quoted_span-Beyond b c cs delimiter =
    let (r, e, q) = quoted_span_loop-Beyond b c cs delimiter in rw (e, join) q

-- The loop over a quoted token ends by its own exits, wherever it begins.
pub quoted_span_loop-total :
    (start : Cursor) (delimiter : ℕ)
    → quoted_span_loop start delimiter ≡ some (quoted_span start delimiter)
unfolding quoted_span
quoted_span_loop-total start delimiter = by_rest start.before start.rest
  where
    by_rest :
        (b r : Text)
        → quoted_span_loop (at b r) delimiter ≡ some (join (quoted_span_loop (at b r) delimiter))
    by_rest b [] = unfold quoted_span_loop in refl
    by_rest b (c ∷ cs) =
        let (r, e, q) = quoted_span_loop-Beyond b c cs delimiter in rw (e, join) refl
