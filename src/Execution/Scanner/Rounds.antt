-- ===== src/Execution/Scanner/Rounds.antt =====
-- One round of the loop of `scan_mysql` in src/execution.rs keeps the order of the statements and
-- takes at least a character.
use dbotter.Prelude.{
  ℕ, suc, ◌+◌, ◌≤◌, ◌≡◌, refl, ap, ◌∙◌, inl, inr, Bool, true, false, ◌||◌, List, [], ◌∷◌, Option,
  none, some, arith, length, ◌==◌, Bool-cases,
}
use dbotter.Prelude.Loop.{Owes, Round}
use dbotter.Text.{Text, str_len, is_whitespace, len_utf8}
use dbotter.Execution.Scanner.{
  at_issue, Cursor, index, step_over, next_char_boundary, PendingMysqlStatement, MysqlStatement,
  MysqlScan, unwrap_or, mark_executable, finish, mysql_dash_comment_starts, block_comment_starts,
  block_comment_end, quoted_span, QuotedSpan, ScanState, scan_end, scan_block_comment, scan_quote,
  scan_terminator, scan_character, is_quote, scan_round_at, scan_round,
}
use dbotter.Execution.Scanner.Cursors.{
  whole, Beyond, step_over-Beyond, step_over-Follows, line_comment_end-Beyond,
  block_comment_end-Follows, quoted_span-Beyond,
}
use dbotter.Execution.Scanner.Chain.{
  IsCut, Chain, Chain-weaken, Chain-append, Waits, Pends, ChainUpTo, Waits-later, mark-Waits,
  Waits-start, end-Chain,
}

pub record Inv (text : Text) (s : ScanState) : Type 0 where
  pub in_text : whole s.at ≡ text
  pub pends : Pends text s.statements (index s.at) s.pending

-- The end of the text is the last cut.
pub whole-len :
    (b r : Text) → str_len (whole (record { before = b; rest = r })) ≡ str_len b + str_len r
whole-len [] r = omega arith
whole-len (c ∷ b) r = omega (arith, whole-len b (c ∷ r))

abbrev pub Owed : Text → ℕ → Round ScanState MysqlScan → Type 0
Owed text = Owes (Inv text) (ChainUpTo text) (λ s. length s.at.rest)

module _ (text : Text) (s : ScanState) (v : Inv text s) where
  here : IsCut text (index s.at)
  here = record { cursor = s.at; in_text = v.in_text; offset = refl }

  index-le-len : index s.at ≤ str_len text
  index-le-len = omega (arith, whole-len s.at.before s.at.rest, ap str_len v.in_text)

  issue-ChainUpTo :
      (p : PendingMysqlStatement)
      → Chain text 0 s.statements (unwrap_or p.first_executable (index s.at))
      → unwrap_or p.first_executable (index s.at) ≤ index s.at
      → ChainUpTo text (at_issue s p)
  issue-ChainUpTo p c h = (c, omega (arith, index-le-len))

  module _ (d : Cursor) (moved : Beyond s.at d) where
    there : IsCut text (index d)
    there = record { cursor = d; in_text = moved.same_text ∙ v.in_text; offset = refl }

    skipped-Inv : Inv text (record s { at = d })
    skipped-Inv = record {
      in_text = moved.same_text ∙ v.in_text;
      pends =
          Waits-later text s.statements (index s.at) (index d) s.pending.first_executable
            s.pending.last_executable_end (omega (arith, moved.index_lt)) v.pends;
    }

    marked-Inv :
        (a : Bool)
        → Inv text (record s {
          at = d;
          pending = record {
            first_executable = some (unwrap_or s.pending.first_executable (index s.at));
            last_executable_end = index d;
            is_ambiguous = a;
          };
        })
    marked-Inv a = record {
      in_text = moved.same_text ∙ v.in_text;
      pends =
          mark-Waits text s.statements (index s.at) (index d) s.pending.first_executable
            s.pending.last_executable_end moved.index_lt here there v.pends;
    }

    terminated-Inv :
        (first : Option ℕ) (stop : ℕ) (a : Bool)
        → Waits text s.statements (index s.at) first stop
        → Inv text (
            scan_terminator s d (
              finish
                (record { first_executable = first; last_executable_end = stop; is_ambiguous = a })
                (index d)))
    unfolding scan_terminator finish
    terminated-Inv none stop a w = record {
      in_text = moved.same_text ∙ v.in_text;
      pends =
          Waits-later text s.statements (index s.at) (index d) none stop
            (omega (arith, moved.index_lt)) w;
    }
    terminated-Inv (some start) stop a (c, p, x, y, q) = record {
      in_text = moved.same_text ∙ v.in_text;
      pends = Chain-append text 0 s.statements _ c (omega (arith, moved.index_lt)) p there;
    }

    character-Inv : (c : ℕ) → Inv text (scan_character s c d)
    unfolding scan_character mark_executable
    character-Inv c = elim (Bool-cases (is_whitespace c)) [
      | inl blank ↦ rw blank skipped-Inv
      | inr visible ↦ rw visible (marked-Inv s.pending.is_ambiguous)
    ]

  block_comment-Owed :
      (m : ℕ) (o : Option Cursor) (version : Bool)
      → ((d : Cursor) → o ≡ some d → Beyond s.at d)
      → length s.at.rest ≤ m
      → Owed text m (scan_block_comment s o version)
  unfolding scan_block_comment mark_executable
  block_comment-Owed m none version moves le =
      let (c, h) =
        Waits-start text s.statements (index s.at) s.pending.first_executable
          s.pending.last_executable_end v.pends in
      issue-ChainUpTo s.pending c h
  block_comment-Owed m (some d) true moves le =
      (marked-Inv d (moves d refl) s.pending.is_ambiguous, omega (arith, (moves d refl).rest_lt))
  block_comment-Owed m (some d) false moves le =
      (skipped-Inv d (moves d refl), omega (arith, (moves d refl).rest_lt))

  quote-Owed :
      (m : ℕ) (o : Option QuotedSpan) (odd : Bool)
      → ((q : QuotedSpan) → o ≡ some q → Beyond s.at q.stop)
      → length s.at.rest ≤ m
      → Owed text m (scan_quote s (mark_executable s.pending (index s.at) (index s.at + 1)) odd o)
  unfolding scan_quote mark_executable
  quote-Owed m none odd moves le =
      let (c, h) =
        Waits-start text s.statements (index s.at) s.pending.first_executable
          s.pending.last_executable_end v.pends in
      (c, omega (arith, index-le-len))
  quote-Owed m (some q) odd moves le =
      (marked-Inv q.stop (moves q refl) _, omega (arith, (moves q refl).rest_lt))

abbrev pub state : Text → Text → List MysqlStatement → PendingMysqlStatement → Bool → ScanState
state b r statements pending stray = record {
  at = record { before = b; rest = r };
  statements = statements;
  pending = pending;
  stray_terminator = stray;
}

module _ (text : Text) (b : Text) (c : ℕ) (cs : Text) (statements : List MysqlStatement)
    (p : PendingMysqlStatement) (stray : Bool)
    (v : Inv text (state b (c ∷ cs) statements p stray)) where
  comment_mark-ne-newline :
      (c == b'#' || mysql_dash_comment_starts (c ∷ cs)) ≡ true → (c == 10) ≡ false
  unfolding mysql_dash_comment_starts
  comment_mark-ne-newline h = ground arith

  block_moves :
      let inside = step_over (c ∷ b) cs in
      (d : Cursor)
      → block_comment_end inside.before inside.rest ≡ some d
      → Beyond (state b (c ∷ cs) statements p stray).at d
  block_moves d e =
      let inside = step_over (c ∷ b) cs in
      ground (
        arith,
        step_over-Beyond b c cs,
        step_over-Follows (c ∷ b) cs,
        block_comment_end-Follows inside.before inside.rest d e,
      )

  quote_moves :
      (q : QuotedSpan)
      → quoted_span (state b (c ∷ cs) statements p stray).at c ≡ some q
      → Beyond (state b (c ∷ cs) statements p stray).at q.stop
  quote_moves q e = rw e at (quoted_span-Beyond b c cs c)

  semicolon_width : (c == b';') ≡ true → str_len b + 1 ≡ len_utf8 c + str_len b
  semicolon_width h = ground arith

  rest_terminated :
      let s = state b (c ∷ cs) statements p stray in
      suc (
        length
          (scan_terminator s (next_char_boundary s.at) (finish p (len_utf8 c + str_len b))).at.rest)
      ≤ suc (length cs)
  unfolding scan_terminator finish
  rest_terminated = ground arith

  -- Every round keeps the invariant and takes at least a character, or ends with the promise.
  round-Owed :
      Owed text (suc (length cs)) (scan_round_at (state b (c ∷ cs) statements p stray) c cs)
  unfolding scan_round_at
  round-Owed =
      let s = state b (c ∷ cs) statements p stray in
      let over = step_over-Beyond b c cs in
      elim (Bool-cases (c == b'#' || mysql_dash_comment_starts (c ∷ cs))) [
        | inl comment ↦
            let moved = line_comment_end-Beyond b c cs (comment_mark-ne-newline comment) in
            rw comment (skipped-Inv text s v _ moved, moved.rest_lt)
        | inr code ↦ elim (Bool-cases (block_comment_starts (c ∷ cs))) [
          | inl block ↦
              rw (code, block)
                (block_comment-Owed text s v (suc (length cs)) _ _ block_moves (omega arith))
          | inr plain ↦ elim (Bool-cases (is_quote c)) [
            | inl quote ↦
                rw (code, plain, quote)
                  (quote-Owed text s v (suc (length cs)) _ _ quote_moves (omega arith))
            | inr unquoted ↦ elim (Bool-cases (c == b';')) [
              | inl semicolon ↦
                  rw (code, plain, unquoted, semicolon, semicolon_width semicolon)
                    (
                      terminated-Inv text s v _ over p.first_executable p.last_executable_end
                          p.is_ambiguous v.pends,
                      rest_terminated,
                    )
              | inr other ↦
                  rw (code, plain, unquoted, other) (character-Inv text s v _ over c, omega arith)
            ]
          ]
        ]
      ]

pub scan_round-Owed :
    (text : Text) (b r : Text) (statements : List MysqlStatement) (p : PendingMysqlStatement)
    (stray : Bool)
    → Inv text (state b r statements p stray)
    → Owed text (length r) (scan_round (state b r statements p stray))
unfolding scan_round scan_end
scan_round-Owed text b [] statements p stray v =
    Chain-weaken text 0 (str_len b) (str_len text) _ (index-le-len text _ v) (
      end-Chain text statements (str_len b) p.first_executable p.is_ambiguous p.last_executable_end
        v.pends)
scan_round-Owed text b (c ∷ cs) statements p stray v = round-Owed text b c cs statements p stray v
