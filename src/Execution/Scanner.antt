-- ===== src/Execution/Scanner.antt =====
-- `scan_mysql` of src/execution.rs: it cuts an editor text into statements, past comments and
-- quoted tokens. A position in the text is a cursor, the characters before it (last first) and
-- those from it; `index` is the byte index that the source keeps.
use dbotter.Prelude.{
  ℕ, zero, suc, ◌+◌, ◌%◌, Bool, true, false, ◌&&◌, ◌||◌, not, List, [], ◌∷◌, ◌++◌, Option, none,
  some, leb, ltb, ◌==◌, if◌then◌else◌, length,
}
use dbotter.Prelude.Loop.{Round, again, leave, iterate}
use dbotter.Text.{Text, str_len, is_whitespace, is_ascii_whitespace, is_ascii_control}
pub mod Cursors
pub mod Chain
pub mod Rounds
pub mod Bounds

pub record Cursor : Type 0 where
  pub before : Text
  pub rest : Text

abbrev pub index : Cursor → ℕ
index c = str_len c.before

-- `next_char_boundary`: over one character; the end of the text stays.
abbrev pub step_over : Text → Text → Cursor
step_over b [] = record { before = b; rest = [] }
step_over b (c ∷ cs) = record { before = c ∷ b; rest = cs }

abbrev pub next_char_boundary : Cursor → Cursor
next_char_boundary c = step_over c.before c.rest

pub record PendingMysqlStatement : Type 0 where
  pub first_executable : Option ℕ
  pub last_executable_end : ℕ
  pub is_ambiguous : Bool

abbrev pub no_pending : PendingMysqlStatement
no_pending = record { first_executable = none; last_executable_end = 0; is_ambiguous = false }

pub record MysqlStatement : Type 0 where
  pub start : ℕ
  pub stop : ℕ
  pub is_ambiguous : Bool

pub record MysqlLexIssue : Type 0 where
  pub statement_start : ℕ
  pub is_ambiguous : Bool

pub record MysqlScan : Type 0 where
  pub statements : List MysqlStatement
  pub issue : Option MysqlLexIssue
  pub stray_terminator : Bool

pub record QuotedSpan : Type 0 where
  pub stop : Cursor
  pub is_ambiguous : Bool

abbrev pub unwrap_or : Option ℕ → ℕ → ℕ
unwrap_or none d = d
unwrap_or (some a) d = a

pub mark_executable : PendingMysqlStatement → ℕ → ℕ → PendingMysqlStatement
mark_executable p start stop = record p {
  first_executable = some (unwrap_or p.first_executable start);
  last_executable_end = stop;
}

pub finish : PendingMysqlStatement → ℕ → Option MysqlStatement × PendingMysqlStatement
finish p stop = elim p.first_executable [
  | none ↦ (none, p)
  | some start ↦
      (some (record { start = start; stop = stop; is_ambiguous = p.is_ambiguous }), no_pending)
]

-- The text from the cursor begins with `--` and a blank or control character. No byte of a
-- character beyond ASCII is one.
pub mysql_dash_comment_starts : Text → Bool
mysql_dash_comment_starts (a ∷ b ∷ c ∷ cs) =
    a == b'-' && b == b'-' && (is_ascii_whitespace c || is_ascii_control c)
mysql_dash_comment_starts _ = false

-- At the end of the line, before its `\n`.
pub line_comment_end : Text → Text → Cursor
line_comment_end b [] = record { before = b; rest = [] }
line_comment_end b (c ∷ cs) =
    let later = line_comment_end (c ∷ b) cs in
    if c == 10 then record { before = b; rest = c ∷ cs } else later

pub block_comment_starts : Text → Bool
block_comment_starts (a ∷ b ∷ cs) = a == b'/' && b == b'*'
block_comment_starts _ = false

-- Behind the first `*/` from here.
pub block_comment_end : Text → Text → Option Cursor
block_comment_end b [] = none
block_comment_end b (c ∷ []) = none
block_comment_end b (c ∷ d ∷ cs) =
    let later = block_comment_end (c ∷ b) (d ∷ cs) in
    if c == b'*' && d == b'/' then some (record { before = d ∷ c ∷ b; rest = cs }) else later

abbrev pub begins_with : ℕ → Text → Bool
begins_with a [] = false
begins_with a (c ∷ cs) = c == a

-- `while bytes.get(index) == Some(&b'\\') { index += 1 }`, with the length of the run.
pub skip_backslashes : Text → Text → ℕ → Cursor × ℕ
skip_backslashes b [] run = (record { before = b; rest = [] }, run)
skip_backslashes b (c ∷ cs) run =
    let longer = skip_backslashes (c ∷ b) cs (suc run) in
    if c == b'\\' then longer else (record { before = b; rest = c ∷ cs }, run)

abbrev pub is_odd : ℕ → Bool
is_odd n = n % 2 == 1

record Quote : Type 0 where
  pub at : Cursor
  pub is_ambiguous : Bool

-- Behind a run of backslashes in a quoted token.
quote_escape : ℕ → Bool → Cursor × ℕ → Round Quote (Option QuotedSpan)
quote_escape delimiter ambiguous (c, run) = elim c.rest [
  | [] ↦ leave none
  | d ∷ ds ↦ again (record {
    at = if is_odd run then next_char_boundary c else c;
    is_ambiguous = ambiguous || (d == delimiter && not (delimiter == b'`') && is_odd run);
  })
]

-- One round of the loop of `quoted_span`.
quote_round : ℕ → Quote → Round Quote (Option QuotedSpan)
unfolding quote_escape
quote_round delimiter q = elim q.at.rest [
  | [] ↦ leave none
  | d ∷ ds ↦
      if d == b'\\'
      then quote_escape delimiter q.is_ambiguous (skip_backslashes q.at.before (d ∷ ds) 0)
      else if d == delimiter
      then if begins_with delimiter ds
        then again (record { at = step_over (d ∷ q.at.before) ds; is_ambiguous = q.is_ambiguous })
        else leave (
            some (record {
              stop = record { before = d ∷ q.at.before; rest = ds };
              is_ambiguous = q.is_ambiguous;
            }))
      else again (record { at = next_char_boundary q.at; is_ambiguous = q.is_ambiguous })
]

abbrev pub join {ℓ} : {A : Type ℓ} → Option (Option A) → Option A
join none = none
join (some o) = o

-- The loop: `none` where the fuel runs out, `some none` where the token is not closed.
pub quoted_span_loop : Cursor → ℕ → Option (Option QuotedSpan)
unfolding iterate quote_round
quoted_span_loop start delimiter =
    let inside = next_char_boundary start in
    iterate (suc (length inside.rest)) (quote_round delimiter)
      (record { at = inside; is_ambiguous = false })

-- `none` where the token is not closed. Each round takes a character, so the fuel suffices.
pub quoted_span : Cursor → ℕ → Option QuotedSpan
unfolding quoted_span_loop
quoted_span start delimiter = join (quoted_span_loop start delimiter)

abbrev pub leading_backslashes : Text → ℕ
leading_backslashes [] = 0
leading_backslashes (c ∷ cs) =
    let more = leading_backslashes cs in if c == b'\\' then suc more else 0

-- `before` is reversed, so the run before the cursor leads it.
abbrev pub odd_backslash_run_before : Cursor → Bool
odd_backslash_run_before c = is_odd (leading_backslashes c.before)

pub record ScanState : Type 0 where
  pub at : Cursor
  pub statements : List MysqlStatement
  pub pending : PendingMysqlStatement
  pub stray_terminator : Bool

abbrev pub at_issue : ScanState → PendingMysqlStatement → MysqlScan
at_issue s p = record {
  statements = s.statements;
  issue = some (record {
    statement_start = unwrap_or p.first_executable (index s.at);
    is_ambiguous = p.is_ambiguous;
  });
  stray_terminator = s.stray_terminator;
}

abbrev pub append_statement : List MysqlStatement → Option MysqlStatement → List MysqlStatement
append_statement statements none = statements
append_statement statements (some s) = statements ++ s ∷ []

-- Behind the loop: what is pending ends at its last executable byte.
scan_end : ScanState → MysqlScan
scan_end s = record {
  statements = append_statement s.statements (finish s.pending s.pending.last_executable_end).0;
  issue = none;
  stray_terminator = s.stray_terminator;
}

scan_block_comment : ScanState → Option Cursor → Bool → Round ScanState MysqlScan
scan_block_comment s none version = leave (at_issue s s.pending)
scan_block_comment s (some stop) version = again (record s {
  at = stop;
  pending = if version then mark_executable s.pending (index s.at) (index stop) else s.pending;
})

scan_quote :
    ScanState → PendingMysqlStatement → Bool → Option QuotedSpan → Round ScanState MysqlScan
scan_quote s p odd_before none =
    leave (at_issue s (record p { is_ambiguous = p.is_ambiguous || odd_before }))
scan_quote s p odd_before (some quoted) =
    let marked = mark_executable p (index s.at) (index quoted.stop) in
    again (record s {
      at = quoted.stop;
      pending = record marked {
        is_ambiguous = marked.is_ambiguous || (odd_before || quoted.is_ambiguous);
      };
    })

scan_terminator : ScanState → Cursor → Option MysqlStatement × PendingMysqlStatement → ScanState
scan_terminator s next (none, p) = record s { at = next; pending = p; stray_terminator = true }
scan_terminator s next (some statement, p) = record s {
  at = next;
  statements = s.statements ++ statement ∷ [];
  pending = p;
}

scan_character : ScanState → ℕ → Cursor → ScanState
scan_character s byte next = record s {
  at = next;
  pending =
      if is_whitespace byte then s.pending else mark_executable s.pending (index s.at) (index next);
}

abbrev pub is_quote : ℕ → Bool
is_quote c = c == b'\'' || c == b'"' || c == b'`'

-- One round of the loop of `scan_mysql`, at a character.
scan_round_at : ScanState → ℕ → Text → Round ScanState MysqlScan
unfolding scan_block_comment scan_quote scan_terminator scan_character
scan_round_at s c cs =
    let next = next_char_boundary s.at in
    let inside = next_char_boundary next in
    if c == b'#' || mysql_dash_comment_starts (c ∷ cs)
    then again (record s { at = line_comment_end s.at.before (c ∷ cs) })
    else if block_comment_starts (c ∷ cs)
    then scan_block_comment s (block_comment_end inside.before inside.rest)
        (begins_with b'!' inside.rest)
    else if is_quote c
    then scan_quote s (mark_executable s.pending (index s.at) (index s.at + 1))
        (not (c == b'`') && odd_backslash_run_before s.at) (quoted_span s.at c)
    else if c == b';'
    then again (scan_terminator s next (finish s.pending (index s.at + 1)))
    else again (scan_character s c next)

pub scan_round : ScanState → Round ScanState MysqlScan
unfolding scan_round_at scan_end
scan_round s = elim s.at.rest [ [] ↦ leave (scan_end s) | c ∷ cs ↦ scan_round_at s c cs ]

abbrev pub scan_start : Text → ScanState
scan_start text = record {
  at = record { before = []; rest = text };
  statements = [];
  pending = no_pending;
  stray_terminator = false;
}

-- `none` means that the fuel ran out, which `scan_mysql-total` excludes.
pub scan_mysql_loop : Text → Option MysqlScan
unfolding iterate scan_round
scan_mysql_loop text = iterate (suc (length text)) scan_round (scan_start text)

unfoldable pub scan_mysql : Text → MysqlScan
unfolding scan_mysql_loop mark_executable finish mysql_dash_comment_starts line_comment_end
    block_comment_starts block_comment_end quoted_span skip_backslashes
scan_mysql text = elim (scan_mysql_loop text) [
  | none ↦ record { statements = []; issue = none; stray_terminator = false }
  | some scan ↦ scan
]
