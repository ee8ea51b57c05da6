-- ===== src/Execution/Scanner/Bounds.antt =====
-- Where the statements lie that `scan_mysql` of src/execution.rs cuts out, and that its loop ends.
use dbotter.Prelude.{ℕ, ◌≤◌, ◌≡◌, refl, subst, suc, length, Option, none, some, arith}
use dbotter.Prelude.Loop.{iterate_total}
use dbotter.Text.{Text, str_len}
use dbotter.Execution.Scanner.{
  Cursor, quoted_span_loop, quoted_span, MysqlLexIssue, MysqlScan, scan_round, scan_start,
  scan_mysql_loop, scan_mysql,
}
use dbotter.Execution.Scanner.Chain.{Chain, Chain-weaken, ChainUpTo}
use dbotter.Execution.Scanner.Cursors.{quoted_span_loop-total}
use dbotter.Execution.Scanner.Rounds.{Inv, scan_round-Owed}

scan_loop_result :
    (text : Text) → (scan : MysqlScan) × (scan_mysql_loop text ≡ some scan) × ChainUpTo text scan
unfolding scan_mysql_loop
scan_loop_result text =
    iterate_total (Inv text) (ChainUpTo text) (λ s. length s.at.rest) scan_round
      (λ s v.
        scan_round-Owed text s.at.before s.at.rest s.statements s.pending s.stray_terminator v)
      (suc (length text)) (scan_start text) (omega arith)
      (record { in_text = refl; pends = omega arith })

scan_mysql-ends : (text : Text) → scan_mysql_loop text ≡ some (scan_mysql text)
unfolding scan_mysql
scan_mysql-ends text = let (scan, e, h) = scan_loop_result text in rw e

-- The two loops of the scanner end by their own exits: the one over a text, on every text, and the
-- one over a quoted token, from every place and for every delimiter. Their fuel does not run out, so a
-- token is taken for unclosed only where the text ends.
pub scan_mysql-total :
    (text : Text) (start : Cursor) (delimiter : ℕ)
    → (scan_mysql_loop text ≡ some (scan_mysql text))
      × (quoted_span_loop start delimiter ≡ some (quoted_span start delimiter))
scan_mysql-total text start delimiter =
    (scan_mysql-ends text, quoted_span_loop-total start delimiter)

-- The statements of a scan are not empty, stand in their order without overlap, begin and end at
-- character boundaries, and end within the text, or before the unclosed token where there is one;
-- the place of that token lies in the text.
pub scan_mysql-ChainUpTo : (text : Text) → ChainUpTo text (scan_mysql text)
scan_mysql-ChainUpTo text =
    let (scan, e, h) = scan_loop_result text in
    let same : scan ≡ scan_mysql text = cc (scan_mysql-ends text) in subst (ChainUpTo text) same h

pub scan_mysql-Chain : (text : Text) → Chain text 0 (scan_mysql text).statements (str_len text)
scan_mysql-Chain text = by_issue (scan_mysql text).issue refl
  where
    by_issue :
        (o : Option MysqlLexIssue)
        → (scan_mysql text).issue ≡ o
        → Chain text 0 (scan_mysql text).statements (str_len text)
    by_issue none e = rw e at (scan_mysql-ChainUpTo text)
    by_issue (some issue) e =
        let (c, h) : Chain text 0 (scan_mysql text).statements issue.statement_start
            × (issue.statement_start ≤ str_len text) =
          rw e at (scan_mysql-ChainUpTo text) in
        Chain-weaken text 0 issue.statement_start (str_len text) _ h c
