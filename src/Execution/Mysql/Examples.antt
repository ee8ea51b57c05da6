-- ===== src/Execution/Mysql/Examples.antt =====
-- The theorems on the MySQL side of src/execution.rs at concrete inputs.
use mathlib.Core.List.{Memᴰ}
use dbotter.Prelude.{◌≡◌, ◌≢◌, refl, true, false, [], some, ok, err}
use dbotter.Text.{Text, codes, str_len, get_range}
use dbotter.Execution.{invalid_caret_position}
use dbotter.Execution.Scanner.{
  Cursor, MysqlStatement, quoted_span_loop, quoted_span, scan_mysql, scan_mysql_loop,
}
use dbotter.Execution.Scanner.Chain.{ChainUpTo}
use dbotter.Execution.Scanner.Bounds.{scan_mysql-total, scan_mysql-ChainUpTo}
use dbotter.Execution.Mysql.{infer_mysql_target, mysql_statement_contains}
use dbotter.Execution.Mysql.Choice.{
  Chosen, infer_mysql_target-Chosen, Holds-unique, infer_mysql_target-ne-invalid_caret,
}

abbrev script : Text
script = codes "SELECT 1; SELECT ';é' -- x"

abbrev second : MysqlStatement
second = record { start = 10; stop = 22; is_ambiguous = false }

scanned : Memᴰ second (scan_mysql script).statements
unfolding scan_mysql
scanned = Memᴰ.tail (Memᴰ.head refl)

held : mysql_statement_contains second 12 (str_len script) ≡ true
held = refl

inferred : infer_mysql_target script 12 ≡ ok (codes "SELECT ';é'")
unfolding infer_mysql_target scan_mysql get_range
inferred = refl

abbrev at_literal : Cursor
at_literal = record { before = []; rest = codes "'a\\'b' x" }

scan_mysql-total_example :
    (scan_mysql_loop script ≡ some (scan_mysql script))
    × (quoted_span_loop at_literal b'\'' ≡ some (quoted_span at_literal b'\''))
scan_mysql-total_example = scan_mysql-total script at_literal b'\''

scan_mysql-ChainUpTo_example : ChainUpTo script (scan_mysql script)
scan_mysql-ChainUpTo_example = scan_mysql-ChainUpTo script

infer_mysql_target-Chosen_example : Chosen script 12 (codes "SELECT ';é'")
infer_mysql_target-Chosen_example =
    infer_mysql_target-Chosen script 12 (codes "SELECT ';é'") inferred

Holds-unique_example : second ≡ second
Holds-unique_example = Holds-unique script 12 second second scanned scanned held held

infer_mysql_target-ne-invalid_caret_example :
    infer_mysql_target script 9 ≢ err invalid_caret_position
infer_mysql_target-ne-invalid_caret_example = infer_mysql_target-ne-invalid_caret script 9
