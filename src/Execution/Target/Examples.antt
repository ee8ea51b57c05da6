-- ===== src/Execution/Target/Examples.antt =====
-- Runs of the extraction of src/execution.rs, and its theorems at concrete inputs.
use dbotter.Prelude.{◌≡◌, refl, List, [], ◌∷◌, Option, none, some, ok, err}
use dbotter.Text.{Text, codes, split_on}
use dbotter.Execution.{
  source_text, redis, redis_argv, ambiguous_sql_mode, multiple_statements, redis_command_denied,
}
use dbotter.Execution.Mysql.{infer_mysql_target, validate_mysql_selection}
use dbotter.Execution.Redis.{is_stream_read, is_exactly_denied}
use dbotter.Execution.Redis.Checks.{IsAdmissible}
use dbotter.Execution.Scanner.{scan_mysql}
use dbotter.Execution.Target.{extract_and_validate_target}
use dbotter.Execution.Target.Guards.{extract-redis}

-- A splitter at blanks, in the place of the shell's.
abbrev pub split_blanks : Text → Option (List Text)
split_blanks text = some (split_on 32 text)

abbrev pub two_statements : Text
two_statements = codes "SELECT 1; SELECT ';é' -- x"

escaped_quote_is_ambiguous : infer_mysql_target (codes "SELECT 'a\\'' ;") 3 ≡ err ambiguous_sql_mode
unfolding infer_mysql_target scan_mysql
escaped_quote_is_ambiguous = refl

two_selected : validate_mysql_selection (codes "SELECT 1; SELECT 2") ≡ err multiple_statements
unfolding validate_mysql_selection scan_mysql
two_selected = refl

blocking_denied :
    extract_and_validate_target split_blanks (codes "GET a\nblpop q 0") 9 none redis 500 30
    ≡ err redis_command_denied
unfolding extract_and_validate_target is_stream_read is_exactly_denied
blocking_denied = refl

read_found :
    extract_and_validate_target split_blanks (codes "SET a 1\nGET a") 9 none redis 500 30
    ≡ ok (record {
      target = redis_argv (codes "GET" ∷ codes "a" ∷ []);
      retained_source = codes "GET a";
      row_limit = 500;
      timeout_seconds = 30;
    })
unfolding extract_and_validate_target is_stream_read is_exactly_denied
read_found = refl

extract-redis_example :
    (argv : List Text) × ◌≡◌ {A = _} (redis_argv (codes "GET" ∷ codes "a" ∷ [])) (redis_argv argv)
    × (split_blanks (codes "GET a") ≡ some argv)
    × IsAdmissible argv
unfolding source_text
extract-redis_example =
    extract-redis split_blanks (codes "SET a 1\nGET a") 9 none 500 30 _ read_found
