-- ===== src/Ui/Editor/Examples.antt =====
-- The theorems on src/ui/editor.rs at a workspace with two statements.
use dbotter.Prelude.{◌≡◌, ◌≤◌, refl, [], ok}
use dbotter.Text.{codes}
use dbotter.Execution.{ExecutionLanguage, my_sql_text, source_text}
use dbotter.Execution.Classify.{classify_execution_kind}
use dbotter.Execution.Scanner.{scan_mysql}
use dbotter.Execution.Target.{extract_and_validate_target}
use dbotter.Execution.Target.Examples.{two_statements, split_blanks}
use dbotter.Ui.Model.{ProfileWorkspace, new_workspace}
use dbotter.Ui.Model.Examples.{local_snapshot}
use dbotter.Ui.Editor.{
  sql, EditorExecuteIntent, build_execute_intent, classify_execute_operation, workspace_cursor,
}
use dbotter.Ui.Editor.Intents.{
  classify_execute_operation-build_execute_intent, build_execute_intent-limits,
}

abbrev edited : ProfileWorkspace
edited = record new_workspace {
  editor_text = two_statements;
  caret_character_index = 12;
  row_limit = codes " +250 ";
}

abbrev second : EditorExecuteIntent
second = record {
  profile_id = codes "p";
  profile_generation = 4;
  language = sql;
  text = source_text (record {
    target = my_sql_text (codes "SELECT ';é'");
    retained_source = [];
    row_limit = 250;
    timeout_seconds = 30;
  });
  row_limit = 250;
  timeout_ms = 30000;
  operation_kind =
      classify_execution_kind ExecutionLanguage.my_sql (my_sql_text (codes "SELECT ';é'"));
}

second-built :
    build_execute_intent split_blanks local_snapshot edited (workspace_cursor edited) ≡ ok second
unfolding build_execute_intent workspace_cursor extract_and_validate_target scan_mysql
second-built = refl

classify_execute_operation-build_execute_intent_example :
    classify_execute_operation split_blanks sql second.text ≡ second.operation_kind
classify_execute_operation-build_execute_intent_example =
    classify_execute_operation-build_execute_intent split_blanks local_snapshot edited
      (workspace_cursor edited) second second-built

build_execute_intent-limits_example :
    (second.profile_id ≡ local_snapshot.id)
    × (second.profile_generation ≡ local_snapshot.generation)
    × (1 ≤ second.row_limit)
    × (second.row_limit ≤ 10000)
    × (1000 ≤ second.timeout_ms)
    × (second.timeout_ms ≤ 300000)
build_execute_intent-limits_example =
    build_execute_intent-limits split_blanks local_snapshot edited (workspace_cursor edited) second
      second-built
