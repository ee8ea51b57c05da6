-- ===== src/Execution/Classify/Examples.antt =====
-- The theorems on the classification of src/execution.rs at concrete inputs.
use dbotter.Prelude.{◌≡◌, refl, true, List, [], ◌∷◌}
use dbotter.Text.{Text, codes, str_upper}
use dbotter.Execution.{my_sql, redis, my_sql_text, redis_argv, execute_mutation}
use dbotter.Execution.Redis.{redis_bytes_are_denied}
use dbotter.Execution.Classify.{classify_execution_kind}
use dbotter.Execution.Classify.Reads.{denied-not-read, classify-upper}

abbrev pop : List Text
pop = codes "BLPOP" ∷ codes "q" ∷ codes "0" ∷ []

pop_denied : redis_bytes_are_denied pop ≡ true
unfolding redis_bytes_are_denied
pop_denied = refl

denied-not-read_example : classify_execution_kind redis (redis_argv pop) ≡ execute_mutation
denied-not-read_example = denied-not-read pop pop_denied

classify-upper_example :
    classify_execution_kind my_sql (my_sql_text (str_upper (codes "select 1")))
    ≡ classify_execution_kind my_sql (my_sql_text (codes "select 1"))
classify-upper_example = classify-upper (codes "select 1")
