-- ===== src/Execution/Redis/Examples.antt =====
-- The theorems on the Redis side of src/execution.rs at concrete inputs.
use dbotter.Prelude.{inr, ◌≡◌, ◌↔◌, ◌≤◌, refl, true, List, [], ◌∷◌, Option, some, map, ok, All}
use dbotter.Text.{Text, codes, str_len, str_upper, split_on}
use dbotter.Execution.{max_redis_target_bytes}
use dbotter.Execution.Redis.{
  is_stream_read, is_exactly_denied, redis_bytes_are_denied, validate_redis_argv,
  validate_redis_target, validate_single_redis_physical_command,
}
use dbotter.Execution.Redis.Policy.{Blocks, redis_bytes_are_denied-upper, denied-iff-Blocks}
use dbotter.Execution.Redis.Checks.{
  IsAdmissible, validate_redis_argv_iff, validate_redis_target-IsAdmissible, command_count, Splits,
  single_command-count,
}

abbrev splitter : Text → Option (List Text)
splitter text = some (split_on 32 text)

abbrev blocking_read : List Text
blocking_read = codes "block" ∷ codes "0" ∷ codes "STREAMS" ∷ codes "s" ∷ codes "0" ∷ []

stream_read : is_stream_read (codes "xread") ≡ true
unfolding is_stream_read
stream_read = refl

get_target : validate_redis_target splitter (codes "get key") ≡ ok (codes "get" ∷ codes "key" ∷ [])
unfolding validate_redis_target is_stream_read is_exactly_denied
get_target = refl

get_selection : validate_single_redis_physical_command splitter (codes "get key\r") ≡ ok tt
unfolding validate_single_redis_physical_command
get_selection = refl

redis_bytes_are_denied-upper_example :
    redis_bytes_are_denied (map str_upper (codes "xread" ∷ blocking_read))
    ≡ redis_bytes_are_denied (codes "xread" ∷ blocking_read)
redis_bytes_are_denied-upper_example = redis_bytes_are_denied-upper (codes "xread" ∷ blocking_read)

denied-iff-Blocks_example :
    (redis_bytes_are_denied (codes "xreadgroup" ∷ blocking_read) ≡ true) ↔ Blocks blocking_read
denied-iff-Blocks_example = denied-iff-Blocks (codes "xreadgroup") blocking_read (inr refl)

validate_redis_argv_iff_example :
    (validate_redis_argv (codes "get" ∷ codes "key" ∷ []) ≡ ok (codes "get" ∷ codes "key" ∷ []))
    ↔ IsAdmissible (codes "get" ∷ codes "key" ∷ [])
validate_redis_argv_iff_example = validate_redis_argv_iff (codes "get" ∷ codes "key" ∷ [])

validate_redis_target-IsAdmissible_example :
    (str_len (codes "get key") ≤ max_redis_target_bytes)
    × (splitter (codes "get key") ≡ some (codes "get" ∷ codes "key" ∷ []))
    × IsAdmissible (codes "get" ∷ codes "key" ∷ [])
validate_redis_target-IsAdmissible_example =
    validate_redis_target-IsAdmissible splitter (codes "get key") (codes "get" ∷ codes "key" ∷ [])
      get_target

single_command-count_example :
    (command_count splitter (split_on 10 (codes "get key\r")) ≤ 1)
    × All (Splits splitter) (split_on 10 (codes "get key\r"))
single_command-count_example = single_command-count splitter (codes "get key\r") get_selection
