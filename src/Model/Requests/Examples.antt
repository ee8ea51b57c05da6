-- ===== src/Model/Requests/Examples.antt =====
-- The theorems on the requests of src/model.rs at concrete inputs.
use dbotter.Prelude.{◌≤◌, ◌≡◌, refl, [], ◌∷◌, ◌++◌, map, ok}
use dbotter.Text.{Text, codes}
use dbotter.Execution.Redis.{is_exactly_denied, is_stream_read, redis_bytes_are_denied}
use dbotter.Model.Requests.Limits.{KeepsLimits, validate_redis-KeepsLimits}
use dbotter.Model.Requests.{
  RedisExecuteRequest, validate_redis, max_result_rows, seconds, literal_prefix, validate_filter,
  match_pattern,
}
use dbotter.Model.Requests.Glob.{itself, special, glob_parts, match_pattern-literal_prefix}

small : validate_filter (literal_prefix (codes "user:[*]")) ≡ ok tt
unfolding validate_filter
small = refl

match_pattern-literal_prefix_example :
    (pattern' : Text) × (match_pattern (literal_prefix (codes "user:[*]")) ≡ ok pattern')
    × (glob_parts pattern' ≡ map itself (codes "user:[*]") ++ special b'*' ∷ [])
match_pattern-literal_prefix_example = match_pattern-literal_prefix (codes "user:[*]") small

abbrev get_key : RedisExecuteRequest
get_key = record {
  identity = record { profile_id = codes "p"; profile_generation = 1; operation_id = 1 };
  argv = codes "GET" ∷ codes "key" ∷ [];
  row_limit = 500;
  timeout = seconds 30;
}

get_key_valid : validate_redis get_key ≡ ok tt
unfolding validate_redis is_exactly_denied is_stream_read redis_bytes_are_denied
get_key_valid = refl

validate_redis-KeepsLimits_example :
    (1 ≤ 500)
    × (500 ≤ max_result_rows)
    × (seconds 1 ≤ seconds 30)
    × (seconds 30 ≤ seconds 300)
    × KeepsLimits (codes "GET" ∷ codes "key" ∷ [])
validate_redis-KeepsLimits_example = validate_redis-KeepsLimits get_key get_key_valid
