-- ===== src/Model/Requests.antt =====
-- The validation of requests in src/model.rs.
use dbotter.Prelude.{
  ℕ, ◌+◌, ◌-◌, ◌*◌, ◌^◌, Bool, true, false, ◌||◌, List, [], ◌∷◌, ◌++◌, Option, none, some, length,
  any, is_empty, ltb, ◌==◌, if◌then◌else◌, Result, ok, err, ensure, ◌>>=◌, ◌>>◌, not,
}
use dbotter.Text.{Text, str_len, trim}
use dbotter.Execution.Redis.{redis_bytes_are_denied}
pub mod Glob
pub mod Limits
pub mod Examples

pub data RequestValidationError : Type 0 where
  empty_statement invalid_row_limit invalid_execute_timeout empty_redis_command
        redis_command_too_large too_many_redis_tokens redis_token_too_large redis_command_denied
        invalid_catalog_page_size invalid_catalog_timeout empty_catalog_parent
        empty_catalog_page_token redis_filter_too_large invalid_redis_scan_count
        redis_key_too_large :
      RequestValidationError

abbrev pub Checked : Type 0
Checked = Result RequestValidationError (Unit {0})

-- A `Duration` in nanoseconds.
abbrev pub seconds : ℕ → ℕ
seconds n = n * 1000000000

abbrev pub max_result_rows : ℕ
max_result_rows = 10000

abbrev pub max_redis_command_bytes : ℕ
max_redis_command_bytes = 65536

abbrev pub max_redis_command_tokens : ℕ
max_redis_command_tokens = 1024

abbrev pub max_redis_command_token_bytes : ℕ
max_redis_command_token_bytes = 16 * 1024

abbrev pub max_catalog_page_size : ℕ
max_catalog_page_size = 200

abbrev pub max_redis_scan_count : ℕ
max_redis_scan_count = 1000

abbrev pub max_redis_filter_bytes : ℕ
max_redis_filter_bytes = 512

abbrev pub max_redis_key_bytes : ℕ
max_redis_key_bytes = 4 * 1024

pub record RequestIdentity : Type 0 where
  pub profile_id : Text
  pub profile_generation : ℕ
  pub operation_id : ℕ

pub validate_execute_limits : ℕ → ℕ → Checked
validate_execute_limits row_limit timeout =
    if row_limit == 0 || ltb max_result_rows row_limit
    then err invalid_row_limit
    else if ltb timeout (seconds 1) || ltb (seconds 300) timeout
    then err invalid_execute_timeout
    else ok tt

pub record PreparedMySqlRequest : Type 0 where
  pub identity : RequestIdentity
  pub statement : Text
  pub row_limit : ℕ
  pub timeout : ℕ

pub validate_mysql : PreparedMySqlRequest → Checked
unfolding validate_execute_limits
validate_mysql r =
    if is_empty (trim r.statement)
    then err empty_statement
    else validate_execute_limits r.row_limit r.timeout

-- An argument is a list of bytes.
pub record RedisExecuteRequest : Type 0 where
  pub identity : RequestIdentity
  pub argv : List (List ℕ)
  pub row_limit : ℕ
  pub timeout : ℕ

abbrev pub usize_limit : ℕ
usize_limit = 2 ^ 64

-- `checked_add` on a 64-bit `usize`.
abbrev pub checked_add : ℕ → ℕ → Option ℕ
checked_add a b = if ltb (a + b) usize_limit then some (a + b) else none

abbrev pub add_argument : Option ℕ → ℕ → Option ℕ
add_argument none n = none
add_argument (some total) n = elim (checked_add total n) [ none ↦ none | some v ↦ checked_add v 1 ]

-- `try_fold` from a total.
pub command_bytes : Option ℕ → List (List ℕ) → Option ℕ
command_bytes total [] = total
command_bytes total (a ∷ as') = command_bytes (add_argument total (length a)) as'

abbrev pub is_too_large : Option ℕ → Bool
is_too_large none = true
is_too_large (some bytes) = ltb max_redis_command_bytes (bytes - 1)

pub validate_argv : List (List ℕ) → Checked
unfolding command_bytes
validate_argv [] = err empty_redis_command
validate_argv (command ∷ arguments) =
    let argv = command ∷ arguments in
    if is_empty command
    then err empty_redis_command
    else if ltb max_redis_command_tokens (length argv)
    then err too_many_redis_tokens
    else if any (λ a. ltb max_redis_command_token_bytes (length a)) argv
    then err redis_token_too_large
    else if is_too_large (command_bytes (some 0) argv)
    then err redis_command_too_large
    else if redis_bytes_are_denied argv
    then err redis_command_denied
    else ok tt

pub validate_redis : RedisExecuteRequest → Checked
unfolding validate_execute_limits validate_argv
validate_redis r = do validate_execute_limits r.row_limit r.timeout; validate_argv r.argv

pub data CatalogParent : Type 0 where
  schemas : CatalogParent
  relations : Text → CatalogParent
  columns : Text → Text → CatalogParent

pub record CatalogRequest : Type 0 where
  pub identity : RequestIdentity
  pub parent : CatalogParent
  pub prefix : Option Text
  pub page_token : Option Text
  pub page_size : ℕ
  pub timeout : ℕ

abbrev pub parents_valid : CatalogParent → Bool
parents_valid schemas = true
parents_valid (relations schema) = not (is_empty schema)
parents_valid (columns schema relation) = if is_empty schema then false else not (is_empty relation)

abbrev pub has_empty_token : Option Text → Bool
has_empty_token none = false
has_empty_token (some token) = is_empty token

abbrev pub is_bad_timeout : ℕ → Bool
is_bad_timeout timeout = ltb timeout (seconds 1) || ltb (seconds 30) timeout

pub validate_catalog : CatalogRequest → Checked
validate_catalog r =
    if r.page_size == 0 || ltb max_catalog_page_size r.page_size
    then err invalid_catalog_page_size
    else if is_bad_timeout r.timeout
    then err invalid_catalog_timeout
    else if parents_valid r.parent
    then if has_empty_token r.page_token then err empty_catalog_page_token else ok tt
    else err empty_catalog_parent

pub data RedisKeyFilter : Type 0 where
  literal_prefix glob : Text → RedisKeyFilter

abbrev pub filter_text : RedisKeyFilter → Text
filter_text (literal_prefix t) = t
filter_text (glob t) = t

pub validate_filter : RedisKeyFilter → Checked
validate_filter f =
    if ltb max_redis_filter_bytes (str_len (filter_text f))
    then err redis_filter_too_large
    else ok tt

abbrev pub is_glob_special : ℕ → Bool
is_glob_special c = c == b'*' || (c == b'?' || (c == b'[' || (c == b']' || c == b'\\')))

pub escape_glob : Text → Text
escape_glob [] = []
escape_glob (c ∷ cs) =
    let rest = escape_glob cs in if is_glob_special c then b'\\' ∷ c ∷ rest else c ∷ rest

abbrev pub pattern_of : RedisKeyFilter → Text
pattern_of (glob pattern') = pattern'
pattern_of (literal_prefix prefix) = escape_glob prefix ++ b'*' ∷ []

pub match_pattern : RedisKeyFilter → Result RequestValidationError Text
unfolding validate_filter escape_glob
match_pattern f = do validate_filter f; ok (pattern_of f)

pub record RedisScanRequest : Type 0 where
  pub identity : RequestIdentity
  pub filter : RedisKeyFilter
  pub cursor : ℕ
  pub count_hint : ℕ
  pub timeout : ℕ

pub validate_scan_request : RedisScanRequest → Checked
unfolding validate_filter
validate_scan_request r =
    validate_filter r.filter
    >> (if r.count_hint == 0 || ltb max_redis_scan_count r.count_hint
        then err invalid_redis_scan_count
        else if is_bad_timeout r.timeout
        then err invalid_catalog_timeout
        else ok tt)

pub record RedisKeyInspectRequest : Type 0 where
  pub identity : RequestIdentity
  pub key : List ℕ
  pub timeout : ℕ

pub validate_inspect : RedisKeyInspectRequest → Checked
validate_inspect r =
    if ltb max_redis_key_bytes (length r.key)
    then err redis_key_too_large
    else if is_bad_timeout r.timeout
    then err invalid_catalog_timeout
    else ok tt
