-- ===== src/Execution/Classify.antt =====
-- `classify_execution_kind` of src/execution.rs: which targets count as reads.
use Prim.Native.String.{String}
use dbotter.Prelude.{ℕ, Bool, true, false, ◌&&◌, not, List, [], ◌∷◌, any, if◌then◌else◌}
use dbotter.Text.{
  Text, codes, str_upper, text_eq, trim_start, take_while, is_ascii_alphabetic, contains,
}
use dbotter.Execution.{
  ExecutionLanguage, my_sql, redis, ExecutionTarget, my_sql_text, redis_argv, OperationKind,
  execute_read, execute_mutation,
}
pub mod Reads
pub mod Examples

abbrev pub read_keywords : List Text
read_keywords =
    codes "SELECT" ∷ codes "SHOW" ∷ codes "DESCRIBE" ∷ codes "DESC" ∷ codes "EXPLAIN" ∷ []

abbrev pub side_effects : List Text
side_effects =
    codes " INTO OUTFILE"
    ∷ codes " INTO DUMPFILE"
    ∷ codes " FOR UPDATE"
    ∷ codes " LOCK IN SHARE MODE"
    ∷ codes "GET_LOCK("
    ∷ codes "RELEASE_LOCK("
    ∷ codes "SLEEP("
    ∷ []

-- Membership in a closed list of words.
abbrev pub is_listed : Text → List Text → Bool
is_listed word words = any (λ w. text_eq word w) words

unfoldable pub mysql_is_clearly_read_only : Text → Bool
mysql_is_clearly_read_only text =
    let uppercase = str_upper text in
    let keyword = take_while is_ascii_alphabetic (trim_start uppercase) in
    is_listed keyword read_keywords
    && not (any (λ side_effect. contains uppercase side_effect) side_effects)

abbrev pub redis_reads : List Text
redis_reads =
    codes "PING"
    ∷ codes "ECHO"
    ∷ codes "GET"
    ∷ codes "MGET"
    ∷ codes "EXISTS"
    ∷ codes "TYPE"
    ∷ codes "TTL"
    ∷ codes "PTTL"
    ∷ codes "STRLEN"
    ∷ codes "GETRANGE"
    ∷ codes "BITCOUNT"
    ∷ codes "HGET"
    ∷ codes "HMGET"
    ∷ codes "HGETALL"
    ∷ codes "HEXISTS"
    ∷ codes "HLEN"
    ∷ codes "HKEYS"
    ∷ codes "HVALS"
    ∷ codes "LLEN"
    ∷ codes "LINDEX"
    ∷ codes "LRANGE"
    ∷ codes "SCARD"
    ∷ codes "SISMEMBER"
    ∷ codes "SMISMEMBER"
    ∷ codes "SMEMBERS"
    ∷ codes "ZCARD"
    ∷ codes "ZCOUNT"
    ∷ codes "ZSCORE"
    ∷ codes "ZMSCORE"
    ∷ codes "ZRANGE"
    ∷ codes "ZRANGEBYSCORE"
    ∷ codes "ZREVRANGE"
    ∷ codes "ZRANK"
    ∷ codes "ZREVRANK"
    ∷ codes "XLEN"
    ∷ codes "XRANGE"
    ∷ codes "XREVRANGE"
    ∷ codes "SCAN"
    ∷ codes "SSCAN"
    ∷ codes "HSCAN"
    ∷ codes "ZSCAN"
    ∷ codes "DBSIZE"
    ∷ codes "INFO"
    ∷ codes "TIME"
    ∷ []

unfoldable pub redis_is_clearly_read_only : List Text → Bool
redis_is_clearly_read_only [] = false
redis_is_clearly_read_only (command ∷ arguments) = is_listed (str_upper command) redis_reads

unfoldable pub is_read : ExecutionLanguage → ExecutionTarget → Bool
unfolding mysql_is_clearly_read_only redis_is_clearly_read_only
is_read my_sql (my_sql_text text) = mysql_is_clearly_read_only text
is_read redis (redis_argv arguments) = redis_is_clearly_read_only arguments
is_read _ _ = false

unfoldable pub classify_execution_kind : ExecutionLanguage → ExecutionTarget → OperationKind
unfolding is_read
classify_execution_kind language target =
    if is_read language target then execute_read else execute_mutation
