-- ===== src/Drivers/RedisScan.antt =====
-- `RedisScanAccumulator` of src/drivers/redis_browser.rs: the keys that the pages of a scan have
-- brought. The set of keys that were seen is a list.
use dbotter.Prelude.{
  ℕ, zero, suc, ◌+◌, min, Bool, true, false, ◌&&◌, ◌||◌, not, List, [], ◌∷◌, ◌++◌, any, length, ltb,
  leb, ◌==◌, if◌then◌else◌,
}
use dbotter.Text.{text_eq}
use dbotter.Drivers.Catalog.{saturating_add}
use dbotter.Model.Requests.{RedisKeyFilter, max_redis_key_bytes}
use dbotter.Model.Pages.{RedisKeyEntry, RedisKeyPage}
pub mod Keys

abbrev pub max_redis_keys : ℕ
max_redis_keys = 10000

abbrev pub max_redis_retained_key_bytes : ℕ
max_redis_retained_key_bytes = 8388608

pub record RedisScanAccumulator : Type 0 where
  pub filter : RedisKeyFilter
  pub keys : List RedisKeyEntry
  pub seen : List (List ℕ)
  pub next_cursor : ℕ
  pub requested : Bool
  pub skipped_oversize : ℕ
  pub retained_bytes : ℕ
  pub truncated : Bool
  pub stale : Bool

-- `new`, which `restart` puts in the place of the old one.
abbrev pub new_scan : RedisKeyFilter → RedisScanAccumulator
new_scan filter = record {
  filter = filter;
  keys = [];
  seen = [];
  next_cursor = 0;
  requested = false;
  skipped_oversize = 0;
  retained_bytes = 0;
  truncated = false;
  stale = false;
}

-- Raw keys are lists of bytes, which are compared as texts are.
abbrev pub has_seen : List (List ℕ) → List ℕ → Bool
has_seen seen raw = any (text_eq raw) seen

abbrev pub skip_key : RedisScanAccumulator → RedisScanAccumulator
skip_key s = record s { skipped_oversize = saturating_add s.skipped_oversize 1; truncated = true }

abbrev pub is_full : RedisScanAccumulator → List ℕ → Bool
is_full s raw =
    leb max_redis_keys (length s.keys)
    || ltb max_redis_retained_key_bytes (saturating_add s.retained_bytes (length raw))

abbrev pub add_key : RedisScanAccumulator → RedisKeyEntry → RedisScanAccumulator
add_key s key = record s {
  seen = key.id ∷ s.seen;
  retained_bytes = saturating_add s.retained_bytes (length key.id);
  keys = s.keys ++ key ∷ [];
}

unfoldable pub apply_key : RedisScanAccumulator → RedisKeyEntry → RedisScanAccumulator
apply_key s key =
    if ltb max_redis_key_bytes (length key.id)
    then skip_key s
    else if has_seen s.seen key.id
    then s
    else if is_full s key.id
    then record s { truncated = true }
    else add_key s key

unfoldable pub apply_keys : RedisScanAccumulator → List RedisKeyEntry → RedisScanAccumulator
unfolding apply_key
apply_keys s [] = s
apply_keys s (key ∷ keys) = apply_keys (apply_key s key) keys

unfoldable pub apply_page : RedisScanAccumulator → RedisKeyPage → RedisScanAccumulator
unfolding apply_keys
apply_page s page =
    apply_keys
      (record s {
        requested = true;
        next_cursor = page.next_cursor;
        skipped_oversize = saturating_add s.skipped_oversize page.skipped_oversize;
        truncated = s.truncated || (page.truncated || ltb 0 page.skipped_oversize);
        stale = s.stale || page.stale;
      })
      page.keys

abbrev pub mark_stale : RedisScanAccumulator → RedisScanAccumulator
mark_stale s = record s { stale = true }

pub is_complete : RedisScanAccumulator → Bool
is_complete s = s.requested && s.next_cursor == 0
