-- ===== src/Ui/RedisExplorer/Examples.antt =====
-- The theorem on src/ui/redis_explorer.rs at a page that brings one key twice.
use dbotter.Prelude.{◌≡◌, refl, true, false, none, some, [], ◌∷◌, length}
use dbotter.Text.{Text, codes}
use dbotter.Model.Requests.{literal_prefix}
use dbotter.Model.Pages.{RedisKeyEntry, RedisKeyPage}
use dbotter.Drivers.RedisScan.{apply_page}
use dbotter.Drivers.RedisScan.Keys.{IsWithinLimits}
use dbotter.Ui.Model.{UiEvent, SessionDisposition, redis_keys_loaded}
use dbotter.Ui.RedisExplorer.{RedisExplorer, new_explorer, set_profile, begin_scan, handle_event}
use dbotter.Ui.RedisExplorer.Keys.{start, shown, scanned, answered, Reach-IsWithinLimits}

abbrev entry : Text → RedisKeyEntry
entry raw = record { id = raw; key_base64 = []; display = raw; hex = [] }

abbrev two_keys : RedisKeyPage
two_keys = record {
  identity = record { profile_id = codes "r"; profile_generation = 2; operation_id = 8 };
  next_cursor = 17;
  keys = entry (codes "a") ∷ entry (codes "b") ∷ entry (codes "a") ∷ [];
  retained_count = 3;
  skipped_oversize = 0;
  retained_bytes = 3;
  truncated = false;
  stale = false;
}

abbrev answer : UiEvent
answer = redis_keys_loaded two_keys 1 SessionDisposition.keep

abbrev scanned_once : RedisExplorer
scanned_once =
    handle_event
      (begin_scan (set_profile (new_explorer none) (some (codes "r", 2))) 8 (literal_prefix []) 0
        true)
      answer

two_distinct : length scanned_once.scan.keys ≡ 2
unfolding handle_event set_profile begin_scan apply_page
two_distinct = refl

Reach-IsWithinLimits_example : IsWithinLimits scanned_once.scan
Reach-IsWithinLimits_example =
    Reach-IsWithinLimits scanned_once
      (answered answer (scanned 8 (literal_prefix []) 0 true (shown (some (codes "r", 2)) start)))
