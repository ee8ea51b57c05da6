-- ===== src/Ui/RedisExplorer.antt =====
-- `RedisExplorer` of src/ui/redis_explorer.rs: the scan and the key that is shown, and the requests
-- under way.
use dbotter.Prelude.{
  ℕ, Bool, true, false, ◌&&◌, ◌||◌, not, Option, none, some, List, [], ◌∷◌, is_empty, ltb, ◌==◌,
  if◌then◌else◌,
}
use dbotter.Text.{Text, codes, text_eq, str_len}
use dbotter.Model.Requests.{
  RedisKeyFilter, literal_prefix, glob, max_redis_filter_bytes, RedisScanRequest,
  RedisKeyInspectRequest, RequestIdentity,
}
use dbotter.Model.Pages.{RedisKeyPage, RedisValuePreview}
use dbotter.PublicErrors.{PublicOperationError}
use dbotter.Drivers.RedisScan.{RedisScanAccumulator, new_scan, apply_page, mark_stale, is_complete}
use dbotter.Ui.Model.{
  UiEvent, redis_keys_loaded, redis_keys_failed, redis_key_inspected, redis_key_inspect_failed,
  config_uncertain, runtime_shutdown,
}
pub mod Keys
pub mod Examples

pub data FilterMode : Type 0 where
  literal_prefix_mode glob_mode : FilterMode

pub record PendingScan : Type 0 where
  pub operation_id : ℕ
  pub filter : RedisKeyFilter
  pub cursor : ℕ
  pub restart : Bool
  pub cancel_requested : Bool

pub record PendingInspect : Type 0 where
  pub operation_id : ℕ
  pub key : List ℕ
  pub cancel_requested : Bool

pub record RedisExplorer : Type 0 where
  pub profile : Option (Text × ℕ)
  pub filter_text : Text
  pub filter_mode : FilterMode
  pub scan : RedisScanAccumulator
  pub pending_scan : Option PendingScan
  pub scan_error : Option PublicOperationError
  pub selected_key : Option (List ℕ)
  pub preview : Option RedisValuePreview
  pub pending_inspect : Option PendingInspect
  pub inspect_error : Option PublicOperationError
  pub inspect_stale : Bool
  pub submit_error : Option Text

-- `default`, for a profile.
abbrev pub new_explorer : Option (Text × ℕ) → RedisExplorer
new_explorer profile = record {
  profile = profile;
  filter_text = [];
  filter_mode = literal_prefix_mode;
  scan = new_scan (literal_prefix []);
  pending_scan = none;
  scan_error = none;
  selected_key = none;
  preview = none;
  pending_inspect = none;
  inspect_error = none;
  inspect_stale = false;
  submit_error = none;
}

abbrev is_profile : Option (Text × ℕ) → Text → ℕ → Bool
is_profile none p g = false
is_profile (some (q, h)) p g = text_eq q p && h == g

abbrev pub same_profile : Option (Text × ℕ) → Option (Text × ℕ) → Bool
same_profile none none = true
same_profile (some (q, h)) (some (p, g)) = text_eq q p && h == g
same_profile _ _ = false

pub set_profile : RedisExplorer → Option (Text × ℕ) → RedisExplorer
set_profile s profile = if same_profile s.profile profile then s else new_explorer profile

pub begin_scan : RedisExplorer → ℕ → RedisKeyFilter → ℕ → Bool → RedisExplorer
begin_scan s operation filter cursor restart = record s {
  pending_scan = some (record {
    operation_id = operation;
    filter = filter;
    cursor = cursor;
    restart = restart;
    cancel_requested = false;
  });
  submit_error = none;
}

pub begin_inspect : RedisExplorer → ℕ → List ℕ → RedisExplorer
begin_inspect s operation key = record s {
  pending_inspect = some (record { operation_id = operation; key = key; cancel_requested = false });
  submit_error = none;
}

abbrev cancel_scan : ℕ → Option PendingScan → Option PendingScan
cancel_scan operation none = none
cancel_scan operation (some p) =
    some (if p.operation_id == operation then record p { cancel_requested = true } else p)

abbrev cancel_inspect : ℕ → Option PendingInspect → Option PendingInspect
cancel_inspect operation none = none
cancel_inspect operation (some p) =
    some (if p.operation_id == operation then record p { cancel_requested = true } else p)

pub cancel_submitted : RedisExplorer → ℕ → RedisExplorer
cancel_submitted s operation = record s {
  pending_scan = cancel_scan operation s.pending_scan;
  pending_inspect = cancel_inspect operation s.pending_inspect;
  submit_error = none;
}

pub submission_failed : RedisExplorer → Text → RedisExplorer
submission_failed s message = record s { submit_error = some message }

pub dismiss_errors : RedisExplorer → RedisExplorer
dismiss_errors s = record s { scan_error = none; inspect_error = none; submit_error = none }

abbrev pub matches_profile : RedisExplorer → RequestIdentity → Bool
matches_profile s identity = is_profile s.profile identity.profile_id identity.profile_generation

abbrev pub restart_scan : RedisExplorer → PendingScan → RedisExplorer
restart_scan s p =
    if p.restart
    then record s {
      scan = new_scan p.filter;
      selected_key = none;
      preview = none;
      pending_inspect = none;
      inspect_error = none;
      inspect_stale = false;
    }
    else s

abbrev pub keys_loaded : RedisExplorer → Option PendingScan → RedisKeyPage → RedisExplorer
keys_loaded s none page = s
keys_loaded s (some p) page =
    let restarted = restart_scan (record s { pending_scan = none }) p in
    if matches_profile s page.identity && p.operation_id == page.identity.operation_id
    then record restarted {
      scan = apply_page restarted.scan page;
      scan_error = none;
      submit_error = none;
    }
    else s

abbrev pub keys_failed :
    RedisExplorer → Option PendingScan → RedisScanRequest → PublicOperationError → RedisExplorer
keys_failed s none request error = s
keys_failed s (some p) request error =
    if matches_profile s request.identity
      && (p.operation_id == request.identity.operation_id && p.cursor == request.cursor)
    then record s { pending_scan = none; scan = mark_stale s.scan; scan_error = some error }
    else s

abbrev pub awaits_key : Option PendingInspect → ℕ → List ℕ → Bool
awaits_key none operation key = false
awaits_key (some p) operation key = p.operation_id == operation && text_eq p.key key

abbrev is_shown : Option RedisValuePreview → Bool
is_shown none = false
is_shown (some preview) = true

abbrev pub key_inspected : RedisExplorer → RedisValuePreview → RedisExplorer
key_inspected s preview =
    if matches_profile s preview.identity
      && awaits_key s.pending_inspect preview.identity.operation_id preview.key.id
    then record s {
      pending_inspect = none;
      selected_key = some preview.key.id;
      preview = some preview;
      inspect_error = none;
      inspect_stale = preview.stale;
      submit_error = none;
    }
    else s

abbrev pub key_inspect_failed :
    RedisExplorer → RedisKeyInspectRequest → PublicOperationError → RedisExplorer
key_inspect_failed s request error =
    if matches_profile s request.identity
      && awaits_key s.pending_inspect request.identity.operation_id request.key
    then record s {
      pending_inspect = none;
      inspect_error = some error;
      inspect_stale = is_shown s.preview;
    }
    else s

unfoldable pub handle_event : RedisExplorer → UiEvent → RedisExplorer
unfolding apply_page
handle_event s (redis_keys_loaded page session disposition) = keys_loaded s s.pending_scan page
handle_event s (redis_keys_failed request error session disposition outcome) =
    keys_failed s s.pending_scan request error
handle_event s (redis_key_inspected preview session disposition) = key_inspected s preview
handle_event s (redis_key_inspect_failed request error session disposition outcome) =
    key_inspect_failed s request error
handle_event s (config_uncertain operation) = record s {
  pending_scan = none;
  pending_inspect = none;
  scan = mark_stale s.scan;
  inspect_stale = is_shown s.preview;
  submit_error = some (codes "Reload profiles before browsing Redis.");
}
handle_event s (runtime_shutdown operation) = record s {
  pending_scan = none;
  pending_inspect = none;
}
handle_event s _ = s
