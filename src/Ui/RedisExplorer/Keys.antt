-- ===== src/Ui/RedisExplorer/Keys.antt =====
-- The keys that the explorer of src/ui/redis_explorer.rs shows.
use dbotter.Prelude.{
  ℕ, List, refl, inl, inr, Bool, true, false, ◌&&◌, Option, none, some, if◌then◌else◌, ◌==◌,
  Bool-cases,
}
use dbotter.Text.{Text}
use dbotter.Model.Requests.{RedisKeyFilter, RedisScanRequest}
use dbotter.Model.Pages.{RedisKeyPage}
use dbotter.PublicErrors.{PublicOperationError}
use dbotter.Drivers.RedisScan.Keys.{
  IsWithinLimits, new_scan-IsWithinLimits, apply_page-IsWithinLimits, kept-IsWithinLimits,
}
use dbotter.Ui.Model.{
  UiEvent, redis_keys_loaded, redis_keys_failed, redis_key_inspected, redis_key_inspect_failed,
  config_uncertain, runtime_shutdown,
}
use dbotter.Ui.RedisExplorer.{
  RedisExplorer, same_profile, PendingScan, FilterMode, new_explorer, set_profile, begin_scan,
  begin_inspect, cancel_submitted, submission_failed, dismiss_errors, matches_profile, awaits_key,
  restart_scan, keys_loaded, keys_failed, handle_event,
}

-- The explorer after any operations and events, in any order.
pub data Reach : RedisExplorer → Type 0 where
  start : Reach (new_explorer none)
  shown :
      {s : RedisExplorer} (profile : Option (Text × ℕ)) → Reach s → Reach (set_profile s profile)
  typed :
      {s : RedisExplorer} (text : Text) (mode : FilterMode)
      → Reach s
      → Reach (record s { filter_text = text; filter_mode = mode })
  scanned :
      {s : RedisExplorer} (operation : ℕ) (filter : RedisKeyFilter) (cursor : ℕ) (restart : Bool)
      → Reach s
      → Reach (begin_scan s operation filter cursor restart)
  inspected :
      {s : RedisExplorer} (operation : ℕ) (key : List ℕ)
      → Reach s
      → Reach (begin_inspect s operation key)
  cancelled : {s : RedisExplorer} (operation : ℕ) → Reach s → Reach (cancel_submitted s operation)
  refused : {s : RedisExplorer} (message : Text) → Reach s → Reach (submission_failed s message)
  dismissed : {s : RedisExplorer} → Reach s → Reach (dismiss_errors s)
  answered : {s : RedisExplorer} (e : UiEvent) → Reach s → Reach (handle_event s e)

abbrev Keeps : RedisExplorer → Type 0
Keeps s = IsWithinLimits s.scan

set_profile-Keeps :
    (s : RedisExplorer) (profile : Option (Text × ℕ)) → Keeps s → Keeps (set_profile s profile)
unfolding set_profile
set_profile-Keeps s profile h = elim (Bool-cases (same_profile s.profile profile)) [
  | inl same ↦ rw same h
  | inr other ↦ rw other (new_scan-IsWithinLimits _)
]

restart-Keeps : (s : RedisExplorer) (p : PendingScan) → Keeps s → Keeps (restart_scan s p)
restart-Keeps s p h = elim (Bool-cases p.restart) [
  | inl again ↦ rw again (new_scan-IsWithinLimits p.filter)
  | inr more ↦ rw more h
]

keys_loaded-Keeps :
    (s : RedisExplorer) (pending : Option PendingScan) (page : RedisKeyPage)
    → Keeps s
    → Keeps (keys_loaded s pending page)
keys_loaded-Keeps s none page h = h
keys_loaded-Keeps s (some p) page h =
    elim (Bool-cases
      (matches_profile s page.identity && p.operation_id == page.identity.operation_id)) [
        | inl awaited ↦ rw awaited (
            apply_page-IsWithinLimits _ page (restart-Keeps (record s { pending_scan = none }) p h))
        | inr other ↦ rw other h
      ]

keys_failed-Keeps :
    (s : RedisExplorer) (pending : Option PendingScan) (request : RedisScanRequest)
    (error : PublicOperationError)
    → Keeps s
    → Keeps (keys_failed s pending request error)
keys_failed-Keeps s none request error h = h
keys_failed-Keeps s (some p) request error h =
    elim (Bool-cases (
      matches_profile s request.identity
      && (p.operation_id == request.identity.operation_id && p.cursor == request.cursor))) [
        | inl awaited ↦ rw awaited (kept-IsWithinLimits s.scan _ refl refl refl h)
        | inr other ↦ rw other h
      ]

if-Keeps : (test : Bool) (s t : RedisExplorer) → Keeps s → Keeps t → Keeps (if test then s else t)
if-Keeps true s t h i = h
if-Keeps false s t h i = i

handle_event-Keeps : (s : RedisExplorer) (e : UiEvent) → Keeps s → Keeps (handle_event s e)
unfolding handle_event
handle_event-Keeps s (redis_keys_loaded page session disposition) h =
    keys_loaded-Keeps s s.pending_scan page h
handle_event-Keeps s (redis_keys_failed request error session disposition outcome) h =
    keys_failed-Keeps s s.pending_scan request error h
handle_event-Keeps s (redis_key_inspected preview session disposition) h =
    if-Keeps
      (matches_profile s preview.identity
        && awaits_key s.pending_inspect preview.identity.operation_id preview.key.id)
      _ s h h
handle_event-Keeps s (redis_key_inspect_failed request error session disposition outcome) h =
    if-Keeps
      (matches_profile s request.identity
        && awaits_key s.pending_inspect request.identity.operation_id request.key)
      _ s h h
handle_event-Keeps s (config_uncertain operation) h = kept-IsWithinLimits s.scan _ refl refl refl h
handle_event-Keeps s (runtime_shutdown operation) h = h
handle_event-Keeps s e h = h

-- After any operations and events, in any order, the keys that are shown are at most 10000, each of
-- at most 4096 bytes and 8388608 bytes in all, which is what the explorer counts, and none of them
-- is shown twice.
pub Reach-IsWithinLimits : (s : RedisExplorer) → Reach s → IsWithinLimits s.scan
unfolding begin_scan begin_inspect cancel_submitted submission_failed dismiss_errors
Reach-IsWithinLimits s start = new_scan-IsWithinLimits _
Reach-IsWithinLimits s (shown {s = t} profile h) =
    set_profile-Keeps t profile (Reach-IsWithinLimits t h)
Reach-IsWithinLimits s (typed {s = t} text mode h) = Reach-IsWithinLimits t h
Reach-IsWithinLimits s (scanned {s = t} operation filter cursor restart h) =
    Reach-IsWithinLimits t h
Reach-IsWithinLimits s (inspected {s = t} operation key h) = Reach-IsWithinLimits t h
Reach-IsWithinLimits s (cancelled {s = t} operation h) = Reach-IsWithinLimits t h
Reach-IsWithinLimits s (refused {s = t} message h) = Reach-IsWithinLimits t h
Reach-IsWithinLimits s (dismissed {s = t} h) = Reach-IsWithinLimits t h
Reach-IsWithinLimits s (answered {s = t} e h) = handle_event-Keeps t e (Reach-IsWithinLimits t h)
