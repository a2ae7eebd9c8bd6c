-- ===== src/Collection/Service.antt =====
-- Service of internal/collection/service.go: which channels are collected, what one collection
-- reports, and how the reports enter the schedule. What the workers meet outside (the channel lock,
-- the synchronisation and the clock) is the argument `Attempt`.
pub mod Outcome
pub mod Order
pub mod Jitter
pub mod Plan
pub mod Cooldown
use multi_upstream_ai_gatewa.Prelude.{
  Bool, List, Option, String, ℕ, [], contains, false, if◌then◌else◌, ltb, map, max, nat_eq, none,
  some, string_eq, true, ◌*◌, ◌++◌, ◌==◌, ◌||◌, ◌∷◌,
}
use multi_upstream_ai_gatewa.Collection.Schedule.{
  CapabilityFailure, Schedule, ScheduleKey, due, key, key_eq, mark_failure, mark_skipped,
  mark_success, minute, prune,
}
use multi_upstream_ai_gatewa.Collector.Contract.{
  Capability, SyncItem, SyncResult, capability_eq, family_eq, is_failure,
}
use multi_upstream_ai_gatewa.Collector.Errors.{Err, http_failure, is, is_authentication_failure}
use multi_upstream_ai_gatewa.Prelude.Dict.{Dict, insert, lookup}

abbrev pub five_minutes : ℕ
five_minutes = 5 * minute

abbrev pub millisecond : ℕ
millisecond = 1000000

-- store.Channel, as far as the service reads it; `disabled_until` is a nullable time.
pub record Channel : Type 0 where
  pub id : ℕ
  pub site_family : String
  pub status : String
  pub disabled_until : Option ℕ

pub record ChannelTask : Type 0 where
  pub channel : Channel
  pub capabilities : List Capability

-- What is joined into an outcome's error. The texts of the messages are left out.
pub data Failure : Type 0 where
  locking : ℕ → Err → Failure
  syncing : ℕ → Err → Failure
  reported : ℕ → SyncItem → Failure
  missing : ℕ → Capability → Failure

pub record ChannelOutcome : Type 0 where
  pub channel_id : ℕ
  pub completed : List Capability
  pub failed : List CapabilityFailure
  pub skipped : List Capability
  pub completed_at : ℕ
  pub failures : List Failure

unfoldable pub retry_minimum : ℕ → ℕ → ℕ
retry_minimum status retry_after =
    if status == 401 || status == 403
    then max retry_after five_minutes
    else if status == 429
    then (if ltb 0 retry_after then retry_after else five_minutes)
    else retry_after

unfoldable pub failures_for : List Capability → ℕ → ℕ → List CapabilityFailure
failures_for [] status retry_after = []
failures_for (c ∷ cs) status retry_after =
    record { capability = c; minimum_delay = retry_minimum status retry_after }
    ∷ failures_for cs status retry_after

unfoldable pub item_failure : SyncItem → CapabilityFailure
item_failure i =
    let delay = retry_minimum i.http_status (i.retry_after_ms * millisecond) in
    record {
      capability = i.capability;
      minimum_delay = if i.authentication_failed then retry_minimum 401 delay else delay;
    }

-- The first loop of completedCapabilities: `failed` and the errors of the items.
unfoldable pub scan_items :
    ℕ → List SyncItem → Dict Capability CapabilityFailure → Dict Capability CapabilityFailure
scan_items channel [] failed = failed
scan_items channel (i ∷ is) failed =
    scan_items channel is
      (if is_failure i.status then insert i.capability (item_failure i) failed else failed)

unfoldable pub item_failures : ℕ → List SyncItem → List Failure
item_failures channel [] = []
item_failures channel (i ∷ is) =
    let rest = item_failures channel is in
    if is_failure i.status then reported channel i ∷ rest else rest

abbrev pub Sorting : Type 0
Sorting = List Capability × List CapabilityFailure × List Failure

-- One round of the second loop, before what the later rounds append.
unfoldable pub place : ℕ → Bool → Option CapabilityFailure → Capability → Sorting → Sorting
place channel seen (some f) c (done, retry, fs) = (done, f ∷ retry, fs)
place channel true none c (done, retry, fs) = (c ∷ done, retry, fs)
place channel false none c (done, retry, fs) =
    (done, record { capability = c; minimum_delay = 0 } ∷ retry, missing channel c ∷ fs)

unfoldable pub sort_capabilities :
    ℕ → List Capability → Dict Capability CapabilityFailure → List Capability → Sorting
unfolding place
sort_capabilities channel seen failed [] = ([], [], [])
sort_capabilities channel seen failed (c ∷ cs) =
    place channel (contains seen c) (lookup c failed) c (sort_capabilities channel seen failed cs)

unfoldable pub completed_capabilities : ChannelTask → SyncResult → Sorting
completed_capabilities task result =
    let (done, retry, fs) =
      sort_capabilities task.channel.id (map (λ (i : SyncItem). i.capability) result.items)
        (scan_items task.channel.id result.items []) task.capabilities in
    (done, retry, item_failures task.channel.id result.items ++ fs)

-- What TryLock and Sync answered.
pub data LockReply : Type 0 where
  lock_error : Err → LockReply
  lock_busy lock_held : LockReply

pub data SyncReply : Type 0 where
  sync_error : Err → SyncReply
  sync_nil : SyncReply
  synced : SyncResult → SyncReply

pub record Attempt : Type 0 where
  pub started : ℕ
  pub lock : LockReply
  pub reply : SyncReply
  pub finished : ℕ

abbrev pub failure_status : Option (ℕ × ℕ) → ℕ
failure_status none = 0
failure_status (some (status, _)) = status

abbrev pub failure_retry_after : Option (ℕ × ℕ) → ℕ
failure_retry_after none = 0
failure_retry_after (some (_, retry_after)) = retry_after

abbrev blank_outcome : ChannelTask → ℕ → ChannelOutcome
blank_outcome task at = record {
  channel_id = task.channel.id;
  completed = [];
  failed = [];
  skipped = [];
  completed_at = at;
  failures = [];
}

-- The part of collectChannel after s.Sync has returned.
unfoldable pub after_sync : ChannelTask → ℕ → SyncReply → ChannelOutcome
after_sync task at (sync_error e) =
    let retry_after = failure_retry_after (http_failure e) in
    record (blank_outcome task at) {
      failed =
          failures_for task.capabilities (failure_status (http_failure e))
            (if is_authentication_failure e then retry_minimum 401 retry_after else retry_after);
      failures = syncing task.channel.id e ∷ [];
    }
after_sync task at sync_nil = record (blank_outcome task at) {
  failed = failures_for task.capabilities 0 0;
}
after_sync task at (synced result) =
    let (done, retry, fs) = completed_capabilities task result in
    record (blank_outcome task at) { completed = done; failed = retry; failures = fs }

unfoldable pub collect_locked : ChannelTask → Attempt → LockReply → ChannelOutcome
unfolding after_sync
collect_locked task a (lock_error e) = record (blank_outcome task a.started) {
  failed = failures_for task.capabilities 0 0;
  failures = locking task.channel.id e ∷ [];
}
collect_locked task a lock_busy = record (blank_outcome task a.started) {
  skipped = task.capabilities;
}
collect_locked task a lock_held = after_sync task a.finished a.reply

unfoldable pub collect_channel : ChannelTask → Attempt → ChannelOutcome
unfolding collect_locked
collect_channel task a = collect_locked task a a.lock

unfoldable pub collection_disabled : Channel → ℕ → Bool
collection_disabled c now =
    if c.status == "disabled"
    then elim c.disabled_until [ none ↦ true | some t ↦ ltb now t ]
    else false

-- The first loop of RunOnce: the tasks, the active channels, and the schedule after Due.
unfoldable pub plan : ℕ → List Channel → Schedule → List ChannelTask × List ℕ × Schedule
plan now [] s = ([], [], s)
plan now (c ∷ cs) s =
    let skipped = plan now cs s in
    let (found, s') = due s c.id now in
    let (tasks, active, s'') = plan now cs s' in
    if collection_disabled c now then skipped else (
      elim found [ [] ↦ tasks | x ∷ xs ↦ record { channel = c; capabilities = x ∷ xs } ∷ tasks ],
      c.id ∷ active,
      s'',
    )

-- The loop of RunOnce over the failures of one outcome.
unfoldable pub mark_failures :
    (Capability → ℕ → ℕ) → Schedule → ℕ → ℕ → List CapabilityFailure → Schedule
mark_failures draw s channel now [] = s
mark_failures draw s channel now (f ∷ fs) =
    mark_failures draw (mark_failure (draw f.capability) s channel now f) channel now fs

-- The jitter's draws, by the key that gets them; `again` for those of MarkSkipped. The source draws
-- from one random stream in the order of the calls, so that they depend on that order.
pub record Draws : Type 0 where
  pub failing : ScheduleKey → ℕ → ℕ
  pub again : ScheduleKey → ℕ → ℕ

unfoldable pub apply_outcome : Draws → Schedule → ChannelOutcome → Schedule
apply_outcome d s o =
    let at = o.completed_at in
    let s₁ = mark_success s o.channel_id at o.completed in
    let s₂ = mark_failures (λ c. d.failing (key o.channel_id c)) s₁ o.channel_id at o.failed in
    mark_skipped (λ c. d.again (key o.channel_id c)) s₂ o.channel_id at o.skipped

-- The second loop of RunOnce, over the outcomes in the order in which the workers sent them.
unfoldable pub apply_outcomes : Draws → Schedule → List ChannelOutcome → Schedule
apply_outcomes d s [] = s
apply_outcomes d s (o ∷ os) = apply_outcomes d (apply_outcome d s o) os

-- RunOnce. `work` is runTasks: the outcomes of the workers, in the order of their arrival.
unfoldable pub run_once :
    Draws → ℕ → List Channel → (List ChannelTask → List ChannelOutcome) → Schedule → Schedule
run_once d now channels work s =
    let (tasks, active, planned) = plan now channels s in
    apply_outcomes d (prune (contains active) planned) (work tasks)
