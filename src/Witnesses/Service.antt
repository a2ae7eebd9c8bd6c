-- ===== src/Witnesses/Service.antt =====
-- Tests of internal/collection/service.go: the rounds of collection.
use mathlib.Core.Logic.Or
use mathlib.Core.List.{Mem, Nodup, Nodup-cons, Perm, Permᴰ, mem-cons, not-mem-nil}
use mathlib.Core.List.Permᴰ
use mathlib.Core.List.{Pairwise}
use mathlib.Core.HLevel.{⊥_prop}
use multi_upstream_ai_gatewa.Prelude.{
  List, ℕ, [], arith, false, if◌then◌else◌, map, nat_eq, none, not, refl, select, string_eq, true,
  ◌*◌, ◌+◌, ◌==◌, ◌∷◌, ◌≡◌, ◌≤◌,
}
use multi_upstream_ai_gatewa.Collection.Schedule.{
  CapabilityFailure, Schedule, base_delay, bump_failures, double_up, is_due, key, key_eq,
  mark_failure, mark_skipped, mark_success, minute, new_schedule, retry_delay, skip, state_at,
  succeed,
}
use multi_upstream_ai_gatewa.Collection.Service.{
  Attempt, Channel, ChannelOutcome, ChannelTask, Draws, SyncReply, apply_outcome, collect_channel,
  completed_capabilities, failures_for, five_minutes, item_failure, lock_held, mark_failures, plan,
  retry_minimum, run_once, scan_items, sort_capabilities, sync_error, synced,
}
use multi_upstream_ai_gatewa.Collection.Service.Cooldown.{authentication_cooldown}
use multi_upstream_ai_gatewa.Collection.Service.Jitter.{sharing}
use multi_upstream_ai_gatewa.Collection.Service.Outcome.{
  all_of, collect_channel-completed, collect_channel-perm, completed_capabilities_lem, reported_ok,
}
use multi_upstream_ai_gatewa.Collection.Service.Plan.{
  outcomes_of, plan-eq-wanted, run_once_order, wanted,
}
use multi_upstream_ai_gatewa.Collector.Contract.{
  Capability, ItemStatus, SyncItem, SyncResult, cap_account, cap_keys, cap_pricing, capability_eq,
  family_eq, newapi, status_ok, status_partial, supported,
}
use multi_upstream_ai_gatewa.Collector.Errors.{
  Err, account, as_http, http_caused, http_failure, is, is_authentication_failure, sentinel,
  unauthorized,
}
use multi_upstream_ai_gatewa.Prelude.Dict.{insert, lookup}
use multi_upstream_ai_gatewa.Witnesses.Schedule.{fresh, later}

abbrev enabled : ℕ → Channel
enabled n = record { id = n; site_family = "newapi"; status = "enabled"; disabled_until = none }

abbrev paused : Channel
paused = record { id = 3; site_family = "newapi"; status = "disabled"; disabled_until = none }

abbrev channels : List Channel
channels = enabled 1 ∷ enabled 2 ∷ paused ∷ []

abbrev draws : Draws
draws = record { failing = λ k n. 0; again = λ k n. 0 }

abbrev item : Capability → ItemStatus → SyncItem
item c s = record {
  capability = c;
  support = supported;
  status = s;
  rows = 1;
  failed = 0;
  error = none;
  note = "";
  http_status = 429;
  business_code = 0;
  retry_after_ms = 0;
  authentication_failed = false;
}

abbrev mixed : SyncResult
mixed = record {
  channel_id = 1;
  site_family = newapi;
  items = item cap_account status_ok ∷ item cap_keys status_partial ∷ [];
}

abbrev refused : Err
refused = account 9 "auth" (
    http_caused (record { status_code = 401; business_code = 0; retry_after = 0; message = "401" })
      (sentinel unauthorized))

abbrev attempt : SyncReply → Attempt
attempt y = record { started = later; lock = lock_held; reply = y; finished = later + minute }

abbrev attempts : ChannelTask → Attempt
attempts t = if t.channel.id == 1 then attempt (synced mixed) else attempt (sync_error refused)

abbrev task : ChannelTask
task = record { channel = enabled 1; capabilities = cap_account ∷ cap_keys ∷ cap_pricing ∷ [] }

collect_channel-perm_example :
    Perm (all_of (collect_channel task (attempt (synced mixed)))) task.capabilities
collect_channel-perm_example = collect_channel-perm task (attempt (synced mixed))

-- The account is collected, the keys are partial, and nothing was said of the prices.
mixed_completed : (collect_channel task (attempt (synced mixed))).completed ≡ cap_account ∷ []
unfolding collect_channel completed_capabilities sort_capabilities scan_items lookup insert
    item_failure retry_minimum
mixed_completed = refl

collect_channel-completed_example :
    (lock_held ≡ lock_held)
    × ((r : SyncResult) × (synced mixed ≡ synced r) × (reported_ok r cap_account ≡ true))
collect_channel-completed_example =
    collect_channel-completed task (attempt (synced mixed)) cap_account (rw mixed_completed refl)

completed_capabilities_lem_example :
    ((completed_capabilities task mixed).0 ≡ select (reported_ok mixed) task.capabilities)
    × (map (λ (f : CapabilityFailure). f.capability) (completed_capabilities task mixed).1
        ≡ select (λ c. not (reported_ok mixed c)) task.capabilities)
completed_capabilities_lem_example = completed_capabilities_lem task mixed

abbrev after_refusal : Schedule
after_refusal = apply_outcome draws fresh (collect_channel task (attempt (sync_error refused)))

refused_is_due :
    is_due (state_at (key 1 cap_keys) after_refusal.states) (later + 60 * minute) ≡ true
unfolding apply_outcome mark_failures mark_failure mark_skipped skip mark_success succeed
    collect_channel failures_for retry_minimum http_failure as_http is_authentication_failure is
    state_at lookup insert bump_failures retry_delay base_delay double_up new_schedule
refused_is_due = refl

authentication_cooldown_example : later + minute + five_minutes ≤ later + 60 * minute
authentication_cooldown_example =
    authentication_cooldown draws fresh task (attempt (sync_error refused)) refused cap_keys
      (later + 60 * minute) refl refl (unfold is_authentication_failure is in refl) refl
      refused_is_due

plan-eq-wanted_example : (plan later channels fresh).0 ≡ wanted later fresh channels
plan-eq-wanted_example = plan-eq-wanted later channels fresh

abbrev swap_first : List ChannelOutcome → List ChannelOutcome
swap_first (a ∷ b ∷ os) = b ∷ a ∷ os
swap_first os = os

swap_first-perm : (os : List ChannelOutcome) → Permᴰ os (swap_first os)
swap_first-perm [] = Permᴰ.refl []
swap_first-perm (a ∷ []) = Permᴰ.refl (a ∷ [])
swap_first-perm (a ∷ b ∷ os) = Permᴰ.swap refl refl

distinct : Nodup (map (λ (c : Channel). c.id) channels)
distinct = Nodup-cons.1 (
  one_of (λ e. omega (arith, e)) (one_of (λ e. omega (arith, e)) not-mem-nil),
  Nodup-cons.1
      (one_of (λ e. omega (arith, e)) not-mem-nil, Nodup-cons.1 (not-mem-nil, Pairwise.nil)),
)
  where
    one_of : {x y : ℕ} {l : List ℕ} → (x ≡ y → ⊥) → (Mem x l → ⊥) → Mem x (y ∷ l) → ⊥
    one_of p q m = Or.elim ⊥_prop (mem-cons.0 m) p q

-- Other draws than `draws`.
abbrev other_draws : Draws
other_draws = record { failing = λ k n. 1; again = λ k n. 2 }

run_once_order_example :
    (state_at (key 2 cap_keys) (run_once draws later channels (outcomes_of attempts) fresh).states
      ≡ state_at
          (key 2 cap_keys)
          (run_once
            (sharing (key 2 cap_keys) draws other_draws)
            later
            channels
            (λ ts. swap_first (outcomes_of attempts ts))
            fresh).states)
    × ((state_at
          (key 2 cap_keys)
          (run_once draws later channels (outcomes_of attempts) fresh).states).failure_count
        ≡ (state_at
            (key 2 cap_keys)
            (run_once other_draws later channels
              (λ ts. swap_first (outcomes_of attempts ts))
              fresh).states).failure_count)
run_once_order_example =
    run_once_order draws other_draws later channels fresh attempts (outcomes_of attempts)
      (λ ts. swap_first (outcomes_of attempts ts)) (key 2 cap_keys) distinct
      (λ ts. Permᴰ.refl (outcomes_of attempts ts)) (λ ts. swap_first-perm (outcomes_of attempts ts))
