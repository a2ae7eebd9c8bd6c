-- ===== src/Witnesses/Schedule.antt =====
-- Tests of internal/collection/service.go: the schedule.
use multi_upstream_ai_gatewa.Prelude.{
  All, Any, ℕ, [], arith, contains, false, if◌then◌else◌, leb, ltb, nat_eq, refl, select, string_eq,
  true, ◌*◌, ◌+◌, ◌-◌, ◌/◌, ◌<◌, ◌==◌, ◌∷◌, ◌≡◌, ◌≢◌, ◌≤◌, ◌⊎◌,
}
use multi_upstream_ai_gatewa.Collection.Schedule.{
  CapabilityFailure, Intervals, Schedule, ScheduleKey, base_delay, bump_failures, double_up, due,
  due_from, is_due, key, key_eq, mark_failure, mark_skipped, mark_success, minute, new_schedule,
  next_delay, next_delay_from, prune, retry_delay, state_at, succeed, touch, zero_state,
}
use multi_upstream_ai_gatewa.Collection.Schedule.Backoff.{retry_delay_lem}
use multi_upstream_ai_gatewa.Collection.Schedule.Due.{
  due-select, mark_failure_lem, mark_skipped_lem, mark_success_lem, prune_lem,
}
use multi_upstream_ai_gatewa.Collection.Schedule.Return.{by_failure, marked, due-marked}
use multi_upstream_ai_gatewa.Collection.Schedule.Wakeup.{next_delay_lem}
use multi_upstream_ai_gatewa.Collector.Contract.{
  cap_account, cap_keys, capability_eq, capability_order, family_eq,
}
use multi_upstream_ai_gatewa.Prelude.Dict.{insert, lookup}

abbrev seven : ℕ
seven = 7

abbrev pub draw_zero : ℕ → ℕ
draw_zero n = 0

abbrev pub periods : Intervals
periods = record {
  balance = 10 * minute;
  key_quota = 10 * minute;
  price = 60 * minute;
  catalog = 120 * minute;
}

abbrev pub fresh : Schedule
fresh = new_schedule periods

abbrev pub later : ℕ
later = 1000 * minute

retry_delay_lem_example :
    (2 * minute - 2 * minute / 5 ≤ retry_delay draw_zero (60 * minute) 3)
    × (retry_delay draw_zero (60 * minute) 3 ≤ 2 * minute + 2 * minute / 5)
    × (5 * retry_delay draw_zero (60 * minute) 3 ≤ 6 * (60 * minute))
    × (retry_delay draw_zero (60 * minute) 3 ≤ 36 * minute)
retry_delay_lem_example = retry_delay_lem draw_zero (60 * minute) 2 (λ n h. h)

abbrev slow_answer : CapabilityFailure
slow_answer = record { capability = cap_keys; minimum_delay = 50 * minute }

due-marked_example :
    contains
      (due
        (marked (λ c. draw_zero) fresh 7 later (by_failure slow_answer))
        7
        (later + 50 * minute)).0
      cap_keys
    ≡ true
due-marked_example =
    due-marked (λ c. draw_zero) (λ c n h. h) fresh 7 later (later + 50 * minute)
      (by_failure slow_answer) cap_keys refl (omega arith)

due-select_example :
    ((due fresh 7 later).0
      ≡ select (λ c. is_due (state_at (key 7 c) fresh.states) later) capability_order)
    × ((k : ScheduleKey) → state_at k (due fresh 7 later).1.states ≡ state_at k fresh.states)
due-select_example = due-select fresh 7 later

-- The first pass finds all five due, in the order of dependence.
first_pass : (due fresh 7 later).0 ≡ capability_order
unfolding due due_from new_schedule state_at lookup touch insert
first_pass = refl

abbrev collected : Schedule
collected = mark_success fresh 7 later (cap_account ∷ cap_keys ∷ [])

mark_success_lem_example :
    (seven ≡ 7
      → contains (cap_account ∷ cap_keys ∷ []) cap_keys ≡ true
      → ((state_at (key 7 cap_keys) collected.states).failure_count ≡ 0)
        × ((at : ℕ)
            → 0 < later + fresh.interval cap_keys
            → is_due (state_at (key 7 cap_keys) collected.states) at
              ≡ leb (later + fresh.interval cap_keys) at))
    × ((seven ≢ 7) ⊎ (contains (cap_account ∷ cap_keys ∷ []) cap_keys ≡ false)
        → state_at (key 7 cap_keys) collected.states ≡ state_at (key 7 cap_keys) fresh.states)
mark_success_lem_example =
    mark_success_lem fresh 7 later (cap_account ∷ cap_keys ∷ []) (key 7 cap_keys)

abbrev limited : CapabilityFailure
limited = record { capability = cap_keys; minimum_delay = 5 * minute }

abbrev backed_off : Schedule
backed_off = mark_failure draw_zero collected 7 later limited

mark_failure_lem_example :
    ((state_at (key 7 cap_keys) backed_off.states).failure_count ≡ (
      if ltb (state_at (key 7 cap_keys) collected.states).failure_count 63
      then (state_at (key 7 cap_keys) collected.states).failure_count + 1
      else (state_at (key 7 cap_keys) collected.states).failure_count))
    × (later + limited.minimum_delay ≤ (state_at (key 7 cap_keys) backed_off.states).next_at)
    × (later
          + retry_delay draw_zero
              (collected.interval cap_keys)
              (state_at (key 7 cap_keys) backed_off.states).failure_count
        ≤ (state_at (key 7 cap_keys) backed_off.states).next_at)
    × (key 7 cap_keys ≢ key 8 cap_keys
        → state_at (key 8 cap_keys) backed_off.states ≡ state_at (key 8 cap_keys) collected.states)
mark_failure_lem_example = mark_failure_lem draw_zero collected 7 later limited (key 8 cap_keys)

mark_skipped_lem_example :
    let t = mark_skipped (λ c. draw_zero) backed_off 7 later (cap_keys ∷ []) in
    ((state_at (key 7 cap_keys) t.states).failure_count
      ≡ (state_at (key 7 cap_keys) backed_off.states).failure_count)
    × (seven ≡ 7
        → contains (cap_keys ∷ []) cap_keys ≡ true
        → (state_at (key 7 cap_keys) t.states).next_at
          ≡ later + retry_delay draw_zero (backed_off.interval cap_keys) 1)
    × ((seven ≢ 7) ⊎ (contains (cap_keys ∷ []) cap_keys ≡ false)
        → state_at (key 7 cap_keys) t.states ≡ state_at (key 7 cap_keys) backed_off.states)
mark_skipped_lem_example =
    mark_skipped_lem (λ c. draw_zero) backed_off 7 later (cap_keys ∷ []) (key 7 cap_keys)

prune_lem_example :
    state_at (key 7 cap_keys) (prune (λ c. c == 8) backed_off).states
    ≡ (if seven == 8 then state_at (key 7 cap_keys) backed_off.states else zero_state)
prune_lem_example = prune_lem (λ c. c == 8) backed_off (key 7 cap_keys)

next_delay_lem_example :
    (next_delay backed_off later ≡ 0
      × (Any (λ e. e.1.next_at ≤ later) backed_off.states ⊎ (backed_off.states ≡ [])))
    ⊎ (0 < next_delay backed_off later
        × All (λ e. later + next_delay backed_off later ≤ e.1.next_at) backed_off.states
        × Any (λ e. e.1.next_at ≡ later + next_delay backed_off later) backed_off.states)
next_delay_lem_example = next_delay_lem backed_off later

-- Ten minutes for the balance; the keys wait five.
wakes_in_five : next_delay backed_off later ≡ 5 * minute
unfolding next_delay next_delay_from mark_failure mark_success succeed new_schedule state_at lookup
    insert bump_failures retry_delay base_delay double_up
wakes_in_five = refl
