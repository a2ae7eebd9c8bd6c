-- ===== src/Collection/Schedule.antt =====
-- Schedule of internal/collection/service.go. A time is a number of nanoseconds since the zero
-- time, so IsZero is `== 0`; a duration is a number of nanoseconds. The random draw of retryDelay
-- is the argument `draw`: `draw n` is the number that rand.Int64N(n) returned.
pub mod Backoff
pub mod Due
pub mod Wakeup
pub mod Return
use multi_upstream_ai_gatewa.Prelude.{
  ℕ, zero, suc, ◌+◌, ◌-◌, ◌*◌, ◌/◌, min, max, nat_eq, Bool, true, false, not, ◌&&◌, ◌||◌, Option,
  none, some, List, [], ◌∷◌, ◌≡◌, refl, ◌↔◌, arith, Eq, ◌==◌, ltb, leb, if◌then◌else◌,
}
use multi_upstream_ai_gatewa.Prelude.Dict.{Dict, lookup, insert, retain}
use multi_upstream_ai_gatewa.Collector.Contract.{
  Capability, cap_account, cap_keys, cap_groups, cap_pricing, cap_model_catalog, capability_beq,
  capability_beq_iff, capability_order,
}

abbrev pub second : ℕ
second = 1000000000

abbrev pub minute : ℕ
minute = 60 * second

abbrev pub retry_backoff_base : ℕ
retry_backoff_base = 30 * second

abbrev pub retry_backoff_max : ℕ
retry_backoff_max = 30 * minute

pub record Intervals : Type 0 where
  pub balance : ℕ
  pub key_quota : ℕ
  pub price : ℕ
  pub catalog : ℕ

pub record ScheduleKey : Type 0 where
  pub channel_id : ℕ
  pub capability : Capability

abbrev pub key_beq : ScheduleKey → ScheduleKey → Bool
key_beq a b = a.channel_id == b.channel_id && capability_beq a.capability b.capability

pub key_beq_iff : (a b : ScheduleKey) → (key_beq a b ≡ true) ↔ (a ≡ b)
key_beq_iff a b = ground arith

instance abbrev pub key_eq : Eq ScheduleKey
key_eq = record { beq = key_beq; beq_iff = key_beq_iff }

-- failureCount is a uint8 that stops at 63.
pub record ScheduleState : Type 0 where
  pub next_at : ℕ
  pub failure_count : ℕ

abbrev pub zero_state : ScheduleState
zero_state = record { next_at = 0; failure_count = 0 }

abbrev pub States : Type 0
States = Dict ScheduleKey ScheduleState

pub record Schedule : Type 0 where
  pub interval : Capability → ℕ
  pub states : States

abbrev interval_for : Intervals → Capability → ℕ
interval_for p cap_account = p.balance
interval_for p cap_groups = p.catalog
interval_for p cap_keys = p.key_quota
interval_for p cap_pricing = p.price
interval_for p cap_model_catalog = p.catalog

unfoldable pub new_schedule : Intervals → Schedule
new_schedule p = record { interval = interval_for p; states = [] }

abbrev pub key : ℕ → Capability → ScheduleKey
key channel c = record { channel_id = channel; capability = c }

-- `s.states[key]`, the zero value for a missing key.
unfoldable pub state_at : ScheduleKey → States → ScheduleState
state_at k m = elim (lookup k m) [ none ↦ zero_state | some s ↦ s ]

abbrev pub is_due : ScheduleState → ℕ → Bool
is_due s now = s.next_at == 0 || not (ltb now s.next_at)

-- `if !ok { s.states[key] = scheduleState{} }`
unfoldable pub touch : ScheduleKey → States → States
touch k m = elim (lookup k m) [ none ↦ insert k zero_state m | some _ ↦ m ]

-- The loop of Due over the capabilities.
unfoldable pub due_from : List Capability → ℕ → ℕ → States → List Capability × States
due_from [] channel now m = ([], m)
due_from (c ∷ cs) channel now m =
    let (rest, m') = due_from cs channel now (touch (key channel c) m) in
    (if is_due (state_at (key channel c) m) now then c ∷ rest else rest, m')

unfoldable pub due : Schedule → ℕ → ℕ → List Capability × Schedule
due s channel now =
    let (found, m) = due_from capability_order channel now s.states in
    (found, record s { states = m })

unfoldable pub succeed : (Capability → ℕ) → ℕ → ℕ → List Capability → States → States
succeed interval channel now [] m = m
succeed interval channel now (c ∷ cs) m =
    succeed interval channel now cs
      (insert (key channel c) (record { next_at = now + interval c; failure_count = 0 }) m)

unfoldable pub mark_success : Schedule → ℕ → ℕ → List Capability → Schedule
mark_success s channel now cs = record s { states = succeed s.interval channel now cs s.states }

-- The doubling loop of retryDelay, on the attempts that are left.
unfoldable pub double_up : ℕ → ℕ → ℕ → ℕ
double_up zero limit delay = delay
double_up (suc n) limit delay = elim (ltb delay limit) [
  | true ↦ double_up n limit (min (delay * 2) limit)
  | false ↦ delay
]

-- The delay before the jitter.
unfoldable pub base_delay : ℕ → ℕ → ℕ
base_delay interval failures =
    let limit = min interval retry_backoff_max in
    min (double_up (failures - 1) limit retry_backoff_base) limit

unfoldable pub retry_delay : (ℕ → ℕ) → ℕ → ℕ → ℕ
retry_delay draw interval failures =
    let delay = base_delay interval failures in
    let spread = delay / 5 in if ltb 0 spread then delay + draw (2 * spread + 1) - spread else delay

pub record CapabilityFailure : Type 0 where
  pub capability : Capability
  pub minimum_delay : ℕ

unfoldable pub bump_failures : ℕ → ℕ
bump_failures n = if ltb n 63 then n + 1 else n

unfoldable pub mark_failure : (ℕ → ℕ) → Schedule → ℕ → ℕ → CapabilityFailure → Schedule
mark_failure draw s channel now f =
    let k = key channel f.capability in
    let count = bump_failures (state_at k s.states).failure_count in
    let delay = max (retry_delay draw (s.interval f.capability) count) f.minimum_delay in
    record s {
      states = insert k (record { next_at = now + delay; failure_count = count }) s.states;
    }

-- The loop of MarkSkipped; every pass makes a draw of its own.
unfoldable pub skip :
    (Capability → ℕ → ℕ) → (Capability → ℕ) → ℕ → ℕ → List Capability → States → States
skip draw interval channel now [] m = m
skip draw interval channel now (c ∷ cs) m = skip draw interval channel now cs (
    insert (key channel c)
      (record {
        next_at = now + retry_delay (draw c) (interval c) 1;
        failure_count = (state_at (key channel c) m).failure_count;
      })
      m)

unfoldable pub mark_skipped : (Capability → ℕ → ℕ) → Schedule → ℕ → ℕ → List Capability → Schedule
mark_skipped draw s channel now cs = record s {
  states = skip draw s.interval channel now cs s.states;
}

unfoldable pub prune : (ℕ → Bool) → Schedule → Schedule
prune active s = record s { states = retain (λ k. active k.channel_id) s.states }

-- The loop of NextDelay; `shortest` is 0 before the first state.
unfoldable pub next_delay_from : ℕ → ℕ → States → ℕ
next_delay_from now shortest [] = shortest
next_delay_from now shortest ((k, s) ∷ m) =
    let rest =
      next_delay_from now
        (if shortest == 0 || ltb (s.next_at - now) shortest then s.next_at - now else shortest) m in
    if leb s.next_at now then 0 else rest

unfoldable pub next_delay : Schedule → ℕ → ℕ
next_delay s now = next_delay_from now 0 s.states
