-- ===== src/Store/HostRateLimit.antt =====
-- HostRequestLimiter.Wait of internal/store/host_rate_limit.go, which both binaries set as WaitHost of
-- the client. `Slots` is the table collector_host_rate_limits; its statement is one step, whose readings
-- of clock_timestamp() are one time. A statement that fails leaves the table as it was.
pub mod Slots
use multi_upstream_ai_gatewa.Prelude.{
  Option, String, ℕ, if◌then◌else◌, max, nat_eq, none, some, string_eq, ◌*◌, ◌+◌, ◌-◌, ◌/◌, ◌==◌,
}
use multi_upstream_ai_gatewa.Collector.Errors.{Err, wrap}
use multi_upstream_ai_gatewa.Prelude.Dict.{Dict, insert, lookup}

-- next_allowed_at of each host.
abbrev pub SlotTable : Type 0
SlotTable = Dict String ℕ

-- $2::bigint * interval '1 millisecond', for minInterval.Milliseconds().
abbrev pub slot_length : ℕ → ℕ
slot_length interval = interval / 1000000 * 1000000

-- GREATEST(next_allowed_at, clock_timestamp()), or the clock alone where there is no row.
abbrev pub slot_at : ℕ → Option ℕ → ℕ
slot_at now none = now
slot_at now (some next) = max next now

-- The statement: the slot of the caller, and the table after it.
unfoldable pub take_slot : ℕ → String → ℕ → SlotTable → ℕ × SlotTable
take_slot step host now slots =
    let allowed = slot_at now (lookup host slots) in (allowed, insert host (allowed + step) slots)

-- What one call meets: the error of Pool.Acquire, that of the statement, and the database's clock.
pub record SlotAnswer : Type 0 where
  pub no_connection : Option Err
  pub no_row : Option Err
  pub database_now : ℕ

module _ {V : Type 0} (a : SlotAnswer) (nap : ℕ → V → Option Err × V) where
  -- From the delay on; `nap` sleeps, and answers the error of a context that ends before.
  abbrev pub await_slot : ℕ × SlotTable → V → Option Err × (SlotTable × V)
  await_slot (allowed, slots) v =
      let delay = allowed - a.database_now in
      let (fault, v₁) = nap delay v in
      if delay == 0 then (none, (slots, v)) else (fault, (slots, v₁))

  abbrev pub queried : Option Err → ℕ → String → SlotTable × V → Option Err × (SlotTable × V)
  queried (some e) interval host (slots, v) = (some (wrap "预留请求时隙" e), (slots, v))
  queried none interval host (slots, v) =
      await_slot (take_slot (slot_length interval) host a.database_now slots) v

  abbrev pub connected : Option Err → ℕ → String → SlotTable × V → Option Err × (SlotTable × V)
  connected (some e) interval host (slots, v) = (some (wrap "获取 host 限速连接" e), (slots, v))
  connected none interval host s = queried a.no_row interval host s

  unfoldable pub wait_slot : String → ℕ → SlotTable × V → Option Err × (SlotTable × V)
  wait_slot host interval (slots, v) =
      let asked = connected a.no_connection interval host (slots, v) in
      if interval == 0 then (none, (slots, v)) else asked
