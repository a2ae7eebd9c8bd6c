-- ===== src/Collection/Service/Cooldown.antt =====
-- About failures of authentication in internal/collection/service.go: from the error value through
-- collectChannel to the schedule.
use multi_upstream_ai_gatewa.Prelude.{
  All, Bool-cases, List, ℕ, [], ap, arith, contains, false, inl, inr, nat_eq, refl, string_eq, true,
  ◌+◌, ◌∙◌, ◌∷◌, ◌≡◌, ◌≤◌,
}
use multi_upstream_ai_gatewa.Collection.Schedule.{
  CapabilityFailure, Schedule, ScheduleKey, due, is_due, key, key_eq, mark_failure, mark_skipped,
  mark_success, skip, state_at,
}
use multi_upstream_ai_gatewa.Collection.Schedule.Due.{mark_failure_lem}
use multi_upstream_ai_gatewa.Collection.Service.{
  Attempt, ChannelTask, Draws, SyncReply, after_sync, apply_outcome, collect_channel,
  collect_locked, failures_for, five_minutes, lock_held, mark_failures, retry_minimum,
  failure_retry_after, failure_status, sync_error,
}
use multi_upstream_ai_gatewa.Collection.Service.Outcome.{capabilities-failures_for, capabilities_of}
use multi_upstream_ai_gatewa.Collector.Contract.{
  Capability, capability_beq_iff, capability_eq, family_eq,
}
use multi_upstream_ai_gatewa.Collector.Errors.{Err, http_failure, is_authentication_failure}

abbrev LeastDelay : ℕ → CapabilityFailure → Type 0
LeastDelay b f = b ≤ f.minimum_delay

retry_minimum-le : (status r : ℕ) → five_minutes ≤ r → five_minutes ≤ retry_minimum status r
unfolding retry_minimum
retry_minimum-le status r h = ground arith

retry_minimum-401 : (r : ℕ) → five_minutes ≤ retry_minimum 401 r
unfolding retry_minimum
retry_minimum-401 r = ground arith

failures_for-LeastDelay :
    (cs : List Capability) (status r : ℕ)
    → five_minutes ≤ r
    → All (LeastDelay five_minutes) (failures_for cs status r)
unfolding failures_for
failures_for-LeastDelay [] status r h = tt
failures_for-LeastDelay (c ∷ cs) status r h =
    (retry_minimum-le status r h, failures_for-LeastDelay cs status r h)

module _ (draw : Capability → ℕ → ℕ) (channel now : ℕ) (c : Capability) where
  mark_failures_absent :
      (s : Schedule) (fs : List CapabilityFailure)
      → contains (capabilities_of fs) c ≡ false
      → state_at (key channel c) (mark_failures draw s channel now fs).states
        ≡ state_at (key channel c) s.states
  unfolding mark_failures
  mark_failures_absent s [] h = refl
  mark_failures_absent s (f ∷ fs) h =
      mark_failures_absent (mark_failure (draw f.capability) s channel now f) fs (ground (arith, h))
      ∙ (mark_failure_lem (draw f.capability) s channel now f (key channel c)).3 (λ e.
          ground
            (arith, h, capability_beq_iff f.capability c, ap (λ (k : ScheduleKey). k.capability) e))

  mark_failures_floor :
      (b : ℕ) (s : Schedule) (fs : List CapabilityFailure)
      → All (LeastDelay b) fs
      → contains (capabilities_of fs) c ≡ true
      → now + b ≤ (state_at (key channel c) (mark_failures draw s channel now fs).states).next_at
  unfolding mark_failures
  mark_failures_floor b s [] h p = cc
  mark_failures_floor b s (f ∷ fs) h p = elim (Bool-cases (contains (capabilities_of fs) c)) [
    | inl q ↦ mark_failures_floor b (mark_failure (draw f.capability) s channel now f) fs h.1 q
    | inr q ↦ rw (mark_failures_absent (mark_failure (draw f.capability) s channel now f) fs q) (
        let e : f.capability ≡ c = (capability_beq_iff f.capability c).0 (ground (arith, p, q)) in
        rw (← e) (
          omega
            (arith, h.0, (mark_failure_lem (draw f.capability) s channel now f (key channel c)).1)))
  ]

collected :
    (task : ChannelTask) (a : Attempt) (y : SyncReply)
    → a.lock ≡ lock_held
    → a.reply ≡ y
    → collect_channel task a ≡ after_sync task a.finished y
unfolding collect_channel collect_locked
collected task a y l r = ap (collect_locked task a) l ∙ ap (after_sync task a.finished) r

refused_floor :
    (d : Draws) (s : Schedule) (task : ChannelTask) (now : ℕ) (e : Err) (c : Capability)
    → is_authentication_failure e ≡ true
    → contains task.capabilities c ≡ true
    → now + five_minutes
      ≤ (state_at
          (key task.channel.id c)
          (apply_outcome d s (after_sync task now (sync_error e))).states).next_at
unfolding apply_outcome mark_skipped skip after_sync
refused_floor d s task now e c auth p =
    let status = failure_status (http_failure e) in
    let r = failure_retry_after (http_failure e) in
    rw auth (
      mark_failures_floor (λ x. d.failing (key task.channel.id x)) task.channel.id now c
        five_minutes (mark_success s task.channel.id now [])
        (failures_for task.capabilities status (retry_minimum 401 r))
        (failures_for-LeastDelay task.capabilities status (retry_minimum 401 r)
          (retry_minimum-401 r))
        (rw capabilities-failures_for p))

-- If the synchronisation of a channel fails with an authentication error anywhere in the tree of the
-- error, then no capability of the task is due again within five minutes of the end of the attempt,
-- whatever the status, the Retry-After, the interval and the jitter are.
pub authentication_cooldown :
    (d : Draws) (s : Schedule) (task : ChannelTask) (a : Attempt) (e : Err) (c : Capability)
    (at : ℕ)
    → a.lock ≡ lock_held
    → a.reply ≡ sync_error e
    → is_authentication_failure e ≡ true
    → contains task.capabilities c ≡ true
    → is_due
        (state_at (key task.channel.id c) (apply_outcome d s (collect_channel task a)).states)
        at
      ≡ true
    → a.finished + five_minutes ≤ at
authentication_cooldown d s task a e c at l r auth p due =
    let floor = refused_floor d s task a.finished e c auth p in
    let q = rw (collected task a (sync_error e) l r) at due in ground (arith, floor, q)
