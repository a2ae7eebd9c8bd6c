-- ===== src/Collection/Schedule/Return.antt =====
-- About the return of capabilities in the type Schedule of internal/collection/service.go.
use multi_upstream_ai_gatewa.Prelude.{
  Bool, List, ℕ, ap, arith, beq_refl, contains, contains-select, max, nat_eq, refl, string_eq, sym,
  true, ◌*◌, ◌+◌, ◌<◌, ◌==◌, ◌∙◌, ◌≡◌, ◌≤◌,
}
use multi_upstream_ai_gatewa.Collection.Schedule.{
  CapabilityFailure, Schedule, bump_failures, due, is_due, key, key_eq, mark_failure, mark_skipped,
  mark_success, minute, state_at,
}
use multi_upstream_ai_gatewa.Collection.Schedule.Backoff.{retry_delay_bounds}
use multi_upstream_ai_gatewa.Collection.Schedule.Due.{
  due-select, next_at-skip, state_at-insert, state_at-succeed,
}
use multi_upstream_ai_gatewa.Collector.Contract.{
  Capability, cap_account, cap_groups, cap_keys, cap_model_catalog, cap_pricing, capability_eq,
  capability_order, family_eq,
}

-- What RunOnce writes back about a task.
pub data Mark : Type 0 where
  by_success : List Capability → Mark
  by_failure : CapabilityFailure → Mark
  by_skip : List Capability → Mark

abbrev pub marked : (Capability → ℕ → ℕ) → Schedule → ℕ → ℕ → Mark → Schedule
marked draw s channel now (by_success cs) = mark_success s channel now cs
marked draw s channel now (by_failure f) = mark_failure (draw f.capability) s channel now f
marked draw s channel now (by_skip cs) = mark_skipped draw s channel now cs

abbrev pub concerns : Mark → Capability → Bool
concerns (by_success cs) c = contains cs c
concerns (by_failure f) c = f.capability == c
concerns (by_skip cs) c = contains cs c

-- The longest time until a capability is due again.
abbrev pub longest : Schedule → Mark → Capability → ℕ
longest s (by_success cs) c = s.interval c
longest s (by_failure f) c = max (36 * minute) f.minimum_delay
longest s (by_skip cs) c = 36 * minute

contains-capability_order : (c : Capability) → contains capability_order c ≡ true
contains-capability_order cap_account = refl
contains-capability_order cap_groups = refl
contains-capability_order cap_keys = refl
contains-capability_order cap_pricing = refl
contains-capability_order cap_model_catalog = refl

listed-due :
    (s : Schedule) (channel t : ℕ) (c : Capability)
    → (state_at (key channel c) s.states).next_at ≤ t
    → contains (due s channel t).0 c ≡ true
listed-due s channel t c h =
    let (found, same) = due-select s channel t in
    ap (λ cs. contains cs c) found
    ∙ contains-select (λ c. is_due (state_at (key channel c) s.states) t) capability_order c
    ∙ rw (contains-capability_order c) (ground (arith, h))

module _ (draw : Capability → ℕ → ℕ) (fair : (c : Capability) (n : ℕ) → 0 < n → draw c n < n) where
  marked-next_at :
      (s : Schedule) (channel now : ℕ) (m : Mark) (c : Capability)
      → concerns m c ≡ true
      → (state_at (key channel c) (marked draw s channel now m).states).next_at
        ≤ now + longest s m c
  unfolding mark_success mark_failure mark_skipped
  marked-next_at s channel now (by_success cs) c h =
      ground (arith, h, state_at-succeed s.interval channel now (key channel c) cs s.states)
  marked-next_at s channel now (by_failure f) c h =
      let same : f.capability ≡ c = (capability_eq.beq_iff f.capability c).0 h in
      let count = bump_failures (state_at (key channel f.capability) s.states).failure_count in
      let (low, high, part, short) =
        retry_delay_bounds (draw f.capability) (s.interval f.capability) count
          (fair f.capability) in
      rw (sym same, state_at-insert, beq_refl (key channel f.capability)) (omega (arith, short))
  marked-next_at s channel now (by_skip cs) c h =
      let (low, high, part, short) = retry_delay_bounds (draw c) (s.interval c) 1 (fair c) in
      rw (next_at-skip draw s.interval channel now (key channel c) cs s.states refl h)
        (omega (arith, short))

  -- If every draw is below its bound, no capability is lost: after MarkSuccess, MarkFailure or
  -- MarkSkipped for it, Due lists it again at every time from a bound on, namely its interval, 36
  -- minutes or the delay that the upstream asked for if that is longer, and 36 minutes.
  pub due-marked :
      (s : Schedule) (channel now t : ℕ) (m : Mark) (c : Capability)
      → concerns m c ≡ true
      → now + longest s m c ≤ t
      → contains (due (marked draw s channel now m) channel t).0 c ≡ true
  due-marked s channel now t m c h later =
      listed-due (marked draw s channel now m) channel t c
        (omega (arith, marked-next_at s channel now m c h, later))
