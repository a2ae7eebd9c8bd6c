-- ===== src/Collection/Schedule/Due.antt =====
-- Due, MarkSuccess, MarkFailure, MarkSkipped and Prune as seen through the states of single keys.
use mathlib.Core.Path.{fun_ext}
use multi_upstream_ai_gatewa.Prelude.{
  Bool, Bool-cases, List, ℕ, [], ap, arith, beq-false, beq_refl, contains, false, if◌then◌else◌,
  inl, inr, leb, ltb, nat_eq, refl, select, string_eq, true, ◌&&◌, ◌+◌, ◌<◌, ◌==◌, ◌∙◌, ◌∷◌, ◌≡◌,
  ◌≢◌, ◌≤◌, ◌⊎◌,
}
use multi_upstream_ai_gatewa.Collection.Schedule.{
  CapabilityFailure, Schedule, ScheduleKey, ScheduleState, States, bump_failures, due, due_from,
  is_due, key, key_beq_iff, key_eq, mark_failure, mark_skipped, mark_success, prune, retry_delay,
  skip, state_at, succeed, touch, zero_state,
}
use multi_upstream_ai_gatewa.Collector.Contract.{
  Capability, capability_beq_iff, capability_eq, capability_order, family_eq,
}
use multi_upstream_ai_gatewa.Prelude.Dict.{insert, lookup-insert, lookup-retain}

-- Entering the zero state for a missing key changes no state that is read.
state_at-touch : (k j : ScheduleKey) (m : States) → state_at j (touch k m) ≡ state_at j m
unfolding state_at touch
state_at-touch k j m = ground (arith, lookup-insert k j zero_state m, key_beq_iff k j)

pub state_at-insert :
    (k j : ScheduleKey) (s : ScheduleState) (m : States)
    → state_at j (insert k s m) ≡ (if k == j then s else state_at j m)
unfolding state_at
state_at-insert k j s m = ground (arith, lookup-insert k j s m)

pub state_at-insert_ne :
    (k j : ScheduleKey) (s : ScheduleState) (m : States)
    → (k == j) ≡ false
    → state_at j (insert k s m) ≡ state_at j m
state_at-insert_ne k j s m h = state_at-insert k j s m ∙ rw h

due_from-select :
    (cs : List Capability) (channel now : ℕ) (m : States)
    → (due_from cs channel now m).0 ≡ select (λ c. is_due (state_at (key channel c) m) now) cs
unfolding due_from
due_from-select [] channel now m = refl
due_from-select (d ∷ cs) channel now m =
    ap (λ (r : List Capability). if is_due (state_at (key channel d) m) now then d ∷ r else r)
      (due_from-select cs channel now (touch (key channel d) m)
        ∙ ap (λ (q : ScheduleKey → ScheduleState). select (λ c. is_due (q (key channel c)) now) cs)
            (fun_ext (λ k. state_at-touch (key channel d) k m)))

state_at-due_from :
    (k : ScheduleKey) (cs : List Capability) (channel now : ℕ) (m : States)
    → state_at k (due_from cs channel now m).1 ≡ state_at k m
unfolding due_from
state_at-due_from k [] channel now m = refl
state_at-due_from k (d ∷ cs) channel now m =
    state_at-due_from k cs channel now (touch (key channel d) m)
    ∙ state_at-touch (key channel d) k m

-- Due lists, in the order of dependence, exactly the capabilities whose state is the zero state or
-- whose next run is not after `now`, and no state that a later call reads is changed by it.
pub due-select :
    (s : Schedule) (channel now : ℕ)
    → ((due s channel now).0
        ≡ select (λ c. is_due (state_at (key channel c) s.states) now) capability_order)
      × ((k : ScheduleKey) → state_at k (due s channel now).1.states ≡ state_at k s.states)
unfolding due
due-select s channel now = (
  due_from-select capability_order channel now s.states,
  λ k. state_at-due_from k capability_order channel now s.states,
)

module _ (interval : Capability → ℕ) (channel now : ℕ) where
  pub state_at-succeed :
      (k : ScheduleKey) (cs : List Capability) (m : States)
      → state_at k (succeed interval channel now cs m) ≡ (
          if k.channel_id == channel && contains cs k.capability
          then record { next_at = now + interval k.capability; failure_count = 0 }
          else state_at k m)
  unfolding succeed
  state_at-succeed k [] m = ground arith
  state_at-succeed k (c ∷ cs) m = ground (
    arith,
    state_at-succeed k cs
        (insert (key channel c) (record { next_at = now + interval c; failure_count = 0 }) m),
    state_at-insert (key channel c) k (record { next_at = now + interval c; failure_count = 0 }) m,
    capability_beq_iff c k.capability,
  )

-- After MarkSuccess at `now`, a listed capability of the channel has no failures and is due exactly
-- from `now` plus its interval on (that time not being the zero time), and the state of every other
-- key is as it was.
pub mark_success_lem :
    (s : Schedule) (channel now : ℕ) (cs : List Capability) (k : ScheduleKey)
    → let t = mark_success s channel now cs in
      (k.channel_id ≡ channel
        → contains cs k.capability ≡ true
        → ((state_at k t.states).failure_count ≡ 0)
          × ((at : ℕ)
              → 0 < now + s.interval k.capability
              → is_due (state_at k t.states) at ≡ leb (now + s.interval k.capability) at))
      × ((k.channel_id ≢ channel) ⊎ (contains cs k.capability ≡ false)
          → state_at k t.states ≡ state_at k s.states)
unfolding mark_success
mark_success_lem s channel now cs k = (
  λ h c. (
    ground (arith, state_at-succeed s.interval channel now k cs s.states),
    λ at p. ground (arith, state_at-succeed s.interval channel now k cs s.states),
  ),
  λ h. ground (arith, state_at-succeed s.interval channel now k cs s.states),
)

-- After MarkFailure at `now` the capability has one failure more, up to 63; its next run waits at
-- least the delay that the upstream asked for, and at least the delay of retryDelay for the new
-- count; the state of every other key is as it was.
pub mark_failure_lem :
    (draw : ℕ → ℕ) (s : Schedule) (channel now : ℕ) (f : CapabilityFailure) (j : ScheduleKey)
    → let t = mark_failure draw s channel now f in
      let k = key channel f.capability in
      let old = (state_at k s.states).failure_count in
      ((state_at k t.states).failure_count ≡ (if ltb old 63 then old + 1 else old))
      × (now + f.minimum_delay ≤ (state_at k t.states).next_at)
      × (now + retry_delay draw (s.interval f.capability) (state_at k t.states).failure_count
          ≤ (state_at k t.states).next_at)
      × (k ≢ j → state_at j t.states ≡ state_at j s.states)
unfolding mark_failure bump_failures
mark_failure_lem draw s channel now f j = (
  rw (state_at-insert, beq_refl) refl,
  rw (state_at-insert, beq_refl) (omega arith),
  rw (state_at-insert, beq_refl) (omega arith),
  λ h. state_at-insert_ne (key channel f.capability) j _ s.states (beq-false _ _ h),
)

module _ (draw : Capability → ℕ → ℕ) (interval : Capability → ℕ) (channel now : ℕ) where
  pub failure_count-skip :
      (k : ScheduleKey) (cs : List Capability) (m : States)
      → (state_at k (skip draw interval channel now cs m)).failure_count
        ≡ (state_at k m).failure_count
  unfolding skip
  failure_count-skip k [] m = refl
  failure_count-skip k (c ∷ cs) m =
      failure_count-skip k cs _ ∙ rw state_at-insert (ground (arith, key_beq_iff (key channel c) k))

  pub state_at-skip_ne :
      (k : ScheduleKey) (cs : List Capability) (m : States)
      → (k.channel_id ≢ channel) ⊎ (contains cs k.capability ≡ false)
      → state_at k (skip draw interval channel now cs m) ≡ state_at k m
  unfolding skip
  state_at-skip_ne k [] m h = refl
  state_at-skip_ne k (c ∷ cs) m h =
      state_at-skip_ne k cs _ (ground (arith, h))
      ∙ state_at-insert_ne (key channel c) k _ m
          (ground (arith, h, capability_beq_iff c k.capability))

  pub next_at-skip :
      (k : ScheduleKey) (cs : List Capability) (m : States)
      → k.channel_id ≡ channel
      → contains cs k.capability ≡ true
      → (state_at k (skip draw interval channel now cs m)).next_at
        ≡ now + retry_delay (draw k.capability) (interval k.capability) 1
  unfolding skip
  next_at-skip k [] m h p = cc
  next_at-skip k (c ∷ cs) m h p = elim (Bool-cases (contains cs k.capability)) [
    | inl q ↦ next_at-skip k cs _ h q
    | inr q ↦
        ap (λ (s : ScheduleState). s.next_at)
          (state_at-skip_ne k cs _ (inr q) ∙ state_at-insert (key channel c) k _ m)
        ∙ ground (arith, capability_beq_iff c k.capability)
  ]

-- MarkSkipped counts no failure against any capability, retries each listed one after the delay of
-- a first failure, and leaves the states of all other keys alone.
pub mark_skipped_lem :
    (draw : Capability → ℕ → ℕ) (s : Schedule) (channel now : ℕ) (cs : List Capability)
    (k : ScheduleKey)
    → let t = mark_skipped draw s channel now cs in
      ((state_at k t.states).failure_count ≡ (state_at k s.states).failure_count)
      × (k.channel_id ≡ channel
          → contains cs k.capability ≡ true
          → (state_at k t.states).next_at
            ≡ now + retry_delay (draw k.capability) (s.interval k.capability) 1)
      × ((k.channel_id ≢ channel) ⊎ (contains cs k.capability ≡ false)
          → state_at k t.states ≡ state_at k s.states)
unfolding mark_skipped
mark_skipped_lem draw s channel now cs k = (
  failure_count-skip draw s.interval channel now k cs s.states,
  next_at-skip draw s.interval channel now k cs s.states,
  state_at-skip_ne draw s.interval channel now k cs s.states,
)

-- A channel that Prune forgets is due at once, whatever its states were; an active one keeps them.
pub prune_lem :
    (active : ℕ → Bool) (s : Schedule) (k : ScheduleKey)
    → state_at k (prune active s).states
      ≡ (if active k.channel_id then state_at k s.states else zero_state)
unfolding prune state_at
prune_lem active s k =
    ground (arith, lookup-retain (λ (j : ScheduleKey). active j.channel_id) k s.states)
