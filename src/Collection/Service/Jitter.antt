-- ===== src/Collection/Service/Jitter.antt =====
-- About the second loop of RunOnce in internal/collection/service.go under different draws of the
-- jitter.
use mathlib.Core.List.{Nodup, Permᴰ}
use multi_upstream_ai_gatewa.Prelude.{
  Bool-cases, List, ℕ, [], ap, contains, if◌then◌else◌, inl, inr, nat_eq, refl, string_eq, sym,
  ◌&&◌, ◌==◌, ◌∙◌, ◌∷◌, ◌≡◌,
}
use multi_upstream_ai_gatewa.Collection.Schedule.{
  CapabilityFailure, Schedule, ScheduleKey, ScheduleState, States, key, key_beq_iff, key_eq,
  mark_failure, mark_skipped, mark_success, skip, state_at,
}
use multi_upstream_ai_gatewa.Collection.Schedule.Due.{
  mark_skipped_lem, state_at-insert, state_at-succeed,
}
use multi_upstream_ai_gatewa.Collection.Service.{
  ChannelOutcome, Draws, apply_outcome, apply_outcomes, mark_failures,
}
use multi_upstream_ai_gatewa.Collection.Service.Order.{
  Agree, Agree-mark_success, apply_outcomes-perm, ids,
}
use multi_upstream_ai_gatewa.Collector.Contract.{Capability, capability_eq, family_eq}

-- The draws of `d` for one key, and those of `d'` for all others.
abbrev pub sharing : ScheduleKey → Draws → Draws → Draws
sharing k d d' = record {
  failing = λ j. if j == k then d.failing j else d'.failing j;
  again = λ j. if j == k then d.again j else d'.again j;
}

module _ (channel now : ℕ) (k : ScheduleKey) where
  Agree-draw_failure :
      {s t : Schedule} (draw draw' : ℕ → ℕ) (f : CapabilityFailure)
      → (key channel f.capability ≡ k → draw ≡ draw')
      → Agree k s t
      → Agree k (mark_failure draw s channel now f) (mark_failure draw' t channel now f)
  unfolding mark_failure
  Agree-draw_failure {s} {t} draw draw' f same h = record {
    intervals = h.intervals;
    state = elim (Bool-cases (key channel f.capability == k)) [
      | inl e ↦
          (let q = (key_beq_iff (key channel f.capability) k).0 e in
            rw (state_at-insert, state_at-insert, e, q, same q, h.state, h.intervals) refl)
      | inr e ↦ rw (state_at-insert, state_at-insert, e) h.state
    ];
  }

  Agree-draw_failures :
      (draw draw' : Capability → ℕ → ℕ) (s t : Schedule) (fs : List CapabilityFailure)
      → ((c : Capability) → key channel c ≡ k → draw c ≡ draw' c)
      → Agree k s t
      → Agree k (mark_failures draw s channel now fs) (mark_failures draw' t channel now fs)
  unfolding mark_failures
  Agree-draw_failures draw draw' s t [] same h = h
  Agree-draw_failures draw draw' s t (f ∷ fs) same h =
      Agree-draw_failures draw draw' (mark_failure (draw f.capability) s channel now f)
        (mark_failure (draw' f.capability) t channel now f) fs same
        (Agree-draw_failure (draw f.capability) (draw' f.capability) f (same f.capability) h)

  draw_skip_step :
      (draw draw' : Capability → ℕ → ℕ) (interval : Capability → ℕ) (m n : States) (c : Capability)
      → (key channel c ≡ k → draw c ≡ draw' c)
      → state_at k m ≡ state_at k n
      → state_at k (skip draw interval channel now (c ∷ []) m)
        ≡ state_at k (skip draw' interval channel now (c ∷ []) n)
  unfolding skip
  draw_skip_step draw draw' interval m n c same h = elim (Bool-cases (key channel c == k)) [
    | inl e ↦
        (let q = (key_beq_iff (key channel c) k).0 e in
          rw (state_at-insert, state_at-insert, e, q, same q, h) refl)
    | inr e ↦ rw (state_at-insert, state_at-insert, e) h
  ]

  draw_skip :
      (draw draw' : Capability → ℕ → ℕ) (interval : Capability → ℕ) (m n : States)
      (cs : List Capability)
      → ((c : Capability) → key channel c ≡ k → draw c ≡ draw' c)
      → state_at k m ≡ state_at k n
      → state_at k (skip draw interval channel now cs m)
        ≡ state_at k (skip draw' interval channel now cs n)
  unfolding skip
  draw_skip draw draw' interval m n [] same h = h
  draw_skip draw draw' interval m n (c ∷ cs) same h =
      draw_skip draw draw' interval (skip draw interval channel now (c ∷ []) m)
        (skip draw' interval channel now (c ∷ []) n) cs same
        (draw_skip_step draw draw' interval m n c (same c) h)

  Agree-draw_skipped :
      {s t : Schedule} (draw draw' : Capability → ℕ → ℕ) (cs : List Capability)
      → ((c : Capability) → key channel c ≡ k → draw c ≡ draw' c)
      → Agree k s t
      → Agree k (mark_skipped draw s channel now cs) (mark_skipped draw' t channel now cs)
  unfolding mark_skipped
  Agree-draw_skipped {s} {t} draw draw' cs same h = record {
    intervals = h.intervals;
    state = rw h.intervals (draw_skip draw draw' t.interval s.states t.states cs same h.state);
  }

sharing-failing :
    (k j : ScheduleKey) (d d' : Draws) → j ≡ k → d.failing j ≡ (sharing k d d').failing j
sharing-failing k j d d' e = rw ((key_beq_iff j k).1 e) refl

sharing-again : (k j : ScheduleKey) (d d' : Draws) → j ≡ k → d.again j ≡ (sharing k d d').again j
sharing-again k j d d' e = rw ((key_beq_iff j k).1 e) refl

Agree-share :
    (k : ScheduleKey) (d d' : Draws) {s t : Schedule} (o : ChannelOutcome)
    → Agree k s t
    → Agree k (apply_outcome d s o) (apply_outcome (sharing k d d') t o)
unfolding apply_outcome
Agree-share k d d' o h =
    let at = o.completed_at in
    let ch = o.channel_id in
    Agree-draw_skipped ch at k (λ c. d.again (key ch c)) _ o.skipped
      (λ c. sharing-again k (key ch c) d d')
      (Agree-draw_failures ch at k (λ c. d.failing (key ch c)) _ _ _ o.failed
        (λ c. sharing-failing k (key ch c) d d') (Agree-mark_success ch at o.completed h))

Agree-sharing :
    (k : ScheduleKey) (d d' : Draws) (s t : Schedule) (os : List ChannelOutcome)
    → Agree k s t
    → Agree k (apply_outcomes d s os) (apply_outcomes (sharing k d d') t os)
unfolding apply_outcomes
Agree-sharing k d d' s t [] h = h
Agree-sharing k d d' s t (o ∷ os) h =
    Agree-sharing k d d' (apply_outcome d s o) (apply_outcome (sharing k d d') t o) os
      (Agree-share k d d' o h)

-- Two schedules agree on how often a key has failed, and on the intervals.
pub record Alike (k : ScheduleKey) (s t : Schedule) : Type 0 where
  pub same_intervals : s.interval ≡ t.interval
  pub failures : (state_at k s.states).failure_count ≡ (state_at k t.states).failure_count

module _ (channel now : ℕ) (k : ScheduleKey) where
  Alike-mark_success :
      {s t : Schedule} (cs : List Capability)
      → Alike k s t
      → Alike k (mark_success s channel now cs) (mark_success t channel now cs)
  unfolding mark_success
  Alike-mark_success {s} {t} cs h = record {
    same_intervals = h.same_intervals;
    failures =
        rw (state_at-succeed, state_at-succeed, h.same_intervals)
          (elim (Bool-cases (k.channel_id == channel && contains cs k.capability)) [
            | inl e ↦ rw e refl
            | inr e ↦ rw e h.failures
          ]);
  }

  Alike-mark_failure :
      {s t : Schedule} (draw draw' : ℕ → ℕ) (f : CapabilityFailure)
      → Alike k s t
      → Alike k (mark_failure draw s channel now f) (mark_failure draw' t channel now f)
  unfolding mark_failure
  Alike-mark_failure {s} {t} draw draw' f h = record {
    same_intervals = h.same_intervals;
    failures = elim (Bool-cases (key channel f.capability == k)) [
      | inl e ↦
          rw
            (
              state_at-insert,
              state_at-insert,
              e,
              (key_beq_iff (key channel f.capability) k).0 e,
              h.failures,
            )
            refl
      | inr e ↦ rw (state_at-insert, state_at-insert, e) h.failures
    ];
  }

  Alike-mark_failures :
      (draw draw' : Capability → ℕ → ℕ) (s t : Schedule) (fs : List CapabilityFailure)
      → Alike k s t
      → Alike k (mark_failures draw s channel now fs) (mark_failures draw' t channel now fs)
  unfolding mark_failures
  Alike-mark_failures draw draw' s t [] h = h
  Alike-mark_failures draw draw' s t (f ∷ fs) h =
      Alike-mark_failures draw draw' (mark_failure (draw f.capability) s channel now f)
        (mark_failure (draw' f.capability) t channel now f) fs
        (Alike-mark_failure (draw f.capability) (draw' f.capability) f h)

  Alike-mark_skipped :
      {s t : Schedule} (draw draw' : Capability → ℕ → ℕ) (cs : List Capability)
      → Alike k s t
      → Alike k (mark_skipped draw s channel now cs) (mark_skipped draw' t channel now cs)
  Alike-mark_skipped {s} {t} draw draw' cs h = record {
    same_intervals = unfold mark_skipped in h.same_intervals;
    failures =
        (mark_skipped_lem draw s channel now cs k).0
        ∙ h.failures
        ∙ sym (mark_skipped_lem draw' t channel now cs k).0;
  }

Alike-apply_outcome :
    (k : ScheduleKey) (d d' : Draws) {s t : Schedule} (o : ChannelOutcome)
    → Alike k s t
    → Alike k (apply_outcome d s o) (apply_outcome d' t o)
unfolding apply_outcome
Alike-apply_outcome k d d' o h =
    let at = o.completed_at in
    let ch = o.channel_id in
    Alike-mark_skipped ch at k _ _ o.skipped
      (Alike-mark_failures ch at k _ _ _ _ o.failed (Alike-mark_success ch at k o.completed h))

Alike-apply_outcomes :
    (k : ScheduleKey) (d d' : Draws) (s t : Schedule) (os : List ChannelOutcome)
    → Alike k s t
    → Alike k (apply_outcomes d s os) (apply_outcomes d' t os)
unfolding apply_outcomes
Alike-apply_outcomes k d d' s t [] h = h
Alike-apply_outcomes k d d' s t (o ∷ os) h =
    Alike-apply_outcomes k d d' (apply_outcome d s o) (apply_outcome d' t o) os
      (Alike-apply_outcome k d d' o h)

-- Two orders of the same outcomes leave the same state for a key that gets the same draws, and the
-- same number of failures whatever the draws are.
pub apply_outcomes-order :
    (k : ScheduleKey) (d d' : Draws) (s : Schedule) {xs ys : List ChannelOutcome}
    → Permᴰ xs ys
    → Nodup (ids xs)
    → (state_at k (apply_outcomes d s xs).states
        ≡ state_at k (apply_outcomes (sharing k d d') s ys).states)
      × ((state_at k (apply_outcomes d s xs).states).failure_count
          ≡ (state_at k (apply_outcomes d' s ys).states).failure_count)
apply_outcomes-order k d d' s {ys = ys} p h =
    let swapped = Agree.state (apply_outcomes-perm k d s p h) in
    let shared = Agree-sharing k d d' s s ys (record { intervals = refl; state = refl }) in
    let alike =
      Alike-apply_outcomes k d d' s s ys (record { same_intervals = refl; failures = refl }) in
    (swapped ∙ shared.state, ap (λ (x : ScheduleState). x.failure_count) swapped ∙ alike.failures)
