-- ===== src/Collection/Service/Order.antt =====
-- About the second loop of RunOnce in internal/collection/service.go, and the order of the outcomes.
use mathlib.Core.Logic.Or
use mathlib.Core.List.Perm
use mathlib.Core.Path.{subst}
use mathlib.Core.List.{Nodup, Nodup-cons, Permᴰ, mem-cons}
use multi_upstream_ai_gatewa.Prelude.{
  Bool-cases, List, ℕ, [], ap, arith, inl, inr, map, nat_beq_iff, nat_eq, refl, string_eq, sym,
  ◌==◌, ◌∙◌, ◌∷◌, ◌≡◌, ◌≢◌,
}
use multi_upstream_ai_gatewa.Collection.Schedule.{
  CapabilityFailure, Schedule, ScheduleKey, States, key, key_beq_iff, key_eq, mark_failure,
  mark_skipped, mark_success, skip, state_at,
}
use multi_upstream_ai_gatewa.Collection.Schedule.Due.{
  mark_failure_lem, mark_skipped_lem, mark_success_lem, state_at-insert, state_at-succeed,
}
use multi_upstream_ai_gatewa.Collection.Service.{
  ChannelOutcome, Draws, apply_outcome, apply_outcomes, mark_failures,
}
use multi_upstream_ai_gatewa.Collector.Contract.{Capability, capability_eq, family_eq}

-- Two schedules agree on a key, and on the intervals.
pub record Agree (k : ScheduleKey) (s t : Schedule) : Type 0 where
  pub intervals : s.interval ≡ t.interval
  pub state : state_at k s.states ≡ state_at k t.states

module _ (channel now : ℕ) where
  pub Agree-mark_success :
      {k : ScheduleKey} {s t : Schedule} (cs : List Capability)
      → Agree k s t
      → Agree k (mark_success s channel now cs) (mark_success t channel now cs)
  unfolding mark_success
  Agree-mark_success {k} {s} {t} cs h = record {
    intervals = h.intervals;
    state = rw (state_at-succeed, state_at-succeed, h.state, h.intervals) refl;
  }

  Agree-mark_failure :
      {k : ScheduleKey} {s t : Schedule} (draw : ℕ → ℕ) (f : CapabilityFailure)
      → Agree k s t
      → Agree k (mark_failure draw s channel now f) (mark_failure draw t channel now f)
  unfolding mark_failure
  Agree-mark_failure {k} {s} {t} draw f h = record {
    intervals = h.intervals;
    state = elim (Bool-cases (key channel f.capability == k)) [
      | inl e ↦
          rw
            (
              state_at-insert,
              state_at-insert,
              e,
              (key_beq_iff (key channel f.capability) k).0 e,
              h.state,
              h.intervals,
            )
            refl
      | inr e ↦ rw (state_at-insert, state_at-insert, e) h.state
    ];
  }

  Agree-skip_step :
      (k : ScheduleKey) (draw : Capability → ℕ → ℕ) (interval : Capability → ℕ) (m n : States)
      (c : Capability)
      → state_at k m ≡ state_at k n
      → state_at k (skip draw interval channel now (c ∷ []) m)
        ≡ state_at k (skip draw interval channel now (c ∷ []) n)
  unfolding skip
  Agree-skip_step k draw interval m n c h = elim (Bool-cases (key channel c == k)) [
    | inl e ↦ rw (state_at-insert, state_at-insert, e, (key_beq_iff (key channel c) k).0 e, h) refl
    | inr e ↦ rw (state_at-insert, state_at-insert, e) h
  ]

  Agree-mark_failures :
      {k : ScheduleKey} (draw : Capability → ℕ → ℕ) (s t : Schedule) (fs : List CapabilityFailure)
      → Agree k s t
      → Agree k (mark_failures draw s channel now fs) (mark_failures draw t channel now fs)
  unfolding mark_failures
  Agree-mark_failures draw s t [] h = h
  Agree-mark_failures draw s t (f ∷ fs) h =
      Agree-mark_failures draw (mark_failure (draw f.capability) s channel now f)
        (mark_failure (draw f.capability) t channel now f) fs
        (Agree-mark_failure (draw f.capability) f h)

  skip_agree :
      (k : ScheduleKey) (draw : Capability → ℕ → ℕ) (interval : Capability → ℕ) (m n : States)
      (cs : List Capability)
      → state_at k m ≡ state_at k n
      → state_at k (skip draw interval channel now cs m)
        ≡ state_at k (skip draw interval channel now cs n)
  unfolding skip
  skip_agree k draw interval m n [] h = h
  skip_agree k draw interval m n (c ∷ cs) h =
      skip_agree k draw interval (skip draw interval channel now (c ∷ []) m)
        (skip draw interval channel now (c ∷ []) n) cs (Agree-skip_step k draw interval m n c h)

  Agree-mark_skipped :
      {k : ScheduleKey} {s t : Schedule} (draw : Capability → ℕ → ℕ) (cs : List Capability)
      → Agree k s t
      → Agree k (mark_skipped draw s channel now cs) (mark_skipped draw t channel now cs)
  unfolding mark_skipped
  Agree-mark_skipped {k} {s} {t} draw cs h = record {
    intervals = h.intervals;
    state = rw h.intervals (skip_agree k draw t.interval s.states t.states cs h.state);
  }

  -- A key of another channel is not touched.
  mark_failures_ne :
      (k : ScheduleKey) (draw : Capability → ℕ → ℕ) (s : Schedule) (fs : List CapabilityFailure)
      → k.channel_id ≢ channel
      → Agree k (mark_failures draw s channel now fs) s
  unfolding mark_failures
  mark_failures_ne k draw s [] h = record { intervals = refl; state = refl }
  mark_failures_ne k draw s (f ∷ fs) h =
      let t = mark_failure (draw f.capability) s channel now f in
      let ih = mark_failures_ne k draw t fs h in
      record {
        intervals = ih.intervals ∙ (unfold mark_failure in refl);
        state =
            ih.state
            ∙ (mark_failure_lem (draw f.capability) s channel now f k).3
                (λ e. h (sym (ap (λ (x : ScheduleKey). x.channel_id) e)));
      }

Agree-apply_outcome :
    {k : ScheduleKey} {s t : Schedule} (d : Draws) (o : ChannelOutcome)
    → Agree k s t
    → Agree k (apply_outcome d s o) (apply_outcome d t o)
unfolding apply_outcome
Agree-apply_outcome d o h =
    let at = o.completed_at in
    let ch = o.channel_id in
    Agree-mark_skipped ch at (λ c. d.again (key ch c)) o.skipped
      (Agree-mark_failures ch at (λ c. d.failing (key ch c)) _ _ o.failed
        (Agree-mark_success ch at o.completed h))

Agree-trans : {k : ScheduleKey} {s t u : Schedule} → Agree k s t → Agree k t u → Agree k s u
Agree-trans h g = record { intervals = h.intervals ∙ g.intervals; state = h.state ∙ g.state }

Agree-sym : {k : ScheduleKey} {s t : Schedule} → Agree k s t → Agree k t s
Agree-sym h = record { intervals = sym h.intervals; state = sym h.state }

apply_outcome_ne :
    (k : ScheduleKey) (d : Draws) (s : Schedule) (o : ChannelOutcome)
    → k.channel_id ≢ o.channel_id
    → Agree k (apply_outcome d s o) s
unfolding apply_outcome
apply_outcome_ne k d s o h =
    let at = o.completed_at in
    let ch = o.channel_id in
    let s₁ = mark_success s ch at o.completed in
    let s₂ = mark_failures (λ c. d.failing (key ch c)) s₁ ch at o.failed in
    let last : Agree k (mark_skipped (λ c. d.again (key ch c)) s₂ ch at o.skipped) s₂ = record {
      intervals = (unfold mark_skipped in refl);
      state = (mark_skipped_lem (λ c. d.again (key ch c)) s₂ ch at o.skipped k).2 (inl h);
    } in
    let first : Agree k s₁ s = record {
      intervals = (unfold mark_success in refl);
      state = (mark_success_lem s ch at o.completed k).1 (inl h);
    } in
    Agree-trans last (Agree-trans (mark_failures_ne ch at k _ s₁ o.failed h) first)

-- Two outcomes of different channels may enter the schedule in either order.
apply_outcome_swap :
    (k : ScheduleKey) (d : Draws) (s : Schedule) (o p : ChannelOutcome)
    → o.channel_id ≢ p.channel_id
    → Agree k (apply_outcome d (apply_outcome d s o) p) (apply_outcome d (apply_outcome d s p) o)
apply_outcome_swap k d s o p h = elim (Bool-cases (k.channel_id == o.channel_id)) [
  | inl e ↦
      (let kp : k.channel_id ≢ p.channel_id =
          λ q. h (sym ((nat_beq_iff k.channel_id o.channel_id).0 e) ∙ q) in
        Agree-trans (apply_outcome_ne k d (apply_outcome d s o) p kp)
          (Agree-apply_outcome d o (Agree-sym (apply_outcome_ne k d s p kp))))
  | inr e ↦
      (let ko : k.channel_id ≢ o.channel_id = λ q. ground (arith, e, q) in
        Agree-trans (Agree-apply_outcome d p (apply_outcome_ne k d s o ko))
          (Agree-sym (apply_outcome_ne k d (apply_outcome d s p) o ko)))
]

Agree-apply_outcomes :
    {k : ScheduleKey} (d : Draws) (s t : Schedule) (os : List ChannelOutcome)
    → Agree k s t
    → Agree k (apply_outcomes d s os) (apply_outcomes d t os)
unfolding apply_outcomes
Agree-apply_outcomes d s t [] h = h
Agree-apply_outcomes d s t (o ∷ os) h =
    Agree-apply_outcomes d (apply_outcome d s o) (apply_outcome d t o) os
      (Agree-apply_outcome d o h)

abbrev pub ids : List ChannelOutcome → List ℕ
ids os = map (λ (o : ChannelOutcome). o.channel_id) os

pub apply_outcomes-perm :
    (k : ScheduleKey) (d : Draws) (s : Schedule) {xs ys : List ChannelOutcome}
    → Permᴰ xs ys
    → Nodup (ids xs)
    → Agree k (apply_outcomes d s xs) (apply_outcomes d s ys)
unfolding apply_outcomes
apply_outcomes-perm k d s Permᴰ.nil h = record { intervals = refl; state = refl }
apply_outcomes-perm k d s (Permᴰ.cons {a = a} {b = b} {l₁ = l₁} {l₂ = l₂} e p) h =
    subst
      (λ c.
        Agree k (apply_outcomes d (apply_outcome d s a) l₁)
          (apply_outcomes d (apply_outcome d s c) l₂))
      e (apply_outcomes-perm k d (apply_outcome d s a) p (Nodup-cons.0 h).1)
apply_outcomes-perm k d s (Permᴰ.swap {a = a} {b = b} {a' = a'} {b' = b'} {l = l} e f) h =
    subst
      (λ u.
        Agree k (apply_outcomes d (apply_outcome d (apply_outcome d s a) b) l)
          (apply_outcomes d (apply_outcome d (apply_outcome d s u) b') l))
      f
      (subst
        (λ u.
          Agree k (apply_outcomes d (apply_outcome d (apply_outcome d s a) b) l)
            (apply_outcomes d (apply_outcome d (apply_outcome d s b) u) l))
        e
        (Agree-apply_outcomes d _ _ l
          (apply_outcome_swap k d s a b (λ q. (Nodup-cons.0 h).0 (mem-cons.1 (Or.inl q))))))
apply_outcomes-perm k d s (Permᴰ.trans {l₁ = xs} p q) h =
    Agree-trans (apply_outcomes-perm k d s p h)
      (apply_outcomes-perm k d s q (Perm.nodup (Perm.map _ ∣ p ∣₁) h))
