-- ===== src/Collection/Schedule/Wakeup.antt =====
-- About NextDelay of internal/collection/service.go.
use mathlib.Core.Path.{subst}
use multi_upstream_ai_gatewa.Prelude.{
  All, Any, Bool-cases, ℕ, [], arith, false, if◌then◌else◌, inl, inr, leb, leb-false, leb→le, ltb,
  nat_eq, string_eq, ◌+◌, ◌-◌, ◌<◌, ◌==◌, ◌||◌, ◌∷◌, ◌≡◌, ◌≤◌, ◌⊎◌,
}
use multi_upstream_ai_gatewa.Collection.Schedule.{
  Schedule, ScheduleKey, ScheduleState, States, key_eq, next_delay, next_delay_from,
}

-- What the loop of NextDelay knows when it returns `r`, having come in with `shortest`.
abbrev Wakes : ℕ → ℕ → ℕ → States → Type 0
Wakes now shortest r m =
    (r ≡ 0 × (Any (λ e. e.1.next_at ≤ now) m ⊎ (m ≡ [] × shortest ≡ 0)))
    ⊎ (0 < r
        × All (λ e. now + r ≤ e.1.next_at) m
        × (shortest ≡ 0 ⊎ (r ≤ shortest))
        × (r ≡ shortest ⊎ Any (λ e. e.1.next_at ≡ now + r) m))

-- One state in front of the others.
Wakes-cons :
    (now shortest r : ℕ) (k : ScheduleKey) (s : ScheduleState) (m : States)
    → now < s.next_at
    → Wakes now
        (if shortest == 0 || ltb (s.next_at - now) shortest then s.next_at - now else shortest)
        r
        m
    → Wakes now shortest r ((k, s) ∷ m)
Wakes-cons now shortest r k s m h w = ground arith

next_delay_from_later :
    (now shortest : ℕ) (k : ScheduleKey) (s : ScheduleState) (m : States)
    → leb s.next_at now ≡ false
    → next_delay_from now
        (if shortest == 0 || ltb (s.next_at - now) shortest then s.next_at - now else shortest)
        m
      ≡ next_delay_from now shortest ((k, s) ∷ m)
unfolding next_delay_from
next_delay_from_later now shortest k s m h = rw h

next_delay_from-Wakes :
    (now shortest : ℕ) (m : States) → Wakes now shortest (next_delay_from now shortest m) m
unfolding next_delay_from
next_delay_from-Wakes now shortest [] = ground arith
next_delay_from-Wakes now shortest ((k, s) ∷ m) = elim (Bool-cases (leb s.next_at now)) [
  | inl h ↦ inl (rw h, inl (inl (leb→le s.next_at now h)))
  | inr h ↦
      subst (λ r. Wakes now shortest r ((k, s) ∷ m)) (next_delay_from_later now shortest k s m h)
        (Wakes-cons now shortest _ k s m (leb-false s.next_at now h) (
          next_delay_from-Wakes now
            (if shortest == 0 || ltb (s.next_at - now) shortest then s.next_at - now else shortest)
            m))
]

-- A positive NextDelay is the time to the first due capability: no state's next run comes earlier,
-- and one comes exactly then. NextDelay is 0 exactly if nothing is scheduled or some state's next run
-- has come.
pub next_delay_lem :
    (s : Schedule) (now : ℕ)
    → (next_delay s now ≡ 0 × (Any (λ e. e.1.next_at ≤ now) s.states ⊎ (s.states ≡ [])))
      ⊎ (0 < next_delay s now
          × All (λ e. now + next_delay s now ≤ e.1.next_at) s.states
          × Any (λ e. e.1.next_at ≡ now + next_delay s now) s.states)
unfolding next_delay
next_delay_lem s now = elim (next_delay_from-Wakes now 0 s.states) [
  | inl (z, inl a) ↦ inl (z, inl a)
  | inl (z, inr (e, _)) ↦ inl (z, inr e)
  | inr (p, a, _, inl z) ↦ absurd (omega arith)
  | inr (p, a, _, inr w) ↦ inr (p, a, w)
]
