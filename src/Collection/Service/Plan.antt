-- ===== src/Collection/Service/Plan.antt =====
-- The first loop of RunOnce: which channels get a task, and RunOnce as a whole.
use mathlib.Core.Logic.Or
use mathlib.Core.List.{Mem, mem-cons}
use mathlib.Core.Logic.{∥∥₁_prop}
use mathlib.Core.List.{Nodup, Nodup-cons}
use mathlib.Core.Path.{ap₂, fun_ext}
use mathlib.Core.List.{Permᴰ}
use multi_upstream_ai_gatewa.Prelude.{
  Bool-cases, List, ℕ, [], ap, arith, if◌then◌else◌, inl, inr, map, refl, select, sym, ◌∙◌, ◌∷◌,
  ◌≡◌,
}
use multi_upstream_ai_gatewa.Collection.Schedule.{
  Schedule, ScheduleKey, ScheduleState, due, is_due, key, state_at,
}
use multi_upstream_ai_gatewa.Collection.Schedule.Due.{due-select}
use multi_upstream_ai_gatewa.Collection.Service.{
  Attempt, Channel, ChannelOutcome, ChannelTask, Draws, LockReply, SyncReply, after_sync,
  collect_channel, collect_locked, collection_disabled, lock_busy, lock_error, lock_held, plan,
  run_once, sync_error, sync_nil, synced,
}
use multi_upstream_ai_gatewa.Collection.Service.Jitter.{apply_outcomes-order, sharing}
use multi_upstream_ai_gatewa.Collection.Service.Order.{Agree, apply_outcomes-perm}
use multi_upstream_ai_gatewa.Collector.Contract.{Capability, capability_order}

abbrev task_ids : List ChannelTask → List ℕ
task_ids ts = map (λ (t : ChannelTask). t.channel.id) ts

abbrev channel_ids : List Channel → List ℕ
channel_ids cs = map (λ (c : Channel). c.id) cs

task_for : Channel → List Capability → List ChannelTask → List ChannelTask
task_for c [] tasks = tasks
task_for c (x ∷ xs) tasks = record { channel = c; capabilities = x ∷ xs } ∷ tasks

plan-cons :
    (now : ℕ) (c : Channel) (cs : List Channel) (s : Schedule)
    → (plan now (c ∷ cs) s).0 ≡ (
        if collection_disabled c now
        then (plan now cs s).0
        else task_for c (due s c.id now).0 (plan now cs (due s c.id now).1).0)
unfolding plan task_for
plan-cons now c cs s = ground arith

mem-task_for :
    (x : ℕ) (c : Channel) (found : List Capability) (ts : List ChannelTask) (l : List ℕ)
    → (Mem x (task_ids ts) → Mem x l)
    → Mem x (task_ids (task_for c found ts))
    → Mem x (c.id ∷ l)
unfolding task_for
mem-task_for x c [] ts l f m = mem-cons.1 (Or.inr (f m))
mem-task_for x c (y ∷ ys) ts l f m =
    mem-cons.1 (Or.elim ∥∥₁_prop (mem-cons.0 m) Or.inl (λ n. Or.inr (f n)))

mem-plan :
    (x now : ℕ) (cs : List Channel) (s : Schedule)
    → Mem x (task_ids (plan now cs s).0)
    → Mem x (channel_ids cs)
mem-plan x now [] s m = (unfold plan in m)
mem-plan x now (c ∷ cs) s m = elim (Bool-cases (collection_disabled c now)) [
  | inl e ↦ mem-cons.1 (Or.inr (mem-plan x now cs s (rw (plan-cons now c cs s, e) at m)))
  | inr e ↦
      mem-task_for x c (due s c.id now).0 _ (channel_ids cs) (mem-plan x now cs (due s c.id now).1)
        (rw (plan-cons now c cs s, e) at m)
]

task_for-Nodup :
    (c : Channel) (found : List Capability) (ts : List ChannelTask) (l : List ℕ)
    → ((x : ℕ) → Mem x (task_ids ts) → Mem x l)
    → ¬ Mem c.id l
    → Nodup (task_ids ts)
    → Nodup (task_ids (task_for c found ts))
unfolding task_for
task_for-Nodup c [] ts l f n d = d
task_for-Nodup c (y ∷ ys) ts l f n d = Nodup-cons.1 (λ m. n (f c.id m), d)

plan-Nodup :
    (now : ℕ) (cs : List Channel) (s : Schedule)
    → Nodup (channel_ids cs)
    → Nodup (task_ids (plan now cs s).0)
plan-Nodup now [] s h = (unfold plan in h)
plan-Nodup now (c ∷ cs) s h = elim (Bool-cases (collection_disabled c now)) [
  | inl e ↦ rw (plan-cons now c cs s, e) (plan-Nodup now cs s (Nodup-cons.0 h).1)
  | inr e ↦
      rw (plan-cons now c cs s, e)
        (task_for-Nodup c (due s c.id now).0 _ (channel_ids cs)
          (λ x. mem-plan x now cs (due s c.id now).1) (Nodup-cons.0 h).0
          (plan-Nodup now cs (due s c.id now).1 (Nodup-cons.0 h).1))
]

due_now : Schedule → ℕ → ℕ → List Capability
due_now s now channel =
    select (λ c. is_due (state_at (key channel c) s.states) now) capability_order

-- The tasks that a round should have: for each channel that is not disabled, what is due there,
-- unless that is nothing.
pub wanted : ℕ → Schedule → List Channel → List ChannelTask
unfolding task_for due_now
wanted now s [] = []
wanted now s (c ∷ cs) =
    let rest = wanted now s cs in
    if collection_disabled c now then rest else task_for c (due_now s now c.id) rest

wanted-cong :
    (now : ℕ) (s t : Schedule) (cs : List Channel)
    → ((k : ScheduleKey) → state_at k s.states ≡ state_at k t.states)
    → wanted now s cs ≡ wanted now t cs
unfolding wanted
wanted-cong now s t [] h = refl
wanted-cong now s t (c ∷ cs) h = rw (wanted-cong now s t cs h) (
    ap
      (λ (f : ScheduleKey → ScheduleState).
        if collection_disabled c now
        then wanted now t cs
        else task_for c (select (λ d. is_due (f (key c.id d)) now) capability_order)
            (wanted now t cs))
      (fun_ext h))

-- The first loop of RunOnce makes exactly those tasks, although the calls of Due for the earlier
-- channels change the schedule that the later calls read.
pub plan-eq-wanted :
    (now : ℕ) (cs : List Channel) (s : Schedule) → (plan now cs s).0 ≡ wanted now s cs
unfolding wanted
plan-eq-wanted now [] s = (unfold plan in refl)
plan-eq-wanted now (c ∷ cs) s =
    plan-cons now c cs s
    ∙ rw
        (
          plan-eq-wanted now cs s,
          plan-eq-wanted now cs (due s c.id now).1,
          wanted-cong now (due s c.id now).1 s cs (due-select s c.id now).1,
          (due-select s c.id now).0,
        )
        refl

channel_id-after_sync :
    (t : ChannelTask) (at : ℕ) (r : SyncReply) → (after_sync t at r).channel_id ≡ t.channel.id
unfolding after_sync
channel_id-after_sync t at (sync_error e) = refl
channel_id-after_sync t at sync_nil = refl
channel_id-after_sync t at (synced r) = refl

channel_id-collect_channel :
    (t : ChannelTask) (a : Attempt) → (collect_channel t a).channel_id ≡ t.channel.id
unfolding collect_channel collect_locked
channel_id-collect_channel t a = locked a.lock
  where
    locked : (l : LockReply) → (collect_locked t a l).channel_id ≡ t.channel.id
    locked (lock_error e) = refl
    locked lock_busy = refl
    locked lock_held = channel_id-after_sync t a.finished a.reply

abbrev pub outcomes_of : (ChannelTask → Attempt) → List ChannelTask → List ChannelOutcome
outcomes_of attempts ts = map (λ t. collect_channel t (attempts t)) ts

ids-outcomes_of :
    (attempts : ChannelTask → Attempt) (ts : List ChannelTask)
    → map (λ (o : ChannelOutcome). o.channel_id) (outcomes_of attempts ts) ≡ task_ids ts
ids-outcomes_of attempts [] = refl
ids-outcomes_of attempts (t ∷ ts) =
    ap₂ (λ (x : ℕ) (xs : List ℕ). x ∷ xs) (channel_id-collect_channel t (attempts t))
      (ids-outcomes_of attempts ts)

-- RunOnce over channels with different ids, whatever the workers meet, for two orders in which they
-- finish, each with its own draws of the jitter: every capability of every channel has the same number
-- of failures after both; and its whole state is the same where the second order draws for it what the
-- first one does, whatever it draws for the others. The jitter is given as the draw that each key gets,
-- which for one random stream depends on the order.
pub run_once_order :
    (d d' : Draws) (now : ℕ) (cs : List Channel) (s : Schedule) (attempts : ChannelTask → Attempt)
    (work work' : List ChannelTask → List ChannelOutcome) (k : ScheduleKey)
    → Nodup (channel_ids cs)
    → ((ts : List ChannelTask) → Permᴰ (outcomes_of attempts ts) (work ts))
    → ((ts : List ChannelTask) → Permᴰ (outcomes_of attempts ts) (work' ts))
    → (state_at k (run_once d now cs work s).states
        ≡ state_at k (run_once (sharing k d d') now cs work' s).states)
      × ((state_at k (run_once d now cs work s).states).failure_count
          ≡ (state_at k (run_once d' now cs work' s).states).failure_count)
unfolding run_once
run_once_order d d' now cs s attempts work work' k h p p' =
    let ts = (plan now cs s).0 in
    let distinct : Nodup (map (λ (o : ChannelOutcome). o.channel_id) (outcomes_of attempts ts)) =
      rw (ids-outcomes_of attempts ts) (plan-Nodup now cs s h) in
    let (a, b) = apply_outcomes-order k d d' _ (p' ts) distinct in
    let same = sym (Agree.state (apply_outcomes-perm k d _ (p ts) distinct)) in
    (same ∙ a, ap (λ (x : ScheduleState). x.failure_count) same ∙ b)
