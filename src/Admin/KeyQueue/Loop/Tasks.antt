-- ===== src/Admin/KeyQueue/Loop/Tasks.antt =====
-- About one write through the pointer to a job, and the item of one task, in
-- internal/admin/key_import_queue.go.
use multi_upstream_ai_gatewa.Prelude.{
  Bool-cases, Option, ℕ, inl, inr, nat_eq, none, refl, some, string_eq, ◌+◌, ◌==◌, ◌≡◌,
}
use multi_upstream_ai_gatewa.Admin.KeyQueue.{Job, Queue, update}
use multi_upstream_ai_gatewa.Admin.KeyQueue.Loop.{
  Answer, Budget, Task, call_import, remaining, run_task,
}
use multi_upstream_ai_gatewa.Collector.Errors.{Err}
use multi_upstream_ai_gatewa.Prelude.Dict.{lookup, lookup-insert_self}

pub lookup-update :
    (job : ℕ) (f : Job → Job) (q : Queue) (j : Job)
    → lookup job q.jobs ≡ some j
    → (lookup job (update job f q).jobs ≡ some (f j)) × ((update job f q).current ≡ q.current)
unfolding update
lookup-update job f q j h = rw (h, update) (lookup-insert_self job (f j) q.jobs, refl)

-- The item of a task is about the task's account, and carries the result that is counted.
pub run_task-item :
    (t : Task) (b : Budget) (a : Answer)
    → let s = run_task t b a in
      (s.item.account_id ≡ t.account.id)
      × (s.item.attempts ≡ t.attempts + 1)
      × (s.item.result ≡ s.got)
unfolding run_task
run_task-item t b a = elim (Bool-cases (t.account.status == "active")) [
  | inr e ↦ rw e (refl, refl, refl)
  | inl e ↦ elim (Bool-cases (remaining t.account.channel_id b == 0)) [
    | inl f ↦ rw (e, f) (refl, refl, refl)
    | inr f ↦ rw (e, f) (imported (remaining t.account.channel_id b) a.unavailable)
  ]
]
  where
    imported :
        (limit : ℕ) (o : Option Err)
        → let s = call_import t b limit a o in
          (s.item.account_id ≡ t.account.id)
          × (s.item.attempts ≡ t.attempts + 1)
          × (s.item.result ≡ s.got)
    imported limit none = (refl, refl, refl)
    imported limit (some e) = (refl, refl, refl)
