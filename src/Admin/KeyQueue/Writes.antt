-- ===== src/Admin/KeyQueue/Writes.antt =====
-- About progress, record and finish of internal/admin/key_import_queue.go.
use multi_upstream_ai_gatewa.Prelude.{
  Option, Option-cases, String, ℕ, arith, false, inl, inr, nat_beq_iff, nat_eq, none, refl, some,
  string_eq, ◌≡◌, ◌≢◌,
}
use multi_upstream_ai_gatewa.Admin.KeyQueue.{
  Item, Job, JobStatus, Queue, finish, finish_job, is_running, progress, progress_job, record_item,
  record_job, running, update,
}
use multi_upstream_ai_gatewa.Admin.KeyQueue.History.{IsValid}
use multi_upstream_ai_gatewa.Collector.Keys.{KeyImportResult}
use multi_upstream_ai_gatewa.Prelude.Dict.{lookup, lookup-insert}

-- A write that keeps the status of the job keeps the queue well-formed.
update-IsValid :
    (id : ℕ) (f : Job → Job) (q : Queue)
    → ((j : Job) → is_running (some (f j)) ≡ is_running (some j))
    → IsValid q
    → IsValid (update id f q)
unfolding update
update-IsValid id f q keep v = elim (Option-cases (lookup id q.jobs)) [
  | inl h ↦ rw (h, update) v
  | inr (j, h) ↦
      rw (h, update)
        (record {
          held =
              λ i. ground (arith, v.held i, h, nat_beq_iff id i, lookup-insert id i (f j) q.jobs);
          unique = v.unique;
          numbered = v.numbered;
          current_running = λ i p. ground (
            arith,
            v.current_running i p,
            h,
            keep j,
            nat_beq_iff id i,
            lookup-insert id i (f j) q.jobs,
          );
          only_current = λ i p.
              v.only_current i
                (ground (arith, p, h, keep j, nat_beq_iff id i, lookup-insert id i (f j) q.jobs));
          short = v.short;
        })
]

pub progress-IsValid :
    (id pending next_at : ℕ) (q : Queue) → IsValid q → IsValid (progress id pending next_at q)
unfolding progress
progress-IsValid id pending next_at q v =
    update-IsValid id (progress_job pending next_at) q (λ j. refl) v

pub record_item-IsValid :
    (id : ℕ) (item : Item) (got : KeyImportResult) (q : Queue)
    → IsValid q
    → IsValid (record_item id item got q)
unfolding record_item
record_item-IsValid id item got q v =
    update-IsValid id (record_job item got) q (λ j. ground arith) v

stopped :
    (status : JobStatus) (message : Option String) (now : ℕ) (j : Job)
    → status ≢ running
    → is_running (some (finish_job status message now j)) ≡ false
unfolding finish_job
stopped status message now j h = ground (arith, h)

-- finish keeps the queue well-formed, and from a well-formed queue it leaves no batch running under
-- that id: the next batch may begin.
pub finish-IsValid :
    (id : ℕ) (status : JobStatus) (message : Option String) (now : ℕ) (q : Queue)
    → status ≢ running
    → IsValid q
    → q.current ≡ some id
    → IsValid (finish id status message now q) × ((finish id status message now q).current ≡ none)
unfolding finish
finish-IsValid id status message now q s v c = elim (Option-cases (lookup id q.jobs)) [
  | inl h ↦ (let p = v.current_running id c in ground (arith, p, h))
  | inr (j, h) ↦
      (let off = stopped status message now j s in
        rw (h, c, finish, update)
          (
            record {
              held = λ i. ground (
                arith,
                v.held i,
                h,
                nat_beq_iff id i,
                lookup-insert id i (finish_job status message now j) q.jobs,
              );
              unique = v.unique;
              numbered = v.numbered;
              current_running = λ i p. ground (arith, p, nat_beq_iff id id);
              only_current = λ i p. ground (
                arith,
                p,
                off,
                c,
                v.only_current i,
                nat_beq_iff id i,
                lookup-insert id i (finish_job status message now j) q.jobs,
              );
              short = v.short;
            },
            ground (arith, nat_beq_iff id id),
          ))
]
