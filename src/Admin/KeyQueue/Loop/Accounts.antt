-- ===== src/Admin/KeyQueue/Loop/Accounts.antt =====
-- About the items that runKeyImportJob of internal/admin/key_import_queue.go makes of its accounts.
use mathlib.Core.List.{Perm, append_assoc, map-append}
use mathlib.Core.List.Perm
use mathlib.Core.List.{append-nil, perm_middle}
use multi_upstream_ai_gatewa.Prelude.{
  All, All-append, List, Option, String, ℕ, [], ap, arith, inl, inr, length, map, nat_beq_iff,
  nat_eq, none, refl, some, string_eq, suc, sym, ◌*◌, ◌++◌, ◌+◌, ◌<◌, ◌∙◌, ◌∷◌, ◌≡◌, ◌≤◌, ◌⊎◌,
}
use multi_upstream_ai_gatewa.Admin.KeyQueue.{
  Item, Job, JobStatus, Queue, begin, canceled, done, finish, finish_job, new_job, progress,
  progress_job, record_item, record_job, snapshot,
}
use multi_upstream_ai_gatewa.Admin.KeyQueue.History.{IsValid, current-begin, snapshot-begin}
use multi_upstream_ai_gatewa.Admin.KeyQueue.Loop.{
  Account, Answer, Budget, ImportCall, Run, Step, Task, first_tasks, first_time, interrupted_text,
  next_round, requeued, retry_of, run_key_import_job, run_task,
}
use multi_upstream_ai_gatewa.Admin.KeyQueue.Loop.Counters.{
  IsCounted, finish_job-IsCounted, new_job-IsCounted, one_deferred, progress_job-IsCounted,
  record_job-IsCounted, sum_of, sum_of-append,
}
use multi_upstream_ai_gatewa.Admin.KeyQueue.Loop.Ends.{
  InTime, first_tasks-InTime, next_round-InTime, retry_of-InTime, run_key_import_job-ends,
}
use multi_upstream_ai_gatewa.Admin.KeyQueue.Loop.Rule.{Rule, run_job_rule, started}
use multi_upstream_ai_gatewa.Admin.KeyQueue.Loop.Tasks.{lookup-update, run_task-item}
use multi_upstream_ai_gatewa.Admin.KeyQueue.Retry.{max_attempts}
use multi_upstream_ai_gatewa.Collector.Errors.{is}
use multi_upstream_ai_gatewa.Collector.Keys.{KeyImportResult}
use multi_upstream_ai_gatewa.Prelude.Dict.{lookup}

abbrev pub item_ids : List Item → List ℕ
item_ids is = map (λ (i : Item). i.account_id) is

abbrev pub account_ids : List Account → List ℕ
account_ids accounts = map (λ (a : Account). a.id) accounts

abbrev task_ids : List Task → List ℕ
task_ids ts = map (λ (t : Task). t.account.id) ts

-- An item shows the attempt that produced it: between the first and the third.
abbrev pub HasAttempts : Item → Type 0
HasAttempts i = (0 < i.attempts) × (i.attempts ≤ max_attempts)

module _ (job total : ℕ) (targets : List ℕ) where
  -- What holds of the batch when `waiting` are the accounts without an item.
  record Between (waiting : List ℕ) (q : Queue) (j : Job) : Type 0 where
    held : lookup job q.jobs ≡ some j
    current : q.current ≡ some job
    counted : IsCounted j
    deferrals : j.deferred_accounts ≡ sum_of one_deferred j.items
    size : j.total ≡ total
    all : Perm (item_ids j.items ++ waiting) targets
    attempts : All HasAttempts j.items

  abbrev P : List Task → Budget → Queue → List ImportCall → Type 0
  P ts b q log = All InTime ts × ((j : Job) × Between (task_ids ts) q j × (j.pending ≡ length ts))

  Between-progress :
      {waiting : List ℕ} {q : Queue} {j : Job} (pending next_at : ℕ)
      → Between waiting q j
      → Between waiting (progress job pending next_at q) (progress_job pending next_at j)
        × ((progress_job pending next_at j).pending ≡ pending)
  unfolding progress progress_job
  Between-progress {waiting} {q} {j} pending next_at s =
      let u = lookup-update job (progress_job pending next_at) q j s.held in
      (
        record {
          held = u.0;
          current = u.1 ∙ s.current;
          counted = progress_job-IsCounted pending next_at j s.counted;
          deferrals = s.deferrals;
          size = s.size;
          all = s.all;
          attempts = s.attempts;
        },
        refl,
      )

  Between-record :
      {waiting : List ℕ} {q : Queue} {j : Job} (i : Item) (got : KeyImportResult)
      → i.result ≡ got
      → HasAttempts i
      → Between (i.account_id ∷ waiting) q j
      → Between waiting (record_item job i got q) (record_job i got j)
  unfolding record_item
  Between-record {waiting} {q} {j} i got e h s =
      let u = lookup-update job (record_job i got) q j s.held in
      let c = record_job-IsCounted i got j e s.counted in
      record {
        held = u.0;
        current = u.1 ∙ s.current;
        counted = c.0;
        deferrals =
            rw c.2 (omega (arith, c.1, s.deferrals, sum_of-append one_deferred j.items (i ∷ [])));
        size = c.3 ∙ s.size;
        all = rw c.2 (rw (map-append, append_assoc) s.all);
        attempts = rw c.2 (All-append HasAttempts j.items (i ∷ []) s.attempts (h, tt));
      }

  pending-record :
      (i : Item) (got : KeyImportResult) (j : Job) → (record_job i got j).pending ≡ j.pending
  unfolding record_job
  pending-record i got j = ground arith

  -- A failed task that is tried again goes behind the others.
  Between-requeue :
      {ws : List ℕ} {q : Queue} {j : Job} (w : ℕ)
      → Between (w ∷ ws) q j
      → Between (ws ++ w ∷ []) q j
  Between-requeue {ws} {q} {j} w s = record {
    held = s.held;
    current = s.current;
    counted = s.counted;
    deferrals = s.deferrals;
    size = s.size;
    all =
        Perm.trans
          (Perm.append (Perm.refl (item_ids j.items))
            (rw append-nil at (perm_middle {a = w} ws [])))
          s.all;
    attempts = s.attempts;
  }

  next_round-P :
      (t : Task) (ts : List Task) (b : Budget) (q : Queue) (log : List ImportCall) (a : Answer)
      (s : Step) (j : Job) (o : Option ℕ)
      → ((d : ℕ) → o ≡ some d → t.attempts + 1 < max_attempts)
      → s.item.account_id ≡ t.account.id
      → s.item.attempts ≡ t.attempts + 1
      → s.item.result ≡ s.got
      → All InTime (t ∷ ts)
      → Between (task_ids (t ∷ ts)) q j
      → j.pending ≡ length ts
      → let r = next_round job t ts q a s o in P r.0 b r.1 log
  unfolding next_round
  next_round-P t ts b q log a s j none again id at res i v p = (
    i.1,
    (
      record_job s.item s.got j,
      Between-record s.item s.got res (rw at (omega arith, omega (arith, i.0))) (rw id v),
      pending-record s.item s.got j ∙ p,
    ),
  )
  next_round-P t ts b q log a s j (some d) again id at res i v p =
      let ts' = ts ++ requeued t (a.now + d) ∷ [] in
      let g = Between-progress (length ts') (first_time ts') (Between-requeue t.account.id v) in
      (
        (next_round-InTime job t ts q a s (some d) again i.0 i.1).0,
        (progress_job (length ts') (first_time ts') j, rw map-append g.0, g.1),
      )

  -- The batch after the loop; `left` are the accounts that were not reached.
  pub record Ended (q : Queue) (j : Job) (left : List ℕ) : Type 0 where
    pub held : lookup job q.jobs ≡ some j
    pub idle : q.current ≡ none
    pub counted : IsCounted j
    pub size : j.total ≡ total
    pub pending : j.pending ≡ 0
    pub deferrals : j.deferred_accounts ≡ sum_of one_deferred j.items + length left
    pub all : Perm (item_ids j.items ++ left) targets
    pub attempts : All HasAttempts j.items
    pub outcome : ((j.status ≡ done) × (left ≡ [])) ⊎ (j.status ≡ canceled)

  abbrev Q : Queue → List ImportCall → Type 0
  Q q log = (j : Job) × (left : List ℕ) × Ended q j left

  finish-Ended :
      (q : Queue) (j : Job) (left : List ℕ) (s : JobStatus) (m : Option String) (now : ℕ)
      → ((s ≡ done) × (left ≡ [])) ⊎ (s ≡ canceled)
      → Between left q j
      → j.pending ≡ length left
      → Ended (finish job s m now q) (finish_job s m now j) left
  unfolding finish finish_job
  finish-Ended q j left s m now o v p =
      let u = lookup-update job (finish_job s m now) q j v.held in
      record {
        held = u.0;
        idle = rw v.current (ground (arith, nat_beq_iff job job));
        counted = finish_job-IsCounted s m now j v.counted;
        size = v.size;
        pending = refl;
        deferrals = omega (arith, v.deferrals, p);
        all = v.all;
        attempts = v.attempts;
        outcome = o;
      }

  length-task_ids : (ts : List Task) → length (task_ids ts) ≡ length ts
  length-task_ids [] = refl
  length-task_ids (t ∷ ts) = ap suc (length-task_ids ts)

  accounts_rule : (world : ℕ → Answer) → Rule world job P Q
  accounts_rule world = record {
    on_done = λ b q log now p. (
      finish_job done none now p.1.0,
      [],
      finish-Ended q p.1.0 [] done none now (inl (refl, refl)) p.1.1 p.1.2,
    );
    on_interrupt = λ t ts b q log now p.
        let (j, v, w) = p.1 in
        let g = Between-progress (length ts + 1) t.not_before v in
        (
          finish_job canceled (some interrupted_text) now
              (progress_job (length ts + 1) t.not_before j),
          task_ids (t ∷ ts),
          finish-Ended _ _ (task_ids (t ∷ ts)) canceled (some interrupted_text) now (inr refl) g.0
              (g.1 ∙ omega (arith, length-task_ids ts)),
        );
    on_stop = λ t ts b q log n p.
        let (j, v, w) = p.1 in
        let g₁ = Between-progress (length ts + 1) t.not_before v in
        let g₂ = Between-progress (length ts) 0 g₁.0 in
        let g₃ = Between-progress (length ts + 1) 0 g₂.0 in
        (
          _,
          task_ids (t ∷ ts),
          finish-Ended _ _ (task_ids (t ∷ ts)) canceled (some interrupted_text) (world n).now
              (inr refl) g₃.0 (g₃.1 ∙ omega (arith, length-task_ids ts)),
        );
    on_round = λ t ts b q log n p.
        let (j, v, w) = p.1 in
        let s = run_task t b (world n) in
        let item = run_task-item t b (world n) in
        let g₁ = Between-progress (length ts + 1) t.not_before v in
        let g₂ = Between-progress (length ts) 0 g₁.0 in
        next_round-P t ts s.budget (started job t ts q) (log ++ s.calls) (world n) s _
          (retry_of t s.fault) (retry_of-InTime t s.fault) item.0 item.1 item.2 p.0 g₂.0 g₂.1;
  }

account_ids-first_tasks :
    (targets : List Account) → task_ids (first_tasks targets) ≡ account_ids targets
account_ids-first_tasks [] = refl
account_ids-first_tasks (a ∷ as') = ap (λ (l : List ℕ). a.id ∷ l) (account_ids-first_tasks as')

length-first_tasks : (targets : List Account) → length (first_tasks targets) ≡ length targets
length-first_tasks [] = refl
length-first_tasks (a ∷ as') = ap suc (length-first_tasks as')

-- A batch begun on an idle queue always ends, and leaves the queue idle. Each of its accounts has
-- exactly one item, made by one of its first three attempts, or is one of those that were not
-- reached; there are none of the latter if the batch is done. The counters of the batch are the sums
-- over its items, and the accounts that were not reached are counted as deferred.
pub run_key_import_job_lem :
    (world : ℕ → Answer) (targets : List Account) (now : ℕ) (q : Queue)
    → IsValid q
    → q.current ≡ none
    → let job = q.next_id + 1 in
      (r : Run) × (run_key_import_job world job targets (begin (length targets) now q).0 ≡ some r)
      × ((j : Job) × (left : List ℕ) × Ended job
            (length targets)
            (account_ids targets)
            r.queue
            j
            left)
unfolding run_key_import_job
run_key_import_job_lem world targets now q v idle =
    let job = q.next_id + 1 in
    let q' = (begin (length targets) now q).0 in
    let (r, e) = run_key_import_job-ends world job targets q' in
    (
      r,
      e,
      run_job_rule world job (P job (length targets) (account_ids targets))
          (Q job (length targets) (account_ids targets)) (accounts_rule job _ _ world)
          (3 * length targets + 1) 0 (first_tasks targets) [] q' [] r e
          (
            first_tasks-InTime targets,
            (
              new_job job (length targets) now,
              record {
                held = (unfold snapshot in snapshot-begin q v idle (length targets) now);
                current = current-begin q v idle (length targets) now;
                counted = new_job-IsCounted job (length targets) now;
                deferrals = (unfold new_job in refl);
                size = (unfold new_job in refl);
                all =
                    (unfold new_job in
                      rw account_ids-first_tasks (Perm.refl (account_ids targets)));
                attempts = (unfold new_job in tt);
              },
              (unfold new_job in sym (length-first_tasks targets)),
            ),
          ),
    )
