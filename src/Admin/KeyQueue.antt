-- ===== src/Admin/KeyQueue.antt =====
-- keyImportQueue of internal/admin/key_import_queue.go: the batches of the process and their
-- counters. A job lives in `jobs` under its id, and a pointer to it is that id. The mutex makes each
-- operation one step. A time is a number of nanoseconds, 0 the zero time.
pub mod Retry
pub mod History
pub mod Writes
pub mod Loop
use multi_upstream_ai_gatewa.Prelude.{
  Bool, List, Option, String, ℕ, [], false, if◌then◌else◌, length, ltb, nat_eq, none, some,
  string_eq, true, ◌++◌, ◌+◌, ◌==◌, ◌∷◌,
}
use multi_upstream_ai_gatewa.Collector.Errors.{Err}
use multi_upstream_ai_gatewa.Collector.Keys.{KeyImportResult}
use multi_upstream_ai_gatewa.Prelude.Dict.{Dict, delete, insert, lookup}

-- keyImportJobHistory
abbrev pub job_history : ℕ
job_history = 20

pub data JobStatus : Type 0 where
  running done canceled : JobStatus

pub data AccountStatus : Type 0 where
  ok partial deferred skipped failed : AccountStatus

-- The reason that an item shows; the text that keyImportFailureText makes of an error is left out.
pub data ItemError : Type 0 where
  account_disabled budget_exhausted : ItemError
  failure : Err → ItemError

pub record Item : Type 0 where
  pub channel_id : ℕ
  pub account_id : ℕ
  pub status : AccountStatus
  pub error : Option ItemError
  pub attempts : ℕ
  pub result : KeyImportResult

pub record Job : Type 0 where
  pub id : ℕ
  pub status : JobStatus
  pub started_at : ℕ
  pub finished_at : Option ℕ
  pub total : ℕ
  pub done_count : ℕ
  pub pending : ℕ
  pub next_retry_at : Option ℕ
  pub error : Option String
  pub count : ℕ
  pub found : ℕ
  pub imported : ℕ
  pub skipped : ℕ
  pub failed : ℕ
  pub deferred : ℕ
  pub failed_accounts : ℕ
  pub deferred_accounts : ℕ
  pub skipped_accounts : ℕ
  pub items : List Item

pub record Queue : Type 0 where
  pub jobs : Dict ℕ Job
  pub order : List ℕ
  pub next_id : ℕ
  pub current : Option ℕ

abbrev pub new_queue : Queue
new_queue = record { jobs = []; order = []; next_id = 0; current = none }

unfoldable pub new_job : ℕ → ℕ → ℕ → Job
new_job id total now = record {
  id = id;
  status = running;
  started_at = now;
  finished_at = none;
  total = total;
  done_count = 0;
  pending = total;
  next_retry_at = none;
  error = none;
  count = 0;
  found = 0;
  imported = 0;
  skipped = 0;
  failed = 0;
  deferred = 0;
  failed_accounts = 0;
  deferred_accounts = 0;
  skipped_accounts = 0;
  items = [];
}

abbrev pub is_running : Option Job → Bool
is_running none = false
is_running (some j) = elim j.status [ running ↦ true | _ ↦ false ]

-- The loop of begin that drops the oldest batches.
unfoldable pub trim : List ℕ → Dict ℕ Job → List ℕ × Dict ℕ Job
trim [] jobs = ([], jobs)
trim (o ∷ os) jobs =
    let rest = trim os (delete o jobs) in
    if ltb job_history (length (o ∷ os))
    then (if is_running (lookup o jobs) then (o ∷ os, jobs) else rest)
    else (o ∷ os, jobs)

-- begin: the new queue, the id of the batch, and whether it is a new one.
unfoldable pub begin : ℕ → ℕ → Queue → Queue × ℕ × Bool
begin total now q = elim q.current [
  | some id ↦ (q, id, false)
  | none ↦
      (let id = q.next_id + 1 in
        let (order, jobs) = trim (q.order ++ id ∷ []) (insert id (new_job id total now) q.jobs) in
        (record { jobs = jobs; order = order; next_id = id; current = some id }, id, true))
]

-- A write through the pointer to a job.
unfoldable pub update : ℕ → (Job → Job) → Queue → Queue
update id f q = elim (lookup id q.jobs) [
  | none ↦ q
  | some j ↦ record q { jobs = insert id (f j) q.jobs }
]

unfoldable pub finish_job : JobStatus → Option String → ℕ → Job → Job
finish_job status message now j = record j {
  status = status;
  finished_at = some now;
  deferred_accounts = j.deferred_accounts + j.pending;
  pending = 0;
  next_retry_at = none;
  error = elim message [ none ↦ j.error | some m ↦ some m ];
}

-- `if q.running == job { q.running = nil }`
abbrev clear : Option ℕ → ℕ → Option ℕ
clear none id = none
clear (some r) id = if r == id then none else some r

unfoldable pub finish : ℕ → JobStatus → Option String → ℕ → Queue → Queue
unfolding update
finish id status message now q = record (update id (finish_job status message now) q) {
  current = clear q.current id;
}

-- The switch of record over the status of the item.
abbrev bump : AccountStatus → Job → Job
bump failed j = record j { failed_accounts = j.failed_accounts + 1 }
bump deferred j = record j { deferred_accounts = j.deferred_accounts + 1 }
bump skipped j = record j { skipped_accounts = j.skipped_accounts + 1 }
bump _ j = j

unfoldable pub record_job : Item → KeyImportResult → Job → Job
record_job item got j =
    let b = bump item.status j in
    record b {
      found = j.found + got.found;
      imported = j.imported + got.imported;
      skipped = j.skipped + got.skipped;
      failed = j.failed + got.failed;
      deferred = j.deferred + got.deferred;
      items = j.items ++ item ∷ [];
      count = length (j.items ++ item ∷ []);
      done_count = j.done_count + 1;
    }

unfoldable pub record_item : ℕ → Item → KeyImportResult → Queue → Queue
unfolding update record_job
record_item id item got q = update id (record_job item got) q

unfoldable pub progress_job : ℕ → ℕ → Job → Job
progress_job pending next_at j = record j {
  pending = pending;
  next_retry_at = if next_at == 0 then none else some next_at;
}

unfoldable pub progress : ℕ → ℕ → ℕ → Queue → Queue
unfolding update progress_job
progress id pending next_at q = update id (progress_job pending next_at) q

-- snapshot: a copy of the batch, if it is still held.
unfoldable pub snapshot : ℕ → Queue → Option Job
snapshot id q = lookup id q.jobs

-- The loop of list, from the back of `order` to its front.
unfoldable pub list_from : List ℕ → Dict ℕ Job → List Job
list_from [] jobs = []
list_from (o ∷ os) jobs = list_from os jobs ++ elim (lookup o jobs) [ none ↦ [] | some j ↦ j ∷ [] ]

unfoldable pub list : Queue → List Job
list q = list_from q.order q.jobs
