-- ===== src/Witnesses/KeyQueue.antt =====
-- Tests of internal/admin/key_import_queue.go.
use Prim.Native.Nat.{◌^◌}
use multi_upstream_ai_gatewa.Prelude.{
  List, Option, ℕ, [], arith, false, if◌then◌else◌, map, min, nat_eq, none, refl, some, string_eq,
  true, ◌*◌, ◌++◌, ◌+◌, ◌<◌, ◌==◌, ◌||◌, ◌∷◌, ◌≡◌, ◌≤◌, ◌⊎◌,
}
use multi_upstream_ai_gatewa.Admin.KeyQueue.{
  Item, Job, Queue, begin, done, finish, finish_job, job_history, new_job, new_queue, progress,
  record_item, snapshot, trim,
}
use multi_upstream_ai_gatewa.Admin.KeyQueue.History.{
  IsValid, begin-IsValid, begin_busy, new_queue-IsValid, order-begin,
}
use multi_upstream_ai_gatewa.Admin.KeyQueue.Loop.{
  Account, Answer, Run, next_round, remaining, retry_of, run_job, run_key_import_job, run_task,
}
use multi_upstream_ai_gatewa.Admin.KeyQueue.Loop.Accounts.{Ended, run_key_import_job_lem}
use multi_upstream_ai_gatewa.Admin.KeyQueue.Loop.Budget.{batch_reads_bounded, reads_on}
use multi_upstream_ai_gatewa.Admin.KeyQueue.Loop.Ends.{run_key_import_job-ends}
use multi_upstream_ai_gatewa.Admin.KeyQueue.Retry.{
  backoff_for, doubled, is_retriable, key_import_retry_delay, key_import_retry_delay_lem,
  retry_base, retry_cap,
}
use multi_upstream_ai_gatewa.Admin.KeyQueue.Writes.{finish-IsValid}
use multi_upstream_ai_gatewa.Collection.Schedule.{key_eq, second}
use multi_upstream_ai_gatewa.Collector.Errors.{
  Err, as_http, channel_read_busy, http, http_failure, is, wrap,
}
use multi_upstream_ai_gatewa.Collector.Keys.{KeyImportResult, default_secret_limit, no_result}
use multi_upstream_ai_gatewa.Prelude.Dict.{delete, insert, lookup}

abbrev limited : Err
limited = wrap "list" (
    http (record {
      status_code = 429;
      business_code = 0;
      retry_after = 90 * second;
      message = "slow down";
    }))

abbrev rejected : Err
rejected =
    wrap "auth"
      (http (record { status_code = 403; business_code = 0; retry_after = 0; message = "no" }))

abbrev two_keys : ℕ → KeyImportResult
two_keys limit = record no_result {
  found = 2;
  imported = min limit 2;
  secret_resolves = min limit 2;
}

-- The first call meets a rate limit, the later ones succeed.
abbrev world : ℕ → Answer
world n = record {
  interrupted = false;
  unavailable = none;
  got = two_keys;
  sent = λ limit. (two_keys limit).secret_resolves;
  fault = if n == 0 then some limited else none;
  stopped = false;
  now = n + 1;
}

abbrev active_account : ℕ → Account
active_account n = record { id = n; channel_id = 4; status = "active" }

abbrev targets : List Account
targets = active_account 7 ∷ active_account 8 ∷ []

run_key_import_job_lem_example :
    (r : Run) × (run_key_import_job world 1 targets (begin 2 5 new_queue).0 ≡ some r)
    × ((j : Job) × (left : List ℕ) × Ended 1 2 (7 ∷ 8 ∷ []) r.queue j left)
run_key_import_job_lem_example =
    run_key_import_job_lem world targets 5 new_queue new_queue-IsValid refl

-- The first account goes behind the second, and its item shows the second attempt.
abbrev batch : Queue
batch = (begin 2 5 new_queue).0

abbrev shown : Option Run → List (ℕ × ℕ)
shown none = []
shown (some r) = elim (snapshot 1 r.queue) [
  | none ↦ []
  | some j ↦ map (λ (i : Item). (i.account_id, i.attempts)) j.items
]

second_attempt : shown (run_key_import_job world 1 targets batch) ≡ (8, 1) ∷ (7, 2) ∷ []
unfolding run_key_import_job run_job run_task next_round retry_of key_import_retry_delay backoff_for
    doubled http_failure as_http is finish progress record_item begin trim new_job remaining
    snapshot lookup insert delete finish_job
second_attempt = refl

ran : (r : Run) × (run_key_import_job world 1 targets batch ≡ some r)
ran = run_key_import_job-ends world 1 targets batch

batch_reads_bounded_example : reads_on 4 ran.0.calls ≤ default_secret_limit
batch_reads_bounded_example =
    batch_reads_bounded world 1 targets batch ran.0 4 (λ n limit. omega arith) ran.1

begin-IsValid_example : IsValid (begin 2 5 new_queue).0
begin-IsValid_example = begin-IsValid 2 5 new_queue new_queue-IsValid

order-begin_example :
    ((0 < job_history → (begin 2 5 new_queue).0.order ≡ 1 ∷ [])
      × ((o : ℕ) (os : List ℕ)
          → new_queue.order ≡ o ∷ os
          → 0 ≡ job_history
          → (begin 2 5 new_queue).0.order ≡ os ++ 1 ∷ []))
    × (snapshot 1 (begin 2 5 new_queue).0 ≡ some (new_job 1 2 5))
order-begin_example = order-begin 2 5 new_queue new_queue-IsValid refl

begin_busy_example : begin 3 6 batch ≡ (batch, 1, false)
unfolding begin trim
begin_busy_example = begin_busy 3 6 1 batch refl

finish-IsValid_example :
    IsValid (finish 1 done none 9 batch) × ((finish 1 done none 9 batch).current ≡ none)
unfolding begin trim
finish-IsValid_example =
    finish-IsValid 1 done none 9 batch (λ e. cc) (begin-IsValid 2 5 new_queue new_queue-IsValid)
      refl

limited_delay : key_import_retry_delay limited 1 ≡ some (90 * second)
unfolding key_import_retry_delay http_failure as_http is
limited_delay = refl

key_import_retry_delay_lem_example :
    ((90 * second ≡ min (retry_base * 2 ^ 0) retry_cap)
      ⊎ ((0 < 90 * second) × (http_failure limited ≡ some (429, 90 * second))))
    × ((is channel_read_busy limited || is_retriable (http_failure limited)) ≡ true)
key_import_retry_delay_lem_example =
    key_import_retry_delay_lem limited 0 (90 * second) limited_delay

-- A verdict of the upstream is not tried again.
rejected_delay : key_import_retry_delay rejected 1 ≡ none
unfolding key_import_retry_delay http_failure as_http is
rejected_delay = refl
