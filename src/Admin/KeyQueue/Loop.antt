-- ===== src/Admin/KeyQueue/Loop.antt =====
-- runKeyImportJob and runKeyImportTask of internal/admin/key_import_queue.go. What the worker meets
-- outside in one round (the wait, the connection, Server.ImportKeys, the context and the clock) is
-- an `Answer`; `world n` is what it meets in the n-th round. The loop takes fuel, and `none` means
-- that the fuel ran out.
pub mod Ends
pub mod Rule
pub mod Tasks
pub mod Counters
pub mod Accounts
pub mod Budget
pub mod Reads
use multi_upstream_ai_gatewa.Prelude.{
  Bool, List, Option, String, ℕ, [], if◌then◌else◌, length, ltb, map, nat_eq, none, not, some,
  string_eq, suc, zero, ◌&&◌, ◌*◌, ◌++◌, ◌+◌, ◌-◌, ◌==◌, ◌∷◌,
}
use multi_upstream_ai_gatewa.Admin.KeyQueue.{
  AccountStatus, Item, ItemError, Queue, account_disabled, budget_exhausted, canceled, deferred,
  done, failed, failure, finish, ok, partial, progress, record_item, skipped,
}
use multi_upstream_ai_gatewa.Admin.KeyQueue.Retry.{key_import_retry_delay, max_attempts}
use multi_upstream_ai_gatewa.Collector.Errors.{Err}
use multi_upstream_ai_gatewa.Collector.Keys.{KeyImportResult, default_secret_limit, no_result}
use multi_upstream_ai_gatewa.Prelude.Dict.{Dict, insert, lookup}

-- store.Account, as far as the queue reads it.
pub record Account : Type 0 where
  pub id : ℕ
  pub channel_id : ℕ
  pub status : String

pub record Task : Type 0 where
  pub account : Account
  pub attempts : ℕ
  pub not_before : ℕ

pub record Answer : Type 0 where
  -- sleepUntil returned the context's error
  pub interrupted : Bool
  -- the error of DB.Acquire
  pub unavailable : Option Err
  -- what ImportKeys returned, for the limit that it was given
  pub got : ℕ → KeyImportResult
  -- how often ImportKeys then called ResolveKeySecret, which the code does not see
  pub sent : ℕ → ℕ
  pub fault : Option Err
  -- ctx.Err() != nil after the task
  pub stopped : Bool
  pub now : ℕ

-- A call of ImportKeys: the channel, the limit on plain-text reads, the reads that it reported, and
-- those that it sent.
pub record ImportCall : Type 0 where
  pub channel_id : ℕ
  pub limit : ℕ
  pub reads : ℕ
  pub sent : ℕ

abbrev pub Budget : Type 0
Budget = Dict ℕ ℕ

-- `remaining, seen := budget[channel]`
unfoldable pub remaining : ℕ → Budget → ℕ
remaining channel b = elim (lookup channel b) [ none ↦ default_secret_limit | some n ↦ n ]

pub record Step : Type 0 where
  pub item : Item
  pub got : KeyImportResult
  pub fault : Option Err
  pub budget : Budget
  pub calls : List ImportCall

abbrev blank_item : Task → Item
blank_item t = record {
  channel_id = t.account.channel_id;
  account_id = t.account.id;
  status = ok;
  error = none;
  attempts = t.attempts + 1;
  result = no_result;
}

-- The switch on the result of ImportKeys.
unfoldable pub verdict : Option Err → KeyImportResult → AccountStatus
verdict (some e) got = failed
verdict none got = if ltb 0 got.failed then partial else if ltb 0 got.deferred then deferred else ok

abbrev as_failure : Option Err → Option ItemError
as_failure none = none
as_failure (some e) = some (failure e)

-- The part of runKeyImportTask from DB.Acquire on.
unfoldable pub call_import : Task → Budget → ℕ → Answer → Option Err → Step
call_import t b limit a (some e) = record {
  item = record (blank_item t) { status = failed; error = some (failure e) };
  got = no_result;
  fault = some e;
  budget = b;
  calls = [];
}
call_import t b limit a none =
    let channel = t.account.channel_id in
    let got = a.got limit in
    record {
      item = record (blank_item t) {
        status = verdict a.fault got;
        error = as_failure a.fault;
        result = got;
      };
      got = got;
      fault = a.fault;
      budget = insert channel (limit - got.secret_resolves) b;
      calls =
          record {
            channel_id = channel;
            limit = limit;
            reads = got.secret_resolves;
            sent = a.sent limit;
          }
          ∷ [];
    }

abbrev untouched : Task → Budget → AccountStatus → ItemError → Step
untouched t b s e = record {
  item = record (blank_item t) { status = s; error = some e };
  got = no_result;
  fault = none;
  budget = b;
  calls = [];
}

unfoldable pub run_task : Task → Budget → Answer → Step
unfolding call_import verdict
run_task t b a =
    let left = remaining t.account.channel_id b in
    if t.account.status == "active"
    then (if left == 0
        then untouched t b deferred budget_exhausted
        else call_import t b left a a.unavailable)
    else untouched t b skipped account_disabled

-- The delay of a failed task that goes back to the end of the queue, if it does.
unfoldable pub retry_of : Task → Option Err → Option ℕ
retry_of t none = none
retry_of t (some e) =
    if ltb (t.attempts + 1) max_attempts then key_import_retry_delay e (t.attempts + 1) else none

abbrev pub requeued : Task → ℕ → Task
requeued t at = record t { attempts = t.attempts + 1; not_before = at }

abbrev pub interrupted_text : String
interrupted_text = "进程退出，批次未跑完"

-- The time of the first task of a queue that is not empty.
abbrev pub first_time : List Task → ℕ
first_time [] = 0
first_time (t ∷ ts) = t.not_before

pub record Run : Type 0 where
  pub queue : Queue
  pub calls : List ImportCall

-- The end of a round whose task is finished for this time: `again` is the rest of the loop.
unfoldable pub next_round :
    ℕ → Task → List Task → Queue → Answer → Step → Option ℕ → List Task × Queue
next_round job t ts q a s (some delay) =
    let ts' = ts ++ requeued t (a.now + delay) ∷ [] in
    (ts', progress job (length ts') (first_time ts') q)
next_round job t ts q a s none = (ts, record_item job s.item s.got q)

abbrev with_calls : List ImportCall → Option Run → Option Run
with_calls cs none = none
with_calls cs (some r) = some (record r { calls = cs ++ r.calls })

-- The main loop. `n` counts the rounds.
unfoldable pub run_job : ℕ → (ℕ → Answer) → ℕ → ℕ → List Task → Budget → Queue → Option Run
run_job zero world job n ts b q = none
run_job (suc fuel) world job n [] b q =
    some (record { queue = finish job done none (world n).now q; calls = [] })
run_job (suc fuel) world job n (t ∷ ts) b q =
    let a = world n in
    let q₁ = progress job (length ts + 1) t.not_before q in
    let q₂ = progress job (length ts) 0 q₁ in
    let s = run_task t b a in
    let r = next_round job t ts q₂ a s (retry_of t s.fault) in
    let rest = with_calls s.calls (run_job fuel world job (suc n) r.0 s.budget r.1) in
    if not (t.not_before == 0) && a.interrupted
    then some (record { queue = finish job canceled (some interrupted_text) a.now q₁; calls = [] })
    else if a.stopped
    then some (record {
      queue = finish job canceled (some interrupted_text) a.now (progress job (length ts + 1) 0 q₂);
      calls = s.calls;
    })
    else rest

abbrev pub first_tasks : List Account → List Task
first_tasks accounts =
    map (λ (a : Account). record { account = a; attempts = 0; not_before = 0 }) accounts

-- runKeyImportJob with fuel for three rounds an account and one to end.
unfoldable pub run_key_import_job : (ℕ → Answer) → ℕ → List Account → Queue → Option Run
run_key_import_job world job targets q =
    run_job (3 * length targets + 1) world job 0 (first_tasks targets) [] q
