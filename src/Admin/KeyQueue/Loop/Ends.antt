-- ===== src/Admin/KeyQueue/Loop/Ends.antt =====
-- About the number of rounds of runKeyImportJob in internal/admin/key_import_queue.go.
use multi_upstream_ai_gatewa.Prelude.{
  All, All-append, Bool, List, Option, ℕ, [], arith, false, if◌then◌else◌, length, nat_eq, none,
  not, refl, some, string_eq, suc, true, zero, ◌&&◌, ◌*◌, ◌++◌, ◌+◌, ◌-◌, ◌<◌, ◌==◌, ◌∷◌, ◌≡◌,
}
use multi_upstream_ai_gatewa.Admin.KeyQueue.{Queue, progress}
use multi_upstream_ai_gatewa.Admin.KeyQueue.Loop.{
  with_calls, Account, Answer, Budget, ImportCall, Run, Step, Task, first_tasks, next_round,
  requeued, retry_of, run_job, run_key_import_job, run_task,
}
use multi_upstream_ai_gatewa.Admin.KeyQueue.Retry.{max_attempts}
use multi_upstream_ai_gatewa.Collector.Errors.{Err, is}

-- The attempts that are left, summed over a queue of tasks.
abbrev attempts_left : List Task → ℕ
attempts_left [] = 0
attempts_left (t ∷ ts) = (max_attempts - t.attempts) + attempts_left ts

attempts_left-append :
    (ts us : List Task) → attempts_left (ts ++ us) ≡ attempts_left ts + attempts_left us
attempts_left-append [] us = omega arith
attempts_left-append (t ∷ ts) us = omega (arith, attempts_left-append ts us)

abbrev pub InTime : Task → Type 0
InTime t = t.attempts < max_attempts

pub retry_of-InTime :
    (t : Task) (o : Option Err) (d : ℕ) → retry_of t o ≡ some d → t.attempts + 1 < max_attempts
unfolding retry_of
retry_of-InTime t none d h = cc
retry_of-InTime t (some e) d h = ground (arith, h)

-- A round keeps every task below the last attempt and uses up one attempt.
pub next_round-InTime :
    (job : ℕ) (t : Task) (ts : List Task) (q : Queue) (a : Answer) (s : Step) (o : Option ℕ)
    → ((d : ℕ) → o ≡ some d → t.attempts + 1 < max_attempts)
    → InTime t
    → All InTime ts
    → All InTime (next_round job t ts q a s o).0
      × (attempts_left (next_round job t ts q a s o).0 < attempts_left (t ∷ ts))
unfolding next_round
next_round-InTime job t ts q a s none h i is = (is, omega (arith, i))
next_round-InTime job t ts q a s (some d) h i is = (
  All-append InTime ts _ is (h d refl, tt),
  omega (arith, i, h d refl, attempts_left-append ts (requeued t (a.now + d) ∷ [])),
)

with_calls-some :
    (cs : List ImportCall) (o : Option Run)
    → (r : Run) × (o ≡ some r)
    → (r : Run) × (with_calls cs o ≡ some r)
with_calls-some cs o (r, e) = (record r { calls = cs ++ r.calls }, rw e refl)

if_some :
    {A : Type 0} (c : Bool) (x y : Option A)
    → (a : A) × (x ≡ some a)
    → (a : A) × (y ≡ some a)
    → (a : A) × ((if c then x else y) ≡ some a)
if_some true x y p q = p
if_some false x y p q = q

pub run_job-ends :
    (fuel : ℕ) (world : ℕ → Answer) (job n : ℕ) (ts : List Task) (b : Budget) (q : Queue)
    → All InTime ts
    → attempts_left ts < fuel
    → (r : Run) × (run_job fuel world job n ts b q ≡ some r)
unfolding run_job
run_job-ends zero world job n ts b q i h = absurd (omega (arith, h))
run_job-ends (suc fuel) world job n [] b q i h = (_, refl)
run_job-ends (suc fuel) world job n (t ∷ ts) b q i h =
    let a = world n in
    let s = run_task t b a in
    let again = retry_of t s.fault in
    let q₂ = progress job (length ts) 0 (progress job (length ts + 1) t.not_before q) in
    let r = next_round job t ts q₂ a s again in
    let step = next_round-InTime job t ts q₂ a s again (retry_of-InTime t s.fault) i.0 i.1 in
    if_some (not (t.not_before == 0) && a.interrupted) _ _ (_, refl)
      (if_some a.stopped _ _ (_, refl)
        (with_calls-some s.calls _
          (run_job-ends fuel world job (suc n) r.0 s.budget r.1 step.0 (omega (arith, h, step.1)))))

pub first_tasks-InTime : (accounts : List Account) → All InTime (first_tasks accounts)
first_tasks-InTime [] = tt
first_tasks-InTime (a ∷ as') = (omega arith, first_tasks-InTime as')

attempts_left-first_tasks :
    (accounts : List Account) → attempts_left (first_tasks accounts) ≡ 3 * length accounts
attempts_left-first_tasks [] = refl
attempts_left-first_tasks (a ∷ as') = omega (arith, attempts_left-first_tasks as')

-- A batch ends, for every list of accounts and whatever the upstreams, the context and the clock do:
-- no pattern of retried failures keeps the loop going past three rounds for each account.
pub run_key_import_job-ends :
    (world : ℕ → Answer) (job : ℕ) (targets : List Account) (q : Queue)
    → (r : Run) × (run_key_import_job world job targets q ≡ some r)
unfolding run_key_import_job
run_key_import_job-ends world job targets q =
    run_job-ends (3 * length targets + 1) world job 0 (first_tasks targets) [] q
      (first_tasks-InTime targets) (omega (arith, attempts_left-first_tasks targets))
