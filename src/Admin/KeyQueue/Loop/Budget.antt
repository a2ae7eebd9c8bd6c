-- ===== src/Admin/KeyQueue/Loop/Budget.antt =====
-- About the budget of plain-text reads of a batch in internal/admin/key_import_queue.go.
use mathlib.Core.List.{append-nil}
use multi_upstream_ai_gatewa.Prelude.{
  Bool-cases, List, Option, ℕ, [], ap, arith, if◌then◌else◌, inl, inr, length, nat_beq_iff, nat_eq,
  none, refl, some, string_eq, ◌*◌, ◌++◌, ◌+◌, ◌-◌, ◌<◌, ◌==◌, ◌∷◌, ◌≡◌, ◌≤◌,
}
use multi_upstream_ai_gatewa.Admin.KeyQueue.{Queue}
use multi_upstream_ai_gatewa.Admin.KeyQueue.Loop.{
  Account, Answer, Budget, ImportCall, Run, Task, call_import, first_tasks, remaining,
  run_key_import_job, run_task,
}
use multi_upstream_ai_gatewa.Admin.KeyQueue.Loop.Counters.{sum_of, sum_of-append}
use multi_upstream_ai_gatewa.Admin.KeyQueue.Loop.Rule.{Rule, run_job_rule}
use multi_upstream_ai_gatewa.Collector.Errors.{Err}
use multi_upstream_ai_gatewa.Collector.Keys.{default_secret_limit}
use multi_upstream_ai_gatewa.Prelude.Dict.{insert, lookup, lookup-insert}

-- The reads that the calls made on a channel.
abbrev pub reads_on : ℕ → List ImportCall → ℕ
reads_on c log = sum_of (λ (k : ImportCall). if k.channel_id == c then k.reads else 0) log

-- ImportKeys keeps to the limit that it is given, which is never 0.
abbrev pub IsFrugal : (ℕ → Answer) → Type 0
IsFrugal world = (n limit : ℕ) → 0 < limit → ((world n).got limit).secret_resolves ≤ limit

remaining-insert :
    (c channel n : ℕ) (b : Budget)
    → remaining c (insert channel n b) ≡ (if channel == c then n else remaining c b)
unfolding remaining
remaining-insert c channel n b = ground (arith, lookup-insert channel c n b)

-- One call's reads move from the budget of its channel to its sum.
spend :
    (c channel : ℕ) (b : Budget) (reads sum : ℕ)
    → sum + remaining c b ≡ default_secret_limit
    → reads ≤ remaining channel b
    → (sum + ((if channel == c then reads else 0) + 0))
        + (if channel == c then remaining channel b - reads else remaining c b)
      ≡ default_secret_limit
spend c channel b reads sum h f = elim (Bool-cases (channel == c)) [
  | inl e ↦
      rw e (let p = ap (λ x. remaining x b) ((nat_beq_iff channel c).0 e) in omega (arith, h, f, p))
  | inr e ↦ rw e (omega (arith, h))
]

module _ (world : ℕ → Answer) (frugal : IsFrugal world) (job : ℕ) where
  abbrev Balanced : Budget → List ImportCall → Type 0
  Balanced b log = (c : ℕ) → reads_on c log + remaining c b ≡ default_secret_limit

  call_import-Balanced :
      (t : Task) (b : Budget) (n : ℕ) (o : Option Err) (log : List ImportCall)
      → 0 < remaining t.account.channel_id b
      → Balanced b log
      → let s = call_import t b (remaining t.account.channel_id b) (world n) o in
        Balanced s.budget (log ++ s.calls)
  unfolding call_import
  call_import-Balanced t b n (some e) log p h = rw append-nil h
  call_import-Balanced t b n none log p h = λ c.
      (let limit = remaining t.account.channel_id b in
        let reads = ((world n).got limit).secret_resolves in
        let call : ImportCall = record {
          channel_id = t.account.channel_id;
          limit = limit;
          reads = reads;
          sent = (world n).sent limit;
        } in
        let f : ImportCall → ℕ = λ k. if k.channel_id == c then k.reads else 0 in
        rw
          (
            sum_of-append f log (call ∷ []),
            remaining-insert c t.account.channel_id (limit - reads) b,
          )
          (spend c t.account.channel_id b reads (reads_on c log) (h c) (frugal n limit p)))

  run_task-Balanced :
      (t : Task) (b : Budget) (n : ℕ) (log : List ImportCall)
      → Balanced b log
      → let s = run_task t b (world n) in Balanced s.budget (log ++ s.calls)
  unfolding run_task
  run_task-Balanced t b n log h = elim (Bool-cases (t.account.status == "active")) [
    | inr e ↦ rw (e, append-nil) h
    | inl e ↦ elim (Bool-cases (remaining t.account.channel_id b == 0)) [
      | inl f ↦ rw (e, f, append-nil) h
      | inr f ↦
          rw (e, f) (call_import-Balanced t b n (world n).unavailable log (ground (arith, f)) h)
    ]
  ]

  budget_rule :
      Rule world job
        (λ ts b q log. Balanced b log)
        (λ q log. (c : ℕ) → reads_on c log ≤ default_secret_limit)
  budget_rule = record {
    on_done = λ b q log now h c. omega (arith, h c);
    on_interrupt = λ t ts b q log now h c. omega (arith, h c);
    on_stop = λ t ts b q log n h c. omega (arith, run_task-Balanced t b n log h c);
    on_round = λ t ts b q log n h. run_task-Balanced t b n log h;
  }

-- If every call of ImportKeys keeps to its limit, a whole batch reads at most twenty keys in plain
-- text on any one channel, over all accounts of that channel and all attempts.
pub batch_reads_bounded :
    (world : ℕ → Answer) (job : ℕ) (targets : List Account) (q : Queue) (r : Run) (channel : ℕ)
    → IsFrugal world
    → run_key_import_job world job targets q ≡ some r
    → reads_on channel r.calls ≤ default_secret_limit
unfolding run_key_import_job
batch_reads_bounded world job targets q r channel frugal e =
    run_job_rule world job _ _ (budget_rule world frugal job) (3 * length targets + 1) 0
      (first_tasks targets) [] q [] r e (λ c. unfold remaining lookup in refl) channel
