-- ===== src/Admin/KeyQueue/Loop/Reads.antt =====
-- About batches of internal/admin/key_import_queue.go whose rounds call ImportKeys of
-- internal/collection/runner.go.
use multi_upstream_ai_gatewa.Prelude.{
  Bool-cases, List, Option, String, ℕ, [], arith, if◌then◌else◌, inl, inr, length, nat_eq, none,
  refl, some, string_eq, ◌*◌, ◌++◌, ◌+◌, ◌-◌, ◌==◌, ◌≡◌, ◌≤◌,
}
use multi_upstream_ai_gatewa.Admin.KeyQueue.{Queue}
use multi_upstream_ai_gatewa.Admin.KeyQueue.Loop.{
  Account, Answer, Budget, ImportCall, Run, Task, call_import, first_tasks, remaining,
  run_key_import_job, run_task,
}
use multi_upstream_ai_gatewa.Admin.KeyQueue.Loop.Budget.{IsFrugal, batch_reads_bounded, reads_on}
use multi_upstream_ai_gatewa.Admin.KeyQueue.Loop.Counters.{sum_of, sum_of-append}
use multi_upstream_ai_gatewa.Admin.KeyQueue.Loop.Rule.{Rule, run_job_rule}
use multi_upstream_ai_gatewa.Collection.Import.{Imported, Reader, import_keys}
use multi_upstream_ai_gatewa.Collection.Import.Reads.{Watched, import_keys_lem}
use multi_upstream_ai_gatewa.Collector.Errors.{Err}
use multi_upstream_ai_gatewa.Collector.Keys.{default_secret_limit}

-- What one round meets when it calls ImportKeys.
pub record Site (C S W : Type 0) : Type 0 where
  pub reader : Reader C S W
  pub credentials : List C
  pub family : String
  pub before : W

-- The calls of ResolveKeySecret that the calls of ImportKeys sent on a channel.
abbrev pub sent_on : ℕ → List ImportCall → ℕ
sent_on c log = sum_of (λ (k : ImportCall). if k.channel_id == c then k.sent else 0) log

module _ {C S W : Type 0} (reads : W → ℕ) where
  -- ImportKeys at one site with a limit.
  abbrev pub at_site : Site C S W → ℕ → Imported W
  at_site s limit = import_keys s.reader s.credentials s.family limit s.before

  -- The world in which the rounds get their results from ImportKeys; `reads` counts the calls of
  -- ResolveKeySecret.
  abbrev pub importing : (ℕ → Site C S W) → (ℕ → Answer) → ℕ → Answer
  importing sites world n = record (world n) {
    got = λ limit. (at_site (sites n) limit).0;
    sent = λ limit. reads (at_site (sites n) limit).3 - reads (sites n).before;
  }

module _ {C S W : Type 0} (reads : W → ℕ) (sites : ℕ → Site C S W)
    (watch : (n : ℕ) → Watched (sites n).reader reads) (world : ℕ → Answer) where
  importing-IsFrugal : IsFrugal (importing reads sites world)
  importing-IsFrugal n limit h =
      let s = sites n in
      let (sent, most, a, b) =
        import_keys_lem s.reader reads (watch n) s.credentials s.family limit s.before in
      ground (arith, most, h)

  -- What ImportKeys reports is what it sent.
  importing-sent :
      (n limit : ℕ)
      → (importing reads sites world n).sent limit
        ≡ ((importing reads sites world n).got limit).secret_resolves
  importing-sent n limit =
      let s = sites n in
      let (sent, most, a, b) =
        import_keys_lem s.reader reads (watch n) s.credentials s.family limit s.before in
      omega (arith, sent)

  abbrev Told : List ImportCall → Type 0
  Told log = (c : ℕ) → sent_on c log ≡ reads_on c log

  call_import-Told :
      (t : Task) (b : Budget) (limit n : ℕ) (o : Option Err)
      → Told (call_import t b limit (importing reads sites world n) o).calls
  unfolding call_import
  call_import-Told t b limit n (some e) c = refl
  call_import-Told t b limit n none c = rw (importing-sent n limit) refl

  run_task-Told :
      (t : Task) (b : Budget) (n : ℕ) → Told (run_task t b (importing reads sites world n)).calls
  unfolding run_task
  run_task-Told t b n c = elim (Bool-cases (t.account.status == "active")) [
    | inr e ↦ rw e refl
    | inl e ↦ elim (Bool-cases (remaining t.account.channel_id b == 0)) [
      | inl f ↦ rw (e, f) refl
      | inr f ↦
          rw (e, f)
            (call_import-Told t b (remaining t.account.channel_id b) n (world n).unavailable c)
    ]
  ]

  append-Told : (xs ys : List ImportCall) → Told xs → Told ys → Told (xs ++ ys)
  append-Told xs ys h g c =
      rw
        (
          sum_of-append (λ (k : ImportCall). if k.channel_id == c then k.sent else 0) xs ys,
          sum_of-append (λ (k : ImportCall). if k.channel_id == c then k.reads else 0) xs ys,
          h c,
          g c,
        )
        refl

  importing-Told :
      (job : ℕ)
      → Rule (importing reads sites world) job (λ ts b q log. Told log) (λ q log. Told log)
  importing-Told job = record {
    on_done = λ b q log now h. h;
    on_interrupt = λ t ts b q log now h. h;
    on_stop = λ t ts b q log n h. append-Told log _ h (run_task-Told t b n);
    on_round = λ t ts b q log n h. append-Told log _ h (run_task-Told t b n);
  }

  -- In a batch whose rounds call ImportKeys, ResolveKeySecret is called at most twenty times on any
  -- one channel, failed calls included, over all its accounts and attempts and whatever the sites and
  -- the database answer, where `reads` counts these calls.
  pub importing_reads_bounded :
      (job : ℕ) (targets : List Account) (q : Queue) (r : Run) (channel : ℕ)
      → run_key_import_job (importing reads sites world) job targets q ≡ some r
      → sent_on channel r.calls ≤ default_secret_limit
  unfolding run_key_import_job
  importing_reads_bounded job targets q r channel e =
      let told : sent_on channel r.calls ≡ reads_on channel r.calls =
        run_job_rule (importing reads sites world) job _ _ (importing-Told job)
          (3 * length targets + 1) 0 (first_tasks targets) [] q [] r e (λ c. refl) channel in
      let most =
        batch_reads_bounded (importing reads sites world) job targets q r channel importing-IsFrugal
          e in
      omega (arith, told, most)
