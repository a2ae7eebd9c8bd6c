-- ===== src/Admin/KeyQueue/Loop/Counters.antt =====
-- About the counters of a batch in internal/admin/key_import_queue.go.
use multi_upstream_ai_gatewa.Prelude.{
  List, Option, String, ℕ, [], ap, arith, length, length-append, refl, ◌++◌, ◌+◌, ◌∷◌, ◌≡◌,
}
use multi_upstream_ai_gatewa.Admin.KeyQueue.{
  Item, Job, JobStatus, deferred, failed, finish_job, new_job, progress_job, record_job, skipped,
}
use multi_upstream_ai_gatewa.Collector.Keys.{KeyImportResult}

abbrev pub sum_of {ℓ} : {A : Type ℓ} → (A → ℕ) → List A → ℕ
sum_of f [] = 0
sum_of f (x ∷ xs) = f x + sum_of f xs

pub sum_of-append {ℓ} :
    {A : Type ℓ} (f : A → ℕ) (xs ys : List A) → sum_of f (xs ++ ys) ≡ sum_of f xs + sum_of f ys
sum_of-append f [] ys = omega arith
sum_of-append f (x ∷ xs) ys = omega (arith, sum_of-append f xs ys)

-- 1 for an item of that status.
abbrev pub one_failed : Item → ℕ
one_failed i = elim i.status [ failed ↦ 1 | _ ↦ 0 ]

abbrev pub one_deferred : Item → ℕ
one_deferred i = elim i.status [ deferred ↦ 1 | _ ↦ 0 ]

abbrev pub one_skipped : Item → ℕ
one_skipped i = elim i.status [ skipped ↦ 1 | _ ↦ 0 ]

-- Every counter of the batch but the one for deferred accounts, which finish adds to.
pub record IsCounted (j : Job) : Type 0 where
  pub dones : j.done_count ≡ length j.items
  pub counts : j.count ≡ length j.items
  pub failures : j.failed_accounts ≡ sum_of one_failed j.items
  pub skips : j.skipped_accounts ≡ sum_of one_skipped j.items
  pub keys_found : j.found ≡ sum_of (λ i. i.result.found) j.items
  pub keys_imported : j.imported ≡ sum_of (λ i. i.result.imported) j.items
  pub keys_skipped : j.skipped ≡ sum_of (λ i. i.result.skipped) j.items
  pub keys_failed : j.failed ≡ sum_of (λ i. i.result.failed) j.items
  pub keys_deferred : j.deferred ≡ sum_of (λ i. i.result.deferred) j.items

pub new_job-IsCounted : (id total now : ℕ) → IsCounted (new_job id total now)
unfolding new_job
new_job-IsCounted id total now = omega arith

pub progress_job-IsCounted :
    (pending next_at : ℕ) (j : Job) → IsCounted j → IsCounted (progress_job pending next_at j)
unfolding progress_job
progress_job-IsCounted pending next_at j c = ground arith

pub finish_job-IsCounted :
    (s : JobStatus) (m : Option String) (now : ℕ) (j : Job)
    → IsCounted j
    → IsCounted (finish_job s m now j)
unfolding finish_job
finish_job-IsCounted s m now j c = ground arith

-- An item that carries the result that is added to the sums.
pub record_job-IsCounted :
    (i : Item) (got : KeyImportResult) (j : Job)
    → i.result ≡ got
    → IsCounted j
    → IsCounted (record_job i got j)
      × ((record_job i got j).deferred_accounts ≡ j.deferred_accounts + one_deferred i)
      × ((record_job i got j).items ≡ j.items ++ i ∷ [])
      × ((record_job i got j).total ≡ j.total)
unfolding record_job
record_job-IsCounted i got j e c = (
  record {
    dones = omega (arith, c.dones, length-append j.items (i ∷ []));
    counts = refl;
    failures = ground (arith, c.failures, sum_of-append one_failed j.items (i ∷ []));
    skips = ground (arith, c.skips, sum_of-append one_skipped j.items (i ∷ []));
    keys_found = grown (λ g. g.found) j.found c.keys_found;
    keys_imported = grown (λ g. g.imported) j.imported c.keys_imported;
    keys_skipped = grown (λ g. g.skipped) j.skipped c.keys_skipped;
    keys_failed = grown (λ g. g.failed) j.failed c.keys_failed;
    keys_deferred = grown (λ g. g.deferred) j.deferred c.keys_deferred;
  },
  ground arith,
  refl,
  ground arith,
)
  where
    grown :
        (f : KeyImportResult → ℕ) (n : ℕ)
        → n ≡ sum_of (λ x. f x.result) j.items
        → n + f got ≡ sum_of (λ x. f x.result) (j.items ++ i ∷ [])
    grown f n h =
        omega (arith, h, sum_of-append (λ (x : Item). f x.result) j.items (i ∷ []), ap f e)
