-- ===== src/Admin/KeyQueue/Loop/Rule.antt =====
-- About the rounds of runKeyImportJob in internal/admin/key_import_queue.go, by induction.
use mathlib.Core.Path.{subst}
use mathlib.Core.List.{append-nil}
use mathlib.Core.List.{append_assoc}
use multi_upstream_ai_gatewa.Prelude.{
  Bool, List, Option, ℕ, [], ap, false, if◌then◌else◌, length, nat_eq, none, not, refl, some,
  string_eq, suc, sym, true, zero, ◌&&◌, ◌++◌, ◌+◌, ◌==◌, ◌∷◌, ◌≡◌,
}
use multi_upstream_ai_gatewa.Admin.KeyQueue.{Queue, canceled, done, finish, progress}
use multi_upstream_ai_gatewa.Admin.KeyQueue.Loop.{
  with_calls, Answer, Budget, ImportCall, Run, Task, interrupted_text, next_round, retry_of,
  run_job, run_task,
}

abbrev pub started : ℕ → Task → List Task → Queue → Queue
started job t ts q = progress job (length ts) 0 (progress job (length ts + 1) t.not_before q)

-- `P` holds between two rounds, `Q` at the end; the last argument of both is the list of the calls
-- made so far.
pub record Rule (world : ℕ → Answer) (job : ℕ)
    (P : List Task → Budget → Queue → List ImportCall → Type 0)
    (Q : Queue → List ImportCall → Type 0) : Type 0 where
  pub on_done :
      (b : Budget) (q : Queue) (log : List ImportCall) (now : ℕ)
      → P [] b q log
      → Q (finish job done none now q) log
  pub on_interrupt :
      (t : Task) (ts : List Task) (b : Budget) (q : Queue) (log : List ImportCall) (now : ℕ)
      → P (t ∷ ts) b q log
      → Q
          (finish job canceled
            (some interrupted_text)
            now
            (progress job (length ts + 1) t.not_before q))
          log
  pub on_stop :
      (t : Task) (ts : List Task) (b : Budget) (q : Queue) (log : List ImportCall) (n : ℕ)
      → P (t ∷ ts) b q log
      → Q
          (finish job canceled
            (some interrupted_text)
            (world n).now
            (progress job (length ts + 1) 0 (started job t ts q)))
          (log ++ (run_task t b (world n)).calls)
  pub on_round :
      (t : Task) (ts : List Task) (b : Budget) (q : Queue) (log : List ImportCall) (n : ℕ)
      → P (t ∷ ts) b q log
      → let s = run_task t b (world n) in
        let r = next_round job t ts (started job t ts q) (world n) s (retry_of t s.fault) in
        P r.0 s.budget r.1 (log ++ s.calls)

same_run : {x y : Run} → some x ≡ some y → x ≡ y
same_run h = cc h

if_cases :
    {A : Type 0} (c : Bool) (x y : Option A) (r : A) (G : A → Type 0)
    → (x ≡ some r → G r)
    → (y ≡ some r → G r)
    → (if c then x else y) ≡ some r
    → G r
if_cases true x y r G p q h = p h
if_cases false x y r G p q h = q h

with_calls-cases :
    (cs : List ImportCall) (o : Option Run) (r : Run)
    → with_calls cs o ≡ some r
    → (u : Run) × (o ≡ some u) × (r.queue ≡ u.queue) × (r.calls ≡ cs ++ u.calls)
with_calls-cases cs none r h = cc
with_calls-cases cs (some u) r h =
    let e : record u { calls = cs ++ u.calls } ≡ r = cc (h) in
    (u, refl, sym (ap (λ (x : Run). x.queue) e), sym (ap (λ (x : Run). x.calls) e))

module _ (world : ℕ → Answer) (job : ℕ) (P : List Task → Budget → Queue → List ImportCall → Type 0)
    (Q : Queue → List ImportCall → Type 0) (rule : Rule world job P Q) where
  pub run_job_rule :
      (fuel n : ℕ) (ts : List Task) (b : Budget) (q : Queue) (log : List ImportCall) (r : Run)
      → run_job fuel world job n ts b q ≡ some r
      → P ts b q log
      → Q r.queue (log ++ r.calls)
  unfolding run_job
  run_job_rule zero n ts b q log r h p = cc
  run_job_rule (suc fuel) n [] b q log r h p =
      subst (λ (x : Run). Q x.queue (log ++ x.calls)) (same_run h)
        (rw append-nil (rule.on_done b q log (world n).now p))
  run_job_rule (suc fuel) n (t ∷ ts) b q log r h p =
      let a = world n in
      let s = run_task t b a in
      let next = next_round job t ts (started job t ts q) a s (retry_of t s.fault) in
      let G : Run → Type 0 = λ x. Q x.queue (log ++ x.calls) in
      if_cases (not (t.not_before == 0) && a.interrupted) _ _ r G
        (λ e. subst G (same_run e) (rw append-nil (rule.on_interrupt t ts b q log a.now p)))
        (λ e.
          if_cases a.stopped _ _ r G (λ f. subst G (same_run f) (rule.on_stop t ts b q log n p))
            (λ f.
              let (u, g, eq, ec) = with_calls-cases s.calls _ r f in
              rw (eq, ec, ← append_assoc)
                (run_job_rule fuel (suc n) next.0 s.budget next.1 (log ++ s.calls) u g
                  (rule.on_round t ts b q log n p)))
            e)
        h
