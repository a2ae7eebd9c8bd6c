-- ===== src/Admin/KeyQueue/History.antt =====
-- About begin of internal/admin/key_import_queue.go: what a well-formed queue is, and the batches that
-- are held.
use multi_upstream_ai_gatewa.Prelude.{
  Bool, Bool-cases, List, Option, Option-cases, Unique, Unique-append, ℕ, [], ap, arith, contains,
  contains-append, false, inl, inr, length, length-append, ltb, ltb→lt, nat_beq_iff, nat_eq, none,
  refl, some, string_eq, true, ◌++◌, ◌+◌, ◌<◌, ◌==◌, ◌||◌, ◌∙◌, ◌∷◌, ◌≡◌, ◌≢◌, ◌≤◌,
}
use multi_upstream_ai_gatewa.Admin.KeyQueue.{
  Job, Queue, begin, is_running, job_history, new_job, new_queue, snapshot, trim,
}
use multi_upstream_ai_gatewa.Prelude.Dict.{
  Dict, delete, insert, lookup, lookup-delete, lookup-insert, lookup-insert_self,
}

abbrev pub is_some {ℓ} : {A : Type ℓ} → Option A → Bool
is_some none = false
is_some (some _) = true

pub record IsValid (q : Queue) : Type 0 where
  -- the ids in `order` are those of `jobs`, each once
  pub held : (i : ℕ) → contains q.order i ≡ is_some (lookup i q.jobs)
  pub unique : Unique q.order
  pub numbered : (i : ℕ) → contains q.order i ≡ true → i ≤ q.next_id
  -- the current batch is running, and no other is
  pub current_running : (i : ℕ) → q.current ≡ some i → is_running (lookup i q.jobs) ≡ true
  pub only_current : (i : ℕ) → is_running (lookup i q.jobs) ≡ true → q.current ≡ some i
  pub short : length q.order ≤ job_history

pub new_queue-IsValid : IsValid new_queue
unfolding lookup
new_queue-IsValid = record {
  held = λ i. refl;
  unique = tt;
  numbered = λ i h. cc;
  current_running = λ i h. cc;
  only_current = λ i h. cc;
  short = omega arith;
}

trim_short : (xs : List ℕ) (jobs : Dict ℕ Job) → length xs ≤ job_history → trim xs jobs ≡ (xs, jobs)
unfolding trim
trim_short [] jobs h = refl
trim_short (x ∷ xs) jobs h = ground (arith, h)

trim_over :
    (o : ℕ) (os : List ℕ) (jobs : Dict ℕ Job)
    → length os ≡ job_history
    → is_running (lookup o jobs) ≡ false
    → trim (o ∷ os) jobs ≡ (os, delete o jobs)
unfolding trim
trim_over o os jobs h r =
    let t : ltb job_history (length (o ∷ os)) ≡ true = ground (arith, h) in
    rw (t, r) (trim_short os (delete o jobs) (omega (arith, h)))

-- The queue that begin makes when no batch runs, and the oldest one, if any, has been dropped.
abbrev with_batch : Queue → ℕ → ℕ → List ℕ → Dict ℕ Job → Queue
with_batch q total now order jobs = record {
  jobs = jobs;
  order = order;
  next_id = q.next_id + 1;
  current = some (q.next_id + 1);
}

abbrev more : Queue → ℕ → ℕ → Dict ℕ Job
more q total now = insert (q.next_id + 1) (new_job (q.next_id + 1) total now) q.jobs

module _ (q : Queue) (v : IsValid q) (idle : q.current ≡ none) (total now : ℕ) where
  fresh : contains q.order (q.next_id + 1) ≡ false
  fresh = elim (Bool-cases (contains q.order (q.next_id + 1))) [
    | inl h ↦ absurd (omega (arith, v.numbered (q.next_id + 1) h))
    | inr h ↦ h
  ]

  none_running : (i : ℕ) → is_running (lookup i q.jobs) ≡ false
  none_running i = elim (Bool-cases (is_running (lookup i q.jobs))) [
    | inl h ↦ (let p = v.only_current i h in cc (p, idle))
    | inr h ↦ h
  ]

  -- with the new batch, before the oldest one is dropped
  more-IsValid_parts :
      ((i : ℕ)
        → contains (q.order ++ (q.next_id + 1) ∷ []) i ≡ is_some (lookup i (more q total now)))
      × Unique (q.order ++ (q.next_id + 1) ∷ [])
      × ((i : ℕ) → contains (q.order ++ (q.next_id + 1) ∷ []) i ≡ true → i ≤ q.next_id + 1)
      × ((i : ℕ) → is_running (lookup i (more q total now)) ≡ (q.next_id + 1 == i))
  unfolding new_job
  more-IsValid_parts = (
    (λ i. ground (
      arith,
      contains-append q.order ((q.next_id + 1) ∷ []) i,
      v.held i,
      lookup-insert (q.next_id + 1) i (new_job (q.next_id + 1) total now) q.jobs,
    )),
    Unique-append q.order (q.next_id + 1) v.unique fresh,
    (λ i h. ground (arith, h, contains-append q.order ((q.next_id + 1) ∷ []) i, v.numbered i)),
    (λ i. ground (
      arith,
      none_running i,
      lookup-insert (q.next_id + 1) i (new_job (q.next_id + 1) total now) q.jobs,
    )),
  )

  begin_room :
      length q.order < job_history
      → begin total now q ≡ (
        with_batch q total now (q.order ++ (q.next_id + 1) ∷ []) (more q total now),
        q.next_id + 1,
        true,
      )
  unfolding begin
  begin_room h =
      rw
        (
          idle,
          trim_short (q.order ++ (q.next_id + 1) ∷ []) (more q total now)
              (omega (arith, h, length-append q.order ((q.next_id + 1) ∷ []))),
        )
        refl

  begin_full :
      (o : ℕ) (os : List ℕ)
      → q.order ≡ o ∷ os
      → length q.order ≡ job_history
      → begin total now q ≡ (
        with_batch q total now (os ++ (q.next_id + 1) ∷ []) (delete o (more q total now)),
        q.next_id + 1,
        true,
      )
  unfolding begin
  begin_full o os e h =
      rw
        (
          idle,
          e,
          trim_over o (os ++ (q.next_id + 1) ∷ []) (more q total now)
              (omega (
                arith,
                h,
                ap (λ (l : List ℕ). length l) e,
                length-append os ((q.next_id + 1) ∷ []),
              ))
              (more-IsValid_parts.3 o
                ∙ ground (arith, v.numbered o (rw e (ground (arith, nat_beq_iff o o))))),
        )
        refl

  room-IsValid :
      length q.order < job_history
      → IsValid (with_batch q total now (q.order ++ (q.next_id + 1) ∷ []) (more q total now))
  room-IsValid h = record {
    held = more-IsValid_parts.0;
    unique = more-IsValid_parts.1;
    numbered = more-IsValid_parts.2;
    current_running = λ i p. ground (arith, p, more-IsValid_parts.3 i);
    only_current = λ i p. ground (arith, p, more-IsValid_parts.3 i);
    short = omega (arith, h, length-append q.order ((q.next_id + 1) ∷ []));
  }

  full-IsValid :
      (o : ℕ) (os : List ℕ)
      → q.order ≡ o ∷ os
      → length q.order ≡ job_history
      → IsValid (with_batch q total now (os ++ (q.next_id + 1) ∷ []) (delete o (more q total now)))
  full-IsValid o os e h =
      let unique' : Unique (o ∷ (os ++ (q.next_id + 1) ∷ [])) = rw e at more-IsValid_parts.1 in
      let held' : (i : ℕ)
          → (o == i || contains (os ++ (q.next_id + 1) ∷ []) i)
            ≡ is_some (lookup i (more q total now)) =
        λ i. rw e at (more-IsValid_parts.0 i) in
      let others : (i : ℕ) → o ≢ q.next_id + 1 =
        λ i p. ground (arith, v.numbered o (rw e (ground (arith, nat_beq_iff o o))), p) in
      record {
        held = λ i.
            ground
              (arith, held' i, unique'.0, lookup-delete o i (more q total now), nat_beq_iff o i);
        unique = unique'.1;
        numbered = λ i p. more-IsValid_parts.2 i (rw e (ground (arith, p)));
        current_running = λ i p.
            ground
              (arith, p, others i, more-IsValid_parts.3 i, lookup-delete o i (more q total now));
        only_current =
            λ i p. ground (arith, p, more-IsValid_parts.3 i, lookup-delete o i (more q total now));
        short =
            omega
              (arith, h, ap (λ (l : List ℕ). length l) e, length-append os ((q.next_id + 1) ∷ []));
      }

  begin_full-IsValid :
      (l : List ℕ) → q.order ≡ l → length q.order ≡ job_history → IsValid (begin total now q).0
  begin_full-IsValid [] e h = absurd (omega (arith, h, ap (λ (l : List ℕ). length l) e))
  begin_full-IsValid (o ∷ os) e h = rw (begin_full o os e h) (full-IsValid o os e h)

  begin_idle-IsValid : IsValid (begin total now q).0
  begin_idle-IsValid = elim (Bool-cases (ltb (length q.order) job_history)) [
    | inl h ↦ (let r = ltb→lt (length q.order) job_history h in rw (begin_room r) (room-IsValid r))
    | inr h ↦ begin_full-IsValid q.order refl (ground (arith, h, v.short))
  ]

  full_snapshot-begin :
      (l : List ℕ)
      → q.order ≡ l
      → length q.order ≡ job_history
      → snapshot (q.next_id + 1) (begin total now q).0 ≡ some (new_job (q.next_id + 1) total now)
  unfolding snapshot
  full_snapshot-begin [] e h = absurd (omega (arith, h, ap (λ (l : List ℕ). length l) e))
  full_snapshot-begin (o ∷ os) e h =
      rw (begin_full o os e h, lookup-delete, lookup-insert_self)
        (ground (arith, v.numbered o (rw e (ground (arith, nat_beq_iff o o)))))

  pub snapshot-begin :
      snapshot (q.next_id + 1) (begin total now q).0 ≡ some (new_job (q.next_id + 1) total now)
  unfolding snapshot
  snapshot-begin = elim (Bool-cases (ltb (length q.order) job_history)) [
    | inl h ↦
        rw (begin_room (ltb→lt (length q.order) job_history h))
          (lookup-insert_self (q.next_id + 1) _ q.jobs)
    | inr h ↦ full_snapshot-begin q.order refl (ground (arith, h, v.short))
  ]

  full_current-begin :
      (l : List ℕ)
      → q.order ≡ l
      → length q.order ≡ job_history
      → (begin total now q).0.current ≡ some (q.next_id + 1)
  full_current-begin [] e h = absurd (omega (arith, h, ap (λ (l : List ℕ). length l) e))
  full_current-begin (o ∷ os) e h = rw (begin_full o os e h) refl

  pub current-begin : (begin total now q).0.current ≡ some (q.next_id + 1)
  current-begin = elim (Bool-cases (ltb (length q.order) job_history)) [
    | inl h ↦ rw (begin_room (ltb→lt (length q.order) job_history h)) refl
    | inr h ↦ full_current-begin q.order refl (ground (arith, h, v.short))
  ]

-- A second batch does not start while one runs: begin returns the running one and changes nothing.
pub begin_busy :
    (total now id : ℕ) (q : Queue) → q.current ≡ some id → begin total now q ≡ (q, id, false)
unfolding begin
begin_busy total now id q h = rw h

-- begin keeps the queue well-formed, whether or not it starts a batch.
pub begin-IsValid : (total now : ℕ) (q : Queue) → IsValid q → IsValid (begin total now q).0
begin-IsValid total now q v = elim (Option-cases q.current) [
  | inl h ↦ begin_idle-IsValid q v h total now
  | inr (id, h) ↦ rw (begin_busy total now id q h) v
]

-- A new batch is the newest of the list, and pushes out the oldest one exactly if twenty are held;
-- so the last twenty batches, the one just started included, are always there to be looked up.
pub order-begin :
    (total now : ℕ) (q : Queue)
    → IsValid q
    → q.current ≡ none
    → ((length q.order < job_history
          → (begin total now q).0.order ≡ q.order ++ (q.next_id + 1) ∷ [])
        × ((o : ℕ) (os : List ℕ)
            → q.order ≡ o ∷ os
            → length q.order ≡ job_history
            → (begin total now q).0.order ≡ os ++ (q.next_id + 1) ∷ []))
      × (snapshot (q.next_id + 1) (begin total now q).0 ≡ some (new_job (q.next_id + 1) total now))
unfolding snapshot
order-begin total now q v h = (
  (
    (λ r. ap (λ (p : Queue × ℕ × Bool). p.0.order) (begin_room q v h total now r)),
    λ o os e r. ap (λ (p : Queue × ℕ × Bool). p.0.order) (begin_full q v h total now o os e r),
  ),
  snapshot-begin q v h total now,
)
