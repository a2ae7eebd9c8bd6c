-- ===== src/Admin/KeyQueue/Retry.antt =====
-- keyImportRetryDelay of internal/admin/key_import_queue.go: which failures are tried again, and
-- when. Durations are nanoseconds.
use native.Mathlib.Nat.{le_refl, mul-le-mul}
use Prim.Native.Nat.{◌^◌}
use native.Mathlib.Nat.{pow-suc, one-le-pow}
use multi_upstream_ai_gatewa.Prelude.{
  Bool, Bool-cases, Option, Option-cases, ℕ, arith, false, if◌then◌else◌, inl, inr, leb, ltb,
  ltb-false, min, nat_eq, none, refl, some, string_eq, suc, true, zero, ◌*◌, ◌+◌, ◌-◌, ◌<◌, ◌==◌,
  ◌||◌, ◌∙◌, ◌≡◌, ◌≢◌, ◌⊎◌,
}
use multi_upstream_ai_gatewa.Collection.Schedule.{key_eq, minute}
use multi_upstream_ai_gatewa.Collector.Errors.{
  Err, Sentinel, channel_read_busy, deadline_exceeded, http_failure, is, is_timeout,
}

-- keyImportMaxAttempts
abbrev pub max_attempts : ℕ
max_attempts = 3

-- keyImportRetryBase
abbrev pub retry_base : ℕ
retry_base = minute

-- keyImportRetryCap
abbrev pub retry_cap : ℕ
retry_cap = 10 * minute

-- The doubling loop, on the rounds that are left.
unfoldable pub doubled : ℕ → ℕ → ℕ
doubled zero backoff = backoff
doubled (suc n) backoff = elim (ltb backoff retry_cap) [
  | true ↦ doubled n (backoff * 2)
  | false ↦ backoff
]

unfoldable pub backoff_for : ℕ → ℕ
backoff_for attempts =
    let backoff = doubled (attempts - 1) retry_base in
    if ltb retry_cap backoff then retry_cap else backoff

-- The part of keyImportRetryDelay for an HTTP failure.
unfoldable pub http_retry : ℕ → ℕ → ℕ → Option ℕ
http_retry backoff status retry_after =
    if status == 429
    then some (if ltb 0 retry_after then retry_after else backoff)
    else if leb 500 status
    then some backoff
    else none

unfoldable pub other_retry : Err → ℕ → Option ℕ
other_retry e backoff =
    if is Sentinel.canceled e
    then none
    else if is deadline_exceeded e || is_timeout e
    then some backoff
    else none

-- The delay before the next attempt, or `none` if there is to be none.
unfoldable pub key_import_retry_delay : Err → ℕ → Option ℕ
unfolding http_retry other_retry
key_import_retry_delay e attempts =
    let backoff = backoff_for attempts in
    if is channel_read_busy e then some backoff else elim (http_failure e) [
      | none ↦ other_retry e backoff
      | some (status, retry_after) ↦ http_retry backoff status retry_after
    ]

doubled_lem :
    (n b : ℕ)
    → (if ltb retry_cap (doubled n b) then retry_cap else doubled n b) ≡ min (b * 2 ^ n) retry_cap
unfolding doubled
doubled_lem zero b = ground arith
doubled_lem (suc n) b = elim (Bool-cases (ltb b retry_cap)) [
  | inl h ↦ rw (h, doubled, pow-suc) (doubled_lem n (b * 2) ∙ omega arith)
  | inr h ↦
      rw (h, doubled)
        (ground (
          arith,
          ltb-false b retry_cap h,
          mul-le-mul (le_refl b) (one-le-pow (suc n) 2 (omega arith)),
        ))
]

-- The backoff of this queue is one minute doubled once for each attempt after the first, cut at ten
-- minutes: the loop computes that for every number of attempts, and never overflows the cut.
backoff_for-eq-min : (n : ℕ) → backoff_for (n + 1) ≡ min (retry_base * 2 ^ n) retry_cap
unfolding backoff_for
backoff_for-eq-min n = let e : n + 1 - 1 ≡ n = omega arith in rw e (doubled_lem n retry_base)

-- A response that is not 429 and below 500 is a verdict: it is never tried again, unless the channel
-- was merely busy.
verdict_not_retried :
    (e : Err) (attempts status retry_after : ℕ)
    → is channel_read_busy e ≡ false
    → http_failure e ≡ some (status, retry_after)
    → status < 500
    → status ≢ 429
    → key_import_retry_delay e attempts ≡ none
unfolding key_import_retry_delay
verdict_not_retried e attempts status retry_after b h p q = rw (b, h) (ground arith)

-- Every delay is the backoff of the attempt, or the Retry-After of a 429 response; so it is at most
-- ten minutes or what the upstream asked for, and a zero Retry-After never means "at once".
key_import_retry_delay-cases :
    (e : Err) (attempts d : ℕ)
    → key_import_retry_delay e attempts ≡ some d
    → (d ≡ backoff_for attempts) ⊎ ((0 < d) × (http_failure e ≡ some (429, d)))
unfolding key_import_retry_delay
key_import_retry_delay-cases e attempts d h = elim (Bool-cases (is channel_read_busy e)) [
  | inl b ↦ inl (ground (arith, h, b))
  | inr b ↦ elim (Option-cases (http_failure e)) [
    | inl p ↦ inl (ground (arith, h, b, p))
    | inr ((status, retry_after), p) ↦ http_retry-cases (http_failure e) status retry_after p (
        let g : http_retry (backoff_for attempts) status retry_after ≡ some d =
          ground (arith, h, b, p) in
        g)
  ]
]
  where
    http_retry-cases :
        (o : Option (ℕ × ℕ)) (status retry_after : ℕ)
        → o ≡ some (status, retry_after)
        → http_retry (backoff_for attempts) status retry_after ≡ some d
        → (d ≡ backoff_for attempts) ⊎ ((0 < d) × (o ≡ some (429, d)))
    http_retry-cases o status retry_after p g = ground (arith, p, g)

-- No HTTP response, a 429, or one of the server's errors.
abbrev pub is_retriable : Option (ℕ × ℕ) → Bool
is_retriable none = true
is_retriable (some (status, retry_after)) = status == 429 || leb 500 status

retriable-delayed :
    (e : Err) (attempts d : ℕ)
    → key_import_retry_delay e attempts ≡ some d
    → (is channel_read_busy e || is_retriable (http_failure e)) ≡ true
retriable-delayed e attempts d h = elim (Bool-cases (is channel_read_busy e)) [
  | inl b ↦ rw b refl
  | inr b ↦ elim (Option-cases (http_failure e)) [
    | inl p ↦ rw (b, p) refl
    | inr ((status, retry_after), p) ↦ elim (Bool-cases (status == 429 || leb 500 status)) [
      | inl r ↦ rw (b, p) r
      | inr r ↦
          (let none_given =
              verdict_not_retried e attempts status retry_after b p (ground (arith, r))
                (λ s. ground (arith, r, s)) in
            absurd (ground (arith, h, none_given)))
    ]
  ]
]

-- Every delay of keyImportRetryDelay is one minute doubled once for each attempt after the first, cut
-- at ten minutes, or the positive Retry-After of a 429 response; and there is one only where the
-- channel was busy or the error has no HTTP response, one with 429, or one from 500 on.
pub key_import_retry_delay_lem :
    (e : Err) (n d : ℕ)
    → key_import_retry_delay e (n + 1) ≡ some d
    → ((d ≡ min (retry_base * 2 ^ n) retry_cap) ⊎ ((0 < d) × (http_failure e ≡ some (429, d))))
      × ((is channel_read_busy e || is_retriable (http_failure e)) ≡ true)
key_import_retry_delay_lem e n d h = (
  rw (backoff_for-eq-min n) at (key_import_retry_delay-cases e (n + 1) d h),
  retriable-delayed e (n + 1) d h,
)
