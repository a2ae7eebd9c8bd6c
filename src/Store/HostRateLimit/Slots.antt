-- ===== src/Store/HostRateLimit/Slots.antt =====
-- About requests that wait through HostRequestLimiter.Wait of internal/store/host_rate_limit.go, by
-- Client.Wait of internal/collector/httpx.go, in any number of processes.
use multi_upstream_ai_gatewa.Prelude.{
  All, Bool-cases, List, Option, Option-cases, String, ℕ, [], ap, arith, false, if◌then◌else◌, inl,
  inr, max, nat_eq, none, refl, some, string_eq, true, ◌&&◌, ◌+◌, ◌-◌, ◌<◌, ◌==◌, ◌||◌, ◌∙◌, ◌∷◌,
  ◌≡◌, ◌≤◌,
}
use multi_upstream_ai_gatewa.Collector.Errors.{Err}
use multi_upstream_ai_gatewa.Collector.Pacing.{Client, wait}
use multi_upstream_ai_gatewa.Collector.Pacing.Refines.{Spaced}
use multi_upstream_ai_gatewa.Collector.Sync.{is_none}
use multi_upstream_ai_gatewa.Prelude.Dict.{lookup, lookup-insert}
use multi_upstream_ai_gatewa.Store.HostRateLimit.{
  SlotAnswer, SlotTable, await_slot, slot_at, slot_length, take_slot, wait_slot,
}

-- One request: its host, what its wait meets, and the error of a context that ends during its sleep.
pub record SlotRequest : Type 0 where
  pub host : String
  pub answer : SlotAnswer
  pub interrupted : Option Err

-- The client that the binaries build, for one call: WaitHost is the limiter.
abbrev pub limited_client : ℕ → SlotRequest → Client (SlotTable × ℕ)
limited_client interval r = record {
  min_interval = interval;
  wait_host = some (wait_slot r.answer (λ delay slept. (r.interrupted, delay)));
  last = [];
}

abbrev pub wait_limited :
    ℕ → SlotRequest → SlotTable → Option Err × Client (SlotTable × ℕ) × (SlotTable × ℕ)
wait_limited interval r slots =
    wait (limited_client interval r) (λ delay s. (none, s)) r.host 0 (slots, 0)

abbrev start_if : Option Err → String → ℕ → List (String × ℕ) → List (String × ℕ)
start_if none host at rest = (host, at) ∷ rest
start_if (some e) host at rest = rest

-- The times, on the database's clock, at which the requests start whose wait returns no error, in the
-- order of their statements.
unfoldable pub limited_starts : ℕ → List SlotRequest → SlotTable → List (String × ℕ)
limited_starts interval [] slots = []
limited_starts interval (r ∷ rs) slots =
    let (fault, c, after) = wait_limited interval r slots in
    start_if fault r.host (r.answer.database_now + after.1) (limited_starts interval rs after.0)

-- The rule: a request that reaches the table takes the first time from now on at which its host is
-- free, and keeps it taken for the length of a slot; it starts then, unless it would have to wait and
-- is interrupted.
unfoldable pub slots_rule : ℕ → List SlotRequest → (String → ℕ) → List (String × ℕ)
slots_rule step [] free = []
slots_rule step (r ∷ rs) free =
    let start = max (free r.host) r.answer.database_now in
    let rest = slots_rule step rs (λ h. if r.host == h then start + step else free h) in
    let idle = slots_rule step rs free in
    if is_none r.answer.no_connection && is_none r.answer.no_row
    then (if start == r.answer.database_now || is_none r.interrupted
        then (r.host, start) ∷ rest
        else rest)
    else idle

abbrev next_of : Option ℕ → ℕ
next_of none = 0
next_of (some t) = t

abbrev Kept : SlotTable → (String → ℕ) → Type 0
Kept slots free = (h : String) → next_of (lookup h slots) ≡ free h

take_slot-start :
    (step : ℕ) (host : String) (now : ℕ) (slots : SlotTable)
    → (take_slot step host now slots).0 ≡ max (next_of (lookup host slots)) now
unfolding take_slot
take_slot-start step host now slots = slot_at-next now (lookup host slots)
  where
    slot_at-next : (now : ℕ) (o : Option ℕ) → slot_at now o ≡ max (next_of o) now
    slot_at-next now none = omega arith
    slot_at-next now (some t) = refl

take_slot-Kept :
    (step : ℕ) (host : String) (now : ℕ) (slots : SlotTable) (free : String → ℕ)
    → Kept slots free
    → Kept
        (take_slot step host now slots).1
        (λ h. if host == h then max (free host) now + step else free h)
unfolding take_slot
take_slot-Kept step host now slots free k h =
    let start = take_slot-start step host now slots in
    let same = k host in
    rw (lookup-insert host h (slot_at now (lookup host slots) + step) slots)
      (elim (Bool-cases (host == h)) [
        | inl t ↦ rw t (omega (arith, start, same))
        | inr f ↦ rw f (k h)
      ])

slots_rule-after :
    (step : ℕ) (rs : List SlotRequest) (host : String) (low : ℕ) (free : String → ℕ)
    → low ≤ free host
    → All (λ (x : String × ℕ). host ≡ x.0 → low ≤ x.1) (slots_rule step rs free)
unfolding slots_rule
slots_rule-after step [] host low free k = tt
slots_rule-after step (r ∷ rs) host low free k =
    let start = max (free r.host) r.answer.database_now in
    let next : String → ℕ = λ h. if r.host == h then start + step else free h in
    let later =
      slots_rule-after step rs host low next (ground (arith, k, string_eq.beq_iff r.host host)) in
    elim (Bool-cases (is_none r.answer.no_connection && is_none r.answer.no_row)) [
      | inr f ↦ rw f (slots_rule-after step rs host low free k)
      | inl t ↦ elim (Bool-cases (start == r.answer.database_now || is_none r.interrupted)) [
        | inr g ↦ rw (t, g) later
        | inl g ↦
            rw (t, g)
              (
                λ e. (let same : free host ≡ free r.host = ap free e in omega (arith, k, same)),
                later,
              )
      ]
    ]

slots_rule-Spaced :
    (step : ℕ) (rs : List SlotRequest) (free : String → ℕ) → Spaced step (slots_rule step rs free)
unfolding slots_rule
slots_rule-Spaced step [] free = tt
slots_rule-Spaced step (r ∷ rs) free =
    let start = max (free r.host) r.answer.database_now in
    let next : String → ℕ = λ h. if r.host == h then start + step else free h in
    elim (Bool-cases (is_none r.answer.no_connection && is_none r.answer.no_row)) [
      | inr f ↦ rw f (slots_rule-Spaced step rs free)
      | inl t ↦ elim (Bool-cases (start == r.answer.database_now || is_none r.interrupted)) [
        | inr g ↦ rw (t, g) (slots_rule-Spaced step rs next)
        | inl g ↦
            rw (t, g)
              (
                slots_rule-after step rs r.host (start + step) next
                    (ground (arith, string_eq.beq_iff r.host r.host)),
                slots_rule-Spaced step rs next,
              )
      ]
    ]

-- The sleep up to the slot, where the slot is not before now; `go` is what comes after.
served :
    (a : SlotAnswer) (i : Option Err) (host : String) (allowed : ℕ) (slots : SlotTable)
    (go : SlotTable → List (String × ℕ))
    → a.database_now ≤ allowed
    → let w = await_slot a (λ delay slept. (i, delay)) (allowed, slots) 0 in
      start_if w.0 host (a.database_now + w.1.1) (go w.1.0)
      ≡ (if allowed == a.database_now || is_none i then (host, allowed) ∷ go slots else go slots)
served a i host allowed slots go l = elim (Bool-cases (allowed - a.database_now == 0)) [
  | inl z ↦
      (let same : allowed ≡ a.database_now = ground (arith, z, l) in
        let now : (allowed == a.database_now) ≡ true = ground (arith, same) in
        let at : a.database_now + 0 ≡ allowed = omega (arith, same) in rw (z, now, at) refl)
  | inr z ↦
      (let later : (allowed == a.database_now) ≡ false = ground (arith, z, l) in
        let at : a.database_now + (allowed - a.database_now) ≡ allowed = omega (arith, l) in
        rw (z, later) (elim (Option-cases i) [ inl e ↦ rw (e, at) refl | inr (x, e) ↦ rw e refl ]))
]

module _ (interval : ℕ) (positive : 0 < interval) where
  limited_starts-rule :
      (rs : List SlotRequest) (slots : SlotTable) (free : String → ℕ)
      → Kept slots free
      → limited_starts interval rs slots ≡ slots_rule (slot_length interval) rs free
  unfolding limited_starts slots_rule wait wait_slot
  limited_starts-rule [] slots free k = refl
  limited_starts-rule (r ∷ rs) slots free k =
      let z : (interval == 0) ≡ false = ground (arith, positive) in
      let step = slot_length interval in
      let now = r.answer.database_now in
      let next : String → ℕ = λ h. if r.host == h then max (free r.host) now + step else free h in
      elim (Option-cases r.answer.no_connection) [
        | inr (x, e) ↦ rw (z, e) (limited_starts-rule rs slots free k)
        | inl e ↦ elim (Option-cases r.answer.no_row) [
          | inr (x, f) ↦ rw (z, e, f) (limited_starts-rule rs slots free k)
          | inl f ↦
              (let (allowed, slots') = take_slot step r.host now slots in
                let start = take_slot-start step r.host now slots in
                let same = k r.host in
                let at : allowed ≡ max (free r.host) now = omega (arith, start, same) in
                let more =
                  limited_starts-rule rs slots' next
                    (take_slot-Kept step r.host now slots free k) in
                rw (z, e, f)
                  (served r.answer r.interrupted r.host allowed slots'
                      (λ t. limited_starts interval rs t) (omega (arith, at))
                    ∙ rw (at, more) refl))
        ]
      ]

  -- With a positive interval, and for any requests of any processes that wait through WaitHost, in the
  -- order in which their statements reach the table: a request whose wait returns no error starts at its
  -- time or when its host is next free, whichever is later, a slot of the interval in whole
  -- milliseconds being taken by each request that reaches the table, also by one whose sleep is
  -- interrupted; and so any two starts at one host are at least that far apart.
  pub limited_starts_refines :
      (rs : List SlotRequest)
      → (limited_starts interval rs [] ≡ slots_rule (slot_length interval) rs (λ h. 0))
        × Spaced (slot_length interval) (limited_starts interval rs [])
  unfolding lookup
  limited_starts_refines rs =
      let e = limited_starts-rule rs [] (λ h. 0) (λ h. refl) in
      (e, rw e (slots_rule-Spaced (slot_length interval) rs (λ h. 0)))
