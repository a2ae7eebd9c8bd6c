-- ===== src/Collector/Pacing/Refines.antt =====
-- About the pacing of Client.Wait in internal/collector/httpx.go over any sequence of requests.
use multi_upstream_ai_gatewa.Prelude.{
  All, Bool-cases, List, Option, String, ℕ, [], ap, arith, if◌then◌else◌, inl, inr, ltb, ltb→lt,
  max, nat_eq, none, not, refl, some, string_eq, ◌+◌, ◌-◌, ◌<◌, ◌==◌, ◌∙◌, ◌∷◌, ◌≡◌, ◌≤◌,
}
use multi_upstream_ai_gatewa.Collector.Errors.{Err}
use multi_upstream_ai_gatewa.Collector.Pacing.{client, is_outdated, pause, reserve, wait}
use multi_upstream_ai_gatewa.Prelude.Dict.{Dict, insert, lookup, lookup-insert, lookup-retain}

-- A sleep that is written down.
abbrev pub asleep : ℕ → ℕ → Option Err × ℕ
asleep d slept = (none, d)

-- The times at which requests start, in the order in which they come to the lock.
unfoldable pub starts : ℕ → List (String × ℕ) → Dict String ℕ → List (String × ℕ)
starts interval [] last = []
starts interval ((host, now) ∷ rs) last =
    let (fault, c, slept) = wait (client interval last) asleep host now 0 in
    (host, now + slept) ∷ starts interval rs c.last

-- The same for a memory of every host that never forgets: from when on a host is free.
unfoldable pub earliest : ℕ → List (String × ℕ) → (String → ℕ) → List (String × ℕ)
earliest interval [] free = []
earliest interval ((host, now) ∷ rs) free =
    let start = max now (free host) in
    (host, start) ∷ earliest interval rs (λ h. if host == h then start + interval else free h)

-- The clock does not go back.
abbrev pub IsMonotone : ℕ → List (String × ℕ) → Type 0
IsMonotone before [] = Unit
IsMonotone before ((host, now) ∷ rs) = (before ≤ now) × IsMonotone now rs

-- Two starts at one host are an interval apart.
abbrev pub Spaced : ℕ → List (String × ℕ) → Type 0
Spaced interval [] = Unit
Spaced interval ((host, start) ∷ xs) =
    All (λ (x : String × ℕ). host ≡ x.0 → start + interval ≤ x.1) xs × Spaced interval xs

module _ (interval : ℕ) (positive : 0 < interval) where
  wait-reserve :
      (host : String) (now : ℕ) (last : Dict String ℕ)
      → wait (client interval last) asleep host now 0 ≡ (
        none,
        client interval (reserve interval host now last).1,
        (reserve interval host now last).0,
      )
  unfolding wait
  wait-reserve host now last = ground (arith, positive)

  abbrev free_from : Option ℕ → ℕ
  free_from none = 0
  free_from (some prev) = interval + prev

  pause-max : (now : ℕ) (o : Option ℕ) → now + pause interval now o ≡ max now (free_from o)
  pause-max now none = omega arith
  pause-max now (some prev) = omega arith

  -- A host that is pruned was free already.
  pruned :
      (now : ℕ) (o : Option ℕ)
      → max now (free_from (if not (is_outdated (now - interval) o) then o else none))
        ≡ max now (free_from o)
  pruned now none = refl
  pruned now (some t) = elim (Bool-cases (ltb t (now - interval))) [
    | inl b ↦ rw b (omega (arith, ltb→lt t (now - interval) b))
    | inr b ↦ rw b refl
  ]

  abbrev Agrees : ℕ → Dict String ℕ → (String → ℕ) → Type 0
  Agrees now last free = (h : String) → max now (free_from (lookup h last)) ≡ max now (free h)

  reserve-Agrees :
      (host : String) (before now : ℕ) (last : Dict String ℕ) (free : String → ℕ)
      → before ≤ now
      → Agrees before last free
      → Agrees now
          (reserve interval host now last).1
          (λ h. if host == h then max now (free host) + interval else free h)
  unfolding reserve
  reserve-Agrees host before now last free m agrees h =
      let held = insert host (now + pause interval now (lookup host last)) last in
      ap (λ o. max now (free_from o))
        (lookup-retain (λ (h : String). not (is_outdated (now - interval) (lookup h held))) h held)
      ∙ pruned now (lookup h held)
      ∙ (elim (Bool-cases (host == h)) [
        | inl t ↦
            rw (lookup-insert, t) (omega (arith, m, pause-max now (lookup host last), agrees host))
        | inr f ↦ rw (lookup-insert, f) (omega (arith, m, agrees h))
      ])

  reserve-start :
      (host : String) (before now : ℕ) (last : Dict String ℕ) (free : String → ℕ)
      → before ≤ now
      → max before (free_from (lookup host last)) ≡ max before (free host)
      → now + (reserve interval host now last).0 ≡ max now (free host)
  unfolding reserve
  reserve-start host before now last free m agrees =
      omega (arith, m, pause-max now (lookup host last), agrees)

  starts-eq-earliest :
      (rs : List (String × ℕ)) (before : ℕ) (last : Dict String ℕ) (free : String → ℕ)
      → IsMonotone before rs
      → Agrees before last free
      → starts interval rs last ≡ earliest interval rs free
  unfolding starts earliest
  starts-eq-earliest [] before last free m agrees = refl
  starts-eq-earliest ((host, now) ∷ rs) before last free m agrees =
      let more =
        starts-eq-earliest rs now (reserve interval host now last).1
          (λ h. if host == h then max now (free host) + interval else free h) m.1
          (reserve-Agrees host before now last free m.0 agrees) in
      let start : now + (reserve interval host now last).0 ≡ max now (free host) =
        reserve-start host before now last free m.0 (agrees host) in
      rw (wait-reserve host now last, start, more) refl

  -- No start at a host is before it is free.
  earliest-after :
      (rs : List (String × ℕ)) (host : String) (low : ℕ) (free : String → ℕ)
      → low ≤ free host
      → All (λ (x : String × ℕ). host ≡ x.0 → low ≤ x.1) (earliest interval rs free)
  unfolding earliest
  earliest-after [] host low free k = tt
  earliest-after ((h, now) ∷ rs) host low free k = (
    λ e. (let same : free host ≡ free h = ap free e in omega (arith, k, same)),
    earliest-after rs host low (λ i. if h == i then max now (free h) + interval else free i)
        (ground (arith, k, string_eq.beq_iff h host)),
  )

  earliest-Spaced :
      (rs : List (String × ℕ)) (free : String → ℕ) → Spaced interval (earliest interval rs free)
  unfolding earliest
  earliest-Spaced [] free = tt
  earliest-Spaced ((host, now) ∷ rs) free =
      let next : String → ℕ = λ h. if host == h then max now (free host) + interval else free h in
      (
        earliest-after rs host (max now (free host) + interval) next
            (ground (arith, string_eq.beq_iff host host)),
        earliest-Spaced rs next,
      )

  -- For a client without WaitHost, a positive interval and requests whose sleep is not interrupted,
  -- while the clock does not go back: Wait lets every request start as if it remembered every host for
  -- ever, namely at its time or an interval after the last start at the host, whichever is later,
  -- although it forgets hosts; and so any two starts at one host are at least an interval apart.
  pub starts_refines :
      (rs : List (String × ℕ))
      → IsMonotone 0 rs
      → (starts interval rs [] ≡ earliest interval rs (λ h. 0))
        × Spaced interval (starts interval rs [])
  unfolding lookup
  starts_refines rs m =
      let e = starts-eq-earliest rs 0 [] (λ h. 0) m (λ h. refl) in
      (e, rw e (earliest-Spaced rs (λ h. 0)))
