-- ===== src/Collector/Pacing.antt =====
-- Client.Wait of internal/collector/httpx.go: the least interval between two requests to one host.
-- An interval that is not positive is 0 here; times are never before the interval.
pub mod Refines
use multi_upstream_ai_gatewa.Prelude.{
  Bool, Option, String, ℕ, false, if◌then◌else◌, ltb, nat_eq, none, not, some, string_eq, ◌+◌, ◌-◌,
  ◌==◌,
}
use multi_upstream_ai_gatewa.Collector.Errors.{Err}
use multi_upstream_ai_gatewa.Prelude.Dict.{Dict, insert, lookup, retain}

-- `W` is what a wait may change outside of the client.
pub record Client (W : Type 0) : Type 0 where
  pub min_interval : ℕ
  pub wait_host : Option (String → ℕ → W → Option Err × W)
  pub last : Dict String ℕ

-- The time to sleep after the last request to the host: MinInterval - now.Sub(prev) if positive.
abbrev pub pause : ℕ → ℕ → Option ℕ → ℕ
pause interval now none = 0
pause interval now (some prev) = interval + prev - now

-- t.Before(cutoff)
abbrev pub is_outdated : ℕ → Option ℕ → Bool
is_outdated cutoff none = false
is_outdated cutoff (some t) = ltb t cutoff

-- What Wait does under its lock: the sleep, and the map with the new place and without the hosts
-- that are of no more use.
unfoldable pub reserve : ℕ → String → ℕ → Dict String ℕ → ℕ × Dict String ℕ
reserve interval host now last =
    let sleep = pause interval now (lookup host last) in
    let held = insert host (now + sleep) last in
    (sleep, retain (λ (h : String). not (is_outdated (now - interval) (lookup h held))) held)

module _ {W : Type 0} (c : Client W) (nap : ℕ → W → Option Err × W) where
  -- `nap` sleeps, and answers the error of a context that ends before.
  abbrev wait_for :
      Option (String → ℕ → W → Option Err × W) → String → ℕ → W → Option Err × Client W × W
  wait_for (some shared) host now w =
      let (fault, w₁) = shared host c.min_interval w in (fault, c, w₁)
  wait_for none host now w =
      let (sleep, last) = reserve c.min_interval host now c.last in
      let (fault, w₁) = nap sleep w in
      let c₁ = record c { last = last } in if sleep == 0 then (none, c₁, w) else (fault, c₁, w₁)

  unfoldable pub wait : String → ℕ → W → Option Err × Client W × W
  wait host now w =
      let asked = wait_for c.wait_host host now w in
      if c.min_interval == 0 then (none, c, w) else asked

-- NewClient, with the map of the last requests. The binaries set WaitHost afterwards
-- (Store/HostRateLimit).
abbrev pub client : {W : Type 0} → ℕ → Dict String ℕ → Client W
client interval last = record { min_interval = interval; wait_host = none; last = last }
