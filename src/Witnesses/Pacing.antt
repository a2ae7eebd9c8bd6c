-- ===== src/Witnesses/Pacing.antt =====
-- Tests of Client.Wait in internal/collector/httpx.go.
use multi_upstream_ai_gatewa.Prelude.{
  List, Option, String, ℕ, [], arith, nat_eq, none, refl, some, string_eq, ◌∷◌, ◌≡◌,
}
use multi_upstream_ai_gatewa.Collector.Errors.{Err, text}
use multi_upstream_ai_gatewa.Collector.Pacing.{reserve, wait}
use multi_upstream_ai_gatewa.Collector.Pacing.Refines.{Spaced, earliest, starts, starts_refines}
use multi_upstream_ai_gatewa.Prelude.Dict.{insert, lookup, retain}
use multi_upstream_ai_gatewa.Store.HostRateLimit.{slot_length, take_slot, wait_slot}
use multi_upstream_ai_gatewa.Store.HostRateLimit.Slots.{
  SlotRequest, limited_starts, limited_starts_refines, slots_rule,
}

-- Two hosts, one of which comes back at once, and again after a long time.
abbrev requests : List (String × ℕ)
requests = ("a", 10) ∷ ("a", 11) ∷ ("b", 12) ∷ ("a", 500) ∷ []

starts_refines_example :
    (starts 200 requests [] ≡ earliest 200 requests (λ h. 0)) × Spaced 200 (starts 200 requests [])
starts_refines_example =
    starts_refines 200 (omega arith) requests
      (omega arith, (omega arith, (omega arith, (omega arith, tt))))

second_waits : starts 200 requests [] ≡ ("a", 10) ∷ ("a", 210) ∷ ("b", 12) ∷ ("a", 500) ∷ []
unfolding starts wait reserve lookup insert retain
second_waits = refl

abbrev slot_request : String → ℕ → Option Err → SlotRequest
slot_request host now interrupted = record {
  host = host;
  answer = record { no_connection = none; no_row = none; database_now = now };
  interrupted = interrupted;
}

-- A host is asked three times almost at once, of which the second request is interrupted in its sleep.
abbrev slot_requests : List SlotRequest
slot_requests =
    slot_request "a" 5000000 none
    ∷ slot_request "a" 5000000 (some (text "canceled"))
    ∷ slot_request "a" 5000001 none
    ∷ slot_request "b" 5000001 none
    ∷ []

limited_starts_refines_example :
    (limited_starts 2000000 slot_requests []
      ≡ slots_rule (slot_length 2000000) slot_requests (λ h. 0))
    × Spaced (slot_length 2000000) (limited_starts 2000000 slot_requests [])
limited_starts_refines_example = limited_starts_refines 2000000 (omega arith) slot_requests

third_waits :
    limited_starts 2000000 slot_requests [] ≡ ("a", 5000000) ∷ ("a", 9000000) ∷ ("b", 5000001) ∷ []
unfolding limited_starts wait wait_slot take_slot lookup insert
third_waits = refl
