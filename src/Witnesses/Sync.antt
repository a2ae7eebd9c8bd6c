-- ===== src/Witnesses/Sync.antt =====
-- Tests of internal/collector/sync.go: SyncMany and capabilityResult.
use multi_upstream_ai_gatewa.Prelude.{
  All, List, ℕ, [], if◌then◌else◌, inl, inr, length, map, nat_eq, refl, select, string_eq, ◌+◌,
  ◌==◌, ◌∷◌, ◌≡◌, ◌⊎◌,
}
use multi_upstream_ai_gatewa.Collector.Contract.{
  Capability, SyncItem, SyncResult, cap_account, cap_keys, capability_eq, family_eq, newapi,
  status_partial, sub2api, unknown,
}
use multi_upstream_ai_gatewa.Collector.Errors.{Err, account, http, sentinel, unauthorized}
use multi_upstream_ai_gatewa.Collector.Registry.{family_of_alias, find_alias}
use multi_upstream_ai_gatewa.Collector.Sync.{
  Credential, Tally, authenticate, capability_result, item_of, run, run_if, run_wanted, settle,
  sub2api_capabilities, sync_authenticated, sync_many, sync_order, wants,
}
use multi_upstream_ai_gatewa.Collector.Sync.Items.{Sound, sync_many-items}

abbrev sites : List Credential
sites =
    record { account_id = 1; channel_id = 7; family = sub2api }
    ∷ record { account_id = 2; channel_id = 7; family = sub2api }
    ∷ []

-- The state counts the calls.
abbrev keep : Credential → ℕ → (Credential ⊎ Err) × ℕ
keep c w = (inl c, w + 1)

-- The second account is refused.
abbrev log_in : Credential → ℕ → (ℕ ⊎ Err) × ℕ
log_in c w = (if c.account_id == 2 then inr (sentinel unauthorized) else inl c.account_id, w + 1)

abbrev gather :
    List Err → Capability → List (Credential × ℕ) × ℕ → Tally × (List (Credential × ℕ) × ℕ)
gather faults c (accounts, w) =
    (capability_result (λ e. "失败") (length accounts) faults "", (accounts, w + 1))

abbrev only_keys : List Capability
only_keys = cap_keys ∷ cap_account ∷ []

abbrev answer : SyncResult ⊎ Err
answer = (sync_many sub2api_capabilities only_keys keep log_in gather sites 0).0

abbrev items_of : SyncResult ⊎ Err → SyncResult
items_of (inl r) = r
items_of (inr e) = record { channel_id = 0; site_family = unknown; items = [] }

two_items :
    map (λ (i : SyncItem). i.status) (items_of answer).items ≡ status_partial ∷ status_partial ∷ []
unfolding sync_many sync_authenticated run_wanted run_if run item_of settle authenticate wants
    capability_result sub2api_capabilities
two_items = refl

sync_many-items_example :
    (map (λ (i : SyncItem). i.capability) (items_of answer).items
      ≡ select (wants only_keys) sync_order)
    × All (Sound sub2api_capabilities) (items_of answer).items
unfolding sync_many sync_authenticated authenticate
sync_many-items_example =
    sync_many-items sub2api_capabilities only_keys keep log_in gather sites 0 (items_of answer) refl

abbrev slow : Err
slow = http (record { status_code = 429; business_code = 0; retry_after = 90; message = "慢" })

abbrev refused : Err
refused = account 2 "鉴权" (sentinel unauthorized)

alias_newapi : family_of_alias (λ s. s) "rix-api" ≡ newapi
unfolding family_of_alias find_alias
alias_newapi = refl
