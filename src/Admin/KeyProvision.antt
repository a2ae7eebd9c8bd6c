-- ===== src/Admin/KeyProvision.antt =====
-- The loop of provisionKeys in internal/admin/key_automation.go over the accounts, mergeScopeIDs,
-- filterAccountsByChannels and keyAutomationTargets. The HTTP request and reply are left out.
pub mod Batch
use multi_upstream_ai_gatewa.Prelude.{
  Bool, List, Option, String, ℕ, [], contains, false, if◌then◌else◌, ltb, nat_eq, none, not, select,
  some, string_eq, true, ◌&&◌, ◌-◌, ◌==◌, ◌||◌, ◌∷◌,
}
use multi_upstream_ai_gatewa.Admin.Collectability.Verdict.{active}
use multi_upstream_ai_gatewa.Admin.KeyQueue.Loop.{Account}
use multi_upstream_ai_gatewa.Collection.Provision.{
  ProvisionRequest, ProvisionResult, empty_result, is_empty_list,
}
use multi_upstream_ai_gatewa.Collection.Schedule.{key_eq, skip}
use multi_upstream_ai_gatewa.Collection.Service.Order.{ids}
use multi_upstream_ai_gatewa.Collector.Errors.{Err, is}
use multi_upstream_ai_gatewa.Collector.Sync.{is_none}

-- maxKeyAutomationAccounts
abbrev pub max_accounts : ℕ
max_accounts = 20

abbrev pub default_creates : ℕ
default_creates = 20

pub data ItemVerdict : Type 0 where
  made partly passed_over broken : ItemVerdict

pub record ProvisionItem : Type 0 where
  pub account_id : ℕ
  pub verdict : ItemVerdict
  pub result : ProvisionResult

-- What ProvisionKeys answers for one account and one request.
abbrev pub Answering : Type 0 → Type 0
Answering W = Account → ProvisionRequest → W → ProvisionResult × Option Err × W

pub record BatchRequest : Type 0 where
  pub model : String
  pub only_without_keys : Bool
  pub dry_run : Bool

-- The switch on the result of one account.
unfoldable pub judge : ProvisionResult → Option Err → ItemVerdict
judge r (some e) = broken
judge r none =
    if not (r.skipped_reason == "") then passed_over else if ltb 0 r.failed then partly else made

-- if err != nil || got.Failed > 0 || got.Deferred > 0
unfoldable pub stops : ProvisionResult → Option Err → Bool
stops r fault = not (is_none fault) || (ltb 0 r.failed || ltb 0 r.deferred)

abbrev pub Batch : Type 0 → Type 0
Batch W = List ProvisionItem × W

module _ {W : Type 0} (provision : Answering W) (b : BatchRequest) where
  abbrev pub request_for : ℕ → ℕ → ProvisionRequest
  request_for creates secrets = record {
    model = b.model;
    only_without_keys = b.only_without_keys;
    dry_run = b.dry_run;
    max_creates = creates;
    max_secret_resolves = secrets;
  }

  abbrev pub item_for : Account → ProvisionResult → Option Err → ProvisionItem
  item_for a r fault = record { account_id = a.id; verdict = judge r fault; result = r }

  abbrev pub disabled_item : Account → ProvisionItem
  disabled_item a = record { account_id = a.id; verdict = passed_over; result = empty_result }

  -- One pass of the loop, by its tests: whether a budget is spent, whether the account is enabled,
  -- and whether the loop ends here. `go` is the rest of the loop.
  abbrev pub batch_pass :
      Bool → Bool → Bool → Account → ProvisionResult × Option Err × W → W → Batch W → Batch W
  batch_pass true active stop a p w go = ([], w)
  batch_pass false false stop a p w (is, w') = (disabled_item a ∷ is, w')
  batch_pass false true true a (r, fault, w₁) w go = (item_for a r fault ∷ [], w₁)
  batch_pass false true false a (r, fault, w₁) w (is, w') = (item_for a r fault ∷ is, w')

  -- The loop; `creates` and `secrets` are remainingCreates and remainingSecrets.
  unfoldable pub provision_batch : List Account → ℕ → ℕ → W → Batch W
  provision_batch [] creates secrets w = ([], w)
  provision_batch (a ∷ rest) creates secrets w =
      let p = provision a (request_for creates secrets) w in
      let active = a.status == "active" in
      let spends = active && not b.dry_run in
      batch_pass (not b.dry_run && (creates == 0 || secrets == 0)) active
        (not b.dry_run && stops p.0 p.1) a p w
        (provision_batch rest (if spends then creates - p.0.created else creates)
          (if spends then secrets - p.0.secret_resolves else secrets) (if active then p.2 else w))

-- mergeScopeIDs: an id is a natural number here, and 0 stands for no id.
unfoldable pub merge_ids : List ℕ → List ℕ → List ℕ
merge_ids seen [] = []
merge_ids seen (i ∷ is) =
    let skip = i == 0 || contains seen i in
    let rest = merge_ids (if skip then seen else i ∷ seen) is in if skip then rest else i ∷ rest

unfoldable pub merge_scope_ids : ℕ → List ℕ → List ℕ
unfolding merge_ids
merge_scope_ids single many = merge_ids [] (single ∷ many)

unfoldable pub filter_accounts_by_channels : List Account → List ℕ → List Account
filter_accounts_by_channels accounts channels =
    select (λ (a : Account). contains channels a.channel_id) accounts

-- The last account with an id, as the map of keyAutomationTargets has it.
unfoldable pub account_by_id : ℕ → List Account → Option Account
account_by_id id [] = none
account_by_id id (a ∷ as') = elim (account_by_id id as') [
  | some x ↦ some x
  | none ↦ if a.id == id then some a else none
]

unfoldable pub named_accounts : List ℕ → List Account → Option (List Account)
named_accounts [] accounts = some []
named_accounts (id ∷ ids) accounts =
    let rest = named_accounts ids accounts in
    elim (account_by_id id accounts) [
      | none ↦ none
      | some a ↦ elim rest [ none ↦ none | some found ↦ some (a ∷ found) ]
    ]

-- The scope of keyAutomationTargets; `all` is the table of accounts, from which ListAccounts takes
-- one channel if it is given one.
abbrev pub in_channels : List Account → List ℕ → List Account
in_channels all [] = all
in_channels all (c ∷ cs) = filter_accounts_by_channels all (c ∷ cs)

unfoldable pub key_automation_targets : List Account → List ℕ → List ℕ → Option (List Account)
key_automation_targets all channels ids =
    if is_empty_list ids
    then some (in_channels all channels)
    else named_accounts ids (in_channels all channels)
