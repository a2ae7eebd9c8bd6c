-- ===== src/Collection/Provision.antt =====
-- The creation of remote keys in internal/collection/runner.go: selectProvisionGroups,
-- countProvisionGroups, singleCreatedKey, provisionRemoteKeys and ProvisionKeys. The texts of most
-- errors are left out.
pub mod Groups
pub mod Creations
pub mod State
pub mod Purse
pub mod Budget
pub mod Steady
pub mod Calls
pub mod Outcome
use multi_upstream_ai_gatewa.Prelude.{
  Bool, List, Option, String, ℕ, [], contains, false, if◌then◌else◌, inl, inr, leb, length, map,
  nat_eq, none, not, select, some, string_eq, suc, true, ◌&&◌, ◌+◌, ◌-◌, ◌==◌, ◌||◌, ◌∷◌, ◌⊎◌,
}
use multi_upstream_ai_gatewa.Collection.Runner.{FetchedKey, created}
use multi_upstream_ai_gatewa.Collector.Errors.{Err, text, wrap}

-- The fields of Group that are read here.
pub record TargetGroup : Type 0 where
  pub group_ref : String
  pub available_models : List String

pub record ProvisionRequest : Type 0 where
  pub model : String
  pub only_without_keys : Bool
  pub dry_run : Bool
  pub max_creates : ℕ
  pub max_secret_resolves : ℕ

pub record ProvisionResult : Type 0 where
  pub found : ℕ
  pub imported : ℕ
  pub matched_groups : ℕ
  pub existing_groups : ℕ
  pub would_create : ℕ
  pub created : ℕ
  pub failed : ℕ
  pub deferred : ℕ
  pub secret_resolves : ℕ
  pub skipped_reason : String

abbrev pub empty_result : ProvisionResult
empty_result = record {
  found = 0;
  imported = 0;
  matched_groups = 0;
  existing_groups = 0;
  would_create = 0;
  created = 0;
  failed = 0;
  deferred = 0;
  secret_resolves = 0;
  skipped_reason = "";
}

-- A group with a name that offers the model.
abbrev pub eligible : String → TargetGroup → Bool
eligible model g = not (g.group_ref == "") && (model == "" || contains g.available_models model)

-- The loop of selectProvisionGroups; `seen` and `covered` are sets of references.
unfoldable pub pick_groups :
    String → List String → List String → List TargetGroup → List TargetGroup
pick_groups model covered seen [] = []
pick_groups model covered seen (g ∷ gs) =
    let take =
      eligible model g && (not (contains covered g.group_ref) && not (contains seen g.group_ref)) in
    let rest = pick_groups model covered (if take then g.group_ref ∷ seen else seen) gs in
    if take then g ∷ rest else rest

abbrev pub is_empty_list {ℓ} : {A : Type ℓ} → List A → Bool
is_empty_list [] = true
is_empty_list (x ∷ xs) = false

unfoldable pub select_provision_groups :
    List FetchedKey → List TargetGroup → String → Bool → List TargetGroup × String
select_provision_groups keys groups model only_without_keys =
    if only_without_keys && not (is_empty_list keys)
    then ([], "账号已有远端 Key")
    else (pick_groups model (map (λ (k : FetchedKey). k.group_ref) keys) [] groups, "")

-- The size of the set that countProvisionGroups fills.
unfoldable pub count_groups : String → List String → List TargetGroup → ℕ
count_groups model seen [] = 0
count_groups model seen (g ∷ gs) =
    let take = eligible model g && not (contains seen g.group_ref) in
    let rest = count_groups model (if take then g.group_ref ∷ seen else seen) gs in
    if take then suc rest else rest

abbrev pub count_provision_groups : List TargetGroup → String → ℕ
count_provision_groups groups model = count_groups model [] groups

abbrev only_one {ℓ} : {A : Type ℓ} → List A → Option A
only_one (x ∷ []) = some x
only_one _ = none

unfoldable pub single_created_key : List String → List FetchedKey → String → Option FetchedKey
single_created_key before after ref =
    only_one
      (select (λ (k : FetchedKey). not (contains before k.key_ref) && k.group_ref == ref) after)

-- The adapter, and the two callbacks of provisionRemoteKeys. `V` is the state of the site, of the
-- database and of what the callbacks share with their caller.
pub record Provisioner (V : Type 0) : Type 0 where
  pub supported : Bool
  pub fetch_keys : V → (List FetchedKey ⊎ Err) × V
  pub fetch_groups : V → (List TargetGroup ⊎ Err) × V
  pub create_remote_key : String → V → Option Err × V
  pub on_discovered : List FetchedKey → List TargetGroup → V → Option Err × V
  pub on_created : FetchedKey → V → Option Err × V
  -- request.MaxCreates, which on_discovered may lower
  pub max_creates : V → ℕ

-- Created, Failed and Deferred, the error, and the state.
abbrev pub Creation : Type 0 → Type 0
Creation V = ℕ × ℕ × ℕ × Option Err × V

module _ {V : Type 0} (p : Provisioner V) where
  -- One key: what follows onCreated, singleCreatedKey, FetchKeys and CreateRemoteKey.
  abbrev pub registered : List FetchedKey → Option Err → V → (List FetchedKey ⊎ Err) × V
  registered after none v = (inl after, v)
  registered after (some e) v = (inr (wrap "新建 Key 本地登记失败" e), v)

  abbrev pub confirmed : List FetchedKey → Option FetchedKey → V → (List FetchedKey ⊎ Err) × V
  confirmed after none v = (inr (text "创建后无法唯一确认分组的 Key"), v)
  confirmed after (some k) v = let (answer, v₁) = p.on_created k v in registered after answer v₁

  abbrev pub listed_again :
      String → List FetchedKey → List FetchedKey ⊎ Err → V → (List FetchedKey ⊎ Err) × V
  listed_again ref keys (inr e) v = (inr (wrap "创建后核对 Key 列表" e), v)
  listed_again ref keys (inl after) v =
      confirmed after (single_created_key (map (λ (k : FetchedKey). k.key_ref) keys) after ref) v

  abbrev pub asked : String → List FetchedKey → Option Err → V → (List FetchedKey ⊎ Err) × V
  asked ref keys (some e) v = (inr (wrap "创建分组的 Key" e), v)
  asked ref keys none v = let (answer, v₁) = p.fetch_keys v in listed_again ref keys answer v₁

  -- One pass of the loop: the new list of keys, or the error that ends it.
  unfoldable pub create_one : String → List FetchedKey → V → (List FetchedKey ⊎ Err) × V
  create_one ref keys v = let (answer, v₁) = p.create_remote_key ref v in asked ref keys answer v₁

  abbrev pub next_creation :
      ℕ → List FetchedKey ⊎ Err → V → (List FetchedKey → Creation V) → Creation V
  next_creation made (inr e) v rest = (made, 1, 0, some e, v)
  next_creation made (inl after) v rest = rest after

  -- The loop over the groups without a key; `limit` is maxCreates.
  unfoldable pub create_loop : ℕ → List TargetGroup → ℕ → List FetchedKey → V → Creation V
  create_loop limit [] made keys v = (made, 0, 0, none, v)
  create_loop limit (g ∷ gs) made keys v =
      let (answer, v₁) = create_one g.group_ref keys v in
      let go = next_creation made answer v₁ (λ after. create_loop limit gs (made + 1) after v₁) in
      if leb limit made then (made, 0, length (g ∷ gs), none, v) else go

  abbrev pub default_creates : ℕ
  default_creates = 20

  abbrev pub create_limit : ℕ → ℕ
  create_limit n = if n == 0 then default_creates else n

  -- What follows onDiscovered, selectProvisionGroups, FetchGroups and FetchKeys.
  abbrev pub provision_created :
      ProvisionResult → List TargetGroup → List FetchedKey → V → ProvisionResult × Option Err × V
  provision_created r lacking keys v =
      let (created, failed, deferred, fault, v₁) =
        create_loop (create_limit (p.max_creates v)) lacking 0 keys v in
      (record r { created = created; failed = failed; deferred = deferred }, fault, v₁)

  abbrev pub provision_discovered :
      ProvisionRequest
      → List FetchedKey
      → List TargetGroup
      → List TargetGroup
      → Option Err
      → V
      → ProvisionResult × Option Err × V
  provision_discovered q keys groups lacking (some e) v =
      (record empty_result { found = length keys }, some e, v)
  provision_discovered q keys groups lacking none v =
      let matched = count_provision_groups groups q.model in
      let planned = record empty_result {
        found = length keys;
        matched_groups = matched;
        existing_groups = matched - length lacking;
        would_create = length lacking;
      } in
      let made = provision_created planned lacking keys v in
      if q.dry_run then (planned, none, v) else made

  abbrev pub provision_selected :
      ProvisionRequest
      → List FetchedKey
      → List TargetGroup
      → List TargetGroup
      → String
      → V
      → ProvisionResult × Option Err × V
  provision_selected q keys groups lacking reason v =
      let (answer, v₁) = p.on_discovered keys groups v in
      if reason == ""
      then provision_discovered q keys groups lacking answer v₁
      else (record empty_result { found = length keys; skipped_reason = reason }, none, v)

  abbrev pub provision_grouped :
      ProvisionRequest
      → List FetchedKey
      → List TargetGroup ⊎ Err
      → V
      → ProvisionResult × Option Err × V
  provision_grouped q keys (inr e) v = (empty_result, some e, v)
  provision_grouped q keys (inl groups) v =
      let (lacking, reason) = select_provision_groups keys groups q.model q.only_without_keys in
      provision_selected q keys groups lacking reason v

  abbrev pub provision_listed :
      ProvisionRequest → List FetchedKey ⊎ Err → V → ProvisionResult × Option Err × V
  provision_listed q (inr e) v = (empty_result, some e, v)
  provision_listed q (inl keys) v =
      let (answer, v₁) = p.fetch_groups v in provision_grouped q keys answer v₁

  unfoldable pub provision_remote_keys : ProvisionRequest → V → ProvisionResult × Option Err × V
  provision_remote_keys q v =
      let (answer, v₁) = p.fetch_keys v in
      if p.supported
      then provision_listed q answer v₁
      else (empty_result, some (text "站型不支持远端创建 Key"), v)
