-- ===== src/Collection/Provision/Purse.antt =====
-- ProvisionKeys of internal/collection/runner.go: the two callbacks of provisionRemoteKeys, and the
-- budget that they share.
use multi_upstream_ai_gatewa.Prelude.{
  Bool, List, Option, String, ℕ, [], false, if◌then◌else◌, inl, inr, ltb, nat_eq, none, not, some,
  string_eq, true, ◌&&◌, ◌+◌, ◌==◌, ◌||◌, ◌∷◌, ◌⊎◌,
}
use multi_upstream_ai_gatewa.Collection.Import.{secret_limit}
use multi_upstream_ai_gatewa.Collection.Provision.{
  ProvisionRequest, ProvisionResult, Provisioner, TargetGroup, empty_result, provision_remote_keys,
}
use multi_upstream_ai_gatewa.Collection.Runner.{Calls, FetchedKey, import_fetched_keys}
use multi_upstream_ai_gatewa.Collector.Errors.{Err, precondition, sentinel, text, wrap}
use multi_upstream_ai_gatewa.Collector.Keys.{KeyImportResult}
use multi_upstream_ai_gatewa.Collector.Registry.{lookup_family}
use multi_upstream_ai_gatewa.Collector.Sync.{is_none}
use multi_upstream_ai_gatewa.Prelude.Dict.{Dict}

-- request.MaxCreates, remainingSecrets, imported and secretResolves, and the state.
pub record Purse (W : Type 0) : Type 0 where
  pub max_creates : ℕ
  pub left : ℕ
  pub imported : ℕ
  pub reads : ℕ
  pub after : W

-- What ProvisionKeys calls, for one channel and one account. `C` is a credential and `S` a session.
pub record Shop (C S W : Type 0) : Type 0 where
  pub has_token : C → Bool
  pub resolves : Bool
  pub supported : Bool
  pub renew : C → W → (C ⊎ Err) × W
  pub login : C → W → (S ⊎ Err) × W
  pub fetch_keys : S → W → (List FetchedKey ⊎ Err) × W
  pub fetch_groups : S → W → (List TargetGroup ⊎ Err) × W
  pub create_remote_key : S → String → W → Option Err × W
  pub save_groups : List TargetGroup → W → Option Err × W
  pub known : W → (Dict String ℕ ⊎ Err) × W
  pub calls : S → Calls W

-- A call of the adapter leaves the budget alone.
abbrev pub with_purse {ℓ} : {A : Type ℓ} {W : Type 0} → (W → A × W) → Purse W → A × Purse W
with_purse call v = let (a, w) = call v.after in (a, record v { after = w })

abbrev pub lower : ℕ → ℕ → ℕ
lower n left = if n == 0 || ltb left n then left else n

abbrev pub is_complete : KeyImportResult → Bool
is_complete got = not (ltb 0 got.failed || ltb 0 got.deferred)

abbrev pub is_one_import : KeyImportResult → Bool
is_one_import got = got.imported == 1 && is_complete got

module _ {W : Type 0} where
  -- What the callbacks do with a result of importFetchedKeys: `accept` says whether it is complete.
  abbrev pub settle_import :
      Bool → Purse W → KeyImportResult × Option Err × ℕ × W → Bool × Option Err × Purse W
  settle_import complete v (got, some e, left, w) =
      (false, some e, record v { left = left; after = w })
  settle_import complete v (got, none, left, w) =
      if complete
      then (
        true,
        none,
        record v {
          left = left;
          imported = v.imported + got.imported;
          reads = v.reads + got.secret_resolves;
          after = w;
        },
      )
      else (false, some (text "Key 同步不完整"), record v { left = left; after = w })

  -- The end of the first callback: the rest of the budget bounds the creations.
  abbrev pub cap_creates : Bool × Option Err × Purse W → Option Err × Purse W
  cap_creates (true, fault, v) =
      if v.left == 0
      then (some (text "已有 Key 已用尽本次明文读取预算，拒绝继续远端创建"), v)
      else (none, record v { max_creates = lower v.max_creates v.left })
  cap_creates (false, fault, v) = (fault, v)

module _ {C S W : Type 0} (shop : Shop C S W) where
  -- importFetchedKeys with the shared budget.
  abbrev pub import_into :
      S → (KeyImportResult → Bool) → List FetchedKey → Purse W → Bool × Option Err × Purse W
  import_into s complete ks v =
      let i = import_fetched_keys (shop.calls s) shop.known ks v.left v.after in
      settle_import (complete i.0) v i

  abbrev pub saved_groups : S → List FetchedKey → Option Err → Purse W → Option Err × Purse W
  saved_groups s ks (some e) v = (some e, v)
  saved_groups s ks none v = cap_creates (import_into s is_complete ks v)

  unfoldable pub on_discovered :
      ProvisionRequest → S → List FetchedKey → List TargetGroup → Purse W → Option Err × Purse W
  on_discovered q s ks groups v =
      let (answer, v₁) = with_purse (shop.save_groups groups) v in
      if q.dry_run then (none, v) else saved_groups s ks answer v₁

  unfoldable pub on_created : S → FetchedKey → Purse W → Option Err × Purse W
  on_created s k v = let (done, fault, v₁) = import_into s is_one_import (k ∷ []) v in (fault, v₁)

  abbrev pub provisioner : ProvisionRequest → S → Provisioner (Purse W)
  provisioner q s = record {
    supported = shop.supported;
    fetch_keys = with_purse (shop.fetch_keys s);
    fetch_groups = with_purse (shop.fetch_groups s);
    create_remote_key = λ ref. with_purse (shop.create_remote_key s ref);
    on_discovered = on_discovered q s;
    on_created = on_created s;
    max_creates = λ v. v.max_creates;
  }

  abbrev pub first_purse : ProvisionRequest → W → Purse W
  first_purse q w = record {
    max_creates = q.max_creates;
    left = secret_limit q.max_secret_resolves;
    imported = 0;
    reads = 0;
    after = w;
  }

  abbrev pub provision_session : ProvisionRequest → S ⊎ Err → W → ProvisionResult × Option Err × W
  provision_session q (inr e) w = (empty_result, some (text "会话鉴权失败"), w)
  provision_session q (inl s) w =
      let (r, fault, v) = provision_remote_keys (provisioner q s) q (first_purse q w) in
      (record r { imported = v.imported; secret_resolves = v.reads }, fault, v.after)

  abbrev pub provision_renewed : ProvisionRequest → C ⊎ Err → W → ProvisionResult × Option Err × W
  provision_renewed q (inr e) w = (empty_result, some (text "凭证续期失败"), w)
  provision_renewed q (inl c) w = let (answer, w₁) = shop.login c w in provision_session q answer w₁

  unfoldable pub provision_keys :
      ProvisionRequest → String → C → W → ProvisionResult × Option Err × W
  provision_keys q family c w =
      let (answer, w₁) = shop.renew c w in
      if not (shop.has_token c)
      then (empty_result, some (wrap "没有访问令牌" (sentinel precondition)), w)
      else if is_none (lookup_family family)
      then (empty_result, some (wrap "渠道站型无对应适配器" (sentinel precondition)), w)
      else if not shop.resolves
      then (empty_result, some (text "站型不支持自动读取 Key 明文"), w)
      else provision_renewed q answer w₁
