-- ===== src/Collector/Closures.antt =====
-- syncAccounts, syncGroups, syncKeys, syncPricing and syncCatalog of internal/collector/sync.go, over
-- the interfaces Adapter and Sink. `W` is the state of the sites and of the database. The parameters
-- are the texts of errors, lists and numbers.
pub mod Counts
use Prim.Native.String.{◌++◌ as ◌<>◌}
use multi_upstream_ai_gatewa.Prelude.{
  Bool, List, Option, String, ℕ, [], false, if◌then◌else◌, inl, inr, ltb, map, nat_eq, none, not,
  some, string_eq, true, ◌&&◌, ◌++◌, ◌+◌, ◌==◌, ◌||◌, ◌∷◌, ◌⊎◌,
}
use multi_upstream_ai_gatewa.Collector.Contract.{
  Capability, cap_account, cap_groups, cap_keys, cap_model_catalog, cap_pricing, capability_eq,
  family_eq,
}
use multi_upstream_ai_gatewa.Collector.Errors.{Err, account, is, key_not_registered}
use multi_upstream_ai_gatewa.Collector.Merge.{
  CatalogModel, Group, Pricing, SourceMeta, merge_catalog, merge_groups, merge_pricing, merged,
}
use multi_upstream_ai_gatewa.Collector.Sync.{Credential, Tally, capability_result, join_notes}

-- The type Session, without what only the adapters read. The type Account is AccountInfo.
pub record SiteSession : Type 0 where
  pub token : String
  pub user_id_header : String
  pub external_user_id : String
  pub expires_at : ℕ

pub record AccountInfo (F : Type 0) : Type 0 where
  pub user_id : String
  pub balance_usd : F
  pub used_usd : F
  pub group_ref : String
  pub meta : SourceMeta

-- The fields of Key that are read here.
pub record RemoteKey : Type 0 where
  pub key_ref : String
  pub group_ref : String

pub record PricingWritten : Type 0 where
  pub snapshots : ℕ
  pub catalog_updates : ℕ
  pub price_versions : ℕ
  pub unregistered_models : ℕ

pub record Adapter (F W : Type 0) : Type 0 where
  pub fetch_account : SiteSession → W → (AccountInfo F ⊎ Err) × W
  pub fetch_groups : SiteSession → W → (List (Group F) ⊎ Err) × W
  pub fetch_keys : SiteSession → W → (List RemoteKey ⊎ Err) × W
  pub fetch_pricing : SiteSession → W → (Pricing F ⊎ Err) × W
  pub fetch_catalog : SiteSession → W → (List (CatalogModel F) ⊎ Err) × W

pub record Sink (F W : Type 0) : Type 0 where
  pub save_account : ℕ → ℕ → AccountInfo F → W → Option Err × W
  pub save_groups : ℕ → List (Group F) → W → (ℕ ⊎ Err) × W
  pub save_key : ℕ → ℕ → RemoteKey → W → Option Err × W
  pub save_pricing : ℕ → Pricing F → W → (PricingWritten ⊎ Err) × W
  pub save_catalog : ℕ → List (CatalogModel F) → W → (ℕ ⊎ Err) × W

abbrev pub Accounts : Type 0
Accounts = List (Credential × SiteSession)

abbrev first_channel : Accounts → ℕ
first_channel [] = 0
first_channel (a ∷ as') = a.0.channel_id

abbrev failed_tally : Err → Tally
failed_tally e = record { rows = 0; failed = 0; note = ""; error = some e }

abbrev pub concat : {A : Type 0} → List (List A) → List A
concat [] = []
concat (xs ∷ xss) = xs ++ concat xss

abbrev pub some_fault : List Err → Bool
some_fault [] = false
some_fault (e ∷ es) = true

-- if len(errs) > 0 { meta.Partial = true }
abbrev pub mark_partial : List Err → SourceMeta → SourceMeta
mark_partial faults m = if some_fault faults then record m { partial = true } else m

module _ {W : Type 0} where
  -- The loop over the accounts that fetches one thing from each.
  unfoldable pub fetch_all :
      {A : Type 0}
      → String
      → (SiteSession → W → (A ⊎ Err) × W)
      → Accounts
      → W
      → List A × List Err × W
  fetch_all stage fetch [] w = ([], [], w)
  fetch_all stage fetch ((c, s) ∷ rest) w =
      let (answer, w₁) = fetch s w in
      let (found, faults, w₂) = fetch_all stage fetch rest w₁ in
      elim answer [
        | inl a ↦ (a ∷ found, faults, w₂)
        | inr e ↦ (found, account c.account_id stage e ∷ faults, w₂)
      ]

  -- The switch of syncKeys, with what the rest of the keys counts: rows, unregistered keys, faults.
  abbrev pub counted_key : ℕ → RemoteKey → Option Err → ℕ × ℕ × List Err × W → ℕ × ℕ × List Err × W
  counted_key id k none (rows, unregistered, faults, w) = (rows + 1, unregistered, faults, w)
  counted_key id k (some e) (rows, unregistered, faults, w) =
      if is key_not_registered e
      then (rows + 1, unregistered + 1, faults, w)
      else (rows, unregistered, account id ("Key " <> k.key_ref) e ∷ faults, w)

  -- The loop of syncKeys over the keys of one account.
  unfoldable pub save_keys :
      (RemoteKey → W → Option Err × W) → ℕ → List RemoteKey → W → ℕ × ℕ × List Err × W
  save_keys save id [] w = (0, 0, [], w)
  save_keys save id (k ∷ ks) w = counted_key id k (save k w).0 (save_keys save id ks (save k w).1)

module _ {F W : Type 0} (adapter : Adapter F W) (sink : Sink F W) where
  -- The loop of syncKeys over the accounts.
  unfoldable pub key_loop : Accounts → W → ℕ × ℕ × List Err × W
  key_loop [] w = (0, 0, [], w)
  key_loop ((c, s) ∷ rest) w =
      let (answer, w₁) = adapter.fetch_keys s w in
      elim answer [
        | inr e ↦
            (let (rows, unregistered, faults, w₂) = key_loop rest w₁ in
              (rows, unregistered, account c.account_id "Key" e ∷ faults, w₂))
        | inl ks ↦
            (let (n, u, es, w₂) =
                save_keys (sink.save_key c.channel_id c.account_id) c.account_id ks w₁ in
              let (rows, unregistered, faults, w₃) = key_loop rest w₂ in
              (n + rows, u + unregistered, es ++ faults, w₃))
      ]

  -- The id that the answer on the account fills in for the later requests of the session.
  abbrev pub learn : SiteSession → AccountInfo F → SiteSession
  learn s a =
      if not (a.user_id == "") && s.external_user_id == ""
      then record s { external_user_id = a.user_id }
      else s

  module _ (list_text : List String → String) (decimal : ℕ → String) where
    unfoldable pub degraded_note : SourceMeta → String
    degraded_note m = if not m.degraded then "" else elim m.missing_fields [
      | [] ↦ "该站型此项为 degraded（部分字段缺失）"
      | f ∷ fs ↦ "degraded：缺 " <> (list_text (f ∷ fs) <> "，需人工补录（FR-011）")
    ]

    -- The loop of syncAccounts: rows, notes, faults, and the accounts with their new sessions.
    unfoldable pub account_loop : Accounts → W → ℕ × List String × List Err × Accounts × W
    account_loop [] w = (0, [], [], [], w)
    account_loop ((c, s) ∷ rest) w =
        let (answer, w₁) = adapter.fetch_account s w in
        elim answer [
          | inr e ↦
              (let (rows, notes, faults, accounts, w₂) = account_loop rest w₁ in
                (rows, notes, account c.account_id "账号" e ∷ faults, (c, s) ∷ accounts, w₂))
          | inl a ↦
              (let (saved, w₂) = sink.save_account c.channel_id c.account_id a w₁ in
                let (rows, notes, faults, accounts, w₃) = account_loop rest w₂ in
                elim saved [
                  | some e ↦ (
                    rows,
                    notes,
                    account c.account_id "账号" e ∷ faults,
                    (c, learn s a) ∷ accounts,
                    w₃,
                  )
                  | none ↦ (
                    rows + 1,
                    degraded_note a.meta ∷ notes,
                    faults,
                    (c, learn s a) ∷ accounts,
                    w₃,
                  )
                ])
        ]

    module _ (is_zero : F → Bool) (render : Err → String) (base : List Err) where
      unfoldable pub sync_accounts : Accounts × W → Tally × (Accounts × W)
      sync_accounts (accounts, w) =
          let (rows, notes, faults, accounts', w₁) = account_loop accounts w in
          (capability_result render rows (base ++ faults) (join_notes notes), (accounts', w₁))

      unfoldable pub sync_groups : Accounts × W → Tally × (Accounts × W)
      sync_groups (accounts, w) =
          let (found, faults, w₁) = fetch_all "分组" adapter.fetch_groups accounts w in
          let groups =
            map (λ (g : Group F). record g { meta = mark_partial (base ++ faults) g.meta })
              (merge_groups is_zero (concat found)) in
          let (saved, w₂) = sink.save_groups (first_channel accounts) groups w₁ in
          elim saved [
            | inr e ↦ (failed_tally e, (accounts, w₂))
            | inl n ↦ (
              capability_result render n (base ++ faults)
                  (join_notes (map (λ (g : Group F). degraded_note g.meta) groups)),
              (accounts, w₂),
            )
          ]

      unfoldable pub sync_keys : Accounts × W → Tally × (Accounts × W)
      sync_keys (accounts, w) =
          let (rows, unregistered, faults, w₁) = key_loop accounts w in
          (
            capability_result render rows (base ++ faults) (
                if ltb 0 unregistered
                then decimal unregistered <> " 把 Key 上游存在但库中未登记，需补登记（计入异常项）"
                else ""),
            (accounts, w₁),
          )

      unfoldable pub written_note : PricingWritten → String → String
      written_note p note =
          if ltb 0 p.catalog_updates || ltb 0 p.price_versions || ltb 0 p.unregistered_models
          then join_notes (
              note
              ∷ ("价格快照="
                  <> (decimal p.snapshots
                      <> ("，目录价格更新="
                          <> (decimal p.catalog_updates
                              <> ("，price_versions="
                                  <> (decimal p.price_versions
                                      <> ("，未登记为可路由模型=" <> decimal p.unregistered_models)))))))
              ∷ [])
          else note

      unfoldable pub sync_pricing : Accounts × W → Tally × (Accounts × W)
      sync_pricing (accounts, w) =
          let (found, faults, w₁) = fetch_all "价格" adapter.fetch_pricing accounts w in
          let merged = merge_pricing is_zero found in
          let pricing = record merged { meta = mark_partial (base ++ faults) merged.meta } in
          let (saved, w₂) = sink.save_pricing (first_channel accounts) pricing w₁ in
          elim saved [
            | inr e ↦ (failed_tally e, (accounts, w₂))
            | inl p ↦ (
              capability_result render p.snapshots (base ++ faults)
                  (written_note p (degraded_note pricing.meta)),
              (accounts, w₂),
            )
          ]

      unfoldable pub sync_catalog : Accounts × W → Tally × (Accounts × W)
      sync_catalog (accounts, w) =
          let (found, faults, w₁) = fetch_all "目录" adapter.fetch_catalog accounts w in
          let catalog =
            map (λ (m : CatalogModel F). record m { meta = mark_partial (base ++ faults) m.meta })
              (merge_catalog is_zero (concat found)) in
          let (saved, w₂) = sink.save_catalog (first_channel accounts) catalog w₁ in
          elim saved [
            | inr e ↦ (failed_tally e, (accounts, w₂))
            | inl n ↦ (
              capability_result render n (base ++ faults)
                  (join_notes (map (λ (m : CatalogModel F). degraded_note m.meta) catalog)),
              (accounts, w₂),
            )
          ]

      -- The closures that SyncMany gives to run.
      unfoldable pub closure : Capability → Accounts × W → Tally × (Accounts × W)
      closure cap_account = sync_accounts
      closure cap_groups = sync_groups
      closure cap_keys = sync_keys
      closure cap_pricing = sync_pricing
      closure cap_model_catalog = sync_catalog
