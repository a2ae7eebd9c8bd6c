-- ===== src/Witnesses/Merge.antt =====
-- Tests of the merging and of the closures of internal/collector/sync.go. A float is a number here.
use multi_upstream_ai_gatewa.Prelude.{
  Bool, List, Option, String, ℕ, [], contains, false, if◌then◌else◌, inl, inr, length, map, nat_eq,
  none, not, refl, some, string_eq, true, ◌&&◌, ◌+◌, ◌==◌, ◌||◌, ◌∷◌, ◌≡◌, ◌≤◌,
}
use multi_upstream_ai_gatewa.Collector.Closures.{
  AccountInfo, Accounts, Adapter, RemoteKey, Sink, SiteSession, account_loop, closure, save_keys,
  sync_accounts,
}
use multi_upstream_ai_gatewa.Collector.Closures.Counts.{closure_fault, save_keys_lem}
use multi_upstream_ai_gatewa.Collector.Contract.{
  cap_account, cap_groups, capability_eq, family_eq, newapi,
}
use multi_upstream_ai_gatewa.Collector.Errors.{
  Err, account, key_not_registered, net, sentinel, text, unauthorized,
}
use multi_upstream_ai_gatewa.Collector.Merge.{
  CatalogModel, Group, ModelPrice, Pricing, SourceMeta, append_unique, collate, merge_catalog,
  merge_group, merge_groups, merge_pricing, merge_ratios, merge_source_meta, put, scan_pricing,
  sort_by, zero_meta,
}
use multi_upstream_ai_gatewa.Collector.Merge.Flags.{merge_source_meta_lem}
use multi_upstream_ai_gatewa.Collector.Merge.Union.{
  SameNames, all_models, catalog_name, merges_keep_names, price_name, ref_of,
}
use multi_upstream_ai_gatewa.Collector.Sync.{is_none}
use multi_upstream_ai_gatewa.Prelude.Dict.{insert, lookup}

abbrev zero? : ℕ → Bool
zero? n = n == 0

abbrev clean : SourceMeta
clean = record zero_meta { source = "api"; fetched_at = 5 }

abbrev rough : SourceMeta
rough = record clean { partial = true; missing_fields = "cache" ∷ [] }

abbrev vip : Group ℕ
vip = record {
  group_ref = "vip";
  rate_multiplier = 0;
  available_models = "b" ∷ "a" ∷ [];
  rate_dynamic = false;
  dynamic_candidates = [];
  meta = clean;
}

abbrev groups : List (Group ℕ)
groups =
    vip
    ∷ record vip { group_ref = "base"; rate_multiplier = 2 }
    ∷ record vip { rate_multiplier = 3; meta = rough }
    ∷ []

abbrev small : CatalogModel ℕ
small = record {
  model_name = "m";
  input_price = 1;
  output_price = 0;
  billing_unit = "";
  vendor_name = "";
  vendor_icon = "";
  endpoint_types = [];
  meta = rough;
}

abbrev models : List (CatalogModel ℕ)
models = small ∷ record small { output_price = 4 } ∷ []

abbrev price : ModelPrice ℕ
price = record {
  model_name = "m";
  input_price = 1;
  output_price = 2;
  cache_price = 0;
  billing_unit = "token";
}

abbrev prices : List (Pricing ℕ)
prices =
    record { models = price ∷ []; group_ratios = ("vip", 0) ∷ []; meta = clean }
    ∷ record {
      models = record price { cache_price = 9 } ∷ [];
      group_ratios = ("vip", 3) ∷ [];
      meta = rough;
    }
    ∷ []

-- The three groups become two, in the order of their names, and the ratio 0 gives way to 3.
two_groups : map (λ (g : Group ℕ). g.rate_multiplier) (merge_groups zero? groups) ≡ 2 ∷ 3 ∷ []
unfolding merge_groups collate merge_group lookup insert sort_by put merge_source_meta append_unique
two_groups = refl

ratio_three : (merge_pricing zero? prices).group_ratios ≡ ("vip", 3) ∷ []
unfolding merge_pricing scan_pricing merge_ratios lookup insert
ratio_three = refl

merges_keep_names_example :
    SameNames (map ref_of (merge_groups zero? groups)) (map ref_of groups)
    × SameNames (map catalog_name (merge_catalog zero? models)) (map catalog_name models)
    × SameNames
        (map price_name (merge_pricing zero? prices).models)
        (map price_name (all_models prices))
merges_keep_names_example = merges_keep_names zero? groups models prices

merge_source_meta_lem_example :
    ((merge_source_meta rough clean).degraded ≡ false)
    × ((merge_source_meta rough clean).partial ≡ true)
    × ((merge_source_meta rough clean).stale ≡ false)
    × ((f : String)
        → contains (merge_source_meta rough clean).missing_fields f
          ≡ (contains ("cache" ∷ []) f || (contains [] f && not (f == ""))))
merge_source_meta_lem_example = merge_source_meta_lem rough clean

-- A database that does not know the second key.
abbrev save_known : RemoteKey → ℕ → Option Err × ℕ
save_known k w = (if k.key_ref == "k2" then some (sentinel key_not_registered) else none, w + 1)

abbrev two_keys : List RemoteKey
two_keys =
    record { key_ref = "k1"; group_ref = "vip" } ∷ record { key_ref = "k2"; group_ref = "" } ∷ []

save_keys_lem_example :
    ((save_keys save_known 1 two_keys 0).0 + length (save_keys save_known 1 two_keys 0).2 ≡ 2)
    × ((save_keys save_known 1 two_keys 0).1 ≤ (save_keys save_known 1 two_keys 0).0)
save_keys_lem_example = save_keys_lem save_known 1 two_keys 0

abbrev info : AccountInfo ℕ
info = record { user_id = "8"; balance_usd = 3; used_usd = 1; group_ref = "vip"; meta = clean }

abbrev adapter : Adapter ℕ ℕ
adapter = record {
  fetch_account = λ s w. (inl info, w + 1);
  fetch_groups = λ s w. (inl groups, w + 1);
  fetch_keys = λ s w. (inl two_keys, w + 1);
  fetch_pricing = λ s w. (inr (net true), w + 1);
  fetch_catalog = λ s w. (inl models, w + 1);
}

abbrev sink : Sink ℕ ℕ
sink = record {
  save_account = λ channel id a w. (none, w + 1);
  save_groups = λ channel gs w. (inl (length gs), w + 1);
  save_key = λ channel id k w. save_known k w;
  save_pricing = λ channel p w. (inr (text "满"), w + 1);
  save_catalog = λ channel ms w. (inl (length ms), w + 1);
}

abbrev session : SiteSession
session = record {
  token = "t";
  user_id_header = "New-API-User";
  external_user_id = "";
  expires_at = 0;
}

abbrev logged_in : Accounts
logged_in = (record { account_id = 1; channel_id = 7; family = newapi }, session) ∷ []

abbrev refused : Err
refused = account 2 "鉴权" (sentinel unauthorized)

-- The session of the account has the id that the site answered.
learnt :
    (closure adapter sink (λ fs. "") (λ n. "") zero? (λ e. "") [] cap_account (logged_in, 0)).1.0
    ≡ (
      record { account_id = 1; channel_id = 7; family = newapi },
      record session { external_user_id = "8" },
    )
      ∷ []
unfolding closure sync_accounts account_loop
learnt = refl

closure_fault_example :
    is_none
      (closure adapter sink
        (λ fs. "")
        (λ n. "")
        zero?
        (λ e. "")
        (refused ∷ [])
        cap_groups
        (logged_in, 0)).0.error
    ≡ false
closure_fault_example =
    closure_fault adapter sink (λ fs. "") (λ n. "") zero? (λ e. "") refused [] cap_groups logged_in
      0
