-- ===== src/Collector/Sync.antt =====
-- Syncer of internal/collector/sync.go: SyncMany, authenticate, run and capabilityResult. `W` is
-- the state of the upstream sites and of the database, which every call may change.
pub mod Result
pub mod Items
use Prim.Native.String.{◌++◌ as ◌<>◌}
use multi_upstream_ai_gatewa.Prelude.{
  Bool, List, Option, String, ℕ, [], any, contains, false, if◌then◌else◌, inl, inr, length, ltb,
  max, nat_eq, none, not, some, string_eq, true, ◌&&◌, ◌++◌, ◌/◌, ◌==◌, ◌||◌, ◌∷◌, ◌⊎◌,
}
use multi_upstream_ai_gatewa.Collector.Contract.{
  Capability, Family, ItemStatus, SupportLevel, SyncItem, SyncResult, cap_account, cap_groups,
  cap_keys, cap_model_catalog, cap_pricing, capability_eq, degraded, family_eq, is_failure,
  status_failed, status_ok, status_partial, status_unsupported, supported, unsupported,
}
use multi_upstream_ai_gatewa.Collector.Errors.{
  Err, HttpError, account, as_http, errs, http_caused, is, is_authentication_failure, join,
  not_supported, precondition, sentinel, text, wrap,
}

-- The fields of Credential that are read here.
pub record Credential : Type 0 where
  pub account_id : ℕ
  pub channel_id : ℕ
  pub family : Family

-- What a closure given to run returns.
pub record Tally : Type 0 where
  pub rows : ℕ
  pub failed : ℕ
  pub note : String
  pub error : Option Err

abbrev pub is_none {ℓ} : {A : Type ℓ} → Option A → Bool
is_none none = true
is_none (some a) = false

-- One pass of the loop of capabilityResult: what errors.As found, and the two variables.
abbrev pub better : Err → Option HttpError → Option HttpError → Option HttpError
better e none chosen = chosen
better e (some h) chosen = if is_none chosen || is_authentication_failure e then some h else chosen

abbrev pub longer : Option HttpError → ℕ → ℕ
longer none wait = wait
longer (some h) wait = max wait h.retry_after

-- The loop: the chosen HTTPError and the longest Retry-After.
unfoldable pub choose : List Err → Option HttpError → ℕ → Option HttpError × ℕ
choose [] chosen wait = (chosen, wait)
choose (e ∷ es) chosen wait = choose es (better e (as_http e) chosen) (longer (as_http e) wait)

-- The copy of the chosen HTTPError that stands before the joined errors. `render` is Error().
unfoldable pub summary : (Err → String) → Err → Option HttpError × ℕ → Err
summary render joined (none, wait) = joined
summary render joined (some h, wait) =
    http_caused (record h { message = render joined; retry_after = wait }) joined

unfoldable pub capability_result : (Err → String) → ℕ → List Err → String → Tally
unfolding summary
capability_result render rows [] note = record {
  rows = rows;
  failed = 0;
  note = note;
  error = none;
}
capability_result render rows (e ∷ es) note = record {
  rows = rows;
  failed = if rows == 0 then 0 else length (e ∷ es);
  note = note;
  error = some (summary render (join (errs (e ∷ es))) (choose (e ∷ es) none 0));
}

-- strings.Join(parts, "；") after the empty parts are dropped.
unfoldable pub join_notes : List String → String
join_notes [] = ""
join_notes (p ∷ ps) =
    let rest = join_notes ps in
    if p == "" then rest else if rest == "" then p else p <> ("；" <> rest)

abbrev pub no_data : Err
no_data = text "该能力声明 supported，但上游未返回任何数据"

abbrev must_have_data : String
must_have_data = "supported 能力必须产生数据；请检查上游端点或修正 Capabilities() 声明"

-- The variation selector after the sign is left out.
abbrev broken_degraded : String
broken_degraded = "⚠ 声明 degraded 却返回 ErrUnsupported —— 违反 04 §3.4bis，属实现缺陷"

abbrev degraded_empty : String
degraded_empty = "该能力声明 degraded；上游未返回可用数据"

abbrev degraded_partly : String
degraded_partly = "该站型仅部分支持此能力；结果可能缺少字段"

abbrev pub is_supported : SupportLevel → Bool
is_supported supported = true
is_supported _ = false

abbrev pub is_degraded : SupportLevel → Bool
is_degraded degraded = true
is_degraded _ = false

-- The status and the error of the item, by the switch of run.
unfoldable pub settle : SupportLevel → Tally → ItemStatus × Option Err
settle support t = elim t.error [
  | some e ↦ if ltb 0 t.failed then (status_partial, some e) else (status_failed, some e)
  | none ↦
      if is_supported support && t.rows == 0
      then (status_failed, some no_data)
      else (status_ok, none)
]

-- The note of the item, by the same switch.
unfoldable pub settle_note : SupportLevel → Tally → String
settle_note support t = elim t.error [
  | some e ↦
      if not (ltb 0 t.failed) && (is not_supported e && is_degraded support)
      then broken_degraded
      else t.note
  | none ↦
      if is_supported support && t.rows == 0
      then join_notes (t.note ∷ must_have_data ∷ [])
      else if is_degraded support && t.note == ""
      then (if t.rows == 0 then degraded_empty else degraded_partly)
      else t.note
]

abbrev no_http : HttpError
no_http = record { status_code = 0; business_code = 0; retry_after = 0; message = "" }

abbrev pub fault_http : Option Err → HttpError
fault_http none = no_http
fault_http (some e) = elim (as_http e) [ none ↦ no_http | some h ↦ h ]

abbrev pub fault_is_authentication : Option Err → Bool
fault_is_authentication none = false
fault_is_authentication (some e) = is_authentication_failure e

-- The item of a capability that was run.
unfoldable pub item_of : Capability → SupportLevel → Tally → SyncItem
unfolding settle settle_note
item_of c support t = record {
  capability = c;
  support = support;
  status = (settle support t).0;
  rows = t.rows;
  failed = t.failed;
  error = (settle support t).1;
  note = settle_note support t;
  http_status = (fault_http t.error).status_code;
  business_code = (fault_http t.error).business_code;
  retry_after_ms = (fault_http t.error).retry_after / 1000000;
  authentication_failed = fault_is_authentication t.error;
}

abbrev pub unsupported_item : Capability → SyncItem
unsupported_item c = record {
  capability = c;
  support = unsupported;
  status = status_unsupported;
  rows = 0;
  failed = 0;
  error = none;
  note = "该站型不支持此能力（04 §3.4）";
  http_status = 0;
  business_code = 0;
  retry_after_ms = 0;
  authentication_failed = false;
}

-- s.only; an empty list stands for every capability.
unfoldable pub wants : List Capability → Capability → Bool
wants [] c = true
wants (o ∷ os) c = contains (o ∷ os) c

-- The order in which SyncMany runs the capabilities.
abbrev pub sync_order : List Capability
sync_order = cap_account ∷ cap_groups ∷ cap_keys ∷ cap_pricing ∷ cap_model_catalog ∷ []

-- What Adapter.Capabilities returns; the maps of both adapters have every capability.
abbrev pub CapabilityMap : Type 0
CapabilityMap = Capability → SupportLevel

unfoldable pub newapi_capabilities : CapabilityMap
newapi_capabilities c = supported

unfoldable pub sub2api_capabilities : CapabilityMap
sub2api_capabilities cap_account = supported
sub2api_capabilities cap_keys = supported
sub2api_capabilities _ = degraded

abbrev pub same_site : Credential → Credential → Bool
same_site a b = a.channel_id == b.channel_id && a.family == b.family

abbrev pub all_same_site : Credential → List Credential → Bool
all_same_site a [] = true
all_same_site a (b ∷ bs) = same_site a b && all_same_site a bs

module _ {W : Type 0} where
  -- run: the item, and the state after it.
  unfoldable pub run : SupportLevel → Capability → (W → Tally × W) → W → SyncItem × W
  unfolding item_of
  run unsupported c collect w = (unsupported_item c, w)
  run l c collect w = (item_of c l (collect w).0, (collect w).1)

  -- if s.wants(c) { s.run(...) }
  unfoldable pub run_if : Bool → SupportLevel → Capability → (W → Tally × W) → W → List SyncItem × W
  unfolding run
  run_if false l c collect w = ([], w)
  run_if true l c collect w = let (item, w₁) = run l c collect w in (item ∷ [], w₁)

  -- The five ifs of SyncMany, for the capabilities of a list.
  unfoldable pub run_wanted :
      CapabilityMap
      → List Capability
      → (Capability → W → Tally × W)
      → List Capability
      → W
      → List SyncItem × W
  unfolding run_if
  run_wanted caps only collect [] w = ([], w)
  run_wanted caps only collect (c ∷ cs) w =
      let (found, w₁) = run_if (wants only c) (caps c) c (collect c) w in
      let (rest, w₂) = run_wanted caps only collect cs w₁ in (found ++ rest, w₂)

module _ {W Session : Type 0} where
  -- The loop of authenticate: EnsureFresh, if there is one, and then the adapter's Authenticate.
  unfoldable pub authenticate :
      (Credential → W → (Credential ⊎ Err) × W)
      → (Credential → W → (Session ⊎ Err) × W)
      → List Credential
      → W
      → List (Credential × Session) × List Err × W
  authenticate fresh login [] w = ([], [], w)
  authenticate fresh login (c ∷ cs) w =
      let (found, w₁) = fresh c w in
      elim found [
        | inr e ↦
            (let (accounts, faults, w₂) = authenticate fresh login cs w₁ in
              (accounts, account c.account_id "续期" e ∷ faults, w₂))
        | inl d ↦
            (let (session, w₂) = login d w₁ in
              let (accounts, faults, w₃) = authenticate fresh login cs w₂ in
              elim session [
                | inr e ↦ (accounts, account d.account_id "鉴权" e ∷ faults, w₃)
                | inl s ↦ ((d, s) ∷ accounts, faults, w₃)
              ])
      ]

  -- SyncMany from the authentication on. `collect` stands for the closures of the five ifs; they
  -- share the accounts, whose sessions the first of them may change.
  unfoldable pub sync_authenticated :
      CapabilityMap
      → List Capability
      → (List Err
          → Capability
          → List (Credential × Session) × W
          → Tally × (List (Credential × Session) × W))
      → Credential
      → List (Credential × Session)
      → List Err
      → W
      → (SyncResult ⊎ Err) × W
  unfolding run_wanted
  sync_authenticated caps only collect c [] faults w =
      (inr (wrap "全部账号鉴权失败" (join (errs faults))), w)
  sync_authenticated caps only collect c (x ∷ xs) faults w =
      let (items, (accounts, w₁)) = run_wanted caps only (collect faults) sync_order (x ∷ xs, w) in
      (inl (record { channel_id = c.channel_id; site_family = c.family; items = items }), w₁)

  unfoldable pub sync_many :
      CapabilityMap
      → List Capability
      → (Credential → W → (Credential ⊎ Err) × W)
      → (Credential → W → (Session ⊎ Err) × W)
      → (List Err
          → Capability
          → List (Credential × Session) × W
          → Tally × (List (Credential × Session) × W))
      → List Credential
      → W
      → (SyncResult ⊎ Err) × W
  unfolding authenticate sync_authenticated
  sync_many caps only fresh login collect [] w = (inr (text "采集凭证为空"), w)
  sync_many caps only fresh login collect (c ∷ cs) w =
      if all_same_site c cs
      then (let (accounts, faults, w₁) = authenticate fresh login (c ∷ cs) w in
          sync_authenticated caps only collect c accounts faults w₁)
      else (inr (wrap "SyncMany 只接受同一渠道、同一站型的凭证" (sentinel precondition)), w)

-- HasFailure
unfoldable pub has_failure : SyncResult → Bool
has_failure r = any (λ (i : SyncItem). is_failure i.status) r.items
