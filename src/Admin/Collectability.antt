-- ===== src/Admin/Collectability.antt =====
-- internal/admin/collectability.go: whether a channel or an account can be collected without a
-- person. `decimal` is the text of a number.
pub mod Verdict
use Prim.Native.String.{◌++◌ as ◌<>◌}
use multi_upstream_ai_gatewa.Prelude.{
  Bool, List, Option, String, ℕ, [], false, if◌then◌else◌, length, ltb, nat_eq, none, not, some,
  string_eq, true, ◌&&◌, ◌+◌, ◌==◌, ◌||◌, ◌∷◌,
}
use multi_upstream_ai_gatewa.Admin.KeyQueue.Loop.{verdict}
use multi_upstream_ai_gatewa.Collector.Contract.{capability_eq, family_eq, unknown}
use multi_upstream_ai_gatewa.Collector.Registry.{family_text, lookup_family}
use multi_upstream_ai_gatewa.Prelude.Dict.{Dict, lookup}

pub data Mode : Type 0 where
  collect_auto collect_partial collect_manual : Mode

-- `unblocked` is the empty string.
pub data Blocker : Type 0 where
  unblocked family_unknown no_account no_credential credential_invalid account_off : Blocker

-- The fields of store.Account that are read here.
pub record Holder : Type 0 where
  pub status : String
  pub cred_type : String
  pub cred_status : String
  pub cookie_configured : Bool
  pub cookie_enabled : Bool
  pub cookie_state : String

pub record Collect : Type 0 where
  pub mode : Mode
  pub blocker : Blocker
  pub reason : String
  pub ready : ℕ
  pub total : ℕ
  pub no_shield : Option Bool

unfoldable pub shield_note : Option Bool → String
shield_note none = "；站点还没探测过（04 §6 建议接入前确认一次）"
shield_note (some false) = "；站点声明开着人机验证（turnstile）—— 实测那一位管的是网页登录，不影响用访问令牌采集，故不据此判为需人工"
shield_note (some true) = ""

-- The reason for which the family blocks; `none` is the empty string.
unfoldable pub family_blocked : String → Option String
family_blocked family =
    if family == "" || family == family_text unknown
    then some "站型未识别，没有对应适配器；先重新探测，或按 04 §7 接一个专属适配器（整站 JS 盾的站点也落在这里：它连 /api/status 都不回 JSON）"
    else elim (lookup_family family) [
      | none ↦ some ("站型 " <> (family <> " 在注册表里没有对应适配器，采集必然失败（04 §7）"))
      | some r ↦ none
    ]

abbrev pub verdict_of : Option Bool → Mode → Blocker → String → Collect
verdict_of shield mode blocker reason = record {
  mode = mode;
  blocker = blocker;
  reason = reason;
  ready = 0;
  total = 0;
  no_shield = shield;
}

-- What is returned: the early return for a family that blocks, or the answer of the switch with
-- the note on the shield.
abbrev pub judged : Option Bool → Option String → Mode × Blocker × String → Collect
judged shield (some reason) verdict = verdict_of shield collect_manual family_unknown reason
judged shield none (mode, blocker, reason) =
    verdict_of shield mode blocker (reason <> shield_note shield)

-- The switch of accountCollect.
unfoldable pub account_switch : String → Holder → Mode × Blocker × String
account_switch family a =
    if not (a.status == "active")
    then (collect_manual, account_off, "账号已停用，采集会跳过它")
    else if not (a.cred_type == "") && a.cred_status == "valid"
    then (collect_auto, unblocked, "站型已识别、令牌有效 —— 可全自动采集")
    else if family == "newapi" && (a.cookie_configured && a.cookie_enabled)
    then (if a.cookie_state == "ready"
        then (collect_auto, unblocked, "Cookie 已验证，可自动读取")
        else if a.cookie_state == "expired"
        then (collect_manual, credential_invalid, "Cookie 已失效，请在原站登录后重新导入 Cookie")
        else if a.cookie_state == "needs_action"
        then (collect_manual, credential_invalid, "Cookie 需要人工处理，请检查原站会话和登记的上游用户 ID")
        else (collect_auto, unblocked, "Cookie 尚未验证；下次采集会先确认身份，也可手动验证"))
    else if a.cred_type == ""
    then (collect_manual, no_credential, "没有登记采集凭证，登记后即可自动采集（04 §5 按站型给不同字段）")
    else (collect_manual, credential_invalid, "采集凭证状态是 " <> (a.cred_status <> "，需要重新登记（04 §5）"))

unfoldable pub account_collect : String → Option Bool → Holder → Collect
account_collect family shield a = judged shield (family_blocked family) (account_switch family a)

abbrev pub is_auto : Mode → Bool
is_auto collect_auto = true
is_auto _ = false

-- The loop of channelCollect: Ready and Total.
unfoldable pub tally : String → List Holder → ℕ × ℕ
tally family [] = (0, 0)
tally family (a ∷ as') =
    let (ready, total) = tally family as' in
    if not (a.status == "active")
    then (ready, total)
    else (if is_auto (account_collect family none a).mode then ready + 1 else ready, total + 1)

-- The switch of channelCollect.
unfoldable pub channel_switch : (ℕ → String) → ℕ → ℕ × ℕ → Mode × Blocker × String
channel_switch decimal accounts (ready, total) =
    if total == 0
    then (if accounts == 0
        then (collect_manual, no_account, "还没有登记账号 —— 没有账号就没有凭证，也没有采集对象")
        else (collect_manual, account_off, decimal accounts <> " 个账号全部已停用，采集会跳过这个渠道"))
    else if ready == 0
    then (collect_manual, no_credential, decimal total <> " 个启用账号都没有可用的采集凭证，登记后即可自动采集（04 §5）")
    else if ltb ready total
    then (
      collect_partial,
      no_credential,
      decimal ready <> ("/" <> (decimal total <> " 个启用账号可自动采集，其余缺凭证或凭证失效")),
    )
    else (collect_auto, unblocked, decimal total <> " 个启用账号全部可自动采集")

-- Ready and Total, which the early return leaves at 0.
abbrev pub counted : Option String → ℕ × ℕ → Collect → Collect
counted (some reason) counts c = c
counted none (ready, total) c = record c { ready = ready; total = total }

unfoldable pub channel_collect : (ℕ → String) → String → Option Bool → List Holder → Collect
channel_collect decimal family shield accounts =
    let counts = tally family accounts in
    let verdict = channel_switch decimal (length accounts) counts in
    counted (family_blocked family) counts (judged shield (family_blocked family) verdict)

-- shieldOf: an entry that is missing stands for a site that was never probed.
unfoldable pub shield_of : Dict ℕ Bool → ℕ → Option Bool
shield_of shields channel = lookup channel shields
