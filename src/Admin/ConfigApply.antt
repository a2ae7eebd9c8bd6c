-- ===== src/Admin/ConfigApply.antt =====
-- The handlers previewConfig and applyConfig of internal/admin/config_api.go, over the tokens of
-- confirm.go and ApplyConfig of internal/store/config_write.go. Reading the request and writing the
-- reply are left out; config.Spec and validateValue are arguments.
pub mod Confirmed
pub mod Retry
use multi_upstream_ai_gatewa.Prelude.{
  Bool, Option, String, ℕ, false, if◌then◌else◌, inl, inr, nat_eq, none, some, string_eq, true,
  ◌&&◌, ◌==◌, ◌||◌, ◌⊎◌,
}
use multi_upstream_ai_gatewa.Admin.Confirm.{Diff, Hashing, TokenStore, consume, issue}
use multi_upstream_ai_gatewa.Admin.KeyQueue.{done}
use multi_upstream_ai_gatewa.Store.Config.{
  Applied, ApplyResult, Change, ConfigError, ConfigTable, apply_config, current_config_version,
}

-- `spec` says whether a parameter is critical, if there is one; a connection may be missing, and a
-- commit may fail.
pub record Settings : Type 0 where
  pub hashing : Hashing
  pub spec : String → Option Bool
  pub is_valid_value : String → String → Bool

pub record ApplyRequest : Type 0 where
  pub param_key : String
  pub new_value : String
  pub changed_by : String
  pub change_reason : String
  pub confirm_token : String
  pub expected_version : ℕ
  pub idempotency_key : String

pub data ApplyFault : Type 0 where
  unknown_key missing_reason invalid_value missing_token bad_token no_connection : ApplyFault
  store_fault : ConfigError → ApplyFault

-- The tokens and the rows, and what the surroundings answer to one request.
pub record Config : Type 0 where
  pub tokens : TokenStore
  pub rows : ConfigTable

pub record Surroundings : Type 0 where
  pub now : ℕ
  pub has_connection : Bool
  pub commits : Bool
  pub random_token : Option String

abbrev pub diff_in : ApplyRequest → Diff
diff_in q = record {
  param_key = q.param_key;
  new_value = q.new_value;
  expected_version = q.expected_version;
}

abbrev pub change_in : ApplyRequest → Bool → Change
change_in q critical = record {
  key = q.param_key;
  new_value = q.new_value;
  expected_version = q.expected_version;
  critical = critical;
  confirmed = critical;
  idempotency = q.idempotency_key;
}

module _ (settings : Settings) (around : Surroundings) where
  abbrev pub answered : Applied → TokenStore → (ApplyResult ⊎ ApplyFault) × Config
  answered (inr e, rows) tokens = (inr (store_fault e), record { tokens = tokens; rows = rows })
  answered (inl a, rows) tokens = (inl a, record { tokens = tokens; rows = rows })

  abbrev pub applied_with :
      ApplyRequest → Bool → TokenStore → ConfigTable → (ApplyResult ⊎ ApplyFault) × Config
  applied_with q critical tokens rows =
      let done = answered (apply_config around.commits (change_in q critical) rows) tokens in
      if around.has_connection
      then done
      else (inr no_connection, record { tokens = tokens; rows = rows })

  abbrev pub confirmed_with :
      ApplyRequest → Bool × TokenStore → ConfigTable → (ApplyResult ⊎ ApplyFault) × Config
  confirmed_with q (true, tokens) rows = applied_with q true tokens rows
  confirmed_with q (false, tokens) rows = (inr bad_token, record { tokens = tokens; rows = rows })

  abbrev pub checked : ApplyRequest → Bool → Config → (ApplyResult ⊎ ApplyFault) × Config
  checked q false s = applied_with q false s.tokens s.rows
  checked q true s =
      let used = consume settings.hashing q.confirm_token (diff_in q) around.now s.tokens in
      if q.confirm_token == "" then (inr missing_token, s) else confirmed_with q used s.rows

  abbrev pub specified : ApplyRequest → Option Bool → Config → (ApplyResult ⊎ ApplyFault) × Config
  specified q none s = (inr unknown_key, s)
  specified q (some critical) s =
      let done = checked q critical s in
      if q.changed_by == "" || q.change_reason == ""
      then (inr missing_reason, s)
      else (if settings.is_valid_value q.param_key q.new_value
          then done
          else (inr invalid_value, s))

  -- applyConfig
  unfoldable pub apply_request : ApplyRequest → Config → (ApplyResult ⊎ ApplyFault) × Config
  apply_request q s = specified q (settings.spec q.param_key) s

  -- The token that previewConfig issues for a critical parameter, bound to the current version.
  abbrev pub previewed : ApplyRequest → (ℕ × String) ⊎ ConfigError → Config → Option String × Config
  previewed q (inr e) s = (none, s)
  previewed q (inl (version, val)) s =
      let d : Diff = record (diff_in q) { expected_version = version } in
      let (token, tokens) = issue settings.hashing around.random_token d around.now s.tokens in
      (token, record s { tokens = tokens })

  abbrev pub preview_critical : ApplyRequest → Option Bool → Config → Option String × Config
  preview_critical q none s = (none, s)
  preview_critical q (some false) s = (none, s)
  preview_critical q (some true) s =
      let done = previewed q (current_config_version q.param_key s.rows) s in
      if q.changed_by == "" || q.change_reason == ""
      then (none, s)
      else (if settings.is_valid_value q.param_key q.new_value && around.has_connection
          then done
          else (none, s))

  -- previewConfig, as far as it changes the tokens
  unfoldable pub preview_request : ApplyRequest → Config → Option String × Config
  preview_request q s = preview_critical q (settings.spec q.param_key) s
