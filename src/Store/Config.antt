-- ===== src/Store/Config.antt =====
-- ApplyConfig and CurrentConfigVersion of internal/store/config_write.go. A transaction is one step
-- on the rows of config_params whose scope is global, the latest one first. A value is the text that
-- `#>>'{}'` reads.
pub mod Chain
use multi_upstream_ai_gatewa.Prelude.{
  Bool, List, Option, String, ℕ, [], false, if◌then◌else◌, inl, inr, ltb, nat_eq, none, not, some,
  string_eq, true, ◌&&◌, ◌+◌, ◌==◌, ◌∷◌, ◌⊎◌,
}

pub record ConfigRow : Type 0 where
  pub param_key : String
  pub param_value : String
  pub version : ℕ
  pub prev_value : Option String
  pub is_critical : Bool
  pub confirmed_twice : Bool
  pub idempotency_key : String

abbrev pub ConfigTable : Type 0
ConfigTable = List ConfigRow

pub record ApplyResult : Type 0 where
  pub new_version : ℕ
  pub prev_value : String
  pub idempotent : Bool

-- ErrVersionConflict, ErrUnknownParam, ErrNeedsConfirm, and a failing database.
pub data ConfigError : Type 0 where
  version_conflict unknown_param needs_confirm database_error : ConfigError

-- The row with a key and an idempotency key.
unfoldable pub delivered : String → String → ConfigTable → Option ConfigRow
delivered key idem [] = none
delivered key idem (r ∷ rs) =
    if r.param_key == key && r.idempotency_key == idem then some r else delivered key idem rs

abbrev pub newer : ConfigRow → Option ConfigRow → ConfigRow
newer r none = r
newer r (some s) = if ltb r.version s.version then s else r

-- ORDER BY version DESC LIMIT 1
unfoldable pub newest_row : String → ConfigTable → Option ConfigRow
newest_row key [] = none
newest_row key (r ∷ rs) =
    let rest = newest_row key rs in if r.param_key == key then some (newer r rest) else rest

abbrev pub version_or_error : Option ConfigRow → (ℕ × String) ⊎ ConfigError
version_or_error none = inr unknown_param
version_or_error (some r) = inl (r.version, r.param_value)

unfoldable pub current_config_version : String → ConfigTable → (ℕ × String) ⊎ ConfigError
current_config_version key rows = version_or_error (newest_row key rows)

-- The arguments of ApplyConfig that are written or compared.
pub record Change : Type 0 where
  pub key : String
  pub new_value : String
  pub expected_version : ℕ
  pub critical : Bool
  pub confirmed : Bool
  pub idempotency : String

abbrev pub Applied : Type 0
Applied = (ApplyResult ⊎ ConfigError) × ConfigTable

abbrev pub row_after : Change → ConfigRow → ConfigRow
row_after c cur = record {
  param_key = c.key;
  param_value = c.new_value;
  version = cur.version + 1;
  prev_value = some cur.param_value;
  is_critical = c.critical;
  confirmed_twice = c.confirmed;
  idempotency_key = c.idempotency;
}

abbrev pub conflicts : Change → ConfigRow → Bool
conflicts c cur = not (c.expected_version == 0) && not (c.expected_version == cur.version)

abbrev pub existing_row : Change → ConfigTable → Option ConfigRow
existing_row c rows = if c.idempotency == "" then none else delivered c.key c.idempotency rows

-- What follows SELECT ... FOR UPDATE; `commits` says whether the database takes the row.
abbrev pub insert_version : Bool → Change → ConfigTable → Option ConfigRow → Applied
insert_version commits c rows none = (inr unknown_param, rows)
insert_version commits c rows (some cur) =
    if conflicts c cur
    then (inr version_conflict, rows)
    else (if commits
        then (
          inl (record {
            new_version = cur.version + 1;
            prev_value = cur.param_value;
            idempotent = false;
          }),
          row_after c cur ∷ rows,
        )
        else (inr database_error, rows))

abbrev pub unless_delivered : Bool → Change → ConfigTable → Option ConfigRow → Applied
unless_delivered commits c rows (some r) =
    (inl (record { new_version = r.version; prev_value = ""; idempotent = true }), rows)
unless_delivered commits c rows none = insert_version commits c rows (newest_row c.key rows)

unfoldable pub apply_config : Bool → Change → ConfigTable → Applied
apply_config commits c rows =
    if c.critical && not c.confirmed
    then (inr needs_confirm, rows)
    else unless_delivered commits c rows (existing_row c rows)
