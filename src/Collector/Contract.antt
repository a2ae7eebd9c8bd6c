-- ===== src/Collector/Contract.antt =====
-- internal/collector/collector.go and sync.go: capabilities, support levels and item states.
use multi_upstream_ai_gatewa.Prelude.{
  Bool, Eq, List, Option, String, ℕ, [], arith, false, nat_beq, true, ◌↔◌, ◌∷◌, ◌≡◌,
}
use multi_upstream_ai_gatewa.Collector.Errors.{Err}

pub data Family : Type 0 where
  newapi sub2api unknown : Family

pub data Capability : Type 0 where
  cap_account cap_keys cap_groups cap_pricing cap_model_catalog : Capability

pub data SupportLevel : Type 0 where
  supported degraded unsupported : SupportLevel

pub data ItemStatus : Type 0 where
  status_ok status_partial status_failed status_unsupported status_skipped : ItemStatus

abbrev family_index : Family → ℕ
family_index newapi = 0
family_index sub2api = 1
family_index unknown = 2

abbrev pub family_beq : Family → Family → Bool
family_beq a b = nat_beq (family_index a) (family_index b)

pub family_beq_iff : (a b : Family) → (family_beq a b ≡ true) ↔ (a ≡ b)
family_beq_iff a b = ground arith

instance abbrev pub family_eq : Eq Family
family_eq = record { beq = family_beq; beq_iff = family_beq_iff }

abbrev capability_index : Capability → ℕ
capability_index cap_account = 0
capability_index cap_keys = 1
capability_index cap_groups = 2
capability_index cap_pricing = 3
capability_index cap_model_catalog = 4

abbrev pub capability_beq : Capability → Capability → Bool
capability_beq a b = nat_beq (capability_index a) (capability_index b)

pub capability_beq_iff : (a b : Capability) → (capability_beq a b ≡ true) ↔ (a ≡ b)
capability_beq_iff a b = ground arith

instance abbrev pub capability_eq : Eq Capability
capability_eq = record { beq = capability_beq; beq_iff = capability_beq_iff }

-- SyncItem of sync.go. `error` keeps the error whose message the item carries; the elapsed time is
-- left out.
pub record SyncItem : Type 0 where
  pub capability : Capability
  pub support : SupportLevel
  pub status : ItemStatus
  pub rows : ℕ
  pub failed : ℕ
  pub error : Option Err
  pub note : String
  pub http_status : ℕ
  pub business_code : ℕ
  pub retry_after_ms : ℕ
  pub authentication_failed : Bool

pub record SyncResult : Type 0 where
  pub channel_id : ℕ
  pub site_family : Family
  pub items : List SyncItem

-- it.Status == StatusFailed || it.Status == StatusPartial
abbrev pub is_failure : ItemStatus → Bool
is_failure status_failed = true
is_failure status_partial = true
is_failure _ = false

-- capabilityOrder of internal/collection/service.go: the order of dependence.
abbrev pub capability_order : List Capability
capability_order = cap_account ∷ cap_groups ∷ cap_keys ∷ cap_pricing ∷ cap_model_catalog ∷ []

abbrev pub is_unsupported : SupportLevel → Bool
is_unsupported unsupported = true
is_unsupported _ = false

abbrev pub is_unsupported_status : ItemStatus → Bool
is_unsupported_status status_unsupported = true
is_unsupported_status _ = false
