-- ===== src/Collector/Registry.antt =====
-- internal/collector/registry.go, register_newapi.go and register_sub2api.go: the table of the kinds
-- of site. Probing, the expiry of a token and the adapter's constructor are left out.
use Prim.Native.String.{◌++◌ as ◌<>◌}
use multi_upstream_ai_gatewa.Prelude.{
  Bool, Bool-cases, List, Option, String, ℕ, [], contains, false, if◌then◌else◌, inl, inr, nat_eq,
  none, not, refl, some, string_eq, true, ◌&&◌, ◌*◌, ◌==◌, ◌∷◌, ◌≡◌, ◌⊎◌,
}
use multi_upstream_ai_gatewa.Collector.Contract.{
  Family, capability_eq, family_eq, newapi, sub2api, unknown,
}
use multi_upstream_ai_gatewa.Collector.Errors.{Err, text}

pub record Registration : Type 0 where
  pub family : Family
  pub display_name : String
  pub aliases : List String
  pub cred_type : String
  pub requires_uid : Bool
  pub cred_note : String
  pub refresh_lead : ℕ

abbrev pub second : ℕ
second = 1000000000

abbrev pub reg_newapi : Registration
reg_newapi = record {
  family = newapi;
  display_name = "NewAPI 系";
  aliases = "new-api" ∷ "newapi" ∷ "rix-api" ∷ "anyrouter" ∷ [];
  cred_type = "newapi_access_token";
  requires_uid = true;
  cred_note = "只带 Authorization 必然 401（04 §3.1）";
  refresh_lead = 0;
}

abbrev pub reg_sub2api : Registration
reg_sub2api = record {
  family = sub2api;
  display_name = "Sub2API 系";
  aliases = "sub2api" ∷ [];
  cred_type = "sub2api_jwt";
  requires_uid = false;
  cred_note = "access_token 是 JWT（带 exp 声明），续期走 /api/v1/auth/refresh（04 §5.2）";
  refresh_lead = 120 * second;
}

abbrev pub registrations : List Registration
registrations = reg_newapi ∷ reg_sub2api ∷ []

-- A Family is a string in the source.
abbrev pub family_text : Family → String
family_text newapi = "newapi"
family_text sub2api = "sub2api"
family_text unknown = "unknown"

unfoldable pub find_family : String → List Registration → Option Registration
find_family f [] = none
find_family f (r ∷ rs) = if family_text r.family == f then some r else find_family f rs

-- Lookup, at the text of a family.
unfoldable pub lookup_family : String → Option Registration
unfolding find_family
lookup_family f = find_family f registrations

unfoldable pub find_alias : String → List Registration → Family
find_alias s [] = unknown
find_alias s (r ∷ rs) = if contains r.aliases s then r.family else find_alias s rs

-- FamilyOfAlias. `normal` is strings.ToLower of strings.TrimSpace.
unfoldable pub family_of_alias : (String → String) → String → Family
unfolding find_alias
family_of_alias normal declared = find_alias (normal declared) registrations

unfoldable pub cred_type_for : Registration → Bool → Bool → String ⊎ Err
cred_type_for r has_token has_uid =
    if has_token
    then (if r.requires_uid && not has_uid
        then inr (text (r.display_name <> (" 需要 external_user_id（用户 ID 头的值）—— " <> r.cred_note)))
        else inl r.cred_type)
    else inr (
        text (
          r.display_name
          <> (" 需要 "
              <> ((if r.requires_uid then "access_token 与 external_user_id" else "access_token")
                  <> (" —— " <> r.cred_note)))))

-- FamilyOfAlias answers `unknown`, or the family of a registration that lists the alias and that
-- Lookup finds under that family's name.
pub family_of_alias_registered :
    (normal : String → String) (declared : String)
    → (family_of_alias normal declared ≡ unknown)
      ⊎ ((r : Registration) × (lookup_family (family_text (family_of_alias normal declared))
            ≡ some r)
          × (contains r.aliases (normal declared) ≡ true))
unfolding family_of_alias find_alias lookup_family find_family
family_of_alias_registered normal declared =
    elim (Bool-cases (contains reg_newapi.aliases (normal declared))) [
      | inl b ↦ inr (reg_newapi, rw b refl, b)
      | inr b ↦ elim (Bool-cases (contains reg_sub2api.aliases (normal declared))) [
        | inl d ↦ inr (reg_sub2api, rw (b, d) refl, d)
        | inr d ↦ inl (rw (b, d) refl)
      ]
    ]

-- Lookup finds nothing for `unknown`.
pub lookup_unknown : lookup_family (family_text unknown) ≡ none
unfolding lookup_family find_family
lookup_unknown = refl
