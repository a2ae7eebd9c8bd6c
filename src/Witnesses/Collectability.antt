-- ===== src/Witnesses/Collectability.antt =====
-- Tests of internal/admin/collectability.go.
use multi_upstream_ai_gatewa.Prelude.{
  List, String, ℕ, [], any, false, if◌then◌else◌, none, refl, some, true, ◌∷◌, ◌≡◌,
}
use multi_upstream_ai_gatewa.Admin.Collectability.{
  Holder, account_collect, account_switch, channel_collect, channel_switch, collect_auto,
  collect_manual, collect_partial, family_blocked, is_auto, tally,
}
use multi_upstream_ai_gatewa.Admin.Collectability.Verdict.{
  channel_collect_lem, collects, is_unblocked, stuck,
}
use multi_upstream_ai_gatewa.Collector.Registry.{find_family, lookup_family}

abbrev with_token : Holder
with_token = record {
  status = "active";
  cred_type = "newapi_access_token";
  cred_status = "valid";
  cookie_configured = false;
  cookie_enabled = false;
  cookie_state = "";
}

abbrev holders : List Holder
holders =
    with_token
    ∷ record with_token { cred_status = "expired" }
    ∷ record with_token { status = "disabled" }
    ∷ []

abbrev digits : ℕ → String
digits n = "n"

half_ready : (channel_collect digits "newapi" (some true) holders).mode ≡ collect_partial
unfolding channel_collect tally channel_switch account_collect account_switch family_blocked
    lookup_family find_family
half_ready = refl

channel_collect_lem_example :
    ((channel_collect digits "newapi" none holders).mode ≡ (
      if any (collects "newapi") holders
      then (if any (stuck "newapi") holders then collect_partial else collect_auto)
      else collect_manual))
    × (is_unblocked (account_collect "newapi" none with_token).blocker
        ≡ is_auto (account_collect "newapi" none with_token).mode)
    × (is_unblocked (channel_collect digits "newapi" none holders).blocker
        ≡ is_auto (channel_collect digits "newapi" none holders).mode)
channel_collect_lem_example = channel_collect_lem digits "newapi" none with_token holders
