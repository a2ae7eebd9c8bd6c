-- ===== src/Witnesses/Config.antt =====
-- Tests of internal/admin/config_api.go and internal/store/config_write.go.
use multi_upstream_ai_gatewa.Prelude.{
  Bool, List, [], ap, arith, false, if◌then◌else◌, inl, inr, nat_eq, none, refl, some, string_eq,
  true, ◌*◌, ◌++◌, ◌==◌, ◌∷◌, ◌≡◌, ◌≤◌,
}
use multi_upstream_ai_gatewa.Admin.ConfigApply.{
  ApplyRequest, Config, Settings, Surroundings, apply_request, bad_token, change_in, diff_in,
  no_connection,
}
use multi_upstream_ai_gatewa.Admin.ConfigApply.Confirmed.{critical_is_confirmed}
use multi_upstream_ai_gatewa.Admin.ConfigApply.Retry.{critical_retry_refused, past_token}
use multi_upstream_ai_gatewa.Admin.Confirm.{TokenEntry, consume, diff_hash_of, issue, prune_locked}
use multi_upstream_ai_gatewa.Admin.Confirm.Once.{Call, issuing, pending, tokens_after}
use multi_upstream_ai_gatewa.Collector.Registry.{second}
use multi_upstream_ai_gatewa.Prelude.Dict.{delete, insert, lookup, retain}
use multi_upstream_ai_gatewa.Store.Config.{
  ApplyResult, Change, ConfigRow, ConfigTable, apply_config, delivered, newest_row, row_after,
}
use multi_upstream_ai_gatewa.Store.Config.Chain.{Chained, Effect, apply_all, apply_all-Chained}

abbrev settings : Settings
settings = record {
  hashing = record { sha256_hex = λ s. s; decimal = λ n. "1" };
  spec = λ k. if k == "p" then some true else none;
  is_valid_value = λ k v. true;
}

abbrev around : Surroundings
around = record { now = 60 * second; has_connection = true; commits = true; random_token = none }

abbrev request : ApplyRequest
request = record {
  param_key = "p";
  new_value = "on";
  changed_by = "me";
  change_reason = "why";
  confirm_token = "a";
  expected_version = 1;
  idempotency_key = "i";
}

abbrev history : List Call
history = issuing (some "a") (diff_in request) 0 ∷ []

abbrev seed : ConfigRow
seed = record {
  param_key = "p";
  param_value = "off";
  version = 1;
  prev_value = none;
  is_critical = true;
  confirmed_twice = false;
  idempotency_key = "";
}

abbrev before : Config
before = record { tokens = tokens_after settings.hashing history; rows = seed ∷ [] }

abbrev second_version : ApplyResult
second_version = record { new_version = 2; prev_value = "off"; idempotent = false }

abbrev after : Config
after = (apply_request settings around request before).1

accepted : apply_request settings around request before ≡ (inl second_version, after)
unfolding apply_request consume tokens_after issue prune_locked lookup insert delete retain
    diff_hash_of apply_config newest_row delivered
accepted = refl

critical_is_confirmed_example :
    ((e : TokenEntry) × (pending settings.hashing "a" history ≡ some e)
      × (60 * second ≤ e.expires_at)
      × (e.diff_hash ≡ diff_hash_of settings.hashing (diff_in request)))
    × Effect (change_in request true) (seed ∷ []) (inl second_version, after.rows)
critical_is_confirmed_example =
    critical_is_confirmed settings around request history (seed ∷ []) second_version after refl
      (omega arith, tt) accepted

-- The first request meets no connection, and its token is spent all the same.
abbrev cut_off : Surroundings
cut_off = record around { has_connection = false }

not_written : (apply_request settings cut_off request before).0 ≡ inr no_connection
unfolding apply_request consume tokens_after issue prune_locked lookup insert delete retain
    diff_hash_of
not_written = refl

critical_retry_refused_example :
    apply_request settings around request (apply_request settings cut_off request before).1
    ≡ (inr bad_token, (apply_request settings cut_off request before).1)
critical_retry_refused_example =
    critical_retry_refused settings cut_off around request before refl (ap past_token not_written)

-- A change, the same once more, one that expects an old version, and one that is lost.
abbrev change : Change
change = change_in request true

abbrev changes : List (Bool × Change)
changes =
    (true, change)
    ∷ (true, change)
    ∷ (true, record change { idempotency = "j" })
    ∷ (false, record change { idempotency = "k"; expected_version = 2 })
    ∷ []

one_row_more : apply_all changes (seed ∷ []) ≡ row_after change seed ∷ seed ∷ []
unfolding apply_all apply_config newest_row delivered
one_row_more = refl

seed-Chained : Chained (seed ∷ [])
unfolding newest_row delivered
seed-Chained = (tt, refl, tt)

apply_all-Chained_example :
    Chained (apply_all changes (seed ∷ []))
    × ((added : ConfigTable) × (apply_all changes (seed ∷ []) ≡ added ++ (seed ∷ [])))
apply_all-Chained_example = apply_all-Chained changes (seed ∷ []) seed-Chained
