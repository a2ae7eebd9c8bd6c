-- ===== src/Witnesses/Runner.antt =====
-- Tests of internal/collection/runner.go.
use multi_upstream_ai_gatewa.Prelude.{
  List, String, ℕ, [], if◌then◌else◌, inl, length, nat_eq, none, refl, string_eq, ◌+◌, ◌∷◌, ◌≡◌,
  ◌⊎◌,
}
use multi_upstream_ai_gatewa.Collection.Runner.{
  Calls, FetchedKey, import_fetched_keys, import_key, import_loop,
}
use multi_upstream_ai_gatewa.Collection.Runner.Counts.{accounted}
use multi_upstream_ai_gatewa.Collection.Runner.Reads.{
  IsSilent, import_fetched_keys_lem, metered, metered-Meter,
}
use multi_upstream_ai_gatewa.Collector.Errors.{Err}
use multi_upstream_ai_gatewa.Collector.Sync.{is_none}
use multi_upstream_ai_gatewa.Prelude.Dict.{Dict, insert, lookup}

-- A site that gives each secret, and a database that takes each key. The state counts the calls.
abbrev calls : Calls ℕ
calls = record {
  resolve = λ ref w. (inl "sk", w + 1);
  group_id = λ ref w. (inl none, w + 1);
  create_key = λ secret ref group w. (inl w, w + 1);
  update_key = λ id k w. (none, w + 1);
}

abbrev known : ℕ → (Dict String ℕ ⊎ Err) × ℕ
known w = (inl (("k1", 1) ∷ []), w)

abbrev shared_known : ℕ × ℕ → (Dict String ℕ ⊎ Err) × (ℕ × ℕ)
shared_known w = (inl (("k1", 1) ∷ []), w)

abbrev listed : List FetchedKey
listed =
    record { key_ref = "k1"; secret = ""; group_ref = "" }
    ∷ record { key_ref = "k2"; secret = ""; group_ref = "" }
    ∷ record { key_ref = "k3"; secret = "sk-full"; group_ref = "" }
    ∷ record { key_ref = "k4"; secret = ""; group_ref = "" }
    ∷ []

-- With a budget of one, the second secret that would have to be read is put off.
one_deferred :
    (import_fetched_keys calls known listed 1 0).0
    ≡ record { found = 4; imported = 2; skipped = 1; failed = 0; deferred = 1; secret_resolves = 1 }
unfolding import_fetched_keys import_loop import_key lookup insert
one_deferred = refl

shared_known-IsSilent : IsSilent (λ (w : ℕ × ℕ). w.1) shared_known
shared_known-IsSilent w = refl

import_fetched_keys_lem_example :
    ((import_fetched_keys (metered calls) shared_known listed 1 (0, 0)).0.found ≡ length listed)
    × (accounted (import_fetched_keys (metered calls) shared_known listed 1 (0, 0)).0 ≡ (
        if is_none (import_fetched_keys (metered calls) shared_known listed 1 (0, 0)).1
        then length listed
        else 0))
    × ((import_fetched_keys (metered calls) shared_known listed 1 (0, 0)).2
          + (import_fetched_keys (metered calls) shared_known listed 1 (0, 0)).0.secret_resolves
        ≡ 1)
    × ((import_fetched_keys (metered calls) shared_known listed 1 (0, 0)).3.1
        ≡ 0 + (import_fetched_keys (metered calls) shared_known listed 1 (0, 0)).0.secret_resolves)
import_fetched_keys_lem_example =
    import_fetched_keys_lem (metered calls) (λ (w : ℕ × ℕ). w.1) (metered-Meter calls) shared_known
      listed 1 (0, 0) shared_known-IsSilent
