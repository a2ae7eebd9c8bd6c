-- ===== src/Collection/Import/Reads.antt =====
-- About the calls of ResolveKeySecret in ImportKeys of internal/collection/runner.go.
use multi_upstream_ai_gatewa.Prelude.{
  Bool, List, Option, String, ℕ, [], arith, false, if◌then◌else◌, inl, inr, none, some, true, ◌+◌,
  ◌∷◌, ◌≡◌, ◌≤◌, ◌⊎◌,
}
use multi_upstream_ai_gatewa.Collection.Import.{
  Imported, Reader, import_account, import_accounts, import_adapter, import_keys, import_listed,
  import_locked, import_renewed, import_session, join_pass, secret_limit,
}
use multi_upstream_ai_gatewa.Collection.Import.Limits.{import_keys_counts}
use multi_upstream_ai_gatewa.Collection.Runner.{FetchedKey, merge_key_import_result}
use multi_upstream_ai_gatewa.Collection.Runner.Counts.{accounted}
use multi_upstream_ai_gatewa.Collection.Runner.Reads.{IsSilent, Meter, import_fetched_keys_lem}
use multi_upstream_ai_gatewa.Collector.Errors.{Err}
use multi_upstream_ai_gatewa.Collector.Registry.{Registration, lookup_family}
use multi_upstream_ai_gatewa.Collector.Sync.{is_none}

-- `reads` counts the calls of ResolveKeySecret, those that fail included, and nothing else.
pub record Watched {C S W : Type 0} (r : Reader C S W) (reads : W → ℕ) : Type 0 where
  pub on_lock : IsSilent reads r.lock
  pub on_renew : (c : C) → IsSilent reads (r.renew c)
  pub on_login : (c : C) → IsSilent reads (r.login c)
  pub on_keys : (s : S) → IsSilent reads (r.fetch_keys s)
  pub on_known : (c : C) → IsSilent reads (r.known c)
  pub on_calls : (c : C) (s : S) → Meter (r.calls c s) reads

module _ {C S W : Type 0} (r : Reader C S W) (reads : W → ℕ) (watch : Watched r reads) where
  -- The calls that were sent from `w` on are those that the result reports.
  abbrev Reported : W → Imported W → Type 0
  Reported w i = reads i.3 ≡ reads w + i.0.secret_resolves

  listed-Reported :
      (c : C) (s : S) (left : ℕ) (answer : List FetchedKey ⊎ Err) (w : W)
      → Reported w (import_listed r c s left answer w)
  listed-Reported c s left (inr e) w = omega arith
  listed-Reported c s left (inl ks) w =
      let (n, a, b, sent) =
        import_fetched_keys_lem (r.calls c s) reads (watch.on_calls c s) (r.known c) ks left w
          (watch.on_known c) in
      sent

  session-Reported :
      (c : C) (left : ℕ) (answer : S ⊎ Err) (w : W) → Reported w (import_session r c left answer w)
  session-Reported c left (inr e) w = omega arith
  session-Reported c left (inl s) w =
      let (answer, w₁) = r.fetch_keys s w in
      let same = watch.on_keys s w in
      let sent = listed-Reported c s left answer w₁ in omega (arith, same, sent)

  renewed-Reported :
      (left : ℕ) (answer : C ⊎ Err) (w : W) → Reported w (import_renewed r left answer w)
  renewed-Reported left (inr e) w = omega arith
  renewed-Reported left (inl c) w =
      let (answer, w₁) = r.login c w in
      let same = watch.on_login c w in
      let sent = session-Reported c left answer w₁ in omega (arith, same, sent)

  import_account-Reported : (c : C) (left : ℕ) (w : W) → Reported w (import_account r c left w)
  unfolding import_account
  import_account-Reported c left w =
      let (answer, w₁) = r.renew c w in
      let same = watch.on_renew c w in
      let sent = renewed-Reported left answer w₁ in omega (arith, same, sent)

  join_pass-Reported :
      (w : W) (p rest : Imported W)
      → Reported w p
      → Reported p.3 rest
      → Reported w (join_pass r p rest)
  unfolding merge_key_import_result
  join_pass-Reported w (got, some e, l, w₁) rest a b = omega (arith, a)
  join_pass-Reported w (got, none, l, w₁) (more, fault, l', w₂) a b = omega (arith, a, b)

  import_accounts-Reported :
      (cs : List C) (left : ℕ) (w : W) → Reported w (import_accounts r cs left w)
  unfolding import_accounts
  import_accounts-Reported [] left w = omega arith
  import_accounts-Reported (c ∷ cs) left w =
      let p = import_account r c left w in
      join_pass-Reported w p (import_accounts r cs p.2 p.3) (import_account-Reported c left w)
        (import_accounts-Reported cs p.2 p.3)

  import_adapter-Reported :
      (cs : List C) (limit : ℕ) (g : Option Registration) (resolves : Bool) (w : W)
      → Reported w (import_adapter r cs limit g resolves w)
  import_adapter-Reported cs limit none resolves w = omega arith
  import_adapter-Reported cs limit (some g) false w = omega arith
  import_adapter-Reported cs limit (some g) true w =
      import_accounts-Reported cs (secret_limit limit) w

  import_locked-Reported :
      (cs : List C) (family : String) (limit : ℕ) (answer : Option Err) (w : W)
      → Reported w (import_locked r cs family limit answer w)
  import_locked-Reported cs family limit (some e) w = omega arith
  import_locked-Reported cs family limit none w =
      import_adapter-Reported cs limit (lookup_family family) r.resolves w

  import_keys-Reported :
      (cs : List C) (family : String) (limit : ℕ) (w : W)
      → Reported w (import_keys r cs family limit w)
  unfolding import_keys
  import_keys-Reported [] family limit w = omega arith
  import_keys-Reported (c ∷ cs) family limit w =
      let (answer, w₁) = r.lock w in
      let same = watch.on_lock w in
      let sent = import_locked-Reported (c ∷ cs) family limit answer w₁ in omega (arith, same, sent)

  -- Where the state counts the calls of ResolveKeySecret, failed ones included, ImportKeys sends as
  -- many as it reports, over all credentials and also where it returns an error, and no more than its
  -- limit, twenty if that is 0; it counts no key twice; and if it returns no error, each key that was
  -- found is counted as imported, skipped, failed or deferred.
  pub import_keys_lem :
      (cs : List C) (family : String) (limit : ℕ) (w : W)
      → (reads (import_keys r cs family limit w).3
          ≡ reads w + (import_keys r cs family limit w).0.secret_resolves)
        × ((import_keys r cs family limit w).0.secret_resolves ≤ secret_limit limit)
        × (accounted (import_keys r cs family limit w).0
            ≤ (import_keys r cs family limit w).0.found)
        × (accounted (import_keys r cs family limit w).0 ≡ (
            if is_none (import_keys r cs family limit w).1
            then (import_keys r cs family limit w).0.found
            else accounted (import_keys r cs family limit w).0))
  import_keys_lem cs family limit w =
      let (a, b, c) = import_keys_counts r cs family limit w in
      (import_keys-Reported cs family limit w, a, b, c)
