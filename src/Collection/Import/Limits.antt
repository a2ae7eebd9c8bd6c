-- ===== src/Collection/Import/Limits.antt =====
-- About the reads and the counts of ImportKeys in internal/collection/runner.go.
use Prim.Native.Nat.{zero-le}
use multi_upstream_ai_gatewa.Prelude.{
  Bool, Bool-cases, List, Option, String, ℕ, [], arith, false, if◌then◌else◌, inl, inr, none, refl,
  some, true, ◌+◌, ◌∷◌, ◌≡◌, ◌≤◌, ◌⊎◌,
}
use multi_upstream_ai_gatewa.Collection.Import.{
  Imported, Reader, import_account, import_accounts, import_adapter, import_keys, import_listed,
  import_locked, import_renewed, import_session, join_pass, secret_limit,
}
use multi_upstream_ai_gatewa.Collection.Runner.{
  FetchedKey, import_fetched_keys, merge_key_import_result,
}
use multi_upstream_ai_gatewa.Collection.Runner.Counts.{accounted, import_fetched_keys_counts}
use multi_upstream_ai_gatewa.Collector.Errors.{Err}
use multi_upstream_ai_gatewa.Collector.Registry.{Registration, lookup_family}
use multi_upstream_ai_gatewa.Collector.Sync.{is_none}

module _ {C S W : Type 0} (r : Reader C S W) where
  -- What is left and what was read make up the budget; no key is counted twice; and without an
  -- error each key that was found is counted.
  abbrev Sound : ℕ → Imported W → Type 0
  Sound left i =
      (i.2 + i.0.secret_resolves ≡ left)
      × (accounted i.0 ≤ i.0.found)
      × (accounted i.0 ≡ (if is_none i.1 then i.0.found else accounted i.0))

  fetched-Sound :
      (c : C) (s : S) (left : ℕ) (answer : List FetchedKey ⊎ Err) (w : W)
      → Sound left (import_listed r c s left answer w)
  fetched-Sound c s left (inr e) w = (omega arith, omega arith, refl)
  fetched-Sound c s left (inl ks) w =
      let i = import_fetched_keys (r.calls c s) (r.known c) ks left w in
      let (n, a, b) = import_fetched_keys_counts (r.calls c s) (r.known c) ks left w in
      elim (Bool-cases (is_none i.1)) [
        | inl t ↦ (b, ground (arith, n, a, t), ground (arith, n, a, t))
        | inr f ↦ (b, ground (arith, n, a, f), ground (arith, f))
      ]

  session-Sound :
      (c : C) (left : ℕ) (answer : S ⊎ Err) (w : W) → Sound left (import_session r c left answer w)
  session-Sound c left (inr e) w = (omega arith, omega arith, refl)
  session-Sound c left (inl s) w =
      let (answer, w₁) = r.fetch_keys s w in fetched-Sound c s left answer w₁

  renewed-Sound :
      (left : ℕ) (answer : C ⊎ Err) (w : W) → Sound left (import_renewed r left answer w)
  renewed-Sound left (inr e) w = (omega arith, omega arith, refl)
  renewed-Sound left (inl c) w = let (answer, w₁) = r.login c w in session-Sound c left answer w₁

  import_account-Sound : (c : C) (left : ℕ) (w : W) → Sound left (import_account r c left w)
  unfolding import_account
  import_account-Sound c left w = let (answer, w₁) = r.renew c w in renewed-Sound left answer w₁

  join_pass-Sound :
      (left : ℕ) (p rest : Imported W)
      → Sound left p
      → Sound p.2 rest
      → Sound left (join_pass r p rest)
  unfolding merge_key_import_result
  join_pass-Sound left (got, some e, l, w) rest (a, b, c) h =
      (omega (arith, a), omega (arith, b), refl)
  join_pass-Sound left (got, none, l, w) (more, none, l', w') (a, b, c) (x, y, z) =
      (omega (arith, a, x), omega (arith, b, y), omega (arith, c, z))
  join_pass-Sound left (got, none, l, w) (more, some e, l', w') (a, b, c) (x, y, z) =
      (omega (arith, a, x), omega (arith, b, y), refl)

  import_accounts-Sound :
      (cs : List C) (left : ℕ) (w : W) → Sound left (import_accounts r cs left w)
  unfolding import_accounts
  import_accounts-Sound [] left w = (omega arith, omega arith, refl)
  import_accounts-Sound (c ∷ cs) left w =
      let p = import_account r c left w in
      join_pass-Sound left p (import_accounts r cs p.2 p.3) (import_account-Sound c left w)
        (import_accounts-Sound cs p.2 p.3)

  -- What ImportKeys promises, also where it returns early.
  abbrev Kept : ℕ → Imported W → Type 0
  Kept limit i =
      (i.0.secret_resolves ≤ secret_limit limit)
      × (accounted i.0 ≤ i.0.found)
      × (accounted i.0 ≡ (if is_none i.1 then i.0.found else accounted i.0))

  import_adapter-Kept :
      (cs : List C) (limit : ℕ) (g : Option Registration) (resolves : Bool) (w : W)
      → Kept limit (import_adapter r cs limit g resolves w)
  import_adapter-Kept cs limit none resolves w = (zero-le, omega arith, refl)
  import_adapter-Kept cs limit (some g) false w = (zero-le, omega arith, refl)
  import_adapter-Kept cs limit (some g) true w =
      let (a, b, c) = import_accounts-Sound cs (secret_limit limit) w in (omega (arith, a), b, c)

  import_locked-Kept :
      (cs : List C) (family : String) (limit : ℕ) (answer : Option Err) (w : W)
      → Kept limit (import_locked r cs family limit answer w)
  import_locked-Kept cs family limit (some e) w = (zero-le, omega arith, refl)
  import_locked-Kept cs family limit none w =
      import_adapter-Kept cs limit (lookup_family family) r.resolves w

  -- The reads that ImportKeys reports keep to its limit, and its counts are sound.
  pub import_keys_counts :
      (cs : List C) (family : String) (limit : ℕ) (w : W)
      → ((import_keys r cs family limit w).0.secret_resolves ≤ secret_limit limit)
        × (accounted (import_keys r cs family limit w).0
            ≤ (import_keys r cs family limit w).0.found)
        × (accounted (import_keys r cs family limit w).0 ≡ (
            if is_none (import_keys r cs family limit w).1
            then (import_keys r cs family limit w).0.found
            else accounted (import_keys r cs family limit w).0))
  unfolding import_keys
  import_keys_counts [] family limit w = (zero-le, omega arith, refl)
  import_keys_counts (c ∷ cs) family limit w =
      let (answer, w₁) = r.lock w in import_locked-Kept (c ∷ cs) family limit answer w₁
