-- ===== src/Collector/Closures/Counts.antt =====
-- About what the five closures of SyncMany in internal/collector/sync.go report.
use multi_upstream_ai_gatewa.Prelude.{
  Bool, Bool-cases, List, Option, String, ℕ, [], arith, false, inl, inr, length, none, refl, some,
  suc, ◌+◌, ◌∷◌, ◌≡◌, ◌≤◌,
}
use multi_upstream_ai_gatewa.Collector.Closures.{
  Accounts, Adapter, RemoteKey, Sink, closure, counted_key, save_keys, sync_accounts, sync_catalog,
  sync_groups, sync_keys, sync_pricing,
}
use multi_upstream_ai_gatewa.Collector.Contract.{
  Capability, cap_account, cap_groups, cap_keys, cap_model_catalog, cap_pricing,
}
use multi_upstream_ai_gatewa.Collector.Errors.{Err, is, key_not_registered}
use multi_upstream_ai_gatewa.Collector.Sync.{capability_result, is_none}

module _ {W : Type 0} (save : RemoteKey → W → Option Err × W) (id : ℕ) where
  count_key :
      (k : RemoteKey) (n : ℕ) (answer : Option Err) (r : ℕ × ℕ × List Err × W)
      → r.0 + length r.2 ≡ n
      → r.1 ≤ r.0
      → ((counted_key id k answer r).0 + length (counted_key id k answer r).2 ≡ suc n)
        × ((counted_key id k answer r).1 ≤ (counted_key id k answer r).0)
  count_key k n none (rows, unregistered, faults, w) h b = (omega (arith, h), omega (arith, b))
  count_key k n (some e) (rows, unregistered, faults, w) h b =
      elim (Bool-cases (is key_not_registered e)) [
        | inl t ↦ rw t (omega (arith, h), omega (arith, b))
        | inr f ↦ rw f (omega (arith, h), b)
      ]

  -- Each key of an account is counted once: as a row, or as a fault; and unregistered ones are rows.
  pub save_keys_lem :
      (ks : List RemoteKey) (w : W)
      → ((save_keys save id ks w).0 + length (save_keys save id ks w).2 ≡ length ks)
        × ((save_keys save id ks w).1 ≤ (save_keys save id ks w).0)
  unfolding save_keys
  save_keys_lem [] w = (refl, omega arith)
  save_keys_lem (k ∷ ks) w =
      let (h, b) = save_keys_lem ks (save k w).1 in
      count_key k (length ks) (save k w).0 (save_keys save id ks (save k w).1) h b

module _ {F W : Type 0} (adapter : Adapter F W) (sink : Sink F W) (list_text : List String → String)
    (decimal : ℕ → String) (is_zero : F → Bool) (render : Err → String) (e : Err)
    (es : List Err) where
  -- If an account could not be authenticated, every closure reports an error, whatever the other
  -- accounts and the database answer.
  pub closure_fault :
      (c : Capability) (accounts : Accounts) (w : W)
      → is_none
          (closure adapter sink list_text decimal is_zero render (e ∷ es) c (accounts, w)).0.error
        ≡ false
  unfolding closure sync_accounts sync_groups sync_keys sync_pricing sync_catalog capability_result
  closure_fault cap_account accounts w = refl
  closure_fault cap_keys accounts w = refl
  closure_fault cap_groups accounts w = ground arith
  closure_fault cap_pricing accounts w = ground arith
  closure_fault cap_model_catalog accounts w = ground arith
