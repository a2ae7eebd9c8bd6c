-- ===== src/Collection/Provision/Budget.antt =====
-- About the budget of ProvisionKeys in internal/collection/runner.go.
use multi_upstream_ai_gatewa.Prelude.{
  Bool, Bool-cases, List, Option, ℕ, [], arith, false, inl, inr, min, nat_eq, none, refl, some,
  string_eq, true, ◌+◌, ◌<◌, ◌==◌, ◌∷◌, ◌≡◌, ◌≤◌,
}
use multi_upstream_ai_gatewa.Collection.Provision.{ProvisionRequest, TargetGroup}
use multi_upstream_ai_gatewa.Collection.Provision.Creations.{Capped, Keeps}
use multi_upstream_ai_gatewa.Collection.Provision.Purse.{
  Purse, Shop, cap_creates, import_into, is_complete, is_one_import, on_created, on_discovered,
  provisioner, saved_groups, settle_import,
}
use multi_upstream_ai_gatewa.Collection.Runner.{FetchedKey, import_fetched_keys}
use multi_upstream_ai_gatewa.Collection.Runner.Counts.{import_fetched_keys_counts}
use multi_upstream_ai_gatewa.Collector.Errors.{Err}
use multi_upstream_ai_gatewa.Collector.Keys.{KeyImportResult}
use multi_upstream_ai_gatewa.Collector.Sync.{is_none}

refused-none : {A : Type 0} {a : A} → Path (Option A) (some a) none → ⊥
refused-none h = cc h

module _ {C S W : Type 0} (shop : Shop C S W) (q : ProvisionRequest) (s : S) (limit most : ℕ) where
  -- What was read and what is left stay within the limit, and MaxCreates is positive and kept.
  abbrev pub Thrifty : Purse W → Type 0
  Thrifty v = (v.reads + v.left ≤ limit) × (0 < v.max_creates) × (v.max_creates ≤ most)

  settle_import-Thrifty :
      (complete : Bool) (v : Purse W) (i : KeyImportResult × Option Err × ℕ × W)
      → Thrifty v
      → i.2 + i.0.secret_resolves ≡ v.left
      → Thrifty (settle_import complete v i).2
  settle_import-Thrifty complete v (got, some e, left, w) (a, b, c) h = (omega (arith, a, h), b, c)
  settle_import-Thrifty true v (got, none, left, w) (a, b, c) h = (omega (arith, a, h), b, c)
  settle_import-Thrifty false v (got, none, left, w) (a, b, c) h = (omega (arith, a, h), b, c)

  import_into-Thrifty :
      (complete : KeyImportResult → Bool) (ks : List FetchedKey) (v : Purse W)
      → Thrifty v
      → Thrifty (import_into shop s complete ks v).2
  import_into-Thrifty complete ks v h =
      let i = import_fetched_keys (shop.calls s) shop.known ks v.left v.after in
      let (n, a, b) = import_fetched_keys_counts (shop.calls s) shop.known ks v.left v.after in
      settle_import-Thrifty (complete i.0) v i h b

  cap_creates-Thrifty : (i : Bool × Option Err × Purse W) → Thrifty i.2 → Thrifty (cap_creates i).1
  cap_creates-Thrifty (true, fault, v) (a, b, c) = elim (Bool-cases (v.left == 0)) [
    | inl t ↦ rw t (a, b, c)
    | inr f ↦ rw f (a, ground (arith, b, f), ground (arith, c, b))
  ]
  cap_creates-Thrifty (false, fault, v) h = h

  -- The first callback succeeds only with as many creations as there are reads left.
  abbrev Capping : Purse W → Type 0
  Capping v = (0 < v.max_creates) × (v.max_creates ≤ min most limit)

  cap_creates-Capping :
      (i : Bool × Option Err × Purse W)
      → Thrifty i.2
      → (i.0 ≡ false → is_none i.1 ≡ false)
      → (cap_creates i).0 ≡ none
      → Capping (cap_creates i).1
  cap_creates-Capping (true, fault, v) (a, b, c) h n = elim (Bool-cases (v.left == 0)) [
    | inl t ↦ absurd (refused-none (rw t at n))
    | inr f ↦ rw f (ground (arith, b, f), ground (arith, a, b, c, f))
  ]
  cap_creates-Capping (false, fault, v) (a, b, c) h n = cc (h refl)

  failing-fault :
      (complete : Bool) (v : Purse W) (i : KeyImportResult × Option Err × ℕ × W)
      → (settle_import complete v i).0 ≡ false
      → is_none (settle_import complete v i).1 ≡ false
  failing-fault complete v (got, some e, left, w) h = refl
  failing-fault true v (got, none, left, w) h = cc h
  failing-fault false v (got, none, left, w) h = refl

  saved-Thrifty :
      (ks : List FetchedKey) (answer : Option Err) (v : Purse W)
      → Thrifty v
      → Thrifty (saved_groups shop s ks answer v).1
  saved-Thrifty ks (some e) v h = h
  saved-Thrifty ks none v h =
      cap_creates-Thrifty (import_into shop s is_complete ks v)
        (import_into-Thrifty is_complete ks v h)

  saved-Capping :
      (ks : List FetchedKey) (answer : Option Err) (v : Purse W)
      → Thrifty v
      → (saved_groups shop s ks answer v).0 ≡ none
      → Capping (saved_groups shop s ks answer v).1
  saved-Capping ks (some e) v h n = absurd (refused-none n)
  saved-Capping ks none v h n =
      let i = import_fetched_keys (shop.calls s) shop.known ks v.left v.after in
      cap_creates-Capping (import_into shop s is_complete ks v)
        (import_into-Thrifty is_complete ks v h) (failing-fault (is_complete i.0) v i) n

  on_discovered-Thrifty :
      (ks : List FetchedKey) (gs : List TargetGroup) (v : Purse W)
      → Thrifty v
      → Thrifty (on_discovered shop q s ks gs v).1
  unfolding on_discovered
  on_discovered-Thrifty ks gs v h = elim (Bool-cases q.dry_run) [
    | inl t ↦ rw t h
    | inr f ↦ rw f (
        saved-Thrifty ks (shop.save_groups gs v.after).0
          (record v { after = (shop.save_groups gs v.after).1 }) h)
  ]

  pub on_discovered-Capped : Capped (provisioner shop q s) Thrifty q (min most limit)
  unfolding on_discovered
  on_discovered-Capped d ks gs v h n =
      let n' : (saved_groups shop s ks (shop.save_groups gs v.after).0
            (record v { after = (shop.save_groups gs v.after).1 })).0
          ≡ none =
        rw d at n in
      let (a, b) =
        saved-Capping ks (shop.save_groups gs v.after).0
          (record v { after = (shop.save_groups gs v.after).1 }) h n' in
      rw d (ground (arith, a, b))

  pub thrifty : Keeps (provisioner shop q s) Thrifty
  unfolding on_created
  thrifty = record {
    keys = λ v h. h;
    groups = λ v h. h;
    remote = λ ref v h. h;
    discovered = on_discovered-Thrifty;
    made = λ k v h. import_into-Thrifty is_one_import (k ∷ []) v h;
  }
