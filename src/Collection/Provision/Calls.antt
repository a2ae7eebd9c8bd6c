-- ===== src/Collection/Provision/Calls.antt =====
-- About the calls of ResolveKeySecret and CreateRemoteKey in ProvisionKeys of
-- internal/collection/runner.go.
use multi_upstream_ai_gatewa.Prelude.{
  Bool, Bool-cases, List, Option, String, ℕ, [], ap, arith, false, inl, inr, nat_eq, none, refl,
  some, string_eq, true, ◌+◌, ◌==◌, ◌∙◌, ◌∷◌, ◌≡◌,
}
use multi_upstream_ai_gatewa.Collection.Provision.{ProvisionRequest, TargetGroup}
use multi_upstream_ai_gatewa.Collection.Provision.Creations.{Keeps}
use multi_upstream_ai_gatewa.Collection.Provision.Purse.{
  Purse, Shop, cap_creates, import_into, is_complete, is_one_import, on_created, on_discovered,
  provisioner, saved_groups, settle_import, with_purse,
}
use multi_upstream_ai_gatewa.Collection.Provision.Steady.{Steady, Unless}
use multi_upstream_ai_gatewa.Collection.Runner.{FetchedKey, import_fetched_keys}
use multi_upstream_ai_gatewa.Collection.Runner.Counts.{import_fetched_keys_counts}
use multi_upstream_ai_gatewa.Collection.Runner.Reads.{IsSilent, Meter, import_fetched_keys-reads}
use multi_upstream_ai_gatewa.Collector.Errors.{Err}
use multi_upstream_ai_gatewa.Collector.Keys.{KeyImportResult}
use multi_upstream_ai_gatewa.Collector.Sync.{is_none}

-- `reads` counts the calls of ResolveKeySecret and `creations` those of CreateRemoteKey, those that fail
-- included, and nothing else.
pub record Guarded {C S W : Type 0} (shop : Shop C S W) (reads creations : W → ℕ) : Type 0 where
  pub renew_reads : (c : C) → IsSilent reads (shop.renew c)
  pub renew_creates : (c : C) → IsSilent creations (shop.renew c)
  pub login_reads : (c : C) → IsSilent reads (shop.login c)
  pub login_creates : (c : C) → IsSilent creations (shop.login c)
  pub keys_reads : (s : S) → IsSilent reads (shop.fetch_keys s)
  pub keys_creates : (s : S) → IsSilent creations (shop.fetch_keys s)
  pub groups_reads : (s : S) → IsSilent reads (shop.fetch_groups s)
  pub groups_creates : (s : S) → IsSilent creations (shop.fetch_groups s)
  pub remote_reads : (s : S) (ref : String) → IsSilent reads (shop.create_remote_key s ref)
  pub remote_creates :
      (s : S) (ref : String) (w : W)
      → creations (shop.create_remote_key s ref w).1 ≡ creations w + 1
  pub save_reads : (gs : List TargetGroup) → IsSilent reads (shop.save_groups gs)
  pub save_creates : (gs : List TargetGroup) → IsSilent creations (shop.save_groups gs)
  pub known_reads : IsSilent reads shop.known
  pub known_creates : IsSilent creations shop.known
  pub calls_reads : (s : S) → Meter (shop.calls s) reads
  pub resolve_creates : (s : S) (ref : String) → IsSilent creations ((shop.calls s).resolve ref)
  pub group_creates : (s : S) (ref : String) → IsSilent creations ((shop.calls s).group_id ref)
  pub create_creates :
      (s : S) (secret ref : String) (g : Option ℕ)
      → IsSilent creations ((shop.calls s).create_key secret ref g)
  pub update_creates :
      (s : S) (id : ℕ) (k : FetchedKey) → IsSilent creations ((shop.calls s).update_key id k)

module _ {C S W : Type 0} (shop : Shop C S W) (reads creations : W → ℕ)
    (guard : Guarded shop reads creations) where
  -- A counter of both kinds of calls, which the import sees as one of reads.
  abbrev both : W → ℕ
  both w = reads w + creations w

  both-Meter : (s : S) → Meter (shop.calls s) both
  both-Meter s =
      let m = guard.calls_reads s in
      record {
        on_resolve = λ ref w.
            (let a = m.on_resolve ref w in
              let b = guard.resolve_creates s ref w in omega (arith, a, b));
        on_group = λ ref w.
            (let a = m.on_group ref w in
              let b = guard.group_creates s ref w in omega (arith, a, b));
        on_create = λ secret ref g w.
            (let a = m.on_create secret ref g w in
              let b = guard.create_creates s secret ref g w in omega (arith, a, b));
        on_update = λ id k w.
            (let a = m.on_update id k w in
              let b = guard.update_creates s id k w in omega (arith, a, b));
      }

  known-both : IsSilent both shop.known
  known-both w = let a = guard.known_reads w in let b = guard.known_creates w in omega (arith, a, b)

  imports-creates :
      (s : S) (ks : List FetchedKey) (left : ℕ) (w : W)
      → creations (import_fetched_keys (shop.calls s) shop.known ks left w).3 ≡ creations w
  imports-creates s ks left w =
      let a =
        import_fetched_keys-reads (shop.calls s) reads (guard.calls_reads s) shop.known ks left w
          guard.known_reads in
      let b =
        import_fetched_keys-reads (shop.calls s) both (both-Meter s) shop.known ks left w
          known-both in
      omega (arith, a, b)

module _ {C S W : Type 0} (shop : Shop C S W) (reads creations : W → ℕ)
    (guard : Guarded shop reads creations) (q : ProvisionRequest) (s : S) (total limit : ℕ) where
  -- What was sent and what is left make up the budget.
  abbrev pub Metered : Purse W → Type 0
  Metered v = reads v.after + v.left ≡ total

  -- What was reported and what is left make up the budget.
  abbrev pub Told : Purse W → Type 0
  Told v = v.reads + v.left ≡ limit

  settle_import-after :
      (complete : Bool) (v : Purse W) (i : KeyImportResult × Option Err × ℕ × W)
      → ((settle_import complete v i).2.after ≡ i.3) × ((settle_import complete v i).2.left ≡ i.2)
  settle_import-after complete v (got, some e, left, w) = (refl, refl)
  settle_import-after true v (got, none, left, w) = (refl, refl)
  settle_import-after false v (got, none, left, w) = (refl, refl)

  import_into-Metered :
      (complete : KeyImportResult → Bool) (ks : List FetchedKey) (v : Purse W)
      → Metered v
      → Metered (import_into shop s complete ks v).2
  import_into-Metered complete ks v h =
      let i = import_fetched_keys (shop.calls s) shop.known ks v.left v.after in
      let sent =
        import_fetched_keys-reads (shop.calls s) reads (guard.calls_reads s) shop.known ks v.left
          v.after guard.known_reads in
      let (a, b) = settle_import-after (complete i.0) v i in
      let c = ap reads a in omega (arith, sent, b, c, h)

  import_into-creates :
      (complete : KeyImportResult → Bool) (ks : List FetchedKey) (v : Purse W)
      → creations (import_into shop s complete ks v).2.after ≡ creations v.after
  import_into-creates complete ks v =
      let i = import_fetched_keys (shop.calls s) shop.known ks v.left v.after in
      ap creations (settle_import-after (complete i.0) v i).0
      ∙ imports-creates shop reads creations guard s ks v.left v.after

  settle_import-Told :
      (complete : Bool) (v : Purse W) (i : KeyImportResult × Option Err × ℕ × W)
      → Told v
      → i.2 + i.0.secret_resolves ≡ v.left
      → Unless
          (provisioner shop q s)
          (λ v. creations v.after)
          Told
          (settle_import complete v i).1
          (settle_import complete v i).2
  settle_import-Told complete v (got, some e, left, w) h b = tt
  settle_import-Told true v (got, none, left, w) h b = omega (arith, h, b)
  settle_import-Told false v (got, none, left, w) h b = tt

  cap_creates-after :
      (i : Bool × Option Err × Purse W)
      → ((cap_creates i).1.after ≡ i.2.after) × ((cap_creates i).1.left ≡ i.2.left)
  cap_creates-after (true, fault, v) = elim (Bool-cases (v.left == 0)) [
    | inl t ↦ rw t (refl, refl)
    | inr f ↦ rw f (refl, refl)
  ]
  cap_creates-after (false, fault, v) = (refl, refl)

  saved-Metered :
      (ks : List FetchedKey) (answer : Option Err) (v : Purse W)
      → Metered v
      → Metered (saved_groups shop s ks answer v).1
  saved-Metered ks (some e) v h = h
  saved-Metered ks none v h =
      let (a, b) = cap_creates-after (import_into shop s is_complete ks v) in
      let c = ap reads a in let d = import_into-Metered is_complete ks v h in omega (arith, b, c, d)

  saved-creations :
      (ks : List FetchedKey) (answer : Option Err) (v : Purse W)
      → creations (saved_groups shop s ks answer v).1.after ≡ creations v.after
  saved-creations ks (some e) v = refl
  saved-creations ks none v =
      ap creations (cap_creates-after (import_into shop s is_complete ks v)).0
      ∙ import_into-creates is_complete ks v

  abbrev Fine : Option Err → Purse W → Type 0
  Fine fault v = Unless (provisioner shop q s) (λ v. creations v.after) Told fault v

  cap_creates-Told :
      (i : Bool × Option Err × Purse W)
      → Fine i.1 i.2
      → (i.0 ≡ true → is_none i.1 ≡ true)
      → Fine (cap_creates i).0 (cap_creates i).1
  cap_creates-Told (true, none, v) h n = elim (Bool-cases (v.left == 0)) [
    | inl t ↦ rw t tt
    | inr f ↦ rw f h
  ]
  cap_creates-Told (true, some e, v) h n = cc (n refl)
  cap_creates-Told (false, fault, v) h n = h

  settled-fault :
      (complete : Bool) (v : Purse W) (i : KeyImportResult × Option Err × ℕ × W)
      → (settle_import complete v i).0 ≡ true
      → is_none (settle_import complete v i).1 ≡ true
  settled-fault complete v (got, some e, left, w) h = cc h
  settled-fault true v (got, none, left, w) h = refl
  settled-fault false v (got, none, left, w) h = cc h

  import_into-Told :
      (complete : KeyImportResult → Bool) (ks : List FetchedKey) (v : Purse W)
      → Told v
      → Fine (import_into shop s complete ks v).1 (import_into shop s complete ks v).2
  import_into-Told complete ks v h =
      let i = import_fetched_keys (shop.calls s) shop.known ks v.left v.after in
      let (n, a, b) = import_fetched_keys_counts (shop.calls s) shop.known ks v.left v.after in
      settle_import-Told (complete i.0) v i h b

  saved-Told :
      (ks : List FetchedKey) (answer : Option Err) (v : Purse W)
      → Told v
      → Fine (saved_groups shop s ks answer v).0 (saved_groups shop s ks answer v).1
  saved-Told ks (some e) v h = tt
  saved-Told ks none v h =
      let i = import_fetched_keys (shop.calls s) shop.known ks v.left v.after in
      cap_creates-Told (import_into shop s is_complete ks v) (import_into-Told is_complete ks v h)
        (settled-fault (is_complete i.0) v i)

  on_discovered-Metered :
      (ks : List FetchedKey) (gs : List TargetGroup) (v : Purse W)
      → Metered v
      → Metered (on_discovered shop q s ks gs v).1
  unfolding on_discovered
  on_discovered-Metered ks gs v h =
      let (answer, v₁) = with_purse (shop.save_groups gs) v in
      let same = guard.save_reads gs v.after in
      elim (Bool-cases q.dry_run) [
        | inl t ↦ rw t h
        | inr f ↦ rw f (saved-Metered ks answer v₁ (omega (arith, same, h)))
      ]

  pub provisioner-Metered : Keeps (provisioner shop q s) Metered
  unfolding on_created
  provisioner-Metered = record {
    keys = λ v h. (let same = guard.keys_reads s v.after in omega (arith, same, h));
    groups = λ v h. (let same = guard.groups_reads s v.after in omega (arith, same, h));
    remote = λ ref v h. (let same = guard.remote_reads s ref v.after in omega (arith, same, h));
    discovered = on_discovered-Metered;
    made = λ k v h. import_into-Metered is_one_import (k ∷ []) v h;
  }

  on_discovered-Fine :
      (ks : List FetchedKey) (gs : List TargetGroup) (v : Purse W)
      → Told v
      → (creations (on_discovered shop q s ks gs v).1.after ≡ creations v.after)
        × Fine (on_discovered shop q s ks gs v).0 (on_discovered shop q s ks gs v).1
  unfolding on_discovered
  on_discovered-Fine ks gs v h =
      let (answer, v₁) = with_purse (shop.save_groups gs) v in
      let same = guard.save_creates gs v.after in
      elim (Bool-cases q.dry_run) [
        | inl t ↦ rw t (refl, h)
        | inr f ↦ rw f (saved-creations ks answer v₁ ∙ same, saved-Told ks answer v₁ h)
      ]

  pub provisioner-Steady : Steady (provisioner shop q s) (λ v. creations v.after) Told
  unfolding on_created
  provisioner-Steady = record {
    at_keys = λ v h. (guard.keys_creates s v.after, h);
    at_groups = λ v h. (guard.groups_creates s v.after, h);
    at_remote = λ ref v h. (guard.remote_creates s ref v.after, h);
    at_discovered = on_discovered-Fine;
    at_created = λ k v h.
        (import_into-creates is_one_import (k ∷ []) v, import_into-Told is_one_import (k ∷ []) v h);
  }
