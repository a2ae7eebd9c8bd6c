-- ===== src/Collection/Provision/Creations.antt =====
-- About the loop of provisionRemoteKeys in internal/collection/runner.go.
use multi_upstream_ai_gatewa.Prelude.{
  Bool, Bool-cases, List, Option, String, ℕ, [], arith, false, if◌then◌else◌, inl, inr, leb,
  leb-false, length, map, max, none, not, refl, some, suc, true, ◌&&◌, ◌+◌, ◌-◌, ◌<◌, ◌∷◌, ◌≡◌, ◌≤◌,
  ◌⊎◌,
}
use multi_upstream_ai_gatewa.Collection.Provision.{
  Creation, ProvisionRequest, ProvisionResult, Provisioner, TargetGroup, count_provision_groups,
  create_limit, create_loop, create_one, empty_result, is_empty_list, next_creation, pick_groups,
  provision_created, provision_discovered, provision_grouped, provision_listed,
  provision_remote_keys, select_provision_groups,
}
use multi_upstream_ai_gatewa.Collection.Provision.Groups.{pick_groups_lem}
use multi_upstream_ai_gatewa.Collection.Runner.{FetchedKey}
use multi_upstream_ai_gatewa.Collector.Errors.{Err, text}
use multi_upstream_ai_gatewa.Collector.Sync.{is_none}

module _ {V : Type 0} (p : Provisioner V) where
  -- What the loop counts from `made` keys on, with `n` groups to go.
  abbrev Counted : ℕ → ℕ → ℕ → Creation V → Type 0
  Counted limit made n c =
      (c.0 + c.1 ≤ max made limit)
      × (c.1 ≡ (if is_none c.3 then 0 else 1))
      × (c.0 + c.1 + c.2 ≤ made + n)
      × ((if is_none c.3 then c.0 + c.2 else made + n) ≡ made + n)

  next_creation-Counted :
      (limit made n : ℕ) (answer : List FetchedKey ⊎ Err) (v : V)
      (rest : List FetchedKey → Creation V)
      → made < limit
      → ((after : List FetchedKey) → Counted limit (made + 1) n (rest after))
      → Counted limit made (suc n) (next_creation p made answer v rest)
  next_creation-Counted limit made n (inr e) v rest l h = (omega arith, refl, omega arith, refl)
  next_creation-Counted limit made n (inl after) v rest l h =
      let (a, b, c, d) = h after in (omega (arith, a, l), b, omega (arith, c), ground (arith, d))

  create_loop-Counted :
      (limit : ℕ) (gs : List TargetGroup) (made : ℕ) (keys : List FetchedKey) (v : V)
      → Counted limit made (length gs) (create_loop p limit gs made keys v)
  unfolding create_loop
  create_loop-Counted limit [] made keys v = (omega arith, refl, omega arith, omega arith)
  create_loop-Counted limit (g ∷ gs) made keys v = elim (Bool-cases (leb limit made)) [
    | inl t ↦ rw t (omega arith, refl, omega arith, omega arith)
    | inr f ↦ rw f (
        let (answer, v₁) = create_one p g.group_ref keys v in
        next_creation-Counted limit made (length gs) answer v₁
          (λ after. create_loop p limit gs (made + 1) after v₁) (leb-false limit made f)
          (λ after. create_loop-Counted limit gs (made + 1) after v₁))
  ]

  -- What provisionRemoteKeys promises of a result: the groups add up; no group is counted twice, all
  -- of them are unless there is an error, a dry run or a reason to skip; and no more keys are asked
  -- for than `bound`.
  pub record Planned (q : ProvisionRequest) (bound : ℕ) (r : ProvisionResult × Option Err × V)
      : Type 0 where
    pub groups : r.0.existing_groups + r.0.would_create ≡ r.0.matched_groups
    pub creates : r.0.created + r.0.failed ≤ bound
    pub once : r.0.created + r.0.failed + r.0.deferred ≤ r.0.would_create
    pub all :
        (if is_none r.1 && not q.dry_run then r.0.created + r.0.deferred else r.0.would_create)
        ≡ r.0.would_create

  empty-Planned :
      (q : ProvisionRequest) (bound found : ℕ) (reason : String) (fault : Option Err) (v : V)
      → Planned q bound (record empty_result { found = found; skipped_reason = reason }, fault, v)
  empty-Planned q bound found reason fault v = record {
    groups = refl;
    creates = omega arith;
    once = omega arith;
    all = ground arith;
  }

  -- What every call keeps of the state.
  pub record Keeps (I : V → Type 0) : Type 0 where
    pub keys : (v : V) → I v → I (p.fetch_keys v).1
    pub groups : (v : V) → I v → I (p.fetch_groups v).1
    pub remote : (ref : String) (v : V) → I v → I (p.create_remote_key ref v).1
    pub discovered :
        (ks : List FetchedKey) (gs : List TargetGroup) (v : V) → I v → I (p.on_discovered ks gs v).1
    pub made : (k : FetchedKey) (v : V) → I v → I (p.on_created k v).1

  -- onDiscovered leaves at most `bound` keys to create.
  abbrev pub Capped : (V → Type 0) → ProvisionRequest → ℕ → Type 0
  Capped I q bound =
      q.dry_run ≡ false
      → (ks : List FetchedKey) (gs : List TargetGroup) (v : V) → I v
      → (p.on_discovered ks gs v).0 ≡ none
      → create_limit p (p.max_creates (p.on_discovered ks gs v).1) ≤ bound

  if-Planned :
      (q : ProvisionRequest) (bound : ℕ) (b : Bool) (x y : ProvisionResult × Option Err × V)
      → (b ≡ true → Planned q bound x)
      → (b ≡ false → Planned q bound y)
      → Planned q bound (if b then x else y)
  if-Planned q bound true x y h k = h refl
  if-Planned q bound false x y h k = k refl

  created-Planned :
      (q : ProvisionRequest) (bound n matched : ℕ) (lacking : List TargetGroup)
      (keys : List FetchedKey) (v : V)
      → length lacking ≤ matched
      → create_limit p (p.max_creates v) ≤ bound
      → Planned q bound (
          provision_created p
            (record empty_result {
              found = n;
              matched_groups = matched;
              existing_groups = matched - length lacking;
              would_create = length lacking;
            })
            lacking
            keys
            v)
  created-Planned q bound n matched lacking keys v l c =
      let limit = create_limit p (p.max_creates v) in
      let (a, b, d, e) = create_loop-Counted limit lacking 0 keys v in
      record {
        groups = omega (arith, l);
        creates = omega (arith, a, c);
        once = omega (arith, d);
        all = ground (arith, e);
      }

  discovered-Planned :
      (q : ProvisionRequest) (bound : ℕ) (keys : List FetchedKey)
      (groups lacking : List TargetGroup) (answer : Option Err) (v : V)
      → length lacking ≤ count_provision_groups groups q.model
      → (q.dry_run ≡ false → answer ≡ none → create_limit p (p.max_creates v) ≤ bound)
      → Planned q bound (provision_discovered p q keys groups lacking answer v)
  discovered-Planned q bound keys groups lacking (some e) v l c =
      empty-Planned q bound (length keys) "" (some e) v
  discovered-Planned q bound keys groups lacking none v l c =
      if-Planned q bound q.dry_run _ _
        (λ t. record {
          groups = omega (arith, l);
          creates = omega arith;
          once = omega arith;
          all = ground (arith, t);
        })
        (λ f.
          created-Planned q bound (length keys) (count_provision_groups groups q.model) lacking keys
            v l (c f refl))

module _ {V : Type 0} (p : Provisioner V) (I : V → Type 0) (k : Keeps p I) (q : ProvisionRequest)
    (bound : ℕ) (c : Capped p I q bound) where
  grouped-Planned :
      (keys : List FetchedKey) (answer : List TargetGroup ⊎ Err) (v : V)
      → I v
      → Planned p q bound (provision_grouped p q keys answer v)
  unfolding select_provision_groups
  grouped-Planned keys (inr e) v h = empty-Planned p q bound 0 "" (some e) v
  grouped-Planned keys (inl groups) v h =
      elim (Bool-cases (q.only_without_keys && not (is_empty_list keys))) [
        | inl t ↦ rw t (empty-Planned p q bound (length keys) "账号已有远端 Key" none v)
        | inr f ↦ rw f (
            let covered = map (λ (k : FetchedKey). k.group_ref) keys in
            let (u, same, short) = pick_groups_lem q.model covered groups in
            let (answer, v₁) = p.on_discovered keys groups v in
            discovered-Planned p q bound keys groups (pick_groups q.model covered [] groups) answer
              v₁ short (λ d n. c d keys groups v h n))
      ]

  listed-Planned :
      (answer : List FetchedKey ⊎ Err) (v : V)
      → I v
      → Planned p q bound (provision_listed p q answer v)
  listed-Planned (inr e) v h = empty-Planned p q bound 0 "" (some e) v
  listed-Planned (inl keys) v h =
      let (answer, v₁) = p.fetch_groups v in grouped-Planned keys answer v₁ (k.groups v h)

  pub provision_remote_keys-Planned :
      (v : V) → I v → Planned p q bound (provision_remote_keys p q v)
  unfolding provision_remote_keys
  provision_remote_keys-Planned v h =
      let (answer, v₁) = p.fetch_keys v in
      if-Planned p q bound p.supported _ _ (λ t. listed-Planned answer v₁ (k.keys v h))
        (λ f. empty-Planned p q bound 0 "" (some (text "站型不支持远端创建 Key")) v)
