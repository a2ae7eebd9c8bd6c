-- ===== src/Collection/Provision/State.antt =====
-- About the state that provisionRemoteKeys of internal/collection/runner.go leaves.
use multi_upstream_ai_gatewa.Prelude.{
  Bool, Bool-cases, List, Option, String, ℕ, [], false, if◌then◌else◌, inl, inr, leb, map, nat_eq,
  none, some, string_eq, true, ◌+◌, ◌==◌, ◌∷◌, ◌⊎◌,
}
use multi_upstream_ai_gatewa.Collection.Provision.{
  Creation, ProvisionRequest, ProvisionResult, Provisioner, TargetGroup, asked, confirmed,
  create_limit, create_loop, create_one, listed_again, next_creation, provision_discovered,
  provision_grouped, provision_listed, provision_remote_keys, provision_selected, registered,
  select_provision_groups, single_created_key,
}
use multi_upstream_ai_gatewa.Collection.Provision.Creations.{Keeps}
use multi_upstream_ai_gatewa.Collection.Runner.{FetchedKey}
use multi_upstream_ai_gatewa.Collection.Schedule.{key, key_eq}
use multi_upstream_ai_gatewa.Collector.Errors.{Err}

module _ {V : Type 0} (p : Provisioner V) (I : V → Type 0) (k : Keeps p I) where
  if-Keeps :
      (b : Bool) (x y : ProvisionResult × Option Err × V) → I x.2 → I y.2 → I (if b then x else y).2
  if-Keeps true x y h g = h
  if-Keeps false x y h g = g

  confirmed-Keeps :
      (after : List FetchedKey) (o : Option FetchedKey) (v : V) → I v → I (confirmed p after o v).1
  confirmed-Keeps after none v h = h
  confirmed-Keeps after (some key) v h =
      registered-Keeps after (p.on_created key v).0 (p.on_created key v).1 (k.made key v h)
    where
      registered-Keeps :
          (after : List FetchedKey) (answer : Option Err) (v : V)
          → I v
          → I (registered p after answer v).1
      registered-Keeps after none v h = h
      registered-Keeps after (some e) v h = h

  again-Keeps :
      (ref : String) (keys : List FetchedKey) (answer : List FetchedKey ⊎ Err) (v : V)
      → I v
      → I (listed_again p ref keys answer v).1
  again-Keeps ref keys (inr e) v h = h
  again-Keeps ref keys (inl after) v h =
      confirmed-Keeps after
        (single_created_key (map (λ (k : FetchedKey). k.key_ref) keys) after ref) v h

  asked-Keeps :
      (ref : String) (keys : List FetchedKey) (answer : Option Err) (v : V)
      → I v
      → I (asked p ref keys answer v).1
  asked-Keeps ref keys (some e) v h = h
  asked-Keeps ref keys none v h =
      again-Keeps ref keys (p.fetch_keys v).0 (p.fetch_keys v).1 (k.keys v h)

  next-Keeps :
      (made : ℕ) (answer : List FetchedKey ⊎ Err) (v : V) (rest : List FetchedKey → Creation V)
      → I v
      → ((after : List FetchedKey) → I (rest after).4)
      → I (next_creation p made answer v rest).4
  next-Keeps made (inr e) v rest h r = h
  next-Keeps made (inl after) v rest h r = r after

  loop-Keeps :
      (limit : ℕ) (gs : List TargetGroup) (made : ℕ) (keys : List FetchedKey) (v : V)
      → I v
      → I (create_loop p limit gs made keys v).4
  unfolding create_loop create_one
  loop-Keeps limit [] made keys v h = h
  loop-Keeps limit (g ∷ gs) made keys v h = elim (Bool-cases (leb limit made)) [
    | inl t ↦ rw t h
    | inr f ↦ rw f (
        let one =
          asked-Keeps g.group_ref keys (p.create_remote_key g.group_ref v).0
            (p.create_remote_key g.group_ref v).1 (k.remote g.group_ref v h) in
        let (answer, v₁) = create_one p g.group_ref keys v in
        next-Keeps made answer v₁ (λ after. create_loop p limit gs (made + 1) after v₁) one
          (λ after. loop-Keeps limit gs (made + 1) after v₁ one))
  ]

  discovered-Keeps :
      (q : ProvisionRequest) (keys : List FetchedKey) (groups lacking : List TargetGroup)
      (answer : Option Err) (v : V)
      → I v
      → I (provision_discovered p q keys groups lacking answer v).2
  discovered-Keeps q keys groups lacking (some e) v h = h
  discovered-Keeps q keys groups lacking none v h =
      if-Keeps q.dry_run _ _ h (loop-Keeps (create_limit p (p.max_creates v)) lacking 0 keys v h)

  selected-Keeps :
      (q : ProvisionRequest) (keys : List FetchedKey) (groups lacking : List TargetGroup)
      (reason : String) (v : V)
      → I v
      → I (provision_selected p q keys groups lacking reason v).2
  selected-Keeps q keys groups lacking reason v h =
      let (answer, v₁) = p.on_discovered keys groups v in
      if-Keeps (reason == "") _ _
        (discovered-Keeps q keys groups lacking answer v₁ (k.discovered keys groups v h)) h

  grouped-Keeps :
      (q : ProvisionRequest) (keys : List FetchedKey) (answer : List TargetGroup ⊎ Err) (v : V)
      → I v
      → I (provision_grouped p q keys answer v).2
  grouped-Keeps q keys (inr e) v h = h
  grouped-Keeps q keys (inl groups) v h =
      let (lacking, reason) = select_provision_groups keys groups q.model q.only_without_keys in
      selected-Keeps q keys groups lacking reason v h

  listed-Keeps :
      (q : ProvisionRequest) (answer : List FetchedKey ⊎ Err) (v : V)
      → I v
      → I (provision_listed p q answer v).2
  listed-Keeps q (inr e) v h = h
  listed-Keeps q (inl keys) v h =
      let (answer, v₁) = p.fetch_groups v in grouped-Keeps q keys answer v₁ (k.groups v h)

  pub provision_remote_keys-Keeps :
      (q : ProvisionRequest) (v : V) → I v → I (provision_remote_keys p q v).2
  unfolding provision_remote_keys
  provision_remote_keys-Keeps q v h =
      let (answer, v₁) = p.fetch_keys v in
      if-Keeps p.supported _ _ (listed-Keeps q answer v₁ (k.keys v h)) h
