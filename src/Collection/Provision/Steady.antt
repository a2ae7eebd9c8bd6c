-- ===== src/Collection/Provision/Steady.antt =====
-- About the calls of CreateRemoteKey in provisionRemoteKeys of internal/collection/runner.go.
use multi_upstream_ai_gatewa.Prelude.{
  Bool, Bool-cases, List, Option, String, ℕ, [], arith, false, if◌then◌else◌, inl, inr, leb, length,
  map, nat_eq, none, refl, some, string_eq, true, ◌+◌, ◌-◌, ◌==◌, ◌∙◌, ◌∷◌, ◌≡◌, ◌⊎◌,
}
use multi_upstream_ai_gatewa.Collection.Provision.{
  Creation, ProvisionRequest, ProvisionResult, Provisioner, TargetGroup, asked, confirmed,
  count_provision_groups, create_limit, create_loop, create_one, empty_result, listed_again,
  next_creation, provision_created, provision_discovered, provision_grouped, provision_listed,
  provision_remote_keys, provision_selected, registered, select_provision_groups,
  single_created_key,
}
use multi_upstream_ai_gatewa.Collection.Runner.{FetchedKey}
use multi_upstream_ai_gatewa.Collector.Errors.{Err, text}

module _ {V : Type 0} (p : Provisioner V) (creations : V → ℕ) (I : V → Type 0) where
  abbrev pub Unless : Option Err → V → Type 0
  Unless none v = I v
  Unless (some e) v = Unit

  -- `creations` counts the calls of CreateRemoteKey, those that fail included, and nothing else; and a
  -- call without an error keeps `I`.
  pub record Steady : Type 0 where
    pub at_keys :
        (v : V) → I v → (creations (p.fetch_keys v).1 ≡ creations v) × I (p.fetch_keys v).1
    pub at_groups :
        (v : V) → I v → (creations (p.fetch_groups v).1 ≡ creations v) × I (p.fetch_groups v).1
    pub at_remote :
        (ref : String) (v : V)
        → I v
        → (creations (p.create_remote_key ref v).1 ≡ creations v + 1)
          × I (p.create_remote_key ref v).1
    pub at_discovered :
        (ks : List FetchedKey) (gs : List TargetGroup) (v : V)
        → I v
        → (creations (p.on_discovered ks gs v).1 ≡ creations v)
          × Unless (p.on_discovered ks gs v).0 (p.on_discovered ks gs v).1
    pub at_created :
        (k : FetchedKey) (v : V)
        → I v
        → (creations (p.on_created k v).1 ≡ creations v)
          × Unless (p.on_created k v).0 (p.on_created k v).1

module _ {V : Type 0} (p : Provisioner V) (creations : V → ℕ) (I : V → Type 0)
    (steady : Steady p creations I) where
  abbrev Good : List FetchedKey ⊎ Err → V → Type 0
  Good (inl after) v = I v
  Good (inr e) v = Unit

  abbrev One : ℕ → (List FetchedKey ⊎ Err) × V → Type 0
  One n (answer, v) = (creations v ≡ n) × Good answer v

  registered-One :
      (after : List FetchedKey) (answer : Option Err) (v : V) (n : ℕ)
      → creations v ≡ n
      → Unless p creations I answer v
      → One n (registered p after answer v)
  registered-One after none v n e h = (e, h)
  registered-One after (some x) v n e h = (e, tt)

  confirmed-One :
      (after : List FetchedKey) (o : Option FetchedKey) (v : V) (n : ℕ)
      → creations v ≡ n
      → I v
      → One n (confirmed p after o v)
  confirmed-One after none v n e h = (e, tt)
  confirmed-One after (some k) v n e h =
      let (same, kept) = steady.at_created k v h in
      registered-One after (p.on_created k v).0 (p.on_created k v).1 n (same ∙ e) kept

  again-One :
      (ref : String) (keys : List FetchedKey) (answer : List FetchedKey ⊎ Err) (v : V) (n : ℕ)
      → creations v ≡ n
      → I v
      → One n (listed_again p ref keys answer v)
  again-One ref keys (inr x) v n e h = (e, tt)
  again-One ref keys (inl after) v n e h =
      confirmed-One after (single_created_key (map (λ (k : FetchedKey). k.key_ref) keys) after ref)
        v n e h

  asked-One :
      (ref : String) (keys : List FetchedKey) (answer : Option Err) (v : V) (n : ℕ)
      → creations v ≡ n
      → I v
      → One n (asked p ref keys answer v)
  asked-One ref keys (some x) v n e h = (e, tt)
  asked-One ref keys none v n e h =
      let (same, kept) = steady.at_keys v h in
      again-One ref keys (p.fetch_keys v).0 (p.fetch_keys v).1 n (same ∙ e) kept

  create_one-One :
      (ref : String) (keys : List FetchedKey) (v : V)
      → I v
      → One (creations v + 1) (create_one p ref keys v)
  unfolding create_one
  create_one-One ref keys v h =
      let (more, kept) = steady.at_remote ref v h in
      asked-One ref keys (p.create_remote_key ref v).0 (p.create_remote_key ref v).1
        (creations v + 1) more kept

  -- From `made` keys on.
  abbrev Sent : ℕ → ℕ → Creation V → Type 0
  Sent n made (done, failed, deferred, fault, v) =
      (creations v + made ≡ n + done + failed) × Unless p creations I fault v

  next_creation-Sent :
      (n made : ℕ) (answer : List FetchedKey ⊎ Err) (v : V) (rest : List FetchedKey → Creation V)
      → One (n + 1) (answer, v)
      → ((after : List FetchedKey) → I v → Sent (creations v) (made + 1) (rest after))
      → Sent n made (next_creation p made answer v rest)
  next_creation-Sent n made (inr x) v rest (e, h) go = (omega (arith, e), tt)
  next_creation-Sent n made (inl after) v rest (e, h) go =
      let (f, kept) = go after h in (omega (arith, e, f), kept)

  create_loop-Sent :
      (limit : ℕ) (gs : List TargetGroup) (made : ℕ) (keys : List FetchedKey) (v : V)
      → I v
      → Sent (creations v) made (create_loop p limit gs made keys v)
  unfolding create_loop
  create_loop-Sent limit [] made keys v h = (omega arith, h)
  create_loop-Sent limit (g ∷ gs) made keys v h = elim (Bool-cases (leb limit made)) [
    | inl t ↦ rw t (omega arith, h)
    | inr f ↦ rw f (
        let (answer, v₁) = create_one p g.group_ref keys v in
        next_creation-Sent (creations v) made answer v₁
          (λ after. create_loop p limit gs (made + 1) after v₁)
          (create_one-One g.group_ref keys v h)
          (λ after kept. create_loop-Sent limit gs (made + 1) after v₁ kept))
  ]

  -- What provisionRemoteKeys calls from a state with `n` creations on.
  abbrev pub Spent : ℕ → ProvisionResult × Option Err × V → Type 0
  Spent n (r, fault, v) = (creations v ≡ n + r.created + r.failed) × Unless p creations I fault v

  if-Spent :
      (n : ℕ) (b : Bool) (x y : ProvisionResult × Option Err × V)
      → Spent n x
      → Spent n y
      → Spent n (if b then x else y)
  if-Spent n true x y h g = h
  if-Spent n false x y h g = g

  none-Spent :
      (n : ℕ) (r : ProvisionResult) (fault : Option Err) (v : V)
      → creations v ≡ n
      → I v
      → r.created + r.failed ≡ 0
      → Spent n (r, fault, v)
  none-Spent n r none v e h z = (omega (arith, e, z), h)
  none-Spent n r (some x) v e h z = (omega (arith, e, z), tt)

  created-Spent :
      (r : ProvisionResult) (lacking : List TargetGroup) (keys : List FetchedKey) (v : V)
      → I v
      → Spent (creations v) (provision_created p r lacking keys v)
  created-Spent r lacking keys v h =
      let (e, kept) = create_loop-Sent (create_limit p (p.max_creates v)) lacking 0 keys v h in
      (omega (arith, e), kept)

  discovered-Spent :
      (q : ProvisionRequest) (keys : List FetchedKey) (offers lacking : List TargetGroup)
      (answer : Option Err) (n : ℕ) (v : V)
      → creations v ≡ n
      → Unless p creations I answer v
      → Spent n (provision_discovered p q keys offers lacking answer v)
  discovered-Spent q keys offers lacking (some x) n v e h = (omega (arith, e), tt)
  discovered-Spent q keys offers lacking none n v e h =
      if-Spent n q.dry_run _ _ (omega (arith, e), h)
        (let planned : ProvisionResult = record empty_result {
          found = length keys;
          matched_groups = count_provision_groups offers q.model;
          existing_groups = count_provision_groups offers q.model - length lacking;
          would_create = length lacking;
        } in
          let (f, kept) = created-Spent planned lacking keys v h in (omega (arith, e, f), kept))

  selected-Spent :
      (q : ProvisionRequest) (keys : List FetchedKey) (offers lacking : List TargetGroup)
      (reason : String) (n : ℕ) (v : V)
      → creations v ≡ n
      → I v
      → Spent n (provision_selected p q keys offers lacking reason v)
  selected-Spent q keys offers lacking reason n v e h =
      let (answer, v₁) = p.on_discovered keys offers v in
      let (same, kept) = steady.at_discovered keys offers v h in
      if-Spent n (reason == "") _ _
        (discovered-Spent q keys offers lacking answer n v₁ (same ∙ e) kept)
        (none-Spent n (record empty_result { found = length keys; skipped_reason = reason }) none v
          e h refl)

  grouped-Spent :
      (q : ProvisionRequest) (keys : List FetchedKey) (answer : List TargetGroup ⊎ Err) (n : ℕ)
      (v : V)
      → creations v ≡ n
      → I v
      → Spent n (provision_grouped p q keys answer v)
  grouped-Spent q keys (inr x) n v e h = none-Spent n empty_result (some x) v e h refl
  grouped-Spent q keys (inl offers) n v e h =
      let (lacking, reason) = select_provision_groups keys offers q.model q.only_without_keys in
      selected-Spent q keys offers lacking reason n v e h

  listed-Spent :
      (q : ProvisionRequest) (answer : List FetchedKey ⊎ Err) (n : ℕ) (v : V)
      → creations v ≡ n
      → I v
      → Spent n (provision_listed p q answer v)
  listed-Spent q (inr x) n v e h = none-Spent n empty_result (some x) v e h refl
  listed-Spent q (inl keys) n v e h =
      let (same, kept) = steady.at_groups v h in
      grouped-Spent q keys (p.fetch_groups v).0 n (p.fetch_groups v).1 (same ∙ e) kept

  -- Every creation that provisionRemoteKeys asks for is counted as created or failed, and `I` holds in
  -- the end unless there is an error.
  pub provision_remote_keys-Spent :
      (q : ProvisionRequest) (v : V) → I v → Spent (creations v) (provision_remote_keys p q v)
  unfolding provision_remote_keys
  provision_remote_keys-Spent q v h =
      let (same, kept) = steady.at_keys v h in
      if-Spent (creations v) p.supported _ _
        (listed-Spent q (p.fetch_keys v).0 (creations v) (p.fetch_keys v).1 same kept)
        (none-Spent (creations v) empty_result (some (text "站型不支持远端创建 Key")) v refl h refl)
