-- ===== src/Collector/Sync/Items.antt =====
-- About run and the items of SyncMany in internal/collector/sync.go.
use mathlib.Core.Path.{subst}
use multi_upstream_ai_gatewa.Prelude.{
  All, Bool, Bool-cases, List, Option-cases, [], false, if◌then◌else◌, inl, inr, ltb, map, nat_eq,
  not, refl, select, string_eq, sym, true, ◌&&◌, ◌++◌, ◌==◌, ◌∷◌, ◌≡◌, ◌⊎◌,
}
use multi_upstream_ai_gatewa.Collector.Contract.{
  Capability, SupportLevel, SyncItem, SyncResult, capability_eq, degraded, family_eq, is_failure,
  is_unsupported, is_unsupported_status, supported, unsupported,
}
use multi_upstream_ai_gatewa.Collector.Errors.{Err, is}
use multi_upstream_ai_gatewa.Collector.Sync.{
  CapabilityMap, Credential, Tally, all_same_site, authenticate, is_none, is_supported, item_of,
  run, run_if, run_wanted, settle, sync_authenticated, sync_many, sync_order, unsupported_item,
  wants,
}

-- What the switch of run makes of one item.
module _ (caps : CapabilityMap) where
  -- The item has the level of its capability; it is `unsupported` exactly at that level; it carries
  -- an error exactly if it is a failure.
  abbrev pub Sound : SyncItem → Type 0
  Sound i =
      (i.support ≡ caps i.capability)
      × (is_unsupported i.support ≡ is_unsupported_status i.status)
      × (is_none i.error ≡ not (is_failure i.status))

  -- The items hold one for each capability of `want`, in that order, and each is sound.
  abbrev Answers : List Capability → List SyncItem → Type 0
  Answers want items = (map (λ (i : SyncItem). i.capability) items ≡ want) × All Sound items

  Sound-unsupported : (c : Capability) → caps c ≡ unsupported → Sound (unsupported_item c)
  Sound-unsupported c h = (sym h, refl, refl)

settle_lem :
    (l : SupportLevel) (t : Tally)
    → is_unsupported l ≡ false
    → (is_unsupported l ≡ is_unsupported_status (settle l t).0)
      × (is_none (settle l t).1 ≡ not (is_failure (settle l t).0))
unfolding settle
settle_lem l t h = elim (Option-cases t.error) [
  | inl p ↦ rw p (elim (Bool-cases (is_supported l && t.rows == 0)) [
    | inl b ↦ rw (b, h) (refl, refl)
    | inr b ↦ rw (b, h) (refl, refl)
  ])
  | inr (e, p) ↦ rw p (elim (Bool-cases (ltb 0 t.failed)) [
    | inl b ↦ rw (b, h) (refl, refl)
    | inr b ↦ rw (b, h) (refl, refl)
  ])
]

module _ {W : Type 0} (caps : CapabilityMap) (collect : Capability → W → Tally × W) where
  run-Sound :
      (l : SupportLevel) (c : Capability) (w : W)
      → caps c ≡ l
      → Sound caps (run l c (collect c) w).0 × ((run l c (collect c) w).0.capability ≡ c)
  unfolding run item_of
  run-Sound supported c w h =
      let (a, b) = settle_lem supported (collect c w).0 refl in ((sym h, a, b), refl)
  run-Sound degraded c w h =
      let (a, b) = settle_lem degraded (collect c w).0 refl in ((sym h, a, b), refl)
  run-Sound unsupported c w h = (Sound-unsupported caps c h, refl)

  run_if-Answers :
      (b : Bool) (c : Capability) (w : W) (cs : List Capability) (is : List SyncItem)
      → Answers caps cs is
      → Answers caps (if b then c ∷ cs else cs) ((run_if b (caps c) c (collect c) w).0 ++ is)
  unfolding run_if
  run_if-Answers false c w cs is h = h
  run_if-Answers true c w cs is h =
      let (sound, same) = run-Sound (caps c) c w refl in (cc (same, h.0), (sound, h.1))

  pub run_wanted-Answers :
      (only cs : List Capability) (w : W)
      → Answers caps (select (wants only) cs) (run_wanted caps only collect cs w).0
  unfolding run_wanted
  run_wanted-Answers only [] w = (refl, tt)
  run_wanted-Answers only (c ∷ cs) w =
      let w₁ = (run_if (wants only c) (caps c) c (collect c) w).1 in
      run_if-Answers (wants only c) c w (select (wants only) cs)
        (run_wanted caps only collect cs w₁).0 (run_wanted-Answers only cs w₁)

result_of : {A B : Type 0} (a b : A) → Path (A ⊎ B) (inl a) (inl b) → a ≡ b
result_of a b h = cc h

module _ {W Session : Type 0} (caps : CapabilityMap) (only : List Capability) where
  sync_authenticated-items :
      (collect : List Err
        → Capability
        → List (Credential × Session) × W
        → Tally × (List (Credential × Session) × W))
      (c : Credential) (accounts : List (Credential × Session)) (faults : List Err) (w : W)
      (result : SyncResult)
      → (sync_authenticated caps only collect c accounts faults w).0 ≡ inl result
      → Answers caps (select (wants only) sync_order) result.items
  unfolding sync_authenticated
  sync_authenticated-items collect c [] faults w result h = cc h
  sync_authenticated-items collect c (x ∷ xs) faults w result h =
      subst (λ (r : SyncResult). Answers caps (select (wants only) sync_order) r.items)
        (result_of _ result h)
        (run_wanted-Answers caps (collect faults) only sync_order (x ∷ xs, w))

  -- A result of SyncMany has exactly one item for each capability that is wanted, in the frozen
  -- order; each item has the level that the adapter declares, is `unsupported` exactly at that
  -- level, and carries an error exactly if its status is a failure.
  pub sync_many-items :
      (fresh : Credential → W → (Credential ⊎ Err) × W)
      (login : Credential → W → (Session ⊎ Err) × W)
      (collect : List Err
        → Capability
        → List (Credential × Session) × W
        → Tally × (List (Credential × Session) × W))
      (creds : List Credential) (w : W) (result : SyncResult)
      → (sync_many caps only fresh login collect creds w).0 ≡ inl result
      → (map (λ (i : SyncItem). i.capability) result.items ≡ select (wants only) sync_order)
        × All (Sound caps) result.items
  unfolding sync_many
  sync_many-items fresh login collect [] w result h = cc h
  sync_many-items fresh login collect (c ∷ cs) w result h = elim (Bool-cases (all_same_site c cs)) [
    | inl b ↦
        (let (accounts, faults, w₁) = authenticate fresh login (c ∷ cs) w in
          sync_authenticated-items collect c accounts faults w₁ result (rw b at h))
    | inr b ↦ cc (rw b at h)
  ]
