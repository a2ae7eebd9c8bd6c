-- ===== src/Admin/KeyProvision/Batch.antt =====
-- About the loop of provisionKeys in internal/admin/key_automation.go.
use Prim.Native.Nat.{zero-le}
use multi_upstream_ai_gatewa.Prelude.{
  Bool, Bool-cases, List, Option, String, ℕ, [], arith, false, if◌then◌else◌, inl, inr, ltb, min,
  nat_eq, none, not, refl, some, string_eq, true, ◌&&◌, ◌+◌, ◌-◌, ◌<◌, ◌==◌, ◌||◌, ◌∷◌, ◌≡◌, ◌≤◌,
  ◌⊎◌,
}
use multi_upstream_ai_gatewa.Admin.Collectability.Verdict.{active}
use multi_upstream_ai_gatewa.Admin.KeyProvision.{
  Answering, Batch, BatchRequest, ProvisionItem, batch_pass, default_creates, provision_batch,
  request_for, stops,
}
use multi_upstream_ai_gatewa.Admin.KeyQueue.Loop.{Account}
use multi_upstream_ai_gatewa.Admin.KeyQueue.Loop.Counters.{sum_of}
use multi_upstream_ai_gatewa.Collection.Import.{secret_limit}
use multi_upstream_ai_gatewa.Collection.Provision.{ProvisionRequest, ProvisionResult, asked}
use multi_upstream_ai_gatewa.Collection.Provision.Calls.{Guarded}
use multi_upstream_ai_gatewa.Collection.Provision.Outcome.{provision_keys_lem}
use multi_upstream_ai_gatewa.Collection.Provision.Purse.{Shop, provision_keys}
use multi_upstream_ai_gatewa.Collector.Errors.{Err, is}
use multi_upstream_ai_gatewa.Collector.Keys.{default_secret_limit}
use multi_upstream_ai_gatewa.Collector.Sync.{is_none}

abbrev pub created_in : List ProvisionItem → ℕ
created_in is = sum_of (λ (i : ProvisionItem). i.result.created) is

abbrev pub reads_in : List ProvisionItem → ℕ
reads_in is = sum_of (λ (i : ProvisionItem). i.result.secret_resolves) is

-- ProvisionKeys keeps to the two limits of a request, in what it sends and in what it reports; and
-- where the batch goes on, it has sent what it reports. `reads` and `creations` count what is sent.
abbrev pub Bounded : {W : Type 0} → (W → ℕ) → (W → ℕ) → Answering W → Type 0
Bounded {W} reads creations provision =
    (a : Account) (q : ProvisionRequest) (w : W)
    → 0 < q.max_creates
    → let p = provision a q w in
      let secrets = secret_limit q.max_secret_resolves in
      (p.0.created ≤ min q.max_creates secrets)
      × (p.0.secret_resolves ≤ secrets)
      × (creations p.2 ≤ creations w + min q.max_creates secrets)
      × (reads p.2 ≤ reads w + secrets)
      × (creations p.2 ≡ (if stops p.0 p.1 then creations p.2 else creations w + p.0.created))
      × (reads p.2 ≡ (if stops p.0 p.1 then reads p.2 else reads w + p.0.secret_resolves))

module _ {W : Type 0} (reads creations : W → ℕ) (provision : Answering W) (b : BatchRequest) where
  -- From the state `w` on, with so many creations and reads to go.
  abbrev Within : ℕ → ℕ → W → Batch W → Type 0
  Within makes secrets w r =
      (created_in r.0 ≤ makes)
      × (reads_in r.0 ≤ secrets)
      × (creations r.1 ≤ creations w + makes)
      × (reads r.1 ≤ reads w + secrets)

  -- What is known of one account's part, in terms of the test that ends the batch.
  abbrev Part : ℕ → ℕ → Bool → W → ProvisionResult × Option Err × W → Type 0
  Part makes secrets stop w p =
      (p.0.created ≤ makes)
      × (p.0.secret_resolves ≤ secrets)
      × (creations p.2 ≤ creations w + makes)
      × (reads p.2 ≤ reads w + secrets)
      × (creations p.2 ≡ (if stop then creations p.2 else creations w + p.0.created))
      × (reads p.2 ≡ (if stop then reads p.2 else reads w + p.0.secret_resolves))

  real-Part :
      (makes secrets : ℕ) (dry stop : Bool) (w : W) (p : ProvisionResult × Option Err × W)
      → dry ≡ false
      → Part makes secrets stop w p
      → Part makes secrets (not dry && stop) w p
  real-Part makes secrets true stop w p e h = cc e
  real-Part makes secrets false stop w p e h = h

  batch_pass-Within :
      (spent active stop spends : Bool) (a : Account) (p : ProvisionResult × Option Err × W) (w : W)
      (go : Batch W) (makes secrets : ℕ)
      → (spent ≡ false → Part makes secrets stop w p)
      → spends ≡ active
      → Within
          (if spends then makes - p.0.created else makes)
          (if spends then secrets - p.0.secret_resolves else secrets)
          (if active then p.2 else w)
          go
      → Within makes secrets w (batch_pass provision b spent active stop a p w go)
  batch_pass-Within true active stop spends a p w go makes secrets k e (x, y, z, t) =
      (zero-le, zero-le, omega arith, omega arith)
  batch_pass-Within false false stop true a p w go makes secrets k e (x, y, z, t) = cc e
  batch_pass-Within false false stop false a p w go makes secrets k e (x, y, z, t) =
      (omega (arith, x), omega (arith, y), z, t)
  batch_pass-Within false true true spends a p w go makes secrets k e (x, y, z, t) =
      let (m, n, c, d, f, g) = k refl in (omega (arith, m), omega (arith, n), c, d)
  batch_pass-Within false true false true a p w go makes secrets k e (x, y, z, t) =
      let (m, n, c, d, f, g) = k refl in
      (omega (arith, m, x), omega (arith, n, y), omega (arith, m, z, f), omega (arith, n, t, g))
  batch_pass-Within false true false false a p w go makes secrets k e (x, y, z, t) = cc e

module _ {W : Type 0} (reads creations : W → ℕ) (provision : Answering W)
    (bounded : Bounded reads creations provision) (b : BatchRequest)
    (real : b.dry_run ≡ false) where
  -- The limits of the request of an account are those of the batch, while these are not spent.
  pass-Part :
      (a : Account) (makes secrets : ℕ) (w : W)
      → (not b.dry_run && (makes == 0 || secrets == 0)) ≡ false
      → let p = provision a (request_for provision b makes secrets) w in
        Part reads creations provision b makes secrets (not b.dry_run && stops p.0 p.1) w p
  pass-Part a makes secrets w f =
      let some_creates : 0 < makes = ground (arith, f, real) in
      let same : secret_limit secrets ≡ secrets = ground (arith, f, real) in
      let (m, n, c, d, x, y) = bounded a (request_for provision b makes secrets) w some_creates in
      let p = provision a (request_for provision b makes secrets) w in
      real-Part reads creations provision b makes secrets b.dry_run (stops p.0 p.1) w p real
        (omega (arith, m), omega (arith, n, same), omega (arith, c), omega (arith, d, same), x, y)

  provision_batch-Within :
      (accounts : List Account) (makes secrets : ℕ) (w : W)
      → Within reads creations provision b makes secrets w
          (provision_batch provision b accounts makes secrets w)
  unfolding provision_batch
  provision_batch-Within [] makes secrets w = (zero-le, zero-le, omega arith, omega arith)
  provision_batch-Within (a ∷ rest) makes secrets w =
      let p = provision a (request_for provision b makes secrets) w in
      let active = a.status == "active" in
      let spends = active && not b.dry_run in
      batch_pass-Within reads creations provision b (not b.dry_run && (makes == 0 || secrets == 0))
        active (not b.dry_run && stops p.0 p.1) spends a p w
        (provision_batch provision b rest (if spends then makes - p.0.created else makes)
          (if spends then secrets - p.0.secret_resolves else secrets) (if active then p.2 else w))
        makes secrets (pass-Part a makes secrets w) (ground (arith, real))
        (provision_batch-Within rest (if spends then makes - p.0.created else makes)
          (if spends then secrets - p.0.secret_resolves else secrets) (if active then p.2 else w))

-- For each account what ProvisionKeys is called with.
pub record Desk (C S W : Type 0) : Type 0 where
  pub shop : Shop C S W
  pub family : String
  pub credential : C

abbrev pub at_desks : {C S W : Type 0} → (Account → Desk C S W) → Answering W
at_desks desks a q w = let d = desks a in provision_keys d.shop q d.family d.credential w

-- Where the batch goes on, there is no error and nothing has failed.
stops-cases :
    (r : ProvisionResult) (fault : Option Err)
    → (stops r fault ≡ true) ⊎ ((stops r fault ≡ false) × (is_none fault ≡ true) × (r.failed ≡ 0))
unfolding stops
stops-cases r none = elim (Bool-cases (ltb 0 r.failed || ltb 0 r.deferred)) [
  | inl t ↦ inl t
  | inr f ↦ inr (f, refl, ground (arith, f))
]
stops-cases r (some e) = inl refl

module _ {C S W : Type 0} (desks : Account → Desk C S W) (reads creations : W → ℕ)
    (guard : (a : Account) → Guarded (desks a).shop reads creations) where
  at_desks-Bounded : Bounded reads creations (at_desks desks)
  at_desks-Bounded a q w h =
      let d = desks a in
      let p = at_desks desks a q w in
      let (g, asked, few, most, exact, told, o, l) =
        provision_keys_lem d.shop reads creations (guard a) q h d.family d.credential w in
      elim (stops-cases p.0 p.1) [
        | inl t ↦ (omega (arith, few), told, omega (arith, asked, few), most, rw t refl, rw t refl)
        | inr (f, good, clean) ↦ (
          omega (arith, few),
          told,
          omega (arith, asked, few),
          most,
          rw f (omega (arith, asked, clean)),
          rw f (rw good at exact),
        )
      ]

  -- A batch of provisionKeys that is no dry run, over any accounts and whatever the sites and the
  -- database answer, calls CreateRemoteKey at most twenty times and ResolveKeySecret at most twenty
  -- times, failed calls included, where `creations` and `reads` count these calls; and it reports at
  -- most twenty of each.
  pub provision_batch_bounded :
      (b : BatchRequest) (accounts : List Account) (w : W)
      → b.dry_run ≡ false
      → let r =
          provision_batch (at_desks desks) b accounts default_creates default_secret_limit w in
        (created_in r.0 ≤ 20)
        × (reads_in r.0 ≤ 20)
        × (creations r.1 ≤ creations w + 20)
        × (reads r.1 ≤ reads w + 20)
  provision_batch_bounded b accounts w real =
      provision_batch-Within reads creations (at_desks desks) at_desks-Bounded b real accounts
        default_creates default_secret_limit w
