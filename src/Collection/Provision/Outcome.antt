-- ===== src/Collection/Provision/Outcome.antt =====
-- About what ProvisionKeys of internal/collection/runner.go returns.
use Prim.Native.Nat.{zero-le}
use multi_upstream_ai_gatewa.Prelude.{
  Bool, Option, String, ℕ, arith, false, if◌then◌else◌, inl, inr, min, none, not, refl, some, true,
  ◌&&◌, ◌+◌, ◌<◌, ◌∙◌, ◌≡◌, ◌≤◌, ◌⊎◌,
}
use multi_upstream_ai_gatewa.Collection.Import.{secret_limit}
use multi_upstream_ai_gatewa.Collection.Provision.{
  ProvisionRequest, ProvisionResult, asked, empty_result, provision_remote_keys,
}
use multi_upstream_ai_gatewa.Collection.Provision.Budget.{Thrifty, on_discovered-Capped, thrifty}
use multi_upstream_ai_gatewa.Collection.Provision.Calls.{
  Guarded, Metered, Told, provisioner-Metered, provisioner-Steady,
}
use multi_upstream_ai_gatewa.Collection.Provision.Creations.{provision_remote_keys-Planned}
use multi_upstream_ai_gatewa.Collection.Provision.Purse.{
  Purse, Shop, first_purse, provision_keys, provision_renewed, provision_session, provisioner,
}
use multi_upstream_ai_gatewa.Collection.Provision.State.{provision_remote_keys-Keeps}
use multi_upstream_ai_gatewa.Collection.Provision.Steady.{Unless, provision_remote_keys-Spent}
use multi_upstream_ai_gatewa.Collector.Errors.{Err, precondition, sentinel, text, wrap}
use multi_upstream_ai_gatewa.Collector.Registry.{lookup_family}
use multi_upstream_ai_gatewa.Collector.Sync.{is_none}

-- The groups add up; no more creations are sent than allowed, and each is reported as created or
-- failed; no more reads are sent than allowed, and without an error they are those that are reported;
-- no group is counted twice; and all are counted where there is no error and no dry run.
abbrev pub Promised :
    {W : Type 0}
    → (W → ℕ)
    → (W → ℕ)
    → ProvisionRequest
    → W
    → ProvisionResult × Option Err × W
    → Type 0
Promised reads creations q before (r, fault, w) =
    (r.existing_groups + r.would_create ≡ r.matched_groups)
    × (creations w ≡ creations before + r.created + r.failed)
    × (r.created + r.failed ≤ min q.max_creates (secret_limit q.max_secret_resolves))
    × (reads w ≤ reads before + secret_limit q.max_secret_resolves)
    × ((if is_none fault then reads w else reads before + r.secret_resolves)
        ≡ reads before + r.secret_resolves)
    × (r.secret_resolves ≤ secret_limit q.max_secret_resolves)
    × (r.created + r.failed + r.deferred ≤ r.would_create)
    × ((if is_none fault && not q.dry_run then r.created + r.deferred else r.would_create)
        ≡ r.would_create)

module _ {C S W : Type 0} (shop : Shop C S W) (reads creations : W → ℕ)
    (guard : Guarded shop reads creations) (q : ProvisionRequest)
    (positive : 0 < q.max_creates) where
  empty-Promised :
      (fault : Err) (before w : W)
      → reads w ≡ reads before
      → creations w ≡ creations before
      → Promised reads creations q before (empty_result, some fault, w)
  empty-Promised fault before w a b =
      (refl, omega (arith, b), zero-le, omega (arith, a), omega arith, zero-le, zero-le, refl)

  reads-exact :
      (s : S) (limit m : ℕ) (fault : Option Err) (v : Purse W)
      → reads v.after + v.left ≡ m + limit
      → Unless
          (provisioner shop q s)
          (λ v. creations v.after)
          (Told shop reads creations guard q s (m + limit) limit)
          fault
          v
      → (if is_none fault then reads v.after else m + v.reads) ≡ m + v.reads
  reads-exact s limit m none v a b = omega (arith, a, b)
  reads-exact s limit m (some e) v a b = refl

  session-Promised :
      (before : W) (answer : S ⊎ Err) (w : W)
      → reads w ≡ reads before
      → creations w ≡ creations before
      → Promised reads creations q before (provision_session shop q answer w)
  session-Promised before (inr e) w a b = empty-Promised (text "会话鉴权失败") before w a b
  session-Promised before (inl s) w a b =
      let limit = secret_limit q.max_secret_resolves in
      let p = provisioner shop q s in
      let v = first_purse shop q w in
      let total = reads before + limit in
      let keeps = thrifty shop q s limit q.max_creates in
      let start : Thrifty shop q s limit q.max_creates v = (omega arith, positive, omega arith) in
      let plan =
        provision_remote_keys-Planned p (Thrifty shop q s limit q.max_creates) keeps q
          (min q.max_creates limit) (on_discovered-Capped shop q s limit q.max_creates) v start in
      let spent =
        provision_remote_keys-Keeps p (Thrifty shop q s limit q.max_creates) keeps q v start in
      let metered =
        provision_remote_keys-Keeps p (Metered shop reads creations guard q s total limit)
          (provisioner-Metered shop reads creations guard q s total limit) q v (omega (arith, a)) in
      let (asked, told) =
        provision_remote_keys-Spent p (λ v. creations v.after)
          (Told shop reads creations guard q s total limit)
          (provisioner-Steady shop reads creations guard q s total limit) q v (omega arith) in
      let i = provision_remote_keys p q v in
      (
        plan.groups,
        omega (arith, asked, b),
        plan.creates,
        omega (arith, metered),
        reads-exact s limit (reads before) i.1 i.2 metered told,
        omega (arith, spent.0),
        plan.once,
        plan.all,
      )

  renewed-Promised :
      (before : W) (answer : C ⊎ Err) (w : W)
      → reads w ≡ reads before
      → creations w ≡ creations before
      → Promised reads creations q before (provision_renewed shop q answer w)
  renewed-Promised before (inr e) w a b = empty-Promised (text "凭证续期失败") before w a b
  renewed-Promised before (inl c) w a b =
      let (answer, w₁) = shop.login c w in
      session-Promised before answer w₁ (guard.login_reads c w ∙ a) (guard.login_creates c w ∙ b)

  if-Promised :
      (before : W) (b : Bool) (x y : ProvisionResult × Option Err × W)
      → Promised reads creations q before x
      → Promised reads creations q before y
      → Promised reads creations q before (if b then x else y)
  if-Promised before true x y h g = h
  if-Promised before false x y h g = g

  -- If MaxCreates is positive, and where the state counts the calls of ResolveKeySecret and of
  -- CreateRemoteKey, failed calls included: ProvisionKeys calls CreateRemoteKey no more often than
  -- MaxCreates and than secrets may be read, each call being reported as created or failed; it calls
  -- ResolveKeySecret no more often than secrets may be read, and without an error as often as it
  -- reports; existing and lacking groups add up to the matched ones; no group is counted twice; and
  -- without an error and a dry run each lacking group is created or deferred.
  pub provision_keys_lem :
      (family : String) (c : C) (w : W)
      → Promised reads creations q w (provision_keys shop q family c w)
  unfolding provision_keys
  provision_keys_lem family c w =
      let (answer, w₁) = shop.renew c w in
      if-Promised w (not (shop.has_token c)) _ _
        (empty-Promised (wrap "没有访问令牌" (sentinel precondition)) w w refl refl)
        (if-Promised w (is_none (lookup_family family)) _ _
          (empty-Promised (wrap "渠道站型无对应适配器" (sentinel precondition)) w w refl refl)
          (if-Promised w (not shop.resolves) _ _
            (empty-Promised (text "站型不支持自动读取 Key 明文") w w refl refl)
            (renewed-Promised w answer w₁ (guard.renew_reads c w) (guard.renew_creates c w))))
