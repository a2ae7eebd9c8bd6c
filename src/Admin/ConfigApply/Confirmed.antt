-- ===== src/Admin/ConfigApply/Confirmed.antt =====
-- About what applyConfig of internal/admin/config_api.go changes for a critical parameter.
use mathlib.Core.Path.{subst}
use multi_upstream_ai_gatewa.Prelude.{
  Bool, Bool-cases, List, Option, ℕ, ap, arith, false, inl, inr, ltb, ltb-false, nat_eq, none, refl,
  some, string_eq, sym, true, ◌==◌, ◌||◌, ◌∙◌, ◌≡◌, ◌≤◌, ◌⊎◌,
}
use multi_upstream_ai_gatewa.Admin.ConfigApply.{
  ApplyFault, ApplyRequest, Config, Settings, Surroundings, answered, applied_with, apply_request,
  change_in, checked, confirmed_with, diff_in, specified,
}
use multi_upstream_ai_gatewa.Admin.Confirm.{
  Diff, TokenEntry, TokenStore, accepts, consume, diff_hash_of,
}
use multi_upstream_ai_gatewa.Admin.Confirm.Once.{
  Call, IsHistory, consume-pending, pending, tokens_after,
}
use multi_upstream_ai_gatewa.Store.Config.{Applied, ApplyResult, ConfigTable, apply_config}
use multi_upstream_ai_gatewa.Store.Config.Chain.{Effect, apply_config-Effect}

module _ (settings : Settings) (around : Surroundings) where
  answered-cases :
      (x : Applied) (tokens : TokenStore) (a : ApplyResult) (s : Config)
      → answered settings around x tokens ≡ (inl a, s)
      → (x ≡ (inl a, s.rows)) × (s.tokens ≡ tokens)
  answered-cases (inr e, rows) tokens a s h = absurd (ground (arith, h))
  answered-cases (inl b, rows) tokens a s h =
      let same : b ≡ a = ground (arith, h) in
      let left : rows ≡ s.rows = ap (λ (x : (ApplyResult ⊎ ApplyFault) × Config). x.1.rows) h in
      (rw (same, left) refl, sym (ap (λ (x : (ApplyResult ⊎ ApplyFault) × Config). x.1.tokens) h))

  applied_with-cases :
      (q : ApplyRequest) (tokens : TokenStore) (rows : ConfigTable) (a : ApplyResult) (s : Config)
      → applied_with settings around q true tokens rows ≡ (inl a, s)
      → (apply_config around.commits (change_in q true) rows ≡ (inl a, s.rows))
        × (s.tokens ≡ tokens)
  applied_with-cases q tokens rows a s h = elim (Bool-cases around.has_connection) [
    | inl b ↦
        answered-cases (apply_config around.commits (change_in q true) rows) tokens a s (rw b at h)
    | inr b ↦ absurd (ground (arith, rw b at h))
  ]

  confirmed_with-cases :
      (q : ApplyRequest) (p : Bool × TokenStore) (rows : ConfigTable) (a : ApplyResult) (s : Config)
      → confirmed_with settings around q p rows ≡ (inl a, s)
      → (p.0 ≡ true)
        × (apply_config around.commits (change_in q true) rows ≡ (inl a, s.rows))
        × (s.tokens ≡ p.1)
  confirmed_with-cases q (false, tokens) rows a s h = absurd (ground (arith, h))
  confirmed_with-cases q (true, tokens) rows a s h =
      let (applied, left) = applied_with-cases q tokens rows a s h in (refl, applied, left)

  checked-cases :
      (q : ApplyRequest) (before : Config) (a : ApplyResult) (s : Config)
      → checked settings around q true before ≡ (inl a, s)
      → ((consume settings.hashing q.confirm_token (diff_in q) around.now before.tokens).0 ≡ true)
        × (apply_config around.commits (change_in q true) before.rows ≡ (inl a, s.rows))
        × (s.tokens
            ≡ (consume settings.hashing q.confirm_token (diff_in q) around.now before.tokens).1)
        × ((q.confirm_token == "") ≡ false)
  checked-cases q before a s h = elim (Bool-cases (q.confirm_token == "")) [
    | inl b ↦ absurd (ground (arith, rw b at h))
    | inr b ↦
        (let (used, applied, left) =
            confirmed_with-cases q
              (consume settings.hashing q.confirm_token (diff_in q) around.now before.tokens)
              before.rows a s (rw b at h) in
          (used, applied, left, b))
  ]

  specified-cases :
      (q : ApplyRequest) (before : Config) (a : ApplyResult) (s : Config)
      → specified settings around q (some true) before ≡ (inl a, s)
      → ((q.changed_by == "" || q.change_reason == "") ≡ false)
        × (settings.is_valid_value q.param_key q.new_value ≡ true)
        × (checked settings around q true before ≡ (inl a, s))
  specified-cases q before a s h = elim (Bool-cases (q.changed_by == "" || q.change_reason == "")) [
    | inl b ↦ absurd (ground (arith, rw b at h))
    | inr b ↦ elim (Bool-cases (settings.is_valid_value q.param_key q.new_value)) [
      | inl v ↦ (b, v, rw (b, v) at h)
      | inr v ↦ absurd (ground (arith, rw (b, v) at h))
    ]
  ]

  accepts-cases :
      (d : Diff) (now : ℕ) (o : Option TokenEntry)
      → accepts settings.hashing d now o ≡ true
      → (e : TokenEntry) × (o ≡ some e)
        × (now ≤ e.expires_at)
        × (e.diff_hash ≡ diff_hash_of settings.hashing d)
  accepts-cases d now none h = absurd (ground (arith, h))
  accepts-cases d now (some e) h = elim (Bool-cases (ltb e.expires_at now)) [
    | inl b ↦ absurd (ground (arith, rw b at h))
    | inr b ↦ (
      e,
      refl,
      ltb-false e.expires_at now b,
      (string_eq.beq_iff e.diff_hash (diff_hash_of settings.hashing d)).0 (rw b at h),
    )
  ]

  -- If applyConfig accepts a request for a critical parameter after any history of token calls, then
  -- its token was issued for the hash of just this parameter, value and version, at most five minutes
  -- ago, and not used since; and the rows are as before, where the idempotency key was known, or have
  -- one row more, which continues the newest version, that version being the expected one (or none
  -- being expected).
  pub critical_is_confirmed :
      (q : ApplyRequest) (cs : List Call) (rows : ConfigTable) (a : ApplyResult) (s : Config)
      → settings.spec q.param_key ≡ some true
      → IsHistory around.now cs
      → apply_request settings around q
          (record { tokens = tokens_after settings.hashing cs; rows = rows })
        ≡ (inl a, s)
      → ((e : TokenEntry) × (pending settings.hashing q.confirm_token cs ≡ some e)
          × (around.now ≤ e.expires_at)
          × (e.diff_hash ≡ diff_hash_of settings.hashing (diff_in q)))
        × Effect (change_in q true) rows (inl a, s.rows)
  unfolding apply_request
  critical_is_confirmed q cs rows a s critical history h =
      let before : Config = record { tokens = tokens_after settings.hashing cs; rows = rows } in
      let (reason, right, passed) = specified-cases q before a s (rw critical at h) in
      let (used, applied, left, named) = checked-cases q before a s passed in
      let accepted =
        sym (consume-pending settings.hashing cs q.confirm_token (diff_in q) around.now history)
        ∙ used in
      (
        accepts-cases (diff_in q) around.now (pending settings.hashing q.confirm_token cs) accepted,
        subst (Effect (change_in q true) rows) applied
            (apply_config-Effect around.commits (change_in q true) rows),
      )
