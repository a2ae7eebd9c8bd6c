-- ===== src/Admin/ConfigApply/Retry.antt =====
-- About a request to applyConfig of internal/admin/config_api.go that is sent again.
use multi_upstream_ai_gatewa.Prelude.{
  Bool, Bool-cases, ap, arith, beq_refl, false, inl, inr, nat_eq, none, refl, some, string_eq, true,
  ◌==◌, ◌||◌, ◌∙◌, ◌≡◌, ◌⊎◌,
}
use multi_upstream_ai_gatewa.Admin.ConfigApply.{
  ApplyFault, ApplyRequest, Config, Settings, Surroundings, answered, apply_request, bad_token,
  change_in, confirmed_with, diff_in, no_connection, specified, store_fault,
}
use multi_upstream_ai_gatewa.Admin.Confirm.{TokenStore, consume}
use multi_upstream_ai_gatewa.Admin.Confirm.Once.{lookup-redeem}
use multi_upstream_ai_gatewa.Prelude.Dict.{lookup}
use multi_upstream_ai_gatewa.Store.Config.{Applied, ApplyResult, ConfigTable, apply_config}

-- The replies that come after the token was asked for.
abbrev pub past_token : ApplyResult ⊎ ApplyFault → Bool
past_token (inl a) = true
past_token (inr bad_token) = true
past_token (inr no_connection) = true
past_token (inr (store_fault e)) = true
past_token (inr _) = false

abbrev Reply : Type 0
Reply = (ApplyResult ⊎ ApplyFault) × Config

module _ (settings : Settings) (around : Surroundings) where
  answered-tokens :
      (x : Applied) (tokens : TokenStore) → (answered settings around x tokens).1.tokens ≡ tokens
  answered-tokens (inr e, rows) tokens = refl
  answered-tokens (inl a, rows) tokens = refl

  confirmed_with-tokens :
      (q : ApplyRequest) (p : Bool × TokenStore) (rows : ConfigTable)
      → (confirmed_with settings around q p rows).1.tokens ≡ p.1
  confirmed_with-tokens q (false, tokens) rows = refl
  confirmed_with-tokens q (true, tokens) rows = elim (Bool-cases around.has_connection) [
    | inl b ↦ rw b (answered-tokens (apply_config around.commits (change_in q true) rows) tokens)
    | inr b ↦ rw b refl
  ]

  -- A request that gets past the token leaves the tokens as consume does.
  specified-tokens :
      (q : ApplyRequest) (before : Config)
      → past_token (specified settings around q (some true) before).0 ≡ true
      → ((q.changed_by == "" || q.change_reason == "") ≡ false)
        × (settings.is_valid_value q.param_key q.new_value ≡ true)
        × ((q.confirm_token == "") ≡ false)
        × ((specified settings around q (some true) before).1.tokens
            ≡ (consume settings.hashing q.confirm_token (diff_in q) around.now before.tokens).1)
  specified-tokens q before h = elim (Bool-cases (q.changed_by == "" || q.change_reason == "")) [
    | inl b ↦ absurd (ground (arith, rw b at h))
    | inr b ↦ elim (Bool-cases (settings.is_valid_value q.param_key q.new_value)) [
      | inr v ↦ absurd (ground (arith, rw (b, v) at h))
      | inl v ↦ elim (Bool-cases (q.confirm_token == "")) [
        | inl t ↦ absurd (ground (arith, rw (b, v, t) at h))
        | inr t ↦ (
          b,
          v,
          t,
          rw (b, v, t)
              (confirmed_with-tokens q
                (consume settings.hashing q.confirm_token (diff_in q) around.now before.tokens)
                before.rows),
        )
      ]
    ]
  ]

module _ (settings : Settings) where
  -- Once a request to applyConfig for a critical parameter has got as far as its token, the same
  -- request sent again, at any time and with its idempotency key, is refused for its token and
  -- changes nothing, whether the first one was accepted or met a missing connection, a conflict of
  -- versions or a failing database.
  pub critical_retry_refused :
      (around later : Surroundings) (q : ApplyRequest) (before : Config)
      → settings.spec q.param_key ≡ some true
      → past_token (apply_request settings around q before).0 ≡ true
      → apply_request settings later q (apply_request settings around q before).1
        ≡ (inr bad_token, (apply_request settings around q before).1)
  unfolding apply_request consume
  critical_retry_refused around later q before critical h =
      let (reason, right, named, left) =
        specified-tokens settings around q before (rw critical at h) in
      let spent : lookup q.confirm_token (specified settings around q (some true) before).1.tokens
          ≡ none =
        ap (lookup q.confirm_token) left
        ∙ lookup-redeem settings.hashing q.confirm_token q.confirm_token (diff_in q) around.now
            before.tokens (lookup q.confirm_token before.tokens) refl
        ∙ rw (beq_refl q.confirm_token) refl in
      rw critical
        (refused (specified settings around q (some true) before).1 reason right named spent)
    where
      refused :
          (s : Config)
          → (q.changed_by == "" || q.change_reason == "") ≡ false
          → settings.is_valid_value q.param_key q.new_value ≡ true
          → (q.confirm_token == "") ≡ false
          → lookup q.confirm_token s.tokens ≡ none
          → specified settings later q (some true) s ≡ (inr bad_token, s)
      refused s reason right named spent = rw (reason, right, named, spent) refl
