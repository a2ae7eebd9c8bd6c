-- ===== src/Collection/Import.antt =====
-- ImportKeys of internal/collection/runner.go. `C` is a credential and `S` a session; the timeout,
-- logging and the texts of most errors are left out.
pub mod Limits
pub mod Reads
use multi_upstream_ai_gatewa.Prelude.{
  Bool, List, Option, String, ℕ, [], false, if◌then◌else◌, inl, inr, nat_eq, none, some, string_eq,
  true, ◌==◌, ◌∷◌, ◌⊎◌,
}
use multi_upstream_ai_gatewa.Collection.Runner.{
  Calls, FetchedKey, import_fetched_keys, merge_key_import_result,
}
use multi_upstream_ai_gatewa.Collector.Errors.{Err, precondition, sentinel, text, wrap}
use multi_upstream_ai_gatewa.Collector.Keys.{KeyImportResult, default_secret_limit, no_result}
use multi_upstream_ai_gatewa.Collector.Registry.{Registration, lookup_family}
use multi_upstream_ai_gatewa.Prelude.Dict.{Dict}

-- What ImportKeys calls: the lock of the channel, the authenticator, the adapter and the database.
pub record Reader (C S W : Type 0) : Type 0 where
  pub lock : W → Option Err × W
  pub resolves : Bool
  pub renew : C → W → (C ⊎ Err) × W
  pub login : C → W → (S ⊎ Err) × W
  pub fetch_keys : S → W → (List FetchedKey ⊎ Err) × W
  pub known : C → W → (Dict String ℕ ⊎ Err) × W
  pub calls : C → S → Calls W

-- A result, the error beside it, *remainingSecrets, and the state.
abbrev pub Imported : Type 0 → Type 0
Imported W = KeyImportResult × Option Err × ℕ × W

abbrev pub secret_limit : ℕ → ℕ
secret_limit n = if n == 0 then default_secret_limit else n

module _ {C S W : Type 0} (r : Reader C S W) where
  abbrev pub import_listed : C → S → ℕ → List FetchedKey ⊎ Err → W → Imported W
  import_listed c s left (inr e) w = (no_result, some (wrap "读取 Key 列表失败" e), left, w)
  import_listed c s left (inl ks) w = import_fetched_keys (r.calls c s) (r.known c) ks left w

  abbrev pub import_session : C → ℕ → S ⊎ Err → W → Imported W
  import_session c left (inr e) w = (no_result, some (wrap "会话鉴权失败" e), left, w)
  import_session c left (inl s) w =
      let (answer, w₁) = r.fetch_keys s w in import_listed c s left answer w₁

  abbrev pub import_renewed : ℕ → C ⊎ Err → W → Imported W
  import_renewed left (inr e) w = (no_result, some (wrap "凭证续期失败" e), left, w)
  import_renewed left (inl c) w = let (answer, w₁) = r.login c w in import_session c left answer w₁

  -- One pass of the loop over the credentials.
  unfoldable pub import_account : C → ℕ → W → Imported W
  import_account c left w = let (answer, w₁) = r.renew c w in import_renewed left answer w₁

  -- What one pass adds to the rest: the loop returns at the first error.
  abbrev pub join_pass : Imported W → Imported W → Imported W
  join_pass (got, some e, left, w) rest = (merge_key_import_result no_result got, some e, left, w)
  join_pass (got, none, left, w) (more, fault, left', w') =
      (merge_key_import_result got more, fault, left', w')

  unfoldable pub import_accounts : List C → ℕ → W → Imported W
  import_accounts [] left w = (no_result, none, left, w)
  import_accounts (c ∷ cs) left w =
      let p = import_account c left w in join_pass p (import_accounts cs p.2 p.3)

  abbrev refused : Err → W → Imported W
  refused e w = (no_result, some e, 0, w)

  abbrev pub import_adapter : List C → ℕ → Option Registration → Bool → W → Imported W
  import_adapter cs limit none resolves w = refused (wrap "渠道站型无对应适配器" (sentinel precondition)) w
  import_adapter cs limit (some g) false w = refused (text "站型不支持自动读取 Key 明文") w
  import_adapter cs limit (some g) true w = import_accounts cs (secret_limit limit) w

  abbrev pub import_locked : List C → String → ℕ → Option Err → W → Imported W
  import_locked cs family limit (some e) w = refused e w
  import_locked cs family limit none w = import_adapter cs limit (lookup_family family) r.resolves w

  unfoldable pub import_keys : List C → String → ℕ → W → Imported W
  import_keys [] family limit w = refused (wrap "没有可用采集凭证" (sentinel precondition)) w
  import_keys (c ∷ cs) family limit w =
      let (answer, w₁) = r.lock w in import_locked (c ∷ cs) family limit answer w₁
