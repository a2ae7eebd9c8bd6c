-- ===== src/Store/RefreshLock.antt =====
-- WithRefreshLock of internal/store/credentials.go, with the reading and writing of the rows of
-- collector_credentials. What is done after pg_advisory_xact_lock is one step: it returns the rows as
-- they are after the commit, or as they were where the transaction is rolled back.
pub mod Rows
pub mod Waiter
use multi_upstream_ai_gatewa.Prelude.{
  Bool, List, Option, String, ℕ, [], any, false, if◌then◌else◌, inl, inr, nat_eq, none, some,
  string_eq, true, ◌&&◌, ◌==◌, ◌∷◌, ◌⊎◌,
}
use multi_upstream_ai_gatewa.Collector.Auth.{Locking, Refreshing, Settled, TokenCredential}
use multi_upstream_ai_gatewa.Collector.Errors.{Err, text, wrap}
use multi_upstream_ai_gatewa.Prelude.Dict.{Dict, lookup}
use multi_upstream_ai_gatewa.Store.Cipher.{Aead, CipherError, open_credential, seal_credential}

-- A row of collector_credentials; `none` and 0 stand for NULL.
pub record CredentialRow : Type 0 where
  pub site_family : String
  pub access_ciphertext : Option (List ℕ)
  pub refresh_ciphertext : Option (List ℕ)
  pub expires_at : ℕ
  pub lock_key : String
  pub is_valid : Bool

-- The rows by account_id.
abbrev pub Rows : Type 0
Rows = Dict ℕ CredentialRow

-- The key of the deployment, json.Marshal, and the random bytes for a field of an account.
pub record Sealing : Type 0 where
  pub held : Option Aead
  pub marshal : String → ℕ → String → List ℕ
  pub random : ℕ → String → ℕ → Option (List ℕ)

abbrev pub credentials_table : String
credentials_table = "collector_credentials"

module _ (env : Sealing) where
  abbrev pub open_field : ℕ → String → Option (List ℕ) → List ℕ ⊎ CipherError
  open_field id field stored =
      open_credential env.marshal credentials_table id field env.held stored

  abbrev pub seal_field : ℕ → String → List ℕ → Option (List ℕ) ⊎ CipherError
  seal_field id field plain =
      seal_credential env.marshal credentials_table id field env.held (env.random id field) plain

  abbrev pub both {ℓ} : {A : Type ℓ} → A ⊎ CipherError → A ⊎ CipherError → (A × A) ⊎ CipherError
  both (inr e) y = inr e
  both (inl a) (inr e) = inr e
  both (inl a) (inl b) = inl (a, b)

  unfoldable pub seal_tokens :
      ℕ → List ℕ → List ℕ → (Option (List ℕ) × Option (List ℕ)) ⊎ CipherError
  seal_tokens id access refresh =
      both (seal_field id "access_token" access) (seal_field id "refresh_token" refresh)

  -- scanCredential on a row.
  abbrev pub scanned : ℕ → CredentialRow → (List ℕ × List ℕ) ⊎ CipherError → TokenCredential ⊎ Err
  scanned id r (inr e) = inr (text "凭证解密失败")
  scanned id r (inl (access, refresh)) = inl (record {
    account_id = id;
    family = r.site_family;
    access_token = access;
    refresh_token = refresh;
    token_expires_at = r.expires_at;
    refresh_lock_key = r.lock_key;
  })

  abbrev pub scan_credential : ℕ → CredentialRow → TokenCredential ⊎ Err
  scan_credential id r = scanned id r (
      both (open_field id "access_token" r.access_ciphertext)
        (open_field id "refresh_token" r.refresh_ciphertext))

  abbrev pub loaded : ℕ → Option CredentialRow → TokenCredential ⊎ Err
  loaded id none = inr (text "未登记采集凭证")
  loaded id (some r) = scan_credential id r

  unfoldable pub load_by_account : ℕ → Rows → TokenCredential ⊎ Err
  load_by_account id rows = loaded id (lookup id rows)

  abbrev pub shares : String → String → CredentialRow → Bool
  shares key family r = r.lock_key == key && r.site_family == family

  -- The UPDATE of saveRefreshed; COALESCE keeps the old refresh token where there is no new one.
  abbrev pub coalesce : Option (List ℕ) → Option (List ℕ) → Option (List ℕ)
  coalesce none old = old
  coalesce (some new) old = some new

  abbrev pub written_row :
      CredentialRow → TokenCredential → Option (List ℕ) → Option (List ℕ) → CredentialRow
  written_row r fresh access refresh = record r {
    access_ciphertext = access;
    refresh_ciphertext = coalesce refresh r.refresh_ciphertext;
    expires_at = fresh.token_expires_at;
    is_valid = true;
  }

  abbrev pub renew_row :
      CredentialRow
      → TokenCredential
      → (Option (List ℕ) × Option (List ℕ)) ⊎ CipherError
      → CredentialRow ⊎ CipherError
  renew_row r fresh (inr e) = inr e
  renew_row r fresh (inl (access, refresh)) = inl (written_row r fresh access refresh)

  abbrev pub new_row : String → TokenCredential → ℕ → CredentialRow → CredentialRow ⊎ CipherError
  new_row key fresh id r =
      if shares key fresh.family r
      then renew_row r fresh (seal_tokens id fresh.access_token fresh.refresh_token)
      else inl r

  abbrev pub put_row : ℕ → CredentialRow ⊎ CipherError → Rows ⊎ CipherError → Rows ⊎ CipherError
  put_row id (inr e) rest = inr e
  put_row id (inl r) (inr e) = inr e
  put_row id (inl r) (inl rows) = inl ((id, r) ∷ rows)

  -- The loop of saveRefreshed over the rows with the key.
  unfoldable pub save_rows : String → TokenCredential → Rows → Rows ⊎ CipherError
  save_rows key fresh [] = inl []
  save_rows key fresh ((id, r) ∷ rows) =
      put_row id (new_row key fresh id r) (save_rows key fresh rows)

  abbrev pub saved_all : Rows ⊎ CipherError → Rows ⊎ Err
  saved_all (inr e) = inr (text "加密失败")
  saved_all (inl new) = inl new

  unfoldable pub save_refreshed : String → TokenCredential → Rows → Rows ⊎ Err
  save_refreshed key fresh rows =
      if any (λ (p : ℕ × CredentialRow). shares key fresh.family p.1) rows
      then saved_all (save_rows key fresh rows)
      else inr (text "刷新锁键没有关联凭证")

module _ {W : Type 0} (env : Sealing) (commits : Bool) where
  abbrev pub saved_or_not :
      TokenCredential → TokenCredential → Rows → Rows ⊎ Err → W → Settled Rows W
  saved_or_not current fresh rows (inr e) w = (current, some (wrap "刷新后保存凭证" e), rows, w)
  saved_or_not current fresh rows (inl new) w =
      if commits then (fresh, none, new, w) else (current, some (text "提交凭证刷新"), rows, w)

  abbrev pub after_refresh :
      TokenCredential → String → (TokenCredential × Bool ⊎ Err) × W → Rows → Settled Rows W
  after_refresh current key (inr e, w) rows = (current, some e, rows, w)
  after_refresh current key (inl (fresh, true), w) rows =
      let kept : TokenCredential = record fresh { refresh_lock_key = key } in
      saved_or_not current kept rows (save_refreshed env key kept rows) w
  after_refresh current key (inl (fresh, false), w) rows =
      if commits then (current, none, rows, w) else (current, some (text "提交凭证刷新"), rows, w)

  abbrev pub reloaded :
      TokenCredential → String → TokenCredential ⊎ Err → Refreshing W → Rows → W → Settled Rows W
  reloaded c key (inr e) refresh rows w = (c, some e, rows, w)
  reloaded c key (inl current) refresh rows w =
      let done = after_refresh current key (refresh current w) rows in
      if current.refresh_lock_key == key then done else (c, some (text "刷新锁键已变化"), rows, w)

  -- `seen` is the key that was read before the lock was taken, if there was a row.
  unfoldable pub with_refresh_lock : Option String → Locking Rows W
  with_refresh_lock none c refresh rows w = (c, some (text "读刷新锁键"), rows, w)
  with_refresh_lock (some key) c refresh rows w =
      let done = reloaded c key (load_by_account env c.account_id rows) refresh rows w in
      if key == "" then (c, some (text "缺 refresh_lock_key"), rows, w) else done
