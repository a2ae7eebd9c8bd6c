-- ===== src/Collector/Auth.antt =====
-- NeedsRefresh and EnsureFresh of internal/collector/auth.go. A token is the list of its bytes, and
-- jwtExpiry is an argument.
use multi_upstream_ai_gatewa.Prelude.{
  Bool, List, Option, String, ℕ, false, if◌then◌else◌, inl, inr, ltb, nat_eq, none, some, string_eq,
  true, ◌+◌, ◌==◌, ◌⊎◌,
}
use multi_upstream_ai_gatewa.Collector.Contract.{Family, capability_eq, family_eq, sub2api}
use multi_upstream_ai_gatewa.Collector.Errors.{Err, text, wrap}
use multi_upstream_ai_gatewa.Collector.Registry.{Registration, lookup_family}

-- The fields of Credential that the refresh reads or writes; the family is its text.
pub record TokenCredential : Type 0 where
  pub account_id : ℕ
  pub family : String
  pub access_token : List ℕ
  pub refresh_token : List ℕ
  pub token_expires_at : ℕ
  pub refresh_lock_key : String

-- TokenExpiryFrom of both registrations; `none` also where the field is nil.
abbrev pub token_expiry_from : (List ℕ → Option ℕ) → Family → List ℕ → Option ℕ
token_expiry_from jwt_expiry sub2api token = jwt_expiry token
token_expiry_from jwt_expiry _ token = none

abbrev pub or_zero : Option ℕ → ℕ
or_zero none = 0
or_zero (some n) = n

module _ (jwt_expiry : List ℕ → Option ℕ) where
  abbrev pub expiry_of : Registration → TokenCredential → ℕ
  expiry_of g c =
      if c.token_expires_at == 0
      then or_zero (token_expiry_from jwt_expiry g.family c.access_token)
      else c.token_expires_at

  abbrev pub is_near_expiry : Option Registration → TokenCredential → ℕ → Bool
  is_near_expiry none c now = false
  is_near_expiry (some g) c now =
      if g.refresh_lead == 0
      then false
      else (if expiry_of g c == 0 then false else ltb (expiry_of g c) (now + g.refresh_lead))

  unfoldable pub needs_refresh : TokenCredential → ℕ → Bool
  needs_refresh c now = is_near_expiry (lookup_family c.family) c now

-- The callback of WithRefreshLock: the credential, whether it is new, or an error. `W` is the state
-- of the upstream.
abbrev pub Refreshing : Type 0 → Type 0
Refreshing W = TokenCredential → W → (TokenCredential × Bool ⊎ Err) × W

-- The credential, the error, and the states of the database and of the upstream.
abbrev pub Settled : Type 0 → Type 0 → Type 0
Settled D W = TokenCredential × Option Err × D × W

-- CredentialStore.WithRefreshLock
abbrev pub Locking : Type 0 → Type 0 → Type 0
Locking D W = TokenCredential → Refreshing W → D → W → Settled D W

module _ {W : Type 0} (jwt_expiry : List ℕ → Option ℕ)
    (refresh : TokenCredential → W → (TokenCredential ⊎ Err) × W) where
  abbrev pub renewed : TokenCredential ⊎ Err → W → (TokenCredential × Bool ⊎ Err) × W
  renewed (inl fresh) w = (inl (fresh, true), w)
  renewed (inr e) w = (inr (wrap "续期失败" e), w)

  -- The second test, under the lock, at its own time.
  unfoldable pub refresh_if_needed : ℕ → Refreshing W
  refresh_if_needed now c w =
      let (answer, w₁) = refresh c w in
      if needs_refresh jwt_expiry c now then renewed answer w₁ else (inl (c, false), w)

module _ {D W : Type 0} where
  -- A failed refresh leaves the caller with the credential that it had.
  abbrev pub settled : TokenCredential → Settled D W → Settled D W
  settled c (fresh, some e, d, w) = (c, some e, d, w)
  settled c (fresh, none, d, w) = (fresh, none, d, w)

module _ {D W : Type 0} (jwt_expiry : List ℕ → Option ℕ)
    (refresh : TokenCredential → W → (TokenCredential ⊎ Err) × W) where
  abbrev pub with_store : Option (Locking D W) → TokenCredential → ℕ → D → W → Settled D W
  with_store none c later d w = (c, some (text "续期失败：凭证存储未配置"), d, w)
  with_store (some lock) c later d w =
      settled c (lock c (refresh_if_needed jwt_expiry refresh later) d w)

  -- EnsureFresh; `later` is the time at which it has the lock.
  unfoldable pub ensure_fresh : Option (Locking D W) → TokenCredential → ℕ → ℕ → D → W → Settled D W
  ensure_fresh store c now later d w =
      let locked = with_store store c later d w in
      if needs_refresh jwt_expiry c now then locked else (c, none, d, w)
