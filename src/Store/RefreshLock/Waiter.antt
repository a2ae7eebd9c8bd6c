-- ===== src/Store/RefreshLock/Waiter.antt =====
-- About two callers of EnsureFresh (internal/collector/auth.go) that need the same lock of
-- internal/store/credentials.go.
use multi_upstream_ai_gatewa.Prelude.{
  Bool-cases, List, Option, String, ℕ, ap, arith, false, inl, inr, nat_eq, none, refl, some,
  string_eq, sym, true, ◌==◌, ◌∙◌, ◌≡◌, ◌⊎◌,
}
use multi_upstream_ai_gatewa.Collector.Auth.{
  Settled, TokenCredential, ensure_fresh, is_near_expiry, needs_refresh, refresh_if_needed, renewed,
  settled,
}
use multi_upstream_ai_gatewa.Collector.Errors.{Err}
use multi_upstream_ai_gatewa.Collector.Registry.{Registration, lookup_family}
use multi_upstream_ai_gatewa.Store.Cipher.{Aead}
use multi_upstream_ai_gatewa.Store.Cipher.Roundtrip.{Filling, Lawful}
use multi_upstream_ai_gatewa.Store.RefreshLock.{
  Rows, Sealing, after_refresh, load_by_account, save_refreshed, saved_or_not, with_refresh_lock,
}
use multi_upstream_ai_gatewa.Store.RefreshLock.Rows.{load-save_refreshed}

-- Whether a refresh is needed depends on the family, the access token and the expiry only.
is_near_expiry-same :
    (jwt_expiry : List ℕ → Option ℕ) (g : Option Registration) (c : TokenCredential) (id now : ℕ)
    (token : List ℕ) (key : String)
    → is_near_expiry jwt_expiry g
        (record c { account_id = id; refresh_token = token; refresh_lock_key = key })
        now
      ≡ is_near_expiry jwt_expiry g c now
is_near_expiry-same jwt_expiry none c id now token key = refl
is_near_expiry-same jwt_expiry (some g) c id now token key = refl

module _ {W : Type 0} (env : Sealing) (jwt_expiry : List ℕ → Option ℕ)
    (refresh : TokenCredential → W → (TokenCredential ⊎ Err) × W) where
  -- EnsureFresh over the store, where commits go through and the lock key was read as `key`.
  abbrev pub ensured : String → TokenCredential → ℕ → ℕ → Rows → W → Settled Rows W
  ensured key c now later rows w =
      ensure_fresh jwt_expiry refresh (some (with_refresh_lock env true (some key))) c now later
        rows w

  settled-cases :
      (c fresh : TokenCredential) (s : Settled Rows W) (rows : Rows) (w : W)
      → settled c s ≡ (fresh, none, rows, w)
      → s ≡ (fresh, none, rows, w)
  settled-cases c fresh (f, some e, d, v) rows w h = absurd (ground (arith, h))
  settled-cases c fresh (f, none, d, v) rows w h = h

  saved_or_not-cases :
      (current kept fresh : TokenCredential) (x : Rows ⊎ Err) (rows rows' : Rows) (w w' : W)
      → saved_or_not env true current kept rows x w ≡ (fresh, none, rows', w')
      → (x ≡ inl rows') × (kept ≡ fresh)
  saved_or_not-cases current kept fresh (inr e) rows rows' w w' h = absurd (ground (arith, h))
  saved_or_not-cases current kept fresh (inl new) rows rows' w w' h =
      (ground (arith, h), ground (arith, h))

  after_refresh-cases :
      (current fresh : TokenCredential) (key : String) (answer : (TokenCredential ⊎ Err) × W)
      (rows rows' : Rows) (w' : W)
      → after_refresh env true current key (renewed jwt_expiry refresh answer.0 answer.1) rows
        ≡ (fresh, none, rows', w')
      → save_refreshed env key fresh rows ≡ inl rows'
  after_refresh-cases current fresh key (inr e, v) rows rows' w' h = absurd (ground (arith, h))
  after_refresh-cases current fresh key (inl new, v) rows rows' w' h =
      let kept : TokenCredential = record new { refresh_lock_key = key } in
      let (a, b) =
        saved_or_not-cases current kept fresh (save_refreshed env key kept rows) rows rows' v w'
          h in
      ap (λ f. save_refreshed env key f rows) (sym b) ∙ a

  -- A call that refreshed and returned no error has saved what it returned.
  ensured-saved :
      (key : String) (c current fresh : TokenCredential) (now later : ℕ) (rows rows' : Rows)
      (w w' : W)
      → needs_refresh jwt_expiry c now ≡ true
      → load_by_account env c.account_id rows ≡ inl current
      → needs_refresh jwt_expiry current later ≡ true
      → ensured key c now later rows w ≡ (fresh, none, rows', w')
      → (save_refreshed env key fresh rows ≡ inl rows') × ((key == "") ≡ false)
  unfolding ensure_fresh with_refresh_lock refresh_if_needed
  ensured-saved key c current fresh now later rows rows' w w' due reading still h =
      let locked =
        settled-cases c fresh
          (with_refresh_lock env true (some key) c (refresh_if_needed jwt_expiry refresh later) rows
            w)
          rows' w' (rw due at h) in
      elim (Bool-cases (key == "")) [
        | inl b ↦ absurd (ground (arith, rw b at locked))
        | inr b ↦ elim (Bool-cases (current.refresh_lock_key == key)) [
          | inl d ↦ (
            after_refresh-cases current fresh key (refresh current w) rows rows' w'
                (rw (b, reading, d, still) at locked),
            b,
          )
          | inr d ↦ absurd (ground (arith, rw (b, reading, d) at locked))
        ]
      ]

  -- A call that finds a fresh credential under the lock changes nothing and returns it.
  ensured-found :
      (key : String) (c current : TokenCredential) (now later : ℕ) (rows : Rows) (w : W)
      → needs_refresh jwt_expiry c now ≡ true
      → (key == "") ≡ false
      → load_by_account env c.account_id rows ≡ inl current
      → current.refresh_lock_key ≡ key
      → needs_refresh jwt_expiry current later ≡ false
      → ensured key c now later rows w ≡ (current, none, rows, w)
  unfolding ensure_fresh with_refresh_lock refresh_if_needed
  ensured-found key c current now later rows w due named reading same fresh =
      let matches : (current.refresh_lock_key == key) ≡ true =
        (string_eq.beq_iff current.refresh_lock_key key).1 same in
      rw (due, named, reading, matches, fresh) refl

module _ {W : Type 0} (env : Sealing) (laws : (a : Aead) → env.held ≡ some a → Lawful a)
    (fills : (id : ℕ) (field : String) → Filling (env.random id field))
    (jwt_expiry : List ℕ → Option ℕ)
    (refresh : TokenCredential → W → (TokenCredential ⊎ Err) × W) where
  -- Once a call of EnsureFresh has refreshed under a lock key without an error, a later caller for any
  -- account with that key and family, who is still under the impression that a refresh is needed,
  -- gets the new access token and causes no call to the upstream and no change of the rows, as long
  -- as the new token is not near its expiry when he has the lock. The cipher and the random source
  -- do what they document, and commits go through.
  pub waiter_reads_fresh :
      (key : String) (c c' current current' fresh : TokenCredential) (now later now' later' : ℕ)
      (rows rows' : Rows) (w w' : W)
      → needs_refresh jwt_expiry c now ≡ true
      → load_by_account env c.account_id rows ≡ inl current
      → needs_refresh jwt_expiry current later ≡ true
      → ensured env jwt_expiry refresh key c now later rows w ≡ (fresh, none, rows', w')
      → load_by_account env c'.account_id rows ≡ inl current'
      → current'.refresh_lock_key ≡ key
      → current'.family ≡ fresh.family
      → needs_refresh jwt_expiry c' now' ≡ true
      → needs_refresh jwt_expiry fresh later' ≡ false
      → (got : TokenCredential) × (got.access_token ≡ fresh.access_token)
        × (ensured env jwt_expiry refresh key c' now' later' rows' w' ≡ (got, none, rows', w'))
  unfolding needs_refresh
  waiter_reads_fresh key c c' current current' fresh now later now' later' rows rows' w w' due
        reading still first reading' same family due' ready =
      let (saved, named) =
        ensured-saved env jwt_expiry refresh key c current fresh now later rows rows' w w' due
          reading still first in
      let (token, read) =
        load-save_refreshed env laws fills key fresh current' c'.account_id rows rows' saved
          reading' same family in
      (
        _,
        refl,
        ensured-found env jwt_expiry refresh key c' _ now' later' rows' w' due' named read refl (
            is_near_expiry-same jwt_expiry (lookup_family fresh.family) fresh c'.account_id later'
              token key
            ∙ ready),
      )
