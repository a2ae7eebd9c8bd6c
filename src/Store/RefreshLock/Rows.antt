-- ===== src/Store/RefreshLock/Rows.antt =====
-- About the rows that saveRefreshed of internal/store/credentials.go writes.
use multi_upstream_ai_gatewa.Prelude.{
  Bool-cases, List, Option, Option-cases, String, ℕ, [], any, arith, beq_refl, inl, inr,
  nat_beq_iff, nat_eq, none, refl, some, string_eq, sym, true, ◌==◌, ◌∙◌, ◌∷◌, ◌≡◌, ◌⊎◌,
}
use multi_upstream_ai_gatewa.Collector.Auth.{TokenCredential}
use multi_upstream_ai_gatewa.Prelude.Dict.{lookup}
use multi_upstream_ai_gatewa.Store.Cipher.{Aead, CipherError}
use multi_upstream_ai_gatewa.Store.Cipher.Roundtrip.{
  Filling, Lawful, open_credential-seal_credential,
}
use multi_upstream_ai_gatewa.Store.RefreshLock.{
  CredentialRow, Rows, Sealing, both, coalesce, credentials_table, load_by_account, new_row,
  open_field, put_row, renew_row, save_refreshed, save_rows, saved_all, scan_credential, scanned,
  seal_field, seal_tokens, shares, written_row,
}

module _ (env : Sealing) where
  put_row-cases :
      (id : ℕ) (x : CredentialRow ⊎ CipherError) (y : Rows ⊎ CipherError) (new : Rows)
      → put_row env id x y ≡ inl new
      → (r : CredentialRow) × (rest : Rows) × (x ≡ inl r) × (y ≡ inl rest) × (new ≡ (id, r) ∷ rest)
  put_row-cases id (inr e) y new h = absurd (ground (arith, h))
  put_row-cases id (inl r) (inr e) new h = absurd (ground (arith, h))
  put_row-cases id (inl r) (inl rest) new h = (r, rest, refl, refl, ground (arith, h))

  -- Each row that was there is there again, written anew where it shares the key.
  lookup-save_rows :
      (key : String) (fresh : TokenCredential) (id : ℕ) (r : CredentialRow) (rows new : Rows)
      → save_rows env key fresh rows ≡ inl new
      → lookup id rows ≡ some r
      → (r' : CredentialRow) × (new_row env key fresh id r ≡ inl r') × (lookup id new ≡ some r')
  unfolding save_rows lookup
  lookup-save_rows key fresh id r [] new e h = absurd (ground (arith, h))
  lookup-save_rows key fresh id r ((j, s) ∷ rows) new e h =
      let (s', rest, one, more, same) =
        put_row-cases j (new_row env key fresh j s) (save_rows env key fresh rows) new e in
      elim (Bool-cases (j == id)) [
        | inl b ↦
            (let at_id : j ≡ id = (nat_beq_iff j id).0 b in
              let found : s ≡ r = ground (arith, h, b) in
              (s', rw (sym at_id, sym found) one, rw (same, b) refl))
        | inr b ↦
            (let found : lookup id rows ≡ some r = ground (arith, h, b) in
              let (r', p, q) = lookup-save_rows key fresh id r rows rest more found in
              (r', p, rw (same, b) q))
      ]

  both-cases {ℓ} :
      {A : Type ℓ} (x y : A ⊎ CipherError) (a b : A)
      → both env x y ≡ inl (a, b)
      → (x ≡ inl a) × (y ≡ inl b)
  both-cases (inr e) y a b h = absurd (ground (arith, h))
  both-cases (inl x) (inr e) a b h = absurd (ground (arith, h))
  both-cases (inl x) (inl y) a b h = (ground (arith, h), ground (arith, h))

  scanned-cases :
      (id : ℕ) (r : CredentialRow) (x : (List ℕ × List ℕ) ⊎ CipherError) (old : TokenCredential)
      → scanned env id r x ≡ inl old
      → (a : List ℕ) × (b : List ℕ) × (x ≡ inl (a, b))
        × (old.family ≡ r.site_family)
        × (old.refresh_lock_key ≡ r.lock_key)
  scanned-cases id r (inr e) old h = absurd (ground (arith, h))
  scanned-cases id r (inl (a, b)) old h = (a, b, refl, cc h, cc h)

  renew_row-cases :
      (r new : CredentialRow) (fresh : TokenCredential)
      (x : (Option (List ℕ) × Option (List ℕ)) ⊎ CipherError)
      → renew_row env r fresh x ≡ inl new
      → (a : Option (List ℕ)) × (b : Option (List ℕ)) × (x ≡ inl (a, b))
        × (new ≡ written_row env r fresh a b)
  renew_row-cases r new fresh (inr e) h = absurd (ground (arith, h))
  renew_row-cases r new fresh (inl (a, b)) h = (a, b, refl, ground (arith, h))

  saved_all-cases : (x : Rows ⊎ CipherError) (new : Rows) → saved_all env x ≡ inl new → x ≡ inl new
  saved_all-cases (inr e) new h = absurd (ground (arith, h))
  saved_all-cases (inl rows) new h = ground (arith, h)

  save_refreshed-cases :
      (key : String) (fresh : TokenCredential) (rows new : Rows)
      → save_refreshed env key fresh rows ≡ inl new
      → save_rows env key fresh rows ≡ inl new
  unfolding save_refreshed
  save_refreshed-cases key fresh rows new h =
      elim (Bool-cases (any (λ (p : ℕ × CredentialRow). shares env key fresh.family p.1) rows)) [
        | inl b ↦ saved_all-cases (save_rows env key fresh rows) new (rw b at h)
        | inr b ↦ absurd (ground (arith, rw b at h))
      ]

module _ (env : Sealing) (laws : (a : Aead) → env.held ≡ some a → Lawful a)
    (fills : (id : ℕ) (field : String) → Filling (env.random id field)) where
  open_field-seal_field :
      (id : ℕ) (field : String) (plain : List ℕ) (stored : Option (List ℕ))
      → seal_field env id field plain ≡ inl stored
      → open_field env id field stored ≡ inl plain
  open_field-seal_field id field plain stored e =
      open_credential-seal_credential env.marshal (env.random id field) credentials_table id field
        env.held plain stored laws (fills id field) e

  -- The refresh token that is kept or new can be read.
  open_field-coalesce :
      (id : ℕ) (plain old : List ℕ) (new stored : Option (List ℕ))
      → seal_field env id "refresh_token" plain ≡ inl new
      → open_field env id "refresh_token" stored ≡ inl old
      → (token : List ℕ) × (open_field env id "refresh_token" (coalesce env new stored) ≡ inl token)
  open_field-coalesce id plain old none stored e h = (old, h)
  open_field-coalesce id plain old (some new) stored e h =
      (plain, open_field-seal_field id "refresh_token" plain (some new) e)

  -- A row that shares the key reads, after it is written anew, as the fresh access token and its
  -- expiry, under the same family and key.
  scan-renew_row :
      (id : ℕ) (r new : CredentialRow) (old fresh : TokenCredential)
      → scan_credential env id r ≡ inl old
      → renew_row env r fresh (seal_tokens env id fresh.access_token fresh.refresh_token) ≡ inl new
      → (token : List ℕ) × (scan_credential env id new
          ≡ inl (record {
            account_id = id;
            family = r.site_family;
            access_token = fresh.access_token;
            refresh_token = token;
            token_expires_at = fresh.token_expires_at;
            refresh_lock_key = r.lock_key;
          }))
  unfolding seal_tokens
  scan-renew_row id r new old fresh e h =
      let (a₀, t₀, p, of_family, of_key) =
        scanned-cases env id r
          (both env (open_field env id "access_token" r.access_ciphertext)
            (open_field env id "refresh_token" r.refresh_ciphertext))
          old e in
      let (x, y) =
        both-cases env (open_field env id "access_token" r.access_ciphertext)
          (open_field env id "refresh_token" r.refresh_ciphertext) a₀ t₀ p in
      let (a, t, q, written) =
        renew_row-cases env r new fresh (seal_tokens env id fresh.access_token fresh.refresh_token)
          h in
      let (sa, st) =
        both-cases env (seal_field env id "access_token" fresh.access_token)
          (seal_field env id "refresh_token" fresh.refresh_token) a t q in
      let (token, ot) = open_field-coalesce id fresh.refresh_token t₀ t r.refresh_ciphertext st y in
      let oa = open_field-seal_field id "access_token" fresh.access_token a sa in
      (token, rw (written, oa, ot) refl)

  -- After saveRefreshed, every account that shares the key and the family is read with the fresh
  -- access token and its expiry.
  pub load-save_refreshed :
      (key : String) (fresh old : TokenCredential) (id : ℕ) (rows new : Rows)
      → save_refreshed env key fresh rows ≡ inl new
      → load_by_account env id rows ≡ inl old
      → old.refresh_lock_key ≡ key
      → old.family ≡ fresh.family
      → (token : List ℕ) × (load_by_account env id new
          ≡ inl (record {
            account_id = id;
            family = fresh.family;
            access_token = fresh.access_token;
            refresh_token = token;
            token_expires_at = fresh.token_expires_at;
            refresh_lock_key = key;
          }))
  unfolding load_by_account
  load-save_refreshed key fresh old id rows new saved reading same_key same_family =
      elim (Option-cases (lookup id rows)) [
        | inl h ↦ absurd (ground (arith, rw h at reading))
        | inr (r, h) ↦
            (let scan : scan_credential env id r ≡ inl old = rw h at reading in
              let (a, t, p, of_family, of_key) =
                scanned-cases env id r
                  (both env (open_field env id "access_token" r.access_ciphertext)
                    (open_field env id "refresh_token" r.refresh_ciphertext))
                  old scan in
              let (r', rewritten, found) =
                lookup-save_rows env key fresh id r rows new
                  (save_refreshed-cases env key fresh rows new saved) h in
              let family : r.site_family ≡ fresh.family = sym of_family ∙ same_family in
              let lock : r.lock_key ≡ key = sym of_key ∙ same_key in
              let sharing : shares env key fresh.family r ≡ true =
                rw (family, lock) (ground (arith, beq_refl key, beq_refl fresh.family)) in
              let (token, read) = scan-renew_row id r r' old fresh scan (rw sharing at rewritten) in
              (token, rw found (rw (family, lock) at read)))
      ]
