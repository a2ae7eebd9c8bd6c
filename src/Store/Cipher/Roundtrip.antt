-- ===== src/Store/Cipher/Roundtrip.antt =====
-- About what is read back from internal/store/credential_cipher.go.
use multi_upstream_ai_gatewa.Prelude.{
  List, Option, Option-cases, String, ℕ, [], arith, drop-append, false, inl, inr, length,
  length-append, ltb, none, refl, some, sym, take-append, ◌++◌, ◌+◌, ◌∷◌, ◌≡◌,
}
use multi_upstream_ai_gatewa.Store.Cipher.{
  Aead, credential_aad, format_v1, gcm_open, gcm_seal, key_v1, open_credential, seal_credential,
}

-- cipher.AEAD as it is documented: Open undoes Seal under the same nonce and additional data, and the
-- sealed text is longer by Overhead (as it is for GCM).
pub record Lawful (a : Aead) : Type 0 where
  pub undone :
      (nonce plain aad : List ℕ) → a.open_sealed nonce (a.seal nonce plain aad) aad ≡ some plain
  pub longer :
      (nonce plain aad : List ℕ) → length (a.seal nonce plain aad) ≡ length plain + a.overhead

-- rand.Read fills its buffer or fails.
abbrev pub Filling : (ℕ → Option (List ℕ)) → Type 0
Filling random = (n : ℕ) (bs : List ℕ) → random n ≡ some bs → length bs ≡ n

-- gcmOpen hands on to Open what gcmSeal got from Seal.
gcm_open-gcm_seal :
    (a : Aead) (random : ℕ → Option (List ℕ)) (plain aad other sealed : List ℕ)
    → Lawful a
    → Filling random
    → gcm_seal a random plain aad ≡ some sealed
    → (nonce : List ℕ) × (gcm_open a sealed other
        ≡ a.open_sealed nonce (a.seal nonce plain aad) other)
unfolding gcm_seal gcm_open
gcm_open-gcm_seal a random plain aad other sealed laws fills e =
    elim (Option-cases (random a.nonce_size)) [
      | inl h ↦ absurd (ground (arith, h, e))
      | inr (nonce, h) ↦
          (let body = a.seal nonce plain aad in
            let same : sealed ≡ nonce ++ body = ground (arith, h, e) in
            let size : length nonce ≡ a.nonce_size = fills a.nonce_size nonce h in
            let long : ltb (length (nonce ++ body)) (a.nonce_size + a.overhead) ≡ false =
              ground (arith, size, laws.longer nonce plain aad, length-append nonce body) in
            (nonce, rw (same, long, sym size, take-append nonce body, drop-append nonce body) refl))
    ]

module _ (marshal : String → ℕ → String → List ℕ) (random : ℕ → Option (List ℕ)) where
  -- What sealCredential stores for a secret that is not empty has the two versions in front of what
  -- gcmSeal returned, under a key that is there.
  seal_credential-cases :
      (table : String) (id : ℕ) (field : String) (held : Option Aead) (b : ℕ) (bs : List ℕ)
      (stored : Option (List ℕ))
      → seal_credential marshal table id field held random (b ∷ bs) ≡ inl stored
      → (a : Aead) × (sealed : List ℕ) × (held ≡ some a)
        × (gcm_seal a random (b ∷ bs) (credential_aad marshal table id field) ≡ some sealed)
        × (stored ≡ some (format_v1 ∷ key_v1 ∷ sealed))
  unfolding seal_credential
  seal_credential-cases table id field none b bs stored e = absurd (ground (arith, e))
  seal_credential-cases table id field (some a) b bs stored e =
      elim (Option-cases (gcm_seal a random (b ∷ bs) (credential_aad marshal table id field))) [
        | inl h ↦ absurd (ground (arith, h, e))
        | inr (sealed, h) ↦ (a, sealed, refl, h, ground (arith, h, e))
      ]

  -- If the cipher and the random source do what they document, a secret that sealCredential stores
  -- for a table, row and field is what openCredential reads back for them, also where it is empty
  -- or there is no key.
  pub open_credential-seal_credential :
      (table : String) (id : ℕ) (field : String) (held : Option Aead) (plain : List ℕ)
      (stored : Option (List ℕ))
      → ((a : Aead) → held ≡ some a → Lawful a)
      → Filling random
      → seal_credential marshal table id field held random plain ≡ inl stored
      → open_credential marshal table id field held stored ≡ inl plain
  unfolding seal_credential open_credential
  open_credential-seal_credential table id field held [] stored laws fills e =
      let same : stored ≡ none = ground (arith, e) in rw same refl
  open_credential-seal_credential table id field held (b ∷ bs) stored laws fills e =
      let (a, sealed, key, sealing, same) =
        seal_credential-cases table id field held b bs stored e in
      let aad = credential_aad marshal table id field in
      let (nonce, opening) =
        gcm_open-gcm_seal a random (b ∷ bs) aad aad sealed (laws a key) fills sealing in
      rw (same, key, opening, (laws a key).undone nonce (b ∷ bs) aad) refl
