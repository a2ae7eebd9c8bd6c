-- ===== src/Store/Cipher.antt =====
-- internal/store/credential_cipher.go. A byte is a number, and a string is the list of its bytes.
-- The cipher, base64, json.Marshal and the random source are arguments.
pub mod Roundtrip
use multi_upstream_ai_gatewa.Prelude.{
  List, Option, String, ℕ, [], drop, if◌then◌else◌, inl, inr, length, ltb, nat_eq, none, some,
  string_eq, take, ◌&&◌, ◌++◌, ◌+◌, ◌==◌, ◌∷◌, ◌⊎◌,
}

-- cipher.AEAD
pub record Aead : Type 0 where
  pub nonce_size : ℕ
  pub overhead : ℕ
  pub seal : List ℕ → List ℕ → List ℕ → List ℕ
  pub open_sealed : List ℕ → List ℕ → List ℕ → Option (List ℕ)

-- ErrCredentialKeyMissing, ErrCredentialDecrypt, and the other errors.
pub data CipherError : Type 0 where
  key_missing not_decrypted not_encrypted bad_key : CipherError

abbrev pub format_v1 : ℕ
format_v1 = 1

abbrev pub key_v1 : ℕ
key_v1 = 1

-- The libraries that newAESGCM calls.
pub record Crypto : Type 0 where
  pub decode : String → Option (List ℕ)
  pub new_cipher : List ℕ → Option Aead

-- newAESGCM
abbrev pub decoded_key : Crypto → Option (List ℕ) → Aead ⊎ CipherError
decoded_key lib none = inr bad_key
decoded_key lib (some raw) =
    if length raw == 32
    then elim (lib.new_cipher raw) [ none ↦ inr bad_key | some a ↦ inl a ]
    else inr bad_key

unfoldable pub new_aes_gcm : Crypto → String → Aead ⊎ CipherError
new_aes_gcm lib key = decoded_key lib (lib.decode key)

-- ConfigureCredentialKey: the new value of credentialAEAD, and the error.
unfoldable pub configure_credential_key :
    Crypto → String → Option Aead → Option Aead × Option CipherError
configure_credential_key lib key held =
    if key == ""
    then (none, none)
    else elim (new_aes_gcm lib key) [ inl a ↦ (some a, none) | inr e ↦ (held, some e) ]

-- gcmSeal; `random` answers as many bytes as it is asked for, or fails.
unfoldable pub gcm_seal : Aead → (ℕ → Option (List ℕ)) → List ℕ → List ℕ → Option (List ℕ)
gcm_seal a random plain aad = elim (random a.nonce_size) [
  | none ↦ none
  | some nonce ↦ some (nonce ++ a.seal nonce plain aad)
]

unfoldable pub gcm_open : Aead → List ℕ → List ℕ → Option (List ℕ)
gcm_open a sealed aad =
    let n = a.nonce_size in
    if ltb (length sealed) (n + a.overhead)
    then none
    else a.open_sealed (take n sealed) (drop n sealed) aad

module _ (marshal : String → ℕ → String → List ℕ) (table : String) (id : ℕ) (field : String) where
  abbrev pub credential_aad : List ℕ
  credential_aad = format_v1 ∷ key_v1 ∷ marshal table id field

  abbrev pub with_versions : Option (List ℕ) → Option (List ℕ) ⊎ CipherError
  with_versions none = inr not_encrypted
  with_versions (some sealed) = inl (some (format_v1 ∷ key_v1 ∷ sealed))

  abbrev pub seal_under :
      Option Aead → (ℕ → Option (List ℕ)) → List ℕ → Option (List ℕ) ⊎ CipherError
  seal_under none random plain = inr key_missing
  seal_under (some a) random plain = with_versions (gcm_seal a random plain credential_aad)

  -- sealCredential; `none` is a nil slice, which stands for NULL.
  unfoldable pub seal_credential :
      Option Aead → (ℕ → Option (List ℕ)) → List ℕ → Option (List ℕ) ⊎ CipherError
  seal_credential held random [] = inl none
  seal_credential held random (b ∷ bs) = seal_under held random (b ∷ bs)

  abbrev pub open_versioned : Aead → List ℕ → List ℕ ⊎ CipherError
  open_versioned a (f ∷ v ∷ sealed) =
      if f == format_v1 && v == key_v1
      then elim (gcm_open a sealed credential_aad) [ none ↦ inr not_decrypted | some p ↦ inl p ]
      else inr not_decrypted
  open_versioned a _ = inr not_decrypted

  abbrev pub open_under : Option Aead → List ℕ → List ℕ ⊎ CipherError
  open_under none encrypted = inr key_missing
  open_under (some a) encrypted = open_versioned a encrypted

  -- openCredential
  unfoldable pub open_credential : Option Aead → Option (List ℕ) → List ℕ ⊎ CipherError
  open_credential held none = inl []
  open_credential held (some encrypted) = open_under held encrypted
