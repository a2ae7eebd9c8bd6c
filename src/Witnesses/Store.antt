-- ===== src/Witnesses/Store.antt =====
-- Tests of internal/store/credential_cipher.go and of WithRefreshLock in internal/store/credentials.go.
use Prim.Native.Nat.{◌%◌}
use mathlib.Core.Path.{subst}
use multi_upstream_ai_gatewa.Prelude.{
  List, Option, String, ℕ, [], ap, arith, beq_refl, false, if◌then◌else◌, inl, length, nat_eq, none,
  refl, some, string_eq, suc, sym, true, zero, ◌+◌, ◌<◌, ◌==◌, ◌∷◌, ◌≡◌, ◌⊎◌,
}
use multi_upstream_ai_gatewa.Collection.Schedule.{key_eq}
use multi_upstream_ai_gatewa.Collector.Auth.{
  Settled, TokenCredential, ensure_fresh, needs_refresh, refresh_if_needed,
}
use multi_upstream_ai_gatewa.Collector.Errors.{Err}
use multi_upstream_ai_gatewa.Collector.Registry.{find_family, lookup_family}
use multi_upstream_ai_gatewa.Prelude.Dict.{lookup}
use multi_upstream_ai_gatewa.Store.Cipher.{
  Aead, gcm_open, gcm_seal, open_credential, seal_credential,
}
use multi_upstream_ai_gatewa.Store.Cipher.Roundtrip.{
  Filling, Lawful, open_credential-seal_credential,
}
use multi_upstream_ai_gatewa.Store.RefreshLock.{
  CredentialRow, Rows, Sealing, load_by_account, save_refreshed, save_rows, seal_tokens,
  with_refresh_lock,
}
use multi_upstream_ai_gatewa.Store.RefreshLock.Waiter.{ensured, waiter_reads_fresh}

-- A checksum of one byte, which takes the place of the tag of a cipher.
unfoldable code : List ℕ → ℕ
code [] = 0
code (x ∷ xs) = (x + code xs) % 256

abbrev open_tagged : List ℕ → List ℕ → List ℕ → Option (List ℕ)
open_tagged nonce [] aad = none
open_tagged nonce (t ∷ plain) aad = if t == code aad then some plain else none

abbrev tagging : Aead
tagging = record {
  nonce_size = 2;
  overhead = 1;
  seal = λ nonce plain aad. code aad ∷ plain;
  open_sealed = open_tagged;
}

tagging-Lawful : Lawful tagging
tagging-Lawful = record {
  undone = λ nonce plain aad. rw (beq_refl (code aad)) refl;
  longer = λ nonce plain aad. omega arith;
}

held_tagging : (a : Aead) → some tagging ≡ some a → Lawful a
held_tagging a e = let same : tagging ≡ a = ground (arith, e) in subst Lawful same tagging-Lawful

abbrev zeros : ℕ → List ℕ
zeros zero = []
zeros (suc n) = 0 ∷ zeros n

length-zeros : (n : ℕ) → length (zeros n) ≡ n
length-zeros zero = refl
length-zeros (suc n) = ap suc (length-zeros n)

abbrev random : ℕ → Option (List ℕ)
random n = some (zeros n)

random-Filling : Filling random
random-Filling n bs e =
    let same : zeros n ≡ bs = ground (arith, e) in rw (sym same) (length-zeros n)

abbrev marshal : String → ℕ → String → List ℕ
marshal table id field = id ∷ []

-- Versions, nonce, tag and text.
abbrev stored_7 : List ℕ
stored_7 = 1 ∷ 1 ∷ 0 ∷ 0 ∷ code (1 ∷ 1 ∷ 1 ∷ []) ∷ 7 ∷ []

sealed_7 : seal_credential marshal "t" 1 "f" (some tagging) random (7 ∷ []) ≡ inl (some stored_7)
unfolding seal_credential gcm_seal
sealed_7 = refl

open_credential-seal_credential_example :
    open_credential marshal "t" 1 "f" (some tagging) (some stored_7) ≡ inl (7 ∷ [])
open_credential-seal_credential_example =
    open_credential-seal_credential marshal random "t" 1 "f" (some tagging) (7 ∷ []) (some stored_7)
      held_tagging random-Filling sealed_7

-- Two accounts of one upstream user, whose token 5 has expired.
abbrev env : Sealing
env = record { held = some tagging; marshal = marshal; random = λ id field. random }

abbrev old_row : ℕ → CredentialRow
old_row id = record {
  site_family = "sub2api";
  access_ciphertext = some (1 ∷ 1 ∷ 0 ∷ 0 ∷ code (1 ∷ 1 ∷ id ∷ []) ∷ 5 ∷ []);
  refresh_ciphertext = some (1 ∷ 1 ∷ 0 ∷ 0 ∷ code (1 ∷ 1 ∷ id ∷ []) ∷ 6 ∷ []);
  expires_at = 1;
  lock_key = "k";
  is_valid = true;
}

abbrev rows : Rows
rows = (1, old_row 1) ∷ (2, old_row 2) ∷ []

abbrev old_credential : ℕ → TokenCredential
old_credential id = record {
  account_id = id;
  family = "sub2api";
  access_token = 5 ∷ [];
  refresh_token = 6 ∷ [];
  token_expires_at = 1;
  refresh_lock_key = "k";
}

-- The upstream counts its calls and gives a token for a day.
abbrev day : ℕ
day = 86400000000000

abbrev refresh : TokenCredential → ℕ → (TokenCredential ⊎ Err) × ℕ
refresh c w = (
  inl (record c { access_token = 8 ∷ []; refresh_token = 9 ∷ []; token_expires_at = day }),
  w + 1,
)

abbrev no_expiry : List ℕ → Option ℕ
no_expiry token = none

abbrev first : Settled Rows ℕ
first = ensured env no_expiry refresh "k" (old_credential 1) 2 3 rows 0

abbrev saved : Rows
saved = first.2

abbrev fresh : TokenCredential
fresh = record (old_credential 1) {
  access_token = 8 ∷ [];
  refresh_token = 9 ∷ [];
  token_expires_at = day;
}

refreshed_once : first ≡ (fresh, none, saved, 1)
unfolding ensure_fresh with_refresh_lock refresh_if_needed needs_refresh load_by_account
    open_credential gcm_open save_refreshed save_rows seal_tokens seal_credential gcm_seal lookup
    lookup_family find_family code
refreshed_once = refl

token_is_due : (id now : ℕ) → 0 < now → needs_refresh no_expiry (old_credential id) now ≡ true
unfolding needs_refresh lookup_family find_family
token_is_due id now h = ground (arith, h)

is_ready : needs_refresh no_expiry fresh 4 ≡ false
unfolding needs_refresh lookup_family find_family
is_ready = refl

read_1 : load_by_account env 1 rows ≡ inl (old_credential 1)
unfolding load_by_account lookup open_credential gcm_open code
read_1 = refl

read_2 : load_by_account env 2 rows ≡ inl (old_credential 2)
unfolding load_by_account lookup open_credential gcm_open code
read_2 = refl

waiter_reads_fresh_example :
    (got : TokenCredential) × (got.access_token ≡ fresh.access_token)
    × (ensured env no_expiry refresh "k" (old_credential 2) 2 4 saved 1 ≡ (got, none, saved, 1))
waiter_reads_fresh_example =
    waiter_reads_fresh env held_tagging (λ id field. random-Filling) no_expiry refresh "k"
      (old_credential 1) (old_credential 2) (old_credential 1) (old_credential 2) fresh 2 3 2 4 rows
      saved 0 1 (token_is_due 1 2 (omega arith)) read_1 (token_is_due 1 3 (omega arith))
      refreshed_once read_2 refl refl (token_is_due 2 2 (omega arith)) is_ready
