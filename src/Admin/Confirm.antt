-- ===== src/Admin/Confirm.antt =====
-- internal/admin/confirm.go: tokens that confirm one change of the configuration. The hash and the
-- printing of numbers are arguments; a failing random source gives no token.
use Prim.Native.String.{◌++◌ as ◌<>◌}
pub mod Once
use multi_upstream_ai_gatewa.Prelude.{
  Bool, Option, String, ℕ, false, if◌then◌else◌, ltb, nat_eq, none, not, some, string_eq, ◌*◌, ◌+◌,
  ◌==◌,
}
use multi_upstream_ai_gatewa.Collector.Registry.{second}
use multi_upstream_ai_gatewa.Prelude.Dict.{Dict, delete, insert, lookup, retain}

abbrev pub confirm_ttl : ℕ
confirm_ttl = 300 * second

pub record TokenEntry : Type 0 where
  pub diff_hash : String
  pub expires_at : ℕ

abbrev pub TokenStore : Type 0
TokenStore = Dict String TokenEntry

-- What a token confirms: the parameter, its new value and the version it is based on.
pub record Diff : Type 0 where
  pub param_key : String
  pub new_value : String
  pub expected_version : ℕ

-- hex.EncodeToString of sha256.Sum256, and the printing of %d.
pub record Hashing : Type 0 where
  pub sha256_hex : String → String
  pub decimal : ℕ → String

unfoldable pub diff_hash_of : Hashing → Diff → String
diff_hash_of lib d =
    lib.sha256_hex
      (d.param_key <> ("\0" <> (d.new_value <> ("\0" <> lib.decimal d.expected_version))))

-- now.After(v.expiresAt)
abbrev pub is_expired : ℕ → Option TokenEntry → Bool
is_expired now none = false
is_expired now (some e) = ltb e.expires_at now

unfoldable pub prune_locked : ℕ → TokenStore → TokenStore
prune_locked now tokens = retain (λ (k : String). not (is_expired now (lookup k tokens))) tokens

module _ (lib : Hashing) where
  abbrev pub new_entry : Diff → ℕ → TokenEntry
  new_entry d now = record { diff_hash = diff_hash_of lib d; expires_at = now + confirm_ttl }

  unfoldable pub issue : Option String → Diff → ℕ → TokenStore → Option String × TokenStore
  issue none d now tokens = (none, tokens)
  issue (some tok) d now tokens = (some tok, insert tok (new_entry d now) (prune_locked now tokens))

  abbrev pub accepts : Diff → ℕ → Option TokenEntry → Bool
  accepts d now none = false
  accepts d now (some e) = if ltb e.expires_at now then false else e.diff_hash == diff_hash_of lib d

  abbrev pub redeem : String → Diff → ℕ → TokenStore → Option TokenEntry → Bool × TokenStore
  redeem tok d now tokens none = (false, tokens)
  redeem tok d now tokens (some e) = (accepts d now (some e), delete tok tokens)

  unfoldable pub consume : String → Diff → ℕ → TokenStore → Bool × TokenStore
  consume tok d now tokens = redeem tok d now tokens (lookup tok tokens)
