-- ===== src/Collection/Runner.antt =====
-- importFetchedKeys and mergeKeyImportResult of internal/collection/runner.go. `W` is the state of the
-- site and of the database; `left` is *remainingSecrets. Logging is left out.
pub mod Counts
pub mod Reads
use multi_upstream_ai_gatewa.Prelude.{
  Bool, List, Option, String, ℕ, [], false, if◌then◌else◌, inl, inr, length, nat_eq, none, not,
  some, string_eq, ◌+◌, ◌-◌, ◌==◌, ◌∷◌, ◌⊎◌,
}
use multi_upstream_ai_gatewa.Collector.Errors.{Err, http_failure}
use multi_upstream_ai_gatewa.Collector.Keys.{KeyImportResult, no_result}
use multi_upstream_ai_gatewa.Prelude.Dict.{Dict, insert, lookup}

-- The fields of Key that are read here.
pub record FetchedKey : Type 0 where
  pub key_ref : String
  pub secret : String
  pub group_ref : String

-- What the loop calls: ResolveKeySecret, importedGroupID, CreateKey and updateImportedKey.
pub record Calls (W : Type 0) : Type 0 where
  pub resolve : String → W → (String ⊎ Err) × W
  pub group_id : String → W → (Option ℕ ⊎ Err) × W
  pub create_key : String → String → Option ℕ → W → (ℕ ⊎ Err) × W
  pub update_key : ℕ → FetchedKey → W → Option Err × W

-- What one pass of the loop counts; `deferring` ends the loop.
pub data Verdict : Type 0 where
  failing skipping importing deferring : Verdict

pub record Pass (W : Type 0) : Type 0 where
  pub verdict : Verdict
  pub reads : ℕ
  pub existing : Dict String ℕ
  pub left : ℕ
  pub after : W

abbrev is_rate_limit : Option (ℕ × ℕ) → Bool
is_rate_limit none = false
is_rate_limit (some (status, _)) = status == 429

module _ {W : Type 0} (calls : Calls W) where
  -- updateImportedKey, and what its success counts as.
  abbrev pub finish_key : Verdict → ℕ → FetchedKey → ℕ → Dict String ℕ → ℕ → W → Pass W
  finish_key good id k reads existing left w =
      let (answer, w₁) = calls.update_key id k w in
      record {
        verdict = elim answer [ none ↦ good | some e ↦ failing ];
        reads = reads;
        existing = existing;
        left = left;
        after = w₁;
      }

  abbrev stop : Verdict → ℕ → Dict String ℕ → ℕ → W → Pass W
  stop v reads existing left w = record {
    verdict = v;
    reads = reads;
    existing = existing;
    left = left;
    after = w;
  }

  abbrev pub created : FetchedKey → ℕ → Dict String ℕ → ℕ → ℕ ⊎ Err → W → Pass W
  created k reads existing left (inr e) w = stop failing reads existing left w
  created k reads existing left (inl id) w =
      finish_key importing id k reads (insert k.key_ref id existing) left w

  abbrev pub grouped : FetchedKey → String → ℕ → Dict String ℕ → ℕ → Option ℕ ⊎ Err → W → Pass W
  grouped k secret reads existing left (inr e) w = stop failing reads existing left w
  grouped k secret reads existing left (inl g) w =
      let (answer, w₁) = calls.create_key secret k.key_ref g w in
      created k reads existing left answer w₁

  -- From importedGroupID on.
  abbrev pub register : FetchedKey → String → ℕ → Dict String ℕ → ℕ → W → Pass W
  register k secret reads existing left w =
      let (answer, w₁) = calls.group_id k.group_ref w in
      grouped k secret reads existing left answer w₁

  abbrev pub resolved : FetchedKey → Dict String ℕ → ℕ → String ⊎ Err → W → Pass W
  resolved k existing left (inl secret) w = register k secret 1 existing left w
  resolved k existing left (inr e) w =
      stop (if is_rate_limit (http_failure e) then deferring else failing) 1 existing left w

  -- A key that is not registered here.
  abbrev pub fresh_key : FetchedKey → Dict String ℕ → ℕ → W → Pass W
  fresh_key k existing left w =
      if not (k.secret == "")
      then register k k.secret 0 existing left w
      else if left == 0
      then stop deferring 0 existing left w
      else (let (answer, w₁) = calls.resolve k.key_ref w in
          resolved k existing (left - 1) answer w₁)

  abbrev pub known_or_fresh : FetchedKey → Dict String ℕ → ℕ → W → Option ℕ → Pass W
  known_or_fresh k existing left w (some id) = finish_key skipping id k 0 existing left w
  known_or_fresh k existing left w none = fresh_key k existing left w

  -- One pass of the loop.
  unfoldable pub import_key : FetchedKey → Dict String ℕ → ℕ → W → Pass W
  import_key k existing left w =
      if k.key_ref == ""
      then stop failing 0 existing left w
      else known_or_fresh k existing left w (lookup k.key_ref existing)

  abbrev pub count : Verdict → KeyImportResult → KeyImportResult
  count failing r = record r { failed = r.failed + 1 }
  count skipping r = record r { skipped = r.skipped + 1 }
  count importing r = record r { imported = r.imported + 1 }
  count deferring r = r

  abbrev pub read_more : ℕ → KeyImportResult → KeyImportResult
  read_more n r = record r { secret_resolves = n + r.secret_resolves }

  -- The end of one pass: the loop goes on, or puts the remaining keys off.
  abbrev pub count_pass : ℕ → Pass W → Verdict → KeyImportResult × ℕ × W → KeyImportResult × ℕ × W
  count_pass n p deferring rest =
      (read_more p.reads (record no_result { deferred = n }), p.left, p.after)
  count_pass n p failing (r, left, w) = (read_more p.reads (count failing r), left, w)
  count_pass n p skipping (r, left, w) = (read_more p.reads (count skipping r), left, w)
  count_pass n p importing (r, left, w) = (read_more p.reads (count importing r), left, w)

  -- The loop: the counts and *remainingSecrets afterwards.
  unfoldable pub import_loop : List FetchedKey → Dict String ℕ → ℕ → W → KeyImportResult × ℕ × W
  import_loop [] existing left w = (no_result, left, w)
  import_loop (k ∷ ks) existing left w =
      let p = import_key k existing left w in
      count_pass (length (k ∷ ks)) p p.verdict (import_loop ks p.existing p.left p.after)

  -- What follows KeyRefIndex.
  abbrev pub import_known :
      List FetchedKey → ℕ → Dict String ℕ ⊎ Err → W → KeyImportResult × Option Err × ℕ × W
  import_known ks left (inr e) w = (record no_result { found = length ks }, some e, left, w)
  import_known ks left (inl existing) w =
      let (r, left', w') = import_loop ks existing left w in
      (record r { found = length ks }, none, left', w')

  unfoldable pub import_fetched_keys :
      (W → (Dict String ℕ ⊎ Err) × W)
      → List FetchedKey
      → ℕ
      → W
      → KeyImportResult × Option Err × ℕ × W
  import_fetched_keys key_ref_index ks left w =
      let (answer, w₁) = key_ref_index w in import_known ks left answer w₁

unfoldable pub merge_key_import_result : KeyImportResult → KeyImportResult → KeyImportResult
merge_key_import_result dst src = record {
  found = dst.found + src.found;
  imported = dst.imported + src.imported;
  skipped = dst.skipped + src.skipped;
  failed = dst.failed + src.failed;
  deferred = dst.deferred + src.deferred;
  secret_resolves = dst.secret_resolves + src.secret_resolves;
}
