-- ===== src/Collection/Runner/Counts.antt =====
-- About the counts and the reads of importFetchedKeys in internal/collection/runner.go.
use multi_upstream_ai_gatewa.Prelude.{
  Bool-cases, List, Option, String, ℕ, [], arith, if◌then◌else◌, inl, inr, length, nat_eq, none,
  refl, some, string_eq, suc, ◌+◌, ◌-◌, ◌==◌, ◌∷◌, ◌≡◌, ◌⊎◌,
}
use multi_upstream_ai_gatewa.Collection.Runner.{
  Calls, FetchedKey, Pass, Verdict, count_pass, created, deferring, failing, fresh_key, grouped,
  import_fetched_keys, import_key, import_known, import_loop, importing, known_or_fresh, register,
  resolved, skipping,
}
use multi_upstream_ai_gatewa.Collector.Errors.{Err}
use multi_upstream_ai_gatewa.Collector.Keys.{KeyImportResult}
use multi_upstream_ai_gatewa.Collector.Sync.{is_none}
use multi_upstream_ai_gatewa.Prelude.Dict.{Dict, lookup}

-- The counts of a result.
abbrev pub accounted : KeyImportResult → ℕ
accounted r = r.imported + r.skipped + r.failed + r.deferred

module _ {W : Type 0} (calls : Calls W) where
  created_budget :
      (k : FetchedKey) (reads : ℕ) (ex : Dict String ℕ) (left : ℕ) (answer : ℕ ⊎ Err) (w : W)
      → ((created calls k reads ex left answer w).left ≡ left)
        × ((created calls k reads ex left answer w).reads ≡ reads)
  created_budget k reads ex left (inl id) w = (refl, refl)
  created_budget k reads ex left (inr e) w = (refl, refl)

  grouped_budget :
      (k : FetchedKey) (secret : String) (reads : ℕ) (ex : Dict String ℕ) (left : ℕ)
      (answer : Option ℕ ⊎ Err) (w : W)
      → ((grouped calls k secret reads ex left answer w).left ≡ left)
        × ((grouped calls k secret reads ex left answer w).reads ≡ reads)
  grouped_budget k secret reads ex left (inl g) w =
      let (answer, w₁) = calls.create_key secret k.key_ref g w in
      created_budget k reads ex left answer w₁
  grouped_budget k secret reads ex left (inr e) w = (refl, refl)

  pub register_budget :
      (k : FetchedKey) (secret : String) (reads : ℕ) (ex : Dict String ℕ) (left : ℕ) (w : W)
      → ((register calls k secret reads ex left w).left ≡ left)
        × ((register calls k secret reads ex left w).reads ≡ reads)
  register_budget k secret reads ex left w =
      let (answer, w₁) = calls.group_id k.group_ref w in
      grouped_budget k secret reads ex left answer w₁

  pub resolved_budget :
      (k : FetchedKey) (ex : Dict String ℕ) (left : ℕ) (answer : String ⊎ Err) (w : W)
      → ((resolved calls k ex left answer w).left ≡ left)
        × ((resolved calls k ex left answer w).reads ≡ 1)
  resolved_budget k ex left (inl secret) w = register_budget k secret 1 ex left w
  resolved_budget k ex left (inr e) w = (refl, refl)

  fresh_budget :
      (k : FetchedKey) (ex : Dict String ℕ) (left : ℕ) (w : W)
      → (fresh_key calls k ex left w).left + (fresh_key calls k ex left w).reads ≡ left
  fresh_budget k ex left w = elim (Bool-cases (k.secret == "")) [
    | inr s ↦
        (let (answer, w₁) = calls.group_id k.group_ref w in
          let (l, r) = grouped_budget k k.secret 0 ex left answer w₁ in rw s (omega (arith, l, r)))
    | inl s ↦ elim (Bool-cases (left == 0)) [
      | inl z ↦ rw (s, z) (omega arith)
      | inr z ↦
          (let (answer, w₁) = calls.resolve k.key_ref w in
            let (l, r) = resolved_budget k ex (left - 1) answer w₁ in
            rw (s, z) (ground (arith, l, r, z)))
    ]
  ]

  known_budget :
      (k : FetchedKey) (ex : Dict String ℕ) (left : ℕ) (w : W) (o : Option ℕ)
      → (known_or_fresh calls k ex left w o).left + (known_or_fresh calls k ex left w o).reads
        ≡ left
  known_budget k ex left w none = fresh_budget k ex left w
  known_budget k ex left w (some id) = omega arith

  import_key_budget :
      (k : FetchedKey) (ex : Dict String ℕ) (left : ℕ) (w : W)
      → (import_key calls k ex left w).left + (import_key calls k ex left w).reads ≡ left
  unfolding import_key
  import_key_budget k ex left w = elim (Bool-cases (k.key_ref == "")) [
    | inl b ↦ rw b (omega arith)
    | inr b ↦ rw b (known_budget k ex left w (lookup k.key_ref ex))
  ]

  abbrev Fair : ℕ → ℕ → KeyImportResult × ℕ × W → Type 0
  Fair n left r = (accounted r.0 ≡ n) × (r.1 + r.0.secret_resolves ≡ left)

  count_pass-Fair :
      (n left : ℕ) (p : Pass W) (v : Verdict) (r : KeyImportResult × ℕ × W)
      → p.left + p.reads ≡ left
      → Fair n p.left r
      → Fair (suc n) left (count_pass calls (suc n) p v r)
  count_pass-Fair n left p deferring (r, l, w) b (c, d) = (omega arith, omega (arith, b))
  count_pass-Fair n left p failing (r, l, w) b (c, d) = (omega (arith, c), omega (arith, b, d))
  count_pass-Fair n left p skipping (r, l, w) b (c, d) = (omega (arith, c), omega (arith, b, d))
  count_pass-Fair n left p importing (r, l, w) b (c, d) = (omega (arith, c), omega (arith, b, d))

  import_loop-Fair :
      (ks : List FetchedKey) (ex : Dict String ℕ) (left : ℕ) (w : W)
      → Fair (length ks) left (import_loop calls ks ex left w)
  unfolding import_loop
  import_loop-Fair [] ex left w = (refl, omega arith)
  import_loop-Fair (k ∷ ks) ex left w =
      let p = import_key calls k ex left w in
      count_pass-Fair (length ks) left p p.verdict (import_loop calls ks p.existing p.left p.after)
        (import_key_budget k ex left w) (import_loop-Fair ks p.existing p.left p.after)

  abbrev Accounted : ℕ → ℕ → KeyImportResult × Option Err × ℕ × W → Type 0
  Accounted n left r =
      (r.0.found ≡ n)
      × (accounted r.0 ≡ (if is_none r.1 then n else 0))
      × (r.2 + r.0.secret_resolves ≡ left)

  import_known-Accounted :
      (ks : List FetchedKey) (left : ℕ) (answer : Dict String ℕ ⊎ Err) (w : W)
      → Accounted (length ks) left (import_known calls ks left answer w)
  import_known-Accounted ks left (inl ex) w =
      let (c, d) = import_loop-Fair ks ex left w in (refl, c, d)
  import_known-Accounted ks left (inr e) w = (refl, refl, omega arith)

  -- Every key of the list is counted once, and the reads that the result reports are those that the
  -- budget has lost.
  pub import_fetched_keys_counts :
      (index : W → (Dict String ℕ ⊎ Err) × W) (ks : List FetchedKey) (left : ℕ) (w : W)
      → ((import_fetched_keys calls index ks left w).0.found ≡ length ks)
        × (accounted (import_fetched_keys calls index ks left w).0
            ≡ (if is_none (import_fetched_keys calls index ks left w).1 then length ks else 0))
        × ((import_fetched_keys calls index ks left w).2
              + (import_fetched_keys calls index ks left w).0.secret_resolves
            ≡ left)
  unfolding import_fetched_keys
  import_fetched_keys_counts index ks left w =
      let (answer, w₁) = index w in import_known-Accounted ks left answer w₁
