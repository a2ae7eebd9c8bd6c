-- ===== src/Collection/Runner/Reads.antt =====
-- About the calls of ResolveKeySecret in importFetchedKeys of internal/collection/runner.go. A state
-- that counts these calls is observed: `reads w` is the number of the calls up to the state `w`.
use multi_upstream_ai_gatewa.Prelude.{
  Bool-cases, List, Option, String, ℕ, [], arith, if◌then◌else◌, inl, inr, length, nat_eq, none,
  refl, some, string_eq, ◌+◌, ◌-◌, ◌==◌, ◌∙◌, ◌∷◌, ◌≡◌, ◌⊎◌,
}
use multi_upstream_ai_gatewa.Collection.Runner.{
  Calls, FetchedKey, Pass, Verdict, count_pass, created, deferring, failing, fresh_key, grouped,
  import_fetched_keys, import_key, import_known, import_loop, importing, known_or_fresh, register,
  resolved, skipping,
}
use multi_upstream_ai_gatewa.Collection.Runner.Counts.{
  accounted, import_fetched_keys_counts, register_budget, resolved_budget,
}
use multi_upstream_ai_gatewa.Collector.Errors.{Err}
use multi_upstream_ai_gatewa.Collector.Keys.{KeyImportResult}
use multi_upstream_ai_gatewa.Collector.Sync.{is_none}
use multi_upstream_ai_gatewa.Prelude.Dict.{Dict, lookup}

-- A call that is no call of ResolveKeySecret.
abbrev pub IsSilent {ℓ} : {A : Type ℓ} {W : Type 0} → (W → ℕ) → (W → A × W) → Type 0
IsSilent {A} {W} reads call = (w : W) → reads (call w).1 ≡ reads w

-- `reads` counts the calls of ResolveKeySecret, those that fail included, and nothing else.
pub record Meter {W : Type 0} (calls : Calls W) (reads : W → ℕ) : Type 0 where
  pub on_resolve : (ref : String) (w : W) → reads (calls.resolve ref w).1 ≡ reads w + 1
  pub on_group : (ref : String) → IsSilent reads (calls.group_id ref)
  pub on_create :
      (secret ref : String) (g : Option ℕ) → IsSilent reads (calls.create_key secret ref g)
  pub on_update : (id : ℕ) (k : FetchedKey) → IsSilent reads (calls.update_key id k)

-- A site whose state counts the calls of ResolveKeySecret beside it.
abbrev pub metered : {W : Type 0} → Calls W → Calls (W × ℕ)
metered calls = record {
  resolve = λ ref (w, n). (let (answer, w₁) = calls.resolve ref w in (answer, (w₁, n + 1)));
  group_id = λ ref (w, n). (let (answer, w₁) = calls.group_id ref w in (answer, (w₁, n)));
  create_key = λ secret ref g (w, n).
      (let (answer, w₁) = calls.create_key secret ref g w in (answer, (w₁, n)));
  update_key = λ id k (w, n). (let (answer, w₁) = calls.update_key id k w in (answer, (w₁, n)));
}

-- Every site can be observed so.
pub metered-Meter : {W : Type 0} (calls : Calls W) → Meter (metered calls) (λ (w : W × ℕ). w.1)
metered-Meter calls = record {
  on_resolve = λ ref w. refl;
  on_group = λ ref w. refl;
  on_create = λ secret ref g w. refl;
  on_update = λ id k w. refl;
}

module _ {W : Type 0} (calls : Calls W) (reads : W → ℕ) (meter : Meter calls reads) where
  created-silent :
      (k : FetchedKey) (n : ℕ) (ex : Dict String ℕ) (left : ℕ) (answer : ℕ ⊎ Err) (w : W)
      → reads (created calls k n ex left answer w).after ≡ reads w
  created-silent k n ex left (inl id) w = meter.on_update id k w
  created-silent k n ex left (inr e) w = refl

  grouped-silent :
      (k : FetchedKey) (secret : String) (n : ℕ) (ex : Dict String ℕ) (left : ℕ)
      (answer : Option ℕ ⊎ Err) (w : W)
      → reads (grouped calls k secret n ex left answer w).after ≡ reads w
  grouped-silent k secret n ex left (inl g) w =
      let (answer, w₁) = calls.create_key secret k.key_ref g w in
      created-silent k n ex left answer w₁ ∙ meter.on_create secret k.key_ref g w
  grouped-silent k secret n ex left (inr e) w = refl

  register-silent :
      (k : FetchedKey) (secret : String) (n : ℕ) (ex : Dict String ℕ) (left : ℕ) (w : W)
      → reads (register calls k secret n ex left w).after ≡ reads w
  register-silent k secret n ex left w =
      let (answer, w₁) = calls.group_id k.group_ref w in
      grouped-silent k secret n ex left answer w₁ ∙ meter.on_group k.group_ref w

  resolved-silent :
      (k : FetchedKey) (ex : Dict String ℕ) (left : ℕ) (answer : String ⊎ Err) (w : W)
      → reads (resolved calls k ex left answer w).after ≡ reads w
  resolved-silent k ex left (inl secret) w = register-silent k secret 1 ex left w
  resolved-silent k ex left (inr e) w = refl

  -- A pass sends what it takes off the budget.
  abbrev Paid : ℕ → W → Pass W → Type 0
  Paid left w p = reads p.after + p.left ≡ reads w + left

  resolved-left :
      (k : FetchedKey) (ex : Dict String ℕ) (left : ℕ) (answer : String ⊎ Err) (w : W)
      → (resolved calls k ex left answer w).left ≡ left
  resolved-left k ex left answer w = (resolved_budget calls k ex left answer w).0

  fresh-Paid :
      (k : FetchedKey) (ex : Dict String ℕ) (left : ℕ) (w : W)
      → Paid left w (fresh_key calls k ex left w)
  fresh-Paid k ex left w = elim (Bool-cases (k.secret == "")) [
    | inr s ↦ rw s (
        let same = register-silent k k.secret 0 ex left w in
        let kept = (register_budget calls k k.secret 0 ex left w).0 in omega (arith, same, kept))
    | inl s ↦ elim (Bool-cases (left == 0)) [
      | inl z ↦ rw (s, z) refl
      | inr z ↦
          rw (s, z)
            (let (answer, w₁) = calls.resolve k.key_ref w in
              let sent = meter.on_resolve k.key_ref w in
              let same = resolved-silent k ex (left - 1) answer w₁ in
              let kept = resolved-left k ex (left - 1) answer w₁ in
              ground (arith, sent, same, kept, z))
    ]
  ]

  known-Paid :
      (k : FetchedKey) (ex : Dict String ℕ) (left : ℕ) (w : W) (o : Option ℕ)
      → Paid left w (known_or_fresh calls k ex left w o)
  known-Paid k ex left w none = fresh-Paid k ex left w
  known-Paid k ex left w (some id) = let same = meter.on_update id k w in omega (arith, same)

  import_key-Paid :
      (k : FetchedKey) (ex : Dict String ℕ) (left : ℕ) (w : W)
      → Paid left w (import_key calls k ex left w)
  unfolding import_key
  import_key-Paid k ex left w = elim (Bool-cases (k.key_ref == "")) [
    | inl b ↦ rw b refl
    | inr b ↦ rw b (known-Paid k ex left w (lookup k.key_ref ex))
  ]

  abbrev Settled : ℕ → W → KeyImportResult × ℕ × W → Type 0
  Settled left w (r, left', w') = reads w' + left' ≡ reads w + left

  count_pass-Settled :
      (n left : ℕ) (w : W) (p : Pass W) (v : Verdict) (r : KeyImportResult × ℕ × W)
      → Paid left w p
      → Settled p.left p.after r
      → Settled left w (count_pass calls n p v r)
  count_pass-Settled n left w p deferring (r, l, w') a b = a
  count_pass-Settled n left w p failing (r, l, w') a b = omega (arith, a, b)
  count_pass-Settled n left w p skipping (r, l, w') a b = omega (arith, a, b)
  count_pass-Settled n left w p importing (r, l, w') a b = omega (arith, a, b)

  import_loop-Settled :
      (ks : List FetchedKey) (ex : Dict String ℕ) (left : ℕ) (w : W)
      → Settled left w (import_loop calls ks ex left w)
  unfolding import_loop
  import_loop-Settled [] ex left w = refl
  import_loop-Settled (k ∷ ks) ex left w =
      let p = import_key calls k ex left w in
      count_pass-Settled (length (k ∷ ks)) left w p p.verdict
        (import_loop calls ks p.existing p.left p.after) (import_key-Paid k ex left w)
        (import_loop-Settled ks p.existing p.left p.after)

  import_known-Settled :
      (ks : List FetchedKey) (left : ℕ) (answer : Dict String ℕ ⊎ Err) (w : W)
      → let i = import_known calls ks left answer w in reads i.3 + i.2 ≡ reads w + left
  import_known-Settled ks left (inl ex) w = import_loop-Settled ks ex left w
  import_known-Settled ks left (inr e) w = refl

  -- The calls that importFetchedKeys sends are what it takes off the budget.
  pub import_fetched_keys-reads :
      (index : W → (Dict String ℕ ⊎ Err) × W) (ks : List FetchedKey) (left : ℕ) (w : W)
      → IsSilent reads index
      → let i = import_fetched_keys calls index ks left w in reads i.3 + i.2 ≡ reads w + left
  unfolding import_fetched_keys
  import_fetched_keys-reads index ks left w silent =
      let (answer, w₁) = index w in
      let same = silent w in
      let sent = import_known-Settled ks left answer w₁ in omega (arith, same, sent)

  -- Where the state counts the calls of ResolveKeySecret, failed ones included, and the reading of the
  -- known keys makes none: importFetchedKeys counts every key of the list exactly once, as imported,
  -- skipped, failed or deferred, and none if the index of the known keys cannot be read; and its calls
  -- of ResolveKeySecret are as many as it reports, which are exactly those that it takes off the budget,
  -- so never more than the budget.
  pub import_fetched_keys_lem :
      (index : W → (Dict String ℕ ⊎ Err) × W) (ks : List FetchedKey) (left : ℕ) (w : W)
      → IsSilent reads index
      → ((import_fetched_keys calls index ks left w).0.found ≡ length ks)
        × (accounted (import_fetched_keys calls index ks left w).0
            ≡ (if is_none (import_fetched_keys calls index ks left w).1 then length ks else 0))
        × ((import_fetched_keys calls index ks left w).2
              + (import_fetched_keys calls index ks left w).0.secret_resolves
            ≡ left)
        × (reads (import_fetched_keys calls index ks left w).3
            ≡ reads w + (import_fetched_keys calls index ks left w).0.secret_resolves)
  import_fetched_keys_lem index ks left w silent =
      let (n, a, b) = import_fetched_keys_counts calls index ks left w in
      let sent = import_fetched_keys-reads index ks left w silent in
      (n, a, b, omega (arith, b, sent))
