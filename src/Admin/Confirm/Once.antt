-- ===== src/Admin/Confirm/Once.antt =====
-- About the use of the tokens of internal/admin/confirm.go over any history of calls.
use multi_upstream_ai_gatewa.Prelude.{
  Bool-cases, List, Option, String, ℕ, [], ap, arith, if◌then◌else◌, inl, inr, nat_eq, none, not,
  refl, some, string_eq, sym, ◌==◌, ◌∙◌, ◌∷◌, ◌≡◌, ◌≤◌,
}
use multi_upstream_ai_gatewa.Admin.Confirm.{
  Diff, Hashing, TokenEntry, TokenStore, accepts, consume, is_expired, issue, new_entry,
  prune_locked, redeem,
}
use multi_upstream_ai_gatewa.Prelude.Dict.{lookup, lookup-delete, lookup-insert, lookup-retain}

-- A call, with the time at which it has the lock.
pub data Call : Type 0 where
  issuing : Option String → Diff → ℕ → Call
  consuming : String → Diff → ℕ → Call

abbrev time_of : Call → ℕ
time_of (issuing tok d now) = now
time_of (consuming tok d now) = now

-- A history has the latest call first, and the clock does not go back.
abbrev pub IsHistory : ℕ → List Call → Type 0
IsHistory now [] = Unit
IsHistory now (c ∷ cs) = (time_of c ≤ now) × IsHistory (time_of c) cs

module _ (lib : Hashing) where
  -- The tokens after a history of calls from the empty store.
  abbrev after_call : Call → TokenStore → TokenStore
  after_call (issuing tok d now) tokens = (issue lib tok d now tokens).1
  after_call (consuming tok d now) tokens = (consume lib tok d now tokens).1

  unfoldable pub tokens_after : List Call → TokenStore
  tokens_after [] = []
  tokens_after (c ∷ cs) = after_call c (tokens_after cs)

  -- What was last issued for a token and not asked for since.
  abbrev pub pending : String → List Call → Option TokenEntry
  pending tok [] = none
  pending tok (issuing none d now ∷ cs) = pending tok cs
  pending tok (issuing (some t) d now ∷ cs) =
      if t == tok then some (new_entry lib d now) else pending tok cs
  pending tok (consuming t d now ∷ cs) = if t == tok then none else pending tok cs

  -- An entry that is not expired.
  abbrev valid : ℕ → Option TokenEntry → Option TokenEntry
  valid now o = if is_expired now o then none else o

  valid-valid :
      (before now : ℕ) (o : Option TokenEntry)
      → before ≤ now
      → valid now (valid before o) ≡ valid now o
  valid-valid before now none m = refl
  valid-valid before now (some e) m = ground (arith, m)

  later :
      (before now : ℕ) (o p : Option TokenEntry)
      → before ≤ now
      → valid before o ≡ valid before p
      → valid now o ≡ valid now p
  later before now o p m e =
      sym (valid-valid before now o m) ∙ ap (valid now) e ∙ valid-valid before now p m

  lookup-prune_locked :
      (tok : String) (now : ℕ) (tokens : TokenStore)
      → lookup tok (prune_locked now tokens) ≡ valid now (lookup tok tokens)
  unfolding prune_locked
  lookup-prune_locked tok now tokens =
      lookup-retain (λ (k : String). not (is_expired now (lookup k tokens))) tok tokens
      ∙ ground arith

  pub lookup-redeem :
      (tok t : String) (d : Diff) (now : ℕ) (tokens : TokenStore) (o : Option TokenEntry)
      → lookup t tokens ≡ o
      → lookup tok (redeem lib t d now tokens o).1 ≡ (if t == tok then none else lookup tok tokens)
  lookup-redeem tok t d now tokens none h = ground (arith, h, string_eq.beq_iff t tok)
  lookup-redeem tok t d now tokens (some e) h = lookup-delete t tok tokens

  tokens_after-pending :
      (cs : List Call) (tok : String) (now : ℕ)
      → IsHistory now cs
      → valid now (lookup tok (tokens_after cs)) ≡ valid now (pending tok cs)
  unfolding tokens_after issue lookup consume
  tokens_after-pending [] tok now h = refl
  tokens_after-pending (issuing none d t ∷ cs) tok now (m, h) =
      later t now (lookup tok (tokens_after cs)) (pending tok cs) m
        (tokens_after-pending cs tok t h)
  tokens_after-pending (issuing (some i) d t ∷ cs) tok now (m, h) = elim (Bool-cases (i == tok)) [
    | inl b ↦ rw (lookup-insert, b) refl
    | inr b ↦
        rw (lookup-insert, b, lookup-prune_locked)
          (valid-valid t now (lookup tok (tokens_after cs)) m
            ∙ later t now (lookup tok (tokens_after cs)) (pending tok cs) m
                (tokens_after-pending cs tok t h))
  ]
  tokens_after-pending (consuming i d t ∷ cs) tok now (m, h) = elim (Bool-cases (i == tok)) [
    | inl b ↦
        rw (lookup-redeem tok i d t (tokens_after cs) (lookup i (tokens_after cs)) refl, b) refl
    | inr b ↦
        rw (lookup-redeem tok i d t (tokens_after cs) (lookup i (tokens_after cs)) refl, b)
          (later t now (lookup tok (tokens_after cs)) (pending tok cs) m
            (tokens_after-pending cs tok t h))
  ]

  accepts-valid :
      (d : Diff) (now : ℕ) (o : Option TokenEntry)
      → accepts lib d now (valid now o) ≡ accepts lib d now o
  accepts-valid d now none = refl
  accepts-valid d now (some e) = ground arith

  redeem-accepts :
      (tok : String) (d : Diff) (now : ℕ) (tokens : TokenStore) (o : Option TokenEntry)
      → (redeem lib tok d now tokens o).0 ≡ accepts lib d now o
  redeem-accepts tok d now tokens none = refl
  redeem-accepts tok d now tokens (some e) = refl

  -- A token is accepted exactly if it was issued for a diff with the same hash, at most five minutes
  -- ago, and nobody has asked for it since, so once for each issue; and the tokens that are pruned
  -- make no difference. The clock does not go back.
  pub consume-pending :
      (cs : List Call) (tok : String) (d : Diff) (now : ℕ)
      → IsHistory now cs
      → (consume lib tok d now (tokens_after cs)).0 ≡ accepts lib d now (pending tok cs)
  unfolding consume
  consume-pending cs tok d now h =
      redeem-accepts tok d now (tokens_after cs) (lookup tok (tokens_after cs))
      ∙ sym (accepts-valid d now (lookup tok (tokens_after cs)))
      ∙ ap (accepts lib d now) (tokens_after-pending cs tok now h)
      ∙ accepts-valid d now (pending tok cs)
