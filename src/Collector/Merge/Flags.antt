-- ===== src/Collector/Merge/Flags.antt =====
-- About mergeSourceMeta of internal/collector/sync.go.
use multi_upstream_ai_gatewa.Prelude.{
  Bool-cases, List, String, [], ap, arith, contains, contains-append, inl, inr, map, nat_eq, not,
  refl, string_eq, sym, ◌&&◌, ◌++◌, ◌==◌, ◌||◌, ◌∙◌, ◌∷◌, ◌≡◌,
}
use multi_upstream_ai_gatewa.Collector.Merge.{
  SourceMeta, append_unique, merge_source_meta, sort_texts,
}
use multi_upstream_ai_gatewa.Collector.Merge.Collate.{contains-sort_by}

contains-append_unique :
    (dst vs : List String) (s : String)
    → contains (append_unique dst vs) s ≡ (contains dst s || (contains vs s && not (s == "")))
unfolding append_unique
contains-append_unique dst [] s = ground arith
contains-append_unique dst (v ∷ vs) s = elim (Bool-cases (not (v == "") && not (contains dst v))) [
  | inl b ↦ rw b (
      contains-append_unique (dst ++ v ∷ []) vs s
      ∙ ground (arith, b, contains-append dst (v ∷ []) s, string_eq.beq_iff v s))
  | inr b ↦ rw b (contains-append_unique dst vs s ∙ ground (arith, b, string_eq.beq_iff v s))
]

map_same : (xs : List String) → map (λ s. s) xs ≡ xs
map_same [] = refl
map_same (x ∷ xs) = cc (map_same xs)

contains-sort_texts : (xs : List String) (s : String) → contains (sort_texts xs) s ≡ contains xs s
contains-sort_texts xs s =
    ap (λ ys. contains ys s) (sym (map_same (sort_texts xs)))
    ∙ contains-sort_by (λ s. s) xs s
    ∙ ap (λ ys. contains ys s) (map_same xs)

-- Merged meta data is degraded, partial or stale if one of the two is, whichever of them is the
-- better; and it names the missing fields of both.
pub merge_source_meta_lem :
    (a b : SourceMeta)
    → ((merge_source_meta a b).degraded ≡ (a.degraded || b.degraded))
      × ((merge_source_meta a b).partial ≡ (a.partial || b.partial))
      × ((merge_source_meta a b).stale ≡ (a.stale || b.stale))
      × ((f : String)
          → contains (merge_source_meta a b).missing_fields f
            ≡ (contains a.missing_fields f || (contains b.missing_fields f && not (f == ""))))
unfolding merge_source_meta
merge_source_meta_lem a b = (
  refl,
  refl,
  refl,
  λ f.
      contains-sort_texts (append_unique a.missing_fields b.missing_fields) f
      ∙ contains-append_unique a.missing_fields b.missing_fields f,
)
