-- ===== src/Collector/Merge.antt =====
-- The merging of several accounts' results in internal/collector/sync.go. `F` is float64, of which
-- only the test for zero is used. A map that is walked and then sorted is an association list.
pub mod Collate
pub mod Flags
pub mod Union
use Prim.Native.String.{compare}
use text.Mathlib.Text.{is_le}
use multi_upstream_ai_gatewa.Prelude.{
  Bool, List, Option, String, ℕ, [], contains, false, if◌then◌else◌, length, ltb, map, nat_eq, none,
  not, some, string_eq, true, ◌&&◌, ◌++◌, ◌+◌, ◌==◌, ◌||◌, ◌∷◌,
}
use multi_upstream_ai_gatewa.Prelude.Dict.{Dict, insert, lookup}

pub record SourceMeta : Type 0 where
  pub source : String
  pub endpoint : String
  pub fetched_at : ℕ
  pub valid_until : ℕ
  pub stale : Bool
  pub degraded : Bool
  pub missing_fields : List String
  pub partial : Bool

pub record Group (F : Type 0) : Type 0 where
  pub group_ref : String
  pub rate_multiplier : F
  pub available_models : List String
  pub rate_dynamic : Bool
  pub dynamic_candidates : List String
  pub meta : SourceMeta

pub record ModelPrice (F : Type 0) : Type 0 where
  pub model_name : String
  pub input_price : F
  pub output_price : F
  pub cache_price : F
  pub billing_unit : String

pub record Pricing (F : Type 0) : Type 0 where
  pub models : List (ModelPrice F)
  pub group_ratios : Dict String F
  pub meta : SourceMeta

pub record CatalogModel (F : Type 0) : Type 0 where
  pub model_name : String
  pub input_price : F
  pub output_price : F
  pub billing_unit : String
  pub vendor_name : String
  pub vendor_icon : String
  pub endpoint_types : List String
  pub meta : SourceMeta

abbrev pub zero_meta : SourceMeta
zero_meta = record {
  source = "";
  endpoint = "";
  fetched_at = 0;
  valid_until = 0;
  stale = false;
  degraded = false;
  missing_fields = [];
  partial = false;
}

-- The order of strings, and sort.Slice by a key, sort.Strings.
abbrev pub text_le : String → String → Bool
text_le s t = is_le (compare s t)

module _ {A : Type 0} (key : A → String) where
  unfoldable pub put : A → List A → List A
  put a [] = a ∷ []
  put a (x ∷ xs) = let rest = put a xs in if text_le (key a) (key x) then a ∷ x ∷ xs else x ∷ rest

  unfoldable pub sort_by : List A → List A
  sort_by [] = []
  sort_by (x ∷ xs) = put x (sort_by xs)

abbrev pub sort_texts : List String → List String
sort_texts xs = sort_by (λ s. s) xs

unfoldable pub append_unique : List String → List String → List String
append_unique dst [] = dst
append_unique dst (v ∷ vs) =
    append_unique (if not (v == "") && not (contains dst v) then dst ++ v ∷ [] else dst) vs

-- sourceMetaScore as a difference: what is added, and what is taken off.
unfoldable pub source_meta_score : SourceMeta → ℕ × ℕ
source_meta_score m = (
  (if m.partial then 0 else 4)
      + (if m.degraded then 0 else 2)
      + (if m.fetched_at == 0 then 0 else 1),
  length m.missing_fields,
)

-- a > b
abbrev pub score_gt : ℕ × ℕ → ℕ × ℕ → Bool
score_gt (p, m) (q, n) = ltb (q + m) (p + n)

unfoldable pub better_meta : SourceMeta → SourceMeta → Bool
better_meta a b =
    let s = source_meta_score a in
    let t = source_meta_score b in
    if score_gt s t || score_gt t s then score_gt s t else ltb b.fetched_at a.fetched_at

abbrev is_empty {ℓ} : {A : Type ℓ} → List A → Bool
is_empty [] = true
is_empty (x ∷ xs) = false

unfoldable pub source_meta_empty : SourceMeta → Bool
source_meta_empty m =
    m.source == ""
    && m.endpoint == ""
    && m.fetched_at == 0
    && m.valid_until == 0
    && not m.stale
    && not m.degraded
    && is_empty m.missing_fields
    && not m.partial

unfoldable pub merge_source_meta : SourceMeta → SourceMeta → SourceMeta
merge_source_meta current candidate =
    let base =
      if source_meta_empty current || better_meta candidate current then candidate else current in
    record base {
      degraded = current.degraded || candidate.degraded;
      partial = current.partial || candidate.partial;
      stale = current.stale || candidate.stale;
      missing_fields = sort_texts (append_unique current.missing_fields candidate.missing_fields);
    }

-- The loop over all results: the map from keys to what is merged so far.
module _ {A : Type 0} (key : A → String) (merge : A → A → A) where
  abbrev pub merged : Option A → A → A
  merged none x = x
  merged (some current) x = merge current x

  unfoldable pub collate : List A → Dict String A → Dict String A
  collate [] m = m
  collate (x ∷ xs) m = collate xs (insert (key x) (merged (lookup (key x) m) x) m)

abbrev pub values {ℓ κ} : {K : Type ℓ} {V : Type κ} → Dict K V → List V
values m = map (λ e. e.1) m

module _ {F : Type 0} (is_zero : F → Bool) where
  -- if x == 0 { x = y }
  abbrev or_else_float : F → F → F
  or_else_float x y = if is_zero x then y else x

  abbrev or_else_text : String → String → String
  or_else_text s t = if s == "" then t else s

  unfoldable pub merge_group : Group F → Group F → Group F
  merge_group current candidate = record current {
    rate_multiplier = or_else_float current.rate_multiplier candidate.rate_multiplier;
    available_models = append_unique current.available_models candidate.available_models;
    meta = merge_source_meta current.meta candidate.meta;
  }

  unfoldable pub merge_groups : List (Group F) → List (Group F)
  merge_groups all =
      sort_by (λ (g : Group F). g.group_ref)
        (map (λ (g : Group F). record g { available_models = sort_texts g.available_models })
          (values (collate (λ (g : Group F). g.group_ref) merge_group all [])))

  unfoldable pub model_price_score : ModelPrice F → ℕ
  model_price_score m =
      (if is_zero m.input_price then 0 else 1)
      + (if is_zero m.output_price then 0 else 1)
      + (if is_zero m.cache_price then 0 else 1)
      + (if m.billing_unit == "" then 0 else 1)

  abbrev fill_price : ModelPrice F → ModelPrice F → ModelPrice F
  fill_price best other = record best {
    input_price = or_else_float best.input_price other.input_price;
    output_price = or_else_float best.output_price other.output_price;
    cache_price = or_else_float best.cache_price other.cache_price;
    billing_unit = or_else_text best.billing_unit other.billing_unit;
  }

  unfoldable pub merge_model_price : ModelPrice F → ModelPrice F → ModelPrice F
  merge_model_price current candidate =
      if ltb (model_price_score current) (model_price_score candidate)
      then fill_price candidate current
      else fill_price current candidate

  -- The loop over the ratios of one account.
  unfoldable pub merge_ratios : Dict String F → Dict String F → Dict String F
  merge_ratios out [] = out
  merge_ratios out ((g, r) ∷ rs) =
      merge_ratios
        (elim (lookup g out) [
          | none ↦ insert g r out
          | some current ↦ if is_zero current then insert g r out else out
        ])
        rs

  -- The outer loop of mergePricing: the meta data, the ratios, and all models in their order.
  unfoldable pub scan_pricing :
      List (Pricing F)
      → SourceMeta
      → Dict String F
      → SourceMeta × Dict String F × List (ModelPrice F)
  scan_pricing [] meta ratios = (meta, ratios, [])
  scan_pricing (p ∷ ps) meta ratios =
      let (meta', ratios', models) =
        scan_pricing ps (merge_source_meta meta p.meta) (merge_ratios ratios p.group_ratios) in
      (meta', ratios', p.models ++ models)

  unfoldable pub merge_pricing : List (Pricing F) → Pricing F
  merge_pricing all =
      let (meta, ratios, models) = scan_pricing all zero_meta [] in
      record {
        models =
            sort_by (λ (m : ModelPrice F). m.model_name)
              (values (collate (λ (m : ModelPrice F). m.model_name) merge_model_price models []));
        group_ratios = ratios;
        meta = meta;
      }

  -- catalogModelScore: the score of a price without a cache price, whose float is the zero value.
  unfoldable pub catalog_model_score : CatalogModel F → ℕ
  catalog_model_score m =
      (if is_zero m.input_price then 0 else 1)
      + (if is_zero m.output_price then 0 else 1)
      + (if m.billing_unit == "" then 0 else 1)

  abbrev fill_catalog : CatalogModel F → CatalogModel F → SourceMeta → CatalogModel F
  fill_catalog best other meta = record best {
    input_price = or_else_float best.input_price other.input_price;
    output_price = or_else_float best.output_price other.output_price;
    billing_unit = or_else_text best.billing_unit other.billing_unit;
    meta = meta;
  }

  unfoldable pub merge_catalog_model : CatalogModel F → CatalogModel F → CatalogModel F
  merge_catalog_model current candidate =
      let s = catalog_model_score current in
      let t = catalog_model_score candidate in
      let meta = merge_source_meta current.meta candidate.meta in
      if ltb s t || (t == s && better_meta candidate.meta current.meta)
      then fill_catalog candidate current meta
      else fill_catalog current candidate meta

  unfoldable pub merge_catalog : List (CatalogModel F) → List (CatalogModel F)
  merge_catalog all =
      sort_by (λ (m : CatalogModel F). m.model_name)
        (values (collate (λ (m : CatalogModel F). m.model_name) merge_catalog_model all []))
