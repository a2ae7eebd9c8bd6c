-- ===== src/Collector/Merge/Union.antt =====
-- About mergeGroups, mergePricing and mergeCatalog of internal/collector/sync.go: which names the
-- merged lists have.
use multi_upstream_ai_gatewa.Prelude.{
  Bool, Bool-cases, List, String, Unique, [], contains, inl, inr, ltb, map, nat_eq, refl, string_eq,
  ◌&&◌, ◌++◌, ◌==◌, ◌||◌, ◌∙◌, ◌∷◌, ◌≡◌,
}
use multi_upstream_ai_gatewa.Collector.Merge.{
  CatalogModel, Group, ModelPrice, Pricing, SourceMeta, better_meta, catalog_model_score, collate,
  merge_catalog, merge_catalog_model, merge_group, merge_groups, merge_model_price, merge_pricing,
  merge_ratios, merge_source_meta, merged, model_price_score, scan_pricing, sort_texts, values,
  zero_meta,
}
use multi_upstream_ai_gatewa.Collector.Merge.Collate.{key-values, map-keeps, sorted_names}
use multi_upstream_ai_gatewa.Prelude.Dict.{Dict}

abbrev pub ref_of : {F : Type 0} → Group F → String
ref_of g = g.group_ref

abbrev pub price_name : {F : Type 0} → ModelPrice F → String
price_name m = m.model_name

abbrev pub catalog_name : {F : Type 0} → CatalogModel F → String
catalog_name m = m.model_name

-- The models of all accounts, in their order.
abbrev pub all_models : {F : Type 0} → List (Pricing F) → List (ModelPrice F)
all_models [] = []
all_models (p ∷ ps) = p.models ++ all_models ps

-- A merged list has each name of the lists that are merged exactly once, and no other.
abbrev pub SameNames : List String → List String → Type 0
SameNames merged names = Unique merged × ((r : String) → contains merged r ≡ contains names r)

module _ {F : Type 0} (is_zero : F → Bool) where
  price_name-merge_model_price :
      (c x : ModelPrice F)
      → price_name c ≡ price_name x
      → price_name (merge_model_price is_zero c x) ≡ price_name x
  unfolding merge_model_price
  price_name-merge_model_price c x h =
      elim (Bool-cases (ltb (model_price_score is_zero c) (model_price_score is_zero x))) [
        | inl b ↦ rw b refl
        | inr b ↦ rw b h
      ]

  catalog_name-merge_catalog_model :
      (c x : CatalogModel F)
      → catalog_name c ≡ catalog_name x
      → catalog_name (merge_catalog_model is_zero c x) ≡ catalog_name x
  unfolding merge_catalog_model
  catalog_name-merge_catalog_model c x h =
      let s = catalog_model_score is_zero c in
      let t = catalog_model_score is_zero x in
      elim (Bool-cases (ltb s t || (t == s && better_meta x.meta c.meta))) [
        | inl b ↦ rw b refl
        | inr b ↦ rw b h
      ]

  ref_of-merge_group :
      (c x : Group F) → ref_of c ≡ ref_of x → ref_of (merge_group is_zero c x) ≡ ref_of x
  unfolding merge_group
  ref_of-merge_group c x h = h

  models-scan_pricing :
      (ps : List (Pricing F)) (meta : SourceMeta) (ratios : Dict String F)
      → (scan_pricing is_zero ps meta ratios).2 ≡ all_models ps
  unfolding scan_pricing
  models-scan_pricing [] meta ratios = refl
  models-scan_pricing (p ∷ ps) meta ratios =
      rw
        (models-scan_pricing ps (merge_source_meta meta p.meta)
          (merge_ratios is_zero ratios p.group_ratios))
        refl

  -- Merging the groups of several accounts keeps every group, and lists each once.
  merge_groups-names :
      (all : List (Group F))
      → Unique (map ref_of (merge_groups is_zero all))
        × ((r : String)
            → contains (map ref_of (merge_groups is_zero all)) r ≡ contains (map ref_of all) r)
  unfolding merge_groups
  merge_groups-names all =
      let sorted : Group F → Group F =
        λ g. record g { available_models = sort_texts g.available_models } in
      let m = values (collate ref_of (merge_group is_zero) all []) in
      sorted_names ref_of (merge_group is_zero) ref_of-merge_group all (map sorted m) (
        map-keeps ref_of sorted (λ g. refl) m
        ∙ key-values ref_of (merge_group is_zero) ref_of-merge_group all)

  -- Merging the catalogues of several accounts keeps every model, and lists each once.
  merge_catalog-names :
      (all : List (CatalogModel F))
      → Unique (map catalog_name (merge_catalog is_zero all))
        × ((r : String)
            → contains (map catalog_name (merge_catalog is_zero all)) r
              ≡ contains (map catalog_name all) r)
  unfolding merge_catalog
  merge_catalog-names all =
      let merge = merge_catalog_model is_zero in
      sorted_names catalog_name merge catalog_name-merge_catalog_model all
        (values (collate catalog_name merge all []))
        (key-values catalog_name merge catalog_name-merge_catalog_model all)

  -- Merging the prices of several accounts keeps every priced model, and lists each once.
  merge_pricing-names :
      (all : List (Pricing F))
      → Unique (map price_name (merge_pricing is_zero all).models)
        × ((r : String)
            → contains (map price_name (merge_pricing is_zero all).models) r
              ≡ contains (map price_name (all_models all)) r)
  unfolding merge_pricing
  merge_pricing-names all =
      let merge = merge_model_price is_zero in
      rw (models-scan_pricing all zero_meta []) (
        sorted_names price_name merge price_name-merge_model_price (all_models all)
          (values (collate price_name merge (all_models all) []))
          (key-values price_name merge price_name-merge_model_price (all_models all)))

  -- Merging what several accounts answer keeps the reference of every group, the name of every model
  -- of the catalogue and the name of every model that one of them prices, adds none, and lists each
  -- once.
  pub merges_keep_names :
      (groups : List (Group F)) (models : List (CatalogModel F)) (prices : List (Pricing F))
      → SameNames (map ref_of (merge_groups is_zero groups)) (map ref_of groups)
        × SameNames (map catalog_name (merge_catalog is_zero models)) (map catalog_name models)
        × SameNames
            (map price_name (merge_pricing is_zero prices).models)
            (map price_name (all_models prices))
  merges_keep_names groups models prices =
      (merge_groups-names groups, merge_catalog-names models, merge_pricing-names prices)
