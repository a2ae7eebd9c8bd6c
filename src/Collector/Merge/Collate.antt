-- ===== src/Collector/Merge/Collate.antt =====
-- About the names that mergeGroups, mergePricing and mergeCatalog of internal/collector/sync.go keep.
use mathlib.Core.Path.{subst}
use multi_upstream_ai_gatewa.Prelude.{
  All, Bool, Bool-cases, List, Option, String, Unique, [], ap, arith, contains, false, inl, inr,
  map, nat_eq, none, refl, some, string_eq, sym, ◌==◌, ◌||◌, ◌∙◌, ◌∷◌, ◌≡◌,
}
use multi_upstream_ai_gatewa.Collector.Merge.{collate, merged, put, sort_by, text_le, values}
use multi_upstream_ai_gatewa.Prelude.Dict.{Dict, insert, lookup}

module _ {A : Type 0} (key : A → String) where
  contains-put :
      (a : A) (xs : List A) (s : String)
      → contains (map key (put key a xs)) s ≡ (key a == s || contains (map key xs) s)
  unfolding put
  contains-put a [] s = refl
  contains-put a (x ∷ xs) s = ground (arith, contains-put a xs s)

  pub contains-sort_by :
      (xs : List A) (s : String) → contains (map key (sort_by key xs)) s ≡ contains (map key xs) s
  unfolding sort_by
  contains-sort_by [] s = refl
  contains-sort_by (x ∷ xs) s = contains-put x (sort_by key xs) s ∙ rw (contains-sort_by xs s) refl

  Unique-put :
      (a : A) (xs : List A)
      → contains (map key xs) (key a) ≡ false
      → Unique (map key xs)
      → Unique (map key (put key a xs))
  unfolding put
  Unique-put a [] h u = (refl, tt)
  Unique-put a (x ∷ xs) h u = elim (Bool-cases (text_le (key a) (key x))) [
    | inl b ↦ rw b (h, u)
    | inr b ↦ rw b (
      ground (
        arith,
        h,
        u.0,
        contains-put a xs (key x),
        string_eq.beq_iff (key a) (key x),
        string_eq.beq_iff (key x) (key a),
      ),
      Unique-put a xs (ground (arith, h)) u.1,
    )
  ]

  pub Unique-sort_by : (xs : List A) → Unique (map key xs) → Unique (map key (sort_by key xs))
  unfolding sort_by
  Unique-sort_by [] u = tt
  Unique-sort_by (x ∷ xs) u =
      Unique-put x (sort_by key xs) (contains-sort_by xs (key x) ∙ u.0) (Unique-sort_by xs u.1)

-- The keys of a map, and that every entry stands under its own key.
abbrev pub keys_of : {A : Type 0} → Dict String A → List String
keys_of m = map (λ e. e.0) m

module _ {A : Type 0} where
  contains-insert :
      (s : String) (a : A) (m : Dict String A) (r : String)
      → contains (keys_of (insert s a m)) r ≡ (s == r || contains (keys_of m) r)
  unfolding insert
  contains-insert s a [] r = refl
  contains-insert s a ((j, w) ∷ m) r =
      ground (arith, contains-insert s a m r, string_eq.beq_iff j s)

  insert-Unique :
      (s : String) (a : A) (m : Dict String A)
      → Unique (keys_of m)
      → Unique (keys_of (insert s a m))
  unfolding insert
  insert-Unique s a [] u = (refl, tt)
  insert-Unique s a ((j, w) ∷ m) u = elim (Bool-cases (j == s)) [
    | inl b ↦ rw (b, ← (string_eq.beq_iff j s).0 b) (u.0, u.1)
    | inr b ↦ rw b (
      ground (arith, u.0, contains-insert s a m j, string_eq.beq_iff j s, string_eq.beq_iff s j),
      insert-Unique s a m u.1,
    )
  ]

module _ {A : Type 0} (key : A → String) where
  abbrev Keyed : Dict String A → Type 0
  Keyed m = All (λ (e : String × A). key e.1 ≡ e.0) m

  insert-Keyed :
      (s : String) (a : A) (m : Dict String A) → key a ≡ s → Keyed m → Keyed (insert s a m)
  unfolding insert
  insert-Keyed s a [] h k = (h, tt)
  insert-Keyed s a ((j, w) ∷ m) h k = elim (Bool-cases (j == s)) [
    | inl b ↦ rw b (h, k.1)
    | inr b ↦ rw b (k.0, insert-Keyed s a m h k.1)
  ]

  lookup-Keyed :
      (s : String) (m : Dict String A) (c : A) → Keyed m → lookup s m ≡ some c → key c ≡ s
  unfolding lookup
  lookup-Keyed s [] c k h = cc h
  lookup-Keyed s ((j, w) ∷ m) c k h = elim (Bool-cases (j == s)) [
    | inl b ↦
        (let found : Path (Option A) (some w) (some c) = rw b at h in
          cc (found, k.0, (string_eq.beq_iff j s).0 b))
    | inr b ↦ lookup-Keyed s m c k.1 (rw b at h)
  ]

  values-Keyed : (m : Dict String A) → Keyed m → map key (values m) ≡ keys_of m
  values-Keyed [] k = refl
  values-Keyed ((j, w) ∷ m) k = cc (k.0, values-Keyed m k.1)

module _ {A : Type 0} (key : A → String) where
  pub map-keeps :
      (f : A → A) → ((a : A) → key (f a) ≡ key a) → (xs : List A) → map key (map f xs) ≡ map key xs
  map-keeps f keeps [] = refl
  map-keeps f keeps (x ∷ xs) = cc (keeps x, map-keeps f keeps xs)

or_swap : (a b c : Bool) → (a || (b || c)) ≡ ((b || a) || c)
or_swap a b c = ground arith

or_false : (a : Bool) → (a || false) ≡ a
or_false a = ground arith

-- The loop keeps exactly the names of its input, each once, if merging keeps the name.
module _ {A : Type 0} (key : A → String) (merge : A → A → A)
    (same : (c x : A) → key c ≡ key x → key (merge c x) ≡ key x) where
  abbrev Names : Dict String A → Type 0
  Names m = Keyed key m × Unique (keys_of m)

  key-merged :
      (m : Dict String A) (x : A) (o : Option A)
      → Keyed key m
      → lookup (key x) m ≡ o
      → key (merged key merge o x) ≡ key x
  key-merged m x none k h = refl
  key-merged m x (some c) k h = same c x (lookup-Keyed key (key x) m c k h)

  collate-Names : (xs : List A) (m : Dict String A) → Names m → Names (collate key merge xs m)
  unfolding collate
  collate-Names [] m h = h
  collate-Names (x ∷ xs) m (k, u) =
      let next = merged key merge (lookup (key x) m) x in
      collate-Names xs (insert (key x) next m) (
        insert-Keyed key (key x) next m (key-merged m x (lookup (key x) m) k refl) k,
        insert-Unique (key x) next m u,
      )

  contains-collate :
      (xs : List A) (m : Dict String A) (r : String)
      → contains (keys_of (collate key merge xs m)) r
        ≡ (contains (map key xs) r || contains (keys_of m) r)
  unfolding collate
  contains-collate [] m r = refl
  contains-collate (x ∷ xs) m r =
      let next = merged key merge (lookup (key x) m) x in
      contains-collate xs (insert (key x) next m) r
      ∙ rw (contains-insert (key x) next m r) (or_swap (contains (map key xs) r) (key x == r) _)

  -- A list with the names of the map, sorted by them.
  pub sorted_names :
      (xs ys : List A)
      → map key ys ≡ keys_of (collate key merge xs [])
      → Unique (map key (sort_by key ys))
        × ((r : String) → contains (map key (sort_by key ys)) r ≡ contains (map key xs) r)
  sorted_names xs ys names =
      let (k, u) = collate-Names xs [] (tt, tt) in
      (
        Unique-sort_by key ys (subst Unique (sym names) u),
        λ r.
            contains-sort_by key ys r
            ∙ ap (λ ns. contains ns r) names
            ∙ contains-collate xs [] r
            ∙ or_false (contains (map key xs) r),
      )

  pub key-values :
      (xs : List A) → map key (values (collate key merge xs [])) ≡ keys_of (collate key merge xs [])
  key-values xs = values-Keyed key (collate key merge xs []) (collate-Names xs [] (tt, tt)).0
