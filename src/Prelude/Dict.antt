-- ===== src/Prelude/Dict.antt =====
-- Go maps as association lists with one entry for each key.
use mathlib.Core.Path.{◌≡◌, refl}
use mathlib.Core.Bool.{Bool}
use mathlib.Core.Option.{Option, none, some}
use mathlib.Core.List.{List, [], ◌∷◌}
use native.Mathlib.Omega.{arith}
use multi_upstream_ai_gatewa.Prelude.Tests.{Eq, ◌==◌, if◌then◌else◌}

abbrev pub Dict {ℓ κ} : Type ℓ → Type κ → Type (ℓ ⊔ κ)
Dict K V = List (K × V)

module _ {ℓ κ} {K : Type ℓ} {V : Type κ} ⦃e : Eq K⦄ where
  -- v, ok := m[k]
  unfoldable pub lookup : K → Dict K V → Option V
  lookup key [] = none
  lookup key ((i, w) ∷ m) = if i == key then some w else lookup key m

  -- m[k] = v
  unfoldable pub insert : K → V → Dict K V → Dict K V
  insert key val [] = (key, val) ∷ []
  insert key val ((i, w) ∷ m) = if i == key then (key, val) ∷ m else (i, w) ∷ insert key val m

  -- delete(m, k)
  unfoldable pub delete : K → Dict K V → Dict K V
  delete k [] = []
  delete k ((j, w) ∷ m) = let rest = delete k m in if j == k then rest else (j, w) ∷ rest

  -- for k := range m { if !keep(k) { delete(m, k) } }
  unfoldable pub retain : (K → Bool) → Dict K V → Dict K V
  retain keep [] = []
  retain keep ((j, w) ∷ m) = let rest = retain keep m in if keep j then (j, w) ∷ rest else rest

  pub lookup-insert :
      (new key : K) (val : V) (m : Dict K V)
      → lookup key (insert new val m) ≡ (if new == key then some val else lookup key m)
  unfolding lookup insert
  lookup-insert new key val [] = refl
  lookup-insert new key val ((i, w) ∷ m) =
      ground
        (arith, lookup-insert new key val m, e.beq_iff new key, e.beq_iff i new, e.beq_iff i key)

  pub lookup-delete :
      (k j : K) (m : Dict K V) → lookup j (delete k m) ≡ (if k == j then none else lookup j m)
  unfolding lookup delete
  lookup-delete k j [] = ground arith
  lookup-delete k j ((i, w) ∷ m) =
      ground (arith, e.beq_iff k j, e.beq_iff i k, e.beq_iff i j, lookup-delete k j m)

  pub lookup-retain :
      (keep : K → Bool) (j : K) (m : Dict K V)
      → lookup j (retain keep m) ≡ (if keep j then lookup j m else none)
  unfolding lookup retain
  lookup-retain keep j [] = ground arith
  lookup-retain keep j ((i, w) ∷ m) = ground (arith, e.beq_iff i j, lookup-retain keep j m)

  pub lookup-insert_self : (k : K) (v : V) (m : Dict K V) → lookup k (insert k v m) ≡ some v
  lookup-insert_self k v m = ground (arith, lookup-insert k k v m, e.beq_iff k k)

pub ruleset dict_laws = (lookup-insert, lookup-delete, lookup-retain)
