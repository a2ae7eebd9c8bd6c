-- ===== src/Prelude/Lists.antt =====
-- Lists measured by native numbers, and membership as a Boolean test.
use Prim.Native.Nat.{ℕ, zero, suc, ◌+◌}
use mathlib.Core.Path.{◌≡◌, refl, ap}
use mathlib.Core.Logic.{◌⊎◌, inl, inr}
use mathlib.Core.Bool.{Bool, false, not, ◌&&◌, ◌||◌}
use mathlib.Core.List.{List, [], ◌∷◌, ◌++◌, Perm, perm_middle}
use mathlib.Core.List.Perm
use native.Mathlib.Omega.{arith}
use multi_upstream_ai_gatewa.Prelude.Tests.{Eq, ◌==◌, if◌then◌else◌, Bool-cases}

module _ {ℓ} {A : Type ℓ} where
  abbrev pub length : List A → ℕ
  length [] = 0
  length (x ∷ xs) = suc (length xs)

  pub length-append : (xs ys : List A) → length (xs ++ ys) ≡ length xs + length ys
  length-append [] ys = omega arith
  length-append (x ∷ xs) ys = omega (arith, length-append xs ys)

  -- Every element satisfies `P`.
  abbrev pub All {κ} : (A → Type κ) → List A → Type κ
  All P [] = Unit
  All P (x ∷ xs) = P x × All P xs

  pub All-append {κ} : (P : A → Type κ) (xs ys : List A) → All P xs → All P ys → All P (xs ++ ys)
  All-append P [] ys h k = k
  All-append P (x ∷ xs) ys h k = (h.0, All-append P xs ys h.1 k)

  -- Some element satisfies `P`.
  abbrev pub Any : (A → Type 0) → List A → Type 0
  Any P [] = ⊥
  Any P (x ∷ xs) = P x ⊎ Any P xs

-- slices.Contains
module _ {ℓ} {A : Type ℓ} ⦃e : Eq A⦄ where
  abbrev pub contains : List A → A → Bool
  contains [] a = false
  contains (x ∷ xs) a = x == a || contains xs a

module _ {ℓ} {A : Type ℓ} where
  -- The elements that pass a test, in their order.
  abbrev pub select : (A → Bool) → List A → List A
  select p [] = []
  select p (x ∷ xs) = let rest = select p xs in if p x then x ∷ rest else rest

  -- Some element passes a test.
  abbrev pub any : (A → Bool) → List A → Bool
  any p [] = false
  any p (x ∷ xs) = p x || any p xs

  pub select-perm :
      (p q : A → Bool) (xs : List A)
      → ((x : A) → q x ≡ not (p x))
      → Perm (select p xs ++ select q xs) xs
  select-perm p q [] h = Perm.refl []
  select-perm p q (x ∷ xs) h = elim (Bool-cases (p x)) [
    | inl t ↦ rw (h x, t) (Perm.cons x (select-perm p q xs h))
    | inr f ↦
        rw (h x, f)
          (Perm.trans (perm_middle (select p xs) (select q xs))
            (Perm.cons x (select-perm p q xs h)))
  ]

module _ {ℓ} {A : Type ℓ} ⦃e : Eq A⦄ where
  pub contains-select :
      (p : A → Bool) (xs : List A) (a : A) → contains (select p xs) a ≡ (contains xs a && p a)
  contains-select p [] a = refl
  contains-select p (x ∷ xs) a = ground (arith, contains-select p xs a, e.beq_iff x a)

  pub contains-append :
      (xs ys : List A) (a : A) → contains (xs ++ ys) a ≡ (contains xs a || contains ys a)
  contains-append [] ys a = refl
  contains-append (x ∷ xs) ys a = ground (arith, contains-append xs ys a)

  -- No element stands twice.
  abbrev pub Unique : List A → Type 0
  Unique [] = Unit
  Unique (x ∷ xs) = (contains xs x ≡ false) × Unique xs

  pub Unique-apart :
      (xs : List A) (y : A) (ys : List A) → Unique (xs ++ y ∷ ys) → contains xs y ≡ false
  Unique-apart [] y ys h = refl
  Unique-apart (x ∷ xs) y ys h = ground (
    arith,
    Unique-apart xs y ys h.1,
    h.0,
    contains-append xs (y ∷ ys) x,
    e.beq_iff x y,
    e.beq_iff y x,
  )

  pub Unique-append :
      (xs : List A) (a : A) → Unique xs → contains xs a ≡ false → Unique (xs ++ a ∷ [])
  Unique-append [] a u h = (refl, tt)
  Unique-append (x ∷ xs) a u h = (
    ground (arith, u.0, h, contains-append xs (a ∷ []) x, e.beq_iff a x, e.beq_iff x a),
    Unique-append xs a u.1 (ground (arith, h)),
  )

module _ {ℓ} {A : Type ℓ} where
  -- xs[:n] and xs[n:], where n is at most the length
  abbrev pub take : ℕ → List A → List A
  take zero xs = []
  take (suc n) [] = []
  take (suc n) (x ∷ xs) = x ∷ take n xs

  abbrev pub drop : ℕ → List A → List A
  drop zero xs = xs
  drop (suc n) [] = []
  drop (suc n) (x ∷ xs) = drop n xs

  pub take-append : (xs ys : List A) → take (length xs) (xs ++ ys) ≡ xs
  take-append [] ys = refl
  take-append (x ∷ xs) ys = ap (λ zs. x ∷ zs) (take-append xs ys)

  pub drop-append : (xs ys : List A) → drop (length xs) (xs ++ ys) ≡ ys
  drop-append [] ys = refl
  drop-append (x ∷ xs) ys = drop-append xs ys
