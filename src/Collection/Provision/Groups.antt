-- ===== src/Collection/Provision/Groups.antt =====
-- About selectProvisionGroups and countProvisionGroups of internal/collection/runner.go.
use multi_upstream_ai_gatewa.Prelude.{
  Bool, Bool-cases, List, String, Unique, [], arith, beq_refl, contains, inl, inr, length, map,
  nat_eq, not, refl, select, string_eq, true, ◌&&◌, ◌||◌, ◌∙◌, ◌∷◌, ◌≡◌, ◌≤◌,
}
use multi_upstream_ai_gatewa.Collection.Provision.{
  TargetGroup, count_groups, count_provision_groups, eligible, pick_groups,
}

abbrev pub group_refs : List TargetGroup → List String
group_refs gs = map (λ (g : TargetGroup). g.group_ref) gs

module _ (model : String) (covered : List String) where
  -- The test of both loops, at the references that were seen.
  abbrev takes : List String → TargetGroup → Bool
  takes seen g =
      eligible model g && (not (contains covered g.group_ref) && not (contains seen g.group_ref))

  -- The references that are picked, by membership, beside those that were seen before.
  contains-pick_groups :
      (seen : List String) (gs : List TargetGroup) (r : String)
      → contains (group_refs (pick_groups model covered seen gs)) r ≡ (
          contains (group_refs (select (eligible model) gs)) r
          && (not (contains covered r) && not (contains seen r)))
  unfolding pick_groups
  contains-pick_groups seen [] r = refl
  contains-pick_groups seen (g ∷ gs) r = elim (Bool-cases (takes seen g)) [
    | inl t ↦ rw t (
        ground (
          arith,
          contains-pick_groups (g.group_ref ∷ seen) gs r,
          string_eq.beq_iff g.group_ref r,
          t,
        ))
    | inr f ↦
        rw f (ground (arith, contains-pick_groups seen gs r, string_eq.beq_iff g.group_ref r, f))
  ]

  Unique-pick_groups :
      (seen : List String) (gs : List TargetGroup)
      → Unique (group_refs (pick_groups model covered seen gs))
  unfolding pick_groups
  Unique-pick_groups seen [] = tt
  Unique-pick_groups seen (g ∷ gs) = elim (Bool-cases (takes seen g)) [
    | inl t ↦ rw t (
      ground
          (arith, contains-pick_groups (g.group_ref ∷ seen) gs g.group_ref, beq_refl g.group_ref),
      Unique-pick_groups (g.group_ref ∷ seen) gs,
    )
    | inr f ↦ rw f (Unique-pick_groups seen gs)
  ]

  -- No more groups are picked than are counted.
  length-pick_groups :
      (seen counted : List String) (gs : List TargetGroup)
      → ((r : String) → contains counted r ≡ true → (contains covered r || contains seen r) ≡ true)
      → length (pick_groups model covered seen gs) ≤ count_groups model counted gs
  unfolding pick_groups count_groups
  length-pick_groups seen counted [] h = omega arith
  length-pick_groups seen counted (g ∷ gs) h = elim (Bool-cases (takes seen g)) [
    | inl t ↦
        (let u : (eligible model g && not (contains counted g.group_ref)) ≡ true =
            ground (arith, t, h g.group_ref) in
          let more =
            length-pick_groups (g.group_ref ∷ seen) (g.group_ref ∷ counted) gs
              (λ r m. ground (arith, m, h r)) in
          rw (t, u) (omega (arith, more)))
    | inr f ↦ elim (Bool-cases (eligible model g && not (contains counted g.group_ref))) [
      | inl u ↦
          (let more =
              length-pick_groups seen (g.group_ref ∷ counted) gs
                (λ r m. ground (arith, m, h r, f, u, string_eq.beq_iff g.group_ref r)) in
            rw (f, u) (omega (arith, more)))
      | inr n ↦ rw (f, n) (length-pick_groups seen counted gs h)
    ]
  ]

  -- selectProvisionGroups picks each named group that offers the model and has no key exactly once,
  -- by its reference, and no other group; and countProvisionGroups counts at least as many.
  pub pick_groups_lem :
      (gs : List TargetGroup)
      → Unique (group_refs (pick_groups model covered [] gs))
        × ((r : String)
            → contains (group_refs (pick_groups model covered [] gs)) r
              ≡ (contains (group_refs (select (eligible model) gs)) r && not (contains covered r)))
        × (length (pick_groups model covered [] gs) ≤ count_provision_groups gs model)
  pick_groups_lem gs = (
    Unique-pick_groups [] gs,
    λ r. contains-pick_groups [] gs r ∙ ground arith,
    length-pick_groups [] [] gs (λ r m. cc m),
  )
