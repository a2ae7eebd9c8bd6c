-- ===== src/Store/Config/Chain.antt =====
-- About the versions that internal/store/config_write.go makes.
use mathlib.Core.List.{append_assoc}
use mathlib.Core.List.{append_assoc}
use multi_upstream_ai_gatewa.Prelude.{
  Bool, Bool-cases, List, Option, [], arith, false, if◌then◌else◌, inl, inr, nat_beq_iff, nat_eq,
  none, not, refl, some, string_eq, sym, true, ◌&&◌, ◌++◌, ◌+◌, ◌==◌, ◌∷◌, ◌≡◌, ◌⊎◌,
}
use multi_upstream_ai_gatewa.Store.Config.{
  Applied, Change, ConfigRow, ConfigTable, apply_config, conflicts, delivered, existing_row,
  insert_version, newest_row, row_after, unless_delivered,
}

-- A row continues the newest one before it.
abbrev pub Continues : ConfigRow → Option ConfigRow → Type 0
Continues r none = Unit
Continues r (some cur) = (r.version ≡ cur.version + 1) × (r.prev_value ≡ some cur.param_value)

-- Each row continues the newest one of its key before it, and no earlier one has its idempotency key.
abbrev pub Chained : ConfigTable → Type 0
Chained [] = Unit
Chained (r ∷ rs) =
    Continues r (newest_row r.param_key rs)
    × ((if r.idempotency_key == "" then none else delivered r.param_key r.idempotency_key rs)
        ≡ none)
    × Chained rs

-- What ApplyConfig does, for each of its results.
abbrev pub Effect : Change → ConfigTable → Applied → Type 0
Effect c rows (inr e, rows') = rows' ≡ rows
Effect c rows (inl a, rows') =
    ((a.idempotent ≡ true)
      × (rows' ≡ rows)
      × ((r : ConfigRow) × (delivered c.key c.idempotency rows ≡ some r)
          × (a.new_version ≡ r.version)))
    ⊎ ((a.idempotent ≡ false)
        × ((cur : ConfigRow) × (newest_row c.key rows ≡ some cur)
            × (rows' ≡ row_after c cur ∷ rows)
            × (a.new_version ≡ cur.version + 1)
            × (a.prev_value ≡ cur.param_value)
            × ((c.expected_version ≡ 0) ⊎ (c.expected_version ≡ cur.version))))

conflicts-false :
    (c : Change) (cur : ConfigRow)
    → conflicts c cur ≡ false
    → (c.expected_version ≡ 0) ⊎ (c.expected_version ≡ cur.version)
conflicts-false c cur h = elim (Bool-cases (c.expected_version == 0)) [
  | inl z ↦ inl ((nat_beq_iff c.expected_version 0).0 z)
  | inr z ↦ inr ((nat_beq_iff c.expected_version cur.version).0 (ground (arith, h, z)))
]

insert_version-Effect :
    (commits : Bool) (c : Change) (rows : ConfigTable) (o : Option ConfigRow)
    → newest_row c.key rows ≡ o
    → Effect c rows (insert_version commits c rows o)
insert_version-Effect commits c rows none h = refl
insert_version-Effect true c rows (some cur) h = elim (Bool-cases (conflicts c cur)) [
  | inl b ↦ rw b refl
  | inr b ↦ rw b (inr (refl, (cur, h, refl, refl, refl, conflicts-false c cur b)))
]
insert_version-Effect false c rows (some cur) h = elim (Bool-cases (conflicts c cur)) [
  | inl b ↦ rw b refl
  | inr b ↦ rw b refl
]

unless_delivered-Effect :
    (commits : Bool) (c : Change) (rows : ConfigTable) (o : Option ConfigRow)
    → existing_row c rows ≡ o
    → Effect c rows (unless_delivered commits c rows o)
unless_delivered-Effect commits c rows none h =
    insert_version-Effect commits c rows (newest_row c.key rows) refl
unless_delivered-Effect commits c rows (some r) h = inl (refl, refl, (r, ground (arith, h), refl))

pub apply_config-Effect :
    (commits : Bool) (c : Change) (rows : ConfigTable) → Effect c rows (apply_config commits c rows)
unfolding apply_config
apply_config-Effect commits c rows = elim (Bool-cases (c.critical && not c.confirmed)) [
  | inl b ↦ rw b refl
  | inr b ↦ rw b (unless_delivered-Effect commits c rows (existing_row c rows) refl)
]

-- A new row continues the chain.
unless_delivered-Chained :
    (commits : Bool) (c : Change) (rows : ConfigTable) (o : Option ConfigRow)
    → existing_row c rows ≡ o
    → Chained rows
    → Chained (unless_delivered commits c rows o).1
unless_delivered-Chained commits c rows (some r) h chained = chained
unless_delivered-Chained commits c rows none h chained =
    insert_version-Chained (newest_row c.key rows) refl
  where
    insert_version-Chained :
        (o : Option ConfigRow)
        → newest_row c.key rows ≡ o
        → Chained (insert_version commits c rows o).1
    insert_version-Chained none e = chained
    insert_version-Chained (some cur) e = elim (Bool-cases (conflicts c cur)) [
      | inl b ↦ rw b chained
      | inr b ↦ elim (Bool-cases commits) [
        | inl y ↦ rw (b, y, e) ((refl, refl), h, chained)
        | inr n ↦ rw (b, n) chained
      ]
    ]

apply_config-Chained :
    (commits : Bool) (c : Change) (rows : ConfigTable)
    → Chained rows
    → Chained (apply_config commits c rows).1
unfolding apply_config
apply_config-Chained commits c rows h = elim (Bool-cases (c.critical && not c.confirmed)) [
  | inl b ↦ rw b h
  | inr b ↦ rw b (unless_delivered-Chained commits c rows (existing_row c rows) refl h)
]

-- A change leaves the earlier rows as they are.
apply_config-append :
    (commits : Bool) (c : Change) (rows : ConfigTable)
    → (added : ConfigTable) × ((apply_config commits c rows).1 ≡ added ++ rows)
apply_config-append commits c rows =
    from_effect (apply_config commits c rows) (apply_config-Effect commits c rows)
  where
    from_effect : (a : Applied) → Effect c rows a → (added : ConfigTable) × (a.1 ≡ added ++ rows)
    from_effect (inr e, rows') h = ([], h)
    from_effect (inl a, rows') (inl (again, same, r)) = ([], same)
    from_effect (inl a, rows') (inr (fresh, (cur, found, same, v, p, expected))) =
        (row_after c cur ∷ [], same)

-- Changes one after the other, each with whether the database takes it.
unfoldable pub apply_all : List (Bool × Change) → ConfigTable → ConfigTable
apply_all [] rows = rows
apply_all ((commits, c) ∷ cs) rows = apply_all cs (apply_config commits c rows).1

-- Any sequence of changes, whether they are made, refused or lost, leaves a chained table chained:
-- each version of a parameter is one more than the newest before it and records its value, and an
-- idempotency key has one row at most; and it only adds rows, so that no history is rewritten.
pub apply_all-Chained :
    (cs : List (Bool × Change)) (rows : ConfigTable)
    → Chained rows
    → Chained (apply_all cs rows) × ((added : ConfigTable) × (apply_all cs rows ≡ added ++ rows))
unfolding apply_all
apply_all-Chained [] rows h = (h, ([], refl))
apply_all-Chained ((commits, c) ∷ cs) rows h =
    let (chained, (later, e)) =
      apply_all-Chained cs (apply_config commits c rows).1
        (apply_config-Chained commits c rows h) in
    let (added, d) = apply_config-append commits c rows in
    (chained, (later ++ added, rw (e, d) (sym (append_assoc later added rows))))
