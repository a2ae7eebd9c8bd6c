-- ===== src/Admin/Collectability/Verdict.antt =====
-- About the modes and blockers of internal/admin/collectability.go.
use multi_upstream_ai_gatewa.Prelude.{
  Bool, Bool-cases, List, Option, String, ℕ, [], any, arith, false, if◌then◌else◌, inl, inr, length,
  ltb, nat_eq, none, not, refl, some, string_eq, true, ◌&&◌, ◌==◌, ◌∙◌, ◌∷◌, ◌≡◌, ◌≤◌,
}
use multi_upstream_ai_gatewa.Admin.Collectability.{
  Blocker, Collect, Holder, Mode, account_collect, account_switch, channel_collect, channel_switch,
  collect_auto, collect_manual, collect_partial, counted, family_blocked, is_auto, judged, tally,
  unblocked,
}
use multi_upstream_ai_gatewa.Collector.Sync.{is_none}

abbrev pub active : Holder → Bool
active a = a.status == "active"

-- An enabled account that says it is collected automatically, and one that does not.
abbrev pub collects : String → Holder → Bool
collects family a = active a && is_auto (account_collect family none a).mode

abbrev pub stuck : String → Holder → Bool
stuck family a = active a && not (is_auto (account_collect family none a).mode)

-- Two numbers that the loop counts: none of the accounts collects, and none is enabled.
tally_lem :
    (family : String) (hs : List Holder)
    → ((tally family hs).0 == 0 ≡ not (any (collects family) hs))
      × (ltb (tally family hs).0 (tally family hs).1 ≡ any (stuck family) hs)
      × ((tally family hs).0 ≤ (tally family hs).1)
unfolding tally
tally_lem family [] = (refl, refl, omega arith)
tally_lem family (a ∷ hs) =
    let (none_ready, short, bound) = tally_lem family hs in
    elim (Bool-cases (active a)) [
      | inl b ↦ rw b (elim (Bool-cases (is_auto (account_collect family none a).mode)) [
        | inl d ↦ rw d (ground arith, ground arith, omega arith)
        | inr d ↦ rw d (ground arith, ground arith, omega arith)
      ])
      | inr b ↦ rw b (none_ready, short, bound)
    ]

judged-mode :
    (shield : Option Bool) (o : Option String) (v : Mode × Blocker × String)
    → (judged shield o v).mode ≡ (if is_none o then v.0 else collect_manual)
judged-mode shield none v = refl
judged-mode shield (some reason) v = refl

counted-mode :
    (o : Option String) (counts : ℕ × ℕ) (c : Collect) → (counted o counts c).mode ≡ c.mode
counted-mode none counts c = refl
counted-mode (some reason) counts c = refl

-- A channel whose family is blocked has no account that collects.
blocked-collects :
    (family : String) (hs : List Holder)
    → is_none (family_blocked family) ≡ false
    → any (collects family) hs ≡ false
unfolding account_collect
blocked-collects family [] h = refl
blocked-collects family (a ∷ hs) h = ground (
  arith,
  judged-mode none (family_blocked family) (account_switch family a),
  blocked-collects family hs h,
)

if-not : (b : Bool) (x y : Mode) → (if not b then x else y) ≡ (if b then y else x)
if-not true x y = refl
if-not false x y = refl

-- The mode that the switch of channelCollect gives to the counts of the loop.
switch_mode :
    (decimal : ℕ → String) (n ready total : ℕ)
    → ready ≤ total
    → (channel_switch decimal n (ready, total)).0 ≡ (
        if ready == 0
        then collect_manual
        else if ltb ready total
        then collect_partial
        else collect_auto)
unfolding channel_switch
switch_mode decimal n ready total h = ground arith

-- A channel is collected automatically if some enabled account is and none is stuck, partly if
-- some is and some other is stuck, and by hand if none is; a family that blocks makes none.
channel_collect-mode :
    (decimal : ℕ → String) (family : String) (shield : Option Bool) (accounts : List Holder)
    → (channel_collect decimal family shield accounts).mode ≡ (
        if any (collects family) accounts
        then (if any (stuck family) accounts then collect_partial else collect_auto)
        else collect_manual)
unfolding channel_collect
channel_collect-mode decimal family shield accounts =
    let counts = tally family accounts in
    let verdict = channel_switch decimal (length accounts) counts in
    let (none_ready, short, bound) = tally_lem family accounts in
    let known = is_none (family_blocked family) in
    let step : (channel_collect decimal family shield accounts).mode
        ≡ (if known then verdict.0 else collect_manual) =
      counted-mode (family_blocked family) counts (judged shield (family_blocked family) verdict)
      ∙ judged-mode shield (family_blocked family) verdict in
    elim (Bool-cases known) [
      | inl k ↦
          step
          ∙ rw (k, switch_mode decimal (length accounts) counts.0 counts.1 bound, none_ready, short)
              (if-not (any (collects family) accounts) collect_manual _)
      | inr k ↦ step ∙ rw (k, blocked-collects family accounts k) refl
    ]

abbrev pub is_unblocked : Blocker → Bool
is_unblocked unblocked = true
is_unblocked _ = false

-- No blocker is named exactly if the mode is automatic, for an account and for a channel.
account_switch_unblocked :
    (family : String) (a : Holder)
    → is_unblocked (account_switch family a).1 ≡ is_auto (account_switch family a).0
unfolding account_switch
account_switch_unblocked family a = ground arith

channel_switch_unblocked :
    (decimal : ℕ → String) (n : ℕ) (counts : ℕ × ℕ)
    → is_unblocked (channel_switch decimal n counts).1 ≡ is_auto (channel_switch decimal n counts).0
unfolding channel_switch
channel_switch_unblocked decimal n counts = ground arith

judged-unblocked :
    (shield : Option Bool) (o : Option String) (v : Mode × Blocker × String)
    → is_unblocked v.1 ≡ is_auto v.0
    → is_unblocked (judged shield o v).blocker ≡ is_auto (judged shield o v).mode
judged-unblocked shield none v h = h
judged-unblocked shield (some reason) v h = refl

counted-blocker :
    (o : Option String) (counts : ℕ × ℕ) (c : Collect) → (counted o counts c).blocker ≡ c.blocker
counted-blocker none counts c = refl
counted-blocker (some reason) counts c = refl

-- An account, and a channel, names no blocker exactly if it is collected automatically.
blocker-mode :
    (decimal : ℕ → String) (family : String) (shield : Option Bool) (a : Holder)
    (accounts : List Holder)
    → (is_unblocked (account_collect family shield a).blocker
        ≡ is_auto (account_collect family shield a).mode)
      × (is_unblocked (channel_collect decimal family shield accounts).blocker
          ≡ is_auto (channel_collect decimal family shield accounts).mode)
unfolding account_collect channel_collect
blocker-mode decimal family shield a accounts =
    let o = family_blocked family in
    let counts = tally family accounts in
    let verdict = channel_switch decimal (length accounts) counts in
    (
      judged-unblocked shield o (account_switch family a) (account_switch_unblocked family a),
      rw
          (
            counted-blocker o counts (judged shield o verdict),
            counted-mode o counts (judged shield o verdict),
          )
          (judged-unblocked shield o verdict
            (channel_switch_unblocked decimal (length accounts) counts)),
    )

-- A channel is collected automatically if some enabled account is and none is stuck, partly if
-- some is and some other is stuck, and by hand if none is; a family that blocks makes none. An account,
-- and a channel, names no blocker exactly if it is collected automatically.
pub channel_collect_lem :
    (decimal : ℕ → String) (family : String) (shield : Option Bool) (a : Holder)
    (accounts : List Holder)
    → ((channel_collect decimal family shield accounts).mode ≡ (
        if any (collects family) accounts
        then (if any (stuck family) accounts then collect_partial else collect_auto)
        else collect_manual))
      × (is_unblocked (account_collect family shield a).blocker
          ≡ is_auto (account_collect family shield a).mode)
      × (is_unblocked (channel_collect decimal family shield accounts).blocker
          ≡ is_auto (channel_collect decimal family shield accounts).mode)
channel_collect_lem decimal family shield a accounts =
    let (one, whole) = blocker-mode decimal family shield a accounts in
    (channel_collect-mode decimal family shield accounts, one, whole)
