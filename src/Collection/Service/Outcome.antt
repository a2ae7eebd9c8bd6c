-- ===== src/Collection/Service/Outcome.antt =====
-- What one collection of a channel reports: completedCapabilities and collectChannel.
use mathlib.Core.Path.{fun_ext}
use mathlib.Core.List.{append-nil, Perm}
use mathlib.Core.List.Perm
use multi_upstream_ai_gatewa.Prelude.{
  Bool, List, Option, ℕ, [], any, ap, arith, contains, contains-select, false, if◌then◌else◌, map,
  nat_eq, none, not, refl, select, select-perm, some, string_eq, true, ◌&&◌, ◌++◌, ◌==◌, ◌||◌, ◌∙◌,
  ◌∷◌, ◌≡◌,
}
use multi_upstream_ai_gatewa.Collection.Schedule.{CapabilityFailure, key_eq}
use multi_upstream_ai_gatewa.Collection.Service.{
  Attempt, ChannelOutcome, ChannelTask, LockReply, Sorting, SyncReply, after_sync, collect_channel,
  collect_locked, completed_capabilities, failures_for, item_failure, lock_busy, lock_error,
  lock_held, place, scan_items, sort_capabilities, sync_error, sync_nil, synced,
}
use multi_upstream_ai_gatewa.Collector.Contract.{
  Capability, SyncItem, SyncResult, capability_beq_iff, capability_eq, family_eq, is_failure,
}
use multi_upstream_ai_gatewa.Collector.Errors.{is}
use multi_upstream_ai_gatewa.Prelude.Dict.{Dict, insert, lookup, lookup-insert}

-- An item of the result reports `c` as failed or as partly done.
abbrev pub failed_item : Capability → SyncItem → Bool
failed_item c i = is_failure i.status && i.capability == c

-- The result has an item for `c`, and none that failed.
abbrev pub reported_ok : SyncResult → Capability → Bool
reported_ok r c =
    contains (map (λ (i : SyncItem). i.capability) r.items) c && not (any (failed_item c) r.items)

abbrev pub capabilities_of : List CapabilityFailure → List Capability
capabilities_of fs = map (λ (f : CapabilityFailure). f.capability) fs

abbrev is_some {ℓ} : {A : Type ℓ} → Option A → Bool
is_some none = false
is_some (some _) = true

is_some-scan_items :
    (channel : ℕ) (c : Capability) (is : List SyncItem) (m : Dict Capability CapabilityFailure)
    → is_some (lookup c (scan_items channel is m))
      ≡ (any (failed_item c) is || is_some (lookup c m))
unfolding scan_items
is_some-scan_items channel c [] m = refl
is_some-scan_items channel c (i ∷ is) m =
    is_some-scan_items channel c is
      (if is_failure i.status then insert i.capability (item_failure i) m else m)
    ∙ scan_step (is_failure i.status)
  where
    scan_step :
        (b : Bool)
        → (any (failed_item c) is
            || is_some (lookup c (if b then insert i.capability (item_failure i) m else m)))
          ≡ ((b && i.capability == c) || any (failed_item c) is || is_some (lookup c m))
    scan_step true = ground (arith, lookup-insert i.capability c (item_failure i) m)
    scan_step false = refl

-- Every entry stands under its own capability.
IsKeyed : Dict Capability CapabilityFailure → Type 0
IsKeyed m = (c : Capability) (f : CapabilityFailure) → lookup c m ≡ some f → f.capability ≡ c

IsKeyed-insert :
    (b : Bool) (i : SyncItem) (m : Dict Capability CapabilityFailure)
    → IsKeyed m
    → IsKeyed (if b then insert i.capability (item_failure i) m else m)
unfolding IsKeyed item_failure
IsKeyed-insert false i m h = h
IsKeyed-insert true i m h = λ c f p. ground (
  arith,
  lookup-insert i.capability c (item_failure i) m,
  capability_beq_iff i.capability c,
  h c f,
)

scan_items-IsKeyed :
    (channel : ℕ) (is : List SyncItem) (m : Dict Capability CapabilityFailure)
    → IsKeyed m
    → IsKeyed (scan_items channel is m)
unfolding scan_items
scan_items-IsKeyed channel [] m h = h
scan_items-IsKeyed channel (i ∷ is) m h =
    scan_items-IsKeyed channel is
      (if is_failure i.status then insert i.capability (item_failure i) m else m)
      (IsKeyed-insert (is_failure i.status) i m h)

module _ (channel : ℕ) (seen : List Capability) (m : Dict Capability CapabilityFailure)
    (keyed : IsKeyed m) where
  -- The test of the second loop.
  abbrev passes : Capability → Bool
  passes c = contains seen c && not (is_some (lookup c m))

  place-passes :
      (c : Capability) (s : Sorting) (b : Bool) (o : Option CapabilityFailure)
      → ((f : CapabilityFailure) → o ≡ some f → f.capability ≡ c)
      → ((place channel b o c s).0 ≡ (if b && not (is_some o) then c ∷ s.0 else s.0))
        × (capabilities_of (place channel b o c s).1
            ≡ (if not (b && not (is_some o)) then c ∷ capabilities_of s.1 else capabilities_of s.1))
  unfolding place
  place-passes c s true none h = (refl, refl)
  place-passes c s false none h = (refl, refl)
  place-passes c s true (some f) h =
      (refl, ap (λ (x : Capability). x ∷ capabilities_of s.1) (h f refl))
  place-passes c s false (some f) h =
      (refl, ap (λ (x : Capability). x ∷ capabilities_of s.1) (h f refl))

  sort_capabilities-select :
      (cs : List Capability)
      → ((sort_capabilities channel seen m cs).0 ≡ select passes cs)
        × (capabilities_of (sort_capabilities channel seen m cs).1
            ≡ select (λ c. not (passes c)) cs)
  unfolding sort_capabilities IsKeyed
  sort_capabilities-select [] = (refl, refl)
  sort_capabilities-select (c ∷ cs) =
      let ih = sort_capabilities-select cs in
      let p =
        place-passes c (sort_capabilities channel seen m cs) (contains seen c) (lookup c m)
          (keyed c) in
      (
        p.0 ∙ ap (λ (xs : List Capability). if passes c then c ∷ xs else xs) ih.0,
        p.1 ∙ ap (λ (xs : List Capability). if not (passes c) then c ∷ xs else xs) ih.1,
      )

IsKeyed-nil : IsKeyed []
unfolding IsKeyed lookup
IsKeyed-nil c f p = cc

reported_ok-passes :
    (channel : ℕ) (r : SyncResult) (c : Capability)
    → passes channel
        (map (λ (i : SyncItem). i.capability) r.items)
        (scan_items channel r.items [])
        (scan_items-IsKeyed channel r.items [] IsKeyed-nil)
        c
      ≡ reported_ok r c
unfolding lookup
reported_ok-passes channel r c = rw is_some-scan_items (ground arith)

-- completedCapabilities sorts the capabilities of the task by one test: those for which the result
-- has an item and no failed or partial one are completed, the others are retried, and both lists
-- keep the order of the task.
pub completed_capabilities_lem :
    (task : ChannelTask) (r : SyncResult)
    → ((completed_capabilities task r).0 ≡ select (reported_ok r) task.capabilities)
      × (capabilities_of (completed_capabilities task r).1
          ≡ select (λ c. not (reported_ok r c)) task.capabilities)
unfolding completed_capabilities
completed_capabilities_lem task r =
    let ch = task.channel.id in
    let keyed = scan_items-IsKeyed ch r.items [] IsKeyed-nil in
    let p =
      sort_capabilities-select ch (map (λ (i : SyncItem). i.capability) r.items)
        (scan_items ch r.items []) keyed task.capabilities in
    (
      p.0
          ∙ ap (λ (q : Capability → Bool). select q task.capabilities)
              (fun_ext (reported_ok-passes ch r)),
      p.1
          ∙ ap (λ (q : Capability → Bool). select (λ c. not (q c)) task.capabilities)
              (fun_ext (reported_ok-passes ch r)),
    )

pub capabilities-failures_for :
    (cs : List Capability) (status retry_after : ℕ)
    → capabilities_of (failures_for cs status retry_after) ≡ cs
unfolding failures_for
capabilities-failures_for [] status retry_after = refl
capabilities-failures_for (c ∷ cs) status retry_after =
    ap (λ (xs : List Capability). c ∷ xs) (capabilities-failures_for cs status retry_after)

-- The capabilities of an outcome: completed, then failed, then skipped.
abbrev pub all_of : ChannelOutcome → List Capability
all_of o = o.completed ++ (capabilities_of o.failed ++ o.skipped)

after_sync-perm :
    (task : ChannelTask) (at : ℕ) (reply : SyncReply)
    → Perm (all_of (after_sync task at reply)) task.capabilities
unfolding after_sync
after_sync-perm task at (sync_error e) =
    rw (append-nil, capabilities-failures_for) (Perm.refl task.capabilities)
after_sync-perm task at sync_nil =
    rw (append-nil, capabilities-failures_for) (Perm.refl task.capabilities)
after_sync-perm task at (synced r) =
    rw (append-nil, (completed_capabilities_lem task r).0, (completed_capabilities_lem task r).1)
      (select-perm (reported_ok r) (λ c. not (reported_ok r c)) task.capabilities (λ c. refl))

-- Whatever the lock and the synchronisation answer, every capability of the task ends in exactly one
-- of the three lists of the outcome, as often as it stands in the task: none is forgotten, and none
-- is both completed and retried.
pub collect_channel-perm :
    (task : ChannelTask) (a : Attempt) → Perm (all_of (collect_channel task a)) task.capabilities
unfolding collect_channel collect_locked
collect_channel-perm task a = locked a.lock
  where
    locked : (l : LockReply) → Perm (all_of (collect_locked task a l)) task.capabilities
    locked (lock_error e) = rw (append-nil, capabilities-failures_for) (Perm.refl task.capabilities)
    locked lock_busy = Perm.refl task.capabilities
    locked lock_held = after_sync-perm task a.finished a.reply

-- A capability is completed only if the channel's lock was held, the synchronisation returned a
-- result, and that result has an item for it and none that failed or was partial.
pub collect_channel-completed :
    (task : ChannelTask) (a : Attempt) (c : Capability)
    → contains (collect_channel task a).completed c ≡ true
    → (a.lock ≡ lock_held) × ((r : SyncResult) × (a.reply ≡ synced r) × (reported_ok r c ≡ true))
unfolding collect_channel collect_locked after_sync
collect_channel-completed task a c = locked a.lock refl
  where
    Goal : Type 0
    Goal =
        (a.lock ≡ lock_held) × ((r : SyncResult) × (a.reply ≡ synced r) × (reported_ok r c ≡ true))

    replied :
        a.lock ≡ lock_held
        → (y : SyncReply) → a.reply ≡ y
        → contains (after_sync task a.finished y).completed c ≡ true
        → Goal
    replied l (sync_error e) q h = cc
    replied l sync_nil q h = cc
    replied l (synced r) q h = (
      l,
      (
        r,
        q,
        ground (
          arith,
          contains-select (reported_ok r) task.capabilities c,
          (completed_capabilities_lem task r).0,
        ),
      ),
    )

    locked :
        (l : LockReply) → a.lock ≡ l → contains (collect_locked task a l).completed c ≡ true → Goal
    locked (lock_error e) q h = cc
    locked lock_busy q h = cc
    locked lock_held q h = replied q a.reply refl h
