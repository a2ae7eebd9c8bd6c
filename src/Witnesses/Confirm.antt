-- ===== src/Witnesses/Confirm.antt =====
-- Tests of internal/admin/confirm.go.
use multi_upstream_ai_gatewa.Prelude.{
  List, [], arith, false, nat_eq, refl, some, string_eq, true, ◌*◌, ◌∷◌, ◌≡◌,
}
use multi_upstream_ai_gatewa.Admin.Confirm.{
  Diff, Hashing, accepts, consume, diff_hash_of, issue, prune_locked,
}
use multi_upstream_ai_gatewa.Admin.Confirm.Once.{
  Call, consume-pending, consuming, issuing, pending, tokens_after,
}
use multi_upstream_ai_gatewa.Collector.Registry.{second}
use multi_upstream_ai_gatewa.Prelude.Dict.{delete, insert, lookup, retain}

abbrev hashing : Hashing
hashing = record { sha256_hex = λ s. s; decimal = λ n. "7" }

abbrev diff : Diff
diff = record { param_key = "p"; new_value = "1"; expected_version = 7 }

-- One token is issued, and a second one a minute later; the first is asked for once.
abbrev calls : List Call
calls =
    consuming "b" diff (90 * second)
    ∷ issuing (some "a") diff (60 * second)
    ∷ issuing (some "b") diff 0
    ∷ []

consume-pending_example :
    (consume hashing "a" diff (100 * second) (tokens_after hashing calls)).0
    ≡ accepts hashing diff (100 * second) (pending hashing "a" calls)
consume-pending_example =
    consume-pending hashing calls "a" diff (100 * second)
      (omega arith, (omega arith, (omega arith, tt)))

-- What is accepted, asked for twice, and too late.
accepted : (consume hashing "a" diff (100 * second) (tokens_after hashing calls)).0 ≡ true
unfolding consume tokens_after issue prune_locked lookup insert delete retain diff_hash_of
accepted = refl

spent : (consume hashing "b" diff (100 * second) (tokens_after hashing calls)).0 ≡ false
unfolding consume tokens_after issue prune_locked lookup insert delete retain diff_hash_of
spent = refl

too_late : (consume hashing "a" diff (361 * second) (tokens_after hashing calls)).0 ≡ false
unfolding consume tokens_after issue prune_locked lookup insert delete retain diff_hash_of
too_late = refl
