-- ===== src/Collector/Sync/Result.antt =====
-- About capabilityResult of internal/collector/sync.go.
use multi_upstream_ai_gatewa.Prelude.{List, ℕ, [], nat_eq, none, string_eq, ◌∷◌, ◌≡◌}
use multi_upstream_ai_gatewa.Collector.Errors.{Err, as_http, as_http_any, errs}
use multi_upstream_ai_gatewa.Collector.Sync.{longer}

-- The longest Retry-After of the HTTPErrors of a list, an independent reading of it.
abbrev pub longest_wait : List Err → ℕ
longest_wait [] = 0
longest_wait (e ∷ es) = longer (as_http e) (longest_wait es)

-- No HTTPError stands in any error of the list.
abbrev NoHttp : List Err → Type 0
NoHttp es = (as_http_any (errs es) ≡ none) × (longest_wait es ≡ 0)
