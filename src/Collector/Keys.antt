-- ===== src/Collector/Keys.antt =====
-- Results and limits of key imports, from internal/collector/collector.go.
use multi_upstream_ai_gatewa.Prelude.{ℕ}

-- DefaultKeySecretResolveLimit
abbrev pub default_secret_limit : ℕ
default_secret_limit = 20

pub record KeyImportResult : Type 0 where
  pub found : ℕ
  pub imported : ℕ
  pub skipped : ℕ
  pub failed : ℕ
  pub deferred : ℕ
  pub secret_resolves : ℕ

abbrev pub no_result : KeyImportResult
no_result = record {
  found = 0;
  imported = 0;
  skipped = 0;
  failed = 0;
  deferred = 0;
  secret_resolves = 0;
}
