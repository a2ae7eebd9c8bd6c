-- ===== src/Lib.antt =====
-- Verification of the collection core of the multi-upstream AI gateway: what decides when a channel
-- is collected, what one collection writes down, how batches of key imports are worked off, how
-- credentials are kept, and how the configuration is changed.
--
-- The parts of the program, and the files that model them:
--   internal/collection/service.go      Collection/Schedule (the type Schedule: Due, MarkSuccess,
--     MarkFailure, MarkSkipped, Prune, NextDelay, retryDelay) and Collection/Service
--     (collectChannel, completedCapabilities, RunOnce). RunOnce asks the schedule what is due, has
--     every channel synchronised under its lock, and writes the outcomes back to the schedule.
--   internal/collection/runner.go       Collection/Runner (importFetchedKeys), Collection/Import
--     (ImportKeys) and Collection/Provision (ProvisionKeys, provisionRemoteKeys).
--   internal/collector/sync.go          Collector/Sync (SyncMany, authenticate, run,
--     capabilityResult), Collector/Closures (syncAccounts, syncGroups, syncKeys, syncPricing,
--     syncCatalog) and Collector/Merge (mergeGroups, mergePricing, mergeCatalog): one
--     synchronisation of a channel. Its result is what completedCapabilities reads.
--   internal/collector/collector.go     Collector/Contract and Collector/Keys: families,
--     capabilities, levels, items, results of key imports.
--   internal/collector/httpx.go, httpx_auth.go   Collector/Errors: error trees, HTTPError.
--     Collector/Pacing: Client.Wait. Collector/Paging: fetchAllKeyItems, whose own bound of a thousand
--     pages is the fuel of its loop.
--   internal/store/host_rate_limit.go   Store/HostRateLimit: HostRequestLimiter.Wait, the WaitHost of
--     both binaries.
--   internal/collector/auth.go          Collector/Auth (NeedsRefresh, EnsureFresh), over
--   internal/store/credentials.go       Store/RefreshLock (WithRefreshLock, saveRefreshed), over
--   internal/store/credential_cipher.go Store/Cipher (sealCredential, openCredential).
--   internal/collector/registry.go, register_newapi.go, register_sub2api.go   Collector/Registry.
--   internal/admin/key_import_queue.go  Admin/KeyQueue: the queue of batches (begin, record,
--     progress, finish, snapshot, list), Admin/KeyQueue/Retry (keyImportRetryDelay) and
--     Admin/KeyQueue/Loop (runKeyImportTask, runKeyImportJob).
--   internal/admin/key_automation.go    Admin/KeyProvision (the loop of provisionKeys, which calls
--     ProvisionKeys, and the scope of a request).
--   internal/admin/confirm.go           Admin/Confirm (issue, consume, pruneLocked).
--   internal/admin/config_api.go        Admin/ConfigApply (applyConfig, previewConfig), over these
--     tokens and internal/store/config_write.go, Store/Config (ApplyConfig).
--   internal/admin/collectability.go    Admin/Collectability (accountCollect, channelCollect).
-- Prelude has the shared tests, lists and dictionaries; Witnesses has runs at concrete inputs.
--
-- How code corresponds to definitions. A Go name in camel case is the same name in snake case. A
-- function that changes an object takes the object and returns the new one; a mutex makes an
-- operation one step. A map is an association list (Prelude/Dict), a pointer to a batch is its id.
-- Times and durations are numbers of nanoseconds, 0 is the zero time. Integers are unbounded: no
-- count or time of these parts comes near 2 ^ 63. An error is a tree of the package's sentinels,
-- HTTP errors, wrapped and joined errors, and errors.Is and errors.As walk it as Go documents.
--
-- Arguments that stand for what the code calls. The jitter's draws are functions from the bound to a
-- number; RunOnce takes them by the key that gets them, while the code draws from one stream in the
-- order of the calls. RunOnce takes a function that answers for the workers: the outcomes in the order of their
-- arrival. A round of runKeyImportJob takes an answer of the world: what the lock, ImportKeys and
-- the clock say, and whether the process is being stopped. SyncMany takes the adapter's and the
-- store's calls as functions on a state. Floats are a type with a test for zero.
-- The cipher, base64, json.Marshal, the hash and the random source are functions with their
-- documented laws as hypotheses; a byte is a number.
--
-- Counted calls. A bound on calls of the site is stated of what was sent, failed calls included, and
-- not only of what is reported: a function of the state counts the calls of ResolveKeySecret or of
-- CreateRemoteKey (Collection/Runner/Reads, Import/Reads, Provision/Calls), and every other call leaves
-- it as it is. Each site can be observed so, as `metered` shows.
--
-- Fuel. run_key_import_job gives run_job three rounds for each account and one more: an account is
-- tried three times at most, and the last round finds the queue empty.
--
-- The SQL statement of HostRequestLimiter.Wait is one step with one reading of the clock. RunOnce
-- starts from the list of channels, and WithRefreshLock from an open transaction: the errors of
-- ListChannels, Acquire and Begin, which end them at once, are left out. Times in the database are not
-- rounded to microseconds.
--
-- Not modelled: HTTP requests and the parsing of answers, SQL, the timer loop of Service.Run, the
-- lock of the database around a batch, the texts of most messages, the request that
-- renews a token, cookies, the import from all-api-hub, the administration's HTTP handlers.
mod Prelude
pub mod Collector
pub mod Collection
pub mod Store
pub mod Admin
mod Witnesses
