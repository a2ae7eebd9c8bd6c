-- ===== src/Witnesses/Provision.antt =====
-- Tests of ImportKeys and ProvisionKeys in internal/collection/runner.go and of provisionKeys in
-- internal/admin/key_automation.go.
use multi_upstream_ai_gatewa.Prelude.{
  List, String, Unique, ℕ, [], arith, contains, false, if◌then◌else◌, inl, length, nat_eq, none,
  not, refl, select, some, string_eq, true, ◌&&◌, ◌+◌, ◌==◌, ◌∷◌, ◌≡◌, ◌≤◌,
}
use multi_upstream_ai_gatewa.Admin.KeyProvision.{
  Batch, BatchRequest, default_creates, provision_batch,
}
use multi_upstream_ai_gatewa.Admin.KeyProvision.Batch.{
  Desk, at_desks, created_in, provision_batch_bounded, reads_in,
}
use multi_upstream_ai_gatewa.Admin.KeyQueue.{Queue, begin, new_queue}
use multi_upstream_ai_gatewa.Admin.KeyQueue.Loop.{Account, Answer, Run, run_key_import_job}
use multi_upstream_ai_gatewa.Admin.KeyQueue.Loop.Ends.{run_key_import_job-ends}
use multi_upstream_ai_gatewa.Admin.KeyQueue.Loop.Reads.{
  Site, importing, importing_reads_bounded, sent_on,
}
use multi_upstream_ai_gatewa.Collection.Import.{
  Reader, import_account, import_accounts, import_keys, secret_limit,
}
use multi_upstream_ai_gatewa.Collection.Import.Reads.{Watched, import_keys_lem}
use multi_upstream_ai_gatewa.Collection.Provision.{
  ProvisionRequest, TargetGroup, count_groups, count_provision_groups, create_loop, create_one,
  eligible, pick_groups, provision_remote_keys, select_provision_groups, single_created_key,
}
use multi_upstream_ai_gatewa.Collection.Provision.Calls.{Guarded}
use multi_upstream_ai_gatewa.Collection.Provision.Groups.{group_refs, pick_groups_lem}
use multi_upstream_ai_gatewa.Collection.Provision.Outcome.{Promised, provision_keys_lem}
use multi_upstream_ai_gatewa.Collection.Provision.Purse.{
  Shop, on_created, on_discovered, provision_keys,
}
use multi_upstream_ai_gatewa.Collection.Runner.{
  Calls, FetchedKey, import_fetched_keys, import_key, import_loop, merge_key_import_result,
}
use multi_upstream_ai_gatewa.Collection.Runner.Counts.{accounted}
use multi_upstream_ai_gatewa.Collection.Runner.Reads.{Meter}
use multi_upstream_ai_gatewa.Collector.Keys.{default_secret_limit, no_result}
use multi_upstream_ai_gatewa.Collector.Registry.{find_family, lookup_family}
use multi_upstream_ai_gatewa.Collector.Sync.{is_none}
use multi_upstream_ai_gatewa.Prelude.Dict.{insert, lookup}

abbrev read_key : String → String → FetchedKey
read_key ref group = record { key_ref = ref; secret = ""; group_ref = group }

-- A site that gives each secret, and a database that takes each key. The number counts the reads.
abbrev site_calls : Calls ℕ
site_calls = record {
  resolve = λ ref w. (inl "sk", w + 1);
  group_id = λ ref w. (inl none, w);
  create_key = λ secret ref group w. (inl 9, w);
  update_key = λ id k w. (none, w);
}

-- The database knows k1; a site with two credentials, each of which lists two keys.
abbrev reader : Reader ℕ ℕ ℕ
reader = record {
  lock = λ w. (none, w);
  resolves = true;
  renew = λ c w. (inl c, w);
  login = λ c w. (inl c, w);
  fetch_keys = λ s w. (inl (read_key "k1" "a" ∷ read_key "k2" "b" ∷ []), w);
  known = λ c w. (inl (("k1", 1) ∷ []), w);
  calls = λ c s. site_calls;
}

site_calls-Meter : Meter site_calls (λ (w : ℕ). w)
site_calls-Meter = record {
  on_resolve = λ ref w. refl;
  on_group = λ ref w. refl;
  on_create = λ secret ref g w. refl;
  on_update = λ id k w. refl;
}

reader-Watched : Watched reader (λ (w : ℕ). w)
reader-Watched = record {
  on_lock = λ w. refl;
  on_renew = λ c w. refl;
  on_login = λ c w. refl;
  on_keys = λ s w. refl;
  on_known = λ c w. refl;
  on_calls = λ c s. site_calls-Meter;
}

import_keys_lem_example :
    ((import_keys reader (1 ∷ 2 ∷ []) "newapi" 1 0).3
      ≡ 0 + (import_keys reader (1 ∷ 2 ∷ []) "newapi" 1 0).0.secret_resolves)
    × ((import_keys reader (1 ∷ 2 ∷ []) "newapi" 1 0).0.secret_resolves ≤ secret_limit 1)
    × (accounted (import_keys reader (1 ∷ 2 ∷ []) "newapi" 1 0).0
        ≤ (import_keys reader (1 ∷ 2 ∷ []) "newapi" 1 0).0.found)
    × (accounted (import_keys reader (1 ∷ 2 ∷ []) "newapi" 1 0).0 ≡ (
        if is_none (import_keys reader (1 ∷ 2 ∷ []) "newapi" 1 0).1
        then (import_keys reader (1 ∷ 2 ∷ []) "newapi" 1 0).0.found
        else accounted (import_keys reader (1 ∷ 2 ∷ []) "newapi" 1 0).0))
import_keys_lem_example =
    import_keys_lem reader (λ (w : ℕ). w) reader-Watched (1 ∷ 2 ∷ []) "newapi" 1 0

-- The second credential has nothing left to read.
two_credentials :
    (import_keys reader (1 ∷ 2 ∷ []) "newapi" 1 0).0
    ≡ record { found = 4; imported = 1; skipped = 2; failed = 0; deferred = 1; secret_resolves = 1 }
unfolding import_keys import_accounts import_account import_fetched_keys import_loop import_key
    merge_key_import_result lookup insert lookup_family find_family
two_credentials = refl

abbrev site : ℕ → Site ℕ ℕ ℕ
site n = record { reader = reader; credentials = 1 ∷ []; family = "newapi"; before = n }

abbrev world : ℕ → Answer
world n = record {
  interrupted = false;
  unavailable = none;
  got = λ limit. no_result;
  sent = λ limit. 0;
  fault = none;
  stopped = false;
  now = n + 1;
}

abbrev account_7 : Account
account_7 = record { id = 7; channel_id = 4; status = "active" }

abbrev account_8 : Account
account_8 = record { id = 8; channel_id = 4; status = "active" }

abbrev batch : Queue
batch = (begin 2 5 new_queue).0

abbrev ran :
    (r : Run) × (run_key_import_job
        (importing (λ (w : ℕ). w) site world)
        1
        (account_7 ∷ account_8 ∷ [])
        batch
      ≡ some r)
ran =
    run_key_import_job-ends (importing (λ (w : ℕ). w) site world) 1 (account_7 ∷ account_8 ∷ [])
      batch

importing_reads_bounded_example : sent_on 4 ran.0.calls ≤ default_secret_limit
importing_reads_bounded_example =
    importing_reads_bounded (λ (w : ℕ). w) site (λ n. reader-Watched) world 1
      (account_7 ∷ account_8 ∷ []) batch ran.0 4 ran.1

-- Of four groups, one has a key, one stands twice, and one does not offer the model.
abbrev groups : List TargetGroup
groups =
    record { group_ref = "vip"; available_models = "m" ∷ [] }
    ∷ record { group_ref = "pro"; available_models = "m" ∷ "n" ∷ [] }
    ∷ record { group_ref = "pro"; available_models = "m" ∷ [] }
    ∷ record { group_ref = "old"; available_models = "n" ∷ [] }
    ∷ []

pick_groups_lem_example :
    Unique (group_refs (pick_groups "m" ("vip" ∷ []) [] groups))
    × ((r : String)
        → contains (group_refs (pick_groups "m" ("vip" ∷ []) [] groups)) r ≡ (
            contains (group_refs (select (eligible "m") groups)) r
            && not (contains ("vip" ∷ []) r)))
    × (length (pick_groups "m" ("vip" ∷ []) [] groups) ≤ count_provision_groups groups "m")
pick_groups_lem_example = pick_groups_lem "m" ("vip" ∷ []) groups

-- The keys of a site, and how many secrets were read and how many keys were asked for.
pub record Books : Type 0 where
  pub keys_there : List FetchedKey
  pub read_count : ℕ
  pub asked_count : ℕ

abbrev book_calls : Calls Books
book_calls = record {
  resolve = λ ref w. (inl "sk", record w { read_count = w.read_count + 1 });
  group_id = λ ref w. (inl none, w);
  create_key = λ secret ref group w. (inl 9, w);
  update_key = λ id k w. (none, w);
}

-- A site that adds a key of the asked group.
abbrev shop : Shop String ℕ Books
shop = record {
  has_token = λ c. not (c == "");
  resolves = true;
  supported = true;
  renew = λ c w. (inl c, w);
  login = λ c w. (inl 1, w);
  fetch_keys = λ s w. (inl w.keys_there, w);
  fetch_groups = λ s w. (inl groups, w);
  create_remote_key = λ s ref w. (
    none,
    record w { keys_there = read_key ref ref ∷ w.keys_there; asked_count = w.asked_count + 1 },
  );
  save_groups = λ gs w. (none, w);
  known = λ w. (inl [], w);
  calls = λ s. book_calls;
}

shop-Guarded : Guarded shop (λ (w : Books). w.read_count) (λ (w : Books). w.asked_count)
shop-Guarded = record {
  renew_reads = λ c w. refl;
  renew_creates = λ c w. refl;
  login_reads = λ c w. refl;
  login_creates = λ c w. refl;
  keys_reads = λ s w. refl;
  keys_creates = λ s w. refl;
  groups_reads = λ s w. refl;
  groups_creates = λ s w. refl;
  remote_reads = λ s ref w. refl;
  remote_creates = λ s ref w. refl;
  save_reads = λ gs w. refl;
  save_creates = λ gs w. refl;
  known_reads = λ w. refl;
  known_creates = λ w. refl;
  calls_reads = λ s. record {
    on_resolve = λ ref w. refl;
    on_group = λ ref w. refl;
    on_create = λ secret ref g w. refl;
    on_update = λ id k w. refl;
  };
  resolve_creates = λ s ref w. refl;
  group_creates = λ s ref w. refl;
  create_creates = λ s secret ref g w. refl;
  update_creates = λ s id k w. refl;
}

abbrev request : ProvisionRequest
request = record {
  model = "m";
  only_without_keys = false;
  dry_run = false;
  max_creates = 1;
  max_secret_resolves = 5;
}

abbrev held : Books
held = record { keys_there = read_key "k1" "old" ∷ []; read_count = 0; asked_count = 0 }

-- Of the two groups that lack a key one gets it, and the other is put off.
one_created : (provision_keys shop request "newapi" "token" held).0 ≡ record {
  found = 1;
  imported = 2;
  matched_groups = 2;
  existing_groups = 0;
  would_create = 2;
  created = 1;
  failed = 0;
  deferred = 1;
  secret_resolves = 2;
  skipped_reason = "";
}
unfolding provision_keys provision_remote_keys create_loop create_one on_discovered on_created
    select_provision_groups pick_groups count_groups single_created_key import_fetched_keys
    import_loop import_key lookup insert lookup_family find_family
one_created = refl

provision_keys_lem_example :
    Promised
      (λ (w : Books). w.read_count)
      (λ (w : Books). w.asked_count)
      request
      held
      (provision_keys shop request "newapi" "token" held)
provision_keys_lem_example =
    provision_keys_lem shop (λ (w : Books). w.read_count) (λ (w : Books). w.asked_count)
      shop-Guarded request (omega arith) "newapi" "token" held

abbrev desks : Account → Desk String ℕ Books
desks a = record { shop = shop; family = "newapi"; credential = "token" }

abbrev wish : BatchRequest
wish = record { model = "m"; only_without_keys = false; dry_run = false }

abbrev two_desks : Batch Books
two_desks =
    provision_batch (at_desks desks) wish (account_7 ∷ account_8 ∷ []) default_creates
      default_secret_limit held

provision_batch_bounded_example :
    (created_in two_desks.0 ≤ 20)
    × (reads_in two_desks.0 ≤ 20)
    × (two_desks.1.asked_count ≤ 0 + 20)
    × (two_desks.1.read_count ≤ 0 + 20)
provision_batch_bounded_example =
    provision_batch_bounded desks (λ (w : Books). w.read_count) (λ (w : Books). w.asked_count)
      (λ a. shop-Guarded) wish (account_7 ∷ account_8 ∷ []) held refl
