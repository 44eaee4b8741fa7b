-- ===== src/Tests/Knowledge.antt =====
-- A source of two files, one of which is larger than the limit, and a server that refuses the other.
use dot_ai_controller.Prelude.{
  ℕ, zero, suc, ◌+◌, ◌<◌, ◌≡◌, refl, ◌↔◌, ◌⊎◌, Bool, true, false, Option, none, some, List, [], ◌∷◌,
  ◌++◌, Text, codes, length, keep, In, Result, ok, text_dec, text_eq, has_prefix, ℕ_discrete, ◌==◌,
  inl, inr, trim_prefix, has_suffix, arith,
}
use dot_ai_controller.Prelude.Map.{lookup, insert}
use dot_ai_controller.Secret.{fetched}
use dot_ai_controller.KnowledgeSource.Patterns.{
  PatternMatcher, MatchesSome, normalize, filter_files, filter_files_iff, matching_files,
  with_slash,
}
use dot_ai_controller.KnowledgeSource.Patterns.Matching.{
  NoDuplicates, FoundBy, matching_files-exact,
}
use dot_ai_controller.KnowledgeSource.Git.{Commit, Repository, GitHost, GitClient}
use dot_ai_controller.KnowledgeSource.Client.{
  IngestRequest, ingest_request, IngestResponse, Attempt, response, ingest_document,
  no_ingest_response,
}
use dot_ai_controller.KnowledgeSource.Client.First.{Taken, IsRejected, ingest_document-first}
use dot_ai_controller.KnowledgeSource.Source.{
  GitKnowledgeSource, GitKnowledgeSourceSpec, GitKnowledgeSourceStatus, phase_synced, phase_error,
}
use dot_ai_controller.KnowledgeSource.Sync.{SyncHost}
use dot_ai_controller.KnowledgeSource.Sync.Files.{Tally, no_files, sync_files}
use dot_ai_controller.KnowledgeSource.Sync.Counts.{paths_of}
use dot_ai_controller.KnowledgeSource.Sync.Partition.{
  is_sent, has_failed, is_skipped, sync_files-partition,
}
use dot_ai_controller.KnowledgeSource.Sync.Run.{do_sync}
use dot_ai_controller.KnowledgeSource.Sync.Run.Progress.{progress, Ends, IsStopped, do_sync-Ends}
use dot_ai_controller.KnowledgeSource.Sync.Run.Repeat.{IsAt, do_sync-same_head}
use dot_ai_controller.KnowledgeSource.Reconcile.{Cluster, found, reconcile}
use dot_ai_controller.KnowledgeSource.Reconcile.Guards.{IsReady, reconcile-IsReady}

abbrev small : Text
small = codes "a"

abbrev large : Text
large = codes "b"

abbrev tip : Text
tip = codes "c0"

abbrev commit : Commit
commit = record {
  tree = ok (ok (small ∷ large ∷ []));
  file = λ path. ok (record { size = length path; contents = ok (path ++ path) });
}

abbrev repo : Repository
repo = record {
  head = ok tip;
  new_hash = λ h. h;
  commit_object = λ h. ok commit;
  patch = λ a b. ok (small ∷ []);
}

abbrev git : GitHost
git = record { remove_all = λ d. none; make_parent = λ d. none; plain_clone = λ d o. ok repo }

abbrev refusing : Attempt
refusing = record { in_wait = none; exchange = response 503 []; after = none }

abbrev taking : Attempt
taking = record { in_wait = none; exchange = response 200 []; after = none }

abbrev taken : IngestResponse
taken = record no_ingest_response { success = true }

abbrev host : SyncHost
host = record {
  set = λ c cs. c ∷ cs;
  decimal = λ n. n ∷ [];
  format_time = λ t. [];
  glob = λ pattern path. ok true;
  url_parse = λ u. none;
  to_lower = λ s. s;
  join_path = λ ps. [];
  parser = none;
  secret = λ name. fetched ((codes "token", codes "t") ∷ []);
  git = git;
  unmarshal = λ r body. (taken, none);
  post = λ endpoint token request n. refusing;
  now = 7;
  later = 8;
}

abbrev spec : GitKnowledgeSourceSpec
spec = record {
  repository = record { url = codes "u"; branch = []; depth = none; secret_ref = none };
  paths = codes "**" ∷ [];
  exclude = [];
  schedule = [];
  mcp_server = record {
    url = codes "m";
    auth_secret_ref = record { name = codes "s"; key = codes "token" };
  };
  metadata = [];
  max_file_size_bytes = some 1;
  deletion_policy = [];
}

abbrev status : GitKnowledgeSourceStatus
status = record {
  active = true;
  phase = phase_error;
  last_sync_time = some 1;
  last_synced_commit = tip;
  next_scheduled_sync = none;
  document_count = 3;
  skipped_documents = 0;
  skipped_files = [];
  sync_errors = 2;
  last_error = codes "refused";
  observed_generation = 1;
  conditions = [];
}

abbrev source : GitKnowledgeSource
source = record {
  namespace = codes "n";
  name = codes "s";
  uid = codes "u";
  generation = 1;
  deleting = false;
  finalizer = true;
  spec = spec;
  status = status;
}

do_sync-Ends_example : Ends host true source (do_sync host true source)
do_sync-Ends_example = do_sync-Ends host true source

source-IsAt : IsAt host tip
source-IsAt = record {
  repo = repo;
  commit = commit;
  head_non_empty = refl;
  at_head = refl;
  same_hash = refl;
  found = refl;
  made = λ dir options. refl;
}

do_sync-same_head_example :
    IsStopped (progress source) (do_sync host false source)
    ⊎ (progress (do_sync host false source).source ≡ record (progress source) {
      phase = phase_synced;
      last_sync_time = some 7;
      sync_errors = 0;
      last_error = [];
      observed_generation = 1;
    })
do_sync-same_head_example = do_sync-same_head host source source-IsAt

abbrev client : GitClient
client = record {
  url = codes "u";
  branch = codes "main";
  depth = 1;
  auth_token = [];
  clone_dir = [];
  last_synced_commit = [];
  repo = some repo;
}

abbrev tally : Tally
tally =
    sync_files host client (codes "t") spec (codes "n") (codes "s") (small ∷ large ∷ []) no_files

abbrev sent : Text → Bool
sent = is_sent host client (codes "t") spec (codes "n") (codes "s")

abbrev failing : Text → Bool
failing = has_failed host client (codes "t") spec (codes "n") (codes "s")

abbrev skipped : Text → Bool
skipped = is_skipped host client (codes "t") spec (codes "n") (codes "s")

sync_files-partition_example :
    (tally.document_count ≡ length (keep sent (small ∷ large ∷ [])))
    × (tally.sync_errors ≡ length (keep failing (small ∷ large ∷ [])))
    × (paths_of tally.skipped_files ≡ keep skipped (small ∷ large ∷ []))
    × (tally.document_count + tally.sync_errors + length tally.skipped_files
        ≡ length (small ∷ large ∷ []))
sync_files-partition_example =
    sync_files-partition host client (codes "t") spec (codes "n") (codes "s") (small ∷ large ∷ [])

abbrev glob : Text → Text → Result Bool
glob pattern path = ok (pattern == path)

abbrev matcher : PatternMatcher
matcher = record { includes = small ∷ large ∷ []; excludes = large ∷ [] }

filter_files_iff_example : In small (filter_files glob matcher (small ∷ large ∷ [])) ↔ (
    In small (small ∷ large ∷ [])
    × MatchesSome glob (small ∷ large ∷ []) (normalize small)
    × (¬ MatchesSome glob (large ∷ []) (normalize small)))
filter_files_iff_example = filter_files_iff glob matcher (small ∷ large ∷ []) small

-- Every pattern finds the small file below the base.
abbrev filepath_glob : Text → Result (List Text)
filepath_glob pattern = ok ((codes "/r/" ++ small) ∷ [])

matching_files-exact_example :
    NoDuplicates (small ∷ [])
    × ((path : Text)
        → In path (small ∷ []) ↔ (
            FoundBy filepath_glob (with_slash (codes "/r")) (small ∷ large ∷ []) path
            × (¬ MatchesSome glob (large ∷ []) path)))
unfolding matching_files trim_prefix has_prefix has_suffix lookup insert text_dec ℕ_discrete
matching_files-exact_example =
    matching_files-exact glob filepath_glob matcher (codes "/r") (small ∷ []) refl

-- The first attempt is refused, the next ones are taken.
abbrev post : IngestRequest → ℕ → Attempt
post request zero = refusing
post request (suc n) = taking

-- The body has the success alone.
abbrev unmarshal : IngestResponse → Text → IngestResponse × Option Text
unmarshal before body = (record before { success = true }, none)

refusing-IsRejected : (i : ℕ) → i < 1 → IsRejected unmarshal (post (ingest_request small [] []) i)
refusing-IsRejected zero lt = record { waited = refl; running = refl; rejected = inl (omega arith) }
refusing-IsRejected (suc i) lt = absurd (omega arith)

ingest_document-first_example :
    (r : IngestResponse) × (ingest_document (λ n. []) unmarshal 3 post small [] [] ≡ (some r, none))
    × Taken (λ n. []) unmarshal [] r
ingest_document-first_example =
    ingest_document-first (λ n. []) unmarshal 3 post small [] [] 1 200 [] (omega arith)
      refusing-IsRejected refl refl (omega arith)
      (λ before. (record before { success = true }, refl, refl))

abbrev cluster : Cluster
cluster = record {
  fetch = found source;
  finalizer_write = none;
  syncing_write = none;
  status_write = none;
  lock_free = true;
  timed_out = false;
  path_escape = λ s. s;
  unmarshal_delete = λ r body. (r, none);
  delete = λ url token n. refusing;
}

reconcile-IsReady_example :
    (gks : GitKnowledgeSource) × (found source ≡ found gks)
    × IsReady host cluster gks (reconcile host cluster).actions
unfolding reconcile text_dec ℕ_discrete
reconcile-IsReady_example = reconcile-IsReady host cluster (inr (inl refl))

abbrev deleted : GitKnowledgeSource
deleted = record source { deleting = true }

abbrev deletion : Cluster
deletion = record cluster { fetch = found deleted }
