-- ===== src/KnowledgeSource/Sync.antt =====
-- internal/controller/gitknowledgesource_controller.go, `doSync`: one sync of a source, on what Git, the
-- secrets, the clock and the MCP server return. What a request meets depends on the request alone.
pub mod Files
pub mod Run
pub mod Counts
pub mod Partition
use dot_ai_controller.Prelude.{
  ℕ, ◌+◌, ◌*◌, Bool, true, false, not, ◌&&◌, Option, none, some, List, [], ◌∷◌, ◌++◌, Text, codes,
  is_empty, nat_eq, if◌then◌else◌, Result, ok, err, ◌>>=◌,
}
use dot_ai_controller.Prelude.Map.{Map}
use dot_ai_controller.Secret.{SecretFetch, secret_value}
use dot_ai_controller.KnowledgeSource.Patterns.{PatternMatcher, filter_files}
use dot_ai_controller.KnowledgeSource.Schedule.{ScheduleParser, or_default, validate_schedule}
use dot_ai_controller.KnowledgeSource.Git.{
  GitClient, GitHost, clone, get_changed_files, get_all_files,
}
use dot_ai_controller.KnowledgeSource.Git.Errors.{is_authentication_error, is_repo_not_found_error}
use dot_ai_controller.KnowledgeSource.Document.{Url}
use dot_ai_controller.KnowledgeSource.Client.{IngestRequest, IngestResponse, Attempt}
use dot_ai_controller.KnowledgeSource.Source.{
  SecretReference, GitKnowledgeSourceSpec, GitKnowledgeSource, SetCondition, set_error_condition,
  set_schedule_error_condition,
}

-- The formatting of numbers (`%d`) and times (RFC 3339), doublestar.Match, url.Parse, strings.ToLower and
-- filepath.Join; the parser of schedules, if there is one; the secrets of the namespace; Git; the decoder of a
-- response, and what a request meets at an endpoint with a token; the times of the status and of the schedule.
pub record SyncHost : Type 0 where
  pub set : SetCondition
  pub decimal : ℕ → Text
  pub format_time : ℕ → Text
  pub glob : Text → Text → Result Bool
  pub url_parse : Text → Option Url
  pub to_lower : Text → Text
  pub join_path : List Text → Text
  pub parser : Option ScheduleParser
  pub secret : Text → SecretFetch
  pub git : GitHost
  pub unmarshal : IngestResponse → Text → IngestResponse × Option Text
  pub post : Text → Text → IngestRequest → ℕ → Attempt
  pub now : ℕ
  pub later : ℕ

-- A warning or not, the reason and the message.
pub record Event : Type 0 where
  pub warning : Bool
  pub reason : Text
  pub message : Text

-- ctrl.Result, with the time in nanoseconds.
pub record ReconcileResult : Type 0 where
  pub requeue : Bool
  pub requeue_after : ℕ

abbrev pub second : ℕ
second = 1000000000

abbrev pub minute : ℕ
minute = 60 * second

abbrev pub after : ℕ → ReconcileResult
after duration = record { requeue = false; requeue_after = duration }

pub record Synced : Type 0 where
  pub source : GitKnowledgeSource
  pub result : ReconcileResult
  pub events : List Event

abbrev set_active : GitKnowledgeSource → GitKnowledgeSource
set_active gks = record gks { status = record gks.status { active = true } }

module _ (host : SyncHost) where
  unfoldable pub get_secret_value : Text → SecretReference → Result Text
  unfolding secret_value
  get_secret_value namespace ref =
      secret_value (codes "Secret") (host.secret ref.name) namespace ref.name ref.key

  -- The source, whether its schedule is valid, and the event of one that is not.
  abbrev after_validation :
      Option Text → GitKnowledgeSource → GitKnowledgeSource × Bool × List Event
  after_validation none gks = (gks, true, [])
  after_validation (some e) gks = (
    set_schedule_error_condition host.set e gks,
    false,
    record {
      warning = true;
      reason = codes "ScheduleError";
      message = codes "Invalid schedule: " ++ e;
    }
        ∷ [],
  )

  -- The error of the schedule, for a parser that is there.
  abbrev validation : Option ScheduleParser → Text → Option Text
  validation none schedule = none
  validation (some p) schedule = validate_schedule p schedule

  check_schedule : GitKnowledgeSource → GitKnowledgeSource × Bool × List Event
  unfolding validate_schedule set_schedule_error_condition
  check_schedule gks = after_validation (validation host.parser (or_default gks.spec.schedule)) gks

  abbrev token_of : Text → Option SecretReference → Result Text
  token_of namespace none = ok []
  token_of namespace (some ref) = get_secret_value namespace ref

  -- An error that is set, and told by an event, before a later sync.
  abbrev fail_with : Text → Text → ℕ → List Event → GitKnowledgeSource → Synced
  fail_with reason message duration events gks = record {
    source = set_error_condition host.set reason message gks;
    result = after duration;
    events = events;
  }

  abbrev warn : Text → Text → List Event → List Event
  warn reason message events =
      events ++ record { warning = true; reason = reason; message = message } ∷ []

  clone_error_text : Text → Text
  unfolding is_authentication_error is_repo_not_found_error
  clone_error_text e =
      if is_authentication_error host.to_lower (some e)
      then codes "Authentication failed - check credentials"
      else if is_repo_not_found_error host.to_lower (some e)
      then codes "Repository not found or access denied"
      else e

  clone_failed : Text → List Event → GitKnowledgeSource → Synced
  unfolding set_error_condition clone_error_text
  clone_failed e events gks =
      let message = codes "Failed to clone repository: " ++ e in
      let gks = set_error_condition host.set (codes "CloneError") message gks in
      record {
        source = record gks { status = record gks.status { last_error = clone_error_text e } };
        result = after (5 * minute);
        events = warn (codes "CloneError") message events;
      }

  abbrev matcher_of : GitKnowledgeSourceSpec → PatternMatcher
  matcher_of spec = record { includes = spec.paths; excludes = spec.exclude }

  full_files : GitClient → GitKnowledgeSourceSpec → Result (List Text)
  unfolding get_all_files filter_files
  full_files g spec = do
    files ← get_all_files g
    ok (filter_files host.glob (matcher_of spec) files)

  -- The changed files, unless there is an error or the commit is not in the history.
  abbrev or_full :
      Result (Option (List Text)) → Result (List Text) → GitKnowledgeSourceSpec → Result (List Text)
  or_full (err e) full spec = full
  or_full (ok none) full spec = full
  or_full (ok (some changed)) full spec = ok (filter_files host.glob (matcher_of spec) changed)

  unfoldable pub files_to_process :
      GitClient → Bool → Text → GitKnowledgeSourceSpec → Result (List Text)
  unfolding full_files get_changed_files filter_files
  files_to_process g spec_changed last_synced_commit spec =
      if not (is_empty last_synced_commit) && not spec_changed
      then or_full (get_changed_files g) (full_files g spec) spec
      else full_files g spec
