-- ===== src/KnowledgeSource/Sync/Run.antt =====
-- `doSync` as a whole: the clone, the files, and the status at the end.
pub mod Progress
pub mod Repeat
use dot_ai_controller.Prelude.{
  ℕ, ◌+◌, Bool, true, false, Option, none, some, List, [], ◌∷◌, ◌++◌, Text, codes, nat_eq, ◌==◌,
  ltb, if◌then◌else◌, length, Result, ok, err,
}
use dot_ai_controller.KnowledgeSource.Schedule.{or_default, next_sync_duration}
use dot_ai_controller.KnowledgeSource.Git.{
  GitClient, GitClientConfig, new_git_client, clone, get_head_commit, build_clone_dir,
}
use dot_ai_controller.KnowledgeSource.Source.{
  GitKnowledgeSource, Phase, phase_synced, phase_error, condition_type_ready, set_condition,
  set_synced_condition, set_scheduled_condition,
}
use dot_ai_controller.KnowledgeSource.Sync.{
  SyncHost, Event, ReconcileResult, Synced, minute, after, set_active, get_secret_value,
  check_schedule, token_of, fail_with, warn, clone_failed, files_to_process,
}
use dot_ai_controller.KnowledgeSource.Sync.Files.{Tally, no_files, sync_files}

module _ (host : SyncHost) where
  -- The progress that the status records: the generation, the time, the commit, and the counts.
  record_progress : Text → List Text → Tally → GitKnowledgeSource → GitKnowledgeSource
  record_progress head files t gks = record gks {
    status = record gks.status {
      observed_generation = gks.generation;
      last_sync_time = some host.now;
      last_synced_commit = head;
      document_count = gks.status.document_count + t.document_count;
      sync_errors = t.sync_errors;
      last_error = t.last_error;
      skipped_documents =
          if ltb 0 (length files) then length t.skipped_files else gks.status.skipped_documents;
      skipped_files = if ltb 0 (length files) then t.skipped_files else gks.status.skipped_files;
    };
  }

  abbrev with_phase : Phase → GitKnowledgeSource → GitKnowledgeSource
  with_phase phase gks = record gks { status = record gks.status { phase = phase } }

  complete_event : Tally → GitKnowledgeSource → Event
  complete_event t gks = record {
    warning = false;
    reason = codes "SyncComplete";
    message =
        codes "Synced "
        ++ host.decimal t.document_count
        ++ codes " documents from "
        ++ gks.spec.repository.url;
  }

  partial_message : Tally → Text
  partial_message t =
      codes "Synced "
      ++ host.decimal t.document_count
      ++ codes " documents with "
      ++ host.decimal t.sync_errors
      ++ codes " errors"

  -- The phase and the condition by the errors, and the event.
  conclude : Tally → GitKnowledgeSource → GitKnowledgeSource × Event
  unfolding set_synced_condition complete_event partial_message
  conclude t gks =
      if t.sync_errors == 0
      then (
        set_synced_condition host.set true (codes "SyncComplete")
            (codes "Successfully synced " ++ host.decimal t.document_count ++ codes " documents")
            (with_phase phase_synced gks),
        complete_event t gks,
      )
      else (
        set_synced_condition host.set false (codes "SyncPartial") (partial_message t)
            (with_phase phase_error gks),
        record { warning = true; reason = codes "SyncPartial"; message = partial_message t },
      )

  set_ready : GitKnowledgeSource → GitKnowledgeSource
  unfolding set_condition
  set_ready gks =
      set_condition host.set condition_type_ready true (codes "Active")
        (codes "GitKnowledgeSource is active and syncing") gks

  abbrev with_next : Option ℕ → GitKnowledgeSource → GitKnowledgeSource
  with_next next gks = record gks { status = record gks.status { next_scheduled_sync = next } }

  at_next : Result (ℕ × ℕ) → GitKnowledgeSource → GitKnowledgeSource × ReconcileResult
  unfolding set_scheduled_condition
  at_next (err e) gks = (with_next none gks, after 0)
  at_next (ok (duration, next)) gks = (
    set_scheduled_condition host.set true (codes "Scheduled")
        (codes "Next sync scheduled for " ++ host.format_time next) (with_next (some next) gks),
    after duration,
  )

  -- The next sync of a valid schedule.
  schedule_next : Bool → GitKnowledgeSource → GitKnowledgeSource × ReconcileResult
  unfolding at_next next_sync_duration
  schedule_next schedule_valid gks = elim host.parser [
    | none ↦ (with_next none gks, after 0)
    | some p ↦
        if schedule_valid
        then at_next
            (next_sync_duration p (or_default gks.spec.schedule) host.now host.later host.later) gks
        else (with_next none gks, after 0)
  ]

  unfoldable pub finish_sync :
      Text → List Text → Tally → Bool → List Event → GitKnowledgeSource → Synced
  unfolding record_progress conclude set_ready schedule_next
  finish_sync head files t schedule_valid events gks =
      let (concluded, event) = conclude t (record_progress head files t gks) in
      let (scheduled, result) = schedule_next schedule_valid (set_ready concluded) in
      record { source = scheduled; result = result; events = events ++ event ∷ [] }

  config_of : Text → GitKnowledgeSource → GitClientConfig
  unfolding build_clone_dir
  config_of git_token gks = record {
    url = gks.spec.repository.url;
    branch = gks.spec.repository.branch;
    depth = 0;
    auth_token = git_token;
    clone_dir = build_clone_dir host.join_path gks.namespace gks.name gks.uid;
    last_synced_commit = gks.status.last_synced_commit;
  }

  sync_head : GitClient → Text → Text → Bool → Bool → List Event → GitKnowledgeSource → Synced
  unfolding files_to_process finish_sync sync_files
  sync_head g head mcp_token spec_changed schedule_valid events gks =
      elim (files_to_process host g spec_changed gks.status.last_synced_commit gks.spec) [
        | err e ↦
            fail_with host (codes "GitError") (codes "Failed to list files: " ++ e) minute events
              gks
        | ok files ↦
            finish_sync head files
              (sync_files host g mcp_token gks.spec gks.namespace gks.name files no_files)
              schedule_valid events gks
      ]

  sync_clone : GitClient → Text → Bool → Bool → List Event → GitKnowledgeSource → Synced
  unfolding get_head_commit sync_head
  sync_clone g mcp_token spec_changed schedule_valid events gks = elim (get_head_commit g) [
    | err e ↦
        fail_with host (codes "GitError") (codes "Failed to get HEAD commit: " ++ e) minute events
          gks
    | ok head ↦ sync_head g head mcp_token spec_changed schedule_valid events gks
  ]

  sync_with_tokens : Text → Text → Bool → Bool → List Event → GitKnowledgeSource → Synced
  unfolding config_of new_git_client clone clone_failed sync_clone
  sync_with_tokens git_token mcp_token spec_changed schedule_valid events gks =
      elim (clone host.git (new_git_client (config_of git_token gks))) [
        | err e ↦ clone_failed host e events gks
        | ok g ↦ sync_clone g mcp_token spec_changed schedule_valid events gks
      ]

  sync_checked : Bool → Bool → List Event → GitKnowledgeSource → Synced
  unfolding get_secret_value sync_with_tokens
  sync_checked spec_changed schedule_valid events gks =
      elim (token_of host gks.namespace gks.spec.repository.secret_ref) [
        | err e ↦
            fail_with host (codes "GitAuthError") e minute
              (warn host (codes "GitAuthError") e events) gks
        | ok git_token ↦
            elim (get_secret_value host gks.namespace gks.spec.mcp_server.auth_secret_ref) [
              | err e ↦
                  fail_with host (codes "MCPAuthError") e minute
                    (warn host (codes "MCPAuthError") e events) gks
              | ok mcp_token ↦
                  sync_with_tokens git_token mcp_token spec_changed schedule_valid events gks
            ]
      ]

  unfoldable pub do_sync : Bool → GitKnowledgeSource → Synced
  unfolding check_schedule sync_checked
  do_sync spec_changed gks =
      let (checked, schedule_valid, events) = check_schedule host (set_active gks) in
      sync_checked spec_changed schedule_valid events checked
