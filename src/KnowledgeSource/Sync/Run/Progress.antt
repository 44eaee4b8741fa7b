-- ===== src/KnowledgeSource/Sync/Run/Progress.antt =====
-- The progress that `doSync` records in the status, and when it records none.
use dot_ai_controller.Prelude.{
  ℕ, ◌+◌, ◌≤◌, ◌≡◌, refl, ◌∙◌, ◌⊎◌, inl, inr, Bool, true, false, Option, some, List, [], Text,
  nat_eq, ◌==◌, ltb, if◌then◌else◌, length, Result, ok, err, Result-cases, Option-cases, Bool-cases,
  arith,
}
use dot_ai_controller.KnowledgeSource.Schedule.{ScheduleParser, or_default}
use dot_ai_controller.KnowledgeSource.Git.{
  GitClient, GitClientConfig, new_git_client, clone, get_head_commit,
}
use dot_ai_controller.KnowledgeSource.Source.{
  GitKnowledgeSourceSpec, GitKnowledgeSource, SkippedFile, Phase, phase_synced, phase_error,
  set_condition, set_error_condition, set_synced_condition, set_scheduled_condition,
  set_schedule_error_condition,
}
use dot_ai_controller.KnowledgeSource.Sync.{
  SyncHost, Event, Synced, minute, set_active, get_secret_value, check_schedule, validation,
  after_validation, token_of, clone_failed, clone_error_text, files_to_process, fail_with,
}
use dot_ai_controller.KnowledgeSource.Sync.Files.{Tally, no_files, sync_files}
use dot_ai_controller.KnowledgeSource.Sync.Run.{
  do_sync, sync_checked, sync_with_tokens, sync_clone, sync_head, finish_sync, record_progress,
  conclude, set_ready, schedule_next, at_next, config_of,
}

-- The part of the status that tells how far the source is synced.
pub record Progress : Type 0 where
  pub phase : Phase
  pub last_sync_time : Option ℕ
  pub last_synced_commit : Text
  pub document_count : ℕ
  pub skipped_documents : ℕ
  pub skipped_files : List SkippedFile
  pub sync_errors : ℕ
  pub last_error : Text
  pub observed_generation : ℕ

abbrev pub progress : GitKnowledgeSource → Progress
progress gks = record {
  phase = gks.status.phase;
  last_sync_time = gks.status.last_sync_time;
  last_synced_commit = gks.status.last_synced_commit;
  document_count = gks.status.document_count;
  skipped_documents = gks.status.skipped_documents;
  skipped_files = gks.status.skipped_files;
  sync_errors = gks.status.sync_errors;
  last_error = gks.status.last_error;
  observed_generation = gks.status.observed_generation;
}

-- A sync that ends early, asks for a later one, and only records the error.
pub record IsStopped (old : Progress) (s : Synced) : Type 0 where
  pub message : Text
  pub kept : progress s.source ≡ record old { phase = phase_error; last_error = message }
  pub again : minute ≤ s.result.requeue_after

-- What a sync that has gone through the files records, from what it counted.
abbrev pub completed : Text → ℕ → List Text → Tally → ℕ → Progress → Progress
completed head now files t generation old = record {
  phase = if t.sync_errors == 0 then phase_synced else phase_error;
  last_sync_time = some now;
  last_synced_commit = head;
  document_count = old.document_count + t.document_count;
  skipped_documents =
      if ltb 0 (length files) then length t.skipped_files else old.skipped_documents;
  skipped_files = if ltb 0 (length files) then t.skipped_files else old.skipped_files;
  sync_errors = t.sync_errors;
  last_error = t.last_error;
  observed_generation = generation;
}

-- A client that is a clone, made for the last commit.
pub record IsCloneFor (host : SyncHost) (last_synced_commit : Text) (g : GitClient) : Type 0 where
  pub config : GitClientConfig
  pub since : config.last_synced_commit ≡ last_synced_commit
  pub cloned : clone host.git (new_git_client config) ≡ ok g

-- A sync that has gone through the files: of which client, at which head and with which token, what the files
-- were, and that the counts of the loop over them are recorded.
pub record IsThrough (host : SyncHost) (spec_changed : Bool) (old : Progress) (generation : ℕ)
    (spec : GitKnowledgeSourceSpec) (namespace name : Text) (s : Synced) : Type 0 where
  pub client : GitClient
  pub head : Text
  pub token : Text
  pub files : List Text
  pub cloned : IsCloneFor host old.last_synced_commit client
  pub at_head : get_head_commit client ≡ ok head
  pub listed : files_to_process host client spec_changed old.last_synced_commit spec ≡ ok files
  pub recorded :
      progress s.source
      ≡ completed head host.now files
          (sync_files host client token spec namespace name files no_files)
          generation
          old

module _ (host : SyncHost) where
  at_next-progress :
      (r : Result (ℕ × ℕ)) (gks : GitKnowledgeSource)
      → progress (at_next host r gks).0 ≡ progress gks
  unfolding at_next set_scheduled_condition set_condition
  at_next-progress (err e) gks = refl
  at_next-progress (ok (d, next)) gks = refl

  schedule_next-progress :
      (valid : Bool) (gks : GitKnowledgeSource)
      → progress (schedule_next host valid gks).0 ≡ progress gks
  unfolding schedule_next
  schedule_next-progress valid gks = elim (Option-cases host.parser) [
    | inl e ↦ rw (e, schedule_next) refl
    | inr (p, e) ↦ by_validity p e valid
  ]
    where
      by_validity :
          (p : ScheduleParser)
          → host.parser ≡ some p
          → (v : Bool) → progress (schedule_next host v gks).0 ≡ progress gks
      by_validity p e true = rw (e, schedule_next) (at_next-progress _ gks)
      by_validity p e false = rw (e, schedule_next) refl

  conclude-progress :
      (t : Tally) (gks : GitKnowledgeSource)
      → progress (conclude host t gks).0
        ≡ record (progress gks) { phase = if t.sync_errors == 0 then phase_synced else phase_error }
  unfolding conclude set_synced_condition set_condition
  conclude-progress t gks = elim (Bool-cases (t.sync_errors == 0)) [
    | inl e ↦ rw (e, conclude) refl
    | inr e ↦ rw (e, conclude) refl
  ]

  finish_sync-completed :
      (head : Text) (files : List Text) (t : Tally) (valid : Bool) (events : List Event)
      (gks : GitKnowledgeSource)
      → progress (finish_sync host head files t valid events gks).source
        ≡ completed head host.now files t gks.generation (progress gks)
  unfolding finish_sync record_progress set_ready set_condition
  finish_sync-completed head files t valid events gks =
      schedule_next-progress valid
        (set_ready host (conclude host t (record_progress host head files t gks)).0)
      ∙ conclude-progress t (record_progress host head files t gks)

  config_of-clone :
      (git_token : Text) (gks : GitKnowledgeSource) (g : GitClient)
      → clone host.git (new_git_client (config_of host git_token gks)) ≡ ok g
      → IsCloneFor host gks.status.last_synced_commit g
  unfolding config_of
  config_of-clone git_token gks g p = record {
    config = config_of host git_token gks;
    since = refl;
    cloned = p;
  }

  module _ (b : Bool) where
    abbrev pub Ends : GitKnowledgeSource → Synced → Type 0
    Ends gks s =
        IsStopped (progress gks) s
        ⊎ IsThrough host b (progress gks) gks.generation gks.spec gks.namespace gks.name s

    fail_with-IsStopped :
        (reason message : Text) (events : List Event) (gks : GitKnowledgeSource)
        → IsStopped (progress gks) (fail_with host reason message minute events gks)
    unfolding set_error_condition
    fail_with-IsStopped reason message events gks = record {
      message = message;
      kept = refl;
      again = omega arith;
    }

    clone_failed-IsStopped :
        (e : Text) (events : List Event) (gks : GitKnowledgeSource)
        → IsStopped (progress gks) (clone_failed host e events gks)
    unfolding clone_failed set_error_condition
    clone_failed-IsStopped e events gks = record {
      message = clone_error_text host e;
      kept = refl;
      again = omega arith;
    }

    sync_head-Ends :
        (g : GitClient) (head token : Text) (valid : Bool) (events : List Event)
        (gks : GitKnowledgeSource)
        → IsCloneFor host gks.status.last_synced_commit g
        → get_head_commit g ≡ ok head
        → Ends gks (sync_head host g head token b valid events gks)
    unfolding sync_head
    sync_head-Ends g head token valid events gks c h =
        elim (Result-cases (files_to_process host g b gks.status.last_synced_commit gks.spec)) [
          | inr (e, p) ↦ inl (rw (p, sync_head) (fail_with-IsStopped _ _ _ gks))
          | inl (files, p) ↦ inr (record {
            client = g;
            head = head;
            token = token;
            files = files;
            cloned = c;
            at_head = h;
            listed = p;
            recorded = rw (p, sync_head) (finish_sync-completed head files _ valid events gks);
          })
        ]

    sync_clone-Ends :
        (g : GitClient) (token : Text) (valid : Bool) (events : List Event)
        (gks : GitKnowledgeSource)
        → IsCloneFor host gks.status.last_synced_commit g
        → Ends gks (sync_clone host g token b valid events gks)
    unfolding sync_clone
    sync_clone-Ends g token valid events gks c = elim (Result-cases (get_head_commit g)) [
      | inr (e, p) ↦ inl (rw (p, sync_clone) (fail_with-IsStopped _ _ _ gks))
      | inl (head, p) ↦ rw (p, sync_clone) (sync_head-Ends g head token valid events gks c p)
    ]

    sync_with_tokens-Ends :
        (git_token token : Text) (valid : Bool) (events : List Event) (gks : GitKnowledgeSource)
        → Ends gks (sync_with_tokens host git_token token b valid events gks)
    unfolding sync_with_tokens
    sync_with_tokens-Ends git_token token valid events gks =
        elim (Result-cases (clone host.git (new_git_client (config_of host git_token gks)))) [
          | inr (e, p) ↦ inl (rw (p, sync_with_tokens) (clone_failed-IsStopped e events gks))
          | inl (g, p) ↦
              rw (p, sync_with_tokens)
                (sync_clone-Ends g token valid events gks (config_of-clone git_token gks g p))
        ]

    sync_checked-Ends :
        (valid : Bool) (events : List Event) (gks : GitKnowledgeSource)
        → Ends gks (sync_checked host b valid events gks)
    unfolding sync_checked
    sync_checked-Ends valid events gks =
        elim (Result-cases (token_of host gks.namespace gks.spec.repository.secret_ref)) [
          | inr (e, p) ↦ inl (rw (p, sync_checked) (fail_with-IsStopped _ _ _ gks))
          | inl (git_token, p) ↦
              elim (Result-cases
                (get_secret_value host gks.namespace gks.spec.mcp_server.auth_secret_ref)) [
                  | inr (e, q) ↦ inl (rw (p, q, sync_checked) (fail_with-IsStopped _ _ _ gks))
                  | inl (token, q) ↦
                      rw (p, q, sync_checked)
                        (sync_with_tokens-Ends git_token token valid events gks)
                ]
        ]

    -- A sync ends in one of two ways. Either it shows an error, asks for another sync after a minute or more,
    -- and leaves the commit, the generation, the time and the counts as they were; or it has listed the files
    -- at the head of a clone made for the last commit, and the status records the head, the generation of the
    -- source, the time, and what the loop over those files has counted, whether it counted errors or not, with the
    -- phase of an error exactly if it counted one.
    pub do_sync-Ends : (gks : GitKnowledgeSource) → Ends gks (do_sync host b gks)
    unfolding do_sync check_schedule set_schedule_error_condition set_condition
    do_sync-Ends gks =
        elim (Option-cases (validation host host.parser (or_default gks.spec.schedule))) [
          | inl v ↦ rw (v, do_sync) (sync_checked-Ends true [] (set_active gks))
          | inr (x, v) ↦
              rw (v, do_sync)
                (sync_checked-Ends false (after_validation host (some x) (set_active gks)).2
                  (set_schedule_error_condition host.set x (set_active gks)))
        ]
