-- ===== src/KnowledgeSource/Sync/Run/Repeat.antt =====
-- A sync at the commit of the last one.
use dot_ai_controller.Prelude.{
  ℕ, ℕ_discrete, ◌≡◌, refl, sym, ap, ◌∙◌, ◌⊎◌, inl, inr, false, some, List, [], Text, is_empty,
  Result, ok, text_eq, arith,
}
use dot_ai_controller.KnowledgeSource.Git.{
  GitClient, CloneOptions, Repository, Commit, new_git_client, clone-keeps, get_head_commit,
  get_changed_files, get_changed_files-head,
}
use dot_ai_controller.KnowledgeSource.Patterns.{filter_files}
use dot_ai_controller.KnowledgeSource.Source.{
  GitKnowledgeSource, GitKnowledgeSourceSpec, phase_synced,
}
use dot_ai_controller.KnowledgeSource.Sync.{SyncHost, files_to_process}
use dot_ai_controller.KnowledgeSource.Sync.Files.{Tally, no_files, sync_files}
use dot_ai_controller.KnowledgeSource.Sync.Run.{do_sync}
use dot_ai_controller.KnowledgeSource.Sync.Run.Progress.{
  Progress, progress, completed, IsStopped, IsCloneFor, do_sync-Ends,
}

-- What every clone is, while the branch stays at a commit that go-git finds.
pub record IsAt (host : SyncHost) (head : Text) : Type 0 where
  pub repo : Repository
  pub commit : Commit
  pub head_non_empty : is_empty head ≡ false
  pub at_head : repo.head ≡ ok head
  pub same_hash : repo.new_hash head ≡ head
  pub found : repo.commit_object head ≡ ok commit
  pub made : (dir : Text) (options : CloneOptions) → host.git.plain_clone dir options ≡ ok repo

ok-injective : {A : Type 0} {a b : A} → ◌≡◌ {A = Result A} (ok a) (ok b) → a ≡ b
ok-injective h = cc

completed-nothing :
    (now generation : ℕ) (old : Progress)
    → completed old.last_synced_commit now [] no_files generation old ≡ record old {
      phase = phase_synced;
      last_sync_time = some now;
      sync_errors = 0;
      last_error = [];
      observed_generation = generation;
    }
unfolding ℕ_discrete
completed-nothing now generation old =
    ap
      (λ (n : ℕ). record old {
        phase = phase_synced;
        last_sync_time = some now;
        document_count = n;
        sync_errors = 0;
        last_error = [];
        observed_generation = generation;
      })
      (omega arith)

module _ (host : SyncHost) where
  no_changes :
      (head : Text) (at : IsAt host head) (g : GitClient)
      → IsCloneFor host head g
      → (get_changed_files g ≡ ok (some [])) × (get_head_commit g ≡ ok head)
  unfolding new_git_client get_head_commit
  no_changes head at g c =
      let (r, options, p, e) = clone-keeps host.git (new_git_client c.config) g c.cloned in
      let same : r ≡ at.repo = ok-injective (sym p ∙ at.made _ options) in
      let repo : g.repo ≡ some at.repo = ap (λ (g : GitClient). g.repo) e ∙ ap some same in
      let last : g.last_synced_commit ≡ head =
        ap (λ (g : GitClient). g.last_synced_commit) e ∙ c.since in
      (
        get_changed_files-head g at.repo at.commit repo (rw last at.head_non_empty)
            (rw last at.at_head) (rw last at.same_hash) (rw last at.found),
        rw (repo, at.at_head, get_head_commit) refl,
      )

  no_files_at :
      (head : Text) (g : GitClient) (spec : GitKnowledgeSourceSpec)
      → is_empty head ≡ false
      → get_changed_files g ≡ ok (some [])
      → files_to_process host g false head spec ≡ ok []
  unfolding files_to_process filter_files
  no_files_at head g spec n h = rw (n, h, files_to_process) refl

  -- While the branch stays at the commit of the last sync, and the spec as it is, a sync that is not stopped by
  -- an error of the secrets, of Git or of the MCP token processes no file, whatever the last sync could not
  -- read or ingest: it records a sync without errors, in which the number of documents stays.
  pub do_sync-same_head :
      (gks : GitKnowledgeSource)
      → IsAt host gks.status.last_synced_commit
      → IsStopped (progress gks) (do_sync host false gks)
        ⊎ (progress (do_sync host false gks).source ≡ record (progress gks) {
          phase = phase_synced;
          last_sync_time = some host.now;
          sync_errors = 0;
          last_error = [];
          observed_generation = gks.generation;
        })
  unfolding sync_files
  do_sync-same_head gks at = elim (do_sync-Ends host false gks) [
    | inl stopped ↦ inl stopped
    | inr through ↦
        let (unchanged, at_head) =
          no_changes gks.status.last_synced_commit at through.client through.cloned in
        let head : through.head ≡ gks.status.last_synced_commit =
          ok-injective (sym through.at_head ∙ at_head) in
        let files : through.files ≡ [] = ok-injective (
          sym through.listed ∙ no_files_at _ through.client gks.spec at.head_non_empty unchanged) in
        inr (
          through.recorded
          ∙ ap
              (λ (h : Text).
                completed h host.now through.files
                  (tally through.client through.token through.files) gks.generation (progress gks))
              head
          ∙ ap
              (λ (fs : List Text).
                completed gks.status.last_synced_commit host.now fs
                  (tally through.client through.token fs) gks.generation (progress gks))
              files
          ∙ completed-nothing host.now gks.generation (progress gks))
  ]
    where
      tally : GitClient → Text → List Text → Tally
      tally g token fs = sync_files host g token gks.spec gks.namespace gks.name fs no_files
