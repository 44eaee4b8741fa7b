-- ===== src/KnowledgeSource/Sync/Counts.antt =====
-- What the loop of `doSync` counts, by the outcomes of the files.
use dot_ai_controller.Prelude.{
  suc, ◌+◌, ◌≡◌, refl, ap, ◌∙◌, sym, Bool, true, false, List, [], ◌∷◌, ◌++◌, map, Text, length,
  keep, arith,
}
use mathlib.Core.List.{append-nil, append_assoc}
use dot_ai_controller.KnowledgeSource.Git.{GitClient}
use dot_ai_controller.KnowledgeSource.Source.{SkippedFile, GitKnowledgeSourceSpec}
use dot_ai_controller.KnowledgeSource.Sync.{SyncHost}
use dot_ai_controller.KnowledgeSource.Sync.Files.{
  Tally, no_files, FileOutcome, unread, refused, too_large, ingested, file_outcome, count_file,
  sync_files,
}

abbrev pub is_ingested : FileOutcome → Bool
is_ingested (unread e) = false
is_ingested (too_large size limit) = false
is_ingested (refused e) = false
is_ingested ingested = true

abbrev pub is_error : FileOutcome → Bool
is_error (unread e) = true
is_error (too_large size limit) = false
is_error (refused e) = true
is_error ingested = false

abbrev pub is_too_large : FileOutcome → Bool
is_too_large (unread e) = false
is_too_large (too_large size limit) = true
is_too_large (refused e) = false
is_too_large ingested = false

abbrev pub paths_of : List SkippedFile → List Text
paths_of fs = map (λ f. f.path) fs

map-snoc :
    (f : SkippedFile) (fs : List SkippedFile) → paths_of (fs ++ f ∷ []) ≡ paths_of fs ++ f.path ∷ []
map-snoc f [] = refl
map-snoc f (x ∷ fs) = ap (λ (r : List Text). x.path ∷ r) (map-snoc f fs)

keep-cons :
    (p : Text → Bool) (x : Text) (xs : List Text) → keep p (x ∷ xs) ≡ keep p (x ∷ []) ++ keep p xs
keep-cons p x xs = ground arith

length-keep-cons :
    (p : Text → Bool) (x : Text) (xs : List Text)
    → length (keep p (x ∷ xs)) ≡ length (keep p (x ∷ [])) + length (keep p xs)
length-keep-cons p x xs = ground arith

module _ (host : SyncHost) (g : GitClient) (token : Text) (spec : GitKnowledgeSourceSpec)
    (namespace name : Text) where
  abbrev pub outcome : Text → FileOutcome
  outcome path = file_outcome host g token spec namespace name path

  record Counted (before after : Tally) (paths : List Text) : Type 0 where
    pub documents :
        after.document_count
        ≡ before.document_count + length (keep (λ p. is_ingested (outcome p)) paths)
    pub errors :
        after.sync_errors ≡ before.sync_errors + length (keep (λ p. is_error (outcome p)) paths)
    pub skipped :
        paths_of after.skipped_files
        ≡ paths_of before.skipped_files ++ keep (λ p. is_too_large (outcome p)) paths

  count_file-Counted :
      (path : Text) (o : FileOutcome) (t : Tally)
      → outcome path ≡ o
      → Counted t (count_file host g token spec namespace name path o t) (path ∷ [])
  unfolding count_file
  count_file-Counted path (unread e) t h = record {
    documents = rw h (omega arith);
    errors = rw h (omega arith);
    skipped = rw h (sym (append-nil _));
  }
  count_file-Counted path (refused e) t h = record {
    documents = rw h (omega arith);
    errors = rw h (omega arith);
    skipped = rw h (sym (append-nil _));
  }
  count_file-Counted path (too_large s l) t h = record {
    documents = rw h (omega arith);
    errors = rw h (omega arith);
    skipped = rw h (map-snoc _ t.skipped_files);
  }
  count_file-Counted path ingested t h = record {
    documents = rw h (omega arith);
    errors = rw h (omega arith);
    skipped = rw h (sym (append-nil _));
  }

  Counted-trans :
      (t u v : Tally) (path : Text) (paths : List Text)
      → Counted t u (path ∷ [])
      → Counted u v paths
      → Counted t v (path ∷ paths)
  Counted-trans t u v path paths a b = record {
    documents = omega (
      arith,
      a.documents,
      b.documents,
      length-keep-cons (λ p. is_ingested (outcome p)) path paths,
    );
    errors =
        omega (arith, a.errors, b.errors, length-keep-cons (λ p. is_error (outcome p)) path paths);
    skipped =
        b.skipped
        ∙ ap (λ (r : List Text). r ++ keep (λ p. is_too_large (outcome p)) paths) a.skipped
        ∙ append_assoc (paths_of t.skipped_files) _ _
        ∙ ap (λ (r : List Text). paths_of t.skipped_files ++ r)
            (sym (keep-cons (λ p. is_too_large (outcome p)) path paths));
  }

  sync_files-Counted :
      (paths : List Text) (t : Tally)
      → Counted t (sync_files host g token spec namespace name paths t) paths
  unfolding sync_files
  sync_files-Counted [] t = record {
    documents = omega arith;
    errors = omega arith;
    skipped = sym (append-nil _);
  }
  sync_files-Counted (path ∷ paths) t =
      Counted-trans t _ _ path paths (count_file-Counted path (outcome path) t refl) (
        sync_files-Counted paths
          (count_file host g token spec namespace name path (outcome path) t))

  split_three :
      (paths : List Text)
      → length (keep (λ p. is_ingested (outcome p)) paths)
          + length (keep (λ p. is_error (outcome p)) paths)
          + length (keep (λ p. is_too_large (outcome p)) paths)
        ≡ length paths
  split_three [] = refl
  split_three (p ∷ ps) = one (outcome p) refl (split_three ps)
    where
      one :
          (o : FileOutcome)
          → outcome p ≡ o
          → length (keep (λ p. is_ingested (outcome p)) ps)
              + length (keep (λ p. is_error (outcome p)) ps)
              + length (keep (λ p. is_too_large (outcome p)) ps)
            ≡ length ps
          → length (keep (λ p. is_ingested (outcome p)) (p ∷ ps))
              + length (keep (λ p. is_error (outcome p)) (p ∷ ps))
              + length (keep (λ p. is_too_large (outcome p)) (p ∷ ps))
            ≡ suc (length ps)
      one (unread x) h e = rw h (omega (arith, e))
      one (refused x) h e = rw h (omega (arith, e))
      one (too_large s l) h e = rw h (omega (arith, e))
      one ingested h e = rw h (omega (arith, e))

  length-paths_of : (fs : List SkippedFile) → length (paths_of fs) ≡ length fs
  length-paths_of [] = refl
  length-paths_of (f ∷ fs) = omega (arith, length-paths_of fs)

  pub sync_files-outcomes :
      (paths : List Text)
      → ((sync_files host g token spec namespace name paths no_files).document_count
          ≡ length (keep (λ p. is_ingested (outcome p)) paths))
        × ((sync_files host g token spec namespace name paths no_files).sync_errors
            ≡ length (keep (λ p. is_error (outcome p)) paths))
        × (paths_of (sync_files host g token spec namespace name paths no_files).skipped_files
            ≡ keep (λ p. is_too_large (outcome p)) paths)
        × ((sync_files host g token spec namespace name paths no_files).document_count
              + (sync_files host g token spec namespace name paths no_files).sync_errors
              + length (sync_files host g token spec namespace name paths no_files).skipped_files
            ≡ length paths)
  sync_files-outcomes paths =
      let c = sync_files-Counted paths no_files in
      (
        omega (arith, c.documents),
        omega (arith, c.errors),
        c.skipped,
        omega (
          arith,
          c.documents,
          c.errors,
          ap (λ (r : List Text). length r) c.skipped,
          split_three paths,
          length-paths_of
              (sync_files host g token spec namespace name paths no_files).skipped_files,
        ),
      )
