-- ===== src/KnowledgeSource/Sync/Partition.antt =====
-- What the loop of `doSync` counts, by the contents of the files, the limit and the answers of the server.
use dot_ai_controller.Prelude.{
  ℕ, not, ◌&&◌, is_some, Option, none, some, Result, ok, err, ltb, ◌+◌, ◌≡◌, refl, ap, ◌∙◌, Bool,
  true, false, List, [], ◌∷◌, Text, length, keep, arith,
}
use dot_ai_controller.KnowledgeSource.Git.{GitClient, get_file_content}
use dot_ai_controller.KnowledgeSource.Source.{GitKnowledgeSourceSpec}
use dot_ai_controller.KnowledgeSource.Sync.{SyncHost}
use dot_ai_controller.KnowledgeSource.Sync.Files.{
  no_files, file_outcome, of_content, above_limit, ingest_file, sync_files,
}
use dot_ai_controller.KnowledgeSource.Sync.Counts.{
  is_ingested, is_error, is_too_large, paths_of, outcome, sync_files-outcomes,
}

keep-same :
    (p q : Text → Bool) → ((x : Text) → p x ≡ q x) → (xs : List Text) → keep p xs ≡ keep q xs
keep-same p q e [] = refl
keep-same p q e (x ∷ xs) = rw (e x, keep-same p q e xs) refl

-- A size beyond the limit, if there is one.
abbrev pub exceeds : Option ℕ → ℕ → Bool
exceeds none size = false
exceeds (some limit) size = ltb limit size

exceeds-same : (limit : Option ℕ) (size : ℕ) → above_limit limit size ≡ exceeds limit size
exceeds-same none size = refl
exceeds-same (some limit) size = refl

-- What becomes of a file, by the limit, the reading of its content, and the error of its ingestion.
abbrev pub sent_by : Option ℕ → Result Text → (Text → Option Text) → Bool
sent_by limit (err e) error = false
sent_by limit (ok content) error =
    not (exceeds limit (length content)) && not (is_some (error content))

abbrev pub failed_by : Option ℕ → Result Text → (Text → Option Text) → Bool
failed_by limit (err e) error = true
failed_by limit (ok content) error = not (exceeds limit (length content)) && is_some (error content)

abbrev pub skipped_by : Option ℕ → Result Text → Bool
skipped_by limit (err e) = false
skipped_by limit (ok content) = exceeds limit (length content)

module _ (host : SyncHost) (g : GitClient) (token : Text) (spec : GitKnowledgeSourceSpec)
    (namespace name : Text) where
  of_content-sent :
      (path : Text) (r : Result Text)
      → is_ingested (of_content host g token spec namespace name path r)
        ≡ sent_by spec.max_file_size_bytes r
            (λ content. (ingest_file host g token spec namespace name path content).1)
  of_content-sent path (err e) = refl
  of_content-sent path (ok content) =
      ground (arith, exceeds-same spec.max_file_size_bytes (length content))

  of_content-failed :
      (path : Text) (r : Result Text)
      → is_error (of_content host g token spec namespace name path r)
        ≡ failed_by spec.max_file_size_bytes r
            (λ content. (ingest_file host g token spec namespace name path content).1)
  of_content-failed path (err e) = refl
  of_content-failed path (ok content) =
      ground (arith, exceeds-same spec.max_file_size_bytes (length content))

  of_content-skipped :
      (path : Text) (r : Result Text)
      → is_too_large (of_content host g token spec namespace name path r)
        ≡ skipped_by spec.max_file_size_bytes r
  of_content-skipped path (err e) = refl
  of_content-skipped path (ok content) =
      ground (arith, exceeds-same spec.max_file_size_bytes (length content))

  -- The error of IngestDocument for a file with a content.
  abbrev pub ingest_error : Text → Text → Option Text
  ingest_error path content = (ingest_file host g token spec namespace name path content).1

  abbrev pub is_sent : Text → Bool
  is_sent path = sent_by spec.max_file_size_bytes (get_file_content g path) (ingest_error path)

  abbrev pub has_failed : Text → Bool
  has_failed path = failed_by spec.max_file_size_bytes (get_file_content g path) (ingest_error path)

  abbrev pub is_skipped : Text → Bool
  is_skipped path = skipped_by spec.max_file_size_bytes (get_file_content g path)

  -- Every file of a sync is counted once: as a document, if its content is read at the head, is no longer than the
  -- limit, and IngestDocument returns no error for it; as an error, if it cannot be read, or is no longer than the
  -- limit and IngestDocument returns an error; or as a skipped file, if it is read and longer than the limit, and
  -- then it is listed, in the order of the files.
  pub sync_files-partition :
      (paths : List Text)
      → ((sync_files host g token spec namespace name paths no_files).document_count
          ≡ length (keep is_sent paths))
        × ((sync_files host g token spec namespace name paths no_files).sync_errors
            ≡ length (keep has_failed paths))
        × (paths_of (sync_files host g token spec namespace name paths no_files).skipped_files
            ≡ keep is_skipped paths)
        × ((sync_files host g token spec namespace name paths no_files).document_count
              + (sync_files host g token spec namespace name paths no_files).sync_errors
              + length (sync_files host g token spec namespace name paths no_files).skipped_files
            ≡ length paths)
  unfolding file_outcome
  sync_files-partition paths =
      let (documents, errors, skipped, all) =
        sync_files-outcomes host g token spec namespace name paths in
      (
        documents
            ∙ ap (λ (r : List Text). length r)
                (keep-same (λ p. is_ingested (outcome host g token spec namespace name p)) is_sent
                  (λ path. of_content-sent path (get_file_content g path)) paths),
        errors
            ∙ ap (λ (r : List Text). length r)
                (keep-same (λ p. is_error (outcome host g token spec namespace name p)) has_failed
                  (λ path. of_content-failed path (get_file_content g path)) paths),
        skipped
            ∙ keep-same (λ p. is_too_large (outcome host g token spec namespace name p)) is_skipped
                (λ path. of_content-skipped path (get_file_content g path)) paths,
        all,
      )
