-- ===== src/KnowledgeSource/Sync/Files.antt =====
-- The loop of `doSync` over the files.
use dot_ai_controller.Prelude.{
  ℕ, suc, Bool, false, Option, none, some, List, [], ◌∷◌, ◌++◌, Text, codes, ltb, if◌then◌else◌,
  length, trim_suffix, Result, ok, err,
}
use dot_ai_controller.KnowledgeSource.Git.{GitClient, get_file_content}
use dot_ai_controller.KnowledgeSource.Document.{build_document_uri, build_metadata}
use dot_ai_controller.KnowledgeSource.Client.{IngestResponse, ingest_document}
use dot_ai_controller.KnowledgeSource.Source.{SkippedFile, GitKnowledgeSourceSpec}
use dot_ai_controller.KnowledgeSource.Sync.{SyncHost}

pub record Tally : Type 0 where
  pub document_count : ℕ
  pub sync_errors : ℕ
  pub last_error : Text
  pub skipped_files : List SkippedFile

abbrev pub no_files : Tally
no_files = record { document_count = 0; sync_errors = 0; last_error = []; skipped_files = [] }

-- How the body of the loop ends for a file: with a reading that fails, a size and a limit that it exceeds, a
-- document that is refused, or one that is ingested.
pub data FileOutcome : Type 0 where
  unread refused : Text → FileOutcome
  too_large : ℕ → ℕ → FileOutcome
  ingested : FileOutcome

abbrev pub above_limit : Option ℕ → ℕ → Bool
above_limit none size = false
above_limit (some limit) size = ltb limit size

abbrev or_zero : Option ℕ → ℕ
or_zero none = 0
or_zero (some n) = n

abbrev of_error : Option Text → FileOutcome
of_error none = ingested
of_error (some e) = refused e

-- The client is made with the default of three retries.
abbrev pub default_mcp_max_retries : ℕ
default_mcp_max_retries = 3

module _ (host : SyncHost) (g : GitClient) (token : Text) (spec : GitKnowledgeSourceSpec)
    (namespace name : Text) where
  mcp_endpoint : Text
  unfolding trim_suffix
  mcp_endpoint =
      trim_suffix spec.mcp_server.url (codes "/") ++ codes "/api/v1/tools/manageKnowledge"

  unfoldable pub ingest_file : Text → Text → Option IngestResponse × Option Text
  unfolding mcp_endpoint ingest_document build_document_uri build_metadata
  ingest_file path content =
      ingest_document host.decimal host.unmarshal default_mcp_max_retries
        (host.post mcp_endpoint token)
        (build_document_uri host.url_parse spec.repository.url spec.repository.branch path) content
        (build_metadata spec.metadata namespace name)

  abbrev pub of_content : Text → Result Text → FileOutcome
  of_content path (err e) = unread e
  of_content path (ok content) =
      if above_limit spec.max_file_size_bytes (length content)
      then too_large (length content) (or_zero spec.max_file_size_bytes)
      else of_error (ingest_file path content).1

  unfoldable pub file_outcome : Text → FileOutcome
  unfolding ingest_file get_file_content
  file_outcome path = of_content path (get_file_content g path)

  pub skip_reason : ℕ → ℕ → Text
  skip_reason size limit =
      codes "exceeded max file size ("
      ++ host.decimal size
      ++ codes " bytes > "
      ++ host.decimal limit
      ++ codes " bytes)"

  unfoldable pub count_file : Text → FileOutcome → Tally → Tally
  unfolding skip_reason
  count_file path (unread e) t = record t {
    sync_errors = suc t.sync_errors;
    last_error = codes "Failed to read " ++ path ++ codes ": " ++ e;
  }
  count_file path (too_large size limit) t = record t {
    skipped_files = t.skipped_files ++ record { path = path; reason = skip_reason size limit } ∷ [];
  }
  count_file path (refused e) t = record t {
    sync_errors = suc t.sync_errors;
    last_error = codes "Failed to ingest " ++ path ++ codes ": " ++ e;
  }
  count_file path ingested t = record t { document_count = suc t.document_count }

  unfoldable pub sync_files : List Text → Tally → Tally
  unfolding count_file
  sync_files [] t = t
  sync_files (path ∷ paths) t = sync_files paths (count_file path (file_outcome path) t)
