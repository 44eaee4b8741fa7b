-- ===== src/KnowledgeSource/Client.antt =====
-- internal/controller/gitknowledgesource_mcp.go: the client of the knowledge base, with its retries. What
-- HTTP and the JSON decoder do is a parameter; errors are texts.
pub mod Calls
pub mod First
use dot_ai_controller.Prelude.{
  ℕ, zero, suc, ◌+◌, Bool, false, Option, none, some, List, [], ◌++◌, Text, codes, is_empty, leb,
  if◌then◌else◌, wrap,
}
use dot_ai_controller.Prelude.Map.{Map}
use dot_ai_controller.Retry.{Round, return, again, retry_from}

pub record IngestRequest : Type 0 where
  pub operation : Text
  pub uri : Text
  pub content : Text
  pub metadata : Map Text Text

pub record ResponseError : Type 0 where
  pub message : Text
  pub operation : Text
  pub hint : Text

pub record IngestResponse : Type 0 where
  pub success : Bool
  pub operation : Text
  pub chunks_created : ℕ
  pub chunk_ids : List Text
  pub uri : Text
  pub message : Text
  pub error : Option ResponseError

pub record DeleteRequest : Type 0 where
  pub operation : Text
  pub uri : Text

pub record DeleteResponse : Type 0 where
  pub success : Bool
  pub operation : Text
  pub uri : Text
  pub chunks_deleted : ℕ
  pub message : Text
  pub error : Option ResponseError

pub record DeleteBySourceData : Type 0 where
  pub source_identifier : Text
  pub chunks_deleted : ℕ

pub record DeleteBySourceResponse : Type 0 where
  pub success : Bool
  pub data_found : Option DeleteBySourceData
  -- The message of the error.
  pub error : Option Text

-- How one HTTP exchange ends: an error of json.Marshal or http.NewRequest, one of the request, one of the
-- reading of the body, or a status and a body.
pub data Exchange : Type 0 where
  marshal_failed create_failed request_failed read_failed : Text → Exchange
  response : ℕ → Text → Exchange

-- One attempt: the error of the context when it is done while the backoff is waited for, the exchange, and
-- the error of the context after it.
pub record Attempt : Type 0 where
  pub in_wait : Option Text
  pub exchange : Exchange
  pub after : Option Text

abbrev pub or_unknown : Text → Text
or_unknown message = if is_empty message then codes "unknown error" else message

abbrev pub message_of : Option ResponseError → Text
message_of none = codes "unknown error"
message_of (some e) = or_unknown e.message

-- `fmt.Sprintf("%d", …)` is a parameter, and json.Unmarshal, which changes the response and may return an
-- error.
module _ (decimal : ℕ → Text) {R : Type 0} (unmarshal : R → Text → R × Option Text) where
  status_error : Text → ℕ → Text → Text
  status_error side status body =
      side ++ codes " error (HTTP " ++ decimal status ++ codes "): " ++ body

  decoded : R × Option Text → R × Option Text
  decoded (r, none) = (r, none)
  decoded (r, some e) = (r, some (wrap (codes "failed to unmarshal response") e))

  -- doRequest and doDeleteRequest, on the response that the attempts before left.
  do_request : R → Exchange → R × Option Text
  unfolding status_error decoded
  do_request r (marshal_failed e) = (r, some (wrap (codes "failed to marshal request") e))
  do_request r (create_failed e) = (r, some (wrap (codes "failed to create request") e))
  do_request r (request_failed e) = (r, some (wrap (codes "HTTP request failed") e))
  do_request r (read_failed e) = (r, some (wrap (codes "failed to read response body") e))
  do_request r (response status body) =
      if leb 500 status
      then (r, some (status_error (codes "server") status body))
      else if leb 400 status
      then (r, some (status_error (codes "client") status body))
      else decoded (unmarshal r body)

  abbrev after_request : Option Text → R × Option Text → Round R (R × Option Text)
  after_request over (r, none) = return (r, none)
  after_request none (r, some e) = again r e
  after_request (some x) (r, some e) = return (r, some x)

  attempt_round : (ℕ → Attempt) → ℕ → R → Round R (R × Option Text)
  unfolding do_request
  attempt_round world zero r = after_request (world 0).after (do_request r (world 0).exchange)
  attempt_round world (suc n) r = elim (world (suc n)).in_wait [
    | some x ↦ return (r, some x)
    | none ↦ after_request (world (suc n)).after (do_request r (world (suc n)).exchange)
  ]

  give_up : Text → ℕ → R → Text → R × Option Text
  give_up label max_retries r last = (
    r,
    some (
        label
        ++ codes " failed after "
        ++ decimal (max_retries + 1)
        ++ codes " attempts: "
        ++ last),
  )

  -- doRequestWithRetry and doDeleteRequestWithRetry, which differ in the label of their last error.
  unfoldable pub do_request_with_retry : Text → ℕ → (ℕ → Attempt) → R → R × Option Text
  unfolding attempt_round give_up retry_from
  do_request_with_retry label max_retries world r =
      retry_from (attempt_round world) (give_up label max_retries) 0 (suc max_retries) r []

-- The `(response, error)` of a call, from the response and the error of its request, what `resp.Success` and
-- the error's message are, and the words for the failure.
unfoldable pub call_result :
    {R : Type 0} → (R → Bool) → (R → Text) → Text → R × Option Text → Option R × Option Text
call_result success message failure (r, some e) = (none, some e)
call_result success message failure (r, none) =
    if success r then (some r, none) else (some r, some (failure ++ codes ": " ++ message r))

abbrev pub no_ingest_response : IngestResponse
no_ingest_response = record {
  success = false;
  operation = [];
  chunks_created = 0;
  chunk_ids = [];
  uri = [];
  message = [];
  error = none;
}

abbrev pub no_delete_response : DeleteResponse
no_delete_response = record {
  success = false;
  operation = [];
  uri = [];
  chunks_deleted = 0;
  message = [];
  error = none;
}

abbrev pub no_source_response : DeleteBySourceResponse
no_source_response = record { success = false; data_found = none; error = none }

abbrev pub ingest_request : Text → Text → Map Text Text → IngestRequest
ingest_request uri content metadata = record {
  operation = codes "ingest";
  uri = uri;
  content = content;
  metadata = metadata;
}

-- `post` is what the attempts of a request meet.
unfoldable pub ingest_document :
    (ℕ → Text)
    → (IngestResponse → Text → IngestResponse × Option Text)
    → ℕ
    → (IngestRequest → ℕ → Attempt)
    → Text
    → Text
    → Map Text Text
    → Option IngestResponse × Option Text
unfolding do_request_with_retry call_result
ingest_document decimal unmarshal max_retries post uri content metadata =
    call_result (λ r. r.success) (λ r. message_of r.error) (codes "MCP ingest failed")
      (do_request_with_retry decimal unmarshal (codes "MCP request") max_retries
        (post (ingest_request uri content metadata)) no_ingest_response)

unfoldable pub delete_document :
    (ℕ → Text)
    → (DeleteResponse → Text → DeleteResponse × Option Text)
    → ℕ
    → (DeleteRequest → ℕ → Attempt)
    → Text
    → Option DeleteResponse × Option Text
unfolding do_request_with_retry call_result
delete_document decimal unmarshal max_retries post uri =
    let request : DeleteRequest = record { operation = codes "deleteByUri"; uri = uri } in
    call_result (λ r. r.success) (λ r. message_of r.error) (codes "MCP delete failed")
      (do_request_with_retry decimal unmarshal (codes "MCP request") max_retries (post request)
        no_delete_response)

abbrev source_message : Option Text → Text
source_message none = codes "unknown error"
source_message (some message) = or_unknown message

unfoldable pub delete_by_source :
    (ℕ → Text)
    → (DeleteBySourceResponse → Text → DeleteBySourceResponse × Option Text)
    → ℕ
    → (Text → ℕ → Attempt)
    → Text
    → Option DeleteBySourceResponse × Option Text
unfolding do_request_with_retry call_result
delete_by_source decimal unmarshal max_retries send delete_url =
    call_result (λ r. r.success) (λ r. source_message r.error) (codes "MCP deleteBySource failed")
      (do_request_with_retry decimal unmarshal (codes "MCP DELETE request") max_retries
        (send delete_url) no_source_response)
