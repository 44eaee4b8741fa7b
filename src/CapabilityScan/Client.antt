-- ===== src/CapabilityScan/Client.antt =====
-- capabilityscan_mcp.go: the client of the MCP server's capabilities, with its retries. HTTP, JSON and the
-- Kubernetes API are parameters; errors are texts.
pub mod Calls
use dot_ai_controller.Prelude.{
  ℕ, zero, suc, ◌+◌, Bool, true, false, Option, none, some, List, [], ◌∷◌, ◌++◌, Text, codes,
  is_empty, leb, if◌then◌else◌, has_suffix, trim_suffix, Result, ok, err, wrap, wrapped,
}
use dot_ai_controller.Secret.{SecretFetch, secret_value}
use dot_ai_controller.Retry.{Round, return, again, retry_from}

pub record ManageOrgDataRequest : Type 0 where
  pub data_type : Text
  pub operation : Text
  pub collection : Text
  pub mode : Text
  pub resource_list : Text
  pub id : Text
  pub limit : ℕ

-- The result of the data, with the ids of its capabilities.
pub record ListResult : Type 0 where
  pub success : Bool
  pub status : Text
  pub message : Text
  pub capabilities : List Text
  pub total_count : ℕ
  pub operation : Text

pub record ResponseError : Type 0 where
  pub code : Text
  pub message : Text

-- `none` is a response without data, or with data without a result.
pub record ManageOrgDataResponse : Type 0 where
  pub success : Bool
  pub result : Option ListResult
  pub error : Option ResponseError

abbrev or_result : Option ListResult → Text
or_result none = codes "unknown error"
or_result (some r) = if is_empty r.message then codes "unknown error" else r.message

abbrev or_next : Option ResponseError → Text → Text
or_next none next = next
or_next (some e) next =
    if is_empty e.message
    then (if is_empty e.code then next else codes "error code: " ++ e.code)
    else e.message

unfoldable pub get_error_message : ManageOrgDataResponse → Text
get_error_message r = or_next r.error (or_result r.result)

unfoldable pub get_total_count : ManageOrgDataResponse → ℕ
get_total_count r = elim r.result [ none ↦ 0 | some l ↦ l.total_count ]

abbrev non_empty : List Text → List Text
non_empty [] = []
non_empty (id ∷ ids) = let rest = non_empty ids in if is_empty id then rest else id ∷ rest

unfoldable pub get_capability_ids : ManageOrgDataResponse → List Text
get_capability_ids r = elim r.result [ none ↦ [] | some l ↦ non_empty l.capabilities ]

-- How one POST ends: no response, one whose body cannot be read, or a status and a body.
pub data HttpResult : Type 0 where
  no_response bad_body : Text → HttpResult
  response : ℕ → Text → HttpResult

-- The reference to the secret, and its namespace.
pub record AuthSecret : Type 0 where
  pub namespace : Text
  pub name : Text
  pub key : Text

abbrev manage_org_data : Text
manage_org_data = codes "/api/v1/tools/manageOrgData"

-- The endpoint of NewMCPCapabilityScanClient.
unfoldable pub build_endpoint : Text → Text
unfolding has_suffix trim_suffix
build_endpoint endpoint =
    let base = trim_suffix endpoint (codes "/") in
    if has_suffix base manage_org_data then base else base ++ manage_org_data

unfoldable pub get_auth_token : (Text → SecretFetch) → AuthSecret → Result Text
unfolding secret_value
get_auth_token fetch ref =
    if is_empty ref.name
    then ok []
    else secret_value (codes "auth secret") (fetch ref.name) ref.namespace ref.name ref.key

-- One attempt: the error of the context when it is done while the backoff is waited for, what the request meets,
-- with a token, and the error of the context after it.
pub record Attempt : Type 0 where
  pub in_wait : Option Text
  pub fetch : Text → SecretFetch
  pub post : ManageOrgDataRequest → Text → HttpResult
  pub after : Option Text

abbrev request_of : Text → Text → ManageOrgDataRequest
request_of operation collection = record {
  data_type = codes "capabilities";
  operation = operation;
  collection = collection;
  mode = [];
  resource_list = [];
  id = [];
  limit = 0;
}

abbrev pub list_request : Text → ℕ → ManageOrgDataRequest
list_request collection limit = record (request_of (codes "list") collection) { limit = limit }

abbrev pub scan_request : Text → ManageOrgDataRequest
scan_request collection = request_of (codes "scan") collection

abbrev pub delete_request : Text → Text → ManageOrgDataRequest
delete_request collection id = record (request_of (codes "delete") collection) { id = id }

module _ (decimal : ℕ → Text) (decode : Text → Option ManageOrgDataResponse) where
  -- A body that is no JSON counts as a success.
  receive : HttpResult → Result ManageOrgDataResponse
  receive (no_response e) = err (wrap (codes "HTTP request failed") e)
  receive (bad_body e) = err (wrap (codes "failed to read response body") e)
  receive (response status body) =
      if leb 400 status
      then ok (record {
        success = false;
        result = none;
        error = some (record {
          code = decimal status;
          message = codes "HTTP " ++ decimal status ++ codes ": " ++ body;
        });
      })
      else elim (decode body) [
        | some r ↦ ok r
        | none ↦ ok (record { success = true; result = none; error = none })
      ]

  unfoldable pub send : AuthSecret → Attempt → ManageOrgDataRequest → Result ManageOrgDataResponse
  unfolding get_auth_token receive
  send ref a req = elim (wrapped (codes "failed to get auth token") (get_auth_token a.fetch ref)) [
    | err e ↦ err e
    | ok token ↦ receive (a.post req token)
  ]

  abbrev unless_done : Option Text → Text → Round (Unit {0}) (Result ManageOrgDataResponse)
  unless_done none e = again tt e
  unless_done (some x) e = return (err x)

  after_send :
      Option Text → Result ManageOrgDataResponse → Round (Unit {0}) (Result ManageOrgDataResponse)
  unfolding get_error_message
  after_send over (err e) = unless_done over e
  after_send over (ok r) =
      if r.success
      then return (ok r)
      else unless_done over (codes "MCP returned error: " ++ get_error_message r)

  attempt_round :
      AuthSecret
      → ManageOrgDataRequest
      → (ℕ → Attempt)
      → ℕ
      → Unit {0}
      → Round (Unit {0}) (Result ManageOrgDataResponse)
  unfolding send after_send
  attempt_round ref req world zero s = after_send (world 0).after (send ref (world 0) req)
  attempt_round ref req world (suc n) s = elim (world (suc n)).in_wait [
    | some x ↦ return (err x)
    | none ↦ after_send (world (suc n)).after (send ref (world (suc n)) req)
  ]

  give_up : ℕ → Unit {0} → Text → Result ManageOrgDataResponse
  give_up max_retries s last =
      err (codes "failed after " ++ decimal max_retries ++ codes " retries: " ++ last)

  unfoldable pub send_with_retry :
      ℕ → AuthSecret → (ℕ → Attempt) → ManageOrgDataRequest → Result ManageOrgDataResponse
  unfolding attempt_round give_up retry_from
  send_with_retry max_retries ref world req =
      retry_from (attempt_round ref req world) (give_up max_retries) 0 (suc max_retries) tt []

  -- `if !resp.Success { return fmt.Errorf(…) }`, and what is read of the response.
  abbrev answer_of {ℓ} :
      {A : Type ℓ} → (ManageOrgDataResponse → A) → Result ManageOrgDataResponse → Result A
  answer_of read (err e) = err e
  answer_of read (ok r) =
      if r.success then ok (read r) else err (codes "MCP returned error: " ++ get_error_message r)

  -- What the client is configured with, and what its attempts meet.
  module _ (max_retries : ℕ) (ref : AuthSecret) (collection : Text) (world : ℕ → Attempt) where
    unfoldable pub list_capabilities : Result ℕ
    unfolding send_with_retry get_error_message get_total_count
    list_capabilities =
        answer_of get_total_count
          (send_with_retry max_retries ref world (list_request collection 1))

    unfoldable pub list_capability_ids : Result (List Text)
    unfolding send_with_retry get_error_message get_capability_ids
    list_capability_ids =
        answer_of get_capability_ids
          (send_with_retry max_retries ref world (list_request collection 10000))

    unfoldable pub trigger_full_scan : Result (Unit {0})
    unfolding send_with_retry get_error_message
    trigger_full_scan =
        answer_of (λ r. tt)
          (send_with_retry max_retries ref world
            (record (scan_request collection) { mode = codes "full" }))

    unfoldable pub trigger_scan : Text → Result (Unit {0})
    unfolding send_with_retry get_error_message
    trigger_scan resource_list =
        answer_of (λ r. tt)
          (send_with_retry max_retries ref world
            (record (scan_request collection) { resource_list = resource_list }))

    unfoldable pub delete_capability : Text → Result (Unit {0})
    unfolding send_with_retry get_error_message
    delete_capability id =
        answer_of (λ r. tt) (send_with_retry max_retries ref world (delete_request collection id))
