-- ===== src/ResourceSync/Client.antt =====
-- resourcesync_mcp.go: the client of the MCP server's sync endpoint, with its retries. What is sent
-- over HTTP, and the JSON decoder, are parameters. Errors are values in place of texts.
pub mod Retry
use dot_ai_controller.Prelude.{
  ℕ, zero, suc, Bool, true, false, Option, none, some, List, ◌++◌, Text, codes, is_empty, leb,
  if◌then◌else◌, length,
}
use dot_ai_controller.ResourceSync.Change.{ResourceData, ResourceIdentifier}

pub record SyncRequest : Type 0 where
  pub upserts : List ResourceData
  pub deletes : List ResourceIdentifier
  pub is_resync : Bool

-- How many were upserted, and how many deleted.
pub record Counts : Type 0 where
  pub upserted : ℕ
  pub deleted : ℕ

pub record SyncFailure : Type 0 where
  pub id : Text
  pub error : Text

pub record Details : Type 0 where
  pub counts : Counts
  pub failures : List SyncFailure

pub record ErrorBody : Type 0 where
  pub code : Text
  pub message : Text
  pub details : Option Details

pub record SyncResponse : Type 0 where
  pub success : Bool
  pub counts : Option Counts
  pub error : Option ErrorBody

unfoldable pub get_success_counts : SyncResponse → Counts
get_success_counts r = elim r.counts [ none ↦ record { upserted = 0; deleted = 0 } | some c ↦ c ]

message_of : Option ErrorBody → Text
message_of none = codes "unknown error"
message_of (some e) =
    if is_empty e.message
    then (if is_empty e.code then codes "unknown error" else codes "error code: " ++ e.code)
    else e.message

unfoldable pub get_error_message : SyncResponse → Text
unfolding message_of
get_error_message r = message_of r.error

-- `nil_error` is Go's nil; `reported` is a server's message without a wrapper.
pub data SyncError : Type 0 where
  nil_error cancelled : SyncError
  auth_failed send_failed read_failed mcp_returned reported : Text → SyncError
  exhausted : ℕ → SyncError → SyncError

-- What `(*SyncResponse, error)` holds: a response and no error, or an error with or without one.
pub data Reply : Type 0 where
  reply : SyncResponse → Reply
  failure : Option SyncResponse → SyncError → Reply

-- The outcome of one POST: no response, one whose body cannot be read, or a status and a body.
pub data HttpResult : Type 0 where
  no_response bad_body : Text → HttpResult
  response : ℕ → Text → HttpResult

pub data AuthToken : Type 0 where
  token : Text → AuthToken
  no_token : Text → AuthToken

abbrev has_details : Option ErrorBody → Bool
has_details none = false
has_details (some e) = elim e.details [ none ↦ false | some d ↦ true ]

unfoldable pub is_partial : SyncResponse → Bool
is_partial r = has_details r.error

module _ (decode : Text → Option SyncResponse) (http_error : ℕ → Text → ErrorBody) where
  -- What `send` makes of a response.
  receive : SyncRequest → HttpResult → Reply
  receive req (no_response e) = failure none (send_failed e)
  receive req (bad_body e) = failure none (read_failed e)
  receive req (response status body) =
      if leb 400 status
      then reply (record { success = false; counts = none; error = some (http_error status body) })
      else elim (decode body) [
        | some r ↦ reply r
        | none ↦ reply (record {
          success = true;
          counts = some (record { upserted = length req.upserts; deleted = length req.deletes });
          error = none;
        })
      ]

  unfoldable pub send : (SyncRequest → Text → HttpResult) → AuthToken → SyncRequest → Reply
  unfolding receive
  send post (no_token e) req = failure none (auth_failed e)
  send post (token t) req = receive req (post req t)

-- What happens at one attempt of the loop: whether the context is done while the backoff is waited
-- for, what `send` returns, and whether the context is done after it.
pub record Attempt : Type 0 where
  pub cancelled_in_wait : Bool
  pub outcome : Reply
  pub cancelled_after : Bool

-- How the body of the loop ends: with a value returned, or going on with the last error.
pub data Round : Type 0 where
  return : Reply → Round
  retry : SyncError → Round

abbrev unless_cancelled : Bool → SyncError → Round
unless_cancelled true e = return (failure none cancelled)
unless_cancelled false e = retry e

after_send : Bool → Reply → Round
unfolding is_partial get_error_message
after_send done (failure r e) = unless_cancelled done e
after_send done (reply r) =
    if r.success
    then return (reply r)
    else if is_partial r
    then return (failure (some r) (mcp_returned (get_error_message r)))
    else unless_cancelled done (mcp_returned (get_error_message r))

-- The body of the loop, at an attempt and the number of attempts before it.
round : ℕ → Attempt → Round
unfolding after_send
round zero a = after_send a.cancelled_after a.outcome
round (suc n) a =
    if a.cancelled_in_wait
    then return (failure none cancelled)
    else after_send a.cancelled_after a.outcome

-- The loop from the attempt `n` on, with `left` attempts to make.
attempts_from : ℕ → (ℕ → Attempt) → ℕ → ℕ → SyncError → Reply
unfolding round
attempts_from max_retries world n zero last = failure none (exhausted max_retries last)
attempts_from max_retries world n (suc left) last = elim (round n (world n)) [
  | return r ↦ r
  | retry e ↦ attempts_from max_retries world (suc n) left e
]

unfoldable pub send_with_retry : ℕ → (ℕ → Attempt) → Reply
unfolding attempts_from
send_with_retry max_retries world = attempts_from max_retries world 0 (suc max_retries) nil_error
