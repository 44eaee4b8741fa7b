-- ===== src/KnowledgeSource/Client/Calls.antt =====
-- What the calls of the client of the knowledge base return.
use dot_ai_controller.Prelude.{
  ℕ, zero, suc, ◌≤◌, ◌<◌, ◌≡◌, refl, ap, ◌∙◌, inl, inr, Bool, true, Option, none, some, [], Text,
  codes, Option-cases, Bool-cases, arith,
}
use native.Mathlib.Decide.{dec_lt}
use dot_ai_controller.Prelude.Map.{Map}
use dot_ai_controller.Retry.{return, retry_from-holds}
use dot_ai_controller.KnowledgeSource.Client.{
  IngestRequest, ingest_request, IngestResponse, Exchange, response, marshal_failed, create_failed,
  request_failed, read_failed, Attempt, decoded, do_request, after_request, attempt_round, give_up,
  do_request_with_retry, call_result, ingest_document, no_ingest_response, message_of,
}

-- An exchange whose response is taken, and what it makes of the response before it.
abbrev pub Accepted : {R : Type 0} → (R → Text → R × Option Text) → R → Exchange → R → Type 0
Accepted unmarshal before exchange r =
    (status : ℕ) × (body : Text) × (exchange ≡ response status body)
    × (status < 400)
    × (unmarshal before body ≡ (r, none))

module _ (decimal : ℕ → Text) {R : Type 0} (unmarshal : R → Text → R × Option Text) where
  decoded-none :
      (o : R × Option Text) (r : R) → decoded decimal unmarshal o ≡ (r, none) → o ≡ (r, none)
  unfolding decoded
  decoded-none (a, none) r h = h
  decoded-none (a, some e) r h = cc

  do_request-Accepted :
      (before : R) (x : Exchange) (r : R)
      → do_request decimal unmarshal before x ≡ (r, none)
      → Accepted unmarshal before x r
  unfolding do_request
  do_request-Accepted before (response status body) r h = elim (dec_lt status 400) [
    | yes lt ↦ (status, body, refl, lt, decoded-none _ r (ground arith))
    | no n ↦ absurd (ground arith)
  ]
  do_request-Accepted before (marshal_failed e) r h = cc
  do_request-Accepted before (create_failed e) r h = cc
  do_request-Accepted before (request_failed e) r h = cc
  do_request-Accepted before (read_failed e) r h = cc

  after_request-accepted :
      (over : Option Text) (o : R × Option Text) (r : R)
      → after_request decimal unmarshal over o ≡ return (r, none)
      → o ≡ (r, none)
  after_request-accepted over (a, none) r h = cc
  after_request-accepted none (a, some e) r h = cc
  after_request-accepted (some x) (a, some e) r h = absurd (cc h)

  attempt_round-Accepted :
      (world : ℕ → Attempt) (n : ℕ) (before r : R)
      → attempt_round decimal unmarshal world n before ≡ return (r, none)
      → Accepted unmarshal before (world n).exchange r
  unfolding attempt_round
  attempt_round-Accepted world zero before r h =
      do_request-Accepted before (world 0).exchange r (after_request-accepted (world 0).after _ r h)
  attempt_round-Accepted world (suc n) before r h = elim (Option-cases (world (suc n)).in_wait) [
    | inl none_yet ↦
        do_request-Accepted before (world (suc n)).exchange r
          (after_request-accepted (world (suc n)).after _ r (rw (none_yet, attempt_round) at h))
    | inr over ↦ absurd (cc (rw (over.1, attempt_round) at h))
  ]

  request-Accepted :
      (label : Text) (max_retries : ℕ) (world : ℕ → Attempt) (empty r : R)
      → do_request_with_retry decimal unmarshal label max_retries world empty ≡ (r, none)
      → (k : ℕ) × (before : R) × (k ≤ max_retries) × Accepted unmarshal before (world k).exchange r
  unfolding do_request_with_retry
  request-Accepted label max_retries world empty r h =
      retry_from-holds (attempt_round decimal unmarshal world)
        (give_up decimal unmarshal label max_retries)
        (λ (o : R × Option Text).
          o ≡ (r, none)
          → (k : ℕ) × (before : R) × (k ≤ max_retries)
            × Accepted unmarshal before (world k).exchange r)
        0 (suc max_retries) empty []
        (λ k t a lo hi e h'.
          (k, t, omega arith, attempt_round-Accepted world k t r (e ∙ ap return h')))
        (λ t e h'. absurd (given-up t e h')) h
    where
      given-up :
          (t : R) (e : Text) → ¬ (give_up decimal unmarshal label max_retries t e ≡ (r, none))
      given-up t e h' = cc (ap (λ (o : R × Option Text). o.1) h')

call_result-none :
    {R : Type 0} (success : R → Bool) (message : R → Text) (failure : Text) (o : R × Option Text)
    → (call_result success message failure o).1 ≡ none
    → (r : R) × (o ≡ (r, none))
      × (success r ≡ true)
      × (call_result success message failure o ≡ (some r, none))
unfolding call_result
call_result-none success message failure (r, some e) h = absurd (cc h)
call_result-none success message failure (r, none) h = elim (Bool-cases (success r)) [
  | inl t ↦ (r, refl, t, rw t refl)
  | inr f ↦ absurd (cc (rw (f, call_result) at h))
]

-- A call of IngestDocument that returns no error returns the response of one of the attempts: its status is
-- less than 400, its body decodes, and it reports success.
pub ingest_document-Accepted :
    (decimal : ℕ → Text) (unmarshal : IngestResponse → Text → IngestResponse × Option Text)
    (max_retries : ℕ) (post : IngestRequest → ℕ → Attempt) (uri content : Text)
    (metadata : Map Text Text)
    → (ingest_document decimal unmarshal max_retries post uri content metadata).1 ≡ none
    → (r : IngestResponse) × (k : ℕ) × (before : IngestResponse) × (ingest_document decimal
          unmarshal max_retries post uri content metadata
        ≡ (some r, none))
      × (r.success ≡ true)
      × (k ≤ max_retries)
      × Accepted unmarshal before (post (ingest_request uri content metadata) k).exchange r
unfolding ingest_document
ingest_document-Accepted decimal unmarshal max_retries post uri content metadata h =
    let sent =
      do_request_with_retry decimal unmarshal (codes "MCP request") max_retries
        (post (ingest_request uri content metadata)) no_ingest_response in
    let (r, e, good, result) =
      call_result-none (λ r. r.success) (λ r. message_of r.error) (codes "MCP ingest failed") sent
        h in
    let (k, before, le, taken) =
      request-Accepted decimal unmarshal (codes "MCP request") max_retries
        (post (ingest_request uri content metadata)) no_ingest_response r e in
    (r, k, before, result, good, le, taken)
