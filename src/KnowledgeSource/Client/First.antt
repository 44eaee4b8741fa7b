-- ===== src/KnowledgeSource/Client/First.antt =====
-- The first answer that a call of the client of the knowledge base takes.
use dot_ai_controller.Prelude.{
  ℕ, zero, suc, ◌+◌, ◌≤◌, ◌<◌, ◌≡◌, refl, ap, ◌∙◌, ◌⊎◌, inl, inr, Bool, true, false, Option, none,
  some, [], Text, codes, leb, Bool-cases, arith,
}
use native.Mathlib.Decide.{dec_lt}
use dot_ai_controller.Prelude.Map.{Map}
use dot_ai_controller.Retry.{return, again, retry_from-first}
use dot_ai_controller.KnowledgeSource.Client.{
  IngestRequest, ingest_request, IngestResponse, Exchange, response, marshal_failed, create_failed,
  request_failed, read_failed, Attempt, decoded, status_error, do_request, attempt_round, give_up,
  do_request_with_retry, call_result, ingest_document, no_ingest_response, message_of,
}

leb-below : (a b : ℕ) → b < a → leb a b ≡ false
leb-below a b h = ground arith

leb-above : (a b : ℕ) → a ≤ b → leb a b ≡ true
leb-above a b h = ground arith

call_result-success :
    {R : Type 0} (success : R → Bool) (message : R → Text) (failure : Text) (r : R)
    → success r ≡ true
    → call_result success message failure (r, none) ≡ (some r, none)
unfolding call_result
call_result-success success message failure r h = rw h refl

-- An exchange after which the request is made again: an error on the way, a status of 400 or more, or a body
-- that does not decode.
abbrev pub Rejected : (IngestResponse → Text → IngestResponse × Option Text) → Exchange → Type 0
Rejected unmarshal (marshal_failed e) = Unit
Rejected unmarshal (create_failed e) = Unit
Rejected unmarshal (request_failed e) = Unit
Rejected unmarshal (read_failed e) = Unit
Rejected unmarshal (response status body) =
    (400 ≤ status) ⊎ ((before : IngestResponse) → (e : Text) × ((unmarshal before body).1 ≡ some e))

pub record IsRejected (unmarshal : IngestResponse → Text → IngestResponse × Option Text)
    (a : Attempt) : Type 0 where
  pub waited : a.in_wait ≡ none
  pub running : a.after ≡ none
  pub rejected : Rejected unmarshal a.exchange

module _ (decimal : ℕ → Text)
    (unmarshal : IngestResponse → Text → IngestResponse × Option Text) where
  decoded-error :
      (o : IngestResponse × Option Text) (e : Text)
      → o.1 ≡ some e
      → (r : IngestResponse) × (e' : Text) × (decoded decimal unmarshal o ≡ (r, some e'))
  unfolding decoded
  decoded-error (r, none) e h = absurd (cc h)
  decoded-error (r, some x) e h = (r, _, refl)

  Rejected-error :
      (before : IngestResponse) (x : Exchange)
      → Rejected unmarshal x
      → (r : IngestResponse) × (e : Text) × (do_request decimal unmarshal before x ≡ (r, some e))
  unfolding do_request
  Rejected-error before (marshal_failed e) f = (before, _, refl)
  Rejected-error before (create_failed e) f = (before, _, refl)
  Rejected-error before (request_failed e) f = (before, _, refl)
  Rejected-error before (read_failed e) f = (before, _, refl)
  Rejected-error before (response status body) f = elim (dec_lt status 400) [
    | yes lt ↦ elim f [
      | inl ge ↦ absurd (omega arith)
      | inr u ↦
          let (e, p) = u before in
          let (r, e', q) = decoded-error (unmarshal before body) e p in
          (
            r,
            e',
            rw (leb-below 500 status (omega arith), leb-below 400 status lt, q, do_request) refl,
          )
    ]
    | no n ↦ elim (Bool-cases (leb 500 status)) [
      | inl server ↦ (
        before,
        status_error decimal unmarshal (codes "server") status body,
        rw (server, do_request) refl,
      )
      | inr side ↦ (
        before,
        status_error decimal unmarshal (codes "client") status body,
        rw (side, leb-above 400 status (omega arith), do_request) refl,
      )
    ]
  ]

  attempt_round-again :
      (world : ℕ → Attempt) (n : ℕ) (before : IngestResponse)
      → IsRejected unmarshal (world n)
      → (r : IngestResponse) × (e : Text) × (attempt_round decimal unmarshal world n before
          ≡ again r e)
  unfolding attempt_round
  attempt_round-again world zero before f =
      let (r, e, p) = Rejected-error before (world 0).exchange f.rejected in
      (r, e, rw (f.running, p, attempt_round) refl)
  attempt_round-again world (suc n) before f =
      let (r, e, p) = Rejected-error before (world (suc n)).exchange f.rejected in
      (r, e, rw (f.waited, f.running, p, attempt_round) refl)

  attempt_round-returns :
      (world : ℕ → Attempt) (n : ℕ) (before r : IngestResponse)
      → (world n).in_wait ≡ none
      → do_request decimal unmarshal before (world n).exchange ≡ (r, none)
      → attempt_round decimal unmarshal world n before ≡ return (r, none)
  unfolding attempt_round
  attempt_round-returns world zero before r w p = rw (p, attempt_round) refl
  attempt_round-returns world (suc n) before r w p = rw (w, p, attempt_round) refl

  decode-accepted :
      (before r : IngestResponse) (x : Exchange) (status : ℕ) (body : Text)
      → x ≡ response status body
      → status < 400
      → unmarshal before body ≡ (r, none)
      → do_request decimal unmarshal before x ≡ (r, none)
  unfolding do_request decoded
  decode-accepted before r x status body e lt u =
      rw (e, leb-below 500 status (omega arith), leb-below 400 status lt, u, do_request) refl

  -- A body that decodes into a response that reports success, whatever stood in the response before: the fields
  -- that it leaves out stay.
  abbrev pub Succeeds : Text → Type 0
  Succeeds body =
      (before : IngestResponse)
      → (r : IngestResponse) × (unmarshal before body ≡ (r, none)) × (r.success ≡ true)

  -- A success that decoding the body has left in a response.
  abbrev pub Taken : Text → IngestResponse → Type 0
  Taken body r =
      (r.success ≡ true) × ((before : IngestResponse) × (unmarshal before body ≡ (r, none)))

  call_result-Taken :
      (body : Text) (o : IngestResponse × Option Text) (r : IngestResponse)
      → o ≡ (r, none)
      → Taken body r
      → call_result (λ r. r.success) (λ r. message_of r.error) (codes "MCP ingest failed") o
        ≡ (some r, none)
  call_result-Taken body o r e t =
      ap (call_result (λ r. r.success) (λ r. message_of r.error) (codes "MCP ingest failed")) e
      ∙ call_result-success (λ r. r.success) (λ r. message_of r.error) (codes "MCP ingest failed") r
          t.0

  -- The first response that is taken decides: when the attempts before the `k`-th are rejected and the context
  -- is not done in them, the `k`-th is within the retries, its wait is not cut short, its status is less than
  -- 400 and its body decodes, into whatever response, and reports success, IngestDocument returns a response that
  -- decoding that body has left and that reports success, without an error.
  pub ingest_document-first :
      (max_retries : ℕ) (post : IngestRequest → ℕ → Attempt) (uri content : Text)
      (metadata : Map Text Text) (k status : ℕ) (body : Text)
      → k ≤ max_retries
      → ((i : ℕ) → i < k → IsRejected unmarshal (post (ingest_request uri content metadata) i))
      → (post (ingest_request uri content metadata) k).in_wait ≡ none
      → (post (ingest_request uri content metadata) k).exchange ≡ response status body
      → status < 400
      → Succeeds body
      → (r : IngestResponse) × (ingest_document decimal unmarshal max_retries post uri content
            metadata
          ≡ (some r, none))
        × Taken body r
  unfolding ingest_document do_request_with_retry
  ingest_document-first max_retries post uri content metadata k status body le f w x lt u =
      let request = ingest_request uri content metadata in
      let e : 0 + k ≡ k = omega arith in
      let (r, result, taken) =
        retry_from-first (attempt_round decimal unmarshal (post request))
          (give_up decimal unmarshal (codes "MCP request") max_retries)
          (λ (o : IngestResponse × Option Text).
            (r : IngestResponse) × (o ≡ (r, none)) × Taken body r)
          k 0 (suc max_retries) no_ingest_response [] (omega arith)
          (λ i lt t. attempt_round-again (post request) i t (f i (omega arith)))
          (λ t.
            let (r, d, s) = u t in
            (
              (r, none),
              rw e (
                  attempt_round-returns (post request) k t r w
                    (decode-accepted t r (post request k).exchange status body x lt d)),
              (r, refl, (s, (t, d))),
            )) in
      (r, call_result-Taken body _ r result taken, taken)
