-- ===== src/CapabilityScan/Client/Calls.antt =====
-- What the calls of the client of the capabilities return.
use dot_ai_controller.Prelude.{
  ℕ, zero, suc, ◌≤◌, ◌<◌, ◌≡◌, refl, sym, ap, ◌∙◌, ◌⊎◌, inl, inr, true, false, Option, none, some,
  List, [], Text, leb, Result, ok, err, Bool-cases, if_cases, Option-cases, Result-cases, arith,
}
use dot_ai_controller.Retry.{Round, return, retry_from-holds}
use dot_ai_controller.CapabilityScan.Client.{
  ResponseError, ManageOrgDataRequest, ManageOrgDataResponse, get_capability_ids, HttpResult,
  no_response, bad_body, response, AuthSecret, get_auth_token, Attempt, receive, send, after_send,
  attempt_round, give_up, send_with_retry, list_request, list_capability_ids,
}

below : (status : ℕ) → leb 400 status ≡ false → status < 400
below status h = ground arith

ok-injective : {A : Type 0} {a b : A} → ◌≡◌ {A = Result A} (ok a) (ok b) → a ≡ b
ok-injective h = cc

return-injective :
    {a b : Result ManageOrgDataResponse}
    → ◌≡◌ {A = Round (Unit {0}) (Result ManageOrgDataResponse)} (return a) (return b)
    → a ≡ b
return-injective h = cc

returned :
    (s r : ManageOrgDataResponse)
    → s.success ≡ true
    → ◌≡◌ {A = Round (Unit {0}) (Result ManageOrgDataResponse)} (return (ok s)) (return (ok r))
    → (◌≡◌ {A = Result ManageOrgDataResponse} (ok s) (ok r)) × (r.success ≡ true)
returned s r t h =
    let e : s ≡ r = ok-injective (return-injective h) in (return-injective h, rw (← e) t)

failure-success :
    {message : ResponseError} (r : ManageOrgDataResponse)
    → ◌≡◌ {A = Result ManageOrgDataResponse}
        (ok (record { success = false; result = none; error = some message }))
        (ok r)
    → ¬ (r.success ≡ true)
failure-success r h s =
    true-ne-false (ap (λ (r : ManageOrgDataResponse). r.success) (ok-injective h) ∙ s)
  where
    true-ne-false : ¬ (false ≡ true)
    true-ne-false e = cc e

module _ (decimal : ℕ → Text) (decode : Text → Option ManageOrgDataResponse) where
  after_send-ok :
      (over : Option Text) (o : Result ManageOrgDataResponse) (r : ManageOrgDataResponse)
      → after_send decimal decode over o ≡ return (ok r)
      → (o ≡ ok r) × (r.success ≡ true)
  unfolding after_send
  after_send-ok none (err e) r h = absurd (cc h)
  after_send-ok (some x) (err e) r h = absurd (cc h)
  after_send-ok none (ok s) r h = elim (if_cases s.success _ _ _ h) [
    | inl (t, e) ↦ returned s r t e
    | inr (f, e) ↦ absurd (cc e)
  ]
  after_send-ok (some x) (ok s) r h = elim (if_cases s.success _ _ _ h) [
    | inl (t, e) ↦ returned s r t e
    | inr (f, e) ↦ absurd (cc e)
  ]

  -- What an attempt is answered with, when it is not an error.
  abbrev pub Answered : HttpResult → ManageOrgDataResponse → Type 0
  Answered x r =
      (status : ℕ) × (body : Text) × (x ≡ response status body)
      × (status < 400)
      × ((decode body ≡ some r)
          ⊎ ((decode body ≡ none) × (r ≡ record { success = true; result = none; error = none })))

  receive-Answered :
      (x : HttpResult) (r : ManageOrgDataResponse)
      → receive decimal decode x ≡ ok r
      → r.success ≡ true
      → Answered x r
  unfolding receive
  receive-Answered (no_response e) r h s = cc
  receive-Answered (bad_body e) r h s = cc
  receive-Answered (response status body) r h s = elim (Bool-cases (leb 400 status)) [
    | inl b ↦ absurd (failure-success r (rw (b, receive) at h) s)
    | inr b ↦ elim (Option-cases (decode body)) [
      | inl d ↦ (
        status,
        body,
        refl,
        below status b,
        inr (d, ok-injective (sym (rw (b, d, receive) at h))),
      )
      | inr d ↦ (
        status,
        body,
        refl,
        below status b,
        inl (d.1 ∙ ap some (ok-injective (rw (b, d.1, receive) at h))),
      )
    ]
  ]

  send-Answered :
      (ref : AuthSecret) (a : Attempt) (req : ManageOrgDataRequest) (r : ManageOrgDataResponse)
      → send decimal decode ref a req ≡ ok r
      → r.success ≡ true
      → (token : Text) × (get_auth_token a.fetch ref ≡ ok token) × Answered (a.post req token) r
  unfolding send
  send-Answered ref a req r h s = elim (Result-cases (get_auth_token a.fetch ref)) [
    | inl (token, t) ↦ (token, t, receive-Answered (a.post req token) r (rw (t, send) at h) s)
    | inr (x, t) ↦ absurd (cc (rw (t, send) at h))
  ]

  attempt_round-sent :
      (ref : AuthSecret) (req : ManageOrgDataRequest) (world : ℕ → Attempt) (n : ℕ)
      (r : ManageOrgDataResponse)
      → attempt_round decimal decode ref req world n tt ≡ return (ok r)
      → (send decimal decode ref (world n) req ≡ ok r) × (r.success ≡ true)
  unfolding attempt_round
  attempt_round-sent ref req world zero r h = after_send-ok (world 0).after _ r h
  attempt_round-sent ref req world (suc n) r h = elim (Option-cases (world (suc n)).in_wait) [
    | inl w ↦ after_send-ok (world (suc n)).after _ r (rw (w, attempt_round) at h)
    | inr w ↦ absurd (cc (rw (w.1, attempt_round) at h))
  ]

  send_with_retry-sent :
      (max_retries : ℕ) (ref : AuthSecret) (world : ℕ → Attempt) (req : ManageOrgDataRequest)
      (r : ManageOrgDataResponse)
      → send_with_retry decimal decode max_retries ref world req ≡ ok r
      → (k : ℕ) × (k ≤ max_retries)
        × (send decimal decode ref (world k) req ≡ ok r)
        × (r.success ≡ true)
  unfolding send_with_retry
  send_with_retry-sent max_retries ref world req r h =
      retry_from-holds (attempt_round decimal decode ref req world)
        (give_up decimal decode max_retries)
        (λ (o : Result ManageOrgDataResponse).
          o ≡ ok r
          → (k : ℕ) × (k ≤ max_retries)
            × (send decimal decode ref (world k) req ≡ ok r)
            × (r.success ≡ true))
        0 (suc max_retries) tt []
        (λ k t a lo hi e h'.
          let (sent, good) = attempt_round-sent ref req world k r (e ∙ ap return h') in
          (k, omega arith, sent, good))
        (λ t e h'. absurd (cc h')) h

  -- The ids that ListCapabilityIDs returns come from the answer to one of its attempts, made with the token of
  -- the secret, whose status is less than 400: its body decodes into a response that reports success, and they
  -- are the non-empty ids of that response; or its body does not decode, and there are none.
  pub list_capability_ids-Answered :
      (max_retries : ℕ) (ref : AuthSecret) (collection : Text) (world : ℕ → Attempt)
      (ids : List Text)
      → list_capability_ids decimal decode max_retries ref collection world ≡ ok ids
      → (k : ℕ) × (token : Text) × (r : ManageOrgDataResponse) × (k ≤ max_retries)
        × (get_auth_token (world k).fetch ref ≡ ok token)
        × (r.success ≡ true)
        × (get_capability_ids r ≡ ids)
        × Answered ((world k).post (list_request collection 10000) token) r
  unfolding list_capability_ids
  list_capability_ids-Answered max_retries ref collection world ids h =
      elim (Result-cases
        (send_with_retry decimal decode max_retries ref world (list_request collection 10000))) [
          | inr (x, e) ↦ absurd (cc (rw (e, list_capability_ids) at h))
          | inl (r, e) ↦
              let (k, le, sent, good) =
                send_with_retry-sent max_retries ref world (list_request collection 10000) r e in
              let (token, t, answered) =
                send-Answered ref (world k) (list_request collection 10000) r sent good in
              (
                k,
                token,
                r,
                le,
                t,
                good,
                ok-injective (rw (e, good, list_capability_ids) at h),
                answered,
              )
        ]
