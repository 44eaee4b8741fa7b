-- ===== src/Remediation/Notifications/Webhooks.antt =====
-- What the validation of a notification service is worth, and what its health condition tells.
use dot_ai_controller.Prelude.{
  ℕ, ◌≡◌, ◌≢◌, refl, sym, ◌∙◌, ◌⊎◌, inl, inr, Bool, true, false, not, ◌&&◌, Option, none, some,
  List, [], ◌∷◌, ◌++◌, Text, codes, is_empty, has_prefix, text_eq, ◌==◌, ok, Bool-cases, if_cases,
  ==-true,
}
use dot_ai_controller.Secret.{SecretFetch, secret_value}
use dot_ai_controller.Status.{Condition, find_condition}
use dot_ai_controller.Remediation.Notifications.{
  SecretReference, Webhook, Service, check_url, check_secret_ref, is_none, validate_configuration,
  resolve_webhook_url, notifications_healthy, health_condition, same_status, put_health_condition,
}

non_empty : (t : Text) → is_empty t ≡ false → t ≢ []
non_empty t h e = cc (rw e at h)

by_ref :
    (s : Service) (url : Text) (o : Option SecretReference) (fetch : Text → SecretFetch)
    (namespace service_type : Text)
    → (is_empty url && is_none o) ≡ false
    → check_secret_ref s o (check_url s url) ≡ none
    → ((ref : SecretReference) × (o ≡ some ref)
        × (ref.name ≢ [])
        × (ref.key ≢ [])
        × (resolve_webhook_url fetch namespace url o service_type
            ≡ secret_value
                (service_type ++ codes " webhook Secret")
                (fetch ref.name)
                namespace
                ref.name
                ref.key))
      ⊎ ((o ≡ none)
          × (has_prefix url s.url_prefix ≡ true)
          × (resolve_webhook_url fetch namespace url o service_type ≡ ok url))
unfolding check_url check_secret_ref resolve_webhook_url
by_ref s url (some ref) fetch namespace service_type n c =
    elim (if_cases (is_empty ref.name) _ _ _ c) [
      | inl (t, e) ↦ absurd (cc e)
      | inr (f, c') ↦ elim (if_cases (is_empty ref.key) _ _ _ c') [
        | inl (t, e) ↦ absurd (cc e)
        | inr (f', c'') ↦ inl (ref, refl, non_empty ref.name f, non_empty ref.key f', refl)
      ]
    ]
by_ref s [] none fetch namespace service_type n c = absurd (cc n)
by_ref s (x ∷ url) none fetch namespace service_type n c =
    elim (if_cases (has_prefix (x ∷ url) s.url_prefix) _ _ _ c) [
      | inl (t, e) ↦ inr (refl, t, refl)
      | inr (f, e) ↦ absurd (cc e)
    ]

-- An enabled service whose configuration is valid has a webhook URL: the value of the Secret that it refers to,
-- unless the Secret cannot give one, or else the URL of the configuration, which has the prefix of the service.
pub resolve_webhook_url-valid :
    (s : Service) (w : Webhook) (fetch : Text → SecretFetch) (namespace service_type : Text)
    → w.enabled ≡ true
    → validate_configuration s w ≡ none
    → ((ref : SecretReference) × (w.webhook_url_secret_ref ≡ some ref)
        × (ref.name ≢ [])
        × (ref.key ≢ [])
        × (resolve_webhook_url fetch namespace w.webhook_url w.webhook_url_secret_ref service_type
            ≡ secret_value
                (service_type ++ codes " webhook Secret")
                (fetch ref.name)
                namespace
                ref.name
                ref.key))
      ⊎ ((w.webhook_url_secret_ref ≡ none)
          × (has_prefix w.webhook_url s.url_prefix ≡ true)
          × (resolve_webhook_url fetch namespace w.webhook_url w.webhook_url_secret_ref service_type
              ≡ ok w.webhook_url))
unfolding validate_configuration check_url check_secret_ref resolve_webhook_url
resolve_webhook_url-valid s w fetch namespace service_type on v =
    elim (if_cases (not w.enabled) _ _ _ v) [
      | inl (off, e) ↦ absurd (cc (rw on at off))
      | inr (on', v') ↦
          elim (if_cases (is_empty w.webhook_url && is_none w.webhook_url_secret_ref) _ _ _ v') [
            | inl (nothing, e) ↦ absurd (cc e)
            | inr (some_url, checked) ↦
                by_ref s w.webhook_url w.webhook_url_secret_ref fetch namespace service_type
                  some_url checked
          ]
    ]

find-head :
    (c : Condition) (cs : List Condition)
    → (c.type == notifications_healthy) ≡ true
    → find_condition notifications_healthy (c ∷ cs) ≡ some c
unfolding find_condition
find-head c cs h = rw (h, find_condition) refl

find-tail :
    (c : Condition) (cs : List Condition)
    → (c.type == notifications_healthy) ≡ false
    → find_condition notifications_healthy (c ∷ cs) ≡ find_condition notifications_healthy cs
unfolding find_condition
find-tail c cs h = rw (h, find_condition) refl

same_status-eq : (a b : Bool) → same_status a b ≡ true → a ≡ b
same_status-eq true b h = sym h
same_status-eq false true h = absurd (cc h)
same_status-eq false false h = refl

put_health_condition-found :
    (health : Condition) (cs : List Condition)
    → health.type ≡ notifications_healthy
    → (c : Condition) × (find_condition notifications_healthy (put_health_condition health cs)
        ≡ some c)
      × (c.status ≡ health.status)
      × (c.message ≡ health.message)
unfolding find_condition put_health_condition
put_health_condition-found health [] t =
    (health, rw (==-true health.type notifications_healthy t) refl, refl, refl)
put_health_condition-found health (c ∷ cs) t = elim (Bool-cases (c.type == notifications_healthy)) [
  | inr f ↦
      let (d, e, s, m) = put_health_condition-found health cs t in
      (d, rw (f, put_health_condition) (find-tail c _ f ∙ e), s, m)
  | inl y ↦ elim (Bool-cases (same_status c.status health.status)) [
    | inl q ↦ (
      record c { message = health.message },
      rw (y, q, put_health_condition) (find-head (record c { message = health.message }) cs y),
      same_status-eq c.status health.status q,
      refl,
    )
    | inr q ↦ (
      health,
      rw (y, q, ==-true health.type notifications_healthy t, put_health_condition, find_condition)
          refl,
      refl,
      refl,
    )
  ]
]

-- A reader of the conditions finds whether notifications work, with the message of now; the time of the last
-- transition changes only with the status.
pub find-put_health_condition :
    (now : ℕ) (e : Option Text) (cs : List Condition)
    → (c : Condition) × (find_condition notifications_healthy
          (put_health_condition (health_condition now e) cs)
        ≡ some c)
      × (c.status ≡ (health_condition now e).status)
      × (c.message ≡ (health_condition now e).message)
unfolding health_condition
find-put_health_condition now none cs =
    put_health_condition-found (health_condition now none) cs refl
find-put_health_condition now (some e) cs =
    put_health_condition-found (health_condition now (some e)) cs refl
