-- ===== src/Remediation/Notifications.antt =====
-- remediationpolicy_notifications.go: the validation of the two notification services, the webhook URL, and the
-- condition that tells whether notifications work. The Kubernetes API is a parameter.
pub mod Webhooks
use dot_ai_controller.Prelude.{
  wrap, ℕ, Bool, true, false, not, ◌&&◌, ◌||◌, Option, none, some, List, [], ◌∷◌, ◌++◌, Text, codes,
  is_empty, has_prefix, text_eq, ◌==◌, if◌then◌else◌, Result, ok, err,
}
use dot_ai_controller.Secret.{SecretFetch, secret_value}
use dot_ai_controller.Status.{Condition}

pub record SecretReference : Type 0 where
  pub name : Text
  pub key : Text

-- SlackConfig and GoogleChatConfig.
pub record Webhook : Type 0 where
  pub enabled : Bool
  pub webhook_url : Text
  pub webhook_url_secret_ref : Option SecretReference

-- What the two validations differ in: the name of the service, and the prefix of its URLs.
pub record Service : Type 0 where
  pub name : Text
  pub url_prefix : Text

abbrev pub slack : Service
slack = record { name = codes "Slack"; url_prefix = codes "https://hooks.slack.com/" }

abbrev pub google_chat : Service
google_chat = record {
  name = codes "Google Chat";
  url_prefix = codes "https://chat.googleapis.com/";
}

check_url : Service → Text → Option Text
unfolding has_prefix
check_url s url =
    if is_empty url || has_prefix url s.url_prefix
    then none
    else some (
        codes "invalid "
        ++ s.name
        ++ codes " webhook URL format - must start with "
        ++ s.url_prefix)

check_secret_ref : Service → Option SecretReference → Option Text → Option Text
check_secret_ref s none next = next
check_secret_ref s (some ref) next =
    if is_empty ref.name
    then some (s.name ++ codes " webhookUrlSecretRef.name cannot be empty")
    else if is_empty ref.key
    then some (s.name ++ codes " webhookUrlSecretRef.key cannot be empty")
    else next

abbrev is_none : Option SecretReference → Bool
is_none none = true
is_none (some ref) = false

-- `some` error.
unfoldable pub validate_configuration : Service → Webhook → Option Text
unfolding check_url check_secret_ref
validate_configuration s w =
    if not w.enabled
    then none
    else if is_empty w.webhook_url && is_none w.webhook_url_secret_ref
    then some (
        s.name
        ++ codes " webhook URL or webhookUrlSecretRef is required when notifications are enabled")
    else check_secret_ref s w.webhook_url_secret_ref (check_url s w.webhook_url)

-- `service_type` is the name that the caller gives to the service.
unfoldable pub resolve_webhook_url :
    (Text → SecretFetch) → Text → Text → Option SecretReference → Text → Result Text
unfolding secret_value
resolve_webhook_url fetch namespace plain_url (some ref) service_type =
    secret_value (service_type ++ codes " webhook Secret") (fetch ref.name) namespace ref.name
      ref.key
resolve_webhook_url fetch namespace plain_url none service_type =
    if is_empty plain_url
    then err (
        service_type
        ++ codes
            " notifications enabled but no webhook URL configured (provide either webhookUrl or webhookUrlSecretRef)")
    else ok plain_url

abbrev pub notifications_healthy : Text
notifications_healthy = codes "NotificationsHealthy"

unfoldable pub health_condition : ℕ → Option Text → Condition
health_condition now none = record {
  type = notifications_healthy;
  status = true;
  last_transition_time = now;
  reason = codes "NotificationsWorking";
  message = codes "Notifications are configured correctly";
}
health_condition now (some e) = record {
  type = notifications_healthy;
  status = false;
  last_transition_time = now;
  reason = codes "NotificationConfigurationError";
  message = e;
}

abbrev same_status : Bool → Bool → Bool
same_status true b = b
same_status false b = not b

-- The first condition of the type is replaced if its status changes, and else only gets the new message; a
-- condition is appended if there is none.
unfoldable pub put_health_condition : Condition → List Condition → List Condition
put_health_condition health [] = health ∷ []
put_health_condition health (c ∷ cs) =
    if c.type == notifications_healthy
    then (if same_status c.status health.status
        then record c { message = health.message } ∷ cs
        else health ∷ cs)
    else c ∷ put_health_condition health cs

abbrev write_failure : Option Text → Option Text
write_failure none = none
write_failure (some e) = some (wrap (codes "failed to update notification health condition") e)

-- Of the fetched conditions and the error of the write, `none` if it works: what is written, and the error.
unfoldable pub update_notification_health_condition :
    ℕ → Result (List Condition) → Option Text → Option Text → Option (List Condition) × Option Text
unfolding health_condition put_health_condition
update_notification_health_condition now (err x) write_error e =
    (none, some (wrap (codes "failed to fetch fresh policy") x))
update_notification_health_condition now (ok conditions) write_error e =
    (some (put_health_condition (health_condition now e) conditions), write_failure write_error)
