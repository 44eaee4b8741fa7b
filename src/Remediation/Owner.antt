-- ===== src/Remediation/Owner.antt =====
-- remediationpolicy_ratelimit.go: the owner of an object, and the key under which its events are
-- limited. The Kubernetes API is an argument.
pub mod Names
use dot_ai_controller.Prelude.{
  ℕ, Bool, true, false, not, ◌&&◌, Option, none, some, List, [], ◌∷◌, ◌++◌, Text, codes, is_empty,
  leb, text_eq, ◌==◌, if◌then◌else◌, split, join,
}

abbrev pub dash : ℕ
dash = b'-'

abbrev pub slash : ℕ
slash = b'/'

abbrev pub colon : ℕ
colon = b':'

unfoldable pub is_digit : ℕ → Bool
is_digit c = leb b'0' c && leb c b'9'

unfoldable pub all_digits : Text → Bool
unfolding is_digit
all_digits [] = true
all_digits (c ∷ s) = is_digit c && all_digits s

-- `segments[:len(segments)-2]` and the last two segments, of three at least.
pub record LastTwo : Type 0 where
  pub init : List Text
  pub second_last : Text
  pub last : Text

abbrev push : Text → Option LastTwo → Option LastTwo
push p none = none
push p (some l) = some (record l { init = p ∷ l.init })

unfoldable pub last_two : List Text → Option LastTwo
last_two [] = none
last_two (p ∷ []) = none
last_two (p ∷ q ∷ []) = some (record { init = []; second_last = p; last = q })
last_two (p ∷ q ∷ r ∷ ps) = push p (last_two (q ∷ r ∷ ps))

check_segments : Option LastTwo → Option Text
unfolding all_digits join
check_segments none = none
check_segments (some l) =
    let name = join dash l.init in
    if is_empty l.second_last
    then none
    else if not (all_digits l.second_last)
    then none
    else if is_empty l.last
    then none
    else if is_empty name
    then none
    else some name

-- `none` is the empty name and false. With fewer than three segments the name is empty.
unfoldable pub parse_cron_job_name_from_pod_name : Text → Option Text
unfolding check_segments last_two split
parse_cron_job_name_from_pod_name pod_name = check_segments (last_two (split dash pod_name))

pub record OwnerReference : Type 0 where
  pub kind : Text
  pub name : Text

pub record Job : Type 0 where
  pub name : Text
  pub owners : List OwnerReference

-- The outcome of a Get.
pub data Fetched (A : Type 0) : Type 0 where
  found : A → Fetched A
  not_found failed : Fetched A

pub record Cluster : Type 0 where
  pub get_pod : Text → Text → Fetched (List OwnerReference)
  pub get_job : Text → Text → Fetched Job

pub record ObjectReference : Type 0 where
  pub kind : Text
  pub namespace : Text
  pub name : Text

-- The kind, which may be empty, and the name.
pub record Owner : Type 0 where
  pub kind : Text
  pub name : Text

unfoldable pub owner_of_kind : Text → List OwnerReference → Option OwnerReference
owner_of_kind kind [] = none
owner_of_kind kind (o ∷ os) = if o.kind == kind then some o else owner_of_kind kind os

abbrev pub itself : ObjectReference → Owner
itself ref = record { kind = []; name = ref.name }

of_deleted_pod : ObjectReference → Option Text → Owner
of_deleted_pod ref none = itself ref
of_deleted_pod ref (some name) = record { kind = codes "cronjob"; name = name }

of_job : Job → Option OwnerReference → Owner
of_job job none = record { kind = codes "job"; name = job.name }
of_job job (some o) = record { kind = codes "cronjob"; name = o.name }

of_fetched_job : OwnerReference → Fetched Job → Owner
unfolding of_job owner_of_kind
of_fetched_job o not_found = record { kind = codes "job"; name = o.name }
of_fetched_job o failed = record { kind = codes "job"; name = o.name }
of_fetched_job o (found job) = of_job job (owner_of_kind (codes "CronJob") job.owners)

of_pod : Cluster → ObjectReference → Option OwnerReference → Owner
unfolding of_fetched_job
of_pod api ref none = itself ref
of_pod api ref (some o) = of_fetched_job o (api.get_job ref.namespace o.name)

of_fetched_pod : Cluster → ObjectReference → Fetched (List OwnerReference) → Owner
unfolding of_deleted_pod of_pod owner_of_kind parse_cron_job_name_from_pod_name
of_fetched_pod api ref not_found = of_deleted_pod ref (parse_cron_job_name_from_pod_name ref.name)
of_fetched_pod api ref failed = itself ref
of_fetched_pod api ref (found owners) = of_pod api ref (owner_of_kind (codes "Job") owners)

unfoldable pub resolve_owner_for_rate_limiting : Cluster → ObjectReference → Owner
unfolding of_fetched_pod
resolve_owner_for_rate_limiting api ref =
    if ref.kind == codes "Pod"
    then of_fetched_pod api ref (api.get_pod ref.namespace ref.name)
    else itself ref

unfoldable pub object_identifier : Owner → Text
object_identifier o = if is_empty o.kind then o.name else o.kind ++ colon ∷ o.name

-- getRateLimitKey, of the policy's namespace and name; getObjectCooldownKey is the same.
unfoldable pub get_rate_limit_key : Cluster → Text → Text → ObjectReference → Text
unfolding resolve_owner_for_rate_limiting object_identifier
get_rate_limit_key api policy_ns policy_name ref =
    policy_ns
    ++ slash
      ∷ (policy_name
          ++ slash
            ∷ (ref.namespace
                ++ slash ∷ object_identifier (resolve_owner_for_rate_limiting api ref)))
