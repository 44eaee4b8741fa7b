-- ===== src/Tests/Keys.antt =====
-- Runs of the owners' names and of the keys.
use dot_ai_controller.Prelude.{◌≡◌, refl, some, [], ◌∷◌, ◌++◌, codes, has_byte, ℕ_discrete}
use dot_ai_controller.Remediation.Owner.{
  Cluster, ObjectReference, OwnerReference, found, not_found, resolve_owner_for_rate_limiting,
  object_identifier, get_rate_limit_key,
}
use dot_ai_controller.Remediation.Persistence.{parse_full_key}
use dot_ai_controller.Remediation.Persistence.Keys.{parse-get_rate_limit_key}

abbrev owner : OwnerReference
owner = record { kind = codes "Job"; name = codes "back-up-12" }

abbrev cron_job : OwnerReference
cron_job = record { kind = codes "CronJob"; name = codes "back-up" }

-- A cluster whose pods are all deleted, and whose jobs are all of one CronJob.
abbrev cluster : Cluster
cluster = record {
  get_pod = λ ns name. not_found;
  get_job = λ ns name. found (record { name = codes "back-up-12"; owners = cron_job ∷ [] });
}

abbrev pod : ObjectReference
pod = record { kind = codes "Pod"; namespace = codes "default"; name = codes "back-up-12-ab" }

abbrev config : ObjectReference
config = record { kind = codes "ConfigMap"; namespace = codes "default"; name = codes "settings" }

abbrev secret : ObjectReference
secret = record config { kind = codes "Secret" }

parse-get_rate_limit_key_example :
    parse_full_key (get_rate_limit_key cluster (codes "ns") (codes "p") config)
    ≡ some (record {
      policy_ns = codes "ns";
      policy_name = codes "p";
      short_key =
          codes "default/" ++ object_identifier (resolve_owner_for_rate_limiting cluster config);
    })
unfolding has_byte ℕ_discrete
parse-get_rate_limit_key_example =
    parse-get_rate_limit_key cluster (codes "ns") (codes "p") config refl refl refl
