-- ===== src/Remediation/Owner/Names.antt =====
-- remediationpolicy_ratelimit.go: the name of a CronJob is found in the names of its pods, and all its
-- pods share a key.
use dot_ai_controller.Prelude.{
  ℕ, ==-true, ◌⊎◌, inl, inr, ◌≡◌, refl, ap, ◌∙◌, ◌≢◌, true, false, some, List, [], ◌∷◌, ◌++◌, Text,
  codes, is_empty, text_eq, nat_eq, has_byte, split, join, extend, split-whole, split-ne-nil,
  join-split, arith,
}
use dot_ai_controller.Remediation.Owner.{
  dash, all_digits, LastTwo, last_two, check_segments, parse_cron_job_name_from_pod_name, found,
  not_found, Cluster, Job, OwnerReference, ObjectReference, owner_of_kind, of_fetched_pod,
  resolve_owner_for_rate_limiting,
}

extend-append : (c : ℕ) (r t : List Text) → r ≢ [] → extend c (r ++ t) ≡ extend c r ++ t
extend-append c [] t n = absurd (n refl)
extend-append c (p ∷ ps) t n = refl

split-append : (sep : ℕ) (p s : Text) → split sep (p ++ sep ∷ s) ≡ split sep p ++ split sep s
unfolding split
split-append sep [] s = ground arith
split-append sep (c ∷ p) s =
    ground (
      arith,
      split-append sep p s,
      extend-append c (split sep p) (split sep s) (split-ne-nil sep p),
    )

last_two-append :
    (ps : List Text) (a b : Text)
    → last_two (ps ++ a ∷ b ∷ []) ≡ some (record { init = ps; second_last = a; last = b })
unfolding last_two
last_two-append [] a b = refl
last_two-append (p ∷ []) a b = refl
last_two-append (p ∷ q ∷ []) a b = refl
last_two-append (p ∷ q ∷ r ∷ ps) a b = rw (last_two-append (q ∷ r ∷ ps) a b)

all_digits-no_dash : (s : Text) → all_digits s ≡ true → has_byte dash s ≡ false
unfolding all_digits has_byte
all_digits-no_dash [] h = refl
all_digits-no_dash (c ∷ s) h = ground (arith, all_digits-no_dash s)

checked :
    (l : LastTwo)
    → is_empty l.second_last ≡ false
    → all_digits l.second_last ≡ true
    → is_empty l.last ≡ false
    → is_empty (join dash l.init) ≡ false
    → check_segments (some l) ≡ some (join dash l.init)
unfolding check_segments
checked l a b c d = rw (a, b, c, d)

-- Of a name, a timestamp of digits and a suffix, none of them empty and with dashes between them,
-- where the suffix has no dash of its own, the name is found.
pub parse_cron_job_name-made :
    (name stamp suffix : Text)
    → is_empty name ≡ false
    → is_empty stamp ≡ false
    → all_digits stamp ≡ true
    → is_empty suffix ≡ false
    → has_byte dash suffix ≡ false
    → parse_cron_job_name_from_pod_name (name ++ dash ∷ (stamp ++ dash ∷ suffix)) ≡ some name
unfolding parse_cron_job_name_from_pod_name
parse_cron_job_name-made name stamp suffix n t d s f =
    rw
      (
        split-append dash name (stamp ++ dash ∷ suffix),
        split-append dash stamp suffix,
        split-whole dash stamp (all_digits-no_dash stamp d),
        split-whole dash suffix f,
        last_two-append (split dash name) stamp suffix,
      )
      (checked (record { init = split dash name; second_last = stamp; last = suffix }) t d s
          (rw (join-split dash name) n)
        ∙ ap some (join-split dash name))

resolve_pod :
    (api : Cluster) (ref : ObjectReference)
    → ref.kind ≡ codes "Pod"
    → resolve_owner_for_rate_limiting api ref
      ≡ of_fetched_pod api ref (api.get_pod ref.namespace ref.name)
unfolding resolve_owner_for_rate_limiting
resolve_pod api ref k = rw (==-true ref.kind (codes "Pod") k)

-- The owner of a pod of a CronJob is the CronJob, also once the pod is deleted. The pod's name is
-- the CronJob's, a timestamp of digits and a suffix without a dash, none of them empty and with
-- dashes between; the pod is found, with a Job as its first owner of that kind, which is found and
-- has the CronJob as its first, or it is not found.
pub resolve_owner-cron_job :
    (api : Cluster) (ref : ObjectReference) (owners : List OwnerReference) (o c : OwnerReference)
    (job : Job) (stamp suffix : Text)
    → ref.kind ≡ codes "Pod"
    → ref.name ≡ c.name ++ dash ∷ (stamp ++ dash ∷ suffix)
    → is_empty c.name ≡ false
    → is_empty stamp ≡ false
    → all_digits stamp ≡ true
    → is_empty suffix ≡ false
    → has_byte dash suffix ≡ false
    → owner_of_kind (codes "Job") owners ≡ some o
    → api.get_job ref.namespace o.name ≡ found job
    → owner_of_kind (codes "CronJob") job.owners ≡ some c
    → (api.get_pod ref.namespace ref.name ≡ found owners)
      ⊎ (api.get_pod ref.namespace ref.name ≡ not_found)
    → resolve_owner_for_rate_limiting api ref ≡ record { kind = codes "cronjob"; name = c.name }
unfolding of_fetched_pod
resolve_owner-cron_job api ref owners o c job stamp suffix k e n t d s f j g h (inl alive) =
    resolve_pod api ref k ∙ rw (alive, j, g, h) refl
resolve_owner-cron_job api ref owners o c job stamp suffix k e n t d s f j g h (inr gone) =
    resolve_pod api ref k
    ∙ rw (gone, e, parse_cron_job_name-made c.name stamp suffix n t d s f) refl
