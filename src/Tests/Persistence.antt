-- ===== src/Tests/Persistence.antt =====
-- Runs of the persistence: one cooldown of a policy, and an API that has the policy and no ConfigMap. The
-- JSON of a map is that of its first entry, which is all that is written here.
use dot_ai_controller.Prelude.{
  ℕ, ◌≡◌, refl, inl, true, false, Option, none, some, [], ◌∷◌, ◌++◌, Text, text_eq, codes, is_empty,
  text_dec, has_byte, ℕ_discrete,
}
use dot_ai_controller.Prelude.Map.{Map, lookup}
use dot_ai_controller.Remediation.Owner.{found, not_found}
use dot_ai_controller.Remediation.Persistence.{
  Policy, Codec, Api, updated, make_full_key, load_data,
}
use dot_ai_controller.Remediation.Persistence.Sync.{
  Write, create_config_map, serializable, new_content, sync_policy_config_map, group_by_policy,
  sync,
}
use dot_ai_controller.Remediation.Persistence.Entries.{grouped}
use dot_ai_controller.Remediation.Persistence.Groups.{group_by_policy-exact, sync-forgets_dirty}
use dot_ai_controller.Remediation.Persistence.Sync.Contents.{content_of}
use dot_ai_controller.Remediation.Persistence.Sync.Restore.{whole_seconds, sync-load}

-- An entry as its key, a slash and the text of its instant, here one number.
abbrev write_entry : Map Text Text → Option Text
write_entry [] = some (codes "{}")
write_entry ((key, stamp) ∷ m) = some (stamp ++ key)

abbrev read_entry : Text → Option (Map Text Text)
read_entry [] = none
read_entry (stamp ∷ key) = some ((key, stamp ∷ []) ∷ [])

abbrev parse_stamp : Text → Option ℕ
parse_stamp [] = none
parse_stamp (n ∷ s) = some n

abbrev codec : Codec
codec = record {
  marshal = write_entry;
  unmarshal = read_entry;
  format = λ t. whole_seconds t ∷ [];
  parse = parse_stamp;
}

abbrev policy : Policy
policy = record { namespace = codes "n"; name = codes "p"; persistence = none }

abbrev api : Api
api = record {
  list_policies = some (policy ∷ []);
  get_policy = λ ns name. found policy;
  get_config_map = λ ns name. not_found;
  set_controller_reference = λ p. true;
  create = λ ns name content. true;
  update = λ ns name content. updated;
}

abbrev entries : Map Text ℕ
entries = (codes "d/x", 9000000005) ∷ []

abbrev written : Write
written =
    create_config_map (codes "n") (codes "p-cooldown-state")
      (new_content (9000000000 ∷ codes "d/x") (2000000000 ∷ []))

made :
    (json : Text)
    → codec.marshal (serializable codec entries) ≡ some json
    → (is_empty json ≡ false) × (codec.unmarshal json ≡ some (serializable codec entries))
unfolding serializable
made [] e = absurd cc
made (c ∷ s) e = (refl, read)
  where
    read : read_entry (c ∷ s) ≡ some (serializable codec entries)
    read = cc

sync-load_example :
    lookup
      (make_full_key (codes "n") (codes "p") (codes "d/x"))
      (load_data codec policy 3000000000 (content_of written) [])
    ≡ some 9000000000
unfolding lookup serializable sync_policy_config_map text_dec ℕ_discrete
sync-load_example =
    sync-load codec api policy (codes "n") (codes "p") (codes "d/x") entries 2000000000 3000000000
      written (λ t. refl) made (refl, tt) (inl refl)

group_by_policy-exact_example :
    grouped
      (codes "n")
      (codes "p")
      (codes "d/x")
      (group_by_policy 5 2 ((codes "n/p/d/x", 9) ∷ []) [])
    ≡ some 9
unfolding has_byte lookup make_full_key text_dec ℕ_discrete
group_by_policy-exact_example =
    group_by_policy-exact 5 2 ((codes "n/p/d/x", 9) ∷ []) (codes "n") (codes "p") (codes "d")
      (codes "x") (refl, tt) refl refl refl

sync-forgets_dirty_example :
    sync codec api 5 3
      ((codes "n/p/d/x", 9) ∷ [])
      (sync codec api 5 2 ((codes "n/p/d/x", 9) ∷ []) ((codes "n/p/d/x", tt) ∷ [])).dirty
    ≡ record { error = none; writes = []; dirty = [] }
sync-forgets_dirty_example =
    sync-forgets_dirty codec api api 5 2 3 ((codes "n/p/d/x", 9) ∷ []) ((codes "n/p/d/x", tt) ∷ [])
