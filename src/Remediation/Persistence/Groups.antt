-- ===== src/Remediation/Persistence/Groups.antt =====
-- persistence.go, `Sync`: how the cooldowns are grouped.
use dot_ai_controller.Prelude.{
  ℕ, ◌≡◌, ◌≢◌, refl, sym, ◌∙◌, inl, inr, false, Bool-cases, Option, none, some, Option-cases, [],
  ◌∷◌, ◌++◌, Text, ◌==◌, ==-true, ==-false, text_eq, text_dec, if◌then◌else◌, has_byte,
}
use dot_ai_controller.Prelude.Map.{Map, lookup, keep_if, Distinct}
use dot_ai_controller.Remediation.Owner.{slash}
use dot_ai_controller.Remediation.Persistence.{FullKey, parse_full_key, make_full_key, Codec, Api}
use dot_ai_controller.Remediation.Persistence.Keys.{parse-make_full_key}
use dot_ai_controller.Remediation.Persistence.Sync.{
  policy_key, is_persisted, add_entry, group_by_policy, sync,
}
use dot_ai_controller.Remediation.Persistence.Entries.{
  grouped, or_else, lookup-add, same_full_key, add_none_lem, merge-persisted, merge-dropped,
  grouped-nil,
}

abbrev with_slash : Text → Text → Text
with_slash obj_ns identifier = obj_ns ++ slash ∷ identifier

module _ (ns name obj_ns identifier : Text) (a : has_byte slash ns ≡ false)
    (b : has_byte slash name ≡ false) (c : has_byte slash obj_ns ≡ false) where
  grouped-add_some :
      (full_key : Text) (end : ℕ) (k : FullKey) (groups : Map Text (Map Text ℕ))
      → full_key ≢ make_full_key ns name (with_slash obj_ns identifier)
      → parse_full_key full_key ≡ some k
      → grouped ns name (with_slash obj_ns identifier) (add_entry (some k) end groups)
        ≡ grouped ns name (with_slash obj_ns identifier) groups
  unfolding add_entry
  grouped-add_some full_key end k groups n h =
      lookup-add (policy_key ns name) (policy_key k.policy_ns k.policy_name)
        (with_slash obj_ns identifier) k.short_key end groups
      ∙ elim (text_dec (policy_key k.policy_ns k.policy_name) (policy_key ns name)) [
        | no m ↦ rw (==-false (policy_key k.policy_ns k.policy_name) (policy_key ns name) m) refl
        | yes e ↦
            rw
              (
                ==-true (policy_key k.policy_ns k.policy_name) (policy_key ns name) e,
                ==-false k.short_key (with_slash obj_ns identifier) (λ f.
                    n (same_full_key ns name (with_slash obj_ns identifier) full_key k h e f)),
              )
              refl
      ]

  grouped-add_own :
      (end : ℕ) (groups : Map Text (Map Text ℕ))
      → grouped ns name (with_slash obj_ns identifier) (
          add_entry
            (some (record {
              policy_ns = ns;
              policy_name = name;
              short_key = with_slash obj_ns identifier;
            }))
            end
            groups)
        ≡ some end
  unfolding add_entry
  grouped-add_own end groups =
      lookup-add (policy_key ns name) (policy_key ns name) (with_slash obj_ns identifier)
        (with_slash obj_ns identifier) end groups
      ∙ rw
          (
            ==-true (policy_key ns name) (policy_key ns name) refl,
            ==-true (with_slash obj_ns identifier) (with_slash obj_ns identifier) refl,
          )
          refl

  grouped-add :
      (full_key : Text) (end : ℕ) (groups : Map Text (Map Text ℕ))
      → grouped ns name
          (with_slash obj_ns identifier)
          (add_entry (parse_full_key full_key) end groups)
        ≡ (if full_key == make_full_key ns name (with_slash obj_ns identifier)
            then some end
            else grouped ns name (with_slash obj_ns identifier) groups)
  grouped-add full_key end groups =
      elim (text_dec full_key (make_full_key ns name (with_slash obj_ns identifier))) [
        | yes e ↦
            rw
              (
                ==-true full_key (make_full_key ns name (with_slash obj_ns identifier)) e,
                e,
                parse-make_full_key ns name obj_ns identifier a b c,
              )
              (grouped-add_own end groups)
        | no n ↦
            rw (==-false full_key (make_full_key ns name (with_slash obj_ns identifier)) n)
              (elim (Option-cases (parse_full_key full_key)) [
                | inl none_of ↦ rw none_of add-none
                | inr (k, h) ↦ rw h (grouped-add_some full_key end k groups n h)
              ])
      ]
    where
      add-none :
          grouped ns name (with_slash obj_ns identifier) (add_entry none end groups)
          ≡ grouped ns name (with_slash obj_ns identifier) groups
      add-none = add_none_lem end groups ns name (with_slash obj_ns identifier)

  group-lookup :
      (shortest now : ℕ) (cooldowns : Map Text ℕ) (groups : Map Text (Map Text ℕ))
      → Distinct cooldowns
      → grouped ns name
          (with_slash obj_ns identifier)
          (group_by_policy shortest now cooldowns groups)
        ≡ or_else
            (keep_if
              (λ (k : Text) end. is_persisted shortest now end)
              (make_full_key ns name (with_slash obj_ns identifier))
              (lookup (make_full_key ns name (with_slash obj_ns identifier)) cooldowns))
            (grouped ns name (with_slash obj_ns identifier) groups)
  unfolding group_by_policy lookup
  group-lookup shortest now [] groups d = refl
  group-lookup shortest now ((full_key, end) ∷ cooldowns) groups d =
      elim (Bool-cases (is_persisted shortest now end)) [
        | inl p ↦ rw p (
            group-lookup shortest now cooldowns (add_entry (parse_full_key full_key) end groups) d.1
            ∙ rw (grouped-add full_key end groups) (
                merge-persisted shortest now end
                  (make_full_key ns name (with_slash obj_ns identifier)) full_key
                  (lookup (make_full_key ns name (with_slash obj_ns identifier)) cooldowns) _ p
                  (λ e. rw (sym e) d.0)))
        | inr p ↦ rw p (
            group-lookup shortest now cooldowns groups d.1
            ∙ merge-dropped shortest now end (make_full_key ns name (with_slash obj_ns identifier))
                full_key (lookup (make_full_key ns name (with_slash obj_ns identifier)) cooldowns) _
                p (λ e. rw (sym e) d.0))
      ]

-- The groups that a sync makes of cooldowns with distinct keys hold exactly those that are worth
-- persisting: for names of a policy and of a namespace that have no slash, the group of the policy
-- holds, under a short key, the end of the cooldown of that full key, if it is not past and lies
-- ahead by the shortest duration at least, and nothing otherwise.
pub group_by_policy-exact :
    (shortest now : ℕ) (cooldowns : Map Text ℕ) (ns name obj_ns identifier : Text)
    → Distinct cooldowns
    → has_byte slash ns ≡ false
    → has_byte slash name ≡ false
    → has_byte slash obj_ns ≡ false
    → grouped ns name (obj_ns ++ slash ∷ identifier) (group_by_policy shortest now cooldowns [])
      ≡ keep_if
          (λ (k : Text) end. is_persisted shortest now end)
          (make_full_key ns name (obj_ns ++ slash ∷ identifier))
          (lookup (make_full_key ns name (obj_ns ++ slash ∷ identifier)) cooldowns)
group_by_policy-exact shortest now cooldowns ns name obj_ns identifier d a b c =
    group-lookup ns name obj_ns identifier a b c shortest now cooldowns [] d
    ∙ or_else-none (
        keep_if (λ (k : Text) end. is_persisted shortest now end)
          (make_full_key ns name (obj_ns ++ slash ∷ identifier))
          (lookup (make_full_key ns name (obj_ns ++ slash ∷ identifier)) cooldowns))
  where
    or_else-none :
        (o : Option ℕ) → or_else o (grouped ns name (obj_ns ++ slash ∷ identifier) []) ≡ o
    or_else-none none = grouped-nil ns name (obj_ns ++ slash ∷ identifier)
    or_else-none (some n) = refl

-- The dirty entries are gone after a sync, whatever failed in it, so that a second sync with no new one
-- between does nothing: what the first could not write is not written.
pub sync-forgets_dirty :
    (codec : Codec) (api api' : Api) (shortest now later : ℕ) (cooldowns : Map Text ℕ)
    (dirty : Map Text (Unit {0}))
    → sync codec api' shortest later cooldowns (sync codec api shortest now cooldowns dirty).dirty
      ≡ record { error = none; writes = []; dirty = [] }
unfolding sync
sync-forgets_dirty codec api api' shortest now later cooldowns [] = refl
sync-forgets_dirty codec api api' shortest now later cooldowns (d ∷ dirty) = refl
