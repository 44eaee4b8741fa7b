-- ===== src/Remediation/Persistence/Sync/Restore.antt =====
-- persistence.go: what `syncPolicyConfigMap` writes, `loadPolicyState` reads back.
use dot_ai_controller.Prelude.{
  ℕ, ◌-◌, ◌%◌, ◌≡◌, refl, sym, ap, ◌∙◌, inl, inr, false, Option, none, some, [], ◌∷◌, ◌++◌, Text,
  is_empty, ◌==◌, ==-true, ==-false, text_eq, text_dec, if◌then◌else◌, ltb, In, arith,
}
use dot_ai_controller.Prelude.Map.{Map, lookup, lookup-insert, Distinct}
use dot_ai_controller.Remediation.Owner.{slash}
use dot_ai_controller.Remediation.Persistence.{
  Policy, Codec, Api, make_full_key, restore_parsed, restore, load_data, data_key, version_key,
  current_version,
}
use dot_ai_controller.Remediation.Persistence.Sync.{
  Write, serializable, new_content, set_content, sync_policy_config_map,
}
use dot_ai_controller.Remediation.Persistence.Sync.Contents.{
  content_of, set_content-version, set_content-data, HoldsJson, Written,
  sync_policy_config_map-content,
}

abbrev pub whole_seconds : ℕ → ℕ
whole_seconds t = t - t % 1000000000

-- The end of a cooldown as it is read back at a time, if it is not past by then.
abbrev pub restored : ℕ → Option ℕ → Option ℕ
restored later none = none
restored later (some end) = if ltb (whole_seconds end) later then none else some (whole_seconds end)

append-cancel : (a s t : Text) → a ++ s ≡ a ++ t → s ≡ t
append-cancel [] s t h = h
append-cancel (c ∷ a) s t h = append-cancel a s t cc

make-injective : (ns name s t : Text) → make_full_key ns name s ≡ make_full_key ns name t → s ≡ t
unfolding make_full_key
make-injective ns name s t h =
    let h1 = append-cancel ns (slash ∷ (name ++ slash ∷ s)) (slash ∷ (name ++ slash ∷ t)) h in
    let h2 = append-cancel name (slash ∷ s) (slash ∷ t) cc in cc

abbrev or_else : Option ℕ → Option ℕ → Option ℕ
or_else none o = o
or_else (some n) o = some n

make-== : (ns name s t : Text) → (make_full_key ns name s == make_full_key ns name t) ≡ (s == t)
make-== ns name s t = elim (text_dec s t) [
  | yes e ↦
      ==-true (make_full_key ns name s) (make_full_key ns name t) (ap (make_full_key ns name) e)
      ∙ sym (==-true s t e)
  | no n ↦
      ==-false (make_full_key ns name s) (make_full_key ns name t)
        (λ e. n (make-injective ns name s t e))
      ∙ sym (==-false s t n)
]

lookup-restore_parsed :
    (policy : Policy) (later : ℕ) (key short : Text) (t : ℕ) (acc : Map Text ℕ)
    → lookup
        (make_full_key policy.namespace policy.name short)
        (restore_parsed policy later key (some t) acc)
      ≡ or_else
          (if key == short then (if ltb t later then none else some t) else none)
          (lookup (make_full_key policy.namespace policy.name short) acc)
unfolding restore_parsed
lookup-restore_parsed policy later key short t acc = ground (
  arith,
  lookup-insert (make_full_key policy.namespace policy.name key)
      (make_full_key policy.namespace policy.name short) t acc,
  make-== policy.namespace policy.name key short,
)

-- The entry that comes first and the rest have no short key in common.
merge :
    (later end : ℕ) (key short : Text) (rest g : Option ℕ)
    → (key ≡ short → rest ≡ none)
    → or_else
        (restored later rest)
        (or_else (if key == short then restored later (some end) else none) g)
      ≡ or_else (restored later (if key == short then some end else rest)) g
merge later end key short rest g h = elim (text_dec key short) [
  | yes e ↦ rw (==-true key short e, h e) refl
  | no n ↦ rw (==-false key short n) refl
]

or_else-none : (o : Option ℕ) → or_else o none ≡ o
or_else-none none = refl
or_else-none (some n) = refl

module _ (codec : Codec) (whole : (t : ℕ) → codec.parse (codec.format t) ≡ some (whole_seconds t))
    (policy : Policy) (later : ℕ) where
  restore-serializable :
      (entries : Map Text ℕ) (short : Text) (acc : Map Text ℕ)
      → Distinct entries
      → lookup
          (make_full_key policy.namespace policy.name short)
          (restore codec policy later (serializable codec entries) acc)
        ≡ or_else
            (restored later (lookup short entries))
            (lookup (make_full_key policy.namespace policy.name short) acc)
  unfolding restore serializable lookup
  restore-serializable [] short acc d = refl
  restore-serializable ((key, end) ∷ entries) short acc d =
      restore-serializable entries short
        (restore_parsed policy later key (codec.parse (codec.format end)) acc) d.1
      ∙ rw (whole end) (
          rw (lookup-restore_parsed policy later key short (whole_seconds end) acc) (
            merge later end key short (lookup short entries)
              (lookup (make_full_key policy.namespace policy.name short) acc)
              (λ e. rw (sym e) d.0)))

  -- The data of a ConfigMap, new or updated, whose JSON is that of the entries.
  module _ (entries : Map Text ℕ) (d : Distinct entries) (json : Text)
      (full : is_empty json ≡ false)
      (back : codec.unmarshal json ≡ some (serializable codec entries)) where
    load-json :
        (content : Map Text Text) (short : Text)
        → lookup version_key content ≡ some current_version
        → lookup data_key content ≡ some json
        → lookup
            (make_full_key policy.namespace policy.name short)
            (load_data codec policy later content [])
          ≡ restored later (lookup short entries)
    unfolding load_data
    load-json content short v h =
        rw (v, h, ==-true current_version current_version refl, full, back)
          (restore-serializable entries short [] d
            ∙ or_else-none (restored later (lookup short entries)))

    load-new_content :
        (stamp short : Text)
        → lookup
            (make_full_key policy.namespace policy.name short)
            (load_data codec policy later (new_content json stamp) [])
          ≡ restored later (lookup short entries)
    unfolding lookup text_dec
    load-new_content stamp short = load-json (new_content json stamp) short refl refl

    load-set_content :
        (stamp short : Text) (old : Map Text Text)
        → lookup
            (make_full_key policy.namespace policy.name short)
            (load_data codec policy later (set_content json stamp old) [])
          ≡ restored later (lookup short entries)
    unfolding set_content
    load-set_content stamp short old =
        load-json (set_content json stamp old) short (set_content-version json stamp old)
          (set_content-data json stamp old)

    load-put :
        (w : Write) (stamp short : Text)
        → HoldsJson json stamp w
        → lookup
            (make_full_key policy.namespace policy.name short)
            (load_data codec policy later (content_of w) [])
          ≡ restored later (lookup short entries)
    load-put w stamp short (inl e) = rw e (load-new_content stamp short)
    load-put w stamp short (inr (old, e)) = rw e (load-set_content stamp short old)

-- What a sync of a policy's cooldowns, under distinct short keys, writes is what a later start of
-- the controller reads back: loading the data of any ConfigMap that it writes, into an empty map,
-- gives under each key of the policy its cooldown, to the second, if that is not past by then, and
-- nothing otherwise. The JSON of the entries, if it is made, is not empty and is read back, and an
-- instant that is formatted is parsed to its whole seconds.
pub sync-load :
    (codec : Codec) (api : Api) (policy : Policy) (ns policy_name short : Text)
    (entries : Map Text ℕ) (now later : ℕ) (w : Write)
    → ((t : ℕ) → codec.parse (codec.format t) ≡ some (whole_seconds t))
    → ((json : Text)
        → codec.marshal (serializable codec entries) ≡ some json
        → (is_empty json ≡ false) × (codec.unmarshal json ≡ some (serializable codec entries)))
    → Distinct entries
    → In w (sync_policy_config_map codec api ns policy_name entries now).1
    → lookup
        (make_full_key policy.namespace policy.name short)
        (load_data codec policy later (content_of w) [])
      ≡ restored later (lookup short entries)
unfolding Written
sync-load codec api policy ns policy_name short entries now later w whole back d m =
    let (json, stamp, made, h) =
      sync_policy_config_map-content codec api ns policy_name entries now w m in
    load-put codec whole policy later entries d json (back json made).0 (back json made).1 w stamp
      short h
