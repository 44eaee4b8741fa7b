-- ===== src/Remediation/Persistence/Sync/Contents.antt =====
-- persistence.go, `syncPolicyConfigMap`: the data of the ConfigMap that is written.
use dot_ai_controller.Prelude.{
  ℕ, ◌≡◌, refl, sym, ap, ◌∙◌, ◌⊎◌, inl, inr, Bool-cases, Option, none, some, Text, ==-true, text_eq,
  text_dec, In, arith,
}
use dot_ai_controller.Prelude.Map.{Map, lookup, insert, lookup-insert}
use dot_ai_controller.Remediation.Owner.{Fetched, found, not_found, failed}
use dot_ai_controller.Remediation.Persistence.{
  Policy, Codec, Api, Updated, updated, conflict, update_failed, data_key, last_sync_key,
  version_key, current_version, is_policy_persistence_enabled,
}
use dot_ai_controller.Remediation.Persistence.Sync.{
  Write, create_config_map, update_config_map, serializable, new_content, set_content, of_update,
  put_config_map, put_json, sync_fetched, sync_policy_config_map,
}

abbrev pub content_of : Write → Map Text Text
content_of (create_config_map ns name content) = content
content_of (update_config_map ns name content) = content

pub set_content-version :
    (json stamp : Text) (old : Map Text Text)
    → lookup version_key (set_content json stamp old) ≡ some current_version
unfolding set_content
set_content-version json stamp old =
    lookup-insert version_key version_key current_version
      (insert last_sync_key stamp (insert data_key json old))
    ∙ rw (==-true version_key version_key refl) refl

pub set_content-data :
    (json stamp : Text) (old : Map Text Text)
    → lookup data_key (set_content json stamp old) ≡ some json
unfolding set_content text_dec
set_content-data json stamp old =
    lookup-insert version_key data_key current_version
      (insert last_sync_key stamp (insert data_key json old))
    ∙ lookup-insert last_sync_key data_key stamp (insert data_key json old)
    ∙ lookup-insert data_key data_key json old

-- A write has the new data, or old ones with the three keys set.
abbrev pub HoldsJson : Text → Text → Write → Type 0
HoldsJson json stamp w =
    (content_of w ≡ new_content json stamp)
    ⊎ ((old : Map Text Text) × (content_of w ≡ set_content json stamp old))

of_update-content :
    (ns name : Text) (content : Map Text Text) (u : Updated) (w : Write)
    → In w (of_update ns name content u).1
    → content_of w ≡ content
unfolding of_update
of_update-content ns name content updated w (inl e) = ap content_of (sym e)
of_update-content ns name content updated w (inr m) = elim m [ ]
of_update-content ns name content conflict w m = elim m [ ]
of_update-content ns name content update_failed w m = elim m [ ]

put_config_map-content :
    (api : Api) (policy : Policy) (ns name json stamp : Text) (there : Fetched (Map Text Text))
    (w : Write)
    → In w (put_config_map api policy ns name json stamp there).1
    → HoldsJson json stamp w
unfolding put_config_map
put_config_map-content api policy ns name json stamp failed w m = elim m [ ]
put_config_map-content api policy ns name json stamp not_found w m = inl (ground arith)
put_config_map-content api policy ns name json stamp (found old) w m = inr (
  old,
  of_update-content ns name (set_content json stamp old)
      (api.update ns name (set_content json stamp old)) w m,
)

unfoldable pub Written : Codec → Map Text ℕ → Write → Type 0
Written codec entries w =
    (json : Text) × (stamp : Text) × (codec.marshal (serializable codec entries) ≡ some json)
    × HoldsJson json stamp w

put_json-content :
    (codec : Codec) (api : Api) (policy : Policy) (ns policy_name : Text) (entries : Map Text ℕ)
    (now : ℕ) (o : Option Text) (w : Write)
    → codec.marshal (serializable codec entries) ≡ o
    → In w (put_json codec api policy ns policy_name now o).1
    → Written codec entries w
unfolding put_json Written
put_json-content codec api policy ns policy_name entries now none w e m = elim m [ ]
put_json-content codec api policy ns policy_name entries now (some json) w e m = (
  json,
  codec.format now,
  e,
  put_config_map-content api policy ns _ json (codec.format now) _ w m,
)

sync_fetched-content :
    (codec : Codec) (api : Api) (ns policy_name : Text) (entries : Map Text ℕ) (now : ℕ)
    (p : Fetched Policy) (w : Write)
    → In w (sync_fetched codec api ns policy_name entries now p).1
    → Written codec entries w
unfolding sync_fetched
sync_fetched-content codec api ns policy_name entries now not_found w m = elim m [ ]
sync_fetched-content codec api ns policy_name entries now failed w m = elim m [ ]
sync_fetched-content codec api ns policy_name entries now (found policy) w m =
    elim (Bool-cases (is_policy_persistence_enabled policy.persistence)) [
      | inl on ↦ put_json-content codec api policy ns policy_name entries now _ w refl (rw on at m)
      | inr off ↦ absurd (rw off at m)
    ]

pub sync_policy_config_map-content :
    (codec : Codec) (api : Api) (ns policy_name : Text) (entries : Map Text ℕ) (now : ℕ) (w : Write)
    → In w (sync_policy_config_map codec api ns policy_name entries now).1
    → Written codec entries w
unfolding sync_policy_config_map
sync_policy_config_map-content codec api ns policy_name entries now w m =
    sync_fetched-content codec api ns policy_name entries now (api.get_policy ns policy_name) w m
