-- ===== src/KnowledgeSource/Source.antt =====
-- api/v1alpha1/gitknowledgesource_types.go, and the conditions that
-- internal/controller/gitknowledgesource_controller.go sets of a source. meta.SetStatusCondition is a parameter.
use dot_ai_controller.Prelude.{ℕ, Bool, false, Option, none, List, Text, codes}
use dot_ai_controller.Prelude.Map.{Map}

pub record SecretReference : Type 0 where
  pub name : Text
  pub key : Text

pub record RepositoryConfig : Type 0 where
  pub url : Text
  pub branch : Text
  pub depth : Option ℕ
  pub secret_ref : Option SecretReference

pub record McpServerConfig : Type 0 where
  pub url : Text
  pub auth_secret_ref : SecretReference

-- A limit below zero is not modelled.
pub record GitKnowledgeSourceSpec : Type 0 where
  pub repository : RepositoryConfig
  pub paths : List Text
  pub exclude : List Text
  pub schedule : Text
  pub mcp_server : McpServerConfig
  pub metadata : Map Text Text
  pub max_file_size_bytes : Option ℕ
  pub deletion_policy : Text

pub data Phase : Type 0 where
  no_phase phase_syncing phase_synced phase_error : Phase

pub record SkippedFile : Type 0 where
  pub path : Text
  pub reason : Text

-- metav1.Condition, whose time is left to SetStatusCondition.
pub record Condition : Type 0 where
  pub type : Text
  pub status : Bool
  pub observed_generation : ℕ
  pub reason : Text
  pub message : Text

pub record GitKnowledgeSourceStatus : Type 0 where
  pub active : Bool
  pub phase : Phase
  pub last_sync_time : Option ℕ
  pub last_synced_commit : Text
  pub next_scheduled_sync : Option ℕ
  pub document_count : ℕ
  pub skipped_documents : ℕ
  pub skipped_files : List SkippedFile
  pub sync_errors : ℕ
  pub last_error : Text
  pub observed_generation : ℕ
  pub conditions : List Condition

pub record GitKnowledgeSource : Type 0 where
  pub namespace : Text
  pub name : Text
  pub uid : Text
  pub generation : ℕ
  pub deleting : Bool
  pub finalizer : Bool
  pub spec : GitKnowledgeSourceSpec
  pub status : GitKnowledgeSourceStatus

abbrev pub condition_type_ready : Text
condition_type_ready = codes "Ready"

abbrev pub condition_type_synced : Text
condition_type_synced = codes "Synced"

abbrev pub condition_type_scheduled : Text
condition_type_scheduled = codes "Scheduled"

-- `meta.SetStatusCondition(&gks.Status.Conditions, …)` of the functions below is their first argument.
abbrev pub SetCondition : Type 0
SetCondition = Condition → List Condition → List Condition

unfoldable pub set_condition :
    SetCondition → Text → Bool → Text → Text → GitKnowledgeSource → GitKnowledgeSource
set_condition set type status reason message gks = record gks {
  status = record gks.status {
    conditions =
        set
          (record {
            type = type;
            status = status;
            observed_generation = gks.generation;
            reason = reason;
            message = message;
          })
          gks.status.conditions;
  };
}

unfoldable pub set_error_condition :
    SetCondition → Text → Text → GitKnowledgeSource → GitKnowledgeSource
unfolding set_condition
set_error_condition set reason message gks =
    let gks = set_condition set condition_type_synced false reason message gks in
    record gks { status = record gks.status { phase = phase_error; last_error = message } }

unfoldable pub set_synced_condition :
    SetCondition → Bool → Text → Text → GitKnowledgeSource → GitKnowledgeSource
unfolding set_condition
set_synced_condition set success reason message gks =
    set_condition set condition_type_synced success reason message gks

unfoldable pub set_scheduled_condition :
    SetCondition → Bool → Text → Text → GitKnowledgeSource → GitKnowledgeSource
unfolding set_condition
set_scheduled_condition set success reason message gks =
    set_condition set condition_type_scheduled success reason message gks

unfoldable pub set_schedule_error_condition :
    SetCondition → Text → GitKnowledgeSource → GitKnowledgeSource
unfolding set_condition
set_schedule_error_condition set message gks =
    let gks =
      set_condition set condition_type_scheduled false (codes "ScheduleError") message gks in
    record gks { status = record gks.status { next_scheduled_sync = none } }
