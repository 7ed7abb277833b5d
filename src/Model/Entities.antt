-- ===== src/Model/Entities.antt =====
-- The stored entities (model/run.go, story.go, hitl.go, project.go, event.go, agent.go, stack.go),
-- with the fields that the modelled operations read or write. A UUID is a number, `uuid.Nil` is 0,
-- and a time is a number.
use hopeitworks.Prelude.{
  ℕ, String, Bool, false, ◌&&◌, Option, none, some, List, [], ◌∷◌, ◌==◌, ◌=s=◌, if◌then◌else◌,
}
use hopeitworks.Errors.{DomainError}
use hopeitworks.Model.Config.{PipelineConfigYaml, PipelineConfigRawYaml}
use hopeitworks.Model.Status.{RunStatus, StepStatus, StoryStatus, HitlStatus, EpicRunStatus}

abbrev pub Uuid : Type 0
Uuid = ℕ

abbrev pub uuid_nil : Uuid
uuid_nil = 0

abbrev pub Time : Type 0
Time = ℕ

-- An error column holds a fixed text, "rejected: " and a reason, or the text of an error.
pub data ErrorText : Type 0 where
  text rejected : String → ErrorText
  of_error : DomainError → ErrorText

-- What the run's `map[string]any` metadata holds; `uuid` is the text of an identifier.
pub data MetaValue : Type 0 where
  str : String → MetaValue
  bool : Bool → MetaValue
  uuid : Uuid → MetaValue

-- The keys: a fixed one, `step_<order>_<name>`, and `stage_started_<stage id>`.
pub data MetaKey : Type 0 where
  named : String → MetaKey
  of_step : ℕ → String → MetaKey
  stage_started : String → MetaKey

abbrev pub meta_key_eq : MetaKey → MetaKey → Bool
meta_key_eq (named a) (named b) = a =s= b
meta_key_eq (of_step m a) (of_step n b) = m == n && a =s= b
meta_key_eq (stage_started a) (stage_started b) = a =s= b
meta_key_eq _ _ = false

abbrev pub Metadata : Type 0
Metadata = List (MetaKey × MetaValue)

-- `m[k]`.
unfoldable pub meta_get : MetaKey → Metadata → Option MetaValue
meta_get k [] = none
meta_get k ((j, v) ∷ m) = if meta_key_eq j k then some v else meta_get k m

-- `m[k] = v`.
unfoldable pub meta_set : MetaKey → MetaValue → Metadata → Metadata
meta_set k v [] = (k, v) ∷ []
meta_set k v ((j, u) ∷ m) = if meta_key_eq j k then (k, v) ∷ m else (j, u) ∷ meta_set k v m

-- `delete(m, k)`.
unfoldable pub meta_delete : MetaKey → Metadata → Metadata
meta_delete k [] = []
meta_delete k ((j, u) ∷ m) =
    let rest = meta_delete k m in if meta_key_eq j k then rest else (j, u) ∷ rest

-- `s, _ := m[k].(string)`.
abbrev pub as_string : Option MetaValue → String
as_string (some (str s)) = s
as_string _ = ""

-- `b, ok := m[k].(bool); ok && b`.
abbrev pub as_bool : Option MetaValue → Bool
as_bool (some (bool b)) = b
as_bool _ = false

-- `json.RawMessage` of the configuration: empty, not decodable, or the encoding of a configuration.
pub data Snapshot : Type 0 where
  absent unparseable : Snapshot
  encoded : PipelineConfigYaml → Snapshot

pub record RunStep : Type 0 where
  pub id : Uuid
  pub run_id : Uuid
  pub step_name : String
  pub step_order : ℕ
  pub action : String
  pub status : StepStatus
  pub started_at : Option Time
  pub completed_at : Option Time
  pub error_message : Option ErrorText
  pub container_id : Option String
  pub stage_id : String
  pub stage_name : String
  pub retry_count : ℕ
  pub retry_type : Option String
  pub parent_step_id : Option Uuid

pub record Run : Type 0 where
  pub id : Uuid
  pub project_id : Uuid
  pub story_id : Uuid
  pub status : RunStatus
  pub pipeline_config_snapshot : Snapshot
  pub metadata : Metadata
  pub started_at : Option Time
  pub completed_at : Option Time
  pub paused_at : Option Time
  pub error_message : Option ErrorText
  pub created_at : Time

pub record Story : Type 0 where
  pub id : Uuid
  pub project_id : Uuid
  pub key : String
  pub target_files : List String
  pub depends_on : List String
  pub status : StoryStatus
  pub current_stage : Option String
  pub writeback_status : Option String
  pub epic_id : Option Uuid
  pub created_at : Time

pub record Epic : Type 0 where
  pub id : Uuid
  pub project_id : Uuid

pub record EpicRun : Type 0 where
  pub id : Uuid
  pub project_id : Uuid
  pub epic_id : Uuid
  pub status : EpicRunStatus
  pub created_at : Time
  pub completed_at : Option Time

pub record EpicRunStory : Type 0 where
  pub epic_run_id : Uuid
  pub story_id : Uuid
  pub run_id : Option Uuid
  pub group_index : ℕ
  pub status : String

pub record Project : Type 0 where
  pub id : Uuid
  pub circuit_breaker_count : ℕ
  pub circuit_breaker_active : Bool
  pub circuit_breaker_max : ℕ
  pub max_container_timeout : Option Time

pub record Agent : Type 0 where
  pub id : Uuid
  pub model : String
  pub image : String
  pub stack_ref : Option Uuid
  pub runtime_kind : String
  pub template_content : String
  pub provider : String

pub record Stack : Type 0 where
  pub id : Uuid
  pub image_ref : String

unfoldable pub runtime_kind_from_provider : String → String
runtime_kind_from_provider provider = if provider =s= "opencode" then "opencode" else "claude_code"

-- `Payload` is JSON of these fields.
pub data PayloadValue : Type 0 where
  uuid : Uuid → PayloadValue
  str : String → PayloadValue
  time : Time → PayloadValue
  num : ℕ → PayloadValue
  error : ErrorText → PayloadValue

pub record Event : Type 0 where
  pub project_id : Uuid
  pub entity_type : String
  pub entity_id : Uuid
  pub action : String
  pub payload : List (String × PayloadValue)

-- The halting reason of a probe, as far as it is stored and shown; observed and threshold are
-- numbers of millionths.
pub record HaltReason : Type 0 where
  pub probe : String
  pub on_fail : String
  pub observed : ℕ
  pub threshold : ℕ
  pub unit : String
  pub detail : String

pub record HitlRequest : Type 0 where
  pub id : Uuid
  pub run_step_id : Uuid
  pub gate_type : String
  pub status : HitlStatus
  pub resolved_at : Option Time
  pub resolved_by : Option Uuid
  pub rejection_reason : Option String
  pub halt_reason : Option HaltReason
  pub resolution_action : Option String

-- A project's configuration as decoded from its YAML, or `none` where that is invalid.
pub record PipelineConfigRow : Type 0 where
  pub project_id : Uuid
  pub config : Option PipelineConfigRawYaml
