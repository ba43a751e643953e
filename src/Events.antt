-- ===== src/Events.antt =====
-- events/types.py of the package `goderash_core`: the ten event payloads, the envelope around
-- them, and the dictionary that `model_dump(mode="json")` makes of a payload.
pub mod Dump
use goderash.Common.{ℕ, String, Bool, List, Option}
use goderash.Int.{ℤ}
use goderash.Json.{Fields}

pub data StopReason : Type 0 where
  end_turn max_tokens tool_use stopped error : StopReason

pub data ToolCategory : Type 0 where
  query action intelligence : ToolCategory

pub data ConfirmationType : Type 0 where
  none pin biometric otp : ConfirmationType

pub data GrantSource : Type 0 where
  rule user hook classifier bypass : GrantSource

pub data DenySource : Type 0 where
  rule user hook classifier fraud_guard velocity budget : DenySource

pub data Severity : Type 0 where
  info warn error critical : Severity

pub record AgentTurnStarted : Type 0 where
  pub user_message : String
  pub language : Option String
  pub input_tokens_budget : Option ℤ
  pub tool_budget : Option ℤ

pub record AgentTurnCompleted : Type 0 where
  pub assistant_message : String
  pub input_tokens : ℤ
  pub output_tokens : ℤ
  pub tool_calls_made : ℤ
  pub duration_ms : ℤ
  pub stop_reason : StopReason

pub record ToolInvoked (F : Type 0) : Type 0 where
  pub tool_name : String
  pub tool_category : ToolCategory
  pub input_args_hash : String
  pub input_args_preview : Option (Fields F)
  pub confirmation_type : ConfirmationType

pub record ToolCompleted (F : Type 0) : Type 0 where
  pub tool_name : String
  pub success : Bool
  pub duration_ms : ℤ
  pub result_hash : String
  pub result_preview : Option (Fields F)

pub record ToolFailed : Type 0 where
  pub tool_name : String
  pub error_class : String
  pub error_message : String
  pub duration_ms : ℤ

pub record LlmCallStarted : Type 0 where
  pub provider : String
  pub model : String
  pub input_tokens_estimated : Option ℤ
  pub tools_offered : List String

pub record LlmCallCompleted : Type 0 where
  pub provider : String
  pub model : String
  pub input_tokens : ℤ
  pub output_tokens : ℤ
  pub cache_read_tokens : ℤ
  pub cache_creation_tokens : ℤ
  pub duration_ms : ℤ
  pub stop_reason : Option String

pub record PermissionGranted : Type 0 where
  pub tool_name : String
  pub source : GrantSource
  pub reason : Option String

pub record PermissionDenied : Type 0 where
  pub tool_name : String
  pub source : DenySource
  pub reason : String

pub record ContractViolated (F : Type 0) : Type 0 where
  pub contract_id : String
  pub contract_version : String
  pub clause : String
  pub severity : Severity
  pub details : Fields F
  pub blame_chain : List String

-- The discriminated union.
pub data GoderashEventPayload (F : Type 0) : Type 0 where
  agent_turn_started : AgentTurnStarted → GoderashEventPayload F
  agent_turn_completed : AgentTurnCompleted → GoderashEventPayload F
  tool_invoked : ToolInvoked F → GoderashEventPayload F
  tool_completed : ToolCompleted F → GoderashEventPayload F
  tool_failed : ToolFailed → GoderashEventPayload F
  llm_call_started : LlmCallStarted → GoderashEventPayload F
  llm_call_completed : LlmCallCompleted → GoderashEventPayload F
  permission_granted : PermissionGranted → GoderashEventPayload F
  permission_denied : PermissionDenied → GoderashEventPayload F
  contract_violated : ContractViolated F → GoderashEventPayload F

abbrev pub schema_version_now : ℤ
schema_version_now = ℤ.pos 1

-- UUIDs and times are only compared, so they are numbers.
pub record GoderashEventEnvelope (F : Type 0) : Type 0 where
  pub event_id : ℕ
  pub tenant_id : String
  pub agent_id : String
  pub conversation_id : String
  pub turn_id : String
  pub parent_event_id : Option ℕ
  pub schema_version : ℤ
  pub occurred_at : ℕ
  pub recorded_at : Option ℕ
  pub payload : GoderashEventPayload F
  pub prev_hash : Option String
  pub hash : Option String
