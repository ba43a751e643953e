-- ===== src/Events/Dump.antt =====
-- `model_dump(mode="json")` of each payload class in events/types.py: a key for every field, in
-- the order of the class, the tag `event_type` first.
use goderash.Common.{String, [], ◌∷◌}
use goderash.Json.{Fields, bool, int, str, arr, obj, dict, texts, optional}
use goderash.Events.{
  StopReason, ToolCategory, ConfirmationType, GrantSource, DenySource, Severity,
  GoderashEventPayload, agent_turn_started, agent_turn_completed, tool_invoked, tool_completed,
  tool_failed, llm_call_started, llm_call_completed, permission_granted, permission_denied,
  contract_violated,
}

abbrev pub stop_reason_text : StopReason → String
stop_reason_text StopReason.end_turn = "end_turn"
stop_reason_text StopReason.max_tokens = "max_tokens"
stop_reason_text StopReason.tool_use = "tool_use"
stop_reason_text StopReason.stopped = "stopped"
stop_reason_text StopReason.error = "error"

abbrev pub category_text : ToolCategory → String
category_text ToolCategory.query = "query"
category_text ToolCategory.action = "action"
category_text ToolCategory.intelligence = "intelligence"

abbrev pub confirmation_text : ConfirmationType → String
confirmation_text ConfirmationType.none = "none"
confirmation_text ConfirmationType.pin = "pin"
confirmation_text ConfirmationType.biometric = "biometric"
confirmation_text ConfirmationType.otp = "otp"

abbrev pub grant_source_text : GrantSource → String
grant_source_text GrantSource.rule = "rule"
grant_source_text GrantSource.user = "user"
grant_source_text GrantSource.hook = "hook"
grant_source_text GrantSource.classifier = "classifier"
grant_source_text GrantSource.bypass = "bypass"

abbrev pub deny_source_text : DenySource → String
deny_source_text DenySource.rule = "rule"
deny_source_text DenySource.user = "user"
deny_source_text DenySource.hook = "hook"
deny_source_text DenySource.classifier = "classifier"
deny_source_text DenySource.fraud_guard = "fraud_guard"
deny_source_text DenySource.velocity = "velocity"
deny_source_text DenySource.budget = "budget"

abbrev pub severity_text : Severity → String
severity_text Severity.info = "info"
severity_text Severity.warn = "warn"
severity_text Severity.error = "error"
severity_text Severity.critical = "critical"

module _ {F : Type 0} where
  unfoldable pub event_type : GoderashEventPayload F → String
  event_type (agent_turn_started _) = "agent.turn.started"
  event_type (agent_turn_completed _) = "agent.turn.completed"
  event_type (tool_invoked _) = "tool.invoked"
  event_type (tool_completed _) = "tool.completed"
  event_type (tool_failed _) = "tool.failed"
  event_type (llm_call_started _) = "llm.call.started"
  event_type (llm_call_completed _) = "llm.call.completed"
  event_type (permission_granted _) = "permission.granted"
  event_type (permission_denied _) = "permission.denied"
  event_type (contract_violated _) = "contract.violated"

  -- The keys after `event_type`.
  dump_fields : GoderashEventPayload F → Fields F
  dump_fields (agent_turn_started p) = dict (
      ("user_message", str p.user_message)
      ∷ ("language", optional str p.language)
      ∷ ("input_tokens_budget", optional int p.input_tokens_budget)
      ∷ ("tool_budget", optional int p.tool_budget)
      ∷ [])
  dump_fields (agent_turn_completed p) = dict (
      ("assistant_message", str p.assistant_message)
      ∷ ("input_tokens", int p.input_tokens)
      ∷ ("output_tokens", int p.output_tokens)
      ∷ ("tool_calls_made", int p.tool_calls_made)
      ∷ ("duration_ms", int p.duration_ms)
      ∷ ("stop_reason", str (stop_reason_text p.stop_reason))
      ∷ [])
  dump_fields (tool_invoked p) = dict (
      ("tool_name", str p.tool_name)
      ∷ ("tool_category", str (category_text p.tool_category))
      ∷ ("input_args_hash", str p.input_args_hash)
      ∷ ("input_args_preview", optional obj p.input_args_preview)
      ∷ ("confirmation_type", str (confirmation_text p.confirmation_type))
      ∷ [])
  dump_fields (tool_completed p) = dict (
      ("tool_name", str p.tool_name)
      ∷ ("success", bool p.success)
      ∷ ("duration_ms", int p.duration_ms)
      ∷ ("result_hash", str p.result_hash)
      ∷ ("result_preview", optional obj p.result_preview)
      ∷ [])
  dump_fields (tool_failed p) = dict (
      ("tool_name", str p.tool_name)
      ∷ ("error_class", str p.error_class)
      ∷ ("error_message", str p.error_message)
      ∷ ("duration_ms", int p.duration_ms)
      ∷ [])
  dump_fields (llm_call_started p) = dict (
      ("provider", str p.provider)
      ∷ ("model", str p.model)
      ∷ ("input_tokens_estimated", optional int p.input_tokens_estimated)
      ∷ ("tools_offered", arr (texts p.tools_offered))
      ∷ [])
  dump_fields (llm_call_completed p) = dict (
      ("provider", str p.provider)
      ∷ ("model", str p.model)
      ∷ ("input_tokens", int p.input_tokens)
      ∷ ("output_tokens", int p.output_tokens)
      ∷ ("cache_read_tokens", int p.cache_read_tokens)
      ∷ ("cache_creation_tokens", int p.cache_creation_tokens)
      ∷ ("duration_ms", int p.duration_ms)
      ∷ ("stop_reason", optional str p.stop_reason)
      ∷ [])
  dump_fields (permission_granted p) = dict (
      ("tool_name", str p.tool_name)
      ∷ ("source", str (grant_source_text p.source))
      ∷ ("reason", optional str p.reason)
      ∷ [])
  dump_fields (permission_denied p) = dict (
      ("tool_name", str p.tool_name)
      ∷ ("source", str (deny_source_text p.source))
      ∷ ("reason", str p.reason)
      ∷ [])
  dump_fields (contract_violated p) = dict (
      ("contract_id", str p.contract_id)
      ∷ ("contract_version", str p.contract_version)
      ∷ ("clause", str p.clause)
      ∷ ("severity", str (severity_text p.severity))
      ∷ ("details", obj p.details)
      ∷ ("blame_chain", arr (texts p.blame_chain))
      ∷ [])

  unfoldable pub model_dump : GoderashEventPayload F → Fields F
  unfolding dump_fields event_type
  model_dump p = Fields.field "event_type" (str (event_type p)) (dump_fields p)
