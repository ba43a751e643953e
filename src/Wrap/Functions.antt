-- ===== src/Wrap/Functions.antt =====
-- goderash_sdk/wrap: the functions that the decorators of tools, agents and models make.
use goderash.Common.{ℕ, String, Option, none, some, Outcome, returned, raised, if◌then◌else◌}
use goderash.Http.{Answer}
use goderash.Events.{end_turn}
use goderash.Wrap.{
  Sdk, Run, Runtime, PyError, Event, ToolOptions, Tokens, or_else, with_default, hash_args,
  hash_result, is_exception, failed_event, completed_event, invoked_event, name_of_tool, emit_to,
  and_then, turn_completed, agent_turn_started, llm_call_started, llm_call_completed,
  unbound_local_error,
}

module _ {V C : Type 0} (lib : Runtime V) (batch_size : ℕ) (network : ℕ → ℕ → Answer) where
  -- `wrapped`, behind the call of the tool.
  unfoldable pub close_tool : ToolOptions C → C → String → ℕ → Run (Event C V) V → Run (Event C V) V
  close_tool options ctx name duration_ms (raised exc, sdk) =
      if is_exception exc.kind
      then and_then (emit_to lib batch_size network (failed_event lib ctx name duration_ms exc) sdk)
          (λ done sdk'. (raised exc, sdk'))
      else (raised exc, sdk)
  close_tool options ctx name duration_ms (returned result, sdk) = elim (hash_result lib result) [
    | raised exc ↦ (raised exc, sdk)
    | returned hash ↦
        and_then
          (emit_to lib batch_size network
            (completed_event lib ctx name options.include_preview duration_ms result hash) sdk)
          (λ done sdk'. (returned result, sdk'))
  ]

  -- `wrapped`: `given` is the context among the named arguments, and `kwargs` the others.
  unfoldable pub wrap_tool :
      ToolOptions C
      → String
      → (V → V → Sdk (Event C V) → Run (Event C V) V)
      → Option C
      → V
      → V
      → ℕ
      → Sdk (Event C V)
      → Run (Event C V) V
  wrap_tool options fn_name fn given args kwargs duration_ms sdk =
      elim (or_else given options.context) [
        | none ↦ fn args kwargs sdk
        | some ctx ↦ elim (hash_args lib args kwargs) [
          | raised exc ↦ (raised exc, sdk)
          | returned hash ↦
              let name = name_of_tool options.name fn_name in
              and_then
                (emit_to lib batch_size network (invoked_event lib options ctx name kwargs hash)
                  sdk)
                (λ done sdk'. close_tool options ctx name duration_ms (fn args kwargs sdk'))
        ]
      ]

  -- `finally`, behind the call of the agent: no result is bound if the call raised.
  unfoldable pub close_agent : C → ℕ → Run (Event C V) V → Run (Event C V) V
  close_agent ctx duration_ms (raised exc, sdk) = (raised unbound_local_error, sdk)
  close_agent ctx duration_ms (returned result, sdk) =
      and_then
        (emit_to lib batch_size network (turn_completed lib ctx duration_ms end_turn result) sdk)
        (λ done sdk'. (returned result, sdk'))

  -- `new_context` is what the client makes if the call and the decorator give no context.
  unfoldable pub wrap_agent :
      Option C
      → C
      → Option String
      → (C → String → V → V → Sdk (Event C V) → Run (Event C V) V)
      → Option C
      → String
      → V
      → V
      → ℕ
      → Sdk (Event C V)
      → Run (Event C V) V
  wrap_agent context new_context language fn given user_message args kwargs duration_ms sdk =
      let ctx = with_default new_context (or_else given context) in
      and_then (emit_to lib batch_size network (ctx, agent_turn_started user_message language) sdk)
        (λ done sdk'. close_agent ctx duration_ms (fn ctx user_message args kwargs sdk'))

  -- `wrapped`, behind the call of the model, with the token extractor.
  unfoldable pub close_llm :
      String → String → (V → Outcome PyError Tokens) → C → ℕ → Run (Event C V) V → Run (Event C V) V
  close_llm provider model extractor ctx duration_ms (raised exc, sdk) = (raised exc, sdk)
  close_llm provider model extractor ctx duration_ms (returned result, sdk) =
      elim (extractor result) [
        | raised exc ↦ (raised exc, sdk)
        | returned tokens ↦
            and_then
              (emit_to lib batch_size network
                (ctx, llm_call_completed provider model tokens duration_ms) sdk)
              (λ done sdk'. (returned result, sdk'))
      ]

  unfoldable pub wrap_llm :
      String
      → String
      → (V → Outcome PyError Tokens)
      → Option C
      → (V → V → Sdk (Event C V) → Run (Event C V) V)
      → Option C
      → V
      → V
      → ℕ
      → Sdk (Event C V)
      → Run (Event C V) V
  wrap_llm provider model extractor context fn given args kwargs duration_ms sdk =
      elim (or_else given context) [
        | none ↦ fn args kwargs sdk
        | some ctx ↦
            and_then (emit_to lib batch_size network (ctx, llm_call_started provider model) sdk)
              (λ done sdk'.
                close_llm provider model extractor ctx duration_ms (fn args kwargs sdk'))
      ]
