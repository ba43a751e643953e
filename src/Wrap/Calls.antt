-- ===== src/Wrap/Calls.antt =====
-- goderash_sdk/wrap: the events around the calls of tools, agents and models.
use goderash.Common.{
  none, ℕ, String, ◌≡◌, refl, inl, inr, Option, some, Outcome, returned, raised, Outcome-cases,
  Bool-cases, if◌then◌else◌,
}
use goderash.Http.{Answer}
use goderash.Events.{end_turn}
use goderash.Wrap.{
  Sdk, Run, Runtime, PyError, Event, ToolOptions, or_else, with_default, hash_args, hash_result,
  is_exception, failed_event, completed_event, invoked_event, name_of_tool, turn_completed,
  agent_turn_started, unbound_local_error, Tokens, llm_call_started, llm_call_completed,
}
use goderash.Wrap.Functions.{close_tool, wrap_tool, close_agent, wrap_agent, close_llm, wrap_llm}
use goderash.Wrap.Brackets.{Closes, Brackets, emit_last, open-Brackets}

-- A model's own outcome, unless the extractor raises.
abbrev pub llm_outcome :
    {V : Type 0} → (V → Outcome PyError Tokens) → Outcome PyError V → Outcome PyError V
llm_outcome extractor (raised exc) = raised exc
llm_outcome extractor (returned result) = elim (extractor result) [
  | raised exc ↦ raised exc
  | returned tokens ↦ returned result
]

abbrev pub agent_outcome : {V : Type 0} → Outcome PyError V → Outcome PyError V
agent_outcome (raised exc) = raised unbound_local_error
agent_outcome (returned result) = returned result

module _ {V : Type 0} (lib : Runtime V) where
  -- A tool's own outcome, unless its result cannot be hashed.
  abbrev pub tool_outcome : Outcome PyError V → Outcome PyError V
  tool_outcome (raised exc) = raised exc
  tool_outcome (returned result) = elim (hash_result lib result) [
    | raised exc ↦ raised exc
    | returned hash ↦ returned result
  ]

module _ {V C : Type 0} (lib : Runtime V) where
  -- The events of a wrapped tool behind those of the tool itself.
  abbrev pub tool_closing : ToolOptions C → C → String → ℕ → Outcome PyError V → Option (Event C V)
  tool_closing options ctx name duration_ms (raised exc) =
      if is_exception exc.kind then some (failed_event lib ctx name duration_ms exc) else none
  tool_closing options ctx name duration_ms (returned result) = elim (hash_result lib result) [
    | raised exc ↦ none
    | returned hash ↦
        some (completed_event lib ctx name options.include_preview duration_ms result hash)
  ]

  abbrev pub llm_closing :
      String
      → String
      → (V → Outcome PyError Tokens)
      → C
      → ℕ
      → Outcome PyError V
      → Option (Event C V)
  llm_closing provider model extractor ctx duration_ms (raised exc) = none
  llm_closing provider model extractor ctx duration_ms (returned result) = elim (extractor result) [
    | raised exc ↦ none
    | returned tokens ↦ some (ctx, llm_call_completed provider model tokens duration_ms)
  ]

  abbrev pub agent_closing : C → ℕ → Outcome PyError V → Option (Event C V)
  agent_closing ctx duration_ms (raised exc) = none
  agent_closing ctx duration_ms (returned result) =
      some (turn_completed lib ctx duration_ms end_turn result)

  module _ (batch_size : ℕ) (network : ℕ → ℕ → Answer) where
    close_tool-closing :
        (options : ToolOptions C) (ctx : C) (name : String) (duration_ms : ℕ)
        (outcome : Outcome PyError V) (left : Sdk (Event C V))
        → Closes lib batch_size network
            (tool_closing options ctx name duration_ms outcome)
            (tool_outcome lib outcome)
            left
            (close_tool lib batch_size network options ctx name duration_ms (outcome, left))
    unfolding close_tool
    close_tool-closing options ctx name duration_ms (raised exc) left =
        elim (Bool-cases (is_exception exc.kind)) [
          | inl caught ↦ rw caught (
              emit_last lib batch_size network (failed_event lib ctx name duration_ms exc)
                (raised exc) left)
          | inr passed ↦ rw passed refl
        ]
    close_tool-closing options ctx name duration_ms (returned result) left =
        elim (Outcome-cases (hash_result lib result)) [
          | inl (hash, hashed) ↦
              rw (hashed, close_tool, tool_closing, tool_outcome)
                (emit_last lib batch_size network
                  (completed_event lib ctx name options.include_preview duration_ms result hash)
                  (returned result) left)
          | inr (exc, failed) ↦ rw (failed, close_tool, tool_closing, tool_outcome) refl
        ]

    -- A wrapped tool that is called with a context, and with arguments that can be hashed, emits
    -- tool.invoked before anything the tool emits. If that makes a post that fails, the tool is not
    -- called and that failure is raised. Otherwise, behind what the tool emits: if it raises an Exception,
    -- tool.failed; if it returns a result that can be hashed, tool.completed; and nothing if its
    -- result cannot be hashed or if what it raises is no Exception. The call ends as the tool does,
    -- or with the exception of the hashing or of a post.
    pub wrap_tool-Brackets :
        (options : ToolOptions C) (fn_name : String)
        (fn : V → V → Sdk (Event C V) → Run (Event C V) V) (given : Option C) (args kwargs : V)
        (duration_ms : ℕ) (sdk : Sdk (Event C V)) (ctx : C) (hash : String)
        → or_else given options.context ≡ some ctx
        → hash_args lib args kwargs ≡ returned hash
        → Brackets lib batch_size network
            (invoked_event lib options ctx (name_of_tool options.name fn_name) kwargs hash)
            (tool_closing options ctx (name_of_tool options.name fn_name) duration_ms)
            (tool_outcome lib)
            (fn args kwargs)
            sdk
            (wrap_tool lib batch_size network options fn_name fn given args kwargs duration_ms sdk)
    unfolding wrap_tool
    wrap_tool-Brackets options fn_name fn given args kwargs duration_ms sdk ctx hash in_context
          hashed =
        let name = name_of_tool options.name fn_name in
        rw (in_context, hashed, wrap_tool)
          (open-Brackets lib batch_size network (invoked_event lib options ctx name kwargs hash)
            (tool_closing options ctx name duration_ms) (tool_outcome lib) (fn args kwargs)
            (close_tool lib batch_size network options ctx name duration_ms) sdk
            (close_tool-closing options ctx name duration_ms))

    close_agent-closing :
        (ctx : C) (duration_ms : ℕ) (outcome : Outcome PyError V) (left : Sdk (Event C V))
        → Closes lib batch_size network
            (agent_closing ctx duration_ms outcome)
            (agent_outcome outcome)
            left
            (close_agent lib batch_size network ctx duration_ms (outcome, left))
    unfolding close_agent
    close_agent-closing ctx duration_ms (raised exc) left = refl
    close_agent-closing ctx duration_ms (returned result) left =
        emit_last lib batch_size network (turn_completed lib ctx duration_ms end_turn result)
          (returned result) left

    -- A wrapped agent emits agent.turn.started before anything the agent emits. If the post of it
    -- fails, the agent is not called and that failure is raised. Otherwise, behind what the agent
    -- emits: if it returns, agent.turn.completed with the reason end_turn, and the call ends with
    -- its result or with the failure of a post; if it raises, whatever it raises, no event, and the
    -- call raises UnboundLocalError in place of it.
    pub wrap_agent-Brackets :
        (context : Option C) (new_context : C) (language : Option String)
        (fn : C → String → V → V → Sdk (Event C V) → Run (Event C V) V) (given : Option C)
        (user_message : String) (args kwargs : V) (duration_ms : ℕ) (sdk : Sdk (Event C V))
        → let ctx = with_default new_context (or_else given context) in
          Brackets lib batch_size network
            (ctx, agent_turn_started user_message language)
            (agent_closing ctx duration_ms)
            agent_outcome
            (fn ctx user_message args kwargs)
            sdk
            (wrap_agent lib batch_size network context new_context language fn given user_message
              args kwargs duration_ms sdk)
    unfolding wrap_agent
    wrap_agent-Brackets context new_context language fn given user_message args kwargs duration_ms
          sdk =
        let ctx = with_default new_context (or_else given context) in
        open-Brackets lib batch_size network (ctx, agent_turn_started user_message language)
          (agent_closing ctx duration_ms) agent_outcome (fn ctx user_message args kwargs)
          (close_agent lib batch_size network ctx duration_ms) sdk
          (close_agent-closing ctx duration_ms)

    close_llm-closing :
        (provider model : String) (extractor : V → Outcome PyError Tokens) (ctx : C)
        (duration_ms : ℕ) (outcome : Outcome PyError V) (left : Sdk (Event C V))
        → Closes lib batch_size network
            (llm_closing provider model extractor ctx duration_ms outcome)
            (llm_outcome extractor outcome)
            left
            (close_llm lib batch_size network provider model extractor ctx duration_ms
              (outcome, left))
    unfolding close_llm
    close_llm-closing provider model extractor ctx duration_ms (raised exc) left = refl
    close_llm-closing provider model extractor ctx duration_ms (returned result) left =
        elim (Outcome-cases (extractor result)) [
          | inl (tokens, read) ↦
              rw (read, close_llm, llm_closing, llm_outcome)
                (emit_last lib batch_size network
                  (ctx, llm_call_completed provider model tokens duration_ms) (returned result)
                  left)
          | inr (exc, failed) ↦ rw (failed, close_llm, llm_closing, llm_outcome) refl
        ]

    -- A wrapped model that is called with a context emits llm.call.started before anything the
    -- function emits. If the post of it fails, the function is not called and that failure is
    -- raised. Otherwise, behind what the function emits: if it returns a result whose tokens can be
    -- extracted, llm.call.completed with them; else nothing. The call ends as the function does, or
    -- with the exception of the extractor or of a post.
    wrap_llm-Brackets :
        (provider model : String) (extractor : V → Outcome PyError Tokens) (context : Option C)
        (fn : V → V → Sdk (Event C V) → Run (Event C V) V) (given : Option C) (args kwargs : V)
        (duration_ms : ℕ) (sdk : Sdk (Event C V)) (ctx : C)
        → or_else given context ≡ some ctx
        → Brackets lib batch_size network
            (ctx, llm_call_started provider model)
            (llm_closing provider model extractor ctx duration_ms)
            (llm_outcome extractor)
            (fn args kwargs)
            sdk
            (wrap_llm lib batch_size network provider model extractor context fn given args kwargs
              duration_ms sdk)
    unfolding wrap_llm
    wrap_llm-Brackets provider model extractor context fn given args kwargs duration_ms sdk ctx
          in_context =
        rw (in_context, wrap_llm)
          (open-Brackets lib batch_size network (ctx, llm_call_started provider model)
            (llm_closing provider model extractor ctx duration_ms) (llm_outcome extractor)
            (fn args kwargs)
            (close_llm lib batch_size network provider model extractor ctx duration_ms) sdk
            (close_llm-closing provider model extractor ctx duration_ms))
