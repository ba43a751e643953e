-- ===== src/Wrap.antt =====
-- goderash_sdk/wrap: functions whose calls emit events. A wrapped function changes the state
-- of the SDK itself when it emits or calls other wrapped ones, and `network` answers each attempt of
-- each post. The events' own ids and times are left out, and payloads pass their validation. The
-- asynchronous wrappers differ in nothing but that they await the function.
pub mod Brackets
pub mod Calls
pub mod Functions
use goderash.Common.{
  [], ◌∷◌, ℕ, ◌+◌, String, str_eq, Bool, true, false, Option, none, some, List, ◌++◌, ltb,
  if◌then◌else◌, Outcome, returned, raised,
}
use goderash.Int.{ℤ}
use goderash.Http.{Answer}
use goderash.Events.{StopReason, ToolCategory, ConfirmationType, end_turn}
use goderash.Client.{PostError, Post, Flush, emit}

-- `except Exception` lets the third kind pass: a cancellation, an interrupt, an exit.
pub data Kind : Type 0 where
  type_error : Kind
  other_exception : Kind
  base_exception : Kind

pub record PyError : Type 0 where
  pub kind : Kind
  pub class_name : String
  pub message : String

-- Calls of json, hashlib, httpx and the string methods. `V` is the type of Python's values;
-- `dumps_call` dumps the dictionary of positional and named arguments, and `dumps` has no text if
-- it raises.
pub record Runtime (V : Type 0) : Type 0 where
  pub dumps_call : V → V → Outcome PyError String
  pub dumps_sorted : V → Outcome PyError String
  pub dumps : V → Option String
  pub repr : V → Outcome PyError String
  pub sha256 : String → String
  pub byte_length : String → ℕ
  pub cut : ℕ → String → String
  pub as_text : V → Option String
  pub http_error : PostError → PyError

-- What a token extractor gives: the counts of tokens, and the reason to stop.
pub record Tokens : Type 0 where
  pub input_tokens : ℤ
  pub output_tokens : ℤ
  pub cache_read_tokens : ℤ
  pub cache_creation_tokens : ℤ
  pub stop_reason : Option String

-- A dictionary with these entries.
abbrev pub Preview : Type 0 → Type 0
Preview V = List (String × V)

pub data EventPayload (V : Type 0) : Type 0 where
  agent_turn_started : (user_message : String) (language : Option String) → EventPayload V
  agent_turn_completed :
      (assistant_message : String) (input_tokens output_tokens tool_calls_made duration_ms : ℕ)
      (stop_reason : StopReason)
      → EventPayload V
  tool_invoked :
      (tool_name : String) (category : ToolCategory) (args_hash : String)
      (preview : Option (Preview V)) (confirmation : ConfirmationType)
      → EventPayload V
  tool_completed :
      (tool_name : String) (success : Bool) (duration_ms : ℕ) (result_hash : String)
      (preview : Option (Preview V))
      → EventPayload V
  llm_call_started : (provider model : String) → EventPayload V
  llm_call_completed :
      (provider model : String) (tokens : Tokens) (duration_ms : ℕ) → EventPayload V
  tool_failed : (tool_name error_class error_message : String) (duration_ms : ℕ) → EventPayload V

-- The client's buffer, with what was posted so far and in how many posts.
pub record Sdk (E : Type 0) : Type 0 where
  pub sent : List E
  pub posts : ℕ
  pub buffer : List E

-- The options of `wrap_tool`.
pub record ToolOptions (C : Type 0) : Type 0 where
  pub name : Option String
  pub category : ToolCategory
  pub confirmation : ConfirmationType
  pub context : Option C
  pub include_preview : Bool

abbrev pub Run : Type 0 → Type 0 → Type 0
Run E A = Outcome PyError A × Sdk E

unfoldable pub and_then : {E A B : Type 0} → Run E A → (A → Sdk E → Run E B) → Run E B
and_then (returned a, sdk) rest = rest a sdk
and_then (raised exc, sdk) rest = (raised exc, sdk)

unfoldable pub is_exception : Kind → Bool
is_exception type_error = true
is_exception other_exception = true
is_exception base_exception = false

unfoldable pub is_type_error : Kind → Bool
is_type_error type_error = true
is_type_error other_exception = false
is_type_error base_exception = false

-- What Python raises where `result` is read before it is bound.
abbrev pub unbound_local_error : PyError
unbound_local_error = record {
  kind = other_exception;
  class_name = "UnboundLocalError";
  message = "cannot access local variable 'result' where it is not associated with a value";
}

-- Python's `or` on values that are None or true.
unfoldable pub or_else : {A : Type 0} → Option A → Option A → Option A
or_else (some a) b = some a
or_else none b = b

unfoldable pub with_default : {A : Type 0} → A → Option A → A
with_default x (some a) = a
with_default x none = x

-- `name or fn.__name__`: the empty name is false.
unfoldable pub name_of_tool : Option String → String → String
name_of_tool none fn_name = fn_name
name_of_tool (some name) fn_name = if str_eq name "" then fn_name else name

abbrev pub Event : Type 0 → Type 0 → Type 0
Event C V = C × EventPayload V

unfoldable pub count_post : Option Post → ℕ → ℕ
count_post none posts = posts
count_post (some post) posts = posts + 1

unfoldable pub assistant_text : Option String → String
assistant_text (some text) = text
assistant_text none = ""

module _ {V : Type 0} (lib : Runtime V) where
  unfoldable pub hash_args : V → V → Outcome PyError String
  hash_args args kwargs = elim (lib.dumps_call args kwargs) [
    | returned blob ↦ returned (lib.sha256 blob)
    | raised exc ↦ raised exc
  ]

  -- The text that `_hash_result` hashes.
  unfoldable pub blob_of : V → Outcome PyError String
  blob_of result = elim (lib.dumps_sorted result) [
    | returned blob ↦ returned blob
    | raised exc ↦ if is_type_error exc.kind then lib.repr result else raised exc
  ]

  unfoldable pub hash_result : V → Outcome PyError String
  hash_result result = elim (blob_of result) [
    | returned blob ↦ returned (lib.sha256 blob)
    | raised exc ↦ raised exc
  ]

  unfoldable pub truncate_preview : ℕ → V → Option (Preview V)
  truncate_preview max_bytes obj = elim (lib.dumps obj) [
    | none ↦ none
    | some blob ↦ if ltb max_bytes (lib.byte_length blob) then none else some (("value", obj) ∷ [])
  ]

  unfoldable pub preview : Bool → V → Option (Preview V)
  preview include_preview obj = if include_preview then truncate_preview 2048 obj else none

  unfoldable pub outcome_of : Option Post → Outcome PyError (Unit {0})
  outcome_of none = returned tt
  outcome_of (some post) = elim post.outcome [
    | returned done ↦ returned tt
    | raised exc ↦ raised (lib.http_error exc)
  ]

  -- The events of the wrappers, built as their payloads are.
  module _ {C : Type 0} where
    unfoldable pub invoked_event : ToolOptions C → C → String → V → String → Event C V
    invoked_event options ctx name kwargs hash = (
      ctx,
      tool_invoked name options.category hash (preview options.include_preview kwargs)
          options.confirmation,
    )

    unfoldable pub failed_event : C → String → ℕ → PyError → Event C V
    failed_event ctx name duration_ms exc =
        (ctx, tool_failed name exc.class_name (lib.cut 1024 exc.message) duration_ms)

    unfoldable pub completed_event : C → String → Bool → ℕ → V → String → Event C V
    completed_event ctx name include_preview duration_ms result hash =
        (ctx, tool_completed name true duration_ms hash (preview include_preview result))

    unfoldable pub turn_completed : C → ℕ → StopReason → V → Event C V
    turn_completed ctx duration_ms stop_reason result = (
      ctx,
      agent_turn_completed (assistant_text (lib.as_text result)) 0 0 0 duration_ms stop_reason,
    )

  module _ (batch_size : ℕ) (network : ℕ → ℕ → Answer) where
    -- `client.emit` on the state of the SDK.
    unfoldable pub emit_to : {E : Type 0} → E → Sdk E → Run E (Unit {0})
    emit_to event sdk =
        let flush = emit batch_size event (network sdk.posts) sdk.buffer in
        (
          outcome_of flush.posted,
          record {
            sent = sdk.sent ++ flush.batch;
            posts = count_post flush.posted sdk.posts;
            buffer = flush.buffer;
          },
        )
