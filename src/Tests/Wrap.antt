-- ===== src/Tests/Wrap.antt =====
-- Wrapped tools and agents: runs, and the theorems about them.
use goderash.Common.{ℕ, String, ◌≡◌, refl, false, none, some, [], ◌∷◌, returned, raised}
use goderash.Events.{query, pin}
use goderash.Http.{Answer, status}
use goderash.Client.{PostError}
use goderash.Wrap.{
  other_exception, PyError, Runtime, Sdk, Run, ToolOptions, Event, hash_args, preview,
  invoked_event, failed_event, emit_to, outcome_of, count_post, and_then, or_else, with_default,
  name_of_tool, is_exception, agent_turn_started, unbound_local_error, tool_invoked, tool_failed,
}
use goderash.Wrap.Functions.{close_tool, wrap_tool, close_agent, wrap_agent}
use goderash.Wrap.Brackets.{Brackets}
use goderash.Wrap.Calls.{
  tool_closing, tool_outcome, agent_closing, agent_outcome, wrap_tool-Brackets, wrap_agent-Brackets,
}

abbrev error : String → PyError
error message = record { kind = other_exception; class_name = "ValueError"; message = message }

-- Values are texts, and a text is its own dump.
abbrev texts : Runtime String
texts = record {
  dumps_call = λ args kwargs. returned args;
  dumps_sorted = λ text. returned text;
  dumps = λ text. some text;
  repr = λ text. returned text;
  sha256 = λ text. text;
  byte_length = λ text. 1;
  cut = λ n text. text;
  as_text = λ text. some text;
  http_error = λ exc. error "http";
}

abbrev accepting : ℕ → ℕ → Answer
accepting flush attempt = status 200

abbrev empty : Sdk (Event String String)
empty = record { sent = []; posts = 0; buffer = [] }

abbrev options : ToolOptions String
options = record {
  name = none;
  category = query;
  confirmation = pin;
  context = some "turn";
  include_preview = false;
}

abbrev refuses : String → String → Sdk (Event String String) → Run (Event String String) String
refuses args kwargs sdk = (raised (error "refused"), sdk)

wrap_tool-run : wrap_tool texts 10 accepting options "lookup" refuses none "a" "k" 5 empty ≡ (
  raised (error "refused"),
  record {
    sent = [];
    posts = 0;
    buffer =
        ("turn", tool_invoked "lookup" query "a" none pin)
        ∷ ("turn", tool_failed "lookup" "ValueError" "refused" 5)
        ∷ [];
  },
)
unfolding wrap_tool or_else hash_args name_of_tool invoked_event preview emit_to and_then outcome_of
    count_post close_tool failed_event is_exception goderash.Client.emit
wrap_tool-run = refl

wrap_tool-Brackets_example :
    Brackets texts 10 accepting
      (invoked_event texts options "turn" (name_of_tool none "lookup") "k" "a")
      (tool_closing texts options "turn" (name_of_tool none "lookup") 5)
      (tool_outcome texts)
      (refuses "a" "k")
      empty
      (wrap_tool texts 10 accepting options "lookup" refuses none "a" "k" 5 empty)
unfolding or_else hash_args
wrap_tool-Brackets_example =
    wrap_tool-Brackets texts 10 accepting options "lookup" refuses none "a" "k" 5 empty "turn" "a"
      refl refl

abbrev refuses_turn :
    String → String → String → String → Sdk (Event String String) → Run (Event String String) String
refuses_turn ctx user_message args kwargs sdk = (raised (error "refused"), sdk)

wrap_agent-run :
    wrap_agent texts 10 accepting none "new" none refuses_turn none "hi" "a" "k" 5 empty ≡ (
      raised unbound_local_error,
      record { sent = []; posts = 0; buffer = ("new", agent_turn_started "hi" none) ∷ [] },
    )
unfolding wrap_agent with_default or_else emit_to and_then outcome_of count_post close_agent
    goderash.Client.emit
wrap_agent-run = refl

wrap_agent-Brackets_example :
    Brackets texts 10 accepting
      (with_default "new" (or_else none none), agent_turn_started "hi" none)
      (agent_closing texts (with_default "new" (or_else none none)) 5)
      agent_outcome
      (refuses_turn (with_default "new" (or_else none none)) "hi" "a" "k")
      empty
      (wrap_agent texts 10 accepting none "new" none refuses_turn none "hi" "a" "k" 5 empty)
wrap_agent-Brackets_example =
    wrap_agent-Brackets texts 10 accepting none "new" none refuses_turn none "hi" "a" "k" 5 empty
