-- ===== src/Guards/Budget.antt =====
-- goderash_sdk/guards/budget.py: tokens and tool calls of each conversation. Each method holds the
-- lock for as long as it reads and writes, so calls are steps of one sequence. Limits and token
-- counts are not negative. `int_text` is
-- Python's `str` of a whole number, for the message of a denial.
pub mod Cap
use goderash.Common.{
  ℕ, ◌+◌, String, str_eq, ◌+s◌, Bool, Option, none, some, List, [], ◌∷◌, leb, if◌then◌else◌,
}
use goderash.Guards.{GoderashContext, GuardDecision, Call, Source, Decider, grant, deny}

pub record ConversationBudgetState : Type 0 where
  pub tokens_used : ℕ
  pub tool_calls_used : ℕ

-- The limits, and the table of states.
pub record ConversationBudget : Type 0 where
  pub max_tool_calls : Option ℕ
  pub max_tokens : Option ℕ
  pub state_by_conv : List (String × ConversationBudgetState)

abbrev pub unused : ConversationBudgetState
unused = record { tokens_used = 0; tool_calls_used = 0 }

-- `self._state_by_conv[conversation_id]`, a `defaultdict`
unfoldable pub entry : String → List (String × ConversationBudgetState) → ConversationBudgetState
entry c [] = unused
entry c ((k, s) ∷ rest) = if str_eq k c then s else entry c rest

-- The change of one entry.
unfoldable pub put :
    String
    → ConversationBudgetState
    → List (String × ConversationBudgetState)
    → List (String × ConversationBudgetState)
put c s [] = (c, s) ∷ []
put c s ((k, old) ∷ rest) = if str_eq k c then (k, s) ∷ rest else (k, old) ∷ put c s rest

-- `pop(conversation_id, None)`
unfoldable pub remove :
    String → List (String × ConversationBudgetState) → List (String × ConversationBudgetState)
remove c [] = []
remove c ((k, s) ∷ rest) =
    let others = remove c rest in if str_eq k c then others else (k, s) ∷ others

abbrev pub with_states :
    List (String × ConversationBudgetState) → ConversationBudget → ConversationBudget
with_states states budget = record budget { state_by_conv = states }

unfoldable pub consume_tokens : String → ℕ → ConversationBudget → ConversationBudget
consume_tokens c tokens budget =
    let state = entry c budget.state_by_conv in
    with_states
      (put c (record state { tokens_used = state.tokens_used + tokens }) budget.state_by_conv)
      budget

unfoldable pub reset : String → ConversationBudget → ConversationBudget
reset c budget = with_states (remove c budget.state_by_conv) budget

-- `limit is not None and used >= limit`
abbrev pub exhausted : Option ℕ → ℕ → Bool
exhausted none used = Bool.false
exhausted (some limit) used = leb limit used

abbrev pub limit_of : Option ℕ → ℕ
limit_of none = 0
limit_of (some limit) = limit

abbrev fraction : (ℕ → String) → String → ℕ → Option ℕ → String
fraction int_text words used limit =
    words +s ("(" +s (int_text used +s ("/" +s (int_text (limit_of limit) +s ")"))))

module _ {F : Type 0} (int_text : ℕ → String) where
  unfoldable pub budget_evaluate : Decider F ConversationBudget
  budget_evaluate ctx call budget =
      let state = entry ctx.conversation_id budget.state_by_conv in
      if exhausted budget.max_tool_calls state.tool_calls_used
      then (
        deny Source.budget
            (fraction int_text "tool-call budget exhausted " state.tool_calls_used
              budget.max_tool_calls)
            none,
        budget,
      )
      else if exhausted budget.max_tokens state.tokens_used
      then (
        deny Source.budget
            (fraction int_text "token budget exhausted " state.tokens_used budget.max_tokens) none,
        budget,
      )
      else (
        grant Source.rule (some "budget ok"),
        with_states
            (put ctx.conversation_id (record state { tool_calls_used = state.tool_calls_used + 1 })
              budget.state_by_conv)
            budget,
      )
