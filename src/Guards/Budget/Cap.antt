-- ===== src/Guards/Budget/Cap.antt =====
-- goderash_sdk/guards/budget.py: how often a conversation is granted a call.
use goderash.Common.{
  ℕ, ◌+◌, ◌-◌, ◌≤◌, min, String, eq_iff, eq_refl, str_eq, ◌≡◌, refl, none, some, List, [], ◌∷◌,
  arith, if◌then◌else◌, length, Bool-cases, leb, inl, inr,
}
use goderash.Guards.{GoderashContext, Call}
use goderash.Guards.Budget.{
  ConversationBudget, ConversationBudgetState, unused, entry, put, remove, consume_tokens, reset,
  budget_evaluate,
}

pub entry-put :
    (c k : String) (s : ConversationBudgetState) (l : List (String × ConversationBudgetState))
    → entry k (put c s l) ≡ (if str_eq c k then s else entry k l)
unfolding entry put
entry-put c k s [] = refl
entry-put c k s ((j, w) ∷ l) = ground (arith, eq_iff c k, eq_iff j c, eq_iff j k, entry-put c k s l)

pub entry-remove :
    (c k : String) (l : List (String × ConversationBudgetState))
    → entry k (remove c l) ≡ (if str_eq c k then unused else entry k l)
unfolding entry remove
entry-remove c k [] = ground arith
entry-remove c k ((j, w) ∷ l) =
    ground (arith, eq_iff c k, eq_iff j c, eq_iff j k, entry-remove c k l)

-- The calls that other code makes of one budget.
pub data Operation (F : Type 0) : Type 0 where
  evaluate : GoderashContext → Call F → Operation F
  consume : String → ℕ → Operation F
  forget : String → Operation F

-- No conversation has more than `n` calls on its account.
abbrev pub WithinCap : ℕ → ConversationBudget → Type 0
WithinCap n b =
    (b.max_tool_calls ≡ some n) × ((c : String) → (entry c b.state_by_conv).tool_calls_used ≤ n)

abbrev capped : ℕ → List (String × ConversationBudgetState) → ConversationBudget
capped n states = record { max_tool_calls = some n; max_tokens = none; state_by_conv = states }

abbrev one_more : ConversationBudgetState → ConversationBudgetState
one_more s = record { tokens_used = s.tokens_used; tool_calls_used = s.tool_calls_used + 1 }

module _ {F : Type 0} (int_text : ℕ → String) where
  pub apply : Operation F → ConversationBudget → ConversationBudget
  apply (evaluate ctx call) b = (budget_evaluate int_text ctx call b).1
  apply (consume c tokens) b = consume_tokens c tokens b
  apply (forget c) b = reset c b

  pub apply_all : List (Operation F) → ConversationBudget → ConversationBudget
  apply_all [] b = b
  apply_all (op ∷ ops) b = apply_all ops (apply op b)

  apply-WithinCap :
      (n : ℕ) (op : Operation F) (b : ConversationBudget) → WithinCap n b → WithinCap n (apply op b)
  unfolding apply budget_evaluate consume_tokens reset
  apply-WithinCap n (evaluate ctx call) b (limit, h) = (
    ground arith,
    λ c. ground (
      arith,
      h c,
      h ctx.conversation_id,
      entry-put ctx.conversation_id c
          (record {
            tokens_used = (entry ctx.conversation_id b.state_by_conv).tokens_used;
            tool_calls_used = (entry ctx.conversation_id b.state_by_conv).tool_calls_used + 1;
          })
          b.state_by_conv,
    ),
  )
  apply-WithinCap n (consume k tokens) b (limit, h) = (
    limit,
    λ c. ground (
      arith,
      h c,
      h k,
      entry-put k c
          (record {
            tokens_used = (entry k b.state_by_conv).tokens_used + tokens;
            tool_calls_used = (entry k b.state_by_conv).tool_calls_used;
          })
          b.state_by_conv,
    ),
  )
  apply-WithinCap n (forget k) b (limit, h) =
      (limit, λ c. ground (arith, h c, entry-remove k c b.state_by_conv))

  -- From a budget whose cap on tool calls no account exceeds, no sequence of `evaluate`,
  -- `consume_tokens` and `reset` makes an account exceed it.
  pub apply_all-WithinCap :
      (n : ℕ) (ops : List (Operation F)) (b : ConversationBudget)
      → WithinCap n b
      → WithinCap n (apply_all ops b)
  unfolding apply_all
  apply_all-WithinCap n [] b h = h
  apply_all-WithinCap n (op ∷ ops) b h =
      apply_all-WithinCap n ops (apply op b) (apply-WithinCap n op b h)

  -- The grants in a row of calls of `evaluate`.
  unfoldable pub grants : List (GoderashContext × Call F) → ConversationBudget → ℕ
  grants [] b = 0
  grants ((ctx, call) ∷ calls) b =
      let (decision, b') = budget_evaluate int_text ctx call b in
      let rest = grants calls b' in if decision.allow then rest + 1 else rest

  abbrev pub AllIn : String → List (GoderashContext × Call F) → Type 0
  AllIn c [] = Unit {0}
  AllIn c ((ctx, call) ∷ calls) = (ctx.conversation_id ≡ c) × AllIn c calls

  grants-capped :
      (n : ℕ) (calls : List (GoderashContext × Call F)) (c : String)
      (states : List (String × ConversationBudgetState))
      → AllIn c calls
      → grants calls (capped n states) ≡ min (length calls) (n - (entry c states).tool_calls_used)
  unfolding grants budget_evaluate
  grants-capped n [] c states all = omega arith
  grants-capped n ((ctx, call) ∷ calls) c states (here, all) =
      elim (Bool-cases (leb n (entry ctx.conversation_id states).tool_calls_used)) [
        | inl out ↦ rw out (ground (arith, grants-capped n calls c states all))
        | inr left ↦
            let after =
              put ctx.conversation_id (one_more (entry ctx.conversation_id states)) states in
            rw left (
              ground (
                arith,
                eq_refl c,
                grants-capped n calls c after all,
                entry-put ctx.conversation_id c (one_more (entry ctx.conversation_id states))
                    states,
              ))
      ]

  -- With no limit on tokens and a cap of `n` tool calls, of any calls of `evaluate` in one
  -- conversation that has used `used` exactly the first `n - used` are granted: as many as there
  -- are calls, and at most what is left.
  pub grants-eq-min :
      (n : ℕ) (c : String) (calls : List (GoderashContext × Call F)) (b : ConversationBudget)
      → b.max_tool_calls ≡ some n
      → b.max_tokens ≡ none
      → AllIn c calls
      → grants calls b ≡ min (length calls) (n - (entry c b.state_by_conv).tool_calls_used)
  grants-eq-min n c calls b limit free all =
      rw (limit, free) (grants-capped n calls c b.state_by_conv all)
