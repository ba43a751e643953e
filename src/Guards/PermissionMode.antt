-- ===== src/Guards/PermissionMode.antt =====
-- goderash_sdk/guards/permission_mode.py: the gate that asks for confirmation by mode.
use goderash.Common.{
  String, Bool, true, false, Option, none, some, ◌≡◌, arith, if◌then◌else◌, not, ◌||◌,
}
use goderash.Events.{ToolCategory}
use goderash.Guards.{GoderashContext, GuardDecision, Call, Source, Decider, grant, deny}

pub data PermissionMode : Type 0 where
  plan default auto strict : PermissionMode

-- The callback is given the tool's name, "strict" or "default", and the arguments but for the
-- category; `none` is an exception.
abbrev pub ConfirmCallback : Type 0 → Type 0
ConfirmCallback F = String → String → String → Option String → Option F → Option Bool

pub record PermissionModeGate (F : Type 0) : Type 0 where
  pub mode : PermissionMode
  pub confirm : Option (ConfirmCallback F)

abbrev pub is_action : ToolCategory → Bool
is_action ToolCategory.action = true
is_action _ = false

answer : Option Bool → Bool
answer none = false
answer (some confirmed) = confirmed

module _ {F : Type 0} where
  unfoldable pub ask : PermissionModeGate F → String → Call F → Bool
  unfolding answer
  ask gate mode call = elim gate.confirm [
    | none ↦ false
    | some callback ↦
        answer (callback call.tool_name mode call.user_message call.user_id call.amount)
  ]

  pub by_mode : PermissionMode → PermissionModeGate F → Call F → GuardDecision F
  unfolding ask
  by_mode PermissionMode.plan gate call =
      if is_action call.category
      then deny Source.rule "PLAN mode: action tools are dry-run only" none
      else grant Source.rule (some "PLAN mode: read allowed")
  by_mode PermissionMode.auto gate call = grant Source.rule (some "AUTO mode")
  by_mode PermissionMode.strict gate call =
      if ask gate "strict" call
      then grant Source.user (some "STRICT mode: user confirmed")
      else deny Source.user "STRICT mode: user declined confirmation" none
  by_mode PermissionMode.default gate call =
      if is_action call.category
      then (if ask gate "default" call
          then grant Source.user (some "DEFAULT mode: user confirmed action")
          else deny Source.user "DEFAULT mode: user declined confirmation" none)
      else grant Source.rule (some "DEFAULT mode: read auto-allowed")

  unfoldable pub gate_evaluate : {S : Type 0} → PermissionModeGate F → Decider F S
  unfolding by_mode
  gate_evaluate gate ctx call s = (by_mode gate.mode gate call, s)

  -- Whether the gate lets a call pass.
  abbrev pub allows : PermissionModeGate F → Call F → Bool
  allows gate call = (by_mode gate.mode gate call).allow

  abbrev pub in_mode : PermissionMode → Option (ConfirmCallback F) → PermissionModeGate F
  in_mode mode confirm = record { mode = mode; confirm = confirm }

  -- If the callback answers a call alike in STRICT and in DEFAULT mode, then DEFAULT lets pass every
  -- call that STRICT lets pass; it lets pass every call that PLAN lets pass, which is no action;
  -- and AUTO lets every call pass.
  pub gate_strictness :
      (confirm : Option (ConfirmCallback F)) (call : Call F)
      → ask (in_mode PermissionMode.strict confirm) "strict" call
        ≡ ask (in_mode PermissionMode.default confirm) "default" call
      → let strict = allows (in_mode PermissionMode.strict confirm) call in
        let plan = allows (in_mode PermissionMode.plan confirm) call in
        let default = allows (in_mode PermissionMode.default confirm) call in
        ((not strict || default) ≡ true)
        × ((not plan || default) ≡ true)
        × ((not plan || not (is_action call.category)) ≡ true)
        × (allows (in_mode PermissionMode.auto confirm) call ≡ true)
  unfolding by_mode
  gate_strictness confirm call alike = ground arith

  -- The callback gives no answer: there is none, or it raises.
  abbrev pub IsSilent : Option (ConfirmCallback F) → Type 0
  IsSilent none = Unit {0}
  IsSilent (some callback) =
      (tool mode message : String) (user_id : Option String) (amount : Option F)
      → callback tool mode message user_id amount ≡ none

  -- Without an answer the gate fails safe: it lets a call pass exactly in AUTO mode, and in PLAN and
  -- DEFAULT mode if the call is no action. In every mode it leaves the state as it is.
  pub gate_fails_safe :
      {S : Type 0} (mode : PermissionMode) (confirm : Option (ConfirmCallback F))
      (ctx : GoderashContext) (call : Call F) (s : S)
      → IsSilent confirm
      → let (decision, s') = gate_evaluate (in_mode mode confirm) ctx call s in
        (decision.allow ≡ elim mode [
          | plan ↦ not (is_action call.category)
          | default ↦ not (is_action call.category)
          | auto ↦ true
          | strict ↦ false
        ])
        × (s' ≡ s)
  unfolding gate_evaluate
  gate_fails_safe PermissionMode.plan confirm ctx call s silent = ground arith
  gate_fails_safe PermissionMode.default none ctx call s silent = ground arith
  gate_fails_safe PermissionMode.default (some f) ctx call s silent =
      ground (arith, silent call.tool_name "default" call.user_message call.user_id call.amount)
  gate_fails_safe PermissionMode.auto confirm ctx call s silent = ground arith
  gate_fails_safe PermissionMode.strict none ctx call s silent = ground arith
  gate_fails_safe PermissionMode.strict (some f) ctx call s silent =
      ground (arith, silent call.tool_name "strict" call.user_message call.user_id call.amount)
