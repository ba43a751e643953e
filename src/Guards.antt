-- ===== src/Guards.antt =====
-- goderash_sdk/guards/chain.py: decisions, and the chain that runs guards in order. The guards of
-- one chain share a state `S`; a guard that mutates its own object acts on its part of `S`. `Call`
-- holds the keyword arguments that the guards read; `client.emit` is the event that comes back.
pub mod Budget
pub mod Velocity
pub mod PermissionMode
pub mod Fraud
pub mod Cancellation
pub mod Run
use goderash.Common.{
  String, Bool, true, false, Option, none, some, List, [], ◌∷◌, Outcome, returned, raised, str_eq,
  if◌then◌else◌,
}
use goderash.Client.{PostError}
use goderash.Json.{Fields}
use goderash.Events.{
  ToolCategory, DenySource, GrantSource, GoderashEventPayload, permission_granted,
  permission_denied,
}

-- client.py
pub record GoderashContext : Type 0 where
  pub tenant_id : String
  pub agent_id : String
  pub conversation_id : String
  pub turn_id : String

pub data Source : Type 0 where
  rule user hook classifier fraud_guard velocity budget bypass : Source

pub record GuardDecision (F : Type 0) : Type 0 where
  pub allow : Bool
  pub source : Source
  pub reason : Option String
  pub details : Option (Fields F)

pub record Call (F : Type 0) : Type 0 where
  pub tool_name : String
  pub category : ToolCategory
  pub user_message : String
  pub user_id : Option String
  pub amount : Option F

-- pydantic refuses an event whose `source` is none of its literals; a guard raises an exception of
-- its own; or the post of an event fails.
pub data GuardError : Type 0 where
  validation : GuardError
  guard_error : String → GuardError
  post_failed : PostError → GuardError

-- `s or default`
abbrev pub or_text : Option String → String → String
or_text none d = d
or_text (some s) d = if str_eq s "" then d else s

-- A guard decides or raises; the guards of this package decide.
abbrev pub Guard : Type 0 → Type 0 → Type 0
Guard F S = GoderashContext → Call F → S → Outcome GuardError (GuardDecision F) × S

abbrev pub Decider : Type 0 → Type 0 → Type 0
Decider F S = GoderashContext → Call F → S → GuardDecision F × S

abbrev pub as_guard : {F S : Type 0} → Decider F S → Guard F S
as_guard decider ctx call s = let (decision, s') = decider ctx call s in (returned decision, s')

-- The literals of `PermissionDenied.source`.
unfoldable pub deny_source : Source → Outcome GuardError DenySource
deny_source Source.rule = returned DenySource.rule
deny_source Source.user = returned DenySource.user
deny_source Source.hook = returned DenySource.hook
deny_source Source.classifier = returned DenySource.classifier
deny_source Source.fraud_guard = returned DenySource.fraud_guard
deny_source Source.velocity = returned DenySource.velocity
deny_source Source.budget = returned DenySource.budget
deny_source Source.bypass = raised validation

-- What a chain gives back: the decision, or an exception; the emitted events; the guards' state.
pub record ChainResult (F S : Type 0) : Type 0 where
  pub decision : Outcome GuardError (GuardDecision F)
  pub emitted : List (GoderashEventPayload F)
  pub state : S

-- How a call of `client.emit` ends: it raises if the post of a full buffer fails.
abbrev pub Send : Type 0 → Type 0
Send F = GoderashEventPayload F → Outcome GuardError (Unit {0})

module _ {F : Type 0} where
  abbrev pub grant : Source → Option String → GuardDecision F
  grant source reason = record { allow = true; source = source; reason = reason; details = none }

  abbrev pub deny : Source → String → Option (Fields F) → GuardDecision F
  deny source reason details = record {
    allow = false;
    source = source;
    reason = some reason;
    details = details;
  }

  -- The event of a denial.
  unfoldable pub denied_event :
      Call F → GuardDecision F → Outcome GuardError (GoderashEventPayload F)
  unfolding deny_source
  denied_event call decision = elim (deny_source decision.source) [
    | raised e ↦ raised e
    | returned source ↦ returned (
        permission_denied (record {
          tool_name = call.tool_name;
          source = source;
          reason = or_text decision.reason "denied";
        }))
  ]

  abbrev pub granted_event : Call F → GoderashEventPayload F
  granted_event call = permission_granted (record {
    tool_name = call.tool_name;
    source = GrantSource.rule;
    reason = some "all guards passed";
  })

  -- `client.emit(ctx, event); return decision`
  unfoldable pub announce :
      {S : Type 0} → Send F → GoderashEventPayload F → GuardDecision F → S → ChainResult F S
  announce send event decision s = record {
    decision = elim (send event) [ raised e ↦ raised e | returned done ↦ returned decision ];
    emitted = event ∷ [];
    state = s;
  }

  -- `if emit: client.emit(ctx, PermissionDenied(…)); return decision`
  unfoldable pub refuse :
      {S : Type 0} → Send F → Bool → Call F → GuardDecision F → S → ChainResult F S
  unfolding denied_event announce
  refuse send false call decision s = record {
    decision = returned decision;
    emitted = [];
    state = s;
  }
  refuse send true call decision s = elim (denied_event call decision) [
    | raised e ↦ record { decision = raised e; emitted = []; state = s }
    | returned event ↦ announce send event decision s
  ]

  -- `GuardChain(*guards).evaluate(client, ctx, tool_name=…, emit=…, **kwargs)`
  unfoldable pub evaluate :
      {S : Type 0}
      → Send F
      → List (Guard F S)
      → Bool
      → GoderashContext
      → Call F
      → S
      → ChainResult F S
  unfolding refuse announce
  evaluate send [] emit ctx call s =
      if emit
      then announce send (granted_event call) (grant Source.rule none) s
      else record { decision = returned (grant Source.rule none); emitted = []; state = s }
  evaluate send (guard ∷ guards) emit ctx call s =
      let (outcome, s') = guard ctx call s in
      let rest = evaluate send guards emit ctx call s' in
      elim outcome [
        | raised e ↦ record { decision = raised e; emitted = []; state = s' }
        | returned decision ↦ if decision.allow then rest else refuse send emit call decision s'
      ]
