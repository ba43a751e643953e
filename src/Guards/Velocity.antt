-- ===== src/Guards/Velocity.antt =====
-- goderash_sdk/guards/velocity.py: the in-memory counter and the limiter. Deques are lists, oldest
-- first, of times and amounts. `now` is what `time.time()` returns; windows and counts are not
-- negative. `int_text` is Python's `str` of a whole number, for the message of a denial.
pub mod Times
pub mod Sliding
pub mod Windows
use goderash.Common.{
  ℕ, ◌+◌, String, str_eq, ◌+s◌, Bool, Option, none, some, List, [], ◌∷◌, ◌++◌, map, leb,
  if◌then◌else◌, length,
}
use goderash.Int.{pos}
use goderash.Real.{Real}
use goderash.Json.{int, float, str, dict, Fields}
use goderash.Guards.{GoderashContext, GuardDecision, Call, Source, Decider, grant, deny, or_text}

pub record VelocityRule (F : Type 0) : Type 0 where
  pub window_seconds : ℕ
  pub max_count : Option ℕ
  pub max_amount : Option F
  pub label : String

pub record VelocityLimiter (F : Type 0) : Type 0 where
  pub rules_by_tool : List (String × List (VelocityRule F))

-- A time and an amount.
abbrev pub Deque : Type 0 → Type 0
Deque F = List (F × F)

-- `_events`
abbrev pub Events : Type 0 → Type 0
Events F = List (String × Deque F)

-- `amount or 0.0`
abbrev pub or_zero : {F : Type 0} → Real F → Option F → F
or_zero real none = real.zero
or_zero real (some amount) = amount

module _ {F : Type 0} where
  -- `self._events.get(key, ())`
  unfoldable pub deque_of : String → Events F → Deque F
  deque_of key [] = []
  deque_of key ((k, d) ∷ rest) = if str_eq k key then d else deque_of key rest

  -- `self._events[key].append(…)`
  unfoldable pub push : String → F × F → Events F → Events F
  push key e [] = (key, e ∷ []) ∷ []
  push key e ((k, d) ∷ rest) =
      let others = push key e rest in
      if str_eq k key then (k, d ++ e ∷ []) ∷ rest else (k, d) ∷ others

  unfoldable pub rules_of : String → List (String × List (VelocityRule F)) → List (VelocityRule F)
  rules_of tool [] = []
  rules_of tool ((k, rules) ∷ rest) = if str_eq k tool then rules else rules_of tool rest

module _ {F : Type 0} (real : Real F) where
  unfoldable pub record_event : String → Option F → F → Events F → Events F
  record_event key amount now events = push key (now, or_zero real amount) events

  -- `while d and d[0][0] < oldest: d.popleft()`
  unfoldable pub trim_deque : F → Deque F → Deque F
  trim_deque oldest [] = []
  trim_deque oldest ((t, a) ∷ d) =
      let rest = trim_deque oldest d in if real.lt t oldest then rest else (t, a) ∷ d

  unfoldable pub trim : String → F → Events F → Events F
  trim key oldest [] = []
  trim key oldest ((k, d) ∷ rest) =
      let others = trim key oldest rest in
      if str_eq k key then (k, trim_deque oldest d) ∷ rest else (k, d) ∷ others

  abbrev pub oldest_in : ℕ → F → F
  oldest_in window now = real.sub now (real.of_int (pos window))

  unfoldable pub count_in_window : String → ℕ → F → Events F → ℕ × Events F
  count_in_window key window now events =
      let events' = trim key (oldest_in window now) events in
      (length (deque_of key events'), events')

  unfoldable pub amount_in_window : String → ℕ → F → Events F → F × Events F
  amount_in_window key window now events =
      let events' = trim key (oldest_in window now) events in
      (real.sum (map (λ e. e.1) (deque_of key events')), events')

  module _ (int_text : ℕ → String) where
    abbrev count_denial : VelocityRule F → ℕ → ℕ → GuardDecision F
    count_denial rule n seen =
        deny Source.velocity
          ("velocity:"
            +s (or_text (some rule.label) "count"
                +s (" ("
                    +s (int_text seen
                        +s ("/"
                            +s (int_text n
                                +s (" in " +s (int_text rule.window_seconds +s "s)"))))))))
          (some (
            dict (
              ("rule", str rule.label)
              ∷ ("window_seconds", int (pos rule.window_seconds))
              ∷ ("limit", int (pos n))
              ∷ ("observed", int (pos seen))
              ∷ [])))

    abbrev amount_denial : VelocityRule F → F → F → GuardDecision F
    amount_denial rule limit projected =
        deny Source.velocity
          ("velocity:"
            +s (or_text (some rule.label) "amount"
                +s (" ("
                    +s (real.fixed projected
                        +s ("/"
                            +s (real.fixed limit
                                +s (" in " +s (int_text rule.window_seconds +s "s)"))))))))
          (some (
            dict (
              ("rule", str rule.label)
              ∷ ("window_seconds", int (pos rule.window_seconds))
              ∷ ("limit", float limit)
              ∷ ("projected", float projected)
              ∷ [])))

    -- `if rule.max_count is not None: …`: a denial, or none.
    unfoldable pub check_count :
        VelocityRule F → String → F → Events F → Option (GuardDecision F) × Events F
    check_count rule key now events = elim rule.max_count [
      | none ↦ (none, events)
      | some n ↦
          let (seen, events') = count_in_window key rule.window_seconds now events in
          (if leb n seen then some (count_denial rule n seen) else none, events')
    ]

    -- `if rule.max_amount is not None: …`
    unfoldable pub check_amount :
        VelocityRule F → String → Option F → F → Events F → Option (GuardDecision F) × Events F
    check_amount rule key amount now events = elim rule.max_amount [
      | none ↦ (none, events)
      | some limit ↦
          let (total, events') = amount_in_window key rule.window_seconds now events in
          let projected = real.add total (or_zero real amount) in
          (
            if real.lt limit projected then some (amount_denial rule limit projected) else none,
            events',
          )
    ]

    -- `for rule in rules: …`
    unfoldable pub check_rules :
        List (VelocityRule F)
        → String
        → Option F
        → F
        → Events F
        → Option (GuardDecision F) × Events F
    unfolding check_count check_amount
    check_rules [] key amount now events = (none, events)
    check_rules (rule ∷ rules) key amount now events =
        let (by_count, counted) = check_count rule key now events in
        let (by_amount, summed) = check_amount rule key amount now counted in
        let rest = check_rules rules key amount now summed in
        elim by_count [
          | some denial ↦ (some denial, counted)
          | none ↦ elim by_amount [ some denial ↦ (some denial, summed) | none ↦ rest ]
        ]

    abbrev pub key_of : GoderashContext → Call F → String
    key_of ctx call =
        ctx.tenant_id +s (":" +s (or_text call.user_id "anonymous" +s (":" +s call.tool_name)))

    -- What `evaluate` does after the loop: return the denial, or record the attempt.
    unfoldable pub settle :
        String → Option F → F → Option (GuardDecision F) × Events F → GuardDecision F × Events F
    settle key amount now (some denial, events) = (denial, events)
    settle key amount now (none, events) =
        (grant Source.rule (some "velocity ok"), record_event key amount now events)

    -- The rest of `evaluate` once the rules are known.
    unfoldable pub evaluate_rules : List (VelocityRule F) → F → Decider F (Events F)
    unfolding check_rules settle
    evaluate_rules [] now ctx call events = (grant Source.rule (some "no velocity rule"), events)
    evaluate_rules (rule ∷ rules) now ctx call events =
        settle (key_of ctx call) call.amount now
          (check_rules (rule ∷ rules) (key_of ctx call) call.amount now events)

    unfoldable pub velocity_evaluate : VelocityLimiter F → F → Decider F (Events F)
    unfolding evaluate_rules
    velocity_evaluate limiter now ctx call events =
        evaluate_rules (rules_of call.tool_name limiter.rules_by_tool) now ctx call events
