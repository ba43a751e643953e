-- ===== src/Tests/Velocity.antt =====
-- The velocity limiter: runs, and the theorems about it. Times and amounts are whole numbers.
use goderash.Common.{ℕ, ◌≡◌, refl, some, [], ◌∷◌, arith}
use goderash.Tests.Sample.{whole, no_text}
use goderash.Real.{OrderLaws}
use goderash.Events.{ToolCategory}
use goderash.Guards.{GoderashContext, Call}
use goderash.Guards.Velocity.{
  evaluate_rules, check_rules, check_count, check_amount, count_in_window, settle, record_event,
  trim, trim_deque, deque_of, push,
}
use goderash.Guards.Velocity.Times.{done, next}
use goderash.Guards.Velocity.Sliding.{
  WindowLaws, sliding, counting, granted_times, granted_times-sliding,
}

whole_laws : OrderLaws whole
whole_laws = record {
  lt_irrefl = λ a. ground arith;
  lt_trans = λ a b c h k. ground arith;
  not_lt_trans = λ a b c h k. ground arith;
}

minute_laws : WindowLaws whole 60
minute_laws = record {
  order = whole_laws;
  sub_le = λ now. ground arith;
  sub_mono = λ last now h. ground arith;
}

abbrev turn : GoderashContext
turn = record { tenant_id = "acme"; agent_id = "ops-v1"; conversation_id = "c1"; turn_id = "t1" }

abbrev wire : Call ℕ
wire = record {
  tool_name = "wire";
  category = ToolCategory.action;
  user_message = "";
  user_id = some "u1";
  amount = some 50;
}

-- Two calls a minute.
granted_five :
    granted_times whole no_text turn wire
      (counting whole 60 2 "" ∷ [])
      []
      (100 ∷ 110 ∷ 150 ∷ 161 ∷ 165 ∷ [])
    ≡ 100 ∷ 110 ∷ 161 ∷ []
unfolding granted_times evaluate_rules check_rules check_count check_amount count_in_window settle
    record_event trim trim_deque deque_of push
granted_five = refl

-- Two calls a minute and three an hour: the second rule never denies.
granted_hour :
    granted_times whole no_text turn wire
      (counting whole 60 2 "" ∷ counting whole 3600 3 "" ∷ [])
      []
      (4000 ∷ 4010 ∷ 4070 ∷ 4080 ∷ 4140 ∷ [])
    ≡ 4000 ∷ 4010 ∷ 4070 ∷ 4080 ∷ 4140 ∷ []
unfolding granted_times evaluate_rules check_rules check_count check_amount count_in_window settle
    record_event trim trim_deque deque_of push
granted_hour = refl

granted_times-sliding_example :
    granted_times whole no_text turn wire (counting whole 60 2 "" ∷ []) [] (100 ∷ 110 ∷ 150 ∷ [])
    ≡ sliding whole 2 60 [] (100 ∷ 110 ∷ 150 ∷ [])
unfolding deque_of
granted_times-sliding_example =
    granted_times-sliding whole no_text turn wire 2 60 "" minute_laws 90 150 (100 ∷ 110 ∷ 150 ∷ [])
      [] refl (next refl (next refl (next refl (done refl))))
