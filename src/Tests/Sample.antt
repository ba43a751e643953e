-- ===== src/Tests/Sample.antt =====
-- Test data: a toy digest in place of SHA-256, a toy canonical form, and a small ledger.
use text.Mathlib.TextLemmas.{length-append, length-cons}
use goderash.Common.{
  ◌==◌, ltb, leb, List, [], ◌∷◌, ◌-◌, ℕ, zero, suc, ◌+◌, String, ◌+s◌, count, ◌≡◌, refl, ap, ◌∙◌,
  none, arith,
}
use goderash.Int.{pos, pos_part}
use goderash.Real.{Real}
use goderash.Json.{Fields, end, field, str}
use goderash.Events.{
  GoderashEventEnvelope, GoderashEventPayload, permission_granted, permission_denied, GrantSource,
  DenySource,
}
use goderash.Ledger.Chain.{Hasher}

abbrev pad : ℕ → String → String
pad zero s = String.[]
pad (suc n) String.[] = "0" +s pad n String.[]
pad (suc n) (String.◌∷◌ c s) = String.◌∷◌ c (pad n s)

abbrev pub drop : ℕ → String → String
drop zero s = s
drop (suc n) String.[] = String.[]
drop (suc n) (String.◌∷◌ c s) = drop n s

count-pad : (n : ℕ) (s : String) → count (pad n s) ≡ n
count-pad zero s = refl
count-pad (suc n) String.[] =
    length-append "0" (pad n String.[]) ∙ omega (arith, count-pad n String.[])
count-pad (suc n) (String.◌∷◌ c s) = length-cons c (pad n s) ∙ ap suc (count-pad n s)

-- 64 characters that depend on what follows the previous digest; never the genesis sentinel.
abbrev digest : String → String
digest s = "f" +s pad 63 (drop 65 s +s s)

pub count-digest : (s : String) → count (digest s) ≡ 64
count-digest s =
    length-append "f" (pad 63 (drop 65 s +s s)) ∙ omega (arith, count-pad 63 (drop 65 s +s s))

-- The texts among the values, one behind another; floats are numbers here.
abbrev text_of : Fields ℕ → String
text_of end = ""
text_of (field k (str v) rest) = v +s ("," +s text_of rest)
text_of (field k v rest) = text_of rest

abbrev pub toy : Hasher (Fields ℕ)
toy = record { sha256 = digest; canonical_json = text_of; jsonb = λ d. d }

abbrev pub envelope : ℕ → String → GoderashEventPayload ℕ → GoderashEventEnvelope ℕ
envelope i t p = record {
  event_id = i;
  tenant_id = t;
  agent_id = "ops-v1";
  conversation_id = "c1";
  turn_id = "t1";
  parent_event_id = none;
  schema_version = pos 1;
  occurred_at = 100 + i;
  recorded_at = none;
  payload = p;
  prev_hash = none;
  hash = none;
}

abbrev pub granted : String → GoderashEventPayload ℕ
granted tool =
    permission_granted (record { tool_name = tool; source = GrantSource.rule; reason = none })

abbrev pub denied : String → GoderashEventPayload ℕ
denied tool =
    permission_denied (record { tool_name = tool; source = DenySource.velocity; reason = "limit" })

abbrev pub e1 : GoderashEventEnvelope ℕ
e1 = envelope 1 "acme" (granted "lookup")

abbrev pub e2 : GoderashEventEnvelope ℕ
e2 = envelope 2 "acme" (denied "wire")

abbrev pub e3 : GoderashEventEnvelope ℕ
e3 = envelope 3 "acme" (granted "wire")

-- Whole numbers in place of floats.
abbrev total : List ℕ → ℕ
total [] = 0
total (n ∷ ns) = n + total ns

abbrev pub whole : Real ℕ
whole = record {
  zero = 0;
  of_int = pos_part;
  add = λ a b. a + b;
  sub = λ a b. a - b;
  sum = total;
  lt = ltb;
  le = leb;
  is_zero = λ n. n == 0;
  parse = λ s. none;
  fixed = λ n. "";
}

abbrev pub no_text : ℕ → String
no_text n = ""
