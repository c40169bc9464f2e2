-- ===== src/Examples/Sessions.antt =====
-- The theorems on the JSON-RPC session, at concrete inputs.
use responsibility_pathway_r.Prelude.{ℕ, Bool, true, false, ◌≡◌, refl, is_blank, strip}
use responsibility_pathway_r.Errors.{Error, ok}
use responsibility_pathway_r.Exec.{Exec, pure}
use responsibility_pathway_r.Value.{Value, pos, int, str, dict, end, entry}
use responsibility_pathway_r.Rpc.{Session, envelope, request}
use responsibility_pathway_r.Rpc.Correlation.{Answers, request-Answers}

abbrev no_float : Value → ℕ → Bool
no_float v n = false

abbrev pass_all : Error → Bool
pass_all e = true

-- A channel without a state that answers request 7 with an empty result.
abbrev exchange_example : Value → Exec (Unit {0}) Value
exchange_example message =
    pure (
      dict (entry "jsonrpc" (str "2.0") (entry "id" (int (pos 7)) (entry "result" (dict end) end))))

abbrev session_example : Session (Unit {0})
session_example = record { channel = tt; next_request_id = 7 }

request-Answers_example :
    (response : Value) × ((exchange_example (envelope 7 (strip "ping") end) tt).0 ≡ ok response)
    × Answers no_float 7 response end
unfolding request is_blank
request-Answers_example =
    request-Answers no_float exchange_example pass_all "ping" end end session_example
      (record { channel = tt; next_request_id = 8 }) refl
