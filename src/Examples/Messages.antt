-- ===== src/Examples/Messages.antt =====
-- The theorems on the message executor and on the schemas, at concrete inputs.
use responsibility_pathway_r.Prelude.{
  none, ◌==◌, if◌then◌else◌, ℕ, String, Bool, true, false, ◌≡◌, refl, [], ◌∷◌,
}
use responsibility_pathway_r.Errors.{Error, Result, ok, err, value_error}
use responsibility_pathway_r.Exec.{pure}
use responsibility_pathway_r.Value.{Value, Fields, ℤ, pos, bool, str, end, entry}
use responsibility_pathway_r.Models.{proposed}
use responsibility_pathway_r.Execution.{ExecutionRequest}
use responsibility_pathway_r.Message.{Messaging, finish, receipt_value, execute, execute_all}
use responsibility_pathway_r.Message.Once.{Distinct, Sender, recording, unused, send-once}
use responsibility_pathway_r.Message.Replay.{written, execute-again}
use responsibility_pathway_r.Schema.{Schema}
use responsibility_pathway_r.Schema.Open.{Database, Opened, open_store, open_store-Opened}
use responsibility_pathway_r.Examples.{text_example, env_example}

abbrev message_request : ExecutionRequest
message_request = record {
  operation_id = "operation-1";
  attempt_id = "attempt-1";
  idempotency_key = "message-1";
  action = "send_message";
  parameters = entry "recipient" (str "desk") (entry "body" (str "hello") end);
}

abbrev dumps_example : Value → Result String
dumps_example v = ok "parameters"

abbrev same_text : String → String
same_text s = s

abbrev never : ℕ → Bool
never n = false

abbrev no_os_error : Error → Bool
no_os_error e = false

abbrev receipt_example : Fields
receipt_example =
    entry "message_id" (str "m-1") (entry "accepted" (bool true) (entry "durable" (bool true) end))

-- A transport that accepts every message.
abbrev accepting : Sender (Unit {0})
accepting recipient subject body key = pure receipt_example

abbrev empty_outbox : Messaging (Unit {0})
empty_outbox = record { outbox = record { rows = []; writes = 0 }; transport = tt }

send-once_example :
    Distinct
      (execute_all text_example dumps_example same_text never
        (recording accepting)
        no_os_error
        (message_request ∷ message_request ∷ [])
        (unused tt 0)).transport.0
send-once_example =
    send-once text_example dumps_example same_text never accepting no_os_error
      (message_request ∷ message_request ∷ []) tt 0

execute-again_example :
    execute text_example dumps_example same_text never accepting no_os_error message_request
      (execute text_example dumps_example same_text never accepting no_os_error message_request
        empty_outbox).1
    ≡ (
      (execute text_example dumps_example same_text never accepting no_os_error message_request
          empty_outbox).0,
      written
          (execute text_example dumps_example same_text never accepting no_os_error message_request
            empty_outbox).1,
    )
unfolding execute finish receipt_value
execute-again_example =
    execute-again text_example dumps_example same_text never accepting no_os_error message_request
      empty_outbox refl refl

abbrev parse_example : String → Result ℤ
parse_example t = if t == "1" then ok (pos 1) else err value_error

-- A database of the time before fingerprints, without a version.
abbrev old_schema : Schema
old_schema = record {
  tables = record { table_name = "pathways"; columns = "pathway_id" ∷ "definition_json" ∷ [] } ∷ [];
  indexes = [];
  version = none;
}

-- A pathway of that time, whose fingerprint is missing.
abbrev old_database : Database
old_database = record {
  schema = old_schema;
  rows =
      record {
        pathway_id = "pathway-1";
        definition = end;
        fingerprint = "";
        state = proposed;
        idempotency_key = "key-1";
      }
      ∷ [];
}

-- The backfill fails.
open_store_example :
    Opened parse_example env_example false true old_database
      (open_store parse_example env_example false true old_database)
open_store_example = open_store-Opened env_example parse_example false true old_database refl
