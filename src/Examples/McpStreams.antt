-- ===== src/Examples/McpStreams.antt =====
-- The theorems on the process, its streams and the evidence that is kept, at concrete inputs.
use responsibility_pathway_r.Prelude.{
  String, ℕ, Bool, true, false, ◌≡◌, ◌⊎◌, refl, none, some, [], ◌∷◌, arith, is_blank, strip,
}
use responsibility_pathway_r.Prelude.Trim.{is_trimmed}
use responsibility_pathway_r.Errors.{Error, ok, err}
use responsibility_pathway_r.Exec.{pure, raise}
use responsibility_pathway_r.Value.{Value, Fields, null, int, pos, str, dict, end, entry}
use responsibility_pathway_r.Execution.{ExecutionRequest, ExecutionResult, succeeded, bare_result}
use responsibility_pathway_r.Framing.{encode}
use responsibility_pathway_r.Mcp.Lifecycle.{Handle, Timeouts, shutdown, lifecycle_error}
use responsibility_pathway_r.Mcp.Lifecycle.Acts as A
use responsibility_pathway_r.Mcp.Lifecycle.Course as L
use responsibility_pathway_r.Mcp.Json.{strict_document}
use responsibility_pathway_r.Mcp.Tool.{validated_dispatch_parameters}
use responsibility_pathway_r.Mcp.SafeJson.{retained_evidence_error}
use responsibility_pathway_r.Mcp.Retained.{
  RetainedEvidence, build_mcp_retained_evidence, from_json, to_json,
}
use responsibility_pathway_r.Mcp.Retained.Binding.{valid-unretained}
use responsibility_pathway_r.Mcp.Retained.Checked.{IsKept, build-IsKept}
use responsibility_pathway_r.Mcp.Diagnostics.{feed_all, collected, feed_all-collected}
use responsibility_pathway_r.Mcp.Channel.{Duplex, Channel, Settings, out_of_fuel, write_from, send}
use responsibility_pathway_r.Mcp.Channel.Ends.{write_from-ends}
use responsibility_pathway_r.Mcp.Channel.Writes as W
use responsibility_pathway_r.Mcp.Server.{
  ReadModel, has_method, empty_params, initialize, handle, handle_all, response,
}
use responsibility_pathway_r.Mcp.Server.Handshake.{Handshake, answered-Handshake}
use responsibility_pathway_r.Examples.McpCalls.{hex_env, digest_example, mcp_request}

-- A process that never exits, so that every wait times out.
abbrev stubborn : Handle ℕ (Unit {0})
stubborn = record {
  close_stdin = pure tt;
  wait = λ timeout. raise lifecycle_error;
  terminate = pure tt;
  kill = pure tt;
  close_pipes = pure tt;
}

abbrev timeouts_example : Timeouts ℕ
timeouts_example = record {
  graceful_timeout_seconds = 5;
  terminate_timeout_seconds = 3;
  kill_timeout_seconds = 2;
}

abbrev always : Error → Bool
always e = true

shutdown-Closed_example : L.Closed timeouts_example always stubborn (
    shutdown
      (A.recording stubborn)
      timeouts_example
      always
      (record { process = ([], tt); result = none; closing = false }))
shutdown-Closed_example = L.shutdown-Closed timeouts_example always stubborn tt

valid-unretained_example :
    build_mcp_retained_evidence hex_env mcp_request (bare_result succeeded "done") none none "none"
    ≡ err retained_evidence_error
unfolding validated_dispatch_parameters is_blank strip strict_document
valid-unretained_example =
    valid-unretained hex_env mcp_request ("write", entry "path" (str "note.txt") end)
      (bare_result succeeded "done") none none "none" refl

abbrev admission_example : Fields
admission_example = entry "protocol_version" (str "2025-11-25") (
    entry "server_name" (str "server") (
      entry "server_version" (str "1") (
        entry "server_capabilities_sha256" (str digest_example)
          (entry "tool_name" (str "write") (entry "tool_schema_sha256" (str digest_example) end)))))

-- A request whose binding has the names that the evidence asks for.
abbrev retained_request : ExecutionRequest
retained_request = record {
  operation_id = "operation-1";
  attempt_id = "attempt-1";
  idempotency_key = "run-1";
  action = "mcp_tool_call";
  parameters = entry "mcp" (dict admission_example) end;
}

abbrev sent_result : ExecutionResult
sent_result = record {
  status = succeeded;
  evidence = entry "dispatch_state" (str "sent") end;
  readback = none;
  reason = none;
}

abbrev kept_example : RetainedEvidence
kept_example = record {
  payload = dict (
      entry "schema" (str "rpr.mcp.retained-evidence.v1") (
        entry "operation"
          (dict (
            entry "operation_id" (str "operation-1") (
              entry "attempt_id" (str "attempt-1")
                (entry "idempotency_key_sha256" (str digest_example) end))))
          (entry "admission" (dict admission_example) (
            entry "execution"
              (dict (
                entry "status" (str "succeeded") (
                  entry "dispatch_state" (str "sent")
                    (entry "reason" null (entry "readback" null end)))))
              (entry "process_exit" null
                (entry "diagnostics" null (entry "residual_boundary" (str "none") end)))))));
  sha256 = digest_example;
}

build-IsKept_example :
    IsKept hex_env kept_example
    × (from_json hex_env (some (to_json kept_example)) ≡ ok kept_example)
unfolding build_mcp_retained_evidence is_trimmed is_blank strip
build-IsKept_example =
    build-IsKept hex_env retained_request sent_result none none "none" kept_example (λ bytes. refl)
      refl

feed_all-collected_example :
    feed_all 3 ((1 ∷ 2 ∷ []) ∷ (3 ∷ 4 ∷ []) ∷ []) (record { buffer = []; truncated = false })
    ≡ collected 3 (1 ∷ 2 ∷ 3 ∷ 4 ∷ [])
feed_all-collected_example = feed_all-collected 3 ((1 ∷ 2 ∷ []) ∷ (3 ∷ 4 ∷ []) ∷ [])

abbrev settings_example : Settings
settings_example = record {
  max_message_bytes = 8;
  max_diagnostics_bytes = 8;
  max_events_per_exchange = 4;
  parse = λ line. ok (dict end);
  render = λ message. ok (97 ∷ 98 ∷ []);
}

-- A process that takes one byte at a time.
abbrev slow : Duplex (Unit {0})
slow = record { write_stdin = λ bs. pure (int (pos 1)); read_event = pure none }

abbrev idle_channel : {T : Type 0} → T → Channel T
idle_channel t = record {
  duplex = t;
  codec = record { buffer = []; poisoned = false };
  diagnostics = record { buffer = []; truncated = false };
  stdout_eof = false;
  stderr_eof = false;
}

write_from-ends_example : ¬ (
    (write_from settings_example slow always (97 ∷ 98 ∷ []) 2 (idle_channel tt)).0
    ≡ err out_of_fuel)
write_from-ends_example =
    write_from-ends settings_example slow always (97 ∷ 98 ∷ []) 2 (idle_channel tt)
      (λ bs t h. absurd (ground (arith, h))) (omega arith)

send-AreWritten_example :
    W.AreWritten []
      (97 ∷ 98 ∷ 10 ∷ [])
      (send settings_example (W.recording slow) always end (idle_channel ([], tt)))
unfolding encode
send-AreWritten_example =
    W.send-AreWritten settings_example slow always end (97 ∷ 98 ∷ 10 ∷ [])
      (record { buffer = []; poisoned = false }) (idle_channel ([], tt)) refl refl

abbrev model_example : ReadModel
model_example = record {
  status = ok (dict end);
  list_pathways = λ limit. ok (dict end);
  get_pathway = λ pathway_id. ok (dict end);
  get_route_visibility = λ pathway_id. ok (dict end);
  get_evidence = λ pathway_id limit. ok (dict end);
  list_unresolved = λ limit. ok (dict end);
}

abbrev message_of : String → Fields → Value
message_of method params = dict (
    entry "jsonrpc" (str "2.0")
      (entry "method" (str method) (entry "id" (int (pos 1)) (entry "params" (dict params) end))))

abbrev no_text : Value → String
no_text v = ""

abbrev no_words : Error → String
no_words e = ""

answered-Handshake_example :
    (has_method "initialize" (message_of "ping" end) ≡ true)
    ⊎ Handshake (
        message_of "initialize" (entry "protocolVersion" (str "2025-11-25") end)
        ∷ message_of "notifications/initialized" end
        ∷ [])
unfolding handle handle_all empty_params initialize
answered-Handshake_example =
    answered-Handshake model_example no_text no_words always
      (message_of "initialize" (entry "protocolVersion" (str "2025-11-25") end)
        ∷ message_of "notifications/initialized" end
        ∷ [])
      (message_of "ping" end) (response (int (pos 1)) (dict end)) refl
