-- ===== src/Examples/McpCalls.antt =====
-- The theorems on the admission, the preparation and the dispatch of MCP calls, at concrete inputs.
use responsibility_pathway_r.Prelude.{
  ℕ, String, Bool, true, false, ◌≡◌, refl, Option, none, some, List, [], ◌∷◌, strip,
}
use responsibility_pathway_r.Errors.{ok}
use responsibility_pathway_r.Exec.{Exec, pure, raise}
use responsibility_pathway_r.Value.{Value, Fields, bool, str, list, dict, nil, cons, end, entry}
use responsibility_pathway_r.Execution.{
  ExecutionRequest, ExecutionResult, ReadbackEvidence, succeeded, failed,
}
use responsibility_pathway_r.Env.{Env}
use responsibility_pathway_r.JsonIdentity.Exact.{IsStrictJson}
use responsibility_pathway_r.Rpc.{transport_error}
use responsibility_pathway_r.Mcp.Json.{strict_plain}
use responsibility_pathway_r.Mcp.Admission.{ToolSnapshot, admit, admitted_request}
use responsibility_pathway_r.Mcp.Admission.Bound.{Allows, admit-Bound}
use responsibility_pathway_r.Mcp.Tool.{Classes, Observer, execute, validated_dispatch_parameters}
use responsibility_pathway_r.Mcp.Tool.Outcome.{Verified, succeeded-Verified}
use responsibility_pathway_r.Mcp.Tool.Failure.{Known, failed-Known}
use responsibility_pathway_r.Mcp.Prepare.{Orchestrator, prepare}
use responsibility_pathway_r.Mcp.Prepare.Dispatch.{Dispatches, prepare-Dispatches}

abbrev pub digest_example : String
digest_example = "0123456789abcdef0123456789abcdef0123456789abcdef0123456789abcdef"

abbrev pub hex_env : Env
hex_env = record {
  text = λ v. "text";
  casefold = λ s. s;
  dumps = λ v. "json";
  sha256 = λ s. digest_example;
  now = λ n. "2026-01-01T00:00:00+00:00";
  write_fails = λ n. false;
}

-- A contract that lists the stable version.
abbrev contract_example : Fields
contract_example =
    entry "versions"
      (list (
        cons
          (dict (
            entry "protocol_version" (str "2025-11-25") (
              entry "lifecycle" (str "stable")
                (entry "requires_experimental_flag" (bool false) end))))
          nil))
      end

abbrev schema_example : Value
schema_example = dict (entry "type" (str "object") end)

abbrev capabilities_example : Value
capabilities_example = dict (entry "tools" (dict end) end)

abbrev snapshot_example : ToolSnapshot
snapshot_example = record {
  protocol_version = "2025-11-25";
  server_identity = "server@1";
  server_capabilities = capabilities_example;
  tool_name = "write";
  tool_schema = schema_example;
  server_capabilities_hash = digest_example;
  tool_schema_hash = digest_example;
}

abbrev arguments_example : Value
arguments_example = dict (entry "path" (str "note.txt") end)

abbrev pub mcp_request : ExecutionRequest
mcp_request = record {
  operation_id = "operation-1";
  attempt_id = "attempt-1";
  idempotency_key = "run-1";
  action = "mcp_tool_call";
  parameters =
      entry "mcp"
        (dict (
          entry "protocol_version" (str "2025-11-25") (
            entry "server_identity" (str "server@1") (
              entry "server_capabilities_hash" (str digest_example) (
                entry "tool_name" (str "write")
                  (entry "tool_schema_hash" (str digest_example) end))))))
        (entry "arguments" arguments_example end);
}

admit_example :
    Allows contract_example false "2025-11-25"
    × IsStrictJson arguments_example
    × (mcp_request
        ≡ admitted_request snapshot_example "operation-1" "attempt-1" "run-1" arguments_example)
unfolding admit responsibility_pathway_r.Mcp.Json.strict_document
    responsibility_pathway_r.Prelude.is_blank
admit_example =
    admit-Bound hex_env contract_example false snapshot_example "operation-1" "attempt-1" "run-1"
      arguments_example mcp_request refl

abbrev orchestrator_example : Orchestrator
orchestrator_example = record {
  env = hex_env;
  contract = contract_example;
  experimental = false;
  client_name = "client";
  client_version = "1";
  is_transport_failure = λ e. true;
}

abbrev initialize_answer : Value
initialize_answer = dict (
    entry "protocolVersion" (str "2025-11-25") (
      entry "serverInfo" (dict (entry "name" (str "server") (entry "version" (str "1") end)))
        (entry "capabilities" capabilities_example end)))

abbrev tools_answer : Value
tools_answer = dict (
    entry "tools"
      (list (cons (dict (entry "name" (str "write") (entry "inputSchema" schema_example end))) nil))
      end)

abbrev answer_to : Bool → Value
answer_to true = initialize_answer
answer_to false = tools_answer

-- A server whose state is whether the next request is the first.
abbrev server_example : String → Fields → Exec Bool Value
server_example method params first = (ok (answer_to first), false)

abbrev notified_example : String → Fields → Exec Bool (Unit {0})
notified_example method params first = (ok tt, first)

abbrev classes_example : Classes
classes_example = record {
  is_not_sent = λ e. true;
  is_possibly_sent = λ e. false;
  is_transport = λ e. false;
  is_readback_failure = λ e. false;
  describe = λ e. "error";
  type_name = λ v. "value";
}

abbrev readback_example : ReadbackEvidence
readback_example = record { verified = true; observed = end; reason = none }

abbrev observer_example : Observer (Unit {0})
observer_example q tool_result = pure (some readback_example)

abbrev tool_example : String → Fields → Exec (Unit {0}) Value
tool_example method params = pure (dict end)

prepare-Dispatches_example :
    Dispatches hex_env classes_example tool_example
      (some observer_example)
      true
      "write"
      arguments_example
      mcp_request
      tt
unfolding responsibility_pathway_r.Mcp.Tool.is_sha256_hex prepare
    responsibility_pathway_r.Prelude.is_blank strip
prepare-Dispatches_example =
    prepare-Dispatches orchestrator_example server_example notified_example (λ bytes. refl) "write"
      arguments_example "operation-1" "attempt-1" "run-1"
      (record {
        request = mcp_request;
        server_identity = "server@1";
        protocol_version = "2025-11-25";
        tool_name = "write";
      })
      true false classes_example tool_example (some observer_example) true tt refl

abbrev succeeded_example : ExecutionResult
succeeded_example = record {
  status = succeeded;
  evidence = entry "dispatch_state" (str "sent") (entry "tool_result" (dict end) end);
  readback = some readback_example;
  reason = none;
}

succeeded-Verified_example :
    Verified hex_env classes_example tool_example
      (some observer_example)
      mcp_request
      tt
      succeeded_example
      tt
unfolding execute responsibility_pathway_r.Prelude.is_blank strip
    responsibility_pathway_r.Mcp.Json.strict_document
succeeded-Verified_example =
    succeeded-Verified hex_env classes_example tool_example (some observer_example) mcp_request tt
      tt succeeded_example refl refl

-- A transport that does not send.
abbrev unsent_example : String → Fields → Exec (Unit {0}) Value
unsent_example method params = raise transport_error

abbrev failed_example : ExecutionResult
failed_example = record {
  status = failed;
  evidence = entry "dispatch_state" (str "not_sent") end;
  readback = none;
  reason = some "error";
}

failed-Known_example :
    Known hex_env classes_example unsent_example (some observer_example) true mcp_request tt tt
unfolding execute responsibility_pathway_r.Prelude.is_blank strip
    responsibility_pathway_r.Mcp.Json.strict_document
failed-Known_example =
    failed-Known hex_env classes_example unsent_example (some observer_example) true mcp_request tt
      tt failed_example refl refl
