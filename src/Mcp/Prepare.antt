-- ===== src/Mcp/Prepare.antt =====
-- mcp_stable_transport.py: McpStableOrchestrator, which prepares a call without dispatching it.
pub mod Phases
pub mod Dispatch
use responsibility_pathway_r.Prelude.{
  String, Bool, true, false, not, ◌&&◌, ◌||◌, ◌==◌, is_blank, if◌then◌else◌,
}
use responsibility_pathway_r.Errors.{
  Error, Result, ok, err, value_error, other_error, pre_dispatch_error, ◌>>=◌ as bind_result,
}
use responsibility_pathway_r.Exec.{Exec, lift, pure, raise, try, ◌>>=◌, ◌>>◌}
use responsibility_pathway_r.Value.{Value, Fields, str, dict, end, entry}
use responsibility_pathway_r.Execution.{ExecutionRequest}
use responsibility_pathway_r.Env.{Env}
use responsibility_pathway_r.Mcp.Admission.{admit}
use responsibility_pathway_r.Mcp.Snapshot.{
  ServerSnapshot, stable_protocol_version, validate_initialize, validate_tools_list,
}

-- McpStableOrchestrator: the contract and the flag are those of its admission adapter.
pub record Orchestrator : Type 0 where
  pub env : Env
  pub contract : Fields
  pub experimental : Bool
  pub client_name : String
  pub client_version : String
  -- `isinstance(exc, (McpTransportError, TimeoutError, ConnectionError, OSError))`
  pub is_transport_failure : Error → Bool

-- `__init__`
unfoldable pub check_orchestrator : Orchestrator → Result Orchestrator
check_orchestrator o =
    if is_blank o.client_name || is_blank o.client_version then err value_error else ok o

-- McpPreparedCall
pub record PreparedCall : Type 0 where
  pub request : ExecutionRequest
  pub server_identity : String
  pub protocol_version : String
  pub tool_name : String

abbrev pub prepared_call : ServerSnapshot → String → ExecutionRequest → PreparedCall
prepared_call server tool_name q = record {
  request = q;
  server_identity = server.server_identity;
  protocol_version = server.protocol_version;
  tool_name = tool_name;
}

-- `isinstance(exc, McpAdmissionError)`
is_admission_error : Error → Bool
is_admission_error (other_error n) = n == "McpAdmissionError"
is_admission_error _ = false

-- `except McpAdmissionError: raise McpPreDispatchError(phase, …)`
unfoldable pub in_phase : {A : Type 0} → String → Result A → Result A
unfolding is_admission_error
in_phase phase (ok a) = ok a
in_phase phase (err e) = err (if is_admission_error e then pre_dispatch_error phase else e)

unfoldable pub initialize_params : Orchestrator → Fields
initialize_params o = entry "protocolVersion" (str stable_protocol_version) (
    entry "capabilities" (dict end) (
      entry "clientInfo"
        (dict (entry "name" (str o.client_name) (entry "version" (str o.client_version) end))) end))

module _ (o : Orchestrator) {T : Type 0} (request : String → Fields → Exec T Value)
    (notify : String → Fields → Exec T (Unit {0})) where
  -- A failure of the transport in a phase.
  transport_failed : {A : Type 0} → String → Error → Exec T A
  transport_failed phase e =
      if o.is_transport_failure e then raise (pre_dispatch_error phase) else raise e

  object_in : String → Value → Exec T Value
  object_in phase (dict fs) = pure (dict fs)
  object_in phase _ = raise (pre_dispatch_error phase)

  -- `_request`
  unfoldable pub request_in : String → Fields → String → Exec T Value
  unfolding transport_failed object_in
  request_in method params phase =
      try (request method params) (object_in phase) (transport_failed phase)

  -- `_notify`
  unfoldable pub notify_in : String → Fields → String → Exec T (Unit {0})
  unfolding transport_failed
  notify_in method params phase = try (notify method params) pure (transport_failed phase)

  -- The request that is admitted for the tool of the list.
  unfoldable pub admitted :
      ServerSnapshot → Value → String → String → String → String → Value → Result ExecutionRequest
  unfolding validate_tools_list admit
  admitted server tools_result tool_name operation_id attempt_id idempotency_key arguments =
      bind_result (validate_tools_list o.env tools_result server tool_name) (λ snapshot.
        admit o.env o.contract o.experimental snapshot operation_id attempt_id idempotency_key
          arguments)

  -- `prepare`
  unfoldable pub prepare : String → Value → String → String → String → Exec T PreparedCall
  unfolding request_in notify_in admitted in_phase initialize_params validate_initialize
  prepare tool_name arguments operation_id attempt_id idempotency_key = do
    initialize_result ← request_in "initialize" (initialize_params o) "initialize"
    server ← lift (in_phase "initialize_validation" (validate_initialize o.env initialize_result))
    notify_in "notifications/initialized" end "initialized_notification"
    tools_result ← request_in "tools/list" end "tools_list"
    q ← lift (
        in_phase "admission" (
          admitted server tools_result tool_name operation_id attempt_id idempotency_key arguments))
    pure (prepared_call server tool_name q)
