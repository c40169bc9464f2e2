-- ===== src/Mcp/Admission.antt =====
-- mcp_admission.py: McpServerToolSnapshot and McpStableAdmissionAdapter.
pub mod Bound
use responsibility_pathway_r.Prelude.{
  String, Bool, true, false, not, ◌&&◌, ◌||◌, Option, none, some, ◌==◌, is_blank, if◌then◌else◌,
}
use responsibility_pathway_r.Errors.{Error, Result, ok, err, other_error, ensure, ◌>>=◌, ◌>>◌}
use responsibility_pathway_r.Value.{
  Value, Items, Fields, null, bool, int, float, str, list, dict, object, nil, cons, end, entry, get,
  item, truthy, no_fields,
}
use responsibility_pathway_r.Execution.{ExecutionRequest, check_request}
use responsibility_pathway_r.Env.{Env}
use responsibility_pathway_r.Mcp.Json.{mcp_admission_error, strict_document, strict_snapshot}

-- McpServerToolSnapshot
pub record ToolSnapshot : Type 0 where
  pub protocol_version : String
  pub server_identity : String
  pub server_capabilities : Value
  pub tool_name : String
  pub tool_schema : Value
  pub server_capabilities_hash : String
  pub tool_schema_hash : String

-- `isinstance(value, Mapping)`, or McpAdmissionError
unfoldable pub mapping_of : Value → Result Fields
mapping_of (dict fs) = ok fs
mapping_of _ = err mcp_admission_error

-- The same of a member that may be absent.
unfoldable pub mapping_at : Option Value → Result Fields
unfolding mapping_of
mapping_at none = err mcp_admission_error
mapping_at (some v) = mapping_of v

-- `McpServerToolSnapshot.__post_init__`
unfoldable pub tool_snapshot : Env → String → String → Value → String → Value → Result ToolSnapshot
unfolding mapping_of
tool_snapshot env protocol_version server_identity server_capabilities tool_name tool_schema = do
  ensure (not (is_blank protocol_version)) mcp_admission_error
  ensure (not (is_blank server_identity)) mcp_admission_error
  ensure (not (is_blank tool_name)) mcp_admission_error
  _ ← mapping_of server_capabilities
  _ ← mapping_of tool_schema
  (capabilities, capabilities_hash) ← strict_snapshot env server_capabilities
  (schema, schema_hash) ← strict_snapshot env tool_schema
  ok (record {
    protocol_version = protocol_version;
    server_identity = server_identity;
    server_capabilities = capabilities;
    tool_name = tool_name;
    tool_schema = schema;
    server_capabilities_hash = capabilities_hash;
    tool_schema_hash = schema_hash;
  })

-- `admission_binding`
unfoldable pub admission_binding : ToolSnapshot → Fields
admission_binding s = entry "protocol_version" (str s.protocol_version) (
    entry "server_identity" (str s.server_identity) (
      entry "server_capabilities_hash" (str s.server_capabilities_hash) (
        entry "tool_name" (str s.tool_name)
          (entry "tool_schema_hash" (str s.tool_schema_hash) end))))

-- `value == text`
unfoldable pub is_text : String → Option Value → Bool
is_text t (some (str s)) = s == t
is_text t _ = false

abbrev pub attribute_error : Error
attribute_error = other_error "AttributeError"

abbrev pub type_error : Error
type_error = other_error "TypeError"

-- The loop over `self.contract.get("versions", [])`.
find_version : String → Items → Result Fields
unfolding is_text get
find_version protocol_version nil = err mcp_admission_error
find_version protocol_version (cons (dict version) rest) =
    let later = find_version protocol_version rest in
    if is_text protocol_version (get "protocol_version" version) then ok version else later
find_version protocol_version (cons _ rest) = err attribute_error

-- A value that is no list: the keys and the characters that it yields have no `get`.
versions_of : Option Value → Result Items
versions_of none = ok nil
versions_of (some (list vs)) = ok vs
versions_of (some (dict fs)) = if no_fields fs then ok nil else err attribute_error
versions_of (some (str s)) = if s == "" then ok nil else err attribute_error
versions_of (some _) = err type_error

-- `_version`
unfoldable pub version_of : Fields → String → Result Fields
unfolding versions_of find_version get
version_of contract protocol_version = do
  versions ← versions_of (get "versions" contract)
  find_version protocol_version versions

-- The tests of `admit` on the version of the protocol.
unfoldable pub check_version : Bool → Fields → Result (Unit {0})
unfolding item truthy is_text
check_version experimental version = do
  flag ← item "requires_experimental_flag" version
  ensure (not (truthy flag) || experimental) mcp_admission_error
  lifecycle ← item "lifecycle" version
  ensure (is_text "stable" (some lifecycle) || experimental) mcp_admission_error

-- The request that `admit` builds.
unfoldable pub admitted_request : ToolSnapshot → String → String → String → Value → ExecutionRequest
unfolding admission_binding
admitted_request s operation_id attempt_id idempotency_key arguments = record {
  operation_id = operation_id;
  attempt_id = attempt_id;
  idempotency_key = idempotency_key;
  action = "mcp_tool_call";
  parameters = entry "mcp" (dict (admission_binding s)) (entry "arguments" arguments end);
}

-- `McpStableAdmissionAdapter.admit`, of an adapter with this contract and flag
unfoldable pub admit :
    Env → Fields → Bool → ToolSnapshot → String → String → String → Value → Result ExecutionRequest
unfolding version_of check_version mapping_of admitted_request check_request
admit env contract experimental s operation_id attempt_id idempotency_key arguments = do
  version ← version_of contract s.protocol_version
  check_version experimental version
  _ ← mapping_of arguments
  (detached, _) ← strict_document env arguments
  check_request (admitted_request s operation_id attempt_id idempotency_key detached)

-- `equals` is the comparison of two mappings by `==`.
module _ (equals : Fields → Fields → Bool) where
  -- `assert_transport_retry`
  unfoldable pub assert_transport_retry : ExecutionRequest → ExecutionRequest → Result (Unit {0})
  assert_transport_retry original retry = do
    ensure
        (original.operation_id == retry.operation_id
          && original.attempt_id == retry.attempt_id
          && original.idempotency_key == retry.idempotency_key)
        mcp_admission_error
    ensure (original.action == retry.action && equals original.parameters retry.parameters)
        mcp_admission_error

-- `assert_business_retry`
unfoldable pub assert_business_retry : ExecutionRequest → ExecutionRequest → Result (Unit {0})
assert_business_retry previous retry =
    ensure (not (previous.attempt_id == retry.attempt_id)) mcp_admission_error
